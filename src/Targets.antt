-- ===== src/Targets.antt =====
-- src/targets: where the data sets leave the program.
pub mod Rtr
pub mod Http
mod Tests
