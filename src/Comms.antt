-- ===== src/Comms.antt =====
-- src/comms.rs: how units hand updates on to the units and targets that depend on them.
pub mod Status
pub mod Gate
pub mod Link
pub mod Metrics
mod Tests
