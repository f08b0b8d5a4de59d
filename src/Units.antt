-- ===== src/Units.antt =====
-- src/units: the units that produce and transform data sets.
pub mod Slurm
pub mod Combine
pub mod Rtr
pub mod JsonSource
pub mod Json
mod Tests
