-- ===== src/Formats.antt =====
-- src/formats: how data sets are read and written.
pub mod Json
mod Tests
