-- ===== src/Payload.antt =====
-- src/payload.rs: packs, blocks, sets and diffs of payload items.
pub mod Types
pub mod Pack
pub mod Block
pub mod Set
pub mod Filter
pub mod Merge
pub mod Builder
pub mod Diff
pub mod Update
pub mod Tests
