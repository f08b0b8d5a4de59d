-- ===== src/Sorted.antt =====
-- The reference view of the collections in src/payload.rs: strictly ascending lists of items.
pub mod Elem
pub mod Union
pub mod Without
