-- ===== src/Segment.antt =====
-- crates/toroidal-store/segment.rs: the sorted file of a flushed table.
pub mod Bytes
pub mod Block
pub mod Bloom
pub mod Index
pub mod Reader
pub mod File
pub mod Open
pub mod Flush
pub mod Sample
mod Tests
