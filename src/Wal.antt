-- ===== src/Wal.antt =====
-- crates/toroidal-store/wal.rs: the write-ahead log. `Frame` is the layout of a frame, `Read` the
-- loops that read the file, `Log` the operations of `Wal`; the other modules are the proofs.
pub mod Frame
pub mod Codec
pub mod RoundTrip
pub mod Read
pub mod Log
pub mod Scan
pub mod Stream
pub mod Append
pub mod Batch
pub mod Crash
pub mod Recovery
pub mod Group
pub mod Checkpoint
pub mod Truncate
mod Tests
