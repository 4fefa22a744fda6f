-- ===== src/Lib.antt =====
-- ToroidalDB: the storage engine of crates/toroidal-store.
--
-- A write goes to the write-ahead log and then to the active table; a freeze makes the active table
-- immutable; tables become segments, which the manifest lists; reads search the active table, the
-- frozen tables and the segments, each from the newest on. Opening the store reads the manifest, cuts
-- the log behind its last valid frame and replays it into a table.
--
-- The files, and the code that they model:
--   Base            the errors of crates/toroidal-store/lib.rs (TQLError, Result), little-endian
--                   bytes, keys and their order, lists measured by native numbers
--   Wal             crates/toroidal-store/wal.rs. Wal/Frame: PhysicalFrame::build, encode, decode and
--                   the payloads. Wal/Read: read_next_frame, scan_valid_prefix, replay. Wal/Log: the
--                   operations of Wal, whose state is the bytes of the file and the next sequence.
--                   `open_wal` is Wal::open, `append` is Wal::append and append_nosync
--   Snapshot        crates/toroidal-store/snapshot.rs: EntryValue, VersionedEntry, Snapshot,
--                   SnapshotManager, RetentionHorizon. `drop_snapshot` is Drop for Snapshot
--   MemTable        crates/toroidal-store/memtable.rs: the version chains. The concurrent map is an
--                   association list. MemTable/Sort: what is relied on of its sort
--   Manifest        crates/toroidal-store/manifest.rs: the records, replay, and the operations that
--                   append. `open_manifest` is Manifest::open
--   Recovery        crates/toroidal-store/recovery.rs, and replay_into_memtable of store.rs
--   Cache           crates/toroidal-store/cache/mod.rs: LruShard, Cache, NoCache. Cache/Contract: the
--                   trait BlockCache, as operations with the laws that a reader relies on
--   Segment         crates/toroidal-store/segment.rs. Segment/Bytes: the binary helpers.
--                   Segment/Block: encode_block and decode_block. Segment/Bloom: BloomFilter and
--                   sip_hash. Segment/Index: Index::locate. Segment/Reader: SegmentReader and its
--                   reads. Segment/File: write_segment. Segment/Open: open_with. Segment/Flush: a
--                   table that is written and read back
--   Batcher         crates/toroidal-store/batcher.rs: WalBatcher and its worker, as steps
--   Store           crates/toroidal-store/store.rs: put, delete, batch, get, get_at, scan_at, freeze,
--                   snapshot, retention_floor. Store/Compaction: the merge in compact_internal.
--                   Store/Flush: flush, Store/Checkpoint: checkpoint, over the segments of
--                   Segment
-- The other files of a folder are the proofs; each folder's Tests has its runs, for which Base/Sample
-- is a checksum and Segment/Sample a history of writes.
--
-- State and errors. An operation is a function from a state to a result and a state; one that fails
-- returns the state that it leaves. The operations run one after the other. In the code this is what
-- a lock sees to, with exceptions: flush and checkpoint take and release the lock of the state
-- several times, and truncate_with_floor loads the next sequence before it takes the lock of the file
-- (which is an argument of `truncate_loaded`). What other threads do in between is not modelled.
-- Words are natural numbers, with `% 2 ^ 64` where the code wraps and `checked_add` where it checks.
-- A crash is a prefix of the bytes that were written; fsync has no other effect, and errors of the
-- operating system do not occur. Paths are compared by their bytes, where the code compares
-- components; this is the same for the names of segments in one folder, which are the paths that the
-- store makes.
--
-- Parameters. `crc32` is the checksum of the crate crc32fast, of which only is assumed, where a
-- hypothesis says so, that it has 32 bits. `is_utf8` is the standard library's test of UTF-8. `check`
-- is the failure injector of crates/toroidal-store/fault.rs. `hash` is the standard library's hash of
-- a block's id, and `binary_search_by` its binary search, of which its documentation is assumed where
-- a hypothesis says so; so is `sort_unstable_by`, its sort, which leaves open the order of versions
-- with the same key and sequence (MemTable/Sort). `optimal_bits` and `optimal_hashes` are the
-- floating-point sizes of a Bloom filter, and `seg_path` formats the name of a segment.
--
-- Fuel. The loops over a file have its length as fuel: a frame of the log takes at least 31 bytes and
-- a record of the manifest at least 11, a block of a segment at least 8, so the fuel is not used up
-- before the bytes are.
--
-- Not modelled: opening the store and the publication of a compaction; how long the
-- worker of the batcher waits; the test injectors of fault.rs and invariants.rs; and the query language,
-- the servers, the indexes and the adapters outside crates/toroidal-store, which stand on top of the
-- engine or call libraries.
pub mod Base
pub mod Wal
pub mod Snapshot
pub mod MemTable
pub mod Manifest
pub mod Recovery
pub mod Cache
pub mod Segment
pub mod Batcher
pub mod Store
