-- ===== src/Wal/Truncate.antt =====
-- crates/toroidal-store/wal.rs: `truncate_keep_above` on any log.
use toroidal_db.Base.{◌≤◌, length}
use toroidal_db.Base.Bytes.{Bytes}
use toroidal_db.Wal.Frame.{PhysicalFrame, max_payload_size}
use toroidal_db.Wal.Log.{Wal}

-- A payload that a frame may have.
abbrev Short : PhysicalFrame → Type 0
Short f = length f.payload ≤ max_payload_size
