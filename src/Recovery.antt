-- ===== src/Recovery.antt =====
-- crates/toroidal-store/recovery.rs and `replay_into_memtable` of crates/toroidal-store/store.rs: the
-- operations that the log replays, inserted into a fresh table.
use toroidal_db.Base.{ℕ, List, [], ◌∷◌, Message, storage, Result, ok, err, ◌>>=◌}
use toroidal_db.Base.Bytes.{Bytes}
use toroidal_db.Wal.Frame.{WalFrameKind, WalFrame}
use toroidal_db.Wal.Read.{replay}
use toroidal_db.Wal.Log.{Wal, open_wal}
use toroidal_db.MemTable.{MemTable, new, insert_with_seq, delete_with_seq}

-- The body of the loop on one frame.
unfoldable pub insert_frame : MemTable → WalFrameKind → ℕ → Result MemTable
insert_frame mem (WalFrameKind.put key value) sequence = insert_with_seq mem key value sequence
insert_frame mem (WalFrameKind.delete key) sequence = delete_with_seq mem key sequence
insert_frame mem (WalFrameKind.begin b) sequence =
    err (storage Message.unexpected_wal_frame_during_recovery)
insert_frame mem (WalFrameKind.commit b) sequence =
    err (storage Message.unexpected_wal_frame_during_recovery)

unfoldable pub insert_frames : MemTable → List WalFrame → Result MemTable
insert_frames mem [] = ok mem
insert_frames mem (frame ∷ frames) = do
  mem1 ← insert_frame mem frame.kind frame.sequence
  insert_frames mem1 frames

module _ (crc32 : Bytes → ℕ) where
  unfoldable pub replay_into_memtable : Wal → Result MemTable
  replay_into_memtable wal = do frames ← replay crc32 wal.file; insert_frames new frames

  unfoldable pub recover : Bytes → Result (MemTable × ℕ)
  recover bytes = do
    wal ← open_wal crc32 bytes
    frames ← replay crc32 wal.file
    mem ← insert_frames new frames
    ok (mem, wal.next_sequence)
