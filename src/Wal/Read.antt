-- ===== src/Wal/Read.antt =====
-- crates/toroidal-store/wal.rs: reading the file. A file is its bytes; a read position is the bytes
-- that are left. Each loop takes fuel and ends as at the end of the file when it has none: a frame
-- takes at least 31 bytes, so the length of the file is enough.
use toroidal_db.Base.{
  ℕ, zero, suc, ◌-◌, Bool, true, false, ◌&&◌, Option, none, some, List, [], ◌∷◌, ◌++◌, leb, ◌==◌,
  length, drop, Message, TqlError, storage, Result, ok, err, ◌>>=◌, ◌>>◌, ensure, ok_or,
  if◌then◌else◌,
}
use toroidal_db.Base.Bytes.{Bytes, from_le, checked_add, take_exact}
use toroidal_db.Wal.Frame.{
  WalFrameKind, WalFrame, PhysicalFrame, min_frame_size, max_frame_size, standalone, encoded_len,
  to_logical, decode,
}

pub record PendingBatch : Type 0 where
  pub batch_id : ℕ
  pub ops : List WalFrame

-- `FrameRead`; a frame comes with the bytes behind it.
pub data FrameRead : Type 0 where
  eof : FrameRead
  truncated : FrameRead
  corrupt : TqlError → FrameRead
  frame : PhysicalFrame → Bytes → FrameRead

-- The checks that `scan_valid_prefix` makes of a frame behind one of sequence `prev`.
unfoldable pub follows : Option ℕ → ℕ → Result Bool
follows none sequence = ok true
follows (some prev) sequence = do
  expected ← ok_or (checked_add prev 1) (storage Message.wal_sequence_exhausted)
  ok (sequence == expected)

-- What `replay` has read: the committed frames, and the batch that is open.
pub record ReplayState : Type 0 where
  pub committed : List WalFrame
  pub pending : Option PendingBatch

unfoldable pub replay_op : WalFrame → ReplayState → Result ReplayState
replay_op logical s = elim s.pending [
  | some batch ↦ (do
    ensure (logical.batch_id == batch.batch_id) (storage Message.wal_op_batch_id_mismatch)
    ok (record s { pending = some (record batch { ops = batch.ops ++ (logical ∷ []) }) }))
  | none ↦ (do
    ensure (logical.batch_id == standalone) (storage Message.standalone_op_has_non_zero_batch_id)
    ok (record s { committed = s.committed ++ (logical ∷ []) }))
]

unfoldable pub replay_begin : ℕ → ReplayState → Result ReplayState
replay_begin batch_id s =
    if batch_id == standalone
    then err (storage Message.batch_id_zero_is_reserved)
    else elim s.pending [
      | some batch ↦ err (storage Message.nested_wal_batch)
      | none ↦ ok (record s { pending = some (record { batch_id = batch_id; ops = [] }) })
    ]

unfoldable pub replay_commit : ℕ → ReplayState → Result ReplayState
replay_commit batch_id s = elim s.pending [
  | none ↦ err (storage Message.commit_without_begin)
  | some batch ↦ (do
    ensure (batch.batch_id == batch_id) (storage Message.commit_batch_id_mismatch)
    ok (record { committed = s.committed ++ batch.ops; pending = none }))
]

-- The body of the loop of `replay` on one logical frame.
unfoldable pub replay_kind : WalFrameKind → WalFrame → ReplayState → Result ReplayState
replay_kind (WalFrameKind.begin batch_id) logical s = replay_begin batch_id s
replay_kind (WalFrameKind.put key value) logical s = replay_op logical s
replay_kind (WalFrameKind.delete key) logical s = replay_op logical s
replay_kind (WalFrameKind.commit batch_id) logical s = replay_commit batch_id s

module _ (crc32 : Bytes → ℕ) where
  unfoldable pub read_body : Bytes → ℕ → Bytes → FrameRead
  read_body len_buf len rest =
      if leb min_frame_size len && leb len max_frame_size
      then elim (take_exact (len - 4) rest) [
        | none ↦ FrameRead.truncated
        | some body ↦ elim (decode crc32 (len_buf ++ body)) [
          | ok f ↦ FrameRead.frame f (drop (len - 4) rest)
          | err e ↦ FrameRead.corrupt e
        ]
      ]
      else FrameRead.corrupt (storage Message.wal_frame_length_out_of_bounds)

  unfoldable pub read_next_frame : Bytes → FrameRead
  read_next_frame bytes = elim (take_exact 4 bytes) [
    | none ↦ FrameRead.eof
    | some len_buf ↦ read_body len_buf (from_le len_buf) (drop 4 bytes)
  ]

  -- `scan_valid_prefix`; `prev` is both `prev_seq` and `max_seq`, which the code sets together.
  unfoldable pub scan_loop : ℕ → Bytes → ℕ → Option ℕ → Result (ℕ × Option ℕ)
  scan_loop zero bytes offset prev = ok (offset, prev)
  scan_loop (suc fuel) bytes offset prev = elim (read_next_frame bytes) [
    | FrameRead.eof ↦ ok (offset, prev)
    | FrameRead.truncated ↦ ok (offset, prev)
    | FrameRead.corrupt e ↦ ok (offset, prev)
    | FrameRead.frame f rest ↦ elim (follows prev f.sequence) [
      | err e ↦ err e
      | ok false ↦ ok (offset, prev)
      | ok true ↦ (do
        frame_len ← encoded_len f
        next ← ok_or (checked_add offset frame_len) (storage Message.wal_offset_overflow)
        scan_loop fuel rest next (some f.sequence))
    ]
  ]

  unfoldable pub scan_valid_prefix : Bytes → Result (ℕ × Option ℕ)
  scan_valid_prefix bytes = scan_loop (length bytes) bytes 0 none

  unfoldable pub replay_loop : ℕ → Bytes → ReplayState → Result (List WalFrame)
  replay_loop zero bytes s = ok s.committed
  replay_loop (suc fuel) bytes s = elim (read_next_frame bytes) [
    | FrameRead.eof ↦ ok s.committed
    | FrameRead.truncated ↦ ok s.committed
    | FrameRead.corrupt e ↦ err e
    | FrameRead.frame f rest ↦ (do
      logical ← to_logical f
      s' ← replay_kind logical.kind logical s
      replay_loop fuel rest s')
  ]

  unfoldable pub replay : Bytes → Result (List WalFrame)
  replay bytes = replay_loop (length bytes) bytes (record { committed = []; pending = none })

  -- The first loop of `truncate_keep_above`.
  unfoldable pub read_frames : ℕ → Bytes → List PhysicalFrame
  read_frames zero bytes = []
  read_frames (suc fuel) bytes = elim (read_next_frame bytes) [
    | FrameRead.eof ↦ []
    | FrameRead.truncated ↦ []
    | FrameRead.corrupt e ↦ []
    | FrameRead.frame f rest ↦ f ∷ read_frames fuel rest
  ]
