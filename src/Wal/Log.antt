-- ===== src/Wal/Log.antt =====
-- crates/toroidal-store/wal.rs: the operations of `Wal`. They hold the lock on the file, so an
-- operation is a function of the state; only `truncate_with_floor` loads a value before. Writes and fsync succeed; a
-- crash is a prefix of the bytes that were written. An operation that fails returns the state that
-- it leaves, in which a sequence may have been allocated.
use toroidal_db.Base.{
  ℕ, suc, ◌+◌, ◌%◌, Bool, true, false, not, ◌&&◌, ◌||◌, none, some, List, [], ◌∷◌, ◌++◌, ltb, ◌==◌,
  length, take, Message, storage, Result, ok, err, ◌>>=◌, ◌>>◌, ensure, ok_or, if◌then◌else◌, max,
}
use toroidal_db.Base.Bytes.{Bytes, u64_mod, checked_add}
use toroidal_db.Wal.Frame.{WalFrameKind, PhysicalFrame, is_operation, standalone, build, encode}
use toroidal_db.Wal.Read.{scan_valid_prefix, read_frames}

pub record Wal : Type 0 where
  pub file : Bytes
  pub next_sequence : ℕ

-- `next_seq_locked`: the sequence, and the state that has counted it.
unfoldable pub next_seq_locked : Wal → Result (ℕ × Wal)
next_seq_locked w = do
  next ← ok_or (checked_add w.next_sequence 1) (storage Message.wal_sequence_exhausted)
  ok (w.next_sequence, record w { next_sequence = next })

-- `fetch_add` wraps.
unfoldable pub reserve_sequences : Wal → ℕ → ℕ × Wal
reserve_sequences w n =
    (w.next_sequence, record w { next_sequence = (w.next_sequence + n) % u64_mod })

-- `contains` of the set of kept batches.
unfoldable pub contains : ℕ → List ℕ → Bool
contains b [] = false
contains b (c ∷ cs) = (b == c) || contains b cs

-- The batches that have a frame above the boundary.
unfoldable pub kept_batches : ℕ → List PhysicalFrame → List ℕ
kept_batches boundary [] = []
kept_batches boundary (f ∷ fs) =
    let rest = kept_batches boundary fs in
    if ltb boundary f.sequence && not (f.batch_id == standalone) then f.batch_id ∷ rest else rest

-- The frames above the boundary, and the whole of the kept batches.
unfoldable pub keep_frames : ℕ → List ℕ → List PhysicalFrame → List PhysicalFrame
keep_frames boundary kept [] = []
keep_frames boundary kept (f ∷ fs) =
    let rest = keep_frames boundary kept fs in
    if ltb boundary f.sequence || contains f.batch_id kept then f ∷ rest else rest

-- Allocates the identifier of a batch: the next sequence that is not 0. The loop of the code makes
-- a second round only if the first sequence is 0, and the second one then is 1.
unfoldable pub next_batch_id : Wal → Result (ℕ × Wal)
next_batch_id w = do
  (s, w1) ← next_seq_locked w
  if s == standalone then next_seq_locked w1 else ok (s, w1)

unfoldable pub all_operations : List WalFrameKind → Bool
all_operations [] = true
all_operations (op ∷ ops) = is_operation op && all_operations ops

-- `truncate_with_floor` behind its load of the next sequence, `current`, which is before the lock.
unfoldable pub truncate_loaded : Wal → ℕ → ℕ → Wal
truncate_loaded w current floor = record w { file = []; next_sequence = max current floor }

-- With no operation between the load and the lock.
unfoldable pub truncate_with_floor : Wal → ℕ → Wal
truncate_with_floor w floor = truncate_loaded w w.next_sequence floor

unfoldable pub truncate : Wal → Wal
unfolding truncate_with_floor
truncate w = truncate_with_floor w w.next_sequence

module _ (crc32 : Bytes → ℕ) where
  -- `Wal::open` on the bytes of a file.
  unfoldable pub open_wal : Bytes → Result Wal
  open_wal bytes = do
    (valid_end, max_seq) ← scan_valid_prefix crc32 bytes
    let file = if ltb valid_end (length bytes) then take valid_end bytes else bytes
    next ← elim max_seq [
      | some s ↦ ok_or (checked_add s 1) (storage Message.wal_sequence_exhausted)
      | none ↦ ok 0
    ]
    ok (record { file = file; next_sequence = next })

  unfoldable pub open_with_sequence : Bytes → ℕ → Result Wal
  open_with_sequence bytes floor = do
    w ← open_wal bytes
    ok (if ltb w.next_sequence floor then record w { next_sequence = floor } else w)

  unfoldable pub encode_frame : ℕ → ℕ → WalFrameKind → Result Bytes
  encode_frame seq batch_id kind = do f ← build seq batch_id kind; encode crc32 f

  unfoldable pub write_frame : Wal → ℕ → ℕ → WalFrameKind → Result Wal
  write_frame w seq batch_id kind = do
    encoded ← encode_frame seq batch_id kind
    ok (record w { file = w.file ++ encoded })

  -- One frame with the next sequence, which is returned.
  unfoldable pub write_next : Wal → ℕ → WalFrameKind → Result ℕ × Wal
  write_next w batch_id kind = elim (next_seq_locked w) [
    | err e ↦ (err e, w)
    | ok (seq, w1) ↦ elim (write_frame w1 seq batch_id kind) [
      | err e ↦ (err e, w1)
      | ok w2 ↦ (ok seq, w2)
    ]
  ]

  -- `append_nosync`; `append` adds an fsync.
  unfoldable pub append : Wal → WalFrameKind → Result ℕ × Wal
  append w kind =
      if is_operation kind
      then write_next w standalone kind
      else (err (storage Message.standalone_wal_append_requires_put_or_delete), w)

  -- The buffer of `append_many_standalone_sync`, from position `i` on.
  unfoldable pub encode_many : ℕ → ℕ → List WalFrameKind → Result Bytes
  encode_many first i [] = ok []
  encode_many first i (kind ∷ kinds) = do
    ensure (is_operation kind) (storage Message.standalone_wal_append_requires_put_or_delete)
    buf ← encode_frame ((first + i) % u64_mod) standalone kind
    rest ← encode_many first (suc i) kinds
    ok (buf ++ rest)

  -- One sequence is allocated, whatever the number of operations.
  unfoldable pub append_many_standalone_sync : Wal → List WalFrameKind → Result ℕ × Wal
  append_many_standalone_sync w [] = (err (storage Message.empty_batch_not_allowed), w)
  append_many_standalone_sync w (kind ∷ kinds) = elim (next_seq_locked w) [
    | err e ↦ (err e, w)
    | ok (first, w1) ↦ elim (encode_many first 0 (kind ∷ kinds)) [
      | err e ↦ (err e, w1)
      | ok buf ↦ (ok first, record w1 { file = w1.file ++ buf })
    ]
  ]

  -- The buffer of `append_many_at`.
  unfoldable pub encode_at : List (WalFrameKind × ℕ) → Result Bytes
  encode_at [] = ok []
  encode_at ((kind, seq) ∷ kinds) = do
    ensure (is_operation kind) (storage Message.standalone_wal_append_requires_put_or_delete)
    buf ← encode_frame seq standalone kind
    rest ← encode_at kinds
    ok (buf ++ rest)

  unfoldable pub append_many_at : Wal → List (WalFrameKind × ℕ) → Result Wal
  append_many_at w [] = ok w
  append_many_at w (k ∷ kinds) = do
    buf ← encode_at (k ∷ kinds)
    ok (record w { file = w.file ++ buf })

  -- The loop of `append_many`: the buffer, and the state with the sequences counted.
  unfoldable pub append_many_loop : Wal → List WalFrameKind → Bytes → Result Bytes × Wal
  append_many_loop w [] buf = (ok buf, w)
  append_many_loop w (kind ∷ kinds) buf =
      if is_operation kind
      then elim (next_seq_locked w) [
        | err e ↦ (err e, w)
        | ok (seq, w1) ↦ elim (encode_frame seq standalone kind) [
          | err e ↦ (err e, w1)
          | ok encoded ↦ append_many_loop w1 kinds (buf ++ encoded)
        ]
      ]
      else (err (storage Message.standalone_wal_append_requires_put_or_delete), w)

  unfoldable pub append_many : Wal → List WalFrameKind → Result (Unit {0}) × Wal
  append_many w [] = (ok tt, w)
  append_many w (kind ∷ kinds) =
      let (r, w1) = append_many_loop w (kind ∷ kinds) [] in
      elim r [ err e ↦ (err e, w1) | ok buf ↦ (ok tt, record w1 { file = w1.file ++ buf }) ]

  -- The operations of a batch, each written by itself.
  unfoldable pub write_ops : Wal → ℕ → List WalFrameKind → Result (Unit {0}) × Wal
  write_ops w batch_id [] = (ok tt, w)
  write_ops w batch_id (op ∷ ops) =
      let (r, w1) = write_next w batch_id op in
      elim r [ err e ↦ (err e, w1) | ok _ ↦ write_ops w1 batch_id ops ]

  -- What `append_batch` writes behind the BEGIN frame.
  unfoldable pub finish_batch : Wal → ℕ → List WalFrameKind → Result ℕ × Wal
  finish_batch w batch_id ops =
      let (r, w1) = write_ops w batch_id ops in
      elim r [
        | err e ↦ (err e, w1)
        | ok _ ↦
            let (c, w2) = write_next w1 batch_id (WalFrameKind.commit batch_id) in
            elim c [ err e ↦ (err e, w2) | ok _ ↦ (ok batch_id, w2) ]
      ]

  unfoldable pub append_batch : Wal → List WalFrameKind → Result ℕ × Wal
  append_batch w [] = (err (storage Message.empty_wal_batch_is_not_allowed), w)
  append_batch w (op ∷ ops) =
      if all_operations (op ∷ ops)
      then elim (next_batch_id w) [
        | err e ↦ (err e, w)
        | ok (batch_id, w1) ↦
            elim (write_frame w1 batch_id batch_id (WalFrameKind.begin batch_id)) [
              | err e ↦ (err e, w1)
              | ok w2 ↦ finish_batch w2 batch_id (op ∷ ops)
            ]
      ]
      else (err (storage Message.wal_batch_may_only_contain_put_or_delete), w)

  unfoldable pub encode_all : List PhysicalFrame → Result Bytes
  encode_all [] = ok []
  encode_all (f ∷ fs) = do encoded ← encode crc32 f; rest ← encode_all fs; ok (encoded ++ rest)

  -- The file is emptied before the frames are encoded; an error of their encoding, which would leave it so, cannot come up
  -- (Truncate), and returns no state here.
  unfoldable pub truncate_keep_above : Wal → ℕ → Result Wal
  truncate_keep_above w boundary = do
    let frames = read_frames crc32 (length w.file) w.file
    kept ← encode_all (keep_frames boundary (kept_batches boundary frames) frames)
    ok (record w { file = kept })
