-- ===== src/Store/Checkpoint.antt =====
-- crates/toroidal-store/store.rs: `checkpoint` writes all frozen tables to segments, registers them in the manifest with
-- one batch and cuts the log behind them. The name of a segment's file is the parameter `seg_path`; what is synced and
-- opened is what was written. The code takes and releases the lock of the state several times; here no other operation
-- runs in between. The truncation of the log does not fail (Wal/Truncate).
pub mod Order
mod Tests
use toroidal_db.Base.{
  ℕ, ◌+◌, ◌%◌, Bool, Option, none, some, List, [], ◌∷◌, length, ltb, Result, ok, err, ◌>>=◌,
  if◌then◌else◌,
}
use toroidal_db.Base.Bytes.{Bytes, u64_mod}
use toroidal_db.MemTable.{SortBy, MemTable, max_sequence}
use toroidal_db.Wal.Log.{truncate_keep_above}
use toroidal_db.Manifest.{append_batch}
use toroidal_db.Segment.Index.{Search}
use toroidal_db.Segment.Reader.{SegmentReadMode}
use toroidal_db.Segment.File.{write_segment}
use toroidal_db.Segment.Open.{open_with}
use toroidal_db.Store.{OpenSegment, FailurePoint, ToroidalStore, freeze}
use toroidal_db.Store.Flush.{unwrap_or_zero, open_segment}

-- A segment file that the loop has written: its number, its highest sequence and its bytes.
pub record WrittenSegment : Type 0 where
  pub seg_id : ℕ
  pub max_seq : ℕ
  pub raw : Bytes

-- The boundary: the highest sequence of the frozen tables, at least `seq`.
unfoldable pub checkpoint_seq : ℕ → List MemTable → ℕ
checkpoint_seq seq [] = seq
checkpoint_seq seq (frozen ∷ batch) = elim (max_sequence frozen) [
  | none ↦ checkpoint_seq seq batch
  | some q ↦ checkpoint_seq (if ltb seq q then q else seq) batch
]

-- `push_segment_newest` of each reader.
unfoldable pub push_newest : List OpenSegment → List OpenSegment → List OpenSegment
push_newest [] segments = segments
push_newest (reader ∷ readers) segments = push_newest readers (reader ∷ segments)

module _ (crc32 : Bytes → ℕ) (is_utf8 : Bytes → Bool) (sort_unstable_by : SortBy)
    (optimal_bits : ℕ → ℕ) (optimal_hashes : ℕ → ℕ → ℕ) (binary_search_by : Search)
    (seg_path : ℕ → Bytes) (check : FailurePoint → Result (Unit {0})) where
  -- The loop over the batch, with the number of the next segment.
  unfoldable pub write_tables : ℕ → List MemTable → Result (List WrittenSegment) × ℕ
  write_tables next [] = (ok [], next)
  write_tables next (frozen ∷ batch) =
      let max_seq = unwrap_or_zero (max_sequence frozen) in
      let after = (next + 1) % u64_mod in
      elim (write_segment crc32 sort_unstable_by optimal_bits optimal_hashes frozen max_seq) [
        | err e ↦ (err e, after)
        | ok raw ↦ elim (check FailurePoint.after_segment_write) [
          | err e ↦ (err e, after)
          | ok _ ↦
              let (written, last) = write_tables after batch in
              (
                written
                    >>= (λ ws. ok (record { seg_id = next; max_seq = max_seq; raw = raw } ∷ ws)),
                last,
              )
        ]
      ]

  unfoldable pub manifest_adds : List WrittenSegment → List (Bytes × ℕ)
  manifest_adds [] = []
  manifest_adds (w ∷ ws) = (seg_path w.seg_id, w.max_seq) ∷ manifest_adds ws

  unfoldable pub open_written : List WrittenSegment → Result (List OpenSegment)
  open_written [] = ok []
  open_written (w ∷ ws) = do
    r ← open_with crc32 w.raw w.seg_id SegmentReadMode.predecoded
    rest ← open_written ws
    ok (open_segment crc32 binary_search_by (seg_path w.seg_id) r ∷ rest)

  -- The end of `checkpoint`, from the point before the log is cut on.
  unfoldable pub truncate_log : ToroidalStore → ℕ → ℕ → Result ℕ × ToroidalStore
  truncate_log s boundary count = elim (check FailurePoint.before_wal_truncate) [
    | err e ↦ (err e, s)
    | ok _ ↦ elim (truncate_keep_above crc32 s.wal boundary) [
      | err e ↦ (err e, s)
      | ok wal ↦
          let s1 = record s { wal = wal } in
          elim (check FailurePoint.after_wal_truncate) [
            | err e ↦ (err e, s1)
            | ok _ ↦ (ok count, s1)
          ]
    ]
  ]

  -- Behind the synced manifest: the readers are opened and put in front of the segments.
  unfoldable pub open_readers :
      ToroidalStore → List WrittenSegment → ℕ → ℕ → Result ℕ × ToroidalStore
  open_readers s ws boundary count = elim (open_written ws) [
    | err e ↦ (err e, s)
    | ok readers ↦
        truncate_log (record s { segments = push_newest readers s.segments }) boundary count
  ]

  -- Behind the written segments: the batch of the manifest.
  unfoldable pub register_segments :
      ToroidalStore → List WrittenSegment → ℕ → ℕ → Result ℕ × ToroidalStore
  register_segments s ws boundary count = elim (check FailurePoint.after_segment_sync) [
    | err e ↦ (err e, s)
    | ok _ ↦
        let (added, manifest) = append_batch crc32 is_utf8 s.manifest (manifest_adds ws) boundary in
        let s1 = record s { manifest = manifest } in
        elim added [
          | err e ↦ (err e, s1)
          | ok _ ↦ elim (check FailurePoint.after_manifest_write) [
            | err e ↦ (err e, s1)
            | ok _ ↦ elim (check FailurePoint.after_manifest_sync) [
              | err e ↦ (err e, s1)
              | ok _ ↦ open_readers s1 ws boundary count
            ]
          ]
        ]
  ]

  -- The frozen tables are not in the state any more.
  unfoldable pub checkpoint_batch : ToroidalStore → List MemTable → Result ℕ × ToroidalStore
  checkpoint_batch s [] = (ok 0, s)
  checkpoint_batch s (frozen ∷ rest) =
      let batch = frozen ∷ rest in
      let (written, last) = write_tables s.next_seg_id batch in
      let s1 = record s { next_seg_id = last } in
      elim written [
        | err e ↦ (err e, s1)
        | ok ws ↦ register_segments s1 ws (checkpoint_seq 0 batch) (length batch)
      ]

  unfoldable pub checkpoint : ToroidalStore → Result ℕ × ToroidalStore
  checkpoint s =
      let frozen = freeze s in
      elim (check FailurePoint.after_memtable_freeze) [
        | err e ↦ (err e, frozen)
        | ok _ ↦ checkpoint_batch (record frozen { immutable = [] }) frozen.immutable
      ]
