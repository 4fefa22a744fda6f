-- ===== src/Store/Checkpoint/Order.antt =====
-- crates/toroidal-store/store.rs: the order of the steps of `checkpoint`.
use toroidal_db.Base.{
  ℕ, ◌+◌, ◌%◌, ◌<◌, arith, length-append, ◌≡◌, refl, sym, ap, subst, Bool, List, [], ◌∷◌, ◌++◌,
  length, ◌⊎◌, inl, inr, TqlError, Result, ok, err, Result-cases, ◌>>=◌, >>=-eq-ok,
}
use toroidal_db.Base.Bytes.{Bytes, u64_mod}
use toroidal_db.MemTable.{SortBy, MemTable, new, max_sequence}
use toroidal_db.Wal.Log.{truncate_keep_above}
use toroidal_db.Manifest.{append_batch}
use toroidal_db.Segment.Index.{Search}
use toroidal_db.Segment.Reader.{SegmentReadMode, SegmentReader}
use toroidal_db.Segment.File.{write_segment}
use toroidal_db.Segment.Open.{open_with}
use toroidal_db.Store.{OpenSegment, FailurePoint, ToroidalStore, freeze}
use toroidal_db.Store.Flush.{unwrap_or_zero, open_segment}
use toroidal_db.Store.Checkpoint.{
  WrittenSegment, checkpoint_seq, push_newest, write_tables, manifest_adds, open_written,
  truncate_log, open_readers, register_segments, checkpoint_batch, checkpoint,
}

module _ (crc32 : Bytes → ℕ) (is_utf8 : Bytes → Bool) (sort_unstable_by : SortBy)
    (optimal_bits : ℕ → ℕ) (optimal_hashes : ℕ → ℕ → ℕ) (binary_search_by : Search)
    (seg_path : ℕ → Bytes) (check : FailurePoint → Result (Unit {0})) where
  -- The run has failed and has not changed the log.
  abbrev pub Stopped : Result ℕ × ToroidalStore → ToroidalStore → Type 0
  Stopped done s = (e : TqlError) × (done.0 ≡ err e) × (done.1.wal ≡ s.wal)

  abbrev truncated : ToroidalStore → ℕ → ℕ → Result ℕ × ToroidalStore
  truncated s boundary count =
      truncate_log crc32 is_utf8 sort_unstable_by optimal_bits optimal_hashes binary_search_by
        seg_path check s boundary count

  abbrev opened : ToroidalStore → List WrittenSegment → ℕ → ℕ → Result ℕ × ToroidalStore
  opened s ws boundary count =
      open_readers crc32 is_utf8 sort_unstable_by optimal_bits optimal_hashes binary_search_by
        seg_path check s ws boundary count

  abbrev registered : ToroidalStore → List WrittenSegment → ℕ → ℕ → Result ℕ × ToroidalStore
  registered s ws boundary count =
      register_segments crc32 is_utf8 sort_unstable_by optimal_bits optimal_hashes binary_search_by
        seg_path check s ws boundary count

  abbrev open_files : List WrittenSegment → Result (List OpenSegment)
  open_files =
      open_written crc32 is_utf8 sort_unstable_by optimal_bits optimal_hashes binary_search_by
        seg_path check

  abbrev adds_of : List WrittenSegment → List (Bytes × ℕ)
  adds_of =
      manifest_adds crc32 is_utf8 sort_unstable_by optimal_bits optimal_hashes binary_search_by
        seg_path check

  truncate_log-cases :
      (s : ToroidalStore) (boundary count : ℕ)
      → Stopped (truncated s boundary count) s
        ⊎ (((truncated s boundary count).1.manifest ≡ s.manifest)
            × ((truncated s boundary count).1.segments ≡ s.segments)
            × (truncate_keep_above crc32 s.wal boundary ≡ ok (truncated s boundary count).1.wal))
  unfolding truncate_log
  truncate_log-cases s boundary count =
      elim (Result-cases (check FailurePoint.before_wal_truncate)) [
        | inr (e, p) ↦ inl (rw (Stopped, truncated, truncate_log, p) (e, refl, refl))
        | inl (_, p) ↦ elim (Result-cases (truncate_keep_above crc32 s.wal boundary)) [
          | inr (e, q) ↦ inl (rw (Stopped, truncated, truncate_log, p, q) (e, refl, refl))
          | inl (w, q) ↦ elim (Result-cases (check FailurePoint.after_wal_truncate)) [
            | inr (_, a) ↦ inr (rw (truncated, truncate_log, p, q, a) (refl, refl, refl))
            | inl (_, a) ↦ inr (rw (truncated, truncate_log, p, q, a) (refl, refl, refl))
          ]
        ]
      ]

  open_readers-cases :
      (s : ToroidalStore) (ws : List WrittenSegment) (boundary count : ℕ)
      → Stopped (opened s ws boundary count) s
        ⊎ ((readers : List OpenSegment) × (open_files ws ≡ ok readers)
            × ((opened s ws boundary count).1.manifest ≡ s.manifest)
            × ((opened s ws boundary count).1.segments ≡ push_newest readers s.segments)
            × (truncate_keep_above crc32 s.wal boundary ≡ ok (opened s ws boundary count).1.wal))
  unfolding open_readers
  open_readers-cases s ws boundary count = elim (Result-cases (open_files ws)) [
    | inr (e, p) ↦ inl (rw (Stopped, opened, open_readers, p) (e, refl, refl))
    | inl (readers, p) ↦
        let s1 : ToroidalStore = record s { segments = push_newest readers s.segments } in
        elim (truncate_log-cases s1 boundary count) [
          | inl same ↦ inl (rw (Stopped, opened, open_readers, p) same)
          | inr (m, segs, cut) ↦ inr (
            readers,
            p,
            rw (opened, open_readers, p) m,
            rw (opened, open_readers, p) segs,
            rw (opened, open_readers, p) cut,
          )
        ]
  ]

  register-cases :
      (s : ToroidalStore) (ws : List WrittenSegment) (boundary count : ℕ)
      → Stopped (registered s ws boundary count) s
        ⊎ ((readers : List OpenSegment) × (open_files ws ≡ ok readers)
            × (append_batch crc32 is_utf8 s.manifest (adds_of ws) boundary
                ≡ (ok tt, (registered s ws boundary count).1.manifest))
            × ((registered s ws boundary count).1.segments ≡ push_newest readers s.segments)
            × (truncate_keep_above crc32 s.wal boundary
                ≡ ok (registered s ws boundary count).1.wal))
  unfolding register_segments
  register-cases s ws boundary count =
      let added = append_batch crc32 is_utf8 s.manifest (adds_of ws) boundary in
      let s1 : ToroidalStore = record s { manifest = added.1 } in
      elim (Result-cases (check FailurePoint.after_segment_sync)) [
        | inr (e, p) ↦ inl (rw (Stopped, registered, register_segments, p) (e, refl, refl))
        | inl (_, p) ↦ elim (Result-cases added.0) [
          | inr (e, q) ↦ inl (rw (Stopped, registered, register_segments, p, q) (e, refl, refl))
          | inl (tt, q) ↦ elim (Result-cases (check FailurePoint.after_manifest_write)) [
            | inr (e, a) ↦
                inl (rw (Stopped, registered, register_segments, p, q, a) (e, refl, refl))
            | inl (_, a) ↦ elim (Result-cases (check FailurePoint.after_manifest_sync)) [
              | inr (e, b) ↦
                  inl (rw (Stopped, registered, register_segments, p, q, a, b) (e, refl, refl))
              | inl (_, b) ↦ elim (open_readers-cases s1 ws boundary count) [
                | inl same ↦ inl (rw (Stopped, registered, register_segments, p, q, a, b) same)
                | inr (readers, files, m, segs, cut) ↦ inr (
                  readers,
                  files,
                  rw (registered, register_segments, p, q, a, b) (ap (λ t. (ok tt, t)) (sym m)),
                  rw (registered, register_segments, p, q, a, b) segs,
                  rw (registered, register_segments, p, q, a, b) cut,
                )
              ]
            ]
          ]
        ]
      ]

  -- Each of the frozen tables has been written to the file of the next number, which was opened and registered.
  pub data IsSegmented : ℕ → List MemTable → List OpenSegment → List (Bytes × ℕ) → Type 0 where
    none_left : (n : ℕ) → IsSegmented n [] [] []
    one_more :
        (n : ℕ) (frozen : MemTable) (raw : Bytes) (r : SegmentReader) (batch : List MemTable)
        (readers : List OpenSegment) (adds : List (Bytes × ℕ))
        → write_segment crc32 sort_unstable_by optimal_bits optimal_hashes frozen
            (unwrap_or_zero (max_sequence frozen))
          ≡ ok raw
        → open_with crc32 raw n SegmentReadMode.predecoded ≡ ok r
        → IsSegmented ((n + 1) % u64_mod) batch readers adds
        → IsSegmented n
            (frozen ∷ batch)
            (open_segment crc32 binary_search_by (seg_path n) r ∷ readers)
            ((seg_path n, unwrap_or_zero (max_sequence frozen)) ∷ adds)

  abbrev written : ℕ → List MemTable → Result (List WrittenSegment)
  written n batch =
      (write_tables crc32 is_utf8 sort_unstable_by optimal_bits optimal_hashes binary_search_by
        seg_path check n batch).0

  written-IsSegmented :
      (n : ℕ) (batch : List MemTable) (ws : List WrittenSegment) (readers : List OpenSegment)
      → written n batch ≡ ok ws
      → open_files ws ≡ ok readers
      → IsSegmented n batch readers (adds_of ws)
  unfolding write_tables open_written manifest_adds
  written-IsSegmented n [] [] [] h o = none_left n
  written-IsSegmented n [] [] (r ∷ readers) h o = absurd (cc)
  written-IsSegmented n [] (w ∷ ws) readers h o = absurd (cc)
  written-IsSegmented n (frozen ∷ batch) ws readers h o =
      let q = unwrap_or_zero (max_sequence frozen) in
      let after = (n + 1) % u64_mod in
      elim (Result-cases
        (write_segment crc32 sort_unstable_by optimal_bits optimal_hashes frozen q)) [
          | inr (_, p) ↦ absurd (let no = rw (written, write_tables, p) at h in cc)
          | inl (raw, p) ↦ elim (Result-cases (check FailurePoint.after_segment_write)) [
            | inr (_, a) ↦ absurd (let no = rw (written, write_tables, p, a) at h in cc)
            | inl (_, a) ↦
                let w : WrittenSegment = record { seg_id = n; max_seq = q; raw = raw } in
                let next = rw (written, write_tables, p, a) at h in
                let (vs, more, all) = >>=-eq-ok (written after batch) (λ vs. ok (w ∷ vs)) next in
                let same : w ∷ vs ≡ ws = cc in
                let o' = subst (λ t. open_files t ≡ ok readers) (sym same) o in
                let (r, opens, rest) =
                  >>=-eq-ok (open_with crc32 raw n SegmentReadMode.predecoded)
                    (λ r.
                      open_files vs
                      >>= (λ rs. ok (open_segment crc32 binary_search_by (seg_path n) r ∷ rs)))
                    o' in
                let (rs, others, front) =
                  >>=-eq-ok (open_files vs)
                    (λ rs. ok (open_segment crc32 binary_search_by (seg_path n) r ∷ rs)) rest in
                let first : open_segment crc32 binary_search_by (seg_path n) r ∷ rs ≡ readers =
                  cc in
                subst (λ t. IsSegmented n (frozen ∷ batch) readers (adds_of t)) same
                  (subst (λ t. IsSegmented n (frozen ∷ batch) t (adds_of (w ∷ vs))) first
                    (one_more n frozen raw r batch rs (adds_of vs) p opens
                      (written-IsSegmented after batch vs rs more others)))
          ]
        ]

  -- All of the batch is in segments that the manifest names and the store reads, and the log is cut at the boundary.
  abbrev pub Checkpointed : ToroidalStore → List MemTable → ToroidalStore → Type 0
  Checkpointed s batch t =
      (readers : List OpenSegment) × (adds : List (Bytes × ℕ)) × IsSegmented s.next_seg_id batch
        readers adds
      × (append_batch crc32 is_utf8 s.manifest adds (checkpoint_seq 0 batch) ≡ (ok tt, t.manifest))
      × (t.segments ≡ push_newest readers s.segments)
      × (truncate_keep_above crc32 s.wal (checkpoint_seq 0 batch) ≡ ok t.wal)

  abbrev batched : ToroidalStore → List MemTable → Result ℕ × ToroidalStore
  batched s batch =
      checkpoint_batch crc32 is_utf8 sort_unstable_by optimal_bits optimal_hashes binary_search_by
        seg_path check s batch

  checkpoint_batch-cases :
      (s : ToroidalStore) (batch : List MemTable)
      → 0 < length batch
      → Stopped (batched s batch) s ⊎ Checkpointed s batch (batched s batch).1
  unfolding checkpoint_batch
  checkpoint_batch-cases s [] some_tables = absurd (omega arith)
  checkpoint_batch-cases s (frozen ∷ rest) some_tables =
      let batch : List MemTable = frozen ∷ rest in
      let run =
        write_tables crc32 is_utf8 sort_unstable_by optimal_bits optimal_hashes binary_search_by
          seg_path check s.next_seg_id batch in
      let s1 : ToroidalStore = record s { next_seg_id = run.1 } in
      elim (Result-cases run.0) [
        | inr (e, p) ↦ inl (rw (Stopped, batched, checkpoint_batch, p) (e, refl, refl))
        | inl (ws, p) ↦ elim (register-cases s1 ws (checkpoint_seq 0 batch) (length batch)) [
          | inl stopped ↦ inl (rw (Stopped, batched, checkpoint_batch, p) stopped)
          | inr (readers, files, m, segs, cut) ↦ inr (
            readers,
            adds_of ws,
            written-IsSegmented s.next_seg_id batch ws readers p files,
            rw (batched, checkpoint_batch, p) m,
            rw (batched, checkpoint_batch, p) segs,
            rw (batched, checkpoint_batch, p) cut,
          )
        ]
      ]

  -- A checkpoint, whatever the injector does at its points, either fails and leaves the log as it was, or, failing
  -- behind the cut of the log or not at all, has first written each frozen table and the active one to a segment file,
  -- registered all of them in the manifest with the boundary, opened the files and put the readers in front of the
  -- segments, and the log is then the one cut at the boundary.
  pub checkpoint-order :
      (s : ToroidalStore)
      → Stopped
          (checkpoint crc32 is_utf8 sort_unstable_by optimal_bits optimal_hashes binary_search_by
            seg_path check s)
          s
        ⊎ Checkpointed s
            (s.immutable ++ (s.active ∷ []))
            (checkpoint crc32 is_utf8 sort_unstable_by optimal_bits optimal_hashes binary_search_by
              seg_path check s).1
  unfolding checkpoint freeze
  checkpoint-order s =
      let batch = s.immutable ++ (s.active ∷ []) in
      let emptied : ToroidalStore = record s { active = new; immutable = [] } in
      let some_tables : 0 < length batch =
        omega (arith, length-append s.immutable (s.active ∷ [])) in
      elim (Result-cases (check FailurePoint.after_memtable_freeze)) [
        | inr (e, p) ↦ inl (rw (Stopped, checkpoint, p) (e, refl, refl))
        | inl (_, p) ↦ elim (checkpoint_batch-cases emptied batch some_tables) [
          | inl stopped ↦ inl (rw (Stopped, checkpoint, p) stopped)
          | inr (readers, adds, written_all, m, segs, cut) ↦ inr (
            readers,
            adds,
            written_all,
            rw (checkpoint, p) m,
            rw (checkpoint, p) segs,
            rw (checkpoint, p) cut,
          )
        ]
      ]
