-- ===== src/Store/Flush/Failure.antt =====
-- crates/toroidal-store/store.rs: a flush that fails.
use toroidal_db.Base.{
  ℕ, ◌+◌, ◌%◌, ◌≡◌, refl, ap, ◌∙◌, Bool, List, [], ◌∷◌, TqlError, Result, err, inl, inr,
  Result-cases,
}
use toroidal_db.Base.Bytes.{Bytes, u64_mod}
use toroidal_db.MemTable.{SortBy, MemTable, get_entry, max_sequence, len}
use toroidal_db.Manifest.{add_segment}
use toroidal_db.Segment.Index.{Search}
use toroidal_db.Segment.Reader.{SegmentReadMode}
use toroidal_db.Segment.File.{write_segment}
use toroidal_db.Segment.Open.{open_with}
use toroidal_db.Store.{FailurePoint, ToroidalStore, get, search, tables, reverse_onto}
use toroidal_db.Store.Flush.{unwrap_or_zero, publish_segment, flush_table, flush}

-- The layers that the reads search are the same in both states.
abbrev pub SameLayers : ToroidalStore → ToroidalStore → Type 0
SameLayers s t = (s.active ≡ t.active) × (s.immutable ≡ t.immutable) × (s.segments ≡ t.segments)

module _ (crc32 : Bytes → ℕ) (is_utf8 : Bytes → Bool) (sort_unstable_by : SortBy)
    (optimal_bits : ℕ → ℕ) (optimal_hashes : ℕ → ℕ → ℕ) (binary_search_by : Search)
    (seg_path : ℕ → Bytes) (check : FailurePoint → Result (Unit {0})) where
  publish_segment-err :
      (s : ToroidalStore) (id n q : ℕ) (raw : Bytes) {e : TqlError}
      → (publish_segment crc32 is_utf8 sort_unstable_by optimal_bits optimal_hashes binary_search_by
          seg_path check s id n q raw).0
        ≡ err e
      → SameLayers
          (publish_segment crc32 is_utf8 sort_unstable_by optimal_bits optimal_hashes
            binary_search_by seg_path check s id n q raw).1
          s
  unfolding publish_segment
  publish_segment-err s id n q raw {e} h =
      elim (Result-cases (add_segment crc32 is_utf8 s.manifest (seg_path id) q)) [
        | inr (_, p) ↦ rw (publish_segment, p) (refl, refl, refl)
        | inl (m, p) ↦ elim (Result-cases (check FailurePoint.after_manifest_write)) [
          | inr (_, a) ↦ rw (publish_segment, p, a) (refl, refl, refl)
          | inl (u, a) ↦ elim (Result-cases (check FailurePoint.after_manifest_sync)) [
            | inr (_, b) ↦ rw (publish_segment, p, a, b) (refl, refl, refl)
            | inl (v, b) ↦ elim (Result-cases (open_with crc32 raw id SegmentReadMode.predecoded)) [
              | inr (_, c) ↦ rw (publish_segment, p, a, b, c) (refl, refl, refl)
              | inl (r, c) ↦ absurd (let no = rw (publish_segment, p, a, b, c) at h in cc)
            ]
          ]
        ]
      ]

  flush-err :
      (s : ToroidalStore) (frozen : MemTable) (rest : List MemTable) {e : TqlError}
      → s.immutable ≡ frozen ∷ rest
      → (flush crc32 is_utf8 sort_unstable_by optimal_bits optimal_hashes binary_search_by seg_path
          check s).0
        ≡ err e
      → SameLayers
          (flush crc32 is_utf8 sort_unstable_by optimal_bits optimal_hashes binary_search_by
            seg_path check s).1
          (record s { immutable = rest })
  unfolding flush flush_table
  flush-err s frozen rest {e} oldest h =
      let q = unwrap_or_zero (max_sequence frozen) in
      let s1 : ToroidalStore = record s {
        immutable = rest;
        next_seg_id = (s.next_seg_id + 1) % u64_mod;
      } in
      elim (Result-cases
        (write_segment crc32 sort_unstable_by optimal_bits optimal_hashes frozen q)) [
          | inr (_, p) ↦ rw (flush, oldest, flush_table, p) (refl, refl, refl)
          | inl (raw, p) ↦ elim (Result-cases (check FailurePoint.after_segment_write)) [
            | inr (_, a) ↦ rw (flush, oldest, flush_table, p, a) (refl, refl, refl)
            | inl (u, a) ↦
                let failed = rw (flush, oldest, flush_table, p, a) at h in
                rw (flush, oldest, flush_table, p, a)
                  (publish_segment-err s1 s.next_seg_id (len frozen) q raw failed)
          ]
        ]

  -- A flush that fails, for whatever reason, has taken the oldest frozen table out of the state: the active table
  -- and the segments are what they were, the frozen tables are those behind the oldest one, and reads of the
  -- newest version search these layers only.
  pub flush_fails-get :
      (s : ToroidalStore) (frozen : MemTable) (rest : List MemTable) (key : Bytes) {e : TqlError}
      → s.immutable ≡ frozen ∷ rest
      → (flush crc32 is_utf8 sort_unstable_by optimal_bits optimal_hashes binary_search_by seg_path
          check s).0
        ≡ err e
      → SameLayers
          (flush crc32 is_utf8 sort_unstable_by optimal_bits optimal_hashes binary_search_by
            seg_path check s).1
          (record s { immutable = rest })
        × (get
              (flush crc32 is_utf8 sort_unstable_by optimal_bits optimal_hashes binary_search_by
                seg_path check s).1
              key
            ≡ search
                (λ m. get_entry m key)
                (λ g. g.seg_get key)
                (s.active ∷ reverse_onto rest [])
                s.segments)
  unfolding get tables
  flush_fails-get s frozen rest key {e} oldest h =
      let s' =
        (flush crc32 is_utf8 sort_unstable_by optimal_bits optimal_hashes binary_search_by seg_path
          check s).1 in
      let same = flush-err s frozen rest oldest h in
      let (active, immutable, segments) = same in
      let layers : tables s' ≡ s.active ∷ reverse_onto rest [] =
        ap (λ a. a ∷ reverse_onto s'.immutable []) active
        ∙ ap (λ t. s.active ∷ reverse_onto t []) immutable in
      (
        same,
        ap (λ t. search (λ m. get_entry m key) (λ g. g.seg_get key) t s'.segments) layers
            ∙ ap
                (search (λ m. get_entry m key) (λ g. g.seg_get key)
                  (s.active ∷ reverse_onto rest []))
                segments,
      )
