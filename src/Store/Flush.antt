-- ===== src/Store/Flush.antt =====
-- crates/toroidal-store/store.rs: `flush` writes the oldest frozen table to a segment. The name of the file, which the
-- code formats from the number of the segment, is the parameter `seg_path`; the file that is opened is the one that
-- was written. A frozen table is taken from the state before its segment is written; the code then releases the lock of the
-- state until the reader is put in, and here no other operation runs in between.
pub mod Reads
pub mod Failure
mod Tests
use toroidal_db.Base.{ℕ, ◌+◌, ◌%◌, Bool, Option, none, some, List, [], ◌∷◌, Result, ok, err}
use toroidal_db.Base.Bytes.{Bytes, u64_mod}
use toroidal_db.MemTable.{SortBy, MemTable, max_sequence, len}
use toroidal_db.Manifest.{add_segment}
use toroidal_db.Cache.Contract.{no_cache}
use toroidal_db.Segment.Index.{Search}
use toroidal_db.Segment.Reader.{SegmentReadMode, SegmentReader, get, get_visible, scan_entries}
use toroidal_db.Segment.File.{write_segment}
use toroidal_db.Segment.Open.{open_with}
use toroidal_db.Store.{OpenSegment, FailurePoint, ToroidalStore}

abbrev pub unwrap_or_zero : Option ℕ → ℕ
unwrap_or_zero none = 0
unwrap_or_zero (some n) = n

module _ (crc32 : Bytes → ℕ) (binary_search_by : Search) where
  -- A reader as the store uses it, in Predecoded mode and without a cache.
  abbrev pub open_segment : Bytes → SegmentReader → OpenSegment
  open_segment path r = record {
    path = path;
    seg_max_sequence = r.meta.max_sequence;
    seg_get = get r;
    seg_get_visible = λ key seq. (get_visible crc32 no_cache binary_search_by r key seq tt).0;
    seg_scan_entries = λ start end. (scan_entries crc32 no_cache binary_search_by r start end tt).0;
  }

module _ (crc32 : Bytes → ℕ) (is_utf8 : Bytes → Bool) (sort_unstable_by : SortBy)
    (optimal_bits : ℕ → ℕ) (optimal_hashes : ℕ → ℕ → ℕ) (binary_search_by : Search)
    (seg_path : ℕ → Bytes) (check : FailurePoint → Result (Unit {0})) where
  -- What stands behind the file: the record of the manifest, and the reader.
  unfoldable pub publish_segment :
      ToroidalStore → ℕ → ℕ → ℕ → Bytes → Result (Option ℕ) × ToroidalStore
  publish_segment s seg_id n_entries max_seq raw =
      elim (add_segment crc32 is_utf8 s.manifest (seg_path seg_id) max_seq) [
        | err e ↦ (err e, s)
        | ok manifest ↦
            let s1 = record s { manifest = manifest } in
            elim (check FailurePoint.after_manifest_write) [
              | err e ↦ (err e, s1)
              | ok _ ↦ elim (check FailurePoint.after_manifest_sync) [
                | err e ↦ (err e, s1)
                | ok _ ↦ elim (open_with crc32 raw seg_id SegmentReadMode.predecoded) [
                  | err e ↦ (err e, s1)
                  | ok r ↦ (
                    ok (some n_entries),
                    record s1 {
                      segments =
                          open_segment crc32 binary_search_by (seg_path seg_id) r ∷ s1.segments;
                    },
                  )
                ]
              ]
            ]
      ]

  -- The frozen table is not in the state any more.
  unfoldable pub flush_table : ToroidalStore → MemTable → Result (Option ℕ) × ToroidalStore
  flush_table s frozen =
      let max_seq = unwrap_or_zero (max_sequence frozen) in
      let s1 = record s { next_seg_id = (s.next_seg_id + 1) % u64_mod } in
      elim (write_segment crc32 sort_unstable_by optimal_bits optimal_hashes frozen max_seq) [
        | err e ↦ (err e, s1)
        | ok raw ↦ elim (check FailurePoint.after_segment_write) [
          | err e ↦ (err e, s1)
          | ok _ ↦ publish_segment s1 s.next_seg_id (len frozen) max_seq raw
        ]
      ]

  unfoldable pub flush : ToroidalStore → Result (Option ℕ) × ToroidalStore
  flush s = elim s.immutable [
    | [] ↦ (ok none, s)
    | frozen ∷ rest ↦ flush_table (record s { immutable = rest }) frozen
  ]
