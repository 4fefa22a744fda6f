-- ===== src/Store/Flush/Reads.antt =====
-- crates/toroidal-store/store.rs: what a flush does to the reads of the store.
use toroidal_db.Base.{
  ℕ, ◌+◌, ◌%◌, ◌≡◌, ◌≤◌, ◌<◌, min, refl, sym, ap, subst, ◌∙◌, Bool, le→ltb, false, Option, none,
  some, List, [], ◌∷◌, ◌++◌, length, ltb, Result, ok, ◌^◌, arith, inl, inr, Result-cases,
  Option-cases, Bool-cases,
}
use toroidal_db.Base.Bytes.{Bytes, u32_mod, u64_mod}
use toroidal_db.Snapshot.{VersionedEntry, Snapshot, floor}
use toroidal_db.MemTable.{
  SortBy, MemTable, Entries, VersionChain, max_loop, max_sequence, len, all_entries, chain_entries,
}
use toroidal_db.MemTable.Sort.{Sorts}
use toroidal_db.MemTable.Reads.{table}
use toroidal_db.Manifest.{Manifest, ManifestEntry, add_segment, append_nosync, encode_entry, raise}
use toroidal_db.Segment.Block.RoundTrip.{AllFit}
use toroidal_db.Segment.Open.Entries.{AllFit-append}
use toroidal_db.Segment.Index.{Search}
use toroidal_db.Segment.Reader.{SegmentReadMode, SegmentReader}
use toroidal_db.Segment.File.{write_segment}
use toroidal_db.Segment.Open.{open_with}
use toroidal_db.Segment.Flush.{Descends, table-AllFit, write_segment-reads}
use toroidal_db.Store.{
  OpenSegment, FailurePoint, ToroidalStore, get, get_at, retention_floor, search, search_segments,
  tables, reverse_onto,
}
use toroidal_db.Store.Flush.{unwrap_or_zero, open_segment, publish_segment, flush_table, flush}
use toroidal_db.Cache.Contract.{no_cache}

le-raise : (q m : ℕ) → m ≤ raise q m
unfolding raise
le-raise q m = ground arith

-- The sequences of a table's newest versions fit 64 bits.
max_loop-fits :
    (best : Option ℕ) (d : List (Bytes × VersionChain))
    → unwrap_or_zero best < u64_mod
    → AllFit (all_entries d)
    → unwrap_or_zero (max_loop best d) < u64_mod
unfolding max_loop all_entries chain_entries
max_loop-fits best [] h f = h
max_loop-fits best ((k, []) ∷ d) h f = max_loop-fits best d h f
max_loop-fits none ((k, ve ∷ chain) ∷ d) h (f, fs) =
    max_loop-fits (some ve.sequence) d f.sequence_fits
      (AllFit-append (chain_entries k chain) (all_entries d) fs).1
max_loop-fits (some b) ((k, ve ∷ chain) ∷ d) h (f, fs) =
    let right = (AllFit-append (chain_entries k chain) (all_entries d) fs).1 in
    elim (Bool-cases (ltb b ve.sequence)) [
      | inl t ↦ rw (max_loop, t) (max_loop-fits (some ve.sequence) d f.sequence_fits right)
      | inr t ↦ rw (max_loop, t) (max_loop-fits (some b) d h right)
    ]

reverse_onto-append :
    (xs ys zs : List MemTable) → reverse_onto xs (ys ++ zs) ≡ reverse_onto xs ys ++ zs
unfolding reverse_onto
reverse_onto-append [] ys zs = refl
reverse_onto-append (x ∷ xs) ys zs = reverse_onto-append xs (x ∷ ys) zs

-- The last table of a search, or a segment in front of the others that reads the same.
search_last :
    (look : MemTable → Option VersionedEntry) (read : OpenSegment → Option VersionedEntry)
    (ms : List MemTable) (m : MemTable) (g : OpenSegment) (segs : List OpenSegment)
    → read g ≡ look m
    → search look read (ms ++ (m ∷ [])) segs ≡ search look read ms (g ∷ segs)
unfolding search search_segments
search_last look read [] m g segs h = elim (Option-cases (look m)) [
  | inl e ↦ rw (e, search, search_segments, h ∙ e) refl
  | inr (ve, e) ↦ rw (e, search, search_segments, h ∙ e) refl
]
search_last look read (n ∷ ms) m g segs h =
    let rest = search_last look read ms m g segs h in
    elim (Option-cases (look n)) [ inl e ↦ rw (search, e) rest | inr (ve, e) ↦ rw (search, e) refl ]

module _ (crc32 : Bytes → ℕ) (is_utf8 : Bytes → Bool) (sort_unstable_by : SortBy)
    (optimal_bits : ℕ → ℕ) (optimal_hashes : ℕ → ℕ → ℕ) (binary_search_by : Search)
    (seg_path : ℕ → Bytes) (check : FailurePoint → Result (Unit {0})) where
  -- What a successful flush has done.
  record Flushed (s s' : ToroidalStore) (frozen : MemTable) (rest : List MemTable) : Type 0 where
    raw : Bytes
    reader : SegmentReader
    written :
        write_segment crc32 sort_unstable_by optimal_bits optimal_hashes frozen
          (unwrap_or_zero (max_sequence frozen))
        ≡ ok raw
    opened : open_with crc32 raw s.next_seg_id SegmentReadMode.predecoded ≡ ok reader
    segments_lem :
        s'.segments
        ≡ open_segment crc32 binary_search_by (seg_path s.next_seg_id) reader ∷ s.segments
    immutable_lem : s'.immutable ≡ rest
    active_lem : s'.active ≡ s.active
    snapshots_lem : s'.snapshots ≡ s.snapshots
    flushed_lem : s.manifest.max_flushed_sequence ≤ s'.manifest.max_flushed_sequence

  publish_segment-ok :
      (s : ToroidalStore) (id n q : ℕ) (raw : Bytes) {k : ℕ}
      → (publish_segment crc32 is_utf8 sort_unstable_by optimal_bits optimal_hashes binary_search_by
          seg_path check s id n q raw).0
        ≡ ok (some k)
      → (m : Manifest) × (r : SegmentReader) × (add_segment crc32 is_utf8 s.manifest (seg_path id) q
          ≡ ok m)
        × (open_with crc32 raw id SegmentReadMode.predecoded ≡ ok r)
        × ((publish_segment crc32 is_utf8 sort_unstable_by optimal_bits optimal_hashes
              binary_search_by seg_path check s id n q raw).1
            ≡ record s {
              manifest = m;
              segments = open_segment crc32 binary_search_by (seg_path id) r ∷ s.segments;
            })
  unfolding publish_segment
  publish_segment-ok s id n q raw {k} h =
      elim (Result-cases (add_segment crc32 is_utf8 s.manifest (seg_path id) q)) [
        | inr (e, p) ↦ absurd (let no = rw (publish_segment, p) at h in cc)
        | inl (m, p) ↦ elim (Result-cases (check FailurePoint.after_manifest_write)) [
          | inr (e, a) ↦ absurd (let no = rw (publish_segment, p, a) at h in cc)
          | inl (u, a) ↦ elim (Result-cases (check FailurePoint.after_manifest_sync)) [
            | inr (e, b) ↦ absurd (let no = rw (publish_segment, p, a, b) at h in cc)
            | inl (v, b) ↦ elim (Result-cases (open_with crc32 raw id SegmentReadMode.predecoded)) [
              | inr (e, c) ↦ absurd (let no = rw (publish_segment, p, a, b, c) at h in cc)
              | inl (r, c) ↦ (m, r, p, c, rw (publish_segment, p, a, b, c) refl)
            ]
          ]
        ]
      ]

  add_segment-raises :
      (m : Manifest) (path : Bytes) (q : ℕ) {m' : Manifest}
      → add_segment crc32 is_utf8 m path q ≡ ok m'
      → m.max_flushed_sequence ≤ m'.max_flushed_sequence
  unfolding add_segment append_nosync raise
  add_segment-raises m path q {m'} h =
      elim (Result-cases (encode_entry crc32 is_utf8 (ManifestEntry.add path q))) [
        | inr (e, p) ↦ absurd (let no = rw (add_segment, append_nosync, p) at h in cc)
        | inl (buf, p) ↦
            let yes = rw (add_segment, append_nosync, p) at h in
            let same : raise q m.max_flushed_sequence ≡ m'.max_flushed_sequence = ground arith in
            omega (arith, same, le-raise q m.max_flushed_sequence)
      ]

  flush_table-Flushed :
      (s : ToroidalStore) (frozen : MemTable) (rest : List MemTable) {k : ℕ}
      → s.immutable ≡ frozen ∷ rest
      → (flush crc32 is_utf8 sort_unstable_by optimal_bits optimal_hashes binary_search_by seg_path
          check s).0
        ≡ ok (some k)
      → Flushed s
          (flush crc32 is_utf8 sort_unstable_by optimal_bits optimal_hashes binary_search_by
            seg_path check s).1
          frozen
          rest
  unfolding flush flush_table
  flush_table-Flushed s frozen rest {k} oldest h =
      let q = unwrap_or_zero (max_sequence frozen) in
      elim (Result-cases
        (write_segment crc32 sort_unstable_by optimal_bits optimal_hashes frozen q)) [
          | inr (e, p) ↦ absurd (let no = rw (flush, oldest, flush_table, p) at h in cc)
          | inl (raw, p) ↦ elim (Result-cases (check FailurePoint.after_segment_write)) [
            | inr (e, a) ↦ absurd (let no = rw (flush, oldest, flush_table, p, a) at h in cc)
            | inl (u, a) ↦
                let yes = rw (flush, oldest, flush_table, p, a) at h in
                let s1 : ToroidalStore = record s {
                  immutable = rest;
                  next_seg_id = (s.next_seg_id + 1) % u64_mod;
                } in
                let (m, r, added, opened, after) =
                  publish_segment-ok s1 s.next_seg_id (len frozen) q raw yes in
                rw (flush, oldest, flush_table, p, a, after)
                  (record {
                    raw = raw;
                    reader = r;
                    written = p;
                    opened = opened;
                    segments_lem = refl;
                    immutable_lem = refl;
                    active_lem = refl;
                    snapshots_lem = refl;
                    flushed_lem = add_segment-raises s.manifest (seg_path s.next_seg_id) q added;
                  })
          ]
        ]

  Flushed-search :
      (look : MemTable → Option VersionedEntry) (read : OpenSegment → Option VersionedEntry)
      (s s' : ToroidalStore) (frozen : MemTable) (rest : List MemTable)
      → (f : Flushed s s' frozen rest) → s.immutable ≡ frozen ∷ rest
      → read (open_segment crc32 binary_search_by (seg_path s.next_seg_id) f.reader) ≡ look frozen
      → search look read (tables s') s'.segments ≡ search look read (tables s) s.segments
  unfolding tables reverse_onto
  Flushed-search look read s s' frozen rest f oldest h =
      let g = open_segment crc32 binary_search_by (seg_path s.next_seg_id) f.reader in
      let before = s.active ∷ reverse_onto rest [] in
      let old : tables s ≡ before ++ (frozen ∷ []) =
        ap (λ t. s.active ∷ reverse_onto t []) oldest
        ∙ ap (◌∷◌ s.active) (reverse_onto-append rest [] (frozen ∷ [])) in
      let new_tables : tables s' ≡ before =
        ap (λ a. a ∷ reverse_onto s'.immutable []) f.active_lem
        ∙ ap (λ t. s.active ∷ reverse_onto t []) f.immutable_lem in
      ap (λ t. search look read t s'.segments) new_tables
      ∙ ap (search look read before) f.segments_lem
      ∙ sym (search_last look read before frozen g s.segments h)
      ∙ ap (λ t. search look read t s.segments) (sym old)

  -- A successful flush leaves what both kinds of read give.
  flush-layers :
      (crc_fits : (b : Bytes) → crc32 b < u32_mod) (sorts : Sorts sort_unstable_by)
      (hashes_fit : (m n : ℕ) → optimal_hashes m n < u32_mod) (s : ToroidalStore) (ws : Entries)
      (rest : List MemTable) {k : ℕ}
      → s.immutable ≡ table ws ∷ rest
      → 0 < length ws
      → length ws < u32_mod
      → AllFit ws
      → Descends ws
      → optimal_bits (length ws) < 2 ^ 34
      → ((raw : Bytes)
          → write_segment crc32 sort_unstable_by optimal_bits optimal_hashes
              (table ws)
              (unwrap_or_zero (max_sequence (table ws)))
            ≡ ok raw
          → length raw < u64_mod)
      → let s' =
          (flush crc32 is_utf8 sort_unstable_by optimal_bits optimal_hashes binary_search_by
            seg_path check s).1 in
        (flush crc32 is_utf8 sort_unstable_by optimal_bits optimal_hashes binary_search_by seg_path
            check s).0
          ≡ ok (some k)
        → ((key : Bytes) → get s' key ≡ get s key)
          × ((snap : Snapshot) (key : Bytes)
              → ltb snap.sequence (retention_floor s') ≡ false
              → get_at s' snap key ≡ get_at s snap key)
  unfolding get get_at tables reverse_onto retention_floor max_sequence
  flush-layers crc_fits sorts hashes_fit s ws rest {k} oldest some_writes few fit desc small short
        done =
      let s' =
        (flush crc32 is_utf8 sort_unstable_by optimal_bits optimal_hashes binary_search_by seg_path
          check s).1 in
      let f = flush_table-Flushed s (table ws) rest oldest done in
      let in_table = (table-AllFit ws fit).0 in
      let max_fits = max_loop-fits none (table ws).data_ (omega arith) in_table in
      let (r, opened, newest_same, visible_same) =
        write_segment-reads crc32 crc_fits sort_unstable_by sorts optimal_bits optimal_hashes
          hashes_fit no_cache tt binary_search_by ws (unwrap_or_zero (max_sequence (table ws)))
          s.next_seg_id f.raw some_writes few fit desc max_fits small f.written
          (short f.raw f.written) in
      let both : ok f.reader ≡ ok r = sym f.opened ∙ opened in
      let same : f.reader ≡ r = cc in
      (
        λ key.
            Flushed-search _ _ s s' (table ws) rest f oldest
              (ap (λ t. toroidal_db.Segment.Reader.get t key) same ∙ newest_same key),
        λ snap key live.
            let seq = snap.sequence in
            let lower : retention_floor s ≤ retention_floor s' =
              subst (λ t. retention_floor s ≤ min s'.manifest.max_flushed_sequence (floor t))
                (sym f.snapshots_lem) (omega (arith, f.flushed_lem)) in
            let bound : retention_floor s' ≤ seq = grind arith in
            let was_live : ltb seq (retention_floor s) ≡ false = le→ltb _ _ (omega arith) in
            rw (get_at, live, was_live)
              (ap ok (
                Flushed-search _ _ s s' (table ws) rest f oldest (
                  ap
                    (λ t.
                      (toroidal_db.Segment.Reader.get_visible crc32 no_cache binary_search_by t key
                        seq tt).0)
                    same
                  ∙ visible_same key seq))),
      )

  module _ (crc_fits : (b : Bytes) → crc32 b < u32_mod) (sorts : Sorts sort_unstable_by)
      (hashes_fit : (m n : ℕ) → optimal_hashes m n < u32_mod) (s : ToroidalStore) (ws : Entries)
      (rest : List MemTable) (oldest : s.immutable ≡ table ws ∷ rest) (some_writes : 0 < length ws)
      (few : length ws < u32_mod) (fit : AllFit ws) (desc : Descends ws)
      (small : optimal_bits (length ws) < 2 ^ 34)
      (short : (raw : Bytes)
        → write_segment crc32 sort_unstable_by optimal_bits optimal_hashes
            (table ws)
            (unwrap_or_zero (max_sequence (table ws)))
          ≡ ok raw
        → length raw < u64_mod) where
    -- A successful flush of the oldest frozen table, which a history of at least one and fewer than 2^32 writes
    -- has filled, each with a sequence above those of the writes of its key before it and all within the words of
    -- the format, with fewer than 2^34 bits asked for its Bloom filter, into a segment of less than 2^64 bytes,
    -- changes no read: every key gives what it gave. Of the checksum and of the number of hashes it is assumed
    -- that they have 32 bits, of sort_unstable_by that it sorts.
    pub flush-get :
        (key : Bytes) {k : ℕ}
        → (flush crc32 is_utf8 sort_unstable_by optimal_bits optimal_hashes binary_search_by
            seg_path check s).0
          ≡ ok (some k)
        → get
            (flush crc32 is_utf8 sort_unstable_by optimal_bits optimal_hashes binary_search_by
              seg_path check s).1
            key
          ≡ get s key
    flush-get key done =
        (flush-layers crc_fits sorts hashes_fit s ws rest oldest some_writes few fit desc small
            short done).0
          key

    -- A successful flush of the oldest frozen table, which a history of at least one and fewer than 2^32 writes
    -- has filled, each with a sequence above those of the writes of its key before it and all within the words of
    -- the format, with fewer than 2^34 bits asked for its Bloom filter, into a segment of less than 2^64 bytes,
    -- leaves what a read at a snapshot gives that is not below the retention floor behind the flush. Of the
    -- checksum and of the number of hashes it is assumed that they have 32 bits, of sort_unstable_by that it
    -- sorts.
    pub flush-get_at :
        (snap : Snapshot) (key : Bytes) {k : ℕ}
        → (flush crc32 is_utf8 sort_unstable_by optimal_bits optimal_hashes binary_search_by
            seg_path check s).0
          ≡ ok (some k)
        → ltb snap.sequence (
            retention_floor
              (flush crc32 is_utf8 sort_unstable_by optimal_bits optimal_hashes binary_search_by
                seg_path check s).1)
          ≡ false
        → get_at
            (flush crc32 is_utf8 sort_unstable_by optimal_bits optimal_hashes binary_search_by
              seg_path check s).1
            snap
            key
          ≡ get_at s snap key
    flush-get_at snap key done live =
        (flush-layers crc_fits sorts hashes_fit s ws rest oldest some_writes few fit desc small
            short done).1
          snap key live
