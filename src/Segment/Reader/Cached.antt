-- ===== src/Segment/Reader/Cached.antt =====
-- crates/toroidal-store/segment.rs: the reads of a segment through a block cache against those without one.
use toroidal_db.Base.{
  ℕ, zero, suc, ◌+◌, ◌-◌, ◌≡◌, refl, sym, ap, ◌∙◌, Option, none, some, [], length, get_elem?,
  Result, ok, err, arith, Bool-cases, Option-cases, Result-cases, inl, inr,
}
use toroidal_db.Base.Bytes.{Bytes}
use toroidal_db.Cache.{BlockId}
use toroidal_db.Cache.Contract.{BlockCache, Lawful, no_cache}
use toroidal_db.Segment.Block.{decode_block}
use toroidal_db.Segment.Bloom.{bloom_contains}
use toroidal_db.Segment.Index.{IndexEntry, Search, locate}
use toroidal_db.Segment.Reader.{
  SegmentReader, SegmentReadMode, block_id, verify_block, fetch_block, read_block_cached,
  scan_block, scan_blocks, get_cached, get_visible, scan_entries_cached, scan_entries,
}

abbrev pub if_ok {ℓ} : {A : Type ℓ} → Result A → Option A
if_ok (ok a) = some a
if_ok (err e) = none

if_ok-eq {ℓ} : {A : Type ℓ} (r : Result A) (a : A) → if_ok r ≡ some a → r ≡ ok a
if_ok-eq (ok b) a h = ground arith
if_ok-eq (err e) a h = absurd (ground arith)

-- The valid blocks of the segment's id are those that pass the checks of the reader.
abbrev pub Agrees : (Bytes → ℕ) → (BlockId → Option Bytes) → SegmentReader → Type 0
Agrees crc32 file r =
    (start len : ℕ)
    → file (record { segment_id = r.meta.id; offset = start; len = len })
      ≡ if_ok (verify_block crc32 r.raw start len)

module _ (crc32 : Bytes → ℕ) {C : Type 0} (cache : BlockCache C) (file : BlockId → Option Bytes)
    (Good : C → Type 0) (law : Lawful cache file Good) (r : SegmentReader)
    (agrees : Agrees crc32 file r) where
  fetch_block-no_cache :
      (e : IndexEntry) (c : C)
      → Good c
      → ((fetch_block crc32 cache r e c).0 ≡ (fetch_block crc32 no_cache r e tt).0)
        × Good (fetch_block crc32 cache r e c).1
  unfolding fetch_block
  fetch_block-no_cache e c g =
      let id = block_id r e in
      let valid = agrees e.block_offset e.block_size in
      let good = law.lookup_good id c g in
      elim (Option-cases (cache.lookup id c).0) [
        | inr (b, hit) ↦
            let verified : verify_block crc32 r.raw e.block_offset e.block_size ≡ ok b =
              if_ok-eq _ b (sym valid ∙ law.lookup_sound id b c g hit) in
            rw (fetch_block, hit, verified) (refl, good)
        | inl miss ↦ elim (Result-cases (verify_block crc32 r.raw e.block_offset e.block_size)) [
          | inl (b, verified) ↦
              rw (fetch_block, miss, verified)
                (refl, law.store_good id b (cache.lookup id c).1 (valid ∙ ap if_ok verified) good)
          | inr (failure, refused) ↦ rw (fetch_block, miss, refused) (refl, good)
        ]
      ]

  read_block_cached-no_cache :
      (i : ℕ) (c : C)
      → Good c
      → ((read_block_cached crc32 cache r i c).0 ≡ (read_block_cached crc32 no_cache r i tt).0)
        × Good (read_block_cached crc32 cache r i c).1
  unfolding read_block_cached
  read_block_cached-no_cache i c g = elim (Option-cases (get_elem? r.index i)) [
    | inl e ↦ rw (read_block_cached, e) (refl, g)
    | inr (entry, e) ↦ rw (read_block_cached, e) (fetch_block-no_cache entry c g)
  ]

  scan_blocks-no_cache :
      (start : Bytes) (end : Option Bytes) (n bi : ℕ) (c : C)
      → Good c
      → ((scan_blocks crc32 cache r start end n bi c).0
          ≡ (scan_blocks crc32 no_cache r start end n bi tt).0)
        × Good (scan_blocks crc32 cache r start end n bi c).1
  unfolding scan_blocks
  scan_blocks-no_cache start end zero bi c g = (refl, g)
  scan_blocks-no_cache start end (suc n) bi c g =
      let (same, good) = read_block_cached-no_cache bi c g in
      elim (Result-cases (read_block_cached crc32 cache r bi c).0) [
        | inr (failure, refused) ↦
            let other = sym same ∙ refused in rw (scan_blocks, refused, other) (refl, good)
        | inl (b, found) ↦
            let other = sym same ∙ found in
            elim (Bool-cases (scan_block start end (decode_block b r.legacy_blocks)).1) [
              | inl stopped ↦ rw (scan_blocks, found, other, stopped) (refl, good)
              | inr on ↦
                  let c1 = (read_block_cached crc32 cache r bi c).1 in
                  let (rest, kept) = scan_blocks-no_cache start end n (bi + 1) c1 good in
                  rw (scan_blocks, found, other, on, rest) (refl, kept)
            ]
      ]

  module _ (binary_search_by : Search) where
    get_cached-no_cache :
        (key : Bytes) (c : C)
        → Good c
        → ((get_cached crc32 cache binary_search_by r key c).0
            ≡ (get_cached crc32 no_cache binary_search_by r key tt).0)
          × Good (get_cached crc32 cache binary_search_by r key c).1
    unfolding get_cached
    get_cached-no_cache key c g = elim (Bool-cases (bloom_contains key r.bloom)) [
      | inr absent ↦ rw (get_cached, absent) (refl, g)
      | inl present ↦ elim (Option-cases (locate binary_search_by r.index key)) [
        | inl e ↦ rw (get_cached, present, e) (refl, g)
        | inr (i, e) ↦
            let (same, good) = read_block_cached-no_cache i c g in
            rw (get_cached, present, e, same) (refl, good)
      ]
    ]

    -- A read at a snapshot through a cache that holds valid blocks only finds what it finds without a cache, and leaves
    -- such a cache.
    pub get_visible-no_cache :
        (key : Bytes) (seq : ℕ) (c : C)
        → Good c
        → ((get_visible crc32 cache binary_search_by r key seq c).0
            ≡ (get_visible crc32 no_cache binary_search_by r key seq tt).0)
          × Good (get_visible crc32 cache binary_search_by r key seq c).1
    unfolding get_visible
    get_visible-no_cache key seq c g = go r.read_mode refl
      where
        go :
            (mode : SegmentReadMode)
            → r.read_mode ≡ mode
            → ((get_visible crc32 cache binary_search_by r key seq c).0
                ≡ (get_visible crc32 no_cache binary_search_by r key seq tt).0)
              × Good (get_visible crc32 cache binary_search_by r key seq c).1
        go SegmentReadMode.predecoded e = rw (get_visible, e) (refl, g)
        go SegmentReadMode.block_cached e =
            let (same, good) = get_cached-no_cache key c g in rw (get_visible, e, same) (refl, good)

    -- The same of a scan of a range of keys.
    pub scan_entries-no_cache :
        (start end : Option Bytes) (c : C)
        → Good c
        → ((scan_entries crc32 cache binary_search_by r start end c).0
            ≡ (scan_entries crc32 no_cache binary_search_by r start end tt).0)
          × Good (scan_entries crc32 cache binary_search_by r start end c).1
    unfolding scan_entries scan_entries_cached
    scan_entries-no_cache start end c g = go r.read_mode refl
      where
        first_key : Bytes
        first_key = elim start [ none ↦ [] | some s ↦ s ]

        from : ℕ
        from = elim (locate binary_search_by r.index first_key) [ none ↦ 0 | some i ↦ i ]

        go :
            (mode : SegmentReadMode)
            → r.read_mode ≡ mode
            → ((scan_entries crc32 cache binary_search_by r start end c).0
                ≡ (scan_entries crc32 no_cache binary_search_by r start end tt).0)
              × Good (scan_entries crc32 cache binary_search_by r start end c).1
        go SegmentReadMode.predecoded e = rw (scan_entries, e) (refl, g)
        go SegmentReadMode.block_cached e =
            let (same, good) =
              scan_blocks-no_cache first_key end (length r.index - from) from c g in
            rw (scan_entries, e, same) (refl, good)
