-- ===== src/Segment/Flush.antt =====
-- crates/toroidal-store/segment.rs: a table that is written to a segment, and read back.
use toroidal_db.Base.{
  ℕ, suc, ◌+◌, length-append, ◌*◌, ◌/◌, ◌%◌, ◌^◌, ◌≡◌, ◌<◌, max, refl, sym, ap, subst, ◌∙◌, true,
  false, Option, none, some, List, [], ◌∷◌, length, ok, ◌==◌, and_then, arith, Bool-cases, inl, inr,
}
use toroidal_db.Base.Bytes.{Bytes, u32_mod, u64_mod}
use toroidal_db.Base.Keys.{bytes_eq, Key-cases}
use toroidal_db.Snapshot.{VersionedEntry}
use toroidal_db.MemTable.{
  VersionChain, Entries, chain_of, first, find_visible, get_entry, upsert, chain_entries,
  all_entries, scan_all_versions, push_version, SortBy,
}
use toroidal_db.MemTable.Sort.{PutIn, Rearranged, Sorts}
use toroidal_db.MemTable.Reads.{table, table-reads}
use toroidal_db.Cache.Contract.{BlockCache}
use toroidal_db.Segment.Block.RoundTrip.{Fits, AllFit}
use toroidal_db.Segment.Bloom.{insert_keys, new_bloom}
use toroidal_db.Segment.Bloom.Members.{insert_keys-sizes, length-zeros}
use toroidal_db.Segment.Index.{Search}
use toroidal_db.Segment.Reader.{SegmentReadMode, SegmentReader, get, get_visible}
use toroidal_db.Segment.File.Blocks.{index_of}
use toroidal_db.Segment.File.{segment_header_size, write_segment}
use toroidal_db.Segment.Open.{open_with}
use toroidal_db.Segment.Open.Entries.{push_all, AllFit-append, append-AllFit}
use toroidal_db.Segment.Open.Regions.{BloomFits}
use toroidal_db.Segment.Open.Written.{reader_of, open_with-write_segment_impl}
use toroidal_db.Segment.Open.Versions.{
  versions, or_nil, NewestFirst, AllBelow, push_all-versions, scan_all_versions-table,
  first-versions, find_visible-versions,
}

-- Every write of the key in the history has a sequence below `seq`.
abbrev pub Older : Bytes → ℕ → Entries → Type 0
Older key seq [] = Unit
Older key seq ((k, ve) ∷ ws) = (bytes_eq k key ≡ true → ve.sequence < seq) × Older key seq ws

-- The history, its last write first: each write has a higher sequence than the writes of its key before it.
abbrev pub Descends : Entries → Type 0
Descends [] = Unit
Descends ((k, ve) ∷ ws) = Older k ve.sequence ws × Descends ws

versions-AllBelow :
    (k : Bytes) (seq : ℕ) (ws : Entries) → Older k seq ws → AllBelow seq (versions k ws)
unfolding versions
versions-AllBelow k seq [] h = tt
versions-AllBelow k seq ((l, ve) ∷ ws) (h, hs) =
    let rest = versions-AllBelow k seq ws hs in
    elim (Bool-cases (bytes_eq l k)) [ inl t ↦ rw t (h t, rest) | inr t ↦ rw t rest ]

versions-NewestFirst : (k : Bytes) (ws : Entries) → Descends ws → NewestFirst (versions k ws)
unfolding versions
versions-NewestFirst k [] h = tt
versions-NewestFirst k ((l, ve) ∷ ws) (h, hs) =
    let rest = versions-NewestFirst k ws hs in
    elim (Key-cases l k) [
      | inl (e, t) ↦
          let older = subst (λ x. Older x ve.sequence ws) e h in
          rw t (versions-AllBelow k ve.sequence ws older, rest)
      | inr (ne, t) ↦ rw t rest
    ]

-- The entries of a table are those of its history.
PutIn-AllFit :
    (k : Bytes) (ve : VersionedEntry) {es fs : Entries}
    → PutIn (k, ve) es fs
    → Fits k ve
    → AllFit fs
    → AllFit es × (length es ≡ suc (length fs))
PutIn-AllFit k ve PutIn.here f fs = ((f, fs), refl)
PutIn-AllFit k ve (PutIn.there {y = (l, w)} p) f (g, gs) =
    let (more, size) = PutIn-AllFit k ve p f gs in ((g, more), ap suc size)

Rearranged-AllFit :
    {es fs : Entries} → Rearranged es fs → AllFit es → AllFit fs × (length fs ≡ length es)
Rearranged-AllFit Rearranged.none_left f = (tt, refl)
Rearranged-AllFit (Rearranged.one_more {x = (k, ve)} p rest) (f, fs) =
    let (more, size) = Rearranged-AllFit rest fs in
    let (all, longer) = PutIn-AllFit k ve p f more in (all, longer ∙ ap suc size)

upsert-AllFit :
    (k : Bytes) (ve : VersionedEntry) (d : List (Bytes × VersionChain))
    → Fits k ve
    → AllFit (all_entries d)
    → AllFit (all_entries (upsert k ve d))
      × (length (all_entries (upsert k ve d)) ≡ suc (length (all_entries d)))
unfolding upsert all_entries chain_entries
upsert-AllFit k ve [] f fs = ((f, tt), refl)
upsert-AllFit k ve ((l, c) ∷ d) f fs = elim (Key-cases l k) [
  | inl (e, t) ↦ rw t ((subst (λ x. Fits x ve) (sym e) f, fs), refl)
  | inr (ne, t) ↦
      let (left, right) = AllFit-append (chain_entries l c) (all_entries d) fs in
      let (more, size) = upsert-AllFit k ve d f right in
      rw t (
        append-AllFit (chain_entries l c) (all_entries (upsert k ve d)) left more,
        omega (
          arith,
          size,
          length-append (chain_entries l c) (all_entries (upsert k ve d)),
          length-append (chain_entries l c) (all_entries d),
        ),
      )
]

pub table-AllFit :
    (ws : Entries)
    → AllFit ws
    → AllFit (all_entries (table ws).data_) × (length (all_entries (table ws).data_) ≡ length ws)
unfolding table push_version all_entries
table-AllFit [] f = (tt, refl)
table-AllFit ((k, ve) ∷ ws) (f, fs) =
    let (more, size) = table-AllFit ws fs in
    let (all, longer) = upsert-AllFit k ve (table ws).data_ f more in (all, longer ∙ ap suc size)

get_of_map : (k : Bytes) (o : Option VersionChain) → and_then o first ≡ first (or_nil o)
get_of_map k none = refl
get_of_map k (some chain) = refl

visible_of_map :
    (seq : ℕ) (o : Option VersionChain)
    → and_then o (find_visible seq) ≡ find_visible seq (or_nil o)
unfolding find_visible
visible_of_map seq none = refl
visible_of_map seq (some chain) = refl

module _ (crc32 : Bytes → ℕ) (crc_fits : (b : Bytes) → crc32 b < u32_mod)
    (sort_unstable_by : SortBy) (sorts : Sorts sort_unstable_by) (optimal_bits : ℕ → ℕ)
    (optimal_hashes : ℕ → ℕ → ℕ) (hashes_fit : (m n : ℕ) → optimal_hashes m n < u32_mod) where
  segment_bloom-BloomFits :
      (entries : Entries) (n : ℕ)
      → 0 < n
      → optimal_bits n < 2 ^ 34
      → BloomFits (insert_keys entries (new_bloom optimal_bits optimal_hashes n))
  unfolding new_bloom
  segment_bloom-BloomFits entries n h small =
      let m = max (optimal_bits n) 64 in
      let some_keys : (n == 0) ≡ false = grind arith in
      let zero_bits = length-zeros ((m + 7) / 8) in
      let hash_size = hashes_fit m n in
      let f = new_bloom optimal_bits optimal_hashes n in
      let k_lem : f.k ≡ max (optimal_hashes m n) 1 = rw (new_bloom, some_keys) refl in
      let m_lem : f.m ≡ (((m + 7) / 8) * 8) % u64_mod = rw (new_bloom, some_keys) refl in
      let bits_lem : length f.bits ≡ (m + 7) / 8 = rw (new_bloom, some_keys) zero_bits in
      let (ek, em, en) = insert_keys-sizes entries f in
      record {
        hashes = omega arith;
        hashes_fit = omega arith;
        bits_fit = omega arith;
        size = omega arith;
      }

  -- A table that a history of at least one and fewer than 2^32 writes has filled, each with a sequence above those
  -- of the writes of its key before it and all within the words of the format, with fewer than 2^34 bits asked for
  -- its Bloom filter, is written with a highest sequence of 64 bits to a segment of less than 2^64 bytes; opened
  -- in Predecoded mode, the segment gives for every key what the table gives, of the newest version and at every
  -- snapshot. Of the checksum and of the number of hashes it is assumed that they have 32 bits, of
  -- sort_unstable_by that it sorts.
  pub write_segment-reads :
      {C : Type 0} (cache : BlockCache C) (c : C) (binary_search_by : Search) (ws : Entries)
      (max_sequence id : ℕ) (raw : Bytes)
      → 0 < length ws
      → length ws < u32_mod
      → AllFit ws
      → Descends ws
      → max_sequence < u64_mod
      → optimal_bits (length ws) < 2 ^ 34
      → write_segment crc32 sort_unstable_by optimal_bits optimal_hashes (table ws) max_sequence
        ≡ ok raw
      → length raw < u64_mod
      → (r : SegmentReader) × (open_with crc32 raw id SegmentReadMode.predecoded ≡ ok r)
        × ((k : Bytes) → get r k ≡ get_entry (table ws) k)
        × ((k : Bytes) (seq : ℕ)
            → (get_visible crc32 cache binary_search_by r k seq c).0
              ≡ toroidal_db.MemTable.get_visible (table ws) k seq)
  unfolding write_segment scan_all_versions get get_visible
  write_segment-reads cache c binary_search_by ws max_sequence id raw some_writes few fit desc
        max_fits small wrote fits =
      let entries = scan_all_versions sort_unstable_by (table ws) in
      let (in_table, table_size) = table-AllFit ws fit in
      let (all, sorted_size) =
        Rearranged-AllFit (sorts (all_entries (table ws).data_)).0 in_table in
      let size : length entries ≡ length ws = sorted_size ∙ table_size in
      let bloom = insert_keys entries (new_bloom optimal_bits optimal_hashes (length entries)) in
      let bf =
        segment_bloom-BloomFits entries (length entries) (omega arith)
          (subst (λ n. optimal_bits n < 2 ^ 34) (sym size) small) in
      let (groups, flat, filled, blob, opened) =
        open_with-write_segment_impl crc32 crc_fits entries max_sequence bloom raw id
          SegmentReadMode.predecoded (omega arith) all (omega arith) max_fits bf wrote fits in
      let chain = λ (k : Bytes).
        push_all-versions k entries
        ∙ scan_all_versions-table sort_unstable_by sorts k ws (versions-NewestFirst k ws desc) in
      (
        reader_of raw id SegmentReadMode.predecoded entries max_sequence bloom
            (index_of crc32 segment_header_size groups),
        opened,
        λ k.
            get_of_map k (chain_of k (push_all entries []))
            ∙ ap first (chain k)
            ∙ first-versions k ws
            ∙ sym (table-reads ws k 0).1,
        λ k seq.
            visible_of_map seq (chain_of k (push_all entries []))
            ∙ ap (find_visible seq) (chain k)
            ∙ find_visible-versions k seq ws
            ∙ sym (table-reads ws k seq).0,
      )
