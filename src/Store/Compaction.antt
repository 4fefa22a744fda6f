-- ===== src/Store/Compaction.antt =====
-- crates/toroidal-store/store.rs: what `compact_internal` keeps of the versions of a key.
use toroidal_db.Base.{
  ℕ, suc, ◌+◌, ◌≡◌, ◌≤◌, ◌<◌, refl, Bool, true, false, Option, none, some, List, [], ◌∷◌, ◌++◌, leb,
  ltb, ◌==◌, take, if◌then◌else◌, arith, Bool-cases, inl, inr,
}
use toroidal_db.Base.{Result, ok, ◌>>=◌}
use toroidal_db.Base.Bytes.{Bytes}
use toroidal_db.Base.Keys.{bytes_eq, bytes_lt}
use toroidal_db.Snapshot.{EntryValue, VersionedEntry}
use toroidal_db.MemTable.{MemTable, VersionChain, Entries, new, insert_with_seq, delete_with_seq}
use toroidal_db.Store.{OpenSegment}

-- `chain.iter().any(|existing| existing.sequence == ve.sequence)`
unfoldable pub has_sequence : ℕ → VersionChain → Bool
has_sequence seq [] = false
has_sequence seq (ve ∷ chain) =
    let rest = has_sequence seq chain in if ve.sequence == seq then true else rest

-- The chain with one more version behind it, unless it has the sequence.
unfoldable pub push_new : VersionChain → VersionedEntry → VersionChain
push_new chain ve = if has_sequence ve.sequence chain then chain else chain ++ (ve ∷ [])

-- `sort_by(|a, b| b.sequence.cmp(&a.sequence))`, which is stable.
unfoldable pub insert_newest : VersionedEntry → VersionChain → VersionChain
insert_newest ve [] = ve ∷ []
insert_newest ve (w ∷ chain) =
    let rest = insert_newest ve chain in
    if ltb ve.sequence w.sequence then w ∷ rest else ve ∷ (w ∷ chain)

unfoldable pub sort_newest : VersionChain → VersionChain
sort_newest [] = []
sort_newest (ve ∷ chain) = insert_newest ve (sort_newest chain)

-- `position(|ve| ve.sequence >= floor)`
unfoldable pub position_from : ℕ → VersionChain → Option ℕ
position_from floor [] = none
position_from floor (ve ∷ chain) =
    if leb floor ve.sequence
    then some 0
    else elim (position_from floor chain) [ none ↦ none | some i ↦ some (suc i) ]

-- What is kept of the chain of a key.
unfoldable pub compact_chain : ℕ → VersionChain → VersionChain
compact_chain floor chain =
    let sorted = sort_newest chain in
    elim (position_from floor sorted) [ some i ↦ take (i + 1) sorted | none ↦ take 1 sorted ]

-- `merged.entry(key).or_default()`: the map is sorted by key.
unfoldable pub merge_entry :
    Bytes → VersionedEntry → List (Bytes × VersionChain) → List (Bytes × VersionChain)
merge_entry key ve [] = (key, ve ∷ []) ∷ []
merge_entry key ve ((k, chain) ∷ rest) =
    let more = merge_entry key ve rest in
    if bytes_eq k key
    then (k, push_new chain ve) ∷ rest
    else if bytes_lt k key
    then (k, chain) ∷ more
    else (key, ve ∷ []) ∷ (k, chain) ∷ rest

unfoldable pub merge_entries : Entries → List (Bytes × VersionChain) → List (Bytes × VersionChain)
merge_entries [] merged = merged
merge_entries ((key, ve) ∷ es) merged = merge_entries es (merge_entry key ve merged)

unfoldable pub merge_readers :
    List OpenSegment → List (Bytes × VersionChain) → List (Bytes × VersionChain)
merge_readers [] merged = merged
merge_readers (seg ∷ segs) merged =
    merge_readers segs (merge_entries (seg.seg_scan_entries none none) merged)

-- The loop over the chains; a chain that became empty is removed.
unfoldable pub compact_chains : ℕ → List (Bytes × VersionChain) → List (Bytes × VersionChain)
compact_chains floor [] = []
compact_chains floor ((key, chain) ∷ rest) =
    let more = compact_chains floor rest in
    elim (compact_chain floor chain) [ [] ↦ more | ve ∷ kept ↦ (key, ve ∷ kept) ∷ more ]

unfoldable pub insert_chain : MemTable → Bytes → VersionChain → Result MemTable
insert_chain mem key [] = ok mem
insert_chain mem key (ve ∷ chain) = do
  mem1 ← elim ve.value [
    | EntryValue.value v ↦ insert_with_seq mem key v ve.sequence
    | EntryValue.tombstone ↦ delete_with_seq mem key ve.sequence
  ]
  insert_chain mem1 key chain

unfoldable pub insert_chains : MemTable → List (Bytes × VersionChain) → Result MemTable
insert_chains mem [] = ok mem
insert_chains mem ((key, chain) ∷ rest) = do
  mem1 ← insert_chain mem key chain
  insert_chains mem1 rest

-- The table that the compacted segment is written from.
unfoldable pub merged_table : ℕ → List OpenSegment → Result MemTable
merged_table floor segs = insert_chains new (compact_chains floor (merge_readers segs []))

abbrev AtMost : ℕ → VersionChain → Type 0
AtMost n [] = Unit
AtMost n (ve ∷ chain) = (ve.sequence ≤ n) × AtMost n chain

-- The sequences do not ascend.
abbrev pub NewestFirst : VersionChain → Type 0
NewestFirst [] = Unit
NewestFirst (ve ∷ chain) = AtMost ve.sequence chain × NewestFirst chain

AtMost-trans : (m n : ℕ) (chain : VersionChain) → m ≤ n → AtMost m chain → AtMost n chain
AtMost-trans m n [] h a = tt
AtMost-trans m n (ve ∷ chain) h (e, a) = (omega arith, AtMost-trans m n chain h a)

insert_newest-AtMost :
    (n : ℕ) (ve : VersionedEntry) (chain : VersionChain)
    → ve.sequence ≤ n
    → AtMost n chain
    → AtMost n (insert_newest ve chain)
unfolding insert_newest
insert_newest-AtMost n ve [] h a = (h, tt)
insert_newest-AtMost n ve (w ∷ chain) h (e, a) = elim (Bool-cases (ltb ve.sequence w.sequence)) [
  | inl q ↦ rw q (e, insert_newest-AtMost n ve chain h a)
  | inr q ↦ rw q (h, (e, a))
]

insert_newest-NewestFirst :
    (ve : VersionedEntry) (chain : VersionChain)
    → NewestFirst chain
    → NewestFirst (insert_newest ve chain)
unfolding insert_newest
insert_newest-NewestFirst ve [] s = (tt, tt)
insert_newest-NewestFirst ve (w ∷ chain) (a, s) = elim (Bool-cases (ltb ve.sequence w.sequence)) [
  | inl q ↦
      let low : ve.sequence ≤ w.sequence = grind arith in
      rw q (insert_newest-AtMost w.sequence ve chain low a, insert_newest-NewestFirst ve chain s)
  | inr q ↦
      let high : w.sequence ≤ ve.sequence = grind arith in
      rw q ((high, AtMost-trans w.sequence ve.sequence chain high a), (a, s))
]

sort_newest-NewestFirst : (chain : VersionChain) → NewestFirst (sort_newest chain)
unfolding sort_newest
sort_newest-NewestFirst [] = tt
sort_newest-NewestFirst (ve ∷ chain) =
    insert_newest-NewestFirst ve (sort_newest chain) (sort_newest-NewestFirst chain)

position_below :
    (floor n : ℕ) (chain : VersionChain)
    → n < floor
    → AtMost n chain
    → position_from floor chain ≡ none
unfolding position_from
position_below floor n [] h a = refl
position_below floor n (ve ∷ chain) h (e, a) =
    let rest = position_below floor n chain h a in ground arith

kept_one :
    (floor : ℕ) (chain : VersionChain)
    → NewestFirst chain
    → elim (position_from floor chain) [ some i ↦ take (i + 1) chain | none ↦ take 1 chain ]
      ≡ take 1 chain
unfolding position_from
kept_one floor [] s = refl
kept_one floor (ve ∷ chain) (a, s) = elim (Bool-cases (leb floor ve.sequence)) [
  | inl q ↦ rw q refl
  | inr q ↦
      let low : ve.sequence < floor = grind arith in
      rw (q, position_below floor ve.sequence chain low a) refl
]

-- Compaction sorts the versions of a key newest first and keeps the first of them and no other,
-- whatever the retention floor is.
pub compact_chain_lem :
    (floor : ℕ) (chain : VersionChain)
    → NewestFirst (sort_newest chain) × (compact_chain floor chain ≡ take 1 (sort_newest chain))
unfolding compact_chain
compact_chain_lem floor chain =
    let s = sort_newest-NewestFirst chain in (s, kept_one floor (sort_newest chain) s)
