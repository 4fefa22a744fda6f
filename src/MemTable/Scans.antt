-- ===== src/MemTable/Scans.antt =====
-- crates/toroidal-store/memtable.rs: a scan of a table is sorted by key and has exactly the versions
-- that the reads at the same snapshot give.
use toroidal_db.Base.{
  ℕ, ◌≡◌, refl, sym, ap, ◌∙◌, Bool, true, false, Option, none, some, List, [], ◌∷◌, Bool-cases,
  Option-cases, if◌then◌else◌, and_then, arith, inl, inr,
}
use toroidal_db.Base.Bytes.{Bytes}
use toroidal_db.Base.Keys.{
  bytes_eq, bytes_lt, bytes_eq_refl, bytes_lt_trans, bytes_lt_total, Key-cases,
}
use toroidal_db.Snapshot.{VersionedEntry}
use toroidal_db.MemTable.{
  VersionChain, Entries, upsert, push_version, chain_of, find_visible, get_visible, in_range,
  visible_entries, insert_by_key, sort_by_key, scan_entries_visible,
}
use toroidal_db.MemTable.Reads.{table, newest, Key-ne, table-reads}

module _ {ℓ} {A : Type ℓ} where
  -- The first entry of a key.
  unfoldable pub entry_of : Bytes → List (Bytes × A) → Option A
  entry_of k [] = none
  entry_of k ((l, a) ∷ xs) = if bytes_eq l k then some a else entry_of k xs

  -- All keys are above `k`.
  abbrev pub Above : Bytes → List (Bytes × A) → Type 0
  Above k [] = Unit
  Above k ((l, a) ∷ xs) = (bytes_lt k l ≡ true) × Above k xs

  -- The keys strictly ascend.
  abbrev pub Ascending : List (Bytes × A) → Type 0
  Ascending [] = Unit
  Ascending ((k, a) ∷ xs) = Above k xs × Ascending xs

  -- Each key has one entry.
  abbrev pub Distinct : List (Bytes × A) → Type ℓ
  Distinct [] = Unit
  Distinct ((k, a) ∷ xs) = (entry_of k xs ≡ none) × Distinct xs

  Above-trans :
      (j k : Bytes) (xs : List (Bytes × A)) → bytes_lt j k ≡ true → Above k xs → Above j xs
  Above-trans j k [] h a = tt
  Above-trans j k ((l, x) ∷ xs) h (e, a) = (bytes_lt_trans j k l h e, Above-trans j k xs h a)

  -- A key without an entry is not the first one, and has no entry among the others.
  absent :
      (l k : Bytes) (b : A) (xs : List (Bytes × A))
      → entry_of k ((l, b) ∷ xs) ≡ none
      → entry_of k xs ≡ none
  unfolding entry_of
  absent l k b xs h = elim (Bool-cases (bytes_eq l k)) [
    | inl q ↦ absurd (ground arith)
    | inr q ↦ ground arith
  ]

  before :
      (l k : Bytes) (b : A) (xs : List (Bytes × A))
      → bytes_lt l k ≡ false
      → entry_of k ((l, b) ∷ xs) ≡ none
      → bytes_lt k l ≡ true
  unfolding entry_of
  before l k b xs q h = elim (Bool-cases (bytes_lt k l)) [
    | inl r ↦ r
    | inr r ↦
        let same = ap (bytes_eq l) (bytes_lt_total l k q r) in
        let self = bytes_eq_refl l in absurd (ground arith)
  ]

  entry_of-insert_by_key :
      (j k : Bytes) (a : A) (xs : List (Bytes × A))
      → entry_of k xs ≡ none
      → entry_of j (insert_by_key k a xs) ≡ (if bytes_eq k j then some a else entry_of j xs)
  unfolding entry_of insert_by_key
  entry_of-insert_by_key j k a [] h = refl
  entry_of-insert_by_key j k a ((l, b) ∷ xs) h =
      let rest = entry_of-insert_by_key j k a xs in
      elim (Key-cases l k) [
        | inl (e, q) ↦ absurd (ground arith)
        | inr (ne, q) ↦
            let r = rest (ground arith) in
            elim (Key-cases l j) [
              | inl (e2, q2) ↦ let q3 = Key-ne k j (λ e3. ne (e2 ∙ sym e3)) in ground arith
              | inr (ne2, q2) ↦ ground arith
            ]
      ]

  insert_by_key-Above :
      (j k : Bytes) (a : A) (xs : List (Bytes × A))
      → bytes_lt j k ≡ true
      → Above j xs
      → Above j (insert_by_key k a xs)
  unfolding insert_by_key
  insert_by_key-Above j k a [] h ab = (h, tt)
  insert_by_key-Above j k a ((l, b) ∷ xs) h (e, ab) =
      let rest = insert_by_key-Above j k a xs h ab in
      elim (Bool-cases (bytes_lt l k)) [ inl q ↦ rw q (e, rest) | inr q ↦ rw q (h, (e, ab)) ]

  insert_by_key-Ascending :
      (k : Bytes) (a : A) (xs : List (Bytes × A))
      → entry_of k xs ≡ none
      → Ascending xs
      → Ascending (insert_by_key k a xs)
  unfolding entry_of insert_by_key
  insert_by_key-Ascending k a [] h asc = (tt, tt)
  insert_by_key-Ascending k a ((l, b) ∷ xs) h (ab, asc) = elim (Bool-cases (bytes_lt l k)) [
    | inl q ↦
        rw q (
          insert_by_key-Above l k a xs q ab,
          insert_by_key-Ascending k a xs (absent l k b xs h) asc,
        )
    | inr q ↦
        let below : bytes_lt k l ≡ true = before l k b xs q h in
        rw q ((below, Above-trans k l xs below ab), (ab, asc))
  ]

  sort_by_key-entries :
      (xs : List (Bytes × A))
      → Distinct xs
      → Ascending (sort_by_key xs) × ((k : Bytes) → entry_of k (sort_by_key xs) ≡ entry_of k xs)
  unfolding sort_by_key entry_of
  sort_by_key-entries [] d = (tt, λ k. refl)
  sort_by_key-entries ((k, a) ∷ xs) (h, d) =
      let (asc, same) = sort_by_key-entries xs d in
      let fresh = same k ∙ h in
      (
        insert_by_key-Ascending k a (sort_by_key xs) fresh asc,
        λ j. entry_of-insert_by_key j k a (sort_by_key xs) fresh ∙ rw (same j) refl,
      )

chain_of-entry_of : (k : Bytes) (d : List (Bytes × VersionChain)) → chain_of k d ≡ entry_of k d
unfolding chain_of entry_of
chain_of-entry_of k [] = refl
chain_of-entry_of k ((l, c) ∷ d) = let rest = chain_of-entry_of k d in ground arith

upsert-absent :
    (key k : Bytes) (ve : VersionedEntry) (d : List (Bytes × VersionChain))
    → bytes_eq key k ≡ false
    → entry_of k d ≡ none
    → entry_of k (upsert key ve d) ≡ none
unfolding upsert entry_of
upsert-absent key k ve [] q h = rw q refl
upsert-absent key k ve ((l, c) ∷ d) q h = let rest = upsert-absent key k ve d q in ground arith

upsert-Distinct :
    (key : Bytes) (ve : VersionedEntry) (d : List (Bytes × VersionChain))
    → Distinct d
    → Distinct (upsert key ve d)
unfolding upsert entry_of
upsert-Distinct key ve [] h = (refl, tt)
upsert-Distinct key ve ((l, c) ∷ d) (a, h) = elim (Key-cases l key) [
  | inl (e, q) ↦ rw q (a, h)
  | inr (ne, q) ↦
      rw q (upsert-absent key l ve d (Key-ne key l (λ e. ne (sym e))) a, upsert-Distinct key ve d h)
]

table-Distinct : (ws : Entries) → Distinct (table ws).data_
unfolding table push_version
table-Distinct [] = tt
table-Distinct ((k, ve) ∷ ws) = upsert-Distinct k ve (table ws).data_ (table-Distinct ws)

visible_entries-entry :
    (start end : Option Bytes) (seq : ℕ) (k : Bytes) (d : List (Bytes × VersionChain))
    → Distinct d
    → entry_of k (visible_entries start end seq d)
      ≡ (if in_range start end k then and_then (entry_of k d) (find_visible seq) else none)
unfolding visible_entries entry_of
visible_entries-entry start end seq k [] h = ground arith
visible_entries-entry start end seq k ((l, c) ∷ d) (a, h) =
    let rest = visible_entries-entry start end seq k d h in
    elim (Key-cases l k) [
      | inl (e, q) ↦
          let same = ap (in_range start end) e in
          let gone = ap (λ x. entry_of x d) (sym e) ∙ a in ground arith
      | inr (ne, q) ↦ ground arith
    ]

if_same {ℓ} : {A : Type ℓ} (b : Bool) {x : A} → (if b then x else x) ≡ x
if_same true = refl
if_same false = refl

visible_entries-Distinct :
    (start end : Option Bytes) (seq : ℕ) (d : List (Bytes × VersionChain))
    → Distinct d
    → Distinct (visible_entries start end seq d)
unfolding visible_entries
visible_entries-Distinct start end seq [] h = tt
visible_entries-Distinct start end seq ((l, c) ∷ d) (a, h) =
    let rest = visible_entries-Distinct start end seq d h in
    let gone : entry_of l (visible_entries start end seq d) ≡ none =
      visible_entries-entry start end seq l d h ∙ rw a (if_same (in_range start end l)) in
    elim (Bool-cases (in_range start end l)) [
      | inr out ↦ rw out rest
      | inl within ↦ elim (Option-cases (find_visible seq c)) [
        | inl unseen ↦ rw (within, unseen) rest
        | inr (ve, seen) ↦ rw (within, seen) (gone, rest)
      ]
    ]

-- A scan at a snapshot strictly ascends by key. Of a table that a history of writes has filled, it
-- has for each key of the range the newest visible write, tombstones included, and no other key.
pub table-scan :
    (ws : Entries) (start end : Option Bytes) (seq : ℕ) (k : Bytes)
    → Ascending (scan_entries_visible (table ws) start end seq)
      × (entry_of k (scan_entries_visible (table ws) start end seq)
          ≡ (if in_range start end k then newest k seq ws else none))
unfolding scan_entries_visible
table-scan ws start end seq k =
    let d = (table ws).data_ in
    let distinct = table-Distinct ws in
    let (asc, same) =
      sort_by_key-entries (visible_entries start end seq d)
        (visible_entries-Distinct start end seq d distinct) in
    (
      asc,
      same k
          ∙ visible_entries-entry start end seq k d distinct
          ∙ ap (λ r. if in_range start end k then r else none)
              (ap (λ o. and_then o (find_visible seq)) (sym (chain_of-entry_of k d))
                ∙ unfold get_visible in (table-reads ws k seq).0),
    )
