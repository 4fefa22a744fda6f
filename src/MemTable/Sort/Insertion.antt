-- ===== src/MemTable/Sort/Insertion.antt =====
-- A sort for the runs of the Tests modules, in place of the standard library's `sort_unstable_by`.
use toroidal_db.Base.{
  ◌≡◌, ◌≤◌, refl, sym, ap, ◌∙◌, Bool, true, false, [], ◌∷◌, arith, inl, inr, Bool-cases, le→ltb,
  if◌then◌else◌,
}
use toroidal_db.Base.Bytes.{Bytes}
use toroidal_db.Base.Keys.{
  bytes_eq, bytes_lt, bytes_lt_irrefl, bytes_eq_refl, bytes_lt_trans, bytes_lt_total, bytes_eq→≡,
  Key-cases,
}
use toroidal_db.Snapshot.{VersionedEntry}
use toroidal_db.MemTable.{Entries, version_before, SortBy}
use toroidal_db.MemTable.Sort.{PutIn, Rearranged, NoneBefore, Sorted, Sorts, not_before}

unfoldable pub insert_before :
    (Bytes × VersionedEntry → Bytes × VersionedEntry → Bool)
    → Bytes × VersionedEntry
    → Entries
    → Entries
insert_before before x [] = x ∷ []
insert_before before x (y ∷ rest) =
    let more = insert_before before x rest in if before y x then y ∷ more else x ∷ y ∷ rest

unfoldable pub insertion_sort : SortBy
insertion_sort before [] = []
insertion_sort before (x ∷ xs) = insert_before before x (insertion_sort before xs)

before_not :
    (k l : Bytes) (v w : VersionedEntry)
    → bytes_lt k l ≡ false
    → (k ≡ l → v.sequence ≤ w.sequence)
    → version_before (k, v) (l, w) ≡ false
unfolding version_before
before_not k l v w lt le = elim (Key-cases k l) [
  | inl (e, t) ↦ rw (version_before, lt, t) (le→ltb _ _ (le e))
  | inr (ne, t) ↦ rw (version_before, lt, t) refl
]

insert_before-PutIn :
    (x : Bytes × VersionedEntry) (es : Entries) → PutIn x (insert_before version_before x es) es
unfolding insert_before
insert_before-PutIn x [] = PutIn.here
insert_before-PutIn x (y ∷ es) = elim (Bool-cases (version_before y x)) [
  | inl t ↦ rw t (PutIn.there (insert_before-PutIn x es))
  | inr t ↦ rw t PutIn.here
]

version_before_asym :
    (x y : Bytes × VersionedEntry) → version_before x y ≡ true → version_before y x ≡ false
unfolding version_before
version_before_asym (k, v) (l, w) h = elim (Key-cases k l) [
  | inl (e, t) ↦
      let u : bytes_eq l k ≡ true = ap (λ z. bytes_eq l z) e ∙ bytes_eq_refl l in
      let lt : bytes_lt k l ≡ false = ap (λ z. bytes_lt z l) e ∙ bytes_lt_irrefl l in
      let gt : bytes_lt l k ≡ false = ap (λ z. bytes_lt l z) e ∙ bytes_lt_irrefl l in ground arith
  | inr (ne, t) ↦
      let lt : bytes_lt k l ≡ true = ground arith in
      elim (Bool-cases (bytes_lt l k)) [
        | inl gt ↦
            let loop = bytes_lt_trans k l k lt gt in let no = bytes_lt_irrefl k in absurd (cc)
        | inr gt ↦ elim (Bool-cases (bytes_eq l k)) [
          | inl e ↦ absurd (ne (sym (bytes_eq→≡ l k e)))
          | inr u ↦ rw (version_before, gt, u) refl
        ]
      ]
]

bytes_lt_negtrans :
    (x y z : Bytes) → bytes_lt z y ≡ false → bytes_lt y x ≡ false → bytes_lt z x ≡ false
bytes_lt_negtrans x y z h i = elim (Bool-cases (bytes_lt z x)) [
  | inr t ↦ t
  | inl t ↦ elim (Bool-cases (bytes_lt x y)) [
    | inl u ↦ absurd (let both = bytes_lt_trans z x y t u in cc)
    | inr u ↦ let e = bytes_lt_total x y u i in absurd (let both = ap (bytes_lt z) e in cc)
  ]
]

version_before_trans :
    (x y z : Bytes × VersionedEntry)
    → version_before z y ≡ false
    → version_before y x ≡ false
    → version_before z x ≡ false
version_before_trans (kx, x) (ky, y) (kz, z) h i =
    let (lt1, le1) = not_before kz ky z y h in
    let (lt2, le2) = not_before ky kx y x i in
    before_not kz kx z x (bytes_lt_negtrans kx ky kz lt1 lt2) (λ e.
      let lt3 : bytes_lt kx ky ≡ false = ap (λ t. bytes_lt t ky) (sym e) ∙ lt1 in
      let same : kx ≡ ky = bytes_lt_total kx ky lt3 lt2 in
      omega (arith, le1 (e ∙ same), le2 (sym same)))

NoneBefore-trans :
    (x y : Bytes × VersionedEntry) (es : Entries)
    → version_before y x ≡ false
    → NoneBefore y es
    → NoneBefore x es
NoneBefore-trans x y [] i n = tt
NoneBefore-trans x y (z ∷ es) i (h, hs) =
    (version_before_trans x y z h i, NoneBefore-trans x y es i hs)

NoneBefore-insert_before :
    (x y : Bytes × VersionedEntry) (es : Entries)
    → version_before x y ≡ false
    → NoneBefore y es
    → NoneBefore y (insert_before version_before x es)
unfolding insert_before
NoneBefore-insert_before x y [] i n = (i, tt)
NoneBefore-insert_before x y (z ∷ es) i (h, hs) = elim (Bool-cases (version_before z x)) [
  | inl t ↦ rw t (h, NoneBefore-insert_before x y es i hs)
  | inr t ↦ rw t (i, (h, hs))
]

insert_before-Sorted :
    (x : Bytes × VersionedEntry) (es : Entries)
    → Sorted es
    → Sorted (insert_before version_before x es)
unfolding insert_before
insert_before-Sorted x [] s = (tt, tt)
insert_before-Sorted x (y ∷ es) (n, s) = elim (Bool-cases (version_before y x)) [
  | inl t ↦
      rw t
        (NoneBefore-insert_before x y es (version_before_asym y x t) n, insert_before-Sorted x es s)
  | inr t ↦ rw t ((t, NoneBefore-trans x y es t n), (n, s))
]

pub insertion_sort-Sorts : Sorts insertion_sort
unfolding insertion_sort
insertion_sort-Sorts [] = (Rearranged.none_left, tt)
insertion_sort-Sorts (x ∷ es) =
    let (r, s) = insertion_sort-Sorts es in
    let sorted = insertion_sort version_before es in
    (Rearranged.one_more (insert_before-PutIn x sorted) r, insert_before-Sorted x sorted s)
