-- ===== src/MemTable/Sort.antt =====
-- crates/toroidal-store/memtable.rs: what `scan_all_versions` relies on of the standard library's `sort_unstable_by`, and what
-- it gives for the versions of one key.
pub mod Insertion
use toroidal_db.Base.{
  ℕ, suc, ◌≡◌, ◌≤◌, ◌<◌, refl, sym, ap, subst, ◌∙◌, true, false, List, [], ◌∷◌, length, arith, inl,
  inr, Bool-cases,
}
use toroidal_db.Base.Bytes.{Bytes}
use toroidal_db.Base.Keys.{bytes_eq, bytes_lt, bytes_lt_irrefl, bytes_eq_refl, bytes_eq→≡}
use toroidal_db.Snapshot.{VersionedEntry}
use toroidal_db.MemTable.{VersionChain, Entries, version_before, SortBy}

-- What the comparison says of an entry that it does not put before another.
pub not_before :
    (k l : Bytes) (v w : VersionedEntry)
    → version_before (k, v) (l, w) ≡ false
    → (bytes_lt k l ≡ false) × (k ≡ l → v.sequence ≤ w.sequence)
unfolding version_before
not_before k l v w h = (
  ground arith,
  λ e.
      let t : bytes_eq k l ≡ true = ap (λ z. bytes_eq z l) e ∙ bytes_eq_refl l in
      let lt : bytes_lt k l ≡ false = ap (λ z. bytes_lt z l) e ∙ bytes_lt_irrefl l in grind arith,
)

-- The second list is the third with the element put in at some place.
pub data PutIn {A : Type 0} (x : A) : List A → List A → Type 0 where
  here : {xs : List A} → PutIn x (x ∷ xs) xs
  there : {y : A} {ys zs : List A} → PutIn x ys zs → PutIn x (y ∷ ys) (y ∷ zs)

-- The second list has the elements of the first, in any order.
pub data Rearranged {A : Type 0} : List A → List A → Type 0 where
  none_left : Rearranged [] []
  one_more : {x : A} {xs ys zs : List A} → PutIn x ys zs → Rearranged xs zs → Rearranged (x ∷ xs) ys

-- None of the entries is before `x`.
abbrev pub NoneBefore : Bytes × VersionedEntry → Entries → Type 0
NoneBefore x [] = Unit
NoneBefore x (y ∷ es) = (version_before y x ≡ false) × NoneBefore x es

abbrev pub Sorted : Entries → Type 0
Sorted [] = Unit
Sorted (x ∷ es) = NoneBefore x es × Sorted es

-- The documented behaviour: a sort by the comparison, which leaves open the order of equal elements.
abbrev pub Sorts : SortBy → Type 0
Sorts sort_unstable_by =
    (es : Entries)
    → Rearranged es (sort_unstable_by version_before es)
      × Sorted (sort_unstable_by version_before es)
