-- ===== src/Segment/Index.antt =====
-- crates/toroidal-store/segment.rs: the index of a segment. `slice::binary_search_by` of the standard
-- library is the parameter `binary_search_by`; `Searches` is what its documentation says of a list in
-- which all that compares less stands before all that compares greater.
pub mod Locate
use toroidal_db.Base.{
  ℕ, ◌+◌, ◌-◌, ◌≡◌, Bool, true, false, Option, none, some, List, [], ◌∷◌, ◌++◌, length, ltb, All,
  if◌then◌else◌, inl, inr, ◌⊎◌,
}
use toroidal_db.Base.Bytes.{Bytes}
use toroidal_db.Base.Keys.{bytes_lt}

pub record IndexEntry : Type 0 where
  pub first_key : Bytes
  pub block_offset : ℕ
  pub block_size : ℕ

pub data Ordering : Type 0 where
  less : Ordering
  equal : Ordering
  greater : Ordering

-- The position of an element that compares equal, or the one where it could be inserted.
abbrev pub Search : Type 0
Search = (IndexEntry → Ordering) → List IndexEntry → ℕ ⊎ ℕ

abbrev pub Searches : Search → Type 0
Searches binary_search_by =
    (compare : IndexEntry → Ordering) (below above : List IndexEntry)
    → All (λ e. compare e ≡ Ordering.less) below
    → All (λ e. compare e ≡ Ordering.greater) above
    → binary_search_by compare (below ++ above) ≡ inr (length below)

-- The closure of `locate`.
unfoldable pub compare_first : Bytes → IndexEntry → Ordering
compare_first key e = if bytes_lt key e.first_key then Ordering.greater else Ordering.less

module _ (binary_search_by : Search) where
  unfoldable pub locate : List IndexEntry → Bytes → Option ℕ
  locate entries key =
      let idx : ℕ = elim (binary_search_by (compare_first key) entries) [
        | inl i ↦ i
        | inr i ↦ i - 1
      ] in
      if ltb idx (length entries) then some idx else none
