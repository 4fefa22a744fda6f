-- ===== src/Segment/Index/Locate.antt =====
-- crates/toroidal-store/segment.rs: `locate` against a linear scan of the index.
use toroidal_db.Base.{
  ℕ, ◌+◌, ◌-◌, ◌<◌, ◌≡◌, refl, ap, ◌∙◌, true, false, Option, none, some, List, [], ◌∷◌, ◌++◌,
  length, lt→ltb, All, if◌then◌else◌, inl, inr, arith, Bool-cases, length-append,
}
use toroidal_db.Base.Bytes.{Bytes}
use toroidal_db.Base.Keys.{bytes_lt, bytes_lt_trans, bytes_lt_total}
use toroidal_db.Segment.Index.{IndexEntry, Ordering, Search, Searches, compare_first, locate}

-- The reference: how many of the first blocks start at the key or below it.
unfoldable pub count_leading : Bytes → List IndexEntry → ℕ
count_leading key [] = 0
count_leading key (e ∷ es) = if bytes_lt key e.first_key then 0 else count_leading key es + 1

-- The last of those blocks, or the first block of all.
unfoldable pub scan_locate : List IndexEntry → Bytes → Option ℕ
scan_locate [] key = none
scan_locate (e ∷ es) key = some (count_leading key (e ∷ es) - 1)

-- The first keys do not descend.
abbrev pub IsAscending : List IndexEntry → Type 0
IsAscending [] = Unit
IsAscending (e ∷ es) = All (λ f. bytes_lt f.first_key e.first_key ≡ false) es × IsAscending es

-- The two parts of the index around a key.
record Split (key : Bytes) (entries : List IndexEntry) : Type 0 where
  below : List IndexEntry
  above : List IndexEntry
  parts : entries ≡ below ++ above
  all_below : All (λ e. compare_first key e ≡ Ordering.less) below
  all_above : All (λ e. compare_first key e ≡ Ordering.greater) above
  counted : count_leading key entries ≡ length below

bytes_lt-below :
    (key a b : Bytes) → bytes_lt key a ≡ true → bytes_lt b a ≡ false → bytes_lt key b ≡ true
bytes_lt-below key a b h k = elim (Bool-cases (bytes_lt a b)) [
  | inl less ↦ bytes_lt_trans key a b h less
  | inr not_less ↦ rw (← bytes_lt_total a b not_less k) h
]

greater_behind :
    (key : Bytes) (e : IndexEntry) (es : List IndexEntry)
    → bytes_lt key e.first_key ≡ true
    → All (λ f. bytes_lt f.first_key e.first_key ≡ false) es
    → All (λ f. compare_first key f ≡ Ordering.greater) es
unfolding compare_first
greater_behind key e [] h a = tt
greater_behind key e (f ∷ fs) h (a, more) =
    (rw (bytes_lt-below key e.first_key f.first_key h a) refl, greater_behind key e fs h more)

split : (key : Bytes) (entries : List IndexEntry) → IsAscending entries → Split key entries
unfolding count_leading compare_first
split key [] a = record {
  below = [];
  above = [];
  parts = refl;
  all_below = tt;
  all_above = tt;
  counted = refl;
}
split key (e ∷ es) (a, more) = elim (Bool-cases (bytes_lt key e.first_key)) [
  | inl greater ↦ record {
    below = [];
    above = e ∷ es;
    parts = refl;
    all_below = tt;
    all_above = (rw (compare_first, greater) refl, greater_behind key e es greater a);
    counted = rw (count_leading, greater) refl;
  }
  | inr less ↦
      let s = split key es more in
      record {
        below = e ∷ s.below;
        above = s.above;
        parts = ap (◌∷◌ e) s.parts;
        all_below = (rw (compare_first, less) refl, s.all_below);
        all_above = s.all_above;
        counted = rw (count_leading, less) (omega (arith, s.counted));
      }
]

module _ (binary_search_by : Search) (searches : Searches binary_search_by) where
  -- On an index whose first keys do not descend, the binary search locates the block that a scan from the front
  -- finds: the last one that starts at the key or below it, the first block when there is none, and nothing
  -- when the index is empty.
  pub locate-scan_locate :
      (entries : List IndexEntry) (key : Bytes)
      → IsAscending entries
      → locate binary_search_by entries key ≡ scan_locate entries key
  unfolding locate scan_locate
  locate-scan_locate [] key a = ground arith
  locate-scan_locate (e ∷ es) key a =
      let s = split key (e ∷ es) a in
      let found : binary_search_by (compare_first key) (e ∷ es) ≡ inr (length s.below) =
        ap (binary_search_by (compare_first key)) s.parts
        ∙ searches (compare_first key) s.below s.above s.all_below s.all_above in
      let size : length (e ∷ es) ≡ length s.below + length s.above =
        ap length s.parts ∙ length-append s.below s.above in
      let inside : length s.below - 1 < length (e ∷ es) = omega arith in
      rw (found, lt→ltb _ _ inside, s.counted) refl
