-- ===== src/Segment/Sample.antt =====
-- Inputs for the runs of the Tests modules: a history of three writes of two keys, sizes for its Bloom filter, and a
-- search from the front in place of the standard library's binary search.
use toroidal_db.Base.{ℕ, ◌+◌, ◌*◌, refl, ap, [], ◌∷◌, arith, inl, inr}
use toroidal_db.Base.Bytes.{Bytes}
use toroidal_db.Snapshot.{value_version, tombstone_version}
use toroidal_db.MemTable.{Entries}
use toroidal_db.Segment.Block.RoundTrip.{AllFit}
use toroidal_db.Segment.Index.{Ordering, Search, Searches}
use toroidal_db.Segment.Flush.{Descends}

abbrev pub key_a : Bytes
key_a = 97 ∷ []

abbrev pub key_b : Bytes
key_b = 98 ∷ []

-- The newest write first.
abbrev pub writes : Entries
writes =
    (key_a, tombstone_version 3)
    ∷ (key_b, value_version 2 [])
    ∷ (key_a, value_version 1 (7 ∷ []))
    ∷ []

pub writes-AllFit : AllFit writes
writes-AllFit = (
  record { key_short = omega arith; sequence_fits = omega arith; value_short = omega arith },
  (
    record { key_short = omega arith; sequence_fits = omega arith; value_short = omega arith },
    (
      record { key_short = omega arith; sequence_fits = omega arith; value_short = omega arith },
      tt,
    ),
  ),
)

pub writes-Descends : Descends writes
writes-Descends =
    (((λ t. omega arith), ((λ t. omega arith), tt)), (((λ t. omega arith), tt), (tt, tt)))

abbrev pub bits_of : ℕ → ℕ
bits_of n = n * 10

abbrev pub hashes_of : ℕ → ℕ → ℕ
hashes_of m n = 2

-- A search from the front.
unfoldable pub front_search : Search
front_search compare [] = inr 0
front_search compare (e ∷ es) = elim (compare e) [
  | Ordering.less ↦ elim (front_search compare es) [ inl i ↦ inl (i + 1) | inr i ↦ inr (i + 1) ]
  | Ordering.equal ↦ inl 0
  | Ordering.greater ↦ inr 0
]

pub front_search-Searches : Searches front_search
unfolding front_search
front_search-Searches compare [] [] l g = refl
front_search-Searches compare [] (e ∷ es) l (g, gs) = rw g refl
front_search-Searches compare (e ∷ es) above (l, ls) g =
    rw (l, front_search-Searches compare es above ls g) (ap inr (omega arith))
