-- ===== src/Base/Keys.antt =====
-- Keys are byte strings: `==` on them, and their lexicographic order, that of Rust's `[u8]`.
use toroidal_db.Base.Tests.{ltb, ◌==◌, if◌then◌else◌}
use toroidal_db.Base.Bytes.{Bytes}
use mathlib.Core.Path.{◌≡◌, refl, sym, ap, ◌∙◌}
use mathlib.Core.Logic.{◌≢◌, ◌⊎◌, inl, inr}
use mathlib.Core.Bool.{Bool, true, false, ◌&&◌}
use mathlib.Core.List.{[], ◌∷◌}
use native.Mathlib.Omega.{arith}

unfoldable pub bytes_eq : Bytes → Bytes → Bool
bytes_eq [] [] = true
bytes_eq [] (y ∷ ys) = false
bytes_eq (x ∷ xs) [] = false
bytes_eq (x ∷ xs) (y ∷ ys) = (x == y) && bytes_eq xs ys

unfoldable pub bytes_lt : Bytes → Bytes → Bool
bytes_lt xs [] = false
bytes_lt [] (y ∷ ys) = true
bytes_lt (x ∷ xs) (y ∷ ys) =
    let rest = bytes_lt xs ys in if ltb x y then true else if x == y then rest else false

pub bytes_eq_refl : (xs : Bytes) → bytes_eq xs xs ≡ true
unfolding bytes_eq
bytes_eq_refl [] = refl
bytes_eq_refl (x ∷ xs) = let rest = bytes_eq_refl xs in ground arith

pub bytes_eq→≡ : (xs ys : Bytes) → bytes_eq xs ys ≡ true → xs ≡ ys
unfolding bytes_eq
bytes_eq→≡ [] [] h = refl
bytes_eq→≡ [] (y ∷ ys) h = absurd (ground arith)
bytes_eq→≡ (x ∷ xs) [] h = absurd (ground arith)
bytes_eq→≡ (x ∷ xs) (y ∷ ys) h =
    let rest = bytes_eq→≡ xs ys (ground arith) in let head : x ≡ y = ground arith in cc (rest, head)

pub bytes_lt_irrefl : (xs : Bytes) → bytes_lt xs xs ≡ false
unfolding bytes_lt
bytes_lt_irrefl [] = refl
bytes_lt_irrefl (x ∷ xs) = let rest = bytes_lt_irrefl xs in ground arith

pub bytes_lt_trans :
    (xs ys zs : Bytes) → bytes_lt xs ys ≡ true → bytes_lt ys zs ≡ true → bytes_lt xs zs ≡ true
unfolding bytes_lt
bytes_lt_trans xs ys [] h k = absurd (ground arith)
bytes_lt_trans xs [] (z ∷ zs) h k = absurd (ground arith)
bytes_lt_trans [] (y ∷ ys) (z ∷ zs) h k = refl
bytes_lt_trans (x ∷ xs) (y ∷ ys) (z ∷ zs) h k = let rest = bytes_lt_trans xs ys zs in ground arith

-- Two keys are the same or one is below the other.
pub bytes_lt_total : (xs ys : Bytes) → bytes_lt xs ys ≡ false → bytes_lt ys xs ≡ false → xs ≡ ys
unfolding bytes_lt
bytes_lt_total [] [] h k = refl
bytes_lt_total [] (y ∷ ys) h k = absurd (ground arith)
bytes_lt_total (x ∷ xs) [] h k = absurd (ground arith)
bytes_lt_total (x ∷ xs) (y ∷ ys) h k =
    let head : x ≡ y = ground arith in
    let rest = bytes_lt_total xs ys (ground arith) (ground arith) in cc (rest, head)

pub Key-cases :
    (xs ys : Bytes) → ((xs ≡ ys) × (bytes_eq xs ys ≡ true)) ⊎ ((xs ≢ ys) × (bytes_eq xs ys ≡ false))
Key-cases xs ys = go (bytes_eq xs ys) refl
  where
    go :
        (b : Bool)
        → bytes_eq xs ys ≡ b
        → ((xs ≡ ys) × (bytes_eq xs ys ≡ true)) ⊎ ((xs ≢ ys) × (bytes_eq xs ys ≡ false))
    go true e = inl (bytes_eq→≡ xs ys e, e)
    go false e = inr (differ, e)
      where
        differ : xs ≢ ys
        differ q = absurd (ground (arith, same q))
          where
            same : xs ≡ ys → bytes_eq xs ys ≡ true
            same q = ap (bytes_eq xs) (sym q) ∙ bytes_eq_refl xs
