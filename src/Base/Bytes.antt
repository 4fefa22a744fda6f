-- ===== src/Base/Bytes.antt =====
-- The integer conversions of crates/toroidal-store: `to_le_bytes`, `from_le_bytes`, the checked
-- additions on a 64-bit word, and a slice that is checked against the end of the data.
use toroidal_db.Base.Tests.{ltb, if◌then◌else◌}
use toroidal_db.Base.Lists.{length, take}
use Prim.Native.Nat.{ℕ, zero, suc, ◌+◌, ◌*◌, ◌/◌, ◌%◌, ◌^◌, ◌<◌, ◌≤◌}
use mathlib.Core.Path.{◌≡◌, refl, ap}
use mathlib.Core.Option
use mathlib.Core.Option.{Option, none, some}
use mathlib.Core.List.{List, [], ◌∷◌, ◌++◌}
use native.Mathlib.Omega.{arith}

abbrev pub Bytes : Type 0
Bytes = List ℕ

abbrev pub u32_mod : ℕ
u32_mod = 2 ^ 32

abbrev pub u64_mod : ℕ
u64_mod = 2 ^ 64

-- The `w` low bytes of `v`, lowest first.
unfoldable pub to_le : ℕ → ℕ → Bytes
to_le zero v = []
to_le (suc w) v = (v % 256) ∷ to_le w (v / 256)

unfoldable pub from_le : Bytes → ℕ
from_le [] = 0
from_le (b ∷ bs) = b + 256 * from_le bs

-- `checked_add` on a 64-bit word.
unfoldable pub checked_add : ℕ → ℕ → Option ℕ
checked_add a b = if ltb (a + b) u64_mod then some (a + b) else none

-- The first `n` elements, if there are as many.
unfoldable pub take_exact : ℕ → Bytes → Option Bytes
take_exact zero xs = some []
take_exact (suc n) [] = none
take_exact (suc n) (x ∷ xs) = Option.map (◌∷◌ x) (take_exact n xs)

pub length-to_le : (w v : ℕ) → length (to_le w v) ≡ w
unfolding to_le
length-to_le zero v = refl
length-to_le (suc w) v = ap suc (length-to_le w (v / 256))

pub from_le-to_le_u16 : (v : ℕ) → v < 2 ^ 16 → from_le (to_le 2 v) ≡ v
unfolding from_le to_le
from_le-to_le_u16 v h = omega arith

pub from_le-to_le_u32 : (v : ℕ) → v < 2 ^ 32 → from_le (to_le 4 v) ≡ v
unfolding from_le to_le
from_le-to_le_u32 v h = omega arith

pub from_le-to_le_u64 : (v : ℕ) → v < 2 ^ 64 → from_le (to_le 8 v) ≡ v
unfolding from_le to_le
from_le-to_le_u64 v h = omega arith

pub take_exact-append : (xs ys : Bytes) (n : ℕ) → n ≡ length xs → take_exact n (xs ++ ys) ≡ some xs
unfolding take_exact
take_exact-append [] ys zero h = refl
take_exact-append [] ys (suc n) h = absurd (omega arith)
take_exact-append (x ∷ xs) ys zero h = absurd (omega arith)
take_exact-append (x ∷ xs) ys (suc n) h =
    ap (Option.map (◌∷◌ x)) (take_exact-append xs ys n (omega arith))

pub take_exact_short : (n : ℕ) (xs : Bytes) → length xs < n → take_exact n xs ≡ none
unfolding take_exact
take_exact_short zero xs h = absurd (omega arith)
take_exact_short (suc n) [] h = refl
take_exact_short (suc n) (x ∷ xs) h = ap (Option.map (◌∷◌ x)) (take_exact_short n xs (omega arith))

pub take_exact_long : (n : ℕ) (xs : Bytes) → n ≤ length xs → take_exact n xs ≡ some (take n xs)
unfolding take_exact
take_exact_long zero xs h = refl
take_exact_long (suc n) [] h = absurd (omega arith)
take_exact_long (suc n) (x ∷ xs) h = ap (Option.map (◌∷◌ x)) (take_exact_long n xs (omega arith))
