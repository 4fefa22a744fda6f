-- ===== src/Base/Bits.antt =====
-- The bits of a byte, with the operations `|` and `&` of the machine on a single bit 2 ^ j.
use Prim.Native.Nat.{min, max, bit_and, bit_or, digits, bitwise, bit_and-bitwise, bit_or-bitwise}
use native.Mathlib.Nat.{suc-add, zero-add, pow-suc}
use toroidal_db.Base.{
  ℕ, zero, suc, ◌+◌, ◌-◌, ◌*◌, ◌/◌, ◌%◌, ◌^◌, ◌≤◌, ◌<◌, ◌≡◌, refl, sym, ap, subst, ◌∙◌, arith,
}

-- More fuel than the first number changes nothing.
digits_more :
    (base : ℕ → ℕ) (op : ℕ → ℕ → ℕ) (n d a b : ℕ)
    → a ≤ n
    → digits base op (n + d) a b ≡ digits base op n a b
digits_more base op zero zero zero b h = refl
digits_more base op zero (suc d) zero b h = rw zero-add refl
digits_more base op zero d (suc a) b h = absurd (omega arith)
digits_more base op (suc n) d zero b h = rw suc-add refl
digits_more base op (suc n) d (suc a) b h = rw suc-add (
    ap (λ t. t * 2 + op (suc a % 2) (b % 2))
      (digits_more base op n d (suc a / 2) (b / 2) (omega arith)))

halves :
    (base : ℕ → ℕ) (op : ℕ → ℕ → ℕ) (x y : ℕ)
    → bitwise base op (suc x) y ≡ bitwise base op (suc x / 2) (y / 2) * 2 + op (suc x % 2) (y % 2)
halves base op x y =
    let c = suc x / 2 in
    let whole : c + (x - c) ≡ x = omega arith in
    let more = digits_more base op c (x - c) c (y / 2) (omega arith) in
    ap (λ t. t * 2 + op (suc x % 2) (y % 2))
      (ap (λ t. digits base op t c (y / 2)) (sym whole) ∙ more)

bit_or_halves :
    (left right : ℕ)
    → bit_or left right ≡ bit_or (left / 2) (right / 2) * 2 + max (left % 2) (right % 2)
bit_or_halves zero y = simp bit_or-bitwise (omega arith)
bit_or_halves (suc x) y = simp bit_or-bitwise (halves (λ rest. rest) max x y)

bit_and_halves :
    (left right : ℕ)
    → bit_and left right ≡ bit_and (left / 2) (right / 2) * 2 + min (left % 2) (right % 2)
bit_and_halves zero y = simp bit_and-bitwise (omega arith)
bit_and_halves (suc x) y = simp bit_and-bitwise (halves (λ rest. 0) min x y)

or-zero : (n a : ℕ) → a ≤ n → bit_or a 0 ≡ a
or-zero zero a h = let e : a ≡ 0 = omega arith in rw e refl
or-zero (suc n) zero h = refl
or-zero (suc n) (suc a) h =
    omega (arith, bit_or_halves (suc a) 0, or-zero n (suc a / 2) (omega arith))

bit_or_double : (p a : ℕ) → bit_or a (p * 2) ≡ bit_or (a / 2) p * 2 + a % 2
bit_or_double p a =
    let half : (p * 2) / 2 ≡ p = omega arith in
    let even : (p * 2) % 2 ≡ 0 = omega arith in
    omega (
      arith,
      subst (λ t. bit_or a (p * 2) ≡ bit_or (a / 2) t * 2 + max (a % 2) ((p * 2) % 2)) half
          (bit_or_halves a (p * 2)),
    )

bit_and_double : (p a : ℕ) → bit_and a (p * 2) ≡ bit_and (a / 2) p * 2
bit_and_double p a =
    let half : (p * 2) / 2 ≡ p = omega arith in
    let even : (p * 2) % 2 ≡ 0 = omega arith in
    omega (
      arith,
      subst (λ t. bit_and a (p * 2) ≡ bit_and (a / 2) t * 2 + min (a % 2) ((p * 2) % 2)) half
          (bit_and_halves a (p * 2)),
    )

bit_or_one : (a : ℕ) → bit_or a 1 ≡ (a / 2) * 2 + 1
bit_or_one a = omega (arith, bit_or_halves a 1, or-zero (a / 2) (a / 2) (omega arith))

and-zero : (n a : ℕ) → a ≤ n → bit_and a 0 ≡ 0
and-zero zero a h = let e : a ≡ 0 = omega arith in rw e refl
and-zero (suc n) zero h = refl
and-zero (suc n) (suc a) h =
    omega (arith, bit_and_halves (suc a) 0, and-zero n (suc a / 2) (omega arith))

bit_and_one : (a : ℕ) → bit_and a 1 ≡ a % 2
bit_and_one a = omega (arith, bit_and_halves a 1, and-zero (a / 2) (a / 2) (omega arith))

-- A bit that is set in a byte is set.
pub bit_and-bit_or : (j a : ℕ) → 0 < bit_and (bit_or a (2 ^ j)) (2 ^ j)
bit_and-bit_or zero a = omega (arith, bit_and_one (bit_or a 1), bit_or_one a)
bit_and-bit_or (suc j) a =
    let half : (bit_or (a / 2) (2 ^ j) * 2 + a % 2) / 2 ≡ bit_or (a / 2) (2 ^ j) = omega arith in
    rw (pow-suc 2 j, bit_and_double, bit_or_double, half) (omega (arith, bit_and-bit_or j (a / 2)))

-- Setting a bit clears no other.
pub bit_and-bit_or_keep :
    (i j a : ℕ) → 0 < bit_and a (2 ^ j) → 0 < bit_and (bit_or a (2 ^ i)) (2 ^ j)
bit_and-bit_or_keep zero zero a h = omega (arith, bit_and_one (bit_or a 1), bit_or_one a)
bit_and-bit_or_keep zero (suc j) a h =
    let half : ((a / 2) * 2 + 1) / 2 ≡ a / 2 = omega arith in
    let old : 0 < bit_and (a / 2) (2 ^ j) * 2 =
      subst (λ t. 0 < t) (ap (bit_and a) (pow-suc 2 j) ∙ bit_and_double (2 ^ j) a) h in
    rw (pow-suc 2 j, bit_and_double, bit_or_one, half) old
bit_and-bit_or_keep (suc i) zero a h =
    let low : 0 < a % 2 = subst (λ t. 0 < t) (bit_and_one a) h in
    rw (pow-suc 2 i, bit_and_one, bit_or_double) (omega arith)
bit_and-bit_or_keep (suc i) (suc j) a h =
    let half : (bit_or (a / 2) (2 ^ i) * 2 + a % 2) / 2 ≡ bit_or (a / 2) (2 ^ i) = omega arith in
    let old : 0 < bit_and (a / 2) (2 ^ j) * 2 =
      subst (λ t. 0 < t) (ap (bit_and a) (pow-suc 2 j) ∙ bit_and_double (2 ^ j) a) h in
    rw (pow-suc 2 j, pow-suc 2 i, bit_and_double, bit_or_double, half)
      (omega (arith, bit_and-bit_or_keep i j (a / 2) (omega arith)))
