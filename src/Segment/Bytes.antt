-- ===== src/Segment/Bytes.antt =====
-- crates/toroidal-store/segment.rs: the binary helpers. An offset is a machine word, and so is the
-- length of the data, which the lemmas on a position assume.
use mathlib.Core.Option
use toroidal_db.Base.{
  ℕ, zero, suc, ◌+◌, ◌≡◌, ◌≤◌, ◌<◌, refl, sym, ap, ◌∙◌, Option, none, some, [], ◌∷◌, ◌++◌, length,
  take, drop, get_elem?, leb, le→leb, lt→ltb, if◌then◌else◌, arith, length-append, take-append,
  drop-append, drop-add, append_assoc, subst,
}
use toroidal_db.Base.Bytes.{
  Bytes, u32_mod, u64_mod, to_le, from_le, checked_add, length-to_le, from_le-to_le_u32,
  from_le-to_le_u64,
}

-- `bytes.get(off..off + n)`
unfoldable pub slice : Bytes → ℕ → ℕ → Option Bytes
slice bytes off n = if leb (off + n) (length bytes) then some (take n (drop off bytes)) else none

unfoldable pub try_read_u32 : Bytes → ℕ → Option ℕ
try_read_u32 bytes off = Option.map from_le (slice bytes off 4)

unfoldable pub try_read_u64 : Bytes → ℕ → Option ℕ
try_read_u64 bytes off = Option.map from_le (slice bytes off 8)

abbrev pub try_read_u8 : Bytes → ℕ → Option ℕ
try_read_u8 bytes off = get_elem? bytes off

-- The two that panic past the end of the bytes; their callers have checked the length.
unfoldable pub word32_at : Bytes → ℕ → ℕ
word32_at bytes off = from_le (take 4 (drop off bytes))

unfoldable pub word64_at : Bytes → ℕ → ℕ
word64_at bytes off = from_le (take 8 (drop off bytes))

-- `rest` is what the bytes has from the offset on.
pub record At (bytes : Bytes) (off : ℕ) (rest : Bytes) : Type 0 where
  pub here : drop off bytes ≡ rest
  pub inside : off + length rest ≡ length bytes
  pub fits : length bytes < u64_mod

pub At-start : (bytes : Bytes) → length bytes < u64_mod → At bytes 0 bytes
At-start bytes h = record { here = refl; inside = omega arith; fits = h }

pub At-next :
    {bytes : Bytes} {off : ℕ} (n : ℕ) (x rest : Bytes)
    → n ≡ length x
    → At bytes off (x ++ rest)
    → At bytes (off + n) rest
At-next {bytes} {off} n x rest e a = record {
  here = drop-add off n bytes ∙ ap (drop n) a.here ∙ drop-append x rest n e;
  inside = omega (arith, a.inside, length-append x rest);
  fits = a.fits;
}

pub slice-At :
    {bytes : Bytes} {off : ℕ} (n : ℕ) (x rest : Bytes)
    → n ≡ length x
    → At bytes off (x ++ rest)
    → slice bytes off n ≡ some x
unfolding slice
slice-At {bytes} {off} n x rest e a =
    let within : off + n ≤ length bytes = omega (arith, a.inside, length-append x rest) in
    rw (le→leb _ _ within) (ap some (ap (take n) a.here ∙ take-append x rest n e))

pub try_read_u32-At :
    {bytes : Bytes} {off : ℕ} (v : ℕ) (rest : Bytes)
    → v < u32_mod
    → At bytes off (to_le 4 v ++ rest)
    → try_read_u32 bytes off ≡ some v
unfolding try_read_u32
try_read_u32-At v rest h a =
    rw (slice-At 4 (to_le 4 v) rest (sym (length-to_le 4 v)) a) (ap some (from_le-to_le_u32 v h))

pub try_read_u64-At :
    {bytes : Bytes} {off : ℕ} (v : ℕ) (rest : Bytes)
    → v < u64_mod
    → At bytes off (to_le 8 v ++ rest)
    → try_read_u64 bytes off ≡ some v
unfolding try_read_u64
try_read_u64-At v rest h a =
    rw (slice-At 8 (to_le 8 v) rest (sym (length-to_le 8 v)) a) (ap some (from_le-to_le_u64 v h))

get_elem?-drop :
    (bytes : Bytes) (off : ℕ) (b : ℕ) (rest : Bytes)
    → drop off bytes ≡ b ∷ rest
    → get_elem? bytes off ≡ some b
get_elem?-drop [] zero b rest e = absurd (ground arith)
get_elem?-drop [] (suc off) b rest e = absurd (ground arith)
get_elem?-drop (x ∷ xs) zero b rest e = ground arith
get_elem?-drop (x ∷ xs) (suc off) b rest e = get_elem?-drop xs off b rest e

pub try_read_u8-At :
    {bytes : Bytes} {off : ℕ} (b : ℕ) (rest : Bytes)
    → At bytes off (b ∷ rest)
    → try_read_u8 bytes off ≡ some b
try_read_u8-At {bytes} {off} b rest a = get_elem?-drop bytes off b rest a.here

pub word32_at-At :
    {bytes : Bytes} {off : ℕ} (v : ℕ) (rest : Bytes)
    → v < u32_mod
    → At bytes off (to_le 4 v ++ rest)
    → word32_at bytes off ≡ v
unfolding word32_at
word32_at-At v rest h a =
    ap from_le (ap (take 4) a.here ∙ take-append (to_le 4 v) rest 4 (sym (length-to_le 4 v)))
    ∙ from_le-to_le_u32 v h

pub word64_at-At :
    {bytes : Bytes} {off : ℕ} (v : ℕ) (rest : Bytes)
    → v < u64_mod
    → At bytes off (to_le 8 v ++ rest)
    → word64_at bytes off ≡ v
unfolding word64_at
word64_at-At v rest h a =
    ap from_le (ap (take 8) a.here ∙ take-append (to_le 8 v) rest 8 (sym (length-to_le 8 v)))
    ∙ from_le-to_le_u64 v h

pub checked_add-At :
    {bytes : Bytes} {off : ℕ} (n : ℕ) (x rest : Bytes)
    → n ≡ length x
    → At bytes off (x ++ rest)
    → checked_add off n ≡ some (off + n)
unfolding checked_add
checked_add-At {bytes} {off} n x rest e a =
    let fits : off + n < u64_mod = omega (arith, a.inside, a.fits, length-append x rest) in
    rw (lt→ltb _ _ fits) refl

pub At-append :
    {bytes : Bytes} {off : ℕ} (x y z : Bytes)
    → At bytes off ((x ++ y) ++ z)
    → At bytes off (x ++ (y ++ z))
At-append {bytes} {off} x y z a = subst (λ t. At bytes off t) (append_assoc x y z) a

pub take-At :
    {bytes : Bytes} {off : ℕ} (n : ℕ) (x rest : Bytes)
    → n ≡ length x
    → At bytes off (x ++ rest)
    → take n (drop off bytes) ≡ x
take-At n x rest e a = ap (take n) a.here ∙ take-append x rest n e

-- What stands before another position is not behind it.
pub At-le :
    {bytes : Bytes} {a b : ℕ} (x rest : Bytes) → At bytes a (x ++ rest) → At bytes b rest → a ≤ b
At-le x rest p q = omega (arith, p.inside, q.inside, length-append x rest)

pub At-second :
    {bytes : Bytes} {off : ℕ} (n : ℕ) (x y z : Bytes)
    → n ≡ length x
    → At bytes off ((x ++ y) ++ z)
    → At bytes (off + n) (y ++ z)
At-second n x y z e a = At-next n x (y ++ z) e (At-append x y z a)
