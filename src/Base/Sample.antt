-- ===== src/Base/Sample.antt =====
-- A checksum for the runs of the Tests modules: it adds up the bytes.
use toroidal_db.Base.Bytes.{Bytes, u32_mod}
use Prim.Native.Nat.{ℕ, ◌+◌, ◌%◌, ◌<◌}
use mathlib.Core.List.{[], ◌∷◌}
use native.Mathlib.Omega.{arith}

abbrev pub sum : Bytes → ℕ
sum [] = 0
sum (x ∷ xs) = x + sum xs

abbrev pub checksum : Bytes → ℕ
checksum b = sum b % u32_mod

pub checksum_fits : (b : Bytes) → checksum b < u32_mod
checksum_fits b = omega arith
