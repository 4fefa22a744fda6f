-- ===== src/Cache/Shard.antt =====
-- crates/toroidal-store/cache/mod.rs: the laws of the map and of the order of a shard.
use toroidal_db.Base.{
  ◌≡◌, ◌≢◌, refl, ap, true, false, some, [], ◌∷◌, if◌then◌else◌, arith, inl, inr, ◌⊎◌, Bool-cases,
}
use toroidal_db.Base.Bytes.{Bytes}
use toroidal_db.Cache.{BlockId, Blocks, same_block, block_at, put_block, remove_block}

pub same_block_refl : (a : BlockId) → same_block a a ≡ true
same_block_refl a = ground arith

pub same_block-≡ : (a b : BlockId) → same_block a b ≡ true → a ≡ b
same_block-≡ a b h = ground arith

pub Block-cases :
    (a b : BlockId) → ((a ≡ b) × (same_block a b ≡ true)) ⊎ ((a ≢ b) × (same_block a b ≡ false))
Block-cases a b = elim (Bool-cases (same_block a b)) [
  | inl e ↦ inl (same_block-≡ a b e, e)
  | inr e ↦ inr (λ q. absurd (ground (arith, ap (same_block a) q, same_block_refl a)), e)
]

pub block_at-put_block :
    (j id : BlockId) (b : Bytes) (m : Blocks)
    → block_at j (put_block id b m) ≡ (if same_block id j then some b else block_at j m)
unfolding block_at put_block
block_at-put_block j id b [] = refl
block_at-put_block j id b ((k, c) ∷ m) = let rest = block_at-put_block j id b m in ground arith

pub block_at-remove_block :
    (j id : BlockId) (m : Blocks)
    → same_block id j ≡ false
    → block_at j (remove_block id m) ≡ block_at j m
unfolding block_at remove_block
block_at-remove_block j id [] h = refl
block_at-remove_block j id ((k, c) ∷ m) h =
    let rest = block_at-remove_block j id m h in ground arith
