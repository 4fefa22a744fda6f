-- ===== src/Cache/Bounds.antt =====
-- crates/toroidal-store/cache/mod.rs: a shard never holds more bytes than its capacity.
use toroidal_db.Base.{
  ℕ, ◌+◌, ◌%◌, ◌≡◌, ◌≤◌, ◌<◌, refl, false, some, List, [], ◌∷◌, ◌++◌, ltb, length, arith, inl, inr,
  Bool-cases, Option-cases,
}
use toroidal_db.Base.Bytes.{Bytes, u64_mod}
use toroidal_db.Cache.{
  BlockId, Blocks, LruShard, same_block, new_shard, block_at, put_block, remove_block, shard_get,
  evict_one, evict, store_block, shard_insert, retain_blocks, sum_blocks, shard_invalidate_segment,
}

-- The bytes of the blocks that are held.
unfoldable pub held : Blocks → ℕ
held [] = 0
held ((id, b) ∷ m) = length b + held m

pub held-remove_block :
    (id : BlockId) (b : Bytes) (m : Blocks)
    → block_at id m ≡ some b
    → held (remove_block id m) + length b ≡ held m
unfolding held remove_block block_at
held-remove_block id b [] h = absurd (ground arith)
held-remove_block id b ((j, c) ∷ m) h = elim (Bool-cases (same_block j id)) [
  | inl e ↦ ground arith
  | inr e ↦ let rest = held-remove_block id b m (ground arith) in ground arith
]

held-put_block :
    (id : BlockId) (b : Bytes) (m : Blocks) → held (put_block id b m) ≤ held m + length b
unfolding held put_block
held-put_block id b [] = omega arith
held-put_block id b ((j, c) ∷ m) = let rest = held-put_block id b m in ground arith

held-retain_blocks : (seg : ℕ) (m : Blocks) → held (retain_blocks seg m) ≤ held m
unfolding held retain_blocks
held-retain_blocks seg [] = omega arith
held-retain_blocks seg ((j, c) ∷ m) = let rest = held-retain_blocks seg m in ground arith

sum_blocks-held : (m : Blocks) → held m < u64_mod → sum_blocks m ≡ held m
unfolding held sum_blocks
sum_blocks-held [] h = refl
sum_blocks-held ((j, c) ∷ m) h = let rest = sum_blocks-held m (omega arith) in omega arith

-- The blocks of a shard take at most the bytes that it counts, and these are within its capacity.
pub record IsBounded (cap : ℕ) (s : LruShard) : Type 0 where
  pub capacity_lem : s.capacity ≡ cap
  pub counted : held s.map ≤ s.resident
  pub within : s.resident ≤ s.capacity

evict_one-IsBounded :
    (cap : ℕ) (id : BlockId) (s : LruShard) → IsBounded cap s → IsBounded cap (evict_one id s)
unfolding evict_one
evict_one-IsBounded cap id s v = elim (Option-cases (block_at id s.map)) [
  | inl e ↦ rw (evict_one, e) v
  | inr (b, e) ↦
      let less = held-remove_block id b s.map e in
      rw (evict_one, e)
        (record { capacity_lem = v.capacity_lem; counted = omega arith; within = omega arith })
]

evict-IsBounded :
    (cap len : ℕ) (order : List BlockId) (s : LruShard)
    → IsBounded cap s
    → IsBounded cap (evict len order s)
unfolding evict
evict-IsBounded cap len [] s v = record {
  capacity_lem = v.capacity_lem;
  counted = v.counted;
  within = v.within;
}
evict-IsBounded cap len (id ∷ order) s v =
    elim (Bool-cases (ltb s.capacity ((s.resident + len) % u64_mod))) [
      | inl full ↦
          rw (evict, full)
            (evict-IsBounded cap len order (evict_one id s) (evict_one-IsBounded cap id s v))
      | inr room ↦
          rw (evict, room)
            (record { capacity_lem = v.capacity_lem; counted = v.counted; within = v.within })
    ]

store_block-IsBounded :
    (cap : ℕ) (id : BlockId) (b : Bytes) (s : LruShard)
    → cap + length b < u64_mod
    → IsBounded cap s
    → IsBounded cap (store_block id b s)
unfolding store_block
store_block-IsBounded cap id b s h v =
    elim (Bool-cases (ltb s.capacity ((s.resident + length b) % u64_mod))) [
      | inl full ↦ rw full v
      | inr room ↦
          let more = held-put_block id b s.map in
          let fits : (s.resident + length b) % u64_mod ≤ s.capacity = grind arith in
          rw room (record {
            capacity_lem = v.capacity_lem;
            counted = omega (arith, v.capacity_lem);
            within = fits;
          })
    ]

shard_get-IsBounded :
    (cap : ℕ) (id : BlockId) (s : LruShard) → IsBounded cap s → IsBounded cap (shard_get id s).1
unfolding shard_get
shard_get-IsBounded cap id s v = elim (Option-cases (block_at id s.map)) [
  | inl e ↦
      rw (shard_get, e)
        (record { capacity_lem = v.capacity_lem; counted = v.counted; within = v.within })
  | inr (b, e) ↦
      rw (shard_get, e)
        (record { capacity_lem = v.capacity_lem; counted = v.counted; within = v.within })
]

-- The states of a shard: any sequence of its operations, of blocks whose lengths leave the sum with
-- the capacity below 2^64.
pub data Reached (cap : ℕ) : LruShard → Type 0 where
  fresh : Reached cap (new_shard cap)
  inserted :
      {s : LruShard} (id : BlockId) (b : Bytes)
      → cap + length b < u64_mod
      → Reached cap s
      → Reached cap (shard_insert id b s)
  got : {s : LruShard} (id : BlockId) → Reached cap s → Reached cap (shard_get id s).1
  invalidated :
      {s : LruShard} (segment_id : ℕ)
      → Reached cap s
      → Reached cap (shard_invalidate_segment segment_id s)

-- In every state of a shard the bytes that it holds are at most those that it counts, and these are at
-- most its capacity. The blocks may have been inserted more than once.
pub Reached-IsBounded : {cap : ℕ} {s : LruShard} → cap < u64_mod → Reached cap s → IsBounded cap s
unfolding shard_insert shard_invalidate_segment held
Reached-IsBounded h Reached.fresh = record {
  capacity_lem = refl;
  counted = omega arith;
  within = omega arith;
}
Reached-IsBounded {cap} h (Reached.inserted {s = s} id b fits r) =
    store_block-IsBounded cap id b _ fits
      (evict-IsBounded cap (length b) s.order s (Reached-IsBounded h r))
Reached-IsBounded {cap} h (Reached.got {s = s} id r) =
    shard_get-IsBounded cap id s (Reached-IsBounded h r)
Reached-IsBounded {cap} h (Reached.invalidated {s = s} seg r) =
    let v = Reached-IsBounded h r in
    let less = held-retain_blocks seg s.map in
    let sum = sum_blocks-held (retain_blocks seg s.map) (omega (arith, v.capacity_lem)) in
    record { capacity_lem = v.capacity_lem; counted = omega arith; within = omega arith }

held-put_block_again :
    (id : BlockId) (b c : Bytes) (m : Blocks)
    → block_at id m ≡ some c
    → length c ≡ length b
    → held (put_block id b m) ≡ held m
unfolding held put_block block_at
held-put_block_again id b c [] h e = absurd (ground arith)
held-put_block_again id b c ((j, d) ∷ m) h e = elim (Bool-cases (same_block j id)) [
  | inl t ↦ ground arith
  | inr t ↦ let rest = held-put_block_again id b c m (ground arith) e in ground arith
]

evict_room :
    (len : ℕ) (order : List BlockId) (s : LruShard)
    → ltb s.capacity ((s.resident + len) % u64_mod) ≡ false
    → evict len order s ≡ record s { order = order }
unfolding evict
evict_room len [] s h = refl
evict_room len (id ∷ order) s h = rw (evict, h) refl

-- When a shard has room for a block that it already holds, and the block is inserted again, the shard holds as many
-- bytes as before but counts those of the block a second time.
pub shard_insert_again :
    (id : BlockId) (b : Bytes) (s : LruShard)
    → ltb s.capacity ((s.resident + length b) % u64_mod) ≡ false
    → block_at id s.map ≡ some b
    → (held (shard_insert id b s).map ≡ held s.map)
      × ((shard_insert id b s).resident ≡ (s.resident + length b) % u64_mod)
      × ((shard_insert id b s).order ≡ s.order ++ (id ∷ []))
unfolding shard_insert store_block
shard_insert_again id b s room e =
    rw (evict_room (length b) s.order s room, room)
      (held-put_block_again id b b s.map e refl, refl, refl)
