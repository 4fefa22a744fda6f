-- ===== src/Cache/Coherent.antt =====
-- crates/toroidal-store/cache/mod.rs: a cache into which only blocks of the files were put.
use toroidal_db.Base.{
  ℕ, zero, suc, ◌+◌, ◌/◌, ◌^◌, ◌%◌, ◌≡◌, ap, ◌∙◌, Option, some, List, [], ◌∷◌, ltb, ◌==◌, length,
  arith, inl, inr, Bool-cases, Option-cases,
}
use toroidal_db.Base.Bytes.{Bytes, u64_mod}
use toroidal_db.Cache.{
  BlockId, Blocks, LruShard, Cache, same_block, block_at, put_block, remove_block, shard_get,
  evict_one, evict, store_block, shard_insert, retain_blocks, shard_invalidate_segment, get_from,
  insert_at, invalidate_shards, shard_of, cache_get, cache_insert, invalidate_segment, new_shard,
  new_cache, repeat_shard,
}
use toroidal_db.Cache.Shard.{same_block-≡}

module _ (file : BlockId → Option Bytes) where
  -- All blocks of a map are those of the files: `file` has the contents of a block that is valid.
  abbrev pub Holds : Blocks → Type 0
  Holds [] = Unit
  Holds ((id, b) ∷ m) = (file id ≡ some b) × Holds m

  block_at-Holds :
      (id : BlockId) (b : Bytes) (m : Blocks) → Holds m → block_at id m ≡ some b → file id ≡ some b
  unfolding block_at
  block_at-Holds id b [] h e = absurd (ground arith)
  block_at-Holds id b ((j, c) ∷ m) (q, h) e = elim (Bool-cases (same_block j id)) [
    | inl t ↦ let same = same_block-≡ j id t in ground (arith, ap file same)
    | inr t ↦ block_at-Holds id b m h (ground arith)
  ]

  put_block-Holds :
      (id : BlockId) (b : Bytes) (m : Blocks)
      → file id ≡ some b
      → Holds m
      → Holds (put_block id b m)
  unfolding put_block
  put_block-Holds id b [] e h = (e, tt)
  put_block-Holds id b ((j, c) ∷ m) e (q, h) = elim (Bool-cases (same_block j id)) [
    | inl t ↦ rw t (ap file (same_block-≡ j id t) ∙ e, h)
    | inr t ↦ rw t (q, put_block-Holds id b m e h)
  ]

  remove_block-Holds : (id : BlockId) (m : Blocks) → Holds m → Holds (remove_block id m)
  unfolding remove_block
  remove_block-Holds id [] h = tt
  remove_block-Holds id ((j, c) ∷ m) (q, h) = elim (Bool-cases (same_block j id)) [
    | inl t ↦ rw t h
    | inr t ↦ rw t (q, remove_block-Holds id m h)
  ]

  retain_blocks-Holds : (seg : ℕ) (m : Blocks) → Holds m → Holds (retain_blocks seg m)
  unfolding retain_blocks
  retain_blocks-Holds seg [] h = tt
  retain_blocks-Holds seg ((j, c) ∷ m) (q, h) = elim (Bool-cases (j.segment_id == seg)) [
    | inl t ↦ rw t (retain_blocks-Holds seg m h)
    | inr t ↦ rw t (q, retain_blocks-Holds seg m h)
  ]

  evict_one-Holds : (id : BlockId) (s : LruShard) → Holds s.map → Holds (evict_one id s).map
  unfolding evict_one
  evict_one-Holds id s h = elim (Option-cases (block_at id s.map)) [
    | inl e ↦ rw (evict_one, e) h
    | inr (b, e) ↦ rw (evict_one, e) (remove_block-Holds id s.map h)
  ]

  evict-Holds :
      (len : ℕ) (order : List BlockId) (s : LruShard) → Holds s.map → Holds (evict len order s).map
  unfolding evict
  evict-Holds len [] s h = h
  evict-Holds len (id ∷ order) s h =
      elim (Bool-cases (ltb s.capacity ((s.resident + len) % u64_mod))) [
        | inl full ↦
            rw (evict, full) (evict-Holds len order (evict_one id s) (evict_one-Holds id s h))
        | inr room ↦ rw (evict, room) h
      ]

  shard_insert-Holds :
      (id : BlockId) (b : Bytes) (s : LruShard)
      → file id ≡ some b
      → Holds s.map
      → Holds (shard_insert id b s).map
  unfolding shard_insert store_block
  shard_insert-Holds id b s e h =
      let v = evict (length b) s.order s in
      let hv = evict-Holds (length b) s.order s h in
      elim (Bool-cases (ltb v.capacity ((v.resident + length b) % u64_mod))) [
        | inl full ↦ rw full hv
        | inr room ↦ rw room (put_block-Holds id b v.map e hv)
      ]

  shard_get-Holds :
      (id : BlockId) (s : LruShard)
      → Holds s.map
      → Holds (shard_get id s).1.map
        × ((b : Bytes) → (shard_get id s).0 ≡ some b → file id ≡ some b)
  unfolding shard_get
  shard_get-Holds id s h = elim (Option-cases (block_at id s.map)) [
    | inl e ↦ rw (shard_get, e) (h, λ b q. absurd (cc))
    | inr (c, e) ↦ rw (shard_get, e) (h, λ b q. block_at-Holds id b s.map h (cc))
  ]

  shard_invalidate_segment-Holds :
      (seg : ℕ) (s : LruShard) → Holds s.map → Holds (shard_invalidate_segment seg s).map
  unfolding shard_invalidate_segment
  shard_invalidate_segment-Holds seg s h = retain_blocks-Holds seg s.map h

  -- The same of all shards.
  abbrev pub AllHold : List LruShard → Type 0
  AllHold [] = Unit
  AllHold (s ∷ ss) = Holds s.map × AllHold ss

  pub repeat_shard-AllHold : (n : ℕ) (s : LruShard) → Holds s.map → AllHold (repeat_shard n s)
  unfolding repeat_shard
  repeat_shard-AllHold zero s h = tt
  repeat_shard-AllHold (suc n) s h = (h, repeat_shard-AllHold n s h)

  insert_at-AllHold :
      (i : ℕ) (id : BlockId) (b : Bytes) (ss : List LruShard)
      → file id ≡ some b
      → AllHold ss
      → AllHold (insert_at i id b ss)
  unfolding insert_at
  insert_at-AllHold i id b [] e h = tt
  insert_at-AllHold zero id b (s ∷ ss) e (h, hs) = (shard_insert-Holds id b s e h, hs)
  insert_at-AllHold (suc i) id b (s ∷ ss) e (h, hs) = (h, insert_at-AllHold i id b ss e hs)

  get_from-AllHold :
      (i : ℕ) (id : BlockId) (ss : List LruShard)
      → AllHold ss
      → AllHold (get_from i id ss).1
        × ((b : Bytes) → (get_from i id ss).0 ≡ some b → file id ≡ some b)
  unfolding get_from
  get_from-AllHold i id [] h = (tt, λ b q. absurd (ground arith))
  get_from-AllHold zero id (s ∷ ss) (h, hs) =
      let (kept, sound) = shard_get-Holds id s h in ((kept, hs), sound)
  get_from-AllHold (suc i) id (s ∷ ss) (h, hs) =
      let (kept, sound) = get_from-AllHold i id ss hs in ((h, kept), sound)

  invalidate_shards-AllHold :
      (seg : ℕ) (ss : List LruShard) → AllHold ss → AllHold (invalidate_shards seg ss)
  unfolding invalidate_shards
  invalidate_shards-AllHold seg [] h = tt
  invalidate_shards-AllHold seg (s ∷ ss) (h, hs) =
      (shard_invalidate_segment-Holds seg s h, invalidate_shards-AllHold seg ss hs)

module _ (hash : BlockId → ℕ) (file : BlockId → Option Bytes) where
  -- The states of a cache that got no other blocks than valid ones of the files.
  pub data Filled : Cache → Type 0 where
    fresh : (capacity bits : ℕ) → Filled (new_cache capacity bits)
    inserted :
        {c : Cache} (id : BlockId) (b : Bytes)
        → file id ≡ some b
        → Filled c
        → Filled (cache_insert hash id b c)
    got : {c : Cache} (id : BlockId) → Filled c → Filled (cache_get hash id c).1
    invalidated : {c : Cache} (segment_id : ℕ) → Filled c → Filled (invalidate_segment segment_id c)

  Filled-AllHold : {c : Cache} → Filled c → AllHold file c.shards
  unfolding new_cache cache_insert cache_get invalidate_segment
  Filled-AllHold (Filled.fresh capacity bits) =
      repeat_shard-AllHold file (2 ^ bits) (new_shard (capacity / 2 ^ bits)) tt
  Filled-AllHold (Filled.inserted {c = c} id b e r) =
      insert_at-AllHold file (shard_of hash c id) id b c.shards e (Filled-AllHold r)
  Filled-AllHold (Filled.got {c = c} id r) =
      (get_from-AllHold file (shard_of hash c id) id c.shards (Filled-AllHold r)).0
  Filled-AllHold (Filled.invalidated {c = c} seg r) =
      invalidate_shards-AllHold file seg c.shards (Filled-AllHold r)

  -- A cache that was filled by insertions of valid blocks of the files only, with reads, evictions and
  -- invalidations of segments among them in any order, gives for an id only the block of that id.
  pub cache_get_sound :
      {c : Cache} (id : BlockId) (b : Bytes)
      → Filled c
      → (cache_get hash id c).0 ≡ some b
      → file id ≡ some b
  unfolding cache_get
  cache_get_sound {c} id b r e =
      (get_from-AllHold file (shard_of hash c id) id c.shards (Filled-AllHold r)).1 b e
