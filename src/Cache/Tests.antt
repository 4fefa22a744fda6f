-- ===== src/Cache/Tests.antt =====
-- Runs of the block cache of crates/toroidal-store/cache/mod.rs: two blocks that fill a shard, and a third
-- one that evicts the first.
use toroidal_db.Base.{
  ℕ, ◌+◌, ◌%◌, ◌++◌, ltb, false, ◌*◌, ◌^◌, ◌≡◌, refl, Option, none, some, [], ◌∷◌, arith,
}
use toroidal_db.Base.Bytes.{Bytes, u64_mod}
use toroidal_db.Cache.{
  BlockId, LruShard, Cache, new_shard, shard_insert, shard_get, new_cache, cache_insert, cache_get,
  repeat_shard, shard_of, insert_at, get_from, evict, evict_one, store_block, put_block,
  remove_block, block_at, touch, has_id, remove_id,
}
use toroidal_db.Cache.Bounds.{held, IsBounded, Reached, Reached-IsBounded, shard_insert_again}
use toroidal_db.Cache.Coherent.{Filled, cache_get_sound}

abbrev block_id : ℕ → BlockId
block_id n = record { segment_id = 1; offset = n; len = 3 }

abbrev block_of : ℕ → Bytes
block_of n = n ∷ n ∷ n ∷ []

abbrev two : LruShard
two = shard_insert (block_id 7) (block_of 7) (shard_insert (block_id 5) (block_of 5) (new_shard 7))

abbrev three : LruShard
three = shard_insert (block_id 9) (block_of 9) (shard_get (block_id 5) two).1

-- The least recently used block went.
three_run :
    ((shard_get (block_id 7) three).0 ≡ none)
    × ((shard_get (block_id 5) three).0 ≡ some (block_of 5))
    × (three.resident ≡ 6)
unfolding shard_insert shard_get evict evict_one store_block put_block remove_block block_at touch
    has_id remove_id
three_run = (refl, refl, refl)

three-Reached : Reached 7 three
three-Reached = Reached.inserted (block_id 9) (block_of 9) (omega arith) (
    Reached.got (block_id 5) (
      Reached.inserted (block_id 7) (block_of 7) (omega arith)
        (Reached.inserted (block_id 5) (block_of 5) (omega arith) Reached.fresh)))

Reached-IsBounded_example : IsBounded 7 three
Reached-IsBounded_example = Reached-IsBounded (omega arith) three-Reached

abbrev file : BlockId → Option Bytes
file id = some (block_of id.offset)

abbrev high : BlockId → ℕ
high id = id.offset * 2 ^ 62

abbrev filled : Cache
filled = cache_insert high (block_id 1) (block_of 1) (new_cache 28 2)

hit : (cache_get high (block_id 1) filled).0 ≡ some (block_of 1)
unfolding cache_get cache_insert shard_of new_cache repeat_shard insert_at get_from shard_insert
    shard_get evict store_block put_block block_at
hit = refl

cache_get_sound_example : file (block_id 1) ≡ some (block_of 1)
cache_get_sound_example =
    cache_get_sound high file (block_id 1) (block_of 1)
      (Filled.inserted (block_id 1) (block_of 1) refl (Filled.fresh 28 2)) hit

abbrev one : LruShard
one = shard_insert (block_id 5) (block_of 5) (new_shard 7)

one_room : ltb one.capacity ((one.resident + 3) % u64_mod) ≡ false
unfolding shard_insert evict store_block put_block
one_room = refl

one_present : block_at (block_id 5) one.map ≡ some (block_of 5)
unfolding shard_insert evict store_block put_block block_at
one_present = refl

-- The shard is full of one block of three bytes, which it counts twice.
shard_insert_again_example :
    (held (shard_insert (block_id 5) (block_of 5) one).map ≡ held one.map)
    × ((shard_insert (block_id 5) (block_of 5) one).resident ≡ (one.resident + 3) % u64_mod)
    × ((shard_insert (block_id 5) (block_of 5) one).order ≡ one.order ++ (block_id 5 ∷ []))
shard_insert_again_example = shard_insert_again (block_id 5) (block_of 5) one one_room one_present
