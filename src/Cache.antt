-- ===== src/Cache.antt =====
-- crates/toroidal-store/cache/mod.rs: the block cache. A shard is a map with the order of use of its
-- blocks, oldest first; every operation of a shard holds its lock. The hash that chooses a shard is the
-- standard library's: it is the parameter `hash`.
pub mod Shard
pub mod Bounds
pub mod Coherent
pub mod Contract
mod Tests
use toroidal_db.Base.{
  ℕ, zero, suc, ◌+◌, ◌-◌, ◌/◌, ◌%◌, ◌^◌, Bool, true, false, not, ◌&&◌, Option, none, some, List, [],
  ◌∷◌, ◌++◌, ltb, ◌==◌, length, if◌then◌else◌,
}
use toroidal_db.Base.Bytes.{Bytes, u64_mod}

pub record BlockId : Type 0 where
  pub segment_id : ℕ
  pub offset : ℕ
  pub len : ℕ

abbrev pub same_block : BlockId → BlockId → Bool
same_block a b = (a.segment_id == b.segment_id) && (a.offset == b.offset) && (a.len == b.len)

-- The map: an association list with one entry for an id.
abbrev pub Blocks : Type 0
Blocks = List (BlockId × Bytes)

unfoldable pub block_at : BlockId → Blocks → Option Bytes
block_at id [] = none
block_at id ((j, b) ∷ m) = if same_block j id then some b else block_at id m

unfoldable pub put_block : BlockId → Bytes → Blocks → Blocks
put_block id b [] = (id, b) ∷ []
put_block id b ((j, c) ∷ m) =
    let rest = put_block id b m in if same_block j id then (j, b) ∷ m else (j, c) ∷ rest

unfoldable pub remove_block : BlockId → Blocks → Blocks
remove_block id [] = []
remove_block id ((j, c) ∷ m) =
    let rest = remove_block id m in if same_block j id then m else (j, c) ∷ rest

-- `LruShard` with its `LruInner`.
pub record LruShard : Type 0 where
  pub map : Blocks
  pub order : List BlockId
  pub capacity : ℕ
  pub resident : ℕ
  pub hits : ℕ
  pub misses : ℕ
  pub insertions : ℕ
  pub evictions : ℕ
  pub bytes_evicted : ℕ

abbrev pub new_shard : ℕ → LruShard
new_shard capacity = record {
  map = [];
  order = [];
  capacity = capacity;
  resident = 0;
  hits = 0;
  misses = 0;
  insertions = 0;
  evictions = 0;
  bytes_evicted = 0;
}

-- `position` and `VecDeque::remove`: the first occurrence goes.
unfoldable pub remove_id : BlockId → List BlockId → List BlockId
remove_id id [] = []
remove_id id (j ∷ js) = let rest = remove_id id js in if same_block j id then js else j ∷ rest

unfoldable pub has_id : BlockId → List BlockId → Bool
has_id id [] = false
has_id id (j ∷ js) = if same_block j id then true else has_id id js

-- The id becomes the most recently used one, if it is in the order.
unfoldable pub touch : BlockId → List BlockId → List BlockId
touch id order = if has_id id order then remove_id id order ++ (id ∷ []) else order

unfoldable pub shard_get : BlockId → LruShard → Option Bytes × LruShard
shard_get id s = elim (block_at id s.map) [
  | some b ↦ (some b, record s { order = touch id s.order; hits = (s.hits + 1) % u64_mod })
  | none ↦ (none, record s { misses = (s.misses + 1) % u64_mod })
]

-- The body of the loop that evicts, on the id that was taken from the front.
unfoldable pub evict_one : BlockId → LruShard → LruShard
evict_one id s = elim (block_at id s.map) [
  | none ↦ s
  | some b ↦ record s {
    map = remove_block id s.map;
    resident = s.resident - length b;
    evictions = (s.evictions + 1) % u64_mod;
    bytes_evicted = (s.bytes_evicted + length b) % u64_mod;
  }
]

-- The loop, over the ids that are left in the order.
unfoldable pub evict : ℕ → List BlockId → LruShard → LruShard
evict block_len [] s = record s { order = [] }
evict block_len (id ∷ order) s = elim (ltb s.capacity ((s.resident + block_len) % u64_mod)) [
  | true ↦ evict block_len order (evict_one id s)
  | false ↦ record s { order = id ∷ order }
]

-- What `insert` does behind the loop.
unfoldable pub store_block : BlockId → Bytes → LruShard → LruShard
store_block id b s = if ltb s.capacity ((s.resident + length b) % u64_mod) then s else record s {
  map = put_block id b s.map;
  order = s.order ++ (id ∷ []);
  resident = (s.resident + length b) % u64_mod;
  insertions = (s.insertions + 1) % u64_mod;
}

unfoldable pub shard_insert : BlockId → Bytes → LruShard → LruShard
shard_insert id b s = store_block id b (evict (length b) s.order s)

-- `retain` on the order and on the map.
unfoldable pub retain_ids : ℕ → List BlockId → List BlockId
retain_ids segment_id [] = []
retain_ids segment_id (j ∷ js) =
    let rest = retain_ids segment_id js in if j.segment_id == segment_id then rest else j ∷ rest

unfoldable pub retain_blocks : ℕ → Blocks → Blocks
retain_blocks segment_id [] = []
retain_blocks segment_id ((j, b) ∷ m) =
    let rest = retain_blocks segment_id m in
    if j.segment_id == segment_id then rest else (j, b) ∷ rest

-- The bytes of all blocks, as `sum` adds them up.
unfoldable pub sum_blocks : Blocks → ℕ
sum_blocks [] = 0
sum_blocks ((j, b) ∷ m) = (length b + sum_blocks m) % u64_mod

unfoldable pub shard_invalidate_segment : ℕ → LruShard → LruShard
shard_invalidate_segment segment_id s =
    let kept = retain_blocks segment_id s.map in
    record s { map = kept; order = retain_ids segment_id s.order; resident = sum_blocks kept }

pub record Cache : Type 0 where
  pub shards : List LruShard
  pub shard_bits : ℕ

unfoldable pub repeat_shard : ℕ → LruShard → List LruShard
repeat_shard zero s = []
repeat_shard (suc n) s = s ∷ repeat_shard n s

-- `Cache::new` with 2 ^ `bits` shards; any other count is refused by an assertion.
unfoldable pub new_cache : ℕ → ℕ → Cache
new_cache capacity_bytes bits = record {
  shards = repeat_shard (2 ^ bits) (new_shard (capacity_bytes / 2 ^ bits));
  shard_bits = bits;
}

unfoldable pub invalidate_shards : ℕ → List LruShard → List LruShard
invalidate_shards segment_id [] = []
invalidate_shards segment_id (s ∷ ss) =
    shard_invalidate_segment segment_id s ∷ invalidate_shards segment_id ss

unfoldable pub invalidate_segment : ℕ → Cache → Cache
invalidate_segment segment_id c = record c { shards = invalidate_shards segment_id c.shards }

pub record CacheStats : Type 0 where
  pub hits : ℕ
  pub misses : ℕ
  pub insertions : ℕ
  pub evictions : ℕ
  pub bytes_resident : ℕ
  pub bytes_evicted : ℕ

abbrev pub no_stats : CacheStats
no_stats = record {
  hits = 0;
  misses = 0;
  insertions = 0;
  evictions = 0;
  bytes_resident = 0;
  bytes_evicted = 0;
}

unfoldable pub stats : List LruShard → CacheStats
stats [] = no_stats
stats (s ∷ ss) =
    let t = stats ss in
    record {
      hits = (s.hits + t.hits) % u64_mod;
      misses = (s.misses + t.misses) % u64_mod;
      insertions = (s.insertions + t.insertions) % u64_mod;
      evictions = (s.evictions + t.evictions) % u64_mod;
      bytes_resident = (s.resident + t.bytes_resident) % u64_mod;
      bytes_evicted = (s.bytes_evicted + t.bytes_evicted) % u64_mod;
    }

-- The operation on the shard with the number `i`; an index past the end panics, which does not occur.
unfoldable pub get_from : ℕ → BlockId → List LruShard → Option Bytes × List LruShard
get_from i id [] = (none, [])
get_from zero id (s ∷ ss) = let (r, s') = shard_get id s in (r, s' ∷ ss)
get_from (suc i) id (s ∷ ss) = let (r, ss') = get_from i id ss in (r, s ∷ ss')

unfoldable pub insert_at : ℕ → BlockId → Bytes → List LruShard → List LruShard
insert_at i id b [] = []
insert_at zero id b (s ∷ ss) = shard_insert id b s ∷ ss
insert_at (suc i) id b (s ∷ ss) = s ∷ insert_at i id b ss

module _ (hash : BlockId → ℕ) where
  -- `Cache::shard`: the high bits of the hash.
  unfoldable pub shard_of : Cache → BlockId → ℕ
  shard_of c id =
      if c.shard_bits == 0 then 0 else (hash id / 2 ^ (64 - c.shard_bits)) % length c.shards

  unfoldable pub cache_get : BlockId → Cache → Option Bytes × Cache
  cache_get id c =
      let (r, ss) = get_from (shard_of c id) id c.shards in (r, record c { shards = ss })

  unfoldable pub cache_insert : BlockId → Bytes → Cache → Cache
  cache_insert id b c = record c { shards = insert_at (shard_of c id) id b c.shards }
