-- ===== src/Cache/Contract.antt =====
-- crates/toroidal-store/cache/mod.rs: the trait BlockCache, as operations on the state of a cache, and what a
-- reader may rely on: a cache into which only valid blocks were put gives back valid blocks. `Cache` and
-- `NoCache` implement it.
use toroidal_db.Base.{ℕ, ◌≡◌, Option, none, some, arith}
use toroidal_db.Base.Bytes.{Bytes}
use toroidal_db.Cache.{BlockId, Cache, cache_get, cache_insert, invalidate_segment}
use toroidal_db.Cache.Coherent.{Filled, cache_get_sound}

pub record BlockCache (C : Type 0) : Type 0 where
  pub lookup : BlockId → C → Option Bytes × C
  pub store : BlockId → Bytes → C → C
  pub forget : ℕ → C → C

-- `Good` states of a cache, with respect to the valid blocks of the files.
pub record Lawful {C : Type 0} (cache : BlockCache C) (file : BlockId → Option Bytes)
    (Good : C → Type 0) : Type 0 where
  pub lookup_sound :
      (id : BlockId) (b : Bytes) (c : C)
      → Good c
      → (cache.lookup id c).0 ≡ some b
      → file id ≡ some b
  pub lookup_good : (id : BlockId) (c : C) → Good c → Good (cache.lookup id c).1
  pub store_good :
      (id : BlockId) (b : Bytes) (c : C) → file id ≡ some b → Good c → Good (cache.store id b c)
  pub forget_good : (segment_id : ℕ) (c : C) → Good c → Good (cache.forget segment_id c)

abbrev pub no_cache : BlockCache (Unit {0})
no_cache = record { lookup = λ id c. (none, c); store = λ id b c. c; forget = λ segment_id c. c }

abbrev pub lru_cache : (BlockId → ℕ) → BlockCache Cache
lru_cache hash = record {
  lookup = cache_get hash;
  store = cache_insert hash;
  forget = invalidate_segment;
}

pub no_cache-Lawful : (file : BlockId → Option Bytes) → Lawful no_cache file (λ c. Unit {0})
no_cache-Lawful file = record {
  lookup_sound = λ id b c g e. absurd (ground arith);
  lookup_good = λ id c g. tt;
  store_good = λ id b c e g. tt;
  forget_good = λ segment_id c g. tt;
}

pub lru_cache-Lawful :
    (hash : BlockId → ℕ) (file : BlockId → Option Bytes)
    → Lawful (lru_cache hash) file (Filled hash file)
lru_cache-Lawful hash file = record {
  lookup_sound = λ id b c g e. cache_get_sound hash file id b g e;
  lookup_good = λ id c g. Filled.got id g;
  store_good = λ id b c e g. Filled.inserted id b e g;
  forget_good = λ segment_id c g. Filled.invalidated segment_id g;
}
