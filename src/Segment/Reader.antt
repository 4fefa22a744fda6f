-- ===== src/Segment/Reader.antt =====
-- crates/toroidal-store/segment.rs: the reader of a segment. In Predecoded mode it reads the map that `open_with`
-- made; in BlockCached mode it decodes blocks that it takes from the cache, whose state is passed along.
pub mod Cached
use mathlib.Core.Option
use toroidal_db.Base.{
  ℕ, zero, suc, ◌+◌, ◌-◌, Bool, true, false, not, Option, none, some, List, [], ◌∷◌, ◌++◌, length,
  leb, ◌==◌, take, get_elem?, Message, storage, Result, ok, err, ◌>>=◌, ◌>>◌, ensure, ok_or,
  and_then, if◌then◌else◌,
}
use toroidal_db.Base.Bytes.{Bytes}
use toroidal_db.Base.Keys.{bytes_eq, bytes_lt}
use toroidal_db.Snapshot.{VersionedEntry}
use toroidal_db.MemTable.{
  Entries, VersionChain, chain_of, first, find_visible, in_range, all_entries,
}
use toroidal_db.Cache.{BlockId}
use toroidal_db.Cache.Contract.{BlockCache}
use toroidal_db.Segment.Bytes.{slice, word32_at}
use toroidal_db.Segment.Block.{decode_block}
use toroidal_db.Segment.Bloom.{BloomFilter, bloom_contains}
use toroidal_db.Segment.Index.{IndexEntry, Search, locate}

pub data SegmentReadMode : Type 0 where
  predecoded : SegmentReadMode
  block_cached : SegmentReadMode

pub record SegmentMeta : Type 0 where
  pub id : ℕ
  pub level : ℕ
  pub min_key : Bytes
  pub max_key : Bytes
  pub min_sequence : ℕ
  pub max_sequence : ℕ
  pub n_entries : ℕ

pub record SegmentReader : Type 0 where
  pub raw : Bytes
  pub map : List (Bytes × VersionChain)
  pub index : List IndexEntry
  pub bloom : BloomFilter
  pub meta : SegmentMeta
  pub read_mode : SegmentReadMode
  pub legacy_blocks : Bool

unfoldable pub get : SegmentReader → Bytes → Option VersionedEntry
get r key = and_then (chain_of key r.map) first

abbrev pub max_sequence : SegmentReader → ℕ
max_sequence r = r.meta.max_sequence

abbrev pub len : SegmentReader → ℕ
len r = r.meta.n_entries

abbrev pub is_empty : SegmentReader → Bool
is_empty r = r.meta.n_entries == 0

abbrev pub block_id : SegmentReader → IndexEntry → BlockId
block_id r e = record { segment_id = r.meta.id; offset = e.block_offset; len = e.block_size }

-- The filter of `scan_entries_predecoded`.
unfoldable pub in_keys :
    Option Bytes → Option Bytes → List (Bytes × VersionChain) → List (Bytes × VersionChain)
in_keys start end [] = []
in_keys start end ((k, chain) ∷ rest) =
    let more = in_keys start end rest in if in_range start end k then (k, chain) ∷ more else more

unfoldable pub scan_entries_predecoded : SegmentReader → Option Bytes → Option Bytes → Entries
scan_entries_predecoded r start end = all_entries (in_keys start end r.map)

unfoldable pub find_key : Bytes → Entries → Option VersionedEntry
find_key key [] = none
find_key key ((k, ve) ∷ rest) =
    let more = find_key key rest in if bytes_eq k key then some ve else more

-- The loop of `scan_entries_cached` over a block: `true` at the end when it has met the end of the range.
unfoldable pub scan_block : Bytes → Option Bytes → Entries → Entries × Bool
scan_block start end [] = ([], false)
scan_block start end ((k, ve) ∷ rest) =
    let (found, stopped) = scan_block start end rest in
    if bytes_lt k start
    then (found, stopped)
    else if elim end [ none ↦ false | some e ↦ not (bytes_lt k e) ]
    then ([], true)
    else ((k, ve) ∷ found, stopped)

-- `ok().flatten()`
abbrev pub found_or_none : Result (Option VersionedEntry) → Option VersionedEntry
found_or_none (ok o) = o
found_or_none (err e) = none

module _ (crc32 : Bytes → ℕ) where
  -- The checks of a block that is not in the cache.
  unfoldable pub verify_block : Bytes → ℕ → ℕ → Result Bytes
  verify_block raw start len = do
    block_bytes ← ok_or (slice raw start len) (storage Message.segment_block_out_of_file_bounds)
    ensure (leb 4 len) (storage Message.segment_block_too_small)
    ensure (word32_at block_bytes (len - 4) == crc32 (take (len - 4) block_bytes))
        (storage Message.segment_block_crc_mismatch)
    ok block_bytes

  module _ {C : Type 0} (cache : BlockCache C) where
    unfoldable pub fetch_block : SegmentReader → IndexEntry → C → Result Bytes × C
    fetch_block r e c =
        let (hit, c1) = cache.lookup (block_id r e) c in
        elim hit [
          | some b ↦ (ok b, c1)
          | none ↦ elim (verify_block r.raw e.block_offset e.block_size) [
            | ok b ↦ (ok b, cache.store (block_id r e) b c1)
            | err failure ↦ (err failure, c1)
          ]
        ]

    unfoldable pub read_block_cached : SegmentReader → ℕ → C → Result Bytes × C
    read_block_cached r block_idx c = elim (get_elem? r.index block_idx) [
      | none ↦ (err (storage Message.segment_block_index_out_of_bounds), c)
      | some e ↦ fetch_block r e c
    ]

    -- The loop of `scan_entries_cached`: `n` blocks from the block `bi` on.
    unfoldable pub scan_blocks :
        SegmentReader → Bytes → Option Bytes → ℕ → ℕ → C → Result Entries × C
    scan_blocks r start end zero bi c = (ok [], c)
    scan_blocks r start end (suc n) bi c =
        let (block, c1) = read_block_cached r bi c in
        elim block [
          | err failure ↦ (err failure, c1)
          | ok b ↦
              let (found, stopped) = scan_block start end (decode_block b r.legacy_blocks) in
              elim stopped [
                | true ↦ (ok found, c1)
                | false ↦
                    let (rest, c2) = scan_blocks r start end n (bi + 1) c1 in
                    (rest >>= (λ more. ok (found ++ more)), c2)
              ]
        ]

    module _ (binary_search_by : Search) where
      unfoldable pub get_cached : SegmentReader → Bytes → C → Result (Option VersionedEntry) × C
      get_cached r key c =
          if not (bloom_contains key r.bloom)
          then (ok none, c)
          else elim (locate binary_search_by r.index key) [
            | none ↦ (err (storage Message.segment_index_locate_returned_no_block), c)
            | some block_idx ↦
                let (block, c1) = read_block_cached r block_idx c in
                (block >>= (λ b. ok (find_key key (decode_block b r.legacy_blocks))), c1)
          ]

      unfoldable pub get_visible : SegmentReader → Bytes → ℕ → C → Option VersionedEntry × C
      get_visible r key seq c = elim r.read_mode [
        | SegmentReadMode.predecoded ↦ (and_then (chain_of key r.map) (find_visible seq), c)
        | SegmentReadMode.block_cached ↦
            let (found, c1) = get_cached r key c in
            (
              and_then (found_or_none found) (λ ve. if leb ve.sequence seq then some ve else none),
              c1,
            )
      ]

      unfoldable pub scan_entries_cached :
          SegmentReader → Option Bytes → Option Bytes → C → Result Entries × C
      scan_entries_cached r start end c =
          let start_key : Bytes = elim start [ none ↦ [] | some s ↦ s ] in
          let first_block : ℕ = elim (locate binary_search_by r.index start_key) [
            | none ↦ 0
            | some i ↦ i
          ] in
          scan_blocks r start_key end (length r.index - first_block) first_block c

      unfoldable pub scan_entries : SegmentReader → Option Bytes → Option Bytes → C → Entries × C
      scan_entries r start end c = elim r.read_mode [
        | SegmentReadMode.predecoded ↦ (scan_entries_predecoded r start end, c)
        | SegmentReadMode.block_cached ↦
            let (found, c1) = scan_entries_cached r start end c in
            (elim found [ ok entries ↦ entries | err e ↦ [] ], c1)
      ]
