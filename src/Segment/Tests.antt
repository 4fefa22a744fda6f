-- ===== src/Segment/Tests.antt =====
-- Runs of the segment of crates/toroidal-store/segment.rs: a table with three writes of two keys.
use toroidal_db.Base.{
  ℕ, ◌+◌, ◌*◌, ◌^◌, ◌≡◌, ◌<◌, refl, false, Option, none, some, List, [], ◌∷◌, length, ok, err,
  arith,
}
use toroidal_db.Base.Bytes.{Bytes, to_le, from_le, checked_add}
use toroidal_db.Base.Keys.{bytes_eq, bytes_lt}
use toroidal_db.Base.Sample.{checksum, checksum_fits}
use toroidal_db.Snapshot.{value_version}
use toroidal_db.MemTable.{
  Entries, get_entry, push_version, upsert, scan_all_versions, version_before, all_entries,
  chain_entries,
}
use toroidal_db.MemTable.Sort.Insertion.{insertion_sort, insert_before, insertion_sort-Sorts}
use toroidal_db.MemTable.Reads.{table}
use toroidal_db.Cache.{
  BlockId, Cache, new_cache, cache_get, cache_insert, repeat_shard, shard_of, insert_at, get_from,
  shard_insert, shard_get, evict, store_block, put_block, block_at,
}
use toroidal_db.Cache.Coherent.{Filled}
use toroidal_db.Cache.Contract.{no_cache, lru_cache, lru_cache-Lawful}
use toroidal_db.Segment.Sample.{
  key_a, key_b, writes, writes-AllFit, writes-Descends, bits_of, hashes_of, front_search,
  front_search-Searches,
}
use toroidal_db.Segment.Bytes.{slice, try_read_u32, try_read_u64, word32_at}
use toroidal_db.Segment.Block.{
  encode_block, decode_block, decode_entries, decode_value, decode_kind, decode_bytes,
  entries_bytes, block_entry, value_bytes,
}
use toroidal_db.Segment.Block.RoundTrip.{decode_block-encode_block}
use toroidal_db.Segment.Bloom.{
  bloom_contains, has_bits, has_bit, insert_keys, new_bloom, bloom_insert, set_bits, set_byte,
  bit_index, sip_hash, sip_chunks, sip_chunk, sip_round, zeros,
}
use toroidal_db.Segment.Bloom.Members.{AllPass, segment_bloom-AllPass}
use toroidal_db.Segment.Index.{IndexEntry, locate, compare_first}
use toroidal_db.Segment.Index.Locate.{IsAscending, scan_locate, locate-scan_locate}
use toroidal_db.Segment.Reader.{
  SegmentReadMode, SegmentReader, get, get_visible, scan_entries, verify_block, block_id,
  get_cached, read_block_cached, fetch_block, find_key,
}
use toroidal_db.Segment.Reader.Cached.{Agrees, if_ok, get_visible-no_cache, scan_entries-no_cache}
use toroidal_db.Segment.File.{
  write_segment, write_segment_impl, push_block, add_entry, add_entries, entry_size, total_length,
  index_bytes, index_entries_bytes, index_entry_bytes, assemble, with_crc, header_bytes,
  footer_bytes, bloom_bytes, concat_blocks,
}
use toroidal_db.Segment.File.Blocks.{flatten, encode_all, index_of}
use toroidal_db.Segment.Open.{open_with}
use toroidal_db.Segment.Open.Regions.{BloomFits}
use toroidal_db.Segment.Open.Written.{reader_of, open_with-write_segment_impl}
use toroidal_db.Segment.Bloom.{BloomFilter}
use toroidal_db.Segment.Open.{parse_blocks}
use toroidal_db.Segment.Open.Fuel.{parse_blocks_fuel}
use toroidal_db.Segment.Open.Checked.{InRegion, open_with_sound}
use toroidal_db.Segment.File.{
  segment_magic, segment_version, version_legacy, segment_header_size, footer_size,
}
use toroidal_db.Base.{true, ◌-◌, ◌≤◌, ◌==◌, ◌||◌, take, drop, All}
use toroidal_db.Segment.Flush.{write_segment-reads}

block_fits : length (encode_block checksum writes) < 2 ^ 64
unfolding encode_block entries_bytes block_entry value_bytes to_le
block_fits = omega arith

decode_block-encode_block_example : decode_block (encode_block checksum writes) false ≡ writes
decode_block-encode_block_example =
    decode_block-encode_block checksum writes writes-AllFit (omega arith) block_fits

segment_bloom-AllPass_example : AllPass (insert_keys writes (new_bloom bits_of hashes_of 3)) writes
segment_bloom-AllPass_example = segment_bloom-AllPass bits_of hashes_of writes

abbrev entry_at : ℕ → ℕ → IndexEntry
entry_at key off = record { first_key = key ∷ []; block_offset = off; block_size = 10 }

abbrev index : List IndexEntry
index = entry_at 97 32 ∷ entry_at 99 42 ∷ entry_at 110 52 ∷ []

index-IsAscending : IsAscending index
unfolding bytes_lt
index-IsAscending = ((refl, (refl, tt)), ((refl, tt), (tt, tt)))

locate-scan_locate_example : locate front_search index (100 ∷ []) ≡ scan_locate index (100 ∷ [])
locate-scan_locate_example =
    locate-scan_locate front_search front_search-Searches index (100 ∷ []) index-IsAscending

-- It is the second block.
locate_run : locate front_search index (100 ∷ []) ≡ some 1
unfolding locate front_search compare_first bytes_lt
locate_run = refl

abbrev file : Bytes
file = elim (write_segment checksum insertion_sort bits_of hashes_of (table writes) 3) [
  | ok b ↦ b
  | err e ↦ []
]

-- All that the writing of a segment unfolds to.
writing : Unit {0}
unfolding table push_version upsert bytes_eq bytes_lt scan_all_versions insertion_sort insert_before
    version_before all_entries chain_entries write_segment write_segment_impl push_block add_entry
    add_entries entry_size total_length index_bytes index_entries_bytes index_entry_bytes assemble
    with_crc header_bytes footer_bytes bloom_bytes concat_blocks zeros to_le encode_block
    entries_bytes block_entry value_bytes
writing = tt

file_written : write_segment checksum insertion_sort bits_of hashes_of (table writes) 3 ≡ ok file
unfolding writing
file_written = refl

hashing : Unit {0}
unfolding insert_keys new_bloom bloom_insert set_bits set_byte bit_index sip_hash sip_chunks
    sip_chunk sip_round from_le
hashing = tt

file_short : length file < 2 ^ 64
unfolding writing hashing
file_short = omega arith

write_segment-reads_example :
    (r : SegmentReader) × (open_with checksum file 9 SegmentReadMode.predecoded ≡ ok r)
    × ((k : Bytes) → get r k ≡ get_entry (table writes) k)
    × ((k : Bytes) (seq : ℕ)
        → (get_visible checksum no_cache front_search r k seq tt).0
          ≡ toroidal_db.MemTable.get_visible (table writes) k seq)
write_segment-reads_example =
    write_segment-reads checksum checksum_fits insertion_sort insertion_sort-Sorts bits_of hashes_of
      (λ m n. omega arith) no_cache tt front_search writes 3 9 file (omega arith) (omega arith)
      writes-AllFit writes-Descends (omega arith) (omega arith) file_written file_short

abbrev block : Bytes
block = encode_block checksum writes

abbrev whole_block : IndexEntry
whole_block = record { first_key = key_a; block_offset = 0; block_size = 59 }

abbrev reader : SegmentReader
reader = record {
  raw = block;
  map = [];
  index = whole_block ∷ [];
  bloom = insert_keys writes (new_bloom bits_of hashes_of 3);
  meta = record {
    id = 9;
    level = 0;
    min_key = key_a;
    max_key = key_a;
    min_sequence = 0;
    max_sequence = 3;
    n_entries = 3;
  };
  read_mode = SegmentReadMode.block_cached;
  legacy_blocks = false;
}

abbrev valid : BlockId → Option Bytes
valid id = if_ok (verify_block checksum block id.offset id.len)

reader-Agrees : Agrees checksum valid reader
reader-Agrees start len = refl

abbrev high : BlockId → ℕ
high id = id.offset * 2 ^ 62

abbrev warm : Cache
warm = cache_insert high (block_id reader whole_block) block (new_cache 200 1)

block_valid : valid (block_id reader whole_block) ≡ some block
unfolding writing verify_block slice word32_at from_le
block_valid = refl

warm-Filled : Filled high valid warm
warm-Filled = Filled.inserted (block_id reader whole_block) block block_valid (Filled.fresh 200 1)

get_visible-no_cache_example :
    ((get_visible checksum (lru_cache high) front_search reader key_b 2 warm).0
      ≡ (get_visible checksum no_cache front_search reader key_b 2 tt).0)
    × Filled high valid (get_visible checksum (lru_cache high) front_search reader key_b 2 warm).1
get_visible-no_cache_example =
    get_visible-no_cache checksum (lru_cache high) valid (Filled high valid)
      (lru_cache-Lawful high valid) reader reader-Agrees front_search key_b 2 warm warm-Filled

scan_entries-no_cache_example :
    ((scan_entries checksum (lru_cache high) front_search reader none (some key_b) warm).0
      ≡ (scan_entries checksum no_cache front_search reader none (some key_b) tt).0)
    × Filled high valid
        (scan_entries checksum (lru_cache high) front_search reader none (some key_b) warm).1
scan_entries-no_cache_example =
    scan_entries-no_cache checksum (lru_cache high) valid (Filled high valid)
      (lru_cache-Lawful high valid) reader reader-Agrees front_search none (some key_b) warm
      warm-Filled

-- The read finds the empty value of the key, from the block in the cache.
get_visible_run :
    (get_visible checksum (lru_cache high) front_search reader key_b 2 warm).0
    ≡ some (value_version 2 [])
unfolding writing hashing get_visible get_cached read_block_cached fetch_block cache_get
    cache_insert new_cache repeat_shard shard_of insert_at get_from shard_insert shard_get evict
    store_block put_block block_at bloom_contains has_bits has_bit locate front_search compare_first
    find_key decode_block decode_entries decode_value decode_kind decode_bytes slice try_read_u32
    try_read_u64 checked_add
get_visible_run = refl

abbrev bloom_filter : BloomFilter
bloom_filter = insert_keys writes (new_bloom bits_of hashes_of 3)

bloom-BloomFits : BloomFits bloom_filter
unfolding hashing zeros
bloom-BloomFits = record {
  hashes = omega arith;
  hashes_fit = omega arith;
  bits_fit = omega arith;
  size = refl;
}

abbrev unsorted : Bytes
unsorted = elim (write_segment_impl checksum writes 3 bloom_filter) [ ok b ↦ b | err e ↦ [] ]

unsorted_written : write_segment_impl checksum writes 3 bloom_filter ≡ ok unsorted
unfolding writing
unsorted_written = refl

unsorted_short : length unsorted < 2 ^ 64
unfolding writing hashing
unsorted_short = omega arith

open_with-write_segment_impl_example :
    (groups : List Entries) × (flatten groups ≡ writes)
    × All (λ g. 0 < length g) groups
    × (take (total_length (encode_all checksum groups)) (drop segment_header_size unsorted)
        ≡ concat_blocks (encode_all checksum groups))
    × (open_with checksum unsorted 9 SegmentReadMode.block_cached
        ≡ ok (
            reader_of unsorted 9 SegmentReadMode.block_cached writes 3 bloom_filter
              (index_of checksum segment_header_size groups)))
open_with-write_segment_impl_example =
    open_with-write_segment_impl checksum checksum_fits writes 3 bloom_filter unsorted 9
      SegmentReadMode.block_cached (omega arith) writes-AllFit (omega arith) (omega arith)
      bloom-BloomFits unsorted_written unsorted_short

parse_blocks_fuel_example :
    parse_blocks file 91 false (200 + 100) 32 [] ≡ parse_blocks file 91 false 200 32 []
parse_blocks_fuel_example = parse_blocks_fuel file 91 false 200 100 32 [] (omega arith)

abbrev mode : SegmentReadMode
mode = SegmentReadMode.block_cached

unsorted_opened :
    (index : List IndexEntry) × (open_with checksum unsorted 9 mode
      ≡ ok (reader_of unsorted 9 mode writes 3 bloom_filter index))
unsorted_opened =
    let (groups, flat, filled, blocks, opened) =
      open_with-write_segment_impl checksum checksum_fits writes 3 bloom_filter unsorted 9 mode
        (omega arith) writes-AllFit (omega arith) (omega arith) bloom-BloomFits unsorted_written
        unsorted_short in
    (index_of checksum segment_header_size groups, opened)

open_with_sound_example :
    (segment_header_size + footer_size ≤ length unsorted)
    × (word32_at unsorted (length unsorted - 4) ≡ checksum (take (length unsorted - 4) unsorted))
    × (word32_at unsorted 0 ≡ segment_magic)
    × (((word32_at unsorted 4 == version_legacy) || (word32_at unsorted 4 == segment_version))
        ≡ true)
    × All (InRegion (length unsorted - footer_size)) unsorted_opened.0
open_with_sound_example =
    open_with_sound checksum unsorted 9 mode
      (reader_of unsorted 9 mode writes 3 bloom_filter unsorted_opened.0) unsorted_opened.1
