-- ===== src/Store/Flush/Tests.antt =====
-- Runs of the flush of crates/toroidal-store/store.rs: a frozen table of three writes, with a log and a manifest that
-- are empty; a flush that succeeds, and one that an injected fault stops behind the segment.
use toroidal_db.Base.{
  ℕ, ◌^◌, ◌≡◌, ◌<◌, refl, sym, subst, ◌∙◌, Bool, true, false, some, [], ◌∷◌, length, Message,
  storage, Result, ok, err, ltb, arith,
}
use toroidal_db.Base.Bytes.{Bytes, to_le, from_le, checked_add}
use toroidal_db.Base.Keys.{bytes_eq, bytes_lt}
use toroidal_db.Base.Sample.{checksum, checksum_fits}
use toroidal_db.Snapshot.{no_snapshots, Snapshot, floor, lowest}
use toroidal_db.MemTable.{
  new, push_version, upsert, scan_all_versions, version_before, all_entries, chain_entries,
  max_sequence, max_loop, len, get_entry, insert_by_key, chain_of,
}
use toroidal_db.MemTable.Sort.Insertion.{insertion_sort, insert_before, insertion_sort-Sorts}
use toroidal_db.MemTable.Reads.{table}
use toroidal_db.Manifest.{
  add_segment, append_nosync, encode_entry, entry_body, extra_of, type_of, path_of, live_insert,
  is_live, raise,
}
use toroidal_db.Segment.Bytes.{slice, try_read_u32, try_read_u64, word32_at, word64_at}
use toroidal_db.Segment.Block.{encode_block, entries_bytes, block_entry, value_bytes}
use toroidal_db.Segment.Bloom.{
  insert_keys, new_bloom, bloom_insert, set_bits, set_byte, bit_index, sip_hash, sip_chunks,
  sip_chunk, sip_round, zeros,
}
use toroidal_db.Segment.File.{
  write_segment, write_segment_impl, push_block, add_entry, add_entries, entry_size, total_length,
  index_bytes, index_entries_bytes, index_entry_bytes, assemble, with_crc, header_bytes,
  footer_bytes, bloom_bytes, concat_blocks,
}
use toroidal_db.Segment.Open.{
  open_with, check_range, parse_bloom, parse_index, parse_blocks, parse_entries, parse_value,
  parse_kind, parse_bytes, push_entry, append_version, first_of, last_of,
}
use toroidal_db.Segment.Sample.{
  key_a, writes, writes-AllFit, writes-Descends, bits_of, hashes_of, front_search,
}
use toroidal_db.Store.{
  FailurePoint, ToroidalStore, no_fault, get, get_at, retention_floor, search, reverse_onto,
}
use toroidal_db.Store.Flush.{unwrap_or_zero, flush, flush_table, publish_segment}
use toroidal_db.Store.Flush.Reads.{flush-get, flush-get_at}
use toroidal_db.Store.Flush.Failure.{SameLayers, flush_fails-get}

abbrev frozen : ToroidalStore
frozen = record {
  wal = record { file = []; next_sequence = 4 };
  manifest = record { file = []; live = []; max_flushed_sequence = 0; valid_len = 0 };
  active = new;
  immutable = table writes ∷ [];
  segments = [];
  next_seg_id = 1;
  snapshots = no_snapshots;
  closed = false;
}

abbrev utf8 : Bytes → Bool
utf8 b = true

abbrev seg_path : ℕ → Bytes
seg_path n = n ∷ []

writing : Unit {0}
unfolding table push_version upsert bytes_eq bytes_lt scan_all_versions insertion_sort insert_before
    version_before all_entries chain_entries write_segment write_segment_impl push_block add_entry
    add_entries entry_size total_length index_bytes index_entries_bytes index_entry_bytes assemble
    with_crc header_bytes footer_bytes bloom_bytes concat_blocks zeros to_le encode_block
    entries_bytes block_entry value_bytes max_sequence max_loop
writing = tt

hashing : Unit {0}
unfolding insert_keys new_bloom bloom_insert set_bits set_byte bit_index sip_hash sip_chunks
    sip_chunk sip_round from_le
hashing = tt

opening : Unit {0}
unfolding open_with check_range parse_bloom parse_index parse_blocks parse_entries parse_value
    parse_kind parse_bytes push_entry append_version insert_by_key chain_of first_of last_of slice
    try_read_u32 try_read_u64 word32_at word64_at checked_add
opening = tt

flushing : Unit {0}
unfolding flush flush_table publish_segment add_segment append_nosync encode_entry entry_body
    extra_of type_of path_of live_insert is_live raise len
flushing = tt

abbrev file : Bytes
file = elim (write_segment checksum insertion_sort bits_of hashes_of (table writes) 3) [
  | ok b ↦ b
  | err e ↦ []
]

file_written :
    write_segment checksum insertion_sort bits_of hashes_of
      (table writes)
      (unwrap_or_zero (max_sequence (table writes)))
    ≡ ok file
unfolding writing
file_written = refl

file_short : length file < 2 ^ 64
unfolding writing hashing
file_short = omega arith

all_short :
    (raw : Bytes)
    → write_segment checksum insertion_sort bits_of hashes_of
        (table writes)
        (unwrap_or_zero (max_sequence (table writes)))
      ≡ ok raw
    → length raw < 2 ^ 64
all_short raw e =
    let both : ok file ≡ ok raw = sym file_written ∙ e in
    let same : file ≡ raw = cc in subst (λ t. length t < 2 ^ 64) same file_short

abbrev flushed : ToroidalStore
flushed =
    (flush checksum utf8 insertion_sort bits_of hashes_of front_search seg_path no_fault frozen).1

flushed_lem :
    (flush checksum utf8 insertion_sort bits_of hashes_of front_search seg_path no_fault frozen).0
    ≡ ok (some 2)
unfolding writing hashing opening flushing
flushed_lem = refl

flush-get_example : get flushed key_a ≡ get frozen key_a
flush-get_example =
    flush-get checksum utf8 insertion_sort bits_of hashes_of front_search seg_path no_fault
      checksum_fits insertion_sort-Sorts (λ m n. omega arith) frozen writes [] refl (omega arith)
      (omega arith) writes-AllFit writes-Descends (omega arith) all_short key_a flushed_lem

abbrev snap : Snapshot
snap = record { sequence = 3; managed = false }

snap_live : ltb snap.sequence (retention_floor flushed) ≡ false
unfolding writing hashing opening flushing retention_floor floor lowest
snap_live = refl

flush-get_at_example : get_at flushed snap key_a ≡ get_at frozen snap key_a
flush-get_at_example =
    flush-get_at checksum utf8 insertion_sort bits_of hashes_of front_search seg_path no_fault
      checksum_fits insertion_sort-Sorts (λ m n. omega arith) frozen writes [] refl (omega arith)
      (omega arith) writes-AllFit writes-Descends (omega arith) all_short snap key_a flushed_lem
      snap_live

-- A fault behind the segment's file.
abbrev fault : FailurePoint → Result (Unit {0})
fault point = err (storage Message.store_is_closed)

fails :
    (flush checksum utf8 insertion_sort bits_of hashes_of front_search seg_path fault frozen).0
    ≡ err (storage Message.store_is_closed)
unfolding writing flush flush_table
fails = refl

flush_fails-get_example :
    SameLayers
      (flush checksum utf8 insertion_sort bits_of hashes_of front_search seg_path fault frozen).1
      (record frozen { immutable = [] })
    × (get
          (flush checksum utf8 insertion_sort bits_of hashes_of front_search seg_path fault
            frozen).1
          key_a
        ≡ search
            (λ m. get_entry m key_a)
            (λ g. g.seg_get key_a)
            (frozen.active ∷ reverse_onto [] [])
            [])
flush_fails-get_example =
    flush_fails-get checksum utf8 insertion_sort bits_of hashes_of front_search seg_path fault
      frozen (table writes) [] key_a refl fails
