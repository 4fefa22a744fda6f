-- ===== src/Segment/Open.antt =====
-- crates/toroidal-store/segment.rs: `open_with`, on the bytes of the file. The id, which the code reads from the name of
-- the file, is an argument.
pub mod Entries
pub mod Regions
pub mod Layout
pub mod Fuel
pub mod Checked
pub mod Written
pub mod Versions
use mathlib.Core.Option
use toroidal_db.Base.{
  ℕ, zero, suc, ◌+◌, ◌-◌, ◌*◌, ◌%◌, min, Bool, true, false, not, ◌&&◌, ◌||◌, Option, none, some,
  List, [], ◌∷◌, ◌++◌, length, leb, ltb, ◌==◌, take, drop, Message, TqlError, storage, Result, ok,
  err, ◌>>=◌, ◌>>◌, ensure, ok_or, if◌then◌else◌,
}
use toroidal_db.Base.Bytes.{Bytes, u64_mod, checked_add}
use toroidal_db.Base.Keys.{bytes_eq}
use toroidal_db.Snapshot.{VersionedEntry, value_version, tombstone_version}
use toroidal_db.MemTable.{VersionChain, chain_of, insert_by_key}
use toroidal_db.Segment.Bytes.{slice, try_read_u32, try_read_u64, try_read_u8, word32_at, word64_at}
use toroidal_db.Segment.Block.{DecodedEntry, kind_value, kind_tombstone}
use toroidal_db.Segment.Bloom.{BloomFilter, no_bloom}
use toroidal_db.Segment.Index.{IndexEntry}
use toroidal_db.Segment.Reader.{SegmentReadMode, SegmentMeta, SegmentReader}
use toroidal_db.Segment.File.{
  segment_magic, segment_version, version_legacy, segment_header_size, footer_size,
}

abbrev pub SegmentMap : Type 0
SegmentMap = List (Bytes × VersionChain)

-- `map.entry(key).or_default().push(ve)`; the map is in the order of its keys. A key that is there gets the version
-- behind its chain, a new one is inserted with a chain of its own.
unfoldable pub append_version : Bytes → VersionedEntry → SegmentMap → SegmentMap
append_version key ve [] = []
append_version key ve ((k, chain) ∷ rest) =
    let more = append_version key ve rest in
    if bytes_eq k key then (k, chain ++ (ve ∷ [])) ∷ rest else (k, chain) ∷ more

unfoldable pub push_entry : Bytes → VersionedEntry → SegmentMap → SegmentMap
push_entry key ve m = elim (chain_of key m) [
  | none ↦ insert_by_key key (ve ∷ []) m
  | some chain ↦ append_version key ve m
]

-- The closure `check_range`, with the texts of its errors for what it checks.
unfoldable pub check_range : ℕ → ℕ → ℕ → Message → Message → Message → Result (Unit {0})
check_range data_region_end off len before overflow beyond = do
  ensure (leb segment_header_size off) (storage before)
  end ← ok_or (checked_add off len) (storage overflow)
  ensure (leb end data_region_end) (storage beyond)

unfoldable pub parse_bloom : Bytes → ℕ → ℕ → Result BloomFilter
parse_bloom raw bloom_offset bloom_len =
    if ltb 0 bloom_len && leb segment_header_size bloom_offset
    then (let k = word32_at raw bloom_offset in
        let bits_len = word32_at raw (bloom_offset + 4) in
        do
          bits_start ← ok_or (checked_add bloom_offset 8) (storage Message.bloom_offset_overflow)
          bits_end ←
              ok_or (checked_add bits_start bits_len) (storage Message.bloom_bits_length_overflow)
          region_end ←
              ok_or (checked_add bloom_offset bloom_len) (storage Message.bloom_length_overflow)
          ensure (leb bits_end region_end && leb bits_end (length raw))
              (storage Message.bloom_out_of_file_bounds)
          ok (record {
            bits = take bits_len (drop bits_start raw);
            k = k;
            m = (bits_len * 8) % u64_mod;
          }))
    else ok no_bloom

-- The loop over the index, from the offset `off` of its bytes on.
unfoldable pub parse_index : ℕ → Bytes → ℕ → ℕ → Result (List IndexEntry)
parse_index data_region_end index_raw zero off = ok []
parse_index data_region_end index_raw (suc n) off = do
  kl ← ok_or (try_read_u32 index_raw off) (storage Message.malformed_index_key_length_out_of_bounds)
  key_end ← ok_or (checked_add (off + 4) kl) (storage Message.index_key_length_overflow)
  key ← ok_or (slice index_raw (off + 4) kl) (storage Message.index_key_out_of_bounds)
  block_offset ←
      ok_or (try_read_u64 index_raw key_end)
        (storage Message.malformed_index_block_offset_out_of_bounds)
  block_size ←
      ok_or (try_read_u32 index_raw (key_end + 8))
        (storage Message.malformed_index_block_size_out_of_bounds)
  check_range data_region_end block_offset block_size Message.index_block_offset_before_header
      Message.index_block_length_overflow Message.index_block_out_of_file_bounds
  rest ← parse_index data_region_end index_raw n (key_end + 8 + 4)
  ok (record { first_key = key; block_offset = block_offset; block_size = block_size } ∷ rest)

module _ (raw : Bytes) (data_end : ℕ) where
  -- The value, of the length that was read.
  unfoldable pub parse_bytes : ℕ → ℕ → ℕ → Result DecodedEntry
  parse_bytes cursor sequence vl = do
    val_end ← ok_or (checked_add cursor vl) (storage Message.block_value_length_overflow)
    ensure (leb val_end data_end) (storage Message.block_value_out_of_bounds)
    ok (record { entry = value_version sequence (take vl (drop cursor raw)); next = val_end })

  unfoldable pub parse_legacy : ℕ → ℕ → Result DecodedEntry
  parse_legacy cursor sequence = do
    vl ←
        ok_or (try_read_u32 raw cursor) (storage Message.malformed_block_value_length_out_of_bounds)
    (if vl == 0
        then ok (record { entry = tombstone_version sequence; next = cursor + 4 })
        else parse_bytes (cursor + 4) sequence vl)

  unfoldable pub parse_kind : ℕ → ℕ → Result DecodedEntry
  parse_kind cursor sequence = do
    kind ← ok_or (try_read_u8 raw cursor) (storage Message.malformed_block_kind_out_of_bounds)
    (if kind == kind_tombstone
        then ok (record { entry = tombstone_version sequence; next = cursor + 1 })
        else if kind == kind_value
        then (do
          vl ←
              ok_or (try_read_u32 raw (cursor + 1))
                (storage Message.malformed_block_value_length_out_of_bounds)
          parse_bytes (cursor + 1 + 4) sequence vl)
        else err (storage (Message.malformed_block_unknown_kind kind)))

  unfoldable pub parse_value : Bool → ℕ → ℕ → Result DecodedEntry
  parse_value true cursor sequence = parse_legacy cursor sequence
  parse_value false cursor sequence = parse_kind cursor sequence

  -- The loop over the entries of a block: the map that they were pushed to, and the offset behind them.
  unfoldable pub parse_entries : Bool → ℕ → ℕ → SegmentMap → Result (SegmentMap × ℕ)
  parse_entries legacy zero cursor map = ok (map, cursor)
  parse_entries legacy (suc n) cursor map = do
    kl ← ok_or (try_read_u32 raw cursor) (storage Message.malformed_block_key_length_out_of_bounds)
    key_end ← ok_or (checked_add (cursor + 4) kl) (storage Message.block_key_length_overflow)
    ensure (leb key_end data_end) (storage Message.block_key_out_of_bounds)
    sequence ←
        ok_or (try_read_u64 raw key_end) (storage Message.malformed_block_sequence_out_of_bounds)
    d ← parse_value legacy (key_end + 8) sequence
    parse_entries legacy n d.next (push_entry (take kl (drop (cursor + 4) raw)) d.entry map)

  -- The loop over the blocks. A block takes at least 8 bytes, so the length of the file is fuel enough.
  unfoldable pub parse_blocks : Bool → ℕ → ℕ → SegmentMap → Result SegmentMap
  parse_blocks legacy zero cursor map = ok map
  parse_blocks legacy (suc n) cursor map = elim (leb (cursor + 4) data_end) [
    | false ↦ ok map
    | true ↦
        parse_entries legacy (word32_at raw cursor) (cursor + 4) map
        >>= (λ p. if ltb data_end (p.1 + 4) then ok p.0 else parse_blocks legacy n (p.1 + 4) p.0)
  ]

-- The keys of the first and of the last index entry.
unfoldable pub first_of : List IndexEntry → Bytes
first_of [] = []
first_of (e ∷ es) = e.first_key

unfoldable pub last_of : List IndexEntry → Bytes
last_of [] = []
last_of (e ∷ []) = e.first_key
last_of (e ∷ f ∷ es) = last_of (f ∷ es)

module _ (crc32 : Bytes → ℕ) where
  unfoldable pub open_with : Bytes → ℕ → SegmentReadMode → Result SegmentReader
  open_with raw id read_mode =
      let file_len = length raw in
      let version = word32_at raw 4 in
      let footer_start = file_len - footer_size in
      let bloom_offset = word64_at raw footer_start in
      let bloom_len = word64_at raw (footer_start + 8) in
      let index_offset = word64_at raw (footer_start + 16) in
      let index_len = word64_at raw (footer_start + 24) in
      let index_raw = take index_len (drop index_offset raw) in
      let legacy = version == version_legacy in
      do
        ensure (leb (segment_header_size + footer_size) file_len)
            (storage Message.segment_file_too_small)
        ensure (word32_at raw (file_len - 4) == crc32 (take (file_len - 4) raw))
            (storage Message.segment_crc_mismatch)
        ensure (word32_at raw 0 == segment_magic) (storage Message.invalid_segment_magic)
        ensure (legacy || (version == segment_version))
            (storage (Message.unsupported_segment_version version))
        check_range footer_start bloom_offset bloom_len Message.bloom_offset_before_header
            Message.bloom_length_overflow Message.bloom_out_of_file_bounds
        index_end ←
            ok_or (checked_add index_offset index_len) (storage Message.index_length_overflow)
        ensure (leb bloom_offset index_offset && leb index_end footer_start)
            (storage Message.segment_index_out_of_file_bounds)
        bloom ← parse_bloom raw bloom_offset bloom_len
        index ←
            parse_index footer_start index_raw
              (if leb 4 index_len then word32_at index_raw 0 else 0) 4
        map ←
            parse_blocks raw (min bloom_offset footer_start) legacy file_len segment_header_size []
        ok (record {
          raw = raw;
          map = map;
          index = index;
          bloom = bloom;
          meta = record {
            id = id;
            level = 0;
            min_key = first_of index;
            max_key = last_of index;
            min_sequence = 0;
            max_sequence = word64_at raw 16;
            n_entries = word64_at raw 8;
          };
          read_mode = read_mode;
          legacy_blocks = legacy;
        })
