-- ===== src/Segment/Open/Written.antt =====
-- crates/toroidal-store/segment.rs: a segment that was written is opened.
use toroidal_db.Base.{
  ℕ, ◌+◌, ◌-◌, ◌≡◌, ◌≤◌, ◌<◌, min, refl, sym, ap, subst, ◌∙◌, false, List, [], ◌∷◌, ◌++◌, length,
  take, drop, leb, ltb, le→leb, lt→ltb, ok, ◌>>=◌, Message, storage, if◌then◌else◌, arith,
  append-nil, length-append, All, ensure-eq-ok, >>=-eq-ok,
}
use toroidal_db.Base.Bytes.{Bytes, u32_mod, u64_mod, to_le, length-to_le, checked_add}
use toroidal_db.MemTable.{Entries}
use toroidal_db.Segment.Bytes.{At, At-start, At-next, take-At, word32_at, word32_at-At}
use toroidal_db.Segment.Block.{encode_block, entries_bytes}
use toroidal_db.Segment.Block.RoundTrip.{AllFit}
use toroidal_db.Segment.Bloom.{BloomFilter}
use toroidal_db.Segment.Index.{IndexEntry}
use toroidal_db.Segment.Reader.{SegmentReadMode, SegmentReader}
use toroidal_db.Segment.File.{
  Writer, new_writer, segment_header_size, footer_size, total_length, concat_blocks, index_bytes,
  index_entries_bytes, bloom_bytes, push_block, add_entries, assemble, write_segment_impl,
}
use toroidal_db.Segment.File.Blocks.{
  Within, Spans-Within, length-Spans, flatten, encode_all, IsDivided, all-IsDivided, index_of,
}
use toroidal_db.Segment.Open.{parse_index, first_of, last_of, open_with}
use toroidal_db.Segment.Open.Entries.{push_all, parse_blocks-At}
use toroidal_db.Segment.Open.Regions.{BloomFits, check_range_passes, parse_index-At, parse_bloom-At}
use toroidal_db.Segment.Open.Layout.{Layout, assemble-Layout, length-concat_blocks}

-- The reader of a written segment, by its index.
abbrev pub reader_of :
    Bytes → ℕ → SegmentReadMode → Entries → ℕ → BloomFilter → List IndexEntry → SegmentReader
reader_of raw id mode entries max_sequence bloom index = record {
  raw = raw;
  map = push_all entries [];
  index = index;
  bloom = bloom;
  meta = record {
    id = id;
    level = 0;
    min_key = first_of index;
    max_key = last_of index;
    min_sequence = 0;
    max_sequence = max_sequence;
    n_entries = length entries;
  };
  read_mode = mode;
  legacy_blocks = false;
}

parse_written_index :
    (region_end : ℕ) (blocks : List Bytes) (entries : List IndexEntry) (ib : Bytes)
    → index_bytes blocks entries ≡ ok ib
    → length entries ≡ length blocks
    → All (Within segment_header_size region_end) entries
    → region_end < u64_mod
    → length ib < u64_mod
    → parse_index region_end ib (if leb 4 (length ib) then word32_at ib 0 else 0) 4 ≡ ok entries
unfolding index_bytes
parse_written_index region_end blocks entries ib w same h fits ib_fits =
    let next = λ (rest : Bytes). ok (to_le 4 (length blocks) ++ rest) in
    let (few, written) =
      ensure-eq-ok (ltb (length blocks) u32_mod) (storage Message.too_many_segment_blocks)
        (index_entries_bytes entries >>= next) w in
    let (rest, more, whole) = >>=-eq-ok (index_entries_bytes entries) next written in
    let count = to_le 4 (length blocks) in
    let all : count ++ rest ≡ ib = ground arith in
    let size = length-to_le 4 (length blocks) in
    let fits' : length (count ++ rest) < u64_mod =
      subst (λ t. length t < u64_mod) (sym all) ib_fits in
    let a = At-start (count ++ rest) fits' in
    let b = At-next 4 count rest (sym size) a in
    let blocks_fit : length blocks < u32_mod = grind arith in
    let read = word32_at-At (length blocks) rest blocks_fit a in
    let long : 4 ≤ length (count ++ rest) = omega (arith, length-append count rest, size) in
    rw (← all, le→leb _ _ long, read ∙ sym same)
      (parse_index-At region_end fits (count ++ rest) entries 4 rest more h b)

module _ (crc32 : Bytes → ℕ) (crc_fits : (b : Bytes) → crc32 b < u32_mod) where
  length-encode_all :
      (groups : List Entries) → length groups ≤ total_length (encode_all crc32 groups)
  unfolding encode_all total_length encode_block
  length-encode_all [] = omega arith
  length-encode_all (g ∷ gs) =
      let buf = to_le 4 (length g) ++ entries_bytes g in
      omega (
        arith,
        length-encode_all gs,
        length-append buf (to_le 4 (crc32 buf)),
        length-to_le 4 (crc32 buf),
      )

  -- A file of encoded groups of entries, with a Bloom filter and the index of its blocks, is opened.
  open_with-Layout :
      (raw ib : Bytes) (entries : Entries) (max_sequence : ℕ) (bloom : BloomFilter) (w : Writer)
      (id : ℕ) (mode : SegmentReadMode)
      → (d : IsDivided crc32 entries w) → flatten d.groups ≡ entries
      → index_bytes w.blocks w.block_index ≡ ok ib
      → Layout crc32 raw (length entries) max_sequence w.blocks (bloom_bytes bloom) ib
      → AllFit entries
      → length entries < u32_mod
      → BloomFits bloom
      → length raw < u64_mod
      → open_with crc32 raw id mode
        ≡ ok (reader_of raw id mode entries max_sequence bloom w.block_index)
  unfolding open_with checked_add
  open_with-Layout raw ib entries max_sequence bloom w id mode d whole index l fit few bf fits =
      let end = length raw - footer_size in
      let blen = length (bloom_bytes bloom) in
      let tail_in = l.tail_at.inside in
      let low : segment_header_size ≤ l.bo = omega (arith, l.bo_lem) in
      let room : l.bo + blen ≤ end = omega (arith, l.start_lem, l.io_lem) in
      let end_fits : end < u64_mod = omega arith in
      let index_fits : l.io + length ib < u64_mod = omega (arith, l.start_lem) in
      let after : l.bo ≤ l.io = omega (arith, l.io_lem) in
      let inside : l.io + length ib ≤ end = omega (arith, l.start_lem) in
      let first : min l.bo end ≡ l.bo = omega arith in
      let within = Spans-Within end d.spans (omega (arith, l.bo_lem)) in
      let ib_fits : length ib < u64_mod = omega arith in
      let at =
        subst (λ t. At raw segment_header_size (concat_blocks t ++ l.tail)) d.encoded l.blocks_at in
      let sizes = length-encode_all d.groups in
      let total = ap total_length d.encoded in
      let fuel : length d.groups ≤ length raw = omega (arith, l.bo_lem, tail_in) in
      let blocks =
        parse_blocks-At raw l.bo l.tail l.tail_at crc32 d.groups (length raw) segment_header_size []
          fuel (subst AllFit (sym whole) fit) (subst (λ t. length t < u32_mod) (sym whole) few) at
        ∙ ap (λ t. ok (push_all t [])) whole in
      rw
        (
          le→leb _ _ l.long,
          l.checked,
          l.magic,
          l.version,
          l.n_lem,
          l.max_lem,
          l.bo_read,
          l.bloom_len_read,
          l.io_read,
          l.index_len_read,
          take-At (length ib) ib l.index_tail refl l.index_at,
          check_range_passes end l.bo blen Message.bloom_offset_before_header
              Message.bloom_length_overflow Message.bloom_out_of_file_bounds low room end_fits,
          lt→ltb _ _ index_fits,
          le→leb _ _ after,
          le→leb _ _ inside,
          parse_bloom-At raw l.bo bloom l.bloom_tail low bf l.bloom_at,
          parse_written_index end w.blocks w.block_index ib index (length-Spans d.spans) within
              end_fits ib_fits,
          first,
          blocks,
        )
        refl

  -- The file that is written of a list of at least one and fewer than 2^32 entries, whose lengths and sequences
  -- fit the words of the format, with a sequence of 64 bits and a Bloom filter that has a hash, whose hashes and
  -- bytes are counted in 32 bits and whose size is the number of its bits, is opened, if it has less than 2^64
  -- bytes and the checksum has 32 bits. The entries were divided in order into groups that are not empty, whose
  -- encoded blocks follow each other behind the header. The reader has the map of the entries, the Bloom filter,
  -- the sequence, the number of entries, and as its index the first key, the offset and the size of the block of
  -- each group, with the first and the last of these keys as its bounds.
  pub open_with-write_segment_impl :
      (entries : Entries) (max_sequence : ℕ) (bloom : BloomFilter) (raw : Bytes) (id : ℕ)
      (mode : SegmentReadMode)
      → 0 < length entries
      → AllFit entries
      → length entries < u32_mod
      → max_sequence < u64_mod
      → BloomFits bloom
      → write_segment_impl crc32 entries max_sequence bloom ≡ ok raw
      → length raw < u64_mod
      → (groups : List Entries) × (flatten groups ≡ entries)
        × All (λ g. 0 < length g) groups
        × (take (total_length (encode_all crc32 groups)) (drop segment_header_size raw)
            ≡ concat_blocks (encode_all crc32 groups))
        × (open_with crc32 raw id mode
            ≡ ok (
                reader_of raw id mode entries max_sequence bloom
                  (index_of crc32 segment_header_size groups)))
  unfolding write_segment_impl
  open_with-write_segment_impl [] max_sequence bloom raw id mode some_entries fit few max_fits bf
        wrote fits =
      absurd (omega arith)
  open_with-write_segment_impl ((key, ve) ∷ rest) max_sequence bloom raw id mode some_entries fit
        few max_fits bf wrote fits =
      let entries = (key, ve) ∷ rest in
      let w = push_block crc32 (add_entries crc32 entries new_writer) in
      let next = λ (ib : Bytes).
        ok (assemble crc32 (length entries) max_sequence w.blocks (bloom_bytes bloom) ib) in
      let (ib, index, whole) = >>=-eq-ok (index_bytes w.blocks w.block_index) next wrote in
      let file : raw
          ≡ assemble crc32 (length entries) max_sequence w.blocks (bloom_bytes bloom) ib =
        ground arith in
      let (d, empty) = all-IsDivided crc32 entries in
      let flat =
        sym (append-nil (flatten d.groups))
        ∙ ap (λ t. flatten d.groups ++ t) (sym empty)
        ∙ d.whole in
      let layout =
        assemble-Layout crc32 crc_fits (length entries) max_sequence (omega arith) max_fits w.blocks
          (bloom_bytes bloom) ib raw file fits in
      let opened =
        open_with-Layout raw ib entries max_sequence bloom w id mode d flat index layout fit few bf
          fits in
      let blob = concat_blocks (encode_all crc32 d.groups) in
      let at =
        subst (λ t. At raw segment_header_size (concat_blocks t ++ layout.tail)) d.encoded
          layout.blocks_at in
      let size = sym (length-concat_blocks (encode_all crc32 d.groups)) in
      (
        d.groups,
        flat,
        d.filled,
        take-At (total_length (encode_all crc32 d.groups)) blob layout.tail size at,
        opened ∙ ap (λ t. ok (reader_of raw id mode entries max_sequence bloom t)) d.indexed,
      )
