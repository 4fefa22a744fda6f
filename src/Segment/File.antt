-- ===== src/Segment/File.antt =====
-- crates/toroidal-store/segment.rs: how a segment is written. The file is the list of its bytes; an error of the
-- operating system does not occur. The vectors of the first keys, offsets and sizes of the blocks, which grow
-- together, are one list of index entries.
pub mod Blocks
use toroidal_db.Base.{
  ℕ, zero, suc, ◌+◌, ◌%◌, Bool, true, false, Option, none, some, List, [], ◌∷◌, ◌++◌, length, ltb,
  Message, storage, Result, ok, err, ◌>>=◌, ◌>>◌, ensure, if◌then◌else◌,
}
use toroidal_db.Base.Bytes.{Bytes, u32_mod, u64_mod, to_le}
use toroidal_db.Snapshot.{VersionedEntry, byte_size}
use toroidal_db.MemTable.{SortBy, MemTable, Entries, scan_all_versions}
use toroidal_db.Segment.Block.{encode_block, default_block_size}
use toroidal_db.Segment.Bloom.{BloomFilter, zeros, insert_keys, new_bloom}
use toroidal_db.Segment.Index.{IndexEntry}

abbrev pub segment_magic : ℕ
segment_magic = 0x5345_4742

abbrev pub segment_version : ℕ
segment_version = 2

abbrev pub version_legacy : ℕ
version_legacy = 1

abbrev pub segment_header_size : ℕ
segment_header_size = 32

abbrev pub footer_size : ℕ
footer_size = 44

-- `blocks.iter().map(|b| b.len() as u64).sum()`
unfoldable pub total_length : List Bytes → ℕ
total_length [] = 0
total_length (b ∷ bs) = length b + total_length bs

unfoldable pub concat_blocks : List Bytes → Bytes
concat_blocks [] = []
concat_blocks (b ∷ bs) = b ++ concat_blocks bs

-- The local variables of `write_segment_impl`.
pub record Writer : Type 0 where
  pub blocks : List Bytes
  pub block_index : List IndexEntry
  pub current_block : Entries
  pub current_size : ℕ

abbrev pub new_writer : Writer
new_writer = record { blocks = []; block_index = []; current_block = []; current_size = 0 }

unfoldable pub entry_size : Bytes → VersionedEntry → ℕ
entry_size key ve = 4 + length key + 8 + 4 + byte_size ve.value

unfoldable pub index_entry_bytes : IndexEntry → Bytes
index_entry_bytes e =
    to_le 4 (length e.first_key)
    ++ (e.first_key ++ (to_le 8 e.block_offset ++ to_le 4 e.block_size))

-- The loop over the index entries.
unfoldable pub index_entries_bytes : List IndexEntry → Result Bytes
index_entries_bytes [] = ok []
index_entries_bytes (e ∷ es) = do
  ensure (ltb (length e.first_key) u32_mod) (storage Message.segment_key_too_large)
  rest ← index_entries_bytes es
  ok (index_entry_bytes e ++ rest)

unfoldable pub index_bytes : List Bytes → List IndexEntry → Result Bytes
index_bytes blocks entries = do
  ensure (ltb (length blocks) u32_mod) (storage Message.too_many_segment_blocks)
  rest ← index_entries_bytes entries
  ok (to_le 4 (length blocks) ++ rest)

unfoldable pub bloom_bytes : BloomFilter → Bytes
bloom_bytes f = if ltb 0 f.k then to_le 4 f.k ++ (to_le 4 (length f.bits) ++ f.bits) else zeros 8

unfoldable pub header_bytes : ℕ → ℕ → ℕ → Bytes
header_bytes n_entries max_sequence n_blocks =
    to_le 4 segment_magic
    ++ (to_le 4 segment_version
        ++ (to_le 8 n_entries ++ (to_le 8 max_sequence ++ (to_le 4 n_blocks ++ zeros 4))))

-- The footer without its checksum.
unfoldable pub footer_bytes : ℕ → ℕ → ℕ → ℕ → ℕ → Bytes
footer_bytes bloom_offset bloom_len index_offset index_len n_entries =
    to_le 8 bloom_offset
    ++ (to_le 8 bloom_len ++ (to_le 8 index_offset ++ (to_le 8 index_len ++ to_le 8 n_entries)))

module _ (crc32 : Bytes → ℕ) where
  -- A full block is encoded and pushed, if it is not empty.
  unfoldable pub push_block : Writer → Writer
  push_block w = elim w.current_block [
    | [] ↦ w
    | (key, ve) ∷ rest ↦
        let encoded = encode_block crc32 ((key, ve) ∷ rest) in
        record w {
          blocks = w.blocks ++ (encoded ∷ []);
          block_index =
              w.block_index
              ++ (record {
                first_key = key;
                block_offset = segment_header_size + total_length w.blocks;
                block_size = length encoded % u32_mod;
              }
                  ∷ []);
          current_block = [];
          current_size = 0;
        }
  ]

  -- The body of the loop over the entries.
  unfoldable pub add_entry : Bytes → VersionedEntry → Writer → Writer
  add_entry key ve w =
      let v =
        if ltb default_block_size (w.current_size + entry_size key ve) then push_block w else w in
      record v {
        current_block = v.current_block ++ ((key, ve) ∷ []);
        current_size = v.current_size + entry_size key ve;
      }

  unfoldable pub add_entries : Entries → Writer → Writer
  add_entries [] w = w
  add_entries ((key, ve) ∷ rest) w = add_entries rest (add_entry key ve w)

  -- The bytes with their checksum behind them.
  unfoldable pub with_crc : Bytes → Bytes
  with_crc buf = buf ++ to_le 4 (crc32 buf)

  unfoldable pub write_empty_segment : ℕ → Bytes
  write_empty_segment max_sequence = with_crc (
      header_bytes 0 max_sequence 0
      ++ (to_le 4 0 ++ footer_bytes segment_header_size 0 segment_header_size 4 0))

  -- The final assembly.
  unfoldable pub assemble : ℕ → ℕ → List Bytes → Bytes → Bytes → Bytes
  assemble n_total max_sequence blocks bloom_buf index_buf =
      let bloom_offset = segment_header_size + total_length blocks in
      with_crc (
        header_bytes n_total max_sequence (length blocks)
        ++ (concat_blocks blocks
            ++ (bloom_buf
                ++ (index_buf
                    ++ footer_bytes bloom_offset (length bloom_buf)
                        (bloom_offset + length bloom_buf) (length index_buf) n_total))))

  unfoldable pub write_segment_impl : Entries → ℕ → BloomFilter → Result Bytes
  write_segment_impl [] max_sequence bloom = ok (write_empty_segment max_sequence)
  write_segment_impl ((key, ve) ∷ rest) max_sequence bloom =
      let entries = (key, ve) ∷ rest in
      let w = push_block (add_entries entries new_writer) in
      do
        index_buf ← index_bytes w.blocks w.block_index
        ok (assemble (length entries) max_sequence w.blocks (bloom_bytes bloom) index_buf)

  module _ (sort_unstable_by : SortBy) (optimal_bits : ℕ → ℕ) (optimal_hashes : ℕ → ℕ → ℕ) where
    -- Also `write_segment`, which syncs the file behind it.
    unfoldable pub write_segment : MemTable → ℕ → Result Bytes
    write_segment mem max_sequence =
        let entries = scan_all_versions sort_unstable_by mem in
        write_segment_impl entries max_sequence
          (insert_keys entries (new_bloom optimal_bits optimal_hashes (length entries)))
