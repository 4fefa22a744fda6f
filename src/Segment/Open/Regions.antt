-- ===== src/Segment/Open/Regions.antt =====
-- crates/toroidal-store/segment.rs: `open_with` on the index and the Bloom filter that were written.
use toroidal_db.Base.{
  ℕ, ◌+◌, ◌*◌, ◌%◌, ◌≡◌, ◌≤◌, ◌<◌, refl, sym, ap, subst, ◌∙◌, List, [], ◌∷◌, ◌++◌, length, ltb,
  le→leb, lt→ltb, ok, ◌>>=◌, storage, Message, arith, append_assoc, length-append, All,
  ensure-eq-ok, >>=-eq-ok,
}
use toroidal_db.Base.Bytes.{Bytes, u32_mod, u64_mod, to_le, length-to_le, checked_add}
use toroidal_db.Segment.Bytes.{
  At, At-next, At-append, take-At, slice-At, try_read_u32-At, try_read_u64-At, checked_add-At,
  word32_at-At,
}
use toroidal_db.Segment.Bloom.{BloomFilter}
use toroidal_db.Segment.Index.{IndexEntry}
use toroidal_db.Segment.File.{
  segment_header_size, index_entry_bytes, index_entries_bytes, bloom_bytes,
}
use toroidal_db.Segment.File.Blocks.{Within}
use toroidal_db.Segment.Open.{check_range, parse_index, parse_bloom}

pub check_range_passes :
    (region_end off len : ℕ) (before overflow beyond : Message)
    → segment_header_size ≤ off
    → off + len ≤ region_end
    → region_end < u64_mod
    → check_range region_end off len before overflow beyond ≡ ok tt
unfolding check_range checked_add
check_range_passes region_end off len before overflow beyond h k fits =
    let fit : off + len < u64_mod = omega arith in
    rw (le→leb _ _ h, lt→ltb _ _ fit, le→leb _ _ k) refl

index_entry_bytes-append :
    (e : IndexEntry) (z : Bytes)
    → index_entry_bytes e ++ z
      ≡ to_le 4 (length e.first_key)
        ++ (e.first_key ++ (to_le 8 e.block_offset ++ (to_le 4 e.block_size ++ z)))
unfolding index_entry_bytes
index_entry_bytes-append e z =
    let kl = to_le 4 (length e.first_key) in
    append_assoc kl (e.first_key ++ (to_le 8 e.block_offset ++ to_le 4 e.block_size)) z
    ∙ ap (λ t. kl ++ t)
        (append_assoc e.first_key (to_le 8 e.block_offset ++ to_le 4 e.block_size) z
          ∙ ap (λ t. e.first_key ++ t)
              (append_assoc (to_le 8 e.block_offset) (to_le 4 e.block_size) z))

module _ (region_end : ℕ) (region_fits : region_end < u64_mod) (index_raw : Bytes) where
  pub parse_index-At :
      (entries : List IndexEntry) (off : ℕ) (bytes : Bytes)
      → index_entries_bytes entries ≡ ok bytes
      → All (Within segment_header_size region_end) entries
      → At index_raw off bytes
      → parse_index region_end index_raw (length entries) off ≡ ok entries
  unfolding index_entries_bytes parse_index
  parse_index-At [] off bytes w h a = refl
  parse_index-At (e ∷ es) off bytes w ((low, high, small), hs) a =
      let next = λ (rest : Bytes). ok (index_entry_bytes e ++ rest) in
      let (short, written) =
        ensure-eq-ok (ltb (length e.first_key) u32_mod) (storage Message.segment_key_too_large)
          (index_entries_bytes es >>= next) w in
      let (rest, more, whole) = >>=-eq-ok (index_entries_bytes es) next written in
      let all : index_entry_bytes e ++ rest ≡ bytes = ground arith in
      let b = subst (λ t. At index_raw off t) (sym all ∙ index_entry_bytes-append e rest) a in
      let kl = length e.first_key in
      let on = to_le 8 e.block_offset ++ (to_le 4 e.block_size ++ rest) in
      let c = At-next 4 (to_le 4 kl) (e.first_key ++ on) (sym (length-to_le 4 kl)) b in
      let d = At-next kl e.first_key on refl c in
      let f =
        At-next 8 (to_le 8 e.block_offset) (to_le 4 e.block_size ++ rest)
          (sym (length-to_le 8 e.block_offset)) d in
      let g = At-next 4 (to_le 4 e.block_size) rest (sym (length-to_le 4 e.block_size)) f in
      let kl_fits : kl < u32_mod = grind arith in
      rw
        (
          try_read_u32-At kl (e.first_key ++ on) kl_fits b,
          checked_add-At kl e.first_key on refl c,
          slice-At kl e.first_key on refl c,
          try_read_u64-At e.block_offset (to_le 4 e.block_size ++ rest) (omega arith) d,
          try_read_u32-At e.block_size rest small f,
          check_range_passes region_end e.block_offset e.block_size
              Message.index_block_offset_before_header Message.index_block_length_overflow
              Message.index_block_out_of_file_bounds low high region_fits,
          parse_index-At es (off + 4 + kl + 8 + 4) rest more hs g,
        )
        refl

-- A filter that a segment can have: its sizes fit their words.
pub record BloomFits (f : BloomFilter) : Type 0 where
  pub hashes : 0 < f.k
  pub hashes_fit : f.k < u32_mod
  pub bits_fit : length f.bits < u32_mod
  pub size : f.m ≡ (length f.bits * 8) % u64_mod

parse_bloom_lem :
    (raw : Bytes) (off len : ℕ) (f : BloomFilter) (z : Bytes)
    → segment_header_size ≤ off
    → BloomFits f
    → len ≡ 8 + length f.bits
    → At raw off (to_le 4 f.k ++ (to_le 4 (length f.bits) ++ (f.bits ++ z)))
    → parse_bloom raw off len ≡ ok f
unfolding parse_bloom checked_add
parse_bloom_lem raw off len f z h b size a =
    let n = length f.bits in
    let on = to_le 4 n ++ (f.bits ++ z) in
    let c = At-next 4 (to_le 4 f.k) on (sym (length-to_le 4 f.k)) a in
    let d = At-next 4 (to_le 4 n) (f.bits ++ z) (sym (length-to_le 4 n)) c in
    let eight : off + 4 + 4 ≡ off + 8 = omega arith in
    let e = subst (λ t. At raw t (f.bits ++ z)) eight d in
    let all = length-append f.bits z in
    let some_len : 0 < len = omega arith in
    let start_fits : off + 8 < u64_mod = omega (arith, e.inside, e.fits) in
    let end_fits : off + 8 + n < u64_mod = omega (arith, e.inside, e.fits) in
    let region_fits : off + len < u64_mod = omega (arith, e.inside, e.fits) in
    let in_region : off + 8 + n ≤ off + len = omega arith in
    let in_file : off + 8 + n ≤ length raw = omega (arith, e.inside) in
    rw
      (
        parse_bloom,
        word32_at-At f.k on b.hashes_fit a,
        word32_at-At n (f.bits ++ z) b.bits_fit c,
        lt→ltb _ _ some_len,
        le→leb _ _ h,
        lt→ltb _ _ start_fits,
        lt→ltb _ _ end_fits,
        lt→ltb _ _ region_fits,
        le→leb _ _ in_region,
        le→leb _ _ in_file,
        take-At n f.bits z refl e,
        ← b.size,
      )
      refl

pub bloom_bytes_lem :
    (f : BloomFilter) → 0 < f.k → bloom_bytes f ≡ to_le 4 f.k ++ (to_le 4 (length f.bits) ++ f.bits)
unfolding bloom_bytes
bloom_bytes_lem f h = rw (bloom_bytes, lt→ltb _ _ h) refl

pub parse_bloom-At :
    (raw : Bytes) (off : ℕ) (f : BloomFilter) (z : Bytes)
    → segment_header_size ≤ off
    → BloomFits f
    → At raw off (bloom_bytes f ++ z)
    → parse_bloom raw off (length (bloom_bytes f)) ≡ ok f
parse_bloom-At raw off f z h b a =
    let k = to_le 4 f.k in
    let n = to_le 4 (length f.bits) in
    let form = bloom_bytes_lem f b.hashes in
    let plain = subst (λ t. At raw off (t ++ z)) form a in
    let apart = ap (λ t. k ++ t) (append_assoc n f.bits z) in
    let size : length (bloom_bytes f) ≡ 8 + length f.bits =
      ap length form
      ∙ omega (
        arith,
        length-append k (n ++ f.bits),
        length-append n f.bits,
        length-to_le 4 f.k,
        length-to_le 4 (length f.bits),
      ) in
    parse_bloom_lem raw off (length (bloom_bytes f)) f z h b size
      (subst (λ t. At raw off t) apart (At-append k (n ++ f.bits) z plain))
