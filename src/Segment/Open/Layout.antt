-- ===== src/Segment/Open/Layout.antt =====
-- crates/toroidal-store/segment.rs: where the parts of an assembled file lie, and what the reader finds in its header
-- and its footer.
use toroidal_db.Base.{
  ℕ, ◌+◌, ◌-◌, ◌≡◌, ◌≤◌, ◌<◌, refl, sym, ap, subst, ◌∙◌, true, List, [], ◌∷◌, ◌++◌, length, take,
  ◌==◌, eq→==, arith, length-append, append-nil, take-append,
}
use toroidal_db.Base.Bytes.{Bytes, u32_mod, u64_mod, to_le, length-to_le}
use toroidal_db.Segment.Bytes.{
  At, At-start, At-next, At-append, At-second, word32_at, word64_at, word32_at-At, word64_at-At,
}
use toroidal_db.Segment.Bloom.{zeros}
use toroidal_db.Segment.File.{
  segment_magic, segment_version, segment_header_size, footer_size, total_length, concat_blocks,
  header_bytes, footer_bytes, with_crc, assemble,
}

pub length-concat_blocks : (bs : List Bytes) → length (concat_blocks bs) ≡ total_length bs
unfolding concat_blocks total_length
length-concat_blocks [] = refl
length-concat_blocks (b ∷ bs) =
    omega (arith, length-append b (concat_blocks bs), length-concat_blocks bs)

-- Numbers one behind the other.
words_At :
    {raw : Bytes} {off : ℕ} (v : ℕ) (y z : Bytes)
    → v < u64_mod
    → At raw off ((to_le 8 v ++ y) ++ z)
    → (word64_at raw off ≡ v) × At raw (off + 8) (y ++ z)
words_At v y z h a =
    let b = At-append (to_le 8 v) y z a in
    (word64_at-At v (y ++ z) h b, At-next 8 (to_le 8 v) (y ++ z) (sym (length-to_le 8 v)) b)

word32_At :
    {raw : Bytes} {off : ℕ} (v : ℕ) (y z : Bytes)
    → v < u32_mod
    → At raw off ((to_le 4 v ++ y) ++ z)
    → (word32_at raw off ≡ v) × At raw (off + 4) (y ++ z)
word32_At v y z h a =
    let b = At-append (to_le 4 v) y z a in
    (word32_at-At v (y ++ z) h b, At-next 4 (to_le 4 v) (y ++ z) (sym (length-to_le 4 v)) b)

module _ (raw : Bytes) (n_entries max_sequence n_blocks : ℕ) (n_fits : n_entries < u64_mod)
    (max_fits : max_sequence < u64_mod) where
  header_At :
      (z : Bytes)
      → At raw 0 (header_bytes n_entries max_sequence n_blocks ++ z)
      → (word32_at raw 0 ≡ segment_magic)
        × (word32_at raw 4 ≡ segment_version)
        × (word64_at raw 8 ≡ n_entries)
        × (word64_at raw 16 ≡ max_sequence)
        × At raw 32 z
  unfolding header_bytes zeros
  header_At z a =
      let last = to_le 4 n_blocks ++ zeros 4 in
      let (magic, b) =
        word32_At segment_magic
          (to_le 4 segment_version ++ (to_le 8 n_entries ++ (to_le 8 max_sequence ++ last))) z
          (omega arith) a in
      let (version, c) =
        word32_At segment_version (to_le 8 n_entries ++ (to_le 8 max_sequence ++ last)) z
          (omega arith) b in
      let (n, d) = words_At n_entries (to_le 8 max_sequence ++ last) z n_fits c in
      let (m, e) = words_At max_sequence last z max_fits d in
      let f = At-second 4 (to_le 4 n_blocks) (zeros 4) z (sym (length-to_le 4 n_blocks)) e in
      (magic, version, n, m, At-next 4 (zeros 4) z refl f)

module _ (raw : Bytes) (off a b c d n : ℕ) where
  footer_At :
      (z : Bytes)
      → a < u64_mod
      → b < u64_mod
      → c < u64_mod
      → d < u64_mod
      → At raw off (footer_bytes a b c d n ++ z)
      → (word64_at raw off ≡ a)
        × (word64_at raw (off + 8) ≡ b)
        × (word64_at raw (off + 16) ≡ c)
        × (word64_at raw (off + 24) ≡ d)
        × At raw (off + 40) z
  unfolding footer_bytes
  footer_At z ha hb hc hd p =
      let wn = to_le 8 n in
      let (ea, q) = words_At a (to_le 8 b ++ (to_le 8 c ++ (to_le 8 d ++ wn))) z ha p in
      let (eb, r) = words_At b (to_le 8 c ++ (to_le 8 d ++ wn)) z hb q in
      let (ec, s) = words_At c (to_le 8 d ++ wn) z hc r in
      let (ed, t) = words_At d wn z hd s in
      let two : off + 8 + 8 ≡ off + 16 = omega arith in
      let three : off + 8 + 8 + 8 ≡ off + 24 = omega arith in
      let five : off + 8 + 8 + 8 + 8 + 8 ≡ off + 40 = omega arith in
      (
        ea,
        eb,
        subst (λ o. word64_at raw o ≡ c) two ec,
        subst (λ o. word64_at raw o ≡ d) three ed,
        subst (λ o. At raw o z) five (At-next 8 wn z (sym (length-to_le 8 n)) t),
      )

-- What the reader finds in a file of these parts: the offsets of the Bloom filter and of the index are `bo` and `io`.
pub record Layout (crc32 : Bytes → ℕ) (raw : Bytes) (n_entries max_sequence : ℕ)
    (blocks : List Bytes) (bloom_buf index_buf : Bytes) : Type 0 where
  pub bo : ℕ
  pub io : ℕ
  pub tail : Bytes
  pub bloom_tail : Bytes
  pub index_tail : Bytes
  pub bo_lem : bo ≡ segment_header_size + total_length blocks
  pub io_lem : io ≡ bo + length bloom_buf
  pub magic : word32_at raw 0 ≡ segment_magic
  pub version : word32_at raw 4 ≡ segment_version
  pub n_lem : word64_at raw 8 ≡ n_entries
  pub max_lem : word64_at raw 16 ≡ max_sequence
  pub start_lem : length raw - footer_size ≡ io + length index_buf
  pub bo_read : word64_at raw (length raw - footer_size) ≡ bo
  pub bloom_len_read : word64_at raw (length raw - footer_size + 8) ≡ length bloom_buf
  pub io_read : word64_at raw (length raw - footer_size + 16) ≡ io
  pub index_len_read : word64_at raw (length raw - footer_size + 24) ≡ length index_buf
  pub long : segment_header_size + footer_size ≤ length raw
  pub checked : (word32_at raw (length raw - 4) == crc32 (take (length raw - 4) raw)) ≡ true
  pub blocks_at : At raw segment_header_size (concat_blocks blocks ++ tail)
  pub tail_at : At raw bo tail
  pub bloom_at : At raw bo (bloom_buf ++ bloom_tail)
  pub index_at : At raw io (index_buf ++ index_tail)

module _ (crc32 : Bytes → ℕ) (crc_fits : (b : Bytes) → crc32 b < u32_mod)
    (n_entries max_sequence : ℕ) (n_fits : n_entries < u64_mod) (max_fits : max_sequence < u64_mod)
    (blocks : List Bytes) (bloom_buf index_buf : Bytes) where
  pub assemble-Layout :
      (raw : Bytes)
      → raw ≡ assemble crc32 n_entries max_sequence blocks bloom_buf index_buf
      → length raw < u64_mod
      → Layout crc32 raw n_entries max_sequence blocks bloom_buf index_buf
  unfolding assemble with_crc
  assemble-Layout raw whole fits =
      let bo = segment_header_size + total_length blocks in
      let io = bo + length bloom_buf in
      let header = header_bytes n_entries max_sequence (length blocks) in
      let blob = concat_blocks blocks in
      let footer = footer_bytes bo (length bloom_buf) io (length index_buf) n_entries in
      let body = blob ++ (bloom_buf ++ (index_buf ++ footer)) in
      let crc = to_le 4 (crc32 (header ++ body)) in
      let a = At-append header body crc (subst (λ t. At raw 0 t) whole (At-start raw fits)) in
      let (magic, version, n, m, b) =
        header_At raw n_entries max_sequence (length blocks) n_fits max_fits (body ++ crc) a in
      let c = At-append blob (bloom_buf ++ (index_buf ++ footer)) crc b in
      let d =
        At-next (total_length blocks) blob ((bloom_buf ++ (index_buf ++ footer)) ++ crc)
          (sym (length-concat_blocks blocks)) c in
      let e = At-append bloom_buf (index_buf ++ footer) crc d in
      let f = At-next (length bloom_buf) bloom_buf ((index_buf ++ footer) ++ crc) refl e in
      let g = At-append index_buf footer crc f in
      let h = At-next (length index_buf) index_buf (footer ++ crc) refl g in
      let (bo_r, bl_r, io_r, il_r, last) =
        footer_At raw (io + length index_buf) bo (length bloom_buf) io (length index_buf) n_entries
          crc (omega (arith, d.inside, fits)) (omega (arith, f.inside, fits))
          (omega (arith, f.inside, fits)) (omega (arith, h.inside, fits)) h in
      let start : length raw - footer_size ≡ io + length index_buf =
        omega (arith, last.inside, length-to_le 4 (crc32 (header ++ body))) in
      let crc_len = length-to_le 4 (crc32 (header ++ body)) in
      let end : length raw - 4 ≡ length (header ++ body) = omega (
        arith,
        a.inside,
        crc_len,
        length-append header (body ++ crc),
        length-append body crc,
        length-append header body,
      ) in
      let crc_off : io + length index_buf + 40 ≡ length raw - 4 =
        omega (arith, last.inside, crc_len) in
      let at_crc =
        subst (λ t. At raw (length raw - 4) t) (sym (append-nil crc))
          (subst (λ o. At raw o crc) crc_off last) in
      let stored = word32_at-At (crc32 (header ++ body)) [] (crc_fits (header ++ body)) at_crc in
      let covered : take (length raw - 4) raw ≡ header ++ body =
        ap (take (length raw - 4)) whole ∙ take-append (header ++ body) crc (length raw - 4) end in
      record {
        bo = bo;
        io = io;
        tail = (bloom_buf ++ (index_buf ++ footer)) ++ crc;
        bloom_tail = (index_buf ++ footer) ++ crc;
        index_tail = footer ++ crc;
        bo_lem = refl;
        io_lem = refl;
        magic = magic;
        version = version;
        n_lem = n;
        max_lem = m;
        start_lem = start;
        bo_read = rw start bo_r;
        bloom_len_read = rw start bl_r;
        io_read = rw start io_r;
        index_len_read = rw start il_r;
        long = omega (arith, last.inside, length-to_le 4 (crc32 (header ++ body)));
        checked = eq→== _ _ (stored ∙ ap crc32 (sym covered));
        blocks_at = c;
        tail_at = d;
        bloom_at = e;
        index_at = g;
      }
