-- ===== src/Wal/RoundTrip.antt =====
-- crates/toroidal-store/wal.rs: a frame that was built and encoded is decoded to the same frame, and
-- its logical frame is the operation that it was built from.
use toroidal_db.Base.{
  ℕ, ◌+◌, ◌-◌, ◌≤◌, ◌<◌, ◌≡◌, refl, [], ◌∷◌, ◌++◌, length, take, drop, get_or, length-append,
  take-append, drop-append, drop-add, append-nil, ◌∙◌, ok, arith,
}
use toroidal_db.Base.Bytes.{Bytes, u32_mod, u64_mod, to_le, length-to_le, checked_add}
use toroidal_db.Wal.Frame.{
  WalFrameKind, PhysicalFrame, validate_batch_id_for_kind, read_u16, read_u32, read_u64,
  decode_payload_for_kind, build, encoded_len, covered, to_logical, encode, decode, magic_word,
  version_word, max_payload_size,
}
use toroidal_db.Wal.Codec.{
  read_u16-drop, read_u32-drop, read_u64-drop, length-to_le-append, IsFrameOf, build-IsFrameOf,
}

length-covered : (f : PhysicalFrame) → length (covered f) ≡ 23 + length f.payload
unfolding covered to_le
length-covered f = omega arith

pub encoded_len_lem :
    (f : PhysicalFrame)
    → length f.payload ≤ max_payload_size
    → encoded_len f ≡ ok (31 + length f.payload)
unfolding encoded_len checked_add
encoded_len_lem f h = ground arith

module _ (crc32 : Bytes → ℕ) where
  -- The bytes of a frame of payload length `n`.
  unfoldable pub frame_bytes : PhysicalFrame → Bytes
  frame_bytes f = to_le 4 (31 + length f.payload) ++ (covered f ++ to_le 4 (crc32 (covered f)))

  pub length-frame_bytes : (f : PhysicalFrame) → length (frame_bytes f) ≡ 31 + length f.payload
  unfolding frame_bytes
  length-frame_bytes f = omega (
    arith,
    length-to_le-append 4 (31 + length f.payload) (covered f ++ to_le 4 (crc32 (covered f))),
    length-append (covered f) (to_le 4 (crc32 (covered f))),
    length-covered f,
    length-to_le 4 (crc32 (covered f)),
  )

  pub encode-frame_bytes :
      (f : PhysicalFrame)
      → length f.payload ≤ max_payload_size
      → encode crc32 f ≡ ok (frame_bytes f)
  unfolding encode frame_bytes
  encode-frame_bytes f h = rw (encoded_len_lem f h) (ground arith)

  -- `decode` from what its reads return.
  decode_reads :
      (bytes : Bytes) (f : PhysicalFrame) (kind : WalFrameKind)
      → length bytes ≡ 31 + length f.payload
      → length f.payload ≤ max_payload_size
      → read_u32 bytes 0 ≡ ok (31 + length f.payload)
      → read_u32 bytes 4 ≡ ok magic_word
      → read_u16 bytes 8 ≡ ok version_word
      → read_u64 bytes 10 ≡ ok f.sequence
      → read_u64 bytes 18 ≡ ok f.batch_id
      → get_or bytes 26 0 ≡ f.kind
      → (1 ≤ f.kind) × (f.kind ≤ 4)
      → take (length bytes - 4 - 27) (drop 27 bytes) ≡ f.payload
      → read_u32 bytes (length bytes - 4) ≡ ok (crc32 (covered f))
      → take (length bytes - 4 - 4) (drop 4 bytes) ≡ covered f
      → decode_payload_for_kind f.kind f.batch_id f.payload ≡ ok kind
      → validate_batch_id_for_kind kind f.batch_id ≡ ok tt
      → decode crc32 bytes ≡ ok f
  unfolding decode
  decode_reads bytes f kind len fits r0 r4 r8 r10 r18 k kr p c cov dk vk = ground arith

  -- Where the fields of a frame stand.
  module _ (f : PhysicalFrame) where
    abbrev bytes : Bytes
    bytes = frame_bytes f

    abbrev tail : Bytes
    tail = to_le 4 (crc32 (covered f))

    drop_four : drop 4 bytes ≡ covered f ++ tail
    unfolding frame_bytes to_le
    drop_four = refl

    drop_magic : drop 4 bytes ≡ to_le 4 magic_word ++ drop 8 bytes
    unfolding frame_bytes to_le covered
    drop_magic = refl

    drop_eight :
        drop 8 bytes
        ≡ to_le 2 version_word
          ++ (to_le 8 f.sequence ++ (to_le 8 f.batch_id ++ (f.kind ∷ (f.payload ++ tail))))
    unfolding frame_bytes to_le covered
    drop_eight = refl

    drop_ten :
        drop 10 bytes ≡ to_le 8 f.sequence ++ (to_le 8 f.batch_id ++ (f.kind ∷ (f.payload ++ tail)))
    unfolding frame_bytes to_le covered
    drop_ten = refl

    drop_eighteen : drop 18 bytes ≡ to_le 8 f.batch_id ++ (f.kind ∷ (f.payload ++ tail))
    unfolding frame_bytes to_le covered
    drop_eighteen = refl

    kind_at : get_or bytes 26 0 ≡ f.kind
    unfolding frame_bytes to_le covered
    kind_at = refl

    drop_header : drop 27 bytes ≡ f.payload ++ tail
    unfolding frame_bytes to_le covered
    drop_header = refl

    drop_crc : drop (4 + length (covered f)) bytes ≡ tail ++ []
    drop_crc = rw (drop-add, drop_four, append-nil) (drop-append (covered f) tail _ refl)

    crc_at : length bytes - 4 ≡ 4 + length (covered f)
    crc_at = omega (arith, length-frame_bytes f, length-covered f)

    -- The bytes of a frame that stands for an operation are decoded to that frame.
    pub decode-frame_bytes :
        {kind : WalFrameKind}
        → crc32 (covered f) < u32_mod
        → IsFrameOf f kind
        → decode crc32 (frame_bytes f) ≡ ok f
    decode-frame_bytes {kind} hc h =
        decode_reads (frame_bytes f) f kind (length-frame_bytes f) h.payload_fits
          (unfold frame_bytes in
            read_u32-drop _ 0 _ (covered f ++ tail) refl (omega (arith, h.payload_fits)))
          (read_u32-drop _ 4 magic_word _ drop_magic (omega arith))
          (read_u16-drop _ 8 version_word _ drop_eight (omega arith))
          (read_u64-drop _ 10 f.sequence _ drop_ten h.sequence_fits)
          (read_u64-drop _ 18 f.batch_id _ drop_eighteen h.batch_id_fits) kind_at h.kind_range
          (rw drop_header (take-append f.payload tail _ (omega (arith, length-frame_bytes f))))
          (rw crc_at
            (read_u32-drop bytes (4 + length (covered f)) (crc32 (covered f)) [] drop_crc hc))
          (rw drop_four (
            take-append (covered f) tail _ (omega (arith, length-frame_bytes f, length-covered f))))
          h.reads_back h.batch_valid

  -- The logical frame of a frame that stands for an operation.
  pub to_logical_lem :
      (f : PhysicalFrame) {kind : WalFrameKind}
      → IsFrameOf f kind
      → to_logical f ≡ ok (record { sequence = f.sequence; batch_id = f.batch_id; kind = kind })
  unfolding to_logical
  to_logical_lem f h = rw h.reads_back

  -- A frame that `build` returns is encoded, its bytes are decoded to the same frame, and its logical
  -- frame is the operation that it was built from, with its sequence and batch. The checksum is any
  -- function into 32 bits; the sequence and the batch fit 64 bits.
  pub decode-encode :
      (seq bid : ℕ) (kind : WalFrameKind) {f : PhysicalFrame}
      → ((b : Bytes) → crc32 b < u32_mod)
      → seq < u64_mod
      → bid < u64_mod
      → build seq bid kind ≡ ok f
      → (bytes : Bytes) × (encode crc32 f ≡ ok bytes)
        × (decode crc32 bytes ≡ ok f)
        × (to_logical f ≡ ok (record { sequence = seq; batch_id = bid; kind = kind }))
  decode-encode seq bid kind {f} hc hs hb h =
      let (isf, es, eb) = build-IsFrameOf seq bid kind hs hb h in
      (
        frame_bytes f,
        encode-frame_bytes f isf.payload_fits,
        decode-frame_bytes f (hc (covered f)) isf,
        to_logical_lem f isf ∙ rw (es, eb),
      )
