-- ===== src/Wal/Scan.antt =====
-- crates/toroidal-store/wal.rs: what the reading loops make of a file that holds whole frames and,
-- behind them, bytes at which reading stops.
use toroidal_db.Base.{
  ℕ, ◌+◌, ◌-◌, ◌≤◌, ◌<◌, ◌≡◌, ◌⊎◌, inl, inr, refl, sym, ap, ◌∙◌, ◌++◌, length, take, drop,
  take-append, drop-append, append_assoc, take-take, length-take, length-drop, arith,
}
use toroidal_db.Base.Bytes.{
  Bytes, u32_mod, to_le, length-to_le, take_exact-append, take_exact_short, take_exact_long,
  from_le-to_le_u32,
}
use toroidal_db.Wal.Frame.{WalFrameKind, PhysicalFrame, covered, max_payload_size}
use native.Mathlib.Decide.{dec_lt}
use toroidal_db.Wal.Codec.{IsFrameOf, length-to_le-append, drop-to_le}
use toroidal_db.Wal.RoundTrip.{frame_bytes, length-frame_bytes, decode-frame_bytes}
use toroidal_db.Wal.Read.{FrameRead, read_body, read_next_frame}

-- The input ends before a whole frame is read.
abbrev pub IsEnd : FrameRead → Type 0
IsEnd r = (r ≡ FrameRead.eof) ⊎ (r ≡ FrameRead.truncated)

module _ (crc32 : Bytes → ℕ) (crc32_fits : (b : Bytes) → crc32 b < u32_mod) where
  -- The length field of a frame, and what stands behind it.
  after_len : PhysicalFrame → Bytes
  after_len f = covered f ++ to_le 4 (crc32 (covered f))

  frame_bytes-after_len :
      (f : PhysicalFrame) → frame_bytes crc32 f ≡ to_le 4 (31 + length f.payload) ++ after_len f
  unfolding frame_bytes after_len
  frame_bytes-after_len f = refl

  length-after_len : (f : PhysicalFrame) → length (after_len f) ≡ 27 + length f.payload
  length-after_len f = omega (
    arith,
    ap length (frame_bytes-after_len f),
    length-frame_bytes crc32 f,
    length-to_le-append 4 (31 + length f.payload) (after_len f),
  )

  read_body-frame :
      {kind : WalFrameKind} (f : PhysicalFrame) (rest : Bytes)
      → IsFrameOf f kind
      → read_body crc32
          (to_le 4 (31 + length f.payload))
          (31 + length f.payload)
          (after_len f ++ rest)
        ≡ FrameRead.frame f rest
  unfolding read_body
  read_body-frame f rest h = ground (
    arith,
    h.payload_fits,
    take_exact-append (after_len f) rest (31 + length f.payload - 4)
        (omega (arith, length-after_len f)),
    drop-append (after_len f) rest (31 + length f.payload - 4) (omega (arith, length-after_len f)),
    rw frame_bytes-after_len at (decode-frame_bytes crc32 f (crc32_fits (covered f)) h),
  )

  -- A whole frame is read, whatever stands behind it.
  pub read_next_frame-frame :
      {kind : WalFrameKind} (f : PhysicalFrame) (rest : Bytes)
      → IsFrameOf f kind
      → read_next_frame crc32 (frame_bytes crc32 f ++ rest) ≡ FrameRead.frame f rest
  unfolding read_next_frame
  read_next_frame-frame f rest h =
      let len = 31 + length f.payload in
      rw (frame_bytes-after_len f, append_assoc)
        (rw
          (
            take_exact-append (to_le 4 len) (after_len f ++ rest) 4 (sym (length-to_le 4 len)),
            read_next_frame,
          )
          (rw
            (
              drop-to_le 4 len (after_len f ++ rest),
              from_le-to_le_u32 len (omega (arith, h.payload_fits)),
            )
            (read_body-frame f rest h)))

  -- Too few bytes for a frame of payload length `n`.
  read_short :
      (n : ℕ) (front : Bytes)
      → n ≤ max_payload_size
      → length front < 31 + n
      → (4 ≤ length front → take 4 front ≡ to_le 4 (31 + n))
      → IsEnd (read_next_frame crc32 front)
  unfolding read_next_frame read_body
  read_short n front fits short head = elim (dec_lt (length front) 4) [
    | yes p ↦ inl (rw (take_exact_short 4 front p, read_next_frame))
    | no p ↦ inr (
        ground (
          arith,
          take_exact_long 4 front (omega arith),
          head (omega arith),
          from_le-to_le_u32 (31 + n) (omega arith),
          take_exact_short (31 + n - 4) (drop 4 front) (omega (arith, length-drop 4 front)),
        ))
  ]

  -- Of a frame that is cut short nothing is read.
  pub read_next_frame_torn :
      {kind : WalFrameKind} (f : PhysicalFrame) (k : ℕ)
      → IsFrameOf f kind
      → k < length (frame_bytes crc32 f)
      → IsEnd (read_next_frame crc32 (take k (frame_bytes crc32 f)))
  read_next_frame_torn f k h short =
      let bytes = frame_bytes crc32 f in
      read_short (length f.payload) (take k bytes) h.payload_fits
        (omega (arith, length-take k bytes, length-frame_bytes crc32 f))
        (λ p.
          take-take 4 k bytes (omega (arith, length-take k bytes))
          ∙ rw frame_bytes-after_len (
              take-append (to_le 4 (31 + length f.payload)) (after_len f) 4
                (sym (length-to_le 4 (31 + length f.payload)))))
