-- ===== src/Segment/Open/Checked.antt =====
-- crates/toroidal-store/segment.rs: what `open_with` has checked of a file that it accepts.
use toroidal_db.Base.{
  ℕ, zero, suc, ◌+◌, ◌-◌, ◌≡◌, ◌≤◌, ap, subst, min, true, ◌&&◌, ◌||◌, List, [], ◌∷◌, Result, ok,
  err, leb, ◌==◌, length, take, drop, All, Message, if◌then◌else◌, arith, ==_iff, inl, inr,
  Bool-cases, Result-cases, Option-cases,
}
use toroidal_db.Base.Bytes.{Bytes, checked_add}
use toroidal_db.Segment.Bytes.{slice, try_read_u32, try_read_u64, word32_at, word64_at}
use toroidal_db.Segment.Index.{IndexEntry}
use toroidal_db.Segment.Reader.{SegmentReadMode, SegmentReader}
use toroidal_db.Segment.File.{
  segment_magic, segment_version, version_legacy, segment_header_size, footer_size,
}
use toroidal_db.Segment.Open.{check_range, parse_bloom, parse_index, parse_blocks, open_with}
use toroidal_db.Segment.Open.Fuel.{checked_add-eq}

-- The block lies behind the header and before `region_end`.
abbrev pub InRegion : ℕ → IndexEntry → Type 0
InRegion region_end e =
    (segment_header_size ≤ e.block_offset) × (e.block_offset + e.block_size ≤ region_end)

check_range_sound :
    (region_end off len : ℕ) (before overflow beyond : Message)
    → check_range region_end off len before overflow beyond ≡ ok tt
    → (segment_header_size ≤ off) × (off + len ≤ region_end)
unfolding check_range
check_range_sound region_end off len before overflow beyond h =
    elim (Bool-cases (leb segment_header_size off)) [
      | inr a ↦ absurd (let no = rw (check_range, a) at h in cc)
      | inl a ↦ elim (Option-cases (checked_add off len)) [
        | inl b ↦ absurd (let no = rw (check_range, a, b) at h in cc)
        | inr (end, b) ↦ elim (Bool-cases (leb end region_end)) [
          | inr c ↦ absurd (let no = rw (check_range, a, b, c) at h in cc)
          | inl c ↦
              let sum = checked_add-eq off len end b in
              let low : segment_header_size ≤ off = grind arith in
              let high : end ≤ region_end = grind arith in (low, omega arith)
        ]
      ]
    ]

parse_index-InRegion :
    (region_end : ℕ) (index_raw : Bytes) (n off : ℕ) (es : List IndexEntry)
    → parse_index region_end index_raw n off ≡ ok es
    → All (InRegion region_end) es
unfolding parse_index
parse_index-InRegion region_end index_raw zero off es h =
    let same : [] ≡ es = ground arith in subst (All (InRegion region_end)) same tt
parse_index-InRegion region_end index_raw (suc n) off es h =
    elim (Option-cases (try_read_u32 index_raw off)) [
      | inl a ↦ absurd (let no = rw (parse_index, a) at h in cc)
      | inr (kl, a) ↦ elim (Option-cases (checked_add (off + 4) kl)) [
        | inl b ↦ absurd (let no = rw (parse_index, a, b) at h in cc)
        | inr (key_end, b) ↦ elim (Option-cases (slice index_raw (off + 4) kl)) [
          | inl c ↦ absurd (let no = rw (parse_index, a, b, c) at h in cc)
          | inr (key, c) ↦ elim (Option-cases (try_read_u64 index_raw key_end)) [
            | inl d ↦ absurd (let no = rw (parse_index, a, b, c, d) at h in cc)
            | inr (block_offset, d) ↦ elim (Option-cases (try_read_u32 index_raw (key_end + 8))) [
              | inl e ↦ absurd (let no = rw (parse_index, a, b, c, d, e) at h in cc)
              | inr (block_size, e) ↦
                  elim (Result-cases (
                    check_range region_end block_offset block_size
                      Message.index_block_offset_before_header Message.index_block_length_overflow
                      Message.index_block_out_of_file_bounds)) [
                        | inr (x, f) ↦
                            absurd (let no = rw (parse_index, a, b, c, d, e, f) at h in cc)
                        | inl (u, f) ↦
                            elim (Result-cases
                              (parse_index region_end index_raw n (key_end + 8 + 4))) [
                                | inr (x, g) ↦
                                    absurd
                                      (let no = rw (parse_index, a, b, c, d, e, f, g) at h in cc)
                                | inl (rest, g) ↦
                                    let yes = rw (parse_index, a, b, c, d, e, f, g) at h in
                                    let entry : IndexEntry = record {
                                      first_key = key;
                                      block_offset = block_offset;
                                      block_size = block_size;
                                    } in
                                    let same : entry ∷ rest ≡ es = ground arith in
                                    let range =
                                      check_range_sound region_end block_offset block_size
                                        Message.index_block_offset_before_header
                                        Message.index_block_length_overflow
                                        Message.index_block_out_of_file_bounds f in
                                    subst (All (InRegion region_end)) same (
                                      range,
                                      parse_index-InRegion region_end index_raw n (key_end + 8 + 4)
                                          rest g,
                                    )
                              ]
                      ]
            ]
          ]
        ]
      ]
    ]

abbrev index_of : Result SegmentReader → List IndexEntry
index_of (ok r) = r.index
index_of (err e) = []

-- A file that is opened is at least as long as a header and a footer, its checksum is that of its bytes, its magic number
-- and its version are known ones, and every block of its index lies behind the header and before the footer.
pub open_with_sound :
    (crc32 : Bytes → ℕ) (raw : Bytes) (id : ℕ) (mode : SegmentReadMode) (r : SegmentReader)
    → open_with crc32 raw id mode ≡ ok r
    → (segment_header_size + footer_size ≤ length raw)
      × (word32_at raw (length raw - 4) ≡ crc32 (take (length raw - 4) raw))
      × (word32_at raw 0 ≡ segment_magic)
      × (((word32_at raw 4 == version_legacy) || (word32_at raw 4 == segment_version)) ≡ true)
      × All (InRegion (length raw - footer_size)) r.index
unfolding open_with
open_with_sound crc32 raw id mode r h =
    let end = length raw - footer_size in
    let bo = word64_at raw end in
    let bl = word64_at raw (end + 8) in
    let io = word64_at raw (end + 16) in
    let il = word64_at raw (end + 24) in
    let index_raw = take il (drop io raw) in
    let version = word32_at raw 4 in
    let index_n = if leb 4 il then word32_at index_raw 0 else 0 in
    elim (Bool-cases (leb (segment_header_size + footer_size) (length raw))) [
      | inr a ↦ absurd (let no = rw (open_with, a) at h in cc)
      | inl a ↦
          elim (Bool-cases (word32_at raw (length raw - 4) == crc32 (take (length raw - 4) raw))) [
            | inr b ↦ absurd (let no = rw (open_with, a, b) at h in cc)
            | inl b ↦ elim (Bool-cases (word32_at raw 0 == segment_magic)) [
              | inr c ↦ absurd (let no = rw (open_with, a, b, c) at h in cc)
              | inl c ↦
                  elim (Bool-cases ((version == version_legacy) || (version == segment_version))) [
                    | inr d ↦ absurd (let no = rw (open_with, a, b, c, d) at h in cc)
                    | inl d ↦
                        elim (Result-cases (
                          check_range end bo bl Message.bloom_offset_before_header
                            Message.bloom_length_overflow Message.bloom_out_of_file_bounds)) [
                              | inr (x, e) ↦
                                  absurd (let no = rw (open_with, a, b, c, d, e) at h in cc)
                              | inl (u, e) ↦ elim (Option-cases (checked_add io il)) [
                                | inl f ↦
                                    absurd (let no = rw (open_with, a, b, c, d, e, f) at h in cc)
                                | inr (ie, f) ↦ elim (Bool-cases (leb bo io && leb ie end)) [
                                  | inr g ↦
                                      absurd
                                        (let no = rw (open_with, a, b, c, d, e, f, g) at h in cc)
                                  | inl g ↦ elim (Result-cases (parse_bloom raw bo bl)) [
                                    | inr (x, i) ↦
                                        absurd (
                                          let no = rw (open_with, a, b, c, d, e, f, g, i) at h in
                                          cc)
                                    | inl (bloom, i) ↦
                                        elim (Result-cases (parse_index end index_raw index_n 4)) [
                                          | inr (x, j) ↦ absurd (
                                              let no =
                                                rw (open_with, a, b, c, d, e, f, g, i, j) at h in
                                              cc)
                                          | inl (index, j) ↦
                                              let known =
                                                parse_index-InRegion end index_raw index_n 4 index
                                                  j in
                                              let same : index ≡ r.index =
                                                elim (Result-cases (
                                                  parse_blocks raw (min bo end)
                                                    (version == version_legacy) (length raw)
                                                    segment_header_size [])) [
                                                      | inr (x, k) ↦ absurd (
                                                          let no =
                                                            rw
                                                            (
                                                            open_with, a, b, c, d, e, f, g, i, j, k,
                                                            )
                                                            at h in
                                                          cc)
                                                      | inl (m, k) ↦
                                                          let yes =
                                                            rw
                                                            (
                                                            open_with, a, b, c, d, e, f, g, i, j, k,
                                                            )
                                                            at h in
                                                          ap index_of yes
                                                    ] in
                                              let long : segment_header_size + footer_size
                                                  ≤ length raw =
                                                grind arith in
                                              let crc : word32_at raw (length raw - 4)
                                                  ≡ crc32 (take (length raw - 4) raw) =
                                                (==_iff _ _).0 b in
                                              let magic : word32_at raw 0 ≡ segment_magic =
                                                (==_iff _ _).0 c in
                                              (
                                                long,
                                                crc,
                                                magic,
                                                d,
                                                subst (All (InRegion end)) same known,
                                              )
                                        ]
                                  ]
                                ]
                              ]
                            ]
                  ]
            ]
          ]
    ]
