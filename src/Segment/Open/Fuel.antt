-- ===== src/Segment/Open/Fuel.antt =====
-- crates/toroidal-store/segment.rs: the loop of `open_with` over the blocks ends.
use toroidal_db.Base.{
  ℕ, zero, suc, ◌+◌, ◌≡◌, ◌≤◌, refl, Bool, true, false, ok, leb, arith, inl, inr, lt→leb, some,
  take, drop, ◌==◌, Bool-cases, Result-cases, Option-cases,
}
use toroidal_db.Base.Bytes.{Bytes, checked_add}
use native.Mathlib.Nat.{zero-add, suc-add}
use toroidal_db.Segment.Bytes.{try_read_u32, try_read_u64, try_read_u8, word32_at}
use toroidal_db.Segment.Block.{DecodedEntry, kind_value, kind_tombstone}
use toroidal_db.Segment.Open.{
  SegmentMap, push_entry, parse_bytes, parse_legacy, parse_kind, parse_value, parse_entries,
  parse_blocks,
}

pub checked_add-eq : (a b c : ℕ) → checked_add a b ≡ some c → c ≡ a + b
unfolding checked_add
checked_add-eq a b c h = ground arith

module _ (raw : Bytes) (data_end : ℕ) (legacy : Bool) where
  parse_bytes-advances :
      (cursor sequence vl : ℕ) (d : DecodedEntry)
      → parse_bytes raw data_end cursor sequence vl ≡ ok d
      → cursor ≤ d.next
  unfolding parse_bytes
  parse_bytes-advances cursor sequence vl d h = elim (Option-cases (checked_add cursor vl)) [
    | inl e ↦ absurd (let no = rw (parse_bytes, e) at h in cc)
    | inr (val_end, e) ↦
        let sum = checked_add-eq cursor vl val_end e in
        elim (Bool-cases (leb val_end data_end)) [
          | inr f ↦ absurd (let no = rw (parse_bytes, e, f) at h in cc)
          | inl f ↦
              let yes = rw (parse_bytes, e, f) at h in
              let same : val_end ≡ d.next = ground arith in omega arith
        ]
  ]

  parse_legacy-advances :
      (cursor sequence : ℕ) (d : DecodedEntry)
      → parse_legacy raw data_end cursor sequence ≡ ok d
      → cursor ≤ d.next
  unfolding parse_legacy
  parse_legacy-advances cursor sequence d h = elim (Option-cases (try_read_u32 raw cursor)) [
    | inl e ↦ absurd (let no = rw (parse_legacy, e) at h in cc)
    | inr (vl, e) ↦ elim (Bool-cases (vl == 0)) [
      | inl f ↦
          let yes = rw (parse_legacy, e, f) at h in
          let same : cursor + 4 ≡ d.next = ground arith in omega arith
      | inr f ↦
          let yes = rw (parse_legacy, e, f) at h in
          omega (arith, parse_bytes-advances (cursor + 4) sequence vl d yes)
    ]
  ]

  parse_kind-advances :
      (cursor sequence : ℕ) (d : DecodedEntry)
      → parse_kind raw data_end cursor sequence ≡ ok d
      → cursor ≤ d.next
  unfolding parse_kind
  parse_kind-advances cursor sequence d h = elim (Option-cases (try_read_u8 raw cursor)) [
    | inl e ↦ absurd (let no = rw (parse_kind, e) at h in cc)
    | inr (kind, e) ↦ elim (Bool-cases (kind == kind_tombstone)) [
      | inl f ↦
          let yes = rw (parse_kind, e, f) at h in
          let same : cursor + 1 ≡ d.next = ground arith in omega arith
      | inr f ↦ elim (Bool-cases (kind == kind_value)) [
        | inr g ↦ absurd (let no = rw (parse_kind, e, f, g) at h in cc)
        | inl g ↦ elim (Option-cases (try_read_u32 raw (cursor + 1))) [
          | inl i ↦ absurd (let no = rw (parse_kind, e, f, g, i) at h in cc)
          | inr (vl, i) ↦
              let yes = rw (parse_kind, e, f, g, i) at h in
              omega (arith, parse_bytes-advances (cursor + 1 + 4) sequence vl d yes)
        ]
      ]
    ]
  ]

  parse_value-advances :
      (version_one : Bool) (cursor sequence : ℕ) (d : DecodedEntry)
      → parse_value raw data_end version_one cursor sequence ≡ ok d
      → cursor ≤ d.next
  unfolding parse_value
  parse_value-advances true cursor sequence d h = parse_legacy-advances cursor sequence d h
  parse_value-advances false cursor sequence d h = parse_kind-advances cursor sequence d h

  -- The entries of a block are read forwards.
  parse_entries-advances :
      (n cursor : ℕ) (m : SegmentMap) (m' : SegmentMap) (next : ℕ)
      → parse_entries raw data_end legacy n cursor m ≡ ok (m', next)
      → cursor ≤ next
  unfolding parse_entries
  parse_entries-advances zero cursor m m' next h = ground arith
  parse_entries-advances (suc n) cursor m m' next h =
      elim (Option-cases (try_read_u32 raw cursor)) [
        | inl e ↦ absurd (let no = rw (parse_entries, e) at h in cc)
        | inr (kl, e) ↦ elim (Option-cases (checked_add (cursor + 4) kl)) [
          | inl f ↦ absurd (let no = rw (parse_entries, e, f) at h in cc)
          | inr (key_end, f) ↦
              let sum = checked_add-eq (cursor + 4) kl key_end f in
              elim (Bool-cases (leb key_end data_end)) [
                | inr g ↦ absurd (let no = rw (parse_entries, e, f, g) at h in cc)
                | inl g ↦ elim (Option-cases (try_read_u64 raw key_end)) [
                  | inl i ↦ absurd (let no = rw (parse_entries, e, f, g, i) at h in cc)
                  | inr (seq, i) ↦
                      elim (Result-cases (parse_value raw data_end legacy (key_end + 8) seq)) [
                        | inr (x, j) ↦
                            absurd (let no = rw (parse_entries, e, f, g, i, j) at h in cc)
                        | inl (d, j) ↦
                            let yes = rw (parse_entries, e, f, g, i, j) at h in
                            let behind = parse_value-advances legacy (key_end + 8) seq d j in
                            let rest =
                              parse_entries-advances n d.next
                                (push_entry (take kl (drop (cursor + 4) raw)) d.entry m) m' next
                                yes in
                            omega (arith, sum, behind, rest)
                      ]
                ]
              ]
        ]
      ]

  -- Fuel that reaches the end of the blocks is enough: more gives the same result.
  pub parse_blocks_fuel :
      (n extra cursor : ℕ) (m : SegmentMap)
      → data_end ≤ cursor + n
      → parse_blocks raw data_end legacy (n + extra) cursor m
        ≡ parse_blocks raw data_end legacy n cursor m
  unfolding parse_blocks
  parse_blocks_fuel zero zero cursor m h = refl
  parse_blocks_fuel zero (suc extra) cursor m h =
      let past : leb (cursor + 4) data_end ≡ false = lt→leb _ _ (omega arith) in
      rw (zero-add, parse_blocks, past) refl
  parse_blocks_fuel (suc n) extra cursor m h =
      rw suc-add (elim (Bool-cases (leb (cursor + 4) data_end)) [
        | inr past ↦ rw (parse_blocks, past) refl
        | inl more ↦
            elim (Result-cases
              (parse_entries raw data_end legacy (word32_at raw cursor) (cursor + 4) m)) [
                | inr (e, failed) ↦ rw (parse_blocks, more, failed) refl
                | inl ((m', next), read) ↦
                    let ahead =
                      parse_entries-advances (word32_at raw cursor) (cursor + 4) m m' next read in
                    let rest = parse_blocks_fuel n extra (next + 4) m' (omega arith) in
                    rw (parse_blocks, more, read, rest) refl
              ]
      ])
