-- ===== src/Segment/Open/Entries.antt =====
-- crates/toroidal-store/segment.rs: `open_with` on the blocks that `encode_block` wrote.
use toroidal_db.Base.{
  ℕ, zero, suc, ◌+◌, ◌≡◌, ◌≤◌, ◌<◌, refl, sym, ap, subst, ◌∙◌, false, List, [], ◌∷◌, ◌++◌, length,
  leb, le→leb, lt→leb, le→ltb, ok, arith, append_assoc, length-append,
}
use toroidal_db.Base.Bytes.{Bytes, u32_mod, to_le, length-to_le}
use toroidal_db.Snapshot.{EntryValue, byte_size, value_version, tombstone_version}
use toroidal_db.MemTable.{Entries}
use toroidal_db.Segment.Bytes.{
  At, At-next, At-append, At-le, take-At, try_read_u32-At, try_read_u64-At, try_read_u8-At,
  checked_add-At, word32_at-At,
}
use toroidal_db.Segment.Block.{
  kind_value, kind_tombstone, value_bytes, block_entry, entries_bytes, encode_block, DecodedEntry,
}
use toroidal_db.Segment.Block.RoundTrip.{AllFit, block_entry-append}
use toroidal_db.Segment.File.{concat_blocks}
use toroidal_db.Segment.File.Blocks.{encode_all, flatten}
use toroidal_db.Segment.Open.{
  SegmentMap, push_entry, parse_bytes, parse_kind, parse_value, parse_entries, parse_blocks,
}

unfoldable pub push_all : Entries → SegmentMap → SegmentMap
push_all [] m = m
push_all ((key, ve) ∷ rest) m = push_all rest (push_entry key ve m)

push_all-append :
    (es fs : Entries) (m : SegmentMap) → push_all (es ++ fs) m ≡ push_all fs (push_all es m)
unfolding push_all
push_all-append [] fs m = refl
push_all-append ((key, ve) ∷ es) fs m = push_all-append es fs (push_entry key ve m)

pub AllFit-append : (es fs : Entries) → AllFit (es ++ fs) → AllFit es × AllFit fs
AllFit-append [] fs h = (tt, h)
AllFit-append ((key, ve) ∷ es) fs (f, h) =
    let (left, right) = AllFit-append es fs h in ((f, left), right)

pub append-AllFit : (es fs : Entries) → AllFit es → AllFit fs → AllFit (es ++ fs)
append-AllFit [] fs h k = k
append-AllFit ((key, ve) ∷ es) fs (f, h) k = (f, append-AllFit es fs h k)

module _ (raw : Bytes) (data_end : ℕ) (tail : Bytes) (stop : At raw data_end tail) where
  parse_bytes-At :
      (cursor sequence : ℕ) (v z : Bytes)
      → At raw cursor (v ++ (z ++ tail))
      → parse_bytes raw data_end cursor sequence (length v)
        ≡ ok (record { entry = value_version sequence v; next = cursor + length v })
  unfolding parse_bytes
  parse_bytes-At cursor sequence v z a =
      let inside = At-le z tail (At-next (length v) v (z ++ tail) refl a) stop in
      rw
        (
          checked_add-At (length v) v (z ++ tail) refl a,
          le→leb _ _ inside,
          take-At (length v) v (z ++ tail) refl a,
        )
        refl

  parse_kind-At :
      (cursor sequence : ℕ) (v : EntryValue) (z : Bytes)
      → byte_size v < u32_mod
      → At raw cursor (value_bytes v ++ (z ++ tail))
      → (d : DecodedEntry) × (parse_kind raw data_end cursor sequence ≡ ok d)
        × (d.entry ≡ record { sequence = sequence; value = v })
        × At raw d.next (z ++ tail)
  unfolding value_bytes parse_kind
  parse_kind-At cursor sequence EntryValue.tombstone z h a = (
    record { entry = tombstone_version sequence; next = cursor + 1 },
    rw (try_read_u8-At kind_tombstone (z ++ tail) a) refl,
    refl,
    At-next 1 (kind_tombstone ∷ []) (z ++ tail) refl a,
  )
  parse_kind-At cursor sequence (EntryValue.value v) z h a =
      let rest = z ++ tail in
      let b = At-next 1 (kind_value ∷ []) ((to_le 4 (length v) ++ v) ++ rest) refl a in
      let c = At-append (to_le 4 (length v)) v rest b in
      let d = At-next 4 (to_le 4 (length v)) (v ++ rest) (sym (length-to_le 4 (length v))) c in
      (
        record { entry = value_version sequence v; next = cursor + 1 + 4 + length v },
        rw
            (
              try_read_u8-At kind_value ((to_le 4 (length v) ++ v) ++ rest) a,
              try_read_u32-At (length v) (v ++ rest) h c,
              parse_bytes-At (cursor + 1 + 4) sequence v z d,
            )
            refl,
        refl,
        At-next (length v) v rest refl d,
      )

  -- The entries of a block, pushed to the map, and the offset behind them.
  parse_entries-At :
      (entries : Entries) (cursor : ℕ) (z : Bytes) (m : SegmentMap)
      → AllFit entries
      → At raw cursor (entries_bytes entries ++ (z ++ tail))
      → (next : ℕ) × (parse_entries raw data_end false (length entries) cursor m
          ≡ ok (push_all entries m, next))
        × At raw next (z ++ tail)
  unfolding entries_bytes parse_entries parse_value push_all
  parse_entries-At [] cursor z m f a = (cursor, refl, a)
  parse_entries-At ((key, ve) ∷ rest) cursor z m (f, fs) a =
      let kl = length key in
      let on = entries_bytes rest ++ (z ++ tail) in
      let b =
        subst (λ t. At raw cursor t) (block_entry-append key ve on)
          (At-append (block_entry key ve) (entries_bytes rest) (z ++ tail) a) in
      let seq_on = to_le 8 ve.sequence ++ (value_bytes ve.value ++ on) in
      let c = At-next 4 (to_le 4 kl) (key ++ seq_on) (sym (length-to_le 4 kl)) b in
      let d = At-next kl key seq_on refl c in
      let e =
        At-next 8 (to_le 8 ve.sequence) (value_bytes ve.value ++ on)
          (sym (length-to_le 8 ve.sequence)) d in
      let e' =
        subst (λ t. At raw (cursor + 4 + kl + 8) (value_bytes ve.value ++ t))
          (sym (append_assoc (entries_bytes rest) z tail)) e in
      let (found, read, entry, next) =
        parse_kind-At (cursor + 4 + kl + 8) ve.sequence ve.value (entries_bytes rest ++ z)
          f.value_short e' in
      let next' = At-append (entries_bytes rest) z tail next in
      let (last, parsed, at_last) =
        parse_entries-At rest found.next z (push_entry key ve m) fs next' in
      let inside : cursor + 4 + kl ≤ data_end = omega (
        arith,
        d.inside,
        stop.inside,
        length-append (to_le 8 ve.sequence) (value_bytes ve.value ++ on),
        length-append (value_bytes ve.value) on,
        length-append (entries_bytes rest) (z ++ tail),
        length-append z tail,
      ) in
      (
        last,
        rw
            (
              try_read_u32-At kl (key ++ seq_on) f.key_short b,
              checked_add-At kl key seq_on refl c,
              le→leb _ _ inside,
              take-At kl key seq_on refl c,
              try_read_u64-At ve.sequence (value_bytes ve.value ++ on) f.sequence_fits d,
              read,
              entry,
            )
            parsed,
        at_last,
      )

  module _ (crc32 : Bytes → ℕ) where
    -- All entries of the blocks that stand one behind the other, pushed to the map in order.
    pub parse_blocks-At :
        (groups : List Entries) (fuel cursor : ℕ) (m : SegmentMap)
        → length groups ≤ fuel
        → AllFit (flatten groups)
        → length (flatten groups) < u32_mod
        → At raw cursor (concat_blocks (encode_all crc32 groups) ++ tail)
        → parse_blocks raw data_end false fuel cursor m ≡ ok (push_all (flatten groups) m)
    unfolding parse_blocks encode_block encode_all flatten concat_blocks push_all
    parse_blocks-At [] zero cursor m n f few a = refl
    parse_blocks-At [] (suc fuel) cursor m n f few a =
        let stopped : leb (cursor + 4) data_end ≡ false =
          lt→leb _ _ (omega (arith, a.inside, stop.inside)) in
        rw (parse_blocks, stopped) refl
    parse_blocks-At (g ∷ gs) zero cursor m n f few a = absurd (omega arith)
    parse_blocks-At (g ∷ gs) (suc fuel) cursor m n f few a =
        let count = to_le 4 (length g) in
        let eb = entries_bytes g in
        let crc = to_le 4 (crc32 (count ++ eb)) in
        let zs = concat_blocks (encode_all crc32 gs) in
        let sizes = length-append g (flatten gs) in
        let b =
          At-append (count ++ eb) crc (zs ++ tail) (At-append (encode_block crc32 g) zs tail a) in
        let c = At-append count eb (crc ++ (zs ++ tail)) b in
        let d = At-next 4 count (eb ++ (crc ++ (zs ++ tail))) (sym (length-to_le 4 (length g))) c in
        let e = subst (λ t. At raw (cursor + 4) (eb ++ t)) (sym (append_assoc crc zs tail)) d in
        let (fg, fgs) = AllFit-append g (flatten gs) f in
        let (next, parsed, on) = parse_entries-At g (cursor + 4) (crc ++ zs) m fg e in
        let h =
          At-next 4 crc (zs ++ tail) (sym (length-to_le 4 (crc32 (count ++ eb))))
            (At-append crc zs tail on) in
        let room : cursor + 4 ≤ data_end = omega (
          arith,
          e.inside,
          stop.inside,
          length-append eb ((crc ++ zs) ++ tail),
          length-append (crc ++ zs) tail,
        ) in
        rw
          (
            parse_blocks,
            le→leb _ _ room,
            word32_at-At (length g) (eb ++ (crc ++ (zs ++ tail))) (omega arith) c,
            parsed,
            le→ltb _ _ (At-le zs tail h stop),
          )
          (parse_blocks-At gs fuel (next + 4) (push_all g m) (omega arith) fgs (omega arith) h
            ∙ ap ok (sym (push_all-append g (flatten gs) m)))
