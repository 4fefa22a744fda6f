-- ===== src/Segment/Block/RoundTrip.antt =====
-- crates/toroidal-store/segment.rs: what `encode_block` writes is what `decode_block` reads.
use toroidal_db.Base.{
  ℕ, ◌+◌, ◌≡◌, ◌≤◌, ◌<◌, refl, sym, ap, ◌∙◌, subst, false, some, [], ◌∷◌, ◌++◌, length, arith,
  le→ltb, append_assoc, length-append,
}
use toroidal_db.Base.Bytes.{Bytes, u32_mod, u64_mod, to_le, length-to_le}
use toroidal_db.Snapshot.{EntryValue, VersionedEntry, byte_size, value_version, tombstone_version}
use toroidal_db.MemTable.{Entries}
use toroidal_db.Segment.Bytes.{
  At, At-start, At-next, At-append, slice-At, try_read_u32-At, try_read_u64-At, try_read_u8-At,
  checked_add-At,
}
use toroidal_db.Segment.Block.{
  kind_value, kind_tombstone, value_bytes, block_entry, entries_bytes, encode_block, DecodedEntry,
  decode_bytes, decode_kind, decode_value, decode_entries, decode_block,
}

-- An entry whose lengths and sequence fit the words of the format.
pub record Fits (key : Bytes) (ve : VersionedEntry) : Type 0 where
  pub key_short : length key < u32_mod
  pub sequence_fits : ve.sequence < u64_mod
  pub value_short : byte_size ve.value < u32_mod

abbrev pub AllFit : Entries → Type 0
AllFit [] = Unit
AllFit ((key, ve) ∷ rest) = Fits key ve × AllFit rest

pub block_entry-append :
    (key : Bytes) (ve : VersionedEntry) (z : Bytes)
    → block_entry key ve ++ z
      ≡ to_le 4 (length key) ++ (key ++ (to_le 8 ve.sequence ++ (value_bytes ve.value ++ z)))
unfolding block_entry
block_entry-append key ve z =
    append_assoc (to_le 4 (length key)) (key ++ (to_le 8 ve.sequence ++ value_bytes ve.value)) z
    ∙ ap (λ t. to_le 4 (length key) ++ t)
        (append_assoc key (to_le 8 ve.sequence ++ value_bytes ve.value) z
          ∙ ap (λ t. key ++ t) (append_assoc (to_le 8 ve.sequence) (value_bytes ve.value) z))

-- The value of an entry is read, and the offset moves behind it.
decode_bytes-At :
    {block : Bytes} {off : ℕ} (sequence : ℕ) (v z : Bytes)
    → At block off (v ++ z)
    → decode_bytes block off sequence (length v)
      ≡ some (record { entry = value_version sequence v; next = off + length v })
unfolding decode_bytes
decode_bytes-At sequence v z a =
    rw (checked_add-At (length v) v z refl a, slice-At (length v) v z refl a) refl

decode_kind-At :
    {block : Bytes} {off : ℕ} (sequence : ℕ) (v : EntryValue) (z : Bytes)
    → byte_size v < u32_mod
    → At block off (value_bytes v ++ z)
    → (d : DecodedEntry) × (decode_kind block off sequence ≡ some d)
      × (d.entry ≡ record { sequence = sequence; value = v })
      × At block d.next z
unfolding value_bytes decode_kind
decode_kind-At {block} {off} sequence EntryValue.tombstone z h a = (
  record { entry = tombstone_version sequence; next = off + 1 },
  rw (try_read_u8-At kind_tombstone z a) refl,
  refl,
  At-next 1 (kind_tombstone ∷ []) z refl a,
)
decode_kind-At {block} {off} sequence (EntryValue.value v) z h a =
    let b = At-next 1 (kind_value ∷ []) ((to_le 4 (length v) ++ v) ++ z) refl a in
    let c = At-append (to_le 4 (length v)) v z b in
    let d = At-next 4 (to_le 4 (length v)) (v ++ z) (sym (length-to_le 4 (length v))) c in
    (
      record { entry = value_version sequence v; next = off + 1 + 4 + length v },
      rw
          (
            try_read_u8-At kind_value ((to_le 4 (length v) ++ v) ++ z) a,
            try_read_u32-At (length v) (v ++ z) h c,
            decode_bytes-At sequence v z d,
          )
          refl,
      refl,
      At-next (length v) v z refl d,
    )

decode_entries-At :
    {block : Bytes} (entries : Entries) (off : ℕ) (z : Bytes)
    → AllFit entries
    → At block off (entries_bytes entries ++ z)
    → decode_entries false block (length entries) off ≡ some entries
unfolding entries_bytes decode_entries decode_value
decode_entries-At [] off z f a = refl
decode_entries-At {block} ((key, ve) ∷ rest) off z (f, fs) a =
    let kl = length key in
    let tail = entries_bytes rest ++ z in
    let b =
      subst (λ t. At block off t) (block_entry-append key ve tail)
        (At-append (block_entry key ve) (entries_bytes rest) z a) in
    let seq_on = to_le 8 ve.sequence ++ (value_bytes ve.value ++ tail) in
    let c = At-next 4 (to_le 4 kl) (key ++ seq_on) (sym (length-to_le 4 kl)) b in
    let d = At-next kl key seq_on refl c in
    let e =
      At-next 8 (to_le 8 ve.sequence) (value_bytes ve.value ++ tail)
        (sym (length-to_le 8 ve.sequence)) d in
    let (found, read, entry, next) = decode_kind-At ve.sequence ve.value tail f.value_short e in
    rw
      (
        try_read_u32-At kl (key ++ seq_on) f.key_short b,
        checked_add-At kl key seq_on refl c,
        slice-At kl key seq_on refl c,
        try_read_u64-At ve.sequence (value_bytes ve.value ++ tail) f.sequence_fits d,
        read,
        entry,
        decode_entries-At rest found.next z fs next,
      )
      refl

module _ (crc32 : Bytes → ℕ) where
  -- The entries of a block, of keys and values shorter than 2^32 and 64-bit sequences, fewer than 2^32 of them and
  -- encoded in less than 2^64 bytes, are decoded as they were, in order, tombstones and empty values distinct.
  pub decode_block-encode_block :
      (entries : Entries)
      → AllFit entries
      → length entries < u32_mod
      → length (encode_block crc32 entries) < u64_mod
      → decode_block (encode_block crc32 entries) false ≡ entries
  unfolding encode_block decode_block
  decode_block-encode_block entries f few fits =
      let count = to_le 4 (length entries) in
      let crc = to_le 4 (crc32 (count ++ entries_bytes entries)) in
      let a = At-append count (entries_bytes entries) crc (At-start _ fits) in
      let b =
        At-next 4 count (entries_bytes entries ++ crc) (sym (length-to_le 4 (length entries))) a in
      let long : 4 ≤ length ((count ++ entries_bytes entries) ++ crc) = omega (
        arith,
        length-append (count ++ entries_bytes entries) crc,
        length-append count (entries_bytes entries),
        length-to_le 4 (length entries),
      ) in
      rw
        (
          le→ltb _ _ long,
          try_read_u32-At (length entries) (entries_bytes entries ++ crc) few a,
          decode_entries-At entries 4 crc f b,
        )
        refl
