-- ===== src/Segment/Block.antt =====
-- crates/toroidal-store/segment.rs: a data block. `encode_block` writes version 2 of the format;
-- `decode_block` reads it, and with `legacy` version 1, which has no kind byte. A block that is
-- malformed is read as empty.
pub mod RoundTrip
use toroidal_db.Base.{
  ℕ, zero, suc, ◌+◌, Bool, true, false, Option, none, some, List, [], ◌∷◌, ◌++◌, length, ltb, ◌==◌,
  and_then, if◌then◌else◌,
}
use toroidal_db.Base.Bytes.{Bytes, to_le, checked_add}
use toroidal_db.Snapshot.{EntryValue, VersionedEntry, value_version, tombstone_version}
use toroidal_db.MemTable.{Entries}
use toroidal_db.Segment.Bytes.{slice, try_read_u32, try_read_u64, try_read_u8}

abbrev pub kind_value : ℕ
kind_value = 1

abbrev pub kind_tombstone : ℕ
kind_tombstone = 2

abbrev pub default_block_size : ℕ
default_block_size = 32768

unfoldable pub value_bytes : EntryValue → Bytes
value_bytes (EntryValue.value v) = kind_value ∷ (to_le 4 (length v) ++ v)
value_bytes EntryValue.tombstone = kind_tombstone ∷ []

-- The body of the loop of `encode_block`.
unfoldable pub block_entry : Bytes → VersionedEntry → Bytes
block_entry key ve = to_le 4 (length key) ++ (key ++ (to_le 8 ve.sequence ++ value_bytes ve.value))

unfoldable pub entries_bytes : Entries → Bytes
entries_bytes [] = []
entries_bytes ((key, ve) ∷ rest) = block_entry key ve ++ entries_bytes rest

module _ (crc32 : Bytes → ℕ) where
  unfoldable pub encode_block : Entries → Bytes
  encode_block entries =
      let buf = to_le 4 (length entries) ++ entries_bytes entries in buf ++ to_le 4 (crc32 buf)

-- An entry that was read, and the offset behind it.
pub record DecodedEntry : Type 0 where
  pub entry : VersionedEntry
  pub next : ℕ

-- The value, of the length that was read.
unfoldable pub decode_bytes : Bytes → ℕ → ℕ → ℕ → Option DecodedEntry
decode_bytes block off sequence vl = and_then (checked_add off vl) (λ val_end.
    and_then (slice block off vl)
      (λ v. some (record { entry = value_version sequence v; next = val_end })))

-- Version 1: a length of 0 is a tombstone.
unfoldable pub decode_legacy : Bytes → ℕ → ℕ → Option DecodedEntry
decode_legacy block off sequence = and_then (try_read_u32 block off) (λ vl.
    if vl == 0
    then some (record { entry = tombstone_version sequence; next = off + 4 })
    else decode_bytes block (off + 4) sequence vl)

-- Version 2: the kind byte decides.
unfoldable pub decode_kind : Bytes → ℕ → ℕ → Option DecodedEntry
decode_kind block off sequence = and_then (try_read_u8 block off) (λ kind.
    if kind == kind_tombstone
    then some (record { entry = tombstone_version sequence; next = off + 1 })
    else if kind == kind_value
    then and_then (try_read_u32 block (off + 1))
        (λ vl. decode_bytes block (off + 1 + 4) sequence vl)
    else none)

unfoldable pub decode_value : Bool → Bytes → ℕ → ℕ → Option DecodedEntry
decode_value true block off sequence = decode_legacy block off sequence
decode_value false block off sequence = decode_kind block off sequence

-- The loop over the entries that the block counts.
unfoldable pub decode_entries : Bool → Bytes → ℕ → ℕ → Option Entries
decode_entries legacy block zero off = some []
decode_entries legacy block (suc n) off = and_then (try_read_u32 block off) (λ kl.
    and_then (checked_add (off + 4) kl) (λ key_end. and_then (slice block (off + 4) kl) (λ key.
      and_then (try_read_u64 block key_end) (λ sequence.
        and_then (decode_value legacy block (key_end + 8) sequence) (λ d.
          and_then (decode_entries legacy block n d.next)
            (λ rest. some ((key, d.entry) ∷ rest)))))))

-- `return Vec::new()`
abbrev pub or_empty : Option Entries → Entries
or_empty none = []
or_empty (some entries) = entries

unfoldable pub decode_block : Bytes → Bool → Entries
decode_block block legacy =
    if ltb (length block) 4
    then []
    else or_empty (and_then (try_read_u32 block 0) (λ n. decode_entries legacy block n 4))
