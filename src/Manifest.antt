-- ===== src/Manifest.antt =====
-- crates/toroidal-store/manifest.rs: the manifest, an append-only file of records that says which
-- segments are live. A path is its bytes; `is_utf8` is the standard library's test of UTF-8, and
-- `crc32` the checksum of crc32fast. The set of live paths is a list without repetitions,
-- which compares bytes; `PathBuf` compares components, which is the same for the paths that the store makes.
pub mod Record
pub mod Memory
pub mod Reopen
mod Tests
use toroidal_db.Base.{
  ℕ, zero, suc, ◌+◌, ◌-◌, Bool, true, false, not, ◌&&◌, ◌||◌, Option, none, some, List, [], ◌∷◌,
  ◌++◌, leb, ltb, ◌==◌, length, take, drop, get_or, Message, storage, Result, ok, err, ◌>>=◌, ◌>>◌,
  ensure, if◌then◌else◌,
}
use toroidal_db.Base.Bytes.{Bytes, to_le, from_le, u64_mod}
use toroidal_db.Base.Keys.{bytes_eq}

abbrev pub manifest_magic : ℕ
manifest_magic = 0x4D46_0001

abbrev pub crc_size : ℕ
crc_size = 4

abbrev pub header_size : ℕ
header_size = 7

abbrev pub type_add : ℕ
type_add = 1

abbrev pub type_remove : ℕ
type_remove = 2

abbrev pub type_wal_checkpoint : ℕ
type_wal_checkpoint = 3

pub data ManifestEntry : Type 0 where
  add : Bytes → ℕ → ManifestEntry
  remove : Bytes → ManifestEntry
  checkpoint : ℕ → ManifestEntry

pub record Manifest : Type 0 where
  pub file : Bytes
  pub live : List Bytes
  pub max_flushed_sequence : ℕ
  pub valid_len : ℕ

unfoldable pub is_live : Bytes → List Bytes → Bool
is_live p [] = false
is_live p (q ∷ qs) = bytes_eq q p || is_live p qs

-- `HashSet::insert`
unfoldable pub live_insert : Bytes → List Bytes → List Bytes
live_insert p live = if is_live p live then live else p ∷ live

-- `HashSet::remove`
unfoldable pub live_remove : Bytes → List Bytes → List Bytes
live_remove p [] = []
live_remove p (q ∷ qs) = let rest = live_remove p qs in if bytes_eq q p then rest else q ∷ rest

unfoldable pub type_of : ManifestEntry → ℕ
type_of (ManifestEntry.add p s) = type_add
type_of (ManifestEntry.remove p) = type_remove
type_of (ManifestEntry.checkpoint s) = type_wal_checkpoint

unfoldable pub path_of : ManifestEntry → Bytes
path_of (ManifestEntry.add p s) = p
path_of (ManifestEntry.remove p) = p
path_of (ManifestEntry.checkpoint s) = []

-- The bytes of the sequence, if the record has one.
unfoldable pub extra_of : ManifestEntry → Bytes
extra_of (ManifestEntry.add p s) = to_le 8 s
extra_of (ManifestEntry.remove p) = []
extra_of (ManifestEntry.checkpoint s) = to_le 8 s

-- `if max_sequence > *ms { *ms = max_sequence; }`
unfoldable pub raise : ℕ → ℕ → ℕ
raise s ms = if ltb ms s then s else ms

-- What `replay` has gathered.
pub record Replayed : Type 0 where
  pub live : List Bytes
  pub max_seq : ℕ
  pub valid : ℕ

unfoldable pub read_u16_le : Bytes → ℕ → ℕ
read_u16_le bytes offset = from_le (take 2 (drop offset bytes))

unfoldable pub read_u32_le : Bytes → ℕ → ℕ
read_u32_le bytes offset = from_le (take 4 (drop offset bytes))

unfoldable pub read_u64_le : Bytes → ℕ → ℕ
read_u64_le bytes offset = from_le (take 8 (drop offset bytes))

abbrev pub extra_len : ℕ → ℕ
extra_len entry_type =
    if (entry_type == type_add) || (entry_type == type_wal_checkpoint) then 8 else 0

module _ (crc32 : Bytes → ℕ) (is_utf8 : Bytes → Bool) where
  -- The bytes of a record before its checksum.
  unfoldable pub entry_body : ManifestEntry → Bytes
  entry_body e =
      to_le 4 manifest_magic
      ++ (type_of e ∷ (to_le 2 (length (path_of e)) ++ (path_of e ++ extra_of e)))

  unfoldable pub encode_entry : ManifestEntry → Result Bytes
  encode_entry e = do
    ensure (is_utf8 (path_of e)) (storage Message.non_utf8_segment_path)
    ensure (ltb (length (path_of e)) 65536) (storage Message.segment_path_too_long)
    ok (entry_body e ++ to_le 4 (crc32 (entry_body e)))

  -- The effect of a record that was read: its type, its path and the sequence behind the path.
  unfoldable pub apply_entry : ℕ → Bytes → ℕ → Replayed → Replayed
  apply_entry entry_type path sequence r =
      if entry_type == type_add
      then record r { live = live_insert path r.live; max_seq = raise sequence r.max_seq }
      else if entry_type == type_remove
      then record r { live = live_remove path r.live }
      else record r { max_seq = raise sequence r.max_seq }

  -- The record at the front of the bytes that are left: its length and its effect, if it is valid.
  unfoldable pub replay_entry : Bytes → Replayed → Option (ℕ × Replayed)
  replay_entry left r =
      let entry_type = get_or left 4 0 in
      let path_len = read_u16_le left 5 in
      let total_len = header_size + path_len + extra_len entry_type + crc_size in
      let path_bytes = take path_len (drop header_size left) in
      let path = if is_utf8 path_bytes then path_bytes else [] in
      if leb (header_size + crc_size) (length left)
        && (read_u32_le left 0 == manifest_magic)
        && (entry_type == type_add
            || entry_type == type_remove
            || entry_type == type_wal_checkpoint)
        && leb total_len (length left)
        && (read_u32_le left (total_len - crc_size) == crc32 (take (total_len - crc_size) left))
      then some (
        total_len,
        apply_entry entry_type path (read_u64_le left (header_size + path_len))
            (record r { valid = r.valid + total_len }),
      )
      else none

  -- The loop of `replay`; a record takes at least 11 bytes, so the length of the file is fuel enough.
  unfoldable pub replay_loop : ℕ → Bytes → Replayed → Replayed
  replay_loop zero left r = r
  replay_loop (suc fuel) left r = elim (replay_entry left r) [
    | none ↦ r
    | some (n, r') ↦ replay_loop fuel (drop n left) r'
  ]

  -- `Manifest::open` on the bytes of a file.
  unfoldable pub open_manifest : Bytes → Manifest
  open_manifest bytes =
      let r = replay_loop (length bytes) bytes (record { live = []; max_seq = 0; valid = 0 }) in
      record {
        file = if ltb r.valid (length bytes) then take r.valid bytes else bytes;
        live = r.live;
        max_flushed_sequence = r.max_seq;
        valid_len = r.valid;
      }

  unfoldable pub append_nosync : Manifest → ManifestEntry → Result Manifest
  append_nosync m e = do buf ← encode_entry e; ok (record m { file = m.file ++ buf })

  unfoldable pub add_segment : Manifest → Bytes → ℕ → Result Manifest
  add_segment m path max_sequence = do
    m1 ← append_nosync m (ManifestEntry.add path max_sequence)
    ok (record m1 {
      live = live_insert path m1.live;
      max_flushed_sequence = raise max_sequence m1.max_flushed_sequence;
    })

  unfoldable pub remove_segment : Manifest → Bytes → Result Manifest
  remove_segment m path = do
    m1 ← append_nosync m (ManifestEntry.remove path)
    ok (record m1 { live = live_remove path m1.live })

  unfoldable pub set_wal_checkpoint : Manifest → ℕ → Result Manifest
  set_wal_checkpoint m sequence = do
    m1 ← append_nosync m (ManifestEntry.checkpoint sequence)
    ok (record m1 { max_flushed_sequence = raise sequence m1.max_flushed_sequence })

  -- The records of the removed paths.
  unfoldable pub encode_removes : List Bytes → Result Bytes
  encode_removes [] = ok []
  encode_removes (p ∷ ps) = do
    buf ← encode_entry (ManifestEntry.remove p)
    rest ← encode_removes ps
    ok (buf ++ rest)

  unfoldable pub remove_all : List Bytes → List Bytes → List Bytes
  remove_all [] live = live
  remove_all (p ∷ ps) live = remove_all ps (live_remove p live)

  unfoldable pub append_compaction_batch : Manifest → Bytes × ℕ → List Bytes → Result Manifest
  append_compaction_batch m (path, max_seq) removes = do
    add_buf ← encode_entry (ManifestEntry.add path max_seq)
    remove_bufs ← encode_removes removes
    ok (record m {
      file = m.file ++ (add_buf ++ remove_bufs);
      live = remove_all removes (live_insert path m.live);
      max_flushed_sequence = raise max_seq m.max_flushed_sequence;
    })

  -- The loop of `append_batch`: an error leaves the records before it.
  unfoldable pub append_adds : Manifest → List (Bytes × ℕ) → Result (Unit {0}) × Manifest
  append_adds m [] = (ok tt, m)
  append_adds m ((path, max_seq) ∷ adds) = elim (append_nosync m (ManifestEntry.add path max_seq)) [
    | err e ↦ (err e, m)
    | ok m1 ↦ append_adds (record m1 { live = live_insert path m1.live }) adds
  ]

  unfoldable pub append_batch : Manifest → List (Bytes × ℕ) → ℕ → Result (Unit {0}) × Manifest
  append_batch m adds checkpoint_seq =
      let (r, m1) = append_adds m adds in
      elim r [
        | err e ↦ (err e, m1)
        | ok _ ↦ elim (append_nosync m1 (ManifestEntry.checkpoint checkpoint_seq)) [
          | err e ↦ (err e, m1)
          | ok m2 ↦ (
            ok tt,
            record m2 { max_flushed_sequence = raise checkpoint_seq m2.max_flushed_sequence },
          )
        ]
      ]
