-- ===== src/Wal/Frame.antt =====
-- crates/toroidal-store/wal.rs: the frame of the write-ahead log, its layout in bytes and the checks
-- of `decode`. The checksum is that of the crate crc32fast: it is the parameter `crc32`.
use mathlib.Core.Option
use toroidal_db.Base.{
  ℕ, ◌+◌, ◌-◌, Bool, true, false, ◌&&◌, Option, none, some, [], ◌∷◌, ◌++◌, leb, ltb, ◌==◌, length,
  take, drop, get_or, Message, storage, Result, ok, err, ◌>>=◌, ◌>>◌, ensure, ok_or, and_then,
  if◌then◌else◌,
}
use toroidal_db.Base.Bytes.{Bytes, u32_mod, to_le, from_le, checked_add, take_exact}

abbrev pub magic_word : ℕ
magic_word = 0x544F_524F

abbrev pub version_word : ℕ
version_word = 1

abbrev pub kind_begin : ℕ
kind_begin = 1

abbrev pub kind_put : ℕ
kind_put = 2

abbrev pub kind_delete : ℕ
kind_delete = 3

abbrev pub kind_commit : ℕ
kind_commit = 4

abbrev pub header_size : ℕ
header_size = 27

abbrev pub crc_size : ℕ
crc_size = 4

abbrev pub min_frame_size : ℕ
min_frame_size = 31

abbrev pub max_payload_size : ℕ
max_payload_size = 16777216

abbrev pub max_frame_size : ℕ
max_frame_size = 16777247

abbrev pub max_key_size : ℕ
max_key_size = 16777216

abbrev pub max_value_size : ℕ
max_value_size = 16777216

abbrev pub standalone : ℕ
standalone = 0

pub data WalFrameKind : Type 0 where
  begin : ℕ → WalFrameKind
  put : Bytes → Bytes → WalFrameKind
  delete : Bytes → WalFrameKind
  commit : ℕ → WalFrameKind

abbrev pub kind_byte : WalFrameKind → ℕ
kind_byte (WalFrameKind.begin b) = kind_begin
kind_byte (WalFrameKind.put k v) = kind_put
kind_byte (WalFrameKind.delete k) = kind_delete
kind_byte (WalFrameKind.commit b) = kind_commit

abbrev pub is_operation : WalFrameKind → Bool
is_operation (WalFrameKind.begin b) = false
is_operation (WalFrameKind.put k v) = true
is_operation (WalFrameKind.delete k) = true
is_operation (WalFrameKind.commit b) = false

pub record WalFrame : Type 0 where
  pub sequence : ℕ
  pub batch_id : ℕ
  pub kind : WalFrameKind

pub record PhysicalFrame : Type 0 where
  pub sequence : ℕ
  pub batch_id : ℕ
  pub kind : ℕ
  pub payload : Bytes

unfoldable pub validate_batch_id_for_kind : WalFrameKind → ℕ → Result (Unit {0})
validate_batch_id_for_kind (WalFrameKind.begin bid) batch_id = do
  ensure (ltb standalone bid) (storage Message.batch_id_zero_is_reserved)
  ensure (bid == batch_id) (storage Message.wal_batch_id_mismatch_between_kind_and_header)
validate_batch_id_for_kind (WalFrameKind.put k v) batch_id = ok tt
validate_batch_id_for_kind (WalFrameKind.delete k) batch_id = ok tt
validate_batch_id_for_kind (WalFrameKind.commit bid) batch_id = do
  ensure (ltb standalone bid) (storage Message.batch_id_zero_is_reserved)
  ensure (bid == batch_id) (storage Message.wal_batch_id_mismatch_between_kind_and_header)

unfoldable pub validate_key : Bytes → Result (Unit {0})
validate_key key = ensure (leb (length key) max_key_size) (storage Message.key_exceeds_maximum_size)

unfoldable pub validate_value : Bytes → Result (Unit {0})
validate_value value =
    ensure (leb (length value) max_value_size) (storage Message.value_exceeds_maximum_size)

-- `u32::try_from(n)`
abbrev pub try_u32 : ℕ → Message → Result ℕ
try_u32 n msg = if ltb n u32_mod then ok n else err (storage msg)

-- `.filter(|&n| n <= max)` behind checked additions.
abbrev pub at_most : ℕ → ℕ → Option ℕ
at_most bound n = if leb n bound then some n else none

unfoldable pub encode_payload : WalFrameKind → Result Bytes
unfolding validate_key validate_value checked_add
encode_payload (WalFrameKind.begin b) = ok []
encode_payload (WalFrameKind.commit b) = ok []
encode_payload (WalFrameKind.put key value) = do
  validate_key key
  validate_value value
  kl ← try_u32 (length key) Message.key_too_large
  vl ← try_u32 (length value) Message.value_too_large
  total ←
      ok_or
        (and_then (and_then (checked_add 8 (length key)) (λ n. checked_add n (length value)))
          (at_most max_payload_size))
        (storage Message.wal_put_payload_too_large)
  ok (to_le 4 kl ++ (to_le 4 vl ++ (key ++ value)))
encode_payload (WalFrameKind.delete key) = do
  validate_key key
  kl ← try_u32 (length key) Message.key_too_large
  total ←
      ok_or (and_then (checked_add 4 (length key)) (at_most max_payload_size))
        (storage Message.wal_delete_payload_too_large)
  ok (to_le 4 kl ++ key)

unfoldable pub read_u16 : Bytes → ℕ → Result ℕ
read_u16 bytes offset =
    ok_or (Option.map from_le (take_exact 2 (drop offset bytes)))
      (storage Message.unexpected_eof_reading_u16)

unfoldable pub read_u32 : Bytes → ℕ → Result ℕ
read_u32 bytes offset =
    ok_or (Option.map from_le (take_exact 4 (drop offset bytes)))
      (storage Message.unexpected_eof_reading_u32)

unfoldable pub read_u64 : Bytes → ℕ → Result ℕ
read_u64 bytes offset =
    ok_or (Option.map from_le (take_exact 8 (drop offset bytes)))
      (storage Message.unexpected_eof_reading_u64)

unfoldable pub decode_put : Bytes → Result WalFrameKind
decode_put payload = do
  ensure (leb 8 (length payload)) (storage Message.put_payload_too_short)
  key_len ← read_u32 payload 0
  val_len ← read_u32 payload 4
  ensure (leb key_len max_key_size && leb val_len max_value_size)
      (storage Message.put_payload_lengths_out_of_bounds)
  expected ←
      ok_or (and_then (checked_add 8 key_len) (λ n. checked_add n val_len))
        (storage Message.put_payload_length_overflow)
  ensure (expected == length payload) (storage Message.put_payload_length_mismatch)
  ok (WalFrameKind.put (take key_len (drop 8 payload)) (drop (8 + key_len) payload))

unfoldable pub decode_delete : Bytes → Result WalFrameKind
decode_delete payload = do
  ensure (leb 4 (length payload)) (storage Message.delete_payload_too_short)
  key_len ← read_u32 payload 0
  ensure (leb key_len max_key_size) (storage Message.delete_key_too_large)
  expected ← ok_or (checked_add 4 key_len) (storage Message.delete_payload_length_overflow)
  ensure (expected == length payload) (storage Message.delete_payload_length_mismatch)
  ok (WalFrameKind.delete (drop 4 payload))

-- `payload.is_empty()`
abbrev pub is_empty : Bytes → Bool
is_empty [] = true
is_empty (x ∷ xs) = false

unfoldable pub decode_payload_for_kind : ℕ → ℕ → Bytes → Result WalFrameKind
decode_payload_for_kind kb batch_id payload =
    if kb == kind_begin
    then (ensure (is_empty payload) (storage Message.begin_payload_must_be_empty)
        >> ok (WalFrameKind.begin batch_id))
    else if kb == kind_commit
    then (ensure (is_empty payload) (storage Message.commit_payload_must_be_empty)
        >> ok (WalFrameKind.commit batch_id))
    else if kb == kind_put
    then decode_put payload
    else if kb == kind_delete
    then decode_delete payload
    else err (storage Message.invalid_wal_kind_byte)

unfoldable pub build : ℕ → ℕ → WalFrameKind → Result PhysicalFrame
build sequence batch_id kind = do
  validate_batch_id_for_kind kind batch_id
  payload ← encode_payload kind
  ensure (leb (length payload) max_payload_size) (storage Message.wal_payload_exceeds_maximum_size)
  ok (record { sequence = sequence; batch_id = batch_id; kind = kind_byte kind; payload = payload })

unfoldable pub encoded_len : PhysicalFrame → Result ℕ
unfolding checked_add
encoded_len f =
    ok_or
      (and_then
        (and_then (checked_add header_size (length f.payload)) (λ n. checked_add n crc_size))
        (λ n. if leb min_frame_size n && leb n max_frame_size then some n else none))
      (storage Message.wal_frame_length_out_of_bounds)

-- The bytes that the checksum covers: all but the length and the checksum.
unfoldable pub covered : PhysicalFrame → Bytes
covered f =
    to_le 4 magic_word
    ++ (to_le 2 version_word
        ++ (to_le 8 f.sequence ++ (to_le 8 f.batch_id ++ (f.kind ∷ f.payload))))

unfoldable pub to_logical : PhysicalFrame → Result WalFrame
to_logical f = do
  kind ← decode_payload_for_kind f.kind f.batch_id f.payload
  ok (record { sequence = f.sequence; batch_id = f.batch_id; kind = kind })

module _ (crc32 : Bytes → ℕ) where
  -- `encode_into` an empty buffer; for another buffer the same bytes are appended.
  unfoldable pub encode : PhysicalFrame → Result Bytes
  encode f = do
    frame_len ← encoded_len f
    frame_len_u32 ← try_u32 frame_len Message.wal_frame_exceeds_u32_length
    ok (to_le 4 frame_len_u32 ++ (covered f ++ to_le 4 (crc32 (covered f))))

  unfoldable pub decode : Bytes → Result PhysicalFrame
  decode bytes = do
    ensure (leb min_frame_size (length bytes) && leb (length bytes) max_frame_size)
        (storage Message.wal_frame_size_out_of_bounds)
    declared_len ← read_u32 bytes 0
    ensure (declared_len == length bytes) (storage Message.wal_frame_length_mismatch)
    magic ← read_u32 bytes 4
    ensure (magic == magic_word) (storage Message.invalid_wal_magic)
    version ← read_u16 bytes 8
    ensure (version == version_word) (storage (Message.unsupported_wal_version version))
    sequence ← read_u64 bytes 10
    batch_id ← read_u64 bytes 18
    let kb = get_or bytes 26 0
    ensure (leb kind_begin kb && leb kb kind_commit) (storage Message.invalid_wal_frame_kind)
    let payload_end = length bytes - crc_size
    let payload = take (payload_end - header_size) (drop header_size bytes)
    ensure (leb (length payload) max_payload_size)
        (storage Message.wal_payload_exceeds_maximum_size)
    stored_crc ← read_u32 bytes payload_end
    ensure (stored_crc == crc32 (take (payload_end - 4) (drop 4 bytes)))
        (storage Message.wal_checksum_mismatch)
    kind ← decode_payload_for_kind kb batch_id payload
    validate_batch_id_for_kind kind batch_id
    ok (record { sequence = sequence; batch_id = batch_id; kind = kb; payload = payload })
