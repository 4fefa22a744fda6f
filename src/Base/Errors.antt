-- ===== src/Base/Errors.antt =====
-- crates/toroidal-store/lib.rs: TQLError and Result. `Message` has a constructor for each text of a
-- storage error, spelled as the text is. An error of the operating system, `Io`, is not modelled.
use Prim.Native.Nat.{ℕ}
use mathlib.Core.Path.{◌≡◌, refl}
use mathlib.Core.Logic.{◌⊎◌, inl, inr}
use mathlib.Core.Bool.{Bool, true, false}
use mathlib.Core.Option.{Option, none, some}

pub data Message : Type 0 where
  group_commit_failed : Message
  non_utf8_segment_path : Message
  segment_path_too_long : Message
  key_exceeds_maximum_size : Message
  value_exceeds_maximum_size : Message
  unexpected_wal_frame_during_recovery : Message
  segment_key_too_large : Message
  too_many_segment_blocks : Message
  bloom_offset_overflow : Message
  bloom_bits_length_overflow : Message
  bloom_length_overflow : Message
  bloom_out_of_file_bounds : Message
  malformed_index_key_length_out_of_bounds : Message
  index_key_length_overflow : Message
  index_key_out_of_bounds : Message
  malformed_index_block_offset_out_of_bounds : Message
  malformed_index_block_size_out_of_bounds : Message
  index_block_offset_before_header : Message
  index_block_length_overflow : Message
  index_block_out_of_file_bounds : Message
  block_value_length_overflow : Message
  block_value_out_of_bounds : Message
  malformed_block_value_length_out_of_bounds : Message
  malformed_block_kind_out_of_bounds : Message
  malformed_block_key_length_out_of_bounds : Message
  block_key_length_overflow : Message
  block_key_out_of_bounds : Message
  malformed_block_sequence_out_of_bounds : Message
  segment_file_too_small : Message
  segment_crc_mismatch : Message
  invalid_segment_magic : Message
  bloom_offset_before_header : Message
  index_length_overflow : Message
  segment_index_out_of_file_bounds : Message
  segment_block_out_of_file_bounds : Message
  segment_block_too_small : Message
  segment_block_crc_mismatch : Message
  segment_block_index_out_of_bounds : Message
  segment_index_locate_returned_no_block : Message
  store_is_closed : Message
  batch_may_only_contain_put_or_delete_operations : Message
  batch_id_zero_is_reserved : Message
  wal_batch_id_mismatch_between_kind_and_header : Message
  key_too_large : Message
  value_too_large : Message
  wal_put_payload_too_large : Message
  wal_delete_payload_too_large : Message
  unexpected_eof_reading_u16 : Message
  unexpected_eof_reading_u32 : Message
  unexpected_eof_reading_u64 : Message
  put_payload_too_short : Message
  put_payload_lengths_out_of_bounds : Message
  put_payload_length_overflow : Message
  put_payload_length_mismatch : Message
  delete_payload_too_short : Message
  delete_key_too_large : Message
  delete_payload_length_overflow : Message
  delete_payload_length_mismatch : Message
  begin_payload_must_be_empty : Message
  commit_payload_must_be_empty : Message
  invalid_wal_kind_byte : Message
  wal_payload_exceeds_maximum_size : Message
  wal_frame_length_out_of_bounds : Message
  wal_frame_exceeds_u32_length : Message
  wal_frame_size_out_of_bounds : Message
  wal_frame_length_mismatch : Message
  invalid_wal_magic : Message
  invalid_wal_frame_kind : Message
  wal_checksum_mismatch : Message
  wal_sequence_exhausted : Message
  standalone_wal_append_requires_put_or_delete : Message
  empty_batch_not_allowed : Message
  empty_wal_batch_is_not_allowed : Message
  wal_batch_may_only_contain_put_or_delete : Message
  wal_op_batch_id_mismatch : Message
  standalone_op_has_non_zero_batch_id : Message
  nested_wal_batch : Message
  commit_without_begin : Message
  commit_batch_id_mismatch : Message
  wal_offset_overflow : Message
  malformed_block_unknown_kind : ℕ → Message
  unsupported_segment_version : ℕ → Message
  unsupported_wal_version : ℕ → Message

pub data TqlError : Type 0 where
  storage : Message → TqlError
  snapshot_expired : ℕ → ℕ → TqlError

pub data Result {ℓ} (A : Type ℓ) : Type ℓ where
  ok : A → Result A
  err : TqlError → Result A

-- `Option::and_then`
abbrev pub and_then {ℓ κ} : {A : Type ℓ} {B : Type κ} → Option A → (A → Option B) → Option B
and_then none f = none
and_then (some a) f = f a

-- `Option::ok_or_else`
abbrev pub ok_or {ℓ} : {A : Type ℓ} → Option A → TqlError → Result A
ok_or none e = err e
ok_or (some a) e = ok a

-- The operator `?`.
infixl 5 ◌>>=◌
abbrev pub ◌>>=◌ {ℓ κ} : {A : Type ℓ} {B : Type κ} → Result A → (A → Result B) → Result B
err failure >>= next = err failure
ok found >>= next = next found

pub Result-cases {ℓ} :
    {A : Type ℓ} (r : Result A) → ((a : A) × (r ≡ ok a)) ⊎ ((e : TqlError) × (r ≡ err e))
Result-cases (ok a) = inl (a, refl)
Result-cases (err e) = inr (e, refl)

-- `if !test { return Err(e) }`
abbrev pub ensure : Bool → TqlError → Result (Unit {0})
ensure false failure = err failure
ensure true failure = ok tt

-- A statement that is only checked for its error.
infixl 5 ◌>>◌
abbrev pub ◌>>◌ {ℓ} : {B : Type ℓ} → Result (Unit {0}) → Result B → Result B
err failure >> rest = err failure
ok done >> rest = rest

-- What stands before and behind a `?` whose chain succeeds.
pub >>=-eq-ok {ℓ κ} :
    {A : Type ℓ} {B : Type κ} (r : Result A) (next : A → Result B) {found : B}
    → (r >>= next) ≡ ok found
    → (a : A) × (r ≡ ok a) × (next a ≡ ok found)
>>=-eq-ok (err failure) next h = cc
>>=-eq-ok (ok a) next h = (a, refl, h)

-- A check that is passed.
pub ensure-eq-ok {ℓ} :
    {B : Type ℓ} (test : Bool) (e : TqlError) (next : Result B) {found : B}
    → (ensure test e >> next) ≡ ok found
    → (test ≡ true) × (next ≡ ok found)
ensure-eq-ok true e next h = (refl, h)
ensure-eq-ok false e next h = cc
