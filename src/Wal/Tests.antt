-- ===== src/Wal/Tests.antt =====
-- Runs of the write-ahead log on small logs, with a checksum that adds up the bytes.
use toroidal_db.Base.{
  err, storage, Message, ℕ, ◌+◌, ◌-◌, ◌<◌, ◌≤◌, ◌≡◌, refl, [], ◌∷◌, ◌++◌, take, length, ok, arith,
  max,
}
use toroidal_db.Base.Sample.{checksum, checksum_fits}
use toroidal_db.Base.Bytes.{Bytes, to_le, u64_mod, checked_add}
use toroidal_db.Wal.Frame.{
  WalFrameKind, WalFrame, PhysicalFrame, standalone, validate_batch_id_for_kind, validate_key,
  validate_value, encode_payload, build, encoded_len, covered, to_logical, encode, decode,
}
use toroidal_db.Wal.Read.{replay_op, replay_kind, replay}
use toroidal_db.Wal.RoundTrip.{frame_bytes, decode-encode}
use toroidal_db.Wal.Codec.{IsFrameOf, build-IsFrameOf}
use toroidal_db.Wal.Log.{
  truncate_keep_above, Wal, next_seq_locked, next_batch_id, all_operations, open_wal, encode_frame,
  write_frame, write_next, append, encode_many, append_many_standalone_sync, write_ops,
  finish_batch, append_batch,
}
use toroidal_db.Wal.Stream.{replay_frames}
use toroidal_db.Wal.Append.{op_frames, batch_frames, Extends, Extends-IsLog, IsLog, append-Extends}
use toroidal_db.Wal.Batch.{batch_start, append_batch-Extends}
use toroidal_db.Wal.Crash.{settled}
use toroidal_db.Wal.Recovery.{batch_atomicity, open_wal_torn}
use toroidal_db.Wal.Checkpoint.{truncate_keep_above-IsLog}
use toroidal_db.Wal.Group.{
  Grouped, append_many-Grouped, group_then_append_lost, failed_then_append_lost,
}

abbrev no_log : Wal
no_log = record { file = []; next_sequence = 0 }

abbrev put_a : WalFrameKind
put_a = WalFrameKind.put (97 ∷ []) (49 ∷ [])

abbrev delete_a : WalFrameKind
delete_a = WalFrameKind.delete (97 ∷ [])

-- The log with one put, and the one with a batch of two operations behind it.
abbrev one : Wal
one = (append checksum no_log put_a).1

abbrev batched : Wal
batched = (append_batch checksum one (put_a ∷ delete_a ∷ [])).1

one_lem : append checksum no_log put_a ≡ (ok 0, one)
unfolding append write_next next_seq_locked write_frame encode_frame build encode encode_payload
    validate_batch_id_for_kind validate_key validate_value checked_add encoded_len covered to_le
one_lem = refl

batched_lem : append_batch checksum one (put_a ∷ delete_a ∷ []) ≡ (ok 1, batched)
unfolding append_batch finish_batch write_ops next_batch_id all_operations append write_next
    next_seq_locked write_frame encode_frame build encode encode_payload validate_batch_id_for_kind
    validate_key validate_value checked_add encoded_len covered to_le
batched_lem = refl

no_log-IsLog : IsLog checksum no_log []
no_log-IsLog = record {
  frames = [];
  file_lem = refl;
  stands = tt;
  start = 0;
  contiguous = tt;
  counted = refl;
  fits = omega arith;
}

append-Extends_example :
    (0 ≡ no_log.next_sequence) × Extends checksum no_log (op_frames 0 standalone (put_a ∷ [])) one
append-Extends_example = append-Extends checksum no_log put_a one_lem

append_batch-Extends_example :
    (1 ≡ max 1 one.next_sequence)
    × Extends checksum (batch_start one) (batch_frames 1 (put_a ∷ delete_a ∷ [])) batched
append_batch-Extends_example = append_batch-Extends checksum one (put_a ∷ delete_a ∷ []) batched_lem

abbrev one_frame : WalFrame
one_frame = record { sequence = 0; batch_id = standalone; kind = put_a }

one-IsLog : IsLog checksum one (one_frame ∷ [])
unfolding op_frames
one-IsLog =
    Extends-IsLog checksum no_log one [] (one_frame ∷ []) no_log-IsLog
      (append-Extends checksum no_log put_a one_lem).1

one_replayed : replay_frames (one_frame ∷ []) (settled []) ≡ ok (settled (one_frame ∷ []))
unfolding replay_frames replay_kind replay_op
one_replayed = refl

abbrev delete_frame : PhysicalFrame
delete_frame = record {
  sequence = 1;
  batch_id = standalone;
  kind = 3;
  payload = 1 ∷ 0 ∷ 0 ∷ 0 ∷ 97 ∷ [];
}

delete_frame_lem : build 1 standalone delete_a ≡ ok delete_frame
unfolding build encode_payload validate_batch_id_for_kind validate_key validate_value checked_add
    to_le
delete_frame_lem = refl

delete_frame-IsFrameOf : IsFrameOf delete_frame delete_a
delete_frame-IsFrameOf =
    (build-IsFrameOf 1 standalone delete_a (omega arith) (omega arith) delete_frame_lem).0

one_short : length one.file < u64_mod
unfolding append write_next next_seq_locked write_frame encode_frame build encode encode_payload
    validate_batch_id_for_kind validate_key validate_value checked_add encoded_len covered to_le
one_short = omega arith

delete_short : 30 < length (frame_bytes checksum delete_frame)
unfolding frame_bytes covered to_le
delete_short = omega arith

cut_short : 60 < length batched.file - length one.file
unfolding append_batch finish_batch write_ops next_batch_id all_operations append write_next
    next_seq_locked write_frame encode_frame build encode encode_payload validate_batch_id_for_kind
    validate_key validate_value checked_add encoded_len covered to_le
cut_short = omega arith

batch_atomicity_example :
    (replay checksum one.file ≡ ok (one_frame ∷ []))
    × (replay checksum batched.file ≡ ok (one_frame ∷ op_frames 2 1 (put_a ∷ delete_a ∷ [])))
    × (replay checksum (take (length one.file + 60) batched.file) ≡ ok (one_frame ∷ []))
batch_atomicity_example =
    batch_atomicity checksum checksum_fits one (one_frame ∷ []) (one_frame ∷ [])
      (put_a ∷ delete_a ∷ []) 60 one-IsLog one_replayed batched_lem cut_short

open_wal_torn_example :
    open_wal checksum (one.file ++ take 30 (frame_bytes checksum delete_frame)) ≡ ok one
open_wal_torn_example =
    open_wal_torn checksum checksum_fits one one_frame [] delete_frame 30 one-IsLog one_short
      delete_frame-IsFrameOf delete_short

decode-encode_example :
    (bytes : Bytes) × (encode checksum delete_frame ≡ ok bytes)
    × (decode checksum bytes ≡ ok delete_frame)
    × (to_logical delete_frame ≡ ok (record { sequence = 1; batch_id = 0; kind = delete_a }))
decode-encode_example =
    decode-encode checksum 1 standalone delete_a checksum_fits (omega arith) (omega arith)
      delete_frame_lem

-- A group of two, and a put behind it.
abbrev grouped : Wal
grouped = (append_many_standalone_sync checksum one (put_a ∷ delete_a ∷ [])).1

abbrev behind : Wal
behind = (append_many_standalone_sync checksum grouped (put_a ∷ [])).1

grouped_lem : append_many_standalone_sync checksum one (put_a ∷ delete_a ∷ []) ≡ (ok 1, grouped)
unfolding append_many_standalone_sync encode_many append write_next next_seq_locked write_frame
    encode_frame build encode encode_payload validate_batch_id_for_kind validate_key validate_value
    checked_add encoded_len covered to_le
grouped_lem = refl

behind_lem : append_many_standalone_sync checksum grouped (put_a ∷ []) ≡ (ok 2, behind)
unfolding append_many_standalone_sync encode_many append write_next next_seq_locked write_frame
    encode_frame build encode encode_payload validate_batch_id_for_kind validate_key validate_value
    checked_add encoded_len covered to_le
behind_lem = refl

one_room : one.next_sequence + 2 ≤ u64_mod
unfolding append_many_standalone_sync encode_many append write_next next_seq_locked write_frame
    encode_frame build encode encode_payload validate_batch_id_for_kind validate_key validate_value
    checked_add encoded_len covered to_le
one_room = omega arith

one_room_lt : one.next_sequence + 2 < u64_mod
unfolding append_many_standalone_sync encode_many append write_next next_seq_locked write_frame
    encode_frame build encode encode_payload validate_batch_id_for_kind validate_key validate_value
    checked_add encoded_len covered to_le
one_room_lt = omega arith

grouped_room : grouped.next_sequence < u64_mod
unfolding append_many_standalone_sync encode_many append write_next next_seq_locked write_frame
    encode_frame build encode encode_payload validate_batch_id_for_kind validate_key validate_value
    checked_add encoded_len covered to_le
grouped_room = omega arith

grouped_short : length grouped.file < u64_mod
unfolding append_many_standalone_sync encode_many append write_next next_seq_locked write_frame
    encode_frame build encode encode_payload validate_batch_id_for_kind validate_key validate_value
    checked_add encoded_len covered to_le
grouped_short = omega arith

append_many-Grouped_example :
    (1 ≡ one.next_sequence) × Grouped checksum one (put_a ∷ delete_a ∷ []) grouped
append_many-Grouped_example =
    append_many-Grouped checksum one (put_a ∷ delete_a ∷ []) one_room grouped_lem

group_then_append_lost_example :
    open_wal checksum behind.file ≡ ok (record { file = grouped.file; next_sequence = 3 })
group_then_append_lost_example =
    group_then_append_lost checksum checksum_fits one (one_frame ∷ []) put_a delete_a put_a []
      one-IsLog grouped_lem behind_lem one_room_lt grouped_short

abbrev second_frame : WalFrame
second_frame = record { sequence = 1; batch_id = standalone; kind = put_a }

abbrev twice : Wal
twice = (append checksum one put_a).1

twice_lem : append checksum one put_a ≡ (ok 1, twice)
unfolding append write_next next_seq_locked write_frame encode_frame build encode encode_payload
    validate_batch_id_for_kind validate_key validate_value checked_add encoded_len covered to_le
twice_lem = refl

abbrev put_frame : ℕ → PhysicalFrame
put_frame n = record {
  sequence = n;
  batch_id = standalone;
  kind = 2;
  payload = 1 ∷ 0 ∷ 0 ∷ 0 ∷ 1 ∷ 0 ∷ 0 ∷ 0 ∷ 97 ∷ 49 ∷ [];
}

put_frame_lem : (n : ℕ) → build n standalone put_a ≡ ok (put_frame n)
unfolding build encode_payload validate_batch_id_for_kind validate_key validate_value checked_add
    to_le
put_frame_lem n = refl

put_frame-IsFrameOf : (n : ℕ) → n < u64_mod → IsFrameOf (put_frame n) put_a
put_frame-IsFrameOf n h = (build-IsFrameOf n standalone put_a h (omega arith) (put_frame_lem n)).0

twice_file :
    twice.file ≡ frame_bytes checksum (put_frame 0) ++ (frame_bytes checksum (put_frame 1) ++ [])
unfolding append write_next next_seq_locked write_frame encode_frame build encode encode_payload
    validate_batch_id_for_kind validate_key validate_value checked_add encoded_len covered to_le
    frame_bytes
twice_file = refl

twice_counted : 2 ≡ twice.next_sequence
unfolding append write_next next_seq_locked write_frame encode_frame build encode encode_payload
    validate_batch_id_for_kind validate_key validate_value checked_add encoded_len covered to_le
twice_counted = refl

twice_fits : twice.next_sequence < u64_mod
unfolding append write_next next_seq_locked write_frame encode_frame build encode encode_payload
    validate_batch_id_for_kind validate_key validate_value checked_add encoded_len covered to_le
twice_fits = omega arith

abbrev twice_log : IsLog checksum twice (one_frame ∷ second_frame ∷ [])
twice_log = record {
  frames = put_frame 0 ∷ put_frame 1 ∷ [];
  file_lem = twice_file;
  stands = (
    put_frame-IsFrameOf 0 (omega arith),
    refl,
    refl,
    (put_frame-IsFrameOf 1 (omega arith), refl, refl, tt),
  );
  start = 0;
  contiguous = (refl, (refl, tt));
  counted = twice_counted;
  fits = twice_fits;
}

twice_next : 0 < twice.next_sequence
unfolding append write_next next_seq_locked write_frame encode_frame build encode encode_payload
    validate_batch_id_for_kind validate_key validate_value checked_add encoded_len covered to_le
twice_next = omega arith

truncate_keep_above-IsLog_example :
    (w' : Wal) × (truncate_keep_above checksum twice 0 ≡ ok w')
    × (w'.next_sequence ≡ twice.next_sequence)
    × IsLog checksum w' (second_frame ∷ [])
truncate_keep_above-IsLog_example =
    truncate_keep_above-IsLog checksum checksum_fits twice 0 (one_frame ∷ second_frame ∷ [])
      twice_log (refl, (refl, tt)) (omega arith) twice_next

-- A group that is no operation: it fails behind its sequence.
abbrev failed : Wal
failed = (append_many_standalone_sync checksum one (WalFrameKind.commit 1 ∷ [])).1

abbrev after_failed : Wal
after_failed = (append_many_standalone_sync checksum failed (put_a ∷ [])).1

failed_lem :
    append_many_standalone_sync checksum one (WalFrameKind.commit 1 ∷ [])
    ≡ (err (storage Message.standalone_wal_append_requires_put_or_delete), failed)
unfolding append_many_standalone_sync encode_many append write_next next_seq_locked write_frame
    encode_frame build encode encode_payload validate_batch_id_for_kind validate_key validate_value
    checked_add encoded_len covered to_le
failed_lem = refl

failed_gap : failed.next_sequence ≡ one.next_sequence + 1
unfolding append_many_standalone_sync encode_many append write_next next_seq_locked write_frame
    encode_frame build encode encode_payload validate_batch_id_for_kind validate_key validate_value
    checked_add encoded_len covered to_le
failed_gap = refl

after_failed_lem : append_many_standalone_sync checksum failed (put_a ∷ []) ≡ (ok 2, after_failed)
unfolding append_many_standalone_sync encode_many append write_next next_seq_locked write_frame
    encode_frame build encode encode_payload validate_batch_id_for_kind validate_key validate_value
    checked_add encoded_len covered to_le
after_failed_lem = refl

failed_room : failed.next_sequence < u64_mod
unfolding append_many_standalone_sync encode_many append write_next next_seq_locked write_frame
    encode_frame build encode encode_payload validate_batch_id_for_kind validate_key validate_value
    checked_add encoded_len covered to_le
failed_room = omega arith

failed_then_append_lost_example : open_wal checksum after_failed.file ≡ ok one
failed_then_append_lost_example =
    failed_then_append_lost checksum checksum_fits one (one_frame ∷ []) put_a
      (WalFrameKind.commit 1 ∷ []) one-IsLog (omega arith) one_short failed_lem failed_gap
      after_failed_lem failed_room
