-- ===== src/Store/Tests.antt =====
-- Runs of the store, with a checksum that adds up the bytes and no faults.
use toroidal_db.Base.{take, ◌≡◌, refl, arith, none, some, [], ◌∷◌, true, false, ok, if◌then◌else◌}
use toroidal_db.Base.Sample.{checksum, checksum_fits}
use toroidal_db.Base.Bytes.{Bytes, to_le, checked_add}
use toroidal_db.Base.Keys.{bytes_eq}
use toroidal_db.Wal.Frame.{
  validate_batch_id_for_kind, validate_key, validate_value, encode_payload, build, encoded_len,
  covered, encode,
}
use toroidal_db.Wal.Log.{next_seq_locked, encode_frame, encode_many, append_many_standalone_sync}
use toroidal_db.Wal.Stream.{replay_frames}
use toroidal_db.Snapshot.{no_snapshots, value_version}
use toroidal_db.MemTable.{
  VersionChain, new, upsert, push_version, validate_put, validate_delete, insert_with_seq,
  delete_with_seq,
}
use toroidal_db.Recovery.{insert_frames, replay_into_memtable}
use toroidal_db.Store.{
  ToroidalStore, no_fault, check_open, freeze, apply_op, write_one, put, delete, get, get_at,
}
use toroidal_db.Store.Reads.{get-put, get-delete, get_at-put, freeze-reads}
use toroidal_db.Store.Compaction.{NewestFirst, compact_chain, sort_newest, compact_chain_lem}
use toroidal_db.Store.Durable.{Durable, put-Durable, delete-Durable}

-- A store that was just created: the floor of its log is 1.
abbrev created : ToroidalStore
created = record {
  wal = record { file = []; next_sequence = 1 };
  manifest = record { file = []; live = []; max_flushed_sequence = 0; valid_len = 0 };
  active = new;
  immutable = [];
  segments = [];
  next_seg_id = 1;
  snapshots = no_snapshots;
  closed = false;
}

abbrev key_a : Bytes
key_a = 97 ∷ []

abbrev with_a : ToroidalStore
with_a = (put checksum no_fault created key_a (49 ∷ [])).1

abbrev without_a : ToroidalStore
without_a = (delete checksum no_fault with_a key_a).1

with_a_lem : put checksum no_fault created key_a (49 ∷ []) ≡ (ok tt, with_a)
unfolding put delete write_one check_open apply_op insert_with_seq delete_with_seq validate_put
    validate_delete push_version upsert bytes_eq append_many_standalone_sync encode_many
    next_seq_locked encode_frame build encode encode_payload validate_batch_id_for_kind validate_key
    validate_value checked_add encoded_len covered to_le
with_a_lem = refl

without_a_lem : delete checksum no_fault with_a key_a ≡ (ok tt, without_a)
unfolding put delete write_one check_open apply_op insert_with_seq delete_with_seq validate_put
    validate_delete push_version upsert bytes_eq append_many_standalone_sync encode_many
    next_seq_locked encode_frame build encode encode_payload validate_batch_id_for_kind validate_key
    validate_value checked_add encoded_len covered to_le
without_a_lem = refl

created-Durable : Durable checksum created
unfolding replay_frames insert_frames
created-Durable = record {
  frames = [];
  committed = [];
  is_log = record {
    frames = [];
    file_lem = refl;
    stands = tt;
    start = 1;
    contiguous = tt;
    counted = refl;
    fits = omega arith;
  };
  replayed = refl;
  inserted = refl;
}

get-put_example :
    get with_a key_a ≡ (if bytes_eq key_a key_a then some (49 ∷ []) else get created key_a)
get-put_example = get-put checksum no_fault created with_a key_a (49 ∷ []) key_a with_a_lem

get-delete_example : get without_a key_a ≡ (if bytes_eq key_a key_a then none else get with_a key_a)
get-delete_example = get-delete checksum no_fault with_a without_a key_a key_a without_a_lem

get_at-put_example :
    get_at with_a (record { sequence = 0; managed = true }) key_a
    ≡ get_at created (record { sequence = 0; managed = true }) key_a
get_at-put_example =
    get_at-put checksum no_fault created with_a (record { sequence = 0; managed = true }) key_a
      (49 ∷ []) key_a (omega arith) (omega arith) with_a_lem

freeze-reads_example :
    (get (freeze with_a) key_a ≡ get with_a key_a)
    × (get_at (freeze with_a) (record { sequence = 1; managed = true }) key_a
        ≡ get_at with_a (record { sequence = 1; managed = true }) key_a)
freeze-reads_example = freeze-reads with_a (record { sequence = 1; managed = true }) key_a

put-Durable_example :
    Durable checksum with_a × (replay_into_memtable checksum with_a.wal ≡ ok with_a.active)
put-Durable_example =
    put-Durable checksum checksum_fits no_fault created with_a key_a (49 ∷ []) created-Durable
      with_a_lem

delete-Durable_example :
    Durable checksum without_a × (replay_into_memtable checksum without_a.wal ≡ ok without_a.active)
delete-Durable_example =
    delete-Durable checksum checksum_fits no_fault with_a without_a key_a
      (put-Durable checksum checksum_fits no_fault created with_a key_a (49 ∷ []) created-Durable
        with_a_lem).0
      without_a_lem

-- Versions at 10, 30 and 20; a snapshot at 15 needs the one at 10.
abbrev versions : VersionChain
versions = value_version 10 (49 ∷ []) ∷ value_version 30 (51 ∷ []) ∷ value_version 20 (50 ∷ []) ∷ []

compact_chain_lem_example :
    NewestFirst (sort_newest versions) × (compact_chain 15 versions ≡ take 1 (sort_newest versions))
compact_chain_lem_example = compact_chain_lem 15 versions
