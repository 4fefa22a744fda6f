-- ===== src/Store/Checkpoint/Tests.antt =====
-- Runs of the checkpoint of crates/toroidal-store/store.rs: an active table of three writes, with a log and a manifest
-- that are empty.
use toroidal_db.Base.{ℕ, ◌≡◌, refl, Bool, true, false, [], ◌∷◌, Message, storage, Result, err, ◌⊎◌}
use toroidal_db.Base.Bytes.{Bytes}
use toroidal_db.Base.Keys.{bytes_eq}
use toroidal_db.Base.Sample.{checksum}
use toroidal_db.Snapshot.{no_snapshots}
use toroidal_db.MemTable.{max_sequence, max_loop, push_version, upsert}
use toroidal_db.MemTable.Sort.Insertion.{insertion_sort}
use toroidal_db.MemTable.Reads.{table}
use toroidal_db.Segment.Sample.{writes, bits_of, hashes_of, front_search}
use toroidal_db.Store.{FailurePoint, ToroidalStore, no_fault}
use toroidal_db.Store.Checkpoint.{checkpoint_seq, checkpoint}
use toroidal_db.Store.Checkpoint.Order.{Stopped, Checkpointed, checkpoint-order}

abbrev store : ToroidalStore
store = record {
  wal = record { file = []; next_sequence = 4 };
  manifest = record { file = []; live = []; max_flushed_sequence = 0; valid_len = 0 };
  active = table writes;
  immutable = [];
  segments = [];
  next_seg_id = 1;
  snapshots = no_snapshots;
  closed = false;
}

abbrev utf8 : Bytes → Bool
utf8 b = true

abbrev seg_path : ℕ → Bytes
seg_path n = n ∷ []

boundary : checkpoint_seq 0 (table writes ∷ []) ≡ 3
unfolding checkpoint_seq table push_version upsert max_sequence max_loop bytes_eq
boundary = refl

-- A fault of the injector at the freeze.
abbrev fault : FailurePoint → Result (Unit {0})
fault point = err (storage Message.store_is_closed)

stops :
    (checkpoint checksum utf8 insertion_sort bits_of hashes_of front_search seg_path fault store).0
    ≡ err (storage Message.store_is_closed)
unfolding checkpoint
stops = refl

checkpoint-order_example :
    Stopped checksum utf8 insertion_sort bits_of hashes_of front_search seg_path no_fault
      (checkpoint checksum utf8 insertion_sort bits_of hashes_of front_search seg_path no_fault
        store)
      store
    ⊎ Checkpointed checksum utf8 insertion_sort bits_of hashes_of front_search seg_path no_fault
        store
        (table writes ∷ [])
        (checkpoint checksum utf8 insertion_sort bits_of hashes_of front_search seg_path no_fault
          store).1
checkpoint-order_example =
    checkpoint-order checksum utf8 insertion_sort bits_of hashes_of front_search seg_path no_fault
      store
