-- ===== src/Store.antt =====
-- crates/toroidal-store/store.rs: the store. Its state is behind one lock, which every operation
-- takes, so an operation is a function of the state; an operation that fails returns the state that it
-- leaves. The batcher is gone exactly when the store is closed. `check` is the failure injector.
use toroidal_db.Base.{
  ℕ, zero, suc, ◌+◌, ◌%◌, min, max, Bool, true, false, not, ◌&&◌, Option, none, some, List, [], ◌∷◌,
  ◌++◌, leb, ltb, ◌==◌, length, Message, TqlError, storage, Result, ok, err, ◌>>=◌, ◌>>◌, ensure,
  if◌then◌else◌,
}
use toroidal_db.Base.Bytes.{Bytes, u64_mod}
use toroidal_db.Base.Keys.{bytes_eq}
use toroidal_db.Wal.Frame.{WalFrameKind}
use toroidal_db.Wal.Log.{Wal, append_many_standalone_sync}
use toroidal_db.Snapshot.{
  EntryValue, VersionedEntry, latest, Snapshot, SnapshotManager, floor, is_empty, active_count,
  new_managed,
}
use toroidal_db.MemTable.{
  MemTable, Entries, new, validate_put, validate_delete, insert_with_seq, delete_with_seq,
  get_entry, get_visible, scan_entries_visible, sort_by_key, max_sequence,
}
use toroidal_db.Manifest.{Manifest}
pub mod Reads
pub mod Durable
pub mod Compaction
pub mod Flush
pub mod Checkpoint
mod Tests

-- What the store calls of a `SegmentReader`.
pub record OpenSegment : Type 0 where
  pub path : Bytes
  pub seg_max_sequence : ℕ
  pub seg_get : Bytes → Option VersionedEntry
  pub seg_get_visible : Bytes → ℕ → Option VersionedEntry
  pub seg_scan_entries : Option Bytes → Option Bytes → Entries

-- crates/toroidal-store/fault.rs: the points at which the store asks the injector.
pub data FailurePoint : Type 0 where
  after_wal_append : FailurePoint
  after_wal_sync : FailurePoint
  after_batch_commit : FailurePoint
  after_memtable_freeze : FailurePoint
  after_segment_write : FailurePoint
  after_segment_sync : FailurePoint
  after_manifest_write : FailurePoint
  after_manifest_sync : FailurePoint
  before_wal_truncate : FailurePoint
  after_wal_truncate : FailurePoint
  before_compaction : FailurePoint
  during_compaction : FailurePoint
  after_compaction_output : FailurePoint
  after_compaction_publish : FailurePoint
  compaction_after_manifest_batch : FailurePoint
  compaction_after_old_file_delete : FailurePoint

-- `NoFault`
abbrev pub no_fault : FailurePoint → Result (Unit {0})
no_fault point = ok tt

-- The frozen tables stand oldest first, the segments newest first.
pub record ToroidalStore : Type 0 where
  pub wal : Wal
  pub manifest : Manifest
  pub active : MemTable
  pub immutable : List MemTable
  pub segments : List OpenSegment
  pub next_seg_id : ℕ
  pub snapshots : SnapshotManager
  pub closed : Bool

unfoldable pub close : ToroidalStore → ToroidalStore
close s = record s { closed = true }

unfoldable pub check_open : ToroidalStore → Result (Unit {0})
check_open s = if s.closed then err (storage Message.store_is_closed) else ok tt

-- What `StoreState::freeze` does to the state.
unfoldable pub freeze : ToroidalStore → ToroidalStore
freeze s = record s { active = new; immutable = s.immutable ++ (s.active ∷ []) }

-- The checks of `batch` on one operation.
unfoldable pub validate_op : WalFrameKind → Result (Unit {0})
validate_op (WalFrameKind.put key value) = validate_put key value
validate_op (WalFrameKind.delete key) = validate_delete key
validate_op (WalFrameKind.begin b) =
    err (storage Message.batch_may_only_contain_put_or_delete_operations)
validate_op (WalFrameKind.commit b) =
    err (storage Message.batch_may_only_contain_put_or_delete_operations)

unfoldable pub validate_ops : List WalFrameKind → Result (Unit {0})
validate_ops [] = ok tt
validate_ops (op ∷ ops) = validate_op op >> validate_ops ops

-- `insert_with_seq` or `delete_with_seq` of an operation; the checks have excluded the others.
unfoldable pub apply_op : MemTable → WalFrameKind → ℕ → Result MemTable
apply_op mem (WalFrameKind.put key value) seq = insert_with_seq mem key value seq
apply_op mem (WalFrameKind.delete key) seq = delete_with_seq mem key seq
apply_op mem (WalFrameKind.begin b) seq = ok mem
apply_op mem (WalFrameKind.commit b) seq = ok mem

-- The loop of `batch` over the table, from position `i` on.
unfoldable pub apply_ops : MemTable → ℕ → ℕ → List WalFrameKind → Result (Unit {0}) × MemTable
apply_ops mem first i [] = (ok tt, mem)
apply_ops mem first i (op ∷ ops) = elim (apply_op mem op ((first + i) % u64_mod)) [
  | err e ↦ (err e, mem)
  | ok mem1 ↦ apply_ops mem1 first (suc i) ops
]

-- The tables in the order of a read: the active one, then the frozen ones from the newest on.
unfoldable pub reverse_onto : List MemTable → List MemTable → List MemTable
reverse_onto [] ms = ms
reverse_onto (x ∷ xs) ms = reverse_onto xs (x ∷ ms)

unfoldable pub tables : ToroidalStore → List MemTable
tables s = s.active ∷ reverse_onto s.immutable []

-- A value ends the search with it, a tombstone with nothing.
unfoldable pub stop_at : VersionedEntry → Option Bytes
stop_at ve = elim ve.value [ EntryValue.value v ↦ some v | EntryValue.tombstone ↦ none ]

unfoldable pub search_segments :
    (OpenSegment → Option VersionedEntry) → List OpenSegment → Option Bytes
search_segments read [] = none
search_segments read (seg ∷ segs) = elim (read seg) [
  | some ve ↦ stop_at ve
  | none ↦ search_segments read segs
]

-- The two loops of `get` and of `get_at`: the tables, and behind them the segments.
unfoldable pub search :
    (MemTable → Option VersionedEntry)
    → (OpenSegment → Option VersionedEntry)
    → List MemTable
    → List OpenSegment
    → Option Bytes
search look read [] segs = search_segments read segs
search look read (m ∷ ms) segs = elim (look m) [
  | some ve ↦ stop_at ve
  | none ↦ search look read ms segs
]

unfoldable pub get : ToroidalStore → Bytes → Option Bytes
get s key = search (λ m. get_entry m key) (λ g. g.seg_get key) (tables s) s.segments

unfoldable pub retention_floor : ToroidalStore → ℕ
retention_floor s = min s.manifest.max_flushed_sequence (floor s.snapshots)

unfoldable pub get_at : ToroidalStore → Snapshot → Bytes → Result (Option Bytes)
get_at s snap key =
    let seq = snap.sequence in
    if ltb seq (retention_floor s)
    then err (TqlError.snapshot_expired seq (retention_floor s))
    else ok
        (search (λ m. get_visible m key seq) (λ g. g.seg_get_visible key seq) (tables s) s.segments)

-- `seen.contains`
unfoldable pub has_key : Bytes → List Bytes → Bool
has_key k [] = false
has_key k (l ∷ ls) = if bytes_eq l k then true else has_key k ls

-- A loop of `scan_at` over the entries of a layer: what it has seen and found.
unfoldable pub merge_layer :
    (VersionedEntry → Bool)
    → Entries
    → List Bytes × List (Bytes × Bytes)
    → List Bytes × List (Bytes × Bytes)
merge_layer visible [] acc = acc
merge_layer visible ((key, ve) ∷ es) (seen, found) = merge_layer visible es (
    if visible ve && not (has_key key seen)
    then (
      key ∷ seen,
      elim ve.value [
        | EntryValue.value v ↦ found ++ ((key, v) ∷ [])
        | EntryValue.tombstone ↦ found
      ],
    )
    else (seen, found))

unfoldable pub merge_tables :
    Option Bytes
    → Option Bytes
    → ℕ
    → List MemTable
    → List Bytes × List (Bytes × Bytes)
    → List Bytes × List (Bytes × Bytes)
merge_tables start end seq [] acc = acc
merge_tables start end seq (m ∷ ms) acc =
    merge_tables start end seq ms
      (merge_layer (λ ve. true) (scan_entries_visible m start end seq) acc)

unfoldable pub merge_segments :
    Option Bytes
    → Option Bytes
    → ℕ
    → List OpenSegment
    → List Bytes × List (Bytes × Bytes)
    → List Bytes × List (Bytes × Bytes)
merge_segments start end seq [] acc = acc
merge_segments start end seq (g ∷ gs) acc =
    merge_segments start end seq gs
      (merge_layer (λ ve. leb ve.sequence seq) (g.seg_scan_entries start end) acc)

unfoldable pub scan_at :
    ToroidalStore → Snapshot → Option Bytes → Option Bytes → Result (List (Bytes × Bytes))
scan_at s snap start end =
    let seq = snap.sequence in
    if ltb seq (retention_floor s)
    then err (TqlError.snapshot_expired seq (retention_floor s))
    else (let (seen, found) =
          merge_segments start end seq s.segments
            (merge_tables start end seq (tables s) ([], [])) in
        ok (sort_by_key found))

-- The loops of `snapshot`: the highest sequence in any layer.
unfoldable pub max_table : ℕ → MemTable → ℕ
max_table best m = elim (max_sequence m) [ none ↦ best | some q ↦ max best q ]

unfoldable pub max_tables : ℕ → List MemTable → ℕ
max_tables best [] = best
max_tables best (m ∷ ms) = max_tables (max_table best m) ms

unfoldable pub max_segments : ℕ → List OpenSegment → ℕ
max_segments best [] = best
max_segments best (g ∷ gs) = max_segments (max best g.seg_max_sequence) gs

unfoldable pub snapshot : ToroidalStore → Snapshot × ToroidalStore
snapshot s =
    let seq = max_segments (max_tables (max_table 0 s.active) s.immutable) s.segments in
    let (snap, reg) = new_managed seq s.snapshots in (snap, record s { snapshots = reg })

unfoldable pub oldest_active_snapshot : ToroidalStore → Option ℕ
oldest_active_snapshot s = if is_empty s.snapshots then none else some (floor s.snapshots)

unfoldable pub active_snapshot_count : ToroidalStore → ℕ
active_snapshot_count s = active_count s.snapshots

module _ (crc32 : Bytes → ℕ) (check : FailurePoint → Result (Unit {0})) where
  -- What `put` and `delete` do behind their checks: append to the log, ask the injector, and insert.
  unfoldable pub write_one : ToroidalStore → WalFrameKind → Result (Unit {0}) × ToroidalStore
  write_one s kind =
      let (r, w) = append_many_standalone_sync crc32 s.wal (kind ∷ []) in
      elim r [
        | err e ↦ (err e, record s { wal = w })
        | ok seq ↦ elim (check FailurePoint.after_wal_append) [
          | err e ↦ (err e, record s { wal = w })
          | ok _ ↦ elim (apply_op s.active kind seq) [
            | err e ↦ (err e, record s { wal = w })
            | ok mem ↦ (ok tt, record s { wal = w; active = mem })
          ]
        ]
      ]

  unfoldable pub put : ToroidalStore → Bytes → Bytes → Result (Unit {0}) × ToroidalStore
  put s key value = elim (validate_put key value >> check_open s) [
    | err e ↦ (err e, s)
    | ok _ ↦ write_one s (WalFrameKind.put key value)
  ]

  unfoldable pub delete : ToroidalStore → Bytes → Result (Unit {0}) × ToroidalStore
  delete s key = elim (validate_delete key >> check_open s) [
    | err e ↦ (err e, s)
    | ok _ ↦ write_one s (WalFrameKind.delete key)
  ]

  unfoldable pub batch : ToroidalStore → List WalFrameKind → Result (Unit {0}) × ToroidalStore
  batch s [] = (ok tt, s)
  batch s (op ∷ ops) = elim (validate_ops (op ∷ ops) >> check_open s) [
    | err e ↦ (err e, s)
    | ok _ ↦
        let (r, w) = append_many_standalone_sync crc32 s.wal (op ∷ ops) in
        elim r [
          | err e ↦ (err e, record s { wal = w })
          | ok first ↦
              let (q, mem) = apply_ops s.active first 0 (op ∷ ops) in
              (q, record s { wal = w; active = mem })
        ]
  ]
