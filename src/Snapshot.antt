-- ===== src/Snapshot.antt =====
-- crates/toroidal-store/snapshot.rs: versioned entries, snapshots, the registry of the live ones and
-- the retention horizon. The registry is an association list from a sequence to its number of handles.
pub mod Registry
mod Tests
use mathlib.Core.Option
use toroidal_db.Base.{
  ℕ, zero, suc, ◌+◌, ◌-◌, ◌%◌, min, Bool, true, false, Option, none, some, List, [], ◌∷◌, leb, ltb,
  ◌==◌, length, if◌then◌else◌,
}
use toroidal_db.Base.Bytes.{Bytes, u64_mod}

abbrev pub latest : ℕ
latest = 18446744073709551615

pub data EntryValue : Type 0 where
  value : Bytes → EntryValue
  tombstone : EntryValue

-- `EntryValue::value`
abbrev pub value_of : EntryValue → Option Bytes
value_of (EntryValue.value v) = some v
value_of EntryValue.tombstone = none

abbrev pub is_tombstone : EntryValue → Bool
is_tombstone (EntryValue.value v) = false
is_tombstone EntryValue.tombstone = true

abbrev pub byte_size : EntryValue → ℕ
byte_size (EntryValue.value v) = length v
byte_size EntryValue.tombstone = 0

pub record VersionedEntry : Type 0 where
  pub sequence : ℕ
  pub value : EntryValue

abbrev pub value_version : ℕ → Bytes → VersionedEntry
value_version sequence v = record { sequence = sequence; value = EntryValue.value v }

abbrev pub tombstone_version : ℕ → VersionedEntry
tombstone_version sequence = record { sequence = sequence; value = EntryValue.tombstone }

-- `SnapshotManager`: how many handles each sequence has.
pub record SnapshotManager : Type 0 where
  pub active : List (ℕ × ℕ)

abbrev pub no_snapshots : SnapshotManager
no_snapshots = record { active = [] }

unfoldable pub count_up : ℕ → List (ℕ × ℕ) → List (ℕ × ℕ)
count_up s [] = (s, 1) ∷ []
count_up s ((t, n) ∷ rest) =
    let more = count_up s rest in if s == t then (t, (n + 1) % u64_mod) ∷ rest else (t, n) ∷ more

unfoldable pub register : ℕ → SnapshotManager → SnapshotManager
register s m = record { active = count_up s m.active }

-- A sequence that is not there is inserted with a count of 1, which is then removed.
unfoldable pub count_down : ℕ → List (ℕ × ℕ) → List (ℕ × ℕ)
count_down s [] = []
count_down s ((t, n) ∷ rest) =
    let more = count_down s rest in
    if s == t then (if n - 1 == 0 then rest else (t, n - 1) ∷ rest) else (t, n) ∷ more

unfoldable pub unregister : ℕ → SnapshotManager → SnapshotManager
unregister s m = record { active = count_down s m.active }

-- `keys().min()`
unfoldable pub lowest : List (ℕ × ℕ) → Option ℕ
lowest [] = none
lowest ((t, n) ∷ rest) = elim (lowest rest) [ none ↦ some t | some u ↦ some (min t u) ]

unfoldable pub floor : SnapshotManager → ℕ
floor m = elim (lowest m.active) [ none ↦ latest | some s ↦ s ]

unfoldable pub is_empty : SnapshotManager → Bool
is_empty m = elim m.active [ [] ↦ true | x ∷ xs ↦ false ]

unfoldable pub sum_counts : List (ℕ × ℕ) → ℕ
sum_counts [] = 0
sum_counts ((t, n) ∷ rest) = (n + sum_counts rest) % u64_mod

unfoldable pub active_count : SnapshotManager → ℕ
active_count m = sum_counts m.active

-- A handle: a managed one holds a reference to the registry.
pub record Snapshot : Type 0 where
  pub sequence : ℕ
  pub managed : Bool

unfoldable pub new_managed : ℕ → SnapshotManager → Snapshot × SnapshotManager
new_managed s m = (record { sequence = s; managed = true }, register s m)

-- `Clone`: the clone of a managed snapshot registers its sequence.
unfoldable pub clone : Snapshot → SnapshotManager → Snapshot × SnapshotManager
clone snap m = (snap, if snap.managed then register snap.sequence m else m)

-- `Drop`
unfoldable pub drop_snapshot : Snapshot → SnapshotManager → SnapshotManager
drop_snapshot snap m = if snap.managed then unregister snap.sequence m else m

abbrev pub is_visible : Snapshot → VersionedEntry → Bool
is_visible snap ve = leb ve.sequence snap.sequence

pub record RetentionHorizon : Type 0 where
  pub oldest_active_snapshot : Option ℕ
  pub oldest_backup : Option ℕ
  pub oldest_required_wal : ℕ

-- `RetentionHorizon::floor`
unfoldable pub horizon_floor : RetentionHorizon → ℕ
horizon_floor h =
    let wal = h.oldest_required_wal in
    let snap : ℕ = elim h.oldest_active_snapshot [ none ↦ wal | some s ↦ min wal s ] in
    elim h.oldest_backup [ none ↦ snap | some b ↦ min snap b ]
