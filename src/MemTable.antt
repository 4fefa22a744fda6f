-- ===== src/MemTable.antt =====
-- crates/toroidal-store/memtable.rs: the in-memory table. The concurrent map is an association list
-- with one entry for a key; its value is the chain of versions, newest first. The map's iteration has
-- no order of its own; the scans sort by key.
use mathlib.Core.Option
use toroidal_db.Base.{
  ℕ, zero, suc, ◌+◌, ◌%◌, Bool, true, false, not, ◌&&◌, Option, none, some, List, [], ◌∷◌, ◌++◌,
  leb, ltb, ◌==◌, length, Message, storage, Result, ok, err, ◌>>=◌, ◌>>◌, ensure, if◌then◌else◌,
  and_then,
}
use toroidal_db.Base.Bytes.{Bytes, u64_mod}
use toroidal_db.Base.Keys.{bytes_eq, bytes_lt}
use toroidal_db.Snapshot.{
  EntryValue, VersionedEntry, value_of, byte_size, value_version, tombstone_version, latest,
}
pub mod Reads
pub mod Scans
pub mod Sort
mod Tests

abbrev pub max_key_size : ℕ
max_key_size = 16777216

abbrev pub max_value_size : ℕ
max_value_size = 16777216

abbrev pub entry_overhead : ℕ
entry_overhead = 16

abbrev pub VersionChain : Type 0
VersionChain = List VersionedEntry

abbrev pub Entries : Type 0
Entries = List (Bytes × VersionedEntry)

pub record MemTable : Type 0 where
  pub data_ : List (Bytes × VersionChain)
  pub size : ℕ

abbrev pub new : MemTable
new = record { data_ = []; size = 0 }

unfoldable pub validate_put : Bytes → Bytes → Result (Unit {0})
validate_put key value = do
  ensure (leb (length key) max_key_size) (storage Message.key_exceeds_maximum_size)
  ensure (leb (length value) max_value_size) (storage Message.value_exceeds_maximum_size)

unfoldable pub validate_delete : Bytes → Result (Unit {0})
validate_delete key =
    ensure (leb (length key) max_key_size) (storage Message.key_exceeds_maximum_size)

-- The entry of the map: a version is put in front of the chain, or starts one.
unfoldable pub upsert :
    Bytes → VersionedEntry → List (Bytes × VersionChain) → List (Bytes × VersionChain)
upsert key version [] = (key, version ∷ []) ∷ []
upsert key version ((k, chain) ∷ rest) =
    let more = upsert key version rest in
    if bytes_eq k key then (k, version ∷ chain) ∷ rest else (k, chain) ∷ more

-- `fetch_add` on the size wraps.
unfoldable pub push_version : MemTable → Bytes → VersionedEntry → MemTable
push_version m key version = record {
  data_ = upsert key version m.data_;
  size = (m.size + (length key + entry_overhead + byte_size version.value)) % u64_mod;
}

unfoldable pub insert_with_seq : MemTable → Bytes → Bytes → ℕ → Result MemTable
insert_with_seq m key value sequence = do
  validate_put key value
  ok (push_version m key (value_version sequence value))

unfoldable pub delete_with_seq : MemTable → Bytes → ℕ → Result MemTable
delete_with_seq m key sequence = do
  validate_delete key
  ok (push_version m key (tombstone_version sequence))

unfoldable pub insert : MemTable → Bytes → Bytes → Result MemTable
insert m key value = insert_with_seq m key value 0

unfoldable pub delete : MemTable → Bytes → Result MemTable
delete m key = delete_with_seq m key 0

-- `self.data.get(key)`
unfoldable pub chain_of : Bytes → List (Bytes × VersionChain) → Option VersionChain
chain_of key [] = none
chain_of key ((k, chain) ∷ rest) =
    let more = chain_of key rest in if bytes_eq k key then some chain else more

abbrev pub first : VersionChain → Option VersionedEntry
first [] = none
first (ve ∷ chain) = some ve

-- `iter().find(|ve| ve.sequence <= seq)`
unfoldable pub find_visible : ℕ → VersionChain → Option VersionedEntry
find_visible seq [] = none
find_visible seq (ve ∷ chain) =
    let rest = find_visible seq chain in if leb ve.sequence seq then some ve else rest

unfoldable pub get_entry : MemTable → Bytes → Option VersionedEntry
get_entry m key = and_then (chain_of key m.data_) first

unfoldable pub get : MemTable → Bytes → Option Bytes
get m key = and_then (get_entry m key) (λ ve. value_of ve.value)

unfoldable pub get_visible : MemTable → Bytes → ℕ → Option VersionedEntry
get_visible m key seq = and_then (chain_of key m.data_) (find_visible seq)

-- `start.is_none_or(|s| k >= s) && end.is_none_or(|e| k < e)`
unfoldable pub in_range : Option Bytes → Option Bytes → Bytes → Bool
in_range start end k =
    elim start [ none ↦ true | some s ↦ not (bytes_lt k s) ]
    && elim end [ none ↦ true | some e ↦ bytes_lt k e ]

-- The visible version of each key in the range.
unfoldable pub visible_entries :
    Option Bytes → Option Bytes → ℕ → List (Bytes × VersionChain) → Entries
visible_entries start end seq [] = []
visible_entries start end seq ((k, chain) ∷ rest) =
    let more = visible_entries start end seq rest in
    if in_range start end k
    then elim (find_visible seq chain) [ none ↦ more | some ve ↦ (k, ve) ∷ more ]
    else more

-- `sort_unstable_by` the key. The keys of a scan differ, so every sort gives the same list.
unfoldable pub insert_by_key {ℓ} : {A : Type ℓ} → Bytes → A → List (Bytes × A) → List (Bytes × A)
insert_by_key k a [] = (k, a) ∷ []
insert_by_key k a ((l, b) ∷ rest) =
    let more = insert_by_key k a rest in
    if bytes_lt l k then (l, b) ∷ more else (k, a) ∷ (l, b) ∷ rest

unfoldable pub sort_by_key {ℓ} : {A : Type ℓ} → List (Bytes × A) → List (Bytes × A)
sort_by_key [] = []
sort_by_key ((k, a) ∷ xs) = insert_by_key k a (sort_by_key xs)

unfoldable pub scan_entries_visible : MemTable → Option Bytes → Option Bytes → ℕ → Entries
scan_entries_visible m start end seq = sort_by_key (visible_entries start end seq m.data_)

unfoldable pub scan_entries : MemTable → Option Bytes → Option Bytes → Entries
scan_entries m start end = scan_entries_visible m start end latest

-- `filter_map` of the live values.
unfoldable pub live_values : Entries → List (Bytes × Bytes)
live_values [] = []
live_values ((k, ve) ∷ rest) = elim (value_of ve.value) [
  | none ↦ live_values rest
  | some v ↦ (k, v) ∷ live_values rest
]

unfoldable pub scan : MemTable → Option Bytes → Option Bytes → List (Bytes × Bytes)
scan m start end = live_values (scan_entries m start end)

unfoldable pub drain : MemTable → Entries
drain m = scan_entries m none none

-- All versions of all keys, sorted by key and then by sequence, the highest first.
unfoldable pub chain_entries : Bytes → VersionChain → Entries
chain_entries key [] = []
chain_entries key (ve ∷ chain) = (key, ve) ∷ chain_entries key chain

unfoldable pub all_entries : List (Bytes × VersionChain) → Entries
all_entries [] = []
all_entries ((k, chain) ∷ rest) = chain_entries k chain ++ all_entries rest

-- The comparison of `scan_all_versions`: strictly before.
unfoldable pub version_before : Bytes × VersionedEntry → Bytes × VersionedEntry → Bool
version_before (k, v) (l, w) =
    if bytes_lt k l then true else if bytes_eq k l then ltb w.sequence v.sequence else false

-- `sort_unstable_by` with this comparison. Where it puts versions with the same key and sequence is left open by the
-- standard library, whose sort is a parameter.
abbrev pub SortBy : Type 0
SortBy = (Bytes × VersionedEntry → Bytes × VersionedEntry → Bool) → Entries → Entries

module _ (sort_unstable_by : SortBy) where
  unfoldable pub scan_all_versions : MemTable → Entries
  scan_all_versions m = sort_unstable_by version_before (all_entries m.data_)

unfoldable pub is_empty : MemTable → Bool
is_empty m = elim m.data_ [ [] ↦ true | x ∷ xs ↦ false ]

unfoldable pub len : MemTable → ℕ
len m = length m.data_

-- The loop of `max_sequence`, over the newest version of each key.
unfoldable pub max_loop : Option ℕ → List (Bytes × VersionChain) → Option ℕ
max_loop best [] = best
max_loop best ((k, []) ∷ rest) = max_loop best rest
max_loop best ((k, ve ∷ chain) ∷ rest) =
    max_loop
      (elim best [
        | none ↦ some ve.sequence
        | some b ↦ if ltb b ve.sequence then some ve.sequence else some b
      ])
      rest

unfoldable pub max_sequence : MemTable → Option ℕ
max_sequence m = max_loop none m.data_

unfoldable pub clear : MemTable → MemTable
clear m = new
