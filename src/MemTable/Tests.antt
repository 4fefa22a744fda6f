-- ===== src/MemTable/Tests.antt =====
-- Runs of the in-memory table.
use toroidal_db.Base.{◌≡◌, arith, none, some, [], ◌∷◌, leb, if◌then◌else◌, ◌&&◌}
use toroidal_db.Base.Bytes.{Bytes}
use toroidal_db.Base.Keys.{bytes_eq, bytes_lt}
use toroidal_db.Snapshot.{value_version, tombstone_version}
use toroidal_db.MemTable.{
  Entries, push_version, get_entry, get_visible, in_range, scan_entries_visible,
}
use toroidal_db.MemTable.Reads.{
  table, newest, last_write, get_visible-push_version, table-reads, get_visible-Newer,
}
use toroidal_db.MemTable.Scans.{Ascending, entry_of, table-scan}

abbrev key_a : Bytes
key_a = 97 ∷ []

abbrev key_b : Bytes
key_b = 98 ∷ []

-- The newest write first: a is deleted at 30, b written at 20, a written at 10.
abbrev history : Entries
history =
    (key_a, tombstone_version 30)
    ∷ (key_b, value_version 20 (50 ∷ []))
    ∷ (key_a, value_version 10 (49 ∷ []))
    ∷ []

get_visible-push_version_example :
    get_visible (push_version (table history) key_a (value_version 40 (51 ∷ []))) key_a 40 ≡ (
      if bytes_eq key_a key_a && leb 40 40
      then some (value_version 40 (51 ∷ []))
      else get_visible (table history) key_a 40)
get_visible-push_version_example =
    get_visible-push_version (table history) key_a key_a (value_version 40 (51 ∷ [])) 40

table-reads_example :
    (get_visible (table history) key_a 25 ≡ some (value_version 10 (49 ∷ [])))
    × (get_entry (table history) key_a ≡ some (tombstone_version 30))
unfolding newest last_write bytes_eq
table-reads_example = table-reads history key_a 25

get_visible-Newer_example :
    get_visible (table ((key_b, value_version 40 []) ∷ history)) key_b 35
    ≡ get_visible (table history) key_b 35
get_visible-Newer_example =
    get_visible-Newer history ((key_b, value_version 40 []) ∷ []) key_b 35 (omega arith, tt)

table-scan_example :
    Ascending (scan_entries_visible (table history) (some key_a) none 25)
    × (entry_of key_a (scan_entries_visible (table history) (some key_a) none 25)
        ≡ some (value_version 10 (49 ∷ [])))
unfolding newest bytes_eq bytes_lt in_range
table-scan_example = table-scan history (some key_a) none 25 key_a
