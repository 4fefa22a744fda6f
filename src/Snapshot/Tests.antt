-- ===== src/Snapshot/Tests.antt =====
-- Runs of the snapshot registry.
use toroidal_db.Base.{◌≡◌, ◌≤◌, ◌<◌, arith, [], ◌∷◌, false}
use toroidal_db.Snapshot.{
  SnapshotManager, no_snapshots, register, unregister, floor, is_empty, active_count,
}
use toroidal_db.Snapshot.Registry.{Reached, handles_at, Reached-floor}

-- Two handles at 7 and one at 9; then the one at 9 and one of those at 7 are dropped.
abbrev three : SnapshotManager
three = register 7 (register 9 (register 7 no_snapshots))

three-Reached : Reached three (7 ∷ 9 ∷ 7 ∷ [])
three-Reached =
    Reached.taken 7 (omega arith)
      (Reached.taken 9 (omega arith) (Reached.taken 7 (omega arith) Reached.start))

abbrev two : SnapshotManager
two = unregister 7 three

two-Reached : Reached two (7 ∷ 9 ∷ [])
two-Reached = Reached.dropped 7 (7 ∷ 9 ∷ []) [] three-Reached

Reached-floor_example :
    (active_count two ≡ 2)
    × (floor two ≤ 9)
    × (0 < handles_at (floor two) (7 ∷ 9 ∷ []))
    × (is_empty two ≡ false)
Reached-floor_example = Reached-floor two (7 ∷ 9 ∷ []) 9 two-Reached (omega arith)
