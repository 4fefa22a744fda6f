-- ===== src/Batcher/Tests.antt =====
-- Runs of the batcher of crates/toroidal-store/batcher.rs: one operation is in flight while another one is queued.
use toroidal_db.Base.{◌≡◌, refl, true, [], ◌∷◌, ◌⊎◌}
use toroidal_db.Base.Sample.{checksum}
use toroidal_db.Wal.Frame.{WalFrameKind}
use toroidal_db.Batcher.{WalBatcher, new_batcher, enqueue, take_batch, commit_batch}
use toroidal_db.Batcher.Live.{AllSignalled, Reached, worker-signals}

abbrev start : WalBatcher
start = new_batcher (record { file = []; next_sequence = 1 })

abbrev put_one : WalFrameKind
put_one = WalFrameKind.put (97 ∷ []) (49 ∷ [])

abbrev busy : WalBatcher
busy = enqueue (WalFrameKind.delete (97 ∷ [])) (take_batch (enqueue put_one start))

busy-Reached : Reached checksum busy
unfolding enqueue
busy-Reached = Reached.enqueued (WalFrameKind.delete (97 ∷ [])) (
    Reached.took refl refl
      (Reached.enqueued put_one (Reached.fresh (record { file = []; next_sequence = 1 }))))

busy_runs : busy.running ≡ true
unfolding enqueue take_batch
busy_runs = refl

worker-signals_example :
    AllSignalled (commit_batch checksum busy).slots
    ⊎ (((commit_batch checksum busy).running ≡ true)
        × AllSignalled (commit_batch checksum (take_batch (commit_batch checksum busy))).slots)
worker-signals_example = worker-signals checksum busy busy-Reached busy_runs
