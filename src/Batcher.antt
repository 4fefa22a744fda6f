-- ===== src/Batcher.antt =====
-- crates/toroidal-store/batcher.rs: the group-commit batcher, as steps of its callers and of its worker that may come in
-- any order. `in_flight` is the batch that the worker has taken from the queue and has not signalled yet. How long the
-- worker waits for more operations is left open: it may take a queue that is not empty at any time.
pub mod Live
mod Tests
use toroidal_db.Base.{
  ℕ, ◌+◌, Bool, true, false, not, ◌&&◌, Option, none, some, List, [], ◌∷◌, ◌++◌, ◌==◌, Message,
  storage, Result, ok, err, if◌then◌else◌,
}
use toroidal_db.Base.Bytes.{Bytes}
use toroidal_db.Wal.Frame.{WalFrameKind}
use toroidal_db.Wal.Log.{Wal, append_many_standalone_sync}

-- The slot for the acknowledgement is a number.
pub record PendingOp : Type 0 where
  pub kind : WalFrameKind
  pub ack : ℕ

-- What has been signalled to a slot.
abbrev pub AckSlot : Type 0
AckSlot = ℕ × Option (Result (Unit {0}))

pub record WalBatcher : Type 0 where
  pub wal : Wal
  pub queue : List PendingOp
  pub in_flight : List PendingOp
  pub slots : List AckSlot
  pub next_slot : ℕ
  pub shutting_down : Bool
  pub force_flush : Bool
  pub running : Bool

abbrev pub new_batcher : Wal → WalBatcher
new_batcher wal = record {
  wal = wal;
  queue = [];
  in_flight = [];
  slots = [];
  next_slot = 0;
  shutting_down = false;
  force_flush = false;
  running = true;
}

unfoldable pub signal : ℕ → Result (Unit {0}) → List AckSlot → List AckSlot
signal id res [] = []
signal id res ((i, done) ∷ slots) =
    let rest = signal id res slots in if i == id then (i, some res) ∷ rest else (i, done) ∷ rest

-- The loop over the batch.
unfoldable pub signal_all : List PendingOp → Result (Unit {0}) → List AckSlot → List AckSlot
signal_all [] res slots = slots
signal_all (op ∷ ops) res slots = signal_all ops res (signal op.ack res slots)

unfoldable pub kinds_of : List PendingOp → List WalFrameKind
kinds_of [] = []
kinds_of (op ∷ ops) = op.kind ∷ kinds_of ops

-- `map_err`; the text of the error, which the message of the code repeats, is left out.
abbrev pub group_result : Result ℕ → Result (Unit {0})
group_result (ok sequence) = ok tt
group_result (err e) = err (storage Message.group_commit_failed)

-- The part of `append_sync_background` before it waits.
unfoldable pub enqueue : WalFrameKind → WalBatcher → WalBatcher
enqueue kind b = record b {
  queue = b.queue ++ (record { kind = kind; ack = b.next_slot } ∷ []);
  slots = (b.next_slot, none) ∷ b.slots;
  next_slot = b.next_slot + 1;
}

-- What `flush` and `shutdown` set.
unfoldable pub force : WalBatcher → WalBatcher
force b = record b { force_flush = true }

unfoldable pub shutdown : WalBatcher → WalBatcher
shutdown b = record b { shutting_down = true; force_flush = true }

-- The worker takes all of the queue.
unfoldable pub take_batch : WalBatcher → WalBatcher
take_batch b = record b { queue = []; in_flight = b.queue; force_flush = false }

abbrev pub no_ops : List PendingOp → Bool
no_ops [] = true
no_ops (op ∷ ops) = false

-- With nothing to take, the worker returns if the batcher is shutting down.
unfoldable pub stop_worker : WalBatcher → WalBatcher
stop_worker b = if b.shutting_down && no_ops b.queue then record b { running = false } else b

module _ (crc32 : Bytes → ℕ) where
  unfoldable pub append_sync_direct : WalFrameKind → WalBatcher → Result ℕ × WalBatcher
  append_sync_direct kind b =
      let (r, w) = append_many_standalone_sync crc32 b.wal (kind ∷ []) in (r, record b { wal = w })

  unfoldable pub append_many_sync : List WalFrameKind → WalBatcher → Result ℕ × WalBatcher
  append_many_sync kinds b =
      let (r, w) = append_many_standalone_sync crc32 b.wal kinds in (r, record b { wal = w })

  -- The worker writes the batch, signals every slot of it, and returns if it can.
  unfoldable pub commit_batch : WalBatcher → WalBatcher
  commit_batch b = elim b.in_flight [
    | [] ↦ b
    | op ∷ ops ↦
        let (r, w) = append_many_standalone_sync crc32 b.wal (kinds_of (op ∷ ops)) in
        stop_worker (record b {
          wal = w;
          in_flight = [];
          slots = signal_all (op ∷ ops) (group_result r) b.slots;
        })
  ]
