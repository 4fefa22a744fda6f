-- ===== src/Batcher/Live.antt =====
-- crates/toroidal-store/batcher.rs: no operation of the background path is lost, and the worker signals them all.
use toroidal_db.Base.{
  ℕ, ◌≡◌, refl, sym, ap, subst, ◌∙◌, Bool, true, false, ◌&&◌, none, some, List, [], ◌∷◌, ◌++◌, ◌==◌,
  Result, if◌then◌else◌, arith, Bool-cases, inl, inr, append-nil, append_assoc, ◌⊎◌, eq→==,
}
use toroidal_db.Base.Bytes.{Bytes}
use toroidal_db.Wal.Frame.{WalFrameKind}
use toroidal_db.Wal.Log.{Wal, append_many_standalone_sync}
use toroidal_db.Batcher.{
  PendingOp, AckSlot, WalBatcher, new_batcher, signal, signal_all, kinds_of, group_result, enqueue,
  force, shutdown, take_batch, no_ops, stop_worker, append_many_sync, commit_batch,
}

-- A pending operation has the slot.
unfoldable pub has_op : ℕ → List PendingOp → Bool
has_op i [] = false
has_op i (op ∷ ops) = if i == op.ack then true else has_op i ops

-- Every slot that is not signalled belongs to one of the operations.
abbrev pub Waiting : List PendingOp → List AckSlot → Type 0
Waiting ops [] = Unit
Waiting ops ((i, none) ∷ slots) = (has_op i ops ≡ true) × Waiting ops slots
Waiting ops ((i, some r) ∷ slots) = Waiting ops slots

abbrev pub AllSignalled : List AckSlot → Type 0
AllSignalled = Waiting []

signal-Waiting :
    (op : PendingOp) (ops : List PendingOp) (r : Result (Unit {0})) (slots : List AckSlot)
    → Waiting (op ∷ ops) slots
    → Waiting ops (signal op.ack r slots)
unfolding signal has_op
signal-Waiting op ops r [] h = tt
signal-Waiting op ops r ((i, none) ∷ slots) (h, hs) =
    let rest = signal-Waiting op ops r slots hs in
    elim (Bool-cases (i == op.ack)) [
      | inl t ↦ rw (signal, t) rest
      | inr t ↦
          let still : has_op i ops ≡ true = rw (has_op, t) at h in rw (signal, t) (still, rest)
    ]
signal-Waiting op ops r ((i, some d) ∷ slots) h =
    let rest = signal-Waiting op ops r slots h in
    elim (Bool-cases (i == op.ack)) [ inl t ↦ rw (signal, t) rest | inr t ↦ rw (signal, t) rest ]

signal_all-Waiting :
    (ops more : List PendingOp) (r : Result (Unit {0})) (slots : List AckSlot)
    → Waiting (ops ++ more) slots
    → Waiting more (signal_all ops r slots)
unfolding signal_all
signal_all-Waiting [] more r slots h = h
signal_all-Waiting (op ∷ ops) more r slots h =
    signal_all-Waiting ops more r (signal op.ack r slots)
      (signal-Waiting op (ops ++ more) r slots h)

has_op-append :
    (i : ℕ) (ops : List PendingOp) (op : PendingOp)
    → (has_op i ops ≡ true → has_op i (ops ++ (op ∷ [])) ≡ true)
      × (i ≡ op.ack → has_op i (ops ++ (op ∷ [])) ≡ true)
unfolding has_op
has_op-append i [] op = (λ h. absurd (ground arith), λ e. rw (has_op, eq→== _ _ e) refl)
has_op-append i (o ∷ ops) op =
    let (old, new) = has_op-append i ops op in
    elim (Bool-cases (i == o.ack)) [
      | inl t ↦ (λ h. rw (has_op, t) refl, λ e. rw (has_op, t) refl)
      | inr t ↦ (
        λ h. let h' : has_op i ops ≡ true = rw (has_op, t) at h in rw (has_op, t) (old h'),
        λ e. rw (has_op, t) (new e),
      )
    ]

Waiting-append :
    (ops : List PendingOp) (op : PendingOp) (slots : List AckSlot)
    → Waiting ops slots
    → Waiting (ops ++ (op ∷ [])) slots
Waiting-append ops op [] h = tt
Waiting-append ops op ((i, none) ∷ slots) (h, hs) =
    ((has_op-append i ops op).0 h, Waiting-append ops op slots hs)
Waiting-append ops op ((i, some d) ∷ slots) h = Waiting-append ops op slots h

-- No operation is lost: a slot that waits has its operation in the batch in flight or in the queue.
abbrev pub IsKept : WalBatcher → Type 0
IsKept b = Waiting (b.in_flight ++ b.queue) b.slots

module _ (crc32 : Bytes → ℕ) where
  -- The steps of the callers and of the worker, in any order.
  pub data Reached : WalBatcher → Type 0 where
    fresh : (wal : Wal) → Reached (new_batcher wal)
    enqueued : {b : WalBatcher} (kind : WalFrameKind) → Reached b → Reached (enqueue kind b)
    forced : {b : WalBatcher} → Reached b → Reached (force b)
    shut : {b : WalBatcher} → Reached b → Reached (shutdown b)
    direct :
        {b : WalBatcher} (kinds : List WalFrameKind)
        → Reached b
        → Reached (append_many_sync crc32 kinds b).1
    took :
        {b : WalBatcher} → b.running ≡ true → b.in_flight ≡ [] → Reached b → Reached (take_batch b)
    committed : {b : WalBatcher} → b.running ≡ true → Reached b → Reached (commit_batch crc32 b)
    stopped : {b : WalBatcher} → b.in_flight ≡ [] → Reached b → Reached (stop_worker b)

  stop_worker-IsKept : (b : WalBatcher) → IsKept b → IsKept (stop_worker b)
  unfolding stop_worker
  stop_worker-IsKept b h = elim (Bool-cases (b.shutting_down && no_ops b.queue)) [
    | inl t ↦ rw (stop_worker, t) h
    | inr t ↦ rw (stop_worker, t) h
  ]

  take_batch-IsKept : (b : WalBatcher) → b.in_flight ≡ [] → IsKept b → IsKept (take_batch b)
  unfolding take_batch
  take_batch-IsKept b none_taken h =
      subst (λ ops. Waiting ops b.slots)
        (ap (λ t. t ++ b.queue) none_taken ∙ sym (append-nil b.queue)) h

  commit_batch-IsKept : (b : WalBatcher) → IsKept b → IsKept (commit_batch crc32 b)
  unfolding commit_batch
  commit_batch-IsKept b h = go b.in_flight refl
    where
      go : (batch : List PendingOp) → b.in_flight ≡ batch → IsKept (commit_batch crc32 b)
      go [] e = rw (commit_batch, e) h
      go (op ∷ ops) e =
          let result = append_many_standalone_sync crc32 b.wal (kinds_of (op ∷ ops)) in
          let waiting = subst (λ t. Waiting (t ++ b.queue) b.slots) e h in
          rw (commit_batch, e)
            (stop_worker-IsKept
              (record b {
                wal = result.1;
                in_flight = [];
                slots = signal_all (op ∷ ops) (group_result result.0) b.slots;
              })
              (signal_all-Waiting (op ∷ ops) b.queue (group_result result.0) b.slots waiting))

  stop_worker-in_flight : (b : WalBatcher) → (stop_worker b).in_flight ≡ b.in_flight
  unfolding stop_worker
  stop_worker-in_flight b = elim (Bool-cases (b.shutting_down && no_ops b.queue)) [
    | inl t ↦ rw (stop_worker, t) refl
    | inr t ↦ rw (stop_worker, t) refl
  ]

  commit_batch-in_flight : (b : WalBatcher) → (commit_batch crc32 b).in_flight ≡ []
  unfolding commit_batch
  commit_batch-in_flight b = go b.in_flight refl
    where
      go : (batch : List PendingOp) → b.in_flight ≡ batch → (commit_batch crc32 b).in_flight ≡ []
      go [] e = rw (commit_batch, e) e
      go (op ∷ ops) e = rw (commit_batch, e) (stop_worker-in_flight _)

  stop_worker-queue : (b : WalBatcher) → (stop_worker b).queue ≡ b.queue
  unfolding stop_worker
  stop_worker-queue b = elim (Bool-cases (b.shutting_down && no_ops b.queue)) [
    | inl t ↦ rw (stop_worker, t) refl
    | inr t ↦ rw (stop_worker, t) refl
  ]

  commit_batch-queue : (b : WalBatcher) → (commit_batch crc32 b).queue ≡ b.queue
  unfolding commit_batch
  commit_batch-queue b = go b.in_flight refl
    where
      go : (batch : List PendingOp) → b.in_flight ≡ batch → (commit_batch crc32 b).queue ≡ b.queue
      go [] e = rw (commit_batch, e) refl
      go (op ∷ ops) e = rw (commit_batch, e) (stop_worker-queue _)

  -- The worker goes on, or its queue is empty.
  stop_worker-running :
      (b : WalBatcher)
      → b.running ≡ true
      → ((stop_worker b).queue ≡ []) ⊎ ((stop_worker b).running ≡ true)
  unfolding stop_worker
  stop_worker-running b h = go b.queue refl
    where
      go :
          (queue : List PendingOp)
          → b.queue ≡ queue
          → ((stop_worker b).queue ≡ []) ⊎ ((stop_worker b).running ≡ true)
      go [] e = elim (Bool-cases b.shutting_down) [
        | inl t ↦ inl (rw (stop_worker, t, e) refl)
        | inr t ↦ inr (rw (stop_worker, t) h)
      ]
      go (op ∷ ops) e = elim (Bool-cases b.shutting_down) [
        | inl t ↦ inr (rw (stop_worker, t, e) h)
        | inr t ↦ inr (rw (stop_worker, t) h)
      ]

  commit_batch-running :
      (b : WalBatcher)
      → b.running ≡ true
      → ((commit_batch crc32 b).queue ≡ []) ⊎ ((commit_batch crc32 b).running ≡ true)
  unfolding commit_batch
  commit_batch-running b h = go b.in_flight refl
    where
      go :
          (batch : List PendingOp)
          → b.in_flight ≡ batch
          → ((commit_batch crc32 b).queue ≡ []) ⊎ ((commit_batch crc32 b).running ≡ true)
      go [] e = inr (rw (commit_batch, e) h)
      go (op ∷ ops) e = rw (commit_batch, e) (stop_worker-running _ h)

  pub Reached-IsKept : {b : WalBatcher} → Reached b → IsKept b
  unfolding enqueue force shutdown append_many_sync
  Reached-IsKept (Reached.fresh wal) = tt
  Reached-IsKept (Reached.enqueued {b = b} kind r) =
      subst (λ ops. Waiting ops (enqueue kind b).slots)
        (append_assoc b.in_flight b.queue (record { kind = kind; ack = b.next_slot } ∷ []))
        (
          (has_op-append b.next_slot (b.in_flight ++ b.queue)
                (record { kind = kind; ack = b.next_slot })).1
              refl,
          Waiting-append (b.in_flight ++ b.queue) (record { kind = kind; ack = b.next_slot })
              b.slots (Reached-IsKept r),
        )
  Reached-IsKept (Reached.forced r) = Reached-IsKept r
  Reached-IsKept (Reached.shut r) = Reached-IsKept r
  Reached-IsKept (Reached.direct kinds r) = Reached-IsKept r
  Reached-IsKept (Reached.took {b = b} run e r) = take_batch-IsKept b e (Reached-IsKept r)
  Reached-IsKept (Reached.committed {b = b} run r) = commit_batch-IsKept b (Reached-IsKept r)
  Reached-IsKept (Reached.stopped {b = b} e r) = stop_worker-IsKept b (Reached-IsKept r)

  -- In every state that is reached while the worker runs, one or two of its turns signal every slot: behind the write of the
  -- batch in flight all are signalled, or the worker still runs and they are all signalled behind its next batch.
  pub worker-signals :
      (b : WalBatcher)
      → Reached b
      → b.running ≡ true
      → AllSignalled (commit_batch crc32 b).slots
        ⊎ (((commit_batch crc32 b).running ≡ true)
            × AllSignalled (commit_batch crc32 (take_batch (commit_batch crc32 b))).slots)
  unfolding take_batch
  worker-signals b r run =
      let c = commit_batch crc32 b in
      let kept = commit_batch-IsKept b (Reached-IsKept r) in
      let free = commit_batch-in_flight b in
      let queued = subst (λ t. Waiting (t ++ c.queue) c.slots) free kept in
      elim (commit_batch-running b run) [
        | inl empty ↦ inl (subst (λ t. Waiting t c.slots) empty queued)
        | inr runs ↦
            let d = take_batch c in
            let last = commit_batch-IsKept d (take_batch-IsKept c free kept) in
            let free2 = commit_batch-in_flight d in
            let none_left : (commit_batch crc32 d).in_flight ++ (commit_batch crc32 d).queue ≡ [] =
              ap (λ t. t ++ (commit_batch crc32 d).queue) free2 ∙ commit_batch-queue d in
            inr (runs, subst (λ t. Waiting t (commit_batch crc32 d).slots) none_left last)
      ]
