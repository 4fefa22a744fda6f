-- ===== src/Wal/Batch.antt =====
-- crates/toroidal-store/wal.rs: `append_batch` writes BEGIN, the operations and COMMIT with
-- consecutive sequences, and a batch is replayed whole or not at all.
use toroidal_db.Base.{
  ℕ, ◌+◌, ◌<◌, ◌≡◌, inl, inr, ◌∙◌, true, List, [], ◌∷◌, ◌++◌, length, max, ok, arith, Bool-cases,
  Result-cases,
}
use toroidal_db.Base.Bytes.{Bytes, u64_mod, checked_add}
use toroidal_db.Wal.Frame.{WalFrameKind}
use toroidal_db.Wal.Log.{
  Wal, next_seq_locked, write_frame, write_next, write_ops, next_batch_id, all_operations,
  finish_batch, append_batch,
}
use toroidal_db.Wal.Append.{
  op_frames, length-op_frames, commit_frame, batch_frames, Extends, Extends-trans, Pushed-Extends,
  push, write_next-Pushed, write_ops-Extends,
}
use native.Mathlib.Numerals.{add-one}

-- Sequence 0 is skipped, since it cannot name a batch.
abbrev pub batch_start : Wal → Wal
batch_start w = record w { next_sequence = max 1 w.next_sequence }

next_batch_id-inv :
    (w w1 : Wal) (bid : ℕ)
    → next_batch_id w ≡ ok (bid, w1)
    → (bid ≡ max 1 w.next_sequence)
      × (next_seq_locked (batch_start w) ≡ ok (bid, w1))
      × (bid < u64_mod)
unfolding next_batch_id next_seq_locked checked_add
next_batch_id-inv w w1 bid h = ground arith

module _ (crc32 : Bytes → ℕ) where
  finish_batch-Extends :
      (w : Wal) (bid b : ℕ) (ops : List WalFrameKind) (w' : Wal)
      → bid < u64_mod
      → w.next_sequence < u64_mod
      → finish_batch crc32 w bid ops ≡ (ok b, w')
      → (b ≡ bid)
        × Extends crc32 w
            (op_frames w.next_sequence bid ops
              ++ (commit_frame (w.next_sequence + length ops) bid ∷ []))
            w'
  unfolding finish_batch
  finish_batch-Extends w bid b ops w' hb h e = elim (Result-cases (write_ops crc32 w bid ops).0) [
    | inr (x, q) ↦ absurd (ground arith)
    | inl (t, q) ↦
        let w1 = (write_ops crc32 w bid ops).1 in
        elim (Result-cases (write_next crc32 w1 bid (WalFrameKind.commit bid)).0) [
          | inr (x, q2) ↦ absurd (ground arith)
          | inl (seq, q2) ↦
              let k = write_ops-Extends crc32 ops w bid {w' = w1} hb h (ground arith) in
              let (p, es) =
                write_next-Pushed crc32 w1 bid (WalFrameKind.commit bid) {seq = seq} {w' = w'} hb
                  (ground arith) in
              let c = Pushed-Extends crc32 w1 w' bid (WalFrameKind.commit bid) p in
              (
                ground arith,
                Extends-trans crc32 w w1 w' _ _ k (rw (k.counted, length-op_frames) at c),
              )
        ]
  ]

  -- A successful batch writes BEGIN, its operations and COMMIT behind the file, with consecutive
  -- sequences; its identifier is the sequence of BEGIN, the next one that is not 0.
  pub append_batch-Extends :
      (w : Wal) (ops : List WalFrameKind) {bid : ℕ} {w' : Wal}
      → append_batch crc32 w ops ≡ (ok bid, w')
      → (bid ≡ max 1 w.next_sequence) × Extends crc32 (batch_start w) (batch_frames bid ops) w'
  unfolding append_batch
  append_batch-Extends w [] {bid} {w'} e = absurd (ground arith)
  append_batch-Extends w (op ∷ ops) {bid} {w'} e = elim (Bool-cases (all_operations (op ∷ ops))) [
    | inr bad ↦ absurd (ground arith)
    | inl good ↦ elim (Result-cases (next_batch_id w)) [
      | inr (x, q) ↦ absurd (ground arith)
      | inl ((b, w1), q) ↦ elim (Result-cases (write_frame crc32 w1 b b (WalFrameKind.begin b))) [
        | inr (x, q2) ↦ absurd (ground arith)
        | inl (w2, q2) ↦
            let (eb, next, fits) = next_batch_id-inv w w1 b q in
            let (p, es) =
              push crc32 (batch_start w) w1 w2 b b (WalFrameKind.begin b) fits next q2 in
            let k = Pushed-Extends crc32 (batch_start w) w2 b (WalFrameKind.begin b) p in
            let (same, rest) =
              finish_batch-Extends w2 b bid (op ∷ ops) w' fits k.room (ground arith) in
            let k' = simp eb at k in
            let rest' = simp (k.counted, add-one, eb) at rest in
            (same ∙ eb, rw (same ∙ eb) (Extends-trans crc32 (batch_start w) w2 w' _ _ k' rest'))
      ]
    ]
  ]

  -- Only PUT and DELETE are batched.
  pub append_batch-operations :
      (w : Wal) (ops : List WalFrameKind) {bid : ℕ} {w' : Wal}
      → append_batch crc32 w ops ≡ (ok bid, w')
      → all_operations ops ≡ true
  unfolding append_batch
  append_batch-operations w [] {bid} {w'} e = absurd (ground arith)
  append_batch-operations w (op ∷ ops) {bid} {w'} e =
      elim (Bool-cases (all_operations (op ∷ ops))) [
        | inl good ↦ good
        | inr bad ↦ absurd (ground arith)
      ]
