-- ===== src/Wal/Crash.antt =====
-- crates/toroidal-store/wal.rs: what a crash leaves. The file then holds a part of the bytes that
-- were written; reading ends at the first frame that is cut short.
use toroidal_db.Base.{
  ℕ, suc, ◌-◌, ◌<◌, ◌≡◌, inl, inr, refl, ◌∙◌, true, none, some, List, [], ◌∷◌, ◌++◌, length, take,
  length-append, take-append_ge, take-append_lt, append_assoc, append-nil, ok, ◌>>=◌, arith,
  Result-cases,
}
use toroidal_db.Base.Bytes.{Bytes, u32_mod, take_exact}
use toroidal_db.Wal.Frame.{WalFrameKind, WalFrame, PhysicalFrame, is_operation}
use toroidal_db.Wal.RoundTrip.{frame_bytes}
use toroidal_db.Wal.Read.{
  FrameRead, ReplayState, read_next_frame, replay_kind, replay_begin, replay_op, replay_commit,
}
use toroidal_db.Wal.Scan.{IsEnd, read_next_frame_torn}
use toroidal_db.Wal.Stream.{Frames, log_bytes, replay_frames}
use toroidal_db.Wal.Log.{all_operations}
use toroidal_db.Wal.Append.{op_frames, commit_frame, begin_frame, batch_frames}
use native.Mathlib.Decide.{dec_lt}

-- `as` is `bs` without one or more elements at its end.
abbrev pub StrictPrefix : List WalFrame → List WalFrame → Type 0
StrictPrefix [] [] = ⊥
StrictPrefix [] (b ∷ bs) = Unit
StrictPrefix (a ∷ as') [] = ⊥
StrictPrefix (a ∷ as') (b ∷ bs) = (a ≡ b) × StrictPrefix as' bs

pub replay_frames-append :
    (ls ms : List WalFrame) (s : ReplayState)
    → replay_frames (ls ++ ms) s ≡ (do t ← replay_frames ls s; replay_frames ms t)
unfolding replay_frames
replay_frames-append [] ms s = refl
replay_frames-append (l ∷ ls) ms s = elim (Result-cases (replay_kind l.kind l s)) [
  | inl (t, e) ↦ rw e (replay_frames-append ls ms t)
  | inr (x, e) ↦ rw e
]

abbrev open_batch : List WalFrame → ℕ → List WalFrame → ReplayState
open_batch c bid p = record { committed = c; pending = some (record { batch_id = bid; ops = p }) }

abbrev pub settled : List WalFrame → ReplayState
settled c = record { committed = c; pending = none }

module _ (c : List WalFrame) (bid : ℕ) where
  -- The operations of the open batch are kept aside.
  replay_frames-op :
      (n : ℕ) (op : WalFrameKind) (p : List WalFrame)
      → is_operation op ≡ true
      → (let l : WalFrame = record { sequence = n; batch_id = bid; kind = op } in
          replay_kind op l (open_batch c bid p) ≡ ok (open_batch c bid (p ++ (l ∷ []))))
  unfolding replay_kind replay_op
  replay_frames-op n (WalFrameKind.begin b) p h = absurd (ground arith)
  replay_frames-op n (WalFrameKind.put k v) p h = ground arith
  replay_frames-op n (WalFrameKind.delete k) p h = ground arith
  replay_frames-op n (WalFrameKind.commit b) p h = absurd (ground arith)

  replay_frames-commit :
      (m : ℕ) (p : List WalFrame)
      → replay_kind (WalFrameKind.commit bid) (commit_frame m bid) (open_batch c bid p)
        ≡ ok (settled (c ++ p))
  unfolding replay_kind replay_commit
  replay_frames-commit m p = ground arith

  replay_frames-begin :
      (l : WalFrame)
      → 0 < bid
      → replay_kind (WalFrameKind.begin bid) l (settled c) ≡ ok (open_batch c bid [])
  unfolding replay_kind replay_begin
  replay_frames-begin l h = ground arith

  -- With COMMIT they join the committed frames, in order.
  replay_frames-ops :
      (ops : List WalFrameKind) (n m : ℕ) (p : List WalFrame)
      → all_operations ops ≡ true
      → replay_frames (op_frames n bid ops ++ (commit_frame m bid ∷ [])) (open_batch c bid p)
        ≡ ok (settled (c ++ (p ++ op_frames n bid ops)))
  unfolding replay_frames op_frames all_operations
  replay_frames-ops [] n m p h = rw (replay_frames-commit, append-nil)
  replay_frames-ops (op ∷ ops) n m p h =
      rw (replay_frames-op n op p (ground arith))
        (replay_frames-ops ops (suc n) m _ (ground arith) ∙ rw append_assoc)

  -- Without it nothing is committed.
  replay_frames_cut :
      (ops : List WalFrameKind) (n m : ℕ) (p ms : List WalFrame)
      → all_operations ops ≡ true
      → StrictPrefix ms (op_frames n bid ops ++ (commit_frame m bid ∷ []))
      → (t : ReplayState) × (replay_frames ms (open_batch c bid p) ≡ ok t) × (t.committed ≡ c)
  unfolding replay_frames op_frames all_operations
  replay_frames_cut ops n m p [] h pre = (open_batch c bid p, refl, refl)
  replay_frames_cut [] n m p (l ∷ []) h pre = absurd pre.1
  replay_frames_cut [] n m p (l ∷ l' ∷ ls) h pre = absurd pre.1
  replay_frames_cut (op ∷ ops) n m p (l ∷ ls) h (e, pre) = rw e (
      rw (replay_frames-op n op p (ground arith))
        (replay_frames_cut ops (suc n) m _ ls (ground arith) pre))

  -- A whole batch is committed.
  pub replay_frames-batch :
      (ops : List WalFrameKind)
      → 0 < bid
      → all_operations ops ≡ true
      → replay_frames (batch_frames bid ops) (settled c)
        ≡ ok (settled (c ++ op_frames (suc bid) bid ops))
  unfolding replay_frames
  replay_frames-batch ops pos h =
      rw (replay_frames-begin (begin_frame bid) pos) (replay_frames-ops ops (suc bid) _ [] h)

  -- A part of a batch commits nothing.
  pub replay_frames-batch_cut :
      (ops : List WalFrameKind) (ms : List WalFrame)
      → 0 < bid
      → all_operations ops ≡ true
      → StrictPrefix ms (batch_frames bid ops)
      → (t : ReplayState) × (replay_frames ms (settled c) ≡ ok t) × (t.committed ≡ c)
  unfolding replay_frames
  replay_frames-batch_cut ops [] pos h pre = (settled c, refl, refl)
  replay_frames-batch_cut ops (l ∷ ls) pos h (e, pre) = rw e (
      rw (replay_frames-begin (begin_frame bid) pos)
        (replay_frames_cut ops (suc bid) _ [] ls h pre))

module _ (crc32 : Bytes → ℕ) (crc32_fits : (b : Bytes) → crc32 b < u32_mod) where
  -- The frames that a cut leaves whole, and the rest of the bytes, of which nothing is read.
  pub record Cut (k : ℕ) (fs : List PhysicalFrame) (ls : List WalFrame) : Type 0 where
    pub whole : List PhysicalFrame
    pub kept : List WalFrame
    pub torn : Bytes
    pub stands : Frames whole kept
    pub is_prefix : StrictPrefix kept ls
    pub bytes_lem : take k (log_bytes crc32 fs) ≡ log_bytes crc32 whole ++ torn
    pub ends : IsEnd (read_next_frame crc32 torn)

  pub read_next_frame-nil : read_next_frame crc32 [] ≡ FrameRead.eof
  unfolding read_next_frame take_exact
  read_next_frame-nil = refl

  pub torn_log :
      (fs : List PhysicalFrame) (ls : List WalFrame) (k : ℕ)
      → Frames fs ls
      → k < length (log_bytes crc32 fs)
      → Cut k fs ls
  torn_log [] ls k h short = absurd (omega arith)
  torn_log (f ∷ fs) [] k h short = elim h [ ]
  torn_log (f ∷ fs) (l ∷ ls) k (isf, es, eb, h) short =
      elim (dec_lt k (length (frame_bytes crc32 f))) [
        | yes p ↦ record {
          whole = [];
          kept = [];
          torn = take k (frame_bytes crc32 f);
          stands = tt;
          is_prefix = tt;
          bytes_lem = take-append_lt (frame_bytes crc32 f) (log_bytes crc32 fs) k (omega arith);
          ends = read_next_frame_torn crc32 crc32_fits f k isf p;
        }
        | no p ↦
            let c =
              torn_log fs ls (k - length (frame_bytes crc32 f)) h
                (omega (arith, length-append (frame_bytes crc32 f) (log_bytes crc32 fs))) in
            record {
              whole = f ∷ c.whole;
              kept = l ∷ c.kept;
              torn = c.torn;
              stands = (isf, es, eb, c.stands);
              is_prefix = (refl, c.is_prefix);
              bytes_lem =
                  take-append_ge (frame_bytes crc32 f) (log_bytes crc32 fs) k (omega arith)
                  ∙ rw (c.bytes_lem, append_assoc);
              ends = c.ends;
            }
      ]
