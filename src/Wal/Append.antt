-- ===== src/Wal/Append.antt =====
-- crates/toroidal-store/wal.rs: what the operations that write leave in the file. A log is a file of
-- whole frames with consecutive sequences, the last one just below `next_sequence`.
use toroidal_db.Base.{
  ℕ, suc, ◌+◌, ◌<◌, ◌≡◌, inl, inr, refl, sym, ap, subst, ◌∙◌, List, [], ◌∷◌, ◌++◌, length,
  length-append, append_assoc, append-nil, ok, arith, Bool-cases, Result-cases, >>=-eq-ok,
}
use toroidal_db.Base.Bytes.{Bytes, u64_mod, checked_add}
use toroidal_db.Wal.Frame.{
  WalFrameKind, WalFrame, PhysicalFrame, standalone, is_operation, build, encode,
}
use toroidal_db.Wal.Codec.{IsFrameOf, build-IsFrameOf}
use toroidal_db.Wal.RoundTrip.{frame_bytes, encode-frame_bytes}
use toroidal_db.Wal.Stream.{Frames, Contiguous, log_bytes, log_bytes-append}
use toroidal_db.Wal.Log.{
  Wal, next_seq_locked, encode_frame, write_frame, append, write_next, write_ops,
}
use native.Mathlib.Nat.{add-zero, add-suc, suc-add}
use native.Mathlib.Numerals.{add-one}

pub Frames-append :
    (fs gs : List PhysicalFrame) (ls ms : List WalFrame)
    → Frames fs ls
    → Frames gs ms
    → Frames (fs ++ gs) (ls ++ ms)
Frames-append [] gs [] ms h k = k
Frames-append [] gs (l ∷ ls) ms h k = elim h [ ]
Frames-append (f ∷ fs) gs [] ms h k = elim h [ ]
Frames-append (f ∷ fs) gs (l ∷ ls) ms (a, b, c, h) k = (a, b, c, Frames-append fs gs ls ms h k)

pub Contiguous-append :
    (ls ms : List WalFrame) (n : ℕ)
    → Contiguous n ls
    → Contiguous (n + length ls) ms
    → Contiguous n (ls ++ ms)
Contiguous-append [] ms n h k = rw add-zero at k
Contiguous-append (l ∷ ls) ms n (e, h) k =
    (e, Contiguous-append ls ms (suc n) h (rw (add-suc, ← suc-add) at k))

-- The frames of standalone operations, or of those of a batch, from sequence `n` on.
unfoldable pub op_frames : ℕ → ℕ → List WalFrameKind → List WalFrame
op_frames n batch_id [] = []
op_frames n batch_id (op ∷ ops) =
    record { sequence = n; batch_id = batch_id; kind = op } ∷ op_frames (suc n) batch_id ops

pub length-op_frames :
    (n batch_id : ℕ) (ops : List WalFrameKind) → length (op_frames n batch_id ops) ≡ length ops
unfolding op_frames
length-op_frames n batch_id [] = refl
length-op_frames n batch_id (op ∷ ops) = ap suc (length-op_frames (suc n) batch_id ops)

pub op_frames-Contiguous :
    (n batch_id : ℕ) (ops : List WalFrameKind) → Contiguous n (op_frames n batch_id ops)
unfolding op_frames
op_frames-Contiguous n batch_id [] = tt
op_frames-Contiguous n batch_id (op ∷ ops) = (refl, op_frames-Contiguous (suc n) batch_id ops)

abbrev pub commit_frame : ℕ → ℕ → WalFrame
commit_frame n bid = record { sequence = n; batch_id = bid; kind = WalFrameKind.commit bid }

abbrev pub begin_frame : ℕ → WalFrame
begin_frame bid = record { sequence = bid; batch_id = bid; kind = WalFrameKind.begin bid }

-- The frames of a whole batch: BEGIN, the operations, COMMIT.
abbrev pub batch_frames : ℕ → List WalFrameKind → List WalFrame
batch_frames bid ops =
    begin_frame bid
    ∷ (op_frames (suc bid) bid ops ++ (commit_frame (suc bid + length ops) bid ∷ []))

pub next_seq_locked-inv :
    (w w1 : Wal) (seq : ℕ)
    → next_seq_locked w ≡ ok (seq, w1)
    → (seq ≡ w.next_sequence)
      × (w1 ≡ record w { next_sequence = w.next_sequence + 1 })
      × (w.next_sequence + 1 < u64_mod)
unfolding next_seq_locked checked_add
next_seq_locked-inv w w1 seq h = ground arith

module _ (crc32 : Bytes → ℕ) where
  pub record IsLog (w : Wal) (ls : List WalFrame) : Type 0 where
    pub frames : List PhysicalFrame
    pub file_lem : w.file ≡ log_bytes crc32 frames
    pub stands : Frames frames ls
    pub start : ℕ
    pub contiguous : Contiguous start ls
    pub counted : start + length ls ≡ w.next_sequence
    pub fits : w.next_sequence < u64_mod

  pub encode_frame-inv :
      (seq bid : ℕ) (kind : WalFrameKind) {b : Bytes}
      → seq < u64_mod
      → bid < u64_mod
      → encode_frame crc32 seq bid kind ≡ ok b
      → (f : PhysicalFrame) × IsFrameOf f kind
        × (f.sequence ≡ seq)
        × (f.batch_id ≡ bid)
        × (b ≡ frame_bytes crc32 f)
  unfolding encode_frame
  encode_frame-inv seq bid kind hs hb h =
      let (f, built, coded) = >>=-eq-ok (build seq bid kind) (encode crc32) h in
      let (isf, es, eb) = build-IsFrameOf seq bid kind hs hb built in
      (f, isf, es, eb, cc (coded, encode-frame_bytes crc32 f isf.payload_fits))

  pub write_frame-inv :
      (w : Wal) (seq bid : ℕ) (kind : WalFrameKind) {w' : Wal}
      → seq < u64_mod
      → bid < u64_mod
      → write_frame crc32 w seq bid kind ≡ ok w'
      → (f : PhysicalFrame) × IsFrameOf f kind
        × (f.sequence ≡ seq)
        × (f.batch_id ≡ bid)
        × (w' ≡ record w { file = w.file ++ frame_bytes crc32 f })
  unfolding write_frame
  write_frame-inv w seq bid kind hs hb h =
      let (b, coded, e) =
        >>=-eq-ok (encode_frame crc32 seq bid kind)
          (λ encoded. ok (record w { file = w.file ++ encoded })) h in
      let (f, isf, es, eb, bytes) = encode_frame-inv seq bid kind hs hb coded in
      (f, isf, es, eb, ground arith)

  -- `w'` is `w` with one more frame, whose sequence was the next one.
  pub record Pushed (w : Wal) (bid : ℕ) (kind : WalFrameKind) (w' : Wal) : Type 0 where
    pub pushed : PhysicalFrame
    pub is_frame : IsFrameOf pushed kind
    pub sequence_lem : pushed.sequence ≡ w.next_sequence
    pub batch_id_lem : pushed.batch_id ≡ bid
    pub after :
        w'
        ≡ record { file = w.file ++ frame_bytes crc32 pushed; next_sequence = w.next_sequence + 1 }
    pub room : w.next_sequence + 1 < u64_mod

  pub push :
      (w w1 w2 : Wal) (seq bid : ℕ) (kind : WalFrameKind)
      → bid < u64_mod
      → next_seq_locked w ≡ ok (seq, w1)
      → write_frame crc32 w1 seq bid kind ≡ ok w2
      → Pushed w bid kind w2 × (seq ≡ w.next_sequence)
  push w w1 w2 seq bid kind hb next written =
      let (e, e1, room) = next_seq_locked-inv w w1 seq next in
      let (f, isf, es, eb, e2) = write_frame-inv w1 seq bid kind (omega arith) hb written in
      (
        record {
          pushed = f;
          is_frame = isf;
          sequence_lem = es ∙ e;
          batch_id_lem = eb;
          after = ground arith;
          room = room;
        },
        e,
      )

  pub write_next-Pushed :
      (w : Wal) (bid : ℕ) (kind : WalFrameKind) {seq : ℕ} {w' : Wal}
      → bid < u64_mod
      → write_next crc32 w bid kind ≡ (ok seq, w')
      → Pushed w bid kind w' × (seq ≡ w.next_sequence)
  unfolding write_next
  write_next-Pushed w bid kind {seq} {w'} hb h = elim (Result-cases (next_seq_locked w)) [
    | inr (e, q) ↦ absurd (ground arith)
    | inl ((s, w1), q) ↦ elim (Result-cases (write_frame crc32 w1 s bid kind)) [
      | inr (e, q2) ↦ absurd (ground arith)
      | inl (w2, q2) ↦
          let (p, e) = push w w1 w2 s bid kind hb q q2 in
          let same : (w2 ≡ w') × (s ≡ seq) = ground arith in
          (subst (Pushed w bid kind) same.0 p, sym same.1 ∙ e)
    ]
  ]

  -- `w'` is `w` with the frames `ms` written behind its file, their sequences allocated.
  pub record Extends (w : Wal) (ms : List WalFrame) (w' : Wal) : Type 0 where
    pub written : List PhysicalFrame
    pub stands : Frames written ms
    pub contiguous : Contiguous w.next_sequence ms
    pub file_lem : w'.file ≡ w.file ++ log_bytes crc32 written
    pub counted : w'.next_sequence ≡ w.next_sequence + length ms
    pub room : w'.next_sequence < u64_mod

  pub Extends-refl : (w : Wal) → w.next_sequence < u64_mod → Extends w [] w
  Extends-refl w h = record {
    written = [];
    stands = tt;
    contiguous = tt;
    file_lem = sym (append-nil w.file);
    counted = omega arith;
    room = h;
  }

  pub Extends-trans :
      (w v u : Wal) (ls ms : List WalFrame)
      → Extends w ls v
      → Extends v ms u
      → Extends w (ls ++ ms) u
  Extends-trans w v u ls ms h k = record {
    written = h.written ++ k.written;
    stands = Frames-append h.written k.written ls ms h.stands k.stands;
    contiguous =
        Contiguous-append ls ms w.next_sequence h.contiguous (rw h.counted at k.contiguous);
    file_lem =
        k.file_lem ∙ rw (h.file_lem, log_bytes-append crc32 h.written k.written, append_assoc);
    counted = rw length-append (omega (arith, h.counted, k.counted));
    room = k.room;
  }

  pub Pushed-Extends :
      (w w' : Wal) (bid : ℕ) (kind : WalFrameKind)
      → Pushed w bid kind w'
      → Extends w (record { sequence = w.next_sequence; batch_id = bid; kind = kind } ∷ []) w'
  Pushed-Extends w w' bid kind p = record {
    written = p.pushed ∷ [];
    stands = (p.is_frame, p.sequence_lem, p.batch_id_lem, tt);
    contiguous = (refl, tt);
    file_lem = rw append-nil (ap (λ x. x.file) p.after);
    counted = ap (λ x. x.next_sequence) p.after;
    room = rw p.after p.room;
  }

  -- A log stays a log.
  pub Extends-IsLog :
      (w w' : Wal) (ls ms : List WalFrame) → IsLog w ls → Extends w ms w' → IsLog w' (ls ++ ms)
  Extends-IsLog w w' ls ms h k = record {
    frames = h.frames ++ k.written;
    file_lem = k.file_lem ∙ rw (log_bytes-append crc32 h.frames k.written, h.file_lem);
    stands = Frames-append h.frames k.written ls ms h.stands k.stands;
    start = h.start;
    contiguous = Contiguous-append ls ms h.start h.contiguous (rw (← h.counted) at k.contiguous);
    counted = rw length-append (omega (arith, h.counted, k.counted));
    fits = k.room;
  }

  -- A successful append writes its operation behind the file, at the next sequence, which it returns.
  pub append-Extends :
      (w : Wal) (kind : WalFrameKind) {seq : ℕ} {w' : Wal}
      → append crc32 w kind ≡ (ok seq, w')
      → (seq ≡ w.next_sequence) × Extends w (op_frames w.next_sequence standalone (kind ∷ [])) w'
  unfolding append op_frames
  append-Extends w kind {seq} {w'} e = elim (Bool-cases (is_operation kind)) [
    | inr no_op ↦ absurd (ground arith)
    | inl op ↦
        let (p, es) = write_next-Pushed w standalone kind (omega arith) (ground arith) in
        (es, Pushed-Extends w w' standalone kind p)
  ]

  pub write_ops-Extends :
      (ops : List WalFrameKind) (w : Wal) (bid : ℕ) {w' : Wal}
      → bid < u64_mod
      → w.next_sequence < u64_mod
      → write_ops crc32 w bid ops ≡ (ok tt, w')
      → Extends w (op_frames w.next_sequence bid ops) w'
  unfolding write_ops op_frames
  write_ops-Extends [] w bid {w'} hb h e =
      let same : w ≡ w' = ground arith in subst (Extends w []) same (Extends-refl w h)
  write_ops-Extends (op ∷ ops) w bid {w'} hb h e =
      elim (Result-cases (write_next crc32 w bid op).0) [
        | inr (x, q) ↦ absurd (ground arith)
        | inl (seq, q) ↦
            let w1 = (write_next crc32 w bid op).1 in
            let (p, es) = write_next-Pushed w bid op {seq = seq} {w' = w1} hb (ground arith) in
            let k = Pushed-Extends w w1 bid op p in
            let rest = write_ops-Extends ops w1 bid {w' = w'} hb k.room (ground arith) in
            Extends-trans w w1 w' _ _ k (rw (k.counted, add-one) at rest)
      ]
