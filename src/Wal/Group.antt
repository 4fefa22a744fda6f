-- ===== src/Wal/Group.antt =====
-- crates/toroidal-store/wal.rs: `append_many_standalone_sync`, the write of the batcher, and frames
-- whose sequence does not follow the one before.
use toroidal_db.Base.{
  TqlError, err, ℕ, suc, ◌+◌, ◌%◌, ◌≤◌, ◌<◌, ◌≡◌, ◌≢◌, inl, inr, sym, ap, ◌∙◌, false, some, List,
  [], ◌∷◌, ◌++◌, length, length-append, append-nil, ok, arith, Bool-cases, Result-cases,
}
use toroidal_db.Base.Bytes.{Bytes, u32_mod, u64_mod, checked_add}
use toroidal_db.Wal.Frame.{WalFrameKind, WalFrame, PhysicalFrame, standalone, is_operation}
use toroidal_db.Wal.Codec.{IsFrameOf}
use toroidal_db.Wal.RoundTrip.{frame_bytes}
use toroidal_db.Wal.Read.{FrameRead, follows, read_next_frame}
use toroidal_db.Wal.Scan.{read_next_frame-frame}
use toroidal_db.Wal.Stream.{Frames, Contiguous, log_bytes, log_bytes-append}
use toroidal_db.Wal.Log.{
  Wal, next_seq_locked, encode_frame, encode_many, append_many_standalone_sync, open_wal,
}
use toroidal_db.Wal.Append.{
  op_frames, length-op_frames, op_frames-Contiguous, Extends, IsLog, Frames-append,
  Contiguous-append, next_seq_locked-inv, encode_frame-inv,
}
use toroidal_db.Wal.Recovery.{open_wal-Frames}
use native.Mathlib.Nat.{add-zero, add-suc, mod-eq_of_lt}

follows_ne : (n s : ℕ) → n + 1 < u64_mod → s ≢ suc n → follows (some n) s ≡ ok false
unfolding follows checked_add
follows_ne n s h d = ground arith

module _ (crc32 : Bytes → ℕ) where
  -- What the group write leaves: its operations with consecutive sequences behind the file, and one
  -- sequence allocated.
  pub record Grouped (w : Wal) (kinds : List WalFrameKind) (w' : Wal) : Type 0 where
    pub written : List PhysicalFrame
    pub stands : Frames written (op_frames w.next_sequence standalone kinds)
    pub file_lem : w'.file ≡ w.file ++ log_bytes crc32 written
    pub next_lem : w'.next_sequence ≡ w.next_sequence + 1
    pub room : w.next_sequence + 1 < u64_mod

  encode_many-Frames :
      (kinds : List WalFrameKind) (first i : ℕ) {b : Bytes}
      → first + i + length kinds ≤ u64_mod
      → encode_many crc32 first i kinds ≡ ok b
      → (fs : List PhysicalFrame) × Frames fs (op_frames (first + i) standalone kinds)
        × (b ≡ log_bytes crc32 fs)
  unfolding encode_many op_frames
  encode_many-Frames [] first i {b} h e = ([], tt, ground arith)
  encode_many-Frames (kind ∷ kinds) first i {b} h e = elim (Bool-cases (is_operation kind)) [
    | inr bad ↦ absurd (ground arith)
    | inl good ↦ elim (Result-cases (encode_frame crc32 ((first + i) % u64_mod) standalone kind)) [
      | inr (x, q) ↦ absurd (ground arith)
      | inl (buf, q) ↦ elim (Result-cases (encode_many crc32 first (suc i) kinds)) [
        | inr (x, q2) ↦ absurd (ground arith)
        | inl (more, q2) ↦
            let small : first + i < u64_mod = omega arith in
            let wrap = mod-eq_of_lt small in
            let (f, isf, es, eb, bytes) =
              encode_frame-inv crc32 (first + i) standalone kind small (omega arith)
                (rw wrap at q) in
            let (fs, hf, rest) = encode_many-Frames kinds first (suc i) (omega arith) q2 in
            (f ∷ fs, (isf, es, eb, rw add-suc at hf), ground arith)
      ]
    ]
  ]

  -- A successful group write returns the first of its sequences, which are consecutive; none of them
  -- wraps around.
  pub append_many-Grouped :
      (w : Wal) (kinds : List WalFrameKind) {first : ℕ} {w' : Wal}
      → w.next_sequence + length kinds ≤ u64_mod
      → append_many_standalone_sync crc32 w kinds ≡ (ok first, w')
      → (first ≡ w.next_sequence) × Grouped w kinds w'
  unfolding append_many_standalone_sync
  append_many-Grouped w [] {first} {w'} h e = absurd (ground arith)
  append_many-Grouped w (kind ∷ kinds) {first} {w'} h e = elim (Result-cases (next_seq_locked w)) [
    | inr (x, q) ↦ absurd (ground arith)
    | inl ((s, w1), q) ↦ elim (Result-cases (encode_many crc32 s 0 (kind ∷ kinds))) [
      | inr (x, q2) ↦ absurd (ground arith)
      | inl (buf, q2) ↦
          let (es, e1, room) = next_seq_locked-inv w w1 s q in
          let (fs, hf, bytes) = encode_many-Frames (kind ∷ kinds) s 0 (omega arith) q2 in
          let same : (first ≡ s) × (w' ≡ record w1 { file = w1.file ++ buf }) = ground arith in
          (
            same.0 ∙ es,
            record {
              written = fs;
              stands = rw (add-zero, es) at hf;
              file_lem = ap (λ x. x.file) same.1 ∙ rw (e1, bytes);
              next_lem = ap (λ x. x.next_sequence) (same.1) ∙ ap (λ x. x.next_sequence) e1;
              room = room;
            },
          )
    ]
  ]

  -- A group that fails leaves the file as it is.
  append_many_failed :
      (w : Wal) (kinds : List WalFrameKind) {e : TqlError} {w' : Wal}
      → append_many_standalone_sync crc32 w kinds ≡ (err e, w')
      → w'.file ≡ w.file
  unfolding append_many_standalone_sync
  append_many_failed w [] {e} {w'} h = ground arith
  append_many_failed w (kind ∷ kinds) {e} {w'} h = elim (Result-cases (next_seq_locked w)) [
    | inr (x, q) ↦ ground arith
    | inl ((s, w1), q) ↦
        let (es, e1, room) = next_seq_locked-inv w w1 s q in
        elim (Result-cases (encode_many crc32 s 0 (kind ∷ kinds))) [
          | inr (x, q2) ↦ let same : w1 ≡ w' = ground arith in ap (λ v. v.file) (sym same ∙ e1)
          | inl (buf, q2) ↦ absurd (ground arith)
        ]
  ]

  -- A successful group of one operation extends the log as an append does.
  pub append_one-Extends :
      (w : Wal) (kind : WalFrameKind) {first : ℕ} {w' : Wal}
      → append_many_standalone_sync crc32 w (kind ∷ []) ≡ (ok first, w')
      → w.next_sequence < u64_mod
      → (first ≡ w.next_sequence)
        × Extends crc32 w (op_frames w.next_sequence standalone (kind ∷ [])) w'
  append_one-Extends w kind {first} {w'} e h =
      let (ef, g) = append_many-Grouped w (kind ∷ []) (omega arith) e in
      (
        ef,
        record {
          written = g.written;
          stands = g.stands;
          contiguous = op_frames-Contiguous w.next_sequence standalone (kind ∷ []);
          file_lem = g.file_lem;
          counted = rw length-op_frames g.next_lem;
          room = rw g.next_lem g.room;
        },
      )

  module _ (crc32_fits : (b : Bytes) → crc32 b < u32_mod) where
    -- `open` on a log and a whole frame behind it whose sequence is not the next one: the frame goes.
    pub open_wal_stray :
        (fs : List PhysicalFrame) (l : WalFrame) (ls : List WalFrame) (n : ℕ) (f : PhysicalFrame)
        {kind : WalFrameKind}
        → Frames fs (l ∷ ls)
        → Contiguous n (l ∷ ls)
        → length (log_bytes crc32 fs) < u64_mod
        → suc (n + length ls) < u64_mod
        → IsFrameOf f kind
        → f.sequence ≢ suc (n + length ls)
        → open_wal crc32 (log_bytes crc32 fs ++ frame_bytes crc32 f)
          ≡ ok (record { file = log_bytes crc32 fs; next_sequence = suc (n + length ls) })
    open_wal_stray fs l ls n f h c fits room isf stray =
        open_wal-Frames crc32 crc32_fits fs l ls n (frame_bytes crc32 f) h c fits room
          (rw stopped (follows_ne (n + length ls) f.sequence (omega arith) stray))
      where
        stopped : read_next_frame crc32 (frame_bytes crc32 f) ≡ FrameRead.frame f []
        stopped = rw append-nil at (read_next_frame-frame crc32 crc32_fits f [] isf)

    -- The same of any log that is not empty.
    stray_nonempty :
        (fs : List PhysicalFrame) (ls : List WalFrame) (n next : ℕ) (f : PhysicalFrame)
        {kind : WalFrameKind}
        → 0 < length ls
        → n + length ls ≡ next
        → Frames fs ls
        → Contiguous n ls
        → length (log_bytes crc32 fs) < u64_mod
        → next < u64_mod
        → IsFrameOf f kind
        → f.sequence ≢ next
        → open_wal crc32 (log_bytes crc32 fs ++ frame_bytes crc32 f)
          ≡ ok (record { file = log_bytes crc32 fs; next_sequence = next })
    stray_nonempty fs [] n next f pos en h c fits room isf stray = absurd (omega arith)
    stray_nonempty fs (l ∷ ls) n next f pos en h c fits room isf stray =
        let e : suc (n + length ls) ≡ next = omega arith in
        open_wal_stray fs l ls n f h c fits (rw e room) isf (λ q. stray (q ∙ e))
        ∙ ap (λ x. ok (record { file = log_bytes crc32 fs; next_sequence = x })) e

    -- The same of a group of one operation as it was written.
    stray_written :
        (fs written : List PhysicalFrame) (ls : List WalFrame) (n next s : ℕ) (kind : WalFrameKind)
        → 0 < length ls
        → n + length ls ≡ next
        → Frames fs ls
        → Contiguous n ls
        → length (log_bytes crc32 fs) < u64_mod
        → next < u64_mod
        → Frames written (op_frames s standalone (kind ∷ []))
        → s ≢ next
        → open_wal crc32 (log_bytes crc32 fs ++ log_bytes crc32 written)
          ≡ ok (record { file = log_bytes crc32 fs; next_sequence = next })
    unfolding op_frames
    stray_written fs [] ls n next s kind pos en h c fits room k stray = elim k [ ]
    stray_written fs (f ∷ []) ls n next s kind pos en h c fits room (isf, es, eb, k) stray =
        rw append-nil
          (stray_nonempty fs ls n next f pos en h c fits room isf (λ q. stray (sym es ∙ q)))
    stray_written fs (f ∷ g ∷ gs) ls n next s kind pos en h c fits room (isf, es, eb, k) stray =
        elim k [ ]

    -- The same with the files as they stand.
    stray_file :
        (fs written : List PhysicalFrame) (ls : List WalFrame) (n next s : ℕ) (kind : WalFrameKind)
        (b b2 : Bytes)
        → b ≡ log_bytes crc32 fs
        → b2 ≡ b ++ log_bytes crc32 written
        → 0 < length ls
        → n + length ls ≡ next
        → Frames fs ls
        → Contiguous n ls
        → length b < u64_mod
        → next < u64_mod
        → Frames written (op_frames s standalone (kind ∷ []))
        → s ≢ next
        → open_wal crc32 b2 ≡ ok (record { file = b; next_sequence = next })
    stray_file fs written ls n next s kind b b2 eb e2 pos en h c fits room k stray =
        ap (open_wal crc32) (e2 ∙ rw eb)
        ∙ stray_written fs written ls n next s kind pos en h c (rw eb at fits) room k stray
        ∙ rw eb

    -- An acknowledged write is lost. A group of two or more operations is written to a log and takes
    -- as many sequences, but counts one; so the write that follows, although it is acknowledged, has a
    -- sequence that the group has used already, and reopening the file drops it: what is opened is the
    -- file as the group left it.
    pub group_then_append_lost :
        (w : Wal) (ls : List WalFrame) (k1 k2 kind : WalFrameKind) (kinds : List WalFrameKind)
        {first seq : ℕ} {w1 w2 : Wal}
        → IsLog crc32 w ls
        → append_many_standalone_sync crc32 w (k1 ∷ k2 ∷ kinds) ≡ (ok first, w1)
        → append_many_standalone_sync crc32 w1 (kind ∷ []) ≡ (ok seq, w2)
        → w.next_sequence + length (k1 ∷ k2 ∷ kinds) < u64_mod
        → length w1.file < u64_mod
        → open_wal crc32 w2.file
          ≡ ok (record { file = w1.file; next_sequence = first + length (k1 ∷ k2 ∷ kinds) })
    group_then_append_lost w ls k1 k2 kind kinds {first} {seq} {w1} {w2} h e1 e2 room fits =
        let group = k1 ∷ k2 ∷ kinds in
        let ms = op_frames w.next_sequence standalone group in
        let (ef, g) = append_many-Grouped w group (omega arith) e1 in
        let (es, x) = append_many-Grouped w1 (kind ∷ []) (omega (arith, g.next_lem)) e2 in
        let count = length-append ls ms in
        let size = length-op_frames w.next_sequence standalone group in
        stray_file (h.frames ++ g.written) x.written (ls ++ ms) h.start _ w1.next_sequence kind
          w1.file w2.file (g.file_lem ∙ rw (h.file_lem, log_bytes-append crc32 h.frames g.written))
          x.file_lem (omega (arith, count, size)) (omega (arith, count, size, h.counted, ef))
          (Frames-append h.frames g.written ls ms h.stands g.stands)
          (Contiguous-append ls ms h.start h.contiguous
            (rw h.counted (op_frames-Contiguous w.next_sequence standalone group)))
          fits (omega (arith, ef)) x.stands (omega (arith, ef, g.next_lem))

    -- After a group that fails behind the allocation of its sequence, on a log of at least one frame and less than
    -- 2^64 bytes, an acknowledged group of one is dropped when the file is reopened: what is opened is the log
    -- before both. A sequence must be left for a further write.
    pub failed_then_append_lost :
        (w : Wal) (ls : List WalFrame) (kind : WalFrameKind) (kinds : List WalFrameKind)
        {e : TqlError} {seq : ℕ} {w1 w2 : Wal}
        → IsLog crc32 w ls
        → 0 < length ls
        → length w.file < u64_mod
        → append_many_standalone_sync crc32 w kinds ≡ (err e, w1)
        → w1.next_sequence ≡ w.next_sequence + 1
        → append_many_standalone_sync crc32 w1 (kind ∷ []) ≡ (ok seq, w2)
        → w1.next_sequence < u64_mod
        → open_wal crc32 w2.file ≡ ok w
    failed_then_append_lost w ls kind kinds {e} {seq} {w1} {w2} h some_frame fits failed gap e2
          room =
        let (es, x) = append_many-Grouped w1 (kind ∷ []) (omega arith) e2 in
        let same = append_many_failed w kinds failed in
        stray_file h.frames x.written ls h.start w.next_sequence w1.next_sequence kind w.file
          w2.file h.file_lem (x.file_lem ∙ ap (λ b. b ++ log_bytes crc32 x.written) same) some_frame
          h.counted h.stands h.contiguous fits h.fits x.stands (omega arith)
