-- ===== src/Wal/Recovery.antt =====
-- crates/toroidal-store/wal.rs: `open` and `replay` after a crash.
use toroidal_db.Base.{
  ℕ, suc, ◌+◌, ◌-◌, ◌<◌, ◌≡◌, inl, inr, refl, sym, ap, ◌∙◌, Option, none, some, List, [], ◌∷◌, ◌++◌,
  length, take, length-append, take-append, append_assoc, append-nil, ok, ◌>>=◌, arith,
  if◌then◌else◌, Bool-cases, ltb,
}
use toroidal_db.Base.Bytes.{Bytes, u32_mod, u64_mod, checked_add}
use toroidal_db.Wal.Frame.{WalFrameKind, WalFrame, PhysicalFrame}
use toroidal_db.Wal.Codec.{IsFrameOf}
use toroidal_db.Wal.RoundTrip.{frame_bytes}
use toroidal_db.Wal.Read.{
  FrameRead, ReplayState, read_next_frame, scan_valid_prefix, follows, replay,
}
use toroidal_db.Wal.Scan.{IsEnd, read_next_frame_torn}
use toroidal_db.Wal.Stream.{
  Frames, Contiguous, Stops, last_sequence, log_bytes, log_bytes-append, replay_frames,
  replay_loop-log, scan_loop-log,
}
use toroidal_db.Wal.Log.{Wal, open_wal, append_batch}
use toroidal_db.Wal.Append.{op_frames, batch_frames, IsLog, Frames-append}
use toroidal_db.Wal.Batch.{append_batch-Extends, append_batch-operations}
use toroidal_db.Wal.Crash.{
  settled, replay_frames-append, replay_frames-batch, replay_frames-batch_cut, torn_log,
  read_next_frame-nil,
}
use native.Mathlib.Nat.{add-suc, suc-add, zero-add}

IsEnd-Stops : (prev : Option ℕ) (r : FrameRead) → IsEnd r → Stops prev r
IsEnd-Stops prev FrameRead.eof h = tt
IsEnd-Stops prev FrameRead.truncated h = tt
IsEnd-Stops prev (FrameRead.corrupt e) h = tt
IsEnd-Stops prev (FrameRead.frame f rest) h = absurd (ground arith)

-- The last of consecutive sequences.
pub last_sequence-Contiguous :
    (ls : List WalFrame) (l : WalFrame) (n : ℕ) (prev : Option ℕ)
    → Contiguous n (l ∷ ls)
    → last_sequence prev (l ∷ ls) ≡ some (n + length ls)
last_sequence-Contiguous [] l n prev (e, h) = ground arith
last_sequence-Contiguous (m ∷ ls) l n prev (e, h) =
    last_sequence-Contiguous ls m (suc n) (some l.sequence) h ∙ rw (add-suc, suc-add)

length-zero : (xs : Bytes) → length xs ≡ 0 → xs ≡ []
length-zero [] h = refl
length-zero (x ∷ xs) h = absurd (omega arith)

take_more : (xs ys : Bytes) (k : ℕ) → take (length xs + k) (xs ++ ys) ≡ xs ++ take k ys
take_more [] ys k = rw zero-add
take_more (x ∷ xs) ys k = rw suc-add (ap (◌∷◌ x) (take_more xs ys k))

cut_bytes :
    (b w fs gs whole torn : Bytes) (k : ℕ)
    → b ≡ w ++ gs
    → w ≡ fs
    → take k gs ≡ whole ++ torn
    → take (length w + k) b ≡ fs ++ (whole ++ torn)
cut_bytes b w fs gs whole torn k eb ew cut =
    ap (take (length w + k)) eb ∙ take_more w gs k ∙ rw (ew, cut)

whole_bytes : (b w fs gs : Bytes) → b ≡ w ++ gs → w ≡ fs → b ≡ fs ++ (gs ++ [])
whole_bytes b w fs gs eb ew = eb ∙ rw (ew, append-nil)

-- The bytes that `open` keeps.
kept_file :
    (xs junk : Bytes)
    → (if ltb (0 + length xs) (length (xs ++ junk))
        then take (0 + length xs) (xs ++ junk)
        else xs ++ junk)
      ≡ xs
kept_file xs junk = elim (Bool-cases (ltb (0 + length xs) (length (xs ++ junk)))) [
  | inl more ↦ rw more (take-append xs junk (0 + length xs) (omega arith))
  | inr all ↦ rw (all, length-zero junk (ground (arith, length-append xs junk))) (append-nil xs)
]

module _ (crc32 : Bytes → ℕ) (crc32_fits : (b : Bytes) → crc32 b < u32_mod) where
  -- `replay` on whole frames with a cut one behind them: the frames decide, the rest is ignored.
  pub replay-Frames :
      (fs : List PhysicalFrame) (ls : List WalFrame) (junk : Bytes)
      → Frames fs ls
      → IsEnd (read_next_frame crc32 junk)
      → replay crc32 (log_bytes crc32 fs ++ junk)
        ≡ (do s ← replay_frames ls (settled []); ok s.committed)
  unfolding replay
  replay-Frames fs ls junk h e =
      replay_loop-log crc32 crc32_fits junk fs ls _ (settled []) h (omega arith) e

  -- `open` on whole frames and bytes at which the scan stops: it keeps the frames.
  pub open_wal-Frames :
      (fs : List PhysicalFrame) (l : WalFrame) (ls : List WalFrame) (n : ℕ) (junk : Bytes)
      → Frames fs (l ∷ ls)
      → Contiguous n (l ∷ ls)
      → length (log_bytes crc32 fs) < u64_mod
      → suc (n + length ls) < u64_mod
      → Stops (some (n + length ls)) (read_next_frame crc32 junk)
      → open_wal crc32 (log_bytes crc32 fs ++ junk)
        ≡ ok (record { file = log_bytes crc32 fs; next_sequence = suc (n + length ls) })
  unfolding open_wal scan_valid_prefix follows checked_add
  open_wal-Frames fs l ls n junk h c fits room stops =
      let last = last_sequence-Contiguous ls l n none c in
      rw
        (scan_loop-log crc32 crc32_fits junk fs (l ∷ ls) n (length (log_bytes crc32 fs ++ junk)) 0
          none h c refl (omega arith) (omega arith) (omega arith) (rw last stops))
        (rw (last, kept_file) (ground arith))

  -- Reopening a log behind which a frame was cut short by a crash gives back the state before that
  -- frame: the same file and the same next sequence. The log holds a frame at least, and its length
  -- is that of a 64-bit file.
  pub open_wal_torn :
      (w : Wal) (l : WalFrame) (ls : List WalFrame) (f : PhysicalFrame) {kind : WalFrameKind}
      (k : ℕ)
      → IsLog crc32 w (l ∷ ls)
      → length w.file < u64_mod
      → IsFrameOf f kind
      → k < length (frame_bytes crc32 f)
      → open_wal crc32 (w.file ++ take k (frame_bytes crc32 f)) ≡ ok w
  open_wal_torn w l ls f k h fits isf short = rw h.file_lem (
      open_wal-Frames h.frames l ls h.start (take k (frame_bytes crc32 f)) h.stands h.contiguous
        (rw h.file_lem at fits) (omega (arith, h.counted, h.fits))
        (IsEnd-Stops _ _ (read_next_frame_torn crc32 crc32_fits f k isf short))
      ∙ ground arith)

  -- The same with the frames in two parts, and the committed frames written out.
  replay_parts :
      (bytes : Bytes) (fs gs : List PhysicalFrame) (ls ms c d : List WalFrame) (junk : Bytes)
      (t : ReplayState)
      → bytes ≡ log_bytes crc32 fs ++ (log_bytes crc32 gs ++ junk)
      → Frames fs ls
      → Frames gs ms
      → IsEnd (read_next_frame crc32 junk)
      → replay_frames ls (settled []) ≡ ok (settled c)
      → replay_frames ms (settled c) ≡ ok t
      → t.committed ≡ d
      → replay crc32 bytes ≡ ok d
  replay_parts bytes fs gs ls ms c d junk t e h k ends hc hd ht =
      ap (replay crc32) (e ∙ rw (log_bytes-append crc32 fs gs, append_assoc))
      ∙ replay-Frames (fs ++ gs) (ls ++ ms) junk (Frames-append fs gs ls ms h k) ends
      ∙ rw (replay_frames-append, hc, hd, ht)

  -- A batch is replayed whole or not at all. Of a log whose replay ends outside a batch, `replay`
  -- returns the committed frames; after a successful `append_batch` it returns them and all the
  -- operations of the batch, in order. If only `k` of the bytes that the batch writes reach the
  -- file, fewer than all, it returns the committed frames alone.
  pub batch_atomicity :
      (w : Wal) (ls c : List WalFrame) (ops : List WalFrameKind) (k : ℕ) {bid : ℕ} {w' : Wal}
      → IsLog crc32 w ls
      → replay_frames ls (settled []) ≡ ok (settled c)
      → append_batch crc32 w ops ≡ (ok bid, w')
      → k < length w'.file - length w.file
      → (replay crc32 w.file ≡ ok c)
        × (replay crc32 w'.file ≡ ok (c ++ op_frames (suc bid) bid ops))
        × (replay crc32 (take (length w.file + k) w'.file) ≡ ok c)
  batch_atomicity w ls c ops k {bid} {w'} h hc e short =
      let (eb, x) = append_batch-Extends crc32 w ops e in
      let good = append_batch-operations crc32 w ops e in
      let pos : 0 < bid = omega arith in
      let nothing = inl (read_next_frame-nil crc32 crc32_fits) in
      let whole = replay_frames-batch c bid ops pos good in
      (
        replay_parts w.file h.frames [] ls [] c c [] (settled c) (h.file_lem ∙ sym (append-nil _))
            h.stands tt nothing hc (unfold replay_frames in refl) refl,
        replay_parts w'.file h.frames x.written ls (batch_frames bid ops) c _ [] _
            (whole_bytes w'.file w.file (log_bytes crc32 h.frames) (log_bytes crc32 x.written)
              x.file_lem h.file_lem)
            h.stands x.stands nothing hc whole refl,
        let cut = torn_log crc32 crc32_fits x.written (batch_frames bid ops) k x.stands (
              omega
                (arith, ap length x.file_lem, length-append w.file (log_bytes crc32 x.written))) in
            let (t, et, ec) = replay_frames-batch_cut c bid ops cut.kept pos good cut.is_prefix in
            replay_parts _ h.frames cut.whole ls cut.kept c c cut.torn t
              (cut_bytes w'.file w.file (log_bytes crc32 h.frames) (log_bytes crc32 x.written)
                (log_bytes crc32 cut.whole) cut.torn k x.file_lem h.file_lem cut.bytes_lem)
              h.stands cut.stands cut.ends hc et ec,
      )
