-- ===== src/Wal/Stream.antt =====
-- crates/toroidal-store/wal.rs: the loops over a file of whole frames, with bytes behind them at which
-- reading stops. Each loop computes what the same loop computes on the list of frames.
use toroidal_db.Base.{
  ℕ, zero, suc, ◌+◌, ◌≤◌, ◌<◌, ◌≡◌, refl, ap, ◌∙◌, true, false, Option, some, List, [], ◌∷◌, ◌++◌,
  length, length-append, append_assoc, Result, ok, err, ◌>>=◌, arith,
}
use toroidal_db.Base.Bytes.{Bytes, u32_mod, u64_mod, checked_add}
use toroidal_db.Wal.Frame.{WalFrameKind, WalFrame, PhysicalFrame}
use toroidal_db.Wal.Codec.{IsFrameOf}
use toroidal_db.Wal.RoundTrip.{frame_bytes, length-frame_bytes, encoded_len_lem, to_logical_lem}
use toroidal_db.Wal.Read.{
  FrameRead, ReplayState, follows, replay_kind, read_next_frame, scan_loop, replay_loop,
  read_frames,
}
use toroidal_db.Wal.Scan.{IsEnd, read_next_frame-frame}
use native.Mathlib.Nat.{add-zero, add_assoc}

-- The frames `fs` stand for the logical frames `ls`, one by one.
abbrev pub Frames : List PhysicalFrame → List WalFrame → Type 0
Frames [] [] = Unit
Frames [] (l ∷ ls) = ⊥
Frames (f ∷ fs) [] = ⊥
Frames (f ∷ fs) (l ∷ ls) =
    IsFrameOf f l.kind × (f.sequence ≡ l.sequence) × (f.batch_id ≡ l.batch_id) × Frames fs ls

-- The sequences count up from `n`.
abbrev pub Contiguous : ℕ → List WalFrame → Type 0
Contiguous n [] = Unit
Contiguous n (l ∷ ls) = (l.sequence ≡ n) × Contiguous (suc n) ls

-- The frames after which `scan_valid_prefix` ends: the last sequence that it has seen.
abbrev pub last_sequence : Option ℕ → List WalFrame → Option ℕ
last_sequence prev [] = prev
last_sequence prev (l ∷ ls) = last_sequence (some l.sequence) ls

-- `scan_valid_prefix` goes no further behind a frame of sequence `prev`.
abbrev pub Stops : Option ℕ → FrameRead → Type 0
Stops prev FrameRead.eof = Unit
Stops prev FrameRead.truncated = Unit
Stops prev (FrameRead.corrupt e) = Unit
Stops prev (FrameRead.frame f rest) = follows prev f.sequence ≡ ok false

-- `replay` on the list of logical frames.
unfoldable pub replay_frames : List WalFrame → ReplayState → Result ReplayState
replay_frames [] s = ok s
replay_frames (l ∷ ls) s = do s' ← replay_kind l.kind l s; replay_frames ls s'

pub follows_next : (n : ℕ) → n + 1 < u64_mod → follows (some n) (suc n) ≡ ok true
unfolding follows checked_add
follows_next n h = ground arith

checked_add_fits : (a b : ℕ) → a + b < u64_mod → checked_add a b ≡ some (a + b)
unfolding checked_add
checked_add_fits a b h = ground arith

replay_rest :
    (ls : List WalFrame) (l : WalFrame) (s : ReplayState) (r : Result ReplayState)
    (loop : ReplayState → Result (List WalFrame))
    → replay_kind l.kind l s ≡ r
    → ((s' : ReplayState) → loop s' ≡ (do t ← replay_frames ls s'; ok t.committed))
    → (do s' ← r; loop s') ≡ (do t ← replay_frames (l ∷ ls) s; ok t.committed)
unfolding replay_frames
replay_rest ls l s (ok s') loop e ih = rw e (ih s')
replay_rest ls l s (err x) loop e ih = rw e

module _ (crc32 : Bytes → ℕ) where
  abbrev pub log_bytes : List PhysicalFrame → Bytes
  log_bytes [] = []
  log_bytes (f ∷ fs) = frame_bytes crc32 f ++ log_bytes fs

  pub log_bytes-append :
      (fs gs : List PhysicalFrame) → log_bytes (fs ++ gs) ≡ log_bytes fs ++ log_bytes gs
  log_bytes-append [] gs = refl
  log_bytes-append (f ∷ fs) gs = rw (log_bytes-append fs gs, append_assoc)

  scan_stop :
      (fuel : ℕ) (bytes : Bytes) (off : ℕ) (prev : Option ℕ)
      → Stops prev (read_next_frame crc32 bytes)
      → scan_loop crc32 fuel bytes off prev ≡ ok (off, prev)
  unfolding scan_loop
  scan_stop zero bytes off prev h = refl
  scan_stop (suc fuel) bytes off prev h = ground arith

  replay_end :
      (fuel : ℕ) (bytes : Bytes) (s : ReplayState)
      → IsEnd (read_next_frame crc32 bytes)
      → replay_loop crc32 fuel bytes s ≡ ok s.committed
  unfolding replay_loop
  replay_end zero bytes s h = refl
  replay_end (suc fuel) bytes s h = ground arith

  read_end :
      (fuel : ℕ) (bytes : Bytes)
      → IsEnd (read_next_frame crc32 bytes)
      → read_frames crc32 fuel bytes ≡ []
  unfolding read_frames
  read_end zero bytes h = refl
  read_end (suc fuel) bytes h = ground arith

  module _ (crc32_fits : (b : Bytes) → crc32 b < u32_mod) where
    scan_step :
        (fuel off : ℕ) (prev : Option ℕ) (f : PhysicalFrame) (rest : Bytes) {kind : WalFrameKind}
        → IsFrameOf f kind
        → follows prev f.sequence ≡ ok true
        → off + length (frame_bytes crc32 f) < u64_mod
        → scan_loop crc32 (suc fuel) (frame_bytes crc32 f ++ rest) off prev
          ≡ scan_loop crc32 fuel rest (off + length (frame_bytes crc32 f)) (some f.sequence)
    unfolding scan_loop
    scan_step fuel off prev f rest h hp ho =
        let size = length-frame_bytes crc32 f in
        rw
          (
            scan_loop,
            read_next_frame-frame crc32 crc32_fits f rest h,
            hp,
            encoded_len_lem f h.payload_fits,
            size,
            checked_add_fits off _ (rw size at ho),
          )
          refl

    replay_step :
        (fuel : ℕ) (s : ReplayState) (f : PhysicalFrame) (l : WalFrame) (rest : Bytes)
        → IsFrameOf f l.kind
        → f.sequence ≡ l.sequence
        → f.batch_id ≡ l.batch_id
        → replay_loop crc32 (suc fuel) (frame_bytes crc32 f ++ rest) s
          ≡ (do s' ← replay_kind l.kind l s; replay_loop crc32 fuel rest s')
    unfolding replay_loop
    replay_step fuel s f l rest h es eb =
        ground (arith, read_next_frame-frame crc32 crc32_fits f rest h, to_logical_lem crc32 f h)

    read_step :
        (fuel : ℕ) (f : PhysicalFrame) (rest : Bytes) {kind : WalFrameKind}
        → IsFrameOf f kind
        → read_frames crc32 (suc fuel) (frame_bytes crc32 f ++ rest)
          ≡ f ∷ read_frames crc32 fuel rest
    unfolding read_frames
    read_step fuel f rest h = rw (read_next_frame-frame crc32 crc32_fits f rest h, read_frames)

    -- A frame takes a round.
    enough :
        (f : PhysicalFrame) (rest : Bytes) (fuel : ℕ)
        → length (frame_bytes crc32 f ++ rest) ≤ suc fuel
        → length rest ≤ fuel
    enough f rest fuel h =
        omega (arith, length-append (frame_bytes crc32 f) rest, length-frame_bytes crc32 f)

    not_empty : (f : PhysicalFrame) (rest : Bytes) → length (frame_bytes crc32 f ++ rest) ≤ 0 → ⊥
    not_empty f rest h =
        omega (arith, length-append (frame_bytes crc32 f) rest, length-frame_bytes crc32 f)

    module _ (junk : Bytes) where
      -- Behind the frames the offset is their length, and the last sequence is theirs.
      pub scan_loop-log :
          (fs : List PhysicalFrame) (ls : List WalFrame) (n fuel off : ℕ) (prev : Option ℕ)
          → Frames fs ls
          → Contiguous n ls
          → follows prev n ≡ ok true
          → length (log_bytes fs ++ junk) ≤ fuel
          → off + length (log_bytes fs) < u64_mod
          → n + length ls < u64_mod
          → Stops (last_sequence prev ls) (read_next_frame crc32 junk)
          → scan_loop crc32 fuel (log_bytes fs ++ junk) off prev
            ≡ ok (off + length (log_bytes fs), last_sequence prev ls)
      scan_loop-log [] [] n fuel off prev hf hc hp hl ho hn hs =
          scan_stop fuel junk off prev hs ∙ rw add-zero
      scan_loop-log [] (l ∷ ls) n fuel off prev hf hc hp hl ho hn hs = elim hf [ ]
      scan_loop-log (f ∷ fs) [] n fuel off prev hf hc hp hl ho hn hs = elim hf [ ]
      scan_loop-log (f ∷ fs) (l ∷ ls) n zero off prev hf hc hp hl ho hn hs =
          absurd (not_empty f (log_bytes fs ++ junk) (rw append_assoc at hl))
      scan_loop-log (f ∷ fs) (l ∷ ls) n (suc fuel) off prev (isf, es, eb, hf) (en, hc) hp hl ho hn
            hs =
          let len = length-append (frame_bytes crc32 f) (log_bytes fs) in
          let seq = es ∙ en in
          rw append_assoc (
            scan_step fuel off prev f (log_bytes fs ++ junk) isf (rw seq hp) (omega arith)
            ∙ scan_loop-log fs ls (suc n) fuel (off + length (frame_bytes crc32 f))
                (some f.sequence) hf hc (rw seq (follows_next n (omega arith)))
                (enough f (log_bytes fs ++ junk) fuel (rw append_assoc at hl)) (omega arith)
                (omega arith) (rw es hs)
            ∙ simp (es, len, add_assoc))

      pub replay_loop-log :
          (fs : List PhysicalFrame) (ls : List WalFrame) (fuel : ℕ) (s : ReplayState)
          → Frames fs ls
          → length (log_bytes fs ++ junk) ≤ fuel
          → IsEnd (read_next_frame crc32 junk)
          → replay_loop crc32 fuel (log_bytes fs ++ junk) s
            ≡ (do s' ← replay_frames ls s; ok s'.committed)
      replay_loop-log [] [] fuel s hf hl hs =
          replay_end fuel junk s hs ∙ unfold replay_frames in refl
      replay_loop-log [] (l ∷ ls) fuel s hf hl hs = elim hf [ ]
      replay_loop-log (f ∷ fs) [] fuel s hf hl hs = elim hf [ ]
      replay_loop-log (f ∷ fs) (l ∷ ls) zero s hf hl hs =
          absurd (not_empty f (log_bytes fs ++ junk) (rw append_assoc at hl))
      replay_loop-log (f ∷ fs) (l ∷ ls) (suc fuel) s (isf, es, eb, hf) hl hs = rw append_assoc (
          replay_step fuel s f l (log_bytes fs ++ junk) isf es eb
          ∙ replay_rest ls l s (replay_kind l.kind l s)
              (λ s'. replay_loop crc32 fuel (log_bytes fs ++ junk) s') refl
              (λ s'.
                replay_loop-log fs ls fuel s' hf
                  (enough f (log_bytes fs ++ junk) fuel (rw append_assoc at hl)) hs))

      pub read_frames-log :
          (fs : List PhysicalFrame) (ls : List WalFrame) (fuel : ℕ)
          → Frames fs ls
          → length (log_bytes fs ++ junk) ≤ fuel
          → IsEnd (read_next_frame crc32 junk)
          → read_frames crc32 fuel (log_bytes fs ++ junk) ≡ fs
      read_frames-log [] [] fuel hf hl hs = read_end fuel junk hs
      read_frames-log [] (l ∷ ls) fuel hf hl hs = elim hf [ ]
      read_frames-log (f ∷ fs) [] fuel hf hl hs = elim hf [ ]
      read_frames-log (f ∷ fs) (l ∷ ls) zero hf hl hs =
          absurd (not_empty f (log_bytes fs ++ junk) (rw append_assoc at hl))
      read_frames-log (f ∷ fs) (l ∷ ls) (suc fuel) (isf, es, eb, hf) hl hs = rw append_assoc (
          read_step fuel f (log_bytes fs ++ junk) isf
          ∙ ap (◌∷◌ f) (
              read_frames-log fs ls fuel hf
                (enough f (log_bytes fs ++ junk) fuel (rw append_assoc at hl)) hs))
