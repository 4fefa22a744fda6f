-- ===== src/Wal/Checkpoint.antt =====
-- crates/toroidal-store/wal.rs: `truncate_keep_above`, which a checkpoint calls, and
-- `open_with_sequence`, which restores the sequence after it.
use toroidal_db.Base.{
  ℕ, zero, suc, ◌+◌, ◌-◌, ◌≤◌, ◌<◌, ◌≡◌, refl, sym, inl, inr, ap, ◌∙◌, List, [], ◌∷◌, ◌++◌, length,
  drop, length-drop, append-nil, ok, arith, ltb, Bool-cases,
}
use toroidal_db.Base.Bytes.{Bytes, u32_mod}
use toroidal_db.Wal.Frame.{WalFrame, PhysicalFrame, standalone}
use toroidal_db.Wal.RoundTrip.{encode-frame_bytes}
use toroidal_db.Wal.Read.{read_frames}
use toroidal_db.Wal.Stream.{Frames, Contiguous, log_bytes, read_frames-log}
use toroidal_db.Wal.Log.{Wal, contains, kept_batches, keep_frames, encode_all, truncate_keep_above}
use toroidal_db.Wal.Append.{IsLog}
use toroidal_db.Wal.Crash.{read_next_frame-nil}
use native.Mathlib.Nat.{add-zero, add-suc, suc-add}

-- No frame belongs to a batch.
abbrev pub Standalone : List WalFrame → Type 0
Standalone [] = Unit
Standalone (l ∷ ls) = (l.batch_id ≡ standalone) × Standalone ls

kept_batches-Standalone :
    (boundary : ℕ) (fs : List PhysicalFrame) (ls : List WalFrame)
    → Frames fs ls
    → Standalone ls
    → kept_batches boundary fs ≡ []
unfolding kept_batches
kept_batches-Standalone boundary [] [] h s = refl
kept_batches-Standalone boundary [] (l ∷ ls) h s = elim h [ ]
kept_batches-Standalone boundary (f ∷ fs) [] h s = elim h [ ]
kept_batches-Standalone boundary (f ∷ fs) (l ∷ ls) (isf, es, eb, h) (e, s) =
    let rest = kept_batches-Standalone boundary fs ls h s in ground arith

Frames-drop :
    (k : ℕ) (fs : List PhysicalFrame) (ls : List WalFrame)
    → Frames fs ls
    → Frames (drop k fs) (drop k ls)
Frames-drop zero fs ls h = h
Frames-drop (suc k) [] [] h = tt
Frames-drop (suc k) [] (l ∷ ls) h = elim h [ ]
Frames-drop (suc k) (f ∷ fs) [] h = elim h [ ]
Frames-drop (suc k) (f ∷ fs) (l ∷ ls) (isf, es, eb, h) = Frames-drop k fs ls h

Contiguous-drop :
    (k n : ℕ) (ls : List WalFrame)
    → k ≤ length ls
    → Contiguous n ls
    → Contiguous (n + k) (drop k ls)
Contiguous-drop zero n ls h c = rw add-zero c
Contiguous-drop (suc k) n [] h c = tt
Contiguous-drop (suc k) n (l ∷ ls) h (e, c) =
    rw (add-suc, ← suc-add) (Contiguous-drop k (suc n) ls (omega arith) c)

drop_nil : (k : ℕ) → drop {A = PhysicalFrame} k [] ≡ []
drop_nil zero = refl
drop_nil (suc k) = refl

-- The frames above the boundary are the last ones.
keep_frames-drop :
    (boundary n : ℕ) (fs : List PhysicalFrame) (ls : List WalFrame)
    → Frames fs ls
    → Contiguous n ls
    → keep_frames boundary [] fs ≡ drop (suc boundary - n) fs
unfolding keep_frames contains
keep_frames-drop boundary n [] [] h c = sym (drop_nil (suc boundary - n))
keep_frames-drop boundary n [] (l ∷ ls) h c = elim h [ ]
keep_frames-drop boundary n (f ∷ fs) [] h c = elim h [ ]
keep_frames-drop boundary n (f ∷ fs) (l ∷ ls) (isf, es, eb, h) (e, c) =
    let rest = keep_frames-drop boundary (suc n) fs ls h c in
    elim (Bool-cases (ltb boundary f.sequence)) [
      | inl above ↦
          let here : suc boundary - n ≡ 0 = grind arith in
          let next : suc boundary - suc n ≡ 0 = grind arith in
          let all = rw next at rest in rw here (ground (arith, all))
      | inr below ↦
          let here : suc boundary - n ≡ suc (suc boundary - suc n) = grind arith in
          rw here (ground (arith, rest))
    ]

module _ (crc32 : Bytes → ℕ) where
  encode_all-log_bytes :
      (fs : List PhysicalFrame) (ls : List WalFrame)
      → Frames fs ls
      → encode_all crc32 fs ≡ ok (log_bytes crc32 fs)
  unfolding encode_all
  encode_all-log_bytes [] [] h = refl
  encode_all-log_bytes [] (l ∷ ls) h = elim h [ ]
  encode_all-log_bytes (f ∷ fs) [] h = elim h [ ]
  encode_all-log_bytes (f ∷ fs) (l ∷ ls) (isf, es, eb, h) =
      rw (encode-frame_bytes crc32 f isf.payload_fits, encode_all-log_bytes fs ls h)

  module _ (crc32_fits : (b : Bytes) → crc32 b < u32_mod) where
    truncate_file :
        (w : Wal) (boundary n : ℕ) (fs : List PhysicalFrame) (ls : List WalFrame)
        → w.file ≡ log_bytes crc32 fs
        → Frames fs ls
        → Contiguous n ls
        → Standalone ls
        → truncate_keep_above crc32 w boundary
          ≡ ok (record w { file = log_bytes crc32 (drop (suc boundary - n) fs) })
    unfolding truncate_keep_above
    truncate_file w boundary n fs ls e h c s =
        let nothing = append-nil (log_bytes crc32 fs) in
        let fuel : length (log_bytes crc32 fs ++ []) ≤ length w.file =
          omega (arith, ap length e, ap length nothing) in
        let read =
          ap (read_frames crc32 (length w.file)) (e ∙ sym nothing)
          ∙ read_frames-log crc32 crc32_fits [] fs ls (length w.file) h fuel
              (inl (read_next_frame-nil crc32 crc32_fits)) in
        rw (
          read,
          kept_batches-Standalone boundary fs ls h s,
          keep_frames-drop boundary n fs ls h c,
          encode_all-log_bytes (drop (suc boundary - n) fs) (drop (suc boundary - n) ls)
              (Frames-drop _ fs ls h),
        )

    -- The truncation behind a checkpoint: of a log without batches it removes exactly the frames up to
    -- the boundary, which is a sequence of the log or the one before its first. What is left is again a
    -- log, with the same next sequence.
    pub truncate_keep_above-IsLog :
        (w : Wal) (boundary : ℕ) (ls : List WalFrame) (h : IsLog crc32 w ls)
        → Standalone ls
        → h.start ≤ suc boundary
        → boundary < w.next_sequence
        → (w' : Wal) × (truncate_keep_above crc32 w boundary ≡ ok w')
          × (w'.next_sequence ≡ w.next_sequence)
          × IsLog crc32 w' (drop (suc boundary - h.start) ls)
    truncate_keep_above-IsLog w boundary ls h s low high =
        let k = suc boundary - h.start in
        let left = length-drop k ls in
        (
          record w { file = log_bytes crc32 (drop k h.frames) },
          truncate_file w boundary h.start h.frames ls h.file_lem h.stands h.contiguous s,
          refl,
          record {
            frames = drop k h.frames;
            file_lem = refl;
            stands = Frames-drop k h.frames ls h.stands;
            start = h.start + k;
            contiguous = Contiguous-drop k h.start ls (omega (arith, h.counted)) h.contiguous;
            counted = omega (arith, left, h.counted);
            fits = h.fits;
          },
        )
