-- ===== src/Manifest/Reopen.antt =====
-- crates/toroidal-store/manifest.rs: reopening the manifest gives back its memory, whatever operations
-- have written it.
use toroidal_db.Base.{
  ℕ, ◌≡◌, ◌<◌, refl, sym, ap, ◌∙◌, Bool, [], ◌∷◌, ◌++◌, ltb, length, take, arith, if◌then◌else◌, ok,
  >>=-eq-ok, le→ltb,
}
use toroidal_db.Base.Bytes.{Bytes, u32_mod, u64_mod}
use toroidal_db.Manifest.{
  ManifestEntry, Manifest, Replayed, live_insert, live_remove, raise, replay_loop, encode_entry,
  open_manifest, append_nosync, add_segment, remove_segment, set_wal_checkpoint,
}
use toroidal_db.Manifest.Record.{sequence_of, effect, effect-cong, Valid, entry_bytes}
use toroidal_db.Manifest.Memory.{
  log_bytes, effects, Synced, replay_loop-log_bytes, effects-valid, effects-append,
  log_bytes-append, AllValid-append,
}

whole_file : (n : ℕ) (b : Bytes) → n ≡ length b → (if ltb n (length b) then take n b else b) ≡ b
whole_file n b h = rw (le→ltb n (length b) (omega arith)) refl

module _ (crc32 : Bytes → ℕ) (is_utf8 : Bytes → Bool) where
  encode_entry-inv :
      (e : ManifestEntry) {b : Bytes}
      → sequence_of e < u64_mod
      → encode_entry crc32 is_utf8 e ≡ ok b
      → Valid crc32 is_utf8 e × (b ≡ entry_bytes crc32 is_utf8 e)
  unfolding encode_entry entry_bytes
  encode_entry-inv e {b} h q =
      (record { utf8 = ground arith; short = ground arith; sequence_fits = h }, ground arith)

  append_nosync-inv :
      (m m' : Manifest) (e : ManifestEntry)
      → sequence_of e < u64_mod
      → append_nosync crc32 is_utf8 m e ≡ ok m'
      → Valid crc32 is_utf8 e × (m' ≡ record m { file = m.file ++ entry_bytes crc32 is_utf8 e })
  unfolding append_nosync
  append_nosync-inv m m' e h q =
      let (b, coded, e2) =
        >>=-eq-ok (encode_entry crc32 is_utf8 e) (λ buf. ok (record m { file = m.file ++ buf }))
          q in
      let (v, bytes) = encode_entry-inv e h coded in (v, ground arith)

  -- A record behind the file, whose effect is that on the memory.
  Synced-step :
      (m m' : Manifest) (e : ManifestEntry)
      → Synced crc32 is_utf8 m
      → Valid crc32 is_utf8 e
      → m'.file ≡ m.file ++ entry_bytes crc32 is_utf8 e
      → m'.live
        ≡ (effect e (record { live = m.live; max_seq = m.max_flushed_sequence; valid = 0 })).live
      → m'.max_flushed_sequence
        ≡ (effect e (record { live = m.live; max_seq = m.max_flushed_sequence; valid = 0 })).max_seq
      → Synced crc32 is_utf8 m'
  Synced-step m m' e s v file live max =
      let (same_live, same_max) =
        effect-cong e (record { live = m.live; max_seq = m.max_flushed_sequence; valid = 0 })
          (effects crc32 is_utf8 s.entries (record { live = []; max_seq = 0; valid = 0 }))
          s.live_lem s.max_lem in
      let (all_live, all_max) =
        effects-append crc32 is_utf8 s.entries e (record { live = []; max_seq = 0; valid = 0 }) in
      record {
        entries = s.entries ++ (e ∷ []);
        valid = AllValid-append crc32 is_utf8 s.entries e s.valid v;
        file_lem =
            file
            ∙ ap (λ b. b ++ entry_bytes crc32 is_utf8 e) s.file_lem
            ∙ sym (log_bytes-append crc32 is_utf8 s.entries e);
        live_lem = live ∙ same_live ∙ sym all_live;
        max_lem = max ∙ same_max ∙ sym all_max;
      }

  add_segment-Synced :
      (m m' : Manifest) (path : Bytes) (max_sequence : ℕ)
      → max_sequence < u64_mod
      → Synced crc32 is_utf8 m
      → add_segment crc32 is_utf8 m path max_sequence ≡ ok m'
      → Synced crc32 is_utf8 m'
  unfolding add_segment effect sequence_of
  add_segment-Synced m m' path max_sequence h s q =
      let (m1, written, e2) =
        >>=-eq-ok (append_nosync crc32 is_utf8 m (ManifestEntry.add path max_sequence))
          (λ m1. ok (record m1 {
            live = live_insert path m1.live;
            max_flushed_sequence = raise max_sequence m1.max_flushed_sequence;
          }))
          q in
      let (v, same) = append_nosync-inv m m1 (ManifestEntry.add path max_sequence) h written in
      let after : m' ≡ record m {
        file = m.file ++ entry_bytes crc32 is_utf8 (ManifestEntry.add path max_sequence);
        live = live_insert path m.live;
        max_flushed_sequence = raise max_sequence m.max_flushed_sequence;
      } =
        ground arith in
      Synced-step m m' (ManifestEntry.add path max_sequence) s v (ap (λ x. x.file) after)
        (ap (λ x. x.live) after) (ap (λ x. x.max_flushed_sequence) after)

  remove_segment-Synced :
      (m m' : Manifest) (path : Bytes)
      → Synced crc32 is_utf8 m
      → remove_segment crc32 is_utf8 m path ≡ ok m'
      → Synced crc32 is_utf8 m'
  unfolding remove_segment effect sequence_of
  remove_segment-Synced m m' path s q =
      let (m1, written, e2) =
        >>=-eq-ok (append_nosync crc32 is_utf8 m (ManifestEntry.remove path))
          (λ m1. ok (record m1 { live = live_remove path m1.live })) q in
      let (v, same) = append_nosync-inv m m1 (ManifestEntry.remove path) (omega arith) written in
      let after : m' ≡ record m {
        file = m.file ++ entry_bytes crc32 is_utf8 (ManifestEntry.remove path);
        live = live_remove path m.live;
      } =
        ground arith in
      Synced-step m m' (ManifestEntry.remove path) s v (ap (λ x. x.file) after)
        (ap (λ x. x.live) after) (ap (λ x. x.max_flushed_sequence) after)

  set_wal_checkpoint-Synced :
      (m m' : Manifest) (sequence : ℕ)
      → sequence < u64_mod
      → Synced crc32 is_utf8 m
      → set_wal_checkpoint crc32 is_utf8 m sequence ≡ ok m'
      → Synced crc32 is_utf8 m'
  unfolding set_wal_checkpoint effect sequence_of
  set_wal_checkpoint-Synced m m' sequence h s q =
      let (m1, written, e2) =
        >>=-eq-ok (append_nosync crc32 is_utf8 m (ManifestEntry.checkpoint sequence))
          (λ m1. ok (record m1 { max_flushed_sequence = raise sequence m1.max_flushed_sequence }))
          q in
      let (v, same) = append_nosync-inv m m1 (ManifestEntry.checkpoint sequence) h written in
      let after : m' ≡ record m {
        file = m.file ++ entry_bytes crc32 is_utf8 (ManifestEntry.checkpoint sequence);
        max_flushed_sequence = raise sequence m.max_flushed_sequence;
      } =
        ground arith in
      Synced-step m m' (ManifestEntry.checkpoint sequence) s v (ap (λ x. x.file) after)
        (ap (λ x. x.live) after) (ap (λ x. x.max_flushed_sequence) after)

  -- The operations on one record.
  pub data Wrote (m m' : Manifest) : Type 0 where
    added :
        (path : Bytes) (s : ℕ)
        → s < u64_mod
        → add_segment crc32 is_utf8 m path s ≡ ok m'
        → Wrote m m'
    removed : (path : Bytes) → remove_segment crc32 is_utf8 m path ≡ ok m' → Wrote m m'
    checkpointed : (s : ℕ) → s < u64_mod → set_wal_checkpoint crc32 is_utf8 m s ≡ ok m' → Wrote m m'

  Wrote-Synced : (m m' : Manifest) → Synced crc32 is_utf8 m → Wrote m m' → Synced crc32 is_utf8 m'
  Wrote-Synced m m' s (Wrote.added path q h e) = add_segment-Synced m m' path q h s e
  Wrote-Synced m m' s (Wrote.removed path e) = remove_segment-Synced m m' path s e
  Wrote-Synced m m' s (Wrote.checkpointed q h e) = set_wal_checkpoint-Synced m m' q h s e

  module _ (crc32_fits : (b : Bytes) → crc32 b < u32_mod) where
    open_manifest-Synced :
        (m : Manifest)
        → Synced crc32 is_utf8 m
        → ((open_manifest crc32 is_utf8 m.file).file ≡ m.file)
          × ((open_manifest crc32 is_utf8 m.file).live ≡ m.live)
          × ((open_manifest crc32 is_utf8 m.file).max_flushed_sequence ≡ m.max_flushed_sequence)
    unfolding open_manifest
    open_manifest-Synced m s =
        let start : Replayed = record { live = []; max_seq = 0; valid = 0 } in
        let read =
          replay_loop-log_bytes crc32 is_utf8 crc32_fits s.entries
            (length (log_bytes crc32 is_utf8 s.entries)) start s.valid (omega arith) in
        let size = effects-valid crc32 is_utf8 s.entries start in
        let all : replay_loop crc32 is_utf8 (length m.file) m.file start
            ≡ effects crc32 is_utf8 s.entries start =
          ap (λ b. replay_loop crc32 is_utf8 (length b) b start) s.file_lem ∙ read in
        (
          whole_file _ m.file (omega (arith, ap (λ r. r.valid) all, size, ap length s.file_lem)),
          ap (λ r. r.live) all ∙ sym s.live_lem,
          ap (λ r. r.max_seq) all ∙ sym s.max_lem,
        )

    -- An operation on one record, on a manifest whose memory is what its file says, leaves such a
    -- manifest: reopening its file gives back the file, the live segments and the flushed sequence.
    pub Wrote-open_manifest :
        (m m' : Manifest)
        → Synced crc32 is_utf8 m
        → Wrote m m'
        → Synced crc32 is_utf8 m'
          × ((open_manifest crc32 is_utf8 m'.file).file ≡ m'.file)
          × ((open_manifest crc32 is_utf8 m'.file).live ≡ m'.live)
          × ((open_manifest crc32 is_utf8 m'.file).max_flushed_sequence ≡ m'.max_flushed_sequence)
    Wrote-open_manifest m m' s w =
        let s' = Wrote-Synced m m' s w in
        let (file, live, max) = open_manifest-Synced m' s' in (s', file, live, max)
