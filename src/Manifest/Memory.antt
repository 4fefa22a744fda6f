-- ===== src/Manifest/Memory.antt =====
-- crates/toroidal-store/manifest.rs: the memory of the manifest is the replay of its file.
use toroidal_db.Base.{
  ℕ, zero, suc, ◌+◌, ◌≡◌, ◌≤◌, ◌<◌, refl, sym, ap, ◌∙◌, Bool, List, [], ◌∷◌, ◌++◌, length,
  length-append, drop-append, append_assoc, append-nil, arith,
}
use toroidal_db.Base.Bytes.{Bytes, u32_mod}
use toroidal_db.Manifest.{ManifestEntry, Manifest, Replayed, replay_loop}
use toroidal_db.Manifest.Record.{
  effect, effect_valid, effect-cong, Valid, entry_bytes, length-entry_bytes, replay_entry-nil,
  replay_entry-entry_bytes,
}

module _ (crc32 : Bytes → ℕ) (is_utf8 : Bytes → Bool) where
  -- The bytes of records.
  unfoldable pub log_bytes : List ManifestEntry → Bytes
  log_bytes [] = []
  log_bytes (e ∷ es) = entry_bytes crc32 is_utf8 e ++ log_bytes es

  -- Their effects, one after the other.
  unfoldable pub effects : List ManifestEntry → Replayed → Replayed
  effects [] r = r
  effects (e ∷ es) r =
      effects es (effect e (record r { valid = r.valid + length (entry_bytes crc32 is_utf8 e) }))

  abbrev pub AllValid : List ManifestEntry → Type 0
  AllValid [] = Unit
  AllValid (e ∷ es) = Valid crc32 is_utf8 e × AllValid es

  -- The memory of the manifest is what its records say.
  pub record Synced (m : Manifest) : Type 0 where
    pub entries : List ManifestEntry
    pub valid : AllValid entries
    pub file_lem : m.file ≡ log_bytes entries
    pub live_lem : m.live ≡ (effects entries (record { live = []; max_seq = 0; valid = 0 })).live
    pub max_lem :
        m.max_flushed_sequence
        ≡ (effects entries (record { live = []; max_seq = 0; valid = 0 })).max_seq

  module _ (crc32_fits : (b : Bytes) → crc32 b < u32_mod) where
    pub replay_loop-log_bytes :
        (es : List ManifestEntry) (fuel : ℕ) (r : Replayed)
        → AllValid es
        → length (log_bytes es) ≤ fuel
        → replay_loop crc32 is_utf8 fuel (log_bytes es) r ≡ effects es r
    unfolding replay_loop log_bytes effects
    replay_loop-log_bytes [] zero r v h = refl
    replay_loop-log_bytes [] (suc fuel) r v h =
        rw (replay_loop, replay_entry-nil crc32 is_utf8 r) refl
    replay_loop-log_bytes (e ∷ es) zero r (v, vs) h = absurd (
        omega (
          arith,
          length-append (entry_bytes crc32 is_utf8 e) (log_bytes es),
          length-entry_bytes crc32 is_utf8 e,
        ))
    replay_loop-log_bytes (e ∷ es) (suc fuel) r (v, vs) h =
        rw
          (
            replay_loop,
            replay_entry-entry_bytes crc32 is_utf8 crc32_fits e (log_bytes es) r v,
            drop-append (entry_bytes crc32 is_utf8 e) (log_bytes es) _ refl,
          )
          (replay_loop-log_bytes es fuel _ vs (
            omega (
              arith,
              length-append (entry_bytes crc32 is_utf8 e) (log_bytes es),
              length-entry_bytes crc32 is_utf8 e,
            )))

  pub effects-valid :
      (es : List ManifestEntry) (r : Replayed)
      → (effects es r).valid ≡ r.valid + length (log_bytes es)
  unfolding effects log_bytes
  effects-valid [] r = omega arith
  effects-valid (e ∷ es) r =
      effects-valid es _
      ∙ omega (
        arith,
        effect_valid e (record r { valid = r.valid + length (entry_bytes crc32 is_utf8 e) }),
        length-append (entry_bytes crc32 is_utf8 e) (log_bytes es),
      )

  pub effects-append :
      (es : List ManifestEntry) (e : ManifestEntry) (r : Replayed)
      → ((effects (es ++ (e ∷ [])) r).live ≡ (effect e (effects es r)).live)
        × ((effects (es ++ (e ∷ [])) r).max_seq ≡ (effect e (effects es r)).max_seq)
  unfolding effects
  effects-append [] e r = effect-cong e _ r refl refl
  effects-append (d ∷ es) e r = effects-append es e _

  pub log_bytes-append :
      (es : List ManifestEntry) (e : ManifestEntry)
      → log_bytes (es ++ (e ∷ [])) ≡ log_bytes es ++ entry_bytes crc32 is_utf8 e
  unfolding log_bytes
  log_bytes-append [] e = append-nil (entry_bytes crc32 is_utf8 e)
  log_bytes-append (d ∷ es) e =
      ap (◌++◌ (entry_bytes crc32 is_utf8 d)) (log_bytes-append es e)
      ∙ sym (append_assoc (entry_bytes crc32 is_utf8 d) _ _)

  pub AllValid-append :
      (es : List ManifestEntry) (e : ManifestEntry)
      → AllValid es
      → Valid crc32 is_utf8 e
      → AllValid (es ++ (e ∷ []))
  AllValid-append [] e vs v = (v, tt)
  AllValid-append (d ∷ es) e (w, vs) v = (w, AllValid-append es e vs v)
