-- ===== src/Manifest/Record.antt =====
-- crates/toroidal-store/manifest.rs: a record that `encode_entry` made is read back by `replay`, with its
-- effect on the memory.
use toroidal_db.Base.{
  ℕ, ◌+◌, ◌-◌, ◌≡◌, ◌≤◌, ◌<◌, refl, sym, ap, ◌∙◌, Bool, true, ◌||◌, none, some, [], ◌++◌, ◌==◌,
  length, take, drop, get_or, le→leb, eq→==, length-append, take-append, drop-append, drop-add,
  append_assoc, append-nil, arith,
}
use toroidal_db.Base.Bytes.{
  Bytes, u32_mod, u64_mod, to_le, from_le, length-to_le, from_le-to_le_u16, from_le-to_le_u32,
  from_le-to_le_u64,
}
use toroidal_db.Manifest.{
  ManifestEntry, Replayed, manifest_magic, type_add, type_remove, type_wal_checkpoint, extra_len,
  type_of, path_of, extra_of, read_u16_le, read_u32_le, read_u64_le, live_insert, live_remove,
  raise, entry_body, apply_entry, replay_entry,
}

unfoldable pub sequence_of : ManifestEntry → ℕ
sequence_of (ManifestEntry.add p s) = s
sequence_of (ManifestEntry.remove p) = 0
sequence_of (ManifestEntry.checkpoint s) = s

-- What a record does to the memory.
unfoldable pub effect : ManifestEntry → Replayed → Replayed
effect (ManifestEntry.add p s) r = record r {
  live = live_insert p r.live;
  max_seq = raise s r.max_seq;
}
effect (ManifestEntry.remove p) r = record r { live = live_remove p r.live }
effect (ManifestEntry.checkpoint s) r = record r { max_seq = raise s r.max_seq }

pub effect_valid : (e : ManifestEntry) (r : Replayed) → (effect e r).valid ≡ r.valid
unfolding effect
effect_valid (ManifestEntry.add p s) r = refl
effect_valid (ManifestEntry.remove p) r = refl
effect_valid (ManifestEntry.checkpoint s) r = refl

pub effect-cong :
    (e : ManifestEntry) (r q : Replayed)
    → r.live ≡ q.live
    → r.max_seq ≡ q.max_seq
    → ((effect e r).live ≡ (effect e q).live) × ((effect e r).max_seq ≡ (effect e q).max_seq)
unfolding effect
effect-cong (ManifestEntry.add p s) r q h k = (ap (live_insert p) h, ap (raise s) k)
effect-cong (ManifestEntry.remove p) r q h k = (ap (live_remove p) h, k)
effect-cong (ManifestEntry.checkpoint s) r q h k = (h, ap (raise s) k)

module _ (crc32 : Bytes → ℕ) (is_utf8 : Bytes → Bool) where
  -- A record that `encode_entry` accepts, with a sequence of 64 bits.
  pub record Valid (e : ManifestEntry) : Type 0 where
    pub utf8 : is_utf8 (path_of e) ≡ true
    pub short : length (path_of e) < 65536
    pub sequence_fits : sequence_of e < u64_mod

  unfoldable pub entry_bytes : ManifestEntry → Bytes
  entry_bytes e = entry_body crc32 is_utf8 e ++ to_le 4 (crc32 (entry_body crc32 is_utf8 e))

  body_type :
      (e : ManifestEntry) (z : Bytes) → get_or (entry_body crc32 is_utf8 e ++ z) 4 0 ≡ type_of e
  unfolding entry_body to_le
  body_type e z = refl

  body_magic :
      (e : ManifestEntry) (z : Bytes)
      → read_u32_le (entry_body crc32 is_utf8 e ++ z) 0 ≡ manifest_magic
  unfolding entry_body to_le read_u32_le from_le
  body_magic e z = refl

  body_len :
      (e : ManifestEntry) (z : Bytes)
      → length (path_of e) < 65536
      → read_u16_le (entry_body crc32 is_utf8 e ++ z) 5 ≡ length (path_of e)
  unfolding entry_body to_le read_u16_le
  body_len e z h = from_le-to_le_u16 (length (path_of e)) h

  body_path :
      (e : ManifestEntry) (z : Bytes)
      → drop 7 (entry_body crc32 is_utf8 e ++ z) ≡ path_of e ++ (extra_of e ++ z)
  unfolding entry_body to_le
  body_path e z = append_assoc (path_of e) (extra_of e) z

  length-body :
      (e : ManifestEntry)
      → length (entry_body crc32 is_utf8 e) ≡ 7 + length (path_of e) + extra_len (type_of e)
  unfolding entry_body to_le type_of extra_of path_of
  length-body (ManifestEntry.add p s) = omega (arith, length-append p (to_le 8 s), length-to_le 8 s)
  length-body (ManifestEntry.remove p) = omega (arith, ap length (append-nil p))
  length-body (ManifestEntry.checkpoint s) = omega (arith, length-to_le 8 s)

  body_extra :
      (e : ManifestEntry) (z : Bytes)
      → read_u64_le (entry_body crc32 is_utf8 e ++ z) (7 + length (path_of e))
        ≡ from_le (take 8 (extra_of e ++ z))
  unfolding read_u64_le
  body_extra e z =
      ap (λ l. from_le (take 8 l))
        (drop-add 7 (length (path_of e)) (entry_body crc32 is_utf8 e ++ z)
          ∙ ap (drop (length (path_of e))) (body_path e z)
          ∙ drop-append (path_of e) _ _ refl)

  word : (s : ℕ) (z : Bytes) → s < u64_mod → from_le (take 8 (to_le 8 s ++ z)) ≡ s
  word s z h =
      ap from_le (take-append (to_le 8 s) z 8 (sym (length-to_le 8 s))) ∙ from_le-to_le_u64 s h

  apply_entry-effect :
      (e : ManifestEntry) (z : Bytes) (r : Replayed)
      → sequence_of e < u64_mod
      → apply_entry crc32 is_utf8 (type_of e) (path_of e) (from_le (take 8 (extra_of e ++ z))) r
        ≡ effect e r
  unfolding apply_entry effect type_of path_of extra_of sequence_of
  apply_entry-effect (ManifestEntry.add p s) z r h = rw (word s z h) refl
  apply_entry-effect (ManifestEntry.remove p) z r h = refl
  apply_entry-effect (ManifestEntry.checkpoint s) z r h = rw (word s z h) refl

  type_known :
      (e : ManifestEntry)
      → (type_of e == type_add || type_of e == type_remove || type_of e == type_wal_checkpoint)
        ≡ true
  unfolding type_of
  type_known (ManifestEntry.add p s) = refl
  type_known (ManifestEntry.remove p) = refl
  type_known (ManifestEntry.checkpoint s) = refl

  -- The checks of `replay_entry`, one by one.
  replay_entry_lem :
      (left path : Bytes) (r : Replayed) (t n total seq : ℕ)
      → get_or left 4 0 ≡ t
      → read_u16_le left 5 ≡ n
      → read_u32_le left 0 ≡ manifest_magic
      → take n (drop 7 left) ≡ path
      → is_utf8 path ≡ true
      → (t == type_add || t == type_remove || t == type_wal_checkpoint) ≡ true
      → 7 + n + extra_len t + 4 ≡ total
      → total ≤ length left
      → read_u32_le left (total - 4) ≡ crc32 (take (total - 4) left)
      → read_u64_le left (7 + n) ≡ seq
      → replay_entry crc32 is_utf8 left r
        ≡ some (total, apply_entry crc32 is_utf8 t path seq (record r { valid = r.valid + total }))
  unfolding replay_entry
  replay_entry_lem left path r t n total seq et en em ep eu ek el fits ec es =
      rw
        (
          et,
          en,
          ep,
          eu,
          em,
          ek,
          el,
          es,
          le→leb 11 (length left) (omega arith),
          le→leb total (length left) fits,
          eq→== _ _ ec,
        )
        refl

  pub length-entry_bytes :
      (e : ManifestEntry)
      → length (entry_bytes e) ≡ 7 + length (path_of e) + extra_len (type_of e) + 4
  unfolding entry_bytes
  length-entry_bytes e = omega (
    arith,
    length-append (entry_body crc32 is_utf8 e) (to_le 4 (crc32 (entry_body crc32 is_utf8 e))),
    length-to_le 4 (crc32 (entry_body crc32 is_utf8 e)),
    length-body e,
  )

  entry_whole :
      (e : ManifestEntry) (rest : Bytes)
      → entry_bytes e ++ rest
        ≡ entry_body crc32 is_utf8 e ++ (to_le 4 (crc32 (entry_body crc32 is_utf8 e)) ++ rest)
  unfolding entry_bytes
  entry_whole e rest = append_assoc (entry_body crc32 is_utf8 e) _ rest

  pub replay_entry-nil : (r : Replayed) → replay_entry crc32 is_utf8 [] r ≡ none
  unfolding replay_entry
  replay_entry-nil r = refl

  module _ (crc32_fits : (b : Bytes) → crc32 b < u32_mod) where
    -- A record at the front of the bytes is read, with its effect.
    pub replay_entry-entry_bytes :
        (e : ManifestEntry) (rest : Bytes) (r : Replayed)
        → Valid e
        → replay_entry crc32 is_utf8 (entry_bytes e ++ rest) r
          ≡ some (
            length (entry_bytes e),
            effect e (record r { valid = r.valid + length (entry_bytes e) }),
          )
    replay_entry-entry_bytes e rest r v =
        let body = entry_body crc32 is_utf8 e in
        let crc = to_le 4 (crc32 body) in
        let z = crc ++ rest in
        let n = length (path_of e) in
        let total = length (entry_bytes e) in
        let size = length-entry_bytes e in
        let size2 = length-append (entry_bytes e) rest in
        let whole = entry_whole e rest in
        let behind : total - 4 ≡ length body = omega (arith, size, length-body e) in
        replay_entry_lem (entry_bytes e ++ rest) (path_of e) r (type_of e) n total _
          (ap (λ l. get_or l 4 0) whole ∙ body_type e z)
          (ap (λ l. read_u16_le l 5) whole ∙ body_len e z v.short)
          (ap (λ l. read_u32_le l 0) whole ∙ body_magic e z)
          (ap (λ l. take n (drop 7 l)) whole
            ∙ ap (take n) (body_path e z)
            ∙ take-append (path_of e) _ n refl)
          v.utf8 (type_known e) (sym size) (omega (arith, size2))
          (unfold read_u32_le in
            (ap (λ l. from_le (take 4 (drop (total - 4) l))) whole
              ∙ ap (λ l. from_le (take 4 l)) (drop-append body z _ behind)
              ∙ ap from_le (take-append crc rest 4 (sym (length-to_le 4 _)))
              ∙ from_le-to_le_u32 (crc32 body) (crc32_fits body)
              ∙ ap crc32 (sym (ap (take (total - 4)) whole ∙ take-append body z _ behind))))
          (ap (λ l. read_u64_le l (7 + n)) whole ∙ body_extra e z)
        ∙ ap (λ q. some (total, q)) (apply_entry-effect e z _ v.sequence_fits)
