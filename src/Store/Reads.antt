-- ===== src/Store/Reads.antt =====
-- crates/toroidal-store/store.rs: what reads find behind a write or a freeze.
use toroidal_db.Base.{
  ℕ, ◌≡◌, ◌<◌, refl, sym, ap, ◌∙◌, Bool, true, false, ◌&&◌, Option, none, some, List, [], ◌∷◌, ◌++◌,
  leb, ltb, Result-cases, if◌then◌else◌, arith, inl, inr, Result, ok, err, TqlError, ◌>>◌,
}
use toroidal_db.Base.Bytes.{Bytes, u64_mod}
use toroidal_db.Base.Keys.{bytes_eq}
use toroidal_db.Wal.Frame.{WalFrameKind}
use toroidal_db.Wal.Log.{Wal, append_many_standalone_sync}
use toroidal_db.Wal.Group.{append_many-Grouped}
use toroidal_db.Snapshot.{VersionedEntry, Snapshot, value_version, tombstone_version}
use toroidal_db.MemTable.{
  MemTable, new, validate_put, validate_delete, insert_with_seq, delete_with_seq, push_version,
  get_entry, get_visible, chain_of,
}
use toroidal_db.MemTable.Reads.{first-upsert, get_visible-push_version}
use toroidal_db.Store.{
  OpenSegment, FailurePoint, ToroidalStore, check_open, freeze, apply_op, reverse_onto, tables,
  stop_at, search, get, get_at, retention_floor, write_one, put, delete,
}

get_entry-push_version :
    (m : MemTable) (key k : Bytes) (ve : VersionedEntry)
    → get_entry (push_version m key ve) k ≡ (if bytes_eq key k then some ve else get_entry m k)
unfolding get_entry push_version
get_entry-push_version m key k ve = first-upsert key k ve m.data_

-- The version that a written operation makes.
abbrev pub key_of : WalFrameKind → Bytes
key_of (WalFrameKind.begin b) = []
key_of (WalFrameKind.put key value) = key
key_of (WalFrameKind.delete key) = key
key_of (WalFrameKind.commit b) = []

abbrev pub version_of : WalFrameKind → ℕ → VersionedEntry
version_of (WalFrameKind.begin b) seq = tombstone_version seq
version_of (WalFrameKind.put key value) seq = value_version seq value
version_of (WalFrameKind.delete key) seq = tombstone_version seq
version_of (WalFrameKind.commit b) seq = tombstone_version seq

abbrev pub Operation : WalFrameKind → Type 0
Operation (WalFrameKind.begin b) = ⊥
Operation (WalFrameKind.put key value) = Unit
Operation (WalFrameKind.delete key) = Unit
Operation (WalFrameKind.commit b) = ⊥

apply_op-push_version :
    (m m' : MemTable) (kind : WalFrameKind) (seq : ℕ)
    → Operation kind
    → apply_op m kind seq ≡ ok m'
    → m' ≡ push_version m (key_of kind) (version_of kind seq)
unfolding apply_op insert_with_seq delete_with_seq validate_put validate_delete
apply_op-push_version m m' (WalFrameKind.begin b) seq h e = elim h [ ]
apply_op-push_version m m' (WalFrameKind.put key value) seq h e = ground arith
apply_op-push_version m m' (WalFrameKind.delete key) seq h e = ground arith
apply_op-push_version m m' (WalFrameKind.commit b) seq h e = elim h [ ]

-- A search ends at the first table with a version of the key.
search_head :
    (look : MemTable → Option VersionedEntry) (read : OpenSegment → Option VersionedEntry)
    (m : MemTable) (ms : List MemTable) (segs : List OpenSegment) (o : Option VersionedEntry)
    → look m ≡ o
    → search look read (m ∷ ms) segs
      ≡ elim o [ some ve ↦ stop_at ve | none ↦ search look read ms segs ]
unfolding search
search_head look read m ms segs (some ve) e = ground arith
search_head look read m ms segs none e = ground arith

-- The active table with one more version, which a search sees or not.
search_pushed :
    (look : MemTable → Option VersionedEntry) (read : OpenSegment → Option VersionedEntry)
    (m m' : MemTable) (ms : List MemTable) (segs : List OpenSegment) (ve : VersionedEntry)
    (b : Bool)
    → look m' ≡ (if b then some ve else look m)
    → search look read (m' ∷ ms) segs ≡ (if b then stop_at ve else search look read (m ∷ ms) segs)
search_pushed look read m m' ms segs ve true e = search_head look read m' ms segs (some ve) e
search_pushed look read m m' ms segs ve false e =
    search_head look read m' ms segs (look m) e
    ∙ sym (search_head look read m ms segs (look m) refl)

get_pushed :
    (s : ToroidalStore) (w : Wal) (key k : Bytes) (ve : VersionedEntry)
    → get (record s { wal = w; active = push_version s.active key ve }) k
      ≡ (if bytes_eq key k then stop_at ve else get s k)
unfolding get tables
get_pushed s w key k ve =
    search_pushed _ _ s.active (push_version s.active key ve) (reverse_onto s.immutable [])
      s.segments ve (bytes_eq key k) (get_entry-push_version s.active key k ve)

unseen :
    (n m : ℕ) (ve : VersionedEntry) (o : Option VersionedEntry) (b : Bool)
    → m < n
    → (if b && leb n m then some ve else o) ≡ o
unseen n m ve o b h = ground arith

get_at_pushed :
    (s : ToroidalStore) (w : Wal) (snap : Snapshot) (key k : Bytes) (ve : VersionedEntry)
    → snap.sequence < ve.sequence
    → get_at (record s { wal = w; active = push_version s.active key ve }) snap k ≡ get_at s snap k
unfolding get_at tables retention_floor
get_at_pushed s w snap key k ve h =
    ap
      (λ r.
        if ltb snap.sequence (retention_floor s)
        then err (TqlError.snapshot_expired snap.sequence (retention_floor s))
        else ok r)
      (search_pushed _ _ s.active (push_version s.active key ve) (reverse_onto s.immutable [])
        s.segments ve false
        (get_visible-push_version s.active key k ve snap.sequence
          ∙ unseen _ _ ve _ (bytes_eq key k) h))

module _ (crc32 : Bytes → ℕ) (check : FailurePoint → Result (Unit {0})) where
  -- What a successful write leaves.
  pub record Written (s : ToroidalStore) (kind : WalFrameKind) (s' : ToroidalStore) : Type 0 where
    pub wal_after : Wal
    pub mem_after : MemTable
    pub seq : ℕ
    pub appended : append_many_standalone_sync crc32 s.wal (kind ∷ []) ≡ (ok seq, wal_after)
    pub applied : apply_op s.active kind seq ≡ ok mem_after
    pub after : s' ≡ record s { wal = wal_after; active = mem_after }

  write_one-Written :
      (s s' : ToroidalStore) (kind : WalFrameKind)
      → write_one crc32 check s kind ≡ (ok tt, s')
      → Written s kind s'
  unfolding write_one
  write_one-Written s s' kind e =
      elim (Result-cases (append_many_standalone_sync crc32 s.wal (kind ∷ [])).0) [
        | inr (x, q) ↦ absurd (ground arith)
        | inl (n, q) ↦ elim (Result-cases (check FailurePoint.after_wal_append)) [
          | inr (x, q2) ↦ absurd (ground arith)
          | inl (t, q2) ↦ elim (Result-cases (apply_op s.active kind n)) [
            | inr (x, q3) ↦ absurd (ground arith)
            | inl (m, q3) ↦ record {
              wal_after = (append_many_standalone_sync crc32 s.wal (kind ∷ [])).1;
              mem_after = m;
              seq = n;
              appended = ground arith;
              applied = q3;
              after = ground arith;
            }
          ]
        ]
      ]

  pub put-Written :
      (s s' : ToroidalStore) (key value : Bytes)
      → put crc32 check s key value ≡ (ok tt, s')
      → Written s (WalFrameKind.put key value) s'
  unfolding put
  put-Written s s' key value e = elim (Result-cases (validate_put key value >> check_open s)) [
    | inr (x, q) ↦ absurd (ground arith)
    | inl (t, q) ↦ write_one-Written s s' (WalFrameKind.put key value) (ground arith)
  ]

  pub delete-Written :
      (s s' : ToroidalStore) (key : Bytes)
      → delete crc32 check s key ≡ (ok tt, s')
      → Written s (WalFrameKind.delete key) s'
  unfolding delete
  delete-Written s s' key e = elim (Result-cases (validate_delete key >> check_open s)) [
    | inr (x, q) ↦ absurd (ground arith)
    | inl (t, q) ↦ write_one-Written s s' (WalFrameKind.delete key) (ground arith)
  ]

  -- Behind a successful put, `get` returns the value for its key, and for any other key what it
  -- returned before.
  pub get-put :
      (s s' : ToroidalStore) (key value k : Bytes)
      → put crc32 check s key value ≡ (ok tt, s')
      → get s' k ≡ (if bytes_eq key k then some value else get s k)
  unfolding stop_at
  get-put s s' key value k e =
      let w = put-Written s s' key value e in
      let pushed =
        apply_op-push_version s.active w.mem_after (WalFrameKind.put key value) w.seq tt
          w.applied in
      ap (λ x. get x k) (w.after ∙ ap (λ m. record s { wal = w.wal_after; active = m }) pushed)
      ∙ get_pushed s w.wal_after key k (value_version w.seq value)

  -- Behind a successful delete, `get` returns nothing for its key, whatever the older tables and the
  -- segments have, and for any other key what it returned before.
  pub get-delete :
      (s s' : ToroidalStore) (key k : Bytes)
      → delete crc32 check s key ≡ (ok tt, s')
      → get s' k ≡ (if bytes_eq key k then none else get s k)
  unfolding stop_at
  get-delete s s' key k e =
      let w = delete-Written s s' key e in
      let pushed =
        apply_op-push_version s.active w.mem_after (WalFrameKind.delete key) w.seq tt w.applied in
      ap (λ x. get x k) (w.after ∙ ap (λ m. record s { wal = w.wal_after; active = m }) pushed)
      ∙ get_pushed s w.wal_after key k (tombstone_version w.seq)

  -- A snapshot is isolated from the writes behind it: of a snapshot whose sequence is below the next
  -- one of the log, `get_at` returns the same behind a successful put as before it.
  pub get_at-put :
      (s s' : ToroidalStore) (snap : Snapshot) (key value k : Bytes)
      → s.wal.next_sequence < u64_mod
      → snap.sequence < s.wal.next_sequence
      → put crc32 check s key value ≡ (ok tt, s')
      → get_at s' snap k ≡ get_at s snap k
  get_at-put s s' snap key value k h older e =
      let w = put-Written s s' key value e in
      let pushed =
        apply_op-push_version s.active w.mem_after (WalFrameKind.put key value) w.seq tt
          w.applied in
      let (first, g) =
        append_many-Grouped crc32 s.wal (WalFrameKind.put key value ∷ []) (omega arith)
          w.appended in
      ap (λ x. get_at x snap k)
        (w.after ∙ ap (λ m. record s { wal = w.wal_after; active = m }) pushed)
      ∙ get_at_pushed s w.wal_after snap key k (value_version w.seq value) (omega (arith, first))

reverse_onto-append :
    (xs ys : List MemTable) (m : MemTable)
    → reverse_onto (xs ++ (m ∷ [])) ys ≡ m ∷ reverse_onto xs ys
unfolding reverse_onto
reverse_onto-append [] ys m = refl
reverse_onto-append (x ∷ xs) ys m = reverse_onto-append xs (x ∷ ys) m

get_entry-new : (k : Bytes) → get_entry new k ≡ none
unfolding get_entry chain_of
get_entry-new k = refl

get_visible-new : (k : Bytes) (seq : ℕ) → get_visible new k seq ≡ none
unfolding get_visible chain_of
get_visible-new k seq = refl

search_frozen :
    (look : MemTable → Option VersionedEntry) (read : OpenSegment → Option VersionedEntry)
    (s : ToroidalStore)
    → look new ≡ none
    → search look read (tables (freeze s)) s.segments ≡ search look read (tables s) s.segments
unfolding tables freeze
search_frozen look read s e =
    search_head look read new (reverse_onto (s.immutable ++ (s.active ∷ [])) []) s.segments none e
    ∙ ap (λ ms. search look read ms s.segments) (reverse_onto-append s.immutable [] s.active)

-- A freeze changes no read, neither the current ones nor those at a snapshot.
pub freeze-reads :
    (s : ToroidalStore) (snap : Snapshot) (k : Bytes)
    → (get (freeze s) k ≡ get s k) × (get_at (freeze s) snap k ≡ get_at s snap k)
unfolding get get_at freeze retention_floor
freeze-reads s snap k = (
  search_frozen _ _ s (get_entry-new k),
  ap
      (λ r.
        if ltb snap.sequence (retention_floor s)
        then err (TqlError.snapshot_expired snap.sequence (retention_floor s))
        else ok r)
      (search_frozen _ _ s (get_visible-new k snap.sequence)),
)
