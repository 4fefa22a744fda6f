-- ===== src/MemTable/Reads.antt =====
-- crates/toroidal-store/memtable.rs: the reads of a table that was filled by writes.
use toroidal_db.Base.{
  ℕ, ◌≡◌, ◌≢◌, ◌<◌, refl, sym, ap, ◌∙◌, false, ◌&&◌, Option, none, some, List, [], ◌∷◌, ◌++◌, leb,
  if◌then◌else◌, and_then, arith, inl, inr,
}
use toroidal_db.Base.Bytes.{Bytes}
use toroidal_db.Base.Keys.{bytes_eq, Key-cases}
use toroidal_db.Snapshot.{VersionedEntry}
use toroidal_db.MemTable.{
  MemTable, VersionChain, Entries, new, upsert, push_version, chain_of, first, find_visible,
  get_entry, get_visible,
}

pub Key-ne : (k l : Bytes) → k ≢ l → bytes_eq k l ≡ false
Key-ne k l ne = elim (Key-cases k l) [ inl (e, q) ↦ absurd (ne e) | inr (e, q) ↦ q ]

chain_of-upsert :
    (key k : Bytes) (ve : VersionedEntry) (d : List (Bytes × VersionChain)) (seq : ℕ)
    → and_then (chain_of k (upsert key ve d)) (find_visible seq) ≡ (
        if bytes_eq key k && leb ve.sequence seq
        then some ve
        else and_then (chain_of k d) (find_visible seq))
unfolding chain_of upsert find_visible
chain_of-upsert key k ve [] seq = ground arith
chain_of-upsert key k ve ((l, chain) ∷ d) seq =
    let rest = chain_of-upsert key k ve d seq in
    elim (Key-cases l key) [
      | inl (e, q) ↦ let q2 = ap (λ x. bytes_eq x k) e in ground arith
      | inr (ne, q) ↦ elim (Key-cases l k) [
        | inl (e2, q2) ↦ let q3 = Key-ne key k (λ e3. ne (e2 ∙ sym e3)) in ground arith
        | inr (ne2, q2) ↦ ground arith
      ]
    ]

pub first-upsert :
    (key k : Bytes) (ve : VersionedEntry) (d : List (Bytes × VersionChain))
    → and_then (chain_of k (upsert key ve d)) first
      ≡ (if bytes_eq key k then some ve else and_then (chain_of k d) first)
unfolding chain_of upsert
first-upsert key k ve [] = ground arith
first-upsert key k ve ((l, chain) ∷ d) =
    let rest = first-upsert key k ve d in
    elim (Key-cases l key) [
      | inl (e, q) ↦ let q2 = ap (λ x. bytes_eq x k) e in ground arith
      | inr (ne, q) ↦ elim (Key-cases l k) [
        | inl (e2, q2) ↦ let q3 = Key-ne key k (λ e3. ne (e2 ∙ sym e3)) in ground arith
        | inr (ne2, q2) ↦ ground arith
      ]
    ]

-- A read at a snapshot behind a write finds the written version if it is of that key and visible, and
-- what was read before otherwise.
pub get_visible-push_version :
    (m : MemTable) (key k : Bytes) (ve : VersionedEntry) (seq : ℕ)
    → get_visible (push_version m key ve) k seq
      ≡ (if bytes_eq key k && leb ve.sequence seq then some ve else get_visible m k seq)
unfolding get_visible push_version
get_visible-push_version m key k ve seq = chain_of-upsert key k ve m.data_ seq

-- The table that a history of writes fills; the newest write comes first.
unfoldable pub table : Entries → MemTable
table [] = new
table ((k, ve) ∷ ws) = push_version (table ws) k ve

-- What the history says: the newest write of the key that is visible at `seq`.
unfoldable pub newest : Bytes → ℕ → Entries → Option VersionedEntry
newest k seq [] = none
newest k seq ((l, ve) ∷ ws) =
    if bytes_eq l k && leb ve.sequence seq then some ve else newest k seq ws

-- The newest write of the key.
unfoldable pub last_write : Bytes → Entries → Option VersionedEntry
last_write k [] = none
last_write k ((l, ve) ∷ ws) = if bytes_eq l k then some ve else last_write k ws

-- The table is its history: a read at a snapshot gives the newest visible write of the key, and
-- `get_entry` gives the newest write.
pub table-reads :
    (ws : Entries) (k : Bytes) (seq : ℕ)
    → (get_visible (table ws) k seq ≡ newest k seq ws) × (get_entry (table ws) k ≡ last_write k ws)
unfolding table newest last_write get_entry get_visible chain_of push_version
table-reads [] k seq = (refl, refl)
table-reads ((l, ve) ∷ ws) k seq =
    let (a, b) = table-reads ws k seq in
    (
      chain_of-upsert l k ve (table ws).data_ seq ∙ rw a,
      first-upsert l k ve (table ws).data_ ∙ rw b,
    )

-- All writes of the history are newer than `seq`.
abbrev pub Newer : ℕ → Entries → Type 0
Newer seq [] = Unit
Newer seq ((k, ve) ∷ ws) = (seq < ve.sequence) × Newer seq ws

-- A snapshot is stable: writes with a sequence above it leave what it reads as it is.
pub get_visible-Newer :
    (ws vs : Entries) (k : Bytes) (seq : ℕ)
    → Newer seq vs
    → get_visible (table (vs ++ ws)) k seq ≡ get_visible (table ws) k seq
unfolding table
get_visible-Newer ws [] k seq h = refl
get_visible-Newer ws ((l, ve) ∷ vs) k seq (h, hs) =
    let rest = get_visible-Newer ws vs k seq hs in
    let step = get_visible-push_version (table (vs ++ ws)) l k ve seq in ground arith
