-- ===== src/Segment/Open/Versions.antt =====
-- crates/toroidal-store/segment.rs: the versions of a key, in the entries that are written and in the map that is read.
use toroidal_db.Base.{
  ℕ, ◌≡◌, ◌≤◌, ◌<◌, refl, sym, ap, subst, ◌∙◌, true, false, Option, none, some, List, [], ◌∷◌, ◌++◌,
  if◌then◌else◌, arith, inl, inr, append_assoc, append-nil, Option-cases, Bool-cases,
}
use toroidal_db.Base.Bytes.{Bytes}
use toroidal_db.Base.Keys.{bytes_eq, bytes_lt, Key-cases}
use toroidal_db.Snapshot.{VersionedEntry}
use toroidal_db.MemTable.{
  VersionChain, Entries, chain_of, first, find_visible, insert_by_key, upsert, chain_entries,
  all_entries, version_before, scan_all_versions, push_version, SortBy,
}
use toroidal_db.MemTable.Sort.{PutIn, Rearranged, NoneBefore, Sorted, Sorts, not_before}
use toroidal_db.MemTable.Reads.{Key-ne, table, newest, last_write}
use toroidal_db.Segment.Open.{SegmentMap, append_version, push_entry}
use toroidal_db.Segment.Open.Entries.{push_all}

-- The versions of the key among the entries, in their order.
unfoldable pub versions : Bytes → Entries → VersionChain
versions k [] = []
versions k ((l, ve) ∷ es) = let rest = versions k es in if bytes_eq l k then ve ∷ rest else rest

abbrev pub or_nil : Option VersionChain → VersionChain
or_nil none = []
or_nil (some chain) = chain

chain_of-append_version :
    (key k : Bytes) (ve : VersionedEntry) (m : SegmentMap) (chain : VersionChain)
    → chain_of key m ≡ some chain
    → or_nil (chain_of k (append_version key ve m))
      ≡ or_nil (chain_of k m) ++ versions k ((key, ve) ∷ [])
unfolding chain_of append_version versions
chain_of-append_version key k ve [] chain h = absurd (ground arith)
chain_of-append_version key k ve ((l, c) ∷ m) chain h = elim (Key-cases l key) [
  | inl (e, q) ↦
      let q2 = ap (λ x. bytes_eq x k) e in
      elim (Bool-cases (bytes_eq l k)) [
        | inl t ↦ let u = sym q2 ∙ t in rw (q, t, u) refl
        | inr t ↦ let u = sym q2 ∙ t in rw (q, t, u) (sym (append-nil _))
      ]
  | inr (ne, q) ↦ elim (Key-cases l k) [
    | inl (e, t) ↦ let u = Key-ne key k (λ e2. ne (e ∙ sym e2)) in rw (q, t, u) (sym (append-nil _))
    | inr (ne2, t) ↦
        let rest = chain_of-append_version key k ve m chain (ground arith) in rw (q, t) rest
  ]
]

chain_of-insert_by_key :
    (key k : Bytes) (ve : VersionedEntry) (m : SegmentMap)
    → chain_of key m ≡ none
    → or_nil (chain_of k (insert_by_key key (ve ∷ []) m))
      ≡ or_nil (chain_of k m) ++ versions k ((key, ve) ∷ [])
unfolding chain_of insert_by_key versions
chain_of-insert_by_key key k ve [] h = elim (Bool-cases (bytes_eq key k)) [
  | inl t ↦ rw t refl
  | inr t ↦ rw t refl
]
chain_of-insert_by_key key k ve ((l, c) ∷ m) h = elim (Key-cases l key) [
  | inl (e, q) ↦ absurd (ground arith)
  | inr (ne, q) ↦
      let absent : chain_of key m ≡ none = ground arith in
      elim (Bool-cases (bytes_lt l key)) [
        | inl before ↦ elim (Key-cases l k) [
          | inl (e, t) ↦
              let u = Key-ne key k (λ e2. ne (e ∙ sym e2)) in rw (before, t, u) (sym (append-nil _))
          | inr (ne2, t) ↦ rw (before, t) (chain_of-insert_by_key key k ve m absent)
        ]
        | inr behind ↦ elim (Key-cases key k) [
          | inl (e, t) ↦
              let none_there : chain_of k ((l, c) ∷ m) ≡ none =
                ap (λ x. chain_of x ((l, c) ∷ m)) (sym e) ∙ h in
              rw (behind, t, ap or_nil none_there) refl
          | inr (ne2, t) ↦ rw (behind, t) (sym (append-nil _))
        ]
      ]
]

chain_of-push_entry :
    (key k : Bytes) (ve : VersionedEntry) (m : SegmentMap)
    → or_nil (chain_of k (push_entry key ve m))
      ≡ or_nil (chain_of k m) ++ versions k ((key, ve) ∷ [])
unfolding push_entry
chain_of-push_entry key k ve m = elim (Option-cases (chain_of key m)) [
  | inl e ↦ rw (push_entry, e) (chain_of-insert_by_key key k ve m e)
  | inr (chain, e) ↦ rw (push_entry, e) (chain_of-append_version key k ve m chain e)
]

versions-cons :
    (k key : Bytes) (ve : VersionedEntry) (es : Entries)
    → versions k ((key, ve) ∷ es) ≡ versions k ((key, ve) ∷ []) ++ versions k es
unfolding versions
versions-cons k key ve es = elim (Bool-cases (bytes_eq key k)) [
  | inl t ↦ rw t refl
  | inr t ↦ rw t refl
]

chain_of-push_all :
    (k : Bytes) (es : Entries) (m : SegmentMap)
    → or_nil (chain_of k (push_all es m)) ≡ or_nil (chain_of k m) ++ versions k es
unfolding push_all versions
chain_of-push_all k [] m = sym (append-nil _)
chain_of-push_all k ((key, ve) ∷ es) m =
    chain_of-push_all k es (push_entry key ve m)
    ∙ ap (λ t. t ++ versions k es) (chain_of-push_entry key k ve m)
    ∙ append_assoc (or_nil (chain_of k m)) (versions k ((key, ve) ∷ [])) (versions k es)
    ∙ ap (λ t. or_nil (chain_of k m) ++ t) (sym (versions-cons k key ve es))

-- What a map of pushed entries has for a key.
pub push_all-versions :
    (k : Bytes) (es : Entries) → or_nil (chain_of k (push_all es [])) ≡ versions k es
unfolding chain_of
push_all-versions k es = chain_of-push_all k es []

-- No version of the list is newer than `seq`.
abbrev AllUpTo : ℕ → VersionChain → Type 0
AllUpTo seq [] = Unit
AllUpTo seq (ve ∷ chain) = (ve.sequence ≤ seq) × AllUpTo seq chain

-- Every version of the list is older than `seq`.
abbrev pub AllBelow : ℕ → VersionChain → Type 0
AllBelow seq [] = Unit
AllBelow seq (ve ∷ chain) = (ve.sequence < seq) × AllBelow seq chain

-- No version is newer than those in front of it.
abbrev NoneRises : VersionChain → Type 0
NoneRises [] = Unit
NoneRises (ve ∷ chain) = AllUpTo ve.sequence chain × NoneRises chain

-- Every version is older than those in front of it.
abbrev pub NewestFirst : VersionChain → Type 0
NewestFirst [] = Unit
NewestFirst (ve ∷ chain) = AllBelow ve.sequence chain × NewestFirst chain

PutIn-AllUpTo :
    {ve : VersionedEntry} {cs ds : VersionChain} (seq : ℕ)
    → PutIn ve cs ds
    → AllUpTo seq cs
    → (ve.sequence ≤ seq) × AllUpTo seq ds
PutIn-AllUpTo seq PutIn.here (h, hs) = (h, hs)
PutIn-AllUpTo seq (PutIn.there p) (h, hs) =
    let (le, more) = PutIn-AllUpTo seq p hs in (le, (h, more))

PutIn-NoneRises :
    {ve : VersionedEntry} {cs ds : VersionChain} → PutIn ve cs ds → NoneRises cs → NoneRises ds
PutIn-NoneRises PutIn.here (h, hs) = hs
PutIn-NoneRises (PutIn.there {y = y} p) (h, hs) =
    ((PutIn-AllUpTo y.sequence p h).1, PutIn-NoneRises p hs)

PutIn-front :
    {ve : VersionedEntry} {cs ds : VersionChain}
    → PutIn ve cs ds
    → AllBelow ve.sequence ds
    → NoneRises cs
    → cs ≡ ve ∷ ds
PutIn-front PutIn.here h r = refl
PutIn-front (PutIn.there {y = y} p) (h, hs) (r, rs) =
    let le = (PutIn-AllUpTo y.sequence p r).0 in absurd (omega arith)

-- Versions of different sequences have one order in which none is newer than those in front of it.
Rearranged-same :
    {cs ds : VersionChain} → Rearranged cs ds → NewestFirst cs → NoneRises ds → ds ≡ cs
Rearranged-same Rearranged.none_left h r = refl
Rearranged-same (Rearranged.one_more {x = x} p rest) (h, hs) r =
    let same = Rearranged-same rest hs (PutIn-NoneRises p r) in
    PutIn-front p (subst (AllBelow x.sequence) (sym same) h) r ∙ ap (◌∷◌ x) same

PutIn-versions :
    (k l : Bytes) (ve : VersionedEntry) {es fs : Entries}
    → bytes_eq l k ≡ true
    → PutIn (l, ve) es fs
    → PutIn ve (versions k es) (versions k fs)
unfolding versions
PutIn-versions k l ve h PutIn.here = rw h PutIn.here
PutIn-versions k l ve h (PutIn.there {y = (m, w)} p) =
    let rest = PutIn-versions k l ve h p in
    elim (Bool-cases (bytes_eq m k)) [ inl t ↦ rw t (PutIn.there rest) | inr t ↦ rw t rest ]

PutIn-versions_other :
    (k l : Bytes) (ve : VersionedEntry) {es fs : Entries}
    → bytes_eq l k ≡ false
    → PutIn (l, ve) es fs
    → versions k es ≡ versions k fs
unfolding versions
PutIn-versions_other k l ve h PutIn.here = rw h refl
PutIn-versions_other k l ve h (PutIn.there {y = (m, w)} p) =
    let rest = PutIn-versions_other k l ve h p in
    elim (Bool-cases (bytes_eq m k)) [ inl t ↦ rw t (ap (◌∷◌ w) rest) | inr t ↦ rw t rest ]

Rearranged-versions :
    (k : Bytes) {es fs : Entries} → Rearranged es fs → Rearranged (versions k es) (versions k fs)
unfolding versions
Rearranged-versions k Rearranged.none_left = Rearranged.none_left
Rearranged-versions k (Rearranged.one_more {x = (l, ve)} {xs = xs} p rest) =
    let more = Rearranged-versions k rest in
    elim (Bool-cases (bytes_eq l k)) [
      | inl t ↦ rw t (Rearranged.one_more (PutIn-versions k l ve t p) more)
      | inr t ↦
          rw t (subst (Rearranged (versions k xs)) (sym (PutIn-versions_other k l ve t p)) more)
    ]

NoneBefore-versions :
    (k l : Bytes) (ve : VersionedEntry) (es : Entries)
    → l ≡ k
    → NoneBefore (l, ve) es
    → AllUpTo ve.sequence (versions k es)
unfolding versions
NoneBefore-versions k l ve [] e n = tt
NoneBefore-versions k l ve ((m, w) ∷ es) e (h, hs) =
    let rest = NoneBefore-versions k l ve es e hs in
    elim (Key-cases m k) [
      | inl (e2, t) ↦ rw t ((not_before m l w ve h).1 (e2 ∙ sym e), rest)
      | inr (ne, t) ↦ rw t rest
    ]

Sorted-versions : (k : Bytes) (es : Entries) → Sorted es → NoneRises (versions k es)
unfolding versions
Sorted-versions k [] s = tt
Sorted-versions k ((l, ve) ∷ es) (n, s) = elim (Key-cases l k) [
  | inl (e, t) ↦ rw t (NoneBefore-versions k l ve es e n, Sorted-versions k es s)
  | inr (ne, t) ↦ rw t (Sorted-versions k es s)
]

versions-append :
    (k : Bytes) (es fs : Entries) → versions k (es ++ fs) ≡ versions k es ++ versions k fs
unfolding versions
versions-append k [] fs = refl
versions-append k ((key, ve) ∷ es) fs =
    let rest = versions-append k es fs in
    elim (Bool-cases (bytes_eq key k)) [ inl t ↦ rw (t, rest) refl | inr t ↦ rw (t, rest) refl ]

versions-chain_entries :
    (k l : Bytes) (chain : VersionChain)
    → bytes_eq l k ≡ false
    → versions k (chain_entries l chain) ≡ []
unfolding versions chain_entries
versions-chain_entries k l [] h = refl
versions-chain_entries k l (ve ∷ chain) h = rw h (versions-chain_entries k l chain h)

all_entries-upsert :
    (k key : Bytes) (ve : VersionedEntry) (d : List (Bytes × VersionChain))
    → versions k (all_entries (upsert key ve d))
      ≡ versions k ((key, ve) ∷ []) ++ versions k (all_entries d)
unfolding upsert all_entries chain_entries versions
all_entries-upsert k key ve [] = sym (append-nil _)
all_entries-upsert k key ve ((l, c) ∷ d) = elim (Key-cases l key) [
  | inl (e, q) ↦
      let q2 = ap (λ x. bytes_eq x k) e in
      elim (Bool-cases (bytes_eq l k)) [
        | inl t ↦ let u = sym q2 ∙ t in rw (q, t, u) refl
        | inr t ↦ let u = sym q2 ∙ t in rw (q, t, u) refl
      ]
  | inr (ne, q) ↦
      let rest = all_entries-upsert k key ve d in
      let apart = versions-append k (chain_entries l c) (all_entries (upsert key ve d)) in
      let joined = versions-append k (chain_entries l c) (all_entries d) in
      elim (Key-cases l k) [
        | inl (e, t) ↦
            let u = Key-ne key k (λ e2. ne (e ∙ sym e2)) in
            let rest' : versions k (all_entries (upsert key ve d)) ≡ versions k (all_entries d) =
              rw u at rest in
            rw (q, u) (apart ∙ ap (λ t. versions k (chain_entries l c) ++ t) rest' ∙ sym joined)
        | inr (ne2, t) ↦
            let gone = versions-chain_entries k l c t in
            let apart' : versions k (chain_entries l c ++ all_entries (upsert key ve d))
                ≡ versions k (all_entries (upsert key ve d)) =
              apart ∙ ap (λ t. t ++ versions k (all_entries (upsert key ve d))) gone in
            let joined' : versions k (chain_entries l c ++ all_entries d)
                ≡ versions k (all_entries d) =
              joined ∙ ap (λ t. t ++ versions k (all_entries d)) gone in
            rw q (apart' ∙ rest ∙ ap (λ t. versions k ((key, ve) ∷ []) ++ t) (sym joined'))
      ]
]

-- The table of a history has the versions that the history wrote.
all_entries-table :
    (k : Bytes) (ws : Entries) → versions k (all_entries (table ws).data_) ≡ versions k ws
unfolding table push_version all_entries versions
all_entries-table k [] = refl
all_entries-table k ((key, ve) ∷ ws) =
    all_entries-upsert k key ve (table ws).data_
    ∙ ap (λ t. versions k ((key, ve) ∷ []) ++ t) (all_entries-table k ws)
    ∙ sym (versions-cons k key ve ws)

-- The entries that a table is written with have, for each key, the versions that the history wrote, if every write of a
-- key has a higher sequence than those before it.
pub scan_all_versions-table :
    (sort_unstable_by : SortBy)
    → Sorts sort_unstable_by
    → (k : Bytes) (ws : Entries) → NewestFirst (versions k ws)
    → versions k (scan_all_versions sort_unstable_by (table ws)) ≡ versions k ws
unfolding scan_all_versions
scan_all_versions-table sort_unstable_by sorts k ws h =
    let same = all_entries-table k ws in
    let es = all_entries (table ws).data_ in
    let (moved, sorted) = sorts es in
    Rearranged-same (Rearranged-versions k moved) (subst NewestFirst (sym same) h)
      (Sorted-versions k (sort_unstable_by version_before es) sorted)
    ∙ same

pub first-versions : (k : Bytes) (ws : Entries) → first (versions k ws) ≡ last_write k ws
unfolding versions last_write
first-versions k [] = refl
first-versions k ((l, ve) ∷ ws) = elim (Bool-cases (bytes_eq l k)) [
  | inl t ↦ rw t refl
  | inr t ↦ rw t (first-versions k ws)
]

pub find_visible-versions :
    (k : Bytes) (seq : ℕ) (ws : Entries) → find_visible seq (versions k ws) ≡ newest k seq ws
unfolding versions newest find_visible
find_visible-versions k seq [] = refl
find_visible-versions k seq ((l, ve) ∷ ws) =
    let rest = find_visible-versions k seq ws in
    elim (Bool-cases (bytes_eq l k)) [ inl t ↦ rw (t, rest) refl | inr t ↦ rw (t, rest) refl ]
