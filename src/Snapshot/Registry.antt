-- ===== src/Snapshot/Registry.antt =====
-- crates/toroidal-store/snapshot.rs: the registry follows the handles that are live. Handles are
-- taken (`new_managed`, `clone`) and dropped in any order.
use toroidal_db.Base.{
  ℕ, ◌+◌, ◌-◌, ◌≤◌, ◌<◌, ◌≡◌, refl, ap, ◌∙◌, min, true, false, Option, none, some, List, [], ◌∷◌,
  ◌++◌, ◌==◌, length, length-append, if◌then◌else◌, arith, Bool-cases, inl, inr, ◌⊎◌,
}
use toroidal_db.Base.Bytes.{u64_mod}
use toroidal_db.Snapshot.{
  SnapshotManager, no_snapshots, latest, count_up, count_down, register, unregister, lowest, floor,
  is_empty, sum_counts, active_count,
}

-- How many handles of the list have the sequence.
abbrev pub handles_at : ℕ → List ℕ → ℕ
handles_at s [] = 0
handles_at s (t ∷ hs) = (if s == t then 1 else 0) + handles_at s hs

-- The states of the registry, with the handles that are live in each; there are never 2^64 of them.
pub data Reached : SnapshotManager → List ℕ → Type 0 where
  start : Reached no_snapshots []
  taken :
      {m : SnapshotManager} {hs : List ℕ} (s : ℕ)
      → length hs + 1 < u64_mod
      → Reached m hs
      → Reached (register s m) (s ∷ hs)
  dropped :
      {m : SnapshotManager} (s : ℕ) (hs ks : List ℕ)
      → Reached m (hs ++ (s ∷ ks))
      → Reached (unregister s m) (hs ++ ks)

count_of : ℕ → List (ℕ × ℕ) → ℕ
count_of s [] = 0
count_of s ((t, n) ∷ rest) = (if s == t then n else 0) + count_of s rest

total : List (ℕ × ℕ) → ℕ
total [] = 0
total ((t, n) ∷ rest) = n + total rest

abbrev Positive : List (ℕ × ℕ) → Type 0
Positive [] = Unit
Positive ((t, n) ∷ rest) = (0 < n) × Positive rest

count_of-count_up :
    (s t : ℕ) (a : List (ℕ × ℕ))
    → total a + 1 < u64_mod
    → count_of t (count_up s a) ≡ (if t == s then 1 else 0) + count_of t a
unfolding count_of count_up total
count_of-count_up s t [] h = ground arith
count_of-count_up s t ((u, n) ∷ a) h =
    let rest = count_of-count_up s t a (omega arith) in ground arith

total-count_up :
    (s : ℕ) (a : List (ℕ × ℕ)) → total a + 1 < u64_mod → total (count_up s a) ≡ total a + 1
unfolding count_up total
total-count_up s [] h = refl
total-count_up s ((u, n) ∷ a) h = let rest = total-count_up s a (omega arith) in ground arith

count_up-Positive :
    (s : ℕ) (a : List (ℕ × ℕ)) → total a + 1 < u64_mod → Positive a → Positive (count_up s a)
unfolding count_up total
count_up-Positive s [] h p = (omega arith, tt)
count_up-Positive s ((u, n) ∷ a) h (p, ps) =
    let rest = count_up-Positive s a (omega arith) ps in ground arith

count_of-count_down :
    (s t : ℕ) (a : List (ℕ × ℕ))
    → Positive a
    → 0 < count_of s a
    → count_of t (count_down s a) ≡ count_of t a - (if t == s then 1 else 0)
unfolding count_of count_down
count_of-count_down s t [] p h = absurd (omega arith)
count_of-count_down s t ((u, n) ∷ a) (q, p) h = elim (Bool-cases (s == u)) [
  | inl here ↦ ground arith
  | inr there ↦ let rest = count_of-count_down s t a p (ground arith) in ground arith
]

total-count_down :
    (s : ℕ) (a : List (ℕ × ℕ))
    → Positive a
    → 0 < count_of s a
    → total (count_down s a) + 1 ≡ total a
unfolding count_of count_down total
total-count_down s [] p h = absurd (omega arith)
total-count_down s ((u, n) ∷ a) (q, p) h = elim (Bool-cases (s == u)) [
  | inl here ↦ ground arith
  | inr there ↦ let rest = total-count_down s a p (ground arith) in ground arith
]

count_down-Positive : (s : ℕ) (a : List (ℕ × ℕ)) → Positive a → Positive (count_down s a)
unfolding count_down
count_down-Positive s [] p = tt
count_down-Positive s ((u, n) ∷ a) (q, p) = let rest = count_down-Positive s a p in ground arith

sum_counts-total : (a : List (ℕ × ℕ)) → total a < u64_mod → sum_counts a ≡ total a
unfolding sum_counts total
sum_counts-total [] h = refl
sum_counts-total ((t, n) ∷ a) h = let rest = sum_counts-total a (omega arith) in omega arith

lowest_lem :
    (a : List (ℕ × ℕ))
    → Positive a
    → ((a ≡ []) × (lowest a ≡ none))
      ⊎ ((u : ℕ) × (lowest a ≡ some u) × (0 < count_of u a) × ((s : ℕ) → 0 < count_of s a → u ≤ s))
unfolding lowest count_of
lowest_lem [] p = inl (refl, refl)
lowest_lem ((t, n) ∷ a) (q, p) = elim (lowest_lem a p) [
  | inl (e, none_lem) ↦
      let none_of : (s : ℕ) → count_of s a ≡ 0 = λ s. ap (count_of s) e in
      inr (t, rw none_lem, ground arith, λ s h. let z = none_of s in ground arith)
  | inr (u, some_lem, pos, least) ↦
      inr (min t u, rw some_lem, ground arith, λ s h. let z = least s in ground arith)
]

handles_at-append :
    (s : ℕ) (hs ks : List ℕ) → handles_at s (hs ++ ks) ≡ handles_at s hs + handles_at s ks
handles_at-append s [] ks = omega arith
handles_at-append s (t ∷ hs) ks = let rest = handles_at-append s hs ks in omega arith

count_of_nil : (s : ℕ) → count_of s [] ≡ 0
unfolding count_of
count_of_nil s = refl

-- What the registry keeps: the count of each sequence is that of its handles.
record Counts (m : SnapshotManager) (hs : List ℕ) : Type 0 where
  positive : Positive m.active
  total_lem : total m.active ≡ length hs
  few : length hs < u64_mod
  each : (s : ℕ) → count_of s m.active ≡ handles_at s hs

held : (a b s n : ℕ) → n ≡ a + ((if s == s then 1 else 0) + b) → 0 < n
held a b s n h = ground arith

left :
    (t s n all new a b : ℕ)
    → n ≡ all
    → all ≡ a + ((if t == s then 1 else 0) + b)
    → new ≡ a + b
    → n - (if t == s then 1 else 0) ≡ new
left t s n all new a b h k e = ground arith

Reached-Counts : {m : SnapshotManager} {hs : List ℕ} → Reached m hs → Counts m hs
unfolding register unregister count_of total
Reached-Counts Reached.start = record {
  positive = tt;
  total_lem = refl;
  few = omega arith;
  each = λ s. refl;
}
Reached-Counts (Reached.taken {m = m} {hs = hs} s h r) =
    let c = Reached-Counts r in
    let room : total m.active + 1 < u64_mod = omega (arith, c.total_lem) in
    record {
      positive = count_up-Positive s m.active room c.positive;
      total_lem = omega (arith, total-count_up s m.active room, c.total_lem);
      few = omega arith;
      each =
          λ t. count_of-count_up s t m.active room ∙ ap (◌+◌ (if t == s then 1 else 0)) (c.each t);
    }
Reached-Counts (Reached.dropped {m = m} s hs ks r) =
    let c = Reached-Counts r in
    let here : 0 < count_of s m.active =
      held (handles_at s hs) (handles_at s ks) s _ (c.each s ∙ handles_at-append s hs (s ∷ ks)) in
    let fewer = total-count_down s m.active c.positive here in
    let size = length-append hs (s ∷ ks) in
    let size2 = length-append hs ks in
    record {
      positive = count_down-Positive s m.active c.positive;
      total_lem = omega (arith, fewer, size, size2, c.total_lem);
      few = omega (arith, size, size2, c.few);
      each = λ t.
          let old = c.each t in
          let a = handles_at-append t hs (s ∷ ks) in
          let b = handles_at-append t hs ks in
          count_of-count_down s t m.active c.positive here ∙ left t s _ _ _ _ _ old a b;
    }

floor_lem :
    (a : List (ℕ × ℕ)) (o : Option ℕ)
    → lowest a ≡ o
    → floor (record { active = a }) ≡ elim o [ none ↦ latest | some u ↦ u ]
unfolding floor
floor_lem a o e = rw (floor, e) refl

is_empty_lem :
    (a : List (ℕ × ℕ)) (s : ℕ) → 0 < count_of s a → is_empty (record { active = a }) ≡ false
unfolding is_empty count_of
is_empty_lem [] s h = absurd (omega arith)
is_empty_lem (x ∷ a) s h = refl

is_empty_nil : (m : SnapshotManager) → m.active ≡ [] → is_empty m ≡ true
unfolding is_empty
is_empty_nil m e = ap (λ a. is_empty (record { active = a })) e

-- While handles are live, the registry counts them, its floor is the lowest sequence of a handle, and
-- it is not empty. It is shown of the handles at any sequence `s`.
pub Reached-floor :
    (m : SnapshotManager) (hs : List ℕ) (s : ℕ)
    → Reached m hs
    → 0 < handles_at s hs
    → (active_count m ≡ length hs)
      × (floor m ≤ s)
      × (0 < handles_at (floor m) hs)
      × (is_empty m ≡ false)
unfolding active_count
Reached-floor m hs s r h =
    let c = Reached-Counts r in
    let here : 0 < count_of s m.active = omega (arith, c.each s) in
    let counted = sum_counts-total m.active (omega (arith, c.total_lem, c.few)) ∙ c.total_lem in
    elim (lowest_lem m.active c.positive) [
      | inl (e, none_lem) ↦ absurd (omega (arith, ap (count_of s) e, count_of_nil s))
      | inr (u, some_lem, pos, least) ↦
          let low = floor_lem m.active (some u) some_lem in
          (
            counted,
            omega (arith, low, least s here),
            rw low (omega (arith, c.each u)),
            is_empty_lem m.active s here,
          )
    ]

-- With no live handle the floor is `LATEST`, the registry is empty and counts 0.
pub Reached-none :
    (m : SnapshotManager)
    → Reached m []
    → (active_count m ≡ 0) × (floor m ≡ latest) × (is_empty m ≡ true)
unfolding active_count
Reached-none m r =
    let c = Reached-Counts r in
    let counted = sum_counts-total m.active (omega (arith, c.total_lem, c.few)) ∙ c.total_lem in
    elim (lowest_lem m.active c.positive) [
      | inl (e, none_lem) ↦ (counted, floor_lem m.active none none_lem, is_empty_nil m e)
      | inr (u, some_lem, pos, least) ↦ absurd (omega (arith, c.each u))
    ]
