-- ===== src/Segment/Bloom/Members.antt =====
-- crates/toroidal-store/segment.rs: the Bloom filter of a segment has no false negatives.
use Prim.Native.Nat.{bit_and, bit_or}
use toroidal_db.Base.{
  ℕ, zero, suc, ◌+◌, ◌/◌, ◌%◌, ◌^◌, ◌<◌, ◌≡◌, ◌≢◌, refl, max, ap, sym, ◌∙◌, true, false, none, some,
  [], ◌∷◌, length, get_elem?, ltb, lt→ltb, ◌==◌, arith, Bool-cases, Option-cases, inl, inr,
}
use toroidal_db.Base.Bits.{bit_and-bit_or, bit_and-bit_or_keep}
use toroidal_db.Base.Bytes.{Bytes}
use toroidal_db.MemTable.{Entries}
use toroidal_db.Segment.Bloom.{
  BloomFilter, bit_index, set_byte, set_bit, has_bit, set_bits, has_bits, bloom_insert,
  bloom_contains, zeros, insert_keys, new_bloom,
}

-- A filter that can hold keys.
pub record Ready (f : BloomFilter) : Type 0 where
  pub hashes : 0 < f.k
  pub room : 0 < length f.bits

length-set_byte : (n bit : ℕ) (bits : Bytes) → length (set_byte n bit bits) ≡ length bits
unfolding set_byte
length-set_byte n bit [] = refl
length-set_byte zero bit (b ∷ bs) = refl
length-set_byte (suc n) bit (b ∷ bs) = ap suc (length-set_byte n bit bs)

length-set_bits :
    (key : Bytes) (m n i : ℕ) (bits : Bytes) → length (set_bits key m n i bits) ≡ length bits
unfolding set_bits
length-set_bits key m zero i bits = refl
length-set_bits key m (suc n) i bits =
    length-set_bits key m n (i + 1) (set_bit (bit_index key i m) bits)
    ∙ length-set_byte (bit_index key i m / 8) (2 ^ (bit_index key i m % 8)) bits

-- The byte that was set.
get_elem?-set_byte :
    (n bit : ℕ) (bits : Bytes)
    → get_elem? (set_byte n bit bits) n
      ≡ elim (get_elem? bits n) [ none ↦ none | some b ↦ some (bit_or b bit) ]
unfolding set_byte
get_elem?-set_byte n bit [] = refl
get_elem?-set_byte zero bit (b ∷ bs) = refl
get_elem?-set_byte (suc n) bit (b ∷ bs) = get_elem?-set_byte n bit bs

get_elem?-set_byte_ne :
    (n j bit : ℕ) (bits : Bytes) → n ≢ j → get_elem? (set_byte n bit bits) j ≡ get_elem? bits j
unfolding set_byte
get_elem?-set_byte_ne n j bit [] h = refl
get_elem?-set_byte_ne zero zero bit (b ∷ bs) h = absurd (h refl)
get_elem?-set_byte_ne zero (suc j) bit (b ∷ bs) h = refl
get_elem?-set_byte_ne (suc n) zero bit (b ∷ bs) h = refl
get_elem?-set_byte_ne (suc n) (suc j) bit (b ∷ bs) h =
    get_elem?-set_byte_ne n j bit bs (λ e. h (ap suc e))

has_bit-set_bit : (idx : ℕ) (bits : Bytes) → has_bit idx (set_bit idx bits) ≡ true
unfolding has_bit
has_bit-set_bit idx bits = elim (Option-cases (get_elem? bits (idx / 8))) [
  | inl e ↦ rw (has_bit, get_elem?-set_byte (idx / 8) (2 ^ (idx % 8)) bits, e) refl
  | inr (b, e) ↦
      rw (has_bit, get_elem?-set_byte (idx / 8) (2 ^ (idx % 8)) bits, e)
        (lt→ltb 0 _ (bit_and-bit_or (idx % 8) b))
]

has_bit-set_bit_keep :
    (i j : ℕ) (bits : Bytes) → has_bit j bits ≡ true → has_bit j (set_bit i bits) ≡ true
unfolding has_bit
has_bit-set_bit_keep i j bits h = elim (Bool-cases ((i / 8) == (j / 8))) [
  | inr other ↦
      let ne : (i / 8) ≢ (j / 8) = grind arith in
      rw (has_bit, get_elem?-set_byte_ne (i / 8) (j / 8) (2 ^ (i % 8)) bits ne) h
  | inl same ↦
      let e : (i / 8) ≡ (j / 8) = ground arith in
      rw e (elim (Option-cases (get_elem? bits (j / 8))) [
        | inl q ↦ rw (has_bit, get_elem?-set_byte (j / 8) (2 ^ (i % 8)) bits, q) refl
        | inr (b, q) ↦
            let old : ltb 0 (bit_and b (2 ^ (j % 8))) ≡ true = rw (has_bit, q) at h in
            let was : 0 < bit_and b (2 ^ (j % 8)) = grind arith in
            rw (has_bit, get_elem?-set_byte (j / 8) (2 ^ (i % 8)) bits, q)
              (lt→ltb 0 _ (bit_and-bit_or_keep (i % 8) (j % 8) b was))
      ])
]

has_bit-set_bits :
    (key : Bytes) (m n i j : ℕ) (bits : Bytes)
    → has_bit j bits ≡ true
    → has_bit j (set_bits key m n i bits) ≡ true
unfolding set_bits
has_bit-set_bits key m zero i j bits h = h
has_bit-set_bits key m (suc n) i j bits h =
    has_bit-set_bits key m n (i + 1) j (set_bit (bit_index key i m) bits)
      (has_bit-set_bit_keep (bit_index key i m) j bits h)

has_bits-set_bits :
    (key : Bytes) (m n i : ℕ) (bits : Bytes) → has_bits key m n i (set_bits key m n i bits) ≡ true
unfolding set_bits has_bits
has_bits-set_bits key m zero i bits = refl
has_bits-set_bits key m (suc n) i bits =
    let idx = bit_index key i m in
    rw
      (
        has_bit-set_bits key m n (i + 1) idx (set_bit idx bits) (has_bit-set_bit idx bits),
        has_bits-set_bits key m n (i + 1) (set_bit idx bits),
      )
      refl

has_bits-set_bits_keep :
    (key other : Bytes) (m n i o p : ℕ) (bits : Bytes)
    → has_bits key m n i bits ≡ true
    → has_bits key m n i (set_bits other m o p bits) ≡ true
unfolding has_bits
has_bits-set_bits_keep key other m zero i o p bits h = refl
has_bits-set_bits_keep key other m (suc n) i o p bits h =
    let here : has_bit (bit_index key i m) bits ≡ true = ground arith in
    let rest : has_bits key m n (i + 1) bits ≡ true = ground arith in
    rw
      (
        has_bit-set_bits other m o p (bit_index key i m) bits here,
        has_bits-set_bits_keep key other m n (i + 1) o p bits rest,
      )
      refl

open_test :
    (key : Bytes) (f : BloomFilter) → Ready f → bloom_contains key f ≡ has_bits key f.m f.k 0 f.bits
unfolding bloom_contains
open_test key f r =
    let k : (f.k == 0) ≡ false = grind (arith, r.hashes) in
    let l : (length f.bits == 0) ≡ false = grind (arith, r.room) in rw (k, l) refl

bloom_insert-Ready : (key : Bytes) (f : BloomFilter) → Ready f → Ready (bloom_insert key f)
unfolding bloom_insert
bloom_insert-Ready key f r =
    let k : (f.k == 0) ≡ false = grind (arith, r.hashes) in
    rw (bloom_insert, k)
      (record {
        hashes = r.hashes;
        room = omega (arith, r.room, length-set_bits key f.m f.k 0 f.bits);
      })

-- What an insertion leaves as it is.
bloom_insert-sizes :
    (key : Bytes) (f : BloomFilter)
    → ((bloom_insert key f).k ≡ f.k)
      × ((bloom_insert key f).m ≡ f.m)
      × (length (bloom_insert key f).bits ≡ length f.bits)
unfolding bloom_insert
bloom_insert-sizes key f = elim (Bool-cases (f.k == 0)) [
  | inl t ↦ rw (bloom_insert, t) (refl, refl, refl)
  | inr t ↦ rw (bloom_insert, t) (refl, refl, length-set_bits key f.m f.k 0 f.bits)
]

pub insert_keys-sizes :
    (entries : Entries) (f : BloomFilter)
    → ((insert_keys entries f).k ≡ f.k)
      × ((insert_keys entries f).m ≡ f.m)
      × (length (insert_keys entries f).bits ≡ length f.bits)
unfolding insert_keys
insert_keys-sizes [] f = (refl, refl, refl)
insert_keys-sizes ((key, ve) ∷ rest) f =
    let (k, m, n) = bloom_insert-sizes key f in
    let (k', m', n') = insert_keys-sizes rest (bloom_insert key f) in (k' ∙ k, m' ∙ m, n' ∙ n)

bloom_contains-bloom_insert :
    (key : Bytes) (f : BloomFilter) → Ready f → bloom_contains key (bloom_insert key f) ≡ true
unfolding bloom_insert
bloom_contains-bloom_insert key f r =
    let k : (f.k == 0) ≡ false = grind (arith, r.hashes) in
    open_test key (bloom_insert key f) (bloom_insert-Ready key f r)
    ∙ rw k (has_bits-set_bits key f.m f.k 0 f.bits)

bloom_contains-bloom_insert_keep :
    (key other : Bytes) (f : BloomFilter)
    → Ready f
    → bloom_contains key f ≡ true
    → bloom_contains key (bloom_insert other f) ≡ true
unfolding bloom_insert
bloom_contains-bloom_insert_keep key other f r h =
    let k : (f.k == 0) ≡ false = grind (arith, r.hashes) in
    open_test key (bloom_insert other f) (bloom_insert-Ready other f r)
    ∙ rw k (has_bits-set_bits_keep key other f.m f.k 0 f.k 0 f.bits (sym (open_test key f r) ∙ h))

insert_keys_keep :
    (key : Bytes) (entries : Entries) (f : BloomFilter)
    → Ready f
    → bloom_contains key f ≡ true
    → bloom_contains key (insert_keys entries f) ≡ true
unfolding insert_keys
insert_keys_keep key [] f r h = h
insert_keys_keep key ((other, ve) ∷ rest) f r h =
    insert_keys_keep key rest (bloom_insert other f) (bloom_insert-Ready other f r)
      (bloom_contains-bloom_insert_keep key other f r h)

-- Every key of the entries passes the filter.
abbrev pub AllPass : BloomFilter → Entries → Type 0
AllPass f [] = Unit
AllPass f ((key, ve) ∷ rest) = (bloom_contains key f ≡ true) × AllPass f rest

insert_keys-AllPass :
    (entries : Entries) (f : BloomFilter) → Ready f → AllPass (insert_keys entries f) entries
unfolding insert_keys
insert_keys-AllPass [] f r = tt
insert_keys-AllPass ((key, ve) ∷ rest) f r =
    let r' = bloom_insert-Ready key f r in
    (
      insert_keys_keep key rest (bloom_insert key f) r' (bloom_contains-bloom_insert key f r),
      insert_keys-AllPass rest (bloom_insert key f) r',
    )

pub length-zeros : (n : ℕ) → length (zeros n) ≡ n
unfolding zeros
length-zeros zero = refl
length-zeros (suc n) = ap suc (length-zeros n)

module _ (optimal_bits : ℕ → ℕ) (optimal_hashes : ℕ → ℕ → ℕ) where
  new_bloom-Ready : (n : ℕ) → Ready (new_bloom optimal_bits optimal_hashes (suc n))
  unfolding new_bloom
  new_bloom-Ready n =
      let m = max (optimal_bits (suc n)) 64 in
      let some_keys : (suc n == 0) ≡ false = ground arith in
      rw (new_bloom, some_keys)
        (record { hashes = omega arith; room = omega (arith, length-zeros ((m + 7) / 8)) })

  -- The filter that a segment is written with lets every key of its entries pass, whatever sizes the floating-point
  -- computation gave it.
  pub segment_bloom-AllPass :
      (entries : Entries)
      → AllPass
          (insert_keys entries (new_bloom optimal_bits optimal_hashes (length entries)))
          entries
  segment_bloom-AllPass [] = tt
  segment_bloom-AllPass (x ∷ xs) = insert_keys-AllPass (x ∷ xs) _ (new_bloom-Ready (length xs))
