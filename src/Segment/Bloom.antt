-- ===== src/Segment/Bloom.antt =====
-- crates/toroidal-store/segment.rs: the Bloom filter. Its sizes are computed in floating point: the number of
-- bits before it is raised to 64 and the number of hashes before it is raised to 1 are the parameters
-- `optimal_bits` and `optimal_hashes`.
pub mod Members
use Prim.Native.Nat.{bit_and, bit_or, bit_xor}
use toroidal_db.Base.{
  ℕ, zero, suc, ◌+◌, ◌-◌, ◌*◌, ◌/◌, ◌%◌, ◌^◌, max, Bool, true, false, not, ◌&&◌, ◌||◌, Option, none,
  some, List, [], ◌∷◌, length, take, drop, get_elem?, ltb, ◌==◌, if◌then◌else◌,
}
use toroidal_db.Base.Bytes.{Bytes, u64_mod, from_le}
use toroidal_db.MemTable.{Entries}

pub record BloomFilter : Type 0 where
  pub bits : Bytes
  pub k : ℕ
  pub m : ℕ

abbrev pub no_bloom : BloomFilter
no_bloom = record { bits = []; k = 0; m = 0 }

abbrev pub wrapping_add : ℕ → ℕ → ℕ
wrapping_add a b = (a + b) % u64_mod

abbrev pub wrapping_mul : ℕ → ℕ → ℕ
wrapping_mul a b = (a * b) % u64_mod

-- `rotate_left` on 64 bits, for a distance below 64.
abbrev pub rotate_left : ℕ → ℕ → ℕ
rotate_left x r = (x * 2 ^ r) % u64_mod + x / 2 ^ (64 - r)

pub record SipState : Type 0 where
  pub v0 : ℕ
  pub v1 : ℕ
  pub v2 : ℕ
  pub v3 : ℕ

-- The six lines that both loops of `sip_hash` repeat.
unfoldable pub sip_round : SipState → SipState
sip_round s =
    let a = wrapping_add s.v0 s.v1 in
    let b = wrapping_add s.v2 s.v3 in
    record {
      v0 = rotate_left a 32;
      v1 = bit_xor (rotate_left s.v1 13) a;
      v2 = rotate_left b 32;
      v3 = bit_xor (rotate_left s.v3 16) b;
    }

-- A chunk of up to 8 bytes, filled up with zeros.
unfoldable pub sip_chunk : ℕ → SipState → SipState
sip_chunk mi s =
    let t = sip_round (sip_round (record s { v3 = bit_xor s.v3 mi })) in
    record t { v0 = bit_xor t.v0 mi }

-- `chunks(8)`, with the length of the data as fuel.
unfoldable pub sip_chunks : ℕ → Bytes → SipState → SipState
sip_chunks zero bytes s = s
sip_chunks (suc n) [] s = s
sip_chunks (suc n) (b ∷ bs) s =
    sip_chunks n (drop 8 (b ∷ bs)) (sip_chunk (from_le (take 8 (b ∷ bs))) s)

unfoldable pub sip_hash : Bytes → ℕ → ℕ
sip_hash bytes seed =
    let s = sip_chunks (length bytes) bytes (record {
      v0 = seed;
      v1 = wrapping_add seed 0x736f6d6570736575;
      v2 = wrapping_add seed 0x646f72616e646f6d;
      v3 = wrapping_add seed 0x6c7967656e657261;
    }) in
    let high = (length bytes * 2 ^ 56) % u64_mod in
    let b = wrapping_add high high in
    let t = sip_round (sip_round (sip_round (record s { v3 = bit_xor s.v3 b }))) in
    bit_xor (bit_xor (bit_xor t.v0 t.v1) t.v2) t.v3

-- The bit of the `i`-th hash.
unfoldable pub bit_index : Bytes → ℕ → ℕ → ℕ
bit_index key i m = wrapping_add (sip_hash key 0) (wrapping_mul i (sip_hash key 1)) % m

-- `bits[byte] |= bit`, if the byte is there.
unfoldable pub set_byte : ℕ → ℕ → Bytes → Bytes
set_byte byte bit [] = []
set_byte zero bit (b ∷ bs) = bit_or b bit ∷ bs
set_byte (suc byte) bit (b ∷ bs) = b ∷ set_byte byte bit bs

abbrev pub set_bit : ℕ → Bytes → Bytes
set_bit idx bits = set_byte (idx / 8) (2 ^ (idx % 8)) bits

-- The test of `contains`, negated: a byte past the end counts as set.
unfoldable pub has_bit : ℕ → Bytes → Bool
has_bit idx bits = elim (get_elem? bits (idx / 8)) [
  | none ↦ true
  | some b ↦ ltb 0 (bit_and b (2 ^ (idx % 8)))
]

-- The loops over the hashes `i`, `i + 1`, ...
unfoldable pub set_bits : Bytes → ℕ → ℕ → ℕ → Bytes → Bytes
set_bits key m zero i bits = bits
set_bits key m (suc n) i bits = set_bits key m n (i + 1) (set_bit (bit_index key i m) bits)

unfoldable pub has_bits : Bytes → ℕ → ℕ → ℕ → Bytes → Bool
has_bits key m zero i bits = true
has_bits key m (suc n) i bits =
    let rest = has_bits key m n (i + 1) bits in
    if has_bit (bit_index key i m) bits then rest else false

unfoldable pub bloom_insert : Bytes → BloomFilter → BloomFilter
bloom_insert key f = if f.k == 0 then f else record f { bits = set_bits key f.m f.k 0 f.bits }

unfoldable pub bloom_contains : Bytes → BloomFilter → Bool
bloom_contains key f =
    if (f.k == 0) || (length f.bits == 0) then false else has_bits key f.m f.k 0 f.bits

unfoldable pub zeros : ℕ → Bytes
zeros zero = []
zeros (suc n) = 0 ∷ zeros n

-- The loop of `write_segment_nosync` over the keys.
unfoldable pub insert_keys : Entries → BloomFilter → BloomFilter
insert_keys [] f = f
insert_keys ((key, ve) ∷ rest) f = insert_keys rest (bloom_insert key f)

module _ (optimal_bits : ℕ → ℕ) (optimal_hashes : ℕ → ℕ → ℕ) where
  unfoldable pub new_bloom : ℕ → BloomFilter
  new_bloom n =
      if n == 0
      then no_bloom
      else let m = max (optimal_bits n) 64 in
        let byte_len = (m + 7) / 8 in
        record {
          bits = zeros byte_len;
          k = max (optimal_hashes m n) 1;
          m = (byte_len * 8) % u64_mod;
        }
