-- ===== src/Wal/Codec.antt =====
-- crates/toroidal-store/wal.rs: `PhysicalFrame::decode` undoes `encode`.
use toroidal_db.Base.{
  ℕ, ◌+◌, ◌≤◌, ◌<◌, ◌≡◌, refl, sym, ◌++◌, length, take, drop, length-append, take-append,
  drop-append, drop-add, ok, arith, ◌^◌,
}
use toroidal_db.Base.Bytes.{
  Bytes, u32_mod, u64_mod, to_le, length-to_le, take_exact-append, checked_add, from_le-to_le_u16,
  from_le-to_le_u32, from_le-to_le_u64,
}
use toroidal_db.Wal.Frame.{
  WalFrameKind, PhysicalFrame, kind_byte, validate_batch_id_for_kind, encode_payload, read_u16,
  read_u32, read_u64, decode_put, decode_delete, decode_payload_for_kind, build, max_payload_size,
}

-- A read where the data goes on with the bytes of `v`.
pub read_u16-drop :
    (bytes : Bytes) (off v : ℕ) (rest : Bytes)
    → drop off bytes ≡ to_le 2 v ++ rest
    → v < 2 ^ 16
    → read_u16 bytes off ≡ ok v
unfolding read_u16
read_u16-drop bytes off v rest e h =
    rw (e, take_exact-append (to_le 2 v) rest 2 (sym (length-to_le 2 v)), from_le-to_le_u16 v h)

pub read_u32-drop :
    (bytes : Bytes) (off v : ℕ) (rest : Bytes)
    → drop off bytes ≡ to_le 4 v ++ rest
    → v < u32_mod
    → read_u32 bytes off ≡ ok v
unfolding read_u32
read_u32-drop bytes off v rest e h =
    rw (e, take_exact-append (to_le 4 v) rest 4 (sym (length-to_le 4 v)), from_le-to_le_u32 v h)

pub read_u64-drop :
    (bytes : Bytes) (off v : ℕ) (rest : Bytes)
    → drop off bytes ≡ to_le 8 v ++ rest
    → v < u64_mod
    → read_u64 bytes off ≡ ok v
unfolding read_u64
read_u64-drop bytes off v rest e h =
    rw (e, take_exact-append (to_le 8 v) rest 8 (sym (length-to_le 8 v)), from_le-to_le_u64 v h)

-- What an accepted PUT satisfies, and its payload.
put_payload :
    (key value : Bytes) {p : Bytes}
    → encode_payload (WalFrameKind.put key value) ≡ ok p
    → (8 + length key + length value ≤ max_payload_size)
      × (p ≡ to_le 4 (length key) ++ (to_le 4 (length value) ++ (key ++ value)))
unfolding encode_payload
put_payload key value h = ground arith

delete_payload :
    (key : Bytes) {p : Bytes}
    → encode_payload (WalFrameKind.delete key) ≡ ok p
    → (4 + length key ≤ max_payload_size) × (p ≡ to_le 4 (length key) ++ key)
unfolding encode_payload
delete_payload key h = ground arith

-- `decode_put` from what its reads return.
decode_put_reads :
    (p key value : Bytes) (kl vl : ℕ)
    → read_u32 p 0 ≡ ok kl
    → read_u32 p 4 ≡ ok vl
    → length p ≡ 8 + kl + vl
    → 8 + kl + vl ≤ max_payload_size
    → take kl (drop 8 p) ≡ key
    → drop (8 + kl) p ≡ value
    → decode_put p ≡ ok (WalFrameKind.put key value)
unfolding decode_put checked_add
decode_put_reads p key value kl vl r0 r4 len fits k v = ground arith

decode_delete_reads :
    (p key : Bytes) (kl : ℕ)
    → read_u32 p 0 ≡ ok kl
    → length p ≡ 4 + kl
    → 4 + kl ≤ max_payload_size
    → drop 4 p ≡ key
    → decode_delete p ≡ ok (WalFrameKind.delete key)
unfolding decode_delete checked_add
decode_delete_reads p key kl r0 len fits k = ground arith

-- Past the bytes of a number.
pub drop-to_le : (w v : ℕ) (rest : Bytes) → drop w (to_le w v ++ rest) ≡ rest
drop-to_le w v rest = drop-append (to_le w v) rest w (sym (length-to_le w v))

drop-to_le_eight : (v u : ℕ) (rest : Bytes) → drop 8 (to_le 4 v ++ (to_le 4 u ++ rest)) ≡ rest
unfolding to_le
drop-to_le_eight v u rest = refl

pub length-to_le-append : (w v : ℕ) (rest : Bytes) → length (to_le w v ++ rest) ≡ w + length rest
length-to_le-append w v rest = omega (arith, length-append (to_le w v) rest, length-to_le w v)

decode_put-payload :
    (key value : Bytes)
    → 8 + length key + length value ≤ max_payload_size
    → decode_put (to_le 4 (length key) ++ (to_le 4 (length value) ++ (key ++ value)))
      ≡ ok (WalFrameKind.put key value)
decode_put-payload key value h =
    let tail = to_le 4 (length value) ++ (key ++ value) in
    let p = to_le 4 (length key) ++ tail in
    decode_put_reads p key value (length key) (length value)
      (read_u32-drop p 0 (length key) tail refl (omega arith))
      (read_u32-drop p 4 (length value) (key ++ value) (drop-to_le 4 (length key) tail)
        (omega arith))
      (omega (
        arith,
        length-to_le-append 4 (length key) tail,
        length-to_le-append 4 (length value) (key ++ value),
        length-append key value,
      ))
      h
      (rw (drop-to_le_eight (length key) (length value) (key ++ value))
        (take-append key value (length key) refl))
      (rw drop-add (
        rw (drop-to_le_eight (length key) (length value) (key ++ value))
          (drop-append key value (length key) refl)))

decode_delete-payload :
    (key : Bytes)
    → 4 + length key ≤ max_payload_size
    → decode_delete (to_le 4 (length key) ++ key) ≡ ok (WalFrameKind.delete key)
decode_delete-payload key h =
    decode_delete_reads (to_le 4 (length key) ++ key) key (length key)
      (read_u32-drop _ 0 (length key) key refl (omega arith))
      (length-to_le-append 4 (length key) key) h (drop-to_le 4 (length key) key)

-- A payload that was built is read back, whatever the kind.
pub decode_payload-encode :
    (kind : WalFrameKind) (bid : ℕ) {p : Bytes}
    → validate_batch_id_for_kind kind bid ≡ ok tt
    → encode_payload kind ≡ ok p
    → (decode_payload_for_kind (kind_byte kind) bid p ≡ ok kind) × (length p ≤ max_payload_size)
unfolding decode_payload_for_kind
decode_payload-encode (WalFrameKind.begin b) bid v e =
    unfold validate_batch_id_for_kind encode_payload in ground arith
decode_payload-encode (WalFrameKind.commit b) bid v e =
    unfold validate_batch_id_for_kind encode_payload in ground arith
decode_payload-encode (WalFrameKind.put key value) bid v e =
    let (fits, shape) = put_payload key value e in
    rw shape (
      decode_put-payload key value fits,
      omega (
        arith,
        length-to_le-append 4 (length key) (to_le 4 (length value) ++ (key ++ value)),
        length-to_le-append 4 (length value) (key ++ value),
        length-append key value,
      ),
    )
decode_payload-encode (WalFrameKind.delete key) bid v e =
    let (fits, shape) = delete_payload key e in
    rw shape (decode_delete-payload key fits, omega (arith, length-to_le-append 4 (length key) key))

pub kind_byte_range : (kind : WalFrameKind) → (1 ≤ kind_byte kind) × (kind_byte kind ≤ 4)
kind_byte_range (WalFrameKind.begin b) = omega arith
kind_byte_range (WalFrameKind.put k v) = omega arith
kind_byte_range (WalFrameKind.delete k) = omega arith
kind_byte_range (WalFrameKind.commit b) = omega arith

-- A frame that stands for the operation `kind`, with its numbers in range.
pub record IsFrameOf (f : PhysicalFrame) (kind : WalFrameKind) : Type 0 where
  pub sequence_fits : f.sequence < u64_mod
  pub batch_id_fits : f.batch_id < u64_mod
  pub payload_fits : length f.payload ≤ max_payload_size
  pub kind_range : (1 ≤ f.kind) × (f.kind ≤ 4)
  pub reads_back : decode_payload_for_kind f.kind f.batch_id f.payload ≡ ok kind
  pub batch_valid : validate_batch_id_for_kind kind f.batch_id ≡ ok tt

-- What `build` returns.
build-inv :
    (seq bid : ℕ) (kind : WalFrameKind) {f : PhysicalFrame}
    → build seq bid kind ≡ ok f
    → (f.sequence ≡ seq)
      × (f.batch_id ≡ bid)
      × (f.kind ≡ kind_byte kind)
      × (validate_batch_id_for_kind kind bid ≡ ok tt)
      × (encode_payload kind ≡ ok f.payload)
unfolding build
build-inv seq bid kind h = ground arith

pub build-IsFrameOf :
    (seq bid : ℕ) (kind : WalFrameKind) {f : PhysicalFrame}
    → seq < u64_mod
    → bid < u64_mod
    → build seq bid kind ≡ ok f
    → IsFrameOf f kind × (f.sequence ≡ seq) × (f.batch_id ≡ bid)
build-IsFrameOf seq bid kind hs hb h =
    let (es, eb, ek, vk, pk) = build-inv seq bid kind h in
    let (dk, fits) = decode_payload-encode kind bid vk pk in
    (
      record {
        sequence_fits = rw es hs;
        batch_id_fits = rw eb hb;
        payload_fits = fits;
        kind_range = rw ek (kind_byte_range kind);
        reads_back = rw (ek, eb) dk;
        batch_valid = rw eb vk;
      },
      es,
      eb,
    )
