-- ===== src/BufferHelper/Varint/Narrow.antt =====
-- The varints of 32-bit and 16-bit numbers of src/common/buffer/buffer_helper.cpp.
use ardb.Prelude.{
  subst, ℕ, ◌-◌, ◌*◌, ◌/◌, ◌%◌, ◌^◌, ◌<◌, ◌≡◌, arith, leb, ◌==◌, true, false, if◌then◌else◌,
  Bool-cases, inl, inr, [], some, ap, ◌∙◌,
}
use ardb.Prelude.Bits.{bit_xor_ones, bit_xor_zero, bit_and_one}
use ardb.Buffer.{Buffer}
use ardb.Buffer.Readable.{IsValid, contents}
use ardb.ByteIo.{Parses, Writes, Parses-return, reads_back}
use ardb.BufferHelper.Varint.{
  zigzag_encode32, zigzag_decode32, read_var_uint64, read_var_int32, write_var_int32,
  write_var_uint16, read_var_uint16,
}
use ardb.BufferHelper.Varint.RoundTrip.{uvarint, Parses-var_uint64, Writes-var_uint32}

zigzag_encode32-eq :
    (n : ℕ)
    → n < 2 ^ 32
    → zigzag_encode32 n ≡ (if leb (2 ^ 31) n then 2 ^ 33 - 1 - n * 2 else n * 2)
unfolding zigzag_encode32
zigzag_encode32-eq n h =
    ground (arith, bit_xor_ones 32 (n * 2 % 2 ^ 32), bit_xor_zero 32 (n * 2 % 2 ^ 32))

zigzag_decode32-eq :
    (n : ℕ) → n < 2 ^ 32 → zigzag_decode32 n ≡ (if n % 2 == 0 then n / 2 else 2 ^ 32 - 1 - n / 2)
unfolding zigzag_decode32
zigzag_decode32-eq n h = rw (bit_and_one n) (elim (Bool-cases (n % 2 == 0)) [
  | inl even ↦ rw (even, half_even even) (bit_xor_zero 32 (n / 2) (omega arith))
  | inr odd ↦ rw (odd, half_odd odd) (bit_xor_ones 32 (n / 2) (omega arith))
])
  where
    half_even : (n % 2 == 0) ≡ true → (2 ^ 32 - n % 2) % 2 ^ 32 ≡ 0
    half_even e = ground arith

    half_odd : (n % 2 == 0) ≡ false → (2 ^ 32 - n % 2) % 2 ^ 32 ≡ 2 ^ 32 - 1
    half_odd e = ground arith

zigzag32_round_trip : (n : ℕ) → n < 2 ^ 32 → zigzag_decode32 (zigzag_encode32 n) ≡ n
zigzag32_round_trip n h =
    ground (arith, zigzag_encode32-eq n, zigzag_decode32-eq (zigzag_encode32 n))

zigzag_encode32-lt : (n : ℕ) → n < 2 ^ 32 → zigzag_encode32 n < 2 ^ 32
zigzag_encode32-lt n h = ground (arith, zigzag_encode32-eq n)

Writes-var_int32 : (v : ℕ) → v < 2 ^ 32 → Writes (write_var_int32 v) (uvarint (zigzag_encode32 v))
unfolding write_var_int32
Writes-var_int32 v h = Writes-var_uint32 (zigzag_encode32 v) (zigzag_encode32-lt v h)

Parses-var_int32 : (v : ℕ) → v < 2 ^ 32 → Parses read_var_int32 (uvarint (zigzag_encode32 v)) v
unfolding read_var_int32
Parses-var_int32 v h = subst (Parses _ (uvarint (zigzag_encode32 v))) back (
    Parses-return read_var_uint64 (λ result. zigzag_decode32 (result % 2 ^ 32))
      (Parses-var_uint64 (zigzag_encode32 v) (omega (arith, zigzag_encode32-lt v h))))
  where
    narrowed : zigzag_encode32 v % 2 ^ 32 ≡ zigzag_encode32 v
    narrowed = omega (arith, zigzag_encode32-lt v h)

    back : zigzag_decode32 (zigzag_encode32 v % 2 ^ 32) ≡ v
    back = ap zigzag_decode32 narrowed ∙ zigzag32_round_trip v h

-- What `WriteVarInt32` writes of a 32-bit integer into a valid buffer with nothing to read,
-- `ReadVarInt32` reads back, and nothing is left.
pub read_var_int32-write_var_int32 :
    (v : ℕ) (b : Buffer)
    → v < 2 ^ 32
    → IsValid b
    → contents b ≡ []
    → ((read_var_int32 (write_var_int32 v b).1).0 ≡ some v)
      × (contents (read_var_int32 (write_var_int32 v b).1).1 ≡ [])
read_var_int32-write_var_int32 v b h valid e =
    reads_back (write_var_int32 v) read_var_int32 b (Writes-var_int32 v h) (Parses-var_int32 v h)
      valid e

Writes-var_uint16 : (v : ℕ) → v < 2 ^ 16 → Writes (write_var_uint16 v) (uvarint v)
unfolding write_var_uint16
Writes-var_uint16 v h = Writes-var_uint32 v (omega arith)

Parses-var_uint16 :
    (v : ℕ)
    → v < 2 ^ 16
    → Parses read_var_uint16 (uvarint v) (if v % 2 == 0 then v / 2 else 2 ^ 16 - 1 - v / 2)
unfolding read_var_uint16
Parses-var_uint16 v h = subst (Parses _ (uvarint v)) folded (
    Parses-return read_var_uint64 (λ result. zigzag_decode32 (result % 2 ^ 32) % 2 ^ 16)
      (Parses-var_uint64 v (omega arith)))
  where
    narrowed : v % 2 ^ 32 ≡ v
    narrowed = omega arith

    folded :
        zigzag_decode32 (v % 2 ^ 32) % 2 ^ 16 ≡ (if v % 2 == 0 then v / 2 else 2 ^ 16 - 1 - v / 2)
    folded = rw narrowed (ground (arith, zigzag_decode32-eq v))

-- What `WriteVarUInt16` writes of a 16-bit number `v` into a valid buffer with nothing to read,
-- `ReadVarUInt16` reads as `v / 2` if `v` is even and as 2 ^ 16 - 1 - `v / 2` if it is odd, and
-- nothing is left.
pub read_var_uint16-write_var_uint16 :
    (v : ℕ) (b : Buffer)
    → v < 2 ^ 16
    → IsValid b
    → contents b ≡ []
    → ((read_var_uint16 (write_var_uint16 v b).1).0
        ≡ some (if v % 2 == 0 then v / 2 else 2 ^ 16 - 1 - v / 2))
      × (contents (read_var_uint16 (write_var_uint16 v b).1).1 ≡ [])
read_var_uint16-write_var_uint16 v b h valid e =
    reads_back (write_var_uint16 v) read_var_uint16 b (Writes-var_uint16 v h)
      (Parses-var_uint16 v h) valid e
