-- ===== src/BufferHelper/Varint/RoundTrip.antt =====
-- The varint readers of src/common/buffer/buffer_helper.cpp on what the writers write.
use ardb.Prelude.{
  ℕ, zero, suc, ◌+◌, ◌*◌, ◌/◌, ◌%◌, ◌^◌, ◌≤◌, ◌<◌, ◌≡◌, ap, subst, subst₂, append-nil, ◌∙◌, arith,
  some, List, [], ◌∷◌, ◌==◌, true, false, bit_and, bit_or, length, All,
}
use ardb.Prelude.Bits.{low_bits, top_bit, bit_or_join}
use ardb.Buffer
use ardb.ByteIo.{Parses, Parses-pure, Parses-bind, Parses-read_byte, Writes, Writes-write_all}
use ardb.BufferHelper.Varint.{
  varint_bytes, write_varint_bytes, write_var_uint64, write_var_int64, write_var_uint32,
  read_varint_loop, read_var_uint64, read_var_int64, read_var_uint32, zigzag_encode64,
}
use ardb.BufferHelper.Varint.Bounds.{
  varint_bytes_last, varint_bytes_inv, varint_bytes_fit, varint_bytes_room,
}
use ardb.BufferHelper.Varint.ZigZag.{zigzag64_round_trip, zigzag_encode64-lt}
use mathlib.Core.Option
use native.Mathlib.Decide.{dec_lt}
use native.Mathlib.Nat.{div-add-mod}
use native.Mathlib.Numerals.{towards_suc}

next_shift : (c : ℕ) → 2 ^ (7 * (c + 1)) ≡ 128 * 2 ^ (7 * c)
next_shift c = ap (λ (t : ℕ). 2 ^ t) seven ∙ simp towards_suc (omega arith)
  where
    seven : 7 * (c + 1) ≡ 7 * c + 7
    seven = omega arith

-- One group of seven bits joins the result above the bits that it has.
group_joins :
    (s result x : ℕ)
    → x < 256
    → result < 2 ^ s
    → result + x % 128 * 2 ^ s < 2 ^ 64
    → bit_or result (bit_and x 0x7f * 2 ^ s % 2 ^ 64) ≡ result + x % 128 * 2 ^ s
group_joins s result x h fits k =
    rw (low_bits x h) (ap (bit_or result) (omega arith) ∙ bit_or_join s result (x % 128) fits)

module _ (left count result x : ℕ) (fits : result < 2 ^ (7 * count)) where
  -- a last byte
  loop_last :
      x < 128
      → result + x * 2 ^ (7 * count) < 2 ^ 64
      → Parses (read_varint_loop (suc left) count result) (x ∷ []) (result + x * 2 ^ (7 * count))
  unfolding read_varint_loop
  loop_last h k =
      Parses-bind Buffer.read_byte _ (Parses-read_byte x) (rw (stops, joined) (Parses-pure _))
    where
      stops : (bit_and x 0x80 == 0) ≡ true
      stops = ground (arith, top_bit x)

      same : x % 128 ≡ x
      same = omega arith

      joined :
          bit_or result (bit_and x 0x7f * 2 ^ (7 * count) % 2 ^ 64) ≡ result + x * 2 ^ (7 * count)
      joined = rw same at (group_joins (7 * count) result x (omega arith) fits (rw same k))

  -- a byte with the top bit set, over the group `x`
  loop_more :
      {bytes : List ℕ} {v : ℕ}
      → x < 128
      → result + x * 2 ^ (7 * count) < 2 ^ 64
      → Parses (read_varint_loop left (count + 1) (result + x * 2 ^ (7 * count))) bytes v
      → Parses (read_varint_loop (suc left) count result) ((x + 128) ∷ bytes) v
  unfolding read_varint_loop
  loop_more h k p =
      Parses-bind Buffer.read_byte _ (Parses-read_byte (x + 128)) (rw (goes_on, joined) p)
    where
      goes_on : (bit_and (x + 128) 0x80 == 0) ≡ false
      goes_on = ground (arith, top_bit (x + 128))

      same : (x + 128) % 128 ≡ x
      same = omega arith

      joined :
          bit_or result (bit_and (x + 128) 0x7f * 2 ^ (7 * count) % 2 ^ 64)
          ≡ result + x * 2 ^ (7 * count)
      joined = rw same at (group_joins (7 * count) result (x + 128) (omega arith) fits (rw same k))

below_next : (r g p : ℕ) → r < p → g < 128 → r + g * p < 128 * p
below_next r g p h k = omega (arith, scaled g p (omega arith))
  where
    scaled : (g p : ℕ) → g ≤ 127 → g * p ≤ 127 * p
    scaled g p h = grind arith

-- `v` is what is still to be read, and counts from bit `7 * count` on.
loop_reads :
    (room count v result : ℕ) (bytes : List ℕ)
    → varint_bytes room v ≡ some bytes
    → result < 2 ^ (7 * count)
    → result + v * 2 ^ (7 * count) < 2 ^ 64
    → Parses (read_varint_loop room count result) bytes (result + v * 2 ^ (7 * count))
loop_reads zero count v result bytes e fits k = unfold varint_bytes in cc
loop_reads (suc room) count v result bytes e fits k = elim (dec_lt v 128) [
  | yes small ↦
      subst
        (λ l. Parses (read_varint_loop (suc room) count result) l (result + v * 2 ^ (7 * count)))
        (cc (e, varint_bytes_last room v small)) (loop_last room count result v fits small k)
  | no large ↦
      let (rest, e', shape) = varint_bytes_inv room v bytes (omega arith) e in
      rw (shape, split)
        (loop_more room count result (v % 128) fits (omega arith) (omega (arith, split)) (
          rw next_shift at (
            loop_reads room (count + 1) (v / 128) (result + v % 128 * 2 ^ (7 * count)) rest e'
              (rw next_shift (below_next result (v % 128) (2 ^ (7 * count)) fits (omega arith)))
              (rw next_shift (omega (arith, split))))))
]
  where
    split :
        result + v * 2 ^ (7 * count)
        ≡ result + v % 128 * 2 ^ (7 * count) + v / 128 * (128 * 2 ^ (7 * count))
    split = omega (arith, ap (λ (t : ℕ). t * 2 ^ (7 * count)) (div-add-mod v 128))

-- The bytes of a number below 2 ^ 64, and of the code of a signed one.
unfoldable pub uvarint : ℕ → List ℕ
uvarint v = Option.get_or (varint_bytes 10 v) []

abbrev pub svarint : ℕ → List ℕ
svarint v = uvarint (zigzag_encode64 v)

uvarint_fits :
    (room v : ℕ) → 1 ≤ room → room ≤ 10 → v < 128 ^ room → varint_bytes room v ≡ some (uvarint v)
unfolding uvarint
uvarint_fits room v h k fits =
    let (bytes, e, _, _, _) = varint_bytes_fit room v h fits in
    rw (varint_bytes_room room 10 v bytes k e) e

pub uvarint_shape :
    (v : ℕ)
    → v < 2 ^ 64
    → (1 ≤ length (uvarint v)) × (length (uvarint v) ≤ 10) × All (λ x. x < 256) (uvarint v)
unfolding uvarint
uvarint_shape v h =
    let (bytes, e, lo, hi, each) = varint_bytes_fit 10 v (omega arith) (omega arith) in
    rw e (lo, hi, each)

pub Writes-var_uint64 : (v : ℕ) → v < 2 ^ 64 → Writes (write_var_uint64 v) (uvarint v)
unfolding write_varint_bytes write_var_uint64
Writes-var_uint64 v h =
    rw (uvarint_fits 10 v (omega arith) (omega arith) (omega arith), write_varint_bytes)
      (Writes-write_all _)

-- The five bytes of WriteVarUInt32 are enough.
pub Writes-var_uint32 : (v : ℕ) → v < 2 ^ 32 → Writes (write_var_uint32 v) (uvarint v)
unfolding write_varint_bytes write_var_uint32
Writes-var_uint32 v h =
    rw (uvarint_fits 5 v (omega arith) (omega arith) (omega arith), write_varint_bytes)
      (Writes-write_all _)

pub Writes-var_int64 : (v : ℕ) → v < 2 ^ 64 → Writes (write_var_int64 v) (svarint v)
unfolding write_var_int64
Writes-var_int64 v h = Writes-var_uint64 _ (zigzag_encode64-lt v h)

-- `ReadVarUInt64`, on a valid buffer whose unread bytes start with the varint of a 64-bit number,
-- takes exactly the varint and gives the number.
pub Parses-var_uint64 : (v : ℕ) → v < 2 ^ 64 → Parses read_var_uint64 (uvarint v) v
unfolding read_var_uint64
Parses-var_uint64 v h = subst (Parses (read_varint_loop 10 0 0) (uvarint v)) (omega arith) (
    loop_reads 10 0 v 0 (uvarint v) (uvarint_fits 10 v (omega arith) (omega arith) (omega arith))
      (omega arith) (omega arith))

-- `ReadVarInt64`, on a valid buffer whose unread bytes start with the zigzag varint of a 64-bit
-- integer, takes exactly the varint and gives the integer.
pub Parses-var_int64 : (v : ℕ) → v < 2 ^ 64 → Parses read_var_int64 (svarint v) v
unfolding read_var_int64
Parses-var_int64 v h =
    subst₂ (Parses read_var_int64) (append-nil (svarint v)) (zigzag64_round_trip v h)
      (Parses-bind read_var_uint64 _ (Parses-var_uint64 _ (zigzag_encode64-lt v h)) (Parses-pure _))

-- `ReadVarUInt32`, on a valid buffer whose unread bytes start with the varint of a 32-bit number,
-- takes exactly the varint and gives the number.
pub Parses-var_uint32 : (v : ℕ) → v < 2 ^ 32 → Parses read_var_uint32 (uvarint v) v
unfolding read_var_uint32
Parses-var_uint32 v h =
    subst₂ (Parses read_var_uint32) (append-nil (uvarint v)) (omega arith)
      (Parses-bind read_var_uint64 _ (Parses-var_uint64 v (omega arith)) (Parses-pure _))
