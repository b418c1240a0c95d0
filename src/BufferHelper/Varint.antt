-- ===== src/BufferHelper/Varint.antt =====
-- The variable-length integers of src/common/buffer/buffer_helper.cpp: seven bits to a byte, lowest
-- first, the top bit set on all bytes but the last. A signed integer is its bit pattern, below
-- 2 ^ 64 or 2 ^ 32, and goes through the zigzag code, which folds the sign into the lowest bit.
pub mod Bounds
pub mod ZigZag
pub mod RoundTrip
pub mod Narrow
use ardb.Prelude.{
  ℕ, zero, suc, ◌+◌, ◌-◌, ◌*◌, ◌/◌, ◌%◌, ◌^◌, bit_and, bit_or, bit_xor, Bool, true, false, Option,
  none, some, List, [], ◌∷◌, ltb, leb, ◌==◌, if◌then◌else◌,
}
use mathlib.Core.Option
use ardb.Buffer
use ardb.Buffer.{Buffer}
use ardb.ByteIo.{Reader, Writer, pure, fail, ◌>>=◌, skip, write_all}

-- kMaxVarintBytes and kMaxVarint32Bytes
abbrev pub max_varint_bytes : ℕ
max_varint_bytes = 10

abbrev pub max_varint32_bytes : ℕ
max_varint32_bytes = 5

-- n >> 63 and n >> 31 of a signed number: all ones if it is negative
abbrev pub sign_fill64 : ℕ → ℕ
sign_fill64 n = if leb (2 ^ 63) n then 2 ^ 64 - 1 else 0

abbrev pub sign_fill32 : ℕ → ℕ
sign_fill32 n = if leb (2 ^ 31) n then 2 ^ 32 - 1 else 0

unfoldable pub zigzag_encode64 : ℕ → ℕ
zigzag_encode64 n = bit_xor (n * 2 % 2 ^ 64) (sign_fill64 n)

-- -static_cast<int64_t>(n & 1), as a bit pattern
unfoldable pub zigzag_decode64 : ℕ → ℕ
zigzag_decode64 n = bit_xor (n / 2) ((2 ^ 64 - bit_and n 1) % 2 ^ 64)

unfoldable pub zigzag_encode32 : ℕ → ℕ
zigzag_encode32 n = bit_xor (n * 2 % 2 ^ 32) (sign_fill32 n)

unfoldable pub zigzag_decode32 : ℕ → ℕ
zigzag_decode32 n = bit_xor (n / 2) ((2 ^ 32 - bit_and n 1) % 2 ^ 32)

-- The loop of WriteVarUInt64 and WriteVarUInt32 over its local array, which has `room` bytes left;
-- `none` is a write behind the end of the array.
unfoldable pub varint_bytes : ℕ → ℕ → Option (List ℕ)
varint_bytes zero i = none
varint_bytes (suc room) i =
    let rest = varint_bytes room (i / 128) in
    if ltb 0x7f i
    then Option.map (λ bytes. bit_or (bit_and (i % 256) 0x7f) 0x80 ∷ bytes) rest
    else some (bit_and (i % 256) 0x7f ∷ [])

-- What is written where the array does not overrun.
unfoldable pub write_varint_bytes : Option (List ℕ) → Writer
write_varint_bytes none b = (false, b)
write_varint_bytes (some bytes) b = write_all bytes b

unfoldable pub write_var_uint64 : ℕ → Writer
unfolding varint_bytes write_varint_bytes
write_var_uint64 i = write_varint_bytes (varint_bytes max_varint_bytes i)

unfoldable pub write_var_int64 : ℕ → Writer
write_var_int64 i = write_var_uint64 (zigzag_encode64 i)

unfoldable pub write_var_uint32 : ℕ → Writer
unfolding varint_bytes write_varint_bytes
write_var_uint32 i = write_varint_bytes (varint_bytes max_varint32_bytes i)

unfoldable pub write_var_int32 : ℕ → Writer
write_var_int32 i = write_var_uint32 (zigzag_encode32 i)

unfoldable pub write_var_uint16 : ℕ → Writer
write_var_uint16 i = write_var_uint32 i

-- An int16_t is its bit pattern below 2 ^ 16; it is widened to 32 bits for the zigzag code, whose
-- result WriteVarInt32 takes for a signed number and codes once more.
unfoldable pub widen16 : ℕ → ℕ
widen16 i = if leb (2 ^ 15) i then i + (2 ^ 32 - 2 ^ 16) else i

unfoldable pub write_var_int16 : ℕ → Writer
write_var_int16 i = write_var_int32 (zigzag_encode32 (widen16 i))

-- The loop of ReadVarUInt64, with the rounds that are left before kMaxVarintBytes.
unfoldable pub read_varint_loop : ℕ → ℕ → ℕ → Reader ℕ
read_varint_loop zero count result = fail
read_varint_loop (suc left) count result = do
  ch ← Buffer.read_byte
  let result' = bit_or result (bit_and ch 0x7f * 2 ^ (7 * count) % 2 ^ 64)
  let more = read_varint_loop left (count + 1) result'
  if bit_and ch 0x80 == 0 then pure result' else more

unfoldable pub read_var_uint64 : Reader ℕ
unfolding read_varint_loop
read_var_uint64 = read_varint_loop max_varint_bytes 0 0

unfoldable pub read_var_int64 : Reader ℕ
read_var_int64 = do result ← read_var_uint64; pure (zigzag_decode64 result)

unfoldable pub read_var_uint32 : Reader ℕ
read_var_uint32 = do result ← read_var_uint64; pure (result % 2 ^ 32)

-- the 64-bit number is narrowed to the `uint32_t` parameter of ZigZagDecode32
unfoldable pub read_var_int32 : Reader ℕ
read_var_int32 = do result ← read_var_uint64; pure (zigzag_decode32 (result % 2 ^ 32))

unfoldable pub read_var_uint16 : Reader ℕ
read_var_uint16 = do result ← read_var_uint64; pure (zigzag_decode32 (result % 2 ^ 32) % 2 ^ 16)

unfoldable pub read_var_int16 : Reader ℕ
read_var_int16 = do result ← read_var_uint64; pure (result % 2 ^ 16)

-- On a mismatch the read index goes back to where it was.
unfoldable pub read_var_uint32_if_equal : ℕ → Buffer → Bool × Buffer
read_var_uint32_if_equal v b =
    let (r, b') = read_var_uint32 b in
    let back : Bool × Buffer = (false, Buffer.set_read_index b.m_read_idx b') in
    elim r [ some cmp ↦ if cmp == v then (true, b') else back | none ↦ back ]
