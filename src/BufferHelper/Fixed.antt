-- ===== src/BufferHelper/Fixed.antt =====
-- The fixed-width integers of src/common/buffer/buffer_helper.cpp on a little-endian host, where
-- `is_bigendian()` is false. What is read and written is the memory of the number, its bytes
-- swapped first or last if the order asked for is the other one.
use ardb.Prelude.{
  ℕ, zero, suc, ◌+◌, ◌*◌, ◌/◌, ◌%◌, ◌^◌, Bool, List, [], ◌∷◌, ◌==◌, if◌then◌else◌, bit_or,
}
use ardb.ByteIo.{Reader, Writer, pure, ◌>>=◌, read_exactly, write_all}

-- The memory of a number of `k` bytes.
unfoldable pub le_bytes : ℕ → ℕ → List ℕ
le_bytes zero v = []
le_bytes (suc k) v = v % 256 ∷ le_bytes k (v / 256)

unfoldable pub le_value : List ℕ → ℕ
le_value [] = 0
le_value (x ∷ xs) = x + le_value xs * 256

-- swap_uint16: (val << 8) | (val >> 8)
unfoldable pub swap_uint16 : ℕ → ℕ
swap_uint16 v = bit_or (v * 256 % 2 ^ 16) (v / 256)

-- WriteFixUInt16. It compares the two bytes that it wrote with sizeof(uint64_t).
unfoldable pub write_fix_uint16 : ℕ → Bool → Writer
unfolding swap_uint16 write_all
write_fix_uint16 i bigendian b =
    (8 == 2, (write_all (le_bytes 2 (if bigendian then swap_uint16 i else i)) b).1)

-- ReadFixUInt16
unfoldable pub read_fix_uint16 : Bool → Reader ℕ
unfolding swap_uint16
read_fix_uint16 bigendian = do
  memory ← read_exactly 2
  let u = le_value memory
  pure (if bigendian then swap_uint16 u else u)
