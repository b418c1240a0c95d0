-- ===== src/BufferHelper/Varint/ZigZag.antt =====
-- The 64-bit zigzag code of src/common/buffer/buffer_helper.cpp.
use ardb.Prelude.{
  ℕ, ◌-◌, ◌*◌, ◌/◌, ◌%◌, ◌^◌, ◌<◌, ◌≡◌, arith, leb, ◌==◌, true, false, if◌then◌else◌, Bool-cases,
  inl, inr,
}
use ardb.Prelude.Bits.{bit_xor_ones, bit_xor_zero, bit_and_one}
use ardb.BufferHelper.Varint.{zigzag_encode64, zigzag_decode64}

-- The code of a number that is not negative is its double, that of -k is 2 * k - 1.
pub zigzag_encode64-eq :
    (n : ℕ)
    → n < 2 ^ 64
    → zigzag_encode64 n ≡ (if leb (2 ^ 63) n then 2 ^ 65 - 1 - n * 2 else n * 2)
unfolding zigzag_encode64
zigzag_encode64-eq n h =
    ground (arith, bit_xor_ones 64 (n * 2 % 2 ^ 64), bit_xor_zero 64 (n * 2 % 2 ^ 64))

zigzag_decode64-eq :
    (n : ℕ) → n < 2 ^ 64 → zigzag_decode64 n ≡ (if n % 2 == 0 then n / 2 else 2 ^ 64 - 1 - n / 2)
unfolding zigzag_decode64
zigzag_decode64-eq n h = rw (bit_and_one n) (elim (Bool-cases (n % 2 == 0)) [
  | inl even ↦ rw (even, half_even even) (bit_xor_zero 64 (n / 2) (omega arith))
  | inr odd ↦ rw (odd, half_odd odd) (bit_xor_ones 64 (n / 2) (omega arith))
])
  where
    half_even : (n % 2 == 0) ≡ true → (2 ^ 64 - n % 2) % 2 ^ 64 ≡ 0
    half_even e = ground arith

    half_odd : (n % 2 == 0) ≡ false → (2 ^ 64 - n % 2) % 2 ^ 64 ≡ 2 ^ 64 - 1
    half_odd e = ground arith

-- Every 64-bit integer comes back from its zigzag code.
pub zigzag64_round_trip : (n : ℕ) → n < 2 ^ 64 → zigzag_decode64 (zigzag_encode64 n) ≡ n
zigzag64_round_trip n h =
    ground (arith, zigzag_encode64-eq n, zigzag_decode64-eq (zigzag_encode64 n))

pub zigzag_encode64-lt : (n : ℕ) → n < 2 ^ 64 → zigzag_encode64 n < 2 ^ 64
zigzag_encode64-lt n h = ground (arith, zigzag_encode64-eq n)
