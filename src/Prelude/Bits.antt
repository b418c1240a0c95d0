-- ===== src/Prelude/Bits.antt =====
-- Masks, joined fields and sign flips of machine words as arithmetic, for every width.
use Prim.Native.Nat.{
  ℕ, zero, suc, ◌+◌, ◌-◌, ◌*◌, ◌/◌, ◌%◌, ◌^◌, ◌≤◌, ◌<◌, min, max, bit_and, bit_or, bit_xor, digits,
  differ, bit_and-bitwise, bit_or-bitwise, bit_xor-bitwise,
}
use mathlib.Core.Path.{◌≡◌, refl, ap}
use mathlib.Core.Bool.{Bool, true, false}
use mathlib.Core.Logic.{ite}
use native.Mathlib.Decide.{ℕ_discrete}
use native.Mathlib.Nat.{pow-suc, one-le-pow}
use native.Mathlib.Omega.{arith}

-- The native operations recur on a fuel that their first argument gives; more fuel is the same.
more_fuel :
    (z : ℕ → ℕ) (f : ℕ → ℕ → ℕ) (n m a b : ℕ) → a ≤ n → a ≤ m → digits z f n a b ≡ digits z f m a b
more_fuel z f zero zero a b p q = refl
more_fuel z f zero (suc m) zero b p q = refl
more_fuel z f zero (suc m) (suc a) b p q = absurd (omega arith)
more_fuel z f (suc n) zero zero b p q = refl
more_fuel z f (suc n) zero (suc a) b p q = absurd (omega arith)
more_fuel z f (suc n) (suc m) zero b p q = refl
more_fuel z f (suc n) (suc m) (suc a) b p q =
    omega (arith, more_fuel z f n m (suc a / 2) (b / 2) (omega arith) (omega arith))

pub zero-bit_or : (b : ℕ) → bit_or 0 b ≡ b
zero-bit_or b = bit_or-bitwise 0 b

pub zero-bit_xor : (b : ℕ) → bit_xor 0 b ≡ b
zero-bit_xor b = bit_xor-bitwise 0 b

lowest_or : (a b : ℕ) → bit_or a b ≡ bit_or (a / 2) (b / 2) * 2 + max (a % 2) (b % 2)
lowest_or zero b = omega (arith, zero-bit_or b, zero-bit_or (b / 2))
lowest_or (suc a) b = omega (
  arith,
  bit_or-bitwise (suc a) b,
  bit_or-bitwise (suc a / 2) (b / 2),
  more_fuel (λ c. c) max a (suc a / 2) (suc a / 2) (b / 2) (omega arith) (omega arith),
)

differ_small : (x y : ℕ) → x < 2 → y < 2 → differ x y ≡ (x + y) % 2
differ_small zero y h k = omega arith
differ_small (suc zero) zero h k = refl
differ_small (suc zero) (suc zero) h k = refl
differ_small (suc zero) (suc (suc y)) h k = absurd (omega arith)
differ_small (suc (suc x)) y h k = absurd (omega arith)

differ_digits : (a b : ℕ) → differ (a % 2) (b % 2) ≡ (a + b) % 2
differ_digits a b = omega (arith, differ_small (a % 2) (b % 2) (omega arith) (omega arith))

lowest_xor : (a b : ℕ) → bit_xor a b ≡ bit_xor (a / 2) (b / 2) * 2 + (a + b) % 2
lowest_xor zero b = omega (arith, zero-bit_xor b, zero-bit_xor (b / 2))
lowest_xor (suc a) b = omega (
  arith,
  bit_xor-bitwise (suc a) b,
  bit_xor-bitwise (suc a / 2) (b / 2),
  more_fuel (λ c. c) differ a (suc a / 2) (suc a / 2) (b / 2) (omega arith) (omega arith),
  differ_digits (suc a) b,
)

-- `a | (b << k)` is a sum where `a` fits `k` bits.
pub bit_or_join : (k a b : ℕ) → a < 2 ^ k → bit_or a (b * 2 ^ k) ≡ a + b * 2 ^ k
bit_or_join zero zero b h = omega (arith, zero-bit_or (b * 2 ^ 0))
bit_or_join zero (suc a) b h = absurd (omega arith)
bit_or_join (suc k) a b h = omega (
  arith,
  pow-suc 2 k,
  ap (λ (t : ℕ). b * t) (pow-suc 2 k),
  lowest_or a (b * 2 ^ suc k),
  ap (λ (t : ℕ). bit_or (a / 2) t) (half b k),
  bit_or_join k (a / 2) b (omega (arith, pow-suc 2 k)),
)
  where
    half : (b k : ℕ) → b * 2 ^ suc k / 2 ≡ b * 2 ^ k
    half b k = omega (arith, ap (λ (t : ℕ). b * t) (pow-suc 2 k))

-- `a ^ 0xff…f` is the complement.
pub bit_xor_ones : (k a : ℕ) → a < 2 ^ k → bit_xor a (2 ^ k - 1) ≡ 2 ^ k - 1 - a
bit_xor_ones zero zero h = refl
bit_xor_ones zero (suc a) h = absurd (omega arith)
bit_xor_ones (suc k) a h = rw pow-suc (
    omega (
      arith,
      one-le-pow k 2,
      lowest_xor a (2 ^ k * 2 - 1),
      ap (λ (t : ℕ). bit_xor (a / 2) t) (halved (2 ^ k) (omega (arith, one-le-pow k 2))),
      bit_xor_ones k (a / 2) (omega (arith, pow-suc 2 k)),
      pow-suc 2 k,
    ))
  where
    halved : (t : ℕ) → 1 ≤ t → (t * 2 - 1) / 2 ≡ t - 1
    halved t h = omega arith

pub bit_xor_zero : (k a : ℕ) → a < 2 ^ k → bit_xor a 0 ≡ a
bit_xor_zero zero zero h = refl
bit_xor_zero zero (suc a) h = absurd (omega arith)
bit_xor_zero (suc k) a h =
    omega (arith, lowest_xor a 0, pow-suc 2 k, bit_xor_zero k (a / 2) (omega (arith, pow-suc 2 k)))

zero-bit_and : (b : ℕ) → bit_and 0 b ≡ 0
zero-bit_and b = bit_and-bitwise 0 b

lowest_and : (a b : ℕ) → bit_and a b ≡ bit_and (a / 2) (b / 2) * 2 + min (a % 2) (b % 2)
lowest_and zero b = omega (arith, zero-bit_and b, zero-bit_and (b / 2))
lowest_and (suc a) b = omega (
  arith,
  bit_and-bitwise (suc a) b,
  bit_and-bitwise (suc a / 2) (b / 2),
  more_fuel (λ _. 0) min a (suc a / 2) (suc a / 2) (b / 2) (omega arith) (omega arith),
)

bit_and_below : (n a : ℕ) → a ≤ n → bit_and a 0 ≡ 0
bit_and_below n zero h = zero-bit_and 0
bit_and_below zero (suc a) h = absurd (omega arith)
bit_and_below (suc n) (suc a) h =
    omega (arith, lowest_and (suc a) 0, bit_and_below n (suc a / 2) (omega arith))

pub bit_and_one : (a : ℕ) → bit_and a 1 ≡ a % 2
bit_and_one a = omega (arith, lowest_and a 1, bit_and_below (a / 2) (a / 2) (omega arith))

-- The masks of one byte, by table.
module _ (f g : ℕ → ℕ) where
  agree_below : ℕ → Bool
  unfolding ℕ_discrete
  agree_below zero = true
  agree_below (suc n) = ite (ℕ_discrete (f n) (g n)) (agree_below n) false

  agree_below→eq : (n : ℕ) → agree_below n ≡ true → (i : ℕ) → i < n → f i ≡ g i
  unfolding agree_below
  agree_below→eq zero e i h = absurd (omega arith)
  agree_below→eq (suc n) e i h = ground (arith, agree_below→eq n (ground arith) i)

pub low_bits : (b : ℕ) → b < 256 → bit_and b 0x7f ≡ b % 128
unfolding agree_below
low_bits = agree_below→eq _ _ 256 refl

pub top_bit : (b : ℕ) → b < 256 → bit_and b 0x80 ≡ b / 128 * 128
unfolding agree_below
top_bit = agree_below→eq _ _ 256 refl

pub set_top_bit : (b : ℕ) → b < 128 → bit_or b 0x80 ≡ b + 128
unfolding agree_below
set_top_bit = agree_below→eq _ _ 128 refl
