-- ===== src/Data/Order.antt =====
-- The order of `Data::Compare` (src/types.cpp) on strings and on integers.
use ardb.Prelude.{
  ℕ, zero, suc, ◌+◌, ◌%◌, ◌^◌, ◌≤◌, ◌<◌, ◌≡◌, refl, ◌⊎◌, Bool, true, false, List, [], ◌∷◌, arith,
  length, ltb, ◌==◌, if◌then◌else◌,
}
use ardb.Prelude.Int.{ℤ, pos, sub_ℕ, minus_one, is_negative, is_zero}
use ardb.Data.{length_difference, memcmp, compare_bytes, compare_int64}

-- The dictionary order of byte strings.
abbrev pub lex_lt : List ℕ → List ℕ → Bool
lex_lt [] [] = false
lex_lt [] (y ∷ ys) = true
lex_lt (x ∷ xs) [] = false
lex_lt (x ∷ xs) (y ∷ ys) =
    let rest = lex_lt xs ys in if ltb x y then true else if ltb y x then false else rest

abbrev lengths_break_ties : ℤ → ℕ → ℕ → ℤ
lengths_break_ties ret m n = if is_zero ret then sub_ℕ m n else ret

-- The first `n` bytes, then the lengths, where `n` is the shorter length.
memcmp-lex_lt :
    (n : ℕ) (xs ys : List ℕ)
    → n ≤ length xs
    → n ≤ length ys
    → (length xs ≤ n) ⊎ (length ys ≤ n)
    → is_negative (lengths_break_ties (memcmp n xs ys) (length xs) (length ys)) ≡ lex_lt xs ys
unfolding memcmp
memcmp-lex_lt zero [] [] h k m = refl
memcmp-lex_lt zero [] (y ∷ ys) h k m = ground arith
memcmp-lex_lt zero (x ∷ xs) [] h k m = ground arith
memcmp-lex_lt zero (x ∷ xs) (y ∷ ys) h k m = absurd (omega arith)
memcmp-lex_lt (suc n) [] ys h k m = absurd (omega arith)
memcmp-lex_lt (suc n) (x ∷ xs) [] h k m = absurd (omega arith)
memcmp-lex_lt (suc n) (x ∷ xs) (y ∷ ys) h k m =
    ground (arith, memcmp-lex_lt n xs ys (omega arith) (omega arith) (omega arith))

lengths_exact : (m n : ℕ) → m < 2 ^ 31 → n < 2 ^ 31 → length_difference m n ≡ sub_ℕ m n
unfolding length_difference
lengths_exact m n h k = ground arith

-- For two byte strings shorter than 2 ^ 31, the comparison at the end of `Data::Compare` is
-- negative exactly where the first stands before the second in the dictionary order.
pub compare_bytes-lex_lt :
    (xs ys : List ℕ)
    → length xs < 2 ^ 31
    → length ys < 2 ^ 31
    → is_negative (compare_bytes xs ys) ≡ lex_lt xs ys
unfolding compare_bytes
compare_bytes-lex_lt xs ys small_xs small_ys =
    rw (lengths_exact (length xs) (length ys) small_xs small_ys) (
      at_min (if ltb (length xs) (length ys) then length xs else length ys) (ground arith)
        (ground arith) (ground arith))
  where
    at_min :
        (n : ℕ)
        → n ≤ length xs
        → n ≤ length ys
        → (length xs ≤ n) ⊎ (length ys ≤ n)
        → is_negative (
            if n == 0
            then sub_ℕ (length xs) (length ys)
            else lengths_break_ties (memcmp n xs ys) (length xs) (length ys))
          ≡ lex_lt xs ys
    at_min zero h k m = memcmp-lex_lt zero xs ys h k m
    at_min (suc n) h k m = rw (some_bytes n) (memcmp-lex_lt (suc n) xs ys h k m)
      where
        some_bytes : (n : ℕ) → (suc n == 0) ≡ false
        some_bytes n = ground arith

pub lex_lt-irreflexive : (xs : List ℕ) → lex_lt xs xs ≡ false
lex_lt-irreflexive [] = refl
lex_lt-irreflexive (x ∷ xs) = ground (arith, lex_lt-irreflexive xs)

pub lex_lt-asymmetric : (xs ys : List ℕ) → lex_lt xs ys ≡ false → lex_lt ys xs ≡ false → xs ≡ ys
lex_lt-asymmetric [] [] h k = refl
lex_lt-asymmetric [] (y ∷ ys) h k = cc
lex_lt-asymmetric (x ∷ xs) [] h k = cc
lex_lt-asymmetric (x ∷ xs) (y ∷ ys) h k = ground (arith, lex_lt-asymmetric xs ys)

-- An int64_t moved up by 2 ^ 63, which puts the signed order into the order of numbers.
abbrev pub biased : ℕ → ℕ
biased a = (a + 2 ^ 63) % 2 ^ 64

abbrev pub compare_numbers : ℕ → ℕ → ℤ
compare_numbers a b = if ltb a b then minus_one else if a == b then pos 0 else pos 1

-- Where the difference of two 64-bit integers fits 64 signed bits, `Data::Compare` orders them as
-- signed integers.
pub compare_int64_exact :
    (a b : ℕ)
    → a < 2 ^ 64
    → b < 2 ^ 64
    → biased a < biased b + 2 ^ 63
    → biased b ≤ biased a + 2 ^ 63
    → compare_int64 a b ≡ compare_numbers (biased a) (biased b)
unfolding compare_int64
compare_int64_exact a b ha hb lo hi = ground arith

-- Where one 64-bit integer is greater than another by 2 ^ 63 or more, `Data::Compare` puts it
-- before the smaller one; the other way round it puts the smaller one behind the greater, but
-- before it where the difference is exactly 2 ^ 63.
pub compare_int64_wraps :
    (a b : ℕ)
    → a < 2 ^ 64
    → b < 2 ^ 64
    → biased b + 2 ^ 63 ≤ biased a
    → (compare_int64 a b ≡ minus_one)
      × (compare_int64 b a ≡ (if biased a == biased b + 2 ^ 63 then minus_one else pos 1))
unfolding compare_int64
compare_int64_wraps a b ha hb h = ground arith
