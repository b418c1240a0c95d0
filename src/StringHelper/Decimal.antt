-- ===== src/StringHelper/Decimal.antt =====
-- `string2ll` and the text of its result (src/common/util/string_helper.cpp).
pub mod Printed
use ardb.Prelude.{
  ℕ, zero, suc, ◌+◌, ◌-◌, ◌*◌, ◌/◌, ◌%◌, ◌^◌, ◌≤◌, ◌<◌, ◌≡◌, refl, ap, ap₂, append-nil, sym, ◌∙◌,
  ◌⊎◌, inl, inr, arith, List, [], ◌∷◌, ◌++◌, length, Bool, true, false, Option, none, some, ltb,
  leb, ◌==◌, if◌then◌else◌, Bool-cases, ◌&&◌,
}
use native.Mathlib.Decide.{dec_lt}
use native.Mathlib.Nat.{pow-suc}
use ardb.StringHelper.{
  decimal_loop, decimal_text, negate64, is_negative64, read_digits, read_number, signed_value,
  with_sign, string2ll, is_digit, ullong_max,
}

-- One more round of the printing loop, from the other end.
decimal_loop_step :
    (rounds w d : ℕ) (text : List ℕ)
    → 1 ≤ w
    → d < 10
    → decimal_loop (suc rounds) (w * 10 + d) text ≡ decimal_loop rounds w ((b'0' + d) ∷ text)
unfolding decimal_loop
decimal_loop_step rounds w d text h k = rw (quotient, remainder, goes_on) refl
  where
    quotient : (w * 10 + d) / 10 ≡ w
    quotient = omega arith

    remainder : (w * 10 + d) % 10 ≡ d
    remainder = omega arith

    goes_on : (w == 0) ≡ false
    goes_on = ground arith

-- More rounds change nothing once the number is used up.
decimal_loop_rounds :
    (rounds v : ℕ) (text : List ℕ)
    → v < 10 ^ rounds
    → 1 ≤ rounds
    → decimal_loop (suc rounds) v text ≡ decimal_loop rounds v text
unfolding decimal_loop
decimal_loop_rounds zero v text h k = absurd (omega arith)
decimal_loop_rounds (suc zero) v text h k = rw (last) refl
  where
    last : (v / 10 == 0) ≡ true
    last = ground arith
decimal_loop_rounds (suc (suc rounds)) v text h k = elim (Bool-cases (v / 10 == 0)) [
  | inl last ↦ rw last refl
  | inr more ↦ rw more (
      decimal_loop_rounds (suc rounds) (v / 10) ((b'0' + v % 10) ∷ text)
        (omega (arith, pow-suc 10 (suc rounds))) (omega arith))
]

read_digits_inv :
    (c : ℕ) (r : List ℕ) (w u : ℕ)
    → read_digits (c ∷ r) w ≡ some u
    → (b'0' ≤ c)
      × (c - b'0' < 10)
      × (w * 10 + (c - b'0') < 2 ^ 64)
      × (read_digits r (w * 10 + (c - b'0')) ≡ some u)
unfolding read_digits
read_digits_inv c r w u e = step
  where
    open_step :
        (more : Option ℕ)
        → (if is_digit c
            then (if ltb (ullong_max / 10) w
                then none
                else if ltb (ullong_max - (c - b'0')) (w * 10)
                then none
                else more)
            else none)
          ≡ some u
        → (b'0' ≤ c) × (c - b'0' < 10) × (w * 10 + (c - b'0') < 2 ^ 64) × (more ≡ some u)
    open_step more e = ground arith

    step :
        (b'0' ≤ c)
        × (c - b'0' < 10)
        × (w * 10 + (c - b'0') < 2 ^ 64)
        × (read_digits r (w * 10 + (c - b'0')) ≡ some u)
    step = open_step (read_digits r (w * 10 + (c - b'0'))) (unfold read_digits in e)

-- The digits that are read on from `w` are those printed behind the text of `w`.
read_digits_prints :
    (r : List ℕ) (w u : ℕ) (text : List ℕ)
    → 1 ≤ w
    → w < 2 ^ 64
    → read_digits r w ≡ some u
    → (decimal_loop 20 u text ≡ decimal_loop 20 w (r ++ text)) × (1 ≤ u) × (u < 2 ^ 64)
read_digits_prints [] w u text h k e =
    let same : u ≡ w = unfold read_digits in cc in
    (ap (λ (t : ℕ). decimal_loop 20 t text) same, omega arith, omega arith)
read_digits_prints (c ∷ r) w u text h k e =
    let (lo, d, fits, next) = read_digits_inv c r w u e in
    let (prints, low, high) =
      read_digits_prints r (w * 10 + (c - b'0')) u text (omega arith) fits next in
    (prints ∙ one_more c w (r ++ text) h fits d lo, low, high)
  where
    one_more :
        (c w : ℕ) (text : List ℕ)
        → 1 ≤ w
        → w * 10 + (c - b'0') < 2 ^ 64
        → c - b'0' < 10
        → b'0' ≤ c
        → decimal_loop 20 (w * 10 + (c - b'0')) text ≡ decimal_loop 20 w (c ∷ text)
    one_more c w text h k d lo =
        sym (decimal_loop_rounds 20 (w * 10 + (c - b'0')) text (omega arith) (omega arith))
        ∙ decimal_loop_step 20 w (c - b'0') text h d
        ∙ ap (λ (t : ℕ). decimal_loop 20 w (t ∷ text)) (omega arith)

pub decimal_loop_digit :
    (rounds d : ℕ) (text : List ℕ) → d < 10 → decimal_loop (suc rounds) d text ≡ (b'0' + d) ∷ text
unfolding decimal_loop
decimal_loop_digit rounds d text h = rw last (ap (λ (t : ℕ). (b'0' + t) ∷ text) (omega arith))
  where
    last : (d / 10 == 0) ≡ true
    last = ground arith

read_number_prints :
    (s : List ℕ) (u : ℕ)
    → read_number s ≡ some u
    → (decimal_loop 20 u [] ≡ s) × (1 ≤ u) × (u < 2 ^ 64)
unfolding read_number
read_number_prints [] u e = cc
read_number_prints (c ∷ rest) u e =
    let (lo, hi, tail) = first e in
    let (prints, low, high) =
      read_digits_prints rest (c - b'0') u [] (omega arith) (omega arith) tail in
    (
      prints
          ∙ decimal_loop_digit 19 (c - b'0') (rest ++ []) (omega arith)
          ∙ ap₂ (λ (t : ℕ) (l : List ℕ). t ∷ l) (omega arith) (append-nil rest),
      low,
      high,
    )
  where
    first :
        (if leb b'1' c && leb c b'9' then read_digits rest (c - b'0') else none) ≡ some u
        → (b'1' ≤ c) × (c ≤ b'9') × (read_digits rest (c - b'0') ≡ some u)
    first e = ground arith

with_sign_inv :
    (negative : Bool) (o : Option ℕ) (v : ℕ)
    → with_sign negative o ≡ some v
    → (u : ℕ) × (o ≡ some u) × (signed_value negative u ≡ some v)
with_sign_inv negative none v e = cc
with_sign_inv negative (some u) v e = (u, refl, e)

pub plain_text : (u : ℕ) → u < 2 ^ 63 → decimal_text u ≡ decimal_loop 20 u []
unfolding decimal_text
plain_text u h = rw positive refl
  where
    positive : is_negative64 u ≡ false
    positive = ground arith

pub negative_text :
    (u : ℕ) → 1 ≤ u → u ≤ 2 ^ 63 → decimal_text (negate64 u) ≡ b'-' ∷ decimal_loop 20 u []
unfolding decimal_text
negative_text u h k = rw (negative, twice) refl
  where
    negative : is_negative64 (negate64 u) ≡ true
    negative = ground arith

    twice : negate64 (negate64 u) ≡ u
    twice = omega arith

plain_accepted :
    (s : List ℕ) (v : ℕ)
    → with_sign false (read_number s) ≡ some v
    → (decimal_text v ≡ s) × (v < 2 ^ 64)
plain_accepted s v e =
    let (u, number, signed) = with_sign_inv false (read_number s) v e in
    let (prints, low, high) = read_number_prints s u number in
    let (small, same) = value u signed in
    (ap decimal_text same ∙ plain_text u small ∙ prints, omega arith)
  where
    value : (u : ℕ) → signed_value false u ≡ some v → (u < 2 ^ 63) × (v ≡ u)
    value u e = unfold signed_value in ground arith

negative_accepted :
    (s : List ℕ) (v : ℕ)
    → with_sign true (read_number s) ≡ some v
    → (decimal_text v ≡ b'-' ∷ s) × (v < 2 ^ 64)
negative_accepted s v e =
    let (u, number, signed) = with_sign_inv true (read_number s) v e in
    let (prints, low, high) = read_number_prints s u number in
    let (small, same) = value u signed in
    (
      ap decimal_text same ∙ negative_text u low small ∙ ap (λ (l : List ℕ). b'-' ∷ l) prints,
      omega arith,
    )
  where
    value : (u : ℕ) → signed_value true u ≡ some v → (u ≤ 2 ^ 63) × (v ≡ negate64 u)
    value u e = unfold signed_value in ground arith

only_zero : (c : ℕ) (rest : List ℕ) → (c == b'0' && length rest == 0) ≡ true → c ∷ rest ≡ b'0' ∷ []
only_zero c [] e = ap (λ (t : ℕ). t ∷ []) (ground arith)
only_zero c (d ∷ rest) e = ground arith

pub zero_text : decimal_text 0 ≡ b'0' ∷ []
unfolding decimal_text decimal_loop
zero_text = refl

-- The three ways in which string2ll succeeds.
string2ll_cases :
    (c : ℕ) (rest : List ℕ) (v : ℕ)
    → string2ll (c ∷ rest) ≡ some v
    → ((c ∷ rest ≡ b'0' ∷ []) × (v ≡ 0))
      ⊎ ((c ≡ b'-') × (with_sign true (read_number rest) ≡ some v)
          ⊎ (with_sign false (read_number (c ∷ rest)) ≡ some v))
unfolding string2ll
string2ll_cases c rest v e = elim (Bool-cases (c == b'0' && length rest == 0)) [
  | inl alone ↦ inl (only_zero c rest alone, ground arith)
  | inr other ↦ elim (Bool-cases (c == b'-')) [
    | inl minus ↦ inr (inl (ground arith, ground arith))
    | inr plain ↦ inr (inr (ground arith))
  ]
]

-- A text that `string2ll` accepts is the text that `ll2string` prints of its value, which is a
-- 64-bit pattern.
pub decimal_text-string2ll :
    (s : List ℕ) (v : ℕ) → string2ll s ≡ some v → (decimal_text v ≡ s) × (v < 2 ^ 64)
decimal_text-string2ll [] v e = unfold string2ll in cc
decimal_text-string2ll (c ∷ rest) v e = elim (string2ll_cases c rest v e) [
  | inl (alone, zero_value) ↦ (ap decimal_text zero_value ∙ zero_text ∙ sym alone, omega arith)
  | inr (inl (minus, accepted)) ↦
      let (prints, fits) = negative_accepted rest v accepted in
      (prints ∙ ap (λ (t : ℕ). t ∷ rest) (sym minus), fits)
  | inr (inr accepted) ↦ plain_accepted (c ∷ rest) v accepted
]
