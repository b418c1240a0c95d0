-- ===== src/StringHelper/Decimal/Printed.antt =====
-- `string2ll` on what `ll2string` prints (src/common/util/string_helper.cpp).
use ardb.Prelude.{
  ℕ, zero, suc, ◌+◌, ◌-◌, ◌*◌, ◌/◌, ◌%◌, ◌^◌, ◌≤◌, ◌<◌, ◌≡◌, refl, ap, sym, ◌∙◌, arith, List, [],
  ◌∷◌, true, false, Option, none, some, ltb, ◌==◌, if◌then◌else◌,
}
use native.Mathlib.Decide.{dec_lt}
use native.Mathlib.Nat.{pow-suc}
use ardb.StringHelper.{
  decimal_loop, decimal_text, negate64, read_digits, read_number, signed_value, with_sign,
  string2ll, is_digit, ullong_max,
}
use ardb.StringHelper.Decimal.{decimal_loop_digit, plain_text, negative_text, zero_text}

read_digits_step :
    (d w : ℕ) (text : List ℕ)
    → d < 10
    → w * 10 + d < 2 ^ 64
    → read_digits ((b'0' + d) ∷ text) w ≡ read_digits text (w * 10 + d)
unfolding read_digits
read_digits_step d w text h k = rw same (accepts (read_digits text (w * 10 + d)))
  where
    same : b'0' + d - b'0' ≡ d
    same = omega arith

    accepts :
        (more : Option ℕ)
        → (if is_digit (b'0' + d)
            then (if ltb (ullong_max / 10) w
                then none
                else if ltb (ullong_max - d) (w * 10)
                then none
                else more)
            else none)
          ≡ more
    accepts more = ground arith

-- The text of a number that is at least 1 starts with a digit 1 to 9, and the digits behind it
-- lead to the number.
number_text_shape :
    (rounds v : ℕ) (text : List ℕ)
    → 1 ≤ v
    → v < 10 ^ rounds
    → v < 2 ^ 64
    → (c : ℕ) × (r : List ℕ) × (decimal_loop rounds v text ≡ c ∷ r)
      × (b'1' ≤ c)
      × (c ≤ b'9')
      × (read_digits r (c - b'0') ≡ read_digits text v)
number_text_shape zero v text h k fits = absurd (omega arith)
number_text_shape (suc rounds) v text h k fits = elim (dec_lt v 10) [
  | yes small ↦ (
    b'0' + v,
    text,
    decimal_loop_digit rounds v text small,
    omega arith,
    omega arith,
    ap (read_digits text) (omega arith),
  )
  | no large ↦
      let (c, r, shape, lo, hi, reads) =
        number_text_shape rounds (v / 10) ((b'0' + v % 10) ∷ text) (omega arith)
          (omega (arith, pow-suc 10 rounds)) (omega arith) in
      (c, r, step (ground arith) ∙ shape, lo, hi, reads ∙ read_on v text fits)
]
  where
    step :
        (v / 10 == 0) ≡ false
        → decimal_loop (suc rounds) v text ≡ decimal_loop rounds (v / 10) ((b'0' + v % 10) ∷ text)
    step e = unfold decimal_loop in rw e refl

    read_on :
        (v : ℕ) (text : List ℕ)
        → v < 2 ^ 64
        → read_digits ((b'0' + v % 10) ∷ text) (v / 10) ≡ read_digits text v
    read_on v text fits =
        read_digits_step (v % 10) (v / 10) text (omega arith) (omega arith)
        ∙ ap (read_digits text) (omega arith)

read_number-text : (v : ℕ) → 1 ≤ v → v < 2 ^ 64 → read_number (decimal_loop 20 v []) ≡ some v
read_number-text v h fits =
    let (c, r, shape, lo, hi, reads) = number_text_shape 20 v [] h (omega arith) fits in
    rw shape (accepts c r lo hi ∙ reads ∙ unfold read_digits in refl)
  where
    accepts :
        (c : ℕ) (r : List ℕ) → b'1' ≤ c → c ≤ b'9' → read_number (c ∷ r) ≡ read_digits r (c - b'0')
    accepts c r lo hi = unfold read_number in ground arith

string2ll-plain : (v : ℕ) → 1 ≤ v → v < 2 ^ 63 → string2ll (decimal_loop 20 v []) ≡ some v
string2ll-plain v h fits =
    let (c, r, shape, lo, hi, reads) = number_text_shape 20 v [] h (omega arith) (omega arith) in
    let number = read_number-text v h (omega arith) in
    rw shape
      (takes c r lo hi ∙ ap (with_sign false) (ap read_number (sym shape) ∙ number) ∙ in_range)
  where
    takes :
        (c : ℕ) (r : List ℕ)
        → b'1' ≤ c
        → c ≤ b'9'
        → string2ll (c ∷ r) ≡ with_sign false (read_number (c ∷ r))
    takes c r lo hi = unfold string2ll in ground arith

    in_range : signed_value false v ≡ some v
    in_range = unfold signed_value in ground arith

string2ll-negative :
    (u : ℕ) → 1 ≤ u → u ≤ 2 ^ 63 → string2ll (b'-' ∷ decimal_loop 20 u []) ≡ some (negate64 u)
unfolding string2ll
string2ll-negative u h fits = ap (with_sign true) (read_number-text u h (omega arith)) ∙ in_range
  where
    in_range : signed_value true u ≡ some (negate64 u)
    in_range = unfold signed_value in ground arith

-- `string2ll` accepts the text that `ll2string` prints of any 64-bit integer, and gives the
-- integer.
pub string2ll-decimal_text : (v : ℕ) → v < 2 ^ 64 → string2ll (decimal_text v) ≡ some v
string2ll-decimal_text zero h = rw zero_text (unfold string2ll in refl)
string2ll-decimal_text (suc n) h = elim (dec_lt (suc n) (2 ^ 63)) [
  | yes small ↦ rw (plain_text (suc n) small) (string2ll-plain (suc n) (omega arith) small)
  | no large ↦
      let u : ℕ = negate64 (suc n) in
      let twice : negate64 u ≡ suc n = omega arith in
      ap string2ll (ap decimal_text (sym twice) ∙ negative_text u (omega arith) (omega arith))
      ∙ string2ll-negative u (omega arith) (omega arith)
      ∙ ap some twice
]
