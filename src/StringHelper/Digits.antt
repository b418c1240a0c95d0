-- ===== src/StringHelper/Digits.antt =====
-- `digits10` of src/common/util/math_helper.cpp and the text that `ll2string` prints.
use ardb.Prelude.{
  ℕ, zero, suc, ◌+◌, ◌-◌, ◌*◌, ◌/◌, ◌%◌, ◌^◌, ◌≤◌, ◌<◌, ◌≡◌, refl, ap, ◌∙◌, ◌⊎◌, inl, inr, arith,
  List, [], ◌∷◌, length, take, ltb, ◌==◌, if◌then◌else◌, lt→ltb, Bool, true, false,
}
use native.Mathlib.Decide.{dec_lt}
use native.Mathlib.Nat.{pow-suc, one-le-pow}
use ardb.StringHelper.{
  digits_below_p12, lludigits10, digits10, decimal_loop, decimal_text, ll2string, magnitude64,
  is_negative64,
}

-- `n` digits, the first of them not 0 unless it is alone.
abbrev HasDigits : ℕ → ℕ → Type 0
HasDigits v n = (1 ≤ n) × (v < 10 ^ n) × ((n ≡ 1) ⊎ (10 ^ (n - 1) ≤ v))

digits_below_p12-HasDigits : (v : ℕ) → v < 10 ^ 12 → HasDigits v (digits_below_p12 v)
unfolding digits_below_p12
digits_below_p12-HasDigits v h = ground arith

shift_twelve : (n : ℕ) → 10 ^ (12 + n) ≡ 10 ^ 12 * 10 ^ n
shift_twelve zero = refl
shift_twelve (suc n) =
    ap (λ (t : ℕ). 10 ^ t) (step n)
    ∙ pow-suc 10 (12 + n)
    ∙ omega (arith, shift_twelve n, pow-suc 10 n)
  where
    step : (n : ℕ) → 12 + suc n ≡ suc (12 + n)
    step n = omega arith

shifted : (v n : ℕ) → 10 ^ 12 ≤ v → HasDigits (v / 10 ^ 12) n → HasDigits v (12 + n)
shifted v n h (lo, hi, inl e) =
    (omega arith, rw shift_twelve (omega arith), inr (rw (e) (omega arith)))
shifted v n h (lo, hi, inr first) =
    (omega arith, rw shift_twelve (omega arith), inr (rw (front, shift_twelve) (omega arith)))
  where
    front : 12 + n - 1 ≡ 12 + (n - 1)
    front = omega arith

lludigits10-HasDigits : (v : ℕ) → v < 2 ^ 64 → HasDigits v (lludigits10 1 v)
unfolding lludigits10
lludigits10-HasDigits v h = elim (dec_lt v (10 ^ 12)) [
  | yes small ↦ rw (lt→ltb v _ small) (digits_below_p12-HasDigits v small)
  | no large ↦ rw (big large) (
      shifted _ (digits_below_p12 (v / 10 ^ 12)) (omega arith)
        (digits_below_p12-HasDigits (v / 10 ^ 12) (omega arith)))
]
  where
    big : ¬ (v < 10 ^ 12) → ltb v (10 ^ 12) ≡ false
    big n = ground arith

pow_pred : (m : ℕ) → 10 ^ (suc m - 1) ≡ 10 ^ m
pow_pred m = ap (λ (t : ℕ). 10 ^ t) {x = suc m - 1} (omega arith)

HasDigits-first : (v m : ℕ) → HasDigits v (suc (suc m)) → 10 ^ suc m ≤ v
HasDigits-first v m (lo, hi, inl e) = absurd (omega arith)
HasDigits-first v m (lo, hi, inr first) = omega (arith, pow_pred (suc m))

HasDigits-rest : (v m : ℕ) → HasDigits v (suc (suc m)) → HasDigits (v / 10) (suc m)
HasDigits-rest v m h = (
  omega arith,
  omega (arith, pow-suc 10 (suc m)),
  inr (omega (arith, HasDigits-first v m h, pow_pred m, pow-suc 10 m)),
)

length-decimal_loop :
    (rounds v n : ℕ) (text : List ℕ)
    → HasDigits v n
    → n ≤ rounds
    → length (decimal_loop rounds v text) ≡ n + length text
unfolding decimal_loop
length-decimal_loop zero v n text h k = absurd (omega arith)
length-decimal_loop (suc rounds) v zero text h k = absurd (omega arith)
length-decimal_loop (suc rounds) v (suc zero) text h k = rw last (omega arith)
  where
    last : (v / 10 == 0) ≡ true
    last = ground arith
length-decimal_loop (suc rounds) v (suc (suc m)) text h k = rw more (
    length-decimal_loop rounds (v / 10) (suc m) ((b'0' + v % 10) ∷ text) (HasDigits-rest v m h)
      (omega arith)
    ∙ omega arith)
  where
    more : (v / 10 == 0) ≡ false
    more = ground (arith, HasDigits-first v m h, pow-suc 10 m, one-le-pow m 10)

few_below_p12 : (v : ℕ) → v < 10 ^ 8 → digits_below_p12 v ≤ 8
unfolding digits_below_p12
few_below_p12 v h = ground arith

lludigits10-le : (v : ℕ) → v < 2 ^ 64 → lludigits10 1 v ≤ 20
unfolding lludigits10
lludigits10-le v h = elim (dec_lt v (10 ^ 12)) [
  | yes small ↦ rw (lt→ltb v _ small) (at_most_twelve v)
  | no large ↦ rw (big large) (omega (arith, few_below_p12 (v / 10 ^ 12) (omega arith)))
]
  where
    big : ¬ (v < 10 ^ 12) → ltb v (10 ^ 12) ≡ false
    big n = ground arith

    at_most_twelve : (v : ℕ) → digits_below_p12 v ≤ 20
    at_most_twelve v = ground arith

signed_length :
    (negative : Bool) (n : ℕ) (text : List ℕ)
    → n ≡ length text
    → (if negative then n + 1 else n) ≡ length (if negative then b'-' ∷ text else text)
signed_length true n text e = omega arith
signed_length false n text e = e

-- `digits10` of a 64-bit integer is the length of its text, the sign included.
pub digits10-eq-length : (v : ℕ) → v < 2 ^ 64 → digits10 v ≡ length (decimal_text v)
unfolding digits10 decimal_text
digits10-eq-length v h =
    signed_length (is_negative64 v) _ _ (magnitude (magnitude64 v) (ground arith))
  where
    magnitude : (m : ℕ) → m < 2 ^ 64 → lludigits10 1 m ≡ length (decimal_loop 20 m [])
    magnitude m h = omega (
      arith,
      length-decimal_loop 20 m (lludigits10 1 m) [] (lludigits10-HasDigits m h)
          (lludigits10-le m h),
    )

-- With that room ll2string prints the whole text.
pub ll2string_whole : (v : ℕ) → v < 2 ^ 64 → ll2string (digits10 v + 1) v ≡ decimal_text v
unfolding ll2string
ll2string_whole v h = ground (arith, digits10-eq-length v)

-- With as many bytes of room as `digits10` says, `ll2string` prints the text of a 64-bit integer
-- without its last digit.
pub ll2string_cut :
    (v : ℕ) → v < 2 ^ 64 → ll2string (digits10 v) v ≡ take (digits10 v - 1) (decimal_text v)
unfolding ll2string
ll2string_cut v h = ground (arith, digits10-eq-length v)
