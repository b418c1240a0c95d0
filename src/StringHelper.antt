-- ===== src/StringHelper.antt =====
-- Decimal text of 64-bit integers: `string2ll` and `ll2string` of
-- src/common/util/string_helper.cpp and `digits10` of src/common/util/math_helper.cpp.
-- A text is its list of bytes; an int64_t is its bit pattern, below 2 ^ 64.
pub mod Decimal
pub mod Digits
use ardb.Prelude.{
  ℕ, zero, suc, ◌+◌, ◌-◌, ◌*◌, ◌/◌, ◌%◌, ◌^◌, Bool, true, false, ◌&&◌, ◌||◌, Option, none, some,
  List, [], ◌∷◌, ◌++◌, ltb, leb, ◌==◌, if◌then◌else◌, length, take,
}

abbrev pub is_negative64 : ℕ → Bool
is_negative64 v = leb (2 ^ 63) v

-- -v of an int64_t, which wraps
abbrev pub negate64 : ℕ → ℕ
negate64 v = (2 ^ 64 - v) % 2 ^ 64

-- v < 0 ? -v : v, as an unsigned number
abbrev pub magnitude64 : ℕ → ℕ
magnitude64 v = if is_negative64 v then negate64 v else v

-- lludigits10 below P12
unfoldable pub digits_below_p12 : ℕ → ℕ
digits_below_p12 v =
    if ltb v 10
    then 1
    else if ltb v 100
    then 2
    else if ltb v 1000
    then 3
    else if ltb v (10 ^ 8)
    then (if ltb v (10 ^ 6)
        then (if ltb v 10000 then 4 else if leb 100000 v then 6 else 5)
        else if leb (10 ^ 7) v
        then 8
        else 7)
    else if ltb v (10 ^ 10)
    then (if leb (10 ^ 9) v then 10 else 9)
    else if leb (10 ^ 11) v
    then 12
    else 11

-- lludigits10. Its call of digits10 on the quotient, which is not negative, comes back to it; the
-- fuel is the number of such rounds, and one is enough for 64 bits.
unfoldable pub lludigits10 : ℕ → ℕ → ℕ
unfolding digits_below_p12
lludigits10 zero v = digits_below_p12 v
lludigits10 (suc rounds) v =
    let more = 12 + lludigits10 rounds (v / 10 ^ 12) in
    if ltb v (10 ^ 12) then digits_below_p12 v else more

unfoldable pub digits10 : ℕ → ℕ
digits10 v = let len = lludigits10 1 (magnitude64 v) in if is_negative64 v then len + 1 else len

-- `do { *p-- = '0' + (v % 10); v /= 10; } while (v);` in front of what is there already; a 64-bit
-- number has at most 20 digits.
unfoldable pub decimal_loop : ℕ → ℕ → List ℕ → List ℕ
decimal_loop zero v text = text
decimal_loop (suc rounds) v text =
    let text' = (b'0' + v % 10) ∷ text in
    let more = decimal_loop rounds (v / 10) text' in if v / 10 == 0 then text' else more

-- The text that ll2string has built in `buf`.
unfoldable pub decimal_text : ℕ → List ℕ
decimal_text value =
    let digits = decimal_loop 20 (magnitude64 value) [] in
    if is_negative64 value then b'-' ∷ digits else digits

-- The bytes that ll2string leaves in `s` before the final NUL; its result is their number.
unfoldable pub ll2string : ℕ → ℕ → List ℕ
ll2string len value =
    let text = decimal_text value in
    if len == 0 then [] else if ltb len (length text + 1) then take (len - 1) text else text

abbrev pub is_digit : ℕ → Bool
is_digit c = leb b'0' c && leb c b'9'

abbrev pub ullong_max : ℕ
ullong_max = 2 ^ 64 - 1

-- The `while` loop of string2ll and the test after it that every byte was used.
unfoldable pub read_digits : List ℕ → ℕ → Option ℕ
read_digits [] v = some v
read_digits (c ∷ rest) v =
    let d = c - b'0' in
    let more = read_digits rest (v * 10 + d) in
    if is_digit c
    then (if ltb (ullong_max / 10) v
        then none
        else if ltb (ullong_max - d) (v * 10)
        then none
        else more)
    else none

-- The first digit is 1 to 9.
unfoldable pub read_number : List ℕ → Option ℕ
read_number [] = none
read_number (c ∷ rest) = if leb b'1' c && leb c b'9' then read_digits rest (c - b'0') else none

-- The range check at the end of string2ll.
unfoldable pub signed_value : Bool → ℕ → Option ℕ
signed_value true v = if ltb (2 ^ 63) v then none else some (negate64 v)
signed_value false v = if ltb (2 ^ 63 - 1) v then none else some v

abbrev pub with_sign : Bool → Option ℕ → Option ℕ
with_sign negative none = none
with_sign negative (some v) = signed_value negative v

unfoldable pub string2ll : List ℕ → Option ℕ
string2ll [] = none
string2ll (c ∷ rest) =
    if c == b'0' && length rest == 0
    then some 0
    else if c == b'-'
    then with_sign true (read_number rest)
    else with_sign false (read_number (c ∷ rest))
