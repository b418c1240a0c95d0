-- ===== src/RangeSpec.antt =====
-- The lexical ranges of ZRANGEBYLEX and its kin: `ZLexRangeSpec` of src/db/codec.hpp and
-- src/db/codec.cpp. A `std::string` is its bytes, and `operator<` their dictionary order.
use ardb.Prelude.{ℕ, ◌==◌, Bool, true, false, not, ◌&&◌, ◌||◌, List, [], ◌∷◌, if◌then◌else◌, drop}
use ardb.Prelude.Int.{ℤ, pos, minus_one, is_zero}
use ardb.Data.Order.{lex_lt}
use ardb.Tree.{same, is_empty}
use ardb.Context.{bytes_order}
pub mod Lex

pub record ZLexRangeSpec : Type 0 where
  pub min : List ℕ
  pub max : List ℕ
  pub include_min : Bool
  pub include_max : Bool

abbrev pub new_lex_range : ZLexRangeSpec
new_lex_range = record { min = []; max = []; include_min = false; include_max = false }

unfoldable pub starts_with : ℕ → List ℕ → Bool
starts_with c [] = false
starts_with c (b ∷ bs) = b == c

-- The string of one character.
unfoldable pub is_char : ℕ → List ℕ → Bool
is_char c [] = false
is_char c (b ∷ bs) = b == c && is_empty bs

-- `-` or `+`, or `(` or `[` in front.
unfoldable pub verify_lexrange_para : List ℕ → Bool
verify_lexrange_para str =
    is_char 45 str || is_char 43 str || starts_with 40 str || starts_with 91 str

-- Whether a bound is included, which stays as it was for a bound without a bracket.
unfoldable pub included : ℕ → List ℕ → Bool → Bool
included unlimited str before =
    if is_char unlimited str
    then true
    else if starts_with 91 str
    then true
    else if starts_with 40 str
    then false
    else before

unfoldable pub bound : ℕ → List ℕ → List ℕ
bound unlimited str = if is_char unlimited str then [] else drop 1 str

unfoldable pub parse : List ℕ → List ℕ → ZLexRangeSpec → Bool × ZLexRangeSpec
parse minstr maxstr r =
    let parsed : ZLexRangeSpec = record {
      min = bound 45 minstr;
      max = bound 43 maxstr;
      include_min = included 45 minstr r.include_min;
      include_max = included 43 maxstr r.include_max;
    } in
    if not (verify_lexrange_para minstr) || not (verify_lexrange_para maxstr)
    then (false, r)
    else (not (lex_lt parsed.max parsed.min && not (is_empty parsed.max)), parsed)

-- Below the range, in it, or above it.
unfoldable pub between : ZLexRangeSpec → List ℕ → ℤ
between r str =
    if lex_lt str r.min
    then minus_one
    else if is_empty r.max
    then pos 0
    else if lex_lt r.max str
    then pos 1
    else pos 0

unfoldable pub in_range : ZLexRangeSpec → List ℕ → ℤ
in_range r str =
    let in_bounds = between r str in
    if not (is_zero in_bounds)
    then in_bounds
    else if not r.include_min && same str r.min
    then minus_one
    else if not r.include_max && same str r.max
    then pos 1
    else in_bounds
