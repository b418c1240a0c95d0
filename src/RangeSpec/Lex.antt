-- ===== src/RangeSpec/Lex.antt =====
-- A lexical range against the bounds that its text names.
use ardb.Prelude.{ℕ, ◌≡◌, refl, sym, ap, ◌∙◌, Bool, true, false, not, ◌&&◌, List, [], ◌∷◌, arith}
use ardb.Prelude.Int.{ℤ, pos, minus_one}
use ardb.Data.Order.{lex_lt, lex_lt-asymmetric}
use ardb.Tree.{same, is_empty}
use ardb.Context.{bytes_order}
use ardb.RangeSpec.{
  ZLexRangeSpec, starts_with, is_char, verify_lexrange_para, included, bound, parse, between,
  in_range,
}

-- No bound, one that belongs to the range, or one that does not.
pub data Bound : Type 0 where
  unlimited : Bound
  inclusive : List ℕ → Bound
  exclusive : List ℕ → Bound

abbrev bracketed : ℕ → Bound → List ℕ
bracketed c unlimited = c ∷ []
bracketed c (inclusive b) = 91 ∷ b
bracketed c (exclusive b) = 40 ∷ b

-- The bounds as the commands write them.
abbrev pub min_text : Bound → List ℕ
min_text = bracketed 45

abbrev pub max_text : Bound → List ℕ
max_text = bracketed 43

abbrev pub is_above : Bound → List ℕ → Bool
is_above unlimited str = true
is_above (inclusive b) str = not (lex_lt str b)
is_above (exclusive b) str = lex_lt b str

abbrev pub is_below : Bound → List ℕ → Bool
is_below unlimited str = true
is_below (inclusive b) str = not (lex_lt b str)
is_below (exclusive b) str = lex_lt str b

-- The bytes of the bound are some, or there is no bound.
abbrev pub is_proper : Bound → Bool
is_proper unlimited = true
is_proper (inclusive b) = not (is_empty b)
is_proper (exclusive b) = not (is_empty b)

nothing_below : (str : List ℕ) → lex_lt str [] ≡ false
nothing_below [] = refl
nothing_below (b ∷ bs) = refl

abbrev bytes_of : Bound → List ℕ
bytes_of unlimited = []
bytes_of (inclusive b) = b
bytes_of (exclusive b) = b

abbrev belongs : Bound → Bool
belongs unlimited = true
belongs (inclusive b) = true
belongs (exclusive b) = false

abbrev range_of : Bound → Bound → ZLexRangeSpec
range_of lo hi = record {
  min = bytes_of lo;
  max = bytes_of hi;
  include_min = belongs lo;
  include_max = belongs hi;
}

parse_range :
    (lo hi : Bound) (r : ZLexRangeSpec)
    → parse (min_text lo) (max_text hi) r
      ≡ (not (lex_lt (bytes_of hi) (bytes_of lo) && not (is_empty (bytes_of hi))), range_of lo hi)
unfolding parse bound included verify_lexrange_para is_char starts_with is_empty
parse_range unlimited unlimited r = refl
parse_range unlimited (inclusive b) r = refl
parse_range unlimited (exclusive b) r = refl
parse_range (inclusive a) unlimited r = refl
parse_range (inclusive a) (inclusive b) r = refl
parse_range (inclusive a) (exclusive b) r = refl
parse_range (exclusive a) unlimited r = refl
parse_range (exclusive a) (inclusive b) r = refl
parse_range (exclusive a) (exclusive b) r = refl

not_both : (xs ys : List ℕ) → lex_lt xs ys ≡ true → lex_lt ys xs ≡ false
not_both [] [] h = refl
not_both [] (y ∷ ys) h = refl
not_both (x ∷ xs) [] h = cc
not_both (x ∷ xs) (y ∷ ys) h = ground (arith, not_both xs ys)

same-eq :
    (xs ys zs : List ℕ) → lex_lt xs ys ≡ false → lex_lt ys xs ≡ false → lex_lt zs xs ≡ lex_lt zs ys
same-eq xs ys zs h k = ap (lex_lt zs) (lex_lt-asymmetric xs ys h k)

abbrev pub place : Bool → Bool → ℤ
place true true = pos 0
place true false = pos 1
place false below = minus_one

negated : (b : Bool) → not b ≡ true → b ≡ false
negated true h = cc
negated false h = refl

in_range_of :
    (lo hi : Bound) (str : List ℕ)
    → is_proper hi ≡ true
    → (lex_lt (bytes_of hi) (bytes_of lo) && not (is_empty (bytes_of hi))) ≡ false
    → in_range (range_of lo hi) str ≡ place (is_above lo str) (is_below hi str)
unfolding in_range between same bytes_order is_empty
in_range_of unlimited unlimited str p o = rw (nothing_below str) refl
in_range_of unlimited (inclusive b) str p o = ground (arith, nothing_below str)
in_range_of unlimited (exclusive b) str p o =
    ground (arith, nothing_below str, not_both str b, not_both b str)
in_range_of (inclusive a) unlimited str p o = ground arith
in_range_of (inclusive a) (inclusive b) str p o = ground arith
in_range_of (inclusive a) (exclusive b) str p o = ground (arith, not_both str b, not_both b str)
in_range_of (exclusive a) unlimited str p o = ground (arith, not_both str a, not_both a str)
in_range_of (exclusive a) (inclusive b) str p o =
    ground (arith, not_both str a, not_both a str, same-eq str a b)
in_range_of (exclusive a) (exclusive b) str p o =
    ground (arith, not_both str a, not_both a str, not_both str b, not_both b str, same-eq str a b)

-- Where the texts of a lower and an upper bound (`-`, `+`, or `[` or `(` and bytes, which are some
-- for the upper bound) are parsed with success, whatever the range was before,
-- `ZLexRangeSpec::InRange` is 0 for the strings inside of the bounds, 1 for those inside of the
-- lower bound but outside of the upper one, and -1 for those outside of the lower one.
pub in_range-parse :
    (lo hi : Bound) (r : ZLexRangeSpec) (str : List ℕ)
    → is_proper hi ≡ true
    → (parse (min_text lo) (max_text hi) r).0 ≡ true
    → in_range (parse (min_text lo) (max_text hi) r).1 str
      ≡ place (is_above lo str) (is_below hi str)
in_range-parse lo hi r str p ok =
    ap (λ x. in_range x.1 str) (parse_range lo hi r)
    ∙ in_range_of lo hi str p (negated _ (ap (λ x. x.0) (sym (parse_range lo hi r)) ∙ ok))
