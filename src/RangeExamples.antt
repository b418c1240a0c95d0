-- ===== src/RangeExamples.antt =====
-- The theorem about lexical ranges, `ZLexRangeSpec` of src/db/codec.cpp, at a concrete range: from `(b` to
-- `[d`.
use ardb.Prelude.{ℕ, ◌≡◌, refl, List, [], ◌∷◌}
use ardb.Prelude.Int.{pos}
use ardb.Tree.{is_empty}
use ardb.RangeSpec.{
  new_lex_range, is_char, starts_with, verify_lexrange_para, bound, included, parse, in_range,
}
use ardb.RangeSpec.Lex.{exclusive, inclusive, min_text, max_text, in_range-parse}

abbrev b_excluded : List ℕ
b_excluded = min_text (exclusive (98 ∷ []))

abbrev d_included : List ℕ
d_included = max_text (inclusive (100 ∷ []))

in_range-parse_example :
    in_range (parse b_excluded d_included new_lex_range).1 (99 ∷ 1 ∷ []) ≡ pos 0
unfolding is_empty parse bound included verify_lexrange_para is_char starts_with
in_range-parse_example =
    in_range-parse (exclusive (98 ∷ [])) (inclusive (100 ∷ [])) new_lex_range (99 ∷ 1 ∷ []) refl
      refl
