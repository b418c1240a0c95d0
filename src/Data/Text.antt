-- ===== src/Data/Text.antt =====
-- `SetString` and `ToString` of `Data` (src/types.cpp).
use ardb.Prelude.{
  ℕ, ◌^◌, ◌<◌, ◌≡◌, ◌∙◌, Bool, true, false, List, arith, length, take_ge, leb, ◌&&◌, Bool-cases,
  Option-cases, inl, inr, ◌%◌,
}
use ardb.StringHelper.{string2ll}
use ardb.StringHelper.Decimal.{decimal_text-string2ll}
use ardb.StringHelper.Digits.{ll2string_whole}
use ardb.Data.{Float, set_bytes, set_string, to_string}

to_string-set_bytes :
    (f : Float) (s : List ℕ) (clone : Bool)
    → length s < 2 ^ 32
    → to_string f (set_bytes s clone) ≡ s
unfolding to_string set_bytes
to_string-set_bytes f s true h = take_ge (length s % 2 ^ 32) s (omega arith)
to_string-set_bytes f s false h = take_ge (length s % 2 ^ 32) s (omega arith)

-- `ToString` after `SetString` gives the text back, for every text below 2 ^ 32 bytes, whether or
-- not it was stored as an integer and whoever owns it.
pub to_string-set_string :
    (f : Float) (s : List ℕ) (try_int_encoding clone : Bool)
    → length s < 2 ^ 32
    → to_string f (set_string s try_int_encoding clone) ≡ s
unfolding set_string
to_string-set_string f s try clone h = elim (Bool-cases (try && leb (length s) 21)) [
  | inl tried ↦ elim (Option-cases (string2ll s)) [
    | inl no_number ↦ rw (tried, no_number) (to_string-set_bytes f s clone h)
    | inr (v, number) ↦
        let (text, fits) = decimal_text-string2ll s v number in
        rw (tried, number) (unfold to_string in ll2string_whole v fits ∙ text)
  ]
  | inr plain ↦ rw plain (to_string-set_bytes f s clone h)
]
