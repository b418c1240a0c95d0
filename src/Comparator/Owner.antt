-- ===== src/Comparator/Owner.antt =====
-- `Data::Compare` of src/types.cpp on borrowed strings, which the comparator decodes.
use ardb.Prelude.{◌≡◌, refl, Bool, true, false}
use ardb.Data
use ardb.Data.{
  Data, Float, nil, int64, float64, cstr, sds, is_nil, is_string, is_integer, is_float, is_number,
  get_int64, get_float64, compared_bytes,
}
use ardb.Data.Codec.{reowned}

-- What is compared does not depend on who owns the bytes.
same_text : (f : Float) (d : Data) → compared_bytes f (reowned false d) ≡ compared_bytes f d
unfolding compared_bytes
same_text f nil = refl
same_text f (int64 v) = refl
same_text f (float64 v) = refl
same_text f (cstr s) = refl
same_text f (sds s) = refl

same_nil : (d : Data) → is_nil (reowned false d) ≡ is_nil d
unfolding is_nil
same_nil nil = refl
same_nil (int64 v) = refl
same_nil (float64 v) = refl
same_nil (cstr s) = refl
same_nil (sds s) = refl

same_integer : (d : Data) → is_integer (reowned false d) ≡ is_integer d
unfolding is_integer
same_integer nil = refl
same_integer (int64 v) = refl
same_integer (float64 v) = refl
same_integer (cstr s) = refl
same_integer (sds s) = refl

same_float : (d : Data) → is_float (reowned false d) ≡ is_float d
unfolding is_float
same_float nil = refl
same_float (int64 v) = refl
same_float (float64 v) = refl
same_float (cstr s) = refl
same_float (sds s) = refl

same_int64 : (d : Data) → get_int64 (reowned false d) ≡ get_int64 d
unfolding get_int64
same_int64 nil = refl
same_int64 (int64 v) = refl
same_int64 (float64 v) = refl
same_int64 (cstr s) = refl
same_int64 (sds s) = refl

same_float64 : (f : Float) (d : Data) → get_float64 f (reowned false d) ≡ get_float64 f d
unfolding get_float64
same_float64 f nil = refl
same_float64 f (int64 v) = refl
same_float64 f (float64 v) = refl
same_float64 f (cstr s) = refl
same_float64 f (sds s) = refl

-- Comparing the borrowed forms of two values gives what comparing the values gives, with the
-- alphabetic flag or without.
pub compare-reowned :
    (f : Float) (alpha : Bool) (a b : Data)
    → Data.compare f (reowned false a) (reowned false b) alpha ≡ Data.compare f a b alpha
unfolding Data.compare
compare-reowned f alpha a b =
    rw
      (
        same_text f a,
        same_text f b,
        same_nil a,
        same_nil b,
        same_integer a,
        same_integer b,
        same_float a,
        same_float b,
        same_int64 a,
        same_int64 b,
        same_float64 f a,
        same_float64 f b,
      )
      refl

-- Two strings are compared as text either way.
pub compare_alpha :
    (f : Float) (a b : Data)
    → is_string a ≡ true
    → is_string b ≡ true
    → Data.compare f a b true ≡ Data.compare f a b false
unfolding Data.compare is_string is_nil is_integer is_number is_float
compare_alpha f (cstr s) (cstr t) h k = refl
compare_alpha f (cstr s) (sds t) h k = refl
compare_alpha f (sds s) (cstr t) h k = refl
compare_alpha f (sds s) (sds t) h k = refl
compare_alpha f nil b h k = cc
compare_alpha f (int64 v) b h k = cc
compare_alpha f (float64 v) b h k = cc
compare_alpha f (cstr s) nil h k = cc
compare_alpha f (cstr s) (int64 v) h k = cc
compare_alpha f (cstr s) (float64 v) h k = cc
compare_alpha f (sds s) nil h k = cc
compare_alpha f (sds s) (int64 v) h k = cc
compare_alpha f (sds s) (float64 v) h k = cc
