-- ===== src/Data.antt =====
-- `Data` of src/types.hpp and src/types.cpp: a value in a key or a record, which is nothing, a
-- 64-bit integer, a double, or a string that it borrows (E_CSTR) or owns (E_SDS).
-- Integers and doubles are the 64 bits of `data`. A string is its bytes: the copy that E_SDS owns
-- and the caller's memory that E_CSTR points to are not told apart by what they hold.
-- Doubles are a parameter: the conversion from an integer, the order, the sum and the text.
pub mod Codec
pub mod Text
pub mod Order
use ardb.Prelude.{
  ℕ, zero, suc, ◌+◌, ◌-◌, ◌%◌, ◌^◌, Bool, true, false, not, ◌&&◌, ◌||◌, Option, none, some, List,
  [], ◌∷◌, ◌++◌, ltb, leb, ◌==◌, if◌then◌else◌, length, take, replicate, min,
}
use ardb.Prelude.Int.{ℤ, pos, negsuc, sub_ℕ, minus_one, is_zero}
use ardb.StringHelper.{digits10, ll2string, string2ll, is_negative64, negate64}
use ardb.Buffer
use ardb.ByteIo.{Reader, Writer, pure, fail, ◌>>=◌, ◌⨾◌, write_all}
use ardb.BufferHelper.Varint.{write_var_int64, write_var_uint32, read_var_int64, read_var_uint32}

-- What the code takes from the hardware and the C library on doubles.
pub record Float : Type 0 where
  pub of_int64 : ℕ → ℕ
  pub lt : ℕ → ℕ → Bool
  pub add : ℕ → ℕ → ℕ
  pub to_text : ℕ → List ℕ

pub data Data : Type 0 where
  nil : Data
  int64 : ℕ → Data
  float64 : ℕ → Data
  cstr : List ℕ → Data
  sds : List ℕ → Data

abbrev pub e_int64 : ℕ
e_int64 = 1

abbrev pub e_float64 : ℕ
e_float64 = 2

abbrev pub e_cstr : ℕ
e_cstr = 3

abbrev pub e_sds : ℕ
e_sds = 4

unfoldable pub is_integer : Data → Bool
is_integer (int64 v) = true
is_integer _ = false

unfoldable pub is_float : Data → Bool
is_float (float64 v) = true
is_float _ = false

unfoldable pub is_number : Data → Bool
unfolding is_integer is_float
is_number d = is_integer d || is_float d

unfoldable pub is_nil : Data → Bool
is_nil nil = true
is_nil _ = false

unfoldable pub is_string : Data → Bool
is_string (cstr s) = true
is_string (sds s) = true
is_string _ = false

-- `len`, which holds 32 bits of the length of a string
abbrev pub data_len : Data → ℕ
data_len (cstr s) = length s
data_len (sds s) = length s
data_len _ = 0

unfoldable pub string_length : Data → ℕ
string_length (int64 v) = digits10 v
string_length d = data_len d

-- The bytes at CStr(), which is a null pointer unless the value is a string.
unfoldable pub c_str : Data → Option (List ℕ)
c_str (cstr s) = some s
c_str (sds s) = some s
c_str _ = none

-- SetString(const char* str, size_t slen, bool clone)
unfoldable pub set_bytes : List ℕ → Bool → Data
set_bytes str clone =
    let kept = take (length str % 2 ^ 32) str in if clone then sds kept else cstr kept

-- SetString(const std::string& str, bool try_int_encoding, bool clone)
unfoldable pub set_string : List ℕ → Bool → Bool → Data
unfolding set_bytes
set_string str try_int_encoding clone =
    if try_int_encoding && leb (length str) 21
    then elim (string2ll str) [ some v ↦ int64 v | none ↦ set_bytes str clone ]
    else set_bytes str clone

unfoldable pub get_int64 : Data → ℕ
get_int64 (int64 v) = v
get_int64 _ = 0

unfoldable pub to_string : Float → Data → List ℕ
to_string f nil = []
to_string f (int64 v) = ll2string (digits10 v + 1) v
to_string f (float64 v) = f.to_text v
to_string f (cstr s) = s
to_string f (sds s) = s

unfoldable pub get_float64 : Float → Data → ℕ
get_float64 f (float64 v) = v
get_float64 f (int64 v) = f.of_int64 v
get_float64 f _ = 0

-- ToMutableStr(): the value afterwards; the result points to its bytes, or is null for nothing
unfoldable pub to_mutable_str : Float → Data → Data
unfolding set_string to_string
to_mutable_str f nil = nil
to_mutable_str f (sds s) = sds s
to_mutable_str f d = set_string (to_string f d) false true

-- ReserveStringSpace(size_t size); the new bytes behind the old ones are 0
unfoldable pub reserve_string_space : Float → ℕ → Data → Data
unfolding to_mutable_str
reserve_string_space f size d =
    let d' = to_mutable_str f d in
    if ltb (string_length d') size
    then elim (c_str d') [
      | some s ↦ sds (s ++ replicate (size - string_length d') 0)
      | none ↦ sds (replicate size 0)
    ]
    else d'

unfoldable pub encode : Data → Writer
encode nil = write_all (0 ∷ [])
encode (int64 v) = write_all (e_int64 ∷ []) ⨾ write_var_int64 v
encode (float64 v) = write_all (e_float64 ∷ []) ⨾ write_var_int64 v
encode (cstr s) = write_all (e_sds ∷ []) ⨾ write_var_uint32 (length s) ⨾ write_all s
encode (sds s) = write_all (e_sds ∷ []) ⨾ write_var_uint32 (length s) ⨾ write_all s

-- `if (buffer.ReadableBytes() < n) return false;`, the bytes at the read index, and the advance
-- over them, for an `n` that the `int` parameter of AdvanceReadIndex holds
unfoldable pub take_raw : ℕ → Reader (List ℕ)
take_raw n b =
    if ltb (Buffer.readable_bytes b) n
    then (none, b)
    else (some (Buffer.raw_read_bytes n b), Buffer.advance_read_index n b)

unfoldable pub decode_string : Bool → Reader Data
unfolding take_raw
decode_string clone_str = do
  strlen ← read_var_uint32
  ss ← take_raw strlen
  pure (if clone_str then sds ss else cstr ss)

unfoldable pub decode : Bool → Reader Data
unfolding decode_string
decode clone_str = do
  header ← Buffer.read_byte
  if header == 0
      then pure nil
      else if header == e_int64
      then (do v ← read_var_int64; pure (int64 v))
      else if header == e_float64
      then (do v ← read_var_int64; pure (float64 v))
      else if header == e_cstr || header == e_sds
      then decode_string clone_str
      else fail

-- The bytes that Compare looks at when it compares text. An integer is printed by ll2string into
-- as many bytes as it has digits, the last of which is then the final NUL.
unfoldable pub compared_bytes : Float → Data → List ℕ
compared_bytes f nil = []
compared_bytes f (int64 v) = ll2string (digits10 v) v ++ 0 ∷ []
compared_bytes f (float64 v) = f.to_text v
compared_bytes f (cstr s) = s
compared_bytes f (sds s) = s

-- memcmp of the first n bytes, as its sign
unfoldable pub memcmp : ℕ → List ℕ → List ℕ → ℤ
memcmp zero xs ys = pos 0
memcmp (suc n) (x ∷ xs) (y ∷ ys) =
    let rest = memcmp n xs ys in if ltb x y then minus_one else if ltb y x then pos 1 else rest
memcmp (suc n) xs ys = pos 0

-- left_len - right_len: the difference of two uint32, wrapped, as an `int`
unfoldable pub length_difference : ℕ → ℕ → ℤ
length_difference m n =
    let d = (m + (2 ^ 32 - n % 2 ^ 32)) % 2 ^ 32 in
    if ltb d (2 ^ 31) then pos d else negsuc (2 ^ 32 - d - 1)

-- The end of Compare.
unfoldable pub compare_bytes : List ℕ → List ℕ → ℤ
unfolding memcmp
compare_bytes left right =
    let min_len = if ltb (length left) (length right) then length left else length right in
    let lengths = length_difference (length left) (length right) in
    let ret = memcmp min_len left right in
    if min_len == 0 then lengths else if is_zero ret then lengths else ret

-- cmp > 0 ? 1 : (cmp < 0 ? -1 : 0) on the wrapped difference of two int64_t
unfoldable pub compare_int64 : ℕ → ℕ → ℤ
compare_int64 a b =
    let cmp = (a + negate64 b) % 2 ^ 64 in
    if is_negative64 cmp then minus_one else if cmp == 0 then pos 0 else pos 1

unfoldable pub compare_float64 : Float → ℕ → ℕ → ℤ
compare_float64 f v1 v2 = if f.lt v2 v1 then pos 1 else if f.lt v1 v2 then minus_one else pos 0

abbrev pub count_true : Bool → ℕ
count_true b = if b then 1 else 0

-- Compare(const Data& right, bool alpha_cmp)
unfoldable pub compare : Float → Data → Data → Bool → ℤ
unfolding is_nil is_integer is_number compare_int64 compare_float64
compare f left right alpha_cmp =
    let text = compare_bytes (compared_bytes f left) (compared_bytes f right) in
    if is_nil left || is_nil right
    then sub_ℕ (count_true (is_nil right)) (count_true (is_nil left))
    else if alpha_cmp
    then text
    else if is_integer left && is_integer right
    then compare_int64 (get_int64 left) (get_int64 right)
    else if is_number left && is_number right
    then compare_float64 f (get_float64 f left) (get_float64 f right)
    else if is_number left
    then minus_one
    else if is_number right
    then pos 1
    else text

-- DataHash
unfoldable pub data_hash : Data → ℕ
data_hash t = if is_integer t then get_int64 t else 0

-- DataEqual
unfoldable pub data_equal : Float → Data → Data → Bool
data_equal f s1 s2 = is_zero (compare f s1 s2 false)
