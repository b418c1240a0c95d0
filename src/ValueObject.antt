-- ===== src/ValueObject.antt =====
-- `ValueObject` of src/db/codec.hpp and src/db/codec.cpp: what the store keeps under a key, or a
-- pending merge operation. The vector of values grows whenever an element is asked for, so an
-- accessor gives the object afterwards as well.
pub mod Codec
use ardb.Prelude.{
  ℕ, zero, suc, ◌+◌, ◌%◌, ◌^◌, ◌&&◌, ◌||◌, Bool, true, false, Option, none, some, List, [], ◌∷◌,
  map, ltb, leb, ◌==◌, if◌then◌else◌, length, get_elem?,
}
use ardb.Prelude.Int.{is_negative, is_positive}
use ardb.Buffer
use ardb.Buffer.{Buffer}
use ardb.ByteIo.{Reader, Writer, pure, fail, ◌>>=◌, ◌⨾◌, skip, write_all}
use ardb.BufferHelper.Fixed.{write_fix_uint16, read_fix_uint16}
use ardb.Data
use ardb.Data.{Data, Float, nil, int64, float64, is_nil, is_string, get_int64, get_float64}
use ardb.StreamId.{StreamId}
use ardb.KeyType.{key_merge}
use ardb.KeyObject.{resize, put_at, encode_elements, decode_elements}
use ardb.MetaObject
use ardb.MetaObject.{MetaObject, new_meta, has_meta}

pub record ValueObject : Type 0 where
  pub type : ℕ
  pub merge_op : ℕ
  pub meta : MetaObject
  pub vals : List Data

-- ValueObject()
abbrev pub new_value : ValueObject
new_value = record { type = 0; merge_op = 0; meta = new_meta; vals = [] }

unfoldable pub clear : ValueObject → ValueObject
clear v = record { type = 0; merge_op = 0; meta = MetaObject.clear v.meta; vals = [] }

-- getElement(idx): the vector grows to hold the index
unfoldable pub grow_to : ℕ → ValueObject → ValueObject
grow_to idx v = if leb (length v.vals) idx then record v { vals = resize (idx + 1) v.vals } else v

-- The element that the reference of getElement(idx) reads.
unfoldable pub element : ℕ → ValueObject → Data
element idx v = elim (get_elem? v.vals idx) [ some d ↦ d | none ↦ nil ]

-- An assignment through the reference of getElement(idx).
unfoldable pub set_element : ℕ → Data → ValueObject → ValueObject
unfolding grow_to
set_element idx d v = let grown = grow_to idx v in record grown { vals = put_at idx d grown.vals }

-- GetObjectLen and SetObjectLen
unfoldable pub object_len : ValueObject → ℕ
object_len v = if v.type == 0 then 0 else v.meta.size

unfoldable pub set_object_len : ℕ → ValueObject → ValueObject
set_object_len n v = record v { meta = record (v.meta) { size = n } }

unfoldable pub set_ttl : ℕ → ValueObject → ValueObject
set_ttl n v = record v { meta = record (v.meta) { ttl = n } }

-- SetStringValue, SetHashValue and SetListElement, for a string
unfoldable pub set_string_value : List ℕ → ValueObject → ValueObject
unfolding set_element
set_string_value s v = set_element 0 (Data.set_string s true true) v

-- SetZSetScore and GetZSetScore
unfoldable pub set_zset_score : ℕ → ValueObject → ValueObject
unfolding set_element
set_zset_score s v = set_element 0 (float64 s) v

unfoldable pub get_zset_score : Float → ValueObject → ℕ
unfolding element
get_zset_score f v = get_float64 f (element 0 v)

-- `GetMin() > v` and `GetMax() < v`
abbrev pub above : Float → Data → Data → Bool
above f x y = is_positive (Data.compare f x y false)

abbrev pub below : Float → Data → Data → Bool
below f x y = is_negative (Data.compare f x y false)

-- The vector resized to two values if it has fewer, and whether it was.
unfoldable pub with_two : ValueObject → Bool × ValueObject
with_two v =
    if ltb (length v.vals) 2 then (true, record v { vals = resize 2 v.vals }) else (false, v)

-- SetMinData
unfoldable pub set_min_data : Float → Data → Bool → ValueObject → Bool × ValueObject
unfolding with_two element set_element
set_min_data f d overwrite v =
    let (replaced, v') = with_two v in
    if overwrite || above f (element 0 v') d || is_nil (element 0 v')
    then (true, set_element 0 d v')
    else (replaced, v')

-- SetMaxData
unfoldable pub set_max_data : Float → Data → Bool → ValueObject → Bool × ValueObject
unfolding with_two element set_element
set_max_data f d overwrite v =
    let (replaced, v') = with_two v in
    if overwrite || below f (element 1 v') d || is_nil (element 1 v')
    then (true, set_element 1 d v')
    else (replaced, v')

-- SetMinMaxData: the first test and the second
unfoldable pub lower_min : Float → Data → Bool × ValueObject → Bool × ValueObject
unfolding element set_element
lower_min f d (replaced, v) =
    if is_nil (element 0 v) || above f (element 0 v) d
    then (true, set_element 0 d v)
    else (replaced, v)

unfoldable pub raise_max : Float → Data → Bool × ValueObject → Bool × ValueObject
unfolding element set_element
raise_max f d (replaced, v) =
    if is_nil (element 1 v) || below f (element 1 v) d
    then (true, set_element 1 d v)
    else (replaced, v)

unfoldable pub set_min_max_data : Float → Data → ValueObject → Bool × ValueObject
unfolding with_two lower_min raise_max
set_min_max_data f d v = raise_max f d (lower_min f d (with_two v))

-- ClearMinMaxData
unfoldable pub clear_min_max_data : ValueObject → ValueObject
unfolding set_element
clear_min_max_data v = set_element 1 nil (set_element 0 nil v)

-- What the type adds behind its byte: the merge operation or the metadata.
unfoldable pub encode_header : ℕ → ℕ → MetaObject → Writer
encode_header t op m =
    if t == key_merge
    then (λ b. (true, (write_fix_uint16 op false b).1))
    else if has_meta t
    then MetaObject.encode t m
    else skip

-- encode_value_object
unfoldable pub encode_value_object : ℕ → ℕ → List Data → MetaObject → Writer
encode_value_object t op args m =
    write_all (t % 256 ∷ [])
    ⨾ encode_header t op m
    ⨾ write_all (length args % 256 ∷ [])
    ⨾ encode_elements args

-- Encode(buffer): the slice that is returned, all that the buffer then holds
unfoldable pub encode : ValueObject → Buffer → List ℕ × Buffer
encode v b =
    if 0 == v.type
    then ([], b)
    else (let b' = (encode_value_object v.type v.merge_op v.vals v.meta b).1 in
        (Buffer.raw_read_bytes (Buffer.readable_bytes b') b', b'))

unfoldable pub decode_header : ℕ → ValueObject → Reader ValueObject
decode_header t v =
    if t == key_merge
    then (do op ← read_fix_uint16 false; pure (record v { type = t; merge_op = op }))
    else if has_meta t
    then (do m ← MetaObject.decode t v.meta; pure (record v { type = t; meta = m }))
    else pure (record v { type = t })

-- DecodeMeta, into an object that is there. An empty buffer is no failure.
unfoldable pub decode_meta : ValueObject → Reader ValueObject
decode_meta old b =
    if Buffer.readable b
    then (do t ← Buffer.read_byte; decode_header t (clear old)) b
    else (some (clear old), b)

-- Decode
unfoldable pub decode : Bool → ValueObject → Reader ValueObject
decode clone_str old = do
  v ← decode_meta old
  len ← Buffer.read_byte
  vals ← decode_elements clone_str len
  pure (record v { vals = vals })

-- CloneStringPart
unfoldable pub clone_string_part : Float → ValueObject → ValueObject
clone_string_part f v = record v {
  vals = map (λ d. if is_string d then Data.to_mutable_str f d else d) v.vals;
}
