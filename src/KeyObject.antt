-- ===== src/KeyObject.antt =====
-- `KeyObject` of src/db/codec.hpp and src/db/codec.cpp: a key of the store is a namespace, the
-- client's key, a type and the elements that the type needs (a hash field, a list index, ...).
pub mod Codec
pub mod Fields
use ardb.Prelude.{
  ℕ, zero, suc, ◌+◌, ◌-◌, ◌%◌, Bool, true, false, ◌&&◌, ◌||◌, Option, none, some, List, [], ◌∷◌,
  ◌++◌, ltb, leb, ◌==◌, if◌then◌else◌, length, take, replicate, get_elem?,
}
use ardb.Prelude.Int.{ℤ, pos, negsuc, sub_ℕ, minus_one, is_zero}
use ardb.Buffer
use ardb.Buffer.{Buffer}
use ardb.ByteIo.{Reader, Writer, pure, fail, ◌>>=◌, ◌⨾◌, skip, write_all}
use ardb.BufferHelper.Varint.{write_var_uint32, read_var_uint32}
use ardb.Data
use ardb.Data.{Data, nil, Float, c_str, string_length, take_raw}
use ardb.StreamId
use ardb.StreamId.{StreamId, empty_id}
use ardb.KeyType.{
  key_meta, key_string, key_hash, key_hash_field, key_list, key_list_element, key_set,
  key_set_member, key_zset, key_zset_sort, key_zset_score, key_stream, key_stream_element,
  key_stream_pel, key_ttl_sort,
}

-- struct KeyObject
pub record KeyObject : Type 0 where
  pub ns : Data
  pub key_type : ℕ
  pub key : Data
  pub elements : List Data

-- elements.resize(n)
unfoldable pub resize : ℕ → List Data → List Data
resize n elements = take n elements ++ replicate (n - length elements) nil

abbrev pub put_at : ℕ → Data → List Data → List Data
put_at i d [] = []
put_at zero d (x ∷ xs) = d ∷ xs
put_at (suc i) d (x ∷ xs) = x ∷ put_at i d xs

-- SetType
unfoldable pub set_type : ℕ → KeyObject → KeyObject
unfolding resize
set_type t k =
    let one =
      t == key_set_member
      || t == key_list_element
      || t == key_zset_score
      || t == key_hash_field
      || t == key_stream_element in
    let two = t == key_stream_pel || t == key_zset_sort in
    let size = if one then 1 else if two then 2 else 3 in
    let resized = record k { key_type = t; elements = resize size k.elements } in
    if one || two || t == key_ttl_sort then resized else record k { key_type = t }

-- KeyObject(const Data& nns, uint8 t, const Data& key_data)
unfoldable pub new_key : Data → ℕ → Data → KeyObject
unfolding set_type
new_key nns t key_data =
    set_type t (record { ns = nns; key_type = 0; key = key_data; elements = [] })

-- KeyObject(), and what Clear() leaves
abbrev pub cleared : KeyObject
cleared = record { ns = nil; key_type = 0; key = nil; elements = [] }

-- setElement(data, idx): the vector grows to hold the index
unfoldable pub set_element : Data → ℕ → KeyObject → KeyObject
unfolding resize
set_element d idx k =
    let grown = if leb (length k.elements) idx then resize (idx + 1) k.elements else k.elements in
    record k { elements = put_at idx d grown }

-- GetElement(idx); `none` is the exception of `at`
unfoldable pub get_element : ℕ → KeyObject → Option Data
get_element idx k = get_elem? k.elements idx

unfoldable pub set_hash_field : Data → KeyObject → KeyObject
unfolding set_element
set_hash_field v k = set_element v 0 k

unfoldable pub set_set_member : Data → KeyObject → KeyObject
unfolding set_element
set_set_member v k = set_element v 0 k

unfoldable pub set_list_index : Data → KeyObject → KeyObject
unfolding set_element
set_list_index idx k = set_element idx 0 k

-- SetZSetScore(double score)
unfoldable pub set_zset_score : ℕ → KeyObject → KeyObject
unfolding set_element
set_zset_score score k = set_element (Data.float64 score) 0 k

-- SetZSetMember and GetZSetMember: behind the score in the key that sorts by score
unfoldable pub set_zset_member : Data → KeyObject → KeyObject
unfolding set_element
set_zset_member v k = if k.key_type == key_zset_score then set_element v 0 k else set_element v 1 k

unfoldable pub get_zset_member : KeyObject → Option Data
unfolding get_element
get_zset_member k = if k.key_type == key_zset_score then get_element 0 k else get_element 1 k

-- SetStreamID and GetStreamID
unfoldable pub set_stream_id : StreamId → KeyObject → KeyObject
unfolding set_element
set_stream_id id k = set_element (StreamId.encode id) 0 k

unfoldable pub get_stream_id : KeyObject → Option StreamId
unfolding get_element
get_stream_id k = elim (get_element 0 k) [
  | some d ↦ some (StreamId.decode empty_id d)
  | none ↦ none
]

-- SetStreamPELId and GetStreamPELId
unfoldable pub set_stream_pel_id : StreamId → KeyObject → KeyObject
unfolding set_element
set_stream_pel_id id k = set_element (StreamId.encode id) 1 k

unfoldable pub get_stream_pel_id : KeyObject → Option StreamId
unfolding get_element
get_stream_pel_id k = elim (get_element 1 k) [
  | some d ↦ some (StreamId.decode empty_id d)
  | none ↦ none
]

-- IsValid
unfoldable pub is_valid : KeyObject → Bool
is_valid k =
    let t = k.key_type in
    t == key_meta
    || t == key_string
    || t == key_hash
    || t == key_list
    || t == key_set
    || t == key_zset
    || t == key_hash_field
    || t == key_list_element
    || t == key_set_member
    || t == key_zset_sort
    || t == key_zset_score
    || t == key_ttl_sort
    || t == key_stream
    || t == key_stream_element
    || t == key_stream_pel

-- The first result that is not 0 is the result.
abbrev pub ◌or_else◌ : ℤ → ℤ → ℤ
◌or_else◌ ret next = if is_zero ret then next else ret

-- ComparePrefix
unfoldable pub compare_prefix : Float → KeyObject → KeyObject → ℤ
compare_prefix f k other =
    ◌or_else◌ (Data.compare f k.ns other.ns false) (Data.compare f k.key other.key false)

-- The loop of Compare over the elements; the lists have the same length there.
unfoldable pub compare_elements : Float → List Data → List Data → ℤ
compare_elements f (x ∷ xs) (y ∷ ys) =
    let rest = compare_elements f xs ys in ◌or_else◌ (Data.compare f x y false) rest
compare_elements f xs ys = pos 0

-- Compare
unfoldable pub compare : Float → KeyObject → KeyObject → ℤ
unfolding compare_prefix compare_elements
compare f k other = ◌or_else◌ (compare_prefix f k other) (
    ◌or_else◌ (sub_ℕ k.key_type other.key_type) (
      ◌or_else◌ (sub_ℕ (length k.elements) (length other.elements))
        (compare_elements f k.elements other.elements)))

-- `buffer.Write(key.CStr(), key.StringLength())` reads the bytes of a string key. For a key that is
-- no string CStr() is null and the call is undefined behaviour; nothing is written for it here.
unfoldable pub write_c_str : Data → Writer
write_c_str d = elim (c_str d) [ some s ↦ write_all s | none ↦ skip ]

-- EncodePrefix
unfoldable pub encode_prefix : KeyObject → Writer
unfolding write_c_str
encode_prefix k =
    write_var_uint32 (string_length k.key) ⨾ write_c_str k.key ⨾ write_all (k.key_type ∷ [])

unfoldable pub encode_elements : List Data → Writer
encode_elements [] = skip
encode_elements (d ∷ elements) = Data.encode d ⨾ encode_elements elements

-- What Encode writes.
unfoldable pub encode_key : Bool → KeyObject → Writer
encode_key with_ns k =
    (if with_ns then Data.encode k.ns else skip)
    ⨾ encode_prefix k
    ⨾ write_all (length k.elements % 256 ∷ [])
    ⨾ encode_elements k.elements

-- Encode(buffer, verify, with_ns), with the slice that it returns
unfoldable pub encode : Bool → Bool → KeyObject → Buffer → List ℕ × Buffer
encode verify with_ns k b =
    let b' = (encode_key with_ns k b).1 in
    if verify && (if is_valid k then false else true)
    then ([], b)
    else (Buffer.slice_from b.m_write_idx b', b')

-- DecodeKey
unfoldable pub decode_key : Bool → Reader Data
decode_key clone_str = do
  keylen ← read_var_uint32
  bytes ← take_raw keylen
  pure (Data.set_bytes bytes clone_str)

-- DecodeType
unfoldable pub decode_type : Reader ℕ
decode_type b =
    if Buffer.readable b
    then (
      elim (Buffer.raw_read_bytes 1 b) [ t ∷ _ ↦ some t | [] ↦ none ],
      Buffer.advance_read_index 1 b,
    )
    else (none, b)

-- DecodeElementLength: 0 at the end of the buffer, -1 for a byte that is negative as a `char`
unfoldable pub decode_element_length : Reader ℤ
decode_element_length b =
    let (r, b') = Buffer.read_byte b in
    (some (elim r [ some len ↦ if ltb 127 len then minus_one else pos len | none ↦ pos 0 ]), b')

-- `for (int i = 0; i < elen1; i++) if (!DecodeElement(buffer, clone_str, i)) return false;`
unfoldable pub decode_elements : Bool → ℕ → Reader (List Data)
decode_elements clone_str zero = pure []
decode_elements clone_str (suc n) = do
  d ← Data.decode clone_str
  rest ← decode_elements clone_str n
  pure (d ∷ rest)

-- With a count that is not positive the key has no elements.
unfoldable pub decode_counted : Bool → ℤ → Reader (List Data)
decode_counted clone_str (pos n) = decode_elements clone_str n
decode_counted clone_str (negsuc n) = pure []

-- DecodePrefix, and then the elements
unfoldable pub decode_rest : Bool → Data → Reader KeyObject
decode_rest clone_str ns = do
  key ← decode_key clone_str
  t ← decode_type
  count ← decode_element_length
  elements ← decode_counted clone_str count
  pure (record { ns = ns; key_type = t; key = key; elements = elements })

-- Decode(buffer, clone_str, with_ns)
unfoldable pub decode : Bool → Bool → Reader KeyObject
decode clone_str with_ns = do
  ns ← (if with_ns then Data.decode clone_str else pure nil)
  decode_rest clone_str ns
