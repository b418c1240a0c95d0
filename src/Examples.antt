-- ===== src/Examples.antt =====
-- Runs on concrete inputs: each theorem about the program, at a key, a value or a number.
use ardb.Prelude.{
  none, if◌then◌else◌, ◌==◌, ℕ, ◌+◌, ◌-◌, ◌^◌, ◌≤◌, ◌<◌, ◌≡◌, refl, true, some, List, [], ◌∷◌, ◌++◌,
  arith, ltb, length, take, All,
}
use ardb.Prelude.Int.{is_negative}
use ardb.Prelude.Int
use ardb.Buffer
use ardb.Buffer.{new_buffer, grow_capacity, grow_size_t}
use ardb.Buffer.Grow.{grow_size_t_enough}
use ardb.Buffer.Readable.{IsValid, contents, write_lem}
use ardb.ByteIo.{Parses, Writes}
use ardb.BufferHelper.Varint.{read_var_uint16, write_var_uint16, varint_bytes, read_var_uint64}
use ardb.BufferHelper.Varint.Bounds.{varint_bytes_fit}
use ardb.BufferHelper.Varint.Narrow.{read_var_uint16-write_var_uint16}
use ardb.BufferHelper.Varint.RoundTrip.{uvarint, Parses-var_uint64}
use ardb.StringHelper.{
  signed_value, read_digits, read_number, string2ll, ll2string, decimal_text, digits10,
}
use ardb.StringHelper.Decimal.{decimal_text-string2ll}
use ardb.StringHelper.Decimal.Printed.{string2ll-decimal_text}
use ardb.StringHelper.Digits.{digits10-eq-length, ll2string_cut}
use ardb.Data
use ardb.Data.{Data, Float, cstr, sds, int64, float64, nil, compare_bytes, compare_int64, is_string}
use ardb.Data.Codec.{data_bytes, Writes-encode, Parses-decode}
use ardb.Data.Text.{to_string-set_string}
use ardb.Data.Order.{
  lex_lt, compare_bytes-lex_lt, compare_int64_exact, compare_int64_wraps, compare_numbers, biased,
}
use ardb.StreamId
use ardb.StreamId.{StreamId}
use ardb.StreamId.Laws.{stored, compare-encode, IsU64Id}
use ardb.KeyType.{key_meta, key_string, key_stream, key_hash_field}
use ardb.KeyObject
use ardb.KeyObject.{KeyObject, is_valid}
use ardb.Buffer.Discard.{discard_readed_bytes-contents, compact-contents}
use ardb.KeyObject.Codec.{IsKey, key_bytes, decode_key-encode_key}
use ardb.MetaObject
use ardb.MetaObject.{MetaObject, new_meta}
use ardb.MetaObject.Codec.{IsMeta, meta_bytes, Parses-decode_meta, Writes-encode_meta}
use ardb.ValueObject
use ardb.ValueObject.{ValueObject, new_value}
use ardb.ValueObject.Codec.{IsValue, value_bytes, decode_value-encode_value}
use ardb.Comparator.{compare_keys}
use ardb.Comparator.Agreement.{IsStored, in_store, compare_keys-compare}
use ardb.Merge.Cmd
use ardb.Merge.{Result, not_supported, merge_operands, merge_operation, arg}
use ardb.Merge.Sequential.{merge_operands-sequential}
use ardb.Merge.Adjust
use ardb.Merge.Adjust.{counter, twice, merge_operation-undone}

-- A float for runs: the pattern is the number.
abbrev plain_float : Float
plain_float = record { of_int64 = λ n. n; lt = ltb; add = ◌+◌; to_text = λ v. [] }

new_buffer-IsValid : IsValid new_buffer
new_buffer-IsValid = record { read_le = omega arith; write_le = omega arith; len_le = omega arith }

new_buffer_empty : contents new_buffer ≡ []
unfolding contents
new_buffer_empty = refl

-- Field 5 of the hash "k" in the namespace "0", and the field "a".
abbrev field_five : KeyObject
field_five = record {
  ns = cstr (48 ∷ []);
  key_type = key_hash_field;
  key = cstr (107 ∷ []);
  elements = int64 5 ∷ [];
}

abbrev field_a : KeyObject
field_a = record field_five { elements = cstr (97 ∷ []) ∷ [] }

field_five-IsKey : IsKey field_five
unfolding is_string
field_five-IsKey = record {
  ns_fits = omega arith;
  key_is_string = refl;
  key_fits = omega arith;
  type_is_byte = omega arith;
  few_elements = omega arith;
  elements_fit = (omega arith, tt);
}

field_a-IsKey : IsKey field_a
unfolding is_string
field_a-IsKey = record {
  ns_fits = omega arith;
  key_is_string = refl;
  key_fits = omega arith;
  type_is_byte = omega arith;
  few_elements = omega arith;
  elements_fit = (omega arith, tt);
}

field_five-IsStored : IsStored field_five
field_five-IsStored = record { is_key = field_five-IsKey; meta_has_none = λ e. cc e }

field_a-IsStored : IsStored field_a
field_a-IsStored = record { is_key = field_a-IsKey; meta_has_none = λ e. cc e }

field_five-is_valid : is_valid field_five ≡ true
unfolding is_valid
field_five-is_valid = refl

decode_key-encode_key_example :
    ((KeyObject.encode true true field_five new_buffer).0 ≡ key_bytes true field_five)
    × ((KeyObject.decode true true (KeyObject.encode true true field_five new_buffer).1).0
        ≡ some (KeyObject.Codec.reread true true field_five))
    × (contents (KeyObject.decode true true (KeyObject.encode true true field_five new_buffer).1).1
        ≡ [])
decode_key-encode_key_example =
    decode_key-encode_key true true true field_five new_buffer field_five-IsKey field_five-is_valid
      new_buffer-IsValid new_buffer_empty

compare_keys-compare_example :
    compare_keys plain_float true (some (key_bytes true field_five)) (some (key_bytes true field_a))
    ≡ some (KeyObject.compare plain_float (in_store true field_five) (in_store true field_a))
compare_keys-compare_example =
    compare_keys-compare plain_float true field_five field_a field_five-IsStored field_a-IsStored

-- A stream of three entries whose last id is 7-1, and a string.
abbrev some_id : StreamId
some_id = record { ms = 7; seq = 1 }

abbrev stream_meta : MetaObject
stream_meta = record new_meta { size = 3; stream_last_id = some_id }

stream_meta-IsMeta : IsMeta stream_meta
stream_meta-IsMeta = record {
  format_is_byte = omega arith;
  ttl_fits = omega arith;
  size_fits = omega arith;
  id_fits = (omega arith, omega arith);
}

Parses-decode_meta_example :
    Parses
      (MetaObject.decode key_stream new_meta)
      (meta_bytes key_stream stream_meta)
      (MetaObject.Codec.reread key_stream new_meta stream_meta)
Parses-decode_meta_example =
    Parses-decode_meta key_stream new_meta stream_meta refl stream_meta-IsMeta

abbrev text_value : ValueObject
text_value = record new_value { type = key_string; vals = sds (104 ∷ 105 ∷ []) ∷ [] }

abbrev number_value : ValueObject
number_value = record new_value { type = key_string; vals = int64 40 ∷ [] }

text_value-IsValue : IsValue text_value
text_value-IsValue = record {
  has_type = refl;
  type_is_byte = omega arith;
  op_fits = omega arith;
  meta_fits = record {
    format_is_byte = omega arith;
    ttl_fits = omega arith;
    size_fits = omega arith;
    id_fits = (omega arith, omega arith);
  };
  few_values = omega arith;
  values_fit = (omega arith, tt);
}

decode_value-encode_value_example :
    ((ValueObject.encode text_value new_buffer).0 ≡ value_bytes text_value)
    × ((ValueObject.decode true new_value (ValueObject.encode text_value new_buffer).1).0
        ≡ some (ValueObject.Codec.reread true new_value text_value))
    × (contents (ValueObject.decode true new_value (ValueObject.encode text_value new_buffer).1).1
        ≡ [])
decode_value-encode_value_example =
    decode_value-encode_value true new_value text_value new_buffer text_value-IsValue
      new_buffer-IsValid new_buffer_empty

abbrev no_others : ℕ → List Data → ValueObject → Result
no_others op args v = (some not_supported, v)

-- 2, then 3, is 5.
joined_two_three :
    merge_operands plain_float Cmd.incrby (int64 2 ∷ []) Cmd.incrby (int64 3 ∷ [])
    ≡ some (int64 5 ∷ [])
unfolding merge_operands arg Data.get_int64
joined_two_three = refl

merge_operands-sequential_example :
    (merge_operation plain_float no_others key_meta Cmd.incrby
      (int64 3 ∷ [])
      (merge_operation plain_float no_others key_meta Cmd.incrby (int64 2 ∷ []) number_value).1).1
    ≡ (merge_operation plain_float no_others key_meta Cmd.incrby (int64 5 ∷ []) number_value).1
merge_operands-sequential_example =
    merge_operands-sequential plain_float no_others key_meta Cmd.incrby Cmd.incrby (int64 2 ∷ [])
      (int64 3 ∷ []) (int64 5 ∷ []) (omega arith) refl (λ e. cc e) joined_two_three number_value

abbrev seven : ValueObject
seven = counter 7 [] number_value

merge_operation-undone_example :
    (twice plain_float no_others key_meta Cmd.incr 5 Cmd.decrby2 5 seven ≡ (none, seven))
    × (twice plain_float no_others key_meta Cmd.decrby2 5 Cmd.incr 5 seven ≡ (none, seven))
    × (twice plain_float no_others key_meta Cmd.incr 1 Cmd.decr2 9 seven ≡ (none, seven))
    × (merge_operation plain_float no_others key_meta Cmd.incr (int64 5 ∷ []) seven
        ≡ (none, counter 12 [] number_value))
merge_operation-undone_example =
    merge_operation-undone plain_float no_others key_meta Adjust.incr Adjust.decrby2 Adjust.decr2 5
      9 7 [] number_value (omega arith) (omega arith)

Writes-encode_example : Writes (Data.encode (sds (97 ∷ []))) (data_bytes (sds (97 ∷ [])))
Writes-encode_example = Writes-encode (sds (97 ∷ [])) (omega arith)

Parses-decode_example : Parses (Data.decode true) (data_bytes (cstr (97 ∷ []))) (sds (97 ∷ []))
Parses-decode_example = Parses-decode true (cstr (97 ∷ [])) (omega arith)

abbrev later_id : StreamId
later_id = record { ms = 256; seq = 0 }

some_id-IsU64Id : IsU64Id some_id
some_id-IsU64Id = (omega arith, omega arith)

later_id-IsU64Id : IsU64Id later_id
later_id-IsU64Id = (omega arith, omega arith)

compare-encode_example :
    is_negative (compare_bytes (stored some_id) (stored later_id))
    ≡ is_negative (StreamId.compare some_id later_id)
compare-encode_example = compare-encode some_id later_id some_id-IsU64Id later_id-IsU64Id

-- "-12"
abbrev minus_twelve : List ℕ
minus_twelve = 45 ∷ 49 ∷ 50 ∷ []

string2ll-minus_twelve : string2ll minus_twelve ≡ some (2 ^ 64 - 12)
unfolding string2ll read_number read_digits signed_value
string2ll-minus_twelve = refl

decimal_text-string2ll_example :
    (decimal_text (2 ^ 64 - 12) ≡ minus_twelve) × (2 ^ 64 - 12 < 2 ^ 64)
decimal_text-string2ll_example =
    decimal_text-string2ll minus_twelve (2 ^ 64 - 12) string2ll-minus_twelve

string2ll-decimal_text_example : string2ll (decimal_text (2 ^ 63)) ≡ some (2 ^ 63)
string2ll-decimal_text_example = string2ll-decimal_text (2 ^ 63) (omega arith)

digits10-eq-length_example : digits10 (2 ^ 64 - 12) ≡ length (decimal_text (2 ^ 64 - 12))
digits10-eq-length_example = digits10-eq-length (2 ^ 64 - 12) (omega arith)

ll2string_cut_example : ll2string (digits10 120) 120 ≡ take (digits10 120 - 1) (decimal_text 120)
ll2string_cut_example = ll2string_cut 120 (omega arith)

to_string-set_string_example :
    Data.to_string plain_float (Data.set_string minus_twelve true true) ≡ minus_twelve
to_string-set_string_example = to_string-set_string plain_float minus_twelve true true (omega arith)

compare_bytes-lex_lt_example :
    is_negative (compare_bytes (97 ∷ []) (97 ∷ 98 ∷ [])) ≡ lex_lt (97 ∷ []) (97 ∷ 98 ∷ [])
compare_bytes-lex_lt_example =
    compare_bytes-lex_lt (97 ∷ []) (97 ∷ 98 ∷ []) (omega arith) (omega arith)

-- -1 and 1
compare_int64_exact_example :
    compare_int64 (2 ^ 64 - 1) 1 ≡ compare_numbers (biased (2 ^ 64 - 1)) (biased 1)
compare_int64_exact_example =
    compare_int64_exact (2 ^ 64 - 1) 1 (omega arith) (omega arith) (omega arith) (omega arith)

-- 2 ^ 62 and -2 ^ 63
compare_int64_wraps_example :
    (compare_int64 (2 ^ 62) (2 ^ 63) ≡ Int.minus_one)
    × (compare_int64 (2 ^ 63) (2 ^ 62)
        ≡ (if biased (2 ^ 62) == biased (2 ^ 63) + 2 ^ 63 then Int.minus_one else Int.pos 1))
compare_int64_wraps_example =
    compare_int64_wraps (2 ^ 62) (2 ^ 63) (omega arith) (omega arith) (omega arith)

Parses-var_uint64_example : Parses read_var_uint64 (uvarint (2 ^ 64 - 1)) (2 ^ 64 - 1)
Parses-var_uint64_example = Parses-var_uint64 (2 ^ 64 - 1) (omega arith)

varint_bytes_fit_example :
    (bytes : List ℕ) × (varint_bytes 5 (2 ^ 32 - 1) ≡ some bytes)
    × (1 ≤ length bytes)
    × (length bytes ≤ 5)
    × All (λ x. x < 256) bytes
varint_bytes_fit_example = varint_bytes_fit 5 (2 ^ 32 - 1) (omega arith) (omega arith)

write_lem_example :
    (contents (Buffer.write (1 ∷ 2 ∷ []) new_buffer) ≡ contents new_buffer ++ (1 ∷ 2 ∷ []))
    × IsValid (Buffer.write (1 ∷ 2 ∷ []) new_buffer)
write_lem_example = write_lem (1 ∷ 2 ∷ []) new_buffer new_buffer-IsValid

grow_size_t_enough_example :
    (100 ≤ grow_size_t 100 16 100)
    × (16 ≤ grow_size_t 100 16 100)
    × (grow_size_t 100 16 100 < 2 ^ 64)
    × (grow_size_t 100 16 100 ≡ grow_capacity 100 16 100)
grow_size_t_enough_example =
    grow_size_t_enough 100 16 100 (omega arith) (omega arith) (omega arith) (omega arith)

abbrev two_left : Buffer.Buffer
two_left = Buffer.wrap (4 ∷ 5 ∷ 6 ∷ []) 1

two_left-IsValid : IsValid two_left
two_left-IsValid = record { read_le = omega arith; write_le = omega arith; len_le = omega arith }

discard_readed_bytes-contents_example :
    (contents (Buffer.discard_readed_bytes two_left) ≡ contents two_left)
    × IsValid (Buffer.discard_readed_bytes two_left)
    × ((Buffer.discard_readed_bytes two_left).m_read_idx ≡ 0)
discard_readed_bytes-contents_example = discard_readed_bytes-contents two_left two_left-IsValid

compact-contents_example :
    (contents (Buffer.compact 0 two_left).1 ≡ contents two_left)
    × IsValid (Buffer.compact 0 two_left).1
compact-contents_example = compact-contents 0 two_left two_left-IsValid (omega arith)

-- 300 comes back as 150.
read_var_uint16-write_var_uint16_example :
    ((read_var_uint16 (write_var_uint16 300 new_buffer).1).0 ≡ some 150)
    × (contents (read_var_uint16 (write_var_uint16 300 new_buffer).1).1 ≡ [])
read_var_uint16-write_var_uint16_example =
    read_var_uint16-write_var_uint16 300 new_buffer (omega arith) new_buffer-IsValid
      new_buffer_empty
