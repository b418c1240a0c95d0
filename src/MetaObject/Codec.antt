-- ===== src/MetaObject/Codec.antt =====
-- The byte form of the metadata, for `Encode` and `Decode` of `MetaObject` (src/db/codec.cpp).
use ardb.Buffer
use ardb.Prelude.{
  subst₂, refl, sym, ap, not, append-nil, Bool-cases, ◌∙◌, ap, sym, ℕ, ◌^◌, ◌<◌, ◌≡◌, subst, inl,
  inr, Bool, true, false, ◌||◌, List, [], ◌∷◌, ◌++◌, append_assoc, arith, ◌==◌, if◌then◌else◌,
  Bool-cases, length,
}
use ardb.ByteIo.{
  pure, ◌>>=◌, Parses, Parses-pure, Parses-bind, Parses-read_byte, Parses, Writer, write_all, skip,
  Writes, Writes-then, Writes-write_all, Writes-skip,
}
use ardb.BufferHelper.Varint.RoundTrip.{Parses-var_int64, svarint, Writes-var_int64}
use ardb.Data
use ardb.Data.{sds, Data, cstr}
use ardb.Data.Codec.{Parses-decode, data_bytes, Writes-encode}
use ardb.StreamId
use ardb.StreamId.{StreamId}
use ardb.StreamId.Laws.{IsU64Id, length-stored, decode-encode}
use ardb.KeyType.{key_string, key_list, key_stream}
use ardb.MetaObject.{
  read_var_int64, not, MetaObject, encode, has_size, has_meta, decode_size, decode_tail, decode,
}

pub record IsMeta (m : MetaObject) : Type 0 where
  pub format_is_byte : m.format < 256
  pub ttl_fits : m.ttl < 2 ^ 64
  pub size_fits : m.size < 2 ^ 64
  pub id_fits : IsU64Id m.stream_last_id

unfoldable pub tail_bytes : ℕ → MetaObject → List ℕ
tail_bytes t m =
    if t == key_list
    then (if m.list_sequential then 1 else 0) ∷ []
    else if t == key_stream
    then data_bytes (StreamId.encode m.stream_last_id)
    else []

unfoldable pub size_bytes : ℕ → MetaObject → List ℕ
size_bytes t m = if has_size t then svarint m.size else []

unfoldable pub meta_bytes : ℕ → MetaObject → List ℕ
meta_bytes t m = m.format ∷ (svarint m.ttl ++ (size_bytes t m ++ tail_bytes t m))

-- The fields of `m` that the type stores, over those of `old`.
abbrev pub reread : ℕ → MetaObject → MetaObject → MetaObject
reread t old m = record {
  format = m.format;
  ttl = m.ttl;
  size = if has_size t then m.size else old.size;
  list_sequential = if t == key_list then m.list_sequential else old.list_sequential;
  stream_last_id = if t == key_stream then m.stream_last_id else old.stream_last_id;
}

pub Writes-if :
    (c : Bool) (w : Writer) (bytes : List ℕ)
    → Writes w bytes
    → Writes (if c then w else skip) (if c then bytes else [])
Writes-if true w bytes h = h
Writes-if false w bytes h = Writes-skip

Writes-tail :
    (t : ℕ) (m : MetaObject)
    → IsMeta m
    → Writes
        (if t == key_list
          then write_all ((if m.list_sequential then 1 else 0) ∷ [])
          else if t == key_stream
          then Data.encode (StreamId.encode m.stream_last_id)
          else skip)
        (tail_bytes t m)
unfolding tail_bytes StreamId.encode
Writes-tail t m h = elim (Bool-cases (t == key_list)) [
  | inl e ↦ rw e (Writes-write_all _)
  | inr n ↦
      rw n (
        Writes-if (t == key_stream) _ _ (Writes-encode (StreamId.encode m.stream_last_id) id_short))
]
  where
    id_short : length (StreamId.Laws.stored m.stream_last_id) < 2 ^ 31
    id_short = omega (arith, length-stored m.stream_last_id)

-- For metadata with `IsMeta`, `MetaObject::Encode` appends to the contents of any valid buffer
-- exactly the byte form of the type, leaves it valid and does not move its read index.
pub Writes-encode_meta : (t : ℕ) (m : MetaObject) → IsMeta m → Writes (encode t m) (meta_bytes t m)
unfolding encode meta_bytes size_bytes
Writes-encode_meta t m h = subst (Writes (encode t m)) (joined _ (svarint m.ttl) _ _) (
    Writes-then _ _
      (Writes-then _ _ (Writes-then _ _ (Writes-write_all _) (Writes-var_int64 m.ttl h.ttl_fits))
        (Writes-if (has_size t) _ _ (Writes-var_int64 m.size h.size_fits)))
      (Writes-tail t m h))
  where
    joined : (x : ℕ) (us bs cs : List ℕ) → (((x ∷ []) ++ us) ++ bs) ++ cs ≡ x ∷ (us ++ (bs ++ cs))
    joined x us bs cs = simp append_assoc

-- No type is a string and has a size.
string_no_size : (t : ℕ) → (t == key_string) ≡ true → has_size t ≡ false
string_no_size t e = ground arith

Parses-size :
    (t : ℕ) (m : MetaObject) (size : ℕ)
    → has_meta t ≡ true
    → size < 2 ^ 64
    → Parses
        (decode_size t m)
        (if has_size t then svarint size else [])
        (record m { size = if has_size t then size else m.size })
unfolding decode_size
Parses-size t m size h fits = elim (Bool-cases (t == key_string)) [
  | inl e ↦ rw (e, string_no_size t e) (Parses-pure m)
  | inr n ↦
      rw (n, other n)
        (subst
          (λ l.
            Parses (read_var_int64 >>= λ v. pure (record m { size = v })) l
              (record m { size = size }))
          (append-nil (svarint size))
          (Parses-bind read_var_int64 _ (Parses-var_int64 size fits) (Parses-pure _)))
]
  where
    other : (t == key_string) ≡ false → has_size t ≡ true
    other n = sym (ap (λ c. c || has_size t) n) ∙ h

Parses-flag :
    (m : MetaObject) (x : Bool)
    → Parses
        (Buffer.read_byte >>= λ tmp. pure (record m { list_sequential = not (tmp == 0) }))
        ((if x then 1 else 0) ∷ [])
        (record m { list_sequential = x })
Parses-flag m true = Parses-bind Buffer.read_byte _ (Parses-read_byte 1) (Parses-pure _)
Parses-flag m false = Parses-bind Buffer.read_byte _ (Parses-read_byte 0) (Parses-pure _)

borrowed :
    (old : StreamId) (bytes : List ℕ)
    → StreamId.decode old (cstr bytes) ≡ StreamId.decode old (sds bytes)
unfolding StreamId.decode Data.string_length Data.c_str
borrowed old bytes = refl

Parses-last_id :
    (m : MetaObject) (id : StreamId)
    → IsU64Id id
    → Parses
        (Data.decode false >>= λ d.
          pure (record m { stream_last_id = StreamId.decode m.stream_last_id d }))
        (data_bytes (StreamId.encode id))
        (record m { stream_last_id = id })
unfolding StreamId.encode
Parses-last_id m id h =
    subst₂ (Parses _) (append-nil (data_bytes (StreamId.encode id))) (ap (λ i. some_meta i) back) (
      Parses-bind (Data.decode false) _ (Parses-decode false (StreamId.encode id) id_short)
        (Parses-pure _))
  where
    id_short : length (StreamId.Laws.stored id) < 2 ^ 31
    id_short = omega (arith, length-stored id)

    some_meta : StreamId → MetaObject
    some_meta i = record m { stream_last_id = i }

    back : StreamId.decode m.stream_last_id (cstr (StreamId.Laws.stored id)) ≡ id
    back = borrowed m.stream_last_id (StreamId.Laws.stored id) ∙ decode-encode m.stream_last_id id h

Parses-tail :
    (t : ℕ) (m : MetaObject) (o : MetaObject)
    → IsMeta o
    → Parses (decode_tail t m) (tail_bytes t o) (record m {
      list_sequential = if t == key_list then o.list_sequential else m.list_sequential;
      stream_last_id = if t == key_stream then o.stream_last_id else m.stream_last_id;
    })
unfolding decode_tail tail_bytes
Parses-tail t m o h = elim (Bool-cases (t == key_list)) [
  | inl e ↦ rw (e, no_stream e) (Parses-flag m o.list_sequential)
  | inr n ↦ elim (Bool-cases (t == key_stream)) [
    | inl e ↦ rw (n, e) (Parses-last_id m o.stream_last_id h.id_fits)
    | inr k ↦ rw (n, k) (Parses-pure m)
  ]
]
  where
    no_stream : (t == key_list) ≡ true → (t == key_stream) ≡ false
    no_stream e = ground arith

-- For a type with metadata and metadata with `IsMeta`, `MetaObject::Decode` on a valid buffer whose
-- unread bytes start with the byte form takes exactly that form, and gives the fields that the type
-- stores; the other fields keep their old values.
pub Parses-decode_meta :
    (t : ℕ) (old m : MetaObject)
    → has_meta t ≡ true
    → IsMeta m
    → Parses (decode t old) (meta_bytes t m) (reread t old m)
unfolding decode meta_bytes size_bytes
Parses-decode_meta t old m h fits = Parses-bind Buffer.read_byte _ (Parses-read_byte m.format) (
    Parses-bind read_var_int64 _ (Parses-var_int64 m.ttl fits.ttl_fits) (
      Parses-bind (decode_size t _) (decode_tail t)
        (Parses-size t (record old { format = m.format; ttl = m.ttl }) m.size h fits.size_fits)
        (Parses-tail t _ m fits)))
