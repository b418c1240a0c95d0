-- ===== src/ValueObject/Codec.antt =====
-- The byte form of a value, for `Encode` and `Decode` of `ValueObject` (src/db/codec.cpp).
use ardb.Prelude.{
  ℕ, ◌%◌, ◌^◌, ◌≤◌, ◌<◌, ◌≡◌, refl, ap, subst, subst₂, ◌∙◌, inl, inr, Bool, true, false, some, List,
  [], ◌∷◌, ◌++◌, append-nil, append_assoc, map, arith, ◌==◌, if◌then◌else◌, Bool-cases, length, All,
  take_ge,
}
use ardb.Buffer
use ardb.Buffer.{Buffer}
use ardb.Buffer.Readable.{IsValid, contents, raw_read_bytes-eq, readable_bytes-eq}
use ardb.ByteIo.{
  ◌>>=◌, Parses, Writes, Parses-pure, Parses-bind, Parses-return, Parses-read_byte,
  Parses-read_exactly, Writes-then, Writes-write_all, reads_back, read_exactly,
}
use ardb.BufferHelper.Fixed.{write_fix_uint16, read_fix_uint16, le_bytes, le_value}
use ardb.Data.Codec.{IsData, reowned}
use ardb.KeyType.{key_merge}
use ardb.KeyObject.{decode_elements}
use ardb.KeyObject.Codec.{elements_bytes, Writes-elements, Parses-elements}
use ardb.MetaObject
use ardb.MetaObject.{MetaObject, has_meta}
use ardb.MetaObject.Codec.{IsMeta, meta_bytes, Writes-encode_meta, Parses-decode_meta, Writes-if}
use ardb.ValueObject.{
  ValueObject, clear, encode, encode_value_object, encode_header, decode, decode_header,
  decode_meta,
}

-- A value as the program makes it: it has a type, and every field fits its bytes.
pub record IsValue (v : ValueObject) : Type 0 where
  pub has_type : (0 == v.type) ≡ false
  pub type_is_byte : v.type < 256
  pub op_fits : v.merge_op < 2 ^ 16
  pub meta_fits : IsMeta v.meta
  pub few_values : length v.vals < 256
  pub values_fit : All IsData v.vals

unfoldable pub header_bytes : ValueObject → List ℕ
header_bytes v =
    if v.type == key_merge
    then le_bytes 2 v.merge_op
    else if has_meta v.type
    then meta_bytes v.type v.meta
    else []

unfoldable pub value_bytes : ValueObject → List ℕ
value_bytes v = v.type ∷ (header_bytes v ++ (length v.vals ∷ elements_bytes v.vals))

-- The object that a reader gives over `old`: what the type does not store is as `clear` left it.
abbrev pub reread : Bool → ValueObject → ValueObject → ValueObject
reread clone old v = record {
  type = v.type;
  merge_op = if v.type == key_merge then v.merge_op else 0;
  meta =
      if has_meta v.type
      then MetaObject.Codec.reread v.type (MetaObject.clear old.meta) v.meta
      else MetaObject.clear old.meta;
  vals = map (reowned clone) v.vals;
}

Writes-uint16 : (op : ℕ) → Writes (λ b. (true, (write_fix_uint16 op false b).1)) (le_bytes 2 op)
unfolding write_fix_uint16
Writes-uint16 op = record {
  run = λ b v. (Writes-write_all (le_bytes 2 op)).run b v;
  same_read = λ b v. (Writes-write_all (le_bytes 2 op)).same_read b v;
}

uint16_back : (op : ℕ) → op < 2 ^ 16 → le_value (le_bytes 2 op) ≡ op
unfolding le_value le_bytes
uint16_back op h = omega arith

length-le_bytes : (op : ℕ) → length (le_bytes 2 op) ≡ 2
unfolding le_bytes
length-le_bytes op = refl

Parses-uint16 : (op : ℕ) → op < 2 ^ 16 → Parses (read_fix_uint16 false) (le_bytes 2 op) op
unfolding read_fix_uint16
Parses-uint16 op h =
    subst₂ (Parses (read_fix_uint16 false)) (append-nil (le_bytes 2 op)) (uint16_back op h) (
      Parses-bind (read_exactly 2) _ (Parses-read_exactly 2 (le_bytes 2 op) (length-le_bytes op))
        (Parses-pure _))

Writes-header :
    (v : ValueObject) → IsValue v → Writes (encode_header v.type v.merge_op v.meta) (header_bytes v)
unfolding encode_header header_bytes
Writes-header v h = elim (Bool-cases (v.type == key_merge)) [
  | inl e ↦ rw e (Writes-uint16 v.merge_op)
  | inr n ↦ rw n (Writes-if (has_meta v.type) _ _ (Writes-encode_meta v.type v.meta h.meta_fits))
]

pub Writes-encode_value :
    (v : ValueObject)
    → IsValue v
    → Writes (encode_value_object v.type v.merge_op v.vals v.meta) (value_bytes v)
unfolding encode_value_object value_bytes
Writes-encode_value v h =
    subst (Writes _)
      (joined v.type (length v.vals) (header_bytes v) (elements_bytes v.vals)
        (omega (arith, h.type_is_byte)) (omega (arith, h.few_values)))
      (Writes-then _ _
        (Writes-then _ _ (Writes-then _ _ (Writes-write_all _) (Writes-header v h))
          (Writes-write_all _))
        (Writes-elements v.vals h.values_fit))
  where
    joined :
        (t n : ℕ) (hs es : List ℕ)
        → t % 256 ≡ t
        → n % 256 ≡ n
        → (((t % 256) ∷ [] ++ hs) ++ (n % 256) ∷ []) ++ es ≡ t ∷ (hs ++ (n ∷ es))
    joined t n hs es e f = rw (e, f) (simp append_assoc)

Parses-header :
    (old v : ValueObject)
    → IsValue v
    → Parses
        (decode_header v.type (clear old))
        (header_bytes v)
        (record (reread true old v) { vals = [] })
unfolding decode_header header_bytes clear
Parses-header old v h = elim (Bool-cases (v.type == key_merge)) [
  | inl e ↦
      rw (e, no_meta e)
        (Parses-return (read_fix_uint16 false)
          (λ op. record (clear old) { type = v.type; merge_op = op })
          (Parses-uint16 v.merge_op h.op_fits))
  | inr n ↦ elim (Bool-cases (has_meta v.type)) [
    | inl m ↦
        rw (n, m)
          (Parses-return (MetaObject.decode v.type (MetaObject.clear old.meta))
            (λ m. record (clear old) { type = v.type; meta = m })
            (Parses-decode_meta v.type (MetaObject.clear old.meta) v.meta m h.meta_fits))
    | inr k ↦ rw (n, k) (Parses-pure _)
  ]
]
  where
    no_meta : (v.type == key_merge) ≡ true → has_meta v.type ≡ false
    no_meta e = ground arith

-- A nonempty buffer's header.
Parses-decode_header :
    (old v : ValueObject)
    → IsValue v
    → Parses (decode_meta old) (v.type ∷ header_bytes v) (record (reread true old v) { vals = [] })
unfolding decode_meta
Parses-decode_header old v h = record { run = taken }
  where
    full :
        Parses
          (Buffer.read_byte >>= λ t. decode_header t (clear old))
          (v.type ∷ header_bytes v)
          (record (reread true old v) { vals = [] })
    full = Parses-bind Buffer.read_byte _ (Parses-read_byte v.type) (Parses-header old v h)

    taken :
        (b : Buffer) (rest : List ℕ)
        → IsValid b
        → contents b ≡ (v.type ∷ header_bytes v) ++ rest
        → ((decode_meta old b).0 ≡ some (record (reread true old v) { vals = [] }))
          × (contents (decode_meta old b).1 ≡ rest)
          × IsValid (decode_meta old b).1
    taken b rest valid e =
        let fits : 1 ≤ length (contents b) = rw e (omega arith) in
        let readable : Buffer.readable b ≡ true =
          unfold Buffer.readable_bytes in ground (arith, readable_bytes-eq b valid) in
        rw readable (full.run b rest valid e)

pub Parses-decode_value :
    (clone : Bool) (old v : ValueObject)
    → IsValue v
    → Parses (decode clone old) (value_bytes v) (reread clone old v)
unfolding decode value_bytes
Parses-decode_value clone old v h =
    subst
      (λ l.
        Parses (decode clone old) (v.type ∷ (header_bytes v ++ (length v.vals ∷ l)))
          (reread clone old v))
      (append-nil (elements_bytes v.vals))
      (Parses-bind (decode_meta old) _ (Parses-decode_header old v h) (
        Parses-bind Buffer.read_byte _ (Parses-read_byte (length v.vals)) (
          Parses-bind (decode_elements clone (length v.vals)) _
            (Parses-elements clone v.vals h.values_fit) (Parses-pure _))))

-- Encoding a value with `IsValue` (a type that is a byte and not 0, at most 255 values, every field
-- within its bytes) into a valid buffer with nothing to read returns the value's byte form;
-- decoding what the buffer then holds, over any old object, gives the type, the merge operation of
-- an operation, the metadata of a type that has them and the values, their strings owned or
-- borrowed as asked, and leaves nothing to read. What the type does not store is as `clear` left
-- it.
pub decode_value-encode_value :
    (clone : Bool) (old v : ValueObject) (b : Buffer)
    → IsValue v
    → IsValid b
    → contents b ≡ []
    → ((encode v b).0 ≡ value_bytes v)
      × ((decode clone old (encode v b).1).0 ≡ some (reread clone old v))
      × (contents (decode clone old (encode v b).1).1 ≡ [])
unfolding encode
decode_value-encode_value clone old v b h valid e =
    let w = Writes-encode_value v h in
    let after = (encode_value_object v.type v.merge_op v.vals v.meta b).1 in
    let back =
      reads_back (encode_value_object v.type v.merge_op v.vals v.meta) (decode clone old) b w
        (Parses-decode_value clone old v h) valid e in
    let held : contents after ≡ value_bytes v =
      (w.run b valid).0 ∙ ap (λ l. l ++ value_bytes v) e in
    rw h.has_type (all_read after (w.run b valid).1 ∙ held, back.0, back.1)
  where
    all_read :
        (c : Buffer) → IsValid c → Buffer.raw_read_bytes (Buffer.readable_bytes c) c ≡ contents c
    all_read c valid =
        raw_read_bytes-eq _ c valid (omega (arith, readable_bytes-eq c valid))
        ∙ take_ge _ _ (omega (arith, readable_bytes-eq c valid))
