-- ===== src/KeyObject/Codec.antt =====
-- The byte form of a key, for `Encode` and `Decode` of `KeyObject` (src/db/codec.cpp).
use ardb.Prelude.{
  ℕ, ◌%◌, ◌^◌, ◌≤◌, ◌<◌, ◌≡◌, refl, ap, subst, subst₂, ◌∙◌, Bool, true, false, ◌&&◌, some, List, [],
  ◌∷◌, ◌++◌, append-nil, append_assoc, map, arith, ltb, if◌then◌else◌, length, drop, All, take_ge,
}
use ardb.Buffer
use ardb.Buffer.{Buffer}
use ardb.Buffer.Readable.{
  IsValid, contents, readable_bytes-eq, raw_read_bytes-eq, contents-advance, advance-IsValid,
  slice_from-contents,
}
use ardb.ByteIo.{
  pure, ◌⨾◌, write_all, skip, Parses, Writes, Parses-pure, Parses-bind, Parses-read_byte,
  Writes-then, Writes-write_all, Writes-skip, reads_back,
}
use ardb.BufferHelper.Varint.{write_var_uint32, read_var_uint32}
use ardb.BufferHelper.Varint.RoundTrip.{uvarint, Writes-var_uint32, Parses-var_uint32}
use ardb.Data
use ardb.Data.{Data, is_string, cstr, sds, nil, int64, float64, string_length, c_str, take_raw}
use ardb.Data.Codec.{IsData, data_bytes, reowned, Writes-encode, Parses-take_raw}
use ardb.KeyObject.{
  pos, KeyObject, encode_prefix, encode_elements, encode_key, encode, decode_key, decode_type,
  decode_element_length, decode_elements, decode_counted, decode_rest, decode, write_c_str,
  is_valid,
}

-- A key as the program makes it: the client's key is a string, and the counts fit their bytes.
pub record IsKey (k : KeyObject) : Type 0 where
  pub ns_fits : IsData k.ns
  pub key_is_string : is_string k.key ≡ true
  pub key_fits : IsData k.key
  pub type_is_byte : k.key_type < 256
  pub few_elements : length k.elements ≤ 127
  pub elements_fit : All IsData k.elements

abbrev pub string_bytes : Data → List ℕ
string_bytes (cstr s) = s
string_bytes (sds s) = s
string_bytes d = []

unfoldable pub elements_bytes : List Data → List ℕ
elements_bytes [] = []
elements_bytes (d ∷ ds) = data_bytes d ++ elements_bytes ds

-- The key behind its namespace: length, bytes, type, count, elements.
unfoldable pub body_bytes : KeyObject → List ℕ
body_bytes k =
    uvarint (length (string_bytes k.key))
    ++ (string_bytes k.key ++ (k.key_type ∷ length k.elements ∷ elements_bytes k.elements))

unfoldable pub key_bytes : Bool → KeyObject → List ℕ
key_bytes with_ns k = (if with_ns then data_bytes k.ns else []) ++ body_bytes k

-- The key that a reader gives: its strings owned or borrowed, its namespace only if it was written.
abbrev pub reread : Bool → Bool → KeyObject → KeyObject
reread clone with_ns k = record {
  ns = if with_ns then reowned clone k.ns else nil;
  key_type = k.key_type;
  key = reowned clone k.key;
  elements = map (reowned clone) k.elements;
}

pub Writes-elements :
    (ds : List Data) → All IsData ds → Writes (encode_elements ds) (elements_bytes ds)
unfolding encode_elements elements_bytes
Writes-elements [] h = Writes-skip
Writes-elements (d ∷ ds) h = Writes-then _ _ (Writes-encode d h.0) (Writes-elements ds h.1)

Writes-key_bytes :
    (d : Data)
    → is_string d ≡ true
    → IsData d
    → Writes
        (write_var_uint32 (string_length d) ⨾ write_c_str d)
        (uvarint (length (string_bytes d)) ++ string_bytes d)
unfolding is_string string_length write_c_str c_str
Writes-key_bytes (cstr s) h k =
    Writes-then _ _ (Writes-var_uint32 (length s) (omega arith)) (Writes-write_all s)
Writes-key_bytes (sds s) h k =
    Writes-then _ _ (Writes-var_uint32 (length s) (omega arith)) (Writes-write_all s)
Writes-key_bytes nil h k = cc
Writes-key_bytes (int64 v) h k = cc
Writes-key_bytes (float64 v) h k = cc

Writes-body :
    (k : KeyObject)
    → IsKey k
    → Writes
        (encode_prefix k ⨾ write_all (length k.elements % 256 ∷ []) ⨾ encode_elements k.elements)
        (body_bytes k)
unfolding encode_prefix body_bytes
Writes-body k h =
    subst (Writes _)
      (joined k.key_type (length k.elements) _ _ (elements_bytes k.elements)
        (omega (arith, h.few_elements)))
      (Writes-then _ _
        (Writes-then _ _
          (Writes-then _ _ (Writes-key_bytes k.key h.key_is_string h.key_fits) (Writes-write_all _))
          (Writes-write_all _))
        (Writes-elements k.elements h.elements_fit))
  where
    joined :
        (t n : ℕ) (us ss es : List ℕ)
        → n % 256 ≡ n
        → (((us ++ ss) ++ t ∷ []) ++ (n % 256) ∷ []) ++ es ≡ us ++ (ss ++ (t ∷ n ∷ es))
    joined t n us ss es e = rw e (simp append_assoc)

-- What Encode appends.
pub Writes-encode_key :
    (with_ns : Bool) (k : KeyObject) → IsKey k → Writes (encode_key with_ns k) (key_bytes with_ns k)
unfolding encode_key key_bytes
Writes-encode_key true k h =
    regroup (Writes-then _ _ (Writes-encode k.ns h.ns_fits) (Writes-body k h))
  where
    regroup :
        Writes
          (Data.encode k.ns
            ⨾ (encode_prefix k
                ⨾ write_all (length k.elements % 256 ∷ [])
                ⨾ encode_elements k.elements))
          (data_bytes k.ns ++ body_bytes k)
        → Writes
            (Data.encode k.ns
              ⨾ encode_prefix k
              ⨾ write_all (length k.elements % 256 ∷ [])
              ⨾ encode_elements k.elements)
            (data_bytes k.ns ++ body_bytes k)
    regroup w = w
Writes-encode_key false k h = Writes-then skip _ Writes-skip (Writes-body k h)

pub Parses-elements :
    (clone : Bool) (ds : List Data)
    → All IsData ds
    → Parses (decode_elements clone (length ds)) (elements_bytes ds) (map (reowned clone) ds)
unfolding decode_elements elements_bytes
Parses-elements clone [] h = Parses-pure []
Parses-elements clone (d ∷ ds) h =
    subst
      (λ l.
        Parses (decode_elements clone (length (d ∷ ds))) (data_bytes d ++ l)
          (map (reowned clone) (d ∷ ds)))
      (append-nil (elements_bytes ds))
      (Parses-bind _ _ (Data.Codec.Parses-decode clone d h.0)
        (Parses-bind _ _ (Parses-elements clone ds h.1) (Parses-pure _)))

pub Parses-decode_type : (t : ℕ) → Parses decode_type (t ∷ []) t
unfolding decode_type
Parses-decode_type t = record { run = taken }
  where
    taken :
        (b : Buffer) (rest : List ℕ)
        → IsValid b
        → contents b ≡ t ∷ rest
        → ((decode_type b).0 ≡ some t)
          × (contents (decode_type b).1 ≡ rest)
          × IsValid (decode_type b).1
    taken b rest v e =
        let fits : 1 ≤ length (contents b) = rw e (omega arith) in
        let enough : Buffer.readable b ≡ true =
          unfold Buffer.readable_bytes in ground (arith, readable_bytes-eq b v) in
        rw (enough, raw_read_bytes-eq 1 b v fits, e)
          (refl, contents-advance 1 b ∙ ap (drop 1) e, advance-IsValid 1 b v fits)

short : (d : Data) → IsData d → length (string_bytes d) < 2 ^ 32
short (cstr s) h = omega arith
short (sds s) h = omega arith
short nil h = omega arith
short (int64 v) h = omega arith
short (float64 v) h = omega arith

kept :
    (clone : Bool) (d : Data)
    → is_string d ≡ true
    → IsData d
    → Data.set_bytes (string_bytes d) clone ≡ reowned clone d
unfolding is_string Data.set_bytes
kept clone (cstr s) h k = rw (take_ge (length s % 2 ^ 32) s (omega arith)) refl
kept clone (sds s) h k = rw (take_ge (length s % 2 ^ 32) s (omega arith)) refl
kept clone nil h k = cc
kept clone (int64 v) h k = cc
kept clone (float64 v) h k = cc

pub Parses-decode_key :
    (clone : Bool) (d : Data)
    → is_string d ≡ true
    → IsData d
    → Parses
        (decode_key clone)
        (uvarint (length (string_bytes d)) ++ string_bytes d)
        (reowned clone d)
unfolding decode_key
Parses-decode_key clone d h k =
    subst₂ (Parses (decode_key clone))
      (ap (λ l. uvarint (length (string_bytes d)) ++ l) (append-nil (string_bytes d)))
      (kept clone d h k)
      (Parses-bind read_var_uint32 _ (Parses-var_uint32 (length (string_bytes d)) (short d k)) (
        Parses-bind (take_raw (length (string_bytes d))) _ (Parses-take_raw (string_bytes d))
          (Parses-pure _)))

pub Parses-length : (n : ℕ) → n ≤ 127 → Parses decode_element_length (n ∷ []) (pos n)
unfolding decode_element_length
Parses-length n h = record { run = taken }
  where
    not_negative : ltb 127 n ≡ false
    not_negative = ground arith

    taken :
        (b : Buffer) (rest : List ℕ)
        → IsValid b
        → contents b ≡ n ∷ rest
        → ((decode_element_length b).0 ≡ some (pos n))
          × (contents (decode_element_length b).1 ≡ rest)
          × IsValid (decode_element_length b).1
    taken b rest v e =
        let got = (Parses-read_byte n).run b rest v e in
        (rw (got.0, not_negative) refl, got.1, got.2)

-- Behind the namespace, Decode takes exactly the byte form and gives the key back.
pub Parses-decode_rest :
    (clone : Bool) (ns : Data) (k : KeyObject)
    → IsKey k
    → Parses (decode_rest clone ns) (body_bytes k) (record (reread clone true k) { ns = ns })
unfolding decode_rest body_bytes decode_counted
Parses-decode_rest clone ns k h =
    subst (λ l. Parses (decode_rest clone ns) l (record (reread clone true k) { ns = ns }))
      (joined _ _ k.key_type (length k.elements) _)
      (Parses-bind (decode_key clone) _ (Parses-decode_key clone k.key h.key_is_string h.key_fits) (
        Parses-bind decode_type _ (Parses-decode_type k.key_type) (
          Parses-bind decode_element_length _ (Parses-length (length k.elements) h.few_elements) (
            Parses-bind (decode_elements clone (length k.elements)) _
              (Parses-elements clone k.elements h.elements_fit) (Parses-pure _)))))
  where
    joined :
        (us ss : List ℕ) (t n : ℕ) (es : List ℕ)
        → (us ++ ss) ++ (t ∷ n ∷ (es ++ [])) ≡ us ++ (ss ++ (t ∷ n ∷ es))
    joined us ss t n es = simp (append_assoc, append-nil)

pub Parses-decode :
    (clone with_ns : Bool) (k : KeyObject)
    → IsKey k
    → Parses (decode clone with_ns) (key_bytes with_ns k) (reread clone with_ns k)
unfolding decode key_bytes
Parses-decode clone true k h =
    Parses-bind (Data.decode clone) _ (Data.Codec.Parses-decode clone k.ns h.ns_fits)
      (Parses-decode_rest clone (reowned clone k.ns) k h)
Parses-decode clone false k h =
    Parses-bind (pure nil) (decode_rest clone) (Parses-pure nil) (Parses-decode_rest clone nil k h)

-- Encoding a key with `IsKey` (a string key, a type that is a byte, at most 127 elements, strings
-- below 2 ^ 31 bytes) and a valid type into a valid buffer with nothing to read returns the key's
-- byte form, with the namespace or without; decoding what the buffer then holds gives the key back,
-- its strings owned if a clone was asked for and borrowed if not, its namespace nil if it was not
-- written, and leaves nothing to read.
pub decode_key-encode_key :
    (verify clone with_ns : Bool) (k : KeyObject) (b : Buffer)
    → IsKey k
    → is_valid k ≡ true
    → IsValid b
    → contents b ≡ []
    → ((encode verify with_ns k b).0 ≡ key_bytes with_ns k)
      × ((decode clone with_ns (encode verify with_ns k b).1).0 ≡ some (reread clone with_ns k))
      × (contents (decode clone with_ns (encode verify with_ns k b).1).1 ≡ [])
unfolding encode
decode_key-encode_key verify clone with_ns k b h valid v e =
    let w = Writes-encode_key with_ns k h in
    let slice =
      slice_from-contents b (encode_key with_ns k b).1 (key_bytes with_ns k) v (w.same_read b v)
        (w.run b v).0 in
    let back =
      reads_back (encode_key with_ns k) (decode clone with_ns) b w (Parses-decode clone with_ns k h)
        v e in
    rw (valid, passes verify) (slice, back.0, back.1)
  where
    passes : (verify : Bool) → (verify && false) ≡ false
    passes true = refl
    passes false = refl
