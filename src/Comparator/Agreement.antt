-- ===== src/Comparator/Agreement.antt =====
-- `compare_keys` of src/db/engine.cpp and `KeyObject::Compare` of src/db/codec.cpp.
use ardb.Prelude.{
  ℕ, ◌≡◌, refl, sym, ap, ◌∙◌, inl, inr, Bool, true, false, Option, some, List, [], ◌∷◌, ◌++◌,
  append_assoc, arith, ◌==◌, if◌then◌else◌, Bool-cases, length, All, take_ge,
}
use ardb.Prelude.Int.{ℤ, pos, sub_ℕ, is_zero}
use ardb.BufferHelper.Varint.RoundTrip.{uvarint}
use ardb.Buffer.{Buffer, wrap}
use ardb.Buffer.Readable.{IsValid, contents}
use ardb.ByteIo.{Reader, Parses}
use ardb.Data
use ardb.Data.{
  Data, Float, nil, int64, float64, cstr, sds, is_nil, is_string, is_integer, is_float, is_number,
  get_int64, get_float64, compared_bytes,
}
use ardb.Data.Codec.{IsData, data_bytes, reowned}
use ardb.KeyType.{key_meta}
use ardb.KeyObject
use ardb.KeyObject.{
  KeyObject, ◌or_else◌, compare, compare_prefix, decode_key, decode_type, decode_element_length,
}
use ardb.KeyObject.Codec.{
  IsKey, key_bytes, body_bytes, elements_bytes, Parses-decode_key, Parses-decode_type,
  Parses-length, string_bytes,
}
use ardb.Comparator.{
  ◌return_or◌, both, compare_elements, compare_counted, compare_rest, compare_types,
  compare_prefixes, compare_buffers, compare_keys,
}
use ardb.Comparator.Owner.{compare-reowned, compare_alpha}

return_or-eq :
    {a b x : ℤ} {r : Option ℤ} → a ≡ b → r ≡ some x → ◌return_or◌ a r ≡ some (◌or_else◌ b x)
return_or-eq {a} {b} {x} e h =
    rw (h, e) (elim (Bool-cases (is_zero b)) [ inl z ↦ rw z refl | inr n ↦ rw n refl ])

or_else_assoc : (a b c : ℤ) → ◌or_else◌ (◌or_else◌ a b) c ≡ ◌or_else◌ a (◌or_else◌ b c)
or_else_assoc a b c = elim (Bool-cases (is_zero a)) [ inl e ↦ rw e refl | inr n ↦ rw (n, n) refl ]

-- A buffer that holds `bytes`.
abbrev Holds : Buffer → List ℕ → Type 0
Holds b bytes = IsValid b × (contents b ≡ bytes)

module _ {ℓ} {A : Type ℓ} where
  -- The readers succeed on what they parse.
  both-Parses :
      (m : Reader A) {xs ys us vs : List ℕ} {x y : A} (b1 b2 : Buffer)
      (next : A → A → Buffer → Buffer → Option ℤ) (result : Option ℤ)
      → Parses m xs x
      → Parses m ys y
      → Holds b1 (xs ++ us)
      → Holds b2 (ys ++ vs)
      → ((c1 c2 : Buffer) → Holds c1 us → Holds c2 vs → next x y c1 c2 ≡ result)
      → both m b1 b2 next ≡ result
  unfolding both
  both-Parses m {xs} {ys} {us} {vs} b1 b2 next result p q h k then_ =
      let got1 = p.run b1 us h.0 h.1 in
      let got2 = q.run b2 vs k.0 k.1 in
      rw (both, got1.0, got2.0) (then_ (m b1).1 (m b2).1 (got1.2, got1.1) (got2.2, got2.1))

compare_elements_eq :
    (f : Float) (ds es : List Data) (b1 b2 : Buffer)
    → length ds ≡ length es
    → All IsData ds
    → All IsData es
    → Holds b1 (elements_bytes ds)
    → Holds b2 (elements_bytes es)
    → compare_elements f (length ds) b1 b2 ≡ some (KeyObject.compare_elements f ds es)
unfolding compare_elements KeyObject.compare_elements elements_bytes
compare_elements_eq f [] es b1 b2 e h k v w = refl
compare_elements_eq f (d ∷ ds) [] b1 b2 e h k v w = ground arith
compare_elements_eq f (d ∷ ds) (x ∷ es) b1 b2 e h k v w =
    both-Parses (Data.decode false) b1 b2 _ _ (Data.Codec.Parses-decode false d h.0)
      (Data.Codec.Parses-decode false x k.0) v w
      (λ c1 c2 v' w'.
        return_or-eq (compare-reowned f false d x)
          (compare_elements_eq f ds es c1 c2 (omega (arith, e)) h.1 k.1 v' w'))

sub_zero : (a b : ℕ) → is_zero (sub_ℕ a b) ≡ true → a ≡ b
sub_zero a b h = ground arith

compare_counted_eq :
    (f : Float) (ds es : List Data) (b1 b2 : Buffer)
    → All IsData ds
    → All IsData es
    → Holds b1 (elements_bytes ds)
    → Holds b2 (elements_bytes es)
    → compare_counted f (pos (length ds)) (pos (length es)) b1 b2
      ≡ some (◌or_else◌ (sub_ℕ (length ds) (length es)) (KeyObject.compare_elements f ds es))
unfolding compare_counted
compare_counted_eq f ds es b1 b2 h k v w =
    elim (Bool-cases (is_zero (sub_ℕ (length ds) (length es)))) [
      | inl e ↦
          rw e (compare_elements_eq f ds es b1 b2 (sub_zero (length ds) (length es) e) h k v w)
      | inr n ↦ rw n refl
    ]

-- A key as the comparator expects it: metadata of type `key_meta` has no elements.
pub record IsStored (k : KeyObject) : Type 0 where
  pub is_key : IsKey k
  pub meta_has_none : (k.key_type == key_meta) ≡ true → k.elements ≡ []

-- What decides between two keys whose types are equal, and between two of the same name.
abbrev elements_order : Float → KeyObject → KeyObject → ℤ
elements_order f k other =
    ◌or_else◌ (sub_ℕ (length k.elements) (length other.elements))
      (KeyObject.compare_elements f k.elements other.elements)

abbrev types_order : Float → KeyObject → KeyObject → ℤ
types_order f k other = ◌or_else◌ (sub_ℕ k.key_type other.key_type) (elements_order f k other)

no_elements :
    (f : Float) (k other : KeyObject)
    → IsStored k
    → IsStored other
    → (k.key_type == key_meta) ≡ true
    → k.key_type ≡ other.key_type
    → elements_order f k other ≡ pos 0
unfolding KeyObject.compare_elements
no_elements f k other h g e same =
    rw (h.meta_has_none e, g.meta_has_none (ap (λ t. t == key_meta) (sym same) ∙ e)) refl

compare_rest_eq :
    (f : Float) (k other : KeyObject) (b1 b2 : Buffer)
    → IsStored k
    → IsStored other
    → k.key_type ≡ other.key_type
    → Holds b1 (length k.elements ∷ elements_bytes k.elements)
    → Holds b2 (length other.elements ∷ elements_bytes other.elements)
    → compare_rest f k.key_type b1 b2 ≡ some (elements_order f k other)
unfolding compare_rest
compare_rest_eq f k other b1 b2 h g same v w = elim (Bool-cases (k.key_type == key_meta)) [
  | inl e ↦ rw e (ap some (sym (no_elements f k other h g e same)))
  | inr n ↦ rw n (
      both-Parses decode_element_length b1 b2 (compare_counted f) _
        (Parses-length (length k.elements) h.is_key.few_elements)
        (Parses-length (length other.elements) g.is_key.few_elements) v w
        (λ c1 c2 v' w'.
          compare_counted_eq f k.elements other.elements c1 c2 h.is_key.elements_fit
            g.is_key.elements_fit v' w'))
]

compare_types_eq :
    (f : Float) (k other : KeyObject) (b1 b2 : Buffer)
    → IsStored k
    → IsStored other
    → Holds b1 (k.key_type ∷ length k.elements ∷ elements_bytes k.elements)
    → Holds b2 (other.key_type ∷ length other.elements ∷ elements_bytes other.elements)
    → compare_types f b1 b2 ≡ some (types_order f k other)
unfolding compare_types
compare_types_eq f k other b1 b2 h g v w =
    let got1 =
      (Parses-decode_type k.key_type).run b1 (length k.elements ∷ elements_bytes k.elements) v.0
        v.1 in
    let got2 =
      (Parses-decode_type other.key_type).run b2
        (length other.elements ∷ elements_bytes other.elements) w.0 w.1 in
    rw (got1.0, got2.0)
      (elim (Bool-cases (is_zero (sub_ℕ k.key_type other.key_type))) [
        | inl e ↦ rw e (
            compare_rest_eq f k other _ _ h g (sub_zero k.key_type other.key_type e)
              (got1.2, got1.1) (got2.2, got2.1))
        | inr n ↦ rw n refl
      ])

regrouped :
    (k : KeyObject)
    → body_bytes k
      ≡ (uvarint (length (string_bytes k.key)) ++ string_bytes k.key)
        ++ (k.key_type ∷ length k.elements ∷ elements_bytes k.elements)
unfolding body_bytes
regrouped k = sym (append_assoc (uvarint (length (string_bytes k.key))) (string_bytes k.key) _)

compare_prefixes_eq :
    (f : Float) (k other : KeyObject) (b1 b2 : Buffer)
    → IsStored k
    → IsStored other
    → Holds b1 (body_bytes k)
    → Holds b2 (body_bytes other)
    → compare_prefixes f b1 b2
      ≡ some (◌or_else◌ (Data.compare f k.key other.key false) (types_order f k other))
unfolding compare_prefixes
compare_prefixes_eq f k other b1 b2 h g v w =
    both-Parses (decode_key false) b1 b2 _ _
      (Parses-decode_key false k.key h.is_key.key_is_string h.is_key.key_fits)
      (Parses-decode_key false other.key g.is_key.key_is_string g.is_key.key_fits)
      (v.0, v.1 ∙ regrouped k) (w.0, w.1 ∙ regrouped other)
      (λ c1 c2 v' w'.
        return_or-eq
          (compare-reowned f true k.key other.key
            ∙ compare_alpha f k.key other.key h.is_key.key_is_string g.is_key.key_is_string)
          (compare_types_eq f k other c1 c2 h g v' w'))

-- The key without the namespace that is not in its byte form.
abbrev pub in_store : Bool → KeyObject → KeyObject
in_store has_ns k = record k { ns = if has_ns then k.ns else nil }

wrapped : (bytes : List ℕ) → Holds (wrap bytes 0) bytes
unfolding contents
wrapped bytes = (
  record { read_le = omega arith; write_le = omega arith; len_le = omega arith },
  take_ge (length bytes) bytes (omega arith),
)

nil_first : (f : Float) (x : ℤ) → ◌or_else◌ (Data.compare f nil nil false) x ≡ x
unfolding Data.compare is_nil
nil_first f x = refl

-- On the byte forms of two keys with `IsStored` (`IsKey`, and no elements under the type
-- `key_meta`), with the namespaces or without, `compare_keys` ends without an abort, and its result
-- is that of `KeyObject::Compare` on the keys, whose namespaces are nil if they were not written.
pub compare_keys-compare :
    (f : Float) (has_ns : Bool) (k other : KeyObject)
    → IsStored k
    → IsStored other
    → compare_keys f has_ns (some (key_bytes has_ns k)) (some (key_bytes has_ns other))
      ≡ some (compare f (in_store has_ns k) (in_store has_ns other))
unfolding compare_keys compare_buffers key_bytes compare compare_prefix
compare_keys-compare f true k other h g =
    both-Parses (Data.decode false) _ _ _ _ (Data.Codec.Parses-decode false k.ns h.is_key.ns_fits)
      (Data.Codec.Parses-decode false other.ns g.is_key.ns_fits) (wrapped (key_bytes true k))
      (wrapped (key_bytes true other))
      (λ c1 c2 v w.
        return_or-eq (compare-reowned f false k.ns other.ns)
          (compare_prefixes_eq f k other c1 c2 h g v w))
    ∙ ap some (
        sym (
          or_else_assoc (Data.compare f k.ns other.ns false) (Data.compare f k.key other.key false)
            (types_order f k other)))
compare_keys-compare f false k other h g =
    compare_prefixes_eq f k other _ _ h g (wrapped (key_bytes false k))
      (wrapped (key_bytes false other))
    ∙ ap some (
        sym (
          or_else_assoc (Data.compare f nil nil false) (Data.compare f k.key other.key false)
            (types_order f k other)
          ∙ nil_first f (◌or_else◌ (Data.compare f k.key other.key false) (types_order f k other))))
