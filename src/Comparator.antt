-- ===== src/Comparator.antt =====
-- `compare_keys` of src/db/engine.cpp, the order that the storage engines keep their keys in: it
-- compares two encoded keys and decodes no more of them than it needs.
-- `none` is FATAL_LOG, which aborts the program.
pub mod Owner
pub mod Agreement
use ardb.Prelude.{
  ℕ, zero, suc, ◌||◌, Bool, true, false, Option, none, some, List, [], ◌∷◌, ◌==◌, if◌then◌else◌,
}
use ardb.Prelude.Int.{ℤ, pos, negsuc, sub_ℕ, minus_one, is_negative, is_zero}
use ardb.Buffer
use ardb.Buffer.{Buffer, wrap}
use ardb.ByteIo.{Reader}
use ardb.Data
use ardb.Data.{Data, Float}
use ardb.KeyType.{key_meta}
use ardb.KeyObject.{decode_key, decode_type, decode_element_length}

-- `ret`, if it is not 0, and what follows if it is.
abbrev pub ◌return_or◌ : ℤ → Option ℤ → Option ℤ
◌return_or◌ ret next = if is_zero ret then next else some ret

-- One reader on the first buffer, then on the second; it is fatal that either fails.
unfoldable pub both {ℓ} :
    {A : Type ℓ} → Reader A → Buffer → Buffer → (A → A → Buffer → Buffer → Option ℤ) → Option ℤ
both m b1 b2 next = elim (m b1).0 [
  | none ↦ none
  | some x ↦ elim (m b2).0 [ none ↦ none | some y ↦ next x y (m b1).1 (m b2).1 ]
]

-- The loop over the elements.
unfoldable pub compare_elements : Float → ℕ → Buffer → Buffer → Option ℤ
compare_elements f zero b1 b2 = some (pos 0)
compare_elements f (suc n) b1 b2 =
    both (Data.decode false) b1 b2
      (λ x y c1 c2. ◌return_or◌ (Data.compare f x y false) (compare_elements f n c1 c2))

-- The counts, and then the elements.
unfoldable pub compare_counted : Float → ℤ → ℤ → Buffer → Buffer → Option ℤ
compare_counted f (pos n) (pos m) b1 b2 = ◌return_or◌ (sub_ℕ n m) (compare_elements f n b1 b2)
compare_counted f elen1 elen2 b1 b2 = none

-- 4. only meta key has no element in key part
unfoldable pub compare_rest : Float → ℕ → Buffer → Buffer → Option ℤ
compare_rest f type b1 b2 =
    if type == key_meta then some (pos 0) else both decode_element_length b1 b2 (compare_counted f)

-- DecodeType fails at the end of the buffer, and the type is then 0 as in a new key.
abbrev pub decoded : Option ℕ → ℕ
decoded r = elim r [ some x ↦ 1 | none ↦ 0 ]

abbrev pub type_or_0 : Option ℕ → ℕ
type_or_0 r = elim r [ some x ↦ x | none ↦ 0 ]

-- 3. compare key & type: the types
unfoldable pub compare_types : Float → Buffer → Buffer → Option ℤ
compare_types f b1 b2 =
    let (r1, c1) = decode_type b1 in
    let (r2, c2) = decode_type b2 in
    ◌return_or◌ (sub_ℕ (decoded r1) (decoded r2))
      (◌return_or◌ (sub_ℕ (type_or_0 r1) (type_or_0 r2)) (compare_rest f (type_or_0 r1) c1 c2))

-- 2. decode prefix, 3. compare key & type: the keys
unfoldable pub compare_prefixes : Float → Buffer → Buffer → Option ℤ
compare_prefixes f b1 b2 =
    both (decode_key false) b1 b2
      (λ x y c1 c2. ◌return_or◌ (Data.compare f x y true) (compare_types f c1 c2))

-- 1. compare namespace
unfoldable pub compare_buffers : Float → Bool → Buffer → Buffer → Option ℤ
compare_buffers f has_ns b1 b2 =
    if has_ns
    then both (Data.decode false) b1 b2
        (λ x y c1 c2. ◌return_or◌ (Data.compare f x y false) (compare_prefixes f c1 c2))
    else compare_prefixes f b1 b2

-- compare_keys; a null pointer is `none`, and both null is an empty key on both sides
unfoldable pub compare_keys : Float → Bool → Option (List ℕ) → Option (List ℕ) → Option ℤ
compare_keys f has_ns none none = compare_buffers f has_ns (wrap [] 0) (wrap [] 0)
compare_keys f has_ns none (some k2) = some (pos 1)
compare_keys f has_ns (some k1) none = some minus_one
compare_keys f has_ns (some k1) (some k2) = compare_buffers f has_ns (wrap k1 0) (wrap k2 0)
