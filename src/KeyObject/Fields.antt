-- ===== src/KeyObject/Fields.antt =====
-- The setters and getters of `KeyObject` (src/db/codec.hpp, src/db/codec.cpp).
use ardb.Prelude.{
  length-replicate, ℕ, zero, suc, ◌+◌, ◌<◌, ◌≡◌, refl, ap, ◌∙◌, inl, inr, Option, none, some, List,
  [], ◌∷◌, arith, leb, ◌==◌, Bool-cases, length, get_elem?, length-append, length-take,
}
use ardb.Data.{Data}
use ardb.StreamId
use ardb.StreamId.{StreamId, empty_id}
use ardb.StreamId.Laws.{IsU64Id, decode-encode}
use ardb.KeyType.{key_zset_score}
use ardb.KeyObject.{
  KeyObject, put_at, resize, set_element, get_element, set_zset_member, get_zset_member,
  set_stream_id, get_stream_id, set_stream_pel_id, get_stream_pel_id,
}

get_elem-put_at :
    (i : ℕ) (d : Data) (xs : List Data) → i < length xs → get_elem? (put_at i d xs) i ≡ some d
get_elem-put_at i d [] h = absurd (omega arith)
get_elem-put_at zero d (x ∷ xs) h = refl
get_elem-put_at (suc i) d (x ∷ xs) h = get_elem-put_at i d xs (omega arith)

length-resize : (n : ℕ) (xs : List Data) → length (resize n xs) ≡ n
unfolding resize
length-resize n xs = rw (length-append, length-take, length-replicate) (omega arith)

pub get_element-set_element :
    (i : ℕ) (d : Data) (k : KeyObject) → get_element i (set_element d i k) ≡ some d
unfolding get_element set_element
get_element-set_element i d k = elim (Bool-cases (leb (length k.elements) i)) [
  | inl short ↦ rw short (
      get_elem-put_at i d (resize (i + 1) k.elements)
        (omega (arith, length-resize (i + 1) k.elements)))
  | inr there ↦ rw there (get_elem-put_at i d k.elements (ground arith))
]

set_element-type : (i : ℕ) (d : Data) (k : KeyObject) → (set_element d i k).key_type ≡ k.key_type
unfolding set_element
set_element-type i d k = refl

-- The member that `SetZSetMember` stores in a key is the one that `GetZSetMember` gives, for either
-- kind of key of a sorted set and however many elements the key had.
pub get_zset_member-set_zset_member :
    (d : Data) (k : KeyObject) → get_zset_member (set_zset_member d k) ≡ some d
unfolding get_zset_member set_zset_member
get_zset_member-set_zset_member d k = elim (Bool-cases (k.key_type == key_zset_score)) [
  | inl e ↦ rw e (rw (set_element-type 0 d k, e) (get_element-set_element 0 d k))
  | inr n ↦ rw n (rw (set_element-type 1 d k, n) (get_element-set_element 1 d k))
]

abbrev read_id : Option Data → Option StreamId
read_id (some d) = some (StreamId.decode empty_id d)
read_id none = none

-- `GetStreamID` gives back the id of 64-bit numbers that `SetStreamID` stored in a key, however
-- many elements the key had.
pub get_stream_id-set_stream_id :
    (id : StreamId) (k : KeyObject) → IsU64Id id → get_stream_id (set_stream_id id k) ≡ some id
unfolding get_stream_id set_stream_id set_element get_element
get_stream_id-set_stream_id id k h =
    ap read_id (get_element-set_element 0 (StreamId.encode id) k)
    ∙ ap some (decode-encode empty_id id h)

-- `GetStreamPELId` gives back the id of 64-bit numbers that `SetStreamPELId` stored in a key,
-- however many elements the key had.
pub get_stream_pel_id-set_stream_pel_id :
    (id : StreamId) (k : KeyObject)
    → IsU64Id id
    → get_stream_pel_id (set_stream_pel_id id k) ≡ some id
unfolding get_stream_pel_id set_stream_pel_id set_element get_element
get_stream_pel_id-set_stream_pel_id id k h =
    ap read_id (get_element-set_element 1 (StreamId.encode id) k)
    ∙ ap some (decode-encode empty_id id h)
