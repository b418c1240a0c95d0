-- ===== src/Merge/Twice.antt =====
-- The merge handlers applied twice in a row (src/command/t_string.cpp, t_hash.cpp, keys.cpp).
use ardb.Prelude.{
  ==_iff, ℕ, ◌≡◌, refl, sym, ap, ap₂, ◌∙◌, inl, inr, Bool, true, false, not, ◌&&◌, ◌||◌, arith, ltb,
  ◌==◌, if◌then◌else◌, Bool-cases,
}
use ardb.Data.{Data, Float, int64, is_integer, get_int64}
use ardb.KeyType.{key_string, key_hash_field}
use ardb.ValueObject.{ValueObject, grow_to, element, set_element, set_ttl}
use ardb.Merge.Cmd
use ardb.Merge.{merge_incr_by, merge_expire, merge_set, merge_hincrby, add64, set_type}
use ardb.Merge.FirstValue.{set-vals, element-set, add64-add64, set-set, IsGrowth, grow-IsGrowth}

-- The branches of MergeIncrBy.
abbrev no_string : ValueObject → Bool
no_string v = ltb 0 v.type && not (v.type == key_string)

abbrev no_integer : ValueObject → Bool
no_integer v = ltb 0 v.type && not (is_integer (element 0 v))

incr_by-no_string : (n : ℕ) (v : ValueObject) → no_string v ≡ true → (merge_incr_by n v).1 ≡ v
unfolding merge_incr_by
incr_by-no_string n v h = rw h refl

incr_by-no_integer :
    (n : ℕ) (v : ValueObject)
    → no_string v ≡ false
    → no_integer v ≡ true
    → (merge_incr_by n v).1 ≡ grow_to 0 v
unfolding merge_incr_by
incr_by-no_integer n v h k = rw (h, k) refl

incr_by-done :
    (n : ℕ) (v : ValueObject)
    → no_string v ≡ false
    → no_integer v ≡ false
    → (merge_incr_by n v).1
      ≡ set_element 0 (int64 (add64 (get_int64 (element 0 v)) n)) (set_type key_string v)
unfolding merge_incr_by
incr_by-done n v h k = rw (h, k) refl

incr_by-integer :
    (a n : ℕ) (w : ValueObject)
    → w.type ≡ key_string
    → element 0 w ≡ int64 a
    → (merge_incr_by n w).1 ≡ set_element 0 (int64 (add64 a n)) (set_type key_string w)
unfolding is_integer get_int64 element
incr_by-integer a n w t e =
    incr_by-done n w (rw t refl) (rw (t, e) refl)
    ∙ ap (λ d. set_element 0 (int64 (add64 (get_int64 d) n)) (set_type key_string w)) e

-- A first value that is assigned twice, in between a type that is set again.
retyped :
    (d e : Data) (t : ℕ) (v : ValueObject)
    → set_element 0 e (set_type t (set_element 0 d (set_type t v))) ≡ set_element 0 e (set_type t v)
retyped d e t v = rw (set-vals d (set_type t v)) (set-vals e _ ∙ sym (set-vals e (set_type t v)))

-- Adding `l`, then `r`, is adding their sum.
pub incr_by-twice :
    (l r : ℕ) (v : ValueObject)
    → (merge_incr_by r (merge_incr_by l v).1).1 ≡ (merge_incr_by (add64 r l) v).1
incr_by-twice l r v = elim (Bool-cases (no_string v)) [
  | inl e ↦
      rw (incr_by-no_string l v e, incr_by-no_string r v e, incr_by-no_string (add64 r l) v e) refl
  | inr n ↦ elim (Bool-cases (no_integer v)) [
    | inl e ↦
        rw (incr_by-no_integer l v n e, incr_by-no_integer (add64 r l) v n e)
          (again n e (grow-IsGrowth v))
    | inr k ↦ rw (incr_by-done l v n k, incr_by-done (add64 r l) v n k) (summed _)
  ]
]
  where
    again :
        no_string v ≡ false
        → no_integer v ≡ true
        → IsGrowth v (grow_to 0 v)
        → (merge_incr_by r (grow_to 0 v)).1 ≡ grow_to 0 v
    again n e g =
        incr_by-no_integer r (grow_to 0 v)
          (ap (λ t. ltb 0 t && not (t == key_string)) g.same_type ∙ n)
          (ap₂ (λ t d. ltb 0 t && not (is_integer d)) g.same_type g.same_element ∙ e)
        ∙ g.once

    summed :
        (a : ℕ)
        → (merge_incr_by r (set_element 0 (int64 (add64 a l)) (set_type key_string v))).1
          ≡ set_element 0 (int64 (add64 a (add64 r l))) (set_type key_string v)
    summed a =
        incr_by-integer (add64 a l) r (set_element 0 (int64 (add64 a l)) (set_type key_string v))
          (rw (set-vals (int64 (add64 a l)) (set_type key_string v)) refl)
          (element-set (int64 (add64 a l)) (set_type key_string v))
        ∙ retyped (int64 (add64 a l)) (int64 (add64 (add64 a l) r)) key_string v
        ∙ ap (λ x. set_element 0 (int64 x) (set_type key_string v)) (add64-add64 a l r)

expire-value :
    (n : ℕ) (v : ValueObject) → (merge_expire n v).1 ≡ (if v.type == 0 then v else set_ttl n v)
unfolding merge_expire set_ttl
expire-value n v = elim (Bool-cases (v.type == 0)) [
  | inl e ↦ rw e refl
  | inr k ↦ elim (Bool-cases (v.meta.ttl == n)) [
    | inl e ↦ rw (k, e) (ap (λ t. set_ttl t v) ((==_iff v.meta.ttl n).0 e))
    | inr m ↦ rw (k, m) refl
  ]
]

-- An expiry that is set twice is the second.
pub expire-twice :
    (l r : ℕ) (v : ValueObject) → (merge_expire r (merge_expire l v).1).1 ≡ (merge_expire r v).1
unfolding set_ttl
expire-twice l r v = elim (Bool-cases (v.type == 0)) [
  | inl e ↦ rw (expire-value l v, expire-value r v, e, expire-value r v, e) refl
  | inr k ↦ rw (expire-value l v, expire-value r v, k, expire-value r (set_ttl l v), k) refl
]

-- Of two SETNX only the first can set, and of two SETXX the second has the last word.
set-done :
    (op : ℕ) (d : Data) (v : ValueObject)
    → no_string v ≡ false
    → ((op == Cmd.setnx || op == Cmd.setnx2) && not (v.type == 0)) ≡ false
    → (op == Cmd.setxx && 0 == v.type) ≡ false
    → (merge_set op d 0 v).1 ≡ set_element 0 d (set_type key_string v)
unfolding merge_set
set-done op d v h j k = rw (h, j, k) refl

set-no_string :
    (op : ℕ) (d : Data) (v : ValueObject) → no_string v ≡ true → (merge_set op d 0 v).1 ≡ v
unfolding merge_set
set-no_string op d v h = rw h refl

setnx-there :
    (d : Data) (v : ValueObject)
    → no_string v ≡ false
    → (v.type == 0) ≡ false
    → (merge_set Cmd.setnx d 0 v).1 ≡ v
unfolding merge_set
setnx-there d v h k = rw (h, k) refl

setxx-absent :
    (d : Data) (v : ValueObject)
    → no_string v ≡ false
    → (0 == v.type) ≡ true
    → (merge_set Cmd.setxx d 0 v).1 ≡ v
unfolding merge_set
setxx-absent d v h k = rw (h, k) refl

set-type : (d : Data) (t : ℕ) (v : ValueObject) → (set_element 0 d (set_type t v)).type ≡ t
set-type d t v = rw (set-vals d (set_type t v)) refl

pub setnx-twice :
    (l r : Data) (v : ValueObject)
    → (merge_set Cmd.setnx r 0 (merge_set Cmd.setnx l 0 v).1).1 ≡ (merge_set Cmd.setnx l 0 v).1
setnx-twice l r v = elim (Bool-cases (no_string v)) [
  | inl e ↦ rw (set-no_string Cmd.setnx l v e) (set-no_string Cmd.setnx r v e)
  | inr n ↦ elim (Bool-cases (v.type == 0)) [
    | inl e ↦ rw (set-done Cmd.setnx l v n (rw e refl) refl) (
        setnx-there r _ (ap (λ t. ltb 0 t && not (t == key_string)) (set-type l key_string v))
          (ap (λ t. t == 0) (set-type l key_string v)))
    | inr k ↦ rw (setnx-there l v n k) (setnx-there r v n k)
  ]
]

pub setxx-twice :
    (l r : Data) (v : ValueObject)
    → (merge_set Cmd.setxx r 0 (merge_set Cmd.setxx l 0 v).1).1 ≡ (merge_set Cmd.setxx r 0 v).1
setxx-twice l r v = elim (Bool-cases (no_string v)) [
  | inl e ↦ rw (set-no_string Cmd.setxx l v e) refl
  | inr n ↦ elim (Bool-cases (0 == v.type)) [
    | inl e ↦ rw (setxx-absent l v n e) refl
    | inr k ↦
        rw (set-done Cmd.setxx l v n refl k, set-done Cmd.setxx r v n refl k)
          (set-done Cmd.setxx r _
              (ap (λ t. ltb 0 t && not (t == key_string)) (set-type l key_string v)) refl
              (ap (λ t. 0 == t) (set-type l key_string v))
            ∙ retyped l r key_string v)
  ]
]

integer_is : (n : ℕ) → is_integer (int64 n) ≡ true
unfolding is_integer
integer_is n = refl

pub int64_of : (n : ℕ) → get_int64 (int64 n) ≡ n
unfolding get_int64
int64_of n = refl

-- The branches of MergeHIncrby for integers.
hincr-new :
    (f : Float) (n : ℕ) (v : ValueObject)
    → (v.type == 0) ≡ true
    → (merge_hincrby f Cmd.hincr (int64 n) v).1
      ≡ set_element 0 (int64 n) (set_type key_hash_field v)
unfolding merge_hincrby is_integer
hincr-new f n v h = rw h refl

hincr-refused :
    (f : Float) (n : ℕ) (v : ValueObject)
    → (v.type == 0) ≡ false
    → is_integer (element 0 v) ≡ false
    → (merge_hincrby f Cmd.hincr (int64 n) v).1 ≡ grow_to 0 v
unfolding merge_hincrby
hincr-refused f n v h k = rw (integer_is n, h, k) refl

hincr-added :
    (f : Float) (n : ℕ) (v : ValueObject)
    → (v.type == 0) ≡ false
    → is_integer (element 0 v) ≡ true
    → (merge_hincrby f Cmd.hincr (int64 n) v).1
      ≡ set_element 0 (int64 (add64 n (get_int64 (element 0 v)))) v
unfolding merge_hincrby
hincr-added f n v h k =
    rw (integer_is n, h, k)
      (ap (λ a. set_element 0 (int64 (add64 a (get_int64 (element 0 v)))) v) (int64_of n))

pub hincr-twice :
    (f : Float) (l r : ℕ) (v : ValueObject)
    → (merge_hincrby f Cmd.hincr (int64 r) (merge_hincrby f Cmd.hincr (int64 l) v).1).1
      ≡ (merge_hincrby f Cmd.hincr (int64 (add64 r l)) v).1
unfolding is_integer get_int64
hincr-twice f l r v = elim (Bool-cases (v.type == 0)) [
  | inl e ↦
      rw (hincr-new f l v e, hincr-new f (add64 r l) v e)
        (added l (set_element 0 (int64 l) (set_type key_hash_field v))
            (ap (λ t. t == 0) (set-type (int64 l) key_hash_field v))
            (element-set (int64 l) (set_type key_hash_field v))
          ∙ set-set (int64 l) (int64 (add64 r l)) (set_type key_hash_field v))
  | inr n ↦ elim (Bool-cases (is_integer (element 0 v))) [
    | inr k ↦
        rw (hincr-refused f l v n k, hincr-refused f (add64 r l) v n k)
          (again n k (grow-IsGrowth v))
    | inl e ↦
        rw (hincr-added f l v n e, hincr-added f (add64 r l) v n e)
          (summed n (get_int64 (element 0 v)))
  ]
]
  where
    added :
        (a : ℕ) (w : ValueObject)
        → (w.type == 0) ≡ false
        → element 0 w ≡ int64 a
        → (merge_hincrby f Cmd.hincr (int64 r) w).1 ≡ set_element 0 (int64 (add64 r a)) w
    added a w t e =
        hincr-added f r w t (ap is_integer e)
        ∙ ap (λ d. set_element 0 (int64 (add64 r (get_int64 d))) w) e

    again :
        (v.type == 0) ≡ false
        → is_integer (element 0 v) ≡ false
        → IsGrowth v (grow_to 0 v)
        → (merge_hincrby f Cmd.hincr (int64 r) (grow_to 0 v)).1 ≡ grow_to 0 v
    again n k g =
        hincr-refused f r (grow_to 0 v) (ap (λ t. t == 0) g.same_type ∙ n)
          (ap is_integer g.same_element ∙ k)
        ∙ g.once

    summed :
        (v.type == 0) ≡ false
        → (a : ℕ)
        → (merge_hincrby f Cmd.hincr (int64 r) (set_element 0 (int64 (add64 l a)) v)).1
          ≡ set_element 0 (int64 (add64 (add64 r l) a)) v
    summed n a =
        added (add64 l a) (set_element 0 (int64 (add64 l a)) v)
          (rw (set-vals (int64 (add64 l a)) v) n) (element-set (int64 (add64 l a)) v)
        ∙ set-set (int64 (add64 l a)) (int64 (add64 r (add64 l a))) v
        ∙ ap (λ x. set_element 0 (int64 x) v) (omega arith)
