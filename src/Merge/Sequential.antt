-- ===== src/Merge/Sequential.antt =====
-- `MergeOperands` and `MergeOperation` of src/command/merge.cpp: joined operations and sequences.
use ardb.Prelude.{
  subst, ==_iff, ℕ, ◌≤◌, ◌≡◌, refl, sym, ap, ap₂, ◌∙◌, inl, inr, true, false, ◌||◌, none, some,
  List, [], ◌∷◌, arith, ◌==◌, Bool-cases, length,
}
use ardb.Data.{float64, cstr, sds, Data, Float, nil, int64, is_integer, get_int64}
use ardb.KeyObject.{put_at}
use ardb.ValueObject.{ValueObject}
use ardb.Merge.Cmd
use ardb.Merge.{
  Result, merge_incr_by, merge_expire, merge_set, merge_hincrby, add64, dispatch, merge_operands,
  arg, adjust_merge_op, merge_operation,
}
use ardb.Merge.Twice.{incr_by-twice, expire-twice, setnx-twice, setxx-twice, int64_of, hincr-twice}

arg-put : (d : Data) (args : List Data) → 1 ≤ length args → arg 0 (put_at 0 d args) ≡ d
unfolding arg
arg-put d [] h = ground arith
arg-put d (x ∷ xs) h = refl

the_integer : (d : Data) → is_integer d ≡ true → d ≡ int64 (get_int64 d)
unfolding is_integer get_int64
the_integer (int64 n) h = refl
the_integer nil h = cc
the_integer (float64 v) h = cc
the_integer (cstr s) h = cc
the_integer (sds s) h = cc

module _ (f : Float) (others : ℕ → List Data → ValueObject → Result) (key_type : ℕ) where
  -- `m` does what `l`, and then `r`, do.
  abbrev Joins : ℕ → List Data → List Data → List Data → Type 0
  Joins op l r m =
      (v : ValueObject)
      → (merge_operation f others key_type op r (merge_operation f others key_type op l v).1).1
        ≡ (merge_operation f others key_type op m v).1

  abbrev Joined : ℕ → Type 0
  Joined op =
      (l r m : List Data) → 1 ≤ length r → merge_operands f op l op r ≡ some m → Joins op l r m

  Joined-incrby : Joined Cmd.incrby
  unfolding merge_operation merge_operands adjust_merge_op dispatch
  Joined-incrby l r m n h v =
      let sum = int64 (add64 (get_int64 (arg 0 r)) (get_int64 (arg 0 l))) in
      let is_m : put_at 0 sum r ≡ m = cc h in
      incr_by-twice (get_int64 (arg 0 l)) (get_int64 (arg 0 r)) v
      ∙ ap (λ d. (merge_incr_by d v).1)
          (sym (ap get_int64 (ap (arg 0) (sym is_m) ∙ arg-put sum r n) ∙ int64_of _))

  Joined-hincr :
      (l r m : List Data)
      → 1 ≤ length r
      → is_integer (arg 0 l) ≡ true
      → is_integer (arg 0 r) ≡ true
      → merge_operands f Cmd.hincr l Cmd.hincr r ≡ some m
      → Joins Cmd.hincr l r m
  unfolding merge_operation merge_operands adjust_merge_op dispatch
  Joined-hincr l r m n li ri h v =
      let sum = int64 (add64 (get_int64 (arg 0 r)) (get_int64 (arg 0 l))) in
      let is_m : put_at 0 sum r ≡ m = cc h in
      ap₂ (λ d e. (merge_hincrby f Cmd.hincr d (merge_hincrby f Cmd.hincr e v).1).1)
        (the_integer (arg 0 r) ri) (the_integer (arg 0 l) li)
      ∙ hincr-twice f (get_int64 (arg 0 l)) (get_int64 (arg 0 r)) v
      ∙ ap (λ d. (merge_hincrby f Cmd.hincr d v).1) (sym (ap (arg 0) (sym is_m) ∙ arg-put sum r n))

  Joined-pexpireat : Joined Cmd.pexpireat
  unfolding merge_operation merge_operands adjust_merge_op dispatch
  Joined-pexpireat l r m n h v =
      let is_m : r ≡ m = cc h in
      expire-twice (get_int64 (arg 0 l)) (get_int64 (arg 0 r)) v
      ∙ ap (λ a. (merge_expire (get_int64 (arg 0 a)) v).1) is_m

  Joined-setxx : Joined Cmd.setxx
  unfolding merge_operation merge_operands adjust_merge_op dispatch
  Joined-setxx l r m n h v =
      let is_m : r ≡ m = cc h in
      setxx-twice (arg 0 l) (arg 0 r) v ∙ ap (λ a. (merge_set Cmd.setxx (arg 0 a) 0 v).1) is_m

  Joined-setnx : Joined Cmd.setnx
  unfolding merge_operation merge_operands adjust_merge_op dispatch
  Joined-setnx l r m n h v =
      let is_m : put_at 0 (arg 0 l) r ≡ m = cc h in
      setnx-twice (arg 0 l) (arg 0 r) v
      ∙ ap (λ d. (merge_set Cmd.setnx d 0 v).1)
          (sym (ap (arg 0) (sym is_m) ∙ arg-put (arg 0 l) r n))

  at :
      (op c : ℕ) (l r m : List Data)
      → (op == c) ≡ true
      → (merge_operands f c l c r ≡ some m → Joins c l r m)
      → merge_operands f op l op r ≡ some m
      → Joins op l r m
  at op c l r m e joined =
      subst (λ o. merge_operands f o l o r ≡ some m → Joins o l r m) (sym ((==_iff op c).0 e))
        joined

  -- No other operation is joined.
  refused :
      (op : ℕ) (l r m : List Data)
      → (op == Cmd.incrby) ≡ false
      → (op == Cmd.hincr) ≡ false
      → (op == Cmd.incrbyfloat || op == Cmd.hincrbyfloat) ≡ false
      → (op == Cmd.pexpireat) ≡ false
      → (op == Cmd.setxx) ≡ false
      → (op == Cmd.setnx) ≡ false
      → merge_operands f op l op r ≡ none
  unfolding merge_operands
  refused op l r m a b c d e g = elim (Bool-cases (op == op)) [
    | inl z ↦ rw (z, a, b, c, d, e, g) refl
    | inr z ↦ rw z refl
  ]

  same_op :
      (op : ℕ) (l r m : List Data)
      → 1 ≤ length r
      → (op == Cmd.incrbyfloat || op == Cmd.hincrbyfloat) ≡ false
      → ((op == Cmd.hincr) ≡ true → (is_integer (arg 0 l) ≡ true) × (is_integer (arg 0 r) ≡ true))
      → merge_operands f op l op r ≡ some m
      → Joins op l r m
  same_op op l r m n exact ints h = elim (Bool-cases (op == Cmd.incrby)) [
    | inl e ↦ at op Cmd.incrby l r m e (Joined-incrby l r m n) h
    | inr a ↦ elim (Bool-cases (op == Cmd.hincr)) [
      | inl e ↦ at op Cmd.hincr l r m e (Joined-hincr l r m n (ints e).0 (ints e).1) h
      | inr b ↦ elim (Bool-cases (op == Cmd.pexpireat)) [
        | inl e ↦ at op Cmd.pexpireat l r m e (Joined-pexpireat l r m n) h
        | inr c ↦ elim (Bool-cases (op == Cmd.setxx)) [
          | inl e ↦ at op Cmd.setxx l r m e (Joined-setxx l r m n) h
          | inr d ↦ elim (Bool-cases (op == Cmd.setnx)) [
            | inl e ↦ at op Cmd.setnx l r m e (Joined-setnx l r m n) h
            | inr g ↦ cc (refused op l r m a b exact c d g, h)
          ]
        ]
      ]
    ]
  ]

  left_is_right :
      (left right : ℕ) (l r m : List Data) → merge_operands f left l right r ≡ some m → left ≡ right
  unfolding merge_operands
  left_is_right left right l r m h = elim (Bool-cases (left == right)) [
    | inl e ↦ (==_iff left right).0 e
    | inr k ↦ cc (refuse k, h)
  ]
    where
      refuse : (left == right) ≡ false → merge_operands f left l right r ≡ none
      refuse k = rw k refl

-- When `merge_operands` joins `left` and `right`, applying what it gives by `merge_operation`
-- leaves the value that applying `left` and then `right` leaves, whatever the value and the type of
-- its key, also where an operation fails. It holds for every pair that is joined but the two
-- additions of floating-point numbers, where `right` has an argument and, for HINCR, both first
-- arguments are integers.
pub merge_operands-sequential :
    (f : Float) (others : ℕ → List Data → ValueObject → Result) (key_type left right : ℕ)
    (left_args right_args joined : List Data)
    → 1 ≤ length right_args
    → (left == Cmd.incrbyfloat || left == Cmd.hincrbyfloat) ≡ false
    → ((left == Cmd.hincr) ≡ true
        → (is_integer (arg 0 left_args) ≡ true) × (is_integer (arg 0 right_args) ≡ true))
    → merge_operands f left left_args right right_args ≡ some joined
    → (v : ValueObject)
    → (merge_operation f others key_type right right_args
        (merge_operation f others key_type left left_args v).1).1
      ≡ (merge_operation f others key_type right joined v).1
merge_operands-sequential f others key_type left right l r m n exact ints h =
    subst
      (λ o.
        merge_operands f left l o r ≡ some m
        → (v : ValueObject)
        → (merge_operation f others key_type o r (merge_operation f others key_type left l v).1).1
          ≡ (merge_operation f others key_type o m v).1)
      (left_is_right f others key_type left right l r m h)
      (same_op f others key_type left l r m n exact ints) h
