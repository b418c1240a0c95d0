-- ===== src/Merge/Adjust.antt =====
-- The counters of `AdjustMergeOp` and `MergeOperation` of src/command/merge.cpp: what a decrement leaves
-- of an increment.
use ardb.Prelude.{ℕ, ◌+◌, ◌-◌, ◌%◌, ◌^◌, ◌<◌, ◌≡◌, ap, none, List, [], ◌∷◌, arith}
use ardb.Data.{Data, Float, int64, is_integer, get_int64}
use ardb.StringHelper.{negate64}
use ardb.KeyType.{key_string}
use ardb.ValueObject.{ValueObject, grow_to, element, set_element}
use ardb.Merge.Cmd
use ardb.Merge.{Result, arg, adjust_merge_op, add64, merge_incr_by, dispatch, merge_operation}

-- The commands that add their argument, that subtract it, and that subtract 1.
pub data Increment : Type 0 where
  incr : Increment
  incr2 : Increment
  incrby : Increment
  incrby2 : Increment

pub data Decrement : Type 0 where
  decrby : Decrement
  decrby2 : Decrement

pub data DecrementOne : Type 0 where
  decr : DecrementOne
  decr2 : DecrementOne

abbrev pub increment_op : Increment → ℕ
increment_op incr = Cmd.incr
increment_op incr2 = Cmd.incr2
increment_op incrby = Cmd.incrby
increment_op incrby2 = Cmd.incrby2

abbrev pub decrement_op : Decrement → ℕ
decrement_op decrby = Cmd.decrby
decrement_op decrby2 = Cmd.decrby2

abbrev pub decrement_one_op : DecrementOne → ℕ
decrement_one_op decr = Cmd.decr
decrement_one_op decr2 = Cmd.decr2

-- A string that is an integer.
abbrev pub counter : ℕ → List Data → ValueObject → ValueObject
counter a rest v = record v { type = key_string; vals = int64 a ∷ rest }

added :
    (n a : ℕ) (rest : List Data) (v : ValueObject)
    → merge_incr_by n (counter a rest v) ≡ (none, counter (add64 a n) rest v)
unfolding merge_incr_by set_element grow_to element get_int64 is_integer
added n a rest v = ground arith

module _ (f : Float) (others : ℕ → List Data → ValueObject → Result) (key_type : ℕ) where
  increments :
      (i : Increment) (n a : ℕ) (more rest : List Data) (v : ValueObject)
      → merge_operation f others key_type (increment_op i) (int64 n ∷ more) (counter a rest v)
        ≡ (none, counter (add64 a n) rest v)
  unfolding merge_operation adjust_merge_op dispatch arg get_int64
  increments incr n a more rest v = added n a rest v
  increments incr2 n a more rest v = added n a rest v
  increments incrby n a more rest v = added n a rest v
  increments incrby2 n a more rest v = added n a rest v

  decrements :
      (d : Decrement) (n a : ℕ) (more rest : List Data) (v : ValueObject)
      → merge_operation f others key_type (decrement_op d) (int64 n ∷ more) (counter a rest v)
        ≡ (none, counter (add64 a (negate64 n)) rest v)
  unfolding merge_operation adjust_merge_op dispatch arg get_int64
  decrements decrby n a more rest v = added (negate64 n) a rest v
  decrements decrby2 n a more rest v = added (negate64 n) a rest v

  decrements_one :
      (d : DecrementOne) (n a : ℕ) (more rest : List Data) (v : ValueObject)
      → merge_operation f others key_type (decrement_one_op d) (int64 n ∷ more) (counter a rest v)
        ≡ (none, counter (add64 a (2 ^ 64 - 1)) rest v)
  unfolding merge_operation adjust_merge_op dispatch arg get_int64
  decrements_one decr n a more rest v = added (2 ^ 64 - 1) a rest v
  decrements_one decr2 n a more rest v = added (2 ^ 64 - 1) a rest v

  -- One operation after another that succeeded.
  abbrev pub twice : ℕ → ℕ → ℕ → ℕ → ValueObject → Result
  twice op n op' n' v =
      merge_operation f others key_type op' (int64 n' ∷ [])
        (merge_operation f others key_type op (int64 n ∷ []) v).1

  -- On a string value that is an integer of 64 bits: INCR or INCRBY (or a variant) by a 64-bit
  -- number adds it modulo 2 ^ 64; DECRBY (or its variant) by the same number after it gives the
  -- value back, as it does before it; DECR (or its variant) after an increment by 1 gives the value
  -- back, whatever its own argument. None of them fails.
  pub merge_operation-undone :
      (i : Increment) (d : Decrement) (one : DecrementOne) (n m a : ℕ) (rest : List Data)
      (v : ValueObject)
      → n < 2 ^ 64
      → a < 2 ^ 64
      → (twice (increment_op i) n (decrement_op d) n (counter a rest v) ≡ (none, counter a rest v))
        × (twice (decrement_op d) n (increment_op i) n (counter a rest v)
            ≡ (none, counter a rest v))
        × (twice (increment_op i) 1 (decrement_one_op one) m (counter a rest v)
            ≡ (none, counter a rest v))
        × (merge_operation f others key_type (increment_op i) (int64 n ∷ []) (counter a rest v)
            ≡ (none, counter ((a + n) % 2 ^ 64) rest v))
  merge_operation-undone i d one n m a rest v small_n small_a = (
    rw (increments i n a [] rest v, decrements d n (add64 a n) [] rest v)
        (ap (λ k. (none, counter k rest v)) {y = a} (ground arith)),
    rw (decrements d n a [] rest v, increments i n (add64 a (negate64 n)) [] rest v)
        (ap (λ k. (none, counter k rest v)) {y = a} (ground arith)),
    rw (increments i 1 a [] rest v, decrements_one one m (add64 a 1) [] rest v)
        (ap (λ k. (none, counter k rest v)) {y = a} (ground arith)),
    increments i n a [] rest v,
  )
