-- ===== src/Merge.antt =====
-- Merge operations: src/command/merge.cpp, and the handlers of src/command/t_string.cpp,
-- src/command/t_hash.cpp and src/command/keys.cpp that it calls. An engine that supports merging
-- stores operations instead of values, joins neighbours by `MergeOperands`, and applies what is left
-- to the value by `MergeOperation`.
-- An operation is the number of its command. A handler gives its error, or none, and the value.
-- `args[0]` of an empty vector is undefined behaviour; `nil` stands for it here.
pub mod Cmd
pub mod FirstValue
pub mod Twice
pub mod Sequential
pub mod Adjust
use ardb.Merge.Cmd
use ardb.Prelude.{
  ℕ, ◌+◌, ◌%◌, ◌^◌, ◌-◌, ◌++◌, ◌&&◌, ◌||◌, not, Bool, true, false, Option, none, some, List, [],
  ◌∷◌, ltb, ◌==◌, if◌then◌else◌, get_elem?,
}
use ardb.StringHelper.{negate64}
use ardb.Prelude.Int.{is_zero}
use ardb.Data
use ardb.Data.{
  Data, Float, nil, int64, float64, cstr, sds, is_integer, is_number, is_float, get_int64,
  get_float64,
}
use ardb.KeyType.{key_meta, key_string, key_hash, key_hash_field}
use ardb.MetaObject.{unknown_size}
use ardb.KeyObject.{put_at}
use ardb.ValueObject.{
  ValueObject, grow_to, element, set_element, object_len, set_object_len, set_ttl,
}

pub data MergeError : Type 0 where
  wrong_type : MergeError
  not_performed : MergeError
  invalid_integer_args : MergeError
  invalid_float_args : MergeError
  not_supported : MergeError

abbrev pub Result : Type 0
Result = Option MergeError × ValueObject

unfoldable pub arg : ℕ → List Data → Data
arg i args = elim (get_elem? args i) [ some d ↦ d | none ↦ nil ]

-- AdjustMergeOp(op, args): the operation that stands for all its variants; `none` is `false`
unfoldable pub adjust_merge_op : ℕ → List Data → Option (ℕ × List Data)
adjust_merge_op op args =
    if op == Cmd.hset || op == Cmd.hset2
    then some (Cmd.hset, args)
    else if op == Cmd.hsetnx || op == Cmd.hsetnx2
    then some (Cmd.hsetnx, args)
    else if op == Cmd.set || op == Cmd.set2
    then some (Cmd.set, args)
    else if op == Cmd.setxx
    then some (op, args)
    else if op == Cmd.setnx || op == Cmd.setnx2
    then some (Cmd.setnx, args)
    else if op == Cmd.psetex
    then some (op, args)
    else if op == Cmd.append || op == Cmd.append2
    then some (Cmd.append, args)
    else if op == Cmd.incr || op == Cmd.incr2 || op == Cmd.incrby || op == Cmd.incrby2
    then some (Cmd.incrby, args)
    else if op == Cmd.hincr || op == Cmd.hincr2
    then some (Cmd.hincr, args)
    else if op == Cmd.hincrbyfloat || op == Cmd.hincrbyfloat2
    then some (Cmd.hincrbyfloat, args)
    else if op == Cmd.decr || op == Cmd.decr2
    then some (Cmd.incrby, put_at 0 (int64 (2 ^ 64 - 1)) args)
    else if op == Cmd.decrby || op == Cmd.decrby2
    then some (Cmd.incrby, put_at 0 (int64 (negate64 (get_int64 (arg 0 args)))) args)
    else if op == Cmd.incrbyfloat || op == Cmd.incrbyfloat2
    then some (Cmd.incrbyfloat, args)
    else if op == Cmd.setrange || op == Cmd.setrange2
    then some (Cmd.setrange, args)
    else if op == Cmd.setbit || op == Cmd.setbit2
    then some (Cmd.setbit, args)
    else if op == Cmd.pfadd || op == Cmd.pfadd2
    then some (Cmd.pfadd, args)
    else if op == Cmd.pexpireat
    then some (op, args)
    else none

abbrev pub add64 : ℕ → ℕ → ℕ
add64 a b = (a + b) % 2 ^ 64

-- MergeOperands(left, left_args, right, right_args): the new right_args; `none` is -1
unfoldable pub merge_operands : Float → ℕ → List Data → ℕ → List Data → Option (List Data)
merge_operands f left left_args right right_args =
    if not (left == right)
    then none
    else if left == Cmd.incrby || left == Cmd.hincr
    then some (
        put_at 0 (int64 (add64 (get_int64 (arg 0 right_args)) (get_int64 (arg 0 left_args))))
          right_args)
    else if left == Cmd.incrbyfloat || left == Cmd.hincrbyfloat
    then some (
        put_at 0
          (float64 (f.add (get_float64 f (arg 0 right_args)) (get_float64 f (arg 0 left_args))))
          right_args)
    else if left == Cmd.pexpireat
    then some right_args
    else if left == Cmd.setxx
    then some right_args
    else if left == Cmd.setnx
    then some (put_at 0 (arg 0 left_args) right_args)
    else none

abbrev pub set_type : ℕ → ValueObject → ValueObject
set_type t v = record v { type = t }

-- MergeIncrBy. `||` asks for the value only if it is a string.
unfoldable pub merge_incr_by : ℕ → ValueObject → Result
merge_incr_by incr v =
    let next = grow_to 0 v in
    if ltb 0 v.type && not (v.type == key_string)
    then (some wrong_type, v)
    else if ltb 0 v.type && not (is_integer (element 0 v))
    then (some wrong_type, next)
    else (
      none,
      set_element 0 (int64 (add64 (get_int64 (element 0 v)) incr)) (set_type key_string v),
    )

-- MergeIncrByFloat
unfoldable pub merge_incr_by_float : Float → ℕ → ValueObject → Result
merge_incr_by_float f inc v =
    let next = grow_to 0 v in
    if ltb 0 v.type && not (v.type == key_string)
    then (some wrong_type, v)
    else if ltb 0 v.type && (not (is_integer (element 0 v)) && not (is_float (element 0 v)))
    then (some wrong_type, next)
    else (
      none,
      set_element 0 (float64 (f.add (get_float64 f (element 0 v)) inc)) (set_type key_string v),
    )

-- MergeExpire
unfoldable pub merge_expire : ℕ → ValueObject → Result
merge_expire ms v =
    if v.type == 0
    then (some not_performed, v)
    else if v.meta.ttl == ms
    then (some not_performed, v)
    else (none, set_ttl ms v)

-- MergeSet; `ttl > 0` is a test of a signed number
unfoldable pub merge_set : ℕ → Data → ℕ → ValueObject → Result
unfolding merge_expire
merge_set op opv ttl v =
    if ltb 0 v.type && not (v.type == key_string)
    then (some wrong_type, v)
    else if (op == Cmd.setnx || op == Cmd.setnx2) && not (v.type == 0)
    then (some not_performed, v)
    else if op == Cmd.setxx && 0 == v.type
    then (some not_performed, v)
    else (let v' = set_element 0 opv (set_type key_string v) in
        (none, if ltb 0 ttl && ltb ttl (2 ^ 63) then (merge_expire ttl v').1 else v'))

-- MergeAppend
unfoldable pub merge_append : Float → List ℕ → ValueObject → Result
merge_append f append v =
    if not (v.type == 0) && not (v.type == key_string)
    then (some wrong_type, v)
    else (let str = Data.to_string f (element 0 v) ++ append in
        (none, set_element 0 (Data.set_string str false true) (set_type key_string v)))

-- MergeHSet: on the metadata of the hash and on one of its fields
unfoldable pub merge_hset_meta : Data → ValueObject → Result
merge_hset_meta opv v =
    if ltb 0 v.type
    then (if not (v.type == key_hash)
        then (some not_performed, v)
        else if object_len v == unknown_size
        then (some not_performed, v)
        else (none, set_object_len unknown_size v))
    else (
      none,
      set_object_len (if is_integer opv then get_int64 opv else unknown_size) (set_type key_hash v),
    )

unfoldable pub merge_hset_field : Float → Bool → Data → ValueObject → Result
merge_hset_field f nx opv v =
    let next = grow_to 0 v in
    if ltb 0 v.type
    then (if nx
        then (some not_performed, v)
        else if not (v.type == key_hash_field)
        then (some not_performed, v)
        else if is_zero (Data.compare f (element 0 v) opv false)
        then (some not_performed, next)
        else (none, set_element 0 opv v))
    else (none, set_element 0 opv (set_type key_hash_field v))

unfoldable pub merge_hset : Float → ℕ → ℕ → Data → ValueObject → Result
unfolding merge_hset_meta merge_hset_field
merge_hset f key_type op opv v =
    if key_type == key_meta
    then merge_hset_meta opv v
    else merge_hset_field f (op == Cmd.hsetnx || op == Cmd.hsetnx2) opv v

-- MergeHIncrby
unfoldable pub merge_hincrby : Float → ℕ → Data → ValueObject → Result
merge_hincrby f op d v =
    let next = grow_to 0 v in
    if op == Cmd.hincr && not (is_integer d)
    then (some invalid_integer_args, v)
    else if not (op == Cmd.hincr) && op == Cmd.hincrbyfloat && not (is_number d)
    then (some invalid_integer_args, v)
    else if v.type == 0
    then (none, set_element 0 d (set_type key_hash_field v))
    else if op == Cmd.hincr
    then (if not (is_integer (element 0 v))
        then (some invalid_integer_args, next)
        else (none, set_element 0 (int64 (add64 (get_int64 d) (get_int64 (element 0 v)))) v))
    else (if not (is_number (element 0 v)) then (some invalid_float_args, next) else (
      none,
      set_element 0 (float64 (f.add (get_float64 f d) (get_float64 f (element 0 v)))) v,
    ))

-- The switch of MergeOperation, for an adjusted operation. The handlers of SETRANGE, SETBIT and PFADD
-- are `others`.
unfoldable pub dispatch :
    Float → (ℕ → List Data → ValueObject → Result) → ℕ → ℕ → List Data → ValueObject → Result
dispatch f others key_type op args v =
    if op == Cmd.hset || op == Cmd.hsetnx
    then merge_hset f key_type op (arg 0 args) v
    else if op == Cmd.hincr || op == Cmd.hincrbyfloat
    then merge_hincrby f op (arg 0 args) v
    else if op == Cmd.set || op == Cmd.setxx || op == Cmd.setnx || op == Cmd.psetex
    then merge_set op (arg 0 args) 0 v
    else if op == Cmd.append
    then merge_append f (Data.to_string f (arg 0 args)) v
    else if op == Cmd.incrby
    then merge_incr_by (get_int64 (arg 0 args)) v
    else if op == Cmd.incrbyfloat
    then merge_incr_by_float f (get_float64 f (arg 0 args)) v
    else if op == Cmd.setrange || op == Cmd.setbit || op == Cmd.pfadd
    then others op args v
    else if op == Cmd.pexpireat
    then merge_expire (get_int64 (arg 0 args)) v
    else (some not_supported, v)

-- MergeOperation(key, val, op, args), with the type of the key
unfoldable pub merge_operation :
    Float → (ℕ → List Data → ValueObject → Result) → ℕ → ℕ → List Data → ValueObject → Result
unfolding adjust_merge_op dispatch
merge_operation f others key_type op args v = elim (adjust_merge_op op args) [
  | none ↦ (some not_supported, v)
  | some (op', args') ↦ dispatch f others key_type op' args' v
]
