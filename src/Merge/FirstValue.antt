-- ===== src/Merge/FirstValue.antt =====
-- The first value of a `ValueObject` under assignment and growth, for src/command/merge.cpp.
use ardb.Prelude.{
  ℕ, ◌^◌, ◌<◌, ◌≡◌, refl, inl, inr, true, false, none, List, [], ◌∷◌, arith, leb, Bool-cases,
  length, get_elem?, drop,
}
use ardb.Data.{Data, nil}
use ardb.KeyObject.{put_at, resize}
use ardb.ValueObject.{ValueObject, grow_to, element, set_element}
use ardb.Merge.{add64}

put_grown :
    (d : Data) (xs : List Data)
    → leb (length xs) 0 ≡ true
    → put_at 0 d (resize 1 xs) ≡ d ∷ drop 1 xs
unfolding resize
put_grown d [] h = refl
put_grown d (x ∷ xs) h = ground arith

put_there : (d : Data) (xs : List Data) → leb (length xs) 0 ≡ false → put_at 0 d xs ≡ d ∷ drop 1 xs
put_there d [] h = ground arith
put_there d (x ∷ xs) h = refl

-- What an assignment to the first value leaves.
pub set-vals :
    (d : Data) (v : ValueObject) → set_element 0 d v ≡ record v { vals = d ∷ drop 1 v.vals }
unfolding set_element grow_to
set-vals d v = elim (Bool-cases (leb (length v.vals) 0)) [
  | inl e ↦ rw (e, put_grown d v.vals e) refl
  | inr n ↦ rw (n, put_there d v.vals n) refl
]

pub element-set : (d : Data) (v : ValueObject) → element 0 (set_element 0 d v) ≡ d
unfolding element
element-set d v = rw (set-vals d v) refl

pub add64-add64 : (a l r : ℕ) → add64 (add64 a l) r ≡ add64 a (add64 r l)
add64-add64 a l r = omega arith

add64_less : (a b : ℕ) → add64 a b < 2 ^ 64
add64_less a b = omega arith

pub set-set :
    (d e : Data) (v : ValueObject) → set_element 0 e (set_element 0 d v) ≡ set_element 0 e v
set-set d e v =
    rw (set-vals d v, set-vals e v, set-vals e (record v { vals = d ∷ drop 1 v.vals })) refl

-- Growing for a first value changes neither the type nor what is read, and is done once.
pub record IsGrowth (v g : ValueObject) : Type 0 where
  pub same_type : g.type ≡ v.type
  pub same_element : element 0 g ≡ element 0 v
  pub once : grow_to 0 g ≡ g

first_of_grown : (xs : List Data) → leb (length xs) 0 ≡ true → resize 1 xs ≡ nil ∷ []
unfolding resize
first_of_grown [] h = refl
first_of_grown (x ∷ xs) h = ground arith

none_first : (xs : List Data) → leb (length xs) 0 ≡ true → get_elem? xs 0 ≡ none
none_first [] h = refl
none_first (x ∷ xs) h = ground arith

pub grow-IsGrowth : (v : ValueObject) → IsGrowth v (grow_to 0 v)
unfolding grow_to element
grow-IsGrowth v = elim (Bool-cases (leb (length v.vals) 0)) [
  | inl e ↦
      rw (e, first_of_grown v.vals e)
        (record {
          same_type = refl;
          same_element = rw (element, none_first v.vals e) refl;
          once = refl;
        })
  | inr n ↦ rw n (record { same_type = refl; same_element = refl; once = rw n refl })
]
