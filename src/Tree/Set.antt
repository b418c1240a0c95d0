-- ===== src/Tree/Set.antt =====
-- `TreeSet`: the operations of an ordered set.
use ardb.Prelude.{Bool, false, List, [], ◌∷◌, ◌||◌, if◌then◌else◌}
use ardb.Tree.{Order, less, same}

module _ {ℓ} {K : Type ℓ} ⦃order : Order K⦄ where
  unfoldable pub has : K → List K → Bool
  has x [] = false
  has x (y ∷ ys) = same x y || has x ys

  unfoldable pub insert : K → List K → List K
  insert x [] = x ∷ []
  insert x (y ∷ ys) =
      let further = y ∷ insert x ys in
      if less x y then x ∷ y ∷ ys else if less y x then further else y ∷ ys

  unfoldable pub erase : K → List K → List K
  erase x [] = []
  erase x (y ∷ ys) = let rest = erase x ys in if same x y then rest else y ∷ rest
