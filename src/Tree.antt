-- ===== src/Tree.antt =====
-- The ordered sets and maps of the server's tables: `TreeSet` and `TreeMap` of
-- src/common/common.hpp, whose keys are compared by `operator<` only. A set is the list of its
-- elements in their order, a map the list of its entries.
use ardb.Prelude.{◌≡◌, Bool, true, false, List, [], ◌∷◌, not, ◌&&◌}
pub mod Set
pub mod Table
pub mod Laws

-- The `operator<` of a key type. Two keys are the same where neither is less.
pub record Order {ℓ} (K : Type ℓ) : Type ℓ where
  pub less : K → K → Bool
  pub irreflexive : (x : K) → less x x ≡ false
  pub connected : (x y : K) → less x y ≡ false → less y x ≡ false → x ≡ y

abbrev pub less {ℓ} : {K : Type ℓ} ⦃order : Order K⦄ → K → K → Bool
less ⦃order⦄ = order.less

unfoldable pub same {ℓ} : {K : Type ℓ} ⦃order : Order K⦄ → K → K → Bool
same x y = not (less x y) && not (less y x)

unfoldable pub is_empty {ℓ} : {A : Type ℓ} → List A → Bool
is_empty [] = true
is_empty (x ∷ xs) = false
