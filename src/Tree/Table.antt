-- ===== src/Tree/Table.antt =====
-- `TreeMap` with sets as values: a map from keys to sets of clients, as the tables of watched keys,
-- channels and patterns are.
use ardb.Prelude.{Bool, Option, none, some, List, [], ◌∷◌, if◌then◌else◌}
use ardb.Tree.{Order, less, same, is_empty}
use ardb.Tree.Set

module _ {ℓ κ} {K : Type ℓ} {C : Type κ} ⦃keys : Order K⦄ ⦃clients : Order C⦄ where
  unfoldable pub find : K → List (K × List C) → Option (List C)
  find k [] = none
  find k ((k', cs) ∷ t) = if same k k' then some cs else find k t

  -- `table[k] = cs`
  unfoldable pub put : K → List C → List (K × List C) → List (K × List C)
  put k cs [] = (k, cs) ∷ []
  put k cs ((k', ds) ∷ t) =
      let further = (k', ds) ∷ put k cs t in
      if less k k' then (k, cs) ∷ (k', ds) ∷ t else if less k' k then further else (k', cs) ∷ t

  unfoldable pub remove : K → List (K × List C) → List (K × List C)
  remove k [] = []
  remove k ((k', cs) ∷ t) = let rest = remove k t in if same k k' then rest else (k', cs) ∷ rest

  -- The set at a key, empty for a missing key.
  unfoldable pub members : K → List (K × List C) → List C
  members k t = elim (find k t) [ none ↦ [] | some cs ↦ cs ]

  -- `table[k].insert(c)`
  unfoldable pub join : K → C → List (K × List C) → List (K × List C)
  join k c t = put k (Set.insert c (members k t)) t

  -- The set at `k` loses `c`, and the entry goes with its last element.
  unfoldable pub leave : K → C → List (K × List C) → List (K × List C)
  leave k c t = elim (find k t) [
    | none ↦ t
    | some cs ↦ let rest = Set.erase c cs in if is_empty rest then remove k t else put k rest t
  ]

  unfoldable pub holds : K → C → List (K × List C) → Bool
  holds k c t = Set.has c (members k t)
