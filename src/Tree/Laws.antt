-- ===== src/Tree/Laws.antt =====
-- Membership after each operation of an ordered set or map.
use ardb.Prelude.{
  ◌≡◌, refl, inl, inr, true, false, none, some, List, [], ◌∷◌, not, ◌&&◌, ◌||◌, if◌then◌else◌,
  Option-cases, arith,
}
use ardb.Tree.{Order, less, same, is_empty}
use ardb.Tree.Set.{has, insert, erase}
use ardb.Tree.Table.{find, put, remove, members, join, leave, holds}

pub empty-nil {ℓ} : {A : Type ℓ} (ys : List A) → is_empty ys ≡ true → ys ≡ []
unfolding is_empty
empty-nil [] h = refl
empty-nil (y ∷ ys) h = cc

module _ {ℓ} {K : Type ℓ} ⦃order : Order K⦄ where
  pub same_refl : (x : K) → same x x ≡ true
  unfolding same
  same_refl x = rw (order.irreflexive x) refl

  pub same-eq : (x y : K) → same x y ≡ true → x ≡ y
  unfolding same
  same-eq x y h = ground (arith, order.connected x y)

  less-not_same : (x y : K) → less x y ≡ true → same x y ≡ false
  unfolding same
  less-not_same x y h = rw h refl

  greater-not_same : (x y : K) → less y x ≡ true → same x y ≡ false
  unfolding same
  greater-not_same x y h = ground arith

  neither-same : (x y : K) → less x y ≡ false → less y x ≡ false → x ≡ y
  neither-same x y h k = order.connected x y h k

  pub has-insert : (x y : K) (ys : List K) → has x (insert y ys) ≡ (same x y || has x ys)
  unfolding has insert
  has-insert x y [] = refl
  has-insert x y (z ∷ zs) = ground (arith, has-insert x y zs, neither-same y z)

  pub has-erase : (x y : K) (ys : List K) → has x (erase y ys) ≡ (not (same x y) && has x ys)
  unfolding has erase
  has-erase x y [] = ground arith
  has-erase x y (z ∷ zs) =
      ground (arith, has-erase x y zs, same-eq y z, same-eq x y, same-eq x z, same_refl x)

  pub not_empty-has : (x : K) (ys : List K) → is_empty ys ≡ true → has x ys ≡ false
  unfolding has is_empty
  not_empty-has x [] h = refl
  not_empty-has x (y ∷ ys) h = cc

module _ {ℓ κ} {K : Type ℓ} {C : Type κ} ⦃keys : Order K⦄ ⦃clients : Order C⦄ where
  find-put :
      (k k' : K) (cs : List C) (t : List (K × List C))
      → find k (put k' cs t) ≡ (if same k k' then some cs else find k t)
  unfolding find put
  find-put k k' cs [] = refl
  find-put k k' cs ((i, ds) ∷ t) = ground (
    arith,
    find-put k k' cs t,
    neither-same k' i,
    same_refl k,
    less-not_same k' i,
    same-eq k i,
    same-eq k k',
  )

  find-remove :
      (k k' : K) (t : List (K × List C))
      → find k (remove k' t) ≡ (if same k k' then none else find k t)
  unfolding find remove
  find-remove k k' [] = ground arith
  find-remove k k' ((i, ds) ∷ t) =
      ground (arith, find-remove k k' t, same-eq k i, same-eq k k', same-eq k' i, same_refl k)

  members_found :
      (k : K) (cs : List C) (t : List (K × List C)) → find k t ≡ some cs → members k t ≡ cs
  unfolding members
  members_found k cs t e = ground arith

  members-put :
      (k k' : K) (cs : List C) (t : List (K × List C))
      → members k (put k' cs t) ≡ (if same k k' then cs else members k t)
  unfolding members
  members-put k k' cs t = ground (arith, find-put k k' cs t)

  members-remove :
      (k k' : K) (t : List (K × List C))
      → members k (remove k' t) ≡ (if same k k' then [] else members k t)
  unfolding members
  members-remove k k' t = ground (arith, find-remove k k' t)

  -- What joining changes: one pair is added.
  pub holds-join :
      (k k' : K) (c c' : C) (t : List (K × List C))
      → holds k c (join k' c' t) ≡ ((same k k' && same c c') || holds k c t)
  unfolding holds join
  holds-join k k' c c' t = ground (
    arith,
    members-put k k' (insert c' (members k' t)) t,
    has-insert c c' (members k' t),
    same-eq k k',
  )

  members_nowhere :
      (k k' : K) (c : C) (t : List (K × List C))
      → find k' t ≡ none
      → members k t ≡ (if same k k' then erase c (members k t) else members k t)
  unfolding members erase
  members_nowhere k k' c t e = ground (arith, same-eq k k')

  leave_nowhere : (k : K) (c : C) (t : List (K × List C)) → find k t ≡ none → leave k c t ≡ t
  unfolding leave
  leave_nowhere k c t e = ground arith

  leave_found :
      (k : K) (c : C) (cs : List C) (t : List (K × List C))
      → find k t ≡ some cs
      → leave k c t ≡ (if is_empty (erase c cs) then remove k t else put k (erase c cs) t)
  unfolding leave
  leave_found k c cs t e = ground arith

  members-leave :
      (k k' : K) (c : C) (t : List (K × List C))
      → members k (leave k' c t) ≡ (if same k k' then erase c (members k t) else members k t)
  members-leave k k' c t = elim (Option-cases (find k' t)) [
    | inl e ↦ rw (leave_nowhere k' c t e) (members_nowhere k k' c t e)
    | inr (cs, e) ↦ rw (leave_found k' c cs t e) (
        ground (
          arith,
          same-eq k k',
          members-remove k k' t,
          members-put k k' (erase c cs) t,
          members_found k' cs t e,
          empty-nil (erase c cs),
        ))
  ]

  -- What leaving changes: one pair is taken away.
  pub holds-leave :
      (k k' : K) (c c' : C) (t : List (K × List C))
      → holds k c (leave k' c' t) ≡ (not (same k k' && same c c') && holds k c t)
  unfolding holds
  holds-leave k k' c c' t =
      ground (arith, members-leave k k' c' t, has-erase c c' (members k t), same-eq k k')
