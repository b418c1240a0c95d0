-- ===== src/Transaction/Watched.antt =====
-- The table of the watched keys and the contexts' own sets of them: what each operation of
-- src/command/transaction.cpp changes, and how the two agree.
use ardb.Prelude.{
  ℕ, ◌≡◌, refl, Bool, true, false, Option, none, some, List, [], ◌∷◌, not, ◌&&◌, ◌||◌, ◌==◌,
  if◌then◌else◌, ==_iff, arith,
}
use ardb.Tree.{same, is_empty}
use ardb.Tree.Set
use ardb.Tree.Table
use ardb.Tree.Laws.{empty-nil, holds-leave}
use ardb.Context.{
  KeyPrefix, key_prefix_order, bytes_order, address_order, TransactionContext, Context,
  get_transaction, new_transaction, Server, set_context,
}
use ardb.Context.Laws.{same-address, get_transaction_there}
use ardb.Transaction.{leave_all, unwatch_table, delete_if_empty, unwatch_keys, touch, watched_table}

pub holds-leave_all :
    (k : KeyPrefix) (d c : ℕ) (ks : List KeyPrefix) (t : List (KeyPrefix × List ℕ))
    → Table.holds k d (leave_all c ks t) ≡ (not (Set.has k ks && same d c) && Table.holds k d t)
unfolding leave_all Set.has
holds-leave_all k d c [] t = refl
holds-leave_all k d c (i ∷ ks) t =
    ground (arith, holds-leave_all k d c ks (Table.leave i c t), holds-leave k i d c t)

pub holds_in_none : (k : KeyPrefix) (d : ℕ) → Table.holds k d [] ≡ false
unfolding Table.holds Table.members Table.find Set.has
holds_in_none k d = refl

unwatch_table_unless :
    (k : KeyPrefix) (d c : ℕ) (ks : List KeyPrefix) (b : Bool) (t : List (KeyPrefix × List ℕ))
    → (b ≡ true → t ≡ [])
    → Table.holds k d (if b then t else leave_all c ks t)
      ≡ (not (Set.has k ks && same d c) && Table.holds k d t)
unwatch_table_unless k d c ks true t e = rw (e refl, holds_in_none k d) (ground arith)
unwatch_table_unless k d c ks false t e = holds-leave_all k d c ks t

holds-unwatch_table :
    (k : KeyPrefix) (d c : ℕ) (x : Context) (t : List (KeyPrefix × List ℕ))
    → Table.holds k d (unwatch_table c x t)
      ≡ (not (Set.has k (get_transaction x).watched_keys && same d c) && Table.holds k d t)
unfolding unwatch_table get_transaction leave_all
holds-unwatch_table k d c x t = by_transaction x.transc
  where
    by_transaction :
        (o : Option TransactionContext)
        → Table.holds k d (
            if is_empty t
            then t
            else elim o [ none ↦ t | some trans ↦ leave_all c trans.watched_keys t ])
          ≡ (not (
                Set.has k
                  (elim o as (λ y. TransactionContext) [
                    | none ↦ new_transaction
                    | some trans ↦ trans
                  ]).watched_keys
                && same d c)
              && Table.holds k d t)
    by_transaction none = unwatch_table_unless k d c [] (is_empty t) t (empty-nil t)
    by_transaction (some trans) =
        unwatch_table_unless k d c trans.watched_keys (is_empty t) t (empty-nil t)

unwatched_nothing : (c : ℕ) (x : Context) → unwatch_table c x [] ≡ []
unfolding unwatch_table is_empty
unwatched_nothing c x = refl

module _ {S : Type 0} where
  -- The table has the context among those that watch the key.
  abbrev pub watches : Server S → ℕ → KeyPrefix → Bool
  watches s c k = Table.holds k c (watched_table s)

  -- The context's own set has the key.
  abbrev pub remembers : Server S → ℕ → KeyPrefix → Bool
  remembers s c k = Set.has k (get_transaction (s.contexts c)).watched_keys

  -- Every context remembers what the table has it watch.
  abbrev pub Agree : Server S → Type 0
  Agree s = (c : ℕ) (k : KeyPrefix) → watches s c k ≡ true → remembers s c k ≡ true

  watched-delete_if_empty :
      (s : Server S) (t : List (KeyPrefix × List ℕ))
      → watched_table (record s { watched_ctxs = delete_if_empty t }) ≡ t
  unfolding watched_table delete_if_empty is_empty
  watched-delete_if_empty s [] = refl
  watched-delete_if_empty s (e ∷ t) = refl

  watched_table-unwatch_keys :
      (c : ℕ) (s : Server S)
      → watched_table (unwatch_keys c s) ≡ unwatch_table c (s.contexts c) (watched_table s)
  unfolding watched_table unwatch_keys delete_if_empty
  watched_table-unwatch_keys c s = grind (arith, unwatched_nothing c (s.contexts c), empty-nil)

  -- What UNWATCH changes of the table: the keys that the context remembers lose the context.
  pub watches-unwatch_keys :
      (c d : ℕ) (k : KeyPrefix) (s : Server S)
      → watches (unwatch_keys c s) d k ≡ (not (remembers s c k && same d c) && watches s d k)
  watches-unwatch_keys c d k s =
      rw (watched_table-unwatch_keys c s)
        (holds-unwatch_table k d c (s.contexts c) (watched_table s))

  pub contexts-unwatch_keys : (c : ℕ) (s : Server S) → (unwatch_keys c s).contexts ≡ s.contexts
  unfolding unwatch_keys
  contexts-unwatch_keys c s = ground arith

  pub watches-set_context :
      (c d : ℕ) (x : Context) (k : KeyPrefix) (s : Server S)
      → watches (set_context c x s) d k ≡ watches s d k
  unfolding set_context watched_table
  watches-set_context c d x k s = refl

  pub remembers-set_context :
      (c d : ℕ) (x : Context) (k : KeyPrefix) (s : Server S)
      → remembers (set_context c x s) d k
        ≡ (if d == c then Set.has k (get_transaction x).watched_keys else remembers s d k)
  unfolding set_context
  remembers-set_context c d x k s = ground arith

  pub remembers-unwatch_keys :
      (c d : ℕ) (k : KeyPrefix) (s : Server S) → remembers (unwatch_keys c s) d k ≡ remembers s d k
  remembers-unwatch_keys c d k s = rw (contexts-unwatch_keys c s) refl

  -- Where the two agree, UNWATCH takes the context out of the table, and nothing else.
  pub unwatched :
      (c d : ℕ) (k : KeyPrefix) (s : Server S)
      → Agree s
      → watches (unwatch_keys c s) d k ≡ (not (d == c) && watches s d k)
  unwatched c d k s agree =
      ground (arith, watches-unwatch_keys c d k s, same-address d c, agree d k, agree c k)

  pub Agree-unwatch_keys : (c : ℕ) (s : Server S) → Agree s → Agree (unwatch_keys c s)
  Agree-unwatch_keys c s agree d k h =
      ground (arith, unwatched c d k s agree, remembers-unwatch_keys c d k s, agree d k)

  -- A write of a context that keeps its watched keys.
  pub Agree-set_context :
      (c : ℕ) (x : Context) (s : Server S)
      → (get_transaction x).watched_keys ≡ (get_transaction (s.contexts c)).watched_keys
      → Agree s
      → Agree (set_context c x s)
  Agree-set_context c x s same_keys agree d k h =
      ground (
        arith,
        watches-set_context c d x k s,
        remembers-set_context c d x k s,
        agree d k,
        ==_iff d c,
      )

  pub watches-touch :
      (c d : ℕ) (k : KeyPrefix) (s : Server S) → watches (touch d s) c k ≡ watches s c k
  unfolding touch
  watches-touch c d k s = watches-set_context d c _ k s

  -- A mark changes nothing but the flag of the context that it is set on.
  pub transaction-touch :
      (c d : ℕ) (s : Server S)
      → get_transaction ((touch d s).contexts c) ≡ record (get_transaction (s.contexts c)) {
        cas = (c == d) || (get_transaction (s.contexts c)).cas;
      }
  unfolding touch set_context
  transaction-touch c d s = ground (
    arith,
    ==_iff c d,
    get_transaction_there (s.contexts d) (record (get_transaction (s.contexts d)) { cas = true }),
  )
