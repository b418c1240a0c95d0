-- ===== src/Context/Laws.antt =====
-- The context that stands at an address after a write.
use ardb.Prelude.{some, ℕ, ◌≡◌, refl, false, ◌==◌, if◌then◌else◌, arith}
use ardb.Tree.{same}
use ardb.Context.{
  Context, TransactionContext, get_transaction, in_transaction, Server, set_context, address_order,
}

pub same-address : (c d : ℕ) → same c d ≡ (c == d)
unfolding same address_order
same-address c d = ground arith

pub get_transaction_there :
    (x : Context) (tr : TransactionContext) → get_transaction (record x { transc = some tr }) ≡ tr
unfolding get_transaction
get_transaction_there x tr = refl

pub in_transaction_there :
    (x : Context) (tr : TransactionContext)
    → in_transaction (record x { transc = some tr }) ≡ tr.started
unfolding in_transaction
in_transaction_there x tr = refl

module _ {S : Type 0} where
  pub context_there : (c : ℕ) (x : Context) (s : Server S) → (set_context c x s).contexts c ≡ x
  unfolding set_context
  context_there c x s = ground arith

  pub context_elsewhere :
      (c d : ℕ) (x : Context) (s : Server S)
      → (d == c) ≡ false
      → (set_context c x s).contexts d ≡ s.contexts d
  unfolding set_context
  context_elsewhere c d x s h = ground arith

  pub context_at :
      (c d : ℕ) (x : Context) (s : Server S)
      → (set_context c x s).contexts d ≡ (if d == c then x else s.contexts d)
  unfolding set_context
  context_at c d x s = refl

  pub store-set_context : (c : ℕ) (x : Context) (s : Server S) → (set_context c x s).store ≡ s.store
  unfolding set_context
  store-set_context c x s = refl
