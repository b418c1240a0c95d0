-- ===== src/PubSub/Subscribed.antt =====
-- The tables of channels and patterns and the contexts' own sets: they name the same subscriptions.
use ardb.Prelude.{
  ℕ, ◌≡◌, refl, Bool, true, false, none, some, List, not, ◌&&◌, ◌==◌, ==_iff, if◌then◌else◌, arith,
}
use ardb.Tree.Set
use ardb.Tree.Table
use ardb.Tree.Laws.{has-insert, holds-join}
use ardb.Context.{
  pubsub_flag, bytes_order, address_order, PubSubContext, Context, get_pubsub, Server, set_context,
}
use ardb.Context.Laws.{same-address, context_at}
use ardb.PubSub.{own_set, set_own, table, set_table, subscribe_channel}

-- Both are patterns, or both channels.
abbrev pub alike : Bool → Bool → Bool
alike true p = p
alike false p = not p

own-set_own :
    (p q : Bool) (l : List (List ℕ)) (x : PubSubContext)
    → own_set p (set_own q l x) ≡ (if alike p q then l else own_set p x)
unfolding own_set set_own
own-set_own true true l x = refl
own-set_own true false l x = refl
own-set_own false true l x = refl
own-set_own false false l x = refl

pub get_pubsub_found : (r : PubSubContext) (x : Context) → x.pubsub ≡ some r → get_pubsub x ≡ r
unfolding get_pubsub
get_pubsub_found r x e = ground arith

pub none_own :
    (q : Bool) (ch : List ℕ) (x : Context)
    → x.pubsub ≡ none
    → Set.has ch (own_set q (get_pubsub x)) ≡ false
unfolding get_pubsub own_set Set.has
none_own true ch x e = ground arith
none_own false ch x e = ground arith

get_pubsub_there : (x : Context) (q : PubSubContext) → get_pubsub (record x { pubsub = some q }) ≡ q
unfolding get_pubsub
get_pubsub_there x q = refl

module _ {S : Type 0} where
  table-set_table :
      (p q : Bool) (t : List (List ℕ × List ℕ)) (s : Server S)
      → table p (set_table q t s) ≡ (if alike p q then t else table p s)
  unfolding table set_table
  table-set_table true true t s = refl
  table-set_table true false t s = refl
  table-set_table false true t s = refl
  table-set_table false false t s = refl

  pub table-set_context :
      (p : Bool) (c : ℕ) (x : Context) (s : Server S) → table p (set_context c x s) ≡ table p s
  unfolding table set_context
  table-set_context true c x s = refl
  table-set_context false c x s = refl

  contexts-set_table :
      (q : Bool) (t : List (List ℕ × List ℕ)) (s : Server S)
      → (set_table q t s).contexts ≡ s.contexts
  unfolding set_table
  contexts-set_table true t s = refl
  contexts-set_table false t s = refl

  -- The table names the client at the channel or pattern.
  abbrev pub listed : Server S → Bool → ℕ → List ℕ → Bool
  listed s p c channel = Table.holds channel c (table p s)

  -- The client's own set has the channel or pattern.
  abbrev pub subscribed : Server S → Bool → ℕ → List ℕ → Bool
  subscribed s p c channel = Set.has channel (own_set p (get_pubsub (s.contexts c)))

  -- The tables name exactly the subscriptions that the clients have.
  abbrev pub IsConsistent : Server S → Type 0
  IsConsistent s =
      (p : Bool) (c : ℕ) (channel : List ℕ) → listed s p c channel ≡ subscribed s p c channel

  -- A change of one client's set of one kind, and of the table of that kind.
  module _ (c : ℕ) (q : Bool) (l : List (List ℕ)) (t : List (List ℕ × List ℕ)) (x : Context)
      (r : PubSubContext) (s : Server S) where
    abbrev pub changed : Server S
    changed = set_context c (record x { pubsub = some (set_own q l r) }) (set_table q t s)

    pub listed_after :
        (p : Bool) (d : ℕ) (channel : List ℕ)
        → listed changed p d channel
          ≡ (if alike p q then Table.holds channel d t else listed s p d channel)
    listed_after p d channel = ground (
      arith,
      table-set_context p c (record x { pubsub = some (set_own q l r) }) (set_table q t s),
      table-set_table p q t s,
    )

    pub subscribed_after :
        (p : Bool) (d : ℕ) (channel : List ℕ)
        → r ≡ get_pubsub (s.contexts c)
        → subscribed changed p d channel
          ≡ (if alike p q && (d == c) then Set.has channel l else subscribed s p d channel)
    subscribed_after p d channel e = ground (
      arith,
      context_at c d (record x { pubsub = some (set_own q l r) }) (set_table q t s),
      contexts-set_table q t s,
      get_pubsub_there x (set_own q l r),
      own-set_own p q l r,
      ==_iff d c,
    )

pub alike-eq : (p q : Bool) → alike p q ≡ true → p ≡ q
alike-eq true true h = refl
alike-eq true false h = cc
alike-eq false true h = cc
alike-eq false false h = refl

module _ {S : Type 0} where
  pub IsConsistent-subscribe_channel :
      (c : ℕ) (channel : List ℕ) (q : Bool) (s : Server S)
      → IsConsistent s
      → IsConsistent (subscribe_channel c channel q s).0
  unfolding subscribe_channel
  IsConsistent-subscribe_channel c channel q s h p d ch =
      let r = get_pubsub (s.contexts c) in
      let l = Set.insert channel (own_set q r) in
      let t = Table.join channel c (table q s) in
      let x : Context = record (s.contexts c) { flags = pubsub_flag true (s.contexts c).flags } in
      ground (
        arith,
        listed_after c q l t x r s p d ch,
        subscribed_after c q l t x r s p d ch refl,
        holds-join ch channel d c (table q s),
        has-insert ch channel (own_set q r),
        h p d ch,
        h q c ch,
        same-address d c,
        ==_iff d c,
        alike-eq p q,
      )
