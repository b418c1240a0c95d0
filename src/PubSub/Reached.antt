-- ===== src/PubSub/Reached.antt =====
-- The states that subscriptions reach from a server that has just started.
use ardb.Prelude.{ℕ, ◌≡◌, refl, Bool, true, false, none, List, [], arith}
use ardb.Tree.Set
use ardb.Tree.Table
use ardb.Context.{bytes_order, address_order, Server}
use ardb.PubSub.{table, subscribe, unsubscribe, unsubscribe_all}
use ardb.PubSub.Subscribed.{listed, subscribed, IsConsistent, none_own}
use ardb.PubSub.Freed.{
  IsConsistent-subscribe, IsConsistent-unsubscribe, IsConsistent-unsubscribe_all,
}

-- SUBSCRIBE, PSUBSCRIBE, UNSUBSCRIBE and PUNSUBSCRIBE of some client, and what `FreeClient` does.
pub data Step {S : Type 0} : Server S → Server S → Type 0 where
  subscribe_step :
      (c : ℕ) (channels : List (List ℕ)) (q : Bool) (s : Server S)
      → Step s (subscribe c channels q s).0
  unsubscribe_step :
      (c : ℕ) (channels : List (List ℕ)) (q : Bool) (s : Server S)
      → Step s (unsubscribe c channels q s).0
  unsubscribe_all_step :
      (c : ℕ) (q notify : Bool) (s : Server S) → Step s (unsubscribe_all c q notify s).0

pub data Reach {S : Type 0} (s : Server S) : Server S → Type 0 where
  here : Reach s s
  next : {t u : Server S} → Reach s t → Step t u → Reach s u

Step-IsConsistent : {S : Type 0} {s t : Server S} → Step s t → IsConsistent s → IsConsistent t
Step-IsConsistent (subscribe_step c channels q s) h = IsConsistent-subscribe c channels q s h
Step-IsConsistent (unsubscribe_step c channels q s) h = IsConsistent-unsubscribe c channels q s h
Step-IsConsistent (unsubscribe_all_step c q notify s) h =
    IsConsistent-unsubscribe_all c q notify s h

-- No client is subscribed, and the tables are empty.
pub record IsFresh {S : Type 0} (s : Server S) : Type 0 where
  pub no_channels : s.channels ≡ []
  pub no_patterns : s.patterns ≡ []
  pub no_pubsub : (c : ℕ) → (s.contexts c).pubsub ≡ none

nobody_listed :
    {S : Type 0} (s : Server S) (p : Bool) (c : ℕ) (ch : List ℕ)
    → IsFresh s
    → listed s p c ch ≡ false
unfolding table Table.holds Table.members Table.find Set.has
nobody_listed s true c ch h = rw (h.no_patterns) refl
nobody_listed s false c ch h = rw (h.no_channels) refl

Reach-IsConsistent : {S : Type 0} {s t : Server S} → IsConsistent s → Reach s t → IsConsistent t
Reach-IsConsistent h here = h
Reach-IsConsistent h (next r st) = Step-IsConsistent st (Reach-IsConsistent h r)

-- From a server on which nobody is subscribed, after any sequence of subscriptions and
-- unsubscriptions of any clients, to channels or to patterns, single or of all, the tables of
-- channels and of patterns name a client at exactly the entries that the client's own set has.
pub listed-subscribed :
    {S : Type 0} {s t : Server S}
    → IsFresh s
    → Reach s t
    → (p : Bool) (c : ℕ) (ch : List ℕ) → listed t p c ch ≡ subscribed t p c ch
listed-subscribed {s} e r = Reach-IsConsistent start r
  where
    start : IsConsistent s
    start p c ch =
        ground (arith, nobody_listed s p c ch e, none_own p ch (s.contexts c) (e.no_pubsub c))
