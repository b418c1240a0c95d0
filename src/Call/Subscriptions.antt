-- ===== src/Call/Subscriptions.antt =====
-- The subscriptions of other clients leave a client's transaction as `Isolated` says.
use ardb.Prelude.{ℕ, ◌≡◌, refl, Bool, true, false, List, [], ◌∷◌, ◌==◌, either_way, either_option}
use ardb.Context.{
  bytes_order, address_order, Context, subscriptions_count, Server, set_context, RedisReply,
}
use ardb.PubSub.{
  own_set, set_table, subscribe_channel, unsubscribe_channel, unsubscribe_each, unsubscribe_all,
  subscribe, clear_if_unsubscribed, unsubscribe,
}
use ardb.Call.Isolated.{
  Isolated, Isolated-refl, Isolated-trans, Isolated-apart, Isolated-set_context,
}

module _ {S : Type 0} where
  Isolated-set_table :
      (c : ℕ) (p : Bool) (t : List (List ℕ × List ℕ)) (s : Server S)
      → Isolated c s (set_table p t s)
  unfolding set_table
  Isolated-set_table c true t s = Isolated-apart c s _ refl refl
  Isolated-set_table c false t s = Isolated-apart c s _ refl refl

  module _ (c d : ℕ) (other : (c == d) ≡ false) where
    -- A write of a table of subscriptions and of the other client's context.
    Isolated-subscription :
        (p : Bool) (t : List (List ℕ × List ℕ)) (x : Context) (s : Server S)
        → Isolated c s (set_context d x (set_table p t s))
    Isolated-subscription p t x s =
        Isolated-trans c s (set_table p t s) _ (Isolated-set_table c p t s)
          (Isolated-set_context c d x (set_table p t s) other)

    Isolated-subscribe_channel :
        (channel : List ℕ) (p : Bool) (s : Server S)
        → Isolated c s (subscribe_channel d channel p s).0
    unfolding subscribe_channel
    Isolated-subscribe_channel channel p s = Isolated-subscription p _ _ s

    Isolated-unsubscribe_channel :
        (channel : List ℕ) (p notify : Bool) (s : Server S)
        → Isolated c s (unsubscribe_channel d channel p notify s).0
    unfolding unsubscribe_channel
    Isolated-unsubscribe_channel channel p notify s =
        either_option (λ (r : Server S × List (ℕ × RedisReply) × ℕ). Isolated c s r.0)
          (s.contexts d).pubsub (s, [], 0) _ (Isolated-refl c s)
          (λ q. Isolated-subscription p _ _ s)

    Isolated-unsubscribe_each :
        (channels : List (List ℕ)) (p notify : Bool) (s : Server S)
        → Isolated c s (unsubscribe_each d channels p notify s).0
    unfolding unsubscribe_each
    Isolated-unsubscribe_each [] p notify s = Isolated-refl c s
    Isolated-unsubscribe_each (channel ∷ channels) p notify s =
        Isolated-trans c s (unsubscribe_channel d channel p notify s).0 _
          (Isolated-unsubscribe_channel channel p notify s)
          (Isolated-unsubscribe_each channels p notify (unsubscribe_channel d channel p notify s).0)

    pub Isolated-unsubscribe_all :
        (p notify : Bool) (s : Server S) → Isolated c s (unsubscribe_all d p notify s).0
    unfolding unsubscribe_all
    Isolated-unsubscribe_all p notify s =
        either_option (λ (r : Server S × List (ℕ × RedisReply)). Isolated c s r.0)
          (s.contexts d).pubsub (s, []) _ (Isolated-refl c s)
          (λ q. Isolated-unsubscribe_each (own_set p q) p notify s)

    pub Isolated-subscribe :
        (channels : List (List ℕ)) (p : Bool) (s : Server S)
        → Isolated c s (subscribe d channels p s).0
    unfolding subscribe
    Isolated-subscribe [] p s = Isolated-refl c s
    Isolated-subscribe (channel ∷ channels) p s =
        Isolated-trans c s (subscribe_channel d channel p s).0 _
          (Isolated-subscribe_channel channel p s)
          (Isolated-subscribe channels p (subscribe_channel d channel p s).0)

    Isolated-clear_if_unsubscribed : (s : Server S) → Isolated c s (clear_if_unsubscribed d s)
    unfolding clear_if_unsubscribed
    Isolated-clear_if_unsubscribed s =
        either_way (Isolated c s) (subscriptions_count (s.contexts d) == 0) _ s
          (Isolated-set_context c d _ s other) (Isolated-refl c s)

    pub Isolated-unsubscribe :
        (channels : List (List ℕ)) (p : Bool) (s : Server S)
        → Isolated c s (unsubscribe d channels p s).0
    unfolding unsubscribe
    Isolated-unsubscribe [] p s =
        Isolated-trans c s (unsubscribe_all d p true s).0 _ (Isolated-unsubscribe_all p true s)
          (Isolated-clear_if_unsubscribed (unsubscribe_all d p true s).0)
    Isolated-unsubscribe (channel ∷ channels) p s =
        Isolated-trans c s (unsubscribe_each d (channel ∷ channels) p true s).0 _
          (Isolated-unsubscribe_each (channel ∷ channels) p true s)
          (Isolated-clear_if_unsubscribed (unsubscribe_each d (channel ∷ channels) p true s).0)
