-- ===== src/PubSub/Parted.antt =====
-- What an unsubscription takes from a client's set and from the table.
use ardb.Prelude.{
  ℕ, ◌≡◌, sym, ◌∙◌, inl, inr, Bool, false, none, some, List, [], ◌∷◌, not, ◌&&◌, ◌==◌, ==_iff,
  arith, Option-cases,
}
use ardb.Tree.{same}
use ardb.Tree.Set
use ardb.Tree.Table
use ardb.Tree.Laws.{has-erase, holds-leave}
use ardb.Context.{bytes_order, address_order, PubSubContext, Server}
use ardb.Context.Laws.{same-address}
use ardb.PubSub.{own_set, table, unsubscribe_channel, unsubscribe_each}
use ardb.PubSub.Subscribed.{
  alike, alike-eq, listed, subscribed, IsConsistent, changed, listed_after, subscribed_after,
  get_pubsub_found, none_own,
}

module _ {S : Type 0} where
  -- What one unsubscription takes from the clients' sets.
  parted_after :
      (c : ℕ) (channel : List ℕ) (q : Bool) (s : Server S) (r : PubSubContext)
      → (s.contexts c).pubsub ≡ some r
      → IsConsistent s
      → (p : Bool) (d : ℕ) (ch : List ℕ)
      → let t =
          changed c q
            (Set.erase channel (own_set q r))
            (Table.leave channel c (table q s))
            (s.contexts c)
            r
            s in
        (listed t p d ch ≡ (not (alike p q && (d == c) && same ch channel) && subscribed s p d ch))
        × (subscribed t p d ch
            ≡ (not (alike p q && (d == c) && same ch channel) && subscribed s p d ch))
  parted_after c channel q s r e h p d ch =
      let l = Set.erase channel (own_set q r) in
      let t = Table.leave channel c (table q s) in
      let own = sym (get_pubsub_found r (s.contexts c) e) in
      (
        ground (
          arith,
          listed_after c q l t (s.contexts c) r s p d ch,
          holds-leave ch channel d c (table q s),
          h p d ch,
          same-address d c,
          alike-eq p q,
        ),
        ground (
          arith,
          subscribed_after c q l t (s.contexts c) r s p d ch own,
          has-erase ch channel (own_set q r),
          h p d ch,
          ==_iff d c,
          alike-eq p q,
          own,
        ),
      )

  -- From `s` to `t`, one client loses its subscriptions of one kind to the channels of a predicate, in
  -- its own set and in the table.
  abbrev pub Parts : ℕ → Bool → (List ℕ → Bool) → Server S → Server S → Type 0
  Parts c q f s t =
      (p : Bool) (d : ℕ) (ch : List ℕ)
      → (listed t p d ch ≡ (not (alike p q && (d == c) && f ch) && subscribed s p d ch))
        × (subscribed t p d ch ≡ (not (alike p q && (d == c) && f ch) && subscribed s p d ch))

  pub Parts-IsConsistent :
      (c : ℕ) (q : Bool) (f : List ℕ → Bool) (s t : Server S) → Parts c q f s t → IsConsistent t
  Parts-IsConsistent c q f s t h p d ch = (h p d ch).0 ∙ sym (h p d ch).1

  unsubscribed :
      (c : ℕ) (q : Bool) (ch : List ℕ) (s : Server S)
      → (s.contexts c).pubsub ≡ none
      → subscribed s q c ch ≡ false
  unsubscribed c q ch s e = none_own q ch (s.contexts c) e

  pub Parts-none :
      (c : ℕ) (q : Bool) (f : List ℕ → Bool) (s : Server S)
      → (s.contexts c).pubsub ≡ none
      → IsConsistent s
      → Parts c q f s s
  Parts-none c q f s e h p d ch = (
    ground (arith, h p d ch, unsubscribed c q ch s e, alike-eq p q, ==_iff d c),
    ground (arith, unsubscribed c q ch s e, alike-eq p q, ==_iff d c),
  )

  unsubscribe_nothing :
      (c : ℕ) (channel : List ℕ) (q notify : Bool) (s : Server S)
      → (s.contexts c).pubsub ≡ none
      → (unsubscribe_channel c channel q notify s).0 ≡ s
  unfolding unsubscribe_channel
  unsubscribe_nothing c channel q notify s e = ground arith

  unsubscribe_after :
      (c : ℕ) (channel : List ℕ) (q notify : Bool) (s : Server S) (r : PubSubContext)
      → (s.contexts c).pubsub ≡ some r
      → (unsubscribe_channel c channel q notify s).0
        ≡ changed c q
            (Set.erase channel (own_set q r))
            (Table.leave channel c (table q s))
            (s.contexts c)
            r
            s
  unfolding unsubscribe_channel
  unsubscribe_after c channel q notify s r e = ground arith

  pub Parts-unsubscribe_channel :
      (c : ℕ) (channel : List ℕ) (q notify : Bool) (s : Server S)
      → IsConsistent s
      → Parts c q (λ ch. same ch channel) s (unsubscribe_channel c channel q notify s).0
  Parts-unsubscribe_channel c channel q notify s h p d ch =
      elim (Option-cases (s.contexts c).pubsub) [
        | inl e ↦
            rw (unsubscribe_nothing c channel q notify s e)
              (Parts-none c q (λ i. same i channel) s e h p d ch)
        | inr (r, e) ↦
            rw (unsubscribe_after c channel q notify s r e)
              (parted_after c channel q s r e h p d ch)
      ]

  pub Parts-unsubscribe_each :
      (c : ℕ) (channels : List (List ℕ)) (q notify : Bool) (s : Server S)
      → IsConsistent s
      → Parts c q (λ ch. Set.has ch channels) s (unsubscribe_each c channels q notify s).0
  unfolding unsubscribe_each Set.has
  Parts-unsubscribe_each c [] q notify s h p d ch = (ground (arith, h p d ch), ground arith)
  Parts-unsubscribe_each c (channel ∷ channels) q notify s h p d ch =
      let one = Parts-unsubscribe_channel c channel q notify s h in
      let s1 = (unsubscribe_channel c channel q notify s).0 in
      let rest =
        Parts-unsubscribe_each c channels q notify s1 (Parts-IsConsistent c q _ s s1 one) p d ch in
      (ground (arith, rest.0, (one p d ch).1), ground (arith, rest.1, (one p d ch).1))
