-- ===== src/PubSub/Freed.antt =====
-- The commands of subscriptions keep the tables consistent with the clients' sets, and taking all of a
-- client's subscriptions leaves none.
use ardb.Prelude.{
  ℕ, ◌+◌, ◌≡◌, refl, inl, inr, Bool, true, false, Option, none, some, List, [], ◌∷◌, ◌==◌, ==_iff,
  arith, Option-cases, Bool-cases, length,
}
use ardb.Tree.Set
use ardb.Context.{
  pubsub_flag, bytes_order, address_order, PubSubContext, Context, get_pubsub, new_pubsub,
  clear_pubsub, subscriptions_count, Server, set_context,
}
use ardb.Context.Laws.{context_at}
use ardb.PubSub.{
  own_set, subscribe_channel, unsubscribe_each, unsubscribe_all, subscribe, clear_if_unsubscribed,
  unsubscribe,
}
use ardb.PubSub.Subscribed.{
  alike-eq, IsConsistent, IsConsistent-subscribe_channel, get_pubsub_found, table-set_context,
}
use ardb.PubSub.Parted.{Parts, Parts-none, Parts-IsConsistent, Parts-unsubscribe_each}

no_members_left : (ch : List ℕ) (l : List (List ℕ)) → length l ≡ 0 → Set.has ch l ≡ false
unfolding Set.has
no_members_left ch [] h = refl
no_members_left ch (x ∷ l) h = absurd (omega arith)

nothing_left :
    (p : Bool) (ch : List ℕ) (x : Context)
    → subscriptions_count x ≡ 0
    → Set.has ch (own_set p (get_pubsub x)) ≡ false
unfolding subscriptions_count get_pubsub own_set
nothing_left p ch x h = by_pubsub p x.pubsub h
  where
    by_pubsub :
        (p : Bool) (o : Option PubSubContext)
        → elim o as (λ y. ℕ) [
          | none ↦ 0
          | some r ↦ length r.pubsub_channels + length r.pubsub_patterns
        ]
          ≡ 0
        → Set.has ch (own_set p (elim o as (λ y. PubSubContext) [ none ↦ new_pubsub | some r ↦ r ]))
          ≡ false
    by_pubsub true none h = no_members_left ch [] refl
    by_pubsub false none h = no_members_left ch [] refl
    by_pubsub true (some r) h = no_members_left ch r.pubsub_patterns (omega arith)
    by_pubsub false (some r) h = no_members_left ch r.pubsub_channels (omega arith)

flag_aside :
    (p : Bool) (ch : List ℕ) (x : Context)
    → Set.has ch
        (own_set p (get_pubsub (record (clear_pubsub x) { flags = pubsub_flag false x.flags })))
      ≡ false
unfolding get_pubsub clear_pubsub own_set Set.has
flag_aside true ch x = refl
flag_aside false ch x = refl

module _ {S : Type 0} where
  cleared :
      (c : ℕ) (s : Server S)
      → (subscriptions_count (s.contexts c) == 0) ≡ true
      → IsConsistent s
      → IsConsistent (
          set_context c
            (record (clear_pubsub (s.contexts c)) {
              flags = pubsub_flag false (s.contexts c).flags;
            })
            s)
  cleared c s e h p d ch =
      let x : Context = record (clear_pubsub (s.contexts c)) {
        flags = pubsub_flag false (s.contexts c).flags;
      } in
      ground (
        arith,
        h p d ch,
        table-set_context p c x s,
        context_at c d x s,
        nothing_left p ch (s.contexts c) ((==_iff _ 0).0 e),
        flag_aside p ch (s.contexts c),
        ==_iff d c,
      )

  pub IsConsistent-clear_if_unsubscribed :
      (c : ℕ) (s : Server S) → IsConsistent s → IsConsistent (clear_if_unsubscribed c s)
  unfolding clear_if_unsubscribed
  IsConsistent-clear_if_unsubscribed c s h =
      elim (Bool-cases (subscriptions_count (s.contexts c) == 0)) [
        | inl e ↦ rw e (cleared c s e h)
        | inr n ↦ rw n h
      ]

  pub IsConsistent-subscribe :
      (c : ℕ) (channels : List (List ℕ)) (q : Bool) (s : Server S)
      → IsConsistent s
      → IsConsistent (subscribe c channels q s).0
  unfolding subscribe
  IsConsistent-subscribe c [] q s h = h
  IsConsistent-subscribe c (channel ∷ channels) q s h =
      IsConsistent-subscribe c channels q (subscribe_channel c channel q s).0
        (IsConsistent-subscribe_channel c channel q s h)

  unsubscribe_all_nothing :
      (c : ℕ) (q notify : Bool) (s : Server S)
      → (s.contexts c).pubsub ≡ none
      → unsubscribe_all c q notify s ≡ (s, [])
  unfolding unsubscribe_all
  unsubscribe_all_nothing c q notify s e = ground arith

  unsubscribe_all_each :
      (c : ℕ) (q notify : Bool) (s : Server S) (r : PubSubContext)
      → (s.contexts c).pubsub ≡ some r
      → (unsubscribe_all c q notify s).0 ≡ (unsubscribe_each c (own_set q r) q notify s).0
  unfolding unsubscribe_all
  unsubscribe_all_each c q notify s r e = ground arith

  -- Unsubscribing from all of a kind takes all of them, and nothing else.
  pub Parts-unsubscribe_all :
      (c : ℕ) (q notify : Bool) (s : Server S)
      → IsConsistent s
      → Parts c q (λ ch. true) s (unsubscribe_all c q notify s).0
  Parts-unsubscribe_all c q notify s h p d ch = elim (Option-cases (s.contexts c).pubsub) [
    | inl e ↦ rw (unsubscribe_all_nothing c q notify s e) (Parts-none c q (λ i. true) s e h p d ch)
    | inr (r, e) ↦
        let all = Parts-unsubscribe_each c (own_set q r) q notify s h p d ch in
        let own = get_pubsub_found r (s.contexts c) e in
        rw (unsubscribe_all_each c q notify s r e) (
          ground (arith, all.0, own, alike-eq p q, ==_iff d c),
          ground (arith, all.1, own, alike-eq p q, ==_iff d c),
        )
  ]

  pub IsConsistent-unsubscribe_all :
      (c : ℕ) (q notify : Bool) (s : Server S)
      → IsConsistent s
      → IsConsistent (unsubscribe_all c q notify s).0
  IsConsistent-unsubscribe_all c q notify s h =
      Parts-IsConsistent c q _ s _ (Parts-unsubscribe_all c q notify s h)

  pub IsConsistent-unsubscribe :
      (c : ℕ) (channels : List (List ℕ)) (q : Bool) (s : Server S)
      → IsConsistent s
      → IsConsistent (unsubscribe c channels q s).0
  unfolding unsubscribe
  IsConsistent-unsubscribe c [] q s h =
      IsConsistent-clear_if_unsubscribed c _ (IsConsistent-unsubscribe_all c q true s h)
  IsConsistent-unsubscribe c (channel ∷ channels) q s h =
      IsConsistent-clear_if_unsubscribed c _
        (Parts-IsConsistent c q _ s _ (Parts-unsubscribe_each c (channel ∷ channels) q true s h))
