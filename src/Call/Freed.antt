-- ===== src/Call/Freed.antt =====
-- A client that `FreeClient` has let go is in no table of the server.
use ardb.Prelude.{
  ℕ, ◌≡◌, refl, ◌∙◌, Bool, true, false, List, [], ◌∷◌, not, ◌&&◌, ◌==◌, arith, either_option,
}
use ardb.Context.{set_context, KeyPrefix, Server, RedisReply}
use ardb.Transaction.{unwatch_keys, watched_table}
use ardb.Transaction.Watched.{watches, Agree, unwatched, contexts-unwatch_keys}
use ardb.PubSub.{own_set, table, unsubscribe_channel, unsubscribe_each, unsubscribe_all, set_table}
use ardb.PubSub.Subscribed.{listed, IsConsistent, alike}
use ardb.PubSub.Freed.{Parts-unsubscribe_all, IsConsistent-unsubscribe_all}
use ardb.Call.{free_client}

gone : (c : ℕ) (w : Bool) → (not (c == c) && w) ≡ false
gone c w = ground arith

-- Of either kind, one of the two rounds takes all.
both :
    (p : Bool) (c : ℕ) (a : Bool) {b d : Bool}
    → b ≡ (not (alike p true && (c == c) && true) && a)
    → d ≡ (not (alike p false && (c == c) && true) && b)
    → d ≡ false
both true c a h k = ground arith
both false c a h k = ground arith

module _ {S : Type 0} where
  -- The table of watched keys is none of the subscriptions' business.
  watched-set_table :
      (q : Bool) (t : List (List ℕ × List ℕ)) (s : Server S)
      → (set_table q t s).watched_ctxs ≡ s.watched_ctxs
  unfolding set_table
  watched-set_table true t s = refl
  watched-set_table false t s = refl

  watched-unsubscribe_channel :
      (c : ℕ) (channel : List ℕ) (q notify : Bool) (s : Server S)
      → (unsubscribe_channel c channel q notify s).0.watched_ctxs ≡ s.watched_ctxs
  unfolding unsubscribe_channel set_context
  watched-unsubscribe_channel c channel q notify s =
      either_option
        (λ (r : Server S × List (ℕ × RedisReply) × ℕ). r.0.watched_ctxs ≡ s.watched_ctxs)
        (s.contexts c).pubsub (s, [], 0) _ refl (λ r. watched-set_table q _ s)

  watched-unsubscribe_each :
      (c : ℕ) (channels : List (List ℕ)) (q notify : Bool) (s : Server S)
      → (unsubscribe_each c channels q notify s).0.watched_ctxs ≡ s.watched_ctxs
  unfolding unsubscribe_each
  watched-unsubscribe_each c [] q notify s = refl
  watched-unsubscribe_each c (channel ∷ channels) q notify s =
      watched-unsubscribe_each c channels q notify (unsubscribe_channel c channel q notify s).0
      ∙ watched-unsubscribe_channel c channel q notify s

  watched-unsubscribe_all :
      (c : ℕ) (q notify : Bool) (s : Server S)
      → (unsubscribe_all c q notify s).0.watched_ctxs ≡ s.watched_ctxs
  unfolding unsubscribe_all
  watched-unsubscribe_all c q notify s =
      either_option (λ (r : Server S × List (ℕ × RedisReply)). r.0.watched_ctxs ≡ s.watched_ctxs)
        (s.contexts c).pubsub (s, []) _ refl
        (λ r. watched-unsubscribe_each c (own_set q r) q notify s)

  table-unwatch_keys : (p : Bool) (c : ℕ) (s : Server S) → table p (unwatch_keys c s) ≡ table p s
  unfolding table unwatch_keys
  table-unwatch_keys true c s = ground arith
  table-unwatch_keys false c s = ground arith

  IsConsistent-unwatch_keys :
      (c : ℕ) (s : Server S) → IsConsistent s → IsConsistent (unwatch_keys c s)
  IsConsistent-unwatch_keys c s h p d ch =
      rw (table-unwatch_keys p c s, contexts-unwatch_keys c s) (h p d ch)

  watches_by :
      (s t : Server S) (c : ℕ) (k : KeyPrefix)
      → t.watched_ctxs ≡ s.watched_ctxs
      → watches t c k ≡ watches s c k
  unfolding watched_table
  watches_by s t c k e = rw e refl

  -- Where the clients' own sets have what the table of watched keys says, and the tables of
  -- subscriptions agree with them, `FreeClient` leaves the client's address at no watched key, no
  -- channel and no pattern.
  pub free_client_lem :
      (c : ℕ) (s : Server S)
      → Agree s
      → IsConsistent s
      → ((k : KeyPrefix) → watches (free_client c s) c k ≡ false)
        × ((p : Bool) (ch : List ℕ) → listed (free_client c s) p c ch ≡ false)
  unfolding free_client
  free_client_lem c s agree h =
      let s0 = unwatch_keys c s in
      let s1 = (unsubscribe_all c true false s0).0 in
      let h0 = IsConsistent-unwatch_keys c s h in
      let h1 = IsConsistent-unsubscribe_all c true false s0 h0 in
      let first = Parts-unsubscribe_all c true false s0 h0 in
      let then_ = Parts-unsubscribe_all c false false s1 h1 in
      (
        λ k.
            watches_by s0 (unsubscribe_all c false false s1).0 c k
              (watched-unsubscribe_all c false false s1 ∙ watched-unsubscribe_all c true false s0)
            ∙ unwatched c c k s agree
            ∙ gone c (watches s c k),
        λ p ch. both p c _ (first p c ch).1 (then_ p c ch).0,
      )
