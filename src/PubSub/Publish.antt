-- ===== src/PubSub/Publish.antt =====
-- Whom PUBLISH reaches, and the count that it replies with.
use ardb.Prelude.{
  ℕ, ◌≡◌, refl, Bool, true, false, List, [], ◌∷◌, ◌++◌, ◌&&◌, ◌||◌, if◌then◌else◌, arith, length,
  length-append,
}
use ardb.Tree.{same}
use ardb.Tree.Set
use ardb.Tree.Table
use ardb.Tree.Laws.{same-eq}
use ardb.Context.{
  bytes_order, address_order, Server, RedisReply, word, bulk, word_message, word_pmessage,
}
use ardb.PubSub.{members_of, write_reply, send_each, send_patterns, publish_message}

-- A message went to the client.
unfoldable pub reaches : ℕ → List (ℕ × RedisReply) → Bool
reaches d [] = false
reaches d ((c, r) ∷ sent) = same d c || reaches d sent

reaches-append :
    (d : ℕ) (xs ys : List (ℕ × RedisReply)) → reaches d (xs ++ ys) ≡ (reaches d xs || reaches d ys)
unfolding reaches
reaches-append d [] ys = refl
reaches-append d ((c, r) ∷ xs) ys = ground (arith, reaches-append d xs ys)

-- The client is subscribed to some pattern that matches the channel.
unfoldable pub pattern_reaches :
    (List ℕ → List ℕ → Bool) → List ℕ → ℕ → List (List ℕ × List ℕ) → Bool
pattern_reaches matches channel d [] = false
pattern_reaches matches channel d ((pattern, cs) ∷ t) =
    (matches pattern channel && Set.has d cs) || pattern_reaches matches channel d t

-- The client of every context has a channel.
pub record IsConnected {S : Type 0} (s : Server S) : Type 0 where
  pub channel : (c : ℕ) → (s.contexts c).has_client ≡ true → (s.contexts c).has_channel ≡ true

module _ {S : Type 0} where
  reaches-send_each :
      (d : ℕ) (r : RedisReply) (cs : List ℕ) (s : Server S)
      → reaches d (send_each r cs s).0
        ≡ ((s.contexts d).has_client && (s.contexts d).has_channel && Set.has d cs)
  unfolding send_each reaches Set.has write_reply
  reaches-send_each d r [] s = ground arith
  reaches-send_each d r (c ∷ cs) s = ground (arith, reaches-send_each d r cs s, same-eq d c)

  length-send_each :
      (r : RedisReply) (cs : List ℕ) (s : Server S)
      → IsConnected s
      → (send_each r cs s).1 ≡ length (send_each r cs s).0
  unfolding send_each write_reply
  length-send_each r [] s h = refl
  length-send_each r (c ∷ cs) s h = ground (arith, length-send_each r cs s h, h.channel c)

  module _ (matches : List ℕ → List ℕ → Bool) where
    reaches-send_patterns :
        (d : ℕ) (channel message : List ℕ) (t : List (List ℕ × List ℕ)) (s : Server S)
        → reaches d (send_patterns matches channel message t s).0 ≡ (
            (s.contexts d).has_client
            && (s.contexts d).has_channel
            && pattern_reaches matches channel d t)
    unfolding send_patterns pattern_reaches reaches
    reaches-send_patterns d channel message [] s = ground arith
    reaches-send_patterns d channel message ((pattern, cs) ∷ t) s =
        let r = members_of (word word_pmessage ∷ bulk pattern ∷ bulk channel ∷ bulk message ∷ []) in
        let sent : List (ℕ × RedisReply) × ℕ =
          if matches pattern channel then send_each r cs s else ([], 0) in
        ground (
          arith,
          reaches-append d sent.0 (send_patterns matches channel message t s).0,
          reaches-send_each d r cs s,
          reaches-send_patterns d channel message t s,
        )

    length-send_patterns :
        (channel message : List ℕ) (t : List (List ℕ × List ℕ)) (s : Server S)
        → IsConnected s
        → (send_patterns matches channel message t s).1
          ≡ length (send_patterns matches channel message t s).0
    unfolding send_patterns
    length-send_patterns channel message [] s h = refl
    length-send_patterns channel message ((pattern, cs) ∷ t) s h =
        let r = members_of (word word_pmessage ∷ bulk pattern ∷ bulk channel ∷ bulk message ∷ []) in
        let sent : List (ℕ × RedisReply) × ℕ =
          if matches pattern channel then send_each r cs s else ([], 0) in
        ground (
          arith,
          length-append sent.0 (send_patterns matches channel message t s).0,
          length-send_each r cs s h,
          length-send_patterns channel message t s h,
        )

    -- PUBLISH sends a message to exactly the contexts that have a client with a channel and are
    -- listed at the channel or at a pattern that matches it.
    pub reaches-publish_message :
        (d : ℕ) (channel message : List ℕ) (s : Server S)
        → reaches d (publish_message matches channel message s).0 ≡ (
            (s.contexts d).has_client
            && (s.contexts d).has_channel
            && (Table.holds channel d s.channels || pattern_reaches matches channel d s.patterns))
    unfolding publish_message Table.holds
    reaches-publish_message d channel message s =
        let r = members_of (word word_message ∷ bulk channel ∷ bulk message ∷ []) in
        let to = Table.members channel s.channels in
        ground (
          arith,
          reaches-append d (send_each r to s).0
              (send_patterns matches channel message s.patterns s).0,
          reaches-send_each d r to s,
          reaches-send_patterns d channel message s.patterns s,
        )

    -- Where the client of every context has a channel, the count that PUBLISH replies with is the
    -- number of messages that it sends.
    pub length-publish_message :
        (channel message : List ℕ) (s : Server S)
        → IsConnected s
        → (publish_message matches channel message s).1
          ≡ length (publish_message matches channel message s).0
    unfolding publish_message
    length-publish_message channel message s h =
        let r = members_of (word word_message ∷ bulk channel ∷ bulk message ∷ []) in
        let to = Table.members channel s.channels in
        ground (
          arith,
          length-append (send_each r to s).0 (send_patterns matches channel message s.patterns s).0,
          length-send_each r to s h,
          length-send_patterns channel message s.patterns s h,
        )
