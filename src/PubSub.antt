-- ===== src/PubSub.antt =====
-- Publish and subscribe: src/command/pubsub.cpp. An operation gives the server and the messages that it
-- sends, each with the address of its receiver. `m_pubsub_lock` makes each table operation one step.
use ardb.Prelude.{
  ℕ, ◌+◌, ◌==◌, Bool, true, false, Option, none, some, List, [], ◌∷◌, ◌++◌, ◌&&◌, if◌then◌else◌,
  length,
}
use ardb.Tree.Set
use ardb.Tree.Table
use ardb.Context.{
  pubsub_flag, bytes_order, address_order, PubSubContext, Context, get_pubsub, clear_pubsub,
  subscriptions_count, Server, set_context, RedisReply, RedisReplies, Word, empty_reply, integer,
  word, bulk, members, no_more, reply_then, word_subscribe, word_psubscribe, word_unsubscribe,
  word_punsubscribe, word_message, word_pmessage,
}
pub mod Subscribed
pub mod Parted
pub mod Freed
pub mod Publish
pub mod Reached

-- A message of two, three or four members.
unfoldable pub members_of : List RedisReply → RedisReply
members_of rs = members (list_members rs)
  where
    list_members : List RedisReply → RedisReplies
    list_members [] = no_more
    list_members (r ∷ rs) = reply_then r (list_members rs)

-- The context's own set of patterns or of channels.
unfoldable pub own_set : Bool → PubSubContext → List (List ℕ)
own_set true p = p.pubsub_patterns
own_set false p = p.pubsub_channels

unfoldable pub set_own : Bool → List (List ℕ) → PubSubContext → PubSubContext
set_own true l p = record p { pubsub_patterns = l }
set_own false l p = record p { pubsub_channels = l }

-- The server's table of patterns or of channels.
unfoldable pub table : {S : Type 0} → Bool → Server S → List (List ℕ × List ℕ)
table true s = s.patterns
table false s = s.channels

unfoldable pub set_table : {S : Type 0} → Bool → List (List ℕ × List ℕ) → Server S → Server S
set_table true t s = record s { patterns = t }
set_table false t s = record s { channels = t }

-- `WriteReply`: nothing is written for a context with no client, or whose client has no channel.
unfoldable pub write_reply : {S : Type 0} → ℕ → RedisReply → Server S → List (ℕ × RedisReply)
write_reply c r s =
    if (s.contexts c).has_client && (s.contexts c).has_channel then (c, r) ∷ [] else []

unfoldable pub subscribe_channel :
    {S : Type 0} → ℕ → List ℕ → Bool → Server S → Server S × List (ℕ × RedisReply)
subscribe_channel c channel is_pattern s =
    let p = get_pubsub (s.contexts c) in
    let joined = set_own is_pattern (Set.insert channel (own_set is_pattern p)) p in
    let x : Context = record (s.contexts c) {
      pubsub = some joined;
      flags = pubsub_flag true (s.contexts c).flags;
    } in
    let s1 = set_context c x (set_table is_pattern (Table.join channel c (table is_pattern s)) s) in
    let r = members_of (
      word (if is_pattern then word_psubscribe else word_subscribe)
      ∷ bulk channel
      ∷ integer (subscriptions_count x)
      ∷ []) in
    (s1, write_reply c r s1)

-- The message that an unsubscription gives, for a channel or for none.
unfoldable pub unsubscribed_message : Bool → RedisReply → Context → RedisReply
unsubscribed_message is_pattern channel x = members_of (
    word (if is_pattern then word_punsubscribe else word_unsubscribe)
    ∷ channel
    ∷ integer (subscriptions_count x)
    ∷ [])

-- The number tells whether the table had the channel.
unfoldable pub unsubscribe_channel :
    {S : Type 0} → ℕ → List ℕ → Bool → Bool → Server S → Server S × List (ℕ × RedisReply) × ℕ
unsubscribe_channel c channel is_pattern notify s = elim (s.contexts c).pubsub [
  | none ↦ (s, [], 0)
  | some p ↦
      let parted = set_own is_pattern (Set.erase channel (own_set is_pattern p)) p in
      let x : Context = record (s.contexts c) { pubsub = some parted } in
      let s1 =
        set_context c x (set_table is_pattern (Table.leave channel c (table is_pattern s)) s) in
      let r = unsubscribed_message is_pattern (bulk channel) x in
      let ret : ℕ = elim (Table.find channel (table is_pattern s)) [ none ↦ 0 | some cs ↦ 1 ] in
      (s1, if notify then write_reply c r s1 else [], ret)
]

unfoldable pub unsubscribe_each :
    {S : Type 0} → ℕ → List (List ℕ) → Bool → Bool → Server S → Server S × List (ℕ × RedisReply) × ℕ
unsubscribe_each c [] is_pattern notify s = (s, [], 0)
unsubscribe_each c (channel ∷ channels) is_pattern notify s =
    let (s1, sent, ret) = unsubscribe_channel c channel is_pattern notify s in
    let (s2, later, count) = unsubscribe_each c channels is_pattern notify s1 in
    (s2, sent ++ later, ret + count)

-- The loop runs over a copy of the context's set.
unfoldable pub unsubscribe_all :
    {S : Type 0} → ℕ → Bool → Bool → Server S → Server S × List (ℕ × RedisReply)
unsubscribe_all c is_pattern notify s = elim (s.contexts c).pubsub [
  | none ↦ (s, [])
  | some p ↦
      let (s1, sent, count) = unsubscribe_each c (own_set is_pattern p) is_pattern notify s in
      let r = unsubscribed_message is_pattern empty_reply (s1.contexts c) in
      (s1, sent ++ (if notify && (count == 0) then write_reply c r s1 else []))
]

-- SUBSCRIBE and PSUBSCRIBE.
unfoldable pub subscribe :
    {S : Type 0} → ℕ → List (List ℕ) → Bool → Server S → Server S × List (ℕ × RedisReply)
subscribe c [] is_pattern s = (s, [])
subscribe c (channel ∷ channels) is_pattern s =
    let (s1, sent) = subscribe_channel c channel is_pattern s in
    let (s2, later) = subscribe c channels is_pattern s1 in (s2, sent ++ later)

-- A context with no subscription left drops its sets and the flag.
unfoldable pub clear_if_unsubscribed : {S : Type 0} → ℕ → Server S → Server S
clear_if_unsubscribed c s =
    let x = s.contexts c in
    if subscriptions_count x == 0
    then set_context c (record (clear_pubsub x) { flags = pubsub_flag false x.flags }) s
    else s

-- UNSUBSCRIBE and PUNSUBSCRIBE.
unfoldable pub unsubscribe :
    {S : Type 0} → ℕ → List (List ℕ) → Bool → Server S → Server S × List (ℕ × RedisReply)
unsubscribe c [] is_pattern s =
    let (s1, sent) = unsubscribe_all c is_pattern true s in (clear_if_unsubscribed c s1, sent)
unsubscribe c (channel ∷ channels) is_pattern s =
    let (s1, sent, count) = unsubscribe_each c (channel ∷ channels) is_pattern true s in
    (clear_if_unsubscribed c s1, sent)

-- The loop of PUBLISH over a set of contexts: the messages and the count of the receivers.
unfoldable pub send_each : {S : Type 0} → RedisReply → List ℕ → Server S → List (ℕ × RedisReply) × ℕ
send_each r [] s = ([], 0)
send_each r (c ∷ cs) s =
    let (later, receiver) = send_each r cs s in
    if (s.contexts c).has_client
    then (write_reply c r s ++ later, receiver + 1)
    else (later, receiver)

-- `stringmatchlen`, of src/common/util/string_helper.cpp, is the argument `matches`.
module _ (matches : List ℕ → List ℕ → Bool) where
  unfoldable pub send_patterns :
      {S : Type 0} → List ℕ → List ℕ → List (List ℕ × List ℕ) → Server S → List (ℕ × RedisReply) × ℕ
  send_patterns channel message [] s = ([], 0)
  send_patterns channel message ((pattern, cs) ∷ t) s =
      let r = members_of (word word_pmessage ∷ bulk pattern ∷ bulk channel ∷ bulk message ∷ []) in
      let (sent, receiver) = if matches pattern channel then send_each r cs s else ([], 0) in
      let (later, receivers) = send_patterns channel message t s in
      (sent ++ later, receiver + receivers)

  unfoldable pub publish_message :
      {S : Type 0} → List ℕ → List ℕ → Server S → List (ℕ × RedisReply) × ℕ
  publish_message channel message s =
      let r = members_of (word word_message ∷ bulk channel ∷ bulk message ∷ []) in
      let (sent, receiver) = send_each r (Table.members channel s.channels) s in
      let (later, receivers) = send_patterns channel message s.patterns s in
      (sent ++ later, receiver + receivers)

  -- PUBSUB CHANNELS with its optional pattern.
  unfoldable pub pubsub_channels : {S : Type 0} → Option (List ℕ) → Server S → List (List ℕ)
  pubsub_channels pattern s = listed s.channels
    where
      listed : List (List ℕ × List ℕ) → List (List ℕ)
      listed [] = []
      listed ((channel, cs) ∷ t) =
          let rest = listed t in
          if elim pattern [ none ↦ true | some p ↦ matches p channel ] then channel ∷ rest else rest

-- PUBSUB NUMSUB.
unfoldable pub pubsub_numsub : {S : Type 0} → List (List ℕ) → Server S → List (List ℕ × ℕ)
pubsub_numsub [] s = []
pubsub_numsub (channel ∷ channels) s =
    (channel, length (Table.members channel s.channels)) ∷ pubsub_numsub channels s

-- PUBSUB NUMPAT.
unfoldable pub pubsub_numpat : {S : Type 0} → Server S → ℕ
pubsub_numpat s = length s.patterns
