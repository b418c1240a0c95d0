-- ===== src/Context.antt =====
-- Client contexts, src/context.hpp, and the server's tables of them, the members of `Ardb` in
-- src/db/db.hpp. A context is known by its address; the tables hold addresses. A name space, a key, a
-- channel and a pattern are byte strings: all of them are made from a command's arguments.
use ardb.Prelude.{
  ℕ, ◌==◌, Bool, true, false, Option, none, some, List, [], ◌∷◌, if◌then◌else◌, ◌+◌, ◌&&◌, ◌≡◌,
  refl, lt→ltb, arith, ltb, length, not,
}
use ardb.Data.Order.{lex_lt, lex_lt-irreflexive, lex_lt-asymmetric}
use ardb.Tree.{Order, less}
pub mod Laws

pub ltb-irreflexive : (a : ℕ) → ltb a a ≡ false
ltb-irreflexive a = ground arith

pub ltb-connected : (a b : ℕ) → ltb a b ≡ false → ltb b a ≡ false → a ≡ b
ltb-connected a b h k = ground arith

instance unfoldable pub address_order : Order ℕ
address_order = record { less = ltb; irreflexive = ltb-irreflexive; connected = ltb-connected }

instance unfoldable pub bytes_order : Order (List ℕ)
bytes_order = record {
  less = lex_lt;
  irreflexive = lex_lt-irreflexive;
  connected = lex_lt-asymmetric;
}

pub record KeyPrefix : Type 0 where
  pub ns : List ℕ
  pub key : List ℕ

-- `KeyPrefix::operator<`
unfoldable pub key_prefix_less : KeyPrefix → KeyPrefix → Bool
key_prefix_less a b =
    if lex_lt a.ns b.ns then true else if lex_lt b.ns a.ns then false else lex_lt a.key b.key

pub key_prefix_less-irreflexive : (a : KeyPrefix) → key_prefix_less a a ≡ false
unfolding key_prefix_less
key_prefix_less-irreflexive a = ground (arith, lex_lt-irreflexive a.ns, lex_lt-irreflexive a.key)

pub key_prefix_less-connected :
    (a b : KeyPrefix) → key_prefix_less a b ≡ false → key_prefix_less b a ≡ false → a ≡ b
unfolding key_prefix_less
key_prefix_less-connected a b h k =
    ground
      (arith, lex_lt-asymmetric a.ns b.ns, lex_lt-asymmetric a.key b.key, lex_lt-irreflexive a.ns)

instance unfoldable pub key_prefix_order : Order KeyPrefix
key_prefix_order = record {
  less = key_prefix_less;
  irreflexive = key_prefix_less-irreflexive;
  connected = key_prefix_less-connected;
}

pub record RedisCommandFrame : Type 0 where
  pub command : List ℕ
  pub arguments : List (List ℕ)

pub record TransactionContext : Type 0 where
  pub started : Bool
  pub aborted : Bool
  pub cas : Bool
  pub cached_cmds : List RedisCommandFrame
  pub watched_keys : List KeyPrefix

abbrev pub new_transaction : TransactionContext
new_transaction = record {
  started = false;
  aborted = false;
  cas = false;
  cached_cmds = [];
  watched_keys = [];
}

pub record PubSubContext : Type 0 where
  pub pubsub_channels : List (List ℕ)
  pub pubsub_patterns : List (List ℕ)

abbrev pub new_pubsub : PubSubContext
new_pubsub = record { pubsub_channels = []; pubsub_patterns = [] }

pub record CallFlags : Type 0 where
  pub no_wal : Bool
  pub no_fill_reply : Bool
  pub create_if_notexist : Bool
  pub fuzzy_check : Bool
  pub redis_compatible : Bool
  pub iterate_multi_keys : Bool
  pub iterate_no_upperbound : Bool
  pub iterate_total_order : Bool
  pub slave : Bool
  pub lua : Bool
  pub pubsub : Bool
  pub bulk_loading : Bool
  pub reply_off : Bool
  pub reply_skip : Bool
  pub block_keys_locked : Bool

abbrev pub new_flags : CallFlags
new_flags = record {
  no_wal = false;
  no_fill_reply = false;
  create_if_notexist = false;
  fuzzy_check = false;
  redis_compatible = false;
  iterate_multi_keys = false;
  iterate_no_upperbound = false;
  iterate_total_order = false;
  slave = false;
  lua = false;
  pubsub = false;
  bulk_loading = false;
  reply_off = false;
  reply_skip = false;
  block_keys_locked = false;
}

-- `ClearFlags`: the first byte holds the first eight flags.
unfoldable pub clear_flags : CallFlags → CallFlags
clear_flags f = record f {
  no_wal = false;
  no_fill_reply = false;
  create_if_notexist = false;
  fuzzy_check = false;
  redis_compatible = false;
  iterate_multi_keys = false;
  iterate_no_upperbound = false;
  iterate_total_order = false;
}

unfoldable pub pubsub_flag : Bool → CallFlags → CallFlags
pubsub_flag b f = record f { pubsub = b }

-- `has_client` is `client != NULL`, and `has_channel` is that the client's own `client`, its channel, is
-- not; `dirty` tells whether the counter of that name is above 0.
pub record Context : Type 0 where
  pub ns : List ℕ
  pub has_client : Bool
  pub has_channel : Bool
  pub transc : Option TransactionContext
  pub pubsub : Option PubSubContext
  pub authenticated : Bool
  pub flags : CallFlags
  pub dirty : Bool

-- The context that the constructor makes: its name space is "0".
abbrev pub new_context : Context
new_context = record {
  ns = 48 ∷ [];
  has_client = false;
  has_channel = false;
  transc = none;
  pubsub = none;
  authenticated = true;
  flags = new_flags;
  dirty = false;
}

unfoldable pub in_transaction : Context → Bool
in_transaction x = elim x.transc [ none ↦ false | some t ↦ t.started ]

unfoldable pub is_subscribed : Context → Bool
is_subscribed x = elim x.pubsub [ none ↦ false | some p ↦ true ]

unfoldable pub get_transaction : Context → TransactionContext
get_transaction x = elim x.transc [ none ↦ new_transaction | some t ↦ t ]

unfoldable pub get_pubsub : Context → PubSubContext
get_pubsub x = elim x.pubsub [ none ↦ new_pubsub | some p ↦ p ]

-- `ClearState`, which comes after every request, without the reply.
unfoldable pub clear_state : Context → Context
clear_state x = record x { flags = clear_flags x.flags; dirty = false }

unfoldable pub clear_transaction : Context → Context
clear_transaction x = record x { transc = none }

unfoldable pub clear_pubsub : Context → Context
clear_pubsub x = record x { pubsub = none }

unfoldable pub abort_transaction : Context → Context
abort_transaction x =
    if in_transaction x
    then record x { transc = some (record (get_transaction x) { aborted = true }) }
    else x

unfoldable pub subscriptions_count : Context → ℕ
subscriptions_count x = elim x.pubsub [
  | none ↦ 0
  | some p ↦ length p.pubsub_channels + length p.pubsub_patterns
]

pub data Status : Type 0 where
  status_ok : Status
  status_queued : Status

pub data ErrCode : Type 0 where
  err_auth_failed : ErrCode
  err_exec_abort : ErrCode
  err_noreplicas : ErrCode
  err_readonly_slave : ErrCode
  err_master_down : ErrCode
  err_loading : ErrCode

-- The texts of `SetErrorReason`.
pub data Reason : Type 0 where
  multi_nested : Reason
  discard_without_multi : Reason
  exec_without_multi : Reason
  watch_inside_multi : Reason
  unknown_command : Reason
  wrong_number_of_arguments : Reason
  only_subscribe_allowed : Reason

-- The first members of the messages of publish and subscribe.
pub data Word : Type 0 where
  word_subscribe : Word
  word_psubscribe : Word
  word_unsubscribe : Word
  word_punsubscribe : Word
  word_message : Word
  word_pmessage : Word

-- A `RedisReply`, as far as this code writes one: `no_members` is `ReserveMember(-1)`, and `other` a
-- reply of a command on data.
mutual
  pub data RedisReply : Type 0 where
    empty_reply : RedisReply
    status_code : Status → RedisReply
    err_code : ErrCode → RedisReply
    error_reason : Reason → RedisReply
    integer : ℕ → RedisReply
    word : Word → RedisReply
    bulk : List ℕ → RedisReply
    no_members : RedisReply
    members : RedisReplies → RedisReply
    other : ℕ → RedisReply

  pub data RedisReplies : Type 0 where
    no_more : RedisReplies
    reply_then : RedisReply → RedisReplies → RedisReplies

-- The server: the key-value store with whatever else the commands on data change, the table of the
-- watched keys behind a pointer, the tables of channels and patterns, and the contexts by address; then
-- what the server has written so far: the messages with their receivers, and the commands handed to the
-- replication log with their name spaces.
pub record Server (S : Type 0) : Type 0 where
  pub store : S
  pub watched_ctxs : Option (List (KeyPrefix × List ℕ))
  pub channels : List (List ℕ × List ℕ)
  pub patterns : List (List ℕ × List ℕ)
  pub contexts : ℕ → Context
  pub sent : List (ℕ × RedisReply)
  pub replicated : List (List ℕ × RedisCommandFrame)

-- Writes the context at an address.
unfoldable pub set_context : {S : Type 0} → ℕ → Context → Server S → Server S
set_context c x s = record s { contexts = λ d. if d == c then x else s.contexts d }
