-- ===== src/Command.antt =====
-- The table of commands and the guards of `Ardb::Call`: src/db/db.hpp, src/db/db.cpp and the command
-- types of src/common/channel/codec/redis_command.hpp. The handlers of the commands on data are an argument.
use ardb.Prelude.{
  ltb, ℕ, ◌+◌, leb, Bool, true, false, Option, none, some, List, [], ◌∷◌, not, ◌&&◌, if◌then◌else◌,
  length,
}
use ardb.Context.{
  CallFlags, err_readonly_slave, err_readonly_slave, err_noreplicas, err_auth_failed, err_loading,
  err_master_down, wrong_number_of_arguments, err_code, error_reason, KeyPrefix, RedisCommandFrame,
  Context, RedisReply, empty_reply,
}

-- The types of commands that this code tells apart, of `enum RedisCommandType`.
pub data RedisCommandType : Type 0 where
  cmd_multi : RedisCommandType
  cmd_discard : RedisCommandType
  cmd_exec : RedisCommandType
  cmd_watch : RedisCommandType
  cmd_unwatch : RedisCommandType
  cmd_subscribe : RedisCommandType
  cmd_unsubscribe : RedisCommandType
  cmd_psubscribe : RedisCommandType
  cmd_punsubscribe : RedisCommandType
  cmd_publish : RedisCommandType
  cmd_quit : RedisCommandType
  cmd_auth : RedisCommandType
  cmd_del : RedisCommandType
  cmd_other : ℕ → RedisCommandType

-- An entry of the command table: `none` is a maximal arity of -1, and the last three are flags.
pub record RedisCommandHandlerSetting : Type 0 where
  pub type : RedisCommandType
  pub min_arity : ℕ
  pub max_arity : Option ℕ
  pub is_write_command : Bool
  pub stale : Bool
  pub loading : Bool

-- What `Call` asks of the configuration and of the replication: `has_master` is a `master_host` that is
-- not empty, `is_loading` is `IsLoadingData()` or `IsRestoring(...)`.
pub record Conditions : Type 0 where
  pub has_master : Bool
  pub repl_min_slaves_to_write : ℕ
  pub repl_min_slaves_max_lag : ℕ
  pub good_slaves_count : ℕ
  pub slave_readonly : Bool
  pub slave_ignore_del : Bool
  pub is_synced : Bool
  pub repl_serve_stale_data : Bool
  pub is_loading : Bool
  pub repl_inited : Bool

-- What a handler on data does: the new store, the name space and the flags of its context, the keys that
-- it wrote, each by a call that touches it, the name spaces that it flushed, and its reply.
pub record Effect (S : Type 0) : Type 0 where
  pub store : S
  pub ns : List ℕ
  pub flags : CallFlags
  pub touched : List KeyPrefix
  pub flushed : List (Option (List ℕ))
  pub reply : RedisReply

-- The table of commands, by lower-case name, the handlers on data, and `stringmatchlen`.
pub record Commands (S : Type 0) : Type 0 where
  pub settings : List ℕ → Option RedisCommandHandlerSetting
  pub handler : List ℕ → CallFlags → RedisCommandFrame → S → Effect S
  pub matches : List ℕ → List ℕ → Bool

-- `tolower`, in the C locale.
unfoldable pub lower_string : List ℕ → List ℕ
lower_string [] = []
lower_string (b ∷ bs) = (if leb 65 b && leb b 90 then b + 32 else b) ∷ lower_string bs

unfoldable pub lowered : RedisCommandFrame → RedisCommandFrame
lowered cmd = record cmd { command = lower_string cmd.command }

-- The numbers of arguments that `Call` accepts.
unfoldable pub valid_arity : RedisCommandHandlerSetting → ℕ → Bool
valid_arity setting n =
    leb setting.min_arity n && elim setting.max_arity [ none ↦ true | some m ↦ leb n m ]

unfoldable pub is_auth_or_quit : RedisCommandType → Bool
is_auth_or_quit cmd_auth = true
is_auth_or_quit cmd_quit = true
is_auth_or_quit type = false

-- The commands on data, whose handlers are an argument. AUTH is none of them.
unfoldable pub is_data_type : RedisCommandType → Bool
is_data_type cmd_del = true
is_data_type (cmd_other n) = true
is_data_type type = false

unfoldable pub is_del : RedisCommandType → Bool
is_del cmd_del = true
is_del type = false

-- The refusals up to the test for a read-only slave, with whether each aborts the transaction.
unfoldable pub refused_first :
    Conditions
    → RedisCommandHandlerSetting
    → RedisCommandFrame
    → Context
    → Option (Bool × RedisReply)
refused_first conditions setting cmd x =
    if not (valid_arity setting (length cmd.arguments))
    then some (true, error_reason wrong_number_of_arguments)
    else if not x.authenticated && not (is_auth_or_quit setting.type)
    then some (true, err_code err_auth_failed)
    else if not conditions.has_master
        && ltb 0 conditions.repl_min_slaves_to_write
        && ltb 0 conditions.repl_min_slaves_max_lag
        && setting.is_write_command
        && ltb conditions.good_slaves_count conditions.repl_min_slaves_to_write
    then some (true, err_code err_noreplicas)
    else if conditions.has_master
        && setting.is_write_command
        && not x.flags.slave
        && conditions.slave_readonly
    then some (false, err_code err_readonly_slave)
    else none

-- A slave that accepts writes does not feed them to its log.
unfoldable pub mark_no_wal : Conditions → RedisCommandHandlerSetting → Context → Context
mark_no_wal conditions setting x =
    if conditions.has_master && setting.is_write_command && not x.flags.slave
    then record x { flags = record x.flags { no_wal = true } }
    else x

-- The refusals after it; a DEL that a slave ignores gives no reply.
unfoldable pub refused_then :
    Conditions → RedisCommandHandlerSetting → Context → Option (Bool × RedisReply)
refused_then conditions setting x =
    if conditions.slave_ignore_del && x.flags.slave && is_del setting.type
    then some (false, empty_reply)
    else if conditions.has_master
        && not conditions.is_synced
        && not conditions.repl_serve_stale_data
        && not setting.stale
    then some (true, err_code err_master_down)
    else if conditions.is_loading && not setting.loading
    then some (false, err_code err_loading)
    else none

-- The commands that run at once while a transaction is open.
unfoldable pub runs_in_multi : RedisCommandType → Bool
runs_in_multi cmd_multi = true
runs_in_multi cmd_exec = true
runs_in_multi cmd_discard = true
runs_in_multi cmd_quit = true
runs_in_multi type = false

-- The commands that a context with subscriptions may call.
unfoldable pub runs_subscribed : RedisCommandType → Bool
runs_subscribed cmd_subscribe = true
runs_subscribed cmd_psubscribe = true
runs_subscribed cmd_punsubscribe = true
runs_subscribed cmd_unsubscribe = true
runs_subscribed cmd_quit = true
runs_subscribed type = false
