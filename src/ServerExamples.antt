-- ===== src/ServerExamples.antt =====
-- The theorems about transactions and subscriptions at concrete inputs: a server whose store is a
-- number, which each write counts up.
use ardb.Prelude.{
  ℕ, ◌+◌, ◌≡◌, refl, Bool, true, false, Option, none, some, List, [], ◌∷◌, ◌==◌, if◌then◌else◌,
  arith, ◌&&◌, ◌||◌, length,
}
use ardb.Tree.{same}
use ardb.Tree.Set
use ardb.Tree.Table
use ardb.Context.{
  CallFlags, KeyPrefix, key_prefix_order, key_prefix_less, bytes_order, address_order,
  RedisCommandFrame, TransactionContext, new_context, new_transaction, in_transaction,
  get_transaction, Server, set_context, integer, no_members, members,
}
use ardb.Transaction
use ardb.Transaction.{unwatch_keys, run_cached, watched_table, exec}
use ardb.Transaction.Reached as Watching
use ardb.Transaction.Reached.{watches-remembers}
use ardb.PubSub.Reached as Subscribing
use ardb.PubSub.Reached.{IsFresh, listed-subscribed}
use ardb.PubSub.Subscribed.{listed, subscribed}
use ardb.PubSub.Publish.{
  IsConnected, reaches, pattern_reaches, reaches-publish_message, length-publish_message,
}
use ardb.Call.Isolated.{Isolated}
use ardb.Call.Others.{Isolated-call}
use ardb.Call.Freed.{free_client_lem}
use ardb.Call.Stale.{unwatch-multi-exec, watch-exec_command}
use ardb.Transaction.Watched.{watches, remembers, Agree}
use ardb.Transaction.Marked.{is_marked, exec_leaves, marked-touch_watched_keys_on_flush}
use ardb.PubSub
use ardb.Call
use ardb.Call.{
  RedisCommandType, RedisCommandHandlerSetting, Conditions, Effect, Commands, cmd_multi, cmd_exec,
  cmd_watch, cmd_other, lowered, lower_string, find_setting, exec_command, refused_first,
  refused_then, valid_arity, is_del, is_auth_or_quit, call, mark_no_wal,
}
use ardb.Call.ExecWrite.{IsExecWrite}
use ardb.Call.Optimistic.{run_calls}

-- Commands with one letter as their names: e, m, s and w.
abbrev setting_of : RedisCommandType → Bool → RedisCommandHandlerSetting
setting_of t w = record {
  type = t;
  min_arity = 0;
  max_arity = none;
  is_write_command = w;
  stale = false;
  loading = false;
}

abbrev tiny_settings : List ℕ → Option RedisCommandHandlerSetting
tiny_settings [] = none
tiny_settings (b ∷ bs) =
    if b == 109
    then some (setting_of cmd_multi false)
    else if b == 115
    then some (setting_of (cmd_other 102) true)
    else if b == 119
    then some (setting_of cmd_watch false)
    else if b == 101
    then some (setting_of cmd_exec false)
    else none

abbrev the_key : KeyPrefix
the_key = record { ns = 48 ∷ []; key = 107 ∷ [] }

abbrev counted : List ℕ → CallFlags → RedisCommandFrame → ℕ → Effect ℕ
counted ns flags cmd n = record {
  store = n + 1;
  ns = ns;
  flags = record flags { create_if_notexist = true };
  touched = the_key ∷ [];
  flushed = [];
  reply = integer (n + 1);
}

abbrev tiny : Commands ℕ
tiny = record { settings = tiny_settings; handler = counted; matches = λ p channel. true }

abbrev calm : Conditions
calm = record {
  has_master = false;
  repl_min_slaves_to_write = 0;
  repl_min_slaves_max_lag = 0;
  good_slaves_count = 0;
  slave_readonly = true;
  slave_ignore_del = false;
  is_synced = true;
  repl_serve_stale_data = true;
  is_loading = false;
  repl_inited = true;
}

abbrev multi_cmd : RedisCommandFrame
multi_cmd = record { command = 77 ∷ []; arguments = [] }

abbrev set_cmd : RedisCommandFrame
set_cmd = record { command = 83 ∷ []; arguments = (107 ∷ []) ∷ [] }

abbrev watching : TransactionContext
watching = record new_transaction { watched_keys = the_key ∷ [] }

-- Client 1 watches the key.
abbrev watched_server : Server ℕ
watched_server = record {
  store = 0;
  watched_ctxs = some ((the_key, 1 ∷ []) ∷ []);
  channels = [];
  patterns = [];
  contexts = λ c. if c == 1 then record new_context { transc = some watching } else new_context;
  sent = [];
  replicated = [];
}

watched_server-watches : watches watched_server 1 the_key ≡ true
unfolding watched_table Table.holds Table.members Table.find same Set.has key_prefix_order
    key_prefix_less address_order
watched_server-watches = refl

abbrev after_write : Server ℕ
after_write = run_calls tiny calm 9 ((1, set_cmd) ∷ []) (
    run_calls tiny calm 9 ((2, set_cmd) ∷ [])
      (run_calls tiny calm 9 ((1, multi_cmd) ∷ []) watched_server))

abbrev exec_cmd : RedisCommandFrame
exec_cmd = record { command = 69 ∷ []; arguments = [] }

-- Client 2 has queued a write of the key that client 1 watches.
abbrev queued_server : Server ℕ
queued_server = record watched_server {
  contexts = λ c.
      if c == 1
      then record new_context { transc = some watching }
      else if c == 2
      then record new_context {
        transc = some (record new_transaction { started = true; cached_cmds = set_cmd ∷ [] });
      }
      else new_context;
}

exec_writes : IsExecWrite tiny calm 9 2 exec_cmd the_key queued_server
unfolding find_setting lower_string refused_first refused_then valid_arity mark_no_wal
    in_transaction is_auth_or_quit is_del set_context get_transaction Call.is_data_type lowered
    run_cached unwatch_keys Set.has same key_prefix_order key_prefix_less
exec_writes = record {
  setting = setting_of cmd_exec false;
  found = refl;
  is_exec = refl;
  accepted_first = refl;
  accepted_then = refl;
  front = [];
  write = set_cmd;
  back = [];
  started = refl;
  not_aborted = refl;
  not_marked = refl;
  queued = refl;
  on_data = record { setting = setting_of (cmd_other 102) true; found = refl; on_data = refl };
  touches = refl;
}

abbrev server_with : Option (List (KeyPrefix × List ℕ)) → TransactionContext → Server ℕ
server_with table tr = record {
  store = 0;
  watched_ctxs = table;
  channels = [];
  patterns = [];
  contexts = λ c.
      if c == 1
      then record new_context { transc = some tr; has_client = true; has_channel = true }
      else new_context;
  sent = [];
  replicated = [];
}

-- Client 1 has queued two writes.
abbrev ready_server : Server ℕ
ready_server =
    server_with none
      (record new_transaction { started = true; cached_cmds = set_cmd ∷ set_cmd ∷ [] })

Isolated-call_example : Isolated 1 watched_server (call tiny calm 9 2 set_cmd watched_server).0
Isolated-call_example = Isolated-call tiny calm 1 2 9 refl refl set_cmd watched_server

abbrev empty_server : Server ℕ
empty_server = server_with none new_transaction

abbrev after_watch : Server ℕ
after_watch = (Transaction.watch 1 ((107 ∷ []) ∷ []) empty_server).0

after_watch-watches : watches after_watch 1 the_key ≡ true
unfolding Transaction.watch Transaction.watch_each Transaction.watch_for_key watched_table
    Table.holds Table.members Table.find Table.join Table.put Set.insert same Set.has
    key_prefix_order key_prefix_less address_order in_transaction set_context
after_watch-watches = refl

watches-remembers_example : remembers after_watch 1 the_key ≡ true
watches-remembers_example =
    watches-remembers {s = empty_server} {t = after_watch} refl
      (Watching.next Watching.here (Watching.watch_step 1 ((107 ∷ []) ∷ []) empty_server)) 1 the_key
      after_watch-watches

empty_server-IsFresh : IsFresh empty_server
empty_server-IsFresh = record {
  no_channels = refl;
  no_patterns = refl;
  no_pubsub = λ c. ground arith;
}

abbrev after_subscribe : Server ℕ
after_subscribe = (PubSub.subscribe 1 ((99 ∷ []) ∷ []) false empty_server).0

listed-subscribed_example :
    listed after_subscribe false 1 (99 ∷ []) ≡ subscribed after_subscribe false 1 (99 ∷ [])
listed-subscribed_example =
    listed-subscribed {s = empty_server} {t = after_subscribe} empty_server-IsFresh
      (Subscribing.next Subscribing.here
        (Subscribing.subscribe_step 1 ((99 ∷ []) ∷ []) false empty_server))
      false 1 (99 ∷ [])

reaches-publish_message_example :
    reaches 1 (PubSub.publish_message tiny.matches (99 ∷ []) (1 ∷ []) after_subscribe).0 ≡ (
      (after_subscribe.contexts 1).has_client
      && (after_subscribe.contexts 1).has_channel
      && (Table.holds (99 ∷ []) 1 after_subscribe.channels
          || pattern_reaches tiny.matches (99 ∷ []) 1 after_subscribe.patterns))
reaches-publish_message_example =
    reaches-publish_message tiny.matches 1 (99 ∷ []) (1 ∷ []) after_subscribe

after_subscribe-IsConnected : IsConnected after_subscribe
unfolding PubSub.subscribe PubSub.subscribe_channel set_context PubSub.set_table
after_subscribe-IsConnected = record { channel = λ c h. ground arith }

length-publish_message_example :
    (PubSub.publish_message tiny.matches (99 ∷ []) (1 ∷ []) after_subscribe).1
    ≡ length (PubSub.publish_message tiny.matches (99 ∷ []) (1 ∷ []) after_subscribe).0
length-publish_message_example =
    length-publish_message tiny.matches (99 ∷ []) (1 ∷ []) after_subscribe
      after_subscribe-IsConnected

after_watch-Agree : Agree after_watch
after_watch-Agree =
    watches-remembers {s = empty_server} {t = after_watch} refl
      (Watching.next Watching.here (Watching.watch_step 1 ((107 ∷ []) ∷ []) empty_server))

after_watch-IsFresh : IsFresh after_watch
unfolding Transaction.watch Transaction.watch_each Transaction.watch_for_key Transaction.add_watched
    set_context in_transaction
after_watch-IsFresh = record {
  no_channels = refl;
  no_patterns = refl;
  no_pubsub = λ c. ground arith;
}

free_client_lem_example :
    ((k : KeyPrefix) → watches (Call.free_client 1 after_watch) 1 k ≡ false)
    × ((p : Bool) (ch : List ℕ) → listed (Call.free_client 1 after_watch) p 1 ch ≡ false)
free_client_lem_example =
    free_client_lem 1 after_watch after_watch-Agree
      (listed-subscribed {s = after_watch} {t = after_watch} after_watch-IsFresh Subscribing.here)

exec_leaves_example :
    in_transaction
      ((exec (Call.is_known tiny) (Call.call_queued tiny calm) 9 1 ready_server).0.contexts 1)
    ≡ false
exec_leaves_example = exec_leaves (Call.is_known tiny) (Call.call_queued tiny calm) 9 1 ready_server

marked-touch_watched_keys_on_flush_example :
    is_marked (Transaction.touch_watched_keys_on_flush (some (48 ∷ [])) watched_server) 1 ≡ true
unfolding Transaction.in_name_space same bytes_order
marked-touch_watched_keys_on_flush_example =
    marked-touch_watched_keys_on_flush 1 the_key (some (48 ∷ [])) watched_server refl
      watched_server-watches

-- Client 1 watches nothing any more, but is marked.
abbrev marked_server : Server ℕ
marked_server =
    server_with none (record new_transaction { cas = true; watched_keys = the_key ∷ [] })

unwatch-multi-exec_example :
    (exec
      (Call.is_known tiny)
      (Call.call_queued tiny calm)
      9
      1
      (Transaction.multi 1 (Transaction.unwatch 1 marked_server).0).0).1
    ≡ no_members
unfolding get_transaction in_transaction
unwatch-multi-exec_example =
    unwatch-multi-exec (Call.is_known tiny) (Call.call_queued tiny calm) 9 1 marked_server refl refl
      refl

abbrev watch_cmd : RedisCommandFrame
watch_cmd = record { command = 87 ∷ []; arguments = (107 ∷ []) ∷ [] }

abbrev watch_queued_server : Server ℕ
watch_queued_server =
    server_with none (record new_transaction { started = true; cached_cmds = watch_cmd ∷ [] })

watch-exec_command_example :
    watches (exec_command tiny calm 9 1 watch_queued_server).0 9 the_key ≡ true
unfolding find_setting lower_string get_transaction in_transaction
watch-exec_command_example =
    watch-exec_command tiny calm 9 1 (107 ∷ []) watch_cmd (setting_of cmd_watch false)
      watch_queued_server refl refl refl refl refl refl refl refl
