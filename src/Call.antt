-- ===== src/Call.antt =====
-- A client's command from its arrival to its handler: `Ardb::Call`, `Ardb::DoCall` and
-- `Ardb::FreeClient` of src/db/db.cpp. The handlers of transactions and of publish and subscribe are
-- those of Transaction and PubSub; the handlers of the commands on data are an argument.
use ardb.Prelude.{
  ltb, ℕ, ◌+◌, ◌==◌, leb, Bool, true, false, Option, none, some, List, [], ◌∷◌, ◌++◌, not, ◌&&◌,
  ◌||◌, if◌then◌else◌, length,
}
use ardb.Context.{
  status_ok, integer, err_readonly_slave, err_readonly_slave, only_subscribe_allowed,
  err_noreplicas, is_subscribed, status_queued, err_auth_failed, exec_without_multi, err_loading,
  unknown_command, status_code, err_master_down, wrong_number_of_arguments, err_code,
  abort_transaction, error_reason, in_transaction, get_transaction, KeyPrefix, RedisCommandFrame,
  Context, Server, set_context, RedisReply, empty_reply,
}
use ardb.Transaction
use ardb.PubSub
pub use ardb.Command.{
  RedisCommandType, RedisCommandHandlerSetting, Conditions, Effect, Commands, cmd_multi,
  cmd_discard, cmd_exec, cmd_watch, cmd_unwatch, cmd_subscribe, cmd_unsubscribe, cmd_psubscribe,
  cmd_punsubscribe, cmd_publish, cmd_quit, cmd_auth, cmd_del, cmd_other,
}
unfoldable pub use ardb.Command.{
  lower_string, lowered, valid_arity, is_auth_or_quit, is_del, refused_first, mark_no_wal,
  refused_then, runs_in_multi, runs_subscribed, is_data_type,
}
pub mod Isolated
pub mod Subscriptions
pub mod Others
pub mod Held
pub mod Write
pub mod ExecWrite
pub mod Optimistic
pub mod Sequential
pub mod Freed
pub mod Stale

unfoldable pub touch_keys : {S : Type 0} → List KeyPrefix → Server S → Server S
touch_keys [] s = s
touch_keys (k ∷ ks) s = touch_keys ks (Transaction.touch_watch_key k s)

unfoldable pub flush_all : {S : Type 0} → List (Option (List ℕ)) → Server S → Server S
flush_all [] s = s
flush_all (ns ∷ nss) s = flush_all nss (Transaction.touch_watched_keys_on_flush ns s)

unfoldable pub changes : {S : Type 0} → Effect S → Bool
changes e = not (length e.touched == 0 && length e.flushed == 0)

-- Messages go out in the order in which they are written.
unfoldable pub post : {S : Type 0} → Server S × List (ℕ × RedisReply) → Server S × RedisReply
post (s, sent) = (record s { sent = s.sent ++ sent }, empty_reply)

-- `FeedReplicationBacklog`, under the test of `DoCall`.
unfoldable pub feed_replication_backlog :
    {S : Type 0} → Conditions → Context → Bool → RedisCommandFrame → Server S → Server S
feed_replication_backlog conditions x is_write cmd s =
    if conditions.repl_inited && not x.flags.no_wal && x.dirty && is_write
    then record s { replicated = s.replicated ++ ((x.ns, cmd) ∷ []) }
    else s

unfoldable pub refuse : {S : Type 0} → ℕ → Bool × RedisReply → Server S → Server S × RedisReply
refuse c (aborts, reply) s =
    (if aborts then set_context c (abort_transaction (s.contexts c)) s else s, reply)

-- `GetTransaction().cached_cmds.push_back(args)`
unfoldable pub queue : RedisCommandFrame → Context → Context
queue cmd x =
    let tr = get_transaction x in
    record x { transc = some (record tr { cached_cmds = tr.cached_cmds ++ (cmd ∷ []) }) }

-- PUBLISH; the arity that `Call` tests leaves two arguments.
unfoldable pub publish :
    {S : Type 0} → (List ℕ → List ℕ → Bool) → List (List ℕ) → Server S → Server S × RedisReply
publish matches (channel ∷ message ∷ more) s =
    let (sent, count) = PubSub.publish_message matches channel message s in
    (record s { sent = s.sent ++ sent }, integer count)
publish matches few s = (s, error_reason wrong_number_of_arguments)

module _ {S : Type 0} (commands : Commands S) where
  -- `FindRedisCommandHandlerSetting`, which puts the command's name into lower case in its frame.
  unfoldable pub find_setting : RedisCommandFrame → Option RedisCommandHandlerSetting
  find_setting cmd = commands.settings (lower_string cmd.command)

  unfoldable pub is_known : RedisCommandFrame → Bool
  is_known cmd = elim (find_setting cmd) [ none ↦ false | some setting ↦ true ]

  -- A handler on data, on the context at an address.
  unfoldable pub handle_data : ℕ → RedisCommandFrame → Server S → Server S × RedisReply
  handle_data c cmd s =
      let x = s.contexts c in
      let e = commands.handler x.ns x.flags cmd s.store in
      let after : Context = record x { ns = e.ns; flags = e.flags; dirty = x.dirty || changes e } in
      (
        flush_all e.flushed
            (touch_keys e.touched (set_context c after (record s { store = e.store }))),
        e.reply,
      )

  -- The handler of a command; that of EXEC is an argument. QUIT closes the connection afterwards.
  unfoldable pub handle :
      (ℕ → Server S → Server S × RedisReply)
      → RedisCommandType
      → ℕ
      → RedisCommandFrame
      → Server S
      → Server S × RedisReply
  handle on_exec cmd_multi c cmd s = Transaction.multi c s
  handle on_exec cmd_discard c cmd s = Transaction.discard c s
  handle on_exec cmd_exec c cmd s = on_exec c s
  handle on_exec cmd_watch c cmd s = Transaction.watch c cmd.arguments s
  handle on_exec cmd_unwatch c cmd s = Transaction.unwatch c s
  handle on_exec cmd_subscribe c cmd s = post (PubSub.subscribe c cmd.arguments false s)
  handle on_exec cmd_unsubscribe c cmd s = post (PubSub.unsubscribe c cmd.arguments false s)
  handle on_exec cmd_psubscribe c cmd s = post (PubSub.subscribe c cmd.arguments true s)
  handle on_exec cmd_punsubscribe c cmd s = post (PubSub.unsubscribe c cmd.arguments true s)
  handle on_exec cmd_publish c cmd s = publish commands.matches cmd.arguments s
  handle on_exec cmd_quit c cmd s = (s, status_code status_ok)
  handle on_exec cmd_auth c cmd s = handle_data c cmd s
  handle on_exec cmd_del c cmd s = handle_data c cmd s
  handle on_exec (cmd_other n) c cmd s = handle_data c cmd s

  -- `DoCall`, without the statistics, the slow log and the monitors.
  unfoldable pub do_call :
      Conditions
      → (ℕ → Server S → Server S × RedisReply)
      → ℕ
      → RedisCommandHandlerSetting
      → RedisCommandFrame
      → Server S
      → Server S × RedisReply
  do_call conditions on_exec c setting cmd s =
      let (s1, reply) = handle on_exec setting.type c cmd s in
      (feed_replication_backlog conditions (s1.contexts c) setting.is_write_command cmd s1, reply)

  -- A command that was queued, on the context that EXEC makes for it, where no transaction is open.
  unfoldable pub call_queued : Conditions → ℕ → RedisCommandFrame → Server S → Server S × RedisReply
  call_queued conditions c cmd s = elim (find_setting cmd) [
    | none ↦ (s, error_reason unknown_command)
    | some setting ↦
        do_call conditions (λ d u. (u, error_reason exec_without_multi)) c setting (lowered cmd) s
  ]

  unfoldable pub exec_command : Conditions → ℕ → ℕ → Server S → Server S × RedisReply
  exec_command conditions transc_ctx c s =
      Transaction.exec is_known (call_queued conditions) transc_ctx c s

  -- The end of `Call`, for a command that nothing refuses.
  unfoldable pub queue_or_run :
      Conditions
      → ℕ
      → ℕ
      → RedisCommandHandlerSetting
      → RedisCommandFrame
      → Server S
      → Server S × RedisReply
  queue_or_run conditions transc_ctx c setting cmd s =
      let x = s.contexts c in
      let run = do_call conditions (exec_command conditions transc_ctx) c setting cmd s in
      if in_transaction x
      then (if runs_in_multi setting.type
          then run
          else (set_context c (queue cmd x) s, status_code status_queued))
      else if is_subscribed x && not (runs_subscribed setting.type)
      then (s, error_reason only_subscribe_allowed)
      else run

  -- `Call` for a command that the table has: the tests in their order.
  unfoldable pub call_found :
      Conditions
      → ℕ
      → ℕ
      → RedisCommandHandlerSetting
      → RedisCommandFrame
      → Server S
      → Server S × RedisReply
  call_found conditions transc_ctx c setting cmd s =
      let x = s.contexts c in
      let s1 = set_context c (mark_no_wal conditions setting x) s in
      elim (refused_first conditions setting cmd x) [
        | some refusal ↦ refuse c refusal s
        | none ↦ elim (refused_then conditions setting x) [
          | some refusal ↦ refuse c refusal s1
          | none ↦ queue_or_run conditions transc_ctx c setting (lowered cmd) s1
        ]
      ]

  -- `Call`, without waking the clients that block on keys. `transc_ctx` is where EXEC puts its context.
  unfoldable pub call : Conditions → ℕ → ℕ → RedisCommandFrame → Server S → Server S × RedisReply
  call conditions transc_ctx c cmd s = elim (find_setting cmd) [
    | none ↦ refuse c (true, error_reason unknown_command) s
    | some setting ↦ call_found conditions transc_ctx c setting cmd s
  ]

-- The part of `FreeClient` on watched keys and subscriptions.
unfoldable pub free_client : {S : Type 0} → ℕ → Server S → Server S
free_client c s =
    let (s1, to_patterns) = PubSub.unsubscribe_all c true false (Transaction.unwatch_keys c s) in
    let (s2, to_channels) = PubSub.unsubscribe_all c false false s1 in s2
