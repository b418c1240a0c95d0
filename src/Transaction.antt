-- ===== src/Transaction.antt =====
-- MULTI, EXEC, DISCARD, WATCH and UNWATCH: src/command/transaction.cpp. An operation takes the address
-- of the client's context and the server, and gives the server and the reply. Feeding the monitors
-- changes neither, and is left out; `m_watched_keys_lock` makes each table operation one step.
use ardb.Prelude.{ℕ, Bool, true, false, Option, none, some, List, [], ◌∷◌, ◌||◌, if◌then◌else◌}
use ardb.Tree.{same, is_empty}
use ardb.Tree.Set
use ardb.Tree.Table
use ardb.Context.{
  KeyPrefix, key_prefix_order, bytes_order, address_order, RedisCommandFrame, TransactionContext,
  Context, new_context, in_transaction, get_transaction, clear_transaction, Server, set_context,
  RedisReply, RedisReplies, status_code, status_ok, error_reason, err_code, no_members, members,
  no_more, reply_then, err_exec_abort, multi_nested, discard_without_multi, exec_without_multi,
  watch_inside_multi, unknown_command,
}
pub mod Watched
pub mod Kept
pub mod Marked
pub mod Reached

-- `ctx.GetTransaction().started = true`
unfoldable pub multi : {S : Type 0} → ℕ → Server S → Server S × RedisReply
multi c s =
    let x = s.contexts c in
    if in_transaction x then (s, error_reason multi_nested) else (
      set_context c (record x { transc = some (record (get_transaction x) { started = true }) }) s,
      status_code status_ok,
    )

-- The loop of `UnwatchKeys` over the keys that the context watches.
unfoldable pub leave_all :
    ℕ → List KeyPrefix → List (KeyPrefix × List ℕ) → List (KeyPrefix × List ℕ)
leave_all c [] t = t
leave_all c (k ∷ ks) t = leave_all c ks (Table.leave k c t)

-- The table without the context, unless the context has no transaction or the table is empty.
unfoldable pub unwatch_table : ℕ → Context → List (KeyPrefix × List ℕ) → List (KeyPrefix × List ℕ)
unwatch_table c x t =
    if is_empty t
    then t
    else elim x.transc [ none ↦ t | some transc ↦ leave_all c transc.watched_keys t ]

-- An empty table is deleted.
unfoldable pub delete_if_empty : List (KeyPrefix × List ℕ) → Option (List (KeyPrefix × List ℕ))
delete_if_empty t = if is_empty t then none else some t

unfoldable pub unwatch_keys : {S : Type 0} → ℕ → Server S → Server S
unwatch_keys c s = elim s.watched_ctxs [
  | none ↦ s
  | some t ↦ record s { watched_ctxs = delete_if_empty (unwatch_table c (s.contexts c) t) }
]

unfoldable pub discard_transaction : {S : Type 0} → ℕ → Server S → Server S
discard_transaction c s =
    let u = unwatch_keys c s in set_context c (clear_transaction (u.contexts c)) u

unfoldable pub discard : {S : Type 0} → ℕ → Server S → Server S × RedisReply
discard c s =
    if in_transaction (s.contexts c)
    then (discard_transaction c s, status_code status_ok)
    else (s, error_reason discard_without_multi)

-- `watch_ctx->GetTransaction().cas = true`
unfoldable pub touch : {S : Type 0} → ℕ → Server S → Server S
touch c s =
    let x = s.contexts c in
    set_context c (record x { transc = some (record (get_transaction x) { cas = true }) }) s

unfoldable pub touch_all : {S : Type 0} → List ℕ → Server S → Server S
touch_all [] s = s
touch_all (c ∷ cs) s = touch_all cs (touch c s)

unfoldable pub touch_watch_key : {S : Type 0} → KeyPrefix → Server S → Server S
touch_watch_key k s = elim s.watched_ctxs [
  | none ↦ s
  | some t ↦ if is_empty t then s else touch_all (Table.members k t) s
]

-- `none` stands for the name space that FLUSHALL gives, which means all of them.
unfoldable pub in_name_space : Option (List ℕ) → KeyPrefix → Bool
in_name_space none k = true
in_name_space (some ns) k = same k.ns ns

unfoldable pub touch_entries :
    {S : Type 0} → Option (List ℕ) → List (KeyPrefix × List ℕ) → Server S → Server S
touch_entries ns [] s = s
touch_entries ns ((k, cs) ∷ t) s =
    touch_entries ns t (if in_name_space ns k then touch_all cs s else s)

unfoldable pub touch_watched_keys_on_flush : {S : Type 0} → Option (List ℕ) → Server S → Server S
touch_watched_keys_on_flush ns s = elim s.watched_ctxs [ none ↦ s | some t ↦ touch_entries ns t s ]

-- The table, made where there is none.
unfoldable pub watched_table : {S : Type 0} → Server S → List (KeyPrefix × List ℕ)
watched_table s = elim s.watched_ctxs [ none ↦ [] | some t ↦ t ]

unfoldable pub add_watched : KeyPrefix → Context → Context
add_watched k x =
    let tr = get_transaction x in
    record x { transc = some (record tr { watched_keys = Set.insert k tr.watched_keys }) }

unfoldable pub watch_for_key : {S : Type 0} → ℕ → List ℕ → Server S → Server S
watch_for_key c key s =
    let x = s.contexts c in
    let prefix : KeyPrefix = record { ns = x.ns; key = key } in
    set_context c (add_watched prefix x)
      (record s { watched_ctxs = some (Table.join prefix c (watched_table s)) })

unfoldable pub watch_each : {S : Type 0} → ℕ → List (List ℕ) → Server S → Server S
watch_each c [] s = s
watch_each c (key ∷ keys) s = watch_each c keys (watch_for_key c key s)

unfoldable pub watch : {S : Type 0} → ℕ → List (List ℕ) → Server S → Server S × RedisReply
watch c keys s =
    if in_transaction (s.contexts c)
    then (s, error_reason watch_inside_multi)
    else (watch_each c keys s, status_code status_ok)

unfoldable pub unwatch : {S : Type 0} → ℕ → Server S → Server S × RedisReply
unwatch c s = (unwatch_keys c s, status_code status_ok)

-- The loop of EXEC: `find_setting` is the test of `FindRedisCommandHandlerSetting`, and `do_call`
-- executes a command on the context at an address.
module _ {S : Type 0} (find_setting : RedisCommandFrame → Bool)
    (do_call : ℕ → RedisCommandFrame → Server S → Server S × RedisReply) where
  unfoldable pub run_cached : ℕ → List RedisCommandFrame → Server S → Server S × RedisReplies
  run_cached transc_ctx [] s = (s, no_more)
  run_cached transc_ctx (cmd ∷ cmds) s =
      let called =
        if find_setting cmd then do_call transc_ctx cmd s else (s, error_reason unknown_command) in
      let rest = run_cached transc_ctx cmds called.0 in (rest.0, reply_then called.1 rest.1)

  -- The commands run on a context of their own, at the address `transc_ctx` on the stack.
  unfoldable pub exec : ℕ → ℕ → Server S → Server S × RedisReply
  exec transc_ctx c s =
      let x = s.contexts c in
      let tr = get_transaction x in
      let refused : Server S × RedisReply =
        (discard_transaction c s, if tr.aborted then err_code err_exec_abort else no_members) in
      let ran =
        run_cached transc_ctx tr.cached_cmds
          (set_context transc_ctx (record new_context { ns = x.ns }) (unwatch_keys c s)) in
      let back : Context = record (ran.0.contexts c) { ns = (ran.0.contexts transc_ctx).ns } in
      if in_transaction x
      then (if tr.aborted || tr.cas
          then refused
          else (discard_transaction c (set_context c back ran.0), members ran.1))
      else (s, error_reason exec_without_multi)
