-- ===== src/Call/Sequential.antt =====
-- EXEC against its specification: the handlers of the queued commands, one after another, each on the
-- store and the name space that the one before it left.
use ardb.Prelude.{ℕ, ◌≡◌, refl, true, false, some, List, [], ◌∷◌, arith}
use ardb.Tree.Table
use ardb.Context.{
  CallFlags, RedisCommandFrame, key_prefix_order, address_order, Context, new_context,
  in_transaction, get_transaction, Server, set_context, RedisReply, RedisReplies, no_more,
  reply_then, members, error_reason, exec_without_multi,
}
use ardb.Transaction.{unwatch_keys, discard_transaction, run_cached, exec}
use ardb.Transaction.Marked.{is_marked}
use ardb.Call.{
  is_data_type, RedisCommandHandlerSetting, Conditions, Commands, lowered, find_setting, is_known,
  do_call, call_queued, exec_command,
}

-- From `s` to `t`, the store, and the name space and the flags of the context at an address, stay.
pub record Unmoved {S : Type 0} (c : ℕ) (s t : Server S) : Type 0 where
  pub store_stays : t.store ≡ s.store
  pub ns_stays : (t.contexts c).ns ≡ (s.contexts c).ns
  pub flags_stay : (t.contexts c).flags ≡ (s.contexts c).flags

-- The specification: the name space, the store and the replies after some commands, each with the name
-- space, the flags and the store that the one before it left.
unfoldable pub sequential :
    {S : Type 0}
    → Commands S
    → List RedisCommandFrame
    → List ℕ
    → CallFlags
    → S
    → List ℕ × S × RedisReplies
sequential commands [] ns flags store = (ns, store, no_more)
sequential commands (cmd ∷ cmds) ns flags store =
    let e = commands.handler ns flags (lowered cmd) store in
    let (ns', store', replies) = sequential commands cmds e.ns e.flags e.store in
    (ns', store', reply_then e.reply replies)

module _ {S : Type 0} (commands : Commands S) where
  -- The table has the command, as one on data.
  pub record IsOnData (cmd : RedisCommandFrame) : Type 0 where
    pub setting : RedisCommandHandlerSetting
    pub found : find_setting commands cmd ≡ some setting
    pub on_data : is_data_type setting.type ≡ true

  -- The server holds the store and the name space, and the reply is the given one.
  record Holds (c : ℕ) (ns : List ℕ) (flags : CallFlags) (store : S) (reply : RedisReply)
      (r : Server S × RedisReply) : Type 0 where
    holds_store : r.0.store ≡ store
    holds_ns : (r.0.contexts c).ns ≡ ns
    holds_flags : (r.0.contexts c).flags ≡ flags
    holds_reply : r.1 ≡ reply

  pub known :
      (cmd : RedisCommandFrame) (setting : RedisCommandHandlerSetting)
      → find_setting commands cmd ≡ some setting
      → is_known commands cmd ≡ true
  unfolding is_known
  known cmd setting e = rw (is_known, e) refl

  module _ (conditions : Conditions) where
    pub queued_called :
        (c : ℕ) (cmd : RedisCommandFrame) (setting : RedisCommandHandlerSetting) (s : Server S)
        → find_setting commands cmd ≡ some setting
        → call_queued commands conditions c cmd s
          ≡ do_call commands conditions
              (λ d u. (u, error_reason exec_without_multi))
              c
              setting
              (lowered cmd)
              s
    unfolding call_queued
    queued_called c cmd setting s e = ground arith

    -- EXEC of a transaction that nothing refuses.
    pub exec_command_runs :
        (transc_ctx c : ℕ) (s : Server S)
        → in_transaction (s.contexts c) ≡ true
        → (get_transaction (s.contexts c)).aborted ≡ false
        → is_marked s c ≡ false
        → exec_command commands conditions transc_ctx c s ≡ (
            let ran =
              run_cached
                (is_known commands)
                (call_queued commands conditions)
                transc_ctx
                (get_transaction (s.contexts c)).cached_cmds
                (set_context transc_ctx
                  (record new_context { ns = (s.contexts c).ns })
                  (unwatch_keys c s)) in
            (
              discard_transaction c (
                  set_context c
                    (record (ran.0.contexts c) { ns = (ran.0.contexts transc_ctx).ns })
                    ran.0),
              members ran.1,
            ))
    unfolding exec_command exec
    exec_command_runs transc_ctx c s e a m = ground arith
