-- ===== src/Call/ExecWrite.antt =====
-- A write that another client's EXEC runs, and the marks that it leaves.
use ardb.Prelude.{ℕ, ◌≡◌, refl, sym, ap, subst, true, false, none, some, List, [], ◌∷◌, ◌++◌, ◌==◌}
use ardb.Tree.Set
use ardb.Context.{
  KeyPrefix, key_prefix_order, RedisCommandFrame, new_context, in_transaction, get_transaction,
  Server, set_context, RedisReply,
}
use ardb.Transaction.{unwatch_keys, run_cached}
use ardb.Transaction.Watched.{watches}
use ardb.Transaction.Marked.{is_marked}
use ardb.Call.{
  RedisCommandType, RedisCommandHandlerSetting, Conditions, Commands, cmd_exec, lowered,
  find_setting, is_known, runs_in_multi, handle, do_call, call_queued, exec_command, refused_first,
  refused_then, queue_or_run, call,
}
use ardb.Call.Isolated.{Isolated-set_context, Isolated-unwatch_keys, Isolated-discard_transaction}
use ardb.Call.Others.{Isolated-feed, Isolated-run_cached}
use ardb.Call.Held.{call-call_found}
use ardb.Call.Write.{accepted, handled_from, marked-do_call}
use ardb.Call.Sequential.{IsOnData, known, queued_called, exec_command_runs}

module _ {S : Type 0} (commands : Commands S) (conditions : Conditions) where
  abbrev pub ran : ℕ → List RedisCommandFrame → Server S → Server S
  ran c cmds s = (run_cached (is_known commands) (call_queued commands conditions) c cmds s).0

  ran-append :
      (c : ℕ) (front back : List RedisCommandFrame) (s : Server S)
      → ran c (front ++ back) s ≡ ran c back (ran c front s)
  unfolding run_cached
  ran-append c [] back s = refl
  ran-append c (cmd ∷ front) back s = ran-append c front back _

  -- A queued write, among the commands that an EXEC runs on the context at `e`.
  marked-ran :
      (c e : ℕ) (k : KeyPrefix) (front back : List RedisCommandFrame) (write : RedisCommandFrame)
      (s : Server S)
      → (c == e) ≡ false
      → (d : IsOnData commands write) → watches s c k ≡ true
      → let t = ran e front s in
        Set.has k
            (commands.handler
              (t.contexts e).ns
              (t.contexts e).flags
              (lowered write)
              t.store).touched
          ≡ true
        → is_marked (ran e (front ++ (write ∷ back)) s) c ≡ true
  unfolding run_cached
  marked-ran c e k front back write s other d w h = rw (ran-append e front (write ∷ back) s) (
      rw (known commands write d.setting d.found) (
        (Isolated-run_cached commands c e other conditions back _).marked (
          rw (queued_called commands conditions e write d.setting (ran e front s) d.found) (
            marked-do_call commands conditions e _ c e k d.setting (lowered write) (ran e front s)
              d.on_data ((Isolated-run_cached commands c e other conditions front s).watched k w)
              h))))

module _ {S : Type 0} (commands : Commands S) (conditions : Conditions) (transc_ctx : ℕ) where
  -- The server when EXEC of a client runs the first command.
  abbrev pub exec_from : ℕ → Server S → Server S
  exec_from d s =
      set_context transc_ctx (record new_context { ns = (s.contexts d).ns }) (unwatch_keys d s)

  -- The call is an EXEC that nothing refuses, and one of the queued commands is on data and has a key
  -- among those that its handler touches.
  pub record IsExecWrite (d : ℕ) (cmd : RedisCommandFrame) (k : KeyPrefix) (s : Server S)
      : Type 0 where
    pub setting : RedisCommandHandlerSetting
    pub found : find_setting commands cmd ≡ some setting
    pub is_exec : setting.type ≡ cmd_exec
    pub accepted_first : refused_first conditions setting cmd (s.contexts d) ≡ none
    pub accepted_then : refused_then conditions setting (s.contexts d) ≡ none
    pub front : List RedisCommandFrame
    pub write : RedisCommandFrame
    pub back : List RedisCommandFrame
    pub started :
        in_transaction ((handled_from commands conditions transc_ctx setting d s).contexts d) ≡ true
    pub not_aborted :
        (get_transaction
          ((handled_from commands conditions transc_ctx setting d s).contexts d)).aborted
        ≡ false
    pub not_marked : is_marked (handled_from commands conditions transc_ctx setting d s) d ≡ false
    pub queued :
        (get_transaction
          ((handled_from commands conditions transc_ctx setting d s).contexts d)).cached_cmds
        ≡ front ++ (write ∷ back)
    pub on_data : IsOnData commands write
    pub touches :
        let t =
          ran commands conditions transc_ctx front
            (exec_from d (handled_from commands conditions transc_ctx setting d s)) in
        Set.has k
          (commands.handler
            (t.contexts transc_ctx).ns
            (t.contexts transc_ctx).flags
            (lowered write)
            t.store).touched
        ≡ true

  module _ (c d : ℕ) (other : (c == d) ≡ false) (elsewhere : (c == transc_ctx) ≡ false) where
    marked-exec_command :
        (k : KeyPrefix) (front back : List RedisCommandFrame) (write : RedisCommandFrame)
        (s : Server S)
        → in_transaction (s.contexts d) ≡ true
        → (get_transaction (s.contexts d)).aborted ≡ false
        → is_marked s d ≡ false
        → (get_transaction (s.contexts d)).cached_cmds ≡ front ++ (write ∷ back)
        → IsOnData commands write
        → watches s c k ≡ true
        → let t = ran commands conditions transc_ctx front (exec_from d s) in
          Set.has k
              (commands.handler
                (t.contexts transc_ctx).ns
                (t.contexts transc_ctx).flags
                (lowered write)
                t.store).touched
            ≡ true
          → is_marked (exec_command commands conditions transc_ctx d s).0 c ≡ true
    marked-exec_command k front back write s o a m q g w h =
        let watched =
          (Isolated-set_context c transc_ctx _ (unwatch_keys d s) elsewhere).watched k
            ((Isolated-unwatch_keys c d other s).watched k w) in
        rw (exec_command_runs commands conditions transc_ctx d s o a m) (
          (Isolated-discard_transaction c d other _).marked (
            (Isolated-set_context c d _ _ other).marked (
              subst
                (λ cmds.
                  is_marked (ran commands conditions transc_ctx cmds (exec_from d s)) c ≡ true)
                (sym q)
                (marked-ran commands conditions c transc_ctx k front back write (exec_from d s)
                  elsewhere g watched h))))

    exec_runs :
        (setting : RedisCommandHandlerSetting) (cmd : RedisCommandFrame) (s : Server S)
        → setting.type ≡ cmd_exec
        → in_transaction (s.contexts d) ≡ true
        → queue_or_run commands conditions transc_ctx d setting cmd s
          ≡ do_call commands conditions
              (exec_command commands conditions transc_ctx)
              d
              setting
              cmd
              s
    unfolding queue_or_run runs_in_multi
    exec_runs setting cmd s e o = rw (e, o) refl

    exec_handled :
        (on_exec : ℕ → Server S → Server S × RedisReply) (type : RedisCommandType)
        (cmd : RedisCommandFrame) (s : Server S)
        → type ≡ cmd_exec
        → handle commands on_exec type d cmd s ≡ on_exec d s
    unfolding handle
    exec_handled on_exec type cmd s e = ap (λ t. handle commands on_exec t d cmd s) e

    -- EXEC of another client marks every context that watches a key that it writes.
    pub marked-exec :
        (k : KeyPrefix) (cmd : RedisCommandFrame) (s : Server S)
        → IsExecWrite d cmd k s
        → watches s c k ≡ true
        → is_marked (call commands conditions transc_ctx d cmd s).0 c ≡ true
    unfolding do_call
    marked-exec k cmd s h w =
        let s1 = handled_from commands conditions transc_ctx h.setting d s in
        rw (call-call_found commands d conditions transc_ctx h.setting cmd s h.found) (
          rw
            (accepted commands conditions transc_ctx d h.setting cmd s h.accepted_first
              h.accepted_then)
            (rw (exec_runs h.setting (lowered cmd) s1 h.is_exec h.started) (
              (Isolated-feed c conditions _ h.setting.is_write_command (lowered cmd) _).marked (
                rw
                  (exec_handled (exec_command commands conditions transc_ctx) h.setting.type
                    (lowered cmd) s1 h.is_exec)
                  (marked-exec_command k h.front h.back h.write s1 h.started h.not_aborted
                    h.not_marked h.queued h.on_data
                    ((Isolated-set_context c d _ s other).watched k w) h.touches)))))
