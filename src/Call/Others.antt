-- ===== src/Call/Others.antt =====
-- The calls of other clients leave a client's transaction as `Isolated` says.
use ardb.Prelude.{
  ℕ, ◌≡◌, refl, Bool, true, false, Option, List, [], ◌∷◌, ◌++◌, not, ◌&&◌, ◌||◌, ◌==◌, either_way,
  either_option,
}
use ardb.Context.{
  KeyPrefix, bytes_order, address_order, RedisCommandFrame, Context, in_transaction, is_subscribed,
  get_transaction, Server, set_context, RedisReply,
}
use ardb.Transaction.{run_cached, exec}
use ardb.Call.{
  RedisCommandType, RedisCommandHandlerSetting, Conditions, Commands, cmd_multi, cmd_discard,
  cmd_exec, cmd_watch, cmd_unwatch, cmd_subscribe, cmd_unsubscribe, cmd_psubscribe,
  cmd_punsubscribe, cmd_publish, cmd_quit, cmd_auth, cmd_del, cmd_other, lowered, find_setting,
  is_known, touch_keys, flush_all, handle_data, post, handle, publish, feed_replication_backlog,
  do_call, call_queued, exec_command, refused_first, refused_then, mark_no_wal, refuse,
  queue_or_run, call_found, call, runs_in_multi, runs_subscribed,
}
use ardb.Call.Subscriptions.{Isolated-subscribe, Isolated-unsubscribe}
use ardb.Call.Isolated.{
  Isolated, Isolated-refl, Isolated-trans, Isolated-apart, Isolated-set_context,
  Isolated-touch_watch_key, Isolated-touch_watched_keys_on_flush, Isolated-unwatch_keys,
  Isolated-discard_transaction, Isolated-watch, Isolated-unwatch, Isolated-multi, Isolated-discard,
}

module _ {S : Type 0} where
  pub Isolated-touch_keys :
      (c : ℕ) (ks : List KeyPrefix) (s : Server S) → Isolated c s (touch_keys ks s)
  unfolding touch_keys
  Isolated-touch_keys c [] s = Isolated-refl c s
  Isolated-touch_keys c (k ∷ ks) s =
      Isolated-trans c s _ _ (Isolated-touch_watch_key c k s) (Isolated-touch_keys c ks _)

  pub Isolated-flush_all :
      (c : ℕ) (nss : List (Option (List ℕ))) (s : Server S) → Isolated c s (flush_all nss s)
  unfolding flush_all
  Isolated-flush_all c [] s = Isolated-refl c s
  Isolated-flush_all c (ns ∷ nss) s =
      Isolated-trans c s _ _ (Isolated-touch_watched_keys_on_flush c ns s)
        (Isolated-flush_all c nss _)

  pub Isolated-feed :
      (c : ℕ) (conditions : Conditions) (x : Context) (w : Bool) (cmd : RedisCommandFrame)
      (s : Server S)
      → Isolated c s (feed_replication_backlog conditions x w cmd s)
  unfolding feed_replication_backlog
  Isolated-feed c conditions x w cmd s =
      either_way (Isolated c s) (conditions.repl_inited && not x.flags.no_wal && x.dirty && w)
        (record s { replicated = s.replicated ++ ((x.ns, cmd) ∷ []) }) s
        (Isolated-apart c s _ refl refl) (Isolated-refl c s)

  pub Isolated-publish :
      (c : ℕ) (matches : List ℕ → List ℕ → Bool) (args : List (List ℕ)) (s : Server S)
      → Isolated c s (publish matches args s).0
  unfolding publish
  Isolated-publish c matches [] s = Isolated-refl c s
  Isolated-publish c matches (channel ∷ []) s = Isolated-refl c s
  Isolated-publish c matches (channel ∷ message ∷ more) s = Isolated-apart c s _ refl refl

module _ {S : Type 0} (commands : Commands S) (c d : ℕ) (other : (c == d) ≡ false) where
  Isolated-handle_data :
      (cmd : RedisCommandFrame) (s : Server S) → Isolated c s (handle_data commands d cmd s).0
  unfolding handle_data
  Isolated-handle_data cmd s =
      let e = commands.handler (s.contexts d).ns (s.contexts d).flags cmd s.store in
      Isolated-trans c s (record s { store = e.store }) _ (Isolated-apart c s _ refl refl)
        (Isolated-trans c _ _ _ (Isolated-set_context c d _ _ other) (
          Isolated-trans c _ _ _ (Isolated-touch_keys c e.touched _)
            (Isolated-flush_all c e.flushed _)))

  Isolated-post :
      (s : Server S) (r : Server S × List (ℕ × RedisReply))
      → Isolated c s r.0
      → Isolated c s (post r).0
  unfolding post
  Isolated-post s r h = Isolated-trans c s r.0 _ h (Isolated-apart c r.0 _ refl refl)

  Isolated-handle :
      (on_exec : ℕ → Server S → Server S × RedisReply) (type : RedisCommandType)
      (cmd : RedisCommandFrame) (s : Server S)
      → Isolated c s (on_exec d s).0
      → Isolated c s (handle commands on_exec type d cmd s).0
  unfolding handle
  Isolated-handle on_exec cmd_multi cmd s h = Isolated-multi c d other s
  Isolated-handle on_exec cmd_discard cmd s h = Isolated-discard c d other s
  Isolated-handle on_exec cmd_exec cmd s h = h
  Isolated-handle on_exec cmd_watch cmd s h = Isolated-watch c d other cmd.arguments s
  Isolated-handle on_exec cmd_unwatch cmd s h = Isolated-unwatch c d other s
  Isolated-handle on_exec cmd_subscribe cmd s h =
      Isolated-post s _ (Isolated-subscribe c d other cmd.arguments false s)
  Isolated-handle on_exec cmd_unsubscribe cmd s h =
      Isolated-post s _ (Isolated-unsubscribe c d other cmd.arguments false s)
  Isolated-handle on_exec cmd_psubscribe cmd s h =
      Isolated-post s _ (Isolated-subscribe c d other cmd.arguments true s)
  Isolated-handle on_exec cmd_punsubscribe cmd s h =
      Isolated-post s _ (Isolated-unsubscribe c d other cmd.arguments true s)
  Isolated-handle on_exec cmd_publish cmd s h = Isolated-publish c commands.matches cmd.arguments s
  Isolated-handle on_exec cmd_quit cmd s h = Isolated-refl c s
  Isolated-handle on_exec cmd_auth cmd s h = Isolated-handle_data cmd s
  Isolated-handle on_exec cmd_del cmd s h = Isolated-handle_data cmd s
  Isolated-handle on_exec (cmd_other n) cmd s h = Isolated-handle_data cmd s

  Isolated-do_call :
      (conditions : Conditions) (on_exec : ℕ → Server S → Server S × RedisReply)
      (setting : RedisCommandHandlerSetting) (cmd : RedisCommandFrame) (s : Server S)
      → Isolated c s (on_exec d s).0
      → Isolated c s (do_call commands conditions on_exec d setting cmd s).0
  unfolding do_call
  Isolated-do_call conditions on_exec setting cmd s h =
      Isolated-trans c s (handle commands on_exec setting.type d cmd s).0 _
        (Isolated-handle on_exec setting.type cmd s h)
        (Isolated-feed c conditions _ setting.is_write_command cmd _)

  Isolated-call_queued :
      (conditions : Conditions) (cmd : RedisCommandFrame) (s : Server S)
      → Isolated c s (call_queued commands conditions d cmd s).0
  unfolding call_queued
  Isolated-call_queued conditions cmd s =
      either_option (λ (r : Server S × RedisReply). Isolated c s r.0) (find_setting commands cmd) _
        _ (Isolated-refl c s)
        (λ setting. Isolated-do_call conditions _ setting (lowered cmd) s (Isolated-refl c s))

  pub Isolated-run_cached :
      (conditions : Conditions) (cmds : List RedisCommandFrame) (s : Server S)
      → Isolated c s (run_cached (is_known commands) (call_queued commands conditions) d cmds s).0
  unfolding run_cached
  Isolated-run_cached conditions [] s = Isolated-refl c s
  Isolated-run_cached conditions (cmd ∷ cmds) s =
      Isolated-trans c s _ _
        (either_way (λ (r : Server S × RedisReply). Isolated c s r.0) (is_known commands cmd) _ _
          (Isolated-call_queued conditions cmd s) (Isolated-refl c s))
        (Isolated-run_cached conditions cmds _)

-- EXEC of the other client writes the context at `transc_ctx` as well.
module _ {S : Type 0} (commands : Commands S) (conditions : Conditions) (c d transc_ctx : ℕ)
    (other : (c == d) ≡ false) (elsewhere : (c == transc_ctx) ≡ false) where
  Isolated-exec_command :
      (s : Server S) → Isolated c s (exec_command commands conditions transc_ctx d s).0
  unfolding exec_command exec
  Isolated-exec_command s =
      either_way (λ (r : Server S × RedisReply). Isolated c s r.0) (in_transaction (s.contexts d)) _
        _
        (either_way (λ (r : Server S × RedisReply). Isolated c s r.0)
          ((get_transaction (s.contexts d)).aborted || (get_transaction (s.contexts d)).cas) _ _
          (Isolated-discard_transaction c d other s)
          (Isolated-trans c s _ _
            (Isolated-trans c s _ _
              (Isolated-trans c s _ _
                (Isolated-trans c s _ _ (Isolated-unwatch_keys c d other s)
                  (Isolated-set_context c transc_ctx _ _ elsewhere))
                (Isolated-run_cached commands c transc_ctx elsewhere conditions _ _))
              (Isolated-set_context c d _ _ other))
            (Isolated-discard_transaction c d other _)))
        (Isolated-refl c s)

  Isolated-refuse :
      (refusal : Bool × RedisReply) (s : Server S) → Isolated c s (refuse d refusal s).0
  unfolding refuse
  Isolated-refuse (aborts, reply) s =
      either_way (Isolated c s) aborts _ s (Isolated-set_context c d _ s other) (Isolated-refl c s)

  Isolated-queue_or_run :
      (setting : RedisCommandHandlerSetting) (cmd : RedisCommandFrame) (s : Server S)
      → Isolated c s (queue_or_run commands conditions transc_ctx d setting cmd s).0
  unfolding queue_or_run
  Isolated-queue_or_run setting cmd s =
      either_way (λ (r : Server S × RedisReply). Isolated c s r.0) (in_transaction (s.contexts d)) _
        _
        (either_way (λ (r : Server S × RedisReply). Isolated c s r.0) (runs_in_multi setting.type) _
          _ run (Isolated-set_context c d _ s other))
        (either_way (λ (r : Server S × RedisReply). Isolated c s r.0)
          (is_subscribed (s.contexts d) && not (runs_subscribed setting.type)) _ _
          (Isolated-refl c s) run)
    where
      run :
          Isolated c s
            (do_call commands conditions
              (exec_command commands conditions transc_ctx)
              d
              setting
              cmd
              s).0
      run =
          Isolated-do_call commands c d other conditions
            (exec_command commands conditions transc_ctx) setting cmd s (Isolated-exec_command s)

  -- A call of another client, whatever its command, leaves a client among those that watch each
  -- key, and keeps its transaction, started or not, aborted or not, with the commands that are
  -- queued; the mark that a watched key has changed may be set but is not taken away. The context
  -- that EXEC makes must not be the client's.
  pub Isolated-call :
      (cmd : RedisCommandFrame) (s : Server S)
      → Isolated c s (call commands conditions transc_ctx d cmd s).0
  unfolding call call_found
  Isolated-call cmd s =
      either_option (λ (r : Server S × RedisReply). Isolated c s r.0) (find_setting commands cmd) _
        _ (Isolated-refuse _ s)
        (λ setting.
          either_option (λ (r : Server S × RedisReply). Isolated c s r.0)
            (refused_first conditions setting cmd (s.contexts d)) _ _
            (either_option (λ (r : Server S × RedisReply). Isolated c s r.0)
              (refused_then conditions setting (s.contexts d)) _ _
              (Isolated-trans c s _ _ (marked_no_wal setting)
                (Isolated-queue_or_run setting (lowered cmd) _))
              (λ refusal.
                Isolated-trans c s _ _ (marked_no_wal setting) (Isolated-refuse refusal _)))
            (λ refusal. Isolated-refuse refusal s))
    where
      marked_no_wal :
          (setting : RedisCommandHandlerSetting)
          → Isolated c s (set_context d (mark_no_wal conditions setting (s.contexts d)) s)
      marked_no_wal setting = Isolated-set_context c d _ s other
