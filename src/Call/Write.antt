-- ===== src/Call/Write.antt =====
-- A command on data that is executed at once, and the marks that its writes leave.
use ardb.Prelude.{
  refl, ℕ, ◌≡◌, subst, ap, ◌∙◌, inl, inr, true, false, none, some, List, [], ◌∷◌, arith, Bool-cases,
}
use ardb.Tree.Set
use ardb.Tree.Laws.{same-eq}
use ardb.Context.{
  KeyPrefix, key_prefix_order, RedisCommandFrame, Context, in_transaction, is_subscribed, Server,
  set_context, RedisReply,
}
use ardb.Context.Laws.{context_there}
use ardb.Transaction.{touch_watch_key, watched_table}
use ardb.Transaction.Watched.{watches, watches-set_context}
use ardb.Transaction.Marked.{is_marked, marked-touch_watch_key}
use ardb.Call.{
  is_data_type, cmd_multi, cmd_discard, cmd_exec, cmd_watch, cmd_unwatch, cmd_subscribe,
  cmd_unsubscribe, cmd_psubscribe, cmd_punsubscribe, cmd_publish, cmd_quit, cmd_auth, cmd_del,
  RedisCommandType, RedisCommandHandlerSetting, Conditions, Commands, cmd_other, lowered,
  find_setting, touch_keys, handle_data, handle, do_call, exec_command, refused_first, refused_then,
  mark_no_wal, queue_or_run, call_found, call,
}
use ardb.Call.Isolated.{Isolated-touch_watch_key}
use ardb.Call.Others.{Isolated-touch_keys, Isolated-flush_all, Isolated-feed}
use ardb.Call.Held.{call-call_found}

marked-touch_keys :
    {S : Type 0} (c : ℕ) (k : KeyPrefix) (ks : List KeyPrefix) (s : Server S)
    → Set.has k ks ≡ true
    → watches s c k ≡ true
    → is_marked (touch_keys ks s) c ≡ true
unfolding touch_keys Set.has
marked-touch_keys c k [] s h w = cc
marked-touch_keys c k (i ∷ ks) s h w = elim (Bool-cases (Set.has k ks)) [
  | inl e ↦
      marked-touch_keys c k ks (touch_watch_key i s) e
        ((Isolated-touch_watch_key c i s).watched k w)
  | inr n ↦ (Isolated-touch_keys c ks (touch_watch_key i s)).marked (
      marked-touch_watch_key c i s
        (subst (λ j. watches s c j ≡ true) (same-eq k i (ground arith)) w))
]

still_in_transaction :
    (conditions : Conditions) (setting : RedisCommandHandlerSetting) (x : Context)
    → in_transaction (mark_no_wal conditions setting x) ≡ in_transaction x
unfolding mark_no_wal in_transaction
still_in_transaction conditions setting x = ground arith

still_subscribed :
    (conditions : Conditions) (setting : RedisCommandHandlerSetting) (x : Context)
    → is_subscribed (mark_no_wal conditions setting x) ≡ is_subscribed x
unfolding mark_no_wal is_subscribed
still_subscribed conditions setting x = ground arith

module _ {S : Type 0} (commands : Commands S) where
  marked-handle_data :
      (c d : ℕ) (k : KeyPrefix) (cmd : RedisCommandFrame) (s : Server S)
      → watches s c k ≡ true
      → Set.has k (commands.handler (s.contexts d).ns (s.contexts d).flags cmd s.store).touched
        ≡ true
      → is_marked (handle_data commands d cmd s).0 c ≡ true
  unfolding handle_data watched_table
  marked-handle_data c d k cmd s w h =
      let e = commands.handler (s.contexts d).ns (s.contexts d).flags cmd s.store in
      (Isolated-flush_all c e.flushed _).marked (
        marked-touch_keys c k e.touched _ h
          (watches-set_context d c _ k (record s { store = e.store }) ∙ w))

module _ {S : Type 0} (commands : Commands S) (conditions : Conditions) (transc_ctx : ℕ) where
  -- The call executes a write of a key by a command on data: nothing refuses or queues it, and the key
  -- is among those that its handler touches.
  pub record IsWrite (d : ℕ) (cmd : RedisCommandFrame) (k : KeyPrefix) (s : Server S) : Type 0 where
    pub setting : RedisCommandHandlerSetting
    pub found : find_setting commands cmd ≡ some setting
    pub on_data : is_data_type setting.type ≡ true
    pub accepted_first : refused_first conditions setting cmd (s.contexts d) ≡ none
    pub accepted_then : refused_then conditions setting (s.contexts d) ≡ none
    pub not_queued : in_transaction (s.contexts d) ≡ false
    pub not_subscribed : is_subscribed (s.contexts d) ≡ false
    pub touches :
        let x = mark_no_wal conditions setting (s.contexts d) in
        Set.has k (commands.handler x.ns x.flags (lowered cmd) s.store).touched ≡ true

  -- The server when the handler starts.
  abbrev pub handled_from : RedisCommandHandlerSetting → ℕ → Server S → Server S
  handled_from setting d s = set_context d (mark_no_wal conditions setting (s.contexts d)) s

  pub accepted :
      (d : ℕ) (setting : RedisCommandHandlerSetting) (cmd : RedisCommandFrame) (s : Server S)
      → refused_first conditions setting cmd (s.contexts d) ≡ none
      → refused_then conditions setting (s.contexts d) ≡ none
      → call_found commands conditions transc_ctx d setting cmd s
        ≡ queue_or_run commands conditions transc_ctx d setting
            (lowered cmd)
            (handled_from setting d s)
  unfolding call_found
  accepted d setting cmd s e f = ground arith

  idle :
      (d : ℕ) (setting : RedisCommandHandlerSetting) (cmd : RedisCommandFrame) (s : Server S)
      → in_transaction (s.contexts d) ≡ false
      → is_subscribed (s.contexts d) ≡ false
      → queue_or_run commands conditions transc_ctx d setting cmd s
        ≡ do_call commands conditions (exec_command commands conditions transc_ctx) d setting cmd s
  unfolding queue_or_run
  idle d setting cmd s e f = ground arith

  pub on_data_handled :
      (on_exec : ℕ → Server S → Server S × RedisReply) (d : ℕ) (type : RedisCommandType)
      (cmd : RedisCommandFrame) (s : Server S)
      → is_data_type type ≡ true
      → handle commands on_exec type d cmd s ≡ handle_data commands d cmd s
  unfolding handle is_data_type
  on_data_handled on_exec d cmd_del cmd s e = refl
  on_data_handled on_exec d (cmd_other n) cmd s e = refl
  on_data_handled on_exec d cmd_multi cmd s e = cc
  on_data_handled on_exec d cmd_discard cmd s e = cc
  on_data_handled on_exec d cmd_exec cmd s e = cc
  on_data_handled on_exec d cmd_watch cmd s e = cc
  on_data_handled on_exec d cmd_unwatch cmd s e = cc
  on_data_handled on_exec d cmd_subscribe cmd s e = cc
  on_data_handled on_exec d cmd_unsubscribe cmd s e = cc
  on_data_handled on_exec d cmd_psubscribe cmd s e = cc
  on_data_handled on_exec d cmd_punsubscribe cmd s e = cc
  on_data_handled on_exec d cmd_publish cmd s e = cc
  on_data_handled on_exec d cmd_quit cmd s e = cc
  on_data_handled on_exec d cmd_auth cmd s e = cc

  pub marked-do_call :
      (on_exec : ℕ → Server S → Server S × RedisReply) (c d : ℕ) (k : KeyPrefix)
      (setting : RedisCommandHandlerSetting) (cmd : RedisCommandFrame) (s : Server S)
      → is_data_type setting.type ≡ true
      → watches s c k ≡ true
      → Set.has k (commands.handler (s.contexts d).ns (s.contexts d).flags cmd s.store).touched
        ≡ true
      → is_marked (do_call commands conditions on_exec d setting cmd s).0 c ≡ true
  unfolding do_call
  marked-do_call on_exec c d k setting cmd s e w h =
      (Isolated-feed c conditions _ setting.is_write_command cmd _).marked (
        rw (on_data_handled on_exec d setting.type cmd s e)
          (marked-handle_data commands c d k cmd s w h))

  -- A write marks every context that watches its key.
  pub marked-call :
      (c d : ℕ) (k : KeyPrefix) (cmd : RedisCommandFrame) (s : Server S)
      → IsWrite d cmd k s
      → watches s c k ≡ true
      → is_marked (call commands conditions transc_ctx d cmd s).0 c ≡ true
  unfolding set_context
  marked-call c d k cmd s h w =
      let x = mark_no_wal conditions h.setting (s.contexts d) in
      let there = context_there d x s in
      rw (call-call_found commands d conditions transc_ctx h.setting cmd s h.found) (
        rw (accepted d h.setting cmd s h.accepted_first h.accepted_then) (
          rw
            (idle d h.setting (lowered cmd) (handled_from h.setting d s)
              (ap in_transaction there
                ∙ still_in_transaction conditions h.setting (s.contexts d)
                ∙ h.not_queued)
              (ap is_subscribed there
                ∙ still_subscribed conditions h.setting (s.contexts d)
                ∙ h.not_subscribed))
            (marked-do_call (exec_command commands conditions transc_ctx) c d k h.setting
              (lowered cmd) (handled_from h.setting d s) h.on_data
              (watches-set_context d c x k s ∙ w)
              (ap
                  (λ (y : Context).
                    Set.has k (commands.handler y.ns y.flags (lowered cmd) s.store).touched)
                  there
                ∙ h.touches))))
