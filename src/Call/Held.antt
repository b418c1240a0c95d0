-- ===== src/Call/Held.antt =====
-- The client's own calls that leave its watched keys and its mark alone.
use ardb.Prelude.{
  ℕ, ◌≡◌, refl, ap, ◌∙◌, Bool, true, false, none, some, List, [], ◌∷◌, arith, either_way,
  either_option,
}
use ardb.Context.{
  clear_state, KeyPrefix, key_prefix_order, RedisCommandFrame, TransactionContext, Context,
  in_transaction, get_transaction, abort_transaction, Server, set_context, RedisReply, error_reason,
  unknown_command,
}
use ardb.Context.Laws.{get_transaction_there, context_at}
use ardb.Transaction.{multi, watch, watch_each, watch_for_key, add_watched}
use ardb.Transaction.Watched.{watches, watches-set_context}
use ardb.Transaction.Kept.{watches-watch_for_key}
use ardb.Transaction.Marked.{is_marked}
use ardb.Call.{
  RedisCommandType, RedisCommandHandlerSetting, Conditions, Commands, cmd_multi, cmd_discard,
  cmd_exec, cmd_watch, cmd_unwatch, cmd_subscribe, cmd_unsubscribe, cmd_psubscribe,
  cmd_punsubscribe, cmd_publish, cmd_quit, cmd_auth, cmd_del, cmd_other, lowered, find_setting,
  handle_data, handle, do_call, exec_command, refused_first, refused_then, mark_no_wal, refuse,
  queue, queue_or_run, call_found, call,
}
use ardb.Call.Isolated.{Isolated, Isolated-trans, Isolated-apart}
use ardb.Call.Others.{Isolated-touch_keys, Isolated-flush_all, Isolated-feed, Isolated-publish}

mark-abort_transaction :
    (x : Context) → (get_transaction (abort_transaction x)).cas ≡ (get_transaction x).cas
unfolding get_transaction abort_transaction
mark-abort_transaction x = ground arith

-- From `s` to `t`, the client stays among those that watch each key, and stays marked.
pub record Held {S : Type 0} (c : ℕ) (s t : Server S) : Type 0 where
  pub still_watches : (k : KeyPrefix) → watches s c k ≡ true → watches t c k ≡ true
  pub still_marked : is_marked s c ≡ true → is_marked t c ≡ true

module _ {S : Type 0} (c : ℕ) where
  pub Held-refl : (s : Server S) → Held c s s
  Held-refl s = record { still_watches = λ k h. h; still_marked = λ h. h }

  pub Held-trans : (s t u : Server S) → Held c s t → Held c t u → Held c s u
  Held-trans s t u a b = record {
    still_watches = λ k h. b.still_watches k (a.still_watches k h);
    still_marked = λ h. b.still_marked (a.still_marked h);
  }

  pub Held-Isolated : (s t : Server S) → Isolated c s t → Held c s t
  Held-Isolated s t h = record { still_watches = h.watched; still_marked = h.marked }

  -- The client's own context, written with its mark kept.
  Held-set_context :
      (x : Context) (s : Server S)
      → (get_transaction x).cas ≡ (get_transaction (s.contexts c)).cas
      → Held c s (set_context c x s)
  Held-set_context x s e = record {
    still_watches = λ k h. watches-set_context c c x k s ∙ h;
    still_marked = λ h. ground (arith, context_at c c x s);
  }

  Held-set_transaction :
      (x : Context) (tr : TransactionContext) (s : Server S)
      → tr.cas ≡ (get_transaction (s.contexts c)).cas
      → Held c s (set_context c (record x { transc = some tr }) s)
  Held-set_transaction x tr s e =
      Held-set_context (record x { transc = some tr }) s
        (ap TransactionContext.cas (get_transaction_there x tr) ∙ e)

  Held-multi : (s : Server S) → Held c s (multi c s).0
  unfolding multi
  Held-multi s =
      either_way (λ (r : Server S × RedisReply). Held c s r.0) (in_transaction (s.contexts c)) _ _
        (Held-refl s) (Held-set_transaction (s.contexts c) _ s refl)

  marked-watch_for_key :
      (key : List ℕ) (s : Server S)
      → is_marked s c ≡ true
      → is_marked (watch_for_key c key s) c ≡ true
  unfolding watch_for_key add_watched set_context get_transaction
  marked-watch_for_key key s h = ground arith

  Held-watch_each : (keys : List (List ℕ)) (s : Server S) → Held c s (watch_each c keys s)
  unfolding watch_each
  Held-watch_each [] s = Held-refl s
  Held-watch_each (key ∷ keys) s =
      Held-trans s (watch_for_key c key s) _
        (record {
          still_watches = λ k h. ground (arith, watches-watch_for_key c c key k s);
          still_marked = marked-watch_for_key key s;
        })
        (Held-watch_each keys (watch_for_key c key s))

  Held-watch : (keys : List (List ℕ)) (s : Server S) → Held c s (watch c keys s).0
  unfolding watch
  Held-watch keys s =
      either_way (λ (r : Server S × RedisReply). Held c s r.0) (in_transaction (s.contexts c)) _ _
        (Held-refl s) (Held-watch_each keys s)

  Held-refuse : (refusal : Bool × RedisReply) (s : Server S) → Held c s (refuse c refusal s).0
  unfolding refuse
  Held-refuse (aborts, reply) s =
      either_way (Held c s) aborts _ s
        (Held-set_context _ s (mark-abort_transaction (s.contexts c))) (Held-refl s)

  Held-mark_no_wal :
      (conditions : Conditions) (setting : RedisCommandHandlerSetting) (s : Server S)
      → Held c s (set_context c (mark_no_wal conditions setting (s.contexts c)) s)
  unfolding mark_no_wal get_transaction
  Held-mark_no_wal conditions setting s = Held-set_context _ s (ground arith)

module _ {S : Type 0} (c : ℕ) where
  pub Held-clear_state : (s : Server S) → Held c s (set_context c (clear_state (s.contexts c)) s)
  unfolding clear_state get_transaction
  Held-clear_state s = Held-set_context c _ s refl

-- The commands that leave the caller's watched keys alone, those of subscriptions left out.
abbrev pub keeps_watched : RedisCommandType → Bool
keeps_watched cmd_multi = true
keeps_watched cmd_watch = true
keeps_watched cmd_publish = true
keeps_watched cmd_quit = true
keeps_watched cmd_auth = true
keeps_watched cmd_del = true
keeps_watched (cmd_other n) = true
keeps_watched type = false

module _ {S : Type 0} (commands : Commands S) (c : ℕ) where
  Held-handle_data :
      (cmd : RedisCommandFrame) (s : Server S) → Held c s (handle_data commands c cmd s).0
  unfolding handle_data get_transaction
  Held-handle_data cmd s =
      let e = commands.handler (s.contexts c).ns (s.contexts c).flags cmd s.store in
      Held-trans c s (record s { store = e.store }) _
        (Held-Isolated c s _ (Isolated-apart c s _ refl refl))
        (Held-trans c _ _ _ (Held-set_context c _ _ refl) (
          Held-Isolated c _ _ (
            Isolated-trans c _ _ _ (Isolated-touch_keys c e.touched _)
              (Isolated-flush_all c e.flushed _))))

  Held-handle :
      (on_exec : ℕ → Server S → Server S × RedisReply) (type : RedisCommandType)
      (cmd : RedisCommandFrame) (s : Server S)
      → keeps_watched type ≡ true
      → Held c s (handle commands on_exec type c cmd s).0
  unfolding handle
  Held-handle on_exec cmd_multi cmd s k = Held-multi c s
  Held-handle on_exec cmd_discard cmd s k = cc
  Held-handle on_exec cmd_exec cmd s k = cc
  Held-handle on_exec cmd_watch cmd s k = Held-watch c cmd.arguments s
  Held-handle on_exec cmd_unwatch cmd s k = cc
  Held-handle on_exec cmd_subscribe cmd s k = cc
  Held-handle on_exec cmd_unsubscribe cmd s k = cc
  Held-handle on_exec cmd_psubscribe cmd s k = cc
  Held-handle on_exec cmd_punsubscribe cmd s k = cc
  Held-handle on_exec cmd_publish cmd s k =
      Held-Isolated c s _ (Isolated-publish c commands.matches cmd.arguments s)
  Held-handle on_exec cmd_quit cmd s k = Held-refl c s
  Held-handle on_exec cmd_auth cmd s k = Held-handle_data cmd s
  Held-handle on_exec cmd_del cmd s k = Held-handle_data cmd s
  Held-handle on_exec (cmd_other n) cmd s k = Held-handle_data cmd s

  module _ (conditions : Conditions) (transc_ctx : ℕ) where
    Held-queue_or_run :
        (setting : RedisCommandHandlerSetting) (cmd : RedisCommandFrame) (s : Server S)
        → keeps_watched setting.type ≡ true
        → Held c s (queue_or_run commands conditions transc_ctx c setting cmd s).0
    unfolding queue_or_run do_call queue
    Held-queue_or_run setting cmd s k =
        either_way (λ (r : Server S × RedisReply). Held c s r.0) (in_transaction (s.contexts c)) _ _
          (either_way (λ (r : Server S × RedisReply). Held c s r.0) _ _ _ run
            (Held-set_transaction c (s.contexts c) _ s refl))
          (either_way (λ (r : Server S × RedisReply). Held c s r.0) _ _ _ (Held-refl c s) run)
      where
        run :
            Held c s
              (do_call commands conditions
                (exec_command commands conditions transc_ctx)
                c
                setting
                cmd
                s).0
        run =
            Held-trans c s
              (handle commands (exec_command commands conditions transc_ctx) setting.type c cmd s).0
              _ (Held-handle (exec_command commands conditions transc_ctx) setting.type cmd s k)
              (Held-Isolated c _ _ (Isolated-feed c conditions _ setting.is_write_command cmd _))

    pub call-call_found :
        (setting : RedisCommandHandlerSetting) (cmd : RedisCommandFrame) (s : Server S)
        → find_setting commands cmd ≡ some setting
        → call commands conditions transc_ctx c cmd s
          ≡ call_found commands conditions transc_ctx c setting cmd s
    unfolding call
    call-call_found setting cmd s e = ground arith

    call_unknown :
        (cmd : RedisCommandFrame) (s : Server S)
        → find_setting commands cmd ≡ none
        → call commands conditions transc_ctx c cmd s
          ≡ refuse c (true, error_reason unknown_command) s
    unfolding call
    call_unknown cmd s e = ground arith

    pub Held-call :
        (setting : RedisCommandHandlerSetting) (cmd : RedisCommandFrame) (s : Server S)
        → find_setting commands cmd ≡ some setting
        → keeps_watched setting.type ≡ true
        → Held c s (call commands conditions transc_ctx c cmd s).0
    unfolding call_found
    Held-call setting cmd s e k = rw (call-call_found setting cmd s e) (
        either_option (λ (r : Server S × RedisReply). Held c s r.0)
          (refused_first conditions setting cmd (s.contexts c)) _ _
          (either_option (λ (r : Server S × RedisReply). Held c s r.0)
            (refused_then conditions setting (s.contexts c)) _ _
            (Held-trans c s _ _ (Held-mark_no_wal c conditions setting s)
              (Held-queue_or_run setting (lowered cmd) _ k))
            (λ refusal.
              Held-trans c s _ _ (Held-mark_no_wal c conditions setting s)
                (Held-refuse c refusal _)))
          (λ refusal. Held-refuse c refusal s))

    pub Held-unknown :
        (cmd : RedisCommandFrame) (s : Server S)
        → find_setting commands cmd ≡ none
        → Held c s (call commands conditions transc_ctx c cmd s).0
    Held-unknown cmd s e = rw (call_unknown cmd s e) (Held-refuse c _ s)
