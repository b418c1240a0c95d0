-- ===== src/Call/Stale.antt =====
-- What UNWATCH and a WATCH inside MULTI leave behind.
use ardb.Prelude.{
  ℕ, ◌≡◌, refl, sym, subst, ap, ◌∙◌, Bool, true, false, some, List, [], ◌∷◌, ◌==◌, arith,
}
use ardb.Tree.Laws.{same_refl}
use ardb.Context.{
  KeyPrefix, key_prefix_order, address_order, RedisCommandFrame, TransactionContext, Context,
  new_context, in_transaction, get_transaction, Server, set_context, RedisReply, no_members,
  error_reason, exec_without_multi,
}
use ardb.Context.Laws.{context_there, in_transaction_there, get_transaction_there}
use ardb.Transaction.{multi, watch, watch_each, unwatch, unwatch_keys, exec, run_cached}
use ardb.Transaction.Watched.{watches, contexts-unwatch_keys}
use ardb.Transaction.Kept.{watches-watch_for_key}
use ardb.Call.{
  RedisCommandHandlerSetting, Conditions, Commands, cmd_watch, lowered, find_setting, is_known,
  handle, do_call, call_queued, exec_command,
}
use ardb.Call.Isolated.{Isolated-trans, Isolated-set_context, Isolated-discard_transaction}
use ardb.Call.Sequential.{known, queued_called, exec_command_runs}
use ardb.Call.Others.{Isolated-feed}
use ardb.Transaction.Marked.{is_marked, exec_refused}

not_yet : (ns : List ℕ) → in_transaction (record new_context { ns = ns }) ≡ false
unfolding in_transaction
not_yet ns = refl

module _ {S : Type 0} where
  started_there :
      (c : ℕ) (s : Server S)
      → in_transaction (s.contexts c) ≡ false
      → (multi c s).0.contexts c ≡ record (s.contexts c) {
        transc = some (record (get_transaction (s.contexts c)) { started = true });
      }
  unfolding multi set_context
  started_there c s idle = ground arith

  contexts-unwatch : (c : ℕ) (s : Server S) → (unwatch c s).0.contexts ≡ s.contexts
  unfolding unwatch
  contexts-unwatch c s = contexts-unwatch_keys c s

module _ {S : Type 0} (find_setting : RedisCommandFrame → Bool)
    (do_call : ℕ → RedisCommandFrame → Server S → Server S × RedisReply) where
  -- A mark outlives UNWATCH: where a client outside a transaction is marked and not aborted,
  -- UNWATCH, then MULTI, then EXEC gives the reply of a refused transaction.
  pub unwatch-multi-exec :
      (transc_ctx c : ℕ) (s : Server S)
      → in_transaction (s.contexts c) ≡ false
      → (get_transaction (s.contexts c)).aborted ≡ false
      → is_marked s c ≡ true
      → (exec find_setting do_call transc_ctx c (multi c (unwatch c s).0).0).1 ≡ no_members
  unwatch-multi-exec transc_ctx c s idle a m =
      let u = (unwatch c s).0 in
      let tr = record (get_transaction (u.contexts c)) { started = true } in
      let same = ap (λ (f : ℕ → Context). f c) (contexts-unwatch c s) in
      let there = started_there c u (ap in_transaction same ∙ idle) in
      let got = ap get_transaction there ∙ get_transaction_there (u.contexts c) tr in
      let not_aborted =
        ap TransactionContext.aborted got
        ∙ ap (λ (x : Context). (get_transaction x).aborted) same
        ∙ a in
      let marked =
        ap TransactionContext.cas got ∙ ap (λ (x : Context). (get_transaction x).cas) same ∙ m in
      ap (λ (r : Server S × RedisReply). r.1)
        (exec_refused find_setting do_call transc_ctx c (multi c u).0
          (ap in_transaction there ∙ in_transaction_there (u.contexts c) tr) (ground arith))
      ∙ rw not_aborted refl

-- A WATCH that is queued is executed on the context that EXEC makes on its stack. Once EXEC has returned,
-- the table still names that context, which is no more.
module _ {S : Type 0} (commands : Commands S) (conditions : Conditions) where
  watched_one :
      (c : ℕ) (key : List ℕ) (s : Server S)
      → in_transaction (s.contexts c) ≡ false
      → watches (watch c (key ∷ []) s).0 c (record { ns = (s.contexts c).ns; key = key }) ≡ true
  unfolding watch watch_each
  watched_one c key s idle =
      let k : KeyPrefix = record { ns = (s.contexts c).ns; key = key } in
      rw idle (watches-watch_for_key c c key k s ∙ rw (same_refl k, same_refl c) refl)

  watch_queued :
      (c : ℕ) (key : List ℕ) (cmd : RedisCommandFrame) (setting : RedisCommandHandlerSetting)
      (s : Server S)
      → find_setting commands cmd ≡ some setting
      → setting.type ≡ cmd_watch
      → cmd.arguments ≡ key ∷ []
      → in_transaction (s.contexts c) ≡ false
      → watches
          (call_queued commands conditions c cmd s).0
          c
          (record { ns = (s.contexts c).ns; key = key })
        ≡ true
  unfolding do_call handle lowered
  watch_queued c key cmd setting s f t e idle =
      let k : KeyPrefix = record { ns = (s.contexts c).ns; key = key } in
      let on_exec : ℕ → Server S → Server S × RedisReply =
        λ d u. (u, error_reason exec_without_multi) in
      rw (queued_called commands conditions c cmd setting s f) (
        (Isolated-feed c conditions _ setting.is_write_command (lowered cmd) _).watched k (
          subst (λ type. watches (handle commands on_exec type c (lowered cmd) s).0 c k ≡ true)
            (sym t)
            (subst (λ keys. watches (watch c keys s).0 c k ≡ true) (sym e)
              (watched_one c key s idle))))

  one_cached :
      (c : ℕ) (key : List ℕ) (cmd : RedisCommandFrame) (setting : RedisCommandHandlerSetting)
      (s : Server S)
      → find_setting commands cmd ≡ some setting
      → setting.type ≡ cmd_watch
      → cmd.arguments ≡ key ∷ []
      → in_transaction (s.contexts c) ≡ false
      → watches
          (run_cached (is_known commands) (call_queued commands conditions) c (cmd ∷ []) s).0
          c
          (record { ns = (s.contexts c).ns; key = key })
        ≡ true
  unfolding run_cached
  one_cached c key cmd setting s f t e idle =
      rw (known commands cmd setting f) (watch_queued c key cmd setting s f t e idle)

  -- Where EXEC, of a client in a transaction that is neither aborted nor marked, executes a single
  -- queued WATCH of a key, the table of watched keys afterwards has, at that key, the address of
  -- the context that EXEC made on its stack.
  pub watch-exec_command :
      (transc_ctx c : ℕ) (key : List ℕ) (cmd : RedisCommandFrame)
      (setting : RedisCommandHandlerSetting) (s : Server S)
      → (transc_ctx == c) ≡ false
      → in_transaction (s.contexts c) ≡ true
      → (get_transaction (s.contexts c)).aborted ≡ false
      → is_marked s c ≡ false
      → (get_transaction (s.contexts c)).cached_cmds ≡ cmd ∷ []
      → find_setting commands cmd ≡ some setting
      → setting.type ≡ cmd_watch
      → cmd.arguments ≡ key ∷ []
      → watches
          (exec_command commands conditions transc_ctx c s).0
          transc_ctx
          (record { ns = (s.contexts c).ns; key = key })
        ≡ true
  watch-exec_command transc_ctx c key cmd setting s other i a m q f t e =
      let fresh : Context = record new_context { ns = (s.contexts c).ns } in
      let start = set_context transc_ctx fresh (unwatch_keys c s) in
      let there = context_there transc_ctx fresh (unwatch_keys c s) in
      let k : KeyPrefix = record { ns = (s.contexts c).ns; key = key } in
      let ran = run_cached (is_known commands) (call_queued commands conditions) transc_ctx in
      let one : watches (ran (cmd ∷ []) start).0 transc_ctx k ≡ true =
        subst
          (λ ns. watches (ran (cmd ∷ []) start).0 transc_ctx (record { ns = ns; key = key }) ≡ true)
          (ap Context.ns there)
          (one_cached transc_ctx key cmd setting start f t e
            (ap in_transaction there ∙ not_yet (s.contexts c).ns)) in
      rw (exec_command_runs commands conditions transc_ctx c s i a m) (
        (Isolated-trans transc_ctx _ _ _ (Isolated-set_context transc_ctx c _ _ other)
            (Isolated-discard_transaction transc_ctx c other _)).watched
          k (subst (λ cmds. watches (ran cmds start).0 transc_ctx k ≡ true) (sym q) one))
