-- ===== src/Call/Optimistic.antt =====
-- Optimistic locking: a transaction whose watched key was written runs nothing, whatever calls come
-- between.
use ardb.Prelude.{ℕ, ◌≡◌, Bool, true, none, some, List, [], ◌∷◌, not, ◌||◌, ◌==◌}
use ardb.Context.{
  clear_state, set_context, KeyPrefix, key_prefix_order, RedisCommandFrame, Server, RedisReply,
}
use ardb.Call.{Conditions, Commands, find_setting, call}
use ardb.Call.Write.{IsWrite}
use ardb.Call.ExecWrite.{IsExecWrite}
use ardb.Call.Held.{Held, keeps_watched}

module _ {S : Type 0} (commands : Commands S) (conditions : Conditions) (transc_ctx : ℕ) where
  -- A request: the call, then `ClearState` of its context.
  unfoldable pub message_received : ℕ → RedisCommandFrame → Server S → Server S
  message_received d cmd s =
      let called = (call commands conditions transc_ctx d cmd s).0 in
      set_context d (clear_state (called.contexts d)) called

  -- The requests of the clients, one after another.
  unfoldable pub run_calls : List (ℕ × RedisCommandFrame) → Server S → Server S
  run_calls [] s = s
  run_calls ((d, cmd) ∷ calls) s = run_calls calls (message_received d cmd s)

  -- A call by another client, or one that leaves the caller's watched keys alone.
  unfoldable pub leaves_watched : ℕ → ℕ × RedisCommandFrame → Bool
  leaves_watched c (d, cmd) = not (c == d) || elim (find_setting commands cmd) [
    | none ↦ true
    | some setting ↦ keeps_watched setting.type
  ]

  -- EXEC ran no command: the store, the messages and the replication log are as before.
  pub record RanNothing (s : Server S) (r : Server S × RedisReply) : Type 0 where
    pub same_store : r.0.store ≡ s.store
    pub same_sent : r.0.sent ≡ s.sent
    pub same_replicated : r.0.replicated ≡ s.replicated

  -- The call writes the key: by a command on data that it runs at once, or, as EXEC, by a queued one.
  pub data Writes (d : ℕ) (cmd : RedisCommandFrame) (k : KeyPrefix) (s : Server S) : Type 0 where
    at_once : IsWrite commands conditions transc_ctx d cmd k s → Writes d cmd k s
    by_exec : IsExecWrite commands conditions transc_ctx d cmd k s → Writes d cmd k s
