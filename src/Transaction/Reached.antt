-- ===== src/Transaction/Reached.antt =====
-- The states that transactions reach from a server that has just started.
use ardb.Prelude.{ℕ, ◌≡◌, true, false, Option, none, List, arith}
use ardb.Context.{KeyPrefix, Server}
use ardb.Transaction.{
  multi, discard, watch, unwatch, unwatch_keys, discard_transaction, touch_watch_key,
  touch_watched_keys_on_flush, watched_table,
}
use ardb.Transaction.Watched.{watches, remembers, Agree, holds_in_none, Agree-unwatch_keys}
use ardb.Transaction.Kept.{
  Agree-multi, Agree-discard, Agree-watch, Agree-unwatch, Agree-discard_transaction,
  Agree-touch_watch_key, Agree-touch_watched_keys_on_flush,
}

-- One operation of src/command/transaction.cpp, by some client.
pub data Step {S : Type 0} : Server S → Server S → Type 0 where
  multi_step : (c : ℕ) (s : Server S) → Step s (multi c s).0
  discard_step : (c : ℕ) (s : Server S) → Step s (discard c s).0
  watch_step : (c : ℕ) (keys : List (List ℕ)) (s : Server S) → Step s (watch c keys s).0
  unwatch_step : (c : ℕ) (s : Server S) → Step s (unwatch c s).0
  unwatch_keys_step : (c : ℕ) (s : Server S) → Step s (unwatch_keys c s)
  discard_transaction_step : (c : ℕ) (s : Server S) → Step s (discard_transaction c s)
  touch_step : (k : KeyPrefix) (s : Server S) → Step s (touch_watch_key k s)
  flush_step : (ns : Option (List ℕ)) (s : Server S) → Step s (touch_watched_keys_on_flush ns s)

pub data Reach {S : Type 0} (s : Server S) : Server S → Type 0 where
  here : Reach s s
  next : {t u : Server S} → Reach s t → Step t u → Reach s u

Step-Agree : {S : Type 0} {s t : Server S} → Step s t → Agree s → Agree t
Step-Agree (multi_step c s) h = Agree-multi c s h
Step-Agree (discard_step c s) h = Agree-discard c s h
Step-Agree (watch_step c keys s) h = Agree-watch c keys s h
Step-Agree (unwatch_step c s) h = Agree-unwatch c s h
Step-Agree (unwatch_keys_step c s) h = Agree-unwatch_keys c s h
Step-Agree (discard_transaction_step c s) h = Agree-discard_transaction c s h
Step-Agree (touch_step k s) h = Agree-touch_watch_key k s h
Step-Agree (flush_step ns s) h = Agree-touch_watched_keys_on_flush ns s h

nobody_watches :
    {S : Type 0} (s : Server S) (c : ℕ) (k : KeyPrefix)
    → s.watched_ctxs ≡ none
    → watches s c k ≡ false
unfolding watched_table
nobody_watches s c k e = ground (arith, holds_in_none k c)

Reach-Agree : {S : Type 0} {s t : Server S} → Agree s → Reach s t → Agree t
Reach-Agree h here = h
Reach-Agree h (next r st) = Step-Agree st (Reach-Agree h r)

-- From a server with no table of watched keys, after any sequence of MULTI, DISCARD, WATCH,
-- UNWATCH, touched keys and flushes of any clients, a client that the table has among those that
-- watch a key has the key in its own set.
pub watches-remembers :
    {S : Type 0} {s t : Server S}
    → s.watched_ctxs ≡ none
    → Reach s t
    → (c : ℕ) (k : KeyPrefix) → watches t c k ≡ true
    → remembers t c k ≡ true
watches-remembers {s} e r c k = Reach-Agree start r c k
  where
    start : Agree s
    start c k h = ground (arith, nobody_watches s c k e)
