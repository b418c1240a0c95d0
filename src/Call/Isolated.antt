-- ===== src/Call/Isolated.antt =====
-- What a step of one client leaves of another client's transaction: the record `Isolated`, and the
-- operations of src/command/transaction.cpp and src/command/pubsub.cpp that keep it.
use ardb.Prelude.{
  either_way, either_option, ℕ, ◌≡◌, refl, ap, ◌∙◌, true, false, Option, List, [], ◌∷◌, ◌==◌,
  if◌then◌else◌, arith,
}
use ardb.Tree.{is_empty}
use ardb.Tree.Table
use ardb.Context.{
  KeyPrefix, key_prefix_order, bytes_order, address_order, TransactionContext, Context,
  in_transaction, get_transaction, Server, set_context, RedisReply,
}
use ardb.Context.Laws.{same-address}
use ardb.Transaction.{
  unwatch_keys, discard_transaction, touch, touch_all, touch_watch_key, touch_entries,
  touch_watched_keys_on_flush, in_name_space, watched_table, watch_for_key, watch_each, multi,
  discard, watch, unwatch,
}
use ardb.Transaction.Watched.{
  watches, watches-unwatch_keys, contexts-unwatch_keys, watches-touch, transaction-touch,
}
use ardb.Transaction.Kept.{watches-watch_for_key}

-- From `s` to `t`, the client keeps its transaction, what is queued in it and the keys it watches. The
-- mark that a watched key has changed may be set, but not taken away.
pub record Isolated {S : Type 0} (c : ℕ) (s t : Server S) : Type 0 where
  pub watched : (k : KeyPrefix) → watches s c k ≡ true → watches t c k ≡ true
  pub started : (get_transaction (t.contexts c)).started ≡ (get_transaction (s.contexts c)).started
  pub aborted : (get_transaction (t.contexts c)).aborted ≡ (get_transaction (s.contexts c)).aborted
  pub cached :
      (get_transaction (t.contexts c)).cached_cmds ≡ (get_transaction (s.contexts c)).cached_cmds
  pub marked :
      (get_transaction (s.contexts c)).cas ≡ true → (get_transaction (t.contexts c)).cas ≡ true

module _ {S : Type 0} where
  pub Isolated-refl : (c : ℕ) (s : Server S) → Isolated c s s
  Isolated-refl c s = record {
    watched = λ k h. h;
    started = refl;
    aborted = refl;
    cached = refl;
    marked = λ h. h;
  }

  pub Isolated-trans : (c : ℕ) (s t u : Server S) → Isolated c s t → Isolated c t u → Isolated c s u
  Isolated-trans c s t u a b = record {
    watched = λ k h. b.watched k (a.watched k h);
    started = b.started ∙ a.started;
    aborted = b.aborted ∙ a.aborted;
    cached = b.cached ∙ a.cached;
    marked = λ h. b.marked (a.marked h);
  }

  -- A step that writes neither the table of the watched keys nor the context.
  pub Isolated-apart :
      (c : ℕ) (s t : Server S)
      → t.watched_ctxs ≡ s.watched_ctxs
      → t.contexts c ≡ s.contexts c
      → Isolated c s t
  unfolding watched_table
  Isolated-apart c s t e f = record {
    watched = λ k h. same_table k h;
    started = ap (λ (x : Context). (get_transaction x).started) f;
    aborted = ap (λ (x : Context). (get_transaction x).aborted) f;
    cached = ap (λ (x : Context). (get_transaction x).cached_cmds) f;
    marked = λ h. ap (λ (x : Context). (get_transaction x).cas) f ∙ h;
  }
    where
      same_table : (k : KeyPrefix) → watches s c k ≡ true → watches t c k ≡ true
      same_table k h = rw e h

  pub Isolated-set_context :
      (c d : ℕ) (x : Context) (s : Server S) → (c == d) ≡ false → Isolated c s (set_context d x s)
  unfolding set_context
  Isolated-set_context c d x s other = Isolated-apart c s _ refl (ground arith)

  -- Setting the mark is allowed on every context.
  pub Isolated-touch : (c d : ℕ) (s : Server S) → Isolated c s (touch d s)
  Isolated-touch c d s = record {
    watched = λ k h. watches-touch c d k s ∙ h;
    started = ap TransactionContext.started (transaction-touch c d s);
    aborted = ap TransactionContext.aborted (transaction-touch c d s);
    cached = ap TransactionContext.cached_cmds (transaction-touch c d s);
    marked = λ h. ground (arith, transaction-touch c d s);
  }

  pub Isolated-touch_all : (c : ℕ) (cs : List ℕ) (s : Server S) → Isolated c s (touch_all cs s)
  unfolding touch_all
  Isolated-touch_all c [] s = Isolated-refl c s
  Isolated-touch_all c (d ∷ cs) s =
      Isolated-trans c s (touch d s) (touch_all cs (touch d s)) (Isolated-touch c d s)
        (Isolated-touch_all c cs (touch d s))

  pub Isolated-touch_watch_key :
      (c : ℕ) (k : KeyPrefix) (s : Server S) → Isolated c s (touch_watch_key k s)
  unfolding touch_watch_key
  Isolated-touch_watch_key c k s =
      either_option (Isolated c s) s.watched_ctxs s _ (Isolated-refl c s) (λ t.
        either_way (Isolated c s) (is_empty t) s (touch_all (Table.members k t) s)
          (Isolated-refl c s) (Isolated-touch_all c (Table.members k t) s))

  Isolated-touch_entries :
      (c : ℕ) (ns : Option (List ℕ)) (t : List (KeyPrefix × List ℕ)) (s : Server S)
      → Isolated c s (touch_entries ns t s)
  unfolding touch_entries
  Isolated-touch_entries c ns [] s = Isolated-refl c s
  Isolated-touch_entries c ns ((k, cs) ∷ t) s =
      Isolated-trans c s (if in_name_space ns k then touch_all cs s else s) _
        (either_way (Isolated c s) (in_name_space ns k) (touch_all cs s) s
          (Isolated-touch_all c cs s) (Isolated-refl c s))
        (Isolated-touch_entries c ns t (if in_name_space ns k then touch_all cs s else s))

  pub Isolated-touch_watched_keys_on_flush :
      (c : ℕ) (ns : Option (List ℕ)) (s : Server S)
      → Isolated c s (touch_watched_keys_on_flush ns s)
  unfolding touch_watched_keys_on_flush
  Isolated-touch_watched_keys_on_flush c ns s =
      either_option (Isolated c s) s.watched_ctxs s _ (Isolated-refl c s)
        (λ t. Isolated-touch_entries c ns t s)

  -- The steps of another client.
  module _ (c d : ℕ) (other : (c == d) ≡ false) where
    pub Isolated-unwatch_keys : (s : Server S) → Isolated c s (unwatch_keys d s)
    Isolated-unwatch_keys s = record {
      watched = λ k h. ground (arith, watches-unwatch_keys d c k s, same-address c d);
      started =
          ap (λ (f : ℕ → Context). (get_transaction (f c)).started) (contexts-unwatch_keys d s);
      aborted =
          ap (λ (f : ℕ → Context). (get_transaction (f c)).aborted) (contexts-unwatch_keys d s);
      cached =
          ap (λ (f : ℕ → Context). (get_transaction (f c)).cached_cmds) (contexts-unwatch_keys d s);
      marked = λ h.
          ap (λ (f : ℕ → Context). (get_transaction (f c)).cas) (contexts-unwatch_keys d s) ∙ h;
    }

    pub Isolated-discard_transaction : (s : Server S) → Isolated c s (discard_transaction d s)
    unfolding discard_transaction
    Isolated-discard_transaction s =
        Isolated-trans c s (unwatch_keys d s) _ (Isolated-unwatch_keys s)
          (Isolated-set_context c d _ (unwatch_keys d s) other)

    same_context : (key : List ℕ) (s : Server S) → (watch_for_key d key s).contexts c ≡ s.contexts c
    unfolding watch_for_key set_context
    same_context key s = ground arith

    pub Isolated-watch_for_key :
        (key : List ℕ) (s : Server S) → Isolated c s (watch_for_key d key s)
    Isolated-watch_for_key key s = record {
      watched = λ k h. ground (arith, watches-watch_for_key d c key k s);
      started = ap (λ (x : Context). (get_transaction x).started) (same_context key s);
      aborted = ap (λ (x : Context). (get_transaction x).aborted) (same_context key s);
      cached = ap (λ (x : Context). (get_transaction x).cached_cmds) (same_context key s);
      marked = λ h. ap (λ (x : Context). (get_transaction x).cas) (same_context key s) ∙ h;
    }

    Isolated-watch_each : (keys : List (List ℕ)) (s : Server S) → Isolated c s (watch_each d keys s)
    unfolding watch_each
    Isolated-watch_each [] s = Isolated-refl c s
    Isolated-watch_each (key ∷ keys) s =
        Isolated-trans c s (watch_for_key d key s) _ (Isolated-watch_for_key key s)
          (Isolated-watch_each keys (watch_for_key d key s))

    abbrev pub IsolatedIn : Server S → Server S × RedisReply → Type 0
    IsolatedIn s r = Isolated c s r.0

    pub Isolated-watch : (keys : List (List ℕ)) (s : Server S) → Isolated c s (watch d keys s).0
    unfolding watch
    Isolated-watch keys s =
        either_way (IsolatedIn s) (in_transaction (s.contexts d)) _ _ (Isolated-refl c s)
          (Isolated-watch_each keys s)

    pub Isolated-unwatch : (s : Server S) → Isolated c s (unwatch d s).0
    unfolding unwatch
    Isolated-unwatch s = Isolated-unwatch_keys s

    pub Isolated-multi : (s : Server S) → Isolated c s (multi d s).0
    unfolding multi
    Isolated-multi s =
        either_way (IsolatedIn s) (in_transaction (s.contexts d)) _ _ (Isolated-refl c s)
          (Isolated-set_context c d _ s other)

    pub Isolated-discard : (s : Server S) → Isolated c s (discard d s).0
    unfolding discard
    Isolated-discard s =
        either_way (IsolatedIn s) (in_transaction (s.contexts d)) _ _
          (Isolated-discard_transaction s) (Isolated-refl c s)
