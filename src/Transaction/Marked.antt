-- ===== src/Transaction/Marked.antt =====
-- The mark that a watched key has changed: who gets it, and what EXEC does with it.
use ardb.Prelude.{
  ℕ, ◌≡◌, refl, inl, inr, Bool, true, false, Option, none, some, List, [], ◌∷◌, ◌||◌, if◌then◌else◌,
  arith, either_way, Bool-cases,
}
use ardb.Tree.{is_empty}
use ardb.Tree.Set
use ardb.Tree.Table
use ardb.Tree.Laws.{same-eq, empty-nil}
use ardb.Context.{
  KeyPrefix, key_prefix_order, bytes_order, address_order, RedisCommandFrame, in_transaction,
  get_transaction, clear_transaction, Server, set_context, RedisReply, no_members, err_code,
  err_exec_abort, error_reason, exec_without_multi,
}
use ardb.Context.Laws.{same-address}
use ardb.Transaction.{
  unwatch_keys, discard_transaction, touch, touch_all, touch_watch_key, touch_entries, exec,
  touch_watched_keys_on_flush, in_name_space, watched_table,
}
use ardb.Transaction.Watched.{watches, holds_in_none, transaction-touch}

module _ {S : Type 0} where
  -- The context is marked: a key that it watched has changed.
  abbrev pub is_marked : Server S → ℕ → Bool
  is_marked s c = (get_transaction (s.contexts c)).cas

  marked-touch_all :
      (c : ℕ) (cs : List ℕ) (s : Server S)
      → is_marked (touch_all cs s) c ≡ (Set.has c cs || is_marked s c)
  unfolding touch_all Set.has
  marked-touch_all c [] s = refl
  marked-touch_all c (d ∷ cs) s =
      ground (arith, marked-touch_all c cs (touch d s), transaction-touch c d s, same-address c d)

  marked_unless_empty :
      (c : ℕ) (k : KeyPrefix) (t : List (KeyPrefix × List ℕ)) (s : Server S)
      → Table.holds k c t ≡ true
      → is_marked (if is_empty t then s else touch_all (Table.members k t) s) c ≡ true
  unfolding Table.holds
  marked_unless_empty c k t s h =
      ground (arith, marked-touch_all c (Table.members k t) s, empty-nil t, holds_in_none k c)

  -- A write of a key marks every context that watches it.
  pub marked-touch_watch_key :
      (c : ℕ) (k : KeyPrefix) (s : Server S)
      → watches s c k ≡ true
      → is_marked (touch_watch_key k s) c ≡ true
  unfolding touch_watch_key watched_table
  marked-touch_watch_key c k s h = by_table s.watched_ctxs h
    where
      by_table :
          (o : Option (List (KeyPrefix × List ℕ)))
          → Table.holds k c (elim o as (λ y. List (KeyPrefix × List ℕ)) [ none ↦ [] | some t ↦ t ])
            ≡ true
          → is_marked
              (elim o as (λ y. Server S) [
                | none ↦ s
                | some t ↦ if is_empty t then s else touch_all (Table.members k t) s
              ])
              c
            ≡ true
      by_table none h = ground (arith, holds_in_none k c)
      by_table (some t) h = marked_unless_empty c k t s h

  -- A flush marks every context that watches a key of the name space.
  marked-touch_entries :
      (c : ℕ) (k : KeyPrefix) (ns : Option (List ℕ)) (t : List (KeyPrefix × List ℕ)) (s : Server S)
      → in_name_space ns k ≡ true
      → (Table.holds k c t || is_marked s c) ≡ true
      → is_marked (touch_entries ns t s) c ≡ true
  unfolding touch_entries Table.holds Table.members Table.find
  marked-touch_entries c k ns [] s i h = ground (arith, holds_in_none k c)
  marked-touch_entries c k ns ((k', cs) ∷ t) s i h =
      marked-touch_entries c k ns t (if in_name_space ns k' then touch_all cs s else s) i
        (ground (arith, marked-touch_all c cs s, same-eq k k'))

  -- A flush of a name space, or of all, marks every context that watches a key in it.
  pub marked-touch_watched_keys_on_flush :
      (c : ℕ) (k : KeyPrefix) (ns : Option (List ℕ)) (s : Server S)
      → in_name_space ns k ≡ true
      → watches s c k ≡ true
      → is_marked (touch_watched_keys_on_flush ns s) c ≡ true
  unfolding touch_watched_keys_on_flush watched_table
  marked-touch_watched_keys_on_flush c k ns s i h = by_table s.watched_ctxs h
    where
      by_table :
          (o : Option (List (KeyPrefix × List ℕ)))
          → Table.holds k c (elim o as (λ y. List (KeyPrefix × List ℕ)) [ none ↦ [] | some t ↦ t ])
            ≡ true
          → is_marked (elim o as (λ y. Server S) [ none ↦ s | some t ↦ touch_entries ns t s ]) c
            ≡ true
      by_table none h = ground (arith, holds_in_none k c)
      by_table (some t) h = marked-touch_entries c k ns t s i (ground (arith, h))

  -- What leaving a transaction leaves alone, and that it leaves it.
  pub record IsLeft (c : ℕ) (s t : Server S) : Type 0 where
    pub store_kept : t.store ≡ s.store
    pub sent_kept : t.sent ≡ s.sent
    pub replicated_kept : t.replicated ≡ s.replicated
    pub left : in_transaction (t.contexts c) ≡ false

  pub discard_transaction-IsLeft : (c : ℕ) (s : Server S) → IsLeft c s (discard_transaction c s)
  unfolding discard_transaction set_context clear_transaction in_transaction unwatch_keys
  discard_transaction-IsLeft c s = record {
    store_kept = ground arith;
    sent_kept = ground arith;
    replicated_kept = ground arith;
    left = ground arith;
  }

  module _ (find_setting : RedisCommandFrame → Bool)
      (do_call : ℕ → RedisCommandFrame → Server S → Server S × RedisReply) where
    -- A transaction that was aborted or marked runs no command: EXEC discards it.
    pub exec_refused :
        (transc_ctx c : ℕ) (s : Server S)
        → in_transaction (s.contexts c) ≡ true
        → ((get_transaction (s.contexts c)).aborted || is_marked s c) ≡ true
        → exec find_setting do_call transc_ctx c s ≡ (
          discard_transaction c s,
          if (get_transaction (s.contexts c)).aborted then err_code err_exec_abort else no_members,
        )
    unfolding exec
    exec_refused transc_ctx c s started refused = ground arith

    -- Whatever the state and whatever the commands do, after EXEC of a client no transaction of the
    -- client is open.
    pub exec_leaves :
        (transc_ctx c : ℕ) (s : Server S)
        → in_transaction ((exec find_setting do_call transc_ctx c s).0.contexts c) ≡ false
    unfolding exec
    exec_leaves transc_ctx c s = elim (Bool-cases (in_transaction (s.contexts c))) [
      | inl e ↦ rw e (
          either_way (λ (r : Server S × RedisReply). in_transaction (r.0.contexts c) ≡ false)
            ((get_transaction (s.contexts c)).aborted || is_marked s c) _ _
            ((discard_transaction-IsLeft c s).left) ((discard_transaction-IsLeft c _).left))
      | inr n ↦ rw (n, n) refl
    ]

    pub exec_without :
        (transc_ctx c : ℕ) (s : Server S)
        → in_transaction (s.contexts c) ≡ false
        → exec find_setting do_call transc_ctx c s ≡ (s, error_reason exec_without_multi)
    unfolding exec
    exec_without transc_ctx c s e = ground arith
