-- ===== src/Transaction/Kept.antt =====
-- Every operation of src/command/transaction.cpp keeps the table of the watched keys and the contexts'
-- own sets in agreement.
use ardb.Prelude.{
  either_way, either_option, ℕ, ◌≡◌, refl, ap, ◌∙◌, false, Option, some, List, [], ◌∷◌, not, ◌&&◌,
  ◌||◌, ◌==◌, ==_iff, if◌then◌else◌, arith,
}
use ardb.Tree.{same, is_empty}
use ardb.Tree.Set
use ardb.Tree.Table
use ardb.Tree.Laws.{has-insert, holds-join}
use ardb.Context.{
  KeyPrefix, key_prefix_order, bytes_order, address_order, TransactionContext, Context,
  in_transaction, get_transaction, clear_transaction, Server, set_context, RedisReply,
}
use ardb.Context.Laws.{same-address, get_transaction_there}
use ardb.Transaction.{
  unwatch_keys, discard_transaction, touch, touch_all, touch_watch_key, touch_entries,
  touch_watched_keys_on_flush, in_name_space, watched_table, add_watched, watch_for_key, watch_each,
  multi, discard, watch, unwatch,
}
use ardb.Transaction.Watched.{
  watches, remembers, Agree, watches-set_context, remembers-set_context, unwatched,
  Agree-unwatch_keys, Agree-set_context,
}

forgotten :
    (x : Context) (k : KeyPrefix)
    → Set.has k (get_transaction (clear_transaction x)).watched_keys ≡ false
unfolding get_transaction clear_transaction Set.has
forgotten x k = refl

keys_added :
    (p k : KeyPrefix) (x : Context)
    → Set.has k (get_transaction (add_watched p x)).watched_keys
      ≡ (same k p || Set.has k (get_transaction x).watched_keys)
unfolding add_watched
keys_added p k x =
    ap (λ (tr : TransactionContext). Set.has k tr.watched_keys) (get_transaction_there x _)
    ∙ has-insert k p (get_transaction x).watched_keys

module _ {S : Type 0} where
  pub watches-discard_transaction :
      (c d : ℕ) (k : KeyPrefix) (s : Server S)
      → Agree s
      → watches (discard_transaction c s) d k ≡ (not (d == c) && watches s d k)
  unfolding discard_transaction
  watches-discard_transaction c d k s agree =
      watches-set_context c d (clear_transaction ((unwatch_keys c s).contexts c)) k
        (unwatch_keys c s)
      ∙ unwatched c d k s agree

  pub Agree-discard_transaction : (c : ℕ) (s : Server S) → Agree s → Agree (discard_transaction c s)
  unfolding discard_transaction
  Agree-discard_transaction c s agree d k h = ground (
    arith,
    watches-discard_transaction c d k s agree,
    remembers-set_context c d (clear_transaction ((unwatch_keys c s).contexts c)) k
        (unwatch_keys c s),
    forgotten ((unwatch_keys c s).contexts c) k,
    Agree-unwatch_keys c s agree d k,
    watches-set_context c d (clear_transaction ((unwatch_keys c s).contexts c)) k
        (unwatch_keys c s),
  )

  -- A write of the transaction that keeps its watched keys.
  pub Agree-set_transaction :
      (c : ℕ) (x : Context) (tr : TransactionContext) (s : Server S)
      → tr.watched_keys ≡ (get_transaction (s.contexts c)).watched_keys
      → Agree s
      → Agree (set_context c (record x { transc = some tr }) s)
  Agree-set_transaction c x tr s kept =
      Agree-set_context c (record x { transc = some tr }) s
        (ap TransactionContext.watched_keys (get_transaction_there x tr) ∙ kept)

  pub Agree-touch : (c : ℕ) (s : Server S) → Agree s → Agree (touch c s)
  unfolding touch
  Agree-touch c s = Agree-set_transaction c (s.contexts c) _ s refl

  pub Agree-touch_all : (cs : List ℕ) (s : Server S) → Agree s → Agree (touch_all cs s)
  unfolding touch_all
  Agree-touch_all [] s agree = agree
  Agree-touch_all (c ∷ cs) s agree = Agree-touch_all cs (touch c s) (Agree-touch c s agree)

  pub Agree-touch_watch_key : (k : KeyPrefix) (s : Server S) → Agree s → Agree (touch_watch_key k s)
  unfolding touch_watch_key
  Agree-touch_watch_key k s agree = either_option Agree s.watched_ctxs s _ agree (λ t.
      either_way Agree (is_empty t) s (touch_all (Table.members k t) s) agree
        (Agree-touch_all (Table.members k t) s agree))

  pub Agree-touch_entries :
      (ns : Option (List ℕ)) (t : List (KeyPrefix × List ℕ)) (s : Server S)
      → Agree s
      → Agree (touch_entries ns t s)
  unfolding touch_entries
  Agree-touch_entries ns [] s agree = agree
  Agree-touch_entries ns ((k, cs) ∷ t) s agree =
      Agree-touch_entries ns t (if in_name_space ns k then touch_all cs s else s) (
        either_way Agree (in_name_space ns k) (touch_all cs s) s (Agree-touch_all cs s agree) agree)

  pub Agree-touch_watched_keys_on_flush :
      (ns : Option (List ℕ)) (s : Server S) → Agree s → Agree (touch_watched_keys_on_flush ns s)
  unfolding touch_watched_keys_on_flush
  Agree-touch_watched_keys_on_flush ns s agree =
      either_option Agree s.watched_ctxs s _ agree (λ t. Agree-touch_entries ns t s agree)

  pub watches-watch_for_key :
      (c d : ℕ) (key : List ℕ) (k : KeyPrefix) (s : Server S)
      → watches (watch_for_key c key s) d k
        ≡ ((same k (record { ns = (s.contexts c).ns; key = key }) && same d c) || watches s d k)
  unfolding watch_for_key watched_table set_context
  watches-watch_for_key c d key k s = holds-join k _ d c (watched_table s)

  remembers-watch_for_key :
      (c d : ℕ) (key : List ℕ) (k : KeyPrefix) (s : Server S)
      → remembers (watch_for_key c key s) d k
        ≡ ((same k (record { ns = (s.contexts c).ns; key = key }) && same d c) || remembers s d k)
  unfolding watch_for_key set_context
  remembers-watch_for_key c d key k s = ground (
    arith,
    same-address d c,
    ==_iff d c,
    keys_added (record { ns = (s.contexts c).ns; key = key }) k (s.contexts c),
  )

  pub Agree-watch_for_key :
      (c : ℕ) (key : List ℕ) (s : Server S) → Agree s → Agree (watch_for_key c key s)
  Agree-watch_for_key c key s agree d k h =
      ground
        (arith, watches-watch_for_key c d key k s, remembers-watch_for_key c d key k s, agree d k)

  pub Agree-watch_each :
      (c : ℕ) (keys : List (List ℕ)) (s : Server S) → Agree s → Agree (watch_each c keys s)
  unfolding watch_each
  Agree-watch_each c [] s agree = agree
  Agree-watch_each c (key ∷ keys) s agree =
      Agree-watch_each c keys (watch_for_key c key s) (Agree-watch_for_key c key s agree)

  abbrev AgreeIn : Server S × RedisReply → Type 0
  AgreeIn r = Agree r.0

  pub Agree-watch :
      (c : ℕ) (keys : List (List ℕ)) (s : Server S) → Agree s → Agree (watch c keys s).0
  unfolding watch
  Agree-watch c keys s agree =
      either_way AgreeIn (in_transaction (s.contexts c)) _ _ agree (Agree-watch_each c keys s agree)

  pub Agree-unwatch : (c : ℕ) (s : Server S) → Agree s → Agree (unwatch c s).0
  unfolding unwatch
  Agree-unwatch c s = Agree-unwatch_keys c s

  pub Agree-multi : (c : ℕ) (s : Server S) → Agree s → Agree (multi c s).0
  unfolding multi
  Agree-multi c s agree =
      either_way AgreeIn (in_transaction (s.contexts c)) _ _ agree
        (Agree-set_transaction c (s.contexts c) _ s refl agree)

  pub Agree-discard : (c : ℕ) (s : Server S) → Agree s → Agree (discard c s).0
  unfolding discard
  Agree-discard c s agree =
      either_way AgreeIn (in_transaction (s.contexts c)) _ _ (Agree-discard_transaction c s agree)
        agree
