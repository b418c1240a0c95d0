-- ===== src/Swal/Deliver.antt =====
-- A replay of the log gives its callback the bytes that were appended from the offset on.
use ardb.Prelude.{
  ℕ, ◌+◌, ◌-◌, ◌≤◌, ◌<◌, leb, ◌≡◌, refl, sym, ap, subst, ◌∙◌, ◌⊎◌, inl, inr, true, false, none,
  some, List, ◌++◌, if◌then◌else◌, length, take, drop, arith, length-append, drop_add, drop_exact,
  Bool-cases, Option-cases, leb→le,
}
use ardb.Swal.{Swal, replay_cache, replay_file, replay_total, swal_replay}
use ardb.Swal.Window.{window}
use ardb.Swal.Replay.{Delivered, Delivered-replay_cache, Delivered-replay_file}
use ardb.Swal.Log.{Represents, IsCache, CacheOf}

replay_total_le : (limit n : ℕ) → replay_total limit n ≤ n
unfolding replay_total
replay_total_le limit n = ground arith

-- The end of what was written is the end of its newest part.
window-append :
    (n total : ℕ) (old recent : List ℕ)
    → n ≤ length recent
    → window n total recent ≡ window n total (old ++ recent)
window-append n total old recent h = sym (
    ap (λ k. take total (drop k (old ++ recent))) {y = length old + (length recent - n)}
      (omega (arith, length-append old recent))
    ∙ ap (take total) (
        drop_add (length recent - n) (length old) (old ++ recent)
        ∙ ap (drop (length recent - n)) (drop_exact (length old) old recent refl)))

module _ {A : Type 0} (func : A → List ℕ → A × ℕ)
    (modest : (a : A) (bytes : List ℕ) → (func a bytes).1 ≤ length bytes) (a : A) where
  -- Outside of the window nothing is replayed.
  pub swal_replay_outside :
      (offset limit_len : ℕ) (w : Swal)
      → (offset < w.meta.log_start_offset) ⊎ (w.meta.log_end_offset < offset)
      → swal_replay func a offset limit_len w ≡ none
  unfolding swal_replay
  swal_replay_outside offset limit_len w h = ground arith

  -- The branch of the file or of the cache.
  replayed : ℕ → ℕ → Swal → A
  replayed offset total w =
      let n = w.meta.log_end_offset - offset in
      let from_file =
        replay_file func a w.options.max_file_size w.meta.log_file_pos n total w.file in
      elim w.ring_cache [
        | none ↦ from_file
        | some block ↦
            if leb w.ring_cache_start_offset offset
            then replay_cache func a w.options.ring_cache_size w.ring_cache_idx n total block
            else from_file
      ]

  inside :
      (offset limit_len : ℕ) (w : Swal)
      → w.meta.log_start_offset ≤ offset
      → offset ≤ w.meta.log_end_offset
      → swal_replay func a offset limit_len w
        ≡ some (replayed offset (replay_total limit_len (w.meta.log_end_offset - offset)) w)
  unfolding swal_replay replayed
  inside offset limit_len w h k = ground arith

  replayed_file :
      (offset total : ℕ) (w : Swal)
      → w.ring_cache ≡ none
      → replayed offset total w
        ≡ replay_file func a w.options.max_file_size w.meta.log_file_pos
            (w.meta.log_end_offset - offset)
            total
            w.file
  unfolding replayed
  replayed_file offset total w e = ground arith

  replayed_older :
      (offset total : ℕ) (block : List ℕ) (w : Swal)
      → w.ring_cache ≡ some block
      → leb w.ring_cache_start_offset offset ≡ false
      → replayed offset total w
        ≡ replay_file func a w.options.max_file_size w.meta.log_file_pos
            (w.meta.log_end_offset - offset)
            total
            w.file
  unfolding replayed
  replayed_older offset total block w e f = ground arith

  replayed_cached :
      (offset total : ℕ) (block : List ℕ) (w : Swal)
      → w.ring_cache ≡ some block
      → leb w.ring_cache_start_offset offset ≡ true
      → replayed offset total w
        ≡ replay_cache func a w.options.ring_cache_size w.ring_cache_idx
            (w.meta.log_end_offset - offset)
            total
            block
  unfolding replayed
  replayed_cached offset total block w e f = ground arith

  module _ (offset total base : ℕ) (written : List ℕ) (w : Swal) (r : Represents w base written)
      (h : w.meta.log_start_offset ≤ offset) (k : offset ≤ w.meta.log_end_offset)
      (t : total ≤ w.meta.log_end_offset - offset) where
    abbrev asked_for : List ℕ
    asked_for = window (w.meta.log_end_offset - offset) total written

    Delivered-file : Delivered func a asked_for (
        replay_file func a w.options.max_file_size w.meta.log_file_pos
          (w.meta.log_end_offset - offset)
          total
          w.file)
    Delivered-file =
        Delivered-replay_file func modest a w.options.max_file_size w.meta.log_file_pos
          (w.meta.log_end_offset - offset) total w.file written r.in_file
          (omega (arith, r.ends, r.begins)) (omega (arith, r.ends, r.begins)) t

    Delivered-cache :
        (block : List ℕ)
        → IsCache w.options.ring_cache_size w.ring_cache_idx w.ring_cache_start_offset base block
            written
        → w.ring_cache_start_offset ≤ offset
        → Delivered func a asked_for (
            replay_cache func a w.options.ring_cache_size w.ring_cache_idx
              (w.meta.log_end_offset - offset)
              total
              block)
    Delivered-cache block c l =
        let n = w.meta.log_end_offset - offset in
        let size = w.options.ring_cache_size in
        let sizes : length written ≡ length c.old + length c.recent =
          ap length c.split ∙ length-append c.old c.recent in
        let there : n ≤ length c.recent = omega (arith, c.begins, r.ends, sizes) in
        let few : n ≤ size = omega (arith, c.begins, r.ends, sizes) in
        subst (λ b. Delivered func a b (replay_cache func a size w.ring_cache_idx n total block))
          (window-append n total c.old c.recent there ∙ ap (window n total) (sym c.split))
          (Delivered-replay_cache func modest a size w.ring_cache_idx n total block c.recent c.holds
            few there t)

    Delivered-replayed : Delivered func a asked_for (replayed offset total w)
    Delivered-replayed = elim (Option-cases w.ring_cache) [
      | inl e ↦ rw (replayed_file offset total w e) Delivered-file
      | inr (block, e) ↦ elim (Bool-cases (leb w.ring_cache_start_offset offset)) [
        | inl f ↦ rw (replayed_cached offset total block w e f) (
            Delivered-cache block (subst (CacheOf w base written) e r.in_cache)
              (leb→le w.ring_cache_start_offset offset f))
        | inr f ↦ rw (replayed_older offset total block w e f) Delivered-file
      ]
    ]

  -- Where the log represents the bytes that were appended from an offset on (`Represents`), a
  -- replay from an offset inside its window succeeds, with the cache or without, and gives the
  -- callback exactly the bytes appended from that offset on, up to the limit: in one call, or in
  -- two, the second with all that the first did not consume. The callback consumes no more than it
  -- is given.
  pub swal_replay-Delivered :
      (offset limit_len base : ℕ) (written : List ℕ) (w : Swal)
      → Represents w base written
      → w.meta.log_start_offset ≤ offset
      → offset ≤ w.meta.log_end_offset
      → let n = w.meta.log_end_offset - offset in
        (result : A) × (swal_replay func a offset limit_len w ≡ some result)
        × Delivered func a (window n (replay_total limit_len n) written) result
  swal_replay-Delivered offset limit_len base written w r h k =
      let n = w.meta.log_end_offset - offset in
      let total = replay_total limit_len n in
      (
        replayed offset total w,
        inside offset limit_len w h k,
        Delivered-replayed offset total base written w r h k (replay_total_le limit_len n),
      )
