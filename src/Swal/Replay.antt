-- ===== src/Swal/Replay.antt =====
-- Both branches of `swal_replay` give the callback the window that was asked for.
use ardb.Prelude.{
  ℕ, ◌+◌, ◌-◌, ◌≤◌, ◌<◌, ◌==◌, ltb, leb, ◌≡◌, refl, sym, ap, subst, ◌∙◌, inl, inr, false, List,
  ◌++◌, length, take, drop, arith, length-append, take_exact, drop_exact, drop-append_le,
  Bool-cases, ==_iff, leb→le, ltb→lt, lt→ltb,
}
use ardb.Swal.{replay_two, replay_cache, replay_file}
use ardb.Swal.Window.{Holds, window, near, one_piece, two_pieces}

not_leb : (a b : ℕ) → leb a b ≡ false → b < a
not_leb a b h = ground arith

not_ltb : (a b : ℕ) → ltb a b ≡ false → b ≤ a
not_ltb a b h = ground arith

-- The bytes went to the callback in one call, or in two: then the second call got all that the first
-- had not consumed.
pub data Delivered {A : Type 0} (func : A → List ℕ → A × ℕ) (a : A) (bytes : List ℕ)
    : A → Type 0 where
  at_once : Delivered func a bytes (func a bytes).0
  in_two :
      (cut : ℕ)
      → cut ≤ length bytes
      → Delivered func a bytes
          (func (func a (take cut bytes)).0 (drop (func a (take cut bytes)).1 bytes)).0

module _ {A : Type 0} (func : A → List ℕ → A × ℕ)
    (modest : (a : A) (bytes : List ℕ) → (func a bytes).1 ≤ length bytes) (a : A) where
  Delivered-at_once :
      (bytes given : List ℕ) → given ≡ bytes → Delivered func a bytes (func a given).0
  Delivered-at_once bytes given e = subst (λ b. Delivered func a bytes (func a b).0) (sym e) at_once

  two_calls :
      (front back : List ℕ)
      → replay_two func a front back
        ≡ (func (func a front).0 (drop (func a front).1 (front ++ back))).0
  unfolding replay_two
  two_calls front back = elim (Bool-cases (length front == (func a front).1)) [
    | inl e ↦ rw e (
        ap (λ b. (func (func a front).0 b).0)
          (sym (
            drop_exact (func a front).1 front back ((==_iff (length front) (func a front).1).0 e))))
    | inr n ↦ rw n (
        ap (λ b. (func (func a front).0 b).0)
          (sym (drop-append_le (func a front).1 front back (modest a front))))
  ]

  Delivered-replay_two :
      (bytes front back : List ℕ)
      → front ++ back ≡ bytes
      → Delivered func a bytes (replay_two func a front back)
  Delivered-replay_two bytes front back e =
      subst (λ b. Delivered func a b (replay_two func a front back)) e
        (rw (two_calls front back) (
          subst
            (λ f.
              Delivered func a (front ++ back)
                (func (func a f).0 (drop (func a f).1 (front ++ back))).0)
            (take_exact (length front) front back refl)
            (in_two (length front) (omega (arith, length-append front back)))))

  module _ (size pos n total : ℕ) (block written : List ℕ) (h : Holds size pos block written)
      (few : n ≤ size) (there : n ≤ length written) (asked : total ≤ n) where
    pub Delivered-replay_cache :
        Delivered func a (window n total written) (replay_cache func a size pos n total block)
    unfolding replay_cache
    Delivered-replay_cache = elim (Bool-cases (leb n pos)) [
      | inl e ↦ rw e (
          Delivered-at_once _ _
            (near size pos n total block written h few there asked (leb→le n pos e)))
      | inr e ↦ rw e (elim (Bool-cases (leb total (size - ((size - n) + pos)))) [
        | inl f ↦ rw f (
            Delivered-at_once _ _ (
              one_piece size pos n total block written h few there asked (not_leb n pos e)
                (leb→le total (size - ((size - n) + pos)) f)))
        | inr f ↦ rw f (
            Delivered-replay_two _ _ _ (
              two_pieces size pos n total block written h few there asked (not_leb n pos e)
                (omega (arith, not_leb total (size - ((size - n) + pos)) f))))
      ])
    ]

    pub Delivered-replay_file :
        Delivered func a (window n total written) (replay_file func a size pos n total block)
    unfolding replay_file
    Delivered-replay_file = elim (Bool-cases (leb n pos)) [
      | inl e ↦ rw e (
          rw (lt→ltb ((pos - n) + total) size (omega (arith, h.ring.inside, leb→le n pos e))) (
            Delivered-at_once _ _
              (near size pos n total block written h few there asked (leb→le n pos e))))
      | inr e ↦ rw e (elim (Bool-cases (ltb (((size - n) + pos) + total) size)) [
        | inl f ↦ rw f (
            Delivered-at_once _ _ (
              one_piece size pos n total block written h few there asked (not_leb n pos e)
                (omega (arith, ltb→lt (((size - n) + pos) + total) size f))))
        | inr f ↦ rw f (
            Delivered-replay_two _ _ _ (
              ap
                (λ k.
                  take (size - ((size - n) + pos)) (drop ((size - n) + pos) block)
                  ++ take (k - size) block)
                {x = total + ((size - n) + pos)} {y = ((size - n) + pos) + total} (omega arith)
              ∙ two_pieces size pos n total block written h few there asked (not_leb n pos e)
                  (omega (arith, not_ltb (((size - n) + pos) + total) size f))))
      ])
    ]
