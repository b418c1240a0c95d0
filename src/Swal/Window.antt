-- ===== src/Swal/Window.antt =====
-- What a replay gives its callback: the bytes from an offset on, in one piece or in two.
use ardb.Prelude.{
  ℕ, suc, ◌+◌, ◌-◌, ◌≤◌, ◌<◌, ◌≡◌, sym, ap, ap₂, ◌∙◌, List, [], ◌∷◌, ◌++◌, length, take, drop,
  arith, length-append, length-drop, drop_exact, drop-append_le, take-append_le, drop_add, take_ge,
  take-drop-take,
}
use ardb.Swal.{write_ring}
use ardb.Swal.Ring.{unrolled, IsRing, write_ring-Written, drop-append_twice}

-- The ring holds the newest bytes of some that were written, behind those that it held first.
pub record Holds (size pos : ℕ) (block written : List ℕ) : Type 0 where
  pub ring : IsRing size pos block
  pub first : List ℕ
  pub first_full : length first ≡ size
  pub newest : unrolled pos block ≡ drop (length written) (first ++ written)

-- Writing more bytes.
pub Holds-write_ring :
    (size pos : ℕ) (bytes block written : List ℕ)
    → Holds size pos block written
    → let (pos', block') = write_ring (length bytes) size pos bytes block in
      Holds size pos' block' (written ++ bytes)
Holds-write_ring size pos bytes block written h =
    let w = write_ring-Written (length bytes) size pos bytes block (omega arith) h.ring in
    record {
      ring = w.0;
      first = h.first;
      first_full = h.first_full;
      newest =
          w.1
          ∙ ap (λ u. drop (length bytes) (u ++ bytes)) h.newest
          ∙ drop-append_twice h.first written bytes
          ∙ ap (λ n. drop n (h.first ++ (written ++ bytes))) (sym (length-append written bytes));
    }

-- The last `n` bytes of the ring are the last `n` that were written.
newest_bytes :
    (size pos n : ℕ) (block written : List ℕ)
    → Holds size pos block written
    → n ≤ size
    → n ≤ length written
    → drop (size - n) (unrolled pos block) ≡ drop (length written - n) written
newest_bytes size pos n block written h few there =
    ap (drop (size - n)) h.newest
    ∙ sym (drop_add (size - n) (length written) (h.first ++ written))
    ∙ ap (λ k. drop k (h.first ++ written)) {y = size + (length written - n)} (omega arith)
    ∙ drop_add (length written - n) size (h.first ++ written)
    ∙ ap (drop (length written - n)) (drop_exact size h.first written h.first_full)

-- The bytes that a replay is about: `total` bytes, from `n` bytes before the end on.
abbrev pub window : ℕ → ℕ → List ℕ → List ℕ
window n total written = take total (drop (length written - n) written)

take_beyond : (n : ℕ) (xs ys : List ℕ) → take (length xs + n) (xs ++ ys) ≡ xs ++ take n ys
take_beyond n [] ys = ap (λ k. take k ys) (omega arith)
take_beyond n (x ∷ xs) ys =
    ap (λ k. take k (x ∷ (xs ++ ys))) {y = suc (length xs + n)} (omega arith)
    ∙ ap (λ l. x ∷ l) (take_beyond n xs ys)

module _ (size pos n total : ℕ) (block written : List ℕ) (h : Holds size pos block written)
    (few : n ≤ size) (there : n ≤ length written) (asked : total ≤ n) where
  in_ring : take total (drop (size - n) (unrolled pos block)) ≡ window n total written
  in_ring = ap (take total) (newest_bytes size pos n block written h few there)

  -- The bytes stand before the place.
  pub near : n ≤ pos → take total (drop (pos - n) block) ≡ window n total written
  near e =
      let parts : drop (size - n) (unrolled pos block) ≡ drop (pos - n) (take pos block) =
        ap (λ k. drop k (unrolled pos block)) {y = (size - pos) + (pos - n)}
          (omega (arith, h.ring.inside))
        ∙ drop_add (pos - n) (size - pos) (unrolled pos block)
        ∙ ap (drop (pos - n)) (
            drop_exact (size - pos) (drop pos block) (take pos block)
              (omega (arith, length-drop pos block, h.ring.full))) in
      sym (take-drop-take total (pos - n) pos block (omega arith))
      ∙ ap (take total) (sym parts)
      ∙ in_ring

  module _ (far : pos < n) where
    abbrev start : ℕ
    start = (size - n) + pos

    pub length_to_end : length (drop start block) ≡ size - start
    length_to_end = omega (arith, length-drop start block, h.ring.full)

    around : drop (size - n) (unrolled pos block) ≡ drop start block ++ take pos block
    around =
        drop-append_le (size - n) (drop pos block) (take pos block)
          (omega (arith, length-drop pos block, h.ring.full))
        ∙ ap (λ d. d ++ take pos block)
            (sym (drop_add (size - n) pos block) ∙ ap (λ k. drop k block) (omega arith))

    -- The bytes stand before the end of the block.
    pub one_piece : total ≤ size - start → take total (drop start block) ≡ window n total written
    one_piece e =
        sym
          (take-append_le total (drop start block) (take pos block) (omega (arith, length_to_end)))
        ∙ ap (take total) (sym around)
        ∙ in_ring

    -- The bytes go on at the front of the block.
    pub two_pieces :
        size - start ≤ total
        → take (size - start) (drop start block) ++ take ((start + total) - size) block
          ≡ window n total written
    two_pieces e =
        let back = (start + total) - size in
        ap₂ (λ (a b : List ℕ). a ++ b)
          (take_ge (size - start) (drop start block) (omega (arith, length_to_end)))
          (sym (take-drop-take back 0 pos block (omega (arith, h.ring.inside))))
        ∙ sym (take_beyond back (drop start block) (take pos block))
        ∙ ap (λ k. take k (drop start block ++ take pos block))
            (omega (arith, length_to_end, h.ring.inside))
        ∙ ap (take total) (sym around)
        ∙ in_ring
