-- ===== src/Swal/Ring.antt =====
-- A ring of bytes, unrolled from its oldest byte: writing drops as many bytes from the front as it
-- appends.
use ardb.Prelude.{
  ℕ, zero, suc, ◌+◌, ◌-◌, ◌≤◌, ◌<◌, ◌==◌, min, ◌≡◌, refl, sym, ap, ap₂, subst, ◌∙◌, inl, inr, List,
  [], ◌∷◌, ◌++◌, length, take, drop, arith, append-nil, append_assoc, length-append, length-take,
  length-drop, take-append-drop, take_exact, drop_exact, drop-append_le, drop_add, Bool-cases,
  ==_iff,
}
use ardb.Swal.{write_at, next_pos, write_ring}

-- The bytes from the oldest to the newest.
abbrev pub unrolled : ℕ → List ℕ → List ℕ
unrolled pos block = drop pos block ++ take pos block

pub length-write_at :
    (pos : ℕ) (bytes block : List ℕ)
    → pos + length bytes ≤ length block
    → length (write_at pos bytes block) ≡ length block
unfolding write_at
length-write_at pos bytes block h = omega (
  arith,
  length-append (take pos block) (bytes ++ drop (pos + length bytes) block),
  length-append bytes (drop (pos + length bytes) block),
  length-take pos block,
  length-drop (pos + length bytes) block,
)

pub drop_ge : (n : ℕ) (xs : List ℕ) → length xs ≤ n → drop n xs ≡ []
drop_ge zero [] h = refl
drop_ge zero (x ∷ xs) h = absurd (omega arith)
drop_ge (suc n) [] h = refl
drop_ge (suc n) (x ∷ xs) h = drop_ge n xs (omega arith)

-- The block after a write, unrolled from behind the bytes, and from its front.
unrolled_behind :
    (pos : ℕ) (bytes block : List ℕ)
    → pos ≤ length block
    → unrolled (pos + length bytes) (write_at pos bytes block)
      ≡ drop (pos + length bytes) block ++ (take pos block ++ bytes)
unfolding write_at
unrolled_behind pos bytes block h =
    let front = take pos block ++ bytes in
    let back = drop (pos + length bytes) block in
    let size : length front ≡ pos + length bytes =
      omega (arith, length-append (take pos block) bytes, length-take pos block) in
    rw (← append_assoc (take pos block) bytes back) (
      ap₂ (λ (d t : List ℕ). d ++ t) (drop_exact (pos + length bytes) front back size)
        (take_exact (pos + length bytes) front back size))

unrolled_full :
    (pos : ℕ) (bytes block : List ℕ)
    → pos + length bytes ≡ length block
    → unrolled 0 (write_at pos bytes block) ≡ take pos block ++ bytes
unfolding write_at
unrolled_full pos bytes block e =
    append-nil _
    ∙ ap (λ back. take pos block ++ (bytes ++ back))
        (drop_ge (pos + length bytes) block (omega arith))
    ∙ ap (λ b. take pos block ++ b) (append-nil bytes)

-- What the newest bytes leave of a ring.
dropped :
    (pos : ℕ) (bytes block : List ℕ)
    → pos + length bytes ≤ length block
    → drop (length bytes) (unrolled pos block ++ bytes)
      ≡ drop (pos + length bytes) block ++ (take pos block ++ bytes)
dropped pos bytes block h =
    ap (drop (length bytes)) (append_assoc (drop pos block) (take pos block) bytes)
    ∙ drop-append_le (length bytes) (drop pos block) (take pos block ++ bytes)
        (omega (arith, length-drop pos block))
    ∙ ap (λ d. d ++ (take pos block ++ bytes)) (sym (drop_add (length bytes) pos block))

-- One round.
unrolled-write_at :
    (size pos : ℕ) (bytes block : List ℕ)
    → length block ≡ size
    → pos + length bytes ≤ size
    → unrolled (next_pos size (pos + length bytes)) (write_at pos bytes block)
      ≡ drop (length bytes) (unrolled pos block ++ bytes)
unfolding next_pos
unrolled-write_at size pos bytes block e h = elim (Bool-cases ((pos + length bytes) == size)) [
  | inl full ↦ rw full (
      unrolled_full pos bytes block ((==_iff _ size).0 full ∙ sym e)
      ∙ sym (
          dropped pos bytes block (omega arith)
          ∙ ap (λ d. d ++ (take pos block ++ bytes))
              (drop_ge (pos + length bytes) block (omega (arith, (==_iff _ size).0 full)))))
  | inr part ↦
      rw part (
        unrolled_behind pos bytes block (omega arith) ∙ sym (dropped pos bytes block (omega arith)))
]

-- Dropping from the front of a list before or after appending to it.
pub drop-append_twice :
    (first front back : List ℕ)
    → drop (length back) (drop (length front) (first ++ front) ++ back)
      ≡ drop (length front + length back) (first ++ (front ++ back))
drop-append_twice first front back =
    ap (drop (length back)) (
      sym (
        drop-append_le (length front) (first ++ front) back
          (omega (arith, length-append first front))))
    ∙ sym (drop_add (length back) (length front) ((first ++ front) ++ back))
    ∙ ap (drop (length front + length back)) (append_assoc first front back)

-- A ring: a block of the size, and a place in it.
pub record IsRing (size pos : ℕ) (block : List ℕ) : Type 0 where
  pub full : length block ≡ size
  pub inside : pos < size

pub length-unrolled :
    (size pos : ℕ) (block : List ℕ) → IsRing size pos block → length (unrolled pos block) ≡ size
length-unrolled size pos block h = omega (
  arith,
  length-append (drop pos block) (take pos block),
  length-drop pos block,
  length-take pos block,
  h.full,
  h.inside,
)

next_pos-inside : (size pos : ℕ) → pos ≤ size → 0 < size → next_pos size pos < size
unfolding next_pos
next_pos-inside size pos h p = ground arith

-- The place and the block make a ring that holds the newest bytes of what it held and of those given.
abbrev pub Written : ℕ → ℕ → List ℕ → List ℕ → ℕ × List ℕ → Type 0
Written size pos bytes block r =
    IsRing size r.0 r.1 × (unrolled r.0 r.1 ≡ drop (length bytes) (unrolled pos block ++ bytes))

write_ring_done :
    (fuel size pos : ℕ) (bytes block : List ℕ)
    → length bytes ≡ 0
    → write_ring fuel size pos bytes block ≡ (pos, block)
unfolding write_ring
write_ring_done zero size pos bytes block e = refl
write_ring_done (suc fuel) size pos bytes block e = ground arith

write_ring_round :
    (fuel size pos k : ℕ) (bytes block : List ℕ)
    → 0 < length bytes
    → min (size - pos) (length bytes) ≡ k
    → write_ring (suc fuel) size pos bytes block
      ≡ write_ring fuel size
          (next_pos size (pos + k))
          (drop k bytes)
          (write_at pos (take k bytes) block)
unfolding write_ring
write_ring_round fuel size pos k bytes block n e = ground arith

Written-nothing :
    (size pos : ℕ) (bytes block : List ℕ)
    → length bytes ≡ 0
    → IsRing size pos block
    → Written size pos bytes block (pos, block)
Written-nothing size pos [] block e r = (r, sym (append-nil (unrolled pos block)))
Written-nothing size pos (b ∷ bytes) block e r = absurd (omega arith)

-- One round, then the others.
Written-round :
    (size pos k : ℕ) (bytes block : List ℕ) (r : ℕ × List ℕ)
    → IsRing size pos block
    → k ≤ length bytes
    → pos + k ≤ size
    → Written size (next_pos size (pos + k)) (drop k bytes) (write_at pos (take k bytes) block) r
    → Written size pos bytes block r
Written-round size pos k bytes block r ring few room w =
    let front = take k bytes in
    let back = drop k bytes in
    let size_front : length front ≡ k = omega (arith, length-take k bytes) in
    let sizes : length front + length back ≡ length bytes =
      omega (arith, length-take k bytes, length-drop k bytes) in
    let one =
      subst
        (λ j.
          unrolled (next_pos size (pos + j)) (write_at pos front block)
          ≡ drop (length front) (unrolled pos block ++ front))
        size_front (unrolled-write_at size pos front block ring.full (omega arith)) in
    (
      w.0,
      w.1
          ∙ ap (λ u. drop (length back) (u ++ back)) one
          ∙ drop-append_twice (unrolled pos block) front back
          ∙ ap₂ (λ (n : ℕ) (l : List ℕ). drop n (unrolled pos block ++ l)) sizes
              (take-append-drop k bytes),
    )

-- With as many rounds as there are bytes, each of the loops of `swal_append` writes all of them to
-- a ring whose place is inside a block of its size: the place stays inside, the block keeps its
-- size, and the ring, read from its oldest byte, is then the newest bytes of what it held and of
-- those written.
pub write_ring-Written :
    (fuel size pos : ℕ) (bytes block : List ℕ)
    → length bytes ≤ fuel
    → IsRing size pos block
    → Written size pos bytes block (write_ring fuel size pos bytes block)
write_ring-Written fuel size pos [] block h r =
    rw (write_ring_done fuel size pos [] block refl) (Written-nothing size pos [] block refl r)
write_ring-Written zero size pos (b ∷ bytes) block h r = absurd (omega arith)
write_ring-Written (suc fuel) size pos (b ∷ bytes) block h r =
    let k = min (size - pos) (length (b ∷ bytes)) in
    let few : k ≤ length (b ∷ bytes) = omega arith in
    let some_bytes : 0 < k = omega (arith, r.inside) in
    let room : pos + k ≤ size = omega (arith, r.inside) in
    let front = take k (b ∷ bytes) in
    let size_front : length front ≡ k = omega (arith, length-take k (b ∷ bytes)) in
    rw (write_ring_round fuel size pos k (b ∷ bytes) block (omega arith) refl) (
      Written-round size pos k (b ∷ bytes) block _ r few room (
        write_ring-Written fuel size (next_pos size (pos + k)) (drop k (b ∷ bytes))
          (write_at pos front block) (omega (arith, length-drop k (b ∷ bytes)))
          (record {
            full = length-write_at pos front block (omega (arith, r.full)) ∙ r.full;
            inside = next_pos-inside size (pos + k) room (omega (arith, r.inside));
          })))
