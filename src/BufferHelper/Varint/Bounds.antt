-- ===== src/BufferHelper/Varint/Bounds.antt =====
-- The local arrays of the varint writers of src/common/buffer/buffer_helper.cpp.
use ardb.Prelude.{
  ℕ, zero, suc, ◌+◌, ◌/◌, ◌%◌, ◌^◌, ◌≤◌, ◌<◌, ◌≡◌, ap, arith, some, List, [], ◌∷◌, length, All,
  Option-cases, inl, inr, bit_and, bit_or,
}
use ardb.Prelude.Bits.{low_bits, set_top_bit}
use ardb.BufferHelper.Varint.{varint_bytes}
use native.Mathlib.Nat.{pow-suc}
use native.Mathlib.Decide.{dec_lt}

pub low_group : (v : ℕ) → bit_and (v % 256) 0x7f ≡ v % 128
low_group v = omega (arith, low_bits (v % 256) (omega arith))

pub inner_group : (v : ℕ) → bit_or (bit_and (v % 256) 0x7f) 0x80 ≡ v % 128 + 128
inner_group v =
    omega (arith, ap (λ (t : ℕ). bit_or t 0x80) (low_group v), set_top_bit (v % 128) (omega arith))

-- The two rounds of the loop, in plain arithmetic.
pub varint_bytes_last : (room i : ℕ) → i < 128 → varint_bytes (suc room) i ≡ some (i ∷ [])
unfolding varint_bytes
varint_bytes_last room i h = ground (arith, low_group i)

pub varint_bytes_more :
    (room i : ℕ) {bytes : List ℕ}
    → 128 ≤ i
    → varint_bytes room (i / 128) ≡ some bytes
    → varint_bytes (suc room) i ≡ some ((i % 128 + 128) ∷ bytes)
unfolding varint_bytes
varint_bytes_more room i h e = ground (arith, inner_group i)

pub varint_bytes_inv :
    (room i : ℕ) (bytes : List ℕ)
    → 128 ≤ i
    → varint_bytes (suc room) i ≡ some bytes
    → (rest : List ℕ) × (varint_bytes room (i / 128) ≡ some rest) × (bytes ≡ (i % 128 + 128) ∷ rest)
varint_bytes_inv room i bytes h e = elim (Option-cases (varint_bytes room (i / 128))) [
  | inl nothing ↦ unfold varint_bytes in ground arith
  | inr (rest, e') ↦ (rest, e', cc (e, varint_bytes_more room i h e'))
]

-- The loop of the varint writers stays inside a local array of `room` bytes, at least one, for
-- every number below 128 ^ room; it fills at least one byte, and every entry is a byte.
pub varint_bytes_fit :
    (room i : ℕ)
    → 1 ≤ room
    → i < 128 ^ room
    → (bytes : List ℕ) × (varint_bytes room i ≡ some bytes)
      × (1 ≤ length bytes)
      × (length bytes ≤ room)
      × All (λ x. x < 256) bytes
varint_bytes_fit zero i h k = absurd (omega arith)
varint_bytes_fit (suc zero) i h k =
    (i ∷ [], varint_bytes_last 0 i (omega arith), omega arith, omega arith, (omega arith, tt))
varint_bytes_fit (suc (suc room)) i h k = elim (dec_lt i 128) [
  | yes small ↦
      (i ∷ [], varint_bytes_last (suc room) i small, omega arith, omega arith, (omega arith, tt))
  | no large ↦
      let (bytes, e, lo, hi, each) =
        varint_bytes_fit (suc room) (i / 128) (omega arith)
          (omega (arith, pow-suc 128 (suc room))) in
      (
        (i % 128 + 128) ∷ bytes,
        varint_bytes_more (suc room) i (omega arith) e,
        omega arith,
        omega arith,
        (omega arith, each),
      )
]

-- More room changes nothing where the bytes fit.
pub varint_bytes_room :
    (room more i : ℕ) (bytes : List ℕ)
    → room ≤ more
    → varint_bytes room i ≡ some bytes
    → varint_bytes more i ≡ some bytes
varint_bytes_room zero more i bytes h e = unfold varint_bytes in cc
varint_bytes_room (suc room) zero i bytes h e = absurd (omega arith)
varint_bytes_room (suc room) (suc more) i bytes h e = elim (dec_lt i 128) [
  | yes small ↦ cc (e, varint_bytes_last room i small, varint_bytes_last more i small)
  | no large ↦
      let (rest, e', shape) = varint_bytes_inv room i bytes (omega arith) e in
      rw shape (
        varint_bytes_more more i (omega arith)
          (varint_bytes_room room more (i / 128) rest (omega arith) e'))
]
