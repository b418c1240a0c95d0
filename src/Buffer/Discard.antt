-- ===== src/Buffer/Discard.antt =====
-- Moving the unread bytes to the front: `Buffer::DiscardReadedBytes` and `Buffer::Compact`.
use ardb.Prelude.{
  if◌then◌else◌, ◌++◌, ◌%◌, ◌^◌, ◌<◌, true, replicate, length-replicate, ◌+◌, ℕ, ◌≤◌, ◌≡◌, refl,
  sym, ap, ◌∙◌, inl, inr, Bool, false, List, [], ◌∷◌, arith, ltb, Bool-cases, length, length-append,
  length-drop, take_exact, take_ge,
}
use ardb.Buffer
use ardb.Buffer.{Buffer}
use ardb.Buffer.Readable.{IsValid, contents, length-contents, readable_bytes-eq, raw_read_bytes-eq}

-- All that is unread.
all_unread :
    (b : Buffer) → IsValid b → Buffer.raw_read_bytes (Buffer.readable_bytes b) b ≡ contents b
all_unread b v =
    raw_read_bytes-eq _ b v (omega (arith, readable_bytes-eq b v))
    ∙ take_ge _ _ (omega (arith, readable_bytes-eq b v))

no_bytes : (xs : List ℕ) → length xs ≡ 0 → xs ≡ []
no_bytes [] h = refl
no_bytes (x ∷ xs) h = ground arith

-- A block that starts with the unread bytes.
moved-IsValid :
    (b : Buffer) (block : List ℕ) (len : ℕ) (heap : Bool)
    → Buffer.readable_bytes b ≤ len
    → len ≤ length block
    → IsValid (record {
      m_buffer = block;
      m_buffer_len = len;
      m_write_idx = Buffer.readable_bytes b;
      m_read_idx = 0;
      m_in_heap = heap;
    })
moved-IsValid b block len heap h k = record { read_le = omega arith; write_le = h; len_le = k }

-- The unread bytes at the front of the block.
abbrev moved : Buffer → Buffer
moved b = record b {
  m_buffer = Buffer.copy_to 0 (Buffer.raw_read_bytes (Buffer.readable_bytes b) b) b.m_buffer;
  m_read_idx = 0;
  m_write_idx = Buffer.readable_bytes b;
}

length-unread :
    (b : Buffer)
    → IsValid b
    → length (Buffer.raw_read_bytes (Buffer.readable_bytes b) b) ≡ Buffer.readable_bytes b
length-unread b v = ap length (all_unread b v) ∙ sym (readable_bytes-eq b v)

moved-contents : (b : Buffer) → IsValid b → contents (moved b) ≡ contents b
unfolding contents Buffer.copy_to
moved-contents b v =
    take_exact (Buffer.readable_bytes b) (Buffer.raw_read_bytes (Buffer.readable_bytes b) b) _
      (length-unread b v)
    ∙ all_unread b v

moved_fits : (b : Buffer) → IsValid b → IsValid (moved b)
unfolding Buffer.copy_to
moved_fits b v =
    moved-IsValid b _ b.m_buffer_len b.m_in_heap
      (omega (arith, readable_bytes-eq b v, length-contents b v, v.write_le))
      (rw (length-append, length-drop) (omega (arith, length-unread b v, v.len_le)))

nothing_left : (b : Buffer) → IsValid b → Buffer.readable b ≡ false → contents b ≡ []
unfolding Buffer.readable
nothing_left b v none_left = no_bytes (contents b) (length-contents b v ∙ ground arith)

emptied-contents : (b : Buffer) → contents (record b { m_read_idx = 0; m_write_idx = 0 }) ≡ []
unfolding contents
emptied-contents b = refl

-- `DiscardReadedBytes` on a valid buffer keeps the contents and the validity, and puts the read
-- index at 0.
pub discard_readed_bytes-contents :
    (b : Buffer)
    → IsValid b
    → (contents (Buffer.discard_readed_bytes b) ≡ contents b)
      × IsValid (Buffer.discard_readed_bytes b)
      × ((Buffer.discard_readed_bytes b).m_read_idx ≡ 0)
unfolding Buffer.discard_readed_bytes
discard_readed_bytes-contents b v = elim (Bool-cases (ltb 0 b.m_read_idx)) [
  | inr at_front ↦ rw at_front (refl, v, ground arith)
  | inl behind ↦ elim (Bool-cases (Buffer.readable b)) [
    | inl some_left ↦ rw (behind, some_left) (moved-contents b v, moved_fits b v, refl)
    | inr none_left ↦
        rw (behind, none_left)
          (
            emptied-contents b ∙ sym (nothing_left b v none_left),
            record { read_le = omega arith; write_le = omega arith; len_le = v.len_le },
            refl,
          )
  ]
]

-- The block that Compact makes.
abbrev compacted : ℕ → ℕ → Buffer → Buffer
compacted least n b = record {
  m_buffer = Buffer.raw_read_bytes n b ++ replicate least 0;
  m_buffer_len = n + least;
  m_write_idx = n;
  m_read_idx = 0;
  m_in_heap = true;
}

compacted-contents :
    (least : ℕ) (b : Buffer)
    → IsValid b
    → (contents (compacted least (Buffer.readable_bytes b) b) ≡ contents b)
      × IsValid (compacted least (Buffer.readable_bytes b) b)
unfolding contents
compacted-contents least b v = (
  take_exact (Buffer.readable_bytes b) (Buffer.raw_read_bytes (Buffer.readable_bytes b) b) _
        (length-unread b v)
      ∙ all_unread b v,
  record {
    read_le = omega arith;
    write_le = omega arith;
    len_le = rw (length-append, length-replicate) (omega (arith, length-unread b v));
  },
)

-- What Compact does once a buffer with nothing to read is cleared.
abbrev compact_rest : ℕ → Buffer → ℕ × Buffer
compact_rest least b =
    let readable_count = Buffer.readable_bytes b % 2 ^ 32 in
    if ltb (Buffer.writeable_bytes b % 2 ^ 32) least
    then (0, b)
    else (readable_count + least, compacted least readable_count b)

compact_rest-contents :
    (least : ℕ) (b : Buffer)
    → IsValid b
    → b.m_buffer_len < 2 ^ 32
    → (contents (compact_rest least b).1 ≡ contents b) × IsValid (compact_rest least b).1
compact_rest-contents least b v small =
    elim (Bool-cases (ltb (Buffer.writeable_bytes b % 2 ^ 32) least)) [
      | inl short ↦ rw short (refl, v)
      | inr fits ↦ rw (fits, fits_uint32) (compacted-contents least b v)
    ]
  where
    fits_uint32 : Buffer.readable_bytes b % 2 ^ 32 ≡ Buffer.readable_bytes b
    fits_uint32 = omega (arith, readable_bytes-eq b v, length-contents b v, v.write_le)

cleared-IsValid : (b : Buffer) → IsValid b → IsValid (Buffer.clear b)
unfolding Buffer.clear
cleared-IsValid b v = record { read_le = omega arith; write_le = omega arith; len_le = v.len_le }

cleared-contents : (b : Buffer) → contents (Buffer.clear b) ≡ []
unfolding contents Buffer.clear
cleared-contents b = refl

cleared_len : (b : Buffer) → (Buffer.clear b).m_buffer_len ≡ b.m_buffer_len
unfolding Buffer.clear
cleared_len b = refl

-- `Compact` on a valid buffer whose block is below 2 ^ 32 bytes keeps the contents and the
-- validity, whether or not it makes a new block.
pub compact-contents :
    (least : ℕ) (b : Buffer)
    → IsValid b
    → b.m_buffer_len < 2 ^ 32
    → (contents (Buffer.compact least b).1 ≡ contents b) × IsValid (Buffer.compact least b).1
unfolding Buffer.compact
compact-contents least b v small = elim (Bool-cases (Buffer.readable b)) [
  | inl some_left ↦ rw some_left (compact_rest-contents least b v small)
  | inr none_left ↦
      let rest =
        compact_rest-contents least (Buffer.clear b) (cleared-IsValid b v)
          (rw (cleared_len b) small) in
      rw none_left (rest.0 ∙ cleared-contents b ∙ sym (nothing_left b v none_left), rest.1)
]
