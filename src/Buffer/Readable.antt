-- ===== src/Buffer/Readable.antt =====
-- A `Buffer` (src/common/buffer/buffer.hpp) as the queue of its bytes that are written and not
-- read.
use ardb.Prelude.{
  drop_exact, ℕ, ◌+◌, ◌-◌, ◌≤◌, ◌<◌, ◌≡◌, refl, sym, ap, ◌∙◌, none, some, List, ◌++◌, arith, leb,
  ◌==◌, if◌then◌else◌, Bool-cases, inl, inr, length, take, drop, length-append, length-take,
  length-drop, length-replicate, take-append_le, drop-append_le, take_exact, drop_add,
  take-drop-take,
}
use ardb.Buffer
use ardb.Buffer.{Buffer}
use ardb.Buffer.Grow.{grow_capacity_enough}

-- The indices are in order, and the block is as long as its length says.
pub record IsValid (b : Buffer) : Type 0 where
  pub read_le : b.m_read_idx ≤ b.m_write_idx
  pub write_le : b.m_write_idx ≤ b.m_buffer_len
  pub len_le : b.m_buffer_len ≤ length b.m_buffer

-- What a reader of the buffer still gets.
unfoldable pub contents : Buffer → List ℕ
contents b = drop b.m_read_idx (take b.m_write_idx b.m_buffer)

pub length-contents : (b : Buffer) → IsValid b → length (contents b) ≡ b.m_write_idx - b.m_read_idx
unfolding contents
length-contents b v = rw (length-drop, length-take) (omega arith)

pub readable_bytes-eq : (b : Buffer) → IsValid b → Buffer.readable_bytes b ≡ length (contents b)
unfolding Buffer.readable_bytes
readable_bytes-eq b v = ground (arith, length-contents b v)

pub raw_read_bytes-eq :
    (n : ℕ) (b : Buffer)
    → IsValid b
    → n ≤ length (contents b)
    → Buffer.raw_read_bytes n b ≡ take n (contents b)
unfolding Buffer.raw_read_bytes contents
raw_read_bytes-eq n b v h = sym (
    take-drop-take n b.m_read_idx b.m_write_idx b.m_buffer
      (omega (arith, length-contents b v, v.read_le)))

pub contents-advance :
    (n : ℕ) (b : Buffer) → contents (Buffer.advance_read_index n b) ≡ drop n (contents b)
unfolding Buffer.advance_read_index contents
contents-advance n b = drop_add n b.m_read_idx (take b.m_write_idx b.m_buffer)

pub advance-IsValid :
    (n : ℕ) (b : Buffer)
    → IsValid b
    → n ≤ length (contents b)
    → IsValid (Buffer.advance_read_index n b)
unfolding Buffer.advance_read_index
advance-IsValid n b v h = omega (arith, length-contents b v)

-- A block of the same front and room for `n` more bytes.
record HasRoom (n : ℕ) (b c : Buffer) : Type 0 where
  valid : IsValid c
  front : take c.m_write_idx c.m_buffer ≡ take b.m_write_idx b.m_buffer
  same_read : c.m_read_idx ≡ b.m_read_idx
  same_write : c.m_write_idx ≡ b.m_write_idx
  room : c.m_write_idx + n ≤ c.m_buffer_len

reallocate-HasRoom :
    (n capacity : ℕ) (b : Buffer)
    → IsValid b
    → b.m_write_idx + n ≤ capacity
    → b.m_buffer_len ≤ capacity
    → HasRoom n b (Buffer.reallocate capacity b)
unfolding Buffer.reallocate
reallocate-HasRoom n capacity b v h k = record {
  valid = record {
    read_le = v.read_le;
    write_le = omega arith;
    len_le = rw (length-append, length-take, length-replicate) (omega (arith, v.len_le));
  };
  front =
      rw (take-append_le b.m_write_idx (take b.m_buffer_len b.m_buffer) _ front_le)
        (take-drop-take b.m_write_idx 0 b.m_buffer_len b.m_buffer (omega arith));
  same_read = refl;
  same_write = refl;
  room = h;
}
  where
    front_le : b.m_write_idx ≤ length (take b.m_buffer_len b.m_buffer)
    front_le = rw length-take (omega arith)

ensure_writable_bytes-HasRoom :
    (n : ℕ) (b : Buffer) → IsValid b → HasRoom n b (Buffer.ensure_writable_bytes n b)
unfolding Buffer.ensure_writable_bytes
ensure_writable_bytes-HasRoom n b v = elim (Bool-cases (leb n (Buffer.writeable_bytes b))) [
  | inl fits ↦
      rw fits (record {
        valid = v;
        front = refl;
        same_read = refl;
        same_write = refl;
        room = ground arith;
      })
  | inr grows ↦ rw grows (
      reallocate-HasRoom n _ b v
        (grow_capacity_enough (b.m_write_idx + n) _ (b.m_write_idx + n) (ground arith)
          (ground arith)).0
        (ground (
          arith,
          grow_capacity_enough (b.m_write_idx + n)
              (if b.m_buffer_len == 0 then 32 else b.m_buffer_len) (b.m_write_idx + n),
        )))
]

module _ (bytes : List ℕ) (b c : Buffer) (h : HasRoom (length bytes) b c) where
  written : Buffer
  written = record c {
    m_buffer = Buffer.copy_to c.m_write_idx bytes c.m_buffer;
    m_write_idx = c.m_write_idx + length bytes;
  }

  length-front : length (take c.m_write_idx c.m_buffer) ≡ c.m_write_idx
  length-front = rw length-take (omega (arith, h.valid.write_le, h.valid.len_le))

  contents-written : contents written ≡ contents b ++ bytes
  unfolding written contents Buffer.copy_to
  contents-written =
      rw
        (take_exact (c.m_write_idx + length bytes) (take c.m_write_idx c.m_buffer ++ bytes) _ whole)
        (drop-append_le c.m_read_idx (take c.m_write_idx c.m_buffer) bytes
            (omega (arith, length-front, h.valid.read_le))
          ∙ cc (h.front, h.same_read))
    where
      whole : length (take c.m_write_idx c.m_buffer ++ bytes) ≡ c.m_write_idx + length bytes
      whole = rw (length-append, length-front) refl

  written-IsValid : IsValid written
  unfolding written Buffer.copy_to
  written-IsValid = record {
    read_le = omega (arith, h.valid.read_le);
    write_le = h.room;
    len_le =
        rw (length-append, length-append, length-front, length-drop)
          (omega (arith, h.valid.len_le, h.room));
  }

-- Writing to a valid buffer appends the bytes to its contents, growing the block if need be, and
-- leaves it valid.
pub write_lem :
    (bytes : List ℕ) (b : Buffer)
    → IsValid b
    → (contents (Buffer.write bytes b) ≡ contents b ++ bytes) × IsValid (Buffer.write bytes b)
unfolding Buffer.write written
write_lem bytes b v =
    let room = ensure_writable_bytes-HasRoom (length bytes) b v in
    (contents-written bytes b _ room, written-IsValid bytes b _ room)

pub read_idx-write :
    (bytes : List ℕ) (b : Buffer) → IsValid b → (Buffer.write bytes b).m_read_idx ≡ b.m_read_idx
unfolding Buffer.write
read_idx-write bytes b v = (ensure_writable_bytes-HasRoom (length bytes) b v).same_read

pub slice_from-contents :
    (b c : Buffer) (bytes : List ℕ)
    → IsValid b
    → c.m_read_idx ≡ b.m_read_idx
    → contents c ≡ contents b ++ bytes
    → Buffer.slice_from b.m_write_idx c ≡ bytes
slice_from-contents b c bytes v same e =
    unfold Buffer.slice_from in
    at_mark (drop_add (b.m_write_idx - b.m_read_idx) b.m_read_idx (take c.m_write_idx c.m_buffer))
  where
    start : b.m_read_idx + (b.m_write_idx - b.m_read_idx) ≡ b.m_write_idx
    start = omega (arith, v.read_le)

    behind : drop (b.m_write_idx - b.m_read_idx) (contents c) ≡ bytes
    behind =
        ap (drop (b.m_write_idx - b.m_read_idx)) e
        ∙ drop_exact (b.m_write_idx - b.m_read_idx) (contents b) bytes (length-contents b v)

    at_mark :
        drop (b.m_read_idx + (b.m_write_idx - b.m_read_idx)) (take c.m_write_idx c.m_buffer)
          ≡ drop (b.m_write_idx - b.m_read_idx) (drop b.m_read_idx (take c.m_write_idx c.m_buffer))
        → drop b.m_write_idx (take c.m_write_idx c.m_buffer) ≡ bytes
    at_mark h =
        ap (λ k. drop k (take c.m_write_idx c.m_buffer)) (sym start)
        ∙ h
        ∙ ap (λ k. drop (b.m_write_idx - b.m_read_idx) (drop k (take c.m_write_idx c.m_buffer)))
            (sym same)
        ∙ unfold contents in behind

read_fits :
    (n : ℕ) (b : Buffer)
    → IsValid b
    → n ≤ length (contents b)
    → Buffer.read n b ≡ (some (Buffer.raw_read_bytes n b), Buffer.advance_read_index n b)
unfolding Buffer.read Buffer.advance_read_index
read_fits n b v h = ground (arith, readable_bytes-eq b v)

-- Reading no more bytes than a valid buffer holds gives them from the front of its contents, leaves
-- the rest and leaves it valid.
pub read_lem :
    (n : ℕ) (b : Buffer)
    → IsValid b
    → n ≤ length (contents b)
    → ((Buffer.read n b).0 ≡ some (take n (contents b)))
      × (contents (Buffer.read n b).1 ≡ drop n (contents b))
      × IsValid (Buffer.read n b).1
read_lem n b v h =
    rw (read_fits n b v h)
      (ap some (raw_read_bytes-eq n b v h), contents-advance n b, advance-IsValid n b v h)

-- Reading more bytes than a valid buffer holds fails and changes nothing.
pub read_short :
    (n : ℕ) (b : Buffer) → IsValid b → length (contents b) < n → Buffer.read n b ≡ (none, b)
unfolding Buffer.read
read_short n b v h = ground (arith, readable_bytes-eq b v)
