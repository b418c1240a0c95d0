-- ===== src/Buffer.antt =====
-- The byte buffer of src/common/buffer/buffer.hpp: one block of memory, a write index that is the
-- end of what was written, and a read index that is the start of what is not read yet.
-- `m_buffer` holds the bytes of the block; those of fresh memory, which nothing reads before they
-- are written, are 0 here. Allocation does not fail, and no block reaches 2 ^ 63 bytes.
-- A method that copies out returns the bytes; `none` stands for its -1 or false.
pub mod Grow
pub mod Readable
pub mod Discard
use ardb.Prelude.{
  ℕ, zero, suc, ◌+◌, ◌-◌, ◌*◌, ◌%◌, ◌^◌, Bool, true, false, not, ◌&&◌, ◌||◌, Option, none, some,
  List, [], ◌∷◌, ◌++◌, ltb, leb, ◌==◌, if◌then◌else◌, length, take, drop, replicate, min,
}

-- class Buffer
pub record Buffer : Type 0 where
  pub m_buffer : List ℕ
  pub m_buffer_len : ℕ
  pub m_write_idx : ℕ
  pub m_read_idx : ℕ
  pub m_in_heap : Bool

abbrev pub default_buffer_size : ℕ
default_buffer_size = 32

-- Buffer()
abbrev pub new_buffer : Buffer
new_buffer = record {
  m_buffer = [];
  m_buffer_len = 0;
  m_write_idx = 0;
  m_read_idx = 0;
  m_in_heap = true;
}

-- Buffer(char* value, int off, int len): the block belongs to the caller. The two numbers are below
-- 2 ^ 31.
abbrev pub wrap : List ℕ → ℕ → Buffer
wrap value off = record {
  m_buffer = value;
  m_buffer_len = length value;
  m_write_idx = length value;
  m_read_idx = off;
  m_in_heap = false;
}

unfoldable pub readable : Buffer → Bool
readable b = ltb b.m_read_idx b.m_write_idx

unfoldable pub writeable : Buffer → Bool
writeable b = ltb b.m_write_idx b.m_buffer_len

unfoldable pub readable_bytes : Buffer → ℕ
unfolding readable
readable_bytes b = if readable b then b.m_write_idx - b.m_read_idx else 0

unfoldable pub writeable_bytes : Buffer → ℕ
unfolding writeable
writeable_bytes b = if writeable b then b.m_buffer_len - b.m_write_idx else 0

unfoldable pub clear : Buffer → Buffer
clear b = record b { m_write_idx = 0; m_read_idx = 0 }

-- Its result, and the buffer, which is cleared also where it refuses.
unfoldable pub wrap_readable_content : List ℕ → Buffer → Bool × Buffer
unfolding clear
wrap_readable_content bytes b =
    let b = clear b in
    if b.m_in_heap && ltb 0 b.m_buffer_len then (false, b) else (true, wrap bytes 0)

unfoldable pub set_read_index : ℕ → Buffer → Buffer
set_read_index idx b = record b { m_read_idx = idx }

unfoldable pub advance_read_index : ℕ → Buffer → Buffer
advance_read_index step b = record b { m_read_idx = b.m_read_idx + step }

-- The bytes that `memcpy` from `GetRawReadBuffer()` takes.
unfoldable pub raw_read_bytes : ℕ → Buffer → List ℕ
raw_read_bytes n b = take n (drop b.m_read_idx b.m_buffer)

-- `while (newCapacity < minNewCapacity) newCapacity <<= 1;`, on a `size_t`
unfoldable pub grow_size_t : ℕ → ℕ → ℕ → ℕ
grow_size_t zero capacity least = capacity
grow_size_t (suc fuel) capacity least = elim (ltb capacity least) [
  | true ↦ grow_size_t fuel (capacity * 2 % 2 ^ 64) least
  | false ↦ capacity
]

-- The loop for requests up to 2 ^ 63, which do not wrap around; `ensure_writable_bytes` takes it.
unfoldable pub grow_capacity : ℕ → ℕ → ℕ → ℕ
grow_capacity zero capacity least = capacity
grow_capacity (suc fuel) capacity least = elim (ltb capacity least) [
  | true ↦ grow_capacity fuel (capacity * 2) least
  | false ↦ capacity
]

-- The block of the new capacity, with the old block copied to its front.
unfoldable pub reallocate : ℕ → Buffer → Buffer
reallocate capacity b = record b {
  m_buffer = take b.m_buffer_len b.m_buffer ++ replicate (capacity - b.m_buffer_len) 0;
  m_buffer_len = capacity;
  m_in_heap = true;
}

-- The fuel is the number of bytes to reach: a capacity of at least 1 doubles to it in fewer rounds.
unfoldable pub ensure_writable_bytes : ℕ → Buffer → Buffer
unfolding writeable_bytes grow_capacity reallocate
ensure_writable_bytes n b =
    if leb n (writeable_bytes b)
    then b
    else (let capacity = if b.m_buffer_len == 0 then default_buffer_size else b.m_buffer_len in
        let least = b.m_write_idx + n in reallocate (grow_capacity least capacity least) b)

-- int Read(void* data_out, size_t datlen)
unfoldable pub read : ℕ → Buffer → Option (List ℕ) × Buffer
unfolding readable_bytes raw_read_bytes
read n b =
    if ltb (readable_bytes b) n
    then (none, b)
    else (some (raw_read_bytes n b), record b { m_read_idx = b.m_read_idx + n })

-- memcpy(m_buffer + at, bytes, length bytes)
unfoldable pub copy_to : ℕ → List ℕ → List ℕ → List ℕ
copy_to at bytes block = take at block ++ bytes ++ drop (at + length bytes) block

-- int Write(const void* data_in, size_t datlen)
unfoldable pub write : List ℕ → Buffer → Buffer
unfolding copy_to
write bytes b =
    let b' = ensure_writable_bytes (length bytes) b in
    record b' {
      m_buffer = copy_to b'.m_write_idx bytes b'.m_buffer;
      m_write_idx = b'.m_write_idx + length bytes;
    }

unfoldable pub write_byte : ℕ → Buffer → Buffer
write_byte ch b = write (ch ∷ []) b

-- bool ReadByte(char& ch)
unfoldable pub read_byte : Buffer → Option ℕ × Buffer
read_byte b = let (r, b') = read 1 b in (elim r [ some (ch ∷ _) ↦ some ch | _ ↦ none ], b')

-- int Write(Buffer* unit, size_t datlen): moves bytes from `source`
unfoldable pub write_from : Buffer → ℕ → Buffer → Buffer × Buffer
unfolding readable_bytes raw_read_bytes write
write_from source n b =
    let n' = if ltb (readable_bytes source) n then readable_bytes source else n in
    (write (raw_read_bytes n' source) b, record source { m_read_idx = source.m_read_idx + n' })

-- int SetBytes(void* data, size_t datlen, size_t index)
unfoldable pub set_bytes : List ℕ → ℕ → Buffer → Option Buffer
unfolding copy_to
set_bytes bytes index b =
    if ltb b.m_write_idx (index + length bytes)
    then none
    else some (record b { m_buffer = copy_to index bytes b.m_buffer })

-- int Copyout(void* data_out, size_t datlen)
unfoldable pub copyout : ℕ → Buffer → List ℕ
unfolding readable_bytes raw_read_bytes
copyout n b =
    if n == 0
    then []
    else raw_read_bytes (if ltb (readable_bytes b) n then readable_bytes b else n) b

unfoldable pub skip_bytes : ℕ → Buffer → Buffer
unfolding advance_read_index
skip_bytes n b = advance_read_index n b

unfoldable pub discard_readed_bytes : Buffer → Buffer
discard_readed_bytes b =
    if ltb 0 b.m_read_idx
    then (if readable b
        then record b {
          m_buffer = copy_to 0 (raw_read_bytes (readable_bytes b) b) b.m_buffer;
          m_read_idx = 0;
          m_write_idx = readable_bytes b;
        }
        else record b { m_read_idx = 0; m_write_idx = 0 })
    else b

-- size_t Compact(size_t leastLength); the two counts are kept in `uint32_t` variables.
unfoldable pub compact : ℕ → Buffer → ℕ × Buffer
compact least b =
    let b = if readable b then b else clear b in
    let writable_count = writeable_bytes b % 2 ^ 32 in
    let readable_count = readable_bytes b % 2 ^ 32 in
    if ltb writable_count least then (0, b) else (
      readable_count + least,
      record {
        m_buffer = raw_read_bytes readable_count b ++ replicate least 0;
        m_buffer_len = readable_count + least;
        m_write_idx = readable_count;
        m_read_idx = 0;
        m_in_heap = true;
      },
    )

-- Slice(GetRawBuffer() + mark, GetWriteIndex() - mark): what was written since `mark`
unfoldable pub slice_from : ℕ → Buffer → List ℕ
slice_from mark b = drop mark (take b.m_write_idx b.m_buffer)
