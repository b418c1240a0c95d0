-- ===== src/MetaObject.antt =====
-- `MetaObject` of src/db/codec.hpp and src/db/codec.cpp: what a record says of the whole key.
-- The format is a byte; the time to live and the size are 64-bit patterns.
pub mod Codec
use ardb.Prelude.{ℕ, ◌-◌, ◌^◌, Bool, true, false, ◌||◌, [], ◌∷◌, ◌==◌, not, if◌then◌else◌}
use ardb.Buffer
use ardb.ByteIo.{Reader, Writer, pure, fail, ◌>>=◌, ◌⨾◌, skip, write_all}
use ardb.BufferHelper.Varint.{write_var_int64, read_var_int64}
use ardb.Data
use ardb.StreamId
use ardb.StreamId.{StreamId, empty_id}
use ardb.KeyType.{key_string, key_hash, key_list, key_set, key_zset, key_stream}

pub record MetaObject : Type 0 where
  pub format : ℕ
  pub ttl : ℕ
  pub size : ℕ
  pub list_sequential : Bool
  pub stream_last_id : StreamId

abbrev pub k_current_meta_format : ℕ
k_current_meta_format = 0

-- -1
abbrev pub unknown_size : ℕ
unknown_size = 2 ^ 64 - 1

-- MetaObject()
abbrev pub new_meta : MetaObject
new_meta = record {
  format = k_current_meta_format;
  ttl = 0;
  size = unknown_size;
  list_sequential = true;
  stream_last_id = empty_id;
}

-- Clear(), which leaves the last stream id
unfoldable pub clear : MetaObject → MetaObject
clear m = record m {
  format = k_current_meta_format;
  ttl = 0;
  size = unknown_size;
  list_sequential = true;
}

-- The types with a size.
abbrev pub has_size : ℕ → Bool
has_size t = t == key_list || t == key_set || t == key_zset || t == key_hash || t == key_stream

-- The types of a whole key, whose records carry metadata.
abbrev pub has_meta : ℕ → Bool
has_meta t = t == key_string || has_size t

-- Encode(buffer, type)
unfoldable pub encode : ℕ → MetaObject → Writer
encode t m =
    write_all (m.format ∷ [])
    ⨾ write_var_int64 m.ttl
    ⨾ (if has_size t then write_var_int64 m.size else skip)
    ⨾ (if t == key_list
        then write_all ((if m.list_sequential then 1 else 0) ∷ [])
        else if t == key_stream
        then Data.encode (StreamId.encode m.stream_last_id)
        else skip)

-- The size, for a type that has one. For a type that is no string either, FATAL_LOG aborts.
unfoldable pub decode_size : ℕ → MetaObject → Reader MetaObject
decode_size t m =
    if t == key_string
    then pure m
    else if has_size t
    then (do size ← read_var_int64; pure (record m { size = size }))
    else fail

-- What follows for a list and for a stream.
unfoldable pub decode_tail : ℕ → MetaObject → Reader MetaObject
decode_tail t m =
    if t == key_list
    then (do tmp ← Buffer.read_byte; pure (record m { list_sequential = not (tmp == 0) }))
    else if t == key_stream
    then (do
      data1 ← Data.decode false
      pure (record m { stream_last_id = StreamId.decode m.stream_last_id data1 }))
    else pure m

-- Decode(buffer, type), into an object that is there
unfoldable pub decode : ℕ → MetaObject → Reader MetaObject
decode t m = do
  tmp ← Buffer.read_byte
  ttl ← read_var_int64
  sized ← decode_size t (record m { format = tmp; ttl = ttl })
  decode_tail t sized
