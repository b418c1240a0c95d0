-- ===== src/KeyType.antt =====
-- `enum KeyType` of src/db/codec.hpp and `element_type` of src/db/codec.cpp. A type is the byte
-- that stands for it in the store.
use ardb.Prelude.{ℕ, Option, some, none, ◌==◌, if◌then◌else◌}

abbrev pub key_unknown : ℕ
key_unknown = 0

abbrev pub key_meta : ℕ
key_meta = 1

abbrev pub key_string : ℕ
key_string = 2

abbrev pub key_hash : ℕ
key_hash = 3

abbrev pub key_hash_field : ℕ
key_hash_field = 4

abbrev pub key_list : ℕ
key_list = 5

abbrev pub key_list_element : ℕ
key_list_element = 6

abbrev pub key_set : ℕ
key_set = 7

abbrev pub key_set_member : ℕ
key_set_member = 8

abbrev pub key_zset : ℕ
key_zset = 9

abbrev pub key_zset_sort : ℕ
key_zset_sort = 10

abbrev pub key_zset_score : ℕ
key_zset_score = 11

abbrev pub key_stream : ℕ
key_stream = 12

abbrev pub key_stream_element : ℕ
key_stream_element = 13

abbrev pub key_stream_pel : ℕ
key_stream_pel = 14

abbrev pub key_ttl_sort : ℕ
key_ttl_sort = 29

abbrev pub key_merge : ℕ
key_merge = 30

-- `none` is abort()
unfoldable pub element_type : ℕ → Option ℕ
element_type t =
    if t == key_hash
    then some key_hash_field
    else if t == key_list
    then some key_list_element
    else if t == key_set
    then some key_set_member
    else if t == key_zset
    then some key_zset_score
    else none
