-- ===== src/StreamId.antt =====
-- `StreamID` of src/types.hpp and src/types.cpp, the 128-bit id of an entry of a stream.
-- `hton_u64` of src/common/util/network_helper.cpp turns a number so that its bytes lie in memory
-- with the most significant first, on either kind of host; a stored id is those bytes.
pub mod Laws
use ardb.Prelude.{
  ℕ, zero, suc, ◌+◌, ◌*◌, ◌/◌, ◌%◌, ◌^◌, ◌<◌, Bool, true, false, ◌&&◌, some, none, List, [], ◌∷◌,
  ◌++◌, ltb, leb, ◌==◌, if◌then◌else◌, take, drop,
}
use ardb.Prelude.Int.{ℤ, pos, minus_one, is_negative}
use ardb.Data.{Data, sds, c_str, string_length}

pub record StreamId : Type 0 where
  pub ms : ℕ
  pub seq : ℕ

-- StreamID()
abbrev pub empty_id : StreamId
empty_id = record { ms = 0; seq = 0 }

unfoldable pub is_empty : StreamId → Bool
is_empty id = 0 == id.ms && 0 == id.seq

-- Compare
unfoldable pub compare : StreamId → StreamId → ℤ
compare id other =
    if ltb other.ms id.ms
    then pos 1
    else if ltb id.ms other.ms
    then minus_one
    else if ltb other.seq id.seq
    then pos 1
    else if ltb id.seq other.seq
    then minus_one
    else pos 0

-- The lowest `k` bytes of a number, most significant first.
unfoldable pub be_bytes : ℕ → ℕ → List ℕ
be_bytes zero v = []
be_bytes (suc k) v = be_bytes k (v / 256) ++ (v % 256) ∷ []

unfoldable pub be_value : ℕ → List ℕ → ℕ
be_value acc [] = acc
be_value acc (x ∷ xs) = be_value (acc * 256 + x) xs

-- Encode(Data& data)
unfoldable pub encode : StreamId → Data
encode id = sds (be_bytes 8 id.ms ++ be_bytes 8 id.seq)

-- Decode(const Data& data): an id that is too short leaves the old value
unfoldable pub decode : StreamId → Data → StreamId
decode old d =
    if leb 16 (string_length d)
    then elim (c_str d) [
      | some bytes ↦ record {
        ms = be_value 0 (take 8 bytes);
        seq = be_value 0 (take 8 (drop 8 bytes));
      }
      | none ↦ old
    ]
    else old
