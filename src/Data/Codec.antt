-- ===== src/Data/Codec.antt =====
-- The byte form of a `Data`, for `Encode` and `Decode` of src/types.cpp.
use ardb.Prelude.{
  ℕ, ◌^◌, ◌≤◌, ◌<◌, ◌≡◌, refl, ap, ◌∙◌, subst, Bool, false, some, List, [], ◌∷◌, ◌++◌, append-nil,
  arith, length, length-append, take, drop, take_exact, drop_exact, if◌then◌else◌, ltb,
}
use ardb.Buffer
use ardb.Buffer.{Buffer}
use ardb.Buffer.Readable.{
  IsValid, contents, readable_bytes-eq, raw_read_bytes-eq, contents-advance, advance-IsValid,
}
use ardb.ByteIo.{
  pure, ◌>>=◌, ◌⨾◌, write_all, Parses, Writes, Parses-pure, Parses-bind, Parses-read_byte,
  Writes-then, Writes-write_all,
}
use ardb.BufferHelper.Varint.{read_var_int64, read_var_uint32, write_var_uint32}
use ardb.BufferHelper.Varint.RoundTrip.{
  uvarint, svarint, Writes-var_int64, Writes-var_uint32, Parses-var_int64, Parses-var_uint32,
}
use ardb.Data.{Data, nil, int64, float64, cstr, sds, encode, decode, decode_string, take_raw}

-- Numbers are 64 bits; a string is shorter than 2 ^ 31 bytes.
abbrev pub IsData : Data → Type 0
IsData nil = Unit
IsData (int64 v) = v < 2 ^ 64
IsData (float64 v) = v < 2 ^ 64
IsData (cstr s) = length s < 2 ^ 31
IsData (sds s) = length s < 2 ^ 31

unfoldable pub data_bytes : Data → List ℕ
data_bytes nil = 0 ∷ []
data_bytes (int64 v) = 1 ∷ svarint v
data_bytes (float64 v) = 2 ∷ svarint v
data_bytes (cstr s) = 4 ∷ (uvarint (length s) ++ s)
data_bytes (sds s) = 4 ∷ (uvarint (length s) ++ s)

-- The same value, its string owned if the reader clones and borrowed if not.
abbrev pub reowned : Bool → Data → Data
reowned clone (cstr s) = if clone then sds s else cstr s
reowned clone (sds s) = if clone then sds s else cstr s
reowned clone d = d

Writes-string :
    (s : List ℕ)
    → length s < 2 ^ 31
    → Writes
        (write_all (4 ∷ []) ⨾ write_var_uint32 (length s) ⨾ write_all s)
        (4 ∷ (uvarint (length s) ++ s))
Writes-string s h =
    Writes-then _ _
      (Writes-then _ _ (Writes-write_all (4 ∷ [])) (Writes-var_uint32 (length s) (omega arith)))
      (Writes-write_all s)

-- For a value with `IsData` (numbers of 64 bits, strings below 2 ^ 31 bytes), `Data::Encode`
-- appends to the contents of any valid buffer exactly its byte form, leaves it valid and does not
-- move its read index.
pub Writes-encode : (d : Data) → IsData d → Writes (encode d) (data_bytes d)
unfolding encode data_bytes
Writes-encode nil h = Writes-write_all (0 ∷ [])
Writes-encode (int64 v) h = Writes-then _ _ (Writes-write_all (1 ∷ [])) (Writes-var_int64 v h)
Writes-encode (float64 v) h = Writes-then _ _ (Writes-write_all (2 ∷ [])) (Writes-var_int64 v h)
Writes-encode (cstr s) h = Writes-string s h
Writes-encode (sds s) h = Writes-string s h

pub Parses-take_raw : (s : List ℕ) → Parses (take_raw (length s)) s s
unfolding take_raw
Parses-take_raw s = record { run = taken }
  where
    taken :
        (b : Buffer) (rest : List ℕ)
        → IsValid b
        → contents b ≡ s ++ rest
        → ((take_raw (length s) b).0 ≡ some s)
          × (contents (take_raw (length s) b).1 ≡ rest)
          × IsValid (take_raw (length s) b).1
    taken b rest v e =
        let fits : length s ≤ length (contents b) = rw (e, length-append) (omega arith) in
        let enough : ltb (Buffer.readable_bytes b) (length s) ≡ false =
          ground (arith, readable_bytes-eq b v) in
        rw enough (
          ap some (
              raw_read_bytes-eq (length s) b v fits
              ∙ ap (take (length s)) e
              ∙ take_exact (length s) s rest refl),
          contents-advance (length s) b
              ∙ ap (drop (length s)) e
              ∙ drop_exact (length s) s rest refl,
          advance-IsValid (length s) b v fits,
        )

Parses-decode_string :
    (clone : Bool) (s : List ℕ)
    → length s < 2 ^ 31
    → Parses (decode_string clone) (uvarint (length s) ++ s) (if clone then sds s else cstr s)
unfolding decode_string
Parses-decode_string clone s h =
    subst
      (λ l.
        Parses (decode_string clone) (uvarint (length s) ++ l) (if clone then sds s else cstr s))
      (append-nil s)
      (Parses-bind read_var_uint32 _ (Parses-var_uint32 (length s) (omega arith))
        (Parses-bind (take_raw (length s)) _ (Parses-take_raw s) (Parses-pure _)))

Parses-number :
    (wrap : ℕ → Data) (v : ℕ)
    → v < 2 ^ 64
    → Parses (read_var_int64 >>= λ n. pure (wrap n)) (svarint v) (wrap v)
Parses-number wrap v h =
    subst (λ l. Parses (read_var_int64 >>= λ n. pure (wrap n)) l (wrap v)) (append-nil (svarint v))
      (Parses-bind read_var_int64 _ (Parses-var_int64 v h) (Parses-pure _))

-- For a value with `IsData`, `Data::Decode` on a valid buffer whose unread bytes start with the
-- value's byte form takes exactly that form and gives the value, its string owned if a clone was
-- asked for and borrowed if not.
pub Parses-decode :
    (clone : Bool) (d : Data) → IsData d → Parses (decode clone) (data_bytes d) (reowned clone d)
unfolding decode data_bytes
Parses-decode clone nil h = Parses-bind Buffer.read_byte _ (Parses-read_byte 0) (Parses-pure nil)
Parses-decode clone (int64 v) h =
    Parses-bind Buffer.read_byte _ (Parses-read_byte 1) (Parses-number int64 v h)
Parses-decode clone (float64 v) h =
    Parses-bind Buffer.read_byte _ (Parses-read_byte 2) (Parses-number float64 v h)
Parses-decode clone (cstr s) h =
    Parses-bind Buffer.read_byte _ (Parses-read_byte 4) (Parses-decode_string clone s h)
Parses-decode clone (sds s) h =
    Parses-bind Buffer.read_byte _ (Parses-read_byte 4) (Parses-decode_string clone s h)
