-- ===== src/StreamId/Laws.antt =====
-- The stored form of a stream id (`StreamID` of src/types.cpp).
use ardb.Prelude.{
  ℕ, zero, suc, ◌+◌, ◌*◌, ◌/◌, ◌%◌, ◌^◌, ◌<◌, ◌≡◌, refl, ap, ap₂, sym, ◌∙◌, true, false, List, [],
  ◌∷◌, ◌++◌, append_assoc, arith, ltb, leb, take_ge, if◌then◌else◌, length, length-append, take,
  drop, take_exact, drop_exact, append-nil,
}
use ardb.Prelude.Int.{is_negative}
use ardb.Data.{compare_bytes, string_length, c_str}
use ardb.Data.Order.{lex_lt, compare_bytes-lex_lt}
use ardb.StreamId.{StreamId, compare, be_bytes, be_value, encode, decode}
use native.Mathlib.Nat.{pow-suc}

pub length-be_bytes : (k v : ℕ) → length (be_bytes k v) ≡ k
unfolding be_bytes
length-be_bytes zero v = refl
length-be_bytes (suc k) v = rw length-append (omega (arith, length-be_bytes k (v / 256)))

be_value-append :
    (xs : List ℕ) (acc x : ℕ) → be_value acc (xs ++ x ∷ []) ≡ be_value acc xs * 256 + x
unfolding be_value
be_value-append [] acc x = refl
be_value-append (y ∷ xs) acc x = be_value-append xs (acc * 256 + y) x

be_value-be_bytes : (k v : ℕ) → v < 256 ^ k → be_value 0 (be_bytes k v) ≡ v
unfolding be_bytes
be_value-be_bytes zero v h = unfold be_value in omega arith
be_value-be_bytes (suc k) v h =
    be_value-append (be_bytes k (v / 256)) 0 (v % 256)
    ∙ omega (arith, be_value-be_bytes k (v / 256) (omega (arith, pow-suc 256 k)))

-- Numbers of the same number of bytes are ordered as those bytes, then by what follows.
lex_lt-be_bytes :
    (k a b : ℕ) (u v : List ℕ)
    → a < 256 ^ k
    → b < 256 ^ k
    → lex_lt (be_bytes k a ++ u) (be_bytes k b ++ v)
      ≡ (if ltb a b then true else if ltb b a then false else lex_lt u v)
unfolding be_bytes
lex_lt-be_bytes zero a b u v ha hb = ground arith
lex_lt-be_bytes (suc k) a b u v ha hb =
    rw
      (
        append_assoc (be_bytes k (a / 256)) ((a % 256) ∷ []) u,
        append_assoc (be_bytes k (b / 256)) ((b % 256) ∷ []) v,
      )
      (ground (
        arith,
        pow-suc 256 k,
        lex_lt-be_bytes k (a / 256) (b / 256) ((a % 256) ∷ u) ((b % 256) ∷ v),
      ))

abbrev pub IsU64Id : StreamId → Type 0
IsU64Id id = (id.ms < 2 ^ 64) × (id.seq < 2 ^ 64)

abbrev pub stored : StreamId → List ℕ
stored id = be_bytes 8 id.ms ++ be_bytes 8 id.seq

lex_lt-seq : (x y : ℕ) → x < 2 ^ 64 → y < 2 ^ 64 → lex_lt (be_bytes 8 x) (be_bytes 8 y) ≡ ltb x y
lex_lt-seq x y h k =
    ap₂ lex_lt (sym (append-nil (be_bytes 8 x))) (sym (append-nil (be_bytes 8 y)))
    ∙ lex_lt-be_bytes 8 x y [] [] h k
    ∙ ground arith

pub length-stored : (id : StreamId) → length (stored id) ≡ 16
length-stored id =
    rw length-append (omega (arith, length-be_bytes 8 id.ms, length-be_bytes 8 id.seq))

-- For two ids of 64-bit numbers, the stored byte strings are in the dictionary order of
-- `Data::Compare` the one before the other exactly when the ids are so by `StreamID::Compare`.
pub compare-encode :
    (a b : StreamId)
    → IsU64Id a
    → IsU64Id b
    → is_negative (compare_bytes (stored a) (stored b)) ≡ is_negative (compare a b)
unfolding compare
compare-encode a b ha hb =
    compare_bytes-lex_lt (stored a) (stored b) (omega (arith, length-stored a))
      (omega (arith, length-stored b))
    ∙ lex_lt-be_bytes 8 a.ms b.ms _ _ ha.0 hb.0
    ∙ ground (arith, lex_lt-seq a.seq b.seq ha.1 hb.1)

-- An id of 64-bit numbers that was stored is read back, whatever the old id.
pub decode-encode : (old id : StreamId) → IsU64Id id → decode old (encode id) ≡ id
unfolding decode encode string_length c_str
decode-encode old id h = rw (long_enough) (cc (ms_back, seq_back))
  where
    long_enough : leb 16 (length (stored id)) ≡ true
    long_enough = ground (arith, length-stored id)

    ms_back : be_value 0 (take 8 (stored id)) ≡ id.ms
    ms_back =
        ap (be_value 0)
          (take_exact 8 (be_bytes 8 id.ms) (be_bytes 8 id.seq) (length-be_bytes 8 id.ms))
        ∙ be_value-be_bytes 8 id.ms (omega (arith, h.0))

    seq_back : be_value 0 (take 8 (drop 8 (stored id))) ≡ id.seq
    seq_back =
        ap (λ l. be_value 0 (take 8 l))
          (drop_exact 8 (be_bytes 8 id.ms) (be_bytes 8 id.seq) (length-be_bytes 8 id.ms))
        ∙ ap (be_value 0) (take_ge 8 (be_bytes 8 id.seq) (omega (arith, length-be_bytes 8 id.seq)))
        ∙ be_value-be_bytes 8 id.seq (omega (arith, h.1))
