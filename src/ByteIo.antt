-- ===== src/ByteIo.antt =====
-- Readers and writers of a buffer, as src/common/buffer/buffer_helper.cpp and the `Encode` and
-- `Decode` methods are: a reader gives a value or fails (`none`) and leaves the buffer where it
-- stopped; a writer gives its `bool` and the buffer.
-- `Parses` and `Writes` say what they do to the queue of unread bytes, whatever the buffer.
use ardb.Prelude.{
  ℕ, ◌≡◌, refl, sym, ◌∙◌, subst, Bool, true, false, Option, none, some, List, [], ◌∷◌, ◌++◌,
  append_assoc, append-nil, arith, length, take, drop, length-append, take_exact, drop_exact, ap,
}
use ardb.Buffer
use ardb.Buffer.{Buffer}
use ardb.Buffer.Readable.{IsValid, contents, write_lem, read_lem, read_idx-write}

abbrev pub Reader {ℓ} : Type ℓ → Type ℓ
Reader A = Buffer → Option A × Buffer

abbrev pub Writer : Type 0
Writer = Buffer → Bool × Buffer

module _ {ℓ} {A : Type ℓ} where
  abbrev pub pure : A → Reader A
  pure a b = (some a, b)

  abbrev pub fail : Reader A
  fail b = (none, b)

module _ {ℓ κ} {A : Type ℓ} {B : Type κ} where
  abbrev pub go_on : Option A → (A → Reader B) → Reader B
  go_on none f b = (none, b)
  go_on (some a) f b = f a b

  infixl 5 ◌>>=◌
  abbrev pub ◌>>=◌ : Reader A → (A → Reader B) → Reader B
  ◌>>=◌ m f b = let (r, b') = m b in go_on r f b'

infixl 6 ◌⨾◌ ◌and_then◌
-- two statements in a row
abbrev pub ◌⨾◌ : Writer → Writer → Writer
◌⨾◌ w v b = v (w b).1

-- `w && v`
abbrev pub ◌and_then◌ : Writer → Writer → Writer
◌and_then◌ w v b = let (ok, b') = w b in elim ok [ true ↦ v b' | false ↦ (false, b') ]

abbrev pub skip : Writer
skip b = (true, b)

-- `buffer.Write(bytes, n)`, which returns `n`
unfoldable pub write_all : List ℕ → Writer
write_all bytes b = (true, Buffer.write bytes b)

-- With `bytes` next, `m` returns `a`, takes them and leaves the rest.
pub record Parses {ℓ} {A : Type ℓ} (m : Reader A) (bytes : List ℕ) (a : A) : Type ℓ where
  pub run :
      (b : Buffer) (rest : List ℕ)
      → IsValid b
      → contents b ≡ bytes ++ rest
      → ((m b).0 ≡ some a) × (contents (m b).1 ≡ rest) × IsValid (m b).1

-- `w` appends `bytes`.
pub record Writes (w : Writer) (bytes : List ℕ) : Type 0 where
  pub run : (b : Buffer) → IsValid b → (contents (w b).1 ≡ contents b ++ bytes) × IsValid (w b).1
  pub same_read : (b : Buffer) → IsValid b → (w b).1.m_read_idx ≡ b.m_read_idx

module _ {ℓ} {A : Type ℓ} where
  pub Parses-pure : (a : A) → Parses (pure a) [] a
  Parses-pure a = record { run = λ b rest v e. (refl, e, v) }

module _ {ℓ κ} {A : Type ℓ} {B : Type κ} where
  pub Parses-bind :
      (m : Reader A) (f : A → Reader B) {xs ys : List ℕ} {a : A} {c : B}
      → Parses m xs a
      → Parses (f a) ys c
      → Parses (m >>= f) (xs ++ ys) c
  Parses-bind m f {xs} {ys} {a} {c} p q = record { run = bound }
    where
      bound :
          (b : Buffer) (rest : List ℕ)
          → IsValid b
          → contents b ≡ (xs ++ ys) ++ rest
          → (((m >>= f) b).0 ≡ some c) × (contents ((m >>= f) b).1 ≡ rest) × IsValid ((m >>= f) b).1
      bound b rest v e =
          let first = p.run b (ys ++ rest) v (e ∙ append_assoc xs ys rest) in
          rw first.0 (q.run (m b).1 rest first.2 first.1)

  -- A reader that returns a function of what it read.
  pub Parses-return :
      (m : Reader A) (f : A → B) {xs : List ℕ} {a : A}
      → Parses m xs a
      → Parses (m >>= λ x. pure (f x)) xs (f a)
  Parses-return m f {xs} {a} p =
      subst (λ l. Parses (m >>= λ x. pure (f x)) l (f a)) (append-nil xs)
        (Parses-bind m (λ x. pure (f x)) p (Parses-pure (f a)))

pub Writes-then :
    (w u : Writer) {xs ys : List ℕ} → Writes w xs → Writes u ys → Writes (w ⨾ u) (xs ++ ys)
Writes-then w u {xs} {ys} p q = record {
  run = λ b v.
      let first = p.run b v in
      let second = q.run (w b).1 first.1 in
      (second.0 ∙ ap (λ l. l ++ ys) first.0 ∙ append_assoc (contents b) xs ys, second.1);
  same_read = λ b v. q.same_read (w b).1 (p.run b v).1 ∙ p.same_read b v;
}

pub Writes-skip : Writes skip []
Writes-skip = record { run = λ b v. (sym (append-nil (contents b)), v); same_read = λ b v. refl }

pub Writes-write_all : (bytes : List ℕ) → Writes (write_all bytes) bytes
unfolding write_all
Writes-write_all bytes = record {
  run = λ b v. write_lem bytes b v;
  same_read = λ b v. read_idx-write bytes b v;
}

-- `buffer.Read(out, n)`
unfoldable pub read_exactly : ℕ → Reader (List ℕ)
read_exactly n b = Buffer.read n b

pub Parses-read_exactly :
    (n : ℕ) (bytes : List ℕ) → length bytes ≡ n → Parses (read_exactly n) bytes bytes
unfolding read_exactly
Parses-read_exactly n bytes h = record {
  run = λ b rest v e.
      let got = read_lem n b v (rw (e, length-append) (omega (arith, h))) in
      (
        got.0 ∙ ap some (ap (take n) e ∙ take_exact n bytes rest h),
        got.1 ∙ ap (drop n) e ∙ drop_exact n bytes rest h,
        got.2,
      );
}

pub Parses-read_byte : (x : ℕ) → Parses Buffer.read_byte (x ∷ []) x
unfolding Buffer.read_byte
Parses-read_byte x = record {
  run = λ b rest v e.
      let got = read_lem 1 b v (rw e (omega arith)) in
      (rw (got.0, Buffer.read_byte) (rw e refl), got.1 ∙ ap (drop 1) e, got.2);
}

-- What a writer appends to an empty queue, its reader gives back.
pub reads_back {ℓ} :
    {A : Type ℓ} (w : Writer) (m : Reader A) {bytes : List ℕ} {a : A} (b : Buffer)
    → Writes w bytes
    → Parses m bytes a
    → IsValid b
    → contents b ≡ []
    → ((m (w b).1).0 ≡ some a) × (contents (m (w b).1).1 ≡ [])
reads_back w m {bytes} b p q v e =
    let written = p.run b v in
    let got =
      q.run (w b).1 [] written.1 (written.0 ∙ ap (λ l. l ++ bytes) e ∙ sym (append-nil bytes)) in
    (got.0, got.1)
