-- ===== src/Wire/Scalars.antt =====
-- The `write` and `read` overloads of OutputArchive and InputArchive for the fundamental types.
use pp_cpp_common.Common.{
  Bool, Bytes, [], arith, false, if◌then◌else◌, length, length-reverse, none, not, refl, some,
  subst, true, ℕ, ◌*◌, ◌++◌, ◌+◌, ◌<◌, ◌==◌, ◌^◌, ◌||◌, ◌∙◌, ◌∷◌, ◌≡◌,
}
use pp_cpp_common.Common.Int.{FitsInt, of_word, of_word-to_word, to_word, to_word-lt, ℤ}
use pp_cpp_common.Wire.Endian.{
  AreBytes, AreBytes-prefix, Machine, from_big_endian, from_memory, from_wire-to_wire, le_bytes,
  length-le_bytes, memory, to_big_endian, to_big_endian-memory, to_wire-from_wire,
}
use pp_cpp_common.Wire.Reader.{
  >>=-eq-some, Reader, fail, pure, read_raw, read_raw-append, read_raw_sound, ◌>>=◌,
}

pub data Scalar : Type 0 where
  bool char i8 u8 i16 u16 i32 u32 i64 u64 float double : Scalar

-- A floating-point number is its IEEE 754 bit pattern, which the archives copy.
abbrev pub ScalarValue : Scalar → Type 0
ScalarValue bool = Bool
ScalarValue i8 = ℤ
ScalarValue i16 = ℤ
ScalarValue i32 = ℤ
ScalarValue i64 = ℤ
ScalarValue _ = ℕ

-- sizeof.
abbrev pub size_of : Scalar → ℕ
size_of bool = 1
size_of char = 1
size_of i8 = 1
size_of u8 = 1
size_of i16 = 2
size_of u16 = 2
size_of i32 = 4
size_of u32 = 4
size_of float = 4
size_of i64 = 8
size_of u64 = 8
size_of double = 8

abbrev pub FitsScalar : (s : Scalar) → ScalarValue s → Type 0
FitsScalar bool b = Unit {0}
FitsScalar char n = n < 256
FitsScalar u8 n = n < 256
FitsScalar u16 n = n < 256 ^ 2
FitsScalar u32 n = n < 256 ^ 4
FitsScalar u64 n = n < 256 ^ 8
FitsScalar float n = n < 256 ^ 4
FitsScalar double n = n < 256 ^ 8
FitsScalar i8 i = FitsInt 128 i
FitsScalar i16 i = FitsInt (128 * 256) i
FitsScalar i32 i = FitsInt (128 * 256 ^ 3) i
FitsScalar i64 i = FitsInt (128 * 256 ^ 7) i

module _ (m : Machine) where
  -- A word is converted and its memory is written.
  unfoldable pub write_word : ℕ → ℕ → Bytes
  write_word k v = memory m k (to_big_endian m k v)

  unfoldable pub read_word : ℕ → Reader ℕ
  read_word k = do bytes ← read_raw k; pure (from_big_endian m k (from_memory m bytes))

unfoldable pub read_byte : Reader ℕ
read_byte [] = none
read_byte (b ∷ bs) = some (b, bs)

-- Any byte but 0 and 1 is malformed.
unfoldable pub read_bool : Reader Bool
unfolding read_byte
read_bool = do byte ← read_byte; if byte == 0 || byte == 1 then pure (not (byte == 0)) else fail

module _ (m : Machine) where
  -- The bytes that `write` appends to the stream.
  unfoldable pub write_scalar : (s : Scalar) → ScalarValue s → Bytes
  write_scalar bool b = (if b then 1 else 0) ∷ []
  write_scalar char n = n ∷ []
  write_scalar u8 n = n ∷ []
  write_scalar i8 i = to_word 128 i ∷ []
  write_scalar i16 i = write_word m 2 (to_word (128 * 256) i)
  write_scalar u16 n = write_word m 2 n
  write_scalar i32 i = write_word m 4 (to_word (128 * 256 ^ 3) i)
  write_scalar u32 n = write_word m 4 n
  write_scalar i64 i = write_word m 8 (to_word (128 * 256 ^ 7) i)
  write_scalar u64 n = write_word m 8 n
  write_scalar float n = write_word m 4 n
  write_scalar double n = write_word m 8 n

  unfoldable pub read_scalar : (s : Scalar) → Reader (ScalarValue s)
  read_scalar bool = read_bool
  read_scalar char = read_byte
  read_scalar u8 = read_byte
  read_scalar i8 = do w ← read_byte; pure (of_word 128 w)
  read_scalar i16 = do w ← read_word m 2; pure (of_word (128 * 256) w)
  read_scalar u16 = read_word m 2
  read_scalar i32 = do w ← read_word m 4; pure (of_word (128 * 256 ^ 3) w)
  read_scalar u32 = read_word m 4
  read_scalar i64 = do w ← read_word m 8; pure (of_word (128 * 256 ^ 7) w)
  read_scalar u64 = read_word m 8
  read_scalar float = read_word m 4
  read_scalar double = read_word m 8

module _ (m : Machine) where
  pub length-write_word : (k v : ℕ) → v < 256 ^ k → length (write_word m k v) ≡ k
  unfolding write_word
  length-write_word k v h =
      rw (to_big_endian-memory m k v h) (length-reverse (le_bytes k v) ∙ length-le_bytes k v)

  pub read_word-write_word :
      (k v : ℕ) (rest : Bytes)
      → v < 256 ^ k
      → read_word m k (write_word m k v ++ rest) ≡ some (v, rest)
  unfolding read_word
  read_word-write_word k v rest h =
      let bytes = write_word m k v in
      let taken : read_raw k (bytes ++ rest) ≡ some (bytes, rest) =
        subst (λ n. read_raw n (bytes ++ rest) ≡ some (bytes, rest)) (length-write_word k v h)
          (read_raw-append bytes rest) in
      rw (taken, ◌>>=◌) (unfold write_word in rw (from_wire-to_wire m k v h))

  pub read_word_sound :
      (k : ℕ) (bs : Bytes) (v : ℕ) (rest : Bytes)
      → AreBytes bs
      → read_word m k bs ≡ some (v, rest)
      → (bs ≡ write_word m k v ++ rest) × (v < 256 ^ k)
  unfolding read_word write_word
  read_word_sound k bs v rest h e =
      let (taken, rest', e, e') = >>=-eq-some (read_raw k) _ bs e in
      let (eq, size) = read_raw_sound k bs taken rest' e in
      let (word, fits) =
        to_wire-from_wire m k taken v size (AreBytes-prefix taken rest' (rw eq at h))
          (ground arith) in
      (eq ∙ cc (word, e'), fits)

  read_int-write_int :
      (k half : ℕ) (i : ℤ) (rest : Bytes)
      → FitsInt half i
      → half + half ≡ 256 ^ k
      → (do w ← read_word m k; pure (of_word half w)) (write_word m k (to_word half i) ++ rest)
        ≡ some (i, rest)
  read_int-write_int k half i rest h e =
      let fits : to_word half i < 256 ^ k = rw (← e) (to_word-lt half i h) in
      rw (read_word-write_word k (to_word half i) rest fits, ◌>>=◌) (rw (of_word-to_word half i h))

  pub read_scalar-write_scalar :
      (s : Scalar) (v : ScalarValue s) (rest : Bytes)
      → FitsScalar s v
      → read_scalar m s (write_scalar m s v ++ rest) ≡ some (v, rest)
  unfolding read_scalar write_scalar read_byte read_bool
  read_scalar-write_scalar bool true rest h = refl
  read_scalar-write_scalar bool false rest h = refl
  read_scalar-write_scalar char v rest h = refl
  read_scalar-write_scalar u8 v rest h = refl
  read_scalar-write_scalar i8 v rest h = rw (of_word-to_word 128 v h)
  read_scalar-write_scalar i16 v rest h = read_int-write_int 2 (128 * 256) v rest h refl
  read_scalar-write_scalar u16 v rest h = read_word-write_word 2 v rest h
  read_scalar-write_scalar i32 v rest h = read_int-write_int 4 (128 * 256 ^ 3) v rest h refl
  read_scalar-write_scalar u32 v rest h = read_word-write_word 4 v rest h
  read_scalar-write_scalar i64 v rest h = read_int-write_int 8 (128 * 256 ^ 7) v rest h refl
  read_scalar-write_scalar u64 v rest h = read_word-write_word 8 v rest h
  read_scalar-write_scalar float v rest h = read_word-write_word 4 v rest h
  read_scalar-write_scalar double v rest h = read_word-write_word 8 v rest h
