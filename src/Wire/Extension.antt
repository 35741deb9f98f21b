-- ===== src/Wire/Extension.antt =====
-- The reads of InputArchive on longer input.
use mathlib.Core.Path.{fun_ext}
use pp_cpp_common.Common.{
  Bool, Bytes, List, [], arith, false, if◌then◌else◌, not, some, subst, suc, sym, true, zero, ℕ,
  ◌++◌, ◌==◌, ◌||◌, ◌∷◌, ◌≡◌,
}
use pp_cpp_common.Wire.Endian.{Machine}
use pp_cpp_common.Wire.Items.{insert_reader, read_items, read_unique}
use pp_cpp_common.Wire.Reader.{>>=-eq-some, Reader, fail, guard, pure, read_raw, ◌>>=◌}
use pp_cpp_common.Wire.Scalars.{
  Scalar, bool, char, double, float, i16, i32, i64, i8, read_bool, read_byte, read_scalar,
  read_word, u16, u32, u64, u8,
}
use pp_cpp_common.Wire.Strings.{read_chunks-read_raw, read_string}
use pp_cpp_common.Wire.Types.{
  Key, WireType, array, key_string, key_u16, key_u32, key_u64, key_u8, ordered_map, ordered_set,
  pair, read, read_entry, read_key, scalar, string, vector,
}

abbrev pub IsLocal {ℓ} : {A : Type ℓ} → Reader A → Type ℓ
IsLocal {A} reader =
    (bs : Bytes) (a : A) (rest more : Bytes)
    → reader bs ≡ some (a, rest)
    → reader (bs ++ more) ≡ some (a, rest ++ more)

pure-IsLocal {ℓ} : {A : Type ℓ} (a : A) → IsLocal (pure a)
pure-IsLocal a bs b rest more h = ground arith

fail-IsLocal {ℓ} : {A : Type ℓ} → IsLocal {A = A} fail
fail-IsLocal bs b rest more h = ground arith

>>=-IsLocal {ℓ κ} :
    {A : Type ℓ} {B : Type κ} (r : Reader A) (f : A → Reader B)
    → IsLocal r
    → ((a : A) → IsLocal (f a))
    → IsLocal (r >>= f)
>>=-IsLocal r f hr hf bs b rest more h =
    let (a, mid, e, e') = >>=-eq-some r f bs h in
    rw (hr bs a mid more e, ◌>>=◌) (hf a mid b rest more e')

guard-IsLocal : (b : Bool) → IsLocal (guard b)
guard-IsLocal true bs a rest more h = ground arith
guard-IsLocal false bs a rest more h = ground arith

read_byte-IsLocal : IsLocal read_byte
unfolding read_byte
read_byte-IsLocal [] a rest more h = ground arith
read_byte-IsLocal (b ∷ bs) a rest more h = ground arith

if-IsLocal : (t b : Bool) → IsLocal (if t then pure b else fail)
if-IsLocal true b = pure-IsLocal b
if-IsLocal false b = fail-IsLocal

read_bool-IsLocal : IsLocal read_bool
unfolding read_bool
read_bool-IsLocal =
    >>=-IsLocal read_byte _ read_byte-IsLocal
      (λ byte. if-IsLocal (byte == 0 || byte == 1) (not (byte == 0)))

read_raw-IsLocal : (n : ℕ) → IsLocal (read_raw n)
unfolding read_raw
read_raw-IsLocal zero bs a rest more h = ground arith
read_raw-IsLocal (suc n) [] a rest more h = ground arith
read_raw-IsLocal (suc n) (b ∷ bs) a rest more h =
    >>=-IsLocal (read_raw n) (λ tail. pure (b ∷ tail)) (read_raw-IsLocal n)
      (λ tail. pure-IsLocal (b ∷ tail)) bs a rest more h

module _ (m : Machine) where
  read_word-IsLocal : (k : ℕ) → IsLocal (read_word m k)
  unfolding read_word
  read_word-IsLocal k = >>=-IsLocal _ _ (read_raw-IsLocal k) (λ bytes. pure-IsLocal _)

  mapped-IsLocal {ℓ κ} :
      {A : Type ℓ} {B : Type κ} (r : Reader A) (f : A → B)
      → IsLocal r
      → IsLocal (r >>= λ a. pure (f a))
  mapped-IsLocal r f h = >>=-IsLocal r _ h (λ a. pure-IsLocal (f a))

  read_scalar-IsLocal : (s : Scalar) → IsLocal (read_scalar m s)
  unfolding read_scalar
  read_scalar-IsLocal bool = read_bool-IsLocal
  read_scalar-IsLocal char = read_byte-IsLocal
  read_scalar-IsLocal u8 = read_byte-IsLocal
  read_scalar-IsLocal i8 = mapped-IsLocal read_byte _ read_byte-IsLocal
  read_scalar-IsLocal i16 = mapped-IsLocal (read_word m 2) _ (read_word-IsLocal 2)
  read_scalar-IsLocal u16 = read_word-IsLocal 2
  read_scalar-IsLocal i32 = mapped-IsLocal (read_word m 4) _ (read_word-IsLocal 4)
  read_scalar-IsLocal u32 = read_word-IsLocal 4
  read_scalar-IsLocal i64 = mapped-IsLocal (read_word m 8) _ (read_word-IsLocal 8)
  read_scalar-IsLocal u64 = read_word-IsLocal 8
  read_scalar-IsLocal float = read_word-IsLocal 4
  read_scalar-IsLocal double = read_word-IsLocal 8

  pub read_string-IsLocal : IsLocal (read_string m)
  unfolding read_string
  read_string-IsLocal = >>=-IsLocal _ _ (read_scalar-IsLocal u64) (λ size.
      >>=-IsLocal _ _ (guard-IsLocal _) (λ _.
        subst IsLocal (fun_ext (λ bs. sym (read_chunks-read_raw size size bs (omega arith))))
          (read_raw-IsLocal size)))

read_items-IsLocal {ℓ} :
    {A : Type ℓ} (reader : Reader A) (n : ℕ) → IsLocal reader → IsLocal (read_items reader n)
unfolding read_items
read_items-IsLocal reader zero h = pure-IsLocal []
read_items-IsLocal reader (suc n) h =
    >>=-IsLocal reader _ h
      (λ x. >>=-IsLocal _ _ (read_items-IsLocal reader n h) (λ xs. pure-IsLocal (x ∷ xs)))

insert_reader-IsLocal {ℓ} :
    {A : Type ℓ} (lt : A → A → Bool) (x : A) (acc : List A) → IsLocal (insert_reader lt x acc)
insert_reader-IsLocal lt x acc bs a rest more h = ground arith

read_unique-IsLocal {ℓ} :
    {A : Type ℓ} (lt : A → A → Bool) (reader : Reader A) (n : ℕ) (acc : List A)
    → IsLocal reader
    → IsLocal (read_unique lt reader n acc)
unfolding read_unique
read_unique-IsLocal lt reader zero acc h = pure-IsLocal acc
read_unique-IsLocal lt reader (suc n) acc h = >>=-IsLocal reader _ h (λ x.
    >>=-IsLocal _ _ (insert_reader-IsLocal lt x acc)
      (λ acc'. read_unique-IsLocal lt reader n acc' h))

module _ (m : Machine) where
  read_key-IsLocal : (k : Key) → IsLocal (read_key m k)
  unfolding read_key
  read_key-IsLocal key_string = read_string-IsLocal m
  read_key-IsLocal key_u8 = read_scalar-IsLocal m Scalar.u8
  read_key-IsLocal key_u16 = read_scalar-IsLocal m Scalar.u16
  read_key-IsLocal key_u32 = read_scalar-IsLocal m Scalar.u32
  read_key-IsLocal key_u64 = read_scalar-IsLocal m Scalar.u64

  read_entry-IsLocal :
      {V : Type 0} (k : Key) (reader : Reader V) → IsLocal reader → IsLocal (read_entry m k reader)
  read_entry-IsLocal k reader h =
      >>=-IsLocal _ _ (read_key-IsLocal k)
        (λ key. >>=-IsLocal _ _ h (λ value. pure-IsLocal (key, value)))

  -- A read of any wire type that succeeds reads the same value when more bytes follow, and leaves
  -- the rest with those bytes behind it.
  pub read-IsLocal : (t : WireType) → IsLocal (read m t)
  unfolding read
  read-IsLocal (scalar s) = read_scalar-IsLocal m s
  read-IsLocal string = read_string-IsLocal m
  read-IsLocal (vector t) =
      >>=-IsLocal _ _ (read_scalar-IsLocal m Scalar.u64)
        (λ size. read_items-IsLocal (read m t) size (read-IsLocal t))
  read-IsLocal (array n t) = read_items-IsLocal (read m t) n (read-IsLocal t)
  read-IsLocal (ordered_map k t) =
      >>=-IsLocal _ _ (read_scalar-IsLocal m Scalar.u64)
        (λ size. read_unique-IsLocal _ _ size [] (read_entry-IsLocal k (read m t) (read-IsLocal t)))
  read-IsLocal (ordered_set k) =
      >>=-IsLocal _ _ (read_scalar-IsLocal m Scalar.u64)
        (λ size. read_unique-IsLocal _ _ size [] (read_key-IsLocal k))
  read-IsLocal (pair t u) =
      >>=-IsLocal _ _ (read-IsLocal t)
        (λ v. >>=-IsLocal _ _ (read-IsLocal u) (λ w. pure-IsLocal (v, w)))
