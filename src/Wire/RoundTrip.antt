-- ===== src/Wire/RoundTrip.antt =====
-- Writing with OutputArchive and then reading with InputArchive.
use pp_cpp_common.Common.{
  All-map, Bytes, [], append_assoc, arith, false, length, refl, some, subst, true, ℕ, ◌++◌, ◌<◌,
  ◌^◌, ◌∷◌, ◌≡◌,
}
use pp_cpp_common.Wire.Endian.{Machine}
use pp_cpp_common.Wire.Items.{
  Inverts, read_items, read_items-write_items, read_unique, read_unique-write_items, write_items,
}
use pp_cpp_common.Wire.Reader.{Reader, ◌>>=◌}
use pp_cpp_common.Wire.Scalars.{Scalar, read_scalar, read_scalar-write_scalar, write_scalar}
use pp_cpp_common.Wire.Strings.{read_string-write_string}
use pp_cpp_common.Wire.Types.{
  Carrier, Fits, FitsKey, Key, KeyValue, WireType, array, bytes_lt, entry_lt, key_lt, key_string,
  key_u16, key_u32, key_u64, key_u8, ordered_map, ordered_set, pair, read, read_entry, read_key,
  scalar, string, vector, write, write_entry, write_key,
}

bytes_lt_asym : (a b : Bytes) → bytes_lt a b ≡ true → bytes_lt b a ≡ false
unfolding bytes_lt
bytes_lt_asym [] [] h = ground arith
bytes_lt_asym [] (b ∷ bs) h = refl
bytes_lt_asym (a ∷ as') [] h = ground arith
bytes_lt_asym (a ∷ as') (b ∷ bs) h = ground (arith, bytes_lt_asym as' bs)

bytes_lt_trans : (a b c : Bytes) → bytes_lt a b ≡ true → bytes_lt b c ≡ true → bytes_lt a c ≡ true
unfolding bytes_lt
bytes_lt_trans [] [] c h k = ground arith
bytes_lt_trans [] (b ∷ bs) [] h k = ground arith
bytes_lt_trans [] (b ∷ bs) (c ∷ cs) h k = refl
bytes_lt_trans (a ∷ as') [] c h k = ground arith
bytes_lt_trans (a ∷ as') (b ∷ bs) [] h k = ground arith
bytes_lt_trans (a ∷ as') (b ∷ bs) (c ∷ cs) h k = ground (arith, bytes_lt_trans as' bs cs)

key_lt_asym : (k : Key) (a b : KeyValue k) → key_lt k a b ≡ true → key_lt k b a ≡ false
unfolding key_lt
key_lt_asym key_string a b h = bytes_lt_asym a b h
key_lt_asym key_u8 a b h = ground arith
key_lt_asym key_u16 a b h = ground arith
key_lt_asym key_u32 a b h = ground arith
key_lt_asym key_u64 a b h = ground arith

key_lt_trans :
    (k : Key) (a b c : KeyValue k) → key_lt k a b ≡ true → key_lt k b c ≡ true → key_lt k a c ≡ true
unfolding key_lt
key_lt_trans key_string a b c h i = bytes_lt_trans a b c h i
key_lt_trans key_u8 a b c h i = ground arith
key_lt_trans key_u16 a b c h i = ground arith
key_lt_trans key_u32 a b c h i = ground arith
key_lt_trans key_u64 a b c h i = ground arith

module _ (m : Machine) where
  read_key-write_key :
      (k : Key) (v : KeyValue k) → FitsKey k v → Inverts (read_key m k) (write_key m k) v
  unfolding read_key write_key
  read_key-write_key key_string v h rest = read_string-write_string m v rest h
  read_key-write_key key_u8 v h rest = read_scalar-write_scalar m Scalar.u8 v rest h
  read_key-write_key key_u16 v h rest = read_scalar-write_scalar m Scalar.u16 v rest h
  read_key-write_key key_u32 v h rest = read_scalar-write_scalar m Scalar.u32 v rest h
  read_key-write_key key_u64 v h rest = read_scalar-write_scalar m Scalar.u64 v rest h

  read_entry-write_entry :
      {V : Type 0} (k : Key) (reader : Reader V) (writer : V → Bytes) (e : KeyValue k × V)
      → FitsKey k e.0
      → Inverts reader writer e.1
      → Inverts (read_entry m k reader) (write_entry m k writer) e
  read_entry-write_entry k reader writer (key, value) h i rest =
      rw (append_assoc, read_key-write_key k key h (writer value ++ rest), ◌>>=◌)
        (rw (i rest, ◌>>=◌))

  -- A counted container: the count, then a loop that reads back what follows it.
  read_counted {ℓ} :
      {A : Type ℓ} (n : ℕ) (loop : ℕ → Reader A) (items : Bytes) (a : A) (rest : Bytes)
      → n < 256 ^ 8
      → loop n (items ++ rest) ≡ some (a, rest)
      → (do size ← read_scalar m Scalar.u64; loop size)
          ((write_scalar m Scalar.u64 n ++ items) ++ rest)
        ≡ some (a, rest)
  read_counted n loop items a rest h e =
      rw (append_assoc, read_scalar-write_scalar m Scalar.u64 n (items ++ rest) h, ◌>>=◌) e

  read-write_lem : (t : WireType) (v : Carrier t) → Fits t v → Inverts (read m t) (write m t) v
  unfolding read write
  read-write_lem (scalar s) v h rest = read_scalar-write_scalar m s v rest h
  read-write_lem string v h rest = read_string-write_string m v rest h
  read-write_lem (vector t) vs h rest =
      read_counted (length vs) (read_items (read m t)) _ vs rest h.0 (
        read_items-write_items (read m t) (write m t) vs rest
          (All-map (Fits t) _ vs (read-write_lem t) h.1))
  read-write_lem (array n t) vs h rest =
      subst (λ k. read_items (read m t) k (write_items (write m t) vs ++ rest) ≡ some (vs, rest))
        h.0
        (read_items-write_items (read m t) (write m t) vs rest
          (All-map (Fits t) _ vs (read-write_lem t) h.1))
  read-write_lem (ordered_map k t) vs h rest =
      read_counted (length vs) (λ n. read_unique (entry_lt k) (read_entry m k (read m t)) n []) _ vs
        rest h.0
        (read_unique-write_items (entry_lt k) (read_entry m k (read m t)) _ [] vs rest
          (λ a b. key_lt_asym k a.0 b.0)
          (All-map _ _ vs
            (λ e f.
              read_entry-write_entry k (read m t) (write m t) e f.0 (read-write_lem t e.1 f.1))
            h.1)
          h.2)
  read-write_lem (ordered_set k) vs h rest =
      read_counted (length vs) (λ n. read_unique (key_lt k) (read_key m k) n []) _ vs rest h.0
        (read_unique-write_items (key_lt k) (read_key m k) _ [] vs rest (key_lt_asym k)
          (All-map (FitsKey k) _ vs (read_key-write_key k) h.1) h.2)
  read-write_lem (pair t u) (v, w) h rest =
      rw (append_assoc, read-write_lem t v h.0 (write m u w ++ rest), ◌>>=◌)
        (rw (read-write_lem u w h.1 rest, ◌>>=◌))

  -- For every wire type and either byte order, InputArchive takes back exactly the value that
  -- OutputArchive wrote and leaves what stands behind it, for values that their C++ types hold and
  -- strings of at most 64 MB.
  pub read-write :
      (t : WireType) (v : Carrier t) (rest : Bytes)
      → Fits t v
      → read m t (write m t v ++ rest) ≡ some (v, rest)
  read-write t v rest h = read-write_lem t v h rest
