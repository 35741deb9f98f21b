-- ===== src/Wire/Types.antt =====
-- `operator&` of the archives at every type: the overload that C++ chooses is a case of `write` and
-- of `read`. A custom type's `serialize` archives its fields in turn, so a struct is nested pairs.
-- std::unordered_map and std::unordered_set, whose order the language leaves open, are not covered.
use pp_cpp_common.Common.{
  All, Bool, Bytes, List, [], false, length, ltb, true, ℕ, ◌&&◌, ◌++◌, ◌<◌, ◌==◌, ◌^◌, ◌||◌, ◌∷◌,
  ◌≡◌, ◌≤◌,
}
use pp_cpp_common.Wire.Endian.{Machine}
use pp_cpp_common.Wire.Items.{IsAscending, read_items, read_unique, write_items}
use pp_cpp_common.Wire.Reader.{Reader, pure, ◌>>=◌}
use pp_cpp_common.Wire.Scalars.{FitsScalar, Scalar, ScalarValue, read_scalar, write_scalar}
use pp_cpp_common.Wire.Strings.{max_string_size, read_string, write_string}

-- The key types for which `<` of the language is modelled.
pub data Key : Type 0 where
  key_u8 key_u16 key_u32 key_u64 key_string : Key

abbrev pub KeyValue : Key → Type 0
KeyValue key_string = Bytes
KeyValue _ = ℕ

pub data WireType : Type 0 where
  scalar : Scalar → WireType
  string : WireType
  vector : WireType → WireType
  array : ℕ → WireType → WireType
  ordered_map : Key → WireType → WireType
  ordered_set : Key → WireType
  pair : WireType → WireType → WireType

-- A std::map or std::set is its items in iteration order.
abbrev pub Carrier : WireType → Type 0
Carrier (scalar s) = ScalarValue s
Carrier string = Bytes
Carrier (vector t) = List (Carrier t)
Carrier (array n t) = List (Carrier t)
Carrier (ordered_map k t) = List (KeyValue k × Carrier t)
Carrier (ordered_set k) = List (KeyValue k)
Carrier (pair t u) = Carrier t × Carrier u

-- std::string's <.
unfoldable pub bytes_lt : Bytes → Bytes → Bool
bytes_lt [] [] = false
bytes_lt [] (b ∷ bs) = true
bytes_lt (a ∷ as') [] = false
bytes_lt (a ∷ as') (b ∷ bs) = ltb a b || (a == b && bytes_lt as' bs)

unfoldable pub key_lt : (k : Key) → KeyValue k → KeyValue k → Bool
key_lt key_string a b = bytes_lt a b
key_lt key_u8 a b = ltb a b
key_lt key_u16 a b = ltb a b
key_lt key_u32 a b = ltb a b
key_lt key_u64 a b = ltb a b

abbrev pub entry_lt {ℓ} : {V : Type ℓ} (k : Key) → KeyValue k × V → KeyValue k × V → Bool
entry_lt k a b = key_lt k a.0 b.0

module _ (m : Machine) where
  unfoldable pub write_key : (k : Key) → KeyValue k → Bytes
  write_key key_string s = write_string m s
  write_key key_u8 n = write_scalar m Scalar.u8 n
  write_key key_u16 n = write_scalar m Scalar.u16 n
  write_key key_u32 n = write_scalar m Scalar.u32 n
  write_key key_u64 n = write_scalar m Scalar.u64 n

  unfoldable pub read_key : (k : Key) → Reader (KeyValue k)
  read_key key_string = read_string m
  read_key key_u8 = read_scalar m Scalar.u8
  read_key key_u16 = read_scalar m Scalar.u16
  read_key key_u32 = read_scalar m Scalar.u32
  read_key key_u64 = read_scalar m Scalar.u64

  -- The item type of a map: its key, then its value.
  abbrev pub write_entry : {V : Type 0} (k : Key) → (V → Bytes) → KeyValue k × V → Bytes
  write_entry k writer (key, value) = write_key k key ++ writer value

  abbrev pub read_entry : {V : Type 0} (k : Key) → Reader V → Reader (KeyValue k × V)
  read_entry k reader = do key ← read_key k; value ← reader; pure (key, value)

  unfoldable pub write : (t : WireType) → Carrier t → Bytes
  write (scalar s) v = write_scalar m s v
  write string v = write_string m v
  write (vector t) vs = write_scalar m Scalar.u64 (length vs) ++ write_items (write t) vs
  write (array n t) vs = write_items (write t) vs
  write (ordered_map k t) vs =
      write_scalar m Scalar.u64 (length vs) ++ write_items (write_entry k (write t)) vs
  write (ordered_set k) vs = write_scalar m Scalar.u64 (length vs) ++ write_items (write_key k) vs
  write (pair t u) (v, w) = write t v ++ write u w

  unfoldable pub read : (t : WireType) → Reader (Carrier t)
  read (scalar s) = read_scalar m s
  read string = read_string m
  read (vector t) = do size ← read_scalar m Scalar.u64; read_items (read t) size
  read (array n t) = read_items (read t) n
  read (ordered_map k t) = do
    size ← read_scalar m Scalar.u64
    read_unique (entry_lt k) (read_entry k (read t)) size []
  read (ordered_set k) = do
    size ← read_scalar m Scalar.u64
    read_unique (key_lt k) (read_key k) size []
  read (pair t u) = do v ← read t; w ← read u; pure (v, w)

abbrev pub FitsKey : (k : Key) → KeyValue k → Type 0
FitsKey key_string s = length s ≤ max_string_size
FitsKey key_u8 n = n < 256
FitsKey key_u16 n = n < 256 ^ 2
FitsKey key_u32 n = n < 256 ^ 4
FitsKey key_u64 n = n < 256 ^ 8

-- The values that the C++ types hold, with strings no longer than the reader accepts.
abbrev pub Fits : (t : WireType) → Carrier t → Type 0
Fits (scalar s) v = FitsScalar s v
Fits string v = length v ≤ max_string_size
Fits (vector t) vs = (length vs < 256 ^ 8) × All (Fits t) vs
Fits (array n t) vs = (length vs ≡ n) × All (Fits t) vs
Fits (ordered_map k t) vs =
    (length vs < 256 ^ 8) × All (λ e. FitsKey k e.0 × Fits t e.1) vs × IsAscending (entry_lt k) vs
Fits (ordered_set k) vs = (length vs < 256 ^ 8) × All (FitsKey k) vs × IsAscending (key_lt k) vs
Fits (pair t u) (v, w) = Fits t v × Fits u w
