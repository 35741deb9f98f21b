-- ===== src/Value/Codec.antt =====
-- `valueToWire`, `wireToValue` and `Object::serialize`.
use pp_cpp_common.Common.{
  Bytes, Option, [], if◌then◌else◌, none, not, some, suc, zero, ℕ, ◌++◌, ◌==◌, ◌∷◌,
}
use pp_cpp_common.Results.{err, ok}
use pp_cpp_common.Value.{
  Elements, Fields, Value, array_ptr, bool_value, contains, count_elements, count_fields,
  double_value, element, field, int64_value, no_elements, no_fields, null_array_ptr,
  null_object_ptr, null_value, object_ptr, set_field, string_value, uint64_value,
}
use pp_cpp_common.Wire.Endian.{Machine}
use pp_cpp_common.Wire.Pack.{binary_pack, binary_unpack}
use pp_cpp_common.Wire.Reader.{Reader, guard, pure, ◌>>=◌, ◌>>◌}
use pp_cpp_common.Wire.Scalars.{bool, double, i64, read_scalar, u16, u64, write_scalar}
use pp_cpp_common.Wire.Strings.{read_string, write_string}
use pp_cpp_common.Wire.Types.{Carrier, WireType, pair, read, scalar, string, write}

abbrev pub tag_i64 : ℕ
tag_i64 = 1

abbrev pub tag_u64 : ℕ
tag_u64 = 2

abbrev pub tag_bool : ℕ
tag_bool = 3

abbrev pub tag_double : ℕ
tag_double = 4

abbrev pub tag_string : ℕ
tag_string = 5

abbrev pub tag_object : ℕ
tag_object = 6

abbrev pub tag_array : ℕ
tag_array = 7

abbrev pub tag_null : ℕ
tag_null = 8

-- The struct ValueWire: `ar & tag & payload`.
abbrev pub value_wire : WireType
value_wire = pair (scalar u16) string

abbrev pub ValueWire : Type 0
ValueWire = ℕ × Bytes

abbrev pub max_wire_depth : ℕ
max_wire_depth = 128

module _ (m : Machine) where
  unfoldable mutual
    pub value_to_wire : Value → ValueWire
    value_to_wire null_value = (tag_null, [])
    value_to_wire (int64_value i) = (tag_i64, binary_pack m (scalar i64) i)
    value_to_wire (uint64_value n) = (tag_u64, binary_pack m (scalar u64) n)
    value_to_wire (bool_value b) = (tag_bool, binary_pack m (scalar bool) b)
    value_to_wire (double_value d) = (tag_double, binary_pack m (scalar double) d)
    value_to_wire (string_value s) = (tag_string, binary_pack m string s)
    value_to_wire null_object_ptr = (tag_null, [])
    value_to_wire (object_ptr fs) =
        (tag_object, write_scalar m u64 (count_fields fs) ++ write_fields fs)
    value_to_wire null_array_ptr = (tag_null, [])
    value_to_wire (array_ptr es) =
        (tag_array, write_scalar m u64 (count_elements es) ++ write_elements es)

    pub write_fields : Fields → Bytes
    write_fields no_fields = []
    write_fields (field k v fs) =
        write_string m k ++ (write m value_wire (value_to_wire v) ++ write_fields fs)

    pub write_elements : Elements → Bytes
    write_elements no_elements = []
    write_elements (element v es) = write m value_wire (value_to_wire v) ++ write_elements es

-- What `wireToValue` answers: `none` for false, `some none` for true with no value.
abbrev pub Decoded : Type 0
Decoded = Option (Option Value)

abbrev pub lift {ℓ} : {A : Type ℓ} → Option A → Reader A
lift none bs = none
lift (some a) bs = some (a, bs)

abbrev pub store : Bytes → Option Value → Fields → Fields
store k none fs = fs
store k (some v) fs = set_field k v fs

module _ (m : Machine) where
  -- The decoding loop of `Object::serialize`: a duplicate key and a malformed value fail, a value of
  -- an unknown tag is skipped.
  unfoldable pub read_fields : (ValueWire → Decoded) → ℕ → Fields → Reader Fields
  read_fields decode zero fs = pure fs
  read_fields decode (suc n) fs = do
    key ← read_string m
    wire ← read m value_wire
    guard (not (contains key fs))
    decoded ← lift (decode wire)
    read_fields decode n (store key decoded fs)

  unfoldable pub read_object : (ValueWire → Decoded) → Reader Fields
  read_object decode = do entry_count ← read_scalar m u64; read_fields decode entry_count no_fields

  -- The loop of the array case: an element of an unknown tag is malformed.
  unfoldable pub read_elements : (ValueWire → Decoded) → ℕ → Reader Elements
  read_elements decode zero = pure no_elements
  read_elements decode (suc n) = do
    wire ← read m value_wire
    decoded ← lift (decode wire)
    v ← lift decoded
    es ← read_elements decode n
    pure (element v es)

  unfoldable pub read_array : (ValueWire → Decoded) → Reader Elements
  read_array decode = do n ← read_scalar m u64; read_elements decode n

  abbrev pub whole {ℓ} : {A : Type ℓ} → (A → Value) → Option (A × Bytes) → Decoded
  whole f none = none
  whole f (some (a, [])) = some (some (f a))
  whole f (some (a, b ∷ bs)) = none

  abbrev pub unpack_as : (t : WireType) → (Carrier t → Value) → Bytes → Decoded
  unpack_as t f payload = elim (binary_unpack m t payload) [
    | ok v ↦ some (some (f v))
    | err e ↦ none
  ]

  unfoldable pub decode_object : (ValueWire → Decoded) → Bytes → Decoded
  decode_object decode [] = some (some (object_ptr no_fields))
  decode_object decode (b ∷ bs) = whole object_ptr (read_object decode (b ∷ bs))

  -- `room` is how much deeper the decoder may go: kMaxWireDepth - g_wireDepth.
  unfoldable pub wire_to_value : ℕ → ValueWire → Decoded
  wire_to_value zero wire = none
  wire_to_value (suc room) (tag, payload) =
      let decode = wire_to_value room in
      if tag == tag_null
      then some (some null_value)
      else if tag == tag_i64
      then unpack_as (scalar i64) int64_value payload
      else if tag == tag_u64
      then unpack_as (scalar u64) uint64_value payload
      else if tag == tag_bool
      then unpack_as (scalar bool) bool_value payload
      else if tag == tag_double
      then unpack_as (scalar double) double_value payload
      else if tag == tag_string
      then unpack_as string string_value payload
      else if tag == tag_object
      then decode_object decode payload
      else if tag == tag_array
      then whole array_ptr (read_array decode payload)
      else some none
