-- ===== src/Value/CodecProof.antt =====
-- `valueToWire` and then `wireToValue` of src/Value.cpp.
use pp_cpp_common.Common.{
  Bytes, [], append-nil, append_assoc, arith, false, length, max, none, refl, some, suc, sym, zero,
  ℕ, ◌++◌, ◌<◌, ◌^◌, ◌∙◌, ◌∷◌, ◌≡◌, ◌≤◌,
}
use pp_cpp_common.Value.{
  Elements, Fields, Value, append_fields, append_fields_assoc, append_fields-nil, array_ptr,
  bool_value, contains, count_elements, count_fields, double_value, element, field, int64_value,
  no_elements, no_fields, null_array_ptr, null_object_ptr, null_value, object_ptr, set_field-new,
  string_value, uint64_value,
}
use pp_cpp_common.Value.Codec.{
  Decoded, ValueWire, decode_object, max_wire_depth, read_array, read_elements, read_fields,
  read_object, unpack_as, value_to_wire, value_wire, whole, wire_to_value, write_elements,
  write_fields,
}
use pp_cpp_common.Wire.Endian.{Machine}
use pp_cpp_common.Wire.Pack.{binary_pack, binary_unpack-binary_pack}
use pp_cpp_common.Wire.Reader.{none_ne, read_raw, ◌>>=◌}
use pp_cpp_common.Wire.RoundTrip.{read-write}
use pp_cpp_common.Wire.Scalars.{
  FitsScalar, bool, double, i64, read_scalar, read_scalar-write_scalar, read_word, u64,
  write_scalar,
}
use pp_cpp_common.Wire.Strings.{max_string_size, read_string-write_string, write_string}
use pp_cpp_common.Wire.Types.{Carrier, Fits, WireType, read, scalar, string, write}

-- A null pointer is written as Null.
unfoldable mutual
  pub settle : Value → Value
  settle null_value = null_value
  settle (int64_value i) = int64_value i
  settle (uint64_value n) = uint64_value n
  settle (bool_value b) = bool_value b
  settle (double_value d) = double_value d
  settle (string_value s) = string_value s
  settle null_object_ptr = null_value
  settle (object_ptr fs) = object_ptr (settle_fields fs)
  settle null_array_ptr = null_value
  settle (array_ptr es) = array_ptr (settle_elements es)

  pub settle_fields : Fields → Fields
  settle_fields no_fields = no_fields
  settle_fields (field k v fs) = field k (settle v) (settle_fields fs)

  pub settle_elements : Elements → Elements
  settle_elements no_elements = no_elements
  settle_elements (element v es) = element (settle v) (settle_elements es)

-- Objects and arrays on the way down, counting the value itself.
unfoldable mutual
  pub depth : Value → ℕ
  depth null_value = 1
  depth (int64_value i) = 1
  depth (uint64_value n) = 1
  depth (bool_value b) = 1
  depth (double_value d) = 1
  depth (string_value s) = 1
  depth null_object_ptr = 1
  depth (object_ptr fs) = suc (depth_fields fs)
  depth null_array_ptr = 1
  depth (array_ptr es) = suc (depth_elements es)

  pub depth_fields : Fields → ℕ
  depth_fields no_fields = 0
  depth_fields (field k v fs) = max (depth v) (depth_fields fs)

  pub depth_elements : Elements → ℕ
  depth_elements no_elements = 0
  depth_elements (element v es) = max (depth v) (depth_elements es)

module _ (m : Machine) where
  -- The struct that carries a value fits the reader's bound on strings.
  abbrev pub FitsWire : Value → Type 0
  FitsWire v = length (value_to_wire m v).1 ≤ max_string_size

  -- Numbers within their types, strings within the reader's bound, and no key twice in an object.
  -- `FitsFields before` is for fields that stand behind those of `before`.
  abbrev mutual
    pub FitsValue : Value → Type 0
    FitsValue null_value = Unit {0}
    FitsValue (int64_value i) = FitsScalar i64 i
    FitsValue (uint64_value n) = FitsScalar u64 n
    FitsValue (bool_value b) = Unit {0}
    FitsValue (double_value d) = FitsScalar double d
    FitsValue (string_value s) = length s ≤ max_string_size
    FitsValue null_object_ptr = Unit {0}
    FitsValue (object_ptr fs) = (count_fields fs < 256 ^ 8) × FitsFields fs no_fields
    FitsValue null_array_ptr = Unit {0}
    FitsValue (array_ptr es) = (count_elements es < 256 ^ 8) × FitsElements es

    pub FitsFields : Fields → Fields → Type 0
    FitsFields no_fields before = Unit {0}
    FitsFields (field k v fs) before =
        (length k ≤ max_string_size)
        × (contains k before ≡ false)
        × FitsWire v
        × FitsValue v
        × FitsFields fs (append_fields before (field k (settle v) no_fields))

    pub FitsElements : Elements → Type 0
    FitsElements no_elements = Unit {0}
    FitsElements (element v es) = FitsWire v × FitsValue v × FitsElements es

pub tag-lt : (m : Machine) (v : Value) → (value_to_wire m v).0 < 256 ^ 2
unfolding value_to_wire
tag-lt m null_value = omega arith
tag-lt m _ = omega arith

module _ (m : Machine) where
  pub read-value_wire :
      (v : Value) (rest : Bytes)
      → FitsWire m v
      → read m value_wire (write m value_wire (value_to_wire m v) ++ rest)
        ≡ some (value_to_wire m v, rest)
  read-value_wire v rest h = read-write m value_wire (value_to_wire m v) rest (tag-lt m v, h)

  unpack_as-binary_pack :
      (t : WireType) (f : Carrier t → Value) (v : Carrier t)
      → Fits t v
      → unpack_as m t f (binary_pack m t v) ≡ some (some (f v))
  unpack_as-binary_pack t f v h = rw (binary_unpack-binary_pack m t v h, unpack_as)

  -- A decoder that gives back each value settled.
  abbrev pub Settles : (ValueWire → Decoded) → Value → Type 0
  Settles decode v = decode (value_to_wire m v) ≡ some (some (settle v))

  pub depth_pos : (v : Value) → 0 < depth v
  unfolding depth
  depth_pos null_value = omega arith
  depth_pos _ = omega arith

  read_object-nil : (decode : ValueWire → Decoded) → read_object m decode [] ≡ none
  unfolding read_object read_scalar read_word read_raw
  read_object-nil decode = refl

  -- The count that was written is the one that the loop is given.
  read_object-count :
      (decode : ValueWire → Decoded) (n : ℕ) (bytes : Bytes) (fs : Fields)
      → n < 256 ^ 8
      → read_fields m decode n no_fields (bytes ++ []) ≡ some (fs, [])
      → read_object m decode (write_scalar m u64 n ++ bytes) ≡ some (fs, [])
  unfolding read_object
  read_object-count decode n bytes fs h e =
      rw (read_scalar-write_scalar m u64 n bytes h, ◌>>=◌) (rw append-nil at e)

  read_array-count :
      (decode : ValueWire → Decoded) (n : ℕ) (bytes : Bytes) (es : Elements)
      → n < 256 ^ 8
      → read_elements m decode n (bytes ++ []) ≡ some (es, [])
      → read_array m decode (write_scalar m u64 n ++ bytes) ≡ some (es, [])
  unfolding read_array
  read_array-count decode n bytes es h e =
      rw (read_scalar-write_scalar m u64 n bytes h, ◌>>=◌) (rw append-nil at e)

  decode_object-whole :
      (decode : ValueWire → Decoded) (payload : Bytes) (fs : Fields)
      → read_object m decode payload ≡ some (fs, [])
      → decode_object m decode payload ≡ some (some (object_ptr fs))
  unfolding decode_object
  decode_object-whole decode [] fs h = absurd (none_ne (sym (read_object-nil decode) ∙ h))
  decode_object-whole decode (b ∷ bs) fs h = rw (h, whole)

  -- A value takes at least one level, so the room for it is not zero.
  pub at_level :
      (v : Value) (room : ℕ)
      → ((r : ℕ) → depth v ≤ suc r → Settles (wire_to_value m (suc r)) v)
      → depth v ≤ room
      → Settles (wire_to_value m room) v
  at_level v zero h d = absurd (omega (arith, depth_pos v))
  at_level v (suc r) h d = h r d

  read_fields-nil :
      (decode : ValueWire → Decoded) (before : Fields) (bs : Bytes)
      → read_fields m decode 0 before bs ≡ some (append_fields before no_fields, bs)
  unfolding read_fields
  read_fields-nil decode before bs = rw append_fields-nil

  pub read_fields-cons :
      (decode : ValueWire → Decoded) (n : ℕ) (k : Bytes) (v : Value) (fs before : Fields)
      (tail : Bytes)
      → length k ≤ max_string_size
      → contains k before ≡ false
      → FitsWire m v
      → Settles decode v
      → read_fields m decode
          (suc n)
          before
          (write_string m k ++ (write m value_wire (value_to_wire m v) ++ tail))
        ≡ read_fields m decode n (append_fields before (field k (settle v) no_fields)) tail
  unfolding read_fields
  read_fields-cons decode n k v fs before tail hk new hw hv =
      rw (read_string-write_string m k _ hk, ◌>>=◌)
        (rw (read-value_wire v tail hw, ◌>>=◌)
          (rw (new, hv) (rw (set_field-new k (settle v) before new))))

  mutual
    unfolding value_to_wire wire_to_value settle depth read_elements count_fields count_elements

    pub settles :
        (v : Value) (room : ℕ)
        → FitsValue m v
        → depth v ≤ suc room
        → wire_to_value m (suc room) (value_to_wire m v) ≡ some (some (settle v))
    settles null_value room h d = refl
    settles (int64_value i) room h d = unpack_as-binary_pack (scalar i64) int64_value i h
    settles (uint64_value n) room h d = unpack_as-binary_pack (scalar u64) uint64_value n h
    settles (bool_value b) room h d = unpack_as-binary_pack (scalar bool) bool_value b tt
    settles (double_value x) room h d = unpack_as-binary_pack (scalar double) double_value x h
    settles (string_value s) room h d = unpack_as-binary_pack string string_value s h
    settles null_object_ptr room h d = refl
    settles (object_ptr fs) room h d =
        decode_object-whole (wire_to_value m room) _ (settle_fields fs) (
          read_object-count (wire_to_value m room) (count_fields fs) (write_fields m fs) _ h.0
            (settles_fields fs no_fields room [] h.1 (omega arith)))
    settles null_array_ptr room h d = refl
    settles (array_ptr es) room h d = rw (
      read_array-count (wire_to_value m room) (count_elements es) (write_elements m es) _ h.0
          (settles_elements es room [] h.1 (omega arith)),
      whole,
    )

    settles_fields :
        (fs before : Fields) (room : ℕ) (rest : Bytes)
        → FitsFields m fs before
        → depth_fields fs ≤ room
        → read_fields m (wire_to_value m room) (count_fields fs) before (write_fields m fs ++ rest)
          ≡ some (append_fields before (settle_fields fs), rest)
    settles_fields no_fields before room rest h d =
        read_fields-nil (wire_to_value m room) before rest
    settles_fields (field k v fs) before room rest h d =
        let decode = wire_to_value m room in
        let child = at_level v room (λ r. settles v r h.3) (omega arith) in
        rw (append_assoc, append_assoc)
          (read_fields-cons decode (count_fields fs) k v fs before _ h.0 h.1 h.2 child
            ∙ settles_fields fs _ room rest h.4 (omega arith)
            ∙ rw append_fields_assoc)

    settles_elements :
        (es : Elements) (room : ℕ) (rest : Bytes)
        → FitsElements m es
        → depth_elements es ≤ room
        → read_elements m (wire_to_value m room) (count_elements es) (write_elements m es ++ rest)
          ≡ some (settle_elements es, rest)
    settles_elements no_elements room rest h d = refl
    settles_elements (element v es) room rest h d =
        let child = at_level v room (λ r. settles v r h.1) (omega arith) in
        rw (append_assoc, read-value_wire v (write_elements m es ++ rest) h.0, ◌>>=◌)
          (rw child (rw (settles_elements es room rest h.2 (omega arith), ◌>>=◌)))

  -- wireToValue of valueToWire is the value with its null pointers read as Null, for a value that
  -- fits its types, repeats no key in an object and is at most 128 levels deep.
  pub wire_to_value-value_to_wire :
      (v : Value)
      → FitsValue m v
      → depth v ≤ max_wire_depth
      → wire_to_value m max_wire_depth (value_to_wire m v) ≡ some (some (settle v))
  wire_to_value-value_to_wire v h d = settles v 127 h d
