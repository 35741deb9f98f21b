-- ===== src/Value/Depth.antt =====
-- The depth bound kMaxWireDepth of the decoder in src/Value.cpp.
use native.Mathlib.Decide.{dec_lt}
use pp_cpp_common.Common.{
  Bytes, [], append-nil, append_assoc, arith, false, length, length-append, none, refl, some, suc,
  zero, ℕ, ◌++◌, ◌<◌, ◌^◌, ◌∙◌, ◌∷◌, ◌≡◌, ◌≤◌,
}
use pp_cpp_common.Value.{
  Elements, Fields, Value, array_ptr, contains, count_elements, count_fields, element, field,
  no_elements, no_fields, object_ptr,
}
use pp_cpp_common.Value.Codec.{
  Decoded, ValueWire, decode_object, max_wire_depth, read_array, read_elements, read_fields,
  read_object, value_to_wire, value_wire, whole, wire_to_value, write_elements, write_fields,
}
use pp_cpp_common.Value.CodecProof.{
  FitsElements, FitsFields, FitsValue, FitsWire, at_level, depth, depth_elements, depth_fields,
  read-value_wire, read_fields-cons, settle, settles,
}
use pp_cpp_common.Wire.Endian.{Machine}
use pp_cpp_common.Wire.Reader.{◌>>=◌}
use pp_cpp_common.Wire.Scalars.{
  length-write_word, read_scalar-write_scalar, u64, write_scalar, write_word,
}
use pp_cpp_common.Wire.Strings.{max_string_size, read_string-write_string, write_string}
use pp_cpp_common.Wire.Types.{write}

module _ (m : Machine) where
  read_fields-refused :
      (decode : ValueWire → Decoded) (n : ℕ) (k : Bytes) (v : Value) (before : Fields)
      (tail : Bytes)
      → length k ≤ max_string_size
      → contains k before ≡ false
      → FitsWire m v
      → decode (value_to_wire m v) ≡ none
      → read_fields m decode
          (suc n)
          before
          (write_string m k ++ (write m value_wire (value_to_wire m v) ++ tail))
        ≡ none
  unfolding read_fields
  read_fields-refused decode n k v before tail hk new hw hv =
      rw (read_string-write_string m k _ hk, ◌>>=◌)
        (rw (read-value_wire m v tail hw, ◌>>=◌) (rw (new, hv)))

  read_elements-refused :
      (decode : ValueWire → Decoded) (n : ℕ) (v : Value) (tail : Bytes)
      → FitsWire m v
      → decode (value_to_wire m v) ≡ none
      → read_elements m decode (suc n) (write m value_wire (value_to_wire m v) ++ tail) ≡ none
  unfolding read_elements
  read_elements-refused decode n v tail hw hv = rw (read-value_wire m v tail hw, ◌>>=◌) (rw hv)

  read_elements-behind :
      (decode : ValueWire → Decoded) (n : ℕ) (v : Value) (tail : Bytes)
      → FitsWire m v
      → decode (value_to_wire m v) ≡ some (some (settle v))
      → read_elements m decode n tail ≡ none
      → read_elements m decode (suc n) (write m value_wire (value_to_wire m v) ++ tail) ≡ none
  unfolding read_elements
  read_elements-behind decode n v tail hw hv e =
      rw (read-value_wire m v tail hw, ◌>>=◌) (rw hv (rw (e, ◌>>=◌)))

  -- An empty payload is an empty object; any other is handed to the reader.
  decode_object-none :
      (decode : ValueWire → Decoded) (payload : Bytes)
      → 0 < length payload
      → read_object m decode payload ≡ none
      → decode_object m decode payload ≡ none
  unfolding decode_object
  decode_object-none decode [] h e = absurd (omega arith)
  decode_object-none decode (b ∷ bs) h e = rw (e, whole)

  length-counted :
      (n : ℕ) (bytes : Bytes) → n < 256 ^ 8 → 0 < length (write_scalar m u64 n ++ bytes)
  unfolding write_scalar
  length-counted n bytes h =
      omega (arith, length-append (write_word m 8 n) bytes, length-write_word m 8 n h)

  decode_object-failed :
      (decode : ValueWire → Decoded) (n : ℕ) (bytes : Bytes)
      → n < 256 ^ 8
      → read_fields m decode n no_fields (bytes ++ []) ≡ none
      → decode_object m decode (write_scalar m u64 n ++ bytes) ≡ none
  unfolding decode_object
  decode_object-failed decode n bytes h e = decode_object-none decode _ (length-counted n bytes h) (
      unfold read_object in
      rw (read_scalar-write_scalar m u64 n bytes h, ◌>>=◌) (rw append-nil at e))

  whole_array-failed :
      (decode : ValueWire → Decoded) (n : ℕ) (bytes : Bytes)
      → n < 256 ^ 8
      → read_elements m decode n (bytes ++ []) ≡ none
      → whole m array_ptr (read_array m decode (write_scalar m u64 n ++ bytes)) ≡ none
  unfolding read_array
  whole_array-failed decode n bytes h e =
      rw (read_scalar-write_scalar m u64 n bytes h, ◌>>=◌) (rw (rw append-nil at e))

  -- Without room nothing is decoded, and one level takes one unit of it.
  out_of_room :
      (wire : ValueWire) (room inner : ℕ)
      → room < suc inner
      → ((r : ℕ) → r < inner → wire_to_value m (suc r) wire ≡ none)
      → wire_to_value m room wire ≡ none
  unfolding wire_to_value
  out_of_room wire zero inner h k = refl
  out_of_room wire (suc r) inner h k = k r (omega arith)

  mutual
    unfolding value_to_wire wire_to_value depth count_fields count_elements

    refused :
        (v : Value) (room : ℕ)
        → FitsValue m v
        → room < depth v
        → wire_to_value m room (value_to_wire m v) ≡ none
    refused (object_ptr fs) room h d =
        out_of_room (value_to_wire m (object_ptr fs)) room (depth_fields fs) d (λ r lt.
          decode_object-failed (wire_to_value m r) (count_fields fs) (write_fields m fs) h.0
            (refused_fields fs no_fields r [] h.1 lt))
    refused (array_ptr es) room h d =
        out_of_room (value_to_wire m (array_ptr es)) room (depth_elements es) d (λ r lt.
          whole_array-failed (wire_to_value m r) (count_elements es) (write_elements m es) h.0
            (refused_elements es r [] h.1 lt))
    refused v room h d = out_of_room (value_to_wire m v) room 0 d (λ r lt. absurd (omega arith))

    refused_fields :
        (fs before : Fields) (room : ℕ) (rest : Bytes)
        → FitsFields m fs before
        → room < depth_fields fs
        → read_fields m (wire_to_value m room) (count_fields fs) before (write_fields m fs ++ rest)
          ≡ none
    refused_fields no_fields before room rest h d = absurd (omega arith)
    refused_fields (field k v fs) before room rest h d = elim (dec_lt room (depth v)) [
      | yes deep ↦
          rw (append_assoc, append_assoc)
            (read_fields-refused (wire_to_value m room) (count_fields fs) k v before _ h.0 h.1 h.2
              (refused v room h.3 deep))
      | no level ↦
          rw (append_assoc, append_assoc)
            (read_fields-cons m (wire_to_value m room) (count_fields fs) k v fs before _ h.0 h.1 h.2
                (at_level m v room (λ r. settles m v r h.3) (omega arith))
              ∙ refused_fields fs _ room rest h.4 (omega arith))
    ]

    refused_elements :
        (es : Elements) (room : ℕ) (rest : Bytes)
        → FitsElements m es
        → room < depth_elements es
        → read_elements m (wire_to_value m room) (count_elements es) (write_elements m es ++ rest)
          ≡ none
    refused_elements no_elements room rest h d = absurd (omega arith)
    refused_elements (element v es) room rest h d = elim (dec_lt room (depth v)) [
      | yes deep ↦ rw append_assoc (
          read_elements-refused (wire_to_value m room) (count_elements es) v _ h.0
            (refused v room h.1 deep))
      | no level ↦ rw append_assoc (
          read_elements-behind (wire_to_value m room) (count_elements es) v _ h.0
            (at_level m v room (λ r. settles m v r h.1) (omega arith))
            (refused_elements es room rest h.2 (omega arith)))
    ]

  -- A value that fits and is deeper than 128 levels is written by valueToWire and refused by
  -- wireToValue.
  pub wire_to_value_too_deep :
      (v : Value)
      → FitsValue m v
      → max_wire_depth < depth v
      → wire_to_value m max_wire_depth (value_to_wire m v) ≡ none
  wire_to_value_too_deep v h d = refused v max_wire_depth h d
