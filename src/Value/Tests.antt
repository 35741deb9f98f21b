-- ===== src/Value/Tests.antt =====
-- The theorems on the document tree at concrete values.
use pp_cpp_common.Common.{
  [], arith, bytes_eq, false, if◌then◌else◌, length, length-append, none, refl, some, suc, true,
  zero, ℕ, ◌*◌, ◌++◌, ◌+◌, ◌-◌, ◌<◌, ◌^◌, ◌↔◌, ◌∷◌, ◌≡◌, ◌≤◌,
}
use pp_cpp_common.Common.Int.{pos}
use pp_cpp_common.Value.{
  Fields, Value, array_ptr, contains, count_elements, count_fields, double_value, element, field,
  int64_value, no_elements, no_fields, null_object_ptr, null_value, object_ptr, set_field,
  string_value, try_get,
}
use pp_cpp_common.Value.Access.{deep_merge_object, get_object}
use pp_cpp_common.Value.Codec.{
  ValueWire, max_wire_depth, value_to_wire, value_wire, wire_to_value, write_elements,
}
use pp_cpp_common.Value.CodecProof.{FitsValue, depth, settle, tag-lt, wire_to_value-value_to_wire}
use pp_cpp_common.Value.Deciding.{value_equal_iff}
use pp_cpp_common.Value.Decimal.{as_non_neg_int_signed, get_non_neg_int-set_uint_for_json}
use pp_cpp_common.Value.Depth.{wire_to_value_too_deep}
use pp_cpp_common.Value.Equal.{double_eq, is_nan, value_equal}
use pp_cpp_common.Value.Equality.{canonical, has_nan}
use pp_cpp_common.Value.Lookup.{distinct_keys}
use pp_cpp_common.Value.Merge.{merge_slot, try_get-deep_merge_object}
use pp_cpp_common.Value.Numbers.{as_non_neg_int, get_non_neg_int, set_uint_for_json, to_string}
use pp_cpp_common.Wire.Endian.{le_bytes, little_endian, memory}
use pp_cpp_common.Wire.Scalars.{length-write_word, write_scalar, write_word}
use pp_cpp_common.Wire.Strings.{write_string}
use pp_cpp_common.Wire.Types.{write}

abbrev tree : Value
tree = object_ptr (field (97 ∷ []) (array_ptr (element null_object_ptr no_elements)) no_fields)

-- Arrays within arrays.
unfoldable nested : ℕ → Value
nested zero = null_value
nested (suc n) = array_ptr (element (nested n) no_elements)

length-write_wire :
    (w : ValueWire)
    → w.0 < 256 ^ 2
    → length w.1 < 256 ^ 8
    → length (write little_endian value_wire w) ≡ 10 + length w.1
unfolding write write_string write_scalar
length-write_wire (tag, payload) h k = omega (
  arith,
  length-append (write_word little_endian 2 tag)
      (write_word little_endian 8 (length payload) ++ payload),
  length-append (write_word little_endian 8 (length payload)) payload,
  length-write_word little_endian 2 tag h,
  length-write_word little_endian 8 (length payload) k,
)

nested_size : (n : ℕ) → n ≤ 200 → length (value_to_wire little_endian (nested n)).1 ≡ n * 18
unfolding nested value_to_wire count_elements write_elements write_scalar
nested_size zero h = refl
nested_size (suc n) h =
    let inner = value_to_wire little_endian (nested n) in
    let size = nested_size n (omega (arith, h)) in
    let wire = write little_endian value_wire inner in
    omega (
      arith,
      length-append (write_word little_endian 8 1) (wire ++ []),
      length-append wire [],
      length-write_word little_endian 8 1 (omega arith),
      length-write_wire inner (tag-lt little_endian (nested n)) (omega (arith, size, h)),
      size,
    )

nested-FitsValue : (n : ℕ) → n ≤ 200 → FitsValue little_endian (nested n)
unfolding nested count_elements
nested-FitsValue zero h = tt
nested-FitsValue (suc n) h = (
  omega arith,
  (omega (arith, nested_size n (omega (arith, h))), nested-FitsValue n (omega (arith, h)), tt),
)

depth-nested : (n : ℕ) → depth (nested n) ≡ suc n
unfolding nested depth
depth-nested zero = refl
depth-nested (suc n) = omega (arith, depth-nested n)

deep : max_wire_depth < depth (nested 128)
deep = omega (arith, depth-nested 128)

wire_to_value_too_deep_example :
    wire_to_value little_endian max_wire_depth (value_to_wire little_endian (nested 128)) ≡ none
wire_to_value_too_deep_example =
    wire_to_value_too_deep little_endian (nested 128) (nested-FitsValue 128 (omega arith)) deep

tree-FitsValue : FitsValue little_endian tree
unfolding count_fields count_elements value_to_wire write_elements contains write_scalar write_word
    memory le_bytes write write_string
tree-FitsValue =
    (omega arith, (omega arith, refl, omega arith, (omega arith, (omega arith, tt, tt)), tt))

shallow : depth tree ≤ max_wire_depth
unfolding depth
shallow = omega arith

wire_to_value-value_to_wire_example :
    wire_to_value little_endian max_wire_depth (value_to_wire little_endian tree)
    ≡ some (some (settle tree))
wire_to_value-value_to_wire_example =
    wire_to_value-value_to_wire little_endian tree tree-FitsValue shallow

get_non_neg_int-set_uint_for_json_example :
    get_non_neg_int (98 ∷ []) (set_uint_for_json (97 ∷ []) (2 ^ 63) no_fields)
    ≡ (if bytes_eq (97 ∷ []) (98 ∷ []) then some (2 ^ 63) else get_non_neg_int (98 ∷ []) no_fields)
get_non_neg_int-set_uint_for_json_example =
    get_non_neg_int-set_uint_for_json (98 ∷ []) (97 ∷ []) (2 ^ 63) no_fields (omega arith)

as_non_neg_int_signed_example :
    as_non_neg_int (string_value (32 ∷ 45 ∷ to_string 1)) ≡ some (2 ^ 64 - 1)
as_non_neg_int_signed_example = as_non_neg_int_signed 1 (omega arith) (omega arith)

-- {"a": {"x": 1}, "b": null} under {"a": {"y": 2}}.
abbrev base_fields : Fields
base_fields =
    field (97 ∷ []) (object_ptr (field (120 ∷ []) (int64_value (pos 1)) no_fields))
      (field (98 ∷ []) null_value no_fields)

abbrev overlay_fields : Fields
overlay_fields =
    field (97 ∷ []) (object_ptr (field (121 ∷ []) (int64_value (pos 2)) no_fields)) no_fields

try_get-deep_merge_object_example :
    try_get (97 ∷ []) (deep_merge_object base_fields overlay_fields)
    ≡ merge_slot (try_get (97 ∷ []) base_fields) (try_get (97 ∷ []) overlay_fields)
try_get-deep_merge_object_example =
    try_get-deep_merge_object (97 ∷ []) base_fields overlay_fields
      (unfold distinct_keys contains in refl)

base_merged :
    deep_merge_object base_fields overlay_fields
    ≡ field
        (97 ∷ [])
        (object_ptr (
          field
            (120 ∷ [])
            (int64_value (pos 1))
            (field (121 ∷ []) (int64_value (pos 2)) no_fields)))
        (field (98 ∷ []) null_value no_fields)
unfolding deep_merge_object get_object try_get set_field bytes_eq
base_merged = refl

-- An array that holds the negative zero.
abbrev zeros : ℕ → Value
zeros d = array_ptr (element (double_value d) no_elements)

value_equal_iff_example :
    (value_equal (zeros 0) (zeros (2 ^ 63)) ≡ true)
    ↔ ((canonical (zeros 0) ≡ canonical (zeros (2 ^ 63))) × (has_nan (zeros 0) ≡ false))
value_equal_iff_example = value_equal_iff (zeros 0) (zeros (2 ^ 63))

zeros_equal : value_equal (zeros 0) (zeros (2 ^ 63)) ≡ true
unfolding value_equal double_eq is_nan count_elements
zeros_equal = refl
