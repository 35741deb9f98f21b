-- ===== src/Json/Encoder.antt =====
-- `appendJsonValue`, `appendJsonObject` and `valueToJsonString` of src/io/Json.cpp: what they append,
-- or the error with its message.
use Prim.Native.String.{String}
use pp_cpp_common.Common.{
  Bool, Bytes, [], false, if◌then◌else◌, is_empty, leb, ltb, suc, true, zero, ℕ, ◌*◌, ◌++◌, ◌==◌,
  ◌^◌, ◌∷◌,
}
use pp_cpp_common.Common.Int.{negsuc, pos, ℤ}
use pp_cpp_common.Json.Numbers.{Doubles, is_finite, signed_to_string}
use pp_cpp_common.Json.Strings.{append_escaped_json_string}
use pp_cpp_common.Results.{Roe, ascii, err, error_of, ok}
use pp_cpp_common.Value.{
  Elements, Fields, Value, array_ptr, bool_value, double_value, element, field, int64_value,
  no_elements, no_fields, null_array_ptr, null_object_ptr, null_value, object_ptr, string_value,
  uint64_value,
}
use pp_cpp_common.Value.Numbers.{int64_max, to_string}

abbrev pub max_nesting_depth : ℕ
max_nesting_depth = 128

-- makeErr.
abbrev pub at_path : Bytes → Bytes
at_path path = if is_empty path then [] else ascii " at " ++ path

unfoldable pub make_err {ℓ} : {A : Type ℓ} → String → ℕ → Bytes → Roe A
make_err message offset path = err (
    error_of
      (ascii message ++ (at_path path ++ (ascii " (offset " ++ (to_string offset ++ ascii ")")))))

-- What is appended before `rest`; the first error ends it.
abbrev pub followed_by : Bytes → Roe Bytes → Roe Bytes
followed_by text (ok more) = ok (text ++ more)
followed_by text (err e) = err e

abbrev pub join : Roe Bytes → Roe Bytes → Roe Bytes
join (ok text) rest = followed_by text rest
join (err e) rest = err e

abbrev pub spaces : ℕ → Bytes
spaces zero = []
spaces (suc n) = 32 ∷ spaces n

-- `indent` is an int; the document is pretty where it is not negative.
abbrev pub is_pretty : ℤ → Bool
is_pretty (pos n) = true
is_pretty (negsuc n) = false

abbrev pub append_nl_indent : ℤ → ℕ → Bytes
append_nl_indent (pos indent) depth = 10 ∷ spaces (indent * depth)
append_nl_indent (negsuc indent) depth = 10 ∷ []

-- The product of `appendNlIndent` is one of ints. Where it overflows C++ promises nothing (a product
-- that wraps to a negative number is a count that `append` refuses with std::length_error), and the
-- model gives no text: the error stands for that, and is none of the code's.
unfoldable pub overflows : ℤ → ℕ → Bool
overflows (pos indent) depth = leb (2 ^ 31) (indent * depth)
overflows (negsuc indent) depth = false

unfoldable pub indented : ℤ → ℕ → Roe Bytes → Roe Bytes
indented indent depth text = if overflows indent depth then err (error_of []) else text

unfoldable pub pad : ℤ → ℕ → Bytes
pad indent depth = if is_pretty indent then append_nl_indent indent depth else []

abbrev pub comma : Bool → Bytes
comma first = if first then [] else 44 ∷ []

abbrev pub is_zero : ℕ → Bool
is_zero zero = true
is_zero (suc i) = false

abbrev pub ends_in_slash : Bytes → Bool
ends_in_slash [] = false
ends_in_slash (c ∷ []) = c == 47
ends_in_slash (c ∷ d ∷ bs) = ends_in_slash (d ∷ bs)

abbrev pub rooted : Bytes → Bytes
rooted path = if is_empty path then 47 ∷ [] else path

abbrev pub child_path : Bytes → Bytes → Bytes
child_path path k =
    (if ends_in_slash (rooted path) then rooted path else rooted path ++ 47 ∷ []) ++ k

-- What stands before a field's value, and before an element.
abbrev pub gap : ℤ → Bytes
gap indent = if is_pretty indent then 32 ∷ [] else []

unfoldable pub field_name : ℤ → Bytes → Bytes
field_name indent k = append_escaped_json_string k ++ (58 ∷ gap indent)

unfoldable pub index_path : Bytes → ℕ → Bytes
index_path path i = path ++ (47 ∷ to_string i)

module _ (io : Doubles) (indent : ℤ) where
  -- The loop over an array has the index, that over an object whether it is at its first field.
  unfoldable mutual
    pub append_json_value : ℕ → Bytes → Value → Roe Bytes
    append_json_value depth path null_value = ok (ascii "null")
    append_json_value depth path (int64_value i) = ok (signed_to_string i)
    append_json_value depth path (uint64_value n) =
        if ltb int64_max n
        then make_err "uint64 value exceeds int64 range for JSON" 0 path
        else ok (to_string n)
    append_json_value depth path (bool_value b) = ok (if b then ascii "true" else ascii "false")
    append_json_value depth path (double_value d) =
        if is_finite d
        then ok (io.print_double d)
        else make_err "non-finite double cannot be JSON" 0 path
    append_json_value depth path (string_value s) = ok (append_escaped_json_string s)
    append_json_value depth path null_object_ptr =
        make_err "null ObjectPtr is invalid; use Null" 0 path
    append_json_value depth path (object_ptr fs) =
        if leb max_nesting_depth depth
        then make_err "max nesting depth exceeded" 0 path
        else followed_by (123 ∷ []) (append_json_fields depth path true fs)
    append_json_value depth path null_array_ptr =
        make_err "null ArrayPtr is invalid; use Null" 0 path
    append_json_value depth path (array_ptr es) =
        if leb max_nesting_depth depth
        then make_err "max nesting depth exceeded" 0 path
        else followed_by (91 ∷ []) (append_json_elements depth path 0 es)

    pub append_json_fields : ℕ → Bytes → Bool → Fields → Roe Bytes
    append_json_fields depth path first no_fields =
        indented indent (if first then 0 else depth)
          (ok ((if first then [] else pad indent depth) ++ (125 ∷ [])))
    append_json_fields depth path first (field k v fs) = indented indent (suc depth) (
        followed_by (comma first ++ (pad indent (suc depth) ++ field_name indent k)) (
          join (append_json_value (suc depth) (child_path path k) v)
            (append_json_fields depth path false fs)))

    pub append_json_elements : ℕ → Bytes → ℕ → Elements → Roe Bytes
    append_json_elements depth path i no_elements =
        indented indent (if is_zero i then 0 else depth)
          (ok ((if is_zero i then [] else pad indent depth) ++ (93 ∷ [])))
    append_json_elements depth path i (element v es) = indented indent (suc depth) (
        followed_by (comma (is_zero i) ++ pad indent (suc depth)) (
          join (append_json_value (suc depth) (index_path path i) v)
            (append_json_elements depth path (suc i) es)))

  unfoldable pub value_to_json_string : Value → Roe Bytes
  value_to_json_string v = append_json_value 0 [] v
