-- ===== src/Value/Equal.antt =====
-- `valueEqual` and the equality of Object and Array of src/Value.cpp.
use pp_cpp_common.Common.{
  Bool, Bytes, bytes_eq, false, not, true, ℕ, ◌%◌, ◌&&◌, ◌/◌, ◌==◌, ◌^◌, ◌||◌,
}
use pp_cpp_common.Common.Int.{negsuc, pos, ℤ}
use pp_cpp_common.Value.{
  Elements, Fields, Value, array_ptr, bool_value, count_elements, count_fields, double_value,
  element, field, int64_value, no_elements, no_fields, null_array_ptr, null_object_ptr, null_value,
  object_ptr, string_value, uint64_value,
}

-- The == of doubles on their bit patterns: a NaN equals nothing, and the zeros are equal.
unfoldable pub is_nan : ℕ → Bool
is_nan d = d / 2 ^ 52 % 2 ^ 11 == 2047 && not (d % 2 ^ 52 == 0)

abbrev pub negative_zero : ℕ
negative_zero = 2 ^ 63

abbrev pub is_double_zero : ℕ → Bool
is_double_zero d = d == 0 || d == negative_zero

unfoldable pub double_eq : ℕ → ℕ → Bool
double_eq a b =
    not (is_nan a) && not (is_nan b) && (a == b || (is_double_zero a && is_double_zero b))

abbrev pub int_eq : ℤ → ℤ → Bool
int_eq (pos m) (pos n) = m == n
int_eq (negsuc m) (negsuc n) = m == n
int_eq _ _ = false

abbrev pub bool_eq : Bool → Bool → Bool
bool_eq true b = b
bool_eq false b = not b

-- Whether `b` holds the same alternative, and its content passes the test.
abbrev pub same_int64 : ℤ → Value → Bool
same_int64 i (int64_value j) = int_eq i j
same_int64 i _ = false

abbrev pub same_uint64 : ℕ → Value → Bool
same_uint64 m (uint64_value n) = m == n
same_uint64 m _ = false

abbrev pub same_bool : Bool → Value → Bool
same_bool b (bool_value c) = bool_eq b c
same_bool b _ = false

abbrev pub same_double : ℕ → Value → Bool
same_double d (double_value e) = double_eq d e
same_double d _ = false

abbrev pub same_string : Bytes → Value → Bool
same_string s (string_value t) = bytes_eq s t
same_string s _ = false

abbrev pub same_null : Value → Bool
same_null null_value = true
same_null _ = false

abbrev pub same_null_object : Value → Bool
same_null_object null_object_ptr = true
same_null_object _ = false

abbrev pub same_null_array : Value → Bool
same_null_array null_array_ptr = true
same_null_array _ = false

abbrev pub same_object : (Fields → Bool) → Value → Bool
same_object same (object_ptr gs) = same gs
same_object same _ = false

abbrev pub same_array : (Elements → Bool) → Value → Bool
same_array same (array_ptr fs) = same fs
same_array same _ = false

-- The loops stop where either side ends; the sizes are compared first.
abbrev pub next_field : Bytes → (Value → Bool) → (Fields → Bool) → Fields → Bool
next_field k same rest no_fields = true
next_field k same rest (field j w gs) = bytes_eq k j && same w && rest gs

abbrev pub next_element : (Value → Bool) → (Elements → Bool) → Elements → Bool
next_element same rest no_elements = true
next_element same rest (element w fs) = same w && rest fs

unfoldable mutual
  pub value_equal : Value → Value → Bool
  value_equal null_value b = same_null b
  value_equal (int64_value i) b = same_int64 i b
  value_equal (uint64_value n) b = same_uint64 n b
  value_equal (bool_value x) b = same_bool x b
  value_equal (double_value d) b = same_double d b
  value_equal (string_value s) b = same_string s b
  value_equal null_object_ptr b = same_null_object b
  value_equal (object_ptr fs) b =
      same_object (λ gs. count_fields fs == count_fields gs && fields_equal fs gs) b
  value_equal null_array_ptr b = same_null_array b
  value_equal (array_ptr es) b =
      same_array (λ fs. count_elements es == count_elements fs && elements_equal es fs) b

  pub fields_equal : Fields → Fields → Bool
  fields_equal no_fields gs = true
  fields_equal (field k v fs) gs = next_field k (value_equal v) (fields_equal fs) gs

  pub elements_equal : Elements → Elements → Bool
  elements_equal no_elements fs = true
  elements_equal (element v es) fs = next_element (value_equal v) (elements_equal es) fs
