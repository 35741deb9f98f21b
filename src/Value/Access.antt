-- ===== src/Value/Access.antt =====
-- The typed accessors of src/Value.cpp, and `DeepMergeObject` of include/common/ValueJson.h.
use pp_cpp_common.Common.{Bool, Bytes, Option, false, none, some, true}
use pp_cpp_common.Common.Int.{ℤ}
use pp_cpp_common.Value.{
  Elements, Fields, Value, array_ptr, bool_value, field, int64_value, no_fields, null_value,
  object_ptr, set_field, string_value, try_get,
}

abbrev pub as_object : Value → Option Fields
as_object (object_ptr fs) = some fs
as_object _ = none

abbrev pub as_array : Value → Option Elements
as_array (array_ptr es) = some es
as_array _ = none

abbrev pub as_string : Value → Option Bytes
as_string (string_value s) = some s
as_string _ = none

-- `std::get_if` for the alternatives that the accessors ask for.
abbrev pub as_bool : Value → Option Bool
as_bool (bool_value b) = some b
as_bool _ = none

abbrev pub as_int64 : Value → Option ℤ
as_int64 (int64_value i) = some i
as_int64 _ = none

abbrev pub is_some {ℓ} : {A : Type ℓ} → Option A → Bool
is_some none = false
is_some (some a) = true

abbrev pub is_null_value : Value → Bool
is_null_value null_value = true
is_null_value _ = false

abbrev pub is_string_value : Value → Bool
is_string_value v = is_some (as_string v)

abbrev pub is_object_value : Value → Bool
is_object_value v = is_some (as_object v)

abbrev pub is_array_value : Value → Bool
is_array_value v = is_some (as_array v)

abbrev pub is_bool_value : Value → Bool
is_bool_value v = is_some (as_bool v)

-- A read of a slot, where there is one.
abbrev pub slot {ℓ} : {A : Type ℓ} → Option Value → (Value → Option A) → Option A
slot none f = none
slot (some v) f = f v

unfoldable pub is_null : Bytes → Fields → Bool
is_null key fs = elim (try_get key fs) [ none ↦ false | some v ↦ is_null_value v ]

unfoldable pub get_string : Bytes → Fields → Option Bytes
get_string key fs = slot (try_get key fs) as_string

unfoldable pub get_object : Bytes → Fields → Option Fields
get_object key fs = slot (try_get key fs) as_object

unfoldable pub get_meta_if : Bytes → Fields → Option Fields
get_meta_if key fs = slot (try_get key fs) as_object

unfoldable pub get_array : Bytes → Fields → Option Elements
get_array key fs = slot (try_get key fs) as_array

unfoldable pub object_bool : Bytes → Fields → Option Bool
object_bool key fs = slot (try_get key fs) as_bool

unfoldable pub object_int64 : Bytes → Fields → Option ℤ
object_int64 key fs = slot (try_get key fs) as_int64

-- `merge` merges a child of the overlay into the child of the base.
abbrev pub merge_child : Option Fields → Fields → (Fields → Fields) → Fields
merge_child none overlay merge = overlay
merge_child (some base) overlay merge = merge base

-- The loop over the overlay. What is stored is a copy, so that no other object is changed.
unfoldable pub deep_merge_object : Fields → Fields → Fields
deep_merge_object base no_fields = base
deep_merge_object base (field k (object_ptr child) fs) =
    let merged = merge_child (get_object k base) child (λ b. deep_merge_object b child) in
    deep_merge_object (set_field k (object_ptr merged) base) fs
deep_merge_object base (field k v fs) = deep_merge_object (set_field k v base) fs
