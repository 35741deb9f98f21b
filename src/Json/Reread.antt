-- ===== src/Json/Reread.antt =====
-- What the parser of src/io/Json.cpp gives for what its encoder writes: an unsigned number comes back
-- signed, and a string with U+FFFD for what is not UTF-8.
use pp_cpp_common.Common.{false, ◌<◌, ◌^◌, ◌≡◌}
use pp_cpp_common.Common.Int.{FitsInt, pos}
use pp_cpp_common.Json.NumberValues.{PrintsDoubles, double_back, is_subnormal}
use pp_cpp_common.Json.Numbers.{Doubles}
use pp_cpp_common.Json.RoundTrip.{sanitize}
use pp_cpp_common.Value.{
  Elements, Fields, Value, append_fields, array_ptr, bool_value, contains, double_value, element,
  field, int64_value, no_elements, no_fields, null_array_ptr, null_object_ptr, null_value,
  object_ptr, string_value, uint64_value,
}

module _ (io : Doubles) (p : PrintsDoubles io) where
  -- A null pointer is not written.
  unfoldable mutual
    pub reread : Value → Value
    reread null_value = null_value
    reread (int64_value i) = int64_value i
    reread (uint64_value n) = int64_value (pos n)
    reread (bool_value b) = bool_value b
    reread (double_value d) = double_back io p d
    reread (string_value s) = string_value (sanitize 0 s)
    reread null_object_ptr = null_value
    reread (object_ptr fs) = object_ptr (reread_fields fs)
    reread null_array_ptr = null_value
    reread (array_ptr es) = array_ptr (reread_elements es)

    pub reread_fields : Fields → Fields
    reread_fields no_fields = no_fields
    reread_fields (field k v fs) = field (sanitize 0 k) (reread v) (reread_fields fs)

    pub reread_elements : Elements → Elements
    reread_elements no_elements = no_elements
    reread_elements (element v es) = element (reread v) (reread_elements es)

  -- Numbers within their types, no subnormal double, and no two keys of an object that are written
  -- alike. `FitsJsonFields before` is for fields that stand behind those of `before`.
  abbrev mutual
    pub FitsJson : Value → Type 0
    FitsJson null_value = Unit {0}
    FitsJson (int64_value i) = FitsInt (2 ^ 63) i
    FitsJson (uint64_value n) = Unit {0}
    FitsJson (bool_value b) = Unit {0}
    FitsJson (double_value d) = (d < 2 ^ 64) × (is_subnormal d ≡ false)
    FitsJson (string_value s) = Unit {0}
    FitsJson null_object_ptr = Unit {0}
    FitsJson (object_ptr fs) = FitsJsonFields fs no_fields
    FitsJson null_array_ptr = Unit {0}
    FitsJson (array_ptr es) = FitsJsonElements es

    pub FitsJsonFields : Fields → Fields → Type 0
    FitsJsonFields no_fields before = Unit {0}
    FitsJsonFields (field k v fs) before =
        (contains (sanitize 0 k) before ≡ false)
        × FitsJson v
        × FitsJsonFields fs (append_fields before (field (sanitize 0 k) (reread v) no_fields))

    pub FitsJsonElements : Elements → Type 0
    FitsJsonElements no_elements = Unit {0}
    FitsJsonElements (element v es) = FitsJson v × FitsJsonElements es
