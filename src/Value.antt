-- ===== src/Value.antt =====
-- include/common/Value.h and src/Value.cpp: the document tree. An `Object` is the entries of its
-- FiFoMap in insertion order; module FifoMap models the index beside them.
pub mod Lookup
pub mod Equal
pub mod Equality
pub mod Respects
pub mod Deciding
pub mod Access
pub mod Merge
pub mod Codec
pub mod CodecProof
pub mod Depth
pub mod Numbers
pub mod Decimal
mod Tests
use pp_cpp_common.Common.{
  Bool, Bytes, Option, ap, arith, bytes_eq, false, if◌then◌else◌, none, refl, some, suc, ℕ, ◌||◌,
  ◌≡◌,
}
use pp_cpp_common.Common.Int.{ℤ}

-- The alternatives of the variant. A double is its IEEE 754 bit pattern; a shared pointer that is
-- null has a constructor of its own.
mutual
  pub data Value : Type 0 where
    null_value : Value
    int64_value : ℤ → Value
    uint64_value : ℕ → Value
    bool_value : Bool → Value
    double_value : ℕ → Value
    string_value : Bytes → Value
    null_object_ptr : Value
    object_ptr : Fields → Value
    null_array_ptr : Value
    array_ptr : Elements → Value

  pub data Fields : Type 0 where
    no_fields : Fields
    field : Bytes → Value → Fields → Fields

  pub data Elements : Type 0 where
    no_elements : Elements
    element : Value → Elements → Elements

unfoldable pub count_fields : Fields → ℕ
count_fields no_fields = 0
count_fields (field k v fs) = suc (count_fields fs)

unfoldable pub count_elements : Elements → ℕ
count_elements no_elements = 0
count_elements (element v es) = suc (count_elements es)

-- `FiFoMap::contains`, `tryGet` and `set` on the entries: an update keeps its place, a new key goes
-- to the end.
unfoldable pub contains : Bytes → Fields → Bool
contains k no_fields = false
contains k (field j v fs) = bytes_eq j k || contains k fs

unfoldable pub try_get : Bytes → Fields → Option Value
try_get k no_fields = none
try_get k (field j v fs) = if bytes_eq j k then some v else try_get k fs

unfoldable pub set_field : Bytes → Value → Fields → Fields
set_field k v no_fields = field k v no_fields
set_field k v (field j w fs) = if bytes_eq j k then field j v fs else field j w (set_field k v fs)

abbrev pub append_fields : Fields → Fields → Fields
append_fields no_fields gs = gs
append_fields (field k v fs) gs = field k v (append_fields fs gs)

pub append_fields_assoc :
    (fs gs hs : Fields)
    → append_fields (append_fields fs gs) hs ≡ append_fields fs (append_fields gs hs)
append_fields_assoc no_fields gs hs = refl
append_fields_assoc (field k v fs) gs hs = ap (field k v) (append_fields_assoc fs gs hs)

pub append_fields-nil : (fs : Fields) → append_fields fs no_fields ≡ fs
append_fields-nil no_fields = refl
append_fields-nil (field k v fs) = ap (field k v) (append_fields-nil fs)

-- A key that is not there goes to the end.
pub set_field-new :
    (k : Bytes) (v : Value) (fs : Fields)
    → contains k fs ≡ false
    → set_field k v fs ≡ append_fields fs (field k v no_fields)
unfolding contains set_field
set_field-new k v no_fields h = refl
set_field-new k v (field j w fs) h = ground (arith, set_field-new k v fs)
