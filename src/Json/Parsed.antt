-- ===== src/Json/Parsed.antt =====
-- What the parser of src/io/Json.cpp can give.
use pp_cpp_common.Common.{Bytes, some, suc, true, zero, ℕ, ◌^◌, ◌≡◌}
use pp_cpp_common.Common.Int.{FitsInt}
use pp_cpp_common.Json.Numbers.{is_finite}
use pp_cpp_common.Value.{
  Elements, Fields, Value, append_fields, array_ptr, bool_value, double_value, element, field,
  int64_value, no_elements, no_fields, null_array_ptr, null_object_ptr, null_value, object_ptr,
  string_value, uint64_value,
}
use pp_cpp_common.Value.Lookup.{distinct_keys}

-- A value within `room` levels of objects and arrays, with numbers within their types, finite
-- doubles, no unsigned number, no null pointer and no key twice in an object.
abbrev mutual
  pub IsParsed : Value → ℕ → Type 0
  IsParsed null_value room = Unit {0}
  IsParsed (int64_value i) room = FitsInt (2 ^ 63) i
  IsParsed (uint64_value n) room = ⊥
  IsParsed (bool_value b) room = Unit {0}
  IsParsed (double_value d) room = is_finite d ≡ true
  IsParsed (string_value s) room = Unit {0}
  IsParsed null_object_ptr room = ⊥
  IsParsed (object_ptr fs) zero = ⊥
  IsParsed (object_ptr fs) (suc room) = (distinct_keys fs ≡ true) × IsParsedFields fs room
  IsParsed null_array_ptr room = ⊥
  IsParsed (array_ptr es) zero = ⊥
  IsParsed (array_ptr es) (suc room) = IsParsedElements es room

  pub IsParsedFields : Fields → ℕ → Type 0
  IsParsedFields no_fields room = Unit {0}
  IsParsedFields (field k v fs) room = IsParsed v room × IsParsedFields fs room

  pub IsParsedElements : Elements → ℕ → Type 0
  IsParsedElements no_elements room = Unit {0}
  IsParsedElements (element v es) room = IsParsed v room × IsParsedElements es room

pub IsParsedFields-append :
    (fs : Fields) (k : Bytes) (w : Value) (room : ℕ)
    → IsParsedFields fs room
    → IsParsed w room
    → IsParsedFields (append_fields fs (field k w no_fields)) room
IsParsedFields-append no_fields k w room h p = (p, tt)
IsParsedFields-append (field j v fs) k w room h p = (h.0, IsParsedFields-append fs k w room h.1 p)

pub some-injective {ℓ} : {A : Type ℓ} {a b : A} → some a ≡ some b → a ≡ b
some-injective h = cc
