-- ===== src/Value/Lookup.antt =====
-- The fields of an Object as a map: what `set` and `tryGet` of include/common/Value.h do to each other.
use pp_cpp_common.Common.{
  Bool, Bool-cases, Bytes, arith, bytes_eq, bytes_eq_refl, bytes_eq→eq, false, if◌then◌else◌, inl,
  inr, none, not, refl, some, true, ◌&&◌, ◌||◌, ◌≡◌,
}
use pp_cpp_common.Value.{
  Fields, Value, append_fields, contains, field, no_fields, set_field, try_get,
}

unfoldable pub distinct_keys : Fields → Bool
distinct_keys no_fields = true
distinct_keys (field k v fs) = not (contains k fs) && distinct_keys fs

pub try_get-set_field :
    (j k : Bytes) (v : Value) (fs : Fields)
    → try_get j (set_field k v fs) ≡ (if bytes_eq k j then some v else try_get j fs)
unfolding try_get set_field
try_get-set_field j k v no_fields = refl
try_get-set_field j k v (field i w fs) = elim (Bool-cases (bytes_eq i k)) [
  | inl e ↦ rw (bytes_eq→eq i k e, bytes_eq_refl k) (ground arith)
  | inr e ↦ rw e (ground (arith, try_get-set_field j k v fs, bytes_eq→eq i j, bytes_eq→eq k j))
]

contains-append :
    (j k : Bytes) (w : Value) (fs : Fields)
    → contains j (append_fields fs (field k w no_fields)) ≡ (contains j fs || bytes_eq k j)
unfolding contains
contains-append j k w no_fields = ground arith
contains-append j k w (field i v fs) = ground (arith, contains-append j k w fs)

bytes_eq_sym : (a b : Bytes) → bytes_eq a b ≡ true → bytes_eq b a ≡ true
bytes_eq_sym a b h = rw (bytes_eq→eq a b h) (bytes_eq_refl b)

pub distinct_keys-append :
    (k : Bytes) (w : Value) (fs : Fields)
    → contains k fs ≡ false
    → distinct_keys fs ≡ true
    → distinct_keys (append_fields fs (field k w no_fields)) ≡ true
unfolding distinct_keys contains
distinct_keys-append k w no_fields h d = refl
distinct_keys-append k w (field j v fs) h d =
    ground (arith, contains-append j k w fs, bytes_eq_sym k j, distinct_keys-append k w fs)

pub try_get-none : (k : Bytes) (fs : Fields) → contains k fs ≡ false → try_get k fs ≡ none
unfolding contains try_get
try_get-none k no_fields h = refl
try_get-none k (field j v fs) h = ground (arith, try_get-none k fs)
