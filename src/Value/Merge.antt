-- ===== src/Value/Merge.antt =====
-- `DeepMergeObject` of include/common/ValueJson.h, key by key.
use pp_cpp_common.Common.{
  Bool-cases, Bytes, Option, ap, arith, bytes_eq, bytes_eq→eq, false, inl, inr, none, refl, some,
  subst, true, ◌∙◌, ◌≡◌,
}
use pp_cpp_common.Value.{
  Fields, Value, contains, field, no_fields, null_object_ptr, null_value, object_ptr, set_field,
  try_get,
}
use pp_cpp_common.Value.Access.{as_object, deep_merge_object, get_object, merge_child, slot}
use pp_cpp_common.Value.Lookup.{distinct_keys, try_get-none, try_get-set_field}

-- What one key holds after the merge: an object of the overlay is merged into an object that was
-- there; what else the overlay has replaces what was there.
abbrev pub merge_object : Option Value → Fields → Value
merge_object (some (object_ptr b)) child = object_ptr (deep_merge_object b child)
merge_object old child = object_ptr child

unfoldable pub merge_value : Option Value → Value → Value
merge_value old (object_ptr child) = merge_object old child
merge_value old v = v

abbrev pub merge_slot : Option Value → Option Value → Option Value
merge_slot old none = old
merge_slot old (some v) = some (merge_value old v)

merged-object :
    (child : Fields) (old : Option Value)
    → object_ptr (merge_child (slot old as_object) child (λ b. deep_merge_object b child))
      ≡ merge_value old (object_ptr child)
unfolding merge_value
merged-object child none = refl
merged-object child (some (object_ptr b)) = refl
merged-object child (some null_object_ptr) = refl
merged-object child (some _) = refl

deep_merge_object-field :
    (base : Fields) (k : Bytes) (v : Value) (fs : Fields)
    → deep_merge_object base (field k v fs)
      ≡ deep_merge_object (set_field k (merge_value (try_get k base) v) base) fs
unfolding deep_merge_object merge_value get_object
deep_merge_object-field base k (object_ptr child) fs =
    ap (λ v. deep_merge_object (set_field k v base) fs) (merged-object child (try_get k base))
deep_merge_object-field base k null_value fs = refl
deep_merge_object-field base k _ fs = refl

merge_slot-set :
    (j k : Bytes) (v : Value) (base fs : Fields)
    → contains k fs ≡ false
    → merge_slot (try_get j (set_field k (merge_value (try_get k base) v) base)) (try_get j fs)
      ≡ merge_slot (try_get j base) (try_get j (field k v fs))
unfolding try_get
merge_slot-set j k v base fs new = elim (Bool-cases (bytes_eq k j)) [
  | inl same ↦
      let e = bytes_eq→eq k j same in
      let gone : try_get j fs ≡ none = subst (λ i. try_get i fs ≡ none) e (try_get-none k fs new) in
      rw (try_get-set_field j k (merge_value (try_get k base) v) base, same, gone)
        (ap (λ i. some (merge_value (try_get i base) v)) e)
  | inr other ↦ rw (try_get-set_field j k (merge_value (try_get k base) v) base, other) refl
]

-- After DeepMergeObject of an overlay with no key twice each key holds what the overlay has, merged
-- into what the base had where both are objects, and what the base had where the overlay has
-- nothing.
pub try_get-deep_merge_object :
    (j : Bytes) (base overlay : Fields)
    → distinct_keys overlay ≡ true
    → try_get j (deep_merge_object base overlay) ≡ merge_slot (try_get j base) (try_get j overlay)
unfolding distinct_keys try_get deep_merge_object
try_get-deep_merge_object j base no_fields h = refl
try_get-deep_merge_object j base (field k v fs) h =
    ap (try_get j) (deep_merge_object-field base k v fs)
    ∙ try_get-deep_merge_object j (set_field k (merge_value (try_get k base) v) base) fs
        (ground arith)
    ∙ merge_slot-set j k v base fs (ground arith)
