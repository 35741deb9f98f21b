-- ===== src/Value/Respects.antt =====
-- The sign of zeros in `valueEqual` of src/Value.cpp.
use mathlib.Core.Path.{ap₂}
use pp_cpp_common.Common.{
  ==_iff, Bool, Bool-cases, Bytes, ap, arith, bytes_eq, inl, inr, refl, suc, ℕ, ◌&&◌, ◌==◌, ◌||◌,
  ◌≡◌,
}
use pp_cpp_common.Common.Int.{ℤ}
use pp_cpp_common.Value.{
  Elements, Fields, Value, array_ptr, bool_value, count_elements, count_fields, double_value,
  element, field, int64_value, no_elements, no_fields, null_array_ptr, null_object_ptr, null_value,
  object_ptr, string_value, uint64_value,
}
use pp_cpp_common.Value.Equal.{
  double_eq, elements_equal, fields_equal, is_nan, negative_zero, same_array, same_bool,
  same_double, same_int64, same_null, same_null_array, same_null_object, same_object, same_string,
  same_uint64, value_equal,
}
use pp_cpp_common.Value.Equality.{
  canonical, canonical_double, canonical_elements, canonical_fields, has_nan, has_nan_elements,
  has_nan_fields,
}

is_nan-canonical_double : (d : ℕ) → is_nan (canonical_double d) ≡ is_nan d
unfolding is_nan canonical_double
is_nan-canonical_double d = elim (Bool-cases (d == negative_zero)) [
  | inl minus ↦ let e : d ≡ negative_zero = (==_iff d negative_zero).0 minus in rw e refl
  | inr other ↦ rw other refl
]

double_eq-respects : (a b : ℕ) → double_eq (canonical_double a) (canonical_double b) ≡ double_eq a b
unfolding double_eq
double_eq-respects a b =
    rw (is_nan-canonical_double a, is_nan-canonical_double b)
      (unfold canonical_double in ground arith)

same_double-respects :
    (d : ℕ) (w : Value) → same_double (canonical_double d) (canonical w) ≡ same_double d w
unfolding canonical
same_double-respects d (double_value e) = double_eq-respects d e
same_double-respects d _ = refl

same_int64-respects : (i : ℤ) (w : Value) → same_int64 i (canonical w) ≡ same_int64 i w
unfolding canonical
same_int64-respects i (int64_value j) = refl
same_int64-respects i _ = refl

same_uint64-respects : (n : ℕ) (w : Value) → same_uint64 n (canonical w) ≡ same_uint64 n w
unfolding canonical
same_uint64-respects n (uint64_value m) = refl
same_uint64-respects n _ = refl

same_bool-respects : (b : Bool) (w : Value) → same_bool b (canonical w) ≡ same_bool b w
unfolding canonical
same_bool-respects b (bool_value c) = refl
same_bool-respects b _ = refl

same_string-respects : (s : Bytes) (w : Value) → same_string s (canonical w) ≡ same_string s w
unfolding canonical
same_string-respects s (string_value t) = refl
same_string-respects s _ = refl

same_null-respects : (w : Value) → same_null (canonical w) ≡ same_null w
unfolding canonical
same_null-respects null_value = refl
same_null-respects _ = refl

same_null_object-respects : (w : Value) → same_null_object (canonical w) ≡ same_null_object w
unfolding canonical
same_null_object-respects null_object_ptr = refl
same_null_object-respects _ = refl

same_null_array-respects : (w : Value) → same_null_array (canonical w) ≡ same_null_array w
unfolding canonical
same_null_array-respects null_array_ptr = refl
same_null_array-respects _ = refl

same_object-respects :
    (f g : Fields → Bool) (w : Value)
    → ((gs : Fields) → f (canonical_fields gs) ≡ g gs)
    → same_object f (canonical w) ≡ same_object g w
unfolding canonical
same_object-respects f g (object_ptr gs) h = h gs
same_object-respects f g _ h = refl

same_array-respects :
    (f g : Elements → Bool) (w : Value)
    → ((es : Elements) → f (canonical_elements es) ≡ g es)
    → same_array f (canonical w) ≡ same_array g w
unfolding canonical
same_array-respects f g (array_ptr es) h = h es
same_array-respects f g _ h = refl

count_fields-canonical : (fs : Fields) → count_fields (canonical_fields fs) ≡ count_fields fs
unfolding count_fields canonical
count_fields-canonical no_fields = refl
count_fields-canonical (field k v fs) = ap suc (count_fields-canonical fs)

count_elements-canonical :
    (es : Elements) → count_elements (canonical_elements es) ≡ count_elements es
unfolding count_elements canonical
count_elements-canonical no_elements = refl
count_elements-canonical (element v es) = ap suc (count_elements-canonical es)

mutual
  unfolding value_equal canonical

  pub respects : (v w : Value) → value_equal (canonical v) (canonical w) ≡ value_equal v w
  respects null_value w = same_null-respects w
  respects (int64_value i) w = same_int64-respects i w
  respects (uint64_value n) w = same_uint64-respects n w
  respects (bool_value b) w = same_bool-respects b w
  respects (double_value d) w = same_double-respects d w
  respects (string_value s) w = same_string-respects s w
  respects null_object_ptr w = same_null_object-respects w
  respects (object_ptr fs) w = same_object-respects _ _ w λ gs.
      ap₂ ◌&&◌ (ap₂ ◌==◌ (count_fields-canonical fs) (count_fields-canonical gs))
        (respects_fields fs gs)
  respects null_array_ptr w = same_null_array-respects w
  respects (array_ptr es) w = same_array-respects _ _ w λ gs.
      ap₂ ◌&&◌ (ap₂ ◌==◌ (count_elements-canonical es) (count_elements-canonical gs))
        (respects_elements es gs)

  respects_fields :
      (fs gs : Fields)
      → fields_equal (canonical_fields fs) (canonical_fields gs) ≡ fields_equal fs gs
  respects_fields no_fields gs = refl
  respects_fields (field k v fs) no_fields = refl
  respects_fields (field k v fs) (field j w gs) =
      ap₂ (λ a b. bytes_eq k j && a && b) (respects v w) (respects_fields fs gs)

  respects_elements :
      (es fs : Elements)
      → elements_equal (canonical_elements es) (canonical_elements fs) ≡ elements_equal es fs
  respects_elements no_elements fs = refl
  respects_elements (element v es) no_elements = refl
  respects_elements (element v es) (element w fs) =
      ap₂ ◌&&◌ (respects v w) (respects_elements es fs)

mutual
  unfolding has_nan canonical

  pub has_nan-canonical : (v : Value) → has_nan (canonical v) ≡ has_nan v
  has_nan-canonical (double_value d) = is_nan-canonical_double d
  has_nan-canonical (object_ptr fs) = has_nan_fields-canonical fs
  has_nan-canonical (array_ptr es) = has_nan_elements-canonical es
  has_nan-canonical _ = refl

  has_nan_fields-canonical :
      (fs : Fields) → has_nan_fields (canonical_fields fs) ≡ has_nan_fields fs
  has_nan_fields-canonical no_fields = refl
  has_nan_fields-canonical (field k v fs) =
      ap₂ ◌||◌ (has_nan-canonical v) (has_nan_fields-canonical fs)

  has_nan_elements-canonical :
      (es : Elements) → has_nan_elements (canonical_elements es) ≡ has_nan_elements es
  has_nan_elements-canonical no_elements = refl
  has_nan_elements-canonical (element v es) =
      ap₂ ◌||◌ (has_nan-canonical v) (has_nan_elements-canonical es)
