-- ===== src/Value/Deciding.antt =====
-- `valueEqual` of src/Value.cpp against the values themselves.
use mathlib.Core.Path.{ap₂}
use pp_cpp_common.Common.{
  Bool, ap, arith, bytes_eq, bytes_eq_refl, bytes_eq→eq, false, refl, sym, true, ℕ, ◌&&◌, ◌==◌,
  ◌||◌, ◌↔◌, ◌∙◌, ◌≡◌,
}
use pp_cpp_common.Value.{
  Elements, Fields, Value, array_ptr, bool_value, count_elements, count_fields, double_value,
  element, field, int64_value, no_elements, no_fields, null_array_ptr, null_object_ptr, null_value,
  object_ptr, string_value, uint64_value,
}
use pp_cpp_common.Value.Equal.{double_eq, elements_equal, fields_equal, is_nan, value_equal}
use pp_cpp_common.Value.Equality.{
  bool_eq_refl, canonical, canonical_elements, canonical_fields, double_eq-canonical, has_nan,
  has_nan_elements, has_nan_fields, int_eq_refl, same_array-eq, same_bool-eq, same_double-eq,
  same_int64-eq, same_null-eq, same_null_array-eq, same_null_object-eq, same_object-eq,
  same_string-eq, same_uint64-eq,
}
use pp_cpp_common.Value.Respects.{has_nan-canonical, respects}

-- Equal values are the same but for the sign of zeros, and hold no NaN.
abbrev Same : Value → Value → Type 0
Same v w = (canonical v ≡ canonical w) × (has_nan v ≡ false)

both : (a b : Bool) → (a && b) ≡ true → (a ≡ true) × (b ≡ true)
both a b h = (ground arith, ground arith)

neither : (a b : Bool) → (a || b) ≡ false → (a ≡ false) × (b ≡ false)
neither a b h = (ground arith, ground arith)

all_three : (a b c : Bool) → (a && b && c) ≡ true → (a ≡ true) × (b ≡ true) × (c ≡ true)
all_three a b c h = (ground arith, ground arith, ground arith)

mutual
  unfolding value_equal canonical has_nan count_fields count_elements

  sound : (v w : Value) → value_equal v w ≡ true → Same v w
  sound null_value w h = (ap canonical (sym (same_null-eq w h)), refl)
  sound (int64_value i) w h = (ap canonical (sym (same_int64-eq i w h)), refl)
  sound (uint64_value n) w h = (ap canonical (sym (same_uint64-eq n w h)), refl)
  sound (bool_value b) w h = (ap canonical (sym (same_bool-eq b w h)), refl)
  sound (double_value d) w h =
      let (e, shape, same) = same_double-eq d w h in
      let (alike, number) = double_eq-canonical d e same in
      (ap double_value alike ∙ ap canonical (sym shape), number)
  sound (string_value s) w h = (ap canonical (sym (same_string-eq s w h)), refl)
  sound null_object_ptr w h = (ap canonical (sym (same_null_object-eq w h)), refl)
  sound (object_ptr fs) w h =
      let (gs, shape, same) = same_object-eq _ w h in
      let (sizes, each) = both (count_fields fs == count_fields gs) (fields_equal fs gs) same in
      let (alike, number) = sound_fields fs gs sizes each in
      (ap object_ptr alike ∙ ap canonical (sym shape), number)
  sound null_array_ptr w h = (ap canonical (sym (same_null_array-eq w h)), refl)
  sound (array_ptr es) w h =
      let (gs, shape, same) = same_array-eq _ w h in
      let (sizes, each) =
        both (count_elements es == count_elements gs) (elements_equal es gs) same in
      let (alike, number) = sound_elements es gs sizes each in
      (ap array_ptr alike ∙ ap canonical (sym shape), number)

  sound_fields :
      (fs gs : Fields)
      → (count_fields fs == count_fields gs) ≡ true
      → fields_equal fs gs ≡ true
      → (canonical_fields fs ≡ canonical_fields gs) × (has_nan_fields fs ≡ false)
  sound_fields no_fields no_fields s h = (refl, refl)
  sound_fields no_fields (field j w gs) s h = absurd (ground arith)
  sound_fields (field k v fs) no_fields s h = absurd (ground arith)
  sound_fields (field k v fs) (field j w gs) s h =
      let (key, value', rest) = all_three (bytes_eq k j) (value_equal v w) (fields_equal fs gs) h in
      let (a, n) = sound v w value' in
      let (b, m) = sound_fields fs gs (ground arith) rest in
      (
        ap (λ x. field x (canonical v) (canonical_fields fs)) (bytes_eq→eq k j key)
            ∙ ap₂ (field j) a b,
        rw (n, m) refl,
      )

  sound_elements :
      (es fs : Elements)
      → (count_elements es == count_elements fs) ≡ true
      → elements_equal es fs ≡ true
      → (canonical_elements es ≡ canonical_elements fs) × (has_nan_elements es ≡ false)
  sound_elements no_elements no_elements s h = (refl, refl)
  sound_elements no_elements (element w fs) s h = absurd (ground arith)
  sound_elements (element v es) no_elements s h = absurd (ground arith)
  sound_elements (element v es) (element w fs) s h =
      let (head, rest) = both (value_equal v w) (elements_equal es fs) h in
      let (a, n) = sound v w head in
      let (b, m) = sound_elements es fs (ground arith) rest in (ap₂ element a b, rw (n, m) refl)

double_eq_refl : (d : ℕ) → is_nan d ≡ false → double_eq d d ≡ true
unfolding double_eq
double_eq_refl d h = rw h (ground arith)

size_refl : (n : ℕ) → (n == n) ≡ true
size_refl n = ground arith

mutual
  unfolding value_equal has_nan

  value_equal_refl : (v : Value) → has_nan v ≡ false → value_equal v v ≡ true
  value_equal_refl null_value h = refl
  value_equal_refl (int64_value i) h = int_eq_refl i
  value_equal_refl (uint64_value n) h = size_refl n
  value_equal_refl (bool_value b) h = bool_eq_refl b
  value_equal_refl (double_value d) h = double_eq_refl d h
  value_equal_refl (string_value s) h = bytes_eq_refl s
  value_equal_refl null_object_ptr h = refl
  value_equal_refl (object_ptr fs) h = rw (size_refl (count_fields fs), fields_equal_refl fs h) refl
  value_equal_refl null_array_ptr h = refl
  value_equal_refl (array_ptr es) h =
      rw (size_refl (count_elements es), elements_equal_refl es h) refl

  fields_equal_refl : (fs : Fields) → has_nan_fields fs ≡ false → fields_equal fs fs ≡ true
  fields_equal_refl no_fields h = refl
  fields_equal_refl (field k v fs) h =
      let (a, b) = neither (has_nan v) (has_nan_fields fs) h in
      rw (bytes_eq_refl k, value_equal_refl v a, fields_equal_refl fs b) refl

  elements_equal_refl : (es : Elements) → has_nan_elements es ≡ false → elements_equal es es ≡ true
  elements_equal_refl no_elements h = refl
  elements_equal_refl (element v es) h =
      let (a, b) = neither (has_nan v) (has_nan_elements es) h in
      rw (value_equal_refl v a, elements_equal_refl es b) refl

-- valueEqual answers true exactly when the two values are the same but for the sign of zeros and
-- hold no NaN.
pub value_equal_iff :
    (v w : Value) → (value_equal v w ≡ true) ↔ ((canonical v ≡ canonical w) × (has_nan v ≡ false))
value_equal_iff v w = (
  sound v w,
  λ h.
      sym (respects v w)
      ∙ ap (value_equal (canonical v)) (sym h.0)
      ∙ value_equal_refl (canonical v) (has_nan-canonical v ∙ h.1),
)
