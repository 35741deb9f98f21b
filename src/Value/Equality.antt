-- ===== src/Value/Equality.antt =====
-- What `valueEqual` of src/Value.cpp decides.
use pp_cpp_common.Common.{
  Bool, Bytes, ap, arith, bytes_eq→eq, false, if◌then◌else◌, refl, sym, true, ℕ, ◌==◌, ◌||◌, ◌≡◌,
}
use pp_cpp_common.Common.Int.{negsuc, pos, ℤ}
use pp_cpp_common.Value.{
  Elements, Fields, Value, array_ptr, bool_value, double_value, element, field, int64_value,
  no_elements, no_fields, null_array_ptr, null_object_ptr, null_value, object_ptr, string_value,
  uint64_value,
}
use pp_cpp_common.Value.Equal.{
  bool_eq, double_eq, int_eq, is_nan, negative_zero, same_array, same_bool, same_double, same_int64,
  same_null, same_null_array, same_null_object, same_object, same_string, same_uint64,
}

-- The zeros of a double as one.
unfoldable pub canonical_double : ℕ → ℕ
canonical_double d = if d == negative_zero then 0 else d

unfoldable mutual
  pub canonical : Value → Value
  canonical (double_value d) = double_value (canonical_double d)
  canonical (object_ptr fs) = object_ptr (canonical_fields fs)
  canonical (array_ptr es) = array_ptr (canonical_elements es)
  canonical null_value = null_value
  canonical (int64_value i) = int64_value i
  canonical (uint64_value n) = uint64_value n
  canonical (bool_value b) = bool_value b
  canonical (string_value s) = string_value s
  canonical null_object_ptr = null_object_ptr
  canonical null_array_ptr = null_array_ptr

  pub canonical_fields : Fields → Fields
  canonical_fields no_fields = no_fields
  canonical_fields (field k v fs) = field k (canonical v) (canonical_fields fs)

  pub canonical_elements : Elements → Elements
  canonical_elements no_elements = no_elements
  canonical_elements (element v es) = element (canonical v) (canonical_elements es)

unfoldable mutual
  pub has_nan : Value → Bool
  has_nan (double_value d) = is_nan d
  has_nan (object_ptr fs) = has_nan_fields fs
  has_nan (array_ptr es) = has_nan_elements es
  has_nan _ = false

  pub has_nan_fields : Fields → Bool
  has_nan_fields no_fields = false
  has_nan_fields (field k v fs) = has_nan v || has_nan_fields fs

  pub has_nan_elements : Elements → Bool
  has_nan_elements no_elements = false
  has_nan_elements (element v es) = has_nan v || has_nan_elements es

false_ne_true : false ≡ true → ⊥
false_ne_true h = cc

int_eq-eq : (i j : ℤ) → int_eq i j ≡ true → i ≡ j
int_eq-eq (pos m) (pos n) h = ground arith
int_eq-eq (pos m) (negsuc n) h = ground arith
int_eq-eq (negsuc m) (pos n) h = ground arith
int_eq-eq (negsuc m) (negsuc n) h = ground arith

pub int_eq_refl : (i : ℤ) → int_eq i i ≡ true
int_eq_refl (pos n) = ground arith
int_eq_refl (negsuc n) = ground arith

bool_eq-eq : (b c : Bool) → bool_eq b c ≡ true → b ≡ c
bool_eq-eq true true h = refl
bool_eq-eq true false h = cc
bool_eq-eq false true h = cc
bool_eq-eq false false h = refl

pub bool_eq_refl : (b : Bool) → bool_eq b b ≡ true
bool_eq_refl true = refl
bool_eq_refl false = refl

-- Where the test of an alternative passes, the other value is of that alternative.
pub same_int64-eq : (i : ℤ) (w : Value) → same_int64 i w ≡ true → w ≡ int64_value i
same_int64-eq i (int64_value j) h = ap int64_value (sym (int_eq-eq i j h))
same_int64-eq i _ h = cc

pub same_uint64-eq : (n : ℕ) (w : Value) → same_uint64 n w ≡ true → w ≡ uint64_value n
same_uint64-eq n (uint64_value m) h = ground arith
same_uint64-eq n _ h = cc

pub same_bool-eq : (b : Bool) (w : Value) → same_bool b w ≡ true → w ≡ bool_value b
same_bool-eq b (bool_value c) h = ap bool_value (sym (bool_eq-eq b c h))
same_bool-eq b _ h = cc

pub same_double-eq :
    (d : ℕ) (w : Value)
    → same_double d w ≡ true
    → (e : ℕ) × (w ≡ double_value e) × (double_eq d e ≡ true)
same_double-eq d (double_value e) h = (e, refl, h)
same_double-eq d _ h = absurd (false_ne_true h)

pub same_string-eq : (s : Bytes) (w : Value) → same_string s w ≡ true → w ≡ string_value s
same_string-eq s (string_value t) h = ap string_value (sym (bytes_eq→eq s t h))
same_string-eq s _ h = cc

pub same_null-eq : (w : Value) → same_null w ≡ true → w ≡ null_value
same_null-eq null_value h = refl
same_null-eq _ h = cc

pub same_null_object-eq : (w : Value) → same_null_object w ≡ true → w ≡ null_object_ptr
same_null_object-eq null_object_ptr h = refl
same_null_object-eq _ h = cc

pub same_null_array-eq : (w : Value) → same_null_array w ≡ true → w ≡ null_array_ptr
same_null_array-eq null_array_ptr h = refl
same_null_array-eq _ h = cc

pub same_object-eq :
    (f : Fields → Bool) (w : Value)
    → same_object f w ≡ true
    → (gs : Fields) × (w ≡ object_ptr gs) × (f gs ≡ true)
same_object-eq f (object_ptr gs) h = (gs, refl, h)
same_object-eq f _ h = absurd (false_ne_true h)

pub same_array-eq :
    (f : Elements → Bool) (w : Value)
    → same_array f w ≡ true
    → (es : Elements) × (w ≡ array_ptr es) × (f es ≡ true)
same_array-eq f (array_ptr es) h = (es, refl, h)
same_array-eq f _ h = absurd (false_ne_true h)

pub double_eq-canonical :
    (a b : ℕ)
    → double_eq a b ≡ true
    → (canonical_double a ≡ canonical_double b) × (is_nan a ≡ false)
unfolding double_eq canonical_double
double_eq-canonical a b h = ground arith
