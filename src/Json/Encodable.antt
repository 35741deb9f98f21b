-- ===== src/Json/Encodable.antt =====
-- When the encoder of src/io/Json.cpp succeeds.
use Prim.Native.String.{String}
use mathlib.Core.Path.{ap₂}
use native.Mathlib.Nat.{mul-le-mul_left}
use pp_cpp_common.Common.{
  Bool, Bool-cases, Bytes, [], ap, arith, false, if◌then◌else◌, inl, inr, leb, ltb, max, not, refl,
  some, suc, true, zero, ℕ, ◌&&◌, ◌*◌, ◌+◌, ◌<◌, ◌^◌, ◌∙◌, ◌∷◌, ◌≡◌, ◌≤◌,
}
use pp_cpp_common.Common.Int.{negsuc, pos, ℤ}
use pp_cpp_common.Json.Encoder.{
  append_json_elements, append_json_fields, append_json_value, followed_by, indented, is_zero, join,
  make_err, max_nesting_depth, overflows, value_to_json_string,
}
use pp_cpp_common.Json.Numbers.{Doubles, is_finite}
use pp_cpp_common.Json.Parsed.{IsParsed, IsParsedElements, IsParsedFields}
use pp_cpp_common.Json.ParsedDocument.{value_from_json_string-IsParsed}
use pp_cpp_common.Json.Parser.{value_from_json_string}
use pp_cpp_common.Results.{Roe, err, is_ok, ok}
use pp_cpp_common.Value.{
  Elements, Fields, Value, array_ptr, bool_value, double_value, element, field, int64_value,
  no_elements, no_fields, null_array_ptr, null_object_ptr, null_value, object_ptr, string_value,
  uint64_value,
}
use pp_cpp_common.Value.Numbers.{int64_max, to_string}

-- Every number and pointer in the value can be written.
unfoldable mutual
  pub has_text : Value → Bool
  has_text (uint64_value n) = leb n int64_max
  has_text (double_value d) = is_finite d
  has_text null_object_ptr = false
  has_text (object_ptr fs) = has_text_fields fs
  has_text null_array_ptr = false
  has_text (array_ptr es) = has_text_elements es
  has_text _ = true

  pub has_text_fields : Fields → Bool
  has_text_fields no_fields = true
  has_text_fields (field k v fs) = has_text v && has_text_fields fs

  pub has_text_elements : Elements → Bool
  has_text_elements no_elements = true
  has_text_elements (element v es) = has_text v && has_text_elements es

-- Objects and arrays on the way down.
unfoldable mutual
  pub levels : Value → ℕ
  levels (object_ptr fs) = suc (levels_fields fs)
  levels (array_ptr es) = suc (levels_elements es)
  levels _ = 0

  pub levels_fields : Fields → ℕ
  levels_fields no_fields = 0
  levels_fields (field k v fs) = max (levels v) (levels_fields fs)

  pub levels_elements : Elements → ℕ
  levels_elements no_elements = 0
  levels_elements (element v es) = max (levels v) (levels_elements es)

is_ok-followed_by : (text : Bytes) (r : Roe Bytes) → is_ok (followed_by text r) ≡ is_ok r
is_ok-followed_by text (ok a) = refl
is_ok-followed_by text (err e) = refl

is_ok-join : (r s : Roe Bytes) → is_ok (join r s) ≡ (is_ok r && is_ok s)
is_ok-join (ok a) s = is_ok-followed_by a s
is_ok-join (err e) s = refl

is_ok-refused :
    (b : Bool) (message : String) (path : Bytes) (r : Roe Bytes)
    → is_ok (if b then make_err message 0 path else r) ≡ (not b && is_ok r)
unfolding make_err
is_ok-refused true message path r = refl
is_ok-refused false message path r = refl

is_ok-checked :
    (b : Bool) (message : String) (path text : Bytes)
    → is_ok (if b then ok text else make_err message 0 path) ≡ b
unfolding make_err
is_ok-checked true message path text = refl
is_ok-checked false message path text = refl

leb-max :
    (a b : Bool) (m n d : ℕ)
    → ((a && leb (m + d) max_nesting_depth) && (b && leb (n + d) max_nesting_depth))
      ≡ ((a && b) && leb (max m n + d) max_nesting_depth)
leb-max a b m n d = ground arith

leaf : (b : Bool) (d : ℕ) → d ≤ max_nesting_depth → b ≡ (b && leb (0 + d) max_nesting_depth)
leaf b d h = ground arith

-- An object or an array that is one level in.
nested :
    (b : Bool) (n depth : ℕ) (path : Bytes) (r : Roe Bytes) (c : ℕ)
    → (depth < max_nesting_depth → is_ok r ≡ (b && leb (n + suc depth) max_nesting_depth))
    → is_ok (
        if leb max_nesting_depth depth
        then make_err "max nesting depth exceeded" 0 path
        else followed_by (c ∷ []) r)
      ≡ (b && leb (suc n + depth) max_nesting_depth)
nested b n depth path r c h =
    is_ok-refused (leb max_nesting_depth depth) _ path (followed_by (c ∷ []) r)
    ∙ ap (λ x. not (leb max_nesting_depth depth) && x) (is_ok-followed_by (c ∷ []) r)
    ∙ elim (Bool-cases (leb max_nesting_depth depth)) [
      | inl deep ↦ rw deep (ground arith)
      | inr fine ↦ rw (fine, h (ground arith)) (ground arith)
    ]

-- Up to the deepest level the indent fits an int.
abbrev pub FitsIndent : ℤ → Type 0
FitsIndent (pos n) = n * max_nesting_depth < 2 ^ 31
FitsIndent (negsuc n) = Unit

times_le : (n d m : ℕ) → d ≤ m → n * d ≤ n * m
times_le n d m h = mul-le-mul_left n h

indented-fits :
    (indent : ℤ) (depth : ℕ) (r : Roe Bytes)
    → FitsIndent indent
    → depth ≤ max_nesting_depth
    → indented indent depth r ≡ r
unfolding indented overflows
indented-fits (pos n) depth r fits h =
    let small : leb (2 ^ 31) (n * depth) ≡ false =
      ground (arith, times_le n depth max_nesting_depth h, fits) in
    rw small refl
indented-fits (negsuc n) depth r fits h = refl

none_or :
    (b : Bool) (depth : ℕ)
    → depth ≤ max_nesting_depth
    → (if b then 0 else depth) ≤ max_nesting_depth
none_or true depth h = omega arith
none_or false depth h = h

module _ (io : Doubles) (indent : ℤ) (fits : FitsIndent indent) where
  mutual
    unfolding append_json_value append_json_fields append_json_elements has_text levels make_err

    is_ok_value :
        (v : Value) (depth : ℕ) (path : Bytes)
        → depth ≤ max_nesting_depth
        → is_ok (append_json_value io indent depth path v)
          ≡ (has_text v && leb (levels v + depth) max_nesting_depth)
    is_ok_value null_value depth path h = leaf true depth h
    is_ok_value (int64_value i) depth path h = leaf true depth h
    is_ok_value (uint64_value n) depth path h =
        is_ok-refused (ltb int64_max n) "uint64 value exceeds int64 range for JSON" path
          (ok (to_string n))
        ∙ ground arith
    is_ok_value (bool_value b) depth path h = leaf true depth h
    is_ok_value (double_value d) depth path h =
        is_ok-checked (is_finite d) "non-finite double cannot be JSON" path (io.print_double d)
        ∙ leaf (is_finite d) depth h
    is_ok_value (string_value s) depth path h = leaf true depth h
    is_ok_value null_object_ptr depth path h = refl
    is_ok_value (object_ptr fs) depth path h =
        nested (has_text_fields fs) (levels_fields fs) depth path _ 123
          (is_ok_fields fs depth path true)
    is_ok_value null_array_ptr depth path h = refl
    is_ok_value (array_ptr es) depth path h =
        nested (has_text_elements es) (levels_elements es) depth path _ 91
          (is_ok_elements es depth path 0)

    is_ok_fields :
        (fs : Fields) (depth : ℕ) (path : Bytes) (first : Bool)
        → depth < max_nesting_depth
        → is_ok (append_json_fields io indent depth path first fs)
          ≡ (has_text_fields fs && leb (levels_fields fs + suc depth) max_nesting_depth)
    is_ok_fields no_fields depth path first h =
        ap is_ok (indented-fits indent _ _ fits (none_or first depth (omega (arith, h))))
        ∙ leaf true (suc depth) h
    is_ok_fields (field k v fs) depth path first h =
        ap is_ok (indented-fits indent (suc depth) _ fits h)
        ∙ is_ok-followed_by _ (join _ _)
        ∙ is_ok-join _ _
        ∙ ap₂ ◌&&◌ (is_ok_value v (suc depth) _ h) (is_ok_fields fs depth path false h)
        ∙ leb-max (has_text v) _ (levels v) _ (suc depth)

    is_ok_elements :
        (es : Elements) (depth : ℕ) (path : Bytes) (i : ℕ)
        → depth < max_nesting_depth
        → is_ok (append_json_elements io indent depth path i es)
          ≡ (has_text_elements es && leb (levels_elements es + suc depth) max_nesting_depth)
    is_ok_elements no_elements depth path i h =
        ap is_ok (indented-fits indent _ _ fits (none_or (is_zero i) depth (omega (arith, h))))
        ∙ leaf true (suc depth) h
    is_ok_elements (element v es) depth path i h =
        ap is_ok (indented-fits indent (suc depth) _ fits h)
        ∙ is_ok-followed_by _ (join _ _)
        ∙ is_ok-join _ _
        ∙ ap₂ ◌&&◌ (is_ok_value v (suc depth) _ h) (is_ok_elements es depth path (suc i) h)
        ∙ leb-max (has_text v) _ (levels v) _ (suc depth)

mutual
  unfolding has_text levels

  IsParsed-has_text :
      (v : Value) (room : ℕ) → IsParsed v room → (has_text v ≡ true) × (levels v ≤ room)
  IsParsed-has_text null_value room h = (refl, omega arith)
  IsParsed-has_text (int64_value i) room h = (refl, omega arith)
  IsParsed-has_text (uint64_value n) room h = elim h [ ]
  IsParsed-has_text (bool_value b) room h = (refl, omega arith)
  IsParsed-has_text (double_value d) room h = (h, omega arith)
  IsParsed-has_text (string_value s) room h = (refl, omega arith)
  IsParsed-has_text null_object_ptr room h = elim h [ ]
  IsParsed-has_text (object_ptr fs) zero h = elim h [ ]
  IsParsed-has_text (object_ptr fs) (suc room) h =
      let (text, deep) = IsParsedFields-has_text fs room h.1 in (text, omega (arith, deep))
  IsParsed-has_text null_array_ptr room h = elim h [ ]
  IsParsed-has_text (array_ptr es) zero h = elim h [ ]
  IsParsed-has_text (array_ptr es) (suc room) h =
      let (text, deep) = IsParsedElements-has_text es room h in (text, omega (arith, deep))

  IsParsedFields-has_text :
      (fs : Fields) (room : ℕ)
      → IsParsedFields fs room
      → (has_text_fields fs ≡ true) × (levels_fields fs ≤ room)
  IsParsedFields-has_text no_fields room h = (refl, omega arith)
  IsParsedFields-has_text (field k v fs) room h =
      let (a, m) = IsParsed-has_text v room h.0 in
      let (b, n) = IsParsedFields-has_text fs room h.1 in (rw a b, omega (arith, m, n))

  IsParsedElements-has_text :
      (es : Elements) (room : ℕ)
      → IsParsedElements es room
      → (has_text_elements es ≡ true) × (levels_elements es ≤ room)
  IsParsedElements-has_text no_elements room h = (refl, omega arith)
  IsParsedElements-has_text (element v es) room h =
      let (a, m) = IsParsed-has_text v room h.0 in
      let (b, n) = IsParsedElements-has_text es room h.1 in (rw a b, omega (arith, m, n))

module _ (io : Doubles) (indent : ℤ) (fits : FitsIndent indent) where
  -- valueToJsonString succeeds exactly when every unsigned number is within int64_t, every double
  -- is finite, no pointer is null and objects and arrays nest at most 128 levels deep, with an
  -- indent that 128 times fits an int.
  pub is_ok-value_to_json_string :
      (v : Value)
      → is_ok (value_to_json_string io indent v) ≡ (has_text v && leb (levels v) max_nesting_depth)
  unfolding value_to_json_string
  is_ok-value_to_json_string v =
      is_ok_value io indent fits v 0 [] (omega arith)
      ∙ ap (λ n. has_text v && leb n max_nesting_depth) (omega arith)

  -- What valueFromJsonString gives for any bytes valueToJsonString can write, with an indent that
  -- 128 times fits an int.
  pub value_to_json_string-value_from_json_string :
      (json : Bytes) (v : Value)
      → value_from_json_string io json ≡ some v
      → is_ok (value_to_json_string io indent v) ≡ true
  value_to_json_string-value_from_json_string json v h =
      let parsed = value_from_json_string-IsParsed io json v h in
      let (text, low) = IsParsed-has_text v max_nesting_depth parsed in
      is_ok-value_to_json_string v ∙ rw text (ground arith)
