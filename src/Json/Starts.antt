-- ===== src/Json/Starts.antt =====
-- The first character of what the encoder of src/io/Json.cpp writes.
use Prim.Native.String.{String}
use pp_cpp_common.Common.{
  Bool, Bytes, [], arith, false, if◌then◌else◌, leb, ltb, not, refl, subst, suc, sym, true, ℕ, ◌&&◌,
  ◌++◌, ◌<◌, ◌==◌, ◌^◌, ◌||◌, ◌∷◌, ◌≡◌,
}
use pp_cpp_common.Common.Int.{FitsInt, negsuc, pos, ℤ}
use pp_cpp_common.Json.Encoder.{
  append_json_elements, append_json_fields, append_json_value, comma, field_name, followed_by,
  make_err, max_nesting_depth, pad,
}
use pp_cpp_common.Json.Loops.{followed_by_ok, indented_ok, make_err_ne}
use pp_cpp_common.Json.NumberText.{IsWhole, NumberText, continues, minus, spell, starts}
use pp_cpp_common.Json.NumberValues.{
  PrintsDoubles, int_text, magnitude, magnitude-lt, signed_to_string-spell, to_string-IsWhole,
}
use pp_cpp_common.Json.Numbers.{Doubles, is_ascii_digit, is_finite, parse_number, signed_to_string}
use pp_cpp_common.Json.Parser.{parse_at}
use pp_cpp_common.Json.Reread.{FitsJson}
use pp_cpp_common.Json.Strings.{append_escaped_json_string, is_json_ws}
use pp_cpp_common.Results.{Roe, ok}
use pp_cpp_common.Value.{
  Elements, Fields, Value, array_ptr, bool_value, double_value, element, field, int64_value,
  no_elements, no_fields, null_array_ptr, null_object_ptr, null_value, object_ptr, string_value,
  uint64_value,
}
use pp_cpp_common.Value.Numbers.{int64_max, to_string}
use pp_cpp_common.Wire.Reader.{Reader}

abbrev pub number_start : ℕ → Bool
number_start c = c == 45 || is_ascii_digit c

-- A text and its first character, of which the test holds.
abbrev pub BeginsWith : (ℕ → Bool) → Bytes → Type 0
BeginsWith test t = (c : ℕ) × (bs : Bytes) × (t ≡ c ∷ bs) × (test c ≡ true)

-- Neither white space nor the end of an array.
abbrev pub opens_value : ℕ → Bool
opens_value c = not (is_json_ws c) && not (c == 93)

whole_start :
    (negative : Bool) (ds rest : Bytes)
    → IsWhole ds
    → BeginsWith number_start (minus negative ++ (ds ++ rest))
whole_start negative [] rest h = elim h [ ]
whole_start true (d ∷ ds) rest h = (45, (d ∷ ds) ++ rest, refl, refl)
whole_start false (d ∷ ds) rest h = (d, ds ++ rest, refl, ground (arith, h.0))

spell_start : (t : NumberText) → IsWhole t.whole → BeginsWith number_start (spell t)
unfolding spell
spell_start t h = whole_start t.negative t.whole (t.fraction ++ t.exponent) h

pub parse_at_number :
    (io : Doubles) (nested : ℕ → Reader Value) (c : ℕ) (bs : Bytes)
    → number_start c ≡ true
    → parse_at io nested (c ∷ bs) ≡ parse_number io (c ∷ bs)
unfolding parse_at
parse_at_number io nested c bs h = ground arith

pub number_start-plain : (c : ℕ) → number_start c ≡ true → is_json_ws c ≡ false
unfolding is_json_ws
number_start-plain c h = ground arith

pub opens_value-plain :
    (c : ℕ) → opens_value c ≡ true → (is_json_ws c ≡ false) × ((c == 93) ≡ false)
opens_value-plain c h = (ground arith, ground arith)

number_start-opens_value : (c : ℕ) → number_start c ≡ true → opens_value c ≡ true
unfolding is_json_ws
number_start-opens_value c h = ground arith

pub int_start : (i : ℤ) → FitsInt (2 ^ 63) i → BeginsWith number_start (signed_to_string i)
int_start i h =
    let whole = to_string-IsWhole (magnitude i) (magnitude-lt i h) in
    subst (BeginsWith number_start) (sym (signed_to_string-spell i))
      (spell_start (int_text i) whole)

module _ (io : Doubles) (p : PrintsDoubles io) where
  pub double_start :
      (d : ℕ) → d < 2 ^ 64 → is_finite d ≡ true → BeginsWith number_start (io.print_double d)
  double_start d h f =
      let whole = (p.grammar d h f).0 in
      subst (BeginsWith number_start) (sym (p.spelled d)) (spell_start (p.text d) whole)

number-opens_value : {t : Bytes} → BeginsWith number_start t → BeginsWith opens_value t
number-opens_value (c, bs, e, h) = (c, bs, e, number_start-opens_value c h)

pub ok-injective : (s : Bytes) {t : Bytes} → ◌≡◌ {A = Roe Bytes} (ok s) (ok t) → s ≡ t
ok-injective s h = cc

-- A text that begins with a given character that opens_value a value.
same_start :
    (c : ℕ) (bs : Bytes) {t : Bytes}
    → ◌≡◌ {A = Roe Bytes} (ok (c ∷ bs)) (ok t)
    → opens_value c ≡ true
    → BeginsWith opens_value t
same_start c bs e h = (c, bs, sym (ok-injective (c ∷ bs) e), h)

pub if_ok :
    (b : Bool) (message : String) (path s : Bytes) {t : Bytes}
    → (if b then make_err message 0 path else ok s) ≡ ok t
    → (b ≡ false) × (t ≡ s)
if_ok true message path s h = absurd (make_err_ne message 0 path h)
if_ok false message path s h = (refl, cc)

pub if_ok_then :
    (b : Bool) (message : String) (path s : Bytes) {t : Bytes}
    → (if b then ok s else make_err message 0 path) ≡ ok t
    → (b ≡ true) × (t ≡ s)
if_ok_then true message path s h = (refl, cc)
if_ok_then false message path s h = absurd (make_err_ne message 0 path h)

-- An object or an array that was written is within the depth.
pub nested_ok :
    (b : Bool) (message : String) (path : Bytes) (c : ℕ) (r : Roe Bytes) {t : Bytes}
    → (if b then make_err message 0 path else followed_by (c ∷ []) r) ≡ ok t
    → (more : Bytes) × (b ≡ false) × (r ≡ ok more) × (t ≡ c ∷ more)
nested_ok true message path c r h = absurd (make_err_ne message 0 path h)
nested_ok false message path c r h =
    let (more, e, shape) = followed_by_ok (c ∷ []) r h in (more, refl, e, shape)

pad_end :
    (indent : ℤ) (depth c : ℕ) (rest : Bytes)
    → continues c ≡ false
    → starts continues ((pad indent depth ++ c ∷ []) ++ rest) ≡ false
unfolding pad
pad_end (pos n) depth c rest h = refl
pad_end (negsuc n) depth c rest h = h

module _ (io : Doubles) (p : PrintsDoubles io) (indent : ℤ) where
  pub value_start :
      (v : Value) (depth : ℕ) (path : Bytes) {t : Bytes}
      → FitsJson io p v
      → append_json_value io indent depth path v ≡ ok t
      → BeginsWith opens_value t
  unfolding append_json_value is_json_ws append_escaped_json_string
  value_start null_value depth path h e = same_start 110 _ e refl
  value_start (int64_value i) depth path h e =
      subst (BeginsWith opens_value) (ok-injective _ e) (number-opens_value (int_start i h))
  value_start (uint64_value n) depth path h e =
      let (small, shape) = if_ok (ltb int64_max n) _ path (to_string n) e in
      let bound : FitsInt (2 ^ 63) (pos n) = ground (arith, small) in
      subst (BeginsWith opens_value) (sym shape)
        (unfold signed_to_string in number-opens_value (int_start (pos n) bound))
  value_start (bool_value true) depth path h e = same_start 116 _ e refl
  value_start (bool_value false) depth path h e = same_start 102 _ e refl
  value_start (double_value d) depth path h e =
      let (finite, shape) = if_ok_then (is_finite d) _ path (io.print_double d) e in
      subst (BeginsWith opens_value) (sym shape)
        (number-opens_value (double_start io p d h.0 finite))
  value_start (string_value s) depth path h e = same_start 34 _ e refl
  value_start null_object_ptr depth path h e = absurd (make_err_ne _ 0 path e)
  value_start (object_ptr fs) depth path h e =
      let (more, low, inner, shape) = nested_ok (leb max_nesting_depth depth) _ path 123 _ e in
      (123, more, shape, refl)
  value_start null_array_ptr depth path h e = absurd (make_err_ne _ 0 path e)
  value_start (array_ptr es) depth path h e =
      let (more, low, inner, shape) = nested_ok (leb max_nesting_depth depth) _ path 91 _ e in
      (91, more, shape, refl)

  pub fields_end :
      (fs : Fields) (depth : ℕ) (path rest : Bytes) {t : Bytes}
      → append_json_fields io indent depth path false fs ≡ ok t
      → starts continues (t ++ rest) ≡ false
  unfolding append_json_fields
  fields_end no_fields depth path rest e =
      subst (λ s. starts continues (s ++ rest) ≡ false)
        (ok-injective _ (indented_ok indent depth _ e)) (pad_end indent depth 125 rest refl)
  fields_end (field k v fs) depth path rest e =
      let (more, inner, shape) =
        followed_by_ok (comma false ++ (pad indent (suc depth) ++ field_name indent k)) _
          (indented_ok indent (suc depth) _ e) in
      rw shape refl

  pub elements_end :
      (es : Elements) (depth : ℕ) (path : Bytes) (i : ℕ) (rest : Bytes) {t : Bytes}
      → append_json_elements io indent depth path (suc i) es ≡ ok t
      → starts continues (t ++ rest) ≡ false
  unfolding append_json_elements
  elements_end no_elements depth path i rest e =
      subst (λ s. starts continues (s ++ rest) ≡ false)
        (ok-injective _ (indented_ok indent depth _ e)) (pad_end indent depth 93 rest refl)
  elements_end (element v es) depth path i rest e =
      let (more, inner, shape) =
        followed_by_ok (comma false ++ pad indent (suc depth)) _
          (indented_ok indent (suc depth) _ e) in
      rw shape refl
