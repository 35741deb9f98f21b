-- ===== src/Json/ValueRoundTrip.antt =====
-- `valueToJsonString` and then `valueFromJsonString` of src/io/Json.cpp.
use pp_cpp_common.Common.{
  Bytes, [], ap, append-nil, arith, false, leb, length, ltb, refl, some, subst, suc, sym, true,
  zero, ℕ, ◌++◌, ◌+◌, ◌^◌, ◌∙◌, ◌∷◌, ◌≡◌, ◌≤◌,
}
use pp_cpp_common.Common.Int.{FitsInt, pos, ℤ}
use pp_cpp_common.Json.Encoder.{
  append_json_elements, append_json_fields, append_json_value, max_nesting_depth,
  value_to_json_string,
}
use pp_cpp_common.Json.Loops.{
  indented_ok, make_err_ne, parse_array_empty, parse_object_empty, parse_value_array,
  parse_value_object, parse_value_scalar,
}
use pp_cpp_common.Json.NumberText.{continues, starts}
use pp_cpp_common.Json.NumberValues.{
  PrintsDoubles, parse_number-print_double, parse_number-signed_to_string,
}
use pp_cpp_common.Json.Numbers.{Doubles, is_finite, signed_to_string}
use pp_cpp_common.Json.Parser.{
  after_item, at_end, parse_elements, parse_fields, parse_value, string_result,
  value_from_json_string,
}
use pp_cpp_common.Json.Reread.{
  FitsJson, FitsJsonElements, FitsJsonFields, reread, reread_elements, reread_fields,
}
use pp_cpp_common.Json.RoundTrip.{parse_string-append_escaped_json_string}
use pp_cpp_common.Json.Rounds.{
  Back, array-Back, deeper, element_round, elements_parts, field_round, fields_parts, length_tail,
  null_at, number_back, object-Back, string_at, word_at,
}
use pp_cpp_common.Json.Starts.{
  double_start, elements_end, fields_end, if_ok, if_ok_then, int_start, nested_ok, ok-injective,
  value_start,
}
use pp_cpp_common.Json.Strings.{is_json_ws}
use pp_cpp_common.Json.Tokens.{after_item_close}
use pp_cpp_common.Results.{ok}
use pp_cpp_common.Value.{
  Elements, Fields, Value, append_fields, append_fields-nil, array_ptr, bool_value, double_value,
  element, field, int64_value, no_elements, no_fields, null_array_ptr, null_object_ptr, null_value,
  object_ptr, string_value, uint64_value,
}
use pp_cpp_common.Value.Numbers.{int64_max, to_string}
use pp_cpp_common.Wire.Reader.{pure, ◌>>=◌}
-- An object or an array leaves the parser a level.
use pp_cpp_common.Json.Rounds.{
  deeper, length_tail, string_at, word_at, null_at, fields_parts, elements_parts, number_back, Back,
  object-Back, field_round, array-Back, element_round,
}

module _ (io : Doubles) (p : PrintsDoubles io) (indent : ℤ) where
  mutual
    unfolding append_json_value append_json_fields append_json_elements reread signed_to_string
        is_json_ws

    value-Back :
        (v : Value) (room depth : ℕ) (path rest t : Bytes)
        → FitsJson io p v
        → room + depth ≡ max_nesting_depth
        → append_json_value io indent depth path v ≡ ok t
        → starts continues rest ≡ false
        → Back io p indent room v t rest
    value-Back null_value room depth path rest t h d e n =
        subst (λ s. Back io p indent room null_value s rest) (ok-injective _ e)
          (parse_value_scalar io room _ λ nested. null_at io nested rest)
    value-Back (int64_value i) room depth path rest t h d e n =
        subst (λ s. Back io p indent room (int64_value i) s rest) (ok-injective _ e)
          (number_back io p indent room _ rest (int_start i h)
            (parse_number-signed_to_string io i rest h n))
    value-Back (uint64_value m) room depth path rest t h d e n =
        let (small, shape) = if_ok (ltb int64_max m) _ path (to_string m) e in
        let bound : FitsInt (2 ^ 63) (pos m) = ground (arith, small) in
        subst (λ s. Back io p indent room (uint64_value m) s rest) (sym shape)
          (number_back io p indent room _ rest (int_start (pos m) bound)
            (parse_number-signed_to_string io (pos m) rest bound n))
    value-Back (bool_value b) room depth path rest t h d e n =
        subst (λ s. Back io p indent room (bool_value b) s rest) (ok-injective _ e)
          (parse_value_scalar io room _ λ nested. word_at io nested b rest)
    value-Back (double_value x) room depth path rest t h d e n =
        let (finite, shape) = if_ok_then (is_finite x) _ path (io.print_double x) e in
        subst (λ s. Back io p indent room (double_value x) s rest) (sym shape)
          (number_back io p indent room _ rest (double_start io p x h.0 finite)
            (parse_number-print_double io p x rest h.0 finite h.1 n))
    value-Back (string_value s) room depth path rest t h d e n =
        subst (λ b. Back io p indent room (string_value s) b rest) (ok-injective _ e)
          (parse_value_scalar io room _ λ nested.
            string_at io nested s rest
            ∙ ap string_result (parse_string-append_escaped_json_string s rest).0)
    value-Back null_object_ptr room depth path rest t h d e n = absurd (make_err_ne _ 0 path e)
    value-Back (object_ptr no_fields) room depth path rest t h d e n =
        let (more, low, inner, shape) = nested_ok (leb max_nesting_depth depth) _ path 123 _ e in
        let (r, level, below) = deeper room depth d low in
        rw (shape, level, sym (ok-injective _ (indented_ok indent 0 _ inner)))
          (parse_value_object io r (125 ∷ rest) rest no_fields
            (parse_object_empty (parse_value io r) rest))
    value-Back (object_ptr (field k v fs)) room depth path rest t h d e n =
        let (more, low, inner, shape) = nested_ok (leb max_nesting_depth depth) _ path 123 _ e in
        let (r, level, below) = deeper room depth d low in
        let (a, b, value', rest', split) = fields_parts io p indent true k v fs depth path inner in
        let child =
          value-Back v r (suc depth) _ (b ++ rest) a h.1 below value'
            (fields_end io p indent fs depth path rest rest') in
        rw (shape, level, split)
          (object-Back io p indent r depth k a b rest v fs child
            λ fuel enough. fields_back fs _ r depth path rest b fuel h.2 below rest' enough)
    value-Back null_array_ptr room depth path rest t h d e n = absurd (make_err_ne _ 0 path e)
    value-Back (array_ptr no_elements) room depth path rest t h d e n =
        let (more, low, inner, shape) = nested_ok (leb max_nesting_depth depth) _ path 91 _ e in
        let (r, level, below) = deeper room depth d low in
        rw (shape, level, sym (ok-injective _ (indented_ok indent 0 _ inner)))
          (parse_value_array io r (93 ∷ rest) rest no_elements
            (parse_array_empty (parse_value io r) rest))
    value-Back (array_ptr (element v es)) room depth path rest t h d e n =
        let (more, low, inner, shape) = nested_ok (leb max_nesting_depth depth) _ path 91 _ e in
        let (r, level, below) = deeper room depth d low in
        let (a, b, value', rest', split) = elements_parts io p indent 0 v es depth path inner in
        let after = elements_end io p indent es depth path 0 rest rest' in
        let child = value-Back v r (suc depth) _ (b ++ rest) a h.0 below value' after in
        let start = value_start io p indent v (suc depth) _ h.0 value' in
        rw (shape, level, split)
          (array-Back io p indent r depth a b rest v es start child λ fuel enough.
            elements_back es (reread io p v) r depth 0 path rest b fuel h.1 below rest' enough)

    fields_back :
        (fs before : Fields) (room depth : ℕ) (path rest t : Bytes) (fuel : ℕ)
        → FitsJsonFields io p fs before
        → room + suc depth ≡ max_nesting_depth
        → append_json_fields io indent depth path false fs ≡ ok t
        → length t ≤ fuel
        → after_item 125 (pure before) (parse_fields (parse_value io room) fuel before) (t ++ rest)
          ≡ some (append_fields before (reread_fields io p fs), rest)
    fields_back no_fields before room depth path rest t fuel h d e l =
        let again = parse_fields (parse_value io room) fuel before in
        ap (λ x. after_item 125 (pure before) again (x ++ rest))
          (sym (ok-injective _ (indented_ok indent depth _ e)))
        ∙ after_item_close 125 (pure before) again indent depth rest refl
        ∙ ap (λ fs. some (fs, rest)) (sym (append_fields-nil before))
    fields_back (field k v fs) before room depth path rest t zero h d e l =
        let (a, b, value', rest', split) = fields_parts io p indent false k v fs depth path e in
        absurd (omega (arith, l, ap length split))
    fields_back (field k v fs) before room depth path rest t (suc fuel) h d e l =
        let (a, b, value', rest', split) = fields_parts io p indent false k v fs depth path e in
        let after = fields_end io p indent fs depth path rest rest' in
        let child = value-Back v room (suc depth) _ (b ++ rest) a h.1 d value' after in
        let enough = length_tail _ a b t l (ap length split) in
        rw split (
          field_round io p indent room depth fuel k a b rest v before fs h.0 child
            (fields_back fs _ room depth path rest b fuel h.2 d rest' enough))

    elements_back :
        (es : Elements) (w : Value) (room depth i : ℕ) (path rest t : Bytes) (fuel : ℕ)
        → FitsJsonElements io p es
        → room + suc depth ≡ max_nesting_depth
        → append_json_elements io indent depth path (suc i) es ≡ ok t
        → length t ≤ fuel
        → after_item 93
            (pure (element w no_elements))
            (do xs ← parse_elements (parse_value io room) fuel; pure (element w xs))
            (t ++ rest)
          ≡ some (element w (reread_elements io p es), rest)
    elements_back no_elements w room depth i path rest t fuel h d e l =
        let done = pure (element w no_elements) in
        let again = (do xs ← parse_elements (parse_value io room) fuel; pure (element w xs)) in
        ap (λ x. after_item 93 done again (x ++ rest))
          (sym (ok-injective _ (indented_ok indent depth _ e)))
        ∙ after_item_close 93 done again indent depth rest refl
    elements_back (element v es) w room depth i path rest t zero h d e l =
        let (a, b, value', rest', split) = elements_parts io p indent (suc i) v es depth path e in
        absurd (omega (arith, l, ap length split))
    elements_back (element v es) w room depth i path rest t (suc fuel) h d e l =
        let (a, b, value', rest', split) = elements_parts io p indent (suc i) v es depth path e in
        let after = elements_end io p indent es depth path (suc i) rest rest' in
        let child = value-Back v room (suc depth) _ (b ++ rest) a h.0 d value' after in
        let enough = length_tail _ a b t l (ap length split) in
        rw split (
          element_round io p indent room depth fuel a b rest v w es child (
            elements_back es (reread io p v) room depth (suc i) path rest b fuel h.1 d rest'
              enough))

  -- Whatever the indent, when valueToJsonString succeeds on a value valueFromJsonString reads it
  -- back, with unsigned numbers as signed ones, strings with U+FFFD for what is not UTF-8, and a
  -- double as itself or as the integer that is printed for it; the value holds signed numbers
  -- within int64_t, doubles that are not subnormal, and no two keys in an object that are written
  -- alike, and the C library prints and reads doubles as described.
  pub value_from_json_string-value_to_json_string :
      (v : Value) (s : Bytes)
      → FitsJson io p v
      → value_to_json_string io indent v ≡ ok s
      → value_from_json_string io s ≡ some (reread io p v)
  unfolding value_to_json_string value_from_json_string
  value_from_json_string-value_to_json_string v s h e =
      let read = value-Back v max_nesting_depth 0 [] [] s h refl e refl in
      ap at_end (ap (parse_value io max_nesting_depth) (sym (append-nil s)) ∙ read)
