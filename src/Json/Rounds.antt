-- ===== src/Json/Rounds.antt =====
-- What the parser of src/io/Json.cpp does with each piece of an encoded value.
use pp_cpp_common.Common.{
  Bool, Bytes, Option, ap, append_assoc, arith, false, if◌then◌else◌, leb, length, length-append,
  refl, some, suc, sym, true, zero, ℕ, ◌++◌, ◌+◌, ◌∙◌, ◌∷◌, ◌≡◌, ◌≤◌,
}
use pp_cpp_common.Common.Int.{ℤ}
use pp_cpp_common.Json.Encoder.{
  append_json_elements, append_json_fields, append_json_value, child_path, comma, field_name,
  index_path, is_zero, max_nesting_depth, pad,
}
use pp_cpp_common.Json.Loops.{
  followed_by_ok, indented_ok, join_ok, parse_array-cons, parse_elements-cons, parse_fields-cons,
  parse_object-cons, parse_value_array, parse_value_object, parse_value_scalar, parse_value_skip,
}
use pp_cpp_common.Json.NumberValues.{PrintsDoubles}
use pp_cpp_common.Json.Numbers.{Doubles, parse_number}
use pp_cpp_common.Json.Parser.{
  after_item, parse_at, parse_elements, parse_fields, parse_value, string_result, take_word,
}
use pp_cpp_common.Json.Reread.{reread, reread_elements, reread_fields}
use pp_cpp_common.Json.RoundTrip.{sanitize}
use pp_cpp_common.Json.Starts.{
  BeginsWith, number_start, number_start-plain, opens_value, opens_value-plain, parse_at_number,
}
use pp_cpp_common.Json.Strings.{append_escaped_json_string, is_json_ws, parse_string, skip_ws}
use pp_cpp_common.Json.Tokens.{after_item_comma, skip_ws-gap, skip_ws-pad, skip_ws_plain}
use pp_cpp_common.Results.{ascii, ok}
use pp_cpp_common.Value.{
  Elements, Fields, Value, append_fields, append_fields_assoc, array_ptr, bool_value, contains,
  element, field, no_elements, no_fields, null_value, object_ptr,
}
use pp_cpp_common.Wire.Reader.{Reader, pure, ◌>>=◌}

pub deeper :
    (room depth : ℕ)
    → room + depth ≡ max_nesting_depth
    → leb max_nesting_depth depth ≡ false
    → (r : ℕ) × (room ≡ suc r) × (r + suc depth ≡ max_nesting_depth)
deeper zero depth h low = absurd (ground arith)
deeper (suc r) depth h low = (r, refl, omega (arith, h))

-- Fuel for a round is enough for what is left behind it.
pub length_tail :
    (head a b t : Bytes) {fuel : ℕ}
    → length t ≤ suc fuel
    → length t ≡ suc (length (head ++ (a ++ b)))
    → length b ≤ fuel
length_tail head a b t l e = omega (arith, l, e, length-append head (a ++ b), length-append a b)

pub string_at :
    (io : Doubles) (nested : ℕ → Reader Value) (s rest : Bytes)
    → parse_at io nested (skip_ws (append_escaped_json_string s ++ rest))
      ≡ string_result (parse_string (append_escaped_json_string s ++ rest))
unfolding append_escaped_json_string parse_at is_json_ws
string_at io nested s rest = refl

pub word_at :
    (io : Doubles) (nested : ℕ → Reader Value) (b : Bool) (rest : Bytes)
    → parse_at io nested (skip_ws ((if b then ascii "true" else ascii "false") ++ rest))
      ≡ some (bool_value b, rest)
unfolding parse_at take_word is_json_ws
word_at io nested true rest = refl
word_at io nested false rest = refl

pub null_at :
    (io : Doubles) (nested : ℕ → Reader Value) (rest : Bytes)
    → parse_at io nested (skip_ws (ascii "null" ++ rest)) ≡ some (null_value, rest)
unfolding parse_at take_word is_json_ws
null_at io nested rest = refl

module _ (io : Doubles) (p : PrintsDoubles io) (indent : ℤ) where
  pub fields_parts :
      (first : Bool) (k : Bytes) (v : Value) (fs : Fields) (depth : ℕ) (path : Bytes) {t : Bytes}
      → append_json_fields io indent depth path first (field k v fs) ≡ ok t
      → (a b : Bytes) × (append_json_value io indent (suc depth) (child_path path k) v ≡ ok a)
        × (append_json_fields io indent depth path false fs ≡ ok b)
        × (t ≡ (comma first ++ (pad indent (suc depth) ++ field_name indent k)) ++ (a ++ b))
  unfolding append_json_fields
  fields_parts first k v fs depth path e =
      let head = comma first ++ (pad indent (suc depth) ++ field_name indent k) in
      let (more, inner, shape) = followed_by_ok head _ (indented_ok indent (suc depth) _ e) in
      let (a, b, value', rest', split) = join_ok _ _ inner in
      (a, b, value', rest', shape ∙ ap (λ x. head ++ x) split)

  pub elements_parts :
      (i : ℕ) (v : Value) (es : Elements) (depth : ℕ) (path : Bytes) {t : Bytes}
      → append_json_elements io indent depth path i (element v es) ≡ ok t
      → (a b : Bytes) × (append_json_value io indent (suc depth) (index_path path i) v ≡ ok a)
        × (append_json_elements io indent depth path (suc i) es ≡ ok b)
        × (t ≡ (comma (is_zero i) ++ pad indent (suc depth)) ++ (a ++ b))
  unfolding append_json_elements
  elements_parts i v es depth path e =
      let head = comma (is_zero i) ++ pad indent (suc depth) in
      let (more, inner, shape) = followed_by_ok head _ (indented_ok indent (suc depth) _ e) in
      let (a, b, value', rest', split) = join_ok _ _ inner in
      (a, b, value', rest', shape ∙ ap (λ x. head ++ x) split)

  -- A number in front of what does not continue it.
  pub number_back :
      (room : ℕ) (t rest : Bytes) {result : Option (Value × Bytes)}
      → BeginsWith number_start t
      → parse_number io (t ++ rest) ≡ result
      → parse_value io room (t ++ rest) ≡ result
  number_back room t rest (c, bs, shape, h) e = parse_value_scalar io room (t ++ rest) λ nested.
      ap (λ x. parse_at io nested (skip_ws (x ++ rest))) shape
      ∙ ap (parse_at io nested) (skip_ws_plain (c ∷ (bs ++ rest)) (number_start-plain c h))
      ∙ parse_at_number io nested c (bs ++ rest) h
      ∙ ap (λ x. parse_number io (x ++ rest)) (sym shape)
      ∙ e

  -- Read back behind any text, with what stands behind it left.
  abbrev pub Back : ℕ → Value → Bytes → Bytes → Type 0
  Back room v t rest = parse_value io room (t ++ rest) ≡ some (reread io p v, rest)

  pub object-Back :
      (r depth : ℕ) (k a b rest : Bytes) (v : Value) (fs : Fields)
      → Back r v a (b ++ rest)
      → ((fuel : ℕ)
          → length b ≤ fuel
          → let first = field (sanitize 0 k) (reread io p v) no_fields in
            after_item 125 (pure first) (parse_fields (parse_value io r) fuel first) (b ++ rest)
            ≡ some (append_fields first (reread_fields io p fs), rest))
      → parse_value io
          (suc r)
          (123 ∷ (((pad indent (suc depth) ++ field_name indent k) ++ (a ++ b)) ++ rest))
        ≡ some (object_ptr (field (sanitize 0 k) (reread io p v) (reread_fields io p fs)), rest)
  object-Back r depth k a b rest v fs child loop =
      let head = pad indent (suc depth) ++ field_name indent k in
      let flat : (head ++ (a ++ b)) ++ rest ≡ head ++ (a ++ (b ++ rest)) = simp append_assoc in
      let decoded = parse_value_skip io r _ _ (skip_ws-gap indent (a ++ (b ++ rest))) ∙ child in
      let (fuel, enough, first) =
        parse_object-cons (parse_value io r) indent (suc depth) k (a ++ (b ++ rest)) (b ++ rest)
          (reread io p v) decoded in
      ap (λ x. parse_value io (suc r) (123 ∷ x)) flat
      ∙ parse_value_object io r _ rest _ (
          first
          ∙ loop fuel (omega (arith, enough, length-append a (b ++ rest), length-append b rest)))

  pub field_round :
      (room depth fuel : ℕ) (k a b rest : Bytes) (v : Value) (before fs : Fields)
      → contains (sanitize 0 k) before ≡ false
      → Back room v a (b ++ rest)
      → let longer = append_fields before (field (sanitize 0 k) (reread io p v) no_fields) in
        after_item 125 (pure longer) (parse_fields (parse_value io room) fuel longer) (b ++ rest)
          ≡ some (append_fields longer (reread_fields io p fs), rest)
        → after_item 125
            (pure before)
            (parse_fields (parse_value io room) (suc fuel) before)
            ((44 ∷ ((pad indent (suc depth) ++ field_name indent k) ++ (a ++ b))) ++ rest)
          ≡ some (
            append_fields before (field (sanitize 0 k) (reread io p v) (reread_fields io p fs)),
            rest,
          )
  field_round room depth fuel k a b rest v before fs new child loop =
      let head = pad indent (suc depth) ++ field_name indent k in
      let flat : (head ++ (a ++ b)) ++ rest ≡ head ++ (a ++ (b ++ rest)) = simp append_assoc in
      let decoded = parse_value_skip io room _ _ (skip_ws-gap indent (a ++ (b ++ rest))) ∙ child in
      let again = parse_fields (parse_value io room) (suc fuel) before in
      after_item_comma 125 (pure before) again ((head ++ (a ++ b)) ++ rest) refl
      ∙ ap again flat
      ∙ parse_fields-cons (parse_value io room) fuel before indent (suc depth) k (a ++ (b ++ rest))
          (b ++ rest) (reread io p v) new decoded
      ∙ loop
      ∙ ap (λ gs. some (gs, rest)) (append_fields_assoc before _ (reread_fields io p fs))

  abbrev loop : ℕ → ℕ → Value → Reader Elements
  loop room fuel w =
      after_item 93 (pure (element w no_elements))
        (do xs ← parse_elements (parse_value io room) fuel; pure (element w xs))

  pub array-Back :
      (r depth : ℕ) (a b rest : Bytes) (v : Value) (es : Elements)
      → BeginsWith opens_value a
      → Back r v a (b ++ rest)
      → ((fuel : ℕ)
          → length b ≤ fuel
          → loop r fuel (reread io p v) (b ++ rest)
            ≡ some (element (reread io p v) (reread_elements io p es), rest))
      → parse_value io (suc r) (91 ∷ ((pad indent (suc depth) ++ (a ++ b)) ++ rest))
        ≡ some (array_ptr (element (reread io p v) (reread_elements io p es)), rest)
  array-Back r depth a b rest v es (c, bs, shape, o) child more =
      let front = pad indent (suc depth) in
      let flat : (front ++ (a ++ b)) ++ rest ≡ front ++ (a ++ (b ++ rest)) = simp append_assoc in
      let cs = bs ++ (b ++ rest) in
      let text : a ++ (b ++ rest) ≡ c ∷ cs = ap (λ x. x ++ (b ++ rest)) shape in
      let (plain, other) = opens_value-plain c o in
      let seen =
        ap skip_ws flat
        ∙ skip_ws-pad indent (suc depth) (a ++ (b ++ rest))
        ∙ ap skip_ws text
        ∙ skip_ws_plain (c ∷ cs) plain in
      let decoded = ap (parse_value io r) (sym text) ∙ child in
      let enough : length b ≤ length cs =
        omega (arith, length-append bs (b ++ rest), length-append b rest) in
      parse_value_array io r _ rest _ (
        parse_array-cons (parse_value io r) c _ cs (b ++ rest) (reread io p v) seen plain other
          decoded
        ∙ more (length cs) enough)

  pub element_round :
      (room depth fuel : ℕ) (a b rest : Bytes) (v w : Value) (es : Elements)
      → Back room v a (b ++ rest)
      → loop room fuel (reread io p v) (b ++ rest)
        ≡ some (element (reread io p v) (reread_elements io p es), rest)
      → loop room (suc fuel) w ((44 ∷ (pad indent (suc depth) ++ (a ++ b))) ++ rest)
        ≡ some (element w (element (reread io p v) (reread_elements io p es)), rest)
  element_round room depth fuel a b rest v w es child more =
      let front = pad indent (suc depth) in
      let flat : (front ++ (a ++ b)) ++ rest ≡ front ++ (a ++ (b ++ rest)) = simp append_assoc in
      let decoded =
        ap (parse_value io room) flat
        ∙ parse_value_skip io room _ _ (skip_ws-pad indent (suc depth) (a ++ (b ++ rest)))
        ∙ child in
      after_item_comma 93 (pure (element w no_elements)) _ _ refl
      ∙ rw (parse_elements-cons (parse_value io room) fuel _ _ _ decoded ∙ more, ◌>>=◌) refl
