-- ===== src/Json/Loops.antt =====
-- A round of each loop of the parser of src/io/Json.cpp, and the encoder taken apart.
use Prim.Native.String.{String}
use pp_cpp_common.Common.{
  Bool-cases, Bytes, Option, [], ap, append_assoc, arith, false, inl, inr, length, length-append,
  refl, some, suc, sym, zero, ℕ, ◌++◌, ◌==◌, ◌∙◌, ◌∷◌, ◌≡◌, ◌≤◌,
}
use pp_cpp_common.Common.Int.{ℤ}
use pp_cpp_common.Json.Encoder.{
  field_name, followed_by, gap, indented, join, make_err, overflows, pad,
}
use pp_cpp_common.Json.Numbers.{Doubles}
use pp_cpp_common.Json.Parser.{
  after_item, parse_array, parse_at, parse_elements, parse_fields, parse_nested, parse_object,
  parse_value, try_consume,
}
use pp_cpp_common.Json.RoundTrip.{parse_string-append_escaped_json_string, sanitize}
use pp_cpp_common.Json.Strings.{
  append_escaped_json_string, escape, is_json_ws, parse_string, skip_ws,
}
use pp_cpp_common.Json.Tokens.{expect_yes, skip_ws-pad, try_consume_no, try_consume_yes}
use pp_cpp_common.Results.{Error, Roe, err, ok}
use pp_cpp_common.Value.{
  Elements, Fields, Value, append_fields, array_ptr, contains, element, field, no_elements,
  no_fields, object_ptr, set_field-new,
}
use pp_cpp_common.Wire.Reader.{Reader, pure, ◌>>=◌}

pub followed_by_ok :
    (text : Bytes) (r : Roe Bytes) {t : Bytes}
    → followed_by text r ≡ ok t
    → (more : Bytes) × (r ≡ ok more) × (t ≡ text ++ more)
followed_by_ok text (ok more) h = (more, refl, cc)
followed_by_ok text (err e) h = cc

pub join_ok :
    (r s : Roe Bytes) {t : Bytes}
    → join r s ≡ ok t
    → (a b : Bytes) × (r ≡ ok a) × (s ≡ ok b) × (t ≡ a ++ b)
join_ok (ok a) s h = let (b, e, shape) = followed_by_ok a s h in (a, b, refl, e, shape)
join_ok (err e) s h = cc

err_ne : {e : Error} {t : Bytes} → err e ≡ ok t → ⊥
err_ne h = cc

-- Text behind an indent is that text.
pub indented_ok :
    (indent : ℤ) (depth : ℕ) (r : Roe Bytes) {t : Bytes} → indented indent depth r ≡ ok t → r ≡ ok t
unfolding indented
indented_ok indent depth r h = elim (Bool-cases (overflows indent depth)) [
  | inl e ↦ absurd (err_ne (rw e at h))
  | inr e ↦ rw e at h
]

-- An error is no text.
pub make_err_ne :
    (message : String) (offset : ℕ) (path : Bytes) {t : Bytes}
    → make_err message offset path ≡ ok t
    → ⊥
unfolding make_err
make_err_ne message offset path h = cc

pub parse_value_skip :
    (io : Doubles) (room : ℕ) (bs cs : Bytes)
    → skip_ws bs ≡ skip_ws cs
    → parse_value io room bs ≡ parse_value io room cs
unfolding parse_value
parse_value_skip io zero bs cs h = rw h refl
parse_value_skip io (suc room) bs cs h = rw h refl

-- What does not open an object or an array is parsed at any depth.
pub parse_value_scalar :
    (io : Doubles) (room : ℕ) (bs : Bytes) {result : Option (Value × Bytes)}
    → ((nested : ℕ → Reader Value) → parse_at io nested (skip_ws bs) ≡ result)
    → parse_value io room bs ≡ result
unfolding parse_value
parse_value_scalar io zero bs h = h _
parse_value_scalar io (suc room) bs h = h _

pub skip_ws_name :
    (indent : ℤ) (depth : ℕ) (k bs : Bytes)
    → skip_ws ((pad indent depth ++ field_name indent k) ++ bs) ≡ field_name indent k ++ bs
unfolding field_name append_escaped_json_string is_json_ws
skip_ws_name indent depth k bs =
    ap skip_ws (append_assoc (pad indent depth) (field_name indent k) bs)
    ∙ skip_ws-pad indent depth (field_name indent k ++ bs)

pub parse_string_name :
    (indent : ℤ) (k bs : Bytes)
    → parse_string (field_name indent k ++ bs) ≡ some (sanitize 0 k, 58 ∷ (gap indent ++ bs))
unfolding field_name
parse_string_name indent k bs =
    ap parse_string (append_assoc (append_escaped_json_string k) (58 ∷ gap indent) bs)
    ∙ (parse_string-append_escaped_json_string k (58 ∷ (gap indent ++ bs))).0

no_close :
    (indent : ℤ) (k more : Bytes)
    → try_consume 125 (field_name indent k ++ more) ≡ some (false, field_name indent k ++ more)
unfolding field_name append_escaped_json_string is_json_ws
no_close indent k more = try_consume_no 125 34 _ refl refl

skip_ws_plain_name :
    (indent : ℤ) (k more : Bytes)
    → skip_ws (field_name indent k ++ more) ≡ field_name indent k ++ more
unfolding field_name append_escaped_json_string is_json_ws
skip_ws_plain_name indent k more = refl

length-name :
    (indent : ℤ) (k more : Bytes)
    → (fuel : ℕ) × (length (field_name indent k ++ more) ≡ suc fuel) × (length more ≤ fuel)
unfolding field_name append_escaped_json_string
length-name indent k more =
    let name = (escape 0 k ++ 34 ∷ []) ++ (58 ∷ gap indent) in
    (length (name ++ more), refl, omega (arith, length-append name more))

module _ (decode : Reader Value) where
  parse_fields_skip :
      (fuel : ℕ) (out : Fields) (bs cs : Bytes)
      → skip_ws bs ≡ skip_ws cs
      → parse_fields decode fuel out bs ≡ parse_fields decode fuel out cs
  unfolding parse_fields
  parse_fields_skip zero out bs cs h = refl
  parse_fields_skip (suc fuel) out bs cs h = rw h refl

  -- A round on a key that is new: the field goes to the end.
  pub parse_fields-cons :
      (fuel : ℕ) (out : Fields) (indent : ℤ) (depth : ℕ) (k more bs : Bytes) (w : Value)
      → contains (sanitize 0 k) out ≡ false
      → decode (gap indent ++ more) ≡ some (w, bs)
      → let longer = append_fields out (field (sanitize 0 k) w no_fields) in
        parse_fields decode (suc fuel) out ((pad indent depth ++ field_name indent k) ++ more)
        ≡ after_item 125 (pure longer) (parse_fields decode fuel longer) bs
  unfolding parse_fields is_json_ws
  parse_fields-cons fuel out indent depth k more bs w new e =
      rw (skip_ws_name indent depth k more, parse_string_name indent k more, ◌>>=◌)
        (rw (new, expect_yes 58 (gap indent ++ more) refl, ◌>>=◌)
          (rw (e, ◌>>=◌) (rw (set_field-new (sanitize 0 k) w out new) refl)))

  pub parse_object_empty :
      (rest : Bytes) → parse_object decode (123 ∷ 125 ∷ rest) ≡ some (no_fields, rest)
  unfolding parse_object is_json_ws
  parse_object_empty rest =
      rw (expect_yes 123 (125 ∷ rest) refl, ◌>>=◌) (rw (try_consume_yes 125 rest refl, ◌>>=◌) refl)

  -- The first round gets fuel for what stands behind the value.
  pub parse_object-cons :
      (indent : ℤ) (depth : ℕ) (k more bs : Bytes) (w : Value)
      → decode (gap indent ++ more) ≡ some (w, bs)
      → let first = field (sanitize 0 k) w no_fields in
        (fuel : ℕ) × (length more ≤ fuel)
        × (parse_object decode (123 ∷ ((pad indent depth ++ field_name indent k) ++ more))
            ≡ after_item 125 (pure first) (parse_fields decode fuel first) bs)
  unfolding parse_object is_json_ws
  parse_object-cons indent depth k more bs w e =
      let (fuel, size, enough) = length-name indent k more in
      let text = (pad indent depth ++ field_name indent k) ++ more in
      let seen = skip_ws_name indent depth k more in
      let again = skip_ws_plain_name indent k more ∙ sym seen in
      (
        fuel,
        enough,
        rw (expect_yes 123 text refl, ◌>>=◌)
            (rw (seen, no_close indent k more, ◌>>=◌)
              (ap (λ n. parse_fields decode n no_fields (field_name indent k ++ more)) size
                ∙ parse_fields_skip (suc fuel) no_fields _ text again
                ∙ parse_fields-cons fuel no_fields indent depth k more bs w
                    (unfold contains in refl) e)),
      )

  pub parse_elements-cons :
      (fuel : ℕ) (bs more : Bytes) (w : Value)
      → decode bs ≡ some (w, more)
      → parse_elements decode (suc fuel) bs
        ≡ after_item 93
            (pure (element w no_elements))
            (do es ← parse_elements decode fuel; pure (element w es))
            more
  unfolding parse_elements
  parse_elements-cons fuel bs more w e = rw (e, ◌>>=◌) refl

  pub parse_array_empty :
      (rest : Bytes) → parse_array decode (91 ∷ 93 ∷ rest) ≡ some (no_elements, rest)
  unfolding parse_array is_json_ws
  parse_array_empty rest =
      rw (expect_yes 91 (93 ∷ rest) refl, ◌>>=◌) (rw (try_consume_yes 93 rest refl, ◌>>=◌) refl)

  pub parse_array-cons :
      (c : ℕ) (bs cs more : Bytes) (w : Value)
      → skip_ws bs ≡ c ∷ cs
      → is_json_ws c ≡ false
      → (c == 93) ≡ false
      → decode (c ∷ cs) ≡ some (w, more)
      → parse_array decode (91 ∷ bs)
        ≡ after_item 93
            (pure (element w no_elements))
            (do es ← parse_elements decode (length cs); pure (element w es))
            more
  unfolding parse_array
  parse_array-cons c bs cs more w seen plain other e =
      rw (expect_yes 91 bs (unfold is_json_ws in refl), ◌>>=◌)
        (rw (seen, try_consume_no 93 c cs plain other, ◌>>=◌)
          (parse_elements-cons (length cs) (c ∷ cs) more w e))

module _ (io : Doubles) where
  pub parse_value_object :
      (room : ℕ) (bs rest : Bytes) (fs : Fields)
      → parse_object (parse_value io room) (123 ∷ bs) ≡ some (fs, rest)
      → parse_value io (suc room) (123 ∷ bs) ≡ some (object_ptr fs, rest)
  unfolding parse_value parse_at parse_nested is_json_ws
  parse_value_object room bs rest fs e = rw (e, ◌>>=◌) refl

  pub parse_value_array :
      (room : ℕ) (bs rest : Bytes) (es : Elements)
      → parse_array (parse_value io room) (91 ∷ bs) ≡ some (es, rest)
      → parse_value io (suc room) (91 ∷ bs) ≡ some (array_ptr es, rest)
  unfolding parse_value parse_at parse_nested is_json_ws
  parse_value_array room bs rest es e = rw (e, ◌>>=◌) refl
