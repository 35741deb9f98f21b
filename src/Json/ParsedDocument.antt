-- ===== src/Json/ParsedDocument.antt =====
-- The values that the parser of src/io/Json.cpp can give.
use pp_cpp_common.Common.{
  Bool, Bytes, Option, [], arith, false, if◌then◌else◌, inl, inr, length, none, not, refl, some,
  subst, suc, true, zero, ℕ, ◌==◌, ◌||◌, ◌∷◌, ◌≡◌, ◌⊎◌,
}
use pp_cpp_common.Json.Encoder.{max_nesting_depth}
use pp_cpp_common.Json.Numbers.{Doubles, is_ascii_digit}
use pp_cpp_common.Json.Parsed.{
  IsParsed, IsParsedElements, IsParsedFields, IsParsedFields-append, some-injective,
}
use pp_cpp_common.Json.ParsedNumbers.{guarded, number-IsParsed}
use pp_cpp_common.Json.Parser.{
  after_item, at_end, expect, parse_array, parse_at, parse_elements, parse_fields, parse_nested,
  parse_object, parse_value, skip, string_result, try_consume, value_from_json_string, word_value,
}
use pp_cpp_common.Json.Strings.{parse_string, skip_ws}
use pp_cpp_common.Value.{
  Elements, Fields, Value, array_ptr, bool_value, contains, element, no_elements, no_fields,
  null_value, object_ptr, set_field, set_field-new,
}
use pp_cpp_common.Value.Lookup.{distinct_keys, distinct_keys-append}
use pp_cpp_common.Wire.Reader.{>>=-eq-some, Reader, fail, guard-eq-some, none_ne, pure, ◌>>=◌, ◌>>◌}

bracket-eq-some {ℓ} :
    {A : Type ℓ} (closed : Bool) (done again : Reader A) (bs : Bytes) {x : A × Bytes}
    → (elim closed as (λ b. Reader A) [ true ↦ done | false ↦ do expect 44; again ]) bs ≡ some x
    → (cs : Bytes) × ((done cs ≡ some x) ⊎ (again cs ≡ some x))
bracket-eq-some true done again bs h = (bs, inl h)
bracket-eq-some false done again bs h =
    let (t, cs, e, more) = >>=-eq-some (expect 44) _ bs h in (cs, inr more)

-- A round ends at the closing bracket or goes on behind a comma.
after_item-eq-some {ℓ} :
    {A : Type ℓ} (close : ℕ) (done again : Reader A) (bs : Bytes) {x : A × Bytes}
    → after_item close done again bs ≡ some x
    → (cs : Bytes) × ((done cs ≡ some x) ⊎ (again cs ≡ some x))
unfolding after_item
after_item-eq-some close done again bs h =
    let (closed, cs, e, more) = >>=-eq-some (try_consume close) _ (skip_ws bs) h in
    bracket-eq-some closed done again cs more

string_result-IsParsed :
    (o : Option (Bytes × Bytes)) (room : ℕ) {v : Value} {rest : Bytes}
    → string_result o ≡ some (v, rest)
    → IsParsed v room
string_result-IsParsed none room h = absurd (none_ne h)
string_result-IsParsed (some (s, r)) room h = subst (λ x. IsParsed x.0 room) (some-injective h) tt

-- `w` is a value that has no parts.
word_value-IsParsed :
    (w : Value) (o : Option Bytes) (room : ℕ) {v : Value} {rest : Bytes}
    → IsParsed w room
    → word_value w o ≡ some (v, rest)
    → IsParsed v room
word_value-IsParsed w none room p h = absurd (none_ne h)
word_value-IsParsed w (some r) room p h = subst (λ x. IsParsed x.0 room) (some-injective h) p

either_branch {ℓ κ} :
    {A : Type ℓ} {P : Type κ} (b : Bool) (x y : A) {z : A}
    → (if b then x else y) ≡ z
    → (x ≡ z → P)
    → (y ≡ z → P)
    → P
either_branch true x y h p q = p h
either_branch false x y h p q = q h

either_reader {ℓ} :
    {A : Type 0} {P : Type ℓ} (b : Bool) (r s : Reader A) (bs : Bytes) {z : Option (A × Bytes)}
    → (if b then r else s) bs ≡ z
    → (r bs ≡ z → P)
    → (s bs ≡ z → P)
    → P
either_reader true r s bs h p q = p h
either_reader false r s bs h p q = q h

module _ (io : Doubles) where
  parse_at-IsParsed :
      (nested : ℕ → Reader Value) (bs : Bytes) (room : ℕ) {v : Value} {rest : Bytes}
      → ((c : ℕ) (cs : Bytes) → nested c cs ≡ some (v, rest) → IsParsed v room)
      → parse_at io nested bs ≡ some (v, rest)
      → IsParsed v room
  unfolding parse_at
  parse_at-IsParsed nested [] room f h = absurd (none_ne h)
  parse_at-IsParsed nested (c ∷ bs) room f h =
      either_branch (c == 34) _ _ h (string_result-IsParsed (parse_string (c ∷ bs)) room) λ h.
        either_branch (c == 123 || c == 91) _ _ h (f c (c ∷ bs)) λ h.
          either_branch (c == 110) _ _ h (word_value-IsParsed null_value _ room tt) λ h.
            either_branch (c == 116) _ _ h (word_value-IsParsed (bool_value true) _ room tt) λ h.
              either_branch (c == 102) _ _ h (word_value-IsParsed (bool_value false) _ room tt) λ h.
                either_branch (c == 45 || is_ascii_digit c) _ _ h (number-IsParsed io (c ∷ bs) room)
                  (λ e. absurd (none_ne e))

-- What holds of the items so far holds at the end of the loop.
closing {ℓ} :
    {A : Type 0} (P : A → Type ℓ) (a : A) {b : A} (again : Reader A) {rest : Bytes} (cs : Bytes)
    → (pure a cs ≡ some (b, rest)) ⊎ (again cs ≡ some (b, rest))
    → P a
    → (again cs ≡ some (b, rest) → P b)
    → P b
closing P a again cs (inl e) h f = subst (λ x. P x.0) (some-injective e) h
closing P a again cs (inr e) h f = f e

-- A decoder of which each value is within `room` levels.
abbrev Decodes : Reader Value → ℕ → Type 0
Decodes decode room =
    (bs : Bytes) (v : Value) (rest : Bytes) → decode bs ≡ some (v, rest) → IsParsed v room

module _ (decode : Reader Value) (room : ℕ) (within : Decodes decode room) where
  abbrev stored : ℕ → Bytes → Fields → Reader Fields
  stored fuel key out = do
    v ← decode
    after_item 125 (pure (set_field key v out)) (parse_fields decode fuel (set_field key v out))

  abbrev prefixed : ℕ → Value → Reader Elements
  prefixed fuel v = do es ← parse_elements decode fuel; pure (element v es)

  set_field-IsParsed :
      (key : Bytes) (v : Value) (out : Fields)
      → contains key out ≡ false
      → IsParsedFields out room
      → IsParsed v room
      → distinct_keys out ≡ true
      → IsParsedFields (set_field key v out) room × (distinct_keys (set_field key v out) ≡ true)
  set_field-IsParsed key v out fresh p q d =
      rw (set_field-new key v out fresh)
        (IsParsedFields-append out key v room p q, distinct_keys-append key v out fresh d)

  parse_fields-IsParsed :
      (fuel : ℕ) (out : Fields) (bs : Bytes) {fs : Fields} {rest : Bytes}
      → IsParsedFields out room
      → distinct_keys out ≡ true
      → parse_fields decode fuel out bs ≡ some (fs, rest)
      → (distinct_keys fs ≡ true) × IsParsedFields fs room
  unfolding parse_fields
  parse_fields-IsParsed zero out bs p d h = absurd (none_ne h)
  parse_fields-IsParsed (suc fuel) out bs p d h =
      let (key, b1, e1, h1) = >>=-eq-some parse_string _ (skip_ws bs) h in
      let (new, h2) =
        guard-eq-some (not (contains key out)) (expect 58 >> stored fuel key out) b1 h1 in
      let (t, b3, e3, h3) = >>=-eq-some (expect 58) (λ _. stored fuel key out) b1 h2 in
      let (v, b4, e4, h4) = >>=-eq-some decode _ b3 h3 in
      let fresh : contains key out ≡ false = ground arith in
      let longer = set_field key v out in
      let (cs, last) =
        after_item-eq-some 125 (pure longer) (parse_fields decode fuel longer) b4 h4 in
      let (p', d') = set_field-IsParsed key v out fresh p (within b3 v b4 e4) d in
      let step = parse_fields-IsParsed fuel longer cs p' d' in
      closing (λ f. (distinct_keys f ≡ true) × IsParsedFields f room) longer
        (parse_fields decode fuel longer) cs last (d', p') step

  parse_elements-IsParsed :
      (fuel : ℕ) (bs : Bytes) {es : Elements} {rest : Bytes}
      → parse_elements decode fuel bs ≡ some (es, rest)
      → IsParsedElements es room
  unfolding parse_elements
  parse_elements-IsParsed zero bs h = absurd (none_ne h)
  parse_elements-IsParsed (suc fuel) bs h =
      let (v, b1, e1, h1) = >>=-eq-some decode _ bs h in
      let (cs, last) =
        after_item-eq-some 93 (pure (element v no_elements)) (prefixed fuel v) b1 h1 in
      let first = within bs v b1 e1 in
      closing (λ f. IsParsedElements f room) (element v no_elements) (prefixed fuel v) cs last
        (first, tt)
        λ again.
          let (xs, b2, e2, h2) = >>=-eq-some (parse_elements decode fuel) _ cs again in
          let all : IsParsedElements (element v xs) room =
            (first, parse_elements-IsParsed fuel cs e2) in
          subst (λ x. IsParsedElements x.0 room) (some-injective h2) all

  abbrev fields_of : Bool → Reader Fields
  fields_of closed = elim closed as (λ b. Reader Fields) [
    | true ↦ pure no_fields
    | false ↦ λ bs. parse_fields decode (length bs) no_fields bs
  ]

  abbrev elements_of : Bool → Reader Elements
  elements_of closed = elim closed as (λ b. Reader Elements) [
    | true ↦ pure no_elements
    | false ↦ λ bs. parse_elements decode (length bs) bs
  ]

  fields_of-IsParsed :
      (closed : Bool) (bs : Bytes) {fs : Fields} {rest : Bytes}
      → fields_of closed bs ≡ some (fs, rest)
      → (distinct_keys fs ≡ true) × IsParsedFields fs room
  unfolding distinct_keys
  fields_of-IsParsed true bs h =
      subst (λ x. (distinct_keys x.0 ≡ true) × IsParsedFields x.0 room) (some-injective h)
        (refl, tt)
  fields_of-IsParsed false bs h = parse_fields-IsParsed (length bs) no_fields bs tt refl h

  elements_of-IsParsed :
      (closed : Bool) (bs : Bytes) {es : Elements} {rest : Bytes}
      → elements_of closed bs ≡ some (es, rest)
      → IsParsedElements es room
  elements_of-IsParsed true bs h = subst (λ x. IsParsedElements x.0 room) (some-injective h) tt
  elements_of-IsParsed false bs h = parse_elements-IsParsed (length bs) bs h

  parse_object-IsParsed :
      (bs : Bytes) {fs : Fields} {rest : Bytes}
      → parse_object decode bs ≡ some (fs, rest)
      → (distinct_keys fs ≡ true) × IsParsedFields fs room
  unfolding parse_object
  parse_object-IsParsed bs h =
      let (t, b1, e1, h1) =
        >>=-eq-some (expect 123) (λ _. skip >> (try_consume 125 >>= fields_of)) bs h in
      let (closed, b2, e2, h2) = >>=-eq-some (try_consume 125) fields_of (skip_ws b1) h1 in
      fields_of-IsParsed closed b2 h2

  parse_array-IsParsed :
      (bs : Bytes) {es : Elements} {rest : Bytes}
      → parse_array decode bs ≡ some (es, rest)
      → IsParsedElements es room
  unfolding parse_array
  parse_array-IsParsed bs h =
      let (t, b1, e1, h1) =
        >>=-eq-some (expect 91) (λ _. skip >> (try_consume 93 >>= elements_of)) bs h in
      let (closed, b2, e2, h2) = >>=-eq-some (try_consume 93) elements_of (skip_ws b1) h1 in
      elements_of-IsParsed closed b2 h2

  object-IsParsed :
      (bs : Bytes) {v : Value} {rest : Bytes}
      → (parse_object decode >>= λ fs. pure (object_ptr fs)) bs ≡ some (v, rest)
      → IsParsed v (suc room)
  object-IsParsed bs h =
      let (fs, b1, e1, h1) = >>=-eq-some (parse_object decode) _ bs h in
      let p : IsParsed (object_ptr fs) (suc room) = parse_object-IsParsed bs e1 in
      subst (λ x. IsParsed x.0 (suc room)) (some-injective h1) p

  array-IsParsed :
      (bs : Bytes) {v : Value} {rest : Bytes}
      → (parse_array decode >>= λ es. pure (array_ptr es)) bs ≡ some (v, rest)
      → IsParsed v (suc room)
  array-IsParsed bs h =
      let (es, b1, e1, h1) = >>=-eq-some (parse_array decode) _ bs h in
      let p : IsParsed (array_ptr es) (suc room) = parse_array-IsParsed bs e1 in
      subst (λ x. IsParsed x.0 (suc room)) (some-injective h1) p

  parse_nested-IsParsed :
      (c : ℕ) (bs : Bytes) {v : Value} {rest : Bytes}
      → parse_nested decode c bs ≡ some (v, rest)
      → IsParsed v (suc room)
  unfolding parse_nested
  parse_nested-IsParsed c bs h =
      either_reader (c == 123) _ _ bs h (object-IsParsed bs) (array-IsParsed bs)

module _ (io : Doubles) where
  parse_value-IsParsed : (room : ℕ) → Decodes (parse_value io room) room
  unfolding parse_value
  parse_value-IsParsed zero bs v rest h =
      parse_at-IsParsed io (λ c. fail) (skip_ws bs) zero (λ c cs e. absurd (none_ne e)) h
  parse_value-IsParsed (suc room) bs v rest h =
      parse_at-IsParsed io (parse_nested (parse_value io room)) (skip_ws bs) (suc room)
        (λ c cs. parse_nested-IsParsed (parse_value io room) room (parse_value-IsParsed room) c cs)
        h

  at_end-IsParsed :
      (o : Option (Value × Bytes)) (v : Value)
      → at_end o ≡ some v
      → ((w : Value) (rest : Bytes) → o ≡ some (w, rest) → IsParsed w max_nesting_depth)
      → IsParsed v max_nesting_depth
  at_end-IsParsed none v h f = absurd (none_ne h)
  at_end-IsParsed (some (w, rest)) v h f =
      subst (λ x. IsParsed x max_nesting_depth) (some-injective (guarded _ _ h)) (f w rest refl)

  -- Every value that valueFromJsonString gives is at most 128 levels of objects and arrays deep,
  -- holds no unsigned number and no null pointer, has its numbers within int64_t and its doubles
  -- finite, and has no key twice in an object.
  pub value_from_json_string-IsParsed :
      (json : Bytes) (v : Value)
      → value_from_json_string io json ≡ some v
      → IsParsed v max_nesting_depth
  unfolding value_from_json_string
  value_from_json_string-IsParsed json v h =
      at_end-IsParsed (parse_value io max_nesting_depth json) v h
        (parse_value-IsParsed max_nesting_depth json)
