-- ===== src/Json/Parser.antt =====
-- The class Parser of src/io/Json.cpp and `valueFromJsonString`. A parse that fails is none: the
-- messages, with their offsets and paths, are not modelled.
use pp_cpp_common.Common.{
  Bool, Bytes, Option, [], false, if◌then◌else◌, is_empty, length, none, not, some, suc, true, zero,
  ℕ, ◌==◌, ◌||◌, ◌∷◌,
}
use pp_cpp_common.Json.Encoder.{max_nesting_depth}
use pp_cpp_common.Json.Numbers.{Doubles, is_ascii_digit, parse_number}
use pp_cpp_common.Json.Strings.{parse_string, skip_ws}
use pp_cpp_common.Results.{ascii}
use pp_cpp_common.Value.{
  Elements, Fields, Value, array_ptr, bool_value, contains, element, no_elements, no_fields,
  null_value, object_ptr, set_field, string_value,
}
use pp_cpp_common.Wire.Reader.{Reader, fail, guard, pure, ◌>>=◌, ◌>>◌}

abbrev pub consume : ℕ → Reader Bool
consume c [] = some (false, [])
consume c (b ∷ bs) = if b == c then some (true, bs) else some (false, b ∷ bs)

unfoldable pub try_consume : ℕ → Reader Bool
try_consume c bs = consume c (skip_ws bs)

unfoldable pub expect : ℕ → Reader (Unit {0})
expect c = do found ← try_consume c; guard found

abbrev pub skip : Reader (Unit {0})
skip bs = some (tt, skip_ws bs)

-- The bytes of `word` stand at the front.
unfoldable pub take_word : Bytes → Bytes → Option Bytes
take_word [] bs = some bs
take_word (w ∷ ws) [] = none
take_word (w ∷ ws) (b ∷ bs) = if b == w then take_word ws bs else none

abbrev pub word_value : Value → Option Bytes → Option (Value × Bytes)
word_value v none = none
word_value v (some rest) = some (v, rest)

abbrev pub string_result : Option (Bytes × Bytes) → Option (Value × Bytes)
string_result none = none
string_result (some (s, rest)) = some (string_value s, rest)

-- The end of a round of both loops: the closing bracket, or a comma and another round.
unfoldable pub after_item {ℓ} : {A : Type ℓ} → ℕ → Reader A → Reader A → Reader A
after_item close done again = do
  skip
  closed ← try_consume close
  elim closed [ true ↦ done | false ↦ do expect 44; again ]

module _ (decode : Reader Value) where
  -- The loops, behind the opening bracket. Each round reads a byte at least, so the length of the
  -- input is enough fuel.
  unfoldable pub parse_fields : ℕ → Fields → Reader Fields
  parse_fields zero out = fail
  parse_fields (suc fuel) out = do
    skip
    key ← parse_string
    guard (not (contains key out))
    expect 58
    v ← decode
    after_item 125 (pure (set_field key v out)) (parse_fields fuel (set_field key v out))

  unfoldable pub parse_object : Reader Fields
  parse_object = do
    expect 123
    skip
    closed ← try_consume 125
    elim closed [ true ↦ pure no_fields | false ↦ λ bs. parse_fields (length bs) no_fields bs ]

  unfoldable pub parse_elements : ℕ → Reader Elements
  parse_elements zero = fail
  parse_elements (suc fuel) = do
    v ← decode
    after_item 93 (pure (element v no_elements)) (do es ← parse_elements fuel; pure (element v es))

  unfoldable pub parse_array : Reader Elements
  parse_array = do
    expect 91
    skip
    closed ← try_consume 93
    elim closed [ true ↦ pure no_elements | false ↦ λ bs. parse_elements (length bs) bs ]

  -- `++depth_` and what follows it in parseValue.
  unfoldable pub parse_nested : ℕ → Reader Value
  parse_nested c =
      if c == 123
      then (do fs ← parse_object; pure (object_ptr fs))
      else (do es ← parse_array; pure (array_ptr es))

abbrev pub at_end : Option (Value × Bytes) → Option Value
at_end none = none
at_end (some (v, rest)) = if is_empty (skip_ws rest) then some v else none

module _ (io : Doubles) where
  -- parseValue at a character; `nested` parses an object or an array.
  unfoldable pub parse_at : (ℕ → Reader Value) → Reader Value
  parse_at nested [] = none
  parse_at nested (c ∷ bs) =
      if c == 34
      then string_result (parse_string (c ∷ bs))
      else if c == 123 || c == 91
      then nested c (c ∷ bs)
      else if c == 110
      then word_value null_value (take_word (ascii "null") (c ∷ bs))
      else if c == 116
      then word_value (bool_value true) (take_word (ascii "true") (c ∷ bs))
      else if c == 102
      then word_value (bool_value false) (take_word (ascii "false") (c ∷ bs))
      else if c == 45 || is_ascii_digit c
      then parse_number io (c ∷ bs)
      else none

  -- `room` is kMaxNestingDepth - depth_.
  unfoldable pub parse_value : ℕ → Reader Value
  parse_value zero bs = parse_at (λ c. fail) (skip_ws bs)
  parse_value (suc room) bs = parse_at (parse_nested (parse_value room)) (skip_ws bs)

  unfoldable pub value_from_json_string : Bytes → Option Value
  value_from_json_string json = at_end (parse_value max_nesting_depth json)
