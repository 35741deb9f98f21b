-- ===== src/Json/Termination.antt =====
-- Every loop of the parser of src/io/Json.cpp ends within the length of its input.
use pp_cpp_common.Common.{
  Bytes, [], arith, false, if-holds, length, none, refl, suc, true, zero, ℕ, ◌==◌, ◌||◌, ◌∷◌, ◌≡◌,
  ◌≤◌,
}
use pp_cpp_common.Json.Fuel.{
  IsNonGrowing, parse_number-IsNonGrowing, skip-IsNonGrowing, string_result-Within,
  take_word-Within, then-Within,
}
use pp_cpp_common.Json.LoopFuel.{
  parse_elements-IsNonGrowing, parse_elements_enough, parse_fields-IsNonGrowing,
  parse_fields_enough,
}
use pp_cpp_common.Json.Numbers.{Doubles, is_ascii_digit}
use pp_cpp_common.Json.Parser.{
  expect, parse_array, parse_at, parse_elements, parse_fields, parse_nested, parse_object,
  parse_value, skip, try_consume,
}
use pp_cpp_common.Json.Shrinks.{
  Within, Within-weaken, expect-Within, length-skip_ws, try_consume-Within,
}
use pp_cpp_common.Json.StringFuel.{parse_chars_enough, parse_string-Within}
use pp_cpp_common.Json.Strings.{parse_chars, parse_string, skip_ws}
use pp_cpp_common.Results.{ascii}
use pp_cpp_common.Value.{Elements, Fields, Value, bool_value, no_elements, no_fields, null_value}
use pp_cpp_common.Wire.Reader.{Reader, fail, pure}

module _ (decode : Reader Value) (nongrowing : IsNonGrowing decode) (empty : decode [] ≡ none) where
  parse_object-IsNonGrowing : IsNonGrowing (parse_object decode)
  unfolding parse_object
  parse_object-IsNonGrowing bs =
      let n = length bs in
      then-Within n (expect 123) _ (expect-Within 123)
        (λ _. then-Within n skip _ skip-IsNonGrowing (λ _.
          then-Within n (try_consume 125) _ (try_consume-Within 125) (λ closed.
            elim closed
              as (λ closed.
                (rest : Bytes)
                → length rest ≤ n
                → Within n (
                    (elim closed as (λ _. Reader Fields) [
                      | true ↦ pure no_fields
                      | false ↦ λ bs. parse_fields decode (length bs) no_fields bs
                    ])
                      rest)) [
                        | true ↦ λ rest le. le
                        | false ↦ λ rest le.
                            Within-weaken _ n (parse_fields decode (length rest) no_fields rest) le
                              (parse_fields-IsNonGrowing decode nongrowing empty (length rest)
                                no_fields rest)
                      ])))
        bs (omega arith)

  parse_array-IsNonGrowing : IsNonGrowing (parse_array decode)
  unfolding parse_array
  parse_array-IsNonGrowing bs =
      let n = length bs in
      then-Within n (expect 91) _ (expect-Within 91)
        (λ _. then-Within n skip _ skip-IsNonGrowing (λ _.
          then-Within n (try_consume 93) _ (try_consume-Within 93) (λ closed.
            elim closed
              as (λ closed.
                (rest : Bytes)
                → length rest ≤ n
                → Within n (
                    (elim closed as (λ _. Reader Elements) [
                      | true ↦ pure no_elements
                      | false ↦ λ bs. parse_elements decode (length bs) bs
                    ])
                      rest)) [
                        | true ↦ λ rest le. le
                        | false ↦ λ rest le.
                            Within-weaken _ n (parse_elements decode (length rest) rest) le (
                              parse_elements-IsNonGrowing decode nongrowing empty (length rest)
                                rest)
                      ])))
        bs (omega arith)

  parse_nested-IsNonGrowing : (c : ℕ) → IsNonGrowing (parse_nested decode c)
  unfolding parse_nested
  parse_nested-IsNonGrowing c bs =
      let n = length bs in
      if-holds (λ (r : Reader Value). Within n (r bs)) (c == 123) _ _
        (then-Within n (parse_object decode) _ parse_object-IsNonGrowing (λ fs rest le. le) bs
          (omega arith))
        (then-Within n (parse_array decode) _ parse_array-IsNonGrowing (λ es rest le. le) bs
          (omega arith))

parse_at-IsNonGrowing :
    (io : Doubles) (nested : ℕ → Reader Value)
    → ((c : ℕ) → IsNonGrowing (nested c))
    → IsNonGrowing (parse_at io nested)
unfolding parse_at
parse_at-IsNonGrowing io nested h [] = tt
parse_at-IsNonGrowing io nested h (c ∷ bs) =
    let W = Within {A = Value} (suc (length bs)) in
    if-holds W (c == 34) _ _
      (string_result-Within (suc (length bs)) (parse_string (c ∷ bs))
        (Within-weaken _ _ (parse_string (c ∷ bs)) (omega arith) (parse_string-Within (c ∷ bs))))
      (if-holds W (c == 123 || c == 91) _ _ (h c (c ∷ bs)) (
        if-holds W (c == 110) _ _ (take_word-Within null_value (ascii "null") (c ∷ bs)) (
          if-holds W (c == 116) _ _ (take_word-Within (bool_value true) (ascii "true") (c ∷ bs)) (
            if-holds W (c == 102) _ _ (take_word-Within (bool_value false) (ascii "false") (c ∷ bs))
              (if-holds W (c == 45 || is_ascii_digit c) _ none
                (parse_number-IsNonGrowing io (c ∷ bs)) tt)))))

module _ (io : Doubles) where
  parse_value-empty : (room : ℕ) → parse_value io room [] ≡ none
  unfolding parse_value parse_at
  parse_value-empty zero = refl
  parse_value-empty (suc room) = refl

  parse_value-IsNonGrowing : (room : ℕ) → IsNonGrowing (parse_value io room)
  unfolding parse_value
  parse_value-IsNonGrowing zero bs =
      Within-weaken _ _ (parse_at io (λ c. fail) (skip_ws bs)) (length-skip_ws bs)
        (parse_at-IsNonGrowing io (λ c. fail) (λ c cs. tt) (skip_ws bs))
  parse_value-IsNonGrowing (suc room) bs =
      let nested = parse_nested (parse_value io room) in
      Within-weaken _ _ (parse_at io nested (skip_ws bs)) (length-skip_ws bs) (
        parse_at-IsNonGrowing io nested
          (parse_nested-IsNonGrowing (parse_value io room) (parse_value-IsNonGrowing room)
            (parse_value-empty room))
          (skip_ws bs))

  -- For the loops of parseObject, of parseArray around parseValue at any depth, and of parseString,
  -- the length of the input is enough fuel: more fuel gives the same result, on every input, so
  -- that a refusal is never for want of rounds.
  pub parse_loops_enough :
      (room fuel : ℕ) (out : Fields) (bs : Bytes)
      → length bs ≤ fuel
      → (parse_fields (parse_value io room) fuel out bs
          ≡ parse_fields (parse_value io room) (length bs) out bs)
        × (parse_elements (parse_value io room) fuel bs
            ≡ parse_elements (parse_value io room) (length bs) bs)
        × (parse_chars fuel bs ≡ parse_chars (length bs) bs)
  parse_loops_enough room fuel out bs le =
      let shorter = parse_value-IsNonGrowing room in
      let empty = parse_value-empty room in
      (
        parse_fields_enough (parse_value io room) shorter empty fuel (length bs) out bs le
            (omega arith),
        parse_elements_enough (parse_value io room) shorter empty fuel (length bs) bs le
            (omega arith),
        parse_chars_enough fuel (length bs) bs le (omega arith),
      )
