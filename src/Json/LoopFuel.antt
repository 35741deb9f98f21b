-- ===== src/Json/LoopFuel.antt =====
-- The loops of parseObject and parseArray of src/io/Json.cpp: the length of the input is enough fuel.
use pp_cpp_common.Common.{
  Bytes, Option, [], ap, arith, length, none, not, refl, suc, zero, ℕ, ◌∷◌, ◌≡◌, ◌≤◌,
}
use pp_cpp_common.Json.Fuel.{
  IsNonGrowing, after_item-Within, after_item-agrees, skip-IsNonGrowing, then-Within, then-agrees,
}
use pp_cpp_common.Json.Parser.{expect, parse_elements, parse_fields, skip}
use pp_cpp_common.Json.Shrinks.{Within-weaken, expect-Within, guard-Within}
use pp_cpp_common.Json.StringFuel.{parse_string-Within}
use pp_cpp_common.Json.Strings.{parse_string}
use pp_cpp_common.Value.{Elements, Fields, Value, contains, element, no_elements, set_field}
use pp_cpp_common.Wire.Reader.{Reader, guard, pure, ◌>>=◌}

module _ (decode : Reader Value) (nongrowing : IsNonGrowing decode) (empty : decode [] ≡ none) where
  string-IsNonGrowing : IsNonGrowing parse_string
  string-IsNonGrowing bs =
      Within-weaken _ _ (parse_string bs) (omega arith) (parse_string-Within bs)

  pub parse_fields-IsNonGrowing :
      (fuel : ℕ) (out : Fields) → IsNonGrowing (parse_fields decode fuel out)
  unfolding parse_fields
  parse_fields-IsNonGrowing zero out bs = tt
  parse_fields-IsNonGrowing (suc fuel) out bs =
      let n = length bs in
      then-Within n skip _ skip-IsNonGrowing
        (λ _. then-Within n parse_string _ string-IsNonGrowing (λ key.
          then-Within n (guard (not (contains key out))) _ (guard-Within _) (λ _.
            then-Within n (expect 58) _ (expect-Within 58) (λ _.
              then-Within n decode _ nongrowing (λ v.
                after_item-Within n 125 (pure (set_field key v out))
                  (parse_fields decode fuel (set_field key v out)) (λ rest le. le)
                  (λ rest le.
                    Within-weaken _ n (parse_fields decode fuel (set_field key v out) rest) le
                      (parse_fields-IsNonGrowing fuel (set_field key v out) rest)))))))
        bs (omega arith)

  pub parse_elements-IsNonGrowing : (fuel : ℕ) → IsNonGrowing (parse_elements decode fuel)
  unfolding parse_elements
  parse_elements-IsNonGrowing zero bs = tt
  parse_elements-IsNonGrowing (suc fuel) bs =
      let n = length bs in
      then-Within n decode _ nongrowing
        (λ v.
          after_item-Within n 93 (pure (element v no_elements)) _ (λ rest le. le)
            (then-Within n (parse_elements decode fuel) _ (parse_elements-IsNonGrowing fuel)
              (λ es rest le. le)))
        bs (omega arith)

  pub parse_fields_enough :
      (f g : ℕ) (out : Fields) (bs : Bytes)
      → length bs ≤ f
      → length bs ≤ g
      → parse_fields decode f out bs ≡ parse_fields decode g out bs
  unfolding parse_fields parse_string
  parse_fields_enough zero zero out bs h k = refl
  parse_fields_enough zero (suc g) out [] h k = refl
  parse_fields_enough zero (suc g) out (c ∷ bs) h k = absurd (omega (arith, h))
  parse_fields_enough (suc f) zero out [] h k = refl
  parse_fields_enough (suc f) zero out (c ∷ bs) h k = absurd (omega (arith, k))
  parse_fields_enough (suc f) (suc g) out bs h k =
      let n = length bs in
      then-agrees n skip _ _ skip-IsNonGrowing
        (λ _. then-agrees n parse_string _ _ string-IsNonGrowing (λ key.
          then-agrees n (guard (not (contains key out))) _ _ (guard-Within _) (λ _.
            then-agrees n (expect 58) _ _ (expect-Within 58) (λ _.
              then-agrees n decode _ _ nongrowing (λ v.
                after_item-agrees n 125 (pure (set_field key v out)) _ _ (λ rest le.
                  parse_fields_enough f g (set_field key v out) rest (omega (arith, le, h))
                    (omega (arith, le, k))))))))
        bs (omega arith)

  pub parse_elements_enough :
      (f g : ℕ) (bs : Bytes)
      → length bs ≤ f
      → length bs ≤ g
      → parse_elements decode f bs ≡ parse_elements decode g bs
  unfolding parse_elements
  parse_elements_enough zero zero bs h k = refl
  parse_elements_enough zero (suc g) [] h k = rw (empty, ◌>>=◌) refl
  parse_elements_enough zero (suc g) (c ∷ bs) h k = absurd (omega (arith, h))
  parse_elements_enough (suc f) zero [] h k = rw (empty, ◌>>=◌) refl
  parse_elements_enough (suc f) zero (c ∷ bs) h k = absurd (omega (arith, k))
  parse_elements_enough (suc f) (suc g) bs h k =
      let n = length bs in
      then-agrees n decode _ _ nongrowing
        (λ v. after_item-agrees n 93 (pure (element v no_elements)) _ _ (λ rest le.
          ap (λ (o : Option (Elements × Bytes)). ((λ _. o) >>= (λ es. pure (element v es))) rest)
            (parse_elements_enough f g rest (omega (arith, le, h)) (omega (arith, le, k)))))
        bs (omega arith)
