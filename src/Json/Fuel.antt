-- ===== src/Json/Fuel.antt =====
-- The loops of src/io/Json.cpp end: the length of the input is enough fuel for them.
use pp_cpp_common.Common.{
  Bytes, Option, [], arith, false, if-holds, length, none, refl, some, suc, true, ℕ, ◌-◌, ◌==◌, ◌∷◌,
  ◌≡◌, ◌≤◌,
}
use pp_cpp_common.Json.Numbers.{
  Doubles, lift_value, parse_number, take_exponent, take_fraction, take_minus, take_whole,
}
use pp_cpp_common.Json.Parser.{
  after_item, consume, expect, skip, string_result, take_word, try_consume, word_value,
}
use pp_cpp_common.Json.Shrinks.{
  >>=-Within, >>=-agrees, Within, Within-weaken, expect-Within, length-skip_ws, try_consume-Within,
}
use pp_cpp_common.Json.StringFuel.{
  lift_value-Within, take_exponent-Within, take_fraction-Within, take_minus-Within,
  take_whole-Within,
}
use pp_cpp_common.Json.Strings.{skip_ws}
use pp_cpp_common.Value.{Value}
use pp_cpp_common.Wire.Reader.{Reader, guard, ◌>>=◌, ◌>>◌}

abbrev pub IsNonGrowing {ℓ} : {A : Type ℓ} → Reader A → Type 0
IsNonGrowing r = (bs : Bytes) → Within (length bs) (r bs)

-- Within a bound that the input respects.
module _ {ℓ κ} {A : Type ℓ} {B : Type κ} (n : ℕ) where
  pub then-Within :
      (r : Reader A) (f : A → Reader B)
      → IsNonGrowing r
      → ((x : A) (rest : Bytes) → length rest ≤ n → Within n (f x rest))
      → (bs : Bytes) → length bs ≤ n
      → Within n ((r >>= f) bs)
  then-Within r f h k bs le =
      >>=-Within r f bs (length bs) n (h bs) (λ x rest l. k x rest (omega (arith, l, le)))

  pub then-agrees :
      (r : Reader A) (f g : A → Reader B)
      → IsNonGrowing r
      → ((x : A) (rest : Bytes) → length rest ≤ n → f x rest ≡ g x rest)
      → (bs : Bytes) → length bs ≤ n
      → (r >>= f) bs ≡ (r >>= g) bs
  then-agrees r f g h k bs le =
      >>=-agrees r f g bs (length bs) (h bs) (λ x rest l. k x rest (omega (arith, l, le)))

pub skip-IsNonGrowing : IsNonGrowing skip
skip-IsNonGrowing bs = length-skip_ws bs

pub parse_number-IsNonGrowing : (io : Doubles) → IsNonGrowing (parse_number io)
unfolding parse_number
parse_number-IsNonGrowing io bs =
    let n = length bs in
    then-Within n take_minus _ take_minus-Within
      (λ sign. then-Within n take_whole _ take_whole-Within (λ whole.
        then-Within n take_fraction _ take_fraction-Within (λ fraction.
          then-Within n take_exponent _ take_exponent-Within (λ exponent rest le.
            Within-weaken _ n (lift_value _ rest) le (lift_value-Within _ rest)))))
      bs (omega arith)

pub take_word-Within :
    (v : Value) (w bs : Bytes) → Within (length bs) (word_value v (take_word w bs))
unfolding take_word
take_word-Within v [] bs = omega arith
take_word-Within v (w ∷ ws) [] = tt
take_word-Within v (w ∷ ws) (b ∷ bs) =
    if-holds (λ o. Within (suc (length bs)) (word_value v o)) (b == w) (take_word ws bs) none
      (Within-weaken (length bs) _ (word_value v (take_word ws bs)) (omega arith)
        (take_word-Within v ws bs))
      tt

pub string_result-Within :
    (n : ℕ) (o : Option (Bytes × Bytes)) → Within n o → Within n (string_result o)
string_result-Within n none h = tt
string_result-Within n (some (s, rest)) h = h

-- What is expected is taken.
expected-Shrinks : (c : ℕ) (bs : Bytes) → Within (length bs - 1) ((consume c >>= guard) bs)
expected-Shrinks c [] = tt
expected-Shrinks c (b ∷ bs) =
    if-holds (λ o. Within (suc (length bs) - 1) (((λ _. o) >>= guard) (b ∷ bs))) (b == c)
      (some (true, bs)) (some (false, b ∷ bs)) (omega arith) tt

expect-Shrinks : (c : ℕ) (bs : Bytes) → Within (length bs - 1) (expect c bs)
unfolding expect try_consume
expect-Shrinks c bs =
    Within-weaken _ _ ((consume c >>= guard) (skip_ws bs)) (omega (arith, length-skip_ws bs))
      (expected-Shrinks c (skip_ws bs))

-- The end of a round.
module _ {ℓ} {A : Type ℓ} (n : ℕ) (close : ℕ) (done : Reader A) where
  pub after_item-Within :
      (again : Reader A)
      → ((rest : Bytes) → length rest ≤ n → Within n (done rest))
      → ((rest : Bytes) → length rest ≤ n → Within n (again rest))
      → (bs : Bytes) → length bs ≤ n
      → Within n (after_item close done again bs)
  unfolding after_item
  after_item-Within again h k = then-Within n skip _ skip-IsNonGrowing (λ _.
      then-Within n (try_consume close) _ (try_consume-Within close) (λ closed.
        elim closed
          as (λ closed.
            (rest : Bytes)
            → length rest ≤ n
            → Within n (
                (elim closed as (λ _. Reader A) [ true ↦ done | false ↦ do expect 44; again ])
                  rest)) [
                    | true ↦ h
                    | false ↦ then-Within n (expect 44) (λ _. again) (expect-Within 44) (λ _. k)
                  ]))

  pub after_item-agrees :
      (again again' : Reader A)
      → ((rest : Bytes) → length rest ≤ n - 1 → again rest ≡ again' rest)
      → (bs : Bytes) → length bs ≤ n
      → after_item close done again bs ≡ after_item close done again' bs
  unfolding after_item
  after_item-agrees again again' k = then-agrees n skip _ _ skip-IsNonGrowing (λ _.
      then-agrees n (try_consume close) _ _ (try_consume-Within close) (λ closed.
        elim closed
          as (λ closed.
            (rest : Bytes)
            → length rest ≤ n
            → (elim closed as (λ _. Reader A) [ true ↦ done | false ↦ do expect 44; again ]) rest
              ≡ (elim closed as (λ _. Reader A) [ true ↦ done | false ↦ do expect 44; again' ])
                  rest) [
                    | true ↦ λ rest le. refl
                    | false ↦ λ rest le.
                        >>=-agrees (expect 44) (λ _. again) (λ _. again') rest (length rest - 1)
                          (expect-Shrinks 44 rest) (λ _ left l. k left (omega (arith, l, le)))
                  ]))
