-- ===== src/Json/StringFuel.antt =====
-- The loop of parseString of src/io/Json.cpp, and the pieces of parseNumber: what they leave, and how
-- many rounds are enough.
use pp_cpp_common.Common.{
  Bytes, Option, [], ap, arith, if-holds, if◌then◌else◌, length, none, refl, some, suc, zero, ℕ,
  ◌-◌, ◌==◌, ◌||◌, ◌∷◌, ◌≡◌, ◌≤◌,
}
use pp_cpp_common.Json.Numbers.{
  ahead, is_ascii_digit, lift_value, take_digits, take_exponent, take_exponent_digits,
  take_fraction, take_minus, take_some_digits, take_whole,
}
use pp_cpp_common.Json.Shrinks.{Within, Within-weaken, length-skip_ws, parse_char-Within}
use pp_cpp_common.Json.Strings.{
  behind_quote, parse_char, parse_chars, parse_string, put_before, skip_ws,
}
use pp_cpp_common.Value.{Value}

abbrev chars_step : ℕ → Option (Bytes × Bytes) → Option (Bytes × Bytes)
chars_step fuel none = none
chars_step fuel (some (piece, rest)) = put_before piece (parse_chars fuel rest)

put_before-Within :
    (piece : Bytes) (n : ℕ) (o : Option (Bytes × Bytes))
    → Within n o
    → Within n (put_before piece o)
put_before-Within piece n none h = tt
put_before-Within piece n (some (s, rest)) h = h

pub parse_chars-Within : (fuel : ℕ) (bs : Bytes) → Within (length bs) (parse_chars fuel bs)
unfolding parse_chars
parse_chars-Within zero bs = tt
parse_chars-Within (suc fuel) [] = tt
parse_chars-Within (suc fuel) (c ∷ bs) =
    let step : (o : Option (Bytes × Bytes))
        → Within (length bs) o
        → Within (suc (length bs)) (chars_step fuel o) =
      λ o. elim o as (λ o. Within (length bs) o → Within (suc (length bs)) (chars_step fuel o)) [
        | none ↦ λ h. tt
        | some (piece, rest) ↦ λ h.
            put_before-Within piece (suc (length bs)) (parse_chars fuel rest) (
              Within-weaken _ _ (parse_chars fuel rest) (omega (arith, h))
                (parse_chars-Within fuel rest))
      ] in
    if-holds (Within (suc (length bs))) (c == 34) (some ([], bs)) _ (omega arith)
      (step (parse_char c bs) (parse_char-Within c bs))

-- Any two amounts of fuel that reach the length of the input give the same.
pub parse_chars_enough :
    (f g : ℕ) (bs : Bytes) → length bs ≤ f → length bs ≤ g → parse_chars f bs ≡ parse_chars g bs
unfolding parse_chars
parse_chars_enough zero zero bs h k = refl
parse_chars_enough zero (suc g) [] h k = refl
parse_chars_enough zero (suc g) (c ∷ bs) h k = absurd (omega (arith, h))
parse_chars_enough (suc f) zero [] h k = refl
parse_chars_enough (suc f) zero (c ∷ bs) h k = absurd (omega (arith, k))
parse_chars_enough (suc f) (suc g) [] h k = refl
parse_chars_enough (suc f) (suc g) (c ∷ bs) h k =
    let step : (o : Option (Bytes × Bytes))
        → Within (length bs) o
        → chars_step f o ≡ chars_step g o =
      λ o. elim o as (λ o. Within (length bs) o → chars_step f o ≡ chars_step g o) [
        | none ↦ λ w. refl
        | some (piece, rest) ↦ λ w.
            ap (put_before piece)
              (parse_chars_enough f g rest (omega (arith, h, w)) (omega (arith, k, w)))
      ] in
    ap (λ o. if c == 34 then some ([], bs) else o) (step (parse_char c bs) (parse_char-Within c bs))

-- The string takes its quotes at least.
pub parse_string-Within : (bs : Bytes) → Within (length bs - 1) (parse_string bs)
unfolding parse_string
parse_string-Within bs =
    let quoted : (cs : Bytes) → Within (length cs - 1) (behind_quote cs) = λ cs.
      elim cs as (λ cs. Within (length cs - 1) (behind_quote cs)) [
        | [] ↦ tt
        | c ∷ cs ↦
            if-holds (Within (suc (length cs) - 1)) (c == 34) (parse_chars (length cs) cs) none
              (Within-weaken (length cs) _ (parse_chars (length cs) cs) (omega arith)
                (parse_chars-Within (length cs) cs))
              tt
      ] in
    Within-weaken _ _ (behind_quote (skip_ws bs)) (omega (arith, length-skip_ws bs))
      (quoted (skip_ws bs))

take_digits-Within : (bs : Bytes) → length (take_digits bs).1 ≤ length bs
unfolding take_digits
take_digits-Within [] = omega arith
take_digits-Within (c ∷ bs) =
    if-holds (λ (p : Bytes × Bytes). length p.1 ≤ suc (length bs)) (is_ascii_digit c)
      (c ∷ (take_digits bs).0, (take_digits bs).1) ([], c ∷ bs)
      (omega (arith, take_digits-Within bs)) (omega arith)

take_some_digits-Within : (bs : Bytes) → Within (length bs) (take_some_digits bs)
unfolding take_some_digits
take_some_digits-Within [] = tt
take_some_digits-Within (c ∷ bs) =
    if-holds (Within (suc (length bs))) (is_ascii_digit c) (some (take_digits (c ∷ bs))) none
      (take_digits-Within (c ∷ bs)) tt

ahead-Within :
    (piece : Bytes) (n : ℕ) (o : Option (Bytes × Bytes)) → Within n o → Within n (ahead piece o)
ahead-Within piece n none h = tt
ahead-Within piece n (some (s, rest)) h = h

-- The digits behind a character.
behind_char :
    (piece bs : Bytes) (c : ℕ) → Within (length (c ∷ bs)) (ahead piece (take_some_digits bs))
behind_char piece bs c =
    Within-weaken (length bs) _ (ahead piece (take_some_digits bs)) (omega arith)
      (ahead-Within piece (length bs) (take_some_digits bs) (take_some_digits-Within bs))

pub take_minus-Within : (bs : Bytes) → Within (length bs) (take_minus bs)
take_minus-Within [] = omega arith
take_minus-Within (c ∷ bs) =
    if-holds (Within (suc (length bs))) (c == 45) _ _ (omega arith) (omega arith)

pub take_whole-Within : (bs : Bytes) → Within (length bs) (take_whole bs)
unfolding take_whole
take_whole-Within [] = tt
take_whole-Within (c ∷ bs) =
    if-holds (Within (suc (length bs))) (c == 48) (some (48 ∷ [], bs)) (take_some_digits (c ∷ bs))
      (omega arith) (take_some_digits-Within (c ∷ bs))

pub take_fraction-Within : (bs : Bytes) → Within (length bs) (take_fraction bs)
unfolding take_fraction
take_fraction-Within [] = omega arith
take_fraction-Within (c ∷ bs) =
    if-holds (Within (suc (length bs))) (c == 46) (ahead (46 ∷ []) (take_some_digits bs))
      (some ([], c ∷ bs)) (behind_char (46 ∷ []) bs c) (omega arith)

exponent_digits-Within : (e : ℕ) (bs : Bytes) → Within (length bs) (take_exponent_digits e bs)
exponent_digits-Within e [] = tt
exponent_digits-Within e (c ∷ bs) =
    if-holds (Within (suc (length bs))) (c == 43 || c == 45)
      (ahead (e ∷ c ∷ []) (take_some_digits bs)) (ahead (e ∷ []) (take_some_digits (c ∷ bs)))
      (behind_char (e ∷ c ∷ []) bs c)
      (ahead-Within (e ∷ []) (suc (length bs)) (take_some_digits (c ∷ bs))
        (take_some_digits-Within (c ∷ bs)))

pub take_exponent-Within : (bs : Bytes) → Within (length bs) (take_exponent bs)
unfolding take_exponent
take_exponent-Within [] = omega arith
take_exponent-Within (c ∷ bs) =
    if-holds (Within (suc (length bs))) (c == 101 || c == 69) (take_exponent_digits c bs)
      (some ([], c ∷ bs))
      (Within-weaken (length bs) _ (take_exponent_digits c bs) (omega arith)
        (exponent_digits-Within c bs))
      (omega arith)

pub lift_value-Within : (o : Option Value) (bs : Bytes) → Within (length bs) (lift_value o bs)
lift_value-Within none bs = tt
lift_value-Within (some v) bs = omega arith
