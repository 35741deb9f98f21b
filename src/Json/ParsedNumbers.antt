-- ===== src/Json/ParsedNumbers.antt =====
-- The numbers that the parser of src/io/Json.cpp can give.
use pp_cpp_common.Common.{
  Bool, Bytes, Option, [], ap, arith, false, if◌then◌else◌, none, refl, some, subst, suc, true,
  zero, ℕ, ◌==◌, ◌^◌, ◌∷◌, ◌≡◌,
}
use pp_cpp_common.Common.Int.{FitsInt, negsuc, pos, ℤ}
use pp_cpp_common.Json.Numbers.{
  Doubles, as_int64, checked_double, from_chars, lift_value, number_value, parse_number, signed_of,
  take_exponent, take_fraction, take_minus, take_whole, whole_number,
}
use pp_cpp_common.Json.Parsed.{IsParsed, some-injective}
use pp_cpp_common.Value.{Value, double_value}
use pp_cpp_common.Value.Numbers.{scan}
use pp_cpp_common.Wire.Reader.{>>=-eq-some, none_ne}

lift_value-eq-some :
    (o : Option Value) (bs : Bytes) {v : Value} {rest : Bytes}
    → lift_value o bs ≡ some (v, rest)
    → o ≡ some v
lift_value-eq-some none bs h = absurd (none_ne h)
lift_value-eq-some (some w) bs h = ap (λ o. elim o [ none ↦ none | some x ↦ some x.0 ]) h

-- A number within the range of int64_t.
signed_of-FitsInt :
    (negative : Bool) (n : ℕ) (i : ℤ) → signed_of negative n ≡ some i → FitsInt (2 ^ 63) i
unfolding signed_of
signed_of-FitsInt false n (pos m) h = ground arith
signed_of-FitsInt false n (negsuc m) h = ground arith
signed_of-FitsInt true zero (pos m) h = ground arith
signed_of-FitsInt true zero (negsuc m) h = ground arith
signed_of-FitsInt true (suc n) (pos m) h = ground arith
signed_of-FitsInt true (suc n) (negsuc m) h = ground arith

whole_number-FitsInt :
    (negative : Bool) (r : ℕ × Bytes) (i : ℤ)
    → whole_number negative r ≡ some i
    → FitsInt (2 ^ 63) i
whole_number-FitsInt negative (n, []) i h = signed_of-FitsInt negative n i h
whole_number-FitsInt negative (n, c ∷ bs) i h = absurd (none_ne h)

pub guarded :
    (b : Bool) {A : Type 0} (o : Option A) {a : A} → (if b then o else none) ≡ some a → o ≡ some a
guarded true o h = h
guarded false o h = absurd (none_ne h)

refused :
    (b : Bool) {A : Type 0} (o : Option A) {a : A}
    → (if b then none else o) ≡ some a
    → (b ≡ false) × (o ≡ some a)
refused true o h = absurd (none_ne h)
refused false o h = (refl, h)

from_chars-FitsInt : (num : Bytes) (i : ℤ) → from_chars num ≡ some i → FitsInt (2 ^ 63) i
unfolding from_chars
from_chars-FitsInt [] i h = absurd (none_ne h)
from_chars-FitsInt (c ∷ bs) i h =
    whole_number-FitsInt (c == 45) (scan 10 0 (if c == 45 then bs else c ∷ bs)) i (guarded _ _ h)

as_int64-IsParsed :
    (o : Option ℤ) (room : ℕ) (v : Value)
    → ((i : ℤ) → o ≡ some i → FitsInt (2 ^ 63) i)
    → as_int64 o ≡ some v
    → IsParsed v room
as_int64-IsParsed none room v f h = absurd (none_ne h)
as_int64-IsParsed (some i) room v f h = subst (λ w. IsParsed w room) (some-injective h) (f i refl)

checked_double-IsParsed :
    (num : Bytes) (result : ℕ × ℕ × Bool) (room : ℕ) (v : Value)
    → checked_double num result ≡ some v
    → IsParsed v room
checked_double-IsParsed num (d, taken, erange) room v h =
    let (passed, e) = refused _ (some (double_value d)) h in
    subst (λ w. IsParsed w room) (some-injective e) (ground arith)

number_value-IsParsed :
    (io : Doubles) (float : Bool) (num : Bytes) (room : ℕ) (v : Value)
    → number_value io float num ≡ some v
    → IsParsed v room
number_value-IsParsed io true num room v h = checked_double-IsParsed num (io.strtod num) room v h
number_value-IsParsed io false num room v h =
    as_int64-IsParsed (from_chars num) room v (from_chars-FitsInt num) h

pub number-IsParsed :
    (io : Doubles) (bs : Bytes) (room : ℕ) {v : Value} {rest : Bytes}
    → parse_number io bs ≡ some (v, rest)
    → IsParsed v room
unfolding parse_number
number-IsParsed io bs room {v} h =
    let (sign, b1, e1, h1) = >>=-eq-some take_minus _ bs h in
    let (whole, b2, e2, h2) = >>=-eq-some take_whole _ b1 h1 in
    let (fraction, b3, e3, h3) = >>=-eq-some take_fraction _ b2 h2 in
    let (exponent, b4, e4, h4) = >>=-eq-some take_exponent _ b3 h3 in
    number_value-IsParsed io _ _ room v (lift_value-eq-some _ b4 h4)
