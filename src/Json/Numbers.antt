-- ===== src/Json/Numbers.antt =====
-- `Parser::parseNumber` of src/io/Json.cpp, and std::from_chars of an int64_t and std::to_string of
-- one as the C++ standard describes them. strtod and the printing of a double are parameters.
use pp_cpp_common.Common.{
  Bool, Bytes, Option, [], false, if◌then◌else◌, is_empty, leb, length, ltb, none, not, some, suc,
  true, zero, ℕ, ◌%◌, ◌&&◌, ◌++◌, ◌/◌, ◌==◌, ◌^◌, ◌||◌, ◌∷◌,
}
use pp_cpp_common.Common.Int.{negsuc, pos, ℤ}
use pp_cpp_common.Value.{Value, double_value, int64_value}
use pp_cpp_common.Value.Numbers.{int64_max, scan, starts_digit, to_string}
use pp_cpp_common.Wire.Reader.{Reader, ◌>>=◌}

abbrev pub is_ascii_digit : ℕ → Bool
is_ascii_digit c = leb 48 c && leb c 57

-- What the standard library does with doubles. `strtod` gives the double, how many characters it
-- took, and whether it set ERANGE; `print_double` is the stream at precision 17.
pub record Doubles : Type 0 where
  pub print_double : ℕ → Bytes
  pub strtod : Bytes → ℕ × ℕ × Bool

-- std::isfinite of a bit pattern: the exponent is not all ones.
unfoldable pub is_finite : ℕ → Bool
is_finite d = not (d / 2 ^ 52 % 2 ^ 11 == 2047)

unfoldable pub take_digits : Bytes → Bytes × Bytes
take_digits [] = ([], [])
take_digits (c ∷ bs) =
    let (digits, rest) = take_digits bs in
    if is_ascii_digit c then (c ∷ digits, rest) else ([], c ∷ bs)

-- At least one digit.
unfoldable pub take_some_digits : Reader Bytes
take_some_digits [] = none
take_some_digits (c ∷ bs) = if is_ascii_digit c then some (take_digits (c ∷ bs)) else none

abbrev pub take_minus : Reader Bytes
take_minus [] = some ([], [])
take_minus (c ∷ bs) = if c == 45 then some (45 ∷ [], bs) else some ([], c ∷ bs)

unfoldable pub take_whole : Reader Bytes
take_whole [] = none
take_whole (c ∷ bs) = if c == 48 then some (48 ∷ [], bs) else take_some_digits (c ∷ bs)

abbrev pub ahead : Bytes → Option (Bytes × Bytes) → Option (Bytes × Bytes)
ahead piece none = none
ahead piece (some (s, rest)) = some (piece ++ s, rest)

unfoldable pub take_fraction : Reader Bytes
take_fraction [] = some ([], [])
take_fraction (c ∷ bs) =
    if c == 46 then ahead (46 ∷ []) (take_some_digits bs) else some ([], c ∷ bs)

abbrev pub take_exponent_digits : ℕ → Reader Bytes
take_exponent_digits e [] = none
take_exponent_digits e (c ∷ bs) =
    if c == 43 || c == 45
    then ahead (e ∷ c ∷ []) (take_some_digits bs)
    else ahead (e ∷ []) (take_some_digits (c ∷ bs))

unfoldable pub take_exponent : Reader Bytes
take_exponent [] = some ([], [])
take_exponent (c ∷ bs) =
    if c == 101 || c == 69 then take_exponent_digits c bs else some ([], c ∷ bs)

-- The number below a sign, within int64_t.
unfoldable pub signed_of : Bool → ℕ → Option ℤ
signed_of false n = if ltb int64_max n then none else some (pos n)
signed_of true zero = some (pos 0)
signed_of true (suc n) = if ltb int64_max n then none else some (negsuc n)

abbrev pub whole_number : Bool → ℕ × Bytes → Option ℤ
whole_number negative (n, []) = signed_of negative n
whole_number negative (n, c ∷ bs) = none

unfoldable pub from_chars : Bytes → Option ℤ
from_chars [] = none
from_chars (c ∷ bs) =
    let digits = if c == 45 then bs else c ∷ bs in
    if starts_digit 10 digits then whole_number (c == 45) (scan 10 0 digits) else none

-- std::to_string of an int64_t.
unfoldable pub signed_to_string : ℤ → Bytes
signed_to_string (pos n) = to_string n
signed_to_string (negsuc n) = 45 ∷ to_string (suc n)

abbrev pub as_int64 : Option ℤ → Option Value
as_int64 none = none
as_int64 (some i) = some (int64_value i)

abbrev pub checked_double : Bytes → ℕ × ℕ × Bool → Option Value
checked_double num (d, taken, erange) =
    if erange || not (taken == length num) || not (is_finite d) then none else some (double_value d)

abbrev pub lift_value : Option Value → Reader Value
lift_value none bs = none
lift_value (some v) bs = some (v, bs)

module _ (io : Doubles) where
  -- The value of a token that has a fraction or an exponent, or has neither.
  abbrev pub number_value : Bool → Bytes → Option Value
  number_value is_float num =
      if is_float then checked_double num (io.strtod num) else as_int64 (from_chars num)

  unfoldable pub parse_number : Reader Value
  parse_number = do
    sign ← take_minus
    whole ← take_whole
    fraction ← take_fraction
    exponent ← take_exponent
    lift_value (
        number_value (not (is_empty fraction && is_empty exponent))
          (sign ++ (whole ++ (fraction ++ exponent))))
