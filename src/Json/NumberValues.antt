-- ===== src/Json/NumberValues.antt =====
-- `parseNumber` on the numbers that the encoder writes.
use native.Mathlib.Nat.{mul-le-mul_right, pow-le-pow_right, pow-suc}
use pp_cpp_common.Common.{
  All, Bool, Bool-cases, Bytes, [], ap, append-nil, arith, false, if◌then◌else◌, inl, inr, is_empty,
  length, ltb, not, refl, some, subst, suc, sym, true, zero, ℕ, ◌%◌, ◌&&◌, ◌*◌, ◌++◌, ◌+◌, ◌/◌, ◌<◌,
  ◌==◌, ◌^◌, ◌∙◌, ◌∷◌, ◌≡◌, ◌≢◌, ◌≤◌,
}
use pp_cpp_common.Common.Int.{FitsInt, negsuc, pos, ℤ}
use pp_cpp_common.Json.NumberText.{
  IsNumberText, IsWhole, NumberText, SomeDigits, continues, is_float, minus, parse_number-spell,
  spell, starts,
}
use pp_cpp_common.Json.Numbers.{
  Doubles, as_int64, checked_double, from_chars, is_finite, lift_value, number_value, parse_number,
  signed_of, signed_to_string,
}
use pp_cpp_common.Value.{Value, double_value, int64_value}
use pp_cpp_common.Value.Decimal.{IsDecimal, starts_digit-IsDecimal, to_string-digits}
use pp_cpp_common.Value.Numbers.{decimal, digit_value, int64_max, scan, to_string}

-- A subnormal double: the least exponent, and a fraction that is not zero.
unfoldable pub is_subnormal : ℕ → Bool
is_subnormal d = d / 2 ^ 52 % 2 ^ 11 == 0 && not (d % 2 ^ 52 == 0)

abbrev pub whole_int : Bool → ℕ → ℤ
whole_int false n = pos n
whole_int true zero = pos 0
whole_int true (suc n) = negsuc n

-- How the C library prints doubles at precision 17: as a number of the grammar, with at most 17
-- digits before the point, from which strtod reads the double back. It may set ERANGE where it
-- reads a subnormal double.
pub record PrintsDoubles (io : Doubles) : Type 0 where
  pub text : ℕ → NumberText
  pub spelled : (d : ℕ) → io.print_double d ≡ spell (text d)
  pub grammar : (d : ℕ) → d < 2 ^ 64 → is_finite d ≡ true → IsNumberText (text d)
  pub digits : (d : ℕ) → d < 2 ^ 64 → is_finite d ≡ true → length (text d).whole ≤ 17
  pub read_back :
      (d : ℕ)
      → d < 2 ^ 64
      → is_finite d ≡ true
      → is_subnormal d ≡ false
      → is_float (text d) ≡ true
      → io.strtod (io.print_double d) ≡ (d, length (io.print_double d), false)

scan_all : (n : ℕ) (ds : Bytes) → All IsDecimal ds → (scan 10 n ds).1 ≡ []
unfolding scan
scan_all n [] h = refl
scan_all n (d ∷ ds) h = ground (arith, h.0, scan_all (n * 10 + digit_value d) ds h.1)

scaled : (a p q : ℕ) → q ≡ p * 10 → a * q ≡ a * 10 * p
scaled a p q e = rw e (grind arith)

scan_bound : (n : ℕ) (ds : Bytes) → All IsDecimal ds → (scan 10 n ds).0 < (n + 1) * 10 ^ length ds
unfolding scan
scan_bound n [] h = omega arith
scan_bound n (d ∷ ds) h =
    let v = digit_value d in
    let small : v < 10 = ground (arith, h.0) in
    let digit : ltb v 10 ≡ true = ground arith in
    let wider : n * 10 + v + 1 ≤ (n + 1) * 10 = omega arith in
    let grown : (n * 10 + v + 1) * 10 ^ length ds ≤ (n + 1) * 10 * 10 ^ length ds =
      mul-le-mul_right (10 ^ length ds) wider in
    let shape = scaled (n + 1) (10 ^ length ds) (10 ^ suc (length ds)) (pow-suc 10 (length ds)) in
    rw digit (omega (arith, scan_bound (n * 10 + v) ds h.1, grown, shape))

signed_of-whole_int :
    (negative : Bool) (n : ℕ) → n ≤ int64_max → signed_of negative n ≡ some (whole_int negative n)
unfolding signed_of
signed_of-whole_int false n h = ground arith
signed_of-whole_int true zero h = refl
signed_of-whole_int true (suc n) h = ground arith

from_chars_digits :
    (negative : Bool) (ds : Bytes) (n : ℕ)
    → SomeDigits ds
    → scan 10 0 ds ≡ (n, [])
    → from_chars (minus negative ++ ds) ≡ signed_of negative n
unfolding from_chars
from_chars_digits negative [] n h e = elim h [ ]
from_chars_digits true (d ∷ ds) n h e = rw (starts_digit-IsDecimal d ds h.0, e) refl
from_chars_digits false (d ∷ ds) n h e =
    let unsigned : (d == 45) ≡ false = ground (arith, h.0) in
    rw unsigned (rw (starts_digit-IsDecimal d ds h.0, e) refl)

-- No digit stands behind a leading zero.
abbrev Leads : Bytes → Type 0
Leads [] = ⊥
Leads (d ∷ ds) = d ≢ 48

decimal-Leads : (fuel n : ℕ) (acc : Bytes) → 1 ≤ n → n < 10 ^ fuel → Leads (decimal fuel n acc)
unfolding decimal
decimal-Leads zero n acc low h = absurd (ground arith)
decimal-Leads (suc fuel) n acc low h = elim (Bool-cases (ltb n 10)) [
  | inl small ↦ rw small (ground arith)
  | inr large ↦
      let less : n / 10 < 10 ^ fuel = omega (arith, pow-suc 10 fuel, h) in
      rw large (decimal-Leads fuel (n / 10) ((48 + n % 10) ∷ acc) (ground arith) less)
]

IsWhole-Leads : (ds : Bytes) → SomeDigits ds → Leads ds → IsWhole ds
IsWhole-Leads [] h l = elim h [ ]
IsWhole-Leads (d ∷ ds) h l = (h.0, h.1, λ e. absurd (l e))

pub to_string-SomeDigits : (n : ℕ) → n < 2 ^ 64 → SomeDigits (to_string n)
to_string-SomeDigits n h =
    let (b, bs, e, decimal', digits) = to_string-digits n h in subst SomeDigits (sym e) decimal'

pub to_string-IsWhole : (n : ℕ) → n < 2 ^ 64 → IsWhole (to_string n)
unfolding to_string
to_string-IsWhole zero h = unfold decimal in ((omega arith, omega arith), tt, λ e. refl)
to_string-IsWhole (suc n) h =
    IsWhole-Leads (to_string (suc n)) (to_string-SomeDigits (suc n) h)
      (decimal-Leads 20 (suc n) [] (omega arith) (omega (arith, h)))

pub scan-to_string : (n : ℕ) → n < 2 ^ 64 → scan 10 0 (to_string n) ≡ (n, [])
scan-to_string n h =
    let (b, bs, e, decimal', digits) = to_string-digits n h in ap (scan 10 0) e ∙ digits

abbrev pub magnitude : ℤ → ℕ
magnitude (pos n) = n
magnitude (negsuc n) = suc n

abbrev pub is_negative : ℤ → Bool
is_negative (pos n) = false
is_negative (negsuc n) = true

abbrev pub int_text : ℤ → NumberText
int_text i = record {
  negative = is_negative i;
  whole = to_string (magnitude i);
  fraction = [];
  exponent = [];
}

pub signed_to_string-spell : (i : ℤ) → signed_to_string i ≡ spell (int_text i)
unfolding signed_to_string spell
signed_to_string-spell (pos n) = sym (append-nil (to_string n))
signed_to_string-spell (negsuc n) = ap (λ bs. 45 ∷ bs) (sym (append-nil (to_string (suc n))))

pub magnitude-lt : (i : ℤ) → FitsInt (2 ^ 63) i → magnitude i < 2 ^ 64
magnitude-lt (pos n) h = omega (arith, h)
magnitude-lt (negsuc n) h = omega (arith, h)

signed_of_int : (i : ℤ) → FitsInt (2 ^ 63) i → signed_of (is_negative i) (magnitude i) ≡ some i
unfolding signed_of
signed_of_int (pos n) h = ground (arith, h)
signed_of_int (negsuc n) h = ground (arith, h)

from_chars_int : (i : ℤ) → FitsInt (2 ^ 63) i → from_chars (spell (int_text i)) ≡ some i
unfolding spell
from_chars_int i h =
    let bound = magnitude-lt i h in
    let n = magnitude i in
    ap (λ bs. from_chars (minus (is_negative i) ++ bs)) (append-nil (to_string n))
    ∙ from_chars_digits (is_negative i) (to_string n) n (to_string-SomeDigits n bound)
        (scan-to_string n bound)
    ∙ signed_of_int i h

pub parse_number-signed_to_string :
    (io : Doubles) (i : ℤ) (rest : Bytes)
    → FitsInt (2 ^ 63) i
    → starts continues rest ≡ false
    → parse_number io (signed_to_string i ++ rest) ≡ some (int64_value i, rest)
parse_number-signed_to_string io i rest h e =
    let whole = to_string-IsWhole (magnitude i) (magnitude-lt i h) in
    ap (λ bs. parse_number io (bs ++ rest)) (signed_to_string-spell i)
    ∙ parse_number-spell io (int_text i) rest (whole, tt, tt) e
    ∙ unfold is_float in ap (λ o. lift_value (as_int64 o) rest) (from_chars_int i h)

SomeDigits-IsWhole : (ds : Bytes) → IsWhole ds → SomeDigits ds
SomeDigits-IsWhole [] h = h
SomeDigits-IsWhole (d ∷ ds) h = (h.0, h.1)

All-SomeDigits : (ds : Bytes) → SomeDigits ds → All IsDecimal ds
All-SomeDigits [] h = tt
All-SomeDigits (d ∷ ds) h = h

pow-le_17 : (k : ℕ) → k ≤ 17 → 10 ^ k ≤ 10 ^ 17
pow-le_17 k h = pow-le-pow_right (omega arith) h

checked_back :
    (d : ℕ) (bs : Bytes) {result : ℕ × ℕ × Bool}
    → is_finite d ≡ true
    → result ≡ (d, length bs, false)
    → checked_double bs result ≡ some (double_value d)
checked_back d bs f e = rw (e, f) (ground arith)

is_empty→nil : (bs : Bytes) → is_empty bs ≡ true → bs ≡ []
is_empty→nil [] h = refl
is_empty→nil (b ∷ bs) h = cc

no_tail : (t : NumberText) → is_float t ≡ false → spell t ≡ minus t.negative ++ t.whole
unfolding is_float spell
no_tail t h =
    let fraction : t.fraction ≡ [] = is_empty→nil t.fraction (ground arith) in
    let exponent : t.exponent ≡ [] = is_empty→nil t.exponent (ground arith) in
    ap (λ bs. minus t.negative ++ (t.whole ++ (bs ++ t.exponent))) fraction
    ∙ ap (λ bs. minus t.negative ++ (t.whole ++ bs)) exponent
    ∙ ap (λ bs. minus t.negative ++ bs) (append-nil t.whole)

from_chars_whole :
    (t : NumberText)
    → IsNumberText t
    → length t.whole ≤ 17
    → is_float t ≡ false
    → from_chars (spell t) ≡ some (whole_int t.negative (scan 10 0 t.whole).0)
from_chars_whole t h short e =
    let digits = SomeDigits-IsWhole t.whole h.0 in
    let all = All-SomeDigits t.whole digits in
    let n = (scan 10 0 t.whole).0 in
    let bound : n < 10 ^ 17 =
      omega (arith, scan_bound 0 t.whole all, pow-le_17 (length t.whole) short) in
    ap from_chars (no_tail t e)
    ∙ from_chars_digits t.negative t.whole n digits (ap (λ r. (n, r)) (scan_all 0 t.whole all))
    ∙ signed_of-whole_int t.negative n (omega (arith, bound))

-- What is read back for a double: itself where the text has a fraction or an exponent, and else the
-- integer that is printed.
module _ (io : Doubles) (p : PrintsDoubles io) where
  unfoldable pub double_back : ℕ → Value
  double_back d =
      let t = p.text d in
      if is_float t
      then double_value d
      else int64_value (whole_int t.negative (scan 10 0 t.whole).0)

  double_value_back :
      (d : ℕ)
      → d < 2 ^ 64
      → is_finite d ≡ true
      → is_subnormal d ≡ false
      → number_value io (is_float (p.text d)) (spell (p.text d)) ≡ some (double_back d)
  unfolding double_back
  double_value_back d h f n = elim (Bool-cases (is_float (p.text d))) [
    | inl float ↦ rw float (
        checked_back d _ f (
          sym (ap io.strtod (p.spelled d))
          ∙ p.read_back d h f n float
          ∙ ap (λ bs. (d, length bs, false)) (p.spelled d)))
    | inr whole ↦
        rw whole
          (ap as_int64 (from_chars_whole (p.text d) (p.grammar d h f) (p.digits d h f) whole))
  ]

  pub parse_number-print_double :
      (d : ℕ) (rest : Bytes)
      → d < 2 ^ 64
      → is_finite d ≡ true
      → is_subnormal d ≡ false
      → starts continues rest ≡ false
      → parse_number io (io.print_double d ++ rest) ≡ some (double_back d, rest)
  parse_number-print_double d rest h f n e =
      ap (λ bs. parse_number io (bs ++ rest)) (p.spelled d)
      ∙ parse_number-spell io (p.text d) rest (p.grammar d h f) e
      ∙ ap (λ o. lift_value o rest) (double_value_back d h f n)
