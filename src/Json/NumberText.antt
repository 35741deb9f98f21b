-- ===== src/Json/NumberText.antt =====
-- The grammar of a JSON number, and `parseNumber` on it.
use pp_cpp_common.Common.{
  All, Bool, Bool-cases, Bytes, [], ap, append_assoc, arith, false, if◌then◌else◌, inl, inr,
  is_empty, not, refl, some, true, ℕ, ◌&&◌, ◌++◌, ◌==◌, ◌||◌, ◌∙◌, ◌∷◌, ◌≡◌, ◌⊎◌,
}
use pp_cpp_common.Json.Numbers.{
  Doubles, is_ascii_digit, lift_value, number_value, parse_number, take_digits, take_exponent,
  take_exponent_digits, take_fraction, take_minus, take_some_digits, take_whole,
}
use pp_cpp_common.Value.Decimal.{IsDecimal}
use pp_cpp_common.Wire.Reader.{◌>>=◌}

pub record NumberText : Type 0 where
  pub negative : Bool
  pub whole : Bytes
  pub fraction : Bytes
  pub exponent : Bytes

abbrev pub minus : Bool → Bytes
minus negative = if negative then 45 ∷ [] else []

unfoldable pub spell : NumberText → Bytes
spell t = minus t.negative ++ (t.whole ++ (t.fraction ++ t.exponent))

unfoldable pub is_float : NumberText → Bool
is_float t = not (is_empty t.fraction && is_empty t.exponent)

abbrev pub SomeDigits : Bytes → Type 0
SomeDigits [] = ⊥
SomeDigits (d ∷ ds) = IsDecimal d × All IsDecimal ds

-- No digit stands behind a leading zero.
abbrev pub IsWhole : Bytes → Type 0
IsWhole [] = ⊥
IsWhole (d ∷ ds) = IsDecimal d × All IsDecimal ds × (d ≡ 48 → ds ≡ [])

abbrev pub IsFraction : Bytes → Type 0
IsFraction [] = Unit {0}
IsFraction (p ∷ ds) = (p ≡ 46) × SomeDigits ds

abbrev pub IsPower : Bytes → Type 0
IsPower [] = ⊥
IsPower (c ∷ ds) = (((c ≡ 43) ⊎ (c ≡ 45)) × SomeDigits ds) ⊎ SomeDigits (c ∷ ds)

abbrev pub IsExponent : Bytes → Type 0
IsExponent [] = Unit {0}
IsExponent (e ∷ ds) = ((e ≡ 101) ⊎ (e ≡ 69)) × IsPower ds

abbrev pub IsNumberText : NumberText → Type 0
IsNumberText t = IsWhole t.whole × IsFraction t.fraction × IsExponent t.exponent

-- What may stand behind a number: no digit, no point and no letter of an exponent.
abbrev pub starts : (ℕ → Bool) → Bytes → Bool
starts test [] = false
starts test (c ∷ bs) = test c

abbrev pub continues : ℕ → Bool
continues c = is_ascii_digit c || c == 46 || c == 101 || c == 69

take_digits-append :
    (ds rest : Bytes)
    → All IsDecimal ds
    → starts is_ascii_digit rest ≡ false
    → take_digits (ds ++ rest) ≡ (ds, rest)
unfolding take_digits
take_digits-append [] [] h e = refl
take_digits-append [] (c ∷ rest) h e = ground arith
take_digits-append (d ∷ ds) rest h e = ground (arith, h.0, take_digits-append ds rest h.1 e)

take_some_digits-append :
    (ds rest : Bytes)
    → SomeDigits ds
    → starts is_ascii_digit rest ≡ false
    → take_some_digits (ds ++ rest) ≡ some (ds, rest)
unfolding take_some_digits
take_some_digits-append [] rest h e = elim h [ ]
take_some_digits-append (d ∷ ds) rest h e =
    ground (arith, h.0, take_digits-append (d ∷ ds) rest h e)

take_minus-append :
    (negative : Bool) (d : ℕ) (bs : Bytes)
    → IsDecimal d
    → take_minus (minus negative ++ d ∷ bs) ≡ some (minus negative, d ∷ bs)
take_minus-append true d bs h = refl
take_minus-append false d bs h = ground (arith, h)

take_whole-append :
    (ds rest : Bytes)
    → IsWhole ds
    → starts is_ascii_digit rest ≡ false
    → take_whole (ds ++ rest) ≡ some (ds, rest)
unfolding take_whole
take_whole-append [] rest h e = elim h [ ]
take_whole-append (d ∷ ds) rest h e = elim (Bool-cases (d == 48)) [
  | inl z ↦ ground (arith, h.2)
  | inr n ↦ rw n (take_some_digits-append (d ∷ ds) rest (h.0, h.1) e)
]

abbrev pub in_fraction : ℕ → Bool
in_fraction c = is_ascii_digit c || c == 46

not_digit : (bs : Bytes) → starts in_fraction bs ≡ false → starts is_ascii_digit bs ≡ false
not_digit [] h = refl
not_digit (c ∷ bs) h = ground arith

not_fraction : (bs : Bytes) → starts continues bs ≡ false → starts in_fraction bs ≡ false
not_fraction [] h = refl
not_fraction (c ∷ bs) h = ground arith

take_fraction-append :
    (fs rest : Bytes)
    → IsFraction fs
    → starts in_fraction rest ≡ false
    → take_fraction (fs ++ rest) ≡ some (fs, rest)
unfolding take_fraction
take_fraction-append [] [] h e = refl
take_fraction-append [] (c ∷ rest) h e = ground arith
take_fraction-append (p ∷ ds) rest h e =
    let point : (p == 46) ≡ true = ground (arith, h.0) in
    rw (point, take_some_digits-append ds rest h.1 (not_digit rest e)) (ground (arith, h.0))

some_digit : (c : ℕ) (ds rest : Bytes) → SomeDigits (c ∷ ds) → (c == 43 || c == 45) ≡ false
some_digit c ds rest h = ground (arith, h.0)

take_power-append :
    (e : ℕ) (ds rest : Bytes)
    → IsPower ds
    → starts is_ascii_digit rest ≡ false
    → take_exponent_digits e (ds ++ rest) ≡ some (e ∷ ds, rest)
take_power-append e [] rest h n = elim h [ ]
take_power-append e (c ∷ ds) rest (inl (sign, digits)) n =
    let signed : (c == 43 || c == 45) ≡ true = ground (arith, sign) in
    rw (signed, take_some_digits-append ds rest digits n) refl
take_power-append e (c ∷ ds) rest (inr digits) n =
    rw (some_digit c ds rest digits, take_some_digits-append (c ∷ ds) rest digits n) refl

take_exponent-append :
    (es rest : Bytes)
    → IsExponent es
    → starts continues rest ≡ false
    → take_exponent (es ++ rest) ≡ some (es, rest)
unfolding take_exponent
take_exponent-append [] [] h e = refl
take_exponent-append [] (c ∷ rest) h e = ground arith
take_exponent-append (l ∷ ds) rest h e =
    let letter : (l == 101 || l == 69) ≡ true = ground (arith, h.0) in
    rw (letter, take_power-append l ds rest h.1 (not_digit rest (not_fraction rest e))) refl

exponent_start :
    (es rest : Bytes)
    → IsExponent es
    → starts continues rest ≡ false
    → starts in_fraction (es ++ rest) ≡ false
exponent_start [] rest h e = not_fraction rest e
exponent_start (l ∷ ds) rest h e = ground (arith, h.0)

fraction_start :
    (fs rest : Bytes)
    → IsFraction fs
    → starts in_fraction rest ≡ false
    → starts is_ascii_digit (fs ++ rest) ≡ false
fraction_start [] rest h e = not_digit rest e
fraction_start (p ∷ ds) rest h e = ground (arith, h.0)

minus_whole :
    (negative : Bool) (ds rest : Bytes)
    → IsWhole ds
    → take_minus (minus negative ++ (ds ++ rest)) ≡ some (minus negative, ds ++ rest)
minus_whole negative [] rest h = elim h [ ]
minus_whole negative (d ∷ ds) rest h = take_minus-append negative d (ds ++ rest) h.0

spell-append :
    (t : NumberText) (rest : Bytes)
    → spell t ++ rest ≡ minus t.negative ++ (t.whole ++ (t.fraction ++ (t.exponent ++ rest)))
unfolding spell
spell-append t rest = simp append_assoc

-- The number ends where the grammar does.
pub parse_number-spell :
    (io : Doubles) (t : NumberText) (rest : Bytes)
    → IsNumberText t
    → starts continues rest ≡ false
    → parse_number io (spell t ++ rest) ≡ lift_value (number_value io (is_float t) (spell t)) rest
unfolding parse_number is_float spell
parse_number-spell io t rest h e =
    let after = exponent_start t.exponent rest h.2 e in
    let number = t.fraction ++ (t.exponent ++ rest) in
    let third = take_exponent-append t.exponent rest h.2 e in
    let second = take_fraction-append t.fraction (t.exponent ++ rest) h.1 after in
    let first = take_whole-append t.whole number h.0 (fraction_start t.fraction _ h.1 after) in
    let sign = minus_whole t.negative t.whole number h.0 in
    ap (parse_number io) (spell-append t rest)
    ∙ rw (sign, ◌>>=◌) (rw (first, ◌>>=◌) (rw (second, ◌>>=◌) (rw (third, ◌>>=◌) refl)))
