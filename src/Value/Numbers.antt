-- ===== src/Value/Numbers.antt =====
-- The number accessors of include/common/Value.h and src/Value.cpp. std::stoull and std::to_string
-- are modelled as the C++ standard describes them in the "C" locale.

-- A C string ends at the first NUL.
use pp_cpp_common.Common.{
  Bool, Bytes, Option, [], false, if◌then◌else◌, is_empty, leb, ltb, none, not, some, suc, true,
  zero, ℕ, ◌%◌, ◌&&◌, ◌*◌, ◌+◌, ◌-◌, ◌/◌, ◌==◌, ◌^◌, ◌||◌, ◌∷◌,
}
use pp_cpp_common.Common.Int.{negsuc, pos}
use pp_cpp_common.Value.{Fields, Value, int64_value, set_field, string_value, try_get, uint64_value}

abbrev pub c_str : Bytes → Bytes
c_str [] = []
c_str (b ∷ bs) = if b == 0 then [] else b ∷ c_str bs

abbrev pub is_space : ℕ → Bool
is_space b = b == 32 || (leb 9 b && leb b 13)

abbrev pub skip_space : Bytes → Bytes
skip_space [] = []
skip_space (b ∷ bs) = if is_space b then skip_space bs else b ∷ bs

-- The value of a digit or letter, below 36.
abbrev pub digit_value : ℕ → ℕ
digit_value b =
    if leb 48 b && leb b 57
    then b - 48
    else if leb 97 b && leb b 122
    then b - 87
    else if leb 65 b && leb b 90
    then b - 55
    else 36

-- The longest run of digits of the base, onto what was read before.
unfoldable pub scan : ℕ → ℕ → Bytes → ℕ × Bytes
scan base n [] = (n, [])
scan base n (b ∷ bs) =
    let rest = scan base (n * base + digit_value b) bs in
    if ltb (digit_value b) base then rest else (n, b ∷ bs)

abbrev pub starts_digit : ℕ → Bytes → Bool
starts_digit base [] = false
starts_digit base (b ∷ bs) = ltb (digit_value b) base

-- '+' or '-': whether the number is negated, and what follows.
abbrev pub take_sign : Bytes → Bool × Bytes
take_sign [] = (false, [])
take_sign (b ∷ bs) =
    if b == 45 then (true, bs) else if b == 43 then (false, bs) else (false, b ∷ bs)

abbrev pub is_hex_prefix : Bytes → Bool
is_hex_prefix (a ∷ b ∷ bs) = a == 48 && (b == 120 || b == 88)
is_hex_prefix _ = false

abbrev pub drop_two : Bytes → Bytes
drop_two (a ∷ b ∷ bs) = bs
drop_two bs = bs

-- At base 16 a prefix 0x is taken where a digit follows it.
abbrev pub take_prefix : ℕ → Bytes → Bytes
take_prefix base bs =
    if base == 16 && is_hex_prefix bs && starts_digit 16 (drop_two bs) then drop_two bs else bs

-- The number and what is left; none for std::invalid_argument and std::out_of_range.
unfoldable pub stoull : ℕ → Bytes → Option (ℕ × Bytes)
stoull base bs =
    let (negative, signed) = take_sign (skip_space bs) in
    let digits = take_prefix base signed in
    let (n, rest) = scan base 0 digits in
    if not (starts_digit base digits) || leb (2 ^ 64) n
    then none
    else some (if negative then (2 ^ 64 - n) % 2 ^ 64 else n, rest)

-- `idx` is the length that stoull took: the whole string, where nothing is left.
abbrev pub all_taken : Option (ℕ × Bytes) → Option ℕ
all_taken none = none
all_taken (some (n, [])) = some n
all_taken (some (n, b ∷ bs)) = none

abbrev pub is_signed : Bytes → Bool
is_signed [] = false
is_signed (b ∷ bs) = b == 43 || b == 45

-- The string case of `asNonNegInt`.
unfoldable pub parse_non_neg_int : Bytes → Option ℕ
parse_non_neg_int s =
    let hex = is_hex_prefix s in
    let p = if hex then drop_two (c_str s) else c_str s in
    if is_empty s || is_signed p || is_empty p
    then none
    else all_taken (stoull (if hex then 16 else 10) p)

unfoldable pub as_non_neg_int : Value → Option ℕ
as_non_neg_int (int64_value (pos n)) = some n
as_non_neg_int (int64_value (negsuc n)) = none
as_non_neg_int (uint64_value n) = some n
as_non_neg_int (string_value s) = parse_non_neg_int s
as_non_neg_int _ = none

abbrev pub number_of : Option Value → Option ℕ
number_of none = none
number_of (some v) = as_non_neg_int v

unfoldable pub get_non_neg_int : Bytes → Fields → Option ℕ
get_non_neg_int key fs = number_of (try_get key fs)

-- std::to_string of a uint64_t, of at most 20 digits.
unfoldable pub decimal : ℕ → ℕ → Bytes → Bytes
decimal zero n acc = acc
decimal (suc fuel) n acc =
    let digit = 48 + n % 10 in
    let rest = decimal fuel (n / 10) (digit ∷ acc) in if ltb n 10 then digit ∷ acc else rest

unfoldable pub to_string : ℕ → Bytes
to_string n = decimal 20 n []

abbrev pub int64_max : ℕ
int64_max = 2 ^ 63 - 1

unfoldable pub set_json_uint : Bytes → ℕ → Fields → Option Fields
set_json_uint key v fs =
    if ltb int64_max v then none else some (set_field key (int64_value (pos v)) fs)

-- The fields that were set, or else those with the string.
abbrev pub or_string : Option Fields → Fields → Fields
or_string none gs = gs
or_string (some fs) gs = fs

unfoldable pub set_uint_for_json : Bytes → ℕ → Fields → Fields
set_uint_for_json key v fs =
    or_string (set_json_uint key v fs) (set_field key (string_value (to_string v)) fs)
