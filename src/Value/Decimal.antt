-- ===== src/Value/Decimal.antt =====
-- setUIntForJson, getNonNegInt and asNonNegInt of src/Value.cpp on decimal strings.
use native.Mathlib.Nat.{pow-suc}
use pp_cpp_common.Common.{
  All, Bool, Bool-cases, Bytes, Option, [], ap, arith, bytes_eq, false, if-holds, if◌then◌else◌,
  inl, inr, ltb, none, refl, some, subst, suc, sym, true, zero, ℕ, ◌%◌, ◌*◌, ◌+◌, ◌-◌, ◌/◌, ◌<◌,
  ◌^◌, ◌∙◌, ◌∷◌, ◌≡◌, ◌≤◌,
}
use pp_cpp_common.Common.Int.{pos}
use pp_cpp_common.Value.{Fields, Value, int64_value, set_field, string_value, try_get}
use pp_cpp_common.Value.Lookup.{try_get-set_field}
use pp_cpp_common.Value.Numbers.{
  as_non_neg_int, c_str, decimal, get_non_neg_int, int64_max, is_hex_prefix, is_signed, number_of,
  or_string, parse_non_neg_int, scan, set_json_uint, set_uint_for_json, skip_space, starts_digit,
  stoull, take_sign, to_string,
}

abbrev pub IsDecimal : ℕ → Type 0
IsDecimal b = (48 ≤ b) × (b ≤ 57)

decimal-IsDecimal :
    (fuel n : ℕ) (acc : Bytes) → All IsDecimal acc → All IsDecimal (decimal fuel n acc)
unfolding decimal
decimal-IsDecimal zero n acc h = h
decimal-IsDecimal (suc fuel) n acc h =
    let here : All IsDecimal ((48 + n % 10) ∷ acc) = ((omega arith, omega arith), h) in
    if-holds (All IsDecimal) (ltb n 10) _ _ here (decimal-IsDecimal fuel (n / 10) _ here)

scan-digit : (n d : ℕ) (bs : Bytes) → d < 10 → scan 10 n ((48 + d) ∷ bs) ≡ scan 10 (n * 10 + d) bs
unfolding scan
scan-digit n d bs h = ground arith

digit_left : (fuel n : ℕ) → n / 10 < 10 ^ fuel → ltb n 10 ≡ false → 1 ≤ fuel
digit_left zero n h large = ground arith
digit_left (suc fuel) n h large = omega arith

-- Reading the digits of a number comes to the number.
scan-decimal :
    (fuel n : ℕ) (acc : Bytes)
    → n < 10 ^ fuel
    → 1 ≤ fuel
    → scan 10 0 (decimal fuel n acc) ≡ scan 10 n acc
unfolding decimal
scan-decimal zero n acc h le = ground arith
scan-decimal (suc fuel) n acc h le = elim (Bool-cases (ltb n 10)) [
  | inl small ↦
      let low : n % 10 ≡ n = ground arith in
      let start : 0 * 10 + n ≡ n = omega arith in
      rw small (rw low (scan-digit 0 n acc (ground arith) ∙ ap (λ k. scan 10 k acc) start))
  | inr large ↦
      let bound : n / 10 < 10 ^ fuel = omega (arith, pow-suc 10 fuel, h) in
      let more : 1 ≤ fuel = digit_left fuel n bound large in
      let back : n / 10 * 10 + n % 10 ≡ n = omega arith in
      rw large (
        scan-decimal fuel (n / 10) ((48 + n % 10) ∷ acc) bound more
        ∙ scan-digit (n / 10) (n % 10) acc (omega arith)
        ∙ ap (λ k. scan 10 k acc) back)
]

decimal-cons :
    (fuel n : ℕ) (acc : Bytes) → (b : ℕ) × (bs : Bytes) × (decimal (suc fuel) n acc ≡ b ∷ bs)
unfolding decimal
decimal-cons zero n acc = (48 + n % 10, acc, ground arith)
decimal-cons (suc fuel) n acc =
    let (b, bs, e) = decimal-cons fuel (n / 10) ((48 + n % 10) ∷ acc) in
    elim (Bool-cases (ltb n 10)) [
      | inl small ↦ (48 + n % 10, acc, rw small refl)
      | inr large ↦ (b, bs, rw large e)
    ]

c_str-IsDecimal : (bs : Bytes) → All IsDecimal bs → c_str bs ≡ bs
c_str-IsDecimal [] h = refl
c_str-IsDecimal (b ∷ bs) h = ground (arith, h.0, c_str-IsDecimal bs h.1)

is_hex_prefix-IsDecimal : (bs : Bytes) → All IsDecimal bs → is_hex_prefix bs ≡ false
is_hex_prefix-IsDecimal [] h = refl
is_hex_prefix-IsDecimal (a ∷ []) h = refl
is_hex_prefix-IsDecimal (a ∷ b ∷ bs) h = ground (arith, h.1.0)

skip_space-IsDecimal : (b : ℕ) (bs : Bytes) → IsDecimal b → skip_space (b ∷ bs) ≡ b ∷ bs
skip_space-IsDecimal b bs h = ground (arith, h)

take_sign-IsDecimal : (b : ℕ) (bs : Bytes) → IsDecimal b → take_sign (b ∷ bs) ≡ (false, b ∷ bs)
take_sign-IsDecimal b bs h = ground (arith, h)

pub starts_digit-IsDecimal : (b : ℕ) (bs : Bytes) → IsDecimal b → starts_digit 10 (b ∷ bs) ≡ true
starts_digit-IsDecimal b bs h = ground (arith, h)

is_signed-IsDecimal : (b : ℕ) (bs : Bytes) → IsDecimal b → is_signed (b ∷ bs) ≡ false
is_signed-IsDecimal b bs h = ground (arith, h)

-- stoull of digits, behind a sign or not.
stoull-decimal :
    (s : Bytes) (negative : Bool) (b : ℕ) (bs : Bytes) (n : ℕ)
    → take_sign (skip_space s) ≡ (negative, b ∷ bs)
    → IsDecimal b
    → scan 10 0 (b ∷ bs) ≡ (n, [])
    → n < 2 ^ 64
    → stoull 10 s ≡ some (if negative then (2 ^ 64 - n) % 2 ^ 64 else n, [])
unfolding stoull
stoull-decimal s negative b bs n sign h e bound =
    rw (sign, e, starts_digit-IsDecimal b bs h) (ground arith)

parse-decimal :
    (b : ℕ) (bs : Bytes) (n : ℕ)
    → All IsDecimal (b ∷ bs)
    → scan 10 0 (b ∷ bs) ≡ (n, [])
    → n < 2 ^ 64
    → parse_non_neg_int (b ∷ bs) ≡ some n
unfolding parse_non_neg_int
parse-decimal b bs n h e bound =
    let sign : take_sign (skip_space (b ∷ bs)) ≡ (false, b ∷ bs) =
      ap take_sign (skip_space-IsDecimal b bs h.0) ∙ take_sign-IsDecimal b bs h.0 in
    rw
      (
        is_hex_prefix-IsDecimal (b ∷ bs) h,
        c_str-IsDecimal (b ∷ bs) h,
        is_signed-IsDecimal b bs h.0,
        stoull-decimal (b ∷ bs) false b bs n sign h.0 e bound,
      )
      refl

pub to_string-digits :
    (n : ℕ)
    → n < 2 ^ 64
    → (b : ℕ) × (bs : Bytes) × (to_string n ≡ b ∷ bs)
      × All IsDecimal (b ∷ bs)
      × (scan 10 0 (b ∷ bs) ≡ (n, []))
unfolding to_string
to_string-digits n h =
    let (b, bs, e) = decimal-cons 19 n [] in
    let digits = scan-decimal 20 n [] (omega (arith, h)) (omega arith) in
    (
      b,
      bs,
      e,
      subst (All IsDecimal) e (decimal-IsDecimal 20 n [] tt),
      ap (scan 10 0) (sym e) ∙ digits ∙ unfold scan in refl,
    )

pub as_non_neg_int-to_string :
    (n : ℕ) → n < 2 ^ 64 → as_non_neg_int (string_value (to_string n)) ≡ some n
unfolding as_non_neg_int
as_non_neg_int-to_string n h =
    let (b, bs, e, decimal', digits) = to_string-digits n h in
    ap parse_non_neg_int e ∙ parse-decimal b bs n decimal' digits h

-- asNonNegInt reads a string of a space, a minus sign and the digits of a number from 1 to below
-- 2^64 as 2^64 less that number.
pub as_non_neg_int_signed :
    (n : ℕ)
    → 1 ≤ n
    → n < 2 ^ 64
    → as_non_neg_int (string_value (32 ∷ 45 ∷ to_string n)) ≡ some (2 ^ 64 - n)
unfolding as_non_neg_int parse_non_neg_int
as_non_neg_int_signed n low h =
    let (b, bs, e, decimal', digits) = to_string-digits n h in
    let wrapped : (2 ^ 64 - n) % 2 ^ 64 ≡ 2 ^ 64 - n = omega (arith, low, h) in
    rw
      (
        e,
        c_str-IsDecimal (b ∷ bs) decimal',
        stoull-decimal (32 ∷ 45 ∷ b ∷ bs) true b bs n refl decimal'.0 digits h,
      )
      (ap some wrapped)

number_of_if :
    (b : Bool) (v : Value) (n : ℕ) (o : Option Value)
    → as_non_neg_int v ≡ some n
    → number_of (if b then some v else o) ≡ (if b then some n else number_of o)
number_of_if true v n o h = h
number_of_if false v n o h = refl

get_non_neg_int-set_field :
    (j k : Bytes) (v : Value) (n : ℕ) (fs : Fields)
    → as_non_neg_int v ≡ some n
    → get_non_neg_int j (set_field k v fs) ≡ (if bytes_eq k j then some n else get_non_neg_int j fs)
unfolding get_non_neg_int
get_non_neg_int-set_field j k v n fs h =
    ap number_of (try_get-set_field j k v fs) ∙ number_of_if (bytes_eq k j) v n (try_get j fs) h

-- After setUIntForJson of a number below 2^64 getNonNegInt gives the number under its key, stored
-- as a number or as a string, and under every other key what it gave before.
pub get_non_neg_int-set_uint_for_json :
    (j k : Bytes) (v : ℕ) (fs : Fields)
    → v < 2 ^ 64
    → get_non_neg_int j (set_uint_for_json k v fs)
      ≡ (if bytes_eq k j then some v else get_non_neg_int j fs)
unfolding set_uint_for_json set_json_uint as_non_neg_int
get_non_neg_int-set_uint_for_json j k v fs h =
    let spelled = string_value (to_string v) in
    if-holds
      (λ o.
        get_non_neg_int j (or_string o (set_field k spelled fs))
        ≡ (if bytes_eq k j then some v else get_non_neg_int j fs))
      (ltb int64_max v) none _
      (get_non_neg_int-set_field j k spelled v fs (as_non_neg_int-to_string v h))
      (get_non_neg_int-set_field j k (int64_value (pos v)) v fs refl)
