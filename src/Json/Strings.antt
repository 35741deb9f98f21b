-- ===== src/Json/Strings.antt =====
-- `appendEscapedJsonString` and `Parser::parseString` of src/io/Json.cpp. A parse that fails is none:
-- the messages, with their offsets and paths, are not modelled.
use pp_cpp_common.Common.{
  Bool, Bytes, Option, [], if◌then◌else◌, leb, length, ltb, none, some, suc, zero, ℕ, ◌%◌, ◌&&◌,
  ◌*◌, ◌++◌, ◌+◌, ◌-◌, ◌/◌, ◌==◌, ◌||◌, ◌∷◌,
}
use pp_cpp_common.Json.Utf8.{prepend, sequence}
use pp_cpp_common.Wire.Reader.{Reader}

abbrev pub hex_digit : ℕ → ℕ
hex_digit d = if ltb d 10 then 48 + d else 87 + d

-- What the encoder appends for a byte below 0x80.
unfoldable pub escape_ascii : ℕ → Bytes
escape_ascii c =
    if c == 34
    then 92 ∷ 34 ∷ []
    else if c == 92
    then 92 ∷ 92 ∷ []
    else if c == 8
    then 92 ∷ 98 ∷ []
    else if c == 12
    then 92 ∷ 102 ∷ []
    else if c == 10
    then 92 ∷ 110 ∷ []
    else if c == 13
    then 92 ∷ 114 ∷ []
    else if c == 9
    then 92 ∷ 116 ∷ []
    else if ltb c 32
    then 92 ∷ 117 ∷ 48 ∷ 48 ∷ hex_digit (c / 16) ∷ hex_digit (c % 16) ∷ []
    else c ∷ []

abbrev pub replacement_char : Bytes
replacement_char = 239 ∷ 191 ∷ 189 ∷ []

-- The loop of the encoder; the number counts the bytes of a sequence still to copy.
unfoldable pub escape : ℕ → Bytes → Bytes
escape n [] = []
escape (suc n) (b ∷ bs) = b ∷ escape n bs
escape zero (b ∷ bs) =
    let next = escape zero bs in
    if ltb b 128 then escape_ascii b ++ next else elim (sequence b bs) [
      | none ↦ replacement_char ++ next
      | some (tail, rest) ↦ b ∷ escape (length tail) bs
    ]

unfoldable pub append_escaped_json_string : Bytes → Bytes
append_escaped_json_string s = 34 ∷ (escape 0 s ++ 34 ∷ [])

unfoldable pub hex_val : ℕ → Option ℕ
hex_val h =
    if leb 48 h && leb h 57
    then some (h - 48)
    else if leb 65 h && leb h 70
    then some (h - 55)
    else if leb 97 h && leb h 102
    then some (h - 87)
    else none

-- `digits` more digits onto what was read.
unfoldable pub parse_hex : ℕ → ℕ → Reader ℕ
parse_hex zero cp bs = some (cp, bs)
parse_hex (suc digits) cp [] = none
parse_hex (suc digits) cp (h ∷ bs) = elim (hex_val h) [
  | none ↦ none
  | some d ↦ parse_hex digits (cp * 16 + d) bs
]

unfoldable pub append_utf8 : ℕ → Bytes
append_utf8 cp =
    if leb cp 127
    then cp ∷ []
    else if leb cp 2047
    then (192 + cp / 64) ∷ (128 + cp % 64) ∷ []
    else if leb cp 65535
    then (224 + cp / 4096) ∷ (128 + cp / 64 % 64) ∷ (128 + cp % 64) ∷ []
    else (240 + cp / 262144) ∷ (128 + cp / 4096 % 64) ∷ (128 + cp / 64 % 64) ∷ (128 + cp % 64) ∷ []

-- The second half of a surrogate pair, behind the first.
abbrev pub parse_low : ℕ → Option (ℕ × Bytes) → Option (Bytes × Bytes)
parse_low high none = none
parse_low high (some (low, rest)) =
    if ltb low 56320 || ltb 57343 low
    then none
    else some (append_utf8 (65536 + (high - 55296) * 1024 + (low - 56320)), rest)

abbrev pub parse_pair : ℕ → Bytes → Option (Bytes × Bytes)
parse_pair high (a ∷ b ∷ bs) =
    if a == 92 && b == 117 then parse_low high (parse_hex 4 0 bs) else none
parse_pair high _ = none

unfoldable pub parse_unicode : Reader Bytes
parse_unicode bs = elim (parse_hex 4 0 bs) [
  | none ↦ none
  | some (cp, rest) ↦
      if leb 55296 cp && leb cp 56319
      then parse_pair cp rest
      else if leb 56320 cp && leb cp 57343
      then none
      else some (append_utf8 cp, rest)
]

unfoldable pub parse_escape : Reader Bytes
parse_escape [] = none
parse_escape (e ∷ bs) =
    if e == 34 || e == 92 || e == 47
    then some (e ∷ [], bs)
    else if e == 98
    then some (8 ∷ [], bs)
    else if e == 102
    then some (12 ∷ [], bs)
    else if e == 110
    then some (10 ∷ [], bs)
    else if e == 114
    then some (13 ∷ [], bs)
    else if e == 116
    then some (9 ∷ [], bs)
    else if e == 117
    then parse_unicode bs
    else none

-- A round of the loop on a character that is not the closing quote: what it appends.
unfoldable pub parse_char : ℕ → Reader Bytes
parse_char c bs =
    if ltb c 32
    then none
    else if c == 92
    then parse_escape bs
    else if ltb c 128
    then some (c ∷ [], bs)
    else prepend c (sequence c bs)

abbrev pub put_before : Bytes → Option (Bytes × Bytes) → Option (Bytes × Bytes)
put_before piece none = none
put_before piece (some (s, rest)) = some (piece ++ s, rest)

-- The loop, behind the opening quote.
unfoldable pub parse_chars : ℕ → Reader Bytes
parse_chars zero bs = none
parse_chars (suc fuel) [] = none
parse_chars (suc fuel) (c ∷ bs) = if c == 34 then some ([], bs) else elim (parse_char c bs) [
  | none ↦ none
  | some (piece, rest) ↦ put_before piece (parse_chars fuel rest)
]

unfoldable pub is_json_ws : ℕ → Bool
is_json_ws c = c == 32 || c == 9 || c == 10 || c == 13

abbrev pub skip_ws : Bytes → Bytes
skip_ws [] = []
skip_ws (c ∷ bs) = if is_json_ws c then skip_ws bs else c ∷ bs

abbrev pub behind_quote : Reader Bytes
behind_quote [] = none
behind_quote (c ∷ bs) = if c == 34 then parse_chars (length bs) bs else none

unfoldable pub parse_string : Reader Bytes
parse_string bs = behind_quote (skip_ws bs)
