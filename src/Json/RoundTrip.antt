-- ===== src/Json/RoundTrip.antt =====
-- JSON strings through the encoder and the parser.

-- The string with U+FFFD in the place of each byte that starts no sequence of UTF-8.
use pp_cpp_common.Common.{
  Bool, Bool-cases, Bytes, Option-cases, [], ap, append_assoc, arith, false, if◌then◌else◌, inl,
  inr, length, length-append, ltb, none, refl, some, suc, sym, true, zero, ℕ, ◌++◌, ◌==◌, ◌∙◌, ◌∷◌,
  ◌≡◌, ◌≤◌,
}
use pp_cpp_common.Json.Escapes.{escape_ascii-Escapes, put_char}
use pp_cpp_common.Json.Strings.{
  append_escaped_json_string, escape, escape_ascii, is_json_ws, parse_char, parse_chars,
  parse_string, put_before, replacement_char,
}
use pp_cpp_common.Json.Utf8.{classify_utf8_lead, sequence, sequence-append, take_tail}

unfoldable pub sanitize : ℕ → Bytes → Bytes
sanitize n [] = []
sanitize (suc n) (b ∷ bs) = b ∷ sanitize n bs
sanitize zero (b ∷ bs) =
    let next = sanitize zero bs in
    if ltb b 128 then b ∷ next else elim (sequence b bs) [
      | none ↦ replacement_char ++ next
      | some (tail, rest) ↦ b ∷ sanitize (length tail) bs
    ]

escape-copy : (tail rest : Bytes) → escape (length tail) (tail ++ rest) ≡ tail ++ escape 0 rest
unfolding escape
escape-copy [] rest = refl
escape-copy (b ∷ tail) rest = ap (λ bs. b ∷ bs) (escape-copy tail rest)

sanitize-copy :
    (tail rest : Bytes) → sanitize (length tail) (tail ++ rest) ≡ tail ++ sanitize 0 rest
unfolding sanitize
sanitize-copy [] rest = refl
sanitize-copy (b ∷ tail) rest = ap (λ bs. b ∷ bs) (sanitize-copy tail rest)

-- How the encoder begins: the piece of the first character, and the string that is left.
abbrev pub Begins : ℕ → Bytes → Bytes → Bytes → Bytes → Type 0
Begins b bs written piece rest =
    (escape 0 (b ∷ bs) ≡ written ++ escape 0 rest)
    × (sanitize 0 (b ∷ bs) ≡ piece ++ sanitize 0 rest)
    × (length rest ≤ length bs)
    × ((fuel : ℕ) (more : Bytes)
        → parse_chars (suc fuel) (written ++ more) ≡ put_before piece (parse_chars fuel more))

parse_char-sequence :
    (b : ℕ) (bs tail more : Bytes)
    → ltb b 128 ≡ false
    → sequence b bs ≡ some (tail, more)
    → parse_char b bs ≡ some (b ∷ tail, more)
unfolding parse_char
parse_char-sequence b bs tail more l e =
    let printable : ltb b 32 ≡ false = ground arith in
    let plain : (b == 92) ≡ false = ground arith in rw (printable, plain, l, e) refl

replacement_char-parse :
    (fuel : ℕ) (more : Bytes)
    → parse_chars (suc fuel) (replacement_char ++ more)
      ≡ put_before replacement_char (parse_chars fuel more)
replacement_char-parse fuel more = put_char fuel 239 (191 ∷ 189 ∷ more) replacement_char more refl (
    parse_char-sequence 239 (191 ∷ 189 ∷ more) (191 ∷ 189 ∷ []) more refl
      (unfold sequence classify_utf8_lead take_tail in refl))

begin : (b : ℕ) (bs : Bytes) → (written piece rest : Bytes) × Begins b bs written piece rest
unfolding escape sanitize
begin b bs = elim (Bool-cases (ltb b 128)) [
  | inl l ↦ (
    escape_ascii b,
    b ∷ [],
    bs,
    (rw l refl, rw l refl, omega arith, escape_ascii-Escapes b (ground arith)),
  )
  | inr l ↦ elim (Option-cases (sequence b bs)) [
    | inl e ↦ (
      replacement_char,
      replacement_char,
      bs,
      (rw (l, e, escape) refl, rw (l, e, sanitize) refl, omega arith, replacement_char-parse),
    )
    | inr ((tail, rest), e) ↦
        let (split, local) = sequence-append b bs tail rest e in
        (
          b ∷ tail,
          b ∷ tail,
          rest,
          (
            rw (l, e, escape)
                (ap (λ x. b ∷ x) (ap (escape (length tail)) split ∙ escape-copy tail rest)),
            rw (l, e, sanitize)
                (ap (λ x. b ∷ x) (ap (sanitize (length tail)) split ∙ sanitize-copy tail rest)),
            omega (arith, ap length split, length-append tail rest),
            λ fuel more.
                put_char fuel b (tail ++ more) (b ∷ tail) more (ground arith)
                  (parse_char-sequence b (tail ++ more) tail more l (local more)),
          ),
        )
  ]
]

parse_chars-escape :
    (fuel : ℕ) (s rest : Bytes)
    → suc (length s) ≤ fuel
    → parse_chars fuel (escape 0 s ++ 34 ∷ rest) ≡ some (sanitize 0 s, rest)
parse_chars-escape zero s rest h = absurd (ground arith)
parse_chars-escape (suc fuel) [] rest h = unfold escape sanitize parse_chars in refl
parse_chars-escape (suc fuel) (b ∷ bs) rest h =
    let (written, piece, left, start) = begin b bs in
    let (write', read', short, parse) = start in
    ap (λ x. parse_chars (suc fuel) (x ++ 34 ∷ rest)) write'
    ∙ ap (parse_chars (suc fuel)) (append_assoc written (escape 0 left) (34 ∷ rest))
    ∙ parse fuel (escape 0 left ++ 34 ∷ rest)
    ∙ ap (put_before piece) (parse_chars-escape fuel left rest (omega (arith, h, short)))
    ∙ ap (λ x. some (x, rest)) (sym read')

escape_ascii-length : (c : ℕ) → 1 ≤ length (escape_ascii c)
unfolding escape_ascii
escape_ascii-length c = ground arith

length-escape : (n : ℕ) (s : Bytes) → length s ≤ length (escape n s)
unfolding escape
length-escape n [] = omega arith
length-escape (suc n) (b ∷ bs) = omega (arith, length-escape n bs)
length-escape zero (b ∷ bs) = elim (Bool-cases (ltb b 128)) [
  | inl l ↦ rw l (
      omega (
        arith,
        length-append (escape_ascii b) (escape 0 bs),
        escape_ascii-length b,
        length-escape zero bs,
      ))
  | inr l ↦ elim (Option-cases (sequence b bs)) [
    | inl e ↦ rw (l, e, escape) (omega (arith, length-escape zero bs))
    | inr ((tail, rest), e) ↦ rw (l, e, escape) (omega (arith, length-escape (length tail) bs))
  ]
]

-- The string is well-formed UTF-8.
unfoldable pub is_utf8 : ℕ → Bytes → Bool
is_utf8 n [] = true
is_utf8 (suc n) (b ∷ bs) = is_utf8 n bs
is_utf8 zero (b ∷ bs) =
    let next = is_utf8 zero bs in
    if ltb b 128
    then next
    else elim (sequence b bs) [ none ↦ false | some (tail, rest) ↦ is_utf8 (length tail) bs ]

sanitize_utf8 : (n : ℕ) (s : Bytes) → is_utf8 n s ≡ true → sanitize n s ≡ s
unfolding sanitize is_utf8
sanitize_utf8 n [] h = refl
sanitize_utf8 (suc n) (b ∷ bs) h = ap (λ x. b ∷ x) (sanitize_utf8 n bs h)
sanitize_utf8 zero (b ∷ bs) h = elim (Bool-cases (ltb b 128)) [
  | inl l ↦ rw l (ap (λ x. b ∷ x) (sanitize_utf8 zero bs (rw l at h)))
  | inr l ↦ elim (Option-cases (sequence b bs)) [
    | inl e ↦ absurd (ground arith)
    | inr ((tail, rest), e) ↦
        rw (l, e, sanitize)
          (ap (λ x. b ∷ x) (sanitize_utf8 (length tail) bs (rw (l, e, is_utf8) at h)))
  ]
]

-- The parser reads back what the JSON encoder writes for any bytes, with U+FFFD in the place of
-- each byte that starts no sequence of UTF-8, and leaves what stands behind; for a string of well-
-- formed UTF-8 that is the string itself.
pub parse_string-append_escaped_json_string :
    (s rest : Bytes)
    → (parse_string (append_escaped_json_string s ++ rest) ≡ some (sanitize 0 s, rest))
      × (is_utf8 0 s ≡ true → sanitize 0 s ≡ s)
unfolding parse_string append_escaped_json_string is_json_ws
parse_string-append_escaped_json_string s rest =
    let shift' : (escape 0 s ++ 34 ∷ []) ++ rest ≡ escape 0 s ++ 34 ∷ rest =
      append_assoc (escape 0 s) (34 ∷ []) rest in
    (
      ap (λ x. parse_chars (length x) x) shift'
          ∙ parse_chars-escape _ s rest
              (omega (arith, length-append (escape 0 s) (34 ∷ rest), length-escape 0 s)),
      sanitize_utf8 0 s,
    )
