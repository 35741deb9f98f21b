-- ===== src/Json/Escapes.antt =====
-- Lemmas on the escapes that the encoder of src/io/Json.cpp writes for bytes below 0x80.
use pp_cpp_common.Common.{
  Bool-cases, Bytes, [], ap, arith, false, inl, inr, ltb, refl, some, subst, suc, true, ℕ, ◌%◌, ◌*◌,
  ◌++◌, ◌+◌, ◌/◌, ◌<◌, ◌==◌, ◌∙◌, ◌∷◌, ◌≡◌,
}
use pp_cpp_common.Json.Strings.{
  append_utf8, escape_ascii, hex_digit, hex_val, parse_char, parse_chars, parse_escape, parse_hex,
  parse_unicode, put_before,
}

split_eq {ℓ} : (P : ℕ → Type ℓ) (c d : ℕ) → P d → ((c == d) ≡ false → P c) → P c
split_eq P c d p q = elim (Bool-cases (c == d)) [
  | inl e ↦ let same : d ≡ c = ground arith in subst P same p
  | inr e ↦ q e
]

-- The parser reads what the encoder appends for a byte as that byte.
abbrev pub Escapes : ℕ → Type 0
Escapes c =
    (fuel : ℕ) (more : Bytes)
    → parse_chars (suc fuel) (escape_ascii c ++ more) ≡ put_before (c ∷ []) (parse_chars fuel more)

hex_val-hex_digit : (d : ℕ) → d < 16 → hex_val (hex_digit d) ≡ some d
unfolding hex_val
hex_val-hex_digit d h = ground arith

parse_hex-digit :
    (digits cp h d : ℕ) (bs : Bytes)
    → hex_val h ≡ some d
    → parse_hex (suc digits) cp (h ∷ bs) ≡ parse_hex digits (cp * 16 + d) bs
unfolding parse_hex
parse_hex-digit digits cp h d bs e = rw (e, parse_hex) refl

parse_hex-control :
    (c : ℕ) (more : Bytes)
    → c < 32
    → parse_hex 4 0 (48 ∷ 48 ∷ hex_digit (c / 16) ∷ hex_digit (c % 16) ∷ more) ≡ some (c, more)
parse_hex-control c more h =
    let zero_digit : hex_val 48 ≡ some 0 = unfold hex_val in refl in
    let sum : ((0 * 16 + 0) * 16 + c / 16) * 16 + c % 16 ≡ c = omega arith in
    parse_hex-digit 3 0 48 0 _ zero_digit
    ∙ parse_hex-digit 2 (0 * 16 + 0) 48 0 _ zero_digit
    ∙ parse_hex-digit 1 ((0 * 16 + 0) * 16 + 0) (hex_digit (c / 16)) (c / 16) _
        (hex_val-hex_digit (c / 16) (omega (arith, h)))
    ∙ parse_hex-digit 0 (((0 * 16 + 0) * 16 + 0) * 16 + c / 16) (hex_digit (c % 16)) (c % 16) _
        (hex_val-hex_digit (c % 16) (omega arith))
    ∙ unfold parse_hex in ap (λ n. some (n, more)) (omega arith)

parse_unicode-control :
    (c : ℕ) (more : Bytes)
    → c < 32
    → parse_unicode (48 ∷ 48 ∷ hex_digit (c / 16) ∷ hex_digit (c % 16) ∷ more) ≡ some (c ∷ [], more)
unfolding parse_unicode append_utf8
parse_unicode-control c more h = rw (parse_hex-control c more h, parse_unicode) (ground arith)

Escapes-plain :
    (c : ℕ)
    → (c == 34) ≡ false
    → (c == 92) ≡ false
    → ltb c 32 ≡ false
    → c < 128
    → (fuel : ℕ) (more : Bytes)
    → parse_chars (suc fuel) (c ∷ more) ≡ put_before (c ∷ []) (parse_chars fuel more)
unfolding parse_chars parse_char
Escapes-plain c q s l h fuel more =
    let small : ltb c 128 ≡ true = ground arith in rw (q, s, l, small) refl

pub put_char :
    (fuel c : ℕ) (bs piece rest : Bytes)
    → (c == 34) ≡ false
    → parse_char c bs ≡ some (piece, rest)
    → parse_chars (suc fuel) (c ∷ bs) ≡ put_before piece (parse_chars fuel rest)
unfolding parse_chars
put_char fuel c bs piece rest q e = rw (q, e, parse_chars) refl

Escapes-control :
    (c : ℕ) (more : Bytes)
    → c < 32
    → (fuel : ℕ)
    → parse_chars (suc fuel) (92 ∷ 117 ∷ 48 ∷ 48 ∷ hex_digit (c / 16) ∷ hex_digit (c % 16) ∷ more)
      ≡ put_before (c ∷ []) (parse_chars fuel more)
Escapes-control c more h fuel =
    put_char fuel 92 _ (c ∷ []) more refl
      (unfold parse_char parse_escape in parse_unicode-control c more h)

pub escape_ascii-Escapes : (c : ℕ) → c < 128 → Escapes c
unfolding escape_ascii parse_chars parse_char parse_escape
escape_ascii-Escapes c h =
    split_eq (λ c. c < 128 → Escapes c) c 34 (λ h fuel more. refl)
      (λ e34.
        split_eq (λ c. c < 128 → Escapes c) c 92 (λ h fuel more. refl)
          (λ e92.
            split_eq (λ c. c < 128 → Escapes c) c 8 (λ h fuel more. refl)
              (λ e8.
                split_eq (λ c. c < 128 → Escapes c) c 12 (λ h fuel more. refl)
                  (λ e12.
                    split_eq (λ c. c < 128 → Escapes c) c 10 (λ h fuel more. refl)
                      (λ e10.
                        split_eq (λ c. c < 128 → Escapes c) c 13 (λ h fuel more. refl)
                          (λ e13.
                            split_eq (λ c. c < 128 → Escapes c) c 9 (λ h fuel more. refl)
                              (λ e9. λ h fuel more. elim (Bool-cases (ltb c 32)) [
                                | inl l ↦
                                    rw (e34, e92, e8, e12, e10, e13, e9, l)
                                      (Escapes-control c more (ground arith) fuel)
                                | inr l ↦
                                    rw (e34, e92, e8, e12, e10, e13, e9, l)
                                      (Escapes-plain c e34 e92 l h fuel more)
                              ])))))))
      h
