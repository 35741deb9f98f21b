-- ===== src/Json/Shrinks.antt =====
-- How much of the input the readers of src/io/Json.cpp leave.
use pp_cpp_common.Common.{
  Bool, Bytes, Option, Option-cases, [], arith, false, if-holds, if◌then◌else◌, inl, inr, leb,
  length, ltb, none, refl, some, suc, true, zero, ℕ, ◌&&◌, ◌*◌, ◌+◌, ◌==◌, ◌||◌, ◌∷◌, ◌≡◌, ◌≤◌,
}
use pp_cpp_common.Json.Parser.{consume, expect, try_consume}
use pp_cpp_common.Json.Strings.{
  append_utf8, hex_val, is_json_ws, parse_char, parse_escape, parse_hex, parse_low, parse_pair,
  parse_unicode, skip_ws,
}
use pp_cpp_common.Json.Utf8.{classify_utf8_lead, prepend, sequence, take_extra, take_tail}
use pp_cpp_common.Wire.Reader.{Reader, guard, ◌>>=◌}

-- What is left is at most `n` bytes.
abbrev pub Within {ℓ} : {A : Type ℓ} → ℕ → Option (A × Bytes) → Type 0
Within n none = Unit
Within n (some (x, rest)) = length rest ≤ n

module _ {ℓ} {A : Type ℓ} where
  pub Within-weaken : (m n : ℕ) (o : Option (A × Bytes)) → m ≤ n → Within m o → Within n o
  Within-weaken m n none le h = tt
  Within-weaken m n (some (x, rest)) le h = omega (arith, le, h)

module _ {ℓ κ} {A : Type ℓ} {B : Type κ} where
  pub >>=-Within :
      (r : Reader A) (f : A → Reader B) (bs : Bytes) (m n : ℕ)
      → Within m (r bs)
      → ((x : A) (rest : Bytes) → length rest ≤ m → Within n (f x rest))
      → Within n ((r >>= f) bs)
  >>=-Within r f bs m n h k = elim (Option-cases (r bs)) [
    | inl e ↦ rw (e, ◌>>=◌) tt
    | inr ((x, rest), e) ↦ rw (e, ◌>>=◌) (k x rest (rw e at h))
  ]

  -- Two continuations that agree on what can be left.
  pub >>=-agrees :
      (r : Reader A) (f g : A → Reader B) (bs : Bytes) (m : ℕ)
      → Within m (r bs)
      → ((x : A) (rest : Bytes) → length rest ≤ m → f x rest ≡ g x rest)
      → (r >>= f) bs ≡ (r >>= g) bs
  >>=-agrees r f g bs m h k = elim (Option-cases (r bs)) [
    | inl e ↦ rw (e, ◌>>=◌) refl
    | inr ((x, rest), e) ↦ rw (e, ◌>>=◌) (k x rest (rw e at h))
  ]

pub length-skip_ws : (bs : Bytes) → length (skip_ws bs) ≤ length bs
length-skip_ws [] = omega arith
length-skip_ws (c ∷ bs) =
    if-holds (λ b. length b ≤ suc (length bs)) (is_json_ws c) (skip_ws bs) (c ∷ bs)
      (omega (arith, length-skip_ws bs)) (omega arith)

consume-Within : (c : ℕ) (bs : Bytes) → Within (length bs) (consume c bs)
consume-Within c [] = omega arith
consume-Within c (b ∷ bs) =
    if-holds (Within (suc (length bs))) (b == c) _ _ (omega arith) (omega arith)

pub try_consume-Within : (c : ℕ) (bs : Bytes) → Within (length bs) (try_consume c bs)
unfolding try_consume
try_consume-Within c bs =
    Within-weaken _ _ (consume c (skip_ws bs)) (length-skip_ws bs) (consume-Within c (skip_ws bs))

pub guard-Within : (b : Bool) (bs : Bytes) → Within (length bs) (guard b bs)
guard-Within true bs = omega arith
guard-Within false bs = tt

pub expect-Within : (c : ℕ) (bs : Bytes) → Within (length bs) (expect c bs)
unfolding expect
expect-Within c bs =
    >>=-Within (try_consume c) guard bs (length bs) (length bs) (try_consume-Within c bs)
      (λ b rest h. Within-weaken _ _ (guard b rest) h (guard-Within b rest))

parse_hex-Within : (digits cp : ℕ) (bs : Bytes) → Within (length bs) (parse_hex digits cp bs)
unfolding parse_hex
parse_hex-Within zero cp bs = omega arith
parse_hex-Within (suc digits) cp [] = tt
parse_hex-Within (suc digits) cp (h ∷ bs) = elim (Option-cases (hex_val h)) [
  | inl e ↦ rw (e, Within) tt
  | inr (d, e) ↦
      rw (e, Within)
        (Within-weaken _ _ (parse_hex digits (cp * 16 + d) bs) (omega arith)
          (parse_hex-Within digits (cp * 16 + d) bs))
]

parse_low-Within : (high n : ℕ) (o : Option (ℕ × Bytes)) → Within n o → Within n (parse_low high o)
parse_low-Within high n none h = tt
parse_low-Within high n (some (low, rest)) h =
    if-holds (Within n) (ltb low 56320 || ltb 57343 low) none _ tt h

parse_pair-Within : (high : ℕ) (bs : Bytes) → Within (length bs) (parse_pair high bs)
parse_pair-Within high [] = tt
parse_pair-Within high (a ∷ []) = tt
parse_pair-Within high (a ∷ b ∷ bs) =
    if-holds (Within (suc (suc (length bs)))) (a == 92 && b == 117)
      (parse_low high (parse_hex 4 0 bs)) none
      (Within-weaken (length bs) _ (parse_low high (parse_hex 4 0 bs)) (omega arith)
        (parse_low-Within high (length bs) (parse_hex 4 0 bs) (parse_hex-Within 4 0 bs)))
      tt

unicode-Within :
    (o : Option (ℕ × Bytes)) (n : ℕ)
    → Within n o
    → Within n (elim o as (λ _. Option (Bytes × Bytes)) [
      | none ↦ none
      | some (cp, rest) ↦
          if leb 55296 cp && leb cp 56319
          then parse_pair cp rest
          else if leb 56320 cp && leb cp 57343
          then none
          else some (append_utf8 cp, rest)
    ])
unicode-Within none n h = tt
unicode-Within (some (cp, rest)) n h =
    if-holds (Within n) (leb 55296 cp && leb cp 56319) (parse_pair cp rest) _
      (Within-weaken _ _ (parse_pair cp rest) h (parse_pair-Within cp rest))
      (if-holds (Within n) (leb 56320 cp && leb cp 57343) none _ tt h)

parse_unicode-Within : (bs : Bytes) → Within (length bs) (parse_unicode bs)
unfolding parse_unicode
parse_unicode-Within bs = unicode-Within (parse_hex 4 0 bs) (length bs) (parse_hex-Within 4 0 bs)

escape-Within : (bs : Bytes) → Within (length bs) (parse_escape bs)
unfolding parse_escape
escape-Within [] = tt
escape-Within (e ∷ bs) =
    let near : (piece : Bytes) → Within (suc (length bs)) (some (piece, bs)) =
      λ piece. omega arith in
    let W = Within {A = Bytes} (suc (length bs)) in
    if-holds W (e == 34 || e == 92 || e == 47) _ _ (near (e ∷ [])) (
      if-holds W (e == 98) _ _ (near (8 ∷ [])) (
        if-holds W (e == 102) _ _ (near (12 ∷ [])) (
          if-holds W (e == 110) _ _ (near (10 ∷ [])) (
            if-holds W (e == 114) _ _ (near (13 ∷ [])) (
              if-holds W (e == 116) _ _ (near (9 ∷ [])) (
                if-holds W (e == 117) (parse_unicode bs) none
                  (Within-weaken _ _ (parse_unicode bs) (omega arith) (parse_unicode-Within bs))
                  tt))))))

prepend-Within : (b n : ℕ) (o : Option (Bytes × Bytes)) → Within n o → Within n (prepend b o)
prepend-Within b n none h = tt
prepend-Within b n (some (tail, rest)) h = h

take_tail-Within : (k low high : ℕ) (bs : Bytes) → Within (length bs) (take_tail k low high bs)
unfolding take_tail
take_tail-Within zero low high bs = omega arith
take_tail-Within (suc k) low high [] = tt
take_tail-Within (suc k) low high (b ∷ bs) =
    if-holds (Within (suc (length bs))) (leb low b && leb b high)
      (prepend b (take_tail k 128 191 bs)) none
      (Within-weaken (length bs) _ (prepend b (take_tail k 128 191 bs)) (omega arith)
        (prepend-Within b (length bs) (take_tail k 128 191 bs) (take_tail-Within k 128 191 bs)))
      tt

take_extra-Within : (o : Option (ℕ × ℕ × ℕ)) (bs : Bytes) → Within (length bs) (take_extra o bs)
take_extra-Within none bs = tt
take_extra-Within (some (k, low, high)) bs = take_tail-Within k low high bs

pub parse_char-Within : (c : ℕ) (bs : Bytes) → Within (length bs) (parse_char c bs)
unfolding parse_char sequence
parse_char-Within c bs =
    let W = Within {A = Bytes} (length bs) in
    if-holds W (ltb c 32) none _ tt (
      if-holds W (c == 92) (parse_escape bs) _ (escape-Within bs) (
        if-holds W (ltb c 128) (some (c ∷ [], bs)) _ (omega arith) (
          prepend-Within c (length bs) (take_extra (classify_utf8_lead c) bs)
            (take_extra-Within (classify_utf8_lead c) bs))))
