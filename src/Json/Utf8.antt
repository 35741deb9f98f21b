-- ===== src/Json/Utf8.antt =====
-- The UTF-8 checks that the encoder and the parser of src/io/Json.cpp share.

-- How many bytes follow a lead byte, and the bounds of the first of them; none for extraBytes = -1.
-- A bit mask is a division: first & 0xE0 is 0xC0 where first / 32 is 6.
use pp_cpp_common.Common.{
  Bool-cases, Bytes, Option, Option-cases, [], ap, arith, if◌then◌else◌, inl, inr, leb, ltb, none,
  refl, some, suc, sym, zero, ℕ, ◌&&◌, ◌++◌, ◌/◌, ◌==◌, ◌∙◌, ◌∷◌, ◌≡◌,
}
use pp_cpp_common.Wire.Reader.{none_ne}

unfoldable pub classify_utf8_lead : ℕ → Option (ℕ × ℕ × ℕ)
classify_utf8_lead first =
    if first / 32 == 6
    then (if ltb first 194 then none else some (1, 128, 191))
    else if first / 16 == 14
    then some (2, (if first == 224 then 160 else 128), (if first == 237 then 159 else 191))
    else if first / 8 == 30
    then (if ltb 244 first
        then none
        else some (3, (if first == 240 then 144 else 128), (if first == 244 then 143 else 191)))
    else none

abbrev pub prepend : ℕ → Option (Bytes × Bytes) → Option (Bytes × Bytes)
prepend b none = none
prepend b (some (tail, rest)) = some (b ∷ tail, rest)

-- The continuation bytes: the first within its bounds, the others from 0x80 to 0xBF.
unfoldable pub take_tail : ℕ → ℕ → ℕ → Bytes → Option (Bytes × Bytes)
take_tail zero low high bs = some ([], bs)
take_tail (suc k) low high [] = none
take_tail (suc k) low high (b ∷ bs) =
    if leb low b && leb b high then prepend b (take_tail k 128 191 bs) else none

abbrev pub take_extra : Option (ℕ × ℕ × ℕ) → Bytes → Option (Bytes × Bytes)
take_extra none bs = none
take_extra (some (extra_bytes, low, high)) bs = take_tail extra_bytes low high bs

-- What follows a lead byte; none where the sequence is malformed.
unfoldable pub sequence : ℕ → Bytes → Option (Bytes × Bytes)
sequence first bs = take_extra (classify_utf8_lead first) bs

prepend-some :
    (b c : ℕ) (o : Option (Bytes × Bytes)) (tail rest : Bytes)
    → prepend b o ≡ some (c ∷ tail, rest)
    → (b ≡ c) × (o ≡ some (tail, rest))
prepend-some b c none tail rest h = (ground arith, ground arith)
prepend-some b c (some (t, r)) tail rest h = (ground arith, ground arith)

prepend-nil :
    (b : ℕ) (o : Option (Bytes × Bytes)) (rest : Bytes) → prepend b o ≡ some ([], rest) → ⊥
prepend-nil b none rest h = ground arith
prepend-nil b (some (t, r)) rest h = ground arith

take_tail-append :
    (k low high : ℕ) (bs tail rest : Bytes)
    → take_tail k low high bs ≡ some (tail, rest)
    → (bs ≡ tail ++ rest)
      × ((more : Bytes) → take_tail k low high (tail ++ more) ≡ some (tail, more))
unfolding take_tail
take_tail-append zero low high bs [] rest h = (ground arith, λ more. refl)
take_tail-append zero low high bs (c ∷ tail) rest h = absurd (ground arith)
take_tail-append (suc k) low high [] tail rest h = absurd (ground arith)
take_tail-append (suc k) low high (b ∷ bs) [] rest h = elim (Bool-cases (leb low b && leb b high)) [
  | inl e ↦ absurd (prepend-nil b (take_tail k 128 191 bs) rest (rw e at h))
  | inr e ↦ absurd (none_ne (rw e at h))
]
take_tail-append (suc k) low high (b ∷ bs) (c ∷ tail) rest h =
    elim (Bool-cases (leb low b && leb b high)) [
      | inl e ↦
          let (same, inner) = prepend-some b c (take_tail k 128 191 bs) tail rest (rw e at h) in
          let (split, local) = take_tail-append k 128 191 bs tail rest inner in
          (
            ap (λ t. b ∷ t) split ∙ ap (λ x. x ∷ (tail ++ rest)) same,
            λ more. rw (sym same, e, local more) refl,
          )
      | inr e ↦ absurd (none_ne (rw e at h))
    ]

pub sequence-append :
    (first : ℕ) (bs tail rest : Bytes)
    → sequence first bs ≡ some (tail, rest)
    → (bs ≡ tail ++ rest) × ((more : Bytes) → sequence first (tail ++ more) ≡ some (tail, more))
unfolding sequence
sequence-append first bs tail rest h = elim (Option-cases (classify_utf8_lead first)) [
  | inl e ↦ ground arith
  | inr ((k, low, high), e) ↦ rw e (take_tail-append k low high bs tail rest (rw e at h))
]
