-- ===== src/Wire/Reader.antt =====
-- The reading side of `InputArchive`: a reader takes bytes off the front of the stream. `none` is a
-- read that set `failed_`. The flag is never cleared and every caller looks at `failed()` before it
-- uses a value, so the model stops at the first failure.
use pp_cpp_common.Common.{
  Bool, Bytes, Option, Option-cases, [], arith, false, if◌then◌else◌, inl, inr, length, none, refl,
  some, suc, true, zero, ℕ, ◌++◌, ◌<◌, ◌∷◌, ◌≡◌,
}

abbrev pub Reader {ℓ} : Type ℓ → Type ℓ
Reader A = Bytes → Option (A × Bytes)

abbrev pub pure {ℓ} : {A : Type ℓ} → A → Reader A
pure a bs = some (a, bs)

abbrev pub fail {ℓ} : {A : Type ℓ} → Reader A
fail bs = none

pub none_ne {ℓ} : {A : Type ℓ} {a : A} → none ≡ some a → ⊥
none_ne h = cc

infixl 1 ◌>>=◌ ◌>>◌
abbrev pub ◌>>=◌ {ℓ κ} : {A : Type ℓ} {B : Type κ} → Reader A → (A → Reader B) → Reader B
◌>>=◌ r f bs = elim (r bs) [ none ↦ none | some (a, rest) ↦ f a rest ]

abbrev pub ◌>>◌ {ℓ} : {B : Type ℓ} → Reader (Unit {0}) → Reader B → Reader B
r >> k = r >>= λ _. k

abbrev pub guard : Bool → Reader (Unit {0})
guard b = if b then pure tt else fail

-- A bind goes on behind what its first reader took.
pub >>=-some {ℓ κ} :
    {A : Type ℓ} {B : Type κ} (r : Reader A) (f : A → Reader B) {bs rest : Bytes} {a : A}
    → r bs ≡ some (a, rest)
    → (r >>= f) bs ≡ f a rest
>>=-some r f e = rw (e, ◌>>=◌) refl

-- A successful bind is two successful reads.
pub >>=-eq-some {ℓ κ} :
    {A : Type ℓ} {B : Type κ} (r : Reader A) (f : A → Reader B) (bs : Bytes) {x : B × Bytes}
    → (r >>= f) bs ≡ some x
    → (a : A) × (rest : Bytes) × (r bs ≡ some (a, rest)) × (f a rest ≡ some x)
>>=-eq-some r f bs h = elim (Option-cases (r bs)) [
  | inl e ↦ absurd (none_ne (rw (e, ◌>>=◌) at h))
  | inr ((a, rest), e) ↦ (a, rest, e, rw (e, ◌>>=◌) at h)
]

pub guard-eq-some {ℓ} :
    {B : Type ℓ} (b : Bool) (r : Reader B) (bs : Bytes) {x : B × Bytes}
    → (guard b >> r) bs ≡ some x
    → (b ≡ true) × (r bs ≡ some x)
guard-eq-some true r bs h = (refl, h)
guard-eq-some false r bs h = absurd (none_ne h)

-- `istream::read` of `n` bytes.
unfoldable pub read_raw : ℕ → Reader Bytes
read_raw zero bs = some ([], bs)
read_raw (suc n) [] = none
read_raw (suc n) (b ∷ bs) = (do tail ← read_raw n; pure (b ∷ tail)) bs

-- It takes exactly the bytes that stand there.
pub read_raw-append : (bs rest : Bytes) → read_raw (length bs) (bs ++ rest) ≡ some (bs, rest)
unfolding read_raw
read_raw-append [] rest = refl
read_raw-append (b ∷ bs) rest = rw (read_raw-append bs rest)

pub read_raw_sound :
    (n : ℕ) (bs taken rest : Bytes)
    → read_raw n bs ≡ some (taken, rest)
    → (bs ≡ taken ++ rest) × (length taken ≡ n)
unfolding read_raw
read_raw_sound zero bs taken rest h = (ground arith, ground arith)
read_raw_sound (suc n) [] taken rest h = ground arith
read_raw_sound (suc n) (b ∷ bs) taken rest h =
    let (tail, rest', e, e') = >>=-eq-some (read_raw n) _ bs h in
    let (eq, size) = read_raw_sound n bs tail rest' e in (ground arith, ground arith)

pub read_raw_short : (n : ℕ) (bs : Bytes) → length bs < n → read_raw n bs ≡ none
unfolding read_raw
read_raw_short zero bs h = absurd (omega arith)
read_raw_short (suc n) [] h = refl
read_raw_short (suc n) (b ∷ bs) h = rw (read_raw_short n bs (omega arith))
