-- ===== src/Metrics/Buckets.antt =====
-- What MetricHistogram of src/MetricsRegistry.cpp counts.
use pp_cpp_common.Common.{
  All, Bool-cases, List, [], ap, arith, false, if◌then◌else◌, inl, inr, length, map, refl, subst,
  suc, true, ℕ, ◌%◌, ◌++◌, ◌+◌, ◌<◌, ◌^◌, ◌∷◌, ◌≡◌, ◌≤◌,
}
use pp_cpp_common.Metrics.Histogram.{
  MetricHistogram, accumulate, bump, double_lt, lower_bound, new_histogram, observe, read, zeros,
}

double_lt_trans : (a b c : ℕ) → double_lt a b ≡ true → double_lt b c ≡ true → double_lt a c ≡ true
unfolding double_lt
double_lt_trans a b c h k = ground arith

-- The values that lie in the buckets up to bound `b`: all that it does not lie below.
abbrev pub at_most : ℕ → List ℕ → ℕ
at_most b [] = 0
at_most b (v ∷ vs) = if double_lt b v then at_most b vs else suc (at_most b vs)

abbrev pub AreAscending : List ℕ → Type 0
AreAscending [] = Unit
AreAscending (b ∷ bs) = All (λ c. double_lt b c ≡ true) bs × AreAscending bs

-- The buckets agree with the values, where `earlier` of them lie in earlier buckets.
abbrev Agrees : ℕ → List ℕ → List ℕ → List ℕ → Type 0
Agrees earlier bs [] vs = ⊥
Agrees earlier [] (n ∷ ns) vs = (earlier + n ≡ length vs) × (ns ≡ [])
Agrees earlier (b ∷ bs) (n ∷ ns) vs = (earlier + n ≡ at_most b vs) × Agrees (earlier + n) bs ns vs

at_most_le : (b : ℕ) (vs : List ℕ) → at_most b vs ≤ length vs
at_most_le b [] = omega arith
at_most_le b (v ∷ vs) = ground (arith, at_most_le b vs)

-- A bound above one that is not below the value is not below it either.
above :
    (b v : ℕ) (bs : List ℕ)
    → double_lt b v ≡ false
    → All (λ c. double_lt b c ≡ true) bs
    → All (λ c. double_lt c v ≡ false) bs
above b v [] h a = tt
above b v (c ∷ bs) h a = (
  elim (Bool-cases (double_lt c v)) [
    | inl e ↦ absurd (ground (arith, double_lt_trans b c v a.0 e))
    | inr e ↦ e
  ],
  above b v bs h a.1,
)

Agrees-passed :
    (r v : ℕ) (bs ns vs : List ℕ)
    → All (λ c. double_lt c v ≡ false) bs
    → Agrees r bs ns vs
    → Agrees (suc r) bs ns (v ∷ vs)
Agrees-passed r v bs [] vs a h = absurd h
Agrees-passed r v [] (n ∷ ns) vs a h = (omega (arith, h.0), h.1)
Agrees-passed r v (b ∷ bs) (n ∷ ns) vs a h = (
  rw (a.0) (omega (arith, h.0)),
  subst (λ m. Agrees m bs ns (v ∷ vs)) (omega arith) (Agrees-passed (r + n) v bs ns vs a.1 h.1),
)

Agrees-bump :
    (r v : ℕ) (bs ns vs : List ℕ)
    → AreAscending bs
    → length vs + 1 < 2 ^ 64
    → Agrees r bs ns vs
    → Agrees r bs (bump (lower_bound bs v) ns) (v ∷ vs)
unfolding bump lower_bound
Agrees-bump r v bs [] vs a lt h = absurd h
Agrees-bump r v [] (n ∷ ns) vs a lt h = (omega (arith, h.0, lt), h.1)
Agrees-bump r v (b ∷ bs) (n ∷ ns) vs a lt h = elim (Bool-cases (double_lt b v)) [
  | inl e ↦ rw e (rw e h.0, Agrees-bump (r + n) v bs ns vs a.1 lt h.1)
  | inr e ↦
      let fits : (n + 1) % 2 ^ 64 ≡ n + 1 = omega (arith, h.0, at_most_le b vs, lt) in
      rw (e, fits)
        (
          rw e (omega (arith, h.0)),
          subst (λ m. Agrees m bs ns (v ∷ vs)) (omega arith)
              (Agrees-passed (r + n) v bs ns vs (above b v bs e a.0) h.1),
        )
]

zeros-Agrees : (bs : List ℕ) → Agrees 0 bs (zeros bs) []
zeros-Agrees [] = (refl, refl)
zeros-Agrees (b ∷ bs) = (refl, zeros-Agrees bs)

accumulate-Agrees :
    (r : ℕ) (bs ns vs : List ℕ)
    → length vs < 2 ^ 64
    → Agrees r bs ns vs
    → accumulate r ns ≡ (map (λ b. at_most b vs) bs ++ length vs ∷ [], length vs)
unfolding accumulate
accumulate-Agrees r bs [] vs lt h = absurd h
accumulate-Agrees r [] (n ∷ ns) vs lt h =
    let fits : (r + n) % 2 ^ 64 ≡ length vs = omega (arith, h.0, lt) in rw (h.1, fits) refl
accumulate-Agrees r (b ∷ bs) (n ∷ ns) vs lt h =
    let fits : (r + n) % 2 ^ 64 ≡ r + n = omega (arith, h.0, at_most_le b vs, lt) in
    rw (fits, accumulate-Agrees (r + n) bs ns vs lt h.1, h.0) refl

-- The last value that was observed stands first.
abbrev pub observe_all : (ℕ → ℕ → ℕ) → List ℕ → MetricHistogram → MetricHistogram
observe_all plus [] h = h
observe_all plus (v ∷ vs) h = observe plus v (observe_all plus vs h)

observe_all-bounds :
    (plus : ℕ → ℕ → ℕ) (vs : List ℕ) (h : MetricHistogram)
    → (observe_all plus vs h).bounds ≡ h.bounds
unfolding observe
observe_all-bounds plus [] h = refl
observe_all-bounds plus (v ∷ vs) h = observe_all-bounds plus vs h

observe_all-Agrees :
    (plus : ℕ → ℕ → ℕ) (bounds vs : List ℕ)
    → AreAscending bounds
    → length vs < 2 ^ 64
    → Agrees 0 bounds (observe_all plus vs (new_histogram bounds)).buckets vs
unfolding observe new_histogram
observe_all-Agrees plus bounds [] a lt = zeros-Agrees bounds
observe_all-Agrees plus bounds (v ∷ vs) a lt =
    rw (observe_all-bounds plus vs (new_histogram bounds)) (
      Agrees-bump 0 v bounds _ vs a (omega (arith, lt))
        (observe_all-Agrees plus bounds vs a (omega (arith, lt))))

-- After less than 2^64 observations of a histogram with ascending bounds Read gives, for each
-- bound, how many of the values it does not lie below, and then the number of all.
pub read-observe :
    (plus : ℕ → ℕ → ℕ) (bounds vs : List ℕ)
    → AreAscending bounds
    → length vs < 2 ^ 64
    → let snap = read (observe_all plus vs (new_histogram bounds)) in
      (snap.bounds ≡ bounds)
      × (snap.cumulative ≡ map (λ b. at_most b vs) bounds ++ length vs ∷ [])
      × (snap.count ≡ length vs)
unfolding read new_histogram
read-observe plus bounds vs a lt =
    let sums = accumulate-Agrees 0 bounds _ vs lt (observe_all-Agrees plus bounds vs a lt) in
    (
      observe_all-bounds plus vs (new_histogram bounds),
      ap (λ (p : List ℕ × ℕ). p.0) sums,
      ap (λ (p : List ℕ × ℕ). p.1) sums,
    )
