-- ===== src/Metrics/Families.antt =====
-- Lookups in the families of src/MetricsRegistry.cpp after a family or a series was put in.
use pp_cpp_common.Common.{
  Bool, Bool-cases, Bytes, List, Option, [], arith, bytes_eq, bytes_eq_refl, bytes_eq→eq, false,
  if-holds, if◌then◌else◌, inl, inr, length, length-append, ltb, ltb→lt, none, refl, some, subst,
  suc, sym, true, zero, ℕ, ◌++◌, ◌+◌, ◌<◌, ◌∙◌, ◌∷◌, ◌≡◌,
}
use pp_cpp_common.Metrics.Registry.{
  Families, Family, MetricLabels, MetricType, Series, at_place, family_of, labels_eq, new_series,
  place_of, put_family, with_series,
}
use pp_cpp_common.Wire.Types.{bytes_lt}

pub family_of-put_family :
    (name : Bytes) (f : Family) (fs : Families) → family_of name (put_family name f fs) ≡ some f
unfolding family_of put_family
family_of-put_family name f [] = rw (bytes_eq_refl name) refl
family_of-put_family name f ((n, g) ∷ fs) = elim (Bool-cases (bytes_eq n name)) [
  | inl e ↦ rw (e, bytes_eq_refl name) refl
  | inr e ↦
      if-holds (λ gs. family_of name (if bytes_eq n name then (name, f) ∷ fs else gs) ≡ some f)
        (bytes_lt name n) ((name, f) ∷ (n, g) ∷ fs) ((n, g) ∷ put_family name f fs)
        (rw (e, bytes_eq_refl name) refl) (rw (e, e) (family_of-put_family name f fs))
]

pub family_of-put_other :
    (m name : Bytes) (f : Family) (fs : Families)
    → bytes_eq name m ≡ false
    → family_of m (put_family name f fs) ≡ family_of m fs
unfolding family_of put_family
family_of-put_other m name f [] h = rw h refl
family_of-put_other m name f ((n, g) ∷ fs) h = elim (Bool-cases (bytes_eq n name)) [
  | inl e ↦
      rw (e, h)
        (subst (λ k. family_of m fs ≡ (if bytes_eq k m then some g else family_of m fs))
          (sym (bytes_eq→eq n name e)) (rw h refl))
  | inr e ↦
      if-holds
        (λ gs.
          family_of m (if bytes_eq n name then (name, f) ∷ fs else gs) ≡ family_of m ((n, g) ∷ fs))
        (bytes_lt name n) ((name, f) ∷ (n, g) ∷ fs) ((n, g) ∷ put_family name f fs) (rw (e, h) refl)
        (rw (e, family_of-put_other m name f fs h) refl)
]

-- What holds of the branch that is taken holds of its counterpart.
pub if-both {ℓ κ} :
    {A : Type ℓ} (P : A → Type κ) (b : Bool) {x y z w : A}
    → (P x → P z)
    → (P y → P w)
    → P (if b then x else y)
    → P (if b then z else w)
if-both P true f g h = f h
if-both P false f g h = g h

place_of-append :
    (labels : MetricLabels) (ss : List Series) (s : Series)
    → place_of labels ss < length ss
    → place_of labels (ss ++ s ∷ []) ≡ place_of labels ss
unfolding place_of
place_of-append labels [] s h = absurd (omega (arith, h))
place_of-append labels (t ∷ ss) s h = ground (arith, place_of-append labels ss s)

-- An update of a series keeps its labels.
abbrev pub KeepsLabels : (Series → Series) → Type 0
KeepsLabels f = (s : Series) → (f s).labels ≡ s.labels

pub place_of-at_place :
    (labels : MetricLabels) (i : ℕ) (f : Series → Series) (ss : List Series)
    → KeepsLabels f
    → place_of labels (at_place i f ss) ≡ place_of labels ss
unfolding place_of
place_of-at_place labels i f [] k = refl
place_of-at_place labels zero f (s ∷ ss) k = rw (k s) refl
place_of-at_place labels (suc i) f (s ∷ ss) k = rw (place_of-at_place labels i f ss k) refl

pub length-at_place :
    (i : ℕ) (f : Series → Series) (ss : List Series) → length (at_place i f ss) ≡ length ss
length-at_place i f [] = refl
length-at_place zero f (s ∷ ss) = refl
length-at_place (suc i) f (s ∷ ss) = omega (arith, length-at_place i f ss)

-- The family has a series with the labels, the first one at `place`, and its type and help.
abbrev pub Holds : MetricLabels → ℕ → MetricType → Bytes → Option Family → Type 0
Holds labels place kind help none = ⊥
Holds labels place kind help (some f) =
    (place_of labels f.series ≡ place)
    × (place < length f.series)
    × (f.kind ≡ kind)
    × (f.help ≡ help)

pub with_series-Holds :
    (labels ls : MetricLabels) (place : ℕ) (kind : MetricType) (help : Bytes) (bounds : List ℕ)
    (f : Family)
    → Holds labels place kind help (some f)
    → Holds labels place kind help (some (with_series ls bounds f))
unfolding with_series
with_series-Holds labels ls place kind help bounds f (p, l, k, h) =
    if-holds (λ g. Holds labels place kind help (some g))
      (ltb (place_of ls f.series) (length f.series)) _ _ (p, l, k, h)
      (
        place_of-append labels f.series _ (rw p l) ∙ p,
        omega (arith, l, length-append f.series (new_series ls bounds ∷ [])),
        k,
        h,
      )

-- The series that was asked for is there.
place_of-snoc :
    (labels : MetricLabels) (ss : List Series) (s : Series)
    → labels_eq s.labels labels ≡ true
    → place_of labels ss < length ss + 1
unfolding place_of
place_of-snoc labels [] s h = omega arith
place_of-snoc labels (t ∷ ss) s h = ground (arith, place_of-snoc labels ss s h)

place_of-last :
    (labels : MetricLabels) (ss : List Series) (s : Series)
    → labels_eq s.labels labels ≡ true
    → place_of labels (ss ++ s ∷ []) ≡ place_of labels ss
unfolding place_of
place_of-last labels [] s h = rw h refl
place_of-last labels (t ∷ ss) s h = rw (place_of-last labels ss s h) refl

labels_eq_refl : (ls : MetricLabels) → labels_eq ls ls ≡ true
unfolding labels_eq
labels_eq_refl [] = refl
labels_eq_refl ((k, v) ∷ ls) = rw (bytes_eq_refl k, bytes_eq_refl v, labels_eq_refl ls) refl

pub with_series-found :
    (labels : MetricLabels) (bounds : List ℕ) (f : Family)
    → Holds labels (place_of labels f.series) f.kind f.help (some (with_series labels bounds f))
unfolding with_series new_series
with_series-found labels bounds f =
    elim (Bool-cases (ltb (place_of labels f.series) (length f.series))) [
      | inl e ↦ rw e (refl, ltb→lt _ _ e, refl, refl)
      | inr e ↦
          let last = new_series labels bounds in
          let same = place_of-last labels f.series last (labels_eq_refl labels) in
          let within = place_of-snoc labels f.series last (labels_eq_refl labels) in
          rw e (same, omega (arith, within, length-append f.series (last ∷ [])), refl, refl)
    ]
