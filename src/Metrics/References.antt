-- ===== src/Metrics/References.antt =====
-- What MetricsRegistry::Find of src/MetricsRegistry.cpp returns stays what it was.
use mathlib.Core.Path.{ap₂}
use pp_cpp_common.Common.{
  Bool-cases, Bytes, List, Option, [], ap, bytes_eq, bytes_eq→eq, inl, inr, none, refl, some, subst,
  sym, ℕ, ◌∙◌, ◌∷◌, ◌≡◌,
}
use pp_cpp_common.Metrics.Families.{
  Holds, KeepsLabels, family_of-put_family, family_of-put_other, if-both, length-at_place,
  place_of-at_place, with_series-Holds, with_series-found,
}
use pp_cpp_common.Metrics.Registry.{
  Call, Families, Family, MetricLabels, MetricType, Reference, Series, add_gauge, adds, at_place,
  call, calls, family_of, find, finds, increment, increments, mirror, mirrors, observe_series,
  observes, or_new, place_of, set_gauge, sets, update_family, with_series,
}

abbrev reference : Bytes → ℕ → Reference
reference name place = record { name = name; place = place }

-- The type and the help of a family.
abbrev pub registered_as : Option Family → Option (MetricType × Bytes)
registered_as none = none
registered_as (some f) = some (f.kind, f.help)

abbrev some_pair : MetricType → Bytes → Option (MetricType × Bytes)
some_pair k h = some (k, h)

module _ (labels : MetricLabels) (place : ℕ) (kind : MetricType) (help : Bytes) where
  at_place-Holds :
      (i : ℕ) (f : Series → Series) (g : Family)
      → KeepsLabels f
      → Holds labels place kind help (some g)
      → Holds labels place kind help (some (record g { series = at_place i f g.series }))
  at_place-Holds i f g k (p, l, t, h) =
      (place_of-at_place labels i f g.series k ∙ p, rw (length-at_place i f g.series) l, t, h)

  update-Holds :
      (m : Bytes) (r : Reference) (f : Series → Series) (fs : Families)
      → KeepsLabels f
      → Holds labels place kind help (family_of m fs)
      → Holds labels place kind help (family_of m (update_family r f fs))
  unfolding family_of update_family
  update-Holds m r f [] k h = h
  update-Holds m r f ((n, g) ∷ fs) k h = elim (Bool-cases (bytes_eq n r.name)) [
    | inl e ↦ rw e (
        if-both (Holds labels place kind help) (bytes_eq n m) (at_place-Holds r.place f g k)
          (λ a. a) h)
    | inr e ↦
        rw e (
          if-both (Holds labels place kind help) (bytes_eq n m) (λ a. a) (update-Holds m r f fs k)
            h)
  ]

  or_new-Holds :
      (o : Option Family) (k : MetricType) (h : Bytes)
      → Holds labels place kind help o
      → Holds labels place kind help (some (or_new o k h))
  or_new-Holds none k h a = absurd a
  or_new-Holds (some f) k h a = a

  find-HoldsOwn :
      (name h : Bytes) (k : MetricType) (ls : MetricLabels) (bounds : List ℕ) (fs : Families)
      → Holds labels place kind help (family_of name fs)
      → Holds labels place kind help (family_of name (find name h k ls bounds fs).1)
  unfolding find
  find-HoldsOwn name h k ls bounds fs held =
      rw (family_of-put_family name (with_series ls bounds (or_new (family_of name fs) k h)) fs) (
        with_series-Holds labels ls place kind help bounds (or_new (family_of name fs) k h)
          (or_new-Holds (family_of name fs) k h held))

  find-Holds :
      (m name h : Bytes) (k : MetricType) (ls : MetricLabels) (bounds : List ℕ) (fs : Families)
      → Holds labels place kind help (family_of m fs)
      → Holds labels place kind help (family_of m (find name h k ls bounds fs).1)
  unfolding find
  find-Holds m name h k ls bounds fs held = elim (Bool-cases (bytes_eq name m)) [
    | inl e ↦
        let same = bytes_eq→eq name m e in
        subst (λ n. Holds labels place kind help (family_of n (find name h k ls bounds fs).1)) same
          (find-HoldsOwn name h k ls bounds fs
            (subst (λ n. Holds labels place kind help (family_of n fs)) (sym same) held))
    | inr e ↦ rw (family_of-put_other m name _ fs e) held
  ]

  call-Holds :
      (plus : ℕ → ℕ → ℕ) (m : Bytes) (c : Call) (fs : Families)
      → Holds labels place kind help (family_of m fs)
      → Holds labels place kind help (family_of m (call plus c fs))
  unfolding call
  call-Holds plus m (finds name h k ls bounds) fs held = find-Holds m name h k ls bounds fs held
  call-Holds plus m (increments r n) fs held = update-Holds m r (increment n) fs (λ s. refl) held
  call-Holds plus m (mirrors r n) fs held = update-Holds m r (mirror n) fs (λ s. refl) held
  call-Holds plus m (sets r v) fs held = update-Holds m r (set_gauge v) fs (λ s. refl) held
  call-Holds plus m (adds r v) fs held = update-Holds m r (add_gauge plus v) fs (λ s. refl) held
  call-Holds plus m (observes r v) fs held =
      update-Holds m r (observe_series plus v) fs (λ s. refl) held

  calls-Holds :
      (plus : ℕ → ℕ → ℕ) (m : Bytes) (cs : List Call) (fs : Families)
      → Holds labels place kind help (family_of m fs)
      → Holds labels place kind help (family_of m (calls plus cs fs))
  calls-Holds plus m [] fs held = held
  calls-Holds plus m (c ∷ cs) fs held =
      calls-Holds plus m cs (call plus c fs) (call-Holds plus m c fs held)

  -- Asked again, Find gives the same place, and the family is of the same type.
  place_of-held :
      (name h : Bytes) (k : MetricType) (o : Option Family)
      → Holds labels place kind help o
      → (reference name (place_of labels (or_new o k h).series) ≡ reference name place)
        × (registered_as o ≡ some (kind, help))
  place_of-held name h k none held = absurd held
  place_of-held name h k (some f) (p, l, t, e) = (ap (reference name) p, ap₂ some_pair t e)

find-found :
    (name help : Bytes) (kind : MetricType) (labels : MetricLabels) (bounds : List ℕ)
    (fs : Families)
    → let f = or_new (family_of name fs) kind help in
      Holds labels
        (place_of labels f.series)
        f.kind
        f.help
        (family_of name (find name help kind labels bounds fs).1)
unfolding find
find-found name help kind labels bounds fs =
    let f = or_new (family_of name fs) kind help in
    rw (family_of-put_family name (with_series labels bounds f) fs)
      (with_series-found labels bounds f)

-- Whatever is registered and updated afterwards, Find with the same name and labels gives the
-- series that it gave at first, whatever type, help and bounds it is asked for, and the family
-- keeps the type and help that it had.
pub find-calls :
    (plus : ℕ → ℕ → ℕ) (cs : List Call) (name help h : Bytes) (kind k : MetricType)
    (labels : MetricLabels) (bounds bs : List ℕ) (fs : Families)
    → let (r, registered) = find name help kind labels bounds fs in
      let later = calls plus cs registered in
      ((find name h k labels bs later).0 ≡ r)
      × (registered_as (family_of name later) ≡ registered_as (family_of name registered))
unfolding find
find-calls plus cs name help h kind k labels bounds bs fs =
    let f = or_new (family_of name fs) kind help in
    let registered = (find name help kind labels bounds fs).1 in
    let place = place_of labels f.series in
    let held = find-found name help kind labels bounds fs in
    let first =
      place_of-held labels place f.kind f.help name h k (family_of name registered) held in
    let again =
      place_of-held labels place f.kind f.help name h k (family_of name (calls plus cs registered))
        (calls-Holds labels place f.kind f.help plus name cs registered held) in
    (again.0, again.1 ∙ sym first.1)
