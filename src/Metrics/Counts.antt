-- ===== src/Metrics/Counts.antt =====
-- What FixedLabelCounts of src/MetricsRegistry.cpp sums into `other`.
use pp_cpp_common.Common.{
  All, Bool, Bool-cases, Bytes, List, [], ap, arith, bytes_eq, bytes_eq→eq, false, if◌then◌else◌,
  inl, inr, map, refl, subst, sym, ℕ, ◌%◌, ◌++◌, ◌+◌, ◌-◌, ◌<◌, ◌^◌, ◌||◌, ◌∙◌, ◌∷◌, ◌≡◌,
}
use pp_cpp_common.Metrics.Labels.{count_of, fixed_label_counts, known_counts, other, total_count}

abbrev pub sum_of : List (Bytes × ℕ) → ℕ
sum_of [] = 0
sum_of ((k, n) ∷ ns) = n + sum_of ns

abbrev pub knows : Bytes → List (Bytes × Bytes) → Bool
knows k [] = false
knows k ((key, label) ∷ known) = bytes_eq k key || knows k known

abbrev pub unknown : List (Bytes × Bytes) → List (Bytes × ℕ) → List (Bytes × ℕ)
unknown known [] = []
unknown known ((k, n) ∷ ns) =
    let rest = unknown known ns in if knows k known then rest else (k, n) ∷ rest

-- No key stands twice.
abbrev pub HasOnce {ℓ} : {A : Type ℓ} → List (Bytes × A) → Type ℓ
HasOnce [] = Unit
HasOnce ((k, x) ∷ xs) = All (λ y. bytes_eq k y.0 ≡ false) xs × HasOnce xs

total_count-sum_of : (ns : List (Bytes × ℕ)) → sum_of ns < 2 ^ 64 → total_count ns ≡ sum_of ns
unfolding total_count
total_count-sum_of [] h = refl
total_count-sum_of ((k, n) ∷ ns) h = omega (arith, h, total_count-sum_of ns (omega (arith, h)))

bytes_eq_sym : (a b : Bytes) → bytes_eq a b ≡ bytes_eq b a
unfolding bytes_eq
bytes_eq_sym [] [] = refl
bytes_eq_sym [] (b ∷ bs) = refl
bytes_eq_sym (a ∷ as') [] = refl
bytes_eq_sym (a ∷ as') (b ∷ bs) = ground (arith, bytes_eq_sym as' bs)

count_of-fresh :
    (k : Bytes) (ns : List (Bytes × ℕ))
    → All (λ (y : Bytes × ℕ). bytes_eq k y.0 ≡ false) ns
    → count_of k ns ≡ 0
count_of-fresh k [] h = refl
count_of-fresh k ((j, n) ∷ ns) h = rw (bytes_eq_sym j k, h.0) (count_of-fresh k ns h.1)

knows-fresh :
    (k : Bytes) (known : List (Bytes × Bytes))
    → All (λ (y : Bytes × Bytes). bytes_eq k y.0 ≡ false) known
    → knows k known ≡ false
knows-fresh k [] h = refl
knows-fresh k ((j, label) ∷ known) h = rw (h.0, knows-fresh k known h.1) refl

-- A further key adds its count where it is known.
known_counts-cons :
    (k : Bytes) (n : ℕ) (ns : List (Bytes × ℕ)) (known : List (Bytes × Bytes))
    → count_of k ns ≡ 0
    → HasOnce known
    → sum_of (known_counts ((k, n) ∷ ns) known)
      ≡ (if knows k known then n else 0) + sum_of (known_counts ns known)
unfolding known_counts
known_counts-cons k n ns [] z h = refl
known_counts-cons k n ns ((key, label) ∷ known) z h = elim (Bool-cases (bytes_eq k key)) [
  | inl e ↦
      let same = bytes_eq→eq k key e in
      let none' : count_of key ns ≡ 0 = subst (λ j. count_of j ns ≡ 0) same z in
      let absent : knows k known ≡ false =
        subst (λ j. knows j known ≡ false) (sym same) (knows-fresh key known h.0) in
      let rest : sum_of (known_counts ((k, n) ∷ ns) known) ≡ 0 + sum_of (known_counts ns known) =
        subst
          (λ b.
            sum_of (known_counts ((k, n) ∷ ns) known)
            ≡ (if b then n else 0) + sum_of (known_counts ns known))
          absent (known_counts-cons k n ns known z h.1) in
      rw e (omega (arith, none', rest))
  | inr e ↦ rw e (omega (arith, known_counts-cons k n ns known z h.1))
]

no_counts : (known : List (Bytes × Bytes)) → sum_of (known_counts [] known) ≡ 0
unfolding known_counts
no_counts [] = refl
no_counts ((key, label) ∷ known) = omega (arith, no_counts known)

-- Every count is matched by one label, or unknown.
sum_of-unknown :
    (ns : List (Bytes × ℕ)) (known : List (Bytes × Bytes))
    → HasOnce ns
    → HasOnce known
    → sum_of ns ≡ sum_of (known_counts ns known) + sum_of (unknown known ns)
sum_of-unknown [] known h g = omega (arith, no_counts known)
sum_of-unknown ((k, n) ∷ ns) known h g =
    let step = known_counts-cons k n ns known (count_of-fresh k ns h.0) g in
    let rest = sum_of-unknown ns known h.1 g in
    elim (Bool-cases (knows k known)) [
      | inl e ↦
          let matched =
            subst
              (λ b.
                sum_of (known_counts ((k, n) ∷ ns) known)
                ≡ (if b then n else 0) + sum_of (known_counts ns known))
              e step in
          rw e (omega (arith, matched, rest))
      | inr e ↦
          let matched =
            subst
              (λ b.
                sum_of (known_counts ((k, n) ∷ ns) known)
                ≡ (if b then n else 0) + sum_of (known_counts ns known))
              e step in
          rw e (omega (arith, matched, rest))
    ]

difference : (m o t : ℕ) → t < 2 ^ 64 → t ≡ m + o → (t + 2 ^ 64 - m) % 2 ^ 64 ≡ o
difference m o t lt e = omega arith

-- The entries of a key.
abbrev pub entries_of : Bytes → List (Bytes × ℕ) → List (Bytes × ℕ)
entries_of key [] = []
entries_of key ((k, n) ∷ ns) =
    let rest = entries_of key ns in if bytes_eq k key then (k, n) ∷ rest else rest

abbrev pub labelled : List (Bytes × ℕ) → Bytes × Bytes → Bytes × ℕ
labelled by_key (key, label) = (label, sum_of (entries_of key by_key))

entries_of-fresh :
    (k : Bytes) (ns : List (Bytes × ℕ))
    → All (λ (y : Bytes × ℕ). bytes_eq k y.0 ≡ false) ns
    → entries_of k ns ≡ []
entries_of-fresh k [] h = refl
entries_of-fresh k ((j, n) ∷ ns) h = rw (bytes_eq_sym j k, h.0) (entries_of-fresh k ns h.1)

count_of-entries_of :
    (key : Bytes) (ns : List (Bytes × ℕ))
    → HasOnce ns
    → count_of key ns ≡ sum_of (entries_of key ns)
count_of-entries_of key [] h = refl
count_of-entries_of key ((k, n) ∷ ns) h = elim (Bool-cases (bytes_eq k key)) [
  | inl e ↦
      let none' : entries_of key ns ≡ [] =
        subst (λ j. entries_of j ns ≡ []) (bytes_eq→eq k key e) (entries_of-fresh k ns h.0) in
      rw e (omega (arith, ap sum_of none'))
  | inr e ↦ rw e (count_of-entries_of key ns h.1)
]

known_counts-labelled :
    (by_key : List (Bytes × ℕ)) (known : List (Bytes × Bytes))
    → HasOnce by_key
    → known_counts by_key known ≡ map (labelled by_key) known
unfolding known_counts
known_counts-labelled by_key [] h = refl
known_counts-labelled by_key ((key, label) ∷ known) h =
    rw (count_of-entries_of key by_key h, known_counts-labelled by_key known h) refl

-- FixedLabelCounts gives, for each known key in turn, its label with what the map has under the
-- key, or zero, and then other with the sum of the keys that are not known, when no key stands
-- twice and the counts sum to less than 2^64.
pub fixed_label_counts-other :
    (by_key : List (Bytes × ℕ)) (known : List (Bytes × Bytes))
    → HasOnce by_key
    → HasOnce known
    → sum_of by_key < 2 ^ 64
    → fixed_label_counts by_key known
      ≡ map (labelled by_key) known ++ (other, sum_of (unknown known by_key)) ∷ []
unfolding fixed_label_counts
fixed_label_counts-other by_key known h g lt =
    let parts = sum_of-unknown by_key known h g in
    let matched = total_count-sum_of (known_counts by_key known) (omega (arith, parts, lt)) in
    let labels = known_counts-labelled by_key known h in
    rw (total_count-sum_of by_key lt, matched)
      (ap (λ n. known_counts by_key known ++ (other, n) ∷ [])
        (difference (sum_of (known_counts by_key known)) (sum_of (unknown known by_key))
          (sum_of by_key) lt parts))
    ∙ ap (λ (ls : List (Bytes × ℕ)). ls ++ (other, sum_of (unknown known by_key)) ∷ []) labels
