-- ===== src/FifoMap/Refinement.antt =====
-- FiFoMap against its specification, the association list of its entries.
use mathlib.Core.Option
use pp_cpp_common.Common.{
  List, Option-cases, [], arith, false, if◌then◌else◌, inl, inr, length, none, refl, some, sym,
  true, ℕ, ◌++◌, ◌∙◌, ◌∷◌, ◌≡◌,
}
use pp_cpp_common.FifoMap.{
  Eq, FifoMap, assign, contains, drop_key, empty_map, erase, find, remove_at, set, shift, try_get,
}
use pp_cpp_common.FifoMap.Entries.{
  IsDistinct, IsDistinct-append, IsDistinct-assign, IsDistinct-remove_at, append-position,
  assign-position, drop_key-position, find-position, find-remove_at, find-set_entry, moved,
  position, position-append, position-assign, position-remove_at, remove_at-position, set_entry,
  value-position,
}

module _ {ℓ κ} {K : Type ℓ} {V : Type κ} ⦃e : Eq K⦄ where
  -- The index holds the position of each key, and no key stands twice.
  pub record IsIndexed (m : FifoMap K V) : Type (ℓ ⊔ κ) where
    pub agrees : (k : K) → find k m.index ≡ position k m.entries
    pub distinct : IsDistinct m.entries

find-shift {ℓ} :
    {K : Type ℓ} ⦃e : Eq K⦄ (j k : K) (idx : ℕ) (m : List (K × ℕ))
    → find j (shift idx (drop_key k m))
      ≡ (if e.beq k j then none else Option.map (moved idx) (find j m))
unfolding find shift drop_key
find-shift j k idx [] = ground arith
find-shift ⦃e⦄ j k idx ((i, p) ∷ m) =
    ground (arith, e.beq_iff i k, e.beq_iff i j, e.beq_iff k j, find-shift j k idx m)

module _ {ℓ κ} {K : Type ℓ} {V : Type κ} ⦃e : Eq K⦄ where
  pub empty_map-IsIndexed : IsIndexed (empty_map {K = K} {V = V})
  unfolding empty_map find position
  empty_map-IsIndexed = record { agrees = λ k. refl; distinct = tt }

  set-absent :
      (m : FifoMap K V) (k : K) (v : V)
      → find k m.index ≡ none
      → set m k v
        ≡ record { entries = m.entries ++ (k, v) ∷ []; index = (k, length m.entries) ∷ m.index }
  unfolding set
  set-absent m k v h = rw (h, set)

  set-present :
      (m : FifoMap K V) (k : K) (v : V) (i : ℕ)
      → find k m.index ≡ some i
      → set m k v ≡ record m { entries = assign i v m.entries }
  unfolding set
  set-present m k v i h = rw (h, set)

  erase-absent : (m : FifoMap K V) (k : K) → find k m.index ≡ none → erase m k ≡ (m, false)
  unfolding erase
  erase-absent m k h = rw (h, erase)

  erase-present :
      (m : FifoMap K V) (k : K) (i : ℕ)
      → find k m.index ≡ some i
      → erase m k
        ≡ (record { entries = remove_at i m.entries; index = shift i (drop_key k m.index) }, true)
  unfolding erase
  erase-present m k i h = rw (h, erase)

  appended_agrees :
      (m : FifoMap K V) (k : K) (v : V)
      → IsIndexed m
      → position k m.entries ≡ none
      → (j : K) → find j ((k, length m.entries) ∷ m.index) ≡ position j (m.entries ++ (k, v) ∷ [])
  unfolding find
  appended_agrees m k v h absent j =
      ground (arith, e.beq_iff k j, h.agrees j, position-append j k v m.entries)

  -- Set keeps the index in step with the entries, with no key twice.
  pub set-IsIndexed : (m : FifoMap K V) (k : K) (v : V) → IsIndexed m → IsIndexed (set m k v)
  set-IsIndexed m k v h = elim (Option-cases (position k m.entries)) [
    | inl absent ↦ rw (set-absent m k v (h.agrees k ∙ absent)) (record {
      agrees = appended_agrees m k v h absent;
      distinct = IsDistinct-append k v m.entries absent h.distinct;
    })
    | inr (i, here) ↦ rw (set-present m k v i (h.agrees k ∙ here)) (record {
      agrees = λ j. h.agrees j ∙ sym (position-assign j v m.entries i);
      distinct = IsDistinct-assign v m.entries i h.distinct;
    })
  ]

  -- Erase keeps the index in step with the entries: positions behind the erased entry move down by
  -- one.
  pub erase-IsIndexed : (m : FifoMap K V) (k : K) → IsIndexed m → IsIndexed (erase m k).0
  erase-IsIndexed m k h = elim (Option-cases (position k m.entries)) [
    | inl absent ↦ rw (erase-absent m k (h.agrees k ∙ absent)) h
    | inr (i, here) ↦ rw (erase-present m k i (h.agrees k ∙ here)) (record {
      agrees = λ j.
          find-shift j k i m.index
          ∙ rw (h.agrees j) (sym (position-remove_at j k m.entries i h.distinct here));
      distinct = IsDistinct-remove_at m.entries i h.distinct;
    })
  ]

  -- On a map whose index agrees with its entries, set updates the entry of the key in its place or
  -- appends a new one.
  pub entries-set :
      (m : FifoMap K V) (k : K) (v : V)
      → IsIndexed m
      → (set m k v).entries ≡ set_entry k v m.entries
  entries-set m k v h = elim (Option-cases (position k m.entries)) [
    | inl absent ↦
        rw (set-absent m k v (h.agrees k ∙ absent)) (append-position k v m.entries absent)
    | inr (i, here) ↦
        rw (set-present m k v i (h.agrees k ∙ here)) (assign-position k v m.entries i here)
  ]

  -- tryGet finds what the entries hold under the key.
  pub try_get-find : (m : FifoMap K V) (k : K) → IsIndexed m → try_get m k ≡ find k m.entries
  unfolding try_get
  try_get-find m k h = elim (Option-cases (position k m.entries)) [
    | inl absent ↦ rw (h.agrees k ∙ absent, try_get) (sym (find-position k m.entries absent))
    | inr (i, here) ↦ rw (h.agrees k ∙ here, try_get) (value-position k m.entries i here)
  ]

  -- After set the key has its new value and every other key what it had.
  pub try_get-set :
      (m : FifoMap K V) (j k : K) (v : V)
      → IsIndexed m
      → try_get (set m k v) j ≡ (if e.beq k j then some v else try_get m j)
  try_get-set m j k v h =
      rw
        (
          try_get-find (set m k v) j (set-IsIndexed m k v h),
          entries-set m k v h,
          try_get-find m j h,
        )
        (find-set_entry j k v m.entries)

  -- After erase the key is gone and every other key keeps its value.
  pub try_get-erase :
      (m : FifoMap K V) (j k : K)
      → IsIndexed m
      → try_get (erase m k).0 j ≡ (if e.beq k j then none else try_get m j)
  try_get-erase m j k h =
      rw (try_get-find (erase m k).0 j (erase-IsIndexed m k h), try_get-find m j h)
        (elim (Option-cases (position k m.entries)) [
          | inl absent ↦
              rw (erase-absent m k (h.agrees k ∙ absent))
                (ground (arith, e.beq_iff k j, find-position k m.entries absent))
          | inr (i, here) ↦
              rw (erase-present m k i (h.agrees k ∙ here))
                (find-remove_at j k m.entries i h.distinct here)
        ])

  -- Erase takes the entry of the key out, leaves the others in their order and answers whether
  -- there was one.
  pub entries-erase :
      (m : FifoMap K V) (k : K)
      → IsIndexed m
      → ((erase m k).0.entries ≡ drop_key k m.entries) × ((erase m k).1 ≡ contains m k)
  unfolding contains
  entries-erase m k h = elim (Option-cases (position k m.entries)) [
    | inl absent ↦
        rw (erase-absent m k (h.agrees k ∙ absent))
          (sym (drop_key-position k m.entries absent), rw (h.agrees k ∙ absent, contains))
    | inr (i, here) ↦
        rw (erase-present m k i (h.agrees k ∙ here))
          (remove_at-position k m.entries i h.distinct here, rw (h.agrees k ∙ here, contains))
  ]
