-- ===== src/FifoMap/Entries.antt =====
-- The specification of FiFoMap: an association list in insertion order, with no index.
use mathlib.Core.Option
use pp_cpp_common.Common.{
  All, All-snoc, Bool-cases, List, Option, [], arith, false, get_elem?, if◌then◌else◌, inl, inr,
  length, ltb, none, refl, some, subst, suc, sym, true, zero, ℕ, ◌++◌, ◌-◌, ◌∙◌, ◌∷◌, ◌≡◌,
}
use pp_cpp_common.FifoMap.{Eq, assign, drop_key, find, remove_at}

-- Where a position goes when the entry at `idx` leaves.
abbrev pub moved : ℕ → ℕ → ℕ
moved idx i = if ltb idx i then i - 1 else i

module _ {ℓ κ} {K : Type ℓ} {V : Type κ} ⦃e : Eq K⦄ where
  unfoldable pub position : K → List (K × V) → Option ℕ
  position k [] = none
  position k ((j, v) ∷ es) =
      if e.beq j k then some 0 else Option.map (λ (i : ℕ). suc i) (position k es)

  unfoldable pub set_entry : K → V → List (K × V) → List (K × V)
  set_entry k v [] = (k, v) ∷ []
  set_entry k v ((j, w) ∷ es) = if e.beq j k then (j, v) ∷ es else (j, w) ∷ set_entry k v es

  -- No key stands twice.
  abbrev pub IsDistinct : List (K × V) → Type ℓ
  IsDistinct [] = Unit
  IsDistinct ((k, v) ∷ es) = All (λ (x : K × V). e.beq x.0 k ≡ false) es × IsDistinct es

module _ {ℓ κ μ} {K : Type ℓ} {V : Type κ} (P : K → Type μ) where
  All-assign :
      (v : V) (es : List (K × V)) (i : ℕ)
      → All (λ (x : K × V). P x.0) es
      → All (λ (x : K × V). P x.0) (assign i v es)
  unfolding assign
  All-assign v [] i h = tt
  All-assign v ((k, w) ∷ es) zero h = h
  All-assign v ((k, w) ∷ es) (suc i) h = (h.0, All-assign v es i h.1)

  All-remove_at :
      (es : List (K × V)) (i : ℕ)
      → All (λ (x : K × V). P x.0) es
      → All (λ (x : K × V). P x.0) (remove_at i es)
  unfolding remove_at
  All-remove_at [] i h = tt
  All-remove_at (x ∷ es) zero h = h.1
  All-remove_at (x ∷ es) (suc i) h = (h.0, All-remove_at es i h.1)

module _ {ℓ κ} {K : Type ℓ} {V : Type κ} ⦃e : Eq K⦄ where
  pub assign-position :
      (k : K) (v : V) (es : List (K × V)) (i : ℕ)
      → position k es ≡ some i
      → assign i v es ≡ set_entry k v es
  unfolding position assign set_entry
  assign-position k v [] i h = ground arith
  assign-position k v ((j, w) ∷ es) zero h = ground arith
  assign-position k v ((j, w) ∷ es) (suc i) h = ground (arith, assign-position k v es i)

  pub append-position :
      (k : K) (v : V) (es : List (K × V))
      → position k es ≡ none
      → es ++ (k, v) ∷ [] ≡ set_entry k v es
  unfolding position set_entry
  append-position k v [] h = refl
  append-position k v ((j, w) ∷ es) h = ground (arith, append-position k v es)

  pub value-position :
      (k : K) (es : List (K × V)) (i : ℕ)
      → position k es ≡ some i
      → Option.map (λ (x : K × V). x.1) (get_elem? es i) ≡ find k es
  unfolding position find
  value-position k [] i h = ground arith
  value-position k ((j, w) ∷ es) zero h = ground arith
  value-position k ((j, w) ∷ es) (suc i) h = ground (arith, value-position k es i)

  pub find-position : (k : K) (es : List (K × V)) → position k es ≡ none → find k es ≡ none
  unfolding position find
  find-position k [] h = refl
  find-position k ((j, w) ∷ es) h = ground (arith, find-position k es)

  pub position-append :
      (j k : K) (v : V) (es : List (K × V))
      → position j (es ++ (k, v) ∷ []) ≡ elim (position j es) [
        | none ↦ if e.beq k j then some (length es) else none
        | some i ↦ some i
      ]
  unfolding position
  position-append j k v [] = refl
  position-append j k v ((i, w) ∷ es) = ground (arith, position-append j k v es)

  pub position-assign :
      (j : K) (v : V) (es : List (K × V)) (i : ℕ) → position j (assign i v es) ≡ position j es
  unfolding position assign
  position-assign j v [] i = refl
  position-assign j v ((k, w) ∷ es) zero = refl
  position-assign j v ((k, w) ∷ es) (suc i) = rw (position-assign j v es i)

  pub IsDistinct-append :
      (k : K) (v : V) (es : List (K × V))
      → position k es ≡ none
      → IsDistinct es
      → IsDistinct (es ++ (k, v) ∷ [])
  unfolding position
  IsDistinct-append k v [] h d = (tt, tt)
  IsDistinct-append k v ((j, w) ∷ es) h d =
      let other : e.beq k j ≡ false = ground (arith, e.beq_iff j k, e.beq_iff k j) in
      (
        All-snoc (λ (x : K × V). e.beq x.0 j ≡ false) es (k, v) d.0 other,
        IsDistinct-append k v es (ground arith) d.1,
      )

  pub IsDistinct-assign :
      (v : V) (es : List (K × V)) (i : ℕ) → IsDistinct es → IsDistinct (assign i v es)
  unfolding assign
  IsDistinct-assign v [] i d = tt
  IsDistinct-assign v ((k, w) ∷ es) zero d = d
  IsDistinct-assign v ((k, w) ∷ es) (suc i) d =
      (All-assign (λ (j : K). e.beq j k ≡ false) v es i d.0, IsDistinct-assign v es i d.1)

  pub IsDistinct-remove_at :
      (es : List (K × V)) (i : ℕ) → IsDistinct es → IsDistinct (remove_at i es)
  unfolding remove_at
  IsDistinct-remove_at [] i d = tt
  IsDistinct-remove_at ((k, w) ∷ es) zero d = d.1
  IsDistinct-remove_at ((k, w) ∷ es) (suc i) d =
      (All-remove_at (λ (j : K). e.beq j k ≡ false) es i d.0, IsDistinct-remove_at es i d.1)

  position-absent :
      (k : K) (es : List (K × V))
      → All (λ (x : K × V). e.beq x.0 k ≡ false) es
      → position k es ≡ none
  unfolding position
  position-absent k [] h = refl
  position-absent k ((j, w) ∷ es) h = rw (h.0, position-absent k es h.1)

  pub position-remove_at :
      (j k : K) (es : List (K × V)) (idx : ℕ)
      → IsDistinct es
      → position k es ≡ some idx
      → position j (remove_at idx es)
        ≡ (if e.beq k j then none else Option.map (moved idx) (position j es))
  unfolding position remove_at
  position-remove_at j k [] idx d h = ground arith
  position-remove_at j k ((i, w) ∷ es) zero d h =
      let same : i ≡ k = ground (arith, e.beq_iff i k) in
      elim (Bool-cases (e.beq k j)) [
        | inl hit ↦
            let found : k ≡ j = (e.beq_iff k j).0 hit in
            let gone : position j es ≡ none =
              position-absent j es (
                subst (λ (n : K). All (λ (x : K × V). e.beq x.0 n ≡ false) es) (same ∙ found)
                  d.0) in
            rw (hit, gone)
        | inr miss ↦ let other : e.beq i j ≡ false = rw same miss in rw (miss, other) (ground arith)
      ]
  position-remove_at j k ((i, w) ∷ es) (suc idx) d h =
      ground (arith, e.beq_iff i k, e.beq_iff i j, e.beq_iff k j, position-remove_at j k es idx d.1)

  pub find-set_entry :
      (j k : K) (v : V) (es : List (K × V))
      → find j (set_entry k v es) ≡ (if e.beq k j then some v else find j es)
  unfolding find set_entry
  find-set_entry j k v [] = refl
  find-set_entry j k v ((i, w) ∷ es) =
      ground (arith, e.beq_iff i k, e.beq_iff i j, e.beq_iff k j, find-set_entry j k v es)

  -- The other entries keep their order when one leaves.
  pub find-remove_at :
      (j k : K) (es : List (K × V)) (idx : ℕ)
      → IsDistinct es
      → position k es ≡ some idx
      → find j (remove_at idx es) ≡ (if e.beq k j then none else find j es)
  unfolding position find remove_at
  find-remove_at j k [] idx d h = ground arith
  find-remove_at j k ((i, w) ∷ es) zero d h =
      let same : i ≡ k = ground (arith, e.beq_iff i k) in
      elim (Bool-cases (e.beq k j)) [
        | inl hit ↦
            let found : k ≡ j = (e.beq_iff k j).0 hit in
            let gone : position j es ≡ none =
              position-absent j es (
                subst (λ (n : K). All (λ (x : K × V). e.beq x.0 n ≡ false) es) (same ∙ found)
                  d.0) in
            rw hit (find-position j es gone)
        | inr miss ↦ let other : e.beq i j ≡ false = rw same miss in rw (miss, other)
      ]
  find-remove_at j k ((i, w) ∷ es) (suc idx) d h =
      ground (arith, e.beq_iff i k, e.beq_iff i j, e.beq_iff k j, find-remove_at j k es idx d.1)

  drop_key-absent :
      (k : K) (es : List (K × V)) → All (λ (x : K × V). e.beq x.0 k ≡ false) es → drop_key k es ≡ es
  unfolding drop_key
  drop_key-absent k [] h = refl
  drop_key-absent k ((j, w) ∷ es) h = rw (h.0) (rw (drop_key-absent k es h.1))

  pub remove_at-position :
      (k : K) (es : List (K × V)) (idx : ℕ)
      → IsDistinct es
      → position k es ≡ some idx
      → remove_at idx es ≡ drop_key k es
  unfolding position remove_at drop_key
  remove_at-position k [] idx d h = refl
  remove_at-position k ((j, w) ∷ es) zero d h =
      let hit : e.beq j k ≡ true = ground arith in
      let same : j ≡ k = (e.beq_iff j k).0 hit in
      let others =
        drop_key-absent k es
          (subst (λ (n : K). All (λ (x : K × V). e.beq x.0 n ≡ false) es) same d.0) in
      rw hit (sym others)
  remove_at-position k ((j, w) ∷ es) (suc idx) d h = ground (arith, remove_at-position k es idx d.1)

  pub drop_key-position : (k : K) (es : List (K × V)) → position k es ≡ none → drop_key k es ≡ es
  unfolding position drop_key
  drop_key-position k [] h = refl
  drop_key-position k ((j, w) ∷ es) h = ground (arith, drop_key-position k es)
