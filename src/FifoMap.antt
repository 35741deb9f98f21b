-- ===== src/FifoMap.antt =====
-- include/common/FiFoMap.h: entries in the order of their first insertion, and an index from keys to
-- positions. The std::unordered_map behind the index is an association list.
pub mod Entries
use mathlib.Core.Option
pub mod Refinement
mod Tests
use pp_cpp_common.Common.{
  Bool, List, Option, [], false, get_elem?, if◌then◌else◌, length, ltb, none, some, suc, true, zero,
  ℕ, ◌&&◌, ◌++◌, ◌-◌, ◌↔◌, ◌∷◌, ◌≡◌,
}

-- What std::unordered_map asks of a key type.
pub record Eq {ℓ} (A : Type ℓ) : Type ℓ where
  pub beq : A → A → Bool
  pub beq_iff : (a b : A) → (beq a b ≡ true) ↔ (a ≡ b)

module _ {ℓ κ} {K : Type ℓ} {V : Type κ} ⦃e : Eq K⦄ where
  unfoldable pub find : K → List (K × V) → Option V
  find k [] = none
  find k ((j, v) ∷ m) = if e.beq j k then some v else find k m

  -- `erase(it)`: the key is gone.
  unfoldable pub drop_key : K → List (K × V) → List (K × V)
  drop_key k [] = []
  drop_key k ((j, v) ∷ m) = if e.beq j k then drop_key k m else (j, v) ∷ drop_key k m

-- `entries_[i].second = v` and `entries_.erase(begin() + i)`.
module _ {ℓ κ} {K : Type ℓ} {V : Type κ} where
  unfoldable pub assign : ℕ → V → List (K × V) → List (K × V)
  assign i v [] = []
  assign zero v ((j, w) ∷ es) = (j, v) ∷ es
  assign (suc i) v ((j, w) ∷ es) = (j, w) ∷ assign i v es

  unfoldable pub remove_at : ℕ → List (K × V) → List (K × V)
  remove_at i [] = []
  remove_at zero (x ∷ es) = es
  remove_at (suc i) (x ∷ es) = x ∷ remove_at i es

-- The loop of `erase` over the index.
unfoldable pub shift {ℓ} : {K : Type ℓ} → ℕ → List (K × ℕ) → List (K × ℕ)
shift idx [] = []
shift idx ((k, i) ∷ m) = (k, if ltb idx i then i - 1 else i) ∷ shift idx m

pub record FifoMap {ℓ κ} (K : Type ℓ) (V : Type κ) : Type (ℓ ⊔ κ) where
  pub entries : List (K × V)
  pub index : List (K × ℕ)

module _ {ℓ κ} {K : Type ℓ} {V : Type κ} where
  pub empty_map : FifoMap K V
  empty_map = record { entries = []; index = [] }

  pub size : FifoMap K V → ℕ
  size m = length m.entries

module _ {ℓ κ} {K : Type ℓ} {V : Type κ} ⦃e : Eq K⦄ where
  pub contains : FifoMap K V → K → Bool
  contains m k = elim (find k m.index) [ none ↦ false | some i ↦ true ]

  -- `entries_[i].second`; none past the end.
  abbrev pub value_at : FifoMap K V → ℕ → Option V
  value_at m i = Option.map (λ (entry : K × V). entry.1) (get_elem? m.entries i)

  pub set : FifoMap K V → K → V → FifoMap K V
  set m k v = elim (find k m.index) [
    | none ↦ record { entries = m.entries ++ (k, v) ∷ []; index = (k, length m.entries) ∷ m.index }
    | some i ↦ record m { entries = assign i v m.entries }
  ]

  -- `tryGet`, and `at` with none for std::out_of_range.
  pub try_get : FifoMap K V → K → Option V
  try_get m k = elim (find k m.index) [ none ↦ none | some i ↦ value_at m i ]

  pub erase : FifoMap K V → K → FifoMap K V × Bool
  erase m k = elim (find k m.index) [
    | none ↦ (m, false)
    | some i ↦
        (record { entries = remove_at i m.entries; index = shift i (drop_key k m.index) }, true)
  ]

  -- `operator==`, with the values' own equality.
  unfoldable pub entries_eq : (V → V → Bool) → List (K × V) → List (K × V) → Bool
  entries_eq veq [] [] = true
  entries_eq veq [] (y ∷ ys) = false
  entries_eq veq (x ∷ xs) [] = false
  entries_eq veq (x ∷ xs) (y ∷ ys) = e.beq x.0 y.0 && veq x.1 y.1 && entries_eq veq xs ys
