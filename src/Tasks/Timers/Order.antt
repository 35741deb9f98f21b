-- ===== src/Tasks/Timers/Order.antt =====
-- The order of the pairs of ManualExecutor and ThreadExecutor, and the timers they stand for.
use pp_cpp_common.Common.{
  All, All-map, Bool, Bool-cases, List, Option-cases, [], arith, false, if◌then◌else◌, inl, inr,
  none, some, true, ℕ, ◌==◌, ◌||◌, ◌∷◌, ◌≡◌, ◌≤◌,
}
use pp_cpp_common.Tasks.Timers.{
  Timers, arm, cancel_timer, drop_cancelled, due_lt, emplace_timer, erase_timer, find_timer,
  insert_deadline,
}

due_lt_trans : (x y z : ℕ × ℕ) → due_lt x y ≡ true → due_lt y z ≡ true → due_lt x z ≡ true
unfolding due_lt
due_lt_trans (a, i) (b, j) (c, k) h g = ground arith

-- Neither before the other: the same pair.
due_lt_total : (x y : ℕ × ℕ) → due_lt x y ≡ false → due_lt y x ≡ false → (x.0 ≡ y.0) × (x.1 ≡ y.1)
unfolding due_lt
due_lt_total (a, i) (b, j) h g = (ground arith, ground arith)

abbrev pub AreOrdered : List (ℕ × ℕ) → Type 0
AreOrdered [] = Unit {0}
AreOrdered (x ∷ xs) = All (λ y. due_lt x y ≡ true) xs × AreOrdered xs

-- Every deadline is at least `now`.
abbrev pub AreFrom : ℕ → List (ℕ × ℕ) → Type 0
AreFrom now = All (λ (x : ℕ × ℕ). now ≤ x.0)

-- What comes behind a pair is due no earlier.
pub AreFrom-later :
    (x : ℕ × ℕ) (ds : List (ℕ × ℕ)) → All (λ y. due_lt x y ≡ true) ds → AreFrom x.0 ds
unfolding due_lt
AreFrom-later x [] h = tt
AreFrom-later (d, i) ((e, j) ∷ ds) h = (ground (arith, h.0), AreFrom-later (d, i) ds h.1)

pub All-insert_deadline {ℓ} :
    (P : ℕ × ℕ → Type ℓ) (x : ℕ × ℕ) (ys : List (ℕ × ℕ))
    → P x
    → All P ys
    → All P (insert_deadline x ys)
unfolding insert_deadline
All-insert_deadline P x [] p h = (p, tt)
All-insert_deadline P x (y ∷ ys) p h = elim (Bool-cases (due_lt x y)) [
  | inl e ↦ rw e (p, h)
  | inr e ↦ elim (Bool-cases (due_lt y x)) [
    | inl f ↦ rw (e, f) (h.0, All-insert_deadline P x ys p h.1)
    | inr f ↦ rw (e, f) h
  ]
]

pub insert_deadline-AreOrdered :
    (x : ℕ × ℕ) (ys : List (ℕ × ℕ)) → AreOrdered ys → AreOrdered (insert_deadline x ys)
unfolding insert_deadline
insert_deadline-AreOrdered x [] h = (tt, tt)
insert_deadline-AreOrdered x (y ∷ ys) h = elim (Bool-cases (due_lt x y)) [
  | inl e ↦ rw e (
    (
      e,
      All-map (λ z. due_lt y z ≡ true) (λ z. due_lt x z ≡ true) ys (λ z. due_lt_trans x y z e) h.0,
    ),
    h,
  )
  | inr e ↦ elim (Bool-cases (due_lt y x)) [
    | inl f ↦
        rw (e, f)
          (
            All-insert_deadline (λ z. due_lt y z ≡ true) x ys f h.0,
            insert_deadline-AreOrdered x ys h.1,
          )
    | inr f ↦ rw (e, f) h
  ]
]

-- Some pair has this id.
unfoldable pub has_deadline : ℕ → List (ℕ × ℕ) → Bool
has_deadline id [] = false
has_deadline id ((d, j) ∷ ds) = j == id || has_deadline id ds

has_deadline-insert :
    (id : ℕ) (x : ℕ × ℕ) (ys : List (ℕ × ℕ))
    → (x.1 == id || has_deadline id ys) ≡ true
    → has_deadline id (insert_deadline x ys) ≡ true
unfolding has_deadline insert_deadline
has_deadline-insert id (d, i) [] h = h
has_deadline-insert id (d, i) ((e, j) ∷ ys) h = elim (Bool-cases (due_lt (d, i) (e, j))) [
  | inl p ↦ rw p h
  | inr p ↦ elim (Bool-cases (due_lt (e, j) (d, i))) [
    | inl q ↦ rw (p, q) (ground (arith, has_deadline-insert id (d, i) ys))
    | inr q ↦ rw (p, q) (ground (arith, due_lt_total (d, i) (e, j) p q))
  ]
]

module _ {ℓ} {T : Type ℓ} where
  -- Every live timer has its pair.
  abbrev pub AreArmed : List (ℕ × ℕ) → List (ℕ × T) → Type ℓ
  AreArmed ds ts = (id : ℕ) (t : T) → find_timer id ts ≡ some t → has_deadline id ds ≡ true

module _ {ℓ} {T : Type ℓ} where
  -- The state of the timers at a time.
  pub record IsTimed (now : ℕ) (s : Timers T) : Type ℓ where
    pub ordered : AreOrdered s.deadlines
    pub from_now : AreFrom now s.deadlines
    pub armed : AreArmed s.deadlines s.timers

module _ {ℓ} {T : Type ℓ} where
  -- A cancelled timer is not found, and every other one is.
  pub find-erase_timer :
      (id j : ℕ) (ts : List (ℕ × T))
      → find_timer j (erase_timer id ts) ≡ (if id == j then none else find_timer j ts)
  unfolding find_timer erase_timer
  find-erase_timer id j [] = ground arith
  find-erase_timer id j ((k, t) ∷ ts) = ground (arith, find-erase_timer id j ts)

  -- A pair whose timer is taken, or was cancelled, is no longer needed.
  pub armed_behind :
      (d i : ℕ) (rest : List (ℕ × ℕ)) (ts : List (ℕ × T))
      → AreArmed ((d, i) ∷ rest) ts
      → AreArmed rest (erase_timer i ts)
  unfolding has_deadline
  armed_behind d i rest ts h j t e = ground (arith, find-erase_timer i j ts, h j t)

  pub armed_without :
      (d i : ℕ) (rest : List (ℕ × ℕ)) (ts : List (ℕ × T))
      → find_timer i ts ≡ none
      → AreArmed ((d, i) ∷ rest) ts
      → AreArmed rest ts
  unfolding has_deadline
  armed_without d i rest ts e h j t f = ground (arith, h j t f)

  pub AreArmed-erase :
      (ds : List (ℕ × ℕ)) (id : ℕ) (ts : List (ℕ × T))
      → AreArmed ds ts
      → AreArmed ds (erase_timer id ts)
  AreArmed-erase ds id ts h j t e = h j t (ground (arith, find-erase_timer id j ts))

  pub AreArmed-emplace :
      (d id : ℕ) (t : T) (ds : List (ℕ × ℕ)) (ts : List (ℕ × T))
      → AreArmed ds ts
      → AreArmed (insert_deadline (d, id) ds) (emplace_timer id t ts)
  unfolding emplace_timer find_timer
  AreArmed-emplace d id t ds ts h j u e =
      has_deadline-insert j (d, id) ds
        (elim (Option-cases (find_timer id ts)) [
          | inl f ↦ ground (arith, h j u)
          | inr (v, f) ↦ ground (arith, h j u)
        ])

  -- A timer armed for now or later keeps the state.
  pub arm-IsTimed :
      (now deadline : ℕ) (t : T) (s : Timers T)
      → now ≤ deadline
      → IsTimed now s
      → IsTimed now (arm deadline t s).1
  unfolding arm
  arm-IsTimed now deadline t s due h =
      let x : ℕ × ℕ = (deadline, s.next_timer) in
      record {
        ordered = insert_deadline-AreOrdered x s.deadlines h.ordered;
        from_now = All-insert_deadline (λ (y : ℕ × ℕ). now ≤ y.0) x s.deadlines due h.from_now;
        armed = AreArmed-emplace deadline s.next_timer t s.deadlines s.timers h.armed;
      }

  pub cancel_timer-IsTimed :
      (now id : ℕ) (s : Timers T) → IsTimed now s → IsTimed now (cancel_timer id s)
  unfolding cancel_timer
  cancel_timer-IsTimed now id s h = record {
    ordered = h.ordered;
    from_now = h.from_now;
    armed = AreArmed-erase s.deadlines id s.timers h.armed;
  }

  drop_cancelled-AreArmed :
      (ts : List (ℕ × T)) (ds : List (ℕ × ℕ)) → AreArmed ds ts → AreArmed (drop_cancelled ts ds) ts
  unfolding drop_cancelled has_deadline
  drop_cancelled-AreArmed ts [] h = h
  drop_cancelled-AreArmed ts ((d, i) ∷ ds) h = elim (Option-cases (find_timer i ts)) [
    | inl e ↦
        rw (e, drop_cancelled) (drop_cancelled-AreArmed ts ds (λ j t f. ground (arith, h j t f)))
    | inr (u, e) ↦ rw (e, drop_cancelled) h
  ]

  All-drop_cancelled {κ} :
      (P : ℕ × ℕ → Type κ) (ts : List (ℕ × T)) (ds : List (ℕ × ℕ))
      → All P ds
      → All P (drop_cancelled ts ds)
  unfolding drop_cancelled
  All-drop_cancelled P ts [] h = tt
  All-drop_cancelled P ts ((d, i) ∷ ds) h = elim (Option-cases (find_timer i ts)) [
    | inl e ↦ rw (e, drop_cancelled) (All-drop_cancelled P ts ds h.1)
    | inr (u, e) ↦ rw (e, drop_cancelled) h
  ]

  drop_cancelled-AreOrdered :
      (ts : List (ℕ × T)) (ds : List (ℕ × ℕ)) → AreOrdered ds → AreOrdered (drop_cancelled ts ds)
  unfolding drop_cancelled
  drop_cancelled-AreOrdered ts [] h = tt
  drop_cancelled-AreOrdered ts ((d, i) ∷ ds) h = elim (Option-cases (find_timer i ts)) [
    | inl e ↦ rw (e, drop_cancelled) (drop_cancelled-AreOrdered ts ds h.1)
    | inr (u, e) ↦ rw (e, drop_cancelled) h
  ]

  -- The first pair that is left belongs to a live timer.
  pub drop_cancelled-live :
      (ts : List (ℕ × T)) (ds : List (ℕ × ℕ)) (d i : ℕ) (rest : List (ℕ × ℕ))
      → drop_cancelled ts ds ≡ (d, i) ∷ rest
      → (t : T) × (find_timer i ts ≡ some t)
  unfolding drop_cancelled
  drop_cancelled-live ts [] d i rest h = ground arith
  drop_cancelled-live ts ((e, j) ∷ ds) d i rest h = elim (Option-cases (find_timer j ts)) [
    | inl f ↦ drop_cancelled-live ts ds d i rest (rw (f, drop_cancelled) at h)
    | inr (t, f) ↦ (t, ground arith)
  ]

  pub drop_cancelled-IsTimed :
      (now : ℕ) (s : Timers T)
      → IsTimed now s
      → IsTimed now (record s { deadlines = drop_cancelled s.timers s.deadlines })
  drop_cancelled-IsTimed now s h = record {
    ordered = drop_cancelled-AreOrdered s.timers s.deadlines h.ordered;
    from_now = All-drop_cancelled (λ (x : ℕ × ℕ). now ≤ x.0) s.timers s.deadlines h.from_now;
    armed = drop_cancelled-AreArmed s.timers s.deadlines h.armed;
  }
