-- ===== src/Tasks/Thread/Order.antt =====
-- The order in which ThreadExecutor queues the timers that are due.
use pp_cpp_common.Common.{
  All, All-map, Bool-cases, List, Option, Option-cases, [], ap, append-nil, append_assoc, arith,
  false, if◌then◌else◌, inl, inr, ltb, none, refl, some, suc, sym, true, ℕ, ◌++◌, ◌<◌, ◌∙◌, ◌∷◌,
  ◌≡◌, ◌≤◌,
}
use pp_cpp_common.Tasks.Thread.{ThreadExecutor, queue_due, queue_due_timers_locked}
use pp_cpp_common.Tasks.Timers.{erase_timer, find_timer}
use pp_cpp_common.Tasks.Timers.Order.{
  AreArmed, AreFrom, AreFrom-later, AreOrdered, armed_behind, armed_without, find-erase_timer,
  has_deadline,
}

-- An id has one pair.
abbrev pub AreUnique : List (ℕ × ℕ) → Type 0
AreUnique [] = Unit {0}
AreUnique ((d, id) ∷ ds) = (has_deadline id ds ≡ false) × AreUnique ds

later_pairs :
    (now d id : ℕ) (ds : List (ℕ × ℕ))
    → ltb now d ≡ true
    → AreOrdered ((d, id) ∷ ds)
    → AreFrom (suc now) ((d, id) ∷ ds)
later_pairs now d id ds later h = (
  ground arith,
  All-map (λ (x : ℕ × ℕ). d ≤ x.0) (λ x. suc now ≤ x.0) ds (λ x p. ground arith)
      (AreFrom-later (d, id) ds h.0),
)

module _ {ℓ} {T : Type ℓ} where
  abbrev pub when_live : Option T → List T → List T
  when_live none ts = ts
  when_live (some t) ts = t ∷ ts

  -- The tasks of the live timers due by `now`, in the order of the pairs.
  unfoldable pub ready : ℕ → List (ℕ × T) → List (ℕ × ℕ) → List T
  ready now ts [] = []
  ready now ts ((d, id) ∷ ds) =
      if ltb now d then ready now ts ds else when_live (find_timer id ts) (ready now ts ds)

  ready_later :
      (now : ℕ) (ts : List (ℕ × T)) (ds : List (ℕ × ℕ))
      → AreFrom (suc now) ds
      → ready now ts ds ≡ []
  unfolding ready
  ready_later now ts [] h = refl
  ready_later now ts ((d, id) ∷ ds) h = ground (arith, h.0, ready_later now ts ds h.1)

  ready-erase_timer :
      (now id : ℕ) (ts : List (ℕ × T)) (ds : List (ℕ × ℕ))
      → has_deadline id ds ≡ false
      → ready now (erase_timer id ts) ds ≡ ready now ts ds
  unfolding ready has_deadline
  ready-erase_timer now id ts [] h = refl
  ready-erase_timer now id ts ((d, j) ∷ ds) h =
      ground (arith, find-erase_timer id j ts, ready-erase_timer now id ts ds)

  queue_due-ready :
      (now : ℕ) (ds : List (ℕ × ℕ)) (ts : List (ℕ × T)) (tasks : List T)
      → AreOrdered ds
      → AreUnique ds
      → (queue_due now ds ts tasks).2 ≡ tasks ++ ready now ts ds
  unfolding queue_due ready
  queue_due-ready now [] ts tasks h u = sym (append-nil tasks)
  queue_due-ready now ((d, id) ∷ ds) ts tasks h u = elim (Bool-cases (ltb now d)) [
    | inl later ↦
        rw (later, ready_later now ts ds (later_pairs now d id ds later h).1)
          (sym (append-nil tasks))
    | inr due ↦ elim (Option-cases (find_timer id ts)) [
      | inl e ↦ rw (due, e, queue_due) (queue_due-ready now ds ts tasks h.1 u.1)
      | inr (t, e) ↦
          rw (due, e, queue_due)
            (queue_due-ready now ds (erase_timer id ts) (tasks ++ t ∷ []) h.1 u.1
              ∙ ap (λ rs. (tasks ++ t ∷ []) ++ rs) (ready-erase_timer now id ts ds u.0)
              ∙ append_assoc tasks (t ∷ []) (ready now ts ds))
    ]
  ]

  -- The pairs after a run of the loop: a part of the pairs before, with none due.
  queue_due_pairs :
      (P : ℕ × ℕ → Type 0) (now : ℕ) (ds : List (ℕ × ℕ)) (ts : List (ℕ × T)) (tasks : List T)
      → AreOrdered ds
      → AreUnique ds
      → All P ds
      → AreArmed ds ts
      → (let (ds', ts', tasks') = queue_due now ds ts tasks in
          AreOrdered ds' × AreUnique ds' × All P ds' × AreArmed ds' ts' × AreFrom (suc now) ds')
  unfolding queue_due
  queue_due_pairs P now [] ts tasks h u p a = (tt, tt, tt, a, tt)
  queue_due_pairs P now ((d, id) ∷ ds) ts tasks h u p a = elim (Bool-cases (ltb now d)) [
    | inl later ↦ rw later (h, u, p, a, later_pairs now d id ds later h)
    | inr due ↦ elim (Option-cases (find_timer id ts)) [
      | inl e ↦
          rw (due, e, queue_due)
            (queue_due_pairs P now ds ts tasks h.1 u.1 p.1 (armed_without d id ds ts e a))
      | inr (t, e) ↦
          rw (due, e, queue_due)
            (queue_due_pairs P now ds (erase_timer id ts) (tasks ++ t ∷ []) h.1 u.1 p.1
              (armed_behind d id ds ts a))
    ]
  ]

module _ {ℓ} {T : Type ℓ} where
  -- The state of the timers: pairs in order, with ids of their own below the next one, and one for
  -- every live timer.
  pub record IsQueued (x : ThreadExecutor T) : Type ℓ where
    pub ordered : AreOrdered x.timers.deadlines
    pub unique : AreUnique x.timers.deadlines
    pub below : All (λ (y : ℕ × ℕ). y.1 < x.timers.next_timer) x.timers.deadlines
    pub armed : AreArmed x.timers.deadlines x.timers.timers

module _ {ℓ} {T : Type ℓ} where
  -- QueueDueTimersLocked appends the tasks of the live timers due by now in the order of their
  -- deadlines, leaves no pair that is due and keeps the state of the timers.
  pub queue_due_timers_locked-ready :
      (now : ℕ) (x : ThreadExecutor T)
      → IsQueued x
      → (let x' = queue_due_timers_locked now x in
          (x'.tasks ≡ x.tasks ++ ready now x.timers.timers x.timers.deadlines)
          × AreFrom (suc now) x'.timers.deadlines
          × IsQueued x')
  unfolding queue_due_timers_locked
  queue_due_timers_locked-ready now x h =
      let (ordered, unique, below, armed, later) =
        queue_due_pairs (λ (y : ℕ × ℕ). y.1 < x.timers.next_timer) now x.timers.deadlines
          x.timers.timers x.tasks h.ordered h.unique h.below h.armed in
      (
        queue_due-ready now x.timers.deadlines x.timers.timers x.tasks h.ordered h.unique,
        later,
        record { ordered = ordered; unique = unique; below = below; armed = armed },
      )
