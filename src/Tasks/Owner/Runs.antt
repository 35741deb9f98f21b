-- ===== src/Tasks/Owner/Runs.antt =====
-- Runs of OwnerThread: where the tasks that it accepts go, before and after `Stop`.
use pp_cpp_common.Common.{
  All, Bool, Bool-cases, List, Option, [], ap, arith, false, inl, inr, none, refl, some, true, ℕ,
  ◌++◌, ◌+◌, ◌∷◌, ◌≡◌,
}
use pp_cpp_common.Tasks.Owner.{
  Event, OwnerThread, after_take, pop_front, post, post_front, posts, posts_front, run, start,
  starts, step, stop, stops, take_task, takes,
}

module _ {ℓ} {T : Type ℓ} where
  abbrev pub is_stop : Event T → Bool
  is_stop stops = true
  is_stop _ = false

  abbrev pub kept : Bool → Option T → List T
  kept true (some t) = t ∷ []
  kept _ _ = []

  -- The task that an event queues, which is one whose post answers true.
  abbrev pub accepted : Event T → OwnerThread T → List T
  accepted (posts t) x = kept (post t x).0 t
  accepted (posts_front t) x = kept (post_front t x).0 t
  accepted _ x = []

  unfoldable pub accepted_all : List (Event T) → OwnerThread T → List T
  accepted_all [] x = []
  accepted_all (e ∷ es) x = accepted e x ++ accepted_all es (step e x).0

  unfoldable pub weight : (T → ℕ) → List T → ℕ
  weight w [] = 0
  weight w (t ∷ ts) = w t + weight w ts

  weight-append : (w : T → ℕ) (xs ys : List T) → weight w (xs ++ ys) ≡ weight w xs + weight w ys
  unfolding weight
  weight-append w [] ys = omega arith
  weight-append w (x ∷ xs) ys = omega (arith, weight-append w xs ys)

  take_weight :
      (w : T → ℕ) (ts : List T) (x : OwnerThread T)
      → x.tasks ≡ ts
      → weight w (after_take x (pop_front ts x)).1
          + weight w (after_take x (pop_front ts x)).0.tasks
        ≡ weight w ts
  unfolding weight
  take_weight w [] x e = omega (arith, ap (weight w) e)
  take_weight w (t ∷ ts) x e = omega arith

  weight-step :
      (w : T → ℕ) (e : Event T) (x : OwnerThread T)
      → is_stop e ≡ false
      → weight w (step e x).1 + weight w (step e x).0.tasks
        ≡ weight w x.tasks + weight w (accepted e x)
  unfolding step post post_front start take_task weight
  weight-step w (posts none) x s = omega arith
  weight-step w (posts (some t)) x s = elim (Bool-cases x.stopped) [
    | inl e ↦ ground arith
    | inr e ↦ ground (arith, weight-append w x.tasks (t ∷ []))
  ]
  weight-step w (posts_front none) x s = omega arith
  weight-step w (posts_front (some t)) x s = ground arith
  weight-step w starts x s = ground arith
  weight-step w stops x s = ground arith
  weight-step w takes x s = elim (Bool-cases x.stopped) [
    | inl e ↦ ground arith
    | inr e ↦ ground (arith, take_weight w x.tasks x refl)
  ]

  -- In a run of OwnerThread without Stop, what ran and what waits weigh as much as what waited at
  -- first and what was accepted, for every weight of tasks: each task whose post answered true runs
  -- once or waits, wherever it was queued.
  pub weight-run :
      (w : T → ℕ) (es : List (Event T)) (x : OwnerThread T)
      → All (λ e. is_stop e ≡ false) es
      → weight w (run es x).1 + weight w (run es x).0.tasks
        ≡ weight w x.tasks + weight w (accepted_all es x)
  unfolding run accepted_all
  weight-run w [] x s = unfold weight in omega arith
  weight-run w (e ∷ es) x s =
      let y = (step e x).0 in
      omega (
        arith,
        weight-step w e x s.0,
        weight-run w es y s.1,
        weight-append w (step e x).1 (run es y).1,
        weight-append w (accepted e x) (accepted_all es y),
      )

  step_over : (e : Event T) (x : OwnerThread T) → x.stopped ≡ true → step e x ≡ (x, [])
  unfolding step post post_front start stop take_task
  step_over (posts none) x h = refl
  step_over (posts (some t)) x h = ground arith
  step_over (posts_front none) x h = refl
  step_over (posts_front (some t)) x h = ground arith
  step_over starts x h = ground arith
  step_over stops x h = ground arith
  step_over takes x h = ground arith

  run_over : (es : List (Event T)) (x : OwnerThread T) → x.stopped ≡ true → run es x ≡ (x, [])
  unfolding run
  run_over [] x h = refl
  run_over (e ∷ es) x h = rw (step_over e x h, run_over es x h) refl

  stopped-stop : (x : OwnerThread T) → (stop x).stopped ≡ true
  unfolding stop
  stopped-stop x = ground arith

  -- After Stop an OwnerThread runs nothing and stays as Stop left it, whatever is posted, started
  -- or stopped again.
  pub owner_run-stop : (es : List (Event T)) (x : OwnerThread T) → run es (stop x) ≡ (stop x, [])
  owner_run-stop es x = run_over es (stop x) (stopped-stop x)
