-- ===== src/Tasks/Thread/Runs.antt =====
-- Runs of ThreadExecutor: the order of its tasks, and the effect of `Stop`.

-- Insertion adds one id.
use pp_cpp_common.Common.{
  All, All-map, Bool, Bool-cases, List, [], ap, append-nil, append_assoc, arith, false, if-holds,
  if◌then◌else◌, inl, inr, length, none, refl, some, suc, sym, true, ℕ, ◌%◌, ◌++◌, ◌+◌, ◌<◌, ◌==◌,
  ◌^◌, ◌||◌, ◌∙◌, ◌∷◌, ◌≡◌,
}
use pp_cpp_common.Tasks.Thread.{
  Event, Round, ThreadExecutor, after_round, cancel, cancels, post, post_after, posts, posts_after,
  queue_due_timers_locked, rounds, run, run_round, step, stop, stops, take_front,
}
use pp_cpp_common.Tasks.Thread.Order.{AreUnique, IsQueued, queue_due_timers_locked-ready, ready}
use pp_cpp_common.Tasks.Timers.{
  arm, cancel_timer, delay_count, due_lt, erase_timer, find_timer, insert_deadline,
}
use pp_cpp_common.Tasks.Timers.Order.{
  All-insert_deadline, AreArmed-emplace, AreArmed-erase, has_deadline, insert_deadline-AreOrdered,
}
use pp_cpp_common.Wire.Reader.{none_ne}

has_deadline-insert_deadline :
    (j : ℕ) (x : ℕ × ℕ) (ys : List (ℕ × ℕ))
    → has_deadline x.1 ys ≡ false
    → has_deadline j (insert_deadline x ys) ≡ (x.1 == j || has_deadline j ys)
unfolding has_deadline insert_deadline due_lt
has_deadline-insert_deadline j (d, i) [] h = refl
has_deadline-insert_deadline j (d, i) ((e, k) ∷ ys) h =
    ground (arith, has_deadline-insert_deadline j (d, i) ys)

insert_deadline-AreUnique :
    (x : ℕ × ℕ) (ys : List (ℕ × ℕ))
    → has_deadline x.1 ys ≡ false
    → AreUnique ys
    → AreUnique (insert_deadline x ys)
unfolding has_deadline insert_deadline
insert_deadline-AreUnique (d, i) [] h u = (refl, tt)
insert_deadline-AreUnique (d, i) ((e, k) ∷ ys) h u = elim (Bool-cases (due_lt (d, i) (e, k))) [
  | inl p ↦ rw p (h, u)
  | inr p ↦ elim (Bool-cases (due_lt (e, k) (d, i))) [
    | inl q ↦
        rw (p, q)
          (
            ground (arith, has_deadline-insert_deadline k (d, i) ys, u.0),
            insert_deadline-AreUnique (d, i) ys (ground arith) u.1,
          )
    | inr q ↦ rw (p, q) u
  ]
]

has_deadline-below :
    (n : ℕ) (ds : List (ℕ × ℕ)) → All (λ (y : ℕ × ℕ). y.1 < n) ds → has_deadline n ds ≡ false
unfolding has_deadline
has_deadline-below n [] h = refl
has_deadline-below n ((d, i) ∷ ds) h = ground (arith, h.0, has_deadline-below n ds h.1)

module _ {ℓ} {T : Type ℓ} where
  arm-IsQueued :
      (deadline : ℕ) (t : T) (x : ThreadExecutor T)
      → x.timers.next_timer + 1 < 2 ^ 64
      → IsQueued x
      → IsQueued (record x { timers = (arm deadline t x.timers).1 })
  unfolding arm
  arm-IsQueued deadline t x room h =
      let id = x.timers.next_timer in
      let same : (id + 1) % 2 ^ 64 ≡ id + 1 = omega arith in
      let pair : ℕ × ℕ = (deadline, id) in
      let fresh = has_deadline-below id x.timers.deadlines h.below in
      rw same (record {
        ordered = insert_deadline-AreOrdered pair x.timers.deadlines h.ordered;
        unique = insert_deadline-AreUnique pair x.timers.deadlines fresh h.unique;
        below =
            All-insert_deadline (λ (y : ℕ × ℕ). y.1 < id + 1) pair x.timers.deadlines (omega arith)
              (All-map (λ (y : ℕ × ℕ). y.1 < id) (λ y. y.1 < id + 1) x.timers.deadlines
                (λ y p. omega arith) h.below);
        armed = AreArmed-emplace deadline id t x.timers.deadlines x.timers.timers h.armed;
      })

  put_tasks-IsQueued :
      (ts : List T) (x : ThreadExecutor T) → IsQueued x → IsQueued (record x { tasks = ts })
  put_tasks-IsQueued ts x h = record {
    ordered = h.ordered;
    unique = h.unique;
    below = h.below;
    armed = h.armed;
  }

  take_front-IsQueued :
      (ts : List T) (x y : ThreadExecutor T)
      → IsQueued x
      → IsQueued y
      → IsQueued (after_round x (take_front ts y)).0
  take_front-IsQueued [] x y h k = k
  take_front-IsQueued (t ∷ ts) x y h k = put_tasks-IsQueued ts y k

  -- What the next id may grow to.
  abbrev pub HasIds : ℕ → ThreadExecutor T → Type 0
  HasIds n x = x.timers.next_timer + n < 2 ^ 64

  -- Every event keeps the timers of ThreadExecutor in order, their ids unique and below the next
  -- one, and a pair for every live timer, while the next id does not wrap.
  pub step-IsQueued :
      (e : Event T) (x : ThreadExecutor T) → HasIds 1 x → IsQueued x → IsQueued (step e x).0
  unfolding step post post_after cancel cancel_timer stop run_round find_timer
  step-IsQueued (posts none) x room h = h
  step-IsQueued (posts (some t)) x room h =
      if-holds IsQueued x.stopped _ _ h (put_tasks-IsQueued (x.tasks ++ t ∷ []) x h)
  step-IsQueued (posts_after now delay none) x room h = h
  step-IsQueued (posts_after now delay (some t)) x room h =
      if-holds (λ (p : ℕ × ThreadExecutor T). IsQueued p.1) x.stopped _ _ h
        (arm-IsQueued (now + delay_count delay) t x room h)
  step-IsQueued (cancels id) x room h = record {
    ordered = h.ordered;
    unique = h.unique;
    below = h.below;
    armed = AreArmed-erase x.timers.deadlines id x.timers.timers h.armed;
  }
  step-IsQueued (rounds now) x room h =
      let x' = queue_due_timers_locked now x in
      if-holds (λ (r : Round T). IsQueued (after_round x r).0) x.stopped _ _ h
        (take_front-IsQueued x'.tasks x x' h (queue_due_timers_locked-ready now x h).2)
  step-IsQueued stops x room h = record {
    ordered = tt;
    unique = tt;
    below = tt;
    armed = λ id t e. absurd (none_ne e);
  }

  HasIds-take_front :
      (n : ℕ) (ts : List T) (x y : ThreadExecutor T)
      → HasIds n x
      → HasIds n y
      → HasIds n (after_round x (take_front ts y)).0
  HasIds-take_front n [] x y h k = k
  HasIds-take_front n (t ∷ ts) x y h k = k

  HasIds-step :
      (n : ℕ) (e : Event T) (x : ThreadExecutor T) → HasIds (suc n) x → HasIds n (step e x).0
  unfolding step post post_after cancel cancel_timer stop run_round queue_due_timers_locked arm
  HasIds-step n (posts none) x h = omega (arith, h)
  HasIds-step n (posts (some t)) x h =
      if-holds (HasIds n) x.stopped _ _ (omega (arith, h)) (omega (arith, h))
  HasIds-step n (posts_after now delay none) x h = omega (arith, h)
  HasIds-step n (posts_after now delay (some t)) x h =
      if-holds (λ (p : ℕ × ThreadExecutor T). HasIds n p.1) x.stopped _ _ (omega (arith, h))
        (omega (arith, h))
  HasIds-step n (cancels id) x h = omega (arith, h)
  HasIds-step n (rounds now) x h =
      if-holds (λ (r : Round T). HasIds n (after_round x r).0) x.stopped _ _ (omega (arith, h))
        (let x' = queue_due_timers_locked now x in
          HasIds-take_front n x'.tasks x x' (omega (arith, h)) (omega (arith, h)))
  HasIds-step n stops x h = omega (arith, h)

module _ {ℓ} {T : Type ℓ} where
  abbrev pub is_stop : Event T → Bool
  is_stop stops = true
  is_stop _ = false

  -- The tasks that an event queues.
  abbrev pub entered : Event T → ThreadExecutor T → List T
  entered (posts none) x = []
  entered (posts (some t)) x = if x.stopped then [] else t ∷ []
  entered (rounds now) x = if x.stopped then [] else ready now x.timers.timers x.timers.deadlines
  entered _ x = []

  unfoldable pub entered_all : List (Event T) → ThreadExecutor T → List T
  entered_all [] x = []
  entered_all (e ∷ es) x = entered e x ++ entered_all es (step e x).0

  take_front_order :
      (ts : List T) (x y : ThreadExecutor T)
      → y.tasks ≡ ts
      → (after_round x (take_front ts y)).1 ++ (after_round x (take_front ts y)).0.tasks ≡ ts
  take_front_order [] x y e = e
  take_front_order (t ∷ ts) x y e = refl

  step_order :
      (e : Event T) (x : ThreadExecutor T)
      → is_stop e ≡ false
      → IsQueued x
      → x.tasks ++ entered e x ≡ (step e x).1 ++ (step e x).0.tasks
  unfolding step post post_after cancel run_round
  step_order (posts none) x s h = append-nil x.tasks
  step_order (posts (some t)) x s h = ground (arith, append-nil x.tasks)
  step_order (posts_after now delay none) x s h = append-nil x.tasks
  step_order (posts_after now delay (some t)) x s h = ground (arith, append-nil x.tasks)
  step_order (cancels id) x s h = append-nil x.tasks
  step_order (rounds now) x s h =
      let x' = queue_due_timers_locked now x in
      ground (
        arith,
        append-nil x.tasks,
        (queue_due_timers_locked-ready now x h).0,
        take_front_order x'.tasks x x' refl,
      )
  step_order stops x s h = ground arith

  -- In a run of ThreadExecutor without Stop and with timer ids below 2^64, the tasks run so far
  -- followed by those queued are those queued at first followed by those that were posted or whose
  -- timers came due, in that order.
  pub run_order :
      (es : List (Event T)) (x : ThreadExecutor T)
      → All (λ e. is_stop e ≡ false) es
      → HasIds (length es) x
      → IsQueued x
      → x.tasks ++ entered_all es x ≡ (run es x).1 ++ (run es x).0.tasks
  unfolding run entered_all
  run_order [] x s room h = append-nil x.tasks
  run_order (e ∷ es) x s room h =
      let y = (step e x).0 in
      let first = step_order e x s.0 h in
      let rest =
        run_order es y s.1 (HasIds-step (length es) e x room)
          (step-IsQueued e x (omega (arith, room)) h) in
      sym (append_assoc x.tasks (entered e x) (entered_all es y))
      ∙ ap (λ ts. ts ++ entered_all es y) first
      ∙ append_assoc (step e x).1 y.tasks (entered_all es y)
      ∙ ap (λ ts. (step e x).1 ++ ts) rest
      ∙ sym (append_assoc (step e x).1 (run es y).1 (run es y).0.tasks)

  stop-step : (e : Event T) (x : ThreadExecutor T) → step e (stop x) ≡ (stop x, [])
  unfolding step post post_after cancel cancel_timer erase_timer stop run_round
  stop-step (posts none) x = refl
  stop-step (posts (some t)) x = refl
  stop-step (posts_after now delay none) x = refl
  stop-step (posts_after now delay (some t)) x = refl
  stop-step (cancels id) x = refl
  stop-step (rounds now) x = refl
  stop-step stops x = refl

  -- After Stop the executor runs nothing and its state stays as Stop left it, whatever is called.
  pub run-stop : (es : List (Event T)) (x : ThreadExecutor T) → run es (stop x) ≡ (stop x, [])
  unfolding run
  run-stop [] x = refl
  run-stop (e ∷ es) x = rw (stop-step e x, run-stop es x) refl
