-- ===== src/Tasks/Pool/Accounts.antt =====
-- Accounts of WorkerPool: the tasks of a lane, and the workers.
use pp_cpp_common.Common.{
  Bool-cases, List, Option, [], ap, append-nil, append_assoc, arith, false, if◌then◌else◌, inl, inr,
  none, refl, some, sym, true, ℕ, ◌++◌, ◌∙◌, ◌∷◌, ◌≡◌, ◌≤◌,
}
use pp_cpp_common.Tasks.Pool.{
  Event, Lane, Pool, background, begin_shutdown, critical, dequeue_one_locked, finish_shutdown,
  has_work_locked, joins, lane_eq, normal, pauses, post, posts, queue_for_lane, resumes, shuts_down,
  step, wakes, worker_main, works,
}
use pp_cpp_common.Tasks.Pool.Lanes.{run, step-stopped}

module _ {ℓ} {T : Type ℓ} where
  -- The tasks that the events post to a lane, and those of a lane among the started ones.
  unfoldable pub posted_to : Lane → List (Event T) → List T
  posted_to lane [] = []
  posted_to lane (posts l (some t) ∷ es) =
      let rest = posted_to lane es in if lane_eq l lane then t ∷ rest else rest
  posted_to lane (e ∷ es) = posted_to lane es

  unfoldable pub on_lane : Lane → List (Lane × T) → List T
  on_lane lane [] = []
  on_lane lane ((l, t) ∷ xs) =
      let rest = on_lane lane xs in if lane_eq l lane then t ∷ rest else rest

  abbrev pub started_list : Option (Lane × T) → List (Lane × T)
  started_list none = []
  started_list (some x) = x ∷ []

  abbrev StepAccounts : Lane → Event T → Pool T → Type ℓ
  StepAccounts lane e p =
      (step e p).0.stopped ≡ false
      → on_lane lane (started_list (step e p).1) ++ queue_for_lane lane (step e p).0
        ≡ queue_for_lane lane p ++ posted_to lane (e ∷ [])

  step_accounts : (lane : Lane) (e : Event T) (p : Pool T) → StepAccounts lane e p
  unfolding step post begin_shutdown finish_shutdown worker_main wakes has_work_locked
      dequeue_one_locked on_lane posted_to
  step_accounts lane (posts l none) p h = sym (append-nil _)
  step_accounts critical (posts critical (some t)) p h = ground arith
  step_accounts critical (posts normal (some t)) p h = ground (arith, append-nil p.critical_queue)
  step_accounts critical (posts background (some t)) p h =
      ground (arith, append-nil p.critical_queue)
  step_accounts normal (posts critical (some t)) p h = ground (arith, append-nil p.normal_queue)
  step_accounts normal (posts normal (some t)) p h = ground arith
  step_accounts normal (posts background (some t)) p h = ground (arith, append-nil p.normal_queue)
  step_accounts background (posts critical (some t)) p h =
      ground (arith, append-nil p.background_queue)
  step_accounts background (posts normal (some t)) p h =
      ground (arith, append-nil p.background_queue)
  step_accounts background (posts background (some t)) p h = ground arith
  step_accounts critical works p h = ground (arith, append-nil p.critical_queue)
  step_accounts normal works p h = ground (arith, append-nil p.normal_queue)
  step_accounts background works p h = ground (arith, append-nil p.background_queue)
  step_accounts critical pauses p h = ground (arith, append-nil p.critical_queue)
  step_accounts critical resumes p h = ground (arith, append-nil p.critical_queue)
  step_accounts critical shuts_down p h = ground (arith, append-nil p.critical_queue)
  step_accounts critical joins p h = ground (arith, append-nil p.critical_queue)
  step_accounts normal pauses p h = ground (arith, append-nil p.normal_queue)
  step_accounts normal resumes p h = ground (arith, append-nil p.normal_queue)
  step_accounts normal shuts_down p h = ground (arith, append-nil p.normal_queue)
  step_accounts normal joins p h = ground (arith, append-nil p.normal_queue)
  step_accounts background pauses p h = ground (arith, append-nil p.background_queue)
  step_accounts background resumes p h = ground (arith, append-nil p.background_queue)
  step_accounts background shuts_down p h = ground (arith, append-nil p.background_queue)
  step_accounts background joins p h = ground (arith, append-nil p.background_queue)

  posted_to-cons :
      (lane : Lane) (e : Event T) (es : List (Event T))
      → posted_to lane (e ∷ es) ≡ posted_to lane (e ∷ []) ++ posted_to lane es
  unfolding posted_to
  posted_to-cons lane (posts l none) es = refl
  posted_to-cons lane (posts l (some t)) es = ground arith
  posted_to-cons lane pauses es = refl
  posted_to-cons lane _ es = refl

  on_lane-cons :
      (lane : Lane) (o : Option (Lane × T)) (xs : List (Lane × T))
      → on_lane lane (elim o [ none ↦ xs | some x ↦ x ∷ xs ])
        ≡ on_lane lane (started_list o) ++ on_lane lane xs
  unfolding on_lane
  on_lane-cons lane none xs = refl
  on_lane-cons lane (some (l, t)) xs = ground arith

  -- Stopping is for good.
  run-stopped : (es : List (Event T)) (p : Pool T) → p.stopped ≡ true → (run es p).0.stopped ≡ true
  unfolding run
  run-stopped [] p h = h
  run-stopped (e ∷ es) p h = run-stopped es (step e p).0 (step-stopped e p h).0

  -- In a run of the pool that ends unstopped, what the workers started from a lane followed by what
  -- waits in it is what waited at first followed by what was posted to it.
  pub run_accounts :
      (lane : Lane) (es : List (Event T)) (p : Pool T)
      → (run es p).0.stopped ≡ false
      → on_lane lane (run es p).1 ++ queue_for_lane lane (run es p).0
        ≡ queue_for_lane lane p ++ posted_to lane es
  unfolding run
  run_accounts lane [] p h = unfold on_lane posted_to in sym (append-nil (queue_for_lane lane p))
  run_accounts lane (e ∷ es) p h =
      let (p', started) = step e p in
      let open' : p'.stopped ≡ false = elim (Bool-cases p'.stopped) [
        | inl s ↦ cc (run-stopped es p' s)
        | inr s ↦ s
      ] in
      rw (on_lane-cons lane started (run es p').1, append_assoc, run_accounts lane es p' h)
        (rw (← append_assoc, step_accounts lane e p open')
          (append_assoc (queue_for_lane lane p) (posted_to lane (e ∷ [])) (posted_to lane es)
            ∙ ap (λ ts. queue_for_lane lane p ++ ts) (sym (posted_to-cons lane e es))))

  -- There are as many live workers as threads were made until the pool is stopped, and never more.
  pub record IsStaffed (n : ℕ) (p : Pool T) : Type 0 where
    pub full : p.stopped ≡ false → p.live_workers ≡ n
    pub bounded : p.live_workers ≤ n

module _ {ℓ} {T : Type ℓ} where
  -- As many workers are live as threads were made until the pool is stopped, and never more.
  pub step-IsStaffed : (n : ℕ) (e : Event T) (p : Pool T) → IsStaffed n p → IsStaffed n (step e p).0
  unfolding step post begin_shutdown finish_shutdown worker_main wakes has_work_locked
      dequeue_one_locked
  step-IsStaffed n (posts critical none) p h = h
  step-IsStaffed n (posts normal none) p h = h
  step-IsStaffed n (posts background none) p h = h
  step-IsStaffed n (posts critical (some t)) p h = ground arith
  step-IsStaffed n (posts normal (some t)) p h = ground arith
  step-IsStaffed n (posts background (some t)) p h = ground arith
  step-IsStaffed n pauses p h = ground arith
  step-IsStaffed n resumes p h = ground arith
  step-IsStaffed n shuts_down p h = ground arith
  step-IsStaffed n joins p h = ground arith
  step-IsStaffed n works p h = ground arith
