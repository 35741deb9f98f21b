-- ===== src/Tasks/Pool/Lanes.antt =====
-- The lanes of WorkerPool: which task a worker takes, and the effect of stopping and pausing.
use pp_cpp_common.Common.{
  Bool-cases, List, [], arith, false, inl, inr, none, refl, some, true, ℕ, ◌-◌, ◌↔◌, ◌∷◌, ◌≡◌, ◌≤◌,
  ◌⊎◌,
}
use pp_cpp_common.Tasks.Pool.{
  Event, Lane, Pool, background, begin_shutdown, clamp_thread_count, critical, dequeue_one_locked,
  finish_shutdown, has_work_locked, joins, leaves, max_thread_count, min_thread_count, normal,
  pauses, post, posts, put_queue, queue_for_lane, resumes, runs, shuts_down, step, waits, wakes,
  worker_main, works,
}

-- The thread count lies within its bounds, and a count within them is kept.
pub clamp_thread_count_bounds :
    (n : ℕ)
    → (min_thread_count ≤ clamp_thread_count n)
      × (clamp_thread_count n ≤ max_thread_count)
      × (min_thread_count ≤ n → n ≤ max_thread_count → clamp_thread_count n ≡ n)
unfolding clamp_thread_count
clamp_thread_count_bounds n = (ground arith, ground arith, λ h k. ground arith)

module _ {ℓ} {T : Type ℓ} where
  -- A stopped pool has nothing queued.
  pub record IsQuiet (p : Pool T) : Type ℓ where
    pub no_critical : p.stopped ≡ true → p.critical_queue ≡ []
    pub no_normal : p.stopped ≡ true → p.normal_queue ≡ []
    pub no_background : p.stopped ≡ true → p.background_queue ≡ []

module _ {ℓ} {T : Type ℓ} where
  abbrev pub NothingAbove : Lane → Pool T → Type ℓ
  NothingAbove critical p = Unit
  NothingAbove normal p = p.critical_queue ≡ []
  NothingAbove background p = (p.critical_queue ≡ []) × (p.normal_queue ≡ [])

  -- A worker that runs a task took the oldest of its lane, found the lanes above empty, changed
  -- nothing else, and the pool was neither stopped nor paused.
  pub worker_main_priority :
      (p q : Pool T) (lane : Lane) (t : T)
      → worker_main p ≡ runs lane t q
      → (queue_for_lane lane p ≡ t ∷ queue_for_lane lane q)
        × NothingAbove lane p
        × (q ≡ put_queue lane (queue_for_lane lane q) p)
        × (p.stopped ≡ false)
        × (p.paused ≡ false)
  unfolding worker_main wakes has_work_locked dequeue_one_locked
  worker_main_priority p q critical t h =
      (ground arith, tt, ground arith, ground arith, ground arith)
  worker_main_priority p q normal t h =
      (ground arith, ground arith, ground arith, ground arith, ground arith)
  worker_main_priority p q background t h =
      (ground arith, (ground arith, ground arith), ground arith, ground arith, ground arith)

  abbrev pub IsEmpty : Pool T → Type ℓ
  IsEmpty p = (p.critical_queue ≡ []) × (p.normal_queue ≡ []) × (p.background_queue ≡ [])

  idle_sleeps :
      (p : Pool T) → p.stopped ≡ false → (p.paused ≡ true) ⊎ IsEmpty p → worker_main p ≡ waits
  unfolding worker_main wakes has_work_locked
  idle_sleeps p s (inl h) = ground arith
  idle_sleeps p s (inr (c, n, b)) = ground arith

  sleeper_is_idle : (p : Pool T) → worker_main p ≡ waits → (p.paused ≡ true) ⊎ IsEmpty p
  unfolding worker_main wakes dequeue_one_locked has_work_locked
  sleeper_is_idle p h = elim (Bool-cases p.paused) [
    | inl e ↦ inl e
    | inr e ↦ inr (ground arith, ground arith, ground arith)
  ]

  -- A worker sleeps on exactly when the pool is not stopped and is paused or has its three queues
  -- empty, and leaves exactly when the pool is stopped.
  pub worker_main_idle :
      (p : Pool T)
      → ((worker_main p ≡ waits) ↔ ((p.stopped ≡ false) × ((p.paused ≡ true) ⊎ IsEmpty p)))
        × ((worker_main p ≡ leaves (record p { live_workers = p.live_workers - 1 }))
            ↔ (p.stopped ≡ true))
  unfolding worker_main wakes
  worker_main_idle p = (
    ((λ h. (ground arith, sleeper_is_idle p h)), λ h. idle_sleeps p h.0 h.1),
    ((λ h. ground arith), λ h. ground arith),
  )

  -- Every event leaves a stopped pool with nothing queued.
  pub step-IsQuiet : (e : Event T) (p : Pool T) → IsQuiet p → IsQuiet (step e p).0
  unfolding step post begin_shutdown finish_shutdown worker_main wakes has_work_locked
      dequeue_one_locked
  step-IsQuiet (posts critical none) p h = h
  step-IsQuiet (posts normal none) p h = h
  step-IsQuiet (posts background none) p h = h
  step-IsQuiet (posts critical (some t)) p h = ground arith
  step-IsQuiet (posts normal (some t)) p h = ground arith
  step-IsQuiet (posts background (some t)) p h = ground arith
  step-IsQuiet pauses p h = ground arith
  step-IsQuiet resumes p h = ground arith
  step-IsQuiet shuts_down p h = ground arith
  step-IsQuiet joins p h = ground arith
  step-IsQuiet works p h = ground arith

  unfoldable pub run : List (Event T) → Pool T → Pool T × List (Lane × T)
  run [] p = (p, [])
  run (e ∷ es) p =
      let (p', started) = step e p in
      let (p'', others) = run es p' in (p'', elim started [ none ↦ others | some x ↦ x ∷ others ])

  pub step-stopped :
      (e : Event T) (p : Pool T)
      → p.stopped ≡ true
      → ((step e p).0.stopped ≡ true) × ((step e p).1 ≡ none)
  unfolding step post begin_shutdown finish_shutdown worker_main wakes
  step-stopped (posts critical none) p h = (h, refl)
  step-stopped (posts normal none) p h = (h, refl)
  step-stopped (posts background none) p h = (h, refl)
  step-stopped (posts critical (some t)) p h = ground arith
  step-stopped (posts normal (some t)) p h = ground arith
  step-stopped (posts background (some t)) p h = ground arith
  step-stopped pauses p h = (h, refl)
  step-stopped resumes p h = (h, refl)
  step-stopped shuts_down p h = ground arith
  step-stopped joins p h = ground arith
  step-stopped works p h = ground arith

  -- Once the pool is stopped no worker starts a task, whatever happens after.
  pub run_stopped : (es : List (Event T)) (p : Pool T) → p.stopped ≡ true → (run es p).1 ≡ []
  unfolding run
  run_stopped [] p h = refl
  run_stopped (e ∷ es) p h =
      let (stopped', quiet) = step-stopped e p h in
      rw (quiet, run) (run_stopped es (step e p).0 stopped')
