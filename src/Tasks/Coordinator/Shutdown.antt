-- ===== src/Tasks/Coordinator/Shutdown.antt =====
-- What CoordinatorThread runs once it is shut down.
use pp_cpp_common.Common.{
  All, Bool, List, Option, [], ap, arith, false, if-else_holds, if-holds, if-then_holds, none, not,
  refl, some, subst, suc, sym, true, zero, ℕ, ◌&&◌, ◌==◌, ◌||◌, ◌∙◌, ◌∷◌, ◌≡◌,
}
use pp_cpp_common.Common.Int.{negsuc, pos, ℤ}
use pp_cpp_common.Tasks.Coordinator.{
  Coordinator, TimerEntry, begin_shutdown, cancel_all, cancel_entry, cancel_timer, post,
  schedule_one_shot, schedule_repeating, start,
}
use pp_cpp_common.Tasks.Coordinator.Loop.{
  Place, Turn, after_task, after_timer, collect_due, collect_entry, exits, fire,
  fire_due_timers_locked, on_top, sweep, thread_main,
}
use pp_cpp_common.Tasks.Coordinator.Runs.{
  Event, State, after_turn, call, cancels, joins, pauses, posts, resumes, run, schedules_one_shot,
  schedules_repeating, shuts_down, starts, step, turns,
}
use pp_cpp_common.Tasks.Pool.{Lane}

module _ {ℓ} {T : Type ℓ} where
  abbrev pub IsCancelled : TimerEntry T → Type 0
  IsCancelled e = e.cancelled ≡ true

  -- Stopped, with nothing queued and every timer cancelled.
  pub record IsShut (c : Coordinator T) : Type ℓ where
    pub is_stopped : c.stopped ≡ true
    pub no_critical : c.critical_queue ≡ []
    pub no_normal : c.normal_queue ≡ []
    pub no_background : c.background_queue ≡ []
    pub no_timers : All IsCancelled c.timers

module _ {ℓ} {T : Type ℓ} where
  cancel_all-IsCancelled : (es : List (TimerEntry T)) → All IsCancelled (cancel_all es)
  cancel_all-IsCancelled [] = tt
  cancel_all-IsCancelled (e ∷ es) = (refl, cancel_all-IsCancelled es)

  cancel_entry-IsCancelled :
      (id : ℕ) (es : List (TimerEntry T))
      → All IsCancelled es
      → All IsCancelled (cancel_entry id es)
  unfolding cancel_entry
  cancel_entry-IsCancelled id [] h = tt
  cancel_entry-IsCancelled id (e ∷ es) h =
      if-holds (All IsCancelled) (e.id == id) _ _ (refl, h.1)
        (h.0, cancel_entry-IsCancelled id es h.1)

  sweep-IsCancelled : (es : List (TimerEntry T)) → All IsCancelled es → sweep es ≡ []
  unfolding sweep
  sweep-IsCancelled [] h = refl
  sweep-IsCancelled (e ∷ es) h = ground (arith, h.0, sweep-IsCancelled es h.1)

  collect_entry-cancelled :
      (now : ℕ) (e : TimerEntry T) (fn : Option T) (r : List T × List (TimerEntry T))
      → e.cancelled ≡ true
      → collect_entry now e fn r ≡ (r.0, e ∷ r.1)
  collect_entry-cancelled now e none r h = refl
  collect_entry-cancelled now e (some t) r h = ground arith

  collect_due-IsCancelled :
      (now : ℕ) (es : List (TimerEntry T)) → All IsCancelled es → collect_due now es ≡ ([], es)
  unfolding collect_due
  collect_due-IsCancelled now [] h = refl
  collect_due-IsCancelled now (e ∷ es) h =
      collect_entry-cancelled now e e.fn (collect_due now es) h.0
      ∙ ap (λ (r : List T × List (TimerEntry T)). (r.0, e ∷ r.1))
          (collect_due-IsCancelled now es h.1)

  -- The thread leaves, and the coordinator stays shut.
  abbrev pub LeavesShut : Turn T → Type ℓ
  LeavesShut t = (c : Coordinator T) × (t ≡ exits c) × IsShut c

  put_timers-IsShut :
      (es : List (TimerEntry T)) (b : Bool) (c : Coordinator T)
      → IsShut c
      → All IsCancelled es
      → IsShut (record c { timers = es; thread_exited = b })
  put_timers-IsShut es b c h k = record {
    is_stopped = h.is_stopped;
    no_critical = h.no_critical;
    no_normal = h.no_normal;
    no_background = h.no_background;
    no_timers = k;
  }

  fire_shut : (now : ℕ) (c : Coordinator T) → IsShut c → LeavesShut (fire now [] c)
  unfolding fire
  fire_shut now c h = if-then_holds LeavesShut c.stopped _ _ h.is_stopped (
    _,
    refl,
    put_timers-IsShut (sweep c.timers) true c h
        (subst (All IsCancelled) (sym (sweep-IsCancelled c.timers h.no_timers)) tt),
  )

  fire_due_shut :
      (now : ℕ) (c : Coordinator T) → IsShut c → LeavesShut (fire_due_timers_locked now c)
  unfolding fire_due_timers_locked
  fire_due_shut now c h =
      subst
        (λ (r : List T × List (TimerEntry T)).
          LeavesShut (fire now r.0 (record c { timers = r.1 })))
        (sym (collect_due-IsCancelled now c.timers h.no_timers)) (fire_shut now c h)

  thread_main_shut :
      (now : ℕ) (place : Place T) (c : Coordinator T)
      → IsShut c
      → LeavesShut (thread_main now place c)
  unfolding thread_main
  thread_main_shut now on_top c h =
      if-then_holds LeavesShut c.stopped _ _ h.is_stopped
        (_, refl, put_timers-IsShut c.timers true c h h.no_timers)
  thread_main_shut now after_task c h =
      if-then_holds LeavesShut c.stopped _ _ h.is_stopped (fire_due_shut now c h)
  thread_main_shut now (after_timer began due) c h =
      if-then_holds LeavesShut c.stopped _ _ h.is_stopped
        (_, refl, put_timers-IsShut c.timers true c h h.no_timers)

  -- A state after an event that ran nothing and keeps the coordinator shut.
  abbrev pub KeepsShut : State T × List T → Type ℓ
  KeepsShut (s, ran) = (ran ≡ []) × IsShut s.0

  after_turn_shut : (t : Turn T) → LeavesShut t → KeepsShut (after_turn t)
  after_turn_shut t (c, e, h) = subst (λ u. KeepsShut (after_turn u)) (sym e) (refl, h)

  abbrev pub is_join : Event T → Bool
  is_join joins = true
  is_join _ = false

  post-IsShut :
      (priority : Lane) (t : Option T) (c : Coordinator T) → IsShut c → IsShut (post priority t c)
  unfolding post
  post-IsShut priority none c h = h
  post-IsShut priority (some t) c h = if-then_holds IsShut c.stopped _ _ h.is_stopped h

  schedule_repeating-IsShut :
      (now : ℕ) (i : ℤ) (t : Option T) (c : Coordinator T)
      → IsShut c
      → IsShut (schedule_repeating now i t c).1
  unfolding schedule_repeating
  schedule_repeating-IsShut now i none c h = h
  schedule_repeating-IsShut now (negsuc n) (some t) c h = h
  schedule_repeating-IsShut now (pos zero) (some t) c h = h
  schedule_repeating-IsShut now (pos (suc n)) (some t) c h =
      if-then_holds (λ (p : ℕ × Coordinator T). IsShut p.1) c.stopped _ _ h.is_stopped h

  schedule_one_shot-IsShut :
      (now : ℕ) (i : ℤ) (t : Option T) (c : Coordinator T)
      → IsShut c
      → IsShut (schedule_one_shot now i t c).1
  unfolding schedule_one_shot
  schedule_one_shot-IsShut now i none c h = h
  schedule_one_shot-IsShut now (negsuc n) (some t) c h = h
  schedule_one_shot-IsShut now (pos n) (some t) c h =
      if-then_holds (λ (p : ℕ × Coordinator T). IsShut p.1) c.stopped _ _ h.is_stopped h

  put_flags-IsShut :
      (started paused exited joinable : Bool) (c : Coordinator T)
      → IsShut c
      → IsShut (record c {
        started = started;
        paused = paused;
        thread_exited = exited;
        joinable = joinable;
      })
  put_flags-IsShut s p x j c h = record {
    is_stopped = h.is_stopped;
    no_critical = h.no_critical;
    no_normal = h.no_normal;
    no_background = h.no_background;
    no_timers = h.no_timers;
  }

  begin_shutdown-IsShut :
      (c : Coordinator T) → (not c.started || c.stopped) ≡ false → IsShut (begin_shutdown c)
  unfolding begin_shutdown
  begin_shutdown-IsShut c h = if-else_holds IsShut (not c.started || c.stopped) _ _ h (record {
    is_stopped = refl;
    no_critical = refl;
    no_normal = refl;
    no_background = refl;
    no_timers = cancel_all-IsCancelled c.timers;
  })

  begin_shutdown-IsShut' : (c : Coordinator T) → IsShut c → IsShut (begin_shutdown c)
  unfolding begin_shutdown
  begin_shutdown-IsShut' c h =
      if-then_holds IsShut (not c.started || c.stopped) _ _ (ground (arith, h.is_stopped)) h

  step_shut : (e : Event T) (s : State T) → is_join e ≡ false → IsShut s.0 → KeepsShut (step e s)
  unfolding step call start cancel_timer
  step_shut (posts priority t) s k h = (refl, post-IsShut priority t s.0 h)
  step_shut (schedules_repeating now i t) s k h = (refl, schedule_repeating-IsShut now i t s.0 h)
  step_shut (schedules_one_shot now i t) s k h = (refl, schedule_one_shot-IsShut now i t s.0 h)
  step_shut (cancels id) (c, place) k h = (
    refl,
    if-holds IsShut (id == 0) _ _ h (
        put_timers-IsShut (cancel_entry id c.timers) c.thread_exited c h
          (cancel_entry-IsCancelled id c.timers h.no_timers)),
  )
  step_shut (turns now) (c, place) k h =
      if-holds KeepsShut (c.started && not c.thread_exited) _ _
        (after_turn_shut (thread_main now place c) (thread_main_shut now place c h)) (refl, h)
  step_shut starts (c, place) k h = (
    refl,
    if-holds IsShut (c.started || c.stopped) _ _ h (put_flags-IsShut true c.paused false true c h),
  )
  step_shut pauses (c, place) k h =
      (refl, put_flags-IsShut c.started true c.thread_exited c.joinable c h)
  step_shut resumes (c, place) k h =
      (refl, put_flags-IsShut c.started false c.thread_exited c.joinable c h)
  step_shut shuts_down (c, place) k h = (refl, begin_shutdown-IsShut' c h)
  step_shut joins s k h = ground arith

  run_shut :
      (es : List (Event T)) (s : State T)
      → All (λ e. is_join e ≡ false) es
      → IsShut s.0
      → (run es s).1 ≡ []
  unfolding run
  run_shut [] s k h = refl
  run_shut (e ∷ es) s k h =
      let (none', shut) = step_shut e s k.0 h in
      ground (arith, none', run_shut es (step e s).0 k.1 shut)

  -- Once Shutdown marked a started CoordinatorThread as stopped its thread runs neither a task nor
  -- a callback, wherever it stood and whatever is called, until Shutdown joins or detaches it.
  pub run-begin_shutdown :
      (es : List (Event T)) (place : Place T) (c : Coordinator T)
      → c.started ≡ true
      → c.stopped ≡ false
      → All (λ e. is_join e ≡ false) es
      → (run es (begin_shutdown c, place)).1 ≡ []
  run-begin_shutdown es place c on open' k =
      run_shut es (begin_shutdown c, place) k (begin_shutdown-IsShut c (ground arith))
