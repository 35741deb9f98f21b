-- ===== src/Tasks/Coordinator/Armed.antt =====
-- The timers of CoordinatorThread along its events.
use pp_cpp_common.Common.{
  All, All-snoc, Bool, List, Option, Option-cases, [], arith, if-holds, inl, inr, leb, ltb, none,
  not, refl, some, subst, suc, true, zero, ℕ, ◌&&◌, ◌==◌, ◌||◌, ◌∷◌, ◌≡◌,
}
use pp_cpp_common.Common.Int.{negsuc, pos, ℤ}
use pp_cpp_common.Tasks.Coordinator.{
  Coordinator, TimerEntry, begin_shutdown, cancel_all, cancel_entry, cancel_timer, enqueue_locked,
  finish_shutdown, post, schedule_one_shot, schedule_repeating, start,
}
use pp_cpp_common.Tasks.Coordinator.Loop.{
  Place, Turn, after_task, after_timer, collect_due, collect_entry, dequeue_one_locked, drain, fire,
  fire_due_timers_locked, fired_entry, next_deadline, on_top, sweep, thread_main, wait_for,
}
use pp_cpp_common.Tasks.Coordinator.Runs.{
  Event, State, after_turn, call, cancels, joins, pauses, posts, resumes, schedules_one_shot,
  schedules_repeating, shuts_down, starts, step, turns,
}
use pp_cpp_common.Tasks.Coordinator.Timing.{All-sweep, IsArmed}
use pp_cpp_common.Tasks.Pool.{Lane, background, critical, normal}

module _ {ℓ} {T : Type ℓ} where
  cancelled-IsArmed : (e : TimerEntry T) → IsArmed e → IsArmed (record e { cancelled = true })
  cancelled-IsArmed e h = h

  fired_entry-IsArmed : (now : ℕ) (e : TimerEntry T) → IsArmed e → IsArmed (fired_entry now e)
  fired_entry-IsArmed now e h = if-holds IsArmed e.repeat _ _ h h

  collect_entry-IsArmed :
      (now : ℕ) (e : TimerEntry T) (fn : Option T) (rest : List T × List (TimerEntry T))
      → IsArmed e
      → All IsArmed rest.1
      → All IsArmed (collect_entry now e fn rest).1
  collect_entry-IsArmed now e none rest h k = (h, k)
  collect_entry-IsArmed now e (some t) (due, kept) h k =
      if-holds (λ (r : List T × List (TimerEntry T)). All IsArmed r.1)
        (e.cancelled || ltb now e.next_fire) _ _ (h, k) (fired_entry-IsArmed now e h, k)

  collect_due-IsArmed :
      (now : ℕ) (es : List (TimerEntry T)) → All IsArmed es → All IsArmed (collect_due now es).1
  unfolding collect_due
  collect_due-IsArmed now [] h = tt
  collect_due-IsArmed now (e ∷ es) h =
      collect_entry-IsArmed now e e.fn (collect_due now es) h.0 (collect_due-IsArmed now es h.1)

  cancel_entry-IsArmed :
      (id : ℕ) (es : List (TimerEntry T)) → All IsArmed es → All IsArmed (cancel_entry id es)
  unfolding cancel_entry
  cancel_entry-IsArmed id [] h = tt
  cancel_entry-IsArmed id (e ∷ es) h =
      if-holds (All IsArmed) (e.id == id) _ _ h (h.0, cancel_entry-IsArmed id es h.1)

  cancel_all-IsArmed : (es : List (TimerEntry T)) → All IsArmed es → All IsArmed (cancel_all es)
  cancel_all-IsArmed [] h = tt
  cancel_all-IsArmed (e ∷ es) h = (h.0, cancel_all-IsArmed es h.1)

  abbrev pub AreArmed : Coordinator T → Type ℓ
  AreArmed c = All IsArmed c.timers

  -- After a turn.
  abbrev pub TurnArmed : Turn T → Type ℓ
  TurnArmed t = AreArmed (after_turn t).0.0

  wait_for_armed :
      (now : ℕ) (o : Option ℕ) (c : Coordinator T) → AreArmed c → TurnArmed (wait_for now o c)
  wait_for_armed now none c h = h
  wait_for_armed now (some d) c h = if-holds TurnArmed (leb d now) _ _ h h

  fire_armed :
      (now : ℕ) (due : List T) (c : Coordinator T) → AreArmed c → TurnArmed (fire now due c)
  unfolding fire
  fire_armed now (t ∷ due) c h = h
  fire_armed now [] c h =
      let swept = All-sweep IsArmed c.timers h in
      if-holds TurnArmed c.stopped _ _ swept (
        wait_for_armed now (next_deadline (sweep c.timers)) (record c { timers = sweep c.timers })
          swept)

  fire_due_armed :
      (now : ℕ) (c : Coordinator T) → AreArmed c → TurnArmed (fire_due_timers_locked now c)
  unfolding fire_due_timers_locked
  fire_due_armed now c h =
      fire_armed now (collect_due now c.timers).0
        (record c { timers = (collect_due now c.timers).1 }) (collect_due-IsArmed now c.timers h)

  dequeue_timers :
      (c c' : Coordinator T) (t : T) → dequeue_one_locked c ≡ some (t, c') → c.timers ≡ c'.timers
  unfolding dequeue_one_locked
  dequeue_timers c c' t h = ground arith

  drain_armed : (now : ℕ) (c : Coordinator T) → AreArmed c → TurnArmed (drain now c)
  unfolding drain
  drain_armed now c h = elim (Option-cases (dequeue_one_locked c)) [
    | inl e ↦ rw (e, drain) (fire_due_armed now c h)
    | inr ((t, c'), e) ↦ rw (e, drain) (subst (All IsArmed) (dequeue_timers c c' t e) h)
  ]

  thread_main_armed :
      (now : ℕ) (place : Place T) (c : Coordinator T)
      → AreArmed c
      → TurnArmed (thread_main now place c)
  unfolding thread_main
  thread_main_armed now on_top c h =
      if-holds TurnArmed c.stopped _ _ h (if-holds TurnArmed c.paused _ _ h (drain_armed now c h))
  thread_main_armed now after_task c h =
      if-holds TurnArmed c.stopped _ _ (fire_due_armed now c h) (drain_armed now c h)
  thread_main_armed now (after_timer began due) c h =
      if-holds TurnArmed c.stopped _ _ h (fire_armed began due c h)

  schedule_repeating_armed :
      (now : ℕ) (i : ℤ) (t : Option T) (c : Coordinator T)
      → AreArmed c
      → AreArmed (schedule_repeating now i t c).1
  unfolding schedule_repeating
  schedule_repeating_armed now i none c h = h
  schedule_repeating_armed now (negsuc n) (some t) c h = h
  schedule_repeating_armed now (pos zero) (some t) c h = h
  schedule_repeating_armed now (pos (suc n)) (some t) c h =
      if-holds (λ (p : ℕ × Coordinator T). AreArmed p.1) c.stopped _ _ h
        (All-snoc IsArmed c.timers _ h ((λ r. omega arith), t, refl))

  schedule_one_shot_armed :
      (now : ℕ) (i : ℤ) (t : Option T) (c : Coordinator T)
      → AreArmed c
      → AreArmed (schedule_one_shot now i t c).1
  unfolding schedule_one_shot
  schedule_one_shot_armed now i none c h = h
  schedule_one_shot_armed now (negsuc n) (some t) c h = h
  schedule_one_shot_armed now (pos n) (some t) c h =
      if-holds (λ (p : ℕ × Coordinator T). AreArmed p.1) c.stopped _ _ h
        (All-snoc IsArmed c.timers _ h ((λ r. ground arith), t, refl))

  post_armed :
      (priority : Lane) (t : Option T) (c : Coordinator T)
      → AreArmed c
      → AreArmed (post priority t c)
  unfolding post enqueue_locked
  post_armed priority none c h = h
  post_armed critical (some t) c h = if-holds AreArmed c.stopped _ _ h h
  post_armed normal (some t) c h = if-holds AreArmed c.stopped _ _ h h
  post_armed background (some t) c h = if-holds AreArmed c.stopped _ _ h h

  finish_shutdown_armed : (c : Coordinator T) → AreArmed c → AreArmed (finish_shutdown c).0
  unfolding finish_shutdown
  finish_shutdown_armed c h =
      if-holds (λ (p : Coordinator T × Bool). AreArmed p.0) (not c.joinable) _ _ tt
        (if-holds (λ (p : Coordinator T × Bool). AreArmed p.0) c.thread_exited _ _ tt h)

  -- Every event keeps the intervals of the repeating timers of CoordinatorThread positive and the
  -- callbacks of its timers non-empty.
  pub step-AreArmed : (e : Event T) (s : State T) → AreArmed s.0 → AreArmed (step e s).0.0
  unfolding step call start cancel_timer begin_shutdown
  step-AreArmed (posts priority t) s h = post_armed priority t s.0 h
  step-AreArmed (schedules_repeating now i t) s h = schedule_repeating_armed now i t s.0 h
  step-AreArmed (schedules_one_shot now i t) s h = schedule_one_shot_armed now i t s.0 h
  step-AreArmed (cancels id) (c, place) h =
      if-holds AreArmed (id == 0) _ _ h (cancel_entry-IsArmed id c.timers h)
  step-AreArmed (turns now) (c, place) h =
      if-holds (λ (r : State T × List T). AreArmed r.0.0) (c.started && not c.thread_exited) _ _
        (thread_main_armed now place c h) h
  step-AreArmed starts (c, place) h = if-holds AreArmed (c.started || c.stopped) _ _ h h
  step-AreArmed pauses s h = h
  step-AreArmed resumes s h = h
  step-AreArmed shuts_down (c, place) h =
      if-holds AreArmed (not c.started || c.stopped) _ _ h (cancel_all-IsArmed c.timers h)
  step-AreArmed joins (c, place) h =
      if-holds AreArmed (c.stopped && c.joinable) _ _ (finish_shutdown_armed c h) h
