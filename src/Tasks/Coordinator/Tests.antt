-- ===== src/Tasks/Coordinator/Tests.antt =====
-- The theorems on CoordinatorThread at a concrete coordinator.
use pp_cpp_common.Common.{All, [], arith, false, refl, some, suc, true, ℕ, ◌+◌, ◌∷◌, ◌≡◌}
use pp_cpp_common.Common.Int.{pos}
use pp_cpp_common.Tasks.Coordinator.{
  Coordinator, begin_shutdown, cancel_entry, post, schedule_one_shot, schedule_repeating,
}
use pp_cpp_common.Tasks.Coordinator.Armed.{AreArmed}
use pp_cpp_common.Tasks.Coordinator.Loop.{
  after_timer, collect_due, dequeue_one_locked, drain, fire, fire_due_timers_locked, next_deadline,
  on_top, sweep, thread_main, waits, wakes,
}
use pp_cpp_common.Tasks.Coordinator.Runs.{posts, run, turns}
use pp_cpp_common.Tasks.Coordinator.Shutdown.{run-begin_shutdown}
use pp_cpp_common.Tasks.Coordinator.Timing.{FiresAfter, collect_due-rearmed, repeating}
use pp_cpp_common.Tasks.Coordinator.Waking.{IsBefore, call-wakes, collect_due-cancel_entry, without}
use pp_cpp_common.Tasks.Pool.{Lane, critical}

abbrev running : Coordinator ℕ
running = record {
  critical_queue = [];
  normal_queue = [];
  background_queue = [];
  timers =
      (record {
        id = 1;
        next_fire = 9;
        interval = 4;
        repeat = true;
        cancelled = false;
        fn = some 7;
      })
      ∷ (record {
        id = 2;
        next_fire = 5;
        interval = 5;
        repeat = false;
        cancelled = false;
        fn = some 8;
      })
      ∷ [];
  next_timer_id = 3;
  started = true;
  stopped = false;
  paused = false;
  thread_exited = false;
  joinable = true;
}

running-AreArmed : AreArmed running
running-AreArmed = (((λ r. omega arith), 7, refl), (((λ r. omega arith), 8, refl), tt))

waiting : thread_main 3 on_top running ≡ waits (some 5) running
unfolding thread_main drain dequeue_one_locked fire_due_timers_locked collect_due fire sweep
    next_deadline
waiting = refl

-- Timer 1 is due at 9 and is armed again for 13.
collect_due-rearmed_example :
    All (FiresAfter 9) (collect_due 9 running.timers).1
    × (repeating (collect_due 9 running.timers).1 ≡ (1, 13) ∷ [])
collect_due-rearmed_example = collect_due-rearmed 9 running.timers running-AreArmed

call-wakes_example :
    ((priority : Lane) → wakes (some 5) (post priority (some 6) running) ≡ true)
    × ((now n : ℕ)
        → IsBefore (now + n) (some 5)
        → wakes (some 5) (schedule_one_shot now (pos n) (some 6) running).1 ≡ true)
    × ((now n : ℕ)
        → IsBefore (now + suc n) (some 5)
        → wakes (some 5) (schedule_repeating now (pos (suc n)) (some 6) running).1 ≡ true)
    × (running.started ≡ true → wakes (some 5) (begin_shutdown running) ≡ true)
call-wakes_example = call-wakes (some 5) running 6 refl

collect_due-cancel_entry_example :
    (collect_due 9 (cancel_entry 2 running.timers)).0 ≡ (collect_due 9 (without 2 running.timers)).0
collect_due-cancel_entry_example = collect_due-cancel_entry 9 2 running.timers (refl, (refl, tt))

run-begin_shutdown_example :
    (run
      (turns 9 ∷ posts critical (some 1) ∷ turns 20 ∷ [])
      (begin_shutdown running, after_timer 9 (8 ∷ []))).1
    ≡ []
run-begin_shutdown_example =
    run-begin_shutdown (turns 9 ∷ posts critical (some 1) ∷ turns 20 ∷ []) (after_timer 9 (8 ∷ []))
      running refl refl (refl, (refl, (refl, tt)))
