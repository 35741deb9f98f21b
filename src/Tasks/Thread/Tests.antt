-- ===== src/Tasks/Thread/Tests.antt =====
-- The theorems on ThreadExecutor at a concrete executor.
use pp_cpp_common.Common.{List, [], arith, refl, some, ℕ, ◌++◌, ◌∷◌, ◌≡◌}
use pp_cpp_common.Common.Int.{pos}
use pp_cpp_common.Tasks.Thread.{
  Event, ThreadExecutor, cancels, new_executor, posts, posts_after, queue_due_timers_locked, rounds,
  run, step,
}
use pp_cpp_common.Tasks.Thread.Order.{IsQueued, queue_due_timers_locked-ready, ready}
use pp_cpp_common.Tasks.Thread.Runs.{HasIds, entered_all, run_order, step-IsQueued}
use pp_cpp_common.Tasks.Timers.{find_timer, no_timers}
use pp_cpp_common.Tasks.Timers.Order.{AreFrom}
use pp_cpp_common.Wire.Reader.{none_ne}

abbrev executor : ThreadExecutor ℕ
executor = (step (posts_after 1 (pos 3) (some 2)) new_executor).0

abbrev events : List (Event ℕ)
events = posts (some 1) ∷ rounds 9 ∷ cancels 1 ∷ posts_after 9 (pos 4) (some 3) ∷ rounds 20 ∷ []

new_executor-IsQueued : IsQueued (new_executor {T = ℕ})
unfolding new_executor no_timers find_timer
new_executor-IsQueued = record {
  ordered = tt;
  unique = tt;
  below = tt;
  armed = λ id t e. absurd (none_ne e);
}

room : HasIds 5 (new_executor {T = ℕ})
unfolding new_executor no_timers
room = omega arith

few : HasIds 1 (new_executor {T = ℕ})
unfolding new_executor no_timers
few = omega arith

executor-IsQueued : IsQueued executor
executor-IsQueued =
    step-IsQueued (posts_after 1 (pos 3) (some 2)) new_executor few new_executor-IsQueued

queue_due_timers_locked-ready_example :
    (let x' = queue_due_timers_locked 9 executor in
      (x'.tasks ≡ executor.tasks ++ ready 9 executor.timers.timers executor.timers.deadlines)
      × AreFrom 10 x'.timers.deadlines
      × IsQueued x')
queue_due_timers_locked-ready_example = queue_due_timers_locked-ready 9 executor executor-IsQueued

run_order_example :
    (new_executor {T = ℕ}).tasks ++ entered_all events new_executor
    ≡ (run events new_executor).1 ++ (run events new_executor).0.tasks
run_order_example =
    run_order events new_executor (refl, (refl, (refl, (refl, (refl, tt))))) room
      new_executor-IsQueued
