-- ===== src/Runtime/Gate/Tests.antt =====
-- The theorems on the teardown gate at a concrete run: a task that quits the program from the UI
-- thread, thread 0, while a worker, thread 1, has a task that posts another.
use pp_cpp_common.Common.{All, List, [], arith, refl, true, ◌++◌, ◌∷◌, ◌≡◌}
use pp_cpp_common.Runtime.Gate.{
  begin_quiesce, begin_task, draining, gate_task, gated, gated_depth, is_drained, leave_task,
  may_run, new_gate, one_shot_timer, posted, settle,
}
use pp_cpp_common.Runtime.Gate.Drained.{run-drained}
use pp_cpp_common.Runtime.Gate.Epochs.{IsFresh, run-reopened}
use pp_cpp_common.Runtime.Gate.Runs.{
  Event, Gated, begins, closes, ends, posts, quiesces, reopens, run, step,
}

abbrev idle : Gated
idle = record { gate = new_gate; held = [] }

-- Both tasks begin, the quit asks for the quiesce, the worker posts one more and ends, and that task
-- runs too.
abbrev quitting : List Event
quitting =
    posts posted 2
    ∷ posts posted 2
    ∷ posts one_shot_timer 2
    ∷ begins 2 0
    ∷ begins 1 1
    ∷ quiesces
    ∷ posts posted 2
    ∷ posts posted 1
    ∷ ends 1
    ∷ begins 0 1
    ∷ ends 1
    ∷ []

abbrev drained : Gated
drained = record {
  gate = record { state = draining; epoch = 0; pending = 0; running = 1; nesting = 0 ∷ [] };
  held = gated one_shot_timer 0 ∷ [];
}

quits : run quitting idle ≡ (drained, gated posted 0 ∷ gated posted 0 ∷ gated posted 0 ∷ [])
unfolding run step gate_task begin_task settle may_run leave_task begin_quiesce gated_depth
quits = refl

run-drained_example :
    (is_drained 0 (run (posts posted 1 ∷ begins 0 1 ∷ []) drained).0.gate ≡ true)
    × ((run
          ((posts posted 1 ∷ begins 0 1 ∷ []) ++ closes ∷ posts posted 0 ∷ begins 0 1 ∷ [])
          drained).1
        ≡ [])
run-drained_example =
    run-drained 0 (posts posted 1 ∷ begins 0 1 ∷ []) (posts posted 0 ∷ begins 0 1 ∷ []) drained
      (refl, refl) refl (unfold is_drained gated_depth in refl) (refl, (refl, tt))
      (refl, (refl, tt))

run-reopened_example :
    All (IsFresh 1) (run (reopens ∷ begins 0 1 ∷ posts posted 1 ∷ begins 0 1 ∷ []) drained).1
run-reopened_example =
    run-reopened (begins 0 1 ∷ posts posted 1 ∷ begins 0 1 ∷ []) drained refl (omega arith, tt)
