-- ===== src/Tasks/Rendezvous/Tests.antt =====
-- RunAndWait at a task that an executor drops, and at one that it runs.
use pp_cpp_common.Common.{[], false, not, refl, true, ◌&&◌, ◌∷◌, ◌≡◌}
use pp_cpp_common.Tasks.Rendezvous.{
  destroy, destroyed, destroys, dropped, returns, run, settle, start, starts, step, wake, wakes,
}
use pp_cpp_common.Tasks.Rendezvous.Once.{calls_at, is_over, run_and_wait_once}

dropped_task :
    run (destroys ∷ wakes ∷ []) (start true false)
    ≡ record { outcome = dropped; place = destroyed; has_run = false; is_done = true; calls = 1 }
unfolding start step destroy wake settle
dropped_task = refl

run_and_wait_once_example :
    let s = run (starts ∷ wakes ∷ returns ∷ []) (start true false) in
    ((s.is_done && not (is_over s.place)) ≡ false)
    × ((step wakes s).is_done ≡ is_over s.place)
    × ((step wakes s).calls ≡ calls_at true s.place)
run_and_wait_once_example = run_and_wait_once true false (starts ∷ wakes ∷ returns ∷ [])
