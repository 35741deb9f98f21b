-- ===== src/Tasks/Runner/Tests.antt =====
-- The theorems on SequencedTaskRunner at a concrete runner.

-- Task 3 posts task 2, and task 2 posts task 1.
use pp_cpp_common.Common.{
  All, List, [], arith, false, refl, some, suc, true, zero, ℕ, ◌++◌, ◌<◌, ◌∷◌, ◌≡◌,
}
use pp_cpp_common.Tasks.Runner.{Call, TaskRunner, post_task, run_pending_tasks}
use pp_cpp_common.Tasks.Runner.Order.{
  IsPlain, posted, posted_by, run_pending_tasks_order, run_pending_tasks_total, weight,
}

abbrev chain : ℕ → List (Call ℕ)
chain (suc (suc n)) = post_task (some (suc n)) ∷ []
chain _ = []

abbrev runner : TaskRunner ℕ
runner = record { tasks = 3 ∷ 1 ∷ []; stopped = false; paused = false; thread_id = 7 }

chain-IsPlain : (t : ℕ) → All IsPlain (chain t)
chain-IsPlain zero = tt
chain-IsPlain (suc zero) = tt
chain-IsPlain (suc (suc n)) = (tt, tt)

run_pending_tasks_order_example :
    (let (r', ran, done) = run_pending_tasks chain 9 runner in
      ran ++ r'.tasks ≡ runner.tasks ++ posted_by chain ran)
run_pending_tasks_order_example = run_pending_tasks_order chain 9 runner chain-IsPlain refl

chain_lighter : (t : ℕ) → weight suc (posted (chain t)) < suc t
unfolding weight posted
chain_lighter zero = omega arith
chain_lighter (suc zero) = omega arith
chain_lighter (suc (suc n)) = omega arith

light : weight suc runner.tasks < 9
unfolding weight
light = omega arith

run_pending_tasks_total_example : (run_pending_tasks chain 9 runner).2 ≡ true
run_pending_tasks_total_example = run_pending_tasks_total chain suc 9 runner chain_lighter light
