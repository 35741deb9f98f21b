-- ===== src/Tasks/Pool/Tests.antt =====
-- The theorems on WorkerPool at a concrete pool.
use pp_cpp_common.Common.{List, [], false, refl, some, true, ℕ, ◌++◌, ◌-◌, ◌↔◌, ◌∷◌, ◌≡◌, ◌⊎◌}
use pp_cpp_common.Tasks.Pool.{
  Event, Pool, begin_shutdown, critical, dequeue_one_locked, enqueue_locked, first_lane,
  has_work_locked, leaves, normal, post, posts, put_queue, runs, step, waits, wakes, worker_main,
  works,
}
use pp_cpp_common.Tasks.Pool.Accounts.{on_lane, posted_to, run_accounts}
use pp_cpp_common.Tasks.Pool.Lanes.{
  IsEmpty, NothingAbove, run, worker_main_idle, worker_main_priority,
}

abbrev pool : Pool ℕ
pool = record {
  critical_queue = [];
  normal_queue = 4 ∷ 5 ∷ [];
  background_queue = 6 ∷ [];
  stopped = false;
  paused = false;
  live_workers = 2;
  threads = 2;
}

abbrev events : List (Event ℕ)
events = works ∷ posts normal (some 8) ∷ posts critical (some 9) ∷ works ∷ []

turn : worker_main pool ≡ runs normal 4 (put_queue normal (5 ∷ []) pool)
unfolding worker_main wakes has_work_locked dequeue_one_locked first_lane
turn = refl

worker_main_priority_example :
    (pool.normal_queue ≡ 4 ∷ 5 ∷ [])
    × NothingAbove normal pool
    × (put_queue normal (5 ∷ []) pool ≡ put_queue normal (5 ∷ []) pool)
    × (false ≡ false)
    × (false ≡ false)
worker_main_priority_example =
    worker_main_priority pool (put_queue normal (5 ∷ []) pool) normal 4 turn

worker_main_idle_example :
    ((worker_main pool ≡ waits) ↔ ((pool.stopped ≡ false) × ((pool.paused ≡ true) ⊎ IsEmpty pool)))
    × ((worker_main pool ≡ leaves (record pool { live_workers = pool.live_workers - 1 }))
        ↔ (pool.stopped ≡ true))
worker_main_idle_example = worker_main_idle pool

down : (begin_shutdown pool).stopped ≡ true
unfolding begin_shutdown
down = refl

still_open : (run events pool).0.stopped ≡ false
unfolding run step post enqueue_locked worker_main wakes has_work_locked dequeue_one_locked
    first_lane
still_open = refl

run_accounts_example :
    on_lane normal (run events pool).1 ++ (run events pool).0.normal_queue
    ≡ pool.normal_queue ++ posted_to normal events
run_accounts_example = run_accounts normal events pool still_open
