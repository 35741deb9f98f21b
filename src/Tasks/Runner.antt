-- ===== src/Tasks/Runner.antt =====
-- include/common/SequencedTaskRunner.h and src/SequencedTaskRunner.cpp.
pub mod Order
mod Tests
use pp_cpp_common.Common.{
  Bool, List, Option, [], false, if◌then◌else◌, is_empty, none, not, some, suc, true, zero, ℕ, ◌&&◌,
  ◌++◌, ◌==◌, ◌∷◌,
}

pub record TaskRunner {ℓ} (T : Type ℓ) : Type ℓ where
  pub tasks : List T
  pub stopped : Bool
  pub paused : Bool
  pub thread_id : ℕ

-- The public methods that a task may call while it runs.
pub data Call {ℓ} (T : Type ℓ) : Type ℓ where
  post_task post_task_front : Option T → Call T
  pause resume stop : Call T

module _ {ℓ} {T : Type ℓ} where
  pub new_runner : ℕ → TaskRunner T
  new_runner thread = record { tasks = []; stopped = false; paused = false; thread_id = thread }

  abbrev pub enqueue_locked : TaskRunner T → T → TaskRunner T
  enqueue_locked r t = record r { tasks = r.tasks ++ t ∷ [] }

  abbrev pub enqueue_front_locked : TaskRunner T → T → TaskRunner T
  enqueue_front_locked r t = record r { tasks = t ∷ r.tasks }

  -- What each public method does to the runner.
  unfoldable pub apply : Call T → TaskRunner T → TaskRunner T
  apply (post_task none) r = r
  apply (post_task (some t)) r = if r.stopped then r else enqueue_locked r t
  apply (post_task_front none) r = r
  apply (post_task_front (some t)) r = if r.stopped then r else enqueue_front_locked r t
  apply pause r = record r { paused = true }
  apply resume r = record r { paused = false }
  apply stop r = record r { stopped = true; tasks = [] }

  unfoldable pub apply_all : List (Call T) → TaskRunner T → TaskRunner T
  apply_all [] r = r
  apply_all (c ∷ cs) r = apply_all cs (apply c r)

  unfoldable pub has_pending_tasks : TaskRunner T → Bool
  has_pending_tasks r = not (is_empty r.tasks) && not r.stopped && not r.paused

  unfoldable pub is_running_on_this_thread : TaskRunner T → ℕ → Bool
  is_running_on_this_thread r current = current == r.thread_id

  unfoldable pub dequeue_one : TaskRunner T → Option (T × TaskRunner T)
  dequeue_one r = elim r.tasks [ [] ↦ none | t ∷ ts ↦ some (t, record r { tasks = ts }) ]

  -- The locked part of a round of `RunPendingTasks`; none ends the loop.
  unfoldable pub next_task : TaskRunner T → Option (T × TaskRunner T)
  next_task r = if r.paused then none else dequeue_one r

-- `RunPendingTasks`: `calls t` is what task `t` calls on the runner before it returns or throws. The
-- result has the tasks that ran and whether the loop came to its end within the fuel.
module _ {ℓ} {T : Type ℓ} (calls : T → List (Call T)) where
  unfoldable pub run_pending_tasks : ℕ → TaskRunner T → TaskRunner T × List T × Bool
  run_pending_tasks zero r = (r, [], false)
  run_pending_tasks (suc fuel) r = elim (next_task r) [
    | none ↦ (r, [], true)
    | some (t, rest) ↦
        let (r', ran, done) = run_pending_tasks fuel (apply_all (calls t) rest) in
        (r', t ∷ ran, done)
  ]
