-- ===== src/Tasks/Owner.antt =====
-- include/common/runtime/OwnerThread.h and src/runtime/OwnerThread.cpp: one serialized owner, on a
-- thread of its own or on the thread that drains it. The metrics, and the times at which tasks were
-- queued for them, are left out.
pub mod Runs
mod Tests
use pp_cpp_common.Common.{
  Bool, List, Option, [], false, if◌then◌else◌, is_empty, length, none, not, some, suc, true, zero,
  ℕ, ◌++◌, ◌||◌, ◌∷◌,
}

pub data OwnerThreadMode : Type 0 where
  dedicated manual : OwnerThreadMode

abbrev pub is_dedicated : OwnerThreadMode → Bool
is_dedicated dedicated = true
is_dedicated manual = false

-- `joinable` is of the std::thread.
pub record OwnerThread {ℓ} (T : Type ℓ) : Type ℓ where
  pub mode : OwnerThreadMode
  pub tasks : List T
  pub started : Bool
  pub stopped : Bool
  pub joinable : Bool

module _ {ℓ} {T : Type ℓ} where
  unfoldable pub start : OwnerThread T → OwnerThread T
  start x =
      if x.started || x.stopped
      then x
      else record x { started = true; joinable = is_dedicated x.mode }

  -- The thread is joined, or detached where one of its own tasks calls.
  unfoldable pub stop : OwnerThread T → OwnerThread T
  stop x = if x.stopped then x else record x { stopped = true; tasks = []; joinable = false }

  -- The answer, and the owner after it.
  unfoldable pub post : Option T → OwnerThread T → Bool × OwnerThread T
  post none x = (false, x)
  post (some t) x = if x.stopped then (false, x) else (true, record x { tasks = x.tasks ++ t ∷ [] })

  unfoldable pub post_front : Option T → OwnerThread T → Bool × OwnerThread T
  post_front none x = (false, x)
  post_front (some t) x = if x.stopped then (false, x) else (true, record x { tasks = t ∷ x.tasks })

  unfoldable pub has_pending : OwnerThread T → Bool
  has_pending x = not (is_empty x.tasks)

  unfoldable pub queue_depth : OwnerThread T → ℕ
  queue_depth x = length x.tasks

  -- The front of the queue, and what is left.
  abbrev pub pop_front : List T → OwnerThread T → Option (T × OwnerThread T)
  pop_front [] x = none
  pop_front (t ∷ ts) x = some (t, record x { tasks = ts })

  -- The locked part of a round of `RunPending` and of `ThreadMain`: the task to run; none where
  -- `RunPending` returns, and where the thread returns or waits on.
  unfoldable pub take_task : OwnerThread T → Option (T × OwnerThread T)
  take_task x = if x.stopped then none else pop_front x.tasks x

-- What callers, tasks, and the thread that runs the tasks do next.
pub data Event {ℓ} (T : Type ℓ) : Type ℓ where
  posts posts_front : Option T → Event T
  starts stops takes : Event T

module _ {ℓ} {T : Type ℓ} where
  abbrev pub after_take : OwnerThread T → Option (T × OwnerThread T) → OwnerThread T × List T
  after_take x none = (x, [])
  after_take x (some (t, y)) = (y, t ∷ [])

  -- The owner after an event, and the task that started.
  unfoldable pub step : Event T → OwnerThread T → OwnerThread T × List T
  step (posts t) x = ((post t x).1, [])
  step (posts_front t) x = ((post_front t x).1, [])
  step starts x = (start x, [])
  step stops x = (stop x, [])
  step takes x = after_take x (take_task x)

  unfoldable pub run : List (Event T) → OwnerThread T → OwnerThread T × List T
  run [] x = (x, [])
  run (e ∷ es) x = let (y, ran) = step e x in let (z, more) = run es y in (z, ran ++ more)

module _ {ℓ} {T : Type ℓ} (calls : T → List (Event T)) where
  -- How many tasks ran, and whether the loop came to its end within the fuel; `calls` is what a task
  -- calls on the owner.
  unfoldable pub run_pending : ℕ → OwnerThread T → OwnerThread T × ℕ × Bool
  unfolding run take_task
  run_pending zero x = (x, 0, false)
  run_pending (suc fuel) x = elim (take_task x) [
    | none ↦ (x, 0, true)
    | some (t, y) ↦ let (z, ran, done) = run_pending fuel (run (calls t) y).0 in (z, suc ran, done)
  ]
