-- ===== src/Tasks/Thread.antt =====
-- include/common/ThreadExecutor.h and src/ThreadExecutor.cpp: the state under the mutex, the methods
-- of callers, and the locked part of a round of `Run`. A run of the executor interleaves them; each
-- round reads the clock.
pub mod Order
pub mod Runs
mod Tests
use pp_cpp_common.Common.{
  Bool, List, Option, [], false, if◌then◌else◌, ltb, none, some, true, ℕ, ◌++◌, ◌+◌, ◌∷◌,
}
use pp_cpp_common.Common.Int.{ℤ}
use pp_cpp_common.Tasks.Timers.{
  Timers, arm, cancel_timer, delay_count, erase_timer, find_timer, no_timers,
}

pub record ThreadExecutor {ℓ} (T : Type ℓ) : Type ℓ where
  pub tasks : List T
  pub timers : Timers T
  pub stopped : Bool

module _ {ℓ} {T : Type ℓ} where
  unfoldable pub new_executor : ThreadExecutor T
  unfolding no_timers
  new_executor = record { tasks = []; timers = no_timers; stopped = false }

  unfoldable pub post : Option T → ThreadExecutor T → ThreadExecutor T
  post none x = x
  post (some t) x = if x.stopped then x else record x { tasks = x.tasks ++ t ∷ [] }

  -- The id of the timer, 0 where none was armed.
  unfoldable pub post_after : ℕ → ℤ → Option T → ThreadExecutor T → ℕ × ThreadExecutor T
  post_after now delay none x = (0, x)
  post_after now delay (some t) x =
      let (id, timers) = arm (now + delay_count delay) t x.timers in
      if x.stopped then (0, x) else (id, record x { timers = timers })

  unfoldable pub cancel : ℕ → ThreadExecutor T → ThreadExecutor T
  cancel id x = record x { timers = cancel_timer id x.timers }

  -- The loop of `QueueDueTimersLocked`: the deadlines, timers and tasks it leaves.
  unfoldable pub queue_due :
      ℕ → List (ℕ × ℕ) → List (ℕ × T) → List T → List (ℕ × ℕ) × List (ℕ × T) × List T
  queue_due now [] ts tasks = ([], ts, tasks)
  queue_due now ((deadline, id) ∷ rest) ts tasks =
      if ltb now deadline then ((deadline, id) ∷ rest, ts, tasks) else elim (find_timer id ts) [
        | none ↦ queue_due now rest ts tasks
        | some t ↦ queue_due now rest (erase_timer id ts) (tasks ++ t ∷ [])
      ]

  unfoldable pub queue_due_timers_locked : ℕ → ThreadExecutor T → ThreadExecutor T
  queue_due_timers_locked now x =
      let (deadlines, timers, tasks) = queue_due now x.timers.deadlines x.timers.timers x.tasks in
      record x {
        tasks = tasks;
        timers = record (x.timers) { deadlines = deadlines; timers = timers };
      }

  -- The locked part of `Stop`; what it drops is destroyed outside the lock.
  unfoldable pub stop : ThreadExecutor T → ThreadExecutor T
  stop x = record x {
    stopped = true;
    tasks = [];
    timers = record (x.timers) { deadlines = []; timers = [] };
  }

-- What a round of `Run` comes to: it returns, waits (until a deadline, where there is one), or
-- takes a task to run.
pub data Round {ℓ} (T : Type ℓ) : Type ℓ where
  returns : Round T
  waits : Option ℕ → ThreadExecutor T → Round T
  runs : T → ThreadExecutor T → Round T

abbrev pub first_deadline : List (ℕ × ℕ) → Option ℕ
first_deadline [] = none
first_deadline ((deadline, id) ∷ rest) = some deadline

module _ {ℓ} {T : Type ℓ} where
  abbrev pub take_front : List T → ThreadExecutor T → Round T
  take_front [] x = waits (first_deadline x.timers.deadlines) x
  take_front (t ∷ ts) x = runs t (record x { tasks = ts })

  unfoldable pub run_round : ℕ → ThreadExecutor T → Round T
  run_round now x =
      let x' = queue_due_timers_locked now x in
      if x.stopped then returns else take_front x'.tasks x'

-- What callers and the thread do next.
pub data Event {ℓ} (T : Type ℓ) : Type ℓ where
  posts : Option T → Event T
  posts_after : ℕ → ℤ → Option T → Event T
  cancels : ℕ → Event T
  rounds : ℕ → Event T
  stops : Event T

module _ {ℓ} {T : Type ℓ} where
  abbrev pub after_round : ThreadExecutor T → Round T → ThreadExecutor T × List T
  after_round x returns = (x, [])
  after_round x (waits deadline y) = (y, [])
  after_round x (runs t y) = (y, t ∷ [])

  -- The executor after an event, and the tasks that the thread started.
  unfoldable pub step : Event T → ThreadExecutor T → ThreadExecutor T × List T
  step (posts t) x = (post t x, [])
  step (posts_after now delay t) x = ((post_after now delay t x).1, [])
  step (cancels id) x = (cancel id x, [])
  step (rounds now) x = after_round x (run_round now x)
  step stops x = (stop x, [])

  unfoldable pub run : List (Event T) → ThreadExecutor T → ThreadExecutor T × List T
  run [] x = (x, [])
  run (e ∷ es) x = let (y, ran) = step e x in let (z, more) = run es y in (z, ran ++ more)
