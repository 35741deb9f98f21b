-- ===== src/Tasks/Manual.antt =====
-- include/common/ManualExecutor.h and src/ManualExecutor.cpp: a serial executor on a clock of its own.
-- Tasks do not throw; `running` says whether a task runs on the driving thread.
pub mod Clock
mod Tests
use pp_cpp_common.Common.{
  Bool, List, Option, [], false, if◌then◌else◌, is_empty, ltb, max, none, some, suc, true, zero, ℕ,
  ◌&&◌, ◌++◌, ◌+◌, ◌∷◌,
}
use pp_cpp_common.Common.Int.{ℤ}
use pp_cpp_common.Tasks.Timers.{
  Timers, arm, cancel_timer, delay_count, drop_cancelled, erase_timer, find_timer, no_timers,
}

pub record ManualExecutor {ℓ} (T : Type ℓ) : Type ℓ where
  pub tasks : List T
  pub timers : Timers T
  pub now_ms : ℕ
  pub running : Bool

-- The methods that a task may call while it runs.
pub data Call {ℓ} (T : Type ℓ) : Type ℓ where
  posts : Option T → Call T
  posts_after : ℤ → Option T → Call T
  cancels : ℕ → Call T

module _ {ℓ} {T : Type ℓ} where
  unfoldable pub new_executor : ManualExecutor T
  new_executor = record { tasks = []; timers = no_timers; now_ms = 0; running = false }

  unfoldable pub post : Option T → ManualExecutor T → ManualExecutor T
  post none m = m
  post (some t) m = record m { tasks = m.tasks ++ t ∷ [] }

  -- The id of the timer, 0 where none was armed.
  unfoldable pub post_after : ℤ → Option T → ManualExecutor T → ℕ × ManualExecutor T
  post_after delay none m = (0, m)
  post_after delay (some t) m =
      let (id, timers) = arm (m.now_ms + delay_count delay) t m.timers in
      (id, record m { timers = timers })

  unfoldable pub apply : Call T → ManualExecutor T → ManualExecutor T
  unfolding post post_after
  apply (posts t) m = post t m
  apply (posts_after delay t) m = (post_after delay t m).1
  apply (cancels id) m = record m { timers = cancel_timer id m.timers }

  unfoldable pub apply_all : List (Call T) → ManualExecutor T → ManualExecutor T
  apply_all [] m = m
  apply_all (c ∷ cs) m = apply_all cs (apply c m)

  unfoldable pub pop_task : ManualExecutor T → Option (T × ManualExecutor T)
  pop_task m = elim m.tasks [ [] ↦ none | t ∷ ts ↦ some (t, record m { tasks = ts }) ]

  unfoldable pub is_idle : ManualExecutor T → Bool
  is_idle m = is_empty m.tasks && is_empty m.timers.timers

  -- The locked part of a round of `AdvanceBy`: the first live timer due by `end`, with its deadline,
  -- or none where the loop breaks.
  abbrev pub take_due :
      ℕ → ManualExecutor T → List (ℕ × ℕ) → Option (ℕ × Option T) × ManualExecutor T
  take_due end m [] =
      (none, record m { timers = record (m.timers) { deadlines = [] }; now_ms = end })
  take_due end m ((deadline, id) ∷ rest) =
      if ltb end deadline
      then (
        none,
        record m { timers = record (m.timers) { deadlines = (deadline, id) ∷ rest }; now_ms = end },
      )
      else (
        some (deadline, find_timer id m.timers.timers),
        record m {
          timers = record (m.timers) { deadlines = rest; timers = erase_timer id m.timers.timers };
          now_ms = max m.now_ms deadline;
        },
      )

  unfoldable pub due_timer : ℕ → ManualExecutor T → Option (ℕ × Option T) × ManualExecutor T
  due_timer end m = take_due end m (drop_cancelled m.timers.timers m.timers.deadlines)

-- A timer that fired: its deadline, and `Now()` while it ran.
abbrev pub Firing : Type 0
Firing = ℕ × ℕ

module _ {ℓ} {T : Type ℓ} (calls : T → List (Call T)) where
  -- `RunOne`: what the task calls on the executor, with the outer driver's identity restored.
  unfoldable pub run_one : T → ManualExecutor T → ManualExecutor T
  run_one t m =
      let m' = apply_all (calls t) (record m { running = true }) in
      record m' { running = m.running }

  -- How many tasks ran, and whether the loop came to its end within the fuel.
  unfoldable pub run_pending : ℕ → ManualExecutor T → ManualExecutor T × ℕ × Bool
  run_pending zero m = (m, 0, false)
  run_pending (suc fuel) m = elim (pop_task m) [
    | none ↦ (m, 0, true)
    | some (t, rest) ↦
        let (m', ran, done) = run_pending fuel (run_one t rest) in (m', suc ran, done)
  ]

  abbrev pub run_timer : Option T → ManualExecutor T → ManualExecutor T
  run_timer none m = m
  run_timer (some t) m = run_one t m

  -- With the number of tasks that ran and the timers among them.
  unfoldable pub advance_loop : ℕ → ℕ → ManualExecutor T → ManualExecutor T × ℕ × List Firing × Bool
  advance_loop zero end m = (m, 0, [], false)
  advance_loop (suc fuel) end m =
      let (due, m₁) = due_timer end m in
      elim due [
        | none ↦ (m₁, 0, [], true)
        | some (deadline, t) ↦
            let (m₂, ran, drained) = run_pending fuel (run_timer t m₁) in
            let (m₃, more, fired, done) = advance_loop fuel end m₂ in
            (m₃, suc (ran + more), (deadline, m₁.now_ms) ∷ fired, drained && done)
      ]

  unfoldable pub advance_by : ℕ → ℤ → ManualExecutor T → ManualExecutor T × ℕ × List Firing × Bool
  advance_by fuel by m =
      let (m₁, ran, drained) = run_pending fuel m in
      let (m₂, more, fired, done) = advance_loop fuel (m₁.now_ms + delay_count by) m₁ in
      let (m₃, last, empty) = run_pending fuel m₂ in
      (m₃, ran + more + last, fired, drained && done && empty)

  -- Inline on the driving thread, otherwise behind what is queued.
  unfoldable pub run_and_wait : ℕ → Option T → ManualExecutor T → ManualExecutor T × Bool
  run_and_wait fuel none m = (m, true)
  run_and_wait fuel (some t) m =
      if m.running
      then (run_one t m, true)
      else let (m', ran, done) = run_pending fuel (post (some t) m) in (m', done)
