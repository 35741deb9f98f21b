-- ===== src/Tasks/Coordinator/Runs.antt =====
-- Runs of CoordinatorThread: the calls of its users, the turns of its thread at times that they name,
-- and the end of `Shutdown`.
use pp_cpp_common.Common.{List, Option, [], false, if◌then◌else◌, not, true, ℕ, ◌&&◌, ◌++◌, ◌∷◌}
use pp_cpp_common.Common.Int.{ℤ}
use pp_cpp_common.Tasks.Coordinator.{
  Coordinator, begin_shutdown, cancel_timer, finish_shutdown, post, schedule_one_shot,
  schedule_repeating, start,
}
use pp_cpp_common.Tasks.Coordinator.Loop.{
  Place, Turn, exits, loops, on_top, runs, thread_main, waits,
}
use pp_cpp_common.Tasks.Pool.{Lane}

pub data Event {ℓ} (T : Type ℓ) : Type ℓ where
  posts : Lane → Option T → Event T
  schedules_repeating schedules_one_shot : ℕ → ℤ → Option T → Event T
  cancels : ℕ → Event T
  turns : ℕ → Event T
  starts pauses resumes shuts_down joins : Event T

-- The coordinator, and where its thread takes the mutex again.
abbrev pub State {ℓ} : Type ℓ → Type ℓ
State T = Coordinator T × Place T

module _ {ℓ} {T : Type ℓ} where
  abbrev pub after_turn : Turn T → State T × List T
  after_turn (waits deadline c) = ((c, on_top), [])
  after_turn (runs t place c) = ((c, place), t ∷ [])
  after_turn (loops c) = ((c, on_top), [])
  after_turn (exits c) = ((c, on_top), [])

  -- `Shutdown` goes on to join or detach only where it set `stopped_` itself.
  unfoldable pub call : Event T → Coordinator T → Coordinator T
  call (posts priority t) c = post priority t c
  call (schedules_repeating now interval t) c = (schedule_repeating now interval t c).1
  call (schedules_one_shot now delay t) c = (schedule_one_shot now delay t c).1
  call (cancels timer_id) c = cancel_timer timer_id c
  call (turns now) c = c
  call starts c = start c
  call pauses c = record c { paused = true }
  call resumes c = record c { paused = false }
  call shuts_down c = begin_shutdown c
  call joins c = if c.stopped && c.joinable then (finish_shutdown c).0 else c

  -- The state after an event, and what the thread ran.
  unfoldable pub step : Event T → State T → State T × List T
  step (turns now) (c, place) =
      if c.started && not c.thread_exited
      then after_turn (thread_main now place c)
      else ((c, place), [])
  step e (c, place) = ((call e c, place), [])

  unfoldable pub run : List (Event T) → State T → State T × List T
  run [] s = (s, [])
  run (e ∷ es) s = let (s', ran) = step e s in let (s'', more) = run es s' in (s'', ran ++ more)
