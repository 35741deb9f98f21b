-- ===== src/Tasks/Coordinator/Loop.antt =====
-- `ThreadMain` of CoordinatorThread, cut where it gives the mutex up: to run a task or a timer's
-- callback, and to wait.

-- Where the thread takes the mutex again: on top of the loop, after a task, or after a callback with
-- others collected behind it, at the time at which they were due.
use pp_cpp_common.Common.{
  Bool, List, Option, [], false, if◌then◌else◌, is_empty, leb, ltb, min, none, not, some, true, ℕ,
  ◌+◌, ◌||◌, ◌∷◌,
}
use pp_cpp_common.Tasks.Coordinator.{Coordinator, TimerEntry}

pub data Place {ℓ} (T : Type ℓ) : Type ℓ where
  on_top after_task : Place T
  after_timer : ℕ → List T → Place T

-- What it does until it gives the mutex up: it waits (until a deadline, where there is one), runs
-- something and goes on from a place, or leaves. Where the earliest deadline passed meanwhile it goes
-- round at once and keeps the mutex; that is a turn of its own too, so that the runs of the model let
-- others in there as well.
pub data Turn {ℓ} (T : Type ℓ) : Type ℓ where
  waits : Option ℕ → Coordinator T → Turn T
  runs : T → Place T → Coordinator T → Turn T
  loops exits : Coordinator T → Turn T

module _ {ℓ} {T : Type ℓ} where
  unfoldable pub dequeue_one_locked : Coordinator T → Option (T × Coordinator T)
  dequeue_one_locked c = elim c.critical_queue [
    | t ∷ ts ↦ some (t, record c { critical_queue = ts })
    | [] ↦ elim c.normal_queue [
      | t ∷ ts ↦ some (t, record c { normal_queue = ts })
      | [] ↦ elim c.background_queue [
        | t ∷ ts ↦ some (t, record c { background_queue = ts })
        | [] ↦ none
      ]
    ]
  ]

  unfoldable pub has_work_locked : Coordinator T → Bool
  has_work_locked c =
      not (is_empty c.critical_queue)
      || not (is_empty c.normal_queue)
      || not (is_empty c.background_queue)

  -- `none` for time_point::max().
  unfoldable pub next_deadline : List (TimerEntry T) → Option ℕ
  next_deadline [] = none
  next_deadline (e ∷ es) =
      let next = next_deadline es in
      if e.cancelled
      then next
      else some (elim next [ none ↦ e.next_fire | some d ↦ min e.next_fire d ])

  abbrev pub fired_entry : ℕ → TimerEntry T → TimerEntry T
  fired_entry now e =
      if e.repeat then record e { next_fire = now + e.interval } else record e { cancelled = true }

  -- A round of the collecting loop of `FireDueTimersLocked`, before the rounds behind it: the
  -- callbacks, and the entries after it.
  abbrev pub collect_entry :
      ℕ → TimerEntry T → Option T → List T × List (TimerEntry T) → List T × List (TimerEntry T)
  collect_entry now e none (due, kept) = (due, e ∷ kept)
  collect_entry now e (some t) (due, kept) =
      if e.cancelled || ltb now e.next_fire
      then (due, e ∷ kept)
      else (t ∷ due, fired_entry now e ∷ kept)

  unfoldable pub collect_due : ℕ → List (TimerEntry T) → List T × List (TimerEntry T)
  collect_due now [] = ([], [])
  collect_due now (e ∷ es) = collect_entry now e e.fn (collect_due now es)

  -- `remove_if` of the cancelled entries.
  unfoldable pub sweep : List (TimerEntry T) → List (TimerEntry T)
  sweep [] = []
  sweep (e ∷ es) = if e.cancelled then sweep es else e ∷ sweep es

  abbrev pub leave : Coordinator T → Turn T
  leave c = exits (record c { thread_exited = true })

  -- The end of a round that began to fire at `now`.
  abbrev pub wait_for : ℕ → Option ℕ → Coordinator T → Turn T
  wait_for now none c = waits none c
  wait_for now (some deadline) c = if leb deadline now then loops c else waits (some deadline) c

  -- The loop over the callbacks, and the end of the round.
  unfoldable pub fire : ℕ → List T → Coordinator T → Turn T
  fire now (t ∷ due) c = runs t (after_timer now due) c
  fire now [] c =
      let timers = sweep c.timers in
      let c' = record c { timers = timers } in
      if c.stopped then leave c' else wait_for now (next_deadline timers) c'

  unfoldable pub fire_due_timers_locked : ℕ → Coordinator T → Turn T
  fire_due_timers_locked now c =
      let (due, timers) = collect_due now c.timers in fire now due (record c { timers = timers })

  unfoldable pub drain : ℕ → Coordinator T → Turn T
  drain now c = elim (dequeue_one_locked c) [
    | none ↦ fire_due_timers_locked now c
    | some (t, c') ↦ runs t after_task c'
  ]

  unfoldable pub thread_main : ℕ → Place T → Coordinator T → Turn T
  thread_main now on_top c =
      if c.stopped then leave c else if c.paused then waits none c else drain now c
  thread_main now after_task c = if c.stopped then fire_due_timers_locked now c else drain now c
  thread_main now (after_timer began due) c = if c.stopped then leave c else fire began due c

  -- The predicate that ends a wait for a deadline.
  unfoldable pub wakes : Option ℕ → Coordinator T → Bool
  wakes deadline c = c.stopped || has_work_locked c || elim (next_deadline c.timers) [
    | none ↦ false
    | some next ↦ elim deadline [ none ↦ true | some d ↦ ltb next d ]
  ]
