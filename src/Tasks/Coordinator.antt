-- ===== src/Tasks/Coordinator.antt =====
-- include/common/runtime/CoordinatorThread.h and src/runtime/CoordinatorThread.cpp: the state under
-- the mutex and the methods of callers. Times are numbers that do not overflow.
pub mod Loop
pub mod Runs
pub mod Timing
pub mod Waking
pub mod Shutdown
pub mod Armed
mod Tests
use pp_cpp_common.Common.{
  Bool, List, Option, [], false, if◌then◌else◌, none, not, some, suc, true, zero, ℕ, ◌%◌, ◌++◌, ◌+◌,
  ◌==◌, ◌^◌, ◌||◌, ◌∷◌,
}
use pp_cpp_common.Common.Int.{negsuc, pos, ℤ}
use pp_cpp_common.Tasks.Pool.{Lane, background, critical, normal}

-- CoordinatorPriority has the three lanes of WorkerLane.
pub record TimerEntry {ℓ} (T : Type ℓ) : Type ℓ where
  pub id : ℕ
  pub next_fire : ℕ
  pub interval : ℕ
  pub repeat : Bool
  pub cancelled : Bool
  pub fn : Option T

-- `joinable` is of the std::thread.
pub record Coordinator {ℓ} (T : Type ℓ) : Type ℓ where
  pub critical_queue : List T
  pub normal_queue : List T
  pub background_queue : List T
  pub timers : List (TimerEntry T)
  pub next_timer_id : ℕ
  pub started : Bool
  pub stopped : Bool
  pub paused : Bool
  pub thread_exited : Bool
  pub joinable : Bool

module _ {ℓ} {T : Type ℓ} where
  unfoldable pub new_coordinator : Coordinator T
  new_coordinator = record {
    critical_queue = [];
    normal_queue = [];
    background_queue = [];
    timers = [];
    next_timer_id = 1;
    started = false;
    stopped = false;
    paused = false;
    thread_exited = false;
    joinable = false;
  }

  unfoldable pub start : Coordinator T → Coordinator T
  start c =
      if c.started || c.stopped
      then c
      else record c { started = true; thread_exited = false; joinable = true }

  unfoldable pub enqueue_locked : Lane → T → Coordinator T → Coordinator T
  enqueue_locked critical t c = record c { critical_queue = c.critical_queue ++ t ∷ [] }
  enqueue_locked normal t c = record c { normal_queue = c.normal_queue ++ t ∷ [] }
  enqueue_locked background t c = record c { background_queue = c.background_queue ++ t ∷ [] }

  unfoldable pub post : Lane → Option T → Coordinator T → Coordinator T
  unfolding enqueue_locked
  post priority none c = c
  post priority (some t) c = if c.stopped then c else enqueue_locked priority t c

  -- `timers_.push_back` of an entry with the next id.
  abbrev pub push_timer : ℕ → ℕ → Bool → T → Coordinator T → ℕ × Coordinator T
  push_timer next_fire interval repeat fn c = (
    c.next_timer_id,
    record c {
      next_timer_id = (c.next_timer_id + 1) % 2 ^ 64;
      timers =
          c.timers
          ++ (record {
            id = c.next_timer_id;
            next_fire = next_fire;
            interval = interval;
            repeat = repeat;
            cancelled = false;
            fn = some fn;
          })
            ∷ [];
    },
  )

  -- The id of the timer, 0 where none was armed.
  unfoldable pub schedule_repeating : ℕ → ℤ → Option T → Coordinator T → ℕ × Coordinator T
  schedule_repeating now interval none c = (0, c)
  schedule_repeating now (negsuc n) (some t) c = (0, c)
  schedule_repeating now (pos zero) (some t) c = (0, c)
  schedule_repeating now (pos (suc n)) (some t) c =
      if c.stopped then (0, c) else push_timer (now + suc n) (suc n) true t c

  unfoldable pub schedule_one_shot : ℕ → ℤ → Option T → Coordinator T → ℕ × Coordinator T
  schedule_one_shot now delay none c = (0, c)
  schedule_one_shot now (negsuc n) (some t) c = (0, c)
  schedule_one_shot now (pos n) (some t) c =
      if c.stopped then (0, c) else push_timer (now + n) n false t c

  -- The loop of `CancelTimer`.
  unfoldable pub cancel_entry : ℕ → List (TimerEntry T) → List (TimerEntry T)
  cancel_entry timer_id [] = []
  cancel_entry timer_id (e ∷ es) =
      if e.id == timer_id then record e { cancelled = true } ∷ es else e ∷ cancel_entry timer_id es

  unfoldable pub cancel_timer : ℕ → Coordinator T → Coordinator T
  cancel_timer timer_id c =
      if timer_id == 0 then c else record c { timers = cancel_entry timer_id c.timers }

  abbrev pub cancel_all : List (TimerEntry T) → List (TimerEntry T)
  cancel_all [] = []
  cancel_all (e ∷ es) = record e { cancelled = true } ∷ cancel_all es

  -- The locked part of `Shutdown`.
  unfoldable pub begin_shutdown : Coordinator T → Coordinator T
  begin_shutdown c = if not c.started || c.stopped then c else record c {
    stopped = true;
    critical_queue = [];
    normal_queue = [];
    background_queue = [];
    timers = cancel_all c.timers;
  }

  -- The rest of `Shutdown`, once the thread left or the budget ran out: it joins or detaches.
  unfoldable pub finish_shutdown : Coordinator T → Coordinator T × Bool
  finish_shutdown c =
      if not c.joinable
      then (record c { started = false; stopped = false; timers = [] }, true)
      else if c.thread_exited
      then (record c { joinable = false; started = false; stopped = false; timers = [] }, true)
      else (record c { joinable = false }, false)

  -- What `Shutdown` answers where there is nothing to shut down.
  unfoldable pub shutdown_again : Coordinator T → Bool
  shutdown_again c = not c.joinable || c.thread_exited
