-- ===== src/Tasks/Pool.antt =====
-- include/common/WorkerPool.h and src/WorkerPool.cpp: the state that the workers share, the methods
-- of the pool, and a worker's turn. A run of the pool interleaves them.
pub mod Lanes
pub mod Accounts
mod Tests
use pp_cpp_common.Common.{
  Bool, List, Option, [], false, if◌then◌else◌, is_empty, length, ltb, min, none, not, some, true,
  ℕ, ◌&&◌, ◌++◌, ◌+◌, ◌-◌, ◌==◌, ◌||◌, ◌∷◌,
}

pub data Lane : Type 0 where
  critical normal background : Lane

abbrev pub lane_eq : Lane → Lane → Bool
lane_eq critical critical = true
lane_eq normal normal = true
lane_eq background background = true
lane_eq _ _ = false

abbrev pub min_thread_count : ℕ
min_thread_count = 2

abbrev pub max_thread_count : ℕ
max_thread_count = 8

unfoldable pub clamp_thread_count : ℕ → ℕ
clamp_thread_count n = if ltb n min_thread_count then min_thread_count else min n max_thread_count

-- `threads` is the number of joinable std::thread objects.
pub record Pool {ℓ} (T : Type ℓ) : Type ℓ where
  pub critical_queue : List T
  pub normal_queue : List T
  pub background_queue : List T
  pub stopped : Bool
  pub paused : Bool
  pub live_workers : ℕ
  pub threads : ℕ

module _ {ℓ} {T : Type ℓ} where
  unfoldable pub new_pool : ℕ → Pool T
  unfolding clamp_thread_count
  new_pool n = record {
    critical_queue = [];
    normal_queue = [];
    background_queue = [];
    stopped = false;
    paused = false;
    live_workers = clamp_thread_count n;
    threads = clamp_thread_count n;
  }

  -- `QueueForLane`, to read and to write.
  abbrev pub queue_for_lane : Lane → Pool T → List T
  queue_for_lane critical p = p.critical_queue
  queue_for_lane normal p = p.normal_queue
  queue_for_lane background p = p.background_queue

  abbrev pub put_queue : Lane → List T → Pool T → Pool T
  put_queue critical ts p = record p { critical_queue = ts }
  put_queue normal ts p = record p { normal_queue = ts }
  put_queue background ts p = record p { background_queue = ts }

  unfoldable pub enqueue_locked : Lane → T → Pool T → Pool T
  enqueue_locked lane t p = put_queue lane (queue_for_lane lane p ++ t ∷ []) p

  unfoldable pub has_work_locked : Pool T → Bool
  has_work_locked p =
      not (is_empty p.critical_queue)
      || not (is_empty p.normal_queue)
      || not (is_empty p.background_queue)

  -- The queue that `DequeueOneLocked` points at.
  unfoldable pub first_lane : Pool T → Option Lane
  first_lane p =
      if not (is_empty p.critical_queue)
      then some critical
      else if not (is_empty p.normal_queue)
      then some normal
      else if not (is_empty p.background_queue)
      then some background
      else none

  abbrev pub pop_front : Lane → List T → Pool T → Option (Lane × T × Pool T)
  pop_front lane [] p = none
  pop_front lane (t ∷ ts) p = some (lane, t, put_queue lane ts p)

  unfoldable pub dequeue_one_locked : Pool T → Option (Lane × T × Pool T)
  unfolding first_lane
  dequeue_one_locked p = elim (first_lane p) [
    | none ↦ none
    | some lane ↦ pop_front lane (queue_for_lane lane p) p
  ]

  unfoldable pub post : Lane → Option T → Pool T → Pool T
  unfolding enqueue_locked
  post lane none p = p
  post lane (some t) p = if p.stopped then p else enqueue_locked lane t p

  unfoldable pub queued_count : Lane → Pool T → ℕ
  queued_count lane p = length (queue_for_lane lane p)

  unfoldable pub total_queued_count : Pool T → ℕ
  total_queued_count p = length p.critical_queue + length p.normal_queue + length p.background_queue

  -- The locked part of `Shutdown`; a second call changes nothing.
  unfoldable pub begin_shutdown : Pool T → Pool T
  begin_shutdown p = if p.stopped then p else record p {
    stopped = true;
    critical_queue = [];
    normal_queue = [];
    background_queue = [];
  }

  -- The rest of `Shutdown`, once the workers left or the budget ran out: joins or detaches every
  -- thread, and answers whether none was detached.
  unfoldable pub finish_shutdown : Pool T → Pool T × Bool
  finish_shutdown p = (record p { threads = 0 }, p.live_workers == 0 || p.threads == 0)

  -- What a further `Shutdown` of a stopped pool answers.
  unfoldable pub shutdown_again : Pool T → Bool
  shutdown_again p = p.live_workers == 0 && p.threads == 0

-- A worker's turn: it sleeps on, leaves, or takes a task to run.
pub data Turn {ℓ} (T : Type ℓ) : Type ℓ where
  waits : Turn T
  leaves : Pool T → Turn T
  runs : Lane → T → Pool T → Turn T

module _ {ℓ} {T : Type ℓ} where
  abbrev pub take_turn : Option (Lane × T × Pool T) → Turn T
  take_turn none = waits
  take_turn (some (lane, t, p)) = runs lane t p

  -- The predicate of the wait in `WorkerMain`.
  unfoldable pub wakes : Pool T → Bool
  wakes p = p.stopped || (not p.paused && has_work_locked p)

  -- The locked part of a round of `WorkerMain`: the wait, and what follows it.
  unfoldable pub worker_main : Pool T → Turn T
  worker_main p =
      if not (wakes p)
      then waits
      else if p.stopped
      then leaves (record p { live_workers = p.live_workers - 1 })
      else if p.paused
      then waits
      else take_turn (dequeue_one_locked p)

-- What callers and workers do next.
pub data Event {ℓ} (T : Type ℓ) : Type ℓ where
  posts : Lane → Option T → Event T
  pauses resumes shuts_down joins works : Event T

module _ {ℓ} {T : Type ℓ} where
  abbrev pub after_turn : Pool T → Turn T → Pool T × Option (Lane × T)
  after_turn p waits = (p, none)
  after_turn p (leaves q) = (q, none)
  after_turn p (runs lane t q) = (q, some (lane, t))

  -- The pool after an event, and the task that a worker started.
  unfoldable pub step : Event T → Pool T → Pool T × Option (Lane × T)
  step (posts lane t) p = (post lane t p, none)
  step pauses p = (record p { paused = true }, none)
  step resumes p = (record p { paused = false }, none)
  step shuts_down p = (begin_shutdown p, none)
  step joins p = if p.stopped then ((finish_shutdown p).0, none) else (p, none)
  step works p = after_turn p (worker_main p)
