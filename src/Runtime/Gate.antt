-- ===== src/Runtime/Gate.antt =====
-- The teardown gate of src/runtime/AppRuntime.cpp. A run is a sequence of the critical sections under
-- the gate's lock, each made by some thread.
pub mod Runs
pub mod Accounts
pub mod Quiesce
pub mod Drained
pub mod Epochs
mod Tests
use pp_cpp_common.Common.{
  Bool, List, Option, [], false, if◌then◌else◌, leb, none, not, some, suc, true, ℕ, ◌&&◌, ◌+◌, ◌-◌,
  ◌==◌, ◌||◌, ◌∷◌,
}

pub data TeardownState : Type 0 where
  opened draining closed : TeardownState

pub data GateKind : Type 0 where
  posted one_shot_timer repeating_timer : GateKind

-- `nesting` has the thread of every gated task that executes now, so that t_gated_depth of a thread
-- is how often the thread stands in it.
pub record TeardownGate : Type 0 where
  pub state : TeardownState
  pub epoch : ℕ
  pub pending : ℕ
  pub running : ℕ
  pub nesting : List ℕ

-- A wrapped task that some mailbox or timer holds: what it captured.
pub data GatedTask : Type 0 where
  gated : GateKind → ℕ → GatedTask

abbrev pub new_gate : TeardownGate
new_gate = record { state = opened; epoch = 0; pending = 0; running = 0; nesting = [] }

abbrev pub count : ℕ → List ℕ → ℕ
count t [] = 0
count t (u ∷ us) = if t == u then suc (count t us) else count t us

abbrev pub remove : ℕ → List ℕ → List ℕ
remove t [] = []
remove t (u ∷ us) = if t == u then us else u ∷ remove t us

unfoldable pub gated_depth : ℕ → TeardownGate → ℕ
gated_depth thread g = count thread g.nesting

abbrev pub is_open : TeardownState → Bool
is_open opened = true
is_open _ = false

abbrev pub is_draining : TeardownState → Bool
is_draining draining = true
is_draining _ = false

abbrev pub is_closed : TeardownState → Bool
is_closed closed = true
is_closed _ = false

-- GateTask: none drops the post.
unfoldable pub gate_task : GateKind → ℕ → TeardownGate → Option (GatedTask × TeardownGate)
gate_task posted thread g =
    if is_closed g.state || (is_draining g.state && gated_depth thread g == 0)
    then none
    else some (gated posted g.epoch, record g { pending = g.pending + 1 })
gate_task kind thread g = some (gated kind g.epoch, g)

-- PendingPost::Settle, for the posts that are counted.
unfoldable pub settle : GateKind → TeardownGate → TeardownGate
settle posted g = record g { pending = g.pending - 1 }
settle _ g = g

unfoldable pub may_run : GateKind → ℕ → TeardownGate → Bool
may_run posted epoch g = not (is_closed g.state) && g.epoch == epoch
may_run one_shot_timer epoch g = is_open g.state && g.epoch == epoch
may_run repeating_timer epoch g = is_open g.state

abbrev pub enter : ℕ → TeardownGate → TeardownGate
enter thread g = record g { running = g.running + 1; nesting = thread ∷ g.nesting }

-- The wrapper up to the call of the task, and whether it is called.
unfoldable pub begin_task : GatedTask → ℕ → TeardownGate → Bool × TeardownGate
begin_task (gated kind epoch) thread g =
    let settled = settle kind g in
    if may_run kind epoch settled then (true, enter thread settled) else (false, settled)

-- The wrapper's Leave.
unfoldable pub leave_task : ℕ → TeardownGate → TeardownGate
leave_task thread g = record g { running = g.running - 1; nesting = remove thread g.nesting }

-- The first part of QuiesceForTeardown; none where the gate is not open and it answers at once.
unfoldable pub begin_quiesce : TeardownGate → Option TeardownGate
begin_quiesce g = if is_open g.state then some (record g { state = draining }) else none

-- The test of its loop.
unfoldable pub is_drained : ℕ → TeardownGate → Bool
is_drained thread g = g.pending == 0 && leb g.running (gated_depth thread g)

unfoldable pub close_gate : TeardownGate → TeardownGate
close_gate g = record g { state = closed }

unfoldable pub reopen_after_teardown : TeardownGate → TeardownGate
reopen_after_teardown g =
    if is_open g.state then g else record g { epoch = g.epoch + 1; state = opened }

unfoldable pub is_teardown_quiesced : TeardownGate → Bool
is_teardown_quiesced g = not (is_open g.state)
