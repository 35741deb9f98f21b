-- ===== src/Runtime/Gate/Runs.antt =====
-- Runs of the teardown gate of src/runtime/AppRuntime.cpp: posts, tasks that begin and end, tasks
-- that are dropped unrun, and the quiesce.
use pp_cpp_common.Common.{
  Bool, List, Option, [], if◌then◌else◌, none, some, suc, zero, ℕ, ◌++◌, ◌==◌, ◌∷◌,
}
use pp_cpp_common.Runtime.Gate.{
  GateKind, GatedTask, TeardownGate, begin_quiesce, begin_task, close_gate, gate_task, gated,
  gated_depth, leave_task, reopen_after_teardown, repeating_timer, settle,
}

-- What the mailboxes and timers hold beside the gate.
pub record Gated : Type 0 where
  pub gate : TeardownGate
  pub held : List GatedTask

-- `begins i t`: thread t runs the i-th task that is held.
pub data Event : Type 0 where
  posts : GateKind → ℕ → Event
  begins : ℕ → ℕ → Event
  ends : ℕ → Event
  drops : ℕ → Event
  quiesces closes reopens : Event

abbrev pub behind :
    GatedTask → Option (GatedTask × List GatedTask) → Option (GatedTask × List GatedTask)
behind k none = none
behind k (some (l, ls)) = some (l, k ∷ ls)

abbrev pub take_at : ℕ → List GatedTask → Option (GatedTask × List GatedTask)
take_at i [] = none
take_at zero (k ∷ ks) = some (k, ks)
take_at (suc i) (k ∷ ks) = behind k (take_at i ks)

-- A repeating timer keeps its task.
abbrev pub put_back : GatedTask → List GatedTask → List GatedTask
put_back (gated repeating_timer epoch) ks = gated repeating_timer epoch ∷ ks
put_back _ ks = ks

abbrev pub accept : Option (GatedTask × TeardownGate) → Gated → Gated
accept none s = s
accept (some (k, g)) s = record { gate = g; held = k ∷ s.held }

abbrev pub begun : GatedTask → List GatedTask → Bool × TeardownGate → Gated × List GatedTask
begun k rest (ran, g) = (record { gate = g; held = put_back k rest }, (if ran then k ∷ [] else []))

abbrev pub begin_at : Option (GatedTask × List GatedTask) → ℕ → Gated → Gated × List GatedTask
begin_at none thread s = (s, [])
begin_at (some (k, rest)) thread s = begun k rest (begin_task k thread s.gate)

abbrev pub drop_at : Option (GatedTask × List GatedTask) → Gated → Gated
drop_at none s = s
drop_at (some (gated kind epoch, rest)) s = record { gate = settle kind s.gate; held = rest }

abbrev pub quiesced : Option TeardownGate → Gated → Gated
quiesced none s = s
quiesced (some g) s = record s { gate = g }

-- The state after an event, and the task that was called.
unfoldable pub step : Event → Gated → Gated × List GatedTask
step (posts kind thread) s = (accept (gate_task kind thread s.gate) s, [])
step (begins i thread) s = begin_at (take_at i s.held) thread s
step (ends thread) s = (
  (if gated_depth thread s.gate == 0 then s else record s { gate = leave_task thread s.gate }),
  [],
)
step (drops i) s = (drop_at (take_at i s.held) s, [])
step quiesces s = (quiesced (begin_quiesce s.gate) s, [])
step closes s = (record s { gate = close_gate s.gate }, [])
step reopens s = (record s { gate = reopen_after_teardown s.gate }, [])

-- The tasks that were called, in their order.
unfoldable pub run : List Event → Gated → Gated × List GatedTask
run [] s = (s, [])
run (e ∷ es) s = let (s', ran) = step e s in let (s'', more) = run es s' in (s'', ran ++ more)
