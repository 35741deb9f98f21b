-- ===== src/Runtime/Gate/Quiesce.antt =====
-- The teardown gate of src/runtime/AppRuntime.cpp once QuiesceForTeardown has drained it.
use pp_cpp_common.Common.{
  All, Bool, List, Option, [], arith, false, none, refl, some, true, ℕ, ◌∙◌, ◌∷◌, ◌≡◌,
}
use pp_cpp_common.Runtime.Gate.{
  GatedTask, begin_quiesce, begin_task, close_gate, closed, gate_task, gated, gated_depth,
  leave_task, may_run, one_shot_timer, posted, repeating_timer, settle,
}
use pp_cpp_common.Runtime.Gate.Runs.{
  Event, Gated, begin_at, begins, begun, closes, drop_at, drops, ends, posts, quiesces, reopens,
  run, step, take_at,
}

abbrev pub is_reopen : Event → Bool
is_reopen reopens = true
is_reopen _ = false

-- Nothing runs, and the gate is as closed as before.
abbrev Shut : Gated × List GatedTask → Type 0
Shut (s, ran) = (s.gate.state ≡ closed) × (ran ≡ [])

begun-Shut :
    (k : GatedTask) (rest : List GatedTask) (thread : ℕ) (s : Gated)
    → s.gate.state ≡ closed
    → Shut (begun k rest (begin_task k thread s.gate))
unfolding begin_task settle may_run
begun-Shut (gated posted epoch) rest thread s h = ground arith
begun-Shut (gated one_shot_timer epoch) rest thread s h = ground arith
begun-Shut (gated repeating_timer epoch) rest thread s h = ground arith

begin_at-Shut :
    (o : Option (GatedTask × List GatedTask)) (thread : ℕ) (s : Gated)
    → s.gate.state ≡ closed
    → Shut (begin_at o thread s)
begin_at-Shut none thread s h = (h, refl)
begin_at-Shut (some (k, rest)) thread s h = begun-Shut k rest thread s h

drop_at-state :
    (o : Option (GatedTask × List GatedTask)) (s : Gated) → (drop_at o s).gate.state ≡ s.gate.state
unfolding settle
drop_at-state none s = refl
drop_at-state (some (gated posted epoch, rest)) s = refl
drop_at-state (some (gated one_shot_timer epoch, rest)) s = refl
drop_at-state (some (gated repeating_timer epoch, rest)) s = refl

step-Shut : (e : Event) (s : Gated) → is_reopen e ≡ false → s.gate.state ≡ closed → Shut (step e s)
unfolding step gate_task gated_depth leave_task begin_quiesce close_gate
step-Shut (posts posted thread) s n h = ground arith
step-Shut (posts one_shot_timer thread) s n h = (h, refl)
step-Shut (posts repeating_timer thread) s n h = (h, refl)
step-Shut (begins i thread) s n h = begin_at-Shut (take_at i s.held) thread s h
step-Shut (ends thread) s n h = ground arith
step-Shut (drops i) s n h = (drop_at-state (take_at i s.held) s ∙ h, refl)
step-Shut quiesces s n h = ground arith
step-Shut closes s n h = (refl, refl)
step-Shut reopens s n h = absurd (ground arith)

pub run_closed :
    (es : List Event) (s : Gated)
    → All (λ e. is_reopen e ≡ false) es
    → s.gate.state ≡ closed
    → ((run es s).0.gate.state ≡ closed) × ((run es s).1 ≡ [])
unfolding run
run_closed [] s n h = (h, refl)
run_closed (e ∷ es) s n h =
    let (shut, none') = step-Shut e s n.0 h in
    let (shut', none'') = run_closed es (step e s).0 n.1 shut in (shut', rw (none', none'') refl)
