-- ===== src/Runtime/Gate/Epochs.antt =====
-- The epochs of the teardown gate of src/runtime/AppRuntime.cpp.
use pp_cpp_common.Common.{
  All, All-map, Bool-cases, List, Option, [], arith, false, if-else_holds, if-holds, inl, inr, none,
  not, some, suc, true, zero, ℕ, ◌&&◌, ◌++◌, ◌+◌, ◌==◌, ◌||◌, ◌∷◌, ◌≡◌, ◌≤◌,
}
use pp_cpp_common.Runtime.Gate.{
  GatedTask, begin_quiesce, begin_task, close_gate, draining, enter, gate_task, gated, gated_depth,
  is_closed, is_draining, is_open, leave_task, may_run, one_shot_timer, opened, posted,
  reopen_after_teardown, repeating_timer, settle,
}
use pp_cpp_common.Runtime.Gate.Runs.{
  Event, Gated, accept, begin_at, begins, begun, behind, closes, drop_at, drops, ends, posts,
  quiesced, quiesces, reopens, run, step, take_at,
}

-- A repeating timer, or a task that was wrapped in epoch `floor` or later.
abbrev pub IsFresh : ℕ → GatedTask → Type 0
IsFresh floor (gated repeating_timer epoch) = Unit {0}
IsFresh floor (gated _ epoch) = floor ≤ epoch

-- A task was wrapped no later than now.
abbrev pub IsStamped : ℕ → GatedTask → Type 0
IsStamped now (gated kind epoch) = epoch ≤ now

-- What is held was wrapped by now, and now is at least `floor`.
abbrev Dated : ℕ → Gated → Type 0
Dated floor s = All (IsStamped s.gate.epoch) s.held × (floor ≤ s.gate.epoch)

abbrev Splits : ℕ → Option (GatedTask × List GatedTask) → Type 0
Splits now none = Unit {0}
Splits now (some (k, rest)) = IsStamped now k × All (IsStamped now) rest

behind-Splits :
    (now : ℕ) (k : GatedTask) (o : Option (GatedTask × List GatedTask))
    → IsStamped now k
    → Splits now o
    → Splits now (behind k o)
behind-Splits now k none p h = tt
behind-Splits now k (some (l, ls)) p h = (h.0, (p, h.1))

take_at-Splits :
    (now i : ℕ) (ks : List GatedTask) → All (IsStamped now) ks → Splits now (take_at i ks)
take_at-Splits now i [] h = tt
take_at-Splits now zero (k ∷ ks) h = h
take_at-Splits now (suc i) (k ∷ ks) h =
    behind-Splits now k (take_at i ks) h.0 (take_at-Splits now i ks h.1)

begun-Dated :
    (floor : ℕ) (k : GatedTask) (rest : List GatedTask) (thread : ℕ) (s : Gated)
    → IsStamped s.gate.epoch k
    → All (IsStamped s.gate.epoch) rest
    → floor ≤ s.gate.epoch
    → let r = begun k rest (begin_task k thread s.gate) in Dated floor r.0 × All (IsFresh floor) r.1
unfolding begin_task settle may_run
begun-Dated floor (gated posted epoch) rest thread s p h f =
    elim (Bool-cases (not (is_closed s.gate.state) && s.gate.epoch == epoch)) [
      | inl e ↦ let fresh : floor ≤ epoch = ground (arith, e, f) in rw e ((h, f), (fresh, tt))
      | inr e ↦ rw e ((h, f), tt)
    ]
begun-Dated floor (gated one_shot_timer epoch) rest thread s p h f =
    elim (Bool-cases (is_open s.gate.state && s.gate.epoch == epoch)) [
      | inl e ↦ let fresh : floor ≤ epoch = ground (arith, e, f) in rw e ((h, f), (fresh, tt))
      | inr e ↦ rw e ((h, f), tt)
    ]
begun-Dated floor (gated repeating_timer epoch) rest thread s p h f =
    if-holds
      (λ r.
        let x = begun (gated repeating_timer epoch) rest r in
        Dated floor x.0 × All (IsFresh floor) x.1)
      (is_open s.gate.state) (true, enter thread s.gate) (false, s.gate) (((p, h), f), (tt, tt))
      (((p, h), f), tt)

begin_at-Dated :
    (floor : ℕ) (o : Option (GatedTask × List GatedTask)) (thread : ℕ) (s : Gated)
    → Splits s.gate.epoch o
    → Dated floor s
    → Dated floor (begin_at o thread s).0 × All (IsFresh floor) (begin_at o thread s).1
begin_at-Dated floor none thread s e h = (h, tt)
begin_at-Dated floor (some (k, rest)) thread s e h = begun-Dated floor k rest thread s e.0 e.1 h.1

drop_at-Dated :
    (floor : ℕ) (o : Option (GatedTask × List GatedTask)) (s : Gated)
    → Splits s.gate.epoch o
    → Dated floor s
    → Dated floor (drop_at o s)
unfolding settle
drop_at-Dated floor none s e h = h
drop_at-Dated floor (some (gated posted epoch, rest)) s e h = (e.1, h.1)
drop_at-Dated floor (some (gated one_shot_timer epoch, rest)) s e h = (e.1, h.1)
drop_at-Dated floor (some (gated repeating_timer epoch, rest)) s e h = (e.1, h.1)

IsStamped-later :
    (now later : ℕ) → now ≤ later → (k : GatedTask) → IsStamped now k → IsStamped later k
IsStamped-later now later le (gated kind epoch) h = omega arith

reopened-Dated :
    (floor : ℕ) (s : Gated)
    → Dated floor s
    → Dated floor (record s { gate = reopen_after_teardown s.gate })
unfolding reopen_after_teardown
reopened-Dated floor s h =
    let later = IsStamped-later s.gate.epoch (s.gate.epoch + 1) (omega arith) in
    if-holds (λ g. Dated floor (record s { gate = g })) (is_open s.gate.state) s.gate
      (record s.gate { epoch = s.gate.epoch + 1; state = opened }) h
      (
        All-map (IsStamped s.gate.epoch) (IsStamped (s.gate.epoch + 1)) s.held later h.0,
        omega (arith, h.1),
      )

step-Dated :
    (floor : ℕ) (e : Event) (s : Gated)
    → Dated floor s
    → Dated floor (step e s).0 × All (IsFresh floor) (step e s).1
unfolding step gate_task leave_task begin_quiesce close_gate
step-Dated floor (posts posted thread) s h = (
  if-holds (λ o. Dated floor (accept o s))
      (is_closed s.gate.state || (is_draining s.gate.state && gated_depth thread s.gate == 0)) none
      (some (gated posted s.gate.epoch, record s.gate { pending = s.gate.pending + 1 })) h
      (((omega arith), h.0), h.1),
  tt,
)
step-Dated floor (posts one_shot_timer thread) s h = ((((omega arith), h.0), h.1), tt)
step-Dated floor (posts repeating_timer thread) s h = ((((omega arith), h.0), h.1), tt)
step-Dated floor (begins i thread) s h =
    begin_at-Dated floor (take_at i s.held) thread s (take_at-Splits s.gate.epoch i s.held h.0) h
step-Dated floor (ends thread) s h = (
  if-holds (Dated floor) (gated_depth thread s.gate == 0) s
      (record s { gate = leave_task thread s.gate }) h h,
  tt,
)
step-Dated floor (drops i) s h =
    (drop_at-Dated floor (take_at i s.held) s (take_at-Splits s.gate.epoch i s.held h.0) h, tt)
step-Dated floor quiesces s h = (
  if-holds (λ o. Dated floor (quiesced o s)) (is_open s.gate.state)
      (some (record s.gate { state = draining })) none h h,
  tt,
)
step-Dated floor closes s h = (h, tt)
step-Dated floor reopens s h = (reopened-Dated floor s h, tt)

All-append {ℓ κ} :
    {A : Type ℓ} (P : A → Type κ) (xs ys : List A) → All P xs → All P ys → All P (xs ++ ys)
All-append P [] ys h k = k
All-append P (x ∷ xs) ys h k = (h.0, All-append P xs ys h.1 k)

run-Dated :
    (floor : ℕ) (es : List Event) (s : Gated)
    → Dated floor s
    → Dated floor (run es s).0 × All (IsFresh floor) (run es s).1
unfolding run
run-Dated floor [] s h = (h, tt)
run-Dated floor (e ∷ es) s h =
    let (dated, fresh) = step-Dated floor e s h in
    let (dated', fresh') = run-Dated floor es (step e s).0 dated in
    (dated', All-append (IsFresh floor) _ _ fresh fresh')

-- After ReopenAfterTeardown of a gate that is not open only repeating timers and tasks that were
-- wrapped afterwards are called.
pub run-reopened :
    (es : List Event) (s : Gated)
    → is_open s.gate.state ≡ false
    → All (IsStamped s.gate.epoch) s.held
    → All (IsFresh (s.gate.epoch + 1)) (run (reopens ∷ es) s).1
unfolding run step reopen_after_teardown
run-reopened es s shut h =
    let now = s.gate.epoch + 1 in
    let g = record s.gate { epoch = now; state = opened } in
    let later = IsStamped-later s.gate.epoch now (omega arith) in
    let stamped = All-map (IsStamped s.gate.epoch) (IsStamped now) s.held later h in
    if-else_holds (λ g. All (IsFresh now) (run es (record s { gate = g })).1) (is_open s.gate.state)
      s.gate g shut (run-Dated now es (record s { gate = g }) (stamped, omega arith)).1
