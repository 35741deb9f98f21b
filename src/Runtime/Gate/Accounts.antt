-- ===== src/Runtime/Gate/Accounts.antt =====
-- What the counters of the teardown gate of src/runtime/AppRuntime.cpp count.
use pp_cpp_common.Common.{
  List, Option, [], arith, false, if-holds, length, none, refl, some, suc, zero, ℕ, ◌&&◌, ◌+◌, ◌==◌,
  ◌||◌, ◌∷◌, ◌≡◌,
}
use pp_cpp_common.Runtime.Gate.{
  GatedTask, begin_quiesce, begin_task, close_gate, count, draining, gate_task, gated, gated_depth,
  is_closed, is_draining, is_open, leave_task, one_shot_timer, posted, remove,
  reopen_after_teardown, repeating_timer, settle,
}
use pp_cpp_common.Runtime.Gate.Runs.{
  Event, Gated, accept, begin_at, begins, begun, behind, closes, drop_at, drops, ends, posts,
  quiesced, quiesces, reopens, run, step, take_at,
}

-- The posts among the tasks that are held.
abbrev pub one_if_posted : GatedTask → ℕ
one_if_posted (gated posted epoch) = 1
one_if_posted _ = 0

abbrev pub posts_in : List GatedTask → ℕ
posts_in [] = 0
posts_in (k ∷ ks) = one_if_posted k + posts_in ks

-- `pending` counts the posts that wait, and `running` the tasks that execute.
abbrev pub IsCounted : Gated → Type 0
IsCounted s = (s.gate.pending ≡ posts_in s.held) × (s.gate.running ≡ length s.gate.nesting)

-- The task that was taken and what is left make up what was held.
abbrev pub Splits : List GatedTask → Option (GatedTask × List GatedTask) → Type 0
Splits ks none = Unit {0}
Splits ks (some (k, rest)) = posts_in ks ≡ one_if_posted k + posts_in rest

behind-Splits :
    (k : GatedTask) (ks : List GatedTask) (o : Option (GatedTask × List GatedTask))
    → Splits ks o
    → Splits (k ∷ ks) (behind k o)
behind-Splits k ks none h = tt
behind-Splits k ks (some (l, ls)) h = omega arith

pub take_at-Splits : (i : ℕ) (ks : List GatedTask) → Splits ks (take_at i ks)
take_at-Splits i [] = tt
take_at-Splits zero (k ∷ ks) = refl
take_at-Splits (suc i) (k ∷ ks) = behind-Splits k ks (take_at i ks) (take_at-Splits i ks)

length-remove :
    (t : ℕ) (us : List ℕ) → (count t us == 0) ≡ false → length us ≡ suc (length (remove t us))
length-remove t [] h = ground arith
length-remove t (u ∷ us) h = ground (arith, length-remove t us)

-- A task that begins is counted as running, or is gone.
begun-IsCounted :
    (k : GatedTask) (rest : List GatedTask) (thread : ℕ) (s : Gated)
    → posts_in s.held ≡ one_if_posted k + posts_in rest
    → IsCounted s
    → IsCounted (begun k rest (begin_task k thread s.gate)).0
unfolding begin_task settle
begun-IsCounted (gated posted epoch) rest thread s e h = ground arith
begun-IsCounted (gated one_shot_timer epoch) rest thread s e h = ground arith
begun-IsCounted (gated repeating_timer epoch) rest thread s e h = ground arith

begin_at-IsCounted :
    (o : Option (GatedTask × List GatedTask)) (thread : ℕ) (s : Gated)
    → Splits s.held o
    → IsCounted s
    → IsCounted (begin_at o thread s).0
begin_at-IsCounted none thread s e h = h
begin_at-IsCounted (some (k, rest)) thread s e h = begun-IsCounted k rest thread s e h

drop_at-IsCounted :
    (o : Option (GatedTask × List GatedTask)) (s : Gated)
    → Splits s.held o
    → IsCounted s
    → IsCounted (drop_at o s)
unfolding settle
drop_at-IsCounted none s e h = h
drop_at-IsCounted (some (gated posted epoch, rest)) s e h = ground arith
drop_at-IsCounted (some (gated one_shot_timer epoch, rest)) s e h = ground arith
drop_at-IsCounted (some (gated repeating_timer epoch, rest)) s e h = ground arith

grown : (n m : ℕ) → n ≡ m → n + 1 ≡ 1 + m
grown n m h = omega arith

-- Every critical section keeps pending the number of posts that wait and running the number of
-- gated tasks that execute.
pub step-IsCounted : (e : Event) (s : Gated) → IsCounted s → IsCounted (step e s).0
unfolding step gate_task gated_depth leave_task begin_quiesce close_gate reopen_after_teardown
step-IsCounted (posts posted thread) s h =
    if-holds (λ o. IsCounted (accept o s))
      (is_closed s.gate.state || (is_draining s.gate.state && gated_depth thread s.gate == 0)) none
      (some (gated posted s.gate.epoch, record s.gate { pending = s.gate.pending + 1 })) h
      (grown _ _ h.0, h.1)
step-IsCounted (posts one_shot_timer thread) s h = (omega arith, h.1)
step-IsCounted (posts repeating_timer thread) s h = (omega arith, h.1)
step-IsCounted (begins i thread) s h =
    begin_at-IsCounted (take_at i s.held) thread s (take_at-Splits i s.held) h
step-IsCounted (ends thread) s h = ground (arith, length-remove thread s.gate.nesting)
step-IsCounted (drops i) s h = drop_at-IsCounted (take_at i s.held) s (take_at-Splits i s.held) h
step-IsCounted quiesces s h =
    if-holds (λ o. IsCounted (quiesced o s)) (is_open s.gate.state)
      (some (record s.gate { state = draining })) none h h
step-IsCounted closes s h = h
step-IsCounted reopens s h = ground arith

pub run-IsCounted : (es : List Event) (s : Gated) → IsCounted s → IsCounted (run es s).0
unfolding run
run-IsCounted [] s h = h
run-IsCounted (e ∷ es) s h = run-IsCounted es (step e s).0 (step-IsCounted e s h)
