-- ===== src/Runtime/Gate/Drained.antt =====
-- The teardown gate of src/runtime/AppRuntime.cpp between the last test of QuiesceForTeardown's loop
-- and the lock under which it closes the gate.
use mathlib.Core.Path.{ap₂}
use pp_cpp_common.Common.{
  All, Bool, Bool-cases, List, Option, [], ap, append_assoc, arith, false, if-else_holds,
  if-then_holds, inl, inr, leb, length, none, not, refl, some, subst, sym, true, ℕ, ◌&&◌, ◌++◌, ◌+◌,
  ◌==◌, ◌||◌, ◌∙◌, ◌∷◌, ◌≡◌, ◌≤◌,
}
use pp_cpp_common.Runtime.Gate.{
  GatedTask, TeardownGate, begin_quiesce, begin_task, close_gate, count, draining, gate_task, gated,
  gated_depth, is_closed, is_drained, is_draining, is_open, leave_task, may_run, one_shot_timer,
  posted, repeating_timer, settle,
}
use pp_cpp_common.Runtime.Gate.Accounts.{
  IsCounted, Splits, one_if_posted, posts_in, run-IsCounted, take_at-Splits,
}
use pp_cpp_common.Runtime.Gate.Quiesce.{is_reopen, run_closed}
use pp_cpp_common.Runtime.Gate.Runs.{
  Event, Gated, accept, begin_at, begins, begun, closes, drop_at, drops, ends, posts, put_back,
  quiesced, quiesces, reopens, run, step, take_at,
}

-- What the threads other than `own` can do, and the timers.
abbrev pub by_other : ℕ → Event → Bool
by_other own (posts kind thread) = not (thread == own)
by_other own (begins i thread) = not (thread == own)
by_other own (ends thread) = not (thread == own)
by_other own (drops i) = true
by_other own quiesces = true
by_other own closes = false
by_other own reopens = false

-- Only `own` executes gated tasks, and no post waits.
abbrev Quiet : ℕ → List ℕ → Gated → Type 0
Quiet own nesting s =
    (s.gate.state ≡ draining)
    × (posts_in s.held ≡ 0)
    × (s.gate.nesting ≡ nesting)
    × All (λ t. t ≡ own) nesting

count_other :
    (own t : ℕ) (us : List ℕ) → All (λ u. u ≡ own) us → (t == own) ≡ false → count t us ≡ 0
count_other own t [] h n = refl
count_other own t (u ∷ us) h n = ground (arith, h.0, count_other own t us h.1 n)

-- A timer whose time comes while the gate is not open does nothing.
one_shot_skips :
    (epoch thread : ℕ) (g : TeardownGate)
    → is_open g.state ≡ false
    → begin_task (gated one_shot_timer epoch) thread g ≡ (false, g)
unfolding begin_task settle may_run
one_shot_skips epoch thread g h =
    if-else_holds (λ r. r ≡ (false, g)) (is_open g.state && g.epoch == epoch) _ _ (rw h refl) refl

repeating_skips :
    (epoch thread : ℕ) (g : TeardownGate)
    → is_open g.state ≡ false
    → begin_task (gated repeating_timer epoch) thread g ≡ (false, g)
unfolding begin_task settle may_run
repeating_skips epoch thread g h = if-else_holds (λ r. r ≡ (false, g)) (is_open g.state) _ _ h refl

skipped :
    (own : ℕ) (nesting : List ℕ) (k : GatedTask) (rest : List GatedTask) (s : Gated)
    {r : Bool × TeardownGate}
    → r ≡ (false, s.gate)
    → posts_in (put_back k rest) ≡ 0
    → Quiet own nesting s
    → Quiet own nesting (begun k rest r).0 × ((begun k rest r).1 ≡ [])
skipped own nesting k rest s e none' (d, p, n, a) =
    subst (λ r. Quiet own nesting (begun k rest r).0 × ((begun k rest r).1 ≡ [])) (sym e)
      ((d, none', n, a), refl)

begun-Quiet :
    (own : ℕ) (nesting : List ℕ) (k : GatedTask) (rest : List GatedTask) (thread : ℕ) (s : Gated)
    → posts_in s.held ≡ one_if_posted k + posts_in rest
    → Quiet own nesting s
    → let r = begun k rest (begin_task k thread s.gate) in Quiet own nesting r.0 × (r.1 ≡ [])
begun-Quiet own nesting (gated posted epoch) rest thread s e h = absurd (omega (arith, h.1))
begun-Quiet own nesting (gated one_shot_timer epoch) rest thread s e h =
    skipped own nesting (gated one_shot_timer epoch) rest s
      (one_shot_skips epoch thread s.gate (ap is_open h.0)) (omega (arith, h.1)) h
begun-Quiet own nesting (gated repeating_timer epoch) rest thread s e h =
    skipped own nesting (gated repeating_timer epoch) rest s
      (repeating_skips epoch thread s.gate (ap is_open h.0)) (omega (arith, h.1)) h

begin_at-Quiet :
    (own : ℕ) (nesting : List ℕ) (o : Option (GatedTask × List GatedTask)) (thread : ℕ) (s : Gated)
    → Splits s.held o
    → Quiet own nesting s
    → Quiet own nesting (begin_at o thread s).0 × ((begin_at o thread s).1 ≡ [])
begin_at-Quiet own nesting none thread s e h = (h, refl)
begin_at-Quiet own nesting (some (k, rest)) thread s e h =
    begun-Quiet own nesting k rest thread s e h

drop_at-Quiet :
    (own : ℕ) (nesting : List ℕ) (o : Option (GatedTask × List GatedTask)) (s : Gated)
    → Splits s.held o
    → Quiet own nesting s
    → Quiet own nesting (drop_at o s)
unfolding settle
drop_at-Quiet own nesting none s e h = h
drop_at-Quiet own nesting (some (gated posted epoch, rest)) s e h = absurd (omega (arith, h.1))
drop_at-Quiet own nesting (some (gated one_shot_timer epoch, rest)) s e (d, p, n, a) =
    (d, omega (arith, p, e), n, a)
drop_at-Quiet own nesting (some (gated repeating_timer epoch, rest)) s e (d, p, n, a) =
    (d, omega (arith, p, e), n, a)

-- Another thread is in no gated task.
outside :
    (own thread : ℕ) (nesting : List ℕ) (s : Gated)
    → (thread == own) ≡ false
    → Quiet own nesting s
    → gated_depth thread s.gate ≡ 0
unfolding gated_depth
outside own thread nesting s other (d, p, n, a) =
    ap (count thread) n ∙ count_other own thread nesting a other

step-Quiet :
    (own : ℕ) (nesting : List ℕ) (e : Event) (s : Gated)
    → by_other own e ≡ true
    → Quiet own nesting s
    → Quiet own nesting (step e s).0 × ((step e s).1 ≡ [])
unfolding step gate_task begin_quiesce
step-Quiet own nesting (posts posted thread) s b h =
    let depth' = outside own thread nesting s (ground arith) h in
    let refused = ap₂ (λ st (n : ℕ). is_closed st || (is_draining st && n == 0)) h.0 depth' in
    (
      if-then_holds (λ o. Quiet own nesting (accept o s))
          (is_closed s.gate.state || (is_draining s.gate.state && gated_depth thread s.gate == 0))
          none (some (gated posted s.gate.epoch, record s.gate { pending = s.gate.pending + 1 }))
          refused h,
      refl,
    )
step-Quiet own nesting (posts one_shot_timer thread) s b (d, p, n, a) =
    ((d, omega (arith, p), n, a), refl)
step-Quiet own nesting (posts repeating_timer thread) s b (d, p, n, a) =
    ((d, omega (arith, p), n, a), refl)
step-Quiet own nesting (begins i thread) s b h =
    begin_at-Quiet own nesting (take_at i s.held) thread s (take_at-Splits i s.held) h
step-Quiet own nesting (ends thread) s b h =
    let depth' = outside own thread nesting s (ground arith) h in
    (
      if-then_holds (Quiet own nesting) (gated_depth thread s.gate == 0) s
          (record s { gate = leave_task thread s.gate }) (ap (λ (n : ℕ). n == 0) depth') h,
      refl,
    )
step-Quiet own nesting (drops i) s b h =
    (drop_at-Quiet own nesting (take_at i s.held) s (take_at-Splits i s.held) h, refl)
step-Quiet own nesting quiesces s b h = (
  if-else_holds (λ o. Quiet own nesting (quiesced o s)) (is_open s.gate.state)
      (some (record s.gate { state = draining })) none (ap is_open h.0) h,
  refl,
)
step-Quiet own nesting closes s b h = absurd (ground arith)
step-Quiet own nesting reopens s b h = absurd (ground arith)

run-Quiet :
    (own : ℕ) (nesting : List ℕ) (es : List Event) (s : Gated)
    → All (λ e. by_other own e ≡ true) es
    → Quiet own nesting s
    → Quiet own nesting (run es s).0 × ((run es s).1 ≡ [])
unfolding run
run-Quiet own nesting [] s b h = (h, refl)
run-Quiet own nesting (e ∷ es) s b h =
    let (quiet, none') = step-Quiet own nesting e s b.0 h in
    let (quiet', none'') = run-Quiet own nesting es (step e s).0 b.1 quiet in
    (quiet', rw (none', none'') refl)

count-le : (t : ℕ) (us : List ℕ) → count t us ≤ length us
count-le t [] = omega arith
count-le t (u ∷ us) = ground (arith, count-le t us)

count_all : (own : ℕ) (us : List ℕ) → All (λ u. u ≡ own) us → count own us ≡ length us
count_all own [] h = refl
count_all own (u ∷ us) h = ground (arith, h.0, count_all own us h.1)

all_own : (own : ℕ) (us : List ℕ) → leb (length us) (count own us) ≡ true → All (λ u. u ≡ own) us
all_own own [] h = tt
all_own own (u ∷ us) h = elim (Bool-cases (own == u)) [
  | inl same ↦ (ground arith, all_own own us (ground arith))
  | inr other ↦ absurd (ground (arith, count-le own us))
]

-- What the loop of QuiesceForTeardown saw when it ended.
drained-Quiet :
    (own : ℕ) (s : Gated)
    → IsCounted s
    → s.gate.state ≡ draining
    → is_drained own s.gate ≡ true
    → Quiet own s.gate.nesting s
unfolding is_drained gated_depth
drained-Quiet own s (waiting, executing) d h =
    let none' : s.gate.pending ≡ 0 = ground arith in
    let own' : leb (length s.gate.nesting) (count own s.gate.nesting) ≡ true =
      ground (arith, executing) in
    (d, omega (arith, waiting, none'), refl, all_own own s.gate.nesting own')

Quiet-drained :
    (own : ℕ) (nesting : List ℕ) (s : Gated)
    → IsCounted s
    → Quiet own nesting s
    → is_drained own s.gate ≡ true
unfolding is_drained gated_depth
Quiet-drained own nesting s (waiting, executing) (d, p, n, a) =
    let own' : count own s.gate.nesting ≡ length s.gate.nesting =
      count_all own s.gate.nesting (subst (All (λ u. u ≡ own)) (sym n) a) in
    ground (arith, waiting, executing, p, own')

run-append :
    (xs ys : List Event) (s : Gated)
    → (run (xs ++ ys) s).1 ≡ (run xs s).1 ++ (run ys (run xs s).0).1
unfolding run
run-append [] ys s = refl
run-append (x ∷ xs) ys s =
    ap (λ more. (step x s).1 ++ more) (run-append xs ys (step x s).0)
    ∙ sym (append_assoc (step x s).1 _ _)

run_closing :
    (es : List Event) (s : Gated) → All (λ e. is_reopen e ≡ false) es → (run (closes ∷ es) s).1 ≡ []
unfolding run step close_gate
run_closing es s h = (run_closed es (record s { gate = close_gate s.gate }) h refl).1

-- Once QuiesceForTeardown found the gate drained on its thread, whatever the other threads and the
-- timers do before it closes the gate leaves it drained, and from the closing on no gated task is
-- called until ReopenAfterTeardown.
pub run-drained :
    (own : ℕ) (es more : List Event) (s : Gated)
    → IsCounted s
    → s.gate.state ≡ draining
    → is_drained own s.gate ≡ true
    → All (λ e. by_other own e ≡ true) es
    → All (λ e. is_reopen e ≡ false) more
    → (is_drained own (run es s).0.gate ≡ true) × ((run (es ++ closes ∷ more) s).1 ≡ [])
run-drained own es more s c d h others open' =
    let quiet = run-Quiet own s.gate.nesting es s others (drained-Quiet own s c d h) in
    let closing = run_closing more (run es s).0 open' in
    (
      Quiet-drained own s.gate.nesting (run es s).0 (run-IsCounted es s c) quiet.0,
      run-append es (closes ∷ more) s ∙ ap₂ ◌++◌ quiet.1 closing,
    )
