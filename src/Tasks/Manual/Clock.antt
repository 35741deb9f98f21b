-- ===== src/Tasks/Manual/Clock.antt =====
-- The clock of ManualExecutor and the deadlines of its timers.
use mathlib.Core.Path.{subst₂}
use pp_cpp_common.Common.{
  All-map, Bool, Bool-cases, List, Option, Option-cases, [], ap, arith, inl, inr, ltb, max, none,
  refl, some, subst, suc, sym, true, zero, ℕ, ◌+◌, ◌∙◌, ◌∷◌, ◌≡◌, ◌≢◌, ◌≤◌,
}
use pp_cpp_common.Common.Int.{ℤ}
use pp_cpp_common.Tasks.Manual.{
  Call, Firing, ManualExecutor, advance_by, advance_loop, apply, apply_all, cancels, due_timer,
  new_executor, pop_task, posts, posts_after, run_one, run_pending, run_timer, take_due,
}
use pp_cpp_common.Tasks.Timers.{delay_count, find_timer, no_timers}
use pp_cpp_common.Tasks.Timers.Order.{
  AreFrom-later, IsTimed, arm-IsTimed, armed_behind, cancel_timer-IsTimed, drop_cancelled-IsTimed,
  drop_cancelled-live,
}
use pp_cpp_common.Wire.Reader.{none_ne}

module _ {ℓ} {T : Type ℓ} where
  abbrev pub IsClocked : ManualExecutor T → Type ℓ
  IsClocked m = IsTimed m.now_ms m.timers

  pub new_executor-IsClocked : IsClocked (new_executor {T = T})
  unfolding new_executor no_timers find_timer
  new_executor-IsClocked = record {
    ordered = tt;
    from_now = tt;
    armed = λ id t e. absurd (none_ne e);
  }

  -- Every call on ManualExecutor keeps its clock and the state of its timers.
  pub apply-IsClocked :
      (c : Call T) (m : ManualExecutor T)
      → IsClocked m
      → IsClocked (apply c m) × ((apply c m).now_ms ≡ m.now_ms)
  unfolding apply
  apply-IsClocked (posts none) m h = (h, refl)
  apply-IsClocked (posts (some t)) m h = (h, refl)
  apply-IsClocked (posts_after delay none) m h = (h, refl)
  apply-IsClocked (posts_after delay (some t)) m h =
      (arm-IsTimed m.now_ms (m.now_ms + delay_count delay) t m.timers (omega arith) h, refl)
  apply-IsClocked (cancels id) m h = (cancel_timer-IsTimed m.now_ms id m.timers h, refl)

  apply_all-IsClocked :
      (cs : List (Call T)) (m : ManualExecutor T)
      → IsClocked m
      → IsClocked (apply_all cs m) × ((apply_all cs m).now_ms ≡ m.now_ms)
  unfolding apply_all
  apply_all-IsClocked [] m h = (h, refl)
  apply_all-IsClocked (c ∷ cs) m h =
      let (first, now) = apply-IsClocked c m h in
      let (others, now') = apply_all-IsClocked cs (apply c m) first in (others, now' ∙ now)

  pop_task-clock :
      (m rest : ManualExecutor T) (t : T)
      → pop_task m ≡ some (t, rest)
      → (rest.timers ≡ m.timers) × (rest.now_ms ≡ m.now_ms)
  unfolding pop_task
  pop_task-clock m rest t h = (ground arith, ground arith)

  -- What `due_timer` finds: nothing left by `end`, or the first live timer, at its deadline.
  abbrev DueTimer : ℕ → ManualExecutor T → Option (ℕ × Option T) → ManualExecutor T → Type ℓ
  DueTimer end m none m' = IsClocked m' × (m'.now_ms ≡ end)
  DueTimer end m (some (d, t)) m' =
      IsClocked m' × (m'.now_ms ≡ d) × (m.now_ms ≤ d) × (d ≤ end) × (t ≢ none)

  take_due_lem :
      (end : ℕ) (m : ManualExecutor T) (ds : List (ℕ × ℕ))
      → m.now_ms ≤ end
      → ((d i : ℕ) (rest : List (ℕ × ℕ))
          → ds ≡ (d, i) ∷ rest
          → (t : T) × (find_timer i m.timers.timers ≡ some t))
      → IsTimed m.now_ms (record (m.timers) { deadlines = ds })
      → DueTimer end m (take_due end m ds).0 (take_due end m ds).1
  take_due_lem end m [] le live h = (record { ordered = tt; from_now = tt; armed = h.armed }, refl)
  take_due_lem end m ((d, i) ∷ rest) le live h = elim (Bool-cases (ltb end d)) [
    | inl later ↦
        let due : end ≤ d = ground arith in
        let behind =
          All-map (λ (x : ℕ × ℕ). d ≤ x.0) (λ x. end ≤ x.0) rest (λ x p. omega arith)
            (AreFrom-later (d, i) rest h.ordered.0) in
        rw (later, take_due)
          (record { ordered = h.ordered; from_now = (due, behind); armed = h.armed }, refl)
    | inr due ↦
        let (t, found) = live d i rest refl in
        let now : max m.now_ms d ≡ d = omega (arith, h.from_now.0) in
        rw (due, take_due)
          (rw now (
            record {
              ordered = h.ordered.1;
              from_now = AreFrom-later (d, i) rest h.ordered.0;
              armed = armed_behind d i rest m.timers.timers h.armed;
            },
            refl,
            h.from_now.0,
            ground arith,
            λ e. cc (e, found),
          ))
  ]

  pub due_timer_lem :
      (end : ℕ) (m : ManualExecutor T)
      → m.now_ms ≤ end
      → IsClocked m
      → DueTimer end m (due_timer end m).0 (due_timer end m).1
  unfolding due_timer
  due_timer_lem end m le h =
      take_due_lem end m _ le (drop_cancelled-live m.timers.timers m.timers.deadlines)
        (drop_cancelled-IsTimed m.now_ms m.timers h)

-- The timers that fired, from a time on: deadlines never fall, and `Now()` is the deadline.
abbrev pub Times : ℕ → ℕ → List Firing → Type 0
Times now end [] = now ≤ end
Times now end ((deadline, at) ∷ fired) =
    (at ≡ deadline) × (now ≤ deadline) × Times deadline end fired

module _ {ℓ} {T : Type ℓ} (calls : T → List (Call T)) where
  run_one-IsClocked :
      (t : T) (m : ManualExecutor T)
      → IsClocked m
      → IsClocked (run_one calls t m) × ((run_one calls t m).now_ms ≡ m.now_ms)
  unfolding run_one
  run_one-IsClocked t m h = apply_all-IsClocked (calls t) (record m { running = true }) h

  run_pending-IsClocked :
      (fuel : ℕ) (m : ManualExecutor T)
      → IsClocked m
      → IsClocked (run_pending calls fuel m).0 × ((run_pending calls fuel m).0.now_ms ≡ m.now_ms)
  unfolding run_pending
  run_pending-IsClocked zero m h = (h, refl)
  run_pending-IsClocked (suc fuel) m h = elim (Option-cases (pop_task m)) [
    | inl e ↦ rw (e, run_pending) (h, refl)
    | inr ((t, rest), e) ↦
        let (same, now) = pop_task-clock m rest t e in
        let h' : IsClocked rest = subst₂ (λ n s. IsTimed n s) (sym now) (sym same) h in
        let (one, now') = run_one-IsClocked t rest h' in
        let (others, now'') = run_pending-IsClocked fuel (run_one calls t rest) one in
        rw (e, run_pending) (others, now'' ∙ now' ∙ now)
  ]

  run_timer-IsClocked :
      (t : Option T) (m : ManualExecutor T)
      → IsClocked m
      → IsClocked (run_timer calls t m) × ((run_timer calls t m).now_ms ≡ m.now_ms)
  run_timer-IsClocked none m h = (h, refl)
  run_timer-IsClocked (some t) m h = run_one-IsClocked t m h

  -- What a run of the loop from `m` to `end` comes to.
  abbrev Advances : ℕ → ManualExecutor T → ManualExecutor T × ℕ × List Firing × Bool → Type ℓ
  Advances end m (m', ran, fired, done) =
      IsClocked m' × Times m.now_ms end fired × (m'.now_ms ≤ end) × (done ≡ true → m'.now_ms ≡ end)

  advance_loop-Advances :
      (fuel end : ℕ) (m : ManualExecutor T)
      → m.now_ms ≤ end
      → IsClocked m
      → Advances end m (advance_loop calls fuel end m)
  unfolding advance_loop
  advance_loop-Advances zero end m le h = (h, le, le, λ e. cc)
  advance_loop-Advances (suc fuel) end m le h = elim (Option-cases (due_timer end m).0) [
    | inl e ↦
        let (clocked, now) = rw (e, DueTimer) at (due_timer_lem end m le h) in
        rw (e, advance_loop) (clocked, le, omega arith, λ _. now)
    | inr ((d, t), e) ↦
        let m₁ = (due_timer end m).1 in
        let (clocked, now, later, due, live) = rw (e, DueTimer) at (due_timer_lem end m le h) in
        let (one, now₁) = run_timer-IsClocked t m₁ clocked in
        let m₂ = run_timer calls t m₁ in
        let (drained, now₂) = run_pending-IsClocked fuel m₂ one in
        let m₃ = (run_pending calls fuel m₂).0 in
        let at_d : m₃.now_ms ≡ d = now₂ ∙ now₁ ∙ now in
        let (last, times, bound, done) =
          advance_loop-Advances fuel end m₃ (omega (arith, at_d)) drained in
        rw (e, advance_loop)
          (
            last,
            (now, later, subst (λ n. Times n end (advance_loop calls fuel end m₃).2) at_d times),
            bound,
            λ b. done (ground arith),
          )
  ]

  -- AdvanceBy fires timers in the order of their deadlines, each while Now is its deadline and none
  -- beyond the end, keeps the state of the timers, and leaves the clock at the end when its loops
  -- come to theirs.
  pub advance_by-Times :
      (fuel : ℕ) (by : ℤ) (m : ManualExecutor T)
      → IsClocked m
      → (let (m', ran, fired, done) = advance_by calls fuel by m in
          IsClocked m'
          × Times m.now_ms (m.now_ms + delay_count by) fired
          × (done ≡ true → m'.now_ms ≡ m.now_ms + delay_count by))
  unfolding advance_by
  advance_by-Times fuel by m h =
      let (first, now) = run_pending-IsClocked fuel m h in
      let m₁ = (run_pending calls fuel m).0 in
      let end = m₁.now_ms + delay_count by in
      let (loop, times, bound, done) = advance_loop-Advances fuel end m₁ (omega arith) first in
      let m₂ = (advance_loop calls fuel end m₁).0 in
      let (last, now') = run_pending-IsClocked fuel m₂ loop in
      (
        last,
        subst (λ n. Times n (n + delay_count by) (advance_loop calls fuel end m₁).2) now times,
        λ b. now' ∙ done (ground arith) ∙ ap (λ n. n + delay_count by) now,
      )
