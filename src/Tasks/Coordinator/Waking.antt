-- ===== src/Tasks/Coordinator/Waking.antt =====
-- What ends a wait of CoordinatorThread, and what a cancelled timer does.

-- A time is before a deadline, where there is one.
use pp_cpp_common.Common.{
  Bool, Bool-cases, List, Option, [], arith, false, if-else_holds, if◌then◌else◌, inl, inr,
  is_empty-snoc, min, none, refl, some, suc, true, ℕ, ◌++◌, ◌+◌, ◌==◌, ◌||◌, ◌∷◌, ◌≡◌, ◌≤◌,
}
use pp_cpp_common.Common.Int.{pos}
use pp_cpp_common.Tasks.Coordinator.{
  Coordinator, TimerEntry, begin_shutdown, cancel_entry, enqueue_locked, post, push_timer,
  schedule_one_shot, schedule_repeating,
}
use pp_cpp_common.Tasks.Coordinator.Loop.{
  collect_due, collect_entry, has_work_locked, next_deadline, wakes,
}
use pp_cpp_common.Tasks.Pool.{Lane, background, critical, normal}

abbrev pub IsBefore : ℕ → Option ℕ → Type 0
IsBefore now none = Unit {0}
IsBefore now (some d) = suc now ≤ d

IsBefore-le : (a b : ℕ) (deadline : Option ℕ) → a ≤ b → IsBefore b deadline → IsBefore a deadline
IsBefore-le a b none le h = tt
IsBefore-le a b (some d) le h = omega (arith, h)

module _ {ℓ} {T : Type ℓ} where
  next_deadline-append :
      (es : List (TimerEntry T)) (e : TimerEntry T)
      → e.cancelled ≡ false
      → (d : ℕ) × (next_deadline (es ++ e ∷ []) ≡ some d) × (d ≤ e.next_fire)
  unfolding next_deadline
  next_deadline-append [] e h = (e.next_fire, ground arith, omega arith)
  next_deadline-append (x ∷ es) e h =
      let (d, f, le) = next_deadline-append es e h in
      elim (Bool-cases x.cancelled) [
        | inl b ↦ (d, ground arith, le)
        | inr b ↦ (min x.next_fire d, ground arith, omega (arith, le))
      ]

  wakes_timer :
      (deadline : Option ℕ) (c : Coordinator T) (d : ℕ)
      → next_deadline c.timers ≡ some d
      → IsBefore d deadline
      → wakes deadline c ≡ true
  unfolding wakes
  wakes_timer none c d e h = ground arith
  wakes_timer (some b) c d e h = ground arith

  push_timer-wakes :
      (deadline : Option ℕ) (next interval : ℕ) (repeat : Bool) (t : T) (c : Coordinator T)
      → IsBefore next deadline
      → wakes deadline (push_timer next interval repeat t c).1 ≡ true
  push_timer-wakes deadline next interval repeat t c h =
      let (d, e, le) = next_deadline-append c.timers _ refl in
      wakes_timer deadline (push_timer next interval repeat t c).1 d e
        (IsBefore-le d next deadline le h)

  enqueue_locked-wakes :
      (deadline : Option ℕ) (priority : Lane) (t : T) (c : Coordinator T)
      → wakes deadline (enqueue_locked priority t c) ≡ true
  unfolding wakes has_work_locked enqueue_locked
  enqueue_locked-wakes deadline critical t c = ground (arith, is_empty-snoc c.critical_queue t)
  enqueue_locked-wakes deadline normal t c = ground (arith, is_empty-snoc c.normal_queue t)
  enqueue_locked-wakes deadline background t c = ground (arith, is_empty-snoc c.background_queue t)

  -- While CoordinatorThread is not stopped, a post, a timer that is armed for a time before the
  -- deadline waited for, and Shutdown of a started thread each make the predicate true that ends
  -- the wait.
  pub call-wakes :
      (deadline : Option ℕ) (c : Coordinator T) (t : T)
      → c.stopped ≡ false
      → ((priority : Lane) → wakes deadline (post priority (some t) c) ≡ true)
        × ((now n : ℕ)
            → IsBefore (now + n) deadline
            → wakes deadline (schedule_one_shot now (pos n) (some t) c).1 ≡ true)
        × ((now n : ℕ)
            → IsBefore (now + suc n) deadline
            → wakes deadline (schedule_repeating now (pos (suc n)) (some t) c).1 ≡ true)
        × (c.started ≡ true → wakes deadline (begin_shutdown c) ≡ true)
  unfolding post schedule_one_shot schedule_repeating begin_shutdown
  call-wakes deadline c t open' = (
    λ priority.
        if-else_holds (λ c'. wakes deadline c' ≡ true) c.stopped c _ open'
          (enqueue_locked-wakes deadline priority t c),
    λ now n h.
        if-else_holds (λ (p : ℕ × Coordinator T). wakes deadline p.1 ≡ true) c.stopped (0, c) _
          open' (push_timer-wakes deadline (now + n) n false t c h),
    λ now n h.
        if-else_holds (λ (p : ℕ × Coordinator T). wakes deadline p.1 ≡ true) c.stopped (0, c) _
          open' (push_timer-wakes deadline (now + suc n) (suc n) true t c h),
    λ s. unfold wakes in ground arith,
  )

  abbrev pub has_entry : ℕ → List (TimerEntry T) → Bool
  has_entry id [] = false
  has_entry id (e ∷ es) = e.id == id || has_entry id es

  -- No id stands twice.
  abbrev pub AreDistinct : List (TimerEntry T) → Type 0
  AreDistinct [] = Unit {0}
  AreDistinct (e ∷ es) = (has_entry e.id es ≡ false) × AreDistinct es

  -- The entries without those of an id.
  abbrev pub without : ℕ → List (TimerEntry T) → List (TimerEntry T)
  without id [] = []
  without id (e ∷ es) = if e.id == id then without id es else e ∷ without id es

  without_absent :
      (id : ℕ) (es : List (TimerEntry T)) → has_entry id es ≡ false → without id es ≡ es
  without_absent id [] h = refl
  without_absent id (e ∷ es) h = ground (arith, without_absent id es)

  collect_entry_due :
      (now : ℕ) (e : TimerEntry T) (fn : Option T) (r s : List T × List (TimerEntry T))
      → r.0 ≡ s.0
      → (collect_entry now e fn r).0 ≡ (collect_entry now e fn s).0
  collect_entry_due now e none r s h = h
  collect_entry_due now e (some t) r s h = ground arith

  collect_entry_cancelled :
      (now : ℕ) (e : TimerEntry T) (fn : Option T) (r : List T × List (TimerEntry T))
      → (collect_entry now (record e { cancelled = true }) fn r).0 ≡ r.0
  collect_entry_cancelled now e none r = refl
  collect_entry_cancelled now e (some t) r = refl

  -- After CancelTimer the collecting loop takes the callbacks that it would take if the timer were
  -- not there, when no id stands twice.
  pub collect_due-cancel_entry :
      (now id : ℕ) (es : List (TimerEntry T))
      → AreDistinct es
      → (collect_due now (cancel_entry id es)).0 ≡ (collect_due now (without id es)).0
  unfolding collect_due cancel_entry
  collect_due-cancel_entry now id [] h = refl
  collect_due-cancel_entry now id (e ∷ es) h = elim (Bool-cases (e.id == id)) [
    | inl b ↦
        let same : e.id ≡ id = ground arith in
        rw (b, without_absent id es (ground (arith, h.0)))
          (collect_entry_cancelled now e e.fn (collect_due now es))
    | inr b ↦ rw b (
        collect_entry_due now e e.fn (collect_due now (cancel_entry id es))
          (collect_due now (without id es)) (collect_due-cancel_entry now id es h.1))
  ]
