-- ===== src/Tasks/Coordinator/Timing.antt =====
-- Which timers of CoordinatorThread fire, when its thread waits, and what wakes it.
use pp_cpp_common.Common.{
  All, Bool-cases, List, Option, [], ap, arith, false, if-holds, if◌then◌else◌, inl, inr, leb, ltb,
  none, not, refl, some, suc, sym, true, ℕ, ◌&&◌, ◌+◌, ◌||◌, ◌∙◌, ◌∷◌, ◌≡◌, ◌≤◌,
}
use pp_cpp_common.Tasks.Coordinator.{TimerEntry}
use pp_cpp_common.Tasks.Coordinator.Loop.{collect_due, collect_entry, fired_entry, sweep}
use pp_cpp_common.Wire.Reader.{none_ne}

module _ {ℓ} {T : Type ℓ} where
  -- An entry as the Schedule methods make it.
  abbrev pub IsArmed : TimerEntry T → Type ℓ
  IsArmed e = (e.repeat ≡ true → 1 ≤ e.interval) × (t : T) × (e.fn ≡ some t)

  -- A live entry fires after a time.
  abbrev pub FiresAfter : ℕ → TimerEntry T → Type 0
  FiresAfter now e = e.cancelled ≡ false → suc now ≤ e.next_fire

  fired_entry-FiresAfter :
      (now : ℕ) (e : TimerEntry T) → IsArmed e → FiresAfter now (fired_entry now e)
  fired_entry-FiresAfter now e h = elim (Bool-cases e.repeat) [
    | inl r ↦ λ live. ground (arith, h.0)
    | inr r ↦ λ live. ground arith
  ]

  collect_entry-FiresAfter :
      (now : ℕ) (e : TimerEntry T) (fn : Option T) (rest : List T × List (TimerEntry T))
      → IsArmed e
      → e.fn ≡ fn
      → All (FiresAfter now) rest.1
      → All (FiresAfter now) (collect_entry now e fn rest).1
  collect_entry-FiresAfter now e none rest h f k = absurd (none_ne (sym f ∙ h.2))
  collect_entry-FiresAfter now e (some t) (due, kept) h f k =
      elim (Bool-cases (e.cancelled || ltb now e.next_fire)) [
        | inl b ↦ rw b ((λ live. ground arith), k)
        | inr b ↦ rw b (fired_entry-FiresAfter now e h, k)
      ]

  collect_due-FiresAfter :
      (now : ℕ) (es : List (TimerEntry T))
      → All IsArmed es
      → All (FiresAfter now) (collect_due now es).1
  unfolding collect_due
  collect_due-FiresAfter now [] h = tt
  collect_due-FiresAfter now (e ∷ es) h =
      collect_entry-FiresAfter now e e.fn (collect_due now es) h.0 refl
        (collect_due-FiresAfter now es h.1)

  pub All-sweep {κ} :
      (P : TimerEntry T → Type κ) (es : List (TimerEntry T)) → All P es → All P (sweep es)
  unfolding sweep
  All-sweep P [] h = tt
  All-sweep P (e ∷ es) h =
      if-holds (All P) e.cancelled _ _ (All-sweep P es h.1) (h.0, All-sweep P es h.1)

  -- The live repeating timers: their ids, and when they fire next.
  abbrev pub repeating : List (TimerEntry T) → List (ℕ × ℕ)
  repeating [] = []
  repeating (e ∷ es) =
      if e.repeat && not e.cancelled then (e.id, e.next_fire) ∷ repeating es else repeating es

  -- The same once those due by `now` are armed again.
  abbrev pub rearmed : ℕ → List (TimerEntry T) → List (ℕ × ℕ)
  rearmed now [] = []
  rearmed now (e ∷ es) =
      if e.repeat && not e.cancelled
      then (e.id, (if leb e.next_fire now then now + e.interval else e.next_fire)) ∷ rearmed now es
      else rearmed now es

  repeating-fired_entry :
      (now : ℕ) (e : TimerEntry T) (es fs : List (TimerEntry T))
      → e.cancelled ≡ false
      → leb e.next_fire now ≡ true
      → repeating es ≡ rearmed now fs
      → repeating (fired_entry now e ∷ es) ≡ rearmed now (e ∷ fs)
  repeating-fired_entry now e es fs live due h = elim (Bool-cases e.repeat) [
    | inl r ↦ rw (r, live, due) (ap (λ ps. (e.id, now + e.interval) ∷ ps) h)
    | inr r ↦ rw r h
  ]

  repeating-kept :
      (now : ℕ) (e : TimerEntry T) (es fs : List (TimerEntry T))
      → (e.cancelled || ltb now e.next_fire) ≡ true
      → repeating es ≡ rearmed now fs
      → repeating (e ∷ es) ≡ rearmed now (e ∷ fs)
  repeating-kept now e es fs later h = elim (Bool-cases e.cancelled) [
    | inl c ↦ elim (Bool-cases e.repeat) [ inl r ↦ rw (r, c) h | inr r ↦ rw r h ]
    | inr c ↦
        let not_due : leb e.next_fire now ≡ false = ground arith in
        elim (Bool-cases e.repeat) [
          | inl r ↦ rw (r, c, not_due) (ap (λ ps. (e.id, e.next_fire) ∷ ps) h)
          | inr r ↦ rw r h
        ]
  ]

  repeating-collect_entry :
      (now : ℕ) (e : TimerEntry T) (fn : Option T) (rest : List T × List (TimerEntry T))
      (fs : List (TimerEntry T))
      → IsArmed e
      → e.fn ≡ fn
      → repeating rest.1 ≡ rearmed now fs
      → repeating (collect_entry now e fn rest).1 ≡ rearmed now (e ∷ fs)
  repeating-collect_entry now e none rest fs a f h = absurd (none_ne (sym f ∙ a.2))
  repeating-collect_entry now e (some t) (due, kept) fs a f h =
      elim (Bool-cases (e.cancelled || ltb now e.next_fire)) [
        | inl b ↦ rw b (repeating-kept now e kept fs b h)
        | inr b ↦ rw b (repeating-fired_entry now e kept fs (ground arith) (ground arith) h)
      ]

  repeating-collect_due :
      (now : ℕ) (es : List (TimerEntry T))
      → All IsArmed es
      → repeating (collect_due now es).1 ≡ rearmed now es
  unfolding collect_due
  repeating-collect_due now [] a = refl
  repeating-collect_due now (e ∷ es) a =
      repeating-collect_entry now e e.fn (collect_due now es) es a.0 refl
        (repeating-collect_due now es a.1)

  -- After the collecting loop of FireDueTimersLocked at a time every live timer fires later than
  -- that time, and the live repeating timers are those that were, where the ones that were due fire
  -- next at that time and their interval and the others when they did; every repeating timer has a
  -- positive interval and every timer a callback.
  pub collect_due-rearmed :
      (now : ℕ) (es : List (TimerEntry T))
      → All IsArmed es
      → All (FiresAfter now) (collect_due now es).1
        × (repeating (collect_due now es).1 ≡ rearmed now es)
  collect_due-rearmed now es h = (collect_due-FiresAfter now es h, repeating-collect_due now es h)
