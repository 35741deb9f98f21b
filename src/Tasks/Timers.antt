-- ===== src/Tasks/Timers.antt =====
-- The timers of ManualExecutor and ThreadExecutor: a std::set of (deadline, id) pairs and a map from
-- the ids of live timers to their tasks. A pair whose id left the map was cancelled. Deadlines are
-- read as numbers that do not overflow; ids wrap at 2 ^ 64 as uint64_t does.
pub mod Order
use pp_cpp_common.Common.{
  Bool, List, Option, [], if◌then◌else◌, ltb, none, some, ℕ, ◌%◌, ◌&&◌, ◌+◌, ◌==◌, ◌^◌, ◌||◌, ◌∷◌,
}
use pp_cpp_common.Common.Int.{negsuc, pos, ℤ}

-- `<` of the pairs.
unfoldable pub due_lt : ℕ × ℕ → ℕ × ℕ → Bool
due_lt (d, i) (e, j) = ltb d e || (d == e && ltb i j)

unfoldable pub insert_deadline : ℕ × ℕ → List (ℕ × ℕ) → List (ℕ × ℕ)
insert_deadline x [] = x ∷ []
insert_deadline x (y ∷ ys) =
    if due_lt x y then x ∷ y ∷ ys else if due_lt y x then y ∷ insert_deadline x ys else y ∷ ys

-- `std::max<int64_t>(delay.count(), 0)`.
unfoldable pub delay_count : ℤ → ℕ
delay_count (pos n) = n
delay_count (negsuc n) = 0

module _ {ℓ} {T : Type ℓ} where
  unfoldable pub find_timer : ℕ → List (ℕ × T) → Option T
  find_timer id [] = none
  find_timer id ((j, t) ∷ ts) = if j == id then some t else find_timer id ts

  unfoldable pub erase_timer : ℕ → List (ℕ × T) → List (ℕ × T)
  erase_timer id [] = []
  erase_timer id ((j, t) ∷ ts) = if j == id then erase_timer id ts else (j, t) ∷ erase_timer id ts

  -- `emplace`: an id that is there keeps its task.
  unfoldable pub emplace_timer : ℕ → T → List (ℕ × T) → List (ℕ × T)
  emplace_timer id t ts = elim (find_timer id ts) [ none ↦ (id, t) ∷ ts | some u ↦ ts ]

  -- The `while` loop that drops the cancelled pairs at the front.
  unfoldable pub drop_cancelled : List (ℕ × T) → List (ℕ × ℕ) → List (ℕ × ℕ)
  drop_cancelled ts [] = []
  drop_cancelled ts ((d, id) ∷ ds) = elim (find_timer id ts) [
    | none ↦ drop_cancelled ts ds
    | some t ↦ (d, id) ∷ ds
  ]

pub record Timers {ℓ} (T : Type ℓ) : Type ℓ where
  pub deadlines : List (ℕ × ℕ)
  pub timers : List (ℕ × T)
  pub next_timer : ℕ

module _ {ℓ} {T : Type ℓ} where
  unfoldable pub no_timers : Timers T
  no_timers = record { deadlines = []; timers = []; next_timer = 1 }

  -- The body of `PostAfter`: the new id and the timers with it.
  unfoldable pub arm : ℕ → T → Timers T → ℕ × Timers T
  unfolding emplace_timer
  arm deadline t s = (
    s.next_timer,
    record {
      deadlines = insert_deadline (deadline, s.next_timer) s.deadlines;
      timers = emplace_timer s.next_timer t s.timers;
      next_timer = (s.next_timer + 1) % 2 ^ 64;
    },
  )

  -- `CancelTimer`.
  unfoldable pub cancel_timer : ℕ → Timers T → Timers T
  cancel_timer id s = record s { timers = erase_timer id s.timers }
