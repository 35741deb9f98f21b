-- ===== src/Tasks/Manual/Tests.antt =====
-- The theorems on ManualExecutor at a concrete executor.

-- Task 2 arms task 1 for 5 ms later.
use pp_cpp_common.Common.{List, [], some, suc, true, ℕ, ◌+◌, ◌∷◌, ◌≡◌}
use pp_cpp_common.Common.Int.{pos}
use pp_cpp_common.Tasks.Manual.{Call, ManualExecutor, advance_by, apply, new_executor, posts_after}
use pp_cpp_common.Tasks.Manual.Clock.{
  IsClocked, Times, advance_by-Times, apply-IsClocked, new_executor-IsClocked,
}
use pp_cpp_common.Tasks.Timers.{delay_count}

abbrev later : ℕ → List (Call ℕ)
later (suc (suc n)) = posts_after (pos 5) (some (suc n)) ∷ []
later _ = []

abbrev armed_executor : ManualExecutor ℕ
armed_executor = apply (posts_after (pos 3) (some 2)) new_executor

armed_executor-IsClocked : IsClocked armed_executor
armed_executor-IsClocked =
    (apply-IsClocked (posts_after (pos 3) (some 2)) new_executor new_executor-IsClocked).0

advance_by-Times_example :
    (let (m', ran, fired, done) = advance_by later 9 (pos 10) armed_executor in
      IsClocked m'
      × Times armed_executor.now_ms (armed_executor.now_ms + delay_count (pos 10)) fired
      × (done ≡ true → m'.now_ms ≡ armed_executor.now_ms + delay_count (pos 10)))
advance_by-Times_example = advance_by-Times later 9 (pos 10) armed_executor armed_executor-IsClocked
