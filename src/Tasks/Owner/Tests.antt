-- ===== src/Tasks/Owner/Tests.antt =====
-- The theorems on OwnerThread at a concrete owner.
use pp_cpp_common.Common.{List, [], false, none, refl, some, suc, true, ℕ, ◌+◌, ◌∷◌, ◌≡◌}
use pp_cpp_common.Tasks.Owner.{Event, OwnerThread, manual, posts, posts_front, run, takes}
use pp_cpp_common.Tasks.Owner.Runs.{accepted_all, weight, weight-run}

abbrev owner : OwnerThread ℕ
owner = record { mode = manual; tasks = 4 ∷ []; started = true; stopped = false; joinable = false }

abbrev events : List (Event ℕ)
events = posts (some 5) ∷ posts_front (some 6) ∷ takes ∷ posts none ∷ takes ∷ []

weight-run_example :
    weight suc (run events owner).1 + weight suc (run events owner).0.tasks
    ≡ weight suc owner.tasks + weight suc (accepted_all events owner)
weight-run_example = weight-run suc events owner (refl, (refl, (refl, (refl, (refl, tt)))))
