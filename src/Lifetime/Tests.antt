-- ===== src/Lifetime/Tests.antt =====
-- The theorems on Lifetime at a concrete run: thread 1 is inside a bound call when thread 0
-- invalidates and waits, and calls again afterwards.
use pp_cpp_common.Common.{All, List, [], arith, refl, true, ℕ, ◌↔◌, ◌∷◌, ◌≡◌, ◌≤◌}
use pp_cpp_common.Lifetime.{
  Call, Lifetime, Phase, Reach, alive, bind, binds, counted, enter, enters, finish, finishes, here,
  inside_on_this_thread, invalidate, is_over, leave, leaves, load, loads, new_lifetime, next,
  returned, running,
}
use pp_cpp_common.Lifetime.Ended.{IsEnded, Reach-invalidate_and_wait, count_stale, is_over_iff}
use pp_cpp_common.Lifetime.Waiting.{Anyone, Other}

abbrev in_call : Phase → Lifetime
in_call p = record {
  generation = 0;
  inside = 1;
  bound = 0 ∷ [];
  calls = record { thread = 1; snapshot = 0; phase = p } ∷ [];
}

in_call-Reach : Reach Anyone new_lifetime (in_call running)
unfolding bind enter load alive
in_call-Reach =
    let bound' : Reach Anyone new_lifetime (bind new_lifetime) = next 0 here tt (binds _) in
    let entering : Reach Anyone new_lifetime (in_call counted) =
      next 1 bound' tt (enters _ [] [] 0 refl (omega arith)) in
    next 1 entering tt (loads _ [] [] _ refl refl refl refl)

abbrev ended : List Call → ℕ → Lifetime
ended cs n = record { generation = 1; inside = n; bound = 0 ∷ []; calls = cs }

ended-Reach : Reach (Other 0) (invalidate (in_call running)) (ended [] 0)
unfolding invalidate finish leave
ended-Reach =
    let finished : Reach (Other 0) (invalidate (in_call running))
        (ended (record { thread = 1; snapshot = 0; phase = returned } ∷ []) 1) =
      next 1 here (omega arith) (finishes _ [] [] _ refl refl refl refl) in
    next 1 finished (omega arith) (leaves _ [] [] _ refl refl refl refl)

abbrev stale : List Call
stale = record { thread = 1; snapshot = 0; phase = returned } ∷ []

stale-Reach : Reach Anyone (ended [] 0) (ended stale 1)
unfolding enter load alive
stale-Reach =
    let entering : Reach Anyone (ended [] 0)
        (ended (record { thread = 1; snapshot = 0; phase = counted } ∷ []) 1) =
      next 1 here tt (enters _ [] [] 0 refl (omega arith)) in
    next 1 entering tt (loads _ [] [] _ refl refl refl refl)

is_over_iff_example :
    (is_over (inside_on_this_thread 0 (invalidate (in_call running))) (ended [] 0) ≡ true)
    ↔ All (λ (c : Call). c.thread ≡ 0) []
is_over_iff_example = is_over_iff 0 in_call-Reach (omega arith) ended-Reach

Reach-invalidate_and_wait_example : All (IsEnded 0 0) [] × (count_stale 0 stale ≤ count_stale 0 [])
Reach-invalidate_and_wait_example =
    Reach-invalidate_and_wait 0 in_call-Reach (omega arith) ended-Reach
      (unfold is_over inside_on_this_thread invalidate in refl) here stale-Reach
