-- ===== src/Lifetime/Ended.antt =====
-- What no longer runs once InvalidateAndWait of include/common/Lifetime.h has returned.
use pp_cpp_common.Common.{
  All, All-map, Bool, List, [], arith, false, if◌then◌else◌, leb, ltb, not, refl, subst, suc, sym,
  true, ℕ, ◌&&◌, ◌++◌, ◌+◌, ◌<◌, ◌^◌, ◌↔◌, ◌∷◌, ◌≡◌, ◌≤◌,
}
use pp_cpp_common.Lifetime.{
  Call, Lifetime, Phase, Reach, Step, alive, bind, binds, count_calls, enter, enters, finish,
  finishes, here, inside_on_this_thread, invalidate, invalidates, is_over, leave, leaves, load,
  loads, new_lifetime, next, running,
}
use pp_cpp_common.Lifetime.Waiting.{
  All-replace, All-take_out, Anyone, IsCounted, Other, Reach-IsCounted, Reach-count_calls,
  Step-IsCounted, all_counted, all_mine, new_lifetime-IsCounted,
}

-- A call of something bound by generation `g` is in progress on `own` only.
abbrev pub IsEnded : ℕ → ℕ → Call → Type 0
IsEnded own g c = c.phase ≡ running → c.snapshot ≤ g → c.thread ≡ own

Step-generation :
    {thread : ℕ} {s t : Lifetime} (g : ℕ) → g < s.generation → Step thread s t → g < t.generation
unfolding bind invalidate enter leave
Step-generation g h (binds s) = h
Step-generation g h (invalidates s lt) = omega (arith, lt, h)
Step-generation g h (enters s before after snapshot e lt) = h
Step-generation g h (loads s before after c e t p z) = h
Step-generation g h (finishes s before after c e t p z) = h
Step-generation g h (leaves s before after c e t p z) = h

-- A call that goes in was bound in the generation that lasts.
load-IsEnded : (own g : ℕ) (c : Call) (s : Lifetime) → g < s.generation → IsEnded own g (load c s)
unfolding load alive
load-IsEnded own g c s h p le = ground arith

Step-IsEnded :
    {thread : ℕ} {s t : Lifetime} (own g : ℕ)
    → g < s.generation
    → Step thread s t
    → All (IsEnded own g) s.calls
    → All (IsEnded own g) t.calls
unfolding bind invalidate enter finish leave
Step-IsEnded own g h (binds s) a = a
Step-IsEnded own g h (invalidates s lt) a = a
Step-IsEnded own g h (enters s before after snapshot e lt) a = ((λ p le. ground arith), a)
Step-IsEnded own g h (loads s before after c e t p z) a =
    All-replace (IsEnded own g) before after c (load c s) (λ _. load-IsEnded own g c s h)
      (subst (All (IsEnded own g)) e a)
Step-IsEnded own g h (finishes s before after c e t p z) a =
    All-replace (IsEnded own g) before after c (finish c) (λ _ q le. ground arith)
      (subst (All (IsEnded own g)) e a)
Step-IsEnded own g h (leaves s before after c e t p z) a =
    All-take_out (IsEnded own g) before after c (subst (All (IsEnded own g)) e a)

Reach-generation :
    {P : ℕ → Type 0} {s t : Lifetime} (g : ℕ) → g < s.generation → Reach P s t → g < t.generation
Reach-generation g h here = h
Reach-generation g h (next thread r p st) = Step-generation g (Reach-generation g h r) st

Reach-IsEnded :
    {P : ℕ → Type 0} {s t : Lifetime} (own g : ℕ)
    → g < s.generation
    → All (IsEnded own g) s.calls
    → Reach P s t
    → All (IsEnded own g) t.calls
Reach-IsEnded own g h a here = a
Reach-IsEnded own g h a (next thread r p st) =
    Step-IsEnded own g (Reach-generation g h r) st (Reach-IsEnded own g h a r)

waiting-IsCounted :
    (own : ℕ) {s t : Lifetime}
    → Reach Anyone new_lifetime s
    → s.generation + 1 < 2 ^ 64
    → Reach (Other own) (invalidate s) t
    → IsCounted t
waiting-IsCounted own {s} r lt pause =
    Reach-IsCounted pause
      (Step-IsCounted {thread = own} (invalidates s lt) (Reach-IsCounted r new_lifetime-IsCounted))

not_behind : (mine now : ℕ) → (not (ltb mine now) ≡ true) ↔ (now ≤ mine)
not_behind mine now = ground arith

pub is_over_iff :
    (own : ℕ) {s t : Lifetime}
    → Reach Anyone new_lifetime s
    → s.generation + 1 < 2 ^ 64
    → Reach (Other own) (invalidate s) t
    → (is_over (inside_on_this_thread own (invalidate s)) t ≡ true)
      ↔ All (λ (c : Call). c.thread ≡ own) t.calls
unfolding is_over inside_on_this_thread
is_over_iff own {s} {t} r lt pause =
    let counted' = (waiting-IsCounted own r lt pause).0 in
    let mine = Reach-count_calls own pause in
    let test = not_behind (count_calls own (invalidate s).calls) t.inside in
    (
      (λ o. all_mine own t.calls (omega (arith, test.0 o, counted', mine))),
      (λ h. test.1 (omega (arith, all_counted own t.calls h, counted', mine))),
    )

abbrev pub is_running : Phase → Bool
is_running running = true
is_running _ = false

-- The calls of what was bound by generation `g` that are inside it.
abbrev pub count_stale : ℕ → List Call → ℕ
count_stale g [] = 0
count_stale g (c ∷ cs) =
    if is_running c.phase && leb c.snapshot g then suc (count_stale g cs) else count_stale g cs

count_stale-replace :
    (g : ℕ) (xs ys : List Call) (c d : Call)
    → (is_running d.phase && leb d.snapshot g) ≡ false
    → count_stale g (xs ++ d ∷ ys) ≤ count_stale g (xs ++ c ∷ ys)
count_stale-replace g [] ys c d h = ground arith
count_stale-replace g (x ∷ xs) ys c d h = ground (arith, count_stale-replace g xs ys c d h)

count_stale-take_out :
    (g : ℕ) (xs ys : List Call) (c : Call) → count_stale g (xs ++ ys) ≤ count_stale g (xs ++ c ∷ ys)
count_stale-take_out g [] ys c = ground arith
count_stale-take_out g (x ∷ xs) ys c = ground (arith, count_stale-take_out g xs ys c)

-- A call that loads the generation and was bound before goes back.
load_stale :
    (g : ℕ) (c : Call) (s : Lifetime)
    → g < s.generation
    → (is_running (load c s).phase && leb c.snapshot g) ≡ false
unfolding load alive
load_stale g c s h = ground arith

Step-count_stale :
    {thread : ℕ} {s t : Lifetime} (g : ℕ)
    → g < s.generation
    → Step thread s t
    → count_stale g t.calls ≤ count_stale g s.calls
unfolding bind invalidate enter load finish leave
Step-count_stale g h (binds s) = omega arith
Step-count_stale g h (invalidates s lt) = omega arith
Step-count_stale g h (enters s before after snapshot e lt) = omega arith
Step-count_stale g h (loads s before after c e t p z) =
    subst (λ cs. count_stale g (before ++ load c s ∷ after) ≤ count_stale g cs) (sym e)
      (count_stale-replace g before after c (load c s) (load_stale g c s h))
Step-count_stale g h (finishes s before after c e t p z) =
    subst (λ cs. count_stale g (before ++ finish c ∷ after) ≤ count_stale g cs) (sym e)
      (count_stale-replace g before after c (finish c) refl)
Step-count_stale g h (leaves s before after c e t p z) =
    subst (λ cs. count_stale g (before ++ after) ≤ count_stale g cs) (sym e)
      (count_stale-take_out g before after c)

Reach-count_stale :
    {P : ℕ → Type 0} {s t : Lifetime} (g : ℕ)
    → g < s.generation
    → Reach P s t
    → count_stale g t.calls ≤ count_stale g s.calls
Reach-count_stale g h here = omega arith
Reach-count_stale g h (next thread r p st) =
    omega (arith, Reach-count_stale g h r, Step-count_stale g (Reach-generation g h r) st)

-- From a new Lifetime, whatever the threads do: once InvalidateAndWait of a thread has returned, no
-- call of something bound before it is inside what was bound, but for calls on that thread, and
-- from any later moment to any further one the number of such calls does not grow, so that none
-- goes in on any thread.
pub Reach-invalidate_and_wait :
    (own : ℕ) {s t u v : Lifetime}
    → Reach Anyone new_lifetime s
    → s.generation + 1 < 2 ^ 64
    → Reach (Other own) (invalidate s) t
    → is_over (inside_on_this_thread own (invalidate s)) t ≡ true
    → Reach Anyone t u
    → Reach Anyone u v
    → All (IsEnded own s.generation) u.calls
      × (count_stale s.generation v.calls ≤ count_stale s.generation u.calls)
unfolding invalidate
Reach-invalidate_and_wait own {s} {t} r lt pause o after further =
    let mine = (is_over_iff own r lt pause).0 o in
    let now_ended =
      All-map (λ (c : Call). c.thread ≡ own) (IsEnded own s.generation) t.calls (λ c m _ _. m)
        mine in
    let passed = Reach-generation s.generation (omega (arith, lt)) pause in
    (
      Reach-IsEnded own s.generation passed now_ended after,
      Reach-count_stale s.generation (Reach-generation s.generation passed after) further,
    )
