-- ===== src/Lifetime/Waiting.antt =====
-- What InvalidateAndWait of include/common/Lifetime.h waits for.
use pp_cpp_common.Common.{
  All, All-map, All-middle, List, [], ap, arith, length, length-append, refl, subst, suc, sym, ℕ,
  ◌%◌, ◌++◌, ◌+◌, ◌<◌, ◌^◌, ◌∙◌, ◌∷◌, ◌≡◌, ◌≢◌, ◌≤◌,
}
use pp_cpp_common.Lifetime.{
  Call, Lifetime, Reach, Step, bind, binds, count_calls, enter, enters, finish, finishes, here,
  invalidate, invalidates, leave, leaves, load, loads, new_lifetime, next,
}

-- Every thread.
abbrev pub Anyone : ℕ → Type 0
Anyone thread = Unit

abbrev pub Other : ℕ → ℕ → Type 0
Other own thread = thread ≢ own

module _ {ℓ κ} {A : Type ℓ} (P : A → Type κ) where
  pub All-replace :
      (xs ys : List A) (x y : A) → (P x → P y) → All P (xs ++ x ∷ ys) → All P (xs ++ y ∷ ys)
  All-replace [] ys x y f h = (f h.0, h.1)
  All-replace (z ∷ xs) ys x y f h = (h.0, All-replace xs ys x y f h.1)

  pub All-take_out : (xs ys : List A) (x : A) → All P (xs ++ x ∷ ys) → All P (xs ++ ys)
  All-take_out [] ys x h = h.1
  All-take_out (z ∷ xs) ys x h = (h.0, All-take_out xs ys x h.1)

-- `inside` counts the calls, and no snapshot is ahead of the generation.
abbrev pub IsCounted : Lifetime → Type 0
IsCounted s =
    (s.inside ≡ length s.calls)
    × (length s.calls < 2 ^ 32)
    × All (λ n. n ≤ s.generation) s.bound
    × All (λ (c : Call). c.snapshot ≤ s.generation) s.calls

length-middle {ℓ} :
    {A : Type ℓ} (xs ys : List A) (x : A) → length (xs ++ x ∷ ys) ≡ suc (length (xs ++ ys))
length-middle xs ys x = omega (arith, length-append xs (x ∷ ys), length-append xs ys)

length-replace {ℓ} :
    {A : Type ℓ} (xs ys : List A) (x y : A) → length (xs ++ x ∷ ys) ≡ length (xs ++ y ∷ ys)
length-replace xs ys x y = length-middle xs ys x ∙ sym (length-middle xs ys y)

later : (g : ℕ) → g + 1 < 2 ^ 64 → (n : ℕ) → n ≤ g → n ≤ (g + 1) % 2 ^ 64
later g lt n h = omega arith

pub Step-IsCounted : {thread : ℕ} {s t : Lifetime} → Step thread s t → IsCounted s → IsCounted t
unfolding bind invalidate enter load finish leave
Step-IsCounted (binds s) (n, b, f, g) = (n, b, (omega arith, f), g)
Step-IsCounted (invalidates s lt) (n, b, f, g) =
    let up : (m : ℕ) → m ≤ s.generation → m ≤ (s.generation + 1) % 2 ^ 64 = later s.generation lt in
    (n, b, All-map _ _ s.bound up f, All-map _ _ s.calls (λ c. up c.snapshot) g)
Step-IsCounted (enters s before after snapshot e lt) (n, b, f, g) = (
  omega (arith, n, lt),
  omega (arith, lt),
  f,
  (All-middle _ before snapshot after (subst (All _) e f), g),
)
Step-IsCounted (loads s before after c e t p z) (n, b, f, g) =
    let same = ap length e ∙ length-replace before after c (load c s) in
    (
      n ∙ same,
      rw (sym same) b,
      f,
      All-replace _ before after c (load c s) (λ h. h) (subst (All _) e g),
    )
Step-IsCounted (finishes s before after c e t p z) (n, b, f, g) =
    let same = ap length e ∙ length-replace before after c (finish c) in
    (
      n ∙ same,
      rw (sym same) b,
      f,
      All-replace _ before after c (finish c) (λ h. h) (subst (All _) e g),
    )
Step-IsCounted (leaves s before after c e t p z) (n, b, f, g) =
    let less = ap length e ∙ length-middle before after c in
    (
      omega (arith, n, less, b),
      omega (arith, less, b),
      f,
      All-take_out _ before after c (subst (All _) e g),
    )

pub Reach-IsCounted : {P : ℕ → Type 0} {s t : Lifetime} → Reach P s t → IsCounted s → IsCounted t
Reach-IsCounted here h = h
Reach-IsCounted (next thread r p st) h = Step-IsCounted st (Reach-IsCounted r h)

pub new_lifetime-IsCounted : IsCounted new_lifetime
new_lifetime-IsCounted = (refl, omega arith, tt, tt)

count_calls-append :
    (own : ℕ) (xs ys : List Call)
    → count_calls own (xs ++ ys) ≡ count_calls own xs + count_calls own ys
count_calls-append own [] ys = omega arith
count_calls-append own (c ∷ xs) ys = ground (arith, count_calls-append own xs ys)

count_calls-middle :
    (own : ℕ) (xs ys : List Call) (c : Call)
    → c.thread ≢ own
    → count_calls own (xs ++ c ∷ ys) ≡ count_calls own (xs ++ ys)
count_calls-middle own [] ys c n = ground arith
count_calls-middle own (d ∷ xs) ys c n = ground (arith, count_calls-middle own xs ys c n)

-- Another thread neither enters nor leaves a call of `own`.
Step-count_calls :
    (own : ℕ) {thread : ℕ} {s t : Lifetime}
    → thread ≢ own
    → Step thread s t
    → count_calls own t.calls ≡ count_calls own s.calls
unfolding bind invalidate enter load finish leave
Step-count_calls own n (binds s) = refl
Step-count_calls own n (invalidates s lt) = refl
Step-count_calls own n (enters s before after snapshot e lt) = ground arith
Step-count_calls own n (loads s before after c e t p z) =
    let other : c.thread ≢ own = λ q. n (sym t ∙ q) in
    count_calls-middle own before after (load c s) other
    ∙ sym (count_calls-middle own before after c other)
    ∙ ap (count_calls own) (sym e)
Step-count_calls own n (finishes s before after c e t p z) =
    let other : c.thread ≢ own = λ q. n (sym t ∙ q) in
    count_calls-middle own before after (finish c) other
    ∙ sym (count_calls-middle own before after c other)
    ∙ ap (count_calls own) (sym e)
Step-count_calls own n (leaves s before after c e t p z) =
    let other : c.thread ≢ own = λ q. n (sym t ∙ q) in
    sym (count_calls-middle own before after c other) ∙ ap (count_calls own) (sym e)

pub Reach-count_calls :
    (own : ℕ) {s t : Lifetime}
    → Reach (Other own) s t
    → count_calls own t.calls ≡ count_calls own s.calls
Reach-count_calls own here = refl
Reach-count_calls own (next thread r n st) = Step-count_calls own n st ∙ Reach-count_calls own r

count_calls_le : (own : ℕ) (cs : List Call) → count_calls own cs ≤ length cs
count_calls_le own [] = omega arith
count_calls_le own (c ∷ cs) = ground (arith, count_calls_le own cs)

pub all_mine :
    (own : ℕ) (cs : List Call)
    → length cs ≤ count_calls own cs
    → All (λ (c : Call). c.thread ≡ own) cs
all_mine own [] h = tt
all_mine own (c ∷ cs) h =
    (ground (arith, count_calls_le own cs), all_mine own cs (ground (arith, count_calls_le own cs)))

pub all_counted :
    (own : ℕ) (cs : List Call)
    → All (λ (c : Call). c.thread ≡ own) cs
    → count_calls own cs ≡ length cs
all_counted own [] h = refl
all_counted own (c ∷ cs) h = ground (arith, h.0, all_counted own cs h.1)
