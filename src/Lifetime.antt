-- ===== src/Lifetime.antt =====
-- Lifetime of include/common/Lifetime.h: its atomic steps, made by any thread in any order.
pub mod Waiting
pub mod Ended
mod Tests
use pp_cpp_common.Common.{
  Bool, List, [], if◌then◌else◌, length, ltb, not, suc, ℕ, ◌%◌, ◌++◌, ◌+◌, ◌-◌, ◌<◌, ◌==◌, ◌^◌, ◌∷◌,
  ◌≡◌,
}

-- Where a bound call stands: counted, before it loads the generation; inside what was bound; or on
-- its way out.
pub data Phase : Type 0 where
  counted running returned : Phase

pub record Call : Type 0 where
  pub thread : ℕ
  pub snapshot : ℕ
  pub phase : Phase

-- State, with the snapshots of what was bound and the calls in progress, the last one first.
-- The calls of a thread are its Entered().
pub record Lifetime : Type 0 where
  pub generation : ℕ
  pub inside : ℕ
  pub bound : List ℕ
  pub calls : List Call

abbrev pub new_lifetime : Lifetime
new_lifetime = record { generation = 0; inside = 0; bound = []; calls = [] }

unfoldable pub alive : ℕ → Lifetime → Bool
alive snapshot s = s.generation == snapshot

unfoldable pub invalidate : Lifetime → Lifetime
invalidate s = record s { generation = (s.generation + 1) % 2 ^ 64 }

-- Bind takes the snapshot of what it returns.
unfoldable pub bind : Lifetime → Lifetime
bind s = record s { bound = s.generation ∷ s.bound }

-- The call of something bound: fetch_add and Inside.
unfoldable pub enter : ℕ → ℕ → Lifetime → Lifetime
enter thread snapshot s = record s {
  inside = (s.inside + 1) % 2 ^ 32;
  calls = record { thread = thread; snapshot = snapshot; phase = counted } ∷ s.calls;
}

-- It loads the generation, and goes in or returns.
unfoldable pub load : Call → Lifetime → Call
load c s = record c { phase = if alive c.snapshot s then running else returned }

unfoldable pub finish : Call → Call
finish c = record c { phase = returned }

-- ~Inside, where `rest` are the other calls.
unfoldable pub leave : List Call → Lifetime → Lifetime
leave rest s = record s { inside = (s.inside + 2 ^ 32 - 1) % 2 ^ 32; calls = rest }

abbrev pub count_calls : ℕ → List Call → ℕ
count_calls thread [] = 0
count_calls thread (c ∷ cs) =
    if c.thread == thread then suc (count_calls thread cs) else count_calls thread cs

unfoldable pub inside_on_this_thread : ℕ → Lifetime → ℕ
inside_on_this_thread thread s = count_calls thread s.calls

-- The loop of InvalidateAndWait ends.
unfoldable pub is_over : ℕ → Lifetime → Bool
is_over mine s = not (ltb mine s.inside)

-- A step of a thread. It is in the innermost of its calls, which is the first one of the thread.
-- Less than 2^64 times is invalidated, and less than 2^32 calls are in progress.
pub data Step (thread : ℕ) : Lifetime → Lifetime → Type 0 where
  binds : (s : Lifetime) → Step thread s (bind s)
  invalidates : (s : Lifetime) → s.generation + 1 < 2 ^ 64 → Step thread s (invalidate s)
  enters :
      (s : Lifetime) (before after : List ℕ) (snapshot : ℕ)
      → s.bound ≡ before ++ snapshot ∷ after
      → length s.calls + 1 < 2 ^ 32
      → Step thread s (enter thread snapshot s)
  loads :
      (s : Lifetime) (before after : List Call) (c : Call)
      → s.calls ≡ before ++ c ∷ after
      → c.thread ≡ thread
      → c.phase ≡ counted
      → count_calls thread before ≡ 0
      → Step thread s (record s { calls = before ++ load c s ∷ after })
  finishes :
      (s : Lifetime) (before after : List Call) (c : Call)
      → s.calls ≡ before ++ c ∷ after
      → c.thread ≡ thread
      → c.phase ≡ running
      → count_calls thread before ≡ 0
      → Step thread s (record s { calls = before ++ finish c ∷ after })
  leaves :
      (s : Lifetime) (before after : List Call) (c : Call)
      → s.calls ≡ before ++ c ∷ after
      → c.thread ≡ thread
      → c.phase ≡ returned
      → count_calls thread before ≡ 0
      → Step thread s (leave (before ++ after) s)

-- Steps of threads that `P` allows.
pub data Reach (P : ℕ → Type 0) (s : Lifetime) : Lifetime → Type 0 where
  here : Reach P s s
  next : {t u : Lifetime} (thread : ℕ) → Reach P s t → P thread → Step thread t u → Reach P s u
