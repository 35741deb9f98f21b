-- ===== src/Tasks/Rendezvous/Once.antt =====
-- How often SerialExecutor::RunAndWait of src/SerialExecutor.cpp has the task called, and when it
-- returns.
use pp_cpp_common.Common.{Bool, List, [], false, if◌then◌else◌, not, refl, true, ℕ, ◌&&◌, ◌∷◌, ◌≡◌}
use pp_cpp_common.Tasks.Rendezvous.{
  Event, Outcome, Place, RunAndWait, begin_run, destroy, destroyed, destroys, dropped, end_run,
  executing, queued, ran, returned, returns, run, settle, start, starts, step, unposted, waiting,
  wake, wakes,
}

abbrev pub one_if : Bool → ℕ
one_if b = if b then 1 else 0

-- The states of a call, by the place of the task, the outcome, the ticket's flag, whether the caller
-- returned, and the calls of the task.
pub data Sound (has_task : Bool) : Place → Outcome → Bool → Bool → ℕ → Type 0 where
  direct : Sound has_task unposted waiting false true (one_if has_task)
  pending_task : has_task ≡ true → Sound has_task queued waiting false false 0
  inside : has_task ≡ true → Sound has_task executing waiting true false 1
  ended : (d : Bool) → has_task ≡ true → Sound has_task returned ran true d 1
  gone : (d : Bool) → has_task ≡ true → Sound has_task destroyed ran true d 1
  given_up : (d : Bool) → has_task ≡ true → Sound has_task destroyed dropped false d (one_if d)

abbrev pub IsSound : Bool → RunAndWait → Type 0
IsSound has_task s = Sound has_task s.place s.outcome s.has_run s.is_done s.calls

start-IsSound : (has_task on_thread : Bool) → IsSound has_task (start has_task on_thread)
unfolding start
start-IsSound true true = direct
start-IsSound true false = pending_task refl
start-IsSound false on_thread = direct

make : Place → Outcome → Bool → Bool → ℕ → RunAndWait
make p o h d n = record { outcome = o; place = p; has_run = h; is_done = d; calls = n }

step-Sound :
    (t : Bool) (e : Event) {p : Place} {o : Outcome} {h d : Bool} {n : ℕ}
    → Sound t p o h d n
    → IsSound t (step e (make p o h d n))
unfolding step begin_run end_run destroy wake settle make
step-Sound t starts direct = direct
step-Sound t starts (pending_task k) = inside k
step-Sound t starts (inside k) = inside k
step-Sound t starts (ended d k) = ended d k
step-Sound t starts (gone d k) = gone d k
step-Sound t starts (given_up d k) = given_up d k
step-Sound t returns direct = direct
step-Sound t returns (pending_task k) = pending_task k
step-Sound t returns (inside k) = ended false k
step-Sound t returns (ended d k) = ended d k
step-Sound t returns (gone d k) = gone d k
step-Sound t returns (given_up d k) = given_up d k
step-Sound t destroys direct = direct
step-Sound t destroys (pending_task k) = given_up false k
step-Sound t destroys (inside k) = inside k
step-Sound t destroys (ended d k) = gone d k
step-Sound t destroys (gone d k) = gone d k
step-Sound t destroys (given_up d k) = given_up d k
step-Sound t wakes direct = direct
step-Sound t wakes (pending_task k) = pending_task k
step-Sound t wakes (inside k) = inside k
step-Sound t wakes (ended d k) = ended true k
step-Sound t wakes (gone d k) = gone true k
step-Sound t wakes (given_up true k) = given_up true k
step-Sound t wakes (given_up false k) = given_up true k

run-IsSound : (t : Bool) (es : List Event) (s : RunAndWait) → IsSound t s → IsSound t (run es s)
unfolding make
run-IsSound t [] s h = h
run-IsSound t (e ∷ es) s h = run-IsSound t es (step e s) (step-Sound t e h)

-- Nobody can call the task any more but the caller.
abbrev pub is_over : Place → Bool
is_over queued = false
is_over executing = false
is_over _ = true

-- The calls of the task when the caller has had its turn.
abbrev pub calls_at : Bool → Place → ℕ
calls_at has_task queued = 0
calls_at has_task executing = 1
calls_at has_task _ = one_if has_task

over :
    (t : Bool) {p : Place} {o : Outcome} {h d : Bool} {n : ℕ}
    → Sound t p o h d n
    → (d && not (is_over p)) ≡ false
over t direct = refl
over t (pending_task k) = refl
over t (inside k) = refl
over t (ended true k) = refl
over t (ended false k) = refl
over t (gone true k) = refl
over t (gone false k) = refl
over t (given_up true k) = refl
over t (given_up false k) = refl

woken :
    (t : Bool) {p : Place} {o : Outcome} {h d : Bool} {n : ℕ}
    → Sound t p o h d n
    → let s = step wakes (make p o h d n) in (s.is_done ≡ is_over p) × (s.calls ≡ calls_at t p)
unfolding step wake make
woken t direct = (refl, refl)
woken t (pending_task k) = (refl, refl)
woken t (inside k) = (refl, refl)
woken t (ended d k) = (refl, rw k refl)
woken t (gone d k) = (refl, rw k refl)
woken t (given_up true k) = (refl, rw k refl)
woken t (given_up false k) = (refl, rw k refl)

-- Whatever the executor and the caller did so far: RunAndWait has not returned while the posted
-- task waits or is being called; when its caller wakes it returns exactly if the task returned or
-- was destroyed or was never posted; and then a task that is there was called once in all, by the
-- executor or else by the caller, and an empty one never.
pub run_and_wait_once :
    (has_task on_thread : Bool) (es : List Event)
    → let s = run es (start has_task on_thread) in
      ((s.is_done && not (is_over s.place)) ≡ false)
      × ((step wakes s).is_done ≡ is_over s.place)
      × ((step wakes s).calls ≡ calls_at has_task s.place)
unfolding make
run_and_wait_once has_task on_thread es =
    let sound =
      run-IsSound has_task es (start has_task on_thread) (start-IsSound has_task on_thread) in
    let awake = woken has_task sound in (over has_task sound, awake.0, awake.1)
