-- ===== src/Tasks/Rendezvous.antt =====
-- SerialExecutor::RunAndWait of src/SerialExecutor.cpp, with its Rendezvous and Ticket: one call, and
-- what the executor does with the task that was posted.
pub mod Once
mod Tests
use pp_cpp_common.Common.{Bool, List, [], false, if◌then◌else◌, not, true, ℕ, ◌+◌, ◌∷◌}

pub data Outcome : Type 0 where
  waiting ran dropped : Outcome

-- Where the posted task is; `unposted` where the caller did not post one.
pub data Place : Type 0 where
  unposted queued executing returned destroyed : Place

-- `has_run` is the ticket's ran_; `calls` counts how often the task was called, by anyone.
pub record RunAndWait : Type 0 where
  pub outcome : Outcome
  pub place : Place
  pub has_run : Bool
  pub is_done : Bool
  pub calls : ℕ

-- RunAndWait up to the wait, for a task that is there and a caller that is on the thread or not.
unfoldable pub start : Bool → Bool → RunAndWait
start has_task on_thread =
    if not has_task
    then record { outcome = waiting; place = unposted; has_run = false; is_done = true; calls = 0 }
    else if on_thread
    then record { outcome = waiting; place = unposted; has_run = false; is_done = true; calls = 1 }
    else record { outcome = waiting; place = queued; has_run = false; is_done = false; calls = 0 }

-- Rendezvous::Settle: the first call decides.
abbrev pub settled : Outcome → Outcome → Outcome
settled waiting o = o
settled o' o = o'

unfoldable pub settle : Outcome → RunAndWait → RunAndWait
settle o s = record s { outcome = settled s.outcome o }

-- The executor takes the task and calls it, the call returns, and the executor destroys the task. The
-- caller wakes.
pub data Event : Type 0 where
  starts returns destroys wakes : Event

abbrev pub call : RunAndWait → RunAndWait
call s = record s { calls = s.calls + 1 }

-- Ticket::Run up to the call.
unfoldable pub begin_run : Place → RunAndWait → RunAndWait
begin_run queued s = call (record s { place = executing; has_run = true })
begin_run _ s = s

-- The end of Ticket::Run, which settles whether the task threw or not.
unfoldable pub end_run : Place → RunAndWait → RunAndWait
end_run executing s = settle ran (record s { place = returned })
end_run _ s = s

abbrev pub destroy_ticket : RunAndWait → RunAndWait
destroy_ticket s = settle (if s.has_run then ran else dropped) (record s { place = destroyed })

-- ~Ticket.
unfoldable pub destroy : Place → RunAndWait → RunAndWait
destroy queued s = destroy_ticket s
destroy returned s = destroy_ticket s
destroy _ s = s

-- Wait and what follows it.
unfoldable pub wake : Outcome → RunAndWait → RunAndWait
wake waiting s = s
wake ran s = record s { is_done = true }
wake dropped s = if s.is_done then s else call (record s { is_done = true })

unfoldable pub step : Event → RunAndWait → RunAndWait
step starts s = begin_run s.place s
step returns s = end_run s.place s
step destroys s = destroy s.place s
step wakes s = wake s.outcome s

abbrev pub run : List Event → RunAndWait → RunAndWait
run [] s = s
run (e ∷ es) s = run es (step e s)
