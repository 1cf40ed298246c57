-- ===== src/EventQueue/Calls.antt =====
-- Any sequence of calls that schedule and cancel events (eventq.c), and what the processor knows of
-- the queue after it.
use lxdream.Base.{ℕ, ◌<◌, ◌≢◌, List, [], ◌∷◌, erase, add32}
use lxdream.Machine.{Machine}
use lxdream.EventQueue.{max_event_id, not_scheduled, event_schedule, event_cancel}
use lxdream.EventQueue.Chain.{insert}

pub data Call : Type 0 where
  schedule : ℕ → ℕ → Call
  cancel : ℕ → Call

unfoldable pub perform : Call → Machine → Machine
perform (schedule e ns) m = event_schedule e ns m
perform (cancel e) m = event_cancel e m

unfoldable pub perform_all : List Call → Machine → Machine
perform_all [] m = m
perform_all (c ∷ cs) m = perform_all cs (perform c m)

-- The calls are for events of the array, and no time is the mark of an event that is not scheduled.
abbrev pub IsLegal : Call → Machine → Type 0
IsLegal (schedule e ns) m = (e < max_event_id) × (add32 ns m.cpu.slice_cycle ≢ not_scheduled)
IsLegal (cancel e) m = e < max_event_id

abbrev pub AreLegal : List Call → Machine → Type 0
AreLegal [] m = Unit
AreLegal (c ∷ cs) m = IsLegal c m × AreLegal cs (perform c m)

-- The events that wait in the short list after the calls, if those of `short` waited before.
unfoldable pub waiting : List Call → Machine → List ℕ → List ℕ
waiting [] m short = short
waiting (schedule e ns ∷ cs) m short =
    waiting cs (event_schedule e ns m)
      (insert (event_schedule e ns m).eventq.events e (erase e short))
waiting (cancel e ∷ cs) m short = waiting cs (event_cancel e m) (erase e short)
