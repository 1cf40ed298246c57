-- ===== src/Tests/EventRuns.antt =====
-- The theorems on the event queue of eventq.c at the example state.
use lxdream.Base.{[], List, ℕ, ◌≡◌, ap, refl, true, false, ◌∷◌, arith, has, erase, add32, sub32}
use lxdream.Machine.{Callback, Machine}
use lxdream.EventQueue.{
  event_update_pending, event_get_next_time, event_schedule, event_cancel, event_schedule_long,
  not_scheduled,
}
use lxdream.EventQueue.Slice.{event_run_slice, event_execute, done, remaining}
use lxdream.EventQueue.Chain.{insert}
use lxdream.EventQueue.Invariant.{IsQueue}
use lxdream.EventQueue.Calls.{Call, schedule, cancel}
use lxdream.EventQueue.Pending.{IsSynced, event_schedule-IsSynced}
use lxdream.EventQueue.Cancel.{event_cancel-IsQueue}
use lxdream.EventQueue.Schedule.{event_schedule-IsQueue}
use lxdream.EventQueue.ScheduleLong.{event_schedule_long-IsQueue}
use lxdream.EventQueue.RunSlice.{event_run_slice-IsQueue}
use lxdream.EventQueue.Execute.{due_events, run_calls, later, event_execute-later}
use lxdream.Asic.Frame.{event_asic_callback, asic_event-clock}
use lxdream.Tests.{machine, queue, short, long, machine-IsQueue}

machine-IsSynced : IsSynced machine
unfolding event_get_next_time
machine-IsSynced h = refl

-- Event 8 goes between the two others.
event_schedule-IsQueue_example :
    IsQueue
      (event_schedule 8 140 machine).eventq
      (insert (event_schedule 8 140 machine).eventq.events 8 (erase 8 short))
      (erase 8 long)
    × (((event_schedule 8 140 machine).eventq.events 8).nanosecs ≡ 150)
    × (((event_schedule 8 140 machine).eventq.events 8).seconds ≡ 0)
unfolding add32 sub32
event_schedule-IsQueue_example =
    event_schedule-IsQueue 8 140 machine short long (omega arith) (ground arith) machine-IsQueue

event_cancel-IsQueue_example :
    IsQueue (event_cancel 5 machine).eventq (erase 5 short) (erase 5 long)
    × (((event_cancel 5 machine).eventq.events 5).nanosecs ≡ not_scheduled)
event_cancel-IsQueue_example =
    event_cancel-IsQueue 5 machine short long (omega arith) machine-IsQueue

event_run_slice-IsQueue_example :
    IsQueue (event_run_slice 150 machine).eventq short long
    × IsSynced (event_run_slice 150 machine)
    × ((a : ℕ)
        → has a short ≡ true
        → ((event_run_slice 150 machine).eventq.events a).nanosecs
          ≡ remaining 150 (queue.events a).nanosecs)
    × ((a : ℕ)
        → has a short ≡ false
        → ((event_run_slice 150 machine).eventq.events a).nanosecs ≡ (queue.events a).nanosecs)
unfolding add32 sub32
event_run_slice-IsQueue_example =
    event_run_slice-IsQueue 150 machine short long machine-IsQueue (ground arith)

event_schedule_long-IsQueue_example :
    IsQueue (event_schedule_long 8 2 500 machine).eventq (erase 8 short) (8 ∷ erase 8 long)
    × (((event_schedule_long 8 2 500 machine).eventq.events 8).nanosecs ≡ 510)
    × (((event_schedule_long 8 2 500 machine).eventq.events 8).seconds ≡ 2)
unfolding add32 sub32
event_schedule_long-IsQueue_example =
    event_schedule_long-IsQueue 8 2 500 machine short long (omega arith) (ground arith)
      (ground arith) machine-IsQueue

event_schedule-IsSynced_example : IsSynced (event_schedule 8 20 machine)
event_schedule-IsSynced_example =
    event_schedule-IsSynced 8 20 machine short long (omega arith) machine-IsQueue machine-IsSynced

-- Event 8 comes before the two others, and event 5 goes.
abbrev calls : List Call
calls = schedule 8 40 ∷ cancel 5 ∷ []

-- Every callback is `event_asic_callback`.
abbrev tell_asic : Callback → ℕ → Machine → Machine
tell_asic f a m = event_asic_callback a m

-- At the time 120 event 5 is due and event 7 is not.
abbrev late : Machine
late = record machine { cpu = record (machine.cpu) { slice_cycle = 120 } }

event_execute-later_example :
    (m' : Machine) × (event_execute tell_asic 3 late ≡ done m')
    × (m' ≡ event_update_pending (run_calls tell_asic (due_events queue.events 120 short) late))
    × IsQueue m'.eventq (later queue.events 120 short) long
    × IsSynced m'
event_execute-later_example =
    event_execute-later tell_asic (λ f a m. ap (λ p. p.0) (asic_event-clock a m))
      (λ f a m. ap (λ p. p.1) (asic_event-clock a m)) 3 late short long (omega arith)
      (λ a h. ground arith) machine-IsQueue
