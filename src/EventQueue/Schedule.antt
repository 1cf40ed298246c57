-- ===== src/EventQueue/Schedule.antt =====
-- event_schedule and event_schedule_long of eventq.c on the queue's two lists.
use lxdream.Base.{
  ℕ, ◌<◌, ◌≡◌, ◌≢◌, refl, ◌∙◌, ap, false, List, arith, has, erase, has-erase_self, add32,
}
use lxdream.Machine.{EventQueue, Machine}
use lxdream.EventQueue.{
  max_event_id, not_scheduled, with_queue, set_event, event_schedule, cancel_if_scheduled,
}
use lxdream.EventQueue.Chain.{insert}
use lxdream.EventQueue.Order.{insert-same, has-insert}
use lxdream.EventQueue.Enqueue.{enqueued, event_enqueue-eventq, enqueued-SameFields}
use lxdream.EventQueue.Invariant.{IsWaiting, IsLists, IsQueue, enqueued-IsLists}
use lxdream.EventQueue.Cancel.{
  cancelled, cancelled-IsQueue, cancel_if_scheduled-eventq, other_IsLists,
}

event_schedule-eventq :
    (e ns : ℕ) (m : Machine)
    → (event_schedule e ns m).eventq
      ≡ enqueued e (set_event e 0 (add32 ns m.cpu.slice_cycle) (cancelled e m.eventq))
unfolding event_schedule
event_schedule-eventq e ns m =
    let m' = cancel_if_scheduled e m in
    let t = add32 ns m.cpu.slice_cycle in
    event_enqueue-eventq e (with_queue (set_event e 0 t m'.eventq) m')
    ∙ ap (λ q. enqueued e (set_event e 0 t q)) (cancel_if_scheduled-eventq e m)

-- Setting the fields of an event that is in no list.
pub set_event-IsLists :
    (e s t : ℕ) (q : EventQueue) (short long : List ℕ)
    → has e short ≡ false
    → has e long ≡ false
    → IsLists q short long
    → IsLists (set_event e s t q) short long
set_event-IsLists e s t q short long es el l =
    other_IsLists e q short long (set_event e s t q).events (λ a. refl) (λ a ne. ground arith)
      (λ a ne. ground arith) (λ a ne. ground arith) es el l

pub set_event-IsWaiting :
    (e s t : ℕ) (q : EventQueue)
    → e < max_event_id
    → t < not_scheduled
    → IsWaiting (set_event e s t q).events e
set_event-IsWaiting e s t q k ne = record { known = k; named = ground arith; timed = ground arith }

-- A 32-bit time that is not the mark is below it.
pub time_fits : (a b : ℕ) → add32 a b ≢ not_scheduled → add32 a b < not_scheduled
unfolding add32
time_fits a b h = omega arith

module _ (e t : ℕ) (q : EventQueue) (short long : List ℕ) (i : IsQueue q short long)
    (k : e < max_event_id) (valid : t < not_scheduled) where
  abbrev in_short : EventQueue
  in_short = enqueued e (set_event e 0 t (cancelled e q))

  scheduled-IsQueue : IsQueue in_short (insert in_short.events e (erase e short)) (erase e long)
  scheduled-IsQueue =
      let (c, idle) = cancelled-IsQueue e q short long i k in
      let es = has-erase_self e short i.lists.short_distinct in
      let el = has-erase_self e long i.lists.long_distinct in
      let q' = set_event e 0 t (cancelled e q) in
      let same = enqueued-SameFields e q' in
      rw (insert-same q'.events in_short.events e (erase e short) same.nanosecs) (record {
        lists =
            enqueued-IsLists e q' (erase e short) (erase e long)
              (set_event-IsLists e 0 t (cancelled e q) (erase e short) (erase e long) es el c.lists)
              es el (set_event-IsWaiting e 0 t (cancelled e q) k valid) (ground arith);
        idle = λ a b m n.
            ground (arith, same.nanosecs a, c.idle a b, has-insert q'.events e a (erase e short));
      })

  scheduled_time : ((in_short.events e).nanosecs ≡ t) × ((in_short.events e).seconds ≡ 0)
  scheduled_time =
      let same = enqueued-SameFields e (set_event e 0 t (cancelled e q)) in
      (ground (arith, same.nanosecs e), ground (arith, same.seconds e))

-- On a queue in order, `event_schedule` takes the event out of whichever list holds it and puts it
-- into the short list at the place of its time, which is the given time after the current
-- `slice_cycle` modulo 2^32. Both lists stay in order. The time must not come out as the value
-- that marks an event as not scheduled.
pub event_schedule-IsQueue :
    (e ns : ℕ) (m : Machine) (short long : List ℕ)
    → e < max_event_id
    → add32 ns m.cpu.slice_cycle ≢ not_scheduled
    → IsQueue m.eventq short long
    → let q = (event_schedule e ns m).eventq in
      IsQueue q (insert q.events e (erase e short)) (erase e long)
      × ((q.events e).nanosecs ≡ add32 ns m.cpu.slice_cycle)
      × ((q.events e).seconds ≡ 0)
event_schedule-IsQueue e ns m short long k timed i =
    let t = add32 ns m.cpu.slice_cycle in
    let valid : t < not_scheduled = time_fits ns m.cpu.slice_cycle timed in
    let (a, b) = scheduled_time e t m.eventq short long i k valid in
    rw (event_schedule-eventq e ns m) (scheduled-IsQueue e t m.eventq short long i k valid, a, b)
