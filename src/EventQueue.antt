-- ===== src/EventQueue.antt =====
-- eventq.c: the queue of timed events. Events within a second wait in a list sorted by time;
-- later ones wait in an unsorted list that is scanned once a second. Both lists run through the
-- `next` pointers of the one array `events`; a loop along them takes as many rounds of fuel as
-- there are events, and stops where it stands if these are used up, which on a list without
-- repetition never happens.
pub mod Calls
pub mod Cancel
pub mod Chain
pub mod Dequeue
pub mod Enqueue
pub mod Execute
pub mod Frame
pub mod Invariant
pub mod Order
pub mod Pending
pub mod RunSlice
pub mod Schedule
pub mod ScheduleLong
pub mod Slice
pub mod Write
use lxdream.Base.{
  ℕ, zero, suc, Bool, true, false, not, ◌||◌, Option, none, some, List, [], ◌∷◌, bit_and, bit_or,
  ltb, leb, ◌==◌, if◌then◌else◌, any_set, add32, sub32,
}
use lxdream.Machine.{Cpu, Callback, asic_callback, Event, EventQueue, Machine}
use Write.{Events}

-- eventq.h
abbrev pub not_scheduled : ℕ
not_scheduled = 0xffff_ffff

abbrev pub max_event_id : ℕ
max_event_id = 128

abbrev pub long_scan_period : ℕ
long_scan_period = 1_000_000_000

-- sh4/sh4.h
abbrev pub pending_irq : ℕ
pending_irq = 1

abbrev pub pending_event : ℕ
pending_event = 2

-- ~PENDING_EVENT
abbrev pub all_but_event : ℕ
all_but_event = 0xffff_fffd

-- sh4/sh4.c, sh4_set_event_pending
abbrev pub sh4_set_event_pending : ℕ → Cpu → Cpu
sh4_set_event_pending cycles c = record c { event_pending = cycles }

abbrev pub with_queue : EventQueue → Machine → Machine
with_queue q m = record m { eventq = q }

-- The new value of `sh4r.event_pending` only counts while no interrupt is pending.
abbrev set_pending_unless_irq : ℕ → Cpu → Cpu
set_pending_unless_irq t c =
    if any_set c.event_types pending_irq then c else sh4_set_event_pending t c

unfoldable pub event_get_next_time : EventQueue → ℕ
event_get_next_time q = elim q.event_head [ none ↦ not_scheduled | some h ↦ (q.events h).nanosecs ]

unfoldable pub event_update_pending : Machine → Machine
event_update_pending m = elim m.eventq.event_head [
  | none ↦
      let c = set_pending_unless_irq not_scheduled m.cpu in
      record m { cpu = record c { event_types = bit_and c.event_types all_but_event } }
  | some h ↦
      let c = set_pending_unless_irq (m.eventq.events h).nanosecs m.cpu in
      record m { cpu = record c { event_types = bit_or c.event_types pending_event } }
]

-- The walk of `event_enqueue` for a time `t`: the final `cur` and `next`.
unfoldable pub enqueue_walk : ℕ → Events → ℕ → ℕ → Option ℕ → ℕ × Option ℕ
enqueue_walk fuel evs t cur none = (cur, none)
enqueue_walk zero evs t cur (some n) = (cur, some n)
enqueue_walk (suc fuel) evs t cur (some n) =
    let rest = enqueue_walk fuel evs t n (evs n).next in
    if ltb t (evs n).nanosecs then (cur, some n) else rest

-- `event->next = next; cur->next = event;`
abbrev pub link : Events → ℕ → ℕ × Option ℕ → Events
link evs e (cur, n) = Write.next (Write.next evs e n) cur (some e)

unfoldable pub enqueue_behind : Events → ℕ → ℕ → Events
enqueue_behind evs e h = link evs e (enqueue_walk max_event_id evs (evs e).nanosecs h (evs h).next)

abbrev pub enqueue_head : ℕ → EventQueue → EventQueue
enqueue_head e q = record q { events = Write.next q.events e q.event_head; event_head = some e }

unfoldable pub event_enqueue : ℕ → Machine → Machine
event_enqueue e m =
    let q = m.eventq in
    let first = event_update_pending (with_queue (enqueue_head e q) m) in
    elim q.event_head [
      | none ↦ first
      | some h ↦
          if ltb (q.events e).nanosecs (q.events h).nanosecs
          then first
          else with_queue (record q { events = enqueue_behind q.events e h }) m
    ]

-- The loop of `event_dequeue` and of `event_dequeue_long`, from `cur` on.
unfoldable pub dequeue_walk : ℕ → Events → ℕ → ℕ → Option ℕ → Events
dequeue_walk fuel evs e cur none = evs
dequeue_walk zero evs e cur (some n) = evs
dequeue_walk (suc fuel) evs e cur (some n) =
    let rest = dequeue_walk fuel evs e n (evs n).next in
    if e == n then Write.next evs cur (evs n).next else rest

-- On an empty queue the source reports an error and changes nothing.
unfoldable pub event_dequeue : ℕ → Machine → Machine
event_dequeue e m =
    let q = m.eventq in
    elim q.event_head [
      | none ↦ m
      | some h ↦
          if e == h
          then event_update_pending (with_queue (record q { event_head = (q.events h).next }) m)
          else with_queue
              (record q { events = dequeue_walk max_event_id q.events e h (q.events h).next }) m
    ]

unfoldable pub event_dequeue_long : ℕ → Machine → Machine
event_dequeue_long e m =
    let q = m.eventq in
    elim q.long_event_head [
      | none ↦ m
      | some h ↦
          if e == h
          then with_queue (record q { long_event_head = (q.events h).next }) m
          else with_queue
              (record q { events = dequeue_walk max_event_id q.events e h (q.events h).next }) m
    ]

unfoldable pub register_event_callback : ℕ → Callback → Machine → Machine
register_event_callback e f m =
    with_queue (record (m.eventq) { events = Write.func m.eventq.events e (some f) }) m

unfoldable pub event_cancel : ℕ → Machine → Machine
event_cancel e m =
    let q = m.eventq in
    if (q.events e).nanosecs == not_scheduled
    then m
    else let m' = with_queue (record q { events = Write.nanosecs q.events e not_scheduled }) m in
      if (q.events e).seconds == 0 then event_dequeue e m' else event_dequeue_long e m'

-- `event->id = eventid; event->seconds = s; event->nanosecs = t;`
abbrev pub set_event : ℕ → ℕ → ℕ → EventQueue → EventQueue
set_event e s t q = record q {
  events = Write.nanosecs (Write.seconds (Write.id q.events e e) e s) e t;
}

abbrev pub cancel_if_scheduled : ℕ → Machine → Machine
cancel_if_scheduled e m =
    if (m.eventq.events e).nanosecs == not_scheduled then m else event_cancel e m

unfoldable pub event_schedule : ℕ → ℕ → Machine → Machine
event_schedule e nanosecs m =
    let t = add32 nanosecs m.cpu.slice_cycle in
    let m' = cancel_if_scheduled e m in event_enqueue e (with_queue (set_event e 0 t m'.eventq) m')

abbrev pub enqueue_long : ℕ → EventQueue → EventQueue
enqueue_long e q = record q {
  events = Write.next q.events e q.long_event_head;
  long_event_head = some e;
}

unfoldable pub event_schedule_long : ℕ → ℕ → ℕ → Machine → Machine
event_schedule_long e seconds nanosecs m =
    if seconds == 0
    then event_schedule e nanosecs m
    else let m' = cancel_if_scheduled e m in
      let elapsed = sub32 long_scan_period m'.eventq.long_scan_time_remaining in
      let t = add32 (add32 nanosecs m'.cpu.slice_cycle) elapsed in
      with_queue (enqueue_long e (set_event e seconds t m'.eventq)) m'

-- `event_init`: the first 96 events call the ASIC.
unfoldable pub event_init : Machine → Machine
event_init m = record m {
  eventq = record {
    events = λ i.
        if ltb i max_event_id
        then record (m.eventq.events i) {
          id = i;
          nanosecs = not_scheduled;
          func = if ltb i 96 then some asic_callback else none;
          next = none;
        }
        else m.eventq.events i;
    event_head = none;
    long_event_head = none;
    long_scan_time_remaining = long_scan_period;
  };
}

unfoldable pub event_reset : Machine → Machine
event_reset m = record m {
  eventq = record {
    events = λ i. record (m.eventq.events i) {
      nanosecs = if ltb i max_event_id then not_scheduled else (m.eventq.events i).nanosecs;
    };
    event_head = none;
    long_event_head = none;
    long_scan_time_remaining = long_scan_period;
  };
}
