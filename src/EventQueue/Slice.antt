-- ===== src/EventQueue/Slice.antt =====
-- eventq.c: what happens as time passes. `event_run_slice` moves the queue's times to the next
-- slice and scans the long list once a second; `event_execute` calls the events that are due.
use lxdream.Base.{
  ℕ, zero, suc, ◌-◌, Bool, ◌||◌, Option, none, some, leb, ◌==◌, if◌then◌else◌, add32, sub32,
}
use lxdream.Machine.{Callback, Machine}
use lxdream.EventQueue.{
  max_event_id, long_scan_period, not_scheduled, with_queue, event_update_pending, event_enqueue,
}
use lxdream.EventQueue.Write
use lxdream.EventQueue.Write.{Events}

-- `--e->seconds`
abbrev pub tick : Events → ℕ → Events
tick evs e = Write.seconds evs e (sub32 (evs e).seconds 1)

abbrev pub tick_in : ℕ → Machine → Machine
tick_in e m = with_queue (record (m.eventq) { events = tick m.eventq.events e }) m

-- The first loop of `event_scan_long`: events at the head of the long list that are due.
unfoldable pub scan_head : ℕ → Machine → Machine
scan_head zero m = m
scan_head (suc fuel) m = elim m.eventq.long_event_head [
  | none ↦ m
  | some h ↦
      let m' = tick_in h m in
      let q = m'.eventq in
      let rest =
        scan_head fuel
          (event_enqueue h (with_queue (record q { long_event_head = (q.events h).next }) m')) in
      if (q.events h).seconds == 0 then rest else m'
]

-- The second loop, behind an event `last` that stays.
unfoldable pub scan_tail : ℕ → ℕ → Option ℕ → Machine → Machine
scan_tail fuel last none m = m
scan_tail zero last (some c) m = m
scan_tail (suc fuel) last (some c) m =
    let m' = tick_in c m in
    let q = m'.eventq in
    let unlinked =
      event_enqueue c
        (with_queue (record q { events = Write.next q.events last (q.events c).next }) m') in
    let moved = scan_tail fuel last (unlinked.eventq.events last).next unlinked in
    let kept = scan_tail fuel c (q.events c).next m' in
    if (q.events c).seconds == 0 then moved else kept

unfoldable pub event_scan_long : Machine → Machine
event_scan_long m =
    let m' = scan_head max_event_id m in
    elim m'.eventq.long_event_head [
      | none ↦ m'
      | some last ↦ scan_tail max_event_id last (m'.eventq.events last).next m'
    ]

-- What a slice leaves of an event's time.
abbrev pub remaining : ℕ → ℕ → ℕ
remaining slice t = if leb t slice then 0 else t - slice

unfoldable pub slice_walk : ℕ → ℕ → Option ℕ → Events → Events
slice_walk fuel slice none evs = evs
slice_walk zero slice (some e) evs = evs
slice_walk (suc fuel) slice (some e) evs =
    slice_walk fuel slice (evs e).next (Write.nanosecs evs e (remaining slice (evs e).nanosecs))

-- An `int` that is at most 0, by its pattern.
abbrev pub not_positive : ℕ → Bool
not_positive w = w == 0 || leb 0x8000_0000 w

unfoldable pub event_run_slice : ℕ → Machine → Machine
event_run_slice slice m =
    let q = m.eventq in
    let left = sub32 q.long_scan_time_remaining slice in
    let m' =
      with_queue
        (record q {
          events = slice_walk max_event_id slice q.event_head q.events;
          long_scan_time_remaining = left;
        })
        m in
    let again = event_scan_long (
      with_queue (record (m'.eventq) { long_scan_time_remaining = add32 left long_scan_period })
        m') in
    event_update_pending (if not_positive left then again else m')

-- How `event_execute` ends: `null_call` is a call through a callback that was never registered.
pub data Execution : Type 0 where
  done : Machine → Execution
  null_call out_of_fuel : Execution

-- `call` runs a callback. The fuel bounds the number of calls: a callback may schedule again.
module _ (call : Callback → ℕ → Machine → Machine) where
  unfoldable pub event_execute : ℕ → Machine → Execution
  event_execute zero m = out_of_fuel
  event_execute (suc fuel) m = elim m.eventq.event_head [
    | none ↦ done (event_update_pending m)
    | some e ↦
        let q = m.eventq in
        let taken =
          with_queue
            (record q {
              event_head = (q.events e).next;
              events = Write.nanosecs q.events e not_scheduled;
            })
            m in
        let called : Execution = elim (q.events e).func [
          | none ↦ null_call
          | some f ↦ event_execute fuel (call f (q.events e).id taken)
        ] in
        if leb (q.events e).nanosecs m.cpu.slice_cycle
        then called
        else done (event_update_pending m)
  ]
