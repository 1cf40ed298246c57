-- ===== src/EventQueue/ScheduleLong.antt =====
-- event_schedule_long of eventq.c on the queue's two lists.
use lxdream.Base.{
  ℕ, ◌<◌, ◌≡◌, ◌≢◌, refl, sym, ◌∙◌, ap, inl, inr, false, List, ◌∷◌, arith, ◌==◌, has, erase,
  Bool-cases, ==_refl, has-erase_self, add32, sub32,
}
use mathlib.Core.Path.{subst}
use lxdream.Machine.{EventQueue, Machine}
use lxdream.EventQueue.{
  max_event_id, not_scheduled, long_scan_period, set_event, event_schedule_long, enqueue_long,
  cancel_if_scheduled,
}
use lxdream.EventQueue.Chain.{Chain-next}
use lxdream.EventQueue.Order.{IsSorted-same}
use lxdream.EventQueue.Invariant.{IsWaiting, IsLists, IsQueue}
use lxdream.EventQueue.Cancel.{
  cancelled, cancelled-IsQueue, cancel_if_scheduled-eventq, cancel_if_scheduled-slice_cycle,
}
use lxdream.EventQueue.Schedule.{time_fits, set_event-IsLists, set_event-IsWaiting}

-- Putting an event that is due later in front of the long list.
enqueue_long-IsLists :
    (e : ℕ) (q : EventQueue) (short long : List ℕ)
    → IsLists q short long
    → has e short ≡ false
    → has e long ≡ false
    → IsWaiting q.events e
    → (q.events e).seconds ≢ 0
    → IsLists (enqueue_long e q) short (e ∷ long)
enqueue_long-IsLists e q short long l es el w s = record {
  short_chain = Chain-next q.events e q.long_event_head q.event_head short es l.short_chain;
  long_chain = (
    refl,
    rw (==_refl e) (Chain-next q.events e q.long_event_head q.long_event_head long el l.long_chain),
  );
  short_distinct = l.short_distinct;
  long_distinct = (el, l.long_distinct);
  apart = λ a m. ground (arith, l.apart a m);
  sorted = IsSorted-same q.events (enqueue_long e q).events short (λ a m. refl) l.sorted;
  short_waiting = λ a m.
      let v = l.short_waiting a m in record { known = v.known; named = v.named; timed = v.timed };
  long_waiting = λ a m. elim (Bool-cases (a == e)) [
    | inl h ↦
        let a_is_e : a ≡ e = ground arith in
        subst (IsWaiting (enqueue_long e q).events) (sym a_is_e)
          (record { known = w.known; named = w.named; timed = w.timed })
    | inr h ↦
        let v = l.long_waiting a (ground arith) in
        record { known = v.known; named = v.named; timed = v.timed }
  ];
  short_seconds = l.short_seconds;
  long_seconds = λ a m. ground (arith, l.long_seconds a);
}

-- The time that `event_schedule_long` stores: from the current point of the slice, plus what has
-- gone by of the second since the last scan.
abbrev pub long_time : ℕ → Machine → ℕ
long_time ns m =
    add32 (add32 ns m.cpu.slice_cycle) (sub32 long_scan_period m.eventq.long_scan_time_remaining)

cancelled-long_scan :
    (e : ℕ) (q : EventQueue) → (cancelled e q).long_scan_time_remaining ≡ q.long_scan_time_remaining
unfolding cancelled
cancelled-long_scan e q = ground arith

event_schedule_long-eventq :
    (e s ns : ℕ) (m : Machine)
    → (s == 0) ≡ false
    → (event_schedule_long e s ns m).eventq
      ≡ enqueue_long e (set_event e s (long_time ns m) (cancelled e m.eventq))
unfolding event_schedule_long
event_schedule_long-eventq e s ns m h =
    let stored = λ (q : EventQueue) (cycle left : ℕ).
      enqueue_long e (set_event e s (add32 (add32 ns cycle) (sub32 long_scan_period left)) q) in
    let m' = cancel_if_scheduled e m in
    rw h (
      ap (λ q. stored q m'.cpu.slice_cycle q.long_scan_time_remaining)
        (cancel_if_scheduled-eventq e m)
      ∙ ap (λ c. stored (cancelled e m.eventq) c (cancelled e m.eventq).long_scan_time_remaining)
          (cancel_if_scheduled-slice_cycle e m)
      ∙ ap (λ l. stored (cancelled e m.eventq) m.cpu.slice_cycle l)
          (cancelled-long_scan e m.eventq))

-- On a queue in order and with a delay of at least a second, `event_schedule_long` takes the event
-- out of whichever list holds it and puts it in front of the long list, with its whole seconds
-- apart. Both lists stay in order.
pub event_schedule_long-IsQueue :
    (e s ns : ℕ) (m : Machine) (short long : List ℕ)
    → e < max_event_id
    → s ≢ 0
    → long_time ns m ≢ not_scheduled
    → IsQueue m.eventq short long
    → let q = (event_schedule_long e s ns m).eventq in
      IsQueue q (erase e short) (e ∷ erase e long)
      × ((q.events e).nanosecs ≡ long_time ns m)
      × ((q.events e).seconds ≡ s)
event_schedule_long-IsQueue e s ns m short long k later timed i =
    let (c, idle) = cancelled-IsQueue e m.eventq short long i k in
    let es = has-erase_self e short i.lists.short_distinct in
    let el = has-erase_self e long i.lists.long_distinct in
    let t = long_time ns m in
    let elapsed = sub32 long_scan_period m.eventq.long_scan_time_remaining in
    let valid : t < not_scheduled = time_fits (add32 ns m.cpu.slice_cycle) elapsed timed in
    let q' = set_event e s t (cancelled e m.eventq) in
    rw (event_schedule_long-eventq e s ns m (ground arith)) (
      record {
        lists =
            enqueue_long-IsLists e q' (erase e short) (erase e long)
              (set_event-IsLists e s t (cancelled e m.eventq) (erase e short) (erase e long) es el
                c.lists)
              es el (set_event-IsWaiting e s t (cancelled e m.eventq) k valid) (ground arith);
        idle = λ a b n o. ground (arith, c.idle a b);
      },
      ground arith,
      ground arith,
    )
