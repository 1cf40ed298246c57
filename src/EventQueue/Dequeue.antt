-- ===== src/EventQueue/Dequeue.antt =====
-- event_dequeue and event_dequeue_long of eventq.c as removals from the two lists.
use lxdream.Base.{
  ℕ, zero, suc, ◌≤◌, ◌≡◌, refl, ap, inl, inr, false, Option, none, some, List, [], ◌∷◌, arith, ◌==◌,
  if◌then◌else◌, length, has, Distinct, erase, Bool-cases, Option-cases,
}
use lxdream.Machine.{Event, EventQueue, Machine}
use lxdream.EventQueue.{max_event_id, event_dequeue, event_dequeue_long, with_queue, dequeue_walk}
use lxdream.EventQueue.Write.{Events}
use lxdream.EventQueue.Chain.{Chain, dequeue_walk-erase, dequeue_walk-outside}
use lxdream.EventQueue.Enqueue.{SameFields, event_update_pending-eventq}

-- One list, as its array of events and its head, without the event `e`.
unfoldable pub unlinked : ℕ → Events → Option ℕ → Events × Option ℕ
unlinked e evs none = (evs, none)
unlinked e evs (some h) =
    if e == h then (evs, (evs h).next) else (dequeue_walk max_event_id evs e h (evs h).next, some h)

-- The queue after `event_dequeue` and after `event_dequeue_long`.
abbrev pub without_short : ℕ → EventQueue → EventQueue
without_short e q = record q {
  events = (unlinked e q.events q.event_head).0;
  event_head = (unlinked e q.events q.event_head).1;
}

abbrev pub without_long : ℕ → EventQueue → EventQueue
without_long e q = record q {
  events = (unlinked e q.events q.long_event_head).0;
  long_event_head = (unlinked e q.events q.long_event_head).1;
}

pub event_dequeue-eventq :
    (e : ℕ) (m : Machine) → (event_dequeue e m).eventq ≡ without_short e m.eventq
unfolding event_dequeue unlinked
event_dequeue-eventq e m = elim (Option-cases m.eventq.event_head) [
  | inl h ↦ ground arith
  | inr (x, h) ↦
      let next = (m.eventq.events x).next in
      ground (
        arith,
        event_update_pending-eventq (with_queue (record (m.eventq) { event_head = next }) m),
      )
]

pub event_dequeue_long-eventq :
    (e : ℕ) (m : Machine) → (event_dequeue_long e m).eventq ≡ without_long e m.eventq
unfolding event_dequeue_long unlinked
event_dequeue_long-eventq e m = ground arith

SameFields-refl : (evs : Events) → SameFields evs evs
SameFields-refl evs = record {
  nanosecs = λ a. refl;
  seconds = λ a. refl;
  id = λ a. refl;
  func = λ a. refl;
}

pub dequeue_walk-SameFields :
    (fuel : ℕ) (evs : Events) (e cur : ℕ) (p : Option ℕ)
    → SameFields evs (dequeue_walk fuel evs e cur p)
unfolding dequeue_walk
dequeue_walk-SameFields zero evs e cur none = SameFields-refl evs
dequeue_walk-SameFields zero evs e cur (some n) = SameFields-refl evs
dequeue_walk-SameFields (suc fuel) evs e cur none = SameFields-refl evs
dequeue_walk-SameFields (suc fuel) evs e cur (some n) =
    let rest = dequeue_walk-SameFields fuel evs e n (evs n).next in
    record {
      nanosecs = λ a. ground (arith, rest.nanosecs a);
      seconds = λ a. ground (arith, rest.seconds a);
      id = λ a. ground (arith, rest.id a);
      func = λ a. ground (arith, rest.func a);
    }

pub unlinked-SameFields :
    (e : ℕ) (evs : Events) (p : Option ℕ) → SameFields evs (unlinked e evs p).0
unfolding unlinked
unlinked-SameFields e evs none = SameFields-refl evs
unlinked-SameFields e evs (some h) =
    let rest = dequeue_walk-SameFields max_event_id evs e h (evs h).next in
    record {
      nanosecs = λ a. ground (arith, rest.nanosecs a);
      seconds = λ a. ground (arith, rest.seconds a);
      id = λ a. ground (arith, rest.id a);
      func = λ a. ground (arith, rest.func a);
    }

-- Events outside the list keep their pointers.
pub unlinked-outside :
    (e : ℕ) (evs : Events) (p : Option ℕ) (xs : List ℕ) (a : ℕ)
    → length xs ≤ max_event_id
    → has a xs ≡ false
    → Chain evs p xs
    → ((unlinked e evs p).0 a).next ≡ (evs a).next
unfolding unlinked
unlinked-outside e evs p [] a fits out c = rw c
unlinked-outside e evs p (x ∷ xs) a fits out c =
    let walked =
      dequeue_walk-outside max_event_id evs e x a (evs x).next xs (omega arith) out c.1 in
    rw (c.0, unlinked) (ground (arith, ap Event.next walked))

pub unlinked-erase :
    (e : ℕ) (evs : Events) (p : Option ℕ) (xs : List ℕ)
    → Distinct xs
    → length xs ≤ max_event_id
    → Chain evs p xs
    → Chain (unlinked e evs p).0 (unlinked e evs p).1 (erase e xs)
unfolding unlinked erase
unlinked-erase e evs p [] d fits c = rw c
unlinked-erase e evs p (x ∷ xs) d fits c = elim (Bool-cases (e == x)) [
  | inl h ↦ rw (c.0, h) c.1
  | inr h ↦
      rw (c.0, h)
        (refl, dequeue_walk-erase max_event_id evs e x (evs x).next xs (omega arith) d refl c.1)
]
