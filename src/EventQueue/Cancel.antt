-- ===== src/EventQueue/Cancel.antt =====
-- event_cancel of eventq.c on the queue's two lists.
use lxdream.Base.{
  ℕ, zero, suc, ◌<◌, ◌≡◌, ◌≢◌, refl, sym, ◌∙◌, inl, inr, true, false, Option, none, some, List,
  arith, ◌==◌, if◌then◌else◌, has, erase, Bool-cases, has-erase_ne, has-erase_self, erase_absent,
}
use native.Mathlib.Decide.{ℕ_discrete}
use lxdream.Machine.{EventQueue, Machine}
use lxdream.EventQueue.{
  max_event_id, not_scheduled, with_queue, event_cancel, cancel_if_scheduled, dequeue_walk,
  event_dequeue, event_dequeue_long, event_update_pending,
}
use lxdream.EventQueue.Write
use lxdream.EventQueue.Write.{Events}
use lxdream.EventQueue.Chain.{Chain-same}
use lxdream.EventQueue.Order.{IsSorted-same}
use lxdream.EventQueue.Dequeue.{
  without_short, without_long, unlinked, event_dequeue-eventq, event_dequeue_long-eventq,
  unlinked-SameFields,
}
use lxdream.EventQueue.Invariant.{
  IsWaiting, IsLists, IsQueue, without_short-IsLists, without_long-IsLists, same_next,
}

-- Removal moves pointers only, so it does not matter when the event's time is erased.
dequeue_walk-nanosecs :
    (fuel : ℕ) (evs : Events) (e cur t : ℕ) (p : Option ℕ)
    → dequeue_walk fuel (Write.nanosecs evs e t) e cur p
      ≡ Write.nanosecs (dequeue_walk fuel evs e cur p) e t
unfolding dequeue_walk
dequeue_walk-nanosecs zero evs e cur t none = refl
dequeue_walk-nanosecs zero evs e cur t (some n) = refl
dequeue_walk-nanosecs (suc fuel) evs e cur t none = refl
dequeue_walk-nanosecs (suc fuel) evs e cur t (some n) = elim (Bool-cases (e == n)) [
  | inl h ↦ rw h
  | inr h ↦ rw h (dequeue_walk-nanosecs fuel evs e n t (evs n).next)
]

unlinked-nanosecs :
    (e : ℕ) (evs : Events) (t : ℕ) (p : Option ℕ)
    → unlinked e (Write.nanosecs evs e t) p
      ≡ (Write.nanosecs (unlinked e evs p).0 e t, (unlinked e evs p).1)
unfolding unlinked
unlinked-nanosecs e evs t none = refl
unlinked-nanosecs e evs t (some h) = elim (Bool-cases (e == h)) [
  | inl same ↦ rw same
  | inr other ↦ rw (other, dequeue_walk-nanosecs max_event_id evs e h t (evs h).next)
]

-- New values for the fields of an event that is in no list.
module _ (e : ℕ) (q : EventQueue) (short long : List ℕ) (evs' : Events)
    (next : (a : ℕ) → (evs' a).next ≡ (q.events a).next)
    (nanosecs : (a : ℕ) → (a == e) ≡ false → (evs' a).nanosecs ≡ (q.events a).nanosecs)
    (seconds : (a : ℕ) → (a == e) ≡ false → (evs' a).seconds ≡ (q.events a).seconds)
    (id : (a : ℕ) → (a == e) ≡ false → (evs' a).id ≡ (q.events a).id) (es : has e short ≡ false)
    (el : has e long ≡ false) (l : IsLists q short long) where
  pub other_IsLists : IsLists (record q { events = evs' }) short long
  other_IsLists =
      let in_short : (a : ℕ) → has a short ≡ true → (a == e) ≡ false = λ a m. ground arith in
      let in_long : (a : ℕ) → has a long ≡ true → (a == e) ≡ false = λ a m. ground arith in
      let waiting : (a : ℕ) → (a == e) ≡ false → IsWaiting q.events a → IsWaiting evs' a = λ a ne w.
        record { known = w.known; named = id a ne ∙ w.named; timed = rw (nanosecs a ne) w.timed } in
      record {
        short_chain =
            Chain-same q.events evs' q.event_head short
              (same_next q.events evs' short (λ a m. next a)) l.short_chain;
        long_chain =
            Chain-same q.events evs' q.long_event_head long
              (same_next q.events evs' long (λ a m. next a)) l.long_chain;
        short_distinct = l.short_distinct;
        long_distinct = l.long_distinct;
        apart = l.apart;
        sorted = IsSorted-same q.events evs' short (λ a m. nanosecs a (in_short a m)) l.sorted;
        short_waiting = λ a m. waiting a (in_short a m) (l.short_waiting a m);
        long_waiting = λ a m. waiting a (in_long a m) (l.long_waiting a m);
        short_seconds = λ a m. seconds a (in_short a m) ∙ l.short_seconds a m;
        long_seconds = λ a m z. l.long_seconds a m (sym (seconds a (in_long a m)) ∙ z);
      }

-- The queue after `event_cancel`.
unfoldable pub cancelled : ℕ → EventQueue → EventQueue
cancelled e q =
    if (q.events e).nanosecs == not_scheduled
    then q
    else let q' = record q { events = Write.nanosecs q.events e not_scheduled } in
      if (q.events e).seconds == 0 then without_short e q' else without_long e q'

pub event_cancel-eventq : (e : ℕ) (m : Machine) → (event_cancel e m).eventq ≡ cancelled e m.eventq
unfolding event_cancel cancelled
event_cancel-eventq e m =
    let q = m.eventq in
    let m' = with_queue (record q { events = Write.nanosecs q.events e not_scheduled }) m in
    ground (arith, event_dequeue-eventq e m', event_dequeue_long-eventq e m')

pub cancel_if_scheduled-eventq :
    (e : ℕ) (m : Machine) → (cancel_if_scheduled e m).eventq ≡ cancelled e m.eventq
unfolding cancelled
cancel_if_scheduled-eventq e m = ground (arith, event_cancel-eventq e m)

-- Cancelling an event takes it out of the list that holds it, and marks it.
module _ (e : ℕ) (q : EventQueue) (short long : List ℕ) (i : IsQueue q short long) where
  pub cancelled_idle :
      (q.events e).nanosecs ≡ not_scheduled → (has e short ≡ false) × (has e long ≡ false)
  cancelled_idle t = (
    elim (Bool-cases (has e short)) [
      | inl m ↦ let w = (i.lists.short_waiting e m).timed in absurd (omega arith)
      | inr h ↦ h
    ],
    elim (Bool-cases (has e long)) [
      | inl m ↦ let w = (i.lists.long_waiting e m).timed in absurd (omega arith)
      | inr h ↦ h
    ],
  )

  pub scheduled_short :
      e < max_event_id
      → (q.events e).nanosecs ≢ not_scheduled
      → (q.events e).seconds ≡ 0
      → (has e short ≡ true) × (has e long ≡ false)
  scheduled_short k t s = ground (arith, i.lists.apart e, i.lists.long_seconds e, i.idle e k)

  pub scheduled_long :
      e < max_event_id
      → (q.events e).nanosecs ≢ not_scheduled
      → (q.events e).seconds ≢ 0
      → (has e short ≡ false) × (has e long ≡ true)
  scheduled_long k t s = ground (arith, i.lists.apart e, i.lists.short_seconds e, i.idle e k)

-- Marking an event that is in no list, when all others that are in no list are marked.
pub marked-IsQueue :
    (e : ℕ) (q : EventQueue) (short long : List ℕ)
    → IsLists q short long
    → has e short ≡ false
    → has e long ≡ false
    → ((a : ℕ)
        → a < max_event_id
        → (a == e) ≡ false
        → has a short ≡ false
        → has a long ≡ false
        → (q.events a).nanosecs ≡ not_scheduled)
    → IsQueue (record q { events = Write.nanosecs q.events e not_scheduled }) short long
marked-IsQueue e q short long l es el idle = record {
  lists =
      other_IsLists e q short long (Write.nanosecs q.events e not_scheduled) (λ a. refl)
        (λ a ne. ground arith) (λ a ne. refl) (λ a ne. refl) es el l;
  idle = λ a k m n. ground (arith, idle a k);
}

module _ (e : ℕ) (q : EventQueue) where
  abbrev marked : EventQueue → EventQueue
  marked q' = record q' { events = Write.nanosecs q'.events e not_scheduled }

  cancelled_none : (q.events e).nanosecs ≡ not_scheduled → cancelled e q ≡ q
  unfolding cancelled
  cancelled_none t = rw t

  cancelled_short :
      (q.events e).nanosecs ≢ not_scheduled
      → (q.events e).seconds ≡ 0
      → cancelled e q ≡ marked (without_short e q)
  unfolding cancelled
  cancelled_short t s =
      let h : ((q.events e).nanosecs == not_scheduled) ≡ false = ground arith in
      rw (h, s, unlinked-nanosecs e q.events not_scheduled q.event_head)

  cancelled_long :
      (q.events e).nanosecs ≢ not_scheduled
      → (q.events e).seconds ≢ 0
      → cancelled e q ≡ marked (without_long e q)
  unfolding cancelled
  cancelled_long t s =
      let h : ((q.events e).nanosecs == not_scheduled) ≡ false = ground arith in
      let k : ((q.events e).seconds == 0) ≡ false = ground arith in
      rw (h, k, unlinked-nanosecs e q.events not_scheduled q.long_event_head)

-- `event_cancel` takes the event out of the list that holds it, and marks it.
module _ (e : ℕ) (q : EventQueue) (short long : List ℕ) (i : IsQueue q short long)
    (k : e < max_event_id) where
  abbrev Cancelled : EventQueue → Type 0
  Cancelled q' =
      IsQueue q' (erase e short) (erase e long) × ((q'.events e).nanosecs ≡ not_scheduled)

  Cancelled-none : (q.events e).nanosecs ≡ not_scheduled → Cancelled q
  Cancelled-none t =
      let (es, el) = cancelled_idle e q short long i t in
      (rw (erase_absent e short es, erase_absent e long el) i, t)

  Cancelled-short :
      (q.events e).nanosecs ≢ not_scheduled
      → (q.events e).seconds ≡ 0
      → Cancelled (marked e q (without_short e q))
  Cancelled-short t s =
      let (es, el) = scheduled_short e q short long i k t s in
      let same = unlinked-SameFields e q.events q.event_head in
      (
        rw (erase_absent e long el) (
            marked-IsQueue e (without_short e q) (erase e short) long
              (without_short-IsLists e q short long i.lists)
              (has-erase_self e short i.lists.short_distinct) el
              (λ a b ne m n. same.nanosecs a ∙ i.idle a b (sym (has-erase_ne a e short ne) ∙ m) n)),
        ground arith,
      )

  Cancelled-long :
      (q.events e).nanosecs ≢ not_scheduled
      → (q.events e).seconds ≢ 0
      → Cancelled (marked e q (without_long e q))
  Cancelled-long t s =
      let (es, el) = scheduled_long e q short long i k t s in
      let same = unlinked-SameFields e q.events q.long_event_head in
      (
        rw (erase_absent e short es) (
            marked-IsQueue e (without_long e q) short (erase e long)
              (without_long-IsLists e q short long i.lists) es
              (has-erase_self e long i.lists.long_distinct)
              (λ a b ne m n. same.nanosecs a ∙ i.idle a b m (sym (has-erase_ne a e long ne) ∙ n))),
        ground arith,
      )

  pub cancelled-IsQueue : Cancelled (cancelled e q)
  cancelled-IsQueue = elim (ℕ_discrete (q.events e).nanosecs not_scheduled) [
    | yes t ↦ rw (cancelled_none e q t) (Cancelled-none t)
    | no t ↦ elim (ℕ_discrete (q.events e).seconds 0) [
      | yes s ↦ rw (cancelled_short e q t s) (Cancelled-short t s)
      | no s ↦ rw (cancelled_long e q t s) (Cancelled-long t s)
    ]
  ]

-- On a queue in order, `event_cancel` takes the event out of whichever list holds it, leaves the
-- rest of both lists in order, and marks the event as not scheduled; cancelling an event that is
-- not scheduled changes neither list.
pub event_cancel-IsQueue :
    (e : ℕ) (m : Machine) (short long : List ℕ)
    → e < max_event_id
    → IsQueue m.eventq short long
    → IsQueue (event_cancel e m).eventq (erase e short) (erase e long)
      × (((event_cancel e m).eventq.events e).nanosecs ≡ not_scheduled)
event_cancel-IsQueue e m short long k i =
    rw (event_cancel-eventq e m) (cancelled-IsQueue e m.eventq short long i k)

-- Of the processor's state cancelling changes at most what is pending.
event_cancel-slice_cycle :
    (e : ℕ) (m : Machine) → (event_cancel e m).cpu.slice_cycle ≡ m.cpu.slice_cycle
unfolding event_cancel event_dequeue event_dequeue_long event_update_pending
event_cancel-slice_cycle e m = ground arith

pub cancel_if_scheduled-slice_cycle :
    (e : ℕ) (m : Machine) → (cancel_if_scheduled e m).cpu.slice_cycle ≡ m.cpu.slice_cycle
cancel_if_scheduled-slice_cycle e m = ground (arith, event_cancel-slice_cycle e m)
