-- ===== src/EventQueue/Pending.antt =====
-- `sh4r.event_pending`: while no interrupt is pending, the processor knows the time of the first
-- event of the short list (eventq.c, event_update_pending).
use lxdream.Base.{
  ℕ, ◌≤◌, ◌<◌, ◌≡◌, ◌≢◌, refl, sym, ◌∙◌, ap, inl, inr, true, false, none, some, List, [], ◌∷◌,
  arith, ltb, ◌==◌, has, erase, Bool-cases, Option-cases, ne_of_has, has-erase_self, add32, any_set,
  bit_or, bit_and,
}
use native.Mathlib.Decide.{ℕ_discrete}
use lxdream.Base.Bits.{bit_and-one, bit_or-mod_two, bit_and-mod_two}
use lxdream.Machine.{Cpu, EventQueue, Machine}
use lxdream.EventQueue.{
  max_event_id, not_scheduled, with_queue, event_get_next_time, pending_irq, pending_event,
  all_but_event, event_update_pending, event_dequeue, event_dequeue_long, event_cancel,
  event_enqueue, event_schedule, cancel_if_scheduled, set_event, enqueue_head, enqueue_behind,
  dequeue_walk,
}
use lxdream.EventQueue.Write
use lxdream.EventQueue.Chain.{Chain}
use lxdream.EventQueue.Order.{IsSorted, AllFrom}
use lxdream.EventQueue.Invariant.{IsQueue}
use lxdream.EventQueue.Dequeue.{dequeue_walk-SameFields}
use lxdream.EventQueue.Cancel.{cancelled-IsQueue, cancel_if_scheduled-eventq, scheduled_long}

abbrev pub IsSynced : Machine → Type 0
IsSynced m =
    any_set m.cpu.event_types pending_irq ≡ false
    → m.cpu.event_pending ≡ event_get_next_time m.eventq

irq_after_or : (t : ℕ) → any_set (bit_or t pending_event) pending_irq ≡ any_set t pending_irq
irq_after_or t = rw (bit_and-one (bit_or t 2), bit_and-one t, bit_or-mod_two t 2) (ground arith)

irq_after_and : (t : ℕ) → any_set (bit_and t all_but_event) pending_irq ≡ any_set t pending_irq
irq_after_and t =
    rw (bit_and-one (bit_and t all_but_event), bit_and-one t, bit_and-mod_two t all_but_event)
      (ground arith)

pub event_update_pending-IsSynced : (m : Machine) → IsSynced (event_update_pending m)
unfolding event_update_pending event_get_next_time
event_update_pending-IsSynced m =
    ground (arith, irq_after_or m.cpu.event_types, irq_after_and m.cpu.event_types)

-- What leaves the first event's time alone keeps the processor's time right.
IsSynced-same :
    (m m' : Machine)
    → m'.cpu ≡ m.cpu
    → event_get_next_time m'.eventq ≡ event_get_next_time m.eventq
    → IsSynced m
    → IsSynced m'
IsSynced-same m m' c t h irq =
    ap Cpu.event_pending c ∙ h (sym (ap (λ c. any_set c.event_types pending_irq) c) ∙ irq) ∙ sym t

next_time_some :
    (q : EventQueue) (x : ℕ) → q.event_head ≡ some x → event_get_next_time q ≡ (q.events x).nanosecs
unfolding event_get_next_time
next_time_some q x h = rw h

next_time_none : (q : EventQueue) → q.event_head ≡ none → event_get_next_time q ≡ not_scheduled
unfolding event_get_next_time
next_time_none q h = rw h

AllFrom-has :
    (q : EventQueue) (t a : ℕ) (xs : List ℕ)
    → AllFrom q.events t xs
    → has a xs ≡ true
    → t ≤ (q.events a).nanosecs
AllFrom-has q t a [] h m = cc
AllFrom-has q t a (x ∷ xs) h m = ground (arith, AllFrom-has q t a xs h.1)

pub first_earliest :
    (q : EventQueue) (xs : List ℕ) (a : ℕ)
    → Chain q.events q.event_head xs
    → IsSorted q.events xs
    → has a xs ≡ true
    → event_get_next_time q ≤ (q.events a).nanosecs
first_earliest q [] a c s m = cc
first_earliest q (x ∷ xs) a c s m =
    rw (next_time_some q x c.0) (ground (arith, AllFrom-has q (q.events x).nanosecs a xs s.0))

-- The events may change so long as the first one keeps its time.
same_next_time :
    (m : Machine) (q : EventQueue)
    → q.event_head ≡ m.eventq.event_head
    → ((x : ℕ)
        → m.eventq.event_head ≡ some x
        → (q.events x).nanosecs ≡ (m.eventq.events x).nanosecs)
    → event_get_next_time q ≡ event_get_next_time m.eventq
same_next_time m q h t = elim (Option-cases m.eventq.event_head) [
  | inl n ↦ next_time_none q (h ∙ n) ∙ sym (next_time_none m.eventq n)
  | inr (x, e) ↦ next_time_some q x (h ∙ e) ∙ t x e ∙ sym (next_time_some m.eventq x e)
]

with_queue-IsSynced :
    (m : Machine) (q : EventQueue)
    → q.event_head ≡ m.eventq.event_head
    → ((x : ℕ)
        → m.eventq.event_head ≡ some x
        → (q.events x).nanosecs ≡ (m.eventq.events x).nanosecs)
    → IsSynced m
    → IsSynced (with_queue q m)
with_queue-IsSynced m q h t s = IsSynced-same m (with_queue q m) refl (same_next_time m q h t) s

-- Removing the first event of the short list tells the processor; no other removal need to.
event_dequeue-IsSynced :
    (e : ℕ) (m : Machine)
    → (m.eventq.event_head ≢ some e → IsSynced m)
    → IsSynced (event_dequeue e m)
unfolding event_dequeue
event_dequeue-IsSynced e m s = elim (Option-cases m.eventq.event_head) [
  | inl h ↦ rw (h, event_dequeue) (s (ground arith))
  | inr (x, h) ↦
      let q = m.eventq in
      elim (Bool-cases (e == x)) [
        | inl y ↦
            rw (h, event_dequeue, y)
              (event_update_pending-IsSynced
                (with_queue (record q { event_head = (q.events x).next }) m))
        | inr n ↦
            rw (h, event_dequeue, n)
              (with_queue-IsSynced m
                (record q { events = dequeue_walk max_event_id q.events e x (q.events x).next })
                refl
                (λ y g.
                  (dequeue_walk-SameFields max_event_id q.events e x (q.events x).next).nanosecs y)
                (s (ground arith)))
      ]
]

event_dequeue_long-IsSynced : (e : ℕ) (m : Machine) → IsSynced m → IsSynced (event_dequeue_long e m)
unfolding event_dequeue_long
event_dequeue_long-IsSynced e m s = elim (Option-cases m.eventq.long_event_head) [
  | inl h ↦ rw (h, event_dequeue_long) s
  | inr (x, h) ↦
      let q = m.eventq in
      elim (Bool-cases (e == x)) [
        | inl y ↦
            rw (h, event_dequeue_long, y)
              (with_queue-IsSynced m (record q { long_event_head = (q.events x).next }) refl
                (λ y g. refl) s)
        | inr n ↦
            rw (h, event_dequeue_long, n)
              (with_queue-IsSynced m
                (record q { events = dequeue_walk max_event_id q.events e x (q.events x).next })
                refl
                (λ y g.
                  (dequeue_walk-SameFields max_event_id q.events e x (q.events x).next).nanosecs y)
                s)
      ]
]

head-has :
    (q : EventQueue) (xs : List ℕ) (x : ℕ)
    → Chain q.events q.event_head xs
    → q.event_head ≡ some x
    → has x xs ≡ true
head-has q [] x c h = cc
head-has q (y ∷ ys) x c h = ground arith

-- On a queue in order, if `event_pending` is the time of the first event while no interrupt is
-- pending, that stays so when an event is cancelled.
pub event_cancel-IsSynced :
    (e : ℕ) (m : Machine) (short long : List ℕ)
    → e < max_event_id
    → IsQueue m.eventq short long
    → IsSynced m
    → IsSynced (event_cancel e m)
unfolding event_cancel
event_cancel-IsSynced e m short long k i s =
    let q = m.eventq in
    let m' = with_queue (record q { events = Write.nanosecs q.events e not_scheduled }) m in
    let marked : q.event_head ≢ some e → IsSynced m' =
      λ ne. with_queue-IsSynced m m'.eventq refl (λ x g. ground arith) s in
    elim (ℕ_discrete (q.events e).nanosecs not_scheduled) [
      | yes t ↦ rw (event_cancel, t) s
      | no t ↦
          let u : ((q.events e).nanosecs == not_scheduled) ≡ false = ground arith in
          elim (ℕ_discrete (q.events e).seconds 0) [
            | yes z ↦ rw (event_cancel, u, z) (event_dequeue-IsSynced e m' marked)
            | no z ↦
                let v : ((q.events e).seconds == 0) ≡ false = ground arith in
                let (es, el) = scheduled_long e q short long i k t z in
                rw (event_cancel, u, v)
                  (event_dequeue_long-IsSynced e m'
                    (marked (λ g. ground (arith, head-has q short e i.lists.short_chain g))))
          ]
    ]

cancel_if_scheduled-IsSynced :
    (e : ℕ) (m : Machine) (short long : List ℕ)
    → e < max_event_id
    → IsQueue m.eventq short long
    → IsSynced m
    → IsSynced (cancel_if_scheduled e m)
cancel_if_scheduled-IsSynced e m short long k i s =
    elim (Bool-cases ((m.eventq.events e).nanosecs == not_scheduled)) [
      | inl t ↦ rw t s
      | inr t ↦ rw t (event_cancel-IsSynced e m short long k i s)
    ]

event_enqueue-IsSynced : (e : ℕ) (m : Machine) → IsSynced m → IsSynced (event_enqueue e m)
unfolding event_enqueue enqueue_behind
event_enqueue-IsSynced e m s =
    let q = m.eventq in
    let first : IsSynced (event_update_pending (with_queue (enqueue_head e q) m)) =
      event_update_pending-IsSynced (with_queue (enqueue_head e q) m) in
    elim (Option-cases q.event_head) [
      | inl h ↦ rw (event_enqueue, h) first
      | inr (x, h) ↦ elim (Bool-cases (ltb (q.events e).nanosecs (q.events x).nanosecs)) [
        | inl y ↦ rw (event_enqueue, h, y) first
        | inr n ↦
            rw (event_enqueue, h, n)
              (with_queue-IsSynced m (record q { events = enqueue_behind q.events e x }) refl
                (λ y g. refl) s)
      ]
    ]

-- On a queue in order, if `event_pending` is the time of the first event while no interrupt is
-- pending, that stays so when an event is scheduled.
pub event_schedule-IsSynced :
    (e ns : ℕ) (m : Machine) (short long : List ℕ)
    → e < max_event_id
    → IsQueue m.eventq short long
    → IsSynced m
    → IsSynced (event_schedule e ns m)
unfolding event_schedule
event_schedule-IsSynced e ns m short long k i s =
    let m' = cancel_if_scheduled e m in
    let q' = set_event e 0 (add32 ns m.cpu.slice_cycle) m'.eventq in
    let synced : IsSynced m' = cancel_if_scheduled-IsSynced e m short long k i s in
    let (c, idle) = cancelled-IsQueue e m.eventq short long i k in
    let chain : Chain m'.eventq.events m'.eventq.event_head (erase e short) =
      rw (cancel_if_scheduled-eventq e m) c.lists.short_chain in
    let out = has-erase_self e short i.lists.short_distinct in
    event_enqueue-IsSynced e (with_queue q' m') (
      with_queue-IsSynced m' q' refl
        (λ x g.
          let inside = head-has m'.eventq (erase e short) x chain g in
          let ne = ne_of_has e x (erase e short) inside out in ground arith)
        synced)
