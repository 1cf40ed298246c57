-- ===== src/EventQueue/Enqueue.antt =====
-- event_enqueue of eventq.c as an insertion into the short list.
use lxdream.Base.{
  ℕ, ◌≤◌, ◌≡◌, refl, inl, inr, true, false, none, some, List, [], ◌∷◌, arith, ltb, ◌==◌,
  if◌then◌else◌, length, has, Distinct, Bool-cases, ==_refl, ne_of_has,
}
use lxdream.Machine.{EventQueue, Machine}
use lxdream.EventQueue.{
  max_event_id, event_enqueue, event_update_pending, enqueue_head, enqueue_behind, with_queue,
  enqueue_walk,
}
use lxdream.EventQueue.Write.{Events}
use lxdream.EventQueue.Chain.{Chain, Chain-next, insert, enqueue_walk-insert, enqueue_walk-has}

pub event_update_pending-eventq : (m : Machine) → (event_update_pending m).eventq ≡ m.eventq
unfolding event_update_pending
event_update_pending-eventq m = ground arith

-- The queue after `event_enqueue`.
unfoldable pub enqueued : ℕ → EventQueue → EventQueue
enqueued e q = elim q.event_head [
  | none ↦ enqueue_head e q
  | some h ↦
      if ltb (q.events e).nanosecs (q.events h).nanosecs
      then enqueue_head e q
      else record q { events = enqueue_behind q.events e h }
]

pub event_enqueue-eventq : (e : ℕ) (m : Machine) → (event_enqueue e m).eventq ≡ enqueued e m.eventq
unfolding event_enqueue enqueued
event_enqueue-eventq e m =
    ground (arith, event_update_pending-eventq (with_queue (enqueue_head e m.eventq) m))

-- What a change of the lists never touches: times, ids and callbacks.
pub record SameFields (evs evs' : Events) : Type 0 where
  pub nanosecs : (a : ℕ) → (evs' a).nanosecs ≡ (evs a).nanosecs
  pub seconds : (a : ℕ) → (evs' a).seconds ≡ (evs a).seconds
  pub id : (a : ℕ) → (evs' a).id ≡ (evs a).id
  pub func : (a : ℕ) → (evs' a).func ≡ (evs a).func

pub enqueued-SameFields : (e : ℕ) (q : EventQueue) → SameFields q.events (enqueued e q).events
unfolding enqueued enqueue_behind
enqueued-SameFields e q = record {
  nanosecs = λ a. ground arith;
  seconds = λ a. ground arith;
  id = λ a. ground arith;
  func = λ a. ground arith;
}

pub enqueued-long_head :
    (e : ℕ) (q : EventQueue) → (enqueued e q).long_event_head ≡ q.long_event_head
unfolding enqueued
enqueued-long_head e q = ground arith

-- Only the event itself and events of the short list get a new pointer.
pub enqueued-outside :
    (e : ℕ) (q : EventQueue) (short : List ℕ) (a : ℕ)
    → length short ≤ max_event_id
    → has a (e ∷ short) ≡ false
    → Chain q.events q.event_head short
    → ((enqueued e q).events a).next ≡ (q.events a).next
unfolding enqueued enqueue_behind
enqueued-outside e q [] a fits out c = rw (c, enqueued) (ground arith)
enqueued-outside e q (x ∷ xs) a fits out c =
    let stop = (enqueue_walk max_event_id q.events (q.events e).nanosecs x (q.events x).next).0 in
    let inside : has stop (x ∷ xs) ≡ true =
      enqueue_walk-has max_event_id q.events (q.events e).nanosecs x (q.events x).next xs
        (omega arith) c.1 in
    let apart : (a == stop) ≡ false = ne_of_has a stop (x ∷ xs) inside (ground arith) in
    rw (c.0, enqueued) (ground arith)

pub enqueued-insert :
    (e : ℕ) (q : EventQueue) (short : List ℕ)
    → has e short ≡ false
    → Distinct short
    → length short ≤ max_event_id
    → Chain q.events q.event_head short
    → Chain (enqueued e q).events (enqueued e q).event_head (insert q.events e short)
unfolding enqueued insert enqueue_behind
enqueued-insert e q [] out d fits c = rw (c, enqueued) (refl, ground arith)
enqueued-insert e q (x ∷ xs) out d fits c =
    elim (Bool-cases (ltb (q.events e).nanosecs (q.events x).nanosecs)) [
      | inl h ↦
          let kept : Chain (enqueue_head e q).events q.event_head (x ∷ xs) =
            Chain-next q.events e q.event_head q.event_head (x ∷ xs) out c in
          rw (c.0, enqueued, h) (refl, (rw (==_refl e) c.0, kept.1))
      | inr h ↦
          rw (c.0, enqueued, h)
            (
              c.0,
              enqueue_walk-insert max_event_id q.events e x (q.events x).next xs (omega arith) out d
                  refl c.1,
            )
    ]
