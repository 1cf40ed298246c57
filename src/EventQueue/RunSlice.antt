-- ===== src/EventQueue/RunSlice.antt =====
-- event_run_slice of eventq.c: the times of the short list move to the next slice.
use lxdream.Base.{
  ℕ, zero, suc, ◌≤◌, ◌≡◌, refl, sym, ◌∙◌, true, false, Option, List, [], ◌∷◌, arith, length, has,
  Distinct, sub32,
}
use lxdream.Machine.{EventQueue, Machine}
use lxdream.EventQueue.{max_event_id, with_queue, event_update_pending}
use lxdream.EventQueue.Write
use lxdream.EventQueue.Write.{Events}
use lxdream.EventQueue.Slice.{slice_walk, remaining, not_positive, event_run_slice}
use lxdream.EventQueue.Enqueue.{event_update_pending-eventq}
use lxdream.EventQueue.Pending.{IsSynced, event_update_pending-IsSynced}
use lxdream.EventQueue.Chain.{Chain, Chain-same}
use lxdream.EventQueue.Order.{IsSorted, AllFrom}
use lxdream.EventQueue.Invariant.{IsLists, IsQueue, same_next, short_fits}

-- One field-wise description of the walk along a list.
record IsSliced (slice : ℕ) (xs : List ℕ) (evs evs' : Events) : Type 0 where
  pub inside : (a : ℕ) → has a xs ≡ true → (evs' a).nanosecs ≡ remaining slice (evs a).nanosecs
  pub outside : (a : ℕ) → has a xs ≡ false → (evs' a).nanosecs ≡ (evs a).nanosecs
  pub seconds : (a : ℕ) → (evs' a).seconds ≡ (evs a).seconds
  pub id : (a : ℕ) → (evs' a).id ≡ (evs a).id
  pub func : (a : ℕ) → (evs' a).func ≡ (evs a).func
  pub next : (a : ℕ) → (evs' a).next ≡ (evs a).next

IsSliced-nothing : (slice : ℕ) (evs : Events) → IsSliced slice [] evs evs
IsSliced-nothing slice evs = record {
  inside = λ a m. cc;
  outside = λ a m. refl;
  seconds = λ a. refl;
  id = λ a. refl;
  func = λ a. refl;
  next = λ a. refl;
}

slice_walk-IsSliced :
    (fuel slice : ℕ) (p : Option ℕ) (xs : List ℕ) (evs : Events)
    → length xs ≤ fuel
    → Distinct xs
    → Chain evs p xs
    → IsSliced slice xs evs (slice_walk fuel slice p evs)
unfolding slice_walk
slice_walk-IsSliced zero slice p [] evs fits d c = rw c (IsSliced-nothing slice evs)
slice_walk-IsSliced (suc fuel) slice p [] evs fits d c = rw c (IsSliced-nothing slice evs)
slice_walk-IsSliced zero slice p (x ∷ xs) evs fits d c = absurd (omega arith)
slice_walk-IsSliced (suc fuel) slice p (x ∷ xs) evs fits d c =
    let evs' = Write.nanosecs evs x (remaining slice (evs x).nanosecs) in
    let same = Chain-same evs evs' (evs x).next xs (same_next evs evs' xs (λ a m. refl)) c.1 in
    let rest = slice_walk-IsSliced fuel slice (evs x).next xs evs' (omega arith) d.1 same in
    rw c.0 (record {
      inside = λ a m. ground (arith, rest.inside a, rest.outside a);
      outside = λ a m. ground (arith, rest.outside a);
      seconds = rest.seconds;
      id = rest.id;
      func = rest.func;
      next = rest.next;
    })

-- Moving all times of a list to the next slice keeps their order.
sliced-AllFrom :
    (slice t : ℕ) (evs evs' : Events) (xs : List ℕ)
    → ((a : ℕ) → has a xs ≡ true → (evs' a).nanosecs ≡ remaining slice (evs a).nanosecs)
    → AllFrom evs t xs
    → AllFrom evs' (remaining slice t) xs
sliced-AllFrom slice t evs evs' [] h a = tt
sliced-AllFrom slice t evs evs' (x ∷ xs) h a =
    (ground (arith, h x), sliced-AllFrom slice t evs evs' xs (λ b m. h b (ground arith)) a.1)

sliced-IsSorted :
    (slice : ℕ) (evs evs' : Events) (xs : List ℕ)
    → ((a : ℕ) → has a xs ≡ true → (evs' a).nanosecs ≡ remaining slice (evs a).nanosecs)
    → IsSorted evs xs
    → IsSorted evs' xs
sliced-IsSorted slice evs evs' [] h s = tt
sliced-IsSorted slice evs evs' (x ∷ xs) h s =
    let later : (a : ℕ) → has a xs ≡ true → (evs' a).nanosecs ≡ remaining slice (evs a).nanosecs =
      λ a m. h a (ground arith) in
    let e : (evs' x).nanosecs ≡ remaining slice (evs x).nanosecs = h x (ground arith) in
    (
      rw e (sliced-AllFrom slice (evs x).nanosecs evs evs' xs later s.0),
      sliced-IsSorted slice evs evs' xs later s.1,
    )

module _ (slice left : ℕ) (q : EventQueue) (short long : List ℕ) (i : IsQueue q short long) where
  abbrev sliced : Events
  sliced = slice_walk max_event_id slice q.event_head q.events

  walked : IsSliced slice short q.events sliced
  walked =
      slice_walk-IsSliced max_event_id slice q.event_head short q.events (short_fits i.lists)
        i.lists.short_distinct i.lists.short_chain

  sliced-IsLists :
      IsLists (record q { events = sliced; long_scan_time_remaining = left }) short long
  sliced-IsLists =
      let l = i.lists in
      record {
        short_chain =
            Chain-same q.events sliced q.event_head short
              (same_next q.events sliced short (λ a m. walked.next a)) l.short_chain;
        long_chain =
            Chain-same q.events sliced q.long_event_head long
              (same_next q.events sliced long (λ a m. walked.next a)) l.long_chain;
        short_distinct = l.short_distinct;
        long_distinct = l.long_distinct;
        apart = l.apart;
        sorted = sliced-IsSorted slice q.events sliced short walked.inside l.sorted;
        short_waiting = λ a m.
            let w = l.short_waiting a m in
            record {
              known = w.known;
              named = walked.id a ∙ w.named;
              timed = ground (arith, walked.inside a m, w.timed);
            };
        long_waiting = λ a m.
            let w = l.long_waiting a m in
            record {
              known = w.known;
              named = walked.id a ∙ w.named;
              timed = ground (arith, walked.outside a, l.apart a, w.timed);
            };
        short_seconds = λ a m. walked.seconds a ∙ l.short_seconds a m;
        long_seconds = λ a m z. l.long_seconds a m (sym (walked.seconds a) ∙ z);
      }

  pub sliced-IsQueue :
      IsQueue (record q { events = sliced; long_scan_time_remaining = left }) short long
  sliced-IsQueue = record {
    lists = sliced-IsLists;
    idle = λ a k m n. walked.outside a m ∙ i.idle a k m n;
  }

-- `event_run_slice`, in a slice at whose end the long list is not scanned, keeps both lists as
-- they are and in order, takes the slice's length off the time of each event of the short list
-- (down to 0), leaves the long list's times, and leaves the processor waiting for the first event.
pub event_run_slice-IsQueue :
    (slice : ℕ) (m : Machine) (short long : List ℕ)
    → IsQueue m.eventq short long
    → not_positive (sub32 m.eventq.long_scan_time_remaining slice) ≡ false
    → let m' = event_run_slice slice m in
      IsQueue m'.eventq short long
      × IsSynced m'
      × ((a : ℕ)
          → has a short ≡ true
          → (m'.eventq.events a).nanosecs ≡ remaining slice (m.eventq.events a).nanosecs)
      × ((a : ℕ)
          → has a short ≡ false
          → (m'.eventq.events a).nanosecs ≡ (m.eventq.events a).nanosecs)
event_run_slice-IsQueue slice m short long i quiet =
    let q = m.eventq in
    let left = sub32 q.long_scan_time_remaining slice in
    let evs = slice_walk max_event_id slice q.event_head q.events in
    let m1 = with_queue (record q { events = evs; long_scan_time_remaining = left }) m in
    let w = walked slice left q short long i in
    let e : event_run_slice slice m ≡ event_update_pending m1 =
      unfold event_run_slice in rw quiet in
    let after : (event_run_slice slice m).eventq ≡ m1.eventq =
      rw e (event_update_pending-eventq m1) in
    (
      rw after (sliced-IsQueue slice left q short long i),
      rw e (event_update_pending-IsSynced m1),
      λ a k. rw after (w.inside a k),
      λ a k. rw after (w.outside a k),
    )
