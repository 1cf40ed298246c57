-- ===== src/EventQueue/Execute.antt =====
-- event_execute of eventq.c: which events it calls, and when it is done.
use lxdream.Base.{
  ℕ, zero, suc, ◌<◌, ◌≡◌, ◌≢◌, refl, ◌∙◌, inl, inr, true, false, none, some, List, [], ◌∷◌, arith,
  leb, if◌then◌else◌, length, has, Bool-cases, Option-cases,
}
use lxdream.Machine.{Callback, EventQueue, Machine}
use lxdream.EventQueue.{not_scheduled, with_queue, event_update_pending}
use lxdream.EventQueue.Write
use lxdream.EventQueue.Write.{Events}
use lxdream.EventQueue.Slice.{done, event_execute}
use lxdream.EventQueue.Enqueue.{event_update_pending-eventq}
use lxdream.EventQueue.Pending.{IsSynced, event_update_pending-IsSynced}
use lxdream.EventQueue.Invariant.{IsQueue}
use lxdream.EventQueue.Cancel.{marked-IsQueue}

-- The events of a sorted list that are due after `now`.
unfoldable pub later : Events → ℕ → List ℕ → List ℕ
later evs now [] = []
later evs now (x ∷ xs) = if leb (evs x).nanosecs now then later evs now xs else x ∷ xs

later-same :
    (evs evs' : Events) (now : ℕ) (xs : List ℕ)
    → ((a : ℕ) → has a xs ≡ true → (evs' a).nanosecs ≡ (evs a).nanosecs)
    → later evs' now xs ≡ later evs now xs
unfolding later
later-same evs evs' now [] h = refl
later-same evs evs' now (x ∷ xs) h =
    ground (arith, h x, later-same evs evs' now xs (λ a m. h a (ground arith)))

-- The events of a sorted list that are due at `now`.
unfoldable pub due_events : Events → ℕ → List ℕ → List ℕ
due_events evs now [] = []
due_events evs now (x ∷ xs) = if leb (evs x).nanosecs now then x ∷ due_events evs now xs else []

due_events-same :
    (evs evs' : Events) (now : ℕ) (xs : List ℕ)
    → ((a : ℕ) → has a xs ≡ true → (evs' a).nanosecs ≡ (evs a).nanosecs)
    → due_events evs' now xs ≡ due_events evs now xs
unfolding due_events
due_events-same evs evs' now [] h = refl
due_events-same evs evs' now (x ∷ xs) h =
    ground (arith, h x, due_events-same evs evs' now xs (λ a m. h a (ground arith)))

-- The queue once its first event is taken for its call.
abbrev pub taken : ℕ → EventQueue → EventQueue
taken e q = record q {
  event_head = (q.events e).next;
  events = Write.nanosecs q.events e not_scheduled;
}

taken-IsQueue :
    (e : ℕ) (q : EventQueue) (xs long : List ℕ)
    → IsQueue q (e ∷ xs) long
    → IsQueue (taken e q) xs long
taken-IsQueue e q xs long i =
    let l = i.lists in
    marked-IsQueue e (record q { event_head = (q.events e).next }) xs long
      (record {
        short_chain = l.short_chain.1;
        long_chain = l.long_chain;
        short_distinct = l.short_distinct.1;
        long_distinct = l.long_distinct;
        apart = λ a m. l.apart a (ground arith);
        sorted = l.sorted.1;
        short_waiting = λ a m.
            let w = l.short_waiting a (ground arith) in
            record { known = w.known; named = w.named; timed = w.timed };
        long_waiting = λ a m.
            let w = l.long_waiting a m in
            record { known = w.known; named = w.named; timed = w.timed };
        short_seconds = λ a m. l.short_seconds a (ground arith);
        long_seconds = l.long_seconds;
      })
      l.short_distinct.0 (l.apart e (ground arith)) (λ a k ne m n. i.idle a k (ground arith) n)

-- The calls of some events one after the other, each with its own number.
module _ (call : Callback → ℕ → Machine → Machine) where
  unfoldable pub run_calls : List ℕ → Machine → Machine
  run_calls [] m = m
  run_calls (x ∷ xs) m = elim (m.eventq.events x).func [
    | none ↦ m
    | some f ↦ run_calls xs (call f (m.eventq.events x).id (with_queue (taken x m.eventq) m))
  ]

-- One round of `event_execute`.
module _ (call : Callback → ℕ → Machine → Machine) (fuel : ℕ) (m : Machine) where
  execute_empty :
      m.eventq.event_head ≡ none → event_execute call (suc fuel) m ≡ done (event_update_pending m)
  unfolding event_execute
  execute_empty h = ground arith

  module _ (x : ℕ) (h : m.eventq.event_head ≡ some x) where
    execute_wait :
        leb (m.eventq.events x).nanosecs m.cpu.slice_cycle ≡ false
        → event_execute call (suc fuel) m ≡ done (event_update_pending m)
    unfolding event_execute
    execute_wait w = ground arith

    execute_call :
        (f : Callback)
        → leb (m.eventq.events x).nanosecs m.cpu.slice_cycle ≡ true
        → (m.eventq.events x).func ≡ some f
        → event_execute call (suc fuel) m
          ≡ event_execute call fuel
              (call f (m.eventq.events x).id (with_queue (taken x m.eventq) m))
    unfolding event_execute
    execute_call f d g = ground arith

module _ (call : Callback → ℕ → Machine → Machine)
    (keeps : (f : Callback) (a : ℕ) (m : Machine) → (call f a m).eventq ≡ m.eventq)
    (waits : (f : Callback) (a : ℕ) (m : Machine)
      → (call f a m).cpu.slice_cycle ≡ m.cpu.slice_cycle) where
  -- On a queue in order whose events all have a callback, if no callback touches the queue or the
  -- time, `event_execute` returns after at most one round more than there are events in the short
  -- list. It has called the events that are due at the current `slice_cycle` one after the other and
  -- no other event; those due later are left on the queue in order, and the processor waits for the
  -- first of them.
  pub event_execute-later :
      (fuel : ℕ) (m : Machine) (short long : List ℕ)
      → length short < fuel
      → ((a : ℕ) → has a short ≡ true → (m.eventq.events a).func ≢ none)
      → IsQueue m.eventq short long
      → (m' : Machine) × (event_execute call fuel m ≡ done m')
        × (m'
            ≡ event_update_pending
                (run_calls call (due_events m.eventq.events m.cpu.slice_cycle short) m))
        × IsQueue m'.eventq (later m.eventq.events m.cpu.slice_cycle short) long
        × IsSynced m'
  unfolding later due_events run_calls
  event_execute-later zero m short long fuel_left known i = absurd (omega arith)
  event_execute-later (suc fuel) m [] long fuel_left known i = (
    event_update_pending m,
    execute_empty call fuel m i.lists.short_chain,
    refl,
    rw (event_update_pending-eventq m) i,
    event_update_pending-IsSynced m,
  )
  event_execute-later (suc fuel) m (x ∷ xs) long fuel_left known i =
      elim (Bool-cases (leb (m.eventq.events x).nanosecs m.cpu.slice_cycle)) [
        | inr wait ↦ (
          event_update_pending m,
          execute_wait call fuel m x i.lists.short_chain.0 wait,
          rw wait refl,
          rw (event_update_pending-eventq m, wait) i,
          event_update_pending-IsSynced m,
        )
        | inl due ↦ elim (Option-cases (m.eventq.events x).func) [
          | inl missing ↦ absurd (known x (ground arith) missing)
          | inr (f, named) ↦
              let q = m.eventq in
              let m1 = call f (q.events x).id (with_queue (taken x q) m) in
              let queue : m1.eventq ≡ taken x q =
                keeps f (q.events x).id (with_queue (taken x q) m) in
              let now : m1.cpu.slice_cycle ≡ m.cpu.slice_cycle =
                waits f (q.events x).id (with_queue (taken x q) m) in
              let i1 : IsQueue m1.eventq xs long = rw queue (taken-IsQueue x q xs long i) in
              let same : later m1.eventq.events m1.cpu.slice_cycle xs
                  ≡ later q.events m.cpu.slice_cycle xs =
                rw (queue, now)
                  (later-same q.events (taken x q).events m.cpu.slice_cycle xs
                    (λ a k. ground (arith, i.lists.short_distinct.0))) in
              let same_due : due_events m1.eventq.events m1.cpu.slice_cycle xs
                  ≡ due_events q.events m.cpu.slice_cycle xs =
                rw (queue, now)
                  (due_events-same q.events (taken x q).events m.cpu.slice_cycle xs
                    (λ a k. ground (arith, i.lists.short_distinct.0))) in
              let known1 : (a : ℕ) → has a xs ≡ true → (m1.eventq.events a).func ≢ none =
                rw queue (λ a k. known a (ground arith)) in
              let (m', run, calls, i', synced) =
                event_execute-later fuel m1 xs long (omega arith) known1 i1 in
              (
                m',
                execute_call call fuel m x i.lists.short_chain.0 f due named ∙ run,
                rw due (rw named (rw (← same_due) calls)),
                rw due (rw (← same) i'),
                synced,
              )
        ]
      ]
