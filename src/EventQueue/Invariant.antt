-- ===== src/EventQueue/Invariant.antt =====
-- The invariant of eventq.c's two lists, and how insertion and removal keep it.
use lxdream.Base.{
  ℕ, ◌≤◌, ◌<◌, ◌≡◌, ◌≢◌, sym, ◌∙◌, inl, inr, true, false, List, [], ◌∷◌, arith, ◌==◌, length, has,
  Distinct, erase, Bool-cases, pigeonhole, erase-Distinct, has-erase_ne, has-erase_self,
}
use mathlib.Core.Path.{subst}
use lxdream.Machine.{EventQueue}
use lxdream.EventQueue.{max_event_id, not_scheduled}
use lxdream.EventQueue.Write.{Events}
use lxdream.EventQueue.Chain.{Chain, Chain-same, SameNext, insert}
use lxdream.EventQueue.Order.{
  IsSorted, insert-IsSorted, erase-IsSorted, IsSorted-same, has-insert, insert-Distinct,
}
use lxdream.EventQueue.Enqueue.{
  enqueued, enqueued-SameFields, enqueued-long_head, enqueued-outside, enqueued-insert,
}
use lxdream.EventQueue.Dequeue.{
  without_short, without_long, unlinked, unlinked-SameFields, unlinked-outside, unlinked-erase,
}

-- An event that waits in a list: its number, its own name, and a time that is set.
pub record IsWaiting (evs : Events) (a : ℕ) : Type 0 where
  pub known : a < max_event_id
  pub named : (evs a).id ≡ a
  pub timed : (evs a).nanosecs < not_scheduled

-- The short list is `short` and the long list is `long`.
pub record IsLists (q : EventQueue) (short long : List ℕ) : Type 0 where
  pub short_chain : Chain q.events q.event_head short
  pub long_chain : Chain q.events q.long_event_head long
  pub short_distinct : Distinct short
  pub long_distinct : Distinct long
  pub apart : (a : ℕ) → has a short ≡ true → has a long ≡ false
  pub sorted : IsSorted q.events short
  pub short_waiting : (a : ℕ) → has a short ≡ true → IsWaiting q.events a
  pub long_waiting : (a : ℕ) → has a long ≡ true → IsWaiting q.events a
  pub short_seconds : (a : ℕ) → has a short ≡ true → (q.events a).seconds ≡ 0
  pub long_seconds : (a : ℕ) → has a long ≡ true → (q.events a).seconds ≢ 0

-- Moreover every event that is in neither list is marked as not scheduled.
pub record IsQueue (q : EventQueue) (short long : List ℕ) : Type 0 where
  pub lists : IsLists q short long
  pub idle :
      (a : ℕ)
      → a < max_event_id
      → has a short ≡ false
      → has a long ≡ false
      → (q.events a).nanosecs ≡ not_scheduled

module _ {q : EventQueue} {short long : List ℕ} (l : IsLists q short long) where
  pub short_fits : length short ≤ max_event_id
  short_fits = pigeonhole max_event_id short l.short_distinct (λ a m. (l.short_waiting a m).known)

  pub long_fits : length long ≤ max_event_id
  long_fits = pigeonhole max_event_id long l.long_distinct (λ a m. (l.long_waiting a m).known)

pub same_next :
    (evs evs' : Events) (xs : List ℕ)
    → ((a : ℕ) → has a xs ≡ true → (evs' a).next ≡ (evs a).next)
    → SameNext evs evs' xs
same_next evs evs' [] h = tt
same_next evs evs' (x ∷ xs) h =
    (h x (ground arith), same_next evs evs' xs (λ a m. h a (ground arith)))

-- A list that keeps its members' fields keeps waiting.
IsWaiting-same :
    (evs evs' : Events) (a : ℕ)
    → (evs' a).nanosecs ≡ (evs a).nanosecs
    → (evs' a).id ≡ (evs a).id
    → IsWaiting evs a
    → IsWaiting evs' a
IsWaiting-same evs evs' a t i w = record {
  known = w.known;
  named = i ∙ w.named;
  timed = rw t w.timed;
}

-- `event_enqueue` of an event that is in no list yet and is due within the second.
pub enqueued-IsLists :
    (e : ℕ) (q : EventQueue) (short long : List ℕ)
    → IsLists q short long
    → has e short ≡ false
    → has e long ≡ false
    → IsWaiting q.events e
    → (q.events e).seconds ≡ 0
    → IsLists (enqueued e q) (insert q.events e short) long
enqueued-IsLists e q short long l es el w s =
    let same = enqueued-SameFields e q in
    let evs' = (enqueued e q).events in
    let waiting : (a : ℕ) → IsWaiting q.events a → IsWaiting evs' a =
      λ a. IsWaiting-same q.events evs' a (same.nanosecs a) (same.id a) in
    record {
      short_chain = enqueued-insert e q short es l.short_distinct (short_fits l) l.short_chain;
      long_chain = rw (enqueued-long_head e q) (
          Chain-same q.events evs' q.long_event_head long
            (same_next q.events evs' long (λ a m.
              enqueued-outside e q short a (short_fits l) (ground (arith, l.apart a))
                l.short_chain))
            l.long_chain);
      short_distinct = insert-Distinct q.events e short es l.short_distinct;
      long_distinct = l.long_distinct;
      apart = λ a m. ground (arith, has-insert q.events e a short, l.apart a);
      sorted =
          IsSorted-same q.events evs' (insert q.events e short) (λ a m. same.nanosecs a)
            (insert-IsSorted q.events e short l.sorted);
      short_waiting = λ a m. waiting a (elim (Bool-cases (a == e)) [
        | inl h ↦ let a_is_e : a ≡ e = ground arith in subst (IsWaiting q.events) (sym a_is_e) w
        | inr h ↦ l.short_waiting a (ground (arith, has-insert q.events e a short))
      ]);
      long_waiting = λ a m. waiting a (l.long_waiting a m);
      short_seconds =
          λ a m. ground (arith, has-insert q.events e a short, l.short_seconds a, same.seconds a);
      long_seconds = λ a m. ground (arith, l.long_seconds a m, same.seconds a);
    }

-- Taking the event out of whichever list holds it.
module _ (e : ℕ) (q : EventQueue) (short long : List ℕ) (l : IsLists q short long) where
  pub without_short-IsLists : IsLists (without_short e q) (erase e short) long
  without_short-IsLists =
      let same = unlinked-SameFields e q.events q.event_head in
      let evs' = (unlinked e q.events q.event_head).0 in
      let stay : (a : ℕ) → has a (erase e short) ≡ true → has a short ≡ true =
        λ a m. ground (arith, has-erase_ne a e short, has-erase_self e short l.short_distinct) in
      record {
        short_chain =
            unlinked-erase e q.events q.event_head short l.short_distinct (short_fits l)
              l.short_chain;
        long_chain =
            Chain-same q.events evs' q.long_event_head long
              (same_next q.events evs' long (λ a m.
                unlinked-outside e q.events q.event_head short a (short_fits l)
                  (ground (arith, l.apart a)) l.short_chain))
              l.long_chain;
        short_distinct = erase-Distinct e short l.short_distinct;
        long_distinct = l.long_distinct;
        apart = λ a m. l.apart a (stay a m);
        sorted =
            IsSorted-same q.events evs' (erase e short) (λ a m. same.nanosecs a)
              (erase-IsSorted q.events e short l.sorted);
        short_waiting = λ a m.
            IsWaiting-same q.events evs' a (same.nanosecs a) (same.id a)
              (l.short_waiting a (stay a m));
        long_waiting = λ a m.
            IsWaiting-same q.events evs' a (same.nanosecs a) (same.id a) (l.long_waiting a m);
        short_seconds = λ a m. same.seconds a ∙ l.short_seconds a (stay a m);
        long_seconds = λ a m z. l.long_seconds a m (sym (same.seconds a) ∙ z);
      }

  pub without_long-IsLists : IsLists (without_long e q) short (erase e long)
  without_long-IsLists =
      let same = unlinked-SameFields e q.events q.long_event_head in
      let evs' = (unlinked e q.events q.long_event_head).0 in
      let stay : (a : ℕ) → has a (erase e long) ≡ true → has a long ≡ true =
        λ a m. ground (arith, has-erase_ne a e long, has-erase_self e long l.long_distinct) in
      record {
        short_chain =
            Chain-same q.events evs' q.event_head short
              (same_next q.events evs' short (λ a m.
                unlinked-outside e q.events q.long_event_head long a (long_fits l) (l.apart a m)
                  l.long_chain))
              l.short_chain;
        long_chain =
            unlinked-erase e q.events q.long_event_head long l.long_distinct (long_fits l)
              l.long_chain;
        short_distinct = l.short_distinct;
        long_distinct = erase-Distinct e long l.long_distinct;
        apart = λ a m. ground (arith, l.apart a m, stay a);
        sorted = IsSorted-same q.events evs' short (λ a m. same.nanosecs a) l.sorted;
        short_waiting = λ a m.
            IsWaiting-same q.events evs' a (same.nanosecs a) (same.id a) (l.short_waiting a m);
        long_waiting = λ a m.
            IsWaiting-same q.events evs' a (same.nanosecs a) (same.id a)
              (l.long_waiting a (stay a m));
        short_seconds = λ a m. same.seconds a ∙ l.short_seconds a m;
        long_seconds = λ a m z. l.long_seconds a (stay a m) (sym (same.seconds a) ∙ z);
      }
