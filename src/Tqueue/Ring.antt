-- ===== src/Tqueue/Ring.antt =====
-- The ring buffer of tqueue.c as a queue: a list that grows at its end and shrinks at its front.
use lxdream.Base.{
  ℕ, suc, ◌<◌, ◌≡◌, refl, sym, ◌∙◌, ap, inl, inr, Bool, true, false, Option, none, some, List, [],
  ◌∷◌, ◌++◌, arith, ◌==◌, if◌then◌else◌, length, Bool-cases, span, slots, length-slots, slots-push,
}
use lxdream.Tqueue.{
  tqueue_length, TqueueEntry, Tqueue, tqueue_empty, tqueue_full, next_index, tqueue_enqueue,
  tqueue_take,
}

pub record IsRing (q : Tqueue) : Type 0 where
  pub head_fits : q.head < tqueue_length
  pub tail_fits : q.tail < tqueue_length

abbrev pub size : Tqueue → ℕ
size q = span tqueue_length q.head q.tail

-- The messages in the queue, the next one first.
abbrev pub contents : Tqueue → List TqueueEntry
contents q = slots tqueue_length (size q) q.head q.tqueue

pub full_lem : (q : Tqueue) → IsRing q → tqueue_full q ≡ (length (contents q) == 63)
full_lem q w =
    let a = w.head_fits in
    let b = w.tail_fits in ground (arith, length-slots tqueue_length (size q) q.head q.tqueue)

pub empty_lem : (q : Tqueue) → IsRing q → tqueue_empty q ≡ (length (contents q) == 0)
empty_lem q w =
    let a = w.head_fits in
    let b = w.tail_fits in ground (arith, length-slots tqueue_length (size q) q.head q.tqueue)

-- The queue that `tqueue_enqueue` makes.
abbrev pub put : TqueueEntry → Tqueue → Tqueue
put e q = record q { tqueue = λ i. if i == q.tail then e else q.tqueue i; tail = next_index q.tail }

put-contents :
    (e : TqueueEntry) (q : Tqueue)
    → IsRing q
    → tqueue_full q ≡ false
    → contents (put e q) ≡ contents q ++ (e ∷ [])
put-contents e q w n =
    let a = w.head_fits in
    let b = w.tail_fits in
    let grows : size (put e q) ≡ suc (size q) = ground arith in
    ap (λ k. slots tqueue_length k q.head (put e q).tqueue) grows
    ∙ slots-push tqueue_length q.head q.tail e q.tqueue a b

-- What a queue of at most 63 messages promises.
abbrev pub Spec : Type 0
Spec = List TqueueEntry

unfoldable pub enqueue_spec : TqueueEntry → Spec → Option Spec
enqueue_spec e xs = if length xs == 63 then none else some (xs ++ (e ∷ []))

unfoldable pub take_spec : Spec → Option (TqueueEntry × Spec)
take_spec [] = none
take_spec (x ∷ xs) = some (x, xs)

-- A result of the ring buffer that stands for a result of the specification.
abbrev pub IsSame : Option Tqueue → Option Spec → Type 0
IsSame none none = Unit
IsSame none (some xs) = ⊥
IsSame (some q) none = ⊥
IsSame (some q) (some xs) = IsRing q × (contents q ≡ xs)

-- On a ring buffer whose indices are within its array, `tqueue_enqueue` does what the specification
-- does: it fails at 63 messages, and else adds the message behind the others.
pub tqueue_enqueue-refines :
    (e : TqueueEntry) (q : Tqueue)
    → IsRing q
    → IsSame (tqueue_enqueue e q) (enqueue_spec e (contents q))
unfolding tqueue_enqueue enqueue_spec
tqueue_enqueue-refines e q w = elim (Bool-cases (tqueue_full q)) [
  | inl y ↦ rw (y, sym (full_lem q w) ∙ y) tt
  | inr n ↦
      rw (n, sym (full_lem q w) ∙ n)
        (
          record { head_fits = w.head_fits; tail_fits = let b = w.tail_fits in ground arith },
          put-contents e q w n,
        )
]

abbrev pub IsTaken : Option (TqueueEntry × Bool × Tqueue) → Option (TqueueEntry × Spec) → Type 0
IsTaken none none = Unit
IsTaken none (some x) = ⊥
IsTaken (some x) none = ⊥
IsTaken (some (e, full, q)) (some (e', xs)) = (e ≡ e') × IsRing q × (contents q ≡ xs)

abbrev pub dropped : Tqueue → Tqueue
dropped q = record q { head = next_index q.head }

contents-empty : (q : Tqueue) → IsRing q → tqueue_empty q ≡ true → contents q ≡ []
unfolding slots
contents-empty q w y =
    let e : size q ≡ 0 = (let a = w.head_fits in ground arith) in
    ap (λ n. slots tqueue_length n q.head q.tqueue) e

contents-dropped :
    (q : Tqueue)
    → IsRing q
    → tqueue_empty q ≡ false
    → contents q ≡ q.tqueue q.head ∷ contents (dropped q)
unfolding slots
contents-dropped q w n =
    let e : size q ≡ suc (size (dropped q)) =
      (let a = w.head_fits in let b = w.tail_fits in ground arith) in
    ap (λ n. slots tqueue_length n q.head q.tqueue) e

-- On a ring buffer whose indices are within its array, `tqueue_take` gives the consumer what the
-- specification does: the message that came first, or nothing if there is none.
pub tqueue_take-refines : (q : Tqueue) → IsRing q → IsTaken (tqueue_take q) (take_spec (contents q))
unfolding tqueue_take take_spec
tqueue_take-refines q w = elim (Bool-cases (tqueue_empty q)) [
  | inl y ↦ rw (y, contents-empty q w y) tt
  | inr n ↦
      rw (n, contents-dropped q w n)
        (
          refl,
          record { head_fits = let a = w.head_fits in ground arith; tail_fits = w.tail_fits },
          refl,
        )
]
