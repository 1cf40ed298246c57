-- ===== src/Scif/SendQueue.antt =====
-- The transmit FIFO of sh4/scif.c as a queue of at most 16 bytes.
use lxdream.Base.{
  ℕ, suc, ◌+◌, ◌%◌, ◌≤◌, ◌≡◌, refl, sym, subst, ◌∙◌, ap, inl, inr, Bool, true, false, Option, none,
  some, List, [], ◌∷◌, ◌++◌, arith, ◌==◌, if◌then◌else◌, length, Bool-cases, span, round, slots,
  length-slots, slots-push,
}
use lxdream.Scif.{
  ScifFifo, Scif, fifo_length, fifo_size, next_index, scif_sendq_dequeue, scif_sendq_enqueue,
}

pub record IsFifo (q : ScifFifo) : Type 0 where
  pub head_fits : q.head ≤ fifo_length
  pub tail_fits : q.tail ≤ fifo_length

-- The bytes in the queue, the next one first.
abbrev pub contents : ScifFifo → List ℕ
contents q = slots (fifo_length + 1) (span (fifo_length + 1) q.head q.tail) q.head q.bytes

pub fifo_size-length : (q : ScifFifo) → IsFifo q → fifo_size q ≡ length (contents q)
fifo_size-length q w =
    let a = w.head_fits in
    let b = w.tail_fits in ground (arith, length-slots 17 (span 17 q.head q.tail) q.head q.bytes)

is_full : (q : ScifFifo) → IsFifo q → (next_index q.tail == q.head) ≡ (length (contents q) == 16)
is_full q w =
    let a = w.head_fits in
    let b = w.tail_fits in ground (arith, length-slots 17 (span 17 q.head q.tail) q.head q.bytes)

-- What a queue of at most 16 bytes promises.
unfoldable pub put_spec : ℕ → List ℕ → Bool × List ℕ
put_spec x xs = if length xs == fifo_length then (false, xs) else (true, xs ++ (x ∷ []))

unfoldable pub take_spec : List ℕ → Option ℕ × List ℕ
take_spec [] = (none, [])
take_spec (x ∷ xs) = (some x, xs)

abbrev pushed : ℕ → ScifFifo → ScifFifo
pushed value q = record q {
  tail = next_index q.tail;
  bytes = λ i. if i == q.tail then value % 256 else q.bytes i;
}

abbrev popped : ScifFifo → ScifFifo
popped q = record q { head = next_index q.head }

pushed-IsFifo : (x : ℕ) (q : ScifFifo) → IsFifo q → IsFifo (pushed x q)
pushed-IsFifo x q w = record {
  head_fits = w.head_fits;
  tail_fits = let b = w.tail_fits in ground arith;
}

popped-IsFifo : (q : ScifFifo) → IsFifo q → IsFifo (popped q)
popped-IsFifo q w = record {
  head_fits = let a = w.head_fits in ground arith;
  tail_fits = w.tail_fits;
}

contents-pushed :
    (x : ℕ) (q : ScifFifo)
    → IsFifo q
    → (next_index q.tail == q.head) ≡ false
    → contents (pushed x q) ≡ contents q ++ (x % 256 ∷ [])
contents-pushed x q w n =
    let a = w.head_fits in
    let b = w.tail_fits in
    let grows : span 17 q.head (next_index q.tail) ≡ suc (span 17 q.head q.tail) = ground arith in
    ap (λ k. slots 17 k q.head (pushed x q).bytes) grows
    ∙ slots-push 17 q.head q.tail (x % 256) q.bytes (omega arith) (omega arith)

contents-popped :
    (q : ScifFifo)
    → IsFifo q
    → (q.head == q.tail) ≡ false
    → contents q ≡ q.bytes q.head ∷ contents (popped q)
unfolding slots
contents-popped q w n =
    let a = w.head_fits in
    let b = w.tail_fits in
    let shrinks : span 17 q.head q.tail ≡ suc (span 17 (next_index q.head) q.tail) = ground arith in
    let same : round 17 q.head ≡ next_index q.head = ground arith in
    ap (λ k. slots 17 k q.head q.bytes) shrinks
    ∙ ap (λ h. q.bytes q.head ∷ slots 17 (span 17 (next_index q.head) q.tail) h q.bytes) same

contents-none : (q : ScifFifo) → (q.head == q.tail) ≡ true → contents q ≡ []
unfolding slots
contents-none q y =
    let e : span 17 q.head q.tail ≡ 0 = ground arith in ap (λ k. slots 17 k q.head q.bytes) e

-- What `scif_sendq_enqueue` and `scif_sendq_dequeue` make of the FIFO alone.
abbrev enqueued : ℕ → ScifFifo → Bool × ScifFifo
enqueued x q = if next_index q.tail == q.head then (false, q) else (true, pushed x q)

abbrev pub dequeued : ScifFifo → Option ℕ × ScifFifo
dequeued q = if q.head == q.tail then (none, q) else (some (q.bytes q.head), popped q)

abbrev pub with_fifo {ℓ} : {A : Type ℓ} → A × Scif → A × ScifFifo
with_fifo (a, s) = (a, s.sendq)

-- A result and a FIFO that stand for a result and a list of bytes.
abbrev pub IsSame {ℓ} : {A : Type ℓ} → A × ScifFifo → A × List ℕ → Type ℓ
IsSame (a, q) r = ((a, contents q) ≡ r) × IsFifo q

enqueue_lem :
    (x : ℕ) (c : Bool) (s : Scif) → with_fifo (scif_sendq_enqueue x c s) ≡ enqueued x s.sendq
unfolding scif_sendq_enqueue
enqueue_lem x c s = ground arith

dequeue_lem : (s : Scif) → with_fifo (scif_sendq_dequeue s) ≡ dequeued s.sendq
unfolding scif_sendq_dequeue
dequeue_lem s = ground arith

enqueued_lem :
    (x : ℕ) (q : ScifFifo) → IsFifo q → IsSame (enqueued x q) (put_spec (x % 256) (contents q))
unfolding put_spec
enqueued_lem x q w = elim (Bool-cases (next_index q.tail == q.head)) [
  | inl y ↦ rw (y, sym (is_full q w) ∙ y) (refl, w)
  | inr n ↦ rw (n, sym (is_full q w) ∙ n, contents-pushed x q w n) (refl, pushed-IsFifo x q w)
]

pub dequeued_lem : (q : ScifFifo) → IsFifo q → IsSame (dequeued q) (take_spec (contents q))
unfolding take_spec
dequeued_lem q w = elim (Bool-cases (q.head == q.tail)) [
  | inl y ↦ rw (y, contents-none q y) (refl, w)
  | inr n ↦ rw (n, contents-popped q w n) (refl, popped-IsFifo q w)
]

-- On a FIFO whose indices are within its array, `SCIF_sendq_enqueue` puts the byte behind the
-- others and answers TRUE, or with 16 bytes leaves the FIFO and answers FALSE; and the indices stay
-- within the array.
pub scif_sendq_enqueue-refines :
    (x : ℕ) (c : Bool) (s : Scif)
    → IsFifo s.sendq
    → IsSame (with_fifo (scif_sendq_enqueue x c s)) (put_spec (x % 256) (contents s.sendq))
scif_sendq_enqueue-refines x c s w =
    subst (λ r. IsSame r (put_spec (x % 256) (contents s.sendq))) (sym (enqueue_lem x c s))
      (enqueued_lem x s.sendq w)

-- `SCIF_sendq_dequeue` gives the first of the bytes and leaves the others in the FIFO, or answers
-- -1 if there is none; and the indices stay within the array.
pub scif_sendq_dequeue-refines :
    (s : Scif)
    → IsFifo s.sendq
    → IsSame (with_fifo (scif_sendq_dequeue s)) (take_spec (contents s.sendq))
scif_sendq_dequeue-refines s w =
    subst (λ r. IsSame r (take_spec (contents s.sendq))) (sym (dequeue_lem s))
      (dequeued_lem s.sendq w)
