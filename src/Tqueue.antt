-- ===== src/Tqueue.antt =====
-- tqueue.c: the bounded queue of messages between threads, a ring buffer under one mutex. What a
-- thread does while it holds the mutex is one function; Threads.antt has the interleavings.
pub mod Ring
pub mod Threads
use lxdream.Base.{
  ℕ, suc, ◌+◌, ◌-◌, ◌%◌, Bool, true, false, ◌&&◌, ◌||◌, Option, none, some, List, [], ◌∷◌, ◌==◌,
  if◌then◌else◌,
}

abbrev pub tqueue_length : ℕ
tqueue_length = 64

-- A function and its argument `data` are named by numbers.
pub record TqueueEntry : Type 0 where
  pub callback : ℕ
  pub argument : ℕ
  pub synchronous : Bool

-- The queue; `last_result` is an `int` by its 32-bit pattern.
pub record Tqueue : Type 0 where
  pub head : ℕ
  pub tail : ℕ
  pub last_result : ℕ
  pub tqueue : ℕ → TqueueEntry

abbrev pub tqueue_empty : Tqueue → Bool
tqueue_empty q = q.head == q.tail

abbrev pub tqueue_full : Tqueue → Bool
tqueue_full q = q.head == q.tail + 1 || (q.head == 0 && q.tail == 63)

-- `i++; if( i == TQUEUE_LENGTH ) i = 0;`
abbrev pub next_index : ℕ → ℕ
next_index i = if i + 1 == tqueue_length then 0 else i + 1

-- `none` stands for the failure of the assertion that the queue is not full.
unfoldable pub tqueue_enqueue : TqueueEntry → Tqueue → Option Tqueue
tqueue_enqueue e q =
    if tqueue_full q
    then none
    else some
        (record q { tqueue = λ i. if i == q.tail then e else q.tqueue i; tail = next_index q.tail })

-- The part of a round of `tqueue_process_loop` before the callback: `none` if the queue is empty,
-- else the entry, whether the queue was full, and the queue without it.
unfoldable pub tqueue_take : Tqueue → Option (TqueueEntry × Bool × Tqueue)
tqueue_take q =
    if tqueue_empty q
    then none
    else some (q.tqueue q.head, tqueue_full q, record q { head = next_index q.head })

-- The part after the callback.
unfoldable pub tqueue_finish : TqueueEntry → ℕ → Tqueue → Tqueue
tqueue_finish e result q = if e.synchronous then record q { last_result = result } else q
