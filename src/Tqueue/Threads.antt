-- ===== src/Tqueue/Threads.antt =====
-- The threads of tqueue.c: one producer, which posts or sends messages, and one consumer. The steps
-- are the stretches of code between taking and giving up the mutex. A thread that was signalled in
-- pthread_cond_wait goes on without looking at the queue again.
use lxdream.Base.{
  ℕ, ◌≡◌, refl, ◌∙◌, inl, inr, Bool, true, false, some, arith, if◌then◌else◌, Bool-cases,
}
use mathlib.Core.Path.{subst}
use lxdream.Tqueue.{TqueueEntry, Tqueue, tqueue_full, tqueue_enqueue, tqueue_take, tqueue_finish}
use lxdream.Tqueue.Ring.{IsRing, put}

-- Where the producer is: outside, waiting for room with a message, signalled that there is room,
-- or waiting for the result of a message that it sent.
pub data Producer : Type 0 where
  idle : Producer
  waiting_room woken waiting_result : TqueueEntry → Producer

-- Where the consumer is: outside a callback or in the callback of a message.
pub data Consumer : Type 0 where
  waiting : Consumer
  calling : TqueueEntry → Consumer

pub record System : Type 0 where
  pub queue : Tqueue
  pub producer : Producer
  pub consumer : Consumer

-- `tqueue_send_message` waits for the result, `tqueue_post_message` does not.
abbrev pub after_post : TqueueEntry → Producer
after_post e = if e.synchronous then waiting_result e else idle

-- `pthread_cond_signal( &tqueue.producer_full_wait )`, if the queue was full.
abbrev pub signal_room : Bool → Producer → Producer
signal_room true (waiting_room e) = woken e
signal_room was_full p = p

-- `pthread_cond_signal( &tqueue.producer_sync_wait )`, after a synchronous message.
abbrev pub signal_result : Bool → Producer → Producer
signal_result true (waiting_result e) = idle
signal_result sync p = p

-- `call` is the result of a callback.
pub data Step (call : TqueueEntry → ℕ) : System → System → Type 0 where
  post :
      (s : System) (e : TqueueEntry) (q : Tqueue)
      → s.producer ≡ idle
      → tqueue_full s.queue ≡ false
      → tqueue_enqueue e s.queue ≡ some q
      → Step call s (record s { queue = q; producer = after_post e })
  block :
      (s : System) (e : TqueueEntry)
      → s.producer ≡ idle
      → tqueue_full s.queue ≡ true
      → Step call s (record s { producer = waiting_room e })
  resume :
      (s : System) (e : TqueueEntry) (q : Tqueue)
      → s.producer ≡ woken e
      → tqueue_enqueue e s.queue ≡ some q
      → Step call s (record s { queue = q; producer = after_post e })
  take :
      (s : System) (x : TqueueEntry) (was_full : Bool) (q : Tqueue)
      → s.consumer ≡ waiting
      → tqueue_take s.queue ≡ some (x, was_full, q)
      → Step call s
          (record { queue = q; producer = signal_room was_full s.producer; consumer = calling x })
  finish :
      (s : System) (x : TqueueEntry)
      → s.consumer ≡ calling x
      → Step call s (record {
        queue = tqueue_finish x (call x) s.queue;
        producer = signal_result x.synchronous s.producer;
        consumer = waiting;
      })

-- The system after some steps.
pub data Reachable (call : TqueueEntry → ℕ) (start : System) : System → Type 0 where
  here : Reachable call start start
  there : {s s' : System} → Reachable call start s → Step call s s' → Reachable call start s'

-- A producer that was signalled finds room.
abbrev HasRoom : Tqueue → Producer → Type 0
HasRoom q (woken e) = tqueue_full q ≡ false
HasRoom q idle = Unit
HasRoom q (waiting_room e) = tqueue_full q ≡ true
HasRoom q (waiting_result e) = Unit

pub record IsSafe (s : System) : Type 0 where
  pub ring : IsRing s.queue
  pub room : HasRoom s.queue s.producer

enqueue-IsRing :
    (e : TqueueEntry) (q q' : Tqueue) → IsRing q → tqueue_enqueue e q ≡ some q' → IsRing q'
unfolding tqueue_enqueue
enqueue-IsRing e q q' w h = record {
  head_fits = let a = w.head_fits in ground arith;
  tail_fits = let b = w.tail_fits in ground arith;
}

after_post-HasRoom : (e : TqueueEntry) (q : Tqueue) → HasRoom q (after_post e)
after_post-HasRoom e q = elim (Bool-cases e.synchronous) [ inl y ↦ rw y tt | inr n ↦ rw n tt ]

take_lem :
    (q q' : Tqueue) (x : TqueueEntry) (was_full : Bool)
    → IsRing q
    → tqueue_take q ≡ some (x, was_full, q')
    → IsRing q' × (tqueue_full q' ≡ false) × (was_full ≡ tqueue_full q)
unfolding tqueue_take
take_lem q q' x was_full w h =
    let a = w.head_fits in
    let b = w.tail_fits in
    (record { head_fits = ground arith; tail_fits = ground arith }, ground arith, ground arith)

signal_room-HasRoom :
    (b : Bool) (q q' : Tqueue) (p : Producer)
    → tqueue_full q ≡ b
    → tqueue_full q' ≡ false
    → HasRoom q p
    → HasRoom q' (signal_room b p)
signal_room-HasRoom true q q' (waiting_room e) f n h = n
signal_room-HasRoom false q q' (waiting_room e) f n h = absurd (ground arith)
signal_room-HasRoom true q q' idle f n h = tt
signal_room-HasRoom false q q' idle f n h = tt
signal_room-HasRoom true q q' (waiting_result e) f n h = tt
signal_room-HasRoom false q q' (waiting_result e) f n h = tt
signal_room-HasRoom true q q' (woken e) f n h = n
signal_room-HasRoom false q q' (woken e) f n h = n

finish_lem :
    (x : TqueueEntry) (r : ℕ) (q : Tqueue)
    → ((tqueue_finish x r q).head ≡ q.head) × ((tqueue_finish x r q).tail ≡ q.tail)
unfolding tqueue_finish
finish_lem x r q = (ground arith, ground arith)

signal_result-HasRoom :
    (b : Bool) (q q' : Tqueue) (p : Producer)
    → tqueue_full q' ≡ tqueue_full q
    → HasRoom q p
    → HasRoom q' (signal_result b p)
signal_result-HasRoom true q q' (waiting_result e) n h = tt
signal_result-HasRoom false q q' (waiting_result e) n h = tt
signal_result-HasRoom true q q' (waiting_room e) n h = n ∙ h
signal_result-HasRoom false q q' (waiting_room e) n h = n ∙ h
signal_result-HasRoom true q q' (woken e) n h = n ∙ h
signal_result-HasRoom false q q' (woken e) n h = n ∙ h
signal_result-HasRoom true q q' idle n h = tt
signal_result-HasRoom false q q' idle n h = tt

Step-IsSafe : (call : TqueueEntry → ℕ) {s s' : System} → Step call s s' → IsSafe s → IsSafe s'
Step-IsSafe call (post s e q i n h) w = record {
  ring = enqueue-IsRing e s.queue q w.ring h;
  room = after_post-HasRoom e q;
}
Step-IsSafe call (block s e i f) w = record { ring = w.ring; room = f }
Step-IsSafe call (resume s e q i h) w = record {
  ring = enqueue-IsRing e s.queue q w.ring h;
  room = after_post-HasRoom e q;
}
Step-IsSafe call (take s x f q i h) w =
    let (r, n, e) = take_lem s.queue q x f w.ring h in
    record {
      ring = r;
      room = rw e (signal_room-HasRoom (tqueue_full s.queue) s.queue q s.producer refl n w.room);
    }
Step-IsSafe call (finish s x i) w =
    let (a, b) = finish_lem x (call x) s.queue in
    record {
      ring = record { head_fits = rw a w.ring.head_fits; tail_fits = rw b w.ring.tail_fits };
      room =
          signal_result-HasRoom x.synchronous s.queue (tqueue_finish x (call x) s.queue) s.producer
            (rw (a, b) refl) w.room;
    }

Reachable-IsSafe :
    (call : TqueueEntry → ℕ) (start : System) {s : System}
    → Reachable call start s
    → IsSafe start
    → IsSafe s
Reachable-IsSafe call start here w = w
Reachable-IsSafe call start (there r st) w = Step-IsSafe call st (Reachable-IsSafe call start r w)

enqueued :
    (e : TqueueEntry) (q : Tqueue)
    → tqueue_full q ≡ false
    → (q' : Tqueue) × (tqueue_enqueue e q ≡ some q')
unfolding tqueue_enqueue
enqueued e q n = (put e q, rw n refl)

-- From a state in which a signalled producer has room and a waiting one has none, however the two
-- threads interleave, a producer that was signalled finds room: its message goes in, and the
-- assertion of `tqueue_enqueue` does not fail.
pub woken-enqueues :
    (call : TqueueEntry → ℕ) (start s : System) (e : TqueueEntry)
    → IsSafe start
    → Reachable call start s
    → s.producer ≡ woken e
    → (q : Tqueue) × (tqueue_enqueue e s.queue ≡ some q)
      × Step call s (record s { queue = q; producer = after_post e })
woken-enqueues call start s e w r at =
    let safe = Reachable-IsSafe call start r w in
    let room : HasRoom s.queue (woken e) = subst (HasRoom s.queue) at safe.room in
    let (q, h) = enqueued e s.queue room in (q, h, resume s e q at h)
