-- ===== src/EventQueue/Frame.antt =====
-- The state that eventq.c leaves alone.
use lxdream.Base.{ℕ, ◌≡◌, ◌∙◌, ap, arith, add32}
use lxdream.Machine.{Intc, TmuTimer, G2State, Clocks, Regions, Machine}
use lxdream.EventQueue.{
  with_queue, event_update_pending, event_enqueue, event_dequeue, event_dequeue_long, event_cancel,
  cancel_if_scheduled, event_schedule, event_schedule_long, set_event,
}

-- All but the event queue and the two words of the CPU about it.
abbrev pub others : Machine → Intc × (ℕ → TmuTimer) × G2State × Clocks × Regions × ℕ × ℕ
others m = (m.intc, m.timers, m.g2, m.clocks, m.mmio, m.cpu.slice_cycle, m.cpu.sr)

-- From the facts of a frame to its parts.
pub same_timers : (a b : Machine) → others a ≡ others b → a.timers ≡ b.timers
same_timers a b e = ap (λ p. p.1) e

pub same_intc : (a b : Machine) → others a ≡ others b → a.intc ≡ b.intc
same_intc a b e = ap (λ p. p.0) e

pub same_mmio : (a b : Machine) → others a ≡ others b → a.mmio ≡ b.mmio
same_mmio a b e = ap (λ p. p.4) e

event_update_pending-others : (m : Machine) → others (event_update_pending m) ≡ others m
unfolding event_update_pending
event_update_pending-others m = ground arith

event_enqueue-others : (e : ℕ) (m : Machine) → others (event_enqueue e m) ≡ others m
unfolding event_enqueue
event_enqueue-others e m = grind (arith, event_update_pending-others)

event_dequeue-others : (e : ℕ) (m : Machine) → others (event_dequeue e m) ≡ others m
unfolding event_dequeue
event_dequeue-others e m = grind (arith, event_update_pending-others)

event_dequeue_long-others : (e : ℕ) (m : Machine) → others (event_dequeue_long e m) ≡ others m
unfolding event_dequeue_long
event_dequeue_long-others e m = ground arith

pub event_cancel-others : (e : ℕ) (m : Machine) → others (event_cancel e m) ≡ others m
unfolding event_cancel
event_cancel-others e m = grind (arith, event_dequeue-others, event_dequeue_long-others)

pub event_schedule-others : (e ns : ℕ) (m : Machine) → others (event_schedule e ns m) ≡ others m
unfolding event_schedule
event_schedule-others e ns m =
    let m' = cancel_if_scheduled e m in
    let t = add32 ns m.cpu.slice_cycle in
    event_enqueue-others e (with_queue (set_event e 0 t m'.eventq) m')
    ∙ ground (arith, event_cancel-others e m)

pub event_schedule_long-others :
    (e s ns : ℕ) (m : Machine) → others (event_schedule_long e s ns m) ≡ others m
unfolding event_schedule_long
event_schedule_long-others e s ns m =
    ground (arith, event_schedule-others e ns m, event_cancel-others e m)
