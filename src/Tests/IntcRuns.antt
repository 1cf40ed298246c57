-- ===== src/Tests/IntcRuns.antt =====
-- The theorems on the interrupt controller of sh4/intc.c at the example state.
use lxdream.Base.{
  ◌%◌, if◌then◌else◌, ℕ, ◌≤◌, ◌≡◌, ◌≢◌, refl, false, not, ◌&&◌, ◌||◌, ◌==◌, arith, has, length,
}
use lxdream.Machine.{Machine}
use lxdream.EventQueue.{event_get_next_time}
use lxdream.Intc.{
  after, intc_raise_interrupt, intc_clear_interrupt, intc_mask_changed, int_num_sources,
}
use lxdream.Intc.Delivery.{
  IsPending, intc_raise_interrupt-IsPending, intc_clear_interrupt-IsPending,
}
use lxdream.Intc.Mask.{takes_any, intc_mask_changed-any}
use lxdream.Intc.Signal.{IsFlagged, intc_raise_interrupt-IsFlagged, intc_mask_changed-IsFlagged}
use lxdream.Tests.{machine, intc}

pub machine-IsPending : IsPending intc
unfolding after
machine-IsPending = record { ordered = ((refl, tt), (tt, tt)); known = λ a h. ground arith }

-- The state in which the CPU was told of the interrupt.
abbrev told : Machine
told = intc_mask_changed machine

told-IsFlagged : IsFlagged told
told-IsFlagged = (intc_mask_changed-IsFlagged machine).0

intc_raise_interrupt-IsPending_example :
    IsPending (intc_raise_interrupt 11 machine).intc
    × (length (intc_raise_interrupt 11 machine).intc.pending ≤ int_num_sources)
    × ((a : ℕ)
        → has a (intc_raise_interrupt 11 machine).intc.pending
          ≡ (has a intc.pending || (a == 11 && not (4 == 0))))
intc_raise_interrupt-IsPending_example =
    intc_raise_interrupt-IsPending 11 machine (omega arith) machine-IsPending

intc_clear_interrupt-IsPending_example :
    IsPending (intc_clear_interrupt 13 machine).intc
    × (has 13 (intc_clear_interrupt 13 machine).intc.pending ≡ false)
    × ((a : ℕ) → a ≢ 13 → has a (intc_clear_interrupt 13 machine).intc.pending ≡ has a intc.pending)
intc_clear_interrupt-IsPending_example = intc_clear_interrupt-IsPending 13 machine machine-IsPending

intc_raise_interrupt-IsFlagged_example : IsFlagged (intc_raise_interrupt 11 told)
intc_raise_interrupt-IsFlagged_example = intc_raise_interrupt-IsFlagged 11 told told-IsFlagged

intc_mask_changed-any_example :
    let any = takes_any machine.cpu intc.priority intc.pending in
    let m' = intc_mask_changed machine in
    (m'.cpu.event_types % 2 ≡ (if any then 1 else 0))
    × (m'.cpu.event_pending ≡ (if any then 0 else event_get_next_time machine.eventq))
intc_mask_changed-any_example = intc_mask_changed-any machine machine-IsPending
