-- ===== src/Intc/Frame.antt =====
-- The state that the interrupt controller of sh4/intc.c leaves alone.
use lxdream.Base.{ℕ, ◌≡◌, ap, arith, ◌==◌, if◌then◌else◌, none, some}
use lxdream.Machine.{EventQueue, TmuTimer, G2State, Clocks, Regions, Machine, Intc}
use lxdream.Intc.{
  insertion_point, insert_at, intc_raise_interrupt, intc_mask_changed, intc_clear_interrupt,
}

-- All but the interrupt controller and the two words of the CPU about it.
abbrev pub others : Machine → EventQueue × (ℕ → TmuTimer) × G2State × Clocks × Regions × ℕ × ℕ
others m = (m.eventq, m.timers, m.g2, m.clocks, m.mmio, m.cpu.slice_cycle, m.cpu.sr)

pub intc_raise_interrupt-others :
    (which : ℕ) (m : Machine) → others (intc_raise_interrupt which m) ≡ others m
unfolding intc_raise_interrupt
intc_raise_interrupt-others which m = ground arith

pub intc_mask_changed-others : (m : Machine) → others (intc_mask_changed m) ≡ others m
unfolding intc_mask_changed
intc_mask_changed-others m = ground arith

pub intc_clear_interrupt-others :
    (which : ℕ) (m : Machine) → others (intc_clear_interrupt which m) ≡ others m
unfolding intc_clear_interrupt
intc_clear_interrupt-others which m = grind (arith, intc_mask_changed-others)

pub same_mmio : (a b : Machine) → others a ≡ others b → a.mmio ≡ b.mmio
same_mmio a b e = ap (λ p. p.4) e

pub same_timers : (a b : Machine) → others a ≡ others b → a.timers ≡ b.timers
same_timers a b e = ap (λ p. p.1) e

pub same_eventq : (a b : Machine) → others a ≡ others b → a.eventq ≡ b.eventq
same_eventq a b e = ap (λ p. p.0) e

pub same_now : (a b : Machine) → others a ≡ others b → a.cpu.slice_cycle ≡ b.cpu.slice_cycle
same_now a b e = ap (λ p. p.5) e

-- What raising a source makes of the queue, which depends on the queue alone.
abbrev pub raised : ℕ → Intc → Intc
raised which i =
    if i.priority which == 0 then i else elim (insertion_point i.priority which i.pending) [
      | none ↦ i
      | some k ↦ record i { pending = insert_at i.pending k which }
    ]

pub intc_raise_interrupt-intc :
    (which : ℕ) (m : Machine) → (intc_raise_interrupt which m).intc ≡ raised which m.intc
unfolding intc_raise_interrupt
intc_raise_interrupt-intc which m = ground arith
