-- ===== src/Asic/Frame.antt =====
-- The state that `asic_event` of asic.c leaves alone, and `event_asic_callback` of eventq.c, which
-- calls it for an event of the queue.
use lxdream.Base.{
  ℕ, ◌+◌, ◌≡◌, refl, ◌∙◌, ap, Bool, true, false, bit_or, leb, any_set, inl, inr, Bool-cases,
}
use lxdream.Machine.{EventQueue, Machine}
use lxdream.Intc.Frame
use lxdream.Asic.{
  pirq0, irqa0, irqb0, irqc0, int_irq13, int_irq11, int_irq9, write_asic, raise_if, word_offset,
  event_bit, flag_event, asic_event, event_cascade1, event_cascade2,
}

-- The queue of the events and the time.
abbrev pub clock : Machine → EventQueue × ℕ
clock m = (m.eventq, m.cpu.slice_cycle)

raise_if-clock : (b : Bool) (which : ℕ) (m : Machine) → clock (raise_if b which m) ≡ clock m
unfolding raise_if
raise_if-clock true which m =
    let e = Frame.intc_raise_interrupt-others which m in ap (λ p. (p.0, p.5)) e
raise_if-clock false which m = refl

flag_event-clock : (event : ℕ) (m : Machine) → clock (flag_event event m) ≡ clock m
unfolding flag_event
flag_event-clock event m =
    let o = word_offset event in
    let result = bit_or (m.mmio.asic (pirq0 + o)) (event_bit event) in
    let m1 = write_asic (pirq0 + o) result m in
    let m2 = raise_if (any_set result (m1.mmio.asic (irqa0 + o))) int_irq13 m1 in
    let m3 = raise_if (any_set result (m2.mmio.asic (irqb0 + o))) int_irq11 m2 in
    raise_if-clock (any_set result (m3.mmio.asic (irqc0 + o))) int_irq9 m3
    ∙ raise_if-clock (any_set result (m2.mmio.asic (irqb0 + o))) int_irq11 m2
    ∙ raise_if-clock (any_set result (m1.mmio.asic (irqa0 + o))) int_irq13 m1

pub asic_event-clock : (event : ℕ) (m : Machine) → clock (asic_event event m) ≡ clock m
unfolding asic_event
asic_event-clock event m =
    let m' = flag_event event m in
    let e = flag_event-clock event m in
    let e1 = flag_event-clock event_cascade1 m' in
    let e2 = flag_event-clock event_cascade2 m' in
    elim (Bool-cases (leb 64 event)) [
      | inl y ↦ rw y (e2 ∙ e)
      | inr n ↦ elim (Bool-cases (leb 32 event)) [
        | inl y ↦ rw (n, y) (e1 ∙ e)
        | inr f ↦ rw (n, f) e
      ]
    ]

-- eventq.c, event_asic_callback.
abbrev pub event_asic_callback : ℕ → Machine → Machine
event_asic_callback eventid m = asic_event eventid m
