-- ===== src/Asic/Flag.antt =====
-- `asic_event` of asic.c: the bit of the event and the bit of its word, and the lines.
use lxdream.Base.{
  ℕ, ◌+◌, ◌*◌, ◌/◌, ◌%◌, ◌^◌, ◌≤◌, ◌<◌, ◌≡◌, ◌⊎◌, refl, sym, ◌∙◌, ap, true, ◌||◌, arith, any_set,
  bit_and, bit_or, has,
}
use lxdream.Base.Bits.{bit_and-half, bit_and-zero}
use lxdream.Base.Masks.{bit_and-bit_or, bit_or-le_left, bit_or-le_right, bit_or_zeros}
use lxdream.Machine.{Machine, Region, poke}
use lxdream.Asic.{
  pirq0, irqa0, irqb0, irqc0, int_irq13, int_irq11, int_irq9, write_asic, raise_if, word_offset,
  event_bit, active, line_set, flag_event,
}
use lxdream.Asic.Lines.{IsRouted, steps-IsRound, raise_if-IsStep}

-- Where an event stands.
pub word_offset_lem : (event : ℕ) → event < 96 → word_offset event ≡ 4 * (event / 32)
unfolding word_offset
word_offset_lem event h = omega (
  arith,
  bit_and-half event 0x60 0x30 0 refl refl,
  bit_and-half (event / 2) 0x30 0x18 0 refl refl,
  bit_and-half (event / 2 / 2) 0x18 0xc 0 refl refl,
  bit_and-half (event / 2 / 2 / 2) 0xc 6 0 refl refl,
  bit_and-half (event / 2 / 2 / 2 / 2) 6 3 0 refl refl,
  bit_and-half (event / 2 / 2 / 2 / 2 / 2) 3 1 1 refl refl,
  bit_and-half (event / 2 / 2 / 2 / 2 / 2 / 2) 1 0 1 refl refl,
  bit_and-zero (event / 2 / 2 / 2 / 2 / 2 / 2 / 2),
)

low_digits : (event : ℕ) → bit_and event 0x1f ≡ event % 32
low_digits event = omega (
  arith,
  bit_and-half event 0x1f 0xf 1 refl refl,
  bit_and-half (event / 2) 0xf 7 1 refl refl,
  bit_and-half (event / 2 / 2) 7 3 1 refl refl,
  bit_and-half (event / 2 / 2 / 2) 3 1 1 refl refl,
  bit_and-half (event / 2 / 2 / 2 / 2) 1 0 1 refl refl,
  bit_and-zero (event / 2 / 2 / 2 / 2 / 2),
)

pub event_bit_lem : (event : ℕ) → event_bit event ≡ 2 ^ (event % 32)
unfolding event_bit
event_bit_lem event = ap (λ k. 2 ^ k) (low_digits event)

active_words :
    (mask0 : ℕ) (regs : Region)
    → active mask0 regs ≡ (
        any_set (regs pirq0) (regs mask0)
        || any_set (regs (pirq0 + 4)) (regs (mask0 + 4))
        || any_set (regs (pirq0 + 8)) (regs (mask0 + 8)))
unfolding line_set
active_words mask0 regs =
    let x = bit_and (regs pirq0) (regs mask0) in
    let y = bit_and (regs (pirq0 + 4)) (regs (mask0 + 4)) in
    let z = bit_and (regs (pirq0 + 8)) (regs (mask0 + 8)) in
    ground (
      arith,
      bit_or-le_left (bit_or x y) z,
      bit_or-le_right (bit_or x y) z,
      bit_or-le_left x y,
      bit_or-le_right x y,
      bit_or_zeros (bit_or x y) z,
      bit_or_zeros x y,
    )

-- Bits that are added take nothing from under a mask.
grown : (x b m : ℕ) → any_set x m ≡ true → any_set (bit_or x b) m ≡ true
grown x b m h = ground (arith, bit_and-bit_or x b m, bit_or-le_left (bit_and x m) (bit_and b m))

-- A line's events once bits were added to the word `o` of the three.
active-bit_or :
    (mask0 o b : ℕ) (regs : Region)
    → irqa0 ≤ mask0
    → (o ≡ 0) ⊎ (o ≡ 4) ⊎ (o ≡ 8)
    → let result = bit_or (regs (pirq0 + o)) b in
      active mask0 (poke regs (pirq0 + o) result)
      ≡ (any_set result (regs (mask0 + o)) || active mask0 regs)
active-bit_or mask0 o b regs l w =
    active_words mask0 (poke regs (pirq0 + o) (bit_or (regs (pirq0 + o)) b))
    ∙ ground (arith, active_words mask0 regs, grown (regs (pirq0 + o)) b (regs (mask0 + o)))

-- The registers after `flag_event`.
abbrev pub flagged : ℕ → Region → Region
flagged event regs =
    poke regs (pirq0 + word_offset event)
      (bit_or (regs (pirq0 + word_offset event)) (event_bit event))

pub flag_event-IsRouted :
    (event : ℕ) (m : Machine)
    → event < 96
    → IsRouted m
    → IsRouted (flag_event event m) × ((flag_event event m).mmio.asic ≡ flagged event m.mmio.asic)
unfolding flag_event
flag_event-IsRouted event m k w =
    let o = word_offset event in
    let result = bit_or (m.mmio.asic (pirq0 + o)) (event_bit event) in
    let m1 = write_asic (pirq0 + o) result m in
    let regs = m1.mmio.asic in
    let at : (o ≡ 0) ⊎ (o ≡ 4) ⊎ (o ≡ 8) = ground (arith, word_offset_lem event k) in
    let a =
      raise_if-IsStep int_irq13 m1 (omega arith) w.pending w.enabled
        (any_set result (regs (irqa0 + o))) w.enabled.0 in
    let m2 = raise_if (any_set result (regs (irqa0 + o))) int_irq13 m1 in
    let b =
      raise_if-IsStep int_irq11 m2 (omega arith) a.pending a.enabled
        (any_set result (m2.mmio.asic (irqb0 + o))) a.enabled.1 in
    let m3 = raise_if (any_set result (m2.mmio.asic (irqb0 + o))) int_irq11 m2 in
    let c =
      raise_if-IsStep int_irq9 m3 (omega arith) b.pending b.enabled
        (any_set result (m3.mmio.asic (irqc0 + o))) b.enabled.2 in
    let m4 = raise_if (any_set result (m3.mmio.asic (irqc0 + o))) int_irq9 m3 in
    let s = steps-IsRound m1 m2 m3 m4 a b c in
    let e2 : m2.mmio ≡ m1.mmio = a.regs in
    let e3 : m3.mmio ≡ m1.mmio = b.regs ∙ e2 in
    let e : m4.mmio ≡ m1.mmio = s.regs in
    let same : (mask0 : ℕ) → irqa0 ≤ mask0 → regs (mask0 + o) ≡ m.mmio.asic (mask0 + o) =
      λ mask0 l. ground arith in
    let line : (mask0 which : ℕ)
        → irqa0 ≤ mask0
        → has which m.intc.pending ≡ active mask0 m.mmio.asic
        → (any_set result (regs (mask0 + o)) || has which m.intc.pending) ≡ active mask0 regs =
      λ mask0 which l h.
        rw (h, same mask0 l) (sym (active-bit_or mask0 o (event_bit event) m.mmio.asic l at)) in
    (
      record {
        pending = s.pending;
        enabled = s.enabled;
        line13 = rw e (s.line13 ∙ line irqa0 int_irq13 (omega arith) w.line13);
        line11 = rw e (s.line11 ∙ rw e2 (line irqb0 int_irq11 (omega arith) w.line11));
        line9 = rw e (s.line9 ∙ rw e3 (line irqc0 int_irq9 (omega arith) w.line9));
      },
      ap (λ r. r.asic) e,
    )
