-- ===== src/Asic.antt =====
-- asic.c: the system ASIC. It collects the events of the devices in the registers PIRQ0, PIRQ1 and
-- PIRQ2, of 32 events each, and passes them on to three lines of the interrupt controller, each
-- with its own mask registers: IRQA to IRQ 13, IRQB to IRQ 11 and IRQC to IRQ 9. Two bits of PIRQ0
-- stand for the other two words. The status of the G2 bus is in G2.antt.
pub mod G2
pub mod Access
pub mod Lines
pub mod Events
pub mod Write
pub mod Clear
pub mod Flag
pub mod Frame
use lxdream.Base.{
  ℕ, ◌+◌, ◌-◌, ◌*◌, ◌/◌, ◌^◌, Bool, true, false, bit_and, bit_or, leb, ◌==◌, if◌then◌else◌, any_set,
}
use lxdream.Machine.{Machine, poke}
use lxdream.Intc.{intc_raise_interrupt, intc_clear_interrupt}

-- asic.h: the register of word `offset / 4` of the pending events.
abbrev pub pirq0 : ℕ
pirq0 = 0x900

abbrev pub irqa0 : ℕ
irqa0 = 0x910

abbrev pub irqb0 : ℕ
irqb0 = 0x920

abbrev pub irqc0 : ℕ
irqc0 = 0x930

abbrev pub event_cascade1 : ℕ
event_cascade1 = 30

abbrev pub event_cascade2 : ℕ
event_cascade2 = 31

-- sh4/intc.h
abbrev pub int_irq13 : ℕ
int_irq13 = 13

abbrev pub int_irq11 : ℕ
int_irq11 = 11

abbrev pub int_irq9 : ℕ
int_irq9 = 9

abbrev pub write_asic : ℕ → ℕ → Machine → Machine
write_asic reg val m = record m { mmio = record (m.mmio) { asic = poke m.mmio.asic reg val } }

unfoldable pub raise_if : Bool → ℕ → Machine → Machine
raise_if b which m = if b then intc_raise_interrupt which m else m

unfoldable pub clear_unless : Bool → ℕ → Machine → Machine
clear_unless b which m = if b then m else intc_clear_interrupt which m

unfoldable pub raise_or_clear : Bool → ℕ → Machine → Machine
raise_or_clear b which m = if b then intc_raise_interrupt which m else intc_clear_interrupt which m

-- The register offset of an event's word, and the event's bit in it.
unfoldable pub word_offset : ℕ → ℕ
word_offset event = bit_and event 0x60 / 2 ^ 3

unfoldable pub event_bit : ℕ → ℕ
event_bit event = 2 ^ bit_and event 0x1f

-- `asic_event` without the call for the cascade.
unfoldable pub flag_event : ℕ → Machine → Machine
flag_event event m =
    let offset = word_offset event in
    let result = bit_or (m.mmio.asic (pirq0 + offset)) (event_bit event) in
    let m1 = write_asic (pirq0 + offset) result m in
    let m2 = raise_if (any_set result (m1.mmio.asic (irqa0 + offset))) int_irq13 m1 in
    let m3 = raise_if (any_set result (m2.mmio.asic (irqb0 + offset))) int_irq11 m2 in
    raise_if (any_set result (m3.mmio.asic (irqc0 + offset))) int_irq9 m3

-- The cascades are events of the first word, so that the source's recursion is one call deep.
unfoldable pub asic_event : ℕ → Machine → Machine
asic_event event m =
    let m' = flag_event event m in
    if leb 64 event
    then flag_event event_cascade2 m'
    else if leb 32 event
    then flag_event event_cascade1 m'
    else m'

-- `setA`, `setB` or `setC` of the loops: the pending events that the line's masks let through.
unfoldable pub line_set : ℕ → (ℕ → ℕ) → ℕ
line_set mask0 asic =
    bit_or
      (bit_or (bit_and (asic pirq0) (asic mask0)) (bit_and (asic (pirq0 + 4)) (asic (mask0 + 4))))
      (bit_and (asic (pirq0 + 8)) (asic (mask0 + 8)))

-- Whether the line has an event.
abbrev pub active : ℕ → (ℕ → ℕ) → Bool
active mask0 asic = if line_set mask0 asic == 0 then false else true

unfoldable pub asic_check_cleared_events : Machine → Machine
asic_check_cleared_events m =
    let regs = m.mmio.asic in
    let m1 = clear_unless (active irqa0 regs) int_irq13 m in
    let m2 = clear_unless (active irqb0 regs) int_irq11 m1 in
    clear_unless (active irqc0 regs) int_irq9 m2

unfoldable pub asic_event_mask_changed : Machine → Machine
asic_event_mask_changed m =
    let regs = m.mmio.asic in
    let m1 = raise_or_clear (active irqa0 regs) int_irq13 m in
    let m2 = raise_or_clear (active irqb0 regs) int_irq11 m1 in
    raise_or_clear (active irqc0 regs) int_irq9 m2

-- `~x` on 32 bits.
abbrev pub complement : ℕ → ℕ
complement x = 0xffff_ffff - x

unfoldable pub clear_cascade : ℕ → Machine → Machine
clear_cascade event m =
    if leb 64 event
    then write_asic pirq0 (bit_and (m.mmio.asic pirq0) 0x7fff_ffff) m
    else if leb 32 event
    then write_asic pirq0 (bit_and (m.mmio.asic pirq0) 0xbfff_ffff) m
    else m

unfoldable pub asic_clear_event : ℕ → Machine → Machine
asic_clear_event event m =
    let offset = word_offset event in
    let result = bit_and (m.mmio.asic (pirq0 + offset)) (complement (event_bit event)) in
    let m1 = write_asic (pirq0 + offset) result m in
    asic_check_cleared_events (if result == 0 then clear_cascade event m1 else m1)
