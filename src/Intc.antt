-- ===== src/Intc.antt =====
-- sh4/intc.c: the SH4's interrupt controller, a queue of pending interrupt sources in the order of
-- their priority. The array `pending` is written as a list of its `num_pending` entries; the last
-- one is delivered first. A source with priority 0 is masked off.
pub mod Mask
pub mod Order
pub mod Delivery
pub mod Frame
pub mod Signal
use lxdream.Base.{
  ℕ, zero, suc, ◌-◌, ◌/◌, ◌^◌, Bool, true, false, not, ◌&&◌, ◌||◌, Option, none, some, List, [],
  ◌∷◌, bit_and, bit_or, ltb, leb, ◌==◌, if◌then◌else◌, any_set, length, get_or,
}
use lxdream.Machine.{Cpu, Intc, Region, Machine, poke}
use lxdream.EventQueue.{event_get_next_time, sh4_set_event_pending, pending_irq}

-- sh4/intc.h, the sources by number.
abbrev pub int_num_sources : ℕ
int_num_sources = 41

abbrev pub int_gpio : ℕ
int_gpio = 17

abbrev pub int_hudi : ℕ
int_hudi = 16

abbrev pub int_dma_dmte0 : ℕ
int_dma_dmte0 = 18

abbrev pub int_tmu_tuni0 : ℕ
int_tmu_tuni0 = 23

-- sh4/intc.c, the codes of intc_sources.
abbrev pub source_codes : List ℕ
source_codes =
    0x200 ∷ 0x220 ∷ 0x240 ∷ 0x260 ∷ 0x280 ∷ 0x2A0 ∷ 0x2C0 ∷ 0x2E0 ∷ 0x300 ∷ 0x320 ∷ 0x340 ∷ 0x360
    ∷ 0x380 ∷ 0x3A0 ∷ 0x3C0 ∷ 0x1C0 ∷ 0x600 ∷ 0x620 ∷ 0x640 ∷ 0x660 ∷ 0x680 ∷ 0x6A0 ∷ 0x6C0 ∷ 0x400
    ∷ 0x420 ∷ 0x440 ∷ 0x460 ∷ 0x480 ∷ 0x4A0 ∷ 0x4C0 ∷ 0x4E0 ∷ 0x500 ∷ 0x520 ∷ 0x540 ∷ 0x700 ∷ 0x720
    ∷ 0x740 ∷ 0x760 ∷ 0x560 ∷ 0x580 ∷ 0x5A0 ∷ []

-- sh4/intc.c, intc_default_priority: the sources that the initialiser leaves out get 0.
abbrev pub default_priority : ℕ → ℕ
default_priority which = if ltb which 15 then 15 - which else if which == 15 then 16 else 0

-- sh4/sh4core.h, SR_BL and SH4_INTMASK.
abbrev pub sr_bl : ℕ
sr_bl = 0x1000_0000

abbrev pub sh4_intmask : Cpu → ℕ
sh4_intmask c = bit_and c.sr 0xf0 / 2 ^ 4

-- ~PENDING_IRQ
abbrev pub all_but_irq : ℕ
all_but_irq = 0xffff_fffe

abbrev pub set_priority : (ℕ → ℕ) → ℕ → ℕ → ℕ → ℕ
set_priority pr which p a = if a == which then p else pr a

-- The same priority for a run of sources.
abbrev pub set_priorities : (ℕ → ℕ) → ℕ → ℕ → ℕ → ℕ → ℕ
set_priorities pr first last p a = if leb first a && leb a last then p else pr a

-- Four bits of a priority register, from bit `k` on.
abbrev pub nibble : ℕ → ℕ → ℕ
nibble val k = bit_and (val / 2 ^ k) 0xf

-- The registers' addresses in the region INTC (sh4/sh4mmio.h).
abbrev pub ipra : ℕ
ipra = 0x4

abbrev pub iprb : ℕ
iprb = 0x8

abbrev pub iprc : ℕ
iprc = 0xc

unfoldable pub write_ipra : ℕ → (ℕ → ℕ) → ℕ → ℕ
write_ipra val pr =
    let pr1 = set_priority pr 23 (nibble val 12) in
    let pr2 = set_priority pr1 24 (nibble val 8) in
    let pr3 = set_priorities pr2 25 26 (nibble val 4) in set_priorities pr3 27 29 (nibble val 0)

unfoldable pub write_iprb : ℕ → (ℕ → ℕ) → ℕ → ℕ
write_iprb val pr =
    let pr1 = set_priority pr 38 (nibble val 12) in
    let pr2 = set_priorities pr1 39 40 (nibble val 8) in set_priorities pr2 30 33 (nibble val 4)

unfoldable pub write_iprc : ℕ → (ℕ → ℕ) → ℕ → ℕ
write_iprc val pr =
    let pr1 = set_priority pr int_gpio (nibble val 12) in
    let pr2 = set_priorities pr1 18 22 (nibble val 8) in
    let pr3 = set_priorities pr2 34 37 (nibble val 4) in set_priority pr3 int_hudi (nibble val 0)

-- mmio_region_INTC_write: the priorities of the sources, and the register itself.
unfoldable pub mmio_region_intc_write : ℕ → ℕ → Machine → Machine
mmio_region_intc_write r val m =
    let reg = bit_and r 0xfff in
    let pr = m.intc.priority in
    let pr' =
      if reg == ipra
      then write_ipra val pr
      else (if reg == iprb
          then write_iprb val pr
          else (if reg == iprc then write_iprc val pr else pr)) in
    record m {
      intc = record (m.intc) { priority = pr' };
      mmio = record (m.mmio) { intc = poke m.mmio.intc reg val };
    }

unfoldable pub mmio_region_intc_read : ℕ → Machine → ℕ
mmio_region_intc_read r m = m.mmio.intc (bit_and r 0xfff)

-- `sh4_set_event_pending(0); sh4r.event_types |= PENDING_IRQ;`
abbrev pub flag_irq : Cpu → Cpu
flag_irq c = record (sh4_set_event_pending 0 c) { event_types = bit_or c.event_types pending_irq }

-- `sh4_set_event_pending(event_get_next_time()); sh4r.event_types &= (~PENDING_IRQ);`
abbrev pub unflag_irq : ℕ → Cpu → Cpu
unflag_irq t c = record (sh4_set_event_pending t c) {
  event_types = bit_and c.event_types all_but_irq;
}

unfoldable pub intc_reset : Machine → Machine
intc_reset m = record m {
  intc = record {
    pending = [];
    priority = λ a. if ltb a int_num_sources then default_priority a else m.intc.priority a;
  };
  cpu = unflag_irq (event_get_next_time m.eventq) m.cpu;
}

-- Whether source `a` is delivered after source `b`: by priority, then the lower number first.
unfoldable pub after : (ℕ → ℕ) → ℕ → ℕ → Bool
after pr a b = ltb (pr a) (pr b) || (pr b == pr a && ltb b a)

-- The loop of `intc_raise_interrupt`: the place to insert at, or `none` if the loop meets the
-- source in the queue.
unfoldable pub insertion_point : (ℕ → ℕ) → ℕ → List ℕ → Option ℕ
insertion_point pr which [] = some 0
insertion_point pr which (p ∷ ps) =
    let rest : Option ℕ = elim (insertion_point pr which ps) [
      | none ↦ none
      | some i ↦ some (suc i)
    ] in
    if p == which then none else if after pr which p then some 0 else rest

-- `pending[j] = pending[j-1]` from the end down to `i`, then `pending[i] = which`.
unfoldable pub insert_at : List ℕ → ℕ → ℕ → List ℕ
insert_at ps zero which = which ∷ ps
insert_at [] (suc i) which = which ∷ []
insert_at (p ∷ ps) (suc i) which = p ∷ insert_at ps i which

-- Whether an interrupt of this priority is taken now.
abbrev pub accepts : Cpu → ℕ → Bool
accepts c pri = not (any_set c.sr sr_bl) && ltb (sh4_intmask c) pri

unfoldable pub intc_raise_interrupt : ℕ → Machine → Machine
intc_raise_interrupt which m =
    let pri = m.intc.priority which in
    let ps = m.intc.pending in
    if pri == 0 then m else elim (insertion_point m.intc.priority which ps) [
      | none ↦ m
      | some i ↦ record m {
        intc = record (m.intc) { pending = insert_at ps i which };
        cpu = if i == length ps && accepts m.cpu pri then flag_irq m.cpu else m.cpu;
      }
    ]

-- `pending[num_pending-1]`, if there is one.
unfoldable pub last_pending : List ℕ → Option ℕ
last_pending [] = none
last_pending (p ∷ ps) = elim (last_pending ps) [ none ↦ some p | some q ↦ some q ]

unfoldable pub intc_mask_changed : Machine → Machine
intc_mask_changed m =
    let lower = unflag_irq (event_get_next_time m.eventq) m.cpu in
    let c : Cpu = elim (last_pending m.intc.pending) [
      | none ↦ lower
      | some p ↦ if accepts m.cpu (m.intc.priority p) then flag_irq m.cpu else lower
    ] in
    record m { cpu = c }

-- The loop of `intc_clear_interrupt`, from the end: the list without the last entry that is the
-- source, or `none` if it is not there.
unfoldable pub remove_last : ℕ → List ℕ → Option (List ℕ)
remove_last which [] = none
remove_last which (p ∷ ps) =
    let here : Option (List ℕ) = if p == which then some ps else none in
    elim (remove_last which ps) [ none ↦ here | some qs ↦ some (p ∷ qs) ]

unfoldable pub intc_clear_interrupt : ℕ → Machine → Machine
intc_clear_interrupt which m = elim (remove_last which m.intc.pending) [
  | none ↦ m
  | some ps ↦ intc_mask_changed (record m { intc = record (m.intc) { pending = ps } })
]

-- `none` stands for the failure of the assertion that something is pending.
unfoldable pub intc_accept_interrupt : Machine → Option ℕ
intc_accept_interrupt m = elim (last_pending m.intc.pending) [
  | none ↦ none
  | some p ↦ some (get_or source_codes p 0)
]
