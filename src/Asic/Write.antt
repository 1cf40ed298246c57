-- ===== src/Asic/Write.antt =====
-- Writes of the program to the registers of asic.c.
use lxdream.Base.{ℕ, ◌+◌, ◌≡◌, sym, ◌∙◌, inl, inr, false, arith, some, ◌==◌, Bool-cases, bit_and}
use lxdream.Machine.{Machine, Region, poke}
use lxdream.Asic.{pirq0, irqa0, irqb0, irqc0, active, line_set, write_asic, asic_event_mask_changed}
use lxdream.Asic.Access.{
  write_pirq0, write_pirq2, is_mask, is_command, masked, mmio_region_asic_write,
}
use lxdream.Asic.Lines.{IsRouted, asic_event_mask_changed-IsRouted}
use lxdream.Asic.Clear.{write_pirq0-IsRouted, write_pirq2-IsRouted}

-- A register that is neither a word of events nor a mask.
active-elsewhere :
    (mask0 reg val : ℕ) (regs : Region)
    → (reg == pirq0) ≡ false
    → (reg == pirq0 + 4) ≡ false
    → (reg == pirq0 + 8) ≡ false
    → (reg == mask0) ≡ false
    → (reg == mask0 + 4) ≡ false
    → (reg == mask0 + 8) ≡ false
    → active mask0 (poke regs reg val) ≡ active mask0 regs
unfolding line_set
active-elsewhere mask0 reg val regs a b c d e f = ground arith

elsewhere-IsRouted :
    (reg val : ℕ) (m : Machine)
    → IsRouted m
    → (reg == pirq0) ≡ false
    → (reg == pirq0 + 4) ≡ false
    → (reg == pirq0 + 8) ≡ false
    → is_mask reg ≡ false
    → IsRouted (write_asic reg val m)
elsewhere-IsRouted reg val m w a b c n =
    let regs = m.mmio.asic in
    record {
      pending = w.pending;
      enabled = w.enabled;
      line13 =
          w.line13
          ∙ sym (
              active-elsewhere irqa0 reg val regs a b c (ground arith) (ground arith)
                (ground arith));
      line11 =
          w.line11
          ∙ sym (
              active-elsewhere irqb0 reg val regs a b c (ground arith) (ground arith)
                (ground arith));
      line9 =
          w.line9
          ∙ sym (
              active-elsewhere irqc0 reg val regs a b c (ground arith) (ground arith)
                (ground arith));
    }

-- If each of the three lines is pending exactly while its masks let an event through, any write to a
-- register, but to the four that start what other parts do, is carried out and keeps that so.
pub mmio_region_asic_write-IsRouted :
    (r val : ℕ) (m : Machine)
    → IsRouted m
    → is_command (bit_and r 0xfff) ≡ false
    → (m' : Machine) × (mmio_region_asic_write r val m ≡ some m') × IsRouted m'
unfolding mmio_region_asic_write
mmio_region_asic_write-IsRouted r val m w nc =
    let reg = bit_and r 0xfff in
    elim (Bool-cases (reg == pirq0 + 4)) [
      | inl y ↦ (m, ground arith, w)
      | inr n1 ↦ elim (Bool-cases (reg == pirq0)) [
        | inl y ↦ (write_pirq0 val m, ground arith, write_pirq0-IsRouted val m w)
        | inr n0 ↦ elim (Bool-cases (reg == pirq0 + 8)) [
          | inl y ↦ (write_pirq2 val m, ground arith, write_pirq2-IsRouted val m w)
          | inr n2 ↦ elim (Bool-cases (is_mask reg)) [
            | inl y ↦ (
              asic_event_mask_changed (write_asic reg val m),
              ground arith,
              asic_event_mask_changed-IsRouted (write_asic reg val m) w.pending w.enabled,
            )
            | inr nm ↦ (
              write_asic reg (masked reg val) m,
              ground arith,
              elsewhere-IsRouted reg (masked reg val) m w n0 n1 n2 nm,
            )
          ]
        ]
      ]
    ]
