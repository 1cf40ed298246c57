-- ===== src/Ide/Interrupt.antt =====
-- The interrupt line of the drive in gdrom/ide.c: EVENT_IDE is pending in the ASIC exactly while the
-- drive has an interrupt pending and the program has it enabled.
use lxdream.Base.{
  ℕ, ◌≡◌, refl, ◌∙◌, inl, inr, Bool, true, false, not, ◌&&◌, arith, ◌==◌, any_set, Bool-cases,
}
use lxdream.Machine.{Machine}
use lxdream.Asic.{asic_event, asic_clear_event}
use lxdream.Asic.Lines.{IsRouted}
use lxdream.Asic.Events.{is_pending, asic_event-IsRouted}
use lxdream.Asic.Clear.{asic_clear_event-IsRouted, asic_clear_event-is_pending}
use lxdream.Ide.{
  inactive, idle, IdeRegisters, Drive, event_ide, is_ide_irq_enabled, set_ide, ide_raise_interrupt,
  ide_clear_interrupt, ide_reset, ide_start_command_packet_write, ide_write_control,
  ide_write_command,
}

-- What the drive asks of the ASIC.
abbrev pub asks : IdeRegisters → Bool
asks r = not (r.intrq_pending == 0) && is_ide_irq_enabled r

pub record IsWired (d : Drive) : Type 0 where
  pub routed : IsRouted d.machine
  pub line : is_pending event_ide d.machine.mmio.asic ≡ asks d.ide

-- The two steps of the ASIC.
raised :
    (m : Machine)
    → IsRouted m
    → IsRouted (asic_event event_ide m)
      × (is_pending event_ide (asic_event event_ide m).mmio.asic ≡ true)
raised m w =
    let (a, b) = asic_event-IsRouted event_ide m (omega arith) w in (a, ground (arith, b event_ide))

cleared :
    (m : Machine)
    → IsRouted m
    → IsRouted (asic_clear_event event_ide m)
      × (is_pending event_ide (asic_clear_event event_ide m).mmio.asic ≡ false)
cleared m w = (asic_clear_event-IsRouted event_ide m w, asic_clear_event-is_pending event_ide m)

-- A change of the registers that the line does not depend on.
set_ide-IsWired :
    (r : IdeRegisters) (d : Drive)
    → r.intrq_pending ≡ d.ide.intrq_pending
    → r.control ≡ d.ide.control
    → IsWired d
    → IsWired (set_ide r d)
set_ide-IsWired r d i c w = record { routed = w.routed; line = w.line ∙ ground arith }

pub ide_raise_interrupt-IsWired : (d : Drive) → IsWired d → IsWired (ide_raise_interrupt d)
unfolding ide_raise_interrupt
ide_raise_interrupt-IsWired d w = elim (Bool-cases (d.ide.intrq_pending == 0)) [
  | inr n ↦ rw n w
  | inl y ↦ elim (Bool-cases (is_ide_irq_enabled d.ide)) [
    | inl on ↦
        let (a, b) = raised d.machine w.routed in
        rw (y, on) (record { routed = a; line = b ∙ ground arith })
    | inr off ↦ let l = w.line in rw (y, off) (record { routed = w.routed; line = ground arith })
  ]
]

pub ide_clear_interrupt-IsWired : (d : Drive) → IsWired d → IsWired (ide_clear_interrupt d)
unfolding ide_clear_interrupt
ide_clear_interrupt-IsWired d w = elim (Bool-cases (d.ide.intrq_pending == 0)) [
  | inl y ↦ rw y w
  | inr n ↦ elim (Bool-cases (is_ide_irq_enabled d.ide)) [
    | inl on ↦
        let (a, b) = cleared d.machine w.routed in
        rw (n, on) (record { routed = a; line = b ∙ ground arith })
    | inr off ↦ let l = w.line in rw (n, off) (record { routed = w.routed; line = ground arith })
  ]
]

-- If EVENT_IDE is pending in the ASIC exactly while the drive has an interrupt pending that is
-- enabled, and the ASIC's lines follow its events, that stays so when interrupts are enabled or
-- disabled.
pub ide_write_control-IsWired :
    (val : ℕ) (d : Drive) → IsWired d → IsWired (ide_write_control val d)
unfolding ide_write_control
ide_write_control-IsWired val d w =
    let (a, b) = raised d.machine w.routed in
    let (a', b') = cleared d.machine w.routed in
    let l = w.line in
    elim (Bool-cases (is_ide_irq_enabled d.ide)) [
      | inl on ↦ elim (Bool-cases (any_set val 0x02 && not (d.ide.intrq_pending == 0))) [
        | inl y ↦ rw (on, y) (record { routed = a'; line = b' ∙ ground arith })
        | inr n ↦ rw (on, n) (record { routed = w.routed; line = ground arith })
      ]
      | inr off ↦ elim (Bool-cases (not (any_set val 0x02) && not (d.ide.intrq_pending == 0))) [
        | inl y ↦ rw (off, y) (record { routed = a; line = b ∙ ground arith })
        | inr n ↦ rw (off, n) (record { routed = w.routed; line = ground arith })
      ]
    ]

ide_reset-IsWired : (d : Drive) → IsWired d → IsWired (ide_reset d)
unfolding ide_reset
ide_reset-IsWired d w =
    let c = ide_clear_interrupt-IsWired d w in record { routed = c.routed; line = c.line }

-- If EVENT_IDE is pending in the ASIC exactly while the drive has an interrupt pending that is
-- enabled, and the ASIC's lines follow its events, that stays so at every command.
pub ide_write_command-IsWired :
    (val : ℕ) (d : Drive) → IsWired d → IsWired (ide_write_command val d)
unfolding ide_write_command ide_start_command_packet_write
ide_write_command-IsWired val d0 w0 =
    let cleared = ide_clear_interrupt d0 in
    let c = ide_clear_interrupt-IsWired d0 w0 in
    let d = set_ide (record (cleared.ide) { command = val }) cleared in
    let w = set_ide-IsWired (record (cleared.ide) { command = val }) cleared refl refl c in
    let nop = record (d.ide) {
      state = idle;
      status = 0x51;
      error = 0x04;
      data_offset = inactive;
    } in
    let set = record (d.ide) { status = 0x50; error = 0; lba1 = 0; lba2 = 0 } in
    elim (Bool-cases (val == 0x00)) [
      | inl y ↦
          rw y (ide_raise_interrupt-IsWired (set_ide nop d) (set_ide-IsWired nop d refl refl w))
      | inr n0 ↦ elim (Bool-cases (val == 0x08)) [
        | inl y ↦ rw (n0, y) (ide_reset-IsWired d w)
        | inr n1 ↦ elim (Bool-cases (val == 0xa0)) [
          | inl y ↦ rw (n0, n1, y) (record { routed = w.routed; line = w.line })
          | inr n2 ↦ elim (Bool-cases (val == 0xef)) [
            | inl y ↦
                rw (n0, n1, n2, y)
                  (ide_raise_interrupt-IsWired (set_ide set d) (set_ide-IsWired set d refl refl w))
            | inr n3 ↦ rw (n0, n1, n2, n3) w
          ]
        ]
      ]
    ]
