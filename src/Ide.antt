-- ===== src/Ide.antt =====
-- gdrom/ide.c: the registers of the GD-ROM drive's IDE interface, its state machine, and its
-- interrupt line, which is event EVENT_IDE of the ASIC.
pub mod Interrupt
use lxdream.Base.{
  ℕ, ◌-◌, ◌/◌, ◌%◌, ◌^◌, ◌*◌, Bool, true, false, not, ◌&&◌, List, [], ◌∷◌, bit_and, bit_or, ltb,
  ◌==◌, if◌then◌else◌, any_set, get_or,
}
use lxdream.Machine.{Machine}
use lxdream.Asic.{asic_event, asic_clear_event}

-- gdrom/ide.h, the states of the interface.
pub data IdeState : Type 0 where
  idle cmd_write pio_read pio_write dma_read dma_write busy : IdeState

-- gdrom/ide.h, struct ide_registers. `data_offset` and `data_length` are 32-bit patterns.
pub record IdeRegisters : Type 0 where
  pub status : ℕ
  pub control : ℕ
  pub error : ℕ
  pub feature : ℕ
  pub count : ℕ
  pub disc : ℕ
  pub lba0 : ℕ
  pub lba1 : ℕ
  pub lba2 : ℕ
  pub device : ℕ
  pub command : ℕ
  pub intrq_pending : ℕ
  pub interface_enabled : Bool
  pub was_reset : Bool
  pub state : IdeState
  pub last_packet_command : ℕ
  pub gdrom_sense : ℕ → ℕ
  pub gdrom_mode : ℕ → ℕ
  pub data_offset : ℕ
  pub data_length : ℕ
  pub last_read_track : ℕ
  pub current_lba : ℕ
  pub current_mode : ℕ
  pub sectors_left : ℕ

-- The interface and the rest of the emulator.
pub record Drive : Type 0 where
  pub ide : IdeRegisters
  pub machine : Machine

-- asic.h
abbrev pub event_ide : ℕ
event_ide = 32

-- The pattern of -1.
abbrev pub inactive : ℕ
inactive = 0xffff_ffff

-- IS_IDE_IRQ_ENABLED
abbrev pub is_ide_irq_enabled : IdeRegisters → Bool
is_ide_irq_enabled r = not (any_set r.control 0x02)

abbrev pub set_ide : IdeRegisters → Drive → Drive
set_ide r d = record d { ide = r }

unfoldable pub ide_raise_interrupt : Drive → Drive
ide_raise_interrupt d =
    let r = record (d.ide) { intrq_pending = 1 } in
    let m = if is_ide_irq_enabled d.ide then asic_event event_ide d.machine else d.machine in
    if d.ide.intrq_pending == 0 then record { ide = r; machine = m } else d

unfoldable pub ide_clear_interrupt : Drive → Drive
ide_clear_interrupt d =
    let r = record (d.ide) { intrq_pending = 0 } in
    let m = if is_ide_irq_enabled d.ide then asic_clear_event event_ide d.machine else d.machine in
    if d.ide.intrq_pending == 0 then d else record { ide = r; machine = m }

-- What the mode is set to at a reset, byte by byte.
abbrev pub default_gdrom_mode : List ℕ
default_gdrom_mode =
    0x00 ∷ 0x00 ∷ 0x00 ∷ 0x00 ∷ 0x00 ∷ 0xb4 ∷ 0x19 ∷ 0x00 ∷ 0x00 ∷ 0x08 ∷ 0x53 ∷ 0x45 ∷ 0x20 ∷ 0x20
    ∷ 0x20 ∷ 0x20 ∷ 0x20 ∷ 0x20 ∷ 0x52 ∷ 0x65 ∷ 0x76 ∷ 0x20 ∷ 0x36 ∷ 0x2e ∷ 0x34 ∷ 0x32 ∷ 0x39
    ∷ 0x39 ∷ 0x30 ∷ 0x33 ∷ 0x31 ∷ 0x36 ∷ []

unfoldable pub ide_reset : Drive → Drive
ide_reset d0 =
    let d = ide_clear_interrupt d0 in
    set_ide
      (record (d.ide) {
        error = 0x01;
        count = 0x01;
        lba0 = 0x81;
        lba1 = 0x14;
        lba2 = 0xeb;
        feature = 0;
        status = 0;
        device = 0;
        state = idle;
        gdrom_sense = λ i. if ltb i 10 then 0 else d.ide.gdrom_sense i;
        gdrom_mode = λ i. if ltb i 32 then get_or default_gdrom_mode i 0 else d.ide.gdrom_mode i;
        data_offset = inactive;
        data_length = inactive;
        last_read_track = 1;
        current_lba = 150;
        current_mode = 0x28;
        sectors_left = 0;
        was_reset = true;
      })
      d

abbrev pub set_sense : ℕ → (ℕ → ℕ) → ℕ → ℕ
set_sense result sense i =
    if i == 0
    then 0xf0
    else if i == 2
    then bit_and result 0xff
    else if i == 8
    then bit_and (result / 2 ^ 8) 0xff
    else sense i

-- ~(IDE_STATUS_BSY|IDE_STATUS_CHK)
abbrev pub not_busy_or_check : ℕ
not_busy_or_check = 0x7e

unfoldable pub ide_set_packet_result : ℕ → Drive → Drive
ide_set_packet_result result d =
    let r = record (d.ide) {
      gdrom_sense = set_sense result d.ide.gdrom_sense;
      error = bit_and result 0x0f * 2 ^ 4;
      count = 3;
    } in
    if result == 0
    then set_ide (record r { status = bit_and r.status not_busy_or_check }) d
    else ide_raise_interrupt (set_ide (record r { status = 0x51; state = idle }) d)

unfoldable pub ide_start_command_packet_write : Drive → Drive
ide_start_command_packet_write d =
    set_ide
      (record (d.ide) {
        state = cmd_write;
        status = 0x58;
        error = bit_and d.ide.feature 0x03;
        count = 1;
        data_offset = 0;
        data_length = 12;
      })
      d

unfoldable pub ide_start_read : ℕ → Bool → Drive → Drive
ide_start_read length dma d =
    let r = record (d.ide) { count = 2; data_length = length; data_offset = 0 } in
    if dma
    then set_ide (record r { state = dma_read; status = 0xd0 }) d
    else ide_raise_interrupt (
        set_ide
          (record r {
            state = pio_read;
            status = 0x58;
            lba1 = bit_and length 0xff;
            lba2 = length / 2 ^ 8 % 256;
          })
          d)

unfoldable pub ide_start_write : ℕ → Bool → Drive → Drive
ide_start_write length dma d =
    let r = record (d.ide) { count = 0; data_length = length; data_offset = 0 } in
    if dma
    then set_ide (record r { state = dma_write; status = 0xd0 }) d
    else ide_raise_interrupt (
        set_ide
          (record r {
            state = pio_write;
            status = 0x58;
            lba1 = bit_and length 0xff;
            lba2 = length / 2 ^ 8 % 256;
          })
          d)

unfoldable pub ide_start_packet_read : ℕ → ℕ → Drive → Drive
ide_start_packet_read length sector_count d =
    let d' = ide_set_packet_result 0 (set_ide (record (d.ide) { sectors_left = sector_count }) d) in
    ide_start_read length (any_set d'.ide.feature 0x01) d'

unfoldable pub ide_start_packet_write : ℕ → ℕ → Drive → Drive
ide_start_packet_write length sector_count d =
    let d' = ide_set_packet_result 0 (set_ide (record (d.ide) { sectors_left = sector_count }) d) in
    ide_start_write length (any_set d'.ide.feature 0x01) d'

-- The status that is read, and the state afterwards.
unfoldable pub ide_read_status : Drive → ℕ × Drive
ide_read_status d =
    let d' = if any_set d.ide.status 0x80 then d else ide_clear_interrupt d in (d'.ide.status, d')

unfoldable pub ide_write_control : ℕ → Drive → Drive
ide_write_control val d =
    let m = d.machine in
    let pending = not (d.ide.intrq_pending == 0) in
    let m' =
      if is_ide_irq_enabled d.ide
      then if any_set val 0x02 && pending then asic_clear_event event_ide m else m
      else if not (any_set val 0x02) && pending
      then asic_event event_ide m
      else m in
    record { ide = record (d.ide) { control = val }; machine = m' }

-- The commands NOP, RESET_DEVICE, PACKET and SET_FEATURE; any other is only logged.
unfoldable pub ide_write_command : ℕ → Drive → Drive
ide_write_command val d0 =
    let cleared = ide_clear_interrupt d0 in
    let d = set_ide (record (cleared.ide) { command = val }) cleared in
    if val == 0x00
    then ide_raise_interrupt (
        set_ide
          (record (d.ide) { state = idle; status = 0x51; error = 0x04; data_offset = inactive }) d)
    else if val == 0x08
    then ide_reset d
    else if val == 0xa0
    then ide_start_command_packet_write d
    else if val == 0xef
    then ide_raise_interrupt
        (set_ide (record (d.ide) { status = 0x50; error = 0; lba1 = 0; lba2 = 0 }) d)
    else d
