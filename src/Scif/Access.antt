-- ===== src/Scif/Access.antt =====
-- sh4/scif.c: reads and writes of the registers.
use lxdream.Base.{
  ℕ, ◌/◌, ◌%◌, ◌^◌, Bool, false, not, ◌&&◌, Option, none, some, ◌>>=◌, List, [], ◌∷◌, bit_and,
  bit_or, leb, ◌==◌, if◌then◌else◌, any_set, get_or,
}
use lxdream.Scif.{
  Scif, scsmr2, scbrr2, scscr2, scftdr2, scfsr2, scfrdr2, scfcr2, scsptr2, sclsr2, write_scif,
  clear, int_scif_eri, int_scif_rxi, int_scif_bri, int_scif_txi, is_transmit_irq_enabled,
  is_receive_irq_enabled, is_receive_error_irq_enabled, fifo_size, scif_recvq_dequeue,
  scif_recvq_clear, scif_sendq_enqueue, scif_sendq_clear,
}
use lxdream.Scif.Device.{tell_params}
use lxdream.Scif.Clock.{scif_update_line_speed, scif_run_to}

abbrev set_if : Bool → ℕ → ℕ → ℕ
set_if b mask x = if b then bit_or x mask else x

-- The status that `SCIF_update_status` writes, by the flags that `mask` keeps and the queues.
unfoldable pub updated_status : ℕ → Scif → ℕ
updated_status mask s =
    let value = s.regs scfsr2 in
    let sending = set_if (not (fifo_size s.sendq == 0)) 0x40 (bit_and value mask) in
    let room = set_if (leb (fifo_size s.sendq) s.sendq.trigger) 0x20 sending in
    let full = set_if (leb s.recvq.trigger (fifo_size s.recvq)) 0x02 room in
    set_if (any_set value 0x01 && not (any_set full 0x01) && not (fifo_size s.recvq == 0)) 0x01 full

abbrev clear_if : Bool → ℕ → Scif → Scif
clear_if b which s = if b then clear which s else s

unfoldable pub scif_update_status : ℕ → Scif → Scif
scif_update_status mask s =
    let result = updated_status mask s in
    let sent = clear_if (not (any_set result 0x20) && is_transmit_irq_enabled s) int_scif_txi s in
    let taken =
      clear_if (not (any_set result 0x03) && is_receive_irq_enabled s) int_scif_rxi sent in
    let errors = is_receive_error_irq_enabled s in
    let unbroken = clear_if (errors && not (any_set result 0x10)) int_scif_bri taken in
    write_scif scfsr2 result (
      clear_if (errors && not (any_set result 0x80) && not (any_set (s.regs sclsr2) 0x01))
        int_scif_eri unbroken)

-- -1 is the word 0xffffffff.
abbrev pub as_word : Option ℕ → ℕ
as_word none = 0xffff_ffff
as_word (some x) = x

unfoldable pub mmio_region_scif_read : ℕ → Scif → Option (ℕ × Scif)
mmio_region_scif_read r s = do
  s' ← scif_run_to s.machine.cpu.slice_cycle s
  let reg = bit_and r 0xfff
  let (byte, taken) = scif_recvq_dequeue false s'
  if reg == scfrdr2 then some (as_word byte, taken) else some (s'.regs reg, s')

-- SCSMR2: the line's speed is computed before the register is written.
unfoldable pub write_mode : ℕ → Scif → Option Scif
write_mode v s = do
  let val = bit_and v 0x007b
  s' ← tell_params val s
  let changed = not (bit_and (s'.regs scsmr2) 0x03 == bit_and val 0x03)
  s'' ← (if changed then scif_update_line_speed s' else some s')
  some (write_scif scsmr2 val s'')

unfoldable pub write_control : ℕ → Scif → Scif
write_control v s =
    let val = bit_and v 0x00fa in
    let sent = clear_if (not (any_set val 0x80)) int_scif_txi s in
    let taken = clear_if (not (any_set val 0x40)) int_scif_rxi sent in
    let unchecked = not (any_set val 0x48) in
    write_scif scscr2 val (clear_if unchecked int_scif_bri (clear_if unchecked int_scif_eri taken))

abbrev pub scif_recvq_triggers : List ℕ
scif_recvq_triggers = 1 ∷ 4 ∷ 8 ∷ 14 ∷ []

abbrev pub scif_sendq_triggers : List ℕ
scif_sendq_triggers = 8 ∷ 4 ∷ 2 ∷ 1 ∷ []

unfoldable pub write_fifo_control : ℕ → Scif → Scif
write_fifo_control v s =
    let val = bit_and v 0x0f in
    let recvq = record (s.recvq) { trigger = get_or scif_recvq_triggers (val / 2 ^ 6) 0 } in
    let sendq = record (s.sendq) {
      trigger = get_or scif_sendq_triggers (bit_and (val / 2 ^ 4) 0x03) 0;
    } in
    let s' = record s { recvq = recvq; sendq = sendq } in
    let s'' = if any_set val 0x04 then scif_sendq_clear s' else s' in
    write_scif scfcr2 val (if any_set val 0x02 then scif_recvq_clear s'' else s'')

unfoldable pub write_line_status : ℕ → Scif → Scif
write_line_status v s =
    let val = bit_and v 0x01 in
    if val == 0
    then (let s' = write_scif sclsr2 val s in
        clear_if (not (any_set (s'.regs scfsr2) 0x80) && is_receive_error_irq_enabled s')
          int_scif_eri s')
    else s

unfoldable pub mmio_region_scif_write : ℕ → ℕ → Scif → Option Scif
mmio_region_scif_write r val s0 = do
  s ← scif_run_to s0.machine.cpu.slice_cycle s0
  let reg = bit_and r 0xfff
  (if reg == scsmr2
      then write_mode val s
      else if reg == scbrr2
      then scif_update_line_speed (write_scif scbrr2 val s)
      else if reg == scscr2
      then some (write_control val s)
      else if reg == scftdr2
      then some ((scif_sendq_enqueue (val % 256) false s).1)
      else if reg == scfsr2
      then some (scif_update_status val s)
      else if reg == scfcr2
      then some (write_fifo_control val s)
      else if reg == scsptr2
      then some (write_scif scsptr2 val s)
      else if reg == sclsr2
      then some (write_line_status val s)
      else some s)
