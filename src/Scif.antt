-- ===== src/Scif.antt =====
-- sh4/scif.c: the serial port with its two FIFOs of 16 bytes, and the blocks of data that a serial
-- device hands over. `none` stands for a division by zero or a call through a null pointer.
pub mod Access
pub mod Accesses
pub mod Blocks
pub mod Clock
pub mod Device
pub mod Frame
pub mod SendQueue
pub mod Sending
pub mod Ticks
pub mod Unread
use lxdream.Base.{
  ℕ, zero, suc, ◌+◌, ◌-◌, ◌*◌, ◌/◌, ◌%◌, ◌^◌, Bool, true, false, not, ◌&&◌, ◌||◌, Option, none,
  some, List, [], ◌∷◌, ◌++◌, bit_and, bit_or, ltb, leb, ◌==◌, if◌then◌else◌, any_set, u32_mod,
  add32, sub32, get_or, length,
}
use lxdream.Machine.{Machine, Region, poke}
use lxdream.Intc.{intc_raise_interrupt, intc_clear_interrupt}
use lxdream.Dmac.{dmac_scif_tde, dmac_scif_rdf, dmac_trigger}

-- A block of received data; `offset` bytes of it have been taken.
pub record SerialBlock : Type 0 where
  pub offset : ℕ
  pub bytes : List ℕ

-- serial.h, struct serial_device: which of the function pointers are not NULL. `name` stands for
-- the address of the device.
pub record SerialDevice : Type 0 where
  pub name : ℕ
  pub attach : Bool
  pub detach : Bool
  pub destroy : Bool
  pub set_line_speed : Bool
  pub set_line_params : Bool
  pub receive_data : Bool

-- A call of one of these functions, with the device and the argument.
pub data DeviceCall : Type 0 where
  attached detached destroyed : ℕ → DeviceCall
  line_speed line_params received : ℕ → ℕ → DeviceCall

pub record ScifFifo : Type 0 where
  pub head : ℕ
  pub tail : ℕ
  pub trigger : ℕ
  pub bytes : ℕ → ℕ

-- The variables of the file: `regs` is the register region, `recv_blocks` the list from
-- `serial_recvq_head` to `serial_recvq_tail`. `calls` are the calls of the device's functions so
-- far, the first call first.
pub record Scif : Type 0 where
  pub machine : Machine
  pub regs : Region
  pub recv_blocks : List SerialBlock
  pub device : Option SerialDevice
  pub calls : List DeviceCall
  pub recvq : ScifFifo
  pub sendq : ScifFifo
  pub rcvd_last_tick : Bool
  pub tick_period : ℕ
  pub tick_remainder : ℕ
  pub slice_cycle : ℕ

abbrev pub scsmr2 : ℕ
scsmr2 = 0x00

abbrev pub scbrr2 : ℕ
scbrr2 = 0x04

abbrev pub scscr2 : ℕ
scscr2 = 0x08

abbrev pub scftdr2 : ℕ
scftdr2 = 0x0c

abbrev pub scfsr2 : ℕ
scfsr2 = 0x10

abbrev pub scfrdr2 : ℕ
scfrdr2 = 0x14

abbrev pub scfcr2 : ℕ
scfcr2 = 0x18

abbrev pub scfdr2 : ℕ
scfdr2 = 0x1c

abbrev pub scsptr2 : ℕ
scsptr2 = 0x20

abbrev pub sclsr2 : ℕ
sclsr2 = 0x24

abbrev pub int_scif_eri : ℕ
int_scif_eri = 34

abbrev pub int_scif_rxi : ℕ
int_scif_rxi = 35

abbrev pub int_scif_bri : ℕ
int_scif_bri = 36

abbrev pub int_scif_txi : ℕ
int_scif_txi = 37

abbrev pub fifo_length : ℕ
fifo_length = 16

abbrev pub write_scif : ℕ → ℕ → Scif → Scif
write_scif reg val s = record s { regs = poke s.regs reg val }

abbrev pub raise : ℕ → Scif → Scif
raise which s = record s { machine = intc_raise_interrupt which s.machine }

abbrev pub clear : ℕ → Scif → Scif
clear which s = record s { machine = intc_clear_interrupt which s.machine }

abbrev pub is_transmit_irq_enabled : Scif → Bool
is_transmit_irq_enabled s = any_set (s.regs scscr2) 0x80

abbrev pub is_receive_irq_enabled : Scif → Bool
is_receive_irq_enabled s = any_set (s.regs scscr2) 0x40

abbrev pub is_receive_error_irq_enabled : Scif → Bool
is_receive_error_irq_enabled s = any_set (s.regs scscr2) 0x48

abbrev pub is_receive_enabled : Scif → Bool
is_receive_enabled s = any_set (s.regs scscr2) 0x10 && not (any_set (s.regs sclsr2) 0x01)

abbrev pub is_transmit_enabled : Scif → Bool
is_transmit_enabled s = any_set (s.regs scscr2) 0x20

abbrev pub is_loopback_enabled : Scif → Bool
is_loopback_enabled s = any_set (s.regs scfcr2) 0x01

-- `x & ~mask` of a 32-bit word.
abbrev pub without : ℕ → ℕ → ℕ
without mask x = bit_and x (0xffff_ffff - mask)

-- `SCIF_recvq_size` and `SCIF_sendq_size`, which differ in the queue alone.
abbrev pub fifo_size : ScifFifo → ℕ
fifo_size q = if ltb q.tail q.head then fifo_length + 1 - q.head + q.tail else q.tail - q.head

-- The index after `i` in the array of 17 bytes.
abbrev pub next_index : ℕ → ℕ
next_index i = if ltb fifo_length (i + 1) then 0 else i + 1

-- The flags that `SCIF_recvq_dequeue` clears when so many bytes are left.
abbrev received_flags : ℕ → ℕ
received_flags n = if n == 0 then 0x03 else 0x02

abbrev pub drop_received : ℕ → Scif → Scif
drop_received n s =
    let tmp = without (received_flags n) (s.regs scfsr2) in
    let s' = write_scif scfsr2 tmp s in
    if not (any_set tmp 0x03) && is_receive_irq_enabled s' then clear int_scif_rxi s' else s'

-- `none` stands for the result -1.
unfoldable pub scif_recvq_dequeue : Bool → Scif → Option ℕ × Scif
scif_recvq_dequeue clear_flags s =
    let q = s.recvq in
    if q.head == q.tail
    then (none, s)
    else let q' = record q { head = next_index q.head } in
      let s' = record s { recvq = q' } in
      let n = fifo_size q' in
      let s'' = write_scif scfdr2 (bit_or (bit_and (s.regs scfdr2) 0xf0) n) s' in
      (some (q.bytes q.head), if clear_flags && ltb n q.trigger then drop_received n s'' else s'')

-- The byte is stored at the tail; the tail itself stays where it is.
unfoldable pub scif_recvq_enqueue : ℕ → Scif → Bool × Scif
scif_recvq_enqueue value s =
    let q = s.recvq in
    if next_index q.tail == q.head
    then (let s' = write_scif sclsr2 0x01 s in
        (false, if is_receive_error_irq_enabled s' then raise int_scif_eri s' else s'))
    else (let q' = record q { bytes = λ i. if i == q.tail then value else q.bytes i } in
        let n = fifo_size q' in
        let s' =
          write_scif scfdr2 (bit_or (bit_and (s.regs scfdr2) 0xf0) n) (record s { recvq = q' }) in
        let tmp = s'.regs scfsr2 in
        if leb q.trigger n
        then (let s'' = if is_receive_irq_enabled s' then raise int_scif_rxi s' else s' in
            (
              true,
              write_scif scfsr2 (bit_or tmp 0x02)
                  (record s'' { machine = dmac_trigger dmac_scif_rdf s''.machine }),
            ))
        else (true, write_scif scfsr2 tmp s'))

unfoldable pub scif_recvq_clear : Scif → Scif
scif_recvq_clear s =
    let q = record (s.recvq) { head = 0; tail = 0 } in
    let s' = write_scif scfdr2 (bit_and (s.regs scfdr2) 0xf0) (record s { recvq = q }) in
    let s'' = write_scif scfsr2 (without 0x03 (s'.regs scfsr2)) s' in
    if is_receive_irq_enabled s'' then clear int_scif_rxi s'' else s''

-- The part of `SCIF_sendq_dequeue` that tells that the queue has room, with `n` bytes left.
abbrev pub signal_sent : ℕ → Scif → Scif
signal_sent n s =
    let tmp = bit_or (s.regs scfsr2) 0x20 in
    let flags = if n == 0 then bit_or tmp 0x40 else tmp in
    let s' = if is_transmit_irq_enabled s then raise int_scif_txi s else s in
    write_scif scfsr2 flags (record s' { machine = dmac_trigger dmac_scif_tde s'.machine })

unfoldable pub scif_sendq_dequeue : Scif → Option ℕ × Scif
scif_sendq_dequeue s =
    let q = s.sendq in
    if q.head == q.tail
    then (none, s)
    else let q' = record q { head = next_index q.head } in
      let n = fifo_size q' in
      let s' =
        write_scif scfdr2 (bit_or (bit_and (s.regs scfdr2) 0x0f) (n * 2 ^ 8))
          (record s { sendq = q' }) in
      (some (q.bytes q.head), if leb n q.trigger then signal_sent n s' else s')

abbrev pub drop_sent : ℕ → ℕ → Scif → Scif
drop_sent n trigger s =
    let s' = if ltb trigger n && is_transmit_irq_enabled s then clear int_scif_txi s else s in
    write_scif scfsr2 (without (if ltb trigger n then 0x60 else 0x40) (s'.regs scfsr2)) s'

unfoldable pub scif_sendq_enqueue : ℕ → Bool → Scif → Bool × Scif
scif_sendq_enqueue value clear_flags s =
    let q = s.sendq in
    let newpos = next_index q.tail in
    if newpos == q.head
    then (false, s)
    else let q' = record q {
      tail = newpos;
      bytes = λ i. if i == q.tail then value % 256 else q.bytes i;
    } in
      let n = fifo_size q' in
      let s' =
        write_scif scfdr2 (bit_or (bit_and (s.regs scfdr2) 0x0f) (n * 2 ^ 8))
          (record s { sendq = q' }) in
      (true, if clear_flags then drop_sent n q.trigger s' else s')

unfoldable pub scif_sendq_clear : Scif → Scif
scif_sendq_clear s =
    let q = record (s.sendq) { head = 0; tail = 0 } in
    let s' = write_scif scfdr2 (bit_and (s.regs scfdr2) 0x0f) (record s { sendq = q }) in
    let s'' = write_scif scfsr2 (bit_or (bit_or (s'.regs scfsr2) 0x40) 0x20) s' in
    if is_transmit_irq_enabled s''
    then (let raised = raise int_scif_txi s'' in
        record raised { machine = dmac_trigger dmac_scif_tde raised.machine })
    else s''
