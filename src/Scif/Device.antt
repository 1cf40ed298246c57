-- ===== src/Scif/Device.antt =====
-- The calls between sh4/scif.c and the serial device, and the blocks of data from the device. The
-- functions of a device do not call back.
use lxdream.Base.{
  ℕ, ◌+◌, Bool, false, Option, none, some, List, [], ◌∷◌, ◌++◌, bit_or, leb, ◌==◌, if◌then◌else◌,
  get_or, length,
}
use lxdream.Scif.{
  SerialDevice, DeviceCall, attached, detached, destroyed, line_speed, line_params, received, Scif,
  scfsr2, write_scif, raise, int_scif_bri, is_receive_error_irq_enabled,
}

abbrev pub call : DeviceCall → Scif → Scif
call c s = record s { calls = s.calls ++ (c ∷ []) }

unfoldable pub serial_detach_device : Scif → Option SerialDevice × Scif
serial_detach_device s = elim s.device [
  | none ↦ (none, s)
  | some d ↦ (some d, record (if d.detach then call (detached d.name) s else s) { device = none })
]

unfoldable pub serial_attach_device : Option SerialDevice → Scif → Option SerialDevice × Scif
serial_attach_device dev s =
    let s' = record ((serial_detach_device s).1) { device = dev } in
    let s'' : Scif = elim dev [
      | none ↦ s'
      | some d ↦ if d.attach then call (attached d.name) s' else s'
    ] in
    (s.device, s'')

abbrev is_device : Option SerialDevice → SerialDevice → Bool
is_device none dev = false
is_device (some d) dev = d.name == dev.name

unfoldable pub serial_destroy_device : Option SerialDevice → Scif → Scif
serial_destroy_device none s = s
serial_destroy_device (some dev) s =
    let s' = if is_device s.device dev then (serial_detach_device s).1 else s in
    if dev.destroy then call (destroyed dev.name) s' else s'

-- `data` is the list of its `length` bytes.
unfoldable pub serial_transmit_data : List ℕ → Scif → Scif
serial_transmit_data bytes s =
    if length bytes == 0
    then s
    else record s { recv_blocks = s.recv_blocks ++ (record { offset = 0; bytes = bytes } ∷ []) }

-- A byte from the first block, which goes when all its bytes are taken; `none` stands for -1.
unfoldable pub serial_transmit_dequeue : Scif → Option ℕ × Scif
serial_transmit_dequeue s = elim s.recv_blocks [
  | [] ↦ (none, s)
  | b ∷ bs ↦
      let offset = b.offset + 1 in
      (
        some (get_or b.bytes b.offset 0),
        record s {
          recv_blocks =
              if leb (length b.bytes) offset then bs else record b { offset = offset } ∷ bs;
        },
      )
]

unfoldable pub scif_set_break : Scif → Scif
scif_set_break s =
    let s' = write_scif scfsr2 (bit_or (s.regs scfsr2) 0x10) s in
    if is_receive_error_irq_enabled s' then raise int_scif_bri s' else s'

abbrev pub serial_transmit_break : Scif → Scif
serial_transmit_break s = scif_set_break s

-- A byte that the port sends: it goes to the device's `receive_data`, if there is one.
unfoldable pub deliver : Option ℕ → Scif → Scif
deliver none s = s
deliver (some val) s = elim s.device [
  | none ↦ s
  | some d ↦ if d.receive_data then call (received d.name val) s else s
]

-- The device is told of the speed of the line.
unfoldable pub tell_speed : ℕ → Scif → Scif
tell_speed baudrate s = elim s.device [
  | none ↦ s
  | some d ↦ if d.set_line_speed then call (line_speed d.name baudrate) s else s
]

-- `set_line_params` is called without a look at the pointer: `none` if it is NULL.
unfoldable pub tell_params : ℕ → Scif → Option Scif
tell_params flags s = elim s.device [
  | none ↦ some s
  | some d ↦ if d.set_line_params then some (call (line_params d.name flags) s) else none
]
