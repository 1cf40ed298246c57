-- ===== src/Tests/ScifRuns.antt =====
-- The theorems on sh4/scif.c at example states.
use lxdream.Base.{
  ◌/◌, ◌<◌, ◌≡◌, refl, true, false, some, [], ◌∷◌, ◌++◌, map, arith, ◌==◌, if◌then◌else◌, take,
  drop, ◌%◌,
}
use lxdream.Scif.{SerialDevice, received, ScifFifo, Scif}
use lxdream.Scif.Device.{serial_transmit_data, serial_transmit_dequeue}
use lxdream.Scif.Clock.{advance, scif_run_to}
use lxdream.Scif.SendQueue.{IsFifo, contents, take_spec}
use lxdream.Scif.Blocks.{waiting, IsWaiting, serial_transmit_dequeue-refines}
use lxdream.Scif.Ticks.{ticks, scif_run_to-ends}
use lxdream.Scif.Sending.{IsSending, scif_run_to-sends}
use lxdream.Scif.Access.{mmio_region_scif_read}
use lxdream.Scif.Accesses.{comes, perform, perform_all, never_received}
use lxdream.Tests.{machine}

abbrev terminal : SerialDevice
terminal = record {
  name = 1;
  attach = true;
  detach = true;
  destroy = true;
  set_line_speed = true;
  set_line_params = true;
  receive_data = true;
}

-- Two bytes that go round the end of the array.
abbrev letters : ScifFifo
letters = record {
  head = 16;
  tail = 1;
  trigger = 8;
  bytes = λ i. if i == 16 then 0x68 else if i == 0 then 0x69 else 0;
}

-- Transmitting and receiving are enabled, and three periods of a tick have passed.
abbrev port : Scif
port = record {
  machine = machine;
  regs = λ a. if a == 0x08 then 0x30 else 0;
  recv_blocks = record { offset = 1; bytes = 5 ∷ 6 ∷ [] } ∷ [];
  device = some terminal;
  calls = [];
  recvq = record { head = 0; tail = 0; trigger = 1; bytes = λ i. 0 };
  sendq = letters;
  rcvd_last_tick = false;
  tick_period = 640;
  tick_remainder = 1930;
  slice_cycle = machine.cpu.slice_cycle;
}

letters-IsFifo : IsFifo letters
letters-IsFifo = record { head_fits = omega arith; tail_fits = omega arith }

port-IsSending : IsSending terminal port
port-IsSending = record {
  enabled = refl;
  line = refl;
  connected = refl;
  takes = refl;
  fifo = letters-IsFifo;
}

scif_run_to-ends_example :
    let n = (advance 900 port).tick_remainder / port.tick_period in
    let s' = record (ticks n (advance 900 port)) { slice_cycle = 900 } in
    (scif_run_to 900 port ≡ some s')
    × (s'.tick_remainder ≡ (advance 900 port).tick_remainder % port.tick_period)
    × (s'.tick_remainder < port.tick_period)
scif_run_to-ends_example = scif_run_to-ends 900 port (omega arith)

scif_run_to-sends_example :
    let n = (advance 900 port).tick_remainder / port.tick_period in
    (s' : Scif) × (scif_run_to 900 port ≡ some s')
    × (s'.calls ≡ port.calls ++ map (received terminal.name) (take n (contents port.sendq)))
    × (contents s'.sendq ≡ drop n (contents port.sendq))
scif_run_to-sends_example = scif_run_to-sends terminal 900 port port-IsSending (omega arith)

serial_transmit_dequeue-refines_example :
    let (byte, s') = serial_transmit_dequeue port in
    IsWaiting s'.recv_blocks
    × (byte ≡ (take_spec (waiting port.recv_blocks)).0)
    × (waiting s'.recv_blocks ≡ (take_spec (waiting port.recv_blocks)).1)
serial_transmit_dequeue-refines_example = serial_transmit_dequeue-refines port (omega arith, tt)

-- A block of two bytes comes in, and the program looks for it.
abbrev full_port : Scif
full_port = record port {
  recv_blocks =
      record { offset = 1; bytes = 5 ∷ 6 ∷ [] } ∷ record { offset = 0; bytes = 7 ∷ 8 ∷ [] } ∷ [];
}

never_received_example :
    (r' : Scif) × (mmio_region_scif_read 0x14 full_port ≡ some (0xffff_ffff, r'))
    × (r'.recvq.head ≡ r'.recvq.tail)
unfolding perform_all serial_transmit_data perform
never_received_example =
    never_received (comes (7 ∷ 8 ∷ []) ∷ []) port full_port refl refl (omega arith)
