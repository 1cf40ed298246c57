-- ===== src/Scif/Frame.antt =====
-- What the parts of a tick of sh4/scif.c leave alone.
use lxdream.Base.{ℕ, Bool, true, false, Option, none, some, List, ◌≡◌, refl, arith}
use lxdream.Scif.{
  SerialDevice, DeviceCall, ScifFifo, Scif, scscr2, scfcr2, is_transmit_enabled,
  is_loopback_enabled, scif_recvq_enqueue, scif_sendq_dequeue,
}
use lxdream.Scif.Device.{deliver, serial_transmit_dequeue}
use lxdream.Scif.Clock.{receive, flag_waiting, tick_loopback, tick_line, scif_clock_tick}

-- What the ticks go by: the clock, the two control registers and the device.
abbrev pub settings : Scif → ℕ × ℕ × ℕ × ℕ × Option SerialDevice
settings s = (s.tick_period, s.tick_remainder, s.regs scscr2, s.regs scfcr2, s.device)

abbrev pub output : Scif → ScifFifo × List DeviceCall
output s = (s.sendq, s.calls)

scif_recvq_enqueue-settings :
    (x : ℕ) (s : Scif) → settings ((scif_recvq_enqueue x s).1) ≡ settings s
unfolding scif_recvq_enqueue
scif_recvq_enqueue-settings x s = ground arith

scif_recvq_enqueue-output : (x : ℕ) (s : Scif) → output ((scif_recvq_enqueue x s).1) ≡ output s
unfolding scif_recvq_enqueue
scif_recvq_enqueue-output x s = ground arith

receive-settings : (o : Option ℕ) (s : Scif) → settings ((receive o s).1) ≡ settings s
unfolding receive
receive-settings none s = refl
receive-settings (some x) s = scif_recvq_enqueue-settings x s

receive-output : (o : Option ℕ) (s : Scif) → output ((receive o s).1) ≡ output s
unfolding receive
receive-output none s = refl
receive-output (some x) s = scif_recvq_enqueue-output x s

pub scif_sendq_dequeue-settings : (s : Scif) → settings ((scif_sendq_dequeue s).1) ≡ settings s
unfolding scif_sendq_dequeue
scif_sendq_dequeue-settings s = ground arith

pub scif_sendq_dequeue-calls : (s : Scif) → (scif_sendq_dequeue s).1.calls ≡ s.calls
unfolding scif_sendq_dequeue
scif_sendq_dequeue-calls s = ground arith

deliver-settings : (o : Option ℕ) (s : Scif) → settings (deliver o s) ≡ settings s
unfolding deliver
deliver-settings none s = refl
deliver-settings (some x) s = ground arith

serial_transmit_dequeue-settings :
    (s : Scif) → settings ((serial_transmit_dequeue s).1) ≡ settings s
unfolding serial_transmit_dequeue
serial_transmit_dequeue-settings s = ground arith

serial_transmit_dequeue-output : (s : Scif) → output ((serial_transmit_dequeue s).1) ≡ output s
unfolding serial_transmit_dequeue
serial_transmit_dequeue-output s = ground arith

flag_waiting-settings : (b : Bool) (s : Scif) → settings (flag_waiting b s) ≡ settings s
unfolding flag_waiting
flag_waiting-settings b s = ground arith

flag_waiting-output : (b : Bool) (s : Scif) → output (flag_waiting b s) ≡ output s
unfolding flag_waiting
flag_waiting-output b s = ground arith

tick_loopback-settings : (s : Scif) → settings ((tick_loopback s).1) ≡ settings s
unfolding tick_loopback
tick_loopback-settings s = grind (arith, receive-settings, scif_sendq_dequeue-settings)

tick_line-settings : (s : Scif) → settings ((tick_line s).1) ≡ settings s
unfolding tick_line
tick_line-settings s = grind (
  arith, receive-settings, scif_sendq_dequeue-settings, deliver-settings,
  serial_transmit_dequeue-settings,
)

pub scif_clock_tick-settings : (s : Scif) → settings (scif_clock_tick s) ≡ settings s
unfolding scif_clock_tick
scif_clock_tick-settings s =
    grind (arith, flag_waiting-settings, tick_loopback-settings, tick_line-settings)

-- A tick without loopback sends what it takes from the transmit FIFO.
pub scif_clock_tick-output :
    (s : Scif)
    → is_transmit_enabled s ≡ true
    → is_loopback_enabled s ≡ false
    → let (byte, sent) = scif_sendq_dequeue s in
      output (scif_clock_tick s) ≡ output (deliver byte sent)
unfolding scif_clock_tick tick_line
scif_clock_tick-output s t l =
    grind (arith, flag_waiting-output, receive-output, serial_transmit_dequeue-output)
