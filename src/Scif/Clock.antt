-- ===== src/Scif/Clock.antt =====
-- sh4/scif.c: the speed of the line and the ticks of the serial clock, one for each byte.
use lxdream.Base.{
  ℕ, zero, suc, ◌+◌, ◌*◌, ◌/◌, ◌%◌, Bool, true, false, not, ◌&&◌, Option, none, some, List, [], ◌∷◌,
  bit_and, bit_or, ltb, leb, ◌==◌, if◌then◌else◌, any_set, u32_mod, add32, sub32, get_or,
}
use lxdream.Dmac.{dmac_scif_rdf, dmac_trigger}
use lxdream.Scif.{
  Scif, scsmr2, scbrr2, scscr2, scfsr2, write_scif, raise, int_scif_rxi, is_receive_irq_enabled,
  is_receive_enabled, is_transmit_enabled, is_loopback_enabled, fifo_size, scif_recvq_enqueue,
  scif_recvq_clear, scif_sendq_dequeue, scif_sendq_clear,
}
use lxdream.Scif.Device.{serial_transmit_dequeue, deliver, tell_speed}

abbrev pub scif_clock_multiplier : List ℕ
scif_clock_multiplier = 1 ∷ 4 ∷ 16 ∷ 64 ∷ []

-- The period of a tick, in nanoseconds, as the registers SCSMR2 and SCBRR2 select it.
abbrev pub line_period : Scif → ℕ
line_period s =
    let mult = get_or scif_clock_multiplier (bit_and (s.regs scsmr2) 0x03) 0 in
    let bbr = bit_and (s.regs scbrr2) 0xff in
    s.machine.clocks.peripheral_period * (32 * mult * (bbr + 1)) % u32_mod

-- `none` if the period is 0, by which the function divides.
unfoldable pub scif_update_line_speed : Scif → Option Scif
scif_update_line_speed s =
    if any_set (s.regs scscr2) 0x02
    then some s
    else if line_period s == 0
    then none
    else some (tell_speed (1000000000 / line_period s) (record s { tick_period = line_period s }))

-- A byte that has come in, if any, with whether one has come in.
unfoldable pub receive : Option ℕ → Scif → Bool × Scif
receive none s = (false, s)
receive (some val) s = (true, (scif_recvq_enqueue val s).1)

-- The two halves of `SCIF_clock_tick` before the DR flag.
unfoldable pub tick_loopback : Scif → Bool × Scif
tick_loopback s =
    let (val, sent) = scif_sendq_dequeue s in
    if is_transmit_enabled s
    then if is_receive_enabled sent then receive val sent else (false, sent)
    else (false, s)

unfoldable pub tick_line : Scif → Bool × Scif
tick_line s =
    let (val, sent) = scif_sendq_dequeue s in
    let s' = if is_transmit_enabled s then deliver val sent else s in
    let (byte, taken) = serial_transmit_dequeue s' in
    if is_receive_enabled s' then receive byte taken else (false, s')

-- The DR flag tells that bytes have been waiting below the trigger level for two ticks.
unfoldable pub flag_waiting : Bool → Scif → Scif
flag_waiting rcvd s =
    let tmp = s.regs scfsr2 in
    if not rcvd
      && not s.rcvd_last_tick
      && not (s.recvq.head == s.recvq.tail)
      && ltb (fifo_size s.recvq) s.recvq.trigger
      && not (any_set tmp 0x01)
    then (let s' = write_scif scfsr2 (bit_or tmp 0x01) s in
        let s'' = if is_receive_irq_enabled s' then raise int_scif_rxi s' else s' in
        record s'' { machine = dmac_trigger dmac_scif_rdf s''.machine })
    else s

unfoldable pub scif_clock_tick : Scif → Scif
scif_clock_tick s =
    let (rcvd, s') = if is_loopback_enabled s then tick_loopback s else tick_line s in
    record (flag_waiting rcvd s') { rcvd_last_tick = rcvd }

-- The loop of `SCIF_run_to`; `none` if it takes more rounds than `fuel`.
unfoldable pub run_ticks : ℕ → Scif → Option Scif
run_ticks zero s = none
run_ticks (suc fuel) s =
    let next =
      run_ticks fuel
        (scif_clock_tick (record s { tick_remainder = sub32 s.tick_remainder s.tick_period })) in
    if leb s.tick_period s.tick_remainder then next else some s

-- The time that has come in when the CPU is at `nanosecs`.
abbrev pub advance : ℕ → Scif → Scif
advance nanosecs s = record s {
  tick_remainder = add32 s.tick_remainder (sub32 nanosecs s.slice_cycle);
}

-- A tick takes a nanosecond at least, so that the loop has at most `tick_remainder` rounds.
unfoldable pub scif_run_to : ℕ → Scif → Option Scif
scif_run_to nanosecs s =
    let s' = advance nanosecs s in
    elim (run_ticks (suc s'.tick_remainder) s') [
      | none ↦ none
      | some s'' ↦ some (record s'' { slice_cycle = nanosecs })
    ]

unfoldable pub scif_run_slice : ℕ → Scif → Option Scif
scif_run_slice nanosecs s = elim (scif_run_to nanosecs s) [
  | none ↦ none
  | some s' ↦ some (record s' { slice_cycle = 0 })
]

unfoldable pub scif_reset : Scif → Option Scif
scif_reset s = scif_update_line_speed (scif_sendq_clear (scif_recvq_clear s))
