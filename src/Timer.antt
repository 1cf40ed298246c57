-- ===== src/Timer.antt =====
-- sh4/timer.c: the timer unit TMU with its three down-counters; the clock generator CPG of that file
-- is in Clock.antt and the access to the registers in Registers.antt. A timer
-- counts when somebody looks at it; its next underflow is an event of the event queue. `none`
-- stands for a division by zero or a failed assertion.
pub mod Clock
pub mod Control
pub mod Count
pub mod Registers
pub mod Schedule
pub mod Underflow
use lxdream.Base.{
  ℕ, ◌+◌, ◌-◌, ◌*◌, ◌/◌, ◌%◌, ◌^◌, Bool, not, ◌&&◌, Option, none, some, List, [], ◌∷◌, bit_and,
  bit_or, ltb, ◌==◌, if◌then◌else◌, any_set, u32_mod, add32, sub32, get_or, ◌>>=◌,
}
use lxdream.Machine.{tmu_callback, TmuTimer, Clocks, Machine, poke}
use lxdream.EventQueue.{event_schedule_long, event_cancel, register_event_callback}
use lxdream.Intc.{int_tmu_tuni0, intc_raise_interrupt, intc_clear_interrupt}

-- eventq.h, EVENT_TMU0.
abbrev pub event_tmu0 : ℕ
event_tmu0 = 97

abbrev pub tstr : ℕ
tstr = 0x4

abbrev pub tcor : ℕ → ℕ
tcor timer = 0x8 + 12 * timer

abbrev pub tcnt : ℕ → ℕ
tcnt timer = 0xc + 12 * timer

abbrev pub tcr : ℕ → ℕ
tcr timer = 0x10 + 12 * timer

abbrev pub tcr_unf : ℕ
tcr_unf = 0x100

abbrev pub tcr_unie : ℕ
tcr_unie = 0x20

abbrev pub tcr_irq_active : ℕ
tcr_irq_active = bit_or tcr_unf tcr_unie

-- ~TCR_UNF
abbrev pub all_but_unf : ℕ
all_but_unf = 0xffff_feff

abbrev pub write_tmu : ℕ → ℕ → Machine → Machine
write_tmu reg val m = record m { mmio = record (m.mmio) { tmu = poke m.mmio.tmu reg val } }

abbrev pub set_timer : ℕ → TmuTimer → Machine → Machine
set_timer timer t m = record m { timers = λ a. if a == timer then t else m.timers a }

-- TMU_IS_RUNNING
abbrev pub tmu_is_running : ℕ → Machine → Bool
tmu_is_running timer m = any_set (m.mmio.tmu tstr) (2 ^ timer)

-- The time until the timer's underflow, a `uint64_t`.
abbrev pub duration : ℕ → TmuTimer → ℕ
duration count t = ((count + 1) * t.timer_period + (2 ^ 64 - t.timer_remainder)) % 2 ^ 64

unfoldable pub tmu_schedule_timer : ℕ → Machine → Machine
tmu_schedule_timer timer m =
    let d = duration (m.mmio.tmu (tcnt timer)) (m.timers timer) in
    event_schedule_long (event_tmu0 + timer) (d / 1_000_000_000 % u32_mod) (d % 1_000_000_000) m

-- The branch of `TMU_count` on which the counter underflows, `count` ticks behind the last look.
unfoldable pub underflow : ℕ → ℕ → Machine → Option Machine
underflow timer count m =
    let reset = m.mmio.tmu (tcor timer) in
    let ticks = sub32 count (m.mmio.tmu (tcnt timer)) in
    let value = add32 (sub32 reset (ticks % reset)) 1 in
    let control = bit_or (m.mmio.tmu (tcr timer)) tcr_unf in
    let m1 = write_tmu (tcr timer) control m in
    let m2 =
      if any_set control tcr_unie then intc_raise_interrupt (int_tmu_tuni0 + timer) m1 else m1 in
    if reset == 0 then none else some (tmu_schedule_timer timer (write_tmu (tcnt timer) value m2))

-- The nanoseconds that the timer has not counted yet.
abbrev pub run_ns : ℕ → TmuTimer → ℕ
run_ns nanosecs t = sub32 (add32 nanosecs t.timer_remainder) t.timer_run

-- Its result, which no caller uses, is the counter that it writes.
unfoldable pub tmu_count : ℕ → ℕ → Machine → Option Machine
tmu_count timer nanosecs m =
    let t = m.timers timer in
    let run = run_ns nanosecs t in
    let count = run / t.timer_period in
    let value = m.mmio.tmu (tcnt timer) in
    let m1 =
      set_timer timer (record t { timer_remainder = run % t.timer_period; timer_run = nanosecs })
        m in
    if t.timer_period == 0
    then none
    else if ltb value count
    then underflow timer count m1
    else some (write_tmu (tcnt timer) (value - count) m1)

unfoldable pub tmu_start : ℕ → Machine → Machine
tmu_start timer m =
    let t = record (m.timers timer) { timer_run = m.cpu.slice_cycle; timer_remainder = 0 } in
    tmu_schedule_timer timer (set_timer timer t m)

unfoldable pub tmu_stop : ℕ → Machine → Option Machine
tmu_stop timer m = do
  m' ← tmu_count timer m.cpu.slice_cycle m
  some (event_cancel (event_tmu0 + timer) m')

-- The period that the low bits of TCR select.
unfoldable pub select_period : ℕ → Clocks → ℕ
select_period control c =
    let p = c.peripheral_period in
    let select = control % 8 in
    if select == 6
    then c.rtc_output_period
    else if select == 7
    then p
    else get_or (p * 2 ^ 2 ∷ p * 2 ^ 4 ∷ p * 2 ^ 6 ∷ p * 2 ^ 8 ∷ p * 2 ^ 10 ∷ p * 2 ^ 12 ∷ [])
        select 0
      % u32_mod

-- The interrupt on a write to TCR, if the underflow is still flagged.
unfoldable pub update_interrupt : ℕ → ℕ → Machine → Machine
update_interrupt timer control m =
    let old = m.mmio.tmu (tcr timer) in
    let active = bit_and control tcr_irq_active == tcr_irq_active in
    if not (any_set old tcr_unie) && active
    then intc_raise_interrupt (int_tmu_tuni0 + timer) m
    else if any_set old tcr_unie && not active
    then intc_clear_interrupt (int_tmu_tuni0 + timer) m
    else m

abbrev pub set_period : ℕ → ℕ → Machine → Machine
set_period timer period m = set_timer timer (record (m.timers timer) { timer_period = period }) m

unfoldable pub change_period : ℕ → ℕ → Machine → Option Machine
change_period timer period m =
    let recount : Option Machine = (do
      m' ← tmu_count timer m.cpu.slice_cycle m
      some (tmu_schedule_timer timer (set_period timer period m'))) in
    if period == (m.timers timer).timer_period
    then some m
    else if tmu_is_running timer m
    then recount
    else some (set_period timer period m)

unfoldable pub tmu_set_timer_control : ℕ → ℕ → Machine → Option Machine
tmu_set_timer_control timer val m =
    let flagged = any_set (m.mmio.tmu (tcr timer)) tcr_unf in
    let control = if flagged then val else bit_and val all_but_unf in
    let m1 = if flagged then update_interrupt timer val m else m in
    do
      m2 ← change_period timer (select_period control m1.clocks) m1
      some (write_tmu (tcr timer) control m2)

-- With the assertion that the event comes at an underflow.
unfoldable pub tmu_event_callback : ℕ → Machine → Option Machine
tmu_event_callback eventid m =
    let timer = eventid - event_tmu0 in
    do
      m' ← tmu_count timer m.cpu.slice_cycle m
      if any_set (m'.mmio.tmu (tcr timer)) tcr_unf then some m' else none

unfoldable pub tmu_init : Machine → Machine
tmu_init m = register_event_callback (event_tmu0 + 2) tmu_callback (
    register_event_callback (event_tmu0 + 1) tmu_callback
      (register_event_callback event_tmu0 tmu_callback m))
