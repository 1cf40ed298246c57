-- ===== src/Timer/Registers.antt =====
-- The registers of the timer unit of sh4/timer.c, and what it does at the end of a slice and at a
-- reset.
use lxdream.Base.{
  ℕ, ◌^◌, Bool, not, ◌&&◌, Option, some, bit_and, ◌==◌, if◌then◌else◌, any_set, ◌>>=◌,
}
use lxdream.Machine.{Machine}
use lxdream.Timer.{
  tstr, tcr, tcnt, write_tmu, set_timer, tmu_is_running, tmu_count, tmu_schedule_timer, tmu_stop,
  tmu_start, tmu_set_timer_control,
}

unfoldable pub count_if : Bool → ℕ → ℕ → Machine → Option Machine
count_if b timer nanosecs m = if b then tmu_count timer nanosecs m else some m

-- The register that is read, and the state afterwards.
unfoldable pub mmio_region_tmu_read : ℕ → Machine → Option (ℕ × Machine)
mmio_region_tmu_read r m =
    let reg = bit_and r 0xfff in
    let now = m.cpu.slice_cycle in
    do
      m' ←
          if reg == tcnt 0
          then count_if (tmu_is_running 0 m) 0 now m
          else if reg == tcnt 1
          then count_if (tmu_is_running 1 m) 1 now m
          else count_if (reg == tcnt 2 && tmu_is_running 2 m) 2 now m
      some (m'.mmio.tmu reg, m')

-- One round of the loop over the bits of TSTR.
unfoldable pub start_or_stop : ℕ → ℕ → ℕ → Machine → Option Machine
start_or_stop oldval val i m =
    if any_set oldval (2 ^ i) && not (any_set val (2 ^ i))
    then tmu_stop i m
    else if not (any_set oldval (2 ^ i)) && any_set val (2 ^ i)
    then some (tmu_start i m)
    else some m

unfoldable pub write_counter : ℕ → ℕ → Machine → Machine
write_counter timer val m =
    let m1 = write_tmu (tcnt timer) val m in
    let t = record (m1.timers timer) { timer_run = m1.cpu.slice_cycle } in
    if tmu_is_running timer m1 then tmu_schedule_timer timer (set_timer timer t m1) else m1

unfoldable pub mmio_region_tmu_write : ℕ → ℕ → Machine → Option Machine
mmio_region_tmu_write r val m =
    let reg = bit_and r 0xfff in
    let old = m.mmio.tmu tstr in
    let start : Option Machine = (do
      m0 ← start_or_stop old val 0 m
      m1 ← start_or_stop old val 1 m0
      m2 ← start_or_stop old val 2 m1
      some (write_tmu tstr val m2)) in
    if reg == tstr
    then start
    else if reg == tcr 0
    then tmu_set_timer_control 0 val m
    else if reg == tcr 1
    then tmu_set_timer_control 1 val m
    else if reg == tcr 2
    then tmu_set_timer_control 2 val m
    else if reg == tcnt 0
    then some (write_counter 0 val m)
    else if reg == tcnt 1
    then some (write_counter 1 val m)
    else if reg == tcnt 2
    then some (write_counter 2 val m)
    else some (write_tmu reg val m)

unfoldable pub tmu_count_all : ℕ → Machine → Option Machine
tmu_count_all nanosecs m =
    let running = m.mmio.tmu tstr in
    do
      m0 ← count_if (any_set running 1) 0 nanosecs m
      m1 ← count_if (any_set running 2) 1 nanosecs m0
      count_if (any_set running 4) 2 nanosecs m1

abbrev pub restart : ℕ → Machine → Machine
restart timer m = set_timer timer (record (m.timers timer) { timer_run = 0 }) m

unfoldable pub tmu_run_slice : ℕ → Machine → Option Machine
tmu_run_slice nanosecs m = do
  m' ← tmu_count_all nanosecs m
  some (restart 2 (restart 1 (restart 0 m')))

unfoldable pub tmu_update_clocks : Machine → Option Machine
tmu_update_clocks m = do
  m0 ← tmu_set_timer_control 0 (m.mmio.tmu (tcr 0)) m
  m1 ← tmu_set_timer_control 1 (m0.mmio.tmu (tcr 1)) m0
  tmu_set_timer_control 2 (m1.mmio.tmu (tcr 2)) m1

abbrev pub clear_timer : ℕ → Machine → Machine
clear_timer timer m =
    set_timer timer (record (m.timers timer) { timer_remainder = 0; timer_run = 0 }) m

unfoldable pub tmu_reset : Machine → Option Machine
tmu_reset m = tmu_update_clocks (clear_timer 2 (clear_timer 1 (clear_timer 0 m)))
