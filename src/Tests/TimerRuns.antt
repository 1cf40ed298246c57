-- ===== src/Tests/TimerRuns.antt =====
-- The theorems on the timers of sh4/timer.c at the example state.
use lxdream.Base.{
  ◌==◌, if◌then◌else◌, ◌&&◌, ◌+◌, ◌*◌, ◌^◌, ◌≤◌, ◌<◌, ◌≡◌, refl, true, some, arith, any_set,
}
use lxdream.Machine.{Machine}
use lxdream.Intc.Delivery.{IsPending}
use lxdream.Timer.{
  tcr, tcr_unf, select_period, tmu_count, tmu_schedule_timer, tmu_set_timer_control,
}
use lxdream.Timer.Clock.{frqcr, mmio_region_cpg_write}
use lxdream.Timer.Count.{due, IsCounting}
use lxdream.Timer.Underflow.{interrupted, tmu_count-underflow}
use lxdream.Timer.Schedule.{IsScheduled, tmu_schedule_timer-due}
use lxdream.Timer.Control.{IsCaused, tmu_set_timer_control-IsCaused, mmio_region_cpg_write-clocked}
use lxdream.Tests.{tmu_regs, machine, short, long, machine-IsQueue}
use lxdream.Tests.IntcRuns.{machine-IsPending}

machine-IsCounting : IsCounting 0 machine
machine-IsCounting = record { clocked = omega arith; left_over = omega arith }

tmu_count-underflow_example :
    (m' : Machine) × (tmu_count 0 300 machine ≡ some m')
    × (due 0 m' ≡ 290 + (5 + 1) * 80)
    × IsCounting 0 m'
    × (any_set (m'.mmio.tmu (tcr 0)) tcr_unf ≡ true)
    × (m'.intc ≡ interrupted 0 machine m')
tmu_count-underflow_example =
    tmu_count-underflow 0 300 machine machine-IsCounting (omega arith, omega arith) (omega arith)
      (omega arith) (omega arith) (omega arith)

-- The beginning of a slice.
abbrev early : Machine
early = record machine { cpu = record (machine.cpu) { slice_cycle = 0 } }

-- A timer that is due after more than a second.
abbrev slow : Machine
slow = record early {
  mmio = record (early.mmio) { tmu = λ a. if a == 0xc then 20_000_000 else tmu_regs a };
}

tmu_schedule_timer-due_example : IsScheduled 0 slow short long (tmu_schedule_timer 0 slow).eventq
tmu_schedule_timer-due_example =
    tmu_schedule_timer-due 0 slow short long (omega arith)
      (record { clocked = omega arith; left_over = omega arith }) (omega arith) refl (omega arith)
      (omega arith) (omega arith) machine-IsQueue

tmu_set_timer_control-IsCaused_example :
    (m' : Machine) × (tmu_set_timer_control 0 0x121 machine ≡ some m')
    × IsPending m'.intc
    × IsCaused 0 m'
    × (any_set (m'.mmio.tmu (tcr 0)) tcr_unf ≡ (any_set 0x20 tcr_unf && any_set 0x121 tcr_unf))
tmu_set_timer_control-IsCaused_example =
    tmu_set_timer_control-IsCaused 0 0x121 machine refl (omega arith) machine-IsPending
      (λ h. ground arith)

mmio_region_cpg_write-clocked_example :
    (0 < select_period 4 (mmio_region_cpg_write frqcr 0x0e0a machine).clocks)
    × (select_period 4 (mmio_region_cpg_write frqcr 0x0e0a machine).clocks ≤ 40 * 2 ^ 12)
mmio_region_cpg_write-clocked_example = mmio_region_cpg_write-clocked 0x0e0a 4 machine (omega arith)
