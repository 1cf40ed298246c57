-- ===== src/Tests/AsicRuns.antt =====
-- The theorems on the system ASIC of asic.c at the example state.
use lxdream.Base.{ℕ, ◌<◌, ◌≡◌, refl, ◌||◌, ◌==◌, some, arith}
use lxdream.Machine.{Machine}
use lxdream.Asic.{line_set, asic_event, asic_clear_event}
use lxdream.Asic.Access.{mmio_region_asic_write}
use lxdream.Asic.Lines.{IsEnabled, IsRouted}
use lxdream.Asic.Events.{is_pending, asic_event-IsRouted}
use lxdream.Asic.Clear.{asic_clear_event-IsRouted}
use lxdream.Asic.Write.{mmio_region_asic_write-IsRouted}
use lxdream.Tests.{machine, intc, asic_regs}
use lxdream.Tests.IntcRuns.{machine-IsPending}

machine-IsEnabled : IsEnabled intc
machine-IsEnabled = (omega arith, omega arith, omega arith)

pub machine-IsRouted : IsRouted machine
unfolding line_set
machine-IsRouted = record {
  pending = machine-IsPending;
  enabled = machine-IsEnabled;
  line13 = refl;
  line11 = refl;
  line9 = refl;
}

asic_event-IsRouted_example :
    IsRouted (asic_event 33 machine)
    × ((a : ℕ)
        → a < 96
        → is_pending a (asic_event 33 machine).mmio.asic
          ≡ (is_pending a asic_regs || a == 33 || a == 30))
asic_event-IsRouted_example = asic_event-IsRouted 33 machine (omega arith) machine-IsRouted

asic_clear_event-IsRouted_example : IsRouted (asic_clear_event 3 machine)
asic_clear_event-IsRouted_example = asic_clear_event-IsRouted 3 machine machine-IsRouted

mmio_region_asic_write-IsRouted_example :
    (m' : Machine) × (mmio_region_asic_write 0x900 8 machine ≡ some m') × IsRouted m'
mmio_region_asic_write-IsRouted_example =
    mmio_region_asic_write-IsRouted 0x900 8 machine machine-IsRouted (ground arith)
