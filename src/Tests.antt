-- ===== src/Tests.antt =====
-- Example states and runs of the model, by component.
mod EventRuns
mod IntcRuns
mod MmuRuns
mod ScifRuns
mod MapleRuns
mod TimerRuns
mod AsicRuns
mod DeviceRuns
use lxdream.Base.{
  ℕ, Bool, true, false, Option, none, some, List, [], ◌∷◌, ◌==◌, ◌||◌, if◌then◌else◌, ◌≡◌, refl,
  arith, has,
}
use lxdream.Machine.{
  Cpu, Event, asic_callback, EventQueue, Intc, TmuTimer, G2State, Clocks, Regions, Machine,
}
use lxdream.EventQueue.{not_scheduled}
use lxdream.EventQueue.Invariant.{IsQueue, IsLists, IsWaiting}

abbrev pub cpu : Cpu
cpu = record { slice_cycle = 10; event_pending = 100; event_types = 2; sr = 0 }

-- Events 5 and 7 wait, after 100 and 200 nanoseconds; event 9 waits for three seconds.
abbrev pub event_at : ℕ → ℕ → Option ℕ → ℕ → Event
event_at s ns n a = record {
  id = a;
  seconds = s;
  nanosecs = ns;
  func = some asic_callback;
  next = n;
}

abbrev pub events : ℕ → Event
events a =
    if a == 5
    then event_at 0 100 (some 7) a
    else if a == 7
    then event_at 0 200 none a
    else if a == 9
    then event_at 3 50 none a
    else event_at 0 not_scheduled none a

abbrev pub queue : EventQueue
queue = record {
  events = events;
  event_head = some 5;
  long_event_head = some 9;
  long_scan_time_remaining = 1_000_000_000;
}

abbrev pub short : List ℕ
short = 5 ∷ 7 ∷ []

abbrev pub long : List ℕ
long = 9 ∷ []

-- Source 24 is pending behind source 13.
abbrev pub intc : Intc
intc = record {
  pending = 24 ∷ 13 ∷ [];
  priority = λ a.
      if a == 24 then 1 else if a == 13 then 2 else if a == 11 then 4 else if a == 9 then 6 else 3;
}

-- A timer of 80 nanoseconds a tick.
abbrev pub timer : TmuTimer
timer = record { timer_period = 80; timer_remainder = 30; timer_run = 0 }

abbrev pub clocks : Clocks
clocks = record {
  cpu_freq = 200;
  bus_freq = 100;
  peripheral_freq = 50;
  cpu_period = 10;
  bus_period = 10;
  peripheral_period = 20;
  cpu_multiplier = 2000;
  rtc_output_period = 0;
}

-- Timer 0 stands still at 3 ticks, with 5 to reload.
abbrev pub tmu_regs : ℕ → ℕ
tmu_regs a = if a == 0xc then 3 else if a == 0x8 then 5 else if a == 0x10 then 0x20 else 0

-- Event 3 is pending and let through to IRQ 13.
abbrev pub asic_regs : ℕ → ℕ
asic_regs a = if a == 0x900 || a == 0x910 then 8 else 0

-- Channel 2 of the DMA controller is ready for 16 units of 32 bytes.
abbrev pub dmac_regs : ℕ → ℕ
dmac_regs a =
    if a == 0x40
    then 1
    else if a == 0x2c
    then 0x1241
    else if a == 0x28
    then 16
    else if a == 0x20
    then 1000
    else 0

abbrev pub machine : Machine
machine = record {
  cpu = cpu;
  eventq = queue;
  intc = intc;
  timers = λ a. timer;
  g2 = record {
    bit5_off_timer = 0xffff_ffff;
    bit4_on_timer = 0xffff_ffff;
    bit4_off_timer = 0xffff_ffff;
    bit0_on_timer = 0xffff_ffff;
    bit0_off_timer = 0xffff_ffff;
  };
  clocks = clocks;
  mmio = record { intc = λ a. 0; tmu = tmu_regs; cpg = λ a. 0; asic = asic_regs; dmac = dmac_regs };
}

pub machine-IsQueue : IsQueue queue short long
machine-IsQueue = record {
  lists = record {
    short_chain = ground arith;
    long_chain = ground arith;
    short_distinct = ground arith;
    long_distinct = ground arith;
    apart = λ a h. ground arith;
    sorted = ((omega arith, tt), (tt, tt));
    short_waiting =
        λ a h. record { known = ground arith; named = ground arith; timed = ground arith };
    long_waiting =
        λ a h. record { known = ground arith; named = ground arith; timed = ground arith };
    short_seconds = λ a h. ground arith;
    long_seconds = λ a h. ground arith;
  };
  idle = λ a k m n. ground arith;
}
