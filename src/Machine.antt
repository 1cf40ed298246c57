-- ===== src/Machine.antt =====
-- The emulator's global state: what the C files keep in static variables and in `sh4r`, as one
-- record with a part for each component. A register region is a function from the offset of a
-- 32-bit register to its value (mmio.h, `MMIO_READ` and `MMIO_WRITE` at aligned offsets).
use lxdream.Base.{ℕ, Option, List, ◌==◌, if◌then◌else◌}

-- sh4/sh4.h, struct sh4_registers: the fields that the event and interrupt code uses.
pub record Cpu : Type 0 where
  pub slice_cycle : ℕ
  pub event_pending : ℕ
  pub event_types : ℕ
  pub sr : ℕ

-- What an `event_func_t` of the event queue can point at: `event_asic_callback` of eventq.c,
-- `TMU_event_callback` of sh4/timer.c, or a function of a part that is not modelled.
pub data Callback : Type 0 where
  asic_callback tmu_callback : Callback
  client : ℕ → Callback

-- eventq.c, struct event; `next` is the index of an event or NULL.
pub record Event : Type 0 where
  pub id : ℕ
  pub seconds : ℕ
  pub nanosecs : ℕ
  pub func : Option Callback
  pub next : Option ℕ

-- eventq.c, the file's static variables. `long_scan_time_remaining` is an `int`, kept as its
-- 32-bit pattern.
pub record EventQueue : Type 0 where
  pub events : ℕ → Event
  pub event_head : Option ℕ
  pub long_event_head : Option ℕ
  pub long_scan_time_remaining : ℕ

-- sh4/intc.c, struct intc_state: `pending` is the array's first `num_pending` entries.
pub record Intc : Type 0 where
  pub pending : List ℕ
  pub priority : ℕ → ℕ

-- sh4/timer.c, struct TMU_timer.
pub record TmuTimer : Type 0 where
  pub timer_period : ℕ
  pub timer_remainder : ℕ
  pub timer_run : ℕ

-- asic.c, struct asic_g2_state; each `int` as its 32-bit pattern.
pub record G2State : Type 0 where
  pub bit5_off_timer : ℕ
  pub bit4_on_timer : ℕ
  pub bit4_off_timer : ℕ
  pub bit0_on_timer : ℕ
  pub bit0_off_timer : ℕ

-- sh4/timer.c, the clock frequencies and periods.
pub record Clocks : Type 0 where
  pub cpu_freq : ℕ
  pub bus_freq : ℕ
  pub peripheral_freq : ℕ
  pub cpu_period : ℕ
  pub bus_period : ℕ
  pub peripheral_period : ℕ
  pub cpu_multiplier : ℕ
  pub rtc_output_period : ℕ

abbrev pub Region : Type 0
Region = ℕ → ℕ

-- mmio.h, MMIO_WRITE.
abbrev pub poke : Region → ℕ → ℕ → Region
poke r reg val a = if a == reg then val else r a

-- The register regions of mmio.h that the modelled components own.
pub record Regions : Type 0 where
  pub intc : Region
  pub tmu : Region
  pub cpg : Region
  pub asic : Region
  pub dmac : Region

pub record Machine : Type 0 where
  pub cpu : Cpu
  pub eventq : EventQueue
  pub intc : Intc
  pub timers : ℕ → TmuTimer
  pub g2 : G2State
  pub clocks : Clocks
  pub mmio : Regions
