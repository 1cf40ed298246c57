-- ===== src/Pmm.antt =====
-- sh4/pmm.c: the two performance counters. `now` is `sh4r.slice_cycle`.
pub mod Count
use lxdream.Base.{
  ℕ, ◌+◌, ◌/◌, ◌%◌, ◌^◌, Bool, true, false, not, ◌&&◌, Option, none, some, List, [], ◌∷◌, bit_and,
  ◌==◌, if◌then◌else◌, any_set, u32_mod, sub32,
}

-- struct PMM_counter_struct; `count` has 64 bits.
pub record PmmCounter : Type 0 where
  pub count : ℕ
  pub mode : ℕ
  pub runfor : ℕ

-- PMM_counter, the array of two counters.
abbrev pub Pmm : Type 0
Pmm = ℕ → PmmCounter

abbrev pub stopped : PmmCounter
stopped = record { count = 0; mode = 0; runfor = 0 }

abbrev pub set_counter : ℕ → PmmCounter → Pmm → Pmm
set_counter ctr c p i = if i == ctr then c else p i

unfoldable pub pmm_reset : Pmm → Pmm
pmm_reset p = set_counter 1 stopped (set_counter 0 stopped p)

-- 1000 / SH4_BASE_RATE
abbrev pub nanosecs_per_count : ℕ
nanosecs_per_count = 5

abbrev pub elapsed_time : ℕ
elapsed_time = 0x23

-- PMM_count of one counter.
unfoldable pub pmm_count : ℕ → PmmCounter → PmmCounter
pmm_count runfor c =
    let delta = sub32 runfor c.runfor in
    record c {
      count =
          if c.mode == elapsed_time
          then (c.count + delta / nanosecs_per_count) % 2 ^ 64
          else c.count;
      runfor = runfor;
    }

abbrev pub count_at : ℕ → ℕ → Pmm → Pmm
count_at ctr runfor p = set_counter ctr (pmm_count runfor (p ctr)) p

abbrev restart : ℕ → Pmm → Pmm
restart ctr p = set_counter ctr (record (p ctr) { runfor = 0 }) p

unfoldable pub pmm_run_slice : ℕ → Pmm → Pmm
pmm_run_slice nanosecs p = restart 1 (restart 0 (count_at 1 nanosecs (count_at 0 nanosecs p)))

abbrev pub pmcr_pmclr : ℕ
pmcr_pmclr = 0x2000

abbrev pub pmcr_running : ℕ
pmcr_running = 0xc000

-- The mode that a write of the control register selects; 0 while the counter does not run.
abbrev pub mode_of : ℕ → ℕ
mode_of val = if bit_and val pmcr_running == pmcr_running then bit_and val 0x3f else 0

unfoldable pub pmm_write_control : ℕ → ℕ → ℕ → Pmm → Pmm
pmm_write_control ctr val now p =
    let c = pmm_count now (p ctr) in
    set_counter ctr
      (record c {
        count = if c.mode == 0 && any_set val pmcr_pmclr then 0 else c.count;
        mode = mode_of val;
      })
      p

-- The registers PMCTR1H, PMCTR1L, PMCTR2H, and PMCTR2L for every other offset.
unfoldable pub mmio_region_pmm_read : ℕ → ℕ → Pmm → ℕ × Pmm
mmio_region_pmm_read r now p =
    let reg = bit_and r 0x1f in
    let first = count_at 0 now p in
    let second = count_at 1 now p in
    if reg == 0
    then (0, p)
    else if reg == 0x04
    then (bit_and ((first 0).count / 2 ^ 32) 0xffff, first)
    else if reg == 0x08
    then ((first 0).count % u32_mod, first)
    else if reg == 0x0c
    then (bit_and ((second 1).count / 2 ^ 32) 0xffff, second)
    else ((second 1).count % u32_mod, second)

abbrev pub mmio_region_pmm_write : ℕ → ℕ → Pmm → Pmm
mmio_region_pmm_write reg val p = p
