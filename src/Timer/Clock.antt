-- ===== src/Timer/Clock.antt =====
-- The clock generator CPG of sh4/timer.c: the frequencies and the periods of the clocks.
use lxdream.Base.{
  ℕ, ◌*◌, ◌/◌, ◌%◌, ◌^◌, List, [], ◌∷◌, bit_and, ◌==◌, if◌then◌else◌, u32_mod, get_or,
}
use lxdream.Machine.{Clocks, Machine, poke}

-- Register offsets of sh4/sh4mmio.h; those of the three timers are 12 bytes apart.
abbrev pub frqcr : ℕ
frqcr = 0

abbrev pub frqcr_pll1en : ℕ
frqcr_pll1en = 0x400

-- sh4_input_freq, which nothing changes.
abbrev pub sh4_input_freq : ℕ
sh4_input_freq = 200

abbrev pub ifc_divider : List ℕ
ifc_divider = 1 ∷ 2 ∷ 3 ∷ 4 ∷ 5 ∷ 8 ∷ 8 ∷ 8 ∷ []

abbrev pub pfc_divider : List ℕ
pfc_divider = 2 ∷ 3 ∷ 4 ∷ 6 ∷ 8 ∷ 8 ∷ 8 ∷ 8 ∷ []

unfoldable pub set_frequencies : ℕ → Clocks → Clocks
set_frequencies val c =
    let primary_clock =
      if bit_and val frqcr_pll1en == 0 then sh4_input_freq / 6 else sh4_input_freq in
    let ifc = get_or ifc_divider (val / 2 ^ 6 % 8) 0 in
    let bfc = get_or ifc_divider (val / 2 ^ 3 % 8) 0 in
    let pfc = get_or pfc_divider (val % 8) 0 in
    record c {
      cpu_freq = primary_clock / ifc;
      cpu_period = c.cpu_multiplier * ifc % u32_mod / sh4_input_freq;
      bus_freq = primary_clock / bfc;
      bus_period = 1000 * bfc / sh4_input_freq;
      peripheral_freq = primary_clock / pfc;
      peripheral_period = 1000 * pfc / sh4_input_freq;
    }

-- Its call of SCIF_update_line_speed concerns the serial port alone.
unfoldable pub mmio_region_cpg_write : ℕ → ℕ → Machine → Machine
mmio_region_cpg_write r val m =
    let reg = bit_and r 0xfff in
    record m {
      clocks = if reg == frqcr then set_frequencies val m.clocks else m.clocks;
      mmio = record (m.mmio) { cpg = poke m.mmio.cpg reg val };
    }

unfoldable pub mmio_region_cpg_read : ℕ → Machine → ℕ
mmio_region_cpg_read r m = m.mmio.cpg (bit_and r 0xfff)

abbrev pub cpg_reset : Machine → Machine
cpg_reset m = mmio_region_cpg_write frqcr 0x0e0a m
