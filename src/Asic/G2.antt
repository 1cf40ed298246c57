-- ===== src/Asic/G2.antt =====
-- asic.c: the status of the FIFO of the G2 bus, register G2STATUS. A write sets bit 5; timers clear
-- it and step on to bit 4 and bit 0. A timer is an `int`, kept as its 32-bit pattern; -1 is off.
use lxdream.Base.{ℕ, Bool, bit_and, bit_or, leb, ltb, if◌then◌else◌, add32, sub32}
use lxdream.Machine.{Machine, G2State}
use lxdream.Asic.{write_asic}

abbrev pub g2status : ℕ
g2status = 0x88c

abbrev pub g2_bit5_ticks : ℕ
g2_bit5_ticks = 60

abbrev pub g2_bit4_ticks : ℕ
g2_bit4_ticks = 160

abbrev pub g2_bit0_on_ticks : ℕ
g2_bit0_on_ticks = 120

abbrev pub g2_bit0_off_ticks : ℕ
g2_bit0_off_ticks = 420

-- The pattern of -1.
abbrev pub off : ℕ
off = 0xffff_ffff

-- `a < b` of two `int`s, by their patterns.
abbrev pub less : ℕ → ℕ → Bool
less a b = ltb (add32 a 0x8000_0000) (add32 b 0x8000_0000)

-- ~0x20, ~0x10 and ~0x01
abbrev pub all_but_bit5 : ℕ
all_but_bit5 = 0xffff_ffdf

abbrev pub all_but_bit4 : ℕ
all_but_bit4 = 0xffff_ffef

abbrev pub all_but_bit0 : ℕ
all_but_bit0 = 0xffff_fffe

-- A timer at the end of a slice.
unfoldable pub elapse : ℕ → ℕ → ℕ
elapse nanosecs timer = if less nanosecs timer then sub32 timer nanosecs else off

-- A timer that is turned off once its time has come.
abbrev pub expire : ℕ → ℕ → ℕ
expire nanos timer = if leb timer nanos then off else timer

-- The status after the steps whose times have come.
unfoldable pub fifo_status : ℕ → G2State → ℕ → ℕ
fifo_status nanos g val =
    let v1 = if leb g.bit5_off_timer nanos then bit_and val all_but_bit5 else val in
    let v2 = if leb g.bit4_on_timer nanos then bit_or v1 0x10 else v1 in
    let v3 = if leb g.bit4_off_timer nanos then bit_and v2 all_but_bit4 else v2 in
    let v4 = if leb g.bit0_on_timer nanos then bit_or v3 0x01 else v3 in
    if leb g.bit0_off_timer nanos then bit_and v4 all_but_bit0 else v4

unfoldable pub expire_all : ℕ → G2State → G2State
expire_all nanos g = record {
  bit5_off_timer = expire nanos g.bit5_off_timer;
  bit4_on_timer = expire nanos g.bit4_on_timer;
  bit4_off_timer = expire nanos g.bit4_off_timer;
  bit0_on_timer = expire nanos g.bit0_on_timer;
  bit0_off_timer = expire nanos g.bit0_off_timer;
}

-- Its result is the register that it writes.
unfoldable pub g2_update_fifo_status : ℕ → Machine → Machine
g2_update_fifo_status nanos m =
    record (write_asic g2status (fifo_status nanos m.g2 (m.mmio.asic g2status)) m) {
      g2 = expire_all nanos m.g2;
    }

unfoldable pub asic_run_slice : ℕ → Machine → Machine
asic_run_slice nanosecs m =
    let m' = g2_update_fifo_status nanosecs m in
    record m' {
      g2 = record {
        bit5_off_timer = elapse nanosecs m'.g2.bit5_off_timer;
        bit4_on_timer = elapse nanosecs m'.g2.bit4_on_timer;
        bit4_off_timer = elapse nanosecs m'.g2.bit4_off_timer;
        bit0_on_timer = elapse nanosecs m'.g2.bit0_on_timer;
        bit0_off_timer = elapse nanosecs m'.g2.bit0_off_timer;
      };
    }

unfoldable pub asic_reset : Machine → Machine
asic_reset m = record m {
  g2 = record {
    bit5_off_timer = off;
    bit4_on_timer = off;
    bit4_off_timer = off;
    bit0_on_timer = off;
    bit0_off_timer = off;
  };
}

-- The timers after a write at the time `now`.
unfoldable pub extend : ℕ → G2State → G2State
extend now g =
    let bit5_off =
      add32 (if less g.bit5_off_timer now then now else g.bit5_off_timer) g2_bit5_ticks in
    let bit4_on = if less g.bit4_on_timer now then add32 now g2_bit5_ticks else g.bit4_on_timer in
    let bit4_off =
      add32 (if less g.bit4_off_timer now then bit4_on else g.bit4_off_timer) g2_bit4_ticks in
    let bit0_on =
      if less g.bit0_on_timer now then add32 now g2_bit0_on_ticks else g.bit0_on_timer in
    let bit0_off =
      add32 (if less g.bit0_off_timer now then bit0_on else g.bit0_off_timer) g2_bit0_off_ticks in
    record {
      bit5_off_timer = bit5_off;
      bit4_on_timer = bit4_on;
      bit4_off_timer = bit4_off;
      bit0_on_timer = bit0_on;
      bit0_off_timer = bit0_off;
    }

unfoldable pub asic_g2_write_word : Machine → Machine
asic_g2_write_word m = record (write_asic g2status (bit_or (m.mmio.asic g2status) 0x20) m) {
  g2 = extend m.cpu.slice_cycle m.g2;
}
