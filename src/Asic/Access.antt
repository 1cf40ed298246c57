-- ===== src/Asic/Access.antt =====
-- asic.c: the access of the program to the registers of the region ASIC.
use lxdream.Base.{
  ℕ, ◌+◌, Bool, Option, none, some, ◌||◌, ◌&&◌, bit_and, bit_or, leb, ◌==◌, if◌then◌else◌,
}
use lxdream.Machine.{Machine}
use lxdream.Asic.{pirq0, complement, write_asic, asic_check_cleared_events, asic_event_mask_changed}
use lxdream.Asic.G2.{g2status, g2_update_fifo_status}

-- The register that is read, and the state afterwards.
unfoldable pub mmio_region_asic_read : ℕ → Machine → ℕ × Machine
mmio_region_asic_read r m =
    let reg = bit_and r 0xfff in
    let m' = if reg == g2status then g2_update_fifo_status m.cpu.slice_cycle m else m in
    (m'.mmio.asic reg, m')

-- The program clears events of the first word, but for the two cascades.
unfoldable pub write_pirq0 : ℕ → Machine → Machine
write_pirq0 val m =
    let clear = bit_and val 0x3fff_ffff in
    asic_check_cleared_events (write_asic pirq0 (bit_and (m.mmio.asic pirq0) (complement clear)) m)

unfoldable pub write_pirq2 : ℕ → Machine → Machine
write_pirq2 val m =
    let left = bit_and (m.mmio.asic (pirq0 + 8)) (complement val) in
    let m1 = write_asic (pirq0 + 8) left m in
    let m2 = write_asic pirq0 (bit_and (m1.mmio.asic pirq0) 0x7fff_ffff) m1 in
    asic_check_cleared_events (if left == 0 then m2 else m1)

-- IRQA0 to IRQA2, IRQB0 to IRQB2 and IRQC0 to IRQC2.
abbrev pub is_mask : ℕ → Bool
is_mask reg =
    (leb 0x910 reg && leb reg 0x918)
    || (leb 0x920 reg && leb reg 0x928)
    || (leb 0x930 reg && leb reg 0x938)

-- SYSRESET, MAPLE_STATE, PVRDMACTL and SORTDMACTL, which start what other parts do.
abbrev pub is_command : ℕ → Bool
is_command reg = reg == 0x890 || reg == 0xc18 || reg == 0x808 || reg == 0x820

-- What a register without an action takes over of a value.
unfoldable pub masked : ℕ → ℕ → ℕ
masked reg val =
    if reg == 0x800
    then bit_or (bit_and val 0x03ff_ffe0) 0x1000_0000
    else if reg == 0x804
    then bit_and val 0x00ff_ffe0
    else if reg == 0x810 || reg == 0x814
    then bit_or (bit_and val 0x0fff_ffe0) 0x0800_0000
    else if reg == 0x818 || reg == 0x81c
    then bit_and val 1
    else val

-- `none` for the registers that start what other parts do.
unfoldable pub mmio_region_asic_write : ℕ → ℕ → Machine → Option Machine
mmio_region_asic_write r val m =
    let reg = bit_and r 0xfff in
    if reg == pirq0 + 4
    then some m
    else if reg == pirq0
    then some (write_pirq0 val m)
    else if reg == pirq0 + 8
    then some (write_pirq2 val m)
    else if is_mask reg
    then some (asic_event_mask_changed (write_asic reg val m))
    else if is_command reg
    then none
    else some (write_asic reg (masked reg val) m)
