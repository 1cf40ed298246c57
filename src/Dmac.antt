-- ===== src/Dmac.antt =====
-- sh4/dmac.c: the DMA controller of the SH4. `memory` is the memory behind mem_get_region, a byte
-- for each address; a transfer does not cross the end of a region.
pub mod Copied
pub mod Transfer
pub mod Trigger
use lxdream.Base.{
  ℕ, zero, suc, ◌+◌, ◌-◌, ◌*◌, ◌/◌, ◌%◌, ◌^◌, Bool, true, false, not, ◌&&◌, ◌||◌, Option, none,
  some, List, [], ◌∷◌, ◌++◌, bit_and, bit_or, ltb, leb, ◌==◌, if◌then◌else◌, any_set, u32_mod,
  add32, sub32, get_or,
}
use lxdream.Machine.{Machine, poke}
use lxdream.Intc.{int_dma_dmte0, intc_raise_interrupt, intc_clear_interrupt}

-- Register offsets of sh4/sh4mmio.h; those of the channels are 16 bytes apart.
abbrev pub sar : ℕ → ℕ
sar channel = 16 * channel

abbrev pub dar : ℕ → ℕ
dar channel = 0x4 + 16 * channel

abbrev pub dmatcr : ℕ → ℕ
dmatcr channel = 0x8 + 16 * channel

abbrev pub chcr : ℕ → ℕ
chcr channel = 0xc + 16 * channel

abbrev pub dmaor : ℕ
dmaor = 0x40

abbrev pub chcr_ie : ℕ
chcr_ie = 0x4

abbrev pub chcr_te : ℕ
chcr_te = 0x2

abbrev pub write_dmac : ℕ → ℕ → Machine → Machine
write_dmac reg val m = record m { mmio = record (m.mmio) { dmac = poke m.mmio.dmac reg val } }

abbrev pub is_dmac_enabled : Machine → Bool
is_dmac_enabled m = bit_and (m.mmio.dmac dmaor) 0x7 == 1

abbrev pub is_channel_enabled : ℕ → Bool
is_channel_enabled control = bit_and control 0x3 == 1

abbrev pub is_channel_irq_active : ℕ → Bool
is_channel_irq_active control = bit_and control 0x6 == 0x6

abbrev pub channel_resource : ℕ → ℕ
channel_resource control = control / 2 ^ 8 % 16

abbrev pub memory_to_device : ℕ
memory_to_device = 2

abbrev pub device_to_memory : ℕ
device_to_memory = 3

-- What the function does besides, for a channel that runs by itself, is empty.
unfoldable pub dmac_set_control : ℕ → ℕ → Machine → Machine
dmac_set_control channel val m =
    let old = m.mmio.dmac (chcr channel) in
    let m' = write_dmac (chcr channel) val m in
    if is_channel_irq_active old && not (is_channel_irq_active val)
    then intc_clear_interrupt (int_dma_dmte0 + channel) m'
    else m'

unfoldable pub mmio_region_dmac_write : ℕ → ℕ → Machine → Machine
mmio_region_dmac_write r val m =
    let reg = bit_and r 0xfff in
    if reg == chcr 0
    then dmac_set_control 0 val m
    else if reg == chcr 1
    then dmac_set_control 1 val m
    else if reg == chcr 2
    then dmac_set_control 2 val m
    else if reg == chcr 3
    then dmac_set_control 3 val m
    else write_dmac reg val m

unfoldable pub mmio_region_dmac_read : ℕ → Machine → ℕ
mmio_region_dmac_read r m = m.mmio.dmac (bit_and r 0xfff)

-- DMAC_xfer_size, by the bits 4 to 6 of the control register.
abbrev pub dmac_xfer_size : List ℕ
dmac_xfer_size = 8 ∷ 1 ∷ 2 ∷ 4 ∷ 32 ∷ 1 ∷ 1 ∷ 1 ∷ []

abbrev pub transfer_size : ℕ → ℕ
transfer_size control = get_or dmac_xfer_size (control / 2 ^ 4 % 8) 0

-- DMA_COUNT, where 0 stands for the largest count.
abbrev pub transfer_count : ℕ → Machine → ℕ
transfer_count channel m =
    let count = m.mmio.dmac (dmatcr channel) % 2 ^ 24 in if count == 0 then 0x100_0000 else count

-- The number of transfers that a buffer of `num_bytes` asks for.
unfoldable pub run_count : ℕ → ℕ → ℕ → ℕ
run_count count size num_bytes =
    let run = num_bytes / size in if ltb count run || run == 0 then count else run

-- `memcpy` from the memory.
unfoldable pub read_bytes : ℕ → ℕ → (ℕ → ℕ) → List ℕ
read_bytes zero a memory = []
read_bytes (suc n) a memory = memory a ∷ read_bytes n (add32 a 1) memory

-- The loops of the two modes that go transfer by transfer.
unfoldable pub read_same : ℕ → ℕ → ℕ → (ℕ → ℕ) → List ℕ
read_same zero size a memory = []
read_same (suc run) size a memory = read_bytes size a memory ++ read_same run size a memory

unfoldable pub read_down : ℕ → ℕ → ℕ → (ℕ → ℕ) → List ℕ
read_down zero size a memory = []
read_down (suc run) size a memory =
    read_bytes size a memory ++ read_down run size (sub32 a size) memory

-- The channel's registers after `run` of `count` transfers: `address` is its source or destination
-- register.
unfoldable pub update_channel : ℕ → ℕ → ℕ → ℕ → Machine → Machine
update_channel channel address value left m =
    let control = bit_or (m.mmio.dmac (chcr channel)) chcr_te in
    let m1 = write_dmac (dmatcr channel) left (write_dmac address value m) in
    let m2 =
      if any_set control chcr_ie then intc_raise_interrupt (int_dma_dmte0 + channel) m1 else m1 in
    if left == 0 then write_dmac (chcr channel) control m2 else m1

-- Whether a channel is set up for transfers with this resource.
abbrev pub is_ready : ℕ → ℕ → Machine → Bool
is_ready resource channel m =
    let control = m.mmio.dmac (chcr channel) in
    is_channel_enabled control && is_dmac_enabled m && channel_resource control == resource

-- The bytes that DMAC_get_buffer copies; it returns their number.
unfoldable pub dmac_get_buffer : (ℕ → ℕ) → ℕ → ℕ → Machine → List ℕ × Machine
dmac_get_buffer memory channel num_bytes m =
    let control = m.mmio.dmac (chcr channel) in
    let source = m.mmio.dmac (sar channel) in
    let count = transfer_count channel m in
    let size = transfer_size control in
    let run = run_count count size num_bytes in
    let mode = control / 2 ^ 12 % 4 in
    let finish = λ (next : ℕ). update_channel channel (sar channel) next (count - run) m in
    if not (is_ready memory_to_device channel m)
    then ([], m)
    else if mode == 0
    then (read_same run size source memory, finish source)
    else if mode == 1
    then (read_bytes (run * size) source memory, finish (add32 source (run * size)))
    else if mode == 2
    then (read_down run size source memory, finish (sub32 source (run * size % u32_mod)))
    else ([], m)

-- `memcpy` of `n` bytes of the buffer, from the offset `at` on, to the address `a`.
unfoldable pub write_bytes : ℕ → ℕ → ℕ → (ℕ → ℕ) → (ℕ → ℕ) → ℕ → ℕ
write_bytes zero a at buf memory = memory
write_bytes (suc n) a at buf memory =
    write_bytes n (add32 a 1) (at + 1) buf (λ b. if b == a then buf at else memory b)

unfoldable pub write_same : ℕ → ℕ → ℕ → ℕ → (ℕ → ℕ) → (ℕ → ℕ) → ℕ → ℕ
write_same zero size a at buf memory = memory
write_same (suc run) size a at buf memory =
    write_same run size a (at + size) buf (write_bytes size a at buf memory)

unfoldable pub write_down : ℕ → ℕ → ℕ → ℕ → (ℕ → ℕ) → (ℕ → ℕ) → ℕ → ℕ
write_down zero size a at buf memory = memory
write_down (suc run) size a at buf memory =
    write_down run size (sub32 a size) (at + size) buf (write_bytes size a at buf memory)

-- The number of bytes that DMAC_put_buffer takes of the buffer, the memory and the state.
unfoldable pub dmac_put_buffer : (ℕ → ℕ) → (ℕ → ℕ) → ℕ → ℕ → Machine → ℕ × (ℕ → ℕ) × Machine
dmac_put_buffer memory buf channel num_bytes m =
    let control = m.mmio.dmac (chcr channel) in
    let dest = m.mmio.dmac (dar channel) in
    let count = transfer_count channel m in
    let size = transfer_size control in
    let run = run_count count size num_bytes in
    let mode = control / 2 ^ 12 % 4 in
    let finish = λ (next : ℕ). update_channel channel (dar channel) next (count - run) m in
    if not (is_ready device_to_memory channel m)
    then (0, memory, m)
    else if mode == 0
    then (run * size, write_same run size dest 0 buf memory, finish dest)
    else if mode == 1
    then (run * size, write_bytes (run * size) dest 0 buf memory, finish (add32 dest (run * size)))
    else if mode == 2
    then (
      run * size,
      write_down run size dest 0 buf memory,
      finish (sub32 dest (run * size % u32_mod)),
    )
    else (0, memory, m)

-- The body of `DMAC_run_channel` is under `#if 0`.
abbrev pub dmac_run_channel : ℕ → ℕ → Machine → Machine
dmac_run_channel channel run_count m = m

-- The request lines of sh4/dmac.h.
pub data Resource : Type 0 where
  dmac_external dmac_sci_tde dmac_sci_rdf dmac_scif_tde dmac_scif_rdf dmac_tmu_ici : Resource

-- Whether a channel with this selection of its resource listens to the request line.
abbrev pub serves : Resource → ℕ → Bool
serves dmac_external channel_res = channel_res == 0x00
serves dmac_sci_tde channel_res = channel_res == 0x08
serves dmac_sci_rdf channel_res = channel_res == 0x09
serves dmac_scif_tde channel_res = channel_res == 0x0a
serves dmac_scif_rdf channel_res = channel_res == 0x0b
serves dmac_tmu_ici channel_res = leb 0x0c channel_res

unfoldable pub trigger_channel : Resource → ℕ → Machine → Machine
trigger_channel resource i m =
    let control = m.mmio.dmac (chcr i) in
    if is_channel_enabled control && serves resource (channel_resource control)
    then dmac_run_channel i 1 m
    else m

unfoldable pub dmac_trigger : Resource → Machine → Machine
dmac_trigger resource m =
    if is_dmac_enabled m
    then trigger_channel resource 3
        (trigger_channel resource 2 (trigger_channel resource 1 (trigger_channel resource 0 m)))
    else m
