-- ===== src/Dmac/Transfer.antt =====
-- DMAC_get_buffer of sh4/dmac.c: how much it transfers, and what it leaves in the channel.
use lxdream.Base.{
  sym, get_or, ℕ, zero, suc, ◌+◌, ◌-◌, ◌*◌, ◌/◌, ◌%◌, ◌^◌, ◌≤◌, ◌<◌, ◌≡◌, ◌≢◌, refl, ◌∙◌, ap, inl,
  inr, true, List, ◌∷◌, ◌++◌, arith, bit_or, ltb, ◌==◌, if◌then◌else◌, u32_mod, add32, sub32,
  length, Bool-cases,
}
use native.Mathlib.Nat.{mul-le-mul_right, div-mul-le_self, le-div_iff_mul-le}
use lxdream.Machine.{Machine, poke}
use lxdream.Intc.{int_dma_dmte0, intc_raise_interrupt}
use lxdream.Intc.Frame
use lxdream.Dmac.Copied.{
  length-read_bytes, length-read_same, length-read_down, byte_of, blocks-at, get_or-read_same,
  get_or-read_up, get_or-read_down,
}
use lxdream.Dmac.{
  sar, dmatcr, chcr, chcr_te, write_dmac, is_ready, memory_to_device, transfer_size, transfer_count,
  run_count, read_bytes, read_same, read_down, update_channel, dmac_get_buffer,
}

-- A memory is read in two parts as it is at once.
pub read_bytes-split :
    (n k a : ℕ) (memory : ℕ → ℕ)
    → a < u32_mod
    → read_bytes (n + k) a memory ≡ read_bytes n a memory ++ read_bytes k (add32 a n) memory
unfolding read_bytes add32
read_bytes-split zero k a memory f =
    let e : (a + 0) % u32_mod ≡ a = omega arith in let z : 0 + k ≡ k = omega arith in rw (e, z) refl
read_bytes-split (suc n) k a memory f =
    let e : ((a + 1) % u32_mod + n) % u32_mod ≡ (a + suc n) % u32_mod = omega arith in
    let i = read_bytes-split n k ((a + 1) % u32_mod) memory (omega arith) in
    let s : suc n + k ≡ suc (n + k) = omega arith in
    rw s (
      ap (λ xs. memory a ∷ xs)
        (i ∙ ap (λ b. read_bytes n ((a + 1) % u32_mod) memory ++ read_bytes k b memory) e))

-- What the channel's registers become.
update_channel-others :
    (channel address value left : ℕ) (m : Machine)
    → let regs = (update_channel channel address value left m).mmio.dmac in
      let control = bit_or (m.mmio.dmac (chcr channel)) chcr_te in
      let regs1 = poke (poke m.mmio.dmac address value) (dmatcr channel) left in
      regs ≡ (if left == 0 then poke regs1 (chcr channel) control else regs1)
unfolding update_channel
update_channel-others channel address value left m =
    let control = bit_or (m.mmio.dmac (chcr channel)) chcr_te in
    let m1 = write_dmac (dmatcr channel) left (write_dmac address value m) in
    let which = int_dma_dmte0 + channel in
    let e =
      Frame.same_mmio (intc_raise_interrupt which m1) m1
        (Frame.intc_raise_interrupt-others which m1) in
    ground (arith, ap (λ r. r.dmac) e)

-- A buffer that holds a transfer is not run over.
run_count-bounds :
    (count size n : ℕ)
    → 0 < size
    → size ≤ n
    → 0 < count
    → let run = run_count count size n in (run * size ≤ n) × (0 < run) × (run ≤ count)
unfolding run_count
run_count-bounds count size n p l c =
    let whole : n / size * size ≤ n = div-mul-le_self n size in
    let some_run : 1 ≤ n / size = (le-div_iff_mul-le {x = 1} {y = n} p).1 (omega arith) in
    elim (Bool-cases (ltb count (n / size))) [
      | inl y ↦
          let few : count * size ≤ n / size * size = mul-le-mul_right size (ground arith) in
          (ground arith, ground arith, ground arith)
      | inr f ↦ (ground arith, ground arith, ground arith)
    ]

size-positive : (control : ℕ) → 0 < transfer_size control
size-positive control = grind arith

count-positive : (channel : ℕ) (m : Machine) → 0 < transfer_count channel m
count-positive channel m = ground arith

-- The registers of a channel after `run` of `count` transfers.
pub record IsAdvanced (channel run count : ℕ) (m m' : Machine) : Type 0 where
  pub left : m'.mmio.dmac (dmatcr channel) ≡ count - run
  pub ended : m'.mmio.dmac (chcr channel) ≡ (
      if count - run == 0
      then bit_or (m.mmio.dmac (chcr channel)) chcr_te
      else m.mmio.dmac (chcr channel))

update_channel-IsAdvanced :
    (channel address value run count : ℕ) (m : Machine)
    → address < dmatcr channel
    → IsAdvanced channel run count m (update_channel channel address value (count - run) m)
update_channel-IsAdvanced channel address value run count m l =
    let e = update_channel-others channel address value (count - run) m in
    record { left = rw e (ground arith); ended = rw e (ground arith) }

module _ (memory : ℕ → ℕ) (channel num_bytes : ℕ) (m : Machine) where
  abbrev control : ℕ
  control = m.mmio.dmac (chcr channel)

  abbrev size : ℕ
  size = transfer_size control

  abbrev count : ℕ
  count = transfer_count channel m

  -- The distance from one unit to the next: the source stays, goes up, or goes down.
  abbrev pub stride : ℕ
  stride =
      let mode = control / 2 ^ 12 % 4 in
      if mode == 0 then 0 else if mode == 1 then size else u32_mod - size

  -- What a transfer of `run` units does: which bytes it gives, how many, and what it leaves.
  pub record IsTransfer (run : ℕ) (result : List ℕ × Machine) : Type 0 where
    pub bytes : length (result.0) ≡ run * size
    pub copied :
        (i : ℕ) → get_or result.0 i 0 ≡ byte_of run size (m.mmio.dmac (sar channel)) stride i memory
    pub within : run * size ≤ num_bytes
    pub moved : (0 < run) × (run ≤ count)
    pub channel_after : IsAdvanced channel run count m result.1

  -- A channel that is ready in a legal mode, with a 32-bit source address, fills a buffer that holds
  -- at least one unit of its size: it copies whole units, at least one, no more than the buffer
  -- holds and no more than are left to do. The bytes are those of the memory, unit by unit, where
  -- the source stays, goes up or goes down with each unit by the mode. The count goes down by the
  -- units, and the end is flagged exactly when nothing is left.
  pub dmac_get_buffer-IsTransfer :
      is_ready memory_to_device channel m ≡ true
      → control / 2 ^ 12 % 4 ≢ 3
      → m.mmio.dmac (sar channel) < u32_mod
      → size ≤ num_bytes
      → (run : ℕ) × IsTransfer run (dmac_get_buffer memory channel num_bytes m)
  unfolding dmac_get_buffer
  dmac_get_buffer-IsTransfer ready legal narrow fits =
      let run = run_count count size num_bytes in
      let source = m.mmio.dmac (sar channel) in
      let p = size-positive control in
      let (a, b, c) = run_count-bounds count size num_bytes p fits (count-positive channel m) in
      let next : (v : ℕ)
          → IsAdvanced channel run count m
              (update_channel channel (sar channel) v (count - run) m) =
        λ v. update_channel-IsAdvanced channel (sar channel) v run count m (omega arith) in
      let mode = control / 2 ^ 12 % 4 in
      let strided : (i s : ℕ)
          → stride ≡ s
          → byte_of run size source s i memory ≡ byte_of run size source stride i memory =
        λ i s e. ap (λ d. byte_of run size source d i memory) (sym e) in
      (
        run,
        elim (Bool-cases (mode == 0)) [
          | inl y ↦
              let n = length-read_same run size source memory in
              rw (ready, y)
                (record {
                  bytes = n;
                  copied = λ i.
                      blocks-at run size source 0 i memory (read_same run size source memory) p n
                        (λ b j k h.
                          get_or-read_same run size source b j memory k h narrow
                          ∙ ap memory (omega arith))
                      ∙ strided i 0 (rw y refl);
                  within = a;
                  moved = (b, c);
                  channel_after = next source;
                })
          | inr n0 ↦ elim (Bool-cases (mode == 1)) [
            | inl y ↦
                let n = length-read_bytes (run * size) source memory in
                rw (ready, n0, y)
                  (record {
                    bytes = n;
                    copied = λ i.
                        blocks-at run size source size i memory
                          (read_bytes (run * size) source memory) p n
                          (λ b j k h. get_or-read_up run size source b j memory k h narrow)
                        ∙ strided i size (rw (n0, y) refl);
                    within = a;
                    moved = (b, c);
                    channel_after = next (add32 source (run * size));
                  })
            | inr n1 ↦
                let y : (mode == 2) ≡ true = ground arith in
                let n = length-read_down run size source memory in
                rw (ready, n0, n1, y)
                  (record {
                    bytes = n;
                    copied = λ i.
                        blocks-at run size source (u32_mod - size) i memory
                          (read_down run size source memory) p n
                          (λ b j k h. get_or-read_down run size source b j memory k h narrow)
                        ∙ strided i (u32_mod - size) (rw (n0, n1) refl);
                    within = a;
                    moved = (b, c);
                    channel_after = next (sub32 source (run * size % u32_mod));
                  })
          ]
        ],
      )
