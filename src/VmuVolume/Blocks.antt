-- ===== src/VmuVolume/Blocks.antt =====
-- Reading and writing blocks of a memory card, vmu/vmuvol.c.
use lxdream.Base.{
  ℕ, ◌+◌, ◌-◌, ◌*◌, ◌/◌, ◌<◌, ◌≡◌, refl, ◌∙◌, ap, inl, inr, true, false, ◌&&◌, Option, none, some,
  ltb, leb, ◌==◌, if◌then◌else◌, arith, Bool-cases, ◌>>=◌,
}
use lxdream.VmuVolume.{
  vmu_block_size, Bytes, VmuVolume, copy_in, set_blocks, in_range, vmu_volume_read_block,
  vmu_volume_write_block, vmu_volume_write_phase,
}

-- What is read of a volume: byte `i` of a block, if the block exists.
unfoldable pub byte_at : ℕ → ℕ → ℕ → VmuVolume → Option ℕ
byte_at pt block i vol = do b ← vmu_volume_read_block pt block vol; some (b i)

byte_at_lem :
    (pt block i : ℕ) (vol : VmuVolume)
    → byte_at pt block i vol ≡ (
        if in_range pt block vol
        then some ((vol.part pt).blocks (block * vmu_block_size + i))
        else none)
unfolding byte_at vmu_volume_read_block
byte_at_lem pt block i vol = ground arith

copy_in-inside :
    (a n i : ℕ) (input blocks : Bytes) → i < n → copy_in a n input blocks (a + i) ≡ input i
unfolding copy_in
copy_in-inside a n i input blocks h =
    let e : a + i - a ≡ i = omega arith in
    let y : (leb a (a + i) && ltb (a + i) (a + n)) ≡ true = ground arith in rw (y, e) refl

copy_in-outside :
    (a n j : ℕ) (input blocks : Bytes)
    → (leb a j && ltb j (a + n)) ≡ false
    → copy_in a n input blocks j ≡ blocks j
unfolding copy_in
copy_in-outside a n j input blocks h = rw h refl

-- The volume once bytes were copied into a partition.
abbrev written : ℕ → ℕ → ℕ → Bytes → VmuVolume → VmuVolume
written pt a n input vol = record (set_blocks pt (copy_in a n input (vol.part pt).blocks) vol) {
  dirty = true;
}

written-inside :
    (pt block a n j i : ℕ) (input : Bytes) (vol : VmuVolume)
    → in_range pt block vol ≡ true
    → i < n
    → block * vmu_block_size + j ≡ a + i
    → byte_at pt block j (written pt a n input vol) ≡ some (input i)
written-inside pt block a n j i input vol ok h e =
    byte_at_lem pt block j (written pt a n input vol)
    ∙ ground (
      arith,
      ap (copy_in a n input (vol.part pt).blocks) e
          ∙ copy_in-inside a n i input (vol.part pt).blocks h,
    )

written-outside :
    (pt a n q c i : ℕ) (input : Bytes) (vol : VmuVolume)
    → (q == pt && leb a (c * vmu_block_size + i) && ltb (c * vmu_block_size + i) (a + n)) ≡ false
    → byte_at q c i (written pt a n input vol) ≡ byte_at q c i vol
written-outside pt a n q c i input vol h = elim (Bool-cases (q == pt)) [
  | inl y ↦
      let at : q ≡ pt = ground arith in
      byte_at_lem q c i (written pt a n input vol)
      ∙ rw at (
          ground (
            arith,
            copy_in-outside a n (c * vmu_block_size + i) input (vol.part pt).blocks,
            byte_at_lem pt c i vol,
          ))
  | inr f ↦ byte_at_lem q c i (written pt a n input vol) ∙ ground (arith, byte_at_lem q c i vol)
]

-- A block that exists can be written. Reading it gives what was written, and reading any other
-- block, of this partition or another, gives what it gave before, or fails as it did before.
pub read-write_block :
    (pt block : ℕ) (input : Bytes) (vol : VmuVolume)
    → in_range pt block vol ≡ true
    → (vol' : VmuVolume) × (vmu_volume_write_block pt block input vol ≡ some vol')
      × ((i : ℕ) → i < vmu_block_size → byte_at pt block i vol' ≡ some (input i))
      × ((q b i : ℕ)
          → (q == pt && b == block) ≡ false
          → i < vmu_block_size
          → byte_at q b i vol' ≡ byte_at q b i vol)
unfolding vmu_volume_write_block
read-write_block pt block input vol ok =
    let a = block * vmu_block_size in
    (
      written pt a vmu_block_size input vol,
      rw ok refl,
      λ i k. written-inside pt block a vmu_block_size i i input vol ok k refl,
      λ q b i n k. written-outside pt a vmu_block_size q b i input vol (ground arith),
    )

-- Each of the four phases of a block that exists can be written. It changes its 128 bytes of that
-- block to what was written and no other byte.
pub read-write_phase :
    (pt block phase : ℕ) (input : Bytes) (vol : VmuVolume)
    → in_range pt block vol ≡ true
    → phase < 4
    → (vol' : VmuVolume) × (vmu_volume_write_phase pt block phase input vol ≡ some vol')
      × ((i : ℕ) → i < 128 → byte_at pt block (phase * 128 + i) vol' ≡ some (input i))
      × ((q b i : ℕ)
          → (q == pt && b == block && i / 128 == phase) ≡ false
          → i < vmu_block_size
          → byte_at q b i vol' ≡ byte_at q b i vol)
unfolding vmu_volume_write_phase
read-write_phase pt block phase input vol ok fits =
    let a = block * vmu_block_size + phase * 128 in
    let small : ltb phase 4 ≡ true = ground arith in
    (
      written pt a 128 input vol,
      rw (ok, small) refl,
      λ i k. written-inside pt block a 128 (phase * 128 + i) i input vol ok k (omega arith),
      λ q b i n k. written-outside pt a 128 q b i input vol (ground arith),
    )
