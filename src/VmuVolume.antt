-- ===== src/VmuVolume.antt =====
-- vmu/vmuvol.c: the volume of a memory card, partitions of blocks of 512 bytes, kept as a function
-- from the offset of a byte to the byte. Files are not modelled.
pub mod Blocks
pub mod Format
use lxdream.Base.{
  ℕ, zero, suc, ◌+◌, ◌-◌, ◌*◌, ◌/◌, ◌%◌, ◌^◌, Bool, true, false, not, ◌&&◌, ◌||◌, Option, none,
  some, ltb, leb, ◌==◌, if◌then◌else◌,
}

abbrev pub vmu_block_size : ℕ
vmu_block_size = 512

-- vmu/vmuvol.h, struct vmu_volume_metadata; `unknown` is an array of three words.
pub record VmuVolumeMetadata : Type 0 where
  pub last_block : ℕ
  pub super_block : ℕ
  pub fat_block : ℕ
  pub fat_size : ℕ
  pub dir_block : ℕ
  pub dir_size : ℕ
  pub user_block : ℕ
  pub user_size : ℕ
  pub unknown : ℕ → ℕ

abbrev pub Bytes : Type 0
Bytes = ℕ → ℕ

pub record VmuPartition : Type 0 where
  pub metadata : VmuVolumeMetadata
  pub block_count : ℕ
  pub blocks : Bytes

pub record VmuVolume : Type 0 where
  pub part_count : ℕ
  pub dirty : Bool
  pub part : ℕ → VmuPartition

-- `memcpy` of `n` bytes of `input` to the offset `a`.
unfoldable pub copy_in : ℕ → ℕ → Bytes → Bytes → Bytes
copy_in a n input blocks i = if leb a i && ltb i (a + n) then input (i - a) else blocks i

-- `memset`
unfoldable pub fill : ℕ → ℕ → ℕ → Bytes → Bytes
fill a n v blocks i = if leb a i && ltb i (a + n) then v else blocks i

-- A `uint16_t` is stored low byte first.
unfoldable pub put16 : ℕ → ℕ → Bytes → Bytes
put16 a v blocks i = if i == a then v % 256 else if i == a + 1 then v / 256 % 256 else blocks i

unfoldable pub get16 : ℕ → Bytes → ℕ
get16 a blocks = blocks a + 256 * blocks (a + 1)

abbrev pub set_blocks : ℕ → Bytes → VmuVolume → VmuVolume
set_blocks pt b vol = record vol {
  part = λ p. if p == pt then record (vol.part pt) { blocks = b } else vol.part p;
}

abbrev pub in_range : ℕ → ℕ → VmuVolume → Bool
in_range pt block vol = ltb pt vol.part_count && ltb block (vol.part pt).block_count

-- `none` for FALSE, else the 512 bytes.
unfoldable pub vmu_volume_read_block : ℕ → ℕ → VmuVolume → Option Bytes
vmu_volume_read_block pt block vol =
    if in_range pt block vol
    then some (λ i. (vol.part pt).blocks (block * vmu_block_size + i))
    else none

-- `none` for FALSE.
unfoldable pub vmu_volume_write_block : ℕ → ℕ → Bytes → VmuVolume → Option VmuVolume
vmu_volume_write_block pt block input vol =
    let b = copy_in (block * vmu_block_size) vmu_block_size input (vol.part pt).blocks in
    if in_range pt block vol then some (record (set_blocks pt b vol) { dirty = true }) else none

unfoldable pub vmu_volume_write_phase : ℕ → ℕ → ℕ → Bytes → VmuVolume → Option VmuVolume
vmu_volume_write_phase pt block phase input vol =
    let b =
      copy_in (block * vmu_block_size + phase * 128) (vmu_block_size / 4) input
        (vol.part pt).blocks in
    if in_range pt block vol && ltb phase 4
    then some (record (set_blocks pt b vol) { dirty = true })
    else none

unfoldable pub vmu_volume_get_metadata : ℕ → VmuVolume → Option VmuVolumeMetadata
vmu_volume_get_metadata pt vol =
    if ltb pt vol.part_count then some ((vol.part pt).metadata) else none

-- Formatting

abbrev pub fat_empty : ℕ
fat_empty = 0xfffc

abbrev pub fat_eof : ℕ
fat_eof = 0xfffa

-- VMU_FAT_ENTRY, the offset of an entry.
abbrev pub fat_entry : ℕ → ℕ → ℕ
fat_entry fat_block ent = (fat_block - ent / 256) * vmu_block_size + ent % 256 * 2

unfoldable pub write_superblock : VmuVolumeMetadata → Bytes → Bytes
write_superblock meta b =
    let s = meta.super_block * vmu_block_size in
    let cleared = fill (s + 16) 240 0 (fill s 16 0x55 b) in
    put16 (s + 80) meta.user_size (
      put16 (s + 74) meta.dir_block
        (put16 (s + 72) meta.fat_size (put16 (s + 70) meta.fat_block cleared)))

-- The inner loop: `n` entries of a block of the table, from the last one down.
unfoldable pub clear_entries : ℕ → ℕ → Bytes → Bytes
clear_entries a zero b = b
clear_entries a (suc n) b = put16 (a + 2 * n) fat_empty (clear_entries a n b)

unfoldable pub clear_tables : ℕ → ℕ → Bytes → Bytes
clear_tables fat_block zero b = b
clear_tables fat_block (suc j) b =
    clear_entries ((fat_block - j) * vmu_block_size) 256 (clear_tables fat_block j b)

-- The loops that chain `n` entries from `first` down, each to the one below.
unfoldable pub chain_entries : ℕ → ℕ → ℕ → Bytes → Bytes
chain_entries fat_block first zero b = b
chain_entries fat_block first (suc n) b =
    put16 (fat_entry fat_block (first - n)) (first - n - 1) (chain_entries fat_block first n b)

-- A chain of `size` blocks, which ends with FAT_EOF.
unfoldable pub allocate : ℕ → ℕ → ℕ → Bytes → Bytes
allocate fat_block first size b =
    put16 (fat_entry fat_block (first - (size - 1))) fat_eof
      (chain_entries fat_block first (size - 1) b)

unfoldable pub format_blocks : VmuVolumeMetadata → ℕ → Bool → Bytes → Bytes
format_blocks meta block_count quick b =
    let b0 = if quick then b else fill 0 (block_count * vmu_block_size) 0 b in
    let b1 = clear_tables meta.fat_block meta.fat_size (write_superblock meta b0) in
    let b2 =
      allocate meta.fat_block meta.dir_block meta.dir_size
        (allocate meta.fat_block meta.fat_block meta.fat_size b1) in
    if quick
    then fill ((meta.dir_block - meta.dir_size + 1) * vmu_block_size)
        (meta.dir_size * vmu_block_size) 0 b2
    else b2

unfoldable pub vmu_volume_format : ℕ → Bool → VmuVolume → VmuVolume
vmu_volume_format pt quick vol =
    let p = vol.part pt in
    let b = format_blocks p.metadata p.block_count quick p.blocks in
    if ltb pt vol.part_count then set_blocks pt b vol else vol

-- The default metadata and a new volume.
abbrev pub default_metadata : VmuVolumeMetadata
default_metadata = record {
  last_block = 255;
  super_block = 255;
  fat_block = 254;
  fat_size = 1;
  dir_block = 253;
  dir_size = 13;
  user_block = 0;
  user_size = 200;
  unknown = λ i. if i == 0 then 31 else if i == 1 then 0 else 128;
}

unfoldable pub vmu_volume_new_default : VmuVolume
vmu_volume_new_default = vmu_volume_format 0 true (record {
  part_count = 1;
  dirty = false;
  part = λ p. record { metadata = default_metadata; block_count = 256; blocks = λ i. 0 };
})
