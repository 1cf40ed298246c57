-- ===== src/Maple/Vmu.antt =====
-- maple/vmu.c: the memory card on the bus. `vol` is the volume itself: a file that is attached twice
-- is not modelled. `load` stands for vmulist_get_vmu_by_filename on the file of the configuration.
use lxdream.Base.{
  ℕ, zero, suc, ◌+◌, ◌/◌, ◌%◌, ◌^◌, ◌&&◌, Option, none, some, List, [], ◌∷◌, ◌++◌, ◌==◌,
  if◌then◌else◌,
}
use lxdream.VmuVolume.{
  VmuVolumeMetadata, Bytes, VmuVolume, vmu_volume_read_block, vmu_volume_write_phase,
  vmu_volume_get_metadata,
}

pub record Vmu : Type 0 where
  pub vol : Option VmuVolume
  pub lcd_bitmap : Bytes
  pub volume : Option ℕ

abbrev pub func_memory : ℕ
func_memory = 0x0200_0000

abbrev pub func_lcd : ℕ
func_lcd = 0x0400_0000

abbrev pub func_clock : ℕ
func_clock = 0x0800_0000

abbrev pub err_no_response : ℕ
err_no_response = 0xffff_ffff

abbrev pub err_func_unsup : ℕ
err_func_unsup = 0xffff_fffe

-- The first `n` bytes.
unfoldable pub bytes_from : ℕ → ℕ → Bytes → List ℕ
bytes_from i zero b = []
bytes_from i (suc n) b = b i ∷ bytes_from (i + 1) n b

unfoldable pub vmu_attach : (ℕ → Option VmuVolume) → Vmu → Vmu
vmu_attach load v = elim v.volume [ none ↦ v | some name ↦ record v { vol = load name } ]

unfoldable pub vmu_detach : Vmu → Vmu
vmu_detach v = record v { vol = none }

abbrev half_bytes : ℕ → List ℕ
half_bytes x = x % 256 ∷ x / 2 ^ 8 % 256 ∷ []

-- struct vmu_volume_metadata as it lies in the memory, 24 bytes.
abbrev pub metadata_bytes : VmuVolumeMetadata → List ℕ
metadata_bytes m =
    half_bytes m.last_block
    ++ half_bytes (m.last_block / 2 ^ 16)
    ++ half_bytes m.super_block
    ++ half_bytes m.fat_block
    ++ half_bytes m.fat_size
    ++ half_bytes m.dir_block
    ++ half_bytes m.dir_size
    ++ half_bytes m.user_block
    ++ half_bytes m.user_size
    ++ half_bytes (m.unknown 0)
    ++ half_bytes (m.unknown 1)
    ++ half_bytes (m.unknown 2)

-- The status, the length in words and the bytes. Where the partition does not exist, the function
-- copies from a null pointer; the model has no bytes there.
unfoldable pub vmu_get_meminfo : ℕ → ℕ → Vmu → ℕ × ℕ × List ℕ
vmu_get_meminfo function pt v =
    let missing : ℕ × ℕ × List ℕ = (err_no_response, 0, []) in
    if function == func_memory
    then elim v.vol [
      | none ↦ missing
      | some vol ↦ elim (vmu_volume_get_metadata pt vol) [
        | none ↦ (0, 24, [])
        | some md ↦ (0, 24, metadata_bytes md)
      ]
    ]
    else if function == func_lcd
    then missing
    else if function == func_clock
    then missing
    else (err_func_unsup, 0, [])

unfoldable pub vmu_read_block : ℕ → ℕ → ℕ → Vmu → ℕ × ℕ × List ℕ
vmu_read_block function pt block v =
    if function == func_lcd
    then if pt == 0 && block == 0 then (0, 48, bytes_from 0 48 v.lcd_bitmap) else (0, 0, [])
    else if function == func_memory
    then elim v.vol [
      | none ↦ (err_no_response, 0, [])
      | some vol ↦ elim (vmu_volume_read_block pt block vol) [
        | none ↦ (0, 0, [])
        | some b ↦ (0, 128, bytes_from 0 512 b)
      ]
    ]
    else if function == func_clock
    then (err_no_response, 0, [])
    else (err_func_unsup, 0, [])

-- `buflen` counts words.
unfoldable pub vmu_write_block : ℕ → ℕ → ℕ → ℕ → Bytes → ℕ → Vmu → ℕ × Vmu
vmu_write_block function pt block phase input buflen v =
    if function == func_lcd
    then (0, if pt == 0 && block == 0 && buflen == 48 then record v { lcd_bitmap = input } else v)
    else if function == func_memory
    then elim v.vol [
      | none ↦ (err_no_response, v)
      | some vol ↦
          if buflen == 32
          then elim (vmu_volume_write_phase pt block phase input vol) [
            | none ↦ (0, v)
            | some vol' ↦ (0, record v { vol = some vol' })
          ]
          else (err_no_response, v)
    ]
    else if function == func_clock
    then (err_no_response, v)
    else (err_func_unsup, v)
