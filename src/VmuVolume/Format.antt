-- ===== src/VmuVolume/Format.antt =====
-- The file allocation table that vmu_volume_format of vmu/vmuvol.c leaves.
use lxdream.Base.{
  ℕ, zero, suc, ◌+◌, ◌-◌, ◌*◌, ◌≤◌, ◌<◌, ◌≡◌, ◌∙◌, Bool, ◌&&◌, ltb, leb, ◌==◌, if◌then◌else◌, arith,
}
use lxdream.VmuVolume.{
  vmu_block_size, Bytes, VmuVolumeMetadata, fill, put16, get16, fat_empty, fat_eof, fat_entry,
  write_superblock, clear_entries, clear_tables, chain_entries, allocate, format_blocks,
}

get16-put16 :
    (f e k v : ℕ) (b : Bytes)
    → v < 65536
    → get16 (f + 2 * e) (put16 (f + 2 * k) v b) ≡ (if e == k then v else get16 (f + 2 * e) b)
unfolding get16 put16
get16-put16 f e k v b h = ground arith

get16-clear : (f e n : ℕ) (b : Bytes) → e < n → get16 (f + 2 * e) (clear_entries f n b) ≡ fat_empty
unfolding clear_entries
get16-clear f e zero b h = absurd (omega arith)
get16-clear f e (suc n) b h =
    get16-put16 f e n fat_empty (clear_entries f n b) (omega arith)
    ∙ ground (arith, get16-clear f e n b)

entry_at : (f e : ℕ) → e < 256 → fat_entry f e ≡ f * vmu_block_size + 2 * e
entry_at f e h = omega arith

-- An entry of the chain that `n` rounds of the loop leave.
chain_lem :
    (f first e n : ℕ) (b : Bytes)
    → first < 256
    → n ≤ first
    → e < 256
    → get16 (f * vmu_block_size + 2 * e) (chain_entries f first n b)
      ≡ (if ltb (first - n) e && leb e first then e - 1 else get16 (f * vmu_block_size + 2 * e) b)
unfolding chain_entries
chain_lem f first e zero b h k l = ground arith
chain_lem f first e (suc n) b h k l =
    let at = entry_at f (first - n) (omega arith) in
    rw at (
      get16-put16 (f * vmu_block_size) e (first - n) (first - n - 1) (chain_entries f first n b)
        (omega arith)
      ∙ ground (arith, chain_lem f first e n b h (omega arith) l))

-- An entry after a chain of `size` blocks from `first` down was allocated.
abbrev pub allocated : ℕ → ℕ → ℕ → ℕ → ℕ
allocated first size e old =
    if e == first - (size - 1)
    then fat_eof
    else if ltb (first - (size - 1)) e && leb e first
    then e - 1
    else old

allocate_lem :
    (f first size e : ℕ) (b : Bytes)
    → first < 256
    → size - 1 ≤ first
    → e < 256
    → get16 (f * vmu_block_size + 2 * e) (allocate f first size b)
      ≡ allocated first size e (get16 (f * vmu_block_size + 2 * e) b)
unfolding allocate
allocate_lem f first size e b h k l =
    let n = size - 1 in
    let at = entry_at f (first - n) (omega arith) in
    rw at (
      get16-put16 (f * vmu_block_size) e (first - n) fat_eof (chain_entries f first n b)
        (omega arith)
      ∙ ground (arith, chain_lem f first e n b h k l))

get16-fill : (a s n v : ℕ) (b : Bytes) → s + n ≤ a → get16 a (fill s n v b) ≡ get16 a b
unfolding get16 fill
get16-fill a s n v b h = ground arith

tables_lem :
    (f size e : ℕ) (b : Bytes)
    → size ≡ 1
    → e < 256
    → get16 (f * vmu_block_size + 2 * e) (clear_tables f size b) ≡ fat_empty
unfolding clear_tables
tables_lem f size e b one l =
    let z : f - 0 ≡ f = omega arith in rw (one, z) (get16-clear (f * vmu_block_size) e 256 b l)

-- A layout as the default one has it: one block of table above the directory, in the first 256.
pub record IsLayout (meta : VmuVolumeMetadata) : Type 0 where
  pub one_block : meta.fat_size ≡ 1
  pub table : meta.fat_block < 256
  pub directory : meta.dir_block < meta.fat_block
  pub room : (0 < meta.dir_size) × (meta.dir_size ≤ meta.dir_block)

-- Formatting a card with such a layout, whatever was on it, quick or not, leaves a table in which
-- the block of the table is a chain of its own, the blocks of the directory are one chain from the
-- directory's block down, and every other block is free.
pub format_blocks-fat :
    (meta : VmuVolumeMetadata) (block_count e : ℕ) (quick : Bool) (b : Bytes)
    → IsLayout meta
    → e < 256
    → get16 (fat_entry meta.fat_block e) (format_blocks meta block_count quick b)
      ≡ allocated meta.dir_block meta.dir_size e
          (if e == meta.fat_block then fat_eof else fat_empty)
unfolding format_blocks
format_blocks-fat meta block_count e quick b w l =
    let f = meta.fat_block in
    let a = f * vmu_block_size + 2 * e in
    let b0 = if quick then b else fill 0 (block_count * vmu_block_size) 0 b in
    let b1 = clear_tables f meta.fat_size (write_superblock meta b0) in
    let t = allocate f f meta.fat_size b1 in
    let b2 = allocate f meta.dir_block meta.dir_size t in
    let s = (meta.dir_block - meta.dir_size + 1) * vmu_block_size in
    let one = w.one_block in
    let table = w.table in
    let dir = w.directory in
    let room = w.room in
    let cleared : get16 a b1 ≡ fat_empty =
      tables_lem f meta.fat_size e (write_superblock meta b0) one l in
    let own = allocate_lem f f meta.fat_size e b1 table (omega arith) l in
    let chained = allocate_lem f meta.dir_block meta.dir_size e t (omega arith) (omega arith) l in
    let wiped = get16-fill a s (meta.dir_size * vmu_block_size) 0 b2 (omega arith) in
    rw (entry_at f e l) (ground arith)
