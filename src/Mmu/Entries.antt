-- ===== src/Mmu/Entries.antt =====
-- sh4/mmu.c: putting an entry of the UTLB into the tables of pages, and taking it out. The code that
-- `mmu_utlb_init_vtable` makes for a page is not modelled; `kinds` says which it makes.
use lxdream.Base.{
  ℕ, zero, suc, Bool, true, not, ◌&&◌, ◌||◌, Option, none, some, bit_and, leb, ◌==◌, if◌then◌else◌,
  any_set,
}
use lxdream.Mmu.{
  TlbEntry, Page, utlb_page, tlb_prot, other_region, PageKind, storequeue_page, protected_page,
  initial_page, writable_page, Mmu, mmucr_sv, tlb_valid, tlb_usermode, tlb_writable, tlb_dirty,
  tlb_share, utlb_entry_count,
}
use lxdream.Mmu.Pages.{get_tlb_size_pages, mmu_utlb_map_pages, mmu_utlb_unmap_pages}

abbrev pub start_of : TlbEntry → ℕ
start_of e = bit_and e.vpn e.mask

-- p4_region_storequeue_sqmd
abbrev pub storequeue_sqmd : Page
storequeue_sqmd = other_region 1

-- `storequeue_regions` is 2 while the store queue is protected.
unfoldable pub page_for_user : ℕ → Mmu → Page
page_for_user entry m =
    let e = m.utlb entry in
    let user = any_set e.flags tlb_usermode in
    if bit_and (start_of e) 0xfc00_0000 == 0xe000_0000
    then if not user
      then tlb_prot m.storequeue_regions
      else if m.storequeue_regions == 2
      then storequeue_sqmd
      else utlb_page entry
    else if not user
    then tlb_prot 0
    else utlb_page entry

unfoldable pub kind_of : TlbEntry → PageKind
kind_of e =
    if bit_and (start_of e) 0xfc00_0000 == 0xe000_0000
    then storequeue_page
    else if not (any_set e.flags tlb_writable)
    then protected_page
    else if not (any_set e.flags tlb_dirty)
    then initial_page
    else writable_page

-- The entry is shared or of the current address space.
abbrev pub visible : ℕ → TlbEntry → Bool
visible asid e = any_set e.flags tlb_share || e.asid == asid

abbrev pub state_of : Option (Bool × Mmu) → Option Mmu
state_of none = none
state_of (some (ok, m)) = some m

unfoldable pub mmu_utlb_insert_entry : ℕ → Mmu → Option Mmu
mmu_utlb_insert_entry entry m =
    let e = m.utlb entry in
    let upage = page_for_user entry m in
    let m' = record m {
      user_fn = λ i. if i == entry then upage else m.user_fn i;
      kinds = λ i. if i == entry then kind_of e else m.kinds i;
    } in
    let n = get_tlb_size_pages e.flags in
    if visible m.asid e
    then state_of (mmu_utlb_map_pages (some (utlb_page entry)) (some upage) (start_of e) n m')
    else if any_set m.mmucr mmucr_sv
    then state_of (mmu_utlb_map_pages (some (utlb_page entry)) none (start_of e) n m')
    else some m'

-- One entry in the loop of mmu_utlb_remap_pages; both pages depend on `remap_priv`.
unfoldable pub remap_one : Bool → ℕ → ℕ → Mmu → Option Mmu
remap_one remap_priv entry i m =
    let removed = m.utlb entry in
    let e = m.utlb i in
    let overlaps =
      not (i == entry)
      && bit_and e.vpn removed.mask == start_of removed
      && any_set e.flags tlb_valid in
    let priv_page = if remap_priv then some (utlb_page i) else none in
    let user_page = if remap_priv then some (m.user_fn i) else none in
    let whole = leb removed.mask e.mask in
    let start = if whole then start_of e else start_of removed in
    let n = get_tlb_size_pages (if whole then e.flags else removed.flags) in
    if not overlaps
    then some m
    else if visible m.asid e
    then state_of (mmu_utlb_map_pages priv_page user_page start n m)
    else if any_set m.mmucr mmucr_sv
    then state_of (mmu_utlb_map_pages priv_page none start n m)
    else some m

unfoldable pub remap_from : Bool → ℕ → ℕ → ℕ → Option Mmu → Option Mmu
remap_from remap_priv entry i n none = none
remap_from remap_priv entry i zero (some m) = some m
remap_from remap_priv entry i (suc n) (some m) =
    remap_from remap_priv entry (suc i) n (remap_one remap_priv entry i m)

unfoldable pub mmu_utlb_remap_pages : Bool → Bool → ℕ → Mmu → Option Mmu
mmu_utlb_remap_pages remap_priv remap_user entry m =
    remap_from remap_priv entry 0 utlb_entry_count (some m)

-- After an unclean unmapping the entries below come back.
unfoldable pub remap_unless : Bool → ℕ → Option (Bool × Mmu) → Option Mmu
remap_unless unmap_user entry none = none
remap_unless unmap_user entry (some (clean, m)) =
    if clean then some m else mmu_utlb_remap_pages true unmap_user entry m

unfoldable pub mmu_utlb_remove_entry : ℕ → Mmu → Option Mmu
mmu_utlb_remove_entry entry m =
    let e = m.utlb entry in
    let n = get_tlb_size_pages e.flags in
    let shown = visible m.asid e in
    if shown || any_set m.mmucr mmucr_sv
    then remap_unless shown entry (mmu_utlb_unmap_pages true shown (start_of e) n m)
    else some m

unfoldable pub register_from : ℕ → ℕ → Option Mmu → Option Mmu
register_from i n none = none
register_from i zero (some m) = some m
register_from i (suc n) (some m) =
    register_from (suc i) n
      (if any_set (m.utlb i).flags tlb_valid then mmu_utlb_insert_entry i m else some m)

unfoldable pub mmu_utlb_register_all : Mmu → Option Mmu
mmu_utlb_register_all m = register_from 0 utlb_entry_count (some m)
