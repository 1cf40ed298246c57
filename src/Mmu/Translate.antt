-- ===== src/Mmu/Translate.antt =====
-- sh4/mmu.c: the translation of an address. An exception is a result, with the address where one is
-- reported; what it does to the registers is not modelled. `privileged` is IS_SH4_PRIVMODE.
use lxdream.Base.{
  ℕ, ◌-◌, Bool, not, ◌&&◌, ◌||◌, Option, none, some, bit_and, bit_or, ltb, leb, ◌==◌, if◌then◌else◌,
  any_set,
}
use lxdream.Mmu.{
  TlbEntry, Mmu, mmucr_at, mmucr_sv, mmucr_sqmd, tlb_usermode, tlb_writable, tlb_dirty, Lookup,
  miss, multihit, hit, mmu_utlb_lookup_vpn_asid, mmu_utlb_lookup_vpn, mmu_itlb_lookup_vpn,
  mmu_itlb_lookup_vpn_asid,
}

-- Where an access goes: a page of `sh4_address_space`, a page of `sh4_ext_address_space`, both with
-- the address that the caller uses on it, the store queue, nowhere, or into an exception.
pub data Access : Type 0 where
  internal external : ℕ → Access
  storequeue unmapped : Access
  raised : ℕ → Option ℕ → Access

abbrev pub exc_tlb_miss_read : ℕ
exc_tlb_miss_read = 0x040

abbrev pub exc_tlb_miss_write : ℕ
exc_tlb_miss_write = 0x060

abbrev pub exc_init_page_write : ℕ
exc_init_page_write = 0x080

abbrev pub exc_tlb_prot_read : ℕ
exc_tlb_prot_read = 0x0a0

abbrev pub exc_tlb_prot_write : ℕ
exc_tlb_prot_write = 0x0c0

abbrev pub exc_data_addr_read : ℕ
exc_data_addr_read = 0x0e0

abbrev pub exc_data_addr_write : ℕ
exc_data_addr_write = 0x100

abbrev pub exc_tlb_multi_hit : ℕ
exc_tlb_multi_hit = 0x140

-- The address behind an entry: the page's frame and the offset in the page.
abbrev pub physical : TlbEntry → ℕ → ℕ
physical e addr = bit_or (bit_and e.ppn e.mask) (bit_and addr (0xffff_ffff - e.mask))

-- The addresses from 0x1c000000 on are those of the processor's own devices.
unfoldable pub target : ℕ → Access
target pma = if ltb 0x1c00_0000 pma then internal (bit_or pma 0xe000_0000) else external pma

-- What is the same in the three functions before the lookup; `none` if a lookup is needed. The
-- caller's address stays as it is, also where the page is found under its external address.
unfoldable pub untranslated : ℕ → Bool → ℕ → Mmu → Option Access
untranslated exc privileged addr m =
    let fixed : Option Access =
      if privileged
      then if leb 0xe000_0000 addr
        then some (internal addr)
        else if ltb addr 0xc000_0000
        then some (external addr)
        else none
      else if leb 0xe000_0000 addr && ltb addr 0xe400_0000 && not (any_set m.mmucr mmucr_sqmd)
      then some storequeue
      else some (raised exc none) in
    let direct : Option Access = if any_set m.mmucr mmucr_at then none else some (internal addr) in
    if any_set addr 0x8000_0000 then elim fixed [ some a ↦ some a | none ↦ direct ] else direct

abbrev pub utlb_lookup : Bool → ℕ → Mmu → Lookup × Mmu
utlb_lookup privileged addr m =
    if not (any_set m.mmucr mmucr_sv) || not privileged
    then mmu_utlb_lookup_vpn_asid addr m
    else mmu_utlb_lookup_vpn addr m

unfoldable pub read_result : Bool → ℕ → Lookup → Mmu → Access
read_result privileged addr miss m = raised exc_tlb_miss_read (some addr)
read_result privileged addr multihit m = raised exc_tlb_multi_hit (some addr)
read_result privileged addr (hit i) m =
    if not (any_set (m.utlb i).flags tlb_usermode) && not privileged
    then raised exc_tlb_prot_read (some addr)
    else target (physical (m.utlb i) addr)

unfoldable pub mmu_get_region_for_vma_read : Bool → ℕ → Mmu → Access × Mmu
mmu_get_region_for_vma_read privileged addr m =
    let (entry, m') = utlb_lookup privileged addr m in
    elim (untranslated exc_data_addr_read privileged addr m) [
      | some a ↦ (a, m)
      | none ↦ (read_result privileged addr entry m', m')
    ]

unfoldable pub prefetch_result : Bool → ℕ → Lookup → Mmu → Access
prefetch_result privileged addr miss m = unmapped
prefetch_result privileged addr multihit m = raised exc_tlb_multi_hit (some addr)
prefetch_result privileged addr (hit i) m =
    if not (any_set (m.utlb i).flags tlb_usermode) && not privileged
    then unmapped
    else target (physical (m.utlb i) addr)

unfoldable pub mmu_get_region_for_vma_prefetch : Bool → ℕ → Mmu → Access × Mmu
mmu_get_region_for_vma_prefetch privileged addr m =
    let (entry, m') = utlb_lookup privileged addr m in
    elim (untranslated exc_data_addr_read privileged addr m) [
      | some a ↦ (a, m)
      | none ↦ (prefetch_result privileged addr entry m', m')
    ]

abbrev pub may_write : Bool → ℕ → Bool
may_write privileged flags =
    if privileged then any_set flags tlb_writable else bit_and flags 0x60 == 0x60

unfoldable pub write_result : Bool → ℕ → Lookup → Mmu → Access
write_result privileged addr miss m = raised exc_tlb_miss_write (some addr)
write_result privileged addr multihit m = raised exc_tlb_multi_hit (some addr)
write_result privileged addr (hit i) m =
    if not (may_write privileged (m.utlb i).flags)
    then raised exc_tlb_prot_write (some addr)
    else if not (any_set (m.utlb i).flags tlb_dirty)
    then raised exc_init_page_write (some addr)
    else target (physical (m.utlb i) addr)

unfoldable pub mmu_get_region_for_vma_write : Bool → ℕ → Mmu → Access × Mmu
mmu_get_region_for_vma_write privileged addr m =
    let (entry, m') = utlb_lookup privileged addr m in
    elim (untranslated exc_data_addr_write privileged addr m) [
      | some a ↦ (a, m)
      | none ↦ (write_result privileged addr entry m', m')
    ]

abbrev pub mmu_vma_error : ℕ
mmu_vma_error = 0x8000_0000

-- The address of a hit in the ITLB.
abbrev itlb_address : ℕ → Lookup × Mmu → ℕ × Mmu
itlb_address vma (hit i, m) = (physical (m.itlb i) vma, m)
itlb_address vma (miss, m) = (mmu_vma_error, m)
itlb_address vma (multihit, m) = (mmu_vma_error, m)

abbrev retry : ℕ → Lookup × Mmu → Lookup × Mmu
retry vma (hit i, m) = (hit i, m)
retry vma (miss, m) = (miss, m)
retry vma (multihit, m) = mmu_itlb_lookup_vpn_asid vma m

unfoldable pub mmu_vma_to_phys_disasm : ℕ → Mmu → ℕ × Mmu
mmu_vma_to_phys_disasm vma m =
    let high = any_set vma 0x8000_0000 in
    let found = itlb_address vma (retry vma (mmu_itlb_lookup_vpn vma m)) in
    if high && ltb vma 0xc000_0000
    then (bit_and vma 0x1fff_ffff, m)
    else if high && leb 0xe000_0000 vma && ltb vma 0xffff_ff00
    then (mmu_vma_error, m)
    else if not (any_set m.mmucr mmucr_at)
    then (bit_and vma 0x1fff_ffff, m)
    else found
