-- ===== src/Mmu.antt =====
-- sh4/mmu.c: the translation buffers of the SH4 and the lookup of an address in them. The tables of
-- pages that the emulator keeps besides, `sh4_address_space` and its kind, are fields of the state.
pub mod Entries
pub mod Groups
pub mod Inserted
pub mod Lru
pub mod Mapped
pub mod Matches
pub mod Order
pub mod Pages
pub mod Subpages
pub mod Protect
pub mod Translate
pub mod Walks
use lxdream.Base.{
  ℕ, zero, suc, ◌+◌, ◌-◌, ◌*◌, ◌/◌, ◌%◌, ◌^◌, Bool, true, false, not, ◌&&◌, ◌||◌, Option, none,
  some, bit_and, bit_or, bit_xor, ltb, leb, ◌==◌, if◌then◌else◌, any_set, u32_mod,
}
use lxdream.Machine.{Region}

-- struct itlb_entry and struct utlb_entry; `pcmcia` is of the latter.
pub record TlbEntry : Type 0 where
  pub vpn : ℕ
  pub asid : ℕ
  pub mask : ℕ
  pub ppn : ℕ
  pub flags : ℕ
  pub pcmcia : ℕ

-- What a page of an address space can point at: an entry of the UTLB, a group of four pages of 1K
-- for privileged or for user mode, a member of `mmu_default_regions` by its index there, or another
-- region.
pub data Page : Type 0 where
  utlb_page one_k user_one_k : ℕ → Page
  tlb_miss tlb_prot tlb_multihit : ℕ → Page
  other_region : ℕ → Page

-- The functions that the page of an entry has: those of the store queue, or those of memory with
-- `tlb_protected_write`, with `tlb_initial_write`, or with all writes let through.
pub data PageKind : Type 0 where
  storequeue_page protected_page initial_page writable_page : PageKind

-- The variables of the file. `mmucr` is the register MMUCR; `subpages` and `user_subpages` are the
-- fields of the groups of four pages, `user_fn` and
-- `kinds` those of `mmu_utlb_pages`; `storequeue_regions` is an
-- index in `mmu_default_regions`.
pub record Mmu : Type 0 where
  pub itlb : ℕ → TlbEntry
  pub utlb : ℕ → TlbEntry
  pub urc : ℕ
  pub urb : ℕ
  pub urc_overflow : Bool
  pub lrui : ℕ
  pub asid : ℕ
  pub mmucr : ℕ
  pub address_space : ℕ → Page
  pub user_space : ℕ → Page
  pub subpages : ℕ → ℕ → Page
  pub user_subpages : ℕ → ℕ → Page
  pub user_fn : ℕ → Page
  pub kinds : ℕ → PageKind
  pub free_list : ℕ → ℕ
  pub free_index : ℕ
  pub storequeue_regions : ℕ

abbrev pub mmucr_at : ℕ
mmucr_at = 0x1

abbrev pub mmucr_sv : ℕ
mmucr_sv = 0x100

abbrev pub mmucr_sqmd : ℕ
mmucr_sqmd = 0x200

abbrev pub tlb_valid : ℕ
tlb_valid = 0x100

abbrev pub tlb_usermode : ℕ
tlb_usermode = 0x40

abbrev pub tlb_writable : ℕ
tlb_writable = 0x20

abbrev pub tlb_dirty : ℕ
tlb_dirty = 0x04

abbrev pub tlb_share : ℕ
tlb_share = 0x02

abbrev pub itlb_entry_count : ℕ
itlb_entry_count = 4

abbrev pub utlb_entry_count : ℕ
utlb_entry_count = 64

unfoldable pub get_tlb_size_mask : ℕ → ℕ
get_tlb_size_mask flags =
    let size = bit_and flags 0x90 in
    if size == 0x00
    then 0xffff_fc00
    else if size == 0x10
    then 0xffff_f000
    else if size == 0x80
    then 0xffff_0000
    else if size == 0x90
    then 0xfff0_0000
    else 0

-- The result of a lookup: an entry, -1 or -2.
pub data Lookup : Type 0 where
  miss multihit : Lookup
  hit : ℕ → Lookup

-- The entry is valid and covers the page.
abbrev pub covers : ℕ → TlbEntry → Bool
covers vpn e = any_set e.flags tlb_valid && bit_and (bit_xor e.vpn vpn) e.mask == 0

-- It is shared or belongs to the address space as well.
abbrev pub covers_asid : ℕ → ℕ → TlbEntry → Bool
covers_asid asid vpn e = covers vpn e && (any_set e.flags tlb_share || asid == e.asid)

-- The loop of a lookup over the `n` entries from `i` on: `result` is that of the entries before.
unfoldable pub lookup_loop : (ℕ → Bool) → ℕ → ℕ → Lookup → Lookup
lookup_loop matches i zero result = result
lookup_loop matches i (suc n) miss =
    let rest = lookup_loop matches (suc i) n (if matches i then hit i else miss) in rest
lookup_loop matches i (suc n) (hit j) =
    let rest = lookup_loop matches (suc i) n (hit j) in if matches i then multihit else rest
lookup_loop matches i (suc n) multihit = multihit

-- The count of accesses goes back to 0 at the boundary.
abbrev pub count_access : Mmu → Mmu
count_access m =
    let urc = (m.urc + 1) % u32_mod in
    record m { urc = if urc == m.urb || urc == 0x40 then 0 else urc }

unfoldable pub mmu_utlb_lookup_vpn_asid : ℕ → Mmu → Lookup × Mmu
mmu_utlb_lookup_vpn_asid vpn m =
    (lookup_loop (λ i. covers_asid m.asid vpn (m.utlb i)) 0 utlb_entry_count miss, count_access m)

unfoldable pub mmu_utlb_lookup_vpn : ℕ → Mmu → Lookup × Mmu
mmu_utlb_lookup_vpn vpn m =
    (lookup_loop (λ i. covers vpn (m.utlb i)) 0 utlb_entry_count miss, count_access m)

unfoldable pub mmu_utlb_lookup_assoc : ℕ → ℕ → Mmu → Lookup
mmu_utlb_lookup_assoc vpn asid m =
    lookup_loop (λ i. covers_asid asid vpn (m.utlb i)) 0 utlb_entry_count miss

unfoldable pub mmu_itlb_lookup_assoc : ℕ → ℕ → Mmu → Lookup
mmu_itlb_lookup_assoc vpn asid m =
    lookup_loop (λ i. covers_asid asid vpn (m.itlb i)) 0 itlb_entry_count miss

abbrev of_page : Page → Lookup
of_page (utlb_page n) = hit n
of_page (one_k n) = miss
of_page (user_one_k n) = miss
of_page (tlb_miss d) = miss
of_page (tlb_prot d) = miss
of_page (tlb_multihit d) = if d == 0 then multihit else miss
of_page (other_region r) = miss

-- The page behind a group of four.
abbrev inner_page : Mmu → ℕ → Page → Page
inner_page m vpn (utlb_page n) = utlb_page n
inner_page m vpn (one_k n) = m.subpages n (bit_and (vpn / 2 ^ 10) 0x03)
inner_page m vpn (user_one_k n) = user_one_k n
inner_page m vpn (tlb_miss d) = tlb_miss d
inner_page m vpn (tlb_prot d) = tlb_prot d
inner_page m vpn (tlb_multihit d) = tlb_multihit d
inner_page m vpn (other_region r) = other_region r

-- The lookup in the table of pages; `mmu_urc` only grows here.
unfoldable pub mmu_utlb_entry_for_vpn : ℕ → Mmu → Lookup × Mmu
mmu_utlb_entry_for_vpn vpn m = (
  of_page (inner_page m vpn (m.address_space (vpn / 2 ^ 12))),
  record m { urc = (m.urc + 1) % u32_mod },
)

-- The six bits of LRUI after a use of an entry of the ITLB.
unfoldable pub lrui_used : ℕ → ℕ → ℕ
lrui_used entry lrui =
    if entry == 0
    then bit_and lrui 0x07
    else if entry == 1
    then bit_or (bit_and lrui 0x19) 0x20
    else if entry == 2
    then bit_or (bit_and lrui 0x3e) 0x14
    else if entry == 3
    then bit_or lrui 0x0b
    else lrui

-- The entry of the ITLB that is replaced.
unfoldable pub lrui_replace : ℕ → ℕ
lrui_replace lrui =
    if bit_and lrui 0x38 == 0x38
    then 0
    else if bit_and lrui 0x26 == 0x06
    then 1
    else if bit_and lrui 0x15 == 0x01
    then 2
    else 3

unfoldable pub mmu_itlb_update_from_utlb : ℕ → Mmu → ℕ × Mmu
mmu_itlb_update_from_utlb entry m =
    let replace = lrui_replace m.lrui in
    let e = m.utlb entry in
    let copy = record e { flags = bit_and e.flags 0x01da; pcmcia = (m.itlb replace).pcmcia } in
    (
      replace,
      record m {
        lrui = lrui_used replace m.lrui;
        itlb = λ i. if i == replace then copy else m.itlb i;
      },
    )

-- The end of a lookup in the ITLB: a miss there goes on in the UTLB.
unfoldable pub itlb_result : Lookup → Lookup × Mmu → Mmu → Lookup × Mmu
itlb_result (hit i) below m = (hit i, record m { lrui = lrui_used i m.lrui })
itlb_result multihit below m = (multihit, m)
itlb_result miss (hit n, m') m = let (i, m'') = mmu_itlb_update_from_utlb n m' in (hit i, m'')
itlb_result miss (miss, m') m = (miss, m')
itlb_result miss (multihit, m') m = (multihit, m')

unfoldable pub mmu_itlb_lookup_vpn_asid : ℕ → Mmu → Lookup × Mmu
mmu_itlb_lookup_vpn_asid vpn m =
    itlb_result (lookup_loop (λ i. covers_asid m.asid vpn (m.itlb i)) 0 itlb_entry_count miss)
      (mmu_utlb_entry_for_vpn vpn m) m

unfoldable pub mmu_itlb_lookup_vpn : ℕ → Mmu → Lookup × Mmu
mmu_itlb_lookup_vpn vpn m =
    itlb_result (lookup_loop (λ i. covers vpn (m.itlb i)) 0 itlb_entry_count miss)
      (mmu_utlb_lookup_vpn vpn m) m

-- `none` stands for a division by `mmu_urb` while it is 0.
unfoldable pub mmu_read_urc : Mmu → Option (ℕ × Mmu)
mmu_read_urc m =
    let wrapped = m.urc % m.urb in
    let past = (m.urc - 0x40) % m.urb in
    if m.urc_overflow
    then if leb 0x40 m.urc
      then if m.urb == 0 then none else some (past, record m { urc = past; urc_overflow = false })
      else some (m.urc, m)
    else if m.urb == 0
    then none
    else some (wrapped, record m { urc = wrapped })
