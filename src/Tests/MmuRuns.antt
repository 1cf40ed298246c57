-- ===== src/Tests/MmuRuns.antt =====
-- Runs of the model of sh4/mmu.c.
use lxdream.Base.{some, ℕ, ◌≡◌, refl, true, false, ◌==◌, if◌then◌else◌, [], ◌∷◌, ◌||◌, arith, erase}
use lxdream.Mmu.{
  TlbEntry, Mmu, tlb_miss, tlb_prot, utlb_page, initial_page, other_region, hit,
  mmu_utlb_lookup_vpn_asid, covers_asid, lookup_loop, mmu_itlb_update_from_utlb,
}
use lxdream.Mmu.Protect.{through, writing, looks_for, permits, region_for-permitted}
use lxdream.Mmu.Translate.{untranslated, write_result, target, mmu_get_region_for_vma_write}
use lxdream.Mmu.Matches.{matching, verdict}
use lxdream.Mmu.Pages.{regions_at, mmu_utlb_map_pages, mmu_utlb_unmap_pages}
use lxdream.Mmu.Subpages.{map-unmap_subpage}
use lxdream.Mmu.Order.{older, lrui_of, IsOrder}
use lxdream.Mmu.Lru.{mmu_itlb_update_from_utlb-oldest}

abbrev unused : TlbEntry
unused = record { vpn = 0; asid = 0; mask = 0xffff_f000; ppn = 0; flags = 0; pcmcia = 0 }

-- A page of 4K of the address space `asid`.
abbrev page_of : ℕ → TlbEntry
page_of asid = record {
  vpn = 0x0040_0000;
  asid = asid;
  mask = 0xffff_f000;
  ppn = 0x0c01_0000;
  flags = 0x174;
  pcmcia = 0;
}

-- Two address spaces have the same page; the ITLB was used in the order 2, 0, 1, 3.
abbrev buffers : Mmu
buffers = record {
  itlb = λ i. unused;
  utlb = λ i. if i == 3 then page_of 7 else if i == 9 then page_of 8 else unused;
  urc = 62;
  urb = 0;
  urc_overflow = false;
  lrui = 0x14;
  asid = 8;
  mmucr = 1;
  address_space = λ i. tlb_miss 0;
  user_space = λ i. tlb_miss 0;
  subpages = λ i j. other_region 0;
  user_subpages = λ i j. other_region 0;
  user_fn = λ i. other_region 0;
  kinds = λ i. initial_page;
  free_list = λ i. i;
  free_index = 0;
  storequeue_regions = 1;
}

uses-IsOrder : IsOrder (2 ∷ 0 ∷ 1 ∷ 3 ∷ [])
uses-IsOrder = record { zero_in = refl; one_in = refl; two_in = refl; three_in = refl }

mmu_itlb_update_from_utlb-oldest_example :
    let (r, m') = mmu_itlb_update_from_utlb 9 buffers in
    ((0 == r || older r 0 (2 ∷ 0 ∷ 1 ∷ 3 ∷ []) == 1) ≡ true)
    × (m'.lrui ≡ lrui_of (r ∷ erase r (2 ∷ 0 ∷ 1 ∷ 3 ∷ [])))
    × (covers_asid 8 0x0040_0123 (m'.itlb r) ≡ covers_asid 8 0x0040_0123 (page_of 8))
mmu_itlb_update_from_utlb-oldest_example =
    mmu_itlb_update_from_utlb-oldest 9 0 8 0x0040_0123 (2 ∷ 0 ∷ 1 ∷ 3 ∷ []) buffers uses-IsOrder
      refl (omega arith)

region_for-permitted_example :
    (i : ℕ) × (verdict (matching (looks_for false 0x0040_0123 buffers) 0 64) ≡ hit i)
    × (permits writing false (buffers.utlb i).flags ≡ true)
    × ((mmu_get_region_for_vma_write false 0x0040_0123 buffers).0
        ≡ through (buffers.utlb i) 0x0040_0123)
unfolding untranslated write_result target mmu_get_region_for_vma_write mmu_utlb_lookup_vpn_asid
    lookup_loop
region_for-permitted_example = region_for-permitted writing false 0x0040_0123 buffers refl refl refl

map-unmap_subpage_example :
    (m1 : Mmu) × (m2 : Mmu) × (mmu_utlb_map_pages
        (some (utlb_page 9))
        (some (tlb_prot 0))
        0x0040_0400
        0
        buffers
      ≡ some (true, m1))
    × (mmu_utlb_unmap_pages true true 0x0040_0400 0 m1 ≡ some (true, m2))
    × ((k : ℕ) → m2.address_space k ≡ buffers.address_space k)
    × ((k : ℕ) → m2.user_space k ≡ buffers.user_space k)
    × (m2.free_index ≡ buffers.free_index)
    × ((k : ℕ) → m2.free_list k ≡ buffers.free_list k)
unfolding regions_at
map-unmap_subpage_example =
    map-unmap_subpage (utlb_page 9) (tlb_prot 0) 0x0040_0400
      (record { privdefs = 0; userdefs = 0; has_user = true }) buffers refl refl refl refl refl refl
