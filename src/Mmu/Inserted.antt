-- ===== src/Mmu/Inserted.antt =====
-- What putting an entry into the tables of sh4/mmu.c does, and taking it out again.
use lxdream.Base.{ℕ, ◌-◌, ◌*◌, ◌^◌, ◌≡◌, false, ◌==◌, if◌then◌else◌, arith}
use lxdream.Mmu.{get_tlb_size_mask, Mmu}
use lxdream.Mmu.Pages.{get_tlb_size_pages}
use lxdream.Mmu.Entries.{page_for_user, kind_of}

-- The state after the fields of the entry's page are set.
abbrev prepared : ℕ → Mmu → Mmu
prepared entry m =
    let upage = page_for_user entry m in
    record m {
      user_fn = λ i. if i == entry then upage else m.user_fn i;
      kinds = λ i. if i == entry then kind_of (m.utlb entry) else m.kinds i;
    }

-- The pages of an entry of at least 4K are as large as what its size leaves free in its mask.
size_pages-mask :
    (flags : ℕ)
    → (get_tlb_size_pages flags == 0) ≡ false
    → get_tlb_size_pages flags * 2 ^ 12 ≡ 0x1_0000_0000 - get_tlb_size_mask flags
unfolding get_tlb_size_pages get_tlb_size_mask
size_pages-mask flags z = ground (arith, z)
