-- ===== src/Mmu/Subpages.antt =====
-- What the mapping of a page of 1K of sh4/mmu.c does to the tables and the pool of groups.
use lxdream.Base.{
  ℕ, ◌+◌, ◌-◌, ◌/◌, ◌^◌, ◌≡◌, refl, sym, ◌∙◌, ap, true, false, some, bit_and, ltb, ◌==◌, ==_refl,
  if◌then◌else◌, arith, Bool-cases, inl, inr,
}
use lxdream.Mmu.{Page, one_k, user_one_k, tlb_miss, tlb_multihit, Mmu}
use lxdream.Mmu.Pages.{
  same_page, set_page, RegionsAt, regions_at, one_k_entry, unmap_small, mmu_utlb_map_pages,
  mmu_utlb_unmap_pages,
}
use lxdream.Mmu.Walks.{if_true}
use lxdream.Mmu.Groups.{
  with_group, with_subpages, one_in, one_out, released, set_group_same, one_out-in, map_pages-group,
  mergeable-flat, unmap_small-merged,
}

set_page_self : (space : ℕ → Page) (a : ℕ) (p : Page) → set_page space a p a ≡ p
set_page_self space a p = if_true (a == a) p (space a) (==_refl a)

-- What stood at a place before stands there again.
set_page_back :
    (space : ℕ → Page) (a k : ℕ) (p q : Page)
    → q ≡ space a
    → set_page (set_page space a p) a q k ≡ space k
set_page_back space a k p q e = elim (Bool-cases (k == a)) [
  | inl y ↦ let same : k ≡ a = ground (arith, y) in rw y (e ∙ sym (ap space same))
  | inr o ↦ rw o refl
]

list_back : (list : ℕ → ℕ) (i k : ℕ) → (if k == i + 1 - 1 then list i else list k) ≡ list k
list_back list i k = elim (Bool-cases (k == i)) [
  | inl y ↦
      let same : k ≡ i = ground (arith, y) in
      let back : (k == i + 1 - 1) ≡ true = ground (arith, y) in rw back (sym (ap list same))
  | inr o ↦ let other : (k == i + 1 - 1) ≡ false = ground (arith, o) in rw other refl
]

unmap_pages-small :
    (start n : ℕ) (r : RegionsAt) (m : Mmu)
    → regions_at start m ≡ some r
    → one_k_entry (m.address_space (start / 2 ^ 12)) ≡ some n
    → mmu_utlb_unmap_pages true true start 0 m ≡ unmap_small true r.has_user r start (some n) m
unfolding mmu_utlb_unmap_pages
unmap_pages-small start n r m e h = rw (e, h, mmu_utlb_unmap_pages) refl

regions_at-group :
    (start a n : ℕ) (sub user_sub : ℕ → Page) (m : Mmu)
    → regions_at start (with_subpages n sub user_sub (with_group a m)) ≡ regions_at start m
unfolding regions_at
regions_at-group start a n sub user_sub m = refl

-- A page of 1K that is mapped where the tables have no page takes a group of the pool; to unmap it
-- gives TRUE, brings the tables back, and puts the group where it was in the pool.
pub map-unmap_subpage :
    (p u : Page) (start : ℕ) (r : RegionsAt) (m : Mmu)
    → regions_at start m ≡ some r
    → same_page p (tlb_multihit r.privdefs) ≡ false
    → m.address_space (start / 2 ^ 12) ≡ tlb_miss r.privdefs
    → m.user_space (start / 2 ^ 12) ≡ tlb_miss r.userdefs
    → ltb m.free_index 64 ≡ true
    → ltb (m.free_list m.free_index) 64 ≡ true
    → (m1 : Mmu) × (m2 : Mmu) × (mmu_utlb_map_pages (some p) (some u) start 0 m ≡ some (true, m1))
      × (mmu_utlb_unmap_pages true true start 0 m1 ≡ some (true, m2))
      × ((k : ℕ) → m2.address_space k ≡ m.address_space k)
      × ((k : ℕ) → m2.user_space k ≡ m.user_space k)
      × (m2.free_index ≡ m.free_index)
      × ((k : ℕ) → m2.free_list k ≡ m.free_list k)
map-unmap_subpage p u start r m e np h k f l =
    let a = start / 2 ^ 12 in
    let idx = bit_and (start / 2 ^ 10) 0x03 in
    let n = m.free_list m.free_index in
    let one = one_in true p idx (m.address_space a) in
    let user_one = one_in r.has_user u idx (m.user_space a) in
    let g = with_group a m in
    let m1 = with_subpages n one user_one g in
    let sub = one_out true r.privdefs idx (m1.subpages n) in
    let user_sub = one_out r.has_user r.userdefs idx (m1.user_subpages n) in
    let m2 = released a n (sub 0) (user_sub 0) (with_subpages n sub user_sub m1) in
    let empty : (j : ℕ) → sub j ≡ m.address_space a = λ j.
      ap (λ s. one_out true r.privdefs idx s j) (set_group_same g.subpages n one)
      ∙ one_out-in true p r.privdefs idx j (m.address_space a) h in
    let user_empty : (j : ℕ) → user_sub j ≡ m.user_space a = λ j.
      ap (λ s. one_out r.has_user r.userdefs idx s j) (set_group_same g.user_subpages n user_one)
      ∙ one_out-in r.has_user u r.userdefs idx j (m.user_space a) k in
    let clean : same_page (m1.subpages n idx) (tlb_multihit r.privdefs) ≡ false =
      ap (λ s. same_page (s idx) (tlb_multihit r.privdefs)) (set_group_same g.subpages n one)
      ∙ ap (λ x. same_page x (tlb_multihit r.privdefs))
          (set_page_self (λ j. m.address_space a) idx p)
      ∙ np in
    (
      m1,
      m2,
      map_pages-group p u start r m e h k f,
      unmap_pages-small start n r m1 (regions_at-group start a n one user_one m ∙ e)
            (ap one_k_entry (set_page_self m.address_space a (one_k n)))
          ∙ unmap_small-merged r.has_user r start n m1
              (mergeable-flat sub user_sub (m.address_space a) (m.user_space a) empty user_empty)
              clean l (ground arith),
      λ j. set_page_back m.address_space a j (one_k n) (sub 0) (empty 0),
      λ j. set_page_back m.user_space a j (user_one_k n) (user_sub 0) (user_empty 0),
      omega arith,
      λ j. list_back m.free_list m.free_index j,
    )
