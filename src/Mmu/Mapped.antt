-- ===== src/Mmu/Mapped.antt =====
-- What the mapping of pages of 4K and more of sh4/mmu.c does to the tables.
use lxdream.Base.{
  ℕ, ◌+◌, ◌*◌, ◌/◌, ◌^◌, ◌≡◌, refl, sym, ◌∙◌, ap, Bool, true, false, not, ◌&&◌, ◌||◌, Option, none,
  some, ◌==◌, ==_refl, if◌then◌else◌, Bool-cases, inl, inr,
}
use lxdream.Mmu.{Page, tlb_miss, tlb_multihit, Mmu}
use lxdream.Mmu.Pages.{
  same_page, map_walk, unmap_walk, map_table, RegionsAt, regions_at, mmu_utlb_map_pages,
  mmu_utlb_unmap_pages,
}
use lxdream.Mmu.Walks.{
  inside, mapped, if_true, map_walk-at, map_walk-free, unmap_walk-at, unmap_walk-clean, both_true,
}

-- Where every page was free, the pages of the table are `p`.
map_walk-all :
    (p : Page) (d a n k : ℕ) (space : ℕ → Page)
    → ((j : ℕ) → inside a n j ≡ true → space j ≡ tlb_miss d)
    → (map_walk p d a n space).1 k ≡ (if inside a n k then p else space k)
map_walk-all p d a n k space h = elim (Bool-cases (inside a n k)) [
  | inl y ↦
      map_walk-at p d a n k space
      ∙ rw y (
          ap (mapped p d) (h k y)
          ∙ if_true (d * 7 + 3 == d * 7 + 3) p (tlb_multihit d) (==_refl (d * 7 + 3)))
  | inr o ↦ map_walk-at p d a n k space ∙ rw o refl
]

map_table-all :
    (b : Bool) (p : Page) (d a n k : ℕ) (space : ℕ → Page)
    → ((j : ℕ) → inside a n j ≡ true → space j ≡ tlb_miss d)
    → (map_table (if b then some p else none) d a n space).1 k
      ≡ (if b && inside a n k then p else space k)
unfolding map_table
map_table-all false p d a n k space h = refl
map_table-all true p d a n k space h = map_walk-all p d a n k space h

map_table-free :
    (b : Bool) (p : Page) (d a n : ℕ) (space : ℕ → Page)
    → ((j : ℕ) → inside a n j ≡ true → space j ≡ tlb_miss d)
    → (map_table (if b then some p else none) d a n space).0 ≡ true
unfolding map_table
map_table-free false p d a n space h = refl
map_table-free true p d a n space h = map_walk-free p d a n space h

-- Taking the pages out again.
unmap_walk-back :
    (p : Page) (d a n k : ℕ) (space : ℕ → Page)
    → ((j : ℕ) → inside a n j ≡ true → space j ≡ tlb_miss d)
    → (unmap_walk d a n (map_walk p d a n space).1).1 k ≡ space k
unmap_walk-back p d a n k space h = elim (Bool-cases (inside a n k)) [
  | inl y ↦ unmap_walk-at d a n k (map_walk p d a n space).1 ∙ rw y (sym (h k y))
  | inr o ↦
      unmap_walk-at d a n k (map_walk p d a n space).1
      ∙ rw o (map_walk-all p d a n k space h ∙ rw o refl)
]

unmap_walk-clean_all :
    (p : Page) (d a n : ℕ) (space : ℕ → Page)
    → ((j : ℕ) → inside a n j ≡ true → space j ≡ tlb_miss d)
    → same_page p (tlb_multihit d) ≡ false
    → (unmap_walk d a n (map_walk p d a n space).1).0 ≡ true
unmap_walk-clean_all p d a n space h e =
    unmap_walk-clean d a n (map_walk p d a n space).1 (λ k i.
      ap (λ x. same_page x (tlb_multihit d)) (map_walk-all p d a n k space h ∙ rw i refl) ∙ e)

-- The table of user mode, which the mapping may leave out.
unmap_table-back :
    (b : Bool) (p : Page) (d a n k : ℕ) (space : ℕ → Page)
    → ((j : ℕ) → inside a n j ≡ true → space j ≡ tlb_miss d)
    → let s = (map_table (if b then some p else none) d a n space).1 in
      (if b then (unmap_walk d a n s).1 else s) k ≡ space k
unfolding map_table
unmap_table-back false p d a n k space h = refl
unmap_table-back true p d a n k space h = unmap_walk-back p d a n k space h

unmap_table-clean :
    (b : Bool) (p : Page) (d a n : ℕ) (space : ℕ → Page)
    → ((j : ℕ) → inside a n j ≡ true → space j ≡ tlb_miss d)
    → same_page p (tlb_multihit d) ≡ false
    → let s = (map_table (if b then some p else none) d a n space).1 in
      (not b || (unmap_walk d a n s).0) ≡ true
unfolding map_table
unmap_table-clean false p d a n space h e = refl
unmap_table-clean true p d a n space h e = unmap_walk-clean_all p d a n space h e

abbrev pub done : Bool → Mmu → Option (Bool × Mmu)
done b m = some (b, m)

map_pages-step :
    (p u : Page) (start n : ℕ) (r : RegionsAt) (m : Mmu)
    → regions_at start m ≡ some r
    → (n == 0) ≡ false
    → let a = start / 2 ^ 12 in
      let (ok, space) = map_walk p r.privdefs a n m.address_space in
      let (user_ok, user_space) =
        map_table (if r.has_user then some u else none) r.userdefs a n m.user_space in
      mmu_utlb_map_pages (some p) (some u) start n m
      ≡ done (ok && user_ok) (record m { address_space = space; user_space = user_space })
unfolding mmu_utlb_map_pages map_table
map_pages-step p u start n r m e z = rw (e, z, mmu_utlb_map_pages) refl

unmap_pages-step :
    (start n : ℕ) (r : RegionsAt) (m : Mmu)
    → regions_at start m ≡ some r
    → (n == 0) ≡ false
    → let a = start / 2 ^ 12 in
      let (ok, space) = unmap_walk r.privdefs a n m.address_space in
      let (user_ok, user_space) = unmap_walk r.userdefs a n m.user_space in
      mmu_utlb_unmap_pages true true start n m
      ≡ done (ok && (not r.has_user || user_ok)) (record m {
        address_space = space;
        user_space = if r.has_user then user_space else m.user_space;
      })
unfolding mmu_utlb_unmap_pages
unmap_pages-step start n r m e z = rw (e, z, mmu_utlb_unmap_pages) refl

-- The regions do not depend on the tables.
regions_at-tables :
    (start : ℕ) (m : Mmu) (space user_space : ℕ → Page)
    → regions_at start (record m { address_space = space; user_space = user_space })
      ≡ regions_at start m
unfolding regions_at
regions_at-tables start m space user_space = refl

-- Pages of 4K and more that are mapped where the tables have none before hold the new entries and
-- nothing else changes; to unmap them gives TRUE and brings the tables back.
pub map-unmap_pages :
    (p u : Page) (start n : ℕ) (r : RegionsAt) (m : Mmu)
    → regions_at start m ≡ some r
    → (n == 0) ≡ false
    → same_page p (tlb_multihit r.privdefs) ≡ false
    → same_page u (tlb_multihit r.userdefs) ≡ false
    → ((j : ℕ) → inside (start / 2 ^ 12) n j ≡ true → m.address_space j ≡ tlb_miss r.privdefs)
    → ((j : ℕ) → inside (start / 2 ^ 12) n j ≡ true → m.user_space j ≡ tlb_miss r.userdefs)
    → (m1 : Mmu) × (m2 : Mmu) × (mmu_utlb_map_pages (some p) (some u) start n m ≡ some (true, m1))
      × (mmu_utlb_unmap_pages true true start n m1 ≡ some (true, m2))
      × ((k : ℕ)
          → m1.address_space k ≡ (if inside (start / 2 ^ 12) n k then p else m.address_space k))
      × ((k : ℕ)
          → m1.user_space k
            ≡ (if r.has_user && inside (start / 2 ^ 12) n k then u else m.user_space k))
      × ((k : ℕ) → m2.address_space k ≡ m.address_space k)
      × ((k : ℕ) → m2.user_space k ≡ m.user_space k)
      × (m1 ≡ record m { address_space = m1.address_space; user_space = m1.user_space })
      × (m2 ≡ record m { address_space = m2.address_space; user_space = m2.user_space })
map-unmap_pages p u start n r m e z np nu hp hu =
    let a = start / 2 ^ 12 in
    let s = (map_walk p r.privdefs a n m.address_space).1 in
    let us = (map_table (if r.has_user then some u else none) r.userdefs a n m.user_space).1 in
    let m1 = record m { address_space = s; user_space = us } in
    let m2 = record m {
      address_space = (unmap_walk r.privdefs a n s).1;
      user_space = if r.has_user then (unmap_walk r.userdefs a n us).1 else us;
    } in
    let flag =
      both_true (map_walk p r.privdefs a n m.address_space).0
        (map_table (if r.has_user then some u else none) r.userdefs a n m.user_space).0
        (map_walk-free p r.privdefs a n m.address_space hp)
        (map_table-free r.has_user u r.userdefs a n m.user_space hu) in
    let unflag =
      both_true (unmap_walk r.privdefs a n s).0 (not r.has_user || (unmap_walk r.userdefs a n us).0)
        (unmap_walk-clean_all p r.privdefs a n m.address_space hp np)
        (unmap_table-clean r.has_user u r.userdefs a n m.user_space hu nu) in
    (
      m1,
      m2,
      map_pages-step p u start n r m e z ∙ ap (λ b. done b m1) flag,
      unmap_pages-step start n r m1 (regions_at-tables start m s us ∙ e) z
          ∙ ap (λ b. done b m2) unflag,
      λ k. map_walk-all p r.privdefs a n k m.address_space hp,
      λ k. map_table-all r.has_user u r.userdefs a n k m.user_space hu,
      λ k. unmap_walk-back p r.privdefs a n k m.address_space hp,
      λ k. unmap_table-back r.has_user u r.userdefs a n k m.user_space hu,
      refl,
      refl,
    )
