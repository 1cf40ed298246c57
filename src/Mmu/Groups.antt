-- ===== src/Mmu/Groups.antt =====
-- The groups of four pages of 1K of sh4/mmu.c: what mapping and unmapping do to a group.
use lxdream.Base.{
  ℕ, ◌+◌, ◌-◌, ◌/◌, ◌^◌, ◌≡◌, refl, sym, ◌∙◌, ap, Bool, true, false, Option, none, some, bit_and,
  ltb, ◌==◌, ==_refl, if◌then◌else◌, Bool-cases, inl, inr,
}
use lxdream.Mmu.{Page, one_k, user_one_k, tlb_miss, tlb_multihit, Mmu}
use lxdream.Mmu.Pages.{
  page_code, same_page, set_page, set_group, RegionsAt, regions_at, one_k_entry, mmu_utlb_1k_alloc,
  mmu_utlb_1k_free, new_group, group_at, map_subpage, map_small, mergeable, merge, unmap_small,
  mmu_utlb_map_pages,
}
use lxdream.Mmu.Walks.{if_true}
use lxdream.Mmu.Mapped.{done}

same_page_refl : (p : Page) → same_page p p ≡ true
same_page_refl p = ==_refl (page_code p)

abbrev good : (ℕ → Page) → Bool × (ℕ → Page)
good sub = (true, sub)

abbrev pair : ℕ → Mmu → Option (ℕ × Mmu)
pair n m = some (n, m)

-- The state with a new group for page `a`, and with the pages of a group.
abbrev pub with_group : ℕ → Mmu → Mmu
with_group a m =
    let n = m.free_list m.free_index in
    record m {
      subpages = set_group m.subpages n (λ j. m.address_space a);
      user_subpages = set_group m.user_subpages n (λ j. m.user_space a);
      address_space = set_page m.address_space a (one_k n);
      user_space = set_page m.user_space a (user_one_k n);
      free_index = m.free_index + 1;
    }

abbrev pub with_subpages : ℕ → (ℕ → Page) → (ℕ → Page) → Mmu → Mmu
with_subpages n sub user_sub m = record m {
  subpages = set_group m.subpages n sub;
  user_subpages = set_group m.user_subpages n user_sub;
}

alloc-some :
    (m : Mmu)
    → ltb m.free_index 64 ≡ true
    → mmu_utlb_1k_alloc m
      ≡ pair (m.free_list m.free_index) (record m { free_index = m.free_index + 1 })
unfolding mmu_utlb_1k_alloc
alloc-some m h = rw h refl

group_at-new :
    (a : ℕ) (m : Mmu)
    → one_k_entry (m.address_space a) ≡ none
    → ltb m.free_index 64 ≡ true
    → group_at a m ≡ pair (m.free_list m.free_index) (with_group a m)
unfolding group_at new_group
group_at-new a m h f = rw (h, group_at) (ap (new_group a) (alloc-some m f))

map_subpage-free :
    (b : Bool) (p : Page) (d idx : ℕ) (sub : ℕ → Page)
    → same_page (sub idx) (tlb_miss d) ≡ true
    → map_subpage (if b then some p else none) d idx sub
      ≡ good (if b then set_page sub idx p else sub)
unfolding map_subpage
map_subpage-free false p d idx sub h = refl
map_subpage-free true p d idx sub h = rw h refl

map_small-good :
    (priv user : Option Page) (r : RegionsAt) (start n : ℕ) (sub user_sub : ℕ → Page) (m : Mmu)
    → map_subpage priv r.privdefs (bit_and (start / 2 ^ 10) 0x03) (m.subpages n) ≡ good sub
    → map_subpage user r.userdefs (bit_and (start / 2 ^ 10) 0x03) (m.user_subpages n)
      ≡ good user_sub
    → map_small priv user r start (pair n m) ≡ done true (with_subpages n sub user_sub m)
unfolding map_small
map_small-good priv user r start n sub user_sub m e f = rw (e, f, map_small) refl

pub set_group_same :
    (groups : ℕ → ℕ → Page) (n : ℕ) (sub : ℕ → Page) → set_group groups n sub n ≡ sub
set_group_same groups n sub = if_true (n == n) sub (groups n) (==_refl n)

map_pages-small :
    (p u : Page) (start : ℕ) (r : RegionsAt) (m : Mmu)
    → regions_at start m ≡ some r
    → mmu_utlb_map_pages (some p) (some u) start 0 m
      ≡ map_small
          (some p)
          (if r.has_user then some u else none)
          r
          start
          (group_at (start / 2 ^ 12) m)
unfolding mmu_utlb_map_pages
map_pages-small p u start r m e = rw (e, mmu_utlb_map_pages) refl

-- The fields of a new group where a page was mapped, and of one where it was taken out again.
abbrev pub one_in : Bool → Page → ℕ → Page → ℕ → Page
one_in b p idx old = if b then set_page (λ j. old) idx p else (λ j. old)

abbrev pub one_out : Bool → ℕ → ℕ → (ℕ → Page) → ℕ → Page
one_out b d idx sub = if b then set_page sub idx (tlb_miss d) else sub

pub one_out-in :
    (b : Bool) (p : Page) (d idx j : ℕ) (old : Page)
    → old ≡ tlb_miss d
    → one_out b d idx (one_in b p idx old) j ≡ old
one_out-in false p d idx j old h = refl
one_out-in true p d idx j old h = elim (Bool-cases (j == idx)) [
  | inl y ↦ rw y (sym h)
  | inr o ↦ rw o refl
]

pub map_pages-group :
    (p u : Page) (start : ℕ) (r : RegionsAt) (m : Mmu)
    → regions_at start m ≡ some r
    → m.address_space (start / 2 ^ 12) ≡ tlb_miss r.privdefs
    → m.user_space (start / 2 ^ 12) ≡ tlb_miss r.userdefs
    → ltb m.free_index 64 ≡ true
    → let a = start / 2 ^ 12 in
      let idx = bit_and (start / 2 ^ 10) 0x03 in
      mmu_utlb_map_pages (some p) (some u) start 0 m
      ≡ done true (
          with_subpages
            (m.free_list m.free_index)
            (one_in true p idx (m.address_space a))
            (one_in r.has_user u idx (m.user_space a))
            (with_group a m))
map_pages-group p u start r m e h k f =
    let a = start / 2 ^ 12 in
    let idx = bit_and (start / 2 ^ 10) 0x03 in
    let n = m.free_list m.free_index in
    let user : Option Page = if r.has_user then some u else none in
    let none_there : one_k_entry (m.address_space a) ≡ none = ap one_k_entry h in
    map_pages-small p u start r m e
    ∙ ap (map_small (some p) user r start) (group_at-new a m none_there f)
    ∙ map_small-good (some p) user r start n (one_in true p idx (m.address_space a))
        (one_in r.has_user u idx (m.user_space a)) (with_group a m)
        (ap (map_subpage (some p) r.privdefs idx)
            (set_group_same m.subpages n (λ j. m.address_space a))
          ∙ map_subpage-free true p r.privdefs idx (λ j. m.address_space a)
              (rw h (same_page_refl (tlb_miss r.privdefs))))
        (ap (map_subpage user r.userdefs idx)
            (set_group_same m.user_subpages n (λ j. m.user_space a))
          ∙ map_subpage-free r.has_user u r.userdefs idx (λ j. m.user_space a)
              (rw k (same_page_refl (tlb_miss r.userdefs))))

both_same : (x y z : Page) → x ≡ z → y ≡ z → same_page x y ≡ true
both_same x y z e f = rw (e, f) (same_page_refl z)

pub mergeable-flat :
    (sub user_sub : ℕ → Page) (old user_old : Page)
    → ((j : ℕ) → sub j ≡ old)
    → ((j : ℕ) → user_sub j ≡ user_old)
    → mergeable sub user_sub ≡ true
unfolding mergeable
mergeable-flat sub user_sub old user_old h k =
    rw
      (
        both_same (sub 0) (sub 1) old (h 0) (h 1),
        both_same (sub 0) (sub 2) old (h 0) (h 2),
        both_same (sub 0) (sub 3) old (h 0) (h 3),
        both_same (user_sub 0) (user_sub 1) user_old (k 0) (k 1),
        both_same (user_sub 0) (user_sub 2) user_old (k 0) (k 2),
        both_same (user_sub 0) (user_sub 3) user_old (k 0) (k 3),
      )
      refl

-- The state when a group is released.
abbrev pub released : ℕ → ℕ → Page → Page → Mmu → Mmu
released a n page user_page m = record m {
  free_index = m.free_index - 1;
  free_list = λ k. if k == m.free_index - 1 then n else m.free_list k;
  address_space = set_page m.address_space a page;
  user_space = set_page m.user_space a user_page;
}

pub unmap_small-merged :
    (b : Bool) (r : RegionsAt) (start n : ℕ) (m : Mmu)
    → let idx = bit_and (start / 2 ^ 10) 0x03 in
      let sub = one_out true r.privdefs idx (m.subpages n) in
      let user_sub = one_out b r.userdefs idx (m.user_subpages n) in
      mergeable sub user_sub ≡ true
      → same_page (m.subpages n idx) (tlb_multihit r.privdefs) ≡ false
      → ltb n 64 ≡ true
      → ltb 0 m.free_index ≡ true
      → unmap_small true b r start (some n) m
        ≡ done true
            (released (start / 2 ^ 12) n (sub 0) (user_sub 0) (with_subpages n sub user_sub m))
unfolding unmap_small merge mmu_utlb_1k_free
unmap_small-merged b r start n m h c l f = rw (h, c, l, f, unmap_small) refl
