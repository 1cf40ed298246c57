-- ===== src/Mmu/Pages.antt =====
-- sh4/mmu.c: the tables of pages, `sh4_address_space` and `sh4_user_address_space`, and the pool of
-- groups of four pages of 1K. `none` stands for an assertion that fails.
use lxdream.Base.{
  ℕ, zero, suc, ◌+◌, ◌-◌, ◌*◌, ◌/◌, ◌^◌, Bool, true, false, not, ◌&&◌, ◌||◌, Option, none, some,
  bit_and, ltb, leb, ◌==◌, if◌then◌else◌,
}
use lxdream.Mmu.{
  Page, utlb_page, one_k, user_one_k, tlb_miss, tlb_prot, tlb_multihit, other_region, Mmu,
  utlb_entry_count,
}

-- The comparison of two pointers.
abbrev pub page_code : Page → ℕ
page_code (utlb_page n) = n * 7
page_code (one_k n) = n * 7 + 1
page_code (user_one_k n) = n * 7 + 2
page_code (tlb_miss d) = d * 7 + 3
page_code (tlb_prot d) = d * 7 + 4
page_code (tlb_multihit d) = d * 7 + 5
page_code (other_region r) = r * 7 + 6

abbrev pub same_page : Page → Page → Bool
same_page p q = page_code p == page_code q

unfoldable pub get_tlb_size_pages : ℕ → ℕ
get_tlb_size_pages flags =
    let size = bit_and flags 0x90 in
    if size == 0x00
    then 0
    else if size == 0x10
    then 1
    else if size == 0x80
    then 16
    else if size == 0x90
    then 256
    else 0

abbrev pub set_page : (ℕ → Page) → ℕ → Page → ℕ → Page
set_page space a p = λ k. if k == a then p else space k

-- IS_1K_PAGE_ENTRY, with the entry.
abbrev pub one_k_entry : Page → Option ℕ
one_k_entry (utlb_page n) = none
one_k_entry (one_k n) = some n
one_k_entry (user_one_k n) = none
one_k_entry (tlb_miss d) = none
one_k_entry (tlb_prot d) = none
one_k_entry (tlb_multihit d) = none
one_k_entry (other_region r) = none

unfoldable pub mmu_utlb_1k_alloc : Mmu → Option (ℕ × Mmu)
mmu_utlb_1k_alloc m =
    if ltb m.free_index utlb_entry_count
    then some (m.free_list m.free_index, record m { free_index = m.free_index + 1 })
    else none

unfoldable pub mmu_utlb_1k_free : ℕ → Mmu → Option Mmu
mmu_utlb_1k_free entry m =
    let top = m.free_index - 1 in
    if ltb entry utlb_entry_count && ltb 0 m.free_index
    then some
        (record m { free_index = top; free_list = λ k. if k == top then entry else m.free_list k })
    else none

-- The loops of mmu_utlb_map_pages and mmu_utlb_unmap_pages along a table, `n` pages from `a` on.
unfoldable pub map_walk : Page → ℕ → ℕ → ℕ → (ℕ → Page) → Bool × (ℕ → Page)
map_walk page d a zero space = (true, space)
map_walk page d a (suc n) space =
    let free = same_page (space a) (tlb_miss d) in
    let (ok, space') =
      map_walk page d (suc a) n (set_page space a (if free then page else tlb_multihit d)) in
    (free && ok, space')

unfoldable pub unmap_walk : ℕ → ℕ → ℕ → (ℕ → Page) → Bool × (ℕ → Page)
unmap_walk d a zero space = (true, space)
unmap_walk d a (suc n) space =
    let clean = not (same_page (space a) (tlb_multihit d)) in
    let (ok, space') = unmap_walk d (suc a) n (set_page space a (tlb_miss d)) in
    (clean && ok, space')

-- `privdefs` and `userdefs`, and whether user mode has access.
pub record RegionsAt : Type 0 where
  pub privdefs : ℕ
  pub userdefs : ℕ
  pub has_user : Bool

-- `none` where nothing is mapped.
unfoldable pub regions_at : ℕ → Mmu → Option RegionsAt
regions_at start m =
    if bit_and start 0xfc00_0000 == 0xe000_0000
    then some (record { privdefs = 1; userdefs = m.storequeue_regions; has_user = true })
    else if bit_and start 0xe000_0000 == 0xc000_0000
    then some (record { privdefs = 0; userdefs = 0; has_user = false })
    else if leb 0x8000_0000 start
    then none
    else some (record { privdefs = 0; userdefs = 0; has_user = true })

abbrev pub set_group : (ℕ → ℕ → Page) → ℕ → (ℕ → Page) → ℕ → ℕ → Page
set_group groups n sub = λ i. if i == n then sub else groups i

-- A new group holds what the page was.
unfoldable pub new_group : ℕ → Option (ℕ × Mmu) → Option (ℕ × Mmu)
new_group a none = none
new_group a (some (n, m)) = some (
  n,
  record m {
    subpages = set_group m.subpages n (λ j. m.address_space a);
    user_subpages = set_group m.user_subpages n (λ j. m.user_space a);
    address_space = set_page m.address_space a (one_k n);
    user_space = set_page m.user_space a (user_one_k n);
  },
)

unfoldable pub group_at : ℕ → Mmu → Option (ℕ × Mmu)
group_at a m = elim (one_k_entry (m.address_space a)) [
  | some n ↦ some (n, m)
  | none ↦ new_group a (mmu_utlb_1k_alloc m)
]

unfoldable pub map_subpage : Option Page → ℕ → ℕ → (ℕ → Page) → Bool × (ℕ → Page)
map_subpage none d idx sub = (true, sub)
map_subpage (some p) d idx sub =
    let free = same_page (sub idx) (tlb_miss d) in
    (free, set_page sub idx (if free then p else tlb_multihit d))

unfoldable pub map_small :
    Option Page → Option Page → RegionsAt → ℕ → Option (ℕ × Mmu) → Option (Bool × Mmu)
map_small priv user r start none = none
map_small priv user r start (some (n, m)) =
    let idx = bit_and (start / 2 ^ 10) 0x03 in
    let (ok, sub) = map_subpage priv r.privdefs idx (m.subpages n) in
    let (user_ok, user_sub) = map_subpage user r.userdefs idx (m.user_subpages n) in
    some (
      ok && user_ok,
      record m {
        subpages = set_group m.subpages n sub;
        user_subpages = set_group m.user_subpages n user_sub;
      },
    )

unfoldable pub map_table : Option Page → ℕ → ℕ → ℕ → (ℕ → Page) → Bool × (ℕ → Page)
map_table none d a n space = (true, space)
map_table (some p) d a n space = map_walk p d a n space

-- A NULL is `none`.
unfoldable pub mmu_utlb_map_pages : Option Page → Option Page → ℕ → ℕ → Mmu → Option (Bool × Mmu)
mmu_utlb_map_pages priv_page user_page start npages m = elim (regions_at start m) [
  | none ↦ some (true, m)
  | some r ↦
      let a = start / 2 ^ 12 in
      let user = if r.has_user then user_page else none in
      let (ok, space) = map_table priv_page r.privdefs a npages m.address_space in
      let (user_ok, user_space) = map_table user r.userdefs a npages m.user_space in
      if npages == 0
      then map_small priv_page user r start (group_at a m)
      else some (ok && user_ok, record m { address_space = space; user_space = user_space })
]

unfoldable pub mergeable : (ℕ → Page) → (ℕ → Page) → Bool
mergeable sub user_sub =
    same_page (sub 0) (sub 1)
    && same_page (user_sub 0) (user_sub 1)
    && (same_page (sub 0) (sub 2) && same_page (user_sub 0) (user_sub 2))
    && (same_page (sub 0) (sub 3) && same_page (user_sub 0) (user_sub 3))

-- The release of a group whose pages are the same.
unfoldable pub merge : Bool → ℕ → (ℕ → Page) → (ℕ → Page) → Option Mmu → Option (Bool × Mmu)
merge clean a sub user_sub none = none
merge clean a sub user_sub (some m) = some (
  clean,
  record m {
    address_space = set_page m.address_space a (sub 0);
    user_space = set_page m.user_space a (user_sub 0);
  },
)

unfoldable pub unmap_small : Bool → Bool → RegionsAt → ℕ → Option ℕ → Mmu → Option (Bool × Mmu)
unmap_small priv user r start none m = none
unmap_small priv user r start (some n) m =
    let idx = bit_and (start / 2 ^ 10) 0x03 in
    let clean = not (same_page (m.subpages n idx) (tlb_multihit r.privdefs)) in
    let sub = if priv then set_page (m.subpages n) idx (tlb_miss r.privdefs) else m.subpages n in
    let user_sub =
      if user then set_page (m.user_subpages n) idx (tlb_miss r.userdefs) else m.user_subpages n in
    let m' = record m {
      subpages = set_group m.subpages n sub;
      user_subpages = set_group m.user_subpages n user_sub;
    } in
    if mergeable sub user_sub
    then merge clean (start / 2 ^ 12) sub user_sub (mmu_utlb_1k_free n m')
    else some (clean, m')

unfoldable pub mmu_utlb_unmap_pages : Bool → Bool → ℕ → ℕ → Mmu → Option (Bool × Mmu)
mmu_utlb_unmap_pages unmap_priv unmap_user start npages m = elim (regions_at start m) [
  | none ↦ some (true, m)
  | some r ↦
      let a = start / 2 ^ 12 in
      let user = unmap_user && r.has_user in
      let (ok, space) = unmap_walk r.privdefs a npages m.address_space in
      let (user_ok, user_space) = unmap_walk r.userdefs a npages m.user_space in
      if npages == 0
      then unmap_small unmap_priv user r start (one_k_entry (m.address_space a)) m
      else some (
        (not unmap_priv || ok) && (not user || user_ok),
        record m {
          address_space = if unmap_priv then space else m.address_space;
          user_space = if user then user_space else m.user_space;
        },
      )
]
