-- ===== src/Mmu/Protect.antt =====
-- The protection of pages by the translation of sh4/mmu.c.
use lxdream.Base.{
  not, some, bit_or, leb, ◌-◌, ℕ, ◌≡◌, refl, sym, ◌∙◌, ap, subst, Bool, true, false, ◌&&◌, ◌||◌,
  none, bit_and, ◌==◌, ==_iff, if◌then◌else◌, any_set, arith, Bool-cases, inl, inr,
}
use lxdream.Base.Bits.{bit, bit-bit_and, bit-lt-two}
use lxdream.Base.Masks.{any_set-pow}
use lxdream.Mmu.{
  TlbEntry, Mmu, mmucr_at, mmucr_sv, tlb_usermode, tlb_writable, tlb_dirty, Lookup, miss, multihit,
  hit, covers, covers_asid, mmu_utlb_lookup_vpn_asid, mmu_utlb_lookup_vpn,
}
use lxdream.Mmu.Matches.{matching, verdict, loop-miss}
use lxdream.Mmu.Translate.{
  physical, may_write, Access, internal, external, storequeue, unmapped, raised, untranslated,
  utlb_lookup, target, read_result, exc_tlb_prot_read, exc_tlb_prot_write, exc_init_page_write,
  prefetch_result, write_result, mmu_get_region_for_vma_read, mmu_get_region_for_vma_prefetch,
  mmu_get_region_for_vma_write,
}

pub data AccessKind : Type 0 where
  reading prefetching writing : AccessKind

-- The function for an access.
abbrev pub region_for : AccessKind → Bool → ℕ → Mmu → Access × Mmu
region_for reading privileged addr m = mmu_get_region_for_vma_read privileged addr m
region_for prefetching privileged addr m = mmu_get_region_for_vma_prefetch privileged addr m
region_for writing privileged addr m = mmu_get_region_for_vma_write privileged addr m

-- What the flags of a page must have for an access.
abbrev pub permits : AccessKind → Bool → ℕ → Bool
permits reading privileged flags = privileged || any_set flags tlb_usermode
permits prefetching privileged flags = privileged || any_set flags tlb_usermode
permits writing privileged flags =
    (privileged || any_set flags tlb_usermode)
    && (any_set flags tlb_writable && any_set flags tlb_dirty)

-- An access to memory.
abbrev pub reaches : Access → Bool
reaches (internal a) = true
reaches (external a) = true
reaches storequeue = false
reaches unmapped = false
reaches (raised e a) = false

-- The entries of the UTLB that a translation looks for.
abbrev pub looks_for : Bool → ℕ → Mmu → ℕ → Bool
looks_for privileged addr m =
    if privileged && any_set m.mmucr mmucr_sv then (λ i. covers addr (m.utlb i)) else λ i.
    covers_asid m.asid addr (m.utlb i)

high_bit : bit 6 0x60 ≡ 1
unfolding bit
high_bit = refl

low_bit : bit 5 0x60 ≡ 1
unfolding bit
low_bit = refl

both_set :
    (flags : ℕ)
    → (bit_and flags 0x60 == 0x60) ≡ true
    → (any_set flags 0x40 ≡ true) × (any_set flags 0x20 ≡ true)
both_set flags h =
    let e = (==_iff (bit_and flags 0x60) 0x60).0 h in
    let top : bit 6 flags ≡ 1 =
      ground (arith, sym (bit-bit_and 6 flags 0x60) ∙ ap (bit 6) e, high_bit, bit-lt-two 6 flags) in
    let low : bit 5 flags ≡ 1 =
      ground (arith, sym (bit-bit_and 5 flags 0x60) ∙ ap (bit 5) e, low_bit, bit-lt-two 5 flags) in
    (any_set-pow 6 flags ∙ rw top refl, any_set-pow 5 flags ∙ rw low refl)

untranslated-none :
    (exc addr : ℕ) (privileged : Bool) (m : Mmu)
    → any_set m.mmucr mmucr_at ≡ true
    → any_set addr 0x8000_0000 ≡ false
    → untranslated exc privileged addr m ≡ none
unfolding untranslated
untranslated-none exc addr privileged m on low = rw (low, on) refl

-- The end of the three functions, after the lookup.
abbrev result : AccessKind → Bool → ℕ → Lookup → Mmu → Access
result reading privileged addr r m = read_result privileged addr r m
result prefetching privileged addr r m = prefetch_result privileged addr r m
result writing privileged addr r m = write_result privileged addr r m

region_for-translated :
    (kind : AccessKind) (privileged : Bool) (addr : ℕ) (m : Mmu)
    → any_set m.mmucr mmucr_at ≡ true
    → any_set addr 0x8000_0000 ≡ false
    → let (r, m') = utlb_lookup privileged addr m in
      (region_for kind privileged addr m).0 ≡ result kind privileged addr r m'
unfolding mmu_get_region_for_vma_read mmu_get_region_for_vma_prefetch mmu_get_region_for_vma_write
region_for-translated reading privileged addr m on low =
    rw (untranslated-none 0x0e0 addr privileged m on low, mmu_get_region_for_vma_read) refl
region_for-translated prefetching privileged addr m on low =
    rw (untranslated-none 0x0e0 addr privileged m on low, mmu_get_region_for_vma_prefetch) refl
region_for-translated writing privileged addr m on low =
    rw (untranslated-none 0x100 addr privileged m on low, mmu_get_region_for_vma_write) refl

utlb_lookup-verdict :
    (privileged : Bool) (addr : ℕ) (m : Mmu)
    → let (r, m') = utlb_lookup privileged addr m in
      (r ≡ verdict (matching (looks_for privileged addr m) 0 64)) × (m'.utlb ≡ m.utlb)
unfolding mmu_utlb_lookup_vpn_asid mmu_utlb_lookup_vpn
utlb_lookup-verdict false addr m = elim (Bool-cases (any_set m.mmucr mmucr_sv)) [
  | inl y ↦ rw y (loop-miss (λ i. covers_asid m.asid addr (m.utlb i)) 0 64, refl)
  | inr d ↦ rw d (loop-miss (λ i. covers_asid m.asid addr (m.utlb i)) 0 64, refl)
]
utlb_lookup-verdict true addr m = elim (Bool-cases (any_set m.mmucr mmucr_sv)) [
  | inl y ↦ rw y (loop-miss (λ i. covers addr (m.utlb i)) 0 64, refl)
  | inr d ↦ rw d (loop-miss (λ i. covers_asid m.asid addr (m.utlb i)) 0 64, refl)
]

hit_permitted :
    (kind : AccessKind) (privileged : Bool) (addr i : ℕ) (m : Mmu)
    → reaches (result kind privileged addr (hit i) m) ≡ true
    → permits kind privileged (m.utlb i).flags ≡ true
unfolding read_result prefetch_result write_result target
hit_permitted reading privileged addr i m h = ground (arith, h)
hit_permitted prefetching privileged addr i m h = ground (arith, h)
hit_permitted writing privileged addr i m h = ground (arith, h, both_set (m.utlb i).flags)

-- The access to the frame of an entry, at the offset of the address in the page. What lies beyond
-- 0x1c000000 is read in the area of the processor's own devices.
abbrev pub through : TlbEntry → ℕ → Access
through e addr =
    let pma = bit_or (bit_and e.ppn e.mask) (bit_and addr (0xffff_ffff - e.mask)) in
    if leb pma 0x1c00_0000 then external pma else internal (bit_or pma 0xe000_0000)

target-through : (e : TlbEntry) (addr : ℕ) → target (physical e addr) ≡ through e addr
unfolding target
target-through e addr = ground arith

if_reaches :
    (b : Bool) (x y : Access)
    → reaches x ≡ false
    → reaches (if b then x else y) ≡ true
    → (if b then x else y) ≡ y
if_reaches true x y e h = ground (arith, e, h)
if_reaches false x y e h = refl

hit_through :
    (kind : AccessKind) (privileged : Bool) (addr i : ℕ) (m : Mmu)
    → reaches (result kind privileged addr (hit i) m) ≡ true
    → result kind privileged addr (hit i) m ≡ through (m.utlb i) addr
unfolding read_result prefetch_result write_result
hit_through reading privileged addr i m h =
    let e = m.utlb i in
    if_reaches (not (any_set e.flags tlb_usermode) && not privileged)
      (raised exc_tlb_prot_read (some addr)) (target (physical e addr)) refl h
    ∙ target-through e addr
hit_through prefetching privileged addr i m h =
    let e = m.utlb i in
    if_reaches (not (any_set e.flags tlb_usermode) && not privileged) unmapped
      (target (physical e addr)) refl h
    ∙ target-through e addr
hit_through writing privileged addr i m h =
    let e = m.utlb i in
    let clean =
      if not (any_set e.flags tlb_dirty)
      then raised exc_init_page_write (some addr)
      else target (physical e addr) in
    let allowed =
      if_reaches (not (may_write privileged e.flags)) (raised exc_tlb_prot_write (some addr)) clean
        refl h in
    allowed
    ∙ if_reaches (not (any_set e.flags tlb_dirty)) (raised exc_init_page_write (some addr))
        (target (physical e addr)) refl (sym (ap reaches allowed) ∙ h)
    ∙ target-through e addr

result_permitted :
    (kind : AccessKind) (privileged : Bool) (addr : ℕ) (r : Lookup) (m : Mmu)
    → reaches (result kind privileged addr r m) ≡ true
    → (i : ℕ) × (r ≡ hit i)
      × (permits kind privileged (m.utlb i).flags ≡ true)
      × (result kind privileged addr r m ≡ through (m.utlb i) addr)
unfolding read_result prefetch_result write_result
result_permitted reading privileged addr miss m h = ground (arith, h)
result_permitted prefetching privileged addr miss m h = ground (arith, h)
result_permitted writing privileged addr miss m h = ground (arith, h)
result_permitted reading privileged addr multihit m h = ground (arith, h)
result_permitted prefetching privileged addr multihit m h = ground (arith, h)
result_permitted writing privileged addr multihit m h = ground (arith, h)
result_permitted kind privileged addr (hit i) m h =
    (i, refl, hit_permitted kind privileged addr i m h, hit_through kind privileged addr i m h)

-- With translation on, an access below 0x80000000 reaches memory only through the one entry of the
-- UTLB that is valid, covers the page and is shared or of the current address space (any space in
-- privileged mode with MMUCR.SV), and only if that entry's flags allow it: in user mode the page is
-- one for user mode, and a write finds it writable and dirty. The memory that it reaches is the
-- entry's frame, at the offset of the address in the page.
pub region_for-permitted :
    (kind : AccessKind) (privileged : Bool) (addr : ℕ) (m : Mmu)
    → any_set m.mmucr mmucr_at ≡ true
    → any_set addr 0x8000_0000 ≡ false
    → reaches (region_for kind privileged addr m).0 ≡ true
    → (i : ℕ) × (verdict (matching (looks_for privileged addr m) 0 64) ≡ hit i)
      × (permits kind privileged (m.utlb i).flags ≡ true)
      × ((region_for kind privileged addr m).0 ≡ through (m.utlb i) addr)
region_for-permitted kind privileged addr m on low h =
    let (r, m') = utlb_lookup privileged addr m in
    let (found, same) = utlb_lookup-verdict privileged addr m in
    let step = region_for-translated kind privileged addr m on low in
    let (i, e, p, t) = result_permitted kind privileged addr r m' (ap reaches (sym step) ∙ h) in
    (
      i,
      sym found ∙ e,
      subst (λ u. permits kind privileged (u i).flags ≡ true) same p,
      step ∙ t ∙ ap (λ u. through (u i) addr) same,
    )
