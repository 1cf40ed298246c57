-- ===== src/Mmu/Matches.antt =====
-- What a lookup of sh4/mmu.c finds.
use lxdream.Base.{
  ℕ, zero, suc, ◌<◌, ◌≡◌, refl, Bool, arith, if◌then◌else◌, List, [], ◌∷◌, Bool-cases, inl, inr,
}
use lxdream.Mmu.{
  Mmu, Lookup, miss, multihit, hit, lookup_loop, covers, covers_asid, mmu_utlb_lookup_vpn_asid,
  mmu_utlb_lookup_vpn,
}

-- The entries that match, among the `n` from `i` on.
unfoldable pub matching : (ℕ → Bool) → ℕ → ℕ → List ℕ
matching p i zero = []
matching p i (suc n) = let rest = matching p (suc i) n in if p i then i ∷ rest else rest

-- None, one, or more than one entry.
abbrev pub verdict : List ℕ → Lookup
verdict [] = miss
verdict (x ∷ []) = hit x
verdict (x ∷ y ∷ ys) = multihit

loop-hit : (p : ℕ → Bool) (i n j : ℕ) → lookup_loop p i n (hit j) ≡ verdict (j ∷ matching p i n)
unfolding lookup_loop matching
loop-hit p i zero j = refl
loop-hit p i (suc n) j = elim (Bool-cases (p i)) [
  | inl y ↦ rw y refl
  | inr d ↦ rw d (loop-hit p (suc i) n j)
]

pub loop-miss : (p : ℕ → Bool) (i n : ℕ) → lookup_loop p i n miss ≡ verdict (matching p i n)
unfolding lookup_loop matching
loop-miss p i zero = refl
loop-miss p i (suc n) = elim (Bool-cases (p i)) [
  | inl y ↦ rw y (loop-hit p (suc i) n i)
  | inr d ↦ rw d (loop-miss p (suc i) n)
]

-- A lookup in the UTLB for an address space gives the one valid entry that covers the page and is
-- shared or of that space; -1 if there is none and -2 if there are several. A lookup without regard
-- to the space does the same with every valid entry that covers the page. Both count the access,
-- and the count stays below 64 if it was.
pub mmu_utlb_lookup-verdict :
    (vpn : ℕ) (m : Mmu)
    → m.urc < 64
    → let (one, m1) = mmu_utlb_lookup_vpn_asid vpn m in
      let (all, m2) = mmu_utlb_lookup_vpn vpn m in
      (one ≡ verdict (matching (λ i. covers_asid m.asid vpn (m.utlb i)) 0 64))
      × (all ≡ verdict (matching (λ i. covers vpn (m.utlb i)) 0 64))
      × (m1.urc < 64)
      × (m2.urc < 64)
unfolding mmu_utlb_lookup_vpn_asid mmu_utlb_lookup_vpn
mmu_utlb_lookup-verdict vpn m h = (
  loop-miss (λ i. covers_asid m.asid vpn (m.utlb i)) 0 64,
  loop-miss (λ i. covers vpn (m.utlb i)) 0 64,
  ground arith,
  ground arith,
)
