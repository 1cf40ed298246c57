-- ===== src/Mmu/Walks.antt =====
-- The loops of sh4/mmu.c along the tables of pages.
use lxdream.Base.{
  ℕ, zero, suc, ◌+◌, ◌*◌, ◌≡◌, refl, sym, ◌∙◌, ap, Bool, true, false, not, ◌&&◌, ltb, leb, ◌==◌,
  ==_refl, if◌then◌else◌, arith, Bool-cases, inl, inr,
}
use lxdream.Mmu.{Page, tlb_miss, tlb_multihit}
use lxdream.Mmu.Pages.{same_page, set_page, map_walk, unmap_walk}

abbrev pub inside : ℕ → ℕ → ℕ → Bool
inside a n k = leb a k && ltb k (a + n)

-- What a page holds after another is mapped there.
abbrev pub mapped : Page → ℕ → Page → Page
mapped p d old = if same_page old (tlb_miss d) then p else tlb_multihit d

pub if_false {ℓ} : {A : Type ℓ} → (b : Bool) (x y : A) → b ≡ false → (if b then x else y) ≡ y
if_false b x y e = rw e refl

pub if_true {ℓ} : {A : Type ℓ} → (b : Bool) (x y : A) → b ≡ true → (if b then x else y) ≡ x
if_true b x y e = rw e refl

pub map_walk-at :
    (p : Page) (d a n k : ℕ) (space : ℕ → Page)
    → (map_walk p d a n space).1 k ≡ (if inside a n k then mapped p d (space k) else space k)
unfolding map_walk
map_walk-at p d a zero k space =
    sym (if_false (inside a 0 k) (mapped p d (space k)) (space k) (ground arith))
map_walk-at p d a (suc n) k space = elim (Bool-cases (k == a)) [
  | inl y ↦
      let rest = map_walk-at p d (suc a) n k (set_page space a (mapped p d (space a))) in
      let out : inside (suc a) n k ≡ false = ground (arith, y) in
      let here : inside a (suc n) k ≡ true = ground (arith, y) in
      let e : k ≡ a = ground (arith, y) in rest ∙ rw (out, here, y, e) refl
  | inr o ↦
      let rest = map_walk-at p d (suc a) n k (set_page space a (mapped p d (space a))) in
      let same : inside (suc a) n k ≡ inside a (suc n) k = ground (arith, o) in
      rest ∙ rw (same, o) refl
]

pub unmap_walk-at :
    (d a n k : ℕ) (space : ℕ → Page)
    → (unmap_walk d a n space).1 k ≡ (if inside a n k then tlb_miss d else space k)
unfolding unmap_walk
unmap_walk-at d a zero k space = sym (if_false (inside a 0 k) (tlb_miss d) (space k) (ground arith))
unmap_walk-at d a (suc n) k space = elim (Bool-cases (k == a)) [
  | inl y ↦
      let rest = unmap_walk-at d (suc a) n k (set_page space a (tlb_miss d)) in
      let out : inside (suc a) n k ≡ false = ground (arith, y) in
      let here : inside a (suc n) k ≡ true = ground (arith, y) in rest ∙ rw (out, here, y) refl
  | inr o ↦
      let rest = unmap_walk-at d (suc a) n k (set_page space a (tlb_miss d)) in
      let same : inside (suc a) n k ≡ inside a (suc n) k = ground (arith, o) in
      rest ∙ rw (same, o) refl
]

pub both_true : (x y : Bool) → x ≡ true → y ≡ true → (x && y) ≡ true
both_true x y e f = rw (e, f) refl

set_page_other :
    (space : ℕ → Page) (a k : ℕ) (p : Page) → (k == a) ≡ false → set_page space a p k ≡ space k
set_page_other space a k p e = if_false (k == a) p (space k) e

pub map_walk-free :
    (p : Page) (d a n : ℕ) (space : ℕ → Page)
    → ((k : ℕ) → inside a n k ≡ true → space k ≡ tlb_miss d)
    → (map_walk p d a n space).0 ≡ true
unfolding map_walk
map_walk-free p d a zero space h = refl
map_walk-free p d a (suc n) space h =
    let here : space a ≡ tlb_miss d = h a (ground arith) in
    let free : same_page (space a) (tlb_miss d) ≡ true =
      ap (λ x. same_page x (tlb_miss d)) here ∙ ==_refl (d * 7 + 3) in
    let x = mapped p d (space a) in
    both_true (same_page (space a) (tlb_miss d)) (map_walk p d (suc a) n (set_page space a x)).0
      free
      (map_walk-free p d (suc a) n (set_page space a x)
        (λ k i. set_page_other space a k x (ground (arith, i)) ∙ h k (ground (arith, i))))

pub unmap_walk-clean :
    (d a n : ℕ) (space : ℕ → Page)
    → ((k : ℕ) → inside a n k ≡ true → same_page (space k) (tlb_multihit d) ≡ false)
    → (unmap_walk d a n space).0 ≡ true
unfolding unmap_walk
unmap_walk-clean d a zero space h = refl
unmap_walk-clean d a (suc n) space h =
    both_true (not (same_page (space a) (tlb_multihit d)))
      (unmap_walk d (suc a) n (set_page space a (tlb_miss d))).0 (ap not (h a (ground arith)))
      (unmap_walk-clean d (suc a) n (set_page space a (tlb_miss d)) (λ k i.
        ap (λ x. same_page x (tlb_multihit d))
          (set_page_other space a k (tlb_miss d) (ground (arith, i)))
        ∙ h k (ground (arith, i))))
