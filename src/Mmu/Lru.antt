-- ===== src/Mmu/Lru.antt =====
-- The bits LRUI of sh4/mmu.c as the order in which the entries of the ITLB were used.
use lxdream.Base.{
  ℕ, zero, suc, ◌+◌, ◌*◌, ◌≡◌, refl, Bool, true, ◌&&◌, ◌||◌, List, ◌∷◌, arith, ◌==◌, ==_iff,
  ==_refl, if◌then◌else◌, erase, ◌/◌, ◌%◌, ◌<◌, ◌∙◌, ap, any_set, bit_and,
}
use native.Mathlib.Decide.{ℕ_discrete}
use lxdream.Base.Bits.{bit, bit-bit_and, bit-lt-two}
use lxdream.Base.Masks.{any_set-pow}
use lxdream.Mmu.{Mmu, covers_asid, lrui_used, lrui_replace, mmu_itlb_update_from_utlb}
use lxdream.Mmu.Order.{
  older, lrui_of, older-le-one, older_front, older_chain, IsOrder, IsOrder-pairs,
}

all_below : (ℕ → Bool) → ℕ → Bool
all_below p zero = true
all_below p (suc n) = p n && all_below p n

of_all_below : (p : ℕ → Bool) (n k : ℕ) → all_below p n ≡ true → k < n → p k ≡ true
unfolding all_below
of_all_below p zero k a h = absurd (omega arith)
of_all_below p (suc n) k a h = elim (ℕ_discrete k n) [
  | yes e ↦ ap p e ∙ ground (arith, a)
  | no d ↦ of_all_below p n k (ground (arith, a)) (omega arith)
]

-- The four cases of `lrui_used`, digit by digit.
abbrev used_digits : ℕ → ℕ → ℕ
used_digits i n =
    if i == 0
    then n % 8
    else if i == 1
    then 32 + n / 16 % 2 * 16 + n / 8 % 2 * 8 + n % 2
    else if i == 2
    then n / 32 % 2 * 32 + 16 + n / 8 % 2 * 8 + 4 + n / 2 % 2 * 2
    else n / 32 % 2 * 32 + n / 16 % 2 * 16 + 8 + n / 4 % 2 * 4 + 3

used_checked : all_below (λ n. all_below (λ i. lrui_used i n == used_digits i n) 4) 64 ≡ true
unfolding all_below lrui_used
used_checked = refl

abbrev replaced_digits : ℕ → ℕ
replaced_digits n =
    if n / 8 == 7
    then 0
    else if n / 32 % 2 == 0 && n / 2 % 4 == 3
    then 1
    else if n / 16 % 2 == 0 && n / 4 % 2 == 0 && n % 2 == 1
    then 2
    else 3

replaced_checked : all_below (λ n. lrui_replace n == replaced_digits n) 64 ≡ true
unfolding all_below lrui_replace
replaced_checked = refl

lrui_of-lt : (xs : List ℕ) → lrui_of xs < 64
lrui_of-lt xs = omega (
  arith,
  older-le-one 0 1 xs,
  older-le-one 0 2 xs,
  older-le-one 0 3 xs,
  older-le-one 1 2 xs,
  older-le-one 1 3 xs,
  older-le-one 2 3 xs,
)

used_by_digits : (i n : ℕ) → i < 4 → n < 64 → lrui_used i n ≡ used_digits i n
used_by_digits i n h k =
    let row =
      of_all_below (λ x. all_below (λ y. lrui_used y x == used_digits y x) 4) 64 n used_checked k in
    let cell = of_all_below (λ y. lrui_used y n == used_digits y n) 4 i row h in
    (==_iff (lrui_used i n) (used_digits i n)).0 cell

replaced_by_digits : (n : ℕ) → n < 64 → lrui_replace n ≡ replaced_digits n
replaced_by_digits n k =
    (==_iff (lrui_replace n) (replaced_digits n)).0
      (of_all_below (λ x. lrui_replace x == replaced_digits x) 64 n replaced_checked k)

-- Each digit is the one of its pair.
digits_of :
    (xs : List ℕ)
    → let n = lrui_of xs in
      (n / 32 % 2 ≡ older 0 1 xs)
      × (n / 16 % 2 ≡ older 0 2 xs)
      × (n / 8 % 2 ≡ older 0 3 xs)
      × (n / 4 % 2 ≡ older 1 2 xs)
      × (n / 2 % 2 ≡ older 1 3 xs)
      × (n % 2 ≡ older 2 3 xs)
digits_of xs =
    let a = older-le-one 0 1 xs in
    let b = older-le-one 0 2 xs in
    let c = older-le-one 0 3 xs in
    let d = older-le-one 1 2 xs in
    let e = older-le-one 1 3 xs in
    let f = older-le-one 2 3 xs in
    (omega arith, omega arith, omega arith, omega arith, omega arith, omega arith)

digits_used : (i : ℕ) (xs : List ℕ) → i < 4 → used_digits i (lrui_of xs) ≡ lrui_of (i ∷ erase i xs)
digits_used zero xs h = omega (
  arith,
  older-le-one 1 2 xs,
  older-le-one 1 3 xs,
  older-le-one 2 3 xs,
  older_front 0 1 2 xs refl refl,
  older_front 0 1 3 xs refl refl,
  older_front 0 2 3 xs refl refl,
)
digits_used (suc zero) xs h =
    let (a, b, c, d, e, f) = digits_of xs in
    omega (
      arith,
      b,
      c,
      f,
      older_front 1 0 2 xs refl refl,
      older_front 1 0 3 xs refl refl,
      older_front 1 2 3 xs refl refl,
    )
digits_used (suc (suc zero)) xs h =
    let (a, b, c, d, e, f) = digits_of xs in
    omega (
      arith,
      a,
      c,
      e,
      older_front 2 0 1 xs refl refl,
      older_front 2 0 3 xs refl refl,
      older_front 2 1 3 xs refl refl,
    )
digits_used (suc (suc (suc zero))) xs h =
    let (a, b, c, d, e, f) = digits_of xs in
    omega (
      arith,
      a,
      b,
      d,
      older_front 3 0 1 xs refl refl,
      older_front 3 0 2 xs refl refl,
      older_front 3 1 2 xs refl refl,
    )
digits_used (suc (suc (suc (suc i)))) xs h = absurd (omega arith)

-- Using an entry of the ITLB puts it at the front of the order that LRUI stands for.
pub lrui_used-order :
    (i : ℕ) (xs : List ℕ) → i < 4 → lrui_used i (lrui_of xs) ≡ lrui_of (i ∷ erase i xs)
lrui_used-order i xs h = used_by_digits i (lrui_of xs) h (lrui_of-lt xs) ∙ digits_used i xs h

abbrev replaced_by_order : List ℕ → ℕ
replaced_by_order xs =
    if older 0 1 xs == 1 && older 0 2 xs == 1 && older 0 3 xs == 1
    then 0
    else if older 0 1 xs == 0 && (older 1 2 xs == 1 && older 1 3 xs == 1)
    then 1
    else if older 0 2 xs == 0 && older 1 2 xs == 0 && older 2 3 xs == 1
    then 2
    else 3

replaced_lem : (xs : List ℕ) → replaced_digits (lrui_of xs) ≡ replaced_by_order xs
replaced_lem xs =
    let (a, b, c, d, e, f) = digits_of xs in
    let top : (lrui_of xs / 8 == 7)
        ≡ (older 0 1 xs == 1 && older 0 2 xs == 1 && older 0 3 xs == 1) =
      ground (
        arith,
        older-le-one 0 1 xs,
        older-le-one 0 2 xs,
        older-le-one 0 3 xs,
        older-le-one 1 2 xs,
        older-le-one 1 3 xs,
        older-le-one 2 3 xs,
      ) in
    let middle : (lrui_of xs / 2 % 4 == 3) ≡ (older 1 2 xs == 1 && older 1 3 xs == 1) = ground (
      arith,
      older-le-one 0 1 xs,
      older-le-one 0 2 xs,
      older-le-one 0 3 xs,
      older-le-one 1 2 xs,
      older-le-one 1 3 xs,
      older-le-one 2 3 xs,
    ) in
    rw (top, middle, a, b, d, f) refl

-- The tests leave entry 3 only when every other was used after it.
last_oldest :
    (xs : List ℕ)
    → IsOrder xs
    → replaced_by_order xs ≡ 3
    → (older 0 3 xs ≡ 0) × (older 1 3 xs ≡ 0) × (older 2 3 xs ≡ 0)
last_oldest xs w h =
    let a = older-le-one 0 1 xs in
    let b = older-le-one 0 2 xs in
    let c = older-le-one 0 3 xs in
    let d = older-le-one 1 2 xs in
    let e = older-le-one 1 3 xs in
    let f = older-le-one 2 3 xs in
    let t = older_chain 0 1 2 xs refl refl refl in
    let u = older_chain 0 1 3 xs refl refl refl in
    let v = older_chain 0 2 3 xs refl refl refl in
    let z = older_chain 1 2 3 xs refl refl refl in (ground arith, ground arith, ground arith)

-- The entry that the tests leave was used before each other one.
replaced_oldest :
    (j : ℕ) (xs : List ℕ)
    → IsOrder xs
    → j < 4
    → (j == replaced_by_order xs || older (replaced_by_order xs) j xs == 1) ≡ true
replaced_oldest zero xs w h =
    let (a, b, c, d, e, f) = IsOrder-pairs xs w in ground (arith, a, b, c, last_oldest xs w)
replaced_oldest (suc zero) xs w h =
    let (a, b, c, d, e, f) = IsOrder-pairs xs w in ground (arith, d, e, last_oldest xs w)
replaced_oldest (suc (suc zero)) xs w h =
    let (a, b, c, d, e, f) = IsOrder-pairs xs w in ground (arith, f, last_oldest xs w)
replaced_oldest (suc (suc (suc zero))) xs w h = ground arith
replaced_oldest (suc (suc (suc (suc j)))) xs w h = absurd (omega arith)

lrui_replace-order : (xs : List ℕ) → lrui_replace (lrui_of xs) ≡ replaced_by_order xs
lrui_replace-order xs = replaced_by_digits (lrui_of xs) (lrui_of-lt xs) ∙ replaced_lem xs

replaced-lt : (xs : List ℕ) → replaced_by_order xs < 4
replaced-lt xs = ground arith

-- The copy in the ITLB keeps the bits that a lookup tests.
valid_bit : bit 8 0x01da ≡ 1
unfolding bit
valid_bit = refl

share_bit : bit 1 0x01da ≡ 1
unfolding bit
share_bit = refl

valid_kept : (flags : ℕ) → any_set (bit_and flags 0x01da) 0x100 ≡ any_set flags 0x100
valid_kept flags =
    any_set-pow 8 (bit_and flags 0x01da)
    ∙ ground (arith, any_set-pow 8 flags, bit-bit_and 8 flags 0x01da, bit-lt-two 8 flags, valid_bit)

share_kept : (flags : ℕ) → any_set (bit_and flags 0x01da) 0x02 ≡ any_set flags 0x02
share_kept flags =
    any_set-pow 1 (bit_and flags 0x01da)
    ∙ ground (arith, any_set-pow 1 flags, bit-bit_and 1 flags 0x01da, bit-lt-two 1 flags, share_bit)

-- While LRUI stands for an order of the four entries of the ITLB, the last used first, an update
-- from the UTLB replaces the entry that was used before each other one; LRUI stands then for the
-- order with that entry in front, and the entry covers the pages that the one of the UTLB covers.
pub mmu_itlb_update_from_utlb-oldest :
    (entry j asid vpn : ℕ) (xs : List ℕ) (m : Mmu)
    → IsOrder xs
    → m.lrui ≡ lrui_of xs
    → j < 4
    → let (r, m') = mmu_itlb_update_from_utlb entry m in
      ((j == r || older r j xs == 1) ≡ true)
      × (m'.lrui ≡ lrui_of (r ∷ erase r xs))
      × (covers_asid asid vpn (m'.itlb r) ≡ covers_asid asid vpn (m.utlb entry))
unfolding mmu_itlb_update_from_utlb
mmu_itlb_update_from_utlb-oldest entry j asid vpn xs m w e h =
    let r = ap lrui_replace e ∙ lrui_replace-order xs in
    (
      rw r (replaced_oldest j xs w h),
      rw (r, e) (lrui_used-order (replaced_by_order xs) xs (replaced-lt xs)),
      rw
          (
            ==_refl (lrui_replace m.lrui),
            valid_kept (m.utlb entry).flags,
            share_kept (m.utlb entry).flags,
          )
          refl,
    )
