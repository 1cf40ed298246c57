-- ===== src/Mmu/Order.antt =====
-- The order in which the entries of the ITLB of sh4/mmu.c were used, and the bits that stand for it.
use lxdream.Base.{
  ℕ, ◌+◌, ◌*◌, ◌≡◌, refl, true, false, List, [], ◌∷◌, arith, ◌==◌, if◌then◌else◌, erase, has, ◌≤◌,
  inl, inr, Bool-cases,
}

-- Whether `i` was used before `j`, in a list with the last use first.
abbrev pub older : ℕ → ℕ → List ℕ → ℕ
older i j [] = 0
older i j (x ∷ xs) = if x == i then 0 else if x == j then 1 else older i j xs

-- The bits of an order: one for each pair of entries.
abbrev pub lrui_of : List ℕ → ℕ
lrui_of xs =
    older 0 1 xs * 32
    + older 0 2 xs * 16
    + older 0 3 xs * 8
    + older 1 2 xs * 4
    + older 1 3 xs * 2
    + older 2 3 xs

pub older-le-one : (i j : ℕ) (xs : List ℕ) → older i j xs ≤ 1
older-le-one i j [] = omega arith
older-le-one i j (x ∷ xs) = ground (arith, older-le-one i j xs)

older_self : (i j : ℕ) (xs : List ℕ) → older i j (i ∷ xs) ≡ 0
older_self i j xs = ground arith

older_other : (i j : ℕ) (xs : List ℕ) → (i == j) ≡ false → older i j (j ∷ xs) ≡ 1
older_other i j xs n = ground (arith, n)

-- Taking an entry out leaves the order of the others.
older-erase :
    (i a b : ℕ) (xs : List ℕ)
    → (a == i) ≡ false
    → (b == i) ≡ false
    → older a b (erase i xs) ≡ older a b xs
unfolding erase
older-erase i a b [] n k = refl
older-erase i a b (x ∷ xs) n k = ground (arith, n, k, older-erase i a b xs n k)

pub older_front :
    (i a b : ℕ) (xs : List ℕ)
    → (a == i) ≡ false
    → (b == i) ≡ false
    → older a b (i ∷ erase i xs) ≡ older a b xs
older_front i a b xs n k = ground (arith, n, k, older-erase i a b xs n k)

-- The order has no cycles.
pub older_chain :
    (i j k : ℕ) (xs : List ℕ)
    → (i == j) ≡ false
    → (j == k) ≡ false
    → (i == k) ≡ false
    → (older i j xs + older j k xs ≤ older i k xs + 1)
      × (older i k xs ≤ older i j xs + older j k xs)
older_chain i j k [] a b c = (omega arith, omega arith)
older_chain i j k (x ∷ xs) a b c =
    let rest = older_chain i j k xs a b c in
    ground (arith, a, b, c, rest, older-le-one i j xs, older-le-one j k xs, older-le-one i k xs)

pub older_total :
    (i j : ℕ) (xs : List ℕ) → (i == j) ≡ false → has i xs ≡ true → older i j xs + older j i xs ≡ 1
older_total i j [] n h = ground (arith, h)
older_total i j (x ∷ xs) n h = elim (Bool-cases (x == i)) [
  | inl y ↦ ground (arith, n, y)
  | inr d ↦
      let rest : has i xs ≡ true = ground (arith, h, d) in
      ground (arith, n, d, older_total i j xs n rest)
]

-- The four entries are all in the order.
pub record IsOrder (xs : List ℕ) : Type 0 where
  pub zero_in : has 0 xs ≡ true
  pub one_in : has 1 xs ≡ true
  pub two_in : has 2 xs ≡ true
  pub three_in : has 3 xs ≡ true

-- The bits of an order in which no two entries share a place.
pub IsOrder-pairs :
    (xs : List ℕ)
    → IsOrder xs
    → (older 0 1 xs + older 1 0 xs ≡ 1)
      × (older 0 2 xs + older 2 0 xs ≡ 1)
      × (older 0 3 xs + older 3 0 xs ≡ 1)
      × (older 1 2 xs + older 2 1 xs ≡ 1)
      × (older 1 3 xs + older 3 1 xs ≡ 1)
      × (older 2 3 xs + older 3 2 xs ≡ 1)
IsOrder-pairs xs w = (
  older_total 0 1 xs refl w.zero_in,
  older_total 0 2 xs refl w.zero_in,
  older_total 0 3 xs refl w.zero_in,
  older_total 1 2 xs refl w.one_in,
  older_total 1 3 xs refl w.one_in,
  older_total 2 3 xs refl w.two_in,
)
