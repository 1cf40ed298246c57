-- ===== src/Intc/Order.antt =====
-- The order of the pending interrupts of sh4/intc.c: each entry is delivered after all behind it.
use lxdream.Base.{
  ℕ, zero, suc, ◌≤◌, ◌≡◌, ◌⊎◌, refl, inl, inr, true, false, ◌||◌, none, some, List, [], ◌∷◌, arith,
  ◌==◌, length, has, Distinct, erase, Bool-cases, Option-cases,
}
use lxdream.Intc.{after, insertion_point, insert_at, last_pending, remove_last}

-- Source `a` is delivered after every source of the list.
abbrev pub AllBefore : (ℕ → ℕ) → ℕ → List ℕ → Type 0
AllBefore pr a [] = Unit
AllBefore pr a (x ∷ xs) = (after pr a x ≡ true) × AllBefore pr a xs

abbrev pub IsOrdered : (ℕ → ℕ) → List ℕ → Type 0
IsOrdered pr [] = Unit
IsOrdered pr (x ∷ xs) = AllBefore pr x xs × IsOrdered pr xs

module _ (pr : ℕ → ℕ) where
  after_trans : (a b c : ℕ) → after pr a b ≡ true → after pr b c ≡ true → after pr a c ≡ true
  unfolding after
  after_trans a b c h k = ground arith

  after_total : (a b : ℕ) → (b == a) ≡ false → after pr a b ≡ false → after pr b a ≡ true
  unfolding after
  after_total a b n h = ground arith

  after_irrefl : (a : ℕ) → after pr a a ≡ false
  unfolding after
  after_irrefl a = ground arith

  AllBefore-after :
      (a b : ℕ) (xs : List ℕ) → after pr a b ≡ true → AllBefore pr b xs → AllBefore pr a xs
  AllBefore-after a b [] h k = tt
  AllBefore-after a b (x ∷ xs) h k = (after_trans a b x h k.0, AllBefore-after a b xs h k.1)

  AllBefore-absent : (a : ℕ) (xs : List ℕ) → AllBefore pr a xs → has a xs ≡ false
  AllBefore-absent a [] h = refl
  AllBefore-absent a (x ∷ xs) h = ground (arith, AllBefore-absent a xs h.1, after_irrefl a)

  after_asym : (a b : ℕ) → after pr a b ≡ true → after pr b a ≡ false
  unfolding after
  after_asym a b h = ground arith

  pub AllBefore-has :
      (a b : ℕ) (xs : List ℕ) → AllBefore pr a xs → has b xs ≡ true → after pr a b ≡ true
  AllBefore-has a b [] h m = cc
  AllBefore-has a b (x ∷ xs) h m = ground (arith, AllBefore-has a b xs h.1)

  -- An ordered queue holds no source twice.
  pub IsOrdered-Distinct : (xs : List ℕ) → IsOrdered pr xs → Distinct xs
  IsOrdered-Distinct [] o = tt
  IsOrdered-Distinct (x ∷ xs) o = (AllBefore-absent x xs o.0, IsOrdered-Distinct xs o.1)

  -- On an ordered queue the loop finds the source if it is there.
  pub insertion_point-has :
      (a : ℕ) (xs : List ℕ) → IsOrdered pr xs → has a xs ≡ true → insertion_point pr a xs ≡ none
  unfolding insertion_point
  insertion_point-has a [] o h = cc
  insertion_point-has a (x ∷ xs) o h =
      ground (arith, insertion_point-has a xs o.1, AllBefore-has x a xs o.0, after_asym x a)

  pub insertion_point-absent :
      (a : ℕ) (xs : List ℕ)
      → has a xs ≡ false
      → (i : ℕ) × (insertion_point pr a xs ≡ some i) × (i ≤ length xs)
  unfolding insertion_point
  insertion_point-absent a [] h = (0, refl, omega arith)
  insertion_point-absent a (x ∷ xs) h =
      let (i, found, fits) = insertion_point-absent a xs (ground arith) in
      elim (Bool-cases (after pr a x)) [
        | inl y ↦ (0, ground arith, omega arith)
        | inr n ↦ (suc i, ground arith, omega arith)
      ]

  AllBefore-insert_at :
      (a b i : ℕ) (xs : List ℕ)
      → after pr a b ≡ true
      → AllBefore pr a xs
      → AllBefore pr a (insert_at xs i b)
  unfolding insert_at
  AllBefore-insert_at a b zero xs h k = (h, k)
  AllBefore-insert_at a b (suc i) [] h k = (h, tt)
  AllBefore-insert_at a b (suc i) (x ∷ xs) h k = (k.0, AllBefore-insert_at a b i xs h k.1)

  pub insert_at-IsOrdered :
      (a i : ℕ) (xs : List ℕ)
      → IsOrdered pr xs
      → insertion_point pr a xs ≡ some i
      → IsOrdered pr (insert_at xs i a)
  unfolding insertion_point insert_at
  insert_at-IsOrdered a zero [] o e = (tt, tt)
  insert_at-IsOrdered a (suc i) [] o e = (tt, tt)
  insert_at-IsOrdered a zero (x ∷ xs) o e =
      let first : after pr a x ≡ true = ground arith in
      ((first, AllBefore-after a x xs first o.0), o)
  insert_at-IsOrdered a (suc i) (x ∷ xs) o e =
      let rest : insertion_point pr a xs ≡ some i = ground arith in
      let apart : (x == a) ≡ false = ground arith in
      let behind : after pr a x ≡ false = ground arith in
      (
        AllBefore-insert_at x a i xs (after_total a x apart behind) o.0,
        insert_at-IsOrdered a i xs o.1 rest,
      )

pub has-insert_at : (a b i : ℕ) (xs : List ℕ) → has a (insert_at xs i b) ≡ (a == b || has a xs)
unfolding insert_at
has-insert_at a b zero xs = refl
has-insert_at a b (suc i) [] = refl
has-insert_at a b (suc i) (x ∷ xs) = ground (arith, has-insert_at a b i xs)

pub length-insert_at : (b i : ℕ) (xs : List ℕ) → length (insert_at xs i b) ≡ suc (length xs)
unfolding insert_at
length-insert_at b zero xs = refl
length-insert_at b (suc i) [] = refl
length-insert_at b (suc i) (x ∷ xs) = ground (arith, length-insert_at b i xs)

-- Removing the last entry of a source from a queue that holds it at most once erases it.
pub remove_last-absent : (a : ℕ) (xs : List ℕ) → has a xs ≡ false → remove_last a xs ≡ none
unfolding remove_last
remove_last-absent a [] h = refl
remove_last-absent a (x ∷ xs) h = ground (arith, remove_last-absent a xs)

pub remove_last-has :
    (a : ℕ) (xs : List ℕ) → Distinct xs → has a xs ≡ true → remove_last a xs ≡ some (erase a xs)
unfolding remove_last erase
remove_last-has a [] d h = cc
remove_last-has a (x ∷ xs) d h =
    ground (arith, remove_last-has a xs d.1, remove_last-absent a xs, d.0)

AllBefore-erase :
    (pr : ℕ → ℕ) (a b : ℕ) (xs : List ℕ) → AllBefore pr a xs → AllBefore pr a (erase b xs)
unfolding erase
AllBefore-erase pr a b [] h = tt
AllBefore-erase pr a b (x ∷ xs) h = ground (arith, AllBefore-erase pr a b xs h.1)

pub erase-IsOrdered :
    (pr : ℕ → ℕ) (a : ℕ) (xs : List ℕ) → IsOrdered pr xs → IsOrdered pr (erase a xs)
unfolding erase
erase-IsOrdered pr a [] o = tt
erase-IsOrdered pr a (x ∷ xs) o =
    ground (arith, erase-IsOrdered pr a xs o.1, AllBefore-erase pr x a xs o.0)

pub last_pending-has : (p : ℕ) (xs : List ℕ) → last_pending xs ≡ some p → has p xs ≡ true
unfolding last_pending
last_pending-has p [] e = cc
last_pending-has p (x ∷ xs) e = ground (arith, last_pending-has p xs)

pub last_pending-none : (xs : List ℕ) → last_pending xs ≡ none → xs ≡ []
unfolding last_pending
last_pending-none [] e = refl
last_pending-none (x ∷ xs) e = ground (arith, last_pending-none xs)

-- The last entry of an ordered queue is delivered before every other.
pub last_pending-before :
    (pr : ℕ → ℕ) (p a : ℕ) (xs : List ℕ)
    → IsOrdered pr xs
    → last_pending xs ≡ some p
    → has a xs ≡ true
    → (a ≡ p) ⊎ (after pr a p ≡ true)
unfolding last_pending
last_pending-before pr p a [] o e h = cc
last_pending-before pr p a (x ∷ xs) o e h = elim (Option-cases (last_pending xs)) [
  | inl n ↦ let last : xs ≡ [] = last_pending-none xs n in ground arith
  | inr (q, found) ↦
      let same : q ≡ p = ground arith in
      let e' : last_pending xs ≡ some p = ground arith in
      elim (Bool-cases (a == x)) [
        | inl y ↦
            let at : a ≡ x = ground arith in
            inr (rw at (AllBefore-has pr x p xs o.0 (last_pending-has p xs e')))
        | inr n ↦ last_pending-before pr p a xs o.1 e' (ground arith)
      ]
]
