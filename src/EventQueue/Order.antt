-- ===== src/EventQueue/Order.antt =====
-- The order in which eventq.c keeps its short list, and ordered insertion into it.
use lxdream.Base.{
  ℕ, suc, ◌≤◌, ◌≡◌, refl, true, false, ◌||◌, List, [], ◌∷◌, arith, ◌==◌, length, has, Distinct,
  erase,
}
use lxdream.EventQueue.Chain.{insert}
use lxdream.EventQueue.Write.{Events}

-- No event of the list is due before time `t`.
abbrev pub AllFrom : Events → ℕ → List ℕ → Type 0
AllFrom evs t [] = Unit
AllFrom evs t (x ∷ xs) = (t ≤ (evs x).nanosecs) × AllFrom evs t xs

abbrev pub IsSorted : Events → List ℕ → Type 0
IsSorted evs [] = Unit
IsSorted evs (x ∷ xs) = AllFrom evs (evs x).nanosecs xs × IsSorted evs xs

abbrev pub SameTimes : Events → Events → Type 0
SameTimes evs evs' = (a : ℕ) → (evs' a).nanosecs ≡ (evs a).nanosecs

AllFrom-le : (evs : Events) (s t : ℕ) (xs : List ℕ) → s ≤ t → AllFrom evs t xs → AllFrom evs s xs
AllFrom-le evs s t [] h a = tt
AllFrom-le evs s t (x ∷ xs) h a = (omega arith, AllFrom-le evs s t xs h a.1)

AllFrom-insert :
    (evs : Events) (t e : ℕ) (xs : List ℕ)
    → t ≤ (evs e).nanosecs
    → AllFrom evs t xs
    → AllFrom evs t (insert evs e xs)
unfolding insert
AllFrom-insert evs t e [] h a = (h, tt)
AllFrom-insert evs t e (x ∷ xs) h a = ground (arith, AllFrom-insert evs t e xs h a.1)

-- Insertion keeps the list sorted.
pub insert-IsSorted :
    (evs : Events) (e : ℕ) (xs : List ℕ) → IsSorted evs xs → IsSorted evs (insert evs e xs)
unfolding insert
insert-IsSorted evs e [] s = (tt, tt)
insert-IsSorted evs e (x ∷ xs) s = ground (
  arith,
  insert-IsSorted evs e xs s.1,
  AllFrom-insert evs (evs x).nanosecs e xs,
  AllFrom-le evs (evs e).nanosecs (evs x).nanosecs xs,
)

AllFrom-erase :
    (evs : Events) (t e : ℕ) (xs : List ℕ) → AllFrom evs t xs → AllFrom evs t (erase e xs)
unfolding erase
AllFrom-erase evs t e [] a = tt
AllFrom-erase evs t e (x ∷ xs) a = ground (arith, AllFrom-erase evs t e xs a.1)

pub erase-IsSorted :
    (evs : Events) (e : ℕ) (xs : List ℕ) → IsSorted evs xs → IsSorted evs (erase e xs)
unfolding erase
erase-IsSorted evs e [] s = tt
erase-IsSorted evs e (x ∷ xs) s =
    ground (arith, erase-IsSorted evs e xs s.1, AllFrom-erase evs (evs x).nanosecs e xs s.0)

-- Only the times of a list's events matter to its order.
pub AllFrom-same :
    (evs evs' : Events) (t : ℕ) (xs : List ℕ)
    → ((a : ℕ) → has a xs ≡ true → (evs' a).nanosecs ≡ (evs a).nanosecs)
    → AllFrom evs t xs
    → AllFrom evs' t xs
AllFrom-same evs evs' t [] same a = tt
AllFrom-same evs evs' t (x ∷ xs) same a =
    (ground (arith, same x), AllFrom-same evs evs' t xs (λ b m. same b (ground arith)) a.1)

pub IsSorted-same :
    (evs evs' : Events) (xs : List ℕ)
    → ((a : ℕ) → has a xs ≡ true → (evs' a).nanosecs ≡ (evs a).nanosecs)
    → IsSorted evs xs
    → IsSorted evs' xs
IsSorted-same evs evs' [] same s = tt
IsSorted-same evs evs' (x ∷ xs) same s =
    let later : (a : ℕ) → has a xs ≡ true → (evs' a).nanosecs ≡ (evs a).nanosecs =
      λ a m. same a (ground arith) in
    let e : (evs' x).nanosecs ≡ (evs x).nanosecs = same x (ground arith) in
    (
      rw e (AllFrom-same evs evs' (evs x).nanosecs xs later s.0),
      IsSorted-same evs evs' xs later s.1,
    )

pub insert-same :
    (evs evs' : Events) (e : ℕ) (xs : List ℕ)
    → SameTimes evs evs'
    → insert evs' e xs ≡ insert evs e xs
unfolding insert
insert-same evs evs' e [] same = refl
insert-same evs evs' e (x ∷ xs) same = rw (same e, same x, insert-same evs evs' e xs same)

pub has-insert :
    (evs : Events) (e a : ℕ) (xs : List ℕ) → has a (insert evs e xs) ≡ (a == e || has a xs)
unfolding insert
has-insert evs e a [] = refl
has-insert evs e a (x ∷ xs) = ground (arith, has-insert evs e a xs)

pub insert-Distinct :
    (evs : Events) (e : ℕ) (xs : List ℕ)
    → has e xs ≡ false
    → Distinct xs
    → Distinct (insert evs e xs)
unfolding insert
insert-Distinct evs e [] out d = (refl, tt)
insert-Distinct evs e (x ∷ xs) out d =
    ground (arith, insert-Distinct evs e xs, has-insert evs e x xs)

pub length-insert :
    (evs : Events) (e : ℕ) (xs : List ℕ) → length (insert evs e xs) ≡ suc (length xs)
unfolding insert
length-insert evs e [] = refl
length-insert evs e (x ∷ xs) = ground (arith, length-insert evs e xs)
