-- ===== src/EventQueue/Chain.antt =====
-- The lists that run through the `next` pointers of eventq.c, as lists of event numbers, and what
-- the pointer loops do to them.
use mathlib.Core.Path.{subst}
use lxdream.Base.{
  ℕ, zero, suc, ◌≤◌, ◌≡◌, refl, sym, ◌∙◌, inl, inr, true, false, Option, none, some, List, [], ◌∷◌,
  arith, ltb, ◌==◌, if◌then◌else◌, length, has, Distinct, erase, Bool-cases, ==_refl, ne_of_has,
}
use lxdream.EventQueue.{enqueue_walk, link, dequeue_walk}
use lxdream.EventQueue.Write
use lxdream.EventQueue.Write.{Events}

-- From `p` the pointers lead through the events `xs` to NULL.
abbrev pub Chain : Events → Option ℕ → List ℕ → Type 0
Chain evs p [] = p ≡ none
Chain evs p (x ∷ xs) = (p ≡ some x) × Chain evs (evs x).next xs

-- The place of an event among events in the order of their times: behind its equals.
unfoldable pub insert : Events → ℕ → List ℕ → List ℕ
insert evs e [] = e ∷ []
insert evs e (x ∷ xs) =
    if ltb (evs e).nanosecs (evs x).nanosecs then e ∷ x ∷ xs else x ∷ insert evs e xs

-- Both arrays have the same pointers at the events of `xs`.
abbrev pub SameNext : Events → Events → List ℕ → Type 0
SameNext evs evs' [] = Unit
SameNext evs evs' (x ∷ xs) = ((evs' x).next ≡ (evs x).next) × SameNext evs evs' xs

pub Chain-same :
    (evs evs' : Events) (p : Option ℕ) (xs : List ℕ)
    → SameNext evs evs' xs
    → Chain evs p xs
    → Chain evs' p xs
Chain-same evs evs' p [] s c = c
Chain-same evs evs' p (x ∷ xs) s c = (c.0, Chain-same evs evs' (evs' x).next xs s.1 (rw s.0 c.1))

pub SameNext-next :
    (evs : Events) (e : ℕ) (n : Option ℕ) (xs : List ℕ)
    → has e xs ≡ false
    → SameNext evs (Write.next evs e n) xs
SameNext-next evs e n [] out = tt
SameNext-next evs e n (x ∷ xs) out = (ground arith, SameNext-next evs e n xs (ground arith))

-- A write to an event outside a list leaves the list as it is.
pub Chain-next :
    (evs : Events) (e : ℕ) (n p : Option ℕ) (xs : List ℕ)
    → has e xs ≡ false
    → Chain evs p xs
    → Chain (Write.next evs e n) p xs
Chain-next evs e n p xs out c =
    Chain-same evs (Write.next evs e n) p xs (SameNext-next evs e n xs out) c

-- One round of the walk of `event_enqueue`.
module _ (fuel : ℕ) (evs : Events) (t cur n : ℕ) where
  enqueue_walk_stop :
      ltb t (evs n).nanosecs ≡ true → enqueue_walk (suc fuel) evs t cur (some n) ≡ (cur, some n)
  unfolding enqueue_walk
  enqueue_walk_stop h = rw h

  enqueue_walk_go :
      ltb t (evs n).nanosecs ≡ false
      → enqueue_walk (suc fuel) evs t cur (some n) ≡ enqueue_walk fuel evs t n (evs n).next
  unfolding enqueue_walk
  enqueue_walk_go h = rw h

enqueue_walk_end :
    (fuel : ℕ) (evs : Events) (t cur : ℕ) → enqueue_walk fuel evs t cur none ≡ (cur, none)
unfolding enqueue_walk
enqueue_walk_end zero evs t cur = refl
enqueue_walk_end (suc fuel) evs t cur = refl

-- The walk stops at an event of the list that it walks.
pub enqueue_walk-has :
    (fuel : ℕ) (evs : Events) (t x : ℕ) (p : Option ℕ) (xs : List ℕ)
    → length xs ≤ fuel
    → Chain evs p xs
    → has (enqueue_walk fuel evs t x p).0 (x ∷ xs) ≡ true
enqueue_walk-has fuel evs t x p [] enough c = rw (c, enqueue_walk_end fuel evs t x) (ground arith)
enqueue_walk-has zero evs t x p (y ∷ ys) enough c = absurd (omega arith)
enqueue_walk-has (suc fuel) evs t x p (y ∷ ys) enough c =
    elim (Bool-cases (ltb t (evs y).nanosecs)) [
      | inl h ↦ rw (c.0, enqueue_walk_stop fuel evs t x y h, ==_refl x)
      | inr h ↦
          let rest = enqueue_walk fuel evs t y (evs y).next in
          let behind : has rest.0 (y ∷ ys) ≡ true =
            enqueue_walk-has fuel evs t y (evs y).next ys (omega arith) c.1 in
          let e : enqueue_walk (suc fuel) evs t x p ≡ rest =
            rw c.0 (enqueue_walk_go fuel evs t x y h) in
          subst (λ w. has w.0 (x ∷ y ∷ ys) ≡ true) (sym e) (ground arith)
    ]

-- Linking the event in where the walk stops inserts it behind `x`.
pub enqueue_walk-insert :
    (fuel : ℕ) (evs : Events) (e x : ℕ) (p : Option ℕ) (xs : List ℕ)
    → length xs ≤ fuel
    → has e (x ∷ xs) ≡ false
    → Distinct (x ∷ xs)
    → (evs x).next ≡ p
    → Chain evs p xs
    → let evs' = link evs e (enqueue_walk fuel evs (evs e).nanosecs x p) in
      Chain evs' (evs' x).next (insert evs e xs)
unfolding insert
enqueue_walk-insert fuel evs e x p [] enough out d q c =
    rw (c, enqueue_walk_end fuel evs (evs e).nanosecs x) (ground arith)
enqueue_walk-insert zero evs e x p (y ∷ ys) enough out d q c = absurd (omega arith)
enqueue_walk-insert (suc fuel) evs e x p (y ∷ ys) enough out d q c =
    elim (Bool-cases (ltb (evs e).nanosecs (evs y).nanosecs)) [
      | inl h ↦
          let kept : Chain (link evs e (x, some y)) (some y) (y ∷ ys) =
            Chain-next (Write.next evs e (some y)) x (some e) (some y) (y ∷ ys) d.0
              (Chain-next evs e (some y) (some y) (y ∷ ys) (ground arith) (refl, c.1)) in
          rw (c.0, enqueue_walk_stop fuel evs (evs e).nanosecs x y h, h)
            (ground arith, (ground arith, kept.1))
      | inr h ↦
          let t = (evs e).nanosecs in
          let stop = (enqueue_walk fuel evs t y (evs y).next).0 in
          let behind : has stop (y ∷ ys) ≡ true =
            enqueue_walk-has fuel evs t y (evs y).next ys (omega arith) c.1 in
          let apart : (x == stop) ≡ false = ne_of_has x stop (y ∷ ys) behind d.0 in
          rw (c.0, enqueue_walk_go fuel evs (evs e).nanosecs x y h, h)
            (
              ground arith,
              enqueue_walk-insert fuel evs e y (evs y).next ys (omega arith) (ground arith) d.1 refl
                  c.1,
            )
    ]

-- One round of the loop of `event_dequeue`.
module _ (fuel : ℕ) (evs : Events) (e cur n : ℕ) where
  dequeue_walk_hit :
      (e == n) ≡ true → dequeue_walk (suc fuel) evs e cur (some n) ≡ Write.next evs cur (evs n).next
  unfolding dequeue_walk
  dequeue_walk_hit h = rw h

  dequeue_walk_miss :
      (e == n) ≡ false
      → dequeue_walk (suc fuel) evs e cur (some n) ≡ dequeue_walk fuel evs e n (evs n).next
  unfolding dequeue_walk
  dequeue_walk_miss h = rw h

dequeue_walk_end : (fuel : ℕ) (evs : Events) (e cur : ℕ) → dequeue_walk fuel evs e cur none ≡ evs
unfolding dequeue_walk
dequeue_walk_end zero evs e cur = refl
dequeue_walk_end (suc fuel) evs e cur = refl

-- The loop writes only at events of the list that it walks.
pub dequeue_walk-outside :
    (fuel : ℕ) (evs : Events) (e x a : ℕ) (p : Option ℕ) (xs : List ℕ)
    → length xs ≤ fuel
    → has a (x ∷ xs) ≡ false
    → Chain evs p xs
    → dequeue_walk fuel evs e x p a ≡ evs a
dequeue_walk-outside fuel evs e x a p [] enough out c = rw (c, dequeue_walk_end fuel evs e x)
dequeue_walk-outside zero evs e x a p (y ∷ ys) enough out c = absurd (omega arith)
dequeue_walk-outside (suc fuel) evs e x a p (y ∷ ys) enough out c = elim (Bool-cases (e == y)) [
  | inl h ↦ rw (c.0, dequeue_walk_hit fuel evs e x y h) (ground arith)
  | inr h ↦
      rw (c.0, dequeue_walk_miss fuel evs e x y h)
        (dequeue_walk-outside fuel evs e y a (evs y).next ys (omega arith) (ground arith) c.1)
]

-- The loop takes the event out of the list behind `x`.
pub dequeue_walk-erase :
    (fuel : ℕ) (evs : Events) (e x : ℕ) (p : Option ℕ) (xs : List ℕ)
    → length xs ≤ fuel
    → Distinct (x ∷ xs)
    → (evs x).next ≡ p
    → Chain evs p xs
    → let evs' = dequeue_walk fuel evs e x p in Chain evs' (evs' x).next (erase e xs)
unfolding erase
dequeue_walk-erase fuel evs e x p [] enough d q c = rw (c, dequeue_walk_end fuel evs e x) (q ∙ c)
dequeue_walk-erase zero evs e x p (y ∷ ys) enough d q c = absurd (omega arith)
dequeue_walk-erase (suc fuel) evs e x p (y ∷ ys) enough d q c = elim (Bool-cases (e == y)) [
  | inl h ↦
      rw (c.0, dequeue_walk_hit fuel evs e x y h, h, ==_refl x)
        (Chain-next evs x (evs y).next (evs y).next ys (ground arith) c.1)
  | inr h ↦
      let same : dequeue_walk fuel evs e y (evs y).next x ≡ evs x =
        dequeue_walk-outside fuel evs e y x (evs y).next ys (omega arith) (ground arith) c.1 in
      rw (c.0, dequeue_walk_miss fuel evs e x y h, h)
        (
          rw same (q ∙ c.0),
          dequeue_walk-erase fuel evs e y (evs y).next ys (omega arith) d.1 refl c.1,
        )
]
