-- ===== src/Base/Cyclic.antt =====
-- The elements between two indices of an array that goes round, for the ring buffers.
use Prim.Native.Nat.{ℕ, zero, suc, ◌+◌, ◌-◌, ◌<◌, ◌≤◌}
use mathlib.Core.Path.{◌≡◌, refl, ap, ◌∙◌}
use mathlib.Core.Bool.{false}
use mathlib.Core.List.{List, [], ◌∷◌, ◌++◌}
use native.Mathlib.Omega.{arith}
use lxdream.Base.Tests.{ltb, ◌==◌, if◌then◌else◌}
use lxdream.Base.Lists.{length}

-- The index behind `i` in an array of `n` elements.
abbrev pub round : ℕ → ℕ → ℕ
round n i = if i + 1 == n then 0 else i + 1

-- The number of elements from the index `h` up to the index `i`, not included.
abbrev pub span : ℕ → ℕ → ℕ → ℕ
span n h i = if ltb i h then n + i - h else i - h

unfoldable pub slots {ℓ} : {A : Type ℓ} → ℕ → ℕ → ℕ → (ℕ → A) → List A
slots n zero h t = []
slots n (suc k) h t = t h ∷ slots n k (round n h) t

pub length-slots {ℓ} : {A : Type ℓ} → (n k h : ℕ) (t : ℕ → A) → length (slots n k h t) ≡ k
unfolding slots
length-slots n zero h t = refl
length-slots n (suc k) h t = omega (arith, length-slots n k (round n h) t)

pub slots-write {ℓ} :
    {A : Type ℓ} (n k h i : ℕ) (e : A) (t : ℕ → A)
    → h < n
    → i < n
    → k ≤ span n h i
    → slots n k h (λ a. if a == i then e else t a) ≡ slots n k h t
unfolding slots
slots-write n zero h i e t hf jf l = refl
slots-write n (suc k) h i e t hf jf l =
    let rest = slots-write n k (round n h) i e t (ground arith) jf (ground arith) in
    let other : (h == i) ≡ false = ground arith in rw other (ap (λ xs. t h ∷ xs) rest)

pub slots-last {ℓ} :
    {A : Type ℓ} (n k h i : ℕ) (t : ℕ → A)
    → h < n
    → i < n
    → k ≡ span n h i
    → slots n (suc k) h t ≡ slots n k h t ++ (t i ∷ [])
unfolding slots
slots-last n zero h i t hf jf l = let e : h ≡ i = ground arith in rw e refl
slots-last n (suc k) h i t hf jf l =
    ap (λ xs. t h ∷ xs) (slots-last n k (round n h) i t (ground arith) jf (ground arith))

-- Writing an element where the window ends makes it longer by that element.
pub slots-push {ℓ} :
    {A : Type ℓ} (n h i : ℕ) (e : A) (t : ℕ → A)
    → h < n
    → i < n
    → slots n (suc (span n h i)) h (λ a. if a == i then e else t a)
      ≡ slots n (span n h i) h t ++ (e ∷ [])
slots-push {A = A} n h i e t hf jf =
    let t' : ℕ → A = λ a. if a == i then e else t a in
    let last : t' i ≡ e = ground arith in
    slots-last n (span n h i) h i t' hf jf refl
    ∙ ap (λ x. slots n (span n h i) h t' ++ (x ∷ [])) last
    ∙ ap (λ xs. xs ++ (e ∷ [])) (slots-write n (span n h i) h i e t hf jf (omega arith))
