-- ===== src/Base/Masks.antt =====
-- Masks of machine words: what `&` and `|` of a word and a mask keep.
use Prim.Native.Nat.{ℕ, zero, suc, ◌+◌, ◌-◌, ◌*◌, ◌/◌, ◌^◌, ◌≤◌, ◌<◌, bit_and, bit_or}
use mathlib.Core.Path.{◌≡◌, refl, ap}
use native.Mathlib.Omega.{arith}
use mathlib.Core.Path.{◌∙◌}
use mathlib.Core.Logic.{inl, inr, ◌≢◌}
use mathlib.Core.Bool.{false, ◌||◌}
use native.Mathlib.Decide.{ℕ_discrete}
use native.Mathlib.Nat.{pow-suc}
use lxdream.Base.Tests.{◌==◌, any_set, Bool-cases}
use lxdream.Base.Bits.{
  bit, bit-bit_and, bit-bit_or, bit_and-pow, bit-lt-two, bit-pow_self, bit-pow_other,
  bit_and-halves, bit_or-halves, bit_and-zero, bit-zero,
}

-- `&` distributes over `|`.
bit_and-bit_or_fuel :
    (fuel x p m : ℕ) → m ≤ fuel → bit_and (bit_or x p) m ≡ bit_or (bit_and x m) (bit_and p m)
bit_and-bit_or_fuel fuel x p zero h =
    rw (bit_and-zero (bit_or x p), bit_and-zero x, bit_and-zero p) refl
bit_and-bit_or_fuel zero x p (suc m) h = absurd (omega arith)
bit_and-bit_or_fuel (suc fuel) x p (suc m) h =
    let n = suc m in
    let e1 : bit_or x p / 2 ≡ bit_or (x / 2) (p / 2) = omega (arith, bit_or-halves x p) in
    let e2 : bit_and x n / 2 ≡ bit_and (x / 2) (n / 2) = omega (arith, bit_and-halves x n) in
    let e3 : bit_and p n / 2 ≡ bit_and (p / 2) (n / 2) = omega (arith, bit_and-halves p n) in
    let i = bit_and-bit_or_fuel fuel (x / 2) (p / 2) (n / 2) (omega arith) in
    let f : bit_and (bit_or x p / 2) (n / 2) ≡ bit_or (bit_and x n / 2) (bit_and p n / 2) =
      rw (e1, e2, e3) i in
    omega (
      arith,
      f,
      bit_and-halves (bit_or x p) n,
      bit_or-halves x p,
      bit_and-halves x n,
      bit_and-halves p n,
      bit_or-halves (bit_and x n) (bit_and p n),
    )

pub bit_and-bit_or : (x p m : ℕ) → bit_and (bit_or x p) m ≡ bit_or (bit_and x m) (bit_and p m)
bit_and-bit_or x p m = bit_and-bit_or_fuel m x p m (omega arith)

bit_or-le_fuel : (fuel a b : ℕ) → a ≤ fuel → a ≤ bit_or a b
bit_or-le_fuel fuel zero b h = omega arith
bit_or-le_fuel zero (suc a) b h = absurd (omega arith)
bit_or-le_fuel (suc fuel) (suc a) b h =
    omega (arith, bit_or-halves (suc a) b, bit_or-le_fuel fuel (suc a / 2) (b / 2) (omega arith))

pub bit_or-le_left : (a b : ℕ) → a ≤ bit_or a b
bit_or-le_left a b = bit_or-le_fuel a a b (omega arith)

bit_or-comm_fuel : (fuel a b : ℕ) → a + b ≤ fuel → bit_or a b ≡ bit_or b a
bit_or-comm_fuel fuel zero zero h = refl
bit_or-comm_fuel zero zero (suc b) h = absurd (omega arith)
bit_or-comm_fuel zero (suc a) b h = absurd (omega arith)
bit_or-comm_fuel (suc fuel) zero (suc b) h = omega (
  arith,
  bit_or-halves 0 (suc b),
  bit_or-halves (suc b) 0,
  bit_or-comm_fuel fuel 0 (suc b / 2) (omega arith),
)
bit_or-comm_fuel (suc fuel) (suc a) b h = omega (
  arith,
  bit_or-halves (suc a) b,
  bit_or-halves b (suc a),
  bit_or-comm_fuel fuel (suc a / 2) (b / 2) (omega arith),
)

pub bit_or-le_right : (a b : ℕ) → b ≤ bit_or a b
bit_or-le_right a b = omega (arith, bit_or-comm_fuel (a + b) a b (omega arith), bit_or-le_left b a)

pub bit_or_zeros : (a b : ℕ) → a ≡ 0 → b ≡ 0 → bit_or a b ≡ 0
bit_or_zeros a b e f = rw (e, f) refl

bit_and-le_fuel : (fuel x c m : ℕ) → m ≤ fuel → bit_and (bit_and x c) m ≤ bit_and x m
bit_and-le_fuel fuel x c zero h = omega (arith, bit_and-zero (bit_and x c))
bit_and-le_fuel zero x c (suc m) h = absurd (omega arith)
bit_and-le_fuel (suc fuel) x c (suc m) h =
    let n = suc m in
    let e : bit_and x c / 2 ≡ bit_and (x / 2) (c / 2) = omega (arith, bit_and-halves x c) in
    let f : bit_and (bit_and x c / 2) (n / 2) ≤ bit_and (x / 2) (n / 2) =
      rw e (bit_and-le_fuel fuel (x / 2) (c / 2) (n / 2) (omega arith)) in
    omega (arith, f, bit_and-halves (bit_and x c) n, bit_and-halves x c, bit_and-halves x n)

-- A word that was masked before has less under a mask.
pub bit_and-le : (x c m : ℕ) → bit_and (bit_and x c) m ≤ bit_and x m
bit_and-le x c m = bit_and-le_fuel m x c m (omega arith)

bit_and-le_fuel_right : (fuel x m : ℕ) → m ≤ fuel → bit_and x m ≤ m
bit_and-le_fuel_right fuel x zero h = omega (arith, bit_and-zero x)
bit_and-le_fuel_right zero x (suc m) h = absurd (omega arith)
bit_and-le_fuel_right (suc fuel) x (suc m) h =
    omega (
      arith,
      bit_and-halves x (suc m),
      bit_and-le_fuel_right fuel (x / 2) (suc m / 2) (omega arith),
    )

pub bit_and-le_right : (x m : ℕ) → bit_and x m ≤ m
bit_and-le_right x m = bit_and-le_fuel_right m x m (omega arith)

pow-positive : (k : ℕ) → 0 < 2 ^ k
pow-positive zero = omega arith
pow-positive (suc k) = omega (arith, pow-suc 2 k, pow-positive k)

-- A test of one bit, as C writes it.
pub any_set-pow : (k a : ℕ) → any_set a (2 ^ k) ≡ (bit k a == 1)
any_set-pow k a = elim (Bool-cases (bit k a == 1)) [
  | inl y ↦
      let e : bit k a ≡ 1 = ground arith in
      ground (arith, bit_and-pow k a ∙ ap (λ b. b * 2 ^ k) e, pow-positive k)
  | inr n ↦
      let e : bit k a ≡ 0 = ground (arith, bit-lt-two k a) in
      ground (arith, bit_and-pow k a ∙ ap (λ b. b * 2 ^ k) e)
]

-- Setting bit `j` of a word sets that bit alone.
pub any_set-bit_or_pow :
    (k j a : ℕ) → any_set (bit_or a (2 ^ j)) (2 ^ k) ≡ (any_set a (2 ^ k) || k == j)
any_set-bit_or_pow k j a = elim (ℕ_discrete k j) [
  | yes e ↦
      any_set-pow k (bit_or a (2 ^ j))
      ∙ rw e
          (ground (arith, any_set-pow j a, bit-bit_or j a (2 ^ j), bit-pow_self j, bit-lt-two j a))
  | no n ↦
      any_set-pow k (bit_or a (2 ^ j))
      ∙ ground (arith, any_set-pow k a, bit-bit_or k a (2 ^ j), bit-pow_other k j n, bit-lt-two k a)
]

bit-complement : (n k : ℕ) → k < n → bit k (2 ^ n - 1 - 2 ^ k) ≡ 0
unfolding bit
bit-complement zero k h = absurd (omega arith)
bit-complement (suc n) zero h = omega (arith, pow-suc 2 n)
bit-complement (suc n) (suc k) h =
    let e : (2 ^ suc n - 1 - 2 ^ suc k) / 2 ≡ 2 ^ n - 1 - 2 ^ k =
      omega (arith, pow-suc 2 n, pow-suc 2 k) in
    rw e (bit-complement n k (omega arith))

-- Clearing bit `k` of a 32-bit word clears it.
pub any_set-cleared : (k a : ℕ) → k < 32 → any_set (bit_and a (0xffff_ffff - 2 ^ k)) (2 ^ k) ≡ false
any_set-cleared k a h =
    any_set-pow k (bit_and a (0xffff_ffff - 2 ^ k))
    ∙ ground (arith, bit-bit_and k a (0xffff_ffff - 2 ^ k), bit-complement 32 k h)

pow-lt : (n k : ℕ) → k < n → 2 ^ k * 2 ≤ 2 ^ n
pow-lt zero k h = absurd (omega arith)
pow-lt (suc n) zero h = omega (arith, pow-suc 2 n, pow-positive n)
pow-lt (suc n) (suc k) h = omega (arith, pow-suc 2 n, pow-suc 2 k, pow-lt n k (omega arith))

bit-ones : (n j : ℕ) → j < n → bit j (2 ^ n - 1) ≡ 1
unfolding bit
bit-ones zero j h = absurd (omega arith)
bit-ones (suc n) zero h = omega (arith, pow-suc 2 n, pow-positive n)
bit-ones (suc n) (suc j) h =
    let x : (2 ^ suc n - 1) / 2 ≡ 2 ^ n - 1 = omega (arith, pow-suc 2 n, pow-positive n) in
    rw x (bit-ones n j (omega arith))

bit-complement_other : (n k j : ℕ) → k < n → j < n → k ≢ j → bit j (2 ^ n - 1 - 2 ^ k) ≡ 1
unfolding bit
bit-complement_other zero k j h i e = absurd (omega arith)
bit-complement_other (suc n) zero zero h i e = absurd (e refl)
bit-complement_other (suc n) (suc k) zero h i e =
    omega (arith, pow-suc 2 n, pow-suc 2 k, pow-positive k, pow-lt n k (omega arith))
bit-complement_other (suc n) zero (suc j) h i e =
    let x : (2 ^ suc n - 1 - 2 ^ 0) / 2 ≡ 2 ^ n - 1 = omega (arith, pow-suc 2 n, pow-positive n) in
    rw x (bit-ones n j (omega arith))
bit-complement_other (suc n) (suc k) (suc j) h i e =
    let x : (2 ^ suc n - 1 - 2 ^ suc k) / 2 ≡ 2 ^ n - 1 - 2 ^ k =
      omega (arith, pow-suc 2 n, pow-suc 2 k) in
    rw x (bit-complement_other n k j (omega arith) (omega arith) (λ q. e (ap suc q)))

-- Clearing bit `k` of a 32-bit word leaves its other bits.
pub any_set-cleared_other :
    (k j a : ℕ)
    → k < 32
    → j < 32
    → k ≢ j
    → any_set (bit_and a (0xffff_ffff - 2 ^ k)) (2 ^ j) ≡ any_set a (2 ^ j)
any_set-cleared_other k j a h i e =
    any_set-pow j (bit_and a (0xffff_ffff - 2 ^ k))
    ∙ ground (
      arith,
      any_set-pow j a,
      bit-bit_and j a (0xffff_ffff - 2 ^ k),
      bit-complement_other 32 k j h i e,
      bit-lt-two j a,
    )

pub any_set-none : (k : ℕ) → any_set 0 (2 ^ k) ≡ false
any_set-none k = any_set-pow k 0 ∙ ground (arith, bit-zero k)

zero-bit_and_fuel : (fuel m : ℕ) → m ≤ fuel → bit_and 0 m ≡ 0
zero-bit_and_fuel fuel zero h = bit_and-zero 0
zero-bit_and_fuel zero (suc m) h = absurd (omega arith)
zero-bit_and_fuel (suc fuel) (suc m) h =
    omega (arith, bit_and-halves 0 (suc m), zero-bit_and_fuel fuel (suc m / 2) (omega arith))

pub zero-bit_and : (m : ℕ) → bit_and 0 m ≡ 0
zero-bit_and m = zero-bit_and_fuel m m (omega arith)
