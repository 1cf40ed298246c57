-- ===== src/Base/Bits.antt =====
-- Laws of `&` and `|` at variables, read off digit by digit.
use Prim.Native.Nat.{
  ℕ, zero, suc, ◌+◌, ◌*◌, ◌/◌, ◌%◌, ◌^◌, ◌≤◌, ◌<◌, min, max, bit_and, bit_or, digits,
  bit_and-bitwise, bit_or-bitwise,
}
use mathlib.Core.Path.{◌≡◌, refl, ap}
use mathlib.Core.Logic.{◌≢◌}
use native.Mathlib.Nat.{pow-suc}
use native.Mathlib.Omega.{arith}

-- The digit recursion gives the same with any count of rounds that covers the first number.
module _ (z : ℕ → ℕ) (f : ℕ → ℕ → ℕ) where
  enough_rounds : (n k a b : ℕ) → a ≤ n → a ≤ k → digits z f n a b ≡ digits z f k a b
  enough_rounds zero zero a b p q = refl
  enough_rounds zero (suc k) zero b p q = refl
  enough_rounds (suc n) zero zero b p q = refl
  enough_rounds (suc n) (suc k) zero b p q = refl
  enough_rounds zero k (suc a) b p q = absurd (omega arith)
  enough_rounds (suc n) zero (suc a) b p q = absurd (omega arith)
  enough_rounds (suc n) (suc k) (suc a) b p q =
      rw (enough_rounds n k (suc a / 2) (b / 2) (omega arith) (omega arith))

pub bit_and-halves : (a b : ℕ) → bit_and a b ≡ bit_and (a / 2) (b / 2) * 2 + min (a % 2) (b % 2)
bit_and-halves zero b = omega (arith, bit_and-bitwise 0 b, bit_and-bitwise 0 (b / 2))
bit_and-halves (suc a) b = omega (
  arith,
  bit_and-bitwise (suc a) b,
  bit_and-bitwise (suc a / 2) (b / 2),
  enough_rounds (λ d. 0) min a (suc a / 2) (suc a / 2) (b / 2) (omega arith) (omega arith),
)

pub bit_or-halves : (a b : ℕ) → bit_or a b ≡ bit_or (a / 2) (b / 2) * 2 + max (a % 2) (b % 2)
bit_or-halves zero b = omega (arith, bit_or-bitwise 0 b, bit_or-bitwise 0 (b / 2))
bit_or-halves (suc a) b = omega (
  arith,
  bit_or-bitwise (suc a) b,
  bit_or-bitwise (suc a / 2) (b / 2),
  enough_rounds (λ d. d) max a (suc a / 2) (suc a / 2) (b / 2) (omega arith) (omega arith),
)

-- Digit `k` of a number, lowest first.
unfoldable pub bit : ℕ → ℕ → ℕ
bit zero x = x % 2
bit (suc k) x = bit k (x / 2)

pub bit-bit_and : (k a b : ℕ) → bit k (bit_and a b) ≡ min (bit k a) (bit k b)
unfolding bit
bit-bit_and zero a b = omega (arith, bit_and-halves a b)
bit-bit_and (suc k) a b =
    let e : bit_and a b / 2 ≡ bit_and (a / 2) (b / 2) = omega (arith, bit_and-halves a b) in
    rw e (bit-bit_and k (a / 2) (b / 2))

pub bit-bit_or : (k a b : ℕ) → bit k (bit_or a b) ≡ max (bit k a) (bit k b)
unfolding bit
bit-bit_or zero a b = omega (arith, bit_or-halves a b)
bit-bit_or (suc k) a b =
    let e : bit_or a b / 2 ≡ bit_or (a / 2) (b / 2) = omega (arith, bit_or-halves a b) in
    rw e (bit-bit_or k (a / 2) (b / 2))

pub bit-lt-two : (k x : ℕ) → bit k x < 2
unfolding bit
bit-lt-two zero x = omega arith
bit-lt-two (suc k) x = bit-lt-two k (x / 2)

pub bit-zero : (k : ℕ) → bit k 0 ≡ 0
unfolding bit
bit-zero zero = refl
bit-zero (suc k) = bit-zero k

half_pow : (k : ℕ) → 2 ^ suc k / 2 ≡ 2 ^ k
half_pow k = omega (arith, pow-suc 2 k)

-- A power of two has one digit.
pub bit-pow_self : (k : ℕ) → bit k (2 ^ k) ≡ 1
unfolding bit
bit-pow_self zero = refl
bit-pow_self (suc k) = rw (half_pow k) (bit-pow_self k)

pub bit-pow_other : (k j : ℕ) → k ≢ j → bit k (2 ^ j) ≡ 0
unfolding bit
bit-pow_other zero zero n = absurd (n refl)
bit-pow_other zero (suc j) n = omega (arith, pow-suc 2 j)
bit-pow_other (suc k) zero n = bit-zero k
bit-pow_other (suc k) (suc j) n = rw (half_pow j) (bit-pow_other k j (λ e. n (ap suc e)))

-- A number is zero if all its digits are.
pub nonzero_of_bit : (k x : ℕ) → 0 < bit k x → 0 < x
nonzero_of_bit k zero h = absurd (omega (arith, bit-zero k))
nonzero_of_bit k (suc x) h = omega arith

-- A digit that was set stands.
pub set_of_bit_or : (k a : ℕ) → 0 < bit_and (bit_or a (2 ^ k)) (2 ^ k)
set_of_bit_or k a = nonzero_of_bit k (bit_and (bit_or a (2 ^ k)) (2 ^ k)) (
    omega (arith, bit-bit_and k (bit_or a (2 ^ k)) (2 ^ k), bit-bit_or k a (2 ^ k), bit-pow_self k))

pub bit_and-zero-le : (k a b : ℕ) → bit_and a b ≡ 0 → min (bit k a) (bit k b) ≡ 0
bit_and-zero-le k a b h = omega (arith, bit-bit_and k a b, ap (bit k) h, bit-zero k)

bit_and-zero_fuel : (fuel a : ℕ) → a ≤ fuel → bit_and a 0 ≡ 0
bit_and-zero_fuel fuel zero h = bit_and-bitwise 0 0
bit_and-zero_fuel zero (suc a) h = absurd (omega arith)
bit_and-zero_fuel (suc fuel) (suc a) h =
    omega (arith, bit_and-halves (suc a) 0, bit_and-zero_fuel fuel (suc a / 2) (omega arith))

pub bit_and-zero : (a : ℕ) → bit_and a 0 ≡ 0
bit_and-zero a = bit_and-zero_fuel a a (omega arith)

-- The lowest digit, as C tests it.
pub bit_and-one : (a : ℕ) → bit_and a 1 ≡ a % 2
bit_and-one a = omega (arith, bit_and-halves a 1, bit_and-zero (a / 2))

pub bit_or-mod_two : (a b : ℕ) → bit_or a b % 2 ≡ max (a % 2) (b % 2)
bit_or-mod_two a b = omega (arith, bit_or-halves a b)

pub bit_and-mod_two : (a b : ℕ) → bit_and a b % 2 ≡ min (a % 2) (b % 2)
bit_and-mod_two a b = omega (arith, bit_and-halves a b)

-- A test of one digit, as C writes it.
pub bit_and-pow : (k a : ℕ) → bit_and a (2 ^ k) ≡ bit k a * 2 ^ k
unfolding bit
bit_and-pow zero a = omega (arith, bit_and-one a)
bit_and-pow (suc k) a = omega (
  arith,
  bit_and-halves a (2 ^ suc k),
  bit_and-pow k (a / 2),
  pow-suc 2 k,
  ap (bit_and (a / 2)) (half_pow k),
  ap (λ p. bit k (a / 2) * p) (pow-suc 2 k),
)

-- One step of `&` at a mask that is a numeral.
pub bit_and-half :
    (a b h r : ℕ) → b / 2 ≡ h → b % 2 ≡ r → bit_and a b ≡ bit_and (a / 2) h * 2 + min (a % 2) r
bit_and-half a b h r e f = rw (← e) (rw (← f) (bit_and-halves a b))
