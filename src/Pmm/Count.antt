-- ===== src/Pmm/Count.antt =====
-- How far the counters of sh4/pmm.c keep up with the time.
use lxdream.Base.{
  ℕ, ◌+◌, ◌-◌, ◌*◌, ◌/◌, ◌^◌, ◌≤◌, ◌<◌, ◌≡◌, true, List, [], ◌∷◌, arith, ◌==◌, u32_mod, sub32,
  length,
}
use native.Mathlib.Nat.{mod-eq_of_lt}
use lxdream.Pmm.{PmmCounter, pmm_count, elapsed_time}

-- The counter after looks at these times, in this order.
unfoldable pub looked : List ℕ → PmmCounter → PmmCounter
looked [] c = c
looked (t ∷ ts) c = looked ts (pmm_count t c)

-- The times do not go back, and the last is `end`.
abbrev pub IsForward : ℕ → List ℕ → ℕ → Type 0
IsForward now [] end = now ≡ end
IsForward now (t ∷ ts) end = (now ≤ t) × IsForward t ts end

forward-le : (now : ℕ) (ts : List ℕ) (end : ℕ) → IsForward now ts end → now ≤ end
forward-le now [] end f = omega (arith, f)
forward-le now (t ∷ ts) end (l, f) = omega (arith, l, forward-le t ts end f)

counted :
    (t : ℕ) (c : PmmCounter)
    → c.mode ≡ elapsed_time
    → c.runfor ≤ t
    → t < u32_mod
    → c.count + t < 2 ^ 64 + c.runfor
    → (pmm_count t c).count ≡ c.count + (t - c.runfor) / 5
unfolding pmm_count sub32
counted t c m l b k =
    let d : sub32 t c.runfor ≡ t - c.runfor = omega arith in
    let y : (c.mode == elapsed_time) ≡ true = ground arith in rw (y, d) (mod-eq_of_lt (omega arith))

-- A counter of the elapsed time that is looked at several times in a slice counts at most one for
-- each 5 nanoseconds, and loses less than one for each look; it is not near its end of 64 bits.
pub looked-bounds :
    (ts : List ℕ) (end : ℕ) (c : PmmCounter)
    → c.mode ≡ elapsed_time
    → IsForward c.runfor ts end
    → end < u32_mod
    → c.count + end < 2 ^ 64 + c.runfor
    → (c.count * 5 ≤ (looked ts c).count * 5)
      × ((looked ts c).count * 5 + c.runfor ≤ c.count * 5 + end)
      × (c.count * 5 + end ≤ (looked ts c).count * 5 + length ts * 4 + c.runfor)
unfolding looked pmm_count
looked-bounds [] end c m f e k = (omega arith, omega (arith, f), omega (arith, f))
looked-bounds (t ∷ ts) end c m (l, f) e k =
    let b = forward-le t ts end f in
    let n = counted t c m l (omega arith) (omega arith) in
    let (x, y, z) = looked-bounds ts end (pmm_count t c) m f e (omega arith) in
    (omega arith, omega arith, omega arith)
