-- ===== src/Scif/Ticks.antt =====
-- How many ticks SCIF_run_to of sh4/scif.c makes, and what they send to the device.
use lxdream.Base.{
  ℕ, zero, suc, ◌-◌, ◌*◌, ◌/◌, ◌%◌, ◌≤◌, ◌<◌, ◌≡◌, refl, ◌∙◌, ap, true, some, arith, leb, u32_mod,
  add32, sub32,
}
use native.Mathlib.Nat.{div-mul-le_self, div-add-mod', mod-lt}
use lxdream.Scif.{Scif}
use lxdream.Scif.Clock.{scif_clock_tick, run_ticks, advance, scif_run_to}
use lxdream.Scif.Frame.{scif_clock_tick-settings}

abbrev pub spend : Scif → Scif
spend s = record s { tick_remainder = s.tick_remainder - s.tick_period }

-- The given number of ticks, each of which spends a period.
unfoldable pub ticks : ℕ → Scif → Scif
ticks zero s = s
ticks (suc n) s = ticks n (scif_clock_tick (spend s))

tick_period_lem : (s : Scif) → (scif_clock_tick s).tick_period ≡ s.tick_period
tick_period_lem s = ap (λ p. p.0) (scif_clock_tick-settings s)

tick_remainder_lem : (s : Scif) → (scif_clock_tick s).tick_remainder ≡ s.tick_remainder
tick_remainder_lem s = ap (λ p. p.1) (scif_clock_tick-settings s)

ticks-remainder :
    (n : ℕ) (s : Scif)
    → n * s.tick_period ≤ s.tick_remainder
    → (ticks n s).tick_remainder ≡ s.tick_remainder - n * s.tick_period
unfolding ticks
ticks-remainder zero s l = omega arith
ticks-remainder (suc n) s l =
    let p = tick_period_lem (spend s) in
    let r = tick_remainder_lem (spend s) in
    let q = ap (λ x. n * x) p in
    omega (arith, p, r, q, ticks-remainder n (scif_clock_tick (spend s)) (omega (arith, q)))

run_ticks-step :
    (fuel : ℕ) (s : Scif)
    → s.tick_remainder < u32_mod
    → s.tick_period ≤ s.tick_remainder
    → run_ticks (suc fuel) s ≡ run_ticks fuel (scif_clock_tick (spend s))
unfolding run_ticks sub32
run_ticks-step fuel s b l =
    let t : leb s.tick_period s.tick_remainder ≡ true = ground arith in
    let e : sub32 s.tick_remainder s.tick_period ≡ s.tick_remainder - s.tick_period = omega arith in
    rw (t, e) refl

run_ticks-stop :
    (fuel : ℕ) (s : Scif) → s.tick_remainder < s.tick_period → run_ticks (suc fuel) s ≡ some s
unfolding run_ticks
run_ticks-stop fuel s l = ground arith

pub run_ticks-count :
    (n fuel : ℕ) (s : Scif)
    → s.tick_remainder < u32_mod
    → n < fuel
    → n * s.tick_period ≤ s.tick_remainder
    → s.tick_remainder < suc n * s.tick_period
    → run_ticks fuel s ≡ some (ticks n s)
unfolding ticks
run_ticks-count n zero s b f l u = ground arith
run_ticks-count zero (suc fuel) s b f l u = run_ticks-stop fuel s (omega arith)
run_ticks-count (suc n) (suc fuel) s b f l u =
    let p = tick_period_lem (spend s) in
    let r = tick_remainder_lem (spend s) in
    let q = ap (λ x. n * x) p in
    run_ticks-step fuel s b (omega arith)
    ∙ run_ticks-count n fuel (scif_clock_tick (spend s)) (omega arith) (omega arith) (omega arith)
        (omega arith)

mul_pos : (n p : ℕ) → 0 < p → n ≤ n * p
mul_pos zero p h = omega arith
mul_pos (suc n) p h = omega (arith, mul_pos n p h)

add32-lt : (a b : ℕ) → add32 a b < u32_mod
unfolding add32
add32-lt a b = omega arith

pub scif_run_to-count :
    (n nanosecs : ℕ) (s : Scif)
    → 0 < s.tick_period
    → n * s.tick_period ≤ (advance nanosecs s).tick_remainder
    → (advance nanosecs s).tick_remainder < suc n * s.tick_period
    → scif_run_to nanosecs s
      ≡ some (record (ticks n (advance nanosecs s)) { slice_cycle = nanosecs })
unfolding scif_run_to
scif_run_to-count n nanosecs s p l u =
    let s' = advance nanosecs s in
    let enough : n ≤ n * s.tick_period = mul_pos n s.tick_period p in
    let bound = add32-lt s.tick_remainder (sub32 nanosecs s.slice_cycle) in
    let e : run_ticks (suc s'.tick_remainder) s' ≡ some (ticks n s') =
      run_ticks-count n (suc s'.tick_remainder) s' bound (omega arith) l u in
    rw (e, scif_run_to) refl

-- If the period of a tick is not 0, `SCIF_run_to` ends. It makes a tick for each whole period of
-- the time that has come in, and keeps the rest, which is less than a period, for the next call.
pub scif_run_to-ends :
    (nanosecs : ℕ) (s : Scif)
    → 0 < s.tick_period
    → let n = (advance nanosecs s).tick_remainder / s.tick_period in
      let s' = record (ticks n (advance nanosecs s)) { slice_cycle = nanosecs } in
      (scif_run_to nanosecs s ≡ some s')
      × (s'.tick_remainder ≡ (advance nanosecs s).tick_remainder % s.tick_period)
      × (s'.tick_remainder < s.tick_period)
scif_run_to-ends nanosecs s p =
    let s' = advance nanosecs s in
    let rem = s'.tick_remainder in
    let n = rem / s.tick_period in
    let lower : n * s.tick_period ≤ rem = div-mul-le_self rem s.tick_period in
    let rest = div-add-mod' rem s.tick_period in
    let below = mod-lt rem p in
    let left = ticks-remainder n s' lower in
    (scif_run_to-count n nanosecs s p lower (omega arith), omega arith, omega arith)
