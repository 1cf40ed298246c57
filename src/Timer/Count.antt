-- ===== src/Timer/Count.antt =====
-- TMU_count of sh4/timer.c: the time at which a timer underflows, and what a look at the timer
-- does before and after it.
use lxdream.Base.{
  ℕ, ◌+◌, ◌-◌, ◌*◌, ◌/◌, ◌%◌, ◌≤◌, ◌<◌, ◌≡◌, ◌≢◌, refl, ap, some, arith, add32, sub32, u32_mod,
}
use native.Mathlib.Nat.{
  le-div_iff_mul-le, div-lt_iff_lt-mul, mod-lt, mul-div-le, mod-eq-sub-mul-div,
}
use lxdream.Machine.{Machine}
use lxdream.Timer.{tcr, tcnt, write_tmu, set_timer, run_ns, tmu_count, underflow}

-- The time in the current slice at which the timer underflows: the counter has to pass 0.
abbrev pub due : ℕ → Machine → ℕ
due timer m =
    let t = m.timers timer in
    t.timer_run + (m.mmio.tmu (tcnt timer) + 1) * t.timer_period - t.timer_remainder

-- A timer with a clock, which has less than a tick left over.
pub record IsCounting (timer : ℕ) (m : Machine) : Type 0 where
  pub clocked : 0 < (m.timers timer).timer_period
  pub left_over : (m.timers timer).timer_remainder < (m.timers timer).timer_period

-- The last look at the timer was not after `now`, and 32 bits hold the time since.
abbrev pub IsPast : ℕ → ℕ → Machine → Type 0
IsPast timer now m =
    ((m.timers timer).timer_run ≤ now) × (now + (m.timers timer).timer_remainder < u32_mod)

pub divides : (n p : ℕ) → 0 < p → n ≡ p * (n / p) + n % p
divides n p h = omega (arith, mod-eq-sub-mul-div n p, mul-div-le p n)

-- The quotient passes `v` when the number passes `v + 1` times the divisor.
pub passes : (n p v : ℕ) → 0 < p → (v + 1) * p ≤ n → v < n / p
passes n p v h k = let x = (le-div_iff_mul-le {x = v + 1} {y = n} h).1 k in omega arith

pub stays : (n p v : ℕ) → 0 < p → n < (v + 1) * p → n / p ≤ v
stays n p v h k = let x = (div-lt_iff_lt-mul {x = n} {y = v + 1} h).1 k in omega arith

-- The time to the underflow after `c` of `v` ticks.
due_kept :
    (now run rem p v : ℕ)
    → 0 < p
    → rem < p
    → run ≤ now
    → let n = now + rem - run in
      n / p ≤ v → now + (v - n / p + 1) * p - n % p ≡ run + (v + 1) * p - rem
due_kept now run rem p v h r k c =
    let n = now + rem - run in
    let d = v - n / p in
    let e : v * p ≡ (d + n / p) * p = ap (λ x. x * p) (omega arith) in
    let e2 = divides n p h in let small : n % p < p = mod-lt n h in omega arith

module _ (timer now : ℕ) (m : Machine) where
  abbrev pub looked : Machine
  looked =
      let t = m.timers timer in
      set_timer timer
        (record t { timer_remainder = run_ns now t % t.timer_period; timer_run = now }) m

  count_kept :
      (m.timers timer).timer_period ≢ 0
      → run_ns now (m.timers timer) / (m.timers timer).timer_period ≤ m.mmio.tmu (tcnt timer)
      → tmu_count timer now m
        ≡ some (
            write_tmu
              (tcnt timer)
              (m.mmio.tmu (tcnt timer)
                - run_ns now (m.timers timer) / (m.timers timer).timer_period)
              looked)
  unfolding tmu_count
  count_kept p h = ground arith

  pub count_passed :
      (m.timers timer).timer_period ≢ 0
      → m.mmio.tmu (tcnt timer) < run_ns now (m.timers timer) / (m.timers timer).timer_period
      → tmu_count timer now m
        ≡ underflow timer (run_ns now (m.timers timer) / (m.timers timer).timer_period) looked
  unfolding tmu_count
  count_passed p h = ground arith

  pub run_time :
      IsCounting timer m
      → IsPast timer now m
      → run_ns now (m.timers timer)
        ≡ now + (m.timers timer).timer_remainder - (m.timers timer).timer_run
  unfolding add32 sub32
  run_time w past = let c = w.left_over in omega arith

  -- A look, before it is due, at a timer with a clock, in the slice of the last look and with the
  -- time within 32 bits, leaves the time at which the timer is due, the control register, the events
  -- and the interrupts, and keeps less than a tick left over.
  pub tmu_count-due :
      IsCounting timer m
      → IsPast timer now m
      → now < due timer m
      → (m' : Machine) × (tmu_count timer now m ≡ some m')
        × (due timer m' ≡ due timer m)
        × IsCounting timer m'
        × ((m'.timers timer).timer_run ≡ now)
        × (m'.mmio.tmu (tcr timer) ≡ m.mmio.tmu (tcr timer))
        × (m'.eventq ≡ m.eventq)
        × (m'.intc ≡ m.intc)
  tmu_count-due w past early =
      let t = m.timers timer in
      let v = m.mmio.tmu (tcnt timer) in
      let left = w.left_over in
      let e : run_ns now t ≡ now + t.timer_remainder - t.timer_run = run_time w past in
      let few : run_ns now t / t.timer_period ≤ v =
        stays (run_ns now t) t.timer_period v w.clocked (omega arith) in
      let m' = write_tmu (tcnt timer) (v - run_ns now t / t.timer_period) looked in
      let same : due timer m' ≡ due timer m = ground (
        arith,
        due_kept now t.timer_run t.timer_remainder t.timer_period v w.clocked left past.0,
      ) in
      (
        m',
        count_kept (ground (arith, w.clocked)) few,
        same,
        record {
          clocked = ground (arith, w.clocked);
          left_over = ground (arith, mod-lt (run_ns now t) w.clocked);
        },
        ground arith,
        ground arith,
        refl,
        refl,
      )
