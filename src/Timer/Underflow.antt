-- ===== src/Timer/Underflow.antt =====
-- The underflow of a timer of sh4/timer.c: the flag, the interrupt, the reload and the next event.
use lxdream.Base.{
  ℕ, ◌+◌, ◌-◌, ◌*◌, ◌/◌, ◌%◌, ◌≤◌, ◌<◌, ◌≡◌, ◌≢◌, ◌∙◌, ap, true, some, arith, if◌then◌else◌,
  any_set, add32, sub32, u32_mod, bit_or,
}
use lxdream.Base.Bits.{set_of_bit_or}
use native.Mathlib.Nat.{div-le_self, mod-lt, mod-eq_of_lt}
use lxdream.Machine.{Machine, Intc, poke}
use lxdream.EventQueue.Frame as Queue
use lxdream.Intc.{int_tmu_tuni0, intc_raise_interrupt}
use lxdream.Intc.Frame
use lxdream.Timer.{
  tcr, tcnt, tcor, tcr_unf, tcr_unie, write_tmu, run_ns, duration, tmu_count, tmu_schedule_timer,
  underflow, event_tmu0,
}
use lxdream.Timer.Count.{
  due, IsCounting, IsPast, looked, count_passed, run_time, divides, passes, stays,
}

tmu_schedule_timer-others :
    (timer : ℕ) (m : Machine) → Queue.others (tmu_schedule_timer timer m) ≡ Queue.others m
unfolding tmu_schedule_timer
tmu_schedule_timer-others timer m =
    let d = duration (m.mmio.tmu (tcnt timer)) (m.timers timer) in
    Queue.event_schedule_long-others (event_tmu0 + timer) (d / 1_000_000_000 % u32_mod)
      (d % 1_000_000_000) m

-- `underflow` without its event.
abbrev raised : ℕ → ℕ → Machine → Machine
raised timer control m1 =
    if any_set control tcr_unie then intc_raise_interrupt (int_tmu_tuni0 + timer) m1 else m1

raised-others :
    (timer control : ℕ) (m : Machine) → Frame.others (raised timer control m) ≡ Frame.others m
raised-others timer control m =
    ground (arith, Frame.intc_raise_interrupt-others (int_tmu_tuni0 + timer) m)

unf_set : (x : ℕ) → any_set (bit_or x tcr_unf) tcr_unf ≡ true
unf_set x = ground (arith, set_of_bit_or 8 x)

-- TCNT after `ticks` ticks past 0, from TCOR.
abbrev reload : ℕ → ℕ → ℕ
reload reset ticks = add32 (sub32 reset (ticks % reset)) 1

module _ (timer count : ℕ) (m : Machine) where
  abbrev flagged : ℕ
  flagged = bit_or (m.mmio.tmu (tcr timer)) tcr_unf

  abbrev ticked : ℕ
  ticked = reload (m.mmio.tmu (tcor timer)) (sub32 count (m.mmio.tmu (tcnt timer)))

  underflow_lem :
      m.mmio.tmu (tcor timer) ≢ 0
      → let m' = tmu_schedule_timer timer (
          write_tmu (tcnt timer) ticked (raised timer flagged (write_tmu (tcr timer) flagged m))) in
        (underflow timer count m ≡ some m')
        × (m'.mmio.tmu ≡ poke (poke m.mmio.tmu (tcr timer) flagged) (tcnt timer) ticked)
        × (m'.timers ≡ m.timers)
        × (m'.intc ≡ (raised timer flagged (write_tmu (tcr timer) flagged m)).intc)
  unfolding underflow
  underflow_lem nz =
      let m1 = write_tmu (tcr timer) flagged m in
      let m2 = raised timer flagged m1 in
      let m3 = write_tmu (tcnt timer) ticked m2 in
      let m' = tmu_schedule_timer timer m3 in
      let e = tmu_schedule_timer-others timer m3 in
      let e2 = raised-others timer flagged m1 in
      let f : m2.mmio ≡ m1.mmio = Frame.same_mmio m2 m1 e2 in
      (
        ground arith,
        ap (λ r. r.tmu) (Queue.same_mmio m' m3 e) ∙ ap (λ r. poke r.tmu (tcnt timer) ticked) f,
        Queue.same_timers m' m3 e ∙ Frame.same_timers m2 m1 e2,
        Queue.same_intc m' m3 e,
      )

-- The counter that TCOR gives while fewer than TCOR ticks have passed 0.
reload_lem :
    (reset ticks : ℕ)
    → reset < u32_mod
    → 0 < ticks
    → ticks < reset
    → reload reset ticks ≡ reset - (ticks - 1)
unfolding add32 sub32
reload_lem reset ticks r t k = let e : ticks % reset ≡ ticks = mod-eq_of_lt k in rw e (omega arith)

-- How many ticks past 0 a timer is that is seen `late` after it was due.
ticks_late :
    (n p v : ℕ)
    → 0 < p
    → (v + 1) * p ≤ n
    → (r : ℕ) → n < (v + 1 + (r - 1)) * p
    → (0 < n / p - v) × (n / p - v < r) × (n < u32_mod → v < u32_mod → sub32 (n / p) v ≡ n / p - v)
unfolding sub32
ticks_late n p v h k r l =
    let a : v < n / p = passes n p v h k in
    let b : n / p ≤ v + (r - 1) = stays n p (v + (r - 1)) h (omega arith) in
    let c : n / p ≤ n = div-le_self n p in (omega arith, omega arith, λ x y. omega arith)

-- The next time comes a whole period of the counter after the last.
due_next :
    (now run rem p v r : ℕ)
    → 0 < p
    → rem < p
    → run ≤ now
    → let n = now + rem - run in
      v < n / p
      → n / p - v < r
      → now + (r - (n / p - v - 1) + 1) * p - n % p ≡ run + (v + 1) * p - rem + (r + 1) * p
due_next now run rem p v r h l k a b =
    let n = now + rem - run in
    let d = r - (n / p - v - 1) in
    let e : (d + n / p) * p ≡ (r + v + 1) * p = ap (λ x. x * p) (omega arith) in
    let e2 = divides n p h in let small : n % p < p = mod-lt n h in omega arith

-- Whether the control register asks for the interrupt at an underflow.
abbrev pub interrupted : ℕ → Machine → Machine → Intc
interrupted timer m m' =
    if any_set (m'.mmio.tmu (tcr timer)) tcr_unie
    then (intc_raise_interrupt (int_tmu_tuni0 + timer) m).intc
    else m.intc

-- A timer with a clock, looked at when it is due or later, but less than TCOR - 1 ticks later, with
-- TCNT, TCOR and the time within 32 bits: its underflow is flagged, its interrupt is raised if TCR
-- enables it, less than a tick is left over, and it is due again exactly TCOR + 1 ticks after it was
-- due before.
pub tmu_count-underflow :
    (timer now : ℕ) (m : Machine)
    → IsCounting timer m
    → IsPast timer now m
    → due timer m ≤ now
    → let r = m.mmio.tmu (tcor timer) in
      r < u32_mod
      → m.mmio.tmu (tcnt timer) < u32_mod
      → now < due timer m + (r - 1) * (m.timers timer).timer_period
      → (m' : Machine) × (tmu_count timer now m ≡ some m')
        × (due timer m' ≡ due timer m + (r + 1) * (m.timers timer).timer_period)
        × IsCounting timer m'
        × (any_set (m'.mmio.tmu (tcr timer)) tcr_unf ≡ true)
        × (m'.intc ≡ interrupted timer m m')
tmu_count-underflow timer now m w past late rf vf soon =
    let t = m.timers timer in
    let v = m.mmio.tmu (tcnt timer) in
    let r = m.mmio.tmu (tcor timer) in
    let p = t.timer_period in
    let n = run_ns now t in
    let left = w.left_over in
    let e : n ≡ now + t.timer_remainder - t.timer_run = run_time timer now m w past in
    let far : (v + 1) * p ≤ n = omega arith in
    let near : n < (v + 1 + (r - 1)) * p = omega arith in
    let (some_ticks, few, ticks) = ticks_late n p v w.clocked far r near in
    let ticks' = ticks (omega arith) vf in
    let positive : r ≢ 0 = omega arith in
    let (run, regs, timers, queue) = underflow_lem timer (n / p) (looked timer now m) positive in
    let value : reload r (sub32 (n / p) v) ≡ r - (n / p - v - 1) =
      rw ticks' (reload_lem r (n / p - v) rf some_ticks few) in
    let next = due_next now t.timer_run t.timer_remainder p v r w.clocked left past.0 in
    (
      _,
      count_passed timer now m (omega arith) (omega arith) ∙ run,
      rw (timers, regs) (ground (arith, value, next)),
      record {
        clocked = rw timers (ground (arith, w.clocked));
        left_over = rw timers (ground (arith, mod-lt n w.clocked));
      },
      rw regs (ground (arith, unf_set (m.mmio.tmu (tcr timer)))),
      queue
          ∙ rw regs (
              ground (
                arith,
                Frame.intc_raise_interrupt-intc (int_tmu_tuni0 + timer) m,
                Frame.intc_raise_interrupt-intc (int_tmu_tuni0 + timer) (
                    write_tmu (tcr timer) (flagged timer (n / p) (looked timer now m))
                      (looked timer now m)),
              )),
    )
