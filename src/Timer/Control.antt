-- ===== src/Timer/Control.antt =====
-- The control register TCR of a timer of sh4/timer.c.
use lxdream.Base.{
  ℕ, ◌+◌, ◌*◌, ◌/◌, ◌%◌, ◌^◌, ◌≤◌, ◌<◌, ◌≡◌, ◌≢◌, refl, inl, inr, true, false, ◌&&◌, some, arith,
  ◌==◌, any_set, Bool-cases, bit_and, has, get_or,
}
use lxdream.Base.Bits.{bit, bit_and-pow, bit_and-half, bit-lt-two, bit-bit_and}
use lxdream.Machine.{Machine, Clocks}
use lxdream.Intc.{int_tmu_tuni0, intc_raise_interrupt, intc_clear_interrupt}
use lxdream.Intc.Delivery.{
  IsPending, intc_clear_interrupt-IsPending, intc_raise_interrupt-IsPending,
}
use lxdream.Intc.Frame
use lxdream.Timer.{
  tmu_is_running, set_period, tcr, tcr_unf, tcr_unie, tcr_irq_active, all_but_unf,
  tmu_set_timer_control, change_period, update_interrupt, select_period, write_tmu,
}
use lxdream.Timer.Clock.{pfc_divider, set_frequencies, mmio_region_cpg_write, frqcr}

divider_bounds : (k : ℕ) → k < 8 → (2 ≤ get_or pfc_divider k 0) × (get_or pfc_divider k 0 ≤ 8)
divider_bounds k h = (grind arith, grind arith)

peripheral_bounds :
    (val : ℕ) (c : Clocks)
    → let p = (set_frequencies val c).peripheral_period in (10 ≤ p) × (p ≤ 40)
unfolding set_frequencies
peripheral_bounds val c =
    let (a, b) = divider_bounds (val % 8) (omega arith) in (omega arith, omega arith)

select_bounds :
    (control p : ℕ) (c : Clocks)
    → control % 8 ≢ 6
    → c.peripheral_period ≡ p
    → 10 ≤ p
    → p ≤ 40
    → (0 < select_period control c) × (select_period control c ≤ 40 * 2 ^ 12)
unfolding select_period
select_bounds control p c n e l u = (grind arith, grind arith)

-- Whatever is written to FRQCR, the period that TCR selects for a timer is then between 1 and
-- 163840 nanoseconds, unless TCR selects the output of the real-time clock.
pub mmio_region_cpg_write-clocked :
    (val control : ℕ) (m : Machine)
    → control % 8 ≢ 6
    → let c = (mmio_region_cpg_write frqcr val m).clocks in
      (0 < select_period control c) × (select_period control c ≤ 40 * 2 ^ 12)
unfolding mmio_region_cpg_write
mmio_region_cpg_write-clocked val control m n =
    let c = set_frequencies val m.clocks in
    let (l, u) = peripheral_bounds val m.clocks in
    select_bounds control c.peripheral_period c n refl l u

unf_masked : (x : ℕ) → any_set (bit_and x all_but_unf) tcr_unf ≡ false
unfolding bit
unf_masked x = ground (arith, bit_and-pow 8 (bit_and x all_but_unf), bit-bit_and 8 x all_but_unf)

-- The test of both bits at once.
active_lem : (x : ℕ) → bit_and x tcr_irq_active ≡ bit 8 x * 0x100 + bit 5 x * 0x20
unfolding bit
active_lem x = omega (
  arith,
  bit_and-half x 0x120 0x90 0 refl refl,
  bit_and-half (x / 2) 0x90 0x48 0 refl refl,
  bit_and-half (x / 2 / 2) 0x48 0x24 0 refl refl,
  bit_and-half (x / 2 / 2 / 2) 0x24 0x12 0 refl refl,
  bit_and-half (x / 2 / 2 / 2 / 2) 0x12 0x9 0 refl refl,
  bit_and-half (x / 2 / 2 / 2 / 2 / 2) 0x9 0x4 1 refl refl,
  bit_and-pow 2 (x / 2 / 2 / 2 / 2 / 2 / 2),
)

active_iff :
    (x : ℕ)
    → (bit_and x tcr_irq_active == tcr_irq_active) ≡ (any_set x tcr_unf && any_set x tcr_unie)
active_iff x =
    ground (arith, active_lem x, bit_and-pow 8 x, bit_and-pow 5 x, bit-lt-two 8 x, bit-lt-two 5 x)

-- The interrupt of a timer is pending only while TCR has both its flag and its enable bit.
abbrev pub IsCaused : ℕ → Machine → Type 0
IsCaused timer m =
    has (int_tmu_tuni0 + timer) m.intc.pending ≡ true
    → (any_set (m.mmio.tmu (tcr timer)) tcr_unf && any_set (m.mmio.tmu (tcr timer)) tcr_unie) ≡ true

change_stopped :
    (timer period : ℕ) (m : Machine)
    → tmu_is_running timer m ≡ false
    → (m' : Machine) × (change_period timer period m ≡ some m')
      × (m'.intc ≡ m.intc)
      × (m'.mmio ≡ m.mmio)
unfolding change_period
change_stopped timer period m h = elim (Bool-cases (period == (m.timers timer).timer_period)) [
  | inl y ↦ (m, ground arith, refl, refl)
  | inr n ↦ (set_period timer period m, ground arith, refl, refl)
]

module _ (timer val : ℕ) (m : Machine) (k : timer < 3) (w : IsPending m.intc) where
  -- The interrupt after a write to TCR whose flag was set.
  update_interrupt-IsCaused :
      any_set (m.mmio.tmu (tcr timer)) tcr_unf ≡ true
      → IsCaused timer m
      → let m' = update_interrupt timer val m in
        IsPending m'.intc
        × (m'.mmio ≡ m.mmio)
        × (has (int_tmu_tuni0 + timer) m'.intc.pending ≡ true
            → (any_set val tcr_unf && any_set val tcr_unie) ≡ true)
  unfolding update_interrupt
  update_interrupt-IsCaused flagged c =
      let which = int_tmu_tuni0 + timer in
      let (a1, b1, c1) = intc_raise_interrupt-IsPending which m (omega arith) w in
      let (a2, b2, c2) = intc_clear_interrupt-IsPending which m w in
      let f1 =
        Frame.same_mmio (intc_raise_interrupt which m) m
          (Frame.intc_raise_interrupt-others which m) in
      let f2 =
        Frame.same_mmio (intc_clear_interrupt which m) m
          (Frame.intc_clear_interrupt-others which m) in
      let a = active_iff val in (ground arith, ground arith, ground arith)

-- What a write to TCR does to a timer that stands still, by the flag of the old register.
module _ (timer val : ℕ) (m : Machine) (stopped : tmu_is_running timer m ≡ false) where
  control_flagged :
      any_set (m.mmio.tmu (tcr timer)) tcr_unf ≡ true
      → (m2 : Machine)
      → change_period timer
          (select_period val (update_interrupt timer val m).clocks)
          (update_interrupt timer val m)
        ≡ some m2
      → tmu_set_timer_control timer val m ≡ some (write_tmu (tcr timer) val m2)
  unfolding tmu_set_timer_control
  control_flagged f m2 e = ground arith

  control_clear :
      any_set (m.mmio.tmu (tcr timer)) tcr_unf ≡ false
      → (m2 : Machine)
      → change_period timer (select_period (bit_and val all_but_unf) m.clocks) m ≡ some m2
      → tmu_set_timer_control timer val m
        ≡ some (write_tmu (tcr timer) (bit_and val all_but_unf) m2)
  unfolding tmu_set_timer_control
  control_clear f m2 e = ground arith

  -- On a well-formed queue of interrupts, in which the timer's interrupt is pending only with its
  -- flag and its enable bit, writing TCR of a timer that stands still succeeds, keeps both, and
  -- leaves the underflow flag set only if it was set and is written as set.
  pub tmu_set_timer_control-IsCaused :
      timer < 3
      → IsPending m.intc
      → IsCaused timer m
      → (m' : Machine) × (tmu_set_timer_control timer val m ≡ some m')
        × IsPending m'.intc
        × IsCaused timer m'
        × (any_set (m'.mmio.tmu (tcr timer)) tcr_unf
            ≡ (any_set (m.mmio.tmu (tcr timer)) tcr_unf && any_set val tcr_unf))
  tmu_set_timer_control-IsCaused k w c =
      elim (Bool-cases (any_set (m.mmio.tmu (tcr timer)) tcr_unf)) [
        | inl y ↦
            let m1 = update_interrupt timer val m in
            let (ok, regs, cause) = update_interrupt-IsCaused timer val m k w y c in
            let (m2, run, same, same2) =
              change_stopped timer (select_period val m1.clocks) m1 (rw regs stopped) in
            (
              write_tmu (tcr timer) val m2,
              control_flagged y m2 run,
              rw same ok,
              rw same (ground (arith, cause)),
              ground arith,
            )
        | inr n ↦
            let control = bit_and val all_but_unf in
            let (m2, run, same, same2) =
              change_stopped timer (select_period control m.clocks) m stopped in
            (
              write_tmu (tcr timer) control m2,
              control_clear n m2 run,
              rw same w,
              rw same (ground (arith)),
              ground (arith, unf_masked val),
            )
      ]
