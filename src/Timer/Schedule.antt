-- ===== src/Timer/Schedule.antt =====
-- The event of a timer of sh4/timer.c: it comes when the timer is due.
use lxdream.Base.{
  subst, ◌/◌, ◌≤◌, ◌∷◌, ltb, sub32, true, false, if◌then◌else◌, Bool-cases, inl, inr, sym, ℕ, ◌+◌,
  ◌-◌, ◌*◌, ◌%◌, ◌^◌, ◌<◌, ◌≡◌, ◌≢◌, refl, ◌∙◌, arith, List, add32, u32_mod, erase,
}
use native.Mathlib.Nat.{div-eq_of_lt, mod-eq_of_lt}
use lxdream.Machine.{Machine, EventQueue}
use lxdream.EventQueue.{long_scan_period, event_schedule_long, event_schedule, not_scheduled}
use lxdream.EventQueue.Chain.{insert}
use lxdream.EventQueue.Invariant.{IsQueue}
use lxdream.EventQueue.Schedule.{event_schedule-IsQueue}
use lxdream.EventQueue.ScheduleLong.{event_schedule_long-IsQueue}
use lxdream.Timer.{tcnt, duration, tmu_schedule_timer, event_tmu0}
use lxdream.Timer.Count.{due, IsCounting, divides}

abbrev pub second : ℕ
second = 1_000_000_000

schedule_soon : (e ns : ℕ) (m : Machine) → event_schedule_long e 0 ns m ≡ event_schedule e ns m
unfolding event_schedule_long
schedule_soon e ns m = refl

duration_lem :
    (v p rem : ℕ)
    → rem < p
    → (v + 1) * p < 2 ^ 64
    → ((v + 1) * p + (2 ^ 64 - rem)) % 2 ^ 64 ≡ (v + 1) * p - rem
duration_lem v p rem l f = omega arith

scheduled_as :
    (timer d : ℕ) (m : Machine)
    → duration (m.mmio.tmu (tcnt timer)) (m.timers timer) ≡ d
    → d < second
    → tmu_schedule_timer timer m ≡ event_schedule (event_tmu0 + timer) d m
unfolding tmu_schedule_timer
scheduled_as timer d m e l =
    rw (e, div-eq_of_lt l, mod-eq_of_lt l) (schedule_soon (event_tmu0 + timer) d m)

same_time : (d now t : ℕ) → now + d ≡ t → t < u32_mod → add32 d now ≡ t
unfolding add32
same_time d now t e f = omega arith

-- A time within a second is scheduled as it is; a longer one by its whole seconds and the rest.
scheduled_in_seconds :
    (timer d : ℕ) (m : Machine)
    → duration (m.mmio.tmu (tcnt timer)) (m.timers timer) ≡ d
    → d / second < u32_mod
    → tmu_schedule_timer timer m
      ≡ event_schedule_long (event_tmu0 + timer) (d / second) (d % second) m
unfolding tmu_schedule_timer
scheduled_in_seconds timer d m e l = rw (e, mod-eq_of_lt l) refl

long_time_lem :
    (ns now left : ℕ)
    → left ≤ long_scan_period
    → ns + now + (long_scan_period - left) < not_scheduled
    → add32 (add32 ns now) (sub32 long_scan_period left) ≡ ns + now + (long_scan_period - left)
unfolding add32 sub32
long_time_lem ns now left h f = omega arith

not_zero : (d : ℕ) → ltb d second ≡ false → d / second ≢ 0
not_zero d h = let far : second ≤ d = ground (arith, h) in omega arith

module _ (timer : ℕ) (m : Machine) where
  -- How long the timer has to run.
  abbrev pub to_run : ℕ
  to_run = due timer m - m.cpu.slice_cycle

  -- The times of the long list count from the last scan of that list, those of the short list from
  -- the start of the slice.
  abbrev pub scanned : ℕ
  scanned = if ltb to_run second then 0 else long_scan_period - m.eventq.long_scan_time_remaining

  -- Both lists with the timer's event at its place.
  abbrev pub IsScheduled : List ℕ → List ℕ → EventQueue → Type 0
  IsScheduled short long q =
      let e = event_tmu0 + timer in
      IsQueue q (if ltb to_run second then insert q.events e (erase e short) else erase e short)
        (if ltb to_run second then erase e long else e ∷ erase e long)
      × ((q.events e).seconds * second + (q.events e).nanosecs ≡ due timer m + scanned)

  module _ (short long : List ℕ) (k : timer < 3) (i : IsQueue m.eventq short long) where
    schedule_soon-IsScheduled :
        ltb to_run second ≡ true
        → m.cpu.slice_cycle + to_run ≡ due timer m
        → due timer m < not_scheduled
        → IsScheduled short long (event_schedule (event_tmu0 + timer) to_run m).eventq
    schedule_soon-IsScheduled y e f =
        let at : add32 to_run m.cpu.slice_cycle ≡ due timer m =
          same_time to_run m.cpu.slice_cycle (due timer m) e (omega arith) in
        let timed : add32 to_run m.cpu.slice_cycle ≢ not_scheduled = rw at (omega arith) in
        let (a, b, c) =
          event_schedule-IsQueue (event_tmu0 + timer) to_run m short long (omega arith) timed i in
        rw y (a, rw (c, b, at) (omega arith))

    schedule_later-IsScheduled :
        ltb to_run second ≡ false
        → m.cpu.slice_cycle + to_run ≡ due timer m
        → m.eventq.long_scan_time_remaining ≤ long_scan_period
        → to_run % second + m.cpu.slice_cycle + scanned < not_scheduled
        → IsScheduled short long
            (event_schedule_long (event_tmu0 + timer) (to_run / second) (to_run % second) m).eventq
    schedule_later-IsScheduled y e l f =
        let q = m.eventq in
        let left = q.long_scan_time_remaining in
        let rest : scanned ≡ long_scan_period - left = rw y refl in
        let fits : to_run % second + m.cpu.slice_cycle + (long_scan_period - left) < not_scheduled =
          subst (λ x. to_run % second + m.cpu.slice_cycle + x < not_scheduled) rest f in
        let time = long_time_lem (to_run % second) m.cpu.slice_cycle left l fits in
        let seconds : to_run / second ≢ 0 = not_zero to_run y in
        let (a, b, c) =
          event_schedule_long-IsQueue (event_tmu0 + timer) (to_run / second) (to_run % second) m
            short long (omega arith) seconds (rw time (omega arith)) i in
        let parts = divides to_run second (omega arith) in rw y (a, rw (c, b, time) (omega arith))

-- On a queue in order, the event of a timer with a clock that was looked at now is scheduled for the
-- time at which the timer is due: within a second at its place in the short list, and later than
-- that in front of the long list, whose times count from the last scan of that list. The whole
-- seconds and the rest of the time are within the fields of an event. The queue stays in order.
pub tmu_schedule_timer-due :
    (timer : ℕ) (m : Machine) (short long : List ℕ)
    → timer < 3
    → IsCounting timer m
    → (m.timers timer).timer_period < u32_mod
    → (m.timers timer).timer_run ≡ m.cpu.slice_cycle
    → m.eventq.long_scan_time_remaining ≤ long_scan_period
    → to_run timer m / second < u32_mod
    → to_run timer m % second + m.cpu.slice_cycle + scanned timer m < not_scheduled
    → IsQueue m.eventq short long
    → IsScheduled timer m short long (tmu_schedule_timer timer m).eventq
tmu_schedule_timer-due timer m short long k w narrow now l fits time i =
    let t = m.timers timer in
    let v = m.mmio.tmu (tcnt timer) in
    let left = w.left_over in
    let d = (v + 1) * t.timer_period - t.timer_remainder in
    let same : to_run timer m ≡ d = omega arith in
    let e : m.cpu.slice_cycle + to_run timer m ≡ due timer m = omega arith in
    let parts = divides d second (omega arith) in
    let dur : duration v t ≡ to_run timer m =
      duration_lem v t.timer_period t.timer_remainder left (omega arith) ∙ sym same in
    elim (Bool-cases (ltb (to_run timer m) second)) [
      | inl y ↦
          let near : to_run timer m < second = ground (arith, y) in
          let whole : to_run timer m % second ≡ to_run timer m = mod-eq_of_lt near in
          let soon : scanned timer m ≡ 0 = rw y refl in
          rw (scheduled_as timer (to_run timer m) m dur near)
            (schedule_soon-IsScheduled timer m short long k i y e (omega arith))
      | inr n ↦
          rw (scheduled_in_seconds timer (to_run timer m) m dur fits)
            (schedule_later-IsScheduled timer m short long k i n e l time)
    ]
