-- ===== src/Intc/Signal.antt =====
-- How sh4/intc.c tells the CPU of an interrupt: the bit PENDING_IRQ of `sh4r.event_types`, and
-- `sh4r.event_pending`, the time of the slice at which the CPU looks at that word.
use lxdream.Base.{
  ℕ, zero, suc, ◌≤◌, ◌<◌, ◌%◌, ◌≡◌, refl, ◌∙◌, ap, inl, inr, Bool, true, false, ◌&&◌, none, some,
  List, [], ◌∷◌, arith, ◌==◌, if◌then◌else◌, length, Bool-cases, Option-cases,
}
use lxdream.Base.Bits.{bit_or-mod_two, bit_and-mod_two}
use lxdream.Machine.{Machine, Cpu}
use lxdream.EventQueue.{event_get_next_time, pending_irq}
use lxdream.Intc.{
  after, accepts, insertion_point, insert_at, last_pending, remove_last, flag_irq, unflag_irq,
  intc_raise_interrupt, intc_mask_changed, intc_clear_interrupt, all_but_irq,
}

-- Whether the CPU has an interrupt to take.
abbrev pub deliverable : (ℕ → ℕ) → List ℕ → Cpu → Bool
deliverable pr ps c = elim (last_pending ps) [ none ↦ false | some p ↦ accepts c (pr p) ]

-- The bit PENDING_IRQ says whether there is an interrupt to take; if there is, the CPU looks at
-- once.
pub record IsFlagged (m : Machine) : Type 0 where
  pub flag :
      m.cpu.event_types % 2 ≡ (if deliverable m.intc.priority m.intc.pending m.cpu then 1 else 0)
  pub urgent : deliverable m.intc.priority m.intc.pending m.cpu ≡ true → m.cpu.event_pending ≡ 0

pub flag_irq-flag : (c : Cpu) → (flag_irq c).event_types % 2 ≡ 1
flag_irq-flag c = omega (arith, bit_or-mod_two c.event_types pending_irq)

pub unflag_irq-flag : (t : ℕ) (c : Cpu) → (unflag_irq t c).event_types % 2 ≡ 0
unflag_irq-flag t c = omega (arith, bit_and-mod_two c.event_types all_but_irq)

last_pending-insert_end : (a : ℕ) (xs : List ℕ) → last_pending (insert_at xs (length xs) a) ≡ some a
unfolding last_pending insert_at
last_pending-insert_end a [] = refl
last_pending-insert_end a (x ∷ xs) = ground (arith, last_pending-insert_end a xs)

last_pending-insert_within :
    (a i : ℕ) (xs : List ℕ) → i < length xs → last_pending (insert_at xs i a) ≡ last_pending xs
unfolding last_pending insert_at
last_pending-insert_within a i [] h = absurd (omega arith)
last_pending-insert_within a zero (x ∷ xs) h = ground arith
last_pending-insert_within a (suc i) (x ∷ xs) h = ground (arith, last_pending-insert_within a i xs)

insertion_point-le :
    (pr : ℕ → ℕ) (a i : ℕ) (xs : List ℕ) → insertion_point pr a xs ≡ some i → i ≤ length xs
unfolding insertion_point
insertion_point-le pr a i [] e = ground arith
insertion_point-le pr a zero (x ∷ xs) e = omega arith
insertion_point-le pr a (suc i) (x ∷ xs) e = ground (arith, insertion_point-le pr a i xs)

-- The source that goes to the end has at least the priority of the one that was there.
insertion_point-end :
    (pr : ℕ → ℕ) (a p : ℕ) (xs : List ℕ)
    → insertion_point pr a xs ≡ some (length xs)
    → last_pending xs ≡ some p
    → pr p ≤ pr a
unfolding insertion_point last_pending after
insertion_point-end pr a p [] e f = cc
insertion_point-end pr a p (x ∷ xs) e f = ground (arith, insertion_point-end pr a p xs)

taken_end :
    (pr : ℕ → ℕ) (a : ℕ) (xs : List ℕ) (c : Cpu)
    → insertion_point pr a xs ≡ some (length xs)
    → deliverable pr xs c ≡ true
    → accepts c (pr a) ≡ true
taken_end pr a xs c e h = elim (Option-cases (last_pending xs)) [
  | inl n ↦ ground arith
  | inr (p, f) ↦ ground (arith, insertion_point-end pr a p xs e f)
]

-- What the loop and the CPU's part of `intc_raise_interrupt` come to on each branch.
raise_ignored :
    (which : ℕ) (m : Machine) → m.intc.priority which ≡ 0 → intc_raise_interrupt which m ≡ m
unfolding intc_raise_interrupt
raise_ignored which m h = rw h refl

raise_known :
    (which : ℕ) (m : Machine)
    → insertion_point m.intc.priority which m.intc.pending ≡ none
    → intc_raise_interrupt which m ≡ m
unfolding intc_raise_interrupt
raise_known which m h = ground arith

pub inserted : ℕ → ℕ → Machine → Machine
inserted which i m = record m {
  intc = record (m.intc) { pending = insert_at m.intc.pending i which };
  cpu =
      if i == length m.intc.pending && accepts m.cpu (m.intc.priority which)
      then flag_irq m.cpu
      else m.cpu;
}

raise_inserted :
    (which i : ℕ) (m : Machine)
    → insertion_point m.intc.priority which m.intc.pending ≡ some i
    → (m.intc.priority which == 0) ≡ false
    → intc_raise_interrupt which m ≡ inserted which i m
unfolding intc_raise_interrupt inserted
raise_inserted which i m h n = rw n (rw h refl)

inserted-IsFlagged :
    (which i : ℕ) (m : Machine)
    → insertion_point m.intc.priority which m.intc.pending ≡ some i
    → IsFlagged m
    → IsFlagged (inserted which i m)
unfolding inserted
inserted-IsFlagged which i m h w = elim (Bool-cases (i == length m.intc.pending)) [
  | inl y ↦
      let at : i ≡ length m.intc.pending = ground arith in
      let f = w.flag in
      let u = w.urgent in
      record {
        flag = ground (
          arith,
          last_pending-insert_end which m.intc.pending,
          flag_irq-flag m.cpu,
          taken_end m.intc.priority which m.intc.pending m.cpu (h ∙ ap some at),
        );
        urgent = ground (arith, last_pending-insert_end which m.intc.pending);
      }
  | inr n ↦
      let e =
        last_pending-insert_within which i m.intc.pending
          (ground (arith, insertion_point-le m.intc.priority which i m.intc.pending h)) in
      let f = w.flag in
      let u = w.urgent in record { flag = ground (arith); urgent = ground (arith) }
]

-- If PENDING_IRQ is set exactly while the CPU has an interrupt to take, and the CPU then looks at
-- once, that stays so when any interrupt is raised.
pub intc_raise_interrupt-IsFlagged :
    (which : ℕ) (m : Machine) → IsFlagged m → IsFlagged (intc_raise_interrupt which m)
intc_raise_interrupt-IsFlagged which m w = elim (Bool-cases (m.intc.priority which == 0)) [
  | inl y ↦ rw (raise_ignored which m (ground arith)) w
  | inr n ↦ elim (Option-cases (insertion_point m.intc.priority which m.intc.pending)) [
    | inl e ↦ rw (raise_known which m e) w
    | inr (i, e) ↦ rw (raise_inserted which i m e n) (inserted-IsFlagged which i m e w)
  ]
]

-- Whatever the state, `intc_mask_changed` sets PENDING_IRQ exactly if there is an interrupt to take;
-- then the CPU looks at once, and else at the time of the first event.
pub intc_mask_changed-IsFlagged :
    (m : Machine)
    → IsFlagged (intc_mask_changed m)
      × ((intc_mask_changed m).cpu.event_pending ≡ (
          if deliverable m.intc.priority m.intc.pending m.cpu
          then 0
          else event_get_next_time m.eventq))
unfolding intc_mask_changed
intc_mask_changed-IsFlagged m = (
  record {
    flag =
        ground (arith, flag_irq-flag m.cpu, unflag_irq-flag (event_get_next_time m.eventq) m.cpu);
    urgent = ground arith;
  },
  ground arith,
)

clear_absent :
    (which : ℕ) (m : Machine)
    → remove_last which m.intc.pending ≡ none
    → intc_clear_interrupt which m ≡ m
unfolding intc_clear_interrupt
clear_absent which m e = ground arith

clear_present :
    (which : ℕ) (m : Machine) (ps : List ℕ)
    → remove_last which m.intc.pending ≡ some ps
    → intc_clear_interrupt which m
      ≡ intc_mask_changed (record m { intc = record (m.intc) { pending = ps } })
unfolding intc_clear_interrupt
clear_present which m ps e = ground arith

-- If PENDING_IRQ is set exactly while the CPU has an interrupt to take, and the CPU then looks at
-- once, that stays so when any interrupt is cleared.
pub intc_clear_interrupt-IsFlagged :
    (which : ℕ) (m : Machine) → IsFlagged m → IsFlagged (intc_clear_interrupt which m)
intc_clear_interrupt-IsFlagged which m w = elim (Option-cases (remove_last which m.intc.pending)) [
  | inl e ↦ rw (clear_absent which m e) w
  | inr (ps, e) ↦
      rw (clear_present which m ps e)
        ((intc_mask_changed-IsFlagged (record m { intc = record (m.intc) { pending = ps } })).0)
]
