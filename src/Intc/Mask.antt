-- ===== src/Intc/Mask.antt =====
-- When sh4/intc.c tells the CPU of an interrupt, by the fields of SR and the priorities of all
-- sources that are pending.
use lxdream.Base.{
  ℕ, ◌+◌, ◌*◌, ◌≤◌, ◌/◌, ◌%◌, ◌^◌, ◌≡◌, refl, ◌∙◌, inl, inr, Bool, true, false, ◌&&◌, ◌||◌, List,
  [], ◌∷◌, arith, ltb, bit_and, ◌==◌, if◌then◌else◌, Option-cases,
}
use lxdream.Base.Bits.{bit, bit-lt-two, bit_and-halves, bit_and-zero}
use lxdream.Base.Masks.{any_set-pow}
use lxdream.Machine.{Machine, Cpu}
use lxdream.EventQueue.{event_get_next_time}
use lxdream.Intc.{after, accepts, last_pending, intc_mask_changed}
use lxdream.Intc.Order.{IsOrdered, AllBefore-has, last_pending-has, last_pending-none}
use lxdream.Intc.Delivery.{IsPending}
use lxdream.Intc.Signal.{deliverable, flag_irq-flag, unflag_irq-flag, intc_mask_changed-IsFlagged}

-- Whether the CPU would take an interrupt of this priority: SR.BL, the bit 28, is clear, and the
-- field IMASK, the bits 4 to 7, is below the priority.
abbrev pub takes : Cpu → ℕ → Bool
takes c priority = bit 28 c.sr == 0 && ltb (c.sr / 2 ^ 4 % 2 ^ 4) priority

abbrev pub takes_any : Cpu → (ℕ → ℕ) → List ℕ → Bool
takes_any c priority [] = false
takes_any c priority (p ∷ ps) = takes c (priority p) || takes_any c priority ps

bit_and-even : (x k : ℕ) → bit_and x (k * 2) ≡ bit_and (x / 2) k * 2
bit_and-even x k =
    let e : k * 2 / 2 ≡ k = omega arith in
    let z : k * 2 % 2 ≡ 0 = omega arith in bit_and-halves x (k * 2) ∙ rw (e, z) (omega arith)

bit_and-odd : (x k : ℕ) → bit_and x (k * 2 + 1) ≡ bit_and (x / 2) k * 2 + x % 2
bit_and-odd x k =
    let e : (k * 2 + 1) / 2 ≡ k = omega arith in
    let z : (k * 2 + 1) % 2 ≡ 1 = omega arith in
    bit_and-halves x (k * 2 + 1) ∙ rw (e, z) (omega arith)

low_bits : (y : ℕ) → bit_and y 0xf ≡ y % 2 ^ 4
low_bits y =
    let a = bit_and-odd y 0x7 in
    let b = bit_and-odd (y / 2) 0x3 in
    let c = bit_and-odd (y / 2 / 2) 0x1 in
    let d = bit_and-odd (y / 2 / 2 / 2) 0x0 in
    let e = bit_and-zero (y / 2 / 2 / 2 / 2) in omega arith

intmask_lem : (x : ℕ) → bit_and x 0xf0 / 2 ^ 4 ≡ x / 2 ^ 4 % 2 ^ 4
intmask_lem x =
    let a = bit_and-even x 0x78 in
    let b = bit_and-even (x / 2) 0x3c in
    let c = bit_and-even (x / 2 / 2) 0x1e in
    let d = bit_and-even (x / 2 / 2 / 2) 0xf in let e = low_bits (x / 2 / 2 / 2 / 2) in omega arith

accepts-takes : (c : Cpu) (priority : ℕ) → accepts c priority ≡ takes c priority
accepts-takes c priority =
    rw (intmask_lem c.sr) (ground (arith, any_set-pow 28 c.sr, bit-lt-two 28 c.sr))

after-le : (pr : ℕ → ℕ) (a b : ℕ) → after pr a b ≡ true → pr a ≤ pr b
unfolding after
after-le pr a b h = ground arith

takes_more : (c : Cpu) (p q : ℕ) → p ≤ q → takes c p ≡ true → takes c q ≡ true
takes_more c p q l h = ground (arith, h)

-- On an ordered queue the last source is taken if any is.
deliverable-any :
    (pr : ℕ → ℕ) (ps : List ℕ) (c : Cpu) → IsOrdered pr ps → deliverable pr ps c ≡ takes_any c pr ps
unfolding last_pending
deliverable-any pr [] c o = refl
deliverable-any pr (x ∷ xs) c o = elim (Option-cases (last_pending xs)) [
  | inl n ↦
      let last : xs ≡ [] = last_pending-none xs n in
      rw (n, deliverable) (accepts-takes c (pr x) ∙ rw last (ground arith))
  | inr (q, e) ↦
      let ahead = after-le pr x q (AllBefore-has pr x q xs o.0 (last_pending-has q xs e)) in
      let rest = deliverable-any pr xs c o.1 in
      ground (arith, e, rest, accepts-takes c (pr q), takes_more c (pr x) (pr q) ahead)
]

-- On a well-formed queue `intc_mask_changed` sets PENDING_IRQ exactly if the CPU would take an
-- interrupt of some source that is pending: SR.BL is clear and SR.IMASK is below that source's
-- priority. Then the CPU looks at once, and else at the time of the first event.
pub intc_mask_changed-any :
    (m : Machine)
    → IsPending m.intc
    → let any = takes_any m.cpu m.intc.priority m.intc.pending in
      let m' = intc_mask_changed m in
      (m'.cpu.event_types % 2 ≡ (if any then 1 else 0))
      × (m'.cpu.event_pending ≡ (if any then 0 else event_get_next_time m.eventq))
unfolding intc_mask_changed
intc_mask_changed-any m w =
    let e = deliverable-any m.intc.priority m.intc.pending m.cpu w.ordered in
    let (f, t) = intc_mask_changed-IsFlagged m in
    (
      ground (arith, e, flag_irq-flag m.cpu, unflag_irq-flag (event_get_next_time m.eventq) m.cpu),
      t ∙ rw e refl,
    )
