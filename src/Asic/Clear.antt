-- ===== src/Asic/Clear.antt =====
-- Clearing events in asic.c: a line is cleared once none of its events is left.
use lxdream.Base.{
  ℕ, ◌+◌, ◌%◌, ◌≤◌, ◌<◌, ◌≡◌, refl, ◌∙◌, inl, inr, Bool, true, false, ◌&&◌, arith, leb, ◌==◌,
  if◌then◌else◌, any_set, Bool-cases, bit_and, bit_or, has,
}
use lxdream.Base.Masks.{
  bit_or-le_left, bit_or-le_right, bit_or_zeros, bit_and-le, bit_and-le_right, any_set-cleared,
}
use lxdream.Machine.{Machine, Intc, Region, poke}
use lxdream.Asic.{
  pirq0, irqa0, irqb0, irqc0, int_irq13, int_irq11, int_irq9, write_asic, clear_unless, word_offset,
  event_bit, active, line_set, asic_check_cleared_events, asic_clear_event, clear_cascade,
  complement,
}
use lxdream.Intc.{intc_clear_interrupt}
use lxdream.Intc.Frame
use lxdream.Asic.Flag.{event_bit_lem}
use lxdream.Asic.Events.{is_pending}
use lxdream.Asic.Access.{write_pirq0, write_pirq2}
use lxdream.Asic.Lines.{IsRouted, steps-IsRound, clear_unless-IsStep}

-- Registers of which the events may have been cleared, but the masks are the same.
pub record IsReduced (regs regs' : Region) : Type 0 where
  pub events : (a n : ℕ) → bit_and (regs' a) n ≤ bit_and (regs a) n
  pub masks : (a : ℕ) → irqa0 ≤ a → regs' a ≡ regs a

pub same-IsReduced : (regs : Region) → IsReduced regs regs
same-IsReduced regs = record { events = λ a n. omega arith; masks = λ a h. refl }

trans-IsReduced : (r r1 r2 : Region) → IsReduced r r1 → IsReduced r1 r2 → IsReduced r r2
trans-IsReduced r r1 r2 h k = record {
  events = λ a n. omega (arith, h.events a n, k.events a n);
  masks = λ a l. k.masks a l ∙ h.masks a l;
}

pub poke-IsReduced :
    (regs : Region) (reg c : ℕ)
    → reg < irqa0
    → IsReduced regs (poke regs reg (bit_and (regs reg) c))
poke-IsReduced regs reg c l = record {
  events = λ a n. elim (Bool-cases (a == reg)) [
    | inl y ↦ let at : a ≡ reg = ground arith in rw (y, at) (bit_and-le (regs reg) c n)
    | inr f ↦ rw f (omega arith)
  ];
  masks = λ a h. ground arith;
}

active-IsReduced :
    (mask0 : ℕ) (regs regs' : Region)
    → irqa0 ≤ mask0
    → IsReduced regs regs'
    → active mask0 regs' ≡ true
    → active mask0 regs ≡ true
unfolding line_set
active-IsReduced mask0 regs regs' l r h =
    let x = bit_and (regs pirq0) (regs mask0) in
    let y = bit_and (regs (pirq0 + 4)) (regs (mask0 + 4)) in
    let z = bit_and (regs (pirq0 + 8)) (regs (mask0 + 8)) in
    let x' = bit_and (regs' pirq0) (regs' mask0) in
    let y' = bit_and (regs' (pirq0 + 4)) (regs' (mask0 + 4)) in
    let z' = bit_and (regs' (pirq0 + 8)) (regs' (mask0 + 8)) in
    let lx : x' ≤ x = rw (r.masks mask0 l) (r.events pirq0 (regs mask0)) in
    let ly : y' ≤ y =
      rw (r.masks (mask0 + 4) (omega arith)) (r.events (pirq0 + 4) (regs (mask0 + 4))) in
    let lz : z' ≤ z =
      rw (r.masks (mask0 + 8) (omega arith)) (r.events (pirq0 + 8) (regs (mask0 + 8))) in
    ground (
      arith,
      bit_or-le_left (bit_or x y) z,
      bit_or-le_right (bit_or x y) z,
      bit_or-le_left x y,
      bit_or-le_right x y,
      bit_or_zeros (bit_or x' y') z',
      bit_or_zeros x' y',
    )

-- Once events were cleared, `asic_check_cleared_events` clears the lines that have none left.
cleared-IsRouted :
    (m0 m : Machine)
    → IsRouted m0
    → m.intc ≡ m0.intc
    → IsReduced m0.mmio.asic m.mmio.asic
    → IsRouted (asic_check_cleared_events m)
unfolding asic_check_cleared_events
cleared-IsRouted m0 m w same r =
    let regs = m.mmio.asic in
    let a =
      clear_unless-IsStep int_irq13 m (omega arith) (rw same w.pending) (rw same w.enabled)
        (active irqa0 regs) in
    let m1 = clear_unless (active irqa0 regs) int_irq13 m in
    let b =
      clear_unless-IsStep int_irq11 m1 (omega arith) a.pending a.enabled (active irqb0 regs) in
    let m2 = clear_unless (active irqb0 regs) int_irq11 m1 in
    let c = clear_unless-IsStep int_irq9 m2 (omega arith) b.pending b.enabled (active irqc0 regs) in
    let m3 = clear_unless (active irqc0 regs) int_irq9 m2 in
    let s = steps-IsRound m m1 m2 m3 a b c in
    let e : m3.mmio ≡ m.mmio = s.regs in
    let line : (mask0 which : ℕ)
        → irqa0 ≤ mask0
        → has which m0.intc.pending ≡ active mask0 m0.mmio.asic
        → (active mask0 regs && has which m.intc.pending) ≡ active mask0 regs =
      λ mask0 which l h.
        rw (same, h) (ground (arith, active-IsReduced mask0 m0.mmio.asic regs l r)) in
    record {
      pending = s.pending;
      enabled = s.enabled;
      line13 = rw e (s.line13 ∙ line irqa0 int_irq13 (omega arith) w.line13);
      line11 = rw e (s.line11 ∙ line irqb0 int_irq11 (omega arith) w.line11);
      line9 = rw e (s.line9 ∙ line irqc0 int_irq9 (omega arith) w.line9);
    }

pub word_offset-le : (event : ℕ) → word_offset event ≤ 12
unfolding word_offset
word_offset-le event = omega (arith, bit_and-le_right event 0x60)

clear_cascade-IsReduced :
    (event : ℕ) (m : Machine)
    → IsReduced m.mmio.asic (clear_cascade event m).mmio.asic
      × ((clear_cascade event m).intc ≡ m.intc)
unfolding clear_cascade
clear_cascade-IsReduced event m = elim (Bool-cases (leb 64 event)) [
  | inl y ↦ rw y (poke-IsReduced m.mmio.asic pirq0 0x7fff_ffff (omega arith), refl)
  | inr n ↦ elim (Bool-cases (leb 32 event)) [
    | inl y ↦ rw (n, y) (poke-IsReduced m.mmio.asic pirq0 0xbfff_ffff (omega arith), refl)
    | inr f ↦ rw (n, f) (same-IsReduced m.mmio.asic, refl)
  ]
]

-- A step that is taken on a condition.
when-IsReduced :
    (b : Bool) (regs : Region) (i : Intc) (m1 m2 : Machine)
    → IsReduced regs m1.mmio.asic × (m1.intc ≡ i)
    → IsReduced regs m2.mmio.asic × (m2.intc ≡ i)
    → let m = if b then m2 else m1 in IsReduced regs m.mmio.asic × (m.intc ≡ i)
when-IsReduced true regs i m1 m2 h k = k
when-IsReduced false regs i m1 m2 h k = h

-- If each of the three lines is pending exactly while its masks let an event through, that stays so
-- when an event is cleared.
pub asic_clear_event-IsRouted :
    (event : ℕ) (m : Machine) → IsRouted m → IsRouted (asic_clear_event event m)
unfolding asic_clear_event
asic_clear_event-IsRouted event m w =
    let reg = pirq0 + word_offset event in
    let result = bit_and (m.mmio.asic reg) (complement (event_bit event)) in
    let m1 = write_asic reg result m in
    let a =
      poke-IsReduced m.mmio.asic reg (complement (event_bit event))
        (omega (arith, word_offset-le event)) in
    let (b, same) = clear_cascade-IsReduced event m1 in
    let (c, d) =
      when-IsReduced (result == 0) m.mmio.asic m.intc m1 (clear_cascade event m1) (a, refl)
        (trans-IsReduced m.mmio.asic m1.mmio.asic (clear_cascade event m1).mmio.asic a b, same) in
    cleared-IsRouted m (if result == 0 then clear_cascade event m1 else m1) w d c

pub write_pirq0-IsRouted : (val : ℕ) (m : Machine) → IsRouted m → IsRouted (write_pirq0 val m)
unfolding write_pirq0
write_pirq0-IsRouted val m w =
    let c = complement (bit_and val 0x3fff_ffff) in
    cleared-IsRouted m (write_asic pirq0 (bit_and (m.mmio.asic pirq0) c) m) w refl
      (poke-IsReduced m.mmio.asic pirq0 c (omega arith))

pub write_pirq2-IsRouted : (val : ℕ) (m : Machine) → IsRouted m → IsRouted (write_pirq2 val m)
unfolding write_pirq2
write_pirq2-IsRouted val m w =
    let reg = pirq0 + 8 in
    let left = bit_and (m.mmio.asic reg) (complement val) in
    let m1 = write_asic reg left m in
    let m2 = write_asic pirq0 (bit_and (m1.mmio.asic pirq0) 0x7fff_ffff) m1 in
    let a = poke-IsReduced m.mmio.asic reg (complement val) (omega arith) in
    let (c, d) =
      when-IsReduced (left == 0) m.mmio.asic m.intc m1 m2 (a, refl)
        (
          trans-IsReduced m.mmio.asic m1.mmio.asic m2.mmio.asic a
              (poke-IsReduced m1.mmio.asic pirq0 0x7fff_ffff (omega arith)),
          refl,
        ) in
    cleared-IsRouted m (if left == 0 then m2 else m1) w d c

clear_unless-mmio : (b : Bool) (which : ℕ) (m : Machine) → (clear_unless b which m).mmio ≡ m.mmio
unfolding clear_unless
clear_unless-mmio true which m = refl
clear_unless-mmio false which m =
    Frame.same_mmio (intc_clear_interrupt which m) m (Frame.intc_clear_interrupt-others which m)

check_cleared-mmio : (m : Machine) → (asic_check_cleared_events m).mmio ≡ m.mmio
unfolding asic_check_cleared_events
check_cleared-mmio m =
    let regs = m.mmio.asic in
    let m1 = clear_unless (active irqa0 regs) int_irq13 m in
    let m2 = clear_unless (active irqb0 regs) int_irq11 m1 in
    clear_unless-mmio (active irqc0 regs) int_irq9 m2
    ∙ clear_unless-mmio (active irqb0 regs) int_irq11 m1
    ∙ clear_unless-mmio (active irqa0 regs) int_irq13 m

word_cleared :
    (event x : ℕ) → any_set (bit_and x (complement (event_bit event))) (event_bit event) ≡ false
word_cleared event x = rw (event_bit_lem event) (any_set-cleared (event % 32) x (omega arith))

-- After it was cleared an event is not pending.
pub asic_clear_event-is_pending :
    (event : ℕ) (m : Machine) → is_pending event (asic_clear_event event m).mmio.asic ≡ false
unfolding asic_clear_event
asic_clear_event-is_pending event m =
    let reg = pirq0 + word_offset event in
    let result = bit_and (m.mmio.asic reg) (complement (event_bit event)) in
    let m1 = write_asic reg result m in
    let (b, same) = clear_cascade-IsReduced event m1 in
    let m2 = clear_cascade event m1 in
    let (c, d) =
      when-IsReduced (result == 0) m1.mmio.asic m.intc m1 m2 (same-IsReduced m1.mmio.asic, refl)
        (b, same) in
    let m3 = if result == 0 then m2 else m1 in
    let e : (asic_check_cleared_events m3).mmio ≡ m3.mmio = check_cleared-mmio m3 in
    rw e (ground (arith, c.events reg (event_bit event), word_cleared event (m.mmio.asic reg)))
