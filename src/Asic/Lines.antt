-- ===== src/Asic/Lines.antt =====
-- The three interrupt lines of asic.c: each is pending in the interrupt controller exactly while
-- its masks let an event through.
use lxdream.Base.{ℕ, ◌<◌, ◌≡◌, ◌≢◌, refl, sym, ◌∙◌, ap, Bool, true, false, ◌&&◌, ◌||◌, arith, has}
use lxdream.Machine.{Machine, Intc}
use lxdream.Intc.{int_num_sources, intc_raise_interrupt, intc_clear_interrupt}
use lxdream.Intc.Delivery.{
  IsPending, intc_clear_interrupt-priority, intc_raise_interrupt-priority,
  intc_clear_interrupt-IsPending, intc_raise_interrupt-IsPending,
}
use lxdream.Intc.Frame
use lxdream.Asic.{
  irqa0, irqb0, irqc0, int_irq13, int_irq11, int_irq9, raise_if, clear_unless, raise_or_clear,
  active, asic_event_mask_changed,
}

-- The sources of the three lines can be delivered.
abbrev pub IsEnabled : Intc → Type 0
IsEnabled i = (i.priority int_irq13 ≢ 0) × (i.priority int_irq11 ≢ 0) × (i.priority int_irq9 ≢ 0)

-- What the three lines have pending.
abbrev pub lines : Intc → Bool × Bool × Bool
lines i = (has int_irq13 i.pending, has int_irq11 i.pending, has int_irq9 i.pending)

pub record IsRouted (m : Machine) : Type 0 where
  pub pending : IsPending m.intc
  pub enabled : IsEnabled m.intc
  pub line13 : has int_irq13 m.intc.pending ≡ active irqa0 m.mmio.asic
  pub line11 : has int_irq11 m.intc.pending ≡ active irqb0 m.mmio.asic
  pub line9 : has int_irq9 m.intc.pending ≡ active irqc0 m.mmio.asic

-- The parts of a state that a step of a line keeps, and what it makes of the sources.
pub record IsStep (which : ℕ) (on : Bool → Bool) (m m' : Machine) : Type 0 where
  pub pending : IsPending m'.intc
  pub enabled : IsEnabled m'.intc
  pub regs : m'.mmio ≡ m.mmio
  pub source : has which m'.intc.pending ≡ on (has which m.intc.pending)
  pub kept : (a : ℕ) → a ≢ which → has a m'.intc.pending ≡ has a m.intc.pending

module _ (which : ℕ) (m : Machine) (k : which < int_num_sources) (w : IsPending m.intc)
    (n : IsEnabled m.intc) where
  raise-IsStep :
      m.intc.priority which ≢ 0 → IsStep which (λ b. true) m (intc_raise_interrupt which m)
  raise-IsStep p =
      let (ok, fits, members) = intc_raise_interrupt-IsPending which m k w in
      record {
        pending = ok;
        enabled = rw (intc_raise_interrupt-priority which m) n;
        regs =
            Frame.same_mmio (intc_raise_interrupt which m) m
              (Frame.intc_raise_interrupt-others which m);
        source = ground (arith, members which);
        kept = λ a ne. ground (arith, members a);
      }

  clear-IsStep : IsStep which (λ b. false) m (intc_clear_interrupt which m)
  clear-IsStep =
      let (ok, gone, members) = intc_clear_interrupt-IsPending which m w in
      record {
        pending = ok;
        enabled = rw (intc_clear_interrupt-priority which m) n;
        regs =
            Frame.same_mmio (intc_clear_interrupt which m) m
              (Frame.intc_clear_interrupt-others which m);
        source = gone;
        kept = members;
      }

  stay-IsStep : (on : Bool → Bool) → ((b : Bool) → on b ≡ b) → IsStep which on m m
  stay-IsStep on h = record {
    pending = w;
    enabled = n;
    regs = refl;
    source = sym (h (has which m.intc.pending));
    kept = λ a ne. refl;
  }

  pub raise_if-IsStep :
      (b : Bool) → m.intc.priority which ≢ 0 → IsStep which (λ x. b || x) m (raise_if b which m)
  unfolding raise_if
  raise_if-IsStep true p = raise-IsStep p
  raise_if-IsStep false p = stay-IsStep (λ x. false || x) (λ x. refl)

  pub clear_unless-IsStep : (b : Bool) → IsStep which (λ x. b && x) m (clear_unless b which m)
  unfolding clear_unless
  clear_unless-IsStep true = stay-IsStep (λ x. true && x) (λ x. refl)
  clear_unless-IsStep false = clear-IsStep

  raise_or_clear-IsStep :
      (b : Bool) → m.intc.priority which ≢ 0 → IsStep which (λ x. b) m (raise_or_clear b which m)
  unfolding raise_or_clear
  raise_or_clear-IsStep true p = raise-IsStep p
  raise_or_clear-IsStep false p = clear-IsStep

-- The three lines one after the other.
pub record IsRound (f g h : Bool → Bool) (m m' : Machine) : Type 0 where
  pub pending : IsPending m'.intc
  pub enabled : IsEnabled m'.intc
  pub regs : m'.mmio ≡ m.mmio
  pub line13 : has int_irq13 m'.intc.pending ≡ f (has int_irq13 m.intc.pending)
  pub line11 : has int_irq11 m'.intc.pending ≡ g (has int_irq11 m.intc.pending)
  pub line9 : has int_irq9 m'.intc.pending ≡ h (has int_irq9 m.intc.pending)

pub steps-IsRound :
    {f g h : Bool → Bool} (m m1 m2 m3 : Machine)
    → IsStep int_irq13 f m m1
    → IsStep int_irq11 g m1 m2
    → IsStep int_irq9 h m2 m3
    → IsRound f g h m m3
steps-IsRound {f = f} {g = g} {h = h} m m1 m2 m3 a b c = record {
  pending = c.pending;
  enabled = c.enabled;
  regs = c.regs ∙ b.regs ∙ a.regs;
  line13 = c.kept int_irq13 (omega arith) ∙ b.kept int_irq13 (omega arith) ∙ a.source;
  line11 = c.kept int_irq11 (omega arith) ∙ b.source ∙ ap g (a.kept int_irq11 (omega arith));
  line9 = c.source ∙ ap h (b.kept int_irq9 (omega arith) ∙ a.kept int_irq9 (omega arith));
}

-- On a well-formed queue of interrupts in which the three lines have a priority,
-- `asic_event_mask_changed` makes each line pending exactly if its masks let an event through.
pub asic_event_mask_changed-IsRouted :
    (m : Machine) → IsPending m.intc → IsEnabled m.intc → IsRouted (asic_event_mask_changed m)
unfolding asic_event_mask_changed
asic_event_mask_changed-IsRouted m w n =
    let regs = m.mmio.asic in
    let m1 = raise_or_clear (active irqa0 regs) int_irq13 m in
    let a = raise_or_clear-IsStep int_irq13 m (omega arith) w n (active irqa0 regs) n.0 in
    let m2 = raise_or_clear (active irqb0 regs) int_irq11 m1 in
    let b =
      raise_or_clear-IsStep int_irq11 m1 (omega arith) a.pending a.enabled (active irqb0 regs)
        a.enabled.1 in
    let c =
      raise_or_clear-IsStep int_irq9 m2 (omega arith) b.pending b.enabled (active irqc0 regs)
        b.enabled.2 in
    let m3 = raise_or_clear (active irqc0 regs) int_irq9 m2 in
    let r = steps-IsRound m m1 m2 m3 a b c in
    let e : m3.mmio ≡ m.mmio = r.regs in
    record {
      pending = r.pending;
      enabled = r.enabled;
      line13 = rw e r.line13;
      line11 = rw e r.line11;
      line9 = rw e r.line9;
    }
