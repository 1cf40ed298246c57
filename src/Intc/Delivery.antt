-- ===== src/Intc/Delivery.antt =====
-- What sh4/intc.c does to the queue of pending sources: raising, clearing and accepting.
use lxdream.Base.{
  ℕ, ◌≤◌, ◌<◌, ◌≡◌, ◌≢◌, refl, inl, inr, true, false, not, ◌&&◌, ◌||◌, none, some, List, arith,
  ◌==◌, if◌then◌else◌, length, has, Distinct, erase, Bool-cases, Option-cases, pigeonhole,
  has-erase_ne, has-erase_self, erase_absent,
}
use lxdream.Machine.{Machine, Intc}
use lxdream.Intc.{
  after, insertion_point, insert_at, remove_last, intc_raise_interrupt, intc_mask_changed,
  intc_clear_interrupt, int_num_sources,
}
use lxdream.Intc.Order

-- The queue in the order of the priorities, with sources that exist.
pub record IsPending (i : Intc) : Type 0 where
  pub ordered : Order.IsOrdered i.priority i.pending
  pub known : (a : ℕ) → has a i.pending ≡ true → a < int_num_sources

-- The queue after a source was raised.
abbrev raised : ℕ → Intc → List ℕ
raised which i =
    if i.priority which == 0 then i.pending else elim (insertion_point i.priority which i.pending) [
      | none ↦ i.pending
      | some k ↦ insert_at i.pending k which
    ]

intc_raise_interrupt-pending :
    (which : ℕ) (m : Machine) → (intc_raise_interrupt which m).intc.pending ≡ raised which m.intc
unfolding intc_raise_interrupt
intc_raise_interrupt-pending which m = ground arith

pub intc_raise_interrupt-priority :
    (which : ℕ) (m : Machine) → (intc_raise_interrupt which m).intc.priority ≡ m.intc.priority
unfolding intc_raise_interrupt
intc_raise_interrupt-priority which m = ground arith

raised-has :
    (which a : ℕ) (i : Intc)
    → Order.IsOrdered i.priority i.pending
    → has a (raised which i) ≡ (has a i.pending || (a == which && not (i.priority which == 0)))
raised-has which a i o = elim (Bool-cases (has which i.pending)) [
  | inl y ↦ ground (arith, Order.insertion_point-has i.priority which i.pending o y)
  | inr n ↦
      let (k, found, fits) = Order.insertion_point-absent i.priority which i.pending n in
      ground (arith, Order.has-insert_at a which k i.pending)
]

raised-IsOrdered :
    (which : ℕ) (i : Intc)
    → Order.IsOrdered i.priority i.pending
    → Order.IsOrdered i.priority (raised which i)
raised-IsOrdered which i o = elim (Bool-cases (i.priority which == 0)) [
  | inl y ↦ rw y o
  | inr n ↦ elim (Option-cases (insertion_point i.priority which i.pending)) [
    | inl e ↦ rw n (rw e o)
    | inr (k, e) ↦ rw n (rw e (Order.insert_at-IsOrdered i.priority which k i.pending o e))
  ]
]

pub IsPending-length : (i : Intc) → IsPending i → length i.pending ≤ int_num_sources
IsPending-length i w =
    pigeonhole int_num_sources i.pending (Order.IsOrdered-Distinct i.priority i.pending w.ordered)
      w.known

-- Raising an interrupt on a well-formed queue keeps it well-formed and within the array's
-- `INT_NUM_SOURCES` entries, adds the source if its priority is not 0, and changes no other source.
pub intc_raise_interrupt-IsPending :
    (which : ℕ) (m : Machine)
    → which < int_num_sources
    → IsPending m.intc
    → let after = (intc_raise_interrupt which m).intc in
      IsPending after
      × (length after.pending ≤ int_num_sources)
      × ((a : ℕ)
          → has a after.pending
            ≡ (has a m.intc.pending || (a == which && not (m.intc.priority which == 0))))
intc_raise_interrupt-IsPending which m k w =
    let e = intc_raise_interrupt-pending which m in
    let e2 = intc_raise_interrupt-priority which m in
    let members : (a : ℕ)
        → has a (intc_raise_interrupt which m).intc.pending
          ≡ (has a m.intc.pending || (a == which && not (m.intc.priority which == 0))) =
      λ a. rw e (raised-has which a m.intc w.ordered) in
    let ok : IsPending (intc_raise_interrupt which m).intc = record {
      ordered = rw e2 (rw e (raised-IsOrdered which m.intc w.ordered));
      known = λ a h. ground (arith, members a, w.known a);
    } in
    (ok, IsPending-length (intc_raise_interrupt which m).intc ok, members)

intc_mask_changed-intc : (m : Machine) → (intc_mask_changed m).intc ≡ m.intc
unfolding intc_mask_changed
intc_mask_changed-intc m = refl

cleared-some :
    (which : ℕ) (m : Machine) (ps : List ℕ)
    → remove_last which m.intc.pending ≡ some ps
    → (intc_clear_interrupt which m).intc ≡ record (m.intc) { pending = ps }
unfolding intc_clear_interrupt intc_mask_changed
cleared-some which m ps e = ground arith

intc_clear_interrupt-intc :
    (which : ℕ) (m : Machine)
    → Distinct m.intc.pending
    → (intc_clear_interrupt which m).intc ≡ record (m.intc) { pending = erase which m.intc.pending }
unfolding intc_clear_interrupt
intc_clear_interrupt-intc which m d = elim (Bool-cases (has which m.intc.pending)) [
  | inl y ↦
      cleared-some which m (erase which m.intc.pending)
        (Order.remove_last-has which m.intc.pending d y)
  | inr n ↦
      ground (
        arith,
        Order.remove_last-absent which m.intc.pending n,
        erase_absent which m.intc.pending n,
      )
]

-- Clearing an interrupt on a well-formed queue keeps it well-formed, takes the source out of it
-- and keeps every other source.
pub intc_clear_interrupt-IsPending :
    (which : ℕ) (m : Machine)
    → IsPending m.intc
    → let after = (intc_clear_interrupt which m).intc in
      IsPending after
      × (has which after.pending ≡ false)
      × ((a : ℕ) → a ≢ which → has a after.pending ≡ has a m.intc.pending)
intc_clear_interrupt-IsPending which m w =
    let d = Order.IsOrdered-Distinct m.intc.priority m.intc.pending w.ordered in
    let e = intc_clear_interrupt-intc which m d in
    rw e (
      record {
        ordered = Order.erase-IsOrdered m.intc.priority which m.intc.pending w.ordered;
        known = λ a h. ground (
          arith,
          w.known a,
          has-erase_ne a which m.intc.pending,
          has-erase_self which m.intc.pending d,
        );
      },
      has-erase_self which m.intc.pending d,
      λ a n. ground (arith, has-erase_ne a which m.intc.pending),
    )

pub intc_clear_interrupt-priority :
    (which : ℕ) (m : Machine) → (intc_clear_interrupt which m).intc.priority ≡ m.intc.priority
unfolding intc_clear_interrupt intc_mask_changed
intc_clear_interrupt-priority which m = ground arith
