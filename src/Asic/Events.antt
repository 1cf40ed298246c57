-- ===== src/Asic/Events.antt =====
-- `asic_event` of asic.c as a whole, with the cascade.
use lxdream.Base.{
  ℕ, ◌+◌, ◌*◌, ◌/◌, ◌%◌, ◌<◌, ◌≡◌, inl, inr, Bool, ◌||◌, arith, leb, ◌==◌, if◌then◌else◌, any_set,
  Bool-cases,
}
use native.Mathlib.Decide.{ℕ_discrete}
use lxdream.Base.Masks.{any_set-bit_or_pow}
use lxdream.Machine.{Machine, Region}
use lxdream.Asic.{
  pirq0, word_offset, event_bit, flag_event, asic_event, event_cascade1, event_cascade2,
}
use lxdream.Asic.Lines.{IsRouted}
use lxdream.Asic.Flag.{flagged, flag_event-IsRouted, word_offset_lem, event_bit_lem}

-- Whether an event is pending.
abbrev pub is_pending : ℕ → Region → Bool
is_pending a regs = any_set (regs (pirq0 + word_offset a)) (event_bit a)

flagged-is_pending :
    (a e : ℕ) (regs : Region)
    → a < 96
    → e < 96
    → is_pending a (flagged e regs) ≡ (is_pending a regs || a == e)
flagged-is_pending a e regs ka ke =
    rw (word_offset_lem a ka, word_offset_lem e ke, event_bit_lem a, event_bit_lem e)
      (elim (ℕ_discrete (a / 32) (e / 32)) [
        | yes y ↦
            rw y
              (ground (arith, any_set-bit_or_pow (a % 32) (e % 32) (regs (pirq0 + 4 * (e / 32)))))
        | no n ↦ ground arith
      ])

-- The event of the first word that stands for the event's word.
abbrev pub cascade : ℕ → ℕ
cascade event =
    if leb 64 event then event_cascade2 else if leb 32 event then event_cascade1 else event

-- If each of the three lines is pending exactly while its masks let an event through, that stays so
-- at an event. The event becomes pending together with the cascade event of its word, if it has one,
-- and no other event changes.
pub asic_event-IsRouted :
    (event : ℕ) (m : Machine)
    → event < 96
    → IsRouted m
    → let m' = asic_event event m in
      IsRouted m'
      × ((a : ℕ)
          → a < 96
          → is_pending a m'.mmio.asic
            ≡ (is_pending a m.mmio.asic || a == event || a == cascade event))
unfolding asic_event
asic_event-IsRouted event m k w =
    let (w1, e1) = flag_event-IsRouted event m k w in
    let m1 = flag_event event m in
    let (w2, e2) = flag_event-IsRouted event_cascade2 m1 (omega arith) w1 in
    let (w3, e3) = flag_event-IsRouted event_cascade1 m1 (omega arith) w1 in
    elim (Bool-cases (leb 64 event)) [
      | inl y ↦ rw y (
        w2,
        λ a ka.
            rw (e2, e1)
              (ground (
                arith,
                flagged-is_pending a event_cascade2 (flagged event m.mmio.asic) ka,
                flagged-is_pending a event m.mmio.asic ka k,
              )),
      )
      | inr n ↦ elim (Bool-cases (leb 32 event)) [
        | inl y ↦
            rw (n, y)
              (
                w3,
                λ a ka.
                    rw (e3, e1)
                      (ground (
                        arith,
                        flagged-is_pending a event_cascade1 (flagged event m.mmio.asic) ka,
                        flagged-is_pending a event m.mmio.asic ka k,
                      )),
              )
        | inr f ↦
            rw (n, f)
              (w1, λ a ka. rw e1 (ground (arith, flagged-is_pending a event m.mmio.asic ka k)))
      ]
    ]
