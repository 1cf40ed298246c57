-- ===== src/Scif/Sending.antt =====
-- What the serial device receives from the transmit FIFO of sh4/scif.c.
use lxdream.Base.{
  ℕ, zero, suc, ◌/◌, ◌<◌, ◌≡◌, refl, sym, subst, ◌∙◌, ap, true, false, Option, none, some, List, [],
  ◌∷◌, ◌++◌, map, arith, any_set, take, drop, append_assoc, append-nil, map-append,
}
use lxdream.Scif.{SerialDevice, received, Scif, scscr2, scfcr2, scif_sendq_dequeue}
use lxdream.Scif.Device.{deliver}
use lxdream.Scif.Clock.{scif_clock_tick, advance, scif_run_to}
use lxdream.Scif.Frame.{
  scif_clock_tick-settings, scif_clock_tick-output, scif_sendq_dequeue-settings,
  scif_sendq_dequeue-calls,
}
use lxdream.Scif.SendQueue.{IsFifo, contents, take_spec, scif_sendq_dequeue-refines}
use lxdream.Scif.Ticks.{spend, ticks, scif_run_to-ends}

-- A port that sends to a device which takes the bytes.
pub record IsSending (d : SerialDevice) (s : Scif) : Type 0 where
  pub enabled : any_set (s.regs scscr2) 0x20 ≡ true
  pub line : any_set (s.regs scfcr2) 0x01 ≡ false
  pub connected : s.device ≡ some d
  pub takes : d.receive_data ≡ true
  pub fifo : IsFifo s.sendq

later-IsSending :
    (d : SerialDevice) (s : Scif) (r : ℕ)
    → IsSending d s
    → IsSending d (record s { tick_remainder = r })
later-IsSending d s r w = record {
  enabled = w.enabled;
  line = w.line;
  connected = w.connected;
  takes = w.takes;
  fifo = w.fifo;
}

abbrev bytes_of : Option ℕ → List ℕ
bytes_of none = []
bytes_of (some x) = x ∷ []

deliver-calls :
    (d : SerialDevice) (o : Option ℕ) (s : Scif)
    → s.device ≡ some d
    → d.receive_data ≡ true
    → (deliver o s).calls ≡ s.calls ++ map (received d.name) (bytes_of o)
unfolding deliver
deliver-calls d none s c t = sym (append-nil s.calls)
deliver-calls d (some x) s c t = rw (c, deliver, t) refl

deliver-sendq : (o : Option ℕ) (s : Scif) → (deliver o s).sendq ≡ s.sendq
unfolding deliver
deliver-sendq none s = refl
deliver-sendq (some x) s = ground arith

take_spec-bytes : (xs : List ℕ) → bytes_of (take_spec xs).0 ≡ take 1 xs
unfolding take_spec take
take_spec-bytes [] = refl
take_spec-bytes (x ∷ xs) = refl

take_spec-rest : (xs : List ℕ) → (take_spec xs).1 ≡ drop 1 xs
unfolding take_spec drop
take_spec-rest [] = refl
take_spec-rest (x ∷ xs) = refl

-- One tick sends one byte, if there is one.
tick-sends :
    (d : SerialDevice) (s : Scif)
    → IsSending d s
    → IsSending d (scif_clock_tick s)
      × (contents (scif_clock_tick s).sendq ≡ drop 1 (contents s.sendq))
      × ((scif_clock_tick s).calls ≡ s.calls ++ map (received d.name) (take 1 (contents s.sendq)))
tick-sends d s w =
    let r = scif_sendq_dequeue s in
    let (same, fits) = scif_sendq_dequeue-refines s w.fifo in
    let out = scif_clock_tick-output s w.enabled w.line in
    let kept = scif_clock_tick-settings s in
    let still : (scif_clock_tick s).device ≡ some d = ap (λ p. p.4) kept ∙ w.connected in
    let joined : r.1.device ≡ some d =
      ap (λ p. p.4) (scif_sendq_dequeue-settings s) ∙ w.connected in
    let queue : (scif_clock_tick s).sendq ≡ r.1.sendq = ap (λ p. p.0) out ∙ deliver-sendq r.0 r.1 in
    let first : bytes_of r.0 ≡ take 1 (contents s.sendq) =
      ap (λ p. bytes_of p.0) same ∙ take_spec-bytes (contents s.sendq) in
    let sent = deliver-calls d r.0 r.1 joined w.takes in
    (
      record {
        enabled = ap (λ p. any_set p.2 0x20) kept ∙ w.enabled;
        line = ap (λ p. any_set p.3 0x01) kept ∙ w.line;
        connected = still;
        takes = w.takes;
        fifo = subst IsFifo (sym queue) fits;
      },
      ap contents queue ∙ ap (λ p. p.1) same ∙ take_spec-rest (contents s.sendq),
      ap (λ p. p.1) out
          ∙ sent
          ∙ ap (λ cs. cs ++ map (received d.name) (bytes_of r.0)) (scif_sendq_dequeue-calls s)
          ∙ ap (λ xs. s.calls ++ map (received d.name) xs) first,
    )

drop-step : (n : ℕ) (xs : List ℕ) → drop n (drop 1 xs) ≡ drop (suc n) xs
unfolding drop
drop-step zero [] = refl
drop-step (suc n) [] = refl
drop-step n (x ∷ xs) = refl

take-step : (n : ℕ) (xs : List ℕ) → take 1 xs ++ take n (drop 1 xs) ≡ take (suc n) xs
unfolding take drop
take-step zero [] = refl
take-step (suc n) [] = refl
take-step n (x ∷ xs) = refl

-- So many ticks send as many bytes.
ticks-send :
    (d : SerialDevice) (n : ℕ) (s : Scif)
    → IsSending d s
    → (contents (ticks n s).sendq ≡ drop n (contents s.sendq))
      × ((ticks n s).calls ≡ s.calls ++ map (received d.name) (take n (contents s.sendq)))
unfolding ticks take drop
ticks-send d zero s w = (refl, sym (append-nil s.calls))
ticks-send d (suc n) s w =
    let (next, rest, first) =
      tick-sends d (spend s) (later-IsSending d s (spend s).tick_remainder w) in
    let (rests, sent) = ticks-send d n (scif_clock_tick (spend s)) next in
    let xs = contents s.sendq in
    (
      rests ∙ ap (drop n) rest ∙ drop-step n xs,
      sent
          ∙ ap (λ ys. (scif_clock_tick (spend s)).calls ++ map (received d.name) (take n ys)) rest
          ∙ ap (λ cs. cs ++ map (received d.name) (take n (drop 1 xs))) first
          ∙ append_assoc s.calls (map (received d.name) (take 1 xs))
              (map (received d.name) (take n (drop 1 xs)))
          ∙ ap (λ ys. s.calls ++ ys)
              (sym (map-append (received d.name) (take 1 xs) (take n (drop 1 xs))))
          ∙ ap (λ ys. s.calls ++ map (received d.name) ys) (take-step n xs),
    )

-- If the port transmits, without loopback, to a device that takes bytes, and the period of a tick
-- is not 0, `SCIF_run_to` returns, and meanwhile the device has received the bytes of the transmit
-- FIFO in their order, one for each whole period that has passed; the other bytes still wait.
pub scif_run_to-sends :
    (d : SerialDevice) (nanosecs : ℕ) (s : Scif)
    → IsSending d s
    → 0 < s.tick_period
    → let n = (advance nanosecs s).tick_remainder / s.tick_period in
      (s' : Scif) × (scif_run_to nanosecs s ≡ some s')
      × (s'.calls ≡ s.calls ++ map (received d.name) (take n (contents s.sendq)))
      × (contents s'.sendq ≡ drop n (contents s.sendq))
scif_run_to-sends d nanosecs s w p =
    let s' = advance nanosecs s in
    let n = s'.tick_remainder / s.tick_period in
    let (rest, sent) = ticks-send d n s' (later-IsSending d s s'.tick_remainder w) in
    (record (ticks n s') { slice_cycle = nanosecs }, (scif_run_to-ends nanosecs s p).0, sent, rest)
