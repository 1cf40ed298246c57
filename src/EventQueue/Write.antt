-- ===== src/EventQueue/Write.antt =====
-- eventq.c: assignments to one field of `events[e]`.
use lxdream.Base.{ℕ, Option, ◌==◌, if◌then◌else◌}
use lxdream.Machine.{Callback, Event}

abbrev pub Events : Type 0
Events = ℕ → Event

abbrev pub next : Events → ℕ → Option ℕ → Events
next evs e n a = record (evs a) { next = if a == e then n else (evs a).next }

abbrev pub nanosecs : Events → ℕ → ℕ → Events
nanosecs evs e t a = record (evs a) { nanosecs = if a == e then t else (evs a).nanosecs }

abbrev pub seconds : Events → ℕ → ℕ → Events
seconds evs e t a = record (evs a) { seconds = if a == e then t else (evs a).seconds }

abbrev pub id : Events → ℕ → ℕ → Events
id evs e i a = record (evs a) { id = if a == e then i else (evs a).id }

abbrev pub func : Events → ℕ → Option Callback → Events
func evs e g a = record (evs a) { func = if a == e then g else (evs a).func }
