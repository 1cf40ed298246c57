-- ===== src/Scif/Unread.antt =====
-- The receive FIFO of sh4/scif.c: SCIF_recvq_enqueue stores a byte without moving the tail.
use lxdream.Base.{ℕ, zero, suc, ◌≡◌, refl, sym, ◌∙◌, ap, Bool, Option, none, some, arith}
use lxdream.Scif.{
  Scif, scif_recvq_dequeue, scif_recvq_enqueue, scif_recvq_clear, scif_sendq_dequeue,
  scif_sendq_enqueue, scif_sendq_clear,
}
use lxdream.Scif.Device.{serial_transmit_dequeue, deliver, tell_speed, tell_params}
use lxdream.Scif.Clock.{
  scif_update_line_speed, receive, tick_loopback, tick_line, flag_waiting, scif_clock_tick,
  run_ticks, scif_run_to, scif_run_slice,
}
use lxdream.Scif.Access.{
  scif_update_status, write_mode, write_control, write_fifo_control, write_line_status,
}
use lxdream.Scif.Ticks.{ticks, spend}

-- The receive FIFO is empty.
abbrev pub IsUnread : Scif → Type 0
IsUnread s = s.recvq.head ≡ s.recvq.tail

abbrev pub ends : Scif → ℕ × ℕ
ends s = (s.recvq.head, s.recvq.tail)

pub same_ends : (a b : Scif) → ends a ≡ ends b → IsUnread b → IsUnread a
same_ends a b e u = ap (λ p. p.0) e ∙ u ∙ sym (ap (λ p. p.1) e)

scif_recvq_enqueue-ends : (x : ℕ) (s : Scif) → ends ((scif_recvq_enqueue x s).1) ≡ ends s
unfolding scif_recvq_enqueue
scif_recvq_enqueue-ends x s = ground arith

receive-ends : (o : Option ℕ) (s : Scif) → ends ((receive o s).1) ≡ ends s
unfolding receive
receive-ends none s = refl
receive-ends (some x) s = scif_recvq_enqueue-ends x s

scif_sendq_dequeue-ends : (s : Scif) → ends ((scif_sendq_dequeue s).1) ≡ ends s
unfolding scif_sendq_dequeue
scif_sendq_dequeue-ends s = ground arith

pub scif_sendq_enqueue-ends :
    (x : ℕ) (c : Bool) (s : Scif) → ends ((scif_sendq_enqueue x c s).1) ≡ ends s
unfolding scif_sendq_enqueue
scif_sendq_enqueue-ends x c s = ground arith

pub scif_sendq_clear-ends : (s : Scif) → ends (scif_sendq_clear s) ≡ ends s
unfolding scif_sendq_clear
scif_sendq_clear-ends s = ground arith

pub scif_recvq_clear-IsUnread : (s : Scif) → IsUnread (scif_recvq_clear s)
unfolding scif_recvq_clear
scif_recvq_clear-IsUnread s = ground arith

deliver-ends : (o : Option ℕ) (s : Scif) → ends (deliver o s) ≡ ends s
unfolding deliver
deliver-ends none s = refl
deliver-ends (some x) s = ground arith

serial_transmit_dequeue-ends : (s : Scif) → ends ((serial_transmit_dequeue s).1) ≡ ends s
unfolding serial_transmit_dequeue
serial_transmit_dequeue-ends s = ground arith

flag_waiting-ends : (b : Bool) (s : Scif) → ends (flag_waiting b s) ≡ ends s
unfolding flag_waiting
flag_waiting-ends b s = ground arith

tick_loopback-ends : (s : Scif) → ends ((tick_loopback s).1) ≡ ends s
unfolding tick_loopback
tick_loopback-ends s = grind (arith, receive-ends, scif_sendq_dequeue-ends)

tick_line-ends : (s : Scif) → ends ((tick_line s).1) ≡ ends s
unfolding tick_line
tick_line-ends s =
    grind (arith, receive-ends, scif_sendq_dequeue-ends, deliver-ends, serial_transmit_dequeue-ends)

scif_clock_tick-ends : (s : Scif) → ends (scif_clock_tick s) ≡ ends s
unfolding scif_clock_tick
scif_clock_tick-ends s = grind (arith, flag_waiting-ends, tick_loopback-ends, tick_line-ends)

ticks-ends : (n : ℕ) (s : Scif) → ends (ticks n s) ≡ ends s
unfolding ticks
ticks-ends zero s = refl
ticks-ends (suc n) s = ticks-ends n (scif_clock_tick (spend s)) ∙ scif_clock_tick-ends (spend s)

pub reads_nothing : (b : Bool) (s : Scif) → IsUnread s → scif_recvq_dequeue b s ≡ (none, s)
unfolding scif_recvq_dequeue
reads_nothing b s u = ground arith

run_ticks-ends : (fuel : ℕ) (s r : Scif) → run_ticks fuel s ≡ some r → ends r ≡ ends s
unfolding run_ticks
run_ticks-ends zero s r e = ground arith
run_ticks-ends (suc fuel) s r e = grind (arith, run_ticks-ends fuel, scif_clock_tick-ends)

pub scif_run_to-ends_kept : (t : ℕ) (s r : Scif) → scif_run_to t s ≡ some r → ends r ≡ ends s
unfolding scif_run_to
scif_run_to-ends_kept t s r e = grind (arith, run_ticks-ends)

pub scif_run_slice-ends : (t : ℕ) (s r : Scif) → scif_run_slice t s ≡ some r → ends r ≡ ends s
unfolding scif_run_slice
scif_run_slice-ends t s r e = grind (arith, scif_run_to-ends_kept)

tell_speed-ends : (x : ℕ) (s : Scif) → ends (tell_speed x s) ≡ ends s
unfolding tell_speed
tell_speed-ends x s = ground arith

pub scif_update_line_speed-ends : (s r : Scif) → scif_update_line_speed s ≡ some r → ends r ≡ ends s
unfolding scif_update_line_speed
scif_update_line_speed-ends s r e = grind (arith, tell_speed-ends)

pub scif_update_status-ends : (v : ℕ) (s : Scif) → ends (scif_update_status v s) ≡ ends s
unfolding scif_update_status
scif_update_status-ends v s = ground arith

tell_params-ends : (v : ℕ) (s r : Scif) → tell_params v s ≡ some r → ends r ≡ ends s
unfolding tell_params
tell_params-ends v s r e = ground arith

pub write_mode-ends : (v : ℕ) (s r : Scif) → write_mode v s ≡ some r → ends r ≡ ends s
unfolding write_mode
write_mode-ends v s r e = grind (arith, tell_params-ends, scif_update_line_speed-ends)

pub write_control-ends : (v : ℕ) (s : Scif) → ends (write_control v s) ≡ ends s
unfolding write_control
write_control-ends v s = ground arith

pub write_line_status-ends : (v : ℕ) (s : Scif) → ends (write_line_status v s) ≡ ends s
unfolding write_line_status
write_line_status-ends v s = ground arith

pub write_fifo_control-IsUnread :
    (v : ℕ) (s : Scif) → IsUnread s → IsUnread (write_fifo_control v s)
unfolding write_fifo_control
write_fifo_control-IsUnread v s u = grind (arith, scif_recvq_clear-IsUnread, scif_sendq_clear-ends)
