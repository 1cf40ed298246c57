-- ===== src/Scif/Accesses.antt =====
-- Sequences of accesses to the serial port, sh4/scif.c, by the program and by the device.
use lxdream.Base.{
  ℕ, ◌<◌, ◌≡◌, refl, inl, inr, false, Option, none, some, ◌>>=◌, List, [], ◌∷◌, arith, Option-cases,
}
use lxdream.Scif.{Scif, SerialDevice, scif_recvq_clear, scif_sendq_clear}
use lxdream.Scif.Device.{
  serial_attach_device, serial_detach_device, serial_transmit_data, serial_transmit_break,
  scif_set_break,
}
use lxdream.Scif.Clock.{scif_run_to, scif_run_slice, scif_reset}
use lxdream.Scif.Access.{mmio_region_scif_read, mmio_region_scif_write}
use lxdream.Scif.Ticks.{scif_run_to-ends}
use lxdream.Scif.Unread.{
  IsUnread, ends, same_ends, reads_nothing, scif_run_to-ends_kept, scif_run_slice-ends,
  scif_update_line_speed-ends, scif_sendq_enqueue-ends, scif_update_status-ends, write_mode-ends,
  write_control-ends, write_line_status-ends, write_fifo_control-IsUnread,
  scif_recvq_clear-IsUnread, scif_sendq_clear-ends,
}

-- What is done with the port.
pub data Use : Type 0 where
  reads : ℕ → Use
  writes : ℕ → ℕ → Use
  comes : List ℕ → Use
  breaks : Use
  attaches : Option SerialDevice → Use
  runs : ℕ → Use
  resets : Use

unfoldable pub perform : Use → Scif → Option Scif
perform (reads reg) s = elim (mmio_region_scif_read reg s) [
  | none ↦ none
  | some (val, s') ↦ some s'
]
perform (writes reg val) s = mmio_region_scif_write reg val s
perform (comes bytes) s = some (serial_transmit_data bytes s)
perform breaks s = some (serial_transmit_break s)
perform (attaches dev) s = some ((serial_attach_device dev s).1)
perform (runs t) s = scif_run_slice t s
perform resets s = scif_reset s

unfoldable pub perform_all : List Use → Scif → Option Scif
perform_all [] s = some s
perform_all (u ∷ us) s = perform u s >>= perform_all us

reads-ends :
    (reg v : ℕ) (s r : Scif) → mmio_region_scif_read reg s ≡ some (v, r) → IsUnread s → IsUnread r
unfolding mmio_region_scif_read
reads-ends reg v s r e u = elim (Option-cases (scif_run_to s.machine.cpu.slice_cycle s)) [
  | inl n ↦ grind (arith, n)
  | inr (t, y) ↦
      let k = scif_run_to-ends_kept s.machine.cpu.slice_cycle s t y in
      let ut = same_ends t s k u in let d = reads_nothing false t ut in ground (arith, y, d)
]

writes-IsUnread :
    (reg v : ℕ) (s r : Scif) → mmio_region_scif_write reg v s ≡ some r → IsUnread s → IsUnread r
unfolding mmio_region_scif_write
writes-IsUnread reg v s r e u = elim (Option-cases (scif_run_to s.machine.cpu.slice_cycle s)) [
  | inl n ↦ grind (arith, n)
  | inr (t, y) ↦
      let k = scif_run_to-ends_kept s.machine.cpu.slice_cycle s t y in
      let ut = same_ends t s k u in
      grind (
        arith, y, ut, scif_update_line_speed-ends, scif_sendq_enqueue-ends, scif_update_status-ends,
        write_mode-ends, write_control-ends, write_line_status-ends, write_fifo_control-IsUnread,
      )
]

comes-ends : (bytes : List ℕ) (s : Scif) → ends (serial_transmit_data bytes s) ≡ ends s
unfolding serial_transmit_data
comes-ends bytes s = ground arith

breaks-ends : (s : Scif) → ends (scif_set_break s) ≡ ends s
unfolding scif_set_break
breaks-ends s = ground arith

attaches-ends :
    (dev : Option SerialDevice) (s : Scif) → ends ((serial_attach_device dev s).1) ≡ ends s
unfolding serial_attach_device serial_detach_device
attaches-ends none s = ground arith
attaches-ends (some d) s = ground arith

resets-IsUnread : (s r : Scif) → scif_reset s ≡ some r → IsUnread r
unfolding scif_reset
resets-IsUnread s r e =
    let t = scif_sendq_clear (scif_recvq_clear s) in
    let k = scif_update_line_speed-ends t r e in
    let c =
      same_ends t (scif_recvq_clear s) (scif_sendq_clear-ends (scif_recvq_clear s))
        (scif_recvq_clear-IsUnread s) in
    same_ends r t k c

perform-IsUnread : (a : Use) (s r : Scif) → perform a s ≡ some r → IsUnread s → IsUnread r
unfolding perform
perform-IsUnread (reads reg) s r e u = elim (Option-cases (mmio_region_scif_read reg s)) [
  | inl n ↦ grind (arith, n)
  | inr ((v, t), y) ↦ let ut = reads-ends reg v s t y u in ground (arith, y, ut)
]
perform-IsUnread (writes reg val) s r e u = writes-IsUnread reg val s r e u
perform-IsUnread (comes bytes) s r e u = grind (arith, comes-ends)
perform-IsUnread breaks s r e u = grind (arith, breaks-ends)
perform-IsUnread (attaches dev) s r e u = grind (arith, attaches-ends)
perform-IsUnread (runs t) s r e u = same_ends r s (scif_run_slice-ends t s r e) u
perform-IsUnread resets s r e u = resets-IsUnread s r e

perform_all-IsUnread :
    (us : List Use) (s r : Scif) → perform_all us s ≡ some r → IsUnread s → IsUnread r
unfolding perform_all
perform_all-IsUnread [] s r e u = grind arith
perform_all-IsUnread (a ∷ us) s r e u = elim (Option-cases (perform a s)) [
  | inl n ↦ grind (arith, n)
  | inr (t, y) ↦ perform_all-IsUnread us t r (grind (arith, y)) (perform-IsUnread a s t y u)
]

reads_minus_one :
    (r t : Scif)
    → scif_run_to r.machine.cpu.slice_cycle r ≡ some t
    → IsUnread t
    → mmio_region_scif_read 0x14 r ≡ some (0xffff_ffff, t)
unfolding mmio_region_scif_read
reads_minus_one r t y u = let d = reads_nothing false t u in rw (y, d, mmio_region_scif_read) refl

reads_after_run :
    (r t : Scif)
    → scif_run_to r.machine.cpu.slice_cycle r ≡ some t
    → IsUnread r
    → (r' : Scif) × (mmio_region_scif_read 0x14 r ≡ some (0xffff_ffff, r')) × IsUnread r'
reads_after_run r t y u =
    let ut = same_ends t r (scif_run_to-ends_kept r.machine.cpu.slice_cycle r t y) u in
    (t, reads_minus_one r t y ut, ut)

-- Whatever the program and the device have done with the port since its receive FIFO was empty: if
-- the period of a tick is not 0 then, a read of SCFRDR2 returns -1, and the FIFO is empty again. No
-- byte that a device sends is ever read.
pub never_received :
    (us : List Use) (s r : Scif)
    → s.recvq.head ≡ s.recvq.tail
    → perform_all us s ≡ some r
    → 0 < r.tick_period
    → (r' : Scif) × (mmio_region_scif_read 0x14 r ≡ some (0xffff_ffff, r'))
      × (r'.recvq.head ≡ r'.recvq.tail)
never_received us s r u e p =
    let ur = perform_all-IsUnread us s r e u in
    let (y, _, _) = scif_run_to-ends r.machine.cpu.slice_cycle r p in reads_after_run r _ y ur
