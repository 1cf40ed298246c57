-- ===== src/Maple/Packet.antt =====
-- maple_handle_buffer of maple/maple.c: the commands of a buffer and the answers of the devices. A
-- buffer, here and in the answer, does not cross the end of a region of memory.
use lxdream.Base.{
  ℕ, zero, suc, ◌+◌, ◌-◌, ◌*◌, ◌/◌, ◌%◌, ◌^◌, Bool, true, not, ◌&&◌, ◌||◌, Option, none, some,
  bit_and, bit_or, ltb, leb, ◌==◌, if◌then◌else◌, any_set, sub32, get_or, length,
}
use lxdream.EventQueue.{event_schedule}
use lxdream.Maple.{Reply, Operations, gun_started, Maple, set_device, is_some, notify}

abbrev pub Memory : Type 0
Memory = ℕ → ℕ

abbrev pub get_word : Memory → ℕ → ℕ
get_word mem a = mem a + 2 ^ 8 * mem (a + 1) + 2 ^ 16 * mem (a + 2) + 2 ^ 24 * mem (a + 3)

abbrev pub put_byte : ℕ → ℕ → Memory → Memory
put_byte a x mem i = if i == a then x % 256 else mem i

abbrev pub put_word : ℕ → ℕ → Memory → Memory
put_word a x mem =
    put_byte (a + 3) (x / 2 ^ 24)
      (put_byte (a + 2) (x / 2 ^ 16) (put_byte (a + 1) (x / 2 ^ 8) (put_byte a x mem)))

-- `n` bytes, of a device's `ident` or of its answer.
abbrev pub copy : ℕ → ℕ → (ℕ → ℕ) → Memory → Memory
copy a n bytes mem i = if leb a i && ltb i (a + n) then bytes (i - a) else mem i

abbrev pub event_maple_dma : ℕ
event_maple_dma = 12

abbrev pub resp_info : ℕ
resp_info = 5

abbrev pub resp_ext_info : ℕ
resp_ext_info = 6

abbrev pub resp_ack : ℕ
resp_ack = 7

abbrev pub resp_data : ℕ
resp_data = 8

abbrev pub err_cmd_unknown : ℕ
err_cmd_unknown = 0xffff_fffd

-- The peripheral that a recipient's low six bits name; 0 also for a bad setting.
abbrev pub periph_of : ℕ → ℕ
periph_of id =
    if id == 1
    then 1
    else if id == 2
    then 2
    else if id == 4
    then 3
    else if id == 8
    then 4
    else if id == 16
    then 5
    else 0

-- What the switch over the commands works out: `status`, `recv_addr` and `out_length`, and what it
-- has changed in the memory and the device.
pub record Answer (D : Type 0) : Type 0 where
  pub status : ℕ
  pub recv_addr : ℕ
  pub out_length : ℕ
  pub memory : Memory
  pub device : D

-- How a round of the loop ends: with the next packet at an address, with `break`, or by a return.
pub data Outcome (D : Type 0) : Type 0 where
  next : ℕ → Maple D → Outcome D
  broken : Maple D → Outcome D
  returned : Maple D → Outcome D

abbrev pub with_bit : Bool → ℕ → ℕ → ℕ
with_bit b mask x = if b then bit_or x mask else x

module _ {D : Type 0} where
  -- The address in the answer to an identify command on the main peripheral of a port.
  abbrev pub sub_address : (ℕ → Option D) → ℕ → ℕ
  sub_address ds recv_addr = with_bit (is_some (ds 5)) 16 (
      with_bit (is_some (ds 4)) 8 (
        with_bit (is_some (ds 3)) 4
          (with_bit (is_some (ds 2)) 2 (with_bit (is_some (ds 1)) 1 (bit_and recv_addr 0xe0)))))

  -- An answer without data; NULL is an unknown command, or for `reset` and `shutdown` no error.
  unfoldable pub plain : ℕ → Option (ℕ × D) → ℕ → Memory → D → Answer D
  plain missing none recv mem d = record {
    status = missing;
    recv_addr = recv;
    out_length = 0;
    memory = mem;
    device = d;
  }
  plain missing (some (status, d')) recv mem d = record {
    status = status;
    recv_addr = recv;
    out_length = 0;
    memory = mem;
    device = d';
  }

  -- A status of 0 becomes an acknowledgement.
  unfoldable pub acknowledged : Option (ℕ × D) → ℕ → Memory → D → Answer D
  acknowledged r recv mem d =
      let a = plain err_cmd_unknown r recv mem d in
      record a { status = if a.status == 0 then resp_ack else a.status }

  -- An answer with data, which the device has put at `at`; a status of 0 becomes RESP_DATA, with
  -- `extra` words more, that `header` writes.
  unfoldable pub with_data :
      ℕ → ℕ → (Memory → Memory) → Option (Reply D) → ℕ → Memory → D → Answer D
  with_data at extra header none recv mem d = plain err_cmd_unknown none recv mem d
  with_data at extra header (some r) recv mem d =
      let mem' = copy at (length r.bytes) (λ i. get_or r.bytes i 0) mem in
      if r.status == 0
      then record {
        status = resp_data;
        recv_addr = recv;
        out_length = r.out_length + extra;
        memory = header mem';
        device = r.device;
      }
      else record {
        status = r.status;
        recv_addr = recv;
        out_length = r.out_length;
        memory = mem';
        device = r.device;
      }

  module _ (ops : Operations D) where
    -- The switch over `cmd`, for the device of a packet at `buf` with its answer at `out`.
    unfoldable pub execute : ℕ → ℕ → ℕ → ℕ → ℕ → (ℕ → Option D) → Memory → D → Answer D
    execute cmd buf out periph recv_addr ds mem d =
        let func = get_word mem (buf + 12) in
        let pt = mem (buf + 16) in
        let phase = mem (buf + 17) in
        let block = bit_or (mem (buf + 18) * 2 ^ 8) (mem (buf + 19)) in
        let size = mem buf in
        if cmd == 1
        then record {
          status = resp_info;
          recv_addr = if periph == 0 then sub_address ds recv_addr else recv_addr;
          out_length = 0x1c;
          memory = copy (out + 4) 112 (ops.ident d) mem;
          device = d;
        }
        else if cmd == 2
        then record {
          status = resp_ext_info;
          recv_addr = recv_addr;
          out_length = 0x30;
          memory = copy (out + 4) 192 (ops.ident d) mem;
          device = d;
        }
        else if cmd == 3
        then plain resp_ack (ops.reset d) recv_addr mem d
        else if cmd == 4
        then plain resp_ack (ops.shutdown d) recv_addr mem d
        else if cmd == 9
        then with_data (out + 8) 1 (put_word (out + 4) func) (ops.get_condition d func) recv_addr
            mem d
        else if cmd == 14
        then acknowledged (ops.set_condition d func (λ i. mem (buf + 16 + i)) (sub32 size 1))
            recv_addr mem d
        else if cmd == 10
        then with_data (out + 8) 1 (put_word (out + 4) func)
            (ops.get_memory_info d func (get_word mem (buf + 16))) recv_addr mem d
        else if cmd == 11
        then with_data (out + 12) 2
            (λ x. put_word (out + 8) (get_word mem (buf + 16)) (put_word (out + 4) func x))
            (ops.read_block d func pt block phase) recv_addr mem d
        else if cmd == 12
        then acknowledged
            (ops.write_block d func pt block phase (λ i. mem (buf + 20 + i)) (sub32 size 2))
            recv_addr mem d
        else plain (if cmd == 13 then resp_ack else err_cmd_unknown) none recv_addr mem d

    -- The header of the answer, behind the switch.
    abbrev pub put_header : ℕ → ℕ → ℕ → ℕ → Answer D → Memory
    put_header out send_addr periph mask a = put_byte (out + 3) a.out_length (
        put_byte (out + 2) (if periph == 0 then bit_or a.recv_addr mask else a.recv_addr)
          (put_byte (out + 1) send_addr (put_byte out a.status a.memory)))

    -- The part of a round behind the sanity checks.
    unfoldable pub answer_packet : ℕ → ℕ → Maple D → Maple D
    answer_packet buf out m =
        let mem = m.memory in
        let port = bit_and (mem (buf + 2)) 0x03 in
        let recv_addr = mem (buf + 9) in
        let periph = periph_of (bit_and recv_addr 0x3f) in
        elim (m.devices port periph) [
          | none ↦ record m { memory = put_word out 0xffff_ffff mem }
          | some d ↦
              let a = execute (mem (buf + 8)) buf out periph recv_addr (m.devices port) mem d in
              record m {
                memory = put_header out (mem (buf + 10)) periph (m.periph_mask port) a;
                devices = set_device port periph (some a.device) m.devices;
              }
        ]

    abbrev pub is_good : ℕ → ℕ → Maple D → Bool
    is_good buf out m =
        m.memory (buf + 11) == m.memory buf
        && m.memory (buf + 9) / 2 ^ 6 == bit_and (m.memory (buf + 2)) 0x03
        && m.mapped out

    abbrev pub schedule_dma : Maple D → Maple D
    schedule_dma m = record m { machine = event_schedule event_maple_dma 200000 m.machine }

    -- The light gun of the port answers later; without one the event is scheduled at once.
    unfoldable pub start_gun : Option D → Maple D → Maple D
    start_gun none m = schedule_dma m
    start_gun (some d) m =
        if ops.has_start_gun d then notify true (gun_started (ops.name d)) m else schedule_dma m

    unfoldable pub handle_packet : ℕ → Maple D → Outcome D
    handle_packet buf m =
        let mem = m.memory in
        let mode = bit_and (mem (buf + 1)) 0x07 in
        let out = get_word mem (buf + 4) in
        if mode == 2
        then returned (start_gun (m.devices (bit_and (mem (buf + 2)) 0x03) 0) m)
        else if mode == 7
        then next (buf + 4) m
        else if not (bit_and out 0x1c00_0000 == 0x0c00_0000) || not (is_good buf out m)
        then broken m
        else next (buf + 12 + mem buf * 2 ^ 2) (answer_packet buf out m)

    -- The loop, for at most `fuel` packets; `none` if there are more. `last` is read before the
    -- packet is handled.
    unfoldable pub handle_packets : ℕ → ℕ → Maple D → Option (Maple D)
    handle_packets zero buf m = none
    handle_packets (suc fuel) buf m =
        let last = any_set (m.memory (buf + 3)) 0x80 in
        elim (handle_packet buf m) [
          | returned m' ↦ some m'
          | broken m' ↦ some (schedule_dma m')
          | next buf' m' ↦
              let rest = handle_packets fuel buf' m' in
              if last then some (schedule_dma m') else rest
        ]

    unfoldable pub maple_handle_buffer : ℕ → ℕ → Maple D → Option (Maple D)
    maple_handle_buffer fuel address m =
        if m.mapped address then handle_packets fuel address m else some m
