-- ===== src/Maple/Replies.antt =====
-- What maple_handle_buffer of maple/maple.c does on every kind of packet.
use lxdream.Base.{
  ℕ, suc, ◌+◌, ◌*◌, ◌%◌, ◌^◌, ◌≡◌, refl, sym, subst, ◌∙◌, ap, Bool, true, false, ◌&&◌, ◌||◌, Option,
  none, inl, inr, Bool-cases, some, arith, bit_and, bit_or, ltb, leb, ◌==◌, if◌then◌else◌, any_set,
  sub32,
}
use lxdream.Machine.{Machine}
use lxdream.EventQueue.{event_schedule}
use lxdream.Maple.{Operations, Maple, is_some, set_device}
use lxdream.Maple.Packet.{
  event_maple_dma, err_cmd_unknown, periph_of, plain, acknowledged, with_data, execute, put_header,
  answer_packet, start_gun, schedule_dma, handle_packet, handle_packets, maple_handle_buffer,
  Outcome, next, broken, returned, get_word, Answer,
}

module _ {D : Type 0} (ops : Operations D) where
  answer_packet-machine :
      (buf out : ℕ) (m : Maple D) → (answer_packet ops buf out m).machine ≡ m.machine
  unfolding answer_packet
  answer_packet-machine buf out m = ground arith

  -- The state that a round leaves, but for a return.
  abbrev state_of : Maple D → Outcome D → Machine
  state_of m (next buf m') = m'.machine
  state_of m (broken m') = m'.machine
  state_of m (returned m') = m.machine

  abbrev is_returned : Outcome D → Bool
  is_returned (next buf m) = false
  is_returned (broken m) = false
  is_returned (returned m) = true

  handle_packet-machine : (buf : ℕ) (m : Maple D) → state_of m (handle_packet ops buf m) ≡ m.machine
  unfolding handle_packet
  handle_packet-machine buf m = grind (arith, answer_packet-machine)

  handle_packet-returned :
      (buf : ℕ) (m : Maple D)
      → (bit_and (m.memory (buf + 1)) 0x07 == 2) ≡ false
      → is_returned (handle_packet ops buf m) ≡ false
  unfolding handle_packet
  handle_packet-returned buf m n = ground arith

  last_round :
      (fuel buf : ℕ) (m : Maple D) (o : Outcome D)
      → handle_packet ops buf m ≡ o
      → is_returned o ≡ false
      → any_set (m.memory (buf + 3)) 0x80 ≡ true
      → (m' : Maple D) × (handle_packets ops (suc fuel) buf m ≡ some m')
        × (m'.machine ≡ event_schedule event_maple_dma 200000 (state_of m o))
  unfolding handle_packets
  last_round fuel buf m (returned r) e n l = ground arith
  last_round fuel buf m (broken r) e n l = (schedule_dma ops r, rw (e, handle_packets) refl, refl)
  last_round fuel buf m (next b r) e n l =
      (schedule_dma ops r, rw (e, l, handle_packets) refl, refl)

  -- Whether the packet is for a light gun that is there: it answers later.
  abbrev pub has_gun : Option D → Bool
  has_gun none = false
  has_gun (some d) = ops.has_start_gun d

  abbrev pub answers_later : ℕ → Maple D → Bool
  answers_later buf m =
      bit_and (m.memory (buf + 1)) 0x07 == 2
      && has_gun (m.devices (bit_and (m.memory (buf + 2)) 0x03) 0)

  start_gun-none :
      (gun : Option D) (m : Maple D)
      → has_gun gun ≡ false
      → start_gun ops gun m ≡ schedule_dma ops m
  unfolding start_gun
  start_gun-none none m h = refl
  start_gun-none (some d) m h = rw h refl

  handle_packet-gun :
      (buf : ℕ) (m : Maple D)
      → (bit_and (m.memory (buf + 1)) 0x07 == 2) ≡ true
      → has_gun (m.devices (bit_and (m.memory (buf + 2)) 0x03) 0) ≡ false
      → handle_packet ops buf m ≡ returned (schedule_dma ops m)
  unfolding handle_packet
  handle_packet-gun buf m y n =
      rw (y, handle_packet)
        (ap returned (start_gun-none (m.devices (bit_and (m.memory (buf + 2)) 0x03) 0) m n))

  gun_round :
      (fuel buf : ℕ) (m : Maple D)
      → handle_packet ops buf m ≡ returned (schedule_dma ops m)
      → handle_packets ops (suc fuel) buf m ≡ some (schedule_dma ops m)
  unfolding handle_packets
  gun_round fuel buf m e = rw (e, handle_packets) refl

  -- If a buffer is mapped and its first packet ends it, since it is marked as the last or is one for
  -- a light gun, `maple_handle_buffer` returns after that packet with the event that ends the
  -- transfer scheduled, and nothing else of the machine changed, whatever the packet holds: a bad
  -- address, a bad recipient, a device that is not there, or a command that the device does not
  -- know. The one exception is a packet for a light gun that is there.
  pub maple_handle_buffer-ends :
      (fuel address : ℕ) (m : Maple D)
      → m.mapped address ≡ true
      → answers_later address m ≡ false
      → (any_set (m.memory (address + 3)) 0x80 || bit_and (m.memory (address + 1)) 0x07 == 2) ≡ true
      → (m' : Maple D) × (maple_handle_buffer ops (suc fuel) address m ≡ some m')
        × (m'.machine ≡ event_schedule event_maple_dma 200000 m.machine)
  unfolding maple_handle_buffer
  maple_handle_buffer-ends fuel address m y n l =
      elim (Bool-cases (bit_and (m.memory (address + 1)) 0x07 == 2)) [
        | inl gun ↦
            let absent : has_gun (m.devices (bit_and (m.memory (address + 2)) 0x03) 0) ≡ false =
              sym (ap (λ b. b && has_gun (m.devices (bit_and (m.memory (address + 2)) 0x03) 0)) gun)
              ∙ n in
            (
              schedule_dma ops m,
              rw (y, maple_handle_buffer)
                  (gun_round fuel address m (handle_packet-gun address m gun absent)),
              refl,
            )
        | inr other ↦
            let o = handle_packet ops address m in
            let (m', e, s) =
              last_round fuel address m o refl (handle_packet-returned address m other)
                (ground (arith, l, other)) in
            (
              m',
              rw (y, maple_handle_buffer) e,
              s
                  ∙ ap (λ x. event_schedule event_maple_dma 200000 x)
                      (handle_packet-machine address m),
            )
      ]

  -- Whether the command is one of the bus, or one for which the device has a function.
  abbrev pub is_known : ℕ → Maple D → D → Bool
  is_known buf m d =
      let mem = m.memory in
      let cmd = mem (buf + 8) in
      let func = get_word mem (buf + 12) in
      let pt = mem (buf + 16) in
      let phase = mem (buf + 17) in
      let block = bit_or (mem (buf + 18) * 2 ^ 8) (mem (buf + 19)) in
      if cmd == 9
      then is_some (ops.get_condition d func)
      else if cmd == 10
      then is_some (ops.get_memory_info d func (get_word mem (buf + 16)))
      else if cmd == 11
      then is_some (ops.read_block d func pt block phase)
      else if cmd == 12
      then is_some
          (ops.write_block d func pt block phase (λ i. mem (buf + 20 + i)) (sub32 (mem buf) 2))
      else if cmd == 14
      then is_some (ops.set_condition d func (λ i. mem (buf + 16 + i)) (sub32 (mem buf) 1))
      else cmd == 1 || cmd == 2 || cmd == 3 || cmd == 4 || cmd == 13

  execute_unknown :
      (buf out periph recv : ℕ) (ds : ℕ → Option D) (m : Maple D) (d : D)
      → is_known buf m d ≡ false
      → execute ops (m.memory (buf + 8)) buf out periph recv ds m.memory d ≡ record {
        status = err_cmd_unknown;
        recv_addr = recv;
        out_length = 0;
        memory = m.memory;
        device = d;
      }
  unfolding execute plain acknowledged with_data
  execute_unknown buf out periph recv ds m d n = ground (arith, n)

  -- The answer of a device that is there.
  abbrev answered : ℕ → ℕ → ℕ → ℕ → Maple D → Answer D → Maple D
  answered buf out port periph m a = record m {
    memory = put_header ops out (m.memory (buf + 10)) periph (m.periph_mask port) a;
    devices = set_device port periph (some a.device) m.devices;
  }

  answer_packet-step :
      (buf out : ℕ) (m : Maple D) (d : D)
      → let port = bit_and (m.memory (buf + 2)) 0x03 in
        let recv = m.memory (buf + 9) in
        let periph = periph_of (bit_and recv 0x3f) in
        m.devices port periph ≡ some d
        → answer_packet ops buf out m
          ≡ answered buf out port periph m
              (execute ops (m.memory (buf + 8)) buf out periph recv (m.devices port) m.memory d)
  unfolding answer_packet
  answer_packet-step buf out m d e = rw (e, answer_packet) refl

  refused-header :
      (buf out port periph recv i : ℕ) (m : Maple D) (d : D)
      → (leb out i && ltb i (out + 4)) ≡ false
      → let a : Answer D = record {
        status = err_cmd_unknown;
        recv_addr = recv;
        out_length = 0;
        memory = m.memory;
        device = d;
      } in
        let m' = answered buf out port periph m a in
        (m'.memory out ≡ 0xfd)
        × (m'.memory (out + 1) ≡ m.memory (buf + 10) % 256)
        × (m'.memory (out + 3) ≡ 0)
        × (m'.memory i ≡ m.memory i)
        × (m'.devices port periph ≡ some d)
  refused-header buf out port periph recv i m d r =
      (ground arith, ground arith, ground arith, ground (arith, r), ground arith)

  -- A packet for a device that is there, with a command that is not one of the bus and for which
  -- the device has no function, is answered with MAPLE_ERR_CMD_UNKNOWN, the sender's address and
  -- the length 0; no other byte of the memory changes, nor does the device.
  pub answer_packet-unknown :
      (buf out i : ℕ) (m : Maple D) (d : D)
      → let port = bit_and (m.memory (buf + 2)) 0x03 in
        let periph = periph_of (bit_and (m.memory (buf + 9)) 0x3f) in
        m.devices port periph ≡ some d
        → is_known buf m d ≡ false
        → (leb out i && ltb i (out + 4)) ≡ false
        → let m' = answer_packet ops buf out m in
          (m'.memory out ≡ 0xfd)
          × (m'.memory (out + 1) ≡ m.memory (buf + 10) % 256)
          × (m'.memory (out + 3) ≡ 0)
          × (m'.memory i ≡ m.memory i)
          × (m'.devices port periph ≡ some d)
  answer_packet-unknown buf out i m d e n r =
      let port = bit_and (m.memory (buf + 2)) 0x03 in
      let recv = m.memory (buf + 9) in
      let periph = periph_of (bit_and recv 0x3f) in
      let step =
        answer_packet-step buf out m d e
        ∙ ap (answered buf out port periph m)
            (execute_unknown buf out periph recv (m.devices port) m d n) in
      let claim : Maple D → Type 0 = λ m'.
        (m'.memory out ≡ 0xfd)
        × (m'.memory (out + 1) ≡ m.memory (buf + 10) % 256)
        × (m'.memory (out + 3) ≡ 0)
        × (m'.memory i ≡ m.memory i)
        × (m'.devices port periph ≡ some d) in
      subst claim (sym step) (refused-header buf out port periph recv i m d r)
