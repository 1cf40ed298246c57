-- ===== src/Tests/MapleRuns.antt =====
-- The theorems on maple/maple.c, maple/kbd.c, maple/vmu.c and sh4/pmm.c at example states.
use lxdream.Base.{
  zero, suc, ◌+◌, ◌*◌, ◌%◌, ◌≤◌, ◌≡◌, refl, true, false, ◌&&◌, none, some, [], ◌∷◌, arith, ◌==◌,
  if◌then◌else◌,
}
use lxdream.EventQueue.{event_schedule}
use lxdream.VmuVolume.{VmuVolume, default_metadata}
use lxdream.Base.Masks.{any_set-none}
use lxdream.Maple.{
  Maple, periph_index, num_periphs, after, maple_get_device, maple_attach_device,
  maple_detach_device, Operations,
}
use lxdream.Maple.Masks.{IsMasked}
use lxdream.Maple.Attach.{any_device, maple_attach_device-IsMasked, maple_detach_device-IsMasked}
use lxdream.Maple.Keyboard.{Keyboard, keyboard_input_hook}
use lxdream.Maple.Keys.{padded, press, keyboard_input_hook-refines}
use lxdream.Maple.Vmu.{Vmu}
use lxdream.Maple.Devices.{Device, keyboard, device_operations}
use lxdream.Maple.Packet.{
  Memory, event_maple_dma, resp_ack, resp_data, execute, maple_handle_buffer,
}
use lxdream.Maple.Replies.{maple_handle_buffer-ends}
use lxdream.Maple.Card.{card, write-read}
use lxdream.Pmm.{PmmCounter}
use lxdream.Pmm.Count.{looked, looked-bounds}
use lxdream.Tests.{machine}

abbrev volume : VmuVolume
volume = record {
  part_count = 1;
  dirty = false;
  part = λ p. record { metadata = default_metadata; block_count = 256; blocks = λ i. 0 };
}

abbrev memory_card : Vmu
memory_card = record { vol = some volume; lcd_bitmap = λ i. 0; volume = none }

abbrev typed : Keyboard
typed = record { shift = 0; leds = 0; keys = 4 ∷ 5 ∷ 0 ∷ 0 ∷ 0 ∷ 0 ∷ [] }

abbrev board : Device
board = record { address = 1; class = keyboard typed }

abbrev ops : Operations Device
ops = device_operations (λ name. none)

-- A packet to the keyboard at 0x100, with the command to read a block, which it does not know.
abbrev packets : Memory
packets a =
    if a == 0x103
    then 0x80
    else if a == 0x107
    then 0x0c
    else if a == 0x108
    then 11
    else if a == 0x109
    then 0x20
    else a % 4 * 0

abbrev bus : Maple Device
bus = record {
  machine = machine;
  devices = λ i j.
      if i == 0 && j == 0
      then some board
      else if i == 0 && j == 1
      then some (card 2 memory_card)
      else none;
  periph_mask = λ i. if i == 0 then 0x21 else 0;
  memory = packets;
  mapped = λ a. true;
  calls = [];
}

bus-IsMasked : IsMasked bus
bus-IsMasked zero h zero i = refl
bus-IsMasked zero h (suc zero) i = refl
bus-IsMasked zero h (suc (suc zero)) i = refl
bus-IsMasked zero h (suc (suc (suc zero))) i = refl
bus-IsMasked zero h (suc (suc (suc (suc zero)))) i = refl
bus-IsMasked zero h (suc (suc (suc (suc (suc zero))))) i = refl
bus-IsMasked zero h (suc (suc (suc (suc (suc (suc j)))))) i = absurd (omega (arith, i))
bus-IsMasked (suc p) h j i =
    let e : (suc p == 0) ≡ false = ground arith in rw e (any_set-none (periph_index j))

maple_attach_device-IsMasked_example :
    (m' : Maple Device) × (maple_attach_device ops board 0 0 bus ≡ some m')
    × IsMasked m'
    × (maple_get_device 0 0 m' ≡ some (after (ops.attach board) board))
maple_attach_device-IsMasked_example =
    maple_attach_device-IsMasked ops board 0 0 bus (omega arith) (omega arith) bus-IsMasked

maple_detach_device-IsMasked_example :
    (m' : Maple Device) × (maple_detach_device ops 0 0 bus ≡ some m')
    × IsMasked m'
    × (maple_get_device 0 0 m' ≡ none)
    × ((true && any_device ops 0 num_periphs m') ≡ false)
maple_detach_device-IsMasked_example =
    maple_detach_device-IsMasked ops 0 0 bus (omega arith) (omega arith) bus-IsMasked

maple_handle_buffer-ends_example :
    (m' : Maple Device) × (maple_handle_buffer ops 1 0x100 bus ≡ some m')
    × (m'.machine ≡ event_schedule event_maple_dma 200000 machine)
maple_handle_buffer-ends_example = maple_handle_buffer-ends ops 0 0x100 bus refl refl refl

keyboard_input_hook-refines_example :
    keyboard_input_hook 6 true typed ≡ record typed { keys = press 6 4 (4 ∷ 5 ∷ []) }
unfolding padded
keyboard_input_hook-refines_example =
    keyboard_input_hook-refines 6 4 (4 ∷ 5 ∷ []) true typed refl refl refl refl

-- Two packets at 0x100, to write phase 2 of block 3 and to read the block.
abbrev write_packet : Memory
write_packet a =
    if a == 0x100
    then 34
    else if a == 0x10f
    then 2
    else if a == 0x111
    then 2
    else if a == 0x113
    then 3
    else if a == 0x119
    then 77
    else 0

abbrev read_packet : Memory
read_packet a = if a == 0x10f then 2 else if a == 0x113 then 3 else 0

write-read_example :
    let first = execute ops 12 0x100 0x400 1 1 (bus.devices 0) write_packet (card 2 memory_card) in
    let second = execute ops 11 0x100 0x400 1 1 (bus.devices 0) read_packet first.device in
    (first.status ≡ resp_ack)
    × (second.status ≡ resp_data)
    × (second.out_length ≡ 130)
    × (second.memory (0x400 + 12 + (2 * 128 + 5)) ≡ 77)
write-read_example =
    write-read (λ name. none) 0x100 0x400 1 1 0x100 0x400 5 2 (bus.devices 0) write_packet
      read_packet memory_card volume refl refl refl refl (omega arith) refl refl refl (omega arith)

abbrev clock : PmmCounter
clock = record { count = 40; mode = 0x23; runfor = 100 }

looked-bounds_example :
    (40 * 5 ≤ (looked (107 ∷ 207 ∷ []) clock).count * 5)
    × ((looked (107 ∷ 207 ∷ []) clock).count * 5 + 100 ≤ 40 * 5 + 207)
    × (40 * 5 + 207 ≤ (looked (107 ∷ 207 ∷ []) clock).count * 5 + 2 * 4 + 100)
looked-bounds_example =
    looked-bounds (107 ∷ 207 ∷ []) 207 clock refl (omega arith, (omega arith, refl)) (omega arith)
      (omega arith)
