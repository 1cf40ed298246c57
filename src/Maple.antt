-- ===== src/Maple.antt =====
-- maple/maple.c: the Maple bus with four ports of six devices each. `D` is the state of a device;
-- its table of functions is the interface `Operations`, which the devices implement.
pub mod Attach
pub mod Detach
pub mod Controller
pub mod Card
pub mod Devices
pub mod Keys
pub mod Idents
pub mod Keyboard
pub mod Vmu
pub mod Masks
pub mod Packet
pub mod Replies
use lxdream.Base.{
  ℕ, zero, suc, ◌+◌, ◌-◌, ◌*◌, ◌/◌, ◌%◌, ◌^◌, Bool, true, false, not, ◌&&◌, ◌||◌, Option, none,
  some, List, [], ◌∷◌, ◌++◌, bit_and, bit_or, ltb, leb, ◌==◌, if◌then◌else◌, any_set, sub32,
}
use lxdream.Machine.{Machine}
use lxdream.EventQueue.{event_schedule}

-- What a device's function returns: the status, an `int` by its 32-bit pattern, the length in words
-- and the bytes that it has put in the buffer.
pub record Reply (D : Type 0) : Type 0 where
  pub status : ℕ
  pub out_length : ℕ
  pub bytes : List ℕ
  pub device : D

-- maple.h, struct maple_device. `name` stands for the address of the device, `ident` for the bytes
-- from `ident` on, with `version` behind them. A function that may be NULL returns `none` then.
pub record Operations (D : Type 0) : Type 0 where
  pub name : D → ℕ
  pub flags : D → ℕ
  pub ident : D → ℕ → ℕ
  pub attach : D → Option D
  pub detach : D → Option D
  pub has_destroy : D → Bool
  pub has_start_gun : D → Bool
  pub reset : D → Option (ℕ × D)
  pub shutdown : D → Option (ℕ × D)
  pub get_condition : D → ℕ → Option (Reply D)
  pub set_condition : D → ℕ → (ℕ → ℕ) → ℕ → Option (ℕ × D)
  pub get_memory_info : D → ℕ → ℕ → Option (Reply D)
  pub read_block : D → ℕ → ℕ → ℕ → ℕ → Option (Reply D)
  pub write_block : D → ℕ → ℕ → ℕ → ℕ → (ℕ → ℕ) → ℕ → Option (ℕ × D)

-- A call of a function of the device with this name that concerns the rest of the emulator.
pub data BusCall : Type 0 where
  attached detached destroyed gun_started : ℕ → BusCall

-- The variables of the file, and the memory behind mem_get_region, a byte for each address.
-- `mapped` tells where that function does not return NULL; `calls` has the first call first.
pub record Maple (D : Type 0) : Type 0 where
  pub machine : Machine
  pub devices : ℕ → ℕ → Option D
  pub periph_mask : ℕ → ℕ
  pub memory : ℕ → ℕ
  pub mapped : ℕ → Bool
  pub calls : List BusCall

abbrev pub num_ports : ℕ
num_ports = 4

abbrev pub num_periphs : ℕ
num_periphs = 6

module _ {D : Type 0} where
  abbrev pub set_device : ℕ → ℕ → Option D → (ℕ → ℕ → Option D) → ℕ → ℕ → Option D
  set_device port periph d ds i j = if i == port && j == periph then d else ds i j

  abbrev pub set_mask : ℕ → ℕ → Maple D → Maple D
  set_mask port mask m = record m { periph_mask = λ i. if i == port then mask else m.periph_mask i }

  unfoldable pub maple_get_device : ℕ → ℕ → Maple D → Option D
  maple_get_device port periph m =
      if leb num_ports port
      then none
      else if leb num_periphs periph
      then none
      else m.devices port periph

  abbrev pub is_some : Option D → Bool
  is_some none = false
  is_some (some d) = true

  -- A device after a call of a function that may be NULL.
  abbrev pub after : Option D → D → D
  after none d = d
  after (some d') d = d'

  abbrev pub notify : Bool → BusCall → Maple D → Maple D
  notify b c m = if b then record m { calls = m.calls ++ (c ∷ []) } else m

-- The bit of a peripheral in the mask of its port.
abbrev pub periph_index : ℕ → ℕ
periph_index zero = 5
periph_index (suc k) = k

abbrev pub periph_bit : ℕ → ℕ
periph_bit periph = 2 ^ periph_index periph

module _ {D : Type 0} (ops : Operations D) where
  -- The device is told that it is detached, and destroyed.
  abbrev pub release : D → Maple D → Maple D
  release d m =
      notify (ops.has_destroy d) (destroyed (ops.name d))
        (notify (is_some (ops.detach d)) (detached (ops.name d)) m)

  -- `maple_detach_device` for a subperipheral.
  unfoldable pub detach_sub : ℕ → ℕ → Maple D → Maple D
  detach_sub port periph m = elim (m.devices port periph) [
    | none ↦ m
    | some d ↦
        let m' = release d (record m { devices = set_device port periph none m.devices }) in
        set_mask port (bit_and (m'.periph_mask port) (0xffff_ffff - periph_bit periph)) m'
  ]

  -- The first `n` subperipherals, in their order.
  unfoldable pub detach_subs : ℕ → ℕ → Maple D → Maple D
  detach_subs port zero m = m
  detach_subs port (suc n) m = detach_sub port (suc n) (detach_subs port n m)

  -- `maple_detach_device` for the main peripheral, which takes its subperipherals with it.
  unfoldable pub detach_main : ℕ → Maple D → Maple D
  detach_main port m = elim (m.devices port 0) [
    | none ↦ m
    | some d ↦
        let m' =
          set_mask port 0 (release d (record m { devices = set_device port 0 none m.devices })) in
        detach_subs port 5 m'
  ]

  abbrev pub detach_at : ℕ → ℕ → Maple D → Maple D
  detach_at port zero m = detach_main port m
  detach_at port (suc k) m = detach_sub port (suc k) m

  unfoldable pub attach_at : D → ℕ → ℕ → Maple D → Maple D
  attach_at d port periph m =
      let m' : Maple D = elim (m.devices port periph) [
        | none ↦ m
        | some old ↦ detach_at port periph m
      ] in
      let m'' = record m' {
        devices = set_device port periph (some (after (ops.attach d) d)) m'.devices;
      } in
      notify (is_some (ops.attach d)) (attached (ops.name d))
        (set_mask port (bit_or (m''.periph_mask port) (periph_bit periph)) m'')

  abbrev pub fits : ℕ → ℕ → Bool
  fits port periph = ltb port num_ports && ltb periph num_periphs

  -- `none` stands for the failure of an assertion, in this function and the next.
  unfoldable pub maple_attach_device : D → ℕ → ℕ → Maple D → Option (Maple D)
  maple_attach_device d port periph m =
      if fits port periph then some (attach_at d port periph m) else none

  unfoldable pub maple_detach_device : ℕ → ℕ → Maple D → Option (Maple D)
  maple_detach_device port periph m =
      if fits port periph then some (detach_at port periph m) else none

  -- The loops over the ports and their devices, of `n` rounds that end at `4` and `6`.
  unfoldable pub over_periphs : (ℕ → ℕ → D → Maple D → Maple D) → ℕ → ℕ → Maple D → Maple D
  over_periphs f port zero m = m
  over_periphs f port (suc n) m =
      let periph = num_periphs - suc n in
      let m' : Maple D = elim (m.devices port periph) [ none ↦ m | some d ↦ f port periph d m ] in
      over_periphs f port n m'

  -- The pointers to the devices stay, although the devices are destroyed.
  unfoldable pub detach_ports : ℕ → Maple D → Maple D
  detach_ports zero m = m
  detach_ports (suc n) m =
      let port = num_ports - suc n in
      detach_ports n (set_mask port 0 (over_periphs (λ i j. release) port num_periphs m))

  unfoldable pub maple_detach_all : Maple D → Maple D
  maple_detach_all m = detach_ports num_ports m

  abbrev pub reattach : ℕ → ℕ → D → Maple D → Maple D
  reattach port periph d m =
      let d' = after (ops.detach d) d in
      let m' = record m {
        devices = set_device port periph (some (after (ops.attach d') d')) m.devices;
      } in
      notify (is_some (ops.attach d')) (attached (ops.name d))
        (notify (is_some (ops.detach d)) (detached (ops.name d)) m')

  unfoldable pub reattach_ports : ℕ → Maple D → Maple D
  reattach_ports zero m = m
  reattach_ports (suc n) m =
      reattach_ports n (over_periphs reattach (num_ports - suc n) num_periphs m)

  unfoldable pub maple_reattach_all : Maple D → Maple D
  maple_reattach_all m = reattach_ports num_ports m

  -- The highest MAPLE_GRAB of the devices.
  unfoldable pub grab_periphs : ℕ → ℕ → Maple D → ℕ → ℕ
  grab_periphs port zero m mode = mode
  grab_periphs port (suc n) m mode =
      let mode' : ℕ = elim (m.devices port (num_periphs - suc n)) [
        | none ↦ mode
        | some d ↦
            if ltb mode (bit_and (ops.flags d) 0x03) then bit_and (ops.flags d) 0x03 else mode
      ] in
      grab_periphs port n m mode'

  unfoldable pub grab_ports : ℕ → Maple D → ℕ → ℕ
  grab_ports zero m mode = mode
  grab_ports (suc n) m mode = grab_ports n m (grab_periphs (num_ports - suc n) num_periphs m mode)

  unfoldable pub maple_should_grab : Maple D → Bool
  maple_should_grab m = grab_ports num_ports m 0 == 1
