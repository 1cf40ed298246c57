-- ===== src/Maple/Devices.antt =====
-- The devices of the Maple bus as one interface: the tables base_controller, base_keyboard and
-- base_vmu of maple/controller.c, maple/kbd.c and maple/vmu.c. The light gun and the mouse are not
-- modelled.
use lxdream.Base.{ℕ, true, false, Option, none, some, List, [], get_or}
use lxdream.VmuVolume.{Bytes, VmuVolume}
use lxdream.Maple.{Reply, Operations}
use lxdream.Maple.Idents.{controller_ident, keyboard_ident, vmu_ident}
use lxdream.Maple.Controller.{Controller, controller_get_cond}
use lxdream.Maple.Keyboard.{Keyboard, keyboard_get_cond}
use lxdream.Maple.Vmu.{
  Vmu, vmu_attach, vmu_detach, vmu_get_meminfo, vmu_read_block, vmu_write_block,
}

-- What stands behind a `maple_device_t`, by its class.
pub data Class : Type 0 where
  controller : Controller → Class
  keyboard : Keyboard → Class
  vmu : Vmu → Class

-- A device with its address.
pub record Device : Type 0 where
  pub address : ℕ
  pub class : Class

abbrev pub reply : Device → ℕ × ℕ × List ℕ → Reply Device
reply d (status, out_length, bytes) = record {
  status = status;
  out_length = out_length;
  bytes = bytes;
  device = d;
}

abbrev table : Class → List ℕ
table (controller c) = controller_ident
table (keyboard k) = keyboard_ident
table (vmu v) = vmu_ident

-- MAPLE_TYPE_PRIMARY is 8, MAPLE_SLOTS_2 is 0x20, MAPLE_GRAB_DONTCARE is 0.
abbrev class_flags : Class → ℕ
class_flags (controller c) = 0x28
class_flags (keyboard k) = 0x08
class_flags (vmu v) = 0

abbrev get_cond : Device → Class → ℕ → Option (Reply Device)
get_cond d (controller c) function = some (reply d (controller_get_cond function c))
get_cond d (keyboard k) function = some (reply d (keyboard_get_cond function k))
get_cond d (vmu v) function = some (reply d (0, 0, []))

abbrev get_meminfo : Device → Class → ℕ → ℕ → Option (Reply Device)
get_meminfo d (controller c) function pt = none
get_meminfo d (keyboard k) function pt = none
get_meminfo d (vmu v) function pt = some (reply d (vmu_get_meminfo function pt v))

abbrev read_block : Device → Class → ℕ → ℕ → ℕ → Option (Reply Device)
read_block d (controller c) function pt block = none
read_block d (keyboard k) function pt block = none
read_block d (vmu v) function pt block = some (reply d (vmu_read_block function pt block v))

abbrev write_block : Device → Class → ℕ → ℕ → ℕ → ℕ → Bytes → ℕ → Option (ℕ × Device)
write_block d (controller c) function pt block phase input buflen = none
write_block d (keyboard k) function pt block phase input buflen = none
write_block d (vmu v) function pt block phase input buflen =
    let (status, v') = vmu_write_block function pt block phase input buflen v in
    some (status, record d { class = vmu v' })

-- What `attach` and `detach` change in the device itself.
abbrev attach_class : (ℕ → Option VmuVolume) → Class → Class
attach_class load (controller c) = controller c
attach_class load (keyboard k) = keyboard k
attach_class load (vmu v) = vmu (vmu_attach load v)

abbrev detach_class : Class → Class
detach_class (controller c) = controller c
detach_class (keyboard k) = keyboard k
detach_class (vmu v) = vmu (vmu_detach v)

unfoldable pub device_operations : (ℕ → Option VmuVolume) → Operations Device
device_operations load = record {
  name = λ d. d.address;
  flags = λ d. class_flags d.class;
  ident = λ d i. get_or (table d.class) i 0;
  attach = λ d. some (record d { class = attach_class load d.class });
  detach = λ d. some (record d { class = detach_class d.class });
  has_destroy = λ d. true;
  has_start_gun = λ d. false;
  reset = λ d. none;
  shutdown = λ d. none;
  get_condition = λ d function. get_cond d d.class function;
  set_condition = λ d function input buflen. none;
  get_memory_info = λ d function pt. get_meminfo d d.class function pt;
  read_block = λ d function pt block phase. read_block d d.class function pt block;
  write_block = λ d function pt block phase input buflen.
      write_block d d.class function pt block phase input buflen;
}
