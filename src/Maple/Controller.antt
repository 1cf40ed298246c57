-- ===== src/Maple/Controller.antt =====
-- maple/controller.c: the controller. A button is 0 in `condition[0]` while it is down, a trigger has
-- eight bits of 1 there; `condition[1]` has the two axes of the stick.
use lxdream.Base.{
  ℕ, ◌-◌, ◌*◌, ◌/◌, ◌%◌, ◌^◌, Bool, true, false, ◌||◌, List, [], ◌∷◌, ◌++◌, bit_and, bit_or, ◌==◌,
  if◌then◌else◌, add32, sub32,
}

pub record Controller : Type 0 where
  pub buttons : ℕ
  pub axes : ℕ

abbrev pub controller_new : Controller
controller_new = record { buttons = 0x0000_ffff; axes = 0x8080_8080 }

abbrev pub joy_left : ℕ
joy_left = 0x8000_0001

abbrev pub joy_right : ℕ
joy_right = 0x8000_0002

abbrev pub joy_up : ℕ
joy_up = 0x8000_0004

abbrev pub joy_down : ℕ
joy_down = 0x8000_0008

abbrev pub is_trigger : ℕ → Bool
is_trigger value = value == 0xff00_0000 || value == 0x00ff_0000

-- The axes with another value for x or y, which are 8 bits each.
abbrev pub set_x : ℕ → Controller → Controller
set_x x c = record c { axes = bit_or (bit_and c.axes 0xffff_ff00) (bit_and x 0xff) }

abbrev pub set_y : ℕ → Controller → Controller
set_y y c = record c { axes = bit_or (bit_and c.axes 0xffff_00ff) (bit_and y 0xff * 2 ^ 8) }

abbrev set_bits : ℕ → Controller → Controller
set_bits value c = record c { buttons = bit_or c.buttons value }

abbrev clear_bits : ℕ → Controller → Controller
clear_bits value c = record c { buttons = bit_and c.buttons (0xffff_ffff - value) }

unfoldable pub controller_key_callback : ℕ → ℕ → Bool → Controller → Controller
controller_key_callback value pressure true c =
    if value == joy_left
    then set_x (sub32 0x7f pressure) c
    else if value == joy_right
    then set_x (add32 0x80 pressure) c
    else if value == joy_up
    then set_y (sub32 0x7f pressure) c
    else if value == joy_down
    then set_y (add32 0x80 pressure) c
    else if is_trigger value
    then set_bits value c
    else clear_bits value c
controller_key_callback value pressure false c =
    if value == joy_left || value == joy_right
    then set_x 0x80 c
    else if value == joy_up || value == joy_down
    then set_y 0x80 c
    else if is_trigger value
    then clear_bits value c
    else set_bits value c

-- A 32-bit word as it lies in the memory.
abbrev pub word_bytes : ℕ → List ℕ
word_bytes x = x % 256 ∷ x / 2 ^ 8 % 256 ∷ x / 2 ^ 16 % 256 ∷ x / 2 ^ 24 % 256 ∷ []

unfoldable pub controller_get_cond : ℕ → Controller → ℕ × ℕ × List ℕ
controller_get_cond function c =
    if function == 0x0100_0000
    then (0, 2, word_bytes c.buttons ++ word_bytes c.axes)
    else (0xffff_fffe, 0, [])
