-- ===== src/Maple/Keyboard.antt =====
-- maple/kbd.c: the keyboard. The first byte of `condition` has the shift keys, the bytes from 2 to 7
-- the other keys that are down. A key is what input_keycode_to_dckeysym makes of a key code.
use lxdream.Base.{
  ℕ, ◌-◌, ◌/◌, ◌%◌, ◌^◌, Bool, List, [], ◌∷◌, ◌++◌, bit_and, bit_or, ◌==◌, if◌then◌else◌,
}

-- `condition`: its bytes 0 and 1, and the six bytes behind them.
pub record Keyboard : Type 0 where
  pub shift : ℕ
  pub leds : ℕ
  pub keys : List ℕ

abbrev pub keyboard_new : Keyboard
keyboard_new = record { shift = 0; leds = 0; keys = 0 ∷ 0 ∷ 0 ∷ 0 ∷ 0 ∷ 0 ∷ [] }

-- The loop of `keyboard_key_down` over the rest of the array.
unfoldable pub key_down : ℕ → List ℕ → List ℕ
key_down key [] = []
key_down key (c ∷ cs) =
    let rest = key_down key cs in if c == key then c ∷ cs else if c == 0 then key ∷ cs else c ∷ rest

-- The loop of `keyboard_key_up`: the bytes behind the key move down.
unfoldable pub key_up : ℕ → List ℕ → List ℕ
key_up key [] = []
key_up key (c ∷ cs) = let rest = key_up key cs in if c == key then cs ++ (0 ∷ []) else c ∷ rest

abbrev pub keyboard_key_down : ℕ → Keyboard → Keyboard
keyboard_key_down key k = record k { keys = key_down key k.keys }

abbrev pub keyboard_key_up : ℕ → Keyboard → Keyboard
keyboard_key_up key k = record k { keys = key_up key k.keys }

-- `key` is a 16-bit number; `condition` has bytes.
unfoldable pub keyboard_input_hook : ℕ → Bool → Keyboard → Keyboard
keyboard_input_hook key is_key_down k =
    if key == 0
    then k
    else if key / 2 ^ 8 == 0xff
    then record k {
      shift =
          if is_key_down
          then bit_or k.shift (bit_and key 0xff)
          else bit_and k.shift (0xff - bit_and key 0xff);
    }
    else if is_key_down
    then keyboard_key_down (key % 256) k
    else keyboard_key_up (key % 256) k

abbrev pub err_func_unsup : ℕ
err_func_unsup = 0xffff_fffe

unfoldable pub keyboard_get_cond : ℕ → Keyboard → ℕ × ℕ × List ℕ
keyboard_get_cond function k =
    if function == 0x4000_0000 then (0, 2, k.shift ∷ k.leds ∷ k.keys) else (err_func_unsup, 0, [])
