-- ===== src/Evdev/Key.antt =====
-- evdev_handle_event, EV_KEY: the keys of a keyboard.
pub mod Quit
use moonlight_embedded_crash.Prelude.{
  ℕ, zero, suc, ◌+◌, Bool, true, false, not, ◌&&◌, ◌||◌, List, [], ◌∷◌, ◌++◌, Option, none, some,
  length, get_elem?, ltb, ◌==◌, if◌then◌else◌,
}
use moonlight_embedded_crash.Prelude.Int.{ℤ, pos, negsuc, eq_ℤ, ltb_ℤ, to_short}
use moonlight_embedded_crash.Prelude.Bits.{
  Bits, no_bits, ◌|b◌, ◌&b◌, ~b, one_bit, sign_extend, eq_bits, nonzero,
}
use moonlight_embedded_crash.Limelight.{
  Limelight, Action, down, up, ControllerState, Sent, mouse_move, scroll, mouse_button, keyboard,
  controller,
}
use moonlight_embedded_crash.Mapping.{Mapping}
use moonlight_embedded_crash.KeyCodes.{key_codes}
use moonlight_embedded_crash.Evdev.{
  Device, InputEvent, InputCodes, EventType, ev_syn, ev_key, ev_rel, ev_abs, ev_other,
}
use moonlight_embedded_crash.Evdev.Convert.{
  convert_value, convert_value_byte, convert_value_direction,
}
use moonlight_embedded_crash.Evdev.Handled.{Handled, is_zero, choose, is_code, mark}

abbrev pub gets : Option ℕ → ℕ
gets none = 0
gets (some v) = v

module _ (lime : Limelight) (codes : InputCodes) where
  open lime use {modifier_shift, modifier_alt, modifier_ctrl}

  -- The inner switch of EV_KEY on keyboard codes.
  unfoldable pub modifier_of : ℕ → Bits
  modifier_of code =
      if code == codes.key_leftshift || code == codes.key_rightshift
      then modifier_shift
      else if code == codes.key_leftalt || code == codes.key_rightalt
      then modifier_alt
      else if code == codes.key_leftctrl || code == codes.key_rightctrl
      then modifier_ctrl
      else no_bits

  -- QUIT_MODIFIERS
  abbrev pub quit_modifiers : Bits
  quit_modifiers = modifier_shift |b modifier_alt |b modifier_ctrl

  unfoldable pub update_modifiers : Bits → InputEvent → Bits
  unfolding modifier_of
  update_modifiers modifiers ev =
      let modifier = modifier_of ev.code in
      if nonzero 8 modifier
      then choose ev.value (modifiers |b modifier) (modifiers &b ~b modifier)
      else modifiers

  -- All the quit modifiers are down, and the event presses the quit key.
  unfoldable pub quits : Bits → InputEvent → Bool
  quits modifiers ev =
      eq_bits 8 (modifiers &b quit_modifiers) quit_modifiers
      && ev.code == codes.key_q
      && not (is_zero ev.value)

  -- EV_KEY below the size of `keyCodes`: a key of a keyboard.
  unfoldable pub handle_key : Bits → Device → InputEvent → Handled
  unfolding update_modifiers key_codes quits
  handle_key ids dev ev =
      let modifiers = update_modifiers dev.modifiers ev in
      let dev' = record dev { modifiers = modifiers } in
      if quits modifiers ev
      then record { ids = ids; device = dev'; sent = []; go_on = false }
      else record {
        ids = ids;
        device = dev';
        sent =
            keyboard (to_short (pos (0x8000 + gets (get_elem? key_codes ev.code))))
              (choose ev.value down up) modifiers
            ∷ [];
        go_on = true;
      }
