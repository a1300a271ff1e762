-- ===== src/Evdev/Event.antt =====
-- evdev_handle_event: one input event of a device, against the masks of Limelight.h and the codes
-- of linux/input.h.
pub mod Frame
pub mod Keeps
use moonlight_embedded_crash.Prelude.{
  ℕ, zero, suc, ◌+◌, Bool, true, false, not, ◌&&◌, ◌||◌, List, [], ◌∷◌, ◌++◌, Option, none, some,
  length, get_elem?, ltb, ◌==◌, if◌then◌else◌,
}
use moonlight_embedded_crash.Prelude.Int.{ℤ, pos, negsuc, eq_ℤ, ltb_ℤ, to_short}
use moonlight_embedded_crash.Prelude.Bits.{
  Bits, no_bits, ◌|b◌, ◌&b◌, ~b, one_bit, sign_extend, eq_bits, nonzero,
}
use moonlight_embedded_crash.Limelight.{
  Limelight, Action, down, up, ControllerState, Sent, mouse_move, scroll, mouse_button, keyboard,
  controller,
}
use moonlight_embedded_crash.Mapping.{Mapping}
use moonlight_embedded_crash.KeyCodes.{key_codes}
use moonlight_embedded_crash.Evdev.{
  Device, InputEvent, InputCodes, EventType, ev_syn, ev_key, ev_rel, ev_abs, ev_other,
}
use moonlight_embedded_crash.Evdev.Convert.{
  convert_value, convert_value_byte, convert_value_direction,
}
use moonlight_embedded_crash.Evdev.Handled.{Handled, is_zero, choose, is_code, mark}
use moonlight_embedded_crash.Evdev.Syn.{handle_syn}
use moonlight_embedded_crash.Evdev.Key.{handle_key}
use moonlight_embedded_crash.Evdev.Button.{handle_button}
use moonlight_embedded_crash.Evdev.Axis.{move_mouse, move_axis}

module _ (lime : Limelight) (codes : InputCodes) where
  -- The switch on the event's type.
  unfoldable pub dispatch : EventType → Bits → Device → InputEvent → Handled
  dispatch ev_syn ids dev ev = handle_syn ids dev
  dispatch ev_key ids dev ev =
      if ltb ev.code (length key_codes)
      then handle_key lime codes ids dev ev
      else handle_button lime codes ids dev ev
  dispatch ev_rel ids dev ev = mark ids (move_mouse lime codes dev ev, false) []
  dispatch ev_abs ids dev ev = mark ids (move_axis lime codes dev ev) []
  dispatch ev_other ids dev ev = mark ids (dev, false) []

  -- evdev_handle_event
  unfoldable pub handle_event : Bits → Device → InputEvent → Handled
  handle_event ids dev ev = dispatch ev.type ids dev ev
