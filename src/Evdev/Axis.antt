-- ===== src/Evdev/Axis.antt =====
-- evdev_handle_event, EV_REL and EV_ABS: motion of mice, sticks, triggers and directional pads.
pub mod Dpad
use moonlight_embedded_crash.Prelude.{
  ℕ, zero, suc, ◌+◌, Bool, true, false, not, ◌&&◌, ◌||◌, List, [], ◌∷◌, ◌++◌, Option, none, some,
  length, get_elem?, ltb, ◌==◌, if◌then◌else◌,
}
use moonlight_embedded_crash.Prelude.Int.{ℤ, pos, negsuc, eq_ℤ, ltb_ℤ, to_short}
use moonlight_embedded_crash.Prelude.Bits.{
  Bits, no_bits, ◌|b◌, ◌&b◌, ~b, one_bit, sign_extend, eq_bits, nonzero,
}
use moonlight_embedded_crash.Limelight.{
  Limelight, Action, down, up, ControllerState, Sent, mouse_move, scroll, mouse_button, keyboard,
  controller,
}
use moonlight_embedded_crash.Mapping.{Mapping}
use moonlight_embedded_crash.KeyCodes.{key_codes}
use moonlight_embedded_crash.Evdev.{
  Device, InputEvent, InputCodes, EventType, ev_syn, ev_key, ev_rel, ev_abs, ev_other,
}
use moonlight_embedded_crash.Evdev.Convert.{
  convert_value, convert_value_byte, convert_value_direction,
}
use moonlight_embedded_crash.Evdev.Handled.{Handled, is_zero, choose, is_code, mark}

module _ (lime : Limelight) (codes : InputCodes) where
  unfoldable pub move_mouse : Device → InputEvent → Device
  move_mouse dev ev =
      if ev.code == codes.rel_x
      then record dev { mouse_delta_x = ev.value }
      else if ev.code == codes.rel_y
      then record dev { mouse_delta_y = ev.value }
      else if ev.code == codes.rel_wheel
      then record dev { mouse_scroll = ev.value }
      else dev

  -- What a direction does to a pair of opposite flags: `ahead` for 1, `behind` for -1.
  unfoldable pub set_direction : Bits → Bits → ℤ → Bits → Bits
  set_direction ahead behind dir flags =
      if eq_ℤ dir (pos 1)
      then (flags |b ahead) &b ~b behind
      else if eq_ℤ dir (pos 0)
      then (flags &b ~b ahead) &b ~b behind
      else (flags &b ~b ahead) |b behind

  -- EV_ABS: a stick, a trigger or a directional pad.
  unfoldable pub move_axis : Device → InputEvent → Device × Bool
  move_axis dev ev =
      if is_code ev.code map.abs_x
      then (record dev { left_stick_x = convert_value dev.x_parms map.reverse_x ev.value }, true)
      else if is_code ev.code map.abs_y
      then (record dev { left_stick_y = convert_value dev.y_parms map.reverse_y ev.value }, true)
      else if is_code ev.code map.abs_rx
      then (record dev { right_stick_x = convert_value dev.rx_parms map.reverse_rx ev.value }, true)
      else if is_code ev.code map.abs_ry
      then (record dev { right_stick_y = convert_value dev.ry_parms map.reverse_ry ev.value }, true)
      else if is_code ev.code map.abs_z
      then (record dev { left_trigger = convert_value_byte dev.z_parms ev.value }, true)
      else if is_code ev.code map.abs_rz
      then (record dev { right_trigger = convert_value_byte dev.rz_parms ev.value }, true)
      else if is_code ev.code map.abs_dpad_x
      then (
        record dev {
          button_flags =
              set_direction lime.right_flag lime.left_flag
                (convert_value_direction dev.dpadx_parms map.reverse_dpad_x ev.value)
                dev.button_flags;
        },
        true,
      )
      else if is_code ev.code map.abs_dpad_y
      then (
        record dev {
          button_flags =
              set_direction lime.down_flag lime.up_flag
                (convert_value_direction dev.dpady_parms map.reverse_dpad_y ev.value)
                dev.button_flags;
        },
        true,
      )
      else (dev, false)
    where
      open dev use {map}
