-- ===== src/Evdev/Button.antt =====
-- evdev_handle_event, EV_KEY: the buttons of mice and gamepads.
pub mod Press
use moonlight_embedded_crash.Prelude.{
  ℕ, zero, suc, ◌+◌, Bool, true, false, not, ◌&&◌, ◌||◌, List, [], ◌∷◌, ◌++◌, Option, none, some,
  length, get_elem?, ltb, ◌==◌, if◌then◌else◌,
}
use moonlight_embedded_crash.Prelude.Int.{ℤ, pos, negsuc, eq_ℤ, ltb_ℤ, to_short}
use moonlight_embedded_crash.Prelude.Bits.{
  Bits, no_bits, ◌|b◌, ◌&b◌, ~b, one_bit, sign_extend, eq_bits, nonzero,
}
use moonlight_embedded_crash.Limelight.{
  Limelight, Action, down, up, ControllerState, Sent, mouse_move, scroll, mouse_button, keyboard,
  controller,
}
use moonlight_embedded_crash.Mapping.{Mapping}
use moonlight_embedded_crash.KeyCodes.{key_codes}
use moonlight_embedded_crash.Evdev.{
  Device, InputEvent, InputCodes, EventType, ev_syn, ev_key, ev_rel, ev_abs, ev_other,
}
use moonlight_embedded_crash.Evdev.Convert.{
  convert_value, convert_value_byte, convert_value_direction,
}
use moonlight_embedded_crash.Evdev.Handled.{Handled, is_zero, choose, is_code, mark}

module _ (lime : Limelight) (codes : InputCodes) where
  -- The switch on the other codes: 0 if the code is no mouse button.
  unfoldable pub mouse_code_of : ℕ → ℕ
  mouse_code_of code =
      if code == codes.btn_left
      then lime.button_left
      else if code == codes.btn_middle
      then lime.button_middle
      else if code == codes.btn_right
      then lime.button_right
      else 0

  -- The chain under `default`: the flag of a mapped gamepad button.
  unfoldable pub gamepad_flag_of : Mapping → ℕ → Bits
  gamepad_flag_of map code =
      if is_code code map.btn_south
      then lime.a_flag
      else if is_code code map.btn_west
      then lime.x_flag
      else if is_code code map.btn_north
      then lime.y_flag
      else if is_code code map.btn_east
      then lime.b_flag
      else if is_code code map.btn_dpad_up
      then lime.up_flag
      else if is_code code map.btn_dpad_down
      then lime.down_flag
      else if is_code code map.btn_dpad_right
      then lime.right_flag
      else if is_code code map.btn_dpad_left
      then lime.left_flag
      else if is_code code map.btn_thumbl
      then lime.ls_clk_flag
      else if is_code code map.btn_thumbr
      then lime.rs_clk_flag
      else if is_code code map.btn_tl
      then lime.lb_flag
      else if is_code code map.btn_tr
      then lime.rb_flag
      else if is_code code map.btn_start
      then lime.play_flag
      else if is_code code map.btn_select
      then lime.back_flag
      else if is_code code map.btn_mode
      then lime.special_flag
      else no_bits

  -- `gamepadCode` is a short: where it meets the int `buttonFlags` its sign is extended.
  unfoldable pub gamepad_code_of : Mapping → ℕ → Bits
  gamepad_code_of map code =
      if code == codes.btn_left || code == codes.btn_middle || code == codes.btn_right
      then no_bits
      else sign_extend 16 (gamepad_flag_of map code)

  -- The branch for a gamepad's button, with the local `gamepadModified`.
  unfoldable pub press_button : Device → InputEvent → Device × Bool
  press_button dev ev =
      let code = gamepad_code_of dev.map ev.code in
      if nonzero 16 code
      then (
        record dev {
          button_flags = choose ev.value (dev.button_flags |b code) (dev.button_flags &b ~b code);
        },
        true,
      )
      else if is_code ev.code dev.map.btn_tl2
      then (record dev { left_trigger = choose ev.value 255 0 }, true)
      else if is_code ev.code dev.map.btn_tr2
      then (record dev { right_trigger = choose ev.value 255 0 }, true)
      else (dev, false)

  -- EV_KEY from the size of `keyCodes` on: a button.
  unfoldable pub handle_button : Bits → Device → InputEvent → Handled
  handle_button ids dev ev =
      let mouse_code = mouse_code_of ev.code in
      if not (mouse_code == 0)
      then mark ids (dev, false) (mouse_button (choose ev.value down up) mouse_code ∷ [])
      else mark ids (press_button dev ev) []
