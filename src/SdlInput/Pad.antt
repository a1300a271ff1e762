-- ===== src/SdlInput/Pad.antt =====
-- sdlinput_handle_event: the axes and buttons of game controllers.
use moonlight_embedded_crash.Prelude.Int.{pattern_of, ℤ, pos, negsuc, ◌+ℤ◌, ◌-ℤ◌, to_short}
use moonlight_embedded_crash.Prelude.{
  ℕ, ◌/◌, Option, none, some, List, [], ◌∷◌, ◌==◌, if◌then◌else◌, get_elem?, set,
}
use moonlight_embedded_crash.Prelude.Bits.{Bits, ◌|b◌, ◌&b◌, ~b}
use moonlight_embedded_crash.Limelight.{Limelight, Action, down, up, Sent, controller}
use moonlight_embedded_crash.SdlInput.{
  GamepadState, SdlInput, SdlCodes, nothing, SdlHandled, get_gamepad,
}

-- value >> 8, which rounds towards minus infinity.
abbrev pub high_byte : ℤ → ℤ
high_byte (pos n) = pos (n / 256)
high_byte (negsuc n) = negsuc (n / 256)

-- (value >> 8) + 127, stored in a char.
unfoldable pub trigger_byte : ℤ → ℕ
trigger_byte value = pattern_of 8 (high_byte value +ℤ pos 127)

-- -value - 1, stored in a short.
unfoldable pub inverted : ℤ → ℤ
inverted value = to_short (pos 0 -ℤ value -ℤ pos 1)

module _ (lime : Limelight) (codes : SdlCodes) where
  -- The switch on event->caxis.axis, or nothing in the case `default`.
  unfoldable pub set_axis : ℕ → ℤ → GamepadState → Option GamepadState
  set_axis axis value g =
      if axis == codes.axis_leftx
      then some (record g { left_stick_x = value })
      else if axis == codes.axis_lefty
      then some (record g { left_stick_y = inverted value })
      else if axis == codes.axis_rightx
      then some (record g { right_stick_x = value })
      else if axis == codes.axis_righty
      then some (record g { right_stick_y = inverted value })
      else if axis == codes.axis_triggerleft
      then some (record g { left_trigger = trigger_byte value })
      else if axis == codes.axis_triggerright
      then some (record g { right_trigger = trigger_byte value })
      else none

  -- The switch on event->cbutton.button, or nothing in the case `default`.
  unfoldable pub flag_of : ℕ → Option Bits
  flag_of n =
      if n == codes.button_a
      then some lime.a_flag
      else if n == codes.button_b
      then some lime.b_flag
      else if n == codes.button_y
      then some lime.y_flag
      else if n == codes.button_x
      then some lime.x_flag
      else if n == codes.button_dpad_up
      then some lime.up_flag
      else if n == codes.button_dpad_down
      then some lime.down_flag
      else if n == codes.button_dpad_right
      then some lime.right_flag
      else if n == codes.button_dpad_left
      then some lime.left_flag
      else if n == codes.button_back
      then some lime.back_flag
      else if n == codes.button_start
      then some lime.play_flag
      else if n == codes.button_guide
      then some lime.special_flag
      else if n == codes.button_leftstick
      then some lime.ls_clk_flag
      else if n == codes.button_rightstick
      then some lime.rs_clk_flag
      else if n == codes.button_leftshoulder
      then some lime.lb_flag
      else if n == codes.button_rightshoulder
      then some lime.rb_flag
      else none

  unfoldable pub press : Action → Bits → Bits → Bits
  press down flag buttons = buttons |b flag
  press up flag buttons = buttons &b ~b flag

  abbrev press_flag : Action → Option Bits → GamepadState → Option GamepadState
  press_flag action none g = none
  press_flag action (some flag) g = some (record g { buttons = press action flag g.buttons })

  unfoldable pub set_button : Action → ℕ → GamepadState → Option GamepadState
  set_button action n g = press_flag action (flag_of n) g

-- The arguments of LiSendMultiControllerEvent.
abbrev pub report_of : GamepadState → Sent
report_of g = controller g.id (record {
  button_flags = g.buttons;
  left_trigger = g.left_trigger;
  right_trigger = g.right_trigger;
  left_stick_x = g.left_stick_x;
  left_stick_y = g.left_stick_y;
  right_stick_x = g.right_stick_x;
  right_stick_y = g.right_stick_y;
})

abbrev pub store_pad : SdlInput → List GamepadState → ℕ → Option GamepadState → SdlHandled
store_pad s gs i none = record { input = record s { gamepads = gs }; sent = []; result = nothing }
store_pad s gs i (some g) = record {
  input = record s { gamepads = set gs i g };
  sent = report_of g ∷ [];
  result = nothing;
}

-- The slot that get_gamepad returns is in the table.
abbrev pub change_slot :
    (GamepadState → Option GamepadState) → Option GamepadState → Option GamepadState
change_slot f none = none
change_slot f (some g) = f g

-- SDL_CONTROLLERAXISMOTION, SDL_CONTROLLERBUTTONDOWN and SDL_CONTROLLERBUTTONUP of the controller
-- `which`.
unfoldable pub handle_pad : (GamepadState → Option GamepadState) → ℤ → SdlInput → SdlHandled
handle_pad f which s =
    let (i, gs) = get_gamepad which s.gamepads in store_pad s gs i (change_slot f (get_elem? gs i))
