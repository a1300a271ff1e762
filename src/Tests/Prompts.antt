-- ===== src/Tests/Prompts.antt =====
-- The prompts of evdev_map, answered with a concrete gamepad.
use moonlight_embedded_crash.Prelude.{
  ℕ, inl, inr, sym, ◌==◌, if◌then◌else◌, if_true, if_false, Bool-cases, ◌≡◌, refl, true, false,
  none, some, arith,
}
use mathlib.Core.Path.{subst}
use moonlight_embedded_crash.Prelude.Int.{pos, negsuc, ◌+ℤ◌, ◌-ℤ◌, quot}
use moonlight_embedded_crash.Prelude.Process.{running, ◌>>=◌}
use moonlight_embedded_crash.Tests.{pad, stick, trigger}
use moonlight_embedded_crash.Mapping.{mapping_save, mapping_load}
use moonlight_embedded_crash.Evdev.{init_parms}
use moonlight_embedded_crash.Evdev.Create.{zero_mapping}
use moonlight_embedded_crash.Evdev.Learn.{Learning}
use moonlight_embedded_crash.Evdev.Map.{evdev_map}
use moonlight_embedded_crash.Evdev.Map.Learns.{Stick, IsStick, answers_to}
use moonlight_embedded_crash.Evdev.Map.Gamepad.{
  button_cross, axis_cross, axis_trigger, button_trigger, GamepadCodes, mapping_of, pairs,
}
use moonlight_embedded_crash.Evdev.Map.Pad.{mapping_load-evdev_map}

-- An axis that is moved to its ends and released.
abbrev moved_stick : Stick
moved_stick = record {
  parms = init_parms stick;
  far = pos 32767;
  near = negsuc 32767;
  rest = pos 0;
}

moved_stick-IsStick : IsStick moved_stick
unfolding init_parms quot ◌+ℤ◌ ◌-ℤ◌
moved_stick-IsStick = record {
  far_above = refl;
  near_not_above = refl;
  near_below = refl;
  rest_not_above = refl;
  rest_not_below = refl;
}

-- A trigger that goes from 0 to 255, and passes the middle.
abbrev pulled_trigger : Stick
pulled_trigger = record { parms = init_parms trigger; far = pos 255; near = pos 10; rest = pos 127 }

pulled_trigger-IsStick : IsStick pulled_trigger
unfolding init_parms quot ◌+ℤ◌ ◌-ℤ◌
pulled_trigger-IsStick = record {
  far_above = refl;
  near_not_above = refl;
  near_below = refl;
  rest_not_above = refl;
  rest_not_below = refl;
}

abbrev xbox : GamepadCodes
xbox = record {
  axis_x = 0;
  axis_y = 1;
  axis_rx = 2;
  axis_ry = 3;
  flip_x = false;
  flip_y = true;
  flip_rx = false;
  flip_ry = true;
  dpad_x = button_cross 544 545;
  dpad_y = axis_cross 5 true;
  left_trigger = axis_trigger 6 true;
  right_trigger = button_trigger 315;
  button_south = 304;
  button_east = 305;
  button_north = 306;
  button_west = 307;
  button_select = 308;
  button_start = 309;
  button_mode = 310;
  button_thumbl = 311;
  button_thumbr = 312;
  button_tl = 313;
  button_tr = 314;
}

abbrev unlearned : Learning
unlearned = record { map = pad; key = none; axis = none; put_reverse = λ reverse m. m }

-- The trigger's axis, which is at the low end when it is released, is passed from there.
abbrev sticks : ℕ → Stick
sticks code = if code == 6 then pulled_trigger else moved_stick

sticks-IsStick : (code : ℕ) → IsStick (sticks code)
sticks-IsStick code = elim (Bool-cases (code == 6)) [
  | inl e ↦
      subst IsStick (sym (if_true (code == 6) pulled_trigger moved_stick e)) pulled_trigger-IsStick
  | inr e ↦
      subst IsStick (sym (if_false (code == 6) pulled_trigger moved_stick e)) moved_stick-IsStick
]

mapping_load-evdev_map_example :
    let learned = evdev_map unlearned (answers_to sticks (pairs xbox)) in
    (learned ≡ mapping_of pad.abs_deadzone xbox)
    × ((mapping_save true learned >>= λ text. mapping_load (some text) zero_mapping)
        ≡ running (mapping_of pad.abs_deadzone xbox))
mapping_load-evdev_map_example =
    mapping_load-evdev_map sticks xbox unlearned zero_mapping sticks-IsStick
      (record {
        axis_x_fits = omega arith;
        axis_y_fits = omega arith;
        axis_rx_fits = omega arith;
        axis_ry_fits = omega arith;
        dpad_x_fits = (omega arith, omega arith);
        dpad_y_fits = omega arith;
        left_trigger_fits = omega arith;
        right_trigger_fits = omega arith;
        south_fits = omega arith;
        east_fits = omega arith;
        north_fits = omega arith;
        west_fits = omega arith;
        select_fits = omega arith;
        start_fits = omega arith;
        mode_fits = omega arith;
        thumbl_fits = omega arith;
        thumbr_fits = omega arith;
        tl_fits = omega arith;
        tr_fits = omega arith;
      })
      (omega arith, omega arith)
