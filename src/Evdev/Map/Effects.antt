-- ===== src/Evdev/Map/Effects.antt =====
-- evdev_map: what the prompts make of the mapping, put together.
use moonlight_embedded_crash.Prelude.{◌≡◌, refl, ap, ◌∙◌, Bool}
use moonlight_embedded_crash.Prelude.Int.{pos}
use moonlight_embedded_crash.Mapping.{Mapping}
use moonlight_embedded_crash.Evdev.Learn.{Place}
use moonlight_embedded_crash.Evdev.Map.{
  ask_abskey, ask_opposite, at_btn_dpad_right, at_abs_dpad_x, at_btn_dpad_left, at_btn_dpad_down,
  at_abs_dpad_y, at_btn_dpad_up, at_btn_tl2, at_abs_z, at_btn_tr2, at_abs_rz, map_prompts,
}
use moonlight_embedded_crash.Evdev.Map.Learns.{effect, effects}
use moonlight_embedded_crash.Evdev.Map.Gamepad.{
  Cross, Trigger, cross_axis, cross_flip, cross_first, cross_second, trigger_axis, trigger_button,
  GamepadCodes, mapping_of, first_reply, second_reply, trigger_reply, pairs, axis_cross,
  button_cross, axis_trigger, button_trigger,
}

-- Both prompts for a direction of the pad.
abbrev ask_cross : Place → Place → Place → (Bool → Mapping → Mapping) → Cross → Mapping → Mapping
ask_cross k p opposite put_reverse x m =
    effect (ask_opposite k opposite) (second_reply x)
      (effect (ask_abskey k p put_reverse) (first_reply x) m)

abbrev cross_x : Cross → Mapping → Mapping
cross_x =
    ask_cross at_btn_dpad_right at_abs_dpad_x at_btn_dpad_left
      (λ b m. record m { reverse_dpad_x = b })

abbrev cross_y : Cross → Mapping → Mapping
cross_y =
    ask_cross at_btn_dpad_down at_abs_dpad_y at_btn_dpad_up (λ b m. record m { reverse_dpad_y = b })

abbrev set_x : Cross → Mapping → Mapping
set_x x m = record m {
  abs_dpad_x = cross_axis x;
  reverse_dpad_x = cross_flip x;
  btn_dpad_right = cross_first x;
  btn_dpad_left = cross_second x;
}

abbrev set_y : Cross → Mapping → Mapping
set_y y m = record m {
  abs_dpad_y = cross_axis y;
  reverse_dpad_y = cross_flip y;
  btn_dpad_down = cross_first y;
  btn_dpad_up = cross_second y;
}

cross_x-set_x : (x : Cross) → cross_x x ≡ set_x x
cross_x-set_x (axis_cross code flip) = refl
cross_x-set_x (button_cross first second) = refl

cross_y-set_y : (y : Cross) → cross_y y ≡ set_y y
cross_y-set_y (axis_cross code flip) = refl
cross_y-set_y (button_cross first second) = refl

abbrev left_effect : Trigger → Mapping → Mapping
left_effect t m = effect (ask_abskey at_btn_tl2 at_abs_z (λ b m. m)) (trigger_reply t) m

abbrev right_effect : Trigger → Mapping → Mapping
right_effect t m = effect (ask_abskey at_btn_tr2 at_abs_rz (λ b m. m)) (trigger_reply t) m

abbrev set_left : Trigger → Mapping → Mapping
set_left t m = record m { abs_z = trigger_axis t; btn_tl2 = trigger_button t }

abbrev set_right : Trigger → Mapping → Mapping
set_right t m = record m { abs_rz = trigger_axis t; btn_tr2 = trigger_button t }

left_effect-set_left : (t : Trigger) → left_effect t ≡ set_left t
left_effect-set_left (axis_trigger code flip) = refl
left_effect-set_left (button_trigger code) = refl

right_effect-set_right : (t : Trigger) → right_effect t ≡ set_right t
right_effect-set_right (axis_trigger code flip) = refl
right_effect-set_right (button_trigger code) = refl

-- The mapping after all prompts, where the pad's two directions and the triggers do as given.
abbrev after_prompts :
    (Mapping → Mapping)
    → (Mapping → Mapping)
    → (Mapping → Mapping)
    → (Mapping → Mapping)
    → GamepadCodes
    → Mapping
    → Mapping
after_prompts x y left right c m =
    let sticks = record m {
      abs_x = pos c.axis_x;
      reverse_x = c.flip_x;
      abs_y = pos c.axis_y;
      reverse_y = c.flip_y;
      btn_thumbl = pos c.button_thumbl;
      abs_rx = pos c.axis_rx;
      reverse_rx = c.flip_rx;
      abs_ry = pos c.axis_ry;
      reverse_ry = c.flip_ry;
      btn_thumbr = pos c.button_thumbr;
    } in
    let buttons = record (y (x sticks)) {
      btn_west = pos c.button_west;
      btn_south = pos c.button_south;
      btn_east = pos c.button_east;
      btn_north = pos c.button_north;
      btn_select = pos c.button_select;
      btn_start = pos c.button_start;
      btn_mode = pos c.button_mode;
    } in
    record (right (left buttons)) { btn_tl = pos c.button_tl; btn_tr = pos c.button_tr }

pub effects-mapping_of :
    (c : GamepadCodes) (m : Mapping) → effects (pairs c) m ≡ mapping_of m.abs_deadzone c
unfolding map_prompts
effects-mapping_of c m =
    let x = cross_x c.dpad_x in
    let y = cross_y c.dpad_y in
    let left = left_effect c.left_trigger in
    let right = right_effect c.right_trigger in
    let start : effects (pairs c) m ≡ after_prompts x y left right c m = refl in
    start
    ∙ ap (λ f. after_prompts f y left right c m) (cross_x-set_x c.dpad_x)
    ∙ ap (λ f. after_prompts (set_x c.dpad_x) f left right c m) (cross_y-set_y c.dpad_y)
    ∙ ap (λ f. after_prompts (set_x c.dpad_x) (set_y c.dpad_y) f right c m)
        (left_effect-set_left c.left_trigger)
    ∙ ap (λ f. after_prompts (set_x c.dpad_x) (set_y c.dpad_y) (set_left c.left_trigger) f c m)
        (right_effect-set_right c.right_trigger)
