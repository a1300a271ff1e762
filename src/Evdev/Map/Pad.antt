-- ===== src/Evdev/Map/Pad.antt =====
-- evdev_map for a gamepad.
use moonlight_embedded_crash.Prelude.{ℕ, ◌^◌, ◌<◌, ◌≡◌, refl, ap, ◌∙◌, Bool, true, some, arith}
use moonlight_embedded_crash.Prelude.Int.{ℤ, pos, negsuc, IsShort}
use moonlight_embedded_crash.Prelude.Process.{running, ◌>>=◌}
use moonlight_embedded_crash.Mapping.RoundTrip.{mapping_load-mapping_save}
use moonlight_embedded_crash.Mapping.{mapping_save, mapping_load, Mapping, IsMapping}
use moonlight_embedded_crash.Evdev.Learn.{IsPlace, Place, Learning}
use moonlight_embedded_crash.Evdev.Map.{
  ask_abskey, ask_opposite, at_btn_dpad_right, at_abs_dpad_x, at_btn_dpad_left, at_btn_dpad_down,
  at_abs_dpad_y, at_btn_dpad_up, at_btn_tl2, at_abs_z, at_btn_tr2, at_abs_rz, map_prompts,
  evdev_map,
}
use moonlight_embedded_crash.Evdev.Map.Learns.{
  Stick, IsStick, answers_to, AllSuit, ask_all-effects, Suits, IsAxisPlace, effect,
}
use moonlight_embedded_crash.Evdev.Map.Gamepad.{
  Cross, Trigger, cross_axis, cross_first, cross_second, trigger_axis, trigger_button, GamepadCodes,
  CrossFits, TriggerFits, Fits, mapping_of, first_reply, second_reply, trigger_reply, pairs,
  axis_cross, button_cross, axis_trigger, button_trigger,
}
use moonlight_embedded_crash.Evdev.Map.Effects.{effects-mapping_of}

first_Suits :
    (k p : Place) (put_reverse : Bool → Mapping → Mapping) (x : Cross) (m : Mapping)
    → CrossFits x
    → IsPlace k
    → IsAxisPlace p put_reverse
    → Suits (ask_abskey k p put_reverse) (first_reply x) m
first_Suits k p put_reverse (axis_cross code flip) m fits place axis = (fits, axis)
first_Suits k p put_reverse (button_cross first second) m (fits, _) place axis = (fits, place)

second_x :
    (x : Cross) (m : Mapping)
    → CrossFits x
    → Suits (ask_opposite at_btn_dpad_right at_btn_dpad_left) (second_reply x) (
        effect
          (ask_abskey at_btn_dpad_right at_abs_dpad_x (λ b m. record m { reverse_dpad_x = b }))
          (first_reply x)
          m)
second_x (axis_cross code flip) m fits = refl
second_x (button_cross first second) m (_, fits) = (fits, (λ v m. refl), ground arith)

second_y :
    (y : Cross) (m : Mapping)
    → CrossFits y
    → Suits (ask_opposite at_btn_dpad_down at_btn_dpad_up) (second_reply y) (
        effect
          (ask_abskey at_btn_dpad_down at_abs_dpad_y (λ b m. record m { reverse_dpad_y = b }))
          (first_reply y)
          m)
second_y (axis_cross code flip) m fits = refl
second_y (button_cross first second) m (_, fits) = (fits, (λ v m. refl), ground arith)

trigger_Suits :
    (k p : Place) (put_reverse : Bool → Mapping → Mapping) (t : Trigger) (m : Mapping)
    → TriggerFits t
    → IsPlace k
    → IsAxisPlace p put_reverse
    → Suits (ask_abskey k p put_reverse) (trigger_reply t) m
trigger_Suits k p put_reverse (axis_trigger code flip) m fits place axis = (fits, axis)
trigger_Suits k p put_reverse (button_trigger code) m fits place axis = (fits, place)

infixr 4 ◌and◌
abbrev ◌and◌ : {A B : Type 0} → A → B → A × B
a and b = (a, b)

pairs-AllSuit : (c : GamepadCodes) (m : Mapping) → Fits c → AllSuit (pairs c) m
unfolding map_prompts
pairs-AllSuit c m f =
    (f.axis_x_fits, λ v b m. refl)
    and (f.axis_y_fits, λ v b m. refl)
    and (f.thumbl_fits, λ v m. refl)
    and (f.axis_rx_fits, λ v b m. refl)
    and (f.axis_ry_fits, λ v b m. refl)
    and (f.thumbr_fits, λ v m. refl)
    and first_Suits at_btn_dpad_right at_abs_dpad_x (λ b m. record m { reverse_dpad_x = b })
        c.dpad_x _ f.dpad_x_fits (λ v m. refl) (λ v b m. refl)
    and second_x c.dpad_x _ f.dpad_x_fits
    and first_Suits at_btn_dpad_down at_abs_dpad_y (λ b m. record m { reverse_dpad_y = b }) c.dpad_y
        _ f.dpad_y_fits (λ v m. refl) (λ v b m. refl)
    and second_y c.dpad_y _ f.dpad_y_fits
    and (f.west_fits, λ v m. refl)
    and (f.south_fits, λ v m. refl)
    and (f.east_fits, λ v m. refl)
    and (f.north_fits, λ v m. refl)
    and (f.select_fits, λ v m. refl)
    and (f.start_fits, λ v m. refl)
    and (f.mode_fits, λ v m. refl)
    and trigger_Suits at_btn_tl2 at_abs_z (λ b m. m) c.left_trigger _ f.left_trigger_fits
        (λ v m. refl) (λ v b m. refl)
    and trigger_Suits at_btn_tr2 at_abs_rz (λ b m. m) c.right_trigger _ f.right_trigger_fits
        (λ v m. refl) (λ v b m. refl)
    and (f.tl_fits, λ v m. refl)
    and (f.tr_fits, λ v m. refl)
    and tt

-- The mapping is that of the gamepad, but for the dead zone, which nothing sets.
evdev_map-mapping_of :
    (st : ℕ → Stick) (c : GamepadCodes) (l : Learning)
    → ((code : ℕ) → IsStick (st code))
    → Fits c
    → evdev_map l (answers_to st (pairs c)) ≡ mapping_of l.map.abs_deadzone c
unfolding evdev_map map_prompts
evdev_map-mapping_of st c l sticks fits =
    ask_all-effects st sticks (pairs c) (record { learning = l; answers = answers_to st (pairs c) })
      (pairs-AllSuit c l.map fits) refl
    ∙ effects-mapping_of c l.map

pos-IsShort : (code : ℕ) → code < 2 ^ 15 → IsShort (pos code)
pos-IsShort code h = (omega arith, omega (arith, h))

minus_one-IsShort : IsShort (negsuc 0)
minus_one-IsShort = (omega arith, omega arith)

cross_axis-IsShort : (x : Cross) → CrossFits x → IsShort (cross_axis x)
cross_axis-IsShort (axis_cross code flip) h = pos-IsShort code h
cross_axis-IsShort (button_cross first second) h = minus_one-IsShort

cross_first-IsShort : (x : Cross) → CrossFits x → IsShort (cross_first x)
cross_first-IsShort (axis_cross code flip) h = minus_one-IsShort
cross_first-IsShort (button_cross first second) (h, _) = pos-IsShort first h

cross_second-IsShort : (x : Cross) → CrossFits x → IsShort (cross_second x)
cross_second-IsShort (axis_cross code flip) h = minus_one-IsShort
cross_second-IsShort (button_cross first second) (_, h) = pos-IsShort second h

trigger_axis-IsShort : (t : Trigger) → TriggerFits t → IsShort (trigger_axis t)
trigger_axis-IsShort (axis_trigger code flip) h = pos-IsShort code h
trigger_axis-IsShort (button_trigger code) h = minus_one-IsShort

trigger_button-IsShort : (t : Trigger) → TriggerFits t → IsShort (trigger_button t)
trigger_button-IsShort (axis_trigger code flip) h = minus_one-IsShort
trigger_button-IsShort (button_trigger code) h = pos-IsShort code h

mapping_of-IsMapping :
    (deadzone : ℤ) (c : GamepadCodes)
    → IsShort deadzone
    → Fits c
    → IsMapping (mapping_of deadzone c)
mapping_of-IsMapping deadzone c fits f = record {
  abs_x_fits = pos-IsShort c.axis_x f.axis_x_fits;
  abs_y_fits = pos-IsShort c.axis_y f.axis_y_fits;
  abs_rx_fits = pos-IsShort c.axis_rx f.axis_rx_fits;
  abs_ry_fits = pos-IsShort c.axis_ry f.axis_ry_fits;
  abs_dpad_x_fits = cross_axis-IsShort c.dpad_x f.dpad_x_fits;
  abs_dpad_y_fits = cross_axis-IsShort c.dpad_y f.dpad_y_fits;
  abs_z_fits = trigger_axis-IsShort c.left_trigger f.left_trigger_fits;
  abs_rz_fits = trigger_axis-IsShort c.right_trigger f.right_trigger_fits;
  abs_deadzone_fits = fits;
  btn_south_fits = pos-IsShort c.button_south f.south_fits;
  btn_east_fits = pos-IsShort c.button_east f.east_fits;
  btn_north_fits = pos-IsShort c.button_north f.north_fits;
  btn_west_fits = pos-IsShort c.button_west f.west_fits;
  btn_select_fits = pos-IsShort c.button_select f.select_fits;
  btn_start_fits = pos-IsShort c.button_start f.start_fits;
  btn_mode_fits = pos-IsShort c.button_mode f.mode_fits;
  btn_thumbl_fits = pos-IsShort c.button_thumbl f.thumbl_fits;
  btn_thumbr_fits = pos-IsShort c.button_thumbr f.thumbr_fits;
  btn_tl_fits = pos-IsShort c.button_tl f.tl_fits;
  btn_tr_fits = pos-IsShort c.button_tr f.tr_fits;
  btn_tl2_fits = trigger_button-IsShort c.left_trigger f.left_trigger_fits;
  btn_tr2_fits = trigger_button-IsShort c.right_trigger f.right_trigger_fits;
  btn_dpad_right_fits = cross_first-IsShort c.dpad_x f.dpad_x_fits;
  btn_dpad_left_fits = cross_second-IsShort c.dpad_x f.dpad_x_fits;
  btn_dpad_down_fits = cross_first-IsShort c.dpad_y f.dpad_y_fits;
  btn_dpad_up_fits = cross_second-IsShort c.dpad_y f.dpad_y_fits;
}

-- A user who answers every prompt with the axis or the button of a gamepad, moving an axis from an
-- end to the middle and pressing and releasing a button once, gets the mapping of that gamepad,
-- whatever the memory of the local mapping held, but for the dead zone, which stays as that memory
-- has it. Each direction of the pad is an axis or two buttons, and each trigger an axis or a button;
-- every axis has its own parameters, and its places in the mapping hold -1 where there is a button,
-- and those of a button -1 where there is an axis. The file that is saved is read back as this
-- mapping, if what the memory has for the dead zone is a short.
pub mapping_load-evdev_map :
    (st : ℕ → Stick) (c : GamepadCodes) (l : Learning) (m0 : Mapping)
    → ((code : ℕ) → IsStick (st code))
    → Fits c
    → IsShort l.map.abs_deadzone
    → let learned = evdev_map l (answers_to st (pairs c)) in
      (learned ≡ mapping_of l.map.abs_deadzone c)
      × ((mapping_save true learned >>= λ text. mapping_load (some text) m0)
          ≡ running (mapping_of l.map.abs_deadzone c))
mapping_load-evdev_map st c l m0 sticks short fits =
    let same = evdev_map-mapping_of st c l sticks short in
    (
      same,
      ap (λ m. mapping_save true m >>= λ text. mapping_load (some text) m0) same
          ∙ mapping_load-mapping_save (mapping_of l.map.abs_deadzone c) m0
              (mapping_of-IsMapping l.map.abs_deadzone c fits short),
    )
