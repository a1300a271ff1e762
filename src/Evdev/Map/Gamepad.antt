-- ===== src/Evdev/Map/Gamepad.antt =====
-- evdev_map: the axes and buttons of a gamepad, its mapping, and what its user does at the prompts.
use moonlight_embedded_crash.Prelude.{ℕ, ◌^◌, ◌<◌, Bool, false, List, [], ◌∷◌}
use moonlight_embedded_crash.Prelude.Int.{ℤ, pos, negsuc}
use moonlight_embedded_crash.Mapping.{Mapping}
use moonlight_embedded_crash.Evdev.Map.{Prompt, map_prompts}
use moonlight_embedded_crash.Evdev.Map.Learns.{Reply, pressed, moved, silent}

-- One direction of the directional pad: an axis, which may grow the other way, or a button for the
-- right or the bottom and one for the left or the top.
pub data Cross : Type 0 where
  axis_cross : ℕ → Bool → Cross
  button_cross : ℕ → ℕ → Cross

-- A trigger: an axis, with the end that is passed first, or a button.
pub data Trigger : Type 0 where
  axis_trigger : ℕ → Bool → Trigger
  button_trigger : ℕ → Trigger

-- What the mapping has for them: -1 for what the gamepad does not have.
abbrev pub cross_axis : Cross → ℤ
cross_axis (axis_cross code flip) = pos code
cross_axis (button_cross first second) = negsuc 0

abbrev pub cross_flip : Cross → Bool
cross_flip (axis_cross code flip) = flip
cross_flip (button_cross first second) = false

abbrev pub cross_first : Cross → ℤ
cross_first (axis_cross code flip) = negsuc 0
cross_first (button_cross first second) = pos first

abbrev pub cross_second : Cross → ℤ
cross_second (axis_cross code flip) = negsuc 0
cross_second (button_cross first second) = pos second

abbrev pub trigger_axis : Trigger → ℤ
trigger_axis (axis_trigger code flip) = pos code
trigger_axis (button_trigger code) = negsuc 0

abbrev pub trigger_button : Trigger → ℤ
trigger_button (axis_trigger code flip) = negsuc 0
trigger_button (button_trigger code) = pos code

-- The codes of the axes and buttons of a gamepad, and which axes grow towards the left or the top.
pub record GamepadCodes : Type 0 where
  pub axis_x : ℕ
  pub axis_y : ℕ
  pub axis_rx : ℕ
  pub axis_ry : ℕ
  pub flip_x : Bool
  pub flip_y : Bool
  pub flip_rx : Bool
  pub flip_ry : Bool
  pub dpad_x : Cross
  pub dpad_y : Cross
  pub left_trigger : Trigger
  pub right_trigger : Trigger
  pub button_south : ℕ
  pub button_east : ℕ
  pub button_north : ℕ
  pub button_west : ℕ
  pub button_select : ℕ
  pub button_start : ℕ
  pub button_mode : ℕ
  pub button_thumbl : ℕ
  pub button_thumbr : ℕ
  pub button_tl : ℕ
  pub button_tr : ℕ

abbrev pub CrossFits : Cross → Type 0
CrossFits (axis_cross code flip) = code < 2 ^ 15
CrossFits (button_cross first second) = (first < 2 ^ 15) × (second < 2 ^ 15)

abbrev pub TriggerFits : Trigger → Type 0
TriggerFits (axis_trigger code flip) = code < 2 ^ 15
TriggerFits (button_trigger code) = code < 2 ^ 15

-- Every code fits a short.
pub record Fits (c : GamepadCodes) : Type 0 where
  pub axis_x_fits : c.axis_x < 2 ^ 15
  pub axis_y_fits : c.axis_y < 2 ^ 15
  pub axis_rx_fits : c.axis_rx < 2 ^ 15
  pub axis_ry_fits : c.axis_ry < 2 ^ 15
  pub dpad_x_fits : CrossFits c.dpad_x
  pub dpad_y_fits : CrossFits c.dpad_y
  pub left_trigger_fits : TriggerFits c.left_trigger
  pub right_trigger_fits : TriggerFits c.right_trigger
  pub south_fits : c.button_south < 2 ^ 15
  pub east_fits : c.button_east < 2 ^ 15
  pub north_fits : c.button_north < 2 ^ 15
  pub west_fits : c.button_west < 2 ^ 15
  pub select_fits : c.button_select < 2 ^ 15
  pub start_fits : c.button_start < 2 ^ 15
  pub mode_fits : c.button_mode < 2 ^ 15
  pub thumbl_fits : c.button_thumbl < 2 ^ 15
  pub thumbr_fits : c.button_thumbr < 2 ^ 15
  pub tl_fits : c.button_tl < 2 ^ 15
  pub tr_fits : c.button_tr < 2 ^ 15

-- The mapping of the gamepad.
abbrev pub mapping_of : ℤ → GamepadCodes → Mapping
mapping_of deadzone c = record {
  abs_x = pos c.axis_x;
  abs_y = pos c.axis_y;
  abs_rx = pos c.axis_rx;
  abs_ry = pos c.axis_ry;
  abs_dpad_x = cross_axis c.dpad_x;
  abs_dpad_y = cross_axis c.dpad_y;
  abs_z = trigger_axis c.left_trigger;
  abs_rz = trigger_axis c.right_trigger;
  reverse_x = c.flip_x;
  reverse_y = c.flip_y;
  reverse_rx = c.flip_rx;
  reverse_ry = c.flip_ry;
  reverse_dpad_x = cross_flip c.dpad_x;
  reverse_dpad_y = cross_flip c.dpad_y;
  abs_deadzone = deadzone;
  btn_south = pos c.button_south;
  btn_east = pos c.button_east;
  btn_north = pos c.button_north;
  btn_west = pos c.button_west;
  btn_select = pos c.button_select;
  btn_start = pos c.button_start;
  btn_mode = pos c.button_mode;
  btn_thumbl = pos c.button_thumbl;
  btn_thumbr = pos c.button_thumbr;
  btn_tl = pos c.button_tl;
  btn_tr = pos c.button_tr;
  btn_tl2 = trigger_button c.left_trigger;
  btn_tr2 = trigger_button c.right_trigger;
  btn_dpad_right = cross_first c.dpad_x;
  btn_dpad_left = cross_second c.dpad_x;
  btn_dpad_down = cross_first c.dpad_y;
  btn_dpad_up = cross_second c.dpad_y;
}

abbrev pub first_reply : Cross → Reply
first_reply (axis_cross code flip) = moved code flip
first_reply (button_cross first second) = pressed first

abbrev pub second_reply : Cross → Reply
second_reply (axis_cross code flip) = silent
second_reply (button_cross first second) = pressed second

abbrev pub trigger_reply : Trigger → Reply
trigger_reply (axis_trigger code flip) = moved code flip
trigger_reply (button_trigger code) = pressed code

-- What the user does at each prompt.
abbrev pub replies : GamepadCodes → List Reply
replies c =
    moved c.axis_x c.flip_x
    ∷ moved c.axis_y c.flip_y
    ∷ pressed c.button_thumbl
    ∷ moved c.axis_rx c.flip_rx
    ∷ moved c.axis_ry c.flip_ry
    ∷ pressed c.button_thumbr
    ∷ first_reply c.dpad_x
    ∷ second_reply c.dpad_x
    ∷ first_reply c.dpad_y
    ∷ second_reply c.dpad_y
    ∷ pressed c.button_west
    ∷ pressed c.button_south
    ∷ pressed c.button_east
    ∷ pressed c.button_north
    ∷ pressed c.button_select
    ∷ pressed c.button_start
    ∷ pressed c.button_mode
    ∷ trigger_reply c.left_trigger
    ∷ trigger_reply c.right_trigger
    ∷ pressed c.button_tl
    ∷ pressed c.button_tr
    ∷ []

abbrev pub paired_with : List Prompt → List Reply → List (Prompt × Reply)
paired_with [] replies = []
paired_with (p ∷ prompts) [] = []
paired_with (p ∷ prompts) (r ∷ replies) = (p, r) ∷ paired_with prompts replies

abbrev pub pairs : GamepadCodes → List (Prompt × Reply)
pairs c = paired_with map_prompts (replies c)
