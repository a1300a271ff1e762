-- ===== src/Tests.antt =====
-- Concrete values for the tests: the constants of Limelight.h and linux/input.h, a mapping, a
-- gamepad and some axes.
pub mod Pad
pub mod Settings
pub mod Documents
pub mod Host
pub mod System
pub mod Frames
pub mod Video
pub mod Learning
pub mod Window
pub mod Signals
pub mod Session
pub mod Prompts
use mathlib.Core.Path.{subst}
use mathlib.Core.List.{append-nil, append_assoc}
use moonlight_embedded_crash.Prelude.{
  ℕ, zero, suc, ◌+◌, ◌-◌, ◌*◌, ◌/◌, ◌%◌, ◌^◌, ◌≤◌, ◌<◌, ◌≡◌, refl, sym, ap, ◌∙◌, fun_ext, ◌≢◌, ◌↔◌,
  ◌⊎◌, inl, inr, Bool, true, false, not, ◌&&◌, ◌||◌, Option, none, some, List, [], ◌∷◌, ◌++◌, map,
  arith, ltb, leb, ◌==◌, if◌then◌else◌, ltb→lt, lt→ltb, leb→le, ==_iff, ==_refl, Bool-cases,
  Option-cases, length, get_elem?, set, take, length-append, length-set, get_elem?-set_self,
  get_elem?-set_ne,
}
use moonlight_embedded_crash.Prelude.Int.{
  ℤ, pos, negsuc, ◌+ℤ◌, ◌-ℤ◌, ◌*ℤ◌, quot, ◌≤ℤ◌, ◌<ℤ◌, ltb_ℤ, leb_ℤ, eq_ℤ, abs, to_short, to_char,
  to_int, IsShort, IsInt, int_laws, eq_of_parts, eq_ℤ_refl, eq_ℤ→eq,
}
use moonlight_embedded_crash.Prelude.Bits.{
  Bits, bits, no_bits, ◌|b◌, ◌&b◌, ~b, one_bit, sign_extend, all_below, eq_bits, nonzero, zero_bit,
  nonzero_of_bit, eq_bits_sound, eq_bits_intro,
}
use moonlight_embedded_crash.Prelude.Text.{Bytes, codes, str_eq, is_space, str_eq_refl, str_eq→eq}
use moonlight_embedded_crash.Prelude.Process.{
  Process, running, exited, ◌>>=◌, exit_failure, minus_one,
}
use moonlight_embedded_crash.Limelight.{Limelight}
use moonlight_embedded_crash.Mapping.{Mapping, IsMapping}
use moonlight_embedded_crash.Evdev.{AbsInfo, AbsParms, init_parms, Device, InputCodes}

abbrev pub lime : Limelight
lime = record {
  modifier_shift = one_bit 0;
  modifier_ctrl = one_bit 1;
  modifier_alt = one_bit 2;
  button_left = 1;
  button_middle = 2;
  button_right = 3;
  a_flag = one_bit 12;
  b_flag = one_bit 13;
  x_flag = one_bit 14;
  y_flag = one_bit 15;
  up_flag = one_bit 0;
  down_flag = one_bit 1;
  left_flag = one_bit 2;
  right_flag = one_bit 3;
  ls_clk_flag = one_bit 6;
  rs_clk_flag = one_bit 7;
  lb_flag = one_bit 8;
  rb_flag = one_bit 9;
  play_flag = one_bit 4;
  back_flag = one_bit 5;
  special_flag = one_bit 10;
}

abbrev pub linux : InputCodes
linux = record {
  key_leftshift = 42;
  key_rightshift = 54;
  key_leftalt = 56;
  key_rightalt = 100;
  key_leftctrl = 29;
  key_rightctrl = 97;
  key_q = 16;
  btn_left = 272;
  btn_middle = 274;
  btn_right = 273;
  rel_x = 0;
  rel_y = 1;
  rel_wheel = 8;
}

abbrev pub pad : Mapping
pad = record {
  abs_x = pos 0;
  abs_y = pos 1;
  abs_z = pos 2;
  abs_rx = pos 3;
  abs_ry = pos 4;
  abs_rz = pos 5;
  reverse_x = false;
  reverse_y = true;
  reverse_rx = false;
  reverse_ry = true;
  abs_deadzone = pos 0;
  abs_dpad_x = pos 16;
  abs_dpad_y = pos 17;
  reverse_dpad_x = false;
  reverse_dpad_y = false;
  btn_south = pos 304;
  btn_east = pos 305;
  btn_north = pos 307;
  btn_west = pos 308;
  btn_select = pos 314;
  btn_start = pos 315;
  btn_mode = pos 316;
  btn_thumbl = pos 317;
  btn_thumbr = pos 318;
  btn_tl = pos 310;
  btn_tr = pos 311;
  btn_tl2 = pos 312;
  btn_tr2 = pos 313;
  btn_dpad_up = negsuc 0;
  btn_dpad_down = negsuc 0;
  btn_dpad_left = negsuc 0;
  btn_dpad_right = negsuc 0;
}

pub pad-IsMapping : IsMapping pad
pad-IsMapping = record {
  abs_x_fits = omega int_laws;
  abs_y_fits = omega int_laws;
  abs_z_fits = omega int_laws;
  abs_rx_fits = omega int_laws;
  abs_ry_fits = omega int_laws;
  abs_rz_fits = omega int_laws;
  abs_deadzone_fits = omega int_laws;
  abs_dpad_x_fits = omega int_laws;
  abs_dpad_y_fits = omega int_laws;
  btn_south_fits = omega int_laws;
  btn_east_fits = omega int_laws;
  btn_north_fits = omega int_laws;
  btn_west_fits = omega int_laws;
  btn_select_fits = omega int_laws;
  btn_start_fits = omega int_laws;
  btn_mode_fits = omega int_laws;
  btn_thumbl_fits = omega int_laws;
  btn_thumbr_fits = omega int_laws;
  btn_tl_fits = omega int_laws;
  btn_tr_fits = omega int_laws;
  btn_tl2_fits = omega int_laws;
  btn_tr2_fits = omega int_laws;
  btn_dpad_up_fits = omega int_laws;
  btn_dpad_down_fits = omega int_laws;
  btn_dpad_left_fits = omega int_laws;
  btn_dpad_right_fits = omega int_laws;
}

abbrev pub stick : AbsInfo
stick = record { flat = pos 128; minimum = negsuc 32767; maximum = pos 32767 }

abbrev pub trigger : AbsInfo
trigger = record { flat = pos 0; minimum = pos 0; maximum = pos 255 }

abbrev pub hat : AbsInfo
hat = record { flat = pos 0; minimum = negsuc 0; maximum = pos 1 }

-- A gamepad as evdev_create leaves it, with the slot `k` of the libevdev objects.
abbrev pub gamepad : ℕ → Device
gamepad k = record {
  dev = k;
  map = pad;
  fd = pos (k + 10);
  modifiers = no_bits;
  mouse_delta_x = pos 0;
  mouse_delta_y = pos 0;
  mouse_scroll = pos 0;
  controller_id = negsuc 0;
  button_flags = no_bits;
  left_trigger = 0;
  right_trigger = 0;
  left_stick_x = pos 0;
  left_stick_y = pos 0;
  right_stick_x = pos 0;
  right_stick_y = pos 0;
  gamepad_modified = false;
  x_parms = init_parms stick;
  y_parms = init_parms stick;
  rx_parms = init_parms stick;
  ry_parms = init_parms stick;
  z_parms = init_parms trigger;
  rz_parms = init_parms trigger;
  dpadx_parms = init_parms hat;
  dpady_parms = init_parms hat;
}
