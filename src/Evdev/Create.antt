-- ===== src/Evdev/Create.antt =====
-- evdev_create of src/input/evdev.c: a device file joins the table.
use moonlight_embedded_crash.Prelude.{
  ℕ, false, Option, none, some, [], ◌∷◌, ◌++◌, map, if◌then◌else◌,
}
use moonlight_embedded_crash.Prelude.Int.{ℤ, pos, negsuc, leb_ℤ}
use moonlight_embedded_crash.Prelude.Bits.{no_bits}
use moonlight_embedded_crash.Prelude.Text.{Bytes}
use moonlight_embedded_crash.Prelude.Process.{Process, running, ◌>>=◌}
use moonlight_embedded_crash.Mapping.{Mapping, mapping_load}
use moonlight_embedded_crash.Evdev.{AbsInfo, init_parms, Device}
use moonlight_embedded_crash.Evdev.Devices.{Table}

-- The mapping of a struct that memset cleared.
abbrev pub zero_mapping : Mapping
zero_mapping = record {
  abs_x = pos 0;
  abs_y = pos 0;
  abs_z = pos 0;
  abs_rx = pos 0;
  abs_ry = pos 0;
  abs_rz = pos 0;
  reverse_x = false;
  reverse_y = false;
  reverse_rx = false;
  reverse_ry = false;
  abs_deadzone = pos 0;
  abs_dpad_x = pos 0;
  abs_dpad_y = pos 0;
  reverse_dpad_x = false;
  reverse_dpad_y = false;
  btn_south = pos 0;
  btn_east = pos 0;
  btn_north = pos 0;
  btn_west = pos 0;
  btn_select = pos 0;
  btn_start = pos 0;
  btn_mode = pos 0;
  btn_thumbl = pos 0;
  btn_thumbr = pos 0;
  btn_tl = pos 0;
  btn_tr = pos 0;
  btn_tl2 = pos 0;
  btn_tr2 = pos 0;
  btn_dpad_up = pos 0;
  btn_dpad_down = pos 0;
  btn_dpad_left = pos 0;
  btn_dpad_right = pos 0;
}

-- The cleared struct, with the descriptor `fd`, the libevdev object `dev` and the loaded mapping.
-- `info` gives what libevdev reports of an axis of an object.
unfoldable pub new_device : (ℕ → ℤ → AbsInfo) → ℤ → ℕ → Mapping → Device
new_device info fd dev map = record {
  dev = dev;
  map = map;
  fd = fd;
  modifiers = no_bits;
  mouse_delta_x = pos 0;
  mouse_delta_y = pos 0;
  mouse_scroll = pos 0;
  controller_id = negsuc 0;
  button_flags = no_bits;
  left_trigger = 0;
  right_trigger = 0;
  left_stick_x = pos 0;
  left_stick_y = pos 0;
  right_stick_x = pos 0;
  right_stick_y = pos 0;
  gamepad_modified = false;
  x_parms = init_parms (info dev map.abs_x);
  y_parms = init_parms (info dev map.abs_y);
  z_parms = init_parms (info dev map.abs_z);
  rx_parms = init_parms (info dev map.abs_rx);
  ry_parms = init_parms (info dev map.abs_ry);
  rz_parms = init_parms (info dev map.abs_rz);
  dpadx_parms = init_parms (info dev map.abs_dpad_x);
  dpady_parms = init_parms (info dev map.abs_dpad_y);
}

-- `map_file` is NULL, or the text of the file if it can be opened.
abbrev pub load_map : Option (Option Bytes) → Process Mapping
load_map none = running zero_mapping
load_map (some text) = mapping_load text zero_mapping

-- `fd` is what open returned. The result has the descriptor that loop_add_fd gets, if any.
unfoldable pub evdev_create :
    {R : Type 0}
    → (ℕ → ℤ → AbsInfo)
    → ℤ
    → ℕ
    → Option (Option Bytes)
    → Table R
    → Process (Table R × Option ℤ)
evdev_create info fd dev map_file t =
    if leb_ℤ fd (pos 0)
    then running (t, none)
    else (load_map map_file >>= λ map.
        running (record t { devices = t.devices ++ new_device info fd dev map ∷ [] }, some fd))
