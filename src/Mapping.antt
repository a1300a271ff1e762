-- ===== src/Mapping.antt =====
-- src/input/mapping.h and src/input/mapping.c: the button and axis numbers of a gamepad, and the
-- text file that keeps them. A `short` is an integer; `IsMapping` bounds it.
pub mod RoundTrip
pub mod Override
use moonlight_embedded_crash.Prelude.{
  ℕ, Bool, true, false, List, [], ◌∷◌, ◌++◌, Option, none, some, if◌then◌else◌,
}
use moonlight_embedded_crash.Prelude.Int.{ℤ, to_short, IsShort}
use moonlight_embedded_crash.Prelude.Text.{Bytes, codes, str_eq}
use moonlight_embedded_crash.Prelude.Process.{Process, running, exited, exit_failure}
use moonlight_embedded_crash.Libc.Decimal.{print_int, strtol}
use moonlight_embedded_crash.Libc.Scan.{lines, scan_pair}

pub record Mapping : Type 0 where
  pub abs_x : ℤ
  pub abs_y : ℤ
  pub abs_z : ℤ
  pub abs_rx : ℤ
  pub abs_ry : ℤ
  pub abs_rz : ℤ
  pub reverse_x : Bool
  pub reverse_y : Bool
  pub reverse_rx : Bool
  pub reverse_ry : Bool
  pub abs_deadzone : ℤ
  pub abs_dpad_x : ℤ
  pub abs_dpad_y : ℤ
  pub reverse_dpad_x : Bool
  pub reverse_dpad_y : Bool
  pub btn_south : ℤ
  pub btn_east : ℤ
  pub btn_north : ℤ
  pub btn_west : ℤ
  pub btn_select : ℤ
  pub btn_start : ℤ
  pub btn_mode : ℤ
  pub btn_thumbl : ℤ
  pub btn_thumbr : ℤ
  pub btn_tl : ℤ
  pub btn_tr : ℤ
  pub btn_tl2 : ℤ
  pub btn_tr2 : ℤ
  pub btn_dpad_up : ℤ
  pub btn_dpad_down : ℤ
  pub btn_dpad_left : ℤ
  pub btn_dpad_right : ℤ

-- Every number fits the `short` that holds it.
pub record IsMapping (m : Mapping) : Type 0 where
  pub abs_x_fits : IsShort m.abs_x
  pub abs_y_fits : IsShort m.abs_y
  pub abs_z_fits : IsShort m.abs_z
  pub abs_rx_fits : IsShort m.abs_rx
  pub abs_ry_fits : IsShort m.abs_ry
  pub abs_rz_fits : IsShort m.abs_rz
  pub abs_deadzone_fits : IsShort m.abs_deadzone
  pub abs_dpad_x_fits : IsShort m.abs_dpad_x
  pub abs_dpad_y_fits : IsShort m.abs_dpad_y
  pub btn_south_fits : IsShort m.btn_south
  pub btn_east_fits : IsShort m.btn_east
  pub btn_north_fits : IsShort m.btn_north
  pub btn_west_fits : IsShort m.btn_west
  pub btn_select_fits : IsShort m.btn_select
  pub btn_start_fits : IsShort m.btn_start
  pub btn_mode_fits : IsShort m.btn_mode
  pub btn_thumbl_fits : IsShort m.btn_thumbl
  pub btn_thumbr_fits : IsShort m.btn_thumbr
  pub btn_tl_fits : IsShort m.btn_tl
  pub btn_tr_fits : IsShort m.btn_tr
  pub btn_tl2_fits : IsShort m.btn_tl2
  pub btn_tr2_fits : IsShort m.btn_tr2
  pub btn_dpad_up_fits : IsShort m.btn_dpad_up
  pub btn_dpad_down_fits : IsShort m.btn_dpad_down
  pub btn_dpad_left_fits : IsShort m.btn_dpad_left
  pub btn_dpad_right_fits : IsShort m.btn_dpad_right

-- strcmp("true", value) == 0
abbrev pub is_true : Bytes → Bool
is_true value = str_eq (codes "true") value

-- The field that a line's key names.
pub data Field : Type 0 where
  abs_x : Field
  abs_y : Field
  abs_z : Field
  abs_rx : Field
  abs_ry : Field
  abs_rz : Field
  abs_deadzone : Field
  abs_dpad_x : Field
  abs_dpad_y : Field
  btn_south : Field
  btn_north : Field
  btn_east : Field
  btn_west : Field
  btn_select : Field
  btn_start : Field
  btn_mode : Field
  btn_thumbl : Field
  btn_thumbr : Field
  btn_tl : Field
  btn_tr : Field
  btn_tl2 : Field
  btn_tr2 : Field
  btn_dpad_up : Field
  btn_dpad_down : Field
  btn_dpad_left : Field
  btn_dpad_right : Field
  reverse_x : Field
  reverse_y : Field
  reverse_rx : Field
  reverse_ry : Field
  reverse_dpad_x : Field
  reverse_dpad_y : Field

-- The chain of tests in the loop of `mapping_load`.
unfoldable pub field_of : Bytes → Option Field
field_of key =
    if str_eq (codes "abs_x") key
    then some abs_x
    else if str_eq (codes "abs_y") key
    then some abs_y
    else if str_eq (codes "abs_z") key
    then some abs_z
    else if str_eq (codes "abs_rx") key
    then some abs_rx
    else if str_eq (codes "abs_ry") key
    then some abs_ry
    else if str_eq (codes "abs_rz") key
    then some abs_rz
    else if str_eq (codes "abs_deadzone") key
    then some abs_deadzone
    else if str_eq (codes "abs_dpad_x") key
    then some abs_dpad_x
    else if str_eq (codes "abs_dpad_y") key
    then some abs_dpad_y
    else if str_eq (codes "btn_south") key
    then some btn_south
    else if str_eq (codes "btn_north") key
    then some btn_north
    else if str_eq (codes "btn_east") key
    then some btn_east
    else if str_eq (codes "btn_west") key
    then some btn_west
    else if str_eq (codes "btn_select") key
    then some btn_select
    else if str_eq (codes "btn_start") key
    then some btn_start
    else if str_eq (codes "btn_mode") key
    then some btn_mode
    else if str_eq (codes "btn_thumbl") key
    then some btn_thumbl
    else if str_eq (codes "btn_thumbr") key
    then some btn_thumbr
    else if str_eq (codes "btn_tl") key
    then some btn_tl
    else if str_eq (codes "btn_tr") key
    then some btn_tr
    else if str_eq (codes "btn_tl2") key
    then some btn_tl2
    else if str_eq (codes "btn_tr2") key
    then some btn_tr2
    else if str_eq (codes "btn_dpad_up") key
    then some btn_dpad_up
    else if str_eq (codes "btn_dpad_down") key
    then some btn_dpad_down
    else if str_eq (codes "btn_dpad_left") key
    then some btn_dpad_left
    else if str_eq (codes "btn_dpad_right") key
    then some btn_dpad_right
    else if str_eq (codes "reverse_x") key
    then some reverse_x
    else if str_eq (codes "reverse_y") key
    then some reverse_y
    else if str_eq (codes "reverse_rx") key
    then some reverse_rx
    else if str_eq (codes "reverse_ry") key
    then some reverse_ry
    else if str_eq (codes "reverse_dpad_x") key
    then some reverse_dpad_x
    else if str_eq (codes "reverse_dpad_y") key
    then some reverse_dpad_y
    else none

-- The branches of the chain. An unknown key is only reported.
unfoldable pub assign : Option Field → Bytes → Mapping → Mapping
assign none value map = map
assign (some abs_x) value map = record map { abs_x = to_short (strtol value) }
assign (some abs_y) value map = record map { abs_y = to_short (strtol value) }
assign (some abs_z) value map = record map { abs_z = to_short (strtol value) }
assign (some abs_rx) value map = record map { abs_rx = to_short (strtol value) }
assign (some abs_ry) value map = record map { abs_ry = to_short (strtol value) }
assign (some abs_rz) value map = record map { abs_rz = to_short (strtol value) }
assign (some abs_deadzone) value map = record map { abs_deadzone = to_short (strtol value) }
assign (some abs_dpad_x) value map = record map { abs_dpad_x = to_short (strtol value) }
assign (some abs_dpad_y) value map = record map { abs_dpad_y = to_short (strtol value) }
assign (some btn_south) value map = record map { btn_south = to_short (strtol value) }
assign (some btn_north) value map = record map { btn_north = to_short (strtol value) }
assign (some btn_east) value map = record map { btn_east = to_short (strtol value) }
assign (some btn_west) value map = record map { btn_west = to_short (strtol value) }
assign (some btn_select) value map = record map { btn_select = to_short (strtol value) }
assign (some btn_start) value map = record map { btn_start = to_short (strtol value) }
assign (some btn_mode) value map = record map { btn_mode = to_short (strtol value) }
assign (some btn_thumbl) value map = record map { btn_thumbl = to_short (strtol value) }
assign (some btn_thumbr) value map = record map { btn_thumbr = to_short (strtol value) }
assign (some btn_tl) value map = record map { btn_tl = to_short (strtol value) }
assign (some btn_tr) value map = record map { btn_tr = to_short (strtol value) }
assign (some btn_tl2) value map = record map { btn_tl2 = to_short (strtol value) }
assign (some btn_tr2) value map = record map { btn_tr2 = to_short (strtol value) }
assign (some btn_dpad_up) value map = record map { btn_dpad_up = to_short (strtol value) }
assign (some btn_dpad_down) value map = record map { btn_dpad_down = to_short (strtol value) }
assign (some btn_dpad_left) value map = record map { btn_dpad_left = to_short (strtol value) }
assign (some btn_dpad_right) value map = record map { btn_dpad_right = to_short (strtol value) }
assign (some reverse_x) value map = record map { reverse_x = is_true value }
assign (some reverse_y) value map = record map { reverse_y = is_true value }
assign (some reverse_rx) value map = record map { reverse_rx = is_true value }
assign (some reverse_ry) value map = record map { reverse_ry = is_true value }
assign (some reverse_dpad_x) value map = record map { reverse_dpad_x = is_true value }
assign (some reverse_dpad_y) value map = record map { reverse_dpad_y = is_true value }

unfoldable pub set_key : Bytes → Bytes → Mapping → Mapping
set_key key value map = assign (field_of key) value map

-- One line of the file: only a line with a key, `=` and a value is read.
abbrev pub load_scanned : Option (Bytes × Bytes) → Mapping → Mapping
load_scanned none map = map
load_scanned (some (key, value)) map = set_key key value map

unfoldable pub load_lines : List Bytes → Mapping → Mapping
load_lines [] map = map
load_lines (line ∷ rest) map = load_lines rest (load_scanned (scan_pair line) map)

-- `file` is what fopen finds under the name: none if it cannot be opened.
unfoldable pub mapping_load : Option Bytes → Mapping → Process Mapping
mapping_load none map = exited exit_failure
mapping_load (some text) map = running (load_lines (lines text) map)

-- write_config: "%s = %hd\n"
unfoldable pub write_config : Bytes → ℤ → Bytes
write_config key value = key ++ b' ' ∷ b'=' ∷ b' ' ∷ (print_int value ++ b'\n' ∷ [])

abbrev pub bool_text : Bool → Bytes
bool_text true = codes "true"
bool_text false = codes "false"

-- write_config_bool: "%s = %s\n"
unfoldable pub write_config_bool : Bytes → Bool → Bytes
write_config_bool key value = key ++ b' ' ∷ b'=' ∷ b' ' ∷ (bool_text value ++ b'\n' ∷ [])

-- What `mapping_save` writes.
unfoldable pub save_text : Mapping → Bytes
save_text map =
    write_config (codes "abs_x") map.abs_x
    ++ (write_config (codes "abs_y") map.abs_y
        ++ (write_config (codes "abs_z") map.abs_z
            ++ (write_config_bool (codes "reverse_x") map.reverse_x
                ++ (write_config_bool (codes "reverse_y") map.reverse_y
                    ++ (write_config (codes "abs_rx") map.abs_rx
                        ++ (write_config (codes "abs_ry") map.abs_ry
                            ++ (write_config (codes "abs_rz") map.abs_rz
                                ++ (write_config_bool (codes "reverse_rx") map.reverse_rx
                                    ++ (write_config_bool (codes "reverse_ry") map.reverse_ry
                                        ++ (write_config (codes "abs_deadzone") map.abs_deadzone
                                            ++ (write_config (codes "abs_dpad_x") map.abs_dpad_x
                                                ++ (write_config (codes "abs_dpad_y") map.abs_dpad_y
                                                    ++ (write_config_bool (codes "reverse_dpad_x")
                                                          map.reverse_dpad_x
                                                        ++ (write_config_bool
                                                            (codes "reverse_dpad_y")
                                                            map.reverse_dpad_y
                                                            ++ (write_config (codes "btn_north")
                                                            map.btn_north
                                                            ++ (write_config (codes "btn_east")
                                                            map.btn_east
                                                            ++ (write_config (codes "btn_south")
                                                            map.btn_south
                                                            ++ (write_config (codes "btn_west")
                                                            map.btn_west
                                                            ++ (write_config (codes "btn_select")
                                                            map.btn_select
                                                            ++ (write_config (codes "btn_start")
                                                            map.btn_start
                                                            ++ (write_config (codes "btn_mode")
                                                            map.btn_mode
                                                            ++ (write_config (codes "btn_thumbl")
                                                            map.btn_thumbl
                                                            ++ (write_config (codes "btn_thumbr")
                                                            map.btn_thumbr
                                                            ++ (write_config (codes "btn_tl")
                                                            map.btn_tl
                                                            ++ (write_config (codes "btn_tr")
                                                            map.btn_tr
                                                            ++ (write_config (codes "btn_tl2")
                                                            map.btn_tl2
                                                            ++ (write_config (codes "btn_tr2")
                                                            map.btn_tr2
                                                            ++ (write_config (codes "btn_dpad_up")
                                                            map.btn_dpad_up
                                                            ++ (write_config (codes "btn_dpad_down")
                                                            map.btn_dpad_down
                                                            ++ (write_config (codes "btn_dpad_left")
                                                            map.btn_dpad_left
                                                            ++ (write_config
                                                            (codes "btn_dpad_right")
                                                            map.btn_dpad_right)))))))))))))))))))))))))))))))

-- `writable`: whether fopen can open the file. The result is the file's new content.
unfoldable pub mapping_save : Bool → Mapping → Process Bytes
mapping_save false map = exited exit_failure
mapping_save true map = running (save_text map)
