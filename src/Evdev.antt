-- ===== src/Evdev.antt =====
-- src/input/evdev.c: gamepads, mice and keyboards through libevdev. This file has the data; the
-- children have the value conversions, the two event handlers and the device table.
pub mod Convert
pub mod Handled
pub mod Syn
pub mod Key
pub mod Button
pub mod Axis
pub mod Event
pub mod Devices
pub mod Create
pub mod Learn
pub mod Map
use moonlight_embedded_crash.Prelude.{ℕ, Bool, true, false, Option, none, some}
use moonlight_embedded_crash.Prelude.Int.{ℤ, pos, negsuc, ◌+ℤ◌, ◌-ℤ◌, quot}
use moonlight_embedded_crash.Prelude.Bits.{Bits, no_bits}
use moonlight_embedded_crash.Limelight.{Limelight}
use moonlight_embedded_crash.Mapping.{Mapping}

-- struct input_abs_parms
pub record AbsParms : Type 0 where
  pub min : ℤ
  pub max : ℤ
  pub flat : ℤ
  pub avg : ℤ
  pub range : ℤ
  pub diff : ℤ

-- What libevdev reports of an absolute axis: flat, minimum and maximum.
pub record AbsInfo : Type 0 where
  pub flat : ℤ
  pub minimum : ℤ
  pub maximum : ℤ

-- evdev_init_parms
unfoldable pub init_parms : AbsInfo → AbsParms
init_parms info =
    let avg = quot (info.minimum +ℤ info.maximum) (pos 2) in
    record {
      flat = info.flat;
      min = info.minimum;
      max = info.maximum;
      avg = avg;
      range = info.maximum -ℤ avg;
      diff = info.maximum -ℤ info.minimum;
    }

-- struct input_device. `dev` names the libevdev object. Triggers are the byte of a char, and the
-- modifiers its bits, so that the signedness of char does not matter.
pub record Device : Type 0 where
  pub dev : ℕ
  pub map : Mapping
  pub fd : ℤ
  pub modifiers : Bits
  pub mouse_delta_x : ℤ
  pub mouse_delta_y : ℤ
  pub mouse_scroll : ℤ
  pub controller_id : ℤ
  pub button_flags : Bits
  pub left_trigger : ℕ
  pub right_trigger : ℕ
  pub left_stick_x : ℤ
  pub left_stick_y : ℤ
  pub right_stick_x : ℤ
  pub right_stick_y : ℤ
  pub gamepad_modified : Bool
  pub x_parms : AbsParms
  pub y_parms : AbsParms
  pub rx_parms : AbsParms
  pub ry_parms : AbsParms
  pub z_parms : AbsParms
  pub rz_parms : AbsParms
  pub dpadx_parms : AbsParms
  pub dpady_parms : AbsParms

-- EV_SYN, EV_KEY, EV_REL, EV_ABS, and the types that the handlers pass over.
pub data EventType : Type 0 where
  ev_syn ev_key ev_rel ev_abs ev_other : EventType

-- struct input_event without its time stamp; `code` is unsigned, `value` an int.
pub record InputEvent : Type 0 where
  pub type : EventType
  pub code : ℕ
  pub value : ℤ

-- The codes of linux/input.h that the handlers name.
pub record InputCodes : Type 0 where
  pub key_leftshift : ℕ
  pub key_rightshift : ℕ
  pub key_leftalt : ℕ
  pub key_rightalt : ℕ
  pub key_leftctrl : ℕ
  pub key_rightctrl : ℕ
  pub key_q : ℕ
  pub btn_left : ℕ
  pub btn_middle : ℕ
  pub btn_right : ℕ
  pub rel_x : ℕ
  pub rel_y : ℕ
  pub rel_wheel : ℕ
