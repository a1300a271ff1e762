-- ===== src/Evdev/Axis/Dpad.antt =====
-- A directional pad that reports an axis: which of its two opposite flags are set.
use moonlight_embedded_crash.Prelude.{
  ℕ, ◌≡◌, ◌⊎◌, inl, inr, Bool, true, false, ◌&&◌, arith, if◌then◌else◌,
}
use moonlight_embedded_crash.Prelude.Int.{ℤ, pos, negsuc, eq_ℤ}
use moonlight_embedded_crash.Prelude.Bits.{Bits}
use moonlight_embedded_crash.Evdev.Convert.{convert_value_direction}
use moonlight_embedded_crash.Evdev.{AbsParms, Device, InputEvent, InputCodes}
use moonlight_embedded_crash.Evdev.Handled.{is_code}
use moonlight_embedded_crash.Evdev.Axis.{set_direction, move_axis}
use moonlight_embedded_crash.Limelight.{Limelight}
use moonlight_embedded_crash.Mapping.{Mapping}

-- The direction is -1, 0 or 1.
abbrev IsDirection : ℤ → Type 0
IsDirection d = (d ≡ negsuc 0) ⊎ (d ≡ pos 0) ⊎ (d ≡ pos 1)

convert_value_direction-IsDirection :
    (p : AbsParms) (r : Bool) (v : ℤ) → IsDirection (convert_value_direction p r v)
unfolding convert_value_direction
convert_value_direction-IsDirection p r v = ground arith

module _ (lime : Limelight) (codes : InputCodes) where
  set_direction_bits :
      (ahead behind : Bits) (dir : ℤ) (flags : Bits) (i : ℕ)
      → IsDirection dir
      → ahead i && behind i ≡ false
      → set_direction lime codes ahead behind dir flags i
        ≡ (if ahead i then eq_ℤ dir (pos 1) else if behind i then eq_ℤ dir (negsuc 0) else flags i)
  unfolding set_direction
  set_direction_bits ahead behind dir flags i (inl e) h = rw e (ground arith)
  set_direction_bits ahead behind dir flags i (inr (inl e)) h = rw e (ground arith)
  set_direction_bits ahead behind dir flags i (inr (inr e)) h = rw e (ground arith)

  -- The event is of the horizontal axis of the pad, and of none of the sticks and triggers.
  abbrev IsDpadX : Mapping → ℕ → Type 0
  IsDpadX m c =
      (is_code c m.abs_x ≡ false)
      × (is_code c m.abs_y ≡ false)
      × (is_code c m.abs_rx ≡ false)
      × (is_code c m.abs_ry ≡ false)
      × (is_code c m.abs_z ≡ false)
      × (is_code c m.abs_rz ≡ false)
      × (is_code c m.abs_dpad_x ≡ true)

  -- An event of the pad's horizontal axis sets the bits of the right flag exactly when the
  -- direction is 1 and those of the left flag exactly when it is -1, and keeps all other bits:
  -- where the two flags share no bit, the pad is never right and left at once.
  pub move_axis_dpad_x :
      (dev : Device) (ev : InputEvent) (i : ℕ)
      → IsDpadX dev.map ev.code
      → lime.right_flag i && lime.left_flag i ≡ false
      → let dir = convert_value_direction dev.dpadx_parms dev.map.reverse_dpad_x ev.value in
        (move_axis lime codes dev ev).0.button_flags i ≡ (
          if lime.right_flag i
          then eq_ℤ dir (pos 1)
          else if lime.left_flag i
          then eq_ℤ dir (negsuc 0)
          else dev.button_flags i)
  unfolding move_axis
  move_axis_dpad_x dev ev i (x, y, rx, ry, z, rz, dx) h =
      rw (x, y, rx, ry, z, rz, dx)
        (set_direction_bits lime.right_flag lime.left_flag _ dev.button_flags i
          (convert_value_direction-IsDirection dev.dpadx_parms dev.map.reverse_dpad_x ev.value) h)
