-- ===== src/Evdev/Handled.antt =====
-- What evdev_handle_event leaves behind, and the tests that its branches share.
use moonlight_embedded_crash.Prelude.{ℕ, Bool, true, ◌||◌, List, if◌then◌else◌}
use moonlight_embedded_crash.Prelude.Int.{ℤ, pos, eq_ℤ}
use moonlight_embedded_crash.Prelude.Bits.{Bits}
use moonlight_embedded_crash.Limelight.{Sent}
use moonlight_embedded_crash.Evdev.{Device}

-- After a call: assignedControllerIds, the device, the calls made, and the returned bool.
pub record Handled : Type 0 where
  pub ids : Bits
  pub device : Device
  pub sent : List Sent
  pub go_on : Bool

abbrev pub is_zero : ℤ → Bool
is_zero z = eq_ℤ z (pos 0)

-- `value ? a : b`
abbrev pub choose {ℓ} : {A : Type ℓ} → ℤ → A → A → A
choose value a b = if is_zero value then b else a

abbrev pub is_code : ℕ → ℤ → Bool
is_code code mapped = eq_ℤ (pos code) mapped

-- `dev->gamepadModified |= gamepadModified` at the end of the function.
abbrev pub mark : Bits → Device × Bool → List Sent → Handled
mark ids (dev, modified) sent = record {
  ids = ids;
  device = record dev { gamepad_modified = dev.gamepad_modified || modified };
  sent = sent;
  go_on = true;
}
