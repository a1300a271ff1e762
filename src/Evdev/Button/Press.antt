-- ===== src/Evdev/Button/Press.antt =====
-- What pressing and releasing a gamepad's button does to the button flags.
use moonlight_embedded_crash.Evdev.Button.{
  press_button, mouse_code_of, handle_button, gamepad_code_of,
}
use moonlight_embedded_crash.Evdev.Handled.{is_zero}
use moonlight_embedded_crash.Prelude.{
  inl, inr, not, ◌||◌, map, ltb, ◌==◌, if◌then◌else◌, ltb→lt, Bool-cases, false, ℕ, ◌≡◌, arith,
}
use moonlight_embedded_crash.Prelude.Bits.{zero_bit, sign_extend, nonzero, Bits}
use moonlight_embedded_crash.Evdev.{InputEvent, Device, InputCodes}
use moonlight_embedded_crash.Mapping.{Mapping}
use moonlight_embedded_crash.Limelight.{Limelight}

zero_extended :
    (f : Bits) (i : ℕ) → nonzero 16 (sign_extend 16 f) ≡ false → sign_extend 16 f i ≡ false
zero_extended f i z = elim (Bool-cases (ltb i 16)) [
  | inl e ↦ zero_bit 16 (sign_extend 16 f) i z (ltb→lt i 16 e)
  | inr e ↦ rw e (zero_bit 16 (sign_extend 16 f) 15 z (omega arith))
]

module _ (lime : Limelight) (codes : InputCodes) where
  -- A press that changes nothing reports nothing.
  pub press_button_unmarked :
      (dev : Device) (ev : InputEvent)
      → (press_button lime codes dev ev).1 ≡ false
      → (press_button lime codes dev ev).0 ≡ dev
  unfolding press_button
  press_button_unmarked dev ev h = ground arith

  zero_code :
      (map : Mapping) (code i : ℕ)
      → nonzero 16 (gamepad_code_of lime codes map code) ≡ false
      → gamepad_code_of lime codes map code i ≡ false
  unfolding gamepad_code_of
  zero_code map code i z =
      elim (Bool-cases
        (code == codes.btn_left || code == codes.btn_middle || code == codes.btn_right)) [
          | inl e ↦ rw e
          | inr e ↦ rw e (zero_extended _ i (rw e at z))
        ]

  press_button_bits :
      (dev : Device) (ev : InputEvent) (i : ℕ)
      → (press_button lime codes dev ev).0.button_flags i ≡ (
          if gamepad_code_of lime codes dev.map ev.code i
          then not (is_zero ev.value)
          else dev.button_flags i)
  unfolding press_button
  press_button_bits dev ev i =
      elim (Bool-cases (nonzero 16 (gamepad_code_of lime codes dev.map ev.code))) [
        | inl e ↦ rw e (ground arith)
        | inr e ↦ rw (e, zero_code dev.map ev.code i e) (ground arith)
      ]

  -- A button that is no mouse button sets the bits of its flag while it is down and clears them
  -- when it is released. All other flags keep their bits, and an unmapped button changes none.
  pub handle_button_bits :
      (ids : Bits) (dev : Device) (ev : InputEvent) (i : ℕ)
      → mouse_code_of lime codes ev.code ≡ 0
      → (handle_button lime codes ids dev ev).device.button_flags i ≡ (
          if gamepad_code_of lime codes dev.map ev.code i
          then not (is_zero ev.value)
          else dev.button_flags i)
  unfolding handle_button
  handle_button_bits ids dev ev i m = rw m (press_button_bits dev ev i)
