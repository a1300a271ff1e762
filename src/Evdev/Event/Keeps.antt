-- ===== src/Evdev/Event/Keeps.antt =====
-- No handler of an event touches the descriptor of the device.
use moonlight_embedded_crash.Prelude.{◌≡◌, refl, inl, inr, arith, ltb, Bool-cases, length}
use moonlight_embedded_crash.Prelude.Bits.{Bits}
use moonlight_embedded_crash.KeyCodes.{key_codes}
use moonlight_embedded_crash.Limelight.{Limelight}
use moonlight_embedded_crash.Evdev.{
  Device, InputEvent, InputCodes, EventType, ev_syn, ev_key, ev_rel, ev_abs, ev_other,
}
use moonlight_embedded_crash.Evdev.Event.{handle_event, dispatch}
use moonlight_embedded_crash.Evdev.Syn.{flush_gamepad, handle_syn}
use moonlight_embedded_crash.Evdev.Key.{handle_key, update_modifiers, quits}
use moonlight_embedded_crash.Evdev.Button.{handle_button, press_button}
use moonlight_embedded_crash.Evdev.Axis.{move_axis, move_mouse}

handle_syn-fd : (ids : Bits) (dev : Device) → (handle_syn ids dev).device.fd ≡ dev.fd
unfolding handle_syn flush_gamepad
handle_syn-fd ids dev = ground arith

module _ (lime : Limelight) (codes : InputCodes) where
  handle_key-fd :
      (ids : Bits) (dev : Device) (ev : InputEvent)
      → (handle_key lime codes ids dev ev).device.fd ≡ dev.fd
  unfolding handle_key
  handle_key-fd ids dev ev =
      elim (Bool-cases (quits lime codes (update_modifiers lime codes dev.modifiers ev) ev)) [
        | inl e ↦ rw e refl
        | inr e ↦ rw e refl
      ]

  handle_button-fd :
      (ids : Bits) (dev : Device) (ev : InputEvent)
      → (handle_button lime codes ids dev ev).device.fd ≡ dev.fd
  unfolding handle_button press_button
  handle_button-fd ids dev ev = ground arith

  move_mouse-fd : (dev : Device) (ev : InputEvent) → (move_mouse lime codes dev ev).fd ≡ dev.fd
  unfolding move_mouse
  move_mouse-fd dev ev = ground arith

  move_axis-fd : (dev : Device) (ev : InputEvent) → (move_axis lime codes dev ev).0.fd ≡ dev.fd
  unfolding move_axis
  move_axis-fd dev ev = ground arith

  dispatch-fd :
      (t : EventType) (ids : Bits) (dev : Device) (ev : InputEvent)
      → (dispatch lime codes t ids dev ev).device.fd ≡ dev.fd
  unfolding dispatch
  dispatch-fd ev_syn ids dev ev = handle_syn-fd ids dev
  dispatch-fd ev_key ids dev ev = elim (Bool-cases (ltb ev.code (length key_codes))) [
    | inl e ↦ rw e (handle_key-fd ids dev ev)
    | inr e ↦ rw e (handle_button-fd ids dev ev)
  ]
  dispatch-fd ev_rel ids dev ev = move_mouse-fd dev ev
  dispatch-fd ev_abs ids dev ev = move_axis-fd dev ev
  dispatch-fd ev_other ids dev ev = refl

  pub handle_event-fd :
      (ids : Bits) (dev : Device) (ev : InputEvent)
      → (handle_event lime codes ids dev ev).device.fd ≡ dev.fd
  unfolding handle_event
  handle_event-fd ids dev ev = dispatch-fd ev.type ids dev ev
