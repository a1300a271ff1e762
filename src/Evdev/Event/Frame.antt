-- ===== src/Evdev/Event/Frame.antt =====
-- No change of a gamepad's state is lost between two reports.
use moonlight_embedded_crash.Evdev.Button.Press.{press_button_unmarked}
use moonlight_embedded_crash.Evdev.Button.{press_button, mouse_code_of, handle_button}
use moonlight_embedded_crash.Evdev.{
  ev_syn, ev_key, ev_rel, ev_abs, ev_other, EventType, InputEvent, InputCodes, Device,
}
use moonlight_embedded_crash.KeyCodes.{key_codes}
use moonlight_embedded_crash.Limelight.{
  down, up, mouse_button, controller, Sent, ControllerState, Limelight,
}
use moonlight_embedded_crash.Evdev.Handled.{choose, mark, Handled}
use moonlight_embedded_crash.Evdev.Axis.{move_axis, move_mouse}
use moonlight_embedded_crash.Evdev.Event.{dispatch, handle_event}
use moonlight_embedded_crash.Evdev.Key.{update_modifiers, quits, handle_key}
use moonlight_embedded_crash.Evdev.Syn.{flush_gamepad, handle_syn, controller_state}
use moonlight_embedded_crash.Prelude.{
  refl, sym, ap, ◌∙◌, inl, inr, Bool, ◌||◌, [], ◌∷◌, ltb, ◌==◌, Bool-cases, length, false, List,
  ◌≡◌, arith,
}
use moonlight_embedded_crash.Prelude.Bits.{Bits}

-- The state in the last controller event of a list of calls, or `last` if there is none.
abbrev pub last_sent : ControllerState → List Sent → ControllerState
last_sent last [] = last
last_sent last (controller id state ∷ sent) = last_sent state sent
last_sent last (_ ∷ sent) = last_sent last sent

-- The host knows the device's state unless the device is marked as modified.
abbrev pub IsReported : ControllerState → Device → Type 0
IsReported last dev = dev.gamepad_modified ≡ false → controller_state dev ≡ last

abbrev pub Reports : ControllerState → Handled → Type 0
Reports last r = IsReported (last_sent last r.sent) r.device

handle_syn-Reports :
    (last : ControllerState) (ids : Bits) (dev : Device)
    → IsReported last dev
    → Reports last (handle_syn ids dev)
unfolding handle_syn flush_gamepad
handle_syn-Reports last ids dev h = ground arith

or-false_right : (a b : Bool) → a || b ≡ false → b ≡ false
or-false_right a b h = ground arith

or-false_left : (a b : Bool) → a || b ≡ false → a ≡ false
or-false_left a b h = ground arith

unchanged :
    {d dev : Device}
    → d ≡ dev
    → (d.gamepad_modified ≡ dev.gamepad_modified) × (controller_state d ≡ controller_state dev)
unchanged e = (ap (λ (d : Device). d.gamepad_modified) e, ap (λ (d : Device). controller_state d) e)

module _ (lime : Limelight) (codes : InputCodes) where
  handle_key-Reports :
      (last : ControllerState) (ids : Bits) (dev : Device) (ev : InputEvent)
      → IsReported last dev
      → Reports last (handle_key lime codes ids dev ev)
  unfolding handle_key
  handle_key-Reports last ids dev ev h =
      elim (Bool-cases (quits lime codes (update_modifiers lime codes dev.modifiers ev) ev)) [
        | inl e ↦ rw e h
        | inr e ↦ rw e h
      ]

  mark-Reports :
      (last : ControllerState) (ids : Bits) (dev : Device) (p : Device × Bool) (sent : List Sent)
      → IsReported last dev
      → last_sent last sent ≡ last
      → (p.1 ≡ false
          → (p.0.gamepad_modified ≡ dev.gamepad_modified)
            × (controller_state p.0 ≡ controller_state dev))
      → Reports last (mark ids p sent)
  mark-Reports last ids dev p sent h e k f =
      let (g, c) = k (or-false_right p.0.gamepad_modified p.1 f) in
      c ∙ h (sym g ∙ or-false_left p.0.gamepad_modified p.1 f) ∙ sym e

  move_mouse-state :
      (dev : Device) (ev : InputEvent)
      → let d = move_mouse lime codes dev ev in
        (d.gamepad_modified ≡ dev.gamepad_modified) × (controller_state d ≡ controller_state dev)
  unfolding move_mouse
  move_mouse-state dev ev = ground arith

  move_axis-unmarked :
      (dev : Device) (ev : InputEvent)
      → (move_axis lime codes dev ev).1 ≡ false
      → (move_axis lime codes dev ev).0 ≡ dev
  unfolding move_axis
  move_axis-unmarked dev ev h = ground arith

  handle_button-Reports :
      (last : ControllerState) (ids : Bits) (dev : Device) (ev : InputEvent)
      → IsReported last dev
      → Reports last (handle_button lime codes ids dev ev)
  unfolding handle_button
  handle_button-Reports last ids dev ev h =
      elim (Bool-cases (mouse_code_of lime codes ev.code == 0)) [
        | inl e ↦ rw e (
            mark-Reports last ids dev (press_button lime codes dev ev) [] h refl
              (λ u. unchanged (press_button_unmarked lime codes dev ev u)))
        | inr e ↦ rw e (
            mark-Reports last ids dev (dev, false)
              (mouse_button (choose ev.value down up) (mouse_code_of lime codes ev.code) ∷ []) h
              refl (λ _. (refl, refl)))
      ]

  dispatch-Reports :
      (t : EventType) (last : ControllerState) (ids : Bits) (dev : Device) (ev : InputEvent)
      → IsReported last dev
      → Reports last (dispatch lime codes t ids dev ev)
  unfolding dispatch
  dispatch-Reports ev_syn last ids dev ev h = handle_syn-Reports last ids dev h
  dispatch-Reports ev_key last ids dev ev h = elim (Bool-cases (ltb ev.code (length key_codes))) [
    | inl e ↦ rw e (handle_key-Reports last ids dev ev h)
    | inr e ↦ rw e (handle_button-Reports last ids dev ev h)
  ]
  dispatch-Reports ev_rel last ids dev ev h =
      mark-Reports last ids dev (move_mouse lime codes dev ev, false) [] h refl
        (λ _. move_mouse-state dev ev)
  dispatch-Reports ev_abs last ids dev ev h =
      mark-Reports last ids dev (move_axis lime codes dev ev) [] h refl
        (λ u. unchanged (move_axis-unmarked dev ev u))
  dispatch-Reports ev_other last ids dev ev h =
      mark-Reports last ids dev (dev, false) [] h refl (λ _. (refl, refl))

  -- If the host knows the state of the gamepad unless the device is marked as modified, then so it
  -- does after any event: what changes the state marks the device, and what unmarks it sends the
  -- state.
  pub handle_event-IsReported :
      (last : ControllerState) (ids : Bits) (dev : Device) (ev : InputEvent)
      → IsReported last dev
      → IsReported
          (last_sent last (handle_event lime codes ids dev ev).sent)
          (handle_event lime codes ids dev ev).device
  unfolding handle_event
  handle_event-IsReported last ids dev ev h = dispatch-Reports ev.type last ids dev ev h
