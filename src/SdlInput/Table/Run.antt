-- ===== src/SdlInput/Table/Run.antt =====
-- Runs of sdlinput_handle_event against the list of joysticks that were seen.
use moonlight_embedded_crash.SdlInput.Key.{
  handle_mouse_button, handle_sdl_key, mouse_button_of, track_modifiers, all_held, is_up,
}
use moonlight_embedded_crash.SdlInput.{
  sdlinput_init, GamepadState, SdlInput, SdlCodes, SdlEvent, motion, wheel, button, key, caxis,
  cbutton, quit, user, other, get_gamepad,
}
use moonlight_embedded_crash.SdlInput.Pad.{
  press, set_axis, set_button, flag_of, handle_pad, store_pad, change_slot,
}
use moonlight_embedded_crash.Limelight.{Action, Limelight, Sent, controller}
use moonlight_embedded_crash.Prelude.{
  ℕ, ◌<◌, ◌≡◌, refl, sym, ap, ◌∙◌, inl, inr, ◌&&◌, Option, some, List, [], ◌∷◌, arith, ◌==◌,
  Bool-cases, Option-cases, length, get_elem?, length-set,
}
use moonlight_embedded_crash.Prelude.Int.{ℤ, pos, eq_ℤ}
use moonlight_embedded_crash.SdlInput.Table.{
  IsTable, SameOwner, assign, assign-lt, get_gamepad-assign, get_elem?-Holds, set-Holds,
}
use moonlight_embedded_crash.SdlInput.Event.{sdlinput_handle_event}

abbrev Keeps : (GamepadState → Option GamepadState) → Type 0
Keeps f = (g g' : GamepadState) → f g ≡ some g' → SameOwner g g'

-- Every controller report among the calls is for the number of the slot.
abbrev pub ReportsFor : ℕ → List Sent → Type 0
ReportsFor i [] = Unit
ReportsFor i (controller c _ ∷ sent) = (c ≡ pos i) × ReportsFor i sent
ReportsFor i (_ ∷ sent) = ReportsFor i sent

stored :
    (s : SdlInput) (js : List ℤ) (gs : List GamepadState) (i : ℕ)
    (f : GamepadState → Option GamepadState)
    → Keeps f
    → IsTable js gs
    → i < length js
    → let r = store_pad s gs i (change_slot f (get_elem? gs i)) in
      IsTable js r.input.gamepads × ReportsFor i r.sent
stored s js gs i f keeps (h, four) lt = elim (Option-cases (get_elem? gs i)) [
  | inl e ↦ rw e ((h, four), tt)
  | inr (g, e) ↦ elim (Option-cases (f g)) [
    | inl e' ↦ rw (e, e') ((h, four), tt)
    | inr (g', e') ↦
        let o = keeps g g' e' in
        rw (e, e')
          (
            (set-Holds 0 i js gs g g' h lt e o, length-set gs i g' ∙ four),
            (o.2 ∙ get_elem?-Holds 0 i js gs g h lt e ∙ ap pos (omega arith), tt),
          )
  ]
]

handle_pad-assign :
    (f : GamepadState → Option GamepadState) (j : ℤ) (s : SdlInput) (js : List ℤ)
    → Keeps f
    → IsTable js s.gamepads
    → let r = handle_pad f j s in
      IsTable (assign j js).1 r.input.gamepads × ReportsFor (assign j js).0 r.sent
unfolding handle_pad
handle_pad-assign f j s js keeps h =
    let (same, held) = get_gamepad-assign j js s.gamepads h in
    rw same (
      stored s (assign j js).1 (get_gamepad j s.gamepads).1 (assign j js).0 f keeps held
        (assign-lt j js))

module _ (lime : Limelight) (codes : SdlCodes) (beyond : ℕ → ℤ) where
  set_axis-Keeps : (axis : ℕ) (value : ℤ) → Keeps (set_axis lime codes axis value)
  unfolding set_axis
  set_axis-Keeps axis value g g' e = (ground arith, ground arith, ground arith)

  set_button-Keeps : (action : Action) (n : ℕ) → Keeps (set_button lime codes action n)
  unfolding set_button
  set_button-Keeps action n g g' e = elim (Option-cases (flag_of lime codes n)) [
    | inl q ↦ absurd (cc (rw q at e))
    | inr (b, q) ↦
        let p : record g { buttons = press lime codes action b g.buttons } ≡ g' = cc (rw q at e) in
        (ap (λ x. x.initialized) (sym p), ap (λ x. x.sdl_id) (sym p), ap (λ x. x.id) (sym p))
  ]

  -- The joystick of an event joins the list.
  abbrev pub owner : SdlEvent → List ℤ → ℕ × List ℤ
  owner (caxis which axis value) js = assign which js
  owner (cbutton action which n) js = assign which js
  owner _ js = (0, js)

  mouse_button-assign :
      (action : Action) (n : ℕ) (s : SdlInput) (js : List ℤ)
      → IsTable js s.gamepads
      → let r = handle_mouse_button lime codes action n s in
        IsTable js r.input.gamepads × ReportsFor 0 r.sent
  unfolding handle_mouse_button
  mouse_button-assign action n s js h = elim (Bool-cases (mouse_button_of lime codes n == 0)) [
    | inl e ↦ rw e (h, tt)
    | inr e ↦ rw e (h, tt)
  ]

  sdl_key-assign :
      (action : Action) (sym : ℤ) (s : SdlInput) (js : List ℤ)
      → IsTable js s.gamepads
      → let r = handle_sdl_key lime codes beyond action sym s in
        IsTable js r.input.gamepads × ReportsFor 0 r.sent
  unfolding handle_sdl_key
  sdl_key-assign action k s js h =
      let held = track_modifiers lime codes action k s.keyboard_modifiers in
      elim (Bool-cases (all_held lime codes held)) [
        | inl e ↦ elim (Bool-cases (eq_ℤ k codes.k_q && is_up action)) [
          | inl q ↦ rw (e, q) (h, tt)
          | inr q ↦ elim (Bool-cases (eq_ℤ k codes.k_f && is_up action)) [
            | inl f ↦ rw (e, q, f) (h, tt)
            | inr f ↦ rw (e, q, f) (h, tt)
          ]
        ]
        | inr e ↦ rw e (h, tt)
      ]

  handle_event-assign :
      (e : SdlEvent) (s : SdlInput) (js : List ℤ)
      → IsTable js s.gamepads
      → let r = sdlinput_handle_event lime codes beyond e s in
        IsTable (owner e js).1 r.input.gamepads × ReportsFor (owner e js).0 r.sent
  unfolding sdlinput_handle_event
  handle_event-assign (motion xrel yrel) s js h = (h, tt)
  handle_event-assign (wheel y) s js h = (h, tt)
  handle_event-assign (button action n) s js h = mouse_button-assign action n s js h
  handle_event-assign (key action k) s js h = sdl_key-assign action k s js h
  handle_event-assign (caxis which axis value) s js h =
      handle_pad-assign _ which s js (set_axis-Keeps axis value) h
  handle_event-assign (cbutton action which n) s js h =
      handle_pad-assign _ which s js (set_button-Keeps action n) h
  handle_event-assign quit s js h = (h, tt)
  handle_event-assign (user code) s js h = (h, tt)
  handle_event-assign other s js h = (h, tt)

  -- The state after a sequence of events, and each call's report with the slot it is for.
  unfoldable pub after_events : List SdlEvent → SdlInput → SdlInput
  after_events [] s = s
  after_events (e ∷ es) s = after_events es (sdlinput_handle_event lime codes beyond e s).input

  abbrev pub joysticks : List SdlEvent → List ℤ → List ℤ
  joysticks [] js = js
  joysticks (e ∷ es) js = joysticks es (owner e js).1

  runs :
      (es : List SdlEvent) (s : SdlInput) (js : List ℤ)
      → IsTable js s.gamepads
      → IsTable (joysticks es js) (after_events es s).gamepads
  unfolding after_events
  runs [] s js h = h
  runs (e ∷ es) s js h = runs es _ _ (handle_event-assign e s js h).0

  held_at_start : IsTable [] sdlinput_init.gamepads
  unfolding sdlinput_init
  held_at_start = ((refl, (refl, (refl, (refl, tt)))), refl)

  -- After any sequence of events since sdlinput_init, the table has four slots: it holds the
  -- joysticks that were seen, in the order of their first events and numbered by it, and cleared
  -- slots behind them. What one more event reports carries the number of the slot that its joystick
  -- is assigned.
  pub sdlinput_handle_event-assign :
      (es : List SdlEvent) (e : SdlEvent)
      → let s = after_events es sdlinput_init in
        let js = joysticks es [] in
        let r = sdlinput_handle_event lime codes beyond e s in
        IsTable js s.gamepads
        × IsTable (owner e js).1 r.input.gamepads
        × ReportsFor (owner e js).0 r.sent
  sdlinput_handle_event-assign es e =
      let h = runs es sdlinput_init [] (held_at_start) in
      (h, (handle_event-assign e _ _ h).0, (handle_event-assign e _ _ h).1)
