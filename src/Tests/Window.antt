-- ===== src/Tests/Window.antt =====
-- The SDL input and the window on concrete events.
use moonlight_embedded_crash.Sdl.Ends.{state_after}
use moonlight_embedded_crash.Prelude.{
  ℕ, ◌+◌, ◌≡◌, refl, ◌↔◌, Bool, true, false, some, List, [], ◌∷◌,
}
use moonlight_embedded_crash.Prelude.Int.{ℤ, pos, ◌+ℤ◌, ◌-ℤ◌}
use moonlight_embedded_crash.Tests.{lime}
use moonlight_embedded_crash.Limelight.{down, up, keyboard}
use moonlight_embedded_crash.SdlInput.{
  SdlCodes, SdlEvent, button, caxis, cbutton, quit, user, sdlinput_init, quit_application,
}
use moonlight_embedded_crash.SdlInput.Event.{sdlinput_handle_event}
use moonlight_embedded_crash.SdlInput.Key.{handle_sdl_key, key_code}
use moonlight_embedded_crash.SdlInput.Quit.{AllHeld, handle_sdl_key_quits}
use moonlight_embedded_crash.SdlInput.Table.{IsTable}
use moonlight_embedded_crash.SdlInput.Table.Run.{
  ReportsFor, owner, after_events, joysticks, sdlinput_handle_event-assign,
}
use moonlight_embedded_crash.Sdl.{SdlState, Waited, handle_waited, sdl_loop}
use moonlight_embedded_crash.Sdl.Window.{apply_all, ready, sdl_loop-apply_all}

abbrev pub sdl_codes : SdlCodes
sdl_codes = record {
  button_left = 1;
  button_middle = 2;
  button_right = 3;
  k_rshift = pos 0x400000E5;
  k_lshift = pos 0x400000E1;
  k_ralt = pos 0x400000E6;
  k_lalt = pos 0x400000E2;
  k_rctrl = pos 0x400000E4;
  k_lctrl = pos 0x400000E0;
  k_q = pos 0x71;
  k_f = pos 0x66;
  axis_leftx = 0;
  axis_lefty = 1;
  axis_rightx = 2;
  axis_righty = 3;
  axis_triggerleft = 4;
  axis_triggerright = 5;
  button_a = 0;
  button_b = 1;
  button_x = 2;
  button_y = 3;
  button_back = 4;
  button_guide = 5;
  button_start = 6;
  button_leftstick = 7;
  button_rightstick = 8;
  button_leftshoulder = 9;
  button_rightshoulder = 10;
  button_dpad_up = 11;
  button_dpad_down = 12;
  button_dpad_left = 13;
  button_dpad_right = 14;
}

-- What the memory behind the table of key codes holds.
abbrev pub beyond : ℕ → ℤ
beyond i = pos 0

-- The keys A, F1 and Up, and the lock of the number pad, whose entry is behind the table.
key_codes_of :
    (key_code beyond (pos 0x61) ≡ pos 0x41)
    × (key_code beyond (pos 0x4000003A) ≡ pos 0x70)
    × (key_code beyond (pos 0x40000052) ≡ pos 0x26)
    × (key_code (λ i. pos (i + 1000)) (pos 0x40000053) ≡ pos 1026)
unfolding key_code ◌-ℤ◌ ◌+ℤ◌
key_codes_of = (refl, refl, refl, refl)

-- Two joysticks, the second of which comes first.
abbrev two_sticks : List SdlEvent
two_sticks = cbutton down (pos 7) 0 ∷ caxis (pos 3) 1 (pos 100) ∷ []

sdlinput_handle_event-assign_example :
    let s = after_events lime sdl_codes beyond two_sticks sdlinput_init in
    let e = cbutton up (pos 7) 0 in
    let js = joysticks lime sdl_codes beyond two_sticks [] in
    let r = sdlinput_handle_event lime sdl_codes beyond e s in
    IsTable js s.gamepads
    × IsTable (owner lime sdl_codes beyond e js).1 r.input.gamepads
    × ReportsFor (owner lime sdl_codes beyond e js).0 r.sent
sdlinput_handle_event-assign_example =
    sdlinput_handle_event-assign lime sdl_codes beyond two_sticks (cbutton up (pos 7) 0)

handle_sdl_key_quits_example :
    let r = handle_sdl_key lime sdl_codes beyond up (pos 0x71) sdlinput_init in
    let held = r.input.keyboard_modifiers in
    ((r.result ≡ quit_application)
      ↔ (AllHeld lime sdl_codes beyond held × (pos 0x71 ≡ pos 0x71) × (up ≡ up)))
    × (AllHeld lime sdl_codes beyond held → r.sent ≡ [])
    × ((AllHeld lime sdl_codes beyond held → ⊥)
        → (code : ℤ) × (r.sent ≡ keyboard code up held ∷ []))
    × (r.input.gamepads ≡ sdlinput_init.gamepads)
handle_sdl_key_quits_example =
    handle_sdl_key_quits lime sdl_codes beyond up (pos 0x71) sdlinput_init

abbrev plain : SdlEvent → Waited
plain e = record { event = e; locks = true }

abbrev opened : SdlState
opened = record { done = false; fullscreen_flags = true; input = sdlinput_init }

-- A frame, a click, and a frame that the mutex is not given for.
abbrev frames : List Waited
frames =
    plain (user (pos 0))
    ∷ plain (button down 1)
    ∷ record { event = user (pos 0); locks = false }
    ∷ []

sdl_loop-apply_all_example :
    let r = sdl_loop lime sdl_codes beyond frames opened in
    (grabbed : Bool) × (apply_all r.1 (ready true true)
      ≡ some (record (ready r.0.fullscreen_flags grabbed) { is_open = false }))
sdl_loop-apply_all_example = sdl_loop-apply_all lime sdl_codes beyond frames opened true

closes :
    (handle_waited lime sdl_codes beyond
      (plain quit)
      (state_after lime sdl_codes beyond frames opened)).0.done
    ≡ true
unfolding handle_waited moonlight_embedded_crash.Sdl.after_result sdlinput_handle_event
    moonlight_embedded_crash.Sdl.other_event
closes = refl
