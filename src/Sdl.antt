-- ===== src/Sdl.antt =====
-- src/sdl.h and src/sdl.c: the window, and the loop that waits for its events.
pub mod Window
pub mod Ends
use mathlib.Core.Path.{subst}
use mathlib.Core.List.{append-nil, append_assoc}
use moonlight_embedded_crash.Prelude.{
  ℕ, zero, suc, ◌+◌, ◌-◌, ◌*◌, ◌/◌, ◌%◌, ◌^◌, ◌≤◌, ◌<◌, ◌≡◌, refl, sym, ap, ◌∙◌, fun_ext, ◌≢◌, ◌↔◌,
  ◌⊎◌, inl, inr, Bool, true, false, not, ◌&&◌, ◌||◌, Option, none, some, List, [], ◌∷◌, ◌++◌, map,
  arith, ltb, leb, ◌==◌, if◌then◌else◌, ltb→lt, lt→ltb, leb→le, ==_iff, ==_refl, Bool-cases,
  Option-cases, length, get_elem?, set, take, length-append, length-set, get_elem?-set_self,
  get_elem?-set_ne,
}
use moonlight_embedded_crash.Prelude.Int.{
  ℤ, pos, negsuc, ◌+ℤ◌, ◌-ℤ◌, ◌*ℤ◌, quot, ◌≤ℤ◌, ◌<ℤ◌, ltb_ℤ, leb_ℤ, eq_ℤ, abs, to_short, to_char,
  to_int, IsShort, IsInt, int_laws, eq_of_parts, eq_ℤ_refl, eq_ℤ→eq,
}
use moonlight_embedded_crash.Prelude.Bits.{
  Bits, bits, no_bits, ◌|b◌, ◌&b◌, ~b, one_bit, sign_extend, all_below, eq_bits, nonzero, zero_bit,
  nonzero_of_bit, eq_bits_sound, eq_bits_intro,
}
use moonlight_embedded_crash.Prelude.Text.{Bytes, codes, str_eq, is_space, str_eq_refl, str_eq→eq}
use moonlight_embedded_crash.Prelude.Process.{
  Process, running, exited, ◌>>=◌, exit_failure, minus_one,
}
use moonlight_embedded_crash.Limelight.{
  Limelight, Action, down, up, ControllerState, Sent, mouse_move, scroll, mouse_button, keyboard,
  controller,
}
use moonlight_embedded_crash.SdlInput.{
  GamepadState, SdlInput, SdlCodes, SdlEvent, motion, wheel, button, key, caxis, cbutton, quit,
  user, other, SdlResult, nothing, quit_application, mouse_grab, mouse_ungrab, toggle_fullscreen,
  SdlHandled, sdlinput_init,
}
use moonlight_embedded_crash.SdlInput.Event.{sdlinput_handle_event}

-- What the program asks of SDL about the window, in the order of the calls: the calls of the input
-- handler, SDL_SetWindowFullscreen, SDL_SetRelativeMouseMode, SDL_LockMutex with its success, the
-- calls that show a frame, SDL_UnlockMutex, SDL_DestroyWindow and SDL_Quit.
pub data SdlCall : Type 0 where
  send : Sent → SdlCall
  set_window_fullscreen : Bool → SdlCall
  set_relative_mouse_mode : Bool → SdlCall
  lock_mutex : Bool → SdlCall
  update_yuv_texture render_clear render_copy render_present : SdlCall
  unlock_mutex destroy_window quit_sdl : SdlCall

-- The statics `done` and `fullscreen_flags`, which is SDL_WINDOW_FULLSCREEN or 0, with those of the
-- input.
pub record SdlState : Type 0 where
  pub done : Bool
  pub fullscreen_flags : Bool
  pub input : SdlInput

-- An event that SDL_WaitEvent gives, with whether SDL_LockMutex succeeds if it is called for it.
pub record Waited : Type 0 where
  pub event : SdlEvent
  pub locks : Bool

-- Which of the calls of sdl_init succeed: SDL_Init and the four that create something.
pub record Setup : Type 0 where
  pub inits : Bool
  pub creates_window : Bool
  pub creates_renderer : Bool
  pub creates_texture : Bool
  pub creates_mutex : Bool

unfoldable pub sdl_init : Setup → Bool → Process (SdlState × List SdlCall)
sdl_init setup fullscreen =
    if not setup.inits
    then exited (pos 1)
    else if not setup.creates_window
    then exited (pos 1)
    else if not setup.creates_renderer
    then exited (pos 1)
    else if not setup.creates_texture
    then exited (pos 1)
    else if not setup.creates_mutex
    then exited (pos 1)
    else running (
      record { done = false; fullscreen_flags = fullscreen; input = sdlinput_init },
      set_relative_mouse_mode true ∷ [],
    )

-- SDL_CODE_FRAME
abbrev pub sdl_code_frame : ℤ
sdl_code_frame = pos 0

unfoldable pub show_frame : Bool → List SdlCall
show_frame true =
    lock_mutex true
    ∷ update_yuv_texture
    ∷ render_clear
    ∷ render_copy
    ∷ render_present
    ∷ unlock_mutex
    ∷ []
show_frame false = lock_mutex false ∷ []

-- The case `default` of sdl_loop.
unfoldable pub other_event : SdlEvent → Bool → SdlState → SdlState × List SdlCall
other_event quit locks s = (record s { done = true }, [])
other_event (user code) locks s = (s, if eq_ℤ code sdl_code_frame then show_frame locks else [])
other_event _ locks s = (s, [])

-- The switch of sdl_loop. The case SDL_TOGGLE_FULLSCREEN falls through to SDL_MOUSE_GRAB.
unfoldable pub after_result : SdlResult → SdlEvent → Bool → SdlState → SdlState × List SdlCall
after_result quit_application event locks s = (record s { done = true }, [])
after_result toggle_fullscreen event locks s =
    let flags = not s.fullscreen_flags in
    (
      record s { fullscreen_flags = flags },
      set_window_fullscreen flags ∷ set_relative_mouse_mode true ∷ [],
    )
after_result mouse_grab event locks s = (s, set_relative_mouse_mode true ∷ [])
after_result mouse_ungrab event locks s = (s, set_relative_mouse_mode false ∷ [])
after_result nothing event locks s = other_event event locks s

abbrev pub prepend {ℓ} : {A : Type ℓ} → List SdlCall → A × List SdlCall → A × List SdlCall
prepend calls (a, more) = (a, calls ++ more)

abbrev pub closing : List SdlCall
closing = destroy_window ∷ quit_sdl ∷ []

module _ (lime : Limelight) (codes : SdlCodes) (beyond : ℕ → ℤ) where
  -- The body of the loop.
  unfoldable pub handle_waited : Waited → SdlState → SdlState × List SdlCall
  handle_waited w s =
      let r = sdlinput_handle_event lime codes beyond w.event s.input in
      prepend (map send r.sent)
        (after_result r.result w.event w.locks (record s { input = r.input }))

  -- sdl_loop, on the events that SDL_WaitEvent gives before it fails.
  unfoldable pub sdl_loop : List Waited → SdlState → SdlState × List SdlCall
  sdl_loop [] s = (s, closing)
  sdl_loop (w ∷ ws) s =
      let step = handle_waited w s in
      let rest = sdl_loop ws step.0 in if s.done then (s, closing) else prepend step.1 rest
