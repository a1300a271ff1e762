-- ===== src/SdlInput.antt =====
-- src/input/sdlinput.h and sdlinput.c: keyboard, mouse and gamepads through SDL. This file has the
-- data, the table of key codes and get_gamepad; the children have the cases of
-- sdlinput_handle_event.
pub mod Key
pub mod Pad
pub mod Event
pub mod Table
pub mod Quit
pub mod Axes
use mathlib.Core.Path.{subst}
use mathlib.Core.List.{append-nil, append_assoc}
use moonlight_embedded_crash.Prelude.{
  ℕ, zero, suc, ◌+◌, ◌-◌, ◌*◌, ◌/◌, ◌%◌, ◌^◌, ◌≤◌, ◌<◌, ◌≡◌, refl, sym, ap, ◌∙◌, fun_ext, ◌≢◌, ◌↔◌,
  ◌⊎◌, inl, inr, Bool, true, false, not, ◌&&◌, ◌||◌, Option, none, some, List, [], ◌∷◌, ◌++◌, map,
  arith, ltb, leb, ◌==◌, if◌then◌else◌, ltb→lt, lt→ltb, leb→le, ==_iff, ==_refl, Bool-cases,
  Option-cases, length, get_elem?, set, take, length-append, length-set, get_elem?-set_self,
  get_elem?-set_ne,
}
use moonlight_embedded_crash.Prelude.Int.{
  ℤ, pos, negsuc, ◌+ℤ◌, ◌-ℤ◌, ◌*ℤ◌, quot, ◌≤ℤ◌, ◌<ℤ◌, ltb_ℤ, leb_ℤ, eq_ℤ, abs, to_short, to_char,
  to_int, IsShort, IsInt, int_laws, eq_of_parts, eq_ℤ_refl, eq_ℤ→eq,
}
use moonlight_embedded_crash.Prelude.Bits.{
  Bits, bits, no_bits, ◌|b◌, ◌&b◌, ~b, one_bit, sign_extend, all_below, eq_bits, nonzero, zero_bit,
  nonzero_of_bit, eq_bits_sound, eq_bits_intro,
}
use moonlight_embedded_crash.Prelude.Text.{Bytes, codes, str_eq, is_space, str_eq_refl, str_eq→eq}
use moonlight_embedded_crash.Prelude.Process.{
  Process, running, exited, ◌>>=◌, exit_failure, minus_one,
}
use moonlight_embedded_crash.Limelight.{
  Limelight, Action, down, up, ControllerState, Sent, mouse_move, scroll, mouse_button, keyboard,
  controller,
}

-- GAMEPAD_STATE. Triggers are the byte of a char.
pub record GamepadState : Type 0 where
  pub left_trigger : ℕ
  pub right_trigger : ℕ
  pub left_stick_x : ℤ
  pub left_stick_y : ℤ
  pub right_stick_x : ℤ
  pub right_stick_y : ℤ
  pub buttons : Bits
  pub sdl_id : ℤ
  pub id : ℤ
  pub initialized : Bool

-- The statics `gamepads` and `keyboard_modifiers`.
pub record SdlInput : Type 0 where
  pub gamepads : List GamepadState
  pub keyboard_modifiers : Bits

-- The constants of SDL.h that the handler names.
pub record SdlCodes : Type 0 where
  pub button_left : ℕ
  pub button_middle : ℕ
  pub button_right : ℕ
  pub k_rshift : ℤ
  pub k_lshift : ℤ
  pub k_ralt : ℤ
  pub k_lalt : ℤ
  pub k_rctrl : ℤ
  pub k_lctrl : ℤ
  pub k_q : ℤ
  pub k_f : ℤ
  pub axis_leftx : ℕ
  pub axis_lefty : ℕ
  pub axis_rightx : ℕ
  pub axis_righty : ℕ
  pub axis_triggerleft : ℕ
  pub axis_triggerright : ℕ
  pub button_a : ℕ
  pub button_b : ℕ
  pub button_y : ℕ
  pub button_x : ℕ
  pub button_dpad_up : ℕ
  pub button_dpad_down : ℕ
  pub button_dpad_right : ℕ
  pub button_dpad_left : ℕ
  pub button_back : ℕ
  pub button_start : ℕ
  pub button_guide : ℕ
  pub button_leftstick : ℕ
  pub button_rightstick : ℕ
  pub button_leftshoulder : ℕ
  pub button_rightshoulder : ℕ

-- SDL_Event, by the member of the union: SDL_MOUSEMOTION, SDL_MOUSEWHEEL, SDL_MOUSEBUTTONDOWN and
-- UP, SDL_KEYDOWN and UP, SDL_CONTROLLERAXISMOTION, SDL_CONTROLLERBUTTONDOWN and UP, SDL_QUIT,
-- SDL_USEREVENT with its code, and the types that nobody handles.
pub data SdlEvent : Type 0 where
  motion : ℤ → ℤ → SdlEvent
  wheel : ℤ → SdlEvent
  button : Action → ℕ → SdlEvent
  key : Action → ℤ → SdlEvent
  caxis : ℤ → ℕ → ℤ → SdlEvent
  cbutton : Action → ℤ → ℕ → SdlEvent
  quit : SdlEvent
  user : ℤ → SdlEvent
  other : SdlEvent

-- SDL_NOTHING, SDL_QUIT_APPLICATION, SDL_MOUSE_GRAB, SDL_MOUSE_UNGRAB and SDL_TOGGLE_FULLSCREEN of
-- sdl.h.
pub data SdlResult : Type 0 where
  nothing quit_application mouse_grab mouse_ungrab toggle_fullscreen : SdlResult

pub record SdlHandled : Type 0 where
  pub input : SdlInput
  pub sent : List Sent
  pub result : SdlResult

-- The table keyCodes, from SDLK_CAPSLOCK to SDLK_UP.
unfoldable pub sdl_key_codes : List ℤ
sdl_key_codes =
    pos 0x14
    ∷ pos 0x70
    ∷ pos 0x71
    ∷ pos 0x72
    ∷ pos 0x73
    ∷ pos 0x74
    ∷ pos 0x75
    ∷ pos 0x76
    ∷ pos 0x77
    ∷ pos 0x78
    ∷ pos 0x79
    ∷ pos 0x7A
    ∷ pos 0x7B
    ∷ pos 0
    ∷ pos 0x91
    ∷ pos 0x13
    ∷ pos 0x9B
    ∷ pos 0x24
    ∷ pos 0x21
    ∷ pos 0
    ∷ pos 0x23
    ∷ pos 0x22
    ∷ pos 0x27
    ∷ pos 0x25
    ∷ pos 0x28
    ∷ pos 0x26
    ∷ []

-- A slot that memset cleared.
abbrev pub cleared : GamepadState
cleared = record {
  left_trigger = 0;
  right_trigger = 0;
  left_stick_x = pos 0;
  left_stick_y = pos 0;
  right_stick_x = pos 0;
  right_stick_y = pos 0;
  buttons = no_bits;
  sdl_id = pos 0;
  id = pos 0;
  initialized = false;
}

-- The state after sdlinput_init.
unfoldable pub sdlinput_init : SdlInput
sdlinput_init = record {
  gamepads = cleared ∷ cleared ∷ cleared ∷ cleared ∷ [];
  keyboard_modifiers = no_bits;
}

abbrev pub past : GamepadState → Option ℕ × List GamepadState → Option ℕ × List GamepadState
past g (found, gs) = (found, g ∷ gs)

-- The loop of get_gamepad from slot `i`.
unfoldable pub find_gamepad : ℕ → ℤ → List GamepadState → Option ℕ × List GamepadState
find_gamepad i sdl_id [] = (none, [])
find_gamepad i sdl_id (g ∷ gs) =
    let rest = find_gamepad (suc i) sdl_id gs in
    if not g.initialized
    then (some i, record g { sdl_id = sdl_id; id = pos i; initialized = true } ∷ gs)
    else if eq_ℤ g.sdl_id sdl_id
    then (some i, g ∷ gs)
    else past g rest

abbrev or_first : Option ℕ × List GamepadState → ℕ × List GamepadState
or_first (none, gs) = (0, gs)
or_first (some i, gs) = (i, gs)

-- get_gamepad, with the index of the slot that it returns the address of.
unfoldable pub get_gamepad : ℤ → List GamepadState → ℕ × List GamepadState
get_gamepad sdl_id gs = or_first (find_gamepad 0 sdl_id gs)
