-- ===== src/SdlInput/Event.antt =====
-- sdlinput_handle_event: the switch on the type of the event.
use moonlight_embedded_crash.Prelude.{ℕ, sym, [], ◌∷◌}
use moonlight_embedded_crash.Prelude.Int.{ℤ}
use moonlight_embedded_crash.Limelight.{Limelight, mouse_move, scroll}
use moonlight_embedded_crash.SdlInput.{
  SdlInput, SdlCodes, SdlEvent, motion, wheel, button, key, caxis, cbutton, quit, user, other,
  nothing, SdlHandled,
}
use moonlight_embedded_crash.SdlInput.Key.{handle_mouse_button, handle_sdl_key}
use moonlight_embedded_crash.SdlInput.Pad.{set_axis, set_button, handle_pad}

-- `beyond` is what the memory behind the table keyCodes holds.
module _ (lime : Limelight) (codes : SdlCodes) (beyond : ℕ → ℤ) where
  unfoldable pub sdlinput_handle_event : SdlEvent → SdlInput → SdlHandled
  sdlinput_handle_event (motion xrel yrel) s = record {
    input = s;
    sent = mouse_move xrel yrel ∷ [];
    result = nothing;
  }
  sdlinput_handle_event (wheel y) s = record { input = s; sent = scroll y ∷ []; result = nothing }
  sdlinput_handle_event (button action n) s = handle_mouse_button lime codes action n s
  sdlinput_handle_event (key action sym) s = handle_sdl_key lime codes beyond action sym s
  sdlinput_handle_event (caxis which axis value) s =
      handle_pad (set_axis lime codes axis value) which s
  sdlinput_handle_event (cbutton action which n) s =
      handle_pad (set_button lime codes action n) which s
  sdlinput_handle_event quit s = record { input = s; sent = []; result = nothing }
  sdlinput_handle_event (user code) s = record { input = s; sent = []; result = nothing }
  sdlinput_handle_event other s = record { input = s; sent = []; result = nothing }
