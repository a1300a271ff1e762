-- ===== src/SdlInput/Key.antt =====
-- sdlinput_handle_event: the mouse's buttons and the keys.
use moonlight_embedded_crash.Prelude.Int.{
  pattern_of, pos_part, ℤ, pos, ◌+ℤ◌, ◌-ℤ◌, ltb_ℤ, leb_ℤ, eq_ℤ, to_short,
}
use moonlight_embedded_crash.Prelude.{
  ℕ, ◌*◌, ◌^◌, sym, Bool, true, false, not, ◌&&◌, ◌||◌, Option, none, some, [], ◌∷◌, ltb, ◌==◌,
  if◌then◌else◌, length, get_elem?,
}
use moonlight_embedded_crash.Prelude.Bits.{Bits, no_bits, ◌|b◌, ◌&b◌, ~b, eq_bits, nonzero}
use moonlight_embedded_crash.Limelight.{Limelight, Action, down, up, mouse_button, keyboard}
use moonlight_embedded_crash.SdlInput.{
  SdlInput, SdlCodes, nothing, quit_application, mouse_grab, mouse_ungrab, toggle_fullscreen,
  SdlHandled, sdl_key_codes,
}

abbrev pub by_action {ℓ} : {A : Type ℓ} → Action → A → A → A
by_action down x y = x
by_action up x y = y

abbrev pub is_up : Action → Bool
is_up down = false
is_up up = true

-- keyCodes[i]: behind the end of the table is what the memory there holds.
abbrev pub table_code : (ℕ → ℤ) → ℕ → Option ℤ → ℤ
table_code beyond i none = beyond i
table_code beyond i (some c) = c

-- `button` of the source: the Windows key code. The size that bounds the index is that of the
-- table in bytes, two for each entry.
unfoldable pub key_code : (ℕ → ℤ) → ℤ → ℤ
unfolding sdl_key_codes
key_code beyond sym =
    let first = pos 0x40000039 in
    let i = pos_part (sym -ℤ first) in
    if leb_ℤ first sym && ltb_ℤ sym (first +ℤ pos (2 * length sdl_key_codes))
    then table_code beyond i (get_elem? sdl_key_codes i)
    else if leb_ℤ (pos 0x61) sym
    then sym -ℤ pos 0x20
    else sym

-- 0x80 << 8 | n
abbrev pub with_bit_15 : ℤ → ℤ
with_bit_15 n = if ltb (pattern_of 16 n) (2 ^ 15) then n +ℤ pos (2 ^ 15) else n

module _ (lime : Limelight) (codes : SdlCodes) where
  -- The switch on event->button.button: 0 if it is none of the three.
  unfoldable pub mouse_button_of : ℕ → ℕ
  mouse_button_of n =
      if n == codes.button_left
      then lime.button_left
      else if n == codes.button_middle
      then lime.button_middle
      else if n == codes.button_right
      then lime.button_right
      else 0

  unfoldable pub handle_mouse_button : Action → ℕ → SdlInput → SdlHandled
  handle_mouse_button action n s =
      let code = mouse_button_of n in
      record {
        input = s;
        sent = if not (code == 0) then mouse_button action code ∷ [] else [];
        result = mouse_grab;
      }

  -- The switch on event->key.keysym.sym.
  unfoldable pub key_modifier : ℤ → Bits
  key_modifier sym =
      if eq_ℤ sym codes.k_rshift || eq_ℤ sym codes.k_lshift
      then lime.modifier_shift
      else if eq_ℤ sym codes.k_ralt || eq_ℤ sym codes.k_lalt
      then lime.modifier_alt
      else if eq_ℤ sym codes.k_rctrl || eq_ℤ sym codes.k_lctrl
      then lime.modifier_ctrl
      else no_bits

  -- ACTION_MODIFIERS
  abbrev pub action_modifiers : Bits
  action_modifiers = lime.modifier_shift |b lime.modifier_alt |b lime.modifier_ctrl

  unfoldable pub track_modifiers : Action → ℤ → Bits → Bits
  track_modifiers action sym held =
      let modifier = key_modifier sym in
      if nonzero 32 modifier
      then by_action action (held |b modifier) (held &b ~b modifier)
      else held

  unfoldable pub all_held : Bits → Bool
  all_held held = eq_bits 32 (held &b action_modifiers) action_modifiers

  -- SDL_KEYDOWN and SDL_KEYUP.
  unfoldable pub handle_sdl_key : (ℕ → ℤ) → Action → ℤ → SdlInput → SdlHandled
  handle_sdl_key beyond action sym s =
      let held = track_modifiers action sym s.keyboard_modifiers in
      let s' : SdlInput = record s { keyboard_modifiers = held } in
      if all_held held && (eq_ℤ sym codes.k_q && is_up action)
      then record { input = s'; sent = []; result = quit_application }
      else if all_held held && (eq_ℤ sym codes.k_f && is_up action)
      then record { input = s'; sent = []; result = toggle_fullscreen }
      else if all_held held
      then record { input = s'; sent = []; result = mouse_ungrab }
      else record {
        input = s';
        sent = keyboard (to_short (with_bit_15 (key_code beyond sym))) action held ∷ [];
        result = nothing;
      }
