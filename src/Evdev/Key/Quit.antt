-- ===== src/Evdev/Key/Quit.antt =====
-- The modifier bits that a keyboard's keys leave, and the key combination that ends the stream.
use moonlight_embedded_crash.Prelude.Bits.{
  eq_bits_sound, eq_bits_intro, ◌&b◌, eq_bits, zero_bit, nonzero, Bits,
}
use moonlight_embedded_crash.Prelude.{
  ◌+◌, ◌==◌, ◌||◌, get_elem?, refl, ◌∙◌, sym, ◌∷◌, inr, inl, [], ◌≢◌, Bool-cases, true, not,
  if◌then◌else◌, ◌↔◌, ◌<◌, false, ℕ, ◌≡◌, arith,
}
use moonlight_embedded_crash.Evdev.Key.{
  gets, quits, quit_modifiers, modifier_of, update_modifiers, handle_key,
}
use moonlight_embedded_crash.Limelight.{Limelight, keyboard, up, down}
use moonlight_embedded_crash.KeyCodes.{key_codes}
use moonlight_embedded_crash.Prelude.Int.{pos, to_short}
use moonlight_embedded_crash.Evdev.Handled.{is_zero}
use moonlight_embedded_crash.Evdev.{Device, InputEvent, InputCodes}

module _ (lime : Limelight) (codes : InputCodes) where
  -- The bits of the modifier that a key stands for.
  abbrev mask : InputEvent → Bits
  mask ev = modifier_of lime codes ev.code

  -- A key event sets the bits of its modifier when it is pressed or repeated and clears them when
  -- it is released; all other modifier bits stay as they are.
  pub update_modifiers_bits :
      (modifiers : Bits) (ev : InputEvent) (i : ℕ)
      → i < 8
      → update_modifiers lime codes modifiers ev i
        ≡ (if mask ev i then not (is_zero ev.value) else modifiers i)
  unfolding update_modifiers
  update_modifiers_bits modifiers ev i h = elim (Bool-cases (nonzero 8 (mask ev))) [
    | inl e ↦ rw e (ground arith)
    | inr e ↦ rw (e, zero_bit 8 (mask ev) i e h)
  ]

  abbrev AllDown : Bits → Type 0
  AllDown modifiers = (i : ℕ) → i < 8 → quit_modifiers lime codes i ≡ true → modifiers i ≡ true

  AllDown-sound :
      (m : Bits)
      → eq_bits 8 (m &b quit_modifiers lime codes) (quit_modifiers lime codes) ≡ true
      → AllDown m
  AllDown-sound m e i h q =
      ground
        (arith, eq_bits_sound 8 (m &b quit_modifiers lime codes) (quit_modifiers lime codes) i e h)

  AllDown-complete :
      (m : Bits)
      → AllDown m
      → eq_bits 8 (m &b quit_modifiers lime codes) (quit_modifiers lime codes) ≡ true
  AllDown-complete m all = eq_bits_intro 8 _ _ (λ i h. ground (arith, all i h))

  quits_sound :
      (m : Bits) (ev : InputEvent)
      → quits lime codes m ev ≡ true
      → AllDown m × (ev.code ≡ codes.key_q) × (ev.value ≢ pos 0)
  unfolding quits
  quits_sound m ev e = (AllDown-sound m (ground arith), ground arith, ground arith)

  quits_complete :
      (m : Bits) (ev : InputEvent)
      → AllDown m × (ev.code ≡ codes.key_q) × (ev.value ≢ pos 0)
      → quits lime codes m ev ≡ true
  unfolding quits
  quits_complete m ev (all, c, v) = ground (arith, AllDown-complete m all)

  -- The bits of the modifier whose left or right key it is.
  abbrev pub stands_for : ℕ → Bits
  stands_for code i =
      if code == codes.key_leftshift || code == codes.key_rightshift
      then lime.modifier_shift i
      else if code == codes.key_leftalt || code == codes.key_rightalt
      then lime.modifier_alt i
      else if code == codes.key_leftctrl || code == codes.key_rightctrl
      then lime.modifier_ctrl i
      else false

  modifier_of-stands_for : (code i : ℕ) → modifier_of lime codes code i ≡ stands_for code i
  unfolding modifier_of
  modifier_of-stands_for code i = ground arith

  -- The handler of a keyboard's key sets the bits of the key's modifier when it is pressed or
  -- repeated and clears them when it is released; all other modifier bits stay as they are. It stops
  -- the loop exactly when every bit of the three quit modifiers is set after the event, the key is Q,
  -- and it is not a release. It then sends nothing; otherwise it sends one keyboard event, with the
  -- code that the table keyCodes has for the key above 0x8000, up on a release and down otherwise,
  -- and the modifiers as they are after the event.
  pub handle_key_quits :
      (ids : Bits) (dev : Device) (ev : InputEvent)
      → let r = handle_key lime codes ids dev ev in
        ((r.go_on ≡ false) ↔ (
          ((i : ℕ)
            → i < 8
            → lime.modifier_shift i || lime.modifier_alt i || lime.modifier_ctrl i ≡ true
            → r.device.modifiers i ≡ true)
          × (ev.code ≡ codes.key_q)
          × (ev.value ≢ pos 0)))
        × (r.go_on ≡ false → r.sent ≡ [])
        × (r.go_on ≡ true
            → r.sent
              ≡ keyboard
                  (to_short (pos (0x8000 + gets (get_elem? key_codes ev.code))))
                  (if is_zero ev.value then up else down)
                  r.device.modifiers
                ∷ [])
        × ((i : ℕ)
            → i < 8
            → r.device.modifiers i
              ≡ (if stands_for ev.code i then not (is_zero ev.value) else dev.modifiers i))
  unfolding handle_key
  handle_key_quits ids dev ev =
      let m : Bits = update_modifiers lime codes dev.modifiers ev in
      elim (Bool-cases (quits lime codes m ev)) [
        | inl e ↦ rw e (
          ((λ _. quits_sound m ev e), (λ _. refl)),
          (λ _. refl),
          (λ f. cc),
          (λ i h.
              update_modifiers_bits dev.modifiers ev i h
              ∙ rw (modifier_of-stands_for ev.code i) refl),
        )
        | inr e ↦ rw e (
          ((λ f. cc), (λ h. sym (quits_complete m ev h) ∙ e)),
          (λ f. cc),
          (λ _. refl),
          (λ i h.
              update_modifiers_bits dev.modifiers ev i h
              ∙ rw (modifier_of-stands_for ev.code i) refl),
        )
      ]
