-- ===== src/SdlInput/Quit.antt =====
-- The key combinations of sdlinput_handle_event.
use moonlight_embedded_crash.Limelight.{keyboard, Limelight, Action, down, up}
use moonlight_embedded_crash.Prelude.{
  ℕ, ◌<◌, ◌≡◌, refl, ◌↔◌, inl, inr, true, false, ◌&&◌, [], ◌∷◌, arith, Bool-cases,
}
use moonlight_embedded_crash.Prelude.Int.{ℤ, eq_ℤ, eq_ℤ_refl, eq_ℤ→eq}
use moonlight_embedded_crash.Prelude.Bits.{Bits, ◌&b◌, eq_bits_sound, eq_bits_intro}
use moonlight_embedded_crash.SdlInput.{SdlInput, SdlCodes, quit_application}
use moonlight_embedded_crash.SdlInput.Key.{
  handle_sdl_key, track_modifiers, all_held, action_modifiers, is_up,
}

releases : (k q : ℤ) (action : Action) → eq_ℤ k q && is_up action ≡ true → (k ≡ q) × (action ≡ up)
releases k q down h = absurd (ground arith)
releases k q up h = (eq_ℤ→eq k q (ground arith), refl)

releases_rev :
    (k q : ℤ) (action : Action) → (k ≡ q) × (action ≡ up) → eq_ℤ k q && is_up action ≡ true
releases_rev k q down (e, u) = cc
releases_rev k q up (e, u) = rw e (ground (arith, eq_ℤ_refl q))

module _ (lime : Limelight) (codes : SdlCodes) (beyond : ℕ → ℤ) where
  abbrev pub AllHeld : Bits → Type 0
  AllHeld held = (i : ℕ) → i < 32 → action_modifiers lime codes i ≡ true → held i ≡ true

  AllHeld-iff : (held : Bits) → (all_held lime codes held ≡ true) ↔ AllHeld held
  unfolding all_held
  AllHeld-iff held = (
    (λ e i h q. ground (
      arith,
      eq_bits_sound 32 (held &b action_modifiers lime codes) (action_modifiers lime codes) i e h,
    )),
    (λ all. eq_bits_intro 32 _ _ (λ i h. ground (arith, all i h))),
  )

  not_AllHeld : (held : Bits) → all_held lime codes held ≡ false → AllHeld held → ⊥
  not_AllHeld held e all = absurd (cc ((AllHeld-iff held).1 all))

  -- After a key event the stream is to end exactly when every bit of the three action modifiers is
  -- held with it, the key is Q, and the event releases it. As long as all those bits are held, no
  -- key event is sent to the host; otherwise exactly one is, with the event's direction.
  pub handle_sdl_key_quits :
      (action : Action) (k : ℤ) (s : SdlInput)
      → let r = handle_sdl_key lime codes beyond action k s in
        let held = r.input.keyboard_modifiers in
        ((r.result ≡ quit_application) ↔ (AllHeld held × (k ≡ codes.k_q) × (action ≡ up)))
        × (AllHeld held → r.sent ≡ [])
        × ((AllHeld held → ⊥) → (code : ℤ) × (r.sent ≡ keyboard code action held ∷ []))
        × (r.input.gamepads ≡ s.gamepads)
  unfolding handle_sdl_key
  handle_sdl_key_quits action k s =
      let held : Bits = track_modifiers lime codes action k s.keyboard_modifiers in
      elim (Bool-cases (all_held lime codes held)) [
        | inl e ↦ elim (Bool-cases (eq_ℤ k codes.k_q && is_up action)) [
          | inl q ↦
              rw (e, q)
                (
                  (
                    (λ _. (
                      (AllHeld-iff held).0 e,
                      (releases k codes.k_q action q).0,
                      (releases k codes.k_q action q).1,
                    )),
                    (λ _. refl),
                  ),
                  (λ _. refl),
                  (λ n. absurd (n ((AllHeld-iff held).0 e))),
                  refl,
                )
          | inr q ↦ elim (Bool-cases (eq_ℤ k codes.k_f && is_up action)) [
            | inl f ↦
                rw (e, q, f)
                  (
                    ((λ r. cc), (λ (_, p, u). cc (releases_rev k codes.k_q action (p, u)))),
                    (λ _. refl),
                    (λ n. absurd (n ((AllHeld-iff held).0 e))),
                    refl,
                  )
            | inr f ↦
                rw (e, q, f)
                  (
                    ((λ r. cc), (λ (_, p, u). cc (releases_rev k codes.k_q action (p, u)))),
                    (λ _. refl),
                    (λ n. absurd (n ((AllHeld-iff held).0 e))),
                    refl,
                  )
          ]
        ]
        | inr e ↦ rw e (
          ((λ r. cc), (λ (all, _, _). absurd (not_AllHeld held e all))),
          (λ all. absurd (not_AllHeld held e all)),
          (λ n. (_, refl)),
          refl,
        )
      ]
