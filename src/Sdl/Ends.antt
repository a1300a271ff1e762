-- ===== src/Sdl/Ends.antt =====
-- What ends sdl_loop.
use moonlight_embedded_crash.Prelude.{
  if_false, if_true, false, ℕ, ◌≡◌, refl, ap, inl, inr, true, List, [], ◌∷◌, ◌++◌, Bool-cases,
}
use moonlight_embedded_crash.Prelude.Int.{ℤ}
use moonlight_embedded_crash.Sdl.{SdlState, Waited, prepend, closing, handle_waited, sdl_loop}
use moonlight_embedded_crash.SdlInput.{SdlCodes}
use moonlight_embedded_crash.Limelight.{Limelight}

module _ (lime : Limelight) (codes : SdlCodes) (beyond : ℕ → ℤ) where
  -- Once `done` is set, the loop handles nothing more.
  pub sdl_loop-done :
      (ws : List Waited) (s : SdlState)
      → s.done ≡ true
      → sdl_loop lime codes beyond ws s ≡ (s, closing)
  unfolding sdl_loop
  sdl_loop-done [] s e = refl
  sdl_loop-done (w ∷ ws) s e =
      if_true s.done (s, closing)
        (prepend (handle_waited lime codes beyond w s).1
          (sdl_loop lime codes beyond ws (handle_waited lime codes beyond w s).0))
        e

  pub sdl_loop-step :
      (w : Waited) (ws : List Waited) (s : SdlState)
      → s.done ≡ false
      → let step = handle_waited lime codes beyond w s in
        sdl_loop lime codes beyond (w ∷ ws) s
        ≡ prepend step.1 (sdl_loop lime codes beyond ws step.0)
  unfolding sdl_loop
  sdl_loop-step w ws s e =
      if_false s.done (s, closing)
        (prepend (handle_waited lime codes beyond w s).1
          (sdl_loop lime codes beyond ws (handle_waited lime codes beyond w s).0))
        e

  -- The state after the events, each of them handled.
  unfoldable pub state_after : List Waited → SdlState → SdlState
  state_after [] s = s
  state_after (w ∷ ws) s = state_after ws (handle_waited lime codes beyond w s).0

  -- An event that sets `done` where it is handled ends the loop, if none before it has: what comes
  -- after it is never handled, and `done` is set in the end.
  pub sdl_loop-append :
      (ws : List Waited) (w : Waited) (later : List Waited) (s : SdlState)
      → (handle_waited lime codes beyond w (state_after ws s)).0.done ≡ true
      → (sdl_loop lime codes beyond (ws ++ w ∷ later) s
          ≡ sdl_loop lime codes beyond (ws ++ w ∷ []) s)
        × ((sdl_loop lime codes beyond (ws ++ w ∷ later) s).0.done ≡ true)
  unfolding state_after
  sdl_loop-append [] w later s h = elim (Bool-cases s.done) [
    | inl e ↦ rw (sdl_loop-done (w ∷ later) s e, sdl_loop-done (w ∷ []) s e) (refl, e)
    | inr e ↦
        let next = (handle_waited lime codes beyond w s).0 in
        rw
          (
            sdl_loop-step w later s e,
            sdl_loop-step w [] s e,
            sdl_loop-done later next h,
            sdl_loop-done [] next h,
          )
          (refl, h)
  ]
  sdl_loop-append (x ∷ ws) w later s h =
      let next = (handle_waited lime codes beyond x s).0 in
      let (same, ended) = sdl_loop-append ws w later next h in
      elim (Bool-cases s.done) [
        | inl e ↦
            rw (sdl_loop-done (x ∷ ws ++ w ∷ later) s e, sdl_loop-done (x ∷ ws ++ w ∷ []) s e)
              (refl, e)
        | inr e ↦
            rw (sdl_loop-step x (ws ++ w ∷ later) s e, sdl_loop-step x (ws ++ w ∷ []) s e)
              (ap (prepend _) same, ended)
      ]
