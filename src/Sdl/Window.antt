-- ===== src/Sdl/Window.antt =====
-- The calls of sdl_loop against an abstract window.
use moonlight_embedded_crash.Sdl.Ends.{sdl_loop-done, sdl_loop-step}
use moonlight_embedded_crash.Sdl.{
  sdl_code_frame, SdlCall, send, set_window_fullscreen, set_relative_mouse_mode, lock_mutex,
  update_yuv_texture, render_clear, render_copy, render_present, unlock_mutex, destroy_window,
  quit_sdl, SdlState, Waited, show_frame, other_event, after_result, handle_waited, sdl_loop,
}
use moonlight_embedded_crash.Prelude.{
  ℕ, ◌≡◌, refl, sym, ap, ◌∙◌, fun_ext, inl, inr, Bool, true, false, not, ◌&&◌, Option, none, some,
  List, [], ◌∷◌, ◌++◌, map, Bool-cases,
}
use moonlight_embedded_crash.Prelude.Int.{ℤ, eq_ℤ}
use moonlight_embedded_crash.SdlInput.{
  SdlCodes, SdlEvent, motion, wheel, button, key, caxis, cbutton, quit, user, other, SdlResult,
  nothing, quit_application, mouse_grab, mouse_ungrab, toggle_fullscreen,
}
use moonlight_embedded_crash.SdlInput.Event.{sdlinput_handle_event}
use moonlight_embedded_crash.Limelight.{Limelight, Sent}

-- Whether the window fills the screen, holds the mouse and exists, and whether this thread has the
-- mutex that guards the frame.
pub record Window : Type 0 where
  pub fullscreen : Bool
  pub grabbed : Bool
  pub locked : Bool
  pub is_open : Bool

abbrev when : Bool → Window → Option Window
when true w = some w
when false w = none

-- What a call does to the window, or nothing where it may not be made: a window that is gone, a
-- frame that is shown without the mutex, a mutex taken twice or given back without being held.
abbrev pub apply : SdlCall → Window → Option Window
apply (send _) w = some w
apply (set_window_fullscreen b) w = when w.is_open (record w { fullscreen = b })
apply (set_relative_mouse_mode b) w = when w.is_open (record w { grabbed = b })
apply (lock_mutex b) w = when (not w.locked) (record w { locked = b })
apply update_yuv_texture w = when (w.locked && w.is_open) w
apply render_clear w = when (w.locked && w.is_open) w
apply render_copy w = when (w.locked && w.is_open) w
apply render_present w = when (w.locked && w.is_open) w
apply unlock_mutex w = when w.locked (record w { locked = false })
apply destroy_window w = when (w.is_open && not w.locked) (record w { is_open = false })
apply quit_sdl w = when (not w.is_open) w

abbrev pub and_then : Option Window → (Window → Option Window) → Option Window
and_then none f = none
and_then (some w) f = f w

abbrev pub apply_all : List SdlCall → Window → Option Window
apply_all [] w = some w
apply_all (c ∷ calls) w = and_then (apply c w) (apply_all calls)

-- An open window with its mutex free.
abbrev pub ready : Bool → Bool → Window
ready fullscreen grabbed = record {
  fullscreen = fullscreen;
  grabbed = grabbed;
  locked = false;
  is_open = true;
}

and_then_assoc :
    (o : Option Window) (f g : Window → Option Window)
    → and_then (and_then o f) g ≡ and_then o (λ w. and_then (f w) g)
and_then_assoc none f g = refl
and_then_assoc (some w) f g = refl

apply_all-append :
    (xs ys : List SdlCall) (w : Window)
    → apply_all (xs ++ ys) w ≡ and_then (apply_all xs w) (apply_all ys)
apply_all-append [] ys w = refl
apply_all-append (x ∷ xs) ys w =
    ap (and_then (apply x w)) (fun_ext (λ v. apply_all-append xs ys v))
    ∙ sym (and_then_assoc (apply x w) (apply_all xs) (apply_all ys))

apply_both :
    (xs ys : List SdlCall) (w : Window) {v : Window} {o : Option Window}
    → apply_all xs w ≡ some v
    → apply_all ys v ≡ o
    → apply_all (xs ++ ys) w ≡ o
apply_both xs ys w first second =
    apply_all-append xs ys w ∙ ap (λ o. and_then o (apply_all ys)) first ∙ second

apply_all-send : (sent : List Sent) (w : Window) → apply_all (map send sent) w ≡ some w
apply_all-send [] w = refl
apply_all-send (x ∷ sent) w = apply_all-send sent w

-- The calls lead from an open window to one that agrees with the flags again.
abbrev Agrees : Bool → SdlState × List SdlCall → Type 0
Agrees fullscreen step =
    (grabbed : Bool)
    → (grabbed' : Bool) × (apply_all step.1 (ready fullscreen grabbed)
        ≡ some (ready step.0.fullscreen_flags grabbed'))

other_event-Agrees :
    (e : SdlEvent) (locks : Bool) (s : SdlState) → Agrees s.fullscreen_flags (other_event e locks s)
unfolding other_event show_frame
other_event-Agrees (motion _ _) locks s g = (g, refl)
other_event-Agrees (wheel _) locks s g = (g, refl)
other_event-Agrees (button _ _) locks s g = (g, refl)
other_event-Agrees (key _ _) locks s g = (g, refl)
other_event-Agrees (caxis _ _ _) locks s g = (g, refl)
other_event-Agrees (cbutton _ _ _) locks s g = (g, refl)
other_event-Agrees quit locks s g = (g, refl)
other_event-Agrees (user code) locks s g = elim (Bool-cases (eq_ℤ code sdl_code_frame)) [
  | inl e ↦ elim (Bool-cases locks) [ inl l ↦ (g, rw (e, l) refl) | inr l ↦ (g, rw (e, l) refl) ]
  | inr e ↦ (g, rw e refl)
]
other_event-Agrees other locks s g = (g, refl)

after_result-Agrees :
    (r : SdlResult) (e : SdlEvent) (locks : Bool) (s : SdlState)
    → Agrees s.fullscreen_flags (after_result r e locks s)
unfolding after_result
after_result-Agrees nothing e locks s g = other_event-Agrees e locks s g
after_result-Agrees quit_application e locks s g = (g, refl)
after_result-Agrees mouse_grab e locks s g = (true, refl)
after_result-Agrees mouse_ungrab e locks s g = (false, refl)
after_result-Agrees toggle_fullscreen e locks s g = (true, refl)

module _ (lime : Limelight) (codes : SdlCodes) (beyond : ℕ → ℤ) where
  handle_waited-Agrees :
      (w : Waited) (s : SdlState) → Agrees s.fullscreen_flags (handle_waited lime codes beyond w s)
  unfolding handle_waited
  handle_waited-Agrees w s g =
      let r = sdlinput_handle_event lime codes beyond w.event s.input in
      let (g', h) = after_result-Agrees r.result w.event w.locks (record s { input = r.input }) g in
      (g', apply_both (map send r.sent) _ _ (apply_all-send r.sent _) h)

  -- Over any events, every call that sdl_loop makes of the window is allowed where it stands: a
  -- frame is shown only while the mutex is held, which is given back each time, and nothing is
  -- asked of a window that is gone. In the end the window was as full as `fullscreen_flags` says,
  -- the mutex is free, and the window is destroyed.
  pub sdl_loop-apply_all :
      (ws : List Waited) (s : SdlState) (grabbed : Bool)
      → let r = sdl_loop lime codes beyond ws s in
        (grabbed' : Bool) × (apply_all r.1 (ready s.fullscreen_flags grabbed)
          ≡ some (record (ready r.0.fullscreen_flags grabbed') { is_open = false }))
  unfolding sdl_loop
  sdl_loop-apply_all [] s g = (g, refl)
  sdl_loop-apply_all (w ∷ ws) s g = elim (Bool-cases s.done) [
    | inl e ↦ rw (sdl_loop-done lime codes beyond (w ∷ ws) s e) (g, refl)
    | inr e ↦
        let step = handle_waited lime codes beyond w s in
        let (g1, h1) = handle_waited-Agrees w s g in
        let (g2, h2) = sdl_loop-apply_all ws step.0 g1 in
        rw (sdl_loop-step lime codes beyond w ws s e) (g2, apply_both step.1 _ _ h1 h2)
  ]
