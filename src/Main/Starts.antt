-- ===== src/Main/Starts.antt =====
-- Which actions of main start a connection.

use moonlight_embedded_crash.Main.{
  stream, MainCall, create_input, init_udev, init_evdev, init_cec, init_sdl, map_gamepad,
  print_line, start_connection, start_evdev, run_loop, stop_evdev, run_sdl, stop_connection,
  Progress, goes_on, MainState, Parts, applist, app_lines, is_embedded, list_apps,
}
use moonlight_embedded_crash.Main.Streams.{Outcome, stream-Outcome, connection_calls}
use moonlight_embedded_crash.Client.App.{gs_applist}
use moonlight_embedded_crash.Prelude.{
  ℕ, suc, ◌+◌, ◌≡◌, refl, ap, ◌∙◌, ◌⊎◌, inl, inr, true, List, [], ◌∷◌, ◌++◌, arith, Bool-cases,
}
use moonlight_embedded_crash.Config.{or_else, Settings, InputConfig}
use moonlight_embedded_crash.Main.Start.{
  act, HostAction, do_list, do_stream, do_pair, do_unpair, do_quit, invalid_action, host_action,
  perform, input_calls, create_inputs,
}
use moonlight_embedded_crash.Client.{Session, Result, ok, fails}
use moonlight_embedded_crash.Platform.{Platform}
use moonlight_embedded_crash.Xml.{App}
use moonlight_embedded_crash.Main.Paired.{pair_check_paired, pair_check_unpaired}

-- How many connections are started.
unfoldable pub starts : List MainCall → ℕ
starts [] = 0
starts (start_connection _ _ _ _ _ ∷ calls) = suc (starts calls)
starts (_ ∷ calls) = starts calls

module _ (parts : Parts) (randoms : List ℕ) where
  starts-append : (xs ys : List MainCall) → starts (xs ++ ys) ≡ starts xs + starts ys
  unfolding starts
  starts-append [] ys = omega arith
  starts-append (start_connection _ _ _ _ _ ∷ xs) ys = omega (arith, starts-append xs ys)
  starts-append (create_input _ _ ∷ xs) ys = starts-append xs ys
  starts-append (init_udev _ _ ∷ xs) ys = starts-append xs ys
  starts-append (init_evdev ∷ xs) ys = starts-append xs ys
  starts-append (init_cec ∷ xs) ys = starts-append xs ys
  starts-append (init_sdl _ _ _ ∷ xs) ys = starts-append xs ys
  starts-append (map_gamepad _ ∷ xs) ys = starts-append xs ys
  starts-append (print_line _ ∷ xs) ys = starts-append xs ys
  starts-append (start_evdev ∷ xs) ys = starts-append xs ys
  starts-append (run_loop ∷ xs) ys = starts-append xs ys
  starts-append (stop_evdev ∷ xs) ys = starts-append xs ys
  starts-append (run_sdl ∷ xs) ys = starts-append xs ys
  starts-append (stop_connection ∷ xs) ys = starts-append xs ys

  starts-app_lines : (i : ℕ) (apps : List App) → starts (app_lines i apps) ≡ 0
  unfolding starts app_lines
  starts-app_lines i [] = refl
  starts-app_lines i (app ∷ apps) = starts-app_lines (suc i) apps

  printed :
      (s : MainState) (session : Session) (r : Result (List App))
      → starts (list_apps parts r (record s { session = session })).0.calls ≡ starts s.calls
  printed s session (ok apps) =
      omega (arith, starts-append s.calls (app_lines 1 apps), starts-app_lines 1 apps)
  printed s session (fails e) = refl

  starts-create_inputs : (inputs : List InputConfig) → starts (create_inputs inputs) ≡ 0
  unfolding starts
  starts-create_inputs [] = refl
  starts-create_inputs (input ∷ inputs) = starts-create_inputs inputs

  starts-input_calls :
      (settings : Settings) (system : Platform) → starts (input_calls parts settings system) ≡ 0
  unfolding starts input_calls
  starts-input_calls settings system =
      let inputs = create_inputs settings.config.inputs in
      let none_there = starts-create_inputs settings.config.inputs in
      elim (Bool-cases (is_embedded parts system)) [
        | inl e ↦ elim (Bool-cases parts.have_libcec) [
          | inl c ↦ rw (e, c) (starts-append inputs _ ∙ omega (arith, none_there))
          | inr c ↦ rw (e, c) (starts-append inputs _ ∙ omega (arith, none_there))
        ]
        | inr e ↦ elim (Bool-cases parts.build.have_sdl) [
          | inl h ↦ rw (e, h) refl
          | inr h ↦ rw (e, h) refl
        ]
      ]

  applist-starts : (s : MainState) → starts (applist parts s).0.calls ≡ starts s.calls
  unfolding applist
  applist-starts s = printed s _ (gs_applist parts.network s.session).1

  streamed :
      (settings : Settings) (system : Platform) (s : MainState)
      → s.session.server.paired ≡ true
      → (r : MainState × Progress (Unit {0}))
      → Outcome parts settings.config settings.audio_device system
          (record s { calls = s.calls ++ input_calls parts settings system })
          r
      → (starts r.0.calls ≡ starts s.calls)
        ⊎ ((do_stream ≡ do_stream)
            × (s.session.server.paired ≡ true)
            × (r.1 ≡ goes_on tt)
            × (r.0.calls
                ≡ (s.calls ++ input_calls parts settings system)
                  ++ connection_calls parts settings.config settings.audio_device system
                      r.0.session.server))
  streamed settings system s e r (inl (over, none_more)) = inl (
      ap starts none_more
      ∙ omega (
        arith,
        starts-append s.calls (input_calls parts settings system),
        starts-input_calls settings system,
      ))
  streamed settings system s e r (inr (on, called, game)) = inr (refl, e, on, called)

  perform-starts :
      (action : HostAction) (settings : Settings) (system : Platform) (s : MainState)
      → let r = perform parts randoms action settings system s in
        (starts r.0.calls ≡ starts s.calls)
        ⊎ ((action ≡ do_stream)
            × (s.session.server.paired ≡ true)
            × (r.1 ≡ goes_on tt)
            × (r.0.calls
                ≡ (s.calls ++ input_calls parts settings system)
                  ++ connection_calls parts settings.config settings.audio_device system
                      r.0.session.server))
  unfolding perform
  perform-starts do_list settings system s = elim (Bool-cases s.session.server.paired) [
    | inl e ↦ rw (pair_check_paired parts randoms s e) (inl (applist-starts s))
    | inr e ↦ rw (pair_check_unpaired parts randoms s e) (inl refl)
  ]
  perform-starts do_stream settings system s = elim (Bool-cases s.session.server.paired) [
    | inl e ↦
        let s1 : MainState = record s { calls = s.calls ++ input_calls parts settings system } in
        rw (pair_check_paired parts randoms s e) (
          streamed settings system s e
            (stream parts settings.config settings.audio_device system s1)
            (stream-Outcome parts settings.config settings.audio_device system s1))
    | inr e ↦ rw (pair_check_unpaired parts randoms s e) (inl refl)
  ]
  perform-starts do_pair settings system s = inl refl
  perform-starts do_unpair settings system s = inl refl
  perform-starts do_quit settings system s = elim (Bool-cases s.session.server.paired) [
    | inl e ↦ rw (pair_check_paired parts randoms s e) (inl refl)
    | inr e ↦ rw (pair_check_unpaired parts randoms s e) (inl refl)
  ]
  perform-starts invalid_action settings system s = inl refl

  -- No connection is started but by the action stream, on a host that is paired.
  pub act-starts :
      (settings : Settings) (system : Platform) (s : MainState)
      → let action = host_action (or_else settings.config.action []) in
        let r = act parts randoms settings system s in
        (starts r.0.calls ≡ starts s.calls)
        ⊎ ((action ≡ do_stream)
            × (s.session.server.paired ≡ true)
            × (r.1 ≡ goes_on tt)
            × (r.0.calls
                ≡ (s.calls ++ input_calls parts settings system)
                  ++ connection_calls parts settings.config settings.audio_device system
                      r.0.session.server))
  unfolding act
  act-starts settings system s =
      perform-starts (host_action (or_else settings.config.action [])) settings system s
