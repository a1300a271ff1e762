-- ===== src/Main/Streams.antt =====
-- When main starts a connection, and what it does then.
use moonlight_embedded_crash.Prelude.Int.{not_ltb_ℤ→le, ℤ, pos, ◌≤ℤ◌, ltb_ℤ}
use mathlib.Core.Path.{subst}
use moonlight_embedded_crash.Prelude.{
  ◌≡◌, refl, sym, ap, ◌∙◌, ◌⊎◌, inl, inr, Option, List, [], ◌∷◌, ◌++◌, Bool-cases,
}
use moonlight_embedded_crash.Prelude.Text.{Bytes}
use moonlight_embedded_crash.Main.{
  MainCall, start_connection, stop_connection, Progress, goes_on, exited, crashed, files_too_deep,
  MainState, ◌>>◌, proceed, Parts, AppSearch, app_id, no_app, no_name, find_app, found_id,
  search_apps, get_app_id, dr_flags, session_calls, run_connection, or_exit, stream, stream_app,
}
use moonlight_embedded_crash.Client.{Server, Session, Result, ok, fails}
use moonlight_embedded_crash.Client.App.{gs_applist}
use moonlight_embedded_crash.Client.Exchange.{Succeeds, gs_start_app-started}
use moonlight_embedded_crash.Config.{Configuration}
use moonlight_embedded_crash.Platform.{Platform, platform_get_video, platform_get_audio}
use moonlight_embedded_crash.Xml.{App}

module _ (parts : Parts) (config : Configuration) (audio_device : Option Bytes)
    (system : Platform) where
  -- The calls of a connection to a host.
  abbrev pub connection_calls : Server → List MainCall
  connection_calls server =
      start_connection server config.stream (platform_get_video parts.build parts.machine system)
        (platform_get_audio parts.build parts.machine audio_device system) (dr_flags parts config)
      ∷ (session_calls parts system ++ stop_connection ∷ [])

  abbrev pub Ended : Progress (Unit {0}) → Type 0
  Ended (goes_on _) = ⊥
  Ended _ = Unit

  -- The two ways in which stream ends.
  abbrev pub Outcome : MainState → MainState × Progress (Unit {0}) → Type 0
  Outcome s (s', p) =
      (Ended p × (s'.calls ≡ s.calls))
      ⊎ ((p ≡ goes_on tt)
          × (s'.calls ≡ s.calls ++ connection_calls s'.session.server)
          × (pos 0 ≤ℤ s'.session.server.current_game))

  started :
      (n : ℤ) (s : MainState) (session : Session) (r : Result (Unit {0}))
      → pos 0 ≤ℤ n
      → (Succeeds r → session.server.current_game ≡ n)
      → let s1 : MainState = record s { session = session } in
        Outcome s ((or_exit parts r >> run_connection parts config audio_device system) s1)
  unfolding run_connection
  started n s session (ok a) nonneg game =
      inr (refl, refl, subst (λ g. pos 0 ≤ℤ g) (sym (game tt)) nonneg)
  started n s session (fails e) nonneg game = inl (tt, refl)

  stream_app-Outcome :
      (n : ℤ) (s : MainState) → Outcome s (stream_app parts config audio_device system n s)
  unfolding stream_app
  stream_app-Outcome n s = elim (Bool-cases (ltb_ℤ n (pos 0))) [
    | inl e ↦ rw e (inl (tt, refl))
    | inr e ↦ rw e (
        started n s _ _ (not_ltb_ℤ→le n (pos 0) e) (λ h.
          ((gs_start_app-started parts.network parts.stereo parts.rikey config.stream n config.sops
              config.localaudio s.session).0
            h).2))
  ]

  rebase :
      (s s1 : MainState) (r : MainState × Progress (Unit {0}))
      → s1.calls ≡ s.calls
      → Outcome s1 r
      → Outcome s r
  rebase s s1 r same (inl (over, none_called)) = inl (over, none_called ∙ same)
  rebase s s1 r same (inr (on, called, game)) =
      inr (on, called ∙ ap (λ l. l ++ connection_calls r.0.session.server) same, game)

  found_id-calls : (found : AppSearch) (s : MainState) → (found_id parts found s).0.calls ≡ s.calls
  found_id-calls (app_id n) s = refl
  found_id-calls no_app s = refl
  found_id-calls no_name s = refl

  searched :
      (name : Bytes) (s : MainState) (r : Result (List App))
      → (search_apps parts name r s).0.calls ≡ s.calls
  searched name s (ok apps) = found_id-calls (find_app name apps) s
  searched name s (fails e) = refl

  get_app_id-calls : (name : Bytes) (s : MainState) → (get_app_id parts name s).0.calls ≡ s.calls
  unfolding get_app_id
  get_app_id-calls name s = searched name _ (gs_applist parts.network s.session).1

  from_id :
      (s : MainState) (p : MainState × Progress ℤ)
      → p.0.calls ≡ s.calls
      → Outcome s (proceed (stream_app parts config audio_device system) p)
  from_id s (s1, goes_on n) same =
      rebase s s1 (stream_app parts config audio_device system n s1) same (stream_app-Outcome n s1)
  from_id s (s1, exited n) same = inl (tt, same)
  from_id s (s1, crashed) same = inl (tt, same)
  from_id s (s1, files_too_deep) same = inl (tt, same)

  -- The function stream either ends the process and calls nothing, or it goes on: then one
  -- connection was made, with the data of the host as it is then and the id of an app that is not
  -- negative, the input was run, and the connection was stopped.
  pub stream-Outcome : (s : MainState) → Outcome s (stream parts config audio_device system s)
  unfolding stream
  stream-Outcome s = from_id s _ (get_app_id-calls config.app s)
