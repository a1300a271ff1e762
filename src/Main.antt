-- ===== src/Main.antt =====
-- src/main.c: what a run of the program does. This file has the actions on a host; its child Start
-- has main itself.
pub mod Start
pub mod Streams
pub mod Paired
pub mod Starts
use moonlight_embedded_crash.Prelude.{
  ℕ, zero, suc, ◌+◌, ◌-◌, ◌*◌, ◌/◌, ◌%◌, ◌^◌, ◌≤◌, ◌<◌, ◌≡◌, refl, sym, ap, ◌∙◌, fun_ext, ◌≢◌, ◌↔◌,
  ◌⊎◌, inl, inr, Bool, true, false, not, ◌&&◌, ◌||◌, Option, none, some, List, [], ◌∷◌, ◌++◌, map,
  arith, ltb, leb, ◌==◌, if◌then◌else◌, ltb→lt, lt→ltb, leb→le, ==_iff, ==_refl, Bool-cases,
  Option-cases, length, get_elem?, set, take, length-append, length-set, get_elem?-set_self,
  get_elem?-set_ne,
}
use moonlight_embedded_crash.Prelude.Int.{
  ℤ, pos, negsuc, ◌+ℤ◌, ◌-ℤ◌, ◌*ℤ◌, quot, ◌≤ℤ◌, ◌<ℤ◌, ltb_ℤ, leb_ℤ, eq_ℤ, abs, to_short, to_char,
  to_int, IsShort, IsInt, int_laws, eq_of_parts, eq_ℤ_refl, eq_ℤ→eq,
}
use moonlight_embedded_crash.Prelude.Bits.{
  Bits, bits, no_bits, ◌|b◌, ◌&b◌, ~b, one_bit, sign_extend, all_below, eq_bits, nonzero, zero_bit,
  nonzero_of_bit, eq_bits_sound, eq_bits_intro,
}
use moonlight_embedded_crash.Prelude.Text.{Bytes, codes, str_eq, is_space, str_eq_refl, str_eq→eq}
use moonlight_embedded_crash.Client.{Server, Session, Result, ok, fails, Client, Network}
use moonlight_embedded_crash.Client.App.{gs_applist, gs_start_app, gs_quit_app, gs_unpair}
use moonlight_embedded_crash.Client.Pair.{Crypto, Random, gs_pair}
use moonlight_embedded_crash.Config.{Stream, InputConfig, Configuration}
use moonlight_embedded_crash.Config.Argument.{Run, finished, exits, too_deep}
use moonlight_embedded_crash.Platform.{
  Platform, none_, sdl, pi, imx, aml, fake, Build, Machine, Audio, platform_get_video,
  platform_get_audio,
}
use moonlight_embedded_crash.Xml.{App}
use moonlight_embedded_crash.Libc.Decimal.{print_int}

-- The calls of other parts and of moonlight-common-c, in their order: evdev_create, udev_init,
-- evdev_init, cec_init, sdl_init, evdev_map, a line that is printed for an app, LiStartConnection,
-- evdev_start, loop_main, evdev_stop, sdl_loop and LiStopConnection.
pub data MainCall : Type 0 where
  create_input : Bytes → Option Bytes → MainCall
  init_udev : Bool → Option Bytes → MainCall
  init_evdev init_cec : MainCall
  init_sdl : ℤ → ℤ → Bool → MainCall
  map_gamepad : Bytes → MainCall
  print_line : Bytes → MainCall
  start_connection : Server → Stream → Option Platform → Option Audio → ℕ → MainCall
  start_evdev run_loop stop_evdev run_sdl stop_connection : MainCall

-- How a step of main ends: it goes on, the process exits with a status, strcmp is called with
-- NULL, or configuration files name each other deeper than the bound on the depth.
pub data Progress (A : Type 0) : Type 0 where
  goes_on : A → Progress A
  exited : ℤ → Progress A
  crashed : Progress A
  files_too_deep : Progress A

-- What main has learned and asked of the host, and the calls so far.
pub record MainState : Type 0 where
  pub session : Session
  pub calls : List MainCall

abbrev pub Main : Type 0 → Type 0
Main A = MainState → MainState × Progress A

abbrev pub proceed : {A B : Type 0} → (A → Main B) → MainState × Progress A → MainState × Progress B
proceed f (s, goes_on a) = f a s
proceed f (s, exited n) = (s, exited n)
proceed f (s, crashed) = (s, crashed)
proceed f (s, files_too_deep) = (s, files_too_deep)

infixl 5 ◌>>=◌ ◌>>◌
abbrev pub ◌>>=◌ : {A B : Type 0} → Main A → (A → Main B) → Main B
(m >>= f) s = proceed f (m s)

abbrev pub ◌>>◌ : {A B : Type 0} → Main A → Main B → Main B
(m >> n) s = proceed (λ _. n) (m s)

abbrev pub pure : {A : Type 0} → A → Main A
pure a s = (s, goes_on a)

abbrev pub exit : {A : Type 0} → ℤ → Main A
exit n s = (s, exited n)

abbrev pub crash : {A : Type 0} → Main A
crash s = (s, crashed)

abbrev pub call : MainCall → Main (Unit {0})
call c s = (record s { calls = s.calls ++ c ∷ [] }, goes_on tt)

abbrev pub call_all : List MainCall → Main (Unit {0})
call_all cs s = (record s { calls = s.calls ++ cs }, goes_on tt)

-- A function of the client on the server's data.
abbrev pub client : {A : Type 0} → Client A → Main (Result A)
client m s = let (session, r) = m s.session in (record s { session = session }, goes_on r)

-- A function of config.c.
abbrev pub configure : {A : Type 0} → Run A → Main A
configure (finished a) s = (s, goes_on a)
configure (exits n) s = (s, exited n)
configure too_deep s = (s, files_too_deep)

-- The libraries, the machine and the other side of the connection.
pub record Parts : Type 0 where
  pub build : Build
  pub machine : Machine
  pub have_libcec : Bool
  pub network : Network
  pub crypto : Crypto
  pub random : Random
  pub stereo : ℤ
  pub rikey : Bytes

-- printf("%s") of NULL is glibc's.
abbrev pub shown : Option Bytes → Bytes
shown none = codes "(null)"
shown (some name) = name

-- The loop of applist, from the number `i` on.
unfoldable pub app_lines : ℕ → List App → List MainCall
app_lines i [] = []
app_lines i (app ∷ apps) =
    print_line (print_int (pos i) ++ (codes ". " ++ (shown app.name ++ codes "\n")))
    ∷ app_lines (suc i) apps

-- The result of the loop of get_app_id: an id, none, or a call of strcmp with NULL.
pub data AppSearch : Type 0 where
  app_id : ℤ → AppSearch
  no_app : AppSearch
  no_name : AppSearch

unfoldable pub find_app : Bytes → List App → AppSearch
find_app name [] = no_app
find_app name (app ∷ apps) =
    let rest = find_app name apps in
    elim app.name [
      | none ↦ no_name
      | some title ↦ if str_eq title name then app_id app.id else rest
    ]

module _ (parts : Parts) where
  open parts use {network, crypto, random}

  abbrev pub list_apps : Result (List App) → Main (Unit {0})
  list_apps (ok apps) = call_all (app_lines 1 apps)
  list_apps (fails _) = pure tt

  unfoldable pub applist : Main (Unit {0})
  applist = client (gs_applist network) >>= list_apps

  abbrev pub found_id : AppSearch → Main ℤ
  found_id (app_id n) = pure n
  found_id no_app = pure (negsuc 0)
  found_id no_name = crash

  abbrev pub search_apps : Bytes → Result (List App) → Main ℤ
  search_apps name (ok apps) = found_id (find_app name apps)
  search_apps name (fails _) = pure (negsuc 0)

  unfoldable pub get_app_id : Bytes → Main ℤ
  get_app_id name = client (gs_applist network) >>= search_apps name

  -- IS_EMBEDDED
  abbrev pub is_embedded : Platform → Bool
  is_embedded sdl = false
  is_embedded _ = true

  -- DISPLAY_FULLSCREEN is 1, FORCE_HARDWARE_ACCELERATION is 2.
  unfoldable pub dr_flags : Configuration → ℕ
  dr_flags config = (if config.fullscreen then 1 else 0) + (if config.forcehw then 2 else 0)

  -- What stream runs between LiStartConnection and LiStopConnection.
  unfoldable pub session_calls : Platform → List MainCall
  session_calls system =
      if is_embedded system
      then start_evdev ∷ run_loop ∷ stop_evdev ∷ []
      else if parts.build.have_sdl
      then run_sdl ∷ []
      else []

  -- The end of stream, from the printing of the mode on.
  unfoldable pub run_connection : Configuration → Option Bytes → Platform → Main (Unit {0})
  run_connection config audio_device system s =
      call_all
        (start_connection s.session.server config.stream
            (platform_get_video parts.build parts.machine system)
            (platform_get_audio parts.build parts.machine audio_device system) (dr_flags config)
          ∷ (session_calls system ++ stop_connection ∷ []))
        s

  abbrev pub or_exit : Result (Unit {0}) → Main (Unit {0})
  or_exit (ok _) = pure tt
  or_exit (fails _) = exit (negsuc 0)

  -- stream behind get_app_id; `ret < 0` is any error.
  unfoldable pub stream_app : Configuration → Option Bytes → Platform → ℤ → Main (Unit {0})
  stream_app config audio_device system n s =
      if ltb_ℤ n (pos 0)
      then (s, exited (negsuc 0))
      else (client (
              gs_start_app network parts.stereo parts.rikey config.stream n config.sops
                config.localaudio)
            >>= λ r. or_exit r >> run_connection config audio_device system)
          s

  unfoldable pub stream : Configuration → Option Bytes → Platform → Main (Unit {0})
  stream config audio_device system =
      get_app_id config.app >>= stream_app config audio_device system

  unfoldable pub pair_check : Main (Unit {0})
  pair_check s = if s.session.server.paired then (s, goes_on tt) else (s, exited (negsuc 0))
