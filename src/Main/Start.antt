-- ===== src/Main/Start.antt =====
-- main of src/main.c.

use moonlight_embedded_crash.Prelude.{
  ℕ, ◌+◌, ◌%◌, Bool, true, false, not, ◌||◌, Option, none, some, List, [], ◌∷◌, ◌++◌, if◌then◌else◌,
}
use moonlight_embedded_crash.Prelude.Int.{pos, negsuc}
use moonlight_embedded_crash.Prelude.Text.{Bytes, codes, str_eq}
use moonlight_embedded_crash.Main.{
  MainCall, create_input, init_udev, init_evdev, init_cec, init_sdl, map_gamepad, Main, ◌>>=◌, ◌>>◌,
  pure, exit, call_all, client, configure, Parts, applist, stream, pair_check, is_embedded,
}
use moonlight_embedded_crash.Client.{Result, ok, fails, gs_unsupported_version}
use moonlight_embedded_crash.Client.Init.{KeyDir, gs_init, with_id, load_cert}
use moonlight_embedded_crash.Client.App.{gs_unpair, gs_quit_app}
use moonlight_embedded_crash.Client.Pair.{gs_pair}
use moonlight_embedded_crash.Config.{World, Audio, Settings, Configuration, InputConfig, or_else}
use moonlight_embedded_crash.Config.File.{config_file_parse}
use moonlight_embedded_crash.Config.Parse.{config_parse}
use moonlight_embedded_crash.Platform.{Platform, none_, platform_check, platform_supports_hevc}

abbrev pub create_inputs : List InputConfig → List MainCall
create_inputs [] = []
create_inputs (input ∷ inputs) = create_input input.path input.mapping ∷ create_inputs inputs

abbrev is_zero_platform : Platform → Bool
is_zero_platform none_ = true
is_zero_platform _ = false

-- The digits of the PIN, of four results of random.
abbrev pub pin_of : List ℕ → Bytes
pin_of [] = []
pin_of (n ∷ ns) = (b'0' + n % 10) ∷ pin_of ns

-- strcmp(name, config.action) == 0
abbrev pub is_action : Bytes → Configuration → Bool
is_action name config = str_eq name (or_else config.action [])

-- The action is NULL or "help".
abbrev wants_help : Option Bytes → Bool
wants_help none = true
wants_help (some action) = str_eq (codes "help") action

abbrev ignore : {A : Type 0} → Result A → Main (Unit {0})
ignore r = pure tt

abbrev cert_of : Result Bytes → Bytes
cert_of (ok hex) = hex
cert_of (fails _) = []

-- What the other parts use of the key directory.
unfoldable pub with_keys : Parts → KeyDir → Parts
with_keys parts dir = record parts {
  network = with_id parts.network dir;
  crypto = record (parts.crypto) { cert_hex = cert_of (load_cert dir) };
}

-- The actions on a host.
pub data HostAction : Type 0 where
  do_list do_stream do_pair do_unpair do_quit invalid_action : HostAction

-- The conditions of the chain at the end of main.
unfoldable pub host_action : Bytes → HostAction
host_action action =
    if str_eq (codes "list") action
    then do_list
    else if str_eq (codes "stream") action
    then do_stream
    else if str_eq (codes "pair") action
    then do_pair
    else if str_eq (codes "unpair") action
    then do_unpair
    else if str_eq (codes "quit") action
    then do_quit
    else invalid_action

module _ (parts : Parts) where
  -- What stands in front of stream for the platform.
  unfoldable pub input_calls : Settings → Platform → List MainCall
  input_calls settings system =
      let c = settings.config in
      if is_embedded parts system
      then create_inputs c.inputs
        ++ (init_udev (not settings.input_added) c.mapping
            ∷ init_evdev
            ∷ (if parts.have_libcec then init_cec ∷ [] else []))
      else if parts.build.have_sdl
      then init_sdl c.stream.width c.stream.height c.fullscreen ∷ []
      else []

  -- The branches of the chain; `randoms` are four results of random.
  unfoldable pub perform : List ℕ → HostAction → Settings → Platform → Main (Unit {0})
  perform randoms do_list settings system = pair_check parts >> applist parts
  perform randoms do_stream settings system =
      pair_check parts
      >> call_all (input_calls settings system)
      >> stream parts settings.config settings.audio_device system
  perform randoms do_pair settings system =
      client (gs_pair parts.network parts.crypto parts.random (pin_of randoms)) >>= ignore
  perform randoms do_unpair settings system = client (gs_unpair parts.network) >>= ignore
  perform randoms do_quit settings system =
      pair_check parts >> (client (gs_quit_app parts.network) >>= ignore)
  perform randoms invalid_action settings system = pure tt

  -- The chain at the end of main, on the host that gs_init spoke to.
  unfoldable pub act : List ℕ → Settings → Platform → Main (Unit {0})
  act randoms settings system =
      perform randoms (host_action (or_else settings.config.action [])) settings system

-- What gs_discover_server leaves in an empty buffer is `discovered`; `dir` is the key directory by
-- its name.
module _ (parts : Parts) (audio_modes : Audio) (world : World) (depth : ℕ) (discovered : Bytes)
    (dir : Bytes → KeyDir) (randoms : List ℕ) where
  abbrev found_address : Bytes → Main Bytes
  found_address [] = exit (negsuc 0)
  found_address (c ∷ address) = pure (c ∷ address)

  unfoldable pub find_address : Option Bytes → Main Bytes
  find_address (some address) = pure address
  find_address none = found_address discovered

  -- The action "map".
  unfoldable pub map_action : Settings → Main (Unit {0})
  map_action settings = elim settings.config.address [
    | none ↦ exit (negsuc 0)
    | some file_name ↦
        call_all (
          init_udev (not settings.input_added) settings.config.mapping
          ∷ (create_inputs settings.config.inputs ++ map_gamepad file_name ∷ []))
        >> exit (pos 0)
  ]

  -- The chain behind gs_init. GS_OUT_OF_MEMORY is left out with the allocation of memory.
  unfoldable pub connected : Settings → Result (Unit {0}) → Main (Unit {0})
  connected settings (ok _) = pure tt
  connected settings (fails gs_unsupported_version) =
      if not settings.config.unsupported_version then exit (negsuc 0) else pure tt
  connected settings (fails _) = exit (negsuc 0)

  abbrev host_settings : Bytes → Settings → Main Settings
  host_settings address settings =
      let file = codes "hosts/" ++ (address ++ codes ".conf") in
      if world.readable file
      then (configure (config_file_parse audio_modes world depth file settings) >>= λ (_, s).
          pure s)
      else pure settings

  abbrev at_address : Settings → Bytes → Settings
  at_address settings address = record settings {
    config = record (settings.config) { address = some address };
  }

  -- From the search for an address on.
  unfoldable pub connect : Settings → Platform → Main (Unit {0})
  connect settings system = do
    address ← find_address settings.config.address
    hosted ← host_settings address (at_address settings address)
    let c = hosted.config in
        client (gs_init parts.network (dir c.key_dir) (or_else c.address [])) >>= connected hosted
    act (with_keys parts (dir hosted.config.key_dir)) randoms hosted system

  abbrev with_hevc : Settings → Platform → Settings
  with_hevc settings system =
      let c = settings.config in
      record settings {
        config = record c {
          stream = record (c.stream) {
            supports_hevc = c.stream.supports_hevc || platform_supports_hevc system;
          };
        };
      }

  -- main behind config_parse.
  unfoldable pub run : Settings → Main (Unit {0})
  run settings =
      let system = platform_check parts.build parts.machine settings.config.platform in
      if wants_help settings.config.action
      then exit (pos 0)
      else if is_zero_platform system
      then exit (negsuc 0)
      else if is_action (codes "map") settings.config
      then map_action settings
      else connect (with_hevc settings system) system

  unfoldable pub main : List Bytes → List (ℕ × Bytes) → Settings → Main (Unit {0})
  main args options initial =
      configure (config_parse audio_modes world depth args options initial) >>= λ (settings, _).
      run settings
