-- ===== src/Config/Argument.antt =====
-- The table long_options and parse_argument of src/config.c.
use moonlight_embedded_crash.Prelude.{
  ℕ, Bool, true, false, Option, none, some, List, [], ◌∷◌, ◌++◌, leb, ◌==◌, if◌then◌else◌, length,
}
use moonlight_embedded_crash.Prelude.Int.{ℤ, pos}
use moonlight_embedded_crash.Prelude.Text.{Bytes, codes}
use moonlight_embedded_crash.Prelude.Process.{exit_failure, minus_one}
use moonlight_embedded_crash.Config.{
  Stream, InputConfig, Configuration, max_inputs, Settings, World, Audio, get_path,
}
use moonlight_embedded_crash.Libc.Decimal.{atoi}

-- What ends a run of these functions: a result, exit(status), or files that name each other
-- deeper than the bound on the depth.
pub data Run {ℓ} (A : Type ℓ) : Type ℓ where
  finished : A → Run A
  exits : ℤ → Run A
  too_deep : Run A

infixl 5 ◌>>=◌
abbrev pub ◌>>=◌ {ℓ κ} : {A : Type ℓ} {B : Type κ} → Run A → (A → Run B) → Run B
finished a >>= f = f a
exits n >>= f = exits n
too_deep >>= f = too_deep

-- An entry of long_options: its name, whether an argument is required, and its value.
pub record LongOption : Type 0 where
  pub name : Bytes
  pub required_argument : Bool
  pub val : ℕ

abbrev flag : Bytes → ℕ → LongOption
flag name val = record { name = name; required_argument = false; val = val }

abbrev taking : Bytes → ℕ → LongOption
taking name val = record { name = name; required_argument = true; val = val }

unfoldable pub long_options : List LongOption
long_options =
    flag (codes "720") b'a'
    ∷ flag (codes "1080") b'b'
    ∷ taking (codes "width") b'c'
    ∷ taking (codes "height") b'd'
    ∷ flag (codes "30fps") b'e'
    ∷ flag (codes "60fps") b'f'
    ∷ taking (codes "bitrate") b'g'
    ∷ taking (codes "packetsize") b'h'
    ∷ taking (codes "app") b'i'
    ∷ taking (codes "input") b'j'
    ∷ taking (codes "mapping") b'k'
    ∷ flag (codes "nosops") b'l'
    ∷ taking (codes "audio") b'm'
    ∷ flag (codes "localaudio") b'n'
    ∷ taking (codes "config") b'o'
    ∷ taking (codes "platform") b'p'
    ∷ taking (codes "save") b'q'
    ∷ taking (codes "keydir") b'r'
    ∷ flag (codes "remote") b's'
    ∷ flag (codes "windowed") b't'
    ∷ flag (codes "surround") b'u'
    ∷ taking (codes "fps") b'v'
    ∷ flag (codes "forcehw") b'w'
    ∷ flag (codes "forcehevc") b'x'
    ∷ flag (codes "unsupported") b'y'
    ∷ []

-- The cases of the switch.
pub data Case : Type 0 where
  size_720 size_1080 width height fps_30 fps_60 bitrate packet_size app input mapping no_sops audio
        local_audio config platform save key_dir remote windowed surround fps force_hw force_hevc
        unsupported positional other :
      Case

unfoldable pub case_of : ℕ → Case
case_of c =
    if c == b'a'
    then size_720
    else if c == b'b'
    then size_1080
    else if c == b'c'
    then width
    else if c == b'd'
    then height
    else if c == b'e'
    then fps_30
    else if c == b'f'
    then fps_60
    else if c == b'g'
    then bitrate
    else if c == b'h'
    then packet_size
    else if c == b'i'
    then app
    else if c == b'j'
    then input
    else if c == b'k'
    then mapping
    else if c == b'l'
    then no_sops
    else if c == b'm'
    then audio
    else if c == b'n'
    then local_audio
    else if c == b'o'
    then config
    else if c == b'p'
    then platform
    else if c == b'q'
    then save
    else if c == b'r'
    then key_dir
    else if c == b's'
    then remote
    else if c == b't'
    then windowed
    else if c == b'u'
    then surround
    else if c == b'v'
    then fps
    else if c == b'w'
    then force_hw
    else if c == b'x'
    then force_hevc
    else if c == b'y'
    then unsupported
    else if c == 1
    then positional
    else other

abbrev pub on_config : (Configuration → Configuration) → Settings → Run Settings
on_config f s = finished (record s { config = f s.config })

abbrev pub on_stream : (Stream → Stream) → Settings → Run Settings
on_stream f = on_config λ c. record c { stream = f c.stream }

-- Case 'j'.
unfoldable pub add_input : Bytes → Settings → Run Settings
add_input value s =
    let c = s.config in
    let new : InputConfig = record { path = value; mapping = c.mapping } in
    if leb max_inputs (length c.inputs)
    then exits minus_one
    else finished (record s {
      config = record c { inputs = c.inputs ++ new ∷ [] };
      input_added = true;
      mapped = true;
    })

-- Case 'k', where get_path returned `path`.
abbrev pub use_mapping : Option Bytes → Settings → Run Settings
use_mapping none s = exits minus_one
use_mapping (some path) s =
    finished (record s { config = record (s.config) { mapping = some path }; mapped = false })

-- Case 1.
abbrev pub add_positional : Bytes → Settings → Option Bytes → Option Bytes → Run Settings
add_positional value s none address = on_config (λ c. record c { action = some value }) s
add_positional value s (some _) none = on_config (λ c. record c { address = some value }) s
add_positional value s (some _) (some _) = exits minus_one

-- After config_file_parse returned a bool.
abbrev pub or_exit : Bool × Settings → Run Settings
or_exit (true, s) = finished s
or_exit (false, s) = exits exit_failure

-- parse_argument; `nested` is config_file_parse.
module _ (audio_modes : Audio) (world : World)
    (nested : Bytes → Settings → Run (Bool × Settings)) where
  unfoldable pub parse_case : Case → Bytes → Settings → Run Settings
  parse_case size_720 value = on_stream λ t. record t { width = pos 1280; height = pos 720 }
  parse_case size_1080 value = on_stream λ t. record t { width = pos 1920; height = pos 1080 }
  parse_case width value = on_stream λ t. record t { width = atoi value }
  parse_case height value = on_stream λ t. record t { height = atoi value }
  parse_case fps_30 value = on_stream λ t. record t { fps = pos 30 }
  parse_case fps_60 value = on_stream λ t. record t { fps = pos 60 }
  parse_case bitrate value = on_stream λ t. record t { bitrate = atoi value }
  parse_case packet_size value = on_stream λ t. record t { packet_size = atoi value }
  parse_case app value = on_config λ c. record c { app = value }
  parse_case input value = add_input value
  parse_case mapping value = use_mapping (get_path world value world.xdg_data_dirs)
  parse_case no_sops value = on_config λ c. record c { sops = false }
  parse_case audio value = λ s. finished (record s { audio_device = some value })
  parse_case local_audio value = on_config λ c. record c { localaudio = true }
  parse_case config value = λ s. nested value s >>= or_exit
  parse_case platform value = on_config λ c. record c { platform = value }
  parse_case save value = on_config λ c. record c { config_file = some value }
  parse_case key_dir value = on_config λ c. record c { key_dir = value }
  parse_case remote value = on_stream λ t. record t { streaming_remotely = pos 1 }
  parse_case windowed value = on_config λ c. record c { fullscreen = false }
  parse_case surround value =
      on_stream λ t. record t { audio_configuration = audio_modes.surround_51 }
  parse_case fps value = on_stream λ t. record t { fps = atoi value }
  parse_case force_hw value = on_config λ c. record c { forcehw = true }
  parse_case force_hevc value = on_stream λ t. record t { supports_hevc = true }
  parse_case unsupported value = on_config λ c. record c { unsupported_version = true }
  parse_case positional value = λ s. add_positional value s s.config.action s.config.address
  parse_case other value = finished

  unfoldable pub parse_argument : ℕ → Bytes → Settings → Run Settings
  parse_argument c value s = parse_case (case_of c) value s
