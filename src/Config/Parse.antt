-- ===== src/Config/Parse.antt =====
-- config_parse of src/config.c. getopt_long_only is a parameter: what its calls return, each the
-- option's value with optarg.
use moonlight_embedded_crash.Prelude.{
  ℕ, Bool, true, false, not, ◌&&◌, ◌||◌, Option, none, some, List, [], ◌∷◌, ◌++◌, if◌then◌else◌,
}
use moonlight_embedded_crash.Prelude.Int.{ℤ, pos, leb_ℤ, eq_ℤ}
use moonlight_embedded_crash.Prelude.Text.{Bytes, codes}
use moonlight_embedded_crash.Prelude.Process.{Process, running, exited, minus_one}
use moonlight_embedded_crash.Config.{
  Stream, Configuration, Settings, World, Audio, get_path, moonlight_path,
}
use moonlight_embedded_crash.Config.Argument.{Run, finished, exits, ◌>>=◌, parse_argument, or_exit}
use moonlight_embedded_crash.Config.File.{config_file_parse}
use moonlight_embedded_crash.Config.Save.{config_save}

-- The assignments at the start. `forcehw` keeps what the memory of the caller holds.
unfoldable pub with_defaults : Audio → World → Settings → Settings
with_defaults audio_modes world s =
    let c = s.config in
    record s {
      config = record c {
        stream = record (c.stream) {
          width = pos 1280;
          height = pos 720;
          fps = pos 60;
          bitrate = minus_one;
          packet_size = pos 1024;
          streaming_remotely = pos 0;
          audio_configuration = audio_modes.stereo;
          supports_hevc = false;
        };
        platform = codes "default";
        app = codes "Steam";
        action = none;
        address = none;
        config_file = none;
        sops = true;
        localaudio = false;
        fullscreen = true;
        unsupported_version = false;
        inputs = [];
        mapping = get_path world (codes "mappings/default.conf") world.xdg_data_dirs;
        key_dir = [];
      };
    }

unfoldable pub default_bitrate : Stream → ℤ
default_bitrate t =
    if leb_ℤ (pos 1080) t.height && leb_ℤ (pos 60) t.fps
    then pos 20000
    else if leb_ℤ (pos 1080) t.height || leb_ℤ (pos 60) t.fps
    then pos 10000
    else pos 5000

unfoldable pub choose_bitrate : Stream → Stream
choose_bitrate t = if eq_ℤ t.bitrate minus_one then record t { bitrate = default_bitrate t } else t

abbrev pub default_key_dir : Option Bytes → Bytes → Bytes
default_key_dir (some dir) home = dir ++ moonlight_path
default_key_dir none home = home ++ (codes "/.cache" ++ moonlight_path)

unfoldable pub choose_key_dir : World → Bytes → Bytes
choose_key_dir world [] = default_key_dir world.xdg_cache_dir world.home
choose_key_dir world (c ∷ dir) = c ∷ dir

-- The two checks at the end.
abbrev pub has_mapping : Option Bytes → Bool
has_mapping none = false
has_mapping (some _) = true

unfoldable pub check_inputs : Settings → Run Settings
check_inputs s =
    if s.input_added && not (s.mapped && has_mapping s.config.mapping)
    then exits minus_one
    else finished s

unfoldable pub complete : World → Settings → Settings
complete world s =
    let c = s.config in
    record s {
      config = record c {
        key_dir = choose_key_dir world c.key_dir;
        stream = choose_bitrate c.stream;
      };
    }

abbrev pub to_run {ℓ} : {A : Type ℓ} → Process A → Run A
to_run (running a) = finished a
to_run (exited n) = exits n

-- The file that was written, with its content.
pub record Written : Type 0 where
  pub filename : Bytes
  pub text : Bytes

abbrev pub save_to : World → Option Bytes → Configuration → Run (Option Written)
save_to world none c = finished none
save_to world (some filename) c = to_run (config_save (world.writable filename) c) >>= λ text.
    finished (some (record { filename = filename; text = text }))

module _ (audio_modes : Audio) (world : World) (depth : ℕ) where
  -- The loop over the options.
  unfoldable pub parse_options : List (ℕ × Bytes) → Settings → Run Settings
  parse_options [] s = finished s
  parse_options ((c, value) ∷ options) s =
      parse_argument audio_modes world (config_file_parse audio_modes world depth) c value s
      >>= parse_options options

  -- The configuration file that is read whatever the command line says. That it cannot be opened
  -- is passed over.
  abbrev pub parse_default_file : Option Bytes → Settings → Run Settings
  parse_default_file none s = finished s
  parse_default_file (some path) s =
      config_file_parse audio_modes world depth path s >>= λ (opened, s'). finished s'

  unfoldable pub parse_single : Bytes → Settings → Run Settings
  parse_single path s =
      config_file_parse audio_modes world depth path
        (record s { config = record (s.config) { action = some (codes "stream") } })
      >>= or_exit

  -- `args` are the arguments behind the program's name.
  unfoldable pub parse_args : List Bytes → List (ℕ × Bytes) → Settings → Run Settings
  parse_args (path ∷ []) options s =
      if world.exists path then parse_single path s else parse_options options s
  parse_args _ options s = parse_options options s

  -- `initial` holds what the memory of the caller does, and the variables at their first values.
  unfoldable pub config_parse :
      List Bytes → List (ℕ × Bytes) → Settings → Run (Settings × Option Written)
  config_parse args options initial = do
    from_file ←
        parse_default_file (get_path world (codes "moonlight.conf") (some (codes "/etc")))
          (with_defaults audio_modes world initial)
    from_args ← parse_args args options from_file
    written ← save_to world from_args.config.config_file from_args.config
    checked ← check_inputs (complete world from_args)
    finished (checked, written)
