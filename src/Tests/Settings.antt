-- ===== src/Tests/Settings.antt =====
-- The configuration on a concrete file system and command line.
use mathlib.Core.Path.{subst}
use moonlight_embedded_crash.Prelude.{
  ℕ, zero, suc, ◌<◌, ◌≡◌, refl, sym, ap, ◌∙◌, inl, inr, true, false, Option, none, some, List, [],
  ◌∷◌, arith, if◌then◌else◌, Bool-cases, get_elem?,
}
use moonlight_embedded_crash.Prelude.Int.{pos, to_int, int_laws}
use moonlight_embedded_crash.Prelude.Text.{Bytes, codes, str_eq, is_space}
use moonlight_embedded_crash.Prelude.Process.{running, minus_one}
use moonlight_embedded_crash.Config.{
  Configuration, Settings, World, Audio, get_path, split_colons, data_dirs_of, search_dirs, path_in,
}
use moonlight_embedded_crash.Config.Argument.{
  finished, case_of, parse_argument, parse_case, long_options,
}
use moonlight_embedded_crash.Config.File.{
  config_file_parse, key_of, matches, apply_options, apply_key, apply_scanned, parse_lines,
  parse_opened,
}
use moonlight_embedded_crash.Config.Save.{config_text, config_save}
use moonlight_embedded_crash.Config.Parse.{Written, with_defaults, config_parse}
use moonlight_embedded_crash.Config.Inputs.{Ensures}
use moonlight_embedded_crash.Config.Complete.{IsComplete, config_parse-IsComplete}
use moonlight_embedded_crash.Config.Depth.{Ends, Ranked, config_file_parse-Ends}
use moonlight_embedded_crash.Config.RoundTrip.{
  IsSavable, AtDefaults, restored, config_file_parse-config_save,
}
use moonlight_embedded_crash.Libc.Scan.{lines, scan_setting, scan_word, span, scan_rest_of_line}
use moonlight_embedded_crash.Libc.Decimal.{atoi, digits_value, signed_value, strtol, skip_spaces}

abbrev audio_modes : Audio
audio_modes = record { stereo = pos 0; surround_51 = pos 1 }

abbrev pub memory : Settings
memory = record {
  config = record {
    stream = record {
      width = pos 0;
      height = pos 0;
      fps = pos 0;
      bitrate = pos 0;
      packet_size = pos 0;
      streaming_remotely = pos 0;
      audio_configuration = pos 0;
      supports_hevc = false;
    };
    app = [];
    action = none;
    address = none;
    mapping = none;
    platform = [];
    config_file = none;
    key_dir = [];
    sops = false;
    localaudio = false;
    fullscreen = false;
    forcehw = false;
    unsupported_version = false;
    inputs = [];
  };
  input_added = false;
  mapped = true;
  audio_device = none;
}

abbrev default_mapping : Bytes
default_mapping = codes "/usr/share/moonlight/mappings/default.conf"

-- The file outer.conf names inner.conf; saved.conf is what config_save wrote.
abbrev outer : Bytes
outer = codes "width = 1920\nconfig = inner.conf\n"

abbrev wide : Configuration
wide = record (memory.config) {
  stream = record {
    width = pos 1920;
    height = pos 1080;
    fps = pos 60;
    bitrate = minus_one;
    packet_size = pos 1024;
    streaming_remotely = pos 0;
    audio_configuration = pos 0;
    supports_hevc = false;
  };
  app = codes "Dolphin Emulator";
  localaudio = true;
}

abbrev file_of : Bytes → Option Bytes
file_of name =
    if str_eq name (codes "outer.conf")
    then some outer
    else if str_eq name (codes "inner.conf")
    then some (codes "height = 1080\n")
    else if str_eq name (codes "saved.conf")
    then some (config_text wide)
    else none

abbrev home_world : World
home_world = record {
  readable = λ p. str_eq p default_mapping;
  exists = λ p. false;
  file = file_of;
  writable = λ p. true;
  xdg_config_dir = none;
  xdg_data_dirs = none;
  xdg_cache_dir = none;
  home = codes "/home/me";
}

-- The default mapping is found in /usr/share.
found : get_path home_world (codes "mappings/default.conf") none ≡ some default_mapping
unfolding get_path str_eq search_dirs split_colons data_dirs_of path_in
found = refl

-- The nested file is read as well.
nested_files :
    config_file_parse audio_modes home_world 2 (codes "outer.conf") memory
    ≡ finished (
      true,
      record memory {
        config = record (memory.config) {
          stream = record (memory.config.stream) { width = pos 1920; height = pos 1080 };
        };
      },
    )
unfolding config_file_parse parse_opened str_eq parse_lines lines apply_scanned scan_setting
    scan_word span skip_spaces scan_rest_of_line apply_key key_of apply_options long_options matches
    parse_argument parse_case case_of atoi digits_value signed_value strtol to_int is_space
nested_files = refl

abbrev options : List (ℕ × Bytes)
options = (b'b', []) ∷ (b'j', codes "/dev/input/event0") ∷ (1, codes "stream") ∷ []

config_parse-IsComplete_example :
    Ensures
      (λ (r : Settings × Option Written). IsComplete r.0)
      (config_parse audio_modes home_world 2 [] options memory)
config_parse-IsComplete_example =
    config_parse-IsComplete audio_modes home_world 2 [] options memory refl

-- outer.conf ranks above the file that it names.
abbrev rank : Bytes → ℕ
rank name = if str_eq name (codes "outer.conf") then 1 else 0

abbrev rank_world : World
rank_world = record home_world {
  file = λ name. if str_eq name (codes "outer.conf") then some outer else none;
}

lines-outer : lines outer ≡ codes "width = 1920\n" ∷ codes "config = inner.conf\n" ∷ []
unfolding lines
lines-outer = refl

scan_width : scan_setting (codes "width = 1920\n") ≡ some (codes "width", codes "1920")
unfolding lines scan_setting scan_word span skip_spaces scan_rest_of_line is_space
scan_width = refl

scan_config :
    scan_setting (codes "config = inner.conf\n") ≡ some (codes "config", codes "inner.conf")
unfolding lines scan_setting scan_word span skip_spaces scan_rest_of_line is_space
scan_config = refl

value_of :
    (l m key v value : Bytes)
    → some m ≡ some l
    → scan_setting m ≡ some (key, v)
    → scan_setting l ≡ some (codes "config", value)
    → (key ≡ codes "config") × (v ≡ value)
value_of l m key v value e f g =
    let n : m ≡ l = cc in
    let h : some (key, v) ≡ some (codes "config", value) = sym f ∙ ap scan_setting n ∙ g in (cc, cc)

named_in_outer :
    (k : ℕ) (l value : Bytes)
    → get_elem? (codes "width = 1920\n" ∷ codes "config = inner.conf\n" ∷ []) k ≡ some l
    → scan_setting l ≡ some (codes "config", value)
    → codes "inner.conf" ≡ value
named_in_outer zero l value e g =
    let r =
      value_of l (codes "width = 1920\n") (codes "width") (codes "1920") value e scan_width g in
    let f = r.0 in cc
named_in_outer (suc zero) l value e g =
    (value_of l (codes "config = inner.conf\n") (codes "config") (codes "inner.conf") value e
      scan_config g).1
named_in_outer (suc (suc k)) l value e g = cc

inner_lt : rank (codes "inner.conf") < 1
unfolding str_eq
inner_lt = omega arith

ranked : Ranked audio_modes rank_world rank
ranked filename text k l value there at named =
    elim (Bool-cases (str_eq filename (codes "outer.conf"))) [
      | inl e ↦
          let t : some outer ≡ some text = rw e at there in
          let u : get_elem? (lines outer) k ≡ some l = ap (λ x. get_elem? (lines x) k) (cc) ∙ at in
          let v : codes "inner.conf" ≡ value =
            named_in_outer k l value (rw lines-outer at u) named in
          subst (λ x. rank x < rank filename) v (rw e inner_lt)
      | inr e ↦ let t : none ≡ some text = rw e at there in cc
    ]

rank_lt : rank (codes "outer.conf") < 2
unfolding str_eq
rank_lt = omega arith

config_file_parse-Ends_example :
    Ends (config_file_parse audio_modes rank_world 2 (codes "outer.conf") memory)
config_file_parse-Ends_example =
    config_file_parse-Ends audio_modes rank_world rank 2 (codes "outer.conf") memory ranked rank_lt

wide-IsSavable : IsSavable wide
unfolding is_space
wide-IsSavable = record {
  width_fits = omega int_laws;
  height_fits = omega int_laws;
  fps_fits = omega int_laws;
  bitrate_fits = omega int_laws;
  packet_size_fits = omega int_laws;
  app_value = record {
    starts = refl;
    no_newline = (
      refl,
      (
        refl,
        (
          refl,
          (
            refl,
            (
              refl,
              (
                refl,
                (refl, (refl, (refl, (refl, (refl, (refl, (refl, (refl, (refl, (refl, tt)))))))))),
              ),
            ),
          ),
        ),
      ),
    );
  };
}

start : Settings
start = with_defaults audio_modes home_world memory

start-AtDefaults : AtDefaults start.config
unfolding with_defaults start
start-AtDefaults = record {
  width = refl;
  height = refl;
  fps = refl;
  bitrate = refl;
  packet_size = refl;
  sops = refl;
  localaudio = refl;
  app = refl;
}

saved_text : config_save true wide ≡ running (config_text wide)
unfolding config_save
saved_text = refl

saved_there : home_world.file (codes "saved.conf") ≡ some (config_text wide)
unfolding str_eq
saved_there = refl

config_file_parse-config_save_example :
    config_file_parse audio_modes home_world 1 (codes "saved.conf") start
    ≡ finished (true, restored wide start)
config_file_parse-config_save_example =
    config_file_parse-config_save audio_modes home_world 0 (codes "saved.conf") (config_text wide)
      wide start wide-IsSavable start-AtDefaults saved_text saved_there
