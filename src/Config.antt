-- ===== src/Config.antt =====
-- src/config.h and src/config.c: the configuration, from its defaults, configuration files and the
-- command line. This file has the data and get_path.
pub mod Argument
pub mod File
pub mod Save
pub mod Parse
pub mod Inputs
pub mod Depth
pub mod Complete
pub mod RoundTrip
pub mod Path
use mathlib.Core.Path.{subst}
use mathlib.Core.List.{append-nil, append_assoc}
use moonlight_embedded_crash.Prelude.{
  ℕ, zero, suc, ◌+◌, ◌-◌, ◌*◌, ◌/◌, ◌%◌, ◌^◌, ◌≤◌, ◌<◌, ◌≡◌, refl, sym, ap, ◌∙◌, fun_ext, ◌≢◌, ◌↔◌,
  ◌⊎◌, inl, inr, Bool, true, false, not, ◌&&◌, ◌||◌, Option, none, some, List, [], ◌∷◌, ◌++◌, map,
  arith, ltb, leb, ◌==◌, if◌then◌else◌, ltb→lt, lt→ltb, leb→le, ==_iff, ==_refl, Bool-cases,
  Option-cases, length, get_elem?, set, take, length-append, length-set, get_elem?-set_self,
  get_elem?-set_ne,
}
use moonlight_embedded_crash.Prelude.Int.{
  ℤ, pos, negsuc, ◌+ℤ◌, ◌-ℤ◌, ◌*ℤ◌, quot, ◌≤ℤ◌, ◌<ℤ◌, ltb_ℤ, leb_ℤ, eq_ℤ, abs, to_short, to_char,
  to_int, IsShort, IsInt, int_laws, eq_of_parts, eq_ℤ_refl, eq_ℤ→eq,
}
use moonlight_embedded_crash.Prelude.Bits.{
  Bits, bits, no_bits, ◌|b◌, ◌&b◌, ~b, one_bit, sign_extend, all_below, eq_bits, nonzero, zero_bit,
  nonzero_of_bit, eq_bits_sound, eq_bits_intro,
}
use moonlight_embedded_crash.Prelude.Text.{Bytes, codes, str_eq, is_space, str_eq_refl, str_eq→eq}
use moonlight_embedded_crash.Prelude.Process.{
  Process, running, exited, ◌>>=◌, exit_failure, minus_one,
}

-- STREAM_CONFIGURATION of Limelight.h: the fields that the program names. LiInitializeStreamConfiguration
-- gives the values before the program sets its own.
pub record Stream : Type 0 where
  pub width : ℤ
  pub height : ℤ
  pub fps : ℤ
  pub bitrate : ℤ
  pub packet_size : ℤ
  pub streaming_remotely : ℤ
  pub audio_configuration : ℤ
  pub supports_hevc : Bool

-- struct input_config
pub record InputConfig : Type 0 where
  pub path : Bytes
  pub mapping : Option Bytes

-- CONFIGURATION. A pointer that may be NULL is an option; `inputs` holds the first `inputsCount`
-- entries of the array.
pub record Configuration : Type 0 where
  pub stream : Stream
  pub app : Bytes
  pub action : Option Bytes
  pub address : Option Bytes
  pub mapping : Option Bytes
  pub platform : Bytes
  pub config_file : Option Bytes
  pub key_dir : Bytes
  pub sops : Bool
  pub localaudio : Bool
  pub fullscreen : Bool
  pub forcehw : Bool
  pub unsupported_version : Bool
  pub inputs : List InputConfig

abbrev pub max_inputs : ℕ
max_inputs = 6

-- The configuration with the variables `inputAdded`, `mapped` and `audio_device`.
pub record Settings : Type 0 where
  pub config : Configuration
  pub input_added : Bool
  pub mapped : Bool
  pub audio_device : Option Bytes

-- What the functions ask of the system: access with R_OK and with F_OK, the text of a file that
-- fopen can open, whether it can open one for writing, and the environment. HOME is set.
pub record World : Type 0 where
  pub readable : Bytes → Bool
  pub exists : Bytes → Bool
  pub file : Bytes → Option Bytes
  pub writable : Bytes → Bool
  pub xdg_config_dir : Option Bytes
  pub xdg_data_dirs : Option Bytes
  pub xdg_cache_dir : Option Bytes
  pub home : Bytes

-- AUDIO_CONFIGURATION_STEREO and AUDIO_CONFIGURATION_51_SURROUND
pub record Audio : Type 0 where
  pub stereo : ℤ
  pub surround_51 : ℤ

abbrev cons_head : ℕ → List Bytes → List Bytes
cons_head c [] = (c ∷ []) ∷ []
cons_head c (l ∷ ls) = (c ∷ l) ∷ ls

-- The parts between the colons.
unfoldable pub split_colons : Bytes → List Bytes
split_colons [] = [] ∷ []
split_colons (c ∷ s) =
    let rest = split_colons s in if c == b':' then [] ∷ rest else cons_head c rest

abbrev pub or_else {ℓ} : {A : Type ℓ} → Option A → A → A
or_else none d = d
or_else (some a) d = a

abbrev pub moonlight_path : Bytes
moonlight_path = codes "/moonlight"

-- The first byte of the buffer `path`, where a part is copied over one that began with `first`.
abbrev pub first_byte : ℕ → Bytes → ℕ
first_byte first [] = first
first_byte first (c ∷ _) = c

-- The path that is tried in a directory.
unfoldable pub path_in : ℕ → Bytes → Bytes → Bytes
path_in first name dir =
    if first_byte first dir == b'/'
    then dir ++ (moonlight_path ++ b'/' ∷ name)
    else dir ++ b'/' ∷ name

unfoldable pub search_dirs : World → Bytes → ℕ → List Bytes → Option Bytes
search_dirs world name first [] = none
search_dirs world name first (dir ∷ dirs) =
    let path = path_in first name dir in
    let rest = search_dirs world name (first_byte first path) dirs in
    if world.readable path then some path else rest

-- The string `data_dirs`.
unfoldable pub data_dirs_of : World → Option Bytes → Bytes
data_dirs_of world extra =
    codes ".:"
    ++ (or_else world.xdg_config_dir world.home
        ++ b':'
          ∷ (world.home
              ++ b'/'
                ∷ (codes "/.config"
                    ++ b':' ∷ (or_else extra (codes "/usr/share:/usr/local/share") ++ b'/' ∷ []))))

unfoldable pub get_path : World → Bytes → Option Bytes → Option Bytes
get_path world name extra =
    let found = search_dirs world name 0 (split_colons (data_dirs_of world extra)) in
    if world.readable name then some name else found
