-- ===== src/Config/File.antt =====
-- config_file_parse of src/config.c. A line `config = FILE` makes parse_argument call it again, so
-- it takes a bound on the depth of such calls.
use moonlight_embedded_crash.Prelude.{
  ℕ, zero, suc, Bool, true, false, ◌&&◌, Option, none, some, List, [], ◌∷◌, if◌then◌else◌,
}
use moonlight_embedded_crash.Prelude.Text.{Bytes, codes, str_eq}
use moonlight_embedded_crash.Config.{Settings, World, Audio}
use moonlight_embedded_crash.Config.Argument.{
  Run, finished, too_deep, ◌>>=◌, LongOption, long_options, parse_argument, on_config,
}
use moonlight_embedded_crash.Libc.Scan.{lines, scan_setting}

-- strcmp("true", value) == 0
abbrev pub is_true : Bytes → Bool
is_true value = str_eq (codes "true") value

-- The keys with a case of their own, and the others.
pub data Key : Type 0 where
  address sops localaudio option : Key

unfoldable pub key_of : Bytes → Key
key_of key =
    if str_eq key (codes "address")
    then address
    else if str_eq key (codes "sops")
    then sops
    else if str_eq key (codes "localaudio")
    then localaudio
    else option

unfoldable pub matches : Bytes → LongOption → Bool
matches key o = o.required_argument && str_eq o.name key

module _ (audio_modes : Audio) (world : World) where
  -- The loop over long_options.
  unfoldable pub apply_options :
      (Bytes → Settings → Run (Bool × Settings))
      → Bytes
      → Bytes
      → List LongOption
      → Settings
      → Run Settings
  apply_options nested key value [] s = finished s
  apply_options nested key value (o ∷ os) s =
      (if matches key o then parse_argument audio_modes world nested o.val value s else finished s)
      >>= apply_options nested key value os

  unfoldable pub apply_key :
      (Bytes → Settings → Run (Bool × Settings)) → Key → Bytes → Bytes → Settings → Run Settings
  apply_key nested address key value s = on_config (λ c. record c { address = some value }) s
  apply_key nested sops key value s = on_config (λ c. record c { sops = is_true value }) s
  apply_key nested localaudio key value s =
      on_config (λ c. record c { localaudio = is_true value }) s
  apply_key nested option key value s = apply_options nested key value long_options s

  -- What sscanf took from a line, if it converted both.
  unfoldable pub apply_scanned :
      (Bytes → Settings → Run (Bool × Settings)) → Option (Bytes × Bytes) → Settings → Run Settings
  apply_scanned nested none s = finished s
  apply_scanned nested (some (key, value)) s = apply_key nested (key_of key) key value s

  -- The loop over the lines.
  unfoldable pub parse_lines :
      (Bytes → Settings → Run (Bool × Settings)) → List Bytes → Settings → Run Settings
  parse_lines nested [] s = finished s
  parse_lines nested (l ∷ ls) s = apply_scanned nested (scan_setting l) s >>= parse_lines nested ls

  abbrev parsed : Run Settings → Run (Bool × Settings)
  parsed r = r >>= λ s. finished (true, s)

  -- What fopen gave.
  unfoldable pub parse_opened :
      (Bytes → Settings → Run (Bool × Settings)) → Option Bytes → Settings → Run (Bool × Settings)
  parse_opened nested none s = finished (false, s)
  parse_opened nested (some text) s = parsed (parse_lines nested (lines text) s)

  unfoldable pub config_file_parse : ℕ → Bytes → Settings → Run (Bool × Settings)
  config_file_parse zero filename s = too_deep
  config_file_parse (suc depth) filename s =
      parse_opened (config_file_parse depth) (world.file filename) s
