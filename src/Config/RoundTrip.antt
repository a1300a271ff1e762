-- ===== src/Config/RoundTrip.antt =====
-- A configuration that config_save writes is read back by config_file_parse.
use moonlight_embedded_crash.Libc.Scan.{is_word_byte, lines}
use moonlight_embedded_crash.Libc.Decimal.{AllBytes, print_int}
use mathlib.Core.List.{append-nil}
use moonlight_embedded_crash.Prelude.{
  ℕ, suc, ◌≡◌, refl, sym, ap, ◌∙◌, Bool, true, false, not, ◌&&◌, some, [], ◌∷◌, ◌++◌, arith, set,
}
use moonlight_embedded_crash.Prelude.Int.{ℤ, pos, eq_ℤ, IsInt, eq_ℤ→eq}
use moonlight_embedded_crash.Prelude.Text.{Bytes, codes, str_eq, is_space, str_eq→eq}
use moonlight_embedded_crash.Prelude.Process.{running, minus_one}
use moonlight_embedded_crash.Config.{Stream, Configuration, Settings, World, Audio}
use moonlight_embedded_crash.Config.Argument.{
  Run, finished, long_options, parse_case, parse_argument, case_of,
}
use moonlight_embedded_crash.Config.File.{
  key_of, matches, apply_options, apply_key, apply_scanned, parse_lines, parse_opened,
  config_file_parse,
}
use moonlight_embedded_crash.Config.Save.{
  write_config_string, write_config_int, write_config_bool, when, config_text, config_save,
}
use moonlight_embedded_crash.Libc.RoundTrip.{IsWord, print_int-IsWord, atoi-print_int}
use moonlight_embedded_crash.Libc.Setting.{
  IsValue, IsWord-IsValue, scan_setting_line, lines_setting,
}

-- The numbers are ints, and the app's name can be read back from a line of the file: it is not
-- empty, does not begin with white space and has no newline.
pub record IsSavable (c : Configuration) : Type 0 where
  pub width_fits : IsInt c.stream.width
  pub height_fits : IsInt c.stream.height
  pub fps_fits : IsInt c.stream.fps
  pub bitrate_fits : IsInt c.stream.bitrate
  pub packet_size_fits : IsInt c.stream.packet_size
  pub app_value : IsValue c.app

-- The saved fields have the values that config_parse sets at the start.
pub record AtDefaults (c : Configuration) : Type 0 where
  pub width : c.stream.width ≡ pos 1280
  pub height : c.stream.height ≡ pos 720
  pub fps : c.stream.fps ≡ pos 60
  pub bitrate : c.stream.bitrate ≡ minus_one
  pub packet_size : c.stream.packet_size ≡ pos 1024
  pub sops : c.sops ≡ true
  pub localaudio : c.localaudio ≡ false
  pub app : c.app ≡ codes "Steam"

abbrev set_stream : (Stream → Stream) → Settings → Settings
set_stream f s = record s { config = record (s.config) { stream = f s.config.stream } }

abbrev set_width : ℤ → Settings → Settings
set_width v = set_stream λ t. record t { width = v }

abbrev set_height : ℤ → Settings → Settings
set_height v = set_stream λ t. record t { height = v }

abbrev set_fps : ℤ → Settings → Settings
set_fps v = set_stream λ t. record t { fps = v }

abbrev set_bitrate : ℤ → Settings → Settings
set_bitrate v = set_stream λ t. record t { bitrate = v }

abbrev set_packet_size : ℤ → Settings → Settings
set_packet_size v = set_stream λ t. record t { packet_size = v }

abbrev set_sops : Bool → Settings → Settings
set_sops v s = record s { config = record (s.config) { sops = v } }

abbrev set_localaudio : Bool → Settings → Settings
set_localaudio v s = record s { config = record (s.config) { localaudio = v } }

abbrev set_app : Bytes → Settings → Settings
set_app v s = record s { config = record (s.config) { app = v } }

-- The settings `s` with the saved fields of `c`.
abbrev pub restored : Configuration → Settings → Settings
restored c s =
    let t = c.stream in
    set_app c.app (
      set_localaudio c.localaudio (
        set_sops c.sops (
          set_packet_size t.packet_size
            (set_bitrate t.bitrate (set_fps t.fps (set_height t.height (set_width t.width s)))))))

abbrev is_word : Bytes → Bool
is_word [] = true
is_word (c ∷ s) = is_word_byte c && is_word s

is_word-AllBytes : (s : Bytes) → is_word s ≡ true → AllBytes is_word_byte s
is_word-AllBytes [] h = tt
is_word-AllBytes (c ∷ s) h = (ground arith, is_word-AllBytes s (ground arith))

key-IsWord : (c : ℕ) (s : Bytes) → is_word (c ∷ s) ≡ true → IsWord (c ∷ s)
key-IsWord c s h = record { nonempty = λ e. cc; no_space = is_word-AllBytes (c ∷ s) h }

module _ (audio_modes : Audio) (world : World)
    (nested : Bytes → Settings → Run (Bool × Settings)) where
  abbrev read : Bytes → Settings → Run Settings
  read text s = parse_lines audio_modes world nested (lines text) s

  abbrev applied : Bytes → Bytes → Settings → Run Settings
  applied key value s = apply_scanned audio_modes world nested (some (key, value)) s

  -- A line that is written is applied; where none is written, the settings are right already.
  read-when :
      (b : Bool) (key value rest : Bytes) (s s' : Settings)
      → IsWord key
      → IsValue value
      → (b ≡ true → applied key value s ≡ finished s')
      → (b ≡ false → s ≡ s')
      → read (when b (write_config_string key value) ++ rest) s ≡ read rest s'
  unfolding parse_lines write_config_string
  read-when true key value rest s s' k v set keep =
      rw (lines_setting key value rest k v, scan_setting_line key value k v, set refl) refl
  read-when false key value rest s s' k v set keep = ap (read rest) (keep refl)

  read-int :
      (key rest : Bytes) (n d : ℤ) (s s' : Settings)
      → IsWord key
      → IsInt n
      → (applied key (print_int n) s ≡ finished s')
      → (n ≡ d → s ≡ s')
      → read (when (not (eq_ℤ n d)) (write_config_int key (n)) ++ rest) s ≡ read rest s'
  unfolding write_config_int
  read-int key rest n d s s' k fits set keep =
      read-when (not (eq_ℤ n d)) key (print_int n) rest s s' k
        (IsWord-IsValue (print_int n) (print_int-IsWord n)) (λ _. set)
        (λ e. keep (eq_ℤ→eq n d (ground arith)))

  read-width :
      (n : ℤ) (rest : Bytes) (s : Settings)
      → IsInt n
      → s.config.stream.width ≡ pos 1280
      → read (when (not (eq_ℤ n (pos 1280))) (write_config_int (codes "width") n) ++ rest) s
        ≡ read rest (set_width n s)
  unfolding apply_scanned key_of str_eq apply_key apply_options long_options matches parse_argument
      parse_case case_of is_space
  read-width n rest s fits e =
      read-int (codes "width") rest n (pos 1280) s (set_width n s) (key-IsWord _ _ refl) fits
        (ap (λ v. finished (set_width v s)) (atoi-print_int n fits))
        (λ h. ap (λ v. set_width v s) (e ∙ sym h))

  read-height :
      (n : ℤ) (rest : Bytes) (s : Settings)
      → IsInt n
      → s.config.stream.height ≡ pos 720
      → read (when (not (eq_ℤ n (pos 720))) (write_config_int (codes "height") n) ++ rest) s
        ≡ read rest (set_height n s)
  unfolding apply_scanned key_of str_eq apply_key apply_options long_options matches parse_argument
      parse_case case_of is_space
  read-height n rest s fits e =
      read-int (codes "height") rest n (pos 720) s (set_height n s) (key-IsWord _ _ refl) fits
        (ap (λ v. finished (set_height v s)) (atoi-print_int n fits))
        (λ h. ap (λ v. set_height v s) (e ∙ sym h))

  read-fps :
      (n : ℤ) (rest : Bytes) (s : Settings)
      → IsInt n
      → s.config.stream.fps ≡ pos 60
      → read (when (not (eq_ℤ n (pos 60))) (write_config_int (codes "fps") n) ++ rest) s
        ≡ read rest (set_fps n s)
  unfolding apply_scanned key_of str_eq apply_key apply_options long_options matches parse_argument
      parse_case case_of is_space
  read-fps n rest s fits e =
      read-int (codes "fps") rest n (pos 60) s (set_fps n s) (key-IsWord _ _ refl) fits
        (ap (λ v. finished (set_fps v s)) (atoi-print_int n fits))
        (λ h. ap (λ v. set_fps v s) (e ∙ sym h))

  read-bitrate :
      (n : ℤ) (rest : Bytes) (s : Settings)
      → IsInt n
      → s.config.stream.bitrate ≡ minus_one
      → read (when (not (eq_ℤ n (minus_one))) (write_config_int (codes "bitrate") n) ++ rest) s
        ≡ read rest (set_bitrate n s)
  unfolding apply_scanned key_of str_eq apply_key apply_options long_options matches parse_argument
      parse_case case_of is_space
  read-bitrate n rest s fits e =
      read-int (codes "bitrate") rest n (minus_one) s (set_bitrate n s) (key-IsWord _ _ refl) fits
        (ap (λ v. finished (set_bitrate v s)) (atoi-print_int n fits))
        (λ h. ap (λ v. set_bitrate v s) (e ∙ sym h))

  read-packet_size :
      (n : ℤ) (rest : Bytes) (s : Settings)
      → IsInt n
      → s.config.stream.packet_size ≡ pos 1024
      → read (when (not (eq_ℤ n (pos 1024))) (write_config_int (codes "packetsize") n) ++ rest) s
        ≡ read rest (set_packet_size n s)
  unfolding apply_scanned key_of str_eq apply_key apply_options long_options matches parse_argument
      parse_case case_of is_space
  read-packet_size n rest s fits e =
      read-int (codes "packetsize") rest n (pos 1024) s (set_packet_size n s) (key-IsWord _ _ refl)
        fits (ap (λ v. finished (set_packet_size v s)) (atoi-print_int n fits))
        (λ h. ap (λ v. set_packet_size v s) (e ∙ sym h))

  read-sops :
      (b : Bool) (rest : Bytes) (s : Settings)
      → s.config.sops ≡ true
      → read (when (not b) (write_config_bool (codes "sops") b) ++ rest) s
        ≡ read rest (set_sops b s)
  unfolding apply_scanned key_of str_eq apply_key is_space write_config_bool
  read-sops true rest s e = ap (λ v. read rest (set_sops v s)) e
  read-sops false rest s e =
      read-when true (codes "sops") (codes "false") rest s (set_sops false s) (key-IsWord _ _ refl)
        (IsWord-IsValue _ (key-IsWord _ _ refl)) (λ _. refl) (λ f. cc)

  read-localaudio :
      (b : Bool) (rest : Bytes) (s : Settings)
      → s.config.localaudio ≡ false
      → read (when b (write_config_bool (codes "localaudio") b) ++ rest) s
        ≡ read rest (set_localaudio b s)
  unfolding apply_scanned key_of str_eq apply_key is_space write_config_bool
  read-localaudio false rest s e = ap (λ v. read rest (set_localaudio v s)) e
  read-localaudio true rest s e =
      read-when true (codes "localaudio") (codes "true") rest s (set_localaudio true s)
        (key-IsWord _ _ refl) (IsWord-IsValue _ (key-IsWord _ _ refl)) (λ _. refl) (λ f. cc)

  read-app :
      (app : Bytes) (rest : Bytes) (s : Settings)
      → IsValue app
      → s.config.app ≡ codes "Steam"
      → read
          (when (not (str_eq app (codes "Steam"))) (write_config_string (codes "app") app) ++ rest)
          s
        ≡ read rest (set_app app s)
  unfolding apply_scanned key_of str_eq apply_key apply_options long_options matches parse_argument
      parse_case case_of is_space
  read-app app rest s v e =
      read-when (not (str_eq app (codes "Steam"))) (codes "app") app rest s (set_app app s)
        (key-IsWord _ _ refl) v (λ _. refl)
        (λ f. ap (λ w. set_app w s) (e ∙ sym (str_eq→eq app (codes "Steam") (ground arith))))

  -- All the lines, on settings with the defaults.
  read-config_text :
      (c : Configuration) (s : Settings)
      → IsSavable c
      → AtDefaults s.config
      → read (config_text c) s ≡ finished (restored c s)
  unfolding config_text parse_lines lines
  read-config_text c s h d =
      let t = c.stream in
      let s1 = set_width t.width s in
      let s2 = set_height t.height s1 in
      let s3 = set_fps t.fps s2 in
      let s4 = set_bitrate t.bitrate s3 in
      let s5 = set_packet_size t.packet_size s4 in
      let s6 = set_sops c.sops s5 in
      let s7 = set_localaudio c.localaudio s6 in
      read-width t.width _ s h.width_fits d.width
      ∙ read-height t.height _ s1 h.height_fits d.height
      ∙ read-fps t.fps _ s2 h.fps_fits d.fps
      ∙ read-bitrate t.bitrate _ s3 h.bitrate_fits d.bitrate
      ∙ read-packet_size t.packet_size _ s4 h.packet_size_fits d.packet_size
      ∙ read-sops c.sops _ s5 d.sops
      ∙ read-localaudio c.localaudio _ s6 d.localaudio
      ∙ ap (λ u. read u s7)
          (sym (
            append-nil (
              when (not (str_eq c.app (codes "Steam"))) (write_config_string (codes "app") c.app))))
      ∙ read-app c.app [] s7 h.app_value d.app

-- A configuration whose numbers are ints and whose app's name is not empty, does not begin with
-- white space and has no newline, saved to a file and read back into settings that still have the
-- defaults: reading finishes, with the eight saved fields as they were and everything else
-- unchanged.
pub config_file_parse-config_save :
    (audio_modes : Audio) (world : World) (depth : ℕ) (filename text : Bytes) (c : Configuration)
    (s : Settings)
    → IsSavable c
    → AtDefaults s.config
    → config_save true c ≡ running text
    → world.file filename ≡ some text
    → config_file_parse audio_modes world (suc depth) filename s ≡ finished (true, restored c s)
unfolding config_file_parse parse_opened config_save
config_file_parse-config_save audio_modes world depth filename text c s h d saved there =
    let e : config_text c ≡ text = cc in
    rw
      (
        there,
        sym e,
        read-config_text audio_modes world (config_file_parse audio_modes world depth) c s h d,
      )
      refl
