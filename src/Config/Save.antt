-- ===== src/Config/Save.antt =====
-- config_save of src/config.c.
use moonlight_embedded_crash.Prelude.{Bool, true, false, not, [], ◌∷◌, ◌++◌}
use moonlight_embedded_crash.Prelude.Int.{ℤ, pos, eq_ℤ}
use moonlight_embedded_crash.Prelude.Text.{Bytes, codes, str_eq}
use moonlight_embedded_crash.Prelude.Process.{Process, running, exited, exit_failure, minus_one}
use moonlight_embedded_crash.Config.{Configuration}
use moonlight_embedded_crash.Libc.Decimal.{print_int}

-- write_config_string
unfoldable pub write_config_string : Bytes → Bytes → Bytes
write_config_string key value = key ++ b' ' ∷ b'=' ∷ b' ' ∷ (value ++ b'\n' ∷ [])

-- write_config_int
unfoldable pub write_config_int : Bytes → ℤ → Bytes
write_config_int key value = write_config_string key (print_int value)

abbrev pub bool_text : Bool → Bytes
bool_text true = codes "true"
bool_text false = codes "false"

-- write_config_bool
unfoldable pub write_config_bool : Bytes → Bool → Bytes
write_config_bool key value = write_config_string key (bool_text value)

abbrev pub when : Bool → Bytes → Bytes
when true line = line
when false line = []

-- What config_save writes.
unfoldable pub config_text : Configuration → Bytes
config_text c =
    when (not (eq_ℤ c.stream.width (pos 1280))) (write_config_int (codes "width") c.stream.width)
    ++ (when (not (eq_ℤ c.stream.height (pos 720)))
          (write_config_int (codes "height") c.stream.height)
        ++ (when (not (eq_ℤ c.stream.fps (pos 60))) (write_config_int (codes "fps") c.stream.fps)
            ++ (when (not (eq_ℤ c.stream.bitrate minus_one))
                  (write_config_int (codes "bitrate") c.stream.bitrate)
                ++ (when (not (eq_ℤ c.stream.packet_size (pos 1024)))
                      (write_config_int (codes "packetsize") c.stream.packet_size)
                    ++ (when (not c.sops) (write_config_bool (codes "sops") c.sops)
                        ++ (when c.localaudio (write_config_bool (codes "localaudio") c.localaudio)
                            ++ when (not (str_eq c.app (codes "Steam")))
                                (write_config_string (codes "app") c.app)))))))

-- `writable`: whether fopen can open the file. The result is the file's new content.
unfoldable pub config_save : Bool → Configuration → Process Bytes
config_save false c = exited exit_failure
config_save true c = running (config_text c)
