-- ===== src/Client/App.antt =====
-- gs_unpair, gs_applist, gs_start_app and gs_quit_app of libgamestream/client.c.
use moonlight_embedded_crash.Prelude.{
  ◌+◌, ◌*◌, ◌^◌, Bool, true, false, not, ◌&&◌, Option, none, some, List, ◌++◌, if◌then◌else◌,
  length,
}
use moonlight_embedded_crash.Prelude.Int.{ℤ, pos, leb_ℤ, eq_ℤ}
use moonlight_embedded_crash.Prelude.Text.{Bytes, codes, str_eq}
use moonlight_embedded_crash.Client.{
  gs_failed, gs_invalid, gs_io_error, gs_not_supported_4k, Server, Session, Result, ok, fails,
  Client, ◌>>=◌, ◌>>◌, return, fail, modify, create_data, Network, http_request, search, or_error,
}
use moonlight_embedded_crash.Config.{Stream}
use moonlight_embedded_crash.Xml.{App, xml_applist}
use moonlight_embedded_crash.Libc.Decimal.{print_int}

-- AUDIO_CONFIGURATION_STEREO of Limelight.h is a parameter; the counts and masks of channels are
-- the ones of client.c.
abbrev pub surround_info : ℤ → ℤ → ℤ
surround_info stereo configuration =
    if eq_ℤ configuration stereo then pos (3 * 2 ^ 16 + 2) else pos (252 * 2 ^ 16 + 6)

abbrev pub bool_digit : Bool → Bytes
bool_digit true = codes "1"
bool_digit false = codes "0"

-- unique_id and uuid, the same in every URL.
abbrev pub identity : Bytes → Bytes → Bytes
identity unique_id uuid = codes "?uniqueid=" ++ (unique_id ++ (codes "&uuid=" ++ uuid))

unfoldable pub launch_url : ℤ → Server → Stream → ℤ → Bool → Bool → Bytes → Bytes → Bytes
launch_url stereo server config app_id sops localaudio ids rikey =
    codes "https://"
    ++ (server.address
        ++ (codes ":47984/launch"
            ++ (ids
                ++ (codes "&appid="
                    ++ (print_int app_id
                        ++ (codes "&mode="
                            ++ (print_int config.width
                                ++ (codes "x"
                                    ++ (print_int config.height
                                        ++ (codes "x"
                                            ++ (print_int config.fps
                                                ++ (codes "&additionalStates=1&sops="
                                                    ++ (bool_digit sops
                                                        ++ (codes "&rikey="
                                                            ++ (rikey
                                                            ++ (codes
                                                            "&rikeyid=0&localAudioPlayMode="
                                                            ++ (bool_digit localaudio
                                                            ++ (codes "&surroundAudioInfo="
                                                            ++ print_int (
                                                            surround_info stereo
                                                            config.audio_configuration)))))))))))))))))))

unfoldable pub resume_url : Server → Bytes → Bytes → Bytes
resume_url server ids rikey =
    codes "https://"
    ++ (server.address
        ++ (codes ":47984/resume" ++ (ids ++ (codes "&rikey=" ++ (rikey ++ codes "&rikeyid=0")))))

-- A request whose URL is `scheme`, the address, `path` and the two ids.
abbrev pub simple_url : Bytes → Server → Bytes → Bytes → Bytes
simple_url scheme server path ids = scheme ++ (server.address ++ (path ++ ids))

module _ (network : Network) where
  abbrev ids : Session → Bytes
  ids s = identity network.unique_id (network.uuid (length s.sent))

  unfoldable pub gs_unpair : Client (Unit {0})
  gs_unpair s =
      http_request network (simple_url (codes "http://") s.server (codes ":47989/unpair") (ids s)) s

  abbrev listed : Option (List App) → Result (List App)
  listed none = fails gs_invalid
  listed (some apps) = ok apps

  unfoldable pub gs_applist : Client (List App)
  gs_applist = do
    create_data
    or_error gs_io_error (λ s.
        http_request network
          (simple_url (codes "https://") s.server (codes ":47984/applist") (ids s)) s)
    λ s. (s, listed (xml_applist network.expat s.body))

  -- The end of gs_start_app and gs_quit_app: the answer has the element, and it is not 0.
  unfoldable pub not_refused : Bytes → Client (Unit {0})
  not_refused node = do
    answer ← search network node
    if str_eq answer (codes "0") then fail gs_failed else return tt

  -- `rikey` is the random key in hexadecimal.
  unfoldable pub start_url : ℤ → Bytes → Stream → ℤ → Bool → Bool → Session → Bytes
  start_url stereo rikey config app_id sops localaudio s =
      if eq_ℤ s.server.current_game (pos 0)
      then launch_url stereo s.server config app_id sops localaudio (ids s) rikey
      else resume_url s.server (ids s) rikey

  unfoldable pub start : ℤ → Bytes → Stream → ℤ → Bool → Bool → Client (Unit {0})
  start stereo rikey config app_id sops localaudio = do
    create_data
    λ s. http_request network (start_url stereo rikey config app_id sops localaudio s) s
    modify (λ server. record server { current_game = app_id })
    not_refused (codes "gamesession")

  unfoldable pub gs_start_app : ℤ → Bytes → Stream → ℤ → Bool → Bool → Client (Unit {0})
  gs_start_app stereo rikey config app_id sops localaudio s =
      if leb_ℤ (pos 2160) config.height && not s.server.supports_4k
      then (s, fails gs_not_supported_4k)
      else start stereo rikey config app_id sops localaudio s

  unfoldable pub gs_quit_app : Client (Unit {0})
  gs_quit_app = do
    create_data
    λ s.
        http_request network
          (simple_url (codes "https://") s.server (codes ":47984/cancel") (ids s)) s
    not_refused (codes "cancel")
