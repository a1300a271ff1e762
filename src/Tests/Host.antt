-- ===== src/Tests/Host.antt =====
-- The client against a concrete host, which answers every request alike.
use moonlight_embedded_crash.Client.Pair.{
  end_pairing, exchange, pair_request, expect_paired, send_challenge, send_response, aes_key,
  challenge_response, finish_pairing, hash, secure_request, send_secret, get_certificate, Crypto,
  Random, gs_pair,
}
use moonlight_embedded_crash.Client.App.{gs_unpair, simple_url, gs_start_app}
use moonlight_embedded_crash.Client.Pair.Verified.{Verifies, gs_pair-Signed}
use moonlight_embedded_crash.Client.{
  gs_wrong_state, gs_not_supported_4k, Server, Session, fails, Network, http_request, search,
  write_curl,
}
use moonlight_embedded_crash.Prelude.{
  ◌≡◌, refl, ◌⊎◌, true, false, not, ◌&&◌, none, some, List, [], ◌∷◌, ◌++◌, arith,
}
use moonlight_embedded_crash.Prelude.Int.{pos, ◌+ℤ◌, ◌-ℤ◌, ◌≤ℤ◌, leb_ℤ, to_int}
use moonlight_embedded_crash.Prelude.Text.{Bytes, codes, str_eq, is_space}
use moonlight_embedded_crash.Client.Status.{
  attempt, load_server_status, check_version, read_serverinfo, fill_server,
  min_supported_gfe_version, max_supported_gfe_version, serverinfo_url,
}
use moonlight_embedded_crash.Client.Exchange.{
  StartsAt, Succeeds, url, load_server_status-requests, gs_start_app-started,
}
use moonlight_embedded_crash.Client.Hex.{
  scan_byte, bytes_to_hex, hex_to_bytes, hex_to_bytes-bytes_to_hex,
}
use moonlight_embedded_crash.Client.Pair.Outcome.{gs_pair-outcome}
use moonlight_embedded_crash.Config.{Stream}
use moonlight_embedded_crash.Libc.Decimal.{atoi, strtol, signed_value, digits_value, skip_spaces}
use moonlight_embedded_crash.Xml.{
  Event, start_element, end_element, characters, xml_search, search_event, search_events,
  write_data,
}

abbrev field : Bytes → Bytes → List Event
field name value = start_element name ∷ characters value ∷ end_element name ∷ []

-- The answer of a host of version 7 that is paired, and takes every step of a pairing.
abbrev answer : List Event
answer =
    field (codes "currentgame") (codes "0")
    ++ (field (codes "PairStatus") (codes "1")
        ++ (field (codes "appversion") (codes "7.1.4")
            ++ (field (codes "state") (codes "MJOLNIR_STATE_SERVER_AVAILABLE")
                ++ (field (codes "paired") (codes "1")
                    ++ field (codes "gamesession") (codes "1")))))

abbrev pub network : Network
network = record {
  expat = λ text. record { events = answer; accepted = true };
  reply = λ sent url. record { pieces = codes "<root/>" ∷ []; succeeded = true };
  uuid = λ k. codes "uuid";
  unique_id = codes "0123456789abcdef";
}

abbrev pub crypto : Crypto
crypto = record {
  aes_encrypt = λ key block. block;
  aes_decrypt = λ key block. block;
  sha1 = λ s. s;
  sha256 = λ s. s;
  verify_signature = λ message signature cert. true;
  sign = λ s. some s;
  cert_hex = codes "00";
  cert_signature = [];
}

abbrev pub random : Random
random = record { salt_data = []; challenge_data = []; client_secret_data = []; stale = λ i. 0 }

abbrev pub fresh_server : Server
fresh_server = record {
  address = codes "10.0.0.2";
  gpu_type = none;
  paired = false;
  supports_4k = false;
  current_game = pos 0;
  major_version = pos 0;
  app_version = none;
  gfe_version = none;
}

abbrev pub before : Session
before = record { server = fresh_server; sent = []; body = [] }

abbrev pub full_hd : Stream
full_hd = record {
  width = pos 1920;
  height = pos 1080;
  fps = pos 60;
  bitrate = pos 20000;
  packet_size = pos 1024;
  streaming_remotely = pos 0;
  audio_configuration = pos 0;
  supports_hevc = false;
}

-- This host's version is found.
status_version : (load_server_status network before).0.server.major_version ≡ pos 7
unfolding load_server_status attempt http_request write_curl read_serverinfo search xml_search
    search_events search_event write_data fill_server check_version str_eq atoi strtol signed_value
    digits_value skip_spaces is_space to_int ◌+ℤ◌ ◌-ℤ◌ serverinfo_url
status_version = refl

load_server_status-requests_example :
    let r = load_server_status network before in
    ((r.0.sent ≡ [] ++ url network true before ∷ [])
      ⊎ (r.0.sent
          ≡ ([] ++ url network true before ∷ [])
            ++ url network false (attempt network true before).0 ∷ []))
    × (Succeeds r.1
        → (min_supported_gfe_version ≤ℤ r.0.server.major_version)
          × (r.0.server.major_version ≤ℤ max_supported_gfe_version))
load_server_status-requests_example = load_server_status-requests network before

gs_start_app-started_example :
    let r = gs_start_app network (pos 0) [] full_hd (pos 12) true false before in
    (Succeeds r.1
      → (leb_ℤ (pos 2160) (pos 1080) && not false ≡ false)
        × ((text : Bytes) × (r.0.sent ≡ [] ++ text ∷ [])
            × StartsAt network [] full_hd (pos 12) before text)
        × (r.0.server.current_game ≡ pos 12))
    × (leb_ℤ (pos 2160) (pos 1080) && not false ≡ true → r ≡ (before, fails gs_not_supported_4k))
gs_start_app-started_example =
    gs_start_app-started network (pos 0) [] full_hd (pos 12) true false before

gs_pair-outcome_example :
    let r = gs_pair network crypto random (codes "1234") before in
    (false ≡ true → r ≡ (before, fails gs_wrong_state))
    × (Succeeds r.1 → (false ≡ false) × (r.0.server ≡ record fresh_server { paired = true }))
    × (false ≡ false
        → (Succeeds r.1 → ⊥)
        → (r.0.server ≡ fresh_server)
          × ((earlier : List Bytes) × (ids : Bytes) × (r.0.sent
                ≡ earlier
                  ++ simple_url (codes "http://") fresh_server (codes ":47989/unpair") ids ∷ [])))
gs_pair-outcome_example = gs_pair-outcome network crypto random (codes "1234") before

hex_to_bytes-bytes_to_hex_example :
    hex_to_bytes (bytes_to_hex (0 ∷ 127 ∷ 255 ∷ [])) (9 ∷ 9 ∷ 9 ∷ 9 ∷ []) ≡ 0 ∷ 127 ∷ 255 ∷ 9 ∷ []
hex_to_bytes-bytes_to_hex_example =
    hex_to_bytes-bytes_to_hex (0 ∷ 127 ∷ 255 ∷ []) (9 ∷ 9 ∷ 9 ∷ 9 ∷ [])
      (omega arith, (omega arith, (omega arith, tt))) (omega arith)

-- A digit without a second one is a byte, and the byte is kept where there is no digit.
odd_text : hex_to_bytes (codes "4g1gg3") (9 ∷ 9 ∷ 9 ∷ []) ≡ 4 ∷ 1 ∷ 9 ∷ []
unfolding hex_to_bytes scan_byte skip_spaces is_space
odd_text = refl

gs_pair-Succeeds : Succeeds (gs_pair network crypto random (codes "1234") before).1
unfolding gs_pair end_pairing exchange get_certificate pair_request http_request expect_paired
    search xml_search str_eq search_events search_event write_data ◌+ℤ◌ ◌-ℤ◌ send_challenge
    send_response gs_unpair bytes_to_hex hex_to_bytes aes_key challenge_response finish_pairing hash
    secure_request send_secret write_curl
gs_pair-Succeeds = tt

gs_pair-Signed_example : Verifies network crypto random (codes "1234") before
gs_pair-Signed_example = gs_pair-Signed network crypto random (codes "1234") before gs_pair-Succeeds
