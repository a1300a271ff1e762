-- ===== src/Client/Status.antt =====
-- load_server_status of libgamestream/client.c.
use moonlight_embedded_crash.Prelude.{
  Bool, true, false, ◌&&◌, ◌||◌, some, [], ◌∷◌, ◌++◌, ◌==◌, if◌then◌else◌, length,
}
use moonlight_embedded_crash.Prelude.Int.{ℤ, pos, ltb_ℤ, leb_ℤ}
use moonlight_embedded_crash.Prelude.Text.{Bytes, codes, str_eq}
use moonlight_embedded_crash.Client.{
  gs_invalid, gs_io_error, gs_unsupported_version, Server, Session, Result, ok, fails, Client,
  continue, ◌>>=◌, ◌>>◌, fail, modify, create_data, Network, http_request, search, or_error,
}
use moonlight_embedded_crash.Libc.Decimal.{atoi}

abbrev pub is_prefix : Bytes → Bytes → Bool
is_prefix [] t = true
is_prefix (_ ∷ _) [] = false
is_prefix (a ∷ s) (b ∷ t) = a == b && is_prefix s t

-- strstr(text, part) != NULL
abbrev pub contains : Bytes → Bytes → Bool
contains part [] = is_prefix part []
contains part (c ∷ s) = is_prefix part (c ∷ s) || contains part s

abbrev pub is_empty : Bytes → Bool
is_empty [] = true
is_empty (_ ∷ _) = false

-- The URL of the first attempt, over HTTPS, and of the second.
unfoldable pub serverinfo_url : Bool → Bytes → Bytes → Bytes → Bytes
serverinfo_url secure address unique_id uuid =
    (if secure then codes "https" else codes "http")
    ++ (codes "://"
        ++ (address
            ++ ((if secure then codes ":47984" else codes ":47989")
                ++ (codes "/serverinfo?uniqueid=" ++ (unique_id ++ (codes "&uuid=" ++ uuid))))))

-- The assignments to the server's data at the end of an attempt.
unfoldable pub fill_server : Bytes → Bytes → Bytes → Bytes → Bytes → Server → Server
fill_server game paired version state height server = record server {
  paired = str_eq paired (codes "1");
  current_game = if contains (codes "_SERVER_AVAILABLE") state then pos 0 else atoi game;
  supports_4k = leb_ℤ (pos 2160) (atoi height);
  major_version = atoi version;
}

abbrev pub min_supported_gfe_version : ℤ
min_supported_gfe_version = pos 3

abbrev pub max_supported_gfe_version : ℤ
max_supported_gfe_version = pos 7

module _ (network : Network) where
  abbrev serverinfo : Bool → Session → Bytes
  serverinfo secure s =
      serverinfo_url secure s.server.address network.unique_id (network.uuid (length s.sent))

  -- What an attempt reads from the answer.
  unfoldable pub read_serverinfo : Client (Unit {0})
  read_serverinfo = do
    game ← search network (codes "currentgame")
    paired ← search network (codes "PairStatus")
    version ← search network (codes "appversion")
    modify (λ server. record server { app_version = some version })
    state ← search network (codes "state")
    height ← search network (codes "Height")
    codecs ← search network (codes "ServerCodecModeSupport")
    gpu ← search network (codes "gputype")
    modify (λ server. record server { gpu_type = some gpu })
    gfe ← search network (codes "GfeVersion")
    modify (λ server. record server { gfe_version = some gfe })
    if is_empty game || is_empty paired || is_empty version || is_empty state
        then fail gs_invalid
        else modify (fill_server game paired version state height)

  -- The body of the loop.
  unfoldable pub attempt : Bool → Client (Unit {0})
  attempt secure = do
    create_data
    or_error gs_io_error (λ s. http_request network (serverinfo secure s) s)
    read_serverinfo

  abbrev pub second_attempt : Session × Result (Unit {0}) → Session × Result (Unit {0})
  second_attempt (s, ok a) = (s, ok a)
  second_attempt (s, fails e) = attempt false s

  unfoldable pub check_version : Client (Unit {0})
  check_version s =
      if ltb_ℤ max_supported_gfe_version s.server.major_version
      then (s, fails gs_unsupported_version)
      else if ltb_ℤ s.server.major_version min_supported_gfe_version
      then (s, fails gs_unsupported_version)
      else (s, ok tt)

  unfoldable pub load_server_status : Client (Unit {0})
  load_server_status s = continue (λ _. check_version) (second_attempt (attempt true s))
