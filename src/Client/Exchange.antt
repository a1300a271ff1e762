-- ===== src/Client/Exchange.antt =====
-- Which requests the functions of the client make, and what their success means.
use mathlib.Core.Path.{subst}
use moonlight_embedded_crash.Prelude.{
  ◌≡◌, refl, sym, ap, ◌∙◌, ◌⊎◌, inl, inr, Bool, true, false, not, ◌&&◌, [], ◌∷◌, ◌++◌, arith,
  if◌then◌else◌, Bool-cases, length,
}
use moonlight_embedded_crash.Prelude.Int.{eq_ℤ, ℤ, pos, ◌≤ℤ◌, ltb_ℤ, leb_ℤ, not_ltb_ℤ→le}
use moonlight_embedded_crash.Prelude.Text.{Bytes, codes}
use moonlight_embedded_crash.Client.{
  gs_invalid, gs_not_supported_4k, Session, Result, ok, fails, Client, continue, ◌>>=◌, fail,
  modify, Network, write_curl, http_request, search,
}
use moonlight_embedded_crash.Client.Status.{
  serverinfo_url, fill_server, read_serverinfo, attempt, second_attempt, check_version,
  load_server_status, min_supported_gfe_version, max_supported_gfe_version,
}
use moonlight_embedded_crash.Client.App.{
  identity, launch_url, resume_url, start_url, start, gs_start_app, not_refused,
}
use moonlight_embedded_crash.Config.{Stream}
use moonlight_embedded_crash.Libc.Decimal.{print_int}

abbrev pub Succeeds : {A : Type 0} → Result A → Type 0
Succeeds (ok a) = Unit
Succeeds (fails e) = ⊥

-- The step makes no request, and keeps the address of the host.
abbrev Quiet : {A : Type 0} → Client A → Type 0
Quiet m = (s : Session) → ((m s).0.sent ≡ s.sent) × ((m s).0.server.address ≡ s.server.address)

continue-Quiet :
    {A B : Type 0} (f : A → Client B) (s : Session) (p : Session × Result A)
    → ((a : A) → Quiet (f a))
    → (p.0.sent ≡ s.sent) × (p.0.server.address ≡ s.server.address)
    → ((continue f p).0.sent ≡ s.sent) × ((continue f p).0.server.address ≡ s.server.address)
continue-Quiet f s (s', ok a) k h = ((k a s').0 ∙ h.0, (k a s').1 ∙ h.1)
continue-Quiet f s (s', fails e) k h = h

then-Quiet :
    {A B : Type 0} (m : Client A) (f : A → Client B)
    → Quiet m
    → ((a : A) → Quiet (f a))
    → Quiet (m >>= f)
then-Quiet m f h k s = continue-Quiet f s (m s) k (h s)

module _ (network : Network) where
  search-Quiet : (node : Bytes) → Quiet (search network node)
  unfolding search
  search-Quiet node s = (refl, refl)

  fill-Quiet :
      (b : Bool) (game paired version state height : Bytes)
      → Quiet (if b then fail gs_invalid else modify (fill_server game paired version state height))
  unfolding fill_server
  fill-Quiet true game paired version state height s = (refl, refl)
  fill-Quiet false game paired version state height s = (refl, refl)

  read_serverinfo-Quiet : Quiet (read_serverinfo network)
  unfolding read_serverinfo search fill_server
  read_serverinfo-Quiet s = (ground arith, ground arith)

  abbrev pub url : Bool → Session → Bytes
  url secure s =
      serverinfo_url secure s.server.address network.unique_id (network.uuid (length s.sent))

  attempt-sent :
      (secure : Bool) (s : Session)
      → ((attempt network secure s).0.sent ≡ s.sent ++ url secure s ∷ [])
        × ((attempt network secure s).0.server.address ≡ s.server.address)
  unfolding attempt http_request
  attempt-sent secure s =
      let t : Session = record s { body = [] } in
      let r = network.reply s.sent (url secure s) in
      elim (Bool-cases r.succeeded) [
        | inl e ↦ rw e (
            read_serverinfo-Quiet
              (record s { sent = s.sent ++ url secure s ∷ []; body = write_curl r.pieces [] }))
        | inr e ↦ rw e (refl, refl)
      ]

  check_version-same : (s : Session) → (check_version network s).0 ≡ s
  unfolding check_version
  check_version-same s = ground arith

  check_version-supported :
      (s : Session)
      → Succeeds (check_version network s).1
      → (min_supported_gfe_version ≤ℤ s.server.major_version)
        × (s.server.major_version ≤ℤ max_supported_gfe_version)
  unfolding check_version
  check_version-supported s h =
      elim (Bool-cases (ltb_ℤ max_supported_gfe_version s.server.major_version)) [
        | inl e ↦ absurd (rw e at h)
        | inr e ↦ elim (Bool-cases (ltb_ℤ s.server.major_version min_supported_gfe_version)) [
          | inl f ↦ absurd (rw (e, f) at h)
          | inr f ↦ (
            not_ltb_ℤ→le s.server.major_version min_supported_gfe_version f,
            not_ltb_ℤ→le max_supported_gfe_version s.server.major_version e,
          )
        ]
      ]

  second_attempt-sent :
      (s : Session) (p : Session × Result (Unit {0}))
      → (p.0.sent ≡ s.sent ++ url true s ∷ []) × (p.0.server.address ≡ s.server.address)
      → let q = second_attempt network p in
        (q.0.sent ≡ s.sent ++ url true s ∷ [])
        ⊎ (q.0.sent ≡ (s.sent ++ url true s ∷ []) ++ url false p.0 ∷ [])
  second_attempt-sent s (s', ok a) h = inl h.0
  second_attempt-sent s (s', fails e) h =
      inr ((attempt-sent false s').0 ∙ ap (λ l. l ++ url false s' ∷ []) h.0)

  continue-check_version :
      (p : Session × Result (Unit {0})) → (continue (λ _. check_version network) p).0 ≡ p.0
  continue-check_version (s, ok a) = check_version-same s
  continue-check_version (s, fails e) = refl

  continue-supported :
      (p : Session × Result (Unit {0}))
      → let r = continue (λ _. check_version network) p in
        Succeeds r.1
        → (min_supported_gfe_version ≤ℤ r.0.server.major_version)
          × (r.0.server.major_version ≤ℤ max_supported_gfe_version)
  continue-supported (s, ok a) h =
      subst
        (λ (x : Session).
          (min_supported_gfe_version ≤ℤ x.server.major_version)
          × (x.server.major_version ≤ℤ max_supported_gfe_version))
        (sym (check_version-same s)) (check_version-supported s h)
  continue-supported (s, fails e) h = absurd h

  -- The status of a host is asked for over HTTPS, and only then, if at all, over HTTP: one or two
  -- requests are made, in this order, and no other. When it succeeds, the host's major version is
  -- one of those that the client supports.
  pub load_server_status-requests :
      (s : Session)
      → let r = load_server_status network s in
        ((r.0.sent ≡ s.sent ++ url true s ∷ [])
          ⊎ (r.0.sent ≡ (s.sent ++ url true s ∷ []) ++ url false (attempt network true s).0 ∷ []))
        × (Succeeds r.1
            → (min_supported_gfe_version ≤ℤ r.0.server.major_version)
              × (r.0.server.major_version ≤ℤ max_supported_gfe_version))
  unfolding load_server_status
  load_server_status-requests s = (
    rw (continue-check_version (second_attempt network (attempt network true s)))
        (second_attempt-sent s (attempt network true s) (attempt-sent true s)),
    continue-supported (second_attempt network (attempt network true s)),
  )

  not_refused-same : (node : Bytes) (s : Session) → (not_refused network node s).0 ≡ s
  unfolding not_refused search
  not_refused-same node s = ground arith

  -- Where no game is current, the URL launches the app with its id, in the size and the rate of the
  -- stream, and `rest` is what follows these parameters; otherwise it resumes with the key.
  abbrev pub StartsAt : Bytes → Stream → ℤ → Session → Bytes → Type 0
  StartsAt rikey config app_id s text =
      let ids = identity network.unique_id (network.uuid (length s.sent)) in
      (rest : Bytes) × (text
        ≡ codes "https://"
          ++ (s.server.address
              ++ (if eq_ℤ s.server.current_game (pos 0)
                  then codes ":47984/launch"
                    ++ (ids
                        ++ (codes "&appid="
                            ++ (print_int app_id
                                ++ (codes "&mode="
                                    ++ (print_int config.width
                                        ++ (codes "x"
                                            ++ (print_int config.height
                                                ++ (codes "x"
                                                    ++ (print_int config.fps ++ rest)))))))))
                  else codes ":47984/resume"
                    ++ (ids ++ (codes "&rikey=" ++ (rikey ++ codes "&rikeyid=0"))))))

  start_url-StartsAt :
      (stereo : ℤ) (rikey : Bytes) (config : Stream) (app_id : ℤ) (sops localaudio : Bool)
      (s : Session)
      → StartsAt rikey config app_id s
          (start_url network stereo rikey config app_id sops localaudio s)
  unfolding start_url launch_url resume_url
  start_url-StartsAt stereo rikey config app_id sops localaudio s =
      elim (Bool-cases (eq_ℤ s.server.current_game (pos 0))) [
        | inl e ↦ rw e (_, refl)
        | inr e ↦ rw e ([], refl)
      ]

  -- An app is started only where the height is below 2160 or the host can do 4K; then exactly one
  -- request was made, whose URL launches the app where no game is current, with the id of the app
  -- and the size and the rate of the stream, and resumes with the key of the stream otherwise; and
  -- the app is the current game. Where the host cannot do it, nothing is requested and nothing changes.
  pub gs_start_app-started :
      (stereo : ℤ) (rikey : Bytes) (config : Stream) (app_id : ℤ) (sops localaudio : Bool)
      (s : Session)
      → let r = gs_start_app network stereo rikey config app_id sops localaudio s in
        (Succeeds r.1
          → (leb_ℤ (pos 2160) config.height && not s.server.supports_4k ≡ false)
            × ((text : Bytes) × (r.0.sent ≡ s.sent ++ text ∷ [])
                × StartsAt rikey config app_id s text)
            × (r.0.server.current_game ≡ app_id))
        × (leb_ℤ (pos 2160) config.height && not s.server.supports_4k ≡ true
            → r ≡ (s, fails gs_not_supported_4k))
  unfolding gs_start_app start http_request not_refused search start_url print_int
  gs_start_app-started stereo rikey config app_id sops localaudio s =
      elim (Bool-cases (leb_ℤ (pos 2160) config.height && not s.server.supports_4k)) [
        | inl e ↦ rw e ((λ h. absurd h), (λ _. refl))
        | inr e ↦
            (let t : Session = record s { body = [] } in
              let u : Bytes = start_url network stereo rikey config app_id sops localaudio s in
              let r = network.reply s.sent u in
              let after : Session = record s {
                server = record (s.server) { current_game = app_id };
                sent = s.sent ++ u ∷ [];
                body = write_curl r.pieces [];
              } in
              elim (Bool-cases r.succeeded) [
                | inl f ↦
                    rw (e, f)
                      (
                        (λ h. (
                          refl,
                          (
                            u,
                            ap (λ (x : Session). x.sent)
                                (not_refused-same (codes "gamesession") after),
                            start_url-StartsAt stereo rikey config app_id sops localaudio s,
                          ),
                          ap (λ (x : Session). x.server.current_game)
                              (not_refused-same (codes "gamesession") after),
                        )),
                        (λ h. cc),
                      )
                | inr f ↦ rw (e, f) ((λ h. absurd h), (λ h. cc))
              ])
      ]
