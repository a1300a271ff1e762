-- ===== src/Client/Pair/Outcome.antt =====
-- What gs_pair leaves behind, whether it succeeds or not.
use moonlight_embedded_crash.Client.{
  ◌>>◌, gs_wrong_state, Server, Session, Result, ok, fails, Client, continue, Network, http_request,
  search,
}
use moonlight_embedded_crash.Prelude.{
  ◌≡◌, refl, ap, ◌∙◌, inl, inr, true, false, not, ◌||◌, List, [], ◌∷◌, ◌++◌, arith, Bool-cases,
  length,
}
use moonlight_embedded_crash.Prelude.Int.{pos, eq_ℤ}
use moonlight_embedded_crash.Prelude.Text.{Bytes, codes}
use moonlight_embedded_crash.Client.App.{gs_unpair, identity, simple_url}
use moonlight_embedded_crash.Client.Exchange.{Succeeds}
use moonlight_embedded_crash.Client.Pair.{
  Crypto, Random, aes_key, challenge_response, pair_request, secure_request, expect_paired,
  get_certificate, send_challenge, send_response, send_secret, finish_pairing, exchange,
  end_pairing, gs_pair,
}

-- The step leaves the server's data alone.
abbrev Keeps : {A : Type 0} → Client A → Type 0
Keeps m = (s : Session) → (m s).0.server ≡ s.server

continue-Keeps :
    {A B : Type 0} (f : A → Client B) (s : Session) (p : Session × Result A)
    → ((a : A) → Keeps (f a))
    → p.0.server ≡ s.server
    → (continue f p).0.server ≡ s.server
continue-Keeps f s (s', ok a) k h = k a s' ∙ h
continue-Keeps f s (s', fails e) k h = h

module _ (network : Network) (crypto : Crypto) (random : Random) where
  get_certificate-Keeps : Keeps (get_certificate network crypto random)
  unfolding get_certificate pair_request expect_paired http_request search
  get_certificate-Keeps s = ground arith

  send_challenge-Keeps : (key : Bytes) → Keeps (send_challenge network crypto random key)
  unfolding send_challenge pair_request expect_paired http_request search
  send_challenge-Keeps key s = ground arith

  send_response-Keeps :
      (plaincert response : Bytes) → Keeps (send_response network crypto random plaincert response)
  unfolding send_response pair_request expect_paired http_request search
  send_response-Keeps plaincert response s = ground arith

  send_secret-Keeps : Keeps (send_secret network crypto random)
  unfolding send_secret pair_request expect_paired http_request search
  send_secret-Keeps s = ground arith

  finish_pairing-Keeps : Keeps (finish_pairing network crypto random)
  unfolding finish_pairing secure_request expect_paired http_request search
  finish_pairing-Keeps s = ground arith

  exchange-Keeps : (pin : Bytes) → Keeps (exchange network crypto random pin)
  unfolding exchange
  exchange-Keeps pin s =
      let key : Bytes = aes_key crypto random s.server pin in
      let last : Unit {0} → Client (Unit {0}) = λ _. finish_pairing network crypto random in
      let third : Unit {0} → Client (Unit {0}) =
        λ _. send_secret network crypto random >> finish_pairing network crypto random in
      let second : Bytes → Bytes → Client (Unit {0}) = λ plaincert answer.
        send_response network crypto random plaincert
          (challenge_response crypto random s.server key answer)
        >> (send_secret network crypto random >> finish_pairing network crypto random) in
      let first : Bytes → Client (Unit {0}) =
        λ plaincert t. continue (second plaincert) (send_challenge network crypto random key t) in
      continue-Keeps first s (get_certificate network crypto random s)
        (λ plaincert s1.
          continue-Keeps (second plaincert) s1 (send_challenge network crypto random key s1)
            (λ answer s2.
              let response : Bytes = challenge_response crypto random s.server key answer in
              continue-Keeps third s2 (send_response network crypto random plaincert response s2)
                (λ _ s3.
                  continue-Keeps last s3 (send_secret network crypto random s3)
                    (λ _. finish_pairing-Keeps) (send_secret-Keeps s3))
                (send_response-Keeps plaincert response s2))
            (send_challenge-Keeps key s1))
        (get_certificate-Keeps s)

  end_pairing-outcome :
      (s : Session) (p : Session × Result (Unit {0}))
      → p.0.server ≡ s.server
      → let r = end_pairing network crypto random p in
        (Succeeds r.1 → r.0.server ≡ record (s.server) { paired = true })
        × ((Succeeds r.1 → ⊥)
            → (r.0.server ≡ s.server)
              × ((before : List Bytes) × (ids : Bytes) × (r.0.sent
                    ≡ before
                      ++ simple_url (codes "http://") s.server (codes ":47989/unpair") ids ∷ [])))
  unfolding end_pairing gs_unpair http_request
  end_pairing-outcome s (s', ok a) h =
      ((λ _. ap (λ (v : Server). record v { paired = true }) h), (λ n. absurd (n tt)))
  end_pairing-outcome s (s', fails e) h = (
    (λ f. absurd f),
    (λ n. (
      h,
      (
        s'.sent,
        identity network.unique_id (network.uuid (length s'.sent)),
        ap
            (λ (v : Server).
              s'.sent
              ++ simple_url (codes "http://") v (codes ":47989/unpair")
                  (identity network.unique_id (network.uuid (length s'.sent)))
                ∷ [])
            h,
      ),
    )),
  )

  -- Pairing with a host that is paired or runs a game is refused, with no request. Otherwise, when
  -- it succeeds, the host counts as paired and nothing else of its data has changed; when it fails,
  -- none of the data has changed, and the last request asks the host to forget the pairing.
  pub gs_pair-outcome :
      (pin : Bytes) (s : Session)
      → let r = gs_pair network crypto random pin s in
        let refused = s.server.paired || not (eq_ℤ s.server.current_game (pos 0)) in
        (refused ≡ true → r ≡ (s, fails gs_wrong_state))
        × (Succeeds r.1 → (refused ≡ false) × (r.0.server ≡ record (s.server) { paired = true }))
        × (refused ≡ false
            → (Succeeds r.1 → ⊥)
            → (r.0.server ≡ s.server)
              × ((before : List Bytes) × (ids : Bytes) × (r.0.sent
                    ≡ before
                      ++ simple_url (codes "http://") s.server (codes ":47989/unpair") ids ∷ [])))
  unfolding gs_pair
  gs_pair-outcome pin s =
      let (yes_, no_) =
        end_pairing-outcome s (exchange network crypto random pin s) (exchange-Keeps pin s) in
      elim (Bool-cases (s.server.paired || not (eq_ℤ s.server.current_game (pos 0)))) [
        | inl e ↦ rw e ((λ _. refl), (λ h. absurd h), (λ f. cc))
        | inr e ↦ rw e ((λ f. cc), (λ h. (refl, yes_ h)), (λ _. no_))
      ]
