-- ===== src/Client/Pair/Verified.antt =====
-- That a pairing that succeeds went through the check of the host's signature.
use moonlight_embedded_crash.Client.{
  search, ◌>>◌, gs_failed, fail, return, Session, Result, ok, fails, Client, continue, Network,
}
use mathlib.Core.Path.{subst}
use moonlight_embedded_crash.Prelude.{
  drop, ◌≡◌, refl, ap, sym, inl, inr, true, not, ◌||◌, ◌++◌, if◌then◌else◌, Bool-cases, take, ◌∙◌,
}
use moonlight_embedded_crash.Prelude.Int.{pos, eq_ℤ}
use moonlight_embedded_crash.Prelude.Text.{Bytes, codes, str_eq, str_eq→eq}
use moonlight_embedded_crash.Client.Exchange.{Succeeds}
use moonlight_embedded_crash.Client.Pair.{
  Crypto, Random, new_buffer, aes_key, challenge_response, pair_request, expect_paired,
  get_certificate, send_challenge, send_response, send_secret, finish_pairing, exchange,
  end_pairing, gs_pair,
}
use moonlight_embedded_crash.Client.Hex.{hex_to_bytes}

-- A chain of two steps that succeeds has a first step that does.
continue-Succeeds :
    {A B : Type 0} (f : A → Client B) (p : Session × Result A)
    → Succeeds (continue f p).1
    → (s : Session) × (a : A) × (p ≡ (s, ok a)) × Succeeds (f a s).1
continue-Succeeds f (s, ok a) h = (s, a, refl, h)
continue-Succeeds f (s, fails e) h = absurd h

module _ (network : Network) (crypto : Crypto) (random : Random) where
  -- The secret that a text in hexadecimal stands for, and its signature behind it.
  abbrev pub secret_of : Bytes → Bytes
  secret_of text = hex_to_bytes text (new_buffer random 272)

  -- The certificate verifies the signature of a secret.
  abbrev pub Signed : Bytes → Bytes → Type 0
  Signed cert text =
      crypto.verify_signature (take 16 (secret_of text)) (drop 16 (secret_of text)) cert ≡ true

  -- The end of send_response.
  abbrev check : Bytes → Bytes → Client (Unit {0})
  check cert text =
      if crypto.verify_signature (take 16 (secret_of text)) (drop 16 (secret_of text)) cert
      then return tt
      else fail gs_failed

  check-Signed :
      (cert text : Bytes) (s : Session) → Succeeds (check cert text s).1 → Signed cert text
  check-Signed cert text s h =
      elim (Bool-cases
        (crypto.verify_signature (take 16 (secret_of text)) (drop 16 (secret_of text)) cert)) [
          | inl e ↦ e
          | inr e ↦ absurd (rw e at h)
        ]

  -- The request with the client's response was answered, the answer says that the host is paired,
  -- and the text of its `pairingsecret` is a secret with a signature that the certificate verifies.
  -- `before` is the session in which the request is made, and `asked` and `answered` are the ones
  -- that the request and the look at its answer leave.
  abbrev pub AnswersWithSigned : Bytes → Bytes → Session → Type 0
  AnswersWithSigned cert response before =
      (asked : Session) × (answered : Session) × (text : Bytes) × (pair_request network crypto
          random (codes "&serverchallengeresp=" ++ response) before
        ≡ (asked, ok tt))
      × (search network (codes "paired") asked ≡ (answered, ok (codes "1")))
      × ((search network (codes "pairingsecret") answered).1 ≡ ok text)
      × Signed cert text

  -- An answer that is expected to say so says that the host is paired.
  expect_paired-says :
      (s t : Session)
      → expect_paired network crypto random s ≡ (t, ok tt)
      → search network (codes "paired") s ≡ (t, ok (codes "1"))
  unfolding expect_paired
  expect_paired-says s t done =
      let judge : Bytes → Client (Unit {0}) =
        λ answer. if str_eq answer (codes "1") then return tt else fail gs_failed in
      let done_ok = subst (λ (p : Session × Result (Unit {0})). Succeeds p.1) (sym done) tt in
      let (s1, answer, found, judged) =
        continue-Succeeds judge (search network (codes "paired") s) done_ok in
      elim (Bool-cases (str_eq answer (codes "1"))) [
        | inl e ↦
            let ends : judge answer s1 ≡ (s1, ok tt) = rw e refl in
            let left : s1 ≡ t =
              ap (λ (p : Session × Result (Unit {0})). p.0)
                (sym ends ∙ sym (ap (continue judge) found) ∙ done) in
            found
            ∙ ap (λ x. (x, ok answer)) left
            ∙ ap (λ a. (t, ok a)) (str_eq→eq answer (codes "1") e)
        | inr e ↦ absurd (rw e at judged)
      ]

  send_response-Signed :
      (cert response : Bytes) (s : Session)
      → Succeeds (send_response network crypto random cert response s).1
      → AnswersWithSigned cert response s
  unfolding send_response
  send_response-Signed cert response s h =
      let read_secret : Unit {0} → Client (Unit {0}) =
        λ _ t. continue (check cert) (search network (codes "pairingsecret") t) in
      let expect : Unit {0} → Client (Unit {0}) =
        λ _ t. continue read_secret (expect_paired network crypto random t) in
      let (s1, u, requested, h1) =
        continue-Succeeds expect
          (pair_request network crypto random (codes "&serverchallengeresp=" ++ response) s) h in
      let (s2, v, expected, h2) =
        continue-Succeeds read_secret (expect_paired network crypto random s1) h1 in
      let (s3, text, found, h3) =
        continue-Succeeds (check cert) (search network (codes "pairingsecret") s2) h2 in
      (
        s1,
        s2,
        text,
        requested,
        expect_paired-says s1 s2 expected,
        ap (λ (p : Session × Result Bytes). p.1) found,
        check-Signed cert text s3 h3,
      )

  -- The steps of the exchange up to the check: the certificate, the answer to the challenge, and the
  -- response with its answer.
  abbrev pub Verifies : Bytes → Session → Type 0
  Verifies pin s =
      (cert : Bytes) × (s1 : Session) × (answer : Bytes) × (s2 : Session) × (get_certificate network
          crypto random s
        ≡ (s1, ok cert))
      × (send_challenge network crypto random (aes_key crypto random s.server pin) s1
          ≡ (s2, ok answer))
      × AnswersWithSigned cert
          (challenge_response crypto random s.server (aes_key crypto random s.server pin) answer) s2

  exchange-Signed :
      (pin : Bytes) (s : Session)
      → Succeeds (exchange network crypto random pin s).1
      → Verifies pin s
  unfolding exchange
  exchange-Signed pin s h =
      let key : Bytes = aes_key crypto random s.server pin in
      let last : Unit {0} → Client (Unit {0}) =
        λ _. send_secret network crypto random >> finish_pairing network crypto random in
      let second : Bytes → Bytes → Client (Unit {0}) = λ cert answer.
        send_response network crypto random cert
          (challenge_response crypto random s.server key answer)
        >> (send_secret network crypto random >> finish_pairing network crypto random) in
      let first : Bytes → Client (Unit {0}) =
        λ cert t. continue (second cert) (send_challenge network crypto random key t) in
      let (s1, cert, got, h1) =
        continue-Succeeds first (get_certificate network crypto random s) h in
      let (s2, answer, challenged, h2) =
        continue-Succeeds (second cert) (send_challenge network crypto random key s1) h1 in
      let response : Bytes = challenge_response crypto random s.server key answer in
      let (s3, _, done, _) =
        continue-Succeeds last (send_response network crypto random cert response s2) h2 in
      let sent_ok = subst (λ (p : Session × Result (Unit {0})). Succeeds p.1) (sym done) tt in
      (cert, s1, answer, s2, got, challenged, send_response-Signed cert response s2 sent_ok)

  end_pairing-Succeeds :
      (p : Session × Result (Unit {0}))
      → Succeeds (end_pairing network crypto random p).1
      → Succeeds p.1
  unfolding end_pairing
  end_pairing-Succeeds (s, ok a) h = tt
  end_pairing-Succeeds (s, fails e) h = absurd h

  -- A pairing that succeeds went through the check of the signature: the host gave a certificate, it
  -- answered the client's challenge and then the client's response, which it did with 1 for `paired`,
  -- and the certificate verifies the signature of the secret that is the text of `pairingsecret` in
  -- the host's answer to that response.
  pub gs_pair-Signed :
      (pin : Bytes) (s : Session)
      → Succeeds (gs_pair network crypto random pin s).1
      → Verifies pin s
  unfolding gs_pair
  gs_pair-Signed pin s h =
      elim (Bool-cases (s.server.paired || not (eq_ℤ s.server.current_game (pos 0)))) [
        | inl e ↦ absurd (rw e at h)
        | inr e ↦
            exchange-Signed pin s
              (end_pairing-Succeeds (exchange network crypto random pin s) (rw e at h))
      ]
