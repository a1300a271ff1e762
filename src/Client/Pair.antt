-- ===== src/Client/Pair.antt =====
-- gs_pair of libgamestream/client.c: pairing with a host in five requests. OpenSSL is a parameter,
-- and so are the random bytes.
pub mod Outcome
pub mod Verified
use mathlib.Core.Path.{subst}
use mathlib.Core.List.{append-nil, append_assoc}
use moonlight_embedded_crash.Prelude.{
  drop, ℕ, zero, suc, ◌+◌, ◌-◌, ◌*◌, ◌/◌, ◌%◌, ◌^◌, ◌≤◌, ◌<◌, ◌≡◌, refl, sym, ap, ◌∙◌, fun_ext, ◌≢◌,
  ◌↔◌, ◌⊎◌, inl, inr, Bool, true, false, not, ◌&&◌, ◌||◌, Option, none, some, List, [], ◌∷◌, ◌++◌,
  map, arith, ltb, leb, ◌==◌, if◌then◌else◌, ltb→lt, lt→ltb, leb→le, ==_iff, ==_refl, Bool-cases,
  Option-cases, length, get_elem?, set, take, length-append, length-set, get_elem?-set_self,
  get_elem?-set_ne,
}
use moonlight_embedded_crash.Prelude.Int.{
  ℤ, pos, negsuc, ◌+ℤ◌, ◌-ℤ◌, ◌*ℤ◌, quot, ◌≤ℤ◌, ◌<ℤ◌, ltb_ℤ, leb_ℤ, eq_ℤ, abs, to_short, to_char,
  to_int, IsShort, IsInt, int_laws, eq_of_parts, eq_ℤ_refl, eq_ℤ→eq,
}
use moonlight_embedded_crash.Prelude.Bits.{
  Bits, bits, no_bits, ◌|b◌, ◌&b◌, ~b, one_bit, sign_extend, all_below, eq_bits, nonzero, zero_bit,
  nonzero_of_bit, eq_bits_sound, eq_bits_intro,
}
use moonlight_embedded_crash.Prelude.Text.{Bytes, codes, str_eq, is_space, str_eq_refl, str_eq→eq}
use moonlight_embedded_crash.Prelude.Process.{Process, running, exited, exit_failure, minus_one}
use moonlight_embedded_crash.Client.{
  GsError, gs_failed, gs_invalid, gs_wrong_state, Server, Session, Result, ok, fails, Client,
  continue, ◌>>=◌, ◌>>◌, return, fail, modify, create_data, Network, http_request, search,
}
use moonlight_embedded_crash.Client.App.{gs_unpair, identity}
use moonlight_embedded_crash.Client.Hex.{bytes_to_hex, hex_to_bytes}

-- The functions of OpenSSL: AES on a block with a 128-bit key, the hashes, verifySignature, sign_it
-- with the client's key, and the client's certificate as text in hexadecimal and its signature.
pub record Crypto : Type 0 where
  pub aes_encrypt : Bytes → Bytes → Bytes
  pub aes_decrypt : Bytes → Bytes → Bytes
  pub sha1 : Bytes → Bytes
  pub sha256 : Bytes → Bytes
  pub verify_signature : Bytes → Bytes → Bytes → Bool
  pub sign : Bytes → Option Bytes
  pub cert_hex : Bytes
  pub cert_signature : Bytes

-- The results of RAND_bytes, and what a new buffer holds at each place.
pub record Random : Type 0 where
  pub salt_data : Bytes
  pub challenge_data : Bytes
  pub client_secret_data : Bytes
  pub stale : ℕ → ℕ

abbrev places : ℕ → ℕ → (ℕ → ℕ) → Bytes
places zero i f = []
places (suc n) i f = f i ∷ places n (suc i) f

-- A buffer of `n` bytes that nothing was written to.
unfoldable pub new_buffer : Random → ℕ → Bytes
new_buffer random n = places n 0 random.stale

-- Bytes written to the start of a buffer of `n`.
abbrev written_to : Random → ℕ → Bytes → Bytes
written_to random n bytes = take n (bytes ++ drop (length bytes) (new_buffer random n))

-- `n` blocks of 16 bytes.
abbrev each_block : ℕ → (Bytes → Bytes) → Bytes → Bytes
each_block zero f s = []
each_block (suc n) f s = f (take 16 s) ++ each_block n f (drop 16 s)

module _ (crypto : Crypto) (random : Random) where
  abbrev is_new : Server → Bool
  is_new server = leb_ℤ (pos 7) server.major_version

  -- SHA256 or SHA1 into a buffer of 32 bytes.
  unfoldable pub hash : Server → Bytes → Bytes
  unfolding new_buffer
  hash server text =
      if is_new server then crypto.sha256 text else written_to random 32 (crypto.sha1 text)

  abbrev pub hash_length : Server → ℕ
  hash_length server = if is_new server then 32 else 20

  -- The AES key from the salt and the first four bytes of the pin.
  unfoldable pub aes_key : Server → Bytes → Bytes
  aes_key server pin = take 16 (hash server (random.salt_data ++ take 4 pin))

  -- challenge_response_hex, from the text of the host's answer.
  unfoldable pub challenge_response : Server → Bytes → Bytes → Bytes
  challenge_response server key answer =
      let encrypted = hex_to_bytes answer (new_buffer random 48) in
      let decrypted = each_block 3 (crypto.aes_decrypt key) encrypted in
      let response =
        take 16 (drop (hash_length server) decrypted)
        ++ (take 256 crypto.cert_signature ++ random.client_secret_data) in
      bytes_to_hex (each_block 2 (crypto.aes_encrypt key) (hash server response))

module _ (network : Network) (crypto : Crypto) (random : Random) where
  -- A request of the pairing over HTTP, with its parameters behind the ids.
  unfoldable pub pair_request : Bytes → Client (Unit {0})
  pair_request parameters s =
      http_request network
        (codes "http://"
          ++ (s.server.address
              ++ (codes ":47989/pair"
                  ++ (identity network.unique_id (network.uuid (length s.sent))
                      ++ (codes "&devicename=roth&updateState=1" ++ parameters)))))
        s

  -- The last request, over HTTPS.
  unfoldable pub secure_request : Client (Unit {0})
  secure_request s =
      http_request network
        (codes "https://"
          ++ (s.server.address
              ++ (codes ":47984/pair"
                  ++ (identity network.unique_id (network.uuid (length s.sent))
                      ++ codes "&devicename=roth&updateState=1&phrase=pairchallenge"))))
        s

  -- The answer has the text 1 for `paired`.
  unfoldable pub expect_paired : Client (Unit {0})
  expect_paired = do
    answer ← search network (codes "paired")
    if str_eq answer (codes "1") then return tt else fail gs_failed

  -- The host's certificate, up to the zero byte that is written behind it: half the length of the
  -- text, so that an odd digit at its end is lost.
  unfoldable pub get_certificate : Client Bytes
  get_certificate = do
    create_data
    pair_request (
        codes "&phrase=getservercert&salt="
        ++ (bytes_to_hex random.salt_data ++ (codes "&clientcert=" ++ crypto.cert_hex)))
    expect_paired
    answer ← search network (codes "plaincert")
    if ltb 8191 (length answer / 2)
        then fail gs_failed
        else return (take (length answer / 2) (hex_to_bytes answer (new_buffer random 8192)))

  -- The host's answer to the client's challenge.
  unfoldable pub send_challenge : Bytes → Client Bytes
  send_challenge key = do
    pair_request
        (codes "&clientchallenge=" ++ bytes_to_hex (crypto.aes_encrypt key random.challenge_data))
    expect_paired
    search network (codes "challengeresponse")

  -- The host's secret, which its certificate has to have signed.
  unfoldable pub send_response : Bytes → Bytes → Client (Unit {0})
  send_response plaincert response = do
    pair_request (codes "&serverchallengeresp=" ++ response)
    expect_paired
    answer ← search network (codes "pairingsecret")
    let secret = hex_to_bytes answer (new_buffer random 272) in
        if crypto.verify_signature (take 16 secret) (drop 16 secret) plaincert
        then return tt
        else fail gs_failed

  abbrev signed : Option Bytes → Client Bytes
  signed none = fail gs_failed
  signed (some signature) = return signature

  -- The client's secret with its signature.
  unfoldable pub send_secret : Client (Unit {0})
  send_secret = do
    signature ← signed (crypto.sign random.client_secret_data)
    pair_request (
        codes "&clientpairingsecret="
        ++ bytes_to_hex (random.client_secret_data ++ take 256 signature))
    expect_paired

  unfoldable pub finish_pairing : Client (Unit {0})
  finish_pairing = do secure_request; expect_paired

  -- Everything up to `server->paired = true`.
  unfoldable pub exchange : Bytes → Client (Unit {0})
  exchange pin s =
      let key = aes_key crypto random s.server pin in
      (get_certificate >>= λ plaincert. send_challenge key >>= λ answer.
      send_response plaincert (challenge_response crypto random s.server key answer)
      >> (send_secret >> finish_pairing))
        s

  -- From there: a failure unpairs.
  unfoldable pub end_pairing : Session × Result (Unit {0}) → Session × Result (Unit {0})
  end_pairing (s, ok a) = (record s { server = record (s.server) { paired = true } }, ok a)
  end_pairing (s, fails e) = ((gs_unpair network s).0, fails e)

  unfoldable pub gs_pair : Bytes → Client (Unit {0})
  gs_pair pin s =
      if s.server.paired || not (eq_ℤ s.server.current_game (pos 0))
      then (s, fails gs_wrong_state)
      else end_pairing (exchange pin s)
