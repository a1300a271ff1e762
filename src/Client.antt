-- ===== src/Client.antt =====
-- libgamestream/client.c over http.c and xml.c: the exchange with the host. This file has the data,
-- and the steps that the functions are made of: a request, a search in the answer, and `goto
-- cleanup` with a status.
pub mod Status
pub mod App
pub mod Hex
pub mod Pair
pub mod Exchange
pub mod Init
use mathlib.Core.Path.{subst}
use mathlib.Core.List.{append-nil, append_assoc}
use moonlight_embedded_crash.Prelude.{
  ℕ, zero, suc, ◌+◌, ◌-◌, ◌*◌, ◌/◌, ◌%◌, ◌^◌, ◌≤◌, ◌<◌, ◌≡◌, refl, sym, ap, ◌∙◌, fun_ext, ◌≢◌, ◌↔◌,
  ◌⊎◌, inl, inr, Bool, true, false, not, ◌&&◌, ◌||◌, Option, none, some, List, [], ◌∷◌, ◌++◌, map,
  arith, ltb, leb, ◌==◌, if◌then◌else◌, ltb→lt, lt→ltb, leb→le, ==_iff, ==_refl, Bool-cases,
  Option-cases, length, get_elem?, set, take, length-append, length-set, get_elem?-set_self,
  get_elem?-set_ne,
}
use moonlight_embedded_crash.Prelude.Int.{
  ℤ, pos, negsuc, ◌+ℤ◌, ◌-ℤ◌, ◌*ℤ◌, quot, ◌≤ℤ◌, ◌<ℤ◌, ltb_ℤ, leb_ℤ, eq_ℤ, abs, to_short, to_char,
  to_int, IsShort, IsInt, int_laws, eq_of_parts, eq_ℤ_refl, eq_ℤ→eq,
}
use moonlight_embedded_crash.Prelude.Bits.{
  Bits, bits, no_bits, ◌|b◌, ◌&b◌, ~b, one_bit, sign_extend, all_below, eq_bits, nonzero, zero_bit,
  nonzero_of_bit, eq_bits_sound, eq_bits_intro,
}
use moonlight_embedded_crash.Prelude.Text.{Bytes, codes, str_eq, is_space, str_eq_refl, str_eq→eq}
use moonlight_embedded_crash.Prelude.Process.{Process, running, exited, exit_failure, minus_one}
use moonlight_embedded_crash.Xml.{Expat, xml_search}

-- errors.h: GS_FAILED, GS_INVALID, GS_WRONG_STATE, GS_IO_ERROR, GS_NOT_SUPPORTED_4K and
-- GS_UNSUPPORTED_VERSION. GS_OK is the result `ok`.
pub data GsError : Type 0 where
  gs_failed gs_invalid gs_wrong_state gs_io_error gs_not_supported_4k gs_unsupported_version :
      GsError

-- SERVER_DATA, with the fields of SERVER_INFORMATION that the program names.
pub record Server : Type 0 where
  pub address : Bytes
  pub gpu_type : Option Bytes
  pub paired : Bool
  pub supports_4k : Bool
  pub current_game : ℤ
  pub major_version : ℤ
  pub app_version : Option Bytes
  pub gfe_version : Option Bytes

-- What curl_easy_perform does for a request: the pieces of the body that it passes to _write_curl,
-- and whether it returns CURLE_OK.
pub record Reply : Type 0 where
  pub pieces : List Bytes
  pub succeeded : Bool

-- The server's data, the URLs that were requested so far, and the body of the last answer.
pub record Session : Type 0 where
  pub server : Server
  pub sent : List Bytes
  pub body : Bytes

pub data Result (A : Type 0) : Type 0 where
  ok : A → Result A
  fails : GsError → Result A

abbrev pub Client : Type 0 → Type 0
Client A = Session → Session × Result A

abbrev pub continue : {A B : Type 0} → (A → Client B) → Session × Result A → Session × Result B
continue f (s, ok a) = f a s
continue f (s, fails e) = (s, fails e)

infixl 5 ◌>>=◌ ◌>>◌
abbrev pub ◌>>=◌ : {A B : Type 0} → Client A → (A → Client B) → Client B
(m >>= f) s = continue f (m s)

abbrev pub ◌>>◌ : {A B : Type 0} → Client A → Client B → Client B
(m >> n) s = continue (λ _. n) (m s)

abbrev pub return : {A : Type 0} → A → Client A
return a s = (s, ok a)

abbrev pub fail : {A : Type 0} → GsError → Client A
fail e s = (s, fails e)

abbrev pub modify : (Server → Server) → Client (Unit {0})
modify f s = (record s { server = f s.server }, ok tt)

-- http_create_data
abbrev pub create_data : Client (Unit {0})
create_data s = (record s { body = [] }, ok tt)

-- _write_curl, for all pieces.
unfoldable pub write_curl : List Bytes → Bytes → Bytes
write_curl [] body = body
write_curl (piece ∷ pieces) body = write_curl pieces (body ++ piece)

-- The libraries and the other side: expat, the host's reply to a URL after earlier ones, and the
-- text of the random uuid for the request of a number.
pub record Network : Type 0 where
  pub expat : Expat
  pub reply : List Bytes → Bytes → Reply
  pub uuid : ℕ → Bytes
  pub unique_id : Bytes

module _ (network : Network) where
  -- http_request
  unfoldable pub http_request : Bytes → Client (Unit {0})
  http_request url s =
      let reply = network.reply s.sent url in
      (
        record s { sent = s.sent ++ url ∷ []; body = write_curl reply.pieces [] },
        if reply.succeeded then ok tt else fails gs_failed,
      )

  abbrev found : Option Bytes → Result Bytes
  found none = fails gs_invalid
  found (some text) = ok text

  -- xml_search in the answer.
  unfoldable pub search : Bytes → Client Bytes
  search node s = (s, found (xml_search network.expat s.body node))

-- Another status in place of the one that failed.
abbrev pub replace_error : {A : Type 0} → GsError → Result A → Result A
replace_error e (ok a) = ok a
replace_error e (fails _) = fails e

abbrev pub or_error : {A : Type 0} → GsError → Client A → Client A
or_error e m s = let (s', r) = m s in (s', replace_error e r)
