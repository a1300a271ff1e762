-- ===== src/Client/Init.antt =====
-- gs_init of libgamestream/client.c with mkdirtree, load_unique_id and load_cert: the files of the
-- key directory, and the first request.
pub mod Files
use mathlib.Core.Path.{subst}
use mathlib.Core.List.{append-nil, append_assoc}
use moonlight_embedded_crash.Prelude.{
  ℕ, zero, suc, ◌+◌, ◌-◌, ◌*◌, ◌/◌, ◌%◌, ◌^◌, ◌≤◌, ◌<◌, ◌≡◌, refl, sym, ap, ◌∙◌, fun_ext, ◌≢◌, ◌↔◌,
  ◌⊎◌, inl, inr, Bool, true, false, not, ◌&&◌, ◌||◌, Option, none, some, List, [], ◌∷◌, ◌++◌, map,
  arith, ltb, leb, ◌==◌, if◌then◌else◌, ltb→lt, lt→ltb, leb→le, ==_iff, ==_refl, Bool-cases,
  Option-cases, length, get_elem?, set, take, length-append, length-set, get_elem?-set_self,
  get_elem?-set_ne,
}
use moonlight_embedded_crash.Prelude.Int.{
  ℤ, pos, negsuc, ◌+ℤ◌, ◌-ℤ◌, ◌*ℤ◌, quot, ◌≤ℤ◌, ◌<ℤ◌, ltb_ℤ, leb_ℤ, eq_ℤ, abs, to_short, to_char,
  to_int, IsShort, IsInt, int_laws, eq_of_parts, eq_ℤ_refl, eq_ℤ→eq,
}
use moonlight_embedded_crash.Prelude.Bits.{
  Bits, bits, no_bits, ◌|b◌, ◌&b◌, ~b, one_bit, sign_extend, all_below, eq_bits, nonzero, zero_bit,
  nonzero_of_bit, eq_bits_sound, eq_bits_intro,
}
use moonlight_embedded_crash.Prelude.Text.{Bytes, codes, str_eq, is_space, str_eq_refl, str_eq→eq}
use moonlight_embedded_crash.Prelude.Process.{
  Process, running, exited, ◌>>=◌, exit_failure, minus_one,
}
use moonlight_embedded_crash.Client.{gs_failed, Server, Session, Result, ok, fails, Client, Network}
use moonlight_embedded_crash.Client.Status.{load_server_status}
use moonlight_embedded_crash.Client.Hex.{bytes_to_hex}

-- The paths that the loop of mkdirtree ends a path element at, with `path` in front.
unfoldable pub element_ends : Bytes → Bytes → List Bytes
element_ends path [] = path ∷ []
element_ends path (c ∷ rest) =
    let ends = element_ends (path ++ c ∷ []) rest in if c == b'/' then path ∷ ends else ends

-- The loop passes over the first byte before it looks for the end.
unfoldable pub element_paths : Bytes → List Bytes
element_paths [] = []
element_paths (c ∷ rest) = element_ends (c ∷ []) rest

-- mkdir on one path after the other, up to the first that fails. `makes` is whether a path can be
-- made or exists. The result has the paths that were tried, and whether the function returns 0.
unfoldable pub make_each : (Bytes → Bool) → List Bytes → List Bytes × Bool
make_each makes [] = ([], true)
make_each makes (path ∷ paths) =
    let (tried, made) = make_each makes paths in
    if makes path then (path ∷ tried, made) else (path ∷ [], false)

-- mkdirtree, for directories that the buffer of 1024 bytes can hold.
unfoldable pub mkdirtree : (Bytes → Bool) → Bytes → List Bytes × Bool
mkdirtree makes directory = make_each makes (element_paths directory)

-- The key directory as mkdirtree leaves it, and the libraries: the text of uniqueid.dat if it can
-- be opened, whether it can be written, the bytes of RAND_bytes, the text of client.pem, what it is
-- after mkcert_generate and mkcert_save, whether PEM_read_X509 accepts a text, and whether key.pem
-- can be opened, the certificate being a new one or not.
pub record KeyDir : Type 0 where
  pub id_file : Option Bytes
  pub id_writable : Bool
  pub unique_data : Bytes
  pub certificate : Option Bytes
  pub generated : Option Bytes
  pub is_certificate : Bytes → Bool
  pub key_opens : Bool → Bool

-- UNIQUEID_CHARS
abbrev pub uniqueid_chars : ℕ
uniqueid_chars = 16

-- What load_unique_id leaves in `unique_id`, before any zero byte.
unfoldable pub unique_id : KeyDir → Bytes
unique_id dir = elim dir.id_file [
  | none ↦ take uniqueid_chars (bytes_to_hex dir.unique_data)
  | some text ↦ take uniqueid_chars text
]

-- load_unique_id, with the text that it writes to uniqueid.dat.
unfoldable pub load_unique_id : KeyDir → Result (Option Bytes)
load_unique_id dir = elim dir.id_file [
  | none ↦ if dir.id_writable then ok (some (unique_id dir)) else fails gs_failed
  | some text ↦ ok none
]

-- The part of load_cert from the second test of `fd` on; the result is `cert_hex`.
unfoldable pub read_cert : KeyDir → Bool → Option Bytes → Result Bytes
read_cert dir fresh none = fails gs_failed
read_cert dir fresh (some text) =
    if not (dir.is_certificate text)
    then fails gs_failed
    else if not (dir.key_opens fresh)
    then fails gs_failed
    else ok (bytes_to_hex text)

unfoldable pub load_cert : KeyDir → Result Bytes
load_cert dir = elim dir.certificate [
  | none ↦ read_cert dir true dir.generated
  | some text ↦ read_cert dir false (some text)
]

abbrev pub succeeded : {A : Type 0} → Result A → Bool
succeeded (ok _) = true
succeeded (fails _) = false

-- LiInitializeServerInformation, and the address.
unfoldable pub init_server : Bytes → Server → Server
init_server address server = record server {
  address = address;
  app_version = none;
  gfe_version = none;
}

-- The network as it is used from then on: requests carry the loaded id.
abbrev pub with_id : Network → KeyDir → Network
with_id network dir = record network { unique_id = unique_id dir }

-- gs_init. What mkdirtree returns is not looked at.
unfoldable pub gs_init : Network → KeyDir → Bytes → Client (Unit {0})
gs_init network dir address s =
    if not (succeeded (load_unique_id dir))
    then (s, fails gs_failed)
    else if not (succeeded (load_cert dir))
    then (s, fails gs_failed)
    else load_server_status (with_id network dir)
        (record s { server = init_server address s.server })
