-- ===== src/Client/Hex.antt =====
-- Bytes in hexadecimal: bytes_to_hex of libgamestream/client.c, and the loops that read it back.
use moonlight_embedded_crash.Prelude.{
  ℕ, ◌+◌, ◌-◌, ◌*◌, ◌/◌, ◌%◌, ◌<◌, ◌≤◌, ◌≡◌, refl, ◌&&◌, ◌||◌, ◌==◌, Bool, false, Option, none,
  some, [], ◌∷◌, ◌++◌, arith, ltb, leb, if◌then◌else◌, length, drop,
}
use mathlib.Core.Option
use moonlight_embedded_crash.Prelude.Text.{Bytes, is_space}
use moonlight_embedded_crash.Libc.Decimal.{skip_spaces}

-- A digit of "%02x".
abbrev pub hex_digit : ℕ → ℕ
hex_digit n = if ltb n 10 then b'0' + n else b'a' + (n - 10)

unfoldable pub bytes_to_hex : Bytes → Bytes
bytes_to_hex [] = []
bytes_to_hex (b ∷ bs) = hex_digit (b / 16) ∷ hex_digit (b % 16) ∷ bytes_to_hex bs

abbrev pub hex_value : ℕ → Option ℕ
hex_value c =
    if leb b'0' c && leb c b'9'
    then some (c - b'0')
    else if leb b'a' c && leb c b'f'
    then some (c - b'a' + 10)
    else if leb b'A' c && leb c b'F'
    then some (c - b'A' + 10)
    else none

-- A second digit, where one follows the first.
abbrev second_digit : ℕ → Option ℕ → ℕ
second_digit a none = a
second_digit a (some b) = a * 16 + b

abbrev first_digit : Option ℕ → Bytes → Option ℕ
first_digit none s = none
first_digit (some a) [] = some a
first_digit (some a) (d ∷ s) = some (second_digit a (hex_value d))

abbrev after_sign : Bool → Bytes → Option ℕ
after_sign negative [] = none
after_sign negative (c ∷ s) =
    Option.map (λ v. if negative then (256 - v) % 256 else v) (hex_value c)

abbrev two_characters : Bytes → Option ℕ
two_characters [] = none
two_characters (c ∷ s) =
    if c == b'-' || c == b'+' then after_sign (c == b'-') s else first_digit (hex_value c) s

-- sscanf's %2hhx on a text: white space is passed over, then a sign and a digit or one or two digits
-- are read; none where there is no digit, and then nothing is stored.
unfoldable pub scan_byte : Bytes → Option ℕ
scan_byte s = two_characters (skip_spaces s)

abbrev pub stored : Option ℕ → Bytes → Bytes
stored v [] = []
stored none (old ∷ buffer) = old ∷ buffer
stored (some v) (old ∷ buffer) = v ∷ buffer

abbrev pub under_first : (Bytes → Bytes) → Bytes → Bytes
under_first f [] = []
under_first f (b ∷ buffer) = b ∷ f buffer

-- The loops over `sscanf(&result[count], "%2hhx", …)`, on what the buffer held before, whole: every
-- second place of the text is scanned for one byte of the buffer. A text for which the buffer is too
-- short fills it here; C leaves open what happens.
unfoldable pub hex_to_bytes : Bytes → Bytes → Bytes
unfolding scan_byte
hex_to_bytes [] buffer = buffer
hex_to_bytes (a ∷ []) buffer = stored (scan_byte (a ∷ [])) buffer
hex_to_bytes (a ∷ b ∷ s) buffer =
    under_first (hex_to_bytes s) (stored (scan_byte (a ∷ b ∷ s)) buffer)

-- Every entry is a byte.
abbrev pub AllOctets : Bytes → Type 0
AllOctets [] = Unit
AllOctets (b ∷ bs) = (b < 256) × AllOctets bs

hex_value-hex_digit : (n : ℕ) → n < 16 → hex_value (hex_digit n) ≡ some n
hex_value-hex_digit n h = ground arith

hex_digit-IsPlain :
    (n : ℕ)
    → n < 16
    → (is_space (hex_digit n) ≡ false)
      × ((hex_digit n == b'-') ≡ false)
      × ((hex_digit n == b'+') ≡ false)
unfolding is_space
hex_digit-IsPlain n h = (ground arith, ground arith, ground arith)

scan_byte-digits :
    (a b : ℕ) (s : Bytes)
    → a < 16
    → b < 16
    → scan_byte (hex_digit a ∷ hex_digit b ∷ s) ≡ some (a * 16 + b)
unfolding scan_byte skip_spaces
scan_byte-digits a b s ha hb =
    let (blank, minus, plus) = hex_digit-IsPlain a ha in
    rw (blank, minus, plus, hex_value-hex_digit a ha, hex_value-hex_digit b hb) refl

-- Bytes that are written in hexadecimal, two digits each, are read back as they were into a buffer
-- that has room for them; the rest of the buffer stays as it was.
pub hex_to_bytes-bytes_to_hex :
    (bs buffer : Bytes)
    → AllOctets bs
    → length bs ≤ length buffer
    → hex_to_bytes (bytes_to_hex bs) buffer ≡ bs ++ drop (length bs) buffer
unfolding hex_to_bytes bytes_to_hex
hex_to_bytes-bytes_to_hex [] buffer h room = refl
hex_to_bytes-bytes_to_hex (b ∷ bs) [] h room = absurd (omega (arith, room))
hex_to_bytes-bytes_to_hex (b ∷ bs) (old ∷ buffer) (hb, hs) room =
    let read : scan_byte (bytes_to_hex (b ∷ bs)) ≡ some (b / 16 * 16 + b % 16) =
      scan_byte-digits (b / 16) (b % 16) (bytes_to_hex bs) (omega arith) (omega arith) in
    let e : b / 16 * 16 + b % 16 ≡ b = omega arith in
    rw (read, e, hex_to_bytes-bytes_to_hex bs buffer hs (omega (arith, room))) refl
