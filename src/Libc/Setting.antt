-- ===== src/Libc/Setting.antt =====
-- A line with a key and the rest of the line as its value, as fprintf writes it and sscanf reads it.
use mathlib.Core.List.{append_assoc}
use moonlight_embedded_crash.Prelude.{◌≡◌, refl, ap, ◌≢◌, true, false, some, [], ◌∷◌, ◌++◌, arith}
use moonlight_embedded_crash.Prelude.Text.{Bytes, is_space}
use moonlight_embedded_crash.Libc.Decimal.{AllBytes, skip_spaces}
use moonlight_embedded_crash.Libc.Scan.{
  lines, stored, scan_rest_of_line, scan_setting, is_word_byte, not_newline,
}
use moonlight_embedded_crash.Libc.RoundTrip.{
  IsWord, setting_line, span-append, scan_word-append, equals_after_key, skip_one, lines-append,
  AllBytes-append, word_no_newline, blank_not_word,
}

abbrev pub StartsWord : Bytes → Type 0
StartsWord [] = ⊥
StartsWord (c ∷ s) = is_word_byte c ≡ true

-- A text that `= %m[^\n]` takes whole: it does not begin with space, and has no newline.
pub record IsValue (v : Bytes) : Type 0 where
  pub starts : StartsWord v
  pub no_newline : AllBytes not_newline v

word-StartsWord : (w : Bytes) → w ≢ [] → AllBytes is_word_byte w → StartsWord w
word-StartsWord [] ne h = absurd (ne refl)
word-StartsWord (c ∷ w) ne (hc, h) = hc

pub IsWord-IsValue : (w : Bytes) → IsWord w → IsValue w
IsWord-IsValue w h = record {
  starts = word-StartsWord w h.nonempty h.no_space;
  no_newline = word_no_newline w h;
}

skip_spaces_value : (v r : Bytes) → StartsWord v → skip_spaces (v ++ r) ≡ v ++ r
unfolding skip_spaces
skip_spaces_value [] r h = absurd h
skip_spaces_value (c ∷ v) r h = let e : is_space c ≡ false = ground arith in rw e refl

scan_rest-value :
    (v r : Bytes) → IsValue v → scan_rest_of_line (v ++ b'\n' ∷ r) ≡ some (v, b'\n' ∷ r)
unfolding scan_rest_of_line
scan_rest-value [] r h = absurd h.starts
scan_rest-value (c ∷ v) r h = ap stored (span-append not_newline (c ∷ v) b'\n' r h.no_newline refl)

pub scan_setting_line :
    (key value : Bytes)
    → IsWord key
    → IsValue value
    → scan_setting (setting_line key value) ≡ some (key, value)
unfolding scan_setting
scan_setting_line key value k v =
    rw
      (
        scan_word-append key b' ' (b'=' ∷ b' ' ∷ (value ++ b'\n' ∷ [])) k blank_not_word,
        equals_after_key (b' ' ∷ (value ++ b'\n' ∷ [])),
        skip_one (value ++ b'\n' ∷ []),
        skip_spaces_value value (b'\n' ∷ []) v.starts,
        scan_rest-value value [] v,
      )
      refl

pub lines_setting :
    (key value rest : Bytes)
    → IsWord key
    → IsValue value
    → lines (setting_line key value ++ rest) ≡ setting_line key value ∷ lines rest
lines_setting key value rest k v =
    let text : Bytes = key ++ b' ' ∷ b'=' ∷ b' ' ∷ value in
    let whole : (r : Bytes) → setting_line key value ++ r ≡ text ++ b'\n' ∷ r =
      λ r. simp append_assoc in
    let alone : setting_line key value ≡ text ++ b'\n' ∷ [] = simp append_assoc in
    rw (whole rest, alone)
      (lines-append text rest (
        AllBytes-append not_newline key (b' ' ∷ b'=' ∷ b' ' ∷ value) (word_no_newline key k)
          (refl, (refl, (refl, v.no_newline)))))
