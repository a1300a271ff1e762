-- ===== src/Libc/RoundTrip.antt =====
-- What printf writes is read back by strtol, sscanf and getline.
use mathlib.Core.List.{append_assoc}
use moonlight_embedded_crash.Libc.Scan.{
  stored, lines, span, is_word_byte, not_newline, scan_word, scan_pair, expect_equals,
}
use moonlight_embedded_crash.Prelude.{
  ℕ, zero, suc, ◌<◌, ◌^◌, ◌≡◌, ◌≢◌, refl, ◌∙◌, ap, Bool, true, false, [], ◌∷◌, ◌++◌, some, arith,
}
use moonlight_embedded_crash.Prelude.Text.{Bytes, is_space}
use moonlight_embedded_crash.Prelude.Int.{ℤ, pos, negsuc, to_int, to_int_of_IsInt, IsInt}
use moonlight_embedded_crash.Libc.Decimal.{
  skip_spaces, AllBytes, print_nat, print_int, is_digit, digits_value, clamp_long, strtol, atoi,
  print_nat_digits, digits_value-print_nat,
}

-- A text that one `%ms` takes whole.
pub record IsWord (w : Bytes) : Type 0 where
  pub nonempty : w ≢ []
  pub no_space : AllBytes is_word_byte w

pub AllBytes-mono :
    (p q : ℕ → Bool) (s : Bytes) → ((c : ℕ) → p c ≡ true → q c ≡ true) → AllBytes p s → AllBytes q s
AllBytes-mono p q [] h a = tt
AllBytes-mono p q (c ∷ s) h (x, a) = (h c x, AllBytes-mono p q s h a)

digit_is_word_byte : (c : ℕ) → is_digit c ≡ true → is_word_byte c ≡ true
unfolding is_space
digit_is_word_byte c h = ground arith

pub word_byte_not_newline : (c : ℕ) → is_word_byte c ≡ true → not_newline c ≡ true
unfolding is_space
word_byte_not_newline c h = ground arith

digits_value_ne_nil : (n : ℕ) → digits_value 0 (print_nat (suc n)) ≢ 0
digits_value_ne_nil n e = omega (arith, digits_value-print_nat (suc n))

pub print_nat-ne-nil : (n : ℕ) → print_nat n ≢ []
unfolding print_nat
print_nat-ne-nil zero e = cc
print_nat-ne-nil (suc n) e =
    digits_value_ne_nil n (ap (digits_value 0) e ∙ (unfold digits_value in refl))

print_nat-IsWord : (n : ℕ) → IsWord (print_nat n)
print_nat-IsWord n = record {
  nonempty = print_nat-ne-nil n;
  no_space =
      AllBytes-mono is_digit is_word_byte (print_nat n) digit_is_word_byte (print_nat_digits n);
}

pub print_int-IsWord : (z : ℤ) → IsWord (print_int z)
unfolding print_int
print_int-IsWord (pos n) = print_nat-IsWord n
print_int-IsWord (negsuc n) = record {
  nonempty = λ e. cc;
  no_space = (unfold is_space in refl, (print_nat-IsWord (suc n)).no_space);
}

strtol_digits :
    (s : Bytes) → s ≢ [] → AllBytes is_digit s → strtol s ≡ clamp_long false (digits_value 0 s)
unfolding strtol is_space
strtol_digits [] ne h = absurd (ne refl)
strtol_digits (c ∷ s) ne (d, h) = ground (arith, digit_is_word_byte c)

strtol_minus : (s : Bytes) → strtol (b'-' ∷ s) ≡ clamp_long true (digits_value 0 s)
unfolding strtol
strtol_minus s = refl

clamp_long_pos : (n : ℕ) → n < 2 ^ 31 → clamp_long false n ≡ pos n
clamp_long_pos n h = ground arith

clamp_long_neg : (n : ℕ) → n < 2 ^ 31 → clamp_long true (suc n) ≡ negsuc n
clamp_long_neg n h = ground arith

-- A printed int is read back by strtol.
pub strtol-print_int : (z : ℤ) → IsInt z → strtol (print_int z) ≡ z
unfolding print_int
strtol-print_int (pos n) h =
    strtol_digits (print_nat n) (print_nat-ne-nil n) (print_nat_digits n)
    ∙ ap (clamp_long false) (digits_value-print_nat n)
    ∙ clamp_long_pos n (omega arith)
strtol-print_int (negsuc n) h =
    strtol_minus (print_nat (suc n))
    ∙ ap (clamp_long true) (digits_value-print_nat (suc n))
    ∙ clamp_long_neg n (omega arith)

pub atoi-print_int : (z : ℤ) → IsInt z → atoi (print_int z) ≡ z
unfolding atoi
atoi-print_int z h = ap to_int (strtol-print_int z h) ∙ to_int_of_IsInt z h

pub span-append :
    (p : ℕ → Bool) (w : Bytes) (c : ℕ) (r : Bytes)
    → AllBytes p w
    → p c ≡ false
    → span p (w ++ c ∷ r) ≡ (w, c ∷ r)
unfolding span
span-append p [] c r h e = rw e
span-append p (x ∷ w) c r (hx, h) e = rw (hx, span-append p w c r h e)

not_space : (c : ℕ) → is_word_byte c ≡ true → is_space c ≡ false
not_space c h = ground arith

skip_spaces_word : (w r : Bytes) → IsWord w → skip_spaces (w ++ r) ≡ w ++ r
unfolding skip_spaces
skip_spaces_word [] r h = absurd (h.nonempty refl)
skip_spaces_word (c ∷ w) r h = rw (not_space c h.no_space.0)

pub scan_word-append :
    (w : Bytes) (c : ℕ) (r : Bytes)
    → IsWord w
    → is_word_byte c ≡ false
    → scan_word (w ++ c ∷ r) ≡ some (w, c ∷ r)
unfolding scan_word
scan_word-append [] c r h e = absurd (h.nonempty refl)
scan_word-append (x ∷ w) c r h e =
    ap (λ t. stored (span is_word_byte t)) (skip_spaces_word (x ∷ w) (c ∷ r) h)
    ∙ ap stored (span-append is_word_byte (x ∷ w) c r h.no_space e)

pub equals_after_key : (s : Bytes) → expect_equals (skip_spaces (b' ' ∷ b'=' ∷ s)) ≡ some s
unfolding skip_spaces is_space
equals_after_key s = refl

pub skip_one : (s : Bytes) → skip_spaces (b' ' ∷ s) ≡ skip_spaces s
unfolding skip_spaces is_space
skip_one s = refl

newline_not_word : is_word_byte b'\n' ≡ false
unfolding is_space
newline_not_word = refl

pub blank_not_word : is_word_byte b' ' ≡ false
unfolding is_space
blank_not_word = refl

scan_word_value :
    (value : Bytes)
    → IsWord value
    → scan_word (skip_spaces (b' ' ∷ (value ++ b'\n' ∷ []))) ≡ some (value, b'\n' ∷ [])
scan_word_value value v =
    ap scan_word (skip_one (value ++ b'\n' ∷ []) ∙ skip_spaces_word value (b'\n' ∷ []) v)
    ∙ scan_word-append value b'\n' [] v newline_not_word

-- The line that fprintf writes with "%s = %s\n".
abbrev pub setting_line : Bytes → Bytes → Bytes
setting_line key value = key ++ b' ' ∷ b'=' ∷ b' ' ∷ (value ++ b'\n' ∷ [])

-- sscanf with "%ms = %ms" takes a written line apart.
pub scan_pair_line :
    (key value : Bytes)
    → IsWord key
    → IsWord value
    → scan_pair (setting_line key value) ≡ some (key, value)
unfolding scan_pair
scan_pair_line key value k v =
    rw (scan_word-append key b' ' (b'=' ∷ b' ' ∷ (value ++ b'\n' ∷ [])) k blank_not_word)
      (rw (equals_after_key (b' ' ∷ (value ++ b'\n' ∷ []))) (rw (scan_word_value value v) refl))

pub lines-append :
    (l rest : Bytes)
    → AllBytes not_newline l
    → lines (l ++ b'\n' ∷ rest) ≡ (l ++ b'\n' ∷ []) ∷ lines rest
unfolding lines
lines-append [] rest h = refl
lines-append (c ∷ l) rest (hc, h) = ground (arith, lines-append l rest h)

pub AllBytes-append :
    (p : ℕ → Bool) (s t : Bytes) → AllBytes p s → AllBytes p t → AllBytes p (s ++ t)
AllBytes-append p [] t hs ht = ht
AllBytes-append p (c ∷ s) t (hc, hs) ht = (hc, AllBytes-append p s t hs ht)

pub word_no_newline : (w : Bytes) → IsWord w → AllBytes not_newline w
word_no_newline w h = AllBytes-mono is_word_byte not_newline w word_byte_not_newline h.no_space

-- getline returns a written line by itself, whatever follows it.
pub lines_line :
    (key value rest : Bytes)
    → IsWord key
    → IsWord value
    → lines (setting_line key value ++ rest) ≡ setting_line key value ∷ lines rest
lines_line key value rest k v =
    let text : Bytes = key ++ b' ' ∷ b'=' ∷ b' ' ∷ value in
    let whole : (r : Bytes) → setting_line key value ++ r ≡ text ++ b'\n' ∷ r =
      λ r. simp append_assoc in
    let alone : setting_line key value ≡ text ++ b'\n' ∷ [] = simp append_assoc in
    rw (whole rest, alone)
      (lines-append text rest (
        AllBytes-append not_newline key (b' ' ∷ b'=' ∷ b' ' ∷ value) (word_no_newline key k)
          (refl, (refl, (refl, word_no_newline value v)))))
