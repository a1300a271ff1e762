-- ===== src/Libc/Decimal.antt =====
-- Decimal text: printf's `%d` and `%hd`, strtol with base 10, and atoi.
use moonlight_embedded_crash.Prelude.{
  ◌≤◌, ℕ, zero, suc, ◌+◌, ◌-◌, ◌*◌, ◌/◌, ◌%◌, ◌^◌, ◌<◌, ◌≡◌, refl, ◌∙◌, ap, Bool, true, false, ◌&&◌,
  [], ◌∷◌, arith, ltb, leb, ◌==◌, if◌then◌else◌,
}
use mathlib.Core.Logic.{dite}
use mathlib.Core.WellFounded.{Acc}
use native.Mathlib.Decide.{dec_lt}
use moonlight_embedded_crash.Prelude.Int.{ℤ, pos, negsuc, sub_ℕ, to_int}
use moonlight_embedded_crash.Prelude.Text.{Bytes, is_space}

-- Everything below `k` is accessible.
Acc-bounded : (n k : ℕ) → k ≤ n → (m : ℕ) → m < k → Acc ◌<◌ m
Acc-bounded n zero le m h = elim h [ ]
Acc-bounded zero (suc k) le m h = elim le [ ]
Acc-bounded (suc n) (suc k) le m h =
    Acc.intro m (λ l hl. Acc-bounded n k (omega arith) l (omega arith))

below : (n : ℕ) → Acc ◌<◌ n
unfolding Acc-bounded
below n = Acc-bounded (suc n) (suc n) (omega arith) n (omega arith)

quotient_lt : {n : ℕ} → 0 < n → n / 10 < n
quotient_lt h = omega arith

-- The digits of `n`, written in front of `out`.
emit : Bytes → (n : ℕ) → Acc ◌<◌ n → Bytes
emit out n (Acc.intro _ r) =
    let more = (n % 10 + b'0') ∷ out in
    dite (dec_lt 0 n) (λ h. emit more (n / 10) (r (n / 10) (quotient_lt h))) (λ _. out)

digits_of : ℕ → Bytes
unfolding emit below dec_lt quotient_lt
digits_of n = emit [] n (below n)

unfoldable pub print_nat : ℕ → Bytes
unfolding digits_of
print_nat zero = b'0' ∷ []
print_nat (suc n) = digits_of (suc n)

-- `%d`, and `%hd` of a short.
unfoldable pub print_int : ℤ → Bytes
print_int (pos n) = print_nat n
print_int (negsuc n) = b'-' ∷ print_nat (suc n)

abbrev pub is_digit : ℕ → Bool
is_digit c = leb b'0' c && leb c b'9'

-- The value of the leading digits, after `acc`.
unfoldable pub digits_value : ℕ → Bytes → ℕ
digits_value acc [] = acc
digits_value acc (c ∷ s) =
    let rest = digits_value (acc * 10 + (c - b'0')) s in if is_digit c then rest else acc

-- LONG_MAX or LONG_MIN stands for what a 64-bit long cannot hold.
abbrev pub clamp_long : Bool → ℕ → ℤ
clamp_long negative n =
    if negative
    then (if ltb (2 ^ 63) n then sub_ℕ 0 (2 ^ 63) else sub_ℕ 0 n)
    else (if ltb n (2 ^ 63) then pos n else pos (2 ^ 63 - 1))

-- After the leading space: an optional sign, then digits.
unfoldable pub signed_value : Bytes → ℤ
unfolding digits_value
signed_value [] = pos 0
signed_value (c ∷ s) =
    if c == b'-'
    then clamp_long true (digits_value 0 s)
    else if c == b'+'
    then clamp_long false (digits_value 0 s)
    else clamp_long false (digits_value 0 (c ∷ s))

unfoldable pub skip_spaces : Bytes → Bytes
unfolding is_space
skip_spaces [] = []
skip_spaces (c ∷ s) = if is_space c then skip_spaces s else c ∷ s

-- strtol(s, NULL, 10)
unfoldable pub strtol : Bytes → ℤ
unfolding signed_value skip_spaces
strtol s = signed_value (skip_spaces s)

-- glibc's atoi is strtol, converted to int.
unfoldable pub atoi : Bytes → ℤ
unfolding strtol to_int
atoi s = to_int (strtol s)

-- Every byte of the text satisfies `p`.
abbrev pub AllBytes : (ℕ → Bool) → Bytes → Type 0
AllBytes p [] = Unit
AllBytes p (c ∷ s) = (p c ≡ true) × AllBytes p s

emit-AllBytes :
    (n : ℕ) (w : Acc ◌<◌ n) (out : Bytes) → AllBytes is_digit out → AllBytes is_digit (emit out n w)
unfolding emit
emit-AllBytes n (Acc.intro _ smaller) out h =
    elim (dec_lt 0 n)
      as (λ d. AllBytes is_digit (
        dite d (λ p. emit ((n % 10 + b'0') ∷ out) (n / 10) (smaller (n / 10) (quotient_lt p)))
          (λ _. out))) [
            | yes p ↦
                emit-AllBytes (n / 10) (smaller (n / 10) (quotient_lt p)) ((n % 10 + b'0') ∷ out)
                  (ground arith, h)
            | no p ↦ h
          ]

digits_value_digit :
    (acc d : ℕ) (s : Bytes)
    → d < 10
    → digits_value acc ((d + b'0') ∷ s) ≡ digits_value (acc * 10 + d) s
unfolding digits_value
digits_value_digit acc d s h = let e : d + b'0' - b'0' ≡ d = omega arith in ground arith

digits_value-emit :
    (n : ℕ) (w : Acc ◌<◌ n) (out : Bytes) → digits_value 0 (emit out n w) ≡ digits_value n out
unfolding emit
digits_value-emit n (Acc.intro _ smaller) out =
    elim (dec_lt 0 n)
      as (λ d.
        digits_value 0 (
          dite d (λ p. emit ((n % 10 + b'0') ∷ out) (n / 10) (smaller (n / 10) (quotient_lt p)))
            (λ _. out))
        ≡ digits_value n out) [
          | yes p ↦
              digits_value-emit (n / 10) (smaller (n / 10) (quotient_lt p)) ((n % 10 + b'0') ∷ out)
              ∙ digits_value_digit (n / 10) (n % 10) out (omega arith)
              ∙ ap (λ k. digits_value k out) (omega arith)
          | no p ↦ ap (λ k. digits_value k out) (omega arith)
        ]

digits_of_digits : (n : ℕ) → AllBytes is_digit (digits_of n)
unfolding digits_of
digits_of_digits n = emit-AllBytes n (below n) [] tt

digits_value-digits_of : (n : ℕ) → digits_value 0 (digits_of n) ≡ n
unfolding digits_of digits_value
digits_value-digits_of n = digits_value-emit n (below n) []

pub print_nat_digits : (n : ℕ) → AllBytes is_digit (print_nat n)
unfolding print_nat
print_nat_digits zero = ground arith
print_nat_digits (suc n) = digits_of_digits (suc n)

pub digits_value-print_nat : (n : ℕ) → digits_value 0 (print_nat n) ≡ n
unfolding print_nat digits_of
digits_value-print_nat zero = unfold digits_value in refl
digits_value-print_nat (suc n) = digits_value-digits_of (suc n)
