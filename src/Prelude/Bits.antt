-- ===== src/Prelude/Bits.antt =====
-- Bit patterns of C integers, as the function from a bit's position to the bit. The masks of the
-- program are constants of headers outside the repository, so its `|`, `&` and `~` meet variables.
use moonlight_embedded_crash.Prelude.{ap}
use Prim.Native.Nat.{ℕ, zero, suc, ◌/◌, ◌%◌, ◌^◌, ◌<◌, ◌-◌}
use mathlib.Core.Path.{◌≡◌, refl}
use mathlib.Core.Logic.{inl, inr}
use mathlib.Core.Bool.{Bool, true, false, not, ◌&&◌, ◌||◌}
use native.Mathlib.Omega.{arith}
use moonlight_embedded_crash.Prelude.Tests.{ltb, ◌==◌, if◌then◌else◌, Bool-cases}

abbrev pub Bits : Type 0
Bits = ℕ → Bool

-- The pattern of a number.
unfoldable pub bits : ℕ → Bits
bits n i = (n / 2 ^ i) % 2 == 1

abbrev pub no_bits : Bits
no_bits i = false

infixl 60 ◌|b◌ ◌&b◌
abbrev pub ◌|b◌ : Bits → Bits → Bits
◌|b◌ a b i = a i || b i

abbrev pub ◌&b◌ : Bits → Bits → Bits
◌&b◌ a b i = a i && b i

abbrev pub ~b : Bits → Bits
~b a i = not (a i)

-- 1 << n
abbrev pub one_bit : ℕ → Bits
one_bit n i = i == n

-- A conversion to a wider type copies the bit `w - 1`, the sign, upwards.
abbrev pub sign_extend : ℕ → Bits → Bits
sign_extend w a i = if ltb i w then a i else a (w - 1)

-- `p` holds of every number below `n`.
unfoldable pub all_below : ℕ → (ℕ → Bool) → Bool
all_below zero p = true
all_below (suc w) p = all_below w p && p w

abbrev same : Bool → Bool → Bool
same true b = b
same false b = not b

-- `==` on patterns of w bits.
unfoldable pub eq_bits : ℕ → Bits → Bits → Bool
unfolding all_below
eq_bits w a b = all_below w (λ i. same (a i) (b i))

-- `!= 0` on a pattern of w bits.
unfoldable pub nonzero : ℕ → Bits → Bool
unfolding eq_bits
nonzero w a = not (eq_bits w a no_bits)

pub all_below_elim : (w : ℕ) (p : ℕ → Bool) → all_below w p ≡ true → (i : ℕ) → i < w → p i ≡ true
unfolding all_below
all_below_elim zero p h i lt = elim lt [ ]
all_below_elim (suc w) p h i lt = elim (Bool-cases (i == w)) [
  | inl e ↦ ground arith
  | inr e ↦ ground (arith, all_below_elim w p, all_below_elim w p (ground arith) i)
]

pub all_below_intro : (n : ℕ) (p : ℕ → Bool) → ((x : ℕ) → x < n → p x ≡ true) → all_below n p ≡ true
unfolding all_below
all_below_intro zero p h = refl
all_below_intro (suc n) p h =
    ground (arith, h n (omega arith), all_below_intro n p (λ x lt. h x (omega arith)))

pub eq_bits_sound : (w : ℕ) (a b : Bits) (i : ℕ) → eq_bits w a b ≡ true → i < w → a i ≡ b i
unfolding eq_bits
eq_bits_sound w a b i h lt = ground (arith, all_below_elim w (λ i. same (a i) (b i)) h i lt)

pub eq_bits_intro : (w : ℕ) (a b : Bits) → ((i : ℕ) → i < w → a i ≡ b i) → eq_bits w a b ≡ true
unfolding eq_bits
eq_bits_intro w a b h = all_below_intro w _ (λ i lt. ground (arith, h i lt))

pub nonzero_of_bit : (w : ℕ) (a : Bits) (i : ℕ) → i < w → a i ≡ true → nonzero w a ≡ true
unfolding nonzero
nonzero_of_bit w a i lt h = elim (Bool-cases (eq_bits w a no_bits)) [
  | inl e ↦ cc (eq_bits_sound w a no_bits i e lt)
  | inr e ↦ rw e
]

pub zero_bit : (w : ℕ) (a : Bits) (i : ℕ) → nonzero w a ≡ false → i < w → a i ≡ false
unfolding nonzero
zero_bit w a i h lt = elim (Bool-cases (eq_bits w a no_bits)) [
  | inl e ↦ eq_bits_sound w a no_bits i e lt
  | inr e ↦ cc (ap not e)
]
