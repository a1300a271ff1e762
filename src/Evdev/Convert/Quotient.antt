-- ===== src/Evdev/Convert/Quotient.antt =====
-- Integers scaled to the range of a short, halves, and distances from the middle of an axis.
use moonlight_embedded_crash.Prelude.{suc, ℕ, ◌*◌, ◌/◌, ◌≤◌, ◌<◌, ◌≡◌, ◌⊎◌, ap, true, false, arith}
use moonlight_embedded_crash.Prelude.Int.{
  sub_ℕ, ℤ, pos, negsuc, ◌+ℤ◌, ◌*ℤ◌, quot, ◌≤ℤ◌, ◌<ℤ◌, ltb_ℤ, abs,
}
use moonlight_embedded_crash.Evdev.Convert.{short_span}

pub div_bound : (n d : ℕ) → n ≤ d → 0 < d → n * 65535 / d ≤ 65535
div_bound n d h p = grind arith

pub div_full : (d : ℕ) → 0 < d → d * 65535 / d ≡ 65535
div_full d p = grind arith

pub scaled : (a : ℕ) → pos a *ℤ short_span ≡ pos (a * 65535)
unfolding ◌*ℤ◌
scaled a = ground arith

pub quot_bounds :
    (a b : ℤ)
    → pos 0 ≤ℤ a
    → a ≤ℤ b
    → pos 0 <ℤ b
    → (pos 0 ≤ℤ quot (a *ℤ short_span) b) × (quot (a *ℤ short_span) b ≤ℤ pos 65535)
unfolding quot
quot_bounds (pos a) (pos b) h k p =
    rw scaled (omega arith, omega (arith, div_bound a b (omega arith) (omega arith)))
quot_bounds (pos a) (negsuc b) h k p = absurd (omega arith)
quot_bounds (negsuc a) b h k p = absurd (omega arith)

pub quot_zero : (b : ℤ) → quot (pos 0 *ℤ short_span) b ≡ pos 0
unfolding quot
quot_zero (pos b) = rw scaled (ap pos (omega arith))
quot_zero (negsuc b) = rw scaled (let e : 0 / suc b ≡ 0 = omega arith in ap (sub_ℕ 0) e)

pub quot_full : (b : ℤ) → pos 0 <ℤ b → quot (b *ℤ short_span) b ≡ pos 65535
unfolding quot
quot_full (pos b) p = rw scaled (ap pos (div_full b (omega arith)))
quot_full (negsuc b) p = absurd (omega arith)

pub double : (a : ℤ) → a *ℤ pos 2 ≡ a +ℤ a
unfolding ◌*ℤ◌ ◌+ℤ◌
double a = ground arith

-- The middle, rounded one way or the other.
pub record IsMiddle (s h : ℤ) : Type 0 where
  pub above : s ≤ℤ h +ℤ h +ℤ pos 1
  pub below : h +ℤ h ≤ℤ s +ℤ pos 1

pub quot_two : (s : ℤ) → IsMiddle s (quot s (pos 2))
unfolding quot ◌+ℤ◌
quot_two (pos n) = ground arith
quot_two (negsuc n) = ground arith

pub outside_flat : (d f : ℤ) → ltb_ℤ (abs d) f ≡ false → (d +ℤ f ≤ℤ pos 0) ⊎ (f ≤ℤ d)
unfolding ◌+ℤ◌
outside_flat d f h = ground arith

pub not_flat_above : (d f : ℤ) → f ≤ℤ d → ltb_ℤ (abs d) f ≡ false
not_flat_above d f h = ground arith

pub not_flat_below : (d f : ℤ) → d +ℤ f ≤ℤ pos 0 → ltb_ℤ (abs d) f ≡ false
unfolding ◌+ℤ◌
not_flat_below d f h = ground arith

pub lt→ltb_ℤ : (a b : ℤ) → a <ℤ b → ltb_ℤ a b ≡ true
lt→ltb_ℤ a b h = ground arith

pub not_ltb_ℤ_of_le : (a b : ℤ) → a ≤ℤ b → ltb_ℤ b a ≡ false
not_ltb_ℤ_of_le a b h = ground arith
