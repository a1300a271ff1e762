-- ===== src/Evdev/Convert/Bounds.antt =====
-- Between the ends of a usable axis the 16-bit result of `convert_value` does not wrap.
use moonlight_embedded_crash.Evdev.Convert.Quotient.{
  quot_bounds, double, IsMiddle, quot_two, outside_flat, not_ltb_ℤ_of_le,
}
use moonlight_embedded_crash.Prelude.Int.{
  ltb_ℤ→lt, not_ltb_ℤ→le, to_short_of_IsShort, IsShort, shrt_min, ℤ, pos, ◌+ℤ◌, ◌-ℤ◌, ◌*ℤ◌, quot,
  ◌≤ℤ◌, ◌<ℤ◌, ltb_ℤ, abs, int_laws,
}
use moonlight_embedded_crash.Prelude.{◌≡◌, inl, inr, Bool-cases, Bool, true, false}
use moonlight_embedded_crash.Evdev.{init_parms, AbsParms, AbsInfo}
use moonlight_embedded_crash.Evdev.Convert.{convert_value, short_span, live_span, live_offset}

-- An axis with some travel outside its flat part.
pub record IsUsable (info : AbsInfo) : Type 0 where
  pub flat_nonneg : pos 0 ≤ℤ info.flat
  pub travel : info.minimum +ℤ info.flat +ℤ info.flat <ℤ info.maximum

abbrev pub InLive : Bool → AbsParms → ℤ → Type 0
InLive r p v = (pos 0 ≤ℤ live_offset r p v) × (live_offset r p v ≤ℤ live_span p)

module _ (p : AbsParms) (v : ℤ) (flat_nonneg : pos 0 ≤ℤ p.flat)
    (travel : p.min +ℤ p.flat +ℤ p.flat <ℤ p.max) (middle : IsMiddle (p.min +ℤ p.max) p.avg)
    (lo : p.min ≤ℤ v) (hi : v ≤ℤ p.max) where
  live_offset_bounds : (r : Bool) → ltb_ℤ (abs (v -ℤ p.avg)) p.flat ≡ false → InLive r p v
  unfolding live_offset
  live_offset_bounds true h = elim (Bool-cases (ltb_ℤ v p.avg)) [
    | inl e ↦
        rw (e, double)
          (omega (
            int_laws,
            outside_flat (v -ℤ p.avg) p.flat h,
            ltb_ℤ→lt v p.avg e,
            middle.above,
            middle.below,
          ))
    | inr e ↦
        rw (e, double)
          (omega (
            int_laws,
            outside_flat (v -ℤ p.avg) p.flat h,
            not_ltb_ℤ→le v p.avg e,
            middle.above,
            middle.below,
          ))
  ]
  live_offset_bounds false h = elim (Bool-cases (ltb_ℤ p.avg v)) [
    | inl e ↦
        rw (e, double)
          (omega (
            int_laws,
            outside_flat (v -ℤ p.avg) p.flat h,
            ltb_ℤ→lt p.avg v e,
            middle.above,
            middle.below,
          ))
    | inr e ↦
        rw (e, double)
          (omega (
            int_laws,
            outside_flat (v -ℤ p.avg) p.flat h,
            not_ltb_ℤ→le p.avg v e,
            middle.above,
            middle.below,
          ))
  ]

-- What `convert_value` returns between the ends and outside the flat part: the two terms of the
-- source, with nothing lost by the conversion to a short.
abbrev pub exact : Bool → AbsParms → ℤ → ℤ
exact r p v = quot (live_offset r p v *ℤ short_span) (live_span p) +ℤ shrt_min

pub live_span_pos : (info : AbsInfo) → IsUsable info → pos 0 <ℤ live_span (init_parms info)
unfolding init_parms
(live_span_pos info u) = rw double (omega (int_laws, u.travel))

module _ (info : AbsInfo) (u : IsUsable info) (v : ℤ) (lo : info.minimum ≤ℤ v)
    (hi : v ≤ℤ info.maximum) where
  pub live :
      (r : Bool)
      → ltb_ℤ (abs (v -ℤ (init_parms info).avg)) info.flat ≡ false
      → InLive r (init_parms info) v
  unfolding init_parms
  live r h =
      live_offset_bounds (init_parms info) v u.flat_nonneg u.travel
        (quot_two (info.minimum +ℤ info.maximum)) lo hi r h

  exact-IsShort : (r : Bool) → InLive r (init_parms info) v → IsShort (exact r (init_parms info) v)
  exact-IsShort r h = omega (
    int_laws,
    quot_bounds (live_offset r (init_parms info) v) (live_span (init_parms info)) h.0 h.1
        (live_span_pos info u),
  )

  -- Between the ends of a usable axis and outside its flat part the value is the quotient of the
  -- source in full: the conversion to a short loses nothing.
  pub convert_value_live :
      (r : Bool)
      → ltb_ℤ (abs (v -ℤ (init_parms info).avg)) info.flat ≡ false
      → convert_value (init_parms info) r v ≡ exact r (init_parms info) v
  unfolding convert_value init_parms
  convert_value_live r h =
      rw (h, not_ltb_ℤ_of_le v info.maximum hi, not_ltb_ℤ_of_le info.minimum v lo)
        (to_short_of_IsShort (exact r (init_parms info) v) (exact-IsShort r (live r h)))
