-- ===== src/Evdev/Convert/Ends.antt =====
-- `convert_value` takes the ends of a usable axis to the ends of a short's range.
use moonlight_embedded_crash.Evdev.Convert.Quotient.{
  quot_zero, quot_full, double, IsMiddle, quot_two, not_flat_above, not_flat_below,
}
use moonlight_embedded_crash.Prelude.Int.{
  ltb_ℤ→lt, not_ltb_ℤ→le, shrt_max, shrt_min, ℤ, pos, ◌+ℤ◌, ◌-ℤ◌, ◌*ℤ◌, quot, ◌≤ℤ◌, ltb_ℤ, abs,
  int_laws,
}
use moonlight_embedded_crash.Evdev.Convert.Bounds.{
  IsUsable, exact, live_span_pos, convert_value_live,
}
use moonlight_embedded_crash.Prelude.{
  refl, ◌∙◌, if◌then◌else◌, ◌≡◌, inl, inr, Bool-cases, ap, Bool, true, false, arith,
}
use moonlight_embedded_crash.Evdev.{init_parms, AbsInfo}
use moonlight_embedded_crash.Evdev.Convert.{convert_value, short_span, live_span, live_offset}

module _ (info : AbsInfo) (u : IsUsable info) where
  mid : IsMiddle (info.minimum +ℤ info.maximum) (init_parms info).avg
  unfolding init_parms
  mid = quot_two (info.minimum +ℤ info.maximum)

  order : info.minimum ≤ℤ info.maximum
  order = omega (int_laws, u.travel, u.flat_nonneg)

  max_not_flat : ltb_ℤ (abs (info.maximum -ℤ (init_parms info).avg)) info.flat ≡ false
  max_not_flat =
      not_flat_above (info.maximum -ℤ (init_parms info).avg) info.flat
        (omega (int_laws, mid.above, mid.below, u.travel, u.flat_nonneg))

  min_not_flat : ltb_ℤ (abs (info.minimum -ℤ (init_parms info).avg)) info.flat ≡ false
  min_not_flat =
      not_flat_below (info.minimum -ℤ (init_parms info).avg) info.flat
        (omega (int_laws, mid.above, mid.below, u.travel, u.flat_nonneg))

  max_offset : live_offset false (init_parms info) info.maximum ≡ live_span (init_parms info)
  unfolding live_offset init_parms
  max_offset = elim (Bool-cases (ltb_ℤ (init_parms info).avg info.maximum)) [
    | inl e ↦
        rw (e, double)
          (omega (
            int_laws,
            mid.above,
            mid.below,
            u.travel,
            u.flat_nonneg,
            ltb_ℤ→lt (init_parms info).avg info.maximum e,
          ))
    | inr e ↦
        rw (e, double)
          (omega (
            int_laws,
            mid.above,
            mid.below,
            u.travel,
            u.flat_nonneg,
            not_ltb_ℤ→le (init_parms info).avg info.maximum e,
          ))
  ]

  min_offset : live_offset false (init_parms info) info.minimum ≡ pos 0
  unfolding live_offset init_parms
  min_offset = elim (Bool-cases (ltb_ℤ (init_parms info).avg info.minimum)) [
    | inl e ↦
        rw (e, double)
          (omega (
            int_laws,
            mid.above,
            mid.below,
            u.travel,
            u.flat_nonneg,
            ltb_ℤ→lt (init_parms info).avg info.minimum e,
          ))
    | inr e ↦ rw e (
        omega (
          int_laws,
          mid.above,
          mid.below,
          u.travel,
          u.flat_nonneg,
          not_ltb_ℤ→le (init_parms info).avg info.minimum e,
        ))
  ]

  max_offset_reverse : live_offset true (init_parms info) info.maximum ≡ pos 0
  unfolding live_offset init_parms
  max_offset_reverse = elim (Bool-cases (ltb_ℤ info.maximum (init_parms info).avg)) [
    | inl e ↦
        rw (e, double)
          (omega (
            int_laws,
            mid.above,
            mid.below,
            u.travel,
            u.flat_nonneg,
            ltb_ℤ→lt info.maximum (init_parms info).avg e,
          ))
    | inr e ↦ rw e (
        omega (
          int_laws,
          mid.above,
          mid.below,
          u.travel,
          u.flat_nonneg,
          not_ltb_ℤ→le info.maximum (init_parms info).avg e,
        ))
  ]

  min_offset_reverse : live_offset true (init_parms info) info.minimum ≡ live_span (init_parms info)
  unfolding live_offset init_parms
  min_offset_reverse = elim (Bool-cases (ltb_ℤ info.minimum (init_parms info).avg)) [
    | inl e ↦
        rw (e, double)
          (omega (
            int_laws,
            mid.above,
            mid.below,
            u.travel,
            u.flat_nonneg,
            ltb_ℤ→lt info.minimum (init_parms info).avg e,
          ))
    | inr e ↦
        rw (e, double)
          (omega (
            int_laws,
            mid.above,
            mid.below,
            u.travel,
            u.flat_nonneg,
            not_ltb_ℤ→le info.minimum (init_parms info).avg e,
          ))
  ]

  zero_exact :
      (r : Bool) (v : ℤ)
      → live_offset r (init_parms info) v ≡ pos 0
      → exact r (init_parms info) v ≡ shrt_min
  zero_exact r v e =
      ap (λ o. quot (o *ℤ short_span) (live_span (init_parms info)) +ℤ shrt_min) e
      ∙ ap (λ q. q +ℤ shrt_min) (quot_zero (live_span (init_parms info)))
      ∙ (unfold ◌+ℤ◌ in refl)

  full_exact :
      (r : Bool) (v : ℤ)
      → live_offset r (init_parms info) v ≡ live_span (init_parms info)
      → exact r (init_parms info) v ≡ shrt_max
  full_exact r v e =
      ap (λ o. quot (o *ℤ short_span) (live_span (init_parms info)) +ℤ shrt_min) e
      ∙ ap (λ q. q +ℤ shrt_min) (quot_full (live_span (init_parms info)) (live_span_pos info u))
      ∙ (unfold ◌+ℤ◌ in refl)

  max_exact :
      (r : Bool) → exact r (init_parms info) info.maximum ≡ (if r then shrt_min else shrt_max)
  max_exact true = zero_exact true info.maximum max_offset_reverse
  max_exact false = full_exact false info.maximum max_offset

  min_exact :
      (r : Bool) → exact r (init_parms info) info.minimum ≡ (if r then shrt_max else shrt_min)
  min_exact true = full_exact true info.minimum min_offset_reverse
  min_exact false = zero_exact false info.minimum min_offset

  -- On a usable axis the two ends of the travel become the two ends of the short's range, the
  -- other way round where the axis is reversed.
  pub convert_value_ends :
      (r : Bool)
      → (convert_value (init_parms info) r info.maximum ≡ (if r then shrt_min else shrt_max))
        × (convert_value (init_parms info) r info.minimum ≡ (if r then shrt_max else shrt_min))
  convert_value_ends r = (
    convert_value_live info u info.maximum order (omega arith) r max_not_flat ∙ max_exact r,
    convert_value_live info u info.minimum (omega arith) order r min_not_flat ∙ min_exact r,
  )
