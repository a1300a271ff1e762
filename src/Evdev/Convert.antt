-- ===== src/Evdev/Convert.antt =====
-- evdev_convert_value, evdev_convert_value_byte and evdev_convert_value_direction. The sums of the
-- source are of ints and long longs that do not overflow for 16-bit axes; here they are integers.
pub mod Quotient
pub mod Bounds
pub mod Ends
use moonlight_embedded_crash.Prelude.{ℕ, Bool, true, false, if◌then◌else◌}
use moonlight_embedded_crash.Prelude.Int.{
  ℤ, pos, negsuc, ◌+ℤ◌, ◌-ℤ◌, ◌*ℤ◌, quot, ltb_ℤ, abs, to_short, shrt_min, shrt_max, pattern_of,
}
use moonlight_embedded_crash.Evdev.{AbsParms}

-- SHRT_MAX - SHRT_MIN
abbrev pub short_span : ℤ
short_span = pos 65535

-- parms->max - parms->min - parms->flat * 2
abbrev pub live_span : AbsParms → ℤ
live_span parms = parms.max -ℤ parms.min -ℤ parms.flat *ℤ pos 2

-- How far the value is from the end of the axis that becomes SHRT_MIN, with the flat part cut out.
unfoldable pub live_offset : Bool → AbsParms → ℤ → ℤ
live_offset true parms value =
    parms.max -ℤ (if ltb_ℤ value parms.avg then parms.flat *ℤ pos 2 else pos 0) -ℤ value
live_offset false parms value =
    value -ℤ (if ltb_ℤ parms.avg value then parms.flat *ℤ pos 2 else pos 0) -ℤ parms.min

unfoldable pub convert_value : AbsParms → Bool → ℤ → ℤ
convert_value parms reverse value =
    if ltb_ℤ (abs (value -ℤ parms.avg)) parms.flat
    then pos 0
    else if ltb_ℤ parms.max value
    then (if reverse then shrt_min else shrt_max)
    else if ltb_ℤ value parms.min
    then (if reverse then shrt_max else shrt_min)
    else to_short
        (quot (live_offset reverse parms value *ℤ short_span) (live_span parms) +ℤ shrt_min)

-- The result is the byte of the char that the source returns.
unfoldable pub convert_value_byte : AbsParms → ℤ → ℕ
convert_value_byte parms value =
    if ltb_ℤ (abs (value -ℤ parms.min)) parms.flat
    then 0
    else if ltb_ℤ parms.max value
    then 255
    else pattern_of 8
        (quot ((value -ℤ parms.flat -ℤ parms.min) *ℤ pos 255) (parms.diff -ℤ parms.flat))

unfoldable pub convert_value_direction : AbsParms → Bool → ℤ → ℤ
convert_value_direction parms reverse value =
    if ltb_ℤ (parms.avg +ℤ quot parms.range (pos 4)) value
    then (if reverse then negsuc 0 else pos 1)
    else if ltb_ℤ value (parms.avg -ℤ quot parms.range (pos 4))
    then (if reverse then pos 1 else negsuc 0)
    else pos 0
