-- ===== src/SdlInput/Axes.antt =====
-- The values of axes that sdlinput_handle_event stores.
use moonlight_embedded_crash.Prelude.{ℕ, ◌+◌, ◌/◌, ◌^◌, ◌≤◌, ◌<◌, ◌≡◌, refl, ◌↔◌, arith}
use moonlight_embedded_crash.Prelude.Int.{ℤ, pos, ◌+ℤ◌, ◌-ℤ◌, to_short, IsShort}
use moonlight_embedded_crash.SdlInput.Pad.{trigger_byte, inverted}

-- A vertical axis is turned over without loss: a short becomes the short on the other side of
-- -1/2, so that up and down change places, and doing it twice gives the value back.
pub inverted-inverted :
    (value : ℤ)
    → IsShort value
    → IsShort (inverted value)
      × (inverted value ≡ pos 0 -ℤ value -ℤ pos 1)
      × (inverted (inverted value) ≡ value)
unfolding inverted to_short ◌-ℤ◌
inverted-inverted value h = (ground arith, ground arith, ground arith)

-- SDL gives a trigger from 0, released, to 32767. In that range the byte that the host gets is a
-- 256th of the value and 127 more: it grows with the value, but a released trigger is sent as 127
-- of 255, and one that is pressed down as 254.
pub trigger_byte_range :
    (value : ℕ)
    → value < 2 ^ 15
    → (trigger_byte (pos value) ≡ value / 256 + 127)
      × (127 ≤ trigger_byte (pos value))
      × (trigger_byte (pos value) ≤ 254)
      × ((trigger_byte (pos value) ≡ 127) ↔ (value < 256))
unfolding trigger_byte ◌+ℤ◌
trigger_byte_range value h =
    let same : trigger_byte (pos value) ≡ value / 256 + 127 = ground arith in
    rw same (refl, omega arith, omega arith, ((λ e. omega arith), (λ lt. omega arith)))
