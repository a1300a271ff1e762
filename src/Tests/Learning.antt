-- ===== src/Tests/Learning.antt =====
-- A device that is created, and a button that is learnt.
use moonlight_embedded_crash.Prelude.{ℕ, ◌≡◌, refl, ap, true, false, none, some, [], ◌∷◌, arith}
use moonlight_embedded_crash.Prelude.Int.{ℤ, pos, pos_part}
use moonlight_embedded_crash.Prelude.Bits.{no_bits}
use moonlight_embedded_crash.Tests.{pad, stick, gamepad}
use moonlight_embedded_crash.Evdev.{AbsInfo, InputEvent, ev_key}
use moonlight_embedded_crash.Evdev.Devices.{Table}
use moonlight_embedded_crash.Evdev.Create.{zero_mapping, new_device}
use moonlight_embedded_crash.Evdev.Learn.{
  Place, Learning, handle_mapping_event, handle_mapping_event-key,
}

abbrev no_devices : Table (Unit {0})
no_devices = record { devices = []; ids = no_bits; own = tt }

abbrev info : ℕ → ℤ → AbsInfo
info dev code = stick

abbrev one_device : Table (Unit {0})
one_device = record no_devices { devices = new_device info (pos 5) 0 zero_mapping ∷ [] }

abbrev south : Place
south = record { get = λ m. m.btn_south; put = λ v m. record m { btn_south = v } }

abbrev learning : Learning
learning = record { map = pad; key = some south; axis = none; put_reverse = λ reverse m. m }

abbrev key_event : ℕ → ℤ → InputEvent
key_event code value = record { type = ev_key; code = code; value = value }

handle_mapping_event-key_example :
    let after =
      handle_mapping_event
        (λ dev code. stick)
        no_bits
        learning
        (gamepad 0)
        (key_event 305 (pos 1)) in
    (after.4 ≡ true)
    × (after.1.map.btn_south ≡ pos 305)
    × (handle_mapping_event (λ dev code. stick) no_bits after.1 (gamepad 0) (key_event 304 (pos 0))
        ≡ (no_bits, after.1, gamepad 0, [], true))
    × (handle_mapping_event (λ dev code. stick) no_bits after.1 (gamepad 0) (key_event 305 (pos 0))
        ≡ (no_bits, after.1, gamepad 0, [], false))
handle_mapping_event-key_example =
    handle_mapping_event-key (λ dev code. stick) no_bits (gamepad 0) learning south 305 304 (pos 1)
      (λ v m. refl) refl (omega arith) (λ e. cc (ap pos_part e)) (λ e. omega arith)
