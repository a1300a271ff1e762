-- ===== src/Tests/Pad.antt =====
-- The conversions, the event handlers and the device table on a concrete gamepad.
use mathlib.Core.List.{Perm}
use moonlight_embedded_crash.Prelude.{
  ◌||◌, ◌+◌, ℕ, zero, suc, ◌<◌, ◌≡◌, refl, ◌≢◌, ◌↔◌, true, false, not, ◌&&◌, some, List, [], ◌∷◌,
  if◌then◌else◌, get_elem?,
}
use moonlight_embedded_crash.Prelude.Int.{
  to_short, ℤ, pos, negsuc, ◌+ℤ◌, ◌-ℤ◌, ◌*ℤ◌, quot, ltb_ℤ, eq_ℤ, abs, to_short, int_laws,
}
use moonlight_embedded_crash.Prelude.Bits.{Bits, no_bits, ◌|b◌, one_bit, eq_bits, nonzero}
use moonlight_embedded_crash.Prelude.Text.{Bytes, codes, str_eq}
use moonlight_embedded_crash.Prelude.Process.{running, ◌>>=◌}
use moonlight_embedded_crash.Tests.{lime, linux, pad, pad-IsMapping, stick, hat, gamepad}
use moonlight_embedded_crash.Limelight.{keyboard, up, down}
use moonlight_embedded_crash.Mapping.{
  Mapping, IsMapping, mapping_load, mapping_save, set_key, is_true,
}
use moonlight_embedded_crash.Mapping.RoundTrip.{mapping_load-mapping_save}
use moonlight_embedded_crash.KeyCodes.{key_codes}
use moonlight_embedded_crash.Evdev.Handled.{is_zero}
use moonlight_embedded_crash.Evdev.{
  Device, InputEvent, EventType, ev_abs, ev_key, ev_syn, init_parms,
}
use moonlight_embedded_crash.Evdev.Convert.{convert_value, live_offset, convert_value_direction}
use moonlight_embedded_crash.Evdev.Convert.Bounds.{IsUsable, exact, convert_value_live}
use moonlight_embedded_crash.Evdev.Convert.Ends.{convert_value_ends}
use moonlight_embedded_crash.Evdev.Syn.{assign_id, handle_syn, controller_state}
use moonlight_embedded_crash.Evdev.Syn.Ids.{Assigned, assign_id_lem}
use moonlight_embedded_crash.Evdev.Key.{gets, handle_key}
use moonlight_embedded_crash.Evdev.Key.Quit.{stands_for, handle_key_quits}
use moonlight_embedded_crash.Evdev.Button.{mouse_code_of, handle_button}
use moonlight_embedded_crash.Evdev.Axis.{move_axis}
use moonlight_embedded_crash.Evdev.Axis.Dpad.{move_axis_dpad_x}
use moonlight_embedded_crash.Evdev.Event.{handle_event}
use moonlight_embedded_crash.Evdev.Event.Keeps.{handle_event-fd}
use moonlight_embedded_crash.Evdev.Devices.Descriptors.{IsPresent, evdev_handle-fd}
use moonlight_embedded_crash.Evdev.Event.Frame.{last_sent, IsReported}
use moonlight_embedded_crash.Evdev.Devices.{
  Table, Handler, Read, success, try_again, evdev_remove, free_id, evdev_handle, read_device,
  Reading, loop_ok,
}
use moonlight_embedded_crash.Evdev.Devices.Remove.{evdev_remove-perm}
use moonlight_embedded_crash.Evdev.Devices.Reports.{event_handler, read_device-IsReported}

abbrev event : EventType → ℕ → ℤ → InputEvent
event t c v = record { type = t; code = c; value = v }

abbrev north : InputEvent
north = event ev_key 307 (pos 1)

stick-IsUsable : IsUsable stick
stick-IsUsable = record { flat_nonneg = omega int_laws; travel = omega int_laws }

-- The ends of a stick's travel, and the middle, which is in the flat part.
stick_values :
    (convert_value (init_parms stick) false (pos 32767) ≡ pos 32767)
    × (convert_value (init_parms stick) true (pos 32767) ≡ negsuc 32767)
    × (convert_value (init_parms stick) false (pos 100) ≡ pos 0)
unfolding convert_value init_parms ◌-ℤ◌ quot ◌+ℤ◌ to_short ◌*ℤ◌ live_offset
stick_values = (refl, refl, refl)

mapping_round_trip_example :
    (mapping_save true pad >>= λ text. mapping_load (some text) pad) ≡ running pad
mapping_round_trip_example = mapping_load-mapping_save pad pad pad-IsMapping

abbrev overflow_line : Bytes
overflow_line = codes "abs_x = 70000\n"

abbrev overflowed : Mapping
overflowed = record pad { abs_x = pos 4464 }

loads : mapping_load (some overflow_line) pad ≡ running overflowed
unfolding mapping_load moonlight_embedded_crash.Mapping.load_lines
    moonlight_embedded_crash.Libc.Scan.lines moonlight_embedded_crash.Libc.Scan.scan_pair
    moonlight_embedded_crash.Libc.Scan.scan_word moonlight_embedded_crash.Libc.Scan.span
    moonlight_embedded_crash.Libc.Decimal.skip_spaces set_key
    moonlight_embedded_crash.Mapping.assign moonlight_embedded_crash.Mapping.field_of str_eq
    to_short moonlight_embedded_crash.Libc.Decimal.strtol
loads = refl

stick_ends_example :
    (convert_value (init_parms stick) true (pos 32767) ≡ negsuc 32767)
    × (convert_value (init_parms stick) true (negsuc 32767) ≡ pos 32767)
stick_ends_example = convert_value_ends stick stick-IsUsable true

not_flat : ltb_ℤ (abs (pos 20000 -ℤ (init_parms stick).avg)) stick.flat ≡ false
unfolding init_parms ◌-ℤ◌ quot ◌+ℤ◌
not_flat = refl

stick_live_example :
    convert_value (init_parms stick) false (pos 20000) ≡ exact false (init_parms stick) (pos 20000)
stick_live_example =
    convert_value_live stick stick-IsUsable (pos 20000) (omega int_laws) (omega int_laws) false
      not_flat

-- Ctrl, Alt and Shift are down, and Q is pressed.
abbrev quitting : Device
quitting = record (gamepad 0) { modifiers = one_bit 0 |b one_bit 1 |b one_bit 2 }

abbrev press_q : InputEvent
press_q = event ev_key 16 (pos 1)

quits_now : (handle_key lime linux no_bits quitting press_q).go_on ≡ false
unfolding handle_key eq_bits nonzero
quits_now = refl

handle_key_quits_example :
    let r = handle_key lime linux no_bits quitting press_q in
    ((r.go_on ≡ false) ↔ (
      ((i : ℕ)
        → i < 8
        → lime.modifier_shift i || lime.modifier_alt i || lime.modifier_ctrl i ≡ true
        → r.device.modifiers i ≡ true)
      × (press_q.code ≡ linux.key_q)
      × (pos 1 ≢ pos 0)))
    × (r.go_on ≡ false → r.sent ≡ [])
    × (r.go_on ≡ true
        → r.sent
          ≡ keyboard
              (to_short (pos (0x8000 + gets (get_elem? key_codes press_q.code))))
              (if is_zero press_q.value then up else down)
              r.device.modifiers
            ∷ [])
    × ((i : ℕ)
        → i < 8
        → r.device.modifiers i ≡ (
            if stands_for lime linux press_q.code i
            then not (is_zero press_q.value)
            else quitting.modifiers i))
handle_key_quits_example = handle_key_quits lime linux no_bits quitting press_q

-- Id 0 is in use.
assign_id_example : Assigned (one_bit 0) (negsuc 0) (assign_id (one_bit 0) (negsuc 0))
assign_id_example = assign_id_lem (one_bit 0) (negsuc 0)

no_mouse : mouse_code_of lime linux 307 ≡ 0
unfolding mouse_code_of
no_mouse = refl

abbrev hat_right : InputEvent
hat_right = event ev_abs 16 (pos 1)

move_axis_dpad_x_example :
    let dir = convert_value_direction (init_parms hat) false (pos 1) in
    (move_axis lime linux (gamepad 0) hat_right).0.button_flags 3
    ≡ (if true then eq_ℤ dir (pos 1) else if false then eq_ℤ dir (negsuc 0) else false)
move_axis_dpad_x_example =
    move_axis_dpad_x lime linux (gamepad 0) hat_right 3 (refl, refl, refl, refl, refl, refl, refl)
      refl

-- Two gamepads; `arrived` waits for the first.
abbrev two_pads : Table (Unit {0})
two_pads = record {
  devices =
      record (gamepad 0) { controller_id = pos 0 }
      ∷ record (gamepad 1) { controller_id = pos 1 }
      ∷ [];
  ids = one_bit 0 |b one_bit 1;
  own = tt;
}

evdev_remove_example :
    let t' = evdev_remove 0 (record (gamepad 0) { controller_id = pos 0 }) two_pads in
    Perm (record (gamepad 0) { controller_id = pos 0 } ∷ t'.devices) two_pads.devices
    × ((k : ℕ) → t'.ids k ≡ two_pads.ids k && not (eq_ℤ (pos 0) (pos k)))
evdev_remove_example =
    evdev_remove-perm two_pads 0 (record (gamepad 0) { controller_id = pos 0 }) refl

abbrev arrived : ℕ → List Read
arrived zero = success north ∷ success (event ev_syn 0 (pos 0)) ∷ try_again ∷ []
arrived (suc k) = []

event_handler-fd :
    (ids : Bits) (own : Unit {0}) (dev : Device) (ev : InputEvent)
    → (event_handler lime linux ids own dev ev).2.fd ≡ dev.fd
unfolding event_handler
event_handler-fd ids own dev ev = handle_event-fd lime linux ids dev ev

arrived-IsPresent : (k : ℕ) → IsPresent (arrived k)
arrived-IsPresent zero = tt
arrived-IsPresent (suc k) = tt

-- Descriptor 10 is ready, which is the first gamepad's.
after_ten : (evdev_handle (event_handler lime linux) arrived (pos 10) two_pads).2 ≡ loop_ok
unfolding evdev_handle moonlight_embedded_crash.Evdev.Devices.handle_slots
    moonlight_embedded_crash.Evdev.Devices.handle_slot
    moonlight_embedded_crash.Evdev.Devices.finish_slot read_device event_handler handle_event
    moonlight_embedded_crash.Evdev.Event.dispatch moonlight_embedded_crash.KeyCodes.key_codes
    handle_button mouse_code_of handle_syn
after_ten = refl

abbrev second : Device
second = record (gamepad 1) { controller_id = pos 1; fd = pos 10 }

second_after :
    get_elem? (evdev_handle (event_handler lime linux) arrived (pos 10) two_pads).0.devices 1
    ≡ some second
unfolding evdev_handle moonlight_embedded_crash.Evdev.Devices.handle_slots
    moonlight_embedded_crash.Evdev.Devices.handle_slot
    moonlight_embedded_crash.Evdev.Devices.finish_slot read_device event_handler handle_event
    moonlight_embedded_crash.Evdev.Event.dispatch moonlight_embedded_crash.KeyCodes.key_codes
    handle_button mouse_code_of handle_syn
second_after = refl

-- The second gamepad, whose descriptor was 11, has descriptor 10 now.
evdev_handle-fd_example : second.fd ≡ pos 10
evdev_handle-fd_example =
    evdev_handle-fd (event_handler lime linux) arrived event_handler-fd arrived-IsPresent (pos 10)
      two_pads after_ten 1 second second_after

read_device-IsReported_example :
    let r = read_device (event_handler lime linux) (arrived 0) (gamepad 0) no_bits tt in
    IsReported (last_sent (controller_state (gamepad 0)) r.sent) r.device
read_device-IsReported_example =
    read_device-IsReported lime linux (controller_state (gamepad 0)) (arrived 0) (gamepad 0) no_bits
      tt (λ _. refl)
