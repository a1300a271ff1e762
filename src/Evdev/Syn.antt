-- ===== src/Evdev/Syn.antt =====
-- evdev_handle_event, EV_SYN: what has gathered since the last report is sent.
pub mod Ids
pub mod Flush
use moonlight_embedded_crash.Prelude.{
  ℕ, zero, suc, ◌+◌, Bool, true, false, not, ◌&&◌, ◌||◌, List, [], ◌∷◌, ◌++◌, Option, none, some,
  length, get_elem?, ltb, ◌==◌, if◌then◌else◌,
}
use moonlight_embedded_crash.Prelude.Int.{ℤ, pos, negsuc, eq_ℤ, ltb_ℤ, to_short}
use moonlight_embedded_crash.Prelude.Bits.{
  Bits, no_bits, ◌|b◌, ◌&b◌, ~b, one_bit, sign_extend, eq_bits, nonzero,
}
use moonlight_embedded_crash.Limelight.{
  Limelight, Action, down, up, ControllerState, Sent, mouse_move, scroll, mouse_button, keyboard,
  controller,
}
use moonlight_embedded_crash.Mapping.{Mapping}
use moonlight_embedded_crash.KeyCodes.{key_codes}
use moonlight_embedded_crash.Evdev.{
  Device, InputEvent, InputCodes, EventType, ev_syn, ev_key, ev_rel, ev_abs, ev_other,
}
use moonlight_embedded_crash.Evdev.Convert.{
  convert_value, convert_value_byte, convert_value_direction,
}
use moonlight_embedded_crash.Evdev.Handled.{Handled, is_zero, choose, is_code, mark}

-- The loop over the four controller ids, from id `i` with `rounds` left: the first free id is
-- taken. `ids i` is the test `assignedControllerIds & (1 << i)`.
unfoldable pub take_id : ℕ → ℕ → Bits → ℤ → Bits × ℤ
take_id zero i ids id = (ids, id)
take_id (suc rounds) i ids id =
    if ids i then take_id rounds (i + 1) ids id else (ids |b one_bit i, pos i)

-- After the loop: id 0 when too many gamepads are connected.
abbrev pub or_zero : Bits × ℤ → Bits × ℤ
or_zero (ids, id) = (ids, if ltb_ℤ id (pos 0) then pos 0 else id)

-- A negative id asks for one.
unfoldable pub assign_id : Bits → ℤ → Bits × ℤ
assign_id ids id = if ltb_ℤ id (pos 0) then or_zero (take_id 4 0 ids id) else (ids, id)

abbrev pub controller_state : Device → ControllerState
controller_state dev = record {
  button_flags = dev.button_flags;
  left_trigger = dev.left_trigger;
  right_trigger = dev.right_trigger;
  left_stick_x = dev.left_stick_x;
  left_stick_y = dev.left_stick_y;
  right_stick_x = dev.right_stick_x;
  right_stick_y = dev.right_stick_y;
}

-- EV_SYN, its three parts.
abbrev pub flush_motion : Device → Device × List Sent
flush_motion dev =
    if not (is_zero dev.mouse_delta_x) || not (is_zero dev.mouse_delta_y)
    then (
      record dev { mouse_delta_x = pos 0; mouse_delta_y = pos 0 },
      mouse_move dev.mouse_delta_x dev.mouse_delta_y ∷ [],
    )
    else (dev, [])

abbrev pub flush_scroll : Device → Device × List Sent
flush_scroll dev =
    if not (is_zero dev.mouse_scroll)
    then (record dev { mouse_scroll = pos 0 }, scroll dev.mouse_scroll ∷ [])
    else (dev, [])

unfoldable pub flush_gamepad : Bits → Device → Bits × Device × List Sent
flush_gamepad ids dev =
    if dev.gamepad_modified
    then (let (ids', id) = assign_id ids dev.controller_id in
        (
          ids',
          record dev { controller_id = id; gamepad_modified = false },
          controller id (controller_state dev) ∷ [],
        ))
    else (ids, dev, [])

unfoldable pub handle_syn : Bits → Device → Handled
unfolding flush_gamepad
handle_syn ids dev =
    let (d1, s1) = flush_motion dev in
    let (d2, s2) = flush_scroll d1 in
    let (ids', d3, s3) = flush_gamepad ids d2 in
    record { ids = ids'; device = d3; sent = s1 ++ (s2 ++ s3); go_on = true }
