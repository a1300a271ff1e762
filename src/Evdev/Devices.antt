-- ===== src/Evdev/Devices.antt =====
-- The table of devices in src/input/evdev.c: evdev_create, evdev_remove, evdev_handle, evdev_drain
-- and evdev_start. `devices` holds the first `numDevices` slots of the array; the slots behind
-- them are never read before evdev_create clears them.
pub mod Remove
pub mod Descriptors
pub mod Reports
use mathlib.Core.Path.{subst}
use mathlib.Core.List.{append-nil, append_assoc}
use moonlight_embedded_crash.Prelude.{
  ℕ, zero, suc, ◌+◌, ◌-◌, ◌*◌, ◌/◌, ◌%◌, ◌^◌, ◌≤◌, ◌<◌, ◌≡◌, refl, sym, ap, ◌∙◌, fun_ext, ◌≢◌, ◌↔◌,
  ◌⊎◌, inl, inr, Bool, true, false, not, ◌&&◌, ◌||◌, Option, none, some, List, [], ◌∷◌, ◌++◌, map,
  arith, ltb, leb, ◌==◌, if◌then◌else◌, ltb→lt, lt→ltb, leb→le, ==_iff, ==_refl, Bool-cases,
  Option-cases, length, get_elem?, set, take, length-append, length-set, get_elem?-set_self,
  get_elem?-set_ne,
}
use moonlight_embedded_crash.Prelude.Int.{
  ℤ, pos, negsuc, ◌+ℤ◌, ◌-ℤ◌, ◌*ℤ◌, quot, ◌≤ℤ◌, ◌<ℤ◌, ltb_ℤ, leb_ℤ, eq_ℤ, abs, to_short, to_char,
  to_int, IsShort, IsInt, int_laws, eq_of_parts, eq_ℤ_refl, eq_ℤ→eq,
}
use moonlight_embedded_crash.Prelude.Bits.{
  Bits, bits, no_bits, ◌|b◌, ◌&b◌, ~b, one_bit, sign_extend, all_below, eq_bits, nonzero, zero_bit,
  nonzero_of_bit, eq_bits_sound, eq_bits_intro,
}
use moonlight_embedded_crash.Prelude.Text.{Bytes, codes, str_eq, is_space, str_eq_refl, str_eq→eq}
use moonlight_embedded_crash.Prelude.Process.{
  Process, running, exited, ◌>>=◌, exit_failure, minus_one,
}
use moonlight_embedded_crash.Prelude.Slots.{swap_remove}
use moonlight_embedded_crash.Limelight.{Limelight, Sent}
use moonlight_embedded_crash.Mapping.{Mapping, mapping_load}
use moonlight_embedded_crash.Evdev.{AbsParms, AbsInfo, init_parms, Device, InputEvent, InputCodes}

-- What one call of libevdev_next_event returns: LIBEVDEV_READ_STATUS_SUCCESS,
-- LIBEVDEV_READ_STATUS_SYNC, or a negative error.
pub data Read : Type 0 where
  success : InputEvent → Read
  sync : InputEvent → Read
  no_device : Read
  try_again : Read
  broken : Read

-- The statics of the file, with what the handler in place keeps of its own.
pub record Table (R : Type 0) : Type 0 where
  pub devices : List Device
  pub ids : Bits
  pub own : R

-- The function pointer `handler`: the ids, its own state, the device and the event give new ones,
-- the calls made, and the returned bool.
abbrev pub Handler : Type 0 → Type 0
Handler R = Bits → R → Device → InputEvent → Bits × R × Device × List Sent × Bool

-- `assignedControllerIds &= ~(1 << controllerId)` for an id that is not negative.
abbrev pub free_id : Bits → ℤ → Bits
free_id ids (pos n) = ids &b ~b (one_bit n)
free_id ids (negsuc n) = ids

-- evdev_remove, of slot `i` that holds `dev`.
unfoldable pub evdev_remove : {R : Type 0} → ℕ → Device → Table R → Table R
evdev_remove i dev t = record t {
  devices = swap_remove dev i t.devices;
  ids = free_id t.ids dev.controller_id;
}

-- How reading a device ended: the handler returned false, the device is gone, there is nothing
-- more to read, or another error, on which the process exits.
pub data ReadEnd : Type 0 where
  stopped gone drained fatal : ReadEnd

pub record Reading (R : Type 0) : Type 0 where
  pub device : Device
  pub ids : Bits
  pub own : R
  pub sent : List Sent
  pub end : ReadEnd

abbrev pub ended : {R : Type 0} → Device → Bits → R → ReadEnd → Reading R
ended dev ids own end = record { device = dev; ids = ids; own = own; sent = []; end = end }

abbrev pub after_sent : {R : Type 0} → List Sent → Reading R → Reading R
after_sent sent r = record r { sent = sent ++ r.sent }

-- The inner loop of evdev_handle over the results that are pending for a device. A device that
-- has no more of them answers -EAGAIN.
unfoldable pub read_device : {R : Type 0} → Handler R → List Read → Device → Bits → R → Reading R
read_device handler [] dev ids own = ended dev ids own drained
read_device handler (success ev ∷ reads) dev ids own =
    let (ids', own', dev', sent, go_on) = handler ids own dev ev in
    let rest = read_device handler reads dev' ids' own' in
    if go_on
    then after_sent sent rest
    else record { device = dev'; ids = ids'; own = own'; sent = sent; end = stopped }
read_device handler (sync ev ∷ reads) dev ids own = read_device handler reads dev ids own
read_device handler (no_device ∷ reads) dev ids own = ended dev ids own gone
read_device handler (try_again ∷ reads) dev ids own = ended dev ids own drained
read_device handler (broken ∷ reads) dev ids own = ended dev ids own fatal

-- LOOP_OK, LOOP_RETURN, or exit(EXIT_FAILURE).
pub data Status : Type 0 where
  loop_ok loop_return failed : Status

abbrev pub store_reading : {R : Type 0} → ℕ → Reading R → Table R → Table R
store_reading i r t = record { devices = set t.devices i r.device; ids = r.ids; own = r.own }

abbrev pub Outcome : Type 0 → Type 0
Outcome R = Table R × List Sent × Status

-- What follows in the loop of evdev_handle, with `sent` before it.
abbrev pub then_sent : {R : Type 0} → List Sent → Outcome R → Outcome R
then_sent sent (t, more, status) = (t, sent ++ more, status)

-- After reading slot `i`; `next` goes on with the next slot.
unfoldable pub finish_slot :
    {R : Type 0} → ReadEnd → (Table R → Outcome R) → ℕ → Reading R → Table R → Outcome R
finish_slot stopped next i r t = (store_reading i r t, r.sent, loop_return)
finish_slot gone next i r t =
    then_sent r.sent (next (evdev_remove i r.device (store_reading i r t)))
finish_slot drained next i r t = then_sent r.sent (next (store_reading i r t))
finish_slot fatal next i r t = (store_reading i r t, r.sent, failed)

-- `pending` gives the results that wait for a libevdev object.
module _ {R : Type 0} (handler : Handler R) (pending : ℕ → List Read) where
  -- Slot `i`, which holds `old`. The condition of the source's `if` is an assignment: the slot
  -- takes the descriptor, and is read unless the descriptor is 0.
  unfoldable pub handle_slot : (Table R → Outcome R) → ℕ → ℤ → Device → Table R → Outcome R
  handle_slot next i fd old t =
      let dev = record old { fd = fd } in
      let r = read_device handler (pending dev.dev) dev t.ids t.own in
      if eq_ℤ fd (pos 0)
      then next (record t { devices = set t.devices i dev })
      else finish_slot r.end next i r t

  -- The loop of evdev_handle from slot `i`, with at most `rounds` slots left.
  unfoldable pub handle_slots : ℕ → ℕ → ℤ → Table R → Outcome R
  handle_slots zero i fd t = (t, [], loop_ok)
  handle_slots (suc rounds) i fd t = elim (get_elem? t.devices i) [
    | none ↦ (t, [], loop_ok)
    | some old ↦ handle_slot (handle_slots rounds (i + 1) fd) i fd old t
  ]

  unfoldable pub evdev_handle : ℤ → Table R → Outcome R
  evdev_handle fd t = handle_slots (length t.devices) 0 fd t
