-- ===== src/Evdev/Devices/Reports.antt =====
-- evdev_handle_event as the handler of the device table: reading a device through it.
use moonlight_embedded_crash.Prelude.{◌≡◌, refl, inl, inr, List, [], ◌∷◌, ◌++◌, Bool-cases}
use moonlight_embedded_crash.Prelude.Bits.{Bits}
use moonlight_embedded_crash.Prelude.Text.{codes}
use moonlight_embedded_crash.Limelight.{Limelight, ControllerState, Sent}
use moonlight_embedded_crash.Evdev.{Device, InputCodes}
use moonlight_embedded_crash.Evdev.Event.{handle_event}
use moonlight_embedded_crash.Evdev.Event.Frame.{IsReported, last_sent, handle_event-IsReported}
use moonlight_embedded_crash.Evdev.Devices.{
  Handler, Read, success, sync, no_device, try_again, broken, read_device,
}

-- evdev_init
unfoldable pub event_handler : Limelight → InputCodes → Handler (Unit {0})
event_handler lime codes ids own dev ev =
    let r = handle_event lime codes ids dev ev in (r.ids, own, r.device, r.sent, r.go_on)

last_sent-append :
    (last : ControllerState) (s t : List Sent)
    → last_sent last (s ++ t) ≡ last_sent (last_sent last s) t
last_sent-append last [] t = refl
last_sent-append last (Sent.controller id state ∷ s) t = last_sent-append state s t
last_sent-append last (_ ∷ s) t = last_sent-append last s t

module _ (lime : Limelight) (codes : InputCodes) where
  -- Over any number of events read from a device, whatever they are and however reading ends: if
  -- the host knew the gamepad's state unless the device was marked as modified, it does so
  -- afterwards. So no change between two reports is lost.
  pub read_device-IsReported :
      (last : ControllerState) (reads : List Read) (dev : Device) (ids : Bits) (own : Unit {0})
      → IsReported last dev
      → let r = read_device (event_handler lime codes) reads dev ids own in
        IsReported (last_sent last r.sent) r.device
  unfolding read_device event_handler
  read_device-IsReported last [] dev ids own h = h
  read_device-IsReported last (success ev ∷ reads) dev ids own h =
      let reported = handle_event-IsReported lime codes last ids dev ev h in
      let r = handle_event lime codes ids dev ev in
      elim (Bool-cases r.go_on) [
        | inl e ↦
            rw (e, last_sent-append last r.sent)
              (read_device-IsReported (last_sent last r.sent) reads r.device r.ids own reported)
        | inr e ↦ rw e reported
      ]
  read_device-IsReported last (sync ev ∷ reads) dev ids own h =
      read_device-IsReported last reads dev ids own h
  read_device-IsReported last (no_device ∷ reads) dev ids own h = h
  read_device-IsReported last (try_again ∷ reads) dev ids own h = h
  read_device-IsReported last (broken ∷ reads) dev ids own h = h
