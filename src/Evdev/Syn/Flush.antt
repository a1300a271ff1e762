-- ===== src/Evdev/Syn/Flush.antt =====
-- What a report (EV_SYN) sends, and that it sends it once.
use moonlight_embedded_crash.Prelude.{refl, true, false, [], ◌≡◌, arith}
use moonlight_embedded_crash.Evdev.Syn.{flush_scroll, flush_motion, flush_gamepad, handle_syn}
use moonlight_embedded_crash.Evdev.Handled.{Handled}
use moonlight_embedded_crash.Prelude.Int.{pos}
use moonlight_embedded_crash.Evdev.{Device}
use moonlight_embedded_crash.Prelude.Bits.{Bits}

-- Nothing has gathered since the last report.
pub record IsFlushed (dev : Device) : Type 0 where
  pub no_delta_x : dev.mouse_delta_x ≡ pos 0
  pub no_delta_y : dev.mouse_delta_y ≡ pos 0
  pub no_scroll : dev.mouse_scroll ≡ pos 0
  pub no_change : dev.gamepad_modified ≡ false

handle_syn-IsFlushed : (ids : Bits) (dev : Device) → IsFlushed (handle_syn ids dev).device
unfolding handle_syn
handle_syn-IsFlushed ids dev = ground arith

motion_flushed : (dev : Device) → IsFlushed dev → flush_motion dev ≡ (dev, [])
motion_flushed dev f = ground arith

scroll_flushed : (dev : Device) → IsFlushed dev → flush_scroll dev ≡ (dev, [])
scroll_flushed dev f = ground arith

gamepad_flushed :
    (ids : Bits) (dev : Device) → IsFlushed dev → flush_gamepad ids dev ≡ (ids, dev, [])
unfolding flush_gamepad
gamepad_flushed ids dev f = rw f.no_change

idle : Bits → Device → Handled
idle ids dev = record { ids = ids; device = dev; sent = []; go_on = true }

handle_syn_flushed : (ids : Bits) (dev : Device) → IsFlushed dev → handle_syn ids dev ≡ idle ids dev
unfolding handle_syn idle
handle_syn_flushed ids dev f =
    ground (arith, motion_flushed dev f, scroll_flushed dev f, gamepad_flushed ids dev f)

-- After a report nothing is left to send: a second one sends nothing and changes nothing.
pub handle_syn_twice :
    (ids : Bits) (dev : Device)
    → let r = handle_syn ids dev in
      let s = handle_syn r.ids r.device in (s.sent ≡ []) × (s.ids ≡ r.ids) × (s.device ≡ r.device)
unfolding idle
handle_syn_twice ids dev =
    rw
      (handle_syn_flushed (handle_syn ids dev).ids (handle_syn ids dev).device
        (handle_syn-IsFlushed ids dev))
      (refl, refl, refl)
