-- ===== src/Evdev/Devices/Remove.antt =====
-- What evdev_remove keeps: all other devices, in another order, and all other controller ids.
use mathlib.Core.List.{Perm}
use moonlight_embedded_crash.Prelude.{ℕ, ◌≡◌, not, ◌&&◌, some, ◌∷◌, arith, get_elem?}
use moonlight_embedded_crash.Prelude.Int.{ℤ, pos, negsuc, eq_ℤ}
use moonlight_embedded_crash.Prelude.Bits.{Bits}
use moonlight_embedded_crash.Evdev.{Device}
use moonlight_embedded_crash.Evdev.Devices.{Table, free_id, evdev_remove}
use moonlight_embedded_crash.Prelude.Slots.{swap_remove-perm}

free_id_bits : (ids : Bits) (id : ℤ) (k : ℕ) → free_id ids id k ≡ ids k && not (eq_ℤ id (pos k))
free_id_bits ids (pos n) k = ground arith
free_id_bits ids (negsuc n) k = ground arith

-- Removing the device of a slot leaves all other devices in the table, in some order, and frees
-- the controller id of the removed device alone.
pub evdev_remove-perm :
    {R : Type 0} (t : Table R) (i : ℕ) (dev : Device)
    → get_elem? t.devices i ≡ some dev
    → let t' = evdev_remove i dev t in
      Perm (dev ∷ t'.devices) t.devices
      × ((k : ℕ) → t'.ids k ≡ t.ids k && not (eq_ℤ dev.controller_id (pos k)))
unfolding evdev_remove
evdev_remove-perm t i dev h =
    (swap_remove-perm dev t.devices i h, free_id_bits t.ids dev.controller_id)
