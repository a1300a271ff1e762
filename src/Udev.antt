-- ===== src/Udev.antt =====
-- src/input/udev.c: the input devices that are found at the start, and those that are added later.
use moonlight_embedded_crash.Libc.Decimal.{
  print_nat_digits, AllBytes, is_digit, skip_spaces, print_nat,
}
use moonlight_embedded_crash.Libc.RoundTrip.{print_nat-ne-nil}
use moonlight_embedded_crash.Prelude.{
  ℕ, ◌≡◌, refl, ◌≢◌, inl, inr, Bool, true, false, not, ◌&&◌, ◌||◌, Option, none, some, List, [],
  ◌∷◌, ◌++◌, arith, ◌==◌, if◌then◌else◌, ==_refl, Bool-cases,
}
use moonlight_embedded_crash.Prelude.Int.{pos}
use moonlight_embedded_crash.Prelude.Text.{Bytes, codes, str_eq, is_space}
use moonlight_embedded_crash.Prelude.Process.{Process, running, exited}

-- The rest of a text behind a prefix.
unfoldable pub strip_prefix : Bytes → Bytes → Option Bytes
strip_prefix [] s = some s
strip_prefix (a ∷ prefix) [] = none
strip_prefix (a ∷ prefix) (b ∷ s) =
    let rest = strip_prefix prefix s in if a == b then rest else none

abbrev starts_with_digit : Bytes → Bool
starts_with_digit [] = false
starts_with_digit (c ∷ s) = is_digit c

abbrev signed_digits : Bytes → Bool
signed_digits [] = false
signed_digits (c ∷ s) = if c == b'-' || c == b'+' then starts_with_digit s else is_digit c

-- sscanf's %d finds a number.
unfoldable pub scans_int : Bytes → Bool
scans_int s = signed_digits (skip_spaces s)

abbrev scans_rest : Option Bytes → Bool
scans_rest none = false
scans_rest (some s) = scans_int s

-- sscanf(devnode, "/dev/input/event%d", &id) == 1
unfoldable pub is_event_node : Bytes → Bool
is_event_node devnode = scans_rest (strip_prefix (codes "/dev/input/event") devnode)

-- A call of evdev_create.
pub record Creation : Type 0 where
  pub device : Bytes
  pub map_file : Option Bytes

-- The test of devnode, which may be NULL, with the call under it.
unfoldable pub create_node : Option Bytes → Option Bytes → List Creation
create_node map_file none = []
create_node map_file (some devnode) =
    if is_event_node devnode then record { device = devnode; map_file = map_file } ∷ [] else []

-- The statics `autoadd` and `defaultMapfile`.
pub record Udev : Type 0 where
  pub autoadd : Bool
  pub default_mapfile : Option Bytes

-- udev_handle, on the action and the node of the device that the monitor gives. It returns LOOP_OK.
unfoldable pub udev_handle : Udev → Option Bytes → Option Bytes → List Creation
udev_handle udev none devnode = []
udev_handle udev (some action) devnode =
    if udev.autoadd && str_eq (codes "add") action
    then create_node udev.default_mapfile devnode
    else []

-- The loop over the devices that are enumerated, each by its node.
unfoldable pub create_nodes : Option Bytes → List (Option Bytes) → List Creation
create_nodes map_file [] = []
create_nodes map_file (devnode ∷ devices) =
    create_node map_file devnode ++ create_nodes map_file devices

-- udev_init, where `starts` is whether udev_new succeeds.
unfoldable pub udev_init :
    Bool → List (Option Bytes) → Bool → Option Bytes → Process (Udev × List Creation)
udev_init starts devices autoload map_file =
    if not starts
    then exited (pos 1)
    else running (
      record { autoadd = autoload; default_mapfile = map_file },
      if autoload then create_nodes map_file devices else [],
    )

strip_prefix-append : (prefix s : Bytes) → strip_prefix prefix (prefix ++ s) ≡ some s
unfolding strip_prefix
strip_prefix-append [] s = refl
strip_prefix-append (a ∷ prefix) s = rw (==_refl a, strip_prefix-append prefix s) refl

scans_int_digits : (s : Bytes) → s ≢ [] → AllBytes is_digit s → scans_int s ≡ true
unfolding scans_int skip_spaces is_space
scans_int_digits [] ne h = absurd (ne refl)
scans_int_digits (c ∷ s) ne (d, h) = ground arith

-- Every node /dev/input/eventN is created when it is added, for any number N, with the mapping file
-- that udev_init was given, if devices are to be added at all; when it is removed, nothing happens.
pub udev_handle-event_node :
    (udev : Udev) (n : ℕ)
    → let devnode = codes "/dev/input/event" ++ print_nat n in
      (udev_handle udev (some (codes "add")) (some devnode) ≡ (
        if udev.autoadd
        then record { device = devnode; map_file = udev.default_mapfile } ∷ []
        else []))
      × (udev_handle udev (some (codes "remove")) (some devnode) ≡ [])
unfolding udev_handle create_node is_event_node str_eq
udev_handle-event_node udev n =
    let digits : scans_int (print_nat n) ≡ true =
      scans_int_digits (print_nat n) (print_nat-ne-nil n) (print_nat_digits n) in
    let rest = strip_prefix-append (codes "/dev/input/event") (print_nat n) in
    elim (Bool-cases udev.autoadd) [
      | inl e ↦ (rw (e, rest, digits) refl, rw e refl)
      | inr e ↦ (rw e refl, rw e refl)
    ]
