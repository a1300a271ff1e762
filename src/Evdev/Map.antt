-- ===== src/Evdev/Map.antt =====
-- evdev_map of src/input/evdev.c: the prompts that a mapping is made with, one after the other.
pub mod Learns
pub mod Gamepad
pub mod Effects
pub mod Pad
use mathlib.Core.Path.{subst}
use mathlib.Core.List.{append-nil, append_assoc}
use moonlight_embedded_crash.Prelude.{
  ℕ, zero, suc, ◌+◌, ◌-◌, ◌*◌, ◌/◌, ◌%◌, ◌^◌, ◌≤◌, ◌<◌, ◌≡◌, refl, sym, ap, ◌∙◌, fun_ext, ◌≢◌, ◌↔◌,
  ◌⊎◌, inl, inr, Bool, true, false, not, ◌&&◌, ◌||◌, Option, none, some, List, [], ◌∷◌, ◌++◌, map,
  arith, ltb, leb, ◌==◌, if◌then◌else◌, ltb→lt, lt→ltb, leb→le, ==_iff, ==_refl, Bool-cases,
  Option-cases, length, get_elem?, set, take, length-append, length-set, get_elem?-set_self,
  get_elem?-set_ne,
}
use moonlight_embedded_crash.Prelude.Int.{
  ℤ, pos, negsuc, ◌+ℤ◌, ◌-ℤ◌, ◌*ℤ◌, quot, ◌≤ℤ◌, ◌<ℤ◌, ltb_ℤ, leb_ℤ, eq_ℤ, abs, to_short, to_char,
  to_int, IsShort, IsInt, int_laws, eq_of_parts, eq_ℤ_refl, eq_ℤ→eq,
}
use moonlight_embedded_crash.Prelude.Bits.{
  Bits, bits, no_bits, ◌|b◌, ◌&b◌, ~b, one_bit, sign_extend, all_below, eq_bits, nonzero, zero_bit,
  nonzero_of_bit, eq_bits_sound, eq_bits_intro,
}
use moonlight_embedded_crash.Prelude.Text.{Bytes, codes, str_eq, is_space, str_eq_refl, str_eq→eq}
use moonlight_embedded_crash.Prelude.Process.{
  Process, running, exited, ◌>>=◌, exit_failure, minus_one,
}
use moonlight_embedded_crash.Mapping.{Mapping}
use moonlight_embedded_crash.Evdev.{AbsParms, InputEvent, Device}
use moonlight_embedded_crash.Evdev.Learn.{Place, Learning, learn}
use moonlight_embedded_crash.Evdev.Devices.{
  Table, Read, success, sync, no_device, try_again, broken,
}

-- The events that a run of loop_main handles before it returns, each with the parameters of its
-- axis. The loop also returns where a signal ends it, at the end of the list.
abbrev pub Answer : Type 0
Answer = List (AbsParms × InputEvent)

unfoldable pub wait_answer : Answer → Learning → Learning
wait_answer [] l = l
wait_answer ((parms, ev) ∷ events) l =
    let (l', go_on) = learn parms ev.type ev l in
    let rest = wait_answer events l' in if go_on then rest else l'

-- What has been learned, and the answers to the prompts to come: where there are no more of them, a
-- signal ends every run of the loop. evdev_drain drops what comes between two of them.
pub record Mapper : Type 0 where
  pub learning : Learning
  pub answers : List Answer

abbrev pub wait : Learning → List Answer → Mapper
wait l [] = record { learning = l; answers = [] }
wait l (answer ∷ answers) = record { learning = wait_answer answer l; answers = answers }

-- evdev_map_key, evdev_map_abs and evdev_map_abskey.
unfoldable pub map_key : Place → Mapper → Mapper
map_key p m =
    let l = m.learning in
    wait (record l { map = p.put (negsuc 0) l.map; key = some p; axis = none }) m.answers

unfoldable pub map_abs : Place → (Bool → Mapping → Mapping) → Mapper → Mapper
map_abs p put_reverse m =
    let l = m.learning in
    wait
      (record l {
        map = p.put (negsuc 0) l.map;
        key = none;
        axis = some p;
        put_reverse = put_reverse;
      })
      m.answers

unfoldable pub map_abskey : Place → Place → (Bool → Mapping → Mapping) → Mapper → Mapper
map_abskey k p put_reverse m =
    let l = m.learning in
    wait
      (record l {
        map = put_reverse false (p.put (negsuc 0) (k.put (negsuc 0) l.map));
        key = some k;
        axis = some p;
        put_reverse = put_reverse;
      })
      m.answers

-- A prompt: the three functions, and the prompt for the opposite button of the pad, which is made
-- only if the first one was found to be a button.
pub data Prompt : Type 0 where
  ask_key : Place → Prompt
  ask_abs : Place → (Bool → Mapping → Mapping) → Prompt
  ask_abskey : Place → Place → (Bool → Mapping → Mapping) → Prompt
  ask_opposite : Place → Place → Prompt

unfoldable pub ask : Prompt → Mapper → Mapper
ask (ask_key p) m = map_key p m
ask (ask_abs p put_reverse) m = map_abs p put_reverse m
ask (ask_abskey k p put_reverse) m = map_abskey k p put_reverse m
ask (ask_opposite found p) m =
    let l = m.learning in
    if leb_ℤ (pos 0) (found.get l.map)
    then map_key p m
    else record m { learning = record l { map = p.put (negsuc 0) l.map } }

unfoldable pub ask_all : List Prompt → Mapper → Mapper
ask_all [] m = m
ask_all (p ∷ prompts) m = ask_all prompts (ask p m)

abbrev pub place : (Mapping → ℤ) → (ℤ → Mapping → Mapping) → Place
place get put = record { get = get; put = put }

-- The pointers that evdev_map passes.
abbrev pub at_abs_x : Place
at_abs_x = place (λ m. m.abs_x) (λ v m. record m { abs_x = v })

abbrev pub at_abs_y : Place
at_abs_y = place (λ m. m.abs_y) (λ v m. record m { abs_y = v })

abbrev pub at_abs_z : Place
at_abs_z = place (λ m. m.abs_z) (λ v m. record m { abs_z = v })

abbrev pub at_abs_rx : Place
at_abs_rx = place (λ m. m.abs_rx) (λ v m. record m { abs_rx = v })

abbrev pub at_abs_ry : Place
at_abs_ry = place (λ m. m.abs_ry) (λ v m. record m { abs_ry = v })

abbrev pub at_abs_rz : Place
at_abs_rz = place (λ m. m.abs_rz) (λ v m. record m { abs_rz = v })

abbrev pub at_abs_dpad_x : Place
at_abs_dpad_x = place (λ m. m.abs_dpad_x) (λ v m. record m { abs_dpad_x = v })

abbrev pub at_abs_dpad_y : Place
at_abs_dpad_y = place (λ m. m.abs_dpad_y) (λ v m. record m { abs_dpad_y = v })

abbrev pub at_btn_south : Place
at_btn_south = place (λ m. m.btn_south) (λ v m. record m { btn_south = v })

abbrev pub at_btn_east : Place
at_btn_east = place (λ m. m.btn_east) (λ v m. record m { btn_east = v })

abbrev pub at_btn_north : Place
at_btn_north = place (λ m. m.btn_north) (λ v m. record m { btn_north = v })

abbrev pub at_btn_west : Place
at_btn_west = place (λ m. m.btn_west) (λ v m. record m { btn_west = v })

abbrev pub at_btn_select : Place
at_btn_select = place (λ m. m.btn_select) (λ v m. record m { btn_select = v })

abbrev pub at_btn_start : Place
at_btn_start = place (λ m. m.btn_start) (λ v m. record m { btn_start = v })

abbrev pub at_btn_mode : Place
at_btn_mode = place (λ m. m.btn_mode) (λ v m. record m { btn_mode = v })

abbrev pub at_btn_thumbl : Place
at_btn_thumbl = place (λ m. m.btn_thumbl) (λ v m. record m { btn_thumbl = v })

abbrev pub at_btn_thumbr : Place
at_btn_thumbr = place (λ m. m.btn_thumbr) (λ v m. record m { btn_thumbr = v })

abbrev pub at_btn_tl : Place
at_btn_tl = place (λ m. m.btn_tl) (λ v m. record m { btn_tl = v })

abbrev pub at_btn_tr : Place
at_btn_tr = place (λ m. m.btn_tr) (λ v m. record m { btn_tr = v })

abbrev pub at_btn_tl2 : Place
at_btn_tl2 = place (λ m. m.btn_tl2) (λ v m. record m { btn_tl2 = v })

abbrev pub at_btn_tr2 : Place
at_btn_tr2 = place (λ m. m.btn_tr2) (λ v m. record m { btn_tr2 = v })

abbrev pub at_btn_dpad_up : Place
at_btn_dpad_up = place (λ m. m.btn_dpad_up) (λ v m. record m { btn_dpad_up = v })

abbrev pub at_btn_dpad_down : Place
at_btn_dpad_down = place (λ m. m.btn_dpad_down) (λ v m. record m { btn_dpad_down = v })

abbrev pub at_btn_dpad_left : Place
at_btn_dpad_left = place (λ m. m.btn_dpad_left) (λ v m. record m { btn_dpad_left = v })

abbrev pub at_btn_dpad_right : Place
at_btn_dpad_right = place (λ m. m.btn_dpad_right) (λ v m. record m { btn_dpad_right = v })

-- The calls of evdev_map in their order. The reverse flags of the triggers go to a variable that is
-- ignored.
unfoldable pub map_prompts : List Prompt
map_prompts =
    ask_abs at_abs_x (λ b m. record m { reverse_x = b })
    ∷ ask_abs at_abs_y (λ b m. record m { reverse_y = b })
    ∷ ask_key at_btn_thumbl
    ∷ ask_abs at_abs_rx (λ b m. record m { reverse_rx = b })
    ∷ ask_abs at_abs_ry (λ b m. record m { reverse_ry = b })
    ∷ ask_key at_btn_thumbr
    ∷ ask_abskey at_btn_dpad_right at_abs_dpad_x (λ b m. record m { reverse_dpad_x = b })
    ∷ ask_opposite at_btn_dpad_right at_btn_dpad_left
    ∷ ask_abskey at_btn_dpad_down at_abs_dpad_y (λ b m. record m { reverse_dpad_y = b })
    ∷ ask_opposite at_btn_dpad_down at_btn_dpad_up
    ∷ ask_key at_btn_west
    ∷ ask_key at_btn_south
    ∷ ask_key at_btn_east
    ∷ ask_key at_btn_north
    ∷ ask_key at_btn_select
    ∷ ask_key at_btn_start
    ∷ ask_key at_btn_mode
    ∷ ask_abskey at_btn_tl2 at_abs_z (λ b m. m)
    ∷ ask_abskey at_btn_tr2 at_abs_rz (λ b m. m)
    ∷ ask_key at_btn_tl
    ∷ ask_key at_btn_tr
    ∷ []

-- evdev_map up to mapping_save, on the memory of the local `map` and the pointers as they stand.
unfoldable pub evdev_map : Learning → List Answer → Mapping
evdev_map l answers =
    (ask_all map_prompts (record { learning = l; answers = answers })).learning.map

-- The results that are left after evdev_drain has read a device up to the first error.
unfoldable pub drain_device : List Read → List Read
drain_device [] = []
drain_device (success ev ∷ reads) = drain_device reads
drain_device (sync ev ∷ reads) = drain_device reads
drain_device (_ ∷ reads) = reads

-- evdev_start: the descriptors that are grabbed. Devices that are created later are grabbed as well.
unfoldable pub evdev_start : {R : Type 0} → Table R → List ℤ
evdev_start t = map (λ (d : Device). d.fd) t.devices
