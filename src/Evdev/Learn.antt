-- ===== src/Evdev/Learn.antt =====
-- evdev_handle_mapping_event of src/input/evdev.c: the handler that finds out which button or axis
-- the user moves. The pointers currentKey, currentAbs and currentReverse name places of the mapping.
use moonlight_embedded_crash.Prelude.Int.{
  to_short_of_IsShort, ℤ, pos, ◌+ℤ◌, ◌-ℤ◌, quot, ltb_ℤ, eq_ℤ, to_short, int_laws, eq_ℤ_refl,
}
use moonlight_embedded_crash.Prelude.{
  ℕ, ◌^◌, ◌<◌, ◌≡◌, refl, ◌∙◌, ◌≢◌, Bool, true, false, not, Option, none, some, [], arith,
  if◌then◌else◌,
}
use moonlight_embedded_crash.Prelude.Bits.{Bits}
use moonlight_embedded_crash.Mapping.{Mapping}
use moonlight_embedded_crash.Evdev.{
  AbsInfo, AbsParms, init_parms, Device, InputEvent, EventType, ev_key, ev_abs,
}
use moonlight_embedded_crash.Evdev.Handled.{is_zero}
use moonlight_embedded_crash.Evdev.Devices.{Handler}

-- What a `short*` into the mapping points to.
pub record Place : Type 0 where
  pub get : Mapping → ℤ
  pub put : ℤ → Mapping → Mapping

-- The mapping with currentKey, currentAbs and currentReverse.
pub record Learning : Type 0 where
  pub map : Mapping
  pub key : Option Place
  pub axis : Option Place
  pub put_reverse : Bool → Mapping → Mapping

abbrev pub store_code : Place → ℕ → Learning → Learning
store_code p code l = record l { map = p.put (to_short (pos code)) l.map }

-- EV_KEY
unfoldable pub learn_key : Option Place → InputEvent → Learning → Learning × Bool
learn_key none ev l = (l, true)
learn_key (some p) ev l =
    if not (is_zero ev.value)
    then (store_code p ev.code l, true)
    else (l, not (eq_ℤ (pos ev.code) (p.get l.map)))

abbrev pub store_axis : Place → ℕ → Bool → Learning → Learning
store_axis p code reverse l = record l {
  map = l.put_reverse reverse (p.put (to_short (pos code)) l.map);
}

-- EV_ABS
unfoldable pub learn_axis : AbsParms → Option Place → InputEvent → Learning → Learning × Bool
learn_axis parms none ev l = (l, true)
learn_axis parms (some p) ev l =
    if ltb_ℤ (parms.avg +ℤ quot parms.range (pos 2)) ev.value
    then (store_axis p ev.code false l, true)
    else if ltb_ℤ ev.value (parms.avg -ℤ quot parms.range (pos 2))
    then (store_axis p ev.code true l, true)
    else (l, not (eq_ℤ (pos ev.code) (p.get l.map)))

unfoldable pub learn : AbsParms → EventType → InputEvent → Learning → Learning × Bool
learn parms ev_key ev l = learn_key l.key ev l
learn parms ev_abs ev l = learn_axis parms l.axis ev l
learn parms _ ev l = (l, true)

-- `info` gives what libevdev reports of an axis of an object.
unfoldable pub handle_mapping_event : (ℕ → ℕ → AbsInfo) → Handler Learning
handle_mapping_event info ids l dev ev =
    let (l', go_on) = learn (init_parms (info dev.dev ev.code)) ev.type ev l in
    (ids, l', dev, [], go_on)

-- The place is one of the mapping: what is put is what is got.
abbrev pub IsPlace : Place → Type 0
IsPlace p = (v : ℤ) (m : Mapping) → p.get (p.put v m) ≡ v

-- While a key is awaited, pressing a key whose code fits a short and releasing it again ends the
-- wait at the release, and not before, with the code stored in the key's place; the release of
-- another key in between changes nothing and ends nothing.
pub handle_mapping_event-key :
    (info : ℕ → ℕ → AbsInfo) (ids : Bits) (dev : Device) (l : Learning) (p : Place) (code other : ℕ)
    (value : ℤ)
    → IsPlace p
    → l.key ≡ some p
    → code < 2 ^ 15
    → value ≢ pos 0
    → other ≢ code
    → let press : InputEvent = record { type = ev_key; code = code; value = value } in
      let release : InputEvent = record { type = ev_key; code = code; value = pos 0 } in
      let stray : InputEvent = record { type = ev_key; code = other; value = pos 0 } in
      let after = handle_mapping_event info ids l dev press in
      (after.4 ≡ true)
      × (p.get after.1.map ≡ pos code)
      × (handle_mapping_event info ids after.1 dev stray ≡ (ids, after.1, dev, [], true))
      × (handle_mapping_event info ids after.1 dev release ≡ (ids, after.1, dev, [], false))
unfolding handle_mapping_event learn learn_key
handle_mapping_event-key info ids dev l p code other value place k fits ne differs =
    let nz : is_zero value ≡ false = ground arith in
    let got : p.get (p.put (to_short (pos code)) l.map) ≡ pos code =
      place (to_short (pos code)) l.map
      ∙ to_short_of_IsShort (pos code) (omega (arith, int_laws)) in
    let same : eq_ℤ (pos code) (pos code) ≡ true = eq_ℤ_refl (pos code) in
    let other_key : eq_ℤ (pos other) (pos code) ≡ false = ground arith in
    rw (k, nz, got, same, other_key) (refl, refl, refl, refl)
