-- ===== src/Evdev/Devices/Descriptors.antt =====
-- What evdev_handle does to the descriptors of the table. Its test `devices[i].fd = fd` assigns.
use moonlight_embedded_crash.Prelude.{
  get_elem?-none, get_elem?-lt, ℕ, zero, suc, ◌+◌, ◌≤◌, ◌<◌, ◌≡◌, refl, sym, ap, ◌∙◌, ◌≢◌, inl, inr,
  false, none, some, List, [], ◌∷◌, arith, ◌==◌, ==_iff, Bool-cases, Option-cases, length,
  get_elem?, set, length-set, get_elem?-set_ne,
}
use moonlight_embedded_crash.Evdev.Devices.{
  handle_slot, finish_slot, Outcome, Table, Handler, Read, success, sync, no_device, try_again,
  broken, Reading, ReadEnd, stopped, gone, drained, fatal, read_device, loop_ok, store_reading,
  handle_slots, evdev_handle,
}
use mathlib.Core.Path.{subst}
use moonlight_embedded_crash.Prelude.Int.{ℤ, pos, eq_ℤ}
use moonlight_embedded_crash.Prelude.Bits.{Bits}
use moonlight_embedded_crash.Evdev.{Device, InputEvent}

-- No result says that the device is gone.
abbrev pub IsPresent : List Read → Type 0
IsPresent [] = Unit
IsPresent (no_device ∷ reads) = ⊥
IsPresent (_ ∷ reads) = IsPresent reads

-- The slots below `i` have the descriptor `fd`.
abbrev FdBelow : ℤ → ℕ → List Device → Type 0
FdBelow fd i ds = (j : ℕ) (d : Device) → j < i → get_elem? ds j ≡ some d → d.fd ≡ fd

not_same : {i j : ℕ} → i ≡ j → j == i ≡ false → ⊥
not_same {i} {j} p q = ground arith

set_elem {ℓ} :
    {A : Type ℓ} (xs : List A) (i : ℕ) (v : A) {x : A} → get_elem? (set xs i v) i ≡ some x → x ≡ v
set_elem [] i v h = cc
set_elem (y ∷ xs) zero v h = cc
set_elem (y ∷ xs) (suc i) v h = set_elem xs i v h

FdBelow-set :
    (fd : ℤ) (i : ℕ) (ds : List Device) (dev : Device)
    → FdBelow fd i ds
    → dev.fd ≡ fd
    → FdBelow fd (i + 1) (set ds i dev)
FdBelow-set fd i ds dev h e j d lt g = elim (Bool-cases (j == i)) [
  | inl q ↦
      let same : get_elem? (set ds i dev) i ≡ some d =
        subst (λ (k : ℕ). get_elem? (set ds i dev) k ≡ some d) ((==_iff j i).0 q) g in
      ap (λ (x : Device). x.fd) (set_elem ds i dev same) ∙ e
  | inr q ↦ h j d (ground arith) (sym (get_elem?-set_ne ds dev (λ (p : i ≡ j). not_same p q)) ∙ g)
]

module _ {R : Type 0} (handler : Handler R) (pending : ℕ → List Read)
    (keeps_fd : (ids : Bits) (own : R) (dev : Device) (ev : InputEvent)
      → (handler ids own dev ev).2.fd ≡ dev.fd) where
  read_device-fd :
      (reads : List Read) (dev : Device) (ids : Bits) (own : R)
      → (read_device handler reads dev ids own).device.fd ≡ dev.fd
  unfolding read_device
  read_device-fd [] dev ids own = refl
  read_device-fd (success ev ∷ reads) dev ids own =
      let r = handler ids own dev ev in
      elim (Bool-cases r.4) [
        | inl e ↦ rw e (read_device-fd reads r.2 r.0 r.1 ∙ keeps_fd ids own dev ev)
        | inr e ↦ rw e (keeps_fd ids own dev ev)
      ]
  read_device-fd (sync ev ∷ reads) dev ids own = read_device-fd reads dev ids own
  read_device-fd (no_device ∷ reads) dev ids own = refl
  read_device-fd (try_again ∷ reads) dev ids own = refl
  read_device-fd (broken ∷ reads) dev ids own = refl

  read_device-present :
      (reads : List Read) (dev : Device) (ids : Bits) (own : R)
      → IsPresent reads
      → (read_device handler reads dev ids own).end ≢ gone
  unfolding read_device
  read_device-present [] dev ids own h = λ e. cc
  read_device-present (success ev ∷ reads) dev ids own h =
      let r = handler ids own dev ev in
      elim (Bool-cases r.4) [
        | inl e ↦ rw e (read_device-present reads r.2 r.0 r.1 h)
        | inr e ↦ rw e (λ f. cc)
      ]
  read_device-present (sync ev ∷ reads) dev ids own h = read_device-present reads dev ids own h
  read_device-present (no_device ∷ reads) dev ids own h = absurd h
  read_device-present (try_again ∷ reads) dev ids own h = λ e. cc
  read_device-present (broken ∷ reads) dev ids own h = λ e. cc

  module _ (present : (k : ℕ) → IsPresent (pending k)) (fd : ℤ) where
    abbrev AllFd : Table R → Type 0
    AllFd t = (j : ℕ) (d : Device) → get_elem? t.devices j ≡ some d → d.fd ≡ fd

    abbrev Continues : ℕ → ℕ → (Table R → Outcome R) → Type 0
    Continues i rounds next =
        (t : Table R)
        → length t.devices ≤ i + rounds
        → FdBelow fd i t.devices
        → (next t).2 ≡ loop_ok
        → AllFd (next t).0

    finish_slot-fd :
        (end : ReadEnd) (next : Table R → Outcome R) (i rounds : ℕ) (r : Reading R) (t : Table R)
        → Continues (i + 1) rounds next
        → end ≢ gone
        → r.device.fd ≡ fd
        → length t.devices ≤ i + suc rounds
        → FdBelow fd i t.devices
        → (finish_slot end next i r t).2 ≡ loop_ok
        → AllFd (finish_slot end next i r t).0
    unfolding finish_slot
    finish_slot-fd stopped next i rounds r t k ne e le h ok = cc
    finish_slot-fd gone next i rounds r t k ne e le h ok = absurd (ne refl)
    finish_slot-fd drained next i rounds r t k ne e le h ok =
        k (store_reading i r t) (omega (arith, length-set t.devices i r.device))
          (FdBelow-set fd i t.devices r.device h e) ok
    finish_slot-fd fatal next i rounds r t k ne e le h ok = cc

    handle_slot-fd :
        (next : Table R → Outcome R) (i rounds : ℕ) (old : Device) (t : Table R)
        → Continues (i + 1) rounds next
        → length t.devices ≤ i + suc rounds
        → FdBelow fd i t.devices
        → (handle_slot handler pending next i fd old t).2 ≡ loop_ok
        → AllFd (handle_slot handler pending next i fd old t).0
    unfolding handle_slot
    handle_slot-fd next i rounds old t k le h =
        let dev : Device = record old { fd = fd } in
        let r : Reading R = read_device handler (pending dev.dev) dev t.ids t.own in
        elim (Bool-cases (eq_ℤ fd (pos 0))) [
          | inl e ↦ rw e (
              k (record t { devices = set t.devices i dev })
                (omega (arith, length-set t.devices i dev)) (FdBelow-set fd i t.devices dev h refl))
          | inr e ↦ rw e (
              finish_slot-fd r.end next i rounds r t k
                (read_device-present (pending dev.dev) dev t.ids t.own (present dev.dev))
                (read_device-fd (pending dev.dev) dev t.ids t.own) le h)
        ]

    slots_some :
        (rounds i : ℕ) (t : Table R) {old : Device}
        → get_elem? t.devices i ≡ some old
        → handle_slots handler pending (suc rounds) i fd t
          ≡ handle_slot handler pending (handle_slots handler pending rounds (i + 1) fd) i fd old t
    unfolding handle_slots
    slots_some rounds i t e = rw (e, handle_slots)

    slots_none :
        (rounds i : ℕ) (t : Table R)
        → get_elem? t.devices i ≡ none
        → handle_slots handler pending (suc rounds) i fd t ≡ (t, [], loop_ok)
    unfolding handle_slots
    slots_none rounds i t e = rw (e, handle_slots)

    handle_slots-fd : (rounds i : ℕ) → Continues i rounds (handle_slots handler pending rounds i fd)
    handle_slots-fd zero i t le h ok =
        unfold handle_slots in (λ j d g. h j d (omega (arith, get_elem?-lt t.devices j g)) g)
    handle_slots-fd (suc rounds) i t le h ok = elim (Option-cases (get_elem? t.devices i)) [
      | inl e ↦
          subst (λ (o : Outcome R). AllFd o.0) (sym (slots_none rounds i t e))
            (λ j d g.
              h j d (omega (arith, get_elem?-lt t.devices j g, get_elem?-none t.devices i e)) g)
      | inr (old, e) ↦
          subst (λ (o : Outcome R). o.2 ≡ loop_ok → AllFd o.0) (sym (slots_some rounds i t e))
            (handle_slot-fd (handle_slots handler pending rounds (i + 1) fd) i rounds old t
              (handle_slots-fd rounds (i + 1)) le h)
            ok
    ]

    -- If the call returns LOOP_OK and no device went away, then every device of the table has the
    -- descriptor that the call was made for, whatever it had before: the test that was to pick out
    -- one device overwrites the descriptors of all.
    pub evdev_handle-fd :
        (t : Table R)
        → (evdev_handle handler pending fd t).2 ≡ loop_ok
        → (j : ℕ) (dev : Device)
        → get_elem? (evdev_handle handler pending fd t).0.devices j ≡ some dev
        → dev.fd ≡ fd
    unfolding evdev_handle
    evdev_handle-fd t ok =
        handle_slots-fd (length t.devices) 0 t (omega arith) (λ j d lt g. elim lt [ ]) ok
