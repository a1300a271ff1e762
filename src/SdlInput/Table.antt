-- ===== src/SdlInput/Table.antt =====
-- The table of gamepads in src/input/sdlinput.c against its abstract view: the list of the joysticks
-- that were seen, in the order of their first events.
pub mod Run
use mathlib.Core.Path.{subst}
use mathlib.Core.List.{append-nil, append_assoc}
use moonlight_embedded_crash.Prelude.{
  ℕ, zero, suc, ◌+◌, ◌-◌, ◌*◌, ◌/◌, ◌%◌, ◌^◌, ◌≤◌, ◌<◌, ◌≡◌, refl, sym, ap, ◌∙◌, fun_ext, ◌≢◌, ◌↔◌,
  ◌⊎◌, inl, inr, Bool, true, false, not, ◌&&◌, ◌||◌, Option, none, some, List, [], ◌∷◌, ◌++◌, map,
  arith, ltb, leb, ◌==◌, if◌then◌else◌, ltb→lt, lt→ltb, leb→le, ==_iff, ==_refl, Bool-cases,
  Option-cases, length, get_elem?, set, take, length-append, length-set, get_elem?-set_self,
  get_elem?-set_ne,
}
use moonlight_embedded_crash.Prelude.Int.{
  ℤ, pos, negsuc, ◌+ℤ◌, ◌-ℤ◌, ◌*ℤ◌, quot, ◌≤ℤ◌, ◌<ℤ◌, ltb_ℤ, leb_ℤ, eq_ℤ, abs, to_short, to_char,
  to_int, IsShort, IsInt, int_laws, eq_of_parts, eq_ℤ_refl, eq_ℤ→eq,
}
use moonlight_embedded_crash.Prelude.Bits.{
  Bits, bits, no_bits, ◌|b◌, ◌&b◌, ~b, one_bit, sign_extend, all_below, eq_bits, nonzero, zero_bit,
  nonzero_of_bit, eq_bits_sound, eq_bits_intro,
}
use moonlight_embedded_crash.Prelude.Text.{Bytes, codes, str_eq, is_space, str_eq_refl, str_eq→eq}
use moonlight_embedded_crash.Prelude.Process.{
  Process, running, exited, ◌>>=◌, exit_failure, minus_one,
}
use moonlight_embedded_crash.SdlInput.{GamepadState, SdlInput, get_gamepad, find_gamepad, cleared}

-- From slot `i` on the table holds the joysticks `js`, one slot each and numbered by the slots, and
-- behind them cleared slots.
abbrev pub Holds : ℕ → List ℤ → List GamepadState → Type 0
Holds i [] [] = Unit
Holds i [] (g ∷ gs) = (g ≡ cleared) × Holds i [] gs
Holds i (j ∷ js) [] = ⊥
Holds i (j ∷ js) (g ∷ gs) =
    (g.initialized ≡ true) × (g.sdl_id ≡ j) × (g.id ≡ pos i) × Holds (suc i) js gs

abbrev pub position : ℕ → ℤ → List ℤ → Option ℕ
position i j [] = none
position i j (k ∷ js) = let rest = position (suc i) j js in if eq_ℤ k j then some i else rest

abbrev pub slot_for : Option ℕ → ℤ → List ℤ → ℕ × List ℤ
slot_for (some i) j js = (i, js)
slot_for none j js = if ltb (length js) 4 then (length js, js ++ j ∷ []) else (0, js)

-- A joystick that was seen keeps its place; a new one gets the next of the four places; when all
-- are taken, it shares the first.
unfoldable pub assign : ℤ → List ℤ → ℕ × List ℤ
assign j js = slot_for (position 0 j js) j js

find_known :
    (i k : ℕ) (j : ℤ) (js : List ℤ) (gs : List GamepadState)
    → Holds i js gs
    → position i j js ≡ some k
    → find_gamepad i j gs ≡ (some k, gs)
unfolding find_gamepad
find_known i k j [] gs h p = cc
find_known i k j (x ∷ js) [] h p = absurd h
find_known i k j (x ∷ js) (g ∷ gs) (init, same, num, h) p = elim (Bool-cases (eq_ℤ x j)) [
  | inl e ↦ rw (init, same, e) (cc (rw e at p))
  | inr e ↦ rw (init, same, e, find_known (suc i) k j js gs h (rw e at p)) refl
]

find_full :
    (i : ℕ) (j : ℤ) (js : List ℤ) (gs : List GamepadState)
    → Holds i js gs
    → position i j js ≡ none
    → length js ≡ length gs
    → find_gamepad i j gs ≡ (none, gs)
unfolding find_gamepad
find_full i j [] [] h p len = refl
find_full i j [] (g ∷ gs) h p len = absurd (omega (arith, len))
find_full i j (x ∷ js) [] h p len = absurd h
find_full i j (x ∷ js) (g ∷ gs) (init, same, num, h) p len = elim (Bool-cases (eq_ℤ x j)) [
  | inl e ↦ absurd (cc (rw e at p))
  | inr e ↦ rw (init, same, e, find_full (suc i) j js gs h (rw e at p) (omega (arith, len))) refl
]

find_new :
    (i : ℕ) (j : ℤ) (js : List ℤ) (gs : List GamepadState)
    → Holds i js gs
    → position i j js ≡ none
    → length js < length gs
    → (gs' : List GamepadState) × (find_gamepad i j gs ≡ (some (i + length js), gs'))
      × Holds i (js ++ j ∷ []) gs'
      × (length gs' ≡ length gs)
unfolding find_gamepad
find_new i j [] [] h p len = absurd (omega (arith, len))
find_new i j [] (g ∷ gs) (fresh, h) p len = (
  record g { sdl_id = j; id = pos i; initialized = true } ∷ gs,
  rw fresh (ground arith),
  (refl, refl, refl, h),
  refl,
)
find_new i j (x ∷ js) [] h p len = absurd h
find_new i j (x ∷ js) (g ∷ gs) (init, same, num, h) p len = elim (Bool-cases (eq_ℤ x j)) [
  | inl e ↦ absurd (cc (rw e at p))
  | inr e ↦
      let (gs', found, held, kept) = find_new (suc i) j js gs h (rw e at p) (omega (arith, len)) in
      (g ∷ gs', rw (init, same, e, found) (ground arith), (init, same, num, held), ap suc kept)
]

abbrev pub IsTable : List ℤ → List GamepadState → Type 0
IsTable js gs = Holds 0 js gs × (length gs ≡ 4)

Holds-length :
    (i : ℕ) (js : List ℤ) (gs : List GamepadState) → Holds i js gs → length js ≤ length gs
Holds-length i [] gs h = omega arith
Holds-length i (j ∷ js) [] h = absurd h
Holds-length i (j ∷ js) (g ∷ gs) (init, same, num, h) = omega (arith, Holds-length (suc i) js gs h)

-- get_gamepad implements `assign`: on a table that holds the joysticks seen so far it returns the
-- assigned slot, and leaves a table that holds the joysticks seen with this one.
pub get_gamepad-assign :
    (j : ℤ) (js : List ℤ) (gs : List GamepadState)
    → IsTable js gs
    → ((get_gamepad j gs).0 ≡ (assign j js).0) × IsTable (assign j js).1 (get_gamepad j gs).1
unfolding get_gamepad assign
get_gamepad-assign j js gs (h, four) = elim (Option-cases (position 0 j js)) [
  | inl new ↦ elim (Bool-cases (ltb (length js) 4)) [
    | inl room ↦
        let (gs', found, held, kept) = find_new 0 j js gs h new (grind arith) in
        rw (new, room, found) (omega arith, (held, kept ∙ four))
    | inr full ↦
        let most = Holds-length 0 js gs h in
        let len : length js ≡ length gs = grind arith in
        rw (new, full, find_full 0 j js gs h new len) (refl, (h, four))
  ]
  | inr (k, old) ↦ rw (old, find_known 0 k j js gs h old) (refl, (h, four))
]

position-lt :
    (i k : ℕ) (j : ℤ) (js : List ℤ) → position i j js ≡ some k → (i ≤ k) × (k < i + length js)
position-lt i k j [] p = cc
position-lt i k j (x ∷ js) p = elim (Bool-cases (eq_ℤ x j)) [
  | inl e ↦ let q : some i ≡ some k = rw e at p in ground arith
  | inr e ↦ let (le, lt) = position-lt (suc i) k j js (rw e at p) in (omega arith, omega arith)
]

-- The assigned slot is one of those in use.
pub assign-lt : (j : ℤ) (js : List ℤ) → (assign j js).0 < length (assign j js).1
unfolding assign
assign-lt j js = elim (Option-cases (position 0 j js)) [
  | inl new ↦ elim (Bool-cases (ltb (length js) 4)) [
    | inl room ↦ rw (new, room) (omega (arith, length-append js (j ∷ [])))
    | inr full ↦ rw (new, full) (grind arith)
  ]
  | inr (k, old) ↦ rw old (omega (arith, (position-lt 0 k j js old).1))
]

pub get_elem?-Holds :
    (i k : ℕ) (js : List ℤ) (gs : List GamepadState) (g : GamepadState)
    → Holds i js gs
    → k < length js
    → get_elem? gs k ≡ some g
    → g.id ≡ pos (i + k)
get_elem?-Holds i k [] gs g h lt e = absurd (omega (arith, lt))
get_elem?-Holds i k (j ∷ js) [] g h lt e = absurd h
get_elem?-Holds i zero (j ∷ js) (x ∷ gs) g (init, same, num, h) lt e =
    let q : x ≡ g = cc in ground arith
get_elem?-Holds i (suc k) (j ∷ js) (x ∷ gs) g (init, same, num, h) lt e =
    let q = get_elem?-Holds (suc i) k js gs g h (omega (arith, lt)) e in ground arith

-- A slot may change in all but the joystick and the number.
abbrev pub SameOwner : GamepadState → GamepadState → Type 0
SameOwner g g' = (g'.initialized ≡ g.initialized) × (g'.sdl_id ≡ g.sdl_id) × (g'.id ≡ g.id)

pub set-Holds :
    (i k : ℕ) (js : List ℤ) (gs : List GamepadState) (g g' : GamepadState)
    → Holds i js gs
    → k < length js
    → get_elem? gs k ≡ some g
    → SameOwner g g'
    → Holds i js (set gs k g')
set-Holds i k [] gs g g' h lt e o = absurd (omega (arith, lt))
set-Holds i k (j ∷ js) [] g g' h lt e o = absurd h
set-Holds i zero (j ∷ js) (x ∷ gs) g g' (init, same, num, h) lt e (o1, o2, o3) =
    let q : x ≡ g = cc in (cc, cc, cc, h)
set-Holds i (suc k) (j ∷ js) (x ∷ gs) g g' (init, same, num, h) lt e o =
    (init, same, num, set-Holds (suc i) k js gs g g' h (omega (arith, lt)) e o)
