-- ===== src/Evdev/Map/Learns.antt =====
-- What evdev_map makes of the answers of a user who does as the prompts say.
use mathlib.Core.Path.{subst}
use moonlight_embedded_crash.Prelude.{
  ℕ, ◌^◌, ◌<◌, ◌≡◌, refl, sym, ap, ◌∙◌, Bool, true, false, Option, some, List, [], ◌∷◌, arith,
  if◌then◌else◌,
}
use moonlight_embedded_crash.Prelude.Int.{
  ℤ, pos, negsuc, ◌+ℤ◌, ◌-ℤ◌, quot, ltb_ℤ, leb_ℤ, to_short, int_laws, eq_ℤ_refl,
  to_short_of_IsShort,
}
use moonlight_embedded_crash.Mapping.{Mapping}
use moonlight_embedded_crash.Evdev.{AbsParms, InputEvent, ev_key, ev_abs}
use moonlight_embedded_crash.Evdev.Learn.{Place, IsPlace, learn, learn_key, learn_axis}
use moonlight_embedded_crash.Evdev.Map.{
  Answer, wait_answer, Mapper, map_key, map_abs, map_abskey, Prompt, ask_key, ask_abs, ask_abskey,
  ask_opposite, ask, ask_all,
}

-- An axis with a value towards either end, and one between the two thresholds: that of a stick at
-- rest, or one that a trigger passes on its way.
pub record Stick : Type 0 where
  pub parms : AbsParms
  pub far : ℤ
  pub near : ℤ
  pub rest : ℤ

abbrev pub above : Stick → ℤ → Bool
above st v = ltb_ℤ (st.parms.avg +ℤ quot st.parms.range (pos 2)) v

abbrev pub below : Stick → ℤ → Bool
below st v = ltb_ℤ v (st.parms.avg -ℤ quot st.parms.range (pos 2))

pub record IsStick (st : Stick) : Type 0 where
  pub far_above : above st st.far ≡ true
  pub near_not_above : above st st.near ≡ false
  pub near_below : below st st.near ≡ true
  pub rest_not_above : above st st.rest ≡ false
  pub rest_not_below : below st st.rest ≡ false

-- What the user does at a prompt: press and release a button, move an axis from an end to the middle,
-- or nothing, where no prompt is made.
pub data Reply : Type 0 where
  pressed : ℕ → Reply
  moved : ℕ → Bool → Reply
  silent : Reply

abbrev pub key_event : AbsParms → ℕ → ℤ → AbsParms × InputEvent
key_event parms code value = (parms, record { type = ev_key; code = code; value = value })

abbrev pub axis_event : AbsParms → ℕ → ℤ → AbsParms × InputEvent
axis_event parms code value = (parms, record { type = ev_abs; code = code; value = value })

-- The events of a reply, where `st` gives each axis by its code.
abbrev pub reply_events : (ℕ → Stick) → Reply → Answer
reply_events st (pressed code) =
    key_event (st code).parms code (pos 1) ∷ key_event (st code).parms code (pos 0) ∷ []
reply_events st (moved code reverse) =
    axis_event (st code).parms code (if reverse then (st code).near else (st code).far)
    ∷ axis_event (st code).parms code (st code).rest
    ∷ []
reply_events st silent = []

-- What a prompt with its reply does to the mapping.
abbrev pub effect : Prompt → Reply → Mapping → Mapping
effect (ask_key p) (pressed code) m = p.put (pos code) (p.put (negsuc 0) m)
effect (ask_abs p put_reverse) (moved code reverse) m =
    put_reverse reverse (p.put (pos code) (p.put (negsuc 0) m))
effect (ask_abskey k p put_reverse) (moved code reverse) m =
    put_reverse reverse
      (p.put (pos code) (put_reverse false (p.put (negsuc 0) (k.put (negsuc 0) m))))
effect (ask_abskey k p put_reverse) (pressed code) m =
    k.put (pos code) (put_reverse false (p.put (negsuc 0) (k.put (negsuc 0) m)))
effect (ask_opposite found p) silent m = p.put (negsuc 0) m
effect (ask_opposite found p) (pressed code) m = p.put (pos code) (p.put (negsuc 0) m)
effect _ _ m = m

-- An axis's place: neither putting a value nor the flag of its direction loses the value.
abbrev pub IsAxisPlace : Place → (Bool → Mapping → Mapping) → Type 0
IsAxisPlace p put_reverse = (v : ℤ) (b : Bool) (m : Mapping) → p.get (put_reverse b (p.put v m)) ≡ v

-- The reply is one that the prompt asks for.
abbrev pub Suits : Prompt → Reply → Mapping → Type 0
Suits (ask_key p) (pressed code) m = (code < 2 ^ 15) × IsPlace p
Suits (ask_abs p put_reverse) (moved code reverse) m = (code < 2 ^ 15) × IsAxisPlace p put_reverse
Suits (ask_abskey k p put_reverse) (moved code reverse) m =
    (code < 2 ^ 15) × IsAxisPlace p put_reverse
Suits (ask_abskey k p put_reverse) (pressed code) m = (code < 2 ^ 15) × IsPlace k
Suits (ask_opposite found p) silent m = leb_ℤ (pos 0) (found.get m) ≡ false
Suits (ask_opposite found p) (pressed code) m =
    (code < 2 ^ 15) × IsPlace p × (leb_ℤ (pos 0) (found.get m) ≡ true)
Suits _ _ m = ⊥

short_code : (code : ℕ) → code < 2 ^ 15 → to_short (pos code) ≡ pos code
short_code code fits = to_short_of_IsShort (pos code) (omega (arith, int_laws))

-- Prompts, each with its reply.
abbrev pub prompts_of : List (Prompt × Reply) → List Prompt
prompts_of [] = []
prompts_of ((p, reply) ∷ pairs) = p ∷ prompts_of pairs

abbrev pub effects : List (Prompt × Reply) → Mapping → Mapping
effects [] m = m
effects ((p, reply) ∷ pairs) m = effects pairs (effect p reply m)

abbrev pub AllSuit : List (Prompt × Reply) → Mapping → Type 0
AllSuit [] m = Unit
AllSuit ((p, reply) ∷ pairs) m = Suits p reply m × AllSuit pairs (effect p reply m)

module _ (st : ℕ → Stick) where
  -- The answers of the user, none where no prompt is made.
  abbrev pub with_answer : Reply → List Answer → List Answer
  with_answer silent answers = answers
  with_answer reply answers = reply_events st reply ∷ answers

  abbrev pub answers_to : List (Prompt × Reply) → List Answer
  answers_to [] = []
  answers_to ((p, reply) ∷ pairs) = with_answer reply (answers_to pairs)

module _ (st : ℕ → Stick) (is_stick : (code : ℕ) → IsStick (st code)) where
  wait_pressed :
      (p : Place) (code : ℕ) (m : Mapping) (axis : Option Place)
      (put_reverse : Bool → Mapping → Mapping)
      → IsPlace p
      → code < 2 ^ 15
      → (wait_answer
          (reply_events st (pressed code))
          (record { map = m; key = some p; axis = axis; put_reverse = put_reverse })).map
        ≡ p.put (pos code) m
  unfolding wait_answer learn learn_key
  wait_pressed p code m axis put_reverse place fits =
      let got : p.get (p.put (to_short (pos code)) m) ≡ pos code =
        place (to_short (pos code)) m ∙ short_code code fits in
      rw (got, eq_ℤ_refl (pos code), short_code code fits) refl

  wait_moved :
      (p : Place) (code : ℕ) (reverse : Bool) (m : Mapping) (k : Option Place)
      (put_reverse : Bool → Mapping → Mapping)
      → IsAxisPlace p put_reverse
      → code < 2 ^ 15
      → (wait_answer
          (reply_events st (moved code reverse))
          (record { map = m; key = k; axis = some p; put_reverse = put_reverse })).map
        ≡ put_reverse reverse (p.put (pos code) m)
  unfolding wait_answer learn learn_axis
  wait_moved p code true m k put_reverse place fits =
      let got : p.get (put_reverse true (p.put (to_short (pos code)) m)) ≡ pos code =
        place (to_short (pos code)) true m ∙ short_code code fits in
      rw
        (
          (is_stick code).near_not_above,
          (is_stick code).near_below,
          (is_stick code).rest_not_above,
          (is_stick code).rest_not_below,
          got,
          eq_ℤ_refl (pos code),
          short_code code fits,
        )
        refl
  wait_moved p code false m k put_reverse place fits =
      let got : p.get (put_reverse false (p.put (to_short (pos code)) m)) ≡ pos code =
        place (to_short (pos code)) false m ∙ short_code code fits in
      rw
        (
          (is_stick code).far_above,
          (is_stick code).rest_not_above,
          (is_stick code).rest_not_below,
          got,
          eq_ℤ_refl (pos code),
          short_code code fits,
        )
        refl

  ask-effect :
      (p : Prompt) (reply : Reply) (m : Mapper) (answers : List Answer)
      → Suits p reply m.learning.map
      → m.answers ≡ with_answer st reply answers
      → ((ask p m).learning.map ≡ effect p reply m.learning.map) × ((ask p m).answers ≡ answers)
  unfolding ask map_key map_abs map_abskey
  ask-effect (ask_key p) (pressed code) m answers (fits, place) given =
      rw given (wait_pressed p code _ _ _ place fits, refl)
  ask-effect (ask_abs p put_reverse) (moved code reverse) m answers (fits, place) given =
      rw given (wait_moved p code reverse _ _ put_reverse place fits, refl)
  ask-effect (ask_abskey k p put_reverse) (moved code reverse) m answers (fits, place) given =
      rw given (wait_moved p code reverse _ _ put_reverse place fits, refl)
  ask-effect (ask_abskey k p put_reverse) (pressed code) m answers (fits, place) given =
      rw given (wait_pressed k code _ _ _ place fits, refl)
  ask-effect (ask_opposite found p) silent m answers absent given = rw absent (refl, given)
  ask-effect (ask_opposite found p) (pressed code) m answers (fits, place, present) given =
      rw (present, given) (wait_pressed p code _ _ _ place fits, refl)
  ask-effect (ask_key p) (moved code reverse) m answers absent given = elim absent [ ]
  ask-effect (ask_key p) silent m answers absent given = elim absent [ ]
  ask-effect (ask_abs p put_reverse) (pressed code) m answers absent given = elim absent [ ]
  ask-effect (ask_abs p put_reverse) silent m answers absent given = elim absent [ ]
  ask-effect (ask_abskey k p put_reverse) silent m answers absent given = elim absent [ ]
  ask-effect (ask_opposite found p) (moved code reverse) m answers absent given = elim absent [ ]

  pub ask_all-effects :
      (pairs : List (Prompt × Reply)) (m : Mapper)
      → AllSuit pairs m.learning.map
      → m.answers ≡ answers_to st pairs
      → (ask_all (prompts_of pairs) m).learning.map ≡ effects pairs m.learning.map
  unfolding ask_all
  ask_all-effects [] m suits given = refl
  ask_all-effects ((p, reply) ∷ pairs) m (suits, more) given =
      let (learned, left) = ask-effect p reply m (answers_to st pairs) suits given in
      ask_all-effects pairs (ask p m) (subst (AllSuit pairs) (sym learned) more) left
      ∙ ap (effects pairs) learned
