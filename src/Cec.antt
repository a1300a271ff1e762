-- ===== src/Cec.antt =====
-- src/input/cec.c: the remote control of a television, through libcec.
use moonlight_embedded_crash.Prelude.{
  ℕ, ◌+◌, ◌<◌, ◌≡◌, refl, ◌⊎◌, inl, inr, Bool, true, not, ◌||◌, List, [], ◌∷◌, arith, ltb, ◌==◌,
  if◌then◌else◌, Bool-cases,
}
use moonlight_embedded_crash.Prelude.Int.{ℤ, pos, to_short}
use moonlight_embedded_crash.Prelude.Bits.{no_bits}
use moonlight_embedded_crash.Prelude.Text.{Bytes, codes}
use moonlight_embedded_crash.Limelight.{down, up, Sent, keyboard}

-- The codes of cectypes.h that the handler names.
pub record CecCodes : Type 0 where
  pub up_code : ℕ
  pub down_code : ℕ
  pub left_code : ℕ
  pub right_code : ℕ
  pub enter_code : ℕ
  pub select_code : ℕ
  pub root_menu_code : ℕ
  pub an_return_code : ℕ
  pub exit_code : ℕ

-- The switch of on_cec_keypress: KEY_UP and the others, or 0.
unfoldable pub cec_value : CecCodes → ℕ → ℕ
cec_value codes keycode =
    if keycode == codes.up_code
    then 0x26
    else if keycode == codes.down_code
    then 0x28
    else if keycode == codes.left_code
    then 0x25
    else if keycode == codes.right_code
    then 0x27
    else if keycode == codes.enter_code || keycode == codes.select_code
    then 0x0D
    else if keycode == codes.root_menu_code
    then 0x09
    else if keycode == codes.an_return_code || keycode == codes.exit_code
    then 0x1B
    else 0

-- A key that is held has no duration yet.
unfoldable pub on_cec_keypress : CecCodes → ℕ → ℕ → List Sent
on_cec_keypress codes keycode duration =
    let value = cec_value codes keycode in
    if not (value == 0)
    then keyboard (to_short (pos (0x8000 + value))) (if ltb 0 duration then up else down) no_bits
      ∷ []
    else []

-- The calls of cec_init on the interface, in their order.
pub data CecCall : Type 0 where
  init_video_standalone destroy : CecCall
  find_adapters : ℕ → CecCall
  open_port : Bytes → CecCall
  set_active_source : CecCall

-- What libcec answers: libcecc_initialise, the ports of the adapters, and whether one opens.
pub record CecSetup : Type 0 where
  pub initialises : Bool
  pub ports : List Bytes
  pub opens : Bytes → Bool

abbrev open_first : CecSetup → List Bytes → List CecCall
open_first setup [] = destroy ∷ []
open_first setup (port ∷ _) =
    open_port port ∷ (if setup.opens port then set_active_source ∷ [] else destroy ∷ [])

-- The size that is passed to find_adapters is that of the array over itself.
unfoldable pub cec_init : CecSetup → List CecCall
cec_init setup =
    if not setup.initialises
    then []
    else init_video_standalone ∷ find_adapters 1 ∷ open_first setup setup.ports

-- A press and the release that follows it reach the host as the two halves of one key: either both
-- are sent, with the same code and no modifiers, or the button means nothing to the program.
pub on_cec_keypress_pair :
    (codes : CecCodes) (keycode duration : ℕ)
    → 0 < duration
    → ((on_cec_keypress codes keycode 0 ≡ []) × (on_cec_keypress codes keycode duration ≡ []))
      ⊎ ((code : ℤ) × (on_cec_keypress codes keycode 0 ≡ keyboard code down no_bits ∷ [])
          × (on_cec_keypress codes keycode duration ≡ keyboard code up no_bits ∷ []))
unfolding on_cec_keypress
on_cec_keypress_pair codes keycode duration h =
    let long : ltb 0 duration ≡ true = ground arith in
    elim (Bool-cases (cec_value codes keycode == 0)) [
      | inl e ↦ rw e (inl (refl, refl))
      | inr e ↦ rw (e, long) (inr (_, refl, refl))
    ]
