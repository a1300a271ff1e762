-- ===== src/Platform.antt =====
-- src/platform.c and src/platform.h: which of the platforms the program is built for is used. The
-- HAVE_ macros of the build and what dlopen, dlsym, access and the libraries answer are parameters.
use moonlight_embedded_crash.Prelude.{
  ◌≡◌, refl, ◌≢◌, ◌⊎◌, inl, inr, Bool, true, false, ◌&&◌, ◌||◌, Option, none, some, [], arith,
  if◌then◌else◌, Bool-cases,
}
use moonlight_embedded_crash.Prelude.Text.{Bytes, codes, str_eq, str_eq→eq}

-- enum platform; NONE is 0.
pub data Platform : Type 0 where
  none_ sdl pi imx aml fake : Platform

-- The HAVE_ macros that are defined.
pub record Build : Type 0 where
  pub have_imx : Bool
  pub have_pi : Bool
  pub have_aml : Bool
  pub have_sdl : Bool
  pub have_fake : Bool
  pub have_pulse : Bool

-- Whether libmoonlight-imx.so can be opened and video_imx_init succeeds, whether libmoonlight-pi.so
-- can be opened and has bcm_host_init, whether libmoonlight-aml.so can be opened and /dev/amvideo
-- exists, whether audio_pulse_init succeeds, and for which platforms dlsym finds decoder_callbacks_imx,
-- decoder_callbacks_pi and decoder_callbacks_aml, and whether it finds audio_callbacks_omx.
pub record Machine : Type 0 where
  pub imx_opens : Bool
  pub imx_inits : Bool
  pub pi_opens : Bool
  pub aml_opens : Bool
  pub pulse_inits : Bool
  pub has_decoder_callbacks : Platform → Bool
  pub has_omx_callbacks : Bool

module _ (build : Build) (machine : Machine) where
  unfoldable pub platform_check : Bytes → Platform
  platform_check name =
      let std = str_eq name (codes "default") in
      if build.have_imx
        && ((std || str_eq name (codes "imx")) && (machine.imx_opens && machine.imx_inits))
      then imx
      else if build.have_pi && ((std || str_eq name (codes "pi")) && machine.pi_opens)
      then pi
      else if build.have_aml && ((std || str_eq name (codes "aml")) && machine.aml_opens)
      then aml
      else if build.have_sdl && (std || str_eq name (codes "sdl"))
      then sdl
      else if build.have_fake && (std || str_eq name (codes "fake"))
      then fake
      else none_

  -- dlsym of the decoder callbacks of a platform, which may be NULL.
  abbrev dlsym_video : Platform → Option Platform
  dlsym_video p = if machine.has_decoder_callbacks p then some p else none

  -- The decoder callbacks by the platform they are of, or NULL.
  unfoldable pub platform_get_video : Platform → Option Platform
  platform_get_video sdl = if build.have_sdl then some sdl else none
  platform_get_video imx = if build.have_imx then dlsym_video imx else none
  platform_get_video pi = if build.have_pi then dlsym_video pi else none
  platform_get_video aml = if build.have_aml then dlsym_video aml else none
  platform_get_video fake = if build.have_fake then some fake else none
  platform_get_video none_ = none

-- platform_supports_hevc
unfoldable pub platform_supports_hevc : Platform → Bool
platform_supports_hevc aml = true
platform_supports_hevc _ = false

-- The audio callbacks that platform_get_audio chooses between.
pub data Audio : Type 0 where
  audio_sdl audio_omx audio_pulse audio_alsa : Audio

-- The case `default`.
unfoldable pub default_audio : Build → Machine → Audio
default_audio build machine =
    if build.have_pulse && machine.pulse_inits then audio_pulse else audio_alsa

-- audio_device is NULL, "local" or "hdmi".
abbrev pub is_builtin : Option Bytes → Bool
is_builtin none = true
is_builtin (some name) = str_eq name (codes "local") || str_eq name (codes "hdmi")

-- platform_get_audio, which may return NULL where dlsym does; the case PI falls through to the
-- default.
unfoldable pub platform_get_audio : Build → Machine → Option Bytes → Platform → Option Audio
platform_get_audio build machine audio_device sdl =
    if build.have_sdl then some audio_sdl else some (default_audio build machine)
platform_get_audio build machine audio_device pi =
    if build.have_pi && is_builtin audio_device
    then if machine.has_omx_callbacks then some audio_omx else none
    else some (default_audio build machine)
platform_get_audio build machine audio_device _ = some (default_audio build machine)

-- The name on the command line that asks for a platform.
abbrev pub name_of : Platform → Bytes
name_of sdl = codes "sdl"
name_of pi = codes "pi"
name_of imx = codes "imx"
name_of aml = codes "aml"
name_of fake = codes "fake"
name_of none_ = []

asked :
    (name key : Bytes)
    → str_eq name (codes "default") || str_eq name key ≡ true
    → (name ≡ codes "default") ⊎ (name ≡ key)
asked name key h = elim (Bool-cases (str_eq name (codes "default"))) [
  | inl e ↦ inl (str_eq→eq name (codes "default") e)
  | inr e ↦ inr (str_eq→eq name key (ground arith))
]

module _ (build : Build) (machine : Machine) where
  -- The program is built for the platform, and the machine has it.
  abbrev pub is_available : Platform → Bool
  is_available sdl = build.have_sdl
  is_available pi = build.have_pi && machine.pi_opens
  is_available imx = build.have_imx && (machine.imx_opens && machine.imx_inits)
  is_available aml = build.have_aml && machine.aml_opens
  is_available fake = build.have_fake
  is_available none_ = false

  -- The callbacks of the platform are part of the program, or dlsym finds them.
  abbrev pub has_decoder : Platform → Bool
  has_decoder sdl = true
  has_decoder fake = true
  has_decoder p = machine.has_decoder_callbacks p

  platform_get_video-available :
      (p : Platform)
      → is_available p ≡ true
      → platform_get_video build machine p ≡ (if has_decoder p then some p else none)
  unfolding platform_get_video
  platform_get_video-available sdl h = ground arith
  platform_get_video-available pi h = ground arith
  platform_get_video-available imx h = ground arith
  platform_get_video-available aml h = ground arith
  platform_get_video-available fake h = ground arith
  platform_get_video-available none_ h = ground arith

  abbrev Chosen : Bytes → Platform → Type 0
  Chosen name p =
      p ≢ none_ → (is_available p ≡ true) × ((name ≡ codes "default") ⊎ (name ≡ name_of p))

  pick :
      (name : Bytes) (b : Bool) (p rest : Platform)
      → (b ≡ true → Chosen name p)
      → Chosen name rest
      → Chosen name (if b then p else rest)
  pick name true p rest chosen other = chosen refl
  pick name false p rest chosen other = other

  platform_check-Chosen : (name : Bytes) → Chosen name (platform_check build machine name)
  unfolding platform_check
  platform_check-Chosen name =
      pick name _ imx _ (λ t ne. (ground arith, asked name (codes "imx") (ground arith)))
        (pick name _ pi _ (λ t ne. (ground arith, asked name (codes "pi") (ground arith)))
          (pick name _ aml _ (λ t ne. (ground arith, asked name (codes "aml") (ground arith)))
            (pick name _ sdl _ (λ t ne. (ground arith, asked name (codes "sdl") (ground arith)))
              (pick name _ fake none_
                (λ t ne. (ground arith, asked name (codes "fake") (ground arith)))
                (λ ne. absurd (ne refl))))))

  -- A platform that platform_check chooses was asked for, by its name or as the default; the program
  -- is built for it, and the machine has it. platform_get_video gives its callbacks, or NULL where
  -- they are not part of the program and dlsym does not find them.
  pub platform_get_video-platform_check :
      (name : Bytes)
      → let p = platform_check build machine name in
        (p ≢ none_)
        → (is_available p ≡ true)
          × (platform_get_video build machine p ≡ (if has_decoder p then some p else none))
          × ((name ≡ codes "default") ⊎ (name ≡ name_of p))
  platform_get_video-platform_check name ne =
      let (available, was_asked) = platform_check-Chosen name ne in
      (
        available,
        platform_get_video-available (platform_check build machine name) available,
        was_asked,
      )
