-- ===== src/Tests/System.antt =====
-- The event loop's table and the choice of a platform on concrete values.
use moonlight_embedded_crash.Prelude.{
  none, if◌then◌else◌, ◌≢◌, false, ℕ, ◌≡◌, refl, sym, ap, ◌∙◌, ◌⊎◌, true, some, [], ◌∷◌,
}
use moonlight_embedded_crash.Sps.{Fixer, Flags, fix_sps, fix_sps-fields}
use mathlib.Core.List.{Perm}
use moonlight_embedded_crash.Prelude.Int.{ℤ, pos, pos_part}
use moonlight_embedded_crash.Prelude.Text.{codes, str_eq}
use moonlight_embedded_crash.Loop.{Entry, loop_remove_fd, loop_remove_fd-first}
use moonlight_embedded_crash.Platform.{
  Platform, none_, sdl, Build, Machine, is_available, has_decoder, platform_check,
  platform_get_video, name_of, platform_get_video-platform_check,
}

abbrev entry : ℤ → Entry
entry fd = record { fd = fd; events = 1; revents = pos 0; handler = 0 }

-- Descriptor 7 is to be removed, which the second entry has.
loop_remove_fd-first_example :
    Perm
      (entry (pos 7) ∷ loop_remove_fd 0 (pos 7) (entry (pos 5) ∷ entry (pos 7) ∷ []))
      (entry (pos 7) ∷ entry (pos 7) ∷ [])
loop_remove_fd-first_example =
    loop_remove_fd-first 0 (pos 7) (entry (pos 5)) (entry (pos 7)) [] (λ e. cc (ap pos_part e))

abbrev pub pi_build : Build
pi_build = record {
  have_imx = false;
  have_pi = true;
  have_aml = false;
  have_sdl = true;
  have_fake = false;
  have_pulse = false;
}

abbrev pub desktop : Machine
desktop = record {
  imx_opens = false;
  imx_inits = false;
  pi_opens = false;
  aml_opens = false;
  pulse_inits = false;
  has_decoder_callbacks = λ p. false;
  has_omx_callbacks = false;
}

desktop_platform : platform_check pi_build desktop (codes "default") ≡ sdl
unfolding platform_check str_eq
desktop_platform = refl

abbrev number : Platform → ℕ
number none_ = 0
number _ = 1

platform_get_video-platform_check_example :
    (is_available pi_build desktop (platform_check pi_build desktop (codes "default")) ≡ true)
    × (platform_get_video pi_build desktop (platform_check pi_build desktop (codes "default")) ≡ (
        if has_decoder pi_build desktop (platform_check pi_build desktop (codes "default"))
        then some (platform_check pi_build desktop (codes "default"))
        else none))
    × ((codes "default" ≡ codes "default")
        ⊎ (codes "default" ≡ name_of (platform_check pi_build desktop (codes "default"))))
platform_get_video-platform_check_example =
    platform_get_video-platform_check pi_build desktop (codes "default")
      (λ e. cc (ap number (sym desktop_platform ∙ e)))

-- The host's parameter set, of level 50, for a stream of 1920 by 1080.
abbrev pub full_hd_fixer : Fixer
full_hd_fixer = record {
  sps = record {
    profile_idc = 100;
    level_idc = 50;
    num_ref_frames = 4;
    vui = record {
      video_signal_type_present = true;
      chroma_loc_info_present = true;
      bitstream_restriction = false;
      motion_vectors_over_pic_boundaries = false;
      max_bytes_per_pic_denom = 0;
      max_bits_per_mb_denom = 0;
      log2_max_mv_length_horizontal = 0;
      log2_max_mv_length_vertical = 0;
      num_reorder_frames = 2;
      max_dec_frame_buffering = 4;
    };
  };
  initial_width = pos 1920;
  initial_height = pos 1080;
  replay_sps = 0;
}

abbrev fixup_only : Flags
fixup_only = record { bitstream_fixup = true; baseline_hack = false }

fix_sps-fields_example :
    let r = fix_sps 66 fixup_only full_hd_fixer in
    (r.sps.num_ref_frames ≡ 1)
    × (true ≡ true → r.sps.vui.max_dec_frame_buffering ≡ 1)
    × (r.sps.vui.bitstream_restriction ≡ true)
    × (pos 1080 ≡ pos 1080 → r.sps.level_idc ≡ 42)
    × (pos 1920 ≡ pos 1280 → pos 1080 ≡ pos 720 → r.sps.level_idc ≡ 32)
    × (pos 1080 ≢ pos 1080
        → ¬ ((pos 1920 ≡ pos 1280) × (pos 1080 ≡ pos 720))
        → r.sps.level_idc ≡ 50)
fix_sps-fields_example = fix_sps-fields 66 fixup_only full_hd_fixer
