-- ===== src/Sps.antt =====
-- libgamestream/sps.c: the changes to the sequence parameter set of the video stream. The parser and
-- the writer of h264bitstream, a copy of another library, are parameters.
pub mod Buffers
pub mod Chain
pub mod Fixes
pub mod Moves
pub mod Replay
pub mod Overwrites
use moonlight_embedded_crash.Prelude.{
  ℕ, ◌≡◌, ◌≢◌, Bool, true, false, ◌&&◌, arith, ◌==◌, if◌then◌else◌,
}
use moonlight_embedded_crash.Prelude.Int.{ℤ, pos, eq_ℤ}

-- The fields of the VUI parameters that gs_sps_fix sets, and of the parameter set.
pub record Vui : Type 0 where
  pub video_signal_type_present : Bool
  pub chroma_loc_info_present : Bool
  pub bitstream_restriction : Bool
  pub motion_vectors_over_pic_boundaries : Bool
  pub max_bytes_per_pic_denom : ℕ
  pub max_bits_per_mb_denom : ℕ
  pub log2_max_mv_length_horizontal : ℕ
  pub log2_max_mv_length_vertical : ℕ
  pub num_reorder_frames : ℕ
  pub max_dec_frame_buffering : ℕ

pub record ParameterSet : Type 0 where
  pub profile_idc : ℕ
  pub level_idc : ℕ
  pub num_ref_frames : ℕ
  pub vui : Vui

-- The statics: h264_stream->sps, initial_width, initial_height and replay_sps.
pub record Fixer : Type 0 where
  pub sps : ParameterSet
  pub initial_width : ℤ
  pub initial_height : ℤ
  pub replay_sps : ℕ

-- GS_SPS_BITSTREAM_FIXUP and GS_SPS_BASELINE_HACK, whether they are set in the flags.
pub record Flags : Type 0 where
  pub bitstream_fixup : Bool
  pub baseline_hack : Bool

unfoldable pub gs_sps_init : ℤ → ℤ → Fixer → Fixer
gs_sps_init width height f = record f { initial_width = width; initial_height = height }

abbrev set_level : ℕ → Fixer → Fixer
set_level level f = record f { sps = record (f.sps) { level_idc = level } }

-- The second condition assigns: `initial_width = (1920 && initial_height == 1080)`.
unfoldable pub fix_level : Fixer → Fixer
fix_level f =
    if eq_ℤ f.initial_width (pos 1280) && eq_ℤ f.initial_height (pos 720)
    then set_level 32 f
    else if eq_ℤ f.initial_height (pos 1080)
    then set_level 42 (record f { initial_width = pos 1 })
    else record f { initial_width = pos 0 }

-- The fields that get values where the stream restricts nothing itself.
unfoldable pub add_restriction : Vui → Vui
add_restriction v = if v.bitstream_restriction then v else record v {
  bitstream_restriction = true;
  motion_vectors_over_pic_boundaries = true;
  max_bits_per_mb_denom = 1;
  log2_max_mv_length_horizontal = 16;
  log2_max_mv_length_vertical = 16;
  num_reorder_frames = 0;
}

unfoldable pub fix_vui : Bool → Vui → Vui
fix_vui fixup v =
    let w : Vui = record v { video_signal_type_present = false; chroma_loc_info_present = false } in
    if fixup
    then record (add_restriction w) {
      max_dec_frame_buffering = 1;
      max_bytes_per_pic_denom = 2;
      max_bits_per_mb_denom = 1;
    }
    else record w { bitstream_restriction = false }

-- H264_PROFILE_BASELINE of h264bitstream is a parameter.
unfoldable pub fix_profile : ℕ → Bool → ℕ → ParameterSet → ParameterSet
fix_profile baseline hack replay sps =
    if hack && (replay == 0) then record sps { profile_idc = baseline } else sps

-- Everything that is done to a parameter set that was read.
unfoldable pub fix_sps : ℕ → Flags → Fixer → Fixer
fix_sps baseline flags f =
    let g : Fixer = fix_level f in
    let sps : ParameterSet = record (g.sps) {
      num_ref_frames = 1;
      vui = fix_vui flags.bitstream_fixup g.sps.vui;
    } in
    record g { sps = fix_profile baseline flags.baseline_hack g.replay_sps sps }

-- A parameter set that was fixed stays as it is when it is fixed again with the same flags: what
-- the first run does to the statics does not matter to the second.
pub fix_sps-fix_sps :
    (baseline : ℕ) (flags : Flags) (f : Fixer)
    → (fix_sps baseline flags (fix_sps baseline flags f)).sps ≡ (fix_sps baseline flags f).sps
unfolding fix_sps fix_level fix_vui add_restriction fix_profile
fix_sps-fix_sps baseline flags f = ground arith

-- After fixing, the stream refers to one frame; with GS_SPS_BITSTREAM_FIXUP it says that one frame
-- is buffered and that it is restricted, and without, that it is not. The level is 42 for a height
-- of 1080, whatever the width is, 32 for 1280 by 720, and the host's own for every size that is
-- neither.
pub fix_sps-fields :
    (baseline : ℕ) (flags : Flags) (f : Fixer)
    → let r = fix_sps baseline flags f in
      (r.sps.num_ref_frames ≡ 1)
      × (flags.bitstream_fixup ≡ true → r.sps.vui.max_dec_frame_buffering ≡ 1)
      × (r.sps.vui.bitstream_restriction ≡ flags.bitstream_fixup)
      × (f.initial_height ≡ pos 1080 → r.sps.level_idc ≡ 42)
      × (f.initial_width ≡ pos 1280 → f.initial_height ≡ pos 720 → r.sps.level_idc ≡ 32)
      × (f.initial_height ≢ pos 1080
          → ¬ ((f.initial_width ≡ pos 1280) × (f.initial_height ≡ pos 720))
          → r.sps.level_idc ≡ f.sps.level_idc)
unfolding fix_sps fix_level fix_vui add_restriction fix_profile
fix_sps-fields baseline flags f =
    (ground arith, ground arith, ground arith, ground arith, ground arith, ground arith)
