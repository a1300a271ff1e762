-- ===== src/Tests/Frames.antt =====
-- The buffers of a frame on concrete values.
use moonlight_embedded_crash.Prelude.{
  false, ℕ, ◌≡◌, refl, ◌≢◌, ◌≤◌, ◌<◌, true, Option, none, some, List, [], ◌∷◌, ◌++◌, arith, ◌==◌,
  if◌then◌else◌,
}
use moonlight_embedded_crash.Prelude.Int.{pos}
use moonlight_embedded_crash.Sps.{Flags, Fixer, fix_sps, fix_level}
use mathlib.Core.Option
use mathlib.Core.Path.{subst}
use moonlight_embedded_crash.Sps.Buffers.{
  pointer_eq, Pointer, Lentry, behind, elsewhere, Heap, Codec, State, Fixed, written, high,
  gs_sps_fix, replace, read_sps, on_pps, replay,
}
use moonlight_embedded_crash.Sps.Chain.{IsChain}
use moonlight_embedded_crash.Sps.Fixes.{kept_head, Lists, in_front, gs_sps_fix-Lists}
use moonlight_embedded_crash.Sps.Replay.{Frame, count_repeats, count_repeats-allowed}
use moonlight_embedded_crash.Sps.Overwrites.{gs_sps_fix-overwrites}
use moonlight_embedded_crash.Tests.System.{full_hd_fixer}

-- A codec that writes the profile and the level.
abbrev codec : Codec ℕ
codec = record {
  profile_baseline = 66;
  profile_high = 100;
  unit_sps = 7;
  unit_pps = 8;
  read_nal_unit = λ bytes len rest sps. (rest, sps);
  write_nal_unit = λ rest sps room. (sps.profile_idc ∷ sps.level_idc ∷ [], pos 2);
}

abbrev block : List ℕ
block = 9 ∷ 9 ∷ 9 ∷ 9 ∷ 9 ∷ 9 ∷ 9 ∷ 9 ∷ []

abbrev first_entry : Lentry
first_entry = record { data_place = behind 0; length = pos 6; next = some 1 }

abbrev second_entry : Lentry
second_entry = record { data_place = behind 1; length = pos 6; next = none }

abbrev slots : ℕ → Option Lentry
slots k = if k == 0 then some first_entry else if k == 1 then some second_entry else none

-- A unit of type `kind` in front of a slice, each behind its entry.
abbrev unit_bytes : ℕ → Pointer → List ℕ
unit_bytes kind (behind k) = 0 ∷ 0 ∷ 0 ∷ 1 ∷ (if k == 0 then kind else 65) ∷ 4 ∷ 5 ∷ 6 ∷ []
unit_bytes kind (elsewhere k) = []

abbrev memory : ℕ → Heap
memory kind = record { entries = slots; bytes = unit_bytes kind; fresh = 2 }

abbrev hack : Flags
hack = record { bitstream_fixup = true; baseline_hack = true }

abbrev stream_state : ℕ → Fixer → State ℕ
stream_state kind f = record { fixer = f; rest = 0; heap = memory kind }

abbrev repeating : Fixer
repeating = record full_hd_fixer { replay_sps = 1 }

slots-low : (k : ℕ) (e : Lentry) → slots k ≡ some e → k < 2
slots-low k e h = ground arith

slots-apart :
    (e : Lentry)
    → slots 1 ≡ some e
    → (pointer_eq (behind 0) e.data_place ≡ false) × (pointer_eq (behind 2) e.data_place ≡ false)
slots-apart e h =
    let same : second_entry ≡ e = Option.some-injective second_entry e h in
    (
      subst (λ (l : Lentry). pointer_eq (behind 0) l.data_place ≡ false) same refl,
      subst (λ (l : Lentry). pointer_eq (behind 2) l.data_place ≡ false) same refl,
    )

gs_sps_fix-Lists_example :
    Lists codec
      (memory 103)
      0
      (kept_head codec (stream_state 103 full_hd_fixer) first_entry 103)
      (in_front codec (stream_state 103 full_hd_fixer) 0 103)
      (1 ∷ [])
      (gs_sps_fix codec (some block) hack (stream_state 103 full_hd_fixer) 0)
gs_sps_fix-Lists_example =
    gs_sps_fix-Lists codec hack (stream_state 103 full_hd_fixer) 0 first_entry 103 (1 ∷ []) block
      (unfold IsChain in (refl, (first_entry, refl, (refl, (second_entry, refl, refl))))) refl refl
      slots-low (slots-apart, refl) (unfold written in λ rest sps. omega arith) (λ e. omega arith)

-- The set with the baseline profile, the picture parameters, and two slices: the set is repeated
-- at the first slice.
abbrev frame : ℕ → Frame
frame kind = record { malloc = some block; flags = hack; heap = memory kind; head = 0 }

abbrev start : List Frame
start = frame 103 ∷ frame 104 ∷ frame 65 ∷ frame 65 ∷ []

start_repeats : count_repeats codec full_hd_fixer 0 start ≡ 1
unfolding count_repeats gs_sps_fix replace read_sps fix_sps fix_level on_pps replay
start_repeats = refl

count_repeats-allowed_example : count_repeats codec full_hd_fixer 0 start ≤ 1
count_repeats-allowed_example = count_repeats-allowed codec full_hd_fixer 0 start

gs_sps_fix-overwrites_example :
    (r : Fixed ℕ) × (new : Lentry) × (left : List ℕ) × (gs_sps_fix codec
        (some block)
        hack
        (stream_state 65 repeating)
        0
      ≡ some r)
    × (r.result ≡ some r.head)
    × (r.head ≢ 0)
    × (r.state.heap.entries r.head ≡ some new)
    × (r.state.heap.entries 0 ≡ some first_entry)
    × (new.data_place ≡ behind 0)
    × (r.state.heap.bytes (behind 0) ≡ written codec 0 (high codec repeating) ++ left)
gs_sps_fix-overwrites_example =
    gs_sps_fix-overwrites codec hack (stream_state 65 repeating) 0 first_entry block refl refl refl
      slots-low (unfold written in omega arith)
