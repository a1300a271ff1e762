-- ===== src/Sps/Replay.antt =====
-- libgamestream/sps.c, gs_sps_fix: that the parameter set is repeated once.
use moonlight_embedded_crash.Prelude.{
  ℕ, ◌+◌, ◌≤◌, ◌≡◌, refl, inl, inr, true, false, Option, none, some, List, [], ◌∷◌, arith, ◌==◌,
  if◌then◌else◌, Bool, not, ◌&&◌,
}
use moonlight_embedded_crash.Sps.{Flags, Fixer}
use moonlight_embedded_crash.Sps.Buffers.{Heap, Codec, State, Fixed, gs_sps_fix}
use moonlight_embedded_crash.Sps.Moves.{repeats, MovesIf, gs_sps_fix-MovesIf}

-- A frame that is given to gs_sps_fix, with the memory as it then is.
pub record Frame : Type 0 where
  pub malloc : Option (List ℕ)
  pub flags : Flags
  pub heap : Heap
  pub head : ℕ

-- No frame comes with GS_SPS_BASELINE_HACK.
abbrev pub all_plain : List Frame → Bool
all_plain [] = true
all_plain (frame ∷ frames) = not frame.flags.baseline_hack && all_plain frames

-- How often the parameter set may be repeated from where replay_sps stands: never again after it
-- has been, and never before a frame asks for the baseline profile.
abbrev pub allowed : Fixer → List Frame → ℕ
allowed fixer frames =
    if fixer.replay_sps == 2
    then 0
    else if (fixer.replay_sps == 0) && all_plain frames
    then 0
    else 1

module _ {R : Type 0} (codec : Codec R) where
  abbrev at_frame : Fixer → R → Frame → State R
  at_frame fixer rest frame = record { fixer = fixer; rest = rest; heap = frame.heap }

  -- How often that happens on frames, one after the other, up to the first call that C leaves open.
  unfoldable pub count_repeats : Fixer → R → List Frame → ℕ
  count_repeats fixer rest [] = 0
  count_repeats fixer rest (frame ∷ frames) =
      elim (gs_sps_fix codec frame.malloc frame.flags (at_frame fixer rest frame) frame.head) [
        | none ↦ 0
        | some r ↦
            repeats frame.head (r.state.heap.entries frame.head) r.head
            + count_repeats r.state.fixer r.state.rest frames
      ]

  abbrev Bounded : Fixer → List Frame → ℕ → Type 0
  Bounded fixer frames n =
      (n ≤ 1)
      × (fixer.replay_sps ≡ 2 → n ≡ 0)
      × (all_plain frames ≡ true → fixer.replay_sps ≡ 0 → n ≡ 0)

  count_Bounded :
      (fixer : Fixer) (rest : R) (frames : List Frame)
      → Bounded fixer frames (count_repeats fixer rest frames)
  unfolding count_repeats
  count_Bounded fixer rest [] = (omega arith, (λ _. refl), λ _ _. refl)
  count_Bounded fixer rest (frame ∷ frames) =
      go (gs_sps_fix codec frame.malloc frame.flags (at_frame fixer rest frame) frame.head)
        (gs_sps_fix-MovesIf codec frame.malloc frame.flags (at_frame fixer rest frame) frame.head)
        (λ fixer' rest'. count_Bounded fixer' rest' frames)
    where
      go :
          (x : Option (Fixed R))
          → MovesIf frame.flags frame.head (at_frame fixer rest frame) x
          → ((fixer' : Fixer) (rest' : R)
              → Bounded fixer' frames (count_repeats fixer' rest' frames))
          → Bounded fixer (frame ∷ frames) (elim x [
            | none ↦ 0
            | some r ↦
                repeats frame.head (r.state.heap.entries frame.head) r.head
                + count_repeats r.state.fixer r.state.rest frames
          ])
      go none m ih = (omega arith, (λ _. refl), λ _ _. refl)
      go (some r) (inl (kept, two, zero)) ih =
          let (bound, done, plain) = ih r.state.fixer r.state.rest in
          (
            omega (arith, kept, bound),
            (λ e. let d = done (two e) in omega (arith, kept, d)),
            λ p e.
                let ps : all_plain frames ≡ true = ground arith in
                let off : frame.flags.baseline_hack ≡ false = ground arith in
                let d = plain ps (zero off e) in omega (arith, kept, d),
          )
      go (some r) (inr (once, one, two)) ih =
          let (bound, done, plain) = ih r.state.fixer r.state.rest in
          let d = done two in
          (
            omega (arith, once, d),
            (λ e. absurd (omega (arith, one, e))),
            λ _ e. absurd (omega (arith, one, e)),
          )

  -- Over any frames, in whatever memory they come, the parameter set is repeated at most once; not
  -- at all if it has been before, and not at all if replay_sps is 0 and no frame comes with
  -- GS_SPS_BASELINE_HACK.
  pub count_repeats-allowed :
      (fixer : Fixer) (rest : R) (frames : List Frame)
      → count_repeats fixer rest frames ≤ allowed fixer frames
  count_repeats-allowed fixer rest frames =
      let (bound, done, plain) = count_Bounded fixer rest frames in
      bounded (count_repeats fixer rest frames) bound done plain
    where
      bounded :
          (n : ℕ)
          → n ≤ 1
          → (fixer.replay_sps ≡ 2 → n ≡ 0)
          → (all_plain frames ≡ true → fixer.replay_sps ≡ 0 → n ≡ 0)
          → n ≤ allowed fixer frames
      bounded n bound done plain = ground arith
