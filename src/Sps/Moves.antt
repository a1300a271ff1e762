-- ===== src/Sps/Moves.antt =====
-- libgamestream/sps.c, gs_sps_fix: what a call does to replay_sps.
use moonlight_embedded_crash.Prelude.{
  ℕ, ◌%◌, ◌≤◌, ◌≡◌, refl, ◌∙◌, ◌≢◌, inl, inr, true, false, Option, none, some, List, arith, ◌==◌,
  if◌then◌else◌, get_elem?, Bool-cases, if_true, ==_refl, ◌⊎◌,
}
use mathlib.Core.Option
use moonlight_embedded_crash.Sps.{Flags, fix_sps, fix_level}
use moonlight_embedded_crash.Sps.Buffers.{
  Lentry, behind, Codec, State, Fixed, overwrite, set_entry, written, high, replay, replayed,
  replace, replaced, sps_entry, read_sps, on_pps, on_replay, on_sps, on_unit, on_entry, returned,
  gs_sps_fix,
}

-- The call put an entry in front of the frame and kept the frame's own first entry.
abbrev pub repeats : ℕ → Option Lentry → ℕ → ℕ
repeats head none new = 0
repeats head (some e) new = if new == head then 0 else 1

-- What a call can do to replay_sps, and whether it repeated the parameter set.
abbrev pub Moves : {R : Type 0} → Flags → ℕ → State R → Fixed R → Type 0
Moves flags head st r =
    let n = repeats head (r.state.heap.entries head) r.head in
    ((n ≡ 0)
      × (st.fixer.replay_sps ≡ 2 → r.state.fixer.replay_sps ≡ 2)
      × (flags.baseline_hack ≡ false → st.fixer.replay_sps ≡ 0 → r.state.fixer.replay_sps ≡ 0))
    ⊎ ((n ≤ 1) × (st.fixer.replay_sps ≡ 1) × (r.state.fixer.replay_sps ≡ 2))

abbrev pub MovesIf : {R : Type 0} → Flags → ℕ → State R → Option (Fixed R) → Type 0
MovesIf flags head st none = true ≡ true
MovesIf flags head st (some r) = Moves flags head st r

repeats_same : (head : ℕ) (x : Option Lentry) → repeats head x head ≡ 0
repeats_same head none = refl
repeats_same head (some e) = if_true (head == head) 0 1 (==_refl head)

repeats_bound : (head : ℕ) (x : Option Lentry) (new : ℕ) → repeats head x new ≤ 1
repeats_bound head none new = omega arith
repeats_bound head (some e) new = ground arith

repeats_freed :
    (head fresh : ℕ) (new : Lentry) (entries : ℕ → Option Lentry)
    → repeats head (set_entry fresh (some new) (set_entry head none entries) head) fresh ≡ 0
repeats_freed head fresh new entries = ground arith

module _ {R : Type 0} (codec : Codec R) where
  replay-MovesIf :
      (flags : Flags) (st : State R) (head : ℕ) (block : List ℕ)
      → st.fixer.replay_sps ≡ 1
      → MovesIf flags head st (replay codec st head block)
  unfolding replay replayed
  replay-MovesIf flags st head block one =
      go (overwrite (written codec st.rest (high codec st.fixer)) (st.heap.bytes (behind head)))
    where
      go :
          (x : Option (List ℕ))
          → MovesIf flags head st (Option.map (replayed codec st head block) x)
      go none = refl
      go (some bytes) = inr (repeats_bound head _ st.heap.fresh, one, refl)

  read_sps-replay_sps :
      (flags : Flags) (st : State R) (e : Lentry)
      → (read_sps codec flags st e).fixer.replay_sps ≡ st.fixer.replay_sps
  unfolding read_sps fix_sps fix_level
  read_sps-replay_sps flags st e = ground arith

  on_pps-replay_sps :
      (flags : Flags) (st : State R)
      → st.fixer.replay_sps ≢ 1
      → (st.fixer.replay_sps ≡ 2 → (on_pps codec flags st).fixer.replay_sps ≡ 2)
        × (flags.baseline_hack ≡ false
            → st.fixer.replay_sps ≡ 0
            → (on_pps codec flags st).fixer.replay_sps ≡ 0)
  unfolding on_pps
  on_pps-replay_sps flags st other = (ground arith, ground arith)

  -- A call that repeats nothing and leaves replay_sps moves as it may.
  idle :
      (flags : Flags) (head : ℕ) (st : State R) (r : Fixed R)
      → repeats head (r.state.heap.entries head) r.head ≡ 0
      → r.state.fixer.replay_sps ≡ st.fixer.replay_sps
      → Moves flags head st r
  idle flags head st r kept same = inl (kept, (λ two. same ∙ two), λ off zero. same ∙ zero)

  replace-MovesIf :
      (flags : Flags) (st read : State R) (head : ℕ) (e : Lentry) (block : List ℕ)
      → read.fixer.replay_sps ≡ st.fixer.replay_sps
      → MovesIf flags head st (replace codec read head e block)
  unfolding replace replaced
  replace-MovesIf flags st read head e block same =
      go (overwrite (written codec read.rest read.fixer.sps) block)
    where
      go : (x : Option (List ℕ)) → MovesIf flags head st (Option.map (replaced codec read head e) x)
      go none = refl
      go (some bytes) =
          idle flags head st (replaced codec read head e bytes)
            (repeats_freed head read.heap.fresh (sps_entry codec read e) read.heap.entries) same

  pub gs_sps_fix-MovesIf :
      (malloc : Option (List ℕ)) (flags : Flags) (st : State R) (head : ℕ)
      → MovesIf flags head st (gs_sps_fix codec malloc flags st head)
  unfolding gs_sps_fix
  gs_sps_fix-MovesIf malloc flags st head = on_entry_moves (st.heap.entries head)
    where
      on_replay_moves :
          (m : Option (List ℕ))
          → st.fixer.replay_sps ≡ 1
          → MovesIf flags head st (on_replay codec m st head)
      on_replay_moves none one =
          idle flags head st (returned none head st) (repeats_same head (st.heap.entries head)) refl
      on_replay_moves (some block) one = replay-MovesIf flags st head block one

      on_sps_moves :
          (m : Option (List ℕ)) (e : Lentry)
          → MovesIf flags head st (on_sps codec m (read_sps codec flags st e) head e)
      on_sps_moves none e =
          idle flags head st (returned none head (read_sps codec flags st e))
            (repeats_same head ((read_sps codec flags st e).heap.entries head))
            (read_sps-replay_sps flags st e)
      on_sps_moves (some block) e =
          replace-MovesIf flags st (read_sps codec flags st e) head e block
            (read_sps-replay_sps flags st e)

      on_unit_moves :
          (e : Lentry) (byte : Option ℕ)
          → (st.fixer.replay_sps == 1) ≡ false
          → MovesIf flags head st (on_unit codec malloc flags st head e byte)
      on_unit_moves e none other = refl
      on_unit_moves e (some byte) other = elim (Bool-cases (byte % 32 == codec.unit_sps)) [
        | inl sps ↦ rw sps (on_sps_moves malloc e)
        | inr picture ↦ rw picture (elim (Bool-cases (byte % 32 == codec.unit_pps)) [
          | inl pps ↦ rw pps (
              let (two, zero) = on_pps-replay_sps flags st (ground arith) in
              inl (repeats_same head ((on_pps codec flags st).heap.entries head), two, zero))
          | inr slice ↦ rw slice (
              idle flags head st (returned (some head) head st)
                (repeats_same head (st.heap.entries head)) refl)
        ])
      ]

      on_entry_moves :
          (x : Option Lentry) → MovesIf flags head st (on_entry codec malloc flags st head x)
      on_entry_moves none = refl
      on_entry_moves (some e) = elim (Bool-cases (st.fixer.replay_sps == 1)) [
        | inl one ↦ rw one (on_replay_moves malloc (ground arith))
        | inr other ↦ rw other (on_unit_moves e (get_elem? (st.heap.bytes e.data_place) 4) other)
      ]
