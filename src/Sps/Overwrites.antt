-- ===== src/Sps/Overwrites.antt =====
-- libgamestream/sps.c, gs_sps_fix: where the parameter set that is repeated is written.
use moonlight_embedded_crash.Prelude.{
  ◌==◌, ◌<◌, ℕ, ◌≤◌, ◌≡◌, refl, sym, ap, ◌∙◌, ◌≢◌, some, List, ◌++◌, arith, length, if_true,
  if_false, ==_refl,
}
use mathlib.Core.Option
use moonlight_embedded_crash.Sps.{Flags}
use moonlight_embedded_crash.Sps.Buffers.{
  Lentry, behind, Codec, State, Fixed, written, high, set_bytes, replay, replayed, replay_entry,
  gs_sps_fix,
}
use moonlight_embedded_crash.Sps.Chain.{IsFresh, overwrite_fits}

module _ {R : Type 0} (codec : Codec R) where
  -- Where the head's data stand right behind it, the repeated parameter set is written over them:
  -- afterwards the new entry and the frame's own are both there, and the data of both start with
  -- what was written for the new one.
  pub gs_sps_fix-overwrites :
      (flags : Flags) (st : State R) (head : ℕ) (e : Lentry) (block : List ℕ)
      → st.fixer.replay_sps ≡ 1
      → st.heap.entries head ≡ some e
      → e.data_place ≡ behind head
      → IsFresh st.heap
      → length (written codec st.rest (high codec st.fixer)) ≤ length (st.heap.bytes (behind head))
      → (r : Fixed R) × (new : Lentry) × (left : List ℕ) × (gs_sps_fix codec
            (some block)
            flags
            st
            head
          ≡ some r)
        × (r.result ≡ some r.head)
        × (r.head ≢ head)
        × (r.state.heap.entries r.head ≡ some new)
        × (r.state.heap.entries head ≡ some e)
        × (new.data_place ≡ e.data_place)
        × (r.state.heap.bytes e.data_place ≡ written codec st.rest (high codec st.fixer) ++ left)
  unfolding gs_sps_fix replay replayed replay_entry
  gs_sps_fix-overwrites flags st head e block one at here low fits =
      let (left, o) =
        overwrite_fits (written codec st.rest (high codec st.fixer)) (st.heap.bytes (behind head))
          fits in
      let bytes : List ℕ = written codec st.rest (high codec st.fixer) ++ left in
      let old : head < st.heap.fresh = low head e at in
      (
        replayed codec st head block bytes,
        replay_entry codec st head,
        left,
        rw (at, one) (ap (Option.map (replayed codec st head block)) o),
        refl,
        omega (arith, old),
        if_true (st.heap.fresh == st.heap.fresh) (some (replay_entry codec st head))
            (st.heap.entries st.heap.fresh) (==_refl st.heap.fresh),
        if_false (head == st.heap.fresh) (some (replay_entry codec st head)) (st.heap.entries head)
              (ground arith)
            ∙ at,
        sym here,
        ap (set_bytes (behind head) bytes (set_bytes (behind st.heap.fresh) block st.heap.bytes))
              here
            ∙ if_true (head == head) bytes
                (set_bytes (behind st.heap.fresh) block st.heap.bytes (behind head)) (==_refl head),
      )
