-- ===== src/Sps/Fixes.antt =====
-- libgamestream/sps.c, gs_sps_fix: the list of buffers it returns.
use moonlight_embedded_crash.Prelude.{
  ℕ, ◌%◌, ◌≤◌, ◌≡◌, refl, sym, ap, ◌∙◌, inl, inr, Option, none, some, List, [], ◌∷◌, ◌++◌, arith,
  ◌==◌, if◌then◌else◌, get_elem?, length, Bool-cases, ◌<◌, if_true, if_false, ==_refl,
}
use mathlib.Core.Path.{subst}
use mathlib.Core.Option
use moonlight_embedded_crash.Sps.{Flags, ParameterSet}
use moonlight_embedded_crash.Sps.Buffers.{
  Heap, pointer_eq, Lentry, behind, Codec, State, Fixed, set_entry, written, high, replay, replayed,
  replaced, replay_entry, sps_entry, read_sps, replace, on_pps, gs_sps_fix,
}
use moonlight_embedded_crash.Sps.Chain.{
  IsChain, IsFresh, overwrite_fits, chain-Avoids, fresh-Avoids, IsChain-kept, set_fresh, set_none,
  IsChain-new, Unchanged, Unchanged-same, Apart, Unchanged-Apart, Avoids,
}

module _ {R : Type 0} (codec : Codec R) where
  open codec use {unit_sps}

  -- The call returned a list of the entries `front` and then `ks`, left their head in `*head`, and left
  -- `kept` in the place of the entry `head`; the entries `ks` are as they were before, with their data.
  unfoldable pub Lists : Heap → ℕ → Option Lentry → List ℕ → List ℕ → Option (Fixed R) → Type 0
  Lists before head kept front ks x =
      (r : Fixed R) × (x ≡ some r)
      × (r.result ≡ some r.head)
      × IsChain r.state.heap.entries (some r.head) (front ++ ks)
      × IsFresh r.state.heap
      × (r.state.heap.entries head ≡ kept)
      × Unchanged before r.state.heap ks

  module _ (st : State R) (head : ℕ) (e : Lentry) (ks : List ℕ)
      (chain : IsChain st.heap.entries (some head) (head ∷ ks)) (at : st.heap.entries head ≡ some e)
      (low : IsFresh st.heap) (apart : Apart head st.heap ks) where
    tail-IsChain : IsChain st.heap.entries e.next ks
    unfolding IsChain
    tail-IsChain =
        let (_, (e', at', tail)) = chain in
        let same : e' ≡ e = Option.some-injective e' e (sym at' ∙ at) in
        subst (λ d. IsChain st.heap.entries d.next ks) same tail

    head-Avoids : Avoids head ks
    head-Avoids =
        chain-Avoids st.heap.entries head (head ∷ ks) chain e.next ks tail-IsChain (omega arith)

    new-Avoids : Avoids st.heap.fresh ks
    new-Avoids = fresh-Avoids st.heap.entries st.heap.fresh low e.next ks tail-IsChain

    replay-Lists :
        (block : List ℕ)
        → length (written codec st.rest (high codec st.fixer))
          ≤ length (st.heap.bytes (behind head))
        → Lists st.heap head (some e) (st.heap.fresh ∷ head ∷ []) ks (replay codec st head block)
    unfolding Lists replay replayed replay_entry
    replay-Lists block fits =
        let (left, o) =
          overwrite_fits (written codec st.rest (high codec st.fixer)) (st.heap.bytes (behind head))
            fits in
        let r =
          replayed codec st head block (written codec st.rest (high codec st.fixer) ++ left) in
        let avoids = fresh-Avoids st.heap.entries st.heap.fresh low (some head) (head ∷ ks) chain in
        let old : head < st.heap.fresh = low head e at in
        let entry : Lentry = replay_entry codec st head in
        (
          r,
          ap (Option.map (replayed codec st head block)) o,
          refl,
          IsChain-new st.heap.entries st.heap.fresh entry (head ∷ ks) chain avoids,
          set_fresh st.heap.entries st.heap.fresh entry low,
          if_false (head == st.heap.fresh) (some entry) (st.heap.entries head) (ground arith) ∙ at,
          Unchanged-Apart head st.heap r.state.heap ks head-Avoids new-Avoids apart
              (λ k off_head off_fresh. if_false (k == st.heap.fresh) _ _ off_fresh)
              (λ p off_head off_fresh.
                if_false (pointer_eq (behind head) p) _ _ off_head
                ∙ if_false (pointer_eq (behind st.heap.fresh) p) _ _ off_fresh),
        )

    replace-Lists :
        (block : List ℕ)
        → length (written codec st.rest st.fixer.sps) ≤ length block
        → Lists st.heap head none (st.heap.fresh ∷ []) ks (replace codec st head e block)
    unfolding Lists replace replaced sps_entry
    replace-Lists block fits =
        let (left, o) = overwrite_fits (written codec st.rest st.fixer.sps) block fits in
        let r = replaced codec st head e (written codec st.rest st.fixer.sps ++ left) in
        let freed : ℕ → Option Lentry = set_entry head none st.heap.entries in
        let entry : Lentry = sps_entry codec st e in
        let low' = set_none st.heap.entries head st.heap.fresh low in
        let kept = IsChain-kept st.heap.entries head none e.next ks tail-IsChain head-Avoids in
        let old : head < st.heap.fresh = low head e at in
        (
          r,
          ap (Option.map (replaced codec st head e)) o,
          refl,
          IsChain-new freed st.heap.fresh entry ks kept
              (fresh-Avoids freed st.heap.fresh low' e.next ks kept),
          set_fresh freed st.heap.fresh entry low',
          if_false (head == st.heap.fresh) (some entry) (freed head) (ground arith)
              ∙ if_true (head == head) none (st.heap.entries head) (==_refl head),
          Unchanged-Apart head st.heap r.state.heap ks head-Avoids new-Avoids apart
              (λ k off_head off_fresh.
                if_false (k == st.heap.fresh) _ _ off_fresh
                ∙ if_false (k == head) none (st.heap.entries k) off_head)
              (λ p off_head off_fresh.
                if_false (pointer_eq (behind st.heap.fresh) p) _ _ off_fresh),
        )

    same-Lists :
        (st' : State R)
        → st'.heap ≡ st.heap
        → Lists st.heap head
            (some e)
            (head ∷ [])
            ks
            (some (record { state = st'; head = head; result = some head }))
    unfolding Lists
    same-Lists st' same = (
      record { state = st'; head = head; result = some head },
      refl,
      refl,
      subst (λ h. IsChain h.entries (some head) (head ∷ ks)) (sym same) chain,
      subst IsFresh (sym same) low,
      subst (λ h. h.entries head ≡ some e) (sym same) at,
      subst (λ h. Unchanged st.heap h ks) (sym same) (Unchanged-same st.heap ks),
    )

  on_pps-heap : (flags : Flags) (st : State R) → (on_pps codec flags st).heap ≡ st.heap
  unfolding on_pps
  on_pps-heap flags st = ground arith

  -- The entries in front of the others afterwards, by the type of the head's unit, and what is left in
  -- the head's place: it is freed where it is a parameter set.
  unfoldable pub in_front : State R → ℕ → ℕ → List ℕ
  in_front st head byte =
      if st.fixer.replay_sps == 1
      then st.heap.fresh ∷ head ∷ []
      else if byte % 32 == unit_sps
      then st.heap.fresh ∷ []
      else head ∷ []

  unfoldable pub kept_head : State R → Lentry → ℕ → Option Lentry
  kept_head st e byte =
      if st.fixer.replay_sps == 1 then some e else if byte % 32 == unit_sps then none else some e

  -- Where memory is left, the block has room for what is written, and so have the bytes behind the
  -- head if the parameter set is to be repeated, gs_sps_fix returns the new head of a list, which it
  -- leaves in `*head` as well. All entries behind the head are in the list as they were, with their
  -- data, if these do not stand behind the head or a new entry. In front of them stand the head, with
  -- a new entry before it where the parameter set is repeated, or a new entry alone where the head is
  -- a parameter set, which is freed; in the other cases the head's entry is left as it was.
  pub gs_sps_fix-Lists :
      (flags : Flags) (st : State R) (head : ℕ) (e : Lentry) (byte : ℕ) (ks block : List ℕ)
      → IsChain st.heap.entries (some head) (head ∷ ks)
      → st.heap.entries head ≡ some e
      → get_elem? (st.heap.bytes e.data_place) 4 ≡ some byte
      → IsFresh st.heap
      → Apart head st.heap ks
      → ((rest : R) (sps : ParameterSet) → length (written codec rest sps) ≤ length block)
      → (st.fixer.replay_sps ≡ 1 → length block ≤ length (st.heap.bytes (behind head)))
      → Lists st.heap head
          (kept_head st e byte)
          (in_front st head byte)
          ks
          (gs_sps_fix codec (some block) flags st head)
  unfolding gs_sps_fix in_front kept_head read_sps
  gs_sps_fix-Lists flags st head e byte ks block chain at fifth low apart fits room =
      rw (at, fifth)
        (elim (Bool-cases (st.fixer.replay_sps == 1)) [
          | inl one ↦ rw one (
              replay-Lists st head e ks chain at low apart block
                (omega (arith, fits st.rest (high codec st.fixer), room (ground arith))))
          | inr other ↦ rw other (elim (Bool-cases (byte % 32 == unit_sps)) [
            | inl set ↦ rw set (
                replace-Lists (read_sps codec flags st e) head e ks chain at low apart block
                  (fits (read_sps codec flags st e).rest (read_sps codec flags st e).fixer.sps))
            | inr picture ↦ rw picture (elim (Bool-cases (byte % 32 == codec.unit_pps)) [
              | inl pps ↦ rw pps (
                  same-Lists st head e ks chain at low apart (on_pps codec flags st)
                    (on_pps-heap flags st))
              | inr slice ↦ rw slice (same-Lists st head e ks chain at low apart st refl)
            ])
          ])
        ])
