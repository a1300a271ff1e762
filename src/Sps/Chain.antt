-- ===== src/Sps/Chain.antt =====
-- libgamestream/sps.c, gs_sps_fix: what it makes of the list of a frame's buffers.
use moonlight_embedded_crash.Prelude.{
  ℕ, suc, ◌≤◌, ◌<◌, ◌≡◌, refl, sym, ap, ◌∙◌, inl, inr, true, false, Option, none, some, List, [],
  ◌∷◌, ◌++◌, arith, ◌==◌, length, Bool-cases, if_true, if_false, ==_refl,
}
use mathlib.Core.Path.{subst}
use mathlib.Core.Option
use moonlight_embedded_crash.Sps.Buffers.{
  Pointer, behind, pointer_eq, Lentry, Heap, overwrite, set_entry,
}

-- The entries of a list in their order, from the number of the first, if any.
unfoldable pub IsChain : (ℕ → Option Lentry) → Option ℕ → List ℕ → Type 0
IsChain entries first [] = first ≡ none
IsChain entries first (k ∷ ks) =
    (first ≡ some k) × ((e : Lentry) × (entries k ≡ some e) × IsChain entries e.next ks)

-- No entry has a number from `fresh` on.
abbrev pub IsFresh : Heap → Type 0
IsFresh h = (k : ℕ) (e : Lentry) → h.entries k ≡ some e → k < h.fresh

-- Bytes that fit are written in front of what is left of the block.
pub overwrite_fits :
    (xs old : List ℕ)
    → length xs ≤ length old
    → (left : List ℕ) × (overwrite xs old ≡ some (xs ++ left))
unfolding overwrite
overwrite_fits [] old h = (old, refl)
overwrite_fits (x ∷ xs) [] h = absurd (omega (arith, h))
overwrite_fits (x ∷ xs) (y ∷ old) h =
    let (left, e) = overwrite_fits xs old (omega (arith, h)) in
    (left, ap (Option.map (λ ys. x ∷ ys)) e)

unfoldable pub Avoids : ℕ → List ℕ → Type 0
Avoids k [] = true ≡ true
Avoids k (j ∷ ks) = ((j == k) ≡ false) × Avoids k ks

module _ (entries : ℕ → Option Lentry) where
  IsChain-unique :
      (first : Option ℕ) (xs ys : List ℕ)
      → IsChain entries first xs
      → IsChain entries first ys
      → length xs ≡ length ys
  unfolding IsChain
  IsChain-unique first [] [] a b = refl
  IsChain-unique first [] (y ∷ ys) a (b, e) = cc
  IsChain-unique first (x ∷ xs) [] (a, e) b = cc
  IsChain-unique first (x ∷ xs) (y ∷ ys) (a, (e, at, rest)) (b, (e', at', rest')) =
      let x≡y : x ≡ y = Option.some-injective x y (sym a ∙ b) in
      let e≡e' : e' ≡ e = Option.some-injective e' e (sym at' ∙ ap entries (sym x≡y) ∙ at) in
      ap suc (IsChain-unique e.next xs ys rest (subst (λ d. IsChain entries d.next ys) e≡e' rest'))

  -- The first entry of a list is not among those behind it.
  pub chain-Avoids :
      (k : ℕ) (all : List ℕ)
      → IsChain entries (some k) all
      → (first : Option ℕ) (ks : List ℕ) → IsChain entries first ks
      → length ks < length all
      → Avoids k ks
  unfolding Avoids IsChain
  chain-Avoids k all whole first [] c h = refl
  chain-Avoids k all whole first (j ∷ ks) (a, (e, at, rest)) h = (
    elim (Bool-cases (j == k)) [
      | inl same ↦
          let j≡k : j ≡ k = ground arith in
          let long : length (j ∷ ks) ≡ length all =
            IsChain-unique first (j ∷ ks) all (a, (e, at, rest))
              (subst (λ p. IsChain entries p all) (sym (a ∙ ap some j≡k)) whole) in
          absurd (omega (arith, long, h))
      | inr other ↦ other
    ],
    chain-Avoids k all whole e.next ks rest (omega (arith, h)),
  )

  pub fresh-Avoids :
      (fresh : ℕ)
      → ((k : ℕ) (e : Lentry) → entries k ≡ some e → k < fresh)
      → (first : Option ℕ) (ks : List ℕ) → IsChain entries first ks
      → Avoids fresh ks
  unfolding Avoids IsChain
  fresh-Avoids fresh low first [] c = refl
  fresh-Avoids fresh low first (j ∷ ks) (a, (e, at, rest)) =
      let j<fresh : j < fresh = low j e at in (ground arith, fresh-Avoids fresh low e.next ks rest)

  -- A list does not see a change of an entry that it does not have.
  pub IsChain-kept :
      (k : ℕ) (x : Option Lentry) (first : Option ℕ) (ks : List ℕ)
      → IsChain entries first ks
      → Avoids k ks
      → IsChain (set_entry k x entries) first ks
  unfolding Avoids IsChain
  IsChain-kept k x first [] c avoids = c
  IsChain-kept k x first (j ∷ ks) (a, (e, at, rest)) (other, avoids) =
      (a, (e, rw other at, IsChain-kept k x e.next ks rest avoids))

  pub set_fresh :
      (fresh : ℕ) (new : Lentry)
      → ((k : ℕ) (e : Lentry) → entries k ≡ some e → k < fresh)
      → (k : ℕ) (e : Lentry) → set_entry fresh (some new) entries k ≡ some e
      → k < suc fresh
  set_fresh fresh new low k e at = elim (Bool-cases (k == fresh)) [
    | inl same ↦ ground arith
    | inr other ↦
        let k<fresh : k < fresh =
          low k e (sym (if_false (k == fresh) (some new) (entries k) other) ∙ at) in
        omega (arith, k<fresh)
  ]

  pub set_none :
      (gone : ℕ) (fresh : ℕ)
      → ((k : ℕ) (e : Lentry) → entries k ≡ some e → k < fresh)
      → (k : ℕ) (e : Lentry) → set_entry gone none entries k ≡ some e
      → k < fresh
  set_none gone fresh low k e at = elim (Bool-cases (k == gone)) [
    | inl same ↦
        absurd (Option.none-ne-some e (sym (if_true (k == gone) none (entries k) same) ∙ at))
    | inr other ↦ low k e (sym (if_false (k == gone) none (entries k) other) ∙ at)
  ]

  -- An entry with a new number is put in front of a list.
  pub IsChain-new :
      (fresh : ℕ) (new : Lentry) (ks : List ℕ)
      → IsChain entries new.next ks
      → Avoids fresh ks
      → IsChain (set_entry fresh (some new) entries) (some fresh) (fresh ∷ ks)
  unfolding IsChain
  IsChain-new fresh new ks chain avoids = (
    refl,
    (
      new,
      if_true (fresh == fresh) (some new) (entries fresh) (==_refl fresh),
      IsChain-kept fresh (some new) new.next ks chain avoids,
    ),
  )

-- An entry with its data, where it is allocated.
abbrev pub buffer_at : Heap → ℕ → Option (Lentry × List ℕ)
buffer_at h k = Option.map (λ e. (e, h.bytes e.data_place)) (h.entries k)

-- The entries of a list are the same, with the same data.
abbrev pub Unchanged : Heap → Heap → List ℕ → Type 0
Unchanged h h' [] = true ≡ true
Unchanged h h' (k ∷ ks) = (buffer_at h' k ≡ buffer_at h k) × Unchanged h h' ks

-- No entry of a list has its data behind entry `head` or behind the number `fresh`.
abbrev pub Apart : ℕ → Heap → List ℕ → Type 0
Apart head h [] = true ≡ true
Apart head h (k ∷ ks) =
    ((e : Lentry)
      → h.entries k ≡ some e
      → (pointer_eq (behind head) e.data_place ≡ false)
        × (pointer_eq (behind h.fresh) e.data_place ≡ false))
    × Apart head h ks

-- A change of other entries, and of bytes behind the head and behind a new entry, leaves a list.
pub Unchanged-Apart :
    (head : ℕ) (h h' : Heap) (ks : List ℕ)
    → Avoids head ks
    → Avoids h.fresh ks
    → Apart head h ks
    → ((k : ℕ) → (k == head) ≡ false → (k == h.fresh) ≡ false → h'.entries k ≡ h.entries k)
    → ((p : Pointer)
        → pointer_eq (behind head) p ≡ false
        → pointer_eq (behind h.fresh) p ≡ false
        → h'.bytes p ≡ h.bytes p)
    → Unchanged h h' ks
unfolding Avoids
Unchanged-Apart head h h' [] a f apart entries bytes = refl
Unchanged-Apart head h h' (k ∷ ks) (a, as') (f, fs) (here, apart) entries bytes =
    (with_entry (h.entries k) refl, Unchanged-Apart head h h' ks as' fs apart entries bytes)
  where
    with_entry : (x : Option Lentry) → h.entries k ≡ x → buffer_at h' k ≡ buffer_at h k
    with_entry none e = rw (entries k a f, e) refl
    with_entry (some l) e =
        let (off_head, off_fresh) = here l e in
        rw (entries k a f, e) (ap (λ b. some (l, b)) (bytes l.data_place off_head off_fresh))

pub Unchanged-same : (h : Heap) (ks : List ℕ) → Unchanged h h ks
Unchanged-same h [] = refl
Unchanged-same h (k ∷ ks) = (refl, Unchanged-same h ks)
