-- ===== src/Prelude/Slots.antt =====
-- Arrays whose entries move: the last one takes the place of one that is removed.
use mathlib.Core.List.{Perm}
use moonlight_embedded_crash.Prelude.{ℕ, zero, suc, ◌≡◌, refl, some, List, [], ◌∷◌, get_elem?, set}
use mathlib.Core.List.Perm

-- Slot `i` is overwritten by the last slot, which is dropped.
unfoldable pub last_slot {ℓ} : {A : Type ℓ} → A → List A → A
last_slot d [] = d
last_slot d (x ∷ xs) = last_slot x xs

unfoldable pub drop_last {ℓ} : {A : Type ℓ} → List A → List A
drop_last [] = []
drop_last (x ∷ []) = []
drop_last (x ∷ y ∷ xs) = x ∷ drop_last (y ∷ xs)

unfoldable pub swap_remove {ℓ} : {A : Type ℓ} → A → ℕ → List A → List A
unfolding last_slot drop_last
swap_remove d i xs = drop_last (set xs i (last_slot d xs))

module _ {ℓ} {A : Type ℓ} where
  drop_last_cons : (x y : A) (ys : List A) → drop_last (x ∷ y ∷ ys) ≡ x ∷ drop_last (y ∷ ys)
  unfolding drop_last
  drop_last_cons x y ys = refl

  perm_last : (d y : A) (zs : List A) → Perm (last_slot d (y ∷ zs) ∷ drop_last (y ∷ zs)) (y ∷ zs)
  unfolding drop_last last_slot
  perm_last d y [] = Perm.refl (y ∷ [])
  perm_last d y (z ∷ zs) =
      Perm.trans (Perm.swap y (last_slot z zs) (drop_last (z ∷ zs)))
        (Perm.cons y (perm_last y z zs))

  -- Removing the entry of a slot leaves all others, in some order.
  pub swap_remove-perm :
      (d : A) (xs : List A) (i : ℕ) {x : A}
      → get_elem? xs i ≡ some x
      → Perm (x ∷ swap_remove d i xs) xs
  unfolding swap_remove
  swap_remove-perm d [] i h = cc
  swap_remove-perm d (y ∷ []) zero {x} h = let e : y ≡ x = cc in rw (← e) (Perm.refl (y ∷ []))
  swap_remove-perm d (y ∷ []) (suc i) h = cc
  swap_remove-perm d (y ∷ z ∷ zs) zero {x} h =
      let e : y ≡ x = cc in rw (← e) (Perm.cons y (perm_last y z zs))
  swap_remove-perm d (y ∷ z ∷ zs) (suc zero) {x} h =
      Perm.trans (Perm.swap y x (swap_remove y zero (z ∷ zs)))
        (Perm.cons y (swap_remove-perm y (z ∷ zs) zero h))
  swap_remove-perm d (y ∷ z ∷ zs) (suc (suc i)) {x} h =
      Perm.trans (Perm.swap y x (swap_remove y (suc i) (z ∷ zs)))
        (Perm.cons y (swap_remove-perm y (z ∷ zs) (suc i) h))
