-- ===== src/Evdev/Syn/Ids.antt =====
-- The four controller ids: which one a gamepad gets.
use moonlight_embedded_crash.Prelude.{
  zero, ◌∙◌, sym, suc, ap, ◌==◌, ==_iff, refl, Bool-cases, inr, ◌+◌, inl, false, ◌<◌, ◌⊎◌, true, ℕ,
  ◌≡◌, arith,
}
use moonlight_embedded_crash.Prelude.Int.{ltb_ℤ, negsuc, pos, ℤ}
use mathlib.Core.Path.{subst}
use moonlight_embedded_crash.Evdev.Syn.{or_zero, take_id, assign_id}
use moonlight_embedded_crash.Prelude.Bits.{one_bit, ◌|b◌, Bits}

-- Whether an id is in use.
abbrev pub Taken : Bits → ℕ → Type 0
Taken ids i = ids i ≡ true

abbrev pub AllTaken : Bits → ℕ → Type 0
AllTaken ids n = (k : ℕ) → k < n → Taken ids k

AllTaken-suc : (ids : Bits) (n : ℕ) → AllTaken ids n → Taken ids n → AllTaken ids (n + 1)
AllTaken-suc ids n all t k h = elim (Bool-cases (k == n)) [
  | inl e ↦ subst (Taken ids) (sym ((==_iff k n).0 e)) t
  | inr e ↦ all k (ground arith)
]

-- The lowest free id below `n` was found.
pub record Finds (ids : Bits) (n : ℕ) (r : Bits × ℤ) : Type 0 where
  pub found : ℕ
  pub in_range : found < n
  pub was_free : ids found ≡ false
  pub lower_taken : AllTaken ids found
  pub sets_bit : r.0 ≡ ids |b one_bit found
  pub is_id : r.1 ≡ pos found

plus_zero : (i : ℕ) → i ≡ i + 0
plus_zero i = omega arith

shift : (i n : ℕ) → i + 1 + n ≡ i + suc n
shift i n = omega arith

take_id-cases :
    (rounds i : ℕ) (ids : Bits) (id : ℤ)
    → AllTaken ids i
    → Finds ids (i + rounds) (take_id rounds i ids id)
      ⊎ (AllTaken ids (i + rounds) × (take_id rounds i ids id ≡ (ids, id)))
unfolding take_id
take_id-cases zero i ids id all = inr (subst (AllTaken ids) (plus_zero i) all, refl)
take_id-cases (suc rounds) i ids id all = elim (Bool-cases (ids i)) [
  | inl e ↦ rw e (
      subst
        (λ m.
          Finds ids m (take_id rounds (i + 1) ids id)
          ⊎ (AllTaken ids m × (take_id rounds (i + 1) ids id ≡ (ids, id))))
        (shift i rounds) (take_id-cases rounds (i + 1) ids id (AllTaken-suc ids i all e)))
  | inr e ↦ inl (
      rw e (record {
        found = i;
        in_range = omega arith;
        was_free = e;
        lower_taken = all;
        sets_bit = refl;
        is_id = refl;
      }))
]

negative : (n : ℕ) → ltb_ℤ (negsuc n) (pos 0) ≡ true
negative n = ground arith

not_negative : (n : ℕ) → ltb_ℤ (pos n) (pos 0) ≡ false
not_negative n = ground arith

assign_id_negative :
    (ids : Bits) (n : ℕ) → assign_id ids (negsuc n) ≡ or_zero (take_id 4 0 ids (negsuc n))
unfolding assign_id
assign_id_negative ids n = rw negative

or_zero-Finds : (ids : Bits) (m : ℕ) (r : Bits × ℤ) → Finds ids m r → Finds ids m (or_zero r)
or_zero-Finds ids m r f = record {
  found = f.found;
  in_range = f.in_range;
  was_free = f.was_free;
  lower_taken = f.lower_taken;
  sets_bit = f.sets_bit;
  is_id = rw f.is_id (rw not_negative refl);
}

-- What a gamepad with an id gets, and what one with a negative number in its place.
abbrev pub Assigned : Bits → ℤ → Bits × ℤ → Type 0
Assigned ids (pos n) r = r ≡ (ids, pos n)
Assigned ids (negsuc n) r = Finds ids 4 r ⊎ (AllTaken ids 4 × (r ≡ (ids, pos 0)))

-- A gamepad without an id, whose number is negative, gets the lowest id that is free, whose bit
-- alone is then set; when all four are in use it gets id 0 and no bit changes. One that has an id
-- keeps it.
pub assign_id_lem : (ids : Bits) (id : ℤ) → Assigned ids id (assign_id ids id)
assign_id_lem ids (pos n) = unfold assign_id in rw not_negative refl
assign_id_lem ids (negsuc n) =
    rw (assign_id_negative ids n) (elim (take_id-cases 4 0 ids (negsuc n) (λ k h. elim h [ ])) [
      | inl f ↦ inl (or_zero-Finds ids 4 _ f)
      | inr (all, e) ↦ inr (all, ap or_zero e ∙ rw negative refl)
    ])
