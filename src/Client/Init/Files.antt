-- ===== src/Client/Init/Files.antt =====
-- What gs_init does with the key directory.
use mathlib.Core.Path.{subst}
use mathlib.Core.List.{append-nil, append_assoc}
use moonlight_embedded_crash.Prelude.{
  ℕ, zero, suc, ◌*◌, ◌≤◌, ◌≡◌, refl, sym, ap, ◌∙◌, inl, inr, Bool, true, none, some, List, [], ◌∷◌,
  ◌++◌, arith, ◌==◌, Bool-cases, length, take,
}
use moonlight_embedded_crash.Prelude.Text.{Bytes}
use moonlight_embedded_crash.Client.Init.{
  element_ends, element_paths, make_each, mkdirtree, KeyDir, unique_id, load_unique_id,
}
use moonlight_embedded_crash.Client.Hex.{bytes_to_hex}
use moonlight_embedded_crash.Client.{ok}

length-bytes_to_hex : (bs : Bytes) → length (bytes_to_hex bs) ≡ 2 * length bs
unfolding bytes_to_hex
length-bytes_to_hex [] = refl
length-bytes_to_hex (b ∷ bs) = omega (arith, length-bytes_to_hex bs)

take_all {ℓ} : {A : Type ℓ} (n : ℕ) (xs : List A) → length xs ≤ n → take n xs ≡ xs
take_all zero [] h = refl
take_all zero (x ∷ xs) h = absurd (omega (arith, h))
take_all (suc n) [] h = refl
take_all (suc n) (x ∷ xs) h = ap (λ l. x ∷ l) (take_all n xs (omega (arith, h)))

-- A client without an id takes the hexadecimal digits of the eight random bytes, all of them, and
-- writes them to the file; from then on, whatever RAND_bytes gives, it has the same id and writes
-- nothing.
pub load_unique_id-load_unique_id :
    (dir later : KeyDir) (id : Bytes)
    → length dir.unique_data ≡ 8
    → dir.id_file ≡ none
    → load_unique_id dir ≡ ok (some id)
    → later.id_file ≡ some id
    → (id ≡ bytes_to_hex dir.unique_data)
      × (unique_id dir ≡ id)
      × (unique_id later ≡ id)
      × (load_unique_id later ≡ ok none)
unfolding load_unique_id unique_id
load_unique_id-load_unique_id dir later id eight no_file wrote kept =
    let full : take 16 (bytes_to_hex dir.unique_data) ≡ bytes_to_hex dir.unique_data =
      take_all 16 _ (omega (arith, eight, length-bytes_to_hex dir.unique_data)) in
    let ran = rw no_file at wrote in
    elim (Bool-cases dir.id_writable) [
      | inl w ↦
          let same : take 16 (bytes_to_hex dir.unique_data) ≡ id = cc (rw w at ran) in
          rw (no_file, kept)
            (
              sym same ∙ full,
              same,
              take_all 16 id (
                  omega (
                    arith,
                    eight,
                    length-bytes_to_hex dir.unique_data,
                    ap length (sym same ∙ full),
                  )),
              refl,
            )
      | inr w ↦ absurd (cc (rw w at ran))
    ]

-- Every later element path extends the one it follows.
abbrev pub Extends : Bytes → Bytes → Type 0
Extends path longer = (rest : Bytes) × (longer ≡ path ++ rest)

-- One path after the other extends the path before it, and the last is `whole`.
abbrev pub Climbs : Bytes → List Bytes → Bytes → Type 0
Climbs path [] whole = path ≡ whole
Climbs path (next ∷ paths) whole = Extends path next × Climbs next paths whole

element_ends-Climbs :
    (path start : Bytes) (rest : Bytes)
    → Extends start path
    → Climbs start (element_ends path rest) (path ++ rest)
unfolding element_ends
element_ends-Climbs path start [] e = (e, sym (append-nil path))
element_ends-Climbs path start (c ∷ rest) (more, e) =
    let same : (path ++ c ∷ []) ++ rest ≡ path ++ c ∷ rest = append_assoc path (c ∷ []) rest in
    elim (Bool-cases (c == b'/')) [
      | inl q ↦ rw q (
        (more, e),
        subst (Climbs path _) same (element_ends-Climbs (path ++ c ∷ []) path rest (c ∷ [], refl)),
      )
      | inr q ↦ rw q (
          subst (Climbs start _) same (
            element_ends-Climbs (path ++ c ∷ []) start rest
              (more ++ c ∷ [], ap (λ l. l ++ c ∷ []) e ∙ append_assoc start more (c ∷ []))))
    ]

make_each_all :
    (makes : Bytes → Bool) (paths : List Bytes)
    → ((path : Bytes) → makes path ≡ true)
    → make_each makes paths ≡ (paths, true)
unfolding make_each
make_each_all makes [] all = refl
make_each_all makes (path ∷ paths) all = rw (make_each_all makes paths all, all path) refl

-- Where every directory can be made, mkdirtree returns 0 and has made the directory itself, after
-- those on the way to it, each of which extends the one before.
pub mkdirtree-Climbs :
    (makes : Bytes → Bool) (directory : Bytes)
    → ((path : Bytes) → makes path ≡ true)
    → ((mkdirtree makes directory).1 ≡ true) × Climbs [] (mkdirtree makes directory).0 directory
unfolding mkdirtree element_paths make_each
mkdirtree-Climbs makes [] all = (refl, refl)
mkdirtree-Climbs makes (c ∷ rest) all =
    rw (make_each_all makes (element_ends (c ∷ []) rest) all)
      (refl, element_ends-Climbs (c ∷ []) [] rest (c ∷ [], refl))
