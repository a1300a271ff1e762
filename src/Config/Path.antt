-- ===== src/Config/Path.antt =====
-- What get_path returns.
use moonlight_embedded_crash.Prelude.{
  ℕ, ◌≡◌, refl, inl, inr, true, false, Option, none, some, List, [], ◌∷◌, Bool-cases,
}
use moonlight_embedded_crash.Prelude.Text.{Bytes}
use moonlight_embedded_crash.Config.{
  World, path_in, first_byte, split_colons, data_dirs_of, search_dirs, get_path,
}

search_dirs-readable :
    (world : World) (name : Bytes) (first : ℕ) (dirs : List Bytes) (path : Bytes)
    → search_dirs world name first dirs ≡ some path
    → world.readable path ≡ true
unfolding search_dirs
search_dirs-readable world name first [] path h = cc
search_dirs-readable world name first (dir ∷ dirs) path h =
    let p = path_in first name dir in
    elim (Bool-cases (world.readable p)) [
      | inl e ↦ (let q : some p ≡ some path = rw e at h in cc)
      | inr e ↦ search_dirs-readable world name (first_byte first p) dirs path (rw e at h)
    ]

-- A path that get_path returns can be read, and the name itself is returned whenever it can be
-- read, whatever the directories hold. Where it returns none, the name cannot be read.
pub get_path-readable :
    (world : World) (name : Bytes) (extra : Option Bytes)
    → ((path : Bytes) → get_path world name extra ≡ some path → world.readable path ≡ true)
      × (world.readable name ≡ true → get_path world name extra ≡ some name)
      × (get_path world name extra ≡ none → world.readable name ≡ false)
unfolding get_path
get_path-readable world name extra = elim (Bool-cases (world.readable name)) [
  | inl e ↦ rw e ((λ path h. (cc)), (λ r. refl), (λ h. cc))
  | inr e ↦ rw e (
    (λ path h. search_dirs-readable world name 0 (split_colons (data_dirs_of world extra)) path h),
    (λ r. cc),
    (λ h. refl),
  )
]
