-- ===== src/Config/Complete.antt =====
-- What holds of the settings that config_parse returns.
use moonlight_embedded_crash.Prelude.{
  ℕ, ◌≤◌, ◌≡◌, refl, ap, ◌∙◌, ◌≢◌, inl, inr, Bool, true, false, not, ◌&&◌, Option, none, some, List,
  [], ◌∷◌, ◌++◌, arith, Bool-cases, length,
}
use moonlight_embedded_crash.Prelude.Int.{eq_ℤ, eq_ℤ_refl}
use moonlight_embedded_crash.Prelude.Text.{Bytes, codes}
use moonlight_embedded_crash.Prelude.Process.{minus_one}
use moonlight_embedded_crash.Config.{Stream, max_inputs, Settings, World, Audio, get_path}
use moonlight_embedded_crash.Config.Argument.{
  Run, finished, exits, too_deep, parse_argument, or_exit,
}
use moonlight_embedded_crash.Config.File.{config_file_parse}
use moonlight_embedded_crash.Config.Parse.{
  with_defaults, default_bitrate, choose_bitrate, default_key_dir, choose_key_dir, has_mapping,
  check_inputs, complete, Written, save_to, parse_options, parse_default_file, parse_single,
  parse_args, config_parse,
}
use moonlight_embedded_crash.Config.Inputs.{
  IsConsistent, Ensures, Ensures->>=, config_file_parse-IsConsistent, parse_argument-IsConsistent,
}

-- The settings can be used: the inputs fit, a bit rate and a key directory were chosen, and where
-- there are inputs, a mapping was found and no mapping was left without an input.
pub record IsComplete (s : Settings) : Type 0 where
  pub room : length s.config.inputs ≤ max_inputs
  pub bitrate_chosen : s.config.stream.bitrate ≢ minus_one
  pub key_dir_chosen : s.config.key_dir ≢ []
  pub inputs_mapped :
      s.config.inputs ≢ [] → (s.mapped ≡ true) × (has_mapping s.config.mapping ≡ true)

default_bitrate-chosen : (t : Stream) → default_bitrate t ≢ minus_one
unfolding default_bitrate
default_bitrate-chosen t e = ground arith

choose_bitrate-chosen : (t : Stream) → (choose_bitrate t).bitrate ≢ minus_one
unfolding choose_bitrate
choose_bitrate-chosen t = elim (Bool-cases (eq_ℤ t.bitrate minus_one)) [
  | inl e ↦ rw e (default_bitrate-chosen t)
  | inr e ↦ rw e (λ f.
      let g : eq_ℤ t.bitrate minus_one ≡ true =
        ap (λ b. eq_ℤ b minus_one) f ∙ eq_ℤ_refl minus_one in
      cc)
]

append_cons : {A : Type 0} (s : List A) (c : A) (t : List A) → s ++ c ∷ t ≢ []
append_cons [] c t e = cc
append_cons (a ∷ s) c t e = cc

default_key_dir-chosen : (dir : Option Bytes) (home : Bytes) → default_key_dir dir home ≢ []
default_key_dir-chosen none home = append_cons home _ _
default_key_dir-chosen (some dir) home = append_cons dir _ _

choose_key_dir-chosen : (world : World) (dir : Bytes) → choose_key_dir world dir ≢ []
unfolding choose_key_dir
choose_key_dir-chosen world [] = default_key_dir-chosen world.xdg_cache_dir world.home
choose_key_dir-chosen world (c ∷ dir) = λ e. cc

inputs_mapped_of :
    (s : Settings)
    → s.input_added && not (s.mapped && has_mapping s.config.mapping) ≡ false
    → (s.input_added ≡ false → s.config.inputs ≡ [])
    → s.config.inputs ≢ []
    → (s.mapped ≡ true) × (has_mapping s.config.mapping ≡ true)
inputs_mapped_of s e none_added ne = elim (Bool-cases s.input_added) [
  | inl a ↦ (ground arith, ground arith)
  | inr a ↦ absurd (ne (none_added a))
]

always_holds {ℓ} : {A : Type ℓ} (r : Run A) → Ensures (λ a. Unit) r
always_holds (finished a) = tt
always_holds (exits n) = tt
always_holds too_deep = tt

complete-IsComplete :
    (world : World) (s : Settings)
    → IsConsistent s
    → Ensures IsComplete (check_inputs (complete world s))
unfolding check_inputs complete
complete-IsComplete world s h =
    elim (Bool-cases (s.input_added && not (s.mapped && has_mapping s.config.mapping))) [
      | inl e ↦ rw e tt
      | inr e ↦ rw e record {
        room = h.room;
        bitrate_chosen = choose_bitrate-chosen s.config.stream;
        key_dir_chosen = choose_key_dir-chosen world s.config.key_dir;
        inputs_mapped = inputs_mapped_of s e h.none_added;
      }
    ]

module _ (audio_modes : Audio) (world : World) (depth : ℕ) where
  parse_options-IsConsistent :
      (options : List (ℕ × Bytes)) (s : Settings)
      → IsConsistent s
      → Ensures IsConsistent (parse_options audio_modes world depth options s)
  unfolding parse_options
  parse_options-IsConsistent [] s h = h
  parse_options-IsConsistent ((c, value) ∷ options) s h =
      Ensures->>= _ _
        (parse_argument audio_modes world (config_file_parse audio_modes world depth) c value s) _
        (parse_argument-IsConsistent audio_modes world depth c value s h)
        (parse_options-IsConsistent options)

  parse_default_file-IsConsistent :
      (path : Option Bytes) (s : Settings)
      → IsConsistent s
      → Ensures IsConsistent (parse_default_file audio_modes world depth path s)
  parse_default_file-IsConsistent none s h = h
  parse_default_file-IsConsistent (some path) s h =
      Ensures->>= _ _ (config_file_parse audio_modes world depth path s) _
        (config_file_parse-IsConsistent audio_modes world depth path s h) (λ p k. k)

  or_exit-IsConsistent : (p : Bool × Settings) → IsConsistent p.1 → Ensures IsConsistent (or_exit p)
  or_exit-IsConsistent (true, s) h = h
  or_exit-IsConsistent (false, s) h = tt

  parse_single-IsConsistent :
      (path : Bytes) (s : Settings)
      → IsConsistent s
      → Ensures IsConsistent (parse_single audio_modes world depth path s)
  unfolding parse_single
  parse_single-IsConsistent path s h =
      let s' : Settings = record s {
        config = record (s.config) { action = some (codes "stream") };
      } in
      Ensures->>= _ _ (config_file_parse audio_modes world depth path s') _
        (config_file_parse-IsConsistent audio_modes world depth path s'
          record { room = h.room; none_added = h.none_added })
        or_exit-IsConsistent

  parse_args-IsConsistent :
      (args : List Bytes) (options : List (ℕ × Bytes)) (s : Settings)
      → IsConsistent s
      → Ensures IsConsistent (parse_args audio_modes world depth args options s)
  unfolding parse_args
  parse_args-IsConsistent [] options s h = parse_options-IsConsistent options s h
  parse_args-IsConsistent (path ∷ []) options s h = elim (Bool-cases (world.exists path)) [
    | inl e ↦ rw e (parse_single-IsConsistent path s h)
    | inr e ↦ rw e (parse_options-IsConsistent options s h)
  ]
  parse_args-IsConsistent (path ∷ p ∷ ps) options s h = parse_options-IsConsistent options s h

  -- Whatever the command line and the configuration files say: settings that config_parse returns
  -- have at most six inputs, a bit rate other than -1 and a key directory, and if there is an
  -- input, then there is a mapping, and no mapping was named without an input behind it.
  pub config_parse-IsComplete :
      (args : List Bytes) (options : List (ℕ × Bytes)) (initial : Settings)
      → initial.input_added ≡ false
      → Ensures
          (λ (r : Settings × Option Written). IsComplete r.0)
          (config_parse audio_modes world depth args options initial)
  unfolding config_parse
  config_parse-IsComplete args options initial h =
      Ensures->>= IsConsistent _
        (parse_default_file audio_modes world depth
          (get_path world (codes "moonlight.conf") (some (codes "/etc")))
          (with_defaults audio_modes world initial))
        _
        (parse_default_file-IsConsistent _ _
          (unfold with_defaults in record { room = omega arith; none_added = λ f. refl }))
        (λ s k.
          Ensures->>= IsConsistent _ (parse_args audio_modes world depth args options s) _
            (parse_args-IsConsistent args options s k)
            (λ s' k'.
              Ensures->>= (λ w. Unit) _ (save_to world s'.config.config_file s'.config) _
                (always_holds (save_to world s'.config.config_file s'.config))
                (λ w u.
                  Ensures->>= IsComplete _ (check_inputs (complete world s')) _
                    (complete-IsComplete world s' k') (λ s'' k''. k''))))
