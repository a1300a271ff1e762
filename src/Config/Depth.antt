-- ===== src/Config/Depth.antt =====
-- Reading a configuration file ends, where no file names itself through `config` lines.
use moonlight_embedded_crash.Prelude.{
  ℕ, zero, suc, ◌<◌, ◌≡◌, refl, sym, ap, ◌∙◌, inl, inr, Bool, true, false, not, ◌&&◌, ◌||◌, Option,
  none, some, List, [], ◌∷◌, arith, leb, Bool-cases, Option-cases, length, get_elem?,
}
use moonlight_embedded_crash.Prelude.Text.{Bytes, codes, str_eq, str_eq→eq}
use moonlight_embedded_crash.Config.{Settings, World, Audio, get_path, max_inputs}
use moonlight_embedded_crash.Config.Argument.{
  Run, finished, exits, too_deep, ◌>>=◌, LongOption, long_options, parse_case, parse_argument,
  case_of, add_input, use_mapping, add_positional, or_exit, Case,
}
use moonlight_embedded_crash.Config.File.{
  Key, key_of, matches, apply_options, apply_key, apply_scanned, parse_lines, parse_opened,
  config_file_parse,
}
use moonlight_embedded_crash.Libc.Scan.{lines, scan_setting}

abbrev pub Ends {ℓ} : {A : Type ℓ} → Run A → Type 0
Ends (finished a) = Unit
Ends (exits n) = Unit
Ends too_deep = ⊥

Ends->>= {ℓ κ} :
    {A : Type ℓ} {B : Type κ} (r : Run A) (f : A → Run B)
    → Ends r
    → ((a : A) → Ends (f a))
    → Ends (r >>= f)
Ends->>= (finished a) f h k = k a
Ends->>= (exits n) f h k = tt
Ends->>= too_deep f h k = h

add_input-Ends : (value : Bytes) (s : Settings) → Ends (add_input value s)
unfolding add_input
add_input-Ends value s = elim (Bool-cases (leb max_inputs (length s.config.inputs))) [
  | inl e ↦ rw e tt
  | inr e ↦ rw e tt
]

use_mapping-Ends : (path : Option Bytes) (s : Settings) → Ends (use_mapping path s)
use_mapping-Ends none s = tt
use_mapping-Ends (some path) s = tt

add_positional-Ends :
    (value : Bytes) (s : Settings) (action address : Option Bytes)
    → Ends (add_positional value s action address)
add_positional-Ends value s none address = tt
add_positional-Ends value s (some _) none = tt
add_positional-Ends value s (some _) (some _) = tt

or_exit-Ends : (p : Bool × Settings) → Ends (or_exit p)
or_exit-Ends (true, s) = tt
or_exit-Ends (false, s) = tt

-- An entry of the table that calls config_file_parse has the name "config".
abbrev Named : List LongOption → Type 0
Named [] = Unit
Named (o ∷ os) = (case_of o.val ≡ Case.config → o.name ≡ codes "config") × Named os

abbrev is_config : Case → Bool
is_config Case.config = true
is_config _ = false

abbrev all_named : List LongOption → Bool
all_named [] = true
all_named (o ∷ os) =
    (not (is_config (case_of o.val)) || str_eq o.name (codes "config")) && all_named os

all_named-Named : (os : List LongOption) → all_named os ≡ true → Named os
all_named-Named [] h = tt
all_named-Named (o ∷ os) h = (
  (λ c.
      let e : is_config (case_of o.val) ≡ true = ap is_config c in
      str_eq→eq o.name (codes "config") (ground arith)),
  all_named-Named os (ground arith),
)

long_options-Named : Named long_options
unfolding long_options case_of str_eq
long_options-Named = all_named-Named long_options refl

module _ (audio_modes : Audio) (world : World) where
  module _ (nested : Bytes → Settings → Run (Bool × Settings)) where
    parse_case-Ends :
        (c : Case) (value : Bytes) (s : Settings)
        → (c ≡ Case.config → Ends (nested value s))
        → Ends (parse_case audio_modes world nested c value s)
    unfolding parse_case
    parse_case-Ends Case.input value s h = add_input-Ends value s
    parse_case-Ends Case.mapping value s h =
        use_mapping-Ends (get_path world value world.xdg_data_dirs) s
    parse_case-Ends Case.config value s h = Ends->>= (nested value s) _ (h refl) or_exit-Ends
    parse_case-Ends Case.positional value s h =
        add_positional-Ends value s s.config.action s.config.address
    parse_case-Ends _ value s h = tt

    apply_options-Ends :
        (key value : Bytes) (os : List LongOption) (s : Settings)
        → Named os
        → (key ≡ codes "config" → (s : Settings) → Ends (nested value s))
        → Ends (apply_options audio_modes world nested key value os s)
    unfolding apply_options parse_argument matches
    apply_options-Ends key value [] s n h = tt
    apply_options-Ends key value (o ∷ os) s (n, ns) h =
        elim (Bool-cases (o.required_argument && str_eq o.name key)) [
          | inl e ↦ rw e (
              Ends->>= (parse_case audio_modes world nested (case_of o.val) value s) _
                (parse_case-Ends (case_of o.val) value s
                  (λ c. h (sym (str_eq→eq o.name key (ground arith)) ∙ n c) s))
                (λ s'. apply_options-Ends key value os s' ns h))
          | inr e ↦ rw e (apply_options-Ends key value os s ns h)
        ]

    apply_key-Ends :
        (k : Key) (key value : Bytes) (s : Settings)
        → (key ≡ codes "config" → (s : Settings) → Ends (nested value s))
        → Ends (apply_key audio_modes world nested k key value s)
    unfolding apply_key
    apply_key-Ends Key.option key value s h =
        apply_options-Ends key value long_options s long_options-Named h
    apply_key-Ends _ key value s h = tt

    abbrev AllEnd : Bytes → Type 0
    AllEnd l =
        (value : Bytes)
        → scan_setting l ≡ some (codes "config", value)
        → (s : Settings) → Ends (nested value s)

    apply_scanned-Ends :
        (o : Option (Bytes × Bytes)) (s : Settings)
        → ((value : Bytes)
            → o ≡ some (codes "config", value)
            → (s : Settings) → Ends (nested value s))
        → Ends (apply_scanned audio_modes world nested o s)
    unfolding apply_scanned
    apply_scanned-Ends none s h = tt
    apply_scanned-Ends (some (key, value)) s h =
        apply_key-Ends (key_of key) key value s (λ e. h value (ap (λ k. some (k, value)) e))

    parse_lines-Ends :
        (ls : List Bytes) (s : Settings)
        → ((k : ℕ) (l : Bytes) → get_elem? ls k ≡ some l → AllEnd l)
        → Ends (parse_lines audio_modes world nested ls s)
    unfolding parse_lines
    parse_lines-Ends [] s h = tt
    parse_lines-Ends (l ∷ ls) s h =
        Ends->>= (apply_scanned audio_modes world nested (scan_setting l) s) _
          (apply_scanned-Ends (scan_setting l) s (h 0 l refl))
          (λ s'. parse_lines-Ends ls s' (λ k m i. h (suc k) m i))

  -- Every file that a `config` line of a file names has a smaller rank.
  abbrev pub Ranked : (Bytes → ℕ) → Type 0
  Ranked rank =
      (filename text : Bytes) (k : ℕ) (l value : Bytes)
      → world.file filename ≡ some text
      → get_elem? (lines text) k ≡ some l
      → scan_setting l ≡ some (codes "config", value)
      → rank value < rank filename

  -- Where the files can be ranked so that every file ranks above those it names, a depth above the
  -- rank of a file is enough to read it: the run finishes or exits.
  pub config_file_parse-Ends :
      (rank : Bytes → ℕ) (depth : ℕ) (filename : Bytes) (s : Settings)
      → Ranked rank
      → rank filename < depth
      → Ends (config_file_parse audio_modes world depth filename s)
  unfolding config_file_parse parse_opened
  config_file_parse-Ends rank zero filename s ranked lt = elim lt [ ]
  config_file_parse-Ends rank (suc depth) filename s ranked lt =
      elim (Option-cases (world.file filename)) [
        | inl e ↦ rw e tt
        | inr (text, e) ↦ rw e (
            Ends->>=
              (parse_lines audio_modes world (config_file_parse audio_modes world depth)
                (lines text) s)
              _
              (parse_lines-Ends (config_file_parse audio_modes world depth) (lines text) s
                (λ k l m value scanned s'.
                  config_file_parse-Ends rank depth value s' ranked
                    (omega (arith, ranked filename text k l value e m scanned))))
              (λ s'. tt))
      ]
