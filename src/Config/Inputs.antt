-- ===== src/Config/Inputs.antt =====
-- The inputs of a configuration: the array of six entries is never written past its end.
use moonlight_embedded_crash.Prelude.{
  ℕ, zero, suc, ◌≤◌, ◌<◌, ◌≡◌, inl, inr, Bool, true, false, Option, none, some, List, [], ◌∷◌,
  arith, leb, Bool-cases, length, length-append,
}
use moonlight_embedded_crash.Prelude.Text.{Bytes}
use moonlight_embedded_crash.Config.{max_inputs, Settings, World, Audio, get_path}
use moonlight_embedded_crash.Config.Argument.{
  Run, finished, exits, too_deep, ◌>>=◌, LongOption, long_options, parse_case, parse_argument,
  case_of, add_input, use_mapping, add_positional, or_exit, Case,
}
use moonlight_embedded_crash.Config.File.{
  Key, key_of, matches, apply_options, apply_key, apply_scanned, parse_lines, parse_opened,
  config_file_parse,
}
use moonlight_embedded_crash.Libc.Scan.{lines, scan_setting}

-- The array has room, and it is empty as long as no input was added.
pub record IsConsistent (s : Settings) : Type 0 where
  pub room : length s.config.inputs ≤ max_inputs
  pub none_added : s.input_added ≡ false → s.config.inputs ≡ []

-- What a run that finishes leaves satisfies `P`.
abbrev pub Ensures {ℓ} : {A : Type ℓ} → (A → Type 0) → Run A → Type 0
Ensures P (finished a) = P a
Ensures P (exits n) = Unit
Ensures P too_deep = Unit

pub Ensures->>= {ℓ κ} :
    {A : Type ℓ} {B : Type κ} (P : A → Type 0) (Q : B → Type 0) (r : Run A) (f : A → Run B)
    → Ensures P r
    → ((a : A) → P a → Ensures Q (f a))
    → Ensures Q (r >>= f)
Ensures->>= P Q (finished a) f h k = k a h
Ensures->>= P Q (exits n) f h k = tt
Ensures->>= P Q too_deep f h k = tt

add_input-IsConsistent :
    (value : Bytes) (s : Settings) → IsConsistent s → Ensures IsConsistent (add_input value s)
unfolding add_input
add_input-IsConsistent value s h = elim (Bool-cases (leb max_inputs (length s.config.inputs))) [
  | inl e ↦ rw e tt
  | inr e ↦ rw e record {
    room =
        (let lt : length s.config.inputs < max_inputs = ground arith in
          omega (
            arith,
            length-append s.config.inputs
                (record { path = value; mapping = s.config.mapping } ∷ []),
          ));
    none_added = λ f. cc;
  }
]

use_mapping-IsConsistent :
    (path : Option Bytes) (s : Settings)
    → IsConsistent s
    → Ensures IsConsistent (use_mapping path s)
use_mapping-IsConsistent none s h = tt
use_mapping-IsConsistent (some path) s h = record { room = h.room; none_added = h.none_added }

add_positional-IsConsistent :
    (value : Bytes) (s : Settings) (action address : Option Bytes)
    → IsConsistent s
    → Ensures IsConsistent (add_positional value s action address)
add_positional-IsConsistent value s none address h = record {
  room = h.room;
  none_added = h.none_added;
}
add_positional-IsConsistent value s (some _) none h = record {
  room = h.room;
  none_added = h.none_added;
}
add_positional-IsConsistent value s (some _) (some _) h = tt

or_exit-IsConsistent : (p : Bool × Settings) → IsConsistent p.1 → Ensures IsConsistent (or_exit p)
or_exit-IsConsistent (true, s) h = h
or_exit-IsConsistent (false, s) h = tt

abbrev pub Keeps : (Bytes → Settings → Run (Bool × Settings)) → Type 0
Keeps nested =
    (value : Bytes) (s : Settings)
    → IsConsistent s
    → Ensures (λ (p : Bool × Settings). IsConsistent p.1) (nested value s)

module _ (audio_modes : Audio) (world : World) where
  module _ (nested : Bytes → Settings → Run (Bool × Settings)) (keeps : Keeps nested) where
    parse_case-IsConsistent :
        (c : Case) (value : Bytes) (s : Settings)
        → IsConsistent s
        → Ensures IsConsistent (parse_case audio_modes world nested c value s)
    unfolding parse_case
    parse_case-IsConsistent Case.input value s h = add_input-IsConsistent value s h
    parse_case-IsConsistent Case.mapping value s h =
        use_mapping-IsConsistent (get_path world value world.xdg_data_dirs) s h
    parse_case-IsConsistent Case.config value s h =
        Ensures->>= _ _ (nested value s) _ (keeps value s h) or_exit-IsConsistent
    parse_case-IsConsistent Case.positional value s h =
        add_positional-IsConsistent value s s.config.action s.config.address h
    parse_case-IsConsistent _ value s h = record { room = h.room; none_added = h.none_added }

    apply_options-IsConsistent :
        (key value : Bytes) (os : List LongOption) (s : Settings)
        → IsConsistent s
        → Ensures IsConsistent (apply_options audio_modes world nested key value os s)
    unfolding apply_options parse_argument
    apply_options-IsConsistent key value [] s h = h
    apply_options-IsConsistent key value (o ∷ os) s h = elim (Bool-cases (matches key o)) [
      | inl e ↦ rw e (
          Ensures->>= _ _ (parse_case audio_modes world nested (case_of o.val) value s) _
            (parse_case-IsConsistent (case_of o.val) value s h)
            (apply_options-IsConsistent key value os))
      | inr e ↦ rw e (apply_options-IsConsistent key value os s h)
    ]

    apply_key-IsConsistent :
        (k : Key) (key value : Bytes) (s : Settings)
        → IsConsistent s
        → Ensures IsConsistent (apply_key audio_modes world nested k key value s)
    unfolding apply_key
    apply_key-IsConsistent Key.option key value s h =
        apply_options-IsConsistent key value long_options s h
    apply_key-IsConsistent _ key value s h = record { room = h.room; none_added = h.none_added }

    apply_scanned-IsConsistent :
        (o : Option (Bytes × Bytes)) (s : Settings)
        → IsConsistent s
        → Ensures IsConsistent (apply_scanned audio_modes world nested o s)
    unfolding apply_scanned
    apply_scanned-IsConsistent none s h = h
    apply_scanned-IsConsistent (some (key, value)) s h =
        apply_key-IsConsistent (key_of key) key value s h

    parse_lines-IsConsistent :
        (ls : List Bytes) (s : Settings)
        → IsConsistent s
        → Ensures IsConsistent (parse_lines audio_modes world nested ls s)
    unfolding parse_lines
    parse_lines-IsConsistent [] s h = h
    parse_lines-IsConsistent (l ∷ ls) s h =
        Ensures->>= _ _ (apply_scanned audio_modes world nested (scan_setting l) s) _
          (apply_scanned-IsConsistent (scan_setting l) s h) (parse_lines-IsConsistent ls)

    parse_opened-IsConsistent :
        (text : Option Bytes) (s : Settings)
        → IsConsistent s
        → Ensures
            (λ (p : Bool × Settings). IsConsistent p.1)
            (parse_opened audio_modes world nested text s)
    unfolding parse_opened
    parse_opened-IsConsistent none s h = h
    parse_opened-IsConsistent (some text) s h =
        Ensures->>= _ _ (parse_lines audio_modes world nested (lines text) s) _
          (parse_lines-IsConsistent (lines text) s h) (λ a k. k)

  -- Whatever the file holds, and whichever files it names, reading it leaves at most six inputs,
  -- and none while no input was added.
  pub config_file_parse-IsConsistent :
      (depth : ℕ) (filename : Bytes) (s : Settings)
      → IsConsistent s
      → Ensures
          (λ (p : Bool × Settings). IsConsistent p.1)
          (config_file_parse audio_modes world depth filename s)
  unfolding config_file_parse
  config_file_parse-IsConsistent zero filename s h = tt
  config_file_parse-IsConsistent (suc depth) filename s h =
      parse_opened-IsConsistent (config_file_parse audio_modes world depth)
        (config_file_parse-IsConsistent depth) (world.file filename) s h

  pub parse_argument-IsConsistent :
      (depth c : ℕ) (value : Bytes) (s : Settings)
      → IsConsistent s
      → Ensures IsConsistent
          (parse_argument audio_modes world (config_file_parse audio_modes world depth) c value s)
  unfolding parse_argument
  parse_argument-IsConsistent depth c value s h =
      parse_case-IsConsistent (config_file_parse audio_modes world depth)
        (config_file_parse-IsConsistent depth) (case_of c) value s h
