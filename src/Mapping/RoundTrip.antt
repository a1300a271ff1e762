-- ===== src/Mapping/RoundTrip.antt =====
-- A saved mapping is loaded back, whatever the mapping held before.
use mathlib.Core.List.{append-nil}
use moonlight_embedded_crash.Libc.Scan.{is_word_byte, lines}
use moonlight_embedded_crash.Prelude.{
  sym, ◌&&◌, ◌≡◌, refl, ◌∙◌, ap, Bool, true, false, List, [], ◌∷◌, ◌++◌, some, arith,
}
use moonlight_embedded_crash.Prelude.Int.{ℤ, to_short, IsShort, to_short_of_IsShort}
use moonlight_embedded_crash.Prelude.Text.{Bytes, codes, str_eq, is_space}
use moonlight_embedded_crash.Prelude.Process.{running, ◌>>=◌}
use moonlight_embedded_crash.Libc.Decimal.{print_int, strtol}
use moonlight_embedded_crash.Libc.RoundTrip.{
  IsWord, print_int-IsWord, strtol-print_int, scan_pair_line, lines_line, setting_line,
}
use moonlight_embedded_crash.Mapping.{
  Mapping, IsMapping, is_true, field_of, assign, set_key, load_scanned, load_lines, mapping_load,
  write_config, bool_text, write_config_bool, save_text, mapping_save,
}

load_text : Bytes → Mapping → Mapping
load_text text m = load_lines (lines text) m

load_text_line :
    (key value rest : Bytes) (m : Mapping)
    → IsWord key
    → IsWord value
    → load_text (setting_line key value ++ rest) m ≡ load_text rest (set_key key value m)
unfolding load_text load_lines
load_text_line key value rest m k v =
    ap (λ ls. load_lines ls m) (lines_line key value rest k v)
    ∙ ap (λ o. load_lines (lines rest) (load_scanned o m)) (scan_pair_line key value k v)

bool_text-IsWord : (b : Bool) → IsWord (bool_text b)
unfolding is_space
bool_text-IsWord true = record { nonempty = λ e. cc; no_space = (refl, (refl, (refl, (refl, tt)))) }
bool_text-IsWord false = record {
  nonempty = λ e. cc;
  no_space = (refl, (refl, (refl, (refl, (refl, tt)))));
}

is_word : Bytes → Bool
is_word [] = false
is_word (c ∷ []) = is_word_byte c
is_word (c ∷ d ∷ w) = is_word_byte c && is_word (d ∷ w)

is_word_sound : (w : Bytes) → is_word w ≡ true → IsWord w
unfolding is_word
is_word_sound [] h = cc
is_word_sound (c ∷ []) h = record { nonempty = λ e. cc; no_space = (h, tt) }
is_word_sound (c ∷ d ∷ w) h =
    let t : IsWord (d ∷ w) = is_word_sound (d ∷ w) (ground arith) in
    record { nonempty = λ e. cc; no_space = (ground arith, t.no_space) }

-- The lines of a saved file, as keys and values.
entries : Mapping → List (Bytes × Bytes)
entries map =
    (codes "abs_x", print_int map.abs_x)
    ∷ (codes "abs_y", print_int map.abs_y)
    ∷ (codes "abs_z", print_int map.abs_z)
    ∷ (codes "reverse_x", bool_text map.reverse_x)
    ∷ (codes "reverse_y", bool_text map.reverse_y)
    ∷ (codes "abs_rx", print_int map.abs_rx)
    ∷ (codes "abs_ry", print_int map.abs_ry)
    ∷ (codes "abs_rz", print_int map.abs_rz)
    ∷ (codes "reverse_rx", bool_text map.reverse_rx)
    ∷ (codes "reverse_ry", bool_text map.reverse_ry)
    ∷ (codes "abs_deadzone", print_int map.abs_deadzone)
    ∷ (codes "abs_dpad_x", print_int map.abs_dpad_x)
    ∷ (codes "abs_dpad_y", print_int map.abs_dpad_y)
    ∷ (codes "reverse_dpad_x", bool_text map.reverse_dpad_x)
    ∷ (codes "reverse_dpad_y", bool_text map.reverse_dpad_y)
    ∷ (codes "btn_north", print_int map.btn_north)
    ∷ (codes "btn_east", print_int map.btn_east)
    ∷ (codes "btn_south", print_int map.btn_south)
    ∷ (codes "btn_west", print_int map.btn_west)
    ∷ (codes "btn_select", print_int map.btn_select)
    ∷ (codes "btn_start", print_int map.btn_start)
    ∷ (codes "btn_mode", print_int map.btn_mode)
    ∷ (codes "btn_thumbl", print_int map.btn_thumbl)
    ∷ (codes "btn_thumbr", print_int map.btn_thumbr)
    ∷ (codes "btn_tl", print_int map.btn_tl)
    ∷ (codes "btn_tr", print_int map.btn_tr)
    ∷ (codes "btn_tl2", print_int map.btn_tl2)
    ∷ (codes "btn_tr2", print_int map.btn_tr2)
    ∷ (codes "btn_dpad_up", print_int map.btn_dpad_up)
    ∷ (codes "btn_dpad_down", print_int map.btn_dpad_down)
    ∷ (codes "btn_dpad_left", print_int map.btn_dpad_left)
    ∷ (codes "btn_dpad_right", print_int map.btn_dpad_right)
    ∷ []

render : List (Bytes × Bytes) → Bytes
render [] = []
render ((key, value) ∷ []) = setting_line key value
render ((key, value) ∷ e ∷ es) = setting_line key value ++ render (e ∷ es)

set_all : List (Bytes × Bytes) → Mapping → Mapping
set_all [] m = m
set_all ((key, value) ∷ es) m = set_all es (set_key key value m)

abbrev AllWords : List (Bytes × Bytes) → Type 0
AllWords [] = Unit
AllWords ((key, value) ∷ es) = (is_word key ≡ true) × IsWord value × AllWords es

load_text-render :
    (es : List (Bytes × Bytes)) (m : Mapping) → AllWords es → load_text (render es) m ≡ set_all es m
unfolding render set_all
load_text-render [] m h = unfold load_text load_lines lines in refl
load_text-render ((key, value) ∷ []) m (k, v, h) =
    ap (λ t. load_text t m) (sym (append-nil (setting_line key value)))
    ∙ load_text_line key value [] m (is_word_sound key k) v
    ∙ (unfold load_text load_lines lines in refl)
load_text-render ((key, value) ∷ e ∷ es) m (k, v, h) =
    load_text_line key value (render (e ∷ es)) m (is_word_sound key k) v
    ∙ load_text-render (e ∷ es) (set_key key value m) h

save_text-render : (m : Mapping) → save_text m ≡ render (entries m)
unfolding save_text render entries write_config write_config_bool
save_text-render m = refl

entries-AllWords : (m : Mapping) → AllWords (entries m)
unfolding entries is_word is_space
entries-AllWords m = (
  refl,
  print_int-IsWord m.abs_x,
  (
    refl,
    print_int-IsWord m.abs_y,
    (
      refl,
      print_int-IsWord m.abs_z,
      (
        refl,
        bool_text-IsWord m.reverse_x,
        (
          refl,
          bool_text-IsWord m.reverse_y,
          (
            refl,
            print_int-IsWord m.abs_rx,
            (
              refl,
              print_int-IsWord m.abs_ry,
              (
                refl,
                print_int-IsWord m.abs_rz,
                (
                  refl,
                  bool_text-IsWord m.reverse_rx,
                  (
                    refl,
                    bool_text-IsWord m.reverse_ry,
                    (
                      refl,
                      print_int-IsWord m.abs_deadzone,
                      (
                        refl,
                        print_int-IsWord m.abs_dpad_x,
                        (
                          refl,
                          print_int-IsWord m.abs_dpad_y,
                          (
                            refl,
                            bool_text-IsWord m.reverse_dpad_x,
                            (
                              refl,
                              bool_text-IsWord m.reverse_dpad_y,
                              (
                                refl,
                                print_int-IsWord m.btn_north,
                                (
                                  refl,
                                  print_int-IsWord m.btn_east,
                                  (
                                    refl,
                                    print_int-IsWord m.btn_south,
                                    (
                                      refl,
                                      print_int-IsWord m.btn_west,
                                      (
                                        refl,
                                        print_int-IsWord m.btn_select,
                                        (
                                          refl,
                                          print_int-IsWord m.btn_start,
                                          (
                                            refl,
                                            print_int-IsWord m.btn_mode,
                                            (
                                              refl,
                                              print_int-IsWord m.btn_thumbl,
                                              (
                                                refl,
                                                print_int-IsWord m.btn_thumbr,
                                                (
                                                  refl,
                                                  print_int-IsWord m.btn_tl,
                                                  (
                                                    refl,
                                                    print_int-IsWord m.btn_tr,
                                                    (
                                                      refl,
                                                      print_int-IsWord m.btn_tl2,
                                                      (
                                                        refl,
                                                        print_int-IsWord m.btn_tr2,
                                                        (
                                                          refl,
                                                          print_int-IsWord m.btn_dpad_up,
                                                          (
                                                            refl,
                                                            print_int-IsWord m.btn_dpad_down,
                                                            (
                                                            refl,
                                                            print_int-IsWord m.btn_dpad_left,
                                                            (
                                                            refl,
                                                            print_int-IsWord m.btn_dpad_right,
                                                            tt,
                                                            ),
                                                            ),
                                                          ),
                                                        ),
                                                      ),
                                                    ),
                                                  ),
                                                ),
                                              ),
                                            ),
                                          ),
                                        ),
                                      ),
                                    ),
                                  ),
                                ),
                              ),
                            ),
                          ),
                        ),
                      ),
                    ),
                  ),
                ),
              ),
            ),
          ),
        ),
      ),
    ),
  ),
)

short_back : (z : ℤ) → IsShort z → to_short (strtol (print_int z)) ≡ z
short_back z h = ap to_short (strtol-print_int z (omega arith)) ∙ to_short_of_IsShort z h

bool_back : (b : Bool) → is_true (bool_text b) ≡ b
unfolding str_eq
bool_back true = refl
bool_back false = refl

set_all-entries : (m m0 : Mapping) → IsMapping m → set_all (entries m) m0 ≡ m
unfolding set_all entries set_key field_of assign str_eq
set_all-entries m m0 h = λ i. record {
  abs_x = short_back m.abs_x h.abs_x_fits i;
  abs_y = short_back m.abs_y h.abs_y_fits i;
  abs_z = short_back m.abs_z h.abs_z_fits i;
  abs_rx = short_back m.abs_rx h.abs_rx_fits i;
  abs_ry = short_back m.abs_ry h.abs_ry_fits i;
  abs_rz = short_back m.abs_rz h.abs_rz_fits i;
  reverse_x = bool_back m.reverse_x i;
  reverse_y = bool_back m.reverse_y i;
  reverse_rx = bool_back m.reverse_rx i;
  reverse_ry = bool_back m.reverse_ry i;
  abs_deadzone = short_back m.abs_deadzone h.abs_deadzone_fits i;
  abs_dpad_x = short_back m.abs_dpad_x h.abs_dpad_x_fits i;
  abs_dpad_y = short_back m.abs_dpad_y h.abs_dpad_y_fits i;
  reverse_dpad_x = bool_back m.reverse_dpad_x i;
  reverse_dpad_y = bool_back m.reverse_dpad_y i;
  btn_south = short_back m.btn_south h.btn_south_fits i;
  btn_east = short_back m.btn_east h.btn_east_fits i;
  btn_north = short_back m.btn_north h.btn_north_fits i;
  btn_west = short_back m.btn_west h.btn_west_fits i;
  btn_select = short_back m.btn_select h.btn_select_fits i;
  btn_start = short_back m.btn_start h.btn_start_fits i;
  btn_mode = short_back m.btn_mode h.btn_mode_fits i;
  btn_thumbl = short_back m.btn_thumbl h.btn_thumbl_fits i;
  btn_thumbr = short_back m.btn_thumbr h.btn_thumbr_fits i;
  btn_tl = short_back m.btn_tl h.btn_tl_fits i;
  btn_tr = short_back m.btn_tr h.btn_tr_fits i;
  btn_tl2 = short_back m.btn_tl2 h.btn_tl2_fits i;
  btn_tr2 = short_back m.btn_tr2 h.btn_tr2_fits i;
  btn_dpad_up = short_back m.btn_dpad_up h.btn_dpad_up_fits i;
  btn_dpad_down = short_back m.btn_dpad_down h.btn_dpad_down_fits i;
  btn_dpad_left = short_back m.btn_dpad_left h.btn_dpad_left_fits i;
  btn_dpad_right = short_back m.btn_dpad_right h.btn_dpad_right_fits i;
}

-- A mapping whose numbers are shorts, saved and loaded, is the same mapping, whatever the loaded
-- struct held before: `mapping_load` reads all that `mapping_save` writes.
pub mapping_load-mapping_save :
    (m m0 : Mapping)
    → IsMapping m
    → (mapping_save true m >>= λ text. mapping_load (some text) m0) ≡ running m
unfolding mapping_save mapping_load load_text
mapping_load-mapping_save m m0 h = ap running (
    ap (λ text. load_text text m0) (save_text-render m)
    ∙ load_text-render (entries m) m0 (entries-AllWords m)
    ∙ set_all-entries m m0 h)
