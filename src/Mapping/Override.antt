-- ===== src/Mapping/Override.antt =====
-- What a mapping file may hold: keys in any order and more than once, and any numbers.
use mathlib.Core.Path.{subst}
use moonlight_embedded_crash.Prelude.{◌≡◌, refl, List, [], ◌∷◌, Option, none, some}
use moonlight_embedded_crash.Prelude.Int.{to_short-IsShort}
use moonlight_embedded_crash.Prelude.Text.{Bytes}
use moonlight_embedded_crash.Prelude.Process.{running}
use moonlight_embedded_crash.Libc.Decimal.{strtol}
use moonlight_embedded_crash.Libc.Scan.{lines, scan_pair}
use moonlight_embedded_crash.Mapping.{
  Mapping, Field, abs_x, assign, IsMapping, set_key, load_scanned, load_lines, mapping_load,
}

assign-assign :
    (f : Option Field) (v w : Bytes) (m : Mapping) → assign f w (assign f v m) ≡ assign f w m
unfolding assign
assign-assign none v w m = refl
assign-assign (some abs_x) v w m = refl
assign-assign (some _) v w m = refl

-- A later line for the same key decides: what an earlier line set is overwritten.
pub set_key-set_key :
    (key v w : Bytes) (m : Mapping) → set_key key w (set_key key v m) ≡ set_key key w m
unfolding set_key
set_key-set_key key v w m = assign-assign _ v w m

assign-IsMapping :
    (f : Option Field) (v : Bytes) (m : Mapping) → IsMapping m → IsMapping (assign f v m)
unfolding assign
assign-IsMapping none v m h = h
assign-IsMapping (some abs_x) v m h = assumption (to_short-IsShort (strtol v))
assign-IsMapping (some _) v m h = assumption (to_short-IsShort (strtol v))

load_scanned-IsMapping :
    (o : Option (Bytes × Bytes)) (m : Mapping) → IsMapping m → IsMapping (load_scanned o m)
unfolding set_key
load_scanned-IsMapping none m h = h
load_scanned-IsMapping (some (key, v)) m h = assign-IsMapping _ v m h

load_lines-IsMapping : (ls : List Bytes) (m : Mapping) → IsMapping m → IsMapping (load_lines ls m)
unfolding load_lines
load_lines-IsMapping [] m h = h
load_lines-IsMapping (l ∷ ls) m h =
    load_lines-IsMapping ls (load_scanned (scan_pair l) m)
      (load_scanned-IsMapping (scan_pair l) m h)

-- Whatever the file holds, however large its numbers, the numbers of a loaded mapping fit a short.
pub mapping_load-IsMapping :
    (text : Bytes) (m : Mapping) {m' : Mapping}
    → IsMapping m
    → mapping_load (some text) m ≡ running m'
    → IsMapping m'
unfolding mapping_load
mapping_load-IsMapping text m {m'} h e =
    subst IsMapping (cc) (load_lines-IsMapping (lines text) m h)
