-- ===== src/Libc/Scan.antt =====
-- Reading text: getline, and the two sscanf formats of the program, "%ms = %ms" and
-- "%ms = %m[^\n]". A text holds no zero byte.
use moonlight_embedded_crash.Prelude.{
  ℕ, Bool, not, List, [], ◌∷◌, Option, none, some, ◌==◌, if◌then◌else◌,
}
use moonlight_embedded_crash.Prelude.Text.{Bytes, is_space}
use moonlight_embedded_crash.Libc.Decimal.{skip_spaces}

abbrev newline : ℕ
newline = b'\n'

abbrev cons_head : ℕ → List Bytes → List Bytes
cons_head c [] = (c ∷ []) ∷ []
cons_head c (l ∷ ls) = (c ∷ l) ∷ ls

-- The lines that repeated calls of getline return, each with its newline.
unfoldable pub lines : Bytes → List Bytes
lines [] = []
lines (c ∷ s) = let rest = lines s in if c == newline then (c ∷ []) ∷ rest else cons_head c rest

-- The longest beginning whose bytes satisfy `p`, and what follows it.
unfoldable pub span : (ℕ → Bool) → Bytes → Bytes × Bytes
span p [] = ([], [])
span p (c ∷ s) = let (w, r) = span p s in if p c then (c ∷ w, r) else ([], c ∷ s)

abbrev pub is_word_byte : ℕ → Bool
is_word_byte c = not (is_space c)

abbrev pub not_newline : ℕ → Bool
not_newline c = not (c == newline)

-- A conversion fails where it would store an empty text.
abbrev pub stored : Bytes × Bytes → Option (Bytes × Bytes)
stored ([], r) = none
stored (c ∷ w, r) = some (c ∷ w, r)

-- `%ms`
unfoldable pub scan_word : Bytes → Option (Bytes × Bytes)
scan_word s = stored (span is_word_byte (skip_spaces s))

-- `%m[^\n]`
unfoldable pub scan_rest_of_line : Bytes → Option (Bytes × Bytes)
scan_rest_of_line s = stored (span not_newline s)

-- A literal `=` in the format.
abbrev pub expect_equals : Bytes → Option Bytes
expect_equals [] = none
expect_equals (c ∷ s) = if c == b'=' then some s else none

infixl 5 ◌>>=◌
abbrev ◌>>=◌ : {A B : Type 0} → Option A → (A → Option B) → Option B
none >>= f = none
some a >>= f = f a

-- sscanf(line, "%ms = %ms", &key, &value) == 2
unfoldable pub scan_pair : Bytes → Option (Bytes × Bytes)
scan_pair line = do
  (key, after_key) ← scan_word line
  after_equals ← expect_equals (skip_spaces after_key)
  (value, rest) ← scan_word (skip_spaces after_equals)
  some (key, value)

-- sscanf(line, "%ms = %m[^\n]", &key, &value) == 2
unfoldable pub scan_setting : Bytes → Option (Bytes × Bytes)
scan_setting line = do
  (key, after_key) ← scan_word line
  after_equals ← expect_equals (skip_spaces after_key)
  (value, rest) ← scan_rest_of_line (skip_spaces after_equals)
  some (key, value)
