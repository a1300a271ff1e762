-- ===== src/Prelude/Process.antt =====
-- A step of the program that may end the process: `exit(status)` against a normal return.
use moonlight_embedded_crash.Prelude.Int.{ℤ, pos, negsuc}

pub data Process {ℓ} (A : Type ℓ) : Type ℓ where
  running : A → Process A
  exited : ℤ → Process A

infixl 5 ◌>>=◌
abbrev pub ◌>>=◌ {ℓ κ} : {A : Type ℓ} {B : Type κ} → Process A → (A → Process B) → Process B
running a >>= f = f a
exited n >>= f = exited n

-- EXIT_FAILURE
abbrev pub exit_failure : ℤ
exit_failure = pos 1

abbrev pub minus_one : ℤ
minus_one = negsuc 0
