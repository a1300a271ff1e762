-- ===== src/Imx/Balance.antt =====
-- src/video/imx.c: the buffers that calls give to the device and take back.
use moonlight_embedded_crash.Prelude.{
  ℕ, ◌+◌, ◌≤◌, ◌≡◌, refl, Bool, true, false, List, [], ◌∷◌, ◌++◌, arith,
}
use moonlight_embedded_crash.Prelude.Process.{Process, running, exited, ◌>>=◌}
use moonlight_embedded_crash.Imx.{threshold, Decoder, Call, Submission, require}

-- The buffer that a call gives to the device, or that it takes back.
abbrev pub gives : Call → ℕ
gives (Call.queue index) = 1
gives other = 0

abbrev pub takes : Call → ℕ
takes Call.dequeue = 1
takes other = 0

abbrev pub total : (Call → ℕ) → List Call → ℕ
total weight [] = 0
total weight (c ∷ calls) = weight c + total weight calls

pub total-append :
    (weight : Call → ℕ) (calls : List Call) (c : Call)
    → total weight (calls ++ c ∷ []) ≡ total weight calls + weight c
total-append weight [] c = omega arith
total-append weight (x ∷ calls) c = omega (arith, total-append weight calls c)

-- Of `n` buffers that the device held and those that it was given, it holds those that were not
-- taken back: as many as queued_count says, which is not more than THRESHOLD, and `k` more that it
-- does not count yet.
pub record IsPaced (n k : ℕ) (s : Submission) : Type 0 where
  pub balanced : n + total gives s.calls ≡ total takes s.calls + s.decoder.queued_count + k
  pub bounded : s.decoder.queued_count ≤ threshold

-- What holds of the state if the program goes on.
abbrev pub Goes {ℓ} : {A : Type ℓ} → (A → Type 0) → Process A → Type 0
Goes P (running a) = P a
Goes P (exited status) = true ≡ true

pub goes {ℓ κ} :
    {A : Type ℓ} {B : Type κ} (P : A → Type 0) (Q : B → Type 0) (x : Process A) (f : A → Process B)
    → Goes P x
    → ((a : A) → P a → Goes Q (f a))
    → Goes Q (x >>= f)
goes P Q (running a) f p next = next a p
goes P Q (exited status) f p next = refl

-- A call that gives and takes nothing, with a change that leaves queued_count.
pub require-IsPaced :
    (n k : ℕ) (ok : Bool) (c : Call) (change : Decoder → Decoder) (s : Submission)
    → gives c ≡ 0
    → takes c ≡ 0
    → (change s.decoder).queued_count ≡ s.decoder.queued_count
    → IsPaced n k s
    → Goes (IsPaced n k) (require ok c change s)
require-IsPaced n k false c change s g t same p = refl
require-IsPaced n k true c change s g t same p = record {
  balanced =
      omega
        (arith, total-append gives s.calls c, total-append takes s.calls c, g, t, same, p.balanced);
  bounded = omega (arith, same, p.bounded);
}
