-- ===== src/Loop.antt =====
-- src/loop.c: the table of descriptors that loop_main waits for. The two arrays `fds` and
-- `fdHandlers` are one list of entries; a handler is a number.
pub mod Run
pub mod Steady
pub mod Returns
use mathlib.Core.List.{Perm}
use moonlight_embedded_crash.Prelude.{
  ℕ, ◌≡◌, refl, ◌≢◌, inl, inr, false, ◌||◌, List, [], ◌∷◌, ◌++◌, ◌==◌, if◌then◌else◌, Bool-cases,
}
use moonlight_embedded_crash.Prelude.Int.{ℤ, pos, eq_ℤ, eq_ℤ→eq}
use moonlight_embedded_crash.Prelude.Slots.{swap_remove, swap_remove-perm}

-- struct pollfd with its handler; `events` is a mask, and `revents` a short.
pub record Entry : Type 0 where
  pub fd : ℤ
  pub events : ℕ
  pub revents : ℤ
  pub handler : ℕ

-- LOOP_RETURN and LOOP_OK.
pub data LoopStatus : Type 0 where
  loop_return loop_ok : LoopStatus

-- SIGINT, SIGTERM, SIGQUIT and SIGHUP.
pub record Signals : Type 0 where
  pub sigint : ℕ
  pub sigterm : ℕ
  pub sigquit : ℕ
  pub sighup : ℕ

-- loop_sig_handler, of the signal that was read.
unfoldable pub loop_sig_handler : Signals → ℕ → LoopStatus
loop_sig_handler signals signo =
    if signo == signals.sigint
      || signo == signals.sigterm
      || signo == signals.sigquit
      || signo == signals.sighup
    then loop_return
    else loop_ok

-- `stale` is what the new memory holds in the place of `revents`.
unfoldable pub loop_add_fd : ℤ → ℤ → ℕ → ℕ → List Entry → List Entry
loop_add_fd stale fd handler events fds =
    fds ++ record { fd = fd; events = events; revents = stale; handler = handler } ∷ []

-- The search of loop_remove_fd, on the table without its last entry: whatever the first entry has,
-- it gets the descriptor, and the loop ends there. `stale` is what the uninitialised `fdindex` holds.
unfoldable pub find_fd : ℕ → ℤ → List Entry → ℕ × List Entry
find_fd stale fd [] = (stale, [])
find_fd stale fd (e ∷ []) = (stale, e ∷ [])
find_fd stale fd (e ∷ f ∷ fds) =
    ((if eq_ℤ fd (pos 0) then stale else 0), record e { fd = fd } ∷ f ∷ fds)

-- The last entry takes the place of entry `fdindex`. The source copies whole entries only if one
-- is left, and `fdindex` is not that of the last.
abbrev pub drop_entry : ℕ × List Entry → List Entry
drop_entry (fdindex, []) = []
drop_entry (fdindex, e ∷ fds) = swap_remove e fdindex (e ∷ fds)

unfoldable pub loop_remove_fd : ℕ → ℤ → List Entry → List Entry
loop_remove_fd stale fd fds = drop_entry (find_fd stale fd fds)

-- Whichever descriptor other than 0 is to be removed from a table of at least two entries, it is
-- the first entry that goes: all others stay in the table, in some order.
pub loop_remove_fd-first :
    (stale : ℕ) (fd : ℤ) (e f : Entry) (fds : List Entry)
    → fd ≢ pos 0
    → Perm
        (record e { fd = fd } ∷ loop_remove_fd stale fd (e ∷ f ∷ fds))
        (record e { fd = fd } ∷ f ∷ fds)
unfolding loop_remove_fd find_fd
loop_remove_fd-first stale fd e f fds h =
    let n : eq_ℤ fd (pos 0) ≡ false = elim (Bool-cases (eq_ℤ fd (pos 0))) [
      | inl t ↦ absurd (h (eq_ℤ→eq fd (pos 0) t))
      | inr f ↦ f
    ] in
    rw n (swap_remove-perm (record e { fd = fd }) (record e { fd = fd } ∷ f ∷ fds) 0 refl)
