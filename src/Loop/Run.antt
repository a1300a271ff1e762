-- ===== src/Loop/Run.antt =====
-- loop_main of src/loop.c, in a program that is a parameter.
use moonlight_embedded_crash.Prelude.{
  ℕ, zero, suc, Option, none, some, List, [], ◌∷◌, ◌==◌, if◌then◌else◌, get_elem?,
}
use moonlight_embedded_crash.Prelude.Int.{ℤ, pos, ltb_ℤ}
use moonlight_embedded_crash.Prelude.Process.{Process, running, exited}
use moonlight_embedded_crash.Loop.{
  Entry, LoopStatus, loop_return, loop_ok, Signals, loop_sig_handler, loop_add_fd,
}

-- The state that the loop runs in: it has the table, and the signal that a read of `sigFd` gives.
-- The handlers other than loop_sig_handler may change all of it and may end the process.
pub record Program (S : Type 0) : Type 0 where
  pub table : S → List Entry
  pub with_table : List Entry → S → S
  pub pending_signal : S → ℕ
  pub run : ℕ → ℤ → S → Process (S × LoopStatus)

-- The number of loop_sig_handler.
abbrev pub sig_handler : ℕ
sig_handler = 0

-- How a part of loop_main ends: a pass over the table is over, the function returns, the process
-- ends, poll does not return any more, or the bound on the steps of a pass is reached.
pub data LoopEnd (S : Type 0) : Type 0 where
  pass_over : S → LoopEnd S
  returned : S → LoopEnd S
  process_exited : ℤ → LoopEnd S
  still_waiting : S → LoopEnd S
  out_of_rounds : LoopEnd S

abbrev pub after_handler : {S : Type 0} → (S → LoopEnd S) → Process (S × LoopStatus) → LoopEnd S
after_handler next (running (s, loop_return)) = returned s
after_handler next (running (s, loop_ok)) = next s
after_handler next (exited n) = process_exited n

-- What poll writes into the table.
abbrev pub polled : List ℤ → List Entry → List Entry
polled [] fds = fds
polled (r ∷ rs) [] = []
polled (r ∷ rs) (e ∷ fds) = record e { revents = r } ∷ polled rs fds

abbrev pub next_poll : {S : Type 0} → (S → LoopEnd S) → LoopEnd S → LoopEnd S
next_poll f (pass_over s) = f s
next_poll f (returned s) = returned s
next_poll f (process_exited n) = process_exited n
next_poll f (still_waiting s) = still_waiting s
next_poll f out_of_rounds = out_of_rounds

module _ {S : Type 0} (program : Program S) (signals : Signals) where
  open program use {table, with_table, pending_signal, run}

  abbrev pub call_handler : ℕ → ℤ → S → Process (S × LoopStatus)
  call_handler h fd s =
      if h == sig_handler
      then running (s, loop_sig_handler signals (pending_signal s))
      else run h fd s

  -- The body of the inner loop; `next` goes on with the next entry.
  unfoldable pub handle_entry : (S → LoopEnd S) → S → Option Entry → LoopEnd S
  handle_entry next s none = pass_over s
  handle_entry next s (some e) =
      if ltb_ℤ (pos 0) e.revents then after_handler next (call_handler e.handler e.fd s) else next s

  -- The inner loop from entry `i` on. A handler may add or remove entries, so that the table is
  -- looked at again in every round.
  unfoldable pub dispatch : ℕ → ℕ → S → LoopEnd S
  dispatch zero i s = out_of_rounds
  dispatch (suc rounds) i s = handle_entry (dispatch rounds (suc i)) s (get_elem? (table s) i)

  -- The outer loop. `polls` has what the calls of poll write; without a time limit, poll does not
  -- return 0.
  unfoldable pub await : ℕ → List (List ℤ) → S → LoopEnd S
  await rounds [] s = still_waiting s
  await rounds (p ∷ polls) s =
      next_poll (await rounds polls) (dispatch rounds 0 (with_table (polled p (table s)) s))

  -- loop_main, where signalfd gives the descriptor `sig_fd`.
  unfoldable pub loop_main : ℕ → ℤ → ℤ → ℕ → List (List ℤ) → S → LoopEnd S
  loop_main rounds stale sig_fd events polls s =
      await rounds polls (with_table (loop_add_fd stale sig_fd sig_handler events (table s)) s)
