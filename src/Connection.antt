-- ===== src/Connection.antt =====
-- src/connection.c and src/global.c: how the end of the connection ends the program.
use moonlight_embedded_crash.Prelude.{
  ℕ, ◌+◌, ◌≡◌, inl, inr, true, some, List, ◌∷◌, ◌++◌, length, get_elem?,
}
use moonlight_embedded_crash.Prelude.Int.{ℤ, pos, ltb_ℤ}
use moonlight_embedded_crash.Loop.{Signals}
use moonlight_embedded_crash.Loop.Run.{Program, returned, loop_main}
use moonlight_embedded_crash.Loop.Steady.{IsSteady}
use moonlight_embedded_crash.Loop.Returns.{loop_main_returns}

-- connection_connection_terminated and quit: the signal that the main thread gets.
unfoldable pub connection_terminated : Signals → ℕ
connection_terminated signals = signals.sigterm

-- Once the connection is terminated, the loop returns at the poll that finds the signal, where
-- handlers neither end the process nor change the table.
pub connection_terminated-returns :
    {S : Type 0} (program : Program S) (signals : Signals)
    → IsSteady program
    → (stale sig_fd : ℤ) (events : ℕ) (polls : List (List ℤ)) (p : List ℤ) (later : List (List ℤ))
    → (r : ℤ) (s : S) → program.pending_signal s ≡ connection_terminated signals
    → get_elem? p (length (program.table s)) ≡ some r
    → ltb_ℤ (pos 0) r ≡ true
    → (s' : S) × (loop_main program signals
          (length (program.table s) + 2)
          stale
          sig_fd
          events
          (polls ++ p ∷ later)
          s
        ≡ returned s')
unfolding connection_terminated
connection_terminated-returns program signals steady stale sig_fd events polls p later r s
      terminated =
    loop_main_returns program signals steady stale sig_fd events polls p later r s
      (inr (inl terminated))
