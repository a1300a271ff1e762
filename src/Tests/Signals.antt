-- ===== src/Tests/Signals.antt =====
-- The event loop on a concrete program.
use moonlight_embedded_crash.Prelude.{inl, inr, ℕ, ◌+◌, ◌≡◌, refl, List, [], ◌∷◌}
use moonlight_embedded_crash.Prelude.Int.{pos}
use moonlight_embedded_crash.Prelude.Process.{running}
use moonlight_embedded_crash.Loop.{Entry, loop_ok, Signals}
use moonlight_embedded_crash.Loop.Run.{Program, returned, loop_main}
use moonlight_embedded_crash.Loop.Steady.{IsSteady}
use moonlight_embedded_crash.Loop.Returns.{loop_main_returns}

-- The state is the table and the number of calls. The signal that comes is SIGTERM, and every
-- handler answers LOOP_OK.
abbrev counting : Program (List Entry × ℕ)
counting = record {
  table = λ (fds, n). fds;
  with_table = λ fds (_, n). (fds, n);
  pending_signal = λ s. 15;
  run = λ h fd (fds, n). running ((fds, n + 1), loop_ok);
}

counting-IsSteady : IsSteady counting
counting-IsSteady = record {
  table-with_table = λ fds s. refl;
  signal-with_table = λ fds s. refl;
  steady = λ h fd (fds, n). ((fds, n + 1), loop_ok, refl, refl, refl);
}

abbrev signals : Signals
signals = record { sigint = 2; sigterm = 15; sigquit = 3; sighup = 1 }

abbrev keyboard_entry : Entry
keyboard_entry = record { fd = pos 5; events = 1; revents = pos 0; handler = 1 }

-- A poll that finds the keyboard ready, then one that finds both.
loop_main_returns_example :
    (s : List Entry × ℕ) × (loop_main counting signals
        (1 + 2)
        (pos 0)
        (pos 6)
        1
        ((pos 1 ∷ pos 0 ∷ []) ∷ (pos 1 ∷ pos 1 ∷ []) ∷ [])
        (keyboard_entry ∷ [], 0)
      ≡ returned s)
loop_main_returns_example =
    loop_main_returns counting signals counting-IsSteady (pos 0) (pos 6) 1
      ((pos 1 ∷ pos 0 ∷ []) ∷ []) (pos 1 ∷ pos 1 ∷ []) [] (pos 1) (keyboard_entry ∷ [], 0)
      (inr (inl refl)) refl refl
