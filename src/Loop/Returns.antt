-- ===== src/Loop/Returns.antt =====
-- That loop_main returns when a signal arrives.
use moonlight_embedded_crash.Loop.Run.{
  returned, Program, sig_handler, polled, next_poll, await, loop_main,
}
use moonlight_embedded_crash.Prelude.{
  get_elem?-append, get_elem?-lt, ℕ, ◌+◌, ◌<◌, ◌≡◌, refl, sym, ap, ◌∙◌, ◌⊎◌, inl, inr, true, some,
  List, [], ◌∷◌, ◌++◌, arith, length, get_elem?, length-append,
}
use mathlib.Core.Path.{subst}
use moonlight_embedded_crash.Prelude.Int.{ℤ, pos, ltb_ℤ}
use moonlight_embedded_crash.Loop.{Entry, loop_return, Signals, loop_sig_handler, loop_add_fd}
use moonlight_embedded_crash.Loop.Steady.{
  IsSteady, length-polled, HasSignal, polled-HasSignal, polled-IsReady, Returns, dispatch-Settles,
  dispatch-Returns,
}

-- The signal is one of the four that end the loop.
abbrev pub IsEnding : Signals → ℕ → Type 0
IsEnding signals signo =
    (signo ≡ signals.sigint)
    ⊎ ((signo ≡ signals.sigterm) ⊎ ((signo ≡ signals.sigquit) ⊎ (signo ≡ signals.sighup)))

module _ {S : Type 0} (program : Program S) (signals : Signals) (is_steady : IsSteady program) where
  open program use {table, with_table, pending_signal, run}

  -- With a poll among the later ones that finds entry `k` of the signals ready.
  await-Returns :
      (rounds k : ℕ) (polls : List (List ℤ)) (p : List ℤ) (later : List (List ℤ)) (r : ℤ) (s : S)
      → length (table s) < rounds
      → HasSignal k (table s)
      → loop_sig_handler signals (pending_signal s) ≡ loop_return
      → get_elem? p k ≡ some r
      → ltb_ℤ (pos 0) r ≡ true
      → Returns program signals is_steady (await program signals rounds (polls ++ p ∷ later) s)
  unfolding await
  await-Returns rounds k [] p later r s enough has ends at ready =
      let fds : List Entry = polled p (table s) in
      let s1 : S = with_table fds s in
      let len : length fds ≡ length (table s) = length-polled p (table s) in
      let (e, there, is_sig, is_ready) = polled-IsReady p (table s) k r has at ready in
      let (s', ended) =
        dispatch-Returns program signals is_steady rounds 0 k s1
          (omega (arith, enough, get_elem?-lt fds k there, len)) (omega arith)
          (e, ap (λ l. get_elem? l k) (is_steady.table-with_table fds s) ∙ there, is_sig, is_ready)
          (ap (loop_sig_handler signals) (is_steady.signal-with_table fds s) ∙ ends) in
      (s', ap (next_poll (await program signals rounds later)) ended)
  await-Returns rounds k (q ∷ polls) p later r s enough has ends at ready =
      let fds : List Entry = polled q (table s) in
      let s1 : S = with_table fds s in
      let held : table s1 ≡ fds = is_steady.table-with_table fds s in
      let len : length (table s1) ≡ length (table s) = ap length held ∙ length-polled q (table s) in
      elim (dispatch-Settles program signals is_steady rounds 0 s1 (omega (arith, enough, len))
        (omega arith)) [
          | inr (s', ended) ↦
              (s', ap (next_poll (await program signals rounds (polls ++ p ∷ later))) ended)
          | inl (s', over, same, signal) ↦
              let (s2, ended) =
                await-Returns rounds k polls p later r s'
                  (omega (arith, enough, ap length same, len))
                  (subst (HasSignal k) (sym (same ∙ held)) (polled-HasSignal q (table s) k has))
                  (ap (loop_sig_handler signals) (signal ∙ is_steady.signal-with_table fds s)
                    ∙ ends)
                  at ready in
              (s2, ap (next_poll (await program signals rounds (polls ++ p ∷ later))) over ∙ ended)
        ]

  ending_returns :
      (signo : ℕ) → IsEnding signals signo → loop_sig_handler signals signo ≡ loop_return
  unfolding loop_sig_handler
  ending_returns signo (inl e) = ground arith
  ending_returns signo (inr (inl e)) = ground arith
  ending_returns signo (inr (inr (inl e))) = ground arith
  ending_returns signo (inr (inr (inr e))) = ground arith

  -- Where handlers neither end the process nor change the table, and one of SIGINT, SIGTERM,
  -- SIGQUIT and SIGHUP is pending: if some poll finds the descriptor of the signals ready, then
  -- loop_main returns, whatever the polls before it find and the handlers answer. As many rounds
  -- for a pass as the table has entries and two more are enough.
  pub loop_main_returns :
      (stale sig_fd : ℤ) (events : ℕ) (polls : List (List ℤ)) (p : List ℤ) (later : List (List ℤ))
      (r : ℤ) (s : S)
      → IsEnding signals (pending_signal s)
      → get_elem? p (length (table s)) ≡ some r
      → ltb_ℤ (pos 0) r ≡ true
      → (s' : S) × (loop_main program signals
            (length (table s) + 2)
            stale
            sig_fd
            events
            (polls ++ p ∷ later)
            s
          ≡ returned s')
  unfolding loop_main loop_add_fd
  loop_main_returns stale sig_fd events polls p later r s ending at ready =
      let ends = ending_returns (pending_signal s) ending in
      let entry : Entry = record {
        fd = sig_fd;
        events = events;
        revents = stale;
        handler = sig_handler;
      } in
      let fds : List Entry = loop_add_fd stale sig_fd sig_handler events (table s) in
      let s1 : S = with_table fds s in
      let held : table s1 ≡ fds = is_steady.table-with_table fds s in
      await-Returns (length (table s) + 2) (length (table s)) polls p later r s1
        (omega (arith, ap length held, length-append (table s) (entry ∷ [])))
        (subst (HasSignal (length (table s))) (sym held)
          (entry, get_elem?-append (table s) entry, refl))
        (ap (loop_sig_handler signals) (is_steady.signal-with_table fds s) ∙ ends) at ready
