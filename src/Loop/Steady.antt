-- ===== src/Loop/Steady.antt =====
-- The passes of loop_main over a table that its handlers leave alone.
use moonlight_embedded_crash.Loop.Run.{
  handle_entry, Program, sig_handler, LoopEnd, pass_over, returned, after_handler, polled,
  call_handler, dispatch,
}
use moonlight_embedded_crash.Prelude.{
  get_elem?-none, get_elem?-lt, if_false, if_true, ℕ, zero, suc, ◌+◌, ◌≤◌, ◌<◌, ◌≡◌, refl, sym, ap,
  ◌∙◌, ◌⊎◌, inl, inr, true, false, none, some, List, [], ◌∷◌, arith, ◌==◌, ==_iff, Bool-cases,
  Option-cases, length, get_elem?,
}
use mathlib.Core.Path.{subst}
use moonlight_embedded_crash.Prelude.Int.{ℤ, pos, ltb_ℤ}
use moonlight_embedded_crash.Prelude.Process.{running}
use moonlight_embedded_crash.Loop.{
  Entry, LoopStatus, loop_return, loop_ok, Signals, loop_sig_handler,
}

-- The handlers neither end the process nor change the table or the pending signal. They may return
-- either status.
pub record IsSteady {S : Type 0} (program : Program S) : Type 0 where
  pub table-with_table : (fds : List Entry) (s : S) → program.table (program.with_table fds s) ≡ fds
  pub signal-with_table :
      (fds : List Entry) (s : S)
      → program.pending_signal (program.with_table fds s) ≡ program.pending_signal s
  pub steady :
      (h : ℕ) (fd : ℤ) (s : S)
      → (s' : S) × (status : LoopStatus) × (program.run h fd s ≡ running (s', status))
        × (program.table s' ≡ program.table s)
        × (program.pending_signal s' ≡ program.pending_signal s)

pub length-polled : (p : List ℤ) (fds : List Entry) → length (polled p fds) ≡ length fds
length-polled [] fds = refl
length-polled (r ∷ p) [] = refl
length-polled (r ∷ p) (e ∷ fds) = ap suc (length-polled p fds)

-- Entry `k` is that of the signals.
abbrev pub HasSignal : ℕ → List Entry → Type 0
HasSignal k fds = (e : Entry) × (get_elem? fds k ≡ some e) × (e.handler ≡ sig_handler)

pub polled-HasSignal :
    (p : List ℤ) (fds : List Entry) (k : ℕ) → HasSignal k fds → HasSignal k (polled p fds)
polled-HasSignal [] fds k h = h
polled-HasSignal (r ∷ p) [] k h = h
polled-HasSignal (r ∷ p) (e ∷ fds) zero (x, at, is_sig) =
    let same : e ≡ x = cc in
    (record e { revents = r }, refl, ap (λ (y : Entry). y.handler) same ∙ is_sig)
polled-HasSignal (r ∷ p) (e ∷ fds) (suc k) h = polled-HasSignal p fds k h

-- Entry `k` is that of the signals, and is ready.
abbrev pub IsReady : ℕ → List Entry → Type 0
IsReady k fds =
    (e : Entry) × (get_elem? fds k ≡ some e)
    × (e.handler ≡ sig_handler)
    × (ltb_ℤ (pos 0) e.revents ≡ true)

pub polled-IsReady :
    (p : List ℤ) (fds : List Entry) (k : ℕ) (r : ℤ)
    → HasSignal k fds
    → get_elem? p k ≡ some r
    → ltb_ℤ (pos 0) r ≡ true
    → IsReady k (polled p fds)
polled-IsReady [] fds k r h at ready = cc
polled-IsReady (x ∷ p) [] k r (e, in_table, is_sig) at ready = cc
polled-IsReady (x ∷ p) (y ∷ fds) zero r (e, in_table, is_sig) at ready =
    let same : y ≡ e = cc in
    let value : x ≡ r = cc in
    (
      record y { revents = x },
      refl,
      ap (λ (z : Entry). z.handler) same ∙ is_sig,
      ap (ltb_ℤ (pos 0)) value ∙ ready,
    )
polled-IsReady (x ∷ p) (y ∷ fds) (suc k) r h at ready = polled-IsReady p fds k r h at ready

module _ {S : Type 0} (program : Program S) (signals : Signals) (is_steady : IsSteady program) where
  open program use {table, with_table, pending_signal, run}

  abbrev pub Returns : LoopEnd S → Type 0
  Returns end = (s : S) × (end ≡ returned s)

  -- A call of any handler leaves the table and the signal.
  call_steady :
      (h : ℕ) (fd : ℤ) (s : S)
      → (s' : S) × (status : LoopStatus) × (call_handler program signals h fd s
          ≡ running (s', status))
        × (table s' ≡ table s)
        × (pending_signal s' ≡ pending_signal s)
  call_steady h fd s = elim (Bool-cases (h == sig_handler)) [
    | inl e ↦ (s, loop_sig_handler signals (pending_signal s), if_true _ _ _ e, refl, refl)
    | inr e ↦
        let (s', status, ran, same, signal) = is_steady.steady h fd s in
        (s', status, if_false _ _ _ e ∙ ran, same, signal)
  ]

  abbrev rest : ℕ → ℕ → S → LoopEnd S
  rest rounds i s = dispatch program signals rounds (suc i) s

  dispatch-end :
      (rounds i : ℕ) (s : S)
      → get_elem? (table s) i ≡ none
      → dispatch program signals (suc rounds) i s ≡ pass_over s
  unfolding dispatch handle_entry
  dispatch-end rounds i s e = ap (handle_entry program signals (rest rounds i) s) e

  dispatch-skip :
      (rounds i : ℕ) (s : S) (x : Entry)
      → get_elem? (table s) i ≡ some x
      → ltb_ℤ (pos 0) x.revents ≡ false
      → dispatch program signals (suc rounds) i s ≡ rest rounds i s
  unfolding dispatch handle_entry
  dispatch-skip rounds i s x e f =
      ap (handle_entry program signals (rest rounds i) s) e ∙ if_false _ _ _ f

  dispatch-call :
      (rounds i : ℕ) (s s' : S) (status : LoopStatus) (x : Entry)
      → get_elem? (table s) i ≡ some x
      → ltb_ℤ (pos 0) x.revents ≡ true
      → call_handler program signals x.handler x.fd s ≡ running (s', status)
      → dispatch program signals (suc rounds) i s
        ≡ after_handler (rest rounds i) (running (s', status))
  unfolding dispatch handle_entry
  dispatch-call rounds i s s' status x e t ran =
      ap (handle_entry program signals (rest rounds i) s) e
      ∙ if_true _ _ _ t
      ∙ ap (after_handler (rest rounds i)) ran

  -- The pass ends with the table as it was, or loop_main returns.
  abbrev pub Settles : S → LoopEnd S → Type 0
  Settles s end =
      ((s' : S) × (end ≡ pass_over s')
        × (table s' ≡ table s)
        × (pending_signal s' ≡ pending_signal s))
      ⊎ Returns end

  after_handler-Settles :
      (s s' : S) (status : LoopStatus) (next : S → LoopEnd S)
      → table s' ≡ table s
      → pending_signal s' ≡ pending_signal s
      → Settles s' (next s')
      → Settles s (after_handler next (running (s', status)))
  after_handler-Settles s s' loop_return next same signal h = inr (s', refl)
  after_handler-Settles s s' loop_ok next same signal (inl (t, over, kept, still)) =
      inl (t, over, kept ∙ same, still ∙ signal)
  after_handler-Settles s s' loop_ok next same signal (inr r) = inr r

  pub dispatch-Settles :
      (rounds i : ℕ) (s : S)
      → length (table s) < i + rounds
      → i ≤ length (table s)
      → Settles s (dispatch program signals rounds i s)
  dispatch-Settles zero i s enough within = absurd (omega (arith, enough, within))
  dispatch-Settles (suc rounds) i s enough within = elim (Option-cases (get_elem? (table s) i)) [
    | inl e ↦ inl (s, dispatch-end rounds i s e, refl, refl)
    | inr (x, e) ↦
        let lt = get_elem?-lt (table s) i e in
        elim (Bool-cases (ltb_ℤ (pos 0) x.revents)) [
          | inr f ↦
              subst (Settles s) (sym (dispatch-skip rounds i s x e f))
                (dispatch-Settles rounds (suc i) s (omega (arith, enough)) (omega (arith, lt)))
          | inl t ↦
              let (s', status, ran, same, signal) = call_steady x.handler x.fd s in
              let len : length (table s') ≡ length (table s) = ap length same in
              subst (Settles s) (sym (dispatch-call rounds i s s' status x e t ran)) (
                after_handler-Settles s s' status (rest rounds i) same signal (
                  dispatch-Settles rounds (suc i) s' (omega (arith, enough, len))
                    (omega (arith, lt, len))))
        ]
  ]

  after_handler-Returns :
      (s' : S) (status : LoopStatus) (next : S → LoopEnd S)
      → Returns (next s')
      → Returns (after_handler next (running (s', status)))
  after_handler-Returns s' loop_return next h = (s', refl)
  after_handler-Returns s' loop_ok next h = h

  -- A pass that reaches a ready entry of the signals returns there or before.
  pub dispatch-Returns :
      (rounds i k : ℕ) (s : S)
      → k < i + rounds
      → i ≤ k
      → IsReady k (table s)
      → loop_sig_handler signals (pending_signal s) ≡ loop_return
      → Returns (dispatch program signals rounds i s)
  dispatch-Returns zero i k s enough within ready ends = absurd (omega (arith, enough, within))
  dispatch-Returns (suc rounds) i k s enough within (x, at, is_sig, ready) ends =
      elim (Bool-cases (i == k)) [
        | inl e ↦
            let here : get_elem? (table s) i ≡ some x =
              subst (λ j. get_elem? (table s) j ≡ some x) (sym ((==_iff i k).0 e)) at in
            let ran : call_handler program signals x.handler x.fd s ≡ running (s, loop_return) =
              rw (is_sig, ends) refl in
            (s, dispatch-call rounds i s s loop_return x here ready ran)
        | inr e ↦
            let le : suc i ≤ k = ground arith in
            elim (Option-cases (get_elem? (table s) i)) [
              | inl none_there ↦ absurd (
                  omega
                    (arith, get_elem?-none (table s) i none_there, get_elem?-lt (table s) k at, le))
              | inr (y, there) ↦ elim (Bool-cases (ltb_ℤ (pos 0) y.revents)) [
                | inr f ↦ subst Returns (sym (dispatch-skip rounds i s y there f)) (
                    dispatch-Returns rounds (suc i) k s (omega (arith, enough)) le
                      (x, at, is_sig, ready) ends)
                | inl t ↦
                    let (s', status, ran, same, signal) = call_steady y.handler y.fd s in
                    subst Returns (sym (dispatch-call rounds i s s' status y there t ran)) (
                      after_handler-Returns s' status (rest rounds i) (
                        dispatch-Returns rounds (suc i) k s' (omega (arith, enough)) le
                          (x, ap (λ fds. get_elem? fds k) same ∙ at, is_sig, ready)
                          (ap (loop_sig_handler signals) signal ∙ ends)))
              ]
            ]
      ]
