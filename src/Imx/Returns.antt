-- ===== src/Imx/Returns.antt =====
-- src/video/imx.c: that a unit is decoded where the decoder and the device do what they are asked.
use moonlight_embedded_crash.Prelude.{
  ℕ, zero, suc, ◌+◌, ◌≤◌, ◌≡◌, refl, sym, ap, ◌∙◌, inl, inr, Bool, true, false, some, List, [], ◌∷◌,
  arith, ltb, Bool-cases, if_true, if_false, not, ◌&&◌, ◌||◌, if◌then◌else◌,
}
use mathlib.Core.Path.{subst}
use moonlight_embedded_crash.Prelude.Int.{ℤ, pos, negsuc, eq_ℤ, leb_ℤ}
use moonlight_embedded_crash.Prelude.Process.{exit_failure, Process, running, exited, ◌>>=◌}
use moonlight_embedded_crash.Imx.{
  threshold, Memory, Decoder, Output, Answers, Call, Submission, initialize, start_decoding,
  wait_busy, queue_buffer, start_display, dequeue_buffer, clear_display, show_buffer, on_output,
  finish_decoding, decode, write_entries, at_offset, submit_decode_unit,
}
use moonlight_embedded_crash.Imx.Balance.{IsPaced, Goes}
use moonlight_embedded_crash.Imx.Paced.{submit_decode_unit-IsPaced}

-- The output is no failure: more data are needed, or no buffer was too small and the frame was not
-- lost.
abbrev pub is_decoded : Output → Bool
is_decoded o =
    o.not_complete
    || (not o.not_sufficient_ps_buffer
        && not o.not_sufficient_slice_buffer
        && not (eq_ℤ o.index_frame_display (negsuc 0)))

-- There is a buffer, every call succeeds, and the decoder is busy at most 51 times.
pub record IsGood (a : Answers) (offset : ℕ) (o : Output) : Type 0 where
  pub buffer : a.write_offset ≡ some offset
  pub registered : a.registers ≡ true
  pub started : a.starts ≡ true
  pub patient : a.busy ≤ 51
  pub answered : a.output ≡ some o
  pub decoded : is_decoded o ≡ true
  pub queried : a.queries ≡ true
  pub queued : a.queues ≡ true
  pub streamed : a.streams ≡ true
  pub dequeued : a.dequeues ≡ true

abbrev pub Runs : {A : Type 0} → Process A → Type 0
Runs {A} x = (a : A) × (x ≡ running a)

runs :
    {A B : Type 0} (x : Process A) (f : A → Process B)
    → Runs x
    → ((a : A) → Runs (f a))
    → Runs (x >>= f)
runs {A} {B} x f (a, e) next = subst (λ y. Runs (y >>= f)) (sym e) (next a)

module _ (a : Answers) (offset : ℕ) (o : Output) (good : IsGood a offset o) where
  initialize-Runs : (s : Submission) → Runs (initialize a s)
  unfolding initialize
  initialize-Runs s = elim (Bool-cases s.decoder.initialized) [
    | inl already ↦ (s, if_true s.decoder.initialized (running s) _ already)
    | inr not_yet ↦ (
      _,
      if_false s.decoder.initialized (running s) _ not_yet
          ∙ if_true a.registers _ _ good.registered,
    )
  ]

  start_decoding-Runs : (s : Submission) → Runs (start_decoding a s)
  unfolding start_decoding
  start_decoding-Runs s = elim (Bool-cases s.decoder.decoding) [
    | inl already ↦ (s, if_true s.decoder.decoding (running s) _ already)
    | inr not_yet ↦
        (_, if_false s.decoder.decoding (running s) _ not_yet ∙ if_true a.starts _ _ good.started)
  ]

  start_display-Runs : (s : Submission) → Runs (start_display a s)
  unfolding start_display
  start_display-Runs s = elim (Bool-cases s.decoder.displaying) [
    | inl already ↦ (s, if_true s.decoder.displaying (running s) _ already)
    | inr not_yet ↦ (
      _,
      if_false s.decoder.displaying (running s) _ not_yet ∙ if_true a.streams _ _ good.streamed,
    )
  ]

  wait_busy-Runs : (k id : ℕ) (s : Submission) → k + id ≤ 51 → Runs (wait_busy k id s)
  unfolding wait_busy
  wait_busy-Runs zero id s h = (s, refl)
  wait_busy-Runs (suc k) id s h =
      let (t, e) = wait_busy-Runs k (suc id) s (omega (arith, h)) in
      (t, if_false (ltb 50 id) _ _ (ground arith) ∙ e)

  queue_buffer-Runs : (index : ℤ) (s : Submission) → Runs (queue_buffer a index s)
  unfolding queue_buffer
  queue_buffer-Runs index s =
      (_, if_true a.queries _ _ good.queried ∙ if_true a.queues _ _ good.queued)

  dequeue_buffer-Runs : (s : Submission) → Runs (dequeue_buffer a s)
  unfolding dequeue_buffer
  dequeue_buffer-Runs s = elim (Bool-cases (ltb threshold (suc s.decoder.queued_count))) [
    | inl many ↦ (
      _,
      if_true (ltb threshold (suc s.decoder.queued_count)) _ _ many
          ∙ if_true a.dequeues _ _ good.dequeued,
    )
    | inr few ↦ (_, if_false (ltb threshold (suc s.decoder.queued_count)) _ _ few)
  ]

  show_buffer-Runs : (index : ℤ) (s : Submission) → Runs (show_buffer a index s)
  unfolding show_buffer
  show_buffer-Runs index s = runs (queue_buffer a index s) _ (queue_buffer-Runs index s) (λ t.
      runs (start_display a t) _ (start_display-Runs t) (λ u.
        runs (dequeue_buffer a u) _ (dequeue_buffer-Runs u) (λ v. (clear_display index v, refl))))

  on_output-Runs : (s : Submission) → Runs (on_output a (some o) s)
  unfolding on_output
  on_output-Runs s =
      decided o.not_complete o.not_sufficient_ps_buffer o.not_sufficient_slice_buffer
        (leb_ℤ (pos 0) o.index_frame_display) (eq_ℤ o.index_frame_display (negsuc 0))
        (show_buffer a o.index_frame_display s) good.decoded
        (show_buffer-Runs o.index_frame_display s)
    where
      decided :
          (more ps slice shows lost : Bool) (x : Process Submission)
          → (more || (not ps && not slice && not lost)) ≡ true
          → Runs x
          → Runs (
              if more
              then running s
              else if ps
              then exited exit_failure
              else if slice
              then exited exit_failure
              else if shows
              then x
              else if lost
              then exited exit_failure
              else running s)
      decided true ps slice shows lost x h r = (s, refl)
      decided false true slice shows lost x h r = cc
      decided false false true shows lost x h r = cc
      decided false false false true lost x h r = r
      decided false false false false true x h r = cc
      decided false false false false false x h r = (s, refl)

  finish_decoding-Runs : (s : Submission) → Runs (finish_decoding a s)
  unfolding finish_decoding
  finish_decoding-Runs s =
      let s1 : Submission = record s { decoder = record (s.decoder) { decoding = false } } in
      elim (Bool-cases s.decoder.decoding) [
        | inr idle ↦ (s, if_false s.decoder.decoding (on_output a a.output s1) (running s) idle)
        | inl busy ↦
            let (t, e) = on_output-Runs s1 in
            (
              t,
              if_true s.decoder.decoding (on_output a a.output s1) (running s) busy
                  ∙ ap (λ x. on_output a x s1) good.answered
                  ∙ e,
            )
      ]

  decode-Runs : (s : Submission) → Runs (decode a s)
  unfolding decode
  decode-Runs s = runs (initialize a s) _ (initialize-Runs s) (λ t.
      runs (start_decoding a t) _ (start_decoding-Runs t) (λ u.
        runs (wait_busy a.busy 0 u) _ (wait_busy-Runs a.busy 0 u (omega (arith, good.patient)))
          (λ v. finish_decoding-Runs v)))

-- Where the decoder has a buffer and is busy at most 51 times, its output is no failure, and every
-- call succeeds, decoder_renderer_submit_decode_unit returns, with the unit's buffers written at the
-- decoder's offset; and if the device holds at most THRESHOLD buffers, as many as queued_count says,
-- then so it does afterwards.
pub submit_decode_unit_returns :
    (a : Answers) (offset : ℕ) (o : Output) (full_length : ℤ) (entries : List (List ℕ))
    (memory : Memory) (d : Decoder)
    → IsGood a offset o
    → d.queued_count ≤ threshold
    → (s : Submission) × (submit_decode_unit a full_length entries memory d
        ≡ running ((write_entries entries (offset, memory)).1, s))
      × IsPaced d.queued_count 0 s
unfolding submit_decode_unit
submit_decode_unit_returns a offset o full_length entries memory d good low =
    let s0 : Submission = record {
      decoder = d;
      calls = Call.update_bitstream_buffer full_length ∷ [];
    } in
    let (s, e) = decode-Runs a offset o good s0 in
    let written : Memory × Submission = ((write_entries entries (offset, memory)).1, s) in
    let returns : submit_decode_unit a full_length entries memory d ≡ running written =
      ap (at_offset a full_length entries memory d) good.buffer
      ∙ ap (λ x. x >>= (λ t. running ((write_entries entries (offset, memory)).1, t))) e in
    (
      s,
      returns,
      subst (Goes (λ r. IsPaced d.queued_count 0 r.1)) returns
          (submit_decode_unit-IsPaced a full_length entries memory d low),
    )
