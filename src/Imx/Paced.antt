-- ===== src/Imx/Paced.antt =====
-- src/video/imx.c: that the device never holds more than THRESHOLD buffers.
use moonlight_embedded_crash.Prelude.{
  ℕ, zero, suc, ◌≤◌, refl, sym, inl, inr, Bool, true, false, List, [], ◌∷◌, arith, ltb, Bool-cases,
  Option, none, some, if◌then◌else◌, if_true,
}
use mathlib.Core.Path.{subst}
use moonlight_embedded_crash.Prelude.Int.{ℤ, pos, negsuc, eq_ℤ, leb_ℤ}
use moonlight_embedded_crash.Prelude.Process.{exit_failure, Process, running, exited}
use moonlight_embedded_crash.Imx.{
  threshold, Memory, Decoder, Output, Answers, Call, Submission, initialize, start_decoding,
  wait_busy, queue_buffer, start_display, dequeue_buffer, clear_display, show_buffer, on_output,
  finish_decoding, decode, at_offset, submit_decode_unit,
}
use moonlight_embedded_crash.Imx.Balance.{
  gives, takes, total-append, IsPaced, Goes, goes, require-IsPaced,
}

module _ (n : ℕ) (a : Answers) where
  initialize-IsPaced : (s : Submission) → IsPaced n 0 s → Goes (IsPaced n 0) (initialize a s)
  unfolding initialize
  initialize-IsPaced s p = elim (Bool-cases s.decoder.initialized) [
    | inl already ↦ rw already (record { balanced = p.balanced; bounded = p.bounded })
    | inr not_yet ↦ rw not_yet (
        require-IsPaced n 0 a.registers Call.register_frame_buffer
          (λ d. record d { initialized = true }) s refl refl refl p)
  ]

  start_decoding-IsPaced :
      (s : Submission) → IsPaced n 0 s → Goes (IsPaced n 0) (start_decoding a s)
  unfolding start_decoding
  start_decoding-IsPaced s p = elim (Bool-cases s.decoder.decoding) [
    | inl already ↦ rw already (record { balanced = p.balanced; bounded = p.bounded })
    | inr not_yet ↦ rw not_yet (
        require-IsPaced n 0 a.starts Call.start_one_frame (λ d. record d { decoding = true }) s refl
          refl refl p)
  ]

  wait_busy-IsPaced :
      (k id : ℕ) (s : Submission) → IsPaced n 0 s → Goes (IsPaced n 0) (wait_busy k id s)
  unfolding wait_busy
  wait_busy-IsPaced zero id s p = p
  wait_busy-IsPaced (suc k) id s p = elim (Bool-cases (ltb 50 id)) [
    | inl long ↦ rw long refl
    | inr short ↦ rw short (wait_busy-IsPaced k (suc id) s p)
  ]

  queue_buffer-IsPaced :
      (index : ℤ) (s : Submission) → IsPaced n 0 s → Goes (IsPaced n 1) (queue_buffer a index s)
  unfolding queue_buffer
  queue_buffer-IsPaced index s p = elim (Bool-cases a.queries) [
    | inr fails ↦ rw fails refl
    | inl queried ↦ rw queried (elim (Bool-cases a.queues) [
      | inr fails ↦ rw fails refl
      | inl queued ↦ rw queued (record {
        balanced = omega (
          arith,
          total-append gives s.calls (Call.queue index),
          total-append takes s.calls (Call.queue index),
          p.balanced,
        );
        bounded = p.bounded;
      })
    ])
  ]

  start_display-IsPaced : (s : Submission) → IsPaced n 1 s → Goes (IsPaced n 1) (start_display a s)
  unfolding start_display
  start_display-IsPaced s p = elim (Bool-cases s.decoder.displaying) [
    | inl already ↦ rw already (record { balanced = p.balanced; bounded = p.bounded })
    | inr not_yet ↦ rw not_yet (
        require-IsPaced n 1 a.streams Call.stream_on (λ d. record d { displaying = true }) s refl
          refl refl p)
  ]

  dequeue_buffer-IsPaced :
      (s : Submission) → IsPaced n 1 s → Goes (IsPaced n 0) (dequeue_buffer a s)
  unfolding dequeue_buffer
  dequeue_buffer-IsPaced s p = elim (Bool-cases (ltb threshold (suc s.decoder.queued_count))) [
    | inr few ↦ rw few (record { balanced = omega (arith, p.balanced); bounded = ground arith })
    | inl many ↦ rw many (elim (Bool-cases a.dequeues) [
      | inr fails ↦ rw fails refl
      | inl taken ↦ rw taken (record {
        balanced = omega (
          arith,
          total-append gives s.calls Call.dequeue,
          total-append takes s.calls Call.dequeue,
          p.balanced,
        );
        bounded = omega (arith, p.bounded);
      })
    ])
  ]

  clear_display-IsPaced :
      (index : ℤ) (s : Submission) → IsPaced n 0 s → IsPaced n 0 (clear_display index s)
  unfolding clear_display
  clear_display-IsPaced index s p = elim (Bool-cases (leb_ℤ (pos 0) s.decoder.disp_clr_index)) [
    | inr first ↦ rw first (record { balanced = p.balanced; bounded = p.bounded })
    | inl shown ↦
        let c : Call = Call.clear_display_flag s.decoder.disp_clr_index in
        rw shown (record {
          balanced =
              omega (arith, total-append gives s.calls c, total-append takes s.calls c, p.balanced);
          bounded = p.bounded;
        })
  ]

  show_buffer-IsPaced :
      (index : ℤ) (s : Submission) → IsPaced n 0 s → Goes (IsPaced n 0) (show_buffer a index s)
  unfolding show_buffer
  show_buffer-IsPaced index s p =
      goes (IsPaced n 1) (IsPaced n 0) (queue_buffer a index s) _ (queue_buffer-IsPaced index s p)
        (λ t q.
          goes (IsPaced n 1) (IsPaced n 0) (start_display a t) _ (start_display-IsPaced t q) (λ u r.
            goes (IsPaced n 0) (IsPaced n 0) (dequeue_buffer a u) _ (dequeue_buffer-IsPaced u r)
              (λ v l. clear_display-IsPaced index v l)))

  on_output-IsPaced :
      (o : Option Output) (s : Submission) → IsPaced n 0 s → Goes (IsPaced n 0) (on_output a o s)
  unfolding on_output
  on_output-IsPaced none s p = refl
  on_output-IsPaced (some o) s p =
      let failed : Process Submission = exited exit_failure in
      let shown : Process Submission = show_buffer a o.index_frame_display s in
      let lost : Process Submission =
        if eq_ℤ o.index_frame_display (negsuc 0) then failed else running s in
      let decoded : Process Submission =
        if leb_ℤ (pos 0) o.index_frame_display then shown else lost in
      let slices : Process Submission = if o.not_sufficient_slice_buffer then failed else decoded in
      let sets : Process Submission = if o.not_sufficient_ps_buffer then failed else slices in
      if_Goes o.not_complete (running s) sets p (
        if_Goes o.not_sufficient_ps_buffer failed slices refl (
          if_Goes o.not_sufficient_slice_buffer failed decoded refl (
            if_Goes (leb_ℤ (pos 0) o.index_frame_display) shown lost
              (show_buffer-IsPaced o.index_frame_display s p)
              (if_Goes (eq_ℤ o.index_frame_display (negsuc 0)) failed (running s) refl p))))
    where
      if_Goes :
          (b : Bool) (x y : Process Submission)
          → Goes (IsPaced n 0) x
          → Goes (IsPaced n 0) y
          → Goes (IsPaced n 0) (if b then x else y)
      if_Goes true x y p q = p
      if_Goes false x y p q = q

  finish_decoding-IsPaced :
      (s : Submission) → IsPaced n 0 s → Goes (IsPaced n 0) (finish_decoding a s)
  unfolding finish_decoding
  finish_decoding-IsPaced s p =
      let s1 : Submission = record s { decoder = record (s.decoder) { decoding = false } } in
      elim (Bool-cases s.decoder.decoding) [
        | inr idle ↦ rw idle (record { balanced = p.balanced; bounded = p.bounded })
        | inl runs ↦
            subst (Goes (IsPaced n 0))
              (sym (if_true s.decoder.decoding (on_output a a.output s1) (running s) runs))
              (on_output-IsPaced a.output s1
                (record { balanced = p.balanced; bounded = p.bounded }))
      ]

  decode-IsPaced : (s : Submission) → IsPaced n 0 s → Goes (IsPaced n 0) (decode a s)
  unfolding decode
  decode-IsPaced s p =
      goes (IsPaced n 0) (IsPaced n 0) (initialize a s) _ (initialize-IsPaced s p) (λ t q.
        goes (IsPaced n 0) (IsPaced n 0) (start_decoding a t) _ (start_decoding-IsPaced t q) (λ u r.
          goes (IsPaced n 0) (IsPaced n 0) (wait_busy a.busy 0 u) _ (wait_busy-IsPaced a.busy 0 u r)
            (λ v l. finish_decoding-IsPaced v l)))

-- Whatever the decoder and the device answer, if the device holds at most THRESHOLD buffers, as many
-- as queued_count says, then so it does when decoder_renderer_submit_decode_unit returns: those that
-- it held and was given are those that were taken back and those that queued_count says.
pub submit_decode_unit-IsPaced :
    (a : Answers) (full_length : ℤ) (entries : List (List ℕ)) (memory : Memory) (d : Decoder)
    → d.queued_count ≤ threshold
    → Goes (λ r. IsPaced d.queued_count 0 r.1) (submit_decode_unit a full_length entries memory d)
unfolding submit_decode_unit
submit_decode_unit-IsPaced a full_length entries memory d low = at_offset_paced a.write_offset
  where
    at_offset_paced :
        (o : Option ℕ)
        → Goes (λ r. IsPaced d.queued_count 0 r.1) (at_offset a full_length entries memory d o)
    at_offset_paced none = refl
    at_offset_paced (some offset) =
        goes (IsPaced d.queued_count 0) (λ r. IsPaced d.queued_count 0 r.1)
          (decode a (record { decoder = d; calls = Call.update_bitstream_buffer full_length ∷ [] }))
          _
          (decode-IsPaced d.queued_count a
            (record { decoder = d; calls = Call.update_bitstream_buffer full_length ∷ [] })
            (record { balanced = omega arith; bounded = low }))
          (λ s p. p)
