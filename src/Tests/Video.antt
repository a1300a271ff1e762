-- ===== src/Tests/Video.antt =====
-- The decoder of an i.MX on concrete values.
use moonlight_embedded_crash.Prelude.{ℕ, ◌≡◌, refl, true, false, some, List, [], ◌∷◌, arith}
use moonlight_embedded_crash.Prelude.Int.{pos}
use moonlight_embedded_crash.Prelude.Process.{running}
use moonlight_embedded_crash.Imx.{
  Memory, Decoder, Output, Answers, Submission, submit_decode_unit, write_entries, write_entry,
  memcpy,
}
use moonlight_embedded_crash.Imx.Ring.{ring_put, concat, AllFit, write_entries-ring_put}
use moonlight_embedded_crash.Imx.Balance.{IsPaced, Goes}
use moonlight_embedded_crash.Imx.Paced.{submit_decode_unit-IsPaced}
use moonlight_embedded_crash.Imx.Returns.{submit_decode_unit_returns}

abbrev zeros : Memory
zeros i = 0

abbrev unit_buffers : List (List ℕ)
unit_buffers = (1 ∷ 2 ∷ []) ∷ (3 ∷ 4 ∷ 5 ∷ []) ∷ []

-- Three bytes before the end, the unit's last two bytes go to the start.
wraps : (write_entries unit_buffers (2097149, zeros)).1 1 ≡ 5
unfolding write_entries write_entry memcpy
wraps = refl

write_entries-ring_put_example :
    (write_entries unit_buffers (2097149, zeros)).1 ≡ ring_put 2097149 (concat unit_buffers) zeros
write_entries-ring_put_example =
    write_entries-ring_put unit_buffers 2097149 zeros
      (unfold AllFit in (omega arith, (omega arith, refl))) (omega arith)

-- Buffer 3 is shown while two are.
abbrev shown : Output
shown = record {
  not_complete = false;
  not_sufficient_ps_buffer = false;
  not_sufficient_slice_buffer = false;
  index_frame_display = pos 3;
}

abbrev answers : Answers
answers = record {
  write_offset = some 2097149;
  registers = true;
  starts = true;
  busy = 7;
  output = some shown;
  queries = true;
  queues = true;
  streams = true;
  dequeues = true;
}

abbrev running_decoder : Decoder
running_decoder = record {
  initialized = true;
  decoding = false;
  displaying = true;
  queued_count = 2;
  disp_clr_index = pos 1;
}

submit_decode_unit-IsPaced_example :
    Goes
      (λ r. IsPaced 2 0 r.1)
      (submit_decode_unit answers (pos 5) unit_buffers zeros running_decoder)
submit_decode_unit-IsPaced_example =
    submit_decode_unit-IsPaced answers (pos 5) unit_buffers zeros running_decoder (omega arith)

submit_decode_unit_returns_example :
    (s : Submission) × (submit_decode_unit answers (pos 5) unit_buffers zeros running_decoder
      ≡ running ((write_entries unit_buffers (2097149, zeros)).1, s))
    × IsPaced 2 0 s
submit_decode_unit_returns_example =
    submit_decode_unit_returns answers 2097149 shown (pos 5) unit_buffers zeros running_decoder
      (record {
        buffer = refl;
        registered = refl;
        started = refl;
        patient = omega arith;
        answered = refl;
        decoded = refl;
        queried = refl;
        queued = refl;
        streamed = refl;
        dequeued = refl;
      })
      (omega arith)
