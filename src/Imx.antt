-- ===== src/Imx.antt =====
-- src/video/imx.c: the frames of the stream in the decoder of an i.MX, through its library (vpu_lib)
-- and the video device.
pub mod Ring
pub mod Balance
pub mod Paced
pub mod Returns
use moonlight_embedded_crash.Prelude.{
  ℕ, zero, suc, ◌+◌, ◌-◌, Bool, true, false, not, Option, none, some, List, [], ◌∷◌, ◌++◌, ◌==◌,
  ltb, if◌then◌else◌, length, take, drop,
}
use moonlight_embedded_crash.Prelude.Int.{ℤ, pos, negsuc, eq_ℤ, leb_ℤ}
use moonlight_embedded_crash.Prelude.Process.{Process, running, exited, ◌>>=◌, exit_failure}

-- STREAM_BUF_SIZE
abbrev pub stream_buf_size : ℕ
stream_buf_size = 2097152

-- THRESHOLD
abbrev pub threshold : ℕ
threshold = 2

-- The bytes from mem_desc.virt_uaddr on.
abbrev pub Memory : Type 0
Memory = ℕ → ℕ

abbrev pub put : ℕ → ℕ → Memory → Memory
put at byte memory i = if i == at then byte else memory i

-- memcpy to an offset
unfoldable pub memcpy : ℕ → List ℕ → Memory → Memory
memcpy at [] memory = memory
memcpy at (x ∷ xs) memory = memcpy (suc at) xs (put at x memory)

-- An entry's data at target_addr, with the target_addr behind it. Addresses are offsets from
-- mem_desc.virt_uaddr, whose sums are taken to stay below 2 ^ 32.
unfoldable pub write_entry : List ℕ → ℕ × Memory → ℕ × Memory
unfolding memcpy
write_entry bytes (target, memory) =
    if ltb stream_buf_size (target + length bytes)
    then (let room = stream_buf_size - target in
        (length bytes - room, memcpy 0 (drop room bytes) (memcpy target (take room bytes) memory)))
    else (target + length bytes, memcpy target bytes memory)

-- The loop over the list of buffers.
unfoldable pub write_entries : List (List ℕ) → ℕ × Memory → ℕ × Memory
write_entries [] s = s
write_entries (bytes ∷ entries) s = write_entries entries (write_entry bytes s)

-- The statics.
pub record Decoder : Type 0 where
  pub initialized : Bool
  pub decoding : Bool
  pub displaying : Bool
  pub queued_count : ℕ
  pub disp_clr_index : ℤ

-- The bits and fields of DecOutputInfo that are tested; the first is decodingSuccess & 0x10.
pub record Output : Type 0 where
  pub not_complete : Bool
  pub not_sufficient_ps_buffer : Bool
  pub not_sufficient_slice_buffer : Bool
  pub index_frame_display : ℤ

-- What the decoder and the device answer in one call: the offset that is to be written next, if
-- there is a buffer; whether registering and starting succeed; how often vpu_IsBusy says that it is
-- before it says that it is not; the output; whether each ioctl succeeds.
pub record Answers : Type 0 where
  pub write_offset : Option ℕ
  pub registers : Bool
  pub starts : Bool
  pub busy : ℕ
  pub output : Option Output
  pub queries : Bool
  pub queues : Bool
  pub streams : Bool
  pub dequeues : Bool

-- The calls that matter to the device and the decoder, in their order.
pub data Call : Type 0 where
  update_bitstream_buffer : ℤ → Call
  register_frame_buffer : Call
  start_one_frame : Call
  queue : ℤ → Call
  stream_on : Call
  dequeue : Call
  clear_display_flag : ℤ → Call

-- The state while one unit is submitted, with the calls so far.
pub record Submission : Type 0 where
  pub decoder : Decoder
  pub calls : List Call

-- A call that has to succeed, then a change of the statics.
abbrev pub require : Bool → Call → (Decoder → Decoder) → Submission → Process Submission
require ok c change s =
    if ok
    then running (record { decoder = change s.decoder; calls = s.calls ++ c ∷ [] })
    else exited exit_failure

unfoldable pub initialize : Answers → Submission → Process Submission
initialize a s =
    if s.decoder.initialized
    then running s
    else require a.registers register_frame_buffer (λ d. record d { initialized = true }) s

unfoldable pub start_decoding : Answers → Submission → Process Submission
start_decoding a s =
    if s.decoder.decoding
    then running s
    else require a.starts start_one_frame (λ d. record d { decoding = true }) s

-- The loop while the decoder is busy, on loop_id.
unfoldable pub wait_busy : ℕ → ℕ → Submission → Process Submission
wait_busy zero loop_id s = running s
wait_busy (suc n) loop_id s =
    let rest = wait_busy n (suc loop_id) s in if ltb 50 loop_id then exited exit_failure else rest

-- VIDIOC_QUERYBUF and VIDIOC_QBUF
unfoldable pub queue_buffer : Answers → ℤ → Submission → Process Submission
queue_buffer a index s =
    if a.queries then require a.queues (queue index) (λ d. d) s else exited exit_failure

unfoldable pub start_display : Answers → Submission → Process Submission
start_display a s =
    if s.decoder.displaying
    then running s
    else require a.streams stream_on (λ d. record d { displaying = true }) s

-- queued_count++, and VIDIOC_DQBUF where too many buffers are queued.
unfoldable pub dequeue_buffer : Answers → Submission → Process Submission
dequeue_buffer a s =
    let d : Decoder = record (s.decoder) { queued_count = suc s.decoder.queued_count } in
    let t : Submission = record s { decoder = d } in
    if ltb threshold d.queued_count
    then require a.dequeues dequeue (λ e. record e { queued_count = e.queued_count - 1 }) t
    else running t

-- The buffer that was shown before is given back to the decoder.
unfoldable pub clear_display : ℤ → Submission → Submission
clear_display index s =
    let t : Submission =
      if leb_ℤ (pos 0) s.decoder.disp_clr_index
      then record s { calls = s.calls ++ clear_display_flag s.decoder.disp_clr_index ∷ [] }
      else s in
    record t { decoder = record (s.decoder) { disp_clr_index = index } }

unfoldable pub show_buffer : Answers → ℤ → Submission → Process Submission
unfolding clear_display
show_buffer a index s = queue_buffer a index s >>= (λ t.
    start_display a t >>= (λ u. dequeue_buffer a u >>= (λ v. running (clear_display index v))))

unfoldable pub on_output : Answers → Option Output → Submission → Process Submission
on_output a none s = exited exit_failure
on_output a (some o) s =
    if o.not_complete
    then running s
    else if o.not_sufficient_ps_buffer
    then exited exit_failure
    else if o.not_sufficient_slice_buffer
    then exited exit_failure
    else if leb_ℤ (pos 0) o.index_frame_display
    then show_buffer a o.index_frame_display s
    else if eq_ℤ o.index_frame_display (negsuc 0)
    then exited exit_failure
    else running s

-- `decoding` is reset before the output is asked for.
unfoldable pub finish_decoding : Answers → Submission → Process Submission
unfolding on_output
finish_decoding a s =
    if s.decoder.decoding
    then on_output a a.output (record s { decoder = record (s.decoder) { decoding = false } })
    else running s

-- decoder_renderer_submit_decode_unit behind the writing of the buffers.
unfoldable pub decode : Answers → Submission → Process Submission
decode a s =
    initialize a s
    >>= (λ t. start_decoding a t >>= (λ u. wait_busy a.busy 0 u >>= (λ v. finish_decoding a v)))

-- The unit's buffers are written at the offset that the decoder gives.
abbrev pub at_offset :
    Answers → ℤ → List (List ℕ) → Memory → Decoder → Option ℕ → Process (Memory × Submission)
at_offset a full_length entries memory d none = exited exit_failure
at_offset a full_length entries memory d (some offset) =
    decode a (record { decoder = d; calls = update_bitstream_buffer full_length ∷ [] })
    >>= (λ s. running ((write_entries entries (offset, memory)).1, s))

-- decoder_renderer_submit_decode_unit, on fullLength and the list of buffers. A unit for which
-- there is not enough space is written all the same, with a message.
unfoldable pub submit_decode_unit :
    Answers → ℤ → List (List ℕ) → Memory → Decoder → Process (Memory × Submission)
submit_decode_unit a full_length entries memory d =
    at_offset a full_length entries memory d a.write_offset
