-- ===== src/Imx/Ring.antt =====
-- src/video/imx.c: that the stream's bytes go round in the decoder's buffer.
use moonlight_embedded_crash.Prelude.{
  ℕ, suc, ◌+◌, ◌-◌, ◌%◌, ◌≤◌, ◌<◌, ◌≡◌, refl, sym, ap, ◌∙◌, inl, inr, true, List, [], ◌∷◌, ◌++◌,
  arith, ltb, length, take, drop, Bool-cases, length-append, take-drop, length-take,
}
use moonlight_embedded_crash.Imx.{stream_buf_size, Memory, put, memcpy, write_entry, write_entries}

-- Bytes that are put one after the other, each at its position modulo the size of the buffer.
unfoldable pub ring_put : ℕ → List ℕ → Memory → Memory
ring_put at [] memory = memory
ring_put at (x ∷ xs) memory = ring_put (suc at) xs (put (at % stream_buf_size) x memory)

-- All bytes of a list of buffers.
unfoldable pub concat : List (List ℕ) → List ℕ
concat [] = []
concat (xs ∷ xss) = xs ++ concat xss

-- No buffer is larger than the decoder's.
unfoldable pub AllFit : List (List ℕ) → Type 0
AllFit [] = true ≡ true
AllFit (xs ∷ xss) = (length xs ≤ stream_buf_size) × AllFit xss

ring_put-append :
    (at : ℕ) (xs ys : List ℕ) (memory : Memory)
    → ring_put at (xs ++ ys) memory ≡ ring_put (at + length xs) ys (ring_put at xs memory)
unfolding ring_put
ring_put-append at [] ys memory = ap (λ n. ring_put n ys memory) (omega arith)
ring_put-append at (x ∷ xs) ys memory =
    ring_put-append (suc at) xs ys (put (at % stream_buf_size) x memory)
    ∙ ap (λ n. ring_put n ys (ring_put (suc at) xs (put (at % stream_buf_size) x memory)))
        (omega arith)

memcpy-ring_put :
    (target at : ℕ) (xs : List ℕ) (memory : Memory)
    → at % stream_buf_size ≡ target % stream_buf_size
    → target + length xs ≤ stream_buf_size
    → memcpy target xs memory ≡ ring_put at xs memory
unfolding memcpy ring_put
memcpy-ring_put target at [] memory same fits = refl
memcpy-ring_put target at (x ∷ xs) memory same fits =
    let here : target ≡ at % stream_buf_size = omega (arith, same, fits) in
    memcpy-ring_put (suc target) (suc at) xs (put target x memory) (omega (arith, same))
      (omega (arith, fits))
    ∙ ap (λ n. ring_put (suc at) xs (put n x memory)) here

write_entry-ring_put :
    (bytes : List ℕ) (target at : ℕ) (memory : Memory)
    → at % stream_buf_size ≡ target % stream_buf_size
    → target ≤ stream_buf_size
    → length bytes ≤ stream_buf_size
    → let r = write_entry bytes (target, memory) in
      (r.0 ≤ stream_buf_size)
      × ((at + length bytes) % stream_buf_size ≡ r.0 % stream_buf_size)
      × (r.1 ≡ ring_put at bytes memory)
unfolding write_entry
write_entry-ring_put bytes target at memory same low fits =
    elim (Bool-cases (ltb stream_buf_size (target + length bytes))) [
      | inl over ↦ rw over (
          let room : ℕ = stream_buf_size - target in
          let over' : stream_buf_size < target + length bytes = ground (arith) in
          let split : length bytes ≡ length (take room bytes) + length (drop room bytes) =
            ap length (sym (take-drop room bytes))
            ∙ length-append (take room bytes) (drop room bytes) in
          let first : length (take room bytes) ≡ room =
            length-take room bytes (omega (arith, over')) in
          (
            omega (arith, fits, over'),
            omega (arith, same, over', low),
            memcpy-ring_put 0 (at + length (take room bytes)) (drop room bytes)
                  (memcpy target (take room bytes) memory) (omega (arith, first, same, low))
                  (omega (arith, split, fits))
                ∙ ap (ring_put (at + length (take room bytes)) (drop room bytes)) (
                    memcpy-ring_put target at (take room bytes) memory same
                      (omega (arith, first, low)))
                ∙ sym (ring_put-append at (take room bytes) (drop room bytes) memory)
                ∙ ap (λ xs. ring_put at xs memory) (take-drop room bytes),
          ))
      | inr within ↦ rw within (
          let le : target + length bytes ≤ stream_buf_size = ground arith in
          (le, omega (arith, same), memcpy-ring_put target at bytes memory same le))
    ]

-- Writing the buffers of a unit from an offset in the decoder's buffer on puts all their bytes, one
-- after the other, at their positions modulo the buffer's size, if no buffer is larger than it.
pub write_entries-ring_put :
    (entries : List (List ℕ)) (target : ℕ) (memory : Memory)
    → AllFit entries
    → target ≤ stream_buf_size
    → (write_entries entries (target, memory)).1 ≡ ring_put target (concat entries) memory
unfolding AllFit concat ring_put write_entries write_entry
write_entries-ring_put entries target memory fits low =
    from entries target target memory fits low refl
  where
    from :
        (entries : List (List ℕ)) (target at : ℕ) (memory : Memory)
        → AllFit entries
        → target ≤ stream_buf_size
        → at % stream_buf_size ≡ target % stream_buf_size
        → (write_entries entries (target, memory)).1 ≡ ring_put at (concat entries) memory
    from [] target at memory fits low same = refl
    from (bytes ∷ entries) target at memory (fit, fits) low same =
        let (low', same', written) = write_entry-ring_put bytes target at memory same low fit in
        let r = write_entry bytes (target, memory) in
        from entries r.0 (at + length bytes) r.1 fits low' same'
        ∙ ap (ring_put (at + length bytes) (concat entries)) written
        ∙ sym (ring_put-append at bytes (concat entries) memory)
