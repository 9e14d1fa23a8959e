-- ===== src/Echo/Sending.antt =====
-- What the echo server sends.
use async_berkeley.Base.{
  ℕ, zero, suc, ◌+◌, ◌-◌, ◌<◌, ◌≤◌, ◌^◌, ◌≡◌, refl, ap, ◌∙◌, true, false, List, [], ◌∷◌, ◌++◌,
  append_assoc, arith, ltb, length, map, take, drop, Bool-cases, inl, inr,
}
use async_berkeley.Socket.Message.{Iovec, advance_message, to_bool}
use async_berkeley.Socket.Message.Bytes.{bytes, bytes-advance_message}
use async_berkeley.Socket.Message.Lengths.{to_bool-bytes}
use async_berkeley.Echo.{
  accepted, reading, writing, Client, reader, writer, on_accepted, on_completion, run_completions,
  whole_buffer, zeroed,
}

abbrev pub total : List ℕ → ℕ
total [] = 0
total (k ∷ ks) = k + total ks

module _ {A : Type 0} where
  take-drop : (k : ℕ) (xs : List A) → take k xs ++ drop k xs ≡ xs
  take-drop zero xs = refl
  take-drop (suc k) [] = refl
  take-drop (suc k) (x ∷ xs) = ap (◌∷◌ x) (take-drop k xs)

  length-drop : (k : ℕ) (xs : List A) → length (drop k xs) ≡ length xs - k
  length-drop zero xs = omega arith
  length-drop (suc k) [] = omega arith
  length-drop (suc k) (x ∷ xs) = omega (arith, length-drop k xs)

  take_all : (k : ℕ) (xs : List A) → length xs ≤ k → take k xs ≡ xs
  take_all zero [] h = refl
  take_all (suc k) [] h = refl
  take_all zero (x ∷ xs) h = absurd (omega arith)
  take_all (suc k) (x ∷ xs) h = ap (◌∷◌ x) (take_all k xs (omega arith))

map-drop : {A B : Type 0} (f : A → B) (k : ℕ) (xs : List A) → map f (drop k xs) ≡ drop k (map f xs)
map-drop f zero xs = refl
map-drop f (suc k) [] = refl
map-drop f (suc k) (x ∷ xs) = map-drop f k xs

length-map : {A B : Type 0} (f : A → B) (xs : List A) → length (map f xs) ≡ length xs
length-map f [] = refl
length-map f (x ∷ xs) = omega (arith, length-map f xs)

to_bool-advance_message :
    (k : ℕ) (bufs : List Iovec)
    → length (bytes bufs) < 2 ^ 64
    → to_bool (advance_message bufs k) ≡ ltb 0 (length (bytes bufs) - k)
to_bool-advance_message k bufs h =
    let left : length (bytes (advance_message bufs k)) ≡ length (bytes bufs) - k =
      ap length (bytes-advance_message bufs k) ∙ length-drop k (bytes bufs) in
    to_bool-bytes (advance_message bufs k) (omega arith) ∙ ap (ltb 0) left

module _ (buffer_at : ℕ → ℕ) where
  reading-accepted :
      (ks : List ℕ) (bufs : List Iovec) (c : Client)
      → run_completions buffer_at (map accepted ks) (record c { pending = reading bufs })
        ≡ record c { pending = reading bufs }
  unfolding run_completions on_completion
  reading-accepted [] bufs c = refl
  reading-accepted (k ∷ ks) bufs c = reading-accepted ks bufs c

  reader-accepted :
      (ks : List ℕ) (c : Client)
      → run_completions buffer_at (map accepted ks) (reader buffer_at c) ≡ reader buffer_at c
  unfolding reader
  reader-accepted ks c =
      reading-accepted ks (whole_buffer (buffer_at c.made))
        (record c { memory = zeroed (buffer_at c.made) c.memory; made = c.made + 1 })

  -- A client whose message has these buffers left, and that has sent `sent`.
  abbrev pub sending : List Iovec → List ℕ → Client → Client
  sending bufs sent c = record c { pending = writing bufs; sent = sent }

  sends-last :
      (k : ℕ) (bufs : List Iovec) (sent : List ℕ) (c : Client)
      → length (bytes bufs) < 2 ^ 64
      → length (bytes bufs) ≤ k
      → on_completion buffer_at (accepted k) (sending bufs sent c)
        ≡ reader buffer_at (record c { sent = sent ++ map c.memory (bytes bufs) })
  unfolding on_completion on_accepted reader
  sends-last k bufs sent c h last =
      let none_left : ltb 0 (length (bytes bufs) - k) ≡ false = ground arith in
      let all =
        take_all k (map c.memory (bytes bufs)) (omega (arith, length-map c.memory (bytes bufs))) in
      rw (to_bool-advance_message k bufs h, none_left, all) refl

  sends-more :
      (k : ℕ) (bufs : List Iovec) (sent : List ℕ) (c : Client)
      → length (bytes bufs) < 2 ^ 64
      → k < length (bytes bufs)
      → on_completion buffer_at (accepted k) (sending bufs sent c)
        ≡ sending (advance_message bufs k) (sent ++ take k (map c.memory (bytes bufs))) c
  unfolding on_completion on_accepted writer
  sends-more k bufs sent c h more =
      let some_left : ltb 0 (length (bytes bufs) - k) ≡ true = ground arith in
      rw (to_bool-advance_message k bufs h, some_left) refl

  sent-parts :
      (k : ℕ) (bufs : List Iovec) (sent : List ℕ) (memory : ℕ → ℕ)
      → (sent ++ take k (map memory (bytes bufs))) ++ map memory (bytes (advance_message bufs k))
        ≡ sent ++ map memory (bytes bufs)
  sent-parts k bufs sent memory =
      append_assoc sent (take k (map memory (bytes bufs)))
        (map memory (bytes (advance_message bufs k)))
      ∙ ap (◌++◌ sent) (
          ap (λ l. take k (map memory (bytes bufs)) ++ l)
            (ap (map memory) (bytes-advance_message bufs k) ∙ map-drop memory k (bytes bufs))
          ∙ take-drop k (map memory (bytes bufs)))

  -- However the kernel splits them, `writer` sends the bytes of its message once and in order, and then
  -- `reader` goes on: for any lengths that add up to those of a message of at least one byte and less
  -- than 2 ^ 64.
  pub writer-sends :
      (ks : List ℕ) (bufs : List Iovec) (sent : List ℕ) (c : Client)
      → total ks ≡ length (bytes bufs)
      → 0 < length (bytes bufs)
      → length (bytes bufs) < 2 ^ 64
      → run_completions buffer_at (map accepted ks) (sending bufs sent c)
        ≡ reader buffer_at (record c { sent = sent ++ map c.memory (bytes bufs) })
  unfolding run_completions
  writer-sends [] bufs sent c e some_left h = absurd (omega arith)
  writer-sends (k ∷ ks) bufs sent c e some_left h =
      elim (Bool-cases (ltb k (length (bytes bufs)))) [
        | inl more ↦
            let left : length (bytes (advance_message bufs k)) ≡ length (bytes bufs) - k =
              ap length (bytes-advance_message bufs k) ∙ length-drop k (bytes bufs) in
            let rest =
              writer-sends ks (advance_message bufs k) (sent ++ take k (map c.memory (bytes bufs)))
                c (ground arith) (ground arith) (ground arith) in
            ap (run_completions buffer_at (map accepted ks))
              (sends-more k bufs sent c h (ground arith))
            ∙ rest
            ∙ ap (λ l. reader buffer_at (record c { sent = l })) (sent-parts k bufs sent c.memory)
        | inr last ↦
            ap (run_completions buffer_at (map accepted ks))
              (sends-last k bufs sent c h (ground arith))
            ∙ reader-accepted ks (record c { sent = sent ++ map c.memory (bytes bufs) })
      ]
