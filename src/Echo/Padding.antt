-- ===== src/Echo/Padding.antt =====
-- An echo is as long as the buffer, not as what was received.
use async_berkeley.Base.{
  ℕ, zero, suc, ◌+◌, ◌-◌, ◌<◌, ◌≤◌, ◌≡◌, refl, sym, ap, ◌∙◌, false, List, ◌∷◌, ◌++◌, append-nil,
  arith, ◌==◌, length, map, drop, replicate,
}
use async_berkeley.Socket.Message.{push_back_range}
use async_berkeley.Socket.Message.Bytes.{addresses, bytes, length-addresses}
use async_berkeley.Echo.{
  received, accepted, Client, reader, writer, on_received, on_completion, run_completions,
  whole_buffer, zeroed,
}
use async_berkeley.Echo.Sending.{total, sending, writer-sends}

bytes-whole_buffer : (a : ℕ) → bytes (whole_buffer a) ≡ addresses a 1024
unfolding bytes push_back_range
bytes-whole_buffer a = append-nil (addresses a 1024)

length-whole_buffer : (a : ℕ) → length (bytes (whole_buffer a)) ≡ 1024
length-whole_buffer a = ap length (bytes-whole_buffer a) ∙ length-addresses a 1024

zeroed-inside : (a x : ℕ) (memory : ℕ → ℕ) → a ≤ x → x < a + 1024 → zeroed a memory x ≡ 0
unfolding zeroed
zeroed-inside a x memory low high = ground arith

map-zeroed :
    (a j n : ℕ) (memory : ℕ → ℕ)
    → j + n ≤ 1024
    → map (zeroed a memory) (addresses (a + j) n) ≡ replicate n 0
unfolding addresses
map-zeroed a j zero memory h = refl
map-zeroed a j (suc n) memory h =
    let next : a + j + 1 ≡ a + (j + 1) = omega arith in
    rw
      (
        zeroed-inside a (a + j) memory (omega arith) (omega arith),
        next,
        map-zeroed a (j + 1) n memory (omega arith),
      )
      refl

drop-replicate : {A : Type 0} (k n : ℕ) (a : A) → drop k (replicate n a) ≡ replicate (n - k) a
drop-replicate zero n a = let same : n ≡ n - 0 = omega arith in ap (λ m. replicate m a) same
drop-replicate (suc k) zero a =
    let none_left : 0 ≡ 0 - suc k = omega arith in ap (λ m. replicate m a) none_left
drop-replicate (suc k) (suc n) a =
    let less : n - k ≡ suc n - suc k = omega arith in
    drop-replicate k n a ∙ ap (λ m. replicate m a) less

-- What recvmsg leaves in the buffer: the received bytes, and behind them what was there.
abbrev pub Receives : List ℕ → List ℕ → (ℕ → ℕ) → (ℕ → ℕ) → Type 0
Receives text place old memory = map memory place ≡ text ++ drop (length text) (map old place)

received-text :
    (text : List ℕ) (a : ℕ) (old memory : ℕ → ℕ)
    → Receives text (bytes (whole_buffer a)) (zeroed a old) memory
    → map memory (bytes (whole_buffer a)) ≡ text ++ replicate (1024 - length text) 0
received-text text a old memory got =
    let start : a + 0 ≡ a = omega arith in
    let zeros : map (zeroed a old) (bytes (whole_buffer a)) ≡ replicate 1024 0 =
      ap (map (zeroed a old)) (bytes-whole_buffer a ∙ ap (λ x. addresses x 1024) (sym start))
      ∙ map-zeroed a 0 1024 old (omega arith) in
    got
    ∙ ap (λ l. text ++ drop (length text) l) zeros
    ∙ ap (◌++◌ text) (drop-replicate (length text) 1024 0)

module _ (buffer_at : ℕ → ℕ) where
  received-writer :
      (len : ℕ) (memory : ℕ → ℕ) (c : Client)
      → 0 < len
      → on_completion buffer_at (received len memory) (reader buffer_at c)
        ≡ sending buffer_at
            (whole_buffer (buffer_at c.made))
            c.sent
            (record c { memory = memory; made = c.made + 1 })
  unfolding on_completion on_received writer reader
  received-writer len memory c some_text =
      let more : (len == 0) ≡ false = ground arith in rw more refl

  reader-sent : (c : Client) → (reader buffer_at c).sent ≡ c.sent
  unfolding reader
  reader-sent c = refl

  -- One echo of `text`, which recvmsg puts into the new buffer of `reader`. However the kernel splits
  -- the sends, when they have sent the whole message it was 1024 bytes: `text`, and zeros behind it.
  pub echo-padded :
      (text ks : List ℕ) (memory : ℕ → ℕ) (c : Client)
      → 0 < length text
      → Receives text
          (bytes (whole_buffer (buffer_at c.made)))
          (zeroed (buffer_at c.made) c.memory)
          memory
      → total ks ≡ 1024
      → (run_completions buffer_at
          (received (length text) memory ∷ map accepted ks)
          (reader buffer_at c)).sent
        ≡ c.sent ++ (text ++ replicate (1024 - length text) 0)
  unfolding run_completions
  echo-padded text ks memory c some_text got e =
      let bufs = whole_buffer (buffer_at c.made) in
      let c' : Client = record c { memory = memory; made = c.made + 1 } in
      let size = length-whole_buffer (buffer_at c.made) in
      ap (λ x. (run_completions buffer_at (map accepted ks) x).sent)
        (received-writer (length text) memory c some_text)
      ∙ ap (λ x. x.sent)
          (writer-sends buffer_at ks bufs c.sent c' (e ∙ sym size) (omega (arith, size))
            (omega (arith, size)))
      ∙ reader-sent (record c' { sent = c.sent ++ map memory (bytes bufs) })
      ∙ ap (◌++◌ c.sent) (received-text text (buffer_at c.made) c.memory memory got)
