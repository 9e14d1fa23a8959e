-- ===== src/Client/Progress.antt =====
-- How far the client comes, and where it stays.
use async_berkeley.Base.{
  ℕ, ◌+◌, ◌%◌, ◌^◌, ◌<◌, ◌≤◌, ◌≡◌, refl, ap, ◌∙◌, Bool, true, false, List, [], ◌∷◌, ◌++◌, ltb,
  if◌then◌else◌, length, arith,
}
use async_berkeley.Client.{
  next_int, is_below, finds, pong, Spawned, connecting, sending, receiving, stopped, Completion,
  connected, accepted, received, failed, Client, spawned, start_ping_pong, schedule_next_ping,
  on_accepted, on_received, on_completion, run_completions, is_running,
}

abbrev is_stopped : Spawned → Bool
is_stopped stopped = true
is_stopped _ = false

-- A ping that is accepted, and the bytes that are received after it, again and again.
abbrev pub turns : List (List ℕ) → List Completion
turns [] = []
turns (message ∷ messages) = accepted ∷ received message ∷ turns messages

-- How many of the messages have a pong.
abbrev pub answers : List (List ℕ) → ℕ
answers [] = 0
answers (message ∷ messages) = (if finds pong message then 1 else 0) + answers messages

answers_le : (messages : List (List ℕ)) → answers messages ≤ length messages
answers_le [] = omega arith
answers_le (message ∷ messages) = ground (arith, answers_le messages)

module _ (ping_count : ℕ) where
  -- What an operation that is pending has captured is the number of pongs, which are not yet all.
  abbrev pub Counts : Client → Type 0
  Counts c = elim c.pending [
    | connecting ↦ c.pongs_received ≡ 0
    | sending n ↦ (n ≡ c.pongs_received) × (c.pongs_received < ping_count)
    | receiving n ↦ (n ≡ c.pongs_received) × (c.pongs_received < ping_count)
    | stopped ↦ c.pongs_received ≤ ping_count
  ]

  on_completion-Counts :
      (e : Completion) (p : Spawned) (sent pongs : ℕ)
      → ping_count < 2 ^ 31
      → Counts (record { pending = p; pings_sent = sent; pongs_received = pongs })
      → Counts (
          on_completion ping_count e
            (record { pending = p; pings_sent = sent; pongs_received = pongs }))
  unfolding on_completion start_ping_pong schedule_next_ping on_accepted on_received is_below
      next_int
  on_completion-Counts e p sent pongs small k = ground arith

  run-Counts_from :
      (es : List Completion) (c : Client)
      → ping_count < 2 ^ 31
      → Counts c
      → Counts (run_completions ping_count es c)
  unfolding run_completions
  run-Counts_from [] c small k = k
  run-Counts_from (e ∷ es) c small k =
      run-Counts_from es (on_completion ping_count e c) small
        (on_completion-Counts e c.pending c.pings_sent c.pongs_received small k)

  -- With fewer than 2^31 pings to send, whatever completes: the operation that is pending carries the
  -- number of pongs so far, which is below the number of pings to send; the number of pongs is 0
  -- before the connection, and never above the number of pings to send.
  pub run-Counts :
      (es : List Completion) → ping_count < 2 ^ 31 → Counts (run_completions ping_count es spawned)
  run-Counts es small = run-Counts_from es spawned small refl

  run-append :
      (es later : List Completion) (c : Client)
      → run_completions ping_count (es ++ later) c
        ≡ run_completions ping_count later (run_completions ping_count es c)
  unfolding run_completions
  run-append [] later c = refl
  run-append (e ∷ es) later c = run-append es later (on_completion ping_count e c)

  run-stopped :
      (es : List Completion) (sent pongs : ℕ)
      → run_completions ping_count es
          (record { pending = stopped; pings_sent = sent; pongs_received = pongs })
        ≡ record { pending = stopped; pings_sent = sent; pongs_received = pongs }
  unfolding run_completions on_completion
  run-stopped [] sent pongs = refl
  run-stopped (e ∷ es) sent pongs = run-stopped es sent pongs

  on_completion-failed :
      (c : Client) → on_completion ping_count failed c ≡ record c { pending = stopped }
  unfolding on_completion
  on_completion-failed c = ground arith

  few :
      (p : Spawned) (sent pongs : ℕ)
      → 0 < ping_count
      → is_stopped p ≡ false
      → Counts (record { pending = p; pings_sent = sent; pongs_received = pongs })
      → pongs < ping_count
  few p sent pongs some_pings busy k = ground arith

  -- With at least one ping to send and fewer than 2^31: where the operation that is pending fails,
  -- nothing is pending from then on, and the loop of `run` goes on for ever.
  pub run-failed :
      (es later : List Completion)
      → 0 < ping_count
      → ping_count < 2 ^ 31
      → is_stopped (run_completions ping_count es spawned).pending ≡ false
      → ((run_completions ping_count (es ++ failed ∷ later) spawned).pending ≡ stopped)
        × (is_running ping_count (run_completions ping_count (es ++ failed ∷ later) spawned) ≡ true)
  unfolding is_running is_below run_completions
  run-failed es later some_pings small busy =
      let c = run_completions ping_count es spawned in
      let less : c.pongs_received < ping_count =
        few c.pending c.pings_sent c.pongs_received some_pings busy (run-Counts es small) in
      let ends : run_completions ping_count (es ++ failed ∷ later) spawned
          ≡ record c { pending = stopped } =
        run-append es (failed ∷ later) spawned
        ∙ rw (on_completion-failed c) (run-stopped later c.pings_sent c.pongs_received) in
      rw ends (refl, ground arith)

  one_turn :
      (message : List ℕ) (n sent : ℕ)
      → n < ping_count
      → ping_count < 2 ^ 31
      → run_completions ping_count
          (accepted ∷ received message ∷ [])
          (record { pending = sending n; pings_sent = sent; pongs_received = n })
        ≡ (let k = n + (if finds pong message then 1 else 0) in
            record {
              pending = if ltb k ping_count then sending k else stopped;
              pings_sent = (sent + 1) % 2 ^ 32;
              pongs_received = k;
            })
  unfolding run_completions on_completion on_accepted on_received schedule_next_ping start_ping_pong
      is_below next_int
  one_turn message n sent less small = ground arith

  run-turns :
      (messages : List (List ℕ)) (n sent : ℕ)
      → n + answers messages < ping_count
      → ping_count < 2 ^ 31
      → sent < 2 ^ 32
      → run_completions ping_count
          (turns messages)
          (record { pending = sending n; pings_sent = sent; pongs_received = n })
        ≡ record {
          pending = sending (n + answers messages);
          pings_sent = (sent + length messages) % 2 ^ 32;
          pongs_received = n + answers messages;
        }
  unfolding run_completions
  run-turns [] n sent more small fits =
      let counted : n + 0 ≡ n = omega arith in
      let whole : (sent + 0) % 2 ^ 32 ≡ sent = omega arith in rw (counted, whole) refl
  run-turns (message ∷ messages) n sent more small fits =
      let k = n + (if finds pong message then 1 else 0) in
      let below : ltb k ping_count ≡ true = ground arith in
      let counted : k + answers messages ≡ n + answers (message ∷ messages) = omega arith in
      let whole : ((sent + 1) % 2 ^ 32 + length messages) % 2 ^ 32
          ≡ (sent + length (message ∷ messages)) % 2 ^ 32 =
        omega arith in
      run-append (accepted ∷ received message ∷ []) (turns messages)
        (record { pending = sending n; pings_sent = sent; pongs_received = n })
      ∙ rw (one_turn message n sent (omega arith) small, below)
          (run-turns messages k ((sent + 1) % 2 ^ 32) (omega arith) small (omega arith)
            ∙ rw (counted, whole) refl)

  -- With fewer than 2^31 pings to send: after the connection, messages of which all pings but one are
  -- answered by one with a pong, with fewer than 2^31 - 1 in all, and a last one with a pong, each after a ping,
  -- nothing is pending, one ping was sent for each message, and the loop of `run` ends.
  pub run-answers :
      (messages : List (List ℕ)) (last : List ℕ)
      → ping_count < 2 ^ 31
      → answers messages + 1 ≡ ping_count
      → length messages + 1 < 2 ^ 31
      → finds pong last ≡ true
      → (run_completions ping_count
            (connected ∷ turns messages ++ accepted ∷ received last ∷ [])
            spawned
          ≡ record {
            pending = stopped;
            pings_sent = length messages + 1;
            pongs_received = ping_count;
          })
        × (is_running ping_count (
              run_completions ping_count
                (connected ∷ turns messages ++ accepted ∷ received last ∷ [])
                spawned)
            ≡ false)
  unfolding run_completions on_completion start_ping_pong is_below is_running
  run-answers messages last small all short found =
      (ends, rw ends (ground (arith, answers_le messages)))
    where
      starts :
          on_completion ping_count connected spawned
          ≡ record { pending = sending 0; pings_sent = 0; pongs_received = 0 }
      starts = ground arith

      whole : ((0 + length messages) % 2 ^ 32 + 1) % 2 ^ 32 ≡ length messages + 1
      whole = omega arith

      ends :
          run_completions ping_count
            (connected ∷ turns messages ++ accepted ∷ received last ∷ [])
            spawned
          ≡ record {
            pending = stopped;
            pings_sent = length messages + 1;
            pongs_received = ping_count;
          }
      ends =
          let last_turn : answers messages + 1 ≡ ping_count = all in
          let same : ltb ping_count ping_count ≡ false = ground arith in
          let before : 0 + answers messages ≡ answers messages = omega arith in
          ap (run_completions ping_count (turns messages ++ accepted ∷ received last ∷ [])) starts
          ∙ (run-append (turns messages) (accepted ∷ received last ∷ [])
                (record { pending = sending 0; pings_sent = 0; pongs_received = 0 })
              ∙ rw
                  (
                    run-turns messages 0 0 (omega arith) small (omega arith),
                    before,
                    one_turn last (answers messages) ((0 + length messages) % 2 ^ 32) (omega arith)
                        small,
                    found,
                    last_turn,
                    same,
                    whole,
                  )
                  refl)
