-- ===== src/Client/Examples.antt =====
-- A client that sends two pings, and the theorems at it.
use async_berkeley.Base.{ℕ, ◌≡◌, refl, true, false, List, [], ◌∷◌, ◌++◌, arith}
use async_berkeley.Client.{
  finds, is_prefix, pong, sending, stopped, connected, accepted, received, failed, spawned,
  on_completion, start_ping_pong, on_accepted, on_received, schedule_next_ping, next_int, is_below,
  run_completions, is_running,
}
use async_berkeley.Client.Progress.{turns, run-failed, run-answers}

-- "pong!"
abbrev answer : List ℕ
answer = 112 ∷ 111 ∷ 110 ∷ 103 ∷ 33 ∷ []

found : finds pong answer ≡ true
unfolding finds is_prefix
found = refl

-- The answer in two parts is taken for two messages without a pong, and the ping is sent again.
split_answer :
    run_completions 2 (connected ∷ turns ((112 ∷ 111 ∷ []) ∷ (110 ∷ 103 ∷ []) ∷ [])) spawned
    ≡ record { pending = sending 0; pings_sent = 2; pongs_received = 0 }
unfolding run_completions on_completion start_ping_pong on_accepted on_received schedule_next_ping
    next_int is_below finds is_prefix
split_answer = refl

run-failed_example :
    ((run_completions 2 (connected ∷ accepted ∷ failed ∷ received answer ∷ []) spawned).pending
      ≡ stopped)
    × (is_running 2
          (run_completions 2 (connected ∷ accepted ∷ failed ∷ received answer ∷ []) spawned)
        ≡ true)
unfolding run_completions on_completion start_ping_pong on_accepted is_below
run-failed_example =
    run-failed 2 (connected ∷ accepted ∷ []) (received answer ∷ []) (omega arith) (omega arith) refl

run-answers_example :
    (run_completions 2
        (connected ∷ turns ([] ∷ answer ∷ []) ++ accepted ∷ received answer ∷ [])
        spawned
      ≡ record { pending = stopped; pings_sent = 3; pongs_received = 2 })
    × (is_running 2 (
          run_completions 2
            (connected ∷ turns ([] ∷ answer ∷ []) ++ accepted ∷ received answer ∷ [])
            spawned)
        ≡ false)
unfolding finds is_prefix
run-answers_example = run-answers 2 ([] ∷ answer ∷ []) answer (omega arith) refl (omega arith) found
