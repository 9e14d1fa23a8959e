-- ===== src/Executor/Loop/Examples.antt =====
-- The loop of a program with one reader: one event, and the end.
use async_berkeley.Base.{ℕ, ◌≡◌, refl, some, List, [], ◌∷◌, All, int_eq, int_lt, arith}
use async_berkeley.Poll.Flags.{Pollfd, any_flag, wakes_readers, wakes_writers}
use async_berkeley.Poll.Interest.{copy_active, clear_event}
use async_berkeley.Poll.Syscall.{Reply, ready, poll_}
use async_berkeley.Poll.Mux.{Op, complete, is_failing}
use async_berkeley.Poll.Wait.{wait_for, handle_event}
use async_berkeley.Poll.Runs.{done}
use async_berkeley.Poll.Examples.{linux, world, in_flag, queued, served}
use async_berkeley.Poll.Runs.Examples.{first-Run, world₁}
use async_berkeley.Executor.Loop.{
  Round, ended, triggers_wait, executor_wait, executor_wait_for, run_loop,
}
use async_berkeley.Executor.Loop.Idle.{Reports, Honest, run_loop-idle}

-- Every descriptor that is polled is readable.
abbrev replies : List Pollfd → List Reply
replies [] = []
replies (p ∷ ps) = (λ t. ready (λ fd. in_flag)) ∷ []

abbrev round : Round ℕ ℕ
round = record { now = 0; replies = replies; next = λ m w. (m, w) }

reports : (list : List Pollfd) → All (Reports list) (replies list)
unfolding any_flag
reports [] = tt
reports (p ∷ ps) = (λ e. ground arith, tt)

round-Honest : Honest linux round
round-Honest = record { starts = λ m w. done; reports = reports }

ends : run_loop linux (round ∷ round ∷ []) queued world ≡ ended served world₁
unfolding run_loop triggers_wait executor_wait executor_wait_for wait_for poll_ copy_active
    clear_event int_eq int_lt wakes_readers wakes_writers handle_event complete is_failing
ends = refl

run_loop-idle_example : (◌≡◌ {A = List (Op ℕ ℕ)} [] []) × (◌≡◌ {A = List (Op ℕ ℕ)} [] [])
run_loop-idle_example =
    run_loop-idle linux (round ∷ round ∷ []) queued world world served world₁ 1
      (record { read_queue = []; write_queue = []; socket = some 0 }) first-Run
      (round-Honest, (round-Honest, tt)) ends refl
