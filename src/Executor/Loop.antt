-- ===== src/Executor/Loop.antt =====
-- `wait_for` and `wait` of include/io/execution/executor.hpp and include/io/execution/triggers.hpp, and the
-- loop `while (trigs.wait());` with which main of examples/tcp_echo.cpp waits, in a program of one thread.
pub mod Idle
mod Examples
use async_berkeley.Base.{ℕ, Bool, true, false, List, [], ◌∷◌, ℤ, negsuc, ◌==◌, if◌then◌else◌}
use async_berkeley.Poll.Flags.{Pollfd}
use async_berkeley.Poll.Interest.{copy_active}
use async_berkeley.Poll.Syscall.{Reply}
use async_berkeley.Poll.Mux.{Platform, Mux, World}
use async_berkeley.Poll.Wait.{Waited, handled, failed, blocked, crashed, wait_for}

-- One call of `wait`: the clock, what the kernel answers for the list that is polled, and what the
-- functions of the operations that complete do then: the operations that they start.
pub record Round (W R : Type 0) : Type 0 where
  pub now : ℕ
  pub replies : List Pollfd → List Reply
  pub next : Mux W R → World W R → Mux W R × World W R

-- How the loop stands after some rounds.
pub data Loop (W R : Type 0) : Type 0 where
  ended : Mux W R → World W R → Loop W R
  going : Mux W R → World W R → Loop W R
  stopped : Loop W R

module _ {W R : Type 0} (P : Platform W) where
  -- executor::wait_for and executor::wait
  unfoldable pub executor_wait_for : ℤ → Round W R → Mux W R → World W R → Waited W R
  unfolding wait_for copy_active
  executor_wait_for interval r m w =
      wait_for P interval r.now (r.replies (copy_active m.list)) (λ m w. (m, w)) m w

  unfoldable pub executor_wait : Round W R → Mux W R → World W R → Waited W R
  unfolding executor_wait_for
  executor_wait r m w = executor_wait_for (negsuc 0) r m w

  -- basic_triggers::wait_for and basic_triggers::wait
  unfoldable pub triggers_wait_for : ℤ → Round W R → Mux W R → World W R → Waited W R
  unfolding executor_wait_for
  triggers_wait_for interval r m w = executor_wait_for interval r m w

  unfoldable pub triggers_wait : Round W R → Mux W R → World W R → Waited W R
  unfolding executor_wait
  triggers_wait r m w = executor_wait r m w

  -- The loop, for as many rounds as there are. It stops early where `wait` throws or does not return.
  unfoldable pub run_loop : List (Round W R) → Mux W R → World W R → Loop W R
  unfolding triggers_wait
  run_loop [] m w = going m w
  run_loop (r ∷ rs) m w = elim (triggers_wait r m w) [
    | handled n m' w' ↦
        if n == 0 then ended m' w' else run_loop rs (r.next m' w').0 (r.next m' w').1
    | failed e m' w' ↦ stopped
    | blocked ↦ stopped
    | crashed ↦ stopped
  ]
