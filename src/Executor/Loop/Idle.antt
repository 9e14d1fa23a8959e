-- ===== src/Executor/Loop/Idle.antt =====
-- When the loop ends, nothing waits.
use async_berkeley.Base.{
  ℕ, ◌≡◌, ◌≢◌, refl, subst, int_lt, some, List, [], ◌∷◌, length, All, ℤ, negsuc, ◌==◌, arith,
  get_elem?, int_eq, Bool-cases, inl, inr, ==_iff,
}
use async_berkeley.Poll.Flags.{Pollfd, no_flags}
use async_berkeley.Poll.Interest.{copy_active}
use async_berkeley.Poll.Syscall.{
  Answer, Reply, ready, failed, returned, fill, with_events, next_timeout, poll_loop, poll_,
}
use async_berkeley.Poll.Timeout.{Answer-cases}
use async_berkeley.Poll.Mux.{Platform, Demultiplexer, Mux, World}
use async_berkeley.Poll.Wait.{Waited, handled, blocked, crashed, dispatch, finish}
use async_berkeley.Poll.Wakeups.{ArmedAt}
use async_berkeley.Poll.Runs.{Run, no_descriptors, done, change, launch, serve}
use async_berkeley.Poll.Runs.Interleaved.{wait_for-dispatched, Run-asked}
use async_berkeley.Executor.Loop.{
  Round, Loop, ended, executor_wait_for, executor_wait, triggers_wait, run_loop,
}

-- A call of `poll` without a timeout comes back with an event or an error, where it comes back at all.
abbrev pub Reported : List Pollfd → Answer → Type 0
Reported list (ready r) = with_events (fill r list) ≢ []
Reported list (failed e now) = Unit {0}

abbrev pub Reports : List Pollfd → Reply → Type 0
Reports list reply = Reported list (reply (negsuc 0))

poll_loop-some :
    (interrupted : ℤ) (list : List Pollfd) (start : ℕ) (replies : List Reply)
    → All (Reports list) replies
    → poll_loop interrupted list (negsuc 0) start replies ≢ returned []
unfolding poll_loop next_timeout int_lt
poll_loop-some i list start [] all = λ e. ground arith
poll_loop-some i list start (reply ∷ replies) all = elim (Answer-cases (reply (negsuc 0))) [
  | inl (r, is) ↦
      let some_event : with_events (fill r list) ≢ [] = subst (Reported list) is all.0 in
      λ e. some_event (ground arith)
  | inr (x, now, is) ↦ elim (Bool-cases (int_eq x i)) [
    | inl again ↦ λ e. poll_loop-some i list start replies all.1 (rw (is, again) at e)
    | inr fatal ↦ λ e. ground arith
  ]
]

-- Only an empty list is polled without an event.
poll_-nothing :
    (interrupted : ℤ) (list : List Pollfd) (start : ℕ) (replies : List Reply)
    → All (Reports list) replies
    → poll_ interrupted list (negsuc 0) start replies ≡ returned []
    → list ≡ []
unfolding poll_
poll_-nothing i [] start replies all e = refl
poll_-nothing i (p ∷ ps) start replies all e =
    absurd (poll_loop-some i (p ∷ ps) start replies all e)

nothing : (events : List Pollfd) → 0 ≡ length events → events ≡ []
nothing [] e = refl
nothing (x ∷ xs) e = absurd (omega (arith, e))

module _ {W R : Type 0} (P : Platform W) where
  -- The operations that the program starts after a wait, and the kernel.
  pub record Honest (r : Round W R) : Type 0 where
    pub starts : (m : Mux W R) (w : World W R) → Run P m w (r.next m w).0 (r.next m w).1
    pub reports : (list : List Pollfd) → All (Reports list) (r.replies list)

  finish-count :
      (events : List Pollfd) (m : Mux W R) (w : World W R) (n : ℕ) (m' : Mux W R) (w' : World W R)
      → finish P events m w ≡ handled n m' w'
      → n ≡ length events
  unfolding finish
  finish-count events m w n m' w' e = ground arith

  finish-nothing :
      (m : Mux W R) (w : World W R) (n : ℕ) (m' : Mux W R) (w' : World W R)
      → finish P [] m w ≡ handled n m' w'
      → m' ≡ m
  unfolding finish dispatch
  finish-nothing m w n m' w' e = ground arith

  ArmedAt-none :
      (d : Demultiplexer W R) → ArmedAt no_flags d → (d.read_queue ≡ []) × (d.write_queue ≡ [])
  ArmedAt-none d a = ground arith

  Run-Run :
      {m m₁ m₂ : Mux W R} {w w₁ w₂ : World W R}
      → Run P m w m₁ w₁
      → Run P m₁ w₁ m₂ w₂
      → Run P m w m₂ w₂
  Run-Run r done = r
  Run-Run r (change w₃ s) = change w₃ (Run-Run r s)
  Run-Run r (launch op op' m₂ s is c e) = launch op op' m₂ (Run-Run r s) is c e
  Run-Run r (serve interval now replies n others s o e) =
      serve interval now replies n others (Run-Run r s) o e

  triggers_wait-idle :
      (r : Round W R) (m : Mux W R) (w₀ w : World W R) (m' : Mux W R) (w' : World W R) (i : ℕ)
      (d : Demultiplexer W R)
      → Run P no_descriptors w₀ m w
      → Honest r
      → triggers_wait P r m w ≡ handled 0 m' w'
      → get_elem? m'.demux i ≡ some d
      → (d.read_queue ≡ []) × (d.write_queue ≡ [])
  unfolding triggers_wait executor_wait executor_wait_for
  triggers_wait-idle r m w₀ w m' w' i d run honest e there =
      let (events, polled, rest) =
        wait_for-dispatched P (negsuc 0) r.now (r.replies (copy_active m.list)) (λ m w. (m, w)) m w
          0 m' w' e in
      let none_there : events ≡ [] = nothing events (finish-count events m w 0 m' w' rest) in
      let same : m' ≡ m = finish-nothing m w 0 m' w' (rw none_there at rest) in
      let empty : copy_active m.list ≡ [] =
        poll_-nothing P.interrupted (copy_active m.list) r.now (r.replies (copy_active m.list))
          (honest.reports (copy_active m.list)) (rw none_there at polled) in
      ArmedAt-none d (rw empty at (Run-asked P m w₀ w i d run (rw same at there)))

  -- A multiplexer made without descriptors, after any run; a program of one thread, in which the
  -- functions of the operations that complete only start operations; a kernel whose `poll` without a
  -- timeout comes back with an event or an error: when the loop ends, no operation waits.
  pub run_loop-idle :
      (rs : List (Round W R)) (m : Mux W R) (w₀ w : World W R) (m' : Mux W R) (w' : World W R)
      (i : ℕ) (d : Demultiplexer W R)
      → Run P no_descriptors w₀ m w
      → All Honest rs
      → run_loop P rs m w ≡ ended m' w'
      → get_elem? m'.demux i ≡ some d
      → (d.read_queue ≡ []) × (d.write_queue ≡ [])
  unfolding run_loop triggers_wait executor_wait executor_wait_for
  run_loop-idle [] m w₀ w m' w' i d run honest e there = absurd (ground arith)
  run_loop-idle (r ∷ rs) m w₀ w m' w' i d run honest e there =
      go (λ m₂ w₂ run' e'. run_loop-idle rs m₂ w₀ w₂ m' w' i d run' honest.1 e' there)
        (triggers_wait P r m w) refl
    where
      go :
          ((m₂ : Mux W R) (w₂ : World W R)
            → Run P no_descriptors w₀ m₂ w₂
            → run_loop P rs m₂ w₂ ≡ ended m' w'
            → (d.read_queue ≡ []) × (d.write_queue ≡ []))
          → (x : Waited W R) → triggers_wait P r m w ≡ x
          → (d.read_queue ≡ []) × (d.write_queue ≡ [])
      go again (handled n m₁ w₁) h = elim (Bool-cases (n == 0)) [
        | inl ends ↦
            let here : ◌≡◌ {A = Loop W R} (ended m₁ w₁) (ended m' w') =
              rw (run_loop, h, ends) at e in
            let same : m₁ ≡ m' = ground arith in
            let zero_events : n ≡ 0 = (==_iff n 0).0 ends in
            triggers_wait-idle r m w₀ w m₁ w₁ i d run honest.0 (rw zero_events at h) (rw same there)
        | inr goes ↦
            let later : run_loop P rs (r.next m₁ w₁).0 (r.next m₁ w₁).1 ≡ ended m' w' =
              rw (run_loop, h, goes) at e in
            again (r.next m₁ w₁).0 (r.next m₁ w₁).1
              (Run-Run
                (serve (negsuc 0) r.now (r.replies (copy_active m.list)) n (λ m w. (m, w)) run done
                  h)
                (honest.0.starts m₁ w₁))
              later
      ]
      go again (Waited.failed x m₁ w₁) h = absurd (ground arith)
      go again blocked h = absurd (ground arith)
      go again crashed h = absurd (ground arith)
