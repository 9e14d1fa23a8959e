-- ===== src/Poll/Runs/Interleaved.antt =====
-- What holds after every run of the multiplexer, other threads included.
use async_berkeley.Base.{ℕ, ◌≡◌, ◌≢◌, refl, some, List, [], ℤ, pos, arith, All, get_elem?}
use async_berkeley.Poll.Flags.{Pollfd}
use async_berkeley.Poll.Interest.{copy_active, interest}
use async_berkeley.Poll.Order.{copy_active-interest}
use async_berkeley.Poll.Syscall.{Reply, Polled, returned, thrown, waiting, poll_}
use async_berkeley.Poll.Mux.{Platform, Op, Demultiplexer, Mux, World}
use async_berkeley.Poll.Wait.{
  Dispatched, dispatched, threw, undefined, handled, crashed, dispatch, finish, run_ready, wait_for,
}
use async_berkeley.Poll.Timeout.{poll_-All, copy_active-All}
use async_berkeley.Poll.Wakeups.{ArmedAt, IsDescriptor}
use async_berkeley.Poll.Safety.{BackedAt, finish-defined}
use async_berkeley.Poll.Backing.{All-imp}
use async_berkeley.Poll.Runs.{
  Run, no_descriptors, done, change, launch, serve, Sound, Kept, submit-Kept, dispatch-Kept,
}

polled-fds :
    (Q : ℤ → Type 0) (interrupted interval : ℤ) (now : ℕ) (replies : List Reply)
    (list events : List Pollfd)
    → All (λ p. Q p.fd) list
    → poll_ interrupted (copy_active list) interval now replies ≡ returned events
    → All (λ p. Q p.fd) events
polled-fds Q interrupted interval now replies list events q e =
    All-imp events (λ p h. h.0)
      (poll_-All Q interrupted (copy_active list) interval now replies events
        (copy_active-All Q list q) e)

module _ {W R : Type 0} (P : Platform W) where
  -- A wait_for that handles its events has dispatched them, and run the tasks that became ready.
  pub finish-dispatched :
      (events : List Pollfd) (m : Mux W R) (w : World W R) (n : ℕ) (m' : Mux W R) (w' : World W R)
      → finish P events m w ≡ handled n m' w'
      → (w₁ : World W R) × (ready : List (Op W R)) × (dispatch P events m w []
          ≡ dispatched m' w₁ ready)
        × (w' ≡ run_ready P ready w₁)
  unfolding finish
  finish-dispatched events m w n m' w' e = go (dispatch P events m w []) refl
    where
      go :
          (r : Dispatched W R)
          → dispatch P events m w [] ≡ r
          → (w₁ : World W R) × (ready : List (Op W R)) × (dispatch P events m w []
              ≡ dispatched m' w₁ ready)
            × (w' ≡ run_ready P ready w₁)
      go (dispatched m₁ w₁ ready) h = (w₁, ready, ground arith, ground arith)
      go (threw x m₁ w₁ ready) h = absurd (ground arith)
      go undefined h = absurd (ground arith)

  pub wait_for-dispatched :
      (interval : ℤ) (now : ℕ) (replies : List Reply)
      (others : Mux W R → World W R → Mux W R × World W R) (m : Mux W R) (w : World W R) (n : ℕ)
      (m' : Mux W R) (w' : World W R)
      → wait_for P interval now replies others m w ≡ handled n m' w'
      → (events : List Pollfd) × (poll_ P.interrupted (copy_active m.list) interval now replies
          ≡ returned events)
        × (finish P events (others m w).0 (others m w).1 ≡ handled n m' w')
  unfolding wait_for
  wait_for-dispatched interval now replies others m w n m' w' e =
      go (poll_ P.interrupted (copy_active m.list) interval now replies) refl
    where
      go :
          (r : Polled)
          → poll_ P.interrupted (copy_active m.list) interval now replies ≡ r
          → (events : List Pollfd) × (poll_ P.interrupted (copy_active m.list) interval now replies
              ≡ returned events)
            × (finish P events (others m w).0 (others m w).1 ≡ handled n m' w')
      go waiting h = absurd (ground arith)
      go (thrown x) h = absurd (ground arith)
      go (returned events) h = (events, h, ground arith)

  serve-Kept :
      (interval : ℤ) (now : ℕ) (replies : List Reply)
      (others : Mux W R → World W R → Mux W R × World W R) (m : Mux W R) (w : World W R) (n : ℕ)
      (m' : Mux W R) (w' : World W R)
      → Sound m
      → Kept m (others m w).0
      → wait_for P interval now replies others m w ≡ handled n m' w'
      → Kept m m'
  serve-Kept interval now replies others m w n m' w' k (k₁, keeps) e =
      let (events, polled, rest) = wait_for-dispatched interval now replies others m w n m' w' e in
      let (w₁, ready, h, ran) =
        finish-dispatched events (others m w).0 (others m w).1 n m' w' rest in
      let fds =
        polled-fds IsDescriptor P.interrupted interval now replies m.list events k.fds polled in
      let (k', keeps') =
        dispatch-Kept P events (others m w).0 (others m w).1 [] m' w₁ ready fds h k₁ in
      (k', λ fd b. keeps' fd (keeps fd b))

  Run-Kept : {m m' : Mux W R} {w w' : World W R} → Run P m w m' w' → Sound m → Kept m m'
  Run-Kept done k = (k, λ fd b. b)
  Run-Kept (change w₂ r) k = Run-Kept r k
  Run-Kept (launch {m₁ = m₁} {m₃ = m₃} {w₁ = w₁} {w₃ = w₃} op op' m₂ r is c s) k =
      let (k₁, keeps) = Run-Kept r k in
      let (k', keeps') = submit-Kept P op m₁ w₁ op' m₂ m₃ w₃ is c s k₁ in
      (k', λ fd b. keeps' fd (keeps fd b))
  Run-Kept (serve {m₁ = m₁} {m₃ = m₃} {w₁ = w₁} {w₃ = w₃} interval now replies n others r o e) k =
      let (k₁, keeps) = Run-Kept r k in
      let (k', keeps') =
        serve-Kept interval now replies others m₁ w₁ n m₃ w₃ k₁ (Run-Kept o k₁) e in
      (k', λ fd b. keeps' fd (keeps fd b))

  empty-Sound : Sound (no_descriptors {W = W} {R = R})
  empty-Sound = record {
    armed = record { sorted = tt; at = λ i d e. absurd (ground arith) };
    backed = tt;
    fds = tt;
  }

  -- From a multiplexer with no descriptors, after any run of operations that are connected and at once
  -- started, on descriptors that are not negative, and of polls that throw nothing and during which
  -- other threads do such runs, the list that the next `poll` gets asks for POLLIN where readers wait,
  -- and for POLLOUT where writers wait.
  pub Run-asked :
      (m : Mux W R) (w w' : World W R) (i : ℕ) (d : Demultiplexer W R)
      → Run P no_descriptors w m w'
      → get_elem? m.demux i ≡ some d
      → ArmedAt (interest (pos i) (copy_active m.list)) d
  Run-asked m w w' i d r there =
      let k = (Run-Kept r empty-Sound).0 in
      rw (copy_active-interest m.list (pos i) k.armed.sorted).1 (k.armed.at i d there)

  -- After such a run, `wait_for` reads no null pointer and nothing past the end, whatever the kernel
  -- answers, and whatever such run the other threads do while `poll` waits.
  pub Run-defined :
      (m : Mux W R) (w₀ w : World W R) (interval : ℤ) (now : ℕ) (replies : List Reply)
      (others : Mux W R → World W R → Mux W R × World W R)
      → Run P no_descriptors w₀ m w
      → Run P m w (others m w).0 (others m w).1
      → wait_for P interval now replies others m w ≢ crashed
  unfolding wait_for
  Run-defined m w₀ w interval now replies others r o =
      go (poll_ P.interrupted (copy_active m.list) interval now replies) refl
    where
      k : Sound m
      k = (Run-Kept r empty-Sound).0

      go :
          (x : Polled)
          → poll_ P.interrupted (copy_active m.list) interval now replies ≡ x
          → wait_for P interval now replies others m w ≢ crashed
      go waiting e = λ u. ground arith
      go (thrown x) e = λ u. ground arith
      go (returned events) e =
          let old =
            polled-fds (BackedAt m.demux) P.interrupted interval now replies m.list events k.backed
              e in
          let backed = All-imp events (λ p. (Run-Kept o k).1 p.fd) old in
          λ u. finish-defined P events (others m w).0 (others m w).1 backed (rw (e, wait_for) at u)
