-- ===== src/Poll/Runs.antt =====
-- Runs of the multiplexer: operations that are connected and at once started, and polls during which
-- other threads run. A poll that throws is not in a run, as Poll.Races says what it loses.
pub mod Interleaved
pub mod Examples
use async_berkeley.Base.{
  ℕ, ◌≡◌, ◌≢◌, refl, sym, subst₂, ◌∙◌, false, ◌||◌, none, some, List, [], ◌∷◌, ℤ, arith, All,
  get_elem?, set, inl, inr, ◌⊎◌, Option-cases,
}
use async_berkeley.Poll.Flags.{Pollfd, any_flag}
use async_berkeley.Poll.Interest.{copy_active}
use async_berkeley.Poll.Syscall.{Reply, Polled, returned, thrown, waiting, poll_}
use async_berkeley.Poll.Mux.{
  Platform, Op, Demultiplexer, Mux, World, connected, connect, start, enqueue, to_size, is_eager,
  is_failing, complete,
}
use async_berkeley.Poll.Wait.{
  Dispatched, dispatched, threw, undefined, Waited, handled, crashed, dispatch, finish, run_ready,
  wait_for,
}
use async_berkeley.Poll.Steps.{Handled, after, dispatch_rule}
use async_berkeley.Poll.Submit.{Registered, connect-cases, start-cases}
use async_berkeley.Poll.Timeout.{poll_-All, copy_active-All}
use async_berkeley.Poll.Wakeups.{Armed, IsDescriptor, after-Armed, to_size-pos}
use async_berkeley.Poll.Arming.{submit-Armed}
use async_berkeley.Poll.Safety.{BackedAt, Backed, finish-defined, drop-flag}
use async_berkeley.Poll.Backing.{
  Keeps, All-imp, All-clear_event, after-Keeps, after-Backed, queued-Keeps, queued-own,
  Registered-Keeps, Registered-All,
}

module _ {W R : Type 0} where
  -- `change` is what the program and the system do to handles and to the system's state. `serve` is
  -- a poll: the second run is what other threads do while `poll` waits and the lock is free.
  pub data Run (P : Platform W) : Mux W R → World W R → Mux W R → World W R → Type 0 where
    done : {m : Mux W R} {w : World W R} → Run P m w m w
    change :
        {m m₁ : Mux W R} {w w₁ : World W R} (w₂ : World W R) → Run P m w m₁ w₁ → Run P m w m₁ w₂
    launch :
        {m m₁ m₃ : Mux W R} {w w₁ w₃ : World W R} (op op' : Op W R) (m₂ : Mux W R)
        → Run P m w m₁ w₁
        → IsDescriptor (w₁.native op.socket)
        → connect P op m₁ w₁ ≡ connected op' m₂
        → start P op' m₂ w₁ ≡ some (m₃, w₃)
        → Run P m w m₃ w₃
    serve :
        {m m₁ m₃ : Mux W R} {w w₁ w₃ : World W R} (interval : ℤ) (now : ℕ) (replies : List Reply)
        (n : ℕ) (others : Mux W R → World W R → Mux W R × World W R)
        → Run P m w m₁ w₁
        → Run P m₁ w₁ (others m₁ w₁).0 (others m₁ w₁).1
        → wait_for P interval now replies others m₁ w₁ ≡ handled n m₃ w₃
        → Run P m w m₃ w₃

  -- A multiplexer that was just made.
  abbrev pub no_descriptors : Mux W R
  no_descriptors = record { demux = []; list = [] }

  -- What every run keeps.
  pub record Sound (m : Mux W R) : Type 0 where
    pub armed : Armed m
    pub backed : Backed m
    pub fds : All (λ p. IsDescriptor p.fd) m.list

  abbrev pub Kept : Mux W R → Mux W R → Type 0
  Kept m m' = Sound m' × Keeps m m'

  module _ (P : Platform W) where
    -- An operation that is neither eager nor failing is queued at the demultiplexer that it names.
    pub start-queued :
        (op : Op W R) (i : ℕ) (m : Mux W R) (w : World W R) (m' : Mux W R) (w' : World W R)
        → (is_eager op.trigger || is_failing P (w.errors op.socket)) ≡ false
        → op.demux ≡ some i
        → start P op m w ≡ some (m', w')
        → (d : Demultiplexer W R) × (get_elem? m.demux i ≡ some d)
          × (m' ≡ record m { demux = set m.demux i (enqueue op d) })
          × (w' ≡ w)
    unfolding start
    start-queued op i m w m' w' later at_i e = elim (Option-cases (get_elem? m.demux i)) [
      | inl missing ↦ absurd (ground arith)
      | inr (d, there) ↦ (d, there, ground arith, ground arith)
    ]

    start-nowhere :
        (op : Op W R) (m : Mux W R) (w : World W R) (m' : Mux W R) (w' : World W R)
        → op.demux ≡ none
        → start P op m w ≡ some (m', w')
        → m' ≡ m
    start-nowhere op m w m' w' nowhere e = elim (start-cases P op m w m' w' e) [
      | inl (same, _) ↦ same
      | inr (i, d, at_i, there, state, world) ↦ absurd (ground arith)
    ]

    Registered-Backed :
        (op : Op W R) (fd : ℤ) (m : Mux W R) (op' : Op W R) (m₁ : Mux W R) (d : Demultiplexer W R)
        → Registered op fd m op' m₁
        → get_elem? m₁.demux (to_size fd) ≡ some d
        → Backed m
        → let m₂ = record m₁ { demux = set m₁.demux (to_size fd) (enqueue op' d) } in
          Backed m₂ × Keeps m m₂
    Registered-Backed op fd m op' m₁ d r there b =
        let m₂ : Mux W R = record m₁ { demux = set m₁.demux (to_size fd) (enqueue op' d) } in
        let keeps : Keeps m m₂ = λ k x.
          queued-Keeps op' (to_size fd) d m₁ there k (Registered-Keeps op fd m op' m₁ r k x) in
        (
          Registered-All (BackedAt m₂.demux) op fd m op' m₁ r (All-imp m.list (λ p. keeps p.fd) b)
              (queued-own op' fd d m₁ there),
          keeps,
        )

    submit-Backed :
        (op : Op W R) (m : Mux W R) (w : World W R) (op' : Op W R) (m₁ m₂ : Mux W R)
        (w₂ : World W R)
        → IsDescriptor (w.native op.socket)
        → connect P op m w ≡ connected op' m₁
        → start P op' m₁ w ≡ some (m₂, w₂)
        → Sound m
        → Backed m₂ × All (λ p. IsDescriptor p.fd) m₂.list × Keeps m m₂
    submit-Backed op m w op' m₁ m₂ w₂ is c s k = elim (connect-cases P op m w op' m₁ c) [
      | inl (same_op, same, _) ↦
          rw (start-nowhere op' m₁ w m₂ w₂ (ground arith) s, same) (k.backed, k.fds, λ fd b. b)
      | inr (r, later) ↦
          let fd = w.native op.socket in
          let (d, there, state, world) =
            start-queued op' (to_size fd) m₁ w m₂ w₂ (rw (r.op_state) later) (rw (r.op_state) refl)
              s in
          let (b, keeps) = Registered-Backed op fd m op' m₁ d r there k.backed in
          rw state (b, Registered-All IsDescriptor op fd m op' m₁ r k.fds is, keeps)
    ]

    pub submit-Kept :
        (op : Op W R) (m : Mux W R) (w : World W R) (op' : Op W R) (m₁ m₂ : Mux W R)
        (w₂ : World W R)
        → IsDescriptor (w.native op.socket)
        → connect P op m w ≡ connected op' m₁
        → start P op' m₁ w ≡ some (m₂, w₂)
        → Sound m
        → Kept m m₂
    submit-Kept op m w op' m₁ m₂ w₂ is c s k =
        let (backed, fds, keeps) = submit-Backed op m w op' m₁ m₂ w₂ is c s k in
        (
          record {
            armed = submit-Armed P op m w op' m₁ m₂ w₂ is c s k.armed;
            backed = backed;
            fds = fds;
          },
          keeps,
        )

    Handled-Kept :
        (event : Pollfd) (m₀ m : Mux W R) (ready : List (Op W R)) (m' : Mux W R)
        (ready' : List (Op W R))
        → IsDescriptor event.fd
        → Handled event m ready m' ready'
        → Kept m₀ m
        → Kept m₀ m'
    Handled-Kept event m₀ m ready m' ready' is h (k, keeps) =
        let at_n = to_size-pos event.fd is.0 is.1 is.2 in
        rw h.state (
          record {
            armed = after-Armed event is.0 h.at m is.1 at_n (rw at_n at h.found) k.armed;
            backed = after-Backed event h.at m h.found k.backed;
            fds = All-clear_event IsDescriptor event m.list k.fds;
          },
          λ fd b. after-Keeps event h.at m h.found fd (keeps fd b),
        )

    pub dispatch-Kept :
        (events : List Pollfd) (m : Mux W R) (w : World W R) (ready : List (Op W R)) (m' : Mux W R)
        (w' : World W R) (ready' : List (Op W R))
        → All (λ e. IsDescriptor e.fd) events
        → dispatch P events m w ready ≡ dispatched m' w' ready'
        → Sound m
        → Kept m m'
    dispatch-Kept events m w ready m' w' ready' good e k =
        dispatch_rule P (λ x. IsDescriptor x.fd) (λ x r. Kept m x)
          (λ event x r x' r' is h b. Handled-Kept event m x r x' r' is h b) events m w ready m' w'
          ready' good e (k, λ fd b. b)
