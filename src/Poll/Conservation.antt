-- ===== src/Poll/Conservation.antt =====
-- No task is lost or copied: what becomes ready leaves the queues, and nothing else does.
use async_berkeley.Base.{
  ℕ, ◌+◌, ◌≡◌, refl, Bool, some, List, [], ◌∷◌, ◌++◌, arith, zero, suc, Bool-cases, inl, inr,
  get_elem?, set, if◌then◌else◌, All,
}
use async_berkeley.Poll.Flags.{Flags, Pollfd, wakes_writers, wakes_readers}
use async_berkeley.Poll.Mux.{Platform, Op, Demultiplexer, Mux, World, to_size}
use async_berkeley.Poll.Wait.{dispatched, woken, kept, dispatch}
use async_berkeley.Poll.Steps.{dispatch_rule}

All-Unit : {A : Type 0} (xs : List A) → All (λ x. Unit {0}) xs
All-Unit [] = tt
All-Unit (x ∷ xs) = (tt, All-Unit xs)

module _ {W R : Type 0} (p : Op W R → Bool) where
  -- How many of the tasks pass a test.
  unfoldable pub tally : List (Op W R) → ℕ
  tally [] = 0
  tally (x ∷ xs) = (if p x then 1 else 0) + tally xs

  unfoldable pub pending : List (Demultiplexer W R) → ℕ
  pending [] = 0
  pending (d ∷ ds) = tally d.read_queue + tally d.write_queue + pending ds

  tally-append : (xs ys : List (Op W R)) → tally (xs ++ ys) ≡ tally xs + tally ys
  unfolding tally
  tally-append [] ys = omega arith
  tally-append (x ∷ xs) ys = omega (arith, tally-append xs ys)

  tally-kept :
      (r : Flags) (d : Demultiplexer W R)
      → tally (kept r d).read_queue + tally (kept r d).write_queue + tally (woken r d)
        ≡ tally d.read_queue + tally d.write_queue
  unfolding tally kept woken
  tally-kept r d = elim (Bool-cases (wakes_readers r)) [
    | inl rs ↦ elim (Bool-cases (wakes_writers r)) [
      | inl ws ↦ rw (rs, ws, woken, tally-append d.write_queue d.read_queue) (omega arith)
      | inr ws ↦ rw (rs, ws, woken) (omega arith)
    ]
    | inr rs ↦ elim (Bool-cases (wakes_writers r)) [
      | inl ws ↦ rw (rs, ws, woken, tally-append d.write_queue []) (omega arith)
      | inr ws ↦ rw (rs, ws, woken) (omega arith)
    ]
  ]

  pending-set :
      (ds : List (Demultiplexer W R)) (i : ℕ) (d e : Demultiplexer W R)
      → get_elem? ds i ≡ some d
      → pending (set ds i e) + tally d.read_queue + tally d.write_queue
        ≡ pending ds + tally e.read_queue + tally e.write_queue
  unfolding pending
  pending-set [] i d e h = absurd (ground arith)
  pending-set (x ∷ xs) zero d e h = let same : x ≡ d = ground arith in rw same (omega arith)
  pending-set (x ∷ xs) (suc i) d e h = omega (arith, pending-set xs i d e h)

  -- Whatever test is counted by, the tasks in the queues and the ready ones together are as many after
  -- a dispatch as before.
  pub dispatch-tally :
      (P : Platform W) (events : List Pollfd) (m : Mux W R) (w : World W R) (ready : List (Op W R))
      (m' : Mux W R) (w' : World W R) (ready' : List (Op W R))
      → dispatch P events m w ready ≡ dispatched m' w' ready'
      → pending m'.demux + tally ready' ≡ pending m.demux + tally ready
  dispatch-tally P events m w ready m' w' ready' e =
      dispatch_rule P (λ x. Unit {0})
        (λ x r. pending x.demux + tally r ≡ pending m.demux + tally ready)
        (λ event x r x' r' _ h b.
          let set_lem =
            pending-set x.demux (to_size event.fd) h.at (kept event.revents h.at) h.found in
          rw (h.state, h.woke)
            (omega (
              arith,
              set_lem,
              tally-kept event.revents h.at,
              tally-append r (woken event.revents h.at),
            )))
        events m w ready m' w' ready' (All-Unit events) e refl
