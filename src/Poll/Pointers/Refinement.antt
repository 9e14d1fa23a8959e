-- ===== src/Poll/Pointers/Refinement.antt =====
-- The pointers of the queues follow the lists of Poll.Wait.
use async_berkeley.Base.{
  ℕ, ◌<◌, ◌≡◌, refl, sym, ◌∙◌, Bool, true, false, ◌&&◌, some, List, [], ◌∷◌, map, arith, ◌==◌,
  if◌then◌else◌, Bool-cases, inl, inr, ◌⊎◌, ==_iff, ==_refl, get_elem?, get_elem?-set, length,
  length-set, lt_of_get_elem?, some_inj,
}
use async_berkeley.Queue.{Addr, Heap}
use async_berkeley.Queue.Contents.{Returns, Returns-resume}
use async_berkeley.Queue.Family.{Lists, Holds}
use async_berkeley.Poll.Flags.{Pollfd, wakes_writers, wakes_readers}
use async_berkeley.Poll.Mux.{Platform, Op, Demultiplexer, Mux, World, to_size}
use async_berkeley.Poll.Wait.{kept, dispatched, dispatch}
use async_berkeley.Poll.Steps.{Handled, after, dispatch-cons, handle_event-Handled}
use async_berkeley.Poll.Pointers.{
  Places, sentinels, dispatch_queues, move_queues, moved_lists, move_queues-Holds, Matches,
  moved_lists-ready, moved_lists-read, moved_lists-write,
}

emptied :
    {A : Type 0} (at : A → Addr) (i : ℕ) (b : Bool) (xs : List Addr) (queue : List A)
    → xs ≡ map at queue
    → (if (i == i) && b then [] else xs) ≡ map at (if b then [] else queue)
emptied at i true xs queue e = rw (==_refl i) refl
emptied at i false xs queue e = rw (==_refl i) e

module _ {W R : Type 0} (p : Places) (at : Op W R → Addr) where
  Matches-step :
      (event : Pollfd) (c : Lists) (m m' : Mux W R) (done done' : List (Op W R))
      → Handled event m done m' done'
      → Matches p at c m done
      → Matches p at (moved_lists p event.revents (to_size event.fd) c) m' done'
  unfolding kept
  Matches-step event c m m' done done' h k = record {
    reads = λ i d there. reads i d (rw h.state at there) (Bool-cases (n == i));
    writes = λ i d there. writes i d (rw h.state at there) (Bool-cases (n == i));
    ready = rw h.woke (
        moved_lists-ready p at event.revents n c h.at done (k.reads n h.at h.found)
          (k.writes n h.at h.found) k.ready);
  }
    where
      n : ℕ
      n = to_size event.fd

      slot :
          (i : ℕ)
          → get_elem? (after event h.at m).demux i
            ≡ (if n == i then some (kept event.revents h.at) else get_elem? m.demux i)
      slot i = get_elem?-set m.demux n i h.at (kept event.revents h.at) h.found

      reads :
          (i : ℕ) (d : Demultiplexer W R)
          → get_elem? (after event h.at m).demux i ≡ some d
          → ((n == i) ≡ true) ⊎ ((n == i) ≡ false)
          → moved_lists p event.revents n c (p.read_at i) ≡ map at d.read_queue
      reads i d there (inl same) =
          let is_at : kept event.revents h.at ≡ d = some_inj (ground (arith, slot i)) in
          let there' : i ≡ n = sym ((==_iff n i).0 same) in
          moved_lists-read p at event.revents n i c
          ∙ rw (there', sym is_at)
              (emptied at n (wakes_readers event.revents) (c (p.read_at n)) h.at.read_queue
                (k.reads n h.at h.found))
      reads i d there (inr other) =
          let old : get_elem? m.demux i ≡ some d = ground (arith, slot i) in
          let apart : (i == n) ≡ false = ground arith in
          moved_lists-read p at event.revents n i c ∙ rw apart (k.reads i d old)

      writes :
          (i : ℕ) (d : Demultiplexer W R)
          → get_elem? (after event h.at m).demux i ≡ some d
          → ((n == i) ≡ true) ⊎ ((n == i) ≡ false)
          → moved_lists p event.revents n c (p.write_at i) ≡ map at d.write_queue
      writes i d there (inl same) =
          let is_at : kept event.revents h.at ≡ d = some_inj (ground (arith, slot i)) in
          let there' : i ≡ n = sym ((==_iff n i).0 same) in
          moved_lists-write p at event.revents n i c
          ∙ rw (there', sym is_at)
              (emptied at n (wakes_writers event.revents) (c (p.write_at n)) h.at.write_queue
                (k.writes n h.at h.found))
      writes i d there (inr other) =
          let old : get_elem? m.demux i ≡ some d = ground (arith, slot i) in
          let apart : (i == n) ≡ false = ground arith in
          moved_lists-write p at event.revents n i c ∙ rw apart (k.writes i d old)

  -- A dispatch that ends well: the pointer code, run on a heap that holds the queues, runs without
  -- dereferencing null, and afterwards the heap holds the queues of the new state, the ready queue
  -- with the tasks in the order of `dispatch`.
  pub dispatch_queues-Matches :
      (P : Platform W) (events : List Pollfd) (h : Heap) (c : Lists) (m m' : Mux W R)
      (w w' : World W R) (done done' : List (Op W R))
      → dispatch P events m w done ≡ dispatched m' w' done'
      → Holds h (sentinels p (length m.demux)) c
      → Matches p at c m done
      → Returns (dispatch_queues p events h) (λ _ g.
        (c' : Lists) × Holds g (sentinels p (length m'.demux)) c' × Matches p at c' m' done')
  unfolding dispatch dispatch_queues
  dispatch_queues-Matches P [] h c m m' w w' done done' e k match =
      let same : m ≡ m' = ground arith in
      let same_done : done ≡ done' = ground arith in
      (c, rw same at k, rw (same, same_done) at match)
  dispatch_queues-Matches P (event ∷ events) h c m m' w w' done done' e k match =
      let (m₁, w₁, done₁, first, others) = dispatch-cons P event events m w done m' w' done' e in
      let here = handle_event-Handled P event m w done m₁ w₁ done₁ first in
      let n = to_size event.fd in
      let small : n < length m.demux = lt_of_get_elem? m.demux n here.at here.found in
      let size : length m₁.demux ≡ length m.demux =
        rw here.state (length-set m.demux n (kept event.revents here.at)) in
      Returns-resume _ _ (move_queues p event.revents n h) _
        (move_queues-Holds p event.revents n (length m.demux) h c small k)
        (λ u g j.
          dispatch_queues-Matches P events g (moved_lists p event.revents n c) m₁ m' w₁ w' done₁
            done' others (rw size j) (Matches-step event c m m₁ done done₁ here match))
