-- ===== src/Poll/Delivery.antt =====
-- From the submission of an operation to its signal.
use async_berkeley.Base.{
  ℕ, ◌≡◌, refl, ◌∙◌, false, some, List, [], ◌∷◌, ◌++◌, append-nil, ℤ, arith, get_elem?,
  get_elem?-set, map, ==_refl, inl, inr,
}
use mathlib.Core.List.{map-append}
use async_berkeley.Poll.Flags.{Flags, Pollfd, is_broken, wakes_writers, wakes_readers}
use async_berkeley.Poll.Interest.{Trigger, read, write, eager, trigger_mask, copy_active}
use async_berkeley.Poll.Syscall.{Reply, returned, poll_}
use async_berkeley.Poll.Mux.{
  Platform, Op, Demultiplexer, Mux, World, connected, connect, start, enqueue, push_task, to_size,
  is_eager, is_failing,
}
use async_berkeley.Poll.Wait.{
  dispatched, handled, woken, move_ready, prepare_handles, handle_event, dispatch, finish,
  run_ready, wait_for,
}
use async_berkeley.Poll.Steps.{after}
use async_berkeley.Poll.Submit.{connect-cases}
use async_berkeley.Poll.Completion.{receiver_of, run_ready-signals}
use async_berkeley.Poll.Runs.{start-queued}

trigger_mask-whole : (t : Trigger) → is_broken (trigger_mask t) ≡ false
trigger_mask-whole read = refl
trigger_mask-whole write = refl
trigger_mask-whole eager = refl

module _ {W R : Type 0} where
  -- The queue of a trigger.
  abbrev pub queue_of : Trigger → Demultiplexer W R → List (Op W R)
  queue_of read d = d.read_queue
  queue_of write d = d.write_queue
  queue_of eager d = []

  woken-pushed :
      (t : Trigger) (op : Op W R) (d : Demultiplexer W R)
      → is_eager t ≡ false
      → woken (trigger_mask t) (record (push_task t op d) { socket = some op.socket })
        ≡ queue_of t d ++ op ∷ []
  unfolding woken wakes_writers wakes_readers
  woken-pushed read op d later = refl
  woken-pushed write op d later = append-nil (d.write_queue ++ op ∷ [])
  woken-pushed eager op d later = absurd (ground arith)

  woken-enqueue :
      (op : Op W R) (d : Demultiplexer W R)
      → is_eager op.trigger ≡ false
      → woken (trigger_mask op.trigger) (enqueue op d) ≡ queue_of op.trigger d ++ op ∷ []
  unfolding enqueue
  woken-enqueue op d later = woken-pushed op.trigger op d later

  module _ (P : Platform W) where
    handle_event-whole :
        (event : Pollfd) (d : Demultiplexer W R) (m : Mux W R) (w : World W R)
        (ready : List (Op W R))
        → get_elem? m.demux (to_size event.fd) ≡ some d
        → is_broken event.revents ≡ false
        → handle_event P event m w ready
          ≡ dispatched (after event d m) w (ready ++ woken event.revents d)
    unfolding handle_event prepare_handles move_ready
    handle_event-whole event d m w ready there whole =
        rw (there, handle_event, prepare_handles, whole) refl

    -- One event without an error, alone: its tasks complete, and nothing else does.
    finish-one :
        (event : Pollfd) (d : Demultiplexer W R) (m : Mux W R) (w : World W R)
        → get_elem? m.demux (to_size event.fd) ≡ some d
        → is_broken event.revents ≡ false
        → finish P (event ∷ []) m w
          ≡ handled 1 (after event d m) (run_ready P (woken event.revents d) w)
    unfolding finish dispatch
    finish-one event d m w there whole =
        rw (finish, dispatch, handle_event-whole event d m w [] there whole, dispatch) refl

    wait_for-returned :
        (interval : ℤ) (now : ℕ) (replies : List Reply) (m : Mux W R) (w : World W R)
        (events : List Pollfd)
        → poll_ P.interrupted (copy_active m.list) interval now replies ≡ returned events
        → wait_for P interval now replies (λ m' w'. (m', w')) m w ≡ finish P events m w
    unfolding wait_for
    wait_for-returned interval now replies m w events polled = rw (polled, wait_for) refl

    woken-signals :
        (op : Op W R) (revents : Flags) (d : Demultiplexer W R) (w : World W R)
        → is_eager op.trigger ≡ false
        → revents ≡ trigger_mask op.trigger
        → map receiver_of (run_ready P (woken revents (enqueue op d)) w).signals
          ≡ map receiver_of w.signals
            ++ (map (λ o. o.receiver) (queue_of op.trigger d) ++ op.receiver ∷ [])
    woken-signals op revents d w waits mask =
        run_ready-signals P (woken revents (enqueue op d)) w
        ∙ rw (mask, woken-enqueue op d waits, map-append) refl

    -- An operation that waits for reading or for writing and is connected and at once started completes
    -- in a wait_for that follows, undisturbed by other threads, and in which poll reports just its
    -- event: the receivers of the tasks of its queue have one signal each, in order, and then its own.
    pub submitted-served :
        (op op' : Op W R) (event : Pollfd) (m m₁ m₂ : Mux W R) (w w₂ : World W R) (interval : ℤ)
        (now : ℕ) (replies : List Reply)
        → is_eager op.trigger ≡ false
        → is_failing P (w.errors op.socket) ≡ false
        → connect P op m w ≡ connected op' m₁
        → start P op' m₁ w ≡ some (m₂, w₂)
        → event.fd ≡ w.native op.socket
        → event.revents ≡ trigger_mask op.trigger
        → poll_ P.interrupted (copy_active m₂.list) interval now replies ≡ returned (event ∷ [])
        → (d : Demultiplexer W R) × (m₃ : Mux W R) × (w₃ : World W R) × (get_elem? m₁.demux
              (to_size event.fd)
            ≡ some d)
          × (wait_for P interval now replies (λ m' w'. (m', w')) m₂ w₂ ≡ handled 1 m₃ w₃)
          × (map receiver_of w₃.signals
              ≡ map receiver_of w.signals
                ++ (map (λ o. o.receiver) (queue_of op.trigger d) ++ op.receiver ∷ []))
    submitted-served op op' event m m₁ m₂ w w₂ interval now replies waits fine c s fd mask polled =
        elim (connect-cases P op m w op' m₁ c) [
          | inl (_, _, now_done) ↦ absurd (ground arith)
          | inr (r, later) ↦
              let i = to_size (w.native op.socket) in
              let placed : Op W R = record op { demux = some i } in
              let (d, there, state, world) =
                start-queued P placed i m₁ w m₂ w₂ later refl (rw r.op_state at s) in
              let queued : get_elem? m₂.demux (to_size event.fd) ≡ some (enqueue placed d) =
                rw (state, fd)
                  (get_elem?-set m₁.demux i i d (enqueue placed d) there ∙ rw (==_refl i) refl) in
              let whole : is_broken event.revents ≡ false =
                rw mask (trigger_mask-whole op.trigger) in
              (
                d,
                after event (enqueue placed d) m₂,
                run_ready P (woken event.revents (enqueue placed d)) w₂,
                rw fd there,
                wait_for-returned interval now replies m₂ w₂ (event ∷ []) polled
                    ∙ finish-one event (enqueue placed d) m₂ w₂ queued whole,
                rw world (woken-signals placed event.revents d w waits mask),
              )
        ]
