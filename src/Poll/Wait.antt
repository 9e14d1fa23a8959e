-- ===== src/Poll/Wait.antt =====
-- `prepare_handles`, `set_error` and `wait_for` of
-- include/io/execution/impl/poll_multiplexer_impl.hpp.
use async_berkeley.Base.{
  ℕ, ◌&&◌, not, Option, none, some, List, [], ◌∷◌, ◌++◌, ℤ, pos, int_eq, if◌then◌else◌, length,
  get_elem?, set,
}
use async_berkeley.Poll.Flags.{Flags, Pollfd, is_broken, wakes_writers, wakes_readers}
use async_berkeley.Poll.Interest.{copy_active, clear_event}
use async_berkeley.Poll.Syscall.{Reply, returned, thrown, waiting, poll_}
use async_berkeley.Poll.Mux.{Platform, Op, Demultiplexer, Mux, World, with_error, complete, to_size}

-- `undefined` is a read through a null pointer or past the end. An exception of `getsockopt` unwinds
-- `wait_for`: the tasks that are ready by then, which are listed, go with its local queue.
pub data Dispatched (W R : Type 0) : Type 0 where
  dispatched : Mux W R → World W R → List (Op W R) → Dispatched W R
  threw : ℤ → Mux W R → World W R → List (Op W R) → Dispatched W R
  undefined : Dispatched W R

pub data Waited (W R : Type 0) : Type 0 where
  handled : ℕ → Mux W R → World W R → Waited W R
  failed : ℤ → Mux W R → World W R → Waited W R
  blocked : Waited W R
  crashed : Waited W R

module _ {W : Type 0} (P : Platform W) where
  -- The value that is set on the socket, or the error that is thrown.
  unfoldable pub handle_getsockopt_error : ℤ → Option ℤ
  handle_getsockopt_error error =
      if not (int_eq error P.bad_file_descriptor) && not (int_eq error P.not_a_socket)
      then none
      else some error

module _ {W R : Type 0} where
  -- The two moves at the end of `prepare_handles`: the ready tasks, and what stays.
  unfoldable pub woken : Flags → Demultiplexer W R → List (Op W R)
  woken r d =
      (if wakes_writers r then d.write_queue else [])
      ++ (if wakes_readers r then d.read_queue else [])

  unfoldable pub kept : Flags → Demultiplexer W R → Demultiplexer W R
  kept r d = record d {
    write_queue = if wakes_writers r then [] else d.write_queue;
    read_queue = if wakes_readers r then [] else d.read_queue;
  }

  module _ (P : Platform W) where
    -- `set_error`: what `getsockopt` says of the socket is set on its handle, or thrown.
    unfoldable pub set_socket_error : ℕ → World W R → Option ℤ × World W R
    unfolding handle_getsockopt_error with_error
    set_socket_error s w =
        let (ret, value, os) = P.so_error (w.native s) w.os in
        let w' : World W R = record w { os = os } in
        if int_eq ret (pos 0)
        then (none, with_error s value w')
        else elim (handle_getsockopt_error P (P.errno os)) [
          | none ↦ (some (P.errno os), w')
          | some e ↦ (none, with_error s e w')
        ]

    -- The two moves, for the demultiplexer at a position.
    unfoldable pub move_ready :
        Flags → ℕ → Demultiplexer W R → Mux W R → World W R → List (Op W R) → Dispatched W R
    unfolding woken kept
    move_ready revents i d m w ready =
        dispatched (record m { demux = set m.demux i (kept revents d) }) w
          (ready ++ woken revents d)

    unfoldable pub prepare_handles :
        Flags → ℕ → Demultiplexer W R → Mux W R → World W R → List (Op W R) → Dispatched W R
    unfolding set_socket_error move_ready
    prepare_handles revents i d m w ready =
        if not (is_broken revents) then move_ready revents i d m w ready else elim d.socket [
          | none ↦ undefined
          | some s ↦
              let (error, w') = set_socket_error s w in
              elim error [ some e ↦ threw e m w' ready | none ↦ move_ready revents i d m w' ready ]
        ]

    -- One round of the loop of `wait_for`.
    unfoldable pub handle_event : Pollfd → Mux W R → World W R → List (Op W R) → Dispatched W R
    unfolding prepare_handles
    handle_event event m w ready =
        let m' : Mux W R = record m { list = clear_event event m.list } in
        elim (get_elem? m.demux (to_size event.fd)) [
          | none ↦ undefined
          | some d ↦ prepare_handles event.revents (to_size event.fd) d m' w ready
        ]

    unfoldable pub dispatch : List Pollfd → Mux W R → World W R → List (Op W R) → Dispatched W R
    dispatch [] m w ready = dispatched m w ready
    dispatch (event ∷ events) m w ready = elim (handle_event event m w ready) [
      | dispatched m' w' ready' ↦ dispatch events m' w' ready'
      | threw e m' w' ready' ↦ threw e m' w' ready'
      | undefined ↦ undefined
    ]

    -- `run_queue` on the list of the queue's tasks.
    unfoldable pub run_ready : List (Op W R) → World W R → World W R
    run_ready [] w = w
    run_ready (op ∷ ops) w = run_ready ops (complete P op w)

    -- The second critical section, and what follows it.
    unfoldable pub finish : List Pollfd → Mux W R → World W R → Waited W R
    unfolding dispatch run_ready
    finish events m w = elim (dispatch events m w []) [
      | dispatched m' w' ready ↦ handled (length events) m' (run_ready ready w')
      | threw e m' w' ready ↦ failed e m' w'
      | undefined ↦ crashed
    ]

    -- `others` is what other threads do while `poll` waits and the lock is free.
    unfoldable pub wait_for :
        ℤ
        → ℕ
        → List Reply
        → (Mux W R → World W R → Mux W R × World W R)
        → Mux W R
        → World W R
        → Waited W R
    unfolding finish copy_active poll_
    wait_for interval now replies others m w =
        elim (poll_ P.interrupted (copy_active m.list) interval now replies) [
          | waiting ↦ blocked
          | thrown e ↦ failed e (others m w).0 (others m w).1
          | returned events ↦ finish events (others m w).0 (others m w).1
        ]
