-- ===== src/Poll/Examples.antt =====
-- A multiplexer with one reader, and the theorems at it.
use async_berkeley.Base.{
  ℕ, ◌+◌, ◌++◌, ◌^◌, ◌≡◌, refl, Bool, true, false, none, some, List, [], ◌∷◌, map, arith, pos,
  int_eq, int_lt, get_elem?,
}
use async_berkeley.Poll.Flags.{
  Flags, Pollfd, no_flags, flags_or, any_flag, wakes_readers, wakes_writers,
}
use async_berkeley.Poll.Interest.{
  read, copy_active, update_or_insert_event, clear_event, Sorted, interest, make_poll_event,
}
use async_berkeley.Poll.Order.{update_or_insert_lem, clear_event-interest}
use async_berkeley.Poll.Syscall.{ready, failed, returned, poll_, next_timeout, remaining_duration}
use async_berkeley.Poll.Timeout.{remaining_duration_lem}
use async_berkeley.Poll.Mux.{
  Platform, Op, Demultiplexer, Mux, World, set_value, connected, connect, complete, start,
  is_failing, no_demux,
}
use async_berkeley.Poll.Wait.{dispatched, threw, handled, dispatch, handle_event, wait_for}
use async_berkeley.Poll.Wakeups.{Armed}
use async_berkeley.Poll.Arming.{submit-Armed}
use async_berkeley.Poll.Races.{throw-interest}
use async_berkeley.Poll.Safety.{Backed}
use async_berkeley.Poll.Conservation.{tally, pending, dispatch-tally}
use async_berkeley.Poll.Delivery.{submitted-served}
use async_berkeley.Poll.Completion.{receiver_of}

-- The state of the operating system is the answer to `getsockopt`.
abbrev pub linux : Platform ℕ
linux = record {
  would_block = pos 11;
  interrupted = pos 4;
  bad_file_descriptor = pos 9;
  not_a_socket = pos 88;
  max_size = 2 ^ 40;
  errno = λ w. pos 12;
  so_error = λ fd w. (pos w, pos 104, w);
}

abbrev pub world : World ℕ ℕ
world = record { native = λ s. pos (s + 1); errors = λ s. pos 0; os = 0; signals = [] }

abbrev pub reader : Op ℕ ℕ
reader = record { receiver = 7; func = λ w. (some 5, w); socket = 0; demux = none; trigger = read }

abbrev pub reader' : Op ℕ ℕ
reader' = record reader { demux = some 1 }

abbrev pub in_flag : Flags
in_flag = record no_flags { pollin = true }

abbrev hup_flag : Flags
hup_flag = record no_flags { pollhup = true }

abbrev err_flag : Flags
err_flag = record no_flags { pollerr = true }

abbrev pub event : Flags → Pollfd
event f = record { fd = pos 1; events = in_flag; revents = f }

abbrev pub entry : Flags → Pollfd
entry f = record { fd = pos 1; events = f; revents = no_flags }

abbrev empty : Mux ℕ ℕ
empty = record { demux = []; list = [] }

-- After `connect`.
abbrev pub registered : Mux ℕ ℕ
registered = record { demux = no_demux ∷ no_demux ∷ []; list = entry in_flag ∷ [] }

abbrev pub with_queue : List (Op ℕ ℕ) → Flags → Mux ℕ ℕ
with_queue ops f = record {
  demux = no_demux ∷ record { read_queue = ops; write_queue = []; socket = some 0 } ∷ [];
  list = entry f ∷ [];
}

-- After `start`.
abbrev pub queued : Mux ℕ ℕ
queued = with_queue (reader' ∷ []) in_flag

-- After the event.
abbrev pub served : Mux ℕ ℕ
served = with_queue [] no_flags

pub connects : connect linux reader empty world ≡ connected reader' registered
unfolding connect is_failing int_eq update_or_insert_event make_poll_event
connects = refl

pub starts : start linux reader' registered world ≡ some (queued, world)
unfolding start is_failing int_eq
starts = refl

pub serves :
    dispatch linux (event in_flag ∷ []) queued world [] ≡ dispatched served world (reader' ∷ [])
unfolding dispatch handle_event clear_event int_eq int_lt wakes_readers wakes_writers
serves = refl

abbrev no_sockopt : World ℕ ℕ
no_sockopt = record world { os = 1 }

throws :
    handle_event linux (event err_flag) queued no_sockopt []
    ≡ threw (pos 12) (with_queue (reader' ∷ []) no_flags) no_sockopt []
unfolding handle_event clear_event int_eq int_lt wakes_readers wakes_writers
throws = refl

-- The whole call: the reader gets its value.
waits :
    wait_for linux
      (pos 10)
      0
      ((λ t. failed (pos 4) 1000) ∷ (λ t. ready (λ fd. in_flag)) ∷ [])
      (λ m w. (m, w))
      queued
      world
    ≡ handled 1 served (record world { signals = set_value 7 5 ∷ [] })
unfolding wait_for poll_ next_timeout remaining_duration clear_event int_eq int_lt wakes_readers
    wakes_writers handle_event complete
waits = refl

abbrev every : Op ℕ ℕ → Bool
every op = true

empty-Armed : Armed empty
empty-Armed = record { sorted = tt; at = λ i d e. absurd (ground arith) }

queued-Armed : Armed queued
queued-Armed =
    submit-Armed linux reader empty world reader' registered queued world (1, refl, omega arith)
      connects starts empty-Armed

queued-Backed : Backed queued
queued-Backed = (
  record {
    slot = record { read_queue = reader' ∷ []; write_queue = []; socket = some 0 };
    socket_of = 0;
    found = refl;
    known = refl;
  },
  tt,
)

dispatch-tally_example :
    pending every served.demux + tally every (reader' ∷ [])
    ≡ pending every queued.demux + tally every []
dispatch-tally_example =
    dispatch-tally every linux (event in_flag ∷ []) queued world [] served world (reader' ∷ [])
      serves

fine : is_failing linux (world.errors 0) ≡ false
unfolding is_failing int_eq
fine = refl

throw-interest_example :
    ((with_queue (reader' ∷ []) no_flags).demux ≡ queued.demux)
    × (◌≡◌ {A = List (Op ℕ ℕ)} [] [])
    × (interest (pos 1) (with_queue (reader' ∷ []) no_flags).list ≡ no_flags)
throw-interest_example =
    throw-interest linux (event err_flag) 1 queued (with_queue (reader' ∷ []) no_flags) no_sockopt
      no_sockopt [] [] (pos 12) refl tt throws

update_or_insert_lem_example :
    let new = (update_or_insert_event queued.list (entry in_flag)).0 in
    Sorted new × (interest (pos 1) new ≡ flags_or in_flag in_flag)
unfolding int_eq
update_or_insert_lem_example = update_or_insert_lem queued.list (entry in_flag) (pos 1) tt

clear_event-interest_example :
    Sorted (clear_event (event in_flag) queued.list)
    × (interest (pos 1) (clear_event (event in_flag) queued.list) ≡ no_flags)
unfolding int_eq
clear_event-interest_example = clear_event-interest (event in_flag) queued.list (pos 1) tt

remaining_duration_lem_example : remaining_duration (pos 100) 5000000 35000001 ≡ (pos 70, 35000001)
remaining_duration_lem_example = remaining_duration_lem 100 5000000 35000001 (omega arith)

pub polls :
    poll_ (pos 4) (copy_active queued.list) (pos 10) 0 ((λ t. ready (λ fd. in_flag)) ∷ [])
    ≡ returned (event in_flag ∷ [])
unfolding poll_ copy_active int_eq any_flag
polls = refl

submitted-served_example :
    (d : Demultiplexer ℕ ℕ) × (m₃ : Mux ℕ ℕ) × (w₃ : World ℕ ℕ) × (get_elem? registered.demux 1
      ≡ some d)
    × (wait_for linux (pos 10) 0 ((λ t. ready (λ fd. in_flag)) ∷ []) (λ m w. (m, w)) queued world
        ≡ handled 1 m₃ w₃)
    × (map receiver_of w₃.signals ≡ map (λ (o : Op ℕ ℕ). o.receiver) d.read_queue ++ 7 ∷ [])
submitted-served_example =
    submitted-served linux reader reader' (event in_flag) empty registered queued world world
      (pos 10) 0 ((λ t. ready (λ fd. in_flag)) ∷ []) refl fine connects starts refl refl polls
