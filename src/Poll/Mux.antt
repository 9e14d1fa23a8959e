-- ===== src/Poll/Mux.antt =====
-- The class `basic_poll_multiplexer` of include/io/execution/poll_multiplexer.hpp and its operations
-- in include/io/execution/impl/poll_multiplexer_impl.hpp. A queue is the list of its tasks, as
-- Queue.Contents and Queue.Drain justify; a socket handle is named by a number.
use async_berkeley.Base.{
  ℕ, zero, suc, ◌+◌, ◌-◌, ◌%◌, ◌^◌, Bool, true, false, ◌&&◌, ◌||◌, not, Option, none, some, List,
  [], ◌∷◌, ◌++◌, ℤ, pos, negsuc, int_eq, ltb, ◌==◌, if◌then◌else◌, length, get_elem?, set,
  replicate,
}
use async_berkeley.Poll.Flags.{Pollfd}
use async_berkeley.Poll.Interest.{
  Trigger, read, write, eager, update_or_insert_event, make_poll_event,
}

-- What the program takes from the operating system, over a type `W` of its states: error numbers,
-- the limit of `std::deque`, `errno`, and `getsockopt(fd, SOL_SOCKET, SO_ERROR)` with its return
-- value and the option's value.
pub record Platform (W : Type 0) : Type 0 where
  pub would_block : ℤ
  pub interrupted : ℤ
  pub bad_file_descriptor : ℤ
  pub not_a_socket : ℤ
  pub max_size : ℕ
  pub errno : W → ℤ
  pub so_error : ℤ → W → ℤ × ℤ × W

-- `sender`, and `state` once it is connected: `demux` is then the position of its demultiplexer.
pub record Op (W R : Type 0) : Type 0 where
  pub receiver : ℕ
  pub func : W → Option R × W
  pub socket : ℕ
  pub demux : Option ℕ
  pub trigger : Trigger

pub record Demultiplexer (W R : Type 0) : Type 0 where
  pub read_queue : List (Op W R)
  pub write_queue : List (Op W R)
  pub socket : Option ℕ

pub record Mux (W R : Type 0) : Type 0 where
  pub demux : List (Demultiplexer W R)
  pub list : List Pollfd

pub data Signal (R : Type 0) : Type 0 where
  set_value : ℕ → R → Signal R
  set_error : ℕ → ℤ → Signal R

-- The socket handles, the operating system, and the signals that the receivers have had.
pub record World (W R : Type 0) : Type 0 where
  pub native : ℕ → ℤ
  pub errors : ℕ → ℤ
  pub os : W
  pub signals : List (Signal R)

pub data Exception : Type 0 where
  out_of_range length_error : Exception

pub data Connected (W R : Type 0) : Type 0 where
  connected : Op W R → Mux W R → Connected W R
  rejected : Exception → Connected W R

-- The conversion of an `int` to std::size_t.
abbrev pub to_size : ℤ → ℕ
to_size (pos n) = n % 2 ^ 64
to_size (negsuc n) = 2 ^ 64 - 1 - n

abbrev pub add_one : ℤ → ℤ
add_one (pos n) = pos (n + 1)
add_one (negsuc zero) = pos 0
add_one (negsuc (suc n)) = negsuc n

abbrev pub is_eager : Trigger → Bool
is_eager read = false
is_eager write = false
is_eager eager = true

module _ {W : Type 0} (P : Platform W) where
  -- `error && error != std::errc::operation_would_block`
  unfoldable pub is_failing : ℤ → Bool
  is_failing e = not (int_eq e (pos 0)) && not (int_eq e P.would_block)

module _ {W R : Type 0} where
  abbrev pub no_demux : Demultiplexer W R
  no_demux = record { read_queue = []; write_queue = []; socket = none }

  -- socket_handle::set_error
  unfoldable pub with_error : ℕ → ℤ → World W R → World W R
  with_error s e w = record w { errors = λ t. if t == s then e else w.errors t }

  abbrev pub signal : Signal R → World W R → World W R
  signal x w = record w { signals = w.signals ++ x ∷ [] }

  abbrev pub push_task : Trigger → Op W R → Demultiplexer W R → Demultiplexer W R
  push_task write op d = record d { write_queue = d.write_queue ++ op ∷ [] }
  push_task read op d = record d { read_queue = d.read_queue ++ op ∷ [] }
  push_task eager op d = d

  -- What `start` does to the demultiplexer under the lock.
  unfoldable pub enqueue : Op W R → Demultiplexer W R → Demultiplexer W R
  enqueue op d = record (push_task op.trigger op d) { socket = some op.socket }

  -- std::deque::resize to a larger size.
  abbrev pub grow : ℕ → List (Demultiplexer W R) → List (Demultiplexer W R)
  grow n ds = ds ++ replicate (n - length ds) no_demux

  -- `demux->at(sockfd)`, the new event, and the operation's state.
  unfoldable pub place : Op W R → ℤ → List (Demultiplexer W R) → Mux W R → Connected W R
  place op sockfd ds m = elim (get_elem? ds (to_size sockfd)) [
    | none ↦ rejected out_of_range
    | some d ↦
        connected (record op { demux = some (to_size sockfd) })
          (record {
            demux = ds;
            list = (update_or_insert_event m.list (make_poll_event sockfd op.trigger)).0;
          })
  ]

  module _ (P : Platform W) where
    unfoldable pub complete : Op W R → World W R → World W R
    unfolding is_failing
    complete op w =
        let error = w.errors op.socket in
        if is_failing P error
        then signal (set_error op.receiver error) w
        else let (result, os) = op.func w.os in
          elim result [
            | some v ↦ signal (set_value op.receiver v) (record w { os = os })
            | none ↦ signal (set_error op.receiver (P.errno os)) (record w { os = os })
          ]

    -- `none` is a null `demux` that is read.
    unfoldable pub start : Op W R → Mux W R → World W R → Option (Mux W R × World W R)
    unfolding is_failing complete enqueue
    start op m w =
        if is_eager op.trigger || is_failing P (w.errors op.socket)
        then some (m, complete op w)
        else elim op.demux [
          | none ↦ none
          | some i ↦ elim (get_elem? m.demux i) [
            | none ↦ none
            | some d ↦ some (record m { demux = set m.demux i (enqueue op d) }, w)
          ]
        ]

    -- `demux->resize(sockfd + 1)` where the descriptor has no slot yet; `none` is a length error.
    unfoldable pub make_room : ℤ → List (Demultiplexer W R) → Option (List (Demultiplexer W R))
    make_room sockfd ds =
        let size = to_size (add_one sockfd) in
        if ltb (length ds) ((to_size sockfd + 1) % 2 ^ 64)
        then (if ltb P.max_size size then none else some (grow size ds))
        else some ds

    -- The part of `connect` under the lock, for the descriptor `sockfd`.
    unfoldable pub register : Op W R → ℤ → Mux W R → Connected W R
    unfolding make_room place
    register op sockfd m = elim (make_room sockfd m.demux) [
      | none ↦ rejected length_error
      | some ds ↦ place op sockfd ds m
    ]

    unfoldable pub connect : Op W R → Mux W R → World W R → Connected W R
    unfolding is_failing register
    connect op m w =
        if not (is_failing P (w.errors op.socket)) && not (is_eager op.trigger)
        then register op (w.native op.socket) m
        else connected (record op { demux = none }) m
