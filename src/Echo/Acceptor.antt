-- ===== src/Echo/Acceptor.antt =====
-- `acceptor` and `make_server` of examples/tcp_echo.cpp: the server with all its clients.
use async_berkeley.Base.{
  ℕ, Bool, true, false, not, Option, none, some, List, [], ◌∷◌, ◌++◌, ℤ, pos, int_eq, get_elem?,
  set, length, if◌then◌else◌,
}
use async_berkeley.Echo.{Completion, stopped, Client, reader, on_completion}

-- What happens next: accept completes, with the memory of the new client, or with an error; or an
-- operation of the client of a number completes.
pub data Event : Type 0 where
  connects : (ℕ → ℕ) → Event
  refuses : Event
  completes : ℕ → Completion → Event

-- Whether an accept is pending, and the clients in the order in which they were accepted, the stopped
-- ones too.
pub record Server : Type 0 where
  pub accepting : Bool
  pub clients : List Client

abbrev pub fresh : (ℕ → ℕ) → Client
fresh memory = record { pending = stopped; memory = memory; sent = []; made = 0 }

unfoldable pub acceptor : Server → Server
acceptor s = record s { accepting = true }

-- make_server, with what setsockopt, bind and listen return; none is a std::system_error.
unfoldable pub make_server : ℤ → ℤ → ℤ → Option Server
unfolding acceptor
make_server reuse bound listening =
    if not (int_eq reuse (pos 0))
    then none
    else if not (int_eq bound (pos 0))
    then none
    else if not (int_eq listening (pos 0))
    then none
    else some (acceptor (record { accepting = false; clients = [] }))

-- `buffer_at` is where the allocator puts the buffers of a client; no two clients share memory.
module _ (buffer_at : ℕ → ℕ → ℕ) where
  -- The function that the result of accept is passed to, when no accept is pending any more.
  unfoldable pub on_connection : (ℕ → ℕ) → Server → Server
  unfolding reader acceptor
  on_connection memory s =
      let client = reader (buffer_at (length s.clients)) (fresh memory) in
      acceptor (record s { clients = s.clients ++ client ∷ [] })

  -- An accept, or an operation of a client, that is not pending does not complete.
  unfoldable pub on_event : Event → Server → Server
  unfolding on_connection on_completion
  on_event (connects memory) s =
      if s.accepting then on_connection memory (record s { accepting = false }) else s
  on_event refuses s = record s { accepting = false }
  on_event (completes i e) s = elim (get_elem? s.clients i) [
    | none ↦ s
    | some c ↦ record s { clients = set s.clients i (on_completion (buffer_at i) e c) }
  ]

  unfoldable pub run_events : List Event → Server → Server
  unfolding on_event
  run_events [] s = s
  run_events (e ∷ es) s = run_events es (on_event e s)
