-- ===== src/Echo/Examples.antt =====
-- An echo of two bytes.
use async_berkeley.Base.{
  ℕ, ◌+◌, ◌*◌, some, true, pos, int_eq, get_elem?, List, ◌≡◌, ◌==◌, refl, [], ◌∷◌, ◌++◌, arith, map,
  replicate, if◌then◌else◌,
}
use async_berkeley.Socket.Message.{push_back_range}
use async_berkeley.Socket.Message.Bytes.{addresses, bytes}
use async_berkeley.Echo.{Client, received, accepted, stopped, reader, run_completions, zeroed}
use async_berkeley.Echo.Sending.{sending, writer-sends}
use async_berkeley.Echo.Padding.{echo-padded}
use async_berkeley.Echo.Acceptor.{
  Event, connects, refuses, completes, make_server, acceptor, run_events,
}
use async_berkeley.Echo.Server.{server-echoes}

abbrev buffer_at : ℕ → ℕ
buffer_at n = 4096

abbrev client : Client
client = record { pending = stopped; memory = λ x. 7; sent = 5 ∷ []; made = 0 }

-- The bytes 104 and 105 in the buffer.
abbrev memory : ℕ → ℕ
memory x = if x == 4096 then 104 else if x == 4097 then 105 else zeroed 4096 client.memory x

writer-sends_example :
    run_completions buffer_at
      (map accepted (3 ∷ 2 ∷ []))
      (sending buffer_at (record { iov_base = 4096; iov_len = 5 } ∷ []) [] client)
    ≡ reader buffer_at (record client { sent = 7 ∷ 7 ∷ 7 ∷ 7 ∷ 7 ∷ [] })
unfolding bytes addresses
writer-sends_example =
    writer-sends buffer_at (3 ∷ 2 ∷ []) (record { iov_base = 4096; iov_len = 5 } ∷ []) [] client
      refl (omega arith) (omega arith)

echo-padded_example :
    (run_completions buffer_at
      (received 2 memory ∷ map accepted (1000 ∷ 24 ∷ []))
      (reader buffer_at client)).sent
    ≡ 5 ∷ [] ++ (104 ∷ 105 ∷ [] ++ replicate 1022 0)
unfolding zeroed bytes addresses push_back_range
echo-padded_example =
    echo-padded buffer_at (104 ∷ 105 ∷ []) (1000 ∷ 24 ∷ []) memory client (omega arith) refl refl

-- Each client has its own buffers.
abbrev buffers_at : ℕ → ℕ → ℕ
buffers_at i n = 4096 * (n + 1)

-- What the kernel leaves in memory when the second client's two bytes are there.
abbrev received_memory : ℕ → ℕ
received_memory x = if x == 4096 then 104 else if x == 4097 then 105 else zeroed 4096 memory x

-- Before the second client connects, the first one does, and is served and closed.
abbrev earlier : List Event
earlier = connects memory ∷ completes 0 (received 0 memory) ∷ []

-- After it a third client connects, an accept fails, and another client wants to connect.
abbrev later : List Event
later =
    connects memory
    ∷ completes 1 (received 2 received_memory)
    ∷ refuses
    ∷ completes 1 (accepted 1000)
    ∷ completes 2 (received 0 memory)
    ∷ connects memory
    ∷ completes 1 (accepted 24)
    ∷ []

server-echoes_example :
    (c : Client) × (get_elem?
        (run_events buffers_at
          (earlier ++ connects memory ∷ later)
          (record { accepting = true; clients = [] })).clients
        1
      ≡ some c)
    × (c.sent ≡ 104 ∷ 105 ∷ [] ++ replicate 1022 0)
unfolding make_server acceptor int_eq zeroed bytes addresses push_back_range
server-echoes_example =
    server-echoes buffers_at (pos 0) (pos 0) (pos 0) (record { accepting = true; clients = [] })
      earlier later (104 ∷ 105 ∷ []) (1000 ∷ 24 ∷ []) memory received_memory 1 refl
      (refl, (refl, tt)) refl refl (omega arith) refl refl
