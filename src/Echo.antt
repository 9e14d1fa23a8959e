-- ===== src/Echo.antt =====
-- The echo server of examples/tcp_echo.cpp, one client of it: `reader` and `writer`. What the kernel
-- does is a sequence of completions.
pub mod Acceptor
pub mod Events
pub mod Server
pub mod Sending
pub mod Padding
pub mod Examples
use async_berkeley.Base.{
  ℕ, ◌+◌, ◌&&◌, true, false, List, [], ◌∷◌, ◌++◌, leb, ltb, ◌==◌, if◌then◌else◌, map, take,
}
use async_berkeley.Socket.Message.{Iovec, push_back_range, advance_message, to_bool}
use async_berkeley.Socket.Message.Bytes.{bytes}

-- How an operation of the client completes: recvmsg with its result and the memory after it, sendmsg
-- with its result, either with an error.
pub data Completion : Type 0 where
  received : ℕ → (ℕ → ℕ) → Completion
  accepted : ℕ → Completion
  failed : Completion

-- The operation that is spawned, with the buffers of its message, or none.
pub data Spawned : Type 0 where
  reading writing : List Iovec → Spawned
  stopped : Spawned

-- `sent` is what sendmsg has accepted, `made` how many buffers have been allocated.
pub record Client : Type 0 where
  pub pending : Spawned
  pub memory : ℕ → ℕ
  pub sent : List ℕ
  pub made : ℕ

-- std::vector<char>(1024) at an address: its elements are 0.
unfoldable pub zeroed : ℕ → (ℕ → ℕ) → ℕ → ℕ
zeroed a memory x = if leb a x && ltb x (a + 1024) then 0 else memory x

abbrev pub whole_buffer : ℕ → List Iovec
whole_buffer a = push_back_range [] (record { range_data = a; count = 1024; size = 1 })

-- `buffer_at` is where the allocator puts the buffers, one after the other.
module _ (buffer_at : ℕ → ℕ) where
  unfoldable pub reader : Client → Client
  unfolding zeroed push_back_range
  reader c = record c {
    pending = reading (whole_buffer (buffer_at c.made));
    memory = zeroed (buffer_at c.made) c.memory;
    made = c.made + 1;
  }

  unfoldable pub writer : List Iovec → Client → Client
  writer bufs c = record c { pending = writing bufs }

  -- The function that recvmsg's result is passed to.
  unfoldable pub on_received : List Iovec → ℕ → Client → Client
  unfolding writer
  on_received bufs len c = if len == 0 then record c { pending = stopped } else writer bufs c

  -- The function that sendmsg's result is passed to.
  unfoldable pub on_accepted : List Iovec → ℕ → Client → Client
  unfolding advance_message to_bool writer reader
  on_accepted bufs len c =
      let rest = advance_message bufs len in if to_bool rest then writer rest c else reader c

  -- A completion is for the operation that is pending; another one is not possible.
  unfoldable pub on_completion : Completion → Client → Client
  unfolding on_received on_accepted bytes
  on_completion e c = elim c.pending [
    | reading bufs ↦ elim e [
      | received len memory ↦ on_received bufs len (record c { memory = memory })
      | accepted len ↦ c
      | failed ↦ record c { pending = stopped }
    ]
    | writing bufs ↦ elim e [
      | received len memory ↦ c
      | accepted len ↦
          on_accepted bufs len (record c { sent = c.sent ++ take len (map c.memory (bytes bufs)) })
      | failed ↦ record c { pending = stopped }
    ]
    | stopped ↦ c
  ]

  unfoldable pub run_completions : List Completion → Client → Client
  unfolding on_completion
  run_completions [] c = c
  run_completions (e ∷ es) c = run_completions es (on_completion e c)
