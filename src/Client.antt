-- ===== src/Client.antt =====
-- The client of examples/async_ping_pong_client.cpp: what its operations do when they complete, and
-- the test of the loop in `run`. What the kernel and the server do is a sequence of completions.
pub mod Progress
pub mod Examples
use async_berkeley.Base.{
  ℕ, ◌+◌, ◌%◌, ◌^◌, Bool, true, false, ◌&&◌, ◌||◌, List, [], ◌∷◌, leb, ltb, ◌==◌, if◌then◌else◌,
}

-- An `int`, as its 32 bits: one more, with the wrap of an atomic one, and the test `a < n` for an `n`
-- that is not negative.
unfoldable pub next_int : ℕ → ℕ
next_int n = (n + 1) % 2 ^ 32

unfoldable pub is_below : ℕ → ℕ → Bool
is_below a n = leb (2 ^ 31) a || ltb a n

-- std::string::find, as whether it finds the text.
unfoldable pub is_prefix : List ℕ → List ℕ → Bool
is_prefix [] text = true
is_prefix (p ∷ ps) [] = false
is_prefix (p ∷ ps) (c ∷ text) = (p == c) && is_prefix ps text

unfoldable pub finds : List ℕ → List ℕ → Bool
unfolding is_prefix
finds pattern [] = is_prefix pattern []
finds pattern (c ∷ text) = is_prefix pattern (c ∷ text) || finds pattern text

-- "pong"
abbrev pub pong : List ℕ
pong = 112 ∷ 111 ∷ 110 ∷ 103 ∷ []

-- The operation that is spawned, with the sequence number that its function has captured.
pub data Spawned : Type 0 where
  connecting : Spawned
  sending receiving : ℕ → Spawned
  stopped : Spawned

-- How an operation completes: `received` has the bytes that recvmsg has put into the buffer.
pub data Completion : Type 0 where
  connected : Completion
  accepted : Completion
  received : List ℕ → Completion
  failed : Completion

pub record Client : Type 0 where
  pub pending : Spawned
  pub pings_sent : ℕ
  pub pongs_received : ℕ

-- The client when the loop of `run` begins.
abbrev pub spawned : Client
spawned = record { pending = connecting; pings_sent = 0; pongs_received = 0 }

module _ (ping_count : ℕ) where
  -- start_ping_pong, with send_ping. A function that spawns nothing leaves no operation.
  unfoldable pub start_ping_pong : ℕ → Client → Client
  unfolding is_below
  start_ping_pong sequence c = record c {
    pending = if is_below sequence ping_count then sending sequence else stopped;
  }

  unfoldable pub schedule_next_ping : ℕ → Client → Client
  unfolding start_ping_pong
  schedule_next_ping sequence c =
      if is_below sequence ping_count
      then start_ping_pong sequence c
      else record c { pending = stopped }

  -- The functions that the results of sendmsg and recvmsg are passed to.
  unfoldable pub on_accepted : ℕ → Client → Client
  unfolding next_int
  on_accepted sequence c = record c {
    pending = receiving sequence;
    pings_sent = next_int c.pings_sent;
  }

  unfoldable pub on_received : ℕ → List ℕ → Client → Client
  unfolding schedule_next_ping next_int finds
  on_received sequence message c =
      if finds pong message
      then schedule_next_ping (next_int sequence)
          (record c { pongs_received = next_int c.pongs_received })
      else schedule_next_ping sequence c

  -- A completion is for the operation that is pending; another one is not possible. The function of
  -- upon_error does nothing.
  unfoldable pub on_completion : Completion → Client → Client
  unfolding start_ping_pong on_accepted on_received
  on_completion e c = elim c.pending [
    | connecting ↦ elim e [
      | connected ↦ start_ping_pong 0 c
      | failed ↦ record c { pending = stopped }
      | _ ↦ c
    ]
    | sending sequence ↦ elim e [
      | accepted ↦ on_accepted sequence c
      | failed ↦ record c { pending = stopped }
      | _ ↦ c
    ]
    | receiving sequence ↦ elim e [
      | received message ↦ on_received sequence message c
      | failed ↦ record c { pending = stopped }
      | _ ↦ c
    ]
    | stopped ↦ c
  ]

  unfoldable pub run_completions : List Completion → Client → Client
  unfolding on_completion
  run_completions [] c = c
  run_completions (e ∷ es) c = run_completions es (on_completion e c)

  -- The condition of the loop in `run`.
  unfoldable pub is_running : Client → Bool
  unfolding is_below
  is_running c = is_below c.pings_sent ping_count || is_below c.pongs_received ping_count
