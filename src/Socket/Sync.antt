-- ===== src/Socket/Sync.antt =====
-- The synchronous operations of include/io/socket/detail/sync_operations.hpp. What the system calls
-- answer is a list of replies, one for each call; the arguments of the calls that are retried are the
-- same each time, and are left out.
pub mod Answers
pub mod Examples
use async_berkeley.Base.{
  ℕ, ◌+◌, ◌-◌, ◌%◌, ◌^◌, Bool, true, false, ◌&&◌, not, Option, none, some, List, [], ◌∷◌, ℤ, pos,
  negsuc, int_eq, int_lt, leb, ltb, if◌then◌else◌, ◌>>=◌,
}
use async_berkeley.Socket.Handle.{
  invalid_socket, Handle, Store, constructed, system_error, from_native,
}

-- `std::span` over bytes: where it begins and how long it is.
pub record Span : Type 0 where
  pub data_at : ℕ
  pub size : ℕ

-- subspan(0, count), which is undefined beyond the end.
unfoldable pub subspan : Span → ℕ → Option Span
subspan s count = if leb count s.size then some (record s { size = count }) else none

-- How an operation ends: `blocked` if the replies run out before it does.
pub data Outcome (A : Type 0) : Type 0 where
  returned : A → Outcome A
  throws undefined blocked : Outcome A

-- The reply to `accept`, and `socklen` after it.
pub record Accept : Type 0 where
  pub sockfd : ℤ
  pub errno : ℤ
  pub socklen : ℕ

-- The reply to `connect`, `sendmsg` or `recvmsg`; `msg_flags` is the one of the msghdr after it.
pub record Reply : Type 0 where
  pub ret : ℤ
  pub errno : ℤ
  pub msg_flags : ℤ

pub record Accepted : Type 0 where
  pub socket : ℕ
  pub store : Store
  pub address : Span

pub record Received : Type 0 where
  pub len : ℤ
  pub flags : ℤ

-- What accept_t makes of the end of its loop.
unfoldable pub make_pair : ℤ → Span → Store → Option Accept → Outcome Accepted
unfolding from_native subspan
make_pair valid address s none = blocked
make_pair valid address s (some r) = elim (from_native valid r.sockfd s) [
  | system_error ↦ throws
  | constructed this s' ↦ elim (subspan address r.socklen) [
    | none ↦ undefined
    | some prefix ↦ returned (record { socket = this; store = s'; address = prefix })
  ]
]

-- `eintr` is the number of EINTR.
module _ (eintr : ℤ) where
  -- The loop of accept_t.
  unfoldable pub accept_loop : List Accept → Option Accept
  accept_loop [] = none
  accept_loop (r ∷ rs) =
      if int_eq r.sockfd invalid_socket && int_eq r.errno eintr then accept_loop rs else some r

  -- accept_t: `valid` is what getsockopt returns when the handle is made. C++ leaves open which of the
  -- handle and the span is made first; here it is the handle.
  unfoldable pub accept : ℤ → Span → List Accept → Store → Outcome Accepted
  unfolding accept_loop
  accept valid address rs s = make_pair valid address s (accept_loop rs)

  -- The loop of connect_t.
  unfoldable pub connect_loop : List Reply → Option Reply
  connect_loop [] = none
  connect_loop (r ∷ rs) =
      if int_eq r.ret (negsuc 0) && int_eq r.errno eintr then connect_loop rs else some r

  -- connect_t
  unfoldable pub connect_socket : List Reply → Outcome ℤ
  unfolding connect_loop
  connect_socket rs = elim (connect_loop rs) [ none ↦ blocked | some r ↦ returned r.ret ]

  -- The loops of recvmsg_t and sendmsg_t.
  unfoldable pub message_loop : List Reply → Option Reply
  message_loop [] = none
  message_loop (r ∷ rs) =
      if int_lt r.ret (pos 0) && int_eq r.errno eintr then message_loop rs else some r

  -- recvmsg_t, which writes the flags back whatever recvmsg returns.
  unfoldable pub receive_message : List Reply → Outcome Received
  unfolding message_loop
  receive_message rs = elim (message_loop rs) [
    | none ↦ blocked
    | some r ↦ returned (record { len = r.ret; flags = r.msg_flags })
  ]

  -- sendmsg_t
  unfoldable pub send_message : List Reply → Outcome ℤ
  unfolding message_loop
  send_message rs = elim (message_loop rs) [ none ↦ blocked | some r ↦ returned r.ret ]

-- `{}`, as getpeername_t and getsockname_t return it.
abbrev pub no_span : Span
no_span = record { data_at = 0; size = 0 }

-- getpeername_t, with what the call returns and writes to `socklen`.
unfoldable pub getpeername : ℤ → ℕ → Span → Outcome Span
unfolding subspan
getpeername ret socklen address =
    if int_eq ret (pos 0)
    then elim (subspan address socklen) [ none ↦ undefined | some prefix ↦ returned prefix ]
    else returned no_span

-- getsockname_t, with what the call returns and writes to `socklen`.
unfoldable pub getsockname : ℤ → ℕ → Span → Outcome Span
unfolding subspan
getsockname ret socklen address =
    if int_eq ret (pos 0)
    then elim (subspan address socklen) [ none ↦ undefined | some prefix ↦ returned prefix ]
    else returned no_span

-- getsockopt_t, with what the call returns and writes to `optlen`.
unfoldable pub socket_option : ℤ → ℕ → Span → Outcome (ℤ × Span)
unfolding subspan
socket_option ret optlen option = elim (subspan option optlen) [
  | none ↦ undefined
  | some prefix ↦ returned (ret, prefix)
]

-- A system call as the operations make it, with the descriptor first.
pub data Syscall : Type 0 where
  sys_bind : ℤ → ℕ → ℕ → Syscall
  sys_listen sys_shutdown : ℤ → ℤ → Syscall
  sys_setsockopt : ℤ → ℤ → ℤ → ℕ → ℕ → Syscall

-- The conversion of a size to `socklen_t`.
abbrev pub to_socklen : ℕ → ℕ
to_socklen n = n % 2 ^ 32

unfoldable pub bind : Handle → Span → Syscall
bind h address = sys_bind h.socket address.data_at (to_socklen address.size)

unfoldable pub listen : Handle → ℤ → Syscall
listen h backlog = sys_listen h.socket backlog

unfoldable pub shutdown : Handle → ℤ → Syscall
shutdown h how = sys_shutdown h.socket how

unfoldable pub setsockopt : Handle → ℤ → ℤ → Span → Syscall
setsockopt h level optname option =
    sys_setsockopt h.socket level optname option.data_at (to_socklen option.size)
