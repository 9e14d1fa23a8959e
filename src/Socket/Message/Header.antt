-- ===== src/Socket/Message/Header.antt =====
-- `message_header` and `socket_message` of include/io/socket/socket_message.hpp, and their conversions
-- in include/io/socket/impl/socket_message_impl.hpp, with what recvmsg_t writes back.
use async_berkeley.Base.{
  ℕ, ◌≡◌, refl, Option, none, some, List, ℤ, pos, int_lt, length, if◌then◌else◌,
}
use async_berkeley.Socket.Message.{Iovec}
use async_berkeley.Socket.Sync.{
  Span, no_span, to_socklen, Reply, Outcome, returned, throws, undefined, blocked, Received,
  receive_message,
}

-- The address and the control data are the spans of their bytes.
pub record SocketMessage : Type 0 where
  pub address : Option Span
  pub buffers : List Iovec
  pub control : Span
  pub flags : ℤ

pub record MessageHeader : Type 0 where
  pub msg_name : Span
  pub msg_iov : List Iovec
  pub msg_control : Span
  pub flags : ℤ

-- `struct msghdr`. The array that `msg_iov` points to is written out.
pub record Msghdr : Type 0 where
  pub msg_name : ℕ
  pub msg_namelen : ℕ
  pub msg_iov : List Iovec
  pub msg_iovlen : ℕ
  pub msg_control : ℕ
  pub msg_controllen : ℕ
  pub msg_flags : ℤ

-- operator message_header
unfoldable pub to_header : SocketMessage → MessageHeader
to_header msg =
    let header : MessageHeader = record {
      msg_name = no_span;
      msg_iov = msg.buffers;
      msg_control = msg.control;
      flags = msg.flags;
    } in
    elim msg.address [ none ↦ header | some a ↦ record header { msg_name = a } ]

-- message_header's operator socket_message_type
unfoldable pub to_msghdr : MessageHeader → Msghdr
to_msghdr h = record {
  msg_name = h.msg_name.data_at;
  msg_namelen = to_socklen h.msg_name.size;
  msg_iov = h.msg_iov;
  msg_iovlen = length h.msg_iov;
  msg_control = h.msg_control.data_at;
  msg_controllen = h.msg_control.size;
  msg_flags = h.flags;
}

-- socket_message's operator socket_message_type
unfoldable pub message_to_msghdr : SocketMessage → Msghdr
unfolding to_header to_msghdr
message_to_msghdr msg = to_msghdr (to_header msg)

module _ (eintr : ℤ) where
  -- recvmsg_t of a handle: the result, and the message with the flags of its header.
  unfoldable pub receive_now : SocketMessage → List Reply → Outcome (ℤ × SocketMessage)
  unfolding receive_message
  receive_now msg rs = elim (receive_message eintr rs) [
    | returned r ↦ returned (r.len, record msg { flags = r.flags })
    | throws ↦ throws
    | undefined ↦ undefined
    | blocked ↦ blocked
  ]

  -- The function that recvmsg_t of a dialog leaves for later: it receives into the header that was
  -- made when the operation was, and writes the header's flags to the message.
  unfoldable pub receive_later : SocketMessage → List Reply → Outcome (Option ℤ × SocketMessage)
  unfolding message_to_msghdr receive_message
  receive_later msg rs =
      let header = message_to_msghdr msg in
      elim (receive_message eintr rs) [
        | returned r ↦
            let header' : Msghdr = record header { msg_flags = r.flags } in
            returned (
              if int_lt r.len (pos 0) then none else some r.len,
              record msg { flags = header'.msg_flags },
            )
        | throws ↦ throws
        | undefined ↦ undefined
        | blocked ↦ blocked
      ]

  -- What a receive at once returns, as the result of an operation.
  abbrev pub as_result : Outcome (ℤ × SocketMessage) → Outcome (Option ℤ × SocketMessage)
  as_result (returned (len, msg)) = returned (if int_lt len (pos 0) then none else some len, msg)
  as_result throws = throws
  as_result undefined = undefined
  as_result blocked = blocked

  -- Receiving later is receiving at once: the same result and the same flags, whatever the kernel
  -- answers.
  pub receive_later-receive_now :
      (msg : SocketMessage) (rs : List Reply)
      → receive_later msg rs ≡ as_result (receive_now msg rs)
  unfolding receive_later receive_now
  receive_later-receive_now msg rs = go (receive_message eintr rs) refl
    where
      go :
          (r : Outcome Received)
          → receive_message eintr rs ≡ r
          → receive_later msg rs ≡ as_result (receive_now msg rs)
      go (returned r) e = rw (e, receive_later, receive_now) refl
      go throws e = rw (e, receive_later, receive_now) refl
      go undefined e = rw (e, receive_later, receive_now) refl
      go blocked e = rw (e, receive_later, receive_now) refl
