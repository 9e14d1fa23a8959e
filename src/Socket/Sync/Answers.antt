-- ===== src/Socket/Sync/Answers.antt =====
-- What the synchronous operations make of the first reply that is no interrupt.
use async_berkeley.Base.{
  ◌≡◌, refl, ap, ◌∙◌, Bool, true, false, ◌&&◌, not, some, List, [], ◌∷◌, ◌++◌, ℤ, pos, int_eq,
  int_lt, leb, length, if◌then◌else◌, Bool-cases, inl, inr, All,
}
use async_berkeley.Socket.Handle.{invalid_socket, Store, from_native, construct, is_valid_socket}
use async_berkeley.Socket.Sync.{
  Span, subspan, Outcome, returned, throws, undefined, Accept, Reply, Accepted, accept_loop,
  make_pair, accept, message_loop, receive_message, send_message,
}

-- A store with one more handle.
unfoldable pub with_handle : ℤ → Store → Store
with_handle fd s = record s { handles = s.handles ++ record { socket = fd; error = pos 0 } ∷ [] }

-- What `accept` is to make of a reply that is no interrupt.
unfoldable pub accepted : ℤ → Span → Accept → Store → Outcome Accepted
accepted valid address r s =
    if not (int_eq r.sockfd invalid_socket) && not (int_eq valid (pos 0))
    then throws
    else if leb r.socklen address.size
    then returned (record {
      socket = length s.handles;
      store = with_handle r.sockfd s;
      address = record address { size = r.socklen };
    })
    else undefined

make_pair-accepted :
    (valid : ℤ) (address : Span) (r : Accept) (s : Store)
    → make_pair valid address s (some r) ≡ accepted valid address r s
unfolding make_pair accepted from_native construct with_handle is_valid_socket subspan
make_pair-accepted valid address r s = elim (Bool-cases (int_eq r.sockfd invalid_socket)) [
  | inl v ↦ elim (Bool-cases (leb r.socklen address.size)) [
    | inl l ↦ rw (make_pair, from_native, subspan, v, l) refl
    | inr l ↦ rw (make_pair, from_native, subspan, v, l) refl
  ]
  | inr v ↦ elim (Bool-cases (int_eq valid (pos 0))) [
    | inl ok ↦ elim (Bool-cases (leb r.socklen address.size)) [
      | inl l ↦ rw (make_pair, from_native, subspan, v, ok, l) refl
      | inr l ↦ rw (make_pair, from_native, subspan, v, ok, l) refl
    ]
    | inr bad ↦ rw (make_pair, from_native, subspan, v, bad) refl
  ]
]

module _ (eintr : ℤ) where
  abbrev pub is_interrupted : Accept → Bool
  is_interrupted r = int_eq r.sockfd invalid_socket && int_eq r.errno eintr

  abbrev pub is_failed_by_interrupt : Reply → Bool
  is_failed_by_interrupt r = int_lt r.ret (pos 0) && int_eq r.errno eintr

  pub accept_loop-first :
      (is : List Accept) (r : Accept) (rs : List Accept)
      → All (λ i. is_interrupted i ≡ true) is
      → is_interrupted r ≡ false
      → accept_loop eintr (is ++ r ∷ rs) ≡ some r
  unfolding accept_loop
  accept_loop-first [] r rs h e = rw e refl
  accept_loop-first (i ∷ is) r rs (h, hs) e = rw h (accept_loop-first is r rs hs e)

  -- Of any number of interrupts, and one reply that is none, `accept` takes the latter: it returns a
  -- handle of the descriptor, or an invalid one, together with the first `socklen` bytes of the address;
  -- it throws if getsockopt refuses the descriptor; and it is undefined if `socklen` exceeds the size of
  -- the address.
  pub accept-answer :
      (valid : ℤ) (address : Span) (is : List Accept) (r : Accept) (rs : List Accept) (s : Store)
      → All (λ i. is_interrupted i ≡ true) is
      → is_interrupted r ≡ false
      → accept eintr valid address (is ++ r ∷ rs) s ≡ accepted valid address r s
  unfolding accept
  accept-answer valid address is r rs s h e =
      ap (make_pair valid address s) (accept_loop-first is r rs h e)
      ∙ make_pair-accepted valid address r s

  message_loop-first :
      (is : List Reply) (r : Reply) (rs : List Reply)
      → All (λ i. is_failed_by_interrupt i ≡ true) is
      → is_failed_by_interrupt r ≡ false
      → message_loop eintr (is ++ r ∷ rs) ≡ some r
  unfolding message_loop
  message_loop-first [] r rs h e = rw e refl
  message_loop-first (i ∷ is) r rs (h, hs) e = rw h (message_loop-first is r rs hs e)

  -- Of any number of interrupts, and one reply that is none, sendmsg and recvmsg return what the latter
  -- returned, an error too, and recvmsg its flags.
  pub message-answer :
      (is : List Reply) (r : Reply) (rs : List Reply)
      → All (λ i. is_failed_by_interrupt i ≡ true) is
      → is_failed_by_interrupt r ≡ false
      → (send_message eintr (is ++ r ∷ rs) ≡ returned r.ret)
        × (receive_message eintr (is ++ r ∷ rs)
            ≡ returned (record { len = r.ret; flags = r.msg_flags }))
  unfolding send_message receive_message
  message-answer is r rs h e =
      let loop = message_loop-first is r rs h e in
      (rw (loop, send_message) refl, rw (loop, receive_message) refl)
