-- ===== src/Socket/Sync/Examples.antt =====
-- Tests and examples of the synchronous operations. EINTR is 4 on Linux, and EAGAIN 11.
use async_berkeley.Base.{◌≡◌, refl, [], ◌∷◌, pos, negsuc, int_eq}
use async_berkeley.Socket.Handle.{invalid_socket, Store}
use async_berkeley.Socket.Sync.{Span, undefined, Accept, Reply, accept}
use async_berkeley.Socket.Sync.Answers.{accepted, accept-answer}

abbrev address : Span
address = record { data_at = 1000; size = 16 }

abbrev no_store : Store
no_store = record { handles = []; closed = [] }

abbrev interrupt : Accept
interrupt = record { sockfd = invalid_socket; errno = pos 4; socklen = 16 }

abbrev peer : Accept
peer = record { sockfd = pos 7; errno = pos 0; socklen = 16 }

abbrev long_peer : Accept
long_peer = record { sockfd = pos 7; errno = pos 0; socklen = 28 }

-- An IPv6 peer, whose address does not fit.
accept_too_long : accepted (pos 0) address long_peer no_store ≡ undefined
unfolding accepted int_eq
accept_too_long = refl

accept-answer_example :
    accept (pos 4) (pos 0) address (interrupt ∷ interrupt ∷ peer ∷ []) no_store
    ≡ accepted (pos 0) address peer no_store
unfolding int_eq
accept-answer_example =
    accept-answer (pos 4) (pos 0) address (interrupt ∷ interrupt ∷ []) peer [] no_store
      (refl, (refl, tt)) refl

abbrev cut_off : Reply
cut_off = record { ret = negsuc 0; errno = pos 4; msg_flags = pos 0 }

abbrev would_block : Reply
would_block = record { ret = negsuc 0; errno = pos 11; msg_flags = pos 0 }
