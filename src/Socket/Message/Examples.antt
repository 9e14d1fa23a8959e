-- ===== src/Socket/Message/Examples.antt =====
-- Tests and examples of the message buffers.
use async_berkeley.Base.{◌≡◌, refl, List, [], ◌∷◌, drop}
use async_berkeley.Socket.Message.{Iovec, Range, advance_message}
use async_berkeley.Socket.Message.Bytes.{bytes, bytes-advance_message}

-- Three buffers, the second of length 0.
abbrev three : List Iovec
three =
    record { iov_base = 100; iov_len = 2 }
    ∷ record { iov_base = 200; iov_len = 0 }
    ∷ record { iov_base = 300; iov_len = 3 }
    ∷ []

advance_by_3 : advance_message three 3 ≡ record { iov_base = 301; iov_len = 2 } ∷ []
unfolding advance_message
advance_by_3 = refl

advance_by_2 :
    advance_message three 2
    ≡ record { iov_base = 200; iov_len = 0 } ∷ record { iov_base = 300; iov_len = 3 } ∷ []
unfolding advance_message
advance_by_2 = refl

abbrev ranges : List Range
ranges =
    record { range_data = 400; count = 2; size = 4 }
    ∷ record { range_data = 500; count = 1; size = 1 }
    ∷ []

bytes-advance_message_example : bytes (advance_message three 3) ≡ drop 3 (bytes three)
bytes-advance_message_example = bytes-advance_message three 3
