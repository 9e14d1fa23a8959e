-- ===== src/Poll/Answers/Examples.antt =====
-- A call of `poll` that is interrupted twice.
use async_berkeley.Base.{◌≡◌, refl, List, [], ◌∷◌, arith, ℤ, pos, int_eq, int_lt, if◌then◌else◌}
use async_berkeley.Poll.Flags.{Flags, Pollfd, no_flags, any_flag}
use async_berkeley.Poll.Syscall.{
  Reply, ready, failed, returned, poll_, next_timeout, remaining_duration,
}
use async_berkeley.Poll.Answers.{at_once, shorter, Becomes, poll_-answer}
use async_berkeley.Poll.Examples.{in_flag, event}

-- Descriptor 1 is readable.
abbrev one_readable : ℤ → Flags
one_readable fd = if int_eq fd (pos 1) then in_flag else no_flags

-- Interrupts after 3 and after 5.5 milliseconds; with 5 milliseconds left the kernel reports events.
abbrev first_reply : Reply
first_reply t = failed (pos 4) 3000000

abbrev second_reply : Reply
second_reply t = if int_eq t (pos 7) then failed (pos 4) 5500000 else failed (pos 12) 5500000

abbrev last_reply : Reply
last_reply t = if int_eq t (pos 5) then ready one_readable else failed (pos 12) 9000000

abbrev two_entries : List Pollfd
two_entries = event no_flags ∷ record { fd = pos 2; events = in_flag; revents = no_flags } ∷ []

poll_-answer_example :
    Becomes
      (pos 4)
      two_entries
      (ready one_readable)
      (poll_ (pos 4) two_entries (pos 10) 0 (first_reply ∷ second_reply ∷ last_reply ∷ []))
unfolding int_eq
poll_-answer_example =
    poll_-answer (pos 4) (event no_flags)
      (record { fd = pos 2; events = in_flag; revents = no_flags } ∷ []) (pos 10) 0 (pos 5)
      (first_reply ∷ second_reply ∷ []) [] last_reply
      (shorter refl (omega arith) (shorter refl (omega arith) at_once)) refl

-- What that is: the readable descriptor.
polls_interrupted :
    poll_ (pos 4) two_entries (pos 10) 0 (first_reply ∷ second_reply ∷ last_reply ∷ [])
    ≡ returned (event in_flag ∷ [])
unfolding poll_ next_timeout remaining_duration int_eq int_lt any_flag
polls_interrupted = refl
