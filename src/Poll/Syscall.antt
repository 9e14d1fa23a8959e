-- ===== src/Poll/Syscall.antt =====
-- `poll_`, `handle_poll_error` and `detail::remaining_duration` of
-- include/io/execution/impl/poll_multiplexer_impl.hpp. The kernel and the clock are a list of
-- replies, one for each call of `poll`.
use async_berkeley.Base.{
  ℕ, ◌-◌, List, [], ◌∷◌, ℤ, pos, negsuc, int_lt, int_eq, int_max, ◌-ℤ◌, to_int, if◌then◌else◌,
}
use Prim.Native.Nat.{◌/◌}
use async_berkeley.Poll.Flags.{Flags, Pollfd, any_flag}

-- What a call of `poll` answers: the events of each descriptor, or an error number with the reading
-- of the clock, in nanoseconds, when the call came back.
pub data Answer : Type 0 where
  ready : (ℤ → Flags) → Answer
  failed : ℤ → ℕ → Answer

-- The answer depends on the timeout of the call.
abbrev pub Reply : Type 0
Reply = ℤ → Answer

pub data Polled : Type 0 where
  returned : List Pollfd → Polled
  thrown : ℤ → Polled
  -- `poll` has not come back within the replies.
  waiting : Polled

-- duration_cast<milliseconds>(...).count(), converted to `int`
abbrev pub to_milliseconds : ℕ → ℤ
to_milliseconds ns = to_int (ns / 1000000)

-- The remaining time, and the new start.
unfoldable pub remaining_duration : ℤ → ℕ → ℕ → ℤ × ℕ
unfolding int_lt ◌-ℤ◌ to_int
remaining_duration duration start now =
    (int_max (pos 0) (duration -ℤ to_milliseconds (now - start)), now)

-- The kernel writes `revents` of every entry.
abbrev pub fill : (ℤ → Flags) → List Pollfd → List Pollfd
fill r [] = []
fill r (p ∷ ps) = record p { revents = r p.fd } ∷ fill r ps

-- std::ranges::remove_if and erase
abbrev pub with_events : List Pollfd → List Pollfd
with_events [] = []
with_events (p ∷ ps) = if any_flag p.revents then p ∷ with_events ps else with_events ps

-- The timeout of the next call, and the new start: `duration > -1` asks for a shorter one.
unfoldable pub next_timeout : ℤ → ℕ → ℕ → ℤ × ℕ
next_timeout duration start now =
    if int_lt (negsuc 0) duration then remaining_duration duration start now else (duration, start)

-- `interrupted` is the platform's EINTR.
unfoldable pub poll_loop : ℤ → List Pollfd → ℤ → ℕ → List Reply → Polled
poll_loop interrupted list duration start [] = waiting
poll_loop interrupted list duration start (reply ∷ replies) = elim (reply duration) [
  | ready r ↦ returned (with_events (fill r list))
  | failed error now ↦
      let next = next_timeout duration start now in
      let again = poll_loop interrupted list next.0 next.1 replies in
      if int_eq error interrupted then again else thrown error
]

unfoldable pub poll_ : ℤ → List Pollfd → ℤ → ℕ → List Reply → Polled
unfolding poll_loop
poll_ interrupted [] duration start replies = returned []
poll_ interrupted (p ∷ ps) duration start replies =
    poll_loop interrupted (p ∷ ps) duration start replies
