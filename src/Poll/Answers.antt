-- ===== src/Poll/Answers.antt =====
-- What `poll_` of include/io/execution/impl/poll_multiplexer_impl.hpp makes of the kernel's answers,
-- against a description of them as relations.
mod Examples
use async_berkeley.Base.{
  ℕ, ◌-◌, ◌^◌, ◌<◌, ◌≡◌, ◌≢◌, refl, ap, Bool, true, false, ◌++◌, List, [], ◌∷◌, arith, ℤ, pos,
  negsuc, int_eq, int_eq_refl, int_lt, Bool-cases, inl, inr,
}
use Prim.Native.Nat.{◌/◌}
use async_berkeley.Poll.Flags.{Flags, Pollfd, any_flag, no_flag, no_flags}
use async_berkeley.Poll.Syscall.{
  Answer, Reply, ready, failed, Polled, returned, thrown, next_timeout, fill, with_events,
  poll_loop, poll_,
}
use async_berkeley.Poll.Timeout.{remaining_duration_lem}

-- The calls of `poll` that the replies answer are all interrupted, and the next call has the timeout
-- `d'`. The first call has the timeout `d`, and `start` is the last reading of the clock. A negative
-- timeout stays, another one is less by the whole milliseconds that went by, fewer than 2^31.
pub data Interrupts (interrupted : ℤ) : ℤ → ℕ → List Reply → ℤ → Type 0 where
  at_once : {d : ℤ} {start : ℕ} → Interrupts interrupted d start [] d
  endless :
      {k start now : ℕ} {reply : Reply} {replies : List Reply} {d' : ℤ}
      → reply (negsuc k) ≡ failed interrupted now
      → Interrupts interrupted (negsuc k) start replies d'
      → Interrupts interrupted (negsuc k) start (reply ∷ replies) d'
  shorter :
      {d start now : ℕ} {reply : Reply} {replies : List Reply} {d' : ℤ}
      → reply (pos d) ≡ failed interrupted now
      → (now - start) / 1000000 < 2 ^ 31
      → Interrupts interrupted (pos (d - (now - start) / 1000000)) now replies d'
      → Interrupts interrupted (pos d) start (reply ∷ replies) d'

-- The entries for which `r` has an event, in their order and with these events.
pub data Selected (r : ℤ → Flags) : List Pollfd → List Pollfd → Type 0 where
  no_entry : Selected r [] []
  selected :
      {p : Pollfd} {ps events : List Pollfd}
      → r p.fd ≢ no_flags
      → Selected r ps events
      → Selected r (p ∷ ps) (record p { revents = r p.fd } ∷ events)
  left_out :
      {p : Pollfd} {ps events : List Pollfd}
      → r p.fd ≡ no_flags
      → Selected r ps events
      → Selected r (p ∷ ps) events

-- What becomes of an answer that is no interrupt.
pub data Becomes (interrupted : ℤ) (list : List Pollfd) : Answer → Polled → Type 0 where
  selects :
      {r : ℤ → Flags} {events : List Pollfd}
      → Selected r list events
      → Becomes interrupted list (ready r) (returned events)
  throws :
      {error : ℤ} {now : ℕ}
      → int_eq error interrupted ≡ false
      → Becomes interrupted list (failed error now) (thrown error)

abbrev pub is_interrupt : ℤ → Answer → Bool
is_interrupt interrupted (ready r) = false
is_interrupt interrupted (failed error now) = int_eq error interrupted

has_event : (r : ℤ → Flags) (p : Pollfd) → any_flag (r p.fd) ≡ true → r p.fd ≡ no_flags → ⊥
unfolding any_flag
has_event r p some_event e = let is_none = ap any_flag e in ground (arith, is_none)

with_events-Selected : (r : ℤ → Flags) (ps : List Pollfd) → Selected r ps (with_events (fill r ps))
with_events-Selected r [] = no_entry
with_events-Selected r (p ∷ ps) = elim (Bool-cases (any_flag (r p.fd))) [
  | inl some_event ↦
      rw some_event (selected (λ e. has_event r p some_event e) (with_events-Selected r ps))
  | inr no_event ↦ rw no_event (left_out (no_flag (r p.fd) no_event) (with_events-Selected r ps))
]

poll_loop-answer :
    (interrupted : ℤ) (list : List Pollfd) (d : ℤ) (start : ℕ) (reply : Reply) (rest : List Reply)
    (answer : Answer)
    → reply d ≡ answer
    → is_interrupt interrupted answer ≡ false
    → Becomes interrupted list answer (poll_loop interrupted list d start (reply ∷ rest))
unfolding poll_loop
poll_loop-answer i list d start reply rest (ready r) e final =
    rw (poll_loop, e) (selects (with_events-Selected r list))
poll_loop-answer i list d start reply rest (failed x now) e final =
    rw (poll_loop, e, final) (throws final)

next_timeout-negative : (k start now : ℕ) → next_timeout (negsuc k) start now ≡ (negsuc k, start)
unfolding next_timeout int_lt
next_timeout-negative k start now = ground arith

next_timeout-positive :
    (d start now : ℕ)
    → (now - start) / 1000000 < 2 ^ 31
    → next_timeout (pos d) start now ≡ (pos (d - (now - start) / 1000000), now)
unfolding next_timeout int_lt
next_timeout-positive d start now few = ground (arith, remaining_duration_lem d start now few)

-- An interrupted call.
poll_loop-again :
    {answer : Answer} (interrupted : ℤ) (list : List Pollfd) (d : ℤ) (start : ℕ) (next : ℤ × ℕ)
    (now : ℕ) (reply : Reply) (replies : List Reply)
    → reply d ≡ failed interrupted now
    → next_timeout d start now ≡ next
    → Becomes interrupted list answer (poll_loop interrupted list next.0 next.1 replies)
    → Becomes interrupted list answer (poll_loop interrupted list d start (reply ∷ replies))
unfolding poll_loop
poll_loop-again i list d start next now reply replies e step later =
    rw (poll_loop, e, int_eq_refl i, step) later

poll_loop-Interrupts :
    (interrupted : ℤ) (list : List Pollfd) (d : ℤ) (start : ℕ) (d' : ℤ) (replies rest : List Reply)
    (reply : Reply)
    → Interrupts interrupted d start replies d'
    → is_interrupt interrupted (reply d') ≡ false
    → Becomes interrupted list
        (reply d')
        (poll_loop interrupted list d start (replies ++ reply ∷ rest))
unfolding poll_loop
poll_loop-Interrupts i list d start d' replies rest reply at_once final =
    poll_loop-answer i list d start reply rest (reply d) refl final
poll_loop-Interrupts i list d start d' replies rest reply
      (endless {k} {start = s} {now} {reply = r} {replies = rs} e more) final =
    let later = poll_loop-Interrupts i list (negsuc k) s d' rs rest reply more final in
    poll_loop-again i list (negsuc k) s (negsuc k, s) now r (rs ++ reply ∷ rest) e
      (next_timeout-negative k s now) later
poll_loop-Interrupts i list d start d' replies rest reply
      (shorter {d = n} {start = s} {now} {reply = r} {replies = rs} e few more) final =
    let left = pos (n - (now - s) / 1000000) in
    let later = poll_loop-Interrupts i list left now d' rs rest reply more final in
    poll_loop-again i list (pos n) s (left, now) now r (rs ++ reply ∷ rest) e
      (next_timeout-positive n s now few) later

-- Calls of `poll` for a list with an entry: some are interrupted, each with the timeout that the one
-- before left, and the next one, with the timeout `d'` that is left, is not. Where the kernel answers
-- that one with events, `poll_` returns the entries that have an event, in their order and with their
-- events; where it answers with an error, `poll_` throws it.
pub poll_-answer :
    (interrupted : ℤ) (p : Pollfd) (ps : List Pollfd) (d : ℤ) (start : ℕ) (d' : ℤ)
    (replies rest : List Reply) (reply : Reply)
    → Interrupts interrupted d start replies d'
    → is_interrupt interrupted (reply d') ≡ false
    → Becomes interrupted
        (p ∷ ps)
        (reply d')
        (poll_ interrupted (p ∷ ps) d start (replies ++ reply ∷ rest))
unfolding poll_
poll_-answer i p ps d start d' replies rest reply =
    poll_loop-Interrupts i (p ∷ ps) d start d' replies rest reply
