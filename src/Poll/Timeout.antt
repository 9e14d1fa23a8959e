-- ===== src/Poll/Timeout.antt =====
-- What `poll_` returns stands in the list, and the time that is left after an interrupt.
use async_berkeley.Base.{
  ℕ, ◌-◌, ◌^◌, ◌<◌, ◌≡◌, refl, true, List, [], ◌∷◌, arith, ℤ, pos, int_eq, All, Bool-cases, inl,
  inr, ◌⊎◌,
}
use Prim.Native.Nat.{◌/◌}
use async_berkeley.Poll.Flags.{Flags, Pollfd, any_flag}
use async_berkeley.Poll.Interest.{copy_active}
use async_berkeley.Poll.Syscall.{
  Answer, Reply, ready, failed, returned, remaining_duration, next_timeout, fill, with_events,
  poll_loop, poll_,
}

-- After less than 2^31 milliseconds the remaining time is the duration less the whole milliseconds
-- that went by, and 0 if that is negative; the clock's reading is the new start.
pub remaining_duration_lem :
    (d start now : ℕ)
    → (now - start) / 1000000 < 2 ^ 31
    → remaining_duration (pos d) start now ≡ (pos (d - (now - start) / 1000000), now)
unfolding remaining_duration
remaining_duration_lem d start now h = ground arith

pub Answer-cases :
    (answer : Answer)
    → ((r : ℤ → Flags) × (answer ≡ ready r))
      ⊎ ((error : ℤ) × (now : ℕ) × (answer ≡ failed error now))
Answer-cases (ready r) = inl (r, refl)
Answer-cases (failed error now) = inr (error, now, refl)

module _ (Q : ℤ → Type 0) where
  abbrev Eventful : Pollfd → Type 0
  Eventful p = Q p.fd × (any_flag p.revents ≡ true)

  with_events-All :
      (r : ℤ → Flags) (ps : List Pollfd)
      → All (λ p. Q p.fd) ps
      → All Eventful (with_events (fill r ps))
  with_events-All r [] q = tt
  with_events-All r (p ∷ ps) q = elim (Bool-cases (any_flag (r p.fd))) [
    | inl some_event ↦ rw some_event ((q.0, some_event), with_events-All r ps q.1)
    | inr no_event ↦ rw no_event (with_events-All r ps q.1)
  ]

  poll_loop-All :
      (interrupted : ℤ) (list : List Pollfd) (duration : ℤ) (start : ℕ) (replies : List Reply)
      (events : List Pollfd)
      → All (λ p. Q p.fd) list
      → poll_loop interrupted list duration start replies ≡ returned events
      → All Eventful events
  unfolding poll_loop
  poll_loop-All i list duration start [] events q e = absurd (ground arith)
  poll_loop-All i list duration start (reply ∷ replies) events q e =
      elim (Answer-cases (reply duration)) [
        | inl (r, is) ↦
            let same : with_events (fill r list) ≡ events = ground arith in
            rw (← same) (with_events-All r list q)
        | inr (x, now, is) ↦ elim (Bool-cases (int_eq x i)) [
          | inl again ↦
              poll_loop-All i list (next_timeout duration start now).0
                (next_timeout duration start now).1 replies events q (rw (is, again) at e)
          | inr fatal ↦ absurd (ground arith)
        ]
      ]

  -- Every entry that `poll_` returns has an event, and its descriptor is one of the list.
  pub poll_-All :
      (interrupted : ℤ) (list : List Pollfd) (duration : ℤ) (start : ℕ) (replies : List Reply)
      (events : List Pollfd)
      → All (λ p. Q p.fd) list
      → poll_ interrupted list duration start replies ≡ returned events
      → All Eventful events
  unfolding poll_
  poll_-All i [] duration start replies events q e =
      let same : [] ≡ events = ground arith in rw (← same) tt
  poll_-All i (p ∷ ps) duration start replies events q e =
      poll_loop-All i (p ∷ ps) duration start replies events q e

  pub copy_active-All :
      (ps : List Pollfd) → All (λ p. Q p.fd) ps → All (λ p. Q p.fd) (copy_active ps)
  unfolding copy_active
  copy_active-All [] q = tt
  copy_active-All (p ∷ ps) q = ground (arith, copy_active-All ps q.1)
