-- ===== src/Poll/Races.antt =====
-- What goes wrong when a dispatch comes between `connect` and `start`, when `getsockopt` fails, and
-- when a hang-up comes alone.
use async_berkeley.Base.{
  ℕ, ◌≡◌, refl, ap, Option-cases, ◌∙◌, true, ◌||◌, List, ℤ, pos, int_eq_refl, arith, get_elem?, inl,
  inr,
}
use async_berkeley.Poll.Flags.{Flags, Pollfd, no_flags, flags_without}
use async_berkeley.Poll.Interest.{clear_event, Sorted, interest, cleared}
use async_berkeley.Poll.Order.{clear_event-cleared}
use async_berkeley.Poll.Mux.{Platform, Op, Demultiplexer, Mux, World, to_size}
use async_berkeley.Poll.Wait.{threw, handle_event, prepare_handles}

-- The interest in the event's own descriptor, once the event is cleared.
interest-own :
    (event : Pollfd) (n : ℕ) (list : List Pollfd)
    → event.fd ≡ pos n
    → Sorted list
    → interest (pos n) (clear_event event list) ≡ cleared event.revents (interest (pos n) list)
interest-own event n list fd s =
    (clear_event-cleared event list (pos n) s).1 ∙ rw (fd, int_eq_refl (pos n)) refl

module _ {W R : Type 0} (P : Platform W) where
  prepare-threw :
      (event : Pollfd) (d : Demultiplexer W R) (m m₁ : Mux W R) (w w₁ : World W R)
      (ready ready₁ : List (Op W R)) (error : ℤ)
      → prepare_handles P event.revents (to_size event.fd) d m w ready ≡ threw error m₁ w₁ ready₁
      → ((event.revents.pollerr || event.revents.pollnval) ≡ true) × (m₁ ≡ m) × (ready₁ ≡ ready)
  unfolding prepare_handles
  prepare-threw event d m m₁ w w₁ ready ready₁ error e = ground arith

  -- Where `getsockopt` throws, the event's descriptor has lost all interest, and its tasks are still in
  -- their queues; what was ready is given up.
  pub throw-interest :
      (event : Pollfd) (n : ℕ) (m m₁ : Mux W R) (w w₁ : World W R) (ready ready₁ : List (Op W R))
      (error : ℤ)
      → event.fd ≡ pos n
      → Sorted m.list
      → handle_event P event m w ready ≡ threw error m₁ w₁ ready₁
      → (m₁.demux ≡ m.demux) × (ready₁ ≡ ready) × (interest (pos n) m₁.list ≡ no_flags)
  unfolding cleared flags_without handle_event
  throw-interest event n m m₁ w w₁ ready ready₁ error fd s h =
      elim (Option-cases (get_elem? m.demux (to_size event.fd))) [
        | inl missing ↦ absurd (ground arith)
        | inr (d, there) ↦
            let m' : Mux W R = record m { list = clear_event event m.list } in
            let (broken, same, gone) =
              prepare-threw event d m' m₁ w w₁ ready ready₁ error (rw (there, handle_event) at h) in
            (
              ap (λ (x : Mux W R). x.demux) same,
              gone,
              rw (same, interest-own event n m.list fd s, broken) refl,
            )
      ]
