-- ===== src/Poll/Steps.antt =====
-- The operations of the multiplexer, taken apart.
use async_berkeley.Base.{
  ◌≡◌, refl, some, List, [], ◌∷◌, ◌++◌, arith, All, subst₂, get_elem?, set, Option-cases, inl, inr,
}
use async_berkeley.Poll.Flags.{Pollfd}
use async_berkeley.Poll.Interest.{clear_event}
use async_berkeley.Poll.Mux.{Platform, Op, Demultiplexer, Mux, World, to_size}
use async_berkeley.Poll.Wait.{
  Dispatched, dispatched, threw, undefined, woken, kept, prepare_handles, handle_event, dispatch,
}

-- The state after an event that was handled at the demultiplexer `d`.
abbrev pub after : {W R : Type 0} → Pollfd → Demultiplexer W R → Mux W R → Mux W R
after event d m = record {
  demux = set m.demux (to_size event.fd) (kept event.revents d);
  list = clear_event event m.list;
}

-- An event whose handling succeeds wakes the tasks of its demultiplexer that its flags name.
pub record Handled {W R : Type 0} (event : Pollfd) (m : Mux W R) (ready : List (Op W R))
    (m' : Mux W R) (ready' : List (Op W R)) : Type 0 where
  pub at : Demultiplexer W R
  pub found : get_elem? m.demux (to_size event.fd) ≡ some at
  pub state : m' ≡ after event at m
  pub woke : ready' ≡ ready ++ woken event.revents at

module _ {W R : Type 0} (P : Platform W) where
  prepare_handles-after :
      (event : Pollfd) (d : Demultiplexer W R) (m : Mux W R) (w : World W R) (ready : List (Op W R))
      (m' : Mux W R) (w' : World W R) (ready' : List (Op W R))
      → prepare_handles P event.revents (to_size event.fd) d m w ready ≡ dispatched m' w' ready'
      → (m' ≡ record m { demux = set m.demux (to_size event.fd) (kept event.revents d) })
        × (ready' ≡ ready ++ woken event.revents d)
  unfolding prepare_handles
  prepare_handles-after event d m w ready m' w' ready' e = ground arith

  pub handle_event-Handled :
      (event : Pollfd) (m : Mux W R) (w : World W R) (ready : List (Op W R)) (m' : Mux W R)
      (w' : World W R) (ready' : List (Op W R))
      → handle_event P event m w ready ≡ dispatched m' w' ready'
      → Handled event m ready m' ready'
  unfolding handle_event
  handle_event-Handled event m w ready m' w' ready' e =
      elim (Option-cases (get_elem? m.demux (to_size event.fd))) [
        | inl missing ↦ absurd (ground arith)
        | inr (d, there) ↦
            let (state, woke) =
              prepare_handles-after event d (record m { list = clear_event event m.list }) w ready
                m' w' ready' (rw (there, handle_event) at e) in
            record { at = d; found = there; state = state; woke = woke }
      ]

  -- A dispatch that ends well has handled its first event well.
  pub dispatch-cons :
      (event : Pollfd) (events : List Pollfd) (m : Mux W R) (w : World W R) (ready : List (Op W R))
      (m' : Mux W R) (w' : World W R) (ready' : List (Op W R))
      → dispatch P (event ∷ events) m w ready ≡ dispatched m' w' ready'
      → (m₁ : Mux W R) × (w₁ : World W R) × (ready₁ : List (Op W R)) × (handle_event P event m w
            ready
          ≡ dispatched m₁ w₁ ready₁)
        × (dispatch P events m₁ w₁ ready₁ ≡ dispatched m' w' ready')
  unfolding dispatch
  dispatch-cons event events m w ready m' w' ready' e = go (handle_event P event m w ready) refl
    where
      go :
          (r : Dispatched W R)
          → handle_event P event m w ready ≡ r
          → (m₁ : Mux W R) × (w₁ : World W R) × (ready₁ : List (Op W R)) × (handle_event P event m w
                ready
              ≡ dispatched m₁ w₁ ready₁)
            × (dispatch P events m₁ w₁ ready₁ ≡ dispatched m' w' ready')
      go (dispatched m₁ w₁ ready₁) h = (m₁, w₁, ready₁, h, rw (h, dispatch) at e)
      go (threw x m₁ w₁ ready₁) h = absurd (ground arith)
      go undefined h = absurd (ground arith)

  -- What every event that is handled keeps, the whole dispatch keeps.
  pub dispatch_rule :
      (Good : Pollfd → Type 0) (Inv : Mux W R → List (Op W R) → Type 0)
      → ((event : Pollfd) (m : Mux W R) (ready : List (Op W R)) (m' : Mux W R)
            (ready' : List (Op W R))
          → Good event
          → Handled event m ready m' ready'
          → Inv m ready
          → Inv m' ready')
      → (events : List Pollfd) (m : Mux W R) (w : World W R) (ready : List (Op W R)) (m' : Mux W R)
        (w' : World W R) (ready' : List (Op W R))
      → All Good events
      → dispatch P events m w ready ≡ dispatched m' w' ready'
      → Inv m ready
      → Inv m' ready'
  unfolding dispatch
  dispatch_rule Good Inv keep [] m w ready m' w' ready' good e i =
      subst₂ Inv (ground arith) (ground arith) i
  dispatch_rule Good Inv keep (event ∷ events) m w ready m' w' ready' good e i =
      let (m₁, w₁, ready₁, first, rest) = dispatch-cons event events m w ready m' w' ready' e in
      dispatch_rule Good Inv keep events m₁ w₁ ready₁ m' w' ready' good.1 rest (
        keep event m ready m₁ ready₁ good.0
          (handle_event-Handled event m w ready m₁ w₁ ready₁ first) i)
