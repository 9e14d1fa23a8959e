-- ===== src/Poll/Service.antt =====
-- No waiting task is passed over: what the kernel reports ready is completed.
use async_berkeley.Base.{
  ℕ, ◌≡◌, refl, sym, ap, ◌∙◌, false, true, some, ◌==◌, ==_iff, List, [], ◌∷◌, ◌++◌, ℤ, arith,
  get_elem?, get_elem?-set, map, if◌then◌else◌, inl, inr, ◌⊎◌, Bool, Bool-cases, some_inj,
}
use async_berkeley.Poll.Flags.{Flags, Pollfd, wakes_writers, wakes_readers}
use async_berkeley.Poll.Interest.{Trigger, read, write, eager, copy_active}
use async_berkeley.Poll.Syscall.{Reply, returned, poll_}
use async_berkeley.Poll.Mux.{Platform, Op, Demultiplexer, Mux, World, to_size}
use async_berkeley.Poll.Wait.{dispatched, handled, woken, kept, dispatch, wait_for}
use async_berkeley.Poll.Steps.{Handled, after, dispatch-cons, handle_event-Handled}
use async_berkeley.Poll.Completion.{receiver_of, run_ready-signals}
use async_berkeley.Poll.Delivery.{queue_of}
use async_berkeley.Poll.Runs.Interleaved.{wait_for-dispatched, finish-dispatched}

-- `a` stands in the list.
abbrev pub In : {A : Type 0} → A → List A → Type 0
In a [] = ⊥
In a (x ∷ xs) = (x ≡ a) ⊎ In a xs

module _ {A : Type 0} where
  In-append_left : (a : A) (xs ys : List A) → In a xs → In a (xs ++ ys)
  In-append_left a [] ys h = absurd h
  In-append_left a (x ∷ xs) ys (inl e) = inl e
  In-append_left a (x ∷ xs) ys (inr h) = inr (In-append_left a xs ys h)

  In-append_right : (a : A) (xs ys : List A) → In a ys → In a (xs ++ ys)
  In-append_right a [] ys h = h
  In-append_right a (x ∷ xs) ys h = inr (In-append_right a xs ys h)

In-map : {A B : Type 0} (f : A → B) (a : A) (xs : List A) → In a xs → In (f a) (map f xs)
In-map f a [] h = absurd h
In-map f a (x ∷ xs) (inl e) = inl (ap f e)
In-map f a (x ∷ xs) (inr h) = inr (In-map f a xs h)

-- The flags make the tasks of the trigger ready.
abbrev pub wakes : Trigger → Flags → Bool
wakes read r = wakes_readers r
wakes write r = wakes_writers r
wakes eager r = false

-- An event of the slot that makes its tasks of the trigger ready.
abbrev pub Names : Trigger → ℕ → Pollfd → Type 0
Names t n event = (to_size event.fd ≡ n) × (wakes t event.revents ≡ true)

module _ {W R : Type 0} where
  In-woken :
      (t : Trigger) (op : Op W R) (r : Flags) (d : Demultiplexer W R)
      → wakes t r ≡ true
      → In op (queue_of t d)
      → In op (woken r d)
  unfolding woken
  In-woken read op r d ready h =
      In-append_right op (if wakes_writers r then d.write_queue else []) _ (rw ready h)
  In-woken write op r d ready h = rw ready (In-append_left op d.write_queue _ h)
  In-woken eager op r d ready h = absurd (ground arith)

  queue_of-kept :
      (t : Trigger) (r : Flags) (d : Demultiplexer W R)
      → wakes t r ≡ false
      → queue_of t (kept r d) ≡ queue_of t d
  unfolding kept
  queue_of-kept read r d quiet = rw quiet refl
  queue_of-kept write r d quiet = rw quiet refl
  queue_of-kept eager r d quiet = refl

  -- The task waits at the slot `n`.
  abbrev pub Waits : Trigger → Op W R → ℕ → Mux W R → Type 0
  Waits t op n m = (d : Demultiplexer W R) × (get_elem? m.demux n ≡ some d) × In op (queue_of t d)

  In-woke :
      (t : Trigger) (op : Op W R) (n : ℕ) (event : Pollfd) (d : Demultiplexer W R) (m m' : Mux W R)
      (ready ready' : List (Op W R))
      → Handled event m ready m' ready'
      → get_elem? m.demux n ≡ some d
      → In op (queue_of t d)
      → Names t n event
      → In op ready'
  In-woke t op n event d m m' ready ready' h there waits (same, wake) =
      let own : h.at ≡ d = some_inj (sym h.found ∙ ap (get_elem? m.demux) same ∙ there) in
      rw (h.woke, own) (In-append_right op ready _ (In-woken t op event.revents d wake waits))

  Waits-step :
      (t : Trigger) (op : Op W R) (n : ℕ) (event : Pollfd) (m m' : Mux W R)
      (ready ready' : List (Op W R))
      → Handled event m ready m' ready'
      → Waits t op n m
      → Waits t op n m' ⊎ In op ready'
  Waits-step t op n event m m' ready ready' h (d, there, waits) =
      elim (Bool-cases (to_size event.fd == n)) [
        | inr other ↦ inl (d, rw h.state (slot ∙ rw other there), waits)
        | inl same ↦ elim (Bool-cases (wakes t event.revents)) [
          | inl wake ↦ inr (
              In-woke t op n event d m m' ready ready' h there waits
                ((==_iff (to_size event.fd) n).0 same, wake))
          | inr quiet ↦ inl (
            kept event.revents h.at,
            rw h.state (slot ∙ rw same refl),
            rw
                (
                  queue_of-kept t event.revents h.at quiet,
                  own ((==_iff (to_size event.fd) n).0 same),
                )
                waits,
          )
        ]
      ]
    where
      slot :
          get_elem? (after event h.at m).demux n
          ≡ (if to_size event.fd == n then some (kept event.revents h.at) else get_elem? m.demux n)
      slot = get_elem?-set m.demux (to_size event.fd) n h.at (kept event.revents h.at) h.found

      own : to_size event.fd ≡ n → h.at ≡ d
      own same = some_inj (sym h.found ∙ ap (get_elem? m.demux) same ∙ there)

  In-ready :
      (op : Op W R) (event : Pollfd) (m m' : Mux W R) (ready ready' : List (Op W R))
      → Handled event m ready m' ready'
      → In op ready
      → In op ready'
  In-ready op event m m' ready ready' h r = rw h.woke (In-append_left op ready _ r)

  module _ (P : Platform W) where
    ready-dispatch :
        (op : Op W R) (events : List Pollfd) (m : Mux W R) (w : World W R) (ready : List (Op W R))
        (m' : Mux W R) (w' : World W R) (ready' : List (Op W R))
        → dispatch P events m w ready ≡ dispatched m' w' ready'
        → In op ready
        → In op ready'
    unfolding dispatch
    ready-dispatch op [] m w ready m' w' ready' e r =
        let same : ready ≡ ready' = ground arith in rw (← same) r
    ready-dispatch op (event ∷ events) m w ready m' w' ready' e r =
        let (m₁, w₁, ready₁, first, rest) = dispatch-cons P event events m w ready m' w' ready' e in
        let h = handle_event-Handled P event m w ready m₁ w₁ ready₁ first in
        ready-dispatch op events m₁ w₁ ready₁ m' w' ready' rest
          (In-ready op event m m₁ ready ready₁ h r)

    -- A dispatch that ends well makes every task ready that waits at a slot which an event names.
    Waits-dispatch :
        (t : Trigger) (op : Op W R) (n : ℕ) (named : Pollfd) (events : List Pollfd) (m : Mux W R)
        (w : World W R) (ready : List (Op W R)) (m' : Mux W R) (w' : World W R)
        (ready' : List (Op W R))
        → In named events
        → Names t n named
        → dispatch P events m w ready ≡ dispatched m' w' ready'
        → Waits t op n m
        → In op ready'
    Waits-dispatch t op n named [] m w ready m' w' ready' has names e waits = absurd has
    Waits-dispatch t op n named (event ∷ events) m w ready m' w' ready' has names e waits =
        let (m₁, w₁, ready₁, first, rest) = dispatch-cons P event events m w ready m' w' ready' e in
        let h = handle_event-Handled P event m w ready m₁ w₁ ready₁ first in
        let then_ready = ready-dispatch op events m₁ w₁ ready₁ m' w' ready' rest in
        elim has [
          | inl same ↦
              then_ready
                (In-woke t op n event waits.0 m m₁ ready ready₁ h waits.1 waits.2 (rw same names))
          | inr later ↦ elim (Waits-step t op n event m m₁ ready ready₁ h waits) [
            | inl still ↦
                Waits-dispatch t op n named events m₁ w₁ ready₁ m' w' ready' later names rest still
            | inr r ↦ then_ready r
          ]
        ]

    -- Where wait_for handles what poll reports, other threads acting while poll waits, every task that
    -- waits then at a slot which an event names, for what its flags say, has its receiver's signal.
    pub named-served :
        (t : Trigger) (op : Op W R) (n k : ℕ) (named : Pollfd) (events : List Pollfd) (interval : ℤ)
        (now : ℕ) (replies : List Reply) (others : Mux W R → World W R → Mux W R × World W R)
        (m m' : Mux W R) (w w' : World W R)
        → poll_ P.interrupted (copy_active m.list) interval now replies ≡ returned events
        → wait_for P interval now replies others m w ≡ handled k m' w'
        → In named events
        → Names t n named
        → Waits t op n (others m w).0
        → In op.receiver (map receiver_of w'.signals)
    named-served t op n k named events interval now replies others m m' w w' polled e has names
          waits =
        let (events', polled', rest) =
          wait_for-dispatched P interval now replies others m w k m' w' e in
        let same : events ≡ events' = ground arith in
        let (w₁, ready, h, ran) =
          finish-dispatched P events' (others m w).0 (others m w).1 k m' w' rest in
        let is_ready =
          Waits-dispatch t op n named events' (others m w).0 (others m w).1 [] m' w₁ ready
            (rw (← same) has) names h waits in
        rw (ran, run_ready-signals P ready w₁)
          (In-append_right op.receiver (map receiver_of w₁.signals) _
            (In-map (λ o. o.receiver) op ready is_ready))
