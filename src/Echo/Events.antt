-- ===== src/Echo/Events.antt =====
-- What the events of examples/tcp_echo.cpp do with the server's clients and its pending accept.
use async_berkeley.Base.{
  ℕ, suc, ◌+◌, length-append, All, ◌≡◌, refl, sym, ◌∙◌, ap, Bool, true, false, some, Option-cases,
  List, [], ◌∷◌, ◌++◌, ◌==◌, ==_iff, some_inj, ◌<◌, get_elem?, get_elem?-set, get_elem?-append,
  lt_of_get_elem?, length, length-set, if◌then◌else◌, arith, Bool-cases, inl, inr,
}
use async_berkeley.Echo.{Completion, Client, reader, on_completion, run_completions}
use async_berkeley.Echo.Acceptor.{
  Event, connects, refuses, completes, Server, fresh, acceptor, on_connection, on_event, run_events,
}

-- The completions of one client.
abbrev pub of_client : ℕ → List Event → List Completion
of_client i [] = []
of_client i (connects memory ∷ es) = of_client i es
of_client i (refuses ∷ es) = of_client i es
of_client i (completes j e ∷ es) = if j == i then e ∷ of_client i es else of_client i es

abbrev pub is_refusal : Event → Bool
is_refusal refuses = true
is_refusal _ = false

-- How many of the events are connections.
abbrev pub connections : List Event → ℕ
connections [] = 0
connections (connects memory ∷ es) = suc (connections es)
connections (refuses ∷ es) = connections es
connections (completes i e ∷ es) = connections es

module _ (buffer_at : ℕ → ℕ → ℕ) where
  -- Clients that are there, after one event.
  abbrev after_event : ℕ → Event → Client → Client
  after_event i e c = run_completions (buffer_at i) (of_client i (e ∷ [])) c

  on_event-client :
      (e : Event) (s : Server) (i : ℕ) (c : Client)
      → get_elem? s.clients i ≡ some c
      → get_elem? (on_event buffer_at e s).clients i ≡ some (after_event i e c)
  unfolding on_event on_connection acceptor run_completions
  on_event-client (connects memory) s i c there = elim (Bool-cases s.accepting) [
    | inl listens ↦
        let inside : i < length s.clients = lt_of_get_elem? s.clients i c there in
        let new = reader (buffer_at (length s.clients)) (fresh memory) in
        rw listens (get_elem?-append s.clients (new ∷ []) i inside ∙ there)
    | inr shut ↦ rw shut there
  ]
  on_event-client refuses s i c there = there
  on_event-client (completes j e) s i c there = elim (Option-cases (get_elem? s.clients j)) [
    | inl missing ↦ ground (arith, ==_iff j i)
    | inr (d, found) ↦ elim (Bool-cases (j == i)) [
      | inl same ↦
          let here : j ≡ i = (==_iff j i).0 same in
          let is_c : d ≡ c = some_inj (sym found ∙ ap (get_elem? s.clients) here ∙ there) in
          rw (on_event, found, same)
            (get_elem?-set s.clients j i d (on_completion (buffer_at j) e d) found
              ∙ rw (same, here, is_c) refl)
      | inr other ↦
          rw (on_event, found, other)
            (get_elem?-set s.clients j i d (on_completion (buffer_at j) e d) found ∙ rw other there)
    ]
  ]

  joined :
      (i : ℕ) (e : Event) (es : List Event) (c : Client)
      → run_completions (buffer_at i) (of_client i es) (after_event i e c)
        ≡ run_completions (buffer_at i) (of_client i (e ∷ es)) c
  unfolding run_completions
  joined i (connects memory) es c = refl
  joined i refuses es c = refl
  joined i (completes j e) es c = elim (Bool-cases (j == i)) [
    | inl same ↦ rw same refl
    | inr other ↦ rw other refl
  ]

  pub run_events-there :
      (es : List Event) (s : Server) (i : ℕ) (c : Client)
      → get_elem? s.clients i ≡ some c
      → get_elem? (run_events buffer_at es s).clients i
        ≡ some (run_completions (buffer_at i) (of_client i es) c)
  unfolding run_events run_completions
  run_events-there [] s i c there = there
  run_events-there (e ∷ es) s i c there =
      run_events-there es (on_event buffer_at e s) i (after_event i e c)
        (on_event-client e s i c there)
      ∙ ap some (joined i e es c)

  pub run_events-append :
      (es later : List Event) (s : Server)
      → run_events buffer_at (es ++ later) s
        ≡ run_events buffer_at later (run_events buffer_at es s)
  unfolding run_events
  run_events-append [] later s = refl
  run_events-append (e ∷ es) later s = run_events-append es later (on_event buffer_at e s)

  -- Every connection of the events is accepted, and an accept is pending at the end.
  abbrev pub AcceptsAll : List Event → Server → Type 0
  AcceptsAll es s =
      ((run_events buffer_at es s).accepting ≡ true)
      × (length (run_events buffer_at es s).clients ≡ length s.clients + connections es)

  completes-clients :
      (i : ℕ) (e : Completion) (s : Server)
      → ((on_event buffer_at (completes i e) s).accepting ≡ s.accepting)
        × (length (on_event buffer_at (completes i e) s).clients ≡ length s.clients)
  unfolding on_event
  completes-clients i e s = elim (Option-cases (get_elem? s.clients i)) [
    | inl missing ↦ rw (on_event, missing) (refl, refl)
    | inr (c, found) ↦
        rw (on_event, found) (refl, length-set s.clients i (on_completion (buffer_at i) e c))
  ]

  pub connects-clients :
      (memory : ℕ → ℕ) (s : Server)
      → s.accepting ≡ true
      → on_event buffer_at (connects memory) s ≡ record {
        accepting = true;
        clients = s.clients ++ reader (buffer_at (length s.clients)) (fresh memory) ∷ [];
      }
  unfolding on_event on_connection acceptor
  connects-clients memory s listens = rw listens refl

  pub run_events-accepts :
      (es : List Event) (s : Server)
      → All (λ e. is_refusal e ≡ false) es
      → s.accepting ≡ true
      → AcceptsAll es s
  unfolding run_events
  run_events-accepts [] s open_always listens = (listens, omega arith)
  run_events-accepts (connects memory ∷ es) s open_always listens =
      let new = reader (buffer_at (length s.clients)) (fresh memory) in
      let one = connects-clients memory s listens in
      let (still, many) =
        run_events-accepts es (on_event buffer_at (connects memory) s) open_always.1
          (ap (λ (t : Server). t.accepting) one) in
      let more : length (on_event buffer_at (connects memory) s).clients ≡ length s.clients + 1 =
        ap (λ (t : Server). length t.clients) one ∙ length-append s.clients (new ∷ []) in
      (still, omega (arith, many, more))
  run_events-accepts (refuses ∷ es) s open_always listens = absurd (ground (arith, open_always.0))
  run_events-accepts (completes i e ∷ es) s open_always listens =
      let (same, as_many) = completes-clients i e s in
      let (still, many) =
        run_events-accepts es (on_event buffer_at (completes i e) s) open_always.1
          (same ∙ listens) in
      (still, omega (arith, many, as_many))

  shut_once :
      (e : Event) (s : Server)
      → s.accepting ≡ false
      → ((on_event buffer_at e s).accepting ≡ false)
        × (length (on_event buffer_at e s).clients ≡ length s.clients)
  unfolding on_event
  shut_once (connects memory) s closed = ground arith
  shut_once refuses s closed = (refl, refl)
  shut_once (completes i e) s closed =
      let (same, as_many) = completes-clients i e s in (same ∙ closed, as_many)

  shut :
      (later : List Event) (s : Server)
      → s.accepting ≡ false
      → length (run_events buffer_at later s).clients ≡ length s.clients
  unfolding run_events
  shut [] s closed = refl
  shut (e ∷ later) s closed =
      let (still, same) = shut_once e s closed in shut later (on_event buffer_at e s) still ∙ same

  -- An accept that fails: no client is accepted after it.
  pub run_events-refused :
      (es later : List Event) (s : Server)
      → length (run_events buffer_at (es ++ refuses ∷ later) s).clients
        ≡ length (run_events buffer_at es s).clients
  unfolding run_events on_event
  run_events-refused es later s =
      ap (λ (t : Server). length t.clients) (run_events-append es (refuses ∷ later) s)
      ∙ shut later (record (run_events buffer_at es s) { accepting = false }) refl
