-- ===== src/Poll/Wakeups.antt =====
-- No wakeup is lost: a task that waits is one that the interest list asks for.
use async_berkeley.Base.{
  ℕ, ◌≡◌, ◌<◌, ◌^◌, refl, sym, subst₂, ◌∙◌, true, some, List, [], ℤ, pos, int_eq, arith, All,
  get_elem?, get_elem?-set, if◌then◌else◌, Bool-cases, inl, inr, ◌⊎◌, ◌==◌, ==_iff,
}
use async_berkeley.Poll.Flags.{Flags, Pollfd, wakes_writers, wakes_readers}
use async_berkeley.Poll.Interest.{clear_event, Sorted, interest, cleared}
use async_berkeley.Poll.Order.{clear_event-cleared}
use async_berkeley.Poll.Mux.{Platform, Op, Demultiplexer, Mux, World, to_size}
use async_berkeley.Poll.Wait.{dispatched, kept, dispatch}
use async_berkeley.Poll.Steps.{after, dispatch_rule}

pub int_eq-pos : (i j : ℕ) → int_eq (pos i) (pos j) ≡ (i == j)
unfolding int_eq
int_eq-pos i j = ground arith

module _ {W R : Type 0} where
  -- Readers wait only where POLLIN is asked for, and writers only where POLLOUT is.
  pub record ArmedAt (asked : Flags) (d : Demultiplexer W R) : Type 0 where
    pub readers : (d.read_queue ≡ []) ⊎ (asked.pollin ≡ true)
    pub writers : (d.write_queue ≡ []) ⊎ (asked.pollout ≡ true)

  pub record Armed (m : Mux W R) : Type 0 where
    pub sorted : Sorted m.list
    pub at :
        (i : ℕ) (d : Demultiplexer W R)
        → get_elem? m.demux i ≡ some d
        → ArmedAt (interest (pos i) m.list) d

  ArmedAt-kept :
      (r asked : Flags) (d : Demultiplexer W R)
      → ArmedAt asked d
      → ArmedAt (cleared r asked) (kept r d)
  unfolding cleared kept wakes_writers wakes_readers
  ArmedAt-kept r asked d a = ground arith

  pub after-Armed :
      (event : Pollfd) (n : ℕ) (d : Demultiplexer W R) (m : Mux W R)
      → event.fd ≡ pos n
      → to_size event.fd ≡ n
      → get_elem? m.demux n ≡ some d
      → Armed m
      → Armed (after event d m)
  after-Armed event n d m fd small there a = record {
    sorted = (clear_event-cleared event m.list (pos n) a.sorted).0;
    at = λ j e at_j. armed_at j e at_j;
  }
    where
      asked :
          (j : ℕ)
          → interest (pos j) (clear_event event m.list) ≡ (
              if n == j
              then cleared event.revents (interest (pos j) m.list)
              else interest (pos j) m.list)
      asked j = (clear_event-cleared event m.list (pos j) a.sorted).1 ∙ rw (fd, int_eq-pos n j) refl

      slot :
          (j : ℕ)
          → get_elem? (after event d m).demux j
            ≡ (if n == j then some (kept event.revents d) else get_elem? m.demux j)
      slot j = rw small (get_elem?-set m.demux n j d (kept event.revents d) there)

      armed_at :
          (j : ℕ) (e : Demultiplexer W R)
          → get_elem? (after event d m).demux j ≡ some e
          → ArmedAt (interest (pos j) (clear_event event m.list)) e
      armed_at j e at_j = elim (Bool-cases (n == j)) [
        | inl same ↦
            let n-j = (==_iff n j).0 same in
            let here : kept event.revents d ≡ e = ground (arith, slot j) in
            subst₂ ArmedAt (sym (asked j ∙ rw same)) here
              (ArmedAt-kept event.revents (interest (pos j) m.list) d (a.at j d (rw n-j at there)))
        | inr other ↦ rw (asked j, other) (a.at j e (ground (arith, slot j)))
      ]

-- A file descriptor: a non-negative `int`, or at least a value of std::size_t.
abbrev pub IsDescriptor : ℤ → Type 0
IsDescriptor fd = (n : ℕ) × (fd ≡ pos n) × (n < 2 ^ 64)

pub to_size-pos : (fd : ℤ) (n : ℕ) → fd ≡ pos n → n < 2 ^ 64 → to_size fd ≡ n
to_size-pos fd n e h = rw e (omega arith)

-- Handling the events of a poll keeps every waiting task in the interest list: what is taken out of
-- the list is only what the tasks that became ready had asked for. It takes descriptors for events.
pub dispatch-Armed :
    {W R : Type 0} (P : Platform W) (events : List Pollfd) (m : Mux W R) (w : World W R)
    (ready : List (Op W R)) (m' : Mux W R) (w' : World W R) (ready' : List (Op W R))
    → All (λ e. IsDescriptor e.fd) events
    → dispatch P events m w ready ≡ dispatched m' w' ready'
    → Armed m
    → Armed m'
dispatch-Armed P events m w ready m' w' ready' good e a =
    dispatch_rule P (λ x. IsDescriptor x.fd) (λ x r. Armed x)
      (λ event x r x' r' is h b.
        let at_n = to_size-pos event.fd is.0 is.1 is.2 in
        rw h.state (after-Armed event is.0 h.at x is.1 at_n (rw at_n at h.found) b))
      events m w ready m' w' ready' good e a
