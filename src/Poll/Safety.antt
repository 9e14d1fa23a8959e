-- ===== src/Poll/Safety.antt =====
-- `wait_for` reads no null pointer and no demultiplexer past the end.
use async_berkeley.Base.{
  ℕ, ◌≡◌, ◌≢◌, ◌==◌, refl, sym, ◌∙◌, ap, true, some, List, [], ◌∷◌, ℤ, arith, get_elem?, set,
  get_elem?-set, All, Bool-cases, inl, inr,
}
use async_berkeley.Poll.Flags.{Flags, Pollfd, any_flag}
use async_berkeley.Poll.Interest.{copy_active}
use async_berkeley.Poll.Syscall.{Reply, Polled, returned, thrown, waiting, poll_}
use async_berkeley.Poll.Mux.{Platform, Op, Demultiplexer, Mux, World, to_size}
use async_berkeley.Poll.Wait.{
  Dispatched, dispatched, threw, undefined, crashed, kept, handle_event, prepare_handles, dispatch,
  finish, wait_for,
}
use async_berkeley.Poll.Steps.{after, handle_event-Handled}
use async_berkeley.Poll.Timeout.{poll_-All, copy_active-All}

some-injective : {A : Type 0} {a b : A} → some a ≡ some b → a ≡ b
some-injective e = cc

module _ {W R : Type 0} where
  -- The descriptor has a demultiplexer, which knows its socket.
  pub record BackedAt (ds : List (Demultiplexer W R)) (fd : ℤ) : Type 0 where
    pub slot : Demultiplexer W R
    pub socket_of : ℕ
    pub found : get_elem? ds (to_size fd) ≡ some slot
    pub known : slot.socket ≡ some socket_of

  -- All entries of the interest list are backed.
  abbrev pub Backed : Mux W R → Type 0
  Backed m = All (λ p. BackedAt m.demux p.fd) m.list

  pub kept-socket : (r : Flags) (d : Demultiplexer W R) → (kept r d).socket ≡ d.socket
  unfolding kept
  kept-socket r d = refl

  -- A slot may be replaced by one that knows a socket too.
  pub BackedAt-set :
      (ds : List (Demultiplexer W R)) (i : ℕ) (d e : Demultiplexer W R) (s : ℕ) (fd : ℤ)
      → get_elem? ds i ≡ some d
      → e.socket ≡ some s
      → BackedAt ds fd
      → BackedAt (set ds i e) fd
  BackedAt-set ds i d e s fd there known b = elim (Bool-cases (i == to_size fd)) [
    | inl same ↦ record {
      slot = e;
      socket_of = s;
      found = get_elem?-set ds i (to_size fd) d e there ∙ rw same;
      known = known;
    }
    | inr other ↦ record {
      slot = b.slot;
      socket_of = b.socket_of;
      found = get_elem?-set ds i (to_size fd) d e there ∙ rw other b.found;
      known = b.known;
    }
  ]

  module _ (P : Platform W) where
    prepare-defined :
        (r : Flags) (i : ℕ) (d : Demultiplexer W R) (s : ℕ) (m : Mux W R) (w : World W R)
        (ready : List (Op W R))
        → d.socket ≡ some s
        → prepare_handles P r i d m w ready ≢ undefined
    unfolding prepare_handles
    prepare-defined r i d s m w ready known = ground arith

    handle_event-defined :
        (event : Pollfd) (m : Mux W R) (w : World W R) (ready : List (Op W R))
        → BackedAt m.demux event.fd
        → handle_event P event m w ready ≢ undefined
    unfolding handle_event
    handle_event-defined event m w ready b =
        rw (b.found, handle_event)
          (prepare-defined event.revents (to_size event.fd) b.slot b.socket_of _ w ready b.known)

    Backed-after :
        (event : Pollfd) (m : Mux W R) (d : Demultiplexer W R) (s : ℕ) (ps : List Pollfd)
        → get_elem? m.demux (to_size event.fd) ≡ some d
        → d.socket ≡ some s
        → All (λ p. BackedAt m.demux p.fd) ps
        → All (λ p. BackedAt (after event d m).demux p.fd) ps
    Backed-after event m d s [] there known b = tt
    Backed-after event m d s (p ∷ ps) there known b = (
      BackedAt-set m.demux (to_size event.fd) d (kept event.revents d) s p.fd there
          (kept-socket event.revents d ∙ known) b.0,
      Backed-after event m d s ps there known b.1,
    )

    dispatch-defined :
        (events : List Pollfd) (m : Mux W R) (w : World W R) (ready : List (Op W R))
        → All (λ e. BackedAt m.demux e.fd) events
        → dispatch P events m w ready ≢ undefined
    unfolding dispatch
    dispatch-defined [] m w ready b = λ e. cc
    dispatch-defined (event ∷ events) m w ready b =
        go (dispatch-defined events) (handle_event P event m w ready) refl
      where
        go :
            ((m' : Mux W R) (w' : World W R) (r' : List (Op W R))
              → All (λ e. BackedAt m'.demux e.fd) events
              → dispatch P events m' w' r' ≢ undefined)
            → (r : Dispatched W R) → handle_event P event m w ready ≡ r
            → dispatch P (event ∷ events) m w ready ≢ undefined
        go rest undefined e = absurd (handle_event-defined event m w ready b.0 e)
        go rest (threw x m' w' r') e = λ u. ground arith
        go rest (dispatched m' w' r') e =
            let h = handle_event-Handled P event m w ready m' w' r' e in
            let same : h.at ≡ b.0.slot = some-injective (sym h.found ∙ b.0.found) in
            let later =
              Backed-after event m h.at b.0.socket_of events h.found
                (ap (λ (d : Demultiplexer W R). d.socket) same ∙ b.0.known) b.1 in
            λ u. rest m' w' r' (rw h.state later) (rw (e, dispatch) at u)

    pub drop-flag :
        (ds : List (Demultiplexer W R)) (events : List Pollfd)
        → All (λ p. BackedAt ds p.fd × (any_flag p.revents ≡ true)) events
        → All (λ p. BackedAt ds p.fd) events
    drop-flag ds [] b = tt
    drop-flag ds (e ∷ es) b = (b.0.0, drop-flag ds es b.1)

    pub finish-defined :
        (events : List Pollfd) (m : Mux W R) (w : World W R)
        → All (λ e. BackedAt m.demux e.fd) events
        → finish P events m w ≢ crashed
    unfolding finish
    finish-defined events m w b = go (dispatch P events m w []) refl
      where
        go : (r : Dispatched W R) → dispatch P events m w [] ≡ r → finish P events m w ≢ crashed
        go undefined e = absurd (dispatch-defined events m w [] b e)
        go (threw x m' w' r') e = λ u. ground arith
        go (dispatched m' w' r') e = λ u. ground arith

    -- Where every entry of the interest list is backed, and no other thread changes the multiplexer
    -- while `poll` waits, a call of `wait_for` never reads a null pointer or past the end, whatever the
    -- kernel answers.
    pub wait_for-defined :
        (interval : ℤ) (now : ℕ) (replies : List Reply) (m : Mux W R) (w : World W R)
        → Backed m
        → wait_for P interval now replies (λ m' w'. (m', w')) m w ≢ crashed
    unfolding wait_for
    wait_for-defined interval now replies m w b =
        go (poll_ P.interrupted (copy_active m.list) interval now replies) refl
      where
        go :
            (r : Polled)
            → poll_ P.interrupted (copy_active m.list) interval now replies ≡ r
            → wait_for P interval now replies (λ m' w'. (m', w')) m w ≢ crashed
        go waiting e = λ u. ground arith
        go (thrown x) e = λ u. ground arith
        go (returned events) e =
            let polled =
              poll_-All (BackedAt m.demux) P.interrupted (copy_active m.list) interval now replies
                events (copy_active-All (BackedAt m.demux) m.list b) e in
            λ u. finish-defined events m w (drop-flag m.demux events polled) (rw (e, wait_for) at u)
