-- ===== src/Poll/Backing.antt =====
-- Every entry of the interest list keeps a demultiplexer that knows its socket.
use async_berkeley.Base.{
  ℕ, zero, suc, ◌-◌, ◌≡◌, ◌∙◌, refl, sym, ap, some, List, [], ◌∷◌, ◌++◌, ℤ, int_eq, int_lt, arith,
  length, get_elem?, set, get_elem?-set, All, Bool-cases, inl, inr, ◌⊎◌, ◌==◌, ==_iff, ==_refl,
  some_inj, replicate,
}
use async_berkeley.Poll.Flags.{Pollfd}
use async_berkeley.Poll.Interest.{
  make_poll_event, update_or_insert_event, upserted, upsert_lem, clear_event,
}
use async_berkeley.Poll.Order.{cleared_list, clear_event_lem}
use async_berkeley.Poll.Mux.{Op, Demultiplexer, Mux, enqueue, to_size, no_demux, grow}
use async_berkeley.Poll.Wait.{kept}
use async_berkeley.Poll.Steps.{after}
use async_berkeley.Poll.Submit.{Registered}
use async_berkeley.Poll.Safety.{BackedAt, Backed, BackedAt-set, kept-socket}

module _ {ℓ} (Q : ℤ → Type ℓ) where
  All-upserted :
      (list : List Pollfd) (e : Pollfd)
      → All (λ p. Q p.fd) list
      → Q e.fd
      → All (λ p. Q p.fd) (upserted list e)
  All-upserted [] e q new = (new, tt)
  All-upserted (p ∷ ps) e q new = elim (Bool-cases (int_lt p.fd e.fd)) [
    | inl below ↦ rw below (q.0, All-upserted ps e q.1 new)
    | inr above ↦ elim (Bool-cases (int_eq p.fd e.fd)) [
      | inl same ↦ rw (above, same) (q.0, q.1)
      | inr other ↦ rw (above, other) (new, q)
    ]
  ]

  -- What holds of every descriptor of the list and of the new one holds of every one afterwards.
  pub All-update_or_insert_event :
      (list : List Pollfd) (e : Pollfd)
      → All (λ p. Q p.fd) list
      → Q e.fd
      → All (λ p. Q p.fd) (update_or_insert_event list e).0
  All-update_or_insert_event list e q new = rw (upsert_lem list e) (All-upserted list e q new)

  All-cleared_list :
      (e : Pollfd) (list : List Pollfd)
      → All (λ p. Q p.fd) list
      → All (λ p. Q p.fd) (cleared_list e list)
  All-cleared_list e [] q = tt
  All-cleared_list e (p ∷ ps) q = elim (Bool-cases (int_lt p.fd e.fd)) [
    | inl below ↦ rw below (q.0, All-cleared_list e ps q.1)
    | inr above ↦ elim (Bool-cases (int_eq p.fd e.fd)) [
      | inl same ↦ rw (above, same) (q.0, q.1)
      | inr other ↦ rw (above, other) q
    ]
  ]

  pub All-clear_event :
      (e : Pollfd) (list : List Pollfd)
      → All (λ p. Q p.fd) list
      → All (λ p. Q p.fd) (clear_event e list)
  All-clear_event e list q = rw (clear_event_lem e list) (All-cleared_list e list q)

module _ {ℓ κ} {A : Type 0} {P : A → Type ℓ} {Q : A → Type κ} where
  pub All-imp : (xs : List A) → ((x : A) → P x → Q x) → All P xs → All Q xs
  All-imp [] f h = tt
  All-imp (x ∷ xs) f h = (f x h.0, All-imp xs f h.1)

get_elem?-append_old :
    {A : Type 0} (xs ys : List A) (i : ℕ) (a : A)
    → get_elem? xs i ≡ some a
    → get_elem? (xs ++ ys) i ≡ some a
get_elem?-append_old [] ys i a e = absurd (ground arith)
get_elem?-append_old (x ∷ xs) ys zero a e = e
get_elem?-append_old (x ∷ xs) ys (suc i) a e = get_elem?-append_old xs ys i a e

module _ {W R : Type 0} where
  -- A multiplexer that has, for every descriptor that the first one knows the socket of, one too.
  abbrev pub Keeps : Mux W R → Mux W R → Type 0
  Keeps m m' = (fd : ℤ) → BackedAt m.demux fd → BackedAt m'.demux fd

  BackedAt-grown :
      (ds ds' : List (Demultiplexer W R)) (fd : ℤ)
      → (ds' ≡ ds) ⊎ ((n : ℕ) × (ds' ≡ grow n ds))
      → BackedAt ds fd
      → BackedAt ds' fd
  BackedAt-grown ds ds' fd (inl same) b = rw same b
  BackedAt-grown ds ds' fd (inr (n, more)) b = record {
    slot = b.slot;
    socket_of = b.socket_of;
    found =
        rw more (
          get_elem?-append_old ds (replicate (n - length ds) no_demux) (to_size fd) b.slot b.found);
    known = b.known;
  }

  -- A slot may be replaced by one with the same socket.
  BackedAt-same :
      (ds : List (Demultiplexer W R)) (i : ℕ) (d e : Demultiplexer W R) (fd : ℤ)
      → get_elem? ds i ≡ some d
      → e.socket ≡ d.socket
      → BackedAt ds fd
      → BackedAt (set ds i e) fd
  BackedAt-same ds i d e fd there same b = elim (Bool-cases (i == to_size fd)) [
    | inl own ↦ record {
      slot = e;
      socket_of = b.socket_of;
      found = get_elem?-set ds i (to_size fd) d e there ∙ rw own;
      known = ground (arith, same, b.known, slot_of ((==_iff i (to_size fd)).0 own));
    }
    | inr other ↦ record {
      slot = b.slot;
      socket_of = b.socket_of;
      found = get_elem?-set ds i (to_size fd) d e there ∙ rw other b.found;
      known = b.known;
    }
  ]
    where
      slot_of : i ≡ to_size fd → d ≡ b.slot
      slot_of own = some_inj (sym there ∙ ap (get_elem? ds) own ∙ b.found)

  enqueue-socket : (op : Op W R) (d : Demultiplexer W R) → (enqueue op d).socket ≡ some op.socket
  unfolding enqueue
  enqueue-socket op d = refl

  pub after-Keeps :
      (event : Pollfd) (d : Demultiplexer W R) (m : Mux W R)
      → get_elem? m.demux (to_size event.fd) ≡ some d
      → Keeps m (after event d m)
  after-Keeps event d m there fd b =
      BackedAt-same m.demux (to_size event.fd) d (kept event.revents d) fd there
        (kept-socket event.revents d) b

  pub after-Backed :
      (event : Pollfd) (d : Demultiplexer W R) (m : Mux W R)
      → get_elem? m.demux (to_size event.fd) ≡ some d
      → Backed m
      → Backed (after event d m)
  after-Backed event d m there b =
      All-clear_event (BackedAt (after event d m).demux) event m.list
        (All-imp m.list (λ p. after-Keeps event d m there p.fd) b)

  pub queued-Keeps :
      (op : Op W R) (i : ℕ) (d : Demultiplexer W R) (m : Mux W R)
      → get_elem? m.demux i ≡ some d
      → Keeps m (record m { demux = set m.demux i (enqueue op d) })
  queued-Keeps op i d m there fd b =
      BackedAt-set m.demux i d (enqueue op d) op.socket fd there (enqueue-socket op d) b

  -- A registered operation that is queued backs its descriptor.
  pub queued-own :
      (op : Op W R) (fd : ℤ) (d : Demultiplexer W R) (m : Mux W R)
      → get_elem? m.demux (to_size fd) ≡ some d
      → BackedAt (set m.demux (to_size fd) (enqueue op d)) fd
  queued-own op fd d m there = record {
    slot = enqueue op d;
    socket_of = op.socket;
    found =
        get_elem?-set m.demux (to_size fd) (to_size fd) d (enqueue op d) there
        ∙ rw (==_refl (to_size fd));
    known = enqueue-socket op d;
  }

  pub Registered-Keeps :
      (op : Op W R) (fd : ℤ) (m : Mux W R) (op' : Op W R) (m' : Mux W R)
      → Registered op fd m op' m'
      → Keeps m m'
  Registered-Keeps op fd m op' m' r k b = BackedAt-grown m.demux m'.demux k r.grown b

  -- Every entry is one of the registered event or an old one.
  pub Registered-All :
      (Q : ℤ → Type 0) (op : Op W R) (fd : ℤ) (m : Mux W R) (op' : Op W R) (m' : Mux W R)
      → Registered op fd m op' m'
      → All (λ p. Q p.fd) m.list
      → Q fd
      → All (λ p. Q p.fd) m'.list
  unfolding make_poll_event
  Registered-All Q op fd m op' m' r q new =
      rw r.list (All-update_or_insert_event Q m.list (make_poll_event fd op.trigger) q new)
