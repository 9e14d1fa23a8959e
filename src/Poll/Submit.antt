-- ===== src/Poll/Submit.antt =====
-- `connect` and `start` of the poll multiplexer, taken apart.
use async_berkeley.Base.{
  ℕ, zero, suc, ◌+◌, ◌-◌, ◌%◌, ◌^◌, ◌<◌, ◌≡◌, true, false, ◌||◌, none, some, List, [], ◌∷◌, ◌++◌, ℤ,
  pos, arith, length, get_elem?, set, replicate, Option-cases, Bool-cases, inl, inr, ◌⊎◌, ltb,
  get_elem?-some, lt_of_get_elem?, length-append, length-replicate, negsuc,
}
use async_berkeley.Poll.Interest.{update_or_insert_event, make_poll_event}
use async_berkeley.Poll.Mux.{
  Platform, Op, Demultiplexer, Mux, World, connected, rejected, register, place, make_room, add_one,
  connect, start, enqueue, to_size, grow, out_of_range, is_eager, is_failing, no_demux, complete,
}

-- A slot of a list that was made longer is an old one or the new value.
pub get_elem?-grown :
    {A : Type 0} (xs : List A) (k i : ℕ) (a d : A)
    → get_elem? (xs ++ replicate k a) i ≡ some d
    → (get_elem? xs i ≡ some d) ⊎ (d ≡ a)
get_elem?-grown [] zero i a d e = absurd (ground arith)
get_elem?-grown [] (suc k) zero a d e = inr (ground arith)
get_elem?-grown [] (suc k) (suc i) a d e = get_elem?-grown [] k i a d e
get_elem?-grown (x ∷ xs) k zero a d e = inl e
get_elem?-grown (x ∷ xs) k (suc i) a d e = get_elem?-grown xs k i a d e

module _ {W R : Type 0} where
  -- What `connect` changes under the lock: it may append demultiplexers, and it adds the event.
  pub record Registered (op : Op W R) (fd : ℤ) (m : Mux W R) (op' : Op W R) (m' : Mux W R)
      : Type 0 where
    pub op_state : op' ≡ record op { demux = some (to_size fd) }
    pub list : m'.list ≡ (update_or_insert_event m.list (make_poll_event fd op.trigger)).0
    pub slot : Demultiplexer W R
    pub found : get_elem? m'.demux (to_size fd) ≡ some slot
    pub grown : (m'.demux ≡ m.demux) ⊎ ((n : ℕ) × (m'.demux ≡ grow n m.demux))

  place-Registered :
      (op : Op W R) (fd : ℤ) (ds : List (Demultiplexer W R)) (m : Mux W R) (op' : Op W R)
      (m' : Mux W R)
      → (ds ≡ m.demux) ⊎ ((n : ℕ) × (ds ≡ grow n m.demux))
      → place op fd ds m ≡ connected op' m'
      → Registered op fd m op' m'
  unfolding place
  place-Registered op fd ds m op' m' g e = elim (Option-cases (get_elem? ds (to_size fd))) [
    | inl missing ↦ absurd (ground arith)
    | inr (d, there) ↦
        let same : m'.demux ≡ ds = ground arith in
        record {
          op_state = ground arith;
          list = ground arith;
          slot = d;
          found = rw same there;
          grown = rw same g;
        }
  ]

  module _ (P : Platform W) where
    make_room-grown :
        (fd : ℤ) (old ds : List (Demultiplexer W R))
        → make_room P fd old ≡ some ds
        → (ds ≡ old) ⊎ ((n : ℕ) × (ds ≡ grow n old))
    unfolding make_room
    make_room-grown fd old ds e = elim (Bool-cases (ltb (length old) ((to_size fd + 1) % 2 ^ 64))) [
      | inl small ↦ inr (to_size (add_one fd), ground arith)
      | inr large ↦ inl (ground arith)
    ]

    register-Registered :
        (op : Op W R) (fd : ℤ) (m : Mux W R) (op' : Op W R) (m' : Mux W R)
        → register P op fd m ≡ connected op' m'
        → Registered op fd m op' m'
    unfolding register
    register-Registered op fd m op' m' e = elim (Option-cases (make_room P fd m.demux)) [
      | inl missing ↦ absurd (ground arith)
      | inr (ds, room) ↦
          place-Registered op fd ds m op' m' (make_room-grown fd m.demux ds room)
            (rw (room, register) at e)
    ]

    make_room-covers :
        (n : ℕ) (old : List (Demultiplexer W R))
        → n < 2 ^ 31
        → n < P.max_size
        → (ds : List (Demultiplexer W R)) × (make_room P (pos n) old ≡ some ds) × (n < length ds)
    unfolding make_room
    make_room-covers n old int room = elim (Bool-cases (ltb (length old) (n + 1))) [
      | inl small ↦ (
        grow (n + 1) old,
        ground arith,
        ground (
          arith,
          length-append old (replicate (n + 1 - length old) no_demux),
          length-replicate (n + 1 - length old) (no_demux {W = W} {R = R}),
        ),
      )
      | inr large ↦ (old, ground arith, ground arith)
    ]

    -- A descriptor that is an `int` has room, so that `connect` succeeds on an open socket.
    pub register-total :
        (op : Op W R) (n : ℕ) (m : Mux W R)
        → n < 2 ^ 31
        → n < P.max_size
        → (op' : Op W R) × (m' : Mux W R) × (register P op (pos n) m ≡ connected op' m')
    unfolding register place
    register-total op n m int room =
        let (ds, made, covered) = make_room-covers n m.demux int room in
        let (d, there) = get_elem?-some ds n covered in
        (
          record op { demux = some n },
          record {
            demux = ds;
            list = (update_or_insert_event m.list (make_poll_event (pos n) op.trigger)).0;
          },
          rw (made, register, place) (ground (arith, there)),
        )

    -- The descriptor -1 of a closed handle has no demultiplexer: `at` throws, and nothing changes.
    pub register-closed :
        (op : Op W R) (m : Mux W R)
        → length m.demux < 2 ^ 64
        → register P op (negsuc 0) m ≡ rejected out_of_range
    unfolding register make_room place
    register-closed op m h = elim (Option-cases (get_elem? m.demux (2 ^ 64 - 1))) [
      | inl missing ↦ ground arith
      | inr (d, there) ↦ absurd (omega (arith, lt_of_get_elem? m.demux (2 ^ 64 - 1) d there))
    ]

    -- `connect` registers the operation's event, or leaves the operation to complete at its start.
    pub connect-cases :
        (op : Op W R) (m : Mux W R) (w : World W R) (op' : Op W R) (m' : Mux W R)
        → connect P op m w ≡ connected op' m'
        → ((op' ≡ record op { demux = none })
            × (m' ≡ m)
            × ((is_eager op.trigger || is_failing P (w.errors op.socket)) ≡ true))
          ⊎ (Registered op (w.native op.socket) m op' m'
              × ((is_eager op.trigger || is_failing P (w.errors op.socket)) ≡ false))
    unfolding connect
    connect-cases op m w op' m' e = elim (Bool-cases (is_failing P (w.errors op.socket))) [
      | inl failing ↦ inl (ground arith, ground arith, ground arith)
      | inr fine ↦ elim (Bool-cases (is_eager op.trigger)) [
        | inl now ↦ inl (ground arith, ground arith, ground arith)
        | inr later ↦ inr (
          register-Registered op (w.native op.socket) m op' m' (rw (fine, later, connect) at e),
          ground arith,
        )
      ]
    ]

    -- `start` completes the operation, or queues it at its demultiplexer.
    pub start-cases :
        (op : Op W R) (m : Mux W R) (w : World W R) (m' : Mux W R) (w' : World W R)
        → start P op m w ≡ some (m', w')
        → ((m' ≡ m) × (w' ≡ complete P op w))
          ⊎ ((i : ℕ) × (d : Demultiplexer W R) × (op.demux ≡ some i)
              × (get_elem? m.demux i ≡ some d)
              × (m' ≡ record m { demux = set m.demux i (enqueue op d) })
              × (w' ≡ w))
    unfolding start
    start-cases op m w m' w' e =
        elim (Bool-cases (is_eager op.trigger || is_failing P (w.errors op.socket))) [
          | inl now ↦ inl (ground arith, ground arith)
          | inr later ↦ elim (Option-cases op.demux) [
            | inl nowhere ↦ absurd (ground arith)
            | inr (i, at_i) ↦ elim (Option-cases (get_elem? m.demux i)) [
              | inl missing ↦ absurd (ground arith)
              | inr (d, there) ↦ inr (i, d, at_i, there, ground arith, ground arith)
            ]
          ]
        ]
