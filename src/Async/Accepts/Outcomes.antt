-- ===== src/Async/Accepts/Outcomes.antt =====
-- Accepted connections on all branches.
use async_berkeley.Base.{
  All, ℕ, suc, ◌≡◌, ◌≤◌, refl, ap, ◌∙◌, true, false, some, List, [], ◌∷◌, ◌++◌, ℤ, pos, int_eq, leb,
  length, get_elem?, get_elem?-length, if◌then◌else◌, arith, Bool-cases, inl, inr, int_eq_iff,
  int_eq_refl,
}
use async_berkeley.Socket.Handle.{
  invalid_socket, Store, is_valid, destroy, close, from_native, construct, is_valid_socket,
}
use async_berkeley.Socket.Sync.{Span, subspan, Accept, returned, accept_loop, make_pair, accept}
use async_berkeley.Socket.Sync.Answers.{is_interrupted, accept_loop-first}
use async_berkeley.Executor.{Fcntl, destroying, push_handle, emplace}
use async_berkeley.Executor.Emplace.{
  set_flags, owner, moved, with_two, outcome, emplaced, set-length_at,
}
use async_berkeley.Async.Accepts.{
  Taken, taken, refused, thrown, terminated, push_accepted, take_accepted, no_except, accept_now,
  accept_later,
}

module _ {W : Type 0} (F : Fcntl W) where
  -- A connection whose descriptor could be made non-blocking.
  abbrev pub connection : ℤ → ℕ → Span → Store → W → Taken W
  connection fd socklen address s w =
      taken (suc (length s.handles)) (record address { size = socklen })
        (with_two moved (owner F fd) s) (set_flags F fd w).1

  -- What is left where it could not: the descriptor is closed, and no handle owns it.
  abbrev pub failure : ℤ → Store → W → Taken W
  failure fd s w =
      thrown (some (F.errno (set_flags F fd w).1))
        (record (with_two moved moved s) { closed = fd ∷ s.closed }) (set_flags F fd w).1

  made :
      (eintr : ℤ) (address : Span) (replies : List Accept) (r : Accept) (s : Store)
      → accept_loop eintr replies ≡ some r
      → r.socklen ≤ address.size
      → accept eintr (pos 0) address replies s
        ≡ returned (record {
          socket = length s.handles;
          store = record s { handles = s.handles ++ owner F r.sockfd ∷ [] };
          address = record address { size = r.socklen };
        })
  unfolding accept make_pair from_native construct is_valid_socket subspan int_eq
  made eintr address replies r s loops fits =
      let inside : leb r.socklen address.size ≡ true = ground arith in
      elim (Bool-cases (int_eq r.sockfd invalid_socket)) [
        | inl closed ↦
            rw
              (
                accept, loops, make_pair, from_native, construct, is_valid_socket, closed, subspan,
                inside,
              )
              refl
        | inr valid ↦
            rw
              (
                accept, loops, make_pair, from_native, construct, is_valid_socket, valid, subspan,
                inside,
              )
              refl
      ]

  pushes :
      (fd : ℤ) (s : Store) (w : W)
      → int_eq fd invalid_socket ≡ false
      → destroying
          (length s.handles)
          (push_handle F (length s.handles) (record s { handles = s.handles ++ owner F fd ∷ [] }) w)
        ≡ outcome F fd s w
  unfolding emplace
  pushes fd s w valid = emplaced F fd s w valid

  taken_lem :
      (fd : ℤ) (prefix : Span) (s : Store) (w : W)
      → int_eq fd invalid_socket ≡ false
      → take_accepted F
          (record {
            socket = length s.handles;
            store = record s { handles = s.handles ++ owner F fd ∷ [] };
            address = prefix;
          })
          w
        ≡ (if int_eq (set_flags F fd w).0 (pos 0)
            then taken
                (suc (length s.handles))
                prefix
                (with_two moved (owner F fd) s)
                (set_flags F fd w).1
            else failure fd s w)
  unfolding take_accepted push_accepted is_valid emplace
  taken_lem fd prefix s w valid =
      let here : get_elem? (s.handles ++ owner F fd ∷ []) (length s.handles) ≡ some (owner F fd) =
        get_elem?-length s.handles (owner F fd) [] in
      elim (Bool-cases (int_eq (set_flags F fd w).0 (pos 0))) [
        | inl ok ↦
            rw (take_accepted, here, is_valid, valid, push_accepted, pushes fd s w valid, ok) refl
        | inr bad ↦
            rw (take_accepted, here, is_valid, valid, push_accepted, pushes fd s w valid, bad) refl
      ]

  unwanted :
      (prefix : Span) (s : Store) (w : W)
      → take_accepted F
          (record {
            socket = length s.handles;
            store = record s { handles = s.handles ++ moved ∷ [] };
            address = prefix;
          })
          w
        ≡ refused (record s { handles = s.handles ++ moved ∷ [] }) w
  unfolding take_accepted is_valid destroy close
  unwanted prefix s w =
      rw
        (
          take_accepted,
          get_elem?-length s.handles moved [],
          is_valid,
          int_eq_refl invalid_socket,
          destroy,
          close,
          get_elem?-length s.handles moved [],
          int_eq_refl invalid_socket,
          set-length_at s.handles moved moved [],
        )
        refl

  -- How the two ways to accept end: `unable` is what is left where F_SETFL fails.
  abbrev pub ends : Span → Accept → Taken W → Store → W → Taken W
  ends address r unable s w =
      if int_eq r.sockfd invalid_socket
      then refused (record s { handles = s.handles ++ moved ∷ [] }) w
      else if int_eq (set_flags F r.sockfd w).0 (pos 0)
      then connection r.sockfd r.socklen address s w
      else unable

  now_ends :
      (eintr : ℤ) (address : Span) (replies : List Accept) (r : Accept) (s : Store) (w : W)
      → accept_loop eintr replies ≡ some r
      → r.socklen ≤ address.size
      → accept_now F eintr (pos 0) address replies s w ≡ ends address r (failure r.sockfd s w) s w
  unfolding accept_now
  now_ends eintr address replies r s w loops fits =
      elim (Bool-cases (int_eq r.sockfd invalid_socket)) [
        | inl closed ↦
            let same : owner F r.sockfd ≡ moved =
              ap (owner F) ((int_eq_iff r.sockfd invalid_socket).0 closed) in
            rw (accept_now, made eintr address replies r s loops fits, closed, same)
              (unwanted (record address { size = r.socklen }) s w)
        | inr valid ↦
            rw (accept_now, made eintr address replies r s loops fits, valid)
              (taken_lem r.sockfd (record address { size = r.socklen }) s w valid)
      ]

  no_except_lem :
      (address : Span) (r : Accept) (s : Store) (w : W)
      → no_except (ends address r (failure r.sockfd s w) s w) ≡ ends address r terminated s w
  unfolding no_except
  no_except_lem address r s w = elim (Bool-cases (int_eq r.sockfd invalid_socket)) [
    | inl closed ↦ rw closed refl
    | inr valid ↦ elim (Bool-cases (int_eq (set_flags F r.sockfd w).0 (pos 0))) [
      | inl ok ↦ rw (valid, ok) refl
      | inr bad ↦ rw (valid, bad) refl
    ]
  ]

  -- Of any number of interrupts and one reply that is none, whose address fits into the buffer and whose
  -- descriptor, if it is one, getsockopt accepts: without a descriptor there is no connection. With one
  -- that F_SETFL can make non-blocking, both ways to accept give its handle, which alone owns it. Where
  -- F_SETFL fails, the descriptor is closed, once, and the attempt at once throws the error number; the
  -- function that accepts later ends the process.
  pub accepts-ends :
      (eintr : ℤ) (address : Span) (is : List Accept) (r : Accept) (rs : List Accept) (s : Store)
      (w : W)
      → All (λ i. is_interrupted eintr i ≡ true) is
      → is_interrupted eintr r ≡ false
      → r.socklen ≤ address.size
      → (accept_now F eintr (pos 0) address (is ++ r ∷ rs) s w
          ≡ ends address r (failure r.sockfd s w) s w)
        × (accept_later F eintr (pos 0) address (is ++ r ∷ rs) s w ≡ ends address r terminated s w)
  unfolding accept_later
  accepts-ends eintr address is r rs s w interrupted answers fits =
      let now =
        now_ends eintr address (is ++ r ∷ rs) r s w
          (accept_loop-first eintr is r rs interrupted answers) fits in
      (now, ap no_except now ∙ no_except_lem address r s w)
