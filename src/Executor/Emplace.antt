-- ===== src/Executor/Emplace.antt =====
-- `emplace` on all its branches, and what it leaves of the handles and the descriptor.
use async_berkeley.Base.{
  ℕ, suc, ◌≡◌, refl, ap, false, some, List, [], ◌∷◌, ◌++◌, get_elem?-length, append_assoc, ℤ, pos,
  int_eq, get_elem?, set, length, length-append, ◌==◌, if◌then◌else◌, arith, Bool-cases, inl, inr,
  int_eq_refl,
}
use async_berkeley.Socket.Handle.{
  invalid_socket, Handle, Store, constructed, from_native, from_socket, construct, is_valid_socket,
  move_construct, make_invalid, swap, destroy, close,
}
use async_berkeley.Executor.{
  Fcntl, Pushed, pushed, threw, destroying, push_shared, unwind, push_handle, emplace, or_bit,
}

module _ {A : Type 0} where
  pub get_elem?-second :
      (xs : List A) (a b : A) → get_elem? (xs ++ a ∷ b ∷ []) (suc (length xs)) ≡ some b
  get_elem?-second [] a b = refl
  get_elem?-second (x ∷ xs) a b = get_elem?-second xs a b

  pub set-length_at :
      (xs : List A) (a b : A) (ys : List A) → set (xs ++ a ∷ ys) (length xs) b ≡ xs ++ b ∷ ys
  set-length_at [] a b ys = refl
  set-length_at (x ∷ xs) a b ys = ap (◌∷◌ x) (set-length_at xs a b ys)

  set-second :
      (xs : List A) (a b c : A) → set (xs ++ a ∷ b ∷ []) (suc (length xs)) c ≡ xs ++ a ∷ c ∷ []
  set-second [] a b c = refl
  set-second (x ∷ xs) a b c = ap (◌∷◌ x) (set-second xs a b c)

-- A handle that was moved from.
abbrev pub moved : Handle
moved = record { socket = invalid_socket; error = pos 0 }

-- The store with two more handles.
abbrev pub with_two : Handle → Handle → Store → Store
with_two a b s = record s { handles = s.handles ++ a ∷ b ∷ [] }

suc-ne : (n : ℕ) → (suc n == n) ≡ false
suc-ne n = ground arith

swap-two :
    (a b : Handle) (s : Store)
    → swap (suc (length s.handles)) (length s.handles) (with_two a b s) ≡ some (with_two b a s)
unfolding swap
swap-two a b s =
    rw
      (
        suc-ne (length s.handles),
        get_elem?-second s.handles a b,
        get_elem?-length s.handles a (b ∷ []),
        swap,
        set-second s.handles a b a,
        set-length_at s.handles a b (a ∷ []),
      )
      refl

move_construct-last :
    (a : Handle) (s : Store)
    → move_construct (length s.handles) (record s { handles = s.handles ++ a ∷ [] })
      ≡ some (suc (length s.handles), with_two moved a s)
unfolding move_construct make_invalid
move_construct-last a s =
    let at_end : length (s.handles ++ a ∷ []) ≡ suc (length s.handles) =
      omega (arith, length-append s.handles (a ∷ [])) in
    let both = append_assoc s.handles (a ∷ []) (moved ∷ []) in
    rw (move_construct, make_invalid, at_end, both, swap-two a moved s) refl

destroy-moved :
    (b : Handle) (s : Store)
    → destroy (length s.handles) (with_two moved b s) ≡ some (with_two moved b s)
unfolding destroy close
destroy-moved b s =
    rw
      (
        destroy,
        close,
        get_elem?-length s.handles moved (b ∷ []),
        int_eq_refl invalid_socket,
        set-length_at s.handles moved moved (b ∷ []),
      )
      refl

destroy-owner :
    (fd : ℤ) (s : Store)
    → int_eq fd invalid_socket ≡ false
    → destroy (suc (length s.handles)) (with_two moved (record { socket = fd; error = pos 0 }) s)
      ≡ some (record (with_two moved moved s) { closed = fd ∷ s.closed })
unfolding destroy close
destroy-owner fd s valid =
    let owner : Handle = record { socket = fd; error = pos 0 } in
    rw
      (
        destroy,
        close,
        get_elem?-second s.handles moved owner,
        valid,
        set-second s.handles moved owner moved,
      )
      refl

module _ {W : Type 0} (F : Fcntl W) where
  -- What F_SETFL returns, given the flags that F_GETFL gave.
  abbrev pub set_flags : ℤ → W → ℤ × W
  set_flags fd w = F.setfl fd (or_bit F.nonblock (F.getfl fd w).0) (F.getfl fd w).1

  abbrev pub owner : ℤ → Handle
  owner fd = record { socket = fd; error = pos 0 }

  -- How a descriptor is emplaced: the second new handle owns it, or it is closed, once.
  abbrev pub outcome : ℤ → Store → W → Pushed W
  outcome fd s w =
      if int_eq (set_flags fd w).0 (pos 0)
      then pushed (suc (length s.handles)) (with_two moved (owner fd) s) (set_flags fd w).1
      else threw (some (F.errno (set_flags fd w).1))
          (record (with_two moved moved s) { closed = fd ∷ s.closed }) (set_flags fd w).1

  pub emplaced :
      (fd : ℤ) (s : Store) (w : W)
      → int_eq fd invalid_socket ≡ false
      → emplace F
          (constructed (length s.handles) (record s { handles = s.handles ++ owner fd ∷ [] }))
          s
          w
        ≡ outcome fd s w
  unfolding emplace push_handle push_shared unwind destroying
  emplaced fd s w valid = elim (Bool-cases (int_eq (set_flags fd w).0 (pos 0))) [
    | inl ok ↦
        rw
          (
            emplace,
            push_handle,
            move_construct-last (owner fd) s,
            push_shared,
            get_elem?-second s.handles moved (owner fd),
            ok,
            unwind,
            destroying,
            destroy-moved (owner fd) s,
          )
          refl
    | inr bad ↦
        rw
          (
            emplace,
            push_handle,
            move_construct-last (owner fd) s,
            push_shared,
            get_elem?-second s.handles moved (owner fd),
            bad,
            unwind,
            destroying,
            destroy-owner fd s valid,
            destroying,
            destroy-moved moved (record s { closed = fd ∷ s.closed }),
          )
          refl
  ]

  -- emplace of a valid descriptor, by either constructor: if F_SETFL succeeds the new handle owns the
  -- descriptor and the temporary one none; otherwise there is an exception with its error number, and
  -- the descriptor is closed, once, with no handle left that owns it.
  pub emplace-outcome :
      (fd : ℤ) (s : Store) (w : W)
      → int_eq fd invalid_socket ≡ false
      → (emplace F (from_native (pos 0) fd s) s w ≡ outcome fd s w)
        × (emplace F (from_socket fd s) s w ≡ outcome fd s w)
  unfolding from_native from_socket construct is_valid_socket int_eq
  emplace-outcome fd s w valid = (
    rw (from_native, construct, is_valid_socket, valid) (emplaced fd s w valid),
    rw (from_socket, construct, valid) (emplaced fd s w valid),
  )
