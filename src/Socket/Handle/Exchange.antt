-- ===== src/Socket/Handle/Exchange.antt =====
-- What `swap`, the moves, `close` and the constructors do to the handles.
use async_berkeley.Base.{
  ℕ, zero, suc, ◌<◌, ◌≡◌, ◌≢◌, ◌↔◌, refl, ap, ◌∙◌, sym, true, false, Option, none, some, List, [],
  ◌∷◌, ◌++◌, ℤ, pos, int_eq, get_elem?, set, length, get_elem?-set, get_elem?-append,
  get_elem?-length, lt_of_get_elem?, if◌then◌else◌, ◌==◌, ◌>>=◌, arith, Bool-cases, some_inj, inl,
  inr, subst, int_eq_refl, Option-cases, int_eq_iff,
}
use async_berkeley.Socket.Handle.{
  invalid_socket, Handle, Store, system_error, swap_atomic, swap_fields, swap, make_invalid,
  move_construct, move_assign, is_valid_socket, from_native, close,
}

-- The handles after an exchange of those at `i` and `j`, which are `l` and `r`.
unfoldable pub exchanged : ℕ → ℕ → Handle → Handle → Store → ℕ → Option Handle
exchanged i j l r s k = if k == j then some l else if k == i then some r else get_elem? s.handles k

set-set : (hs : List Handle) (i : ℕ) (a b : Handle) → set (set hs i a) i b ≡ set hs i b
set-set [] i a b = refl
set-set (x ∷ xs) zero a b = refl
set-set (x ∷ xs) (suc i) a b = ap (◌∷◌ x) (set-set xs i a b)

-- Swapping two handles, which may be the same one, and likewise assigning one to the other by a move,
-- gives each the descriptor and the error of the other, so that an assignment does not make its source
-- invalid. It neither changes another handle nor closes a descriptor.
pub swap_lem :
    (i j : ℕ) (l r : Handle) (s : Store)
    → get_elem? s.handles i ≡ some l
    → get_elem? s.handles j ≡ some r
    → (s' : Store) × (swap i j s ≡ some s')
      × (move_assign i j s ≡ some s')
      × ((k : ℕ) → get_elem? s'.handles k ≡ exchanged i j l r s k)
      × (s'.closed ≡ s.closed)
unfolding swap move_assign swap_fields swap_atomic exchanged
swap_lem i j l r s p q = elim (Bool-cases (i == j)) [
  | inl e ↦ (s, rw e refl, rw e refl, (λ k. same k e), refl)
  | inr e ↦ (
    record s { handles = set (set s.handles i r) j l },
    rw (e, p, q) refl,
    rw (e, p, q) refl,
    (λ k. apart k e),
    refl,
  )
]
  where
    same : (k : ℕ) → (i == j) ≡ true → get_elem? s.handles k ≡ exchanged i j l r s k
    same k e = elim (Bool-cases (k == j)) [
      | inl f ↦ let to_i : k ≡ i = ground arith in rw f (ap (get_elem? s.handles) to_i ∙ p)
      | inr f ↦ let not_i : (k == i) ≡ false = ground arith in rw (f, not_i) refl
    ]

    apart :
        (k : ℕ)
        → (i == j) ≡ false
        → get_elem? (set (set s.handles i r) j l) k ≡ exchanged i j l r s k
    apart k e =
        let still : get_elem? (set s.handles i r) j ≡ some r =
          get_elem?-set s.handles i j l r p ∙ rw e q in
        get_elem?-set (set s.handles i r) j k r l still
        ∙ ground (arith, get_elem?-set s.handles i k l r p)

-- The move constructor gives the descriptor and the error of `other` to the new handle, leaves `other`
-- invalid and without error, and neither changes another handle nor closes a descriptor.
pub move_construct_lem :
    (other : ℕ) (h : Handle) (s : Store)
    → get_elem? s.handles other ≡ some h
    → (s' : Store) × (move_construct other s ≡ some (length s.handles, s'))
      × (get_elem? s'.handles (length s.handles) ≡ some h)
      × (get_elem? s'.handles other ≡ some (record { socket = invalid_socket; error = pos 0 }))
      × ((k : ℕ)
          → k < length s.handles
          → k ≢ other
          → get_elem? s'.handles k ≡ get_elem? s.handles k)
      × (s'.closed ≡ s.closed)
unfolding move_construct make_invalid exchanged
move_construct_lem other h s e =
    let n = length s.handles in
    let new : Handle = record { socket = invalid_socket; error = pos 0 } in
    let s1 : Store = record s { handles = s.handles ++ new ∷ [] } in
    let inside = lt_of_get_elem? s.handles other h e in
    let (s', r, m, at, c) =
      swap_lem n other new h s1 (get_elem?-length s.handles new [])
        (get_elem?-append s.handles (new ∷ []) other inside ∙ e) in
    (
      s',
      ap (λ o. o >>= λ s''. some (n, s'')) r,
      at n ∙ ground arith,
      at other ∙ ground arith,
      (λ k l ne. at k ∙ ground (arith, get_elem?-append s.handles (new ∷ []) k l)),
      c,
    )

closed_at : ℕ → Handle → List ℤ → Store → Store
closed_at i k xs s = record {
  handles = set s.handles i (record k { socket = invalid_socket });
  closed = xs;
}

close-closed :
    (i : ℕ) (k : Handle) (xs : List ℤ) (s : Store)
    → get_elem? s.handles i ≡ some k
    → close i (closed_at i k xs s) ≡ some (closed_at i k xs s)
unfolding close closed_at
close-closed i k xs s p =
    let gone : Handle = record k { socket = invalid_socket } in
    let here : get_elem? (set s.handles i gone) i ≡ some gone =
      get_elem?-set s.handles i i k gone p ∙ ground arith in
    rw (here, int_eq_refl invalid_socket)
      (ap (λ hs. some (record { handles = hs; closed = xs })) (set-set s.handles i gone gone))

-- Closing a handle that is closed already does nothing: a second close of an address, by the destructor
-- or not, closes no descriptor and leaves the store as it is.
pub close-close : (i : ℕ) (s s' : Store) → close i s ≡ some s' → close i s' ≡ some s'
unfolding close closed_at
close-close i s s' h = elim (Option-cases (get_elem? s.handles i)) [
  | inl n ↦ let c : close i s ≡ none = rw n refl in let bad = sym c ∙ h in absurd (ground arith)
  | inr (k, p) ↦ elim (Bool-cases (int_eq k.socket invalid_socket)) [
    | inl v ↦
        let c : close i s ≡ some (closed_at i k s.closed s) = rw (p, v) refl in
        let same = some_inj (sym c ∙ h) in
        subst (λ t. close i t ≡ some t) same (close-closed i k s.closed s p)
    | inr v ↦
        let c : close i s ≡ some (closed_at i k (k.socket ∷ s.closed) s) = rw (p, v) refl in
        let same = some_inj (sym c ∙ h) in
        subst (λ t. close i t ≡ some t) same (close-closed i k (k.socket ∷ s.closed) s p)
  ]
]

-- Adopting a native descriptor fails exactly if it is not the invalid one and getsockopt refuses it.
pub from_native_lem :
    (reply h : ℤ) (s : Store)
    → (from_native reply h s ≡ system_error) ↔ ((h ≢ invalid_socket) × (reply ≢ pos 0))
unfolding from_native is_valid_socket
from_native_lem reply h s = elim (Bool-cases (int_eq h invalid_socket)) [
  | inl v ↦ rw v (ground (arith, int_eq_iff h invalid_socket))
  | inr v ↦ elim (Bool-cases (int_eq reply (pos 0))) [
    | inl ok ↦ rw (v, ok) (ground (arith, int_eq_iff reply (pos 0)))
    | inr bad ↦ rw (v, bad) (ground (arith, int_eq_iff h invalid_socket, int_eq_iff reply (pos 0)))
  ]
]
