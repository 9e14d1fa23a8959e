-- ===== src/Socket/Handle/Ownership.antt =====
-- Who owns a descriptor, over any sequence of the operations of socket handles.
use async_berkeley.Base.{
  ℕ, zero, suc, ◌+◌, ◌≡◌, refl, ap, ◌∙◌, sym, true, false, Option, none, some, List, [], ◌∷◌, ◌++◌,
  ℤ, pos, int_eq, get_elem?, set, length, ◌==◌, if◌then◌else◌, ◌>>=◌, arith, Bool-cases,
  Option-cases, inl, inr, get_elem?-set, int_eq_refl, subst,
}
use async_berkeley.Socket.Handle.{
  invalid_socket, Handle, Store, swap, make_invalid, move_construct, move_assign, is_valid_socket,
  construct, from_native, from_socket, is_valid, store_error, close, destroy,
}
use async_berkeley.Socket.Handle.Programs.{
  Command, default_init, adopt, open_socket, move_init, assign, exchange, mark, delete, made,
  run_command, run, taken, all_taken,
}

-- The valid descriptors of the handles.
unfoldable pub owned : List Handle → List ℤ
unfolding is_valid
owned [] = []
owned (h ∷ hs) = if is_valid h then h.socket ∷ owned hs else owned hs

-- How often a descriptor stands in a list.
unfoldable pub count : ℤ → List ℤ → ℕ
count fd [] = 0
count fd (x ∷ xs) = (if int_eq x fd then 1 else 0) + count fd xs

count-append : (fd : ℤ) (xs ys : List ℤ) → count fd (xs ++ ys) ≡ count fd xs + count fd ys
unfolding count
count-append fd [] ys = omega arith
count-append fd (x ∷ xs) ys = omega (arith, count-append fd xs ys)

-- Of one handle.
unfoldable weight : ℤ → Handle → ℕ
weight fd h = count fd (owned (h ∷ []))

owned-cons :
    (fd : ℤ) (h : Handle) (hs : List Handle)
    → count fd (owned (h ∷ hs)) ≡ weight fd h + count fd (owned hs)
unfolding weight owned count
owned-cons fd h hs = elim (Bool-cases (is_valid h)) [
  | inl v ↦ rw v (omega arith)
  | inr v ↦ rw v (omega arith)
]

owned-append :
    (fd : ℤ) (xs ys : List Handle)
    → count fd (owned (xs ++ ys)) ≡ count fd (owned xs) + count fd (owned ys)
unfolding owned count
owned-append fd [] ys = omega arith
owned-append fd (x ∷ xs) ys =
    omega (arith, owned-append fd xs ys, owned-cons fd x (xs ++ ys), owned-cons fd x xs)

owned-set :
    (fd : ℤ) (hs : List Handle) (i : ℕ) (h h' : Handle)
    → get_elem? hs i ≡ some h
    → count fd (owned (set hs i h')) + weight fd h ≡ count fd (owned hs) + weight fd h'
owned-set fd [] i h h' e = absurd (ground arith)
owned-set fd (x ∷ xs) zero h h' e =
    let same : x ≡ h = ground arith in
    let p = ap (weight fd) same in omega (arith, owned-cons fd x xs, owned-cons fd h' xs)
owned-set fd (x ∷ xs) (suc i) h h' e =
    omega (arith, owned-set fd xs i h h' e, owned-cons fd x xs, owned-cons fd x (set xs i h'))

-- The handles that own a descriptor, and the times it was closed.
unfoldable pub held : ℤ → Store → ℕ
unfolding owned count
held fd s = count fd (owned s.handles) + count fd s.closed

unfoldable Gains : ℤ → ℕ → Store → Option Store → Type 0
Gains fd n s none = Unit
Gains fd n s (some s') = held fd s' ≡ held fd s + n

held-swapped :
    (fd : ℤ) (s : Store) (i j : ℕ) (l r : Handle)
    → get_elem? s.handles i ≡ some l
    → get_elem? s.handles j ≡ some r
    → (i == j) ≡ false
    → held fd (record s { handles = set (set s.handles i r) j l }) ≡ held fd s + 0
unfolding held
held-swapped fd s i j l r p q e =
    let still : get_elem? (set s.handles i r) j ≡ some r =
      get_elem?-set s.handles i j l r p ∙ rw e q in
    omega (arith, owned-set fd s.handles i l r p, owned-set fd (set s.handles i r) j r l still)

swap-Gains : (fd : ℤ) (i j : ℕ) (s : Store) → Gains fd 0 s (swap i j s)
unfolding Gains swap
swap-Gains fd i j s = elim (Bool-cases (i == j)) [
  | inl e ↦ rw e (omega arith)
  | inr e ↦ elim (Option-cases (get_elem? s.handles i)) [
    | inl p ↦ rw (e, p) tt
    | inr (l, p) ↦ elim (Option-cases (get_elem? s.handles j)) [
      | inl q ↦ rw (e, p, q) tt
      | inr (r, q) ↦ rw (e, p, q) (held-swapped fd s i j l r p q e)
    ]
  ]
]

unfoldable given : ℤ → ℤ → ℕ
given fd h = count fd (if int_eq h invalid_socket then [] else h ∷ [])

unfoldable with_new : ℤ → Store → Store
with_new h s = record s { handles = s.handles ++ record { socket = h; error = pos 0 } ∷ [] }

weight-given : (fd : ℤ) (h : Handle) → weight fd h ≡ given fd h.socket
unfolding weight given owned is_valid
weight-given fd h = elim (Bool-cases (int_eq h.socket invalid_socket)) [
  | inl v ↦ rw (v, owned, is_valid) refl
  | inr v ↦ rw (v, owned, is_valid) refl
]

held-new : (fd h : ℤ) (s : Store) → held fd (with_new h s) ≡ held fd s + given fd h
unfolding with_new held weight
held-new fd h s =
    let new : Handle = record { socket = h; error = pos 0 } in
    omega (arith, owned-append fd s.handles (new ∷ []), weight-given fd new)

given-invalid : (fd h : ℤ) → int_eq h invalid_socket ≡ true → given fd h ≡ 0
unfolding given count
given-invalid fd h v = rw v refl

given-valid :
    (fd h : ℤ) → int_eq h invalid_socket ≡ false → given fd h ≡ (if int_eq h fd then 1 else 0)
unfolding given count
given-valid fd h v = rw v (omega arith)

held-closed :
    (fd : ℤ) (s : Store) (i : ℕ) (h : Handle)
    → get_elem? s.handles i ≡ some h
    → held fd (
        if int_eq h.socket invalid_socket
        then record s { handles = set s.handles i (record h { socket = invalid_socket }) }
        else record {
          handles = set s.handles i (record h { socket = invalid_socket });
          closed = h.socket ∷ s.closed;
        })
      ≡ held fd s + 0
unfolding held count
held-closed fd s i h p =
    let gone : Handle = record h { socket = invalid_socket } in
    let a = owned-set fd s.handles i h gone p in
    let b = weight-given fd gone ∙ given-invalid fd invalid_socket (int_eq_refl invalid_socket) in
    let c = weight-given fd h in
    elim (Bool-cases (int_eq h.socket invalid_socket)) [
      | inl v ↦ rw v (omega (arith, given-invalid fd h.socket v))
      | inr v ↦ rw v (omega (arith, given-valid fd h.socket v))
    ]

held-marked :
    (fd : ℤ) (s : Store) (i : ℕ) (h : Handle) (e : ℤ)
    → get_elem? s.handles i ≡ some h
    → held fd (record s { handles = set s.handles i (record h { error = e }) }) ≡ held fd s + 0
unfolding held
held-marked fd s i h e p =
    let marked : Handle = record h { error = e } in
    omega (arith, owned-set fd s.handles i h marked p, weight-given fd h, weight-given fd marked)

close-Gains : (fd : ℤ) (i : ℕ) (s : Store) → Gains fd 0 s (close i s)
unfolding Gains close
close-Gains fd i s = elim (Option-cases (get_elem? s.handles i)) [
  | inl p ↦ rw p tt
  | inr (h, p) ↦ rw p (held-closed fd s i h p)
]

store_error-Gains : (fd : ℤ) (i : ℕ) (e : ℤ) (s : Store) → Gains fd 0 s (store_error i e s)
unfolding Gains store_error
store_error-Gains fd i e s = elim (Option-cases (get_elem? s.handles i)) [
  | inl p ↦ rw p tt
  | inr (h, p) ↦ rw p (held-marked fd s i h e p)
]

from_native-Gains :
    (fd reply h : ℤ) (s : Store)
    → Gains fd (count fd (taken (adopt reply h))) s (some (made s (from_native reply h s)))
unfolding Gains from_native taken is_valid_socket construct with_new count
from_native-Gains fd reply h s = elim (Bool-cases (int_eq h invalid_socket)) [
  | inl v ↦ rw v (omega (arith, held-new fd h s, given-invalid fd h v))
  | inr v ↦ elim (Bool-cases (int_eq reply (pos 0))) [
    | inl ok ↦ rw (v, ok) (omega (arith, held-new fd h s, given-valid fd h v))
    | inr bad ↦ rw (v, bad) (omega arith)
  ]
]

from_socket-Gains :
    (fd reply : ℤ) (s : Store)
    → Gains fd (count fd (taken (open_socket reply))) s (some (made s (from_socket reply s)))
unfolding Gains from_socket taken construct with_new count
from_socket-Gains fd reply s = elim (Bool-cases (int_eq reply invalid_socket)) [
  | inl v ↦ rw v (omega arith)
  | inr v ↦ rw v (omega (arith, held-new fd reply s, given-valid fd reply v))
]

move_construct-Gains :
    (fd : ℤ) (other : ℕ) (s : Store) → Gains fd 0 s (run_command (move_init other) s)
unfolding Gains run_command move_construct make_invalid with_new
move_construct-Gains fd other s =
    elim (Option-cases (swap (length s.handles) other (with_new invalid_socket s))) [
      | inl n ↦ rw n tt
      | inr (s', e) ↦
          let p =
            subst (Gains fd 0 (with_new invalid_socket s)) e
              (swap-Gains fd (length s.handles) other (with_new invalid_socket s)) in
          rw e (
            omega (
              arith,
              p,
              held-new fd invalid_socket s,
              given-invalid fd invalid_socket (int_eq_refl invalid_socket),
            ))
    ]

run_command-Gains :
    (fd : ℤ) (c : Command) (s : Store) → Gains fd (count fd (taken c)) s (run_command c s)
unfolding Gains run_command taken count make_invalid with_new move_assign destroy
run_command-Gains fd default_init s = omega (
  arith,
  held-new fd invalid_socket s,
  given-invalid fd invalid_socket (int_eq_refl invalid_socket),
)
run_command-Gains fd (adopt reply h) s = from_native-Gains fd reply h s
run_command-Gains fd (open_socket reply) s = from_socket-Gains fd reply s
run_command-Gains fd (move_init other) s = move_construct-Gains fd other s
run_command-Gains fd (assign this other) s = swap-Gains fd this other s
run_command-Gains fd (exchange lhs rhs) s = swap-Gains fd lhs rhs s
run_command-Gains fd (mark this e) s = store_error-Gains fd this e s
run_command-Gains fd (delete this) s = close-Gains fd this s

run-none :
    (c : Command) (cs : List Command) (s : Store) → run_command c s ≡ none → run (c ∷ cs) s ≡ none
unfolding run
run-none c cs s e = ap (λ o. o >>= run cs) e

pub run-some :
    (c : Command) (cs : List Command) (s t : Store)
    → run_command c s ≡ some t
    → run (c ∷ cs) s ≡ run cs t
unfolding run
run-some c cs s t e = ap (λ o. o >>= run cs) e

-- Over any sequence of operations on socket handles, the handles that own a descriptor and the times
-- it was closed together grow by the times that the operations gave it to a handle.
pub run-held :
    (fd : ℤ) (cs : List Command) (s s' : Store)
    → run cs s ≡ some s'
    → held fd s' ≡ held fd s + count fd (all_taken cs)
unfolding run all_taken count Gains
run-held fd [] s s' h = let same : s ≡ s' = ground arith in let p = ap (held fd) same in omega arith
run-held fd (c ∷ cs) s s' h = elim (Option-cases (run_command c s)) [
  | inl n ↦ let bad : none ≡ some s' = sym (run-none c cs s n) ∙ h in absurd (ground arith)
  | inr (t, e) ↦
      let p = subst (Gains fd (count fd (taken c)) s) e (run_command-Gains fd c s) in
      let q = run-held fd cs t s' (sym (run-some c cs s t e) ∙ h) in
      omega (arith, count-append fd (taken c) (all_taken cs))
]
