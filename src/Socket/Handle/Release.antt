-- ===== src/Socket/Handle/Release.antt =====
-- What is left when the handles of a program are destroyed.
use async_berkeley.Base.{
  ℕ, zero, suc, ◌≤◌, ◌<◌, ◌≡◌, refl, ap, ◌∙◌, some, List, [], ◌∷◌, ℤ, int_eq, get_elem?, set,
  length, length-set, get_elem?-some, drop, if◌then◌else◌, arith, Bool-cases, inl, inr, int_eq_refl,
}
use async_berkeley.Socket.Handle.{invalid_socket, Handle, Store, is_valid, close, destroy}
use async_berkeley.Socket.Handle.Programs.{Command, delete, run_command, run, all_taken, taken}
use async_berkeley.Socket.Handle.Ownership.{owned, count, held, run-held, run-some}

-- The destructors of the handles at the addresses below `n`, the last one first.
unfoldable pub delete_all : ℕ → List Command
delete_all zero = []
delete_all (suc n) = delete n ∷ delete_all n

-- A store after `close`, which has the handle `h` at `i`.
after_close : ℕ → Handle → Store → Store
after_close i h s =
    let s' = record s { handles = set s.handles i (record h { socket = invalid_socket }) } in
    if int_eq h.socket invalid_socket then s' else record s' { closed = h.socket ∷ s'.closed }

run_delete :
    (i : ℕ) (h : Handle) (s : Store)
    → get_elem? s.handles i ≡ some h
    → run_command (delete i) s ≡ some (after_close i h s)
unfolding run_command destroy close after_close
run_delete i h s e = rw e refl

handles-after_close :
    (i : ℕ) (h : Handle) (s : Store)
    → (after_close i h s).handles ≡ set s.handles i (record h { socket = invalid_socket })
unfolding after_close
handles-after_close i h s = elim (Bool-cases (int_eq h.socket invalid_socket)) [
  | inl v ↦ rw v refl
  | inr v ↦ rw v refl
]

-- One more handle at the end of the list is closed.
owned-drop-set :
    (hs : List Handle) (n : ℕ) (h : Handle)
    → n < length hs
    → owned (drop (suc n) hs) ≡ []
    → owned (drop n (set hs n (record h { socket = invalid_socket }))) ≡ []
unfolding owned is_valid
owned-drop-set [] n h l e = absurd (omega arith)
owned-drop-set (x ∷ xs) zero h l e = rw (int_eq_refl invalid_socket) e
owned-drop-set (x ∷ xs) (suc n) h l e = owned-drop-set xs n h (omega arith) e

Released : ℕ → Store → Type 0
Released n s = (s' : Store) × (run (delete_all n) s ≡ some s') × (owned s'.handles ≡ [])

release : (n : ℕ) (s : Store) → n ≤ length s.handles → owned (drop n s.handles) ≡ [] → Released n s
unfolding Released run delete_all
release zero s l e = (s, refl, e)
release (suc n) s l e =
    let (h, p) = get_elem?-some s.handles n (omega arith) in
    let t = after_close n h s in
    let q = handles-after_close n h s in
    let (s', r, o) =
      release n t
        (rw q (omega (arith, length-set s.handles n (record h { socket = invalid_socket }))))
        (rw q (owned-drop-set s.handles n h (omega arith) e)) in
    (s', run-some (delete n) (delete_all n) s t (run_delete n h s p) ∙ r, o)

owned-drop-length : (hs : List Handle) → owned (drop (length hs) hs) ≡ []
unfolding owned
owned-drop-length [] = refl
owned-drop-length (h ∷ hs) = owned-drop-length hs

taken-delete_all : (n : ℕ) → all_taken (delete_all n) ≡ []
unfolding all_taken taken delete_all
taken-delete_all zero = refl
taken-delete_all (suc n) = taken-delete_all n

-- No handles, and nothing closed.
abbrev pub no_handles : Store
no_handles = record { handles = []; closed = [] }

-- After any sequence of operations that starts without handles, the destructors of all the handles run,
-- no handle owns a descriptor then, and each descriptor has been closed as often as it was given to a
-- handle.
pub run-delete_all :
    (cs : List Command) (s : Store)
    → run cs no_handles ≡ some s
    → (s' : Store) × (run (delete_all (length s.handles)) s ≡ some s')
      × (owned s'.handles ≡ [])
      × ((fd : ℤ) → count fd s'.closed ≡ count fd (all_taken cs))
unfolding Released held owned count
run-delete_all cs s h =
    let (s', r, o) = release (length s.handles) s (omega arith) (owned-drop-length s.handles) in
    (s', r, o, λ fd. closed_all s' r o fd)
  where
    closed_all :
        (s' : Store)
        → run (delete_all (length s.handles)) s ≡ some s'
        → owned s'.handles ≡ []
        → (fd : ℤ) → count fd s'.closed ≡ count fd (all_taken cs)
    closed_all s' r o fd =
        let a = run-held fd cs no_handles s h in
        let b = run-held fd (delete_all (length s.handles)) s s' r in
        let c : count fd (all_taken (delete_all (length s.handles))) ≡ 0 =
          ap (count fd) (taken-delete_all (length s.handles)) in
        let d : count fd (owned s'.handles) ≡ 0 = ap (count fd) o in omega arith
