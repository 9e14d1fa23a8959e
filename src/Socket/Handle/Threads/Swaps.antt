-- ===== src/Socket/Handle/Threads/Swaps.antt =====
-- Swaps of handles by several threads only exchange descriptors.
use async_berkeley.Base.{
  ℕ, ◌≡◌, refl, ap, ◌∙◌, true, false, some, List, [], ◌∷◌, Option-cases, subst, some_inj, ℤ, ◌⊎◌,
  inl, inr, arith, Bool-cases, ==_iff,
}
use async_berkeley.Socket.Handle.Threads.{
  Pc, idle, locked_both, loaded_socket, exchanged_socket, stored_socket, loaded_error,
  exchanged_error, stored_error, begin, Action, calls, runs, System, is_idle, perform, interleave,
  init,
}
use async_berkeley.Socket.Handle.Threads.Invariant.{holds, owes, Inv, exchange_at, view}
use async_berkeley.Socket.Handle.Threads.Steps.{go_on-Inv, begin-Inv, idle_lem}

-- Every handle has the descriptor that one handle, and no other one, had at first.
pub record Rearranged (now first : ℕ → ℤ) : Type 0 where
  pub from : ℕ → ℕ
  pub to : ℕ → ℕ
  pub from_to : (k : ℕ) → from (to k) ≡ k
  pub to_from : (k : ℕ) → to (from k) ≡ k
  pub same : (k : ℕ) → now k ≡ first (from k)

exchange_twice : (i j k : ℕ) → exchange_at i j (exchange_at i j k) ≡ k
exchange_twice i j k = ground (arith, ==_iff k i, ==_iff k j)

Rearranged-view : (v first : ℕ → ℤ) (p : Pc) → Rearranged v first → Rearranged (view p v) first
Rearranged-view v first (loaded_socket i j a) r = record {
  from = λ k. r.from (exchange_at i j k);
  to = λ k. exchange_at i j (r.to k);
  from_to = λ k. ap r.from (exchange_twice i j (r.to k)) ∙ r.from_to k;
  to_from = λ k. ap (exchange_at i j) (r.to_from (exchange_at i j k)) ∙ exchange_twice i j k;
  same = λ k. r.same (exchange_at i j k);
}
Rearranged-view v first idle r = r
Rearranged-view v first (locked_both i j) r = r
Rearranged-view v first (exchanged_socket i j tmp) r = r
Rearranged-view v first (stored_socket i j) r = r
Rearranged-view v first (loaded_error i j a) r = r
Rearranged-view v first (exchanged_error i j tmp) r = r
Rearranged-view v first (stored_error i j) r = r

-- The descriptors of the handles in a state, those included that are on their way.
abbrev pub Swapped : (ℕ → ℤ) → System → Type 0
Swapped first s = (v : ℕ → ℤ) × Rearranged v first × Inv v s.mem s.pc

perform-Swapped :
    (first : ℕ → ℤ) (a : Action) (s s' : System)
    → perform a s ≡ some s'
    → Swapped first s
    → Swapped first s'
unfolding perform
perform-Swapped first (runs t) s s' e (v, r, inv) =
    subst (Swapped first) (some_inj e)
      (view (s.pc t) v, Rearranged-view v first (s.pc t) r, go_on-Inv inv t (s.pc t) refl)
perform-Swapped first (calls t c) s s' e (v, r, inv) = elim (Bool-cases (is_idle (s.pc t))) [
  | inl free ↦ elim (Option-cases (begin c s.mem)) [
    | inl waits ↦ absurd (ground arith)
    | inr ((m, p), begins) ↦
        subst (Swapped first) (some_inj (rw (free, begins) at e))
          (v, r, begin-Inv inv t c m p (idle_lem inv t (s.pc t) free) begins)
  ]
  | inr busy ↦ absurd (ground arith)
]

pub interleave-Swapped :
    (first : ℕ → ℤ) (actions : List Action) (s s' : System)
    → interleave actions s ≡ some s'
    → Swapped first s
    → Swapped first s'
unfolding interleave
interleave-Swapped first [] s s' e k = subst (Swapped first) (some_inj e) k
interleave-Swapped first (a ∷ actions) s s' e k = elim (Option-cases (perform a s)) [
  | inl stuck ↦ absurd (ground arith)
  | inr (s₁, performs) ↦
      interleave-Swapped first actions s₁ s' (rw (performs, interleave) at e)
        (perform-Swapped first a s s₁ performs k)
]

init-Swapped : (first errors : ℕ → ℤ) → Swapped first (init first errors)
init-Swapped first errors = (
  first,
  record { from = λ k. k; to = λ k. k; from_to = λ k. refl; to_from = λ k. refl; same = λ k. refl },
  record {
    held = λ t k e. absurd (ground arith);
    unique = λ t u k e f. absurd (ground arith);
    fresh = λ t. tt;
    settled = λ k. inl refl;
  },
)

-- From handles whose mutexes are free and threads that are idle, whatever calls of `swap` and
-- `set_error` any number of threads make, and in whatever order the steps of these calls happen: as
-- soon as no thread is between the exchange and the store of a descriptor, the descriptors are those
-- of the start, rearranged, so that none is lost and none is with two handles.
pub interleave-Rearranged :
    (first errors : ℕ → ℤ) (actions : List Action) (s : System)
    → interleave actions (init first errors) ≡ some s
    → ((t k : ℕ) → owes (s.pc t) k ≡ false)
    → Rearranged s.mem.sockets first
interleave-Rearranged first errors actions s e quiet =
    let (v, r, inv) =
      interleave-Swapped first actions (init first errors) s e (init-Swapped first errors) in
    record {
      from = r.from;
      to = r.to;
      from_to = r.from_to;
      to_from = r.to_from;
      same = λ k. settled v inv k (inv.settled k) ∙ r.same k;
    }
  where
    settled :
        (v : ℕ → ℤ)
        → Inv v s.mem s.pc
        → (k : ℕ) → (s.mem.sockets k ≡ v k) ⊎ ((t : ℕ) × (owes (s.pc t) k ≡ true))
        → s.mem.sockets k ≡ v k
    settled v inv k (inl there) = there
    settled v inv k (inr (t, owed)) = absurd (ground (arith, quiet t k))

-- In the same runs, two threads are never inside `swap` with the mutex of one handle.
pub interleave-exclusive :
    (first errors : ℕ → ℤ) (actions : List Action) (s : System)
    → interleave actions (init first errors) ≡ some s
    → (t u k : ℕ) → holds (s.pc t) k ≡ true
    → holds (s.pc u) k ≡ true
    → t ≡ u
interleave-exclusive first errors actions s e =
    (interleave-Swapped first actions (init first errors) s e (init-Swapped first errors)).2.unique
