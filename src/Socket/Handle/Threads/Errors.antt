-- ===== src/Socket/Handle/Threads/Errors.antt =====
-- An error that is set while the handle is in a swap.
use async_berkeley.Base.{
  ℕ, ◌≡◌, true, false, Option, none, some, List, [], ◌∷◌, ◌++◌, ℤ, ◌==◌, arith,
}
use async_berkeley.Socket.Handle.Threads.{
  update, swap, set_error, begin, go_on, Action, calls, runs, System, is_idle, perform, interleave,
  init,
}

-- `swap` by thread 0, up to the load of `rhs.error_`, and from there to its return.
abbrev pub half : ℕ → ℕ → List Action
half i j = calls 0 (swap i j) ∷ runs 0 ∷ runs 0 ∷ runs 0 ∷ runs 0 ∷ []

abbrev pub other_half : List Action
other_half = runs 0 ∷ runs 0 ∷ runs 0 ∷ []

-- The run is possible, every thread is idle after it, and the error codes are those of `after`.
abbrev pub Ends : Option System → (ℕ → ℤ) → Type 0
Ends none after = ⊥
Ends (some s) after = ((t : ℕ) → is_idle (s.pc t) ≡ true) × ((k : ℕ) → s.mem.errors k ≡ after k)

-- The codes of two handles exchanged.
abbrev pub exchanged : (ℕ → ℤ) → ℕ → ℕ → ℕ → ℤ
exchanged errors i j = update (update errors i (errors j)) j (errors i)

-- For two different handles whose mutexes are free, and idle threads: an error that is set on rhs
-- between the load and the store of rhs.error_ in a swap is lost, as both handles end with the error
-- that the other one had at first. Set before the swap, the error is that of lhs afterwards; set after
-- it, that of rhs.
pub set_error-lost :
    (sockets errors : ℕ → ℤ) (i j : ℕ) (e : ℤ)
    → (i == j) ≡ false
    → Ends
        (interleave (half i j ++ calls 1 (set_error j e) ∷ other_half) (init sockets errors))
        (exchanged errors i j)
      × Ends
          (interleave (calls 1 (set_error j e) ∷ half i j ++ other_half) (init sockets errors))
          (exchanged (update errors j e) i j)
      × Ends
          (interleave
            (half i j ++ other_half ++ calls 1 (set_error j e) ∷ [])
            (init sockets errors))
          (update (exchanged errors i j) j e)
unfolding interleave perform begin go_on
set_error-lost sockets errors i j e differ = (
  rw (differ, Ends, interleave, perform, begin) (λ t. ground arith, λ k. ground arith),
  rw (differ, Ends, interleave, perform, begin) (λ t. ground arith, λ k. ground arith),
  rw (differ, Ends, interleave, perform, begin) (λ t. ground arith, λ k. ground arith),
)
