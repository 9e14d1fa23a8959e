-- ===== src/Socket/Handle/Threads/Examples.antt =====
-- Two threads that swap handles at the same time.
use async_berkeley.Base.{
  ℕ, ◌≡◌, refl, Option, none, some, List, [], ◌∷◌, ◌++◌, ℤ, pos, arith, ◌+◌, ◌==◌, if◌then◌else◌,
}
use async_berkeley.Socket.Handle.Threads.{
  swap, set_error, begin, go_on, Action, calls, runs, System, perform, interleave, init,
}
use async_berkeley.Socket.Handle.Threads.Swaps.{Rearranged, interleave-Rearranged}
use async_berkeley.Socket.Handle.Threads.Errors.{half, other_half, Ends, exchanged, set_error-lost}

abbrev sockets : ℕ → ℤ
sockets k = pos (k + 10)

abbrev errors : ℕ → ℤ
errors k = pos k

-- Thread 1 sets an error and swaps 2 and 3 while thread 0 swaps 0 and 1.
abbrev schedule : List Action
schedule =
    calls 0 (swap 0 1)
    ∷ runs 0
    ∷ runs 0
    ∷ calls 1 (set_error 0 (pos 5))
    ∷ calls 1 (swap 2 3)
    ∷ runs 1
    ∷ runs 0
    ∷ runs 1
    ∷ runs 1
    ∷ []

abbrev state : Option System → System
state none = init sockets errors
state (some s) = s

abbrev halfway : System
halfway = state (interleave schedule (init sockets errors))

halfway_lem : interleave schedule (init sockets errors) ≡ some halfway
unfolding interleave perform begin go_on
halfway_lem = refl

swapped : halfway.mem.sockets 0 ≡ pos 11
unfolding interleave perform begin go_on
swapped = refl

second_waits : interleave (schedule ++ calls 2 (swap 1 2) ∷ []) (init sockets errors) ≡ none
unfolding interleave perform begin go_on
second_waits = refl

interleave-Rearranged_example : Rearranged halfway.mem.sockets sockets
unfolding interleave perform begin go_on
interleave-Rearranged_example =
    interleave-Rearranged sockets errors schedule halfway halfway_lem (λ t k. ground arith)

set_error-lost_example :
    Ends
      (interleave (half 0 1 ++ calls 1 (set_error 1 (pos 5)) ∷ other_half) (init sockets errors))
      (exchanged errors 0 1)
    × Ends
        (interleave (calls 1 (set_error 1 (pos 5)) ∷ half 0 1 ++ other_half) (init sockets errors))
        (exchanged (λ k. if k == 1 then pos 5 else errors k) 0 1)
    × Ends
        (interleave
          (half 0 1 ++ other_half ++ calls 1 (set_error 1 (pos 5)) ∷ [])
          (init sockets errors))
        (λ k. if k == 1 then pos 5 else exchanged errors 0 1 k)
set_error-lost_example = set_error-lost sockets errors 0 1 (pos 5) refl
