-- ===== src/Functor/Examples.antt =====
-- Tests and examples of the functors. A callable of type 1 can be copied, one of type 2 cannot.
use async_berkeley.Base.{ℕ, ◌+◌, ◌≡◌, refl, true, false, none, some, List, [], ◌∷◌, ◌==◌, ◌>>=◌}
use async_berkeley.Functor.{
  Callables, Memory, functor_at, from_callable, move_construct, copy_assign, destroy_at,
  move_assign, invoke, copy_construct,
}
use async_berkeley.Functor.Moves.{holding}
use async_berkeley.Functor.Balance.{Balanced, alive}
use async_berkeley.Functor.Programs.{
  Command, init, move_init, assign_move, assign_copy, delete, apply, run,
}
use async_berkeley.Functor.Accounts.{run-Balanced}

-- A callable adds its value to the argument, and counts its value up.
abbrev adders : Callables ℕ ℕ ℕ
adders = record { moved_from = λ t v. 0; is_copyable = λ t. t == 1; call = λ t v a. (v + a, v + 1) }

abbrev no_functors : Memory ℕ
no_functors = record { functors = []; counts = record { made = 0; destroyed = 0 } }

no_functors-Balanced : Balanced no_functors
unfolding alive
no_functors-Balanced = record { holds = tt; counted = refl }

abbrev program : List (Command ℕ ℕ)
program =
    init 1 5
    ∷ init 2 7
    ∷ move_init 0
    ∷ assign_move 1 2
    ∷ apply 1 10
    ∷ assign_copy 0 1
    ∷ delete 2
    ∷ []

abbrev after_program : Memory ℕ
after_program = record {
  functors =
      some (holding (some (record { type = 1; value = 6 })))
      ∷ some (holding (some (record { type = 1; value = 6 })))
      ∷ none
      ∷ [];
  counts = record { made = 8; destroyed = 6 };
}

program_ends : run adders true program no_functors ≡ some after_program
unfolding run move_construct from_callable move_assign invoke copy_assign destroy_at
program_ends = refl

-- In a build without assertions the copy of a functor that cannot be copied is empty.
abbrev one_functor : Memory ℕ
one_functor = record {
  functors = some (holding (some (record { type = 2; value = 7 }))) ∷ [];
  counts = record { made = 1; destroyed = 0 };
}

empty_copy :
    (copy_construct adders false 0 one_functor >>= λ x. functor_at x.0 x.1)
    ≡ some (record { storage = none; vptr = none })
unfolding copy_construct
empty_copy = refl

no_copy : copy_construct adders true 0 one_functor ≡ none
unfolding copy_construct
no_copy = refl

one_functor-Balanced : Balanced one_functor
unfolding alive
one_functor-Balanced = record { holds = (refl, tt); counted = refl }

run-Balanced_example : Balanced after_program
run-Balanced_example =
    run-Balanced adders true program no_functors after_program no_functors-Balanced program_ends
