-- ===== src/Functor/Programs.antt =====
-- Programs that use functors, and when their operations have an outcome.
use async_berkeley.Base.{
  ℕ, Bool, true, false, ◌&&◌, ◌||◌, Option, none, some, List, [], ◌∷◌, ◌++◌, ◌==◌, ◌>>=◌,
}
use async_berkeley.Functor.{
  Callables, Memory, functor_at, is_set, from_callable, destroy_at, empty_functor, swap,
  move_construct, move_assign, invoke, copy_construct, copy_assign,
}
use async_berkeley.Functor.Moves.{can_copy}

-- What a program does with functors whose calls take an `A`.
pub data Command (V A : Type 0) : Type 0 where
  default_init : Command V A
  init : ℕ → V → Command V A
  copy_init move_init delete : ℕ → Command V A
  assign_copy assign_move exchange : ℕ → ℕ → Command V A
  apply : ℕ → A → Command V A

module _ {V : Type 0} where
  unfoldable pub alive_at : ℕ → Memory V → Bool
  alive_at i m = elim (functor_at i m) [ none ↦ false | some f ↦ true ]

module _ {V A R : Type 0} (C : Callables V A R) (asserts : Bool) where
  unfoldable pub run_command : Command V A → Memory V → Option (Memory V)
  run_command default_init m = some (record m { functors = m.functors ++ some empty_functor ∷ [] })
  run_command (init t v) m = some (from_callable t v m).1
  run_command (copy_init other) m = copy_construct C asserts other m >>= λ x. some x.1
  run_command (move_init other) m = move_construct C other m >>= λ x. some x.1
  run_command (delete i) m = destroy_at i m
  run_command (assign_copy this other) m = copy_assign C asserts this other m
  run_command (assign_move this other) m = move_assign C this other m
  run_command (exchange i j) m = swap C i j m
  run_command (apply i args) m = invoke C i args m >>= λ x. some x.1

  unfoldable pub run : List (Command V A) → Memory V → Option (Memory V)
  unfolding run_command
  run [] m = some m
  run (c ∷ cs) m = run_command c m >>= run cs

  unfoldable pub copyable_at : ℕ → Memory V → Bool
  copyable_at i m = elim (functor_at i m) [ none ↦ false | some f ↦ can_copy C asserts f.storage ]

  unfoldable pub callable_at : ℕ → Memory V → Bool
  callable_at i m = elim (functor_at i m) [ none ↦ false | some f ↦ is_set f ]

  -- The functors that a command names are alive, a functor that is called is not empty, and one that is
  -- copied has a copy constructor, or assertions are off. Assigning a functor to itself is always fine.
  unfoldable pub ready : Command V A → Memory V → Bool
  unfolding copyable_at callable_at alive_at
  ready default_init m = true
  ready (init t v) m = true
  ready (copy_init other) m = copyable_at other m
  ready (move_init other) m = alive_at other m
  ready (delete i) m = alive_at i m
  ready (assign_copy this other) m = this == other || (copyable_at other m && alive_at this m)
  ready (assign_move this other) m = this == other || (alive_at this m && alive_at other m)
  ready (exchange i j) m = i == j || (alive_at i m && alive_at j m)
  ready (apply i args) m = callable_at i m
