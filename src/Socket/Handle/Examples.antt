-- ===== src/Socket/Handle/Examples.antt =====
-- Tests and examples of the socket handles.
use async_berkeley.Base.{ℕ, ◌+◌, ◌≡◌, refl, some, List, [], ◌∷◌, ℤ, pos, int_eq, get_elem?}
use async_berkeley.Socket.Handle.{
  Handle, Store, swap, move_construct, move_assign, close, from_native, invalid_socket, from_socket,
  destroy,
}
use async_berkeley.Socket.Handle.Programs.{
  Command, open_socket, adopt, move_init, assign, delete, run, all_taken,
}
use async_berkeley.Socket.Handle.Ownership.{count, owned, held, run-held}
use async_berkeley.Socket.Handle.Release.{delete_all, no_handles, run-delete_all}
use async_berkeley.Socket.Handle.Exchange.{exchanged, swap_lem}

abbrev three : Handle
three = record { socket = pos 3; error = pos 0 }

abbrev four : Handle
four = record { socket = pos 4; error = pos 9 }

abbrev store : Store
store = record { handles = three ∷ four ∷ []; closed = [] }

-- Two sockets, of which one moves on, and is closed with its new handle.
abbrev program : List Command
program = open_socket (pos 3) ∷ adopt (pos 0) (pos 4) ∷ move_init 0 ∷ assign 1 2 ∷ delete 2 ∷ []

abbrev after_program : Store
after_program = record {
  handles =
      record { socket = invalid_socket; error = pos 0 }
      ∷ record { socket = pos 3; error = pos 0 }
      ∷ record { socket = invalid_socket; error = pos 0 }
      ∷ [];
  closed = pos 4 ∷ [];
}

program_ends : run program no_handles ≡ some after_program
unfolding run move_construct from_native int_eq from_socket move_assign destroy
program_ends = refl

run-held_example :
    held (pos 4) after_program ≡ held (pos 4) no_handles + count (pos 4) (all_taken program)
run-held_example = run-held (pos 4) program no_handles after_program program_ends

run-delete_all_example :
    (s' : Store) × (run (delete_all 3) after_program ≡ some s')
    × (owned s'.handles ≡ [])
    × ((fd : ℤ) → count fd s'.closed ≡ count fd (all_taken program))
run-delete_all_example = run-delete_all program after_program program_ends

swap_lem_example :
    (s' : Store) × (swap 0 1 store ≡ some s')
    × (move_assign 0 1 store ≡ some s')
    × ((k : ℕ) → get_elem? s'.handles k ≡ exchanged 0 1 three four store k)
    × (s'.closed ≡ [])
swap_lem_example = swap_lem 0 1 three four store refl refl

abbrev one_closed : Store
one_closed = record {
  handles = record { socket = invalid_socket; error = pos 0 } ∷ four ∷ [];
  closed = pos 3 ∷ [];
}

three_closed : close 0 store ≡ some one_closed
unfolding close int_eq
three_closed = refl
