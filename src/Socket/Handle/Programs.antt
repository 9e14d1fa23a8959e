-- ===== src/Socket/Handle/Programs.antt =====
-- Programs that use socket handles, as sequences of operations.
use async_berkeley.Base.{ℕ, Option, some, List, [], ◌∷◌, ◌++◌, ℤ, int_eq, if◌then◌else◌, ◌>>=◌}
use async_berkeley.Socket.Handle.{
  invalid_socket, Store, Constructed, constructed, system_error, swap, make_invalid, move_construct,
  move_assign, is_valid_socket, from_native, from_socket, store_error, destroy,
}

-- What a program does with handles, with the answers of the operating system.
pub data Command : Type 0 where
  default_init : Command
  adopt : ℤ → ℤ → Command
  open_socket : ℤ → Command
  move_init : ℕ → Command
  assign exchange : ℕ → ℕ → Command
  mark : ℕ → ℤ → Command
  delete : ℕ → Command

abbrev pub made : Store → Constructed → Store
made s (constructed this s') = s'
made s system_error = s

unfoldable pub run_command : Command → Store → Option Store
unfolding make_invalid
run_command default_init s = let (this, s') = make_invalid s in some s'
run_command (adopt reply handle) s = some (made s (from_native reply handle s))
run_command (open_socket reply) s = some (made s (from_socket reply s))
run_command (move_init other) s = move_construct other s >>= λ x. let (this, s') = x in some s'
run_command (assign this other) s = move_assign this other s
run_command (exchange lhs rhs) s = swap lhs rhs s
run_command (mark this e) s = store_error this e s
run_command (delete this) s = destroy this s

unfoldable pub run : List Command → Store → Option Store
unfolding run_command
run [] s = some s
run (c ∷ cs) s = run_command c s >>= run cs

-- The descriptors that a command gives to a handle.
unfoldable pub taken : Command → List ℤ
unfolding is_valid_socket
taken default_init = []
taken (adopt reply handle) = if is_valid_socket reply handle then handle ∷ [] else []
taken (open_socket reply) = if int_eq reply invalid_socket then [] else reply ∷ []
taken (move_init other) = []
taken (assign this other) = []
taken (exchange lhs rhs) = []
taken (mark this e) = []
taken (delete this) = []

unfoldable pub all_taken : List Command → List ℤ
unfolding taken
all_taken [] = []
all_taken (c ∷ cs) = taken c ++ all_taken cs
