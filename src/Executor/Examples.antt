-- ===== src/Executor/Examples.antt =====
-- A descriptor that is emplaced, on a kernel that keeps the status flags in a table.
use async_berkeley.Base.{
  ℕ, ◌≡◌, refl, some, [], ◌∷◌, ℤ, pos, negsuc, int_eq, int_eq_refl, get_elem?, if◌then◌else◌,
}
use async_berkeley.Socket.Handle.{Store, from_native, from_socket, move_construct, destroy}
use async_berkeley.Executor.{Fcntl, pushed, emplace, or_bit}
use async_berkeley.Executor.Flags.{SetsBit}
use async_berkeley.Executor.Emplace.{owner, outcome, moved, with_two, emplace-outcome}
use async_berkeley.Executor.Nonblocking.{Documented, emplace-nonblocking}

abbrev pub Table : Type 0
Table = ℤ → ℕ

abbrev pub set_status : ℤ → ℤ → Table → ℤ × Table
set_status fd (pos n) w = (pos 0, λ f. if int_eq f fd then n else w f)
set_status fd (negsuc n) w = (negsuc 0, w)

-- O_NONBLOCK is 2 ^ 11.
abbrev pub table : Fcntl Table
table = record {
  getfl = λ fd w. (pos (w fd), w);
  setfl = set_status;
  errno = λ w. pos 9;
  nonblock = 11;
}

abbrev status : ℤ → Table → ℕ
status fd w = w fd

abbrev pub read_write : Table
read_write fd = 2

abbrev pub store : Store
store = record { handles = moved ∷ []; closed = [] }

table-Documented : Documented table status
table-Documented = record { get = λ fd w. refl; sets = λ fd x w bits ok. rw (int_eq_refl fd) refl }

emplace-outcome_example :
    (emplace table (from_native (pos 0) (pos 3) store) store read_write
      ≡ outcome table (pos 3) store read_write)
    × (emplace table (from_socket (pos 3) store) store read_write
        ≡ outcome table (pos 3) store read_write)
unfolding int_eq
emplace-outcome_example = emplace-outcome table (pos 3) store read_write refl

emplaced :
    emplace table (from_native (pos 0) (pos 3) store) store read_write
    ≡ pushed 2
        (with_two moved (owner table (pos 3)) store)
        (set_status (pos 3) (pos 2050) read_write).1
unfolding from_native emplace or_bit move_construct destroy int_eq
emplaced = refl

emplace-nonblocking_example :
    (get_elem? (with_two moved (owner table (pos 3)) store).handles 2 ≡ some (owner table (pos 3)))
    × SetsBit 11 2 2050
unfolding int_eq
emplace-nonblocking_example =
    emplace-nonblocking table status (pos 3) store (with_two moved (owner table (pos 3)) store)
      read_write (set_status (pos 3) (pos 2050) read_write).1 2 table-Documented refl emplaced
