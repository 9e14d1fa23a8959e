-- ===== src/Socket/Handle.antt =====
-- `socket_handle` of include/io/socket/socket_handle.hpp and
-- include/io/socket/impl/socket_handle_impl.hpp. Handles live in a memory in which an address is an
-- index, as a handle can be moved to itself; a handle that is destroyed stays there, closed.
pub mod Programs
pub mod Threads
pub mod Ownership
pub mod Release
pub mod Exchange
pub mod Order
pub mod Examples
use Prim.Native.Nat.{Ordering}
use async_berkeley.Base.{
  ℕ, ◌+◌, Bool, true, false, ◌&&◌, not, Option, none, some, List, [], ◌∷◌, ◌++◌, ℤ, pos, negsuc,
  int_eq, int_compare, get_elem?, set, length, ◌==◌, if◌then◌else◌, ◌>>=◌,
}

abbrev pub invalid_socket : ℤ
invalid_socket = negsuc 0

pub record Handle : Type 0 where
  pub socket : ℤ
  pub error : ℤ

-- The memory of the handles, and the descriptors closed so far, the last one first.
pub record Store : Type 0 where
  pub handles : List Handle
  pub closed : List ℤ

-- A constructor's outcome: the address of the handle, or a system_error.
pub data Constructed : Type 0 where
  constructed : ℕ → Store → Constructed
  system_error : Constructed

-- lhs and rhs after `rhs.store(lhs.exchange(rhs.load()))`.
unfoldable pub swap_atomic : ℤ → ℤ → ℤ × ℤ
swap_atomic lhs rhs = let tmp = lhs in (rhs, tmp)

unfoldable pub swap_fields : Handle → Handle → Handle × Handle
unfolding swap_atomic
swap_fields lhs rhs =
    let (lhs_socket, rhs_socket) = swap_atomic lhs.socket rhs.socket in
    let (lhs_error, rhs_error) = swap_atomic lhs.error rhs.error in
    (
      record { socket = lhs_socket; error = lhs_error },
      record { socket = rhs_socket; error = rhs_error },
    )

-- swap, of the handles at two addresses; none where one has no handle.
unfoldable pub swap : ℕ → ℕ → Store → Option Store
unfolding swap_fields
swap lhs rhs s =
    if lhs == rhs
    then some s
    else get_elem? s.handles lhs >>= λ l. get_elem? s.handles rhs >>= λ r.
        let (l', r') = swap_fields l r in
        some (record s { handles = set (set s.handles lhs l') rhs r' })

-- socket_handle()
unfoldable pub make_invalid : Store → ℕ × Store
make_invalid s = (
  length s.handles,
  record s { handles = s.handles ++ record { socket = invalid_socket; error = pos 0 } ∷ [] },
)

-- socket_handle(socket_handle &&other)
unfoldable pub move_construct : ℕ → Store → Option (ℕ × Store)
unfolding make_invalid swap
move_construct other s =
    let (this, s') = make_invalid s in swap this other s' >>= λ s''. some (this, s'')

-- operator=(socket_handle &&other)
unfoldable pub move_assign : ℕ → ℕ → Store → Option Store
unfolding swap
move_assign this other s = swap this other s

-- is_valid_socket, with what getsockopt(SO_TYPE) returns.
unfoldable pub is_valid_socket : ℤ → ℤ → Bool
is_valid_socket reply handle = if int_eq handle invalid_socket then false else int_eq reply (pos 0)

unfoldable pub construct : ℤ → Store → ℕ × Store
construct handle s = (
  length s.handles,
  record s { handles = s.handles ++ record { socket = handle; error = pos 0 } ∷ [] },
)

-- socket_handle(native_socket_type). A constructor that throws leaves no handle to be destroyed.
unfoldable pub from_native : ℤ → ℤ → Store → Constructed
unfolding construct is_valid_socket
from_native reply handle s =
    let (this, s') = construct handle s in
    if not (int_eq handle invalid_socket) && not (is_valid_socket reply handle)
    then system_error
    else constructed this s'

-- socket_handle(domain, type, protocol), with what ::socket returns.
unfoldable pub from_socket : ℤ → Store → Constructed
unfolding construct
from_socket reply s =
    let (this, s') = construct reply s in
    if int_eq reply invalid_socket then system_error else constructed this s'

-- operator bool
unfoldable pub is_valid : Handle → Bool
is_valid h = not (int_eq h.socket invalid_socket)

unfoldable pub compare_native : Handle → ℤ → Ordering
compare_native h other = int_compare h.socket other

unfoldable pub compare : Handle → Handle → Ordering
compare lhs rhs = int_compare lhs.socket rhs.socket

abbrev pub is_equal : Ordering → Bool
is_equal o = elim o [ Ordering.eq ↦ true | _ ↦ false ]

unfoldable pub equal_native : Handle → ℤ → Bool
unfolding compare_native
equal_native h other = is_equal (compare_native h other)

unfoldable pub equal : Handle → Handle → Bool
unfolding compare
equal lhs rhs = is_equal (compare lhs rhs)

-- set_error
unfoldable pub store_error : ℕ → ℤ → Store → Option Store
store_error this e s = get_elem? s.handles this >>= λ h.
    some (record s { handles = set s.handles this (record h { error = e }) })

-- close, with the descriptor that `exchange` returns.
unfoldable pub close : ℕ → Store → Option Store
close this s = get_elem? s.handles this >>= λ h.
    let s' = record s { handles = set s.handles this (record h { socket = invalid_socket }) } in
    some
      (if int_eq h.socket invalid_socket then s' else record s' { closed = h.socket ∷ s'.closed })

-- ~socket_handle()
unfoldable pub destroy : ℕ → Store → Option Store
unfolding close
destroy this s = close this s
