-- ===== src/Socket/Dialog.antt =====
-- `socket_dialog` of include/io/socket/socket_dialog.hpp and
-- include/io/socket/impl/socket_dialog_impl.hpp: a weak pointer to an executor and a shared one to a
-- handle. `none` is a std::invalid_argument that is thrown.
pub mod Comparisons
pub mod Examples
use Prim.Native.Nat.{Ordering}
use async_berkeley.Base.{Bool, ◌&&◌, not, Option, none, some, ℤ, ◌>>=◌, false}
use async_berkeley.Socket.Handle.{Handle, is_valid, compare, compare_native, is_equal}

pub record Dialog : Type 0 where
  pub is_expired : Bool
  pub socket : Option Handle

-- operator bool
unfoldable pub dialog_bool : Dialog → Bool
unfolding is_valid
dialog_bool d = not d.is_expired && elim d.socket [ none ↦ false | some h ↦ is_valid h ]

-- operator native_socket_type
unfoldable pub dialog_native : Dialog → Option ℤ
dialog_native d = d.socket >>= λ h. some h.socket

unfoldable pub compare_dialogs : Dialog → Dialog → Option Ordering
unfolding compare
compare_dialogs lhs rhs = lhs.socket >>= λ l. rhs.socket >>= λ r. some (compare l r)

unfoldable pub equal_dialogs : Dialog → Dialog → Option Bool
unfolding compare_dialogs
equal_dialogs lhs rhs = compare_dialogs lhs rhs >>= λ o. some (is_equal o)

unfoldable pub compare_handle : Dialog → Handle → Option Ordering
unfolding compare
compare_handle lhs rhs = lhs.socket >>= λ l. some (compare l rhs)

unfoldable pub equal_handle : Dialog → Handle → Option Bool
unfolding compare_handle
equal_handle lhs rhs = compare_handle lhs rhs >>= λ o. some (is_equal o)

unfoldable pub compare_descriptor : Dialog → ℤ → Option Ordering
unfolding compare_native
compare_descriptor lhs rhs = lhs.socket >>= λ l. some (compare_native l rhs)

unfoldable pub equal_descriptor : Dialog → ℤ → Option Bool
unfolding compare_descriptor
equal_descriptor lhs rhs = compare_descriptor lhs rhs >>= λ o. some (is_equal o)
