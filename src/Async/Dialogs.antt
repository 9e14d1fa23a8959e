-- ===== src/Async/Dialogs.antt =====
-- The operations of include/io/socket/detail/async_operations.hpp that a dialog passes on to its handle,
-- and `get_executor`.
use async_berkeley.Base.{
  ℕ, ◌≡◌, refl, Option, some, ◌>>=◌, ℤ, false, true, if◌then◌else◌, Option-cases, inl, inr, Bool,
}
use async_berkeley.Socket.Dialog.{Dialog, dialog_native}
use async_berkeley.Socket.Sync.{
  Span, Outcome, Syscall, sys_bind, sys_listen, sys_shutdown, sys_setsockopt, bind, listen,
  shutdown, setsockopt, getpeername, getsockname, socket_option,
}

-- Whether the executor lives; otherwise a std::invalid_argument is thrown.
unfoldable pub get_executor : Dialog → Bool
get_executor d = if d.is_expired then false else true

-- Each is `none` where the dialog has no handle, a null pointer that is read. The answers of the calls
-- that are not retried are arguments, as in Socket.Sync.
module _ (d : Dialog) where
  unfoldable pub bind_dialog : Span → Option Syscall
  unfolding bind
  bind_dialog address = d.socket >>= λ h. some (bind h address)

  unfoldable pub listen_dialog : ℤ → Option Syscall
  unfolding listen
  listen_dialog backlog = d.socket >>= λ h. some (listen h backlog)

  unfoldable pub shutdown_dialog : ℤ → Option Syscall
  unfolding shutdown
  shutdown_dialog how = d.socket >>= λ h. some (shutdown h how)

  unfoldable pub setsockopt_dialog : ℤ → ℤ → Span → Option Syscall
  unfolding setsockopt
  setsockopt_dialog level optname option =
      d.socket >>= λ h. some (setsockopt h level optname option)

  unfoldable pub getpeername_dialog : ℤ → ℕ → Span → Option (Outcome Span)
  unfolding getpeername
  getpeername_dialog ret socklen address = d.socket >>= λ h. some (getpeername ret socklen address)

  unfoldable pub getsockname_dialog : ℤ → ℕ → Span → Option (Outcome Span)
  unfolding getsockname
  getsockname_dialog ret socklen address = d.socket >>= λ h. some (getsockname ret socklen address)

  unfoldable pub getsockopt_dialog : ℤ → ℕ → Span → Option (Outcome (ℤ × Span))
  unfolding socket_option
  getsockopt_dialog ret optlen option = d.socket >>= λ h. some (socket_option ret optlen option)

-- The descriptor of a call.
abbrev pub descriptor_of : Syscall → ℤ
descriptor_of (sys_bind fd at n) = fd
descriptor_of (sys_listen fd n) = fd
descriptor_of (sys_shutdown fd how) = fd
descriptor_of (sys_setsockopt fd level optname at n) = fd

-- Every call of a dialog goes to the descriptor of the dialog.
pub descriptor_of-dialog :
    (d : Dialog) (a option : Span) (n how level optname : ℤ)
    → ((bind_dialog d a >>= λ c. some (descriptor_of c)) ≡ dialog_native d)
      × ((listen_dialog d n >>= λ c. some (descriptor_of c)) ≡ dialog_native d)
      × ((shutdown_dialog d how >>= λ c. some (descriptor_of c)) ≡ dialog_native d)
      × ((setsockopt_dialog d level optname option >>= λ c. some (descriptor_of c))
          ≡ dialog_native d)
unfolding bind_dialog listen_dialog shutdown_dialog setsockopt_dialog dialog_native
descriptor_of-dialog d a option n how level optname = elim (Option-cases d.socket) [
  | inl missing ↦ rw missing (refl, refl, refl, refl)
  | inr (h, there) ↦ rw there (refl, refl, refl, refl)
]
