-- ===== src/Socket/Dialog/Examples.antt =====
-- Examples of the dialogs.
use async_berkeley.Base.{◌≡◌, refl, true, false, some, pos, int_eq, ◌>>=◌}
use async_berkeley.Socket.Handle.{Handle, is_valid}
use async_berkeley.Socket.Dialog.{
  Dialog, dialog_bool, dialog_native, equal_dialogs, equal_handle, equal_descriptor,
}
use async_berkeley.Socket.Dialog.Comparisons.{same_native, equal-same_native}

abbrev fourth : Handle
fourth = record { socket = pos 4; error = pos 0 }

-- The same handle, with and without an executor.
abbrev running : Dialog
running = record { is_expired = false; socket = some fourth }

abbrev expired : Dialog
expired = record { is_expired = true; socket = some fourth }

running_is_true : dialog_bool running ≡ true
unfolding dialog_bool is_valid int_eq
running_is_true = refl

expired_is_false : dialog_bool expired ≡ false
unfolding dialog_bool
expired_is_false = refl

equal-same_native_example :
    (equal_dialogs running expired ≡ same_native running expired)
    × (equal_handle running fourth ≡ (dialog_native running >>= λ a. some (int_eq a (pos 4))))
    × (equal_descriptor running (pos 5) ≡ (dialog_native running >>= λ a. some (int_eq a (pos 5))))
equal-same_native_example = equal-same_native running expired fourth (pos 5)
