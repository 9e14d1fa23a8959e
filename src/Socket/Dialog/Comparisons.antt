-- ===== src/Socket/Dialog/Comparisons.antt =====
-- The comparisons of dialogs go by the descriptors.
use async_berkeley.Base.{
  ◌≡◌, refl, ap, Bool, Option, some, ℤ, int_eq, ◌>>=◌, arith, Option-cases, inl, inr,
}
use async_berkeley.Socket.Handle.{Handle, compare, compare_native, is_equal}
use async_berkeley.Socket.Dialog.{
  Dialog, dialog_native, compare_dialogs, equal_dialogs, compare_handle, equal_handle,
  compare_descriptor, equal_descriptor,
}

-- Whether the descriptors of two dialogs are the same; `none` where one has no handle.
unfoldable pub same_native : Dialog → Dialog → Option Bool
same_native lhs rhs = dialog_native lhs >>= λ a. dialog_native rhs >>= λ b. some (int_eq a b)

equal-int_eq : (l r : Handle) → is_equal (compare l r) ≡ int_eq l.socket r.socket
unfolding compare int_eq
equal-int_eq l r = ground arith

equal_native-int_eq : (l : Handle) (fd : ℤ) → is_equal (compare_native l fd) ≡ int_eq l.socket fd
unfolding compare_native int_eq
equal_native-int_eq l fd = ground arith

-- A dialog equals another, a handle or a descriptor exactly if the descriptors are the same, whatever
-- the executors, and throws where a dialog has no handle.
pub equal-same_native :
    (lhs rhs : Dialog) (h : Handle) (fd : ℤ)
    → (equal_dialogs lhs rhs ≡ same_native lhs rhs)
      × (equal_handle lhs h ≡ (dialog_native lhs >>= λ a. some (int_eq a h.socket)))
      × (equal_descriptor lhs fd ≡ (dialog_native lhs >>= λ a. some (int_eq a fd)))
unfolding equal_dialogs equal_handle equal_descriptor compare_dialogs compare_handle
    compare_descriptor same_native dialog_native
equal-same_native lhs rhs h fd = elim (Option-cases lhs.socket) [
  | inl p ↦ rw p (refl, refl, refl)
  | inr (l, p) ↦ elim (Option-cases rhs.socket) [
    | inl q ↦ rw (p, q) (refl, ap some (equal-int_eq l h), ap some (equal_native-int_eq l fd))
    | inr (r, q) ↦
        rw (p, q)
          (
            ap some (equal-int_eq l r),
            ap some (equal-int_eq l h),
            ap some (equal_native-int_eq l fd),
          )
  ]
]
