-- ===== src/Socket/Windows/Buffers.antt =====
-- The two platforms side by side.
use async_berkeley.Base.{
  ℕ, ◌-◌, ◌%◌, ◌^◌, ◌<◌, ◌≡◌, refl, true, ℤ, pos, negsuc, int_eq_refl, leb, arith, Bool-cases, inl,
  inr,
}
use async_berkeley.Socket.Message.{Iovec, advance}
use async_berkeley.Executor.{or_bit}
use async_berkeley.Socket.Windows.{
  Wsabuf, advance_wsabuf, f_setfl, nonblock_bit, has_nonblock, fcntl,
}

-- The buffer of the other platform.
abbrev pub to_iovec : Wsabuf → Iovec
to_iovec b = record { iov_base = b.buf; iov_len = b.len }

-- A buffer whose length fits a ULONG is advanced by `operator+=` as on POSIX, by any number of bytes,
-- and its length fits a ULONG afterwards.
pub advance_wsabuf-advance :
    (b : Wsabuf) (n : ℕ)
    → b.len < 2 ^ 32
    → (to_iovec (advance_wsabuf b n) ≡ advance (to_iovec b) n) × ((advance_wsabuf b n).len < 2 ^ 32)
unfolding advance_wsabuf advance
advance_wsabuf-advance b n fits = elim (Bool-cases (leb b.len n)) [
  | inl all ↦ rw all (refl, omega arith)
  | inr part ↦
      let same : (b.len - n) % 2 ^ 32 ≡ b.len - n = omega arith in
      rw (part, same) (refl, omega arith)
]

has_nonblock-or_bit : (flags : ℤ) → has_nonblock (or_bit nonblock_bit flags) ≡ true
unfolding has_nonblock or_bit
has_nonblock-or_bit (pos n) = ground arith
has_nonblock-or_bit (negsuc n) = ground arith

-- The call of `fcntl` with which `push` sets the flag of the kernel's flags.
pub fcntl-nonblock :
    {W : Type 0} (ioctlsocket : ℤ → ℕ → W → ℤ × W) (socket flags : ℤ) (w : W)
    → fcntl ioctlsocket socket f_setfl (or_bit nonblock_bit flags) w ≡ ioctlsocket socket 1 w
unfolding fcntl
fcntl-nonblock ioctlsocket socket flags w =
    rw (fcntl, int_eq_refl f_setfl, has_nonblock-or_bit flags) refl
