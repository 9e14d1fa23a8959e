-- ===== src/Socket/Windows.antt =====
-- include/io/socket/detail/platforms/windows/socket_impl.hpp: the buffers and `fcntl` on Windows.
pub mod Buffers
mod Examples
use async_berkeley.Base.{
  ℕ, ◌+◌, ◌-◌, ◌%◌, ◌^◌, Bool, true, false, ℤ, pos, negsuc, int_eq, leb, ◌==◌, if◌then◌else◌,
}
use async_berkeley.Executor.{bit}

-- WSABUF, whose length is a ULONG. Memory is counted in bytes from the null pointer, 0.
pub record Wsabuf : Type 0 where
  pub len : ℕ
  pub buf : ℕ

-- operator+=
unfoldable pub advance_wsabuf : Wsabuf → ℕ → Wsabuf
advance_wsabuf b n =
    if leb b.len n
    then record { len = 0; buf = 0 }
    else record { len = (b.len - n) % 2 ^ 32; buf = b.buf + n }

abbrev pub f_setfl : ℤ
f_setfl = pos 4

-- O_NONBLOCK is 2 ^ 11.
abbrev pub nonblock_bit : ℕ
nonblock_bit = 11

abbrev pub socket_error : ℤ
socket_error = negsuc 0

-- `arg & O_NONBLOCK`, of an `int` in two's complement.
unfoldable pub has_nonblock : ℤ → Bool
has_nonblock (pos n) = bit nonblock_bit n == 1
has_nonblock (negsuc n) = bit nonblock_bit n == 0

-- fcntl, in a build without assertions. `ioctlsocket` is FIONBIO, with the socket and the mode.
unfoldable pub fcntl : {W : Type 0} → (ℤ → ℕ → W → ℤ × W) → ℤ → ℤ → ℤ → W → ℤ × W
unfolding has_nonblock
fcntl ioctlsocket socket cmd arg w =
    let mode = if has_nonblock arg then 1 else 0 in
    if int_eq cmd f_setfl then ioctlsocket socket mode w else (socket_error, w)
