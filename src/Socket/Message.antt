-- ===== src/Socket/Message.antt =====
-- The scatter-gather buffers: `operator+=` on a native buffer of
-- include/io/socket/detail/platforms/posix/socket_impl.hpp, and `message_buffer` of
-- include/io/socket/impl/socket_message_impl.hpp.
pub mod Bytes
pub mod Lengths
pub mod Header
pub mod Examples
use async_berkeley.Base.{
  ℕ, ◌+◌, ◌-◌, ◌*◌, ◌%◌, ◌^◌, Bool, true, false, not, List, [], ◌∷◌, ◌++◌, leb, ltb, ◌==◌,
  if◌then◌else◌, length,
}

-- `struct iovec`. Memory is counted in bytes from the null pointer, 0.
pub record Iovec : Type 0 where
  pub iov_base : ℕ
  pub iov_len : ℕ

-- buf += len
unfoldable pub advance : Iovec → ℕ → Iovec
advance buf len =
    if leb buf.iov_len len
    then record { iov_base = 0; iov_len = 0 }
    else record { iov_base = buf.iov_base + len; iov_len = buf.iov_len - len }

-- A range of `count` elements of `size` bytes each.
pub record Range : Type 0 where
  pub range_data : ℕ
  pub count : ℕ
  pub size : ℕ

unfoldable pub push_back : List Iovec → Iovec → List Iovec
push_back buffer buf = buffer ++ buf ∷ []

-- push_back of a contiguous range; the product is a std::size_t.
unfoldable pub push_back_range : List Iovec → Range → List Iovec
unfolding push_back
push_back_range buffer r =
    push_back buffer (record { iov_base = r.range_data; iov_len = r.count * r.size % 2 ^ 64 })

-- The push_backs of the constructor from ranges, which starts from an empty buffer.
unfoldable pub from_ranges : List Iovec → List Range → List Iovec
unfolding push_back_range
from_ranges buffer [] = buffer
from_ranges buffer (r ∷ rs) = from_ranges (push_back_range buffer r) rs

-- The sum of the lengths, a std::size_t.
unfoldable pub sum_lengths : ℕ → List Iovec → ℕ
sum_lengths len [] = len
sum_lengths len (buf ∷ bufs) = sum_lengths ((len + buf.iov_len) % 2 ^ 64) bufs

unfoldable pub empty : List Iovec → Bool
unfolding sum_lengths
empty buffer = sum_lengths 0 buffer == 0

unfoldable pub to_bool : List Iovec → Bool
unfolding empty
to_bool buffer = not (empty buffer)

-- What the predicate of `operator+=` makes of a buffer: the buffer after it, whether it goes, and the
-- bytes that are left to skip.
pub record Skipped : Type 0 where
  pub buf : Iovec
  pub gone : Bool
  pub len : ℕ

unfoldable pub skip : ℕ → Iovec → Skipped
unfolding advance
skip len buf =
    if len == 0
    then record { buf = buf; gone = false; len = len }
    else if ltb len buf.iov_len
    then record { buf = advance buf len; gone = false; len = 0 }
    else record { buf = advance buf len; gone = true; len = len - buf.iov_len }

-- operator+=: remove_if with the predicate, and erase.
unfoldable pub advance_message : List Iovec → ℕ → List Iovec
unfolding skip
advance_message [] len = []
advance_message (buf ∷ bufs) len =
    let s = skip len buf in
    let rest = advance_message bufs s.len in if s.gone then rest else s.buf ∷ rest
