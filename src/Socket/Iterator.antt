-- ===== src/Socket/Iterator.antt =====
-- `buffer_iterator` of include/io/socket/detail/buffer_iterator.hpp and
-- include/io/socket/detail/impl/buffer_iterator_impl.hpp, on the iterators of the vector of a message
-- buffer: a position from 0 to its size. `none` is an iterator out of this range, or a dereference at the
-- end, which C++ leaves undefined.
pub mod Arithmetic
pub mod RandomAccess
pub mod Traversal
pub mod Examples
use Prim.Native.Nat.{Ordering, compare as compare_positions}
use async_berkeley.Base.{
  ℕ, ◌+◌, Bool, Option, none, some, List, ℤ, pos, negsuc, ◌+ℤ◌, ◌-ℤ◌, sub_ℕ, get_elem?, length, leb,
  ◌==◌, if◌then◌else◌, ◌>>=◌,
}
use async_berkeley.Socket.Message.{Iovec}
use async_berkeley.Socket.Sync.{Span}

pub record BufferIterator : Type 0 where
  pub it : ℕ

-- A position of a vector of `size` elements.
unfoldable pub position : ℕ → ℤ → Option ℕ
position size (pos k) = if leb k size then some k else none
position size (negsuc k) = none

-- buffer_iterator(Iterator)
unfoldable pub make_iterator : ℕ → BufferIterator
make_iterator iter = record { it = iter }

-- base
unfoldable pub base : BufferIterator → ℕ
base i = i.it

-- operator-, of two iterators
unfoldable pub distance : BufferIterator → BufferIterator → ℤ
distance lhs rhs = sub_ℕ lhs.it rhs.it

-- operator==
unfoldable pub equal_iterators : BufferIterator → BufferIterator → Bool
equal_iterators lhs rhs = lhs.it == rhs.it

-- operator<=>
unfoldable pub compare_iterators : BufferIterator → BufferIterator → Ordering
compare_iterators lhs rhs = compare_positions lhs.it rhs.it

-- What the operators that move an iterator do to the one of the vector.
module _ (buffers : List Iovec) where
  unfoldable pub move_to : ℤ → Option BufferIterator
  unfolding position make_iterator
  move_to p = position (length buffers) p >>= λ k. some (make_iterator k)

  -- operator+=
  unfoldable pub add_assign : BufferIterator → ℤ → Option BufferIterator
  unfolding move_to
  add_assign i n = move_to (pos i.it +ℤ n)

  -- operator-=
  unfoldable pub subtract_assign : BufferIterator → ℤ → Option BufferIterator
  unfolding move_to
  subtract_assign i n = move_to (pos i.it -ℤ n)

  -- operator+(buffer_iterator, difference_type)
  unfoldable pub plus : BufferIterator → ℤ → Option BufferIterator
  unfolding add_assign
  plus i n = add_assign i n

  -- operator+(difference_type, buffer_iterator)
  unfoldable pub offset_plus : ℤ → BufferIterator → Option BufferIterator
  unfolding plus
  offset_plus n i = plus i n

  -- operator-(buffer_iterator, difference_type)
  unfoldable pub minus : BufferIterator → ℤ → Option BufferIterator
  unfolding subtract_assign
  minus i n = subtract_assign i n

  -- operator++()
  unfoldable pub increment : BufferIterator → Option BufferIterator
  unfolding move_to
  increment i = move_to (pos i.it +ℤ pos 1)

  -- operator++(int): what it returns, and the iterator after it.
  unfoldable pub post_increment : BufferIterator → Option (BufferIterator × BufferIterator)
  unfolding increment
  post_increment i = let tmp = i in increment i >>= λ i'. some (tmp, i')

  -- operator--()
  unfoldable pub decrement : BufferIterator → Option BufferIterator
  unfolding move_to
  decrement i = move_to (pos i.it -ℤ pos 1)

  -- operator--(int)
  unfoldable pub post_decrement : BufferIterator → Option (BufferIterator × BufferIterator)
  unfolding decrement
  post_decrement i = let tmp = i in decrement i >>= λ i'. some (tmp, i')

  -- operator*
  unfoldable pub dereference : BufferIterator → Option Span
  dereference i =
      get_elem? buffers i.it >>= λ b. some (record { data_at = b.iov_base; size = b.iov_len })

  -- operator[]
  unfoldable pub subscript : BufferIterator → ℤ → Option Span
  unfolding plus dereference
  subscript i n = plus i n >>= dereference

  -- message_buffer::begin and end
  unfoldable pub begin_of : BufferIterator
  unfolding make_iterator
  begin_of = make_iterator 0

  unfoldable pub end_of : BufferIterator
  unfolding make_iterator
  end_of = make_iterator (length buffers)
