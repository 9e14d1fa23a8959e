-- ===== src/Socket/Iterator/Examples.antt =====
-- Tests and examples of the iterators, on a message of two buffers.
use async_berkeley.Base.{◌≡◌, refl, none, some, List, [], ◌∷◌, pos, negsuc, arith, ◌+ℤ◌}
use async_berkeley.Socket.Message.{Iovec}
use async_berkeley.Socket.Message.Bytes.{bytes}
use async_berkeley.Socket.Iterator.{
  BufferIterator, distance, plus, minus, subscript, dereference, begin_of, increment, decrement,
  equal_iterators,
}
use async_berkeley.Socket.Iterator.RandomAccess.{IsRandomAccess, InRange, iterator-IsRandomAccess}
use async_berkeley.Socket.Iterator.Traversal.{walk, walk-begin_of}

abbrev two : List Iovec
two = record { iov_base = 100; iov_len = 2 } ∷ record { iov_base = 300; iov_len = 1 } ∷ []

abbrev first : BufferIterator
first = record { it = 0 }

abbrev second : BufferIterator
second = record { it = 1 }

before_begin : plus two first (negsuc 0) ≡ none
unfolding plus ◌+ℤ◌
before_begin = refl

at_end : subscript two second (pos 1) ≡ none
unfolding subscript ◌+ℤ◌
at_end = refl

walk-begin_of_example : walk two 3 (begin_of two) ≡ some (bytes two)
walk-begin_of_example = walk-begin_of two

iterator-IsRandomAccess_example :
    IsRandomAccess
      (InRange two)
      (plus two)
      (minus two)
      distance
      (increment two)
      (decrement two)
      (dereference two)
      (subscript two)
      equal_iterators
iterator-IsRandomAccess_example = iterator-IsRandomAccess two

one_apart : plus two first (distance second first) ≡ some second
one_apart = (iterator-IsRandomAccess two).reach first second (omega arith) (omega arith)
