-- ===== src/Socket/Iterator/RandomAccess.antt =====
-- What std::random_access_iterator asks of the operators, which the comment of
-- include/io/socket/detail/buffer_iterator.hpp promises.
use async_berkeley.Base.{
  ℕ, ◌≤◌, ◌≡◌, ◌↔◌, refl, Bool, true, Option, some, List, ℤ, pos, ◌+ℤ◌, sub_ℕ, length, arith,
}
use async_berkeley.Socket.Message.{Iovec}
use async_berkeley.Socket.Iterator.{
  BufferIterator, distance, equal_iterators, plus, minus, increment, decrement, dereference,
  subscript,
}
use async_berkeley.Socket.Iterator.Arithmetic.{
  move_to-some, move_to-pos, minus-plus, compare-distance,
}

-- The laws, of operators on iterators of a type `I` to values of a type `V`. An iterator is valid if it
-- is in the range or at its end; `none` is what the concept leaves undefined.
pub record IsRandomAccess {I V : Type 0} (Valid : I → Type 0) (plus minus : I → ℤ → Option I)
    (distance : I → I → ℤ) (increment decrement : I → Option I) (dereference : I → Option V)
    (subscript : I → ℤ → Option V) (equal : I → I → Bool) : Type 0 where
  pub valid : (i j : I) (n : ℤ) → Valid i → plus i n ≡ some j → Valid j
  pub reach : (i j : I) → Valid i → Valid j → plus i (distance j i) ≡ some j
  pub measured : (i j : I) (n : ℤ) → Valid i → plus i n ≡ some j → distance j i ≡ n
  pub back : (i j : I) (n : ℤ) → Valid i → plus i n ≡ some j → minus j n ≡ some i
  pub next : (i : I) → increment i ≡ plus i (pos 1)
  pub previous : (i : I) → decrement i ≡ minus i (pos 1)
  pub indexed : (i j : I) (n : ℤ) → plus i n ≡ some j → subscript i n ≡ dereference j
  pub same : (i j : I) → (equal i j ≡ true) ↔ (distance i j ≡ pos 0)

sub_ℕ-reach : (a b : ℕ) → pos a +ℤ sub_ℕ b a ≡ pos b
unfolding ◌+ℤ◌
sub_ℕ-reach a b = ground arith

module _ (buffers : List Iovec) where
  abbrev pub InRange : BufferIterator → Type 0
  InRange i = i.it ≤ length buffers

  -- The operators of a buffer iterator, on the buffers of a message, have the laws of a random access
  -- iterator.
  pub iterator-IsRandomAccess :
      IsRandomAccess InRange
        (plus buffers)
        (minus buffers)
        distance
        (increment buffers)
        (decrement buffers)
        (dereference buffers)
        (subscript buffers)
        equal_iterators
  unfolding plus minus increment decrement distance subscript
  iterator-IsRandomAccess = record {
    valid = λ i j n inside h. (move_to-some buffers (pos i.it +ℤ n) j h).1;
    reach = λ i j inside there.
        move_to-pos buffers (pos i.it +ℤ sub_ℕ j.it i.it) j (sub_ℕ-reach i.it j.it) there;
    measured = λ i j n inside h. (minus-plus buffers i j n inside h).1;
    back = λ i j n inside h. (minus-plus buffers i j n inside h).0;
    next = λ i. refl;
    previous = λ i. refl;
    indexed = λ i j n h. rw (h, plus) refl;
    same = λ i j. (compare-distance i j).2;
  }
