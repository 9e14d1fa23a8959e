-- ===== src/Socket/Iterator/Arithmetic.antt =====
-- The laws of random access: what the operators that move an iterator undo and compose to.
use Prim.Native.Nat.{Ordering}
use async_berkeley.Base.{
  ℕ, ◌≤◌, ◌≡◌, ◌↔◌, refl, some, List, ℤ, pos, negsuc, ◌+ℤ◌, ◌-ℤ◌, sub_ℕ, length, arith, int_lt,
  true,
}
use async_berkeley.Socket.Message.{Iovec}
use async_berkeley.Socket.Iterator.{
  BufferIterator, position, make_iterator, distance, equal_iterators, compare_iterators, move_to,
  plus, offset_plus, minus, increment, post_increment, decrement, post_decrement, dereference,
  subscript,
}

sub-add : (a b : ℕ) (n : ℤ) → pos a +ℤ n ≡ pos b → pos b -ℤ n ≡ pos a
unfolding ◌+ℤ◌ ◌-ℤ◌
sub-add a b (pos n) h = ground arith
sub-add a b (negsuc n) h = ground arith

sub_ℕ-add : (a b : ℕ) (n : ℤ) → pos a +ℤ n ≡ pos b → sub_ℕ b a ≡ n
unfolding ◌+ℤ◌
sub_ℕ-add a b (pos n) h = ground arith
sub_ℕ-add a b (negsuc n) h = ground arith

-- Iterators compare as their distance does to 0.
pub compare-distance :
    (lhs rhs : BufferIterator)
    → ((compare_iterators lhs rhs ≡ Ordering.lt) ↔ (int_lt (distance lhs rhs) (pos 0) ≡ true))
      × ((compare_iterators lhs rhs ≡ Ordering.gt) ↔ (int_lt (pos 0) (distance lhs rhs) ≡ true))
      × ((equal_iterators lhs rhs ≡ true) ↔ (distance lhs rhs ≡ pos 0))
unfolding compare_iterators distance equal_iterators int_lt
compare-distance lhs rhs = (ground arith, ground arith, ground arith)

module _ (buffers : List Iovec) where
  pub move_to-some :
      (p : ℤ) (j : BufferIterator)
      → move_to buffers p ≡ some j
      → (p ≡ pos j.it) × (j.it ≤ length buffers)
  unfolding move_to position make_iterator
  move_to-some (pos k) j h = ground arith
  move_to-some (negsuc k) j h = absurd (ground arith)

  pub move_to-pos :
      (p : ℤ) (j : BufferIterator)
      → p ≡ pos j.it
      → j.it ≤ length buffers
      → move_to buffers p ≡ some j
  unfolding move_to position make_iterator
  move_to-pos p j e h = rw e (ground arith)

  -- Moving an iterator by `n` and then back by `n` gives the first one again, `n` is their distance, and
  -- the other forms of the sum and the subscript agree with it.
  pub minus-plus :
      (i j : BufferIterator) (n : ℤ)
      → i.it ≤ length buffers
      → plus buffers i n ≡ some j
      → (minus buffers j n ≡ some i)
        × (distance j i ≡ n)
        × (offset_plus buffers n i ≡ some j)
        × (subscript buffers i n ≡ dereference buffers j)
  unfolding plus minus offset_plus subscript distance
  minus-plus i j n inside h =
      let (e, l) = move_to-some (pos i.it +ℤ n) j h in
      (
        move_to-pos (pos j.it -ℤ n) i (sub-add i.it j.it n e) inside,
        sub_ℕ-add i.it j.it n e,
        h,
        rw (h, plus) refl,
      )

  -- An iterator that is incremented goes back by a decrement; both agree with a sum by 1 and with the
  -- operators that return the iterator as it was.
  pub decrement-increment :
      (i j : BufferIterator)
      → i.it ≤ length buffers
      → increment buffers i ≡ some j
      → (decrement buffers j ≡ some i)
        × (plus buffers i (pos 1) ≡ some j)
        × (post_increment buffers i ≡ some (i, j))
        × (post_decrement buffers j ≡ some (j, i))
  unfolding plus increment decrement post_increment post_decrement minus ◌-ℤ◌
  decrement-increment i j inside h =
      let back = (minus-plus i j (pos 1) inside h).0 in
      (back, h, rw (h, increment) refl, rw (back, decrement) refl)
