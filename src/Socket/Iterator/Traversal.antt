-- ===== src/Socket/Iterator/Traversal.antt =====
-- A walk from `begin` to `end` meets the buffers of the message, one after the other.
use async_berkeley.Base.{
  ℕ, zero, suc, ◌+◌, ◌<◌, ◌≡◌, refl, ap, ◌∙◌, Option, none, some, List, [], ◌∷◌, ◌++◌, length,
  if◌then◌else◌, ◌>>=◌, arith, append_assoc, sym, length-append, get_elem?-length, true, false,
  ◌+ℤ◌,
}
use async_berkeley.Socket.Message.{Iovec}
use async_berkeley.Socket.Message.Bytes.{addresses, bytes}
use async_berkeley.Socket.Iterator.{
  BufferIterator, position, make_iterator, equal_iterators, move_to, increment, dereference,
  begin_of, end_of,
}

-- The bytes of the spans that `for (auto span : message)` meets from an iterator on, on fuel; `none` is
-- a dereference or an increment that is undefined, or the end of the fuel.
unfoldable pub walk : List Iovec → ℕ → BufferIterator → Option (List ℕ)
walk buffers zero i = none
walk buffers (suc fuel) i =
    let rest = increment buffers i >>= walk buffers fuel in
    if equal_iterators i (end_of buffers)
    then some []
    else dereference buffers i >>= λ s. rest >>= λ xs. some (addresses s.data_at s.size ++ xs)

at-end_of :
    (xs : List Iovec) → equal_iterators (make_iterator (length xs)) (end_of (xs ++ [])) ≡ true
unfolding equal_iterators make_iterator end_of
at-end_of xs = ground (arith, length-append xs [])

module _ (front : List Iovec) (b : Iovec) (bs : List Iovec) where
  not-end_of : equal_iterators (make_iterator (length front)) (end_of (front ++ b ∷ bs)) ≡ false
  unfolding equal_iterators make_iterator end_of
  not-end_of = ground (arith, length-append front (b ∷ bs))

  dereference-append :
      dereference (front ++ b ∷ bs) (make_iterator (length front))
      ≡ some (record { data_at = b.iov_base; size = b.iov_len })
  unfolding dereference make_iterator
  dereference-append = rw (get_elem?-length front b bs) refl

  increment-append :
      increment (front ++ b ∷ bs) (make_iterator (length front))
      ≡ some (make_iterator (length (front ++ b ∷ [])))
  unfolding increment move_to make_iterator position ◌+ℤ◌
  increment-append =
      let a = length-append front (b ∷ bs) in
      let l : length front + 1 ≡ length (front ++ b ∷ []) =
        omega (arith, length-append front (b ∷ [])) in
      ground arith

walk-from :
    (front bs : List Iovec) (fuel : ℕ)
    → length bs < fuel
    → walk (front ++ bs) fuel (make_iterator (length front)) ≡ some (bytes bs)
unfolding walk bytes
walk-from front bs zero h = absurd (omega arith)
walk-from front [] (suc fuel) h = rw (at-end_of front) refl
walk-from front (b ∷ bs) (suc fuel) h =
    let rest : walk (front ++ b ∷ bs) fuel (make_iterator (length (front ++ b ∷ [])))
        ≡ some (bytes bs) =
      ap (λ l. walk l fuel (make_iterator (length (front ++ b ∷ []))))
        (sym (append_assoc front (b ∷ []) bs))
      ∙ walk-from (front ++ b ∷ []) bs fuel (omega arith) in
    rw (not-end_of front b bs, dereference-append front b bs, increment-append front b bs, rest)
      refl

-- A loop over a message from `begin` to `end` ends after as many rounds as it has buffers, dereferences
-- nothing outside them, and meets the bytes of the message in their order.
pub walk-begin_of :
    (buffers : List Iovec)
    → walk buffers (length buffers + 1) (begin_of buffers) ≡ some (bytes buffers)
unfolding begin_of
walk-begin_of buffers = walk-from [] buffers (length buffers + 1) (omega arith)
