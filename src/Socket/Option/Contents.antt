-- ===== src/Socket/Option/Contents.antt =====
-- What an option holds of the bytes that it is made of.
use async_berkeley.Base.{
  ℕ, zero, suc, ◌-◌, ◌≤◌, ◌<◌, ◌≡◌, refl, sym, ap, ◌∙◌, Bool, true, false, none, some, List, [],
  ◌∷◌, ◌++◌, length, length-append, length-replicate, length-take, take, drop, replicate, leb, ◌==◌,
  if◌then◌else◌, arith, Bool-cases, inl, inr,
}
use async_berkeley.Socket.Option.{
  SocketOption, memcpy, contents, of_span, of_pointer, of_address, of_other, make_address,
  read_bytes, value,
}

take-append : (xs ys : List ℕ) → take (length xs) (xs ++ ys) ≡ xs
take-append [] ys = refl
take-append (x ∷ xs) ys = ap (◌∷◌ x) (take-append xs ys)

take-length : (xs : List ℕ) → take (length xs) xs ≡ xs
take-length [] = refl
take-length (x ∷ xs) = ap (◌∷◌ x) (take-length xs)

drop-replicate : (n k a : ℕ) → drop k (replicate n a) ≡ replicate (n - k) a
drop-replicate n zero a = let e : n ≡ n - 0 = omega arith in ap (λ m. replicate m a) e
drop-replicate zero (suc k) a = let e : 0 ≡ 0 - suc k = omega arith in ap (λ m. replicate m a) e
drop-replicate (suc n) (suc k) a =
    let e : n - k ≡ suc n - suc k = omega arith in drop-replicate n k a ∙ ap (λ m. replicate m a) e

module _ (capacity : ℕ) (asserts : Bool) where
  -- The option that a span is to make.
  padded : List ℕ → SocketOption
  padded bytes = record {
    storage = bytes ++ replicate (capacity - length bytes) 0;
    size = length bytes;
  }

  of_span-padded :
      (bytes : List ℕ)
      → 0 < length bytes
      → length bytes ≤ capacity
      → of_span capacity asserts bytes ≡ some (padded bytes)
  unfolding of_span memcpy padded
  of_span-padded bytes h k =
      let fits : leb (length bytes) capacity ≡ true = ground arith in
      let some_bytes : (length bytes == 0) ≡ false = ground arith in
      let l = length-replicate {A = ℕ} capacity 0 in
      elim (Bool-cases asserts) [
        | inl a ↦
            rw (a, fits, some_bytes, l, drop-replicate capacity (length bytes) 0) (ground arith)
        | inr a ↦ rw (a, l, drop-replicate capacity (length bytes) 0) (ground arith)
      ]

  -- From a span of at least one byte that fits, an option is made whose bytes are those of the span; its
  -- value has zeros behind them, up to its capacity.
  pub contents-of_span :
      (bytes : List ℕ)
      → 0 < length bytes
      → length bytes ≤ capacity
      → (o : SocketOption) × (of_span capacity asserts bytes ≡ some o)
        × (contents o ≡ some bytes)
        × (value capacity o ≡ bytes ++ replicate (capacity - length bytes) 0)
        × (length o.storage ≡ capacity)
  unfolding contents value padded
  contents-of_span bytes h k =
      let all = bytes ++ replicate (capacity - length bytes) 0 in
      let l = length-append bytes (replicate (capacity - length bytes) 0) in
      let r = length-replicate {A = ℕ} (capacity - length bytes) 0 in
      let full : length all ≡ capacity = omega arith in
      (
        padded bytes,
        of_span-padded bytes h k,
        ground (arith, take-append bytes (replicate (capacity - length bytes) 0)),
        ap (λ n. take n all) (sym full) ∙ take-length all,
        full,
      )

  -- From a pointer to an address of its type an address is made of the bytes there, the same one by
  -- make_address and by either constructor from a pointer, except that the one that takes a size has
  -- no outcome for any size but that of the type.
  pub make_address-contents :
      (addr : List ℕ)
      → 0 < capacity
      → capacity ≤ length addr
      → (o : SocketOption) × (make_address capacity asserts (some addr) ≡ some o)
        × (of_address capacity asserts addr ≡ some o)
        × (contents o ≡ some (take capacity addr))
        × ((size : ℕ)
            → of_pointer capacity asserts addr size ≡ (if size == capacity then some o else none))
  unfolding make_address of_address of_pointer read_bytes
  make_address-contents addr h k =
      let l = length-take capacity addr k in
      let (o, made, c, v, full) =
        contents-of_span (take capacity addr) (omega arith) (omega arith) in
      let reads : leb capacity (length addr) ≡ true = ground arith in
      let same : (capacity == capacity) ≡ true = ground arith in
      (o, rw (same, reads, made) refl, rw (reads, made) refl, c, λ size. rw (reads, made) refl)

  -- An address of another type that is full is converted to one of the same bytes, if the type is no
  -- larger.
  pub of_other-contents :
      (extent : ℕ) (other : SocketOption)
      → other.size ≡ extent
      → extent ≤ length other.storage
      → 0 < extent
      → extent ≤ capacity
      → (o : SocketOption) × (of_other capacity asserts extent other ≡ some o)
        × (contents o ≡ contents other)
  unfolding of_other contents
  of_other-contents extent other full inside h k =
      let l = length-take other.size other.storage (omega arith) in
      let (o, made, c, v, f) =
        contents-of_span (take other.size other.storage) (omega arith) (omega arith) in
      let same : (other.size == extent) ≡ true = ground arith in
      let reads : contents other ≡ some (take other.size other.storage) = ground arith in
      (o, rw (same, reads, made) refl, c ∙ sym reads)
