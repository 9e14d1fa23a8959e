-- ===== src/Socket/Message/Bytes.antt =====
-- A message buffer seen as the sequence of its bytes' addresses.
use async_berkeley.Base.{
  ℕ, zero, suc, ◌+◌, ◌-◌, ◌<◌, ◌≡◌, refl, ap, ap₂, ◌∙◌, true, false, List, [], ◌∷◌, ◌++◌, arith,
  leb, ltb, ◌==◌, length, drop, Bool-cases, inl, inr,
}
use async_berkeley.Socket.Message.{Iovec, advance, skip, advance_message}

-- The `n` addresses from `a`.
unfoldable pub addresses : ℕ → ℕ → List ℕ
addresses a zero = []
addresses a (suc n) = a ∷ addresses (a + 1) n

unfoldable pub bytes : List Iovec → List ℕ
unfolding addresses
bytes [] = []
bytes (b ∷ bs) = addresses b.iov_base b.iov_len ++ bytes bs

pub length-addresses : (a n : ℕ) → length (addresses a n) ≡ n
unfolding addresses
length-addresses a zero = refl
length-addresses a (suc n) = omega (arith, length-addresses (a + 1) n)

drop-addresses : (a n k : ℕ) → k < n → drop k (addresses a n) ≡ addresses (a + k) (n - k)
unfolding addresses
drop-addresses a zero k h = absurd (omega arith)
drop-addresses a (suc n) zero h =
    let p : a ≡ a + 0 = omega arith in let q : suc n ≡ suc n - 0 = omega arith in ap₂ addresses p q
drop-addresses a (suc n) (suc k) h =
    let p : a + 1 + k ≡ a + suc k = omega arith in
    let q : n - k ≡ suc n - suc k = omega arith in
    drop-addresses (a + 1) n k (omega arith) ∙ ap₂ addresses p q

drop_short :
    {A : Type 0} (k : ℕ) (xs ys : List A) → k < length xs → drop k (xs ++ ys) ≡ drop k xs ++ ys
drop_short k [] ys h = absurd (omega arith)
drop_short zero (x ∷ xs) ys h = refl
drop_short (suc k) (x ∷ xs) ys h = drop_short k xs ys (omega arith)

drop_long :
    {A : Type 0} (k n : ℕ) (xs ys : List A)
    → length xs ≡ n
    → n < k + 1
    → drop k (xs ++ ys) ≡ drop (k - n) ys
drop_long k n [] ys e h = let p : k ≡ k - n = omega arith in ap (λ j. drop j ys) p
drop_long zero n (x ∷ xs) ys e h = absurd (omega arith)
drop_long (suc k) n (x ∷ xs) ys e h =
    let p : k - (n - 1) ≡ suc k - n = omega arith in
    drop_long k (n - 1) xs ys (omega arith) (omega arith) ∙ ap (λ j. drop j ys) p

skip-part :
    (len : ℕ) (b : Iovec)
    → (len == 0) ≡ false
    → ltb len b.iov_len ≡ true
    → skip len b ≡ record {
      buf = record { iov_base = b.iov_base + len; iov_len = b.iov_len - len };
      gone = false;
      len = 0;
    }
unfolding skip advance
skip-part len b n h = let l : leb b.iov_len len ≡ false = ground arith in rw (n, h, l) refl

skip-whole :
    (len : ℕ) (b : Iovec)
    → (len == 0) ≡ false
    → ltb len b.iov_len ≡ false
    → skip len b
      ≡ record { buf = record { iov_base = 0; iov_len = 0 }; gone = true; len = len - b.iov_len }
unfolding skip advance
skip-whole len b n h = let l : leb b.iov_len len ≡ true = ground arith in rw (n, h, l) refl

skip-none : (b : Iovec) (bs : List Iovec) → advance_message (b ∷ bs) 0 ≡ b ∷ advance_message bs 0
unfolding advance_message skip
skip-none b bs = refl

-- Advancing a message by `len` bytes leaves the bytes after the first `len`, in their order, however
-- they are spread over the buffers; none are left if there are no more than `len`.
pub bytes-advance_message :
    (bufs : List Iovec) (len : ℕ) → bytes (advance_message bufs len) ≡ drop len (bytes bufs)
unfolding bytes advance_message
bytes-advance_message [] zero = refl
bytes-advance_message [] (suc len) = refl
bytes-advance_message (b ∷ bs) zero =
    ap bytes (skip-none b bs)
    ∙ ap (◌++◌ (addresses b.iov_base b.iov_len)) (bytes-advance_message bs 0)
bytes-advance_message (b ∷ bs) (suc k) = elim (Bool-cases (ltb (suc k) b.iov_len)) [
  | inl part ↦
      let same = length-addresses b.iov_base b.iov_len in
      let inside : suc k < b.iov_len = ground arith in
      rw
        (
          skip-part (suc k) b (ground arith) part,
          drop_short (suc k) (addresses b.iov_base b.iov_len) (bytes bs) (omega arith),
          drop-addresses b.iov_base b.iov_len (suc k) inside,
        )
        (ap (◌++◌ (addresses (b.iov_base + suc k) (b.iov_len - suc k)))
          (bytes-advance_message bs 0))
  | inr whole ↦
      rw
        (
          skip-whole (suc k) b (ground arith) whole,
          drop_long (suc k) b.iov_len (addresses b.iov_base b.iov_len) (bytes bs)
              (length-addresses b.iov_base b.iov_len) (ground arith),
        )
        (bytes-advance_message bs (suc k - b.iov_len))
]
