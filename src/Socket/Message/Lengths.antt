-- ===== src/Socket/Message/Lengths.antt =====
-- The lengths of a message buffer: `empty`, `operator bool` and the ways to append.
use async_berkeley.Base.{
  ℕ, ◌+◌, ◌*◌, ◌%◌, ◌^◌, ◌<◌, ◌≡◌, refl, ap, ◌∙◌, sym, List, [], ◌∷◌, ◌++◌, append-nil,
  append_assoc, arith, ltb, length, length-append, All,
}
use async_berkeley.Socket.Message.{
  Iovec, Range, push_back, push_back_range, from_ranges, sum_lengths, empty, to_bool,
}
use async_berkeley.Socket.Message.Bytes.{addresses, bytes, length-addresses}

sum_lengths_lem :
    (len : ℕ) (bufs : List Iovec)
    → len < 2 ^ 64
    → sum_lengths len bufs ≡ (len + length (bytes bufs)) % 2 ^ 64
unfolding sum_lengths bytes
sum_lengths_lem len [] h = omega arith
sum_lengths_lem len (b ∷ bs) h =
    let p = length-append (addresses b.iov_base b.iov_len) (bytes bs) in
    let q = length-addresses b.iov_base b.iov_len in
    omega (arith, sum_lengths_lem ((len + b.iov_len) % 2 ^ 64) bs (omega arith))

-- A message buffer of fewer than 2 ^ 64 bytes is empty, and converts to false, exactly where it has no
-- bytes, be there buffers of length 0 or none.
pub to_bool-bytes :
    (bufs : List Iovec) → length (bytes bufs) < 2 ^ 64 → to_bool bufs ≡ ltb 0 (length (bytes bufs))
unfolding to_bool empty
to_bool-bytes bufs h = let p = sum_lengths_lem 0 bufs (omega arith) in ground arith

bytes-append : (xs ys : List Iovec) → bytes (xs ++ ys) ≡ bytes xs ++ bytes ys
unfolding bytes
bytes-append [] ys = refl
bytes-append (x ∷ xs) ys =
    rw (bytes-append xs ys)
      (sym (append_assoc (addresses x.iov_base x.iov_len) (bytes xs) (bytes ys)))

-- The size of a range in bytes is a std::size_t.
unfoldable pub Fits : Range → Type 0
Fits r = r.count * r.size < 2 ^ 64

-- The bytes of the ranges, one range after the other.
unfoldable pub range_bytes : List Range → List ℕ
range_bytes [] = []
range_bytes (r ∷ rs) = addresses r.range_data (r.count * r.size) ++ range_bytes rs

bytes-push_back_range :
    (bufs : List Iovec) (r : Range)
    → Fits r
    → bytes (push_back_range bufs r) ≡ bytes bufs ++ addresses r.range_data (r.count * r.size)
unfolding push_back_range push_back Fits bytes
bytes-push_back_range bufs r h =
    let p : r.count * r.size % 2 ^ 64 ≡ r.count * r.size = omega arith in
    rw
      (
        p,
        bytes-append bufs (record { iov_base = r.range_data; iov_len = r.count * r.size } ∷ []),
        append-nil (addresses r.range_data (r.count * r.size)),
      )
      refl

-- A message buffer built from ranges that each fit in a std::size_t holds the bytes of its first
-- content and then those of the ranges, in order.
pub bytes-from_ranges :
    (bufs : List Iovec) (rs : List Range)
    → All Fits rs
    → bytes (from_ranges bufs rs) ≡ bytes bufs ++ range_bytes rs
unfolding from_ranges range_bytes
bytes-from_ranges bufs [] h = sym (append-nil (bytes bufs))
bytes-from_ranges bufs (r ∷ rs) (h, hs) =
    bytes-from_ranges (push_back_range bufs r) rs hs
    ∙ ap (λ x. x ++ range_bytes rs) (bytes-push_back_range bufs r h)
    ∙ append_assoc (bytes bufs) (addresses r.range_data (r.count * r.size)) (range_bytes rs)
