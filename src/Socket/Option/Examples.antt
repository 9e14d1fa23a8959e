-- ===== src/Socket/Option/Examples.antt =====
-- Tests and examples of the options: an int has 4 bytes, a sockaddr_in 16, a sockaddr_storage 128.
use Prim.Native.Nat.{Ordering}
use async_berkeley.Base.{ℕ, ◌≡◌, ◌↔◌, refl, true, none, some, [], ◌∷◌, ◌==◌, if◌then◌else◌, arith}
use async_berkeley.Socket.Option.{
  SocketOption, contents, of_span, of_value, of_pointer, of_address, make_address, compare_options,
  equal_options,
}
use async_berkeley.Socket.Option.Contents.{make_address-contents}
use async_berkeley.Socket.Option.Order.{IsWithin, compare_options-contents}

abbrev one : SocketOption
one = record { storage = 1 ∷ 0 ∷ 0 ∷ 0 ∷ []; size = 4 }

-- Of two bytes, which come before four.
abbrev short : SocketOption
short = record { storage = 9 ∷ 0 ∷ 0 ∷ 0 ∷ []; size = 2 }

one-of_value : of_value 4 (1 ∷ 0 ∷ 0 ∷ 0 ∷ []) ≡ some one
unfolding of_value
one-of_value = refl

short_first : compare_options short one ≡ some Ordering.lt
unfolding compare_options
short_first = refl

-- An assertion forbids the empty span, with or without a null pointer.
empty_span : of_span 4 true [] ≡ none
unfolding of_span
empty_span = refl

make_address-contents_example :
    (o : SocketOption) × (make_address 2 true (some (5 ∷ 6 ∷ 7 ∷ [])) ≡ some o)
    × (of_address 2 true (5 ∷ 6 ∷ 7 ∷ []) ≡ some o)
    × (contents o ≡ some (5 ∷ 6 ∷ []))
    × ((size : ℕ) → of_pointer 2 true (5 ∷ 6 ∷ 7 ∷ []) size ≡ (if size == 2 then some o else none))
make_address-contents_example =
    make_address-contents 2 true (5 ∷ 6 ∷ 7 ∷ []) (omega arith) (omega arith)

one-IsWithin : IsWithin one
one-IsWithin = record { within = omega arith }

short-IsWithin : IsWithin short
short-IsWithin = record { within = omega arith }

compare_options-contents_example :
    ((equal_options one short ≡ some true) ↔ (contents one ≡ contents short))
    × ((compare_options one short ≡ some Ordering.eq) ↔ (contents one ≡ contents short))
    × ((compare_options one short ≡ some Ordering.gt)
        ↔ (compare_options short one ≡ some Ordering.lt))
compare_options-contents_example = compare_options-contents one short one-IsWithin short-IsWithin
