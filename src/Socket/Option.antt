-- ===== src/Socket/Option.antt =====
-- `socket_option` of include/io/socket/socket_option.hpp and `socket_address` of
-- include/io/socket/socket_address.hpp. A value is the list of its bytes. `none` is a failed assertion,
-- or an access outside an array or a span, which is undefined.
pub mod Contents
pub mod Order
pub mod Examples
use Prim.Native.Nat.{Ordering, compare}
use async_berkeley.Base.{
  ℕ, ◌+◌, ◌-◌, Bool, true, false, ◌&&◌, not, Option, none, some, List, [], ◌∷◌, ◌++◌, length, take,
  drop, replicate, leb, ◌==◌, if◌then◌else◌, ◌>>=◌,
}

pub record SocketOption : Type 0 where
  pub storage : List ℕ
  pub size : ℕ

-- std::memcpy to the start of an array.
unfoldable pub memcpy : List ℕ → List ℕ → Option (List ℕ)
memcpy dst src = if leb (length src) (length dst) then some (src ++ drop (length src) dst) else none

-- std::memcmp, of lists of the same length.
unfoldable pub memcmp : List ℕ → List ℕ → Ordering
memcmp [] [] = Ordering.eq
memcmp [] (y ∷ ys) = Ordering.lt
memcmp (x ∷ xs) [] = Ordering.gt
memcmp (x ∷ xs) (y ∷ ys) = elim (compare x y) [
  | Ordering.lt ↦ Ordering.lt
  | Ordering.eq ↦ memcmp xs ys
  | Ordering.gt ↦ Ordering.gt
]

-- The bytes from `begin` to `end`.
unfoldable pub contents : SocketOption → Option (List ℕ)
contents o = if leb o.size (length o.storage) then some (take o.size o.storage) else none

-- operator<=>
unfoldable pub compare_options : SocketOption → SocketOption → Option Ordering
unfolding contents memcmp
compare_options lhs rhs =
    if lhs.size == rhs.size
    then (contents lhs >>= λ xs. contents rhs >>= λ ys. some (memcmp xs ys))
    else some (compare lhs.size rhs.size)

abbrev pub is_eq : Ordering → Bool
is_eq o = elim o [ Ordering.eq ↦ true | _ ↦ false ]

-- operator==
unfoldable pub equal_options : SocketOption → SocketOption → Option Bool
unfolding contents memcmp
equal_options lhs rhs =
    if lhs.size == rhs.size
    then (contents lhs >>= λ xs. contents rhs >>= λ ys. some (is_eq (memcmp xs ys)))
    else some false

-- The first `n` bytes at a pointer.
unfoldable pub read_bytes : List ℕ → ℕ → Option (List ℕ)
read_bytes addr n = if leb n (length addr) then some (take n addr) else none

-- `capacity` is sizeof(value_type); `asserts` is false in a build with NDEBUG.
module _ (capacity : ℕ) where
  -- storage_{}
  abbrev pub zeros : List ℕ
  zeros = replicate capacity 0

  -- socket_option(size_type)
  unfoldable pub of_size : ℕ → SocketOption
  of_size size = record { storage = zeros; size = size }

  -- socket_option(const value_type &)
  unfoldable pub of_value : List ℕ → Option SocketOption
  unfolding memcpy
  of_value val =
      memcpy zeros val >>= λ storage. some (record { storage = storage; size = capacity })

  -- operator*
  unfoldable pub value : SocketOption → List ℕ
  value o = take capacity o.storage

  module _ (asserts : Bool) where
    -- socket_option(std::span<const std::byte>)
    unfoldable pub of_span : List ℕ → Option SocketOption
    unfolding memcpy
    of_span option =
        if asserts && not (leb (length option) capacity)
        then none
        else if asserts && length option == 0
        then none
        else memcpy zeros option >>= λ storage.
            some (record { storage = storage; size = length option })

    -- socket_address(const sockaddr_type *, socklen_type), of the bytes at the pointer. The span has a
    -- fixed extent, the size of the address type, which `size` has to be.
    unfoldable pub of_pointer : List ℕ → ℕ → Option SocketOption
    unfolding of_span read_bytes
    of_pointer addr size =
        if size == capacity then (read_bytes addr capacity >>= λ bytes. of_span bytes) else none

    -- socket_address(const Addr *)
    unfoldable pub of_address : List ℕ → Option SocketOption
    unfolding of_span read_bytes
    of_address addr = read_bytes addr capacity >>= λ bytes. of_span bytes

    -- socket_address(const socket_address<OtherAddr> &), where `extent` is sizeof(OtherAddr). The span
    -- has this extent too, which the size of `other` has to be.
    unfoldable pub of_other : ℕ → SocketOption → Option SocketOption
    unfolding of_span contents
    of_other extent other =
        if other.size == extent then (contents other >>= λ bytes. of_span bytes) else none

    -- make_address, of a pointer that may be null.
    unfoldable pub make_address : Option (List ℕ) → Option SocketOption
    unfolding of_pointer of_size
    make_address none = some (of_size capacity)
    make_address (some addr) = of_pointer addr capacity
