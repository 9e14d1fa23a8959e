-- ===== src/Socket/Handle/Order.antt =====
-- The comparisons of socket handles.
use Prim.Native.Nat.{Ordering}
use async_berkeley.Base.{◌≡◌, ◌↔◌, true, int_lt, eq_of_parts, arith}
use async_berkeley.Socket.Handle.{Handle, compare, equal}

-- operator<=> is `less` exactly if the descriptor is the smaller one, and `greater` exactly if the
-- comparison the other way round is `less`; two handles are equal exactly if their descriptors are,
-- whatever their errors.
pub compare_lem :
    (lhs rhs : Handle)
    → ((compare lhs rhs ≡ Ordering.lt) ↔ (int_lt lhs.socket rhs.socket ≡ true))
      × ((compare lhs rhs ≡ Ordering.gt) ↔ (compare rhs lhs ≡ Ordering.lt))
      × ((equal lhs rhs ≡ true) ↔ (lhs.socket ≡ rhs.socket))
unfolding compare equal int_lt
compare_lem lhs rhs =
    (ground arith, ground arith, ground (arith, eq_of_parts lhs.socket rhs.socket))
